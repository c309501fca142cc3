-- ===== src/CircularBuffer/Pop.antt =====
-- `cb_pop` of kernel/src/circular_buffer.c against a bounded queue.
use native.Mathlib.Nat.{mod-add-mod, mod-lt, mod-eq_of_lt}
use mathlib.Core.List
use mathlib.Core.List.{reverse-cons}
use efi_os.Prelude.{
  ℕ, zero, suc, ◌+◌, ◌-◌, ◌%◌, ◌<◌, ◌≡◌, refl, sym, ap, ap₂, ◌∙◌, inl, inr, true, false, some, List,
  [], ◌∷◌, ◌++◌, arith, ◌==◌, take, drop, min, Bool-cases, append_assoc, append-nil,
}
use efi_os.CircularBuffer.{CircularBuffer, LockState, pop_items, cb_pop, unlock}
use efi_os.CircularBuffer.Lock.{acquire_two}
use efi_os.CircularBuffer.Inv.{window, window-mod, contents, IsValid}

module _ {A : Type 0} where
  -- Dropping from a window moves its start.
  drop-window :
      (slots : ℕ → A) (cap h m n : ℕ)
      → drop n (window slots cap h m) ≡ window slots cap (h + min n m) (m - n)
  drop-window slots cap h m zero =
      ap₂ (λ (i k : ℕ). window slots cap i k) {x = h} {y = h + min 0 m} {u = m} {v = m - 0}
        (omega arith) (omega arith)
  drop-window slots cap h zero (suc n) =
      ap (λ (k : ℕ). window slots cap (h + min (suc n) 0) k) {x = 0} {y = 0 - suc n} (omega arith)
  drop-window slots cap h (suc m) (suc n) =
      drop-window slots cap (h + 1) m n
      ∙ ap (λ (i : ℕ). window slots cap i (m - n)) {x = h + 1 + min n m}
          {y = h + min (suc n) (suc m)} (omega arith)
      ∙ ap (λ (k : ℕ). window slots cap (h + min (suc n) (suc m)) k) {x = m - n} {y = suc m - suc n}
          (omega arith)

  take-nil_of_zero : (slots : ℕ → A) (cap h m n : ℕ) → m ≡ 0 → take n (window slots cap h m) ≡ []
  take-nil_of_zero slots cap h zero zero e = refl
  take-nil_of_zero slots cap h zero (suc n) e = refl
  take-nil_of_zero slots cap h (suc m) n e = absurd (omega arith)

  take-window-suc :
      (slots : ℕ → A) (cap h m n : ℕ)
      → 0 < m
      → take (suc n) (window slots cap h m)
        ≡ slots (h % cap) ∷ take n (window slots cap (h + 1) (m - 1))
  take-window-suc slots cap h zero n p = absurd (omega arith)
  take-window-suc slots cap h (suc m) n p =
      ap (λ k. slots (h % cap) ∷ take n (window slots cap (h + 1) k)) {x = m} {y = suc m - 1}
        (omega arith)

  -- What the loop leaves, started at slot `h` with the elements `out` copied out.
  record Popped (cb : CircularBuffer A) (h count : ℕ) (out : List A)
      (r : ℕ × List A × CircularBuffer A) : Type 0 where
    room : r.2.max_size ≡ cb.max_size
    slots_same : r.2.slots ≡ cb.slots
    tail_same : r.2.tail ≡ cb.tail
    size_less : r.2.size ≡ cb.size - count
    head_at : r.0 ≡ (h + min count cb.size) % cb.max_size
    copied :
        List.reverse r.1 ≡ List.reverse out ++ take count (window cb.slots cb.max_size h cb.size)

  -- One round of the loop before the rest of it.
  pop_one :
      (cb : CircularBuffer A) (h count : ℕ) (out : List A) (r : ℕ × List A × CircularBuffer A)
      → h < cb.max_size
      → 0 < cb.size
      → Popped (record cb { size = cb.size - 1 }) ((h + 1) % cb.max_size) count (cb.slots h ∷ out) r
      → Popped cb h (suc count) out r
  pop_one cb h count out r inside some_left k = record {
    room = k.room;
    slots_same = k.slots_same;
    tail_same = k.tail_same;
    size_less = omega (arith, k.size_less);
    head_at =
        k.head_at
        ∙ mod-add-mod (h + 1) cb.max_size (min count (cb.size - 1))
        ∙ ap (λ (i : ℕ). i % cb.max_size) {x = h + 1 + min count (cb.size - 1)}
            {y = h + min (suc count) cb.size} (omega arith);
    copied =
        k.copied
        ∙ rw
            (
              reverse-cons (cb.slots h) out,
              append_assoc,
              window-mod cb.slots cb.max_size (h + 1) (cb.size - 1),
              take-window-suc cb.slots cb.max_size h cb.size count some_left,
              mod-eq_of_lt inside,
            )
            refl;
  }

  pop_items-Popped :
      (count : ℕ) (cb : CircularBuffer A) (h : ℕ) (out : List A)
      → h < cb.max_size
      → Popped cb h count out (pop_items cb h count out)
  unfolding pop_items
  pop_items-Popped zero cb h out inside = record {
    room = refl;
    slots_same = refl;
    tail_same = refl;
    size_less = omega arith;
    head_at =
        sym (mod-eq_of_lt inside)
        ∙ ap (λ (i : ℕ). i % cb.max_size) {x = h} {y = h + min 0 cb.size} (omega arith);
    copied = rw append-nil refl;
  }
  pop_items-Popped (suc count) cb h out inside = elim (Bool-cases (cb.size == 0)) [
    | inl empty ↦ rw empty (record {
      room = refl;
      slots_same = refl;
      tail_same = refl;
      size_less = ground arith;
      head_at =
          sym (mod-eq_of_lt inside)
          ∙ ap (λ (i : ℕ). i % cb.max_size) {x = h} {y = h + min (suc count) cb.size}
              (ground arith);
      copied =
          rw
            (take-nil_of_zero cb.slots cb.max_size h cb.size (suc count) (ground arith), append-nil)
            refl;
    })
    | inr some_left ↦ rw some_left (
        pop_one cb h count out
          (pop_items (record cb { size = cb.size - 1 }) ((h + 1) % cb.max_size) count
            (cb.slots h ∷ out))
          inside (ground arith)
          (pop_items-Popped count (record cb { size = cb.size - 1 }) ((h + 1) % cb.max_size)
            (cb.slots h ∷ out) (mod-lt (h + 1) (omega arith))))
  ]

  -- What `cb_pop` of `count` elements leaves.
  pub record Removed (cb cb' : CircularBuffer A) (count : ℕ) : Type 0 where
    pub valid : IsValid cb'
    pub same_room : cb'.max_size ≡ cb.max_size
    pub unlocked : cb'.lock.locked ≡ false
    pub removed : contents cb' ≡ drop count (contents cb)

  finish :
      (cb : CircularBuffer A) (s : LockState) (count : ℕ) (r : ℕ × List A × CircularBuffer A)
      → IsValid cb
      → Popped (record cb { lock = s }) cb.head count [] r
      → Removed cb (record r.2 { head = r.0; lock = unlock r.2.lock }) count
  finish cb s count r v k = record {
    valid = record {
      room = omega (arith, v.room, k.room);
      head_in = rw (k.head_at, k.room) (mod-lt (cb.head + min count cb.size) v.room);
      tail_in = omega (arith, v.tail_in, k.room, k.tail_same);
      fits = omega (arith, v.fits, k.size_less, k.room);
      tail_at =
          k.tail_same
          ∙ v.tail_at
          ∙ ap (λ (i : ℕ). i % cb.max_size) {x = cb.head + cb.size}
              {y = cb.head + min count cb.size + (cb.size - count)} (omega arith)
          ∙ sym (mod-add-mod (cb.head + min count cb.size) cb.max_size (cb.size - count))
          ∙ rw (k.head_at, k.size_less, k.room) refl;
    };
    same_room = k.room;
    unlocked = refl;
    removed =
        rw
          (
            k.head_at,
            k.size_less,
            k.room,
            k.slots_same,
            window-mod cb.slots cb.max_size (cb.head + min count cb.size) (cb.size - count),
          )
          (sym (drop-window cb.slots cb.max_size cb.head cb.size count));
  }

  -- `cb_pop`, on a valid buffer and with two attempts at the lock or more, returns the first `count`
  -- elements that the buffer holds, or all of them if they are fewer, in order, and leaves the others;
  -- the buffer stays valid and is unlocked.
  pub cb_pop-Removed :
      (n : ℕ) (cb : CircularBuffer A) (count : ℕ)
      → IsValid cb
      → (cb' : CircularBuffer A) × (cb_pop (suc (suc n)) cb count
          ≡ some (take count (contents cb), cb'))
        × Removed cb cb' count
  unfolding cb_pop
  cb_pop-Removed n cb count v =
      let s : LockState = record { locked = true; expected_false = cb.lock.locked } in
      let r = pop_items (record cb { lock = s }) cb.head count [] in
      let k : Popped (record cb { lock = s }) cb.head count [] r =
        pop_items-Popped count (record cb { lock = s }) cb.head [] v.head_in in
      let cb' = record r.2 { head = r.0; lock = unlock r.2.lock } in
      (
        cb',
        rw (cb_pop, acquire_two n cb.lock) (ap (λ (l : List A). some (l, cb')) k.copied),
        finish cb s count r v k,
      )
