-- ===== src/CircularBuffer/Push.antt =====
-- `cb_push` of kernel/src/circular_buffer.c against a bounded queue.
use native.Mathlib.Nat.{mod-add-mod, mod-lt}
use efi_os.Prelude.{
  ℕ, zero, suc, ◌+◌, ◌-◌, ◌%◌, ◌≤◌, ◌<◌, ◌≡◌, refl, sym, ap, ◌∙◌, inl, inr, true, false, some, List,
  [], ◌∷◌, ◌++◌, arith, ◌==◌, length, take, min, subst, Bool-cases, append_assoc, append-nil,
}
use efi_os.CircularBuffer.{CircularBuffer, LockState, push_items, cb_push, unlock}
use efi_os.CircularBuffer.Lock.{acquire_two}
use efi_os.CircularBuffer.Inv.{window, contents, IsValid, write, window-write}

module _ {A : Type 0} where
  take-suc : (n : ℕ) (x : A) (xs : List A) → 0 < n → take n (x ∷ xs) ≡ x ∷ take (n - 1) xs
  take-suc zero x xs h = absurd (omega arith)
  take-suc (suc n) x xs h = ap (λ k. x ∷ take k xs) (omega arith)

  take-none : (n : ℕ) (xs : List A) → n ≡ 0 → take n xs ≡ []
  take-none zero xs e = refl
  take-none (suc n) xs e = absurd (omega arith)

  take-empty : (n : ℕ) → take {A = A} n [] ≡ []
  take-empty zero = refl
  take-empty (suc n) = refl

  -- What the loop leaves, started at `cb` with `pushed` items pushed.
  record Pushed (cb : CircularBuffer A) (pushed : ℕ) (xs : List A) (out : ℕ × ℕ × CircularBuffer A)
      : Type 0 where
    room : out.2.max_size ≡ cb.max_size
    head_same : out.2.head ≡ cb.head
    lock_same : out.2.lock ≡ cb.lock
    size_more : out.2.size ≡ cb.size + min (length xs) (cb.max_size - cb.size)
    count : out.1 ≡ pushed + min (length xs) (cb.max_size - cb.size)
    tail_at : out.0 ≡ (cb.head + out.2.size) % cb.max_size
    held :
        window out.2.slots cb.max_size cb.head out.2.size
        ≡ window cb.slots cb.max_size cb.head cb.size ++ take (cb.max_size - cb.size) xs

  -- One element more in the storage.
  abbrev stored : CircularBuffer A → ℕ → A → CircularBuffer A
  stored cb tail x = record cb { size = cb.size + 1; slots = write cb.slots tail x }

  -- One round of the loop before the rest of it.
  push_one :
      (cb : CircularBuffer A) (tail pushed : ℕ) (x : A) (xs : List A)
      (out : ℕ × ℕ × CircularBuffer A)
      → cb.size < cb.max_size
      → tail ≡ (cb.head + cb.size) % cb.max_size
      → Pushed (stored cb tail x) (pushed + 1) xs out
      → Pushed cb pushed (x ∷ xs) out
  push_one cb tail pushed x xs out room e k = record {
    room = k.room;
    head_same = k.head_same;
    lock_same = k.lock_same;
    size_more = omega (arith, k.size_more);
    count = omega (arith, k.count);
    tail_at = k.tail_at;
    held =
        k.held
        ∙ ap
            (λ n.
              window (write cb.slots tail x) cb.max_size cb.head n
              ++ take (cb.max_size - (cb.size + 1)) xs)
            {x = cb.size + 1} {y = suc cb.size} (omega arith)
        ∙ ap (λ (l : List A). l ++ take (cb.max_size - (cb.size + 1)) xs)
            (window-write cb.slots cb.max_size x cb.size cb.head tail room e)
        ∙ append_assoc (window cb.slots cb.max_size cb.head cb.size) (x ∷ [])
            (take (cb.max_size - (cb.size + 1)) xs)
        ∙ ap (λ (n : ℕ). window cb.slots cb.max_size cb.head cb.size ++ x ∷ take n xs)
            {x = cb.max_size - (cb.size + 1)} {y = cb.max_size - cb.size - 1} (omega arith)
        ∙ ap (λ (l : List A). window cb.slots cb.max_size cb.head cb.size ++ l)
            (sym (take-suc (cb.max_size - cb.size) x xs (omega arith)));
  }

  next_slot :
      (cb : CircularBuffer A) (tail : ℕ)
      → tail ≡ (cb.head + cb.size) % cb.max_size
      → (tail + 1) % cb.max_size ≡ (cb.head + (cb.size + 1)) % cb.max_size
  next_slot cb tail e =
      ap (λ (t : ℕ). (t + 1) % cb.max_size) e
      ∙ mod-add-mod (cb.head + cb.size) cb.max_size 1
      ∙ ap (λ (n : ℕ). n % cb.max_size) (omega arith)

  push_items-Pushed :
      (xs : List A) (cb : CircularBuffer A) (tail pushed : ℕ)
      → 0 < cb.max_size
      → cb.size ≤ cb.max_size
      → tail ≡ (cb.head + cb.size) % cb.max_size
      → Pushed cb pushed xs (push_items cb tail pushed xs)
  unfolding push_items
  push_items-Pushed [] cb tail pushed some_room fits e = record {
    room = refl;
    head_same = refl;
    lock_same = refl;
    size_more = omega arith;
    count = omega arith;
    tail_at = e;
    held = rw (take-empty, append-nil) refl;
  }
  push_items-Pushed (x ∷ xs) cb tail pushed some_room fits e =
      elim (Bool-cases (cb.size == cb.max_size)) [
        | inl full ↦ rw full (record {
          room = refl;
          head_same = refl;
          lock_same = refl;
          size_more = ground arith;
          count = ground arith;
          tail_at = e;
          held = rw (take-none (cb.max_size - cb.size) (x ∷ xs) (ground arith), append-nil) refl;
        })
        | inr space ↦ rw space (
            push_one cb tail pushed x xs
              (push_items (stored cb tail x) ((tail + 1) % cb.max_size) (pushed + 1) xs)
              (ground arith) e
              (push_items-Pushed xs (stored cb tail x) ((tail + 1) % cb.max_size) (pushed + 1)
                some_room (ground arith) (next_slot cb tail e)))
      ]

  -- What `cb_push` leaves in a buffer that held `old`.
  pub record Appended (cb cb' : CircularBuffer A) (xs : List A) : Type 0 where
    pub valid : IsValid cb'
    pub same_room : cb'.max_size ≡ cb.max_size
    pub unlocked : cb'.lock.locked ≡ false
    pub appended : contents cb' ≡ contents cb ++ take (cb.max_size - cb.size) xs

  finish :
      (cb : CircularBuffer A) (s : LockState) (xs : List A) (out : ℕ × ℕ × CircularBuffer A)
      → IsValid cb
      → Pushed (record cb { lock = s }) 0 xs out
      → Appended cb (record out.2 { tail = out.0; lock = unlock out.2.lock }) xs
  finish cb s xs out v k = record {
    valid = record {
      room = omega (arith, v.room, k.room);
      head_in = omega (arith, v.head_in, k.room, k.head_same);
      tail_in =
          subst (λ (i : ℕ). i < out.2.max_size) (sym k.tail_at)
            (subst (λ (m : ℕ). (cb.head + out.2.size) % cb.max_size < m) (sym k.room)
              (mod-lt (cb.head + out.2.size) v.room));
      fits = omega (arith, v.fits, k.size_more, k.room);
      tail_at = rw (k.head_same, k.room) k.tail_at;
    };
    same_room = k.room;
    unlocked = refl;
    appended = rw (k.head_same, k.room) k.held;
  }

  -- `cb_push`, on a valid buffer and with two attempts at the lock or more, appends as many of the
  -- items as there is room for, the first ones, and returns their number; the buffer stays valid and
  -- is unlocked.
  pub cb_push-Appended :
      (n : ℕ) (cb : CircularBuffer A) (xs : List A)
      → IsValid cb
      → (cb' : CircularBuffer A) × (cb_push (suc (suc n)) cb xs
          ≡ some (min (length xs) (cb.max_size - cb.size), cb'))
        × Appended cb cb' xs
  unfolding cb_push
  cb_push-Appended n cb xs v =
      let s : LockState = record { locked = true; expected_false = cb.lock.locked } in
      let out = push_items (record cb { lock = s }) cb.tail 0 xs in
      let k : Pushed (record cb { lock = s }) 0 xs out =
        push_items-Pushed xs (record cb { lock = s }) cb.tail 0 v.room v.fits v.tail_at in
      let cb' = record out.2 { tail = out.0; lock = unlock out.2.lock } in
      (
        cb',
        rw (cb_push, acquire_two n cb.lock)
            (ap (λ (m : ℕ). some (m, cb')) {x = out.1} {y = min (length xs) (cb.max_size - cb.size)}
              (omega (arith, k.count))),
        finish cb s xs out v k,
      )
