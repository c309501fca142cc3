-- ===== src/CircularBuffer/Inv.antt =====
-- What a circular buffer of kernel/src/circular_buffer.c holds, and its representation invariant.
use native.Mathlib.Nat.{mod-eq_of_lt, mod-add-mod, mod-lt, mod-eq-sub-mod, mod-mod, add-zero}
use efi_os.Prelude.{
  ℕ, zero, suc, ◌+◌, ◌-◌, ◌%◌, ◌≤◌, ◌<◌, ◌≡◌, ◌≢◌, refl, sym, ap, ap₂, ◌∙◌, inl, inr, Bool, true,
  false, List, [], ◌∷◌, ◌++◌, arith, ◌==◌, ltb, if◌then◌else◌, length, Bool-cases,
}
use efi_os.CircularBuffer.{CircularBuffer, cb_init}

-- Fewer than `cap` steps on there is another slot.
other_slot : (cap h k : ℕ) → 0 < k → k < cap → (h + k) % cap ≢ h % cap
other_slot cap h k some_steps few = elim (Bool-cases (ltb (h % cap + k) cap)) [
  | inl below ↦
      ground (arith, mod-add-mod h cap k, mod-eq_of_lt {n = h % cap + k} {m = cap} (ground arith))
  | inr round ↦ ground (
    arith,
    mod-add-mod h cap k,
    mod-lt h {m = cap} (omega arith),
    mod-eq-sub-mod {n = h % cap + k} {m = cap} (ground arith),
    mod-eq_of_lt {n = h % cap + k - cap} {m = cap}
        (omega (arith, mod-lt h {m = cap} (omega arith))),
  )
]

module _ {A : Type 0} where
  -- The `n` elements from index `h` on, counted round the storage.
  abbrev pub window : (slots : ℕ → A) (cap h n : ℕ) → List A
  window slots cap h zero = []
  window slots cap h (suc n) = slots (h % cap) ∷ window slots cap (h + 1) n

  -- What the buffer holds, the oldest element first.
  abbrev pub contents : CircularBuffer A → List A
  contents cb = window cb.slots cb.max_size cb.head cb.size

  pub record IsValid (cb : CircularBuffer A) : Type 0 where
    pub room : 0 < cb.max_size
    pub head_in : cb.head < cb.max_size
    pub tail_in : cb.tail < cb.max_size
    pub fits : cb.size ≤ cb.max_size
    pub tail_at : cb.tail ≡ (cb.head + cb.size) % cb.max_size

  pub length-window : (slots : ℕ → A) (cap h n : ℕ) → length (window slots cap h n) ≡ n
  length-window slots cap h zero = refl
  length-window slots cap h (suc n) = ap suc (length-window slots cap (h + 1) n)

  -- An index may be taken round the storage first.
  pub window-mod :
      (slots : ℕ → A) (cap h n : ℕ) → window slots cap (h % cap) n ≡ window slots cap h n
  window-mod slots cap h zero = refl
  window-mod slots cap h (suc n) = ap₂ ◌∷◌ (ap slots (mod-mod h cap)) (
      sym (window-mod slots cap (h % cap + 1) n)
      ∙ ap (λ i. window slots cap i n) (mod-add-mod h cap 1)
      ∙ window-mod slots cap (h + 1) n)

  abbrev pub write : (ℕ → A) → ℕ → A → ℕ → A
  write slots i x j = if j == i then x else slots j

  -- A write `n` slots on leaves the `n` elements before it, and becomes the next one.
  pub window-write :
      (slots : ℕ → A) (cap : ℕ) (x : A) (n h t : ℕ)
      → n < cap
      → t ≡ (h + n) % cap
      → window (write slots t x) cap h (suc n) ≡ window slots cap h n ++ x ∷ []
  window-write slots cap x zero h t few e =
      let here : (h % cap == t) ≡ true = ground (arith, add-zero h) in rw here refl
  window-write slots cap x (suc n) h t few e =
      let elsewhere : (h % cap == t) ≡ false =
        ground (arith, other_slot cap h (suc n) (omega arith) few) in
      ap₂ ◌∷◌ (rw elsewhere refl) (
        window-write slots cap x n (h + 1) t (omega arith)
          (e ∙ ap (λ (i : ℕ). i % cap) (omega arith)))

  -- A new buffer of a positive size is empty and valid.
  pub cb_init-IsValid :
      (storage : ℕ → A) (size : ℕ) (b : Bool)
      → 0 < size
      → IsValid (cb_init storage size b) × (contents (cb_init storage size b) ≡ [])
  unfolding cb_init
  cb_init-IsValid storage size b h = (
    record {
      room = h;
      head_in = h;
      tail_in = h;
      fits = omega arith;
      tail_at = sym (mod-eq_of_lt h);
    },
    refl,
  )
