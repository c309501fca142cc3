-- ===== src/Strings/Search.antt =====
-- The comparison of two strings, and the search for a character, of kernel/src/string.c.
use efi_os.Prelude.{
  ℕ, zero, suc, refl, sym, ap, ap₂, subst, ◌∙◌, inl, inr, Bool-cases, ◌+◌, ◌-◌, ◌<◌, ◌≡◌, ◌≢◌, ◌↔◌,
  true, false, some, List, [], ◌∷◌, length, arith, ==_iff, ◌==◌,
}
use mathlib.Core.List.{cons≢nil, nil≢cons, head-eq_of_cons-eq, tail-eq_of_cons-eq}
use efi_os.Prelude.Int.{ℤ, pos, ◌-ℤ◌}
use efi_os.Memory.{Memory}
use efi_os.Strings.{char_value, strcmp, strcmp_loop, strchr}
use efi_os.Strings.Text.{IsString, terminator, byte}

-- Two bytes that differ give a difference that is not 0.
difference : (x y : ℕ) → x < 256 → y < 256 → (char_value x -ℤ char_value y ≡ pos 0) ↔ (x ≡ y)
unfolding ◌-ℤ◌
difference x y hx hy = ground arith

-- `d` is 0 just if the strings are the same.
abbrev Decides : List ℕ → List ℕ → ℤ → Type 0
Decides xs ys d = (d ≡ pos 0) ↔ (xs ≡ ys)

differ :
    (m : Memory) (rounds a b i : ℕ)
    → m (a + i) ≢ m (b + i)
    → strcmp_loop (suc rounds) m a b i ≡ some (char_value (m (a + i)) -ℤ char_value (m (b + i)))
unfolding strcmp_loop
differ m rounds a b i apart =
    let here : (m (a + i) == m (b + i)) ≡ false = ground arith in rw here refl

agree :
    (m : Memory) (rounds a b i : ℕ)
    → m (a + i) ≡ m (b + i)
    → m (a + i) ≢ 0
    → strcmp_loop (suc rounds) m a b i ≡ strcmp_loop rounds m a b (i + 1)
unfolding strcmp_loop
agree m rounds a b i same more =
    let here : (m (a + i) == m (b + i)) ≡ true = ground arith in
    let there : (m (a + i) == 0) ≡ false = ground arith in rw (here, there) refl

both_end :
    (m : Memory) (rounds a b i : ℕ)
    → m (a + i) ≡ 0
    → m (b + i) ≡ 0
    → strcmp_loop (suc rounds) m a b i ≡ some (pos 0)
unfolding strcmp_loop ◌-ℤ◌
both_end m rounds a b i e f = rw (e, f) refl

strcmp_loop-Decides :
    (rounds : ℕ) (m : Memory) (a b i : ℕ) (xs ys : List ℕ)
    → ((c : ℕ) → m c < 256)
    → IsString m (a + i) xs
    → IsString m (b + i) ys
    → length xs < rounds
    → (d : ℤ) × (strcmp_loop rounds m a b i ≡ some d) × Decides xs ys d
strcmp_loop-Decides zero m a b i xs ys bytes s t enough = absurd (omega arith)
strcmp_loop-Decides (suc rounds) m a b i [] [] bytes (terminator e) (terminator f) enough =
    (pos 0, both_end m rounds a b i e f, ((λ _. refl), (λ _. refl)))
strcmp_loop-Decides (suc rounds) m a b i [] (y ∷ ys) bytes (terminator e) (byte f nonzero t)
      enough =
    let apart : m (a + i) ≢ m (b + i) = omega (arith, e, f, nonzero) in
    (
      _,
      differ m rounds a b i apart,
      (
        (λ k. absurd (apart ((difference _ _ (bytes _) (bytes _)).0 k))),
        (λ k. absurd (nil≢cons k)),
      ),
    )
strcmp_loop-Decides (suc rounds) m a b i (x ∷ xs) [] bytes (byte e nonzero s) (terminator f)
      enough =
    let apart : m (a + i) ≢ m (b + i) = omega (arith, e, f, nonzero) in
    (
      _,
      differ m rounds a b i apart,
      (
        (λ k. absurd (apart ((difference _ _ (bytes _) (bytes _)).0 k))),
        (λ k. absurd (cons≢nil k)),
      ),
    )
strcmp_loop-Decides (suc rounds) m a b i (x ∷ xs) (y ∷ ys) bytes (byte e nonzero s)
      (byte f nonzero' t) enough =
    elim (Bool-cases (x == y)) [
      | inl same ↦
          let eq : x ≡ y = (==_iff x y).0 same in
          let (d, done, k) =
            strcmp_loop-Decides rounds m a b (i + 1) xs ys bytes (moved m a i xs s)
              (moved m b i ys t) (omega arith) in
          (
            d,
            agree m rounds a b i (e ∙ eq ∙ sym f) (omega (arith, e, nonzero)) ∙ done,
            ((λ z. ap₂ ◌∷◌ eq (k.0 z)), (λ q. k.1 (tail-eq_of_cons-eq q))),
          )
      | inr apart' ↦
          let apart : m (a + i) ≢ m (b + i) = ground arith in
          (
            _,
            differ m rounds a b i apart,
            (
              (λ k. absurd (apart ((difference _ _ (bytes _) (bytes _)).0 k))),
              (λ q. absurd (apart (e ∙ head-eq_of_cons-eq q ∙ sym f))),
            ),
          )
    ]
  where
    moved :
        (m : Memory) (a i : ℕ) (xs : List ℕ)
        → IsString m (a + i + 1) xs
        → IsString m (a + (i + 1)) xs
    moved m a i xs s =
        subst (λ (c : ℕ). IsString m c xs) {x = a + i + 1} {y = a + (i + 1)} (omega arith) s

-- `strcmp` of two strings, in a memory of bytes and with more rounds than the first string has bytes,
-- ends, and its result is 0 just if they are the same.
pub strcmp-same :
    (rounds : ℕ) (m : Memory) (str1 str2 : ℕ) (xs ys : List ℕ)
    → ((c : ℕ) → m c < 256)
    → IsString m str1 xs
    → IsString m str2 ys
    → length xs < rounds
    → (d : ℤ) × (strcmp rounds m str1 str2 ≡ some d) × ((d ≡ pos 0) ↔ (xs ≡ ys))
unfolding strcmp
strcmp-same rounds m str1 str2 xs ys bytes s t enough =
    strcmp_loop-Decides rounds m str1 str2 0 xs ys bytes (from_start str1 xs s)
      (from_start str2 ys t) enough
  where
    from_start : (a : ℕ) (xs : List ℕ) → IsString m a xs → IsString m (a + 0) xs
    from_start a xs s = subst (λ (c : ℕ). IsString m c xs) {x = a} {y = a + 0} (omega arith) s

-- Where a character stands first in a text, or that it does not stand there.
pub data Sought (m : Memory) (s c : ℕ) (xs : List ℕ) : ℕ → Type 0 where
  stands_at :
      (k : ℕ)
      → k < length xs
      → m (s + k) ≡ c
      → ((j : ℕ) → j < k → m (s + j) ≢ c)
      → Sought m s c xs (s + k)
  not_there : ((j : ℕ) → j < length xs → m (s + j) ≢ c) → Sought m s c xs 0

one_on :
    (m : Memory) (s c x r : ℕ) (xs : List ℕ)
    → m s ≢ c
    → Sought m (s + 1) c xs r
    → Sought m s c (x ∷ xs) r
one_on m s c x r xs apart (stands_at k inside here before) =
    subst (Sought m s c (x ∷ xs)) {x = s + (k + 1)} {y = s + 1 + k} (omega arith) (
      stands_at (k + 1) (omega arith) (ap m (omega arith) ∙ here) (λ j lt.
        elim (Bool-cases (j == 0)) [
          | inl z ↦ λ e. apart (ap m {x = s} {y = s + j} (ground arith) ∙ e)
          | inr nz ↦ λ e.
              before (j - 1) (ground arith)
                (ap m {x = s + 1 + (j - 1)} {y = s + j} (ground arith) ∙ e)
        ]))
one_on m s c x r xs apart (not_there none_at) = not_there (λ j lt. elim (Bool-cases (j == 0)) [
  | inl z ↦ λ e. apart (ap m {x = s} {y = s + j} (ground arith) ∙ e)
  | inr nz ↦ λ e.
      none_at (j - 1) (ground arith) (ap m {x = s + 1 + (j - 1)} {y = s + j} (ground arith) ∙ e)
])

-- `strchr` of a string, with more rounds than it has bytes, gives the address of the first byte that
-- is the character, or NULL if none is (also where the character is 0).
pub strchr-Sought :
    (rounds : ℕ) (m : Memory) (s c : ℕ) (xs : List ℕ)
    → IsString m s xs
    → length xs < rounds
    → (r : ℕ) × (strchr rounds m s c ≡ some r) × Sought m s c xs r
unfolding strchr
strchr-Sought zero m s c xs k enough = absurd (omega arith)
strchr-Sought (suc rounds) m s c [] (terminator e) enough =
    let here : (m s == 0) ≡ true = ground arith in
    (0, rw here refl, not_there (λ j lt. absurd (omega arith)))
strchr-Sought (suc rounds) m s c (x ∷ xs) (byte e nonzero k) enough =
    let more : (m s == 0) ≡ false = ground arith in
    elim (Bool-cases (m s == c)) [
      | inl same ↦ (
        s,
        rw (more, same) refl,
        subst (Sought m s c (x ∷ xs)) {x = s + 0} {y = s} (omega arith) (
            stands_at 0 (omega arith)
              (ap m {x = s + 0} {y = s} (omega arith) ∙ (==_iff (m s) c).0 same)
              (λ j lt. absurd (omega arith))),
      )
      | inr apart ↦
          let (r, done, t) = strchr-Sought rounds m (s + 1) c xs k (omega arith) in
          (r, rw (more, apart) done, one_on m s c x r xs (ground arith) t)
    ]
