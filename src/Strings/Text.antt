-- ===== src/Strings/Text.antt =====
-- The text of a string of kernel/src/string.c: its length, a copy of it, a comparison of two.
use efi_os.Prelude.{
  ℕ, zero, suc, refl, ap, subst, ◌∙◌, inl, ◌+◌, ◌<◌, ◌≡◌, ◌≢◌, ◌⊎◌, true, false, some, List, [],
  ◌∷◌, length, arith, ◌==◌,
}
use efi_os.Memory.{Memory, store}
use efi_os.Strings.{strlen, strlen_loop, strcpy}

-- The bytes `xs`, none of which is 0, stand at an address, and a 0 behind them.
pub data IsString (m : Memory) : ℕ → List ℕ → Type 0 where
  terminator : {a : ℕ} → m a ≡ 0 → IsString m a []
  byte : {a x : ℕ} {xs : List ℕ} → m a ≡ x → x ≢ 0 → IsString m (a + 1) xs → IsString m a (x ∷ xs)

strlen_loop-IsString :
    (rounds : ℕ) (m : Memory) (str i : ℕ) (xs : List ℕ)
    → IsString m (str + i) xs
    → length xs < rounds
    → strlen_loop rounds m str i ≡ some (i + length xs)
unfolding strlen_loop
strlen_loop-IsString zero m str i xs s enough = absurd (omega arith)
strlen_loop-IsString (suc rounds) m str i [] (terminator e) enough =
    let here : (m (str + i) == 0) ≡ true = ground arith in
    rw here (ap some {x = i} {y = i + 0} (omega arith))
strlen_loop-IsString (suc rounds) m str i (x ∷ xs) (byte e nonzero s) enough =
    let here : (m (str + i) == 0) ≡ false = ground arith in
    rw here (
      strlen_loop-IsString rounds m str (i + 1) xs
        (subst (λ (a : ℕ). IsString m a xs) {x = str + i + 1} {y = str + (i + 1)} (omega arith) s)
        (omega arith)
      ∙ ap some {x = i + 1 + length xs} {y = i + suc (length xs)} (omega arith))

-- `strlen` of a string, with more rounds than it has bytes, is their number.
pub strlen-IsString :
    (rounds : ℕ) (m : Memory) (str : ℕ) (xs : List ℕ)
    → IsString m str xs
    → length xs < rounds
    → strlen rounds m str ≡ some (length xs)
unfolding strlen
strlen-IsString rounds m str xs s enough =
    strlen_loop-IsString rounds m str 0 xs
      (subst (λ (a : ℕ). IsString m a xs) {x = str} {y = str + 0} (omega arith) s) enough
    ∙ ap some {x = 0 + length xs} {y = length xs} (omega arith)

-- A store elsewhere keeps a string.
IsString-store :
    (m : Memory) (a v : ℕ) (s : ℕ) (xs : List ℕ)
    → (a < s) ⊎ (s + length xs < a)
    → IsString m s xs
    → IsString (store m a v) s xs
IsString-store m a v s [] apart (terminator e) = terminator (ground arith)
IsString-store m a v s (x ∷ xs) apart (byte e nonzero k) =
    byte (ground arith) nonzero (IsString-store m a v (s + 1) xs (ground arith) k)

-- `strcpy` of a string to a place that does not overlap it, or lies below it, with more rounds than it
-- has bytes: the string stands at the destination, and no byte outside of that changes.
pub strcpy-IsString :
    (rounds : ℕ) (m : Memory) (dest src : ℕ) (xs : List ℕ)
    → IsString m src xs
    → length xs < rounds
    → (dest < src) ⊎ (src + length xs < dest)
    → (m' : Memory) × (strcpy rounds m dest src ≡ some m')
      × IsString m' dest xs
      × ((x : ℕ) → (x < dest) ⊎ (dest + length xs < x) → m' x ≡ m x)
unfolding strcpy
strcpy-IsString zero m dest src xs s enough apart = absurd (omega arith)
strcpy-IsString (suc rounds) m dest src [] (terminator e) enough apart =
    let here : (m src == 0) ≡ true = ground arith in
    (store m dest 0, rw here refl, terminator (ground arith), λ x out. ground arith)
strcpy-IsString (suc rounds) m dest src (x ∷ xs) (byte e nonzero s) enough apart =
    let here : (m src == 0) ≡ false = ground arith in
    let m1 = store m dest (m src) in
    let (m', done, there, same) =
      strcpy-IsString rounds m1 (dest + 1) (src + 1) xs
        (IsString-store m dest (m src) (src + 1) xs (ground arith) s) (omega arith)
        (ground arith) in
    (
      m',
      rw here done,
      byte (same dest (inl (omega arith)) ∙ ground arith) nonzero there,
      λ y out. same y (ground arith) ∙ ground arith,
    )
