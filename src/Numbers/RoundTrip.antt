-- ===== src/Numbers/RoundTrip.antt =====
-- `atol` of kernel/src/stdlib.c on the digits that `format_number` of kernel/src/stdio.c leaves.
use efi_os.Prelude.{
  ℕ, zero, suc, refl, subst, ◌∙◌, ◌+◌, ◌-◌, ◌*◌, ◌%◌, ◌^◌, ◌<◌, ◌≤◌, ◌≡◌, true, false, some, List,
  [], ◌∷◌, length, arith, ◌==◌, add64,
}
use efi_os.Memory.{Memory, store}
use efi_os.Numbers.{is_digit, atol, atol_loop, format_number}
use efi_os.Numbers.Loop.{digit_value, number, AllDigits}
use efi_os.Numbers.Reading.{Spelled, format_number-Printed}

pub le-number : (s : List ℕ) (v : ℕ) → v ≤ number 10 v s
le-number [] v = omega arith
le-number (c ∷ s) v = omega (arith, le-number s (v * 10 + digit_value c))

-- The loop on digits and a byte behind them that is none, where the number fits.
atol_loop-number :
    (left : ℕ) (m : Memory) (buf i v : ℕ) (s : List ℕ)
    → Spelled m (buf + i) s
    → AllDigits 10 s
    → is_digit (m (buf + i + length s)) ≡ false
    → length s ≤ left
    → number 10 v s < 2 ^ 64
    → atol_loop left m buf i v ≡ number 10 v s
unfolding atol_loop
atol_loop-number zero m buf i v [] there digits stop room fits = refl
atol_loop-number zero m buf i v (c ∷ s) there digits stop room fits = absurd (omega arith)
atol_loop-number (suc left) m buf i v [] there digits stop room fits =
    let here : is_digit (m (buf + i)) ≡ false =
      subst (λ (a : ℕ). is_digit (m a) ≡ false) {x = buf + i + 0} {y = buf + i} (omega arith)
        stop in
    rw here refl
atol_loop-number (suc left) m buf i v (c ∷ s) (e, there) (d, digits) stop room fits =
    let here : is_digit c ≡ true = ground arith in
    let exact : add64 ((v * 10) % 2 ^ 64) (c - b'0') ≡ v * 10 + digit_value c =
      ground (arith, le-number s (v * 10 + digit_value c)) in
    rw e (
      rw here (
        rw exact (
          atol_loop-number left m buf (i + 1) (v * 10 + digit_value c) s
            (subst (λ (a : ℕ). Spelled m a s) {x = buf + i + 1} {y = buf + (i + 1)} (omega arith)
              there)
            digits
            (subst (λ (a : ℕ). is_digit (m a) ≡ false) {x = buf + i + suc (length s)}
              {y = buf + (i + 1) + length s} (omega arith) stop)
            (omega arith) fits)))

atol-number :
    (m : Memory) (buf : ℕ) (s : List ℕ)
    → Spelled m buf s
    → AllDigits 10 s
    → 0 < length s
    → is_digit (m (buf + length s)) ≡ false
    → length s ≤ 20
    → number 10 0 s < 2 ^ 64
    → atol m buf ≡ number 10 0 s
unfolding atol
atol-number m buf [] there digits some_digit stop room fits = absurd (omega arith)
atol-number m buf (c ∷ s) (e, there) (d, digits) some_digit stop room fits =
    let no_sign : (m buf == b'-') ≡ false = ground arith in
    rw no_sign (
      atol_loop-number 20 m buf 0 0 (c ∷ s)
        (subst (λ (a : ℕ). Spelled m a (c ∷ s)) {x = buf} {y = buf + 0} (omega arith) (e, there))
        (d, digits)
        (subst (λ (a : ℕ). is_digit (m a) ≡ false) {x = buf + suc (length s)}
          {y = buf + 0 + suc (length s)} (omega arith) stop)
        room fits)

Spelled-store :
    (m : Memory) (a x v : ℕ) (s : List ℕ)
    → a + length s ≤ x
    → Spelled m a s
    → Spelled (store m x v) a s
Spelled-store m a x v [] h there = tt
Spelled-store m a x v (c ∷ s) h (e, there) =
    (ground arith, Spelled-store m (a + 1) x v s (omega arith) there)

-- A number below 2^63 printed in decimal by `format_number` (at least 22 rounds), then a byte behind it that is no digit: `atol`
-- reads the number back.
pub atol-format_number :
    (rounds : ℕ) (m : Memory) (buf n stop : ℕ)
    → n < 2 ^ 63
    → 22 ≤ rounds
    → is_digit stop ≡ false
    → (out : ℕ × Memory) × (format_number rounds m buf n 10 ≡ some out)
      × (atol (store out.1 out.0 stop) buf ≡ n)
atol-format_number rounds m buf n stop small enough no_digit =
    let (out, s, run, p) =
      format_number-Printed rounds 19 m buf n 10 (omega arith) (omega arith) (omega arith) in
    let m' = store out.1 out.0 stop in
    let last : m' (buf + length s) ≡ stop = ground (arith, p.end) in
    (
      out,
      run,
      atol-number m' buf s
            (Spelled-store out.1 buf out.0 stop s (omega (arith, p.end)) p.bytes.there) p.digits
            p.some_digit (rw last no_digit) (omega (arith, p.size)) (omega (arith, p.value))
          ∙ p.value,
    )
