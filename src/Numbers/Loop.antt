-- ===== src/Numbers/Loop.antt =====
-- The digit loops of `format_number`, kernel/src/stdio.c lines 16-29: what they leave in `tmp`.
use efi_os.Prelude.{
  ℕ, zero, suc, refl, ap, subst, ◌∙◌, ◌+◌, ◌-◌, ◌*◌, ◌/◌, ◌%◌, ◌<◌, ◌≤◌, ◌≡◌, ◌⊎◌, inl, inr,
  Bool-cases, Option, none, some, List, [], ◌∷◌, length, arith, ltb, ◌==◌, if◌then◌else◌, get_or,
}
use efi_os.Prelude.Bits.{bit_and_mask}
use efi_os.Numbers.{is_digit, hex_ascii, pow2_loop, ten_loop}

-- The bases that `format_number` treats apart.
pub data Base : Type 0 where
  oct dec hex : Base

abbrev pub radix : Base → ℕ
radix oct = 8
radix dec = 10
radix hex = 16

-- The digits `0` to `9` and `a` to `f`.
abbrev pub digit_value : ℕ → ℕ
digit_value c = if ltb c 58 then c - 48 else c - 87

-- What digits in a base spell behind `v`.
abbrev pub number : (base v : ℕ) → List ℕ → ℕ
number base v [] = v
number base v (c ∷ s) = number base (v * base + digit_value c) s

abbrev pub IsDigitOf : (base c : ℕ) → Type 0
IsDigitOf base c =
    ((b'0' ≤ c) × (c ≤ b'9') × (c < b'0' + base)) ⊎ ((b'a' ≤ c) × (c < 87 + base) × (c ≤ b'f'))

abbrev pub AllDigits : (base : ℕ) → List ℕ → Type 0
AllDigits base [] = Unit
AllDigits base (c ∷ s) = IsDigitOf base c × AllDigits base s

abbrev pub power : (base rounds : ℕ) → ℕ
power base zero = 1
power base (suc rounds) = base * power base rounds

-- One loop for the three bases.
pub digit_loop : (rounds base n : ℕ) → List ℕ → Option (List ℕ)
digit_loop zero base n tmp = none
digit_loop (suc rounds) base n tmp =
    let tmp' = get_or hex_ascii (n % base) 0 ∷ tmp in
    let further = digit_loop rounds base (n / base) tmp' in
    if n / base == 0 then some tmp' else further

-- A character of `hex_ascii` below a base is a digit of the base and has its value.
hex_digit :
    (base d : ℕ)
    → d < base
    → d < 16
    → IsDigitOf base (get_or hex_ascii d 0) × (digit_value (get_or hex_ascii d 0) ≡ d)
hex_digit base d h k = ground arith

remainder : (b : Base) (n : ℕ) → (n % radix b < radix b) × (n % radix b < 16)
remainder oct n = (omega arith, omega arith)
remainder dec n = (omega arith, omega arith)
remainder hex n = (omega arith, omega arith)

quotient :
    (b : Base) (n k : ℕ)
    → (n < radix b * k → n / radix b < k) × (n / radix b * radix b + n % radix b ≡ n)
quotient oct n k = (λ h. omega arith, omega arith)
quotient dec n k = (λ h. omega arith, omega arith)
quotient hex n k = (λ h. omega arith, omega arith)

last_digit : (b : Base) (n : ℕ) → n / radix b ≡ 0 → n % radix b ≡ n
last_digit oct n h = omega arith
last_digit dec n h = omega arith
last_digit hex n h = omega arith

rounds_left : (base rounds k : ℕ) → 0 < k → k < power base rounds → 0 < rounds
rounds_left base zero k h small = omega arith
rounds_left base (suc rounds) k h small = omega arith

-- What the loop leaves: the digits of the number before those in `tmp`, at most one a round.
pub record Left (base n rounds : ℕ) (tmp xs : List ℕ) : Type 0 where
  pub value : number base 0 xs ≡ number base n tmp
  pub digits : AllDigits base xs
  pub size : length xs ≤ rounds + length tmp
  pub some_digit : 0 < length xs

pub digit_loop-Left :
    (b : Base) (rounds n : ℕ) (tmp : List ℕ)
    → 0 < rounds
    → n < power (radix b) rounds
    → AllDigits (radix b) tmp
    → (xs : List ℕ) × (digit_loop rounds (radix b) n tmp ≡ some xs) × Left (radix b) n rounds tmp xs
unfolding digit_loop
digit_loop-Left b zero n tmp none_left h digits = absurd (omega arith)
digit_loop-Left b (suc rounds) n tmp _ h digits =
    let d = get_or hex_ascii (n % radix b) 0 in
    let (small, in_table) = remainder b n in
    let (is_digit, value) = hex_digit (radix b) (n % radix b) small in_table in
    let (fewer, whole) = quotient b n (power (radix b) rounds) in
    elim (Bool-cases (n / radix b == 0)) [
      | inl e ↦ (
        d ∷ tmp,
        rw e refl,
        record {
          value =
              ap (λ (v : ℕ). number (radix b) v tmp) {x = 0 * radix b + digit_value d} {y = n}
                (omega (arith, value, last_digit b n (ground arith)));
          digits = (is_digit, digits);
          size = omega arith;
          some_digit = omega arith;
        },
      )
      | inr e ↦
          let (xs, run, left) =
            digit_loop-Left b rounds (n / radix b) (d ∷ tmp)
              (rounds_left (radix b) rounds (n / radix b) (ground arith) (fewer h)) (fewer h)
              (is_digit, digits) in
          (
            xs,
            rw e run,
            record {
              value =
                  left.value
                  ∙ ap (λ (v : ℕ). number (radix b) v tmp)
                      {x = n / radix b * radix b + digit_value d} {y = n}
                      (ap (λ (v : ℕ). n / radix b * radix b + v) value ∙ whole);
              digits = left.digits;
              size = omega (arith, left.size);
              some_digit = left.some_digit;
            },
          )
    ]

pub ten_loop-digit_loop :
    (rounds n : ℕ) (tmp : List ℕ) → ten_loop rounds n tmp ≡ digit_loop rounds (radix dec) n tmp
unfolding ten_loop digit_loop
ten_loop-digit_loop zero n tmp = refl
ten_loop-digit_loop (suc rounds) n tmp =
    let same : get_or hex_ascii (n % 10) 0 ≡ b'0' + n % 10 = ground arith in
    rw same (rw (ten_loop-digit_loop rounds (n / 10) ((b'0' + n % 10) ∷ tmp)) refl)

pub pow2_loop-oct :
    (rounds n : ℕ) (tmp : List ℕ) → pow2_loop rounds n 7 3 tmp ≡ digit_loop rounds (radix oct) n tmp
unfolding pow2_loop digit_loop
pow2_loop-oct zero n tmp = refl
pow2_loop-oct (suc rounds) n tmp =
    rw (bit_and_mask 3 n)
      (rw (pow2_loop-oct rounds (n / 8) (get_or hex_ascii (n % 8) 0 ∷ tmp)) refl)

pub pow2_loop-hex :
    (rounds n : ℕ) (tmp : List ℕ)
    → pow2_loop rounds n 15 4 tmp ≡ digit_loop rounds (radix hex) n tmp
unfolding pow2_loop digit_loop
pow2_loop-hex zero n tmp = refl
pow2_loop-hex (suc rounds) n tmp =
    rw (bit_and_mask 4 n)
      (rw (pow2_loop-hex rounds (n / 16) (get_or hex_ascii (n % 16) 0 ∷ tmp)) refl)

-- More rounds change no result.
pub digit_loop_more :
    (k rounds base n : ℕ) (tmp xs : List ℕ)
    → digit_loop rounds base n tmp ≡ some xs
    → digit_loop (rounds + k) base n tmp ≡ some xs
unfolding digit_loop
digit_loop_more k zero base n tmp xs run = absurd (ground arith)
digit_loop_more k (suc rounds) base n tmp xs run =
    let further =
      digit_loop_more k rounds base (n / base) (get_or hex_ascii (n % base) 0 ∷ tmp) xs in
    subst (λ (r : ℕ). digit_loop r base n tmp ≡ some xs) {x = suc (rounds + k)} {y = suc rounds + k}
      (omega arith)
      (elim (Bool-cases (n / base == 0)) [
        | inl e ↦ rw e (rw e at run)
        | inr e ↦ rw e (further (rw e at run))
      ])
