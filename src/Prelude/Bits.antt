-- ===== src/Prelude/Bits.antt =====
-- Laws of `bit_and` and `bit_or` at variables: a word is split at bit `k`, and the operations act on
-- the two halves.
use Prim.Native.Nat.{
  ℕ, zero, suc, ◌+◌, ◌-◌, ◌*◌, ◌/◌, ◌%◌, ◌^◌, ◌≤◌, ◌<◌, min, max, bit_and, bit_or, digits, bitwise,
  bit_and-bitwise, bit_or-bitwise,
}
use mathlib.Core.Path.{◌≡◌, refl, sym, ap, ◌∙◌}
use native.Mathlib.Nat.{pow-suc, one-le-pow, add-mul-mod_self_right, mod-eq_of_lt}
use native.Mathlib.Omega.{arith}

-- Digits beyond the bound of the first number add nothing; `z` says what is left of the second one.
module _ (z : ℕ → ℕ) (f : ℕ → ℕ → ℕ) where
  one_digit_more : (n x y : ℕ) → x ≤ n → digits z f (suc n) x y ≡ digits z f n x y
  one_digit_more zero zero y bound = refl
  one_digit_more zero (suc x) y bound = elim bound [ ]
  one_digit_more (suc n) zero y bound = refl
  one_digit_more (suc n) (suc x) y bound =
      ap (λ (q : ℕ). q * 2 + f (suc x % 2) (y % 2))
        (one_digit_more n (suc x / 2) (y / 2) (omega arith))

  digits_more : (k n m x y : ℕ) → n ≡ m + k → x ≤ m → digits z f n x y ≡ digits z f m x y
  digits_more zero n m x y e bound = ap (λ (i : ℕ). digits z f i x y) (omega (arith, e))
  digits_more (suc k) zero m x y e bound = absurd (omega (arith, e))
  digits_more (suc k) (suc n) m x y e bound =
      one_digit_more n x y (omega (arith, e)) ∙ digits_more k n m x y (omega (arith, e)) bound

  -- The lowest digit by itself, if `z` is what the digits give for the first number 0.
  lowest_digit :
      ((y : ℕ) → z y ≡ f 0 (y % 2) + 2 * z (y / 2))
      → (x y : ℕ) → bitwise z f x y ≡ f (x % 2) (y % 2) + 2 * bitwise z f (x / 2) (y / 2)
  lowest_digit base zero y = base y
  lowest_digit base (suc x) y = omega (
    arith,
    digits_more (x - suc x / 2) x (suc x / 2) (suc x / 2) (y / 2) (omega arith) (omega arith),
  )

-- The lowest digit of a conjunction, and of a disjunction.
pub bit_and_step : (x y : ℕ) → bit_and x y ≡ min (x % 2) (y % 2) + 2 * bit_and (x / 2) (y / 2)
bit_and_step x y =
    bit_and-bitwise x y
    ∙ lowest_digit (λ _. 0) min (λ y. omega arith) x y
    ∙ ap (λ (q : ℕ). min (x % 2) (y % 2) + 2 * q) (sym (bit_and-bitwise (x / 2) (y / 2)))

pub bit_or_step : (x y : ℕ) → bit_or x y ≡ max (x % 2) (y % 2) + 2 * bit_or (x / 2) (y / 2)
bit_or_step x y =
    bit_or-bitwise x y
    ∙ lowest_digit (λ y. y) max (λ y. omega arith) x y
    ∙ ap (λ (q : ℕ). max (x % 2) (y % 2) + 2 * q) (sym (bit_or-bitwise (x / 2) (y / 2)))

shift_suc : (q k : ℕ) → q * 2 ^ suc k ≡ 2 * (q * 2 ^ k)
shift_suc q k = omega (arith, ap (λ (t : ℕ). q * t) (pow-suc 2 k))

-- The words `q * 2 ^ k + r` and `m * 2 ^ k + s` are combined by halves.
pub bit_and_split :
    (k q r m s : ℕ)
    → r < 2 ^ k
    → s < 2 ^ k
    → bit_and (q * 2 ^ k + r) (m * 2 ^ k + s) ≡ bit_and q m * 2 ^ k + bit_and r s
bit_and_split zero q r m s hr hs =
    let hr' : r ≡ 0 = omega arith in
    let hs' : s ≡ 0 = omega arith in
    let hq : q * 1 + 0 ≡ q = omega arith in
    let hm : m * 1 + 0 ≡ m = omega arith in rw (hr', hs', hq, hm) (omega arith)
bit_and_split (suc k) q r m s hr hs = ground (
  arith,
  bit_and_step (q * 2 ^ suc k + r) (m * 2 ^ suc k + s),
  bit_and_step r s,
  shift_suc q k,
  shift_suc m k,
  shift_suc (bit_and q m) k,
  pow-suc 2 k,
  bit_and_split k q (r / 2) m (s / 2) (omega (arith, pow-suc 2 k)) (omega (arith, pow-suc 2 k)),
)

pub bit_or_split :
    (k q r m s : ℕ)
    → r < 2 ^ k
    → s < 2 ^ k
    → bit_or (q * 2 ^ k + r) (m * 2 ^ k + s) ≡ bit_or q m * 2 ^ k + bit_or r s
bit_or_split zero q r m s hr hs =
    let hr' : r ≡ 0 = omega arith in
    let hs' : s ≡ 0 = omega arith in
    let hq : q * 1 + 0 ≡ q = omega arith in
    let hm : m * 1 + 0 ≡ m = omega arith in rw (hr', hs', hq, hm) (omega arith)
bit_or_split (suc k) q r m s hr hs = ground (
  arith,
  bit_or_step (q * 2 ^ suc k + r) (m * 2 ^ suc k + s),
  bit_or_step r s,
  shift_suc q k,
  shift_suc m k,
  shift_suc (bit_or q m) k,
  pow-suc 2 k,
  bit_or_split k q (r / 2) m (s / 2) (omega (arith, pow-suc 2 k)) (omega (arith, pow-suc 2 k)),
)

pub zero-bit_and : (b : ℕ) → bit_and 0 b ≡ 0
zero-bit_and b = bit_and-bitwise 0 b

pub zero-bit_or : (b : ℕ) → bit_or 0 b ≡ b
zero-bit_or b = bit_or-bitwise 0 b

-- Zero on the right: all the digits of the left are combined with 0.
right_zero : (n x : ℕ) → x ≤ n → (bit_and x 0 ≡ 0) × (bit_or x 0 ≡ x)
right_zero n zero bound = (refl, refl)
right_zero zero (suc x) bound = elim bound [ ]
right_zero (suc n) (suc x) bound =
    let (a, o) = right_zero n (suc x / 2) (omega arith) in
    (omega (arith, bit_and_step (suc x) 0, a), omega (arith, bit_or_step (suc x) 0, o))

pub bit_and-zero : (x : ℕ) → bit_and x 0 ≡ 0
bit_and-zero x = (right_zero x x (omega arith)).0

pub bit_or-zero : (x : ℕ) → bit_or x 0 ≡ x
bit_or-zero x = (right_zero x x (omega arith)).1

-- The remainder by `2 * p`, digit by digit.
mod_halves : (p a : ℕ) → 0 < p → a % (p * 2) ≡ a / 2 % p * 2 + a % 2
mod_halves p a h =
    ap (λ (t : ℕ). t % (p * 2)) {x = a} {y = low + a / 2 / p * (p * 2)} (grind arith)
    ∙ add-mul-mod_self_right low (a / 2 / p) (p * 2)
    ∙ mod-eq_of_lt (grind arith)
  where
    low : ℕ
    low = a / 2 % p * 2 + a % 2

-- A mask of `k` low bits is the remainder by `2 ^ k`.
pub bit_and_mask : (k a : ℕ) → bit_and a (2 ^ k - 1) ≡ a % 2 ^ k
bit_and_mask zero a = omega (arith, bit_and-zero a)
bit_and_mask (suc k) a = ground (
  arith,
  bit_and_step a (2 ^ suc k - 1),
  bit_and_mask k (a / 2),
  pow-suc 2 k,
  one-le-pow k 2 (omega arith),
  mod_halves (2 ^ k) a,
)

-- The order of the operands, by the digits of the first.
bit_and_comm_below : (n x y : ℕ) → x ≤ n → bit_and x y ≡ bit_and y x
bit_and_comm_below n zero y bound = zero-bit_and y ∙ sym (bit_and-zero y)
bit_and_comm_below zero (suc x) y bound = elim bound [ ]
bit_and_comm_below (suc n) (suc x) y bound = omega (
  arith,
  bit_and_step (suc x) y,
  bit_and_step y (suc x),
  bit_and_comm_below n (suc x / 2) (y / 2) (omega arith),
)

pub bit_and_comm : (x y : ℕ) → bit_and x y ≡ bit_and y x
bit_and_comm x y = bit_and_comm_below x x y (omega arith)
