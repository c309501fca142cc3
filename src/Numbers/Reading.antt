-- ===== src/Numbers/Reading.antt =====
-- What `format_number` of kernel/src/stdio.c writes, and what `atol` of kernel/src/stdlib.c reads there.
use efi_os.Prelude.{
  ℕ, refl, sym, ap, subst, ◌∙◌, ◌+◌, ◌-◌, ◌^◌, ◌<◌, ◌≤◌, ◌≡◌, ◌⊎◌, inl, inr, false, ◌||◌, Option,
  some, List, [], ◌∷◌, length, arith, ◌==◌, ◌>>=◌, if◌then◌else◌,
}
use efi_os.Memory.{Memory, store}
use efi_os.Numbers.{copy_back, pow2_loop, ten_loop, format_number}
use efi_os.Numbers.Loop.{
  Base, oct, dec, hex, radix, number, AllDigits, power, digit_loop, digit_loop-Left,
  digit_loop_more, ten_loop-digit_loop, pow2_loop-oct, pow2_loop-hex,
}

-- The bytes stand at an address, one behind the other.
abbrev pub Spelled : Memory → ℕ → List ℕ → Type 0
Spelled m a [] = Unit
Spelled m a (c ∷ s) = (m a ≡ c) × Spelled m (a + 1) s

-- The memory after `m`, with the bytes at an address and nothing else changed.
pub record Written (m m' : Memory) (a : ℕ) (s : List ℕ) : Type 0 where
  pub there : Spelled m' a s
  pub around : (x : ℕ) → (x < a) ⊎ (a + length s ≤ x) → m' x ≡ m x

copy_back-Written :
    (m : Memory) (a : ℕ) (s : List ℕ)
    → ((copy_back m a s).0 ≡ a + length s) × Written m (copy_back m a s).1 a s
unfolding copy_back
copy_back-Written m a [] = (omega arith, record { there = tt; around = λ x out. refl })
copy_back-Written m a (c ∷ s) =
    let (end, w) = copy_back-Written (store m a c) (a + 1) s in
    (
      omega (arith, end),
      record {
        there = (w.around a (inl (omega arith)) ∙ ground arith, w.there);
        around = λ x out. w.around x (ground arith) ∙ ground arith;
      },
    )

abbrev pub base_of : ℕ → Base
base_of base = if base == 16 then hex else if base == 8 then oct else dec

-- A number below a power of the base: `format_number` gives its digits in the base, with no more of
-- them than the exponent.
pub record Printed (m : Memory) (buf n base most : ℕ) (out : ℕ × Memory) (s : List ℕ) : Type 0 where
  pub end : out.0 ≡ buf + length s
  pub bytes : Written m out.1 buf s
  pub value : number (radix (base_of base)) 0 s ≡ n
  pub digits : AllDigits (radix (base_of base)) s
  pub size : length s ≤ most
  pub some_digit : 0 < length s

base_cases :
    (base : ℕ) → (base ≡ 16) ⊎ ((base ≡ 8) ⊎ (((base == 16) ≡ false) × ((base == 8) ≡ false)))
base_cases base = ground arith

abbrev pub loop_of : (rounds n base : ℕ) → Option (List ℕ)
loop_of rounds n base =
    if base == 16 || base == 8
    then pow2_loop rounds n (base - 1) (if base == 16 then 4 else 3) []
    else ten_loop rounds n []

loop_of-digit_loop :
    (rounds n base : ℕ) → loop_of rounds n base ≡ digit_loop rounds (radix (base_of base)) n []
loop_of-digit_loop rounds n base = elim (base_cases base) [
  | inl e ↦
      subst (λ (b : ℕ). loop_of rounds n b ≡ digit_loop rounds (radix (base_of b)) n []) (sym e)
        (pow2_loop-hex rounds n [])
  | inr (inl e) ↦
      subst (λ (b : ℕ). loop_of rounds n b ≡ digit_loop rounds (radix (base_of b)) n []) (sym e)
        (pow2_loop-oct rounds n [])
  | inr (inr (e, f)) ↦ rw e (rw f (ten_loop-digit_loop rounds n []))
]

-- `format_number` with at least as many rounds as the number needs.
pub format_number-Printed :
    (rounds need : ℕ) (m : Memory) (buf n base : ℕ)
    → 0 < need
    → need ≤ rounds
    → n < power (radix (base_of base)) need
    → (out : ℕ × Memory) × (s : List ℕ) × (format_number rounds m buf n base ≡ some out)
      × Printed m buf n base need out s
unfolding format_number
format_number-Printed rounds need m buf n base positive enough small =
    let b = base_of base in
    let (s, run, left) = digit_loop-Left b need n [] positive small tt in
    let more : digit_loop rounds (radix b) n [] ≡ some s =
      subst (λ (r : ℕ). digit_loop r (radix b) n [] ≡ some s) {x = need + (rounds - need)}
        {y = rounds} (omega arith) (digit_loop_more (rounds - need) need (radix b) n [] s run) in
    let (end, w) = copy_back-Written m buf s in
    (
      copy_back m buf s,
      s,
      ap (λ (o : Option (List ℕ)). o >>= (λ tmp. some (copy_back m buf tmp)))
          (loop_of-digit_loop rounds n base ∙ more),
      record {
        end = end;
        bytes = w;
        value = left.value;
        digits = left.digits;
        size = omega (arith, left.size);
        some_digit = left.some_digit;
      },
    )

-- For a 64-bit number and any base, at least 22 rounds: `format_number` returns; it has written at least one and at most 22 bytes, all
-- of them digits of the base (ten for an unknown base) that spell the number, and the address behind them is what it gives; no
-- other byte changes. So `tmp`, of 32 bytes, is never left.
pub format_number-fits :
    (rounds : ℕ) (m : Memory) (buf n base : ℕ)
    → n < 2 ^ 64
    → 22 ≤ rounds
    → (out : ℕ × Memory) × (s : List ℕ) × (format_number rounds m buf n base ≡ some out)
      × Printed m buf n base 22 out s
format_number-fits rounds m buf n base small enough =
    format_number-Printed rounds 22 m buf n base (omega arith) enough (below (base_of base) small)
  where
    below : {n : ℕ} (b : Base) → n < 2 ^ 64 → n < power (radix b) 22
    below oct h = omega arith
    below dec h = omega arith
    below hex h = omega arith
