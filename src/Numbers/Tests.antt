-- ===== src/Numbers/Tests.antt =====
-- Runs of the definitions of Numbers, and the theorems on concrete numbers.
use efi_os.Prelude.{ℕ, refl, ◌≡◌, ◌^◌, some, List, arith}
use efi_os.Prelude.Int.{pos, negsuc}
use efi_os.Memory.{Memory, store}
use efi_os.Numbers.{atoi, atol, itoa, ltoa, format_number}
use efi_os.Numbers.Reading.{Printed, format_number-fits}
use efi_os.Numbers.RoundTrip.{atol-format_number}
use mathlib.Core.Option.{map}

abbrev blank : Memory
blank x = 0

itoa_runs : map (λ m. atoi m 8) (itoa 12 blank (pos 407) 8 10) ≡ some 407
unfolding itoa atoi
itoa_runs = refl

-- The digits of a negative number come out below `0`, and there is no sign.
itoa_negative : map (λ m. m 8) (itoa 12 blank (negsuc 6) 8 10) ≡ some 41
unfolding itoa
itoa_negative = refl

-- The size is counted on the lower 32 bits: 2^32 goes to the place of its last digit and before it.
ltoa_cut : map (λ m. m 8) (ltoa 12 blank (pos (2 ^ 32)) 20 10) ≡ some 0
unfolding ltoa
ltoa_cut = refl

hex_runs : map (λ out. out.0) (format_number 22 blank 8 48879 16) ≡ some 12
unfolding format_number
hex_runs = refl

format_number-fits_example :
    (out : ℕ × Memory) × (s : List ℕ) × (format_number 22 blank 8 48879 16 ≡ some out)
    × Printed blank 8 48879 16 22 out s
format_number-fits_example = format_number-fits 22 blank 8 48879 16 (omega arith) (omega arith)

atol-format_number_example :
    (out : ℕ × Memory) × (format_number 22 blank 8 1234 10 ≡ some out)
    × (atol (store out.1 out.0 0) 8 ≡ 1234)
atol-format_number_example = atol-format_number 22 blank 8 1234 0 (omega arith) (omega arith) refl
