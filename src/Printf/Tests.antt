-- ===== src/Printf/Tests.antt =====
-- A run of `kvsprintf`, and its theorem on a format with words.
use efi_os.Prelude.{
  ℕ, refl, ◌-◌, ◌≡◌, inl, some, List, [], ◌∷◌, ◌++◌, length, arith, get_or, ltb, if◌then◌else◌,
}
use efi_os.Memory.{Memory}
use efi_os.Strings.Text.{IsString, terminator, byte}
use efi_os.Numbers.Reading.{Written}
use efi_os.Printf.{Floating, kvsprintf}
use efi_os.Printf.Expand.{Expands, Accepts, decimal, text, finished, plain, directive}
use efi_os.Printf.Refine.{kvsprintf-Expands}
use mathlib.Core.Option.{map}

-- A machine without fractions.
abbrev whole_numbers : Floating
whole_numbers = record {
  to_uint64 = λ x. x;
  from_uint64 = λ x. x;
  minus = λ x y. x - y;
  times_ten = λ x. 10;
}

-- `tty%u: %s` at 100, `ok` at 200.
abbrev format : List ℕ
format = b't' ∷ b'%' ∷ b'u' ∷ b':' ∷ b'%' ∷ b's' ∷ []

abbrev with_strings : Memory
with_strings x =
    if ltb x 200 then get_or format (x - 100) 0 else get_or (b'o' ∷ b'k' ∷ []) (x - 200) 0

abbrev words : List ℕ
words = 27 ∷ 200 ∷ []

kvsprintf_runs :
    map (λ out. out.0) (kvsprintf 7 whole_numbers 22 with_strings 0 104 (200 ∷ [])) ≡ some 2
unfolding kvsprintf
kvsprintf_runs = refl

format-IsString : IsString with_strings 100 format
format-IsString = byte refl (cc) (
    byte refl (cc)
      (byte refl (cc) (byte refl (cc) (byte refl (cc) (byte refl (cc) (terminator refl))))))

format-Accepts : Accepts with_strings 0 40 22 format words 26
format-Accepts = plain (cc) (
    directive refl (decimal (inl refl) (omega arith)) (
      plain (cc) (
        directive refl
          (text {s = b'o' ∷ b'k' ∷ []} refl (byte refl (cc) (byte refl (cc) (terminator refl)))
            (omega arith) (inl (omega arith)))
          finished)))

kvsprintf-Expands_example :
    (m' : Memory) × (out : List ℕ) × (kvsprintf 7 whole_numbers 22 with_strings 0 100 words
      ≡ some (length out, m'))
    × Expands with_strings format words out
    × Written with_strings m' 0 (out ++ 0 ∷ [])
kvsprintf-Expands_example =
    kvsprintf-Expands 7 whole_numbers 22 with_strings 0 40 100 22 format words 26 format-Accepts
      format-IsString (inl (omega arith)) (omega arith) (omega arith) (omega arith) (omega arith)
      (omega arith)
