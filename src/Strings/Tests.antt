-- ===== src/Strings/Tests.antt =====
-- The string functions at concrete inputs: "hi" at 100, and "hello" at 200.
use efi_os.Prelude.{
  ℕ, refl, ◌<◌, ◌≡◌, ◌⊎◌, inr, ◌↔◌, some, List, [], ◌∷◌, arith, ◌==◌, if◌then◌else◌,
}
use efi_os.Prelude.Int.{ℤ, pos}
use efi_os.Memory.{Memory}
use efi_os.Strings.{strcmp, strcpy}
use efi_os.Strings.Text.{IsString, terminator, byte, strcpy-IsString}
use efi_os.Strings.Search.{strcmp-same}

abbrev texts : Memory
texts a =
    if a == 100
    then 104
    else if a == 101
    then 105
    else if a == 200
    then 104
    else if a == 201
    then 111
    else 0

abbrev hi : List ℕ
hi = 104 ∷ 105 ∷ []

abbrev ho : List ℕ
ho = 104 ∷ 111 ∷ []

hi-IsString : IsString texts 100 hi
hi-IsString = byte refl (omega arith) (byte refl (omega arith) (terminator refl))

ho-IsString : IsString texts 200 ho
ho-IsString = byte refl (omega arith) (byte refl (omega arith) (terminator refl))

texts-bytes : (c : ℕ) → texts c < 256
texts-bytes c = ground arith

strcpy-IsString_example :
    (m' : Memory) × (strcpy 3 texts 300 100 ≡ some m')
    × IsString m' 300 hi
    × ((x : ℕ) → (x < 300) ⊎ (302 < x) → m' x ≡ texts x)
strcpy-IsString_example =
    strcpy-IsString 3 texts 300 100 hi hi-IsString (omega arith) (inr (omega arith))

strcmp-same_example : (d : ℤ) × (strcmp 3 texts 100 200 ≡ some d) × ((d ≡ pos 0) ↔ (hi ≡ ho))
strcmp-same_example =
    strcmp-same 3 texts 100 200 hi ho texts-bytes hi-IsString ho-IsString (omega arith)
