-- ===== src/Printf/Expand.antt =====
-- What `kvsprintf` of kernel/src/stdio.c is to print, apart from the memory it prints to.
use efi_os.Prelude.{
  ℕ, suc, subst, ◌∙◌, ◌+◌, ◌%◌, ◌^◌, ◌<◌, ◌≤◌, ◌≡◌, ◌≢◌, ◌⊎◌, inl, false, List, [], ◌∷◌, ◌++◌,
  length, length-append, arith,
}
use efi_os.Memory.{Memory}
use efi_os.Strings.Text.{IsString, terminator, byte}
use efi_os.Numbers.Loop.{number, AllDigits}
use efi_os.Numbers.Reading.{Spelled, Written}
use efi_os.Printf.{takes_word}

-- The text of a word in a base.
pub record IsNumeral (base w : ℕ) (s : List ℕ) : Type 0 where
  pub value : number base 0 s ≡ w
  pub digits : AllDigits base s
  pub some_digit : 0 < length s

-- What a directive prints for a word: a numeral, `0x` and a numeral, the string at the word's address,
-- the word's lowest byte.
pub data Prints (m : Memory) (c w : ℕ) : List ℕ → Type 0 where
  hexadecimal : {s : List ℕ} → c ≡ b'x' → IsNumeral 16 w s → Prints m c w s
  pointer : {s : List ℕ} → c ≡ b'p' → IsNumeral 16 w s → Prints m c w (b'0' ∷ b'x' ∷ s)
  decimal :
      {s : List ℕ} → (c ≡ b'u') ⊎ ((c ≡ b'd') ⊎ (c ≡ b'i')) → IsNumeral 10 w s → Prints m c w s
  text : {s : List ℕ} → c ≡ b's' → IsString m w s → Prints m c w s
  character : c ≡ b'c' → Prints m c w (w % 2 ^ 8 ∷ [])

-- A format, the words behind it, and the text they print.
pub data Expands (m : Memory) : List ℕ → List ℕ → List ℕ → Type 0 where
  finished : {words : List ℕ} → Expands m [] words []
  plain :
      {c : ℕ} {format words out : List ℕ}
      → c ≢ b'%'
      → Expands m format words out
      → Expands m (c ∷ format) words (c ∷ out)
  unknown :
      {p c : ℕ} {format words out : List ℕ}
      → p ≡ b'%'
      → takes_word c ≡ false
      → Expands m format words out
      → Expands m (p ∷ c ∷ format) words out
  directive :
      {p c w : ℕ} {format words s out : List ℕ}
      → p ≡ b'%'
      → Prints m c w s
      → Expands m format words out
      → Expands m (p ∷ c ∷ format) (w ∷ words) (s ++ out)

-- A directive and its word that print at most `room` bytes. A string has fewer than `limit` bytes and
-- stands apart from the addresses from `lo` to `hi`.
pub data Item (m : Memory) (lo hi limit : ℕ) (c w : ℕ) : ℕ → Type 0 where
  hexadecimal : c ≡ b'x' → w < 2 ^ 64 → Item m lo hi limit c w 22
  pointer : c ≡ b'p' → w < 2 ^ 64 → Item m lo hi limit c w 24
  decimal : (c ≡ b'u') ⊎ ((c ≡ b'd') ⊎ (c ≡ b'i')) → w < 2 ^ 64 → Item m lo hi limit c w 22
  text :
      {s : List ℕ}
      → c ≡ b's'
      → IsString m w s
      → length s < limit
      → (hi ≤ w) ⊎ (w + length s < lo)
      → Item m lo hi limit c w (length s)
  character : c ≡ b'c' → Item m lo hi limit c w 1

-- A format without `%f` and the words for it, which print at most `room` bytes.
pub data Accepts (m : Memory) (lo hi limit : ℕ) : List ℕ → List ℕ → ℕ → Type 0 where
  finished : {words : List ℕ} → Accepts m lo hi limit [] words 0
  plain :
      {c : ℕ} {format words : List ℕ} {room : ℕ}
      → c ≢ b'%'
      → Accepts m lo hi limit format words room
      → Accepts m lo hi limit (c ∷ format) words (suc room)
  unknown :
      {p c : ℕ} {format words : List ℕ} {room : ℕ}
      → p ≡ b'%'
      → takes_word c ≡ false
      → Accepts m lo hi limit format words room
      → Accepts m lo hi limit (p ∷ c ∷ format) words room
  directive :
      {p c w : ℕ} {format words : List ℕ} {here room : ℕ}
      → p ≡ b'%'
      → Item m lo hi limit c w here
      → Accepts m lo hi limit format words room
      → Accepts m lo hi limit (p ∷ c ∷ format) (w ∷ words) (here + room)

-- Both memories have the same bytes outside of the addresses from `lo` to `hi`.
abbrev pub Agree : (lo hi : ℕ) → (m m' : Memory) → Type 0
Agree lo hi m m' = (x : ℕ) → (x < lo) ⊎ (hi ≤ x) → m x ≡ m' x

pub IsString-Agree :
    (lo hi : ℕ) (m m' : Memory) (a : ℕ) (s : List ℕ)
    → Agree lo hi m m'
    → (hi ≤ a) ⊎ (a + length s < lo)
    → IsString m' a s
    → IsString m a s
IsString-Agree lo hi m m' a [] same apart (terminator e) = terminator (same a (ground arith) ∙ e)
IsString-Agree lo hi m m' a (x ∷ s) same apart (byte e nonzero k) =
    byte (same a (ground arith) ∙ e) nonzero
      (IsString-Agree lo hi m m' (a + 1) s same (ground arith) k)

pub Spelled-same :
    (m m' : Memory) (a : ℕ) (s : List ℕ)
    → ((x : ℕ) → x < a + length s → m' x ≡ m x)
    → Spelled m a s
    → Spelled m' a s
Spelled-same m m' a [] same there = tt
Spelled-same m m' a (c ∷ s) same (e, there) =
    (same a (omega arith) ∙ e, Spelled-same m m' (a + 1) s (λ x h. same x (omega arith)) there)

Spelled-append :
    (m : Memory) (a : ℕ) (s t : List ℕ)
    → Spelled m a s
    → Spelled m (a + length s) t
    → Spelled m a (s ++ t)
Spelled-append m a [] t there next =
    subst (λ (b : ℕ). Spelled m b t) {x = a + 0} {y = a} (omega arith) next
Spelled-append m a (c ∷ s) t (e, there) next = (
  e,
  Spelled-append m (a + 1) s t there (
      subst (λ (b : ℕ). Spelled m b t) {x = a + suc (length s)} {y = a + 1 + length s} (omega arith)
        next),
)

-- One write behind another is one write.
pub Written-append :
    (m m' m'' : Memory) (a b : ℕ) (s t : List ℕ)
    → b ≡ a + length s
    → Written m m' a s
    → Written m' m'' b t
    → Written m m'' a (s ++ t)
Written-append m m' m'' a b s t e w w' = record {
  there =
      Spelled-append m'' a s t
        (Spelled-same m' m'' a s (λ x h. w'.around x (inl (omega arith))) w.there)
        (subst (λ (d : ℕ). Spelled m'' d t) e w'.there);
  around = λ x out.
      w'.around x (ground (arith, length-append s t))
      ∙ w.around x (ground (arith, length-append s t));
}
