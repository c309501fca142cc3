-- ===== src/Numbers.antt =====
-- Numbers as text: atoi, atol, itoa and ltoa of kernel/src/stdlib.c, format_number of
-- kernel/src/stdio.c. Memory is a function from addresses to bytes, signed results are machine words.
pub mod Loop
pub mod Reading
pub mod RoundTrip
mod Tests
use efi_os.Prelude.{
  ℕ, zero, suc, ◌+◌, ◌-◌, ◌*◌, ◌/◌, ◌%◌, ◌^◌, Bool, ◌&&◌, ◌||◌, Option, none, some, List, [], ◌∷◌,
  leb, ◌==◌, ◌>>=◌, if◌then◌else◌, get_or, add64, sub64, add32, sub32, bit_and,
}
use efi_os.Prelude.Int.{ℤ, pos, negsuc}
use efi_os.Memory.{Memory, store}

abbrev pub is_digit : ℕ → Bool
is_digit c = leb b'0' c && leb c b'9'

-- The loop of `atoi`; `left` is what `index` lacks of 20.
atoi_loop : (left : ℕ) → Memory → (buf index output : ℕ) → ℕ
atoi_loop zero m buf index output = output
atoi_loop (suc left) m buf index output =
    let c = m (buf + index) in
    let further = atoi_loop left m buf (index + 1) (add32 ((output * 10) % 2 ^ 32) (c - b'0')) in
    if is_digit c then further else output

-- An `int` of 32 bits.
pub atoi : Memory → (buf : ℕ) → ℕ
unfolding atoi_loop
atoi m buf = if m buf == b'-' then sub32 0 (atoi_loop 19 m buf 1 0) else atoi_loop 20 m buf 0 0

-- The loop of `atol`; `left` is what `index` lacks of 20.
atol_loop : (left : ℕ) → Memory → (buf index output : ℕ) → ℕ
atol_loop zero m buf index output = output
atol_loop (suc left) m buf index output =
    let c = m (buf + index) in
    let further = atol_loop left m buf (index + 1) (add64 ((output * 10) % 2 ^ 64) (c - b'0')) in
    if is_digit c then further else output

-- A `long` of 64 bits.
pub atol : Memory → (buf : ℕ) → ℕ
unfolding atol_loop
atol m buf = if m buf == b'-' then sub64 0 (atol_loop 19 m buf 1 0) else atol_loop 20 m buf 0 0

-- `/ 10` and `'0' + value % 10` of C on a signed number: both turn to 0.
abbrev pub tenth : ℤ → ℤ
tenth (pos n) = pos (n / 10)
tenth (negsuc n) = if (n + 1) / 10 == 0 then pos 0 else negsuc ((n + 1) / 10 - 1)

abbrev pub digit_char : ℤ → ℕ
digit_char (pos n) = b'0' + n % 10
digit_char (negsuc n) = b'0' - (n + 1) % 10

abbrev pub is_zero : ℤ → Bool
is_zero (pos n) = n == 0
is_zero (negsuc n) = 0 == 1

-- `while(temp/=10) size++;`
size_loop : (rounds : ℕ) → ℤ → (size : ℕ) → Option ℕ
size_loop zero temp size = none
size_loop (suc rounds) temp size =
    let further = size_loop rounds (tenth temp) (size + 1) in
    if is_zero (tenth temp) then some size else further

-- `while(value) ...`: `place` is `size-index`. A digit before `str` is out of the model.
itoa_loop : (rounds : ℕ) → Memory → ℤ → (str size index : ℕ) → Option Memory
itoa_loop zero m value str size index = none
itoa_loop (suc rounds) m value str size index =
    let further =
      itoa_loop rounds (store m (str + size - index) (digit_char value)) (tenth value) str size
        (index + 1) in
    if is_zero value then some m else further

-- `base` is never read.
pub itoa : (rounds : ℕ) → Memory → (value : ℤ) → (str base : ℕ) → Option Memory
unfolding size_loop itoa_loop
itoa rounds m value str base =
    if is_zero value then some (store (store m str b'0') (str + 1) 0) else (do
      size ← size_loop rounds value 0
      m' ← itoa_loop rounds m value str size 0
      some (store m' (str + size + 1) 0))

-- `int temp=value` cuts a `long` to its lower 32 bits, with their sign.
abbrev pub cut_word : ℕ → ℤ
cut_word w =
    if leb (2 ^ 31) (w % 2 ^ 32) then negsuc (2 ^ 32 - 1 - w % 2 ^ 32) else pos (w % 2 ^ 32)

abbrev pub long_to_int : ℤ → ℤ
long_to_int (pos n) = cut_word n
long_to_int (negsuc n) = cut_word (2 ^ 64 - 1 - n)

pub ltoa : (rounds : ℕ) → Memory → (value : ℤ) → (str base : ℕ) → Option Memory
unfolding size_loop itoa_loop
ltoa rounds m value str base =
    if is_zero value then some (store (store m str b'0') (str + 1) 0) else (do
      size ← size_loop rounds (long_to_int value) 0
      m' ← itoa_loop rounds m value str size 0
      some (store m' (str + size + 1) 0))

abbrev pub hex_ascii : List ℕ
hex_ascii =
    b'0' ∷ b'1' ∷ b'2' ∷ b'3' ∷ b'4' ∷ b'5' ∷ b'6' ∷ b'7' ∷ b'8' ∷ b'9' ∷ b'a' ∷ b'b' ∷ b'c' ∷ b'd'
    ∷ b'e' ∷ b'f' ∷ []

-- `tmp` has what was stored last at its front.
pub pow2_loop : (rounds : ℕ) → (n mask shift : ℕ) → List ℕ → Option (List ℕ)
pow2_loop zero n mask shift tmp = none
pow2_loop (suc rounds) n mask shift tmp =
    let tmp' = get_or hex_ascii (bit_and n mask) 0 ∷ tmp in
    let further = pow2_loop rounds (n / 2 ^ shift) mask shift tmp' in
    if n / 2 ^ shift == 0 then some tmp' else further

pub ten_loop : (rounds : ℕ) → (n : ℕ) → List ℕ → Option (List ℕ)
ten_loop zero n tmp = none
ten_loop (suc rounds) n tmp =
    let tmp' = (b'0' + n % 10) ∷ tmp in
    let further = ten_loop rounds (n / 10) tmp' in if n / 10 == 0 then some tmp' else further

copy_back : Memory → (buf : ℕ) → List ℕ → ℕ × Memory
copy_back m buf [] = (buf, m)
copy_back m buf (c ∷ tmp) = copy_back (store m buf c) (buf + 1) tmp

-- The address behind the number, and the memory.
pub format_number : (rounds : ℕ) → Memory → (buf n base : ℕ) → Option (ℕ × Memory)
unfolding pow2_loop ten_loop copy_back
format_number rounds m buf n base = do
  tmp ←
      if base == 16 || base == 8
      then pow2_loop rounds n (base - 1) (if base == 16 then 4 else 3) []
      else ten_loop rounds n []
  some (copy_back m buf tmp)
