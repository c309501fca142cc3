-- ===== src/Strings.antt =====
-- The string functions of kernel/src/string.c on memory, a function from addresses to bytes. A pointer
-- is an address, NULL is 0. A loop takes a number of rounds and gives `none` if they run out.
pub mod Text
pub mod Search
pub mod Split
mod Tests
use efi_os.Prelude.{
  ℕ, zero, suc, ◌+◌, ◌-◌, ◌^◌, ◌%◌, Bool, true, false, ◌&&◌, not, Option, none, some, ltb, ◌==◌,
  if◌then◌else◌, bit_or,
}
use efi_os.Prelude.Int.{ℤ, pos, negsuc, ◌-ℤ◌, sub_ℕ}
use efi_os.Memory.{Memory, store}

-- A `char` as an `int`: it is signed.
abbrev pub char_value : ℕ → ℤ
char_value b = if ltb b 128 then pos b else negsuc (255 - b)

strlen_loop : (rounds : ℕ) → Memory → (str index : ℕ) → Option ℕ
strlen_loop zero m str index = none
strlen_loop (suc rounds) m str index =
    let further = strlen_loop rounds m str (index + 1) in
    if m (str + index) == 0 then some index else further

pub strlen : (rounds : ℕ) → Memory → (str : ℕ) → Option ℕ
unfolding strlen_loop
strlen rounds m str = strlen_loop rounds m str 0

-- `c` is the byte that `*s` is compared with.
pub strchr : (rounds : ℕ) → Memory → (s c : ℕ) → Option ℕ
strchr zero m s c = none
strchr (suc rounds) m s c =
    let further = strchr rounds m (s + 1) c in
    if m s == 0 then some 0 else if m s == c then some s else further

strrchr_loop : (rounds : ℕ) → Memory → (s ch last : ℕ) → Option ℕ
strrchr_loop zero m s ch last = none
strrchr_loop (suc rounds) m s ch last =
    let further = strrchr_loop rounds m (s + 1) ch (if m s == ch then s else last) in
    if m s == 0 then some last else further

pub strrchr : (rounds : ℕ) → Memory → (s c : ℕ) → Option ℕ
unfolding strrchr_loop
strrchr rounds m s c = strrchr_loop rounds m s (c % 2 ^ 8) 0

-- `index` is an `int`: strings have less than 2^31 bytes.
strcmp_loop : (rounds : ℕ) → Memory → (str1 str2 index : ℕ) → Option ℤ
strcmp_loop zero m str1 str2 index = none
strcmp_loop (suc rounds) m str1 str2 index =
    let further = strcmp_loop rounds m str1 str2 (index + 1) in
    if m (str1 + index) == m (str2 + index) && not (m (str1 + index) == 0)
    then further
    else some (char_value (m (str1 + index)) -ℤ char_value (m (str2 + index)))

pub strcmp : (rounds : ℕ) → Memory → (str1 str2 : ℕ) → Option ℤ
unfolding strcmp_loop
strcmp rounds m str1 str2 = strcmp_loop rounds m str1 str2 0

strcasecmp_loop : (rounds : ℕ) → Memory → (str1 str2 index : ℕ) → Option ℤ
strcasecmp_loop zero m str1 str2 index = none
strcasecmp_loop (suc rounds) m str1 str2 index =
    let further = strcasecmp_loop rounds m str1 str2 (index + 1) in
    if bit_or (m (str1 + index)) 32 == bit_or (m (str2 + index)) 32 && not (m (str1 + index) == 0)
    then further
    else some (char_value (m (str1 + index)) -ℤ char_value (m (str2 + index)))

unfoldable pub strcasecmp : (rounds : ℕ) → Memory → (str1 str2 : ℕ) → Option ℤ
unfolding strcasecmp_loop
strcasecmp rounds m str1 str2 = strcasecmp_loop rounds m str1 str2 0

-- It returns `dest`, and here the memory.
pub strcpy : (rounds : ℕ) → Memory → (dest src : ℕ) → Option Memory
strcpy zero m dest src = none
strcpy (suc rounds) m dest src =
    let further = strcpy rounds (store m dest (m src)) (dest + 1) (src + 1) in
    if m src == 0 then some (store m dest 0) else further
