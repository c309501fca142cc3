-- ===== src/Strings/Split.antt =====
-- The other string functions of kernel/src/string.c: strncpy, strstr, strrstr and
-- split_string_by_char. A loop takes a number of rounds and gives `none` if they run out.
use efi_os.Prelude.{
  ℕ, zero, suc, ◌+◌, ◌-◌, ◌*◌, Bool, true, false, Option, none, some, List, [], ◌∷◌, ◌==◌, ◌>>=◌,
  if◌then◌else◌,
}
use efi_os.Memory.{Memory, store, memset}
use efi_os.Strings.{strlen}

-- Where the end of the string is the last of the `n` bytes, `--n` wraps and the loop does not end:
-- `none`.
pub strncpy : Memory → (dest src n : ℕ) → Option Memory
strncpy m d s zero = some m
strncpy m d s (suc n) =
    let m' = store m d (m s) in
    let further = strncpy m' (d + 1) (s + 1) n in
    if m s == 0 then (if n == 0 then none else some (memset m' (d + 1) 0 (n - 1))) else further

-- Whether the text at `a` begins with the one at `b`.
begins_with : (rounds : ℕ) → Memory → (a b : ℕ) → Option Bool
begins_with zero m a b = none
begins_with (suc rounds) m a b =
    let further = begins_with rounds m (a + 1) (b + 1) in
    if m b == 0 then some true else if m a == m b then further else some false

strstr_loop : (rounds : ℕ) → Memory → (string substring : ℕ) → Option ℕ
unfolding begins_with
strstr_loop zero m string substring = none
strstr_loop (suc rounds) m string substring =
    let further = strstr_loop rounds m (string + 1) substring in
    if m string == 0
    then some 0
    else if m string == m substring
    then (begins_with rounds m string substring >>= λ found. if found then some string else further)
    else further

pub strstr : (rounds : ℕ) → Memory → (string substring : ℕ) → Option ℕ
unfolding strstr_loop
strstr rounds m string substring =
    let searched = strstr_loop rounds m string substring in
    if m substring == 0 then some string else searched

-- From one place found to the next.
strrstr_loop : (rounds : ℕ) → Memory → (haystack needle result : ℕ) → Option ℕ
unfolding strstr
strrstr_loop zero m haystack needle result = none
strrstr_loop (suc rounds) m haystack needle result = strstr rounds m haystack needle >>= λ p.
    let further = strrstr_loop rounds m (p + 1) needle p in if p == 0 then some result else further

pub strrstr : (rounds : ℕ) → Memory → (haystack needle : ℕ) → Option ℕ
unfolding strrstr_loop
strrstr rounds m haystack needle =
    let searched = strrstr_loop rounds m haystack needle 0 in
    if m needle == 0 then some haystack else searched

-- The number of separators.
count_loop : (rounds : ℕ) → Memory → (str seperator index n_count : ℕ) → Option ℕ
count_loop zero m str seperator index n_count = none
count_loop (suc rounds) m str seperator index n_count =
    let further =
      count_loop rounds m str seperator (index + 1)
        (if m (str + index) == seperator then n_count + 1 else n_count) in
    if m (str + index) == 0 then some n_count else further

-- The sections found, a function from their indices to their addresses, and the memory with their text.
section_loop :
    (rounds : ℕ)
    → Memory
    → (str start seperator index n_index : ℕ) → (ℕ → ℕ)
    → Option ((ℕ → ℕ) × Memory)
section_loop zero m str start seperator index n_index sections = none
section_loop (suc rounds) m str start seperator index n_index sections =
    let copied = store m (start + index) (m (str + index)) in
    let ends = copied (str + index) == seperator in
    let further =
      section_loop rounds (if ends then store copied (start + index) 0 else copied) str start
        seperator (index + 1) (if ends then n_index + 1 else n_index)
        (λ i.
          if ends
          then (if i == n_index + 1 then start + index + 1 else sections i)
          else sections i) in
    if m (str + index) == 0 then some (sections, m) else further

-- `sections` is the address that kcalloc gives, behind whose pointers the text stands. The number of
-- sections, their addresses and the memory.
pub split_string_by_char :
    (rounds : ℕ) → Memory → (str seperator sections : ℕ) → Option (ℕ × (ℕ → ℕ) × Memory)
unfolding count_loop section_loop
split_string_by_char rounds m str seperator sections = do
  found ← count_loop rounds m str seperator 0 0
  length ← strlen rounds m str
  let first = m str == seperator
  let n_count = if first then found else found + 1
  let index = if first then 1 else 0
  let start = sections + n_count * 8
  let cleared = memset m sections 0 (n_count * 8 + length + 1)
  (names, m') ←
      section_loop rounds cleared str start seperator index 0
        (λ i. if i == 0 then start + index else 0)
  some (n_count, names, m')

-- The sections from `i` on, `left` of them.
pub section_list : (left : ℕ) → (ℕ → ℕ) → (i : ℕ) → List ℕ
section_list zero sections i = []
section_list (suc left) sections i = sections i ∷ section_list left sections (i + 1)
