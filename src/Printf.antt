-- ===== src/Printf.antt =====
-- Formatted printing, kvsprintf and format_double of kernel/src/stdio.c. A `va_list` is the list of its
-- words. A loop takes a number of rounds and gives `none` if they run out.
pub mod Expand
pub mod Refine
mod Tests
use efi_os.Prelude.{
  ℕ, zero, suc, ◌+◌, ◌-◌, ◌%◌, ◌^◌, Bool, ◌||◌, Option, none, some, List, [], ◌∷◌, ◌==◌, ◌>>=◌,
  if◌then◌else◌, add64,
}
use efi_os.Memory.{Memory, store}
use efi_os.Numbers.{format_number}

-- What the machine does with a `double`, a word of 64 bits: to and from a `uint64_t`, `-`, `*10`.
pub record Floating : Type 0 where
  pub to_uint64 : ℕ → ℕ
  pub from_uint64 : ℕ → ℕ
  pub minus : ℕ → ℕ → ℕ
  pub times_ten : ℕ → ℕ

-- `precision` is what `places` lacks of it.
places_loop : Floating → (precision : ℕ) → Memory → (buf remainder : ℕ) → ℕ × Memory
places_loop f zero m buf remainder = (buf, m)
places_loop f (suc precision) m buf remainder =
    let next = f.times_ten remainder in
    places_loop f precision (store m buf (b'0' + f.to_uint64 next % 10)) (buf + 1) next

pub format_double : Floating → (rounds : ℕ) → Memory → (buf x precision : ℕ) → Option (ℕ × Memory)
unfolding places_loop
format_double f rounds m buf x precision = do
  (end, m') ← format_number rounds m buf (f.to_uint64 x) 10
  some (
      places_loop f precision (store m' end b'.') (end + 1)
        (f.minus x (f.from_uint64 (f.to_uint64 x))))

-- `while(*temp) *buf++=*temp++;`
text_loop : (rounds : ℕ) → Memory → (temp buf : ℕ) → Option (ℕ × Memory)
text_loop zero m temp buf = none
text_loop (suc rounds) m temp buf =
    let further = text_loop rounds (store m buf (m temp)) (temp + 1) (buf + 1) in
    if m temp == 0 then some (buf, m) else further

-- Where the next character goes, the memory, and the words of `ap` that are left.
pub record Output : Type 0 where
  pub place : ℕ
  pub memory : Memory
  pub words : List ℕ

abbrev pub with_words : List ℕ → Option (ℕ × Memory) → Option Output
with_words words none = none
with_words words (some (place, memory)) =
    some (record { place = place; memory = memory; words = words })

-- A directive that takes a word; a list without one is out of the model.
word_directive : Floating → (rounds : ℕ) → (c : ℕ) → Memory → (buf word : ℕ) → Option (ℕ × Memory)
unfolding text_loop
word_directive f rounds c m buf word =
    if c == b'p'
    then format_number rounds (store (store m buf b'0') (buf + 1) b'x') (buf + 2) word 16
    else if c == b'x'
    then format_number rounds m buf word 16
    else if c == b'u' || (c == b'd' || c == b'i')
    then format_number rounds m buf word 10
    else if c == b'f'
    then format_double f rounds m buf word 6
    else if c == b's'
    then text_loop rounds m word buf
    else some (buf + 1, store m buf (word % 2 ^ 8))

abbrev pub takes_word : ℕ → Bool
takes_word c =
    c == b'p'
    || (c == b'x'
        || (c == b'u' || (c == b'd' || c == b'i') || (c == b'f' || (c == b's' || c == b'c'))))

-- The `switch`; a character that it does not name prints nothing.
directive : Floating → (rounds : ℕ) → (c : ℕ) → Memory → (buf : ℕ) → List ℕ → Option Output
unfolding word_directive
directive f rounds c m buf [] =
    if takes_word c then none else some (record { place = buf; memory = m; words = [] })
directive f rounds c m buf (w ∷ words) =
    if takes_word c
    then with_words words (word_directive f rounds c m buf w)
    else some (record { place = buf; memory = m; words = w ∷ words })

-- One turn of the loop over the format, and how far it moves `inx`.
turn : Floating → (rounds : ℕ) → Memory → (inx buf : ℕ) → List ℕ → ℕ × Option Output
unfolding directive
turn f rounds m inx buf ap =
    if m inx == b'%'
    then (2, directive f rounds (m (inx + 1)) m buf ap)
    else (1, some (record { place = buf + 1; memory = store m buf (m inx); words = ap }))

kvsprintf_loop :
    (turns : ℕ) → Floating → (rounds : ℕ) → Memory → (inx buf : ℕ) → List ℕ → Option (ℕ × Memory)
unfolding turn
kvsprintf_loop zero f rounds m inx buf ap = none
kvsprintf_loop (suc turns) f rounds m inx buf ap =
    let (moved, result) = turn f rounds m inx buf ap in
    let further =
      result >>= λ o. kvsprintf_loop turns f rounds o.memory (inx + moved) o.place o.words in
    if m inx == 0 then some (buf, store m buf 0) else further

-- The number of characters written, and the memory.
pub kvsprintf :
    (turns : ℕ) → Floating → (rounds : ℕ) → Memory → (str format : ℕ) → List ℕ → Option (ℕ × Memory)
unfolding kvsprintf_loop
kvsprintf turns f rounds m str format ap = do
  (buf, m') ← kvsprintf_loop turns f rounds m format str ap
  some ((buf - str) % 2 ^ 32, m')
