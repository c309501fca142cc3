-- ===== src/Keyboard.antt =====
-- The keyboard of kernel/src/keyboard.c: `handle_key` follows the scan codes, a byte at a time, and
-- keeps the modifiers. `isdigit` and `isprint` are those of kernel/src/ctype.h.
pub mod Held
mod Tests
use efi_os.Prelude.{
  ℕ, zero, suc, ◌+◌, ◌-◌, ◌%◌, ◌^◌, Bool, true, false, ◌&&◌, ◌||◌, not, Option, none, some, List,
  [], ◌∷◌, ◌++◌, ltb, leb, ◌==◌, if◌then◌else◌, get_or, bit_and, bit_or,
}

-- A key code and the modifiers given to the callback, and a character printed.
pub data Effect : Type 0 where
  callback : (keycode modifiers : ℕ) → Effect
  print_char : (c : ℕ) → Effect

-- `behind` is the byte behind the table of characters, `current_context` the number of the terminal.
pub record Keyboard : Type 0 where
  pub modifiers : ℕ
  pub previous_key : ℕ
  pub callbacks_enabled : Bool
  pub current_context : ℕ
  pub behind : ℕ

abbrev ascii_table : List ℕ
ascii_table =
    0 ∷ 0 ∷ b'1' ∷ b'2' ∷ b'3' ∷ b'4' ∷ b'5' ∷ b'6' ∷ b'7' ∷ b'8' ∷ b'9' ∷ b'0' ∷ b'-' ∷ b'=' ∷ 0
    ∷ 0 ∷ b'q' ∷ b'w' ∷ b'e' ∷ b'r' ∷ b't' ∷ b'y' ∷ b'u' ∷ b'i' ∷ b'o' ∷ b'p' ∷ b'[' ∷ b']' ∷ 0 ∷ 0
    ∷ b'a' ∷ b's' ∷ b'd' ∷ b'f' ∷ b'g' ∷ b'h' ∷ b'j' ∷ b'k' ∷ b'l' ∷ b';' ∷ 39 ∷ b'`' ∷ 0 ∷ 92
    ∷ b'z' ∷ b'x' ∷ b'c' ∷ b'v' ∷ b'b' ∷ b'n' ∷ b'm' ∷ b',' ∷ b'.' ∷ b'/' ∷ 0 ∷ b'*' ∷ 0 ∷ b' ' ∷ []

abbrev pub keycode_right : ℕ
keycode_right = 0x1000

abbrev pub keycode_left : ℕ
keycode_left = 0x1001

abbrev pub keycode_down : ℕ
keycode_down = 0x1002

abbrev pub keycode_up : ℕ
keycode_up = 0x1003

abbrev pub keycode_lshift : ℕ
keycode_lshift = 0x1010

abbrev pub keycode_rshift : ℕ
keycode_rshift = 0x1011

abbrev pub keycode_lalt : ℕ
keycode_lalt = 0x1012

abbrev pub keycode_lctrl : ℕ
keycode_lctrl = 0x1014

-- A `char`, as a byte.
translate : (behind scancode : ℕ) → (uppercase : Bool) → ℕ
translate behind scancode uppercase =
    let c = get_or ascii_table scancode behind in
    if ltb 58 scancode then 0 else if uppercase then (c + 224) % 2 ^ 8 else c

-- `modifiers&=~mask` on the 32 bits of an `int`.
abbrev clear : (modifiers mask : ℕ) → ℕ
clear modifiers mask = bit_and modifiers (2 ^ 32 - 1 - mask)

-- Whether the byte is a release, in the modifiers.
up_or_down : (modifiers keycode : ℕ) → ℕ
up_or_down modifiers keycode =
    bit_or (clear modifiers 12) (if bit_and keycode 0x80 == 0 then 4 else 8)

-- The `switch` behind the byte 0xE0.
extended_key : (keycode : ℕ) → ℕ
extended_key keycode =
    if keycode == 0x4b
    then keycode_left
    else if keycode == 0x4d
    then keycode_right
    else if keycode == 0x48
    then keycode_up
    else if keycode == 0x50
    then keycode_down
    else 0

-- The other `switch`: the key code and the modifiers.
plain_key : (behind modifiers keycode : ℕ) → ℕ × ℕ
unfolding translate
plain_key behind modifiers keycode =
    if keycode == 0x2a
    then (keycode_lshift, bit_or modifiers 1)
    else if keycode == 0xaa
    then (keycode_lshift, clear modifiers 1)
    else if keycode == 0x36
    then (keycode_rshift, bit_or modifiers 2)
    else if keycode == 0xb6
    then (keycode_rshift, clear modifiers 2)
    else if keycode == 0x1c
    then (10, modifiers)
    else if keycode == 0x39
    then (32, modifiers)
    else if keycode == 0x0e
    then (8, modifiers)
    else if keycode == 0x38
    then (keycode_lalt, bit_or modifiers 16)
    else if keycode == 0xb8
    then (keycode_lalt, clear modifiers 16)
    else if keycode == 0x1d
    then (keycode_lctrl, bit_or modifiers 64)
    else if keycode == 0x9d
    then (keycode_lctrl, clear modifiers 64)
    else (translate behind (bit_and keycode 0x7f) false, modifiers)

abbrev is_print : ℕ → Bool
is_print c = leb 0x20 c && leb c 0x7e

abbrev is_digit_char : ℕ → Bool
is_digit_char c = leb b'0' c && leb c b'9'

-- Behind the two switches.
report : Keyboard → (keycode final_keycode : ℕ) → List Effect × Keyboard
unfolding translate
report k keycode final_keycode =
    let ascii = translate k.behind keycode (not (bit_and k.modifiers 3 == 0)) in
    let k' =
      if is_digit_char ascii && not (bit_and k.modifiers 192 == 0)
      then record k { current_context = ascii - b'0' }
      else k in
    (
      if k.callbacks_enabled
          then callback final_keycode k.modifiers ∷ []
          else if is_print ascii
          then print_char ascii ∷ []
          else [],
      k',
    )

pub handle_key : Keyboard → (keycode : ℕ) → List Effect × Keyboard
unfolding up_or_down extended_key plain_key report
handle_key k keycode =
    let modifiers = up_or_down k.modifiers keycode in
    let (final_keycode, modifiers') = plain_key k.behind modifiers keycode in
    if keycode == 0xe0 && k.previous_key == 0
    then ([], record k { previous_key = keycode })
    else if k.previous_key == 0xe0
    then report (record k { previous_key = 0; modifiers = modifiers }) keycode
        (extended_key keycode)
    else report (record k { modifiers = modifiers' }) keycode final_keycode

pub set_keyboard_callback : Keyboard → Keyboard
set_keyboard_callback k = record k { callbacks_enabled = true }

-- One interrupt after the other.
pub handle_keys : Keyboard → List ℕ → List Effect × Keyboard
unfolding handle_key
handle_keys k [] = ([], k)
handle_keys k (keycode ∷ keycodes) =
    let (effects, k') = handle_key k keycode in
    let (more, k'') = handle_keys k' keycodes in (effects ++ more, k'')
