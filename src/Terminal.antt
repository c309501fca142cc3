-- ===== src/Terminal.antt =====
-- The terminal of kernel/src/tty.c: `tty_write` prints characters and follows escape sequences. An
-- `int` is a word of 32 bits that the sequences keep below 2^31.
pub mod Sequence
mod Tests
use efi_os.Prelude.{
  ℕ, zero, suc, ◌+◌, ◌-◌, ◌*◌, ◌/◌, ◌%◌, ◌^◌, Bool, true, false, ◌&&◌, ◌||◌, not, Option, none,
  some, ltb, leb, ◌==◌, if◌then◌else◌,
}
use efi_os.Memory.{Memory}
use efi_os.Numbers.{is_digit}
use efi_os.Screen.Console.{
  GraphicsContext, printchar, move_cursor, get_cursor_pos, cursor_up, cursor_down, cursor_left,
  cursor_right,
}

pub record Tty : Type 0 where
  pub g : GraphicsContext
  pub saved_x : ℕ
  pub saved_y : ℕ
  pub esc_x : ℕ
  pub esc_y : ℕ
  pub reading_escape : Bool
  pub maybe_escape : Bool
  pub esc_second : Bool
  pub esc_no_input : Bool

pub init_tty_0 : GraphicsContext → Tty
init_tty_0 g = record {
  g = g;
  saved_x = 0;
  saved_y = 0;
  esc_x = 0;
  esc_y = 0;
  reading_escape = false;
  maybe_escape = false;
  esc_second = false;
  esc_no_input = false;
}

-- A digit of the first or the second number.
read_digit : Tty → (c : ℕ) → Tty
read_digit tt c =
    if tt.esc_second
    then record tt {
      esc_y = (tt.esc_y * 10 + (c - b'0')) % 2 ^ 32;
      esc_no_input = false;
      reading_escape = true;
    }
    else record tt {
      esc_x = (tt.esc_x * 10 + (c - b'0')) % 2 ^ 32;
      esc_no_input = false;
      reading_escape = true;
    }

abbrev colour_of : ℕ → ℕ
colour_of col =
    0xff000000 + col % 2 * 0x00ff0000 + col / 2 % 2 * 0x0000ff00 + col / 4 % 2 * 0x000000ff

-- A number of 30 to 39 sets the colour of the characters, any other one that behind them.
set_colour : GraphicsContext → (code : ℕ) → GraphicsContext
set_colour g code =
    if code / 10 == 3
    then record g { foreground_color = colour_of (code % 10) }
    else record g { background_color = colour_of (code % 10) }

select_colours : Tty → Tty
unfolding set_colour
select_colours tt =
    let first = set_colour tt.g tt.esc_x in
    if tt.esc_second then record tt { g = set_colour first tt.esc_y } else record tt { g = first }

-- The distance that a move is called with.
abbrev distance : Tty → ℕ
distance tt = if tt.esc_no_input then 1 else tt.esc_x

save_cursor : Tty → Tty
save_cursor tt = let (x, y) = get_cursor_pos tt.g in record tt { saved_x = x; saved_y = y }

-- The `switch` on a character that is no digit, where `reading_escape` is reset.
final_character : Tty → (c : ℕ) → Tty
unfolding select_colours save_cursor
final_character tt c =
    if c == b';'
    then record tt { reading_escape = true; esc_second = true }
    else if c == b'H' || c == b'f'
    then record tt { g = move_cursor tt.g tt.esc_x tt.esc_y }
    else if c == b'A'
    then record tt { g = cursor_up tt.g (distance tt) }
    else if c == b'B'
    then record tt { g = cursor_down tt.g (distance tt) }
    else if c == b'C'
    then record tt { g = cursor_right tt.g (distance tt) }
    else if c == b'D'
    then record tt { g = cursor_left tt.g (distance tt) }
    else if c == b's'
    then save_cursor tt
    else if c == b'u'
    then record tt { g = move_cursor tt.g tt.saved_x tt.saved_y }
    else if c == b'm'
    then select_colours tt
    else tt

escape_character : Tty → (c : ℕ) → Tty
unfolding read_digit final_character
escape_character tt c =
    let reset = record tt { reading_escape = false } in
    if is_digit c then read_digit reset c else final_character reset c

start_escape : Tty → Tty
start_escape tt = record tt {
  reading_escape = true;
  esc_x = 0;
  esc_y = 0;
  esc_second = false;
  esc_no_input = true;
  maybe_escape = true;
}

-- The body of the loop. Behind the escape character all but `[` is dropped.
tty_character : Tty → (c : ℕ) → Tty
unfolding start_escape escape_character
tty_character tt c =
    if not (c == 27) && not tt.reading_escape
    then record tt { g = printchar tt.g c }
    else if c == 27
    then start_escape tt
    else if tt.maybe_escape
    then (if c == b'[' then record tt { maybe_escape = false } else tt)
    else escape_character tt c

-- The string is read from the memory that is drawn to.
pub tty_write : (rounds : ℕ) → Tty → (f : ℕ) → Option Tty
unfolding tty_character
tty_write zero tt f = none
tty_write (suc rounds) tt f =
    let c = tt.g.memory f in
    let further = tty_write rounds (tty_character tt c) (f + 1) in
    if c == 0 then some tt else further
