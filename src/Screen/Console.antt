-- ===== src/Screen/Console.antt =====
-- The text console of kernel/src/graphics.c: the cursor and the characters. Disabling interrupts
-- around a scroll changes nothing else.
pub mod Inside
use efi_os.Prelude.{
  ℕ, zero, suc, ◌+◌, ◌-◌, ◌*◌, ◌/◌, ◌%◌, ◌^◌, Option, none, some, ltb, leb, ◌==◌, if◌then◌else◌,
  min, max, bit_and, add32, sub32, sub64,
}
use efi_os.Memory.{Memory, memcpy, memset}
use efi_os.Screen.{Framebuffer, BitmapFont, render_char, clearchar, clrscr}

-- The context, and the memory that it draws to.
pub record GraphicsContext : Type 0 where
  pub memory : Memory
  pub buf : Framebuffer
  pub font : BitmapFont
  pub console_width : ℕ
  pub console_height : ℕ
  pub cursor_x : ℕ
  pub cursor_y : ℕ
  pub foreground_color : ℕ
  pub background_color : ℕ

pub init_text_overlay : Memory → Framebuffer → BitmapFont → GraphicsContext
init_text_overlay m buf font = record {
  memory = clrscr m buf 0x12121212;
  buf = buf;
  font = font;
  console_width = buf.width / font.font_width;
  console_height = buf.height / font.font_height;
  cursor_x = 0;
  cursor_y = 0;
  foreground_color = 0xffffffff;
  background_color = 0;
}

pub move_cursor : GraphicsContext → (x y : ℕ) → GraphicsContext
move_cursor g x y = record g { cursor_x = x; cursor_y = y }

pub get_cursor_pos : GraphicsContext → ℕ × ℕ
get_cursor_pos g = (g.cursor_x, g.cursor_y)

pub get_display_resolution : Framebuffer → ℕ × ℕ
get_display_resolution f = (f.width, f.height)

-- The four moves take a distance and go one step.
pub cursor_left : GraphicsContext → (distance : ℕ) → GraphicsContext
cursor_left g distance = record g { cursor_x = max g.cursor_x 1 - 1 }

pub cursor_right : GraphicsContext → (distance : ℕ) → GraphicsContext
cursor_right g distance = record g { cursor_x = min (add32 g.cursor_x 1) g.console_width }

pub cursor_up : GraphicsContext → (distance : ℕ) → GraphicsContext
cursor_up g distance = record g { cursor_y = max g.cursor_y 1 - 1 }

pub cursor_down : GraphicsContext → (distance : ℕ) → GraphicsContext
cursor_down g distance = record g { cursor_y = min (add32 g.cursor_y 1) g.console_height }

-- A row in bytes, and all rows but the last: 32-bit products.
abbrev pub row_size_px : GraphicsContext → ℕ
row_size_px g = g.buf.pixels_per_scan_line * g.font.font_height % 2 ^ 32

abbrev pub upper_rows : GraphicsContext → ℕ
upper_rows g = row_size_px g * sub32 g.console_height 1 * 4 % 2 ^ 32

pub scroll_console : GraphicsContext → GraphicsContext
scroll_console g =
    let base = g.buf.base_address in
    let moved = memcpy g.memory base (base + row_size_px g * 4 % 2 ^ 32) (upper_rows g) in
    record g {
      memory = memset moved (base + upper_rows g) 0 (sub64 g.buf.buffer_size (upper_rows g));
    }

pub deletechar : GraphicsContext → GraphicsContext
unfolding cursor_left
deletechar g =
    let left = cursor_left g 1 in
    record left {
      memory =
          clearchar left.memory left.buf left.font (left.cursor_x * left.font.font_width % 2 ^ 32)
            (left.cursor_y * left.font.font_height % 2 ^ 32);
    }

-- The line feed.
new_line : GraphicsContext → GraphicsContext
unfolding scroll_console
new_line g =
    let below = record g { cursor_x = 0; cursor_y = add32 g.cursor_y 1 } in
    if leb g.console_height below.cursor_y
    then scroll_console (record below { cursor_y = sub32 below.cursor_y 1 })
    else below

-- `(x+4)&~0x3`
tab : GraphicsContext → GraphicsContext
tab g = record g { cursor_x = bit_and (add32 g.cursor_x 4) (2 ^ 32 - 4) }

-- A cursor below the last row is set on it, and the rows move up.
onto_row : GraphicsContext → GraphicsContext
unfolding scroll_console
onto_row g =
    if leb g.console_height g.cursor_y
    then scroll_console (record g { cursor_y = sub32 g.console_height 1 })
    else g

-- The place behind the cursor.
advance : GraphicsContext → GraphicsContext
advance g =
    if leb g.console_width (add32 g.cursor_x 1)
    then record g { cursor_x = 0; cursor_y = add32 g.cursor_y 1 }
    else record g { cursor_x = add32 g.cursor_x 1 }

print_glyph : GraphicsContext → (chr : ℕ) → GraphicsContext
unfolding onto_row advance
print_glyph g chr =
    let at = onto_row g in
    let drawn =
      render_char at.memory at.buf at.font at.foreground_color at.background_color
        (at.cursor_x * at.font.font_width % 2 ^ 32) (at.cursor_y * at.font.font_height % 2 ^ 32)
        chr in
    record (advance at) { memory = drawn }

pub printchar : GraphicsContext → (chr : ℕ) → GraphicsContext
unfolding new_line tab print_glyph
printchar g chr = if chr == 10 then new_line g else if chr == 9 then tab g else print_glyph g chr

-- The string is read from the memory that is drawn to.
pub print : (rounds : ℕ) → GraphicsContext → (str : ℕ) → Option GraphicsContext
unfolding printchar
print zero g str = none
print (suc rounds) g str =
    let c = g.memory str in
    let further = print rounds (printchar g c) (str + 1) in if c == 0 then some g else further
