-- ===== src/Terminal/Tests.antt =====
-- A terminal that is in the middle of a sequence, and the sequence for column 12, row 7.
use efi_os.Prelude.{ℕ, refl, ◌-◌, ◌≡◌, inl, true, false, some, List, [], ◌∷◌, arith, get_or}
use efi_os.Memory.{Memory}
use efi_os.Screen.{Framebuffer, BitmapFont}
use efi_os.Screen.Console.{GraphicsContext, move_cursor}
use efi_os.Terminal.{Tty, tty_write}
use efi_os.Terminal.Sequence.{tty_write-move_cursor}

abbrev sequence : List ℕ
sequence = 27 ∷ b'[' ∷ b'1' ∷ b'2' ∷ b';' ∷ b'7' ∷ b'H' ∷ []

abbrev start : Memory
start x = get_or sequence (x - 100) 0

abbrev pixels : Framebuffer
pixels = record {
  base_address = 0;
  buffer_size = 16;
  width = 2;
  height = 2;
  pixels_per_scan_line = 2;
}

abbrev dots : BitmapFont
dots = record { numglyph = 256; bytesperglyph = 1; font_height = 1; font_width = 1; buffer = 200 }

abbrev console : GraphicsContext
console = record {
  memory = start;
  buf = pixels;
  font = dots;
  console_width = 2;
  console_height = 2;
  cursor_x = 0;
  cursor_y = 0;
  foreground_color = 0xffffffff;
  background_color = 0xff000000;
}

abbrev terminal : Tty
terminal = record {
  g = console;
  saved_x = 3;
  saved_y = 4;
  esc_x = 9;
  esc_y = 9;
  reading_escape = true;
  maybe_escape = false;
  esc_second = true;
  esc_no_input = false;
}

tty_write-move_cursor_example :
    (t' : Tty) × (tty_write 8 terminal 100 ≡ some t')
    × (t'.g ≡ move_cursor console 12 7)
    × (t'.reading_escape ≡ false)
    × (t'.saved_x ≡ 3)
    × (t'.saved_y ≡ 4)
tty_write-move_cursor_example =
    tty_write-move_cursor 8 terminal 100 (b'1' ∷ b'2' ∷ []) (b'7' ∷ [])
      (record {
        escape = refl;
        bracket = refl;
        first = (refl, (refl, tt));
        semicolon = refl;
        second = (refl, tt);
        last = refl;
        end = refl;
      })
      (
        inl (omega arith, omega arith, omega arith),
        (inl (omega arith, omega arith, omega arith), tt),
      )
      (inl (omega arith, omega arith, omega arith), tt) (omega arith) (omega arith) (omega arith)
