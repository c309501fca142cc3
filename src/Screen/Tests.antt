-- ===== src/Screen/Tests.antt =====
-- A console of two columns and two rows, with glyphs of one pixel, and a text.
use efi_os.Prelude.{ℕ, refl, ◌-◌, ◌≡◌, inr, some, List, [], ◌∷◌, arith, get_or}
use efi_os.Memory.{Memory}
use efi_os.Strings.Text.{terminator, byte}
use efi_os.Screen.{Framebuffer, BitmapFont}
use efi_os.Screen.Console.{GraphicsContext, print}
use efi_os.Screen.Console.Inside.{Inside, print-Inside}

abbrev text : List ℕ
text = b'a' ∷ 10 ∷ b'b' ∷ b'c' ∷ b'd' ∷ []

-- The frame buffer is at 0, the text at 100, the font at 200.
abbrev start : Memory
start x = get_or text (x - 100) 0

abbrev pixels : Framebuffer
pixels = record {
  base_address = 0;
  buffer_size = 16;
  width = 2;
  height = 2;
  pixels_per_scan_line = 2;
}

abbrev dots : BitmapFont
dots = record { numglyph = 256; bytesperglyph = 1; font_height = 1; font_width = 1; buffer = 200 }

abbrev console : GraphicsContext
console = record {
  memory = start;
  buf = pixels;
  font = dots;
  console_width = 2;
  console_height = 2;
  cursor_x = 0;
  cursor_y = 0;
  foreground_color = 0xffffffff;
  background_color = 0xff000000;
}

print-Inside_example : (g' : GraphicsContext) × (print 6 console 100 ≡ some g') × Inside console g'
print-Inside_example =
    print-Inside 6 console 100 text
      (byte refl (cc)
        (byte refl (cc) (byte refl (cc) (byte refl (cc) (byte refl (cc) (terminator refl))))))
      (cc, (cc, (cc, (cc, (cc, tt))))) (inr (omega arith)) (omega arith)
      (record {
        frame = record { line = omega arith; area = omega arith; word = omega arith };
        wide = omega arith;
        high = omega arith;
        columns = omega arith;
        rows = omega arith;
        cell_width = omega arith;
        cell_height = omega arith;
        some_column = omega arith;
        some_row = omega arith;
      })
      (record { column = omega arith; row = omega arith })
