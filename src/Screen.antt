-- ===== src/Screen.antt =====
-- The frame buffer of kernel/src/graphics.c and the fonts of kernel/src/bitmap-font.c. Memory is a
-- function from addresses to bytes, and a drawing routine returns the new one. `uint32_t` arithmetic
-- wraps.
pub mod Console
pub mod Bounds
mod Tests
use efi_os.Prelude.{
  ℕ, zero, suc, ◌+◌, ◌-◌, ◌*◌, ◌/◌, ◌%◌, ◌^◌, Bool, true, false, Option, none, some, List, [], ◌∷◌,
  ◌==◌, ltb, if◌then◌else◌, get_or, min, bit_and, sub32, sub64,
}
use efi_os.Memory.{Memory, store, within}

pub record Framebuffer : Type 0 where
  pub base_address : ℕ
  pub buffer_size : ℕ
  pub width : ℕ
  pub height : ℕ
  pub pixels_per_scan_line : ℕ

pub record BitmapFont : Type 0 where
  pub numglyph : ℕ
  pub bytesperglyph : ℕ
  pub font_height : ℕ
  pub font_width : ℕ
  pub buffer : ℕ

-- Two and four bytes, the lowest first.
abbrev load16 : Memory → ℕ → ℕ
load16 m a = m a + 256 * m (a + 1)

abbrev load32 : Memory → ℕ → ℕ
load32 m a = load16 m a + 65536 * load16 m (a + 2)

-- `none` stands for the font that an invalid file leaves, with no field set.
pub load_font : Memory → (file : ℕ) → Option BitmapFont
load_font m file =
    if load16 m file == 0x0436
    then some (record {
      numglyph = 256 * (1 + bit_and (m (file + 2)) 1);
      bytesperglyph = m (file + 3);
      font_height = m (file + 3);
      font_width = 8;
      buffer = file + 4;
    })
    else if load32 m file == 0x864ab572
    then some (record {
      numglyph = load32 m (file + 16);
      bytesperglyph = load32 m (file + 20);
      font_height = load32 m (file + 24);
      font_width = load32 m (file + 28);
      buffer = file + 32;
    })
    else none

abbrev pub store_pixel : Memory → (a pixel : ℕ) → Memory
store_pixel m a pixel =
    store
      (store (store (store m a (pixel % 256)) (a + 1) (pixel / 256 % 256)) (a + 2)
        (pixel / 65536 % 256))
      (a + 3) (pixel / 16777216 % 256)

pub plot_pixel : Memory → Framebuffer → (x y pixel : ℕ) → Memory
plot_pixel m f x y pixel =
    store_pixel m (f.base_address + (4 * (f.pixels_per_scan_line * y) + 4 * x) % 2 ^ 32) pixel

-- Whether the pixel `x2`, `y2` of a glyph is set.
glyph_bit : Memory → BitmapFont → (chr x2 y2 : ℕ) → Bool
glyph_bit m font chr x2 y2 =
    let index = (font.bytesperglyph * chr + y2 * ((font.font_width + 7) / 8) + x2 / 8) % 2 ^ 32 in
    m (font.buffer + index) / 2 ^ (7 - x2 % 8) % 2 == 1

-- The colour of a pixel of a rectangle, which may be read from memory.
abbrev pub Colour : Type 0
Colour = Memory → (x2 y2 : ℕ) → ℕ

-- A rectangle: `left` and `rows` are what the counters of the two loops lack of their ends.
fill_row : (left : ℕ) → Memory → Framebuffer → Colour → (x y x2 y2 : ℕ) → Memory
unfolding plot_pixel
fill_row zero m f colour x y x2 y2 = m
fill_row (suc left) m f colour x y x2 y2 =
    fill_row left (plot_pixel m f (x + x2) (y + y2) (colour m x2 y2)) f colour x y (x2 + 1) y2

fill_rows : (rows : ℕ) → (across : ℕ) → Memory → Framebuffer → Colour → (x y y2 : ℕ) → Memory
unfolding fill_row
fill_rows zero across m f colour x y y2 = m
fill_rows (suc rows) across m f colour x y y2 =
    fill_rows rows across (fill_row across m f colour x y 0 y2) f colour x y (y2 + 1)

pub render_char :
    Memory → Framebuffer → BitmapFont → (foreground background : ℕ) → (x y chr : ℕ) → Memory
unfolding fill_rows glyph_bit
render_char m f font foreground background x y chr =
    let x_vis = min font.font_width (sub32 f.width x) in
    let y_vis = min font.font_height (sub32 f.height y) in
    fill_rows y_vis x_vis m f
      (λ now x2 y2. if glyph_bit now font chr x2 y2 then foreground else background) x y 0

pub clearchar : Memory → Framebuffer → BitmapFont → (x y : ℕ) → Memory
unfolding fill_rows
clearchar m f font x y = fill_rows font.font_height font.font_width m f (λ now x2 y2. 0) x y 0

clrscr_loop : (left : ℕ) → Memory → (address color : ℕ) → Memory
clrscr_loop zero m address color = m
clrscr_loop (suc left) m address color =
    clrscr_loop left (store_pixel m address color) (address + 4) color

pub clrscr : Memory → Framebuffer → (color : ℕ) → Memory
unfolding clrscr_loop
clrscr m f color = clrscr_loop (f.buffer_size / 4) m f.base_address color

pub alloc_framebuffer : (width height addr : ℕ) → Framebuffer
alloc_framebuffer width height addr = record {
  base_address = addr;
  buffer_size = width * height * 4 % 2 ^ 32;
  width = width;
  height = height;
  pixels_per_scan_line = width;
}

abbrev cursor : List ℕ
cursor =
    0x8000 ∷ 0xc000 ∷ 0xe000 ∷ 0xf000 ∷ 0xf800 ∷ 0xfc00 ∷ 0xfe00 ∷ 0xff00 ∷ 0xff80 ∷ 0xffc0 ∷ 0xffe0
    ∷ 0xfc00 ∷ 0xfe00 ∷ 0xef00 ∷ 0xc780 ∷ 0x8300 ∷ []

-- The pixels of the pointer that are set, in white.
draw_row : (left : ℕ) → Memory → Framebuffer → (row mx y i : ℕ) → Memory
unfolding plot_pixel
draw_row zero m f row mx y i = m
draw_row (suc left) m f row mx y i =
    draw_row left (if row / 2 ^ (15 - i) % 2 == 1 then plot_pixel m f (mx + i) y 0xffffffff else m)
      f row mx y (i + 1)

draw_rows : (rows : ℕ) → (across : ℕ) → Memory → Framebuffer → (mx my y : ℕ) → Memory
unfolding draw_row
draw_rows zero across m f mx my y = m
draw_rows (suc rows) across m f mx my y =
    draw_rows rows across (draw_row across m f (get_or cursor y 0) mx (my + y) 0) f mx my (y + 1)

-- `mx` and `my` are `mouse_cursor_x` and `mouse_cursor_y`, as words.
pub draw_mouse : Memory → Framebuffer → (mx my : ℕ) → Memory
unfolding draw_rows
draw_mouse m f mx my =
    draw_rows (min 16 (sub32 f.height my) % 2 ^ 8) (min 16 (sub32 f.width mx) % 2 ^ 8) m f mx my 0

-- A word of eight bytes.
copy_word : Memory → (dst sc : ℕ) → Memory
copy_word m dst sc x = if within dst 8 x then m (sc + (x - dst)) else m x

-- `for (; dst < end;) *dst++=*sc++;`, `left` words.
copy_words : (left : ℕ) → Memory → (dst sc : ℕ) → Memory
unfolding copy_word
copy_words zero m dst sc = m
copy_words (suc left) m dst sc = copy_words left (copy_word m dst sc) (dst + 8) (sc + 8)

-- The words up to below the pointer, the pointer, the other words.
pub swap_buffer : Memory → (dest src : Framebuffer) → (mx my : ℕ) → Memory
unfolding copy_words
swap_buffer m dest src mx my =
    let midpoint = dest.pixels_per_scan_line * min ((my + 16) % 2 ^ 32) dest.height * 4 % 2 ^ 32 in
    let first = (midpoint + 7) / 8 in
    let m1 = copy_words first m dest.base_address src.base_address in
    let m2 = draw_mouse m1 dest mx my in
    copy_words ((dest.buffer_size - 8 * first + 7) / 8) m2 (dest.base_address + 8 * first)
      (src.base_address + 8 * first)
