-- ===== src/Screen/Bounds.antt =====
-- Which bytes the drawing routines of kernel/src/graphics.c change.
use efi_os.Prelude.{
  ℕ, zero, suc, refl, ◌∙◌, ◌+◌, ◌*◌, ◌%◌, ◌^◌, ◌<◌, ◌≤◌, ◌≡◌, ◌⊎◌, arith, min, sub32,
}
use efi_os.Memory.{Memory}
use efi_os.Screen.{
  Framebuffer, BitmapFont, Colour, store_pixel, plot_pixel, fill_row, fill_rows, render_char,
}
use native.Mathlib.Nat.{mul-le-mul_left}

-- A frame buffer whose size fits 32 bits: the scan lines have room for the width, the buffer for them.
pub record IsFramebuffer (f : Framebuffer) : Type 0 where
  pub line : f.width ≤ f.pixels_per_scan_line
  pub area : 4 * (f.pixels_per_scan_line * f.height) ≤ f.buffer_size
  pub word : f.buffer_size < 2 ^ 32

-- Only bytes of the frame buffer are changed.
abbrev pub Keeps : Framebuffer → (m m' : Memory) → Type 0
Keeps f m m' = (a : ℕ) → (a < f.base_address) ⊎ (f.base_address + f.buffer_size ≤ a) → m' a ≡ m a

store_pixel-same :
    (m : Memory) (b pixel a : ℕ) → (a < b) ⊎ (b + 4 ≤ a) → store_pixel m b pixel a ≡ m a
store_pixel-same m b pixel a out = ground arith

-- The offset of a pixel in the picture.
pub offset_below :
    (f : Framebuffer) (x y : ℕ)
    → IsFramebuffer f
    → x < f.width
    → y < f.height
    → 4 * (f.pixels_per_scan_line * y) + 4 * x + 4 ≤ f.buffer_size
offset_below f x y h hx hy =
    omega (arith, h.line, h.area, mul-le-mul_left f.pixels_per_scan_line hy)

plot_pixel-Keeps :
    (m : Memory) (f : Framebuffer) (x y pixel : ℕ)
    → IsFramebuffer f
    → x < f.width
    → y < f.height
    → Keeps f m (plot_pixel m f x y pixel)
unfolding plot_pixel
plot_pixel-Keeps m f x y pixel h hx hy a out =
    let offset = 4 * (f.pixels_per_scan_line * y) + 4 * x in
    let below : offset + 4 ≤ f.buffer_size = offset_below f x y h hx hy in
    let whole : offset % 2 ^ 32 ≡ offset = omega (arith, below, h.word) in
    store_pixel-same m (f.base_address + offset % 2 ^ 32) pixel a (ground (arith, whole, below))

fill_row-Keeps :
    (left : ℕ) (m : Memory) (f : Framebuffer) (colour : Colour) (x y x2 y2 : ℕ)
    → IsFramebuffer f
    → x + x2 + left ≤ f.width
    → y + y2 < f.height
    → Keeps f m (fill_row left m f colour x y x2 y2)
unfolding fill_row
fill_row-Keeps zero m f colour x y x2 y2 h hx hy a out = refl
fill_row-Keeps (suc left) m f colour x y x2 y2 h hx hy a out =
    fill_row-Keeps left (plot_pixel m f (x + x2) (y + y2) (colour m x2 y2)) f colour x y (x2 + 1) y2
      h (omega arith) hy a out
    ∙ plot_pixel-Keeps m f (x + x2) (y + y2) (colour m x2 y2) h (omega arith) hy a out

fill_rows-Keeps :
    (rows across : ℕ) (m : Memory) (f : Framebuffer) (colour : Colour) (x y y2 : ℕ)
    → IsFramebuffer f
    → x + across ≤ f.width
    → y + y2 + rows ≤ f.height
    → Keeps f m (fill_rows rows across m f colour x y y2)
unfolding fill_rows
fill_rows-Keeps zero across m f colour x y y2 h hx hy a out = refl
fill_rows-Keeps (suc rows) across m f colour x y y2 h hx hy a out =
    fill_rows-Keeps rows across (fill_row across m f colour x y 0 y2) f colour x y (y2 + 1) h hx
      (omega arith) a out
    ∙ fill_row-Keeps across m f colour x y 0 y2 h (omega arith) (omega arith) a out

-- A glyph whose corner is in the picture.
pub render_char-Keeps :
    (m : Memory) (f : Framebuffer) (font : BitmapFont) (foreground background x y chr : ℕ)
    → IsFramebuffer f
    → f.width < 2 ^ 32
    → f.height < 2 ^ 32
    → x ≤ f.width
    → y ≤ f.height
    → Keeps f m (render_char m f font foreground background x y chr)
unfolding render_char
render_char-Keeps m f font foreground background x y chr h wide high hx hy =
    fill_rows-Keeps (min font.font_height (sub32 f.height y))
      (min font.font_width (sub32 f.width x)) m f _ x y 0 h (omega arith) (omega arith)
