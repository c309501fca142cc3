-- ===== src/Screen/Console/Inside.antt =====
-- The console of kernel/src/graphics.c stays inside of its frame buffer.
use efi_os.Prelude.{
  ℕ, zero, suc, refl, sym, subst, ◌∙◌, ◌+◌, ◌-◌, ◌*◌, ◌%◌, ◌^◌, ◌<◌, ◌≤◌, ◌≡◌, ◌≢◌, ◌⊎◌, inl, inr,
  true, false, Bool-cases, some, List, [], ◌∷◌, length, arith, leb, ◌==◌, add32, sub32, sub64,
}
use efi_os.Memory.{Memory, memcpy}
use efi_os.Memory.Copy.{memcpy-Copied}
use efi_os.Memory.Fill.{memset-Filled}
use efi_os.Strings.Text.{IsString, terminator, byte}
use efi_os.Printf.Expand.{IsString-Agree}
use efi_os.Screen.{Framebuffer}
use efi_os.Screen.Bounds.{IsFramebuffer, Keeps, render_char-Keeps}
use efi_os.Screen.Console.{
  GraphicsContext, move_cursor, row_size_px, upper_rows, scroll_console, new_line, onto_row,
  advance, print_glyph, printchar, print,
}
use native.Mathlib.Nat.{mul-le-mul_left, mul-le-mul_right}

-- A console whose cells fit the picture, at least one.
pub record IsConsole (g : GraphicsContext) : Type 0 where
  pub frame : IsFramebuffer g.buf
  pub wide : g.buf.width < 2 ^ 31
  pub high : g.buf.height < 2 ^ 31
  pub columns : g.console_width * g.font.font_width ≤ g.buf.width
  pub rows : g.console_height * g.font.font_height ≤ g.buf.height
  pub cell_width : 0 < g.font.font_width
  pub cell_height : 0 < g.font.font_height
  pub some_column : 0 < g.console_width
  pub some_row : 0 < g.console_height

-- The cursor is in a column, and in a row or just below the last one.
pub record IsCursor (g : GraphicsContext) : Type 0 where
  pub column : g.cursor_x < g.console_width
  pub row : g.cursor_y ≤ g.console_height

-- What a printing routine leaves of a console.
pub record Inside (g g' : GraphicsContext) : Type 0 where
  pub same_buf : g'.buf ≡ g.buf
  pub keeps : Keeps g.buf g.memory g'.memory
  pub console : IsConsole g'
  pub cursor : IsCursor g'

-- Moving the cursor draws nothing.
pub memory-move_cursor : (g : GraphicsContext) (x y : ℕ) → (move_cursor g x y).memory ≡ g.memory
unfolding move_cursor
memory-move_cursor g x y = refl

factor-le : (a b c : ℕ) → 0 < b → a * b ≤ c → a ≤ c
factor-le a b c h k = omega (arith, mul-le-mul_left a h)

rows_product : (p f c height : ℕ) → c * f ≤ height → p * f % 2 ^ 32 * (c - 1) ≤ p * height
rows_product p f c height h =
    let cut : p * f % 2 ^ 32 ≤ p * f = omega arith in
    let fewer : c - 1 ≤ c = omega arith in
    omega (arith, mul-le-mul_right (c - 1) cut, mul-le-mul_left (p * f) fewer, mul-le-mul_left p h)

-- The sizes that the code computes in 32 bits are exact where that matters.
upper_rows-le : (g : GraphicsContext) → IsConsole g → upper_rows g ≤ g.buf.buffer_size
upper_rows-le g h =
    let narrow : g.console_height < 2 ^ 31 = omega (
      arith,
      h.high,
      factor-le g.console_height g.font.font_height g.buf.height h.cell_height h.rows,
    ) in
    let less : sub32 g.console_height 1 ≡ g.console_height - 1 =
      omega (arith, narrow, h.some_row) in
    rw less (
      omega (
        arith,
        h.frame.area,
        rows_product g.buf.pixels_per_scan_line g.font.font_height g.console_height g.buf.height
            h.rows,
      ))

scroll_console-Keeps :
    (g : GraphicsContext) → IsConsole g → Keeps g.buf g.memory (scroll_console g).memory
unfolding scroll_console
scroll_console-Keeps g h a out =
    let base = g.buf.base_address in
    let source = base + row_size_px g * 4 % 2 ^ 32 in
    let moved = memcpy g.memory base source (upper_rows g) in
    let n = sub64 g.buf.buffer_size (upper_rows g) in
    ground (
      arith,
      upper_rows-le g h,
      h.frame.word,
      memset-Filled moved (base + upper_rows g) 0 n a,
      memcpy-Copied g.memory base source (upper_rows g) (inl (omega arith)) a,
    )

-- The bounds of the numbers that the cursor is counted with.
record Small (g : GraphicsContext) : Type 0 where
  columns : g.console_width < 2 ^ 31
  rows : g.console_height < 2 ^ 31

Small-IsConsole : (g : GraphicsContext) → IsConsole g → Small g
Small-IsConsole g h = record {
  columns = omega (
    arith,
    h.wide,
    factor-le g.console_width g.font.font_width g.buf.width h.cell_width h.columns,
  );
  rows = omega (
    arith,
    h.high,
    factor-le g.console_height g.font.font_height g.buf.height h.cell_height h.rows,
  );
}

-- Another cursor or another memory of the same console.
moved-IsConsole :
    (g : GraphicsContext) (x y : ℕ) (m : Memory)
    → IsConsole g
    → IsConsole (record g { memory = m; cursor_x = x; cursor_y = y })
moved-IsConsole g x y m h = record {
  frame = h.frame;
  wide = h.wide;
  high = h.high;
  columns = h.columns;
  rows = h.rows;
  cell_width = h.cell_width;
  cell_height = h.cell_height;
  some_column = h.some_column;
  some_row = h.some_row;
}

new_line-Inside : (g : GraphicsContext) → IsConsole g → IsCursor g → Inside g (new_line g)
unfolding new_line scroll_console
new_line-Inside g h c =
    let small = Small-IsConsole g h in
    let at = record g { cursor_x = 0; cursor_y = sub32 (add32 g.cursor_y 1) 1 } in
    elim (Bool-cases (leb g.console_height (add32 g.cursor_y 1))) [
      | inl e ↦ rw e (record {
        same_buf = refl;
        keeps = scroll_console-Keeps at (moved-IsConsole g 0 at.cursor_y g.memory h);
        console = moved-IsConsole g 0 at.cursor_y _ h;
        cursor = record { column = h.some_column; row = omega (arith, c.row, small.rows) };
      })
      | inr e ↦ rw e (record {
        same_buf = refl;
        keeps = λ a out. refl;
        console = moved-IsConsole g 0 (add32 g.cursor_y 1) g.memory h;
        cursor = record { column = h.some_column; row = ground (arith, c.row, small.rows) };
      })
    ]

-- A console with its cursor in a row.
record OnRow (g g' : GraphicsContext) : Type 0 where
  inside : Inside g g'
  row : g'.cursor_y < g'.console_height

onto_row-OnRow : (g : GraphicsContext) → IsConsole g → IsCursor g → OnRow g (onto_row g)
unfolding onto_row scroll_console
onto_row-OnRow g h c =
    let small = Small-IsConsole g h in
    let at = record g { cursor_y = sub32 g.console_height 1 } in
    elim (Bool-cases (leb g.console_height g.cursor_y)) [
      | inl e ↦ rw e (record {
        inside = record {
          same_buf = refl;
          keeps = scroll_console-Keeps at (moved-IsConsole g g.cursor_x at.cursor_y g.memory h);
          console = moved-IsConsole g g.cursor_x at.cursor_y _ h;
          cursor = record { column = c.column; row = omega (arith, small.rows) };
        };
        row = omega (arith, small.rows, h.some_row);
      })
      | inr e ↦ rw e (record {
        inside = record { same_buf = refl; keeps = λ a out. refl; console = h; cursor = c };
        row = ground arith;
      })
    ]

advance-Inside :
    (g : GraphicsContext)
    → IsConsole g
    → IsCursor g
    → g.cursor_y < g.console_height
    → Inside g (advance g)
unfolding advance
advance-Inside g h c on_row =
    let small = Small-IsConsole g h in
    elim (Bool-cases (leb g.console_width (add32 g.cursor_x 1))) [
      | inl e ↦ rw e (record {
        same_buf = refl;
        keeps = λ a out. refl;
        console = moved-IsConsole g 0 (add32 g.cursor_y 1) g.memory h;
        cursor = record { column = h.some_column; row = omega (arith, on_row, small.rows) };
      })
      | inr e ↦ rw e (record {
        same_buf = refl;
        keeps = λ a out. refl;
        console = moved-IsConsole g (add32 g.cursor_x 1) g.cursor_y g.memory h;
        cursor = record { column = ground arith; row = c.row };
      })
    ]

-- The corner of a cell of the console is in the picture.
corner : (c p n w : ℕ) → c < n → n * p ≤ w → w < 2 ^ 31 → c * p % 2 ^ 32 ≤ w
corner c p n w h k small = let less : c ≤ n = omega arith in omega (arith, mul-le-mul_right p less)

print_glyph-Inside :
    (g : GraphicsContext) (chr : ℕ) → IsConsole g → IsCursor g → Inside g (print_glyph g chr)
unfolding print_glyph
print_glyph-Inside g chr h c =
    let at = onto_row g in
    let on = onto_row-OnRow g h c in
    let k = on.inside.console in
    let next = advance-Inside at k on.inside.cursor on.row in
    let drawn =
      render_char-Keeps at.memory at.buf at.font at.foreground_color at.background_color
        (at.cursor_x * at.font.font_width % 2 ^ 32) (at.cursor_y * at.font.font_height % 2 ^ 32) chr
        k.frame (omega (arith, k.wide)) (omega (arith, k.high))
        (corner at.cursor_x at.font.font_width at.console_width at.buf.width on.inside.cursor.column
          k.columns k.wide)
        (corner at.cursor_y at.font.font_height at.console_height at.buf.height on.row k.rows
          k.high) in
    record {
      same_buf = next.same_buf ∙ on.inside.same_buf;
      keeps = λ a out.
          drawn a (
            subst (λ (f : Framebuffer). (a < f.base_address) ⊎ (f.base_address + f.buffer_size ≤ a))
              (sym on.inside.same_buf) out)
          ∙ on.inside.keeps a out;
      console =
          moved-IsConsole (advance at) (advance at).cursor_x (advance at).cursor_y _ next.console;
      cursor = record { column = next.cursor.column; row = next.cursor.row };
    }

pub printchar-Inside :
    (g : GraphicsContext) (chr : ℕ)
    → chr ≢ 9
    → IsConsole g
    → IsCursor g
    → Inside g (printchar g chr)
unfolding printchar
printchar-Inside g chr no_tab h c =
    let other : (chr == 9) ≡ false = ground arith in
    elim (Bool-cases (chr == 10)) [
      | inl e ↦ rw e (new_line-Inside g h c)
      | inr e ↦ rw e (rw other (print_glyph-Inside g chr h c))
    ]

abbrev pub NoTab : List ℕ → Type 0
NoTab [] = Unit
NoTab (c ∷ s) = (c ≢ 9) × NoTab s

-- A string without tabs that stands apart from the frame buffer, printed on a console whose cells fit
-- the frame buffer, from a cursor in a column and at most one row below the last, with more rounds than it has characters: `print`
-- returns, the same is true of the console and its cursor again, and no byte outside of the frame buffer changes.
pub print-Inside :
    (rounds : ℕ) (g : GraphicsContext) (str : ℕ) (s : List ℕ)
    → IsString g.memory str s
    → NoTab s
    → (str + length s < g.buf.base_address) ⊎ (g.buf.base_address + g.buf.buffer_size ≤ str)
    → length s < rounds
    → IsConsole g
    → IsCursor g
    → (g' : GraphicsContext) × (print rounds g str ≡ some g') × Inside g g'
unfolding print
print-Inside zero g str s k tabs apart enough h c = absurd (omega arith)
print-Inside (suc rounds) g str [] (terminator e) tabs apart enough h c =
    let stops : (g.memory str == 0) ≡ true = ground arith in
    (g, rw stops refl, record { same_buf = refl; keeps = λ a out. refl; console = h; cursor = c })
print-Inside (suc rounds) g str (x ∷ s) (byte e nonzero k) (no_tab, tabs) apart enough h c =
    let going : (g.memory str == 0) ≡ false = ground arith in
    let next = printchar g (g.memory str) in
    let first = printchar-Inside g (g.memory str) (λ p. no_tab (sym e ∙ p)) h c in
    let b = g.buf.base_address in
    let (g', run, rest) =
      print-Inside rounds next (str + 1) s
        (IsString-Agree b (b + g.buf.buffer_size) next.memory g.memory (str + 1) s first.keeps
          (ground arith) k)
        tabs
        (subst
          (λ (f : Framebuffer).
            (str + 1 + length s < f.base_address) ⊎ (f.base_address + f.buffer_size ≤ str + 1))
          (sym first.same_buf) (ground arith))
        (omega arith) first.console first.cursor in
    (
      g',
      rw going run,
      record {
        same_buf = rest.same_buf ∙ first.same_buf;
        keeps = λ a out.
            rest.keeps a (
              subst
                (λ (f : Framebuffer). (a < f.base_address) ⊎ (f.base_address + f.buffer_size ≤ a))
                (sym first.same_buf) out)
            ∙ first.keeps a out;
        console = rest.console;
        cursor = rest.cursor;
      },
    )
