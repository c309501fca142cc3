-- ===== src/Mouse.antt =====
-- The PS/2 mouse of kernel/src/mouse.c: HANDLE_PS2_MOUSE gathers packets of three bytes and moves the
-- pointer. The position is never negative, so it is a number, and the stop of a difference at 0 is the
-- `MAX` with 0. What the call draws is the list of its effects.
pub mod Inside
mod Tests
use efi_os.Prelude.{
  ℕ, zero, suc, ◌+◌, ◌-◌, ◌^◌, ◌%◌, Bool, true, false, not, List, [], ◌∷◌, ◌==◌, if◌then◌else◌,
  bit_and, sub32, min,
}

-- `render_char` of the letter a, and `move_mouse`.
pub data Effect : Type 0 where
  render_char : (x y : ℕ) → Effect
  move_mouse : (x y : ℕ) → Effect

pub record Mouse : Type 0 where
  pub skip : ℕ
  pub fragment_counter : ℕ
  pub fragments : ℕ → ℕ
  pub mouse_x : ℕ
  pub mouse_y : ℕ
  pub display_width : ℕ
  pub display_height : ℕ

abbrev pub flag : (byte bits : ℕ) → Bool
flag byte bits = not (bit_and byte bits == 0)

-- The two coordinates, kept on the display.
moved_x : Mouse → ℕ
moved_x m =
    let x =
      if flag (m.fragments 0) 0x10
      then m.mouse_x - (256 - m.fragments 1)
      else m.mouse_x + m.fragments 1 in
    min x (sub32 m.display_width 1)

moved_y : Mouse → ℕ
moved_y m =
    let y =
      if flag (m.fragments 0) 0x20
      then m.mouse_y + (256 - m.fragments 2)
      else m.mouse_y - m.fragments 2 in
    min y (sub32 m.display_height 1)

-- A whole packet; one that overflows is discarded.
packet : Mouse → List Effect × Mouse
unfolding moved_x moved_y
packet m =
    if flag (m.fragments 0) 0xc0
    then ([], m)
    else (let x = moved_x m in
        let y = moved_y m in
        (
          if flag (m.fragments 0) 0x01
              then render_char x y ∷ move_mouse x y ∷ []
              else move_mouse x y ∷ [],
          record m { mouse_x = x; mouse_y = y },
        ))

-- A byte stored, and the packet if it is the third one.
gather : Mouse → (frag : ℕ) → List Effect × Mouse
unfolding packet
gather m frag =
    let m1 = record m {
      fragments = λ i. if i == m.fragment_counter then frag else m.fragments i;
      fragment_counter = m.fragment_counter + 1;
    } in
    if m1.fragment_counter == 3 then packet (record m1 { fragment_counter = 0 }) else ([], m1)

pub handle_ps2_mouse : Mouse → (frag : ℕ) → List Effect × Mouse
unfolding gather
handle_ps2_mouse m frag =
    if m.skip == 0 then gather m frag else ([], record m { skip = m.skip - 1 })
