-- ===== src/Mouse/Tests.antt =====
-- The mouse at concrete inputs: a packet that moves the pointer off the left and the lower edge.
use efi_os.Prelude.{refl, ◌≡◌, [], ◌∷◌, arith}
use efi_os.Mouse.{
  Mouse, move_mouse, render_char, handle_ps2_mouse, gather, packet, moved_x, moved_y,
}
use efi_os.Mouse.Inside.{IsInside, OnDisplay, handle_all, handle_all-IsInside}

abbrev centre : Mouse
centre = record {
  skip = 0;
  fragment_counter = 0;
  fragments = λ i. 0;
  mouse_x = 5;
  mouse_y = 470;
  display_width = 640;
  display_height = 480;
}

centre-IsInside : IsInside centre
centre-IsInside = record {
  counter = omega arith;
  x_inside = omega arith;
  y_inside = omega arith;
  width = omega arith;
  height = omega arith;
}

handle_all-IsInside_example :
    IsInside (handle_all centre (0x39 ∷ 240 ∷ 200 ∷ [])).1
    × OnDisplay 640 480 (handle_all centre (0x39 ∷ 240 ∷ 200 ∷ [])).0
handle_all-IsInside_example = handle_all-IsInside (0x39 ∷ 240 ∷ 200 ∷ []) centre centre-IsInside

to_the_corner :
    (handle_all centre (0x39 ∷ 240 ∷ 200 ∷ [])).0 ≡ render_char 0 479 ∷ move_mouse 0 479 ∷ []
unfolding handle_ps2_mouse gather packet moved_x moved_y
to_the_corner = refl
