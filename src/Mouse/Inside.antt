-- ===== src/Mouse/Inside.antt =====
-- The pointer of kernel/src/mouse.c stays on the display, whatever bytes arrive.
use efi_os.Prelude.{
  ℕ, refl, subst, inl, inr, Bool-cases, ◌+◌, ◌^◌, ◌<◌, ◌≡◌, List, [], ◌∷◌, ◌++◌, arith, ◌==◌,
  if◌then◌else◌,
}
use efi_os.Mouse.{
  Mouse, Effect, render_char, move_mouse, flag, moved_x, moved_y, packet, gather, handle_ps2_mouse,
}

-- The pointer is on a display that is not empty, and a packet is not complete.
pub record IsInside (m : Mouse) : Type 0 where
  pub counter : m.fragment_counter < 3
  pub x_inside : m.mouse_x < m.display_width
  pub y_inside : m.mouse_y < m.display_height
  pub width : m.display_width < 2 ^ 32
  pub height : m.display_height < 2 ^ 32

-- An effect is on the display.
pub data OnDisplay (w h : ℕ) : List Effect → Type 0 where
  no_effect : OnDisplay w h []
  rendered :
      {x y : ℕ} {es : List Effect}
      → x < w
      → y < h
      → OnDisplay w h es
      → OnDisplay w h (render_char x y ∷ es)
  moved_to :
      {x y : ℕ} {es : List Effect}
      → x < w
      → y < h
      → OnDisplay w h es
      → OnDisplay w h (move_mouse x y ∷ es)

-- The bytes in turn, with all the effects.
abbrev pub handle_all : Mouse → List ℕ → List Effect × Mouse
handle_all m [] = ([], m)
handle_all m (b ∷ bs) =
    let (es, m1) = handle_ps2_mouse m b in let (es', m2) = handle_all m1 bs in (es ++ es', m2)

-- What a call leaves of the display.
record Kept (m : Mouse) (r : List Effect × Mouse) : Type 0 where
  inside : IsInside r.1
  effects : OnDisplay m.display_width m.display_height r.0
  same_width : r.1.display_width ≡ m.display_width
  same_height : r.1.display_height ≡ m.display_height

x_range : (m : Mouse) → IsInside m → moved_x m < m.display_width
unfolding moved_x
x_range m v = omega (arith, v.x_inside, v.width)

y_range : (m : Mouse) → IsInside m → moved_y m < m.display_height
unfolding moved_y
y_range m v = omega (arith, v.y_inside, v.height)

packet-Kept : (m : Mouse) → IsInside m → Kept m (packet m)
unfolding packet
packet-Kept m v = elim (Bool-cases (flag (m.fragments 0) 0xc0)) [
  | inl e ↦ rw e (record { inside = v; effects = no_effect; same_width = refl; same_height = refl })
  | inr e ↦ rw e (record {
    inside = record {
      counter = v.counter;
      x_inside = x_range m v;
      y_inside = y_range m v;
      width = v.width;
      height = v.height;
    };
    effects = elim (Bool-cases (flag (m.fragments 0) 0x01)) [
      | inl c ↦
          rw c
            (rendered (x_range m v) (y_range m v) (moved_to (x_range m v) (y_range m v) no_effect))
      | inr c ↦ rw c (moved_to (x_range m v) (y_range m v) no_effect)
    ];
    same_width = refl;
    same_height = refl;
  })
]

-- A byte that is stored changes nothing of the display.
stored : Mouse → (frag counter : ℕ) → Mouse
stored m frag counter = record m {
  fragments = λ i. if i == m.fragment_counter then frag else m.fragments i;
  fragment_counter = counter;
}

stored-IsInside :
    (m : Mouse) (frag counter : ℕ) → counter < 3 → IsInside m → IsInside (stored m frag counter)
unfolding stored
stored-IsInside m frag counter few v = record {
  counter = few;
  x_inside = v.x_inside;
  y_inside = v.y_inside;
  width = v.width;
  height = v.height;
}

handle-Kept : (m : Mouse) (frag : ℕ) → IsInside m → Kept m (handle_ps2_mouse m frag)
unfolding handle_ps2_mouse gather stored
handle-Kept m frag v = elim (Bool-cases (m.skip == 0)) [
  | inl go ↦ elim (Bool-cases (m.fragment_counter + 1 == 3)) [
    | inl third ↦
        let k = packet-Kept (stored m frag 0) (stored-IsInside m frag 0 (omega arith) v) in
        rw (go, third)
          (record {
            inside = k.inside;
            effects = k.effects;
            same_width = k.same_width;
            same_height = k.same_height;
          })
    | inr more ↦
        rw (go, more)
          (record {
            inside = stored-IsInside m frag (m.fragment_counter + 1) (ground (arith, v.counter)) v;
            effects = no_effect;
            same_width = refl;
            same_height = refl;
          })
  ]
  | inr skipped ↦ rw skipped (record {
    inside = record {
      counter = v.counter;
      x_inside = v.x_inside;
      y_inside = v.y_inside;
      width = v.width;
      height = v.height;
    };
    effects = no_effect;
    same_width = refl;
    same_height = refl;
  })
]

OnDisplay-append :
    (w h : ℕ) (es fs : List Effect) → OnDisplay w h es → OnDisplay w h fs → OnDisplay w h (es ++ fs)
OnDisplay-append w h [] fs no_effect k = k
OnDisplay-append w h (render_char x y ∷ es) fs (rendered a b r) k =
    rendered a b (OnDisplay-append w h es fs r k)
OnDisplay-append w h (move_mouse x y ∷ es) fs (moved_to a b r) k =
    moved_to a b (OnDisplay-append w h es fs r k)

-- `HANDLE_PS2_MOUSE` of any bytes in turn, from a pointer on a display that is not empty: the pointer
-- stays on the display, no packet is longer than three bytes, and all that is drawn is drawn there.
pub handle_all-IsInside :
    (bs : List ℕ) (m : Mouse)
    → IsInside m
    → IsInside (handle_all m bs).1 × OnDisplay m.display_width m.display_height (handle_all m bs).0
handle_all-IsInside [] m v = (v, no_effect)
handle_all-IsInside (b ∷ bs) m v =
    let k = handle-Kept m b v in
    let (inside, effects) = handle_all-IsInside bs (handle_ps2_mouse m b).1 k.inside in
    (
      inside,
      OnDisplay-append m.display_width m.display_height (handle_ps2_mouse m b).0
          (handle_all (handle_ps2_mouse m b).1 bs).0 k.effects
          (subst
            (λ (w : ℕ). OnDisplay w m.display_height (handle_all (handle_ps2_mouse m b).1 bs).0)
            k.same_width
            (subst
              (λ (h : ℕ).
                OnDisplay (handle_ps2_mouse m b).1.display_width h
                  (handle_all (handle_ps2_mouse m b).1 bs).0)
              k.same_height effects)),
    )
