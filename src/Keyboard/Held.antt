-- ===== src/Keyboard/Held.antt =====
-- The modifiers of kernel/src/keyboard.c are the keys that are held.
use efi_os.Prelude.{
  ℕ, zero, suc, refl, sym, ap, subst, ◌∙◌, ◌+◌, ◌<◌, ◌≡◌, inl, inr, Bool, true, false, Bool-cases,
  ◌&&◌, not, List, [], ◌∷◌, arith, ==_iff, ltb, ◌==◌, if◌then◌else◌, bit_and, bit_or,
}
use efi_os.Keyboard.{
  Keyboard, Effect, clear, up_or_down, extended_key, plain_key, report, handle_key, handle_keys,
}

-- The keys: both shifts, alt, control, whether the last byte was a press, and whether the next byte is
-- the second of a pair.
pub record Keys : Type 0 where
  pub lshift : Bool
  pub rshift : Bool
  pub pressed : Bool
  pub alt : Bool
  pub ctrl : Bool
  pub pair : Bool

-- A press and a release of one key, by the scan codes of the two.
abbrev after : (press : ℕ) → (keycode : ℕ) → Bool → Bool
after press keycode held =
    if keycode == press then true else if keycode == press + 128 then false else held

-- What a byte does to the keys.
abbrev pub key : Keys → (keycode : ℕ) → Keys
key k keycode =
    if keycode == 0xe0 && not k.pair
    then record k { pair = true }
    else if k.pair
    then record k { pair = false; pressed = ltb keycode 128 }
    else record k {
      lshift = after 0x2a keycode k.lshift;
      rshift = after 0x36 keycode k.rshift;
      alt = after 0x38 keycode k.alt;
      ctrl = after 0x1d keycode k.ctrl;
      pressed = ltb keycode 128;
    }

abbrev pub all_keys : Keys → List ℕ → Keys
all_keys k [] = k
all_keys k (keycode ∷ keycodes) = all_keys (key k keycode) keycodes

abbrev bit : Bool → ℕ → ℕ
bit b n = if b then n else 0

pub word : (lshift rshift pressed alt ctrl : Bool) → ℕ
word l r p a c = bit l 1 + bit r 2 + (if p then 4 else 8) + bit a 16 + bit c 64

-- Two functions of five Booleans that agree at each.
same1 : (f g : Bool → ℕ) → Bool
same1 f g = f true == g true && f false == g false

abbrev both : (Bool → Bool) → Bool
both p = p true && p false

both-all : (p : Bool → Bool) → both p ≡ true → (b : Bool) → p b ≡ true
both-all p h true = ground arith
both-all p h false = ground arith

by_bools :
    (f g : Bool → Bool → Bool → Bool → Bool → ℕ)
    → both (λ l. both (λ r. both (λ p. both (λ a. both (λ c. f l r p a c == g l r p a c))))) ≡ true
    → (l r p a c : Bool) → f l r p a c ≡ g l r p a c
by_bools f g h l r p a c = (==_iff (f l r p a c) (g l r p a c)).0 (
    both-all (λ c. f l r p a c == g l r p a c)
      (both-all (λ a. both (λ c. f l r p a c == g l r p a c))
        (both-all (λ p. both (λ a. both (λ c. f l r p a c == g l r p a c)))
          (both-all (λ r. both (λ p. both (λ a. both (λ c. f l r p a c == g l r p a c))))
            (both-all
              (λ l. both (λ r. both (λ p. both (λ a. both (λ c. f l r p a c == g l r p a c))))) h l)
            r)
          p)
        a)
      c)

set_lshift : (l r p a c : Bool) → bit_or (word l r p a c) 1 ≡ word true r p a c
unfolding word
set_lshift = by_bools (λ l r p a c. bit_or (word l r p a c) 1) (λ l r p a c. word true r p a c) refl

set_rshift : (l r p a c : Bool) → bit_or (word l r p a c) 2 ≡ word l true p a c
unfolding word
set_rshift = by_bools (λ l r p a c. bit_or (word l r p a c) 2) (λ l r p a c. word l true p a c) refl

set_alt : (l r p a c : Bool) → bit_or (word l r p a c) 16 ≡ word l r p true c
unfolding word
set_alt = by_bools (λ l r p a c. bit_or (word l r p a c) 16) (λ l r p a c. word l r p true c) refl

set_ctrl : (l r p a c : Bool) → bit_or (word l r p a c) 64 ≡ word l r p a true
unfolding word
set_ctrl = by_bools (λ l r p a c. bit_or (word l r p a c) 64) (λ l r p a c. word l r p a true) refl

clear_lshift : (l r p a c : Bool) → clear (word l r p a c) 1 ≡ word false r p a c
unfolding word
clear_lshift =
    by_bools (λ l r p a c. clear (word l r p a c) 1) (λ l r p a c. word false r p a c) refl

clear_rshift : (l r p a c : Bool) → clear (word l r p a c) 2 ≡ word l false p a c
unfolding word
clear_rshift =
    by_bools (λ l r p a c. clear (word l r p a c) 2) (λ l r p a c. word l false p a c) refl

clear_alt : (l r p a c : Bool) → clear (word l r p a c) 16 ≡ word l r p false c
unfolding word
clear_alt = by_bools (λ l r p a c. clear (word l r p a c) 16) (λ l r p a c. word l r p false c) refl

clear_ctrl : (l r p a c : Bool) → clear (word l r p a c) 64 ≡ word l r p a false
unfolding word
clear_ctrl =
    by_bools (λ l r p a c. clear (word l r p a c) 64) (λ l r p a c. word l r p a false) refl

mark_down : (l r p a c : Bool) → bit_or (clear (word l r p a c) 12) 4 ≡ word l r true a c
unfolding word
mark_down =
    by_bools (λ l r p a c. bit_or (clear (word l r p a c) 12) 4) (λ l r p a c. word l r true a c)
      refl

mark_up : (l r p a c : Bool) → bit_or (clear (word l r p a c) 12) 8 ≡ word l r false a c
unfolding word
mark_up =
    by_bools (λ l r p a c. bit_or (clear (word l r p a c) 12) 8) (λ l r p a c. word l r false a c)
      refl

-- The highest bit of a byte.
all_below : (ℕ → Bool) → ℕ → Bool
all_below p zero = true
all_below p (suc n) = p n && all_below p n

all_below-at : (p : ℕ → Bool) (n : ℕ) → all_below p n ≡ true → (k : ℕ) → k < n → p k ≡ true
unfolding all_below
all_below-at p zero h k less = absurd (omega arith)
all_below-at p (suc n) h k less = elim (Bool-cases (k == n)) [
  | inl e ↦ ap p ((==_iff k n).0 e) ∙ ground arith
  | inr e ↦ all_below-at p n (ground arith) k (ground arith)
]

abbrev up_bit : Bool → ℕ
up_bit down = if down then 4 else 8

high_bit : (k : ℕ) → k < 256 → up_bit (bit_and k 0x80 == 0) ≡ up_bit (ltb k 128)
unfolding all_below
high_bit k h =
    (==_iff (up_bit (bit_and k 0x80 == 0)) (up_bit (ltb k 128))).0
      (all_below-at (λ n. up_bit (bit_and n 0x80 == 0) == up_bit (ltb n 128)) 256 refl k h)

-- The modifiers behind the switch are those of the keys behind the byte.
abbrev Agrees : (behind : ℕ) (l r p a c : Bool) (keycode : ℕ) → Type 0
Agrees behind l r p a c keycode =
    (plain_key behind (word l r p a c) keycode).1
    ≡ word (after 0x2a keycode l) (after 0x36 keycode r) p (after 0x38 keycode a)
        (after 0x1d keycode c)

-- Each code of the switch, and all others.
plain_key-word : (behind keycode : ℕ) (l r p a c : Bool) → Agrees behind l r p a c keycode
unfolding plain_key
plain_key-word behind keycode l r p a c =
    let at : (n : ℕ)
        → (keycode == n) ≡ true
        → Agrees behind l r p a c n
        → Agrees behind l r p a c keycode =
      λ n e there. subst (Agrees behind l r p a c) (sym ((==_iff keycode n).0 e)) there in
    elim (Bool-cases (keycode == 0x2a)) [
      | inl e ↦ at 0x2a e (set_lshift l r p a c)
      | inr e0 ↦ elim (Bool-cases (keycode == 0xaa)) [
        | inl e ↦ at 0xaa e (clear_lshift l r p a c)
        | inr e1 ↦ elim (Bool-cases (keycode == 0x36)) [
          | inl e ↦ at 0x36 e (set_rshift l r p a c)
          | inr e2 ↦ elim (Bool-cases (keycode == 0xb6)) [
            | inl e ↦ at 0xb6 e (clear_rshift l r p a c)
            | inr e3 ↦ elim (Bool-cases (keycode == 0x1c)) [
              | inl e ↦ at 0x1c e (refl)
              | inr e4 ↦ elim (Bool-cases (keycode == 0x39)) [
                | inl e ↦ at 0x39 e (refl)
                | inr e5 ↦ elim (Bool-cases (keycode == 0x0e)) [
                  | inl e ↦ at 0x0e e (refl)
                  | inr e6 ↦ elim (Bool-cases (keycode == 0x38)) [
                    | inl e ↦ at 0x38 e (set_alt l r p a c)
                    | inr e7 ↦ elim (Bool-cases (keycode == 0xb8)) [
                      | inl e ↦ at 0xb8 e (clear_alt l r p a c)
                      | inr e8 ↦ elim (Bool-cases (keycode == 0x1d)) [
                        | inl e ↦ at 0x1d e (set_ctrl l r p a c)
                        | inr e9 ↦ elim (Bool-cases (keycode == 0x9d)) [
                          | inl e ↦ at 0x9d e (clear_ctrl l r p a c)
                          | inr e10 ↦ rw e0 (
                              rw e1 (
                                rw e2 (
                                  rw e3 (
                                    rw e4
                                      (rw e5 (rw e6 (rw e7 (rw e8 (rw e9 (rw e10 (refl)))))))))))
                        ]
                      ]
                    ]
                  ]
                ]
              ]
            ]
          ]
        ]
      ]
    ]

-- The handler's variables say which keys are held.
pub record Encodes (k : Keyboard) (ks : Keys) : Type 0 where
  pub held : k.modifiers ≡ word ks.lshift ks.rshift ks.pressed ks.alt ks.ctrl
  pub prefix : k.previous_key ≡ (if ks.pair then 0xe0 else 0)

report-same :
    (k : Keyboard) (keycode final_keycode : ℕ)
    → ((report k keycode final_keycode).1.modifiers ≡ k.modifiers)
      × ((report k keycode final_keycode).1.previous_key ≡ k.previous_key)
unfolding report
report-same k keycode final_keycode = (ground arith, ground arith)

up_or_down-word :
    (l r p a c : Bool) (keycode : ℕ)
    → keycode < 256
    → up_or_down (word l r p a c) keycode ≡ word l r (ltb keycode 128) a c
unfolding up_or_down
up_or_down-word l r p a c keycode h =
    ap (bit_or (clear (word l r p a c) 12)) (high_bit keycode h)
    ∙ elim (Bool-cases (ltb keycode 128)) [
      | inl e ↦ rw e (mark_down l r p a c)
      | inr e ↦ rw e (mark_up l r p a c)
    ]

-- The three ways through the handler.
abbrev plainly : Keyboard → (keycode : ℕ) → List Effect × Keyboard
plainly k keycode =
    let (final_keycode, modifiers) = plain_key k.behind (up_or_down k.modifiers keycode) keycode in
    report (record k { modifiers = modifiers }) keycode final_keycode

abbrev second : Keyboard → (keycode : ℕ) → List Effect × Keyboard
second k keycode =
    report (record k { previous_key = 0; modifiers = up_or_down k.modifiers keycode }) keycode
      (extended_key keycode)

abbrev way : (first pair : Bool) → Keyboard → (keycode : ℕ) → List Effect × Keyboard
way first pair k keycode =
    if first
    then ([], record k { previous_key = keycode })
    else if pair
    then second k keycode
    else plainly k keycode

handle_key-way :
    (k : Keyboard) (keycode : ℕ)
    → handle_key k keycode
      ≡ way (keycode == 0xe0 && k.previous_key == 0) (k.previous_key == 0xe0) k keycode
unfolding handle_key
handle_key-way k keycode = refl

-- The keys by the same tests.
abbrev key_way : (first pair : Bool) → Keys → (keycode : ℕ) → Keys
key_way first pair k keycode =
    if first
    then record k { pair = true }
    else if pair
    then record k { pair = false; pressed = ltb keycode 128 }
    else record k {
      lshift = after 0x2a keycode k.lshift;
      rshift = after 0x36 keycode k.rshift;
      alt = after 0x38 keycode k.alt;
      ctrl = after 0x1d keycode k.ctrl;
      pressed = ltb keycode 128;
    }

way-Encodes :
    (first pair : Bool) (k : Keyboard) (ks : Keys) (keycode : ℕ)
    → keycode < 256
    → Encodes k ks
    → (first ≡ true → keycode ≡ 0xe0)
    → (first ≡ false → pair ≡ false → ks.pair ≡ false)
    → Encodes (way first pair k keycode).1 (key_way first pair ks keycode)
way-Encodes true pair k ks keycode h e code no_pair = record { held = e.held; prefix = code refl }
way-Encodes false true k ks keycode h e code no_pair =
    let (same, same') =
      report-same (record k { previous_key = 0; modifiers = up_or_down k.modifiers keycode })
        keycode (extended_key keycode) in
    record {
      held =
          same
          ∙ ap (λ (m : ℕ). up_or_down m keycode) e.held
          ∙ up_or_down-word ks.lshift ks.rshift ks.pressed ks.alt ks.ctrl keycode h;
      prefix = same';
    }
way-Encodes false false k ks keycode h e code no_pair =
    let moved = up_or_down k.modifiers keycode in
    let m = plain_key k.behind moved keycode in
    let (same, same') = report-same (record k { modifiers = m.1 }) keycode m.0 in
    record {
      held =
          same
          ∙ ap (λ (w : ℕ). (plain_key k.behind w keycode).1)
              (ap (λ (w : ℕ). up_or_down w keycode) e.held
                ∙ up_or_down-word ks.lshift ks.rshift ks.pressed ks.alt ks.ctrl keycode h)
          ∙ plain_key-word k.behind keycode ks.lshift ks.rshift (ltb keycode 128) ks.alt ks.ctrl;
      prefix = same' ∙ e.prefix;
    }

handle_key-Encodes :
    (k : Keyboard) (ks : Keys) (keycode : ℕ)
    → keycode < 256
    → Encodes k ks
    → Encodes (handle_key k keycode).1 (key ks keycode)
handle_key-Encodes k ks keycode h e =
    let none_yet : (k.previous_key == 0) ≡ not ks.pair =
      (pair_tests ks.pair k.previous_key e.prefix).0 in
    let pair : (k.previous_key == 0xe0) ≡ ks.pair =
      (pair_tests ks.pair k.previous_key e.prefix).1 in
    let first : (keycode == 0xe0 && k.previous_key == 0) ≡ (keycode == 0xe0 && not ks.pair) =
      ap (λ (b : Bool). keycode == 0xe0 && b) none_yet in
    subst (λ (r : List Effect × Keyboard). Encodes r.1 (key ks keycode))
      (sym (
        handle_key-way k keycode
        ∙ ap (λ (b : Bool). way b (k.previous_key == 0xe0) k keycode) first
        ∙ ap (λ (b : Bool). way (keycode == 0xe0 && not ks.pair) b k keycode) pair))
      (way-Encodes (keycode == 0xe0 && not ks.pair) ks.pair k ks keycode h e (λ t. ground arith)
        (λ f g. g))
  where
    pair_tests :
        (b : Bool) (previous : ℕ)
        → previous ≡ (if b then 0xe0 else 0)
        → ((previous == 0) ≡ not b) × ((previous == 0xe0) ≡ b)
    pair_tests true previous p = (ground arith, ground arith)
    pair_tests false previous p = (ground arith, ground arith)

abbrev pub AllBytes : List ℕ → Type 0
AllBytes [] = Unit
AllBytes (b ∷ bytes) = (b < 256) × AllBytes bytes

-- Any sequence of bytes from the keyboard: if the modifiers say which keys were held before, and the pending byte whether a pair had
-- begun, they do so after it. The left and the right shift, alt and control are set by a press and reset by a release, each by
-- its own codes and by no other byte, a byte behind 0xE0 included; exactly one of pressed and released is set, by the last byte.
pub handle_keys-Encodes :
    (keycodes : List ℕ) (k : Keyboard) (ks : Keys)
    → AllBytes keycodes
    → Encodes k ks
    → Encodes (handle_keys k keycodes).1 (all_keys ks keycodes)
unfolding handle_keys
handle_keys-Encodes [] k ks bytes e = e
handle_keys-Encodes (keycode ∷ keycodes) k ks (h, bytes) e =
    handle_keys-Encodes keycodes (handle_key k keycode).1 (key ks keycode) bytes
      (handle_key-Encodes k ks keycode h e)

-- No key is held.
pub word-none : 8 ≡ word false false false false false
unfolding word
word-none = refl
