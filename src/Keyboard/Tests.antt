-- ===== src/Keyboard/Tests.antt =====
-- Left shift, a letter, the right arrow, and shift let go.
use efi_os.Prelude.{ℕ, refl, ◌≡◌, false, List, [], ◌∷◌, arith}
use efi_os.Keyboard.{Keyboard, print_char, handle_keys}
use efi_os.Keyboard.Held.{Keys, Encodes, all_keys, word-none, handle_keys-Encodes}

abbrev keyboard : Keyboard
keyboard = record {
  modifiers = 8;
  previous_key = 0;
  callbacks_enabled = false;
  current_context = 0;
  behind = 0;
}

abbrev no_keys : Keys
no_keys = record {
  lshift = false;
  rshift = false;
  pressed = false;
  alt = false;
  ctrl = false;
  pair = false;
}

abbrev codes : List ℕ
codes = 0x2a ∷ 0x1e ∷ 0xe0 ∷ 0x4d ∷ 0xaa ∷ 0x1e ∷ []

handle_keys_print : (handle_keys keyboard codes).0 ≡ print_char b'A' ∷ print_char b'a' ∷ []
unfolding handle_keys
handle_keys_print = refl

-- With shift a digit gives a control character, which is not printed.
handle_keys_shift : (handle_keys keyboard (0x2a ∷ 0x02 ∷ [])).0 ≡ []
unfolding handle_keys
handle_keys_shift = refl

keyboard-Encodes : Encodes keyboard no_keys
keyboard-Encodes = record { held = word-none; prefix = refl }

handle_keys-Encodes_example : Encodes (handle_keys keyboard codes).1 (all_keys no_keys codes)
handle_keys-Encodes_example =
    handle_keys-Encodes codes keyboard no_keys
      (omega arith, (omega arith, (omega arith, (omega arith, (omega arith, (omega arith, tt))))))
      keyboard-Encodes
