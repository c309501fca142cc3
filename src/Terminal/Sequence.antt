-- ===== src/Terminal/Sequence.antt =====
-- Escape sequences of `tty_write`, kernel/src/tty.c.
use efi_os.Prelude.{
  ℕ, suc, refl, ap, ◌∙◌, ◌+◌, ◌-◌, ◌*◌, ◌%◌, ◌^◌, ◌<◌, ◌≡◌, ◌≢◌, Bool, true, false, some, List, [],
  ◌∷◌, length, arith, ◌==◌,
}
use efi_os.Memory.{Memory}
use efi_os.Numbers.{is_digit}
use efi_os.Numbers.Loop.{number, AllDigits, IsDigitOf, digit_value}
use efi_os.Numbers.RoundTrip.{le-number}
use efi_os.Numbers.Reading.{Spelled}
use efi_os.Screen.Console.{move_cursor}
use efi_os.Screen.Console.Inside.{memory-move_cursor}
use efi_os.Terminal.{
  Tty, read_digit, start_escape, final_character, escape_character, tty_character, tty_write,
}

tty_write_step :
    (rounds : ℕ) (t : Tty) (f c : ℕ)
    → t.g.memory f ≡ c
    → c ≢ 0
    → tty_write (suc rounds) t f ≡ tty_write rounds (tty_character t c) (f + 1)
unfolding tty_write
tty_write_step rounds t f c e nonzero =
    let going : (c == 0) ≡ false = ground arith in rw e (rw going refl)

-- Inside of a sequence, with the two numbers read so far.
abbrev inside : Tty → (x y : ℕ) → (second no_input : Bool) → Tty
inside t x y second no_input = record t {
  reading_escape = true;
  maybe_escape = false;
  esc_x = x;
  esc_y = y;
  esc_second = second;
  esc_no_input = no_input;
}

-- A digit of the first number and of the second.
digit-inside :
    (t : Tty) (x y c : ℕ) (no_input : Bool)
    → IsDigitOf 10 c
    → (x * 10 + digit_value c < 2 ^ 32
        → tty_character (inside t x y false no_input) c
          ≡ inside t (x * 10 + digit_value c) y false false)
      × (y * 10 + digit_value c < 2 ^ 32
          → tty_character (inside t x y true no_input) c
            ≡ inside t x (y * 10 + digit_value c) true false)
unfolding tty_character escape_character read_digit
digit-inside t x y c no_input d =
    let digit : is_digit c ≡ true = ground arith in
    let plain : (c == 27) ≡ false = ground arith in
    let value : c - b'0' ≡ digit_value c = ground arith in
    (
      λ fits.
          let whole : (x * 10 + (c - b'0')) % 2 ^ 32 ≡ x * 10 + digit_value c =
            omega (arith, fits, value) in
          rw plain (rw digit (ap (λ (v : ℕ). inside t v y false false) whole)),
      λ fits.
          let whole : (y * 10 + (c - b'0')) % 2 ^ 32 ≡ y * 10 + digit_value c =
            omega (arith, fits, value) in
          rw plain (rw digit (ap (λ (v : ℕ). inside t x v true false) whole)),
    )

-- The digits of the first number.
digits-first :
    (s : List ℕ) (rounds : ℕ) (t : Tty) (x y f : ℕ) (no_input : Bool)
    → Spelled t.g.memory f s
    → AllDigits 10 s
    → number 10 x s < 2 ^ 32
    → (later : Bool) × (tty_write (length s + rounds) (inside t x y false no_input) f
        ≡ tty_write rounds (inside t (number 10 x s) y false later) (f + length s))
digits-first [] rounds t x y f no_input there digits fits = (
  no_input,
  ap (λ (r : ℕ). tty_write r (inside t x y false no_input) f) {x = 0 + rounds} {y = rounds}
        (omega arith)
      ∙ ap (tty_write rounds (inside t x y false no_input)) {x = f} {y = f + 0} (omega arith),
)
digits-first (c ∷ s) rounds t x y f no_input (e, there) (d, digits) fits =
    let small : x * 10 + digit_value c < 2 ^ 32 =
      omega (arith, le-number s (x * 10 + digit_value c)) in
    let (later, rest) =
      digits-first s rounds t (x * 10 + digit_value c) y (f + 1) false there digits fits in
    (
      later,
      ap (λ (r : ℕ). tty_write r (inside t x y false no_input) f) {x = suc (length s) + rounds}
            {y = suc (length s + rounds)} (omega arith)
          ∙ tty_write_step (length s + rounds) (inside t x y false no_input) f c e (ground arith)
          ∙ ap (λ (u : Tty). tty_write (length s + rounds) u (f + 1))
              ((digit-inside t x y c no_input d).0 small)
          ∙ rest
          ∙ ap (λ (a : ℕ). tty_write rounds (inside t (number 10 x (c ∷ s)) y false later) a)
              {x = f + 1 + length s} {y = f + suc (length s)} (omega arith),
    )

-- The digits of the second number.
digits-second :
    (s : List ℕ) (rounds : ℕ) (t : Tty) (x y f : ℕ) (no_input : Bool)
    → Spelled t.g.memory f s
    → AllDigits 10 s
    → number 10 y s < 2 ^ 32
    → (later : Bool) × (tty_write (length s + rounds) (inside t x y true no_input) f
        ≡ tty_write rounds (inside t x (number 10 y s) true later) (f + length s))
digits-second [] rounds t x y f no_input there digits fits = (
  no_input,
  ap (λ (r : ℕ). tty_write r (inside t x y true no_input) f) {x = 0 + rounds} {y = rounds}
        (omega arith)
      ∙ ap (tty_write rounds (inside t x y true no_input)) {x = f} {y = f + 0} (omega arith),
)
digits-second (c ∷ s) rounds t x y f no_input (e, there) (d, digits) fits =
    let small : y * 10 + digit_value c < 2 ^ 32 =
      omega (arith, le-number s (y * 10 + digit_value c)) in
    let (later, rest) =
      digits-second s rounds t x (y * 10 + digit_value c) (f + 1) false there digits fits in
    (
      later,
      ap (λ (r : ℕ). tty_write r (inside t x y true no_input) f) {x = suc (length s) + rounds}
            {y = suc (length s + rounds)} (omega arith)
          ∙ tty_write_step (length s + rounds) (inside t x y true no_input) f c e (ground arith)
          ∙ ap (λ (u : Tty). tty_write (length s + rounds) u (f + 1))
              ((digit-inside t x y c no_input d).1 small)
          ∙ rest
          ∙ ap (λ (a : ℕ). tty_write rounds (inside t x (number 10 y (c ∷ s)) true later) a)
              {x = f + 1 + length s} {y = f + suc (length s)} (omega arith),
    )

-- What stands in memory: the escape character, `[`, two numbers with `;` between them, `H` and the end.
pub record IsSequence (m : Memory) (f : ℕ) (s t : List ℕ) : Type 0 where
  pub escape : m f ≡ 27
  pub bracket : m (f + 1) ≡ b'['
  pub first : Spelled m (f + 2) s
  pub semicolon : m (f + 2 + length s) ≡ b';'
  pub second : Spelled m (f + 2 + length s + 1) t
  pub last : m (f + 2 + length s + 1 + length t) ≡ b'H'
  pub end : m (f + 2 + length s + 1 + length t + 1) ≡ 0

-- Around the numbers.
opening : (t : Tty) → tty_character (tty_character t 27) b'[' ≡ inside t 0 0 false true
unfolding tty_character start_escape
opening t = refl

kept : (t : Tty) {a : ℕ} → (tty_character t 27).g.memory a ≡ t.g.memory a
unfolding tty_character start_escape
kept t = refl

between :
    (t : Tty) (x y : ℕ) (later : Bool)
    → tty_character (inside t x y false later) b';' ≡ inside t x y true later
unfolding tty_character escape_character final_character
between t x y later = refl

-- The terminal behind a sequence, with the cursor moved.
abbrev after : Tty → (x y : ℕ) → (no_input : Bool) → Tty
after t x y no_input = record (inside t x y true no_input) {
  g = move_cursor t.g x y;
  reading_escape = false;
}

closing :
    (t : Tty) (x y : ℕ) (later : Bool)
    → tty_character (inside t x y true later) b'H' ≡ after t x y later
unfolding tty_character escape_character final_character
closing t x y later = refl

tty_write_end :
    (rounds : ℕ) (t : Tty) (f : ℕ) → t.g.memory f ≡ 0 → tty_write (suc rounds) t f ≡ some t
unfolding tty_write
tty_write_end rounds t f e = let stops : (0 == 0) ≡ true = refl in rw e refl

-- The escape character, `[`, a number, `;`, a number and `H` (numbers below 2^31, given by any number of digits), whatever the terminal
-- was reading before, with a round more than there are characters: `tty_write` returns; the cursor has moved to the numbers, the
-- terminal is outside of a sequence, and nothing else of the console or of the saved position has changed.
pub tty_write-move_cursor :
    (rounds : ℕ) (t : Tty) (f : ℕ) (s u : List ℕ)
    → IsSequence t.g.memory f s u
    → AllDigits 10 s
    → AllDigits 10 u
    → number 10 0 s < 2 ^ 31
    → number 10 0 u < 2 ^ 31
    → length s + length u + 4 < rounds
    → (t' : Tty) × (tty_write rounds t f ≡ some t')
      × (t'.g ≡ move_cursor t.g (number 10 0 s) (number 10 0 u))
      × (t'.reading_escape ≡ false)
      × (t'.saved_x ≡ t.saved_x)
      × (t'.saved_y ≡ t.saved_y)
tty_write-move_cursor rounds t f s u h digits digits' small small' enough =
    let r = rounds - (length s + length u + 5) in
    let x = number 10 0 s in
    let y = number 10 0 u in
    let (no_input, read_first) =
      digits-first s (suc (length u + suc (suc r))) t 0 0 (f + 2) true h.first digits
        (omega arith) in
    let (later, read_second) =
      digits-second u (suc (suc r)) t x 0 (f + 2 + length s + 1) no_input h.second digits'
        (omega arith) in
    (
      after t x y later,
      ap (λ (n : ℕ). tty_write n t f) {x = rounds}
            {y = suc (suc (length s + suc (length u + suc (suc r))))} (omega arith)
          ∙ tty_write_step (suc (length s + suc (length u + suc (suc r)))) t f 27 h.escape (cc)
          ∙ tty_write_step (length s + suc (length u + suc (suc r))) (tty_character t 27) (f + 1)
              b'[' (kept t ∙ h.bracket) (cc)
          ∙ ap (λ (v : Tty). tty_write (length s + suc (length u + suc (suc r))) v (f + 1 + 1))
              (opening t)
          ∙ ap (tty_write (length s + suc (length u + suc (suc r))) (inside t 0 0 false true))
              {x = f + 1 + 1} {y = f + 2} (omega arith)
          ∙ read_first
          ∙ tty_write_step (length u + suc (suc r)) (inside t x 0 false no_input) (f + 2 + length s)
              b';' h.semicolon (cc)
          ∙ ap (λ (v : Tty). tty_write (length u + suc (suc r)) v (f + 2 + length s + 1))
              (between t x 0 no_input)
          ∙ read_second
          ∙ tty_write_step (suc r) (inside t x y true later) (f + 2 + length s + 1 + length u) b'H'
              h.last (cc)
          ∙ ap (λ (v : Tty). tty_write (suc r) v (f + 2 + length s + 1 + length u + 1))
              (closing t x y later)
          ∙ tty_write_end r (after t x y later) (f + 2 + length s + 1 + length u + 1) (
              ap (λ (m : Memory). m (f + 2 + length s + 1 + length u + 1))
                (memory-move_cursor t.g x y)
              ∙ h.end),
      refl,
      refl,
      refl,
      refl,
    )
