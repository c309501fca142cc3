-- ===== src/Printf/Refine.antt =====
-- The loops of `kvsprintf`, kernel/src/stdio.c, print what a format is to print.
use efi_os.Prelude.{
  ℕ, zero, suc, refl, sym, ap, subst, ◌∙◌, ◌+◌, ◌-◌, ◌%◌, ◌^◌, ◌<◌, ◌≤◌, ◌≡◌, ◌⊎◌, inl, inr, true,
  false, some, List, [], ◌∷◌, ◌++◌, length, length-append, append_assoc, arith, ◌==◌,
}
use efi_os.Memory.{Memory, store}
use efi_os.Strings.Text.{IsString, terminator, byte}
use efi_os.Numbers.Loop.{radix}
use efi_os.Numbers.Reading.{Spelled, Written, Printed, base_of, format_number-fits}
use efi_os.Printf
use efi_os.Printf.{
  Floating, Output, takes_word, text_loop, word_directive, with_words, turn, kvsprintf_loop,
  kvsprintf,
}
use efi_os.Printf.Expand.{
  Prints, hexadecimal, pointer, decimal, text, character, IsNumeral, Expands, finished, plain,
  unknown, directive, Item, Accepts, Agree, IsString-Agree, Written-append,
}

-- A string apart from where it goes, with more rounds than it has bytes.
text_loop-Written :
    (rounds : ℕ) (m : Memory) (temp buf : ℕ) (s : List ℕ)
    → IsString m temp s
    → length s < rounds
    → (buf + length s ≤ temp) ⊎ (temp + length s < buf)
    → (m' : Memory) × (text_loop rounds m temp buf ≡ some (buf + length s, m')) × Written m m' buf s
unfolding text_loop
text_loop-Written zero m temp buf s k enough apart = absurd (omega arith)
text_loop-Written (suc rounds) m temp buf [] (terminator e) enough apart =
    let here : (m temp == 0) ≡ true = ground arith in
    (
      m,
      rw here (ap (λ (b : ℕ). some (b, m)) {x = buf} {y = buf + 0} (omega arith)),
      record { there = tt; around = λ x out. refl },
    )
text_loop-Written (suc rounds) m temp buf (c ∷ s) (byte e nonzero k) enough apart =
    let here : (m temp == 0) ≡ false = ground arith in
    let m1 = store m buf (m temp) in
    let (m', run, w) =
      text_loop-Written rounds m1 (temp + 1) (buf + 1) s
        (IsString-Agree buf (buf + 1) m1 m (temp + 1) s (λ x out. ground arith) (ground arith) k)
        (omega arith) (ground arith) in
    (
      m',
      rw here (
          run
          ∙ ap (λ (b : ℕ). some (b, m')) {x = buf + 1 + length s} {y = buf + suc (length s)}
              (omega arith)),
      record {
        there = (w.around buf (inl (omega arith)) ∙ ground arith, w.there);
        around = λ x out. w.around x (ground arith) ∙ ground arith;
      },
    )

-- A directive wrote the text `s` of its word, within its room.
record Done (m0 m : Memory) (c w buf room : ℕ) (out : ℕ × Memory) (s : List ℕ) : Type 0 where
  place : out.0 ≡ buf + length s
  bytes : Written m out.1 buf s
  prints : Prints m0 c w s
  size : length s ≤ room

numeral :
    {m : Memory} {buf w base : ℕ} {out : ℕ × Memory} {s : List ℕ}
    → Printed m buf w base 22 out s
    → IsNumeral (radix (base_of base)) w s
numeral p = record { value = p.value; digits = p.digits; some_digit = p.some_digit }

-- Each directive, with enough rounds, on a memory that has the caller's strings where nothing is
-- printed.
word_directive-Done :
    (f : Floating) (rounds : ℕ) (m0 m : Memory) (lo hi limit c w buf room : ℕ)
    → Item m0 lo hi limit c w room
    → 22 ≤ rounds
    → limit ≤ rounds
    → Agree lo hi m m0
    → lo ≤ buf
    → buf + room < hi
    → (out : ℕ × Memory) × (s : List ℕ) × (word_directive f rounds c m buf w ≡ some out)
      × Done m0 m c w buf room out s
unfolding word_directive
word_directive-Done f rounds m0 m lo hi limit c w buf _ (hexadecimal e small) enough fits same l h =
    let (out, s, run, p) = format_number-fits rounds m buf w 16 small enough in
    (
      out,
      s,
      subst (λ (d : ℕ). word_directive f rounds d m buf w ≡ some out) (sym e) run,
      record { place = p.end; bytes = p.bytes; prints = hexadecimal e (numeral p); size = p.size },
    )
word_directive-Done f rounds m0 m lo hi limit c w buf _ (pointer e small) enough fits same l h =
    let m1 = store (store m buf b'0') (buf + 1) b'x' in
    let (out, s, run, p) = format_number-fits rounds m1 (buf + 2) w 16 small enough in
    (
      out,
      b'0' ∷ b'x' ∷ s,
      subst (λ (d : ℕ). word_directive f rounds d m buf w ≡ some out) (sym e) run,
      record {
        place = omega (arith, p.end);
        bytes = record {
          there = (
            p.bytes.around buf (inl (omega arith)) ∙ ground arith,
            (
              p.bytes.around (buf + 1) (inl (omega arith)) ∙ ground arith,
              subst (λ (a : ℕ). Spelled out.1 a s) {x = buf + 2} {y = buf + 1 + 1} (omega arith)
                  p.bytes.there,
            ),
          );
          around = λ x away. p.bytes.around x (ground arith) ∙ ground arith;
        };
        prints = pointer e (numeral p);
        size = omega (arith, p.size);
      },
    )
word_directive-Done f rounds m0 m lo hi limit c w buf _ (decimal e small) enough fits same l h =
    let (out, s, run, p) = format_number-fits rounds m buf w 10 small enough in
    (
      out,
      s,
      elim e [
        | inl u ↦ subst (λ (d : ℕ). word_directive f rounds d m buf w ≡ some out) (sym u) run
        | inr (inl u) ↦ subst (λ (d : ℕ). word_directive f rounds d m buf w ≡ some out) (sym u) run
        | inr (inr u) ↦ subst (λ (d : ℕ). word_directive f rounds d m buf w ≡ some out) (sym u) run
      ],
      record { place = p.end; bytes = p.bytes; prints = decimal e (numeral p); size = p.size },
    )
word_directive-Done f rounds m0 m lo hi limit c w buf _ (text {s} e k short apart) enough fits same
      l h =
    let (m', run, written) =
      text_loop-Written rounds m w buf s (IsString-Agree lo hi m m0 w s same apart k) (omega arith)
        (ground arith) in
    (
      (buf + length s, m'),
      s,
      subst (λ (d : ℕ). word_directive f rounds d m buf w ≡ some (buf + length s, m')) (sym e) run,
      record { place = refl; bytes = written; prints = text e k; size = omega arith },
    )
word_directive-Done f rounds m0 m lo hi limit c w buf _ (character e) enough fits same l h =
    let m' = store m buf (w % 2 ^ 8) in
    (
      (buf + 1, m'),
      w % 2 ^ 8 ∷ [],
      subst (λ (d : ℕ). word_directive f rounds d m buf w ≡ some (buf + 1, m')) (sym e) refl,
      record {
        place = refl;
        bytes = record { there = (ground arith, tt); around = λ x away. ground arith };
        prints = character e;
        size = omega arith;
      },
    )

-- The rest of a format printed from `buf` on, with its terminating 0.
record Finished (m0 m : Memory) (format words : List ℕ) (buf room : ℕ) (m' : Memory) (out : List ℕ)
    : Type 0 where
  expands : Expands m0 format words out
  bytes : Written m m' buf (out ++ 0 ∷ [])
  size : length out ≤ room

-- Where a turn printed `s` and the loop goes on behind it.
Finished-append :
    (m0 m m1 m' : Memory) (format words format' words' : List ℕ) (buf place here room : ℕ)
    (s out : List ℕ)
    → place ≡ buf + length s
    → length s ≤ here
    → Written m m1 buf s
    → (Expands m0 format words out → Expands m0 format' words' (s ++ out))
    → Finished m0 m1 format words place room m' out
    → Finished m0 m format' words' buf (here + room) m' (s ++ out)
Finished-append m0 m m1 m' format words format' words' buf place here room s out e short w more r =
    record {
      expands = more r.expands;
      bytes =
          subst (λ (t : List ℕ). Written m m' buf t) (sym (append_assoc s out (0 ∷ [])))
            (Written-append m m1 m' buf place s (out ++ 0 ∷ []) e w r.bytes);
      size = omega (arith, length-append s out, r.size);
    }

Agree-Written :
    (lo hi : ℕ) (m0 m m1 : Memory) (buf : ℕ) (s : List ℕ)
    → Agree lo hi m m0
    → lo ≤ buf
    → buf + length s ≤ hi
    → Written m m1 buf s
    → Agree lo hi m1 m0
Agree-Written lo hi m0 m m1 buf s same l h w x out = w.around x (ground arith) ∙ same x out

module _ (f : Floating) (rounds : ℕ) (m0 : Memory) (lo hi limit : ℕ) (enough : 22 ≤ rounds)
    (fits : limit ≤ rounds) where
  -- One turn on a directive.
  turn-directive :
      (m : Memory) (inx buf p c w : ℕ) (words : List ℕ) (room : ℕ)
      → m inx ≡ p
      → m (inx + 1) ≡ c
      → p ≡ b'%'
      → Item m0 lo hi limit c w room
      → Agree lo hi m m0
      → lo ≤ buf
      → buf + room < hi
      → (out : ℕ × Memory) × (s : List ℕ) × (turn f rounds m inx buf (w ∷ words)
          ≡ (2, some (record { place = out.0; memory = out.1; words = words })))
        × Done m0 m c w buf room out s
  unfolding turn Printf.directive
  turn-directive m inx buf p c w words room e e' percent item same l h =
      let (out, s, run, done) =
        word_directive-Done f rounds m0 m lo hi limit c w buf room item enough fits same l h in
      let here : (m inx == b'%') ≡ true = ground arith in
      let word : takes_word c ≡ true = takes item in
      (out, s, rw here (rw e' (rw word (rw run refl))), done)
    where
      takes : {c room : ℕ} → Item m0 lo hi limit c w room → takes_word c ≡ true
      takes (hexadecimal e _) = ground arith
      takes (pointer e _) = ground arith
      takes (decimal e _) = ground arith
      takes (text e _ _ _) = ground arith
      takes (character e) = ground arith

  turn-unknown :
      (m : Memory) (inx buf p c : ℕ) (words : List ℕ)
      → m inx ≡ p
      → m (inx + 1) ≡ c
      → p ≡ b'%'
      → takes_word c ≡ false
      → turn f rounds m inx buf words
        ≡ (2, some (record { place = buf; memory = m; words = words }))
  unfolding turn Printf.directive
  turn-unknown m inx buf p c [] e e' percent no_word =
      let here : (m inx == b'%') ≡ true = ground arith in rw here (rw e' (rw no_word refl))
  turn-unknown m inx buf p c (w ∷ words) e e' percent no_word =
      let here : (m inx == b'%') ≡ true = ground arith in rw here (rw e' (rw no_word refl))

  kvsprintf_loop-Finished :
      (turns : ℕ) (m : Memory) (format words : List ℕ) (room inx buf : ℕ)
      → Accepts m0 lo hi limit format words room
      → IsString m0 inx format
      → (hi ≤ inx) ⊎ (inx + length format < lo)
      → length format < turns
      → Agree lo hi m m0
      → lo ≤ buf
      → buf + room < hi
      → (m' : Memory) × (out : List ℕ) × (kvsprintf_loop turns f rounds m inx buf words
          ≡ some (buf + length out, m'))
        × Finished m0 m format words buf room m' out
  unfolding kvsprintf_loop
  kvsprintf_loop-Finished zero m format words room inx buf a k apart more same l h =
      absurd (omega arith)
  kvsprintf_loop-Finished (suc turns) m _ words _ inx buf finished (terminator e) apart more same l
        h =
      let at_end : m inx ≡ 0 = same inx (ground arith) ∙ e in
      let stops : (m inx == 0) ≡ true = ground arith in
      (
        store m buf 0,
        [],
        rw stops (ap (λ (b : ℕ). some (b, store m buf 0)) {x = buf} {y = buf + 0} (omega arith)),
        record {
          expands = finished;
          bytes = record { there = (ground arith, tt); around = λ x away. ground arith };
          size = omega arith;
        },
      )
  kvsprintf_loop-Finished (suc turns) m _ words _ inx buf
        (plain {c = c} {format = format} {room = room} other a) (byte e nonzero k) apart more same l
        h =
      let e' : m inx ≡ c = same inx (ground arith) ∙ e in
      let going : (m inx == 0) ≡ false = ground arith in
      let no_percent : (m inx == b'%') ≡ false = ground arith in
      let m1 = store m buf (m inx) in
      let w : Written m m1 buf (c ∷ []) = record {
        there = (ground arith, tt);
        around = λ x away. ground arith;
      } in
      let (m', out, run, r) =
        kvsprintf_loop-Finished turns m1 format words room (inx + 1) (buf + 1) a k (ground arith)
          (omega arith) (Agree-Written lo hi m0 m m1 buf (c ∷ []) same l (omega arith) w)
          (omega arith) (omega arith) in
      (
        m',
        c ∷ out,
        rw going (
            rw no_percent (
              run
              ∙ ap (λ (b : ℕ). some (b, m')) {x = buf + 1 + length out} {y = buf + suc (length out)}
                  (omega arith))),
        subst (λ (n : ℕ). Finished m0 m (c ∷ format) words buf n m' (c ∷ out)) {x = 1 + room}
            {y = suc room} (omega arith)
            (Finished-append m0 m m1 m' format words (c ∷ format) words buf (buf + 1) 1 room
              (c ∷ []) out refl (omega arith) w (plain other) r),
      )
  kvsprintf_loop-Finished (suc turns) m _ words _ inx buf
        (unknown {p = p} {c = c} {format = format} {room = room} percent not_word a)
        (byte e nonzero (byte e' nonzero' k)) apart more same l h =
      let at_p : m inx ≡ p = same inx (ground arith) ∙ e in
      let at_c : m (inx + 1) ≡ c = same (inx + 1) (ground arith) ∙ e' in
      let going : (m inx == 0) ≡ false = ground arith in
      let (m', out, run, r) =
        kvsprintf_loop-Finished turns m format words room (inx + 2) buf a
          (subst (λ (b : ℕ). IsString m0 b format) {x = inx + 1 + 1} {y = inx + 2} (omega arith) k)
          (ground arith) (omega arith) same l h in
      (
        m',
        out,
        rw going (rw (turn-unknown m inx buf p c words at_p at_c percent not_word) run),
        record { expands = unknown percent not_word r.expands; bytes = r.bytes; size = r.size },
      )
  kvsprintf_loop-Finished (suc turns) m _ _ _ inx buf
        (directive {p} {c} {w} {format} {words} {here} {room} percent item a)
        (byte e nonzero (byte e' nonzero' k)) apart more same l h =
      let at_p : m inx ≡ p = same inx (ground arith) ∙ e in
      let at_c : m (inx + 1) ≡ c = same (inx + 1) (ground arith) ∙ e' in
      let going : (m inx == 0) ≡ false = ground arith in
      let ((place, m1), s, printed, done) =
        turn-directive m inx buf p c w words here at_p at_c percent item same l (omega arith) in
      let (m', out, run, r) =
        kvsprintf_loop-Finished turns m1 format words room (inx + 2) place a
          (subst (λ (b : ℕ). IsString m0 b format) {x = inx + 1 + 1} {y = inx + 2} (omega arith) k)
          (ground arith) (omega arith)
          (Agree-Written lo hi m0 m m1 buf s same l (omega (arith, done.size)) done.bytes)
          (omega (arith, done.place)) (omega (arith, done.place, done.size)) in
      (
        m',
        s ++ out,
        rw going (
            rw printed (
              run
              ∙ ap (λ (b : ℕ). some (b, m')) {x = place + length out} {y = buf + length (s ++ out)}
                  (omega (arith, done.place, length-append s out)))),
        Finished-append m0 m m1 m' format words (p ∷ c ∷ format) (w ∷ words) buf place here room s
            out done.place done.size done.bytes (directive percent done.prints) r,
      )

-- A format without `%f` and its words (a numeral of a 64-bit word takes at most 22 bytes), all that
-- it prints and its terminating 0 below `str + size`, and the format and the strings of `%s` apart from there: with
-- enough rounds `kvsprintf` returns; it has written at `str` the text that the format and the words describe,
-- and a 0 behind it, changed no other byte, and gives the number of characters.
pub kvsprintf-Expands :
    (turns : ℕ) (f : Floating) (rounds : ℕ) (m : Memory) (str size format limit : ℕ)
    (chars words : List ℕ) (room : ℕ)
    → Accepts m str (str + size) limit chars words room
    → IsString m format chars
    → (str + size ≤ format) ⊎ (format + length chars < str)
    → room < size
    → size ≤ 2 ^ 31
    → length chars < turns
    → 22 ≤ rounds
    → limit ≤ rounds
    → (m' : Memory) × (out : List ℕ) × (kvsprintf turns f rounds m str format words
        ≡ some (length out, m'))
      × Expands m chars words out
      × Written m m' str (out ++ 0 ∷ [])
unfolding kvsprintf
kvsprintf-Expands turns f rounds m str size format limit chars words room a k apart fits_in
      int_range more enough fits =
    let (m', out, run, r) =
      kvsprintf_loop-Finished f rounds m str (str + size) limit enough fits turns m chars words room
        format str a k (ground arith) more (λ x away. refl) (omega arith) (omega arith) in
    (
      m',
      out,
      rw run (
          ap (λ (n : ℕ). some (n, m')) {x = (str + length out - str) % 2 ^ 32} {y = length out}
            (omega (arith, r.size))),
      r.expands,
      r.bytes,
    )
