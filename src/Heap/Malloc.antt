-- ===== src/Heap/Malloc.antt =====
-- The walk of `kmalloc`, kernel/src/memory.c, is a first-fit search of the list of segments.
use mathlib.Core.Option
use efi_os.Prelude.{
  ℕ, zero, suc, ◌+◌, ◌<◌, ◌^◌, ◌≡◌, refl, sym, ap, ◌∙◌, inl, inr, Bool, false, ◌&&◌, Option, none,
  some, List, [], ◌∷◌, arith, ◌==◌, ltb, if◌then◌else◌, add64, length, Bool-cases,
}
use efi_os.Heap.{Heap, header_size, Walk, found, exhausted, out_of_rounds, kmalloc_walk}
use efi_os.Heap.Chain.{Seg, header, behind, next_of, Chain, end_of, last_of, le-last_of, IsCons}
use efi_os.Heap.Split.{
  cut, take_segment, take_segment-Chain, take_segment-other, take_segment-last,
  take_segment-globals, behind_rest,
}

-- Whether a request for `size` bytes is cut from segment `s`.
abbrev pub fits : (size : ℕ) → Seg → Bool
fits size s = s.unused && ltb (size + header_size) s.size

-- First fit: the address of the payload, and the new list.
unfoldable pub allot : (size p : ℕ) → List Seg → Option (ℕ × List Seg)
allot size p [] = none
allot size p (s ∷ rest) =
    if fits size s
    then some (p + header_size, cut size s rest)
    else Option.map (λ (a, ys). (a, s ∷ ys)) (allot size (behind p s) rest)

-- `g` holds the list `ys` from `p` on and is `h` below `p` and in its other globals.
pub record Holds {P : Type 0} (h : Heap P) (previous p : ℕ) (ys : List Seg) (g : Heap P)
    : Type 0 where
  pub cons : IsCons ys
  pub chain : Chain g.hdrs previous p ys
  pub last : g.last_hdr ≡ last_of p ys
  pub below : (a : ℕ) → a < p → g.hdrs a ≡ h.hdrs a
  pub start_same : g.heap_start ≡ h.heap_start
  pub end_same : g.heap_end ≡ h.heap_end
  pub pages_same : g.pages ≡ h.pages

-- The walk does what `allot` says.
abbrev pub Walked :
    {P : Type 0} → Heap P → (previous p : ℕ) → Option (ℕ × List Seg) → Walk P → Type 0
Walked h previous p none exhausted = Unit
Walked h previous p (some (a, ys)) (found b g) = (b ≡ a) × Holds h previous p ys g
Walked h previous p _ _ = ⊥

next_of-IsCons : (p : ℕ) (s : Seg) (ys : List Seg) → IsCons ys → next_of p s ys ≡ behind p s
next_of-IsCons p s [] c = absurd c
next_of-IsCons p s (t ∷ ys) c = refl

last_of-IsCons :
    (p : ℕ) (s : Seg) (ys : List Seg) → IsCons ys → last_of p (s ∷ ys) ≡ last_of (behind p s) ys
last_of-IsCons p s [] c = absurd c
last_of-IsCons p s (t ∷ ys) c = refl

module _ {P : Type 0} (h : Heap P) (size : ℕ) (small : size + header_size < 2 ^ 64) where
  last_of-cut :
      (p : ℕ) (s : Seg) (rest : List Seg)
      → size + header_size < s.size
      → h.last_hdr ≡ last_of p (s ∷ rest)
      → (if p == h.last_hdr then p + header_size + size else h.last_hdr)
        ≡ last_of p (cut size s rest)
  last_of-cut p s [] f e = ground arith
  last_of-cut p s (t ∷ r) f e =
      rw (behind_rest p size s f) (ground (arith, le-last_of (behind p s) (t ∷ r)))

  -- The segment fits.
  take_segment-Holds :
      (previous p : ℕ) (s : Seg) (rest : List Seg)
      → size + header_size < s.size
      → 0 < p
      → end_of p (s ∷ rest) < 2 ^ 64
      → Chain h.hdrs previous p (s ∷ rest)
      → h.last_hdr ≡ last_of p (s ∷ rest)
      → Holds h previous p (cut size s rest) (take_segment h p size)
  take_segment-Holds previous p s rest f start bound c e =
      let g = take_segment-globals h p previous size s rest f start bound c in
      record {
        cons = tt;
        chain = take_segment-Chain h p previous size s f start rest bound c;
        last =
            take_segment-last h p previous size s rest f start bound c ∙ last_of-cut p s rest f e;
        below = λ a lt. take_segment-other h p previous size s rest f start bound c a (inl lt);
        start_same = g.0;
        end_same = g.1;
        pages_same = g.2;
      }

  -- What holds from the next segment on holds from this one on.
  Holds-cons :
      (previous p : ℕ) (s : Seg) (t : Seg) (r ys : List Seg) (g : Heap P)
      → Chain h.hdrs previous p (s ∷ t ∷ r)
      → Holds h p (behind p s) ys g
      → Holds h previous p (s ∷ ys) g
  Holds-cons previous p s t r ys g c k = record {
    cons = tt;
    chain = (
      k.below p (omega arith)
          ∙ c.0
          ∙ ap (λ n. header previous n s.size s.unused) (sym (next_of-IsCons p s ys k.cons)),
      k.chain,
    );
    last = k.last ∙ sym (last_of-IsCons p s ys k.cons);
    below = λ a lt. k.below a (omega arith);
    start_same = k.start_same;
    end_same = k.end_same;
    pages_same = k.pages_same;
  }

  Walked-cons :
      (previous p : ℕ) (s : Seg) (t : Seg) (r : List Seg) (o : Option (ℕ × List Seg)) (w : Walk P)
      → Chain h.hdrs previous p (s ∷ t ∷ r)
      → Walked h p (behind p s) o w
      → Walked h previous p (Option.map (λ (a, ys). (a, s ∷ ys)) o) w
  Walked-cons previous p s t r none exhausted c k = tt
  Walked-cons previous p s t r none (found b g) c k = absurd k
  Walked-cons previous p s t r none out_of_rounds c k = absurd k
  Walked-cons previous p s t r (some (a, ys)) exhausted c k = absurd k
  Walked-cons previous p s t r (some (a, ys)) out_of_rounds c k = absurd k
  Walked-cons previous p s t r (some (a, ys)) (found b g) c (e, k) =
      (e, Holds-cons previous p s t r ys g c k)

  -- With more rounds than segments the walk finds what `allot` finds.
  pub kmalloc_walk-Walked :
      (xs : List Seg) (s : Seg) (rounds previous p : ℕ)
      → length xs < rounds
      → 0 < p
      → end_of p (s ∷ xs) < 2 ^ 64
      → Chain h.hdrs previous p (s ∷ xs)
      → h.last_hdr ≡ last_of p (s ∷ xs)
      → Walked h previous p (allot size p (s ∷ xs)) (kmalloc_walk rounds h p size)
  unfolding kmalloc_walk allot
  kmalloc_walk-Walked xs s zero previous p fuel start bound c e = absurd (omega arith)
  kmalloc_walk-Walked [] s (suc rounds) previous p fuel start bound c e =
      let small' : add64 size header_size ≡ size + header_size = omega arith in
      rw (c.0, small')
        (elim (Bool-cases (fits size s)) [
          | inl yes_fits ↦
              rw yes_fits (refl, take_segment-Holds previous p s [] (ground arith) start bound c e)
          | inr no_fit ↦ rw no_fit tt
        ])
  kmalloc_walk-Walked (t ∷ r) s (suc rounds) previous p fuel start bound c e =
      let small' : add64 size header_size ≡ size + header_size = omega arith in
      let onward : (behind p s == 0) ≡ false = ground arith in
      rw (c.0, small')
        (elim (Bool-cases (fits size s)) [
          | inl yes_fits ↦
              rw yes_fits
                (refl, take_segment-Holds previous p s (t ∷ r) (ground arith) start bound c e)
          | inr no_fit ↦
              rw (no_fit, onward)
                (Walked-cons previous p s t r _ _ c (
                  kmalloc_walk-Walked r t rounds p (behind p s) (omega arith) (omega arith) bound
                    c.1 e))
        ])
