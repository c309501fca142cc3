-- ===== src/Heap/Allot.antt =====
-- What the first-fit search of `kmalloc` (kernel/src/memory.c) gives: a block apart from all others.
use mathlib.Core.Option
use efi_os.Prelude.{
  ℕ, ◌+◌, ◌≤◌, ◌<◌, ◌≡◌, refl, sym, ap, ◌∙◌, ◌⊎◌, inl, inr, true, false, Option, none, some, List,
  [], ◌∷◌, ◌++◌, append_assoc, arith, Bool-cases,
}
use efi_os.Heap.{header_size}
use efi_os.Heap.Chain.{Seg, seg, behind, end_of, le-end_of, IsCons, LastIsFree, blocks, All}
use efi_os.Heap.Malloc.{fits, allot}
use efi_os.Heap.Split.{cut, behind_rest}

-- Two blocks share no byte.
abbrev pub Apart : ℕ × ℕ → ℕ × ℕ → Type 0
Apart b c = (b.0 + b.1 ≤ c.0) ⊎ (c.0 + c.1 ≤ b.0)

-- The block `(a, size)` is new among the blocks of `xs`, and `ys` is the list with it.
pub record Allotted (size p : ℕ) (xs : List Seg) (r : ℕ × List Seg) : Type 0 where
  pub cons : IsCons r.1
  pub source : IsCons xs
  pub ends : end_of p r.1 ≡ end_of p xs
  pub last_free : LastIsFree xs → LastIsFree r.1
  pub before : List (ℕ × ℕ)
  pub after : List (ℕ × ℕ)
  pub old_blocks : blocks p xs ≡ before ++ after
  pub new_blocks : blocks p r.1 ≡ before ++ (r.0, size) ∷ after
  pub apart : All (Apart (r.0, size)) (blocks p xs)
  pub above : p + header_size ≤ r.0
  pub inside : r.0 + size ≤ end_of p xs

abbrev pub IfSome : {A : Type 0} → (A → Type 0) → Option A → Type 0
IfSome Q none = Unit
IfSome Q (some r) = Q r

All-mono :
    {Q R : ℕ × ℕ → Type 0} (bs : List (ℕ × ℕ)) → ((b : ℕ × ℕ) → Q b → R b) → All Q bs → All R bs
All-mono [] f h = tt
All-mono (b ∷ bs) f (h, hs) = (f b h, All-mono bs f hs)

-- Every block starts behind the first header.
blocks_above : (p : ℕ) (xs : List Seg) → All (λ b. p + header_size ≤ b.0) (blocks p xs)
blocks_above p [] = tt
blocks_above p (s ∷ xs) =
    let later : All (λ b. p + header_size ≤ b.0) (blocks (behind p s) xs) =
      All-mono (blocks (behind p s) xs) (λ b h. omega arith) (blocks_above (behind p s) xs) in
    elim s.unused as (λ u. All (λ b. p + header_size ≤ b.0) (blocks p (seg s.size u ∷ xs))) [
      | true ↦ later
      | false ↦ (omega arith, later)
    ]

LastIsFree-cut :
    (size : ℕ) (s : Seg) (rest : List Seg) → LastIsFree (s ∷ rest) → LastIsFree (cut size s rest)
LastIsFree-cut size s [] h = refl
LastIsFree-cut size s (t ∷ r) h = h

Allotted-cut :
    (size p : ℕ) (s : Seg) (rest : List Seg)
    → s.unused ≡ true
    → size + header_size < s.size
    → Allotted size p (s ∷ rest) (p + header_size, cut size s rest)
Allotted-cut size p s rest free f = record {
  cons = tt;
  source = tt;
  ends = ap (λ q. end_of q rest) (behind_rest p size s f);
  last_free = LastIsFree-cut size s rest;
  before = [];
  after = blocks (behind p s) rest;
  old_blocks = rw free refl;
  new_blocks = ap (λ q. (p + header_size, size) ∷ blocks q rest) (behind_rest p size s f);
  apart = rw free (
      All-mono (blocks (behind p s) rest) (λ b h. inl (omega arith))
        (blocks_above (behind p s) rest));
  above = omega arith;
  inside = omega (arith, le-end_of (behind p s) rest);
}

LastIsFree-cons :
    (s : Seg) (xs ys : List Seg)
    → IsCons xs
    → IsCons ys
    → (LastIsFree xs → LastIsFree ys)
    → LastIsFree (s ∷ xs)
    → LastIsFree (s ∷ ys)
LastIsFree-cons s [] ys c d f h = absurd c
LastIsFree-cons s (x ∷ xs) [] c d f h = absurd d
LastIsFree-cons s (x ∷ xs) (y ∷ ys) c d f h = f h

-- The block of a segment in use.
abbrev own : ℕ → Seg → List (ℕ × ℕ)
own p s = elim s.unused [ true ↦ [] | false ↦ (p + header_size, s.size) ∷ [] ]

blocks-cons :
    (p : ℕ) (s : Seg) (xs : List Seg) → blocks p (s ∷ xs) ≡ own p s ++ blocks (behind p s) xs
blocks-cons p s xs =
    elim s.unused
      as (λ u. blocks p (seg s.size u ∷ xs) ≡ own p (seg s.size u) ++ blocks (behind p s) xs) [
        | true ↦ refl
        | false ↦ refl
      ]

All-append : (Q : ℕ × ℕ → Type 0) (cs bs : List (ℕ × ℕ)) → All Q cs → All Q bs → All Q (cs ++ bs)
All-append Q [] bs h k = k
All-append Q (c ∷ cs) bs (h, hs) k = (h, All-append Q cs bs hs k)

Allotted-cons :
    (size p : ℕ) (s : Seg) (xs : List Seg) (o : Option (ℕ × List Seg))
    → IfSome (Allotted size (behind p s) xs) o
    → IfSome (Allotted size p (s ∷ xs)) (Option.map (λ (a, ys). (a, s ∷ ys)) o)
Allotted-cons size p s xs none h = tt
Allotted-cons size p s xs (some (a, ys)) h = record {
  cons = tt;
  source = tt;
  ends = h.ends;
  last_free = LastIsFree-cons s xs ys h.source h.cons h.last_free;
  before = own p s ++ h.before;
  after = h.after;
  old_blocks =
      blocks-cons p s xs
      ∙ ap (λ bs. own p s ++ bs) h.old_blocks
      ∙ sym (append_assoc (own p s) h.before h.after);
  new_blocks =
      blocks-cons p s ys
      ∙ ap (λ bs. own p s ++ bs) h.new_blocks
      ∙ sym (append_assoc (own p s) h.before ((a, size) ∷ h.after));
  apart =
      rw (blocks-cons p s xs)
        (All-append (Apart (a, size)) (own p s) (blocks (behind p s) xs) own_apart h.apart);
  above = omega (arith, h.above);
  inside = h.inside;
}
  where
    own_apart : All (Apart (a, size)) (own p s)
    own_apart = elim s.unused as (λ u. All (Apart (a, size)) (own p (seg s.size u))) [
      | true ↦ tt
      | false ↦ (inr (omega (arith, h.above)), tt)
    ]

-- The search keeps the extent of the heap and its free last segment, and adds one block, inside the
-- heap and apart from every block in use.
pub allot-Allotted : (size p : ℕ) (xs : List Seg) → IfSome (Allotted size p xs) (allot size p xs)
unfolding allot
allot-Allotted size p [] = tt
allot-Allotted size p (s ∷ xs) = elim (Bool-cases (fits size s)) [
  | inl yes_fits ↦ rw yes_fits (Allotted-cut size p s xs (ground arith) (ground arith))
  | inr no_fit ↦ rw no_fit (Allotted-cons size p s xs _ (allot-Allotted size (behind p s) xs))
]
