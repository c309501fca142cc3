-- ===== src/Heap/Around.antt =====
-- Lists of segments round the one that `free` of kernel/src/memory.c gives back.
use efi_os.Prelude.{
  ℕ, ◌+◌, ◌≡◌, ◌⊎◌, inl, inr, refl, ap, Bool, true, false, List, [], ◌∷◌, ◌++◌, arith, length,
}
use efi_os.Heap.{header_size}
use efi_os.Heap.Chain.{Seg, seg, behind, next_of, end_of, last_of, LastIsFree, blocks}
use efi_os.Heap.Zipper.{unwind, pos}
use efi_os.Heap.Merge.{Coalesced, HeadIsUsed}

-- The list of segments round the one that is freed.
pub unwind-append : (xs ls zs : List Seg) → unwind (unwind xs ls) zs ≡ unwind ls (xs ++ zs)
unwind-append [] ls zs = refl
unwind-append (x ∷ xs) ls zs = unwind-append xs (x ∷ ls) zs

pub pos-unwind :
    (start : ℕ) (xs ls : List Seg) → pos start (unwind xs ls) ≡ end_of (pos start ls) xs
pos-unwind start [] ls = refl
pos-unwind start (x ∷ xs) ls = pos-unwind start xs (x ∷ ls)

pub length-unwind : (xs ls : List Seg) → length (unwind xs ls) ≡ length xs + length ls
length-unwind [] ls = omega arith
length-unwind (x ∷ xs) ls = omega (arith, length-unwind xs (x ∷ ls))

pub blocks-append :
    (p : ℕ) (xs zs : List Seg) → blocks p (xs ++ zs) ≡ blocks p xs ++ blocks (end_of p xs) zs
blocks-append p [] zs = refl
blocks-append p (x ∷ xs) zs =
    elim x.unused
      as (λ v.
        blocks p (seg x.size v ∷ (xs ++ zs))
        ≡ blocks p (seg x.size v ∷ xs) ++ blocks (end_of (behind p x) xs) zs) [
          | true ↦ blocks-append (behind p x) xs zs
          | false ↦ ap (λ bs. (p + header_size, x.size) ∷ bs) (blocks-append (behind p x) xs zs)
        ]

-- The last segment's freedom does not depend on what stands before it.
pub LastIsFree-tail :
    (xs : List Seg) (s : Seg) (r : List Seg) → LastIsFree (xs ++ s ∷ r) → LastIsFree (s ∷ r)
LastIsFree-tail [] s r f = f
LastIsFree-tail (x ∷ []) s r f = f
LastIsFree-tail (x ∷ y ∷ xs) s r f = LastIsFree-tail (y ∷ xs) s r f

-- Neighbours across a place.
abbrev Meet : List Seg → List Seg → Type 0
Meet [] zs = Unit
Meet (l ∷ ls) [] = Unit
Meet (l ∷ ls) (z ∷ zs) = (l.unused ≡ false) ⊎ (z.unused ≡ false)

pub Coalesced-cons :
    (l : Seg) (ls zs : List Seg) → Meet (l ∷ ls) zs → Coalesced zs → Coalesced (l ∷ zs)
Coalesced-cons l ls [] m c = tt
Coalesced-cons l ls (z ∷ zs) m c = (m, c)

-- A list without free neighbours, taken apart at a place, and put together.
pub Coalesced-unwind :
    (ls zs : List Seg) → Coalesced ls → Coalesced zs → Meet ls zs → Coalesced (unwind ls zs)
Coalesced-unwind [] zs a c m = c
Coalesced-unwind (l ∷ []) zs a c m = Coalesced-cons l [] zs m c
Coalesced-unwind (l ∷ k ∷ ls) zs a c m =
    Coalesced-unwind (k ∷ ls) (l ∷ zs) a.1 (Coalesced-cons l (k ∷ ls) zs m c) (swap a.0)
  where
    swap : (l.unused ≡ false) ⊎ (k.unused ≡ false) → (k.unused ≡ false) ⊎ (l.unused ≡ false)
    swap (inl x) = inr x
    swap (inr x) = inl x

pub Coalesced-left :
    (xs ls : List Seg) (s : Seg) (r : List Seg)
    → Coalesced ls
    → Meet ls (xs ++ s ∷ r)
    → Coalesced (xs ++ s ∷ r)
    → Coalesced (unwind xs ls) × Coalesced r
Coalesced-left [] ls s [] a m c = (a, tt)
Coalesced-left [] ls s (t ∷ r) a m c = (a, c.1)
Coalesced-left (x ∷ []) [] s r a m c = Coalesced-left [] (x ∷ []) s r tt c.0 c.1
Coalesced-left (x ∷ []) (l ∷ ls) s r a m c = Coalesced-left [] (x ∷ l ∷ ls) s r (flip m, a) c.0 c.1
  where
    flip : (l.unused ≡ false) ⊎ (x.unused ≡ false) → (x.unused ≡ false) ⊎ (l.unused ≡ false)
    flip (inl e) = inr e
    flip (inr e) = inl e
Coalesced-left (x ∷ y ∷ xs) [] s r a m c = Coalesced-left (y ∷ xs) (x ∷ []) s r tt c.0 c.1
Coalesced-left (x ∷ y ∷ xs) (l ∷ ls) s r a m c =
    Coalesced-left (y ∷ xs) (x ∷ l ∷ ls) s r (flip m, a) c.0 c.1
  where
    flip : (l.unused ≡ false) ⊎ (x.unused ≡ false) → (x.unused ≡ false) ⊎ (l.unused ≡ false)
    flip (inl e) = inr e
    flip (inr e) = inl e

pub last_of-size :
    (p : ℕ) (s : Seg) (b : Bool) (r : List Seg) → last_of p (s ∷ r) ≡ last_of p (seg s.size b ∷ r)
last_of-size p s b [] = refl
last_of-size p s b (t ∷ r) = refl

pub LastIsFree-size :
    (s : Seg) (r : List Seg) → LastIsFree (s ∷ r) → LastIsFree (seg s.size true ∷ r)
LastIsFree-size s [] f = refl
LastIsFree-size s (t ∷ r) f = f

pub next_of-size :
    (p : ℕ) (s : Seg) (b : Bool) (r : List Seg) → next_of p s r ≡ next_of p (seg s.size b) r
next_of-size p s b [] = refl
next_of-size p s b (t ∷ r) = refl

pub LastIsFree-head :
    (s t : Seg) (r : List Seg) → t.unused ≡ true → LastIsFree (s ∷ r) → LastIsFree (t ∷ r)
LastIsFree-head s t [] u f = u
LastIsFree-head s t (x ∷ r) u f = f

pub blocks-free :
    (p : ℕ) (s : Seg) (r : List Seg) → s.unused ≡ true → blocks p (s ∷ r) ≡ blocks (behind p s) r
blocks-free p s r u = ap (λ v. blocks p (seg s.size v ∷ r)) {x = s.unused} {y = true} u

pub Meet-used : (s : Seg) (r : List Seg) → HeadIsUsed r → Meet (s ∷ []) r
Meet-used s [] u = tt
Meet-used s (t ∷ r) u = inr u

pub used-Meet : (ls : List Seg) (s : Seg) (r : List Seg) → HeadIsUsed ls → Meet ls (s ∷ r)
used-Meet [] s r u = tt
used-Meet (l ∷ ls) s r u = inl u
