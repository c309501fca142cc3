-- ===== src/Heap/Merge.antt =====
-- What the two loops of `free` (kernel/src/memory.c) make of the list of segments.
use efi_os.Prelude.{
  ℕ, ◌+◌, ◌≤◌, ◌≡◌, ◌⊎◌, refl, sym, ap, ◌∙◌, true, false, List, [], ◌∷◌, arith, if◌then◌else◌,
  length,
}
use efi_os.Heap.{header_size}
use efi_os.Heap.Chain.{Seg, seg, behind, end_of, LastIsFree, blocks}
use efi_os.Heap.Join.{joined, behind-joined}
use efi_os.Heap.Zipper.{unwind, pos}

-- No two free segments are neighbours.
abbrev pub Coalesced : List Seg → Type 0
Coalesced [] = Unit
Coalesced (s ∷ []) = Unit
Coalesced (s ∷ t ∷ r) = ((s.unused ≡ false) ⊎ (t.unused ≡ false)) × Coalesced (t ∷ r)

-- The first segment, if there is one, is in use.
abbrev pub HeadIsUsed : List Seg → Type 0
HeadIsUsed [] = Unit
HeadIsUsed (s ∷ r) = s.unused ≡ false

-- What the first loop leaves of the free segment `s` and of `r` behind it.
abbrev pub follow : Seg → List Seg → Seg × List Seg
follow s [] = (s, [])
follow s (t ∷ r) = if t.unused then follow (joined s t) r else (s, t ∷ r)

-- The facts about it that matter.
pub record Followed (p : ℕ) (s : Seg) (r : List Seg) (o : Seg × List Seg) : Type 0 where
  pub free : o.0.unused ≡ true
  pub ends : end_of p (o.0 ∷ o.1) ≡ end_of p (s ∷ r)
  pub same_blocks : blocks (behind p o.0) o.1 ≡ blocks (behind p s) r
  pub last_free : LastIsFree (s ∷ r) → LastIsFree (o.0 ∷ o.1)
  pub used_next : HeadIsUsed o.1
  pub coalesced : Coalesced r → Coalesced o.1
  pub shorter : length o.1 ≤ length r

pub Coalesced-tail : (t : Seg) (r : List Seg) → Coalesced (t ∷ r) → Coalesced r
Coalesced-tail t [] c = tt
Coalesced-tail t (u ∷ r) c = c.1

LastIsFree-joined :
    (s t : Seg) (r : List Seg)
    → s.unused ≡ true
    → LastIsFree (s ∷ t ∷ r)
    → LastIsFree (joined s t ∷ r)
LastIsFree-joined s t [] u f = u
LastIsFree-joined s t (v ∷ r) u f = f

pub follow-Followed :
    (p : ℕ) (r : List Seg) (s : Seg) → s.unused ≡ true → Followed p s r (follow s r)
follow-Followed p [] s u = record {
  free = u;
  ends = refl;
  same_blocks = refl;
  last_free = λ f. f;
  used_next = tt;
  coalesced = λ c. c;
  shorter = omega arith;
}
follow-Followed p (t ∷ r) s u =
    elim t.unused as (λ v. Followed p s (seg t.size v ∷ r) (follow s (seg t.size v ∷ r))) [
      | true ↦
          let k : Followed p (joined s t) r (follow (joined s t) r) =
            follow-Followed p r (joined s t) u in
          record {
            free = k.free;
            ends = k.ends ∙ ap (λ q. end_of q r) (behind-joined p s t);
            same_blocks = k.same_blocks ∙ ap (λ q. blocks q r) (behind-joined p s t);
            last_free = λ f. k.last_free (LastIsFree-joined s (seg t.size true) r u f);
            used_next = k.used_next;
            coalesced = λ c. k.coalesced (Coalesced-tail (seg t.size true) r c);
            shorter = omega (arith, k.shorter);
          }
      | false ↦ record {
        free = u;
        ends = refl;
        same_blocks = refl;
        last_free = λ f. f;
        used_next = refl;
        coalesced = λ c. c;
        shorter = omega arith;
      }
    ]

-- What the second loop leaves of the segments before the free segment `s`, and of `s`.
abbrev pub retreat : List Seg → Seg → List Seg × Seg
retreat [] s = ([], s)
retreat (l ∷ ls) s = if l.unused then retreat ls (joined l s) else (l ∷ ls, s)

pub record Retreated (start : ℕ) (ls : List Seg) (s : Seg) (r : List Seg) (o : List Seg × Seg)
    : Type 0 where
  pub free : o.1.unused ≡ true
  pub ends : end_of (pos start o.0) (o.1 ∷ r) ≡ end_of (pos start ls) (s ∷ r)
  pub same_blocks : blocks start (unwind o.0 (o.1 ∷ r)) ≡ blocks start (unwind ls (s ∷ r))
  pub used_before : HeadIsUsed o.0
  pub coalesced : Coalesced ls → Coalesced o.0

-- Lists that agree in their blocks from a place on agree in their blocks.
pub blocks-unwind :
    (start : ℕ) (ls zs ws : List Seg)
    → blocks (pos start ls) zs ≡ blocks (pos start ls) ws
    → blocks start (unwind ls zs) ≡ blocks start (unwind ls ws)
blocks-unwind start [] zs ws e = e
blocks-unwind start (l ∷ ls) zs ws e =
    blocks-unwind start ls (l ∷ zs) (l ∷ ws)
      (elim l.unused
        as (λ v.
          blocks (pos start ls) (seg l.size v ∷ zs) ≡ blocks (pos start ls) (seg l.size v ∷ ws)) [
            | true ↦ e
            | false ↦ ap (λ bs. (pos start ls + header_size, l.size) ∷ bs) e
          ])

pub retreat-Retreated :
    (start : ℕ) (ls : List Seg) (s : Seg) (r : List Seg)
    → s.unused ≡ true
    → Retreated start ls s r (retreat ls s)
retreat-Retreated start [] s r u = record {
  free = u;
  ends = refl;
  same_blocks = refl;
  used_before = tt;
  coalesced = λ c. c;
}
retreat-Retreated start (l ∷ ls) s r u =
    elim l.unused
      as (λ v. Retreated start (seg l.size v ∷ ls) s r (retreat (seg l.size v ∷ ls) s)) [
        | true ↦
            let k = retreat-Retreated start ls (joined (seg l.size true) s) r refl in
            record {
              free = k.free;
              ends = k.ends ∙ ap (λ q. end_of q r) (behind-joined (pos start ls) l s);
              same_blocks =
                  k.same_blocks
                  ∙ blocks-unwind start ls (joined (seg l.size true) s ∷ r)
                      (seg l.size true ∷ s ∷ r)
                      (ap (λ q. blocks q r) (behind-joined (pos start ls) l s)
                        ∙ ap (λ v. blocks (behind (pos start ls) l) (seg s.size v ∷ r)) {x = true}
                            {y = s.unused} (sym u));
              used_before = k.used_before;
              coalesced = λ c. k.coalesced (Coalesced-tail (seg l.size true) ls c);
            }
        | false ↦ record {
          free = u;
          ends = refl;
          same_blocks = refl;
          used_before = refl;
          coalesced = λ c. c;
        }
      ]
