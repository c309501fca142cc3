-- ===== src/Heap/Free.antt =====
-- The two loops of `free`, kernel/src/memory.c.
use efi_os.Prelude.{
  ℕ, zero, suc, ◌<◌, ◌^◌, ◌≡◌, refl, sym, ap, ◌∙◌, true, false, Option, none, some, List, [], ◌∷◌,
  arith, if◌then◌else◌, length,
}
use efi_os.Heap.{Heap, join_heap_next_segment, join_following, join_preceding}
use efi_os.Heap.Chain.{Seg, behind, Chain, end_of, last_of}
use efi_os.Heap.Malloc.{Holds}
use efi_os.Heap.Join.{joined, behind-joined, join-Holds, not_null}
use efi_os.Heap.Zipper.{unwind, pos, before, Left, start-le-pos, Left-frame, last_of-unwind, rewind}
use efi_os.Heap.Merge.{follow, retreat}

-- `g` holds `ys` from `p` on where `h` held `xs`, as the outcome of a loop.
abbrev pub Returned : {P : Type 0} → Heap P → (previous p : ℕ) → List Seg → Option (Heap P) → Type 0
Returned h previous p ys none = ⊥
Returned h previous p ys (some g) = Holds h previous p ys g

module _ {P : Type 0} where
  Holds-trans :
      (h g : Heap P) (previous p : ℕ) (ys : List Seg) (zs : List Seg) (k : Heap P)
      → Holds h previous p ys g
      → Holds g previous p zs k
      → Holds h previous p zs k
  Holds-trans h g previous p ys zs k a b = record {
    cons = b.cons;
    chain = b.chain;
    last = b.last;
    below = λ x lt. b.below x lt ∙ a.below x lt;
    start_same = b.start_same ∙ a.start_same;
    end_same = b.end_same ∙ a.end_same;
    pages_same = b.pages_same ∙ a.pages_same;
  }

  Returned-trans :
      (h g : Heap P) (previous p : ℕ) (ys zs : List Seg) (o : Option (Heap P))
      → Holds h previous p ys g
      → Returned g previous p zs o
      → Returned h previous p zs o
  Returned-trans h g previous p ys zs none a b = b
  Returned-trans h g previous p ys zs (some k) a b = Holds-trans h g previous p ys zs k a b

  Holds-refl :
      (h : Heap P) (previous p : ℕ) (s : Seg) (r : List Seg)
      → Chain h.hdrs previous p (s ∷ r)
      → h.last_hdr ≡ last_of p (s ∷ r)
      → Holds h previous p (s ∷ r) h
  Holds-refl h previous p s r c e = record {
    cons = tt;
    chain = c;
    last = e;
    below = λ a lt. refl;
    start_same = refl;
    end_same = refl;
    pages_same = refl;
  }

  -- The first loop joins the free segments that follow.
  pub join_following-Returned :
      (r : List Seg) (h : Heap P) (rounds previous p : ℕ) (s : Seg)
      → length r < rounds
      → 0 < p
      → end_of p (s ∷ r) < 2 ^ 64
      → Chain h.hdrs previous p (s ∷ r)
      → h.last_hdr ≡ last_of p (s ∷ r)
      → Returned h previous p ((follow s r).0 ∷ (follow s r).1) (join_following rounds h p)
  unfolding join_following
  join_following-Returned r h zero previous p s fuel start bound c e = absurd (omega arith)
  join_following-Returned [] h (suc rounds) previous p s fuel start bound c e =
      rw c.0 (Holds-refl h previous p s [] c e)
  join_following-Returned (t ∷ r) h (suc rounds) previous p s fuel start bound c e =
      let step = join-Holds h r p previous s t start bound c e in
      let again =
        join_following-Returned r (join_heap_next_segment h p) rounds previous p (joined s t)
          (omega arith) start (omega (arith, ap (λ q. end_of q r) (behind-joined p s t))) step.chain
          step.last in
      rw (c.0, not_null (behind p s) (omega arith), c.1.0)
        (elim t.unused
          as (λ v.
            Returned h previous p
              ((if v then follow (joined s t) r else (s, t ∷ r)).0
                ∷ (if v then follow (joined s t) r else (s, t ∷ r)).1)
              (if v then join_following rounds (join_heap_next_segment h p) p else some h)) [
                | true ↦
                    Returned-trans h (join_heap_next_segment h p) previous p (joined s t ∷ r)
                      ((follow (joined s t) r).0 ∷ (follow (joined s t) r).1)
                      (join_following rounds (join_heap_next_segment h p) p) step again
                | false ↦ Holds-refl h previous p s (t ∷ r) c e
              ])

-- `g` holds the whole list with the place `ls` before `s ∷ r`.
pub record Rewound {P : Type 0} (start : ℕ) (h : Heap P) (ls : List Seg) (s : Seg) (r : List Seg)
    (g : Heap P) : Type 0 where
  pub chain : Chain g.hdrs 0 start (unwind ls (s ∷ r))
  pub last : g.last_hdr ≡ last_of start (unwind ls (s ∷ r))
  pub start_same : g.heap_start ≡ h.heap_start
  pub end_same : g.heap_end ≡ h.heap_end

abbrev pub ReturnedRewound :
    {P : Type 0} → ℕ → Heap P → List Seg × Seg → List Seg → Option (Heap P) → Type 0
ReturnedRewound start h o r none = ⊥
ReturnedRewound start h o r (some g) = Rewound start h o.0 o.1 r g

module _ {P : Type 0} (start : ℕ) (start_pos : 0 < start) where
  Rewound-here :
      (h : Heap P) (ls : List Seg) (s : Seg) (r : List Seg)
      → Left start h.hdrs ls
      → Chain h.hdrs (before start ls) (pos start ls) (s ∷ r)
      → h.last_hdr ≡ last_of (pos start ls) (s ∷ r)
      → Rewound start h ls s r h
  Rewound-here h ls s r left c e = record {
    chain = rewind start h.hdrs ls (s ∷ r) tt left c;
    last = e ∙ sym (last_of-unwind start ls (s ∷ r) tt);
    start_same = refl;
    end_same = refl;
  }

  Rewound-trans :
      (h g : Heap P) (o : List Seg × Seg) (r : List Seg) (k : Option (Heap P))
      → g.heap_start ≡ h.heap_start
      → g.heap_end ≡ h.heap_end
      → ReturnedRewound start g o r k
      → ReturnedRewound start h o r k
  Rewound-trans h g o r none a b w = w
  Rewound-trans h g o r (some k) a b w = record {
    chain = w.chain;
    last = w.last;
    start_same = w.start_same ∙ a;
    end_same = w.end_same ∙ b;
  }

  -- The second loop joins the free segments that come before.
  pub join_preceding-Rewound :
      (ls : List Seg) (h : Heap P) (rounds : ℕ) (s : Seg) (r : List Seg)
      → length ls < rounds
      → end_of (pos start ls) (s ∷ r) < 2 ^ 64
      → Left start h.hdrs ls
      → Chain h.hdrs (before start ls) (pos start ls) (s ∷ r)
      → h.last_hdr ≡ last_of (pos start ls) (s ∷ r)
      → ReturnedRewound start h (retreat ls s) r (join_preceding rounds h (pos start ls))
  unfolding join_preceding
  join_preceding-Rewound ls h zero s r fuel bound left c e = absurd (omega arith)
  join_preceding-Rewound [] h (suc rounds) s r fuel bound left c e =
      rw c.0 (Rewound-here h [] s r left c e)
  join_preceding-Rewound (l ∷ ls) h (suc rounds) s r fuel bound left c e =
      let p = pos start ls in
      let p_pos : 0 < p = omega (arith, start-le-pos start ls) in
      let step = join-Holds h r p (before start ls) l s p_pos bound (left.0, c) e in
      let g = join_heap_next_segment h p in
      let again =
        join_preceding-Rewound ls g rounds (joined l s) r (omega arith)
          (omega (arith, ap (λ q. end_of q r) (behind-joined p l s)))
          (Left-frame start h.hdrs g.hdrs ls step.below left.1) step.chain step.last in
      rw (c.0, not_null p p_pos, left.0)
        (elim l.unused
          as (λ v.
            ReturnedRewound start h (if v then retreat ls (joined l s) else (l ∷ ls, s)) r
              (if v then join_preceding rounds g p else some h)) [
                | true ↦
                    Rewound-trans h g (retreat ls (joined l s)) r (join_preceding rounds g p)
                      step.start_same step.end_same again
                | false ↦ Rewound-here h (l ∷ ls) s r left c e
              ])
