-- ===== src/Heap/Release.antt =====
-- `free` of kernel/src/memory.c gives a block back, and joins what is free round it.
use efi_os.Prelude.{
  ℕ, ◌+◌, ◌-◌, ◌<◌, ◌≡◌, refl, sym, ap, ◌∙◌, true, false, Option, none, some, List, [], ◌∷◌, ◌++◌,
  arith, length, length-append,
}
use efi_os.Heap.{Heap, Header, header_size, set_free, join_following, join_preceding, free}
use efi_os.Heap.Chain.{
  Seg, seg, header, behind, Chain, end_of, last_of, Chain-frame, put_self, put_other, IsHeap,
  LastIsFree, blocks,
}
use efi_os.Heap.Malloc.{Holds}
use efi_os.Heap.Zipper.{
  unwind, pos, before, Left, start-le-pos, Left-frame, end_of-unwind, last_of-unwind, advance,
  IsCons-unwind, LastIsFree-unwind,
}
use efi_os.Heap.Merge.{
  Coalesced, follow, Followed, follow-Followed, retreat, Retreated, retreat-Retreated,
  blocks-unwind,
}
use efi_os.Heap.Free.{
  join_following-Returned, join_preceding-Rewound, Rewound, Returned, ReturnedRewound,
}
use efi_os.Heap.Around.{
  unwind-append, pos-unwind, length-unwind, blocks-append, LastIsFree-tail, Coalesced-cons,
  Coalesced-unwind, Coalesced-left, last_of-size, LastIsFree-size, next_of-size, LastIsFree-head,
  blocks-free, Meet-used, used-Meet,
}

module _ {P : Type 0} (h : Heap P) (xs : List Seg) (s : Seg) (r : List Seg) (rounds : ℕ)
    (v : IsHeap h (xs ++ s ∷ r)) (enough : length (xs ++ s ∷ r) < rounds) where
  abbrev start : ℕ
  start = h.heap_start

  abbrev ls : List Seg
  ls = unwind xs []

  abbrev p : ℕ
  p = pos start ls

  -- The segment marked free, and the heap with it.
  abbrev s1 : Seg
  s1 = seg s.size true

  abbrev h1 : Heap P
  h1 = set_free h p true

  abbrev o : Seg × List Seg
  o = follow s1 r

  abbrev z : List Seg × Seg
  z = retreat ls o.0

  abbrev ys : List Seg
  ys = unwind z.0 (z.1 ∷ o.1)

  whole : unwind ls (s ∷ r) ≡ xs ++ s ∷ r
  whole = unwind-append xs [] (s ∷ r)

  place : Left start h.hdrs ls × Chain h.hdrs (before start ls) p (s ∷ r)
  place = advance start h.hdrs xs [] s r tt v.chain

  p_pos : 0 < p
  p_pos = omega (arith, start-le-pos start ls, v.start)

  ends : end_of p (s ∷ r) ≡ h.heap_end
  ends = sym (end_of-unwind start ls (s ∷ r)) ∙ ap (end_of start) whole ∙ v.ends

  marked : Header
  marked = record (h.hdrs p) { free = true }

  chain1 : Chain h1.hdrs (before start ls) p (s1 ∷ r)
  chain1 = (
    put_self h.hdrs (record (h.hdrs p) { free = true }) p
        ∙ ap (λ (x : Header). record x { free = true }) place.1.0
        ∙ ap (λ a. header (before start ls) a s.size true) (next_of-size p s true r),
    Chain-frame r p (behind p s)
        (λ a le. put_other h.hdrs (record (h.hdrs p) { free = true }) p a (omega arith)) place.1.1,
  )

  left1 : Left start h1.hdrs ls
  left1 =
      Left-frame start h.hdrs h1.hdrs ls
        (λ a lt. put_other h.hdrs (record (h.hdrs p) { free = true }) p a (omega arith)) place.0

  last1 : h1.last_hdr ≡ last_of p (s1 ∷ r)
  last1 =
      v.last
      ∙ ap (last_of start) (sym whole)
      ∙ last_of-unwind start ls (s ∷ r) tt
      ∙ last_of-size p s true r

  followed : Followed p s1 r o
  followed = follow-Followed p r s1 refl

  retreated : Retreated start ls o.0 o.1 z
  retreated = retreat-Retreated start ls o.0 o.1 followed.free

  lengths : (length r < rounds) × (length ls < rounds)
  lengths = omega (arith, length-append {0} xs (s ∷ r), length-unwind xs [])

  first_loop : Returned h1 (before start ls) p (o.0 ∷ o.1) (join_following rounds h1 p)
  first_loop =
      join_following-Returned r h1 rounds (before start ls) p s1 lengths.0 p_pos
        (omega (arith, ends, v.bound)) chain1 last1

  second_loop :
      (g : Heap P)
      → Holds h1 (before start ls) p (o.0 ∷ o.1) g
      → ReturnedRewound start g z o.1 (join_preceding rounds g p)
  second_loop g k =
      join_preceding-Rewound start v.start ls g rounds o.0 o.1 lengths.1
        (omega (arith, followed.ends, ends, v.bound))
        (Left-frame start h1.hdrs g.hdrs ls k.below left1) k.chain k.last

  invert_first :
      (m : Option (Heap P))
      → Returned h1 (before start ls) p (o.0 ∷ o.1) m
      → (g : Heap P) × (m ≡ some g) × Holds h1 (before start ls) p (o.0 ∷ o.1) g
  invert_first none w = absurd w
  invert_first (some g) w = (g, refl, w)

  invert_second :
      (g : Heap P) (m : Option (Heap P))
      → ReturnedRewound start g z o.1 m
      → (k : Heap P) × (m ≡ some k) × Rewound start g z.0 z.1 o.1 k
  invert_second g none w = absurd w
  invert_second g (some k) w = (k, refl, w)

  free-steps :
      (g k : Heap P)
      → join_following rounds h1 p ≡ some g
      → join_preceding rounds g p ≡ some k
      → free rounds h (p + header_size) ≡ some k
  unfolding free
  free-steps g k e1 e2 =
      let cur : p + header_size - header_size ≡ p = omega arith in rw (cur, e1, free) (rw cur e2)

  ys-IsHeap :
      (g k : Heap P)
      → Holds h1 (before start ls) p (o.0 ∷ o.1) g
      → Rewound start g z.0 z.1 o.1 k
      → IsHeap k ys
  ys-IsHeap g k a w =
      let same : k.heap_start ≡ start = w.start_same ∙ a.start_same in
      let last_free1 : LastIsFree (s1 ∷ r) =
        LastIsFree-size s r (LastIsFree-tail xs s r v.last_free) in
      record {
        cons = IsCons-unwind z.0 (z.1 ∷ o.1) tt;
        start = rw same v.start;
        chain = rw same w.chain;
        last = rw same w.last;
        last_free =
            LastIsFree-unwind z.0 (z.1 ∷ o.1) tt
              (LastIsFree-head o.0 z.1 o.1 retreated.free (followed.last_free last_free1));
        ends = rw same (
            end_of-unwind start z.0 (z.1 ∷ o.1)
            ∙ retreated.ends
            ∙ followed.ends
            ∙ ends
            ∙ sym (w.end_same ∙ a.end_same));
        bound = rw (w.end_same ∙ a.end_same) v.bound;
      }

  -- The blocks before the freed one, and those behind it.
  ys-blocks : blocks start ys ≡ blocks start xs ++ blocks (behind p s) r
  ys-blocks =
      retreated.same_blocks
      ∙ blocks-unwind start ls (o.0 ∷ o.1) (s1 ∷ r)
          (blocks-free p o.0 o.1 followed.free ∙ followed.same_blocks)
      ∙ ap (blocks start) (unwind-append xs [] (s1 ∷ r))
      ∙ blocks-append start xs (s1 ∷ r)
      ∙ ap (λ q. blocks start xs ++ blocks (behind q s) r) (sym (pos-unwind start xs []))

  ys-Coalesced : Coalesced (xs ++ s ∷ r) → Coalesced ys
  ys-Coalesced c =
      let sides = Coalesced-left xs [] s r tt tt c in
      Coalesced-unwind z.0 (z.1 ∷ o.1) (retreated.coalesced sides.0)
        (Coalesced-cons z.1 [] o.1 (Meet-used z.1 o.1 followed.used_next)
          (followed.coalesced sides.1))
        (used-Meet z.0 z.1 o.1 retreated.used_before)

-- What `free` makes of the heap, given the segments before and behind the freed one at `p`.
pub record Freed {P : Type 0} (h : Heap P) (xs : List Seg) (s : Seg) (r : List Seg) (g : Heap P)
    (ys : List Seg) : Type 0 where
  pub well_formed : IsHeap g ys
  pub old_blocks :
      blocks h.heap_start (xs ++ s ∷ r)
      ≡ blocks h.heap_start xs
        ++ (end_of h.heap_start xs + header_size, s.size)
          ∷ blocks (behind (end_of h.heap_start xs) s) r
  pub new_blocks :
      blocks h.heap_start ys
      ≡ blocks h.heap_start xs ++ blocks (behind (end_of h.heap_start xs) s) r
  pub coalesced : Coalesced (xs ++ s ∷ r) → Coalesced ys

-- `free` of a block in use of a well formed heap returns, with more rounds than there are segments:
-- the heap is well formed, its blocks are the old ones less the one that was freed, and where no two free segments
-- were neighbours none are.
pub free-Freed :
    {P : Type 0} (h : Heap P) (xs : List Seg) (s : Seg) (r : List Seg) (rounds : ℕ)
    → IsHeap h (xs ++ s ∷ r)
    → length (xs ++ s ∷ r) < rounds
    → s.unused ≡ false
    → (g : Heap P) × (ys : List Seg) × (free rounds h (end_of h.heap_start xs + header_size)
        ≡ some g)
      × Freed h xs s r g ys
free-Freed h xs s r rounds v enough used =
    let at_p = pos-unwind h.heap_start xs [] in
    let a = invert_first h xs s r rounds v enough _ (first_loop h xs s r rounds v enough) in
    let b =
      invert_second h xs s r rounds v enough a.0 _ (second_loop h xs s r rounds v enough a.0 a.2) in
    (
      b.0,
      ys h xs s r rounds v enough,
      ap (λ (q : ℕ). free rounds h (q + header_size)) (sym at_p)
          ∙ free-steps h xs s r rounds v enough a.0 b.0 a.1 b.1,
      record {
        well_formed = ys-IsHeap h xs s r rounds v enough a.0 b.0 a.2 b.2;
        old_blocks =
            blocks-append h.heap_start xs (s ∷ r)
            ∙ ap (λ u. blocks h.heap_start xs ++ blocks (end_of h.heap_start xs) (seg s.size u ∷ r))
                {x = s.unused} {y = false} used;
        new_blocks =
            ys-blocks h xs s r rounds v enough
            ∙ ap (λ q. blocks h.heap_start xs ++ blocks (behind q s) r) at_p;
        coalesced = ys-Coalesced h xs s r rounds v enough;
      },
    )
