-- ===== src/Heap/Kmalloc.antt =====
-- `kmalloc` of kernel/src/memory.c: what it returns, when it returns, and when it never does.
use efi_os.Prelude.{
  ℕ, zero, suc, ◌+◌, ◌*◌, ◌≤◌, ◌<◌, ◌^◌, ◌≡◌, refl, ap, ◌∙◌, inl, inr, false, none, some, List, [],
  ◌∷◌, arith, ◌==◌, length, Option-cases,
}
use efi_os.Heap.{
  Heap, header_size, returned, out_of_fuel, Walk, found, exhausted, kmalloc_walk, kmalloc,
  expand_heap,
}
use efi_os.Heap.Chain.{Seg, IsHeap, LastIsFree}
use efi_os.Heap.Malloc.{allot, Walked, Holds, kmalloc_walk-Walked}
use efi_os.Heap.Allot.{Allotted, allot-Allotted}
use efi_os.Heap.Grow.{
  grow, length-grow, grow-zero, grow-grow, last_fits, page_bytes, expand_heap-start,
  expand_heap-end, expand_heap-IsHeap,
}

module _ {P : Type 0} (map_new_page : P → ℕ → P) where
  walk-Walked :
      (h : Heap P) (xs : List Seg) (rounds size : ℕ)
      → IsHeap h xs
      → size + header_size < 2 ^ 64
      → length xs ≤ rounds
      → Walked h 0 h.heap_start
          (allot size h.heap_start xs)
          (kmalloc_walk rounds h h.heap_start size)
  walk-Walked h [] rounds size v small enough = absurd v.cons
  walk-Walked h (s ∷ xs) rounds size v small enough =
      kmalloc_walk-Walked h size small xs s rounds 0 h.heap_start enough v.start
        (omega (arith, v.ends, v.bound)) v.chain v.last

  Walked-found :
      (h : Heap P) (a : ℕ) (ys : List Seg) (w : Walk P) (p : ℕ)
      → Walked h 0 p (some (a, ys)) w
      → (g : Heap P) × (w ≡ found a g) × Holds h 0 p ys g
  Walked-found h a ys (found b g) p (e, k) = (g, ap (λ c. found c g) e, k)
  Walked-found h a ys exhausted p k = absurd k
  Walked-found h a ys Walk.out_of_rounds p k = absurd k

  Walked-exhausted : (h : Heap P) (w : Walk P) (p : ℕ) → Walked h 0 p none w → w ≡ exhausted
  Walked-exhausted h (found b g) p k = absurd k
  Walked-exhausted h exhausted p k = refl
  Walked-exhausted h Walk.out_of_rounds p k = absurd k

  nonzero : (size : ℕ) → 0 < size → (size == 0) ≡ false
  nonzero size h = ground arith

  -- A request that some segment fits is met: on a well formed heap, for a positive size that with the
  -- header is below 2^64, and with a round of the search for each segment, `kmalloc` returns the
  -- address that the first-fit search gives; the heap is well formed with the list of that search; its
  -- blocks are the old ones and the new one, which lies inside the heap and shares no byte with any
  -- other.
  pub kmalloc-allot :
      (h : Heap P) (xs : List Seg) (calls rounds size a : ℕ) (ys : List Seg)
      → IsHeap h xs
      → 0 < size
      → size + header_size < 2 ^ 64
      → length xs ≤ rounds
      → allot size h.heap_start xs ≡ some (a, ys)
      → (g : Heap P) × (kmalloc map_new_page (suc calls) rounds h size ≡ returned a g)
        × IsHeap g ys
        × Allotted size h.heap_start xs (a, ys)
  unfolding kmalloc
  kmalloc-allot h xs calls rounds size a ys v pos small enough e =
      let w =
        Walked-found h a ys _ h.heap_start
          (rw e at (walk-Walked h xs rounds size v small enough)) in
      let k = w.2 in
      let f : Allotted size h.heap_start xs (a, ys) =
        rw e at (allot-Allotted size h.heap_start xs) in
      (
        w.0,
        rw (nonzero size pos, w.1) refl,
        record {
          cons = f.cons;
          start = rw k.start_same v.start;
          chain = rw k.start_same k.chain;
          last = rw k.start_same k.last;
          last_free = f.last_free v.last_free;
          ends = rw (k.start_same, k.end_same) (f.ends ∙ v.ends);
          bound = rw k.end_same v.bound;
        },
        f,
      )

  -- Where nothing fits, the heap is expanded and the call made again.
  kmalloc-none :
      (h : Heap P) (xs : List Seg) (calls rounds size : ℕ)
      → IsHeap h xs
      → 0 < size
      → size + header_size < 2 ^ 64
      → length xs ≤ rounds
      → allot size h.heap_start xs ≡ none
      → kmalloc map_new_page (suc calls) rounds h size
        ≡ kmalloc map_new_page calls rounds (expand_heap map_new_page h size) size
  unfolding kmalloc
  kmalloc-none h xs calls rounds size v pos small enough e = rw (
    nonzero size pos,
    Walked-exhausted h _ h.heap_start (rw e at (walk-Walked h xs rounds size v small enough)),
  )

  no_calls : (h : Heap P) (rounds size : ℕ) → kmalloc map_new_page zero rounds h size ≡ out_of_fuel
  unfolding kmalloc
  no_calls h rounds size = refl

  -- A positive request for less than a page that no segment of a well formed heap fits never returns:
  -- with a round of the search for each segment, no number of nested calls is enough, since the heap
  -- is expanded by no page and `kmalloc` calls itself again.
  pub kmalloc-diverges :
      (h : Heap P) (xs : List Seg) (calls rounds size : ℕ)
      → IsHeap h xs
      → 0 < size
      → size < 4096
      → length xs ≤ rounds
      → allot size h.heap_start xs ≡ none
      → kmalloc map_new_page calls rounds h size ≡ out_of_fuel
  kmalloc-diverges h xs zero rounds size v pos small enough e = no_calls h rounds size
  kmalloc-diverges h xs (suc calls) rounds size v pos small enough e =
      let none_added : page_bytes map_new_page size ≡ 0 = omega arith in
      let v' : IsHeap (expand_heap map_new_page h size) xs =
        rw (none_added, grow-zero) at
          (expand_heap-IsHeap map_new_page h xs size v (omega (arith, v.bound))) in
      kmalloc-none h xs calls rounds size v pos (omega arith) enough e
      ∙ kmalloc-diverges (expand_heap map_new_page h size) xs calls rounds size v' pos small enough
          (rw (expand_heap-start map_new_page h size) e)

  -- With `k` expansions to go after `m` bytes were added.
  kmalloc_within :
      (k m : ℕ) (h : Heap P) (xs : List Seg) (rounds size : ℕ)
      → IsHeap h (grow m xs)
      → LastIsFree xs
      → 0 < size
      → size + header_size < m + k * page_bytes map_new_page size
      → h.heap_end + k * page_bytes map_new_page size < 2 ^ 64
      → size + header_size < 2 ^ 64
      → length xs ≤ rounds
      → (a : ℕ) × (g : Heap P) × (ys : List Seg) × (kmalloc map_new_page (suc k) rounds h size
          ≡ returned a g)
        × IsHeap g ys
  kmalloc_within zero m h xs rounds size v f pos big room small enough =
      elim (Option-cases (allot size h.heap_start (grow m xs))) [
        | inr ((a, ys), e) ↦
            let r =
              kmalloc-allot h (grow m xs) 0 rounds size a ys v pos small (rw length-grow enough)
                e in
            (a, r.0, ys, r.1, r.2)
        | inl e ↦ absurd (last_fits size m h.heap_start xs f (omega arith) e)
      ]
  kmalloc_within (suc k) m h xs rounds size v f pos big room small enough =
      elim (Option-cases (allot size h.heap_start (grow m xs))) [
        | inr ((a, ys), e) ↦
            let r =
              kmalloc-allot h (grow m xs) (suc k) rounds size a ys v pos small
                (rw length-grow enough) e in
            (a, r.0, ys, r.1, r.2)
        | inl e ↦
            let n = page_bytes map_new_page size in
            let one_more : suc k * n ≡ k * n + n = omega arith in
            let v' : IsHeap (expand_heap map_new_page h size) (grow (m + n) xs) =
              rw grow-grow at
                (expand_heap-IsHeap map_new_page h (grow m xs) size v (omega arith)) in
            rw
              (kmalloc-none h (grow m xs) (suc k) rounds size v pos small (rw length-grow enough) e)
              (kmalloc_within k (m + n) (expand_heap map_new_page h size) xs rounds size v' f pos
                (omega arith) (omega (arith, expand_heap-end map_new_page h size)) small enough)
      ]

  -- A request for a page or more on a well formed heap returns after at most three expansions, and
  -- leaves a well formed heap, if the request is below 2^31, so that no offset of a new page leaves an
  -- `int`, if the address space has room for the expansions, and the search has a round for each
  -- segment.
  pub kmalloc-returns :
      (h : Heap P) (xs : List Seg) (rounds size : ℕ)
      → IsHeap h xs
      → 4096 ≤ size
      → size < 2 ^ 31
      → h.heap_end + 3 * size < 2 ^ 64
      → length xs ≤ rounds
      → (a : ℕ) × (g : Heap P) × (ys : List Seg) × (kmalloc map_new_page 4 rounds h size
          ≡ returned a g)
        × IsHeap g ys
  kmalloc-returns h xs rounds size v large in_range room enough =
      kmalloc_within 3 0 h xs rounds size (rw grow-zero v) v.last_free (omega arith) (omega arith)
        (omega arith) (omega arith) enough
