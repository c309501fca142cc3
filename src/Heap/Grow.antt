-- ===== src/Heap/Grow.antt =====
-- `EXPAND_HEAP` of kernel/src/memory.c: the last segment grows.
use mathlib.Core.Option
use efi_os.Prelude.{
  ℕ, suc, ◌+◌, ◌*◌, ◌/◌, ◌<◌, ◌^◌, ◌≡◌, ◌≢◌, refl, sym, ap, ◌∙◌, true, List, [], ◌∷◌, arith, add64,
  length, Option, none, some, Bool-cases, inl, inr, min,
}
use efi_os.Heap.{Heap, Header, header_size, put, map_new_pages, expand_heap}
use efi_os.Heap.Chain.{
  Seg, seg, header, behind, next_of, Chain, end_of, last_of, le-last_of, put_self, put_other,
  IsCons, IsHeap, LastIsFree,
}
use efi_os.Heap.Malloc.{fits, allot}

-- The list with `n` bytes more in its last segment.
abbrev pub grow : ℕ → List Seg → List Seg
grow n [] = []
grow n (s ∷ []) = seg (s.size + n) s.unused ∷ []
grow n (s ∷ t ∷ r) = s ∷ grow n (t ∷ r)

pub length-grow : (n : ℕ) (xs : List Seg) → length (grow n xs) ≡ length xs
length-grow n [] = refl
length-grow n (s ∷ []) = refl
length-grow n (s ∷ t ∷ r) = ap suc (length-grow n (t ∷ r))

end_of-grow : (n p : ℕ) (xs : List Seg) → IsCons xs → end_of p (grow n xs) ≡ end_of p xs + n
end_of-grow n p [] c = absurd c
end_of-grow n p (s ∷ []) c = omega arith
end_of-grow n p (s ∷ t ∷ r) c = end_of-grow n (behind p s) (t ∷ r) tt

last_of-grow : (n p : ℕ) (xs : List Seg) → last_of p (grow n xs) ≡ last_of p xs
last_of-grow n p [] = refl
last_of-grow n p (s ∷ []) = refl
last_of-grow n p (s ∷ t ∷ []) = refl
last_of-grow n p (s ∷ t ∷ u ∷ r) = last_of-grow n (behind p s) (t ∷ u ∷ r)

LastIsFree-grow : (n : ℕ) (xs : List Seg) → LastIsFree xs → LastIsFree (grow n xs)
LastIsFree-grow n [] h = h
LastIsFree-grow n (s ∷ []) h = h
LastIsFree-grow n (s ∷ t ∷ []) h = h
LastIsFree-grow n (s ∷ t ∷ u ∷ r) h = LastIsFree-grow n (t ∷ u ∷ r) h

IsCons-grow : (n : ℕ) (xs : List Seg) → IsCons xs → IsCons (grow n xs)
IsCons-grow n [] c = c
IsCons-grow n (s ∷ []) c = tt
IsCons-grow n (s ∷ t ∷ r) c = tt

next_of-grow : (n p : ℕ) (s t : Seg) (r : List Seg) → next_of p s (grow n (t ∷ r)) ≡ behind p s
next_of-grow n p s t [] = refl
next_of-grow n p s t (u ∷ r) = refl

-- The header of the last segment with another length.
abbrev longer : (ℕ → Header) → (last n : ℕ) → ℕ → Header
longer h last n = put h last (record (h last) { len = add64 (h last).len n })

-- The last segment's header, rewritten, holds the longer list.
longer-Chain :
    (h : ℕ → Header) (n : ℕ) (xs : List Seg) (previous p : ℕ)
    → end_of p xs + n < 2 ^ 64
    → Chain h previous p xs
    → Chain (longer h (last_of p xs) n) previous p (grow n xs)
longer-Chain h n [] previous p bound c = tt
longer-Chain h n (s ∷ []) previous p bound c =
    (put_self h _ p ∙ rw (c.0) (ap (λ l. header previous 0 l s.unused) (omega arith)), tt)
longer-Chain h n (s ∷ t ∷ r) previous p bound c =
    let last = last_of (behind p s) (t ∷ r) in
    (
      put_other h (record (h last) { len = add64 (h last).len n }) last p
            (omega (arith, le-last_of (behind p s) (t ∷ r)))
          ∙ c.0
          ∙ ap (λ a. header previous a s.size s.unused) (sym (next_of-grow n p s t r)),
      longer-Chain h n (t ∷ r) p (behind p s) bound c.1,
    )

last-free :
    (h : ℕ → Header) (xs : List Seg) (previous p : ℕ)
    → LastIsFree xs
    → Chain h previous p xs
    → (h (last_of p xs)).free ≡ true
last-free h [] previous p f c = absurd f
last-free h (s ∷ []) previous p f c = ap (λ (x : Header). x.free) c.0 ∙ f
last-free h (s ∷ t ∷ r) previous p f c = last-free h (t ∷ r) p (behind p s) f c.1

module _ {P : Type 0} (map_new_page : P → ℕ → P) where
  -- The pages of the request as bytes.
  abbrev pub page_bytes : ℕ → ℕ
  page_bytes size = 4096 * (size / 4096)

  expand_heap-eq :
      (h : Heap P) (size : ℕ)
      → (h.hdrs h.last_hdr).free ≡ true
      → expand_heap map_new_page h size ≡ record h {
        hdrs = longer h.hdrs h.last_hdr (page_bytes size);
        heap_end = h.heap_end + page_bytes size;
        pages = map_new_pages map_new_page h.pages h.heap_end 0 (min (size / 4096) (2 ^ 31));
      }
  unfolding expand_heap
  expand_heap-eq h size f = rw f refl

  pub expand_heap-start :
      (h : Heap P) (size : ℕ) → (expand_heap map_new_page h size).heap_start ≡ h.heap_start
  unfolding expand_heap
  expand_heap-start h size = ground arith

  pub expand_heap-end :
      (h : Heap P) (size : ℕ)
      → (expand_heap map_new_page h size).heap_end ≡ h.heap_end + page_bytes size
  unfolding expand_heap
  expand_heap-end h size = ground arith

  -- `EXPAND_HEAP` of a well formed heap, where the address space has room for the whole pages of the
  -- request, adds them to the last segment, which is free, and leaves a well formed heap.
  pub expand_heap-IsHeap :
      (h : Heap P) (xs : List Seg) (size : ℕ)
      → IsHeap h xs
      → h.heap_end + page_bytes size < 2 ^ 64
      → IsHeap (expand_heap map_new_page h size) (grow (page_bytes size) xs)
  expand_heap-IsHeap h xs size v room =
      let n = page_bytes size in
      let free : (h.hdrs h.last_hdr).free ≡ true =
        rw v.last (last-free h.hdrs xs 0 h.heap_start v.last_free v.chain) in
      rw (expand_heap-eq h size free) (record {
        cons = IsCons-grow n xs v.cons;
        start = v.start;
        chain = rw v.last (longer-Chain h.hdrs n xs 0 h.heap_start (omega (arith, v.ends)) v.chain);
        last = v.last ∙ sym (last_of-grow n h.heap_start xs);
        last_free = LastIsFree-grow n xs v.last_free;
        ends = end_of-grow n h.heap_start xs v.cons ∙ ap (λ (e : ℕ). e + n) v.ends;
        bound = room;
      })

pub grow-zero : (xs : List Seg) → grow 0 xs ≡ xs
grow-zero [] = refl
grow-zero (s ∷ []) = ap (λ n. seg n s.unused ∷ []) (omega arith)
grow-zero (s ∷ t ∷ r) = ap (λ ys. s ∷ ys) (grow-zero (t ∷ r))

pub grow-grow : (n m : ℕ) (xs : List Seg) → grow n (grow m xs) ≡ grow (m + n) xs
grow-grow n m [] = refl
grow-grow n m (s ∷ []) = ap (λ k. seg k s.unused ∷ []) (omega arith)
grow-grow n m (s ∷ t ∷ []) = ap (λ k. s ∷ seg k t.unused ∷ []) (omega arith)
grow-grow n m (s ∷ t ∷ u ∷ r) = ap (λ ys. s ∷ ys) (grow-grow n m (t ∷ u ∷ r))

map-none : {A B : Type 0} (f : A → B) (o : Option A) → Option.map f o ≡ none → o ≡ none
map-none f none e = refl
map-none f (some a) e = cc

pub last_fits :
    (size n p : ℕ) (xs : List Seg)
    → LastIsFree xs
    → size + header_size < n
    → allot size p (grow n xs) ≢ none
unfolding allot
last_fits size n p [] f big e = f
last_fits size n p (s ∷ []) f big e = ground arith
last_fits size n p (s ∷ t ∷ []) f big e = elim (Bool-cases (fits size s)) [
  | inl yes_fits ↦ cc (rw yes_fits at e)
  | inr no_fit ↦ last_fits size n (behind p s) (t ∷ []) f big (map-none _ _ (rw no_fit at e))
]
last_fits size n p (s ∷ t ∷ u ∷ r) f big e = elim (Bool-cases (fits size s)) [
  | inl yes_fits ↦ cc (rw yes_fits at e)
  | inr no_fit ↦ last_fits size n (behind p s) (t ∷ u ∷ r) f big (map-none _ _ (rw no_fit at e))
]
