-- ===== src/Heap/Split.antt =====
-- `SPLIT_HEAP_SEGMENT` and the two writes of `kmalloc` round it, kernel/src/memory.c.
use efi_os.Prelude.{
  ℕ, ◌+◌, ◌-◌, ◌<◌, ◌^◌, ◌≡◌, ◌≢◌, refl, sym, ap, ◌∙◌, ◌⊎◌, inl, inr, true, false, List, [], ◌∷◌,
  arith, ◌==◌, if◌then◌else◌, sub64,
}
use efi_os.Heap.{
  Heap, Header, header_size, put, set_free, write_headers, link_back, split_heap_segment,
}
use efi_os.Heap.Chain.{
  Seg, seg, header, behind, next_of, Chain, end_of, le-end_of, Chain-frame, put_self, put_other,
  put_unless_null_self, put_unless_null-other,
}

-- The segment `s` at `p` cut into a used one of `size` bytes and a free rest.
abbrev pub cut : (size : ℕ) → Seg → List Seg → List Seg
cut size s rest = seg size false ∷ seg (s.size - size - header_size) true ∷ rest

abbrev pub take_segment : {P : Type 0} → Heap P → (p size : ℕ) → Heap P
take_segment h p size = set_free (split_heap_segment h p size) p false

module _ {P : Type 0} (h : Heap P) (p n size : ℕ) (apart : p < n) where
  -- The two headers that are written, with what the segment held before.
  write_headers-first :
      (write_headers h p n size).hdrs p ≡ header (h.hdrs p).previous_hdr n size (h.hdrs p).free
  unfolding write_headers
  write_headers-first = ground arith

  write_headers-second :
      (write_headers h p n size).hdrs n
      ≡ header p (h.hdrs p).next_hdr (sub64 (sub64 (h.hdrs p).len size) header_size) true
  unfolding write_headers
  write_headers-second = ground arith

  write_headers-other : (a : ℕ) → a ≢ p → a ≢ n → (write_headers h p n size).hdrs a ≡ h.hdrs a
  unfolding write_headers
  write_headers-other a d e = ground arith

  write_headers-last : (write_headers h p n size).last_hdr ≡ h.last_hdr
  unfolding write_headers
  write_headers-last = refl

module _ {P : Type 0} (h : Heap P) (p n : ℕ) where
  link_back-hdrs :
      (next a : ℕ)
      → (h.hdrs n).next_hdr ≡ next
      → (link_back h p n).hdrs a ≡ (
          if next == 0
          then h.hdrs a
          else put h.hdrs next (record (h.hdrs next) { previous_hdr = n }) a)
  unfolding link_back
  link_back-hdrs next a e = ground arith

  link_back-last : (link_back h p n).last_hdr ≡ (if p == h.last_hdr then n else h.last_hdr)
  unfolding link_back
  link_back-last = ground arith

  link_back-globals :
      ((link_back h p n).heap_start ≡ h.heap_start)
      × ((link_back h p n).heap_end ≡ h.heap_end)
      × ((link_back h p n).pages ≡ h.pages)
  unfolding link_back
  link_back-globals = ground arith

module _ {P : Type 0} (h : Heap P) (p previous size : ℕ) (s : Seg) (rest : List Seg)
    (fits : size + header_size < s.size) (start : 0 < p) (bound : end_of p (s ∷ rest) < 2 ^ 64)
    (c : Chain h.hdrs previous p (s ∷ rest)) where
  abbrev pub new : ℕ
  new = p + header_size + size

  -- The headers after the first six assignments, and after the split.
  abbrev written : ℕ → Header
  written = (write_headers h p new size).hdrs

  abbrev split : ℕ → Header
  split = (split_heap_segment h p size).hdrs

  -- The headers that the last write of either function stores.
  abbrev linked : Header
  linked = record (written (next_of p s rest)) { previous_hdr = new }

  abbrev taken : Header
  taken = record (split p) { free = false }

  new_apart : p < new
  new_apart = omega arith

  -- The rest's length does not wrap.
  rest_size : sub64 (sub64 s.size size) header_size ≡ s.size - size - header_size
  rest_size = omega (arith, le-end_of (behind p s) rest)

  written-second :
      (write_headers h p new size).hdrs new
      ≡ header p (next_of p s rest) (s.size - size - header_size) true
  written-second =
      write_headers-second h p new size new_apart
      ∙ rw (c.0) (ap (λ n. header p (next_of p s rest) n true) rest_size)

  split-hdrs :
      (a : ℕ)
      → (split_heap_segment h p size).hdrs a ≡ (
          if next_of p s rest == 0
          then (write_headers h p new size).hdrs a
          else put
              (write_headers h p new size).hdrs
              (next_of p s rest)
              (record ((write_headers h p new size).hdrs (next_of p s rest)) { previous_hdr = new })
              a)
  unfolding split_heap_segment
  split-hdrs a =
      link_back-hdrs (write_headers h p new size) p new (next_of p s rest) a
        (ap (λ (x : Header). x.next_hdr) written-second)

  next_cases : (next_of p s rest ≡ 0) ⊎ (next_of p s rest ≡ behind p s)
  next_cases = elim rest as (λ r. (next_of p s r ≡ 0) ⊎ (next_of p s r ≡ behind p s)) [
    | [] ↦ inl refl
    | t ∷ r ↦ inr refl
  ]

  -- The write through the link back spares every other header.
  split-other :
      (a : ℕ)
      → a ≢ behind p s
      → (split_heap_segment h p size).hdrs a ≡ (write_headers h p new size).hdrs a
  split-other a d =
      split-hdrs a
      ∙ put_unless_null-other written linked (next_of p s rest) a (omega (arith, next_cases))

  take_segment-first : (take_segment h p size).hdrs p ≡ header previous new size false
  take_segment-first =
      put_self split taken p
      ∙ ap (λ (x : Header). record x { free = false })
          (split-other p (omega arith) ∙ write_headers-first h p new size new_apart)
      ∙ ap (λ (x : Header). header x.previous_hdr new size false) c.0

  take_segment-second :
      (take_segment h p size).hdrs new
      ≡ header p (next_of p s rest) (s.size - size - header_size) true
  take_segment-second =
      put_other split taken p new (omega arith) ∙ split-other new (omega arith) ∙ written-second

  -- No header below changes, none far above, and of the one behind only its link back.
  pub take_segment-other :
      (a : ℕ) → (a < p) ⊎ (behind p s < a) → (take_segment h p size).hdrs a ≡ h.hdrs a
  take_segment-other a far =
      put_other split taken p a (omega arith)
      ∙ split-other a (omega arith)
      ∙ write_headers-other h p new size new_apart a (omega arith) (omega arith)

  take_segment-third :
      next_of p s rest ≡ behind p s
      → (take_segment h p size).hdrs (behind p s)
        ≡ record (h.hdrs (behind p s)) { previous_hdr = new }
  take_segment-third e =
      put_other split taken p (behind p s) (omega arith)
      ∙ split-hdrs (behind p s)
      ∙ rw e (
          put_unless_null_self written (record (written (behind p s)) { previous_hdr = new })
            (behind p s) (omega arith))
      ∙ ap (λ (x : Header). record x { previous_hdr = new })
          (write_headers-other h p new size new_apart (behind p s) (omega arith) (omega arith))

  pub take_segment-last :
      (take_segment h p size).last_hdr ≡ (if p == h.last_hdr then new else h.last_hdr)
  unfolding split_heap_segment
  take_segment-last = link_back-last (write_headers h p new size) p new

  pub take_segment-globals :
      ((take_segment h p size).heap_start ≡ h.heap_start)
      × ((take_segment h p size).heap_end ≡ h.heap_end)
      × ((take_segment h p size).pages ≡ h.pages)
  unfolding split_heap_segment write_headers
  take_segment-globals = link_back-globals (write_headers h p new size) p new

-- What stands at the rest's address after the cut.
pub behind_rest :
    (p size : ℕ) (s : Seg)
    → size + header_size < s.size
    → behind (p + header_size + size) (seg (s.size - size - header_size) true) ≡ behind p s
behind_rest p size s fits = omega arith

module _ {P : Type 0} (h : Heap P) (p previous size : ℕ) (s : Seg)
    (fits : size + header_size < s.size) (start : 0 < p) where
  -- Memory holds the list with the segment cut in two.
  pub take_segment-Chain :
      (rest : List Seg)
      → end_of p (s ∷ rest) < 2 ^ 64
      → Chain h.hdrs previous p (s ∷ rest)
      → Chain (take_segment h p size).hdrs previous p (cut size s rest)
  take_segment-Chain [] bound c = (
    take_segment-first h p previous size s [] fits start bound c,
    (take_segment-second h p previous size s [] fits start bound c, tt),
  )
  take_segment-Chain (t ∷ r) bound c = (
    take_segment-first h p previous size s (t ∷ r) fits start bound c,
    (
      take_segment-second h p previous size s (t ∷ r) fits start bound c
          ∙ ap (λ a. header p a (s.size - size - header_size) true)
              (sym (behind_rest p size s fits)),
      rw (behind_rest p size s fits) (
        take_segment-third h p previous size s (t ∷ r) fits start bound c refl
            ∙ ap (λ (x : Header). record x { previous_hdr = p + header_size + size }) c.1.0,
        Chain-frame r (behind p s) (behind (behind p s) t)
            (λ a le.
              take_segment-other h p previous size s (t ∷ r) fits start bound c a (omega arith))
            c.1.1,
      ),
    ),
  )
