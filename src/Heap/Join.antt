-- ===== src/Heap/Join.antt =====
-- `JOIN_HEAP_NEXT_SEGMENT` of kernel/src/memory.c.
use efi_os.Prelude.{
  ℕ, ◌+◌, ◌<◌, ◌^◌, ◌≡◌, ◌≢◌, ◌⊎◌, inl, inr, refl, sym, ap, ◌∙◌, Bool, false, List, [], ◌∷◌, arith,
  ◌==◌, if◌then◌else◌,
}
use efi_os.Heap.{Heap, Header, header_size, relink, absorb_next, join_heap_next_segment}
use efi_os.Heap.Chain.{
  Seg, seg, header, behind, next_of, Chain, end_of, last_of, le-end_of, Chain-frame,
}
use efi_os.Heap.Malloc.{Holds}

pub not_null : (a : ℕ) → 0 < a → (a == 0) ≡ false
not_null a h = ground arith

-- Two neighbours as one segment, with the second's header in its payload.
abbrev pub joined : Seg → Seg → Seg
joined s t = seg (s.size + (t.size + header_size)) s.unused

-- The two headers that `absorb_next` reads, with any contents.
module _ {P : Type 0} (h : Heap P) (p n previous next l m back : ℕ) (b d : Bool) (apart : p < n)
    (first : h.hdrs p ≡ header previous n l b) (second : h.hdrs n ≡ header back next m d)
    (room : l + m + header_size < 2 ^ 64) where
  absorb_next-first : (absorb_next h p n).hdrs p ≡ header previous next (l + (m + header_size)) b
  unfolding absorb_next
  absorb_next-first = ground arith

  absorb_next-other : (a : ℕ) → a ≢ p → (absorb_next h p n).hdrs a ≡ h.hdrs a
  unfolding absorb_next
  absorb_next-other a d = ground arith

  absorb_next-last : (absorb_next h p n).last_hdr ≡ (if next == 0 then p else h.last_hdr)
  unfolding absorb_next
  absorb_next-last = ground arith

  absorb_next-globals :
      ((absorb_next h p n).heap_start ≡ h.heap_start)
      × ((absorb_next h p n).heap_end ≡ h.heap_end)
      × ((absorb_next h p n).pages ≡ h.pages)
  unfolding absorb_next
  absorb_next-globals = ground arith

module _ {P : Type 0} (h : Heap P) (p previous : ℕ) (s t : Seg) (r : List Seg) (start : 0 < p)
    (bound : end_of p (s ∷ t ∷ r) < 2 ^ 64) (c : Chain h.hdrs previous p (s ∷ t ∷ r)) where
  abbrev n : ℕ
  n = behind p s

  abbrev next : ℕ
  next = next_of n t r

  abbrev relinked : Heap P
  relinked = relink h p next

  apart : p < n
  apart = omega arith

  next_cases : (next ≡ 0) ⊎ (next ≡ behind n t)
  next_cases = elim r as (λ r. (next_of n t r ≡ 0) ⊎ (next_of n t r ≡ behind n t)) [
    | [] ↦ inl refl
    | u ∷ r ↦ inr refl
  ]

  join-eq : join_heap_next_segment h p ≡ absorb_next relinked p n
  unfolding join_heap_next_segment
  join-eq =
      let e : (h.hdrs p).next_hdr ≡ n = ap (λ (x : Header). x.next_hdr) c.0 in
      let d : (h.hdrs n).next_hdr ≡ next = ap (λ (x : Header). x.next_hdr) c.1.0 in rw (e, d) refl

  relink-other : (a : ℕ) → a ≢ behind n t → relinked.hdrs a ≡ h.hdrs a
  unfolding relink
  relink-other a far = ground (arith, next_cases)

  relink-next :
      next ≡ behind n t
      → relinked.hdrs (behind n t) ≡ record (h.hdrs (behind n t)) { previous_hdr = p }
  unfolding relink
  relink-next e = ground arith

  relink-globals :
      (relinked.last_hdr ≡ h.last_hdr)
      × (relinked.heap_start ≡ h.heap_start)
      × (relinked.heap_end ≡ h.heap_end)
      × (relinked.pages ≡ h.pages)
  unfolding relink
  relink-globals = ground arith

  relinked-first : relinked.hdrs p ≡ header previous n s.size s.unused
  relinked-first = relink-other p (omega arith) ∙ c.0

  relinked-second : relinked.hdrs n ≡ header p next t.size t.unused
  relinked-second = relink-other n (omega arith) ∙ c.1.0

  room : s.size + t.size + header_size < 2 ^ 64
  room = omega (arith, le-end_of (behind n t) r)

  pub join-first :
      (join_heap_next_segment h p).hdrs p
      ≡ header previous next (s.size + (t.size + header_size)) s.unused
  join-first = rw join-eq (
      absorb_next-first relinked p n previous next s.size t.size p s.unused t.unused apart
        relinked-first relinked-second room)

  pub join-other :
      (a : ℕ) → (a < p) ⊎ (behind n t < a) → (join_heap_next_segment h p).hdrs a ≡ h.hdrs a
  join-other a far = rw join-eq (
      absorb_next-other relinked p n previous next s.size t.size p s.unused t.unused apart
        relinked-first relinked-second room a (omega arith)
      ∙ relink-other a (omega arith))

  pub join-next :
      next ≡ behind n t
      → (join_heap_next_segment h p).hdrs (behind n t)
        ≡ record (h.hdrs (behind n t)) { previous_hdr = p }
  join-next e = rw join-eq (
      absorb_next-other relinked p n previous next s.size t.size p s.unused t.unused apart
        relinked-first relinked-second room (behind n t) (omega arith)
      ∙ relink-next e)

  pub join-last : (join_heap_next_segment h p).last_hdr ≡ (if next == 0 then p else h.last_hdr)
  join-last = rw join-eq (
      absorb_next-last relinked p n previous next s.size t.size p s.unused t.unused apart
        relinked-first relinked-second room
      ∙ ap (λ (l : ℕ). if next == 0 then p else l) relink-globals.0)

  pub join-globals :
      ((join_heap_next_segment h p).heap_start ≡ h.heap_start)
      × ((join_heap_next_segment h p).heap_end ≡ h.heap_end)
      × ((join_heap_next_segment h p).pages ≡ h.pages)
  join-globals =
      let g =
        absorb_next-globals relinked p n previous next s.size t.size p s.unused t.unused apart
          relinked-first relinked-second room in
      let k = relink-globals in rw join-eq (g.0 ∙ k.1, g.1 ∙ k.2, g.2 ∙ k.3)

-- The address behind the joined segment.
pub behind-joined : (p : ℕ) (s t : Seg) → behind p (joined s t) ≡ behind (behind p s) t
behind-joined p s t = omega arith

next_of-joined :
    (p : ℕ) (s t : Seg) (r : List Seg) → next_of (behind p s) t r ≡ next_of p (joined s t) r
next_of-joined p s t [] = refl
next_of-joined p s t (u ∷ r) = sym (behind-joined p s t)

module _ {P : Type 0} (h : Heap P) where
  join-Chain :
      (r : List Seg) (p previous : ℕ) (s t : Seg)
      → 0 < p
      → end_of p (s ∷ t ∷ r) < 2 ^ 64
      → Chain h.hdrs previous p (s ∷ t ∷ r)
      → Chain (join_heap_next_segment h p).hdrs previous p (joined s t ∷ r)
  join-Chain [] p previous s t start bound c = (join-first h p previous s t [] start bound c, tt)
  join-Chain (u ∷ r) p previous s t start bound c = (
    join-first h p previous s t (u ∷ r) start bound c
        ∙ ap (λ a. header previous a (s.size + (t.size + header_size)) s.unused)
            (next_of-joined p s t (u ∷ r)),
    rw (behind-joined p s t) (
      join-next h p previous s t (u ∷ r) start bound c refl
          ∙ ap (λ (x : Header). record x { previous_hdr = p }) c.1.1.0,
      Chain-frame r (behind (behind p s) t) (behind (behind (behind p s) t) u)
          (λ a le. join-other h p previous s t (u ∷ r) start bound c a (omega arith)) c.1.1.1,
    ),
  )

  join-last_of :
      (r : List Seg) (p previous : ℕ) (s t : Seg)
      → 0 < p
      → end_of p (s ∷ t ∷ r) < 2 ^ 64
      → Chain h.hdrs previous p (s ∷ t ∷ r)
      → h.last_hdr ≡ last_of p (s ∷ t ∷ r)
      → (join_heap_next_segment h p).last_hdr ≡ last_of p (joined s t ∷ r)
  join-last_of [] p previous s t start bound c e = join-last h p previous s t [] start bound c
  join-last_of (u ∷ r) p previous s t start bound c e =
      join-last h p previous s t (u ∷ r) start bound c
      ∙ ap (λ (b : Bool). if b then p else h.last_hdr)
          (not_null (behind (behind p s) t) (omega arith))
      ∙ e
      ∙ ap (λ q. last_of q (u ∷ r)) (sym (behind-joined p s t))

  -- Memory holds the list with the two segments joined.
  pub join-Holds :
      (r : List Seg) (p previous : ℕ) (s t : Seg)
      → 0 < p
      → end_of p (s ∷ t ∷ r) < 2 ^ 64
      → Chain h.hdrs previous p (s ∷ t ∷ r)
      → h.last_hdr ≡ last_of p (s ∷ t ∷ r)
      → Holds h previous p (joined s t ∷ r) (join_heap_next_segment h p)
  join-Holds r p previous s t start bound c e =
      let g = join-globals h p previous s t r start bound c in
      record {
        cons = tt;
        chain = join-Chain r p previous s t start bound c;
        last = join-last_of r p previous s t start bound c e;
        below = λ a lt. join-other h p previous s t r start bound c a (inl lt);
        start_same = g.0;
        end_same = g.1;
        pages_same = g.2;
      }
