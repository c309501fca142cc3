-- ===== src/Heap.antt =====
-- The kernel heap, kernel/src/memory.c: a doubly linked list of segments, each a 32-byte header
-- followed by its payload. The headers are a function from addresses, NULL is address 0. The
-- paging component appears as its state `P` and the call that requests a page and maps it at an
-- address.
pub mod Chain
pub mod Init
pub mod Split
pub mod Malloc
pub mod Allot
pub mod Grow
pub mod Kmalloc
pub mod Zipper
pub mod Join
pub mod Merge
pub mod Free
pub mod Around
pub mod Release
mod Tests
use efi_os.Prelude.{
  ℕ, zero, suc, ◌+◌, ◌-◌, ◌*◌, ◌/◌, ◌%◌, ◌^◌, Bool, true, false, ◌&&◌, not, Option, none, some, ltb,
  ◌==◌, if◌then◌else◌, add64, sub64, min,
}
use efi_os.Frames.{int_offset}

-- `HEAP_SEG_HEADER`.
pub record Header : Type 0 where
  pub previous_hdr : ℕ
  pub next_hdr : ℕ
  pub len : ℕ
  pub free : Bool

-- `sizeof(HEAP_SEG_HEADER)`: two pointers, a length, and a `bool` padded to eight bytes.
abbrev pub header_size : ℕ
header_size = 32

-- The globals of memory.c, the headers in memory, and the state of paging.
pub record Heap (P : Type 0) : Type 0 where
  pub hdrs : ℕ → Header
  pub last_hdr : ℕ
  pub heap_start : ℕ
  pub heap_end : ℕ
  pub pages : P

-- The outcome of a call: the pointer that it returns and the heap; or the rounds ran out.
pub data Outcome (P : Type 0) : Type 0 where
  returned : ℕ → Heap P → Outcome P
  out_of_fuel : Outcome P

-- The outcome of the walk of `kmalloc` over the list.
pub data Walk (P : Type 0) : Type 0 where
  found : ℕ → Heap P → Walk P
  exhausted : Walk P
  out_of_rounds : Walk P

abbrev pub put : (ℕ → Header) → ℕ → Header → ℕ → Header
put hdrs a x b = if b == a then x else hdrs b

module _ {P : Type 0} where
  abbrev pub set_hdr : Heap P → ℕ → Header → Heap P
  set_hdr h a x = record h { hdrs = put h.hdrs a x }

  abbrev pub set_previous : Heap P → ℕ → ℕ → Heap P
  set_previous h a v = set_hdr h a (record (h.hdrs a) { previous_hdr = v })

  abbrev pub set_next : Heap P → ℕ → ℕ → Heap P
  set_next h a v = set_hdr h a (record (h.hdrs a) { next_hdr = v })

  abbrev pub set_len : Heap P → ℕ → ℕ → Heap P
  set_len h a v = set_hdr h a (record (h.hdrs a) { len = v })

  abbrev pub set_free : Heap P → ℕ → Bool → Heap P
  set_free h a v = set_hdr h a (record (h.hdrs a) { free = v })

  -- The first six assignments of `SPLIT_HEAP_SEGMENT`: both headers.
  write_headers : Heap P → (seg n_hdr length : ℕ) → Heap P
  write_headers h seg n_hdr length =
      let h1 = set_next h n_hdr (h.hdrs seg).next_hdr in
      let h2 = set_next h1 seg n_hdr in
      let h3 = set_previous h2 n_hdr seg in
      let h4 = set_len h3 n_hdr (sub64 (sub64 (h3.hdrs seg).len length) header_size) in
      let h5 = set_len h4 seg length in set_free h5 n_hdr true

  -- Its two tests: the link back from the segment behind, and `last_hdr`.
  link_back : Heap P → (seg n_hdr : ℕ) → Heap P
  link_back h seg n_hdr =
      let next = (h.hdrs n_hdr).next_hdr in
      let h1 = if next == 0 then h else set_previous h next n_hdr in
      if seg == h1.last_hdr then record h1 { last_hdr = n_hdr } else h1

  -- `SPLIT_HEAP_SEGMENT`.
  pub split_heap_segment : Heap P → (seg length : ℕ) → Heap P
  unfolding write_headers link_back
  split_heap_segment h seg length =
      let n_hdr = seg + header_size + length in
      link_back (write_headers h seg n_hdr length) seg n_hdr

  -- The link back to `seg` from the segment at `next`, if there is one.
  relink : Heap P → (seg next : ℕ) → Heap P
  relink h seg next = if next == 0 then h else set_previous h next seg

  -- The assignments to `seg` in `JOIN_HEAP_NEXT_SEGMENT`.
  absorb_next : Heap P → (seg n_hdr : ℕ) → Heap P
  absorb_next h seg n_hdr =
      let h1 = set_next h seg (h.hdrs n_hdr).next_hdr in
      let h2 = set_len h1 seg (add64 (h1.hdrs seg).len (add64 (h1.hdrs n_hdr).len header_size)) in
      if (h2.hdrs n_hdr).next_hdr == 0 then record h2 { last_hdr = seg } else h2

  -- `JOIN_HEAP_NEXT_SEGMENT`.
  pub join_heap_next_segment : Heap P → (seg : ℕ) → Heap P
  unfolding relink absorb_next
  join_heap_next_segment h seg =
      let n_hdr = (h.hdrs seg).next_hdr in
      absorb_next (relink h seg (h.hdrs n_hdr).next_hdr) seg n_hdr

  -- The `while(true)` of `kmalloc`.
  pub kmalloc_walk : ℕ → Heap P → (cur size : ℕ) → Walk P
  kmalloc_walk zero h cur size = out_of_rounds
  kmalloc_walk (suc rounds) h cur size =
      let seg = h.hdrs cur in
      let onward = kmalloc_walk rounds h seg.next_hdr size in
      if seg.free && ltb (add64 size header_size) seg.len
      then found (cur + header_size) (set_free (split_heap_segment h cur size) cur false)
      else if seg.next_hdr == 0
      then exhausted
      else onward

  -- The first loop of `free`.
  pub join_following : ℕ → Heap P → (cur : ℕ) → Option (Heap P)
  join_following zero h cur = none
  join_following (suc rounds) h cur =
      let next = (h.hdrs cur).next_hdr in
      let again = join_following rounds (join_heap_next_segment h cur) cur in
      if not (next == 0) && (h.hdrs next).free then again else some h

  -- The second loop of `free`.
  pub join_preceding : ℕ → Heap P → (cur : ℕ) → Option (Heap P)
  join_preceding zero h cur = none
  join_preceding (suc rounds) h cur =
      let previous = (h.hdrs cur).previous_hdr in
      let again = join_preceding rounds (join_heap_next_segment h previous) previous in
      if not (previous == 0) && (h.hdrs previous).free then again else some h

  -- `free`, with as many rounds for each loop as the caller says.
  pub free : ℕ → Heap P → (adr : ℕ) → Option (Heap P)
  unfolding join_following join_preceding
  free rounds h adr =
      let cur = adr - header_size in
      elim (join_following rounds (set_free h cur true) cur) [
        | none ↦ none
        | some h' ↦ join_preceding rounds h' cur
      ]

  module _ (map_new_page : P → ℕ → P) where
    -- The loop of `EXPAND_HEAP`, from index `i` on: a page at each offset `0x1000*i`, an `int`.
    map_new_pages : P → (adr i left : ℕ) → P
    map_new_pages p adr i zero = p
    map_new_pages p adr i (suc left) =
        map_new_pages (map_new_page p (add64 adr (int_offset i))) adr (i + 1) left

    -- `EXPAND_HEAP`. Its `int` counts to 2^31 at most: it is negative then, and no longer below `size`,
    -- which has no sign. The message of its other branch goes to the console.
    pub expand_heap : Heap P → (size : ℕ) → Heap P
    unfolding map_new_pages
    expand_heap h size =
        let count = size / 4096 in
        let last = h.last_hdr in
        let h1 = record h { pages = map_new_pages h.pages h.heap_end 0 (min count (2 ^ 31)) } in
        let h2 =
          if (h1.hdrs last).free
          then set_len h1 last (add64 (h1.hdrs last).len (4096 * count))
          else h1 in
        record h2 { heap_end = h2.heap_end + 4096 * count }

    -- `INIT_HEAP`. In `request_mapped_pages` the `int` counts bytes, and ends after 2^19 pages.
    pub init_heap : Heap P → (adr count : ℕ) → Heap P
    unfolding map_new_pages
    init_heap h adr count = record {
      hdrs = put h.hdrs adr (record {
        previous_hdr = 0;
        next_hdr = 0;
        len = sub64 (4096 * count) header_size;
        free = true;
      });
      last_hdr = adr;
      heap_start = adr;
      heap_end = adr + 4096 * count;
      pages = map_new_pages h.pages adr 0 (min count (2 ^ 19));
    }

    -- `kmalloc`: `rounds` bounds the walk, and the first argument the calls of itself.
    pub kmalloc : (calls rounds : ℕ) → Heap P → (size : ℕ) → Outcome P
    unfolding kmalloc_walk
    kmalloc zero rounds h size = out_of_fuel
    kmalloc (suc calls) rounds h size =
        let retry = kmalloc calls rounds (expand_heap h size) size in
        if size == 0 then returned 0 h else elim (kmalloc_walk rounds h h.heap_start size) [
          | found p h' ↦ returned p h'
          | exhausted ↦ retry
          | out_of_rounds ↦ out_of_fuel
        ]
