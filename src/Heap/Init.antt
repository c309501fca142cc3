-- ===== src/Heap/Init.antt =====
-- `INIT_HEAP` of kernel/src/memory.c.
use efi_os.Prelude.{ℕ, ◌+◌, ◌-◌, ◌*◌, ◌<◌, ◌%◌, ◌^◌, refl, ap, ◌∙◌, true, [], ◌∷◌, arith}
use efi_os.Heap.{Heap, header_size, init_heap}
use efi_os.Heap.Chain.{seg, header, IsHeap, put_self}

-- `INIT_HEAP` of a positive number of pages at an address that is not NULL and leaves room for them
-- in the address space makes a well formed heap of one free segment, which fills its pages.
pub init_heap-IsHeap :
    {P : Type 0} (map_new_page : P → ℕ → P) (h : Heap P) (adr count : ℕ)
    → 0 < adr
    → 0 < count
    → adr + 4096 * count < 2 ^ 64
    → IsHeap (init_heap map_new_page h adr count) (seg (4096 * count - header_size) true ∷ [])
unfolding init_heap
init_heap-IsHeap map_new_page h adr count start some_pages room = record {
  cons = tt;
  start = start;
  chain = (
    put_self h.hdrs (header 0 0 ((4096 * count + 2 ^ 64 - header_size) % 2 ^ 64) true) adr
        ∙ ap (λ n. header 0 0 n true) (omega arith),
    tt,
  );
  last = refl;
  last_free = refl;
  ends = omega arith;
  bound = room;
}
