-- ===== src/Heap/Tests.antt =====
-- A run of the heap, and its theorems at it. Paging is the list of the addresses mapped so far.
use efi_os.Prelude.{ℕ, ◌≡◌, refl, true, false, some, List, [], ◌∷◌, arith}
use efi_os.Heap.{Heap, put, returned, out_of_fuel, init_heap, kmalloc, free}
use efi_os.Heap.Chain.{Seg, seg, header, IsHeap}
use efi_os.Heap.Init.{init_heap-IsHeap}
use efi_os.Heap.Malloc.{allot}
use efi_os.Heap.Allot.{Allotted}
use efi_os.Heap.Kmalloc.{kmalloc-allot, kmalloc-returns, kmalloc-diverges}
use efi_os.Heap.Release.{Freed, free-Freed}

abbrev Pages : Type 0
Pages = List ℕ

abbrev map_new_page : Pages → ℕ → Pages
map_new_page p a = a ∷ p

-- The heap before `INIT_HEAP`, and a heap of one page at 4096.
abbrev raw : Heap Pages
raw = record {
  hdrs = λ a. header 0 0 0 false;
  last_hdr = 0;
  heap_start = 0;
  heap_end = 0;
  pages = [];
}

abbrev one_page : List Seg
one_page = seg 4064 true ∷ []

init_heap-IsHeap_example : IsHeap (init_heap map_new_page raw 4096 1) one_page
init_heap-IsHeap_example =
    init_heap-IsHeap map_new_page raw 4096 1 (omega arith) (omega arith) (omega arith)

abbrev fresh : Heap Pages
fresh = init_heap map_new_page raw 4096 1

kmalloc-allot_example :
    (g : Heap Pages) × (kmalloc map_new_page 1 1 fresh 100 ≡ returned 4128 g)
    × IsHeap g (seg 100 false ∷ seg 3932 true ∷ [])
    × Allotted 100 4096 one_page (4128, seg 100 false ∷ seg 3932 true ∷ [])
unfolding init_heap allot
kmalloc-allot_example =
    kmalloc-allot map_new_page fresh one_page 0 1 100 4128 (seg 100 false ∷ seg 3932 true ∷ [])
      init_heap-IsHeap_example (omega arith) (omega arith) (omega arith) refl

-- A page of which 4000 bytes are taken.
abbrev taken : List Seg
taken = seg 4000 false ∷ seg 32 true ∷ []

abbrev almost_full : Heap Pages
almost_full = record {
  hdrs = put (put raw.hdrs 8128 (header 4096 0 32 true)) 4096 (header 0 8128 4000 false);
  last_hdr = 8128;
  heap_start = 4096;
  heap_end = 8192;
  pages = [];
}

almost_full-IsHeap : IsHeap almost_full taken
almost_full-IsHeap = record {
  cons = tt;
  start = omega arith;
  chain = (refl, (refl, tt));
  last = refl;
  last_free = refl;
  ends = refl;
  bound = omega arith;
}

-- 100 bytes do not fit, and no page is added for them.
kmalloc-diverges_example : kmalloc map_new_page 9 2 almost_full 100 ≡ out_of_fuel
unfolding allot
kmalloc-diverges_example =
    kmalloc-diverges map_new_page almost_full taken 9 2 100 almost_full-IsHeap (omega arith)
      (omega arith) (omega arith) refl

kmalloc-returns_example :
    (a : ℕ) × (g : Heap Pages) × (ys : List Seg) × (kmalloc map_new_page 4 2 almost_full 5000
      ≡ returned a g)
    × IsHeap g ys
kmalloc-returns_example =
    kmalloc-returns map_new_page almost_full taken 2 5000 almost_full-IsHeap (omega arith)
      (omega arith) (omega arith) (omega arith)

free-Freed_example :
    (g : Heap Pages) × (ys : List Seg) × (free 3 almost_full 4128 ≡ some g)
    × Freed almost_full [] (seg 4000 false) (seg 32 true ∷ []) g ys
free-Freed_example =
    free-Freed almost_full [] (seg 4000 false) (seg 32 true ∷ []) 3 almost_full-IsHeap (omega arith)
      refl
