-- ===== src/Frames/Setup.antt =====
-- The part of INIT_PAGING of kernel/src/paging.c that builds the map of frames from the memory map of
-- the firmware, and getMemorySize of kernel/src/efimemory.c.
pub mod Boot
use efi_os.Prelude.{
  ℕ, zero, suc, ◌+◌, ◌*◌, ◌/◌, Bool, true, false, Option, none, some, List, [], ◌∷◌, ltb, ◌==◌,
  if◌then◌else◌, add64, ◌||◌, not, ◌&&◌,
}
use efi_os.Memory.{within}
use efi_os.Frames.{Frames, lock_pages, reserve_pages}

-- `EFI_MEMORY_DESCRIPTOR`, the fields that are read.
pub record Descriptor : Type 0 where
  pub descriptor_type : ℕ
  pub physical_start : ℕ
  pub number_of_pages : ℕ

abbrev pub efi_conventional_memory : ℕ
efi_conventional_memory = 7

-- The loop of `getMemorySize`.
unfoldable pub get_memory_size : (mem_size : ℕ) → List Descriptor → ℕ
get_memory_size mem_size [] = mem_size
get_memory_size mem_size (d ∷ ds) =
    get_memory_size
      (if d.descriptor_type == 0 then mem_size else add64 mem_size (4096 * d.number_of_pages)) ds

-- The first loop of `INIT_PAGING`: the longest segment of conventional memory, if there is one.
unfoldable pub largest_segment :
    (largest : Option Descriptor) → (size : ℕ) → List Descriptor → Option Descriptor
largest_segment largest size [] = largest
largest_segment largest size (d ∷ ds) =
    if d.descriptor_type == efi_conventional_memory && ltb size d.number_of_pages
    then largest_segment (some d) d.number_of_pages ds
    else largest_segment largest size ds

-- Its loop that reserves what is not conventional memory.
pub reserve_segments : Frames → List Descriptor → Frames
reserve_segments f [] = f
reserve_segments f (d ∷ ds) =
    reserve_segments
      (if d.descriptor_type == efi_conventional_memory
        then f
        else reserve_pages f d.physical_start d.number_of_pages)
      ds

-- The map before any frame is taken: `FREE_MEMORY`, `total_pages`, and the loop that clears the map.
abbrev pub all_free : Frames → (total_mem : ℕ) → Frames
all_free f total_mem =
    let total_pages = total_mem / 4096 + 1 in
    record f {
      free_memory = total_mem;
      total_pages = total_pages;
      pages_used = λ x. if ltb x total_pages then false else f.pages_used x;
    }

-- `INIT_PAGING` up to the lock of the kernel's image; `init_tables` of PageTable is what follows.
-- `none` where the code follows NULL, when there is no conventional memory. The kernel's image is
-- `kernel_size` pages at `kernel_start`.
pub init_frames : Frames → (kernel_start kernel_size : ℕ) → List Descriptor → Option Frames
unfolding get_memory_size largest_segment reserve_segments
init_frames f kernel_start kernel_size table = elim (largest_segment none 0 table) [
  | none ↦ none
  | some largest ↦
      let total_mem = get_memory_size 0 table in
      let f1 = reserve_pages (all_free f total_mem) 0 0x100 in
      let f2 = lock_pages f1 largest.physical_start (f1.total_pages / 4096 + 1) in
      let f3 = reserve_segments f2 table in some (lock_pages f3 kernel_start kernel_size)
]
