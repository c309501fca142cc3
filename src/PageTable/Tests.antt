-- ===== src/PageTable/Tests.antt =====
-- The page tables at concrete inputs.
use efi_os.Prelude.{ℕ, refl, ◌≡◌, true, false, some, arith, ltb, ◌==◌, if◌then◌else◌}
use efi_os.Frames.{Frames, free_page}
use efi_os.Frames.Count.{IsValid}
use efi_os.PageTable.{Paging, map_mem, unmap_mem, pt_get_adr, pt_set_adr, pt_get_flag, pt_present}
use efi_os.PageTable.Entry.{get_adr-set_adr}
use efi_os.PageTable.Levels.{IsTree}
use efi_os.PageTable.Map.{Mapped, map_mem-Mapped, translate}
use efi_os.PageTable.Unmap.{unmap_mem-stays}

get_adr-set_adr_example :
    (pt_get_adr (pt_set_adr 0x107 0x5000) ≡ 0x5100)
    × (pt_get_flag (pt_set_adr 0x107 0x5000) 4 ≡ pt_get_flag 0x107 4)
get_adr-set_adr_example = get_adr-set_adr 0x107 0x5000 2 (omega arith)

-- Eight frames, with an empty root in the second one.
abbrev eight_frames : Frames
eight_frames = record {
  free_memory = 24576;
  used_memory = 8192;
  reserved_memory = 0;
  pages_used = λ x. ltb x 2;
  total_pages = 8;
  page_index = 2;
}

eight_frames-IsValid : IsValid 32768 eight_frames
eight_frames-IsValid = record {
  free_range = omega arith;
  taken_range = refl;
  all_memory = refl;
  none_below = λ x lt lt'. ground arith;
}

abbrev empty_root : Paging
empty_root = record { frames = eight_frames; entries = λ t i. 0; kernel_pl4 = 4096 }

abbrev root_only : ℕ → ℕ
root_only t = if t == 4096 then 4 else 0

no_flag : pt_get_flag 0 pt_present ≡ false
unfolding pt_get_flag
no_flag = refl

empty_root-IsTree : IsTree root_only empty_root
empty_root-IsTree = record {
  root = refl;
  child = λ t i l at_t here. ground (arith, no_flag);
  empty = λ t i l at_t here. refl;
  taken = λ x lt unused. ground arith;
}

map_mem-Mapped_example :
    (level' : ℕ → ℕ) × Mapped 32768 root_only empty_root 0x7f0000123000 0x6000 level'
      (map_mem empty_root 0x7f0000123000 0x6000)
map_mem-Mapped_example =
    map_mem-Mapped 32768 root_only empty_root 0x7f0000123000 0x6000 empty_root-IsTree
      eight_frames-IsValid (omega arith) (omega arith) refl (omega arith)

-- A table of each level, whose slots all name the next one.
abbrev chained : Paging
chained = record {
  frames = eight_frames;
  entries = λ t i.
      if t == 4096 then 8199 else if t == 8192 then 12295 else if t == 12288 then 16391 else 131079;
  kernel_pl4 = 4096;
}

abbrev chained_level : ℕ → ℕ
chained_level t =
    if t == 4096
    then 4
    else if t == 8192
    then 3
    else if t == 12288
    then 2
    else if t == 16384
    then 1
    else 0

flags :
    (pt_get_flag 8199 pt_present ≡ true)
    × (pt_get_flag 12295 pt_present ≡ true)
    × (pt_get_flag 16391 pt_present ≡ true)
unfolding pt_get_flag
flags = (refl, refl, refl)

addresses : (pt_get_adr 8199 ≡ 8192) × (pt_get_adr 12295 ≡ 12288) × (pt_get_adr 16391 ≡ 16384)
unfolding pt_get_adr
addresses = (refl, refl, refl)

abbrev chained_frames : Frames
chained_frames = record eight_frames { pages_used = λ x. ltb x 5 }

abbrev chained_used : Paging
chained_used = record chained { frames = chained_frames }

chained-IsTree : IsTree chained_level chained_used
chained-IsTree = record {
  root = refl;
  child = λ t i l at_t here. ground (arith, addresses.0, addresses.1, addresses.2);
  empty = λ t i l at_t here. ground (arith, flags.0, flags.1, flags.2);
  taken = λ x lt unused. ground arith;
}

unmap_mem-stays_example :
    ((unmap_mem chained_used 0x5000).frames ≡ free_page chained_frames (pt_get_adr 131079))
    × (translate (unmap_mem chained_used 0x5000).entries 4096 0x5000 ≡ some 0)
unfolding pt_get_flag pt_get_adr
unmap_mem-stays_example =
    unmap_mem-stays chained_level chained_used 0x5000 16384 chained-IsTree refl refl refl
