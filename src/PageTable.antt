-- ===== src/PageTable.antt =====
-- The page tables of kernel/src/paging.c: the bits of an entry, the walk of the four levels, and the
-- calls that map and unmap an address. The tables in memory are a function from the address of a
-- table and a slot to the value of the entry; a frame that `memset` clears is a table of zeros.
pub mod Entry
pub mod Levels
pub mod Walk
pub mod Map
pub mod Unmap
mod Tests
use efi_os.Prelude.{
  ℕ, zero, suc, ◌+◌, ◌*◌, ◌/◌, ◌%◌, ◌^◌, Bool, true, false, not, ◌==◌, ◌&&◌, if◌then◌else◌, bit_and,
  bit_or, add64, min, List, [], ◌∷◌,
}
use efi_os.Frames.{Frames, int_offset, request_page, free_page}

abbrev pub pt_present : ℕ
pt_present = 0x1

abbrev pub pt_rw : ℕ
pt_rw = 0x2

abbrev pub pt_user_super : ℕ
pt_user_super = 0x4

-- The functions on an entry give the new value of it.
pub pt_set_flag : (value flag : ℕ) → ℕ
pt_set_flag value flag = bit_or value flag

pub pt_get_flag : (value flag : ℕ) → Bool
pt_get_flag value flag = not (bit_and value flag == 0)

pub pt_set_adr : (value adr : ℕ) → ℕ
pt_set_adr value adr = bit_or (bit_and value 0xfff0000000000fff) (bit_and 0x000ffffffffff000 adr)

pub pt_get_adr : (value : ℕ) → ℕ
pt_get_adr value = bit_and value 0x000ffffffffff00

pub record Paging : Type 0 where
  pub frames : Frames
  pub entries : (table slot : ℕ) → ℕ
  pub kernel_pl4 : ℕ

abbrev pub set_entry : Paging → (table slot value : ℕ) → Paging
set_entry p table slot value = record p {
  entries = λ t i. if t == table && i == slot then value else p.entries t i;
}

-- `memset(temp,0,4096)`
abbrev pub clear_table : Paging → (table : ℕ) → Paging
clear_table p table = record p { entries = λ t i. if t == table then 0 else p.entries t i }

-- The four indexes of an address, `virt>>39 & 0x1ff` and so on.
abbrev pub slot_at : (virt shift : ℕ) → ℕ
slot_at virt shift = bit_and (virt / 2 ^ shift) 0x1ff

-- A new table for an entry that is not present: the clearing of its frame and the two stores.
new_table : Paging → (table slot temp : ℕ) → Paging
unfolding pt_set_flag pt_set_adr
new_table p table slot temp =
    let p1 = clear_table p temp in
    let flags = bit_or pt_present (bit_or pt_rw pt_user_super) in
    let p2 = set_entry p1 table slot (pt_set_flag (p1.entries table slot) flags) in
    set_entry p2 table slot (pt_set_adr (p2.entries table slot) temp)

-- One round of the loop of `navigate_to_PL1`: the table that the entry names, a new one if the entry
-- is not present.
pub next_level : Paging → (table slot : ℕ) → ℕ × Paging
unfolding pt_get_flag pt_get_adr new_table
next_level p table slot =
    if pt_get_flag (p.entries table slot) pt_present
    then (pt_get_adr (p.entries table slot), p)
    else (let (temp, frames) = request_page p.frames in
        let p' = new_table (record p { frames = frames }) table slot temp in
        (pt_get_adr (p'.entries table slot), p'))

pub navigate : Paging → (table : ℕ) → (slots : List ℕ) → ℕ × Paging
unfolding next_level
navigate p table [] = (table, p)
navigate p table (slot ∷ slots) =
    let (table', p') = next_level p table slot in navigate p' table' slots

pub navigate_to_pl1 : Paging → (virt : ℕ) → ℕ × Paging
unfolding navigate
navigate_to_pl1 p virt =
    navigate p p.kernel_pl4 (slot_at virt 39 ∷ slot_at virt 30 ∷ slot_at virt 21 ∷ [])

pub map_mem_with_flags : Paging → (virt phys flags : ℕ) → Paging
unfolding navigate_to_pl1 pt_set_flag pt_set_adr
map_mem_with_flags p virt phys flags =
    let slot = slot_at virt 12 in
    let (pl1, p1) = navigate_to_pl1 p virt in
    let p2 = set_entry p1 pl1 slot (pt_set_flag (p1.entries pl1 slot) flags) in
    set_entry p2 pl1 slot (pt_set_adr (p2.entries pl1 slot) phys)

pub map_mem : Paging → (virt phys : ℕ) → Paging
unfolding map_mem_with_flags
map_mem p virt phys =
    map_mem_with_flags p virt phys (bit_or pt_rw (bit_or pt_present pt_user_super))

pub unmap_mem : Paging → (virt : ℕ) → Paging
unfolding navigate_to_pl1 pt_set_flag pt_set_adr pt_get_adr
unmap_mem p virt =
    let slot = slot_at virt 12 in
    let (pl1, p1) = navigate_to_pl1 p virt in
    let p2 = record p1 { frames = free_page p1.frames (pt_get_adr (p1.entries pl1 slot)) } in
    let p3 = set_entry p2 pl1 slot (pt_set_flag (p2.entries pl1 slot) 0) in
    set_entry p3 pl1 slot (pt_set_adr (p3.entries pl1 slot) 0)

-- The loop of `map_pages`, from index `i` on, which is an `int`: it counts to 2^31
-- at most.
map_pages_from : Paging → (virt phys i left : ℕ) → Paging
unfolding map_mem
map_pages_from p virt phys i zero = p
map_pages_from p virt phys i (suc left) =
    map_pages_from (map_mem p (add64 virt (int_offset i)) (add64 phys (int_offset i))) virt phys
      (i + 1) left

pub map_pages : Paging → (virt phys pages : ℕ) → Paging
unfolding map_pages_from
map_pages p virt phys pages = map_pages_from p virt phys 0 (min pages (2 ^ 31))

-- The loop of `request_mapped_pages`, a round for each 4096 bytes begun; its `int` ends after 2^19.
request_mapped_from : Paging → (virt i left : ℕ) → Paging
unfolding map_mem
request_mapped_from p virt i zero = p
request_mapped_from p virt i (suc left) =
    let (page, frames) = request_page p.frames in
    request_mapped_from (map_mem (record p { frames = frames }) (add64 virt i) page) virt (i + 4096)
      left

pub request_mapped_pages : Paging → (virt bytes : ℕ) → Paging
unfolding request_mapped_from
request_mapped_pages p virt bytes =
    request_mapped_from p virt 0 (min ((bytes + 4095) / 4096) (2 ^ 19))

-- The loop of `map_fb_pages`; the flags are present, writable, write-through, cache disabled and the
-- bit of the attribute table.
map_fb_from : Paging → (virt phys i left : ℕ) → Paging
unfolding map_mem_with_flags
map_fb_from p virt phys i zero = p
map_fb_from p virt phys i (suc left) =
    map_fb_from (map_mem_with_flags p (add64 virt (int_offset i)) (add64 phys (int_offset i)) 0x9b)
      virt phys (i + 1) left

pub map_fb_pages : Paging → (virt phys pages : ℕ) → Paging
unfolding map_fb_from
map_fb_pages p virt phys pages = map_fb_from p virt phys 0 (min pages (2 ^ 31))

-- The end of `INIT_PAGING`: a root, all memory mapped to itself, and the frame buffer.
pub init_tables : Paging → (total_mem fb_base fb_size : ℕ) → Paging
unfolding map_pages map_fb_pages
init_tables p total_mem fb_base fb_size =
    let (root, frames) = request_page p.frames in
    let p1 = clear_table (record p { frames = frames; kernel_pl4 = root }) root in
    let p2 = map_pages p1 0 0 (total_mem / 4096) in
    map_fb_pages p2 fb_base fb_base ((fb_size + 4095) / 4096)
