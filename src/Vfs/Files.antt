-- ===== src/Vfs/Files.antt =====
-- The table of open files, kernel/src/file_table.c, and the file calls of kernel/src/filesystem.c. An
-- entry is known by its address. A signed number, an `int` such as a descriptor too, is a word.
pub mod Table
pub mod Calls
use efi_os.Prelude.{
  ℕ, zero, suc, ◌+◌, ◌-◌, ◌*◌, ◌%◌, ◌^◌, Bool, true, false, not, Option, none, some, List, [], ◌∷◌,
  length, ltb, leb, ◌==◌, ◌>>=◌, if◌then◌else◌, add32, sub32, add64,
}
use efi_os.Prelude.Int.{ℤ, pos, negsuc}
use efi_os.Memory.{Memory}
use efi_os.SortedList.{
  SortedList, create_sorted_list, sorted_list_insert, sorted_list_remove, sorted_list_get,
}
use efi_os.Vfs.Cache.{Vfs, vfs_read, vfs_write, vfs_close}

-- The `int` that a word of 32 bits stands for, and the one that `first-second` gives.
abbrev pub signed32 : ℕ → ℤ
signed32 w = if ltb w (2 ^ 31) then pos w else negsuc (2 ^ 32 - w - 1)

abbrev pub int_difference : (first second : ℕ) → ℤ
int_difference first second = signed32 (sub32 first (second % 2 ^ 32))

-- An `int` where the code wants 64 bits.
abbrev extend : ℕ → ℕ
extend w = let v = w % 2 ^ 32 in if ltb v (2 ^ 31) then v else v + (2 ^ 64 - 2 ^ 32)

pub record FileTableEntry : Type 0 where
  pub fd : ℕ
  pub base : ℕ
  pub seek_offset : ℕ

-- `file_at` is what stands at the entries' addresses.
pub record FileTable : Type 0 where
  pub entries : SortedList
  pub next_id : ℕ
  pub file_at : ℕ → FileTableEntry

pub file_entry_cmp : (ℕ → FileTableEntry) → (first second : ℕ) → ℤ
file_entry_cmp file_at first second = int_difference (file_at first).fd (file_at second).fd

pub file_entry_search_cmp : (ℕ → FileTableEntry) → (first second : ℕ) → ℤ
file_entry_search_cmp file_at first second = int_difference (file_at first).fd second

pub init_file_table : (cells : Memory) → (ℕ → FileTableEntry) → FileTable
init_file_table cells file_at = record {
  entries = create_sorted_list cells;
  next_id = 0;
  file_at = file_at;
}

-- The address of an entry; `none` is NULL, which the callers follow.
pub find_entry : FileTable → (fd : ℕ) → Option ℕ
unfolding file_entry_search_cmp
find_entry ft fd = sorted_list_get (file_entry_search_cmp ft.file_at) ft.entries fd

abbrev set_offset : FileTable → (file offset : ℕ) → FileTable
set_offset ft file offset = record ft {
  file_at =
      λ a. if a == file then record (ft.file_at file) { seek_offset = offset } else ft.file_at a;
}

-- A read of 0 bytes sets the offset to the size.
pub file_read : (attempts : ℕ) → Vfs → FileTable → (fd buf len : ℕ) → Option (ℕ × Vfs × FileTable)
unfolding find_entry
file_read attempts v ft fd buf len = do
  file ← find_entry ft fd
  (read, v') ← vfs_read attempts v (ft.file_at file).base buf (ft.file_at file).seek_offset len
  some (
    read,
    v',
    set_offset ft file (
        if read == 0
        then (v'.nodes (ft.file_at file).base).size
        else add64 (ft.file_at file).seek_offset read),
  )

-- `loc` is the segment that a growing cache gets.
pub file_write :
    (attempts : ℕ) → Vfs → FileTable → (fd loc buf len : ℕ) → Option (ℕ × Vfs × FileTable)
unfolding find_entry
file_write attempts v ft fd loc buf len = do
  file ← find_entry ft fd
  (written, v') ←
      vfs_write attempts v (ft.file_at file).base loc buf (ft.file_at file).seek_offset len
  some (written, v', set_offset ft file (add64 (ft.file_at file).seek_offset written))

-- `switch (offset)` with `SEEK_SET`, `SEEK_CUR`, `SEEK_END`; `none` is the default.
abbrev intended : (offset whence now size : ℕ) → Option ℕ
intended offset whence now size =
    if offset == 0
    then some (extend whence)
    else if offset == 1
    then some (add64 now (extend whence))
    else if offset == 2
    then some (add64 size (extend whence))
    else none

-- A negative place and an unknown `offset` give -1.
pub file_seek : Vfs → FileTable → (fd offset whence : ℕ) → Option (ℕ × FileTable)
unfolding find_entry
file_seek v ft fd offset whence = do
  file ← find_entry ft fd
  elim (intended offset whence (ft.file_at file).seek_offset
      (v.nodes (ft.file_at file).base).size) [
        | none ↦ some (2 ^ 64 - 1, ft)
        | some place ↦
            if leb (2 ^ 63) place
            then some (2 ^ 64 - 1, ft)
            else some (place, set_offset ft file place)
      ]

-- `st_ino` and `st_size`.
pub file_fstat : Vfs → FileTable → (fd : ℕ) → Option (ℕ × ℕ)
unfolding find_entry
file_fstat v ft fd = do
  file ← find_entry ft fd
  some ((ft.file_at file).base, (v.nodes (ft.file_at file).base).size)

-- A new entry at the address `fe`, with the next number.
pub create_file_table_entry : FileTable → (fe file : ℕ) → Option (ℕ × FileTable)
unfolding file_entry_cmp
create_file_table_entry ft fe file =
    let entry : FileTableEntry = record { fd = ft.next_id; base = file; seek_offset = 0 } in
    let file_at : ℕ → FileTableEntry = λ a. if a == fe then entry else ft.file_at a in
    sorted_list_insert (file_entry_cmp file_at) ft.entries fe >>= λ entries.
    some (ft.next_id, record { entries = entries; next_id = add32 ft.next_id 1; file_at = file_at })

-- The node is closed, the entry removed from the list; its memory is no longer used.
pub remove_file_table_entry : Vfs → FileTable → (fd : ℕ) → Option (Vfs × FileTable)
unfolding find_entry file_entry_cmp
remove_file_table_entry v ft fd = do
  file ← find_entry ft fd
  entries ← sorted_list_remove (file_entry_cmp ft.file_at) ft.entries file
  some (vfs_close v (ft.file_at file).base, record ft { entries = entries })
