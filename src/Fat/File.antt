-- ===== src/Fat/File.antt =====
-- Writing a file, `write_file` of kernel/src/fat.c. A sector of the disk is a function from the places
-- of its bytes; `atapio_write_sectors` stores as many sectors of memory as it is told.
use efi_os.Prelude.{
  ℕ, zero, suc, ◌+◌, ◌-◌, ◌*◌, ◌/◌, ◌%◌, ◌^◌, ◌&&◌, not, Option, none, some, List, [], ◌∷◌, ltb,
  ◌==◌, ◌>>=◌, if◌then◌else◌,
}
use efi_os.Memory.{Memory, store, memcpy}
use efi_os.Strings.Split.{split_string_by_char, section_list}
use efi_os.Fat.{
  BootSector, Volume, get_first_fat_sector, get_first_sector_of_cluster, get_first_free_cluster,
  write_fat_cluster_chain,
}
use efi_os.Fat.Offset.{get_cluster_chain_length, load_fat_cluster_chain}
use efi_os.Fat.Directory.{first_cluster, get_entry_from_directory, create_entry_in_directory}

abbrev Disk : Type 0
Disk = Volume (ℕ → ℕ)

abbrev sector_at : Memory → (a : ℕ) → ℕ → ℕ
sector_at m a i = m (a + i)

sectors_at : (left : ℕ) → Memory → (a : ℕ) → List (ℕ → ℕ)
sectors_at zero m a = []
sectors_at (suc left) m a = sector_at m a ∷ sectors_at left m (a + 512)

-- The sectors that were read, to memory.
place : List (ℕ → ℕ) → Memory → (a : ℕ) → Memory
place [] m a = m
place (s ∷ sectors) m a =
    place sectors (λ x. if not (ltb x a) && ltb x (a + 512) then s (x - a) else m x) (a + 512)

abbrev write_sectors : Disk → (sector count : ℕ) → (bytes : Memory) → (a : ℕ) → Disk
write_sectors v sector count bytes a = record v {
  disk = λ x.
      if not (ltb x sector) && ltb x (sector + count)
      then sector_at bytes (a + 512 * (x - sector))
      else v.disk x;
}

-- The addresses that kmalloc gives for the names and the directories, the root directory in memory, its
-- sectors, and the buffers for names.
pub record Buffers : Type 0 where
  pub sections : ℕ
  pub directory : (path : ℕ) → ℕ
  pub root_directory : ℕ
  pub root_sectors : ℕ
  pub tmp_long : ℕ
  pub tmp_name : ℕ

-- The variables of the loop over the names.
record Entered : Type 0 where
  memory : Memory
  entry : ℕ
  entry_location : Option ℕ
  cur_dir : ℕ

-- A name behind the first one: the directory that the last entry gives is loaded and searched.
enter_directory : (rounds : ℕ) → BootSector → Disk → Buffers → Entered → (path : ℕ) → Option Entered
unfolding sectors_at place
enter_directory rounds part v b p path = do
  let location = first_cluster p.memory p.entry
  sectors ←
      load_fat_cluster_chain part rounds v (sectors_at b.root_sectors p.memory b.root_directory)
        location
  let cur_dir = b.directory path
  (entry, m) ←
      get_entry_from_directory rounds rounds (place sectors p.memory cur_dir) cur_dir b.tmp_name
        path
  some (record { memory = m; entry = entry; entry_location = some location; cur_dir = cur_dir })

-- `strcasecmp` with the empty string is 0 just for that.
place_loop :
    (rounds : ℕ) → BootSector → Disk → Buffers → Entered → (paths : List ℕ) → Option Entered
unfolding enter_directory
place_loop rounds part v b p [] = some p
place_loop rounds part v b p (path ∷ paths) =
    let next = if p.memory path == 0 then some p else enter_directory rounds part v b p path in
    next >>= λ p'. place_loop rounds part v b p' paths

-- The first cluster and the size of an entry.
set_entry : Memory → (entry cluster size : ℕ) → Memory
set_entry m entry cluster size =
    let m1 = store (store m (entry + 26) (cluster % 256)) (entry + 27) (cluster / 256 % 256) in
    let m2 = store (store m1 (entry + 28) (size % 256)) (entry + 29) (size / 256 % 256) in
    store (store m2 (entry + 30) (size / 2 ^ 16 % 256)) (entry + 31) (size / 2 ^ 24 % 256)

-- The table, from its own bytes, to its place and to nine sectors behind it.
write_tables : BootSector → Disk → Disk
write_tables part v =
    let first = get_first_fat_sector part in
    let v1 = write_sectors v first part.table_size_16 v.fat_table 0 in
    write_sectors v1 (first + 9) part.table_size_16 v.fat_table 0

-- What follows when the directory is found; `last` is the name of the file.
add_file :
    (rounds : ℕ)
    → BootSector
    → Disk
    → Buffers
    → Entered
    → (last file size : ℕ) → Option (Memory × Disk)
unfolding set_entry write_tables
add_file rounds part v b p last file size = do
  (entry, m1) ← create_entry_in_directory rounds p.memory p.cur_dir b.tmp_long b.tmp_name last
  let m2 = memcpy m1 entry last 11
  (cluster, table) ← get_first_free_cluster rounds v.fat_table
  let m3 = set_entry m2 entry cluster size
  v2 ←
      write_fat_cluster_chain part rounds (record v { fat_table = table }) cluster
        (λ i. sector_at m3 (file + 512 * i)) size
  location ← p.entry_location
  count ← get_cluster_chain_length rounds part v2.fat_table location
  let v3 = write_sectors v2 (get_first_sector_of_cluster part location) count m3 p.cur_dir
  some (m3, write_tables part v3)

-- `none` if the rounds of a loop run out, or if the path has no name behind the first one:
-- `entry_location` has no value then. The cluster found free is not 0, whose entry of the table is taken.
-- A directory that is freed keeps its bytes in the model.
pub write_file :
    (rounds : ℕ)
    → BootSector
    → Disk
    → Buffers
    → Memory
    → (filepath file size : ℕ) → Option (Memory × Disk)
unfolding place_loop add_file
write_file rounds part v b m filepath file size = do
  (count, paths, m1) ← split_string_by_char rounds m filepath b'/' b.sections
  (entry, m2) ← get_entry_from_directory rounds rounds m1 b.root_directory b.tmp_name (paths 0)
  p ←
      place_loop rounds part v b
        (record { memory = m2; entry = entry; entry_location = none; cur_dir = 0 })
        (section_list (count - 1) paths 1)
  add_file rounds part v b p (paths (count - 1)) file size
