-- ===== src/Fat.antt =====
-- The FAT12 driver of kernel/src/fat.c: the geometry of the volume, the 12-bit entries of the table,
-- the chains of clusters. The table is a function from offsets to bytes. The disk is a function from
-- sector numbers to contents, `S` is what one sector holds; a file in memory is a list of sectors.
-- `atapio_read_sectors` and `atapio_write_sectors` of one sector are a look-up and a store.
pub mod Table
pub mod Free
pub mod Chain
pub mod Extend
pub mod Rounds
pub mod Write
pub mod Directory
pub mod Offset
pub mod File
mod Tests
use efi_os.Prelude.{
  ℕ, zero, suc, ◌+◌, ◌-◌, ◌*◌, ◌/◌, ◌%◌, ◌^◌, Bool, true, false, Option, none, some, List, [], ◌∷◌,
  ltb, ◌==◌, if◌then◌else◌, bit_and, bit_or, add64, sub64,
}

-- `fat_BS`, the fields that are read.
pub record BootSector : Type 0 where
  pub bytes_per_sector : ℕ
  pub sectors_per_cluster : ℕ
  pub reserved_sector_count : ℕ
  pub table_count : ℕ
  pub root_entry_count : ℕ
  pub total_sectors_16 : ℕ
  pub table_size_16 : ℕ
  pub total_sectors_32 : ℕ

module _ (part : BootSector) where
  pub get_total_sectors : ℕ
  get_total_sectors =
      if part.total_sectors_16 == 0 then part.total_sectors_32 else part.total_sectors_16

  pub get_fat_size : ℕ
  get_fat_size = part.table_size_16

  pub get_root_dir_sectors : ℕ
  get_root_dir_sectors =
      (part.root_entry_count * 32 + (part.bytes_per_sector - 1)) / part.bytes_per_sector

  pub get_first_data_sector : ℕ
  unfolding get_fat_size get_root_dir_sectors
  get_first_data_sector =
      part.reserved_sector_count + part.table_count * get_fat_size + get_root_dir_sectors

  pub get_first_fat_sector : ℕ
  get_first_fat_sector = part.reserved_sector_count

  pub get_data_sectors : ℕ
  unfolding get_total_sectors get_fat_size get_root_dir_sectors
  get_data_sectors =
      sub64 get_total_sectors
        (part.reserved_sector_count + part.table_count * get_fat_size + get_root_dir_sectors)

  pub get_total_clusters : ℕ
  unfolding get_data_sectors
  get_total_clusters = get_data_sectors / part.sectors_per_cluster

  pub get_first_root_dir_sector : ℕ
  unfolding get_first_data_sector get_root_dir_sectors
  get_first_root_dir_sector = sub64 get_first_data_sector get_root_dir_sectors

  pub get_first_sector_of_cluster : (cluster : ℕ) → ℕ
  unfolding get_first_data_sector
  get_first_sector_of_cluster cluster =
      (sub64 cluster 2 * part.sectors_per_cluster + get_first_data_sector) % 2 ^ 64

  -- FAT12 is 1, FAT16 2, FAT32 3 and ExFAT 4.
  pub ident_fat : ℕ
  unfolding get_total_clusters
  ident_fat =
      if part.bytes_per_sector == 0
      then 4
      else if ltb get_total_clusters 4085
      then 1
      else if ltb get_total_clusters 65525
      then 2
      else 3

-- `*(uint16_t*)&fat_table[o]`, read and stored.
abbrev pub word_at : (ℕ → ℕ) → ℕ → ℕ
word_at t o = t o + 256 * t (o + 1)

abbrev pub store_word : (ℕ → ℕ) → (o v : ℕ) → ℕ → ℕ
store_word t o v x = if x == o then v % 256 else if x == o + 1 then v / 256 % 256 else t x

pub get_fat_next_cluster : (fat_table : ℕ → ℕ) → (cluster : ℕ) → ℕ
get_fat_next_cluster t cluster =
    let fat_offset = cluster * 3 % 2 ^ 64 / 2 in
    if cluster % 2 == 0 then bit_and (word_at t fat_offset) 0xfff else word_at t fat_offset / 2 ^ 4

pub set_fat_next_cluster : (fat_table : ℕ → ℕ) → (start_cluster next_cluster : ℕ) → ℕ → ℕ
set_fat_next_cluster t start_cluster next_cluster =
    let fat_offset = start_cluster * 3 % 2 ^ 64 / 2 in
    if start_cluster % 2 == 0
    then store_word t fat_offset
        (bit_or (bit_and (word_at t fat_offset) 0xf000) (bit_and 0xfff next_cluster))
    else store_word t fat_offset
        (bit_or (bit_and (word_at t fat_offset) 0x000f) (next_cluster * 2 ^ 4 % 2 ^ 64))

-- The loop of `get_first_free_cluster`; `none` if the rounds run out.
find_free : (rounds : ℕ) → (fat_table : ℕ → ℕ) → (cluster : ℕ) → Option ℕ
unfolding get_fat_next_cluster
find_free zero t cluster = none
find_free (suc rounds) t cluster =
    let further = find_free rounds t (cluster + 1) in
    if get_fat_next_cluster t cluster == 0 then some cluster else further

pub get_first_free_cluster : (rounds : ℕ) → (fat_table : ℕ → ℕ) → Option (ℕ × (ℕ → ℕ))
unfolding find_free set_fat_next_cluster
get_first_free_cluster rounds t = elim (find_free rounds t 0) [
  | none ↦ none
  | some cluster ↦ some (cluster, set_fat_next_cluster t cluster 4095)
]

-- The loop of `get_cluster_chain_length`. A cluster is a `uint16_t`, an entry has twelve bits.
pub chain_length : (rounds : ℕ) → (fat_table : ℕ → ℕ) → (next_cluster c_index : ℕ) → Option ℕ
unfolding get_fat_next_cluster
chain_length zero t next_cluster c_index = none
chain_length (suc rounds) t next_cluster c_index =
    let further = chain_length rounds t (get_fat_next_cluster t next_cluster) (c_index + 1) in
    if next_cluster == 4095 then some c_index else further

-- The table in memory, and the disk.
pub record Volume (S : Type 0) : Type 0 where
  pub fat_table : ℕ → ℕ
  pub disk : ℕ → S

module _ {S : Type 0} (part : BootSector) where
  -- The loop of `load_fat_cluster_chain`.
  pub load_chain : (rounds : ℕ) → Volume S → (next_cluster : ℕ) → Option (List S)
  unfolding get_fat_next_cluster get_first_sector_of_cluster
  load_chain zero v next_cluster = none
  load_chain (suc rounds) v next_cluster =
      let further = load_chain rounds v (get_fat_next_cluster v.fat_table next_cluster) in
      if next_cluster == 4095 then some [] else elim further [
        | none ↦ none
        | some sectors ↦ some (v.disk (get_first_sector_of_cluster part next_cluster) ∷ sectors)
      ]

  abbrev pub write_sector : Volume S → (cluster : ℕ) → S → Volume S
  write_sector v cluster s =
      let sector = get_first_sector_of_cluster part cluster in
      record v { disk = λ x. if x == sector then s else v.disk x }

  -- The loop of `write_fat_cluster_chain` for a size above 512, with the rounds that it has left:
  -- one for each 512 bytes but the last. It returns the last cluster.
  pub write_rounds :
      (search left : ℕ)
      → Volume S
      → (cluster : ℕ) → (bytes : ℕ → S) → (sectors_written : ℕ) → Option (ℕ × Volume S)
  unfolding get_first_free_cluster set_fat_next_cluster
  write_rounds search zero v cluster bytes sectors_written = some (cluster, v)
  write_rounds search (suc left) v cluster bytes sectors_written =
      elim (get_first_free_cluster search v.fat_table) [
        | none ↦ none
        | some (next_cluster, t1) ↦
            let t2 = set_fat_next_cluster t1 next_cluster 4095 in
            let t3 = set_fat_next_cluster t2 cluster next_cluster in
            let v' = write_sector (record v { fat_table = t3 }) cluster (bytes sectors_written) in
            write_rounds search left v' next_cluster bytes (sectors_written + 1)
      ]

  -- `write_fat_cluster_chain` for a file, whose cluster is not 0; `bytes` gives the sectors of the data.
  pub write_fat_cluster_chain :
      (search : ℕ) → Volume S → (cluster : ℕ) → (bytes : ℕ → S) → (size : ℕ) → Option (Volume S)
  unfolding write_rounds
  write_fat_cluster_chain search v cluster bytes size =
      if ltb 512 size
      then elim (write_rounds search ((size - 1) / 512) v cluster bytes 0) [
        | none ↦ none
        | some (last, v') ↦ some (write_sector v' last (bytes ((size - 1) / 512)))
      ]
      else some (
          write_sector (record v { fat_table = set_fat_next_cluster v.fat_table cluster 4095 })
            cluster (bytes 0))
