-- ===== src/Fat/Tests.antt =====
-- The FAT12 driver at concrete inputs: a floppy disk's geometry and a table whose cluster 2 is the end
-- of a chain.
use efi_os.Prelude.{
  ℕ, refl, ◌+◌, ◌^◌, ◌<◌, ◌≡◌, ◌≢◌, some, [], ◌∷◌, arith, ltb, ◌==◌, if◌then◌else◌,
}
use efi_os.Fat.{
  BootSector, Volume, load_chain, get_fat_next_cluster, set_fat_next_cluster,
  get_first_free_cluster, write_fat_cluster_chain, ident_fat, get_first_data_sector,
  get_total_clusters, get_data_sectors, get_root_dir_sectors, get_fat_size, get_total_sectors,
}
use efi_os.Fat.Table.{IsBytes, get-set_fat_next_cluster}
use efi_os.Fat.Free.{get_first_free_cluster-first}
use efi_os.Fat.Extend.{IsTable}
use efi_os.Fat.Rounds.{IsSupported}
use efi_os.Fat.Offset.{
  load_fat_cluster_chain, read_cluster_chain_from_offset,
  read_cluster_chain_from_offset-load_fat_cluster_chain,
}
use efi_os.Fat.Write.{Stored, write_fat_cluster_chain-Stored}

abbrev floppy : BootSector
floppy = record {
  bytes_per_sector = 512;
  sectors_per_cluster = 1;
  reserved_sector_count = 1;
  table_count = 2;
  root_entry_count = 224;
  total_sectors_16 = 2880;
  table_size_16 = 9;
  total_sectors_32 = 0;
}

-- A floppy disk is FAT12, and its data begins at sector 33.
floppy-geometry : (ident_fat floppy ≡ 1) × (get_first_data_sector floppy ≡ 33)
unfolding ident_fat get_first_data_sector get_total_clusters get_data_sectors get_root_dir_sectors
    get_fat_size get_total_sectors
floppy-geometry = (refl, refl)

abbrev table : ℕ → ℕ
table x = if x == 0 then 240 else if ltb x 4 then 255 else if x == 4 then 15 else 0

table-IsBytes : IsBytes table
table-IsBytes x = ground arith

get-set_fat_next_cluster_example :
    (get_fat_next_cluster (set_fat_next_cluster table 2 3) 1 ≡ get_fat_next_cluster table 1)
    × IsBytes (set_fat_next_cluster table 2 3)
get-set_fat_next_cluster_example =
    get-set_fat_next_cluster table 2 3 1 table-IsBytes (omega arith) (omega arith) (omega arith)

get_first_free_cluster-first_example :
    (m : ℕ) × (t' : ℕ → ℕ) × (get_first_free_cluster 8 table ≡ some (m, t'))
    × (m < 8)
    × (get_fat_next_cluster table m ≡ 0)
    × ((x : ℕ) → x < m → get_fat_next_cluster table x ≢ 0)
    × IsBytes t'
    × ((d : ℕ)
        → d < 2 ^ 32
        → get_fat_next_cluster t' d ≡ (if d == m then 4095 else get_fat_next_cluster table d))
unfolding get_fat_next_cluster
get_first_free_cluster-first_example =
    get_first_free_cluster-first 8 table table-IsBytes (omega arith) (omega arith)

abbrev volume : Volume ℕ
volume = record { fat_table = table; disk = λ x. 0 }

table-IsTable : IsTable 8 1 table
unfolding get_fat_next_cluster
table-IsTable = record {
  bytes = table-IsBytes;
  few = omega arith;
  first_used = omega arith;
  second_used = omega arith;
  room = omega arith;
}

floppy-IsSupported : IsSupported floppy
unfolding get_first_data_sector
floppy-IsSupported = record { one_sector = refl; range = omega arith }

write_fat_cluster_chain-Stored_example :
    (w : Volume ℕ) × (write_fat_cluster_chain floppy 8 volume 2 (λ k. k + 5) 600 ≡ some w)
    × Stored floppy 8 floppy-IsSupported volume 2 (λ k. k + 5) 2 w
unfolding get_fat_next_cluster
write_fat_cluster_chain-Stored_example =
    write_fat_cluster_chain-Stored floppy 8 floppy-IsSupported volume 2 (λ (k : ℕ). k + 5) 600
      table-IsTable (omega arith) (omega arith) refl

-- Clusters 2 and 3 are a chain.
abbrev two_clusters : Volume ℕ
two_clusters = record {
  fat_table = λ x. if x == 3 then 3 else if x == 4 then 0xf0 else 255;
  disk = λ x. x + 100;
}

two_clusters-loaded : load_fat_cluster_chain floppy 3 two_clusters [] 2 ≡ some (133 ∷ 134 ∷ [])
unfolding load_fat_cluster_chain load_chain
two_clusters-loaded = refl

read_cluster_chain_from_offset-load_fat_cluster_chain_example :
    read_cluster_chain_from_offset floppy two_clusters 2 1 4 ≡ 134 ∷ []
read_cluster_chain_from_offset-load_fat_cluster_chain_example =
    read_cluster_chain_from_offset-load_fat_cluster_chain floppy 1 4 3 two_clusters [] 2
      (133 ∷ 134 ∷ []) (omega arith) (omega arith) two_clusters-loaded (omega arith)
