-- ===== src/Vfs/Populate.antt =====
-- The nodes of a volume: fat_populate_vfs_directory of kernel/src/fat.c makes the children of a
-- directory, vfs_recursive_populate of kernel/src/vfs.c those of the directories below.
use efi_os.Prelude.{
  ℕ, zero, suc, ◌+◌, ◌*◌, ◌^◌, Bool, false, ◌&&◌, ◌||◌, not, Option, none, some, List, [], ◌∷◌, ltb,
  ◌==◌, ◌>>=◌, if◌then◌else◌, bit_and,
}
use efi_os.Memory.{Memory, store}
use efi_os.Strings.{strlen, strcpy}
use efi_os.Strings.Split.{split_string_by_char, section_list}
use efi_os.Fat.{BootSector}
use efi_os.Fat.Offset.{get_cluster_chain_length}
use efi_os.Fat.Directory.{
  Scan, long_part, named_entry, is_equal, first_cluster, get_file_base_cluster,
}
use efi_os.Vfs.{name_cmp, has_flag, vfs_file, vfs_directory, vfs_volatile}
use efi_os.Vfs.Cache.{Vfs, vfs_insert_file, vfs_create_folder}
use efi_os.Vfs.Tree.{copy_name}

-- What is fixed while a volume is read: the addresses that kmalloc gives, of the nodes in turn, of the
-- sections of a path, of the path of a level; an empty array of children; the buffer for a name; the
-- volume, and what loads a chain of clusters to memory.
pub record Source : Type 0 where
  pub node_address : ℕ → ℕ
  pub sections : ℕ
  pub dir_address : (max_level : ℕ) → ℕ
  pub cells : Memory
  pub tmp_name : ℕ
  pub part : BootSector
  pub fat_table : ℕ → ℕ
  pub root_directory : ℕ
  pub load : Memory → (cluster : ℕ) → ℕ × Memory

-- `made` counts the nodes that were made.
pub record Populating : Type 0 where
  pub vfs : Vfs
  pub made : ℕ
  pub lfn_found : Bool

-- The text of a string, at most `left` bytes of it.
text_at : (left : ℕ) → Memory → (a : ℕ) → List ℕ
text_at zero m a = []
text_at (suc left) m a = let rest = text_at left m (a + 1) in if m a == 0 then [] else m a ∷ rest

-- The size of an entry.
abbrev entry_size : Memory → (entry : ℕ) → ℕ
entry_size m entry =
    m (entry + 28) + 256 * m (entry + 29) + 2 ^ 16 * m (entry + 30) + 2 ^ 24 * m (entry + 31)

abbrev fat12_directory : ℕ
fat12_directory = 0x10

abbrev scan_of : Populating → (entry : ℕ) → Scan
scan_of s entry = record { memory = s.vfs.memory; entry = entry; lfn_found = s.lfn_found }

abbrev scanned : Populating → Scan → Populating
scanned s c = record s { vfs = record s.vfs { memory = c.memory }; lfn_found = c.lfn_found }

-- A node for the entry at `entry` whose name is in the buffer.
populate_entry : (rounds : ℕ) → Source → Populating → (dir entry : ℕ) → Option Populating
unfolding text_at
populate_entry rounds source s dir entry =
    let m = s.vfs.memory in
    let name = text_at 256 m source.tmp_name in
    let n = source.node_address s.made in
    let folder = vfs_create_folder rounds s.vfs n dir source.cells name 0 >>= λ r.
    some (record s { vfs = r.1; made = s.made + 1 }) in
    let file =
      vfs_insert_file s.vfs n dir name vfs_file (entry_size m entry) 0 (first_cluster m entry) 512
      >>= λ v. some (record s { vfs = v; made = s.made + 1 }) in
    if is_equal (name_cmp name (b'.' ∷ [])) || is_equal (name_cmp name (b'.' ∷ b'.' ∷ []))
    then some s
    else if bit_and (m (entry + 11)) fat12_directory == 0
    then file
    else folder

-- The loop over the entries; `none` if the rounds run out.
populate_loop :
    (rounds : ℕ) → Source → Populating → (dir start_entry dir_size i : ℕ) → Option Populating
unfolding populate_entry
populate_loop zero source s dir start_entry dir_size i = none
populate_loop (suc rounds) source s dir start_entry dir_size i =
    let at = start_entry + i in
    let m = s.vfs.memory in
    let next =
      if m at == 0xe5
      then some s
      else if m (at + 11) == 0xf
      then some (scanned s (long_part (scan_of s at) source.tmp_name at))
      else populate_entry rounds source (scanned s (named_entry (scan_of s at) source.tmp_name at))
          dir at in
    let further = next >>= λ s'. populate_loop rounds source s' dir start_entry dir_size (i + 32) in
    if m at == 0 || not (ltb i (512 * dir_size)) then some s else further

-- `dir_path` is the address of the path. The root directory has 14 sectors whatever the volume says.
pub fat_populate_vfs_directory :
    (rounds : ℕ) → Source → Populating → (dir dir_path : ℕ) → Option Populating
unfolding populate_loop
fat_populate_vfs_directory rounds source s dir dir_path =
    let m = s.vfs.memory in
    let of_root =
      populate_loop rounds source (record s { lfn_found = false }) dir source.root_directory 14 0 in
    let of_path = (do
      (section_count, paths, m1) ← split_string_by_char rounds m dir_path b'/' source.sections
      (base_cluster, m2) ←
          get_file_base_cluster rounds rounds source.load m1 source.root_directory source.tmp_name
            (section_list section_count paths 0)
      let (start_entry, m3) = source.load m2 base_cluster
      dir_size ← get_cluster_chain_length rounds source.part source.fat_table base_cluster
      populate_loop rounds source
          (record s { vfs = record s.vfs { memory = m3 }; lfn_found = false }) dir start_entry
          dir_size 0) in
    if m dir_path == b'/' && m (dir_path + 1) == 0 then of_root else of_path

-- The path of a child: its name and a slash behind the `pathlen` bytes at `dir`.
child_path : (rounds : ℕ) → Memory → (dir pathlen : ℕ) → (name : List ℕ) → Option Memory
child_path rounds m dir pathlen name = do
  m1 ← copy_name m (dir + pathlen) name
  end ← strlen rounds m1 dir
  some (store (store m1 (dir + end) b'/') (dir + end + 1) 0)

-- The loop over the children of `root`; `populate` is the call for one of them.
children_loop :
    (rounds : ℕ)
    → (populate : Populating → (cur dir : ℕ) → Option Populating) → Populating
    → (root dir pathlen i : ℕ) → Option Populating
unfolding child_path
children_loop zero populate s root dir pathlen i = none
children_loop (suc rounds) populate s root dir pathlen i =
    let children = (s.vfs.nodes root).children in
    let cur = children.data_cells i in
    let n = s.vfs.nodes cur in
    let entered = child_path rounds s.vfs.memory dir pathlen n.name >>= λ m.
    populate (record s { vfs = record s.vfs { memory = m } }) cur dir in
    let next =
      if has_flag n vfs_directory && not (has_flag n vfs_volatile) then entered else some s in
    let further = next >>= λ s'. children_loop rounds populate s' root dir pathlen (i + 1) in
    if ltb i children.size then further else some s

pub vfs_recursive_populate :
    (rounds max_level : ℕ) → Source → Populating → (root path : ℕ) → Option Populating
unfolding fat_populate_vfs_directory children_loop
vfs_recursive_populate rounds zero source s root path =
    fat_populate_vfs_directory rounds source s root path
vfs_recursive_populate rounds (suc max_level) source s root path = do
  s1 ← fat_populate_vfs_directory rounds source s root path
  pathlen ← strlen rounds s1.vfs.memory path
  let dir = source.dir_address (suc max_level)
  m ← strcpy rounds s1.vfs.memory dir path
  children_loop rounds (λ s' cur d. vfs_recursive_populate rounds max_level source s' cur d)
      (record s1 { vfs = record s1.vfs { memory = m } }) root dir pathlen 0
