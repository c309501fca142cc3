-- ===== src/Vfs/Cache.antt =====
-- Opening, closing, reading and writing of kernel/src/vfs.c, with krealloc of kernel/src/memory.c. The
-- caches lie in memory; an address that kmalloc gives is an argument, and so is what fat.c loads.
pub mod ReadWrite
use efi_os.Prelude.{
  ℕ, zero, suc, ◌+◌, ◌-◌, ◌*◌, ◌/◌, ◌%◌, ◌^◌, Bool, true, false, not, Option, none, some, List, [],
  ◌∷◌, length, ltb, ◌==◌, ◌>>=◌, if◌then◌else◌, min, add64, sub64, bit_or,
}
use efi_os.Memory.{Memory, store, memset, memcpy}
use efi_os.CircularBuffer.{CircularBuffer, cb_init, cb_push, cb_pop}
use efi_os.SortedList.{SortedList, create_sorted_list, sorted_list_insert}
use efi_os.Vfs.{
  VfsNode, Nodes, set_node, has_flag, vfs_root, vfs_mount, vfs_directory, vfs_file, vfs_pipe,
  vfs_volatile, cmp_vfs_node_by_filename, vfs_navigate_to,
}

-- The nodes, memory, the lengths of the heap's segments, and the arguments of the calls of `free`, the
-- last one first.
pub record Vfs : Type 0 where
  pub nodes : Nodes
  pub memory : Memory
  pub segment_len : ℕ → ℕ
  pub freed : List ℕ

abbrev pub put : Vfs → ℕ → VfsNode → Vfs
put v p n = record v { nodes = set_node v.nodes p n }

-- What the other parts give: the storage of a new pipe and the flag of its lock, and the address and
-- the memory of a loaded chain of clusters.
pub record Environment : Type 0 where
  pub pipe_storage : ℕ → ℕ
  pub expected_false : Bool
  pub load_fat_cluster_chain : Memory → (location : ℕ) → ℕ × Memory

-- A new root at the address `root`. Its name is `/`.
pub vfs_create_root : Vfs → (root : ℕ) → (cells : Memory) → (root_drive : ℕ) → Vfs
vfs_create_root v root cells root_drive = put v root (record (v.nodes root) {
  name = b'/' ∷ [];
  size = 0;
  flags = bit_or vfs_directory (bit_or vfs_mount vfs_root);
  drive_id = root_drive;
  children = create_sorted_list cells;
  parent = root;
})

-- A node into the children of `cur`; `none` if the search of the sorted list had no result.
insert_child : Vfs → (cur n : ℕ) → Option Vfs
insert_child v cur n =
    sorted_list_insert (cmp_vfs_node_by_filename v.nodes) (v.nodes cur).children n >>= λ children.
    some (put v cur (record (v.nodes cur) { children = children }))

pub vfs_insert_file :
    Vfs
    → (n cur : ℕ) → (filename : List ℕ) → (flags size drive_id location block_size : ℕ) → Option Vfs
unfolding insert_child
vfs_insert_file v n cur filename flags size drive_id location block_size =
    insert_child
      (put v n (record (v.nodes n) {
        name = filename;
        flags = flags;
        size = size;
        drive_id = drive_id;
        location = location;
        block_size = block_size;
        open_references = 0;
        parent = cur;
      }))
      cur n

-- `strrchr(filename,'/')`, and the text behind it.
abbrev final_name : List ℕ → List ℕ → List ℕ
final_name whole [] = whole
final_name whole (c ∷ f) = if c == b'/' then final_name f f else final_name whole f

-- The result is 0, or -1 where the directory is missing.
pub vfs_create_pipe : (rounds : ℕ) → Vfs → (n cur : ℕ) → (filename : List ℕ) → Option (ℕ × Vfs)
unfolding insert_child
vfs_create_pipe rounds v n cur filename = do
  dir ← vfs_navigate_to rounds v.nodes cur filename true
  if dir == 0
      then some (2 ^ 64 - 1, v)
      else insert_child
          (put v n (record (v.nodes n) {
            name = final_name filename filename;
            size = 0;
            flags = bit_or vfs_file (bit_or vfs_pipe vfs_volatile);
            open_references = 0;
            parent = dir;
          }))
          dir n
        >>= λ v'. some (0, v')

pub vfs_create_folder :
    (rounds : ℕ)
    → Vfs
    → (n cur : ℕ) → (cells : Memory) → (dirname : List ℕ) → (extra_flags : ℕ) → Option (ℕ × Vfs)
unfolding insert_child
vfs_create_folder rounds v n cur cells dirname extra_flags = do
  dir ← vfs_navigate_to rounds v.nodes cur dirname true
  if dir == 0
      then some (2 ^ 64 - 1, v)
      else insert_child
          (put v n (record (v.nodes n) {
            name = final_name dirname dirname;
            size = 0;
            flags = bit_or vfs_directory extra_flags;
            open_references = 0;
            parent = dir;
            children = create_sorted_list cells;
          }))
          dir n
        >>= λ v'. some (0, v')

-- The first reference loads the cache.
load_cache : Environment → Vfs → (cur : ℕ) → Vfs
load_cache env v cur =
    if has_flag (v.nodes cur) vfs_pipe
    then put v cur
        (record (v.nodes cur) { pipe_cache = cb_init env.pipe_storage 4096 env.expected_false })
    else (let (cache, memory) = env.load_fat_cluster_chain v.memory (v.nodes cur).location in
        put (record v { memory = memory }) cur (record (v.nodes cur) { data_cache = cache }))

-- One more reference.
refer : Environment → Vfs → (cur : ℕ) → Vfs
unfolding load_cache
refer env v cur =
    let v' = if (v.nodes cur).open_references == 0 then load_cache env v cur else v in
    put v' cur (record (v'.nodes cur) { open_references = add64 (v'.nodes cur).open_references 1 })

-- A path that leads nowhere is followed through NULL: `none`.
pub vfs_open : (rounds : ℕ) → Environment → Vfs → (cur : ℕ) → (filepath : List ℕ) → Option (ℕ × Vfs)
unfolding refer
vfs_open rounds env v cur filepath = do
  file ← vfs_navigate_to rounds v.nodes cur filepath false
  if file == 0 then none else some (file, refer env v file)

pub vfs_close : Vfs → (file : ℕ) → Vfs
vfs_close v file =
    let n = v.nodes file in
    let less = put v file (record n { open_references = n.open_references - 1 }) in
    if n.open_references == 0
    then v
    else if n.open_references - 1 == 0
    then record less { freed = n.data_cache ∷ v.freed }
    else less

-- `loc` is the address of the new segment.
pub krealloc : Vfs → (loc adr size : ℕ) → Vfs
krealloc v loc adr size =
    let cleared = memset v.memory loc 0 size in
    record v {
      memory = memcpy cleared loc adr (min size (v.segment_len adr));
      segment_len = λ a. if a == loc then size else v.segment_len a;
      freed = adr ∷ v.freed;
    }

abbrev pub round_4K : ℕ → ℕ
round_4K x = add64 x 4095 / 4096 * 4096

-- The number of bytes, and the memory with them at `buf`.
pub vfs_file_read : Vfs → (file buf offset count : ℕ) → ℕ × Memory
vfs_file_read v file buf offset count =
    let n = v.nodes file in
    let count' = if ltb n.size (add64 offset count) then sub64 n.size offset else count in
    (count', memcpy v.memory buf (n.data_cache + offset) count')

-- One page more where the new end is behind the pages of the old size.
grow_cache : Vfs → (file loc offset count : ℕ) → Vfs
unfolding krealloc
grow_cache v file loc offset count =
    let n = v.nodes file in
    if ltb (round_4K n.size) (add64 offset count)
    then (let v' = krealloc v loc n.data_cache (round_4K n.size + 4096) in
        if loc == 0 then v' else put v' file (record n { data_cache = loc }))
    else v

pub vfs_file_write : Vfs → (file loc buf offset count : ℕ) → ℕ × Vfs
unfolding grow_cache
vfs_file_write v file loc buf offset count =
    let v1 = grow_cache v file loc offset count in
    let n = v1.nodes file in
    let n' =
      if ltb n.size (add64 offset count) then record n { size = add64 offset count } else n in
    (
      count,
      record (put v1 file n') { memory = memcpy v1.memory (n'.data_cache + offset) buf count },
    )

-- A pipe takes bytes as long as it has room, within `attempts` at its lock.
pub vfs_pipe_write : (attempts : ℕ) → Vfs → (file : ℕ) → List ℕ → Option (ℕ × Vfs)
vfs_pipe_write attempts v file bytes =
    let n = v.nodes file in
    do
      (pushed, cb) ← cb_push attempts n.pipe_cache bytes
      some (pushed, put v file (record n { pipe_cache = cb }))

-- The `count` bytes from an address on, and bytes stored from one on.
abbrev bytes_at : Memory → (buf count : ℕ) → List ℕ
bytes_at m buf zero = []
bytes_at m buf (suc count) = m buf ∷ bytes_at m (buf + 1) count

abbrev store_bytes : Memory → (buf : ℕ) → List ℕ → Memory
store_bytes m buf [] = m
store_bytes m buf (b ∷ bytes) = store_bytes (store m buf b) (buf + 1) bytes

pub vfs_pipe_read : (attempts : ℕ) → Vfs → (file buf count : ℕ) → Option (ℕ × Vfs)
vfs_pipe_read attempts v file buf count =
    let n = v.nodes file in
    do
      (bytes, cb) ← cb_pop attempts n.pipe_cache count
      some (
        length bytes,
        record (put v file (record n { pipe_cache = cb })) {
          memory = store_bytes v.memory buf bytes;
        },
      )

-- A node that is neither a pipe nor a file gives -1.
pub vfs_read : (attempts : ℕ) → Vfs → (file buf offset count : ℕ) → Option (ℕ × Vfs)
unfolding vfs_pipe_read vfs_file_read
vfs_read attempts v file buf offset count =
    let (read, memory) = vfs_file_read v file buf offset count in
    if has_flag (v.nodes file) vfs_pipe
    then vfs_pipe_read attempts v file buf count
    else if has_flag (v.nodes file) vfs_file
    then some (read, record v { memory = memory })
    else some (2 ^ 64 - 1, v)

pub vfs_write : (attempts : ℕ) → Vfs → (file loc buf offset count : ℕ) → Option (ℕ × Vfs)
unfolding vfs_pipe_write vfs_file_write
vfs_write attempts v file loc buf offset count =
    if has_flag (v.nodes file) vfs_pipe
    then vfs_pipe_write attempts v file (bytes_at v.memory buf count)
    else if has_flag (v.nodes file) vfs_file
    then some (vfs_file_write v file loc buf offset count)
    else some (2 ^ 64 - 1, v)
