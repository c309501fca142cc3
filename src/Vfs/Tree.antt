-- ===== src/Vfs/Tree.antt =====
-- The tree of kernel/src/vfs.c as a whole: freeing it, and the path of a node, for getcwd of
-- kernel/src/filesystem.c. A tree deeper than the rounds gives `none`.
use efi_os.Prelude.{
  ℕ, zero, suc, ◌+◌, ◌-◌, not, Option, none, some, List, [], ◌∷◌, length, ltb, ◌>>=◌, if◌then◌else◌,
}
use efi_os.Memory.{Memory, store, memset}
use efi_os.SortedList.{SortedList}
use efi_os.Vfs.{Nodes, has_flag, vfs_root, vfs_directory}

-- What is given to `free`, the last one first; the list of a directory's children stands by the directory's address.
pub data Freed : Type 0 where
  node_at : (address : ℕ) → Freed
  list_of : (address : ℕ) → Freed

-- The loop over the children, `left` of them; `go` frees one.
free_children :
    (go : ℕ → List Freed → Option (List Freed))
    → (left : ℕ) → SortedList
    → (i : ℕ) → List Freed
    → Option (List Freed)
free_children go zero children i freed = some freed
free_children go (suc left) children i freed =
    go (children.data_cells i) freed >>= λ f. free_children go left children (i + 1) f

pub vfs_free : (rounds : ℕ) → Nodes → (root : ℕ) → List Freed → Option (List Freed)
unfolding free_children
vfs_free zero nodes root freed = none
vfs_free (suc rounds) nodes root freed =
    let children = (nodes root).children in
    let inner = free_children (vfs_free rounds nodes) children.size children 0 freed in
    if has_flag (nodes root) vfs_directory
    then (inner >>= λ f. some (node_at root ∷ list_of root ∷ f))
    else some (node_at root ∷ freed)

-- `strncpy(dest,name,256)` of a name: its bytes, then zeros up to the 255th. `none` for a name of 255
-- bytes, where the padding does not end.
abbrev store_text : Memory → (dest : ℕ) → List ℕ → Memory
store_text m dest [] = m
store_text m dest (c ∷ name) = store_text (store m dest c) (dest + 1) name

pub copy_name : Memory → (dest : ℕ) → (name : List ℕ) → Option Memory
copy_name m dest name =
    if ltb (length name) 255
    then some (memset (store_text m dest name) (dest + length name) 0 (255 - length name))
    else none

-- The length of the path, and the memory with it. A name that does not fit is counted and not written.
pub vfs_get_full_filepath :
    (rounds : ℕ) → Nodes → Memory → (node buf max_size : ℕ) → Option (ℕ × Memory)
unfolding copy_name
vfs_get_full_filepath zero nodes m node buf max_size = none
vfs_get_full_filepath (suc rounds) nodes m node buf max_size =
    let n = nodes node in
    let above = vfs_get_full_filepath rounds nodes m n.parent buf max_size in
    if has_flag n vfs_root then some (1, store (store m buf b'/') (buf + 1) 0) else (do
      (index, m1) ← above
      if not (ltb (index + 1 + length n.name) max_size)
          then some (index + length n.name, m1)
          else if has_flag (nodes n.parent) vfs_root
          then (copy_name m1 (buf + index) n.name >>= λ m2. some (index + length n.name, m2))
          else (copy_name (store m1 (buf + index) b'/') (buf + index + 1) n.name >>= λ m2.
              some (index + 1 + length n.name, m2)))

-- The result is `buf`: the length is never -1.
pub getcwd : (rounds : ℕ) → Nodes → Memory → (working_dir buf size : ℕ) → Option (ℕ × Memory)
unfolding vfs_get_full_filepath
getcwd rounds nodes m working_dir buf size =
    vfs_get_full_filepath rounds nodes m working_dir buf size >>= λ r. some (buf, r.1)
