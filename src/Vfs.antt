-- ===== src/Vfs.antt =====
-- The virtual file system of kernel/src/vfs.c: the nodes and the walk along a path. A node is known by
-- its address, 0 is NULL, and a name or a path is the list of its bytes before the terminating 0.
pub mod Path
pub mod Cache
pub mod Files
pub mod Tree
pub mod Populate
mod Tests
use efi_os.Prelude.{
  ℕ, zero, suc, ◌+◌, ◌-◌, ◌^◌, Bool, true, false, ◌&&◌, ◌||◌, not, Option, none, some, List, [],
  ◌∷◌, length, ltb, ◌==◌, if◌then◌else◌, bit_and, bit_or,
}
use efi_os.Prelude.Int.{ℤ, pos, ◌-ℤ◌}
use efi_os.Strings.{char_value}
use efi_os.SortedList.{SortedList, create_sorted_list}
use efi_os.CircularBuffer.{CircularBuffer}

abbrev pub vfs_root : ℕ
vfs_root = 1

abbrev pub vfs_mount : ℕ
vfs_mount = 2

abbrev pub vfs_directory : ℕ
vfs_directory = 4

abbrev pub vfs_file : ℕ
vfs_file = 8

abbrev pub vfs_pipe : ℕ
vfs_pipe = 16

abbrev pub vfs_volatile : ℕ
vfs_volatile = 32

-- The cache of a pipe is its buffer, that of a file the address of its bytes.
pub record VfsNode : Type 0 where
  pub name : List ℕ
  pub parent : ℕ
  pub flags : ℕ
  pub size : ℕ
  pub drive_id : ℕ
  pub location : ℕ
  pub block_size : ℕ
  pub data_cache : ℕ
  pub pipe_cache : CircularBuffer ℕ
  pub open_references : ℕ
  pub children : SortedList

abbrev pub Nodes : Type 0
Nodes = ℕ → VfsNode

abbrev pub set_node : Nodes → ℕ → VfsNode → Nodes
set_node nodes p n q = if q == p then n else nodes q

abbrev pub has_flag : VfsNode → ℕ → Bool
has_flag n flag = not (bit_and n.flags flag == 0)

-- `strcmp` of two names.
pub name_cmp : (first second : List ℕ) → ℤ
name_cmp [] [] = pos 0
name_cmp [] (b ∷ t) = pos 0 -ℤ char_value b
name_cmp (a ∷ s) [] = char_value a
name_cmp (a ∷ s) (b ∷ t) =
    let rest = name_cmp s t in if a == b then rest else char_value a -ℤ char_value b

pub cmp_vfs_node_by_filename : Nodes → (first second : ℕ) → ℤ
unfolding name_cmp
cmp_vfs_node_by_filename nodes first second = name_cmp (nodes first).name (nodes second).name

-- Whether `strcmp` of two names is 0.
same_text : (first second : List ℕ) → Bool
same_text [] [] = true
same_text [] (b ∷ t) = false
same_text (a ∷ s) [] = false
same_text (a ∷ s) (b ∷ t) = a == b && same_text s t

-- Whether `strcasecmp` of an entry's name and the name looked for is 0. The latter stands in a buffer
-- that is 0 behind it, where `0|32` is a blank: blanks at the end of an entry's name do not count.
same_name : (name filename : List ℕ) → Bool
same_name [] [] = true
same_name [] (b ∷ t) = false
same_name (a ∷ s) [] = bit_or a 32 == 32 && same_name s []
same_name (a ∷ s) (b ∷ t) = bit_or a 32 == bit_or b 32 && same_name s t

-- The loop over the children; `left` is what `i` lacks of their number.
find_child : (left : ℕ) → Nodes → SortedList → (filename : List ℕ) → (i : ℕ) → ℕ
unfolding same_name
find_child zero nodes children filename i = 0
find_child (suc left) nodes children filename i =
    let cur = children.data_cells i in
    let rest = find_child left nodes children filename (i + 1) in
    if same_name (nodes cur).name filename then cur else rest

pub vfs_get_single_entry_from_dir : Nodes → (dir : ℕ) → (filename : List ℕ) → ℕ
unfolding same_text find_child
vfs_get_single_entry_from_dir nodes dir filename =
    let d = nodes dir in
    if not (has_flag d vfs_directory)
    then 0
    else if same_text filename (b'.' ∷ [])
    then dir
    else if same_text filename (b'.' ∷ b'.' ∷ [])
    then d.parent
    else find_child d.children.size nodes d.children filename 0

-- `while(*f=='/') f++;`
abbrev skip_slashes : List ℕ → List ℕ
skip_slashes [] = []
skip_slashes (c ∷ f) = let rest = skip_slashes f in if c == b'/' then rest else c ∷ f

-- The bytes before the next `/`, and the text from it on where `strchr` finds one.
abbrev token : List ℕ → List ℕ × Option (List ℕ)
token [] = ([], none)
token (c ∷ f) =
    let (name, tok_end) = token f in if c == b'/' then ([], some (c ∷ f)) else (c ∷ name, tok_end)

-- What a round does with its token; `go` are the rounds behind it. `none` stands for a name that
-- overruns `cur_file_name` or makes `strncpy` run on; 0 is NULL.
follow :
    Nodes
    → (cur : ℕ) → List ℕ × Option (List ℕ)
    → (skip_final : Bool) → (go : ℕ → List ℕ → Option ℕ) → Option ℕ
unfolding vfs_get_single_entry_from_dir
follow nodes cur (name, none) skip_final go =
    if skip_final
    then some cur
    else if ltb (length name) 255
    then some (vfs_get_single_entry_from_dir nodes cur name)
    else none
follow nodes cur (name, some f') skip_final go =
    let next = vfs_get_single_entry_from_dir nodes cur name in
    let further = go next f' in
    if ltb (length name) 256 then (if next == 0 then some 0 else further) else none

-- `none` also stands for rounds that run out.
pub vfs_navigate_to :
    (rounds : ℕ) → Nodes → (cur : ℕ) → (f : List ℕ) → (skip_final : Bool) → Option ℕ
unfolding follow
vfs_navigate_to zero nodes cur f skip_final = none
vfs_navigate_to (suc rounds) nodes cur f skip_final =
    follow nodes cur (token (skip_slashes f)) skip_final
      (λ next f'. vfs_navigate_to rounds nodes next f' skip_final)
