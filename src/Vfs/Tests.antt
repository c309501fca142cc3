-- ===== src/Vfs/Tests.antt =====
-- A root directory with the directory `dev` and in it the file `tty`, which is open.
use efi_os.Prelude.{
  ℕ, refl, ◌<◌, ◌≡◌, ◌≢◌, true, false, some, List, [], ◌∷◌, arith, ◌==◌, if◌then◌else◌,
}
use efi_os.SortedList.{SortedList}
use efi_os.CircularBuffer.{cb_init}
use efi_os.Vfs.{VfsNode, Nodes, vfs_navigate_to}
use efi_os.Vfs.Path.{IsPath, last, slash, next, walk, but_last, vfs_navigate_to-walk}
use efi_os.Vfs.Cache.{Vfs}
use efi_os.Vfs.Files.{FileTable, find_entry, create_file_table_entry}
use efi_os.Vfs.Files.Table.{IsTable, number_at, create_file_table_entry-IsTable}
use efi_os.Vfs.Files.Calls.{Session}

abbrev children_of : ℕ → ℕ → SortedList
children_of size child = record { data_cells = λ i. child; size = size; capacity = 2 }

abbrev blank : VfsNode
blank = record {
  name = [];
  parent = 1;
  flags = 4;
  size = 0;
  drive_id = 0;
  location = 0;
  block_size = 512;
  data_cache = 0;
  pipe_cache = cb_init (λ i. 0) 1 false;
  open_references = 0;
  children = children_of 0 0;
}

abbrev dev : List ℕ
dev = b'd' ∷ b'e' ∷ b'v' ∷ []

abbrev tty : List ℕ
tty = b't' ∷ b't' ∷ b'y' ∷ []

abbrev nodes : Nodes
nodes p =
    if p == 1
    then record blank { name = b'/' ∷ []; children = children_of 1 2 }
    else if p == 2
    then record blank { name = dev; children = children_of 1 3 }
    else record blank {
      name = tty;
      parent = 2;
      flags = 8;
      size = 10;
      data_cache = 20000;
      open_references = 1;
    }

-- `/dev//tty` and its names.
abbrev path : List ℕ
path = b'/' ∷ b'd' ∷ b'e' ∷ b'v' ∷ b'/' ∷ b'/' ∷ tty

path-IsPath : IsPath path (dev ∷ tty ∷ [])
path-IsPath = slash (
    next {n = dev}
      (record { some_byte = omega arith; few = omega arith; no_slash = (cc, (cc, (cc, tt))) })
      (slash (
        last (record {
          some_byte = omega arith;
          few = omega arith;
          no_slash = (cc, (cc, (cc, tt)));
        }))))

vfs_navigate_to_runs : vfs_navigate_to 2 nodes 1 path false ≡ some 3
unfolding vfs_navigate_to
vfs_navigate_to_runs = refl

-- A path to the root alone, and a slash at the end, lead nowhere.
vfs_navigate_to_slash : vfs_navigate_to 2 nodes 1 (b'/' ∷ []) false ≡ some 0
unfolding vfs_navigate_to
vfs_navigate_to_slash = refl

vfs_navigate_to-walk_example :
    (vfs_navigate_to 2 nodes 1 path false ≡ some (walk nodes 1 (dev ∷ tty ∷ [])))
    × (vfs_navigate_to 2 nodes 1 path true ≡ some (walk nodes 1 (but_last (dev ∷ tty ∷ []))))
vfs_navigate_to-walk_example =
    vfs_navigate_to-walk 2 nodes 1 path (dev ∷ tty ∷ []) path-IsPath (omega arith)

abbrev disk : Vfs
disk = record { nodes = nodes; memory = λ x. x; segment_len = λ a. 4096; freed = [] }

-- Descriptor 0, at address 7, is at byte 5 of the file.
abbrev table : FileTable
table = record {
  entries = record { data_cells = λ i. 7; size = 1; capacity = 2 };
  next_id = 1;
  file_at = λ a. record { fd = 0; base = 3; seek_offset = 5 };
}

abbrev session : Session
session = record { vfs = disk; working_dir = 1; files = table }

table-IsTable : IsTable table
table-IsTable = record {
  list = record { sorted = λ i j lt less. omega arith; room = omega arith };
  once = λ i j less less' e. omega arith;
  below = λ i less. omega arith;
  range = omega arith;
}

create_file_table_entry-IsTable_example :
    (ft' : FileTable) × (create_file_table_entry table 8 2 ≡ some (1, ft'))
    × ((i : ℕ) → i < 1 → number_at table i ≢ 1)
    × IsTable ft'
    × (find_entry ft' 1 ≡ some 8)
    × (ft'.file_at 8 ≡ record { fd = 1; base = 2; seek_offset = 0 })
    × ((i : ℕ) → i < 1 → find_entry ft' (number_at table i) ≡ some (table.entries.data_cells i))
create_file_table_entry-IsTable_example =
    create_file_table_entry-IsTable table 8 2 table-IsTable (omega arith) (λ i less. omega arith)
