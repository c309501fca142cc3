-- ===== src/Fat/Directory.antt =====
-- Directories, kernel/src/fat.c: entries of 32 bytes in memory, short and long names, looking an entry
-- up and making one. `tmp_name` is the address of the buffer for a name, 0 is NULL.
mod Tests
use efi_os.Prelude.{
  ℕ, zero, suc, ◌+◌, ◌-◌, ◌*◌, ◌%◌, ◌^◌, Bool, true, false, ◌&&◌, not, Option, none, some, List, [],
  ◌∷◌, ltb, ◌==◌, ◌>>=◌, if◌then◌else◌, bit_and, bit_or, sub32,
}
use efi_os.Prelude.Int.{ℤ, pos, negsuc}
use efi_os.Memory.{Memory, store, memset, memcpy}
use efi_os.Strings.{strcasecmp}

-- The lowest bytes of `left` characters of 16 bits.
copy_characters : (left : ℕ) → Memory → (buf characters i : ℕ) → Memory
copy_characters zero m buf characters i = m
copy_characters (suc left) m buf characters i =
    copy_characters left (store m (buf + i) (m (characters + 2 * i))) buf characters (i + 1)

-- The characters stand at 1, 14 and 28 of the entry.
pub read_lfn_entry_name : Memory → (buf lfn : ℕ) → Memory
unfolding copy_characters
read_lfn_entry_name m buf lfn =
    let m1 = copy_characters 5 m buf (lfn + 1) 0 in
    let m2 = copy_characters 6 m1 (buf + 5) (lfn + 14) 0 in
    copy_characters 2 m2 (buf + 11) (lfn + 28) 0

-- `(uint32_t)c|32` of a `char`, which is signed.
abbrev is_alpha : ℕ → Bool
is_alpha c = ltb (sub32 (bit_or (if ltb c 128 then c else 2 ^ 32 - 256 + c) 32) b'a') 26

-- `left` is what `i` lacks of 11; the result is the index behind the name.
name_loop : (left : ℕ) → Memory → (buf entry i index : ℕ) → ℕ × Memory
name_loop zero m buf entry i index = (index, m)
name_loop (suc left) m buf entry i index =
    let one : ℕ × Memory =
      if m (entry + i) == b' '
      then (index, m)
      else (index + 1, store m (buf + index) (m (entry + i))) in
    let two : ℕ × Memory =
      if i == 7 && is_alpha (one.1 (entry + 8))
      then (one.0 + 1, store one.1 (buf + one.0) b'.')
      else one in
    name_loop left two.1 buf entry (i + 1) two.0

pub read_f12_entry_name : Memory → (buf entry : ℕ) → Memory
unfolding name_loop
read_f12_entry_name m buf entry =
    let (index, m') = name_loop 11 m buf entry 0 0 in store m' (buf + index) 0

-- The variables of the loops over a directory.
pub record Scan : Type 0 where
  pub memory : Memory
  pub entry : ℕ
  pub lfn_found : Bool

-- A part of a long name, to its place in the buffer; an order of 0 stands before the buffer, and is
-- out of the model.
pub long_part : Scan → (tmp_name at : ℕ) → Scan
long_part s tmp_name at =
    let m = if s.lfn_found then s.memory else memset s.memory tmp_name 0 256 in
    let loc = bit_and (m at) 0x1f - 1 in
    record s { memory = read_lfn_entry_name m (tmp_name + 13 * loc) at; lfn_found = true }

-- Any other entry becomes the last one seen, with its name in the buffer.
pub named_entry : Scan → (tmp_name at : ℕ) → Scan
named_entry s tmp_name at = record s {
  memory = if s.lfn_found then s.memory else read_f12_entry_name s.memory tmp_name at;
  entry = at;
  lfn_found = false;
}

abbrev pub is_equal : ℤ → Bool
is_equal (pos n) = n == 0
is_equal (negsuc n) = 0 == 1

-- `none` if the rounds of a loop run out; a name is compared in as many rounds as `compares`.
directory_loop : (rounds compares : ℕ) → Scan → (tmp_name name at : ℕ) → Option Scan
unfolding long_part named_entry
directory_loop zero compares s tmp_name name at = none
directory_loop (suc rounds) compares s tmp_name name at =
    let seen = named_entry s tmp_name at in
    let next =
      if s.memory at == 0xe5
      then s
      else if s.memory (at + 11) == 0xf
      then long_part s tmp_name at
      else seen in
    let further = directory_loop rounds compares next tmp_name name (at + 32) in
    if s.memory at == 0
    then some s
    else if s.memory at == 0xe5
    then further
    else if s.memory (at + 11) == 0xf
    then further
    else (strcasecmp compares seen.memory tmp_name name >>= λ order.
        if is_equal order then some seen else further)

-- The entry, and the memory with the buffer. Behind the last entry it is the last one.
pub get_entry_from_directory :
    (rounds compares : ℕ) → Memory → (start_entry tmp_name name : ℕ) → Option (ℕ × Memory)
unfolding directory_loop
get_entry_from_directory rounds compares m start_entry tmp_name name =
    directory_loop rounds compares (record { memory = m; entry = 0; lfn_found = false }) tmp_name
      name start_entry
    >>= λ s. some (s.entry, s.memory)

-- `left` is the number of entries of the sector that are left.
create_loop : (left compares : ℕ) → Scan → (tmp_long tmp_name name at : ℕ) → Option Scan
unfolding long_part named_entry
create_loop zero compares s tmp_long tmp_name name at = some s
create_loop (suc left) compares s tmp_long tmp_name name at =
    let seen = named_entry s tmp_name at in
    let next =
      if s.memory at == 0xe5
      then s
      else if s.memory (at + 11) == 0xf
      then long_part s tmp_long at
      else seen in
    let further = create_loop left compares next tmp_long tmp_name name (at + 32) in
    if s.memory at == 0xe5
    then further
    else if s.memory (at + 11) == 0xf
    then further
    else if s.memory at == 0
    then some (record s { memory = memset s.memory s.entry 0 32 })
    else (strcasecmp compares seen.memory tmp_name name >>= λ order.
        if is_equal order then some seen else further)

-- At a blank entry it is the one before that is cleared and given.
pub create_entry_in_directory :
    (compares : ℕ) → Memory → (start_entry tmp_long tmp_name name : ℕ) → Option (ℕ × Memory)
unfolding create_loop
create_entry_in_directory compares m start_entry tmp_long tmp_name name =
    create_loop 16 compares (record { memory = m; entry = 0; lfn_found = false }) tmp_long tmp_name
      name start_entry
    >>= λ s. some (s.entry, s.memory)

-- `first_cluster_low_16` of an entry.
abbrev pub first_cluster : Memory → (entry : ℕ) → ℕ
first_cluster m entry = m (entry + 26) + 256 * m (entry + 27)

-- The names behind the first one; `load` gives the address of a loaded chain and the memory.
path_loop :
    (rounds compares : ℕ)
    → (load : Memory → ℕ → ℕ × Memory) → Memory
    → (tmp_name cluster : ℕ) → List ℕ
    → Option (ℕ × Memory)
path_loop rounds compares load m tmp_name cluster [] = some (cluster, m)
path_loop rounds compares load m tmp_name cluster (path ∷ paths) =
    let (cur_dir, m1) = load m cluster in
    let entered = get_entry_from_directory rounds compares m1 cur_dir tmp_name path >>= λ r.
    path_loop rounds compares load r.1 tmp_name (first_cluster r.1 r.0) paths in
    let further = path_loop rounds compares load m tmp_name cluster paths in
    if m path == 0 then further else entered

-- `paths` is the result of `split_string_by_char`, which has at least one name. `strcasecmp` with the
-- empty string is 0 just for that.
pub get_file_base_cluster :
    (rounds compares : ℕ)
    → (load : Memory → ℕ → ℕ × Memory) → Memory
    → (root_directory tmp_name : ℕ) → List ℕ
    → Option (ℕ × Memory)
unfolding path_loop
get_file_base_cluster rounds compares load m root_directory tmp_name [] = none
get_file_base_cluster rounds compares load m root_directory tmp_name (path ∷ paths) =
    get_entry_from_directory rounds compares m root_directory tmp_name path >>= λ r.
    path_loop rounds compares load r.1 tmp_name (first_cluster r.1 r.0) paths
