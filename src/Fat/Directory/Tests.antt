-- ===== src/Fat/Directory/Tests.antt =====
-- Runs of the directory functions of kernel/src/fat.c.
use efi_os.Prelude.{ℕ, refl, ◌-◌, ◌/◌, ◌≡◌, some, List, [], ◌∷◌, ◌==◌, if◌then◌else◌, get_or}
use efi_os.Memory.{Memory}
use efi_os.Prelude.Int.{◌-ℤ◌}
use efi_os.Strings.{strcasecmp}
use efi_os.Fat.Directory.{read_f12_entry_name, get_entry_from_directory, get_file_base_cluster}
use mathlib.Core.Option.{map}

-- A directory at 64 with the file `A.TXT`, whose first cluster is 5, and nothing behind it; the name
-- `a.txt` at 256, another one at 320.
abbrev entry : List ℕ
entry =
    b'A' ∷ b' ' ∷ b' ' ∷ b' ' ∷ b' ' ∷ b' ' ∷ b' ' ∷ b' ' ∷ b'T' ∷ b'X' ∷ b'T' ∷ 32 ∷ 0 ∷ 0 ∷ 0 ∷ 0
    ∷ 0 ∷ 0 ∷ 0 ∷ 0 ∷ 0 ∷ 0 ∷ 0 ∷ 0 ∷ 0 ∷ 0 ∷ 5 ∷ []

abbrev name : List ℕ
name = b'a' ∷ b'.' ∷ b't' ∷ b'x' ∷ b't' ∷ []

abbrev volume : Memory
volume x =
    if x / 64 == 1
    then get_or entry (x - 64) 0
    else if x / 64 == 4
    then get_or name (x - 256) 0
    else if x == 320
    then b'b'
    else 0

short_name : read_f12_entry_name volume 1000 64 1001 ≡ b'.'
unfolding read_f12_entry_name
short_name = refl

-- The case of the letters does not count.
entry_found : map (λ r. r.0) (get_entry_from_directory 3 8 volume 64 1000 256) ≡ some 64
unfolding get_entry_from_directory strcasecmp ◌-ℤ◌ read_f12_entry_name
entry_found = refl

-- A name that is not in the directory gives its last entry.
entry_missing : map (λ r. r.0) (get_entry_from_directory 3 8 volume 64 1000 320) ≡ some 64
unfolding get_entry_from_directory strcasecmp ◌-ℤ◌ read_f12_entry_name
entry_missing = refl

cluster_of_path :
    map (λ r. r.0) (get_file_base_cluster 3 8 (λ m c. (64, m)) volume 64 1000 (256 ∷ [])) ≡ some 5
unfolding get_file_base_cluster strcasecmp ◌-ℤ◌ read_f12_entry_name get_entry_from_directory
cluster_of_path = refl
