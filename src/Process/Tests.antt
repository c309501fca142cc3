-- ===== src/Process/Tests.antt =====
-- A program of one segment of two bytes.
use efi_os.Prelude.{refl, ◌+◌, ◌*◌, ◌≡◌, some, ◌==◌, if◌then◌else◌}
use efi_os.Memory.{Memory}
use efi_os.Process.{load_segments}
use mathlib.Core.Option.{map}

-- The file at 1000: its table of segments behind the header, at 64, of one entry of 56 bytes. The
-- segment stands at 120 in the file, and goes to 16 of the space.
abbrev file : Memory
file x =
    if x == 1032
    then 64
    else if x == 1054
    then 56
    else if x == 1056
    then 1
    else if x == 1064
    then 1
    else if x == 1072
    then 120
    else if x == 1088
    then 16
    else if x == 1096
    then 2
    else if x == 1120
    then 77
    else if x == 1121
    then 88
    else 0

load_segments_runs :
    map (λ m. m 5016 + 256 * m 5017) (load_segments 2 file 1000 5000) ≡ some (77 + 256 * 88)
unfolding load_segments
load_segments_runs = refl
