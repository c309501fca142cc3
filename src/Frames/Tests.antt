-- ===== src/Frames/Tests.antt =====
-- The page frames at concrete inputs.
use efi_os.Prelude.{ℕ, refl, ◌<◌, ◌≡◌, true, false, some, List, [], ◌∷◌, arith, ◌==◌, ◌||◌}
use efi_os.Frames.{Frames, request_page, lock_pages, reserve_pages, free_pages, unreserve_pages}
use efi_os.Frames.Count.{IsValid}
use efi_os.Frames.Request.{Requested, request_page-Requested}
use efi_os.Frames.Ranges.{Ranged, pages-Ranged}
use efi_os.Frames.Setup.{Descriptor, largest_segment, get_memory_size, init_frames}
use efi_os.Frames.Setup.Boot.{no_more, conventional, reserved, in_use, init_frames-IsValid}

-- Four frames, the first one used and the third one reserved.
abbrev four_frames : Frames
four_frames = record {
  free_memory = 8192;
  used_memory = 4096;
  reserved_memory = 4096;
  pages_used = λ x. x == 0 || x == 2;
  total_pages = 4;
  page_index = 1;
}

four_frames-IsValid : IsValid 16384 four_frames
four_frames-IsValid = record {
  free_range = omega arith;
  taken_range = refl;
  all_memory = refl;
  none_below = λ x lt lt'. ground arith;
}

request_page-Requested_example :
    IsValid 16384 (request_page four_frames).1 × Requested four_frames (request_page four_frames)
request_page-Requested_example =
    request_page-Requested 16384 four_frames four_frames-IsValid (omega arith)

pages-Ranged_example :
    Ranged true 16384 8192 2 four_frames (lock_pages four_frames 8192 2)
    × Ranged true 16384 8192 2 four_frames (reserve_pages four_frames 8192 2)
    × Ranged false 16384 8192 2 four_frames (free_pages four_frames 8192 2)
    × Ranged false 16384 8192 2 four_frames (unreserve_pages four_frames 8192 2)
pages-Ranged_example =
    pages-Ranged 16384 8192 2 four_frames
      (record { offsets = omega arith; addresses = omega arith; frames = omega arith })
      four_frames-IsValid

-- A machine with 2 MiB of conventional memory and eight frames of the firmware's.
abbrev conventional_memory : Descriptor
conventional_memory = record {
  descriptor_type = 7;
  physical_start = 1048576;
  number_of_pages = 512;
}

abbrev firmware_code : Descriptor
firmware_code = record { descriptor_type = 6; physical_start = 0; number_of_pages = 8 }

abbrev memory_map : List Descriptor
memory_map = firmware_code ∷ conventional_memory ∷ []

abbrev before_start : Frames
before_start = record {
  free_memory = 0;
  used_memory = 0;
  reserved_memory = 0;
  pages_used = λ x. true;
  total_pages = 0;
  page_index = 0;
}

init_frames-IsValid_example :
    (g : Frames) × (init_frames before_start 1200128 16 memory_map ≡ some g)
    × IsValid 2129920 g
    × ((x : ℕ) → x < 521 → g.pages_used x ≡ in_use 1048576 521 1200128 16 memory_map x)
unfolding get_memory_size largest_segment
init_frames-IsValid_example =
    init_frames-IsValid before_start 1200128 16 memory_map conventional_memory refl refl refl refl
      (record { offsets = omega arith; addresses = omega arith; frames = omega arith })
      (record { offsets = omega arith; addresses = omega arith; frames = omega arith })
      (reserved refl
        (record { offsets = omega arith; addresses = omega arith; frames = omega arith })
        (conventional refl no_more))
      (record { offsets = omega arith; addresses = omega arith; frames = omega arith })
