-- ===== src/Frames/Count.antt =====
-- The invariant of the page frames of kernel/src/paging.c: the counts agree with the map of frames,
-- and no frame below `page_index` is free.
use efi_os.Prelude.{
  ℕ, zero, suc, refl, inl, inr, Bool-cases, ◌+◌, ◌*◌, ◌%◌, ◌^◌, ◌<◌, ◌≤◌, ◌≡◌, Bool, true, false,
  arith, ◌==◌, if◌then◌else◌, add64,
}
use efi_os.Frames.{Frames, mark}

-- The number of frames below `n` that are in use.
abbrev pub used_below : (ℕ → Bool) → ℕ → ℕ
used_below used zero = 0
used_below used (suc n) = used_below used n + (if used n then 1 else 0)

pub used_below-mark_above :
    (used : ℕ → Bool) (page : ℕ) (b : Bool) (n : ℕ)
    → n ≤ page
    → used_below (mark used page b) n ≡ used_below used n
used_below-mark_above used page b zero h = refl
used_below-mark_above used page b (suc n) h =
    ground (arith, used_below-mark_above used page b n (omega arith))

-- A frame that becomes used counts once more, and one that becomes free once less.
pub used_below-take :
    (used : ℕ → Bool) (page n : ℕ)
    → page < n
    → used page ≡ false
    → used_below (mark used page true) n ≡ used_below used n + 1
used_below-take used page zero h e = elim h [ ]
used_below-take used page (suc n) h e = elim (Bool-cases (page == n)) [
  | inl here ↦ ground (arith, used_below-mark_above used page true n (ground arith))
  | inr before ↦ ground (arith, used_below-take used page n (ground arith) e)
]

pub used_below-release :
    (used : ℕ → Bool) (page n : ℕ)
    → page < n
    → used page ≡ true
    → used_below used n ≡ used_below (mark used page false) n + 1
used_below-release used page zero h e = elim h [ ]
used_below-release used page (suc n) h e = elim (Bool-cases (page == n)) [
  | inl here ↦ ground (arith, used_below-mark_above used page false n (ground arith))
  | inr before ↦ ground (arith, used_below-release used page n (ground arith) e)
]

-- `memory` is the memory that the counts were made from.
pub record IsValid (memory : ℕ) (f : Frames) : Type 0 where
  pub free_range : f.free_memory < 2 ^ 64
  pub taken_range :
      add64 f.used_memory f.reserved_memory ≡ 4096 * used_below f.pages_used f.total_pages % 2 ^ 64
  pub all_memory :
      (f.free_memory + 4096 * used_below f.pages_used f.total_pages) % 2 ^ 64 ≡ memory % 2 ^ 64
  pub none_below : (x : ℕ) → x < f.page_index → x < f.total_pages → f.pages_used x ≡ true
