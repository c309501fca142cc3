-- ===== src/Frames/Single.antt =====
-- The calls of kernel/src/paging.c on one frame: LOCK_PAGE, FREE_PAGE, RESERVE_PAGE, UNRESERVE_PAGE.
use efi_os.Prelude.{
  ℕ, inl, inr, Bool-cases, ◌+◌, ◌/◌, ◌<◌, ◌≡◌, true, false, arith, add64, sub64, min,
}
use efi_os.Frames.{Frames, mark, lock_page, free_page, reserve_page, unreserve_page}
use efi_os.Frames.Count.{IsValid, used_below-take, used_below-release}

-- A free frame that is taken, whichever of the two counts gets its bytes.
took :
    (memory : ℕ) (f : Frames) (page used reserved : ℕ)
    → IsValid memory f
    → page < f.total_pages
    → f.pages_used page ≡ false
    → add64 used reserved ≡ add64 (f.used_memory + 4096) f.reserved_memory
    → IsValid memory (record f {
      pages_used = mark f.pages_used page true;
      free_memory = sub64 f.free_memory 4096;
      used_memory = used;
      reserved_memory = reserved;
    })
took memory f page used reserved v inside e sum = record {
  free_range = omega arith;
  taken_range =
      omega (arith, sum, v.taken_range, used_below-take f.pages_used page f.total_pages inside e);
  all_memory =
      omega (
        arith,
        v.all_memory,
        v.free_range,
        used_below-take f.pages_used page f.total_pages inside e,
      );
  none_below = λ x lt lt'. ground (arith, v.none_below x lt lt');
}

-- A frame in use that is given back.
gave :
    (memory : ℕ) (f : Frames) (page used reserved : ℕ)
    → IsValid memory f
    → page < f.total_pages
    → f.pages_used page ≡ true
    → add64 (used + 4096) reserved ≡ add64 f.used_memory f.reserved_memory
    → IsValid memory (record f {
      pages_used = mark f.pages_used page false;
      free_memory = add64 f.free_memory 4096;
      used_memory = used;
      reserved_memory = reserved;
      page_index = min f.page_index page;
    })
gave memory f page used reserved v inside e sum = record {
  free_range = omega arith;
  taken_range =
      omega
        (arith, sum, v.taken_range, used_below-release f.pages_used page f.total_pages inside e);
  all_memory = omega (
    arith,
    v.all_memory,
    v.free_range,
    used_below-release f.pages_used page f.total_pages inside e,
  );
  none_below = λ x lt lt'. ground (arith, v.none_below x (omega arith) lt');
}

module _ (memory : ℕ) (f : Frames) (adr : ℕ) (v : IsValid memory f)
    (inside : adr / 4096 < f.total_pages) where
  pub lock_page-IsValid : IsValid memory (lock_page f adr)
  unfolding lock_page
  lock_page-IsValid = elim (Bool-cases (f.pages_used (adr / 4096))) [
    | inl e ↦ rw e v
    | inr e ↦ rw e (
        took memory f (adr / 4096) (add64 f.used_memory 4096) f.reserved_memory v inside e
          (omega arith))
  ]

  pub reserve_page-IsValid : IsValid memory (reserve_page f adr)
  unfolding reserve_page
  reserve_page-IsValid = elim (Bool-cases (f.pages_used (adr / 4096))) [
    | inl e ↦ rw e v
    | inr e ↦ rw e (
        took memory f (adr / 4096) f.used_memory (add64 f.reserved_memory 4096) v inside e
          (omega arith))
  ]

  pub free_page-IsValid : IsValid memory (free_page f adr)
  unfolding free_page
  free_page-IsValid = elim (Bool-cases (f.pages_used (adr / 4096))) [
    | inl e ↦ rw e (
        gave memory f (adr / 4096) (sub64 f.used_memory 4096) f.reserved_memory v inside e
          (omega arith))
    | inr e ↦ rw e v
  ]

  pub unreserve_page-IsValid : IsValid memory (unreserve_page f adr)
  unfolding unreserve_page
  unreserve_page-IsValid = elim (Bool-cases (f.pages_used (adr / 4096))) [
    | inl e ↦ rw e (
        gave memory f (adr / 4096) f.used_memory (sub64 f.reserved_memory 4096) v inside e
          (omega arith))
    | inr e ↦ rw e v
  ]
