-- ===== src/Frames/Request.antt =====
-- REQUEST_PAGE of kernel/src/paging.c.
use efi_os.Prelude.{
  ℕ, zero, suc, refl, inl, inr, Bool-cases, ◌+◌, ◌-◌, ◌*◌, ◌/◌, ◌%◌, ◌^◌, ◌<◌, ◌≤◌, ◌≡◌, Bool, true,
  false, arith, ◌==◌, add64,
}
use efi_os.Frames.{Frames, mark, lock_page, request_loop, request_page}
use efi_os.Frames.Count.{IsValid, used_below}
use efi_os.Frames.Single.{lock_page-IsValid}

-- What `REQUEST_PAGE` does: the lowest free frame is taken and counted as used memory; or there is
-- none, and NULL is returned with the map of frames as it was.
pub data Requested (f : Frames) : ℕ × Frames → Type 0 where
  granted :
      (page : ℕ) (g : Frames)
      → page < f.total_pages
      → f.pages_used page ≡ false
      → ((x : ℕ) → x < page → f.pages_used x ≡ true)
      → g.pages_used ≡ mark f.pages_used page true
      → g.used_memory ≡ add64 f.used_memory 4096
      → g.reserved_memory ≡ f.reserved_memory
      → Requested f (page * 4096, g)
  all_used :
      (g : Frames)
      → ((x : ℕ) → x < f.total_pages → f.pages_used x ≡ true)
      → g.pages_used ≡ f.pages_used
      → Requested f (0, g)

-- Looking at one more frame, which is in use, keeps the invariant.
pub skipped :
    (memory : ℕ) (f : Frames)
    → IsValid memory f
    → f.pages_used f.page_index ≡ true
    → IsValid memory (record f { page_index = f.page_index + 1 })
skipped memory f v e = record {
  free_range = v.free_range;
  taken_range = v.taken_range;
  all_memory = v.all_memory;
  none_below = λ x lt lt'. elim (Bool-cases (x == f.page_index)) [
    | inl here ↦ ground arith
    | inr before ↦ v.none_below x (ground arith) lt'
  ];
}

carried_on :
    (f : Frames) (r : ℕ × Frames)
    → Requested (record f { page_index = f.page_index + 1 }) r
    → Requested f r
carried_on f r (granted page g lt free below a b c) = granted page g lt free below a b c
carried_on f r (all_used g all a) = all_used g all a

-- The frame at `page_index` is free, and is taken.
taken :
    (memory : ℕ) (f : Frames)
    → IsValid memory f
    → f.total_pages ≤ 2 ^ 52
    → f.page_index < f.total_pages
    → f.pages_used f.page_index ≡ false
    → let adr = f.page_index * 4096 % 2 ^ 64 in
      IsValid memory (lock_page f adr) × Requested f (adr, lock_page f adr)
unfolding lock_page
taken memory f v small inside free =
    let exact : f.page_index * 4096 % 2 ^ 64 ≡ f.page_index * 4096 = omega arith in
    let page_of : f.page_index * 4096 / 4096 ≡ f.page_index = omega arith in
    (
      lock_page-IsValid memory f (f.page_index * 4096 % 2 ^ 64) v (omega arith),
      rw (exact, page_of, free)
          (granted f.page_index _ inside free (λ x lt. v.none_below x lt (omega arith)) refl refl
            refl),
    )

request_loop-Requested :
    (memory : ℕ) (left : ℕ) (f : Frames)
    → IsValid memory f
    → f.total_pages ≤ 2 ^ 52
    → f.total_pages ≤ f.page_index + left
    → left ≡ f.total_pages - f.page_index
    → IsValid memory (request_loop left f).1 × Requested f (request_loop left f)
unfolding request_loop
request_loop-Requested memory zero f v small enough e =
    (v, all_used f (λ x lt. v.none_below x (omega arith) lt) refl)
request_loop-Requested memory (suc left) f v small enough e =
    elim (Bool-cases (f.pages_used f.page_index)) [
      | inl used ↦ rw used (
          let k =
            request_loop-Requested memory left (record f { page_index = f.page_index + 1 })
              (skipped memory f v used) small (omega arith) (omega arith) in
          (k.0, carried_on f _ k.1))
      | inr free ↦ rw free (taken memory f v small (omega arith) free)
    ]

-- `REQUEST_PAGE`, on page frames whose invariant holds and that are 2^52 at most, takes the lowest
-- free frame, or returns NULL if no frame is free; the invariant holds again.
pub request_page-Requested :
    (memory : ℕ) (f : Frames)
    → IsValid memory f
    → f.total_pages ≤ 2 ^ 52
    → IsValid memory (request_page f).1 × Requested f (request_page f)
unfolding request_page
request_page-Requested memory f v small =
    request_loop-Requested memory (f.total_pages - f.page_index) f v small (omega arith) refl

total-request_loop : (left : ℕ) (f : Frames) → (request_loop left f).1.total_pages ≡ f.total_pages
unfolding request_loop lock_page
total-request_loop zero f = refl
total-request_loop (suc left) f =
    ground (arith, total-request_loop left (record f { page_index = f.page_index + 1 }))

pub total-request_page : (f : Frames) → (request_page f).1.total_pages ≡ f.total_pages
unfolding request_page
total-request_page f = total-request_loop (f.total_pages - f.page_index) f

-- A map that is all in use counts every frame.
pub used_below-all :
    (used : ℕ → Bool) (n : ℕ) → ((x : ℕ) → x < n → used x ≡ true) → used_below used n ≡ n
used_below-all used zero all = refl
used_below-all used (suc n) all =
    ground (arith, all n (omega arith), used_below-all used n (λ x lt. all x (omega arith)))
