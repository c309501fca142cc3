-- ===== src/Frames/Ranges.antt =====
-- The calls of kernel/src/paging.c on a range of frames: LOCK_PAGES, FREE_PAGES, RESERVE_PAGES,
-- UNRESERVE_PAGES.
use efi_os.Prelude.{
  ℕ, zero, suc, refl, ◌∙◌, ◌+◌, ◌*◌, ◌/◌, ◌^◌, ◌<◌, ◌≤◌, ◌≡◌, Bool, true, false, arith, ◌==◌,
  if◌then◌else◌, add64,
}
use efi_os.Memory.{within}
use efi_os.Frames.{
  Frames, lock_page, free_page, reserve_page, unreserve_page, pages_loop, int_offset, lock_pages,
  free_pages, reserve_pages, unreserve_pages,
}
use efi_os.Frames.Count.{IsValid}
use efi_os.Frames.Single.{
  lock_page-IsValid, free_page-IsValid, reserve_page-IsValid, unreserve_page-IsValid,
}

-- What a call on one frame owes its loop: the frame is in use or not as `b` says, and no other one
-- changes.
record Sets (b : Bool) (page_op : Frames → ℕ → Frames) : Type 0 where
  total : (f : Frames) (a : ℕ) → (page_op f a).total_pages ≡ f.total_pages
  page :
      (f : Frames) (a x : ℕ)
      → (page_op f a).pages_used x ≡ (if x == a / 4096 then b else f.pages_used x)
  valid :
      (memory : ℕ) (f : Frames) (a : ℕ)
      → IsValid memory f
      → a / 4096 < f.total_pages
      → IsValid memory (page_op f a)

lock_page-Sets : Sets true lock_page
unfolding lock_page
lock_page-Sets = record {
  total = λ f a. ground arith;
  page = λ f a x. ground arith;
  valid = λ memory f a v h. lock_page-IsValid memory f a v h;
}

reserve_page-Sets : Sets true reserve_page
unfolding reserve_page
reserve_page-Sets = record {
  total = λ f a. ground arith;
  page = λ f a x. ground arith;
  valid = λ memory f a v h. reserve_page-IsValid memory f a v h;
}

free_page-Sets : Sets false free_page
unfolding free_page
free_page-Sets = record {
  total = λ f a. ground arith;
  page = λ f a x. ground arith;
  valid = λ memory f a v h. free_page-IsValid memory f a v h;
}

unreserve_page-Sets : Sets false unreserve_page
unfolding unreserve_page
unreserve_page-Sets = record {
  total = λ f a. ground arith;
  page = λ f a x. ground arith;
  valid = λ memory f a v h. unreserve_page-IsValid memory f a v h;
}

-- The range `adr`, `count` was handled: the counts are right, exactly the frames of the range are as
-- `b` says, and the others are as they were.
pub record Ranged (b : Bool) (memory adr count : ℕ) (f g : Frames) : Type 0 where
  pub valid : IsValid memory g
  pub covered :
      (x : ℕ) → g.pages_used x ≡ (if within (adr / 4096) count x then b else f.pages_used x)

-- The `i`th address lies in the `i`th frame, for as long as `i*4096` fits an `int`.
frame_at :
    (adr i : ℕ)
    → i < 2 ^ 19
    → adr + 4096 * i < 2 ^ 64
    → add64 adr (int_offset i) / 4096 ≡ adr / 4096 + i
frame_at adr i few room = ground arith

pages_loop-Ranged :
    (b : Bool) (page_op : Frames → ℕ → Frames) (memory adr : ℕ)
    → Sets b page_op
    → (left i : ℕ) (f : Frames) → i + left ≤ 2 ^ 19
    → adr + 4096 * (i + left) ≤ 2 ^ 64
    → adr / 4096 + i + left ≤ f.total_pages
    → IsValid memory f
    → Ranged b memory (adr / 4096 * 4096 + 4096 * i) left f (pages_loop page_op adr f i left)
unfolding pages_loop
pages_loop-Ranged b page_op memory adr s zero i f few room inside v = record {
  valid = v;
  covered = λ x. ground arith;
}
pages_loop-Ranged b page_op memory adr s (suc left) i f few room inside v =
    let a = add64 adr (int_offset i) in
    let at_i : a / 4096 ≡ adr / 4096 + i = frame_at adr i (omega arith) (omega arith) in
    let k =
      pages_loop-Ranged b page_op memory adr s left (i + 1) (page_op f a) (omega arith)
        (omega arith) (omega (arith, s.total f a)) (s.valid memory f a v (omega (arith, at_i))) in
    record { valid = k.valid; covered = λ x. ground (arith, k.covered x, s.page f a x, at_i) }

-- A range that the loops handle: the offsets fit an `int`, the addresses 64 bits, and the frames the
-- map.
pub record Fits (total adr count : ℕ) : Type 0 where
  pub offsets : count ≤ 2 ^ 19
  pub addresses : adr + 4096 * count ≤ 2 ^ 64
  pub frames : adr / 4096 + count ≤ total

-- The whole loop.
whole_loop :
    (b : Bool) (page_op : Frames → ℕ → Frames) (memory adr count : ℕ) (f : Frames)
    → Sets b page_op
    → Fits f.total_pages adr count
    → IsValid memory f
    → Ranged b memory adr count f (pages_loop page_op adr f 0 count)
whole_loop b page_op memory adr count f s fits v =
    let k =
      pages_loop-Ranged b page_op memory adr s count 0 f (omega (arith, fits.offsets))
        (omega (arith, fits.addresses)) (omega (arith, fits.frames)) v in
    record { valid = k.valid; covered = λ x. ground (arith, k.covered x) }

-- `LOCK_PAGES`, `RESERVE_PAGES`, `FREE_PAGES` and `UNRESERVE_PAGES` of a range that fits, on page
-- frames whose invariant holds: exactly the frames of the range become used, or free, and the
-- invariant holds again.
pub pages-Ranged :
    (memory adr count : ℕ) (f : Frames)
    → Fits f.total_pages adr count
    → IsValid memory f
    → Ranged true memory adr count f (lock_pages f adr count)
      × Ranged true memory adr count f (reserve_pages f adr count)
      × Ranged false memory adr count f (free_pages f adr count)
      × Ranged false memory adr count f (unreserve_pages f adr count)
unfolding lock_pages reserve_pages free_pages unreserve_pages
pages-Ranged memory adr count f fits v = (
  whole_loop true lock_page memory adr count f lock_page-Sets fits v,
  whole_loop true reserve_page memory adr count f reserve_page-Sets fits v,
  whole_loop false free_page memory adr count f free_page-Sets fits v,
  whole_loop false unreserve_page memory adr count f unreserve_page-Sets fits v,
)

-- The number of frames in the map stays.
total-loop :
    (b : Bool) (page_op : Frames → ℕ → Frames) (adr : ℕ)
    → Sets b page_op
    → (left i : ℕ) (f : Frames) → (pages_loop page_op adr f i left).total_pages ≡ f.total_pages
unfolding pages_loop
total-loop b page_op adr s zero i f = refl
total-loop b page_op adr s (suc left) i f =
    total-loop b page_op adr s left (i + 1) (page_op f (add64 adr (int_offset i)))
    ∙ s.total f (add64 adr (int_offset i))

pub total-lock_pages :
    (f : Frames) (adr count : ℕ) → (lock_pages f adr count).total_pages ≡ f.total_pages
unfolding lock_pages
total-lock_pages f adr count = total-loop true lock_page adr lock_page-Sets count 0 f

pub total-reserve_pages :
    (f : Frames) (adr count : ℕ) → (reserve_pages f adr count).total_pages ≡ f.total_pages
unfolding reserve_pages
total-reserve_pages f adr count = total-loop true reserve_page adr reserve_page-Sets count 0 f
