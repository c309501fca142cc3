-- ===== src/Frames.antt =====
-- The physical page frames of kernel/src/paging.c: which frames are in use, and the three counts of
-- memory. `pages_used` is a function from frames, since the code does not check a frame against
-- `total_pages`; its chars are only ever 0 and 1. A count of bytes wraps at 2^64.
pub mod Count
pub mod Single
pub mod Request
pub mod Ranges
pub mod Setup
mod Tests
use efi_os.Prelude.{
  ℕ, zero, suc, ◌+◌, ◌-◌, ◌*◌, ◌/◌, ◌%◌, ◌^◌, Bool, true, false, ltb, ◌==◌, if◌then◌else◌, add64,
  sub64, min,
}

pub record Frames : Type 0 where
  pub free_memory : ℕ
  pub used_memory : ℕ
  pub reserved_memory : ℕ
  pub pages_used : ℕ → Bool
  pub total_pages : ℕ
  pub page_index : ℕ

abbrev pub mark : (ℕ → Bool) → ℕ → Bool → ℕ → Bool
mark used page b x = if x == page then b else used x

pub lock_page : Frames → (adr : ℕ) → Frames
lock_page f adr =
    let page = adr / 4096 in
    if f.pages_used page then f else record f {
      pages_used = mark f.pages_used page true;
      free_memory = sub64 f.free_memory 4096;
      used_memory = add64 f.used_memory 4096;
    }

pub free_page : Frames → (adr : ℕ) → Frames
free_page f adr =
    let page = adr / 4096 in
    if f.pages_used page
    then record f {
      pages_used = mark f.pages_used page false;
      free_memory = add64 f.free_memory 4096;
      used_memory = sub64 f.used_memory 4096;
      page_index = min f.page_index page;
    }
    else f

pub reserve_page : Frames → (adr : ℕ) → Frames
reserve_page f adr =
    let page = adr / 4096 in
    if f.pages_used page then f else record f {
      pages_used = mark f.pages_used page true;
      free_memory = sub64 f.free_memory 4096;
      reserved_memory = add64 f.reserved_memory 4096;
    }

pub unreserve_page : Frames → (adr : ℕ) → Frames
unreserve_page f adr =
    let page = adr / 4096 in
    if f.pages_used page
    then record f {
      pages_used = mark f.pages_used page false;
      free_memory = add64 f.free_memory 4096;
      reserved_memory = sub64 f.reserved_memory 4096;
      page_index = min f.page_index page;
    }
    else f

-- The `for` loop of `REQUEST_PAGE`, with the number of frames left to look at; NULL is 0.
request_loop : (left : ℕ) → Frames → ℕ × Frames
unfolding lock_page
request_loop zero f = (0, f)
request_loop (suc left) f =
    let rest = request_loop left (record f { page_index = f.page_index + 1 }) in
    let adr = f.page_index * 4096 % 2 ^ 64 in
    if f.pages_used f.page_index then rest else (adr, lock_page f adr)

pub request_page : Frames → ℕ × Frames
unfolding request_loop
request_page f = request_loop (f.total_pages - f.page_index) f

-- `i*4096` for an `int i`, wrapped at 32 bits and extended by its sign to 64.
abbrev pub int_offset : ℕ → ℕ
int_offset i = let v = i * 4096 % 2 ^ 32 in if ltb v (2 ^ 31) then v else v + (2 ^ 64 - 2 ^ 32)

-- The loop of `LOCK_PAGES` and its three likes, from index `i` on. Counts are below 2^31.
pages_loop : (Frames → ℕ → Frames) → (adr : ℕ) → Frames → (i left : ℕ) → Frames
pages_loop page_op adr f i zero = f
pages_loop page_op adr f i (suc left) =
    pages_loop page_op adr (page_op f (add64 adr (int_offset i))) (i + 1) left

pub lock_pages : Frames → (adr count : ℕ) → Frames
unfolding lock_page pages_loop
lock_pages f adr count = pages_loop lock_page adr f 0 count

pub free_pages : Frames → (adr count : ℕ) → Frames
unfolding free_page pages_loop
free_pages f adr count = pages_loop free_page adr f 0 count

pub reserve_pages : Frames → (adr count : ℕ) → Frames
unfolding reserve_page pages_loop
reserve_pages f adr count = pages_loop reserve_page adr f 0 count

pub unreserve_pages : Frames → (adr count : ℕ) → Frames
unfolding unreserve_page pages_loop
unreserve_pages f adr count = pages_loop unreserve_page adr f 0 count
