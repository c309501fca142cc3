-- ===== src/Memory/Copy.antt =====
-- `memcpy` and `memmove` of kernel/src/typedef.c.
use efi_os.Prelude.{
  ℕ, zero, suc, ◌+◌, ◌-◌, ◌≤◌, ◌<◌, ◌≡◌, ap, ◌⊎◌, inl, inr, ltb, arith, if◌then◌else◌, Bool-cases,
}
use efi_os.Memory.{Memory, store, within, memcpy, copy_reverse, memmove}

-- `g` is `m` with the `len` bytes that `m` has from `s` on at `d`, and the same elsewhere.
abbrev pub Copied : Memory → (d s len : ℕ) → Memory → Type 0
Copied m d s len g = (x : ℕ) → g x ≡ (if within d len x then m (x - d + s) else m x)

next_byte : (m : Memory) (d s x : ℕ) → d < x → m (x - (d + 1) + (s + 1)) ≡ m (x - d + s)
next_byte m d s x h = ap m (omega arith)

first_byte : (m : Memory) (d s x : ℕ) → x ≡ d → m (x - d + s) ≡ m s
first_byte m d s x h = ap m (omega arith)

copy_forward :
    (m : Memory) (d s len : ℕ) → (d ≤ s) ⊎ (s + len ≤ d) → Copied m d s len (memcpy m d s len)
unfolding memcpy
copy_forward m d s zero h x = ground arith
copy_forward m d s (suc len) h x = ground (
  arith,
  copy_forward (store m d (m s)) (d + 1) (s + 1) len (omega arith) x,
  next_byte m d s x,
  first_byte m d s x,
)

last_byte :
    (m : Memory) (d s n t f x : ℕ)
    → t ≡ d + suc n
    → f ≡ s + suc n
    → x ≡ t - 1
    → m (f - 1) ≡ m (x - d + s)
last_byte m d s n t f x ht hf hx = ap m (omega arith)

-- In reverse the source may lie below an overlapping destination.
copy_backward :
    (m : Memory) (d s n t f : ℕ)
    → t ≡ d + n
    → f ≡ s + n
    → s < d
    → Copied m d s n (copy_reverse m t f n)
unfolding copy_reverse
copy_backward m d s zero t f ht hf h x = ground arith
copy_backward m d s (suc n) t f ht hf h x = ground (
  arith,
  copy_backward (store m (t - 1) (m (f - 1))) d s n (t - 1) (f - 1) (omega arith) (omega arith) h x,
  last_byte m d s n t f x,
)

-- `memcpy` copies between ranges that do not overlap, and where the destination lies below the
-- source: each byte of the destination is the old byte of the source, and no other byte changes.
pub memcpy-Copied :
    (m : Memory) (d s len : ℕ) → (d ≤ s) ⊎ (s + len ≤ d) → Copied m d s len (memcpy m d s len)
memcpy-Copied = copy_forward

-- `memmove` copies between any two ranges, overlapping or not: each byte of the destination is the
-- old byte of the source, and no other byte changes.
pub memmove-Copied : (m : Memory) (d s n : ℕ) → Copied m d s n (memmove m d s n)
unfolding memmove
memmove-Copied m d s n x = elim (Bool-cases (ltb s d)) [
  | inl below ↦
      rw below (copy_backward m d s n (d + n) (s + n) (omega arith) (omega arith) (ground arith) x)
  | inr above ↦ rw above (copy_forward m d s n (inl (ground arith)) x)
]
