-- ===== src/Memory.antt =====
-- The memory routines of kernel/src/typedef.c. Memory is a function from addresses to bytes; a
-- routine that writes returns the new memory (the pointer that it returns is its argument). An
-- address is a plain number: the callers' ranges lie inside the 64-bit address space.
-- `wmemset` and `intset` see memory as a function from the index of a 16-bit or 32-bit element.
pub mod Copy
pub mod Fill
pub mod Compare
mod Checksum
mod Tests
use efi_os.Prelude.{
  ℕ, zero, suc, ◌+◌, ◌-◌, ◌%◌, ◌^◌, ◌≤◌, ◌<◌, ◌≡◌, Bool, true, false, ◌&&◌, ltb, leb, ◌==◌,
  if◌then◌else◌,
}
use efi_os.Prelude.Int.{ℤ, pos, negsuc}

abbrev pub Memory : Type 0
Memory = ℕ → ℕ

-- `*a = v`
abbrev pub store : Memory → ℕ → ℕ → Memory
store m a v x = if x == a then v else m x

-- The `int` is stored as an `unsigned char`.
pub memset : Memory → (dest val len : ℕ) → Memory
memset m ptr val zero = m
memset m ptr val (suc len) = memset (store m ptr (val % 2 ^ 8)) (ptr + 1) val len

pub memcpy : Memory → (dest src len : ℕ) → Memory
memcpy m d s zero = m
memcpy m d s (suc len) = memcpy (store m d (m s)) (d + 1) (s + 1) len

-- The loop of `memmove` that copies in reverse: `t` and `f` stand behind the bytes to copy.
copy_reverse : Memory → (t f n : ℕ) → Memory
copy_reverse m t f zero = m
copy_reverse m t f (suc n) = copy_reverse (store m (t - 1) (m (f - 1))) (t - 1) (f - 1) n

-- The loop of its other branch is that of `memcpy`.
pub memmove : Memory → (dest src n : ℕ) → Memory
unfolding copy_reverse memcpy
memmove m dest src n =
    if ltb src dest then copy_reverse m (dest + n) (src + n) n else memcpy m dest src n

pub memcmp : Memory → (s1 s2 count : ℕ) → ℤ
memcmp m s1 s2 zero = pos 0
memcmp m s1 s2 (suc count) =
    let rest = memcmp m (s1 + 1) (s2 + 1) count in
    if m s1 == m s2 then rest else if ltb (m s1) (m s2) then negsuc 0 else pos 1

-- Four elements a round, then the last three tests.
pub wmemset : Memory → (wp c n : ℕ) → Memory
wmemset m wp c (suc (suc (suc (suc n)))) =
    wmemset (store (store (store (store m wp c) (wp + 1) c) (wp + 2) c) (wp + 3) c) (wp + 4) c n
wmemset m wp c (suc (suc (suc zero))) = store (store (store m wp c) (wp + 1) c) (wp + 2) c
wmemset m wp c (suc (suc zero)) = store (store m wp c) (wp + 1) c
wmemset m wp c (suc zero) = store m wp c
wmemset m wp c zero = m

-- Two elements a round.
pub intset : Memory → (wp c n : ℕ) → Memory
intset m wp c (suc (suc n)) = intset (store (store m wp c) (wp + 1) c) (wp + 2) c n
intset m wp c (suc zero) = store m wp c
intset m wp c zero = m

-- Whether an address lies in the `len` cells from `from` on.
abbrev pub within : (from len x : ℕ) → Bool
within from len x = leb from x && ltb x (from + len)
