-- ===== src/Memory/Fill.antt =====
-- `memset`, `wmemset` and `intset` of kernel/src/typedef.c.
use efi_os.Prelude.{ℕ, zero, suc, ◌+◌, ◌%◌, ◌^◌, ◌≡◌, arith, if◌then◌else◌}
use efi_os.Memory.{Memory, store, within, memset, wmemset, intset}

-- `g` is `m` with `v` in the `n` cells from `d` on.
abbrev pub Filled : Memory → (d v n : ℕ) → Memory → Type 0
Filled m d v n g = (x : ℕ) → g x ≡ (if within d n x then v else m x)

-- `memset` stores the low byte of its `int` in the `n` bytes from `d` on, and changes no other.
pub memset-Filled : (m : Memory) (d v n : ℕ) → Filled m d (v % 2 ^ 8) n (memset m d v n)
unfolding memset
memset-Filled m d v zero x = ground arith
memset-Filled m d v (suc n) x = ground (arith, memset-Filled (store m d (v % 2 ^ 8)) (d + 1) v n x)

-- `wmemset`, four elements a round, fills the `n` elements from `d` on, and changes no other.
pub wmemset-Filled : (m : Memory) (d v n : ℕ) → Filled m d v n (wmemset m d v n)
unfolding wmemset
wmemset-Filled m d v zero x = ground arith
wmemset-Filled m d v (suc zero) x = ground arith
wmemset-Filled m d v (suc (suc zero)) x = ground arith
wmemset-Filled m d v (suc (suc (suc zero))) x = ground arith
wmemset-Filled m d v (suc (suc (suc (suc n)))) x = ground (
  arith,
  wmemset-Filled (store (store (store (store m d v) (d + 1) v) (d + 2) v) (d + 3) v) (d + 4) v n x,
)

-- `intset`, two elements a round, fills the `n` elements from `d` on, and changes no other.
pub intset-Filled : (m : Memory) (d v n : ℕ) → Filled m d v n (intset m d v n)
unfolding intset
intset-Filled m d v zero x = ground arith
intset-Filled m d v (suc zero) x = ground arith
intset-Filled m d v (suc (suc n)) x =
    ground (arith, intset-Filled (store (store m d v) (d + 1) v) (d + 2) v n x)
