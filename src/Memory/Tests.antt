-- ===== src/Memory/Tests.antt =====
-- Runs of the memory routines of kernel/src/typedef.c, and their theorems at small inputs.
use efi_os.Prelude.{◌≡◌, refl, inr, arith, ◌==◌, if◌then◌else◌}
use efi_os.Memory.{Memory, memset, memcpy, memmove, memcmp, wmemset, intset}
use efi_os.Memory.Copy.{memcpy-Copied, memmove-Copied}
use efi_os.Memory.Fill.{memset-Filled, wmemset-Filled, intset-Filled}
use efi_os.Memory.Compare.{Verdict, memcmp-Verdict}

-- Byte `a` at address `a`.
abbrev ramp : Memory
ramp a = a

-- Two equal bytes, then two that differ.
abbrev pair : Memory
pair a = if a == 5 then 9 else 7

memmove_up : memmove ramp 3 1 4 6 ≡ 4
unfolding memmove
memmove_up = refl

-- The forward loop would smear the first bytes over the overlap.
memcpy_up : memcpy ramp 3 1 4 6 ≡ 2
unfolding memcpy
memcpy_up = refl

memcpy-Copied_example : memcpy ramp 10 3 4 12 ≡ 5
memcpy-Copied_example = memcpy-Copied ramp 10 3 4 (inr (omega arith)) 12

memmove-Copied_example : memmove ramp 3 1 4 6 ≡ 4
memmove-Copied_example = memmove-Copied ramp 3 1 4 6

memset-Filled_example : memset ramp 4 300 3 5 ≡ 44
memset-Filled_example = memset-Filled ramp 4 300 3 5

wmemset-Filled_example : wmemset ramp 4 9 7 10 ≡ 9
wmemset-Filled_example = wmemset-Filled ramp 4 9 7 10

intset-Filled_example : intset ramp 4 9 7 10 ≡ 9
intset-Filled_example = intset-Filled ramp 4 9 7 10

memcmp-Verdict_example : Verdict pair 1 4 3 (memcmp pair 1 4 3)
memcmp-Verdict_example = memcmp-Verdict pair 1 4 3
