-- ===== src/Prelude/Words.antt =====
-- Machine words as native numbers: `uint64_t` and `uint32_t` arithmetic wraps.
use Prim.Native.Nat.{ℕ, ◌+◌, ◌-◌, ◌%◌, ◌^◌}

abbrev pub add64 : ℕ → ℕ → ℕ
add64 a b = (a + b) % 2 ^ 64

abbrev pub sub64 : ℕ → ℕ → ℕ
sub64 a b = (a + 2 ^ 64 - b) % 2 ^ 64

abbrev pub add32 : ℕ → ℕ → ℕ
add32 a b = (a + b) % 2 ^ 32

abbrev pub sub32 : ℕ → ℕ → ℕ
sub32 a b = (a + 2 ^ 32 - b) % 2 ^ 32

abbrev pub add8 : ℕ → ℕ → ℕ
add8 a b = (a + b) % 2 ^ 8

abbrev pub sub8 : ℕ → ℕ → ℕ
sub8 a b = (a + 2 ^ 8 - b) % 2 ^ 8
