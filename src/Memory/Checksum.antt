-- ===== src/Memory/Checksum.antt =====
-- `crc32b` of kernel/src/typedef.c.
use efi_os.Prelude.{ℕ, zero, suc, ◌+◌, ◌-◌, ◌/◌, ◌%◌, ◌^◌, ◌≡◌, refl, ◌==◌, if◌then◌else◌, bit_xor}
use efi_os.Memory.{Memory}

abbrev pub polynomial : ℕ
polynomial = 0xEDB88320

-- `left` is what `j` lacks of 8.
shift_loop : (left crc : ℕ) → ℕ
shift_loop zero crc = crc
shift_loop (suc left) crc =
    shift_loop left (if crc % 2 == 1 then bit_xor (crc / 2) polynomial else crc / 2)

byte_loop : (length : ℕ) → Memory → (current crc : ℕ) → ℕ
unfolding shift_loop
byte_loop zero m current crc = crc
byte_loop (suc length) m current crc =
    byte_loop length m (current + 1) (shift_loop 8 (bit_xor crc (m current)))

-- `~` of 32 bits.
pub crc32b : Memory → (current length : ℕ) → ℕ
unfolding byte_loop
crc32b m current length = 2 ^ 32 - 1 - byte_loop length m current (2 ^ 32 - 1)

-- The check value of CRC-32, of the text `123456789`.
crc32b_check : crc32b (λ x. x + b'1') 0 9 ≡ 0xcbf43926
unfolding crc32b
crc32b_check = refl
