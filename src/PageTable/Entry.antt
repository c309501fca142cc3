-- ===== src/PageTable/Entry.antt =====
-- The bits of a page table entry of kernel/src/paging.c.
use native.Mathlib.Nat.{pow-suc, mul_comm, div-div-eq-div-mul, mod-lt, one-le-pow, div-add-mod}
use efi_os.Prelude.{
  ℕ, zero, suc, sym, ap, ap₂, ◌∙◌, ◌+◌, ◌*◌, ◌/◌, ◌%◌, ◌^◌, ◌-◌, ◌<◌, ◌≡◌, true, not, ◌==◌, arith,
  bit_and, bit_or,
}
use efi_os.Prelude.Bits.{
  bit_or_step, bit_and_split, bit_or_split, zero-bit_or, bit_and-zero, bit_or-zero, bit_and_mask,
  bit_and_comm,
}
use efi_os.PageTable.{pt_set_flag, pt_get_flag, pt_set_adr, pt_get_adr, pt_present}

-- A mask of the bits from `j` to `j + k`.
bit_and_field : (j k a : ℕ) → bit_and a ((2 ^ k - 1) * 2 ^ j) ≡ a / 2 ^ j % 2 ^ k * 2 ^ j
bit_and_field j k a =
    ap₂ bit_and {x = a} {y = a / 2 ^ j * 2 ^ j + a % 2 ^ j} {u = (2 ^ k - 1) * 2 ^ j}
      {v = (2 ^ k - 1) * 2 ^ j + 0} (omega (arith, div-add-mod a (2 ^ j))) (omega arith)
    ∙ bit_and_split j (a / 2 ^ j) (a % 2 ^ j) (2 ^ k - 1) 0
        (mod-lt a (one-le-pow j 2 (omega arith))) (one-le-pow j 2 (omega arith))
    ∙ rw (bit_and_mask k (a / 2 ^ j), bit_and-zero (a % 2 ^ j)) (omega arith)

-- The bits that `PT_SET_ADR` keeps: the low twelve and the high twelve.
kept_bits :
    (value : ℕ)
    → bit_and value 0xfff0000000000fff ≡ value / 2 ^ 52 % 2 ^ 12 * 2 ^ 52 + value % 2 ^ 12
kept_bits value =
    ap (λ (x : ℕ). bit_and x 0xfff0000000000fff) {x = value}
      {y = value / 2 ^ 52 * 2 ^ 52 + value % 2 ^ 52} (omega arith)
    ∙ bit_and_split 52 (value / 2 ^ 52) (value % 2 ^ 52) 0xfff 0xfff (omega arith) (omega arith)
    ∙ omega (arith, bit_and_mask 12 (value / 2 ^ 52), bit_and_mask 12 (value % 2 ^ 52))

-- Three fields side by side.
joined_bits :
    (hi mid lo : ℕ)
    → lo < 2 ^ 12
    → mid < 2 ^ 40
    → bit_or (hi * 2 ^ 52 + lo) (mid * 2 ^ 12) ≡ hi * 2 ^ 52 + mid * 2 ^ 12 + lo
joined_bits hi mid lo low middle =
    ap (λ (x : ℕ). bit_or (hi * 2 ^ 52 + lo) x) {x = mid * 2 ^ 12} {y = 0 * 2 ^ 52 + mid * 2 ^ 12}
      (omega arith)
    ∙ bit_or_split 52 hi lo 0 (mid * 2 ^ 12) (omega arith) (omega arith)
    ∙ ap₂ (λ (x y : ℕ). x * 2 ^ 52 + y) (bit_or-zero hi)
        (ap₂ bit_or {x = lo} {y = 0 * 2 ^ 12 + lo} {u = mid * 2 ^ 12} {v = mid * 2 ^ 12 + 0}
            (omega arith) (omega arith)
          ∙ bit_or_split 12 0 lo mid 0 low (omega arith)
          ∙ ap₂ (λ (x y : ℕ). x * 2 ^ 12 + y) (zero-bit_or mid) (bit_or-zero lo))
    ∙ omega arith

-- `PT_SET_ADR` replaces the bits 12 to 51.
pub set_adr_fields :
    (value adr : ℕ)
    → pt_set_adr value adr
      ≡ value / 2 ^ 52 % 2 ^ 12 * 2 ^ 52 + adr / 2 ^ 12 % 2 ^ 40 * 2 ^ 12 + value % 2 ^ 12
unfolding pt_set_adr
set_adr_fields value adr =
    ap₂ bit_or (kept_bits value) (bit_and_comm 0x000ffffffffff000 adr ∙ bit_and_field 12 40 adr)
    ∙ joined_bits (value / 2 ^ 52 % 2 ^ 12) (adr / 2 ^ 12 % 2 ^ 40) (value % 2 ^ 12) (omega arith)
        (omega arith)

-- `PT_GET_ADR` reads the bits 8 to 47.
get_adr_field : (value : ℕ) → pt_get_adr value ≡ value / 2 ^ 8 % 2 ^ 40 * 2 ^ 8
unfolding pt_get_adr
get_adr_field value = bit_and_field 8 40 value

-- A flag of one bit.
one_bit : (r p : ℕ) → r < 2 → 0 < p → not (r * p == 0) ≡ (r == 1)
one_bit zero p h pos = ground arith
one_bit (suc zero) p h pos = ground arith
one_bit (suc (suc r)) p h pos = absurd (omega arith)

pub get_flag_bit : (value k : ℕ) → pt_get_flag value (2 ^ k) ≡ (value / 2 ^ k % 2 == 1)
unfolding pt_get_flag
get_flag_bit value k =
    ap (λ (x : ℕ). not (x == 0))
      (ap (bit_and value) {x = 2 ^ k} {y = (2 ^ 1 - 1) * 2 ^ k} (omega arith)
        ∙ bit_and_field k 1 value)
    ∙ one_bit (value / 2 ^ k % 2) (2 ^ k) (omega arith) (one-le-pow k 2 (omega arith))

-- The bits below the address do not depend on what is above them.
half_first : (k x : ℕ) → x / 2 ^ suc k ≡ x / 2 / 2 ^ k
half_first k x =
    ap (λ (p : ℕ). x / p) (pow-suc 2 k ∙ mul_comm (2 ^ k) 2) ∙ sym (div-div-eq-div-mul x 2 (2 ^ k))

double : (q n : ℕ) → q * 2 ^ suc n ≡ 2 * (q * 2 ^ n)
double q n = omega (arith, ap (λ (t : ℕ). q * t) (pow-suc 2 n))

low_bit : (k n q r : ℕ) → k < n → (q * 2 ^ n + r) / 2 ^ k % 2 ≡ r / 2 ^ k % 2
low_bit k zero q r few = elim few [ ]
low_bit zero (suc n) q r few = omega (arith, double q n)
low_bit (suc k) (suc n) q r few =
    ap (λ (x : ℕ). x % 2)
      (half_first k (q * 2 ^ suc n + r)
        ∙ ap (λ (x : ℕ). x / 2 ^ k) {x = (q * 2 ^ suc n + r) / 2} {y = q * 2 ^ n + r / 2}
            (omega (arith, double q n)))
    ∙ low_bit k n q (r / 2) (omega arith)
    ∙ ap (λ (x : ℕ). x % 2) (sym (half_first k r))

-- Where `PT_SET_ADR` stores an address in an entry, `PT_GET_ADR` reads the bits 12 to 47 of the
-- address back, but with the flags 8 to 11 of the entry below them; and each flag below the
-- twelfth stays as it was.
pub get_adr-set_adr :
    (value adr k : ℕ)
    → k < 12
    → (pt_get_adr (pt_set_adr value adr)
        ≡ adr / 2 ^ 12 % 2 ^ 36 * 2 ^ 12 + value / 2 ^ 8 % 2 ^ 4 * 2 ^ 8)
      × (pt_get_flag (pt_set_adr value adr) (2 ^ k) ≡ pt_get_flag value (2 ^ k))
get_adr-set_adr value adr k few = (
  get_adr_field (pt_set_adr value adr)
      ∙ ap (λ (x : ℕ). x / 2 ^ 8 % 2 ^ 40 * 2 ^ 8) (set_adr_fields value adr)
      ∙ omega arith,
  get_flag_bit (pt_set_adr value adr) k
      ∙ ap (λ (x : ℕ). x == 1)
          (ap (λ (x : ℕ). x / 2 ^ k % 2) {x = pt_set_adr value adr}
              {y = (value / 2 ^ 52 % 2 ^ 12 * 2 ^ 40 + adr / 2 ^ 12 % 2 ^ 40) * 2 ^ 12
                + value % 2 ^ 12}
              (omega (arith, set_adr_fields value adr))
            ∙ low_bit k 12 (value / 2 ^ 52 % 2 ^ 12 * 2 ^ 40 + adr / 2 ^ 12 % 2 ^ 40)
                (value % 2 ^ 12) few
            ∙ sym (low_bit k 12 (value / 2 ^ 12) (value % 2 ^ 12) few)
            ∙ ap (λ (x : ℕ). x / 2 ^ k % 2) {x = value / 2 ^ 12 * 2 ^ 12 + value % 2 ^ 12}
                {y = value} (omega arith))
      ∙ sym (get_flag_bit value k),
)

-- The lowest flag of an entry after others are added.
pub get_flag-set_flag :
    (value flag : ℕ) → flag % 2 ≡ 1 → pt_get_flag (pt_set_flag value flag) pt_present ≡ true
unfolding pt_set_flag
get_flag-set_flag value flag odd =
    get_flag_bit (bit_or value flag) 0 ∙ ground (arith, bit_or_step value flag)
