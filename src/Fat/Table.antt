-- ===== src/Fat/Table.antt =====
-- The 12-bit entries of the table of kernel/src/fat.c.
use efi_os.Prelude.{
  ℕ, sym, ap, ap₂, ◌∙◌, inl, inr, Bool-cases, ◌+◌, ◌*◌, ◌/◌, ◌%◌, ◌^◌, ◌<◌, ◌≡◌, ◌≢◌, subst,
  fun_ext, ==_iff, arith, ◌==◌, if◌then◌else◌, bit_and, bit_or,
}
use efi_os.Prelude.Bits.{
  bit_and_mask, bit_and_comm, bit_or_split, bit_and_split, bit_or-zero, zero-bit_or, bit_and-zero,
}
use efi_os.Fat.{word_at, get_fat_next_cluster, set_fat_next_cluster}

-- A table of bytes.
abbrev pub IsBytes : (ℕ → ℕ) → Type 0
IsBytes t = (x : ℕ) → t x < 256

-- The words that the two branches store.
even_word :
    (w v : ℕ)
    → w < 2 ^ 16
    → bit_or (bit_and w 0xf000) (bit_and 0xfff v) ≡ w / 2 ^ 12 * 2 ^ 12 + v % 2 ^ 12
even_word w v range =
    ap₂ bit_or high (bit_and_comm 0xfff v ∙ bit_and_mask 12 v)
    ∙ ap (λ (x : ℕ). bit_or (w / 2 ^ 12 * 2 ^ 12 + 0) x) {x = v % 2 ^ 12}
        {y = 0 * 2 ^ 12 + v % 2 ^ 12} (omega arith)
    ∙ bit_or_split 12 (w / 2 ^ 12) 0 0 (v % 2 ^ 12) (omega arith) (omega arith)
    ∙ ap₂ (λ (x y : ℕ). x * 2 ^ 12 + y) (bit_or-zero (w / 2 ^ 12)) (zero-bit_or (v % 2 ^ 12))
  where
    high : bit_and w 0xf000 ≡ w / 2 ^ 12 * 2 ^ 12 + 0
    high =
        ap (λ (x : ℕ). bit_and x 0xf000) {x = w} {y = w / 2 ^ 12 * 2 ^ 12 + w % 2 ^ 12}
          (omega arith)
        ∙ bit_and_split 12 (w / 2 ^ 12) (w % 2 ^ 12) 0xf 0 (omega arith) (omega arith)
        ∙ omega (arith, bit_and_mask 4 (w / 2 ^ 12), bit_and-zero (w % 2 ^ 12))

odd_word :
    (w v : ℕ) → v < 2 ^ 16 → bit_or (bit_and w 0x000f) (v * 2 ^ 4 % 2 ^ 64) ≡ v * 2 ^ 4 + w % 2 ^ 4
odd_word w v range =
    ap₂ bit_or {x = bit_and w 15} {y = 0 * 2 ^ 4 + w % 2 ^ 4} {u = v * 2 ^ 4 % 2 ^ 64}
      {v = v * 2 ^ 4 + 0} (omega (arith, bit_and_mask 4 w)) (omega arith)
    ∙ bit_or_split 4 0 (w % 2 ^ 4) v 0 (omega arith) (omega arith)
    ∙ ap₂ (λ (x y : ℕ). x * 2 ^ 4 + y) (zero-bit_or v) (bit_or-zero (w % 2 ^ 4))

-- An entry by its bytes: an even cluster begins at a byte, an odd one in the middle of one.
entry : (t : ℕ → ℕ) → (cluster : ℕ) → ℕ
entry t c =
    let a = c / 2 * 3 in
    if c % 2 == 0 then t a + 256 * (t (a + 1) % 16) else t (a + 1) / 16 + 16 * t (a + 2)

-- The bytes of the three that two entries share, after an entry is stored.
stored : (t : ℕ → ℕ) → (cluster value : ℕ) → ℕ → ℕ
stored t c v x =
    let a = c / 2 * 3 in
    if c % 2 == 0
    then (if x == a then v % 256 else if x == a + 1 then t x / 16 * 16 + v / 256 % 16 else t x)
    else (if x == a + 1 then t x % 16 + v % 16 * 16 else if x == a + 2 then v / 16 % 256 else t x)

get-entry : (t : ℕ → ℕ) (c : ℕ) → IsBytes t → c < 2 ^ 32 → get_fat_next_cluster t c ≡ entry t c
unfolding get_fat_next_cluster entry
get-entry t c bytes small = elim (Bool-cases (c % 2 == 0)) [
  | inl even ↦
      let at : c * 3 % 2 ^ 64 / 2 ≡ c / 2 * 3 = ground arith in
      rw (even, at)
        (omega (
          arith,
          bit_and_mask 12 (word_at t (c / 2 * 3)),
          bytes (c / 2 * 3),
          bytes (c / 2 * 3 + 1),
        ))
  | inr odd ↦
      let at : c * 3 % 2 ^ 64 / 2 ≡ c / 2 * 3 + 1 = ground arith in
      let next : c / 2 * 3 + 1 + 1 ≡ c / 2 * 3 + 2 = omega arith in
      rw (odd, at, next) (omega (arith, bytes (c / 2 * 3 + 1)))
]

set-stored :
    (t : ℕ → ℕ) (c v x : ℕ)
    → IsBytes t
    → c < 2 ^ 32
    → v < 2 ^ 12
    → set_fat_next_cluster t c v x ≡ stored t c v x
unfolding set_fat_next_cluster stored
set-stored t c v x bytes small fits = elim (Bool-cases (c % 2 == 0)) [
  | inl even ↦
      let at : c * 3 % 2 ^ 64 / 2 ≡ c / 2 * 3 = ground arith in
      rw (even, at)
        (ground (
          arith,
          even_word (word_at t (c / 2 * 3)) v
              (omega (arith, bytes (c / 2 * 3), bytes (c / 2 * 3 + 1))),
          bytes (c / 2 * 3),
          bytes (c / 2 * 3 + 1),
        ))
  | inr odd ↦
      let at : c * 3 % 2 ^ 64 / 2 ≡ c / 2 * 3 + 1 = ground arith in
      let next : c / 2 * 3 + 1 + 1 ≡ c / 2 * 3 + 2 = omega arith in
      rw (odd, at, next)
        (ground (
          arith,
          odd_word (t (c / 2 * 3 + 1) + 256 * t (c / 2 * 3 + 2)) v (omega arith),
          bytes (c / 2 * 3 + 1),
        ))
]

-- The neighbours that share a byte keep their half of it.
entry-stored_same : (t : ℕ → ℕ) (c v : ℕ) → IsBytes t → v < 2 ^ 12 → entry (stored t c v) c ≡ v
unfolding entry stored
entry-stored_same t c v bytes fits = elim (Bool-cases (c % 2 == 0)) [
  | inl even ↦ rw even (ground (arith, bytes (c / 2 * 3 + 1)))
  | inr odd ↦ rw odd (ground (arith, bytes (c / 2 * 3 + 1)))
]

entry-stored_other :
    (t : ℕ → ℕ) (c v d : ℕ) → IsBytes t → v < 2 ^ 12 → d ≢ c → entry (stored t c v) d ≡ entry t d
unfolding entry stored
entry-stored_other t c v d bytes fits apart = elim (Bool-cases (c % 2 == 0)) [
  | inl even ↦ elim (Bool-cases (d % 2 == 0)) [
    | inl even_d ↦ rw (even, even_d) (ground (arith, bytes (c / 2 * 3 + 1)))
    | inr odd_d ↦ rw (even, odd_d) (ground (arith, bytes (c / 2 * 3 + 1), bytes (d / 2 * 3 + 1)))
  ]
  | inr odd ↦ elim (Bool-cases (d % 2 == 0)) [
    | inl even_d ↦ rw (odd, even_d) (ground (arith, bytes (c / 2 * 3 + 1), bytes (d / 2 * 3 + 1)))
    | inr odd_d ↦ rw (odd, odd_d) (ground (arith, bytes (c / 2 * 3 + 1)))
  ]
]

stored-IsBytes : (t : ℕ → ℕ) (c v : ℕ) → IsBytes t → IsBytes (stored t c v)
unfolding stored
stored-IsBytes t c v bytes x = ground (arith, bytes x)

-- `set_fat_next_cluster` of a value of twelve bits in a table of bytes sets that entry, which
-- `get_fat_next_cluster` then reads, and no other one; it leaves a table of bytes. Clusters are below
-- 2^32.
pub get-set_fat_next_cluster :
    (t : ℕ → ℕ) (c v d : ℕ)
    → IsBytes t
    → c < 2 ^ 32
    → v < 2 ^ 12
    → d < 2 ^ 32
    → (get_fat_next_cluster (set_fat_next_cluster t c v) d
        ≡ (if d == c then v else get_fat_next_cluster t d))
      × IsBytes (set_fat_next_cluster t c v)
get-set_fat_next_cluster t c v d bytes small fits small_d =
    let same : set_fat_next_cluster t c v ≡ stored t c v =
      fun_ext (λ x. set-stored t c v x bytes small fits) in
    let bytes' = stored-IsBytes t c v bytes in
    let read : get_fat_next_cluster (set_fat_next_cluster t c v) d ≡ entry (stored t c v) d =
      ap (λ (u : ℕ → ℕ). get_fat_next_cluster u d) same
      ∙ get-entry (stored t c v) d bytes' small_d in
    (
      elim (Bool-cases (d == c)) [
        | inl here ↦ rw here (
            read
            ∙ ap (entry (stored t c v)) ((==_iff d c).0 here)
            ∙ entry-stored_same t c v bytes fits)
        | inr apart ↦ rw apart (
            read
            ∙ entry-stored_other t c v d bytes fits (ground arith)
            ∙ sym (get-entry t d bytes small_d))
      ],
      subst IsBytes (sym same) bytes',
    )

pub get_fat_next_cluster-range :
    (t : ℕ → ℕ) (c : ℕ) → IsBytes t → c < 2 ^ 32 → get_fat_next_cluster t c < 2 ^ 12
unfolding entry
get_fat_next_cluster-range t c bytes small =
    subst (λ (x : ℕ). x < 2 ^ 12) (sym (get-entry t c bytes small))
      (ground (arith, bytes (c / 2 * 3), bytes (c / 2 * 3 + 1), bytes (c / 2 * 3 + 2)))
