-- ===== src/Fat/Free.antt =====
-- The search for a free cluster of kernel/src/fat.c.
use efi_os.Prelude.{
  ℕ, zero, suc, refl, ap, inl, inr, Bool-cases, ◌+◌, ◌^◌, ◌<◌, ◌≤◌, ◌≡◌, ◌≢◌, some, ==_iff, arith,
  ◌==◌, if◌then◌else◌,
}
use efi_os.Fat.{get_fat_next_cluster, set_fat_next_cluster, find_free, get_first_free_cluster}
use efi_os.Fat.Table.{IsBytes, get-set_fat_next_cluster}

-- The number of free entries below `n`.
abbrev pub zeros : (entries : ℕ → ℕ) → ℕ → ℕ
zeros g zero = 0
zeros g (suc n) = zeros g n + (if g n == 0 then 1 else 0)

-- An entry that is not free takes another value that is not 0.
pub zeros-kept :
    (g g' : ℕ → ℕ) (m v n : ℕ)
    → ((x : ℕ) → x < n → g' x ≡ (if x == m then v else g x))
    → v ≢ 0
    → g m ≢ 0
    → zeros g' n ≡ zeros g n
zeros-kept g g' m v zero same pos used = refl
zeros-kept g g' m v (suc n) same pos used =
    ground
      (arith, same n (omega arith), zeros-kept g g' m v n (λ x lt. same x (omega arith)) pos used)

zeros-above :
    (g g' : ℕ → ℕ) (m v n : ℕ)
    → ((x : ℕ) → x < n → g' x ≡ (if x == m then v else g x))
    → n ≤ m
    → zeros g' n ≡ zeros g n
zeros-above g g' m v zero same above = refl
zeros-above g g' m v (suc n) same above = ground (
  arith,
  same n (omega arith),
  zeros-above g g' m v n (λ x lt. same x (omega arith)) (omega arith),
)

-- A free entry takes a value that is not 0.
pub zeros-filled :
    (g g' : ℕ → ℕ) (m v n : ℕ)
    → ((x : ℕ) → x < n → g' x ≡ (if x == m then v else g x))
    → v ≢ 0
    → g m ≡ 0
    → m < n
    → zeros g n ≡ zeros g' n + 1
zeros-filled g g' m v zero same pos free inside = elim inside [ ]
zeros-filled g g' m v (suc n) same pos free inside = elim (Bool-cases (n == m)) [
  | inl here ↦ ground (
    arith,
    same n (omega arith),
    zeros-above g g' m v n (λ x lt. same x (omega arith)) (ground arith),
    ap g ((==_iff n m).0 here),
  )
  | inr before ↦ ground (
    arith,
    same n (omega arith),
    zeros-filled g g' m v n (λ x lt. same x (omega arith)) pos free (ground arith),
  )
]

pub zero_entry : (g : ℕ → ℕ) (n : ℕ) → 0 < zeros g n → (m : ℕ) × (m < n) × (g m ≡ 0)
zero_entry g zero pos = elim pos [ ]
zero_entry g (suc n) pos = elim (Bool-cases (g n == 0)) [
  | inl e ↦ (n, omega arith, ground arith)
  | inr e ↦ let (m, lt, z) = zero_entry g n (ground arith) in (m, omega arith, z)
]

-- The first free entry from `c` on.
record Least (t : ℕ → ℕ) (c m : ℕ) : Type 0 where
  from : c ≤ m
  free : get_fat_next_cluster t m ≡ 0
  used_before : (x : ℕ) → c ≤ x → x < m → get_fat_next_cluster t x ≢ 0

find_free-Least :
    (rounds : ℕ) (t : ℕ → ℕ) (c n : ℕ)
    → c ≤ n
    → n < c + rounds
    → get_fat_next_cluster t n ≡ 0
    → (m : ℕ) × (find_free rounds t c ≡ some m) × (m ≤ n) × Least t c m
unfolding find_free
find_free-Least zero t c n low high free = absurd (omega arith)
find_free-Least (suc rounds) t c n low high free =
    elim (Bool-cases (get_fat_next_cluster t c == 0)) [
      | inl e ↦ (
        c,
        rw e refl,
        low,
        record {
          from = omega arith;
          free = (==_iff (get_fat_next_cluster t c) 0).0 e;
          used_before = λ x a b. absurd (omega arith);
        },
      )
      | inr e ↦
          let past : c ≢ n = λ k. absurd (ground (arith, ap (get_fat_next_cluster t) k)) in
          let (m, found, bound, l) =
            find_free-Least rounds t (c + 1) n (omega arith) (omega arith) free in
          (
            m,
            rw e found,
            bound,
            record {
              from = omega (arith, l.from);
              free = l.free;
              used_before = λ x a b. elim (Bool-cases (x == c)) [
                | inl here ↦ ground (arith, ap (get_fat_next_cluster t) ((==_iff x c).0 here))
                | inr behind ↦ l.used_before x (ground arith) b
              ];
            },
          )
    ]

-- `get_first_free_cluster`, where an entry below the number of rounds is free in a table of bytes,
-- returns the first free cluster, whose entry it sets to the end of a chain; no other entry changes.
pub get_first_free_cluster-first :
    (rounds : ℕ) (t : ℕ → ℕ)
    → IsBytes t
    → rounds ≤ 2 ^ 32
    → 0 < zeros (get_fat_next_cluster t) rounds
    → (m : ℕ) × (t' : ℕ → ℕ) × (get_first_free_cluster rounds t ≡ some (m, t'))
      × (m < rounds)
      × (get_fat_next_cluster t m ≡ 0)
      × ((x : ℕ) → x < m → get_fat_next_cluster t x ≢ 0)
      × IsBytes t'
      × ((d : ℕ)
          → d < 2 ^ 32
          → get_fat_next_cluster t' d ≡ (if d == m then 4095 else get_fat_next_cluster t d))
unfolding get_first_free_cluster
get_first_free_cluster-first rounds t bytes small some_free =
    let (n, inside, free) = zero_entry (get_fat_next_cluster t) rounds some_free in
    let (m, found, bound, l) = find_free-Least rounds t 0 n (omega arith) (omega arith) free in
    (
      m,
      set_fat_next_cluster t m 4095,
      rw (get_first_free_cluster, found) refl,
      omega arith,
      l.free,
      (λ x lt. l.used_before x (omega arith) lt),
      (get-set_fat_next_cluster t m 4095 0 bytes (omega arith) (omega arith) (omega arith)).1,
      (λ d small_d.
          (get-set_fat_next_cluster t m 4095 d bytes (omega arith) (omega arith) small_d).0),
    )
