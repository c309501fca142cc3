-- ===== src/Fat/Extend.antt =====
-- One round of `write_fat_cluster_chain` of kernel/src/fat.c in the table of clusters.
use efi_os.Prelude.{
  ℕ, suc, refl, sym, ap, ◌∙◌, ◌^◌, ◌<◌, ◌≤◌, ◌≡◌, ◌≢◌, Bool, some, arith, ◌==◌, if◌then◌else◌,
}
use efi_os.Fat.{get_fat_next_cluster, set_fat_next_cluster, get_first_free_cluster}
use efi_os.Fat.Table.{IsBytes, get-set_fat_next_cluster}
use efi_os.Fat.Free.{zeros, zeros-kept, zeros-filled, get_first_free_cluster-first}

abbrev next_of : (ℕ → ℕ) → ℕ → ℕ
next_of = get_fat_next_cluster

-- A table of `clusters` entries, fewer than 4095, of which `left` are free and the first two are not.
pub record IsTable (clusters left : ℕ) (t : ℕ → ℕ) : Type 0 where
  pub bytes : IsBytes t
  pub few : clusters ≤ 4095
  pub first_used : get_fat_next_cluster t 0 ≢ 0
  pub second_used : get_fat_next_cluster t 1 ≢ 0
  pub room : left ≤ zeros (get_fat_next_cluster t) clusters

-- What a round does to the table: a free cluster `n` becomes the end of the chain, behind `c`.
pub record Extended (clusters left : ℕ) (t : ℕ → ℕ) (c n : ℕ) (t' : ℕ → ℕ) : Type 0 where
  pub table : IsTable clusters left t'
  pub two : 2 ≤ n
  pub inside : n < clusters
  pub was_free : get_fat_next_cluster t n ≡ 0
  pub next : get_fat_next_cluster t' c ≡ n
  pub last : get_fat_next_cluster t' n ≡ 4095
  pub kept :
      (d : ℕ) → d < 2 ^ 32 → d ≢ c → d ≢ n → get_fat_next_cluster t' d ≡ get_fat_next_cluster t d

pub not_same : {x y : ℕ} (g : ℕ → ℕ) → g x ≢ 0 → g y ≡ 0 → x ≢ y
not_same g used free e = used (ap g e ∙ free)

module _ (clusters left : ℕ) (t : ℕ → ℕ) (c n : ℕ) (v : IsTable clusters (suc left) t)
    (inside : c < clusters) (used : get_fat_next_cluster t c ≢ 0) (below : n < clusters)
    (free : get_fat_next_cluster t n ≡ 0) (t' : ℕ → ℕ) (bytes' : IsBytes t')
    (after : (d : ℕ)
      → d < 2 ^ 32
      → get_fat_next_cluster t' d
        ≡ (if d == c then n else if d == n then 4095 else get_fat_next_cluster t d)) where
  two_on : 2 ≤ n
  two_on =
      let not_zero : n ≢ 0 = λ e. not_same (next_of t) v.first_used free (sym e) in
      let not_one : n ≢ 1 = λ e. not_same (next_of t) v.second_used free (sym e) in omega arith

  still_used : (d : ℕ) → d < 2 ^ 32 → get_fat_next_cluster t d ≢ 0 → get_fat_next_cluster t' d ≢ 0
  still_used d small h = ground (arith, after d small, two_on)

  one_less : left ≤ zeros (get_fat_next_cluster t') clusters
  one_less =
      let g1 : ℕ → ℕ = λ d. if d == n then 4095 else get_fat_next_cluster t d in
      omega (
        arith,
        v.room,
        zeros-filled (next_of t) g1 n 4095 clusters (λ x lt. refl) (omega arith) free below,
        zeros-kept g1 (next_of t') c n clusters (λ x lt. after x (omega (arith, v.few)))
            (omega (arith, two_on)) (ground arith),
      )

  stores-Extended : Extended clusters left t c n t'
  stores-Extended =
      let apart : c ≢ n = not_same (next_of t) used free in
      record {
        table = record {
          bytes = bytes';
          few = v.few;
          first_used = still_used 0 (omega arith) v.first_used;
          second_used = still_used 1 (omega arith) v.second_used;
          room = one_less;
        };
        two = two_on;
        inside = below;
        was_free = free;
        next = ground (arith, after c (omega (arith, v.few)));
        last = ground (arith, after n (omega (arith, v.few)));
        kept = λ d h p q. ground (arith, after d h);
      }

after_three :
    (b b' : Bool) (n x3 x2 x1 x : ℕ)
    → x3 ≡ (if b then n else x2)
    → x2 ≡ (if b' then 4095 else x1)
    → x1 ≡ (if b' then 4095 else x)
    → x3 ≡ (if b then n else if b' then 4095 else x)
after_three b b' n x3 x2 x1 x e3 e2 e1 = ground arith

pub extend-Extended :
    (clusters left : ℕ) (t : ℕ → ℕ) (c : ℕ)
    → IsTable clusters (suc left) t
    → c < clusters
    → get_fat_next_cluster t c ≢ 0
    → (n : ℕ) × (t1 : ℕ → ℕ) × (get_first_free_cluster clusters t ≡ some (n, t1))
      × Extended clusters left t c n (set_fat_next_cluster (set_fat_next_cluster t1 n 4095) c n)
extend-Extended clusters left t c v inside used =
    let (n, t1, found, below, free, before, bytes1, at1) =
      get_first_free_cluster-first clusters t v.bytes (omega (arith, v.few))
        (omega (arith, v.room)) in
    let small : n < 4095 = omega (arith, v.few) in
    let t2 = set_fat_next_cluster t1 n 4095 in
    let at2 = λ (d : ℕ) (h : d < 2 ^ 32).
      get-set_fat_next_cluster t1 n 4095 d bytes1 (omega arith) (omega arith) h in
    let bytes2 = (at2 0 (omega arith)).1 in
    let at3 = λ (d : ℕ) (h : d < 2 ^ 32).
      get-set_fat_next_cluster t2 c n d bytes2 (omega (arith, v.few)) (omega arith) h in
    (
      n,
      t1,
      found,
      stores-Extended clusters left t c n v inside used below free (set_fat_next_cluster t2 c n)
          (at3 0 (omega arith)).1
          (λ d h. after_three (d == c) (d == n) n _ _ _ _ (at3 d h).0 (at2 d h).0 (at1 d h)),
    )
