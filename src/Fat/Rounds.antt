-- ===== src/Fat/Rounds.antt =====
-- The rounds of `write_fat_cluster_chain` of kernel/src/fat.c.
use efi_os.Prelude.{
  ℕ, zero, suc, refl, sym, ap, ap₂, ◌∙◌, ◌+◌, ◌^◌, ◌<◌, ◌≤◌, ◌≡◌, ◌≢◌, true, false, Option, none,
  some, List, [], ◌∷◌, map, length, subst, arith, ◌==◌,
}
use efi_os.Fat.{
  BootSector, Volume, get_fat_next_cluster, set_fat_next_cluster, get_first_free_cluster,
  get_first_sector_of_cluster, get_first_data_sector, write_sector, write_rounds,
}
use efi_os.Fat.Chain.{Chain, end_of_chain, linked}
use efi_os.Fat.Extend.{IsTable, Extended, extend-Extended, not_same}

module _ {S : Type 0} where
  -- The `n` sectors of the data from sector `k` on.
  abbrev pub sectors_from : (bytes : ℕ → S) → (k n : ℕ) → List S
  sectors_from bytes k zero = []
  sectors_from bytes k (suc n) = bytes k ∷ sectors_from bytes (k + 1) n

-- The volumes that the driver reads: a sector for each cluster, and sector numbers of 64 bits.
pub record IsSupported (part : BootSector) : Type 0 where
  pub one_sector : part.sectors_per_cluster ≡ 1
  pub range : get_first_data_sector part + 4096 < 2 ^ 64

pub sector_apart :
    (part : BootSector) (c d : ℕ)
    → IsSupported part
    → 2 ≤ c
    → c < 4096
    → 2 ≤ d
    → d < 4096
    → d ≢ c
    → (get_first_sector_of_cluster part d == get_first_sector_of_cluster part c) ≡ false
unfolding get_first_sector_of_cluster
sector_apart part c d s c2 cs d2 ds apart = rw (s.one_sector) (ground (arith, s.range))

self_test : (x : ℕ) → (x == x) ≡ true
self_test x = ground arith

module _ {S : Type 0} (part : BootSector) (clusters : ℕ) (supported : IsSupported part) where
  -- The store of the last sector behind the rounds.
  abbrev pub finish : Option (ℕ × Volume S) → S → Option (Volume S)
  finish o s = elim o [ none ↦ none | some (last, v') ↦ some (write_sector part v' last s) ]

  -- What that leaves in `w`, from a chain that ends with `c`.
  pub record Written (left : ℕ) (v : Volume S) (c : ℕ) (bytes : ℕ → S) (k : ℕ) (w : Volume S)
      (cs : List ℕ) : Type 0 where
    pub chain : Chain w.fat_table c cs
    pub holds :
        map (λ d. w.disk (get_first_sector_of_cluster part d)) cs ≡ sectors_from bytes k (suc left)
    pub kept_entries :
        (d : ℕ)
        → d < 2 ^ 32
        → get_fat_next_cluster v.fat_table d ≢ 0
        → d ≢ c
        → get_fat_next_cluster w.fat_table d ≡ get_fat_next_cluster v.fat_table d
    pub kept_sectors :
        (d : ℕ)
        → 2 ≤ d
        → d < 4096
        → get_fat_next_cluster v.fat_table d ≢ 0
        → d ≢ c
        → w.disk (get_first_sector_of_cluster part d) ≡ v.disk (get_first_sector_of_cluster part d)

  pub last_sector :
      (v : Volume S) (c : ℕ) (bytes : ℕ → S) (k : ℕ)
      → 2 ≤ c
      → c < 4095
      → get_fat_next_cluster v.fat_table c ≡ 4095
      → Written 0 v c bytes k (write_sector part v c (bytes (k + 0))) (c ∷ [])
  last_sector v c bytes k two small e = record {
    chain = linked (omega arith) (subst (λ n. Chain v.fat_table n []) (sym e) end_of_chain);
    holds =
        rw (self_test (get_first_sector_of_cluster part c))
          (ap (λ (i : ℕ). bytes i ∷ []) {x = k + 0} {y = k} (omega arith));
    kept_entries = λ d h used apart. refl;
    kept_sectors =
        λ d d2 h used apart. rw (sector_apart part c d supported two (omega arith) d2 h apart) refl;
  }

  one_round :
      (left : ℕ) (v : Volume S) (c : ℕ) (bytes : ℕ → S) (k n : ℕ) (t' : ℕ → ℕ) (w : Volume S)
      (cs : List ℕ)
      → 2 ≤ c
      → c < 4095
      → get_fat_next_cluster v.fat_table c ≢ 0
      → n < 4095
      → Extended clusters left v.fat_table c n t'
      → Written left
          (write_sector part (record v { fat_table = t' }) c (bytes k))
          n
          bytes
          (k + 1)
          w
          cs
      → Written (suc left) v c bytes k w (c ∷ cs)
  one_round left v c bytes k n t' w cs two small used below x i =
      let apart : c ≢ n = not_same (get_fat_next_cluster v.fat_table) used x.was_free in
      let link : get_fat_next_cluster w.fat_table c ≡ n =
        i.kept_entries c (omega arith) (omega (arith, x.next, x.two)) apart ∙ x.next in
      record {
        chain = linked (omega arith) (subst (λ m. Chain w.fat_table m cs) (sym link) i.chain);
        holds =
            ap₂ ◌∷◌
              (i.kept_sectors c two (omega arith) (omega (arith, x.next, x.two)) apart
                ∙ rw (self_test (get_first_sector_of_cluster part c)) refl)
              i.holds;
        kept_entries = λ d h held other.
            let free_apart = not_same (get_fat_next_cluster v.fat_table) held x.was_free in
            let same = x.kept d h other free_apart in
            i.kept_entries d h (λ e. held (sym same ∙ e)) free_apart ∙ same;
        kept_sectors = λ d d2 h held other.
            let free_apart = not_same (get_fat_next_cluster v.fat_table) held x.was_free in
            let same = x.kept d (omega arith) other free_apart in
            i.kept_sectors d d2 h (λ e. held (sym same ∙ e)) free_apart
            ∙ rw (sector_apart part c d supported two (omega arith) d2 h other) refl;
      }

  rounds_step :
      (left : ℕ) (v : Volume S) (c : ℕ) (bytes : ℕ → S) (k n : ℕ) (t1 : ℕ → ℕ)
      → get_first_free_cluster clusters v.fat_table ≡ some (n, t1)
      → write_rounds part clusters (suc left) v c bytes k ≡ (
          let t3 = set_fat_next_cluster (set_fat_next_cluster t1 n 4095) c n in
          write_rounds part clusters left
            (write_sector part (record v { fat_table = t3 }) c (bytes k))
            n
            bytes
            (k + 1))
  unfolding write_rounds
  rounds_step left v c bytes k n t1 found = rw (write_rounds, found) refl

  pub rounds-Written :
      (left : ℕ) (v : Volume S) (c : ℕ) (bytes : ℕ → S) (k : ℕ)
      → IsTable clusters left v.fat_table
      → 2 ≤ c
      → c < clusters
      → get_fat_next_cluster v.fat_table c ≡ 4095
      → (w : Volume S) × (cs : List ℕ) × (finish
            (write_rounds part clusters left v c bytes k)
            (bytes (k + left))
          ≡ some w)
        × (length cs ≡ suc left)
        × Written left v c bytes k w cs
  unfolding write_rounds
  rounds-Written zero v c bytes k t two inside e = (
    write_sector part v c (bytes (k + 0)),
    c ∷ [],
    refl,
    refl,
    last_sector v c bytes k two (omega (arith, t.few)) e,
  )
  rounds-Written (suc left) v c bytes k t two inside e =
      let used : get_fat_next_cluster v.fat_table c ≢ 0 = omega arith in
      let (n, t1, found, x) = extend-Extended clusters left v.fat_table c t inside used in
      let t3 = set_fat_next_cluster (set_fat_next_cluster t1 n 4095) c n in
      let v' = write_sector part (record v { fat_table = t3 }) c (bytes k) in
      let (w, cs, done, len, i) =
        rounds-Written left v' n bytes (k + 1) x.table x.two x.inside x.last in
      (
        w,
        c ∷ cs,
        ap₂ finish (rounds_step left v c bytes k n t1 found) refl
            ∙ (ap (λ (j : ℕ). finish (write_rounds part clusters left v' n bytes (k + 1)) (bytes j))
                  {x = k + suc left} {y = k + 1 + left} (omega arith)
                ∙ done),
        ap suc len,
        one_round left v c bytes k n t3 w cs two (omega (arith, t.few)) used
            (omega (arith, t.few, x.inside)) x i,
      )
