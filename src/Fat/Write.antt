-- ===== src/Fat/Write.antt =====
-- `write_fat_cluster_chain` of kernel/src/fat.c: what it writes is what a load of the chain reads.
use efi_os.Prelude.{
  ℕ, suc, refl, ap, ◌∙◌, inl, inr, Bool-cases, ◌+◌, ◌-◌, ◌/◌, ◌^◌, ◌<◌, ◌≤◌, ◌≡◌, ◌≢◌, true, false,
  some, List, [], ◌∷◌, length, arith, ltb,
}
use efi_os.Fat.{
  BootSector, Volume, get_fat_next_cluster, set_fat_next_cluster, get_first_sector_of_cluster,
  write_sector, write_rounds, write_fat_cluster_chain, load_chain,
}
use efi_os.Fat.Table.{IsBytes, get-set_fat_next_cluster}
use efi_os.Fat.Chain.{load_chain-Chain}
use efi_os.Fat.Extend.{IsTable}
use efi_os.Fat.Rounds.{
  sectors_from, IsSupported, sector_apart, finish, Written, last_sector, rounds-Written,
}

module _ {S : Type 0} (part : BootSector) (clusters : ℕ) (supported : IsSupported part) where
  -- What was written is read back, and no other chain is touched.
  pub record Stored (v : Volume S) (c : ℕ) (bytes : ℕ → S) (count : ℕ) (w : Volume S) : Type 0 where
    pub loaded : load_chain part (count + 1) w c ≡ some (sectors_from bytes 0 count)
    pub kept_entries :
        (d : ℕ)
        → d < 2 ^ 32
        → get_fat_next_cluster v.fat_table d ≢ 0
        → d ≢ c
        → get_fat_next_cluster w.fat_table d ≡ get_fat_next_cluster v.fat_table d
    pub kept_sectors :
        (d : ℕ)
        → 2 ≤ d
        → d < 4096
        → get_fat_next_cluster v.fat_table d ≢ 0
        → d ≢ c
        → w.disk (get_first_sector_of_cluster part d) ≡ v.disk (get_first_sector_of_cluster part d)

  loaded_from :
      (left : ℕ) (v : Volume S) (c : ℕ) (bytes : ℕ → S) (w : Volume S) (cs : List ℕ)
      → length cs ≡ suc left
      → Written part clusters supported left v c bytes 0 w cs
      → Stored v c bytes (suc left) w
  loaded_from left v c bytes w cs len i = record {
    loaded = load_chain-Chain part (suc left + 1) w c cs i.chain (omega arith) ∙ ap some i.holds;
    kept_entries = i.kept_entries;
    kept_sectors = i.kept_sectors;
  }

  large_file :
      (v : Volume S) (c : ℕ) (bytes : ℕ → S) (size : ℕ)
      → ltb 512 size ≡ true
      → write_fat_cluster_chain part clusters v c bytes size
        ≡ finish part clusters supported
            (write_rounds part clusters ((size - 1) / 512) v c bytes 0)
            (bytes ((size - 1) / 512))
  unfolding write_fat_cluster_chain
  large_file v c bytes size large = rw large refl

  small_file :
      (v : Volume S) (c : ℕ) (bytes : ℕ → S) (size : ℕ)
      → ltb 512 size ≡ false
      → write_fat_cluster_chain part clusters v c bytes size
        ≡ some (
            write_sector part
              (record v { fat_table = set_fat_next_cluster v.fat_table c 4095 })
              c
              (bytes 0))
  unfolding write_fat_cluster_chain
  small_file v c bytes size small = rw small refl

  one_cluster :
      (v : Volume S) (c : ℕ) (bytes : ℕ → S)
      → IsBytes v.fat_table
      → 2 ≤ c
      → c < 4095
      → Stored v c bytes 1 (
          write_sector part
            (record v { fat_table = set_fat_next_cluster v.fat_table c 4095 })
            c
            (bytes (0 + 0)))
  one_cluster v c bytes b two small =
      let v1 = record v { fat_table = set_fat_next_cluster v.fat_table c 4095 } in
      let at = λ (d : ℕ) (h : d < 2 ^ 32).
        (get-set_fat_next_cluster v.fat_table c 4095 d b (omega arith) (omega arith) h).0 in
      let k = loaded_from 0 v1 c bytes (write_sector part v1 c (bytes (0 + 0))) (c ∷ []) refl (
        last_sector part clusters supported v1 c bytes 0 two small
          (ground (arith, at c (omega arith)))) in
      record {
        loaded = k.loaded;
        kept_entries = λ d h used apart. ground (arith, at d h);
        kept_sectors = λ d d2 h used apart.
            rw (sector_apart part c d supported two (omega arith) d2 h apart) refl;
      }

  -- `write_fat_cluster_chain` of a file to a new chain of one cluster, on a supported volume with a
  -- table of fewer than 4095 entries, where a cluster is free for each sector of the file but the
  -- first: it succeeds, `load_fat_cluster_chain` reads the sectors of the file back, and the entries
  -- and sectors of the other clusters in use do not change.
  pub write_fat_cluster_chain-Stored :
      (v : Volume S) (c : ℕ) (bytes : ℕ → S) (size : ℕ)
      → IsTable clusters ((size - 1) / 512) v.fat_table
      → 2 ≤ c
      → c < clusters
      → get_fat_next_cluster v.fat_table c ≡ 4095
      → (w : Volume S) × (write_fat_cluster_chain part clusters v c bytes size ≡ some w)
        × Stored v c bytes (suc ((size - 1) / 512)) w
  write_fat_cluster_chain-Stored v c bytes size t two inside e = elim (Bool-cases (ltb 512 size)) [
    | inl large ↦
        let m = (size - 1) / 512 in
        let (w, cs, done, len, i) =
          rounds-Written part clusters supported m v c bytes 0 t two inside e in
        (
          w,
          large_file v c bytes size large
              ∙ ap
                  (λ (j : ℕ).
                    finish part clusters supported (write_rounds part clusters m v c bytes 0)
                      (bytes j))
                  {x = m} {y = 0 + m} (omega arith)
              ∙ done,
          loaded_from m v c bytes w cs len i,
        )
    | inr short ↦
        let none_more : (size - 1) / 512 ≡ 0 = ground arith in
        (
          _,
          small_file v c bytes size short,
          rw none_more (one_cluster v c bytes t.bytes two (omega (arith, t.few))),
        )
  ]
