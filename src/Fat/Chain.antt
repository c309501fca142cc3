-- ===== src/Fat/Chain.antt =====
-- The chains of clusters of kernel/src/fat.c, and the loops that follow one.
use efi_os.Prelude.{
  ℕ, zero, suc, refl, ap, ◌∙◌, ◌+◌, ◌<◌, ◌≡◌, ◌≢◌, false, map, length, List, [], ◌∷◌, some, arith,
  ◌==◌,
}
use efi_os.Fat.{
  BootSector, Volume, get_fat_next_cluster, get_first_sector_of_cluster, chain_length, load_chain,
}

-- `cs` are the clusters of the chain that begins at a cluster.
pub data Chain (t : ℕ → ℕ) : ℕ → List ℕ → Type 0 where
  end_of_chain : Chain t 4095 []
  linked :
      {c : ℕ} {cs : List ℕ} → c ≢ 4095 → Chain t (get_fat_next_cluster t c) cs → Chain t c (c ∷ cs)

not_last : (c : ℕ) → c ≢ 4095 → (c == 4095) ≡ false
not_last c h = ground arith

-- The length of a chain.
pub chain_length-Chain :
    (rounds : ℕ) (t : ℕ → ℕ) (c i : ℕ) (cs : List ℕ)
    → Chain t c cs
    → length cs < rounds
    → chain_length rounds t c i ≡ some (i + length cs)
unfolding chain_length
chain_length-Chain zero t c i cs k enough = absurd (omega arith)
chain_length-Chain (suc rounds) t c i [] end_of_chain enough =
    ap some {x = i} {y = i + 0} (omega arith)
chain_length-Chain (suc rounds) t c i (d ∷ cs) (linked apart k) enough = rw (not_last c apart) (
    chain_length-Chain rounds t (get_fat_next_cluster t c) (i + 1) cs k (omega arith)
    ∙ ap some {x = i + 1 + length cs} {y = i + suc (length cs)} (omega arith))

module _ {S : Type 0} (part : BootSector) where
  -- `load_fat_cluster_chain` of a chain reads its sectors in order.
  pub load_chain-Chain :
      (rounds : ℕ) (v : Volume S) (c : ℕ) (cs : List ℕ)
      → Chain v.fat_table c cs
      → length cs < rounds
      → load_chain part rounds v c
        ≡ some (map (λ d. v.disk (get_first_sector_of_cluster part d)) cs)
  unfolding load_chain
  load_chain-Chain zero v c cs k enough = absurd (omega arith)
  load_chain-Chain (suc rounds) v c [] end_of_chain enough = refl
  load_chain-Chain (suc rounds) v c (d ∷ cs) (linked apart k) enough =
      rw
        (
          not_last c apart,
          load_chain-Chain rounds v (get_fat_next_cluster v.fat_table c) cs k (omega arith),
        )
        refl
