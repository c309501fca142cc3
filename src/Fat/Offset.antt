-- ===== src/Fat/Offset.antt =====
-- Reading from the middle of a chain, and the root directory in place of cluster 0, kernel/src/fat.c.
use efi_os.Prelude.{
  ℕ, zero, suc, refl, sym, ap, Bool-cases, Option-cases, inl, inr, ◌∙◌, ◌≤◌, ◌≡◌, ◌⊎◌, true, false,
  Option, some, List, [], ◌∷◌, length, take, drop, arith, ◌==◌, if◌then◌else◌, ◌%◌, ◌^◌, ◌<◌,
}
use efi_os.Fat.{
  BootSector, Volume, get_root_dir_sectors, get_first_sector_of_cluster, get_fat_next_cluster,
  chain_length, load_chain,
}

-- Cluster 0 stands for the root directory. The argument is a `uint16_t`.
pub get_cluster_chain_length :
    (rounds : ℕ) → BootSector → (fat_table : ℕ → ℕ) → (next_cluster : ℕ) → Option ℕ
get_cluster_chain_length rounds part fat_table next_cluster =
    let cluster = next_cluster % 2 ^ 16 in
    let counted = chain_length rounds fat_table cluster 0 in
    if cluster == 0 then some (get_root_dir_sectors part) else counted

-- The first loop of `read_cluster_chain_from_offset`.
skip_loop : (base : ℕ) → (fat_table : ℕ → ℕ) → (cluster : ℕ) → ℕ
skip_loop zero fat_table cluster = cluster
skip_loop (suc base) fat_table cluster =
    skip_loop base fat_table (get_fat_next_cluster fat_table cluster)

module _ {S : Type 0} (part : BootSector) where
  -- `root_directory` is the copy in memory; the argument is a `uint16_t` here too.
  unfoldable pub load_fat_cluster_chain :
      (rounds : ℕ) → Volume S → (root_directory : List S) → (next_cluster : ℕ) → Option (List S)
  load_fat_cluster_chain rounds v root_directory next_cluster =
      let cluster = next_cluster % 2 ^ 16 in
      let loaded = load_chain part rounds v cluster in
      if cluster == 0 then some root_directory else loaded

  -- The second loop, up to the end of the chain.
  read_loop : (sectors : ℕ) → Volume S → (cluster : ℕ) → List S
  read_loop zero v cluster = []
  read_loop (suc sectors) v cluster =
      let further = read_loop sectors v (get_fat_next_cluster v.fat_table cluster) in
      if cluster == 4095 then [] else v.disk (get_first_sector_of_cluster part cluster) ∷ further

  pub read_cluster_chain_from_offset : Volume S → (cluster base sectors : ℕ) → List S
  unfolding read_loop skip_loop
  read_cluster_chain_from_offset v cluster base sectors =
      read_loop sectors v (skip_loop base v.fat_table cluster)

  -- A chain that loads is at its end, or has a first sector and a rest that loads.
  load_chain_cases :
      (rounds : ℕ) (v : Volume S) (cluster : ℕ) (loaded : List S)
      → load_chain part (suc rounds) v cluster ≡ some loaded
      → (((cluster == 4095) ≡ true) × (loaded ≡ []))
        ⊎ (((cluster == 4095) ≡ false)
            × ((rest : List S) × (load_chain part rounds v
                    (get_fat_next_cluster v.fat_table cluster)
                  ≡ some rest)
                × (loaded ≡ v.disk (get_first_sector_of_cluster part cluster) ∷ rest)))
  unfolding load_chain
  load_chain_cases rounds v cluster loaded h = elim (Bool-cases (cluster == 4095)) [
    | inl e ↦ inl (e, ground arith)
    | inr e ↦
        elim (Option-cases (load_chain part rounds v (get_fat_next_cluster v.fat_table cluster))) [
          | inl n ↦ absurd (ground arith)
          | inr (rest, r) ↦ inr (e, (rest, r, ground arith))
        ]
  ]

  no_rounds :
      (v : Volume S) (cluster : ℕ) (loaded : List S)
      → load_chain part zero v cluster ≡ some loaded
      → ⊥
  unfolding load_chain
  no_rounds v cluster loaded h = ground arith

  -- Reading from the start gives the first sectors of the chain, as many as asked for or all.
  read_loop-load_chain :
      (sectors rounds : ℕ) (v : Volume S) (cluster : ℕ) (loaded : List S)
      → load_chain part rounds v cluster ≡ some loaded
      → read_loop sectors v cluster ≡ take sectors loaded
  unfolding read_loop
  read_loop-load_chain zero rounds v cluster loaded h = refl
  read_loop-load_chain (suc sectors) zero v cluster loaded h = absurd (no_rounds v cluster loaded h)
  read_loop-load_chain (suc sectors) (suc rounds) v cluster loaded h =
      elim (load_chain_cases rounds v cluster loaded h) [
        | inl (e, none_left) ↦ rw e (rw none_left refl)
        | inr (e, (rest, r, first)) ↦ rw e (
            rw first (
              ap (λ (ss : List S). v.disk (get_first_sector_of_cluster part cluster) ∷ ss)
                (read_loop-load_chain sectors rounds v (get_fat_next_cluster v.fat_table cluster)
                  rest r)))
      ]

  -- The same of the loop of `load_fat_cluster_chain`.
  read_from_offset :
      (base sectors rounds : ℕ) (v : Volume S) (cluster : ℕ) (loaded : List S)
      → load_chain part rounds v cluster ≡ some loaded
      → base ≤ length loaded
      → read_cluster_chain_from_offset v cluster base sectors ≡ take sectors (drop base loaded)
  unfolding read_cluster_chain_from_offset skip_loop
  read_from_offset zero sectors rounds v cluster loaded h inside =
      read_loop-load_chain sectors rounds v cluster loaded h
  read_from_offset (suc base) sectors zero v cluster loaded h inside =
      absurd (no_rounds v cluster loaded h)
  read_from_offset (suc base) sectors (suc rounds) v cluster loaded h inside =
      elim (load_chain_cases rounds v cluster loaded h) [
        | inl (e, none_left) ↦ absurd (omega (arith, ap length none_left))
        | inr (e, (rest, r, first)) ↦
            read_from_offset base sectors rounds v (get_fat_next_cluster v.fat_table cluster) rest r
              (omega (arith, ap length first))
            ∙ ap (λ (ss : List S). take sectors (drop (suc base) ss))
                {x = v.disk (get_first_sector_of_cluster part cluster) ∷ rest} {y = loaded}
                (sym first)
      ]

  -- Where `load_fat_cluster_chain` loads the chain at a cluster, which fits its `uint16_t` and is not 0,
  -- the root directory's, read_cluster_chain_from_offset with a base of at most the chain's length gives
  -- the sectors from the base on, as many as it is asked for or all that there are.
  pub read_cluster_chain_from_offset-load_fat_cluster_chain :
      (base sectors rounds : ℕ) (v : Volume S) (root_directory : List S) (cluster : ℕ)
      (loaded : List S)
      → 0 < cluster
      → cluster < 2 ^ 16
      → load_fat_cluster_chain rounds v root_directory cluster ≡ some loaded
      → base ≤ length loaded
      → read_cluster_chain_from_offset v cluster base sectors ≡ take sectors (drop base loaded)
  unfolding load_fat_cluster_chain
  read_cluster_chain_from_offset-load_fat_cluster_chain base sectors rounds v root_directory cluster
        loaded file small h inside =
      let same : cluster % 2 ^ 16 ≡ cluster = omega arith in
      let not_root : (cluster == 0) ≡ false = ground arith in
      read_from_offset base sectors rounds v cluster loaded (rw (same, not_root) at h) inside
