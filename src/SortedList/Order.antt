-- ===== src/SortedList/Order.antt =====
-- The order that the callbacks of kernel/src/sorted_list.c give, and a list that keeps it.
use efi_os.Prelude.{
  ℕ, ap, ◌∙◌, inl, inr, Bool-cases, ◌+◌, ◌-◌, ◌<◌, ◌≤◌, ◌≡◌, true, arith, ==_iff, ltb, ◌==◌,
  if◌then◌else◌,
}
use efi_os.Prelude.Int.{ℤ}
use efi_os.SortedList.{SortedList}
use efi_os.SortedList.Search.{
  IsMonotone, Place, is_negative, is_zero, is_positive, not_negative, not_zero,
}

-- A callback that compares elements by their rank.
pub record IsOrder (cmp : ℕ → ℕ → ℤ) (rank : ℕ → ℕ) : Type 0 where
  pub less : (x y : ℕ) → rank x < rank y → is_negative (cmp x y) ≡ true
  pub equal : (x y : ℕ) → rank x ≡ rank y → is_zero (cmp x y) ≡ true
  pub more : (x y : ℕ) → rank y < rank x → is_positive (cmp x y) ≡ true

pub record IsList (rank : ℕ → ℕ) (l : SortedList) : Type 0 where
  pub sorted : (i j : ℕ) → i < j → j < l.size → rank (l.data_cells i) ≤ rank (l.data_cells j)
  pub room : l.size < l.capacity

-- The element stands at `idx`, and the others are in their order about it.
pub record Inserted (l : SortedList) (element idx : ℕ) (l' : SortedList) : Type 0 where
  pub inside : idx ≤ l.size
  pub size_more : l'.size ≡ l.size + 1
  pub cells :
      (x : ℕ)
      → x ≤ l.size
      → l'.data_cells x
        ≡ (if ltb x idx then l.data_cells x else if x == idx then element else l.data_cells (x - 1))

module _ (cmp : ℕ → ℕ → ℤ) (rank : ℕ → ℕ) (order : IsOrder cmp rank) where
  -- What the three signs say of the ranks.
  pub rank_below : (x y : ℕ) → is_negative (cmp x y) ≡ true → rank x < rank y
  rank_below x y h = elim (Bool-cases (ltb (rank x) (rank y))) [
    | inl e ↦ ground arith
    | inr ne ↦ elim (Bool-cases (rank x == rank y)) [
      | inl same ↦ absurd (cc (h, not_negative (cmp x y) (inl (order.equal x y (ground arith)))))
      | inr apart ↦ absurd (cc (h, not_negative (cmp x y) (inr (order.more x y (ground arith)))))
    ]
  ]

  pub rank_above : (x y : ℕ) → is_positive (cmp x y) ≡ true → rank y < rank x
  rank_above x y h = elim (Bool-cases (ltb (rank y) (rank x))) [
    | inl e ↦ ground arith
    | inr ne ↦ elim (Bool-cases (rank x == rank y)) [
      | inl same ↦ absurd (cc (order.equal x y (ground arith), not_zero (cmp x y) h))
      | inr apart ↦ absurd (cc (order.less x y (ground arith), not_negative (cmp x y) (inr h)))
    ]
  ]

  pub rank_equal : (x y : ℕ) → is_zero (cmp x y) ≡ true → rank x ≡ rank y
  rank_equal x y h = elim (Bool-cases (ltb (rank x) (rank y))) [
    | inl lt ↦ absurd (cc (order.less x y (ground arith), not_negative (cmp x y) (inl h)))
    | inr ne ↦ elim (Bool-cases (ltb (rank y) (rank x))) [
      | inl gt ↦ absurd (cc (h, not_zero (cmp x y) (order.more x y (ground arith))))
      | inr e ↦ ground arith
    ]
  ]

  pub list-IsMonotone :
      (l : SortedList) (search : ℕ)
      → IsList rank l
      → IsMonotone (λ i. cmp (l.data_cells i) search) l.size
  list-IsMonotone l search v = record {
    down = λ i j lt inside neg.
        order.less (l.data_cells i) search
          (omega (arith, v.sorted i j lt inside, rank_below (l.data_cells j) search neg));
    up = λ i j lt inside above.
        order.more (l.data_cells j) search
          (omega (arith, v.sorted i j lt inside, rank_above (l.data_cells i) search above));
  }

  -- The place found is one where the ranks allow the element.
  pub Place-ranks :
      (l : SortedList) (element idx : ℕ)
      → IsList rank l
      → Place (λ i. cmp (l.data_cells i) element) l.size idx
      → ((i : ℕ) → i < idx → rank (l.data_cells i) ≤ rank element)
        × ((i : ℕ) → idx ≤ i → i < l.size → rank element ≤ rank (l.data_cells i))
  Place-ranks l element idx v p = elim p.found_or_place [
    | inl (lt, here) ↦
        let e = rank_equal (l.data_cells idx) element here in
        (
          (λ i h. omega (arith, e, v.sorted i idx h lt)),
          (λ i a b. elim (Bool-cases (i == idx)) [
            | inl same ↦
                omega (arith, e, ap (λ (j : ℕ). rank (l.data_cells j)) ((==_iff i idx).0 same))
            | inr behind ↦ omega (arith, e, v.sorted idx i (ground arith) b)
          ]),
        )
    | inr (below, above) ↦ (
      (λ i h. omega (arith, rank_below (l.data_cells i) element (below i h))),
      (λ i a b. omega (arith, rank_above (l.data_cells i) element (above i a b))),
    )
  ]

  -- Cells about a place that the ranks allow are sorted.
  pub Inserted-IsList :
      (l : SortedList) (element idx : ℕ) (l' : SortedList)
      → IsList rank l
      → Inserted l element idx l'
      → ((i : ℕ) → i < idx → rank (l.data_cells i) ≤ rank element)
      → ((i : ℕ) → idx ≤ i → i < l.size → rank element ≤ rank (l.data_cells i))
      → l'.size < l'.capacity
      → IsList rank l'
  Inserted-IsList l element idx l' v k low high room = record {
    sorted = λ i j lt inside. ground (
      arith,
      cell_rank i (omega arith),
      cell_rank j (omega arith),
      v.sorted i j lt,
      v.sorted i (j - 1),
      v.sorted (i - 1) (j - 1),
      low i,
      high (j - 1),
      k.size_more,
    );
    room = room;
  }
    where
      cell_rank :
          (x : ℕ)
          → x ≤ l.size
          → rank (l'.data_cells x) ≡ (
              if ltb x idx
              then rank (l.data_cells x)
              else if x == idx
              then rank element
              else rank (l.data_cells (x - 1)))
      cell_rank x h = ap rank (k.cells x h) ∙ ground arith
