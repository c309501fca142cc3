-- ===== src/SortedList/Insert.antt =====
-- `sorted_list_insert` and `sorted_list_get` of kernel/src/sorted_list.c.
use efi_os.Prelude.{
  ℕ, refl, ap, ◌∙◌, inl, inr, Bool-cases, ◌+◌, ◌-◌, ◌*◌, ◌<◌, ◌≤◌, ◌≡◌, ◌≢◌, true, false, Option,
  none, some, arith, ltb, ◌==◌, if◌then◌else◌,
}
use efi_os.Prelude.Int.{ℤ, pos, negsuc}
use efi_os.Memory.{Memory, store, within, memmove}
use efi_os.Memory.Copy.{memmove-Copied}
use efi_os.SortedList.{
  SortedList, sorted_list_search, sorted_list_insert, sorted_list_get, resize_sorted_list,
}
use efi_os.SortedList.Search.{
  IsMonotone, is_zero, not_negative, not_zero, sorted_list_search-Place, sorted_list_search-same,
}
use efi_os.SortedList.Order.{
  IsOrder, IsList, Inserted, list-IsMonotone, Place-ranks, Inserted-IsList,
}

shifted :
    (m : Memory) (size idx x : ℕ)
    → idx ≤ size
    → x ≤ size
    → x ≢ idx
    → (if within (idx + 1) (size - idx) x then m (x - (idx + 1) + idx) else m x)
      ≡ (if ltb x idx then m x else m (x - 1))
shifted m size idx x a b apart = elim (Bool-cases (ltb x idx)) [
  | inl before ↦ ground arith
  | inr behind ↦ ground (arith, ap m (same_cell idx x (ground arith)))
]
  where
    same_cell : (idx x : ℕ) → idx < x → x - (idx + 1) + idx ≡ x - 1
    same_cell idx x h = omega arith

-- The list that was made larger first held the same elements.
same_list :
    (l g : SortedList) (element idx : ℕ) (l' : SortedList)
    → g.size ≡ l.size
    → g.data_cells ≡ l.data_cells
    → Inserted g element idx l'
    → Inserted l element idx l'
same_list l g element idx l' size cells k = record {
  inside = omega (arith, k.inside, size);
  size_more = k.size_more ∙ ap (λ (n : ℕ). n + 1) size;
  cells = λ x h.
      k.cells x (omega (arith, size))
      ∙ ap (λ (m : ℕ → ℕ). if ltb x idx then m x else if x == idx then element else m (x - 1))
          cells;
}

module _ (cmp : ℕ → ℕ → ℤ) (rank : ℕ → ℕ) (order : IsOrder cmp rank) where
  moved_cells :
      (l : SortedList) (element idx x : ℕ)
      → idx ≤ l.size
      → x ≤ l.size
      → store (memmove l.data_cells (idx + 1) idx (l.size - idx)) idx element x
        ≡ (if ltb x idx then l.data_cells x else if x == idx then element else l.data_cells (x - 1))
  moved_cells l element idx x a b = elim (Bool-cases (x == idx)) [
    | inl here ↦ rw here (ground arith)
    | inr apart ↦ rw apart (
        memmove-Copied l.data_cells (idx + 1) idx (l.size - idx) x
        ∙ shifted l.data_cells l.size idx x a b (ground arith))
  ]

  abbrev grown : SortedList → SortedList
  grown l = if l.capacity == l.size + 1 then resize_sorted_list l (l.capacity * 2) else l

  grown-IsList :
      (l : SortedList)
      → IsList rank l
      → IsList rank (grown l)
        × (l.size + 1 < (grown l).capacity)
        × ((grown l).size ≡ l.size)
        × ((grown l).data_cells ≡ l.data_cells)
  grown-IsList l v = elim (Bool-cases (l.capacity == l.size + 1)) [
    | inl full ↦ rw full (
      record { sorted = v.sorted; room = ground (arith, v.room) },
      ground (arith, v.room),
      refl,
      refl,
    )
    | inr space ↦ rw space (v, ground (arith, v.room), refl, refl)
  ]

  -- The list that the call leaves, when the search gives `idx`.
  abbrev with_element : SortedList → (element idx : ℕ) → SortedList
  with_element l element idx = record l {
    data_cells = store (memmove l.data_cells (idx + 1) idx (l.size - idx)) idx element;
    size = l.size + 1;
  }

  insert-empty :
      (l : SortedList) (element : ℕ)
      → ((grown l).size == 0) ≡ true
      → sorted_list_insert cmp l element
        ≡ some (record (grown l) {
          data_cells = store (grown l).data_cells 0 element;
          size = (grown l).size + 1;
        })
  unfolding sorted_list_insert
  insert-empty l element e = rw e refl

  insert-found :
      (l : SortedList) (element idx : ℕ)
      → ((grown l).size == 0) ≡ false
      → sorted_list_search (grown l) element cmp ≡ some idx
      → sorted_list_insert cmp l element ≡ some (with_element (grown l) element idx)
  unfolding sorted_list_insert
  insert-found l element idx e f = rw (e, f) refl

  -- `sorted_list_insert`, with a callback that compares ranks, of a sorted list that has room: it ends,
  -- the element stands among the others, which keep their order, and the list is sorted and has room
  -- again.
  pub sorted_list_insert-Inserted :
      (l : SortedList) (element : ℕ)
      → IsList rank l
      → (l' : SortedList) × (idx : ℕ) × (sorted_list_insert cmp l element ≡ some l')
        × Inserted l element idx l'
        × IsList rank l'
  sorted_list_insert-Inserted l element v =
      let (v', space, same_size, same_cells) = grown-IsList l v in
      elim (Bool-cases ((grown l).size == 0)) [
        | inl empty ↦
            let l' = record (grown l) {
              data_cells = store (grown l).data_cells 0 element;
              size = (grown l).size + 1;
            } in
            let k : Inserted l element 0 l' = record {
              inside = omega arith;
              size_more = ap (λ (n : ℕ). n + 1) same_size;
              cells = λ x h. ground (arith, same_size);
            } in
            (
              l',
              0,
              insert-empty l element empty,
              k,
              Inserted-IsList cmp rank order l element 0 l' v k (λ i h. absurd (omega arith))
                  (λ i a b. absurd (ground (arith, same_size))) (omega (arith, space, same_size)),
            )
        | inr some_there ↦
            let (idx, found, p) =
              sorted_list_search-Place (grown l) element cmp
                (list-IsMonotone cmp rank order (grown l) element v') in
            let l' = with_element (grown l) element idx in
            let k : Inserted (grown l) element idx l' = record {
              inside = p.inside;
              size_more = refl;
              cells = λ x h. moved_cells (grown l) element idx x p.inside h;
            } in
            let ranks = Place-ranks cmp rank order (grown l) element idx v' p in
            (
              l',
              idx,
              insert-found l element idx some_there found,
              same_list l (grown l) element idx l' same_size same_cells k,
              Inserted-IsList cmp rank order (grown l) element idx l' v' k ranks.0 ranks.1
                  (omega (arith, space, same_size)),
            )
      ]

equal_result :
    (z : ℤ) (x : ℕ)
    → is_zero z ≡ true
    → elim z as (λ _. Option ℕ) [ negsuc n ↦ none | pos m ↦ if m == 0 then some x else none ]
      ≡ some x
equal_result (pos m) x e = rw e refl
equal_result (negsuc m) x e = absurd (ground arith)

get-found :
    (l : SortedList) (search : ℕ) (search_cmp : ℕ → ℕ → ℤ) (idx : ℕ)
    → sorted_list_search l search search_cmp ≡ some idx
    → is_zero (search_cmp (l.data_cells idx) search) ≡ true
    → sorted_list_get search_cmp l search ≡ some (l.data_cells idx)
unfolding sorted_list_get
get-found l search search_cmp idx found e =
    rw (sorted_list_get, found)
      (equal_result (search_cmp (l.data_cells idx) search) (l.data_cells idx) e)

-- `sorted_list_get`, where the callback is monotone on the list and calls some element equal, returns
-- an element of the list that the callback calls equal.
pub sorted_list_get-equal :
    (l : SortedList) (search : ℕ) (search_cmp : ℕ → ℕ → ℤ) (i : ℕ)
    → IsMonotone (λ j. search_cmp (l.data_cells j) search) l.size
    → i < l.size
    → is_zero (search_cmp (l.data_cells i) search) ≡ true
    → (idx : ℕ) × (idx < l.size)
      × (sorted_list_get search_cmp l search ≡ some (l.data_cells idx))
      × (is_zero (search_cmp (l.data_cells idx) search) ≡ true)
sorted_list_get-equal l search search_cmp i mono inside here =
    let (idx, found, p) = sorted_list_search-Place l search search_cmp mono in
    elim p.found_or_place [
      | inl (lt, e) ↦ (idx, lt, get-found l search search_cmp idx found e, e)
      | inr (below, above) ↦ elim (Bool-cases (ltb i idx)) [
        | inl before ↦ absurd (
            cc (
              below i (ground arith),
              not_negative (search_cmp (l.data_cells i) search) (inl here),
            ))
        | inr behind ↦ absurd (
            cc
              (here, not_zero (search_cmp (l.data_cells i) search) (above i (ground arith) inside)))
      ]
    ]

-- Callbacks that agree on the elements of a list insert alike.
pub sorted_list_insert-same :
    (l : SortedList) (element : ℕ) (cmp cmp' : ℕ → ℕ → ℤ)
    → ((i : ℕ) → i < l.size → cmp (l.data_cells i) element ≡ cmp' (l.data_cells i) element)
    → sorted_list_insert cmp l element ≡ sorted_list_insert cmp' l element
unfolding sorted_list_insert
sorted_list_insert-same l element cmp cmp' same = elim (Bool-cases (l.capacity == l.size + 1)) [
  | inl full ↦
      rw
        (
          full,
          sorted_list_search-same (resize_sorted_list l (l.capacity * 2)) element cmp cmp' same,
        )
        refl
  | inr space ↦ rw (space, sorted_list_search-same l element cmp cmp' same) refl
]
