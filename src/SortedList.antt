-- ===== src/SortedList.antt =====
-- The sorted list of kernel/src/sorted_list.c, an array of pointers kept in the order of a callback.
-- A pointer is a number, and the array a function from its cells. `krealloc` keeps the cells.
pub mod Search
pub mod Order
pub mod Insert
mod Tests
use efi_os.Prelude.{
  ℕ, zero, suc, ◌+◌, ◌-◌, ◌*◌, ◌/◌, Bool, true, false, Option, none, some, ◌==◌, if◌then◌else◌,
}
use efi_os.Prelude.Int.{ℤ, pos, negsuc}
use efi_os.Memory.{Memory, store, memmove}

-- The comparisons are the callbacks `cmp` and `search_cmp`.
pub record SortedList : Type 0 where
  pub data_cells : Memory
  pub size : ℕ
  pub capacity : ℕ

abbrev pub vector_base_capacity : ℕ
vector_base_capacity = 1

pub create_sorted_list : (cells : Memory) → SortedList
create_sorted_list cells = record { data_cells = cells; size = 0; capacity = vector_base_capacity }

abbrev pub resize_sorted_list : SortedList → (new_size : ℕ) → SortedList
resize_sorted_list l new_size = record l { capacity = new_size }

-- The loop of `sorted_list_search`; `none` if the rounds run out.
search_loop : (rounds : ℕ) → (ℕ → ℕ → ℤ) → Memory → (search : ℕ) → (min max c_idx : ℕ) → Option ℕ
search_loop zero element_cmp cells search min max c_idx = none
search_loop (suc rounds) element_cmp cells search min max c_idx =
    let above =
      search_loop rounds element_cmp cells search (c_idx + 1) max ((c_idx + 1 + max) / 2) in
    let below = search_loop rounds element_cmp cells search min c_idx ((min + c_idx) / 2) in
    if min == max then some min else elim (element_cmp (cells c_idx) search) [
      | negsuc n ↦ above
      | pos x ↦ if x == 0 then some c_idx else below
    ]

-- A round halves the rest, or more: one for each element and one more are enough.
pub sorted_list_search : SortedList → (search : ℕ) → (ℕ → ℕ → ℤ) → Option ℕ
unfolding search_loop
sorted_list_search l search element_cmp =
    search_loop (l.size + 1) element_cmp l.data_cells search 0 l.size (0 + l.size / 2)

module _ (cmp : ℕ → ℕ → ℤ) where
  pub sorted_list_insert : SortedList → (element : ℕ) → Option SortedList
  unfolding sorted_list_search
  sorted_list_insert l element =
      let l1 = if l.capacity == l.size + 1 then resize_sorted_list l (l.capacity * 2) else l in
      if l1.size == 0
      then some (record l1 { data_cells = store l1.data_cells 0 element; size = l1.size + 1 })
      else elim (sorted_list_search l1 element cmp) [
        | none ↦ none
        | some c_idx ↦
            let moved = memmove l1.data_cells (c_idx + 1) c_idx (l1.size - c_idx) in
            some (record l1 { data_cells = store moved c_idx element; size = l1.size + 1 })
      ]

  pub sorted_list_remove : SortedList → (element : ℕ) → Option SortedList
  unfolding sorted_list_search
  sorted_list_remove l element = elim (sorted_list_search l element cmp) [
    | none ↦ none
    | some c_idx ↦
        let moved = memmove l.data_cells c_idx (c_idx + 1) (l.size - c_idx) in
        some (record l { data_cells = store moved (l.size - 1) 0; size = l.size - 1 })
  ]

-- `none` is NULL.
pub sorted_list_get : (search_cmp : ℕ → ℕ → ℤ) → SortedList → (search : ℕ) → Option ℕ
unfolding sorted_list_search
sorted_list_get search_cmp l search = elim (sorted_list_search l search search_cmp) [
  | none ↦ none
  | some idx ↦ elim (search_cmp (l.data_cells idx) search) [
    | negsuc n ↦ none
    | pos x ↦ if x == 0 then some (l.data_cells idx) else none
  ]
]
