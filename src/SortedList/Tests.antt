-- ===== src/SortedList/Tests.antt =====
-- The sorted list at concrete inputs: elements that are compared as numbers.
use efi_os.Prelude.{ℕ, refl, ◌+◌, ◌*◌, ◌<◌, ◌≡◌, true, some, arith}
use efi_os.Prelude.Int.{ℤ, sub_ℕ}
use efi_os.SortedList.{SortedList, sorted_list_search, sorted_list_insert, sorted_list_get}
use efi_os.SortedList.Search.{IsMonotone, Place, is_zero, sorted_list_search-Place}
use efi_os.SortedList.Order.{IsOrder, IsList, Inserted}
use efi_os.SortedList.Insert.{sorted_list_insert-Inserted, sorted_list_get-equal}

-- `10, 20, 30`.
abbrev tens : SortedList
tens = record { data_cells = λ i. i * 10 + 10; size = 3; capacity = 4 }

abbrev by_value : ℕ → ℕ → ℤ
by_value = sub_ℕ

by_value-IsOrder : IsOrder by_value (λ x. x)
by_value-IsOrder = record {
  less = λ x y h. ground arith;
  equal = λ x y h. ground arith;
  more = λ x y h. ground arith;
}

tens-IsList : IsList (λ x. x) tens
tens-IsList = record { sorted = λ i j lt inside. omega arith; room = omega arith }

tens-IsMonotone : IsMonotone (λ i. by_value (tens.data_cells i) 20) 3
tens-IsMonotone = record {
  down = λ i j lt inside neg. ground arith;
  up = λ i j lt inside above. ground arith;
}

sorted_list_search-Place_example :
    (idx : ℕ) × (sorted_list_search tens 20 by_value ≡ some idx)
    × Place (λ i. by_value (tens.data_cells i) 20) 3 idx
sorted_list_search-Place_example = sorted_list_search-Place tens 20 by_value tens-IsMonotone

sorted_list_insert-Inserted_example :
    (l' : SortedList) × (idx : ℕ) × (sorted_list_insert by_value tens 25 ≡ some l')
    × Inserted tens 25 idx l'
    × IsList (λ x. x) l'
sorted_list_insert-Inserted_example =
    sorted_list_insert-Inserted by_value (λ x. x) by_value-IsOrder tens 25 tens-IsList

sorted_list_get-equal_example :
    (idx : ℕ) × (idx < 3)
    × (sorted_list_get by_value tens 20 ≡ some (tens.data_cells idx))
    × (is_zero (by_value (tens.data_cells idx) 20) ≡ true)
sorted_list_get-equal_example =
    sorted_list_get-equal tens 20 by_value 1 tens-IsMonotone (omega arith) refl
