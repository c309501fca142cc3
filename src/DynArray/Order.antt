-- ===== src/DynArray/Order.antt =====
-- What the operations of kernel/src/dynarray.c do to the elements.
use efi_os.Prelude.{ℕ, ap, ◌∙◌, ◌+◌, ◌-◌, ◌<◌, ◌≤◌, ◌≡◌, arith, ltb, if◌then◌else◌}
use efi_os.Memory.Copy.{memmove-Copied}
use efi_os.DynArray.{DynArray, dynarray_add, dynarray_remove_index}

-- The array has room for what it holds.
abbrev IsRoomy : DynArray → Type 0
IsRoomy arr = (0 < arr.capacity) × (arr.size ≤ arr.capacity)

-- Adding keeps the elements and their places, and doubles a full array.
dynarray_add-IsRoomy :
    (arr : DynArray) (elem : ℕ)
    → IsRoomy arr
    → IsRoomy (dynarray_add arr elem)
      × ((i : ℕ)
          → i < arr.size + 1
          → (dynarray_add arr elem).data_cells i
            ≡ (if ltb i arr.size then arr.data_cells i else elem))
unfolding dynarray_add
dynarray_add-IsRoomy arr elem h = ((ground arith, ground arith), λ i less. ground arith)

-- Removing moves the elements behind the place by one, and keeps the others.
dynarray_remove_index-IsRoomy :
    (arr : DynArray) (index : ℕ)
    → IsRoomy arr
    → index < arr.size
    → IsRoomy (dynarray_remove_index arr index)
      × ((i : ℕ)
          → i < arr.size - 1
          → (dynarray_remove_index arr index).data_cells i
            ≡ (if ltb i index then arr.data_cells i else arr.data_cells (i + 1)))
unfolding dynarray_remove_index
dynarray_remove_index-IsRoomy arr index h inside = (
  (ground arith, ground arith),
  λ i less.
      memmove-Copied arr.data_cells index (index + 1) (arr.size - index - 1) i
      ∙ ground (arith, moved i),
)
  where
    moved : (i : ℕ) → index ≤ i → arr.data_cells (i - index + (index + 1)) ≡ arr.data_cells (i + 1)
    moved i h = ap arr.data_cells (omega arith)
