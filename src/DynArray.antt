-- ===== src/DynArray.antt =====
-- The growing array of kernel/src/dynarray.c. The array is a function from its cells, which `krealloc`
-- keeps.
mod Order
use efi_os.Prelude.{ℕ, ◌+◌, ◌-◌, ◌*◌, ◌==◌, if◌then◌else◌}
use efi_os.Memory.{Memory, store, memmove}

pub record DynArray : Type 0 where
  pub data_cells : Memory
  pub size : ℕ
  pub capacity : ℕ

abbrev pub initial_capacity : ℕ
initial_capacity = 16

pub dynarray_init : (cells : Memory) → DynArray
dynarray_init cells = record { data_cells = cells; size = 0; capacity = initial_capacity }

pub dynarray_add : DynArray → (elem : ℕ) → DynArray
dynarray_add arr elem = record arr {
  capacity = if arr.size == arr.capacity then arr.capacity * 2 else arr.capacity;
  data_cells = store arr.data_cells arr.size elem;
  size = arr.size + 1;
}

pub dynarray_remove_index : DynArray → (index : ℕ) → DynArray
dynarray_remove_index arr index = record arr {
  data_cells = memmove arr.data_cells index (index + 1) (arr.size - index - 1);
  size = arr.size - 1;
}
