-- ===== src/Vfs/Files/Table.antt =====
-- The numbers of the open files, kernel/src/file_table.c.
use efi_os.Prelude.{
  ℕ, refl, sym, ap, ◌∙◌, ◌+◌, ◌-◌, ◌^◌, ◌<◌, ◌≤◌, ◌≡◌, ◌≢◌, inl, inr, Bool-cases, true, false, some,
  arith, ltb, ◌==◌, if◌then◌else◌, add32,
}
use efi_os.SortedList.{sorted_list_insert}
use efi_os.Prelude.Int.{ℤ, pos, ◌-ℤ◌}
use efi_os.SortedList.Order.{IsOrder, IsList}
use efi_os.SortedList.Search.{IsMonotone, is_negative, is_zero, is_positive}
use efi_os.SortedList.Insert.{
  sorted_list_insert-Inserted, sorted_list_insert-same, sorted_list_get-equal,
}
use efi_os.Vfs.Files.{
  FileTable, FileTableEntry, int_difference, file_entry_cmp, file_entry_search_cmp, find_entry,
  create_file_table_entry,
}

abbrev pub number_at : FileTable → ℕ → ℕ
number_at ft i = (ft.file_at (ft.entries.data_cells i)).fd

-- The entries in the order of their numbers, each number once and below the next one to give,
-- an `int` that is not negative.
pub record IsTable (ft : FileTable) : Type 0 where
  pub list : IsList (λ a. (ft.file_at a).fd) ft.entries
  pub once :
      (i j : ℕ)
      → i < ft.entries.size
      → j < ft.entries.size
      → number_at ft i ≡ number_at ft j
      → i ≡ j
  pub below : (i : ℕ) → i < ft.entries.size → number_at ft i < ft.next_id
  pub range : ft.next_id < 2 ^ 31

-- The order of the numbers, as integers without bounds.
abbrev by_number : (ℕ → FileTableEntry) → (first second : ℕ) → ℤ
by_number file_at first second = pos (file_at first).fd -ℤ pos (file_at second).fd

difference :
    (a b : ℕ)
    → ((a < b → is_negative (pos a -ℤ pos b) ≡ true)
        × (is_negative (pos a -ℤ pos b) ≡ true → a < b))
      × ((a ≡ b → is_zero (pos a -ℤ pos b) ≡ true) × (is_zero (pos a -ℤ pos b) ≡ true → a ≡ b))
      × ((b < a → is_positive (pos a -ℤ pos b) ≡ true)
          × (is_positive (pos a -ℤ pos b) ≡ true → b < a))
unfolding ◌-ℤ◌
difference a b = (
  ((λ h. ground arith), (λ h. ground arith)),
  ((λ h. ground arith), (λ h. ground arith)),
  ((λ h. ground arith), (λ h. ground arith)),
)

-- Two numbers that are not negative have a difference that fits an `int`.
int_difference-sub : (a b : ℕ) → a < 2 ^ 31 → b < 2 ^ 31 → int_difference a b ≡ pos a -ℤ pos b
unfolding ◌-ℤ◌
int_difference-sub a b ha hb = ground arith

by_number-IsOrder :
    (file_at : ℕ → FileTableEntry) → IsOrder (by_number file_at) (λ a. (file_at a).fd)
by_number-IsOrder file_at = record {
  less = λ x y h. (difference (file_at x).fd (file_at y).fd).0.0 h;
  equal = λ x y h. (difference (file_at x).fd (file_at y).fd).1.0 h;
  more = λ x y h. (difference (file_at x).fd (file_at y).fd).2.0 h;
}

-- An open number is found.
pub find_entry-IsTable :
    (ft : FileTable) (i : ℕ)
    → IsTable ft
    → i < ft.entries.size
    → find_entry ft (number_at ft i) ≡ some (ft.entries.data_cells i)
unfolding find_entry file_entry_search_cmp
find_entry-IsTable ft i h inside =
    let fd = number_at ft i in
    let at : ℕ → ℕ = number_at ft in
    let small : (j : ℕ) → j < ft.entries.size → at j < 2 ^ 31 =
      λ j less. omega (arith, h.below j less, h.range) in
    let here : (j : ℕ) → j < ft.entries.size → int_difference (at j) fd ≡ pos (at j) -ℤ pos fd =
      λ j less. int_difference-sub (at j) fd (small j less) (small i inside) in
    let mono : IsMonotone (λ j. int_difference (at j) fd) ft.entries.size = record {
      down = λ j k lt less neg. rw (here j (omega arith)) (
          (difference (at j) fd).0.0 (
            omega (
              arith,
              h.list.sorted j k lt less,
              (difference (at k) fd).0.1 (rw (here k less) at neg),
            )));
      up = λ j k lt less above. rw (here k less) (
          (difference (at k) fd).2.0 (
            omega (
              arith,
              h.list.sorted j k lt less,
              (difference (at j) fd).2.1 (rw (here j (omega arith)) at above),
            )));
    } in
    let (idx, less, got, same) =
      sorted_list_get-equal ft.entries fd (file_entry_search_cmp ft.file_at) i mono inside
        (rw (here i inside) ((difference (at i) fd).1.0 refl)) in
    got
    ∙ ap (λ (j : ℕ). some (ft.entries.data_cells j))
        (h.once idx i less inside ((difference (at idx) fd).1.1 (rw (here idx less) at same)))

-- The numbers around a new entry.
record Opened (ft ft' : FileTable) (fe file idx : ℕ) : Type 0 where
  size : ft'.entries.size ≡ ft.entries.size + 1
  inside : idx ≤ ft.entries.size
  next : ft'.next_id ≡ ft.next_id + 1
  entry : ft'.file_at fe ≡ record { fd = ft.next_id; base = file; seek_offset = 0 }
  cells :
      (x : ℕ)
      → x ≤ ft.entries.size
      → ft'.entries.data_cells x ≡ (
          if ltb x idx
          then ft.entries.data_cells x
          else if x == idx
          then fe
          else ft.entries.data_cells (x - 1))
  numbers :
      (x : ℕ)
      → x ≤ ft.entries.size
      → number_at ft' x ≡ (
          if ltb x idx
          then number_at ft x
          else if x == idx
          then ft.next_id
          else number_at ft (x - 1))
  list : IsList (λ a. (ft'.file_at a).fd) ft'.entries

create_file_table_entry-Opened :
    (ft : FileTable) (fe file : ℕ)
    → IsTable ft
    → ft.next_id < 2 ^ 31 - 1
    → ((i : ℕ) → i < ft.entries.size → ft.entries.data_cells i ≢ fe)
    → (ft' : FileTable) × (idx : ℕ) × (create_file_table_entry ft fe file ≡ some (ft.next_id, ft'))
      × Opened ft ft' fe file idx
unfolding create_file_table_entry file_entry_cmp
create_file_table_entry-Opened ft fe file h more fresh =
    let entry : FileTableEntry = record { fd = ft.next_id; base = file; seek_offset = 0 } in
    let file_at : ℕ → FileTableEntry = λ a. if a == fe then entry else ft.file_at a in
    let same : (fe == fe) ≡ true = ground arith in
    let old : (i : ℕ)
        → i < ft.entries.size
        → file_at (ft.entries.data_cells i) ≡ ft.file_at (ft.entries.data_cells i) =
      λ i less.
        let other : (ft.entries.data_cells i == fe) ≡ false = ground (arith, fresh i less) in
        rw other refl in
    let old_fd : (i : ℕ)
        → i < ft.entries.size
        → (file_at (ft.entries.data_cells i)).fd ≡ number_at ft i =
      λ i less. ap (λ (e : FileTableEntry). e.fd) (old i less) in
    let list : IsList (λ a. (file_at a).fd) ft.entries = record {
      sorted = λ i j lt less.
          omega (arith, h.list.sorted i j lt less, old_fd i (omega arith), old_fd j less);
      room = h.list.room;
    } in
    let (entries, idx, run, inserted, list') =
      sorted_list_insert-Inserted (by_number file_at) (λ a. (file_at a).fd)
        (by_number-IsOrder file_at) ft.entries fe list in
    let new_fd : (file_at fe).fd ≡ ft.next_id =
      ap (λ (n : FileTableEntry). n.fd) {x = file_at fe} {y = entry} (rw same refl) in
    let alike : (i : ℕ)
        → i < ft.entries.size
        → file_entry_cmp file_at (ft.entries.data_cells i) fe
          ≡ by_number file_at (ft.entries.data_cells i) fe =
      λ i less.
        int_difference-sub (file_at (ft.entries.data_cells i)).fd (file_at fe).fd
          (omega (arith, old_fd i less, h.below i less, h.range))
          (omega (arith, new_fd, h.range)) in
    let run' : sorted_list_insert (file_entry_cmp file_at) ft.entries fe ≡ some entries =
      sorted_list_insert-same ft.entries fe (file_entry_cmp file_at) (by_number file_at) alike
      ∙ run in
    let ft' : FileTable = record {
      entries = entries;
      next_id = add32 ft.next_id 1;
      file_at = file_at;
    } in
    (
      ft',
      idx,
      rw run' refl,
      record {
        size = inserted.size_more;
        inside = inserted.inside;
        next = omega arith;
        entry = rw same refl;
        cells = inserted.cells;
        numbers = λ x less.
            ap (λ (a : ℕ). (file_at a).fd) (inserted.cells x less) ∙ elim (Bool-cases (ltb x idx)) [
              | inl e ↦ rw e (old_fd x (ground (arith, inserted.inside)))
              | inr e ↦ rw e (elim (Bool-cases (x == idx)) [
                | inl f ↦
                    rw f (
                      ap (λ (n : FileTableEntry). n.fd) {x = file_at fe} {y = entry} (rw same refl))
                | inr f ↦ rw f (old_fd (x - 1) (ground (arith, inserted.inside)))
              ])
            ];
        list = list';
      },
    )

Opened-IsTable :
    (ft ft' : FileTable) (fe file idx : ℕ)
    → IsTable ft
    → ft.next_id < 2 ^ 31 - 1
    → Opened ft ft' fe file idx
    → IsTable ft'
Opened-IsTable ft ft' fe file idx h more o = record {
  list = o.list;
  once = λ i j less less' e. ground (
    arith,
    o.size,
    o.inside,
    o.numbers i (omega (arith, o.size)),
    o.numbers j (omega (arith, o.size)),
    h.once i j,
    h.once i (j - 1),
    h.once (i - 1) j,
    h.once (i - 1) (j - 1),
    h.below i,
    h.below j,
    h.below (i - 1),
    h.below (j - 1),
  );
  below = λ i less. ground (
    arith,
    o.size,
    o.inside,
    o.next,
    o.numbers i (omega (arith, o.size)),
    h.below i,
    h.below (i - 1),
  );
  range = omega (arith, o.next, more);
}

-- A table whose entries stand in the order of their numbers, each number once and below the next one to give,
-- which is below 2^31 - 1, the last one of an `int`, and a new entry at an
-- address that none of them has: `create_file_table_entry` gives the next number, which no open file has; the table has the
-- same properties again, the new number leads to the new entry, and each number that was open leads to its entry as before.
pub create_file_table_entry-IsTable :
    (ft : FileTable) (fe file : ℕ)
    → IsTable ft
    → ft.next_id < 2 ^ 31 - 1
    → ((i : ℕ) → i < ft.entries.size → ft.entries.data_cells i ≢ fe)
    → (ft' : FileTable) × (create_file_table_entry ft fe file ≡ some (ft.next_id, ft'))
      × ((i : ℕ) → i < ft.entries.size → number_at ft i ≢ ft.next_id)
      × IsTable ft'
      × (find_entry ft' ft.next_id ≡ some fe)
      × (ft'.file_at fe ≡ record { fd = ft.next_id; base = file; seek_offset = 0 })
      × ((i : ℕ)
          → i < ft.entries.size
          → find_entry ft' (number_at ft i) ≡ some (ft.entries.data_cells i))
create_file_table_entry-IsTable ft fe file h more fresh =
    let (ft', idx, run, o) = create_file_table_entry-Opened ft fe file h more fresh in
    let table = Opened-IsTable ft ft' fe file idx h more o in
    let found : (x fd a : ℕ)
        → x ≤ ft.entries.size
        → number_at ft' x ≡ fd
        → ft'.entries.data_cells x ≡ a
        → find_entry ft' fd ≡ some a =
      λ x fd a less e c.
        ap (find_entry ft') (sym e)
        ∙ find_entry-IsTable ft' x table (omega (arith, o.size))
        ∙ ap some c in
    (
      ft',
      run,
      (λ i less e. omega (arith, h.below i less, e)),
      table,
      found idx ft.next_id fe o.inside (o.numbers idx o.inside ∙ ground arith)
          (o.cells idx o.inside ∙ ground arith),
      o.entry,
      λ i less. elim (Bool-cases (ltb i idx)) [
        | inl e ↦
            found i (number_at ft i) (ft.entries.data_cells i) (omega arith)
              (o.numbers i (omega arith) ∙ rw e refl) (o.cells i (omega arith) ∙ rw e refl)
        | inr e ↦
            let a : ltb (i + 1) idx ≡ false = ground arith in
            let b : (i + 1 == idx) ≡ false = ground arith in
            let c : i + 1 - 1 ≡ i = omega arith in
            found (i + 1) (number_at ft i) (ft.entries.data_cells i) (omega arith)
              (o.numbers (i + 1) (omega arith) ∙ rw a (rw b (ap (number_at ft) c)))
              (o.cells (i + 1) (omega arith) ∙ rw a (rw b (ap ft.entries.data_cells c)))
      ],
    )
