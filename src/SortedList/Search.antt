-- ===== src/SortedList/Search.antt =====
-- The binary search of kernel/src/sorted_list.c.
use efi_os.Prelude.{
  ℕ, zero, suc, refl, ap, ◌∙◌, inl, inr, ◌⊎◌, Bool-cases, ◌+◌, ◌/◌, ◌<◌, ◌≤◌, ◌≡◌, ◌≢◌, Bool, true,
  false, Option, some, arith, ==_iff, ◌==◌, if◌then◌else◌,
}
use efi_os.Prelude.Int.{ℤ, pos, negsuc}
use efi_os.Memory.{Memory}
use efi_os.SortedList.{SortedList, search_loop, sorted_list_search}

abbrev pub is_negative : ℤ → Bool
is_negative (negsuc n) = true
is_negative (pos n) = false

abbrev pub is_zero : ℤ → Bool
is_zero (negsuc n) = false
is_zero (pos n) = n == 0

abbrev pub is_positive : ℤ → Bool
is_positive (negsuc n) = false
is_positive (pos n) = if n == 0 then false else true

-- The results of the callback on the elements in turn: first the negative ones, then zeros, then the
-- positive ones.
pub record IsMonotone (value : ℕ → ℤ) (size : ℕ) : Type 0 where
  pub down :
      (i j : ℕ) → i < j → j < size → is_negative (value j) ≡ true → is_negative (value i) ≡ true
  pub up :
      (i j : ℕ) → i < j → j < size → is_positive (value i) ≡ true → is_positive (value j) ≡ true

-- An index of an element that the callback calls equal, or the one where it belongs.
pub record Place (value : ℕ → ℤ) (size idx : ℕ) : Type 0 where
  pub inside : idx ≤ size
  pub found_or_place :
      ((idx < size) × (is_zero (value idx) ≡ true))
      ⊎ (((i : ℕ) → i < idx → is_negative (value i) ≡ true)
          × ((i : ℕ) → idx ≤ i → i < size → is_positive (value i) ≡ true))

negative_step : (z : ℤ) → (is_negative z ≡ true) ⊎ ((is_zero z ≡ true) ⊎ (is_positive z ≡ true))
negative_step (negsuc n) = inl refl
negative_step (pos n) = inr (elim (Bool-cases (n == 0)) [ inl e ↦ inl e | inr e ↦ inr (rw e refl) ])

pub not_negative : (z : ℤ) → (is_zero z ≡ true) ⊎ (is_positive z ≡ true) → is_negative z ≡ false
not_negative (pos n) h = refl
not_negative (negsuc n) (inl h) = absurd (ground arith)
not_negative (negsuc n) (inr h) = absurd (ground arith)

pub not_zero : (z : ℤ) → is_positive z ≡ true → is_zero z ≡ false
not_zero (pos n) h = ground arith
not_zero (negsuc n) h = refl

module _ (cmp : ℕ → ℕ → ℤ) (cells : Memory) (search size : ℕ)
    (mono : IsMonotone (λ i. cmp (cells i) search) size) where
  step :
      (rounds lo hi c : ℕ)
      → lo ≢ hi
      → search_loop (suc rounds) cmp cells search lo hi c ≡ (
          if is_negative (cmp (cells c) search)
          then search_loop rounds cmp cells search (c + 1) hi ((c + 1 + hi) / 2)
          else if is_zero (cmp (cells c) search)
          then some c
          else search_loop rounds cmp cells search lo c ((lo + c) / 2))
  unfolding search_loop
  step rounds lo hi c apart = ground arith

  at_end :
      (rounds lo hi c : ℕ)
      → (lo == hi) ≡ true
      → search_loop (suc rounds) cmp cells search lo hi c ≡ some lo
  unfolding search_loop
  at_end rounds lo hi c e = rw e refl

  below_mid :
      (c i : ℕ)
      → c < size
      → is_negative (cmp (cells c) search) ≡ true
      → i < c + 1
      → is_negative (cmp (cells i) search) ≡ true
  below_mid c i inside neg lt = elim (Bool-cases (i == c)) [
    | inl here ↦ ap (λ (j : ℕ). is_negative (cmp (cells j) search)) ((==_iff i c).0 here) ∙ neg
    | inr before ↦ mono.down i c (ground arith) inside neg
  ]

  above_mid :
      (c i : ℕ)
      → is_positive (cmp (cells c) search) ≡ true
      → c ≤ i
      → i < size
      → is_positive (cmp (cells i) search) ≡ true
  above_mid c i positive a b = elim (Bool-cases (i == c)) [
    | inl here ↦ ap (λ (j : ℕ). is_positive (cmp (cells j) search)) ((==_iff i c).0 here) ∙ positive
    | inr behind ↦ mono.up c i (ground arith) b positive
  ]

  search_loop-Place :
      (rounds lo hi c : ℕ)
      → lo ≤ hi
      → hi ≤ size
      → hi < lo + rounds
      → c ≡ (lo + hi) / 2
      → ((i : ℕ) → i < lo → is_negative (cmp (cells i) search) ≡ true)
      → ((i : ℕ) → hi ≤ i → i < size → is_positive (cmp (cells i) search) ≡ true)
      → (idx : ℕ) × (search_loop rounds cmp cells search lo hi c ≡ some idx)
        × Place (λ i. cmp (cells i) search) size idx
  search_loop-Place zero lo hi c order inside enough mid low high = absurd (omega arith)
  search_loop-Place (suc rounds) lo hi c order inside enough mid low high =
      elim (Bool-cases (lo == hi)) [
        | inl same ↦ (
          lo,
          at_end rounds lo hi c same,
          record {
            inside = omega arith;
            found_or_place = inr (low, λ i a b. high i (ground arith) b);
          },
        )
        | inr apart ↦
            let parted : lo ≢ hi = ground arith in
            let go = step rounds lo hi c parted in
            elim (negative_step (cmp (cells c) search)) [
              | inl neg ↦
                  let low' = λ (i : ℕ) (lt : i < c + 1). below_mid c i (omega arith) neg lt in
                  let (idx, e, p) =
                    search_loop-Place rounds (c + 1) hi ((c + 1 + hi) / 2) (omega arith) inside
                      (omega arith) refl low' high in
                  (idx, go ∙ rw neg e, p)
              | inr (inl zer) ↦ (
                c,
                go ∙ rw (not_negative (cmp (cells c) search) (inl zer), zer) refl,
                record { inside = omega arith; found_or_place = inl (omega arith, zer) },
              )
              | inr (inr positive) ↦
                  let high' = λ (i : ℕ) (a : c ≤ i) (b : i < size). above_mid c i positive a b in
                  let (idx, e, p) =
                    search_loop-Place rounds lo c ((lo + c) / 2) (omega arith) (omega arith)
                      (omega arith) refl low high' in
                  (
                    idx,
                    go
                        ∙ rw
                            (
                              not_negative (cmp (cells c) search) (inr positive),
                              not_zero (cmp (cells c) search) positive,
                            )
                            e,
                    p,
                  )
            ]
      ]

-- `sorted_list_search`, where the callback is monotone on the list, ends and returns the index of an
-- element that the callback calls equal, or the one that splits the elements below from those above.
pub sorted_list_search-Place :
    (l : SortedList) (search : ℕ) (cmp : ℕ → ℕ → ℤ)
    → IsMonotone (λ i. cmp (l.data_cells i) search) l.size
    → (idx : ℕ) × (sorted_list_search l search cmp ≡ some idx)
      × Place (λ i. cmp (l.data_cells i) search) l.size idx
unfolding sorted_list_search
sorted_list_search-Place l search cmp mono =
    search_loop-Place cmp l.data_cells search l.size mono (l.size + 1) 0 l.size (0 + l.size / 2)
      (omega arith) (omega arith) (omega arith) (omega arith) (λ i lt. absurd (omega arith))
      (λ i a b. absurd (omega arith))

branch-same :
    (z : ℤ) (here above above' below below' : Option ℕ)
    → above ≡ above'
    → below ≡ below'
    → elim z as (λ _. Option ℕ) [ negsuc n ↦ above | pos x ↦ if x == 0 then here else below ]
      ≡ elim z as (λ _. Option ℕ) [ negsuc n ↦ above' | pos x ↦ if x == 0 then here else below' ]
branch-same (negsuc n) here above above' below below' e f = e
branch-same (pos x) here above above' below below' e f =
    ap (λ (b : Option ℕ). if x == 0 then here else b) f

-- Callbacks that agree on the elements of a list give the same result of a search.
search_loop-same :
    (cmp cmp' : ℕ → ℕ → ℤ) (cells : Memory) (search size rounds lo hi c : ℕ)
    → ((i : ℕ) → i < size → cmp (cells i) search ≡ cmp' (cells i) search)
    → lo ≤ hi
    → hi ≤ size
    → c ≡ (lo + hi) / 2
    → search_loop rounds cmp cells search lo hi c ≡ search_loop rounds cmp' cells search lo hi c
unfolding search_loop
search_loop-same cmp cmp' cells search size zero lo hi c same order inside mid = refl
search_loop-same cmp cmp' cells search size (suc rounds) lo hi c same order inside mid =
    elim (Bool-cases (lo == hi)) [
      | inl e ↦ rw e refl
      | inr apart ↦
          let above =
            search_loop-same cmp cmp' cells search size rounds (c + 1) hi ((c + 1 + hi) / 2) same
              (ground arith) inside refl in
          let below =
            search_loop-same cmp cmp' cells search size rounds lo c ((lo + c) / 2) same
              (omega arith) (ground arith) refl in
          rw (apart, same c (ground arith))
            (branch-same (cmp' (cells c) search) (some c) _ _ _ _ above below)
    ]

pub sorted_list_search-same :
    (l : SortedList) (search : ℕ) (cmp cmp' : ℕ → ℕ → ℤ)
    → ((i : ℕ) → i < l.size → cmp (l.data_cells i) search ≡ cmp' (l.data_cells i) search)
    → sorted_list_search l search cmp ≡ sorted_list_search l search cmp'
unfolding sorted_list_search
sorted_list_search-same l search cmp cmp' same =
    search_loop-same cmp cmp' l.data_cells search l.size (l.size + 1) 0 l.size (0 + l.size / 2) same
      (omega arith) (omega arith) (omega arith)
