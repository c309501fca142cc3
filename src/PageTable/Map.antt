-- ===== src/PageTable/Map.antt =====
-- `map_mem` of kernel/src/paging.c, and what it does for the processor, whose own walk is `translate`: it
-- reads the address of the page from the bits 12 to 51 of the entry.
use efi_os.Prelude.{
  fun_ext, ℕ, suc, refl, sym, ap, subst, inl, inr, ◌∙◌, Bool-cases, ◌+◌, ◌*◌, ◌/◌, ◌%◌, ◌^◌, ◌<◌,
  ◌≤◌, ◌≡◌, true, false, arith, ==_iff, ◌==◌, ◌&&◌, if◌then◌else◌, Option, none, some, List, [],
  ◌∷◌, length,
}
use efi_os.Frames.Count.{IsValid, used_below}
use efi_os.PageTable.{
  Paging, pt_present, pt_get_flag, pt_get_adr, pt_set_flag, pt_set_adr, set_entry, slot_at,
  navigate, map_mem,
}
use efi_os.PageTable.Entry.{get_adr-set_adr, set_adr_fields, get_flag-set_flag}
use efi_os.PageTable.Levels.{IsTree}
use efi_os.PageTable.Walk.{descend, Navigated, navigate-Navigated}

-- The address bits of an entry, for the processor.
abbrev pub page_of : ℕ → ℕ
page_of value = value / 2 ^ 12 % 2 ^ 40 * 2 ^ 12

pub not_leaf :
    (level : ℕ → ℕ) (t leaf s slot : ℕ)
    → level leaf ≡ 1
    → 1 < level t
    → (t == leaf && s == slot) ≡ false
not_leaf level t leaf s slot at_leaf above = elim (Bool-cases (t == leaf)) [
  | inl e ↦ absurd (omega (arith, ap level ((==_iff t leaf).0 e)))
  | inr e ↦ rw e refl
]

-- A store in a table of the last level leaves the way down as it was.
pub descend-kept :
    (level : ℕ → ℕ) (p : Paging) (leaf slot value : ℕ) (slots : List ℕ) (t : ℕ)
    → IsTree level p
    → level leaf ≡ 1
    → level t ≡ suc (length slots)
    → descend (set_entry p leaf slot value).entries t slots ≡ descend p.entries t slots
descend-kept level p leaf slot value [] t tree at_leaf at_t = refl
descend-kept level p leaf slot value (s ∷ ss) t tree at_leaf at_t =
    let other : (t == leaf && s == slot) ≡ false =
      not_leaf level t leaf s slot at_leaf (omega arith) in
    elim (Bool-cases (pt_get_flag (p.entries t s) pt_present)) [
      | inl e ↦
          rw (other, e)
            (descend-kept level p leaf slot value ss (pt_get_adr (p.entries t s)) tree at_leaf
              (tree.child t s (length ss) at_t e))
      | inr e ↦ rw (other, e) refl
    ]

-- The page that a leaf names, if the way led to one.
abbrev pub read_leaf : (entries : ℕ → ℕ → ℕ) → (slot : ℕ) → Option ℕ → Option ℕ
read_leaf e slot none = none
read_leaf e slot (some leaf) =
    if pt_get_flag (e leaf slot) pt_present then some (page_of (e leaf slot)) else none

-- What the processor reads.
abbrev pub translate : (entries : ℕ → ℕ → ℕ) → (root virt : ℕ) → Option ℕ
translate e root virt =
    read_leaf e (slot_at virt 12)
      (descend e root (slot_at virt 39 ∷ slot_at virt 30 ∷ slot_at virt 21 ∷ []))

-- What `map_mem` leaves.
pub record Mapped (memory : ℕ) (level : ℕ → ℕ) (p : Paging) (virt phys : ℕ) (level' : ℕ → ℕ)
    (p' : Paging) : Type 0 where
  pub tree : IsTree level' p'
  pub valid : IsValid memory p'.frames
  pub translated : translate p'.entries p'.kernel_pl4 virt ≡ some phys
  pub kept :
      (x i : ℕ)
      → 1 < level x
      → pt_get_flag (p.entries x i) pt_present ≡ true
      → p'.entries x i ≡ p.entries x i

-- The two stores at the leaf are one.
pub two_stores :
    (p : Paging) (t slot a : ℕ) (b : ℕ → ℕ)
    → set_entry (set_entry p t slot a) t slot (b ((set_entry p t slot a).entries t slot))
      ≡ set_entry p t slot (b a)
two_stores p t slot a b =
    ap (λ (e : ℕ → ℕ → ℕ). record p { entries = e }) (fun_ext (λ x. fun_ext (λ i. stored x i)))
  where
    here : (t == t && slot == slot) ≡ true
    here = ground arith

    stored :
        (x i : ℕ)
        → (set_entry
              (set_entry p t slot a)
              t
              slot
              (b ((set_entry p t slot a).entries t slot))).entries
            x i
          ≡ (set_entry p t slot (b a)).entries x i
    stored x i =
        rw here (elim (Bool-cases (x == t && i == slot)) [ inl e ↦ rw e refl | inr e ↦ rw e refl ])

pub set_page-present :
    (w phys : ℕ)
    → pt_get_flag w pt_present ≡ true
    → pt_get_flag (pt_set_adr w phys) pt_present ≡ true
set_page-present w phys e = (get_adr-set_adr w phys 0 (omega arith)).1 ∙ e

pub set_page-page :
    (w phys : ℕ) → phys % 4096 ≡ 0 → phys < 2 ^ 52 → page_of (pt_set_adr w phys) ≡ phys
set_page-page w phys aligned range = omega (arith, set_adr_fields w phys)

pub leaf_value :
    (value phys : ℕ)
    → pt_get_flag value pt_present ≡ true
    → page_of value ≡ phys
    → (if pt_get_flag value pt_present then some (page_of value) else none) ≡ some phys
leaf_value value phys e f = rw (e, f) refl

pub leaf_store :
    (level : ℕ → ℕ) (p : Paging) (leaf slot value : ℕ)
    → IsTree level p
    → level leaf ≡ 1
    → IsTree level (set_entry p leaf slot value)
leaf_store level p leaf slot value tree at_leaf = record {
  root = tree.root;
  child = λ x i l at_x here.
      let other = not_leaf level x leaf i slot at_leaf (omega (arith, at_x)) in
      rw other (tree.child x i l at_x (rw other at here));
  empty = λ x i l at_x here.
      let other = not_leaf level x leaf i slot at_leaf (omega (arith, at_x)) in
      rw other (tree.empty x i l at_x (rw other at here));
  taken = tree.taken;
}

-- The store at the end of the way, of an entry that names the page.
leaf-Mapped :
    (memory : ℕ) (level level' : ℕ → ℕ) (p : Paging) (virt phys value : ℕ) (r : ℕ × Paging)
    → Navigated memory level p p.kernel_pl4
        (slot_at virt 39 ∷ slot_at virt 30 ∷ slot_at virt 21 ∷ [])
        level'
        r
    → pt_get_flag value pt_present ≡ true
    → page_of value ≡ phys
    → Mapped memory level p virt phys level' (set_entry r.1 r.0 (slot_at virt 12) value)
leaf-Mapped memory level level' p virt phys value r n present names =
    let slot = slot_at virt 12 in
    let slots = slot_at virt 39 ∷ slot_at virt 30 ∷ slot_at virt 21 ∷ [] in
    let here : (r.0 == r.0 && slot == slot) ≡ true = ground arith in
    let way : descend (set_entry r.1 r.0 slot value).entries r.1.kernel_pl4 slots ≡ some r.0 =
      descend-kept level' r.1 r.0 slot value slots r.1.kernel_pl4 n.tree n.leaf n.tree.root
      ∙ ap (λ (t : ℕ). descend r.1.entries t slots) n.same_root
      ∙ n.path in
    record {
      tree = leaf_store level' r.1 r.0 slot value n.tree n.leaf;
      valid = n.valid;
      translated =
          ap (read_leaf (set_entry r.1 r.0 slot value).entries slot) way
          ∙ rw here (leaf_value value phys present names);
      kept = λ x i above there.
          rw (not_leaf level' x r.0 i slot n.leaf (omega (arith, n.levels x (omega arith))))
            (n.kept x i (omega arith) (inl there));
    }

-- `map_mem` of a page, where the page tables form levels, the counts of the page frames agree with
-- their map of at most 2^36 frames, and three of these are free: the processor translates the
-- address to the page, no present entry of an upper table changes, and both invariants hold again.
pub map_mem-Mapped :
    (memory : ℕ) (level : ℕ → ℕ) (p : Paging) (virt phys : ℕ)
    → IsTree level p
    → IsValid memory p.frames
    → p.frames.total_pages ≤ 2 ^ 36
    → used_below p.frames.pages_used p.frames.total_pages + 3 ≤ p.frames.total_pages
    → phys % 4096 ≡ 0
    → phys < 2 ^ 52
    → (level' : ℕ → ℕ) × Mapped memory level p virt phys level' (map_mem p virt phys)
unfolding map_mem
map_mem-Mapped memory level p virt phys tree v small room aligned range =
    let slot = slot_at virt 12 in
    let slots = slot_at virt 39 ∷ slot_at virt 30 ∷ slot_at virt 21 ∷ [] in
    let (level', n) =
      navigate-Navigated memory slots level p p.kernel_pl4 tree v tree.root small room in
    let r = navigate p p.kernel_pl4 slots in
    let w = pt_set_flag (r.1.entries r.0 slot) 7 in
    (
      level',
      subst (Mapped memory level p virt phys level')
          (sym (two_stores r.1 r.0 slot w (λ b. pt_set_adr b phys)))
          (leaf-Mapped memory level level' p virt phys (pt_set_adr w phys) r n
            (set_page-present w phys (get_flag-set_flag (r.1.entries r.0 slot) 7 refl))
            (set_page-page w phys aligned range)),
    )
