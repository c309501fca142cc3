-- ===== src/PageTable/Unmap.antt =====
-- `unmap_mem` of kernel/src/paging.c.
use mathlib.Core.Option.{some_inj}
use efi_os.Prelude.{
  ℕ, refl, ap, inl, inr, ◌∙◌, Bool-cases, ◌≡◌, true, arith, ◌==◌, ◌&&◌, some, List, [], ◌∷◌,
}
use efi_os.Prelude.Bits.{bit_or-zero}
use efi_os.Frames.{free_page}
use efi_os.PageTable.{
  Paging, pt_present, pt_get_flag, pt_get_adr, pt_set_flag, pt_set_adr, set_entry, slot_at,
  next_level, navigate, unmap_mem,
}
use efi_os.PageTable.Levels.{IsTree}
use efi_os.PageTable.Walk.{descend}
use efi_os.PageTable.Map.{
  translate, read_leaf, descend-kept, two_stores, set_page-present, set_page-page, leaf_value,
}

-- Where all tables are there, the walk changes nothing.
navigate-present :
    (slots : List ℕ) (p : Paging) (t leaf : ℕ)
    → descend p.entries t slots ≡ some leaf
    → navigate p t slots ≡ (leaf, p)
unfolding navigate next_level
navigate-present [] p t leaf way = ap (λ (x : ℕ). (x, p)) (some_inj.0 way)
navigate-present (s ∷ ss) p t leaf way =
    elim (Bool-cases (pt_get_flag (p.entries t s) pt_present)) [
      | inl e ↦ rw e (navigate-present ss p (pt_get_adr (p.entries t s)) leaf (rw e at way))
      | inr e ↦ cc (rw e at way)
    ]

flag_zero : (value : ℕ) → pt_set_flag value 0 ≡ value
unfolding pt_set_flag
flag_zero value = bit_or-zero value

-- The code of `unmap_mem` behind its walk.
abbrev unmap_leaf : ℕ × Paging → (slot : ℕ) → Paging
unmap_leaf (pl1, p1) slot =
    let p2 = record p1 { frames = free_page p1.frames (pt_get_adr (p1.entries pl1 slot)) } in
    let p3 = set_entry p2 pl1 slot (pt_set_flag (p2.entries pl1 slot) 0) in
    set_entry p3 pl1 slot (pt_set_adr (p3.entries pl1 slot) 0)

unmap_leaf-entries :
    (p : Paging) (leaf slot : ℕ)
    → (unmap_leaf (leaf, p) slot).entries
      ≡ (set_entry p leaf slot (pt_set_adr (p.entries leaf slot) 0)).entries
unmap_leaf-entries p leaf slot =
    ap (λ (q : Paging). q.entries)
      (two_stores p leaf slot (pt_set_flag (p.entries leaf slot) 0) (λ b. pt_set_adr b 0))
    ∙ ap (λ (v : ℕ). (set_entry p leaf slot (pt_set_adr v 0)).entries)
        (flag_zero (p.entries leaf slot))

-- `unmap_mem` of an address that is mapped, where the page tables form levels, gives the frame back,
-- but the entry stays present: the processor translates the address to frame 0.
pub unmap_mem-stays :
    (level : ℕ → ℕ) (p : Paging) (virt leaf : ℕ)
    → IsTree level p
    → level leaf ≡ 1
    → descend p.entries p.kernel_pl4 (slot_at virt 39 ∷ slot_at virt 30 ∷ slot_at virt 21 ∷ [])
      ≡ some leaf
    → pt_get_flag (p.entries leaf (slot_at virt 12)) pt_present ≡ true
    → ((unmap_mem p virt).frames
        ≡ free_page p.frames (pt_get_adr (p.entries leaf (slot_at virt 12))))
      × (translate (unmap_mem p virt).entries p.kernel_pl4 virt ≡ some 0)
unfolding unmap_mem
unmap_mem-stays level p virt leaf tree at_leaf way present =
    let slot = slot_at virt 12 in
    let slots = slot_at virt 39 ∷ slot_at virt 30 ∷ slot_at virt 21 ∷ [] in
    let same = navigate-present slots p p.kernel_pl4 leaf way in
    let value = p.entries leaf slot in
    let emptied = set_entry p leaf slot (pt_set_adr value 0) in
    let here : (leaf == leaf && slot == slot) ≡ true = ground arith in
    let stored : (unmap_mem p virt).entries ≡ emptied.entries =
      ap (λ r. (unmap_leaf r slot).entries) same ∙ unmap_leaf-entries p leaf slot in
    (
      ap (λ r. (unmap_leaf r slot).frames) same,
      ap (λ e. translate e p.kernel_pl4 virt) stored
          ∙ ap (read_leaf emptied.entries slot) (
              descend-kept level p leaf slot (pt_set_adr value 0) slots p.kernel_pl4 tree at_leaf
                tree.root
              ∙ way)
          ∙ rw here (
              leaf_value (pt_set_adr value 0) 0 (set_page-present value 0 present)
                (set_page-page value 0 refl (omega arith))),
    )
