-- ===== src/PageTable/Levels.antt =====
-- One level of the walk of kernel/src/paging.c, and the invariant of the page tables: they form
-- levels, so that no table is its own descendant, and only frames in use hold tables.
use efi_os.Prelude.{
  fun_ext, ℕ, suc, refl, sym, ap, subst, inl, inr, ◌⊎◌, ◌≢◌, ◌∙◌, Bool-cases, ◌+◌, ◌*◌, ◌^◌, ◌<◌,
  ◌≤◌, ◌≡◌, true, false, arith, ◌==◌, ◌&&◌, if◌then◌else◌,
}
use efi_os.Frames.{Frames, request_page, mark}
use efi_os.Frames.Count.{IsValid, used_below, used_below-take}
use efi_os.Frames.Request.{
  Requested, granted, all_used, request_page-Requested, total-request_page, used_below-all,
}
use efi_os.PageTable.{
  Paging, pt_present, pt_get_flag, pt_get_adr, pt_set_flag, pt_set_adr, new_table, next_level,
}
use efi_os.PageTable.Entry.{get_adr-set_adr}

-- `level` gives each table its level, 4 at the root and 1 at the leaves, and 0 to what is no table.
pub record IsTree (level : ℕ → ℕ) (p : Paging) : Type 0 where
  pub root : level p.kernel_pl4 ≡ 4
  pub child :
      (t i l : ℕ)
      → level t ≡ suc (suc l)
      → pt_get_flag (p.entries t i) pt_present ≡ true
      → level (pt_get_adr (p.entries t i)) ≡ suc l
  pub empty :
      (t i l : ℕ)
      → level t ≡ suc (suc l)
      → pt_get_flag (p.entries t i) pt_present ≡ false
      → p.entries t i ≡ 0
  pub taken :
      (x : ℕ) → x < p.frames.total_pages → p.frames.pages_used x ≡ false → level (x * 4096) ≡ 0

-- What one level of the walk leaves, from slot `slot` of `t`.
pub record Stepped (memory : ℕ) (level : ℕ → ℕ) (l : ℕ) (p : Paging) (t slot : ℕ) (level' : ℕ → ℕ)
    (r : ℕ × Paging) : Type 0 where
  pub tree : IsTree level' r.1
  pub valid : IsValid memory r.1.frames
  pub total : r.1.frames.total_pages ≡ p.frames.total_pages
  pub count :
      used_below r.1.frames.pages_used p.frames.total_pages
      ≤ used_below p.frames.pages_used p.frames.total_pages + 1
  pub child_level : level' r.0 ≡ suc l
  pub linked : pt_get_flag (r.1.entries t slot) pt_present ≡ true
  pub link : pt_get_adr (r.1.entries t slot) ≡ r.0
  pub levels : (x : ℕ) → 0 < level x → level' x ≡ level x
  pub kept :
      (x i : ℕ)
      → 0 < level x
      → (pt_get_flag (p.entries x i) pt_present ≡ true) ⊎ (x ≢ t)
      → r.1.entries x i ≡ p.entries x i
  pub same_root : r.1.kernel_pl4 ≡ p.kernel_pl4

-- The entry of a new table.
abbrev link_to : ℕ → ℕ
link_to temp = pt_set_adr 7 temp

seven_flag : pt_get_flag 7 pt_present ≡ true
unfolding pt_get_flag
seven_flag = refl

seven_set : pt_set_flag 0 7 ≡ 7
unfolding pt_set_flag
seven_set = refl

self_test : (x : ℕ) → (x == x) ≡ true
self_test x = ground arith

zero_flag : pt_get_flag 0 pt_present ≡ false
unfolding pt_get_flag
zero_flag = refl

link_to-present : (temp : ℕ) → pt_get_flag (link_to temp) pt_present ≡ true
link_to-present temp = (get_adr-set_adr 7 temp 0 (omega arith)).1 ∙ seven_flag

link_to-adr : (page : ℕ) → page < 2 ^ 36 → pt_get_adr (link_to (page * 4096)) ≡ page * 4096
link_to-adr page small = (get_adr-set_adr 7 (page * 4096) 0 (omega arith)).0 ∙ omega arith

-- The tables with a new, cleared one at `temp`, linked from slot `slot` of `t`.
abbrev linked_in : Paging → Frames → (t slot temp : ℕ) → Paging
linked_in p g t slot temp = record p {
  frames = g;
  entries =
      λ x i. if x == t && i == slot then link_to temp else if x == temp then 0 else p.entries x i;
}

module _ (memory : ℕ) (level : ℕ → ℕ) (l : ℕ) (p : Paging) (t slot : ℕ) (tree : IsTree level p)
    (v : IsValid memory p.frames) (at_t : level t ≡ suc (suc l)) where
  new_table-Stepped :
      (page : ℕ) (g : Frames)
      → IsValid memory g
      → g.total_pages ≡ p.frames.total_pages
      → p.frames.total_pages ≤ 2 ^ 36
      → page < p.frames.total_pages
      → p.frames.pages_used page ≡ false
      → g.pages_used ≡ mark p.frames.pages_used page true
      → pt_get_flag (p.entries t slot) pt_present ≡ false
      → Stepped memory level l p t slot
          (λ x. if x == page * 4096 then suc l else level x)
          (page * 4096, linked_in p g t slot (page * 4096))
  new_table-Stepped page g v' same small inside free marked absent =
      let none_there : level (page * 4096) ≡ 0 = tree.taken page inside free in
      record {
        tree = record {
          root = ground (arith, tree.root);
          child = λ x i m at_x here.
              ground
                (arith, link_to-adr page (omega arith), none_there, zero_flag, tree.child x i m);
          empty = λ x i m at_x here.
              ground (arith, link_to-present (page * 4096), none_there, tree.empty x i m);
          taken = λ x lt unused. ground (arith, tree.taken x (omega (arith, lt, same)), marked);
        };
        valid = v';
        total = same;
        count = rw marked (
            omega
              (arith, used_below-take p.frames.pages_used page p.frames.total_pages inside free));
        child_level = ground arith;
        linked = ground (arith, link_to-present (page * 4096));
        link = ground (arith, link_to-adr page (omega arith));
        levels = λ x pos. ground arith;
        kept = λ x i pos which. ground (arith, none_there);
        same_root = refl;
      }

  present-Stepped :
      pt_get_flag (p.entries t slot) pt_present ≡ true
      → Stepped memory level l p t slot level (pt_get_adr (p.entries t slot), p)
  present-Stepped e = record {
    tree = tree;
    valid = v;
    total = refl;
    count = omega arith;
    child_level = tree.child t slot l at_t e;
    linked = e;
    link = refl;
    levels = λ x pos. refl;
    kept = λ x i pos which. refl;
    same_root = refl;
  }

  -- The stores of the branch for an absent entry.
  new_table-eq :
      (g : Frames) (temp : ℕ)
      → p.entries t slot ≡ 0
      → (t == temp) ≡ false
      → new_table (record p { frames = g }) t slot temp ≡ linked_in p g t slot temp
  unfolding new_table
  new_table-eq g temp zero_there apart =
      ap (λ (e : ℕ → ℕ → ℕ). record p { frames = g; entries = e })
        (fun_ext (λ x. fun_ext (λ i. ground (arith, seven_set))))

  next_level-new :
      pt_get_flag (p.entries t slot) pt_present ≡ false
      → next_level p t slot ≡ (
          let (temp, g) = request_page p.frames in
          let q = new_table (record p { frames = g }) t slot temp in
          (pt_get_adr (q.entries t slot), q))
  unfolding next_level
  next_level-new absent = rw absent refl

  next_level-present :
      pt_get_flag (p.entries t slot) pt_present ≡ true
      → next_level p t slot ≡ (pt_get_adr (p.entries t slot), p)
  unfolding next_level
  next_level-present e = rw e refl

  next_level-absent :
      (page : ℕ)
      → pt_get_flag (p.entries t slot) pt_present ≡ false
      → (request_page p.frames).0 ≡ page * 4096
      → page < 2 ^ 36
      → level (page * 4096) ≡ 0
      → next_level p t slot
        ≡ (page * 4096, linked_in p (request_page p.frames).1 t slot (page * 4096))
  next_level-absent page absent e small no_table =
      next_level-new absent
      ∙ ap (λ (q : Paging). (pt_get_adr (q.entries t slot), q))
          (ap (new_table (record p { frames = (request_page p.frames).1 }) t slot) e
            ∙ new_table-eq (request_page p.frames).1 (page * 4096) (tree.empty t slot l at_t absent)
                (ground arith))
      ∙ ap (λ (a : ℕ). (a, linked_in p (request_page p.frames).1 t slot (page * 4096)))
          (rw (self_test t, self_test slot) (link_to-adr page small))

  -- The frame that `REQUEST_PAGE` gave is free in the map.
  asked :
      (r : ℕ × Frames)
      → r ≡ request_page p.frames
      → Requested p.frames r
      → IsValid memory r.1
      → r.1.total_pages ≡ p.frames.total_pages
      → p.frames.total_pages ≤ 2 ^ 36
      → used_below p.frames.pages_used p.frames.total_pages < p.frames.total_pages
      → pt_get_flag (p.entries t slot) pt_present ≡ false
      → (level' : ℕ → ℕ) × Stepped memory level l p t slot level' (next_level p t slot)
  asked (a, g) e (granted page h inside free below marked u w) v' same small room absent = (
    _,
    subst (Stepped memory level l p t slot (λ x. if x == page * 4096 then suc l else level x))
        (ap (λ (r : ℕ × Frames). (page * 4096, linked_in p r.1 t slot (page * 4096))) e
          ∙ sym (
              next_level-absent page absent (sym (ap (λ (r : ℕ × Frames). r.0) e)) (omega arith)
                (tree.taken page inside free)))
        (new_table-Stepped page g v' same small inside free marked absent),
  )
  asked (a, g) e (all_used h all k) v' same small room absent =
      absurd (omega (arith, used_below-all p.frames.pages_used p.frames.total_pages all))

  -- One level of the walk, while a frame is free and the frames are at most 2^36.
  pub next_level-Stepped :
      p.frames.total_pages ≤ 2 ^ 36
      → used_below p.frames.pages_used p.frames.total_pages < p.frames.total_pages
      → (level' : ℕ → ℕ) × Stepped memory level l p t slot level' (next_level p t slot)
  next_level-Stepped small room = elim (Bool-cases (pt_get_flag (p.entries t slot) pt_present)) [
    | inl e ↦ (
      level,
      subst (Stepped memory level l p t slot level) (sym (next_level-present e))
          (present-Stepped e),
    )
    | inr e ↦
        let k = request_page-Requested memory p.frames v (omega arith) in
        asked (request_page p.frames) refl k.1 k.0 (total-request_page p.frames) small room e
  ]
