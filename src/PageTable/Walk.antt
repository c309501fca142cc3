-- ===== src/PageTable/Walk.antt =====
-- The walk of the page tables of kernel/src/paging.c.
use efi_os.Prelude.{
  ℕ, suc, refl, ap, inl, inr, ◌⊎◌, ◌∙◌, ◌+◌, ◌^◌, ◌<◌, ◌≤◌, ◌≡◌, true, arith, if◌then◌else◌, Option,
  none, some, List, [], ◌∷◌, length,
}
use efi_os.Frames.Count.{IsValid, used_below}
use efi_os.PageTable.{Paging, pt_present, pt_get_flag, pt_get_adr, next_level, navigate}
use efi_os.PageTable.Levels.{IsTree, Stepped, next_level-Stepped}

-- Down the levels by the code's reading of an entry.
abbrev pub descend : (entries : ℕ → ℕ → ℕ) → (table : ℕ) → List ℕ → Option ℕ
descend e t [] = some t
descend e t (slot ∷ slots) =
    if pt_get_flag (e t slot) pt_present then descend e (pt_get_adr (e t slot)) slots else none

pub record Navigated (memory : ℕ) (level : ℕ → ℕ) (p : Paging) (t : ℕ) (slots : List ℕ)
    (level' : ℕ → ℕ) (r : ℕ × Paging) : Type 0 where
  pub tree : IsTree level' r.1
  pub valid : IsValid memory r.1.frames
  pub leaf : level' r.0 ≡ 1
  pub path : descend r.1.entries t slots ≡ some r.0
  pub levels : (x : ℕ) → 0 < level x → level' x ≡ level x
  pub kept :
      (x i : ℕ)
      → 0 < level x
      → (pt_get_flag (p.entries x i) pt_present ≡ true) ⊎ (suc (length slots) < level x)
      → r.1.entries x i ≡ p.entries x i
  pub same_root : r.1.kernel_pl4 ≡ p.kernel_pl4

room_left :
    (memory : ℕ) (level level1 : ℕ → ℕ) (p : Paging) (t slot n : ℕ) (s : ℕ × Paging)
    → Stepped memory level n p t slot level1 s
    → used_below p.frames.pages_used p.frames.total_pages + suc n ≤ p.frames.total_pages
    → used_below s.1.frames.pages_used s.1.frames.total_pages + n ≤ s.1.frames.total_pages
room_left memory level level1 p t slot n s k room = rw k.total (omega (arith, k.count, room))

-- One level, then the others.
one_more :
    (memory : ℕ) (level level1 level' : ℕ → ℕ) (p : Paging) (t slot : ℕ) (slots : List ℕ)
    (s r : ℕ × Paging)
    → level t ≡ suc (suc (length slots))
    → Stepped memory level (length slots) p t slot level1 s
    → Navigated memory level1 s.1 s.0 slots level' r
    → Navigated memory level p t (slot ∷ slots) level' r
one_more memory level level1 level' p t slot slots s r at_t k n =
    let same : r.1.entries t slot ≡ s.1.entries t slot =
      n.kept t slot (omega (arith, k.levels t (omega arith))) (inl k.linked) in
    record {
      tree = n.tree;
      valid = n.valid;
      leaf = n.leaf;
      path = rw (same, k.linked, k.link) n.path;
      levels = λ x pos. n.levels x (omega (arith, k.levels x pos)) ∙ k.levels x pos;
      kept = λ x i pos which. elim which [
        | inl here ↦
            let first = k.kept x i pos (inl here) in
            n.kept x i (omega (arith, k.levels x pos)) (inl (rw first here)) ∙ first
        | inr above ↦
            n.kept x i (omega (arith, k.levels x pos)) (inr (omega (arith, k.levels x pos)))
            ∙ k.kept x i pos (inr (λ e. absurd (omega (arith, at_t, ap level e))))
      ];
      same_root = n.same_root ∙ k.same_root;
    }

pub navigate-Navigated :
    (memory : ℕ) (slots : List ℕ) (level : ℕ → ℕ) (p : Paging) (t : ℕ)
    → IsTree level p
    → IsValid memory p.frames
    → level t ≡ suc (length slots)
    → p.frames.total_pages ≤ 2 ^ 36
    → used_below p.frames.pages_used p.frames.total_pages + length slots ≤ p.frames.total_pages
    → (level' : ℕ → ℕ) × Navigated memory level p t slots level' (navigate p t slots)
unfolding navigate
navigate-Navigated memory [] level p t tree v at_t small room = (
  level,
  record {
    tree = tree;
    valid = v;
    leaf = at_t;
    path = refl;
    levels = λ x pos. refl;
    kept = λ x i pos which. refl;
    same_root = refl;
  },
)
navigate-Navigated memory (slot ∷ slots) level p t tree v at_t small room =
    let (level1, k) =
      next_level-Stepped memory level (length slots) p t slot tree v at_t small (omega arith) in
    let s = next_level p t slot in
    let (level', n) =
      navigate-Navigated memory slots level1 s.1 s.0 k.tree k.valid k.child_level
        (omega (arith, k.total)) (room_left memory level level1 p t slot (length slots) s k room) in
    (level', one_more memory level level1 level' p t slot slots s (navigate s.1 s.0 slots) at_t k n)
