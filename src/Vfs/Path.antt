-- ===== src/Vfs/Path.antt =====
-- Paths: `vfs_navigate_to` of kernel/src/vfs.c follows the names between the slashes.
use efi_os.Prelude.{
  ℕ, zero, suc, refl, sym, ap, ◌∙◌, ◌<◌, ◌≤◌, ◌≡◌, ◌≢◌, true, false, Bool, Bool-cases, inl, inr,
  Option, none, some, List, [], ◌∷◌, ◌++◌, append-nil, length, arith, ltb, ◌==◌, if◌then◌else◌,
}
use efi_os.Vfs.{Nodes, vfs_get_single_entry_from_dir, follow, vfs_navigate_to, token, skip_slashes}

abbrev pub NoSlash : List ℕ → Type 0
NoSlash [] = Unit
NoSlash (c ∷ n) = (c ≢ b'/') × NoSlash n

-- A name: at least one byte, none of them a slash, and few enough.
pub record IsName (n : List ℕ) : Type 0 where
  pub some_byte : 0 < length n
  pub few : length n < 255
  pub no_slash : NoSlash n

-- A path and its names. Slashes stand between the names, more than one count as one, and so do those
-- in front.
pub data IsPath : List ℕ → List (List ℕ) → Type 0 where
  last : {n : List ℕ} → IsName n → IsPath n (n ∷ [])
  slash : {f : List ℕ} {names : List (List ℕ)} → IsPath f names → IsPath (b'/' ∷ f) names
  next :
      {n f : List ℕ} {names : List (List ℕ)}
      → IsName n
      → IsPath f names
      → IsPath (n ++ b'/' ∷ f) (n ∷ names)

-- From directory to directory; 0 where there is no entry.
abbrev pub walk : Nodes → (cur : ℕ) → List (List ℕ) → ℕ
walk nodes cur [] = cur
walk nodes cur (n ∷ names) =
    let entry = vfs_get_single_entry_from_dir nodes cur n in
    let rest = walk nodes entry names in if entry == 0 then 0 else rest

abbrev pub but_last : List (List ℕ) → List (List ℕ)
but_last [] = []
but_last (n ∷ []) = []
but_last (n ∷ n' ∷ names) = n ∷ but_last (n' ∷ names)

token-last : (n : List ℕ) → NoSlash n → token n ≡ (n, none)
token-last [] h = refl
token-last (c ∷ n) (other_byte, h) =
    let other : (c == b'/') ≡ false = ground arith in rw other (rw (token-last n h) refl)

token-next : (n f : List ℕ) → NoSlash n → token (n ++ b'/' ∷ f) ≡ (n, some (b'/' ∷ f))
token-next [] f h = refl
token-next (c ∷ n) f (other_byte, h) =
    let other : (c == b'/') ≡ false = ground arith in rw other (rw (token-next n f h) refl)

skip_slashes-name : (n f : List ℕ) → IsName n → skip_slashes (n ++ f) ≡ n ++ f
skip_slashes-name [] f h = absurd (omega (arith, h.some_byte))
skip_slashes-name (c ∷ n) f h =
    let other : (c == b'/') ≡ false = ground (arith, h.no_slash.0) in rw other refl

-- One round of the loop, on the last name and on one before a slash.
round-last :
    (rounds : ℕ) (nodes : Nodes) (cur : ℕ) (f n : List ℕ)
    → token (skip_slashes f) ≡ (n, none)
    → length n < 255
    → (vfs_navigate_to (suc rounds) nodes cur f false
        ≡ some (vfs_get_single_entry_from_dir nodes cur n))
      × (vfs_navigate_to (suc rounds) nodes cur f true ≡ some cur)
unfolding vfs_navigate_to follow
round-last rounds nodes cur f n e few =
    let fits : ltb (length n) 255 ≡ true = ground arith in
    let go : Bool → ℕ → List ℕ → Option ℕ =
      λ skip next f'. vfs_navigate_to rounds nodes next f' skip in
    (
      ap (λ (t : List ℕ × Option (List ℕ)). follow nodes cur t false (go false)) e ∙ rw fits refl,
      ap (λ (t : List ℕ × Option (List ℕ)). follow nodes cur t true (go true)) e,
    )

round-next :
    (rounds : ℕ) (nodes : Nodes) (cur : ℕ) (f n f' : List ℕ) (skip : Bool)
    → token (skip_slashes f) ≡ (n, some f')
    → length n < 255
    → vfs_navigate_to (suc rounds) nodes cur f skip ≡ (
        if vfs_get_single_entry_from_dir nodes cur n == 0
        then some 0
        else vfs_navigate_to rounds nodes (vfs_get_single_entry_from_dir nodes cur n) f' skip)
unfolding vfs_navigate_to follow
round-next rounds nodes cur f n f' skip e few =
    let fits : ltb (length n) 256 ≡ true = ground arith in
    ap
      (λ (t : List ℕ × Option (List ℕ)).
        follow nodes cur t skip (λ next f'. vfs_navigate_to rounds nodes next f' skip))
      e
    ∙ rw fits refl

but_last-names :
    {f n : List ℕ} {names : List (List ℕ)}
    → IsPath f names
    → but_last (n ∷ names) ≡ n ∷ but_last names
but_last-names (last h) = refl
but_last-names (slash p) = but_last-names p
but_last-names (next h p) = refl

or_null : (entry : ℕ) → (if entry == 0 then 0 else entry) ≡ entry
or_null entry = ground arith

through :
    (entry : ℕ) {o : Option ℕ} (target : ℕ)
    → o ≡ some target
    → (if entry == 0 then some 0 else o) ≡ some (if entry == 0 then 0 else target)
through entry target e = elim (Bool-cases (entry == 0)) [ inl z ↦ rw z refl | inr z ↦ rw z e ]

-- A path of names, with as many rounds as it has names: the whole path leads where the names lead, one after the other,
-- and with `skip_final` it leads where all the names but the last do. NULL where an entry on the way is missing.
pub vfs_navigate_to-walk :
    (rounds : ℕ) (nodes : Nodes) (cur : ℕ) (f : List ℕ) (names : List (List ℕ))
    → IsPath f names
    → length names ≤ rounds
    → (vfs_navigate_to rounds nodes cur f false ≡ some (walk nodes cur names))
      × (vfs_navigate_to rounds nodes cur f true ≡ some (walk nodes cur (but_last names)))
unfolding vfs_navigate_to
vfs_navigate_to-walk zero nodes cur f names p enough = absurd (some_name p enough)
  where
    some_name : {f : List ℕ} {names : List (List ℕ)} → IsPath f names → length names ≤ 0 → ⊥
    some_name (last h) enough = omega arith
    some_name (slash p) enough = some_name p enough
    some_name (next h p) enough = omega arith
vfs_navigate_to-walk (suc rounds) nodes cur f _ (last {n = n} h) enough =
    let (whole, before) =
      round-last rounds nodes cur f n
        (ap token (ap skip_slashes (sym (append-nil n)) ∙ skip_slashes-name n [] h ∙ append-nil n)
          ∙ token-last n h.no_slash)
        h.few in
    (whole ∙ ap some (sym (or_null (vfs_get_single_entry_from_dir nodes cur n))), before)
vfs_navigate_to-walk (suc rounds) nodes cur _ names (slash {f = f} p) enough =
    vfs_navigate_to-walk (suc rounds) nodes cur f names p enough
vfs_navigate_to-walk (suc rounds) nodes cur _ _ (next {n = n} {f = f} {names = names} h p) enough =
    let entry = vfs_get_single_entry_from_dir nodes cur n in
    let first = ap token (skip_slashes-name n (b'/' ∷ f) h) ∙ token-next n f h.no_slash in
    let (whole, before) =
      vfs_navigate_to-walk rounds nodes entry (b'/' ∷ f) names (slash p) (omega arith) in
    (
      round-next rounds nodes cur (n ++ b'/' ∷ f) n (b'/' ∷ f) false first h.few
          ∙ through entry (walk nodes entry names) whole,
      round-next rounds nodes cur (n ++ b'/' ∷ f) n (b'/' ∷ f) true first h.few
          ∙ through entry (walk nodes entry (but_last names)) before
          ∙ ap (λ (ns : List (List ℕ)). some (walk nodes cur ns)) (sym (but_last-names p)),
    )
