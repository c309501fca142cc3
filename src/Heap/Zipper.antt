-- ===== src/Heap/Zipper.antt =====
-- A place in the list of kernel/src/memory.c: the segments before it, nearest first, and those from
-- it on.
use efi_os.Prelude.{ℕ, ◌≤◌, ◌<◌, ◌≡◌, refl, ◌∙◌, List, [], ◌∷◌, ◌++◌, arith}
use efi_os.Heap.{Header}
use efi_os.Heap.Chain.{Seg, header, behind, Chain, end_of, last_of, IsCons, LastIsFree}

-- The whole list round a place.
abbrev pub unwind : List Seg → List Seg → List Seg
unwind [] zs = zs
unwind (l ∷ ls) zs = unwind ls (l ∷ zs)

module _ (start : ℕ) where
  -- The address of the place, and of the header before it.
  abbrev pub pos : List Seg → ℕ
  pos [] = start
  pos (l ∷ ls) = behind (pos ls) l

  abbrev pub before : List Seg → ℕ
  before [] = 0
  before (l ∷ ls) = pos ls

  -- The headers before the place.
  abbrev pub Left : (ℕ → Header) → List Seg → Type 0
  Left h [] = Unit
  Left h (l ∷ ls) = (h (pos ls) ≡ header (before ls) (pos (l ∷ ls)) l.size l.unused) × Left h ls

  pub start-le-pos : (ls : List Seg) → start ≤ pos ls
  start-le-pos [] = omega arith
  start-le-pos (l ∷ ls) = omega (arith, start-le-pos ls)

  pub Left-frame :
      (h g : ℕ → Header) (ls : List Seg)
      → ((a : ℕ) → a < pos ls → g a ≡ h a)
      → Left h ls
      → Left g ls
  Left-frame h g [] same c = tt
  Left-frame h g (l ∷ ls) same (e, c) =
      (same (pos ls) (omega arith) ∙ e, Left-frame h g ls (λ a lt. same a (omega arith)) c)

  pub end_of-unwind : (ls zs : List Seg) → end_of start (unwind ls zs) ≡ end_of (pos ls) zs
  end_of-unwind [] zs = refl
  end_of-unwind (l ∷ ls) zs = end_of-unwind ls (l ∷ zs)

  pub last_of-unwind :
      (ls zs : List Seg) → IsCons zs → last_of start (unwind ls zs) ≡ last_of (pos ls) zs
  last_of-unwind [] zs c = refl
  last_of-unwind (l ∷ ls) [] c = absurd c
  last_of-unwind (l ∷ ls) (z ∷ zs) c = last_of-unwind ls (l ∷ z ∷ zs) tt

  -- From a place back to the start.
  pub rewind :
      (h : ℕ → Header) (ls zs : List Seg)
      → IsCons zs
      → Left h ls
      → Chain h (before ls) (pos ls) zs
      → Chain h 0 start (unwind ls zs)
  rewind h [] zs k left c = c
  rewind h (l ∷ ls) [] k left c = absurd k
  rewind h (l ∷ ls) (z ∷ zs) k (e, left) c = rewind h ls (l ∷ z ∷ zs) tt left (e, c)

  -- From a place over `xs` to a later one.
  pub advance :
      (h : ℕ → Header) (xs ls : List Seg) (s : Seg) (r : List Seg)
      → Left h ls
      → Chain h (before ls) (pos ls) (xs ++ s ∷ r)
      → Left h (unwind xs ls) × Chain h (before (unwind xs ls)) (pos (unwind xs ls)) (s ∷ r)
  advance h [] ls s r left c = (left, c)
  advance h (x ∷ []) ls s r left c = ((c.0, left), c.1)
  advance h (x ∷ y ∷ xs) ls s r left c = advance h (y ∷ xs) (x ∷ ls) s r (c.0, left) c.1

pub IsCons-unwind : (ls zs : List Seg) → IsCons zs → IsCons (unwind ls zs)
IsCons-unwind [] zs c = c
IsCons-unwind (l ∷ ls) zs c = IsCons-unwind ls (l ∷ zs) tt

pub LastIsFree-unwind : (ls zs : List Seg) → IsCons zs → LastIsFree zs → LastIsFree (unwind ls zs)
LastIsFree-unwind [] zs c f = f
LastIsFree-unwind (l ∷ ls) [] c f = absurd c
LastIsFree-unwind (l ∷ ls) (z ∷ zs) c f = LastIsFree-unwind ls (l ∷ z ∷ zs) tt f
