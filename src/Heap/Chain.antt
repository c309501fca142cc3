-- ===== src/Heap/Chain.antt =====
-- What the list of kernel/src/memory.c stands for: the segments in address order, each right behind
-- the one before.
use efi_os.Prelude.{
  ℕ, ◌+◌, ◌≤◌, ◌<◌, ◌^◌, ◌≡◌, ◌≢◌, ◌⊎◌, ◌∙◌, ◌==◌, if◌then◌else◌, Bool, true, false, List, [], ◌∷◌,
  arith,
}
use efi_os.Heap.{Heap, Header, header_size, put}

-- A segment: the length of its payload, and whether it is free.
pub record Seg : Type 0 where
  pub size : ℕ
  pub unused : Bool

abbrev pub seg : ℕ → Bool → Seg
seg n b = record { size = n; unused = b }

abbrev pub header : (previous next n : ℕ) → Bool → Header
header previous next n b = record { previous_hdr = previous; next_hdr = next; len = n; free = b }

-- The address behind segment `s` at `p`.
abbrev pub behind : ℕ → Seg → ℕ
behind p s = p + header_size + s.size

-- The `next_hdr` of `s` at `p` where `rest` follows.
abbrev pub next_of : ℕ → Seg → List Seg → ℕ
next_of p s [] = 0
next_of p s (_ ∷ _) = behind p s

-- The segments stand in memory from `p` on, the first one's predecessor being `previous`.
abbrev pub Chain : (ℕ → Header) → (previous p : ℕ) → List Seg → Type 0
Chain h previous p [] = Unit
Chain h previous p (s ∷ rest) =
    (h p ≡ header previous (next_of p s rest) s.size s.unused) × Chain h p (behind p s) rest

-- The address behind the last segment, and the address of the last header.
abbrev pub end_of : ℕ → List Seg → ℕ
end_of p [] = p
end_of p (s ∷ rest) = end_of (behind p s) rest

abbrev pub last_of : ℕ → List Seg → ℕ
last_of p [] = p
last_of p (s ∷ []) = p
last_of p (s ∷ t ∷ rest) = last_of (behind p s) (t ∷ rest)

-- The blocks in use, as address and length of the payload.
abbrev pub blocks : ℕ → List Seg → List (ℕ × ℕ)
blocks p [] = []
blocks p (s ∷ rest) = elim s.unused [
  | true ↦ blocks (behind p s) rest
  | false ↦ (p + header_size, s.size) ∷ blocks (behind p s) rest
]

-- The last segment is free.
abbrev pub LastIsFree : List Seg → Type 0
LastIsFree [] = ⊥
LastIsFree (s ∷ []) = s.unused ≡ true
LastIsFree (s ∷ t ∷ rest) = LastIsFree (t ∷ rest)

abbrev pub IsCons : List Seg → Type 0
IsCons [] = ⊥
IsCons (s ∷ xs) = Unit

-- The heap holds the segments `xs`, from its start to its end, and the last one is free.
pub record IsHeap {P : Type 0} (h : Heap P) (xs : List Seg) : Type 0 where
  pub cons : IsCons xs
  pub start : 0 < h.heap_start
  pub chain : Chain h.hdrs 0 h.heap_start xs
  pub last : h.last_hdr ≡ last_of h.heap_start xs
  pub last_free : LastIsFree xs
  pub ends : end_of h.heap_start xs ≡ h.heap_end
  pub bound : h.heap_end < 2 ^ 64

-- A property of each block of a list.
abbrev pub All : (ℕ × ℕ → Type 0) → List (ℕ × ℕ) → Type 0
All Q [] = Unit
All Q (b ∷ bs) = Q b × All Q bs

pub le-end_of : (p : ℕ) (xs : List Seg) → p ≤ end_of p xs
le-end_of p [] = omega arith
le-end_of p (s ∷ xs) = omega (arith, le-end_of (behind p s) xs)

pub le-last_of : (p : ℕ) (xs : List Seg) → p ≤ last_of p xs
le-last_of p [] = omega arith
le-last_of p (s ∷ []) = omega arith
le-last_of p (s ∷ t ∷ xs) = omega (arith, le-last_of (behind p s) (t ∷ xs))

-- A chain survives any change below its first header.
pub Chain-frame :
    {h g : ℕ → Header} (xs : List Seg) (previous p : ℕ)
    → ((a : ℕ) → p ≤ a → g a ≡ h a)
    → Chain h previous p xs
    → Chain g previous p xs
Chain-frame [] previous p same c = tt
Chain-frame (s ∷ xs) previous p same (e, c) =
    (same p (omega arith) ∙ e, Chain-frame xs p (behind p s) (λ a le. same a (omega arith)) c)

-- Reading back a header that was written.
module _ (w : ℕ → Header) (x : Header) where
  pub put_self : (p : ℕ) → put w p x p ≡ x
  put_self p = ground arith

  pub put_other : (p a : ℕ) → a ≢ p → put w p x a ≡ w a
  put_other p a d = ground arith

  -- A write through a pointer that may be NULL.
  pub put_unless_null_self : (p : ℕ) → 0 < p → (if p == 0 then w p else put w p x p) ≡ x
  put_unless_null_self p h = ground arith

  pub put_unless_null-other :
      (p a : ℕ) → (p ≡ 0) ⊎ (a ≢ p) → (if p == 0 then w a else put w p x a) ≡ w a
  put_unless_null-other p a h = ground arith
