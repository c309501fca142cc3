-- ===== src/Memory/Compare.antt =====
-- `memcmp` of kernel/src/typedef.c.
use efi_os.Prelude.{
  ℕ, zero, suc, ◌+◌, ◌<◌, ◌≡◌, refl, sym, ap, ◌∙◌, ◌⊎◌, inl, inr, ltb, ◌==◌, arith, Bool-cases,
}
use efi_os.Prelude.Int.{ℤ, pos, negsuc}
use efi_os.Memory.{Memory, memcmp}

-- The two ranges hold the same bytes.
abbrev pub Same : Memory → (s1 s2 count : ℕ) → Type 0
Same m s1 s2 count = (i : ℕ) → i < count → m (s1 + i) ≡ m (s2 + i)

-- The first `i` bytes agree, and byte `i` of the first range is the smaller.
pub record Below (m : Memory) (s1 s2 count i : ℕ) : Type 0 where
  pub inside : i < count
  pub same : Same m s1 s2 i
  pub smaller : m (s1 + i) < m (s2 + i)

-- What the result of `memcmp` says.
abbrev pub Verdict : Memory → (s1 s2 count : ℕ) → ℤ → Type 0
Verdict m s1 s2 count r =
    ((r ≡ pos 0) × Same m s1 s2 count)
    ⊎ ((r ≡ negsuc 0) × ((i : ℕ) × Below m s1 s2 count i))
    ⊎ ((r ≡ pos 1) × ((i : ℕ) × Below m s2 s1 count i))

Same-suc :
    (m : Memory) (s1 s2 count : ℕ)
    → m s1 ≡ m s2
    → Same m (s1 + 1) (s2 + 1) count
    → Same m s1 s2 (suc count)
Same-suc m s1 s2 count e h zero lt = ap m (omega arith) ∙ e ∙ ap m (omega arith)
Same-suc m s1 s2 count e h (suc i) lt = ap m (omega arith) ∙ h i (omega arith) ∙ ap m (omega arith)

Below-suc :
    (m : Memory) (s1 s2 count i : ℕ)
    → m s1 ≡ m s2
    → Below m (s1 + 1) (s2 + 1) count i
    → Below m s1 s2 (suc count) (suc i)
Below-suc m s1 s2 count i e b = record {
  inside = omega (arith, b.inside);
  same = Same-suc m s1 s2 i e b.same;
  smaller = omega (
    arith,
    b.smaller,
    ap m {x = s1 + suc i} {y = s1 + 1 + i} (omega arith),
    ap m {x = s2 + suc i} {y = s2 + 1 + i} (omega arith),
  );
}

Below-zero : (m : Memory) (s1 s2 count : ℕ) → m s1 < m s2 → Below m s1 s2 (suc count) 0
Below-zero m s1 s2 count h = record {
  inside = omega arith;
  same = λ i lt. absurd (omega arith);
  smaller =
      omega
        (arith, ap m {x = s1 + 0} {y = s1} (omega arith), ap m {x = s2 + 0} {y = s2} (omega arith));
}

Verdict-suc :
    (m : Memory) (s1 s2 count : ℕ) (r : ℤ)
    → m s1 ≡ m s2
    → Verdict m (s1 + 1) (s2 + 1) count r
    → Verdict m s1 s2 (suc count) r
Verdict-suc m s1 s2 count r e (inl (z, h)) = inl (z, Same-suc m s1 s2 count e h)
Verdict-suc m s1 s2 count r e (inr (inl (z, (i, h)))) =
    inr (inl (z, (suc i, Below-suc m s1 s2 count i e h)))
Verdict-suc m s1 s2 count r e (inr (inr (z, (i, h)))) =
    inr (inr (z, (suc i, Below-suc m s2 s1 count i (sym e) h)))

-- `memcmp` returns 0 if the two ranges hold the same bytes, and otherwise -1 or 1 by the order of
-- the bytes at the first place where they differ.
pub memcmp-Verdict : (m : Memory) (s1 s2 count : ℕ) → Verdict m s1 s2 count (memcmp m s1 s2 count)
unfolding memcmp
memcmp-Verdict m s1 s2 zero = inl (refl, λ i lt. absurd (omega arith))
memcmp-Verdict m s1 s2 (suc count) = elim (Bool-cases (m s1 == m s2)) [
  | inl e ↦
      rw e (Verdict-suc m s1 s2 count _ (ground arith) (memcmp-Verdict m (s1 + 1) (s2 + 1) count))
  | inr ne ↦ rw ne (elim (Bool-cases (ltb (m s1) (m s2))) [
    | inl lt ↦ rw lt (inr (inl (refl, (0, Below-zero m s1 s2 count (ground arith)))))
    | inr ge ↦ rw ge (inr (inr (refl, (0, Below-zero m s2 s1 count (ground arith)))))
  ])
]
