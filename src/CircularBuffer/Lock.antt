-- ===== src/CircularBuffer/Lock.antt =====
-- The lock of kernel/src/circular_buffer.c.
use efi_os.Prelude.{
  ℕ, suc, ◌≡◌, ◌≢◌, inl, inr, Bool, true, false, some, arith, ◌==◌, if◌then◌else◌, Bool-cases,
}
use efi_os.CircularBuffer.{LockState, compare_exchange, acquire, unlock}

-- Two attempts always take the lock, whether it was free or not: the first one that fails writes the
-- value it found into the shared `expected_false`, and the second one compares with that.
pub acquire_two :
    (n : ℕ) (s : LockState)
    → acquire (suc (suc n)) s ≡ some (record { locked = true; expected_false = s.locked })
unfolding acquire
acquire_two n s = ground arith

-- Several threads that call `cb_push` or `cb_pop` on one buffer: which of them are between the
-- exchange and the store that unlocks.
pub record Threads : Type 0 where
  pub lock : LockState
  pub inside : ℕ → Bool

abbrev pub mark : (ℕ → Bool) → ℕ → Bool → ℕ → Bool
mark f i b j = if j == i then b else f j

-- One exchange of the loop by thread `i`.
pub attempt : Threads → ℕ → Threads
unfolding compare_exchange
attempt t i =
    let (done, s) = compare_exchange t.lock in
    record { lock = s; inside = if done then mark t.inside i true else t.inside }

pub leave : Threads → ℕ → Threads
leave t i = record { lock = unlock t.lock; inside = mark t.inside i false }

pub data Step (t : Threads) : Threads → Type 0 where
  attempts : (i : ℕ) → t.inside i ≡ false → Step t (attempt t i)
  leaves : (i : ℕ) → t.inside i ≡ true → Step t (leave t i)

pub data Reach (t : Threads) : Threads → Type 0 where
  here : Reach t t
  next : {u w : Threads} → Reach t u → Step u w → Reach t w

-- The lock does not exclude: from any state in which thread `i` is inside, the lock is held and
-- thread `j`, another one, is outside, steps of the threads lead to a state in which both are inside.
pub two_inside :
    (t : Threads) (i j : ℕ)
    → i ≢ j
    → t.lock.locked ≡ true
    → t.inside i ≡ true
    → t.inside j ≡ false
    → (u : Threads) × Reach t u × (u.inside i ≡ true) × (u.inside j ≡ true)
unfolding attempt
two_inside t i j apart held a b = elim (Bool-cases t.lock.expected_false) [
  | inl e ↦ (attempt t j, next here (attempts j b), ground arith, ground arith)
  | inr e ↦
      let t1 = attempt t j in
      let b1 : t1.inside j ≡ false = ground arith in
      (attempt t1 j, next (next here (attempts j b)) (attempts j b1), ground arith, ground arith)
]
