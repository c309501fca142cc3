-- ===== src/CircularBuffer/Tests.antt =====
-- The circular buffer at concrete inputs: three slots, two of them used, the second at the wrap.
use mathlib.Core.Option
use efi_os.Prelude.{
  none, ℕ, zero, suc, ◌+◌, ◌≡◌, refl, true, false, Option, some, List, [], ◌∷◌, arith, take,
}
use efi_os.CircularBuffer.{CircularBuffer, cb_init, cb_push, cb_pop, acquire, push_items, pop_items}
use efi_os.CircularBuffer.Lock.{Threads, Reach, acquire_two, two_inside}
use efi_os.CircularBuffer.Inv.{IsValid, contents}
use efi_os.CircularBuffer.Push.{Appended, cb_push-Appended}
use efi_os.CircularBuffer.Pop.{Removed, cb_pop-Removed}

abbrev ring : CircularBuffer ℕ
ring = record {
  max_size = 3;
  size = 2;
  head = 2;
  tail = 1;
  slots = λ i. i + 10;
  lock = record { locked = false; expected_false = true };
}

ring-IsValid : IsValid ring
ring-IsValid = record {
  room = omega arith;
  head_in = omega arith;
  tail_in = omega arith;
  fits = omega arith;
  tail_at = refl;
}

ring-contents : contents ring ≡ 12 ∷ 10 ∷ []
ring-contents = refl

cb_push-Appended_example :
    (cb' : CircularBuffer ℕ) × (cb_push 2 ring (7 ∷ 8 ∷ []) ≡ some (1, cb'))
    × Appended ring cb' (7 ∷ 8 ∷ [])
cb_push-Appended_example = cb_push-Appended 0 ring (7 ∷ 8 ∷ []) ring-IsValid

cb_pop-Removed_example :
    (cb' : CircularBuffer ℕ) × (cb_pop 2 ring 1 ≡ some (take 1 (contents ring), cb'))
    × Removed ring cb' 1
cb_pop-Removed_example = cb_pop-Removed 0 ring 1 ring-IsValid

acquire_two_example : acquire 2 ring.lock ≡ some (record { locked = true; expected_false = false })
acquire_two_example = acquire_two 0 ring.lock

abbrev one_inside : Threads
one_inside = record {
  lock = record { locked = true; expected_false = false };
  inside = λ i. elim i [ zero ↦ true | suc i ↦ false ];
}

two_inside_example : (u : Threads) × Reach one_inside u × (u.inside 0 ≡ true) × (u.inside 1 ≡ true)
two_inside_example = two_inside one_inside 0 1 (omega arith) refl refl refl

-- Two of three items fit, and come back in order.
push_pop :
    Option.map
      (λ r. r.0)
      (elim (cb_push {A = ℕ} 1 (cb_init (λ (i : ℕ). 0) 2 false) (4 ∷ 5 ∷ 6 ∷ []))
        as (λ _. Option (List ℕ × CircularBuffer ℕ)) [ none ↦ none | some r ↦ cb_pop 1 r.1 3 ])
    ≡ some (4 ∷ 5 ∷ [])
unfolding cb_push cb_pop acquire push_items pop_items cb_init
push_pop = refl
