-- ===== src/CircularBuffer.antt =====
-- The circular buffer of kernel/src/circular_buffer.c, which holds the bytes of a pipe and the ready
-- threads of the scheduler. An element is the `element_size` bytes that one `memcpy` moves, so the
-- storage is a function from slots to elements. `items` is the list of the `count` elements given.
pub mod Lock
pub mod Inv
pub mod Push
pub mod Pop
mod Tests
use mathlib.Core.List
use efi_os.Prelude.{
  ℕ, zero, suc, ◌+◌, ◌-◌, ◌%◌, Bool, true, false, Option, none, some, List, [], ◌∷◌, ◌==◌,
  if◌then◌else◌, length,
}

-- `locked` of a buffer, and the global `expected_false` that every call hands to the exchange.
pub record LockState : Type 0 where
  pub locked : Bool
  pub expected_false : Bool

abbrev pub bool_eq : Bool → Bool → Bool
bool_eq true b = b
bool_eq false true = false
bool_eq false false = true

-- `__atomic_compare_exchange`: a failed one writes the value that it found to `expected`.
pub compare_exchange : LockState → Bool × LockState
compare_exchange s =
    if bool_eq s.locked s.expected_false
    then (true, record s { locked = true })
    else (false, record s { expected_false = s.locked })

-- `while (!__atomic_compare_exchange(...));`
pub acquire : (attempts : ℕ) → LockState → Option LockState
unfolding compare_exchange
acquire zero s = none
acquire (suc attempts) s =
    let (done, s') = compare_exchange s in
    let again = acquire attempts s' in if done then some s' else again

-- The store of `b_false` at the end of either call.
abbrev pub unlock : LockState → LockState
unlock s = record s { locked = false }

pub record CircularBuffer (A : Type 0) : Type 0 where
  pub max_size : ℕ
  pub size : ℕ
  pub head : ℕ
  pub tail : ℕ
  pub slots : ℕ → A
  pub lock : LockState

module _ {A : Type 0} where
  pub cb_init : (storage : ℕ → A) (size : ℕ) (expected_false : Bool) → CircularBuffer A
  cb_init storage size expected_false = record {
    max_size = size;
    size = 0;
    head = 0;
    tail = 0;
    slots = storage;
    lock = record { locked = false; expected_false = expected_false };
  }

  -- The `for` loop of `cb_push`; the local `tail` and the count go with the buffer.
  push_items : CircularBuffer A → (tail items_pushed : ℕ) → List A → ℕ × ℕ × CircularBuffer A
  push_items cb tail pushed [] = (tail, pushed, cb)
  push_items cb tail pushed (x ∷ xs) =
      let cb' = record cb {
        size = cb.size + 1;
        slots = λ i. if i == tail then x else cb.slots i;
      } in
      let rest = push_items cb' ((tail + 1) % cb.max_size) (pushed + 1) xs in
      if cb.size == cb.max_size then (tail, pushed, cb) else rest

  -- The `for` loop of `cb_pop`; `out` holds the elements copied out, the last one first.
  pop_items : CircularBuffer A → (head count : ℕ) → (out : List A) → ℕ × List A × CircularBuffer A
  pop_items cb head zero out = (head, out, cb)
  pop_items cb head (suc count) out =
      let rest =
        pop_items (record cb { size = cb.size - 1 }) ((head + 1) % cb.max_size) count
          (cb.slots head ∷ out) in
      if cb.size == 0 then (head, out, cb) else rest

  -- `none` if the lock was not taken in as many attempts.
  pub cb_push : (attempts : ℕ) → CircularBuffer A → List A → Option (ℕ × CircularBuffer A)
  unfolding push_items
  cb_push attempts cb items = elim (acquire attempts cb.lock) [
    | none ↦ none
    | some s ↦
        let (tail, pushed, cb') = push_items (record cb { lock = s }) cb.tail 0 items in
        some (pushed, record cb' { tail = tail; lock = unlock cb'.lock })
  ]

  -- The elements popped come oldest first; their number is the result of `cb_pop`.
  pub cb_pop : (attempts : ℕ) → CircularBuffer A → (count : ℕ) → Option (List A × CircularBuffer A)
  unfolding pop_items
  cb_pop attempts cb count = elim (acquire attempts cb.lock) [
    | none ↦ none
    | some s ↦
        let (head, out, cb') = pop_items (record cb { lock = s }) cb.head count [] in
        some (List.reverse out, record cb' { head = head; lock = unlock cb'.lock })
  ]
