-- ===== src/Scheduler/Tests.antt =====
-- Three threads: 1 runs, 2 and 3 wait.
use efi_os.Prelude.{ℕ, refl, ◌≡◌, true, false, some, [], ◌∷◌, ◌==◌, if◌then◌else◌, arith}
use efi_os.CircularBuffer.{CircularBuffer}
use efi_os.Scheduler.{Scheduler, switches}
use efi_os.Scheduler.Rotation.{IsReady, switches-rotation}

-- The pool has its two threads in the last and the first slot.
abbrev pool : CircularBuffer ℕ
pool = record {
  max_size = 4;
  size = 2;
  head = 3;
  tail = 1;
  slots = λ i. if i == 3 then 2 else 3;
  lock = record { locked = false; expected_false = false };
}

abbrev start : Scheduler
start = record {
  scheduler_inited = true;
  first = false;
  thread_pool = pool;
  current_thread = 1;
  threads = λ t. record { tid = t; parent_pid = 0; rsp = 4096; state = 0 };
  next_tid = 4;
  freed = [];
}

start-IsReady : IsReady start 1 (2 ∷ 3 ∷ [])
start-IsReady = record {
  inited = refl;
  started = refl;
  valid = record {
    room = omega arith;
    head_in = omega arith;
    tail_in = omega arith;
    fits = omega arith;
    tail_at = refl;
  };
  waiting = refl;
  running = refl;
  room = omega arith;
  alive = (refl, (refl, (refl, tt)));
}

switches-rotation_example :
    (s' : Scheduler) × (switches 2 start (5000 ∷ 6000 ∷ []) 9 ≡ some s') × IsReady s' 3 (1 ∷ 2 ∷ [])
switches-rotation_example =
    switches-rotation 0 (2 ∷ []) start 9 1 3 [] (5000 ∷ 6000 ∷ []) start-IsReady refl
