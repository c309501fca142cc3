-- ===== src/Scheduler.antt =====
-- The threads of kernel/src/thread.c and the scheduler of kernel/src/scheduler.c. A thread is known by
-- its address; the ready ones wait in a circular buffer.
pub mod Rotation
mod Tests
use efi_os.Prelude.{
  ℕ, zero, suc, ◌+◌, ◌-◌, ◌^◌, ◌%◌, Bool, true, false, not, Option, none, some, List, [], ◌∷◌, ◌==◌,
  ◌>>=◌, if◌then◌else◌, add64,
}
use efi_os.CircularBuffer.{CircularBuffer, cb_init, cb_push, cb_pop}

pub record Thread : Type 0 where
  pub tid : ℕ
  pub parent_pid : ℕ
  pub rsp : ℕ
  pub state : ℕ

abbrev pub thread_dead : ℕ
thread_dead = 1

-- The fields of the interrupt frame that `new_thread` sets.
pub record Registers : Type 0 where
  pub rcx : ℕ
  pub rbp : ℕ
  pub ip : ℕ
  pub cs : ℕ
  pub flags : ℕ
  pub sp : ℕ
  pub ss : ℕ
  pub err : ℕ
  pub ret : ℕ

abbrev set_thread : (ℕ → Thread) → ℕ → Thread → ℕ → Thread
set_thread threads t th u = if u == t then th else threads u

-- `freed` has the pages given to `FREE_PAGE`, the last one first.
pub record Scheduler : Type 0 where
  pub scheduler_inited : Bool
  pub first : Bool
  pub thread_pool : CircularBuffer ℕ
  pub current_thread : ℕ
  pub threads : ℕ → Thread
  pub next_tid : ℕ
  pub freed : List ℕ

-- A thread in the page `th`: 184 is `sizeof(registers)`, 176 the offset of `ret` in it, 120 that of
-- `rbp0`.
pub new_thread : Scheduler → (th function thread_exit : ℕ) → Registers × Scheduler
new_thread s th function thread_exit =
    let rsp = th + (4096 - 184) in
    (
      record {
        rcx = 0xdeadbeefbeadbeef;
        rbp = rsp + 120;
        ip = function;
        cs = 0x8;
        flags = 0x202;
        sp = rsp + 176;
        ss = 0x10;
        err = 0;
        ret = thread_exit;
      },
      record s {
        threads =
            set_thread s.threads th
              (record (s.threads th) { tid = s.next_tid; state = 0; rsp = rsp });
        next_tid = add64 s.next_tid 1;
      },
    )

pub destroy_thread : Scheduler → (th : ℕ) → Scheduler
destroy_thread s th = record s { freed = th ∷ s.freed }

-- The current thread marks itself, and yields for ever.
pub thread_exit : Scheduler → Scheduler
thread_exit s = record s {
  threads =
      set_thread s.threads s.current_thread
        (record (s.threads s.current_thread) { state = thread_dead });
}

-- `t` is the page of the first thread, which runs `vsync`.
pub start_scheduler :
    (attempts : ℕ)
    → Scheduler
    → (storage : ℕ → ℕ) → (expected_false : Bool) → (t vsync exit : ℕ) → Option Scheduler
unfolding new_thread
start_scheduler attempts s storage expected_false t vsync exit =
    let s1 = (new_thread s t vsync exit).1 in
    cb_push attempts (cb_init storage 256 expected_false) (t ∷ []) >>= λ r.
    some (record s1 { thread_pool = r.1; scheduler_inited = true })

-- `!state&THREAD_DEAD` is 1 just for the state 0. The result of `cb_push` is dropped.
requeue : (attempts : ℕ) → Scheduler → Option Scheduler
unfolding destroy_thread
requeue attempts s =
    let pushed = cb_push attempts s.thread_pool (s.current_thread ∷ []) >>= λ r.
    some (record s { thread_pool = r.1 }) in
    if (s.threads s.current_thread).state == 0
    then pushed
    else some (destroy_thread s s.current_thread)

-- An empty pool leaves the current thread as it is.
abbrev taken : List ℕ → ℕ → ℕ
taken [] current = current
taken (t ∷ ts) current = t

dispatch : (attempts : ℕ) → Scheduler → Option Scheduler
dispatch attempts s = cb_pop attempts s.thread_pool 1 >>= λ r.
    some (record s { thread_pool = r.1; current_thread = taken r.0 s.current_thread })

abbrev save_rsp : Scheduler → (stack_ptr : ℕ) → Scheduler
save_rsp s stack_ptr = record s {
  threads =
      set_thread s.threads s.current_thread
        (record (s.threads s.current_thread) { rsp = stack_ptr });
}

-- The stack pointer to go on with. `t` is the address of the thread made for the code that was running
-- before. The test for user mode only prints and disables interrupts.
pub get_next_thread : (attempts : ℕ) → Scheduler → (stack_ptr t : ℕ) → Option (ℕ × Scheduler)
unfolding requeue dispatch
get_next_thread attempts s stack_ptr t =
    let switched = requeue attempts (save_rsp s stack_ptr) >>= dispatch attempts in
    if not s.scheduler_inited
    then some (stack_ptr, s)
    else if s.first
    then some (
      stack_ptr,
      record s {
        first = false;
        threads = set_thread s.threads t (record (s.threads t) { tid = 0; state = 0 });
        current_thread = t;
      },
    )
    else (switched >>= λ s'. some ((s'.threads s'.current_thread).rsp, s'))

-- One call for each interrupt, with the stack pointer that it brings.
pub switches : (attempts : ℕ) → Scheduler → List ℕ → (t : ℕ) → Option Scheduler
unfolding get_next_thread
switches attempts s [] t = some s
switches attempts s (sp ∷ stack_ptrs) t =
    get_next_thread attempts s sp t >>= λ r. switches attempts r.1 stack_ptrs t
