-- ===== src/Scheduler/Rotation.antt =====
-- The scheduler of kernel/src/scheduler.c gives every ready thread its turn.
use efi_os.Prelude.{
  ℕ, zero, suc, refl, sym, ap, subst, ◌∙◌, ◌-◌, ◌<◌, ◌≡◌, Bool-cases, inl, inr, Bool, true, false,
  not, Option, some, List, [], ◌∷◌, ◌++◌, append_assoc, length, length-append, take, drop, arith,
  ◌==◌, ◌>>=◌, if◌then◌else◌, min,
}
use efi_os.CircularBuffer.{CircularBuffer, cb_push, cb_pop}
use efi_os.CircularBuffer.Inv.{IsValid, contents, length-window}
use efi_os.CircularBuffer.Push.{cb_push-Appended}
use efi_os.CircularBuffer.Pop.{cb_pop-Removed}
use efi_os.Scheduler.{
  Thread, Scheduler, set_thread, save_rsp, requeue, dispatch, get_next_thread, switches,
}

abbrev pub AllAlive : (ℕ → Thread) → List ℕ → Type 0
AllAlive threads [] = Unit
AllAlive threads (t ∷ ts) = ((threads t).state ≡ 0) × AllAlive threads ts

-- The scheduler at work: `c` runs, `q` waits, in that order, none of them has ended, and the pool has
-- room for one thread more.
pub record IsReady (s : Scheduler) (c : ℕ) (q : List ℕ) : Type 0 where
  pub inited : s.scheduler_inited ≡ true
  pub started : s.first ≡ false
  pub valid : IsValid s.thread_pool
  pub waiting : contents s.thread_pool ≡ q
  pub running : s.current_thread ≡ c
  pub room : length q < s.thread_pool.max_size
  pub alive : AllAlive s.threads (c ∷ q)

AllAlive-append :
    (threads : ℕ → Thread) (q r : List ℕ)
    → AllAlive threads q
    → AllAlive threads r
    → AllAlive threads (q ++ r)
AllAlive-append threads [] r a b = b
AllAlive-append threads (t ∷ q) r (h, a) b = (h, AllAlive-append threads q r a b)

-- Saving a stack pointer ends no thread.
save_rsp-AllAlive :
    (s : Scheduler) (stack_ptr : ℕ) (q : List ℕ)
    → AllAlive s.threads q
    → AllAlive (save_rsp s stack_ptr).threads q
save_rsp-AllAlive s stack_ptr [] a = tt
save_rsp-AllAlive s stack_ptr (t ∷ q) (h, a) = (
  elim (Bool-cases (t == s.current_thread)) [
    | inl e ↦
        rw e (ap (λ (u : ℕ). (s.threads u).state) {x = s.current_thread} {y = t} (ground arith) ∙ h)
    | inr e ↦ rw e h
  ],
  save_rsp-AllAlive s stack_ptr q a,
)

take-one : (k t : ℕ) → 0 < k → take k (t ∷ []) ≡ t ∷ []
take-one zero t h = absurd (omega arith)
take-one (suc zero) t h = refl
take-one (suc (suc k)) t h = refl

requeue_step :
    (attempts m : ℕ) (s : Scheduler) (pool : CircularBuffer ℕ)
    → (s.threads s.current_thread).state ≡ 0
    → cb_push attempts s.thread_pool (s.current_thread ∷ []) ≡ some (m, pool)
    → requeue attempts s ≡ some (record s { thread_pool = pool })
unfolding requeue
requeue_step attempts m s pool alive run =
    let zero_state : ((s.threads s.current_thread).state == 0) ≡ true = ground arith in
    rw zero_state (rw run refl)

dispatch_step :
    (attempts x : ℕ) (s : Scheduler) (pool : CircularBuffer ℕ)
    → cb_pop attempts s.thread_pool 1 ≡ some (x ∷ [], pool)
    → dispatch attempts s ≡ some (record s { thread_pool = pool; current_thread = x })
unfolding dispatch
dispatch_step attempts x s pool run = rw run refl

get_next_thread_step :
    (attempts : ℕ) (s s1 s2 : Scheduler) (stack_ptr t : ℕ)
    → s.scheduler_inited ≡ true
    → s.first ≡ false
    → requeue attempts (save_rsp s stack_ptr) ≡ some s1
    → dispatch attempts s1 ≡ some s2
    → get_next_thread attempts s stack_ptr t ≡ some ((s2.threads s2.current_thread).rsp, s2)
unfolding get_next_thread
get_next_thread_step attempts s s1 s2 stack_ptr t inited started run next =
    let resume : Scheduler → Option (ℕ × Scheduler) =
      λ s'. some ((s'.threads s'.current_thread).rsp, s') in
    let begin : Option (ℕ × Scheduler) = some (
      stack_ptr,
      record s {
        first = false;
        threads = set_thread s.threads t (record (s.threads t) { tid = 0; state = 0 });
        current_thread = t;
      },
    ) in
    let switched = requeue attempts (save_rsp s stack_ptr) >>= dispatch attempts in
    ap
      (λ (b : Bool).
        if not b then some (stack_ptr, s) else if s.first then begin else (switched >>= resume))
      inited
    ∙ ap (λ (b : Bool). if b then begin else (switched >>= resume)) started
    ∙ ap (λ (o : Option Scheduler). o >>= dispatch attempts >>= resume) run
    ∙ ap (λ (o : Option Scheduler). o >>= resume) next

-- One switch: the thread at the front runs, the one that ran waits at the end.
switch-IsReady :
    (n : ℕ) (s : Scheduler) (stack_ptr t c x : ℕ) (q : List ℕ)
    → IsReady s c (x ∷ q)
    → (s' : Scheduler) × (get_next_thread (suc (suc n)) s stack_ptr t
        ≡ some ((s'.threads x).rsp, s'))
      × IsReady s' x (q ++ c ∷ [])
switch-IsReady n s stack_ptr t c x q h =
    let saved = save_rsp s stack_ptr in
    let alive = save_rsp-AllAlive s stack_ptr (c ∷ x ∷ q) h.alive in
    let (pool1, pushed, a) = cb_push-Appended n s.thread_pool (s.current_thread ∷ []) h.valid in
    let (pool2, popped, r) = cb_pop-Removed n pool1 1 a.valid in
    let size : s.thread_pool.size ≡ suc (length q) =
      sym (
        length-window s.thread_pool.slots s.thread_pool.max_size s.thread_pool.head
          s.thread_pool.size)
      ∙ ap length h.waiting in
    let held : contents pool1 ≡ x ∷ q ++ c ∷ [] =
      a.appended
      ∙ ap (λ (ts : List ℕ). contents s.thread_pool ++ ts)
          (take-one (s.thread_pool.max_size - s.thread_pool.size) s.current_thread
            (omega (arith, size, h.room)))
      ∙ ap (λ (ts : List ℕ). ts ++ s.current_thread ∷ []) h.waiting
      ∙ ap (λ (u : ℕ). x ∷ q ++ u ∷ []) h.running in
    let going : (saved.threads s.current_thread).state ≡ 0 =
      ap (λ (u : ℕ). (saved.threads u).state) h.running ∙ alive.0 in
    let s' = record saved { thread_pool = pool2; current_thread = x } in
    (
      s',
      get_next_thread_step (suc (suc n)) s (record saved { thread_pool = pool1 }) s' stack_ptr t
          h.inited h.started
          (requeue_step (suc (suc n)) (min 1 (s.thread_pool.max_size - s.thread_pool.size)) saved
            pool1 going pushed)
          (dispatch_step (suc (suc n)) x (record saved { thread_pool = pool1 }) pool2
            (popped ∙ ap (λ (ts : List ℕ). some (take 1 ts, pool2)) held)),
      record {
        inited = h.inited;
        started = h.started;
        valid = r.valid;
        waiting = r.removed ∙ ap (drop 1) held;
        running = refl;
        room = omega (arith, r.same_room, a.same_room, h.room, length-append q (c ∷ []));
        alive = (alive.1.0, AllAlive-append saved.threads q (c ∷ []) alive.1.1 (alive.0, tt));
      },
    )

-- Threads that have not ended, with room in the pool for the one that runs: after as many switches as its place in the pool says, a
-- waiting thread runs; all the calls return, whatever stack pointers they bring; those that waited in front of it wait at the
-- end, behind the one that ran, and the others have moved up.
pub switches-rotation :
    (n : ℕ) (front : List ℕ) (s : Scheduler) (t c x : ℕ) (rest stack_ptrs : List ℕ)
    → IsReady s c (front ++ x ∷ rest)
    → length stack_ptrs ≡ suc (length front)
    → (s' : Scheduler) × (switches (suc (suc n)) s stack_ptrs t ≡ some s')
      × IsReady s' x (rest ++ c ∷ front)
unfolding switches
switches-rotation n front s t c x rest [] h places = absurd (omega arith)
switches-rotation n [] s t c x rest (sp ∷ []) h places =
    let (s', run, ready) = switch-IsReady n s sp t c x rest h in (s', rw run refl, ready)
switches-rotation n [] s t c x rest (sp ∷ sp' ∷ stack_ptrs) h places = absurd (omega arith)
switches-rotation n (y ∷ front) s t c x rest (sp ∷ stack_ptrs) h places =
    let (s1, run, ready) = switch-IsReady n s sp t c y (front ++ x ∷ rest) h in
    let (s', runs, ready') =
      switches-rotation n front s1 t y x (rest ++ c ∷ []) stack_ptrs
        (subst (λ (q : List ℕ). IsReady s1 y q) (append_assoc front (x ∷ rest) (c ∷ [])) ready)
        (omega arith) in
    (
      s',
      rw run runs,
      subst (λ (q : List ℕ). IsReady s' x q) (append_assoc rest (c ∷ []) (y ∷ front)) ready',
    )
