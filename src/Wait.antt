-- ===== src/Wait.antt =====
-- kern/wait.c: the threads that wait on a wait queue, with the part of kern/sched.c that puts a thread to
-- sleep, wakes and interrupts it. A thread has one waiter, and both are known by its number. What is
-- done under the lock of the queue or of the scheduler is one step. The run queues, and the order in
-- which the scheduler chooses among the threads that may run, are left out.
pub mod Inv
pub mod Steps
pub mod Threads
pub mod Reach
pub mod Sleep
mod Tests
use elos.Base.{
  ℕ, zero, suc, ◌≡◌, Bool, true, false, ◌&&◌, not, Option, none, some, List, [], ◌∷◌, ◌++◌,
  if◌then◌else◌, ◌==◌, remove,
}
use elos.Base.Errno.{Errno, erestart, eintr, etimedout}

-- `thread->state`, of which a thread that exits or was not started has no part here
pub data State : Type 0 where
  running runnable asleep : State

-- `thread_t`: its state and `sflags`
pub record Thread : Type 0 where
  pub state : State
  pub do_sleep : Bool
  pub interruptable : Bool
  pub interrupted : Bool
  pub restartsys : Bool

-- the flags of `waiter_t`: WAIT_DONE and WAIT_SLEEP
pub record Waiter : Type 0 where
  pub done : Bool
  pub sleep : Bool

pub record Slot : Type 0 where
  pub waiter : Waiter
  pub thread : Thread

abbrev pub is_running : State → Bool
is_running running = true
is_running _ = false

abbrev pub is_asleep : State → Bool
is_asleep asleep = true
is_asleep _ = false

-- kern/sched.c
abbrev pub sched_set_inactive : (intr : Bool) → Thread → Thread
sched_set_inactive true t =
    if t.interrupted then t else record t { interruptable = true; do_sleep = true }
sched_set_inactive false t = record t { do_sleep = true }

-- `sched_wakeup_thread`, without the run queue
abbrev pub woken : State → Thread → Thread
woken running t = record t { do_sleep = false; interruptable = false }
woken asleep t = record t { state = runnable; interruptable = false }
woken runnable t = record t { interruptable = false }

unfoldable pub sched_wakeup : Thread → Thread
sched_wakeup t = woken t.state t

unfoldable pub sched_interrupt : (restart : Bool) → Thread → Thread
sched_interrupt restart t =
    let u = if not t.interrupted && t.interruptable then sched_wakeup t else t in
    record u { interrupted = true; restartsys = if restart then true else u.restartsys }

-- `sched_pending_intr`
unfoldable pub sched_pending_intr : Thread → Thread
sched_pending_intr t = record t { interrupted = false; restartsys = false }

-- `sched_interrupted`, `none` for 0
abbrev pub sched_interrupted : Thread → Option Errno
sched_interrupted t =
    if t.interrupted then (if t.restartsys then some erestart else some eintr) else none

-- what `do_schedule` does to the thread that leaves the processor
unfoldable pub deschedule : Thread → Thread
deschedule t =
    if t.do_sleep
    then record t { do_sleep = false; state = asleep }
    else record t { state = runnable }

-- kern/wait.c. `wait_prep` and `wait_abort` of thread `i`
unfoldable pub wait_prep : ℕ → List ℕ → Slot → List ℕ × Slot
wait_prep i ws s = (ws ++ (i ∷ []), record s { waiter = record { done = false; sleep = false } })

unfoldable pub wait_abort : ℕ → List ℕ → Slot → List ℕ
wait_abort i ws s = if s.waiter.done then ws else remove i ws

-- How far `wait_sleep_timeout` gets: to `schedule`, to its end with 0 or an error, or to a failed assertion.
pub data Progress : Type 0 where
  sleeps : Progress
  returns : Option Errno → Progress
  asserts : Progress

pub record Waited : Type 0 where
  pub queue : List ℕ
  pub slot : Slot
  pub progress : Progress

-- `wait_sleep_timeout` before `schedule`
abbrev pub suspend : (intr : Bool) → List ℕ → Slot → Waited
suspend intr ws s =
    if s.waiter.done
    then record { queue = ws; slot = s; progress = returns none }
    else (let w : Waiter = record s.waiter { sleep = true } in
        let resting : Slot = record { waiter = w; thread = sched_set_inactive intr s.thread } in
        record { queue = ws; slot = resting; progress = sleeps })

unfoldable pub wait_enter : (intr : Bool) → ℕ → List ℕ → Slot → Waited
wait_enter intr i ws s =
    if intr && s.thread.interrupted
    then record {
      queue = wait_abort i ws s;
      slot = s;
      progress = returns (sched_interrupted s.thread);
    }
    else suspend intr ws s

-- `wait_sleep_timeout` after `schedule`; `remaining` is what `timer_stop` returned, with a timeout
abbrev pub expired : Option ℕ → Bool
expired none = false
expired (some left) = left == 0

unfoldable pub wait_resume : (intr : Bool) → (remaining : Option ℕ) → ℕ → List ℕ → Slot → Waited
wait_resume intr remaining i ws s =
    if expired remaining
    then record { queue = wait_abort i ws s; slot = s; progress = returns (some etimedout) }
    else if intr && s.thread.interrupted
    then record {
      queue = wait_abort i ws s;
      slot = s;
      progress = returns (sched_interrupted s.thread);
    }
    else record { queue = ws; slot = s; progress = if s.waiter.done then returns none else asserts }

-- The queue with all threads; `put` changes one of them.
abbrev pub put : {A : Type 0} → (ℕ → A) → ℕ → A → ℕ → A
put f i v j = if i == j then v else f j

pub record Waitq : Type 0 where
  pub waiters : List ℕ
  pub slot : ℕ → Slot

abbrev pub roused : Slot → Slot
roused s = record {
  waiter = record s.waiter { done = true };
  thread = if s.waiter.sleep then sched_wakeup s.thread else s.thread;
}

unfoldable pub wakeup_waiter : Waitq → ℕ → Waitq
wakeup_waiter q i = record { waiters = remove i q.waiters; slot = put q.slot i (roused (q.slot i)) }

-- the loop of `wakeup_num` over the waiters that are left
unfoldable pub wakeup_loop : Waitq → List ℕ → (num : ℕ) → Waitq
wakeup_loop q [] num = q
wakeup_loop q (x ∷ xs) zero = q
wakeup_loop q (x ∷ xs) (suc num) = wakeup_loop (wakeup_waiter q x) xs num

unfoldable pub wakeup_num : Waitq → (num : ℕ) → Waitq
wakeup_num q num = wakeup_loop q q.waiters num

-- SIZE_MAX
unfoldable pub wakeup : Waitq → Waitq
wakeup q = wakeup_num q 4294967295
