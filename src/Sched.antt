-- ===== src/Sched.antt =====
-- kern/sched.c: the run queues of one processor, with the choice of the next thread. A thread is known
-- by its number; its state is looked at and set where a thread is chosen. The word `not_empty` is its 32
-- bits, by their index. The timer, the exit of threads and the switch itself are left out, and so is the
-- state where a thread is added; Wait has the sleep and wake-up of a thread.
pub mod Queues
pub mod Choose
mod Tests
use elos.Base.{
  ℕ, zero, suc, ◌+◌, ◌-◌, ◌%◌, Bool, true, false, ◌&&◌, not, Option, none, some, List, [], ◌∷◌,
  ◌++◌, if◌then◌else◌, ltb, ◌==◌,
}

-- `sched_prio_t`
pub data Prio : Type 0 where
  prio_intr prio_io prio_lock prio_kernel prio_input prio_signal prio_normal : Prio

abbrev pub schedq_nlist : ℕ
schedq_nlist = 32

-- `scheduler_t`: what the lock protects
pub record Scheduler : Type 0 where
  pub nthread : ℕ
  pub runq : ℕ → List ℕ
  pub runq_intr : List ℕ
  pub runq_ptr : ℕ
  pub not_empty : ℕ → Bool

abbrev pub put {ℓ} : {A : Type ℓ} → (ℕ → A) → ℕ → A → ℕ → A
put f i v j = if i == j then v else f j

unfoldable pub scheduler_init : Scheduler
scheduler_init = record {
  nthread = 0;
  runq = λ i. [];
  runq_intr = [];
  runq_ptr = 0;
  not_empty = λ i. false;
}

-- `off` of `scheduler_add_thread`, whose cases fall through from SCHED_INPUT to SCHED_LOCK
abbrev pub offset : Prio → ℕ
offset prio_input = 4
offset prio_signal = 3
offset prio_kernel = 2
offset prio_lock = 1
offset prio_normal = schedq_nlist - 1
offset _ = 0

abbrev pub enqueue : Scheduler → (ptr : ℕ) → List ℕ → Scheduler
enqueue s ptr q = record s {
  nthread = s.nthread + 1;
  runq = put s.runq ptr q;
  not_empty = put s.not_empty ptr true;
}

abbrev pub queue_index : Scheduler → Prio → ℕ
queue_index s prio = (s.runq_ptr + offset prio) % schedq_nlist

unfoldable pub scheduler_add_thread : Scheduler → (t : ℕ) → Prio → Scheduler
scheduler_add_thread s t prio_intr = record s {
  nthread = s.nthread + 1;
  runq_intr = s.runq_intr ++ (t ∷ []);
}
scheduler_add_thread s t prio_io = enqueue s s.runq_ptr (t ∷ s.runq s.runq_ptr)
scheduler_add_thread s t prio =
    enqueue s (queue_index s prio) (s.runq (queue_index s prio) ++ (t ∷ []))

-- `ffs` of a word of 32 bits: one more than the index of the lowest bit that is set, or 0
unfoldable pub ffs_from : (n : ℕ) → (ℕ → Bool) → (i : ℕ) → ℕ
ffs_from zero bits i = 0
ffs_from (suc n) bits i = let rest = ffs_from n bits (suc i) in if bits i then suc i else rest

abbrev pub ffs : (ℕ → Bool) → ℕ
ffs bits = ffs_from 32 bits 0

-- `not_empty >> runq_ptr`
abbrev pub shift_right : (ℕ → Bool) → ℕ → ℕ → Bool
shift_right bits n j = ltb (j + n) 32 && bits (j + n)

-- `thread_state_t`
pub data ThreadState : Type 0 where
  thread_spawned thread_running thread_runnable thread_sleep thread_exit : ThreadState

abbrev pub is_exit : ThreadState → Bool
is_exit thread_exit = true
is_exit _ = false

-- The next thread, with the queues and the states of the threads after the choice; the idle thread; or a
-- failed assertion.
pub data Choice : Type 0 where
  idle : Choice
  runs : (t : ℕ) → Scheduler → (state : ℕ → ThreadState) → Choice
  asserts : Choice

abbrev pub occupied : List ℕ → Bool
occupied [] = false
occupied (x ∷ xs) = true

-- `list_pop_front` of the queue `ptr`, and what follows it
abbrev pub popped : Scheduler → (ptr : ℕ) → (rest : List ℕ) → Scheduler
popped s ptr rest = record s {
  nthread = s.nthread - 1;
  runq = put s.runq ptr rest;
  not_empty = if occupied rest then s.not_empty else put s.not_empty ptr false;
  runq_ptr = ptr;
}

-- what follows the label `out`
abbrev pub out : (state : ℕ → ThreadState) → (t : ℕ) → Scheduler → Choice
out state t s = if is_exit (state t) then asserts else runs t s (put state t thread_running)

abbrev pub pop_queue : Scheduler → (state : ℕ → ThreadState) → (ptr : ℕ) → List ℕ → Choice
pop_queue s state ptr [] = asserts
pop_queue s state ptr (t ∷ rest) = out state t (popped s ptr rest)

-- the search for a queue that is not empty, with the index 0 for none
abbrev pub next_queue : Scheduler → ℕ
next_queue s =
    let ahead = ffs (shift_right s.not_empty s.runq_ptr) in
    if not (ahead == 0) then ahead + s.runq_ptr else ffs s.not_empty

abbrev pub choose_queue : Scheduler → (state : ℕ → ThreadState) → (found : ℕ) → Choice
choose_queue s state zero = asserts
choose_queue s state (suc ptr) = pop_queue s state ptr (s.runq ptr)

abbrev pub choose_from : Scheduler → (state : ℕ → ThreadState) → (intr : List ℕ) → Choice
choose_from s state (t ∷ rest) =
    out state t (record s { nthread = s.nthread - 1; runq_intr = rest })
choose_from s state [] = choose_queue s state (next_queue s)

unfoldable pub sched_choose : Scheduler → (state : ℕ → ThreadState) → Choice
sched_choose s state = if s.nthread == 0 then idle else choose_from s state s.runq_intr
