-- ===== src/Sched/Tests.antt =====
-- kern/sched.c with a few threads in its queues.
use elos.Base.{ℕ, zero, suc, ◌≡◌, refl, List, [], ◌∷◌, arith}
use elos.Sched.{
  prio_intr, prio_io, prio_input, prio_signal, prio_normal, Scheduler, scheduler_init,
  scheduler_add_thread, ThreadState, thread_running, thread_runnable, thread_exit, put, Choice,
  idle, runs, asserts, sched_choose, ffs_from,
}
use elos.Phys.Sum.{sum_to}
use elos.Sched.Queues.{Valid, Queued, scheduler_add_thread-Queued}
use elos.Sched.Choose.{Taken, sched_choose-Taken}

scheduler_init-Valid : Valid scheduler_init
unfolding scheduler_init sum_to
scheduler_init-Valid = record { threads = refl; bits = λ i. refl; ptr = omega arith }

abbrev busy : Scheduler
busy = scheduler_add_thread (scheduler_add_thread scheduler_init 7 prio_normal) 8 prio_input

busy-Valid : Valid busy
busy-Valid =
    (scheduler_add_thread-Queued _ 8 prio_input
      (scheduler_add_thread-Queued scheduler_init 7 prio_normal scheduler_init-Valid).valid).valid

-- the order in which threads are chosen, at most `n` of them
order_of : ℕ → Choice → List ℕ
order_of zero c = []
order_of (suc n) idle = []
order_of (suc n) asserts = []
order_of (suc n) (runs t s state) = t ∷ order_of n (sched_choose s state)

input_before_normal : order_of 3 (sched_choose busy (λ t. thread_runnable)) ≡ 8 ∷ 7 ∷ []
unfolding order_of sched_choose scheduler_add_thread scheduler_init ffs_from
input_before_normal = refl

signal_before_input :
    order_of 4 (
      sched_choose
        (scheduler_add_thread (scheduler_add_thread busy 9 prio_signal) 1 prio_intr)
        (λ t. thread_runnable))
    ≡ 1 ∷ 9 ∷ 8 ∷ 7 ∷ []
unfolding order_of sched_choose scheduler_add_thread scheduler_init ffs_from
signal_before_input = refl

scheduler_add_thread-Queued_example : Queued busy 9 (scheduler_add_thread busy 9 prio_io)
scheduler_add_thread-Queued_example = scheduler_add_thread-Queued busy 9 prio_io busy-Valid

abbrev runnable : ℕ → ThreadState
runnable t = thread_runnable

sched_choose-Taken_example :
    (t : ℕ) × (after : Scheduler) × (sched_choose busy runnable
      ≡ runs t after (put runnable t thread_running))
    × Taken busy t after
unfolding scheduler_add_thread scheduler_init
sched_choose-Taken_example = sched_choose-Taken busy runnable 1 busy-Valid (λ x h. refl) refl

-- A thread that exited while it was queued fails the assertion.
exited_queued : sched_choose busy (λ t. thread_exit) ≡ asserts
unfolding sched_choose scheduler_add_thread scheduler_init ffs_from
exited_queued = refl
