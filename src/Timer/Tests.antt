-- ===== src/Timer/Tests.antt =====
-- kern/timer.c with three timers: a periodic one, one that runs once, and one of the tick.
use elos.Base.{
  ℕ, suc, ◌≡◌, refl, true, false, Option, none, some, List, [], ◌∷◌, arith, inr, inl, length,
}
use elos.Timer.{
  Timer, Timerq, stopped, once, init_timer, timer_start, timer_stop, timer_intr, timerq_insert,
  timerq_reconf, insert_sorted, intr_loop, intr_round,
}
use elos.Timer.Lists.{due}
use elos.Timer.Inv.{Valid, Lasting}
use elos.Timer.Rounds.{AllLasting}
use elos.Timer.Interrupt.{Interrupted, timer_intr-Interrupted}
use elos.Timer.Steps.{Unlinked, timer_stop-Unlinked, start, Reach, init, next, Reach-Valid}
use elos.Timer.Remote.{remote_stop-timer_intr}

abbrev blank : ℕ → Timer
blank x = record { flags = 0; time = 0; period = 0 }

abbrev fresh : Timerq
fresh = init_timer blank false stopped

-- timer 1 every 50 from time 100 on, and timer 2 once after 70
abbrev one_timer : Timerq
one_timer = timer_start fresh 1 50 1 100

abbrev two_timers : Timerq
two_timers = timer_start one_timer 2 70 0 100

two_timers_order : two_timers.queue ≡ 1 ∷ 2 ∷ []
unfolding timer_start timerq_insert timerq_reconf insert_sorted init_timer
two_timers_order = refl

two_timers_device : two_timers.dev ≡ once 50
unfolding timer_start timerq_insert timerq_reconf insert_sorted init_timer
two_timers_device = refl

abbrev calls_of : Option (Timerq × List ℕ) → List ℕ
calls_of none = []
calls_of (some (q, called)) = called

both_called : calls_of (timer_intr 3 two_timers 180) ≡ 1 ∷ 2 ∷ []
unfolding timer_start timerq_insert timerq_reconf insert_sorted init_timer timer_intr intr_loop
    intr_round
both_called = refl

fresh-Reach : Reach fresh
fresh-Reach = init blank false stopped

one_timer-Reach : Reach one_timer
unfolding init_timer
one_timer-Reach = next fresh-Reach (start 1 50 1 100 refl record { queued = refl; ticking = refl })

two_timers-Reach : Reach two_timers
unfolding timer_start timerq_insert timerq_reconf insert_sorted init_timer
two_timers-Reach =
    next one_timer-Reach (start 2 70 0 100 refl record { queued = refl; ticking = refl })

Reach-Valid_example : Valid two_timers
Reach-Valid_example = Reach-Valid two_timers two_timers-Reach

both_last : AllLasting two_timers.timers 180 (due two_timers.timers 180 two_timers.queue)
unfolding timer_start timerq_insert timerq_reconf insert_sorted init_timer Lasting
both_last = (inr (omega arith, omega arith), (inl refl, tt))

timer_intr-Interrupted_example :
    (after : Timerq) × (called : List ℕ) × (timer_intr
        (suc (length (due two_timers.timers 180 two_timers.queue)))
        two_timers
        180
      ≡ some (after, called))
    × Interrupted two_timers 180 after called
timer_intr-Interrupted_example = timer_intr-Interrupted two_timers 180 Reach-Valid_example both_last

timer_stop-Unlinked_example :
    Valid (timer_stop two_timers true 1 120).0 × Unlinked (timer_stop two_timers true 1 120).0 1
timer_stop-Unlinked_example = timer_stop-Unlinked two_timers true 1 120 Reach-Valid_example

remote_stop-timer_intr_example :
    let q = (timer_stop two_timers false 1 120).0 in
    (q.queue ≡ 2 ∷ []) × (q.dev ≡ two_timers.dev) × (timer_intr 1 q 150 ≡ some (q, []))
unfolding timer_start timerq_insert timerq_reconf insert_sorted init_timer
remote_stop-timer_intr_example =
    remote_stop-timer_intr two_timers 1 2 120 150 [] Reach-Valid_example refl refl (omega arith)
