-- ===== src/Wait/Tests.antt =====
-- kern/wait.c with one thread that goes to sleep and one that wakes it.
use elos.Base.{◌≡◌, refl, true, false, none, some, [], count, if◌then◌else◌}
use elos.Base.Errno.{etimedout}
use elos.Wait.{
  is_asleep, wait_prep, wait_enter, wait_resume, wakeup_num, wakeup_waiter, wakeup_loop,
  sched_wakeup, sched_interrupted, deschedule, returns, expired, sched_interrupt,
}
use elos.Wait.Inv.{outside, System}
use elos.Wait.Steps.{prep, enter, leave, wake, choose, act, chosen, after_prep, after_enter}
use elos.Wait.Reach.{fresh, Reach, start, later}
use elos.Wait.Sleep.{resume-wait_resume}

abbrev idle : System
idle = record { wait = record { waiters = []; slot = λ i. fresh }; place = λ i. outside }

abbrev runs : System
runs = act idle 0 chosen

abbrev waits : System
waits = after_prep runs 0

abbrev enters : System
enters = after_enter waits 0 true false

abbrev rests : System
rests = act enters 0 deschedule

abbrev woken_up : System
woken_up = record rests { wait = wakeup_num rests.wait 1 }

abbrev runs_again : System
runs_again = act woken_up 0 chosen

rests-Reach : Reach rests
unfolding wait_prep wait_enter deschedule
rests-Reach =
    later
      (later (later (later start (choose 0 refl)) (prep 0 refl))
        (enter 0 true false refl refl refl))
      (leave 0 refl)

runs_again-Reach : Reach runs_again
unfolding wait_prep wait_enter deschedule wakeup_num wakeup_loop wakeup_waiter sched_wakeup
runs_again-Reach = later (later rests-Reach (wake 1)) (choose 0 refl)

interrupt_wakes : is_asleep ((act rests 0 (sched_interrupt true)).wait.slot 0).thread.state ≡ false
unfolding wait_prep wait_enter deschedule sched_interrupt sched_wakeup
interrupt_wakes = refl

resume-wait_resume_example :
    let w = wait_resume true none 0 runs_again.wait.waiters (runs_again.wait.slot 0) in
    (w.progress
      ≡ returns (
          if expired none
          then some etimedout
          else if true
          then sched_interrupted (runs_again.wait.slot 0).thread
          else none))
    × (count 0 w.queue ≡ 0)
unfolding wait_prep wait_enter deschedule wakeup_num wakeup_loop wakeup_waiter sched_wakeup
resume-wait_resume_example =
    resume-wait_resume runs_again 0 true false none runs_again-Reach refl refl refl refl
