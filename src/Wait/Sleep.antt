-- ===== src/Wait/Sleep.antt =====
-- What holds in every state that the threads of kern/wait.c reach.
use elos.Base.{
  ℕ, ◌≡◌, refl, sym, ◌∙◌, ap, Bool, true, false, ◌&&◌, ◌||◌, not, Option, none, some, List,
  if◌then◌else◌, inl, inr, count, Bool-cases,
}
use elos.Base.Errno.{etimedout}
use mathlib.Core.Bool.{false≢true}
use elos.Wait.{Thread, Slot, is_running, sched_interrupted, returns, wait_resume, expired}
use elos.Wait.Inv.{suspended, Fits, fits_asleep, fits_awake, System, Inv}
use elos.Wait.Steps.{wait_abort-count}
use elos.Wait.Threads.{running-Sleeping}
use elos.Wait.Reach.{Reach, Reach-Inv, at_place}

and_left : (a b : Bool) → (a && b) ≡ true → a ≡ true
and_left true b e = refl
and_left false b e = e

not-false : (a : Bool) → not a ≡ true → a ≡ false
not-false true e = sym e
not-false false e = refl

done_forced :
    (d intr x timed : Bool)
    → (d || (intr && (x || timed))) ≡ true
    → (intr && x) ≡ false
    → timed ≡ false
    → d ≡ true
done_forced true intr x timed e calm untimed = refl
done_forced false true true timed e calm untimed = sym calm
done_forced false true false timed e calm untimed = sym untimed ∙ e
done_forced false false x timed e calm untimed = e

calm_result :
    (intr : Bool) (t : Thread)
    → (intr && t.interrupted) ≡ false
    → (if intr then sched_interrupted t else none) ≡ none
calm_result true t calm = let calm₁ : t.interrupted ≡ false = calm in rw calm₁ refl
calm_result false t calm = refl

resume-Fits_returns :
    (intr timed : Bool) (remaining : Option ℕ) (i : ℕ) (ws : List ℕ) (s : Slot)
    → s.thread.do_sleep ≡ false
    → is_running s.thread.state ≡ true
    → (expired remaining || not timed) ≡ true
    → Fits (count i ws) s (suspended intr timed)
    → let w = wait_resume intr remaining i ws s in
      (w.progress
        ≡ returns (
            if expired remaining
            then some etimedout
            else if intr
            then sched_interrupted s.thread
            else none))
      × (count i w.queue ≡ 0)
unfolding wait_resume
resume-Fits_returns intr timed remaining i ws s up run ask
      (fits_asleep _ _ one open_w sleeps_w sl) =
    absurd (false≢true (sym up ∙ running-Sleeping intr s.thread run sl))
resume-Fits_returns intr timed remaining i ws s up run ask (fits_awake _ _ e a why) =
    elim (Bool-cases (expired remaining)) [
      | inl hit ↦ rw hit (refl, wait_abort-count i ws s e)
      | inr miss ↦ elim (Bool-cases (intr && s.thread.interrupted)) [
        | inl hit ↦
            let asks = and_left intr s.thread.interrupted hit in
            rw (miss, hit, asks) (refl, wait_abort-count i ws s e)
        | inr calm ↦
            let untimed : timed ≡ false = not-false timed (rw miss at ask) in
            let over : s.waiter.done ≡ true =
              done_forced s.waiter.done intr s.thread.interrupted timed why calm untimed in
            let out : count i ws ≡ 0 = rw over at e in
            rw (miss, calm, over) (ap returns (sym (calm_result intr s.thread calm)), out)
      ]
    ]

-- In every such order, a thread that runs again after it was suspended by `wait_sleep_timeout`, whose
-- wait has no timeout or is over time, passes the assertion at the end and is in the queue no more.
-- It returns ETIMEDOUT if the time is over, the error of a pending interrupt if it asked for those, and
-- else 0.
pub resume-wait_resume :
    (s : System) (i : ℕ) (intr timed : Bool) (remaining : Option ℕ)
    → Reach s
    → s.place i ≡ suspended intr timed
    → is_running (s.wait.slot i).thread.state ≡ true
    → (s.wait.slot i).thread.do_sleep ≡ false
    → (expired remaining || not timed) ≡ true
    → let w = wait_resume intr remaining i s.wait.waiters (s.wait.slot i) in
      (w.progress
        ≡ returns (
            if expired remaining
            then some etimedout
            else if intr
            then sched_interrupted (s.wait.slot i).thread
            else none))
      × (count i w.queue ≡ 0)
resume-wait_resume s i intr timed remaining r e run up ask =
    resume-Fits_returns intr timed remaining i s.wait.waiters (s.wait.slot i) up run ask
      (at_place s (Reach-Inv s r) i (suspended intr timed) e)
