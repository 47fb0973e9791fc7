-- ===== src/Wait/Threads.antt =====
-- What interrupts, wake-ups, the scheduler and the end of a wait do to one thread of kern/wait.c.
use elos.Base.{
  ℕ, ◌≡◌, refl, sym, ◌∙◌, Bool, true, false, ◌&&◌, ◌||◌, not, Option, List, inl, inr, count,
  Bool-cases,
}
use elos.Base.Errno.{Errno}
use mathlib.Core.Bool.{false≢true}
use elos.Wait.{
  State, running, runnable, asleep, Thread, Slot, is_running, is_asleep, sched_wakeup,
  sched_interrupt, sched_pending_intr, deschedule, returns, asserts, wait_resume, expired,
}
use elos.Wait.Inv.{
  Place, outside, suspended, Awake, Sleeping, Fits, fits_outside, fits_prepared, fits_asleep,
  fits_awake, sched_wakeup-Awake, sched_wakeup-Awake_asleep,
}
use elos.Wait.Steps.{place_after, chosen, wait_abort-count}

pub is_running-is_asleep : (x : State) → is_running x ≡ true → is_asleep x ≡ false
is_running-is_asleep running e = refl
is_running-is_asleep runnable e = refl
is_running-is_asleep asleep e = absurd (false≢true e)

pub running-Sleeping :
    (intr : Bool) (t : Thread) → is_running t.state ≡ true → Sleeping intr t → t.do_sleep ≡ true
running-Sleeping intr t run s =
    let up = is_running-is_asleep t.state run in
    elim (Bool-cases t.do_sleep) [
      | inl hit ↦ hit
      | inr miss ↦ let bad : false ≡ true = rw (run, up, miss) at s.down in absurd (false≢true bad)
    ]

pub resume-Fits :
    (intr timed : Bool) (remaining : Option ℕ) (e : Option Errno) (i : ℕ) (ws : List ℕ) (s : Slot)
    → s.thread.do_sleep ≡ false
    → is_running s.thread.state ≡ true
    → (wait_resume intr remaining i ws s).progress ≡ returns e
    → Fits (count i ws) s (suspended intr timed)
    → let w = wait_resume intr remaining i ws s in
      Fits (count i w.queue) w.slot (place_after intr timed w.progress)
unfolding wait_resume
resume-Fits intr timed remaining r i ws s up run ends (fits_asleep _ _ one open_w sleeps_w sl) =
    absurd (false≢true (sym up ∙ running-Sleeping intr s.thread run sl))
resume-Fits intr timed remaining r i ws s up run ends (fits_awake _ _ e a why) =
    elim (Bool-cases (expired remaining)) [
      | inl hit ↦ rw hit (fits_outside (wait_abort-count i ws s e) a)
      | inr miss ↦ elim (Bool-cases (intr && s.thread.interrupted)) [
        | inl hit ↦ rw (miss, hit) (fits_outside (wait_abort-count i ws s e) a)
        | inr calm ↦ elim (Bool-cases s.waiter.done) [
          | inl hit ↦
              let out : count i ws ≡ 0 = rw hit at e in rw (miss, calm, hit) (fits_outside out a)
          | inr open_w ↦
              let bad : asserts ≡ returns r = rw (miss, calm, open_w) at ends in absurd cc
        ]
      ]
    ]

interrupt_why :
    (d intr x timed : Bool) → (d || (intr && (x || timed))) ≡ true → (d || (intr && true)) ≡ true
interrupt_why true intr x timed e = refl
interrupt_why false true x timed e = refl
interrupt_why false false x timed e = e

or_true : (a : Bool) → (a || true) ≡ true
or_true true = refl
or_true false = refl

and_false : (a : Bool) → (a && false) ≡ false
and_false true = refl
and_false false = refl

shut_absurd :
    (t : Thread) → t.interruptable ≡ false → (not t.interrupted && t.interruptable) ≡ true → ⊥
shut_absurd t shut hit =
    let bad : (not t.interrupted && false) ≡ true = rw shut at hit in
    false≢true (sym (and_false (not t.interrupted)) ∙ bad)

-- an interruptable sleep is over
interrupted-Fits :
    (n : ℕ) (restartsys : Bool) (s : Slot) (p : Place)
    → (not s.thread.interrupted && s.thread.interruptable) ≡ true
    → Fits n s p
    → Fits n
        (record s {
          thread = record (sched_wakeup s.thread) { interrupted = true; restartsys = restartsys };
        })
        p
interrupted-Fits n restartsys s _ hit (fits_outside out a) =
    absurd (shut_absurd s.thread a.shut hit)
interrupted-Fits n restartsys s _ hit (fits_prepared e rests a) =
    absurd (shut_absurd s.thread a.shut hit)
interrupted-Fits n restartsys s _ hit (fits_asleep true timed one open_w sleeps_w sl) =
    let up = sched_wakeup-Awake_asleep true s.thread sl in
    fits_awake true timed (rw open_w one) record { kept = up.kept; up = up.up; shut = up.shut }
      (or_true s.waiter.done)
interrupted-Fits n restartsys s _ hit (fits_asleep false timed one open_w sleeps_w sl) =
    absurd (shut_absurd s.thread sl.may hit)
interrupted-Fits n restartsys s _ hit (fits_awake intr timed e a why) =
    absurd (shut_absurd s.thread a.shut hit)

quiet-Fits :
    (n : ℕ) (restartsys : Bool) (s : Slot) (p : Place)
    → (not s.thread.interrupted && s.thread.interruptable) ≡ false
    → Fits n s p
    → Fits n
        (record s { thread = record s.thread { interrupted = true; restartsys = restartsys } })
        p
quiet-Fits n restartsys s _ miss (fits_outside out a) =
    fits_outside out record { kept = a.kept; up = a.up; shut = a.shut }
quiet-Fits n restartsys s _ miss (fits_prepared e rests a) =
    fits_prepared e rests record { kept = a.kept; up = a.up; shut = a.shut }
quiet-Fits n restartsys s _ miss (fits_asleep true timed one open_w sleeps_w sl) =
    let calm : s.thread.interrupted ≡ false = sl.calm in
    let bad : true ≡ false = rw (calm, sl.may) at miss in absurd (false≢true (sym bad))
quiet-Fits n restartsys s _ miss (fits_asleep false timed one open_w sleeps_w sl) =
    fits_asleep false timed one open_w sleeps_w record { down = sl.down; may = sl.may; calm = refl }
quiet-Fits n restartsys s _ miss (fits_awake intr timed e a why) =
    fits_awake intr timed e record { kept = a.kept; up = a.up; shut = a.shut }
      (interrupt_why s.waiter.done intr s.thread.interrupted timed why)

pub interrupt-Fits :
    (n : ℕ) (restart : Bool) (s : Slot) (p : Place)
    → Fits n s p
    → Fits n (record s { thread = sched_interrupt restart s.thread }) p
unfolding sched_interrupt
interrupt-Fits n restart s p f =
    elim (Bool-cases (not s.thread.interrupted && s.thread.interruptable)) [
      | inl hit ↦ rw hit (interrupted-Fits n _ s p hit f)
      | inr miss ↦ rw miss (quiet-Fits n _ s p miss f)
    ]

pub pending-Fits :
    (n : ℕ) (s : Slot)
    → Fits n s outside
    → Fits n (record s { thread = sched_pending_intr s.thread }) outside
unfolding sched_pending_intr
pending-Fits n s (fits_outside out a) =
    fits_outside out record { kept = a.kept; up = a.up; shut = a.shut }

last_true : (a b : Bool) → (a || (b || true)) ≡ true
last_true true b = refl
last_true false true = refl
last_true false false = refl

pub timeout-Fits :
    (n : ℕ) (s : Slot)
    → Fits n s (suspended true true)
    → Fits n (record s { thread = sched_wakeup s.thread }) (suspended true true)
timeout-Fits n s (fits_asleep _ _ one open_w sleeps_w sl) =
    fits_awake true true (rw open_w one) (sched_wakeup-Awake_asleep true s.thread sl)
      (last_true s.waiter.done (sched_wakeup s.thread).interrupted)
timeout-Fits n s (fits_awake _ _ e a why) =
    fits_awake true true e (sched_wakeup-Awake s.thread a)
      (last_true s.waiter.done (sched_wakeup s.thread).interrupted)

deschedule-Awake : (t : Thread) → Awake t → Awake (deschedule t)
unfolding deschedule
deschedule-Awake t a = let kept = a.kept in rw kept record { kept = refl; up = refl; shut = a.shut }

pub leave-Fits :
    (n : ℕ) (s : Slot) (p : Place)
    → is_running s.thread.state ≡ true
    → Fits n s p
    → Fits n (record s { thread = deschedule s.thread }) p
unfolding deschedule
leave-Fits n s _ run (fits_outside out a) = fits_outside out (deschedule-Awake s.thread a)
leave-Fits n s _ run (fits_prepared e rests a) = fits_prepared e rests (deschedule-Awake s.thread a)
leave-Fits n s _ run (fits_asleep intr timed one open_w sleeps_w sl) =
    let rests = running-Sleeping intr s.thread run sl in
    fits_asleep intr timed one open_w sleeps_w
      (rw rests record { down = refl; may = sl.may; calm = sl.calm })
leave-Fits n s _ run (fits_awake intr timed e a why) =
    let kept = a.kept in fits_awake intr timed e (deschedule-Awake s.thread a) (rw kept why)

pub choose-Fits :
    (n : ℕ) (s : Slot) (p : Place)
    → s.thread.state ≡ runnable
    → Fits n s p
    → Fits n (record s { thread = chosen s.thread }) p
choose-Fits n s _ run (fits_outside out a) =
    fits_outside out record { kept = a.kept; up = refl; shut = a.shut }
choose-Fits n s _ run (fits_prepared e rests a) =
    fits_prepared e rests record { kept = a.kept; up = refl; shut = a.shut }
choose-Fits n s _ run (fits_asleep intr timed one open_w sleeps_w sl) =
    let bad : false ≡ true = rw run at sl.down in absurd (false≢true bad)
choose-Fits n s _ run (fits_awake intr timed e a why) =
    fits_awake intr timed e record { kept = a.kept; up = refl; shut = a.shut } why
