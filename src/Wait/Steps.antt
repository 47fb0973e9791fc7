-- ===== src/Wait/Steps.antt =====
-- The steps of the threads of kern/wait.c, and the place of each thread after them.
use elos.Base.{
  ℕ, suc, ◌≡◌, refl, ◌∙◌, ap, Bool, true, false, ◌&&◌, ◌||◌, not, Option, none, some, List, arith,
  inl, inr, count, Bool-cases, count-append_self, count-remove_self,
}
use elos.Base.Errno.{Errno}
use elos.Wait.{
  running, runnable, Thread, Slot, is_running, sched_set_inactive, sched_wakeup, sched_interrupt,
  sched_pending_intr, deschedule, wait_prep, wait_abort, Progress, sleeps, returns, asserts,
  wait_enter, wait_resume, wakeup_num,
}
use elos.Wait.Inv.{
  Place, outside, prepared, suspended, Awake, Sleeping, listed, Fits, fits_outside, fits_prepared,
  fits_asleep, System, write,
}

abbrev pub place_after : (intr timed : Bool) → Progress → Place
place_after intr timed sleeps = suspended intr timed
place_after intr timed (returns _) = outside
place_after intr timed asserts = outside

abbrev pub is_some : Option ℕ → Bool
is_some none = false
is_some (some _) = true

abbrev pub chosen : Thread → Thread
chosen t = record t { state = running }

-- the system after thread `i` did one thing
abbrev pub act : System → ℕ → (Thread → Thread) → System
act s i f =
    let slot = s.wait.slot i in
    write s i s.wait.waiters (record slot { thread = f slot.thread }) (s.place i)

abbrev pub after_prep : System → ℕ → System
after_prep s i =
    let (ws, slot) = wait_prep i s.wait.waiters (s.wait.slot i) in write s i ws slot prepared

abbrev pub after_abort : System → ℕ → System
after_abort s i = write s i (wait_abort i s.wait.waiters (s.wait.slot i)) (s.wait.slot i) outside

abbrev pub after_enter : System → ℕ → (intr timed : Bool) → System
after_enter s i intr timed =
    let w = wait_enter intr i s.wait.waiters (s.wait.slot i) in
    write s i w.queue w.slot (place_after intr timed w.progress)

abbrev pub after_resume : System → ℕ → (intr timed : Bool) → Option ℕ → System
after_resume s i intr timed remaining =
    let w = wait_resume intr remaining i s.wait.waiters (s.wait.slot i) in
    write s i w.queue w.slot (place_after intr timed w.progress)

-- A wait with a timeout has to be interruptable, as `wait_sleep_timeout` asserts; a failed assertion at
-- its end is no step.
pub data Step (s : System) : System → Type 0 where
  prep : (i : ℕ) → s.place i ≡ outside → Step s (after_prep s i)
  give_up : (i : ℕ) → s.place i ≡ prepared → Step s (after_abort s i)
  enter :
      (i : ℕ) (intr timed : Bool)
      → s.place i ≡ prepared
      → is_running (s.wait.slot i).thread.state ≡ true
      → (intr || not timed) ≡ true
      → Step s (after_enter s i intr timed)
  resume :
      (i : ℕ) (intr timed : Bool) (remaining : Option ℕ)
      → s.place i ≡ suspended intr timed
      → is_running (s.wait.slot i).thread.state ≡ true
      → (s.wait.slot i).thread.do_sleep ≡ false
      → is_some remaining ≡ timed
      → (e : Option Errno)
      → (wait_resume intr remaining i s.wait.waiters (s.wait.slot i)).progress ≡ returns e
      → Step s (after_resume s i intr timed remaining)
  wake : (num : ℕ) → Step s (record s { wait = wakeup_num s.wait num })
  interrupt : (i : ℕ) (restart : Bool) → Step s (act s i (sched_interrupt restart))
  pending : (i : ℕ) → s.place i ≡ outside → Step s (act s i sched_pending_intr)
  timeout : (i : ℕ) → s.place i ≡ suspended true true → Step s (act s i sched_wakeup)
  leave : (i : ℕ) → is_running (s.wait.slot i).thread.state ≡ true → Step s (act s i deschedule)
  choose : (i : ℕ) → (s.wait.slot i).thread.state ≡ runnable → Step s (act s i chosen)

-- What one step does to the thread that takes it.
pub prep-Fits :
    (i : ℕ) (ws : List ℕ) (s : Slot)
    → Fits (count i ws) s outside
    → Fits (count i (wait_prep i ws s).0) (wait_prep i ws s).1 prepared
unfolding wait_prep
prep-Fits i ws s (fits_outside out a) = fits_prepared (count-append_self i ws ∙ ap suc out) refl a

pub wait_abort-count :
    (i : ℕ) (ws : List ℕ) (s : Slot)
    → count i ws ≡ listed s.waiter
    → count i (wait_abort i ws s) ≡ 0
unfolding wait_abort
wait_abort-count i ws s e = elim (Bool-cases s.waiter.done) [
  | inl hit ↦ rw hit (let out : count i ws ≡ 0 = rw hit at e in out)
  | inr miss ↦
      rw miss
        (let one : count i ws ≡ 1 = rw miss at e in count-remove_self i ws ∙ omega (arith, one))
]

pub give_up-Fits :
    (i : ℕ) (ws : List ℕ) (s : Slot)
    → Fits (count i ws) s prepared
    → Fits (count i (wait_abort i ws s)) s outside
give_up-Fits i ws s (fits_prepared e rests a) = fits_outside (wait_abort-count i ws s e) a

sched_set_inactive-Sleeping :
    (intr : Bool) (t : Thread)
    → Awake t
    → is_running t.state ≡ true
    → (intr && t.interrupted) ≡ false
    → Sleeping intr (sched_set_inactive intr t)
sched_set_inactive-Sleeping true t a run calm =
    rw calm record { down = rw run refl; may = refl; calm = refl }
sched_set_inactive-Sleeping false t a run calm = record {
  down = rw run refl;
  may = a.shut;
  calm = refl;
}

pub enter-Fits :
    (intr timed : Bool) (i : ℕ) (ws : List ℕ) (s : Slot)
    → is_running s.thread.state ≡ true
    → Fits (count i ws) s prepared
    → let w = wait_enter intr i ws s in
      Fits (count i w.queue) w.slot (place_after intr timed w.progress)
unfolding wait_enter
enter-Fits intr timed i ws s run (fits_prepared e rests a) =
    elim (Bool-cases (intr && s.thread.interrupted)) [
      | inl hit ↦ rw hit (fits_outside (wait_abort-count i ws s e) a)
      | inr calm ↦ elim (Bool-cases s.waiter.done) [
        | inl hit ↦ rw (calm, hit) (fits_outside (let out : count i ws ≡ 0 = rw hit at e in out) a)
        | inr miss ↦
            rw (calm, miss)
              (fits_asleep intr timed (let one : count i ws ≡ 1 = rw miss at e in one) refl refl
                (sched_set_inactive-Sleeping intr s.thread a run calm))
      ]
    ]
