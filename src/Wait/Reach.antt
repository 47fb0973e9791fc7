-- ===== src/Wait/Reach.antt =====
-- Every order of the steps of kern/wait.c from threads that do not wait.
use elos.Base.{
  ℕ, zero, suc, ◌≤◌, ◌≡◌, ◌≢◌, refl, sym, subst, Bool, true, false, ◌&&◌, Option, List, [], ◌∷◌,
  if◌then◌else◌, ◌==◌, arith, inl, inr, count, remove, Bool-cases, length, count-append_other,
  count-remove_other, ==_refl,
}
use elos.Wait.{
  runnable, Thread, Slot, sched_interrupt, sched_pending_intr, sched_wakeup, deschedule, wait_prep,
  wait_abort, wait_enter, wait_resume, expired, Waitq, wakeup_waiter, wakeup_loop, wakeup_num,
}
use elos.Wait.Inv.{
  Place, outside, prepared, suspended, Fits, fits_outside, fits_prepared, fits_asleep, fits_awake,
  System, Inv, write-Inv, wakeup_waiter-Inv,
}
use elos.Wait.Steps.{
  Step, prep, give_up, enter, resume, wake, interrupt, pending, timeout, leave, choose, act, chosen,
  prep-Fits, give_up-Fits, enter-Fits,
}
use elos.Wait.Threads.{
  resume-Fits, interrupt-Fits, pending-Fits, timeout-Fits, leave-Fits, choose-Fits,
}

wait_abort-other :
    (i j : ℕ) (ws : List ℕ) (s : Slot) → i ≢ j → count j (wait_abort i ws s) ≡ count j ws
unfolding wait_abort
wait_abort-other i j ws s ne = elim (Bool-cases s.waiter.done) [
  | inl hit ↦ rw hit refl
  | inr miss ↦ rw miss (count-remove_other i j ws ne)
]

wait_enter-other :
    (intr : Bool) (i j : ℕ) (ws : List ℕ) (s : Slot)
    → i ≢ j
    → count j (wait_enter intr i ws s).queue ≡ count j ws
unfolding wait_enter
wait_enter-other intr i j ws s ne = elim (Bool-cases (intr && s.thread.interrupted)) [
  | inl hit ↦ rw hit (wait_abort-other i j ws s ne)
  | inr calm ↦ elim (Bool-cases s.waiter.done) [
    | inl hit ↦ rw (calm, hit) refl
    | inr miss ↦ rw (calm, miss) refl
  ]
]

wait_resume-other :
    (intr : Bool) (remaining : Option ℕ) (i j : ℕ) (ws : List ℕ) (s : Slot)
    → i ≢ j
    → count j (wait_resume intr remaining i ws s).queue ≡ count j ws
unfolding wait_resume
wait_resume-other intr remaining i j ws s ne = elim (Bool-cases (expired remaining)) [
  | inl hit ↦ rw hit (wait_abort-other i j ws s ne)
  | inr miss ↦ elim (Bool-cases (intr && s.thread.interrupted)) [
    | inl hit ↦ rw (miss, hit) (wait_abort-other i j ws s ne)
    | inr calm ↦ rw (miss, calm) refl
  ]
]

listed_le : (n : ℕ) (b : Bool) → n ≡ (if b then 0 else 1) → n ≤ 1
listed_le n true e = omega (arith, e)
listed_le n false e = omega (arith, e)

Fits-count : (n : ℕ) (s : Slot) (p : Place) → Fits n s p → n ≤ 1
Fits-count n s _ (fits_outside out a) = omega (arith, out)
Fits-count n s _ (fits_prepared e rests a) = listed_le n s.waiter.done e
Fits-count n s _ (fits_asleep intr timed one w z sl) = omega (arith, one)
Fits-count n s _ (fits_awake intr timed e a why) = listed_le n s.waiter.done e

first-count : (x : ℕ) (ws xs : List ℕ) → ws ≡ x ∷ xs → 1 ≤ count x ws
first-count x ws xs e = let hit : (x == x) ≡ true = ==_refl x in rw (e, hit) (omega arith)

remove_first : (x : ℕ) (ws xs : List ℕ) → ws ≡ x ∷ xs → remove x ws ≡ xs
remove_first x ws xs e = let hit : (x == x) ≡ true = ==_refl x in rw (e, hit) refl

pub wakeup_loop-Inv :
    (xs : List ℕ) (s : System) (num : ℕ)
    → s.wait.waiters ≡ xs
    → Inv s
    → Inv (record s { wait = wakeup_loop s.wait xs num })
unfolding wakeup_loop wakeup_waiter Inv
wakeup_loop-Inv [] s num e inv = inv
wakeup_loop-Inv (x ∷ xs) s zero e inv = inv
wakeup_loop-Inv (x ∷ xs) s (suc num) e inv =
    let one : count x s.wait.waiters ≡ suc 0 =
      omega (arith, first-count x s.wait.waiters xs e, Fits-count _ _ _ (inv x)) in
    wakeup_loop-Inv xs (record s { wait = wakeup_waiter s.wait x }) num
      (remove_first x s.wait.waiters xs e) (wakeup_waiter-Inv s x one inv)

-- all waiters are woken if there are no more of them than asked for
pub wakeup_loop_all :
    (xs : List ℕ) (q : Waitq) (num : ℕ)
    → q.waiters ≡ xs
    → length xs ≤ num
    → (wakeup_loop q xs num).waiters ≡ []
unfolding wakeup_loop wakeup_waiter
wakeup_loop_all [] q num e few = e
wakeup_loop_all (x ∷ xs) q zero e few = absurd (omega (arith, few))
wakeup_loop_all (x ∷ xs) q (suc num) e few =
    wakeup_loop_all xs (wakeup_waiter q x) num (remove_first x q.waiters xs e) (omega (arith, few))

act-Inv :
    (s : System) (i : ℕ) (f : Thread → Thread)
    → Inv s
    → Fits
        (count i s.wait.waiters)
        (record (s.wait.slot i) { thread = f (s.wait.slot i).thread })
        (s.place i)
    → Inv (act s i f)
act-Inv s i f inv fits = write-Inv s i s.wait.waiters _ (s.place i) inv (λ j ne. refl) fits

module _ (s : System) (inv : Inv s) (i : ℕ) where
  pub at_place : (p : Place) → s.place i ≡ p → Fits (count i s.wait.waiters) (s.wait.slot i) p
  unfolding Inv
  at_place p e = subst (Fits (count i s.wait.waiters) (s.wait.slot i)) e (inv i)

  back_place :
      {slot : Slot} (p : Place)
      → s.place i ≡ p
      → Fits (count i s.wait.waiters) slot p
      → Fits (count i s.wait.waiters) slot (s.place i)
  back_place {slot} p e f = subst (Fits (count i s.wait.waiters) slot) (sym e) f

Step-Inv : (s t : System) → Inv s → Step s t → Inv t
unfolding wait_prep wakeup_num Inv
Step-Inv s _ inv (prep i e) =
    write-Inv s i _ _ prepared inv
      (λ j ne. count-append_other j i s.wait.waiters (λ same. ne (sym same)))
      (prep-Fits i s.wait.waiters (s.wait.slot i) (at_place s inv i outside e))
Step-Inv s _ inv (give_up i e) =
    write-Inv s i _ _ outside inv (λ j. wait_abort-other i j s.wait.waiters (s.wait.slot i))
      (give_up-Fits i s.wait.waiters (s.wait.slot i) (at_place s inv i prepared e))
Step-Inv s _ inv (enter i intr timed e run asks) =
    write-Inv s i _ _ _ inv (λ j. wait_enter-other intr i j s.wait.waiters (s.wait.slot i))
      (enter-Fits intr timed i s.wait.waiters (s.wait.slot i) run (at_place s inv i prepared e))
Step-Inv s _ inv (resume i intr timed remaining e run up asks r ends) =
    write-Inv s i _ _ _ inv
      (λ j. wait_resume-other intr remaining i j s.wait.waiters (s.wait.slot i))
      (resume-Fits intr timed remaining r i s.wait.waiters (s.wait.slot i) up run ends
        (at_place s inv i (suspended intr timed) e))
Step-Inv s _ inv (wake num) = wakeup_loop-Inv s.wait.waiters s num refl inv
Step-Inv s _ inv (interrupt i restart) =
    act-Inv s i (sched_interrupt restart) inv
      (interrupt-Fits _ restart (s.wait.slot i) (s.place i) (inv i))
Step-Inv s _ inv (pending i e) =
    act-Inv s i sched_pending_intr inv
      (back_place s inv i outside e (pending-Fits _ (s.wait.slot i) (at_place s inv i outside e)))
Step-Inv s _ inv (timeout i e) = act-Inv s i sched_wakeup inv (
    back_place s inv i (suspended true true) e
      (timeout-Fits _ (s.wait.slot i) (at_place s inv i (suspended true true) e)))
Step-Inv s _ inv (leave i run) =
    act-Inv s i deschedule inv (leave-Fits _ (s.wait.slot i) (s.place i) run (inv i))
Step-Inv s _ inv (choose i run) =
    act-Inv s i chosen inv (choose-Fits _ (s.wait.slot i) (s.place i) run (inv i))

abbrev pub fresh : Slot
fresh = record {
  waiter = record { done = false; sleep = false };
  thread = record {
    state = runnable;
    do_sleep = false;
    interruptable = false;
    interrupted = false;
    restartsys = false;
  };
}

pub data Reach : System → Type 0 where
  start : Reach (record { wait = record { waiters = []; slot = λ i. fresh }; place = λ i. outside })
  later : {s t : System} → Reach s → Step s t → Reach t

pub Reach-Inv : (s : System) → Reach s → Inv s
unfolding Inv
Reach-Inv _ start = λ i. fits_outside refl record { kept = refl; up = refl; shut = refl }
Reach-Inv t (later {s} r step) = Step-Inv s t (Reach-Inv s r) step
