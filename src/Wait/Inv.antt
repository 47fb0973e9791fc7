-- ===== src/Wait/Inv.antt =====
-- kern/wait.c and its threads in any order, and how waiter, thread and queue fit together.
use elos.Base.{
  ℕ, suc, ◌-◌, ◌≡◌, ◌≢◌, refl, sym, subst, Bool, true, false, ◌&&◌, ◌||◌, not, List, if◌then◌else◌,
  ◌==◌, arith, inl, inr, count, remove, Bool-cases, count-remove_self, count-remove_other,
  ℕ_discrete, ne→==_false, ==_refl,
}
use mathlib.Core.Bool.{false≢true}
use elos.Wait.{
  State, running, runnable, asleep, Thread, Waiter, Slot, is_running, is_asleep, woken,
  sched_wakeup, put, Waitq, roused, wakeup_waiter,
}

-- Where a thread stands in the use of its waiter; `suspended` says whether the wait may be interrupted
-- and whether it has a timeout.
pub data Place : Type 0 where
  outside prepared : Place
  suspended : (intr timed : Bool) → Place

-- the thread runs or may run
pub record Awake (t : Thread) : Type 0 where
  pub kept : t.do_sleep ≡ false
  pub up : is_asleep t.state ≡ false
  pub shut : t.interruptable ≡ false

-- The thread sleeps, or goes to sleep when it next leaves the processor.
pub record Sleeping (intr : Bool) (t : Thread) : Type 0 where
  pub down : (is_running t.state && t.do_sleep) || (is_asleep t.state && not t.do_sleep) ≡ true
  pub may : t.interruptable ≡ intr
  pub calm : (intr && t.interrupted) ≡ false

-- how often a waiter that is prepared stands in the queue
abbrev pub listed : Waiter → ℕ
listed w = if w.done then 0 else 1

pub data Fits (n : ℕ) (s : Slot) : Place → Type 0 where
  fits_outside : n ≡ 0 → Awake s.thread → Fits n s outside
  fits_prepared : n ≡ listed s.waiter → s.waiter.sleep ≡ false → Awake s.thread → Fits n s prepared
  fits_asleep :
      (intr timed : Bool)
      → n ≡ 1
      → s.waiter.done ≡ false
      → s.waiter.sleep ≡ true
      → Sleeping intr s.thread
      → Fits n s (suspended intr timed)
  fits_awake :
      (intr timed : Bool)
      → n ≡ listed s.waiter
      → Awake s.thread
      → (s.waiter.done || (intr && (s.thread.interrupted || timed))) ≡ true
      → Fits n s (suspended intr timed)

pub record System : Type 0 where
  pub wait : Waitq
  pub place : ℕ → Place

unfoldable pub Inv : System → Type 0
Inv s = (i : ℕ) → Fits (count i s.wait.waiters) (s.wait.slot i) (s.place i)

abbrev pub write : System → ℕ → List ℕ → Slot → Place → System
write s i ws slot p = record {
  wait = record { waiters = ws; slot = put s.wait.slot i slot };
  place = put s.place i p;
}

-- A step that changes one thread, and no other's place in the queue.
pub write-Inv :
    (s : System) (i : ℕ) (ws : List ℕ) (slot : Slot) (p : Place)
    → Inv s
    → ((j : ℕ) → i ≢ j → count j ws ≡ count j s.wait.waiters)
    → Fits (count i ws) slot p
    → Inv (write s i ws slot p)
unfolding Inv
write-Inv s i ws slot p inv others fits j = elim (ℕ_discrete i j) [
  | yes e ↦
      let hit : (i == j) ≡ true = rw e (==_refl j) in
      rw hit (subst (λ k. Fits (count k ws) slot p) e fits)
  | no ne ↦ let miss : (i == j) ≡ false = ne→==_false i j ne in rw (miss, others j ne) (inv j)
]

-- Waking a thread.
woken-Awake_asleep :
    (intr : Bool) (t : Thread) (x : State) → t.state ≡ x → Sleeping intr t → Awake (woken x t)
woken-Awake_asleep intr t running e s = record { kept = refl; up = rw e refl; shut = refl }
woken-Awake_asleep intr t runnable e s =
    let bad : false ≡ true = rw e at s.down in absurd (false≢true bad)
woken-Awake_asleep intr t asleep e s =
    let down : not t.do_sleep ≡ true = rw e at s.down in
    let kept : t.do_sleep ≡ false = elim (Bool-cases t.do_sleep) [
      | inl hit ↦ let bad : false ≡ true = rw hit at down in absurd (false≢true bad)
      | inr miss ↦ miss
    ] in
    record { kept = kept; up = refl; shut = refl }

woken-Awake : (t : Thread) (x : State) → t.state ≡ x → Awake t → Awake (woken x t)
woken-Awake t running e a = record { kept = refl; up = a.up; shut = refl }
woken-Awake t runnable e a = record { kept = a.kept; up = a.up; shut = refl }
woken-Awake t asleep e a = record { kept = a.kept; up = refl; shut = refl }

woken-interrupted : (t : Thread) (x : State) → (woken x t).interrupted ≡ t.interrupted
woken-interrupted t running = refl
woken-interrupted t runnable = refl
woken-interrupted t asleep = refl

pub sched_wakeup-Awake_asleep :
    (intr : Bool) (t : Thread) → Sleeping intr t → Awake (sched_wakeup t)
unfolding sched_wakeup
sched_wakeup-Awake_asleep intr t s = woken-Awake_asleep intr t t.state refl s

pub sched_wakeup-Awake : (t : Thread) → Awake t → Awake (sched_wakeup t)
unfolding sched_wakeup
sched_wakeup-Awake t a = woken-Awake t t.state refl a

pub sched_wakeup-interrupted : (t : Thread) → (sched_wakeup t).interrupted ≡ t.interrupted
unfolding sched_wakeup
sched_wakeup-interrupted t = woken-interrupted t t.state

-- A waiter in the queue is woken.
pub roused-Fits :
    (n : ℕ) (s : Slot) (p : Place) → n ≡ suc 0 → Fits n s p → Fits (n - 1) (roused s) p
roused-Fits n s _ one (fits_outside out a) = absurd (omega (arith, one, out))
roused-Fits n s _ one (fits_prepared e rests a) =
    fits_prepared (omega (arith, one)) rests (rw rests a)
roused-Fits n s _ one (fits_asleep intr timed e open_w sleeps_w sl) =
    fits_awake intr timed (omega (arith, one))
      (rw sleeps_w (sched_wakeup-Awake_asleep intr s.thread sl)) refl
roused-Fits n s _ one (fits_awake intr timed e a why) =
    fits_awake intr timed (omega (arith, one))
      (elim (Bool-cases s.waiter.sleep) [
        | inl hit ↦ rw hit (sched_wakeup-Awake s.thread a)
        | inr miss ↦ rw miss a
      ])
      refl

-- `wakeup_waiter` of a waiter in the queue
pub wakeup_waiter-Inv :
    (s : System) (i : ℕ)
    → count i s.wait.waiters ≡ suc 0
    → Inv s
    → Inv (record s { wait = wakeup_waiter s.wait i })
unfolding Inv wakeup_waiter
wakeup_waiter-Inv s i one inv j = elim (ℕ_discrete i j) [
  | yes e ↦
      let hit : (i == j) ≡ true = rw e (==_refl j) in
      let now = roused-Fits (count i s.wait.waiters) (s.wait.slot i) (s.place i) one (inv i) in
      rw hit (
        subst (λ k. Fits (count k (remove i s.wait.waiters)) (roused (s.wait.slot i)) (s.place k)) e
          (subst (λ n. Fits n (roused (s.wait.slot i)) (s.place i))
            (sym (count-remove_self i s.wait.waiters)) now))
  | no ne ↦
      let miss : (i == j) ≡ false = ne→==_false i j ne in
      rw (miss, count-remove_other i j s.wait.waiters ne) (inv j)
]
