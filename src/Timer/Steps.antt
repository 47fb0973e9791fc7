-- ===== src/Timer/Steps.antt =====
-- Starting and stopping timers, and their interrupts in any order.
use elos.Base.{
  count, remove, ℕ, suc, ◌+◌, ◌%◌, ◌/◌, ◌^◌, ◌≡◌, Bool, false, ◌&&◌, ◌||◌, not, Option, some, List,
  length, ◌==◌, inl, inr, Bool-cases, sym, subst, ◌∙◌,
}
use elos.Timer.{
  Timer, Timerq, Event, timer_done_p, timer_ontick_p, store, timerq_insert, timerq_reconf,
  init_timer, timer_start, timer_unlink, timer_stop, timer_intr,
}
use elos.Timer.Lists.{
  due, Queued-store, Queued-remove, Ticking-store, Ticking-remove, Queued-out, Queued-out_done,
  Ticking-out, store_self,
}
use elos.Timer.Inv.{Valid, timerq_insert-Valid, store-Valid}
use elos.Timer.Rounds.{AllLasting}
use elos.Timer.Interrupt.{timer_intr-Interrupted}

timerq_reconf-Valid : (q : Timerq) (curtime : ℕ) → Valid q → Valid (timerq_reconf q curtime)
unfolding timerq_reconf
timerq_reconf-Valid q curtime v = elim (Bool-cases (q.bsp || not (length q.ontick == 0))) [
  | inl ticks ↦ rw ticks v
  | inr idle ↦ rw idle record { queued = v.queued; ticking = v.ticking }
]

timer_start-Valid :
    (q : Timerq) (t time flags curtime : ℕ)
    → Valid q
    → (flags / 2 % 2 == 1) ≡ false
    → count t q.queue ≡ 0
    → count t q.ontick ≡ 0
    → Valid (timer_start q t time flags curtime)
unfolding timer_start
timer_start-Valid q t time flags curtime v active out out_tick =
    let timer : Timer = record { flags = flags; time = (time + curtime) % 2 ^ 64; period = time } in
    let q₁ = record q { timers = store q.timers t timer } in
    timerq_reconf-Valid (timerq_insert q₁ t) curtime (
      timerq_insert-Valid q₁ t (store-Valid q t timer v out out_tick)
        (subst (λ x. timer_done_p x ≡ false) (sym (store_self q.timers t timer)) active) out
        out_tick)

-- A timer that is in no list.
pub record Unlinked (q : Timerq) (t : ℕ) : Type 0 where
  pub queued : count t q.queue ≡ 0
  pub ticking : count t q.ontick ≡ 0

timer_unlink-Unlinked :
    (q : Timerq) (t : ℕ) → Valid q → Valid (timer_unlink q t).0 × Unlinked (timer_unlink q t).0 t
timer_unlink-Unlinked q t v = elim (Bool-cases (timer_ontick_p (q.timers t))) [
  | inl tick ↦
      let (ticking, gone) = Ticking-remove q.timers t q.ontick v.ticking in
      rw tick (
        record { queued = v.queued; ticking = ticking },
        record { queued = Queued-out q.timers t 0 q.queue tick v.queued; ticking = gone },
      )
  | inr queue ↦
      let out_tick = Ticking-out q.timers t q.ontick queue v.ticking in
      elim (Bool-cases (timer_done_p (q.timers t))) [
        | inl over ↦
            rw (queue, over)
              (
                v,
                record {
                  queued = Queued-out_done q.timers t 0 q.queue over v.queued;
                  ticking = out_tick;
                },
              )
        | inr active ↦
            let (queued, gone) = Queued-remove q.timers t 0 q.queue v.queued in
            let v₁ : Timer = record (q.timers t) { flags = (q.timers t).flags + 2 } in
            rw (queue, active)
              (
                record {
                  queued = Queued-store q.timers t 0 v₁ (remove t q.queue) gone queued;
                  ticking = Ticking-store q.timers t v₁ q.ontick out_tick v.ticking;
                },
                record { queued = gone; ticking = out_tick },
              )
      ]
]

timerq_reconf-Unlinked :
    (q : Timerq) (t curtime : ℕ) → Unlinked q t → Unlinked (timerq_reconf q curtime) t
unfolding timerq_reconf
timerq_reconf-Unlinked q t curtime u = elim (Bool-cases (q.bsp || not (length q.ontick == 0))) [
  | inl ticks ↦ rw ticks u
  | inr idle ↦ rw idle record { queued = u.queued; ticking = u.ticking }
]

-- `timer_stop` of any timer on any processor keeps a valid queue valid, and the timer is in no list
-- after it.
pub timer_stop-Unlinked :
    (q : Timerq) (here : Bool) (t curtime : ℕ)
    → Valid q
    → Valid (timer_stop q here t curtime).0 × Unlinked (timer_stop q here t curtime).0 t
unfolding timer_stop
timer_stop-Unlinked q here t curtime v =
    let (valid, gone) = timer_unlink-Unlinked q t v in
    elim (Bool-cases ((timer_unlink q t).1 && here)) [
      | inl reconf ↦ rw reconf (
        timerq_reconf-Valid (timer_unlink q t).0 curtime valid,
        timerq_reconf-Unlinked (timer_unlink q t).0 t curtime gone,
      )
      | inr keep ↦ rw keep (valid, gone)
    ]

-- Starts of timers that are in no list, stops of any, and interrupts.
pub data Step (q : Timerq) : Timerq → Type 0 where
  start :
      (t time flags curtime : ℕ)
      → (flags / 2 % 2 == 1) ≡ false
      → Unlinked q t
      → Step q (timer_start q t time flags curtime)
  stop : (here : Bool) (t curtime : ℕ) → Step q (timer_stop q here t curtime).0
  tick :
      (now : ℕ) (after : Timerq) (called : List ℕ)
      → AllLasting q.timers now (due q.timers now q.queue)
      → timer_intr (suc (length (due q.timers now q.queue))) q now ≡ some (after, called)
      → Step q after

pub data Reach : Timerq → Type 0 where
  init : (m : ℕ → Timer) (bsp : Bool) (dev : Event) → Reach (init_timer m bsp dev)
  next : {q r : Timerq} → Reach q → Step q r → Reach r

pair_inj :
    {A B : Type 0} {a c : A} {b d : B}
    → ◌≡◌ {A = Option (A × B)} (some (a, b)) (some (c, d))
    → a ≡ c
pair_inj e = cc

-- In every queue that starts, stops and interrupts reach, the timers wait in the order of their
-- times, each once and in the list that its flags name, and none that is done.
pub Reach-Valid : (q : Timerq) → Reach q → Valid q
unfolding init_timer
Reach-Valid _ (init m bsp dev) = record { queued = tt; ticking = tt }
Reach-Valid _ (next {q} r (start t time flags curtime active u)) =
    timer_start-Valid q t time flags curtime (Reach-Valid q r) active u.queued u.ticking
Reach-Valid _ (next {q} r (stop here t curtime)) =
    (timer_stop-Unlinked q here t curtime (Reach-Valid q r)).0
Reach-Valid _ (next {q} r (tick now after called lasting run)) =
    let (after₁, called₁, run₁, i) = timer_intr-Interrupted q now (Reach-Valid q r) lasting in
    let same : some (after, called) ≡ some (after₁, called₁) = sym run ∙ run₁ in
    subst Valid (sym (pair_inj same)) i.valid
