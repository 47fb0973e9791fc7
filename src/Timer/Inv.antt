-- ===== src/Timer/Inv.antt =====
-- When the two lists of a timer queue fit the timers, and what the steps of an interrupt keep of it.
use elos.Base.{
  count, ℕ, ◌+◌, ◌%◌, ◌^◌, ◌<◌, ◌≡◌, ◌⊎◌, refl, true, false, List, [], ◌∷◌, ◌==◌, arith, inl, inr,
  Bool-cases, sym, subst, ◌&&◌, not, length, ◌++◌,
}
use elos.Timer.{
  Timer, Timerq, timer_done_p, timer_ontick_p, timer_periodic_p, insert_sorted, store,
  timerq_insert, intr_round, done,
}
use elos.Timer.Lists.{
  Queued, Ticking, Queued-store, Queued-insert_sorted, Ticking-store, Ticking-append, store_self,
}

pub record Valid (q : Timerq) : Type 0 where
  pub queued : Queued q.timers 0 q.queue
  pub ticking : Ticking q.timers q.ontick

pub timerq_insert-Valid :
    (q : Timerq) (t : ℕ)
    → Valid q
    → timer_done_p (q.timers t) ≡ false
    → count t q.queue ≡ 0
    → count t q.ontick ≡ 0
    → Valid (timerq_insert q t)
unfolding timerq_insert
timerq_insert-Valid q t v active out out_tick = elim (Bool-cases (timer_ontick_p (q.timers t))) [
  | inl tick ↦
      let ticking = Ticking-append q.timers t q.ontick tick out_tick v.ticking in
      elim (Bool-cases (not q.bsp && (length (q.ontick ++ (t ∷ [])) == 1))) [
        | inl alone ↦ rw (tick, alone) record { queued = v.queued; ticking = ticking }
        | inr more ↦ rw (tick, more) record { queued = v.queued; ticking = ticking }
      ]
  | inr queue ↦ rw queue record {
    queued = Queued-insert_sorted q.timers t 0 q.queue (omega arith) queue active out v.queued;
    ticking = v.ticking;
  }
]

pub store-Valid :
    (q : Timerq) (t : ℕ) (x : Timer)
    → Valid q
    → count t q.queue ≡ 0
    → count t q.ontick ≡ 0
    → Valid (record q { timers = store q.timers t x })
store-Valid q t x v out out_tick = record {
  queued = Queued-store q.timers t 0 x q.queue out v.queued;
  ticking = Ticking-store q.timers t x q.ontick out_tick v.ticking;
}

-- the timer as `intr_round` queues it again
abbrev pub again : Timer → (curtime : ℕ) → Timer
again x curtime = record x { time = (curtime + x.period) % 2 ^ 64 }

-- one round with a timer that is not one of the tick's
pub intr_round-once :
    (q : Timerq) (t : ℕ) (rest : List ℕ) (now : ℕ)
    → timer_periodic_p (q.timers t) ≡ false
    → intr_round q t rest now
      ≡ record q { queue = rest; timers = store q.timers t (done (q.timers t)) }
unfolding intr_round
intr_round-once q t rest now once = rw once refl

pub intr_round-again :
    (q : Timerq) (t : ℕ) (rest : List ℕ) (now : ℕ)
    → timer_periodic_p (q.timers t) ≡ true
    → timer_ontick_p (q.timers t) ≡ false
    → let m = store q.timers t (again (q.timers t) now) in
      intr_round q t rest now ≡ record q { queue = insert_sorted m t rest; timers = m }
unfolding intr_round timerq_insert
intr_round-again q t rest now periodic queue =
    let self : timer_ontick_p (store q.timers t (again (q.timers t) now) t) ≡ false =
      subst (λ x. timer_ontick_p x ≡ false) (sym (store_self q.timers t (again (q.timers t) now)))
        queue in
    rw (periodic, self) refl

-- The round takes a due timer that does not come again at once.
unfoldable pub Lasting : Timer → ℕ → Type 0
Lasting x now = (timer_periodic_p x ≡ false) ⊎ ((0 < x.period) × (now + x.period < 2 ^ 64))
