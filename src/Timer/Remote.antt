-- ===== src/Timer/Remote.antt =====
-- `timer_stop` of the first timer on another processor than the queue's.
use elos.Base.{
  count_out, ℕ, ◌<◌, ◌≡◌, refl, true, false, some, List, [], ◌∷◌, ◌==◌, leb, arith, sym, ◌∙◌, ap,
  ==_refl, subst,
}
use elos.Timer.{Timerq, timer_done_p, timer_ontick_p, store, done, timer_stop, intr_end, timer_intr}
use elos.Timer.Lists.{Queued, due, store_other}
use elos.Timer.Inv.{Valid}
use elos.Timer.Interrupt.{intr_loop-stop}

stopped_first : Timerq → ℕ → List ℕ → Timerq
stopped_first q t rest = record q { queue = rest; timers = store q.timers t (done (q.timers t)) }

timer_stop-first :
    (q : Timerq) (t at : ℕ) (rest : List ℕ)
    → q.queue ≡ t ∷ rest
    → timer_ontick_p (q.timers t) ≡ false
    → timer_done_p (q.timers t) ≡ false
    → (timer_stop q false t at).0 ≡ stopped_first q t rest
unfolding timer_stop stopped_first
timer_stop-first q t at rest e queue active =
    let self : (t == t) ≡ true = ==_refl t in rw (queue, active, e, self) refl

quiet-timer_intr :
    (q : Timerq) (now : ℕ)
    → q.ontick ≡ []
    → due q.timers now q.queue ≡ []
    → timer_intr 1 q now ≡ some (q, [])
unfolding timer_intr
quiet-timer_intr q now no_tick none =
    ap (intr_end q.ontick now) (intr_loop-stop 0 q now none) ∙ rw no_tick refl

-- With no timer of the tick, another processor stops the first of at least two
-- timers. The interrupt that comes for the stopped timer, before the time of the second, calls nobody
-- and gives the device no command, though timers wait.
pub remote_stop-timer_intr :
    (q : Timerq) (t u at now : ℕ) (rest : List ℕ)
    → Valid q
    → q.ontick ≡ []
    → q.queue ≡ t ∷ u ∷ rest
    → now < (q.timers u).time
    → let q₁ = (timer_stop q false t at).0 in
      (q₁.queue ≡ u ∷ rest) × (q₁.dev ≡ q.dev) × (timer_intr 1 q₁ now ≡ some (q₁, []))
unfolding stopped_first
remote_stop-timer_intr q t u at now rest v no_tick e later =
    let (low, queue, active, out, others) = subst (Queued q.timers 0) e v.queued in
    let (ne, out_rest) = count_out t u rest out in
    let q₁ = stopped_first q t (u ∷ rest) in
    let late : leb (q₁.timers u).time now ≡ false =
      let other = store_other q.timers t u (done (q.timers t)) ne in
      let l : leb (q.timers u).time now ≡ false = ground arith in rw other l in
    let quiet = quiet-timer_intr q₁ now no_tick (rw late refl) in
    subst
      (λ (r : Timerq). (r.queue ≡ u ∷ rest) × (r.dev ≡ q.dev) × (timer_intr 1 r now ≡ some (r, [])))
      (sym (timer_stop-first q t at (u ∷ rest) e queue active)) (refl, refl, quiet)
