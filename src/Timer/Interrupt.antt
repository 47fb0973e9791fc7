-- ===== src/Timer/Interrupt.antt =====
-- The interrupt of a timer queue as a whole.
use elos.Base.{
  count, ℕ, zero, suc, ◌+◌, ◌≤◌, ◌≡◌, refl, true, false, ◌||◌, not, some, List, [], ◌∷◌, ◌++◌,
  length, if◌then◌else◌, ◌==◌, leb, arith, inl, inr, ◌⊎◌, Bool-cases, sym, subst, ◌∙◌, ap,
}
use elos.Timer.{
  Timer, Timerq, Ran, is_empty, call_first, intr_round, intr_loop, intr_end, timer_intr, next_event,
  timer_periodic_p, timerq_reconf,
}
use elos.Timer.Lists.{Queued, due}
use elos.Timer.Inv.{Valid}
use elos.Timer.Rounds.{AllLasting, oneshots, Rounded, intr_round-Rounded}

-- What the loop leaves of a queue.
record Looped (q : Timerq) (now : ℕ) (r : Ran) : Type 0 where
  pub valid : Valid r.after
  pub called : r.called ≡ due q.timers now q.queue
  pub reconf : r.reconf ≡ not (is_empty (due q.timers now q.queue))
  pub none_due : due r.after.timers now r.after.queue ≡ []
  pub counts :
      (x : ℕ)
      → count x r.after.queue + count x (oneshots q.timers (due q.timers now q.queue))
        ≡ count x q.queue
  pub same_ontick : r.after.ontick ≡ q.ontick
  pub same_bsp : r.after.bsp ≡ q.bsp
  pub same_dev : r.after.dev ≡ q.dev

-- The queue begins with a due timer, or nothing is due.
Front : Timerq → ℕ → Type 0
Front q now =
    (t : ℕ) × (rest : List ℕ) × (q.queue ≡ t ∷ rest)
    × (leb (q.timers t).time now ≡ true)
    × (due q.timers now q.queue ≡ t ∷ due q.timers now rest)

Front-cases : (q : Timerq) (now : ℕ) → (due q.timers now q.queue ≡ []) ⊎ Front q now
unfolding Front
Front-cases q now = go q.queue refl
  where
    go : (xs : List ℕ) → q.queue ≡ xs → (due q.timers now q.queue ≡ []) ⊎ Front q now
    go [] e = inl (rw e refl)
    go (t ∷ rest) e = elim (Bool-cases (leb (q.timers t).time now)) [
      | inl hit ↦ inr (t, rest, e, hit, rw (e, hit) refl)
      | inr miss ↦ inl (rw (e, miss) refl)
    ]

pub intr_loop-stop :
    (fuel : ℕ) (q : Timerq) (now : ℕ)
    → due q.timers now q.queue ≡ []
    → intr_loop (suc fuel) q now ≡ some (record { after = q; reconf = false; called = [] })
unfolding intr_loop
intr_loop-stop fuel q now none = go q.queue refl none
  where
    go :
        (xs : List ℕ)
        → q.queue ≡ xs
        → due q.timers now xs ≡ []
        → intr_loop (suc fuel) q now ≡ some (record { after = q; reconf = false; called = [] })
    go [] e none = rw e refl
    go (t ∷ rest) e none = elim (Bool-cases (leb (q.timers t).time now)) [
      | inl hit ↦ let bad : t ∷ due q.timers now rest ≡ [] = rw hit at none in absurd (cc)
      | inr miss ↦ rw (e, miss) refl
    ]

intr_loop-step :
    (fuel : ℕ) (q : Timerq) (now t : ℕ) (rest : List ℕ)
    → q.queue ≡ t ∷ rest
    → leb (q.timers t).time now ≡ true
    → intr_loop (suc fuel) q now ≡ call_first t (intr_loop fuel (intr_round q t rest now) now)
unfolding intr_loop
intr_loop-step fuel q now t rest e hit = rw (e, hit) refl

count-oneshots :
    (m : ℕ → Timer) (x t : ℕ) (ys : List ℕ)
    → count x (oneshots m (t ∷ ys)) ≡ count x (oneshots m (t ∷ [])) + count x (oneshots m ys)
count-oneshots m x t ys = elim (Bool-cases (timer_periodic_p (m t))) [
  | inl periodic ↦ rw periodic (omega arith)
  | inr once ↦ rw once (omega arith)
]

stopped-Looped :
    (q : Timerq) (now : ℕ)
    → Valid q
    → due q.timers now q.queue ≡ []
    → Looped q now (record { after = q; reconf = false; called = [] })
stopped-Looped q now v none = record {
  valid = v;
  called = sym none;
  reconf = rw none refl;
  none_due = none;
  counts = λ x. rw none (omega arith);
  same_ontick = refl;
  same_bsp = refl;
  same_dev = refl;
}

called-Looped :
    (q mid : Timerq) (now t : ℕ) (rest : List ℕ) (r : Ran)
    → q.queue ≡ t ∷ rest
    → due q.timers now q.queue ≡ t ∷ due q.timers now rest
    → Rounded q t rest now mid
    → Looped mid now r
    → Looped q now (record r { reconf = true; called = t ∷ r.called })
called-Looped q mid now t rest r e front round later = record {
  valid = later.valid;
  called = rw front (ap (λ xs. t ∷ xs) (later.called ∙ round.due_rest));
  reconf = rw front refl;
  none_due = later.none_due;
  counts = λ x.
      let split = count-oneshots q.timers x t (due q.timers now rest) in
      let left = ap (count x) (ap (oneshots mid.timers) round.due_rest ∙ round.shots) in
      rw (front, e) (omega (arith, split, left, later.counts x, round.counts x));
  same_ontick = later.same_ontick ∙ round.same_ontick;
  same_bsp = later.same_bsp ∙ round.same_bsp;
  same_dev = later.same_dev ∙ round.same_dev;
}

intr_loop-Looped :
    (n : ℕ) (q : Timerq) (now : ℕ)
    → Valid q
    → AllLasting q.timers now (due q.timers now q.queue)
    → length (due q.timers now q.queue) ≤ n
    → (r : Ran) × (intr_loop (suc n) q now ≡ some r) × Looped q now r
unfolding Front
intr_loop-Looped zero q now v lasting few = elim (Front-cases q now) [
  | inl none ↦ (_, intr_loop-stop zero q now none, stopped-Looped q now v none)
  | inr (t, rest, e, hit, front) ↦ absurd (omega (arith, few, ap length front))
]
intr_loop-Looped (suc n) q now v lasting few = elim (Front-cases q now) [
  | inl none ↦ (_, intr_loop-stop (suc n) q now none, stopped-Looped q now v none)
  | inr (t, rest, e, hit, front) ↦
      let (first, others) = subst (AllLasting q.timers now) front lasting in
      let queued = subst (Queued q.timers 0) e v.queued in
      let round = intr_round-Rounded q t rest now queued v.ticking first others in
      let mid = intr_round q t rest now in
      let enough : length (due mid.timers now mid.queue) ≤ n =
        omega (arith, few, ap length front, ap length round.due_rest) in
      let (r, run, later) =
        intr_loop-Looped n mid now round.valid
          (subst (AllLasting mid.timers now) (sym round.due_rest) round.lasting) enough in
      (
        _,
        intr_loop-step (suc n) q now t rest e hit ∙ ap (call_first t) run,
        called-Looped q mid now t rest r e front round later,
      )
]

-- What an interrupt at the time `now` makes of a queue: the callbacks that were called, and the queue.
pub record Interrupted (q : Timerq) (now : ℕ) (after : Timerq) (called : List ℕ) : Type 0 where
  pub valid : Valid after
  pub calls : called ≡ q.ontick ++ due q.timers now q.queue
  pub none_due : due after.timers now after.queue ≡ []
  pub counts :
      (x : ℕ)
      → count x after.queue + count x (oneshots q.timers (due q.timers now q.queue))
        ≡ count x q.queue
  pub same_ontick : after.ontick ≡ q.ontick
  pub armed : after.dev ≡ (
      if is_empty (due q.timers now q.queue) || (q.bsp || not (length q.ontick == 0))
      then q.dev
      else next_event after.timers after.queue now)

unchanged-Interrupted :
    (q : Timerq) (now : ℕ) (r : Ran)
    → Looped q now r
    → (is_empty (due q.timers now q.queue) || (q.bsp || not (length q.ontick == 0))) ≡ true
    → Interrupted q now r.after (q.ontick ++ r.called)
unchanged-Interrupted q now r l guard = record {
  valid = l.valid;
  calls = ap (λ xs. q.ontick ++ xs) l.called;
  none_due = l.none_due;
  counts = l.counts;
  same_ontick = l.same_ontick;
  armed = l.same_dev ∙ rw guard refl;
}

timerq_reconf-Interrupted :
    (q : Timerq) (now : ℕ) (r : Ran)
    → Looped q now r
    → is_empty (due q.timers now q.queue) ≡ false
    → Interrupted q now (timerq_reconf r.after now) (q.ontick ++ r.called)
unfolding timerq_reconf
timerq_reconf-Interrupted q now r l some_due =
    let tick : (r.after.bsp || not (length r.after.ontick == 0))
        ≡ (q.bsp || not (length q.ontick == 0)) =
      rw (l.same_bsp, l.same_ontick) refl in
    elim (Bool-cases (r.after.bsp || not (length r.after.ontick == 0))) [
      | inl ticks ↦ rw ticks (unchanged-Interrupted q now r l (rw some_due (sym tick ∙ ticks)))
      | inr idle ↦ rw idle record {
        valid = record { queued = l.valid.queued; ticking = l.valid.ticking };
        calls = ap (λ xs. q.ontick ++ xs) l.called;
        none_due = l.none_due;
        counts = l.counts;
        same_ontick = l.same_ontick;
        armed = rw (some_due, sym tick, idle) refl;
      }
    ]

intr_end-Interrupted :
    (q : Timerq) (now : ℕ) (r : Ran)
    → Looped q now r
    → (after : Timerq) × (intr_end q.ontick now (some r) ≡ some (after, q.ontick ++ r.called))
      × Interrupted q now after (q.ontick ++ r.called)
intr_end-Interrupted q now r l = elim (Bool-cases (is_empty (due q.timers now q.queue))) [
  | inl none ↦
      let idle : r.reconf ≡ false = l.reconf ∙ ap not none in
      (r.after, rw idle refl, unchanged-Interrupted q now r l (rw none refl))
  | inr some_due ↦
      let ran : r.reconf ≡ true = l.reconf ∙ ap not some_due in
      (timerq_reconf r.after now, rw ran refl, timerq_reconf-Interrupted q now r l some_due)
]

-- On a valid queue whose due periodic timers have a period that is not 0 and ends below 2 ^ 64, one test of
-- the loop's condition more than there are due timers is enough for `timer_intr` to end. It calls
-- the timers of the tick and then the due timers, each once and in their order. The queue is valid
-- after that, none in it is due, all it had are in it as often as before but the due ones that are
-- not periodic, and the event device is set to the first of them if a timer was called, unless the
-- device ticks anyway.
pub timer_intr-Interrupted :
    (q : Timerq) (now : ℕ)
    → Valid q
    → AllLasting q.timers now (due q.timers now q.queue)
    → (after : Timerq) × (called : List ℕ) × (timer_intr
          (suc (length (due q.timers now q.queue)))
          q
          now
        ≡ some (after, called))
      × Interrupted q now after called
unfolding timer_intr
timer_intr-Interrupted q now v lasting =
    let (r, run, looped) =
      intr_loop-Looped (length (due q.timers now q.queue)) q now v lasting (omega arith) in
    let (after, e, i) = intr_end-Interrupted q now r looped in
    (after, _, ap (intr_end q.ontick now) run ∙ e, i)
