-- ===== src/Timer/Rounds.antt =====
-- One round of the loop of `timer_intr`.
use elos.Base.{
  count, count_out, ℕ, ◌+◌, ◌≤◌, ◌<◌, ◌≡◌, refl, true, false, List, [], ◌∷◌, if◌then◌else◌, leb,
  arith, inl, inr, Bool-cases, sym, subst, ◌∙◌,
}
use mathlib.Core.Bool.{false≢true}
use elos.Timer.{
  Timer, Timerq, timer_done_p, timer_ontick_p, timer_periodic_p, store, intr_round, done,
}
use elos.Timer.Lists.{
  Queued, Ticking, due, Queued-weaken, Queued-store, Queued-insert_sorted, Ticking-store,
  Ticking-out, store_self, store_other, due-store, due-insert_sorted, count-insert_sorted,
}
use elos.Timer.Inv.{Valid, Lasting, again, intr_round-once, intr_round-again}

abbrev pub AllLasting : (ℕ → Timer) → ℕ → List ℕ → Type 0
AllLasting m now [] = Unit
AllLasting m now (x ∷ xs) = Lasting (m x) now × AllLasting m now xs

-- those of the timers that are not periodic
abbrev pub oneshots : (ℕ → Timer) → List ℕ → List ℕ
oneshots m [] = []
oneshots m (x ∷ xs) = let rest = oneshots m xs in if timer_periodic_p (m x) then rest else x ∷ rest

AllLasting-store :
    (m : ℕ → Timer) (t now : ℕ) (v : Timer) (xs : List ℕ)
    → count t xs ≡ 0
    → AllLasting m now xs
    → AllLasting (store m t v) now xs
AllLasting-store m t now v [] out q = tt
AllLasting-store m t now v (x ∷ xs) out (h, rest) =
    let (ne, out_rest) = count_out t x xs out in
    (
      subst (λ y. Lasting y now) (sym (store_other m t x v ne)) h,
      AllLasting-store m t now v xs out_rest rest,
    )

oneshots-store :
    (m : ℕ → Timer) (t : ℕ) (v : Timer) (xs : List ℕ)
    → count t xs ≡ 0
    → oneshots (store m t v) xs ≡ oneshots m xs
oneshots-store m t v [] out = refl
oneshots-store m t v (x ∷ xs) out =
    let (ne, out_rest) = count_out t x xs out in
    rw (store_other m t x v ne, oneshots-store m t v xs out_rest) refl

count_le-due : (m : ℕ → Timer) (t now : ℕ) (xs : List ℕ) → count t (due m now xs) ≤ count t xs
count_le-due m t now [] = omega arith
count_le-due m t now (x ∷ xs) = elim (Bool-cases (leb (m x).time now)) [
  | inl hit ↦ rw hit (omega (arith, count_le-due m t now xs))
  | inr miss ↦ rw miss (omega arith)
]

again_later :
    (x : Timer) (now : ℕ) → timer_periodic_p x ≡ true → Lasting x now → now < (again x now).time
unfolding Lasting
again_later x now periodic (inl once) = absurd (false≢true (sym once ∙ periodic))
again_later x now periodic (inr (pos, fits)) = omega arith

-- What a round with timer `t` makes of a queue of `t` and `rest`.
pub record Rounded (q : Timerq) (t : ℕ) (rest : List ℕ) (now : ℕ) (after : Timerq) : Type 0 where
  pub valid : Valid after
  pub due_rest : due after.timers now after.queue ≡ due q.timers now rest
  pub lasting : AllLasting after.timers now (due q.timers now rest)
  pub shots :
      oneshots after.timers (due q.timers now rest) ≡ oneshots q.timers (due q.timers now rest)
  pub counts :
      (x : ℕ) → count x after.queue + count x (oneshots q.timers (t ∷ [])) ≡ count x (t ∷ rest)
  pub same_ontick : after.ontick ≡ q.ontick
  pub same_bsp : after.bsp ≡ q.bsp
  pub same_dev : after.dev ≡ q.dev

pub intr_round-Rounded :
    (q : Timerq) (t : ℕ) (rest : List ℕ) (now : ℕ)
    → Queued q.timers 0 (t ∷ rest)
    → Ticking q.timers q.ontick
    → Lasting (q.timers t) now
    → AllLasting q.timers now (due q.timers now rest)
    → Rounded q t rest now (intr_round q t rest now)
intr_round-Rounded q t rest now (low, tick, active, out, queued) ticking last lasting =
    let out_tick = Ticking-out q.timers t q.ontick tick ticking in
    let out_due : count t (due q.timers now rest) ≡ 0 =
      omega (arith, count_le-due q.timers t now rest, out) in
    let from_zero = Queued-weaken q.timers 0 (q.timers t).time rest (omega arith) queued in
    elim (Bool-cases (timer_periodic_p (q.timers t))) [
      | inl periodic ↦
          let v = again (q.timers t) now in
          let m = store q.timers t v in
          let at : m t ≡ v = store_self q.timers t v in
          let later : now < (m t).time =
            subst (λ (y : Timer). now < y.time) (sym at)
              (again_later (q.timers t) now periodic last) in
          subst (Rounded q t rest now) (sym (intr_round-again q t rest now periodic tick)) record {
            valid = record {
              queued =
                  Queued-insert_sorted m t 0 rest (omega arith)
                    (subst (λ y. timer_ontick_p y ≡ false) (sym at) tick)
                    (subst (λ y. timer_done_p y ≡ false) (sym at) active) out
                    (Queued-store q.timers t 0 v rest out from_zero);
              ticking = Ticking-store q.timers t v q.ontick out_tick ticking;
            };
            due_rest = due-insert_sorted m t now rest later ∙ due-store q.timers t now v rest out;
            lasting = AllLasting-store q.timers t now v (due q.timers now rest) out_due lasting;
            shots = oneshots-store q.timers t v (due q.timers now rest) out_due;
            counts = λ x. rw periodic (omega (arith, count-insert_sorted m t x rest));
            same_ontick = refl;
            same_bsp = refl;
            same_dev = refl;
          }
      | inr once ↦
          let v = done (q.timers t) in
          subst (Rounded q t rest now) (sym (intr_round-once q t rest now once)) record {
            valid = record {
              queued = Queued-store q.timers t 0 v rest out from_zero;
              ticking = Ticking-store q.timers t v q.ontick out_tick ticking;
            };
            due_rest = due-store q.timers t now v rest out;
            lasting = AllLasting-store q.timers t now v (due q.timers now rest) out_due lasting;
            shots = oneshots-store q.timers t v (due q.timers now rest) out_due;
            counts = λ x. rw once (omega arith);
            same_ontick = refl;
            same_bsp = refl;
            same_dev = refl;
          }
    ]
