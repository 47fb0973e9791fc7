-- ===== src/Timer/Lists.antt =====
-- The order of a timer queue, and what inserting, removing and rewriting one timer does to it.
use elos.Base.{
  count, remove, count_out, count_skip, count-append_other, count_le-remove, ℕ, ◌+◌, ◌≤◌, ◌<◌, ◌≡◌,
  ◌≢◌, refl, true, false, List, [], ◌∷◌, if◌then◌else◌, leb, ◌==◌, arith, inl, inr, Bool-cases,
  leb→le, leb_false→lt, ne→==_false, ==_refl, sym, subst, ◌∙◌, ==_iff, ap, ◌++◌,
}
use mathlib.Core.Bool.{false≢true}
use elos.Timer.{Timer, timer_done_p, timer_ontick_p, insert_sorted, store}

-- From the time `b` on, each timer is once in the queue, no earlier than the one before it, and
-- neither done nor one of the tick's.
abbrev pub Queued : (ℕ → Timer) → ℕ → List ℕ → Type 0
Queued m b [] = Unit
Queued m b (x ∷ xs) =
    (b ≤ (m x).time)
    × (timer_ontick_p (m x) ≡ false)
    × (timer_done_p (m x) ≡ false)
    × (count x xs ≡ 0)
    × Queued m (m x).time xs

-- Each timer is one of the tick's, and once in the list.
abbrev pub Ticking : (ℕ → Timer) → List ℕ → Type 0
Ticking m [] = Unit
Ticking m (x ∷ xs) = (timer_ontick_p (m x) ≡ true) × (count x xs ≡ 0) × Ticking m xs

-- the timers at the front whose time has come
abbrev pub due : (ℕ → Timer) → (curtime : ℕ) → List ℕ → List ℕ
due m curtime [] = []
due m curtime (x ∷ xs) =
    let rest = due m curtime xs in if leb (m x).time curtime then x ∷ rest else []

pub Queued-weaken : (m : ℕ → Timer) (a b : ℕ) (xs : List ℕ) → a ≤ b → Queued m b xs → Queued m a xs
Queued-weaken m a b [] l q = tt
Queued-weaken m a b (x ∷ xs) l (h, tick, active, once, rest) =
    (omega arith, tick, active, once, rest)

pub store_other : (m : ℕ → Timer) (t x : ℕ) (v : Timer) → t ≢ x → store m t v x ≡ m x
store_other m t x v ne = let miss : (t == x) ≡ false = ne→==_false t x ne in rw miss refl

pub store_self : (m : ℕ → Timer) (t : ℕ) (v : Timer) → store m t v t ≡ v
store_self m t v = let hit : (t == t) ≡ true = ==_refl t in rw hit refl

pub Queued-store :
    (m : ℕ → Timer) (t b : ℕ) (v : Timer) (xs : List ℕ)
    → count t xs ≡ 0
    → Queued m b xs
    → Queued (store m t v) b xs
Queued-store m t b v [] out q = tt
Queued-store m t b v (x ∷ xs) out (l, tick, active, once, rest) =
    let (ne, out_rest) = count_out t x xs out in
    subst
      (λ (y : Timer).
        (b ≤ y.time)
        × (timer_ontick_p y ≡ false)
        × (timer_done_p y ≡ false)
        × (count x xs ≡ 0)
        × Queued (store m t v) y.time xs)
      (sym (store_other m t x v ne))
      (l, tick, active, once, Queued-store m t (m x).time v xs out_rest rest)

pub due-store :
    (m : ℕ → Timer) (t now : ℕ) (v : Timer) (xs : List ℕ)
    → count t xs ≡ 0
    → due (store m t v) now xs ≡ due m now xs
due-store m t now v [] out = refl
due-store m t now v (x ∷ xs) out =
    let (ne, out_rest) = count_out t x xs out in
    rw (store_other m t x v ne, due-store m t now v xs out_rest) refl

pub count-insert_sorted :
    (m : ℕ → Timer) (t x : ℕ) (xs : List ℕ)
    → count x (insert_sorted m t xs) ≡ (if x == t then 1 else 0) + count x xs
unfolding insert_sorted
count-insert_sorted m t x [] = refl
count-insert_sorted m t x (y ∷ ys) = elim (Bool-cases (leb (m t).time (m y).time)) [
  | inl hit ↦ rw hit refl
  | inr miss ↦ rw (miss, count-insert_sorted m t x ys) (omega arith)
]

pub Queued-insert_sorted :
    (m : ℕ → Timer) (t b : ℕ) (xs : List ℕ)
    → b ≤ (m t).time
    → timer_ontick_p (m t) ≡ false
    → timer_done_p (m t) ≡ false
    → count t xs ≡ 0
    → Queued m b xs
    → Queued m b (insert_sorted m t xs)
unfolding insert_sorted
Queued-insert_sorted m t b [] low tick active out q = (low, tick, active, refl, tt)
Queued-insert_sorted m t b (x ∷ xs) low tick active out (l, xtick, xactive, xonce, rest) =
    elim (Bool-cases (leb (m t).time (m x).time)) [
      | inl hit ↦ rw hit (low, tick, active, out, (leb→le _ _ hit, xtick, xactive, xonce, rest))
      | inr miss ↦
          let (ne, out_rest) = count_out t x xs out in
          let below : (m x).time ≤ (m t).time = omega (arith, leb_false→lt _ _ miss) in
          let counted : count x (insert_sorted m t xs) ≡ 0 =
            let other : (x == t) ≡ false = ne→==_false x t (λ e. ne (sym e)) in
            count-insert_sorted m t x xs ∙ rw other (omega (arith, xonce)) in
          rw miss (
            l,
            xtick,
            xactive,
            counted,
            Queued-insert_sorted m t (m x).time xs below tick active out_rest rest,
          )
    ]

pub due-insert_sorted :
    (m : ℕ → Timer) (t now : ℕ) (xs : List ℕ)
    → now < (m t).time
    → due m now (insert_sorted m t xs) ≡ due m now xs
unfolding insert_sorted
due-insert_sorted m t now [] later =
    let late : leb (m t).time now ≡ false = ground arith in rw late refl
due-insert_sorted m t now (x ∷ xs) later =
    let late : leb (m t).time now ≡ false = ground arith in
    elim (Bool-cases (leb (m t).time (m x).time)) [
      | inl hit ↦
          let x_late : leb (m x).time now ≡ false = ground (arith, leb→le _ _ hit) in
          rw (hit, late, x_late) refl
      | inr miss ↦ rw (miss, due-insert_sorted m t now xs later) refl
    ]

pub Queued-remove :
    (m : ℕ → Timer) (t b : ℕ) (xs : List ℕ)
    → Queued m b xs
    → Queued m b (remove t xs) × (count t (remove t xs) ≡ 0)
Queued-remove m t b [] q = (tt, refl)
Queued-remove m t b (x ∷ xs) (l, tick, active, once, rest) = elim (Bool-cases (t == x)) [
  | inl hit ↦
      let e : t ≡ x = (==_iff t x).0 hit in
      rw hit (Queued-weaken m b (m x).time xs l rest, subst (λ y. count y xs ≡ 0) (sym e) once)
  | inr miss ↦
      let (below, gone) = Queued-remove m t (m x).time xs rest in
      let x_once : count x (remove t xs) ≡ 0 = omega (arith, once, count_le-remove t x xs) in
      rw miss ((l, tick, active, x_once, below), count_skip t x (remove t xs) miss ∙ gone)
]

pub Ticking-store :
    (m : ℕ → Timer) (t : ℕ) (v : Timer) (xs : List ℕ)
    → count t xs ≡ 0
    → Ticking m xs
    → Ticking (store m t v) xs
Ticking-store m t v [] out q = tt
Ticking-store m t v (x ∷ xs) out (tick, once, rest) =
    let (ne, out_rest) = count_out t x xs out in
    (
      subst (λ (y : Timer). timer_ontick_p y ≡ true) (sym (store_other m t x v ne)) tick,
      once,
      Ticking-store m t v xs out_rest rest,
    )

pub Ticking-append :
    (m : ℕ → Timer) (t : ℕ) (xs : List ℕ)
    → timer_ontick_p (m t) ≡ true
    → count t xs ≡ 0
    → Ticking m xs
    → Ticking m (xs ++ (t ∷ []))
Ticking-append m t [] tick out q = (tick, refl, tt)
Ticking-append m t (x ∷ xs) tick out (xtick, once, rest) =
    let (ne, out_rest) = count_out t x xs out in
    (
      xtick,
      count-append_other x t xs (λ e. ne (sym e)) ∙ once,
      Ticking-append m t xs tick out_rest rest,
    )

pub Ticking-remove :
    (m : ℕ → Timer) (t : ℕ) (xs : List ℕ)
    → Ticking m xs
    → Ticking m (remove t xs) × (count t (remove t xs) ≡ 0)
Ticking-remove m t [] q = (tt, refl)
Ticking-remove m t (x ∷ xs) (tick, once, rest) = elim (Bool-cases (t == x)) [
  | inl hit ↦
      let e : t ≡ x = (==_iff t x).0 hit in rw hit (rest, subst (λ y. count y xs ≡ 0) (sym e) once)
  | inr miss ↦
      let (below, gone) = Ticking-remove m t xs rest in
      let x_once : count x (remove t xs) ≡ 0 = omega (arith, once, count_le-remove t x xs) in
      rw miss ((tick, x_once, below), count_skip t x (remove t xs) miss ∙ gone)
]

-- A timer of one kind is in no list of the other.
pub Queued-out :
    (m : ℕ → Timer) (t b : ℕ) (xs : List ℕ)
    → timer_ontick_p (m t) ≡ true
    → Queued m b xs
    → count t xs ≡ 0
Queued-out m t b [] tick q = refl
Queued-out m t b (x ∷ xs) tick (l, xtick, active, once, rest) = elim (Bool-cases (t == x)) [
  | inl hit ↦
      let e : t ≡ x = (==_iff t x).0 hit in
      absurd (false≢true (sym xtick ∙ ap (λ y. timer_ontick_p (m y)) (sym e) ∙ tick))
  | inr miss ↦ count_skip t x xs miss ∙ Queued-out m t (m x).time xs tick rest
]

pub Ticking-out :
    (m : ℕ → Timer) (t : ℕ) (xs : List ℕ)
    → timer_ontick_p (m t) ≡ false
    → Ticking m xs
    → count t xs ≡ 0
Ticking-out m t [] tick q = refl
Ticking-out m t (x ∷ xs) tick (xtick, once, rest) = elim (Bool-cases (t == x)) [
  | inl hit ↦
      let e : t ≡ x = (==_iff t x).0 hit in
      absurd (false≢true (sym tick ∙ ap (λ y. timer_ontick_p (m y)) e ∙ xtick))
  | inr miss ↦ count_skip t x xs miss ∙ Ticking-out m t xs tick rest
]

-- A done timer is not queued.
pub Queued-out_done :
    (m : ℕ → Timer) (t b : ℕ) (xs : List ℕ)
    → timer_done_p (m t) ≡ true
    → Queued m b xs
    → count t xs ≡ 0
Queued-out_done m t b [] over q = refl
Queued-out_done m t b (x ∷ xs) over (l, xtick, active, once, rest) = elim (Bool-cases (t == x)) [
  | inl hit ↦
      let e : t ≡ x = (==_iff t x).0 hit in
      absurd (false≢true (sym active ∙ ap (λ y. timer_done_p (m y)) (sym e) ∙ over))
  | inr miss ↦ count_skip t x xs miss ∙ Queued-out_done m t (m x).time xs over rest
]
