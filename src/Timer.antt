-- ===== src/Timer.antt =====
-- kern/timer.c: the timer queue of one processor. A timer is known by its address; `timers` is the
-- memory of them. The time that `nanouptime` returns is an argument, and the result of an interrupt
-- lists the timers whose callbacks were called. What a callback does is not modelled: it runs under
-- the lock of the queue and cannot change it. The event device is the command it was given last.
-- To remove a timer from a list that it is not in, which the source forbids, changes nothing.
pub mod Lists
pub mod Inv
pub mod Rounds
pub mod Interrupt
pub mod Steps
pub mod Remote
mod Tests
use elos.Base.{
  ℕ, zero, suc, ◌+◌, ◌-◌, ◌*◌, ◌/◌, ◌%◌, ◌^◌, Bool, true, false, ◌&&◌, ◌||◌, not, Option, none,
  some, List, [], ◌∷◌, ◌++◌, length, if◌then◌else◌, leb, ◌==◌, remove,
}

-- `timer_t`, without its callback
pub record Timer : Type 0 where
  pub flags : ℕ
  pub time : ℕ
  pub period : ℕ

-- the last of `evtimer_config` with EV_PERIODIC or EV_ONESHOT, and `evtimer_stop`
pub data Event : Type 0 where
  stopped : Event
  every : ℕ → Event
  once : ℕ → Event

-- `timerq_t` and the timers
pub record Timerq : Type 0 where
  pub timers : ℕ → Timer
  pub queue : List ℕ
  pub ontick : List ℕ
  pub bsp : Bool
  pub dev : Event

abbrev pub tick_period : ℕ
tick_period = 5 * 1000000

abbrev pub timer_periodic : ℕ
timer_periodic = 1

abbrev pub timer_ontick_flag : ℕ
timer_ontick_flag = 4

-- `flags & TIMER_PERIODIC`, `flags & TIMER_DONE` and `flags |= TIMER_DONE`
abbrev pub timer_periodic_p : Timer → Bool
timer_periodic_p t = t.flags % 2 == 1

abbrev pub timer_done_p : Timer → Bool
timer_done_p t = t.flags / 2 % 2 == 1

abbrev pub done : Timer → Timer
done t = if timer_done_p t then t else record t { flags = t.flags + 2 }

abbrev pub timer_ontick_p : Timer → Bool
timer_ontick_p t = t.flags / 4 % 2 == 1

abbrev pub store : (ℕ → Timer) → ℕ → Timer → ℕ → Timer
store m t v x = if t == x then v else m x

abbrev pub is_empty : List ℕ → Bool
is_empty [] = true
is_empty (x ∷ xs) = false

abbrev pub first_is : ℕ → List ℕ → Bool
first_is t [] = false
first_is t (x ∷ xs) = x == t

-- the loop of `timerq_insert` over the queue
unfoldable pub insert_sorted : (ℕ → Timer) → ℕ → List ℕ → List ℕ
insert_sorted m t [] = t ∷ []
insert_sorted m t (cur ∷ xs) =
    let rest = insert_sorted m t xs in
    if leb (m t).time (m cur).time then t ∷ cur ∷ xs else cur ∷ rest

unfoldable pub timerq_insert : Timerq → ℕ → Timerq
timerq_insert q t =
    if timer_ontick_p (q.timers t)
    then (let ticking = q.ontick ++ (t ∷ []) in
        if not q.bsp && (length ticking == 1)
        then record q { ontick = ticking; dev = every tick_period }
        else record q { ontick = ticking })
    else record q { queue = insert_sorted q.timers t q.queue }

abbrev pub next_event : (ℕ → Timer) → List ℕ → (curtime : ℕ) → Event
next_event m [] curtime = stopped
next_event m (first ∷ xs) curtime = once (((m first).time + 2 ^ 64 - curtime) % 2 ^ 64)

unfoldable pub timerq_reconf : Timerq → ℕ → Timerq
timerq_reconf q curtime =
    if q.bsp || not (length q.ontick == 0)
    then q
    else record q { dev = next_event q.timers q.queue curtime }

-- `init_timer`: the device is told to tick on the boot processor, else it stays as it was.
unfoldable pub init_timer : (ℕ → Timer) → (bsp : Bool) → Event → Timerq
init_timer m bsp dev = record {
  timers = m;
  queue = [];
  ontick = [];
  bsp = bsp;
  dev = if bsp then every tick_period else dev;
}

-- `timer_start` of timer `t`
unfoldable pub timer_start : Timerq → (t time flags curtime : ℕ) → Timerq
timer_start q t time flags curtime =
    let timer : Timer = record { flags = flags; time = (time + curtime) % 2 ^ 64; period = time } in
    let started = record q { timers = store q.timers t timer } in
    timerq_reconf (timerq_insert started t) curtime

unfoldable pub timer_ontick : Timerq → (t curtime : ℕ) → Timerq
timer_ontick q t curtime = timer_start q t tick_period (timer_periodic + timer_ontick_flag) curtime

-- `timer_stop`: the queue and the time that was left. `here` is whether the caller runs on the
-- queue's processor.
abbrev pub time_left : Timer → (curtime : ℕ) → ℕ
time_left t curtime = if leb t.time curtime then 0 else t.time - curtime

abbrev pub timer_unlink : Timerq → (t : ℕ) → Timerq × Bool
timer_unlink q t =
    if timer_ontick_p (q.timers t)
    then (let ticking = remove t q.ontick in (record q { ontick = ticking }, is_empty ticking))
    else if not (timer_done_p (q.timers t))
    then (
      record q { queue = remove t q.queue; timers = store q.timers t (done (q.timers t)) },
      first_is t q.queue,
    )
    else (q, false)

unfoldable pub timer_stop : Timerq → (here : Bool) → (t curtime : ℕ) → Timerq × ℕ
timer_stop q here t curtime =
    let (stopped_q, reconf) = timer_unlink q t in
    (
      if reconf && here then timerq_reconf stopped_q curtime else stopped_q,
      time_left (q.timers t) curtime,
    )

-- one round of the loop of `timer_intr`, after the callback of the first timer
unfoldable pub intr_round : Timerq → (t : ℕ) → (rest : List ℕ) → (curtime : ℕ) → Timerq
intr_round q t rest curtime =
    let timer = q.timers t in
    if timer_periodic_p timer
    then (let again : Timer = record timer { time = (curtime + timer.period) % 2 ^ 64 } in
        timerq_insert (record q { queue = rest; timers = store q.timers t again }) t)
    else record q { queue = rest; timers = store q.timers t (done timer) }

-- What the loop leaves: the queue, `reconf` and the timers that were called.
pub record Ran : Type 0 where
  pub after : Timerq
  pub reconf : Bool
  pub called : List ℕ

abbrev pub call_first : ℕ → Option Ran → Option Ran
call_first t none = none
call_first t (some r) = some (record r { reconf = true; called = t ∷ r.called })

-- the loop of `timer_intr` for at most `fuel` tests of its condition
unfoldable pub intr_loop : (fuel : ℕ) → Timerq → (curtime : ℕ) → Option Ran
unfolding intr_round
intr_loop zero q curtime = none
intr_loop (suc fuel) q curtime = elim q.queue [
  | [] ↦ some (record { after = q; reconf = false; called = [] })
  | t ∷ rest ↦
      let more = intr_loop fuel (intr_round q t rest curtime) curtime in
      if leb (q.timers t).time curtime
      then call_first t more
      else some (record { after = q; reconf = false; called = [] })
]

abbrev pub intr_end : (ticked : List ℕ) → (curtime : ℕ) → Option Ran → Option (Timerq × List ℕ)
intr_end ticked curtime none = none
intr_end ticked curtime (some r) =
    some (if r.reconf then timerq_reconf r.after curtime else r.after, ticked ++ r.called)

unfoldable pub timer_intr : (fuel : ℕ) → Timerq → (curtime : ℕ) → Option (Timerq × List ℕ)
timer_intr fuel q curtime = intr_end q.ontick curtime (intr_loop fuel q curtime)
