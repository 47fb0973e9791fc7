-- ===== src/Sched/Choose.antt =====
-- kern/sched.c: `sched_choose` on queues that fit together.
use elos.Base.{
  ℕ, zero, suc, ◌+◌, ◌-◌, ◌≤◌, ◌<◌, ◌≡◌, inl, inr, refl, sym, ◌∙◌, ap, Bool, true, false, ◌&&◌,
  List, [], ◌∷◌, if◌then◌else◌, ltb, ◌==◌, arith, count, length, Bool-cases, ltb→lt, ℕ_discrete,
  ne→==_false, ==_refl,
}
use mathlib.Core.Bool.{false≢true}
use elos.Phys.Sum.{sum_to}
use elos.Sched.{
  Scheduler, ThreadState, thread_running, is_exit, out, put, shift_right, runs, occupied, popped,
  pop_queue, next_queue, choose_queue, choose_from, sched_choose,
}
use elos.Sched.Queues.{Valid, queued, put_sum, put_bits, ffs_from-cases}

-- What taking a thread out makes of the queues.
pub record Taken (s : Scheduler) (t : ℕ) (after : Scheduler) : Type 0 where
  pub valid : Valid after
  pub counts : (x : ℕ) → (if x == t then 1 else 0) + queued x after ≡ queued x s
  pub size : suc after.nthread ≡ s.nthread

empty_sum : (n : ℕ) (g : ℕ → ℕ) → ((i : ℕ) → i < n → g i ≡ 0) → sum_to n g ≡ 0
unfolding sum_to
empty_sum zero g z = refl
empty_sum (suc n) g z = omega (arith, empty_sum n g (λ i l. z i (omega arith)), z n (omega arith))

not_occupied-length : (xs : List ℕ) → occupied xs ≡ false → length xs ≡ 0
not_occupied-length [] e = refl
not_occupied-length (x ∷ xs) e = absurd (false≢true (sym e))

and_both : (a b : Bool) → (a && b) ≡ true → (a ≡ true) × (b ≡ true)
and_both true b e = (refl, e)
and_both false b e = absurd (false≢true e)

at_start : (bits : ℕ → Bool) (i : ℕ) → bits (0 + i) ≡ false → bits i ≡ false
at_start bits i e = let same : 0 + i ≡ i = omega arith in ap bits (sym same) ∙ e

-- With a thread in a queue there is a bit that the search finds.
next_queue-found :
    (s : Scheduler) (n : ℕ)
    → Valid s
    → s.runq_intr ≡ []
    → s.nthread ≡ suc n
    → (k : ℕ) × (next_queue s ≡ suc k) × (k < 32) × (s.not_empty k ≡ true)
next_queue-found s n v calm some_thread =
    elim (ffs_from-cases 32 (shift_right s.not_empty s.runq_ptr) 0) [
      | inr (k, e, at, l) ↦
          let (inside, bit) =
            and_both (ltb (k + s.runq_ptr) 32) (s.not_empty (k + s.runq_ptr)) at in
          (
            k + s.runq_ptr,
            let nz : (suc k == 0) ≡ false = ground arith in rw (e, nz) (omega arith),
            ltb→lt _ _ inside,
            bit,
          )
      | inl (e, dark) ↦ elim (ffs_from-cases 32 s.not_empty 0) [
        | inr (k, e₁, at, l) ↦ (k, rw e e₁, omega (arith, l), at)
        | inl (e₁, all_dark) ↦
            let none_queued =
              empty_sum 32 (λ i. length (s.runq i))
                (λ i l.
                  not_occupied-length (s.runq i)
                    (sym (v.bits i) ∙ at_start s.not_empty i (all_dark i l))) in
            absurd (omega (arith, v.threads, none_queued, some_thread, ap length calm))
      ]
    ]

popped-occupied :
    (s : Scheduler) (k t : ℕ) (rest : List ℕ)
    → Valid s
    → s.runq k ≡ t ∷ rest
    → (i : ℕ) → (popped s k rest).not_empty i ≡ occupied (put s.runq k rest i)
popped-occupied s k t rest v e i = elim (Bool-cases (occupied rest)) [
  | inl more ↦ elim (ℕ_discrete k i) [
    | yes at ↦
        let hit : (k == i) ≡ true = rw at (==_refl i) in
        let bit : s.not_empty i ≡ true =
          v.bits i ∙ ap (λ j. occupied (s.runq j)) (sym at) ∙ ap occupied e in
        rw hit (rw more bit)
    | no ne ↦ let miss : (k == i) ≡ false = ne→==_false k i ne in rw (more, miss) (v.bits i)
  ]
  | inr last ↦
      let same = put_bits s.not_empty s.runq k rest false v.bits (sym last) i in rw last same
]

-- No queued thread has exited.
abbrev pub Alive : Scheduler → (state : ℕ → ThreadState) → Type 0
Alive s state = (x : ℕ) → 1 ≤ queued x s → is_exit (state x) ≡ false

-- The thread that was taken passes the assertion at the end, and runs.
out-runs :
    (s : Scheduler) (state : ℕ → ThreadState) (t : ℕ) (after : Scheduler)
    → Alive s state
    → Taken s t after
    → out state t after ≡ runs t after (put state t thread_running)
out-runs s state t after alive taken =
    let hit : (t == t) ≡ true = ==_refl t in
    let here : 1 ≤ queued t s = omega (arith, simp hit at (taken.counts t)) in
    let live = alive t here in rw live refl

popped-Taken :
    (s : Scheduler) (k t n : ℕ) (rest : List ℕ)
    → Valid s
    → s.nthread ≡ suc n
    → k < 32
    → s.runq k ≡ t ∷ rest
    → Taken s t (popped s k rest)
popped-Taken s k t n rest v some_thread l e = record {
  valid = record {
    threads = omega (arith, v.threads, put_sum length s.runq k rest l, ap length e, some_thread);
    bits = popped-occupied s k t rest v e;
    ptr = l;
  };
  counts = λ x. omega (arith, put_sum (count x) s.runq k rest l, ap (count x) e);
  size = omega (arith, some_thread);
}

occupied-first : (xs : List ℕ) → occupied xs ≡ true → (t : ℕ) × (rest : List ℕ) × (xs ≡ t ∷ rest)
occupied-first [] e = absurd (false≢true e)
occupied-first (t ∷ rest) e = (t, rest, refl)

choose_from-Taken :
    (s : Scheduler) (state : ℕ → ThreadState) (n : ℕ) (intr : List ℕ)
    → Valid s
    → Alive s state
    → s.nthread ≡ suc n
    → s.runq_intr ≡ intr
    → (t : ℕ) × (after : Scheduler) × (choose_from s state intr
        ≡ runs t after (put state t thread_running))
      × Taken s t after
choose_from-Taken s state n [] v alive some_thread e =
    let (k, found, l, bit) = next_queue-found s n v e some_thread in
    let (t, rest, at) = occupied-first (s.runq k) (sym (v.bits k) ∙ bit) in
    let taken = popped-Taken s k t n rest v some_thread l at in
    (
      t,
      popped s k rest,
      ap (choose_queue s state) found
          ∙ ap (pop_queue s state k) at
          ∙ out-runs s state t (popped s k rest) alive taken,
      taken,
    )
choose_from-Taken s state n (t ∷ rest) v alive some_thread e =
    let after : Scheduler = record s { nthread = s.nthread - 1; runq_intr = rest } in
    let taken : Taken s t after = record {
      valid = record {
        threads = omega (arith, v.threads, ap length e, some_thread);
        bits = v.bits;
        ptr = v.ptr;
      };
      counts = λ x. omega (arith, ap (count x) e);
      size = omega (arith, some_thread);
    } in
    (t, after, out-runs s state t after alive taken, taken)

-- On queues that fit together with at least one thread, of which none has exited, `sched_choose` fails
-- no assertion and chooses a queued thread, which is in the state THREAD_RUNNING after it as the only
-- one that changes; it takes that thread out once and no other, and the queues fit together after it.
pub sched_choose-Taken :
    (s : Scheduler) (state : ℕ → ThreadState) (n : ℕ)
    → Valid s
    → Alive s state
    → s.nthread ≡ suc n
    → (t : ℕ) × (after : Scheduler) × (sched_choose s state
        ≡ runs t after (put state t thread_running))
      × Taken s t after
unfolding sched_choose
sched_choose-Taken s state n v alive some_thread =
    let busy : (s.nthread == 0) ≡ false = ground (arith, some_thread) in
    let (t, after, run, taken) = choose_from-Taken s state n s.runq_intr v alive some_thread refl in
    (t, after, rw busy run, taken)
