-- ===== src/Sched/Queues.antt =====
-- kern/sched.c: the counter, the queues and their bits fit together, and no thread is lost.
use elos.Base.{
  ℕ, zero, suc, ◌+◌, ◌<◌, ◌≡◌, ◌≢◌, ◌⊎◌, inl, inr, refl, sym, ◌∙◌, ap, Bool, true, false, List, [],
  ◌∷◌, ◌++◌, if◌then◌else◌, ◌==◌, arith, count, length, length-append, Bool-cases, ℕ_discrete,
  ne→==_false, ==_refl,
}
use elos.Phys.Sum.{sum_to, sum_to_change}
use elos.Sched.{
  Prio, prio_intr, prio_io, prio_lock, prio_kernel, prio_input, prio_signal, prio_normal, Scheduler,
  put, enqueue, queue_index, scheduler_add_thread, ffs_from, occupied,
}

pub record Valid (s : Scheduler) : Type 0 where
  pub threads : s.nthread ≡ length s.runq_intr + sum_to 32 (λ i. length (s.runq i))
  pub bits : (i : ℕ) → s.not_empty i ≡ occupied (s.runq i)
  pub ptr : s.runq_ptr < 32

-- how often a thread is queued
abbrev pub queued : ℕ → Scheduler → ℕ
queued x s = count x s.runq_intr + sum_to 32 (λ i. count x (s.runq i))

pub put_self : {A : Type 0} (f : ℕ → A) (i : ℕ) (v : A) → put f i v i ≡ v
put_self f i v = let hit : (i == i) ≡ true = ==_refl i in rw hit refl

pub put_other : {A : Type 0} (f : ℕ → A) (i j : ℕ) (v : A) → i ≢ j → put f i v j ≡ f j
put_other f i j v ne = let miss : (i == j) ≡ false = ne→==_false i j ne in rw miss refl

-- a sum over the queues after one of them is replaced
pub put_sum :
    (g : List ℕ → ℕ) (runq : ℕ → List ℕ) (k : ℕ) (q : List ℕ)
    → k < 32
    → sum_to 32 (λ i. g (runq i)) + g q ≡ sum_to 32 (λ i. g (put runq k q i)) + g (runq k)
put_sum g runq k q l =
    let change =
      sum_to_change 32 k (λ i. g (runq i)) (λ i. g (put runq k q i)) l
        (λ j ne. ap g (sym (put_other runq k j q ne))) in
    omega (arith, change, ap g (put_self runq k q))

pub put_bits :
    (bits : ℕ → Bool) (runq : ℕ → List ℕ) (k : ℕ) (q : List ℕ) (b : Bool)
    → ((i : ℕ) → bits i ≡ occupied (runq i))
    → b ≡ occupied q
    → (i : ℕ) → put bits k b i ≡ occupied (put runq k q i)
put_bits bits runq k q b same e i = elim (ℕ_discrete k i) [
  | yes at ↦ let hit : (k == i) ≡ true = rw at (==_refl i) in rw hit e
  | no ne ↦ let miss : (k == i) ≡ false = ne→==_false k i ne in rw miss (same i)
]

-- `ffs` finds a bit that is set, or there is none.
more_false :
    (bits : ℕ → Bool) (i n : ℕ)
    → bits i ≡ false
    → ((j : ℕ) → j < n → bits (suc i + j) ≡ false)
    → (j : ℕ) → j < suc n
    → bits (i + j) ≡ false
more_false bits i n here rest zero l = let e : i + 0 ≡ i = omega arith in ap bits e ∙ here
more_false bits i n here rest (suc j) l =
    let e : i + suc j ≡ suc i + j = omega arith in ap bits e ∙ rest j (omega arith)

pub ffs_from-cases :
    (n : ℕ) (bits : ℕ → Bool) (i : ℕ)
    → ((ffs_from n bits i ≡ 0) × ((j : ℕ) → j < n → bits (i + j) ≡ false))
      ⊎ ((k : ℕ) × (ffs_from n bits i ≡ suc k) × (bits k ≡ true) × (k < i + n))
unfolding ffs_from
ffs_from-cases zero bits i = inl (refl, λ j l. absurd (omega arith))
ffs_from-cases (suc n) bits i = elim (Bool-cases (bits i)) [
  | inl hit ↦ inr (i, rw hit refl, hit, omega arith)
  | inr miss ↦ elim (ffs_from-cases n bits (suc i)) [
    | inl (e, rest) ↦ inl (rw miss e, more_false bits i n miss rest)
    | inr (k, e, at, l) ↦ inr (k, rw miss e, at, omega arith)
  ]
]

enqueue-Valid :
    (s : Scheduler) (k : ℕ) (q : List ℕ)
    → Valid s
    → k < 32
    → occupied q ≡ true
    → length q ≡ suc (length (s.runq k))
    → Valid (enqueue s k q)
enqueue-Valid s k q v l some_q more = record {
  threads = omega (arith, v.threads, put_sum length s.runq k q l, more);
  bits = put_bits s.not_empty s.runq k q true v.bits (sym some_q);
  ptr = v.ptr;
}

-- What queueing a thread makes of the queues.
pub record Queued (s : Scheduler) (t : ℕ) (after : Scheduler) : Type 0 where
  pub valid : Valid after
  pub counts : (x : ℕ) → queued x after ≡ (if x == t then 1 else 0) + queued x s
  pub size : after.nthread ≡ suc s.nthread

count-append_one :
    (x t : ℕ) (xs : List ℕ) → count x (xs ++ (t ∷ [])) ≡ (if x == t then 1 else 0) + count x xs
count-append_one x t [] = refl
count-append_one x t (y ∷ ys) = rw (count-append_one x t ys) (omega arith)

enqueue-Queued :
    (s : Scheduler) (k t : ℕ) (q : List ℕ)
    → Valid s
    → k < 32
    → occupied q ≡ true
    → length q ≡ suc (length (s.runq k))
    → ((x : ℕ) → count x q ≡ (if x == t then 1 else 0) + count x (s.runq k))
    → Queued s t (enqueue s k q)
enqueue-Queued s k t q v l some_q more counted = record {
  valid = enqueue-Valid s k q v l some_q more;
  counts = λ x. omega (arith, put_sum (count x) s.runq k q l, counted x);
  size = omega arith;
}

append_one-occupied : (xs : List ℕ) (t : ℕ) → occupied (xs ++ (t ∷ [])) ≡ true
append_one-occupied [] t = refl
append_one-occupied (x ∷ xs) t = refl

at_end-Queued :
    (s : Scheduler) (k t : ℕ) → Valid s → k < 32 → Queued s t (enqueue s k (s.runq k ++ (t ∷ [])))
at_end-Queued s k t v l =
    enqueue-Queued s k t (s.runq k ++ (t ∷ [])) v l (append_one-occupied (s.runq k) t)
      (omega (arith, length-append (s.runq k) (t ∷ []))) (λ x. count-append_one x t (s.runq k))

-- `scheduler_add_thread` with any priority keeps the counter, the queues and the bits of a scheduler in
-- step, and adds the thread to the queued ones and no other.
pub scheduler_add_thread-Queued :
    (s : Scheduler) (t : ℕ) (prio : Prio) → Valid s → Queued s t (scheduler_add_thread s t prio)
unfolding scheduler_add_thread
scheduler_add_thread-Queued s t prio_intr v = record {
  valid = record {
    threads = omega (arith, v.threads, length-append s.runq_intr (t ∷ []));
    bits = v.bits;
    ptr = v.ptr;
  };
  counts = λ x. omega (arith, count-append_one x t s.runq_intr);
  size = omega arith;
}
scheduler_add_thread-Queued s t prio_io v =
    enqueue-Queued s s.runq_ptr t (t ∷ s.runq s.runq_ptr) v v.ptr refl (omega arith) (λ x. refl)
scheduler_add_thread-Queued s t prio_lock v =
    at_end-Queued s (queue_index s prio_lock) t v (omega arith)
scheduler_add_thread-Queued s t prio_kernel v =
    at_end-Queued s (queue_index s prio_kernel) t v (omega arith)
scheduler_add_thread-Queued s t prio_input v =
    at_end-Queued s (queue_index s prio_input) t v (omega arith)
scheduler_add_thread-Queued s t prio_signal v =
    at_end-Queued s (queue_index s prio_signal) t v (omega arith)
scheduler_add_thread-Queued s t prio_normal v =
    at_end-Queued s (queue_index s prio_normal) t v (omega arith)
