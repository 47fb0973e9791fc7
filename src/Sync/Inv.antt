-- ===== src/Sync/Inv.antt =====
-- How the word of a mutex, its count and its queue fit the places of the threads.
use elos.Base.{
  ℕ, suc, ◌+◌, ◌≤◌, ◌<◌, ◌≡◌, ◌≢◌, ◌⊎◌, inl, inr, refl, sym, ◌∙◌, ap, subst, true, false, List,
  if◌then◌else◌, ◌==◌, arith, count, ℕ_discrete, ne→==_false, ==_refl,
}
use elos.Phys.Sum.{sum_to, sum_to_change, le-sum_to}
use elos.Sync.{
  Sync, Pc, outside, failed, counted, listed, asleep, notified, back, holding, panicked, System,
  put, write,
}

abbrev pub is_holding : Pc → ℕ
is_holding holding = 1
is_holding _ = 0

-- counted in `waiting`
abbrev pub is_waiting : Pc → ℕ
is_waiting (counted _) = 1
is_waiting (listed _) = 1
is_waiting asleep = 1
is_waiting notified = 1
is_waiting back = 1
is_waiting _ = 0

abbrev pub is_queued : Pc → ℕ
is_queued (listed _) = 1
is_queued asleep = 1
is_queued _ = 0

abbrev pub is_asleep : Pc → ℕ
is_asleep asleep = 1
is_asleep _ = 0

-- in `__sync_acquire` or `sync_release` without sleeping, or holding the lock
abbrev pub is_active : Pc → ℕ
is_active outside = 0
is_active asleep = 0
is_active panicked = 0
is_active _ = 1

-- a thread that was seen is one, and nobody panicked
abbrev pub Sound : Pc → Type 0
Sound (failed l) = 0 < l
Sound (counted l) = 0 < l
Sound (listed l) = 0 < l
Sound panicked = ⊥
Sound _ = Unit

abbrev pub total : ℕ → (Pc → ℕ) → (ℕ → Pc) → ℕ
total n f pc = sum_to n (λ i. f (pc i))

pub record Inv (n : ℕ) (s : System) : Type 0 where
  pub holder : (i : ℕ) → is_holding (s.pc i) ≡ (if s.sync.thread == suc i then 1 else 0)
  pub owner : (s.sync.thread ≡ 0) ⊎ ((h : ℕ) × (s.sync.thread ≡ suc h) × (h < n))
  pub waiters : s.sync.waiting ≡ total n is_waiting s.pc
  pub queued : (i : ℕ) → count i s.queue ≡ is_queued (s.pc i)
  pub inside : (i : ℕ) → (i < n) ⊎ (s.pc i ≡ outside)
  pub sound : (i : ℕ) → Sound (s.pc i)
  pub progress : (total n is_asleep s.pc ≡ 0) ⊎ (1 ≤ total n is_active s.pc)

pub put_self : (f : ℕ → Pc) (i : ℕ) (p : Pc) → put f i p i ≡ p
put_self f i p = let hit : (i == i) ≡ true = ==_refl i in rw hit refl

pub put_other : (f : ℕ → Pc) (i j : ℕ) (p : Pc) → i ≢ j → put f i p j ≡ f j
put_other f i j p ne = let miss : (i == j) ≡ false = ne→==_false i j ne in rw miss refl

pub total-put :
    (n : ℕ) (g : Pc → ℕ) (f : ℕ → Pc) (i : ℕ) (p : Pc)
    → i < n
    → total n g f + g p ≡ total n g (put f i p) + g (f i)
total-put n g f i p l =
    let change =
      sum_to_change n i (λ k. g (f k)) (λ k. g (put f i p k)) l
        (λ j ne. ap g (sym (put_other f i j p ne))) in
    omega (arith, change, ap g (put_self f i p))

-- a property of all places after one changed
pub put_all :
    (P : ℕ → Pc → Type 0) (f : ℕ → Pc) (i : ℕ) (p : Pc)
    → ((j : ℕ) → i ≢ j → P j (f j))
    → P i p
    → (j : ℕ) → P j (put f i p j)
put_all P f i p others at j = elim (ℕ_discrete i j) [
  | yes e ↦ let hit : (i == j) ≡ true = rw e (==_refl j) in rw hit (subst (λ k. P k p) e at)
  | no ne ↦ let miss : (i == j) ≡ false = ne→==_false i j ne in rw miss (others j ne)
]

-- What a change of thread `i` to `p`, with the lock `sync` and the queue `queue`, has to bring along.
pub record Fits (n : ℕ) (s : System) (i : ℕ) (sync : Sync) (queue : List ℕ) (p : Pc) : Type 0 where
  pub holder : (j : ℕ) → is_holding (put s.pc i p j) ≡ (if sync.thread == suc j then 1 else 0)
  pub owner : (sync.thread ≡ 0) ⊎ ((h : ℕ) × (sync.thread ≡ suc h) × (h < n))
  pub waiters : sync.waiting + is_waiting (s.pc i) ≡ s.sync.waiting + is_waiting p
  pub queued : (j : ℕ) → count j queue ≡ is_queued (put s.pc i p j)
  pub sound : Sound p
  pub progress : (total n is_asleep (put s.pc i p) ≡ 0) ⊎ (1 ≤ total n is_active (put s.pc i p))

pub write-Inv :
    (n : ℕ) (s : System) (i : ℕ) (sync : Sync) (queue : List ℕ) (p : Pc)
    → Inv n s
    → i < n
    → Fits n s i sync queue p
    → Inv n (write s i sync queue p)
write-Inv n s i sync queue p inv l f = record {
  holder = f.holder;
  owner = f.owner;
  waiters = omega (arith, f.waiters, inv.waiters, total-put n is_waiting s.pc i p l);
  queued = f.queued;
  inside = put_all (λ j q. (j < n) ⊎ (q ≡ outside)) s.pc i p (λ j ne. inv.inside j) (inl l);
  sound = put_all (λ j q. Sound q) s.pc i p (λ j ne. inv.sound j) f.sound;
  progress = f.progress;
}

-- The word stays, and the thread holds the lock as before.
pub same_holder :
    (n : ℕ) (s : System) (i : ℕ) (p : Pc)
    → Inv n s
    → is_holding p ≡ is_holding (s.pc i)
    → (j : ℕ) → is_holding (put s.pc i p j) ≡ (if s.sync.thread == suc j then 1 else 0)
same_holder n s i p inv e =
    put_all (λ j q. is_holding q ≡ (if s.sync.thread == suc j then 1 else 0)) s.pc i p
      (λ j ne. inv.holder j) (e ∙ inv.holder i)

pub same_queue :
    (n : ℕ) (s : System) (i : ℕ) (p : Pc)
    → Inv n s
    → is_queued p ≡ is_queued (s.pc i)
    → (j : ℕ) → count j s.queue ≡ is_queued (put s.pc i p j)
same_queue n s i p inv e =
    put_all (λ j q. count j s.queue ≡ is_queued q) s.pc i p (λ j ne. inv.queued j)
      (inv.queued i ∙ sym e)

-- The thread is active after its step.
pub active_self :
    (n : ℕ) (s : System) (i : ℕ) (p : Pc)
    → i < n
    → is_active p ≡ suc 0
    → (total n is_asleep (put s.pc i p) ≡ 0) ⊎ (1 ≤ total n is_active (put s.pc i p))
active_self n s i p l e = inr (
    omega (
      arith,
      le-sum_to n i (λ k. is_active (put s.pc i p k)) l,
      ap is_active (put_self s.pc i p),
      e,
    ))

-- Another thread is active.
pub active_other :
    (n : ℕ) (s : System) (i j : ℕ) (p : Pc)
    → j < n
    → i ≢ j
    → is_active (s.pc j) ≡ suc 0
    → (total n is_asleep (put s.pc i p) ≡ 0) ⊎ (1 ≤ total n is_active (put s.pc i p))
active_other n s i j p l ne e = inr (
    omega (
      arith,
      le-sum_to n j (λ k. is_active (put s.pc i p k)) l,
      ap is_active (put_other s.pc i j p ne),
      e,
    ))
