-- ===== src/Sync/Mutex.antt =====
-- kern/sync.c over every interleaving of the threads.
use elos.Base.{
  ℕ, zero, suc, ◌+◌, ◌^◌, ◌≤◌, ◌<◌, ◌≡◌, ◌≢◌, ◌↔◌, inl, inr, refl, sym, ◌∙◌, ap, subst, true, false,
  List, [], ◌∷◌, ◌==◌, arith, count, remove, Bool-cases, ==_refl, ==_iff, dec_le,
}
use elos.Phys.Sum.{sum_to, le-sum_to}
use elos.Sync.{
  Pc, outside, trying, failed, counted, listed, asleep, notified, back, holding, released, waking,
  panicked, System, write, sync_init, kern_wait_compare, notice, kern_wake, Step, enter, try,
  trylock, inc, list, compare, go_back, dec, unlock, look, wake, Reach, start, later,
}
use elos.Sync.Inv.{
  is_holding, is_waiting, is_queued, is_asleep, is_active, Sound, total, Inv, put_other, write-Inv,
  same_holder, same_queue, active_other,
}
use elos.Sync.Steps.{
  plain-Inv, inc-Inv, dec-Inv, list-Inv, unlist-Inv, total_mono, is_asleep_le-queued,
}
use elos.Sync.Moves.{
  holding-active, notice-Noticed, one_le, try-Inv, trylock-Inv, unlock-Inv, calm-Inv, look-Inv,
}

module _ (n : ℕ) (s : System) (inv : Inv n s) (i : ℕ) (l : i < n) where
  -- A thread goes to sleep or away while another is active.
  leave-Inv :
      (j : ℕ) (p : Pc)
      → j < n
      → i ≢ j
      → is_active (s.pc j) ≡ suc 0
      → is_holding p ≡ is_holding (s.pc i)
      → is_waiting p ≡ is_waiting (s.pc i)
      → is_queued p ≡ is_queued (s.pc i)
      → Sound p
      → Inv n (write s i s.sync s.queue p)
  leave-Inv j p lj ne act h w q ok = write-Inv n s i s.sync s.queue p inv l record {
    holder = same_holder n s i p inv h;
    owner = inv.owner;
    waiters = omega (arith, w);
    queued = same_queue n s i p inv q;
    sound = ok;
    progress = active_other n s i j p lj ne act;
  }

  compare-Inv : (lock : ℕ) → s.pc i ≡ listed lock → Inv n (kern_wait_compare s i lock)
  unfolding kern_wait_compare
  compare-Inv lock at = elim (Bool-cases (s.sync.thread == lock)) [
    | inl same ↦
        let seen : 0 < lock = subst Sound at (inv.sound i) in
        let word = (==_iff s.sync.thread lock).0 same in
        rw same (elim inv.owner [
          | inl free ↦ absurd (omega (arith, seen, word, free))
          | inr (h, own, lh) ↦
              let hit : (s.sync.thread == suc h) ≡ true = ground (arith, own) in
              let holds : is_holding (s.pc h) ≡ suc 0 = inv.holder h ∙ rw hit refl in
              let ne : i ≢ h = λ e.
                absurd (omega (arith, holds, ap (λ k. is_holding (s.pc k)) e, ap is_holding at)) in
              leave-Inv h asleep lh ne (holding-active (s.pc h) holds) (sym (ap is_holding at))
                (sym (ap is_waiting at)) (sym (ap is_queued at)) tt
        ])
    | inr other ↦ rw other (
        unlist-Inv n s inv i l back (ap is_queued at) (sym (ap is_holding at))
          (sym (ap is_waiting at)) refl tt refl)
  ]

first_count : (x : ℕ) (q xs : List ℕ) → q ≡ x ∷ xs → 1 ≤ count x q
first_count x q xs e = let hit : (x == x) ≡ true = ==_refl x in rw (e, hit) (omega arith)

zero_sum : (n : ℕ) → sum_to n (λ k. 0) ≡ 0
unfolding sum_to
zero_sum zero = refl
zero_sum (suc n) = omega (arith, zero_sum n)

wake-Inv :
    (n : ℕ) (s : System) (inv : Inv n s) (i : ℕ) (l : i < n) (q : List ℕ)
    → s.queue ≡ q
    → s.pc i ≡ waking
    → Inv n (kern_wake s i q)
unfolding kern_wake
wake-Inv n s inv i l [] e at =
    let none_asleep : total n is_asleep s.pc ≤ sum_to n (λ k. 0) =
      total_mono n (λ k. is_asleep (s.pc k)) (λ k. 0)
        (λ k. omega (arith, is_asleep_le-queued (s.pc k), inv.queued k, ap (count k) e)) in
    calm-Inv n s inv i l (ap is_holding at) (ap is_waiting at) (ap is_queued at) (ap is_asleep at)
      (omega (arith, none_asleep, zero_sum n))
wake-Inv n s inv i l (x ∷ xs) e at =
    let waits : is_queued (s.pc x) ≡ suc 0 =
      one_le (s.pc x) (omega (arith, first_count x s.queue xs e, inv.queued x)) in
    let noticed = notice-Noticed (s.pc x) waits in
    let lx : x < n = elim (inv.inside x) [
      | inl lt ↦ lt
      | inr out ↦ absurd (omega (arith, waits, ap is_queued out))
    ] in
    let ne : x ≢ i =
      λ same. absurd (omega (arith, waits, ap (λ k. is_queued (s.pc k)) same, ap is_queued at)) in
    let s₁ = write s x s.sync (remove x s.queue) (notice (s.pc x)) in
    let inv₁ =
      unlist-Inv n s inv x lx (notice (s.pc x)) waits noticed.holder noticed.waiter noticed.left
        noticed.sound noticed.active in
    let at₁ : s₁.pc i ≡ waking = put_other s.pc x i (notice (s.pc x)) ne ∙ at in
    let act : is_active (s₁.pc x) ≡ suc 0 =
      (let hit : (x == x) ≡ true = ==_refl x in rw hit noticed.active) in
    leave-Inv n s₁ inv₁ i l x outside lx (λ same. ne (sym same)) act (sym (ap is_holding at₁))
      (sym (ap is_waiting at₁)) (sym (ap is_queued at₁)) tt

Step-Inv : (n : ℕ) (s t : System) → n < 2 ^ 16 → Inv n s → Step n s t → Inv n t
Step-Inv n s _ small inv (enter i l at) =
    plain-Inv n s inv i l trying (sym (ap is_holding at)) (sym (ap is_waiting at))
      (sym (ap is_queued at)) tt refl
Step-Inv n s _ small inv (try i l at) = try-Inv n s inv i l at
Step-Inv n s _ small inv (trylock i l at) = trylock-Inv n s inv i l at
Step-Inv n s _ small inv (inc i lock l at) = inc-Inv n s inv i l lock small at
Step-Inv n s _ small inv (list i lock l at) = list-Inv n s inv i l lock at
Step-Inv n s _ small inv (compare i lock l at) = compare-Inv n s inv i l lock at
Step-Inv n s _ small inv (go_back i l at) =
    plain-Inv n s inv i l back (sym (ap is_holding at)) (sym (ap is_waiting at))
      (sym (ap is_queued at)) tt refl
Step-Inv n s _ small inv (dec i l at) = dec-Inv n s inv i l small at
Step-Inv n s _ small inv (unlock i l at) = unlock-Inv n s inv i l at
Step-Inv n s _ small inv (look i l at) = look-Inv n s inv i l at
Step-Inv n s _ small inv (wake i l at) = wake-Inv n s inv i l s.queue refl at

zero_total : (n : ℕ) (g : Pc → ℕ) → g outside ≡ 0 → total n g (λ i. outside) ≡ 0
unfolding sum_to
zero_total zero g z = refl
zero_total (suc n) g z = omega (arith, zero_total n g z, z)

Reach-Inv : (n : ℕ) (s : System) → n < 2 ^ 16 → Reach n s → Inv n s
unfolding sync_init
Reach-Inv n _ small start = record {
  holder = λ i. let free : (0 == suc i) ≡ false = ground arith in rw free refl;
  owner = inl refl;
  waiters = sym (zero_total n is_waiting refl);
  queued = λ i. refl;
  inside = λ i. inr refl;
  sound = λ i. tt;
  progress = inl (zero_total n is_asleep refl);
}
Reach-Inv n t small (later {s} r step) = Step-Inv n s t small (Reach-Inv n s small r) step

Sound-calm : (p : Pc) → Sound p → p ≢ panicked
Sound-calm p ok e = subst Sound e ok

held-holding : (p : Pc) → is_holding p ≡ 1 → p ≡ holding
held-holding holding e = refl
held-holding outside e = absurd (omega (arith, e))
held-holding trying e = absurd (omega (arith, e))
held-holding (failed l) e = absurd (omega (arith, e))
held-holding (counted l) e = absurd (omega (arith, e))
held-holding (listed l) e = absurd (omega (arith, e))
held-holding asleep e = absurd (omega (arith, e))
held-holding notified e = absurd (omega (arith, e))
held-holding back e = absurd (omega (arith, e))
held-holding released e = absurd (omega (arith, e))
held-holding waking e = absurd (omega (arith, e))
held-holding panicked e = absurd (omega (arith, e))

named : (n : ℕ) (s : System) (i : ℕ) → Inv n s → (s.pc i ≡ holding) ↔ (s.sync.thread ≡ suc i)
named n s i inv = (
  λ at. let held = ap is_holding at in ground (arith, inv.holder i, held),
  λ e.
      let hit : (s.sync.thread == suc i) ≡ true = rw e (==_refl (suc i)) in
      held-holding (s.pc i) (inv.holder i ∙ rw hit refl),
)

-- Fewer than 2 ^ 16 threads acquire, try and release a mutex in any order. Two different threads never
-- hold it at once, a thread holds it exactly if its word names that thread, and no thread ever fails the
-- check for a double lock or the one for an unlock without a lock, whether the mutex is held or free.
pub holding-exclusive :
    (n : ℕ) (s : System) (i j : ℕ)
    → n < 2 ^ 16
    → Reach n s
    → i ≢ j
    → (is_holding (s.pc i) + is_holding (s.pc j) ≤ 1)
      × ((s.pc i ≡ holding) ↔ (s.sync.thread ≡ suc i))
      × (s.pc i ≢ panicked)
holding-exclusive n s i j small r ne =
    let inv = Reach-Inv n s small r in
    (
      ground (arith, inv.holder i, inv.holder j, ne),
      named n s i inv,
      Sound-calm (s.pc i) (inv.sound i),
    )

sum_to-positive : (n : ℕ) (g : ℕ → ℕ) → 1 ≤ sum_to n g → (j : ℕ) × (j < n) × (1 ≤ g j)
unfolding sum_to
sum_to-positive zero g h = absurd (omega (arith, h))
sum_to-positive (suc n) g h = elim (dec_le 1 (g n)) [
  | yes here ↦ (n, omega arith, here)
  | no not_here ↦
      let (j, l, pos) = sum_to-positive n g (omega (arith, h, not_here)) in
      (j, omega (arith, l), pos)
]

-- In any such order, while a thread sleeps on the mutex another holds it, is about to wake one, or runs in
-- one of the calls: the sleepers are never left alone.
pub asleep-active :
    (n : ℕ) (s : System) (i : ℕ)
    → n < 2 ^ 16
    → Reach n s
    → i < n
    → s.pc i ≡ asleep
    → (j : ℕ) × (j < n) × (1 ≤ is_active (s.pc j))
asleep-active n s i small r l at =
    let inv = Reach-Inv n s small r in
    elim inv.progress [
      | inl calm ↦
          absurd (omega (arith, calm, le-sum_to n i (λ k. is_asleep (s.pc k)) l, ap is_asleep at))
      | inr busy ↦ sum_to-positive n (λ k. is_active (s.pc k)) busy
    ]
