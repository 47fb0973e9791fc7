-- ===== src/Sync/Moves.antt =====
-- Steps of kern/sync.c that take, leave or look at the lock.
use elos.Base.{
  ℕ, suc, ◌≤◌, ◌<◌, ◌≡◌, inl, inr, refl, sym, ◌∙◌, ap, true, false, if◌then◌else◌, ◌==◌, arith,
  Bool-cases, ==_refl, ==_iff, ==_false→ne,
}
use elos.Sync.{
  Pc, outside, trying, failed, counted, listed, asleep, notified, back, holding, released, waking,
  panicked, System, write, try_acquire, sync_trylock, release, after_release, notice,
}
use elos.Sync.Inv.{
  is_holding, is_waiting, is_queued, is_asleep, is_active, Sound, total, Inv, total-put, put_all,
  write-Inv, same_holder, same_queue, active_self,
}
use elos.Sync.Steps.{plain-Inv, total_mono, is_asleep_le-queued, queued_le-waiting}

pub holding-active : (p : Pc) → is_holding p ≡ suc 0 → is_active p ≡ suc 0
holding-active holding e = refl
holding-active outside e = absurd (omega (arith, e))
holding-active trying e = absurd (omega (arith, e))
holding-active (failed l) e = refl
holding-active (counted l) e = refl
holding-active (listed l) e = refl
holding-active asleep e = absurd (omega (arith, e))
holding-active notified e = refl
holding-active back e = refl
holding-active released e = refl
holding-active waking e = refl
holding-active panicked e = absurd (omega (arith, e))

-- What `kern_wake` makes of a thread in the queue.
pub record Noticed (p : Pc) : Type 0 where
  pub holder : is_holding (notice p) ≡ is_holding p
  pub waiter : is_waiting (notice p) ≡ is_waiting p
  pub left : is_queued (notice p) ≡ 0
  pub sound : Sound (notice p)
  pub active : is_active (notice p) ≡ suc 0

pub notice-Noticed : (p : Pc) → is_queued p ≡ suc 0 → Noticed p
notice-Noticed asleep e = record {
  holder = refl;
  waiter = refl;
  left = refl;
  sound = tt;
  active = refl;
}
notice-Noticed (listed l) e = record {
  holder = refl;
  waiter = refl;
  left = refl;
  sound = tt;
  active = refl;
}
notice-Noticed outside e = absurd (omega (arith, e))
notice-Noticed trying e = absurd (omega (arith, e))
notice-Noticed (failed l) e = absurd (omega (arith, e))
notice-Noticed (counted l) e = absurd (omega (arith, e))
notice-Noticed notified e = absurd (omega (arith, e))
notice-Noticed back e = absurd (omega (arith, e))
notice-Noticed holding e = absurd (omega (arith, e))
notice-Noticed released e = absurd (omega (arith, e))
notice-Noticed waking e = absurd (omega (arith, e))
notice-Noticed panicked e = absurd (omega (arith, e))

pub one_le : (p : Pc) → 1 ≤ is_queued p → is_queued p ≡ suc 0
one_le asleep e = refl
one_le (listed l) e = refl
one_le outside e = absurd (omega (arith, e))
one_le trying e = absurd (omega (arith, e))
one_le (failed l) e = absurd (omega (arith, e))
one_le (counted l) e = absurd (omega (arith, e))
one_le notified e = absurd (omega (arith, e))
one_le back e = absurd (omega (arith, e))
one_le holding e = absurd (omega (arith, e))
one_le released e = absurd (omega (arith, e))
one_le waking e = absurd (omega (arith, e))
one_le panicked e = absurd (omega (arith, e))

module _ (n : ℕ) (s : System) (inv : Inv n s) (i : ℕ) (l : i < n) where
  pub acquire-Inv :
      s.sync.thread ≡ 0
      → is_waiting (s.pc i) ≡ 0
      → is_queued (s.pc i) ≡ 0
      → Inv n (write s i (record s.sync { thread = suc i }) s.queue holding)
  acquire-Inv free w q = write-Inv n s i _ s.queue holding inv l record {
    holder =
        put_all (λ j p. is_holding p ≡ (if suc i == suc j then 1 else 0)) s.pc i holding
          (λ j ne.
            let miss : (suc i == suc j) ≡ false = ground (arith, ne) in
            let none_holds : (s.sync.thread == suc j) ≡ false = ground (arith, free) in
            let now = inv.holder j in rw miss (now ∙ rw none_holds refl))
          (let hit : (suc i == suc i) ≡ true = ==_refl (suc i) in rw hit refl);
    owner = inr (i, refl, l);
    waiters = omega (arith, w);
    queued = same_queue n s i holding inv (sym q);
    sound = tt;
    progress = active_self n s i holding l refl;
  }

  pub try-Inv :
      s.pc i ≡ trying → Inv n (write s i (try_acquire s.sync i).0 s.queue (try_acquire s.sync i).1)
  unfolding try_acquire
  try-Inv at = elim (Bool-cases (s.sync.thread == 0)) [
    | inl free ↦
        rw free (acquire-Inv ((==_iff s.sync.thread 0).0 free) (ap is_waiting at) (ap is_queued at))
    | inr taken ↦ elim (Bool-cases (s.sync.thread == suc i)) [
      | inl own ↦
          let bad : 0 ≡ suc 0 = sym (ap is_holding at) ∙ inv.holder i ∙ rw own refl in
          absurd (omega (arith, bad))
      | inr other ↦
          rw (taken, other)
            (plain-Inv n s inv i l (failed s.sync.thread) (sym (ap is_holding at))
              (sym (ap is_waiting at)) (sym (ap is_queued at))
              (ground (arith, ==_false→ne _ _ taken)) refl)
    ]
  ]

  -- a thread that stays where it is
  stay-Inv : s.pc i ≡ outside → Inv n (write s i s.sync s.queue outside)
  stay-Inv at = write-Inv n s i s.sync s.queue outside inv l record {
    holder = same_holder n s i outside inv (sym (ap is_holding at));
    owner = inv.owner;
    waiters = omega (arith, ap is_waiting at);
    queued = same_queue n s i outside inv (sym (ap is_queued at));
    sound = tt;
    progress = elim inv.progress [
      | inl calm ↦
          inl (omega (arith, calm, total-put n is_asleep s.pc i outside l, ap is_asleep at))
      | inr busy ↦
          inr (omega (arith, busy, total-put n is_active s.pc i outside l, ap is_active at))
    ];
  }

  pub trylock-Inv :
      s.pc i ≡ outside
      → Inv n (write s i (sync_trylock s.sync i).0 s.queue (sync_trylock s.sync i).1)
  unfolding sync_trylock
  trylock-Inv at = elim (Bool-cases (s.sync.thread == 0)) [
    | inl free ↦
        rw free (acquire-Inv ((==_iff s.sync.thread 0).0 free) (ap is_waiting at) (ap is_queued at))
    | inr taken ↦ rw taken (stay-Inv at)
  ]

  pub holder_thread : s.pc i ≡ holding → s.sync.thread ≡ suc i
  holder_thread at = elim (Bool-cases (s.sync.thread == suc i)) [
    | inl own ↦ (==_iff s.sync.thread (suc i)).0 own
    | inr other ↦
        let bad : suc 0 ≡ 0 = sym (ap is_holding at) ∙ inv.holder i ∙ rw other refl in
        absurd (omega (arith, bad))
  ]

  pub unlock-Inv :
      s.pc i ≡ holding → Inv n (write s i (release s.sync).0 s.queue (release s.sync).1)
  unfolding release
  unlock-Inv at =
      let own = holder_thread at in
      let held : (s.sync.thread == 0) ≡ false = ground (arith, own) in
      rw held (
        write-Inv n s i _ s.queue released inv l record {
          holder =
              put_all (λ j p. is_holding p ≡ (if 0 == suc j then 1 else 0)) s.pc i released
                (λ j ne.
                  let miss : (s.sync.thread == suc j) ≡ false = ground (arith, own, ne) in
                  let free : (0 == suc j) ≡ false = ground arith in
                  rw free (inv.holder j ∙ rw miss refl))
                (let free : (0 == suc i) ≡ false = ground arith in rw free refl);
          owner = inl refl;
          waiters = omega (arith, ap is_waiting at);
          queued = same_queue n s i released inv (sym (ap is_queued at));
          sound = tt;
          progress = active_self n s i released l refl;
        })

  -- A thread goes away, and none sleeps.
  pub calm-Inv :
      is_holding (s.pc i) ≡ 0
      → is_waiting (s.pc i) ≡ 0
      → is_queued (s.pc i) ≡ 0
      → is_asleep (s.pc i) ≡ 0
      → total n is_asleep s.pc ≡ 0
      → Inv n (write s i s.sync s.queue outside)
  calm-Inv h w q a calm = write-Inv n s i s.sync s.queue outside inv l record {
    holder = same_holder n s i outside inv (sym h);
    owner = inv.owner;
    waiters = omega (arith, w);
    queued = same_queue n s i outside inv (sym q);
    sound = tt;
    progress = inl (omega (arith, calm, total-put n is_asleep s.pc i outside l, a));
  }

  pub look-Inv : s.pc i ≡ released → Inv n (write s i s.sync s.queue (after_release s.sync))
  unfolding after_release
  look-Inv at = elim (Bool-cases (s.sync.waiting == 0)) [
    | inl alone ↦
        let nobody : s.sync.waiting ≡ 0 = (==_iff s.sync.waiting 0).0 alone in
        let less =
          total_mono n (λ k. is_asleep (s.pc k)) (λ k. is_waiting (s.pc k))
            (λ k. omega (arith, is_asleep_le-queued (s.pc k), queued_le-waiting (s.pc k))) in
        rw alone (
          calm-Inv (ap is_holding at) (ap is_waiting at) (ap is_queued at) (ap is_asleep at)
            (omega (arith, less, nobody, inv.waiters)))
    | inr more ↦ rw more (
        plain-Inv n s inv i l waking (sym (ap is_holding at)) (sym (ap is_waiting at))
          (sym (ap is_queued at)) tt refl)
  ]
