-- ===== src/Rwlock/Inv.antt =====
-- The counters of the lock of kern/rwlock.c against the places of the threads, for one step.
use elos.Base.{
  ℕ, zero, suc, ◌+◌, ◌^◌, ◌≤◌, ◌<◌, ◌≡◌, refl, ap, true, false, not, ◌||◌, some, ◌==◌, arith,
  Bool-cases, inl, inr, ◌⊎◌, ne→==_false, ==_refl,
}
use elos.Phys.Sum.{sum_to, sum_to_change, le-sum_to}
use elos.Rwlock.{
  Rwlock, Place, outside, writing, reading, wr_waiting, rd_waiting, inc16, dec16, wr_test, rd_test,
  rwunlock, System, move,
}

abbrev pub is_writing : Place → ℕ
is_writing writing = 1
is_writing _ = 0

abbrev pub is_reading : Place → ℕ
is_reading reading = 1
is_reading _ = 0

abbrev pub is_wr_waiting : Place → ℕ
is_wr_waiting wr_waiting = 1
is_wr_waiting _ = 0

abbrev pub is_rd_waiting : Place → ℕ
is_rd_waiting rd_waiting = 1
is_rd_waiting _ = 0

unfoldable pub total : (n : ℕ) → (Place → ℕ) → (ℕ → Place) → ℕ
total n c place = sum_to n (λ j. c (place j))

pub record Inv (n : ℕ) (s : System) : Type 0 where
  pub writers : total n is_writing s.place ≡ s.lock.wrlock
  pub readers : total n is_reading s.place ≡ s.lock.rdnum
  pub wr_sleepers : total n is_wr_waiting s.place ≡ s.lock.wrwait
  pub rd_sleepers : total n is_rd_waiting s.place ≡ s.lock.rdwait
  pub one : s.lock.wrlock ≤ 1
  pub apart : (s.lock.rdnum ≡ 0) ⊎ (s.lock.wrlock ≡ 0)
  pub same : s.lock.wrlock2 ≡ s.lock.wrlock

pub reading-le : (r : Place) → is_reading r ≤ 1
reading-le r = ground arith

pub wr_waiting-le : (r : Place) → is_wr_waiting r ≤ 1
wr_waiting-le r = ground arith

pub rd_waiting-le : (r : Place) → is_rd_waiting r ≤ 1
rd_waiting-le r = ground arith

pub total-le :
    (n : ℕ) (c : Place → ℕ) (place : ℕ → Place) → ((p : Place) → c p ≤ 1) → total n c place ≤ n
unfolding total sum_to
total-le zero c place h = omega arith
total-le (suc n) c place h = omega (arith, total-le n c place h, h (place n))

pub total-zero : (n : ℕ) (c : Place → ℕ) → c outside ≡ 0 → total n c (λ j. outside) ≡ 0
unfolding total sum_to
total-zero zero c h = refl
total-zero (suc n) c h = omega (arith, total-zero n c h, h)

total-move :
    (n : ℕ) (c : Place → ℕ) (s : System) (i : ℕ) (l : Rwlock) (p q : Place)
    → i < n
    → s.place i ≡ p
    → total n c (move s i (l, q)).place + c p ≡ total n c s.place + c q
unfolding total
total-move n c s i l p q lt at =
    let h =
      sum_to_change n i (λ j. c ((move s i (l, q)).place j)) (λ j. c (s.place j)) lt
        (λ j ne. let miss : (i == j) ≡ false = ne→==_false i j ne in rw miss refl) in
    let here : c ((move s i (l, q)).place i) ≡ c q =
      let hit : (i == i) ≡ true = ==_refl i in rw hit refl in
    omega (arith, h, here, ap c at)

module _ (n : ℕ) (s : System) (inv : Inv n s) (small : n < 2 ^ 16) (i : ℕ) (lt : i < n) where
  -- A thread goes from `p` to `q`, and the counters follow.
  moved :
      (l : Rwlock) (p q : Place)
      → s.place i ≡ p
      → l.wrlock + is_writing p ≡ s.lock.wrlock + is_writing q
      → l.rdnum + is_reading p ≡ s.lock.rdnum + is_reading q
      → l.wrwait + is_wr_waiting p ≡ s.lock.wrwait + is_wr_waiting q
      → l.rdwait + is_rd_waiting p ≡ s.lock.rdwait + is_rd_waiting q
      → l.wrlock ≤ 1
      → ((l.rdnum ≡ 0) ⊎ (l.wrlock ≡ 0))
      → l.wrlock2 ≡ l.wrlock
      → Inv n (move s i (l, q))
  moved l p q at a b c d one apart same = record {
    writers = omega (arith, total-move n is_writing s i l p q lt at, inv.writers, a);
    readers = omega (arith, total-move n is_reading s i l p q lt at, inv.readers, b);
    wr_sleepers = omega (arith, total-move n is_wr_waiting s i l p q lt at, inv.wr_sleepers, c);
    rd_sleepers = omega (arith, total-move n is_rd_waiting s i l p q lt at, inv.rd_sleepers, d);
    one = one;
    apart = apart;
    same = same;
  }

  -- a counter of the threads at one kind of place, one of which comes to it
  room :
      (c : Place → ℕ) (p q : Place) (k : ℕ)
      → ((r : Place) → c r ≤ 1)
      → s.place i ≡ p
      → total n c s.place ≡ k + c p
      → c q ≡ 1
      → inc16 k ≡ k + 1
  room c p q k le at e one = omega (
    arith,
    total-move n c s i s.lock p q lt at,
    total-le n c (move s i (s.lock, q)).place le,
    e,
    one,
    small,
  )

  pub wr_test-Inv :
      (p : Place) (w : ℕ)
      → s.place i ≡ p
      → is_writing p + is_reading p + is_rd_waiting p ≡ 0
      → w + is_wr_waiting p ≡ s.lock.wrwait
      → Inv n (move s i (wr_test (record s.lock { wrwait = w })))
  unfolding wr_test
  wr_test-Inv p w at other e =
      elim (Bool-cases (not (s.lock.rdnum == 0) || not (s.lock.wrlock == 0))) [
        | inl busy ↦
            let next =
              room is_wr_waiting p wr_waiting w wr_waiting-le at (omega (arith, inv.wr_sleepers, e))
                refl in
            rw busy (
              moved (record s.lock { wrwait = inc16 w }) p wr_waiting at (omega (arith, other))
                (omega (arith, other)) (omega (arith, next, e)) (omega (arith, other)) inv.one
                inv.apart inv.same)
        | inr free ↦
            let none_reads : s.lock.rdnum ≡ 0 = ground arith in
            let none_writes : s.lock.wrlock ≡ 0 = ground arith in
            rw free (
              moved (record s.lock { wrwait = w; wrlock = 1; wrlock2 = 1 }) p writing at
                (omega (arith, other, none_writes)) (omega (arith, other)) (omega (arith, e))
                (omega (arith, other)) (omega arith) (inl none_reads) refl)
      ]

  pub rd_test-Inv :
      (p : Place) (w : ℕ)
      → s.place i ≡ p
      → is_writing p + is_reading p + is_wr_waiting p ≡ 0
      → w + is_rd_waiting p ≡ s.lock.rdwait
      → Inv n (move s i (rd_test (record s.lock { rdwait = w })))
  unfolding rd_test
  rd_test-Inv p w at other e =
      elim (Bool-cases (not (s.lock.wrlock == 0) || not (s.lock.wrwait == 0))) [
        | inl busy ↦
            let next =
              room is_rd_waiting p rd_waiting w rd_waiting-le at (omega (arith, inv.rd_sleepers, e))
                refl in
            rw busy (
              moved (record s.lock { rdwait = inc16 w }) p rd_waiting at (omega (arith, other))
                (omega (arith, other)) (omega (arith, other)) (omega (arith, next, e)) inv.one
                inv.apart inv.same)
        | inr free ↦
            let none_writes : s.lock.wrlock ≡ 0 = ground arith in
            let next =
              room is_reading p reading s.lock.rdnum reading-le at
                (omega (arith, inv.readers, other)) refl in
            rw free (
              moved (record s.lock { rdwait = w; rdnum = inc16 s.lock.rdnum }) p reading at
                (omega (arith, other)) (omega (arith, other, next)) (omega (arith, other))
                (omega (arith, e)) inv.one (inr none_writes) inv.same)
      ]

  pub counted : (c : Place → ℕ) (j : ℕ) → j < n → c (s.place j) ≤ total n c s.place
  unfolding total
  counted c j ltj = le-sum_to n j (λ k. c (s.place k)) ltj

  -- the lock of a writer, and of a reader
  pub writer-lock : s.place i ≡ writing → (s.lock.wrlock ≡ 1) × (s.lock.rdnum ≡ 0)
  writer-lock at =
      let held : s.lock.wrlock ≡ 1 =
        omega (arith, counted is_writing i lt, ap is_writing at, inv.writers, inv.one) in
      elim inv.apart [ inl z ↦ (held, z) | inr z ↦ absurd (omega (arith, held, z)) ]

  pub reader-lock : s.place i ≡ reading → 0 < s.lock.rdnum
  reader-lock at = omega (arith, counted is_reading i lt, ap is_reading at, inv.readers)

  pub unlock-writer :
      s.place i ≡ writing → rwunlock s.lock ≡ some (record s.lock { wrlock = 0; wrlock2 = 0 })
  unfolding rwunlock
  unlock-writer at =
      let (held, none_reads) = writer-lock at in
      let t1 : (s.lock.rdnum == 0) ≡ true = ground (arith, none_reads) in
      let t2 : (s.lock.wrlock == 0) ≡ false = ground (arith, held) in simp (t1, t2)

  pub unlock-reader :
      s.place i ≡ reading → rwunlock s.lock ≡ some (record s.lock { rdnum = dec16 s.lock.rdnum })
  unfolding rwunlock
  unlock-reader at =
      let some_read = reader-lock at in
      let t1 : (s.lock.rdnum == 0) ≡ false = ground (arith, some_read) in simp t1

  pub end_write-Inv :
      s.place i ≡ writing → Inv n (move s i (record s.lock { wrlock = 0; wrlock2 = 0 }, outside))
  end_write-Inv at =
      let (held, none_reads) = writer-lock at in
      moved (record s.lock { wrlock = 0; wrlock2 = 0 }) writing outside at (omega (arith, held))
        refl refl refl (omega arith) (inr refl) refl

  pub end_read-Inv :
      s.place i ≡ reading → Inv n (move s i (record s.lock { rdnum = dec16 s.lock.rdnum }, outside))
  end_read-Inv at =
      let some_read = reader-lock at in
      let few = total-le n is_reading s.place reading-le in
      let next : dec16 s.lock.rdnum + 1 ≡ s.lock.rdnum =
        omega (arith, some_read, few, inv.readers) in
      let no_writer : s.lock.wrlock ≡ 0 = elim inv.apart [
        | inl z ↦ absurd (omega (arith, z, some_read))
        | inr z ↦ z
      ] in
      moved (record s.lock { rdnum = dec16 s.lock.rdnum }) reading outside at refl
        (omega (arith, next)) refl refl inv.one (inr no_writer) inv.same
