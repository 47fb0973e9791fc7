-- ===== src/Rwlock/Exclusion.antt =====
-- The lock of kern/rwlock.c over every interleaving of the threads.
use elos.Base.{
  ℕ, ◌+◌, ◌^◌, ◌≤◌, ◌<◌, ◌≡◌, ◌≢◌, refl, sym, ap, ◌∙◌, true, false, some, if◌then◌else◌, ◌==◌,
  arith, inl, inr, ◌⊎◌, ne→==_false, ==_refl, subst,
}
use elos.Phys.Sum.{sum_to, sum_to_change, le-sum_to}
use elos.Rwlock.{
  Rwlock, outside, writing, reading, wr_waiting, rd_waiting, rwlock_init, dec16, wrlock,
  wrlock_woken, rdlock, rdlock_woken, rwunlock, System, move, Step, write, write_again, read,
  read_again, end_write, end_read, Reach, start, later,
}
use elos.Rwlock.Inv.{
  is_writing, is_reading, is_wr_waiting, is_rd_waiting, total, total-le, total-zero, Inv,
  wr_waiting-le, rd_waiting-le, wr_test-Inv, rd_test-Inv, counted, writer-lock, reader-lock,
  unlock-writer, unlock-reader, end_write-Inv, end_read-Inv,
}

some_inj : {A : Type 0} {a b : A} → some a ≡ some b → a ≡ b
some_inj e = cc

Step-Inv : (n : ℕ) (s t : System) → n < 2 ^ 16 → Inv n s → Step n s t → Inv n t
unfolding wrlock wrlock_woken rdlock rdlock_woken
Step-Inv n s _ small inv (write i lt at) =
    wr_test-Inv n s inv small i lt outside s.lock.wrwait at refl (omega arith)
Step-Inv n s _ small inv (write_again i lt at) =
    let some_wait = counted n s inv small i lt is_wr_waiting i lt in
    let few = total-le n is_wr_waiting s.place wr_waiting-le in
    wr_test-Inv n s inv small i lt wr_waiting (dec16 s.lock.wrwait) at refl
      (omega (arith, some_wait, few, ap is_wr_waiting at, inv.wr_sleepers))
Step-Inv n s _ small inv (read i lt at) =
    rd_test-Inv n s inv small i lt outside s.lock.rdwait at refl (omega arith)
Step-Inv n s _ small inv (read_again i lt at) =
    let some_wait = counted n s inv small i lt is_rd_waiting i lt in
    let few = total-le n is_rd_waiting s.place rd_waiting-le in
    rd_test-Inv n s inv small i lt rd_waiting (dec16 s.lock.rdwait) at refl
      (omega (arith, some_wait, few, ap is_rd_waiting at, inv.rd_sleepers))
Step-Inv n s _ small inv (end_write i l lt at run) =
    let e = some_inj (sym run ∙ unlock-writer n s inv small i lt at) in
    subst (λ k. Inv n (move s i (k, outside))) (sym e) (end_write-Inv n s inv small i lt at)
Step-Inv n s _ small inv (end_read i l lt at run) =
    let e = some_inj (sym run ∙ unlock-reader n s inv small i lt at) in
    subst (λ k. Inv n (move s i (k, outside))) (sym e) (end_read-Inv n s inv small i lt at)

Reach-Inv : (n : ℕ) (s : System) → n < 2 ^ 16 → Reach n s → Inv n s
unfolding rwlock_init
Reach-Inv n _ small start = record {
  writers = total-zero n is_writing refl;
  readers = total-zero n is_reading refl;
  wr_sleepers = total-zero n is_wr_waiting refl;
  rd_sleepers = total-zero n is_rd_waiting refl;
  one = omega arith;
  apart = inl refl;
  same = refl;
}
Reach-Inv n t small (later {s} r step) = Step-Inv n s t small (Reach-Inv n s small r) step

two-sum_to : (n i j : ℕ) (g : ℕ → ℕ) → i < n → j < n → i ≢ j → g i + g j ≤ sum_to n g
two-sum_to n i j g li lj ne =
    let h : ℕ → ℕ = λ k. if i == k then 0 else g k in
    let change =
      sum_to_change n i g h li
        (λ k ik. let miss : (i == k) ≡ false = ne→==_false i k ik in rw miss refl) in
    let at_i : h i ≡ 0 = let hit : (i == i) ≡ true = ==_refl i in rw hit refl in
    let at_j : h j ≡ g j = let miss : (i == j) ≡ false = ne→==_false i j ne in rw miss refl in
    omega (arith, change, at_i, at_j, le-sum_to n j h lj)

-- Fewer than 2 ^ 16 threads call `wrlock`, `rdlock` and, when they hold the lock, `rwunlock`, in any
-- order. While one of them writes, no other writes or reads.
pub writer_alone :
    (n : ℕ) (s : System) (i j : ℕ)
    → n < 2 ^ 16
    → Reach n s
    → i < n
    → j < n
    → i ≢ j
    → s.place i ≡ writing
    → is_writing (s.place j) + is_reading (s.place j) ≡ 0
unfolding total
writer_alone n s i j small r li lj ne at =
    let inv = Reach-Inv n s small r in
    let (held, none_reads) = writer-lock n s inv small i li at in
    omega (
      arith,
      two-sum_to n i j (λ k. is_writing (s.place k)) li lj ne,
      ap is_writing at,
      inv.writers,
      held,
      counted n s inv small i li is_reading j lj,
      inv.readers,
      none_reads,
    )

-- In any such order, `rwunlock` of a thread that holds the lock passes its assertion, and the two flags
-- of the writer agree.
pub rwunlock_held :
    (n : ℕ) (s : System) (i : ℕ)
    → n < 2 ^ 16
    → Reach n s
    → i < n
    → ((s.place i ≡ writing) ⊎ (s.place i ≡ reading))
    → (l : Rwlock) × (rwunlock s.lock ≡ some l) × (l.wrlock2 ≡ l.wrlock) × (l.wrlock ≡ 0)
rwunlock_held n s i small r li (inl at) = (
  record s.lock { wrlock = 0; wrlock2 = 0 },
  unlock-writer n s (Reach-Inv n s small r) small i li at,
  refl,
  refl,
)
rwunlock_held n s i small r li (inr at) =
    let inv = Reach-Inv n s small r in
    let some_read = reader-lock n s inv small i li at in
    let no_writer : s.lock.wrlock ≡ 0 = elim inv.apart [
      | inl z ↦ absurd (omega (arith, z, some_read))
      | inr z ↦ z
    ] in
    (
      record s.lock { rdnum = dec16 s.lock.rdnum },
      unlock-reader n s inv small i li at,
      inv.same,
      no_writer,
    )
