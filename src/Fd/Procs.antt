-- ===== src/Fd/Procs.antt =====
-- The descriptor tables of vfs/proc.c at a fork, an exec and an exit.
use elos.Base.{
  ℕ, zero, suc, ◌+◌, ◌-◌, ◌%◌, ◌≤◌, ◌<◌, ◌≡◌, ◌≢◌, refl, ap, ◌∙◌, Bool, true, false, inl, inr, ◌&&◌,
  ◌||◌, not, arith, Bool-cases, ltb, leb, ◌==◌, if◌then◌else◌, some, ne→==_false, ℕ_discrete,
}
use elos.Phys.Sum.{sum_to}
use elos.Fd.{Files, Table, proc_files, flag_cloexec, fd_file, cloexec_bit, file_ref, file_unref}
use elos.Fd.{
  Ftype, is_dir, fork_loop, vfs_proc_fork, exec_entry, exec_loop, vfs_proc_exec, exit_loop,
  vfs_proc_exit,
}
use elos.Fd.Refs.{
  holds, count, Counted, Balanced, count-put, le-count, file_ref-ref, file_unref-ref,
  Balanced-trans, Balanced-Counted,
}

-- the sum over [i, i + n)
sum_from : (n i : ℕ) → (ℕ → ℕ) → ℕ
sum_from zero i g = 0
sum_from (suc n) i g = g i + sum_from n (suc i) g

sum_to-from : (n i : ℕ) (g : ℕ → ℕ) → sum_to (i + n) g ≡ sum_to i g + sum_from n i g
unfolding sum_from sum_to
sum_to-from zero i g = let sum : i + 0 ≡ i = omega arith in omega (arith, ap (λ m. sum_to m g) sum)
sum_to-from (suc n) i g =
    let sum : i + suc n ≡ suc i + n = omega arith in
    omega (arith, ap (λ m. sum_to m g) sum, sum_to-from n (suc i) g)

-- `vfs_proc_exec` closes an entry with this word
abbrev pub closes : (ℕ → Ftype) → (w : ℕ) → Bool
closes type w = not (w - w % 2 == 0) && (not (w % 2 == 0) || is_dir (type (w - w % 2)))

-- the table that exec leaves, as far as it concerns entries in [i, high)
abbrev pub swept : (ℕ → Ftype) → Table → (i high j : ℕ) → ℕ
swept type t i high j = if leb i j && ltb j high && closes type (t j) then 0 else t j

swept-step :
    (type : ℕ → Ftype) (t t' : Table) (n i j : ℕ)
    → t' j ≡ (if i == j && closes type (t i) then 0 else t j)
    → swept type t' (suc i) (suc i + n) j ≡ swept type t i (i + suc n) j
swept-step type t t' n i j e = elim (ℕ_discrete i j) [
  | yes here ↦
      let test : (leb (suc i) j && ltb j (suc i + n)) ≡ false = ground arith in
      let test' : (leb i j && ltb j (i + suc n)) ≡ true = ground arith in
      let same : (i == j) ≡ true = ground arith in
      let at : t' j ≡ (if closes type (t i) then 0 else t j) = e ∙ rw same refl in
      let word : t i ≡ t j = ap t here in rw (test, test') (rw word at at)
  | no ne ↦
      let miss : (i == j) ≡ false = ne→==_false _ _ ne in
      let at : t' j ≡ t j = e ∙ rw miss refl in
      let test : (leb (suc i) j && ltb j (suc i + n)) ≡ (leb i j && ltb j (i + suc n)) =
        ground arith in
      rw (test, at) refl
]

pub record Executed (i high : ℕ) (s s' : Files) : Type 0 where
  pub table : (j : ℕ) → s'.table j ≡ swept s.type s.table i high j
  pub type : s'.type ≡ s.type
  pub balance : Balanced s s'

module _ (s : Files) (i : ℕ) (small : i < proc_files) (counted : Counted s) where
  exec_entry-balance : Balanced s (exec_entry i s)
  unfolding exec_entry
  exec_entry-balance g =
      let f = suc g in
      elim (Bool-cases (closes s.type (s.table i))) [
        | inl hit ↦
            let zero_entry : (if 0 - 0 % 2 == f then suc 0 else 0) ≡ 0 = ground arith in
            rw hit (
              omega (
                arith,
                file_unref-ref (fd_file s.table i) f s,
                count-put f (file_unref (fd_file s.table i) s) i 0 small,
                le-count f s.table i small,
                counted g,
                zero_entry,
              ))
        | inr miss ↦ rw miss refl
      ]

  exec_entry-table :
      (j : ℕ)
      → (exec_entry i s).table j ≡ (if i == j && closes s.type (s.table i) then 0 else s.table j)
  unfolding exec_entry file_unref
  exec_entry-table j = elim (Bool-cases (closes s.type (s.table i))) [
    | inl hit ↦ simp hit (ground arith)
    | inr miss ↦ simp miss (ground arith)
  ]

  exec_entry-type : (exec_entry i s).type ≡ s.type
  unfolding exec_entry file_unref
  exec_entry-type = elim (Bool-cases (closes s.type (s.table i))) [
    | inl hit ↦ simp hit
    | inr miss ↦ simp miss
  ]

exec_loop-Executed :
    (n i : ℕ) (s : Files) → i + n ≤ proc_files → Counted s → Executed i (i + n) s (exec_loop n i s)
unfolding exec_loop
exec_loop-Executed zero i s le counted = record {
  table = λ j. ground arith;
  type = refl;
  balance = λ g. refl;
}
exec_loop-Executed (suc n) i s le counted =
    let small : i < proc_files = omega arith in
    let next = exec_entry i s in
    let b = exec_entry-balance s i small counted in
    let ty : next.type ≡ s.type = exec_entry-type s i small counted in
    let rest =
      exec_loop-Executed n (suc i) next (omega arith) (Balanced-Counted s next counted b) in
    record {
      table = λ j.
          rest.table j
          ∙ ap (λ k. swept k next.table (suc i) (suc i + n) j) ty
          ∙ swept-step s.type s.table next.table n i j (exec_entry-table s i small counted j);
      type = rest.type ∙ ty;
      balance = Balanced-trans s next (exec_loop n (suc i) next) b rest.balance;
    }

-- From a table whose entries are counted, `vfs_proc_exec` empties exactly the entries that carry
-- FLAG_CLOEXEC or hold a directory, leaves the others, and releases one reference for each.
pub vfs_proc_exec-Executed : (s : Files) → Counted s → Executed 0 proc_files s (vfs_proc_exec s)
unfolding vfs_proc_exec
vfs_proc_exec-Executed s counted = exec_loop-Executed proc_files 0 s (omega arith) counted

exit_loop-ref :
    (n i f : ℕ) (s : Files)
    → f ≢ 0
    → sum_from n i (holds f s.table) ≤ s.ref f
    → (exit_loop n i s).ref f + sum_from n i (holds f s.table) ≡ s.ref f
unfolding exit_loop sum_from file_unref
exit_loop-ref zero i f s ne le = omega arith
exit_loop-ref (suc n) i f s ne le = elim (Bool-cases (not (s.table i == 0))) [
  | inl used ↦
      let next = file_unref (fd_file s.table i) s in
      let at = file_unref-ref (fd_file s.table i) f s in
      rw (exit_loop, used)
        (omega (arith, exit_loop-ref n (suc i) f next ne (omega (arith, at)), at))
  | inr empty ↦
      let here : holds f s.table i ≡ 0 = ground arith in
      rw (exit_loop, empty)
        (omega (arith, here, exit_loop-ref n (suc i) f s ne (omega (arith, here))))
]

exit_loop-count :
    (n f : ℕ) (s : Files)
    → f ≢ 0
    → sum_to n (holds f s.table) ≤ s.ref f
    → (exit_loop n 0 s).ref f + sum_to n (holds f s.table) ≡ s.ref f
unfolding sum_to
exit_loop-count n f s ne le =
    let sum : 0 + n ≡ n = omega arith in
    let all = ap (λ m. sum_to m (holds f s.table)) sum in
    let split = sum_to-from n 0 (holds f s.table) in
    omega (arith, all, split, exit_loop-ref n 0 f s ne (omega (arith, all, split)))

-- From a table whose entries are counted, `vfs_proc_exit` releases as many references to each file
-- as the table has entries that hold it.
pub vfs_proc_exit-ref :
    (s : Files)
    → Counted s
    → (g : ℕ) → (vfs_proc_exit s).ref (suc g) + count (suc g) s.table ≡ s.ref (suc g)
unfolding vfs_proc_exit count
vfs_proc_exit-ref s counted g = exit_loop-count proc_files (suc g) s (ground arith) (counted g)

-- the table of the child, which was `dst` before the entries in [i, high) were copied
abbrev pub copied : (dst src : Table) → (i high j : ℕ) → ℕ
copied dst src i high j = if leb i j && ltb j high then src j else dst j

record Forked (n i : ℕ) (dst : Table) (s : Files) (dst' : Table) (s' : Files) : Type 0 where
  child : (j : ℕ) → dst' j ≡ copied dst s.table i (i + n) j
  parent : s'.table ≡ s.table
  refs : (f : ℕ) → f ≢ 0 → s'.ref f ≡ s.ref f + sum_from n i (holds f s.table)

fork_loop-Forked :
    (n i : ℕ) (dst : Table) (s : Files)
    → ((j : ℕ) → s.table j ≢ flag_cloexec)
    → (dst' : Table) × (s' : Files) × (fork_loop n i dst s ≡ some (dst', s'))
      × Forked n i dst s dst' s'
unfolding fork_loop sum_from file_ref
fork_loop-Forked zero i dst s good =
    (dst, s, refl, record { child = λ j. ground arith; parent = refl; refs = λ f ne. omega arith })
fork_loop-Forked (suc n) i dst s good =
    let dst1 : Table = λ j. if i == j then s.table i else dst j in
    let word = good i in
    let passes : ((fd_file s.table i == 0) && not (cloexec_bit s.table i == 0)) ≡ false =
      ground arith in
    elim (Bool-cases (not (fd_file s.table i == 0))) [
      | inl used ↦
          let (dst', s', run, rest) =
            fork_loop-Forked n (suc i) dst1 (file_ref (fd_file s.table i) s) good in
          (
            dst',
            s',
            rw (fork_loop, passes, used, run) refl,
            record {
              child = λ j. ground (arith, rest.child j);
              parent = rest.parent;
              refs = λ f ne. omega (arith, rest.refs f ne, file_ref-ref (fd_file s.table i) f s);
            },
          )
      | inr empty ↦
          let (dst', s', run, rest) = fork_loop-Forked n (suc i) dst1 s good in
          (
            dst',
            s',
            rw (fork_loop, passes, empty, run) refl,
            record {
              child = λ j. ground (arith, rest.child j);
              parent = rest.parent;
              refs = λ f ne.
                  let here : holds f s.table i ≡ 0 = ground arith in
                  omega (arith, here, rest.refs f ne);
            },
          )
    ]

from_start :
    (n f : ℕ) (s : Files)
    → s.ref f + sum_from n 0 (holds f s.table) ≡ s.ref f + sum_to n (holds f s.table)
unfolding sum_to
from_start n f s =
    let sum : 0 + n ≡ n = omega arith in
    omega (arith, ap (λ m. sum_to m (holds f s.table)) sum, sum_to-from n 0 (holds f s.table))

-- If no entry is the flag without a file, `vfs_proc_fork` succeeds: the child has the parent's
-- entries, flags included, and every file has one more reference for each of them.
pub vfs_proc_fork-refs :
    (dst : Table) (s : Files)
    → ((j : ℕ) → s.table j ≢ flag_cloexec)
    → (dst' : Table) × (s' : Files) × (vfs_proc_fork dst s ≡ some (dst', s'))
      × ((j : ℕ) → dst' j ≡ copied dst s.table 0 proc_files j)
      × (s'.table ≡ s.table)
      × ((g : ℕ) → s'.ref (suc g) ≡ s.ref (suc g) + count (suc g) s.table)
unfolding vfs_proc_fork count
vfs_proc_fork-refs dst s good =
    let (dst', s', run, h) = fork_loop-Forked proc_files 0 dst s good in
    (
      dst',
      s',
      run,
      h.child,
      h.parent,
      λ g. h.refs (suc g) (ground arith) ∙ from_start proc_files (suc g) s,
    )
