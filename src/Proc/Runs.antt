-- ===== src/Proc/Runs.antt =====
-- kern/proc.c: any order of forks, stops, exits and waits, and what becomes of the children of a process that
-- exits.
use elos.Base.{
  ℕ, ◌<◌, ◌≡◌, refl, Bool, true, false, Option, none, some, [], ◌++◌, ◌==◌, inl, inr, Bool-cases,
  sym, ap, ◌∙◌, subst, count,
}
use elos.Proc.{
  Procs, set, init, proc_do_sigchld, proc_stop, proc_cont, fork_child, proc_exit, proc_exit_final,
  Options, Target, Scanned, reaps, reports, passes, scan_children, Round, found, echild, nothing,
  sleeps, panic, after_scan, wait_round,
}
use elos.Proc.Scan.{Alike, Looks, scan_children-Looks}
use elos.Proc.Steps.{Inv, SameTree, SameTree-Inv}
use elos.Proc.Fork.{fork_child-Inv}
use elos.Proc.Reach.{proc_reap-Inv, exit-Moved-Inv, proc_exit-Moved, proc_exit_final-Inv}

Alike-Inv : (s s' : Procs) → Alike s s' → Inv s → Inv s'
Alike-Inv s s' a i =
    SameTree-Inv s s'
      record {
        live = ap (λ (t : Procs). t.live) a;
        parent = ap (λ (t : Procs). t.parent) a;
        children = ap (λ (t : Procs). t.children) a;
        zombie = ap (λ (t : Procs). t.zombie) a;
        exiting = ap (λ (t : Procs). t.exiting) a;
      }
      i

-- the state that a round of `sys_wait4` leaves
abbrev pub left : Round → Option Procs
left (found c status s) = some s
left (echild s) = some s
left (nothing s) = some s
left (sleeps s) = some s
left panic = none

after_scan-Inv :
    (s : Procs) (o : Options) (p : ℕ) (r : Scanned)
    → Inv s
    → Looks s (s.children p) r
    → (s' : Procs) × (left (after_scan o p r) ≡ some s') × Inv s'
after_scan-Inv s o p (reaps c s1) i (a, dead, n) =
    let over : s1.exiting c ≡ true = ap (λ (t : Procs). t.exiting c) a ∙ i.ends c dead in
    let listed : 0 < count c (s1.children p) = rw (ap (λ (t : Procs). t.children p) a) n in
    let (s', run, i') = proc_reap-Inv s1 p c (Alike-Inv s s1 a i) over listed in
    (s', rw run refl, i')
after_scan-Inv s o p (reports c status s1) i a = (s1, refl, Alike-Inv s s1 a i)
after_scan-Inv s o p (passes n s1) i a =
    let i1 = Alike-Inv s s1 a i in
    elim (Bool-cases (n == 0)) [
      | inl e ↦ (s1, rw e refl, i1)
      | inr e ↦ elim (Bool-cases o.nohang) [
        | inl f ↦ (s1, rw (e, f) refl, i1)
        | inr f ↦ (s1, rw (e, f) refl, i1)
      ]
    ]

-- One operation.
pub data Step (s : Procs) : Procs → Type 0 where
  fork :
      (p c : ℕ)
      → s.live p ≡ true
      → s.exiting p ≡ false
      → s.live c ≡ false
      → Step s (fork_child p c s)
  stop : (p sig : ℕ) → Step s (proc_stop p sig s)
  cont : (p : ℕ) → Step s (proc_cont p s)
  reap_alone : (p : ℕ) (on : Bool) → Step s (record s { autoreap = set s.autoreap p on })
  leave_group : (p g : ℕ) → Step s (record s { pgrp = set s.pgrp p g })
  exit :
      (p status sig : ℕ) (after : Procs)
      → s.exiting p ≡ false
      → proc_exit p status sig s ≡ some after
      → Step s after
  final :
      (p : ℕ) (after : Procs)
      → s.live p ≡ true
      → (p == init) ≡ false
      → s.exiting p ≡ true
      → proc_exit_final p s ≡ some after
      → Step s after
  wait :
      (o : Options) (target : Target) (p : ℕ) (after : Procs)
      → left (wait_round o target p s) ≡ some after
      → Step s after

-- init alone
abbrev pub booted : Procs
booted = record {
  live = λ p. p == init;
  parent = λ p. 0;
  children = λ p. [];
  pgrp = λ p. 1;
  zombie = λ p. false;
  exiting = λ p. false;
  stopped = λ p. false;
  changed = λ p. false;
  autoreap = λ p. false;
  exit_code = λ p. 0;
  exit_sig = λ p. 0;
  stop_sig = λ p. 0;
  woken = [];
}

pub data Reach : Procs → Type 0 where
  boot : Reach booted
  later : {s t : Procs} → Reach s → Step s t → Reach t

some_inj : {a b : Procs} → ◌≡◌ {A = Option Procs} (some a) (some b) → a ≡ b
some_inj e = cc

stop-SameTree : (s : Procs) (p sig : ℕ) → SameTree s (proc_stop p sig s)
unfolding proc_stop proc_do_sigchld
stop-SameTree s p sig = elim (Bool-cases (s.stopped p)) [
  | inl e ↦
      rw e record { live = refl; parent = refl; children = refl; zombie = refl; exiting = refl }
  | inr e ↦
      rw e record { live = refl; parent = refl; children = refl; zombie = refl; exiting = refl }
]

cont-SameTree : (s : Procs) (p : ℕ) → SameTree s (proc_cont p s)
unfolding proc_cont proc_do_sigchld
cont-SameTree s p = elim (Bool-cases (s.stopped p)) [
  | inl e ↦
      rw e record { live = refl; parent = refl; children = refl; zombie = refl; exiting = refl }
  | inr e ↦
      rw e record { live = refl; parent = refl; children = refl; zombie = refl; exiting = refl }
]

Step-Inv : (s t : Procs) → Inv s → Step s t → Inv t
unfolding wait_round
Step-Inv s _ i (fork p c live runs fresh) = fork_child-Inv s p c i live runs fresh
Step-Inv s _ i (stop p sig) = SameTree-Inv s _ (stop-SameTree s p sig) i
Step-Inv s _ i (cont p) = SameTree-Inv s _ (cont-SameTree s p) i
Step-Inv s _ i (reap_alone p on) =
    SameTree-Inv s _
      record { live = refl; parent = refl; children = refl; zombie = refl; exiting = refl } i
Step-Inv s _ i (leave_group p g) =
    SameTree-Inv s _
      record { live = refl; parent = refl; children = refl; zombie = refl; exiting = refl } i
Step-Inv s t i (exit p status sig after runs e) =
    let (s1, m, below, same) = proc_exit-Moved s t p status sig i runs e in
    subst Inv (sym same) (exit-Moved-Inv s s1 p status sig i below m)
Step-Inv s t i (final p after live below over e) = proc_exit_final-Inv s t p i live below over e
Step-Inv s t i (wait o target p after e) =
    let (s', run, i') =
      after_scan-Inv s o p (scan_children o target p (s.children p) 0 s) i
        (scan_children-Looks o target p (s.children p) 0 s) in
    subst Inv (some_inj (sym run ∙ e)) i'

-- In every state that forks, stops, exits and waits reach from init alone, each process but init is once in the
-- list of children of its parent and in no other list, the parent is there, a process that has exited has no
-- children, a zombie has exited, and init is there and has not.
pub Reach-Inv : (s : Procs) → Reach s → Inv s
Reach-Inv _ boot = record {
  kids = λ c p. elim (Bool-cases (c == init)) [ inl e ↦ rw e refl | inr e ↦ rw e refl ];
  rooted = λ c live other. absurd (cc);
  childless = λ p e. refl;
  ends = λ c e. absurd (cc);
  init_live = refl;
  init_stays = refl;
}
Reach-Inv t (later {s} r step) = Step-Inv s t (Reach-Inv s r) step

-- In every such state `sys_wait4` fails no assertion: with the children it finds, it returns or sleeps.
pub wait_round-left :
    (s : Procs) (o : Options) (target : Target) (p : ℕ)
    → Reach s
    → (s' : Procs) × (left (wait_round o target p s) ≡ some s')
unfolding wait_round
wait_round-left s o target p r =
    let (s', run, i') =
      after_scan-Inv s o p (scan_children o target p (s.children p) 0 s) (Reach-Inv s r)
        (scan_children-Looks o target p (s.children p) 0 s) in
    (s', run)

-- In every such state a process that exits leaves all its children to init, behind those that init has and in
-- their order, and wakes nobody for them, even if they are zombies.
pub proc_exit-woken :
    (s s' : Procs) (p status sig : ℕ)
    → Reach s
    → s.exiting p ≡ false
    → proc_exit p status sig s ≡ some s'
    → (s'.children init ≡ s.children init ++ s.children p)
      × (s'.children p ≡ [])
      × (s'.zombie ≡ s.zombie)
      × (s'.woken ≡ s.woken)
proc_exit-woken s s' p status sig r runs e =
    let (s1, m, below, same) = proc_exit-Moved s s' p status sig (Reach-Inv s r) runs e in
    (
      ap (λ (t : Procs). t.children init) same ∙ m.joined,
      ap (λ (t : Procs). t.children p) same ∙ m.left,
      ap (λ (t : Procs). t.zombie) same ∙ m.zombie,
      ap (λ (t : Procs). t.woken) same ∙ m.woken,
    )
