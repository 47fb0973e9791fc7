-- ===== src/Proc.antt =====
-- kern/proc.c: the tree of processes, their end, and waiting for a child. A process is its number; `live`
-- says that its structure is allocated. The locks of the tree and of a process are held by each operation
-- over all that it reads and changes. Threads, sessions, the numbers that are freed, the address space and
-- the copy of the status to user memory are not modelled; `woken` lists the processes that got SIGCHLD and a
-- wake-up, the last one first. `none` stands for a failed assertion or a panic.
pub mod Tree
pub mod Steps
pub mod Fork
pub mod Scan
pub mod Reach
pub mod Runs
pub mod Waits
mod Tests
use elos.Base.{
  ℕ, zero, suc, ◌+◌, ◌*◌, ◌%◌, ◌^◌, Bool, true, false, ◌&&◌, ◌||◌, not, Option, none, some, List,
  [], ◌∷◌, ◌++◌, if◌then◌else◌, ◌==◌, remove,
}
use elos.Base.Errno.{Errno}

-- `proc_t`, by the number of the process
pub record Procs : Type 0 where
  pub live : ℕ → Bool
  pub parent : ℕ → ℕ
  pub children : ℕ → List ℕ
  pub pgrp : ℕ → ℕ
  pub zombie : ℕ → Bool
  pub exiting : ℕ → Bool
  pub stopped : ℕ → Bool
  pub changed : ℕ → Bool  -- PROC_STATUS
  pub autoreap : ℕ → Bool
  pub exit_code : ℕ → ℕ
  pub exit_sig : ℕ → ℕ
  pub stop_sig : ℕ → ℕ
  pub woken : List ℕ

abbrev pub set {ℓ} : {A : Type ℓ} → (ℕ → A) → ℕ → A → ℕ → A
set f p v i = if p == i then v else f i

-- `init_process`
abbrev pub init : ℕ
init = 1

-- `proc_do_sigchld`
unfoldable pub proc_do_sigchld : ℕ → Procs → Procs
proc_do_sigchld p s = record s { woken = s.parent p ∷ s.woken }

unfoldable pub proc_stop : (p sig : ℕ) → Procs → Procs
unfolding proc_do_sigchld
proc_stop p sig s =
    if not (s.stopped p)
    then proc_do_sigchld p record s {
      stopped = set s.stopped p true;
      changed = set s.changed p true;
      stop_sig = set s.stop_sig p sig;
    }
    else s

unfoldable pub proc_cont : (p : ℕ) → Procs → Procs
unfolding proc_do_sigchld
proc_cont p s =
    if s.stopped p
    then proc_do_sigchld p
        record s { stopped = set s.stopped p false; changed = set s.changed p true }
    else s

-- the end of `sys_fork`: the new process `c` is a child of `p` and in its group
unfoldable pub fork_child : (p c : ℕ) → Procs → Procs
fork_child p c s = record s {
  live = set s.live c true;
  parent = set s.parent c p;
  children = set (set s.children c []) p (s.children p ++ (c ∷ []));
  pgrp = set s.pgrp c (s.pgrp p);
  zombie = set s.zombie c false;
  exiting = set s.exiting c false;
  stopped = set s.stopped c false;
  changed = set s.changed c false;
  autoreap = set s.autoreap c false;
}

unfoldable pub proc_reparent : (c parent : ℕ) → Procs → Procs
proc_reparent c parent s =
    let without = set s.children (s.parent c) (remove c (s.children (s.parent c))) in
    record s {
      parent = set s.parent c parent;
      children = set without parent (without parent ++ (c ∷ []));
    }

-- the loop of `proc_exit` over the children
unfoldable pub reparent_all : List ℕ → Procs → Procs
reparent_all [] s = s
reparent_all (c ∷ cs) s = reparent_all cs (proc_reparent c init s)

-- `proc_exit` up to PROC_FREE
unfoldable pub proc_exit : (p status sig : ℕ) → Procs → Option Procs
unfolding reparent_all
proc_exit p status sig s =
    let s1 = reparent_all (s.children p) (record s { exiting = set s.exiting p true }) in
    if p == init
    then none
    else if s.exiting p
    then some s
    else some record s1 { exit_code = set s1.exit_code p status; exit_sig = set s1.exit_sig p sig }

-- `proc_reap` of a child of `parent`
unfoldable pub proc_reap : (parent child : ℕ) → Procs → Option Procs
proc_reap parent child s =
    if not (s.parent child == parent)
    then none
    else some record s {
      children = set s.children parent (remove child (s.children parent));
      live = set s.live child false;
    }

unfoldable pub proc_exit_final : (p : ℕ) → Procs → Option Procs
unfolding proc_do_sigchld proc_reap
proc_exit_final p s =
    if s.autoreap (s.parent p)
    then proc_reap (s.parent p) p s
    else some (proc_do_sigchld p (record s { zombie = set s.zombie p true }))

-- whom `wait4` waits for: pid < -1, pid = 0, pid > 0 and pid = -1
pub data Target : Type 0 where
  group : ℕ → Target
  own_group : Target
  one : ℕ → Target
  any : Target

abbrev pub matches : Target → (parent child : ℕ) → Procs → Bool
matches (group g) parent child s = s.pgrp child == g
matches own_group parent child s = s.pgrp child == s.pgrp parent
matches (one p) parent child s = child == p
matches any parent child s = true

-- -1, 1 and 0
pub data Reap : Type 0 where
  no_such running reapable : Reap

unfoldable pub proc_can_reap : Target → (parent child : ℕ) → Procs → Reap
proc_can_reap target parent child s =
    if not (matches target parent child s)
    then no_such
    else if s.zombie child
    then reapable
    else running

-- W_STOPCODE, W_CONTCODE and W_EXITCODE
abbrev pub w_stopcode : ℕ → ℕ
w_stopcode sig = sig * 256 + 127

abbrev pub w_contcode : ℕ
w_contcode = 65535

abbrev pub w_exitcode : (status sig : ℕ) → ℕ
w_exitcode status sig = status % 256 * 256 + sig % 128

-- The options WUNTRACED, WCONTINUED and WNOHANG.
pub record Options : Type 0 where
  pub untraced : Bool
  pub continued : Bool
  pub nohang : Bool

-- `status` after PROC_STATUS was taken, or 0
unfoldable pub take_status : Options → (c : ℕ) → Procs → ℕ × Procs
take_status o c s =
    let taken = record s { changed = set s.changed c false } in
    if not (o.untraced || o.continued)
    then (0, s)
    else if not (s.changed c)
    then (0, s)
    else if s.stopped c
    then (if o.untraced then w_stopcode (s.stop_sig c) else 0, taken)
    else (if o.continued then w_contcode else 0, taken)

-- How the scan ends: at a zombie, at a child that has changed, or behind the last child.
pub data Scanned : Type 0 where
  reaps : (child : ℕ) → Procs → Scanned
  reports : (child status : ℕ) → Procs → Scanned
  passes : (nfound : ℕ) → Procs → Scanned

-- one child, and the scan of the others
abbrev pub visit :
    Options → (c : ℕ) → Reap → (rest : ℕ → Procs → Scanned) → (nfound : ℕ) → Procs → Scanned
visit o c no_such rest n s = rest n s
visit o c reapable rest n s = reaps c s
visit o c running rest n s =
    let (status, s') = take_status o c s in
    if status == 0 then rest (suc n) s' else reports c status s'

unfoldable pub scan_children : Options → Target → (p : ℕ) → List ℕ → (nfound : ℕ) → Procs → Scanned
unfolding take_status proc_can_reap
scan_children o target p [] n s = passes n s
scan_children o target p (c ∷ cs) n s =
    visit o c (proc_can_reap target p c s) (scan_children o target p cs) n s

-- what one round of `sys_wait4` comes to
pub data Round : Type 0 where
  found : (child status : ℕ) → Procs → Round
  echild : Procs → Round
  nothing : Procs → Round
  sleeps : Procs → Round
  panic : Round

abbrev pub reaped : (child status : ℕ) → Option Procs → Round
reaped child status none = panic
reaped child status (some s) = found child status s

abbrev pub after_scan : Options → (p : ℕ) → Scanned → Round
after_scan o p (reaps c s) = reaped c (w_exitcode (s.exit_code c) (s.exit_sig c)) (proc_reap p c s)
after_scan o p (reports c status s) = found c status s
after_scan o p (passes n s) = if n == 0 then echild s else if o.nohang then nothing s else sleeps s

unfoldable pub wait_round : Options → Target → (p : ℕ) → Procs → Round
unfolding scan_children
wait_round o target p s = after_scan o p (scan_children o target p (s.children p) 0 s)

-- The end of a sleep: what the other processes did, and the error of `wait_sleep`.
pub record WaitEnd : Type 0 where
  pub others : Procs → Procs
  pub status : Option Errno

-- `sys_wait4` under a schedule of wake-ups; at its end the caller is still asleep
pub data Called : Type 0 where
  returned : Round → Called
  interrupted : Errno → Procs → Called

unfoldable pub sys_wait4 : List WaitEnd → Options → Target → (p : ℕ) → Procs → Called
unfolding wait_round
sys_wait4 [] o target p s = returned (wait_round o target p s)
sys_wait4 (w ∷ ws) o target p s = elim (wait_round o target p s) [
  | sleeps s' ↦ elim w.status [
    | none ↦ sys_wait4 ws o target p (w.others s')
    | some e ↦ interrupted e (w.others s')
  ]
  | other ↦ returned other
]
