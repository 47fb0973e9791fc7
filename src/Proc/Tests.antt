-- ===== src/Proc/Tests.antt =====
-- kern/proc.c with init, its child and a grandchild that ends first.
use elos.Base.{◌≡◌, refl, true, false, some, [], ◌∷◌, ◌++◌}
use elos.Proc.{
  Procs, set, init, fork_child, proc_exit, proc_exit_final, proc_do_sigchld, proc_reparent,
  reparent_all, Options,
}
use elos.Proc.Steps.{Inv}
use elos.Proc.Runs.{Reach, booted, boot, later, fork, exit, final, Reach-Inv, proc_exit-woken}

abbrev family : Procs
family = fork_child 2 3 (fork_child 1 2 booted)

abbrev exited : Procs
exited = record family {
  exiting = set family.exiting 3 true;
  exit_code = set family.exit_code 3 7;
  exit_sig = set family.exit_sig 3 0;
}

abbrev undead : Procs
undead = record exited { zombie = set exited.zombie 3 true; woken = exited.parent 3 ∷ exited.woken }

undead-Reach : Reach undead
unfolding fork_child proc_exit reparent_all proc_exit_final proc_do_sigchld
undead-Reach =
    later
      (later (later (later boot (fork 1 2 refl refl refl)) (fork 2 3 refl refl refl))
        (exit 3 7 0 exited refl refl))
      (final 3 undead refl refl refl refl)

Reach-Inv_example : Inv undead
Reach-Inv_example = Reach-Inv undead undead-Reach

abbrev plain : Options
plain = record { untraced = false; continued = false; nohang = true }

abbrev orphaned : Procs
orphaned =
    let s =
      reparent_all (undead.children 2) (record undead { exiting = set undead.exiting 2 true }) in
    record s { exit_code = set s.exit_code 2 0; exit_sig = set s.exit_sig 2 0 }

parent_runs : undead.exiting 2 ≡ false
unfolding fork_child
parent_runs = refl

parent_exits : proc_exit 2 0 0 undead ≡ some orphaned
unfolding proc_exit fork_child
parent_exits = refl

proc_exit-woken_example :
    (orphaned.children init ≡ undead.children init ++ undead.children 2)
    × (orphaned.children 2 ≡ [])
    × (orphaned.zombie ≡ undead.zombie)
    × (orphaned.woken ≡ undead.woken)
proc_exit-woken_example =
    proc_exit-woken undead orphaned 2 0 0 undead-Reach parent_runs parent_exits

orphan_listed : orphaned.children init ≡ 2 ∷ 3 ∷ []
unfolding fork_child reparent_all proc_reparent
orphan_listed = refl
