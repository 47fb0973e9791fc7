-- ===== src/Sync/Tests.antt =====
-- kern/sync.c with two threads, of which the first holds the lock and the second sleeps.
use elos.Base.{ℕ, suc, ◌+◌, ◌≤◌, ◌<◌, ◌≡◌, ◌≢◌, ◌↔◌, refl, [], ◌∷◌, arith}
use elos.Sync.{
  outside, holding, asleep, waking, listed, counted, trying, panicked, System, sync_init,
  try_acquire, inc_waiting, kern_wait_compare, write, enter, try, inc, list, compare, Reach, start,
  later, after_release,
}
use elos.Sync.Inv.{is_holding, is_active}
use elos.Sync.Mutex.{holding-exclusive, asleep-active}

abbrev idle : System
idle = record { sync = sync_init; queue = []; pc = λ i. outside }

abbrev first_tries : System
first_tries = write idle 0 sync_init [] trying

abbrev first_holds : System
first_holds = write first_tries 0 (try_acquire sync_init 0).0 [] (try_acquire sync_init 0).1

abbrev second_tries : System
second_tries = write first_holds 1 first_holds.sync [] trying

abbrev second_fails : System
second_fails =
    write second_tries 1 (try_acquire second_tries.sync 1).0 [] (try_acquire second_tries.sync 1).1

abbrev second_counts : System
second_counts = write second_fails 1 (inc_waiting second_fails.sync) [] (counted 1)

abbrev second_listed : System
second_listed = write second_counts 1 second_counts.sync (1 ∷ []) (listed 1)

abbrev second_sleeps : System
second_sleeps = kern_wait_compare second_listed 1 1

second_sleeps-Reach : Reach 2 second_sleeps
unfolding sync_init try_acquire inc_waiting
second_sleeps-Reach =
    later
      (later
        (later
          (later
            (later (later (later start (enter 0 (omega arith) refl)) (try 0 (omega arith) refl))
              (enter 1 (omega arith) refl))
            (try 1 (omega arith) refl))
          (inc 1 1 (omega arith) refl))
        (list 1 1 (omega arith) refl))
      (compare 1 1 (omega arith) refl)

first_still_holds : second_sleeps.pc 0 ≡ holding
unfolding sync_init try_acquire inc_waiting kern_wait_compare
first_still_holds = refl

second_asleep : second_sleeps.pc 1 ≡ asleep
unfolding sync_init try_acquire inc_waiting kern_wait_compare
second_asleep = refl

second_counted : after_release second_sleeps.sync ≡ waking
unfolding sync_init try_acquire inc_waiting kern_wait_compare after_release
second_counted = refl

holding-exclusive_example :
    (is_holding (second_sleeps.pc 0) + is_holding (second_sleeps.pc 1) ≤ 1)
    × ((second_sleeps.pc 0 ≡ holding) ↔ (second_sleeps.sync.thread ≡ suc 0))
    × (second_sleeps.pc 0 ≢ panicked)
holding-exclusive_example =
    holding-exclusive 2 second_sleeps 0 1 (omega arith) second_sleeps-Reach (omega arith)

asleep-active_example : (j : ℕ) × (j < 2) × (1 ≤ is_active (second_sleeps.pc j))
asleep-active_example =
    asleep-active 2 second_sleeps 1 (omega arith) second_sleeps-Reach (omega arith) second_asleep
