-- ===== src/Rwlock/Tests.antt =====
-- kern/rwlock.c with two threads, of which the first writes and the second waits to read.
use elos.Base.{◌+◌, ◌≡◌, refl, arith}
use elos.Rwlock.{
  outside, writing, rwlock_init, wrlock, rdlock, System, move, write, read, Reach, start, later,
}
use elos.Rwlock.Inv.{is_writing, is_reading}
use elos.Rwlock.Exclusion.{writer_alone}

abbrev idle : System
idle = record { lock = rwlock_init; place = λ j. outside }

abbrev one_writes : System
one_writes = move idle 0 (wrlock rwlock_init)

abbrev one_waits : System
one_waits = move one_writes 1 (rdlock one_writes.lock)

one_waits-Reach : Reach 2 one_waits
unfolding wrlock
one_waits-Reach = later (later start (write 0 (omega arith) refl)) (read 1 (omega arith) refl)

first_writes : one_waits.place 0 ≡ writing
unfolding wrlock rwlock_init
first_writes = refl

writer_alone_example : is_writing (one_waits.place 1) + is_reading (one_waits.place 1) ≡ 0
writer_alone_example =
    writer_alone 2 one_waits 0 1 (omega arith) one_waits-Reach (omega arith) (omega arith)
      (omega arith) first_writes
