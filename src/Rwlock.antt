-- ===== src/Rwlock.antt =====
-- kern/rwlock.c and kern/rwlock.h: the lock of many readers or one writer. The spin lock inside it makes
-- each stretch of code between `spin_lock` and `spin_unlock` one step. A thread that called
-- `kern_wait` may go on at any time, woken or not; what the wake-ups of `rwunlock` hit is not modelled.
pub mod Inv
pub mod Exclusion
mod Tests
use elos.Base.{
  ℕ, ◌+◌, ◌-◌, ◌%◌, ◌^◌, ◌<◌, ◌≡◌, Bool, ◌||◌, not, Option, none, some, if◌then◌else◌, ◌==◌,
}

-- `rwlock_t`, without its spin lock
pub record Rwlock : Type 0 where
  pub rdwait : ℕ
  pub wrwait : ℕ
  pub wrlock : ℕ
  pub rdnum : ℕ
  pub wrlock2 : ℕ

-- where a thread stands: outside, holding the lock, or in `kern_wait`
pub data Place : Type 0 where
  outside writing reading wr_waiting rd_waiting : Place

unfoldable pub rwlock_init : Rwlock
rwlock_init = record { rdwait = 0; wrwait = 0; wrlock = 0; rdnum = 0; wrlock2 = 0 }

abbrev pub inc16 : ℕ → ℕ
inc16 x = (x + 1) % 2 ^ 16

abbrev pub dec16 : ℕ → ℕ
dec16 x = (x + 2 ^ 16 - 1) % 2 ^ 16

-- the test of the loop of `wrlock`, up to its sleep or its end
unfoldable pub wr_test : Rwlock → Rwlock × Place
wr_test l =
    if not (l.rdnum == 0) || not (l.wrlock == 0)
    then (record l { wrwait = inc16 l.wrwait }, wr_waiting)
    else (record l { wrlock = 1; wrlock2 = 1 }, writing)

-- `wrlock` from its call, and after its `kern_wait`
unfoldable pub wrlock : Rwlock → Rwlock × Place
unfolding wr_test
wrlock l = wr_test l

unfoldable pub wrlock_woken : Rwlock → Rwlock × Place
unfolding wr_test
wrlock_woken l = wr_test (record l { wrwait = dec16 l.wrwait })

unfoldable pub rd_test : Rwlock → Rwlock × Place
rd_test l =
    if not (l.wrlock == 0) || not (l.wrwait == 0)
    then (record l { rdwait = inc16 l.rdwait }, rd_waiting)
    else (record l { rdnum = inc16 l.rdnum }, reading)

unfoldable pub rdlock : Rwlock → Rwlock × Place
unfolding rd_test
rdlock l = rd_test l

unfoldable pub rdlock_woken : Rwlock → Rwlock × Place
unfolding rd_test
rdlock_woken l = rd_test (record l { rdwait = dec16 l.rdwait })

-- `rwunlock`: the lock, or `none` for the failed assertion
unfoldable pub rwunlock : Rwlock → Option Rwlock
rwunlock l =
    if not (l.rdnum == 0)
    then some (record l { rdnum = dec16 l.rdnum })
    else if not (l.wrlock == 0)
    then some (record l { wrlock = 0; wrlock2 = 0 })
    else none

pub record System : Type 0 where
  pub lock : Rwlock
  pub place : ℕ → Place

abbrev pub move : System → ℕ → Rwlock × Place → System
move s i (l, p) = record { lock = l; place = λ j. if i == j then p else s.place j }

-- one step of one of `n` threads
pub data Step (n : ℕ) (s : System) : System → Type 0 where
  write : (i : ℕ) → i < n → s.place i ≡ outside → Step n s (move s i (wrlock s.lock))
  write_again : (i : ℕ) → i < n → s.place i ≡ wr_waiting → Step n s (move s i (wrlock_woken s.lock))
  read : (i : ℕ) → i < n → s.place i ≡ outside → Step n s (move s i (rdlock s.lock))
  read_again : (i : ℕ) → i < n → s.place i ≡ rd_waiting → Step n s (move s i (rdlock_woken s.lock))
  end_write :
      (i : ℕ) (l : Rwlock)
      → i < n
      → s.place i ≡ writing
      → rwunlock s.lock ≡ some l
      → Step n s (move s i (l, outside))
  end_read :
      (i : ℕ) (l : Rwlock)
      → i < n
      → s.place i ≡ reading
      → rwunlock s.lock ≡ some l
      → Step n s (move s i (l, outside))

pub data Reach (n : ℕ) : System → Type 0 where
  start : Reach n (record { lock = rwlock_init; place = λ j. outside })
  later : {s t : System} → Reach n s → Step n s t → Reach n t
