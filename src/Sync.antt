-- ===== src/Sync.antt =====
-- kern/sync.c: the mutex, with the part of kern/futex.c that it sleeps on. Thread `i` is the number `i + 1`
-- in the word of the lock, 0 for NULL. Each atomic access of the lock, and what is done under the lock
-- of the futex's queue, is one step; weaker orders of memory are not modelled. The priority of a thread
-- that holds a lock, and the spin lock, which goes back to its first step in place of waiting, are left out.
pub mod Inv
pub mod Steps
pub mod Moves
pub mod Mutex
mod Tests
use elos.Base.{
  ℕ, zero, suc, ◌+◌, ◌-◌, ◌%◌, ◌^◌, ◌<◌, ◌≡◌, Bool, true, false, List, [], ◌∷◌, ◌++◌, if◌then◌else◌,
  ◌==◌, remove,
}

-- `sync_t`
pub record Sync : Type 0 where
  pub thread : ℕ
  pub waiting : ℕ

-- Where a thread stands. In `__sync_acquire`: before the compare and exchange; after it failed, with
-- the thread that it saw; `waiting` counted up; in `kern_wait` on the queue, before it compares;
-- asleep; woken before it compared; back from `kern_wait`. Then holding the lock; and in
-- `sync_release`: after the exchange, and before `kern_wake`.
pub data Pc : Type 0 where
  outside trying : Pc
  failed counted listed : (lock : ℕ) → Pc
  asleep notified back : Pc
  holding released waking panicked : Pc

unfoldable pub sync_init : Sync
sync_init = record { thread = 0; waiting = 0 }

-- the test of the loop of `__sync_acquire`, and its check for a double lock
unfoldable pub try_acquire : Sync → (i : ℕ) → Sync × Pc
try_acquire s i =
    if s.thread == 0
    then (record s { thread = suc i }, holding)
    else (s, if s.thread == suc i then panicked else failed s.thread)

-- `__sync_trylock`
unfoldable pub sync_trylock : Sync → (i : ℕ) → Sync × Pc
sync_trylock s i = if s.thread == 0 then (record s { thread = suc i }, holding) else (s, outside)

unfoldable pub inc_waiting : Sync → Sync
inc_waiting s = record s { waiting = (s.waiting + 1) % 2 ^ 16 }

unfoldable pub dec_waiting : Sync → Sync
dec_waiting s = record s { waiting = (s.waiting + 2 ^ 16 - 1) % 2 ^ 16 }

-- the exchange of `sync_release`
unfoldable pub release : Sync → Sync × Pc
release s = (record s { thread = 0 }, if s.thread == 0 then panicked else released)

-- the test of `waiting` in `sync_release`
unfoldable pub after_release : Sync → Pc
after_release s = if s.waiting == 0 then outside else waking

-- The lock, the queue of its futex, and the threads.
pub record System : Type 0 where
  pub sync : Sync
  pub queue : List ℕ
  pub pc : ℕ → Pc

abbrev pub put : (ℕ → Pc) → ℕ → Pc → ℕ → Pc
put f i p j = if i == j then p else f j

abbrev pub write : System → ℕ → Sync → List ℕ → Pc → System
write s i sync queue p = record { sync = sync; queue = queue; pc = put s.pc i p }

-- the comparison of `__kern_wait`: with the value that was seen the thread sleeps, else it leaves the queue
unfoldable pub kern_wait_compare : System → (i lock : ℕ) → System
kern_wait_compare s i lock =
    if s.sync.thread == lock
    then write s i s.sync s.queue asleep
    else write s i s.sync (remove i s.queue) back

-- `wakeup_waiter`: a thread that did not compare yet will not sleep
abbrev pub notice : Pc → Pc
notice asleep = back
notice (listed _) = notified
notice p = p

-- `kern_wake` of one waiter, called by thread `i`
unfoldable pub kern_wake : System → (i : ℕ) → List ℕ → System
kern_wake s i [] = write s i s.sync s.queue outside
kern_wake s i (x ∷ xs) =
    write (write s x s.sync (remove x s.queue) (notice (s.pc x))) i s.sync (remove x s.queue)
      outside

-- one step of one of `n` threads
pub data Step (n : ℕ) (s : System) : System → Type 0 where
  enter : (i : ℕ) → i < n → s.pc i ≡ outside → Step n s (write s i s.sync s.queue trying)
  try :
      (i : ℕ)
      → i < n
      → s.pc i ≡ trying
      → Step n s (write s i (try_acquire s.sync i).0 s.queue (try_acquire s.sync i).1)
  trylock :
      (i : ℕ)
      → i < n
      → s.pc i ≡ outside
      → Step n s (write s i (sync_trylock s.sync i).0 s.queue (sync_trylock s.sync i).1)
  inc :
      (i lock : ℕ)
      → i < n
      → s.pc i ≡ failed lock
      → Step n s (write s i (inc_waiting s.sync) s.queue (counted lock))
  list :
      (i lock : ℕ)
      → i < n
      → s.pc i ≡ counted lock
      → Step n s (write s i s.sync (s.queue ++ (i ∷ [])) (listed lock))
  compare : (i lock : ℕ) → i < n → s.pc i ≡ listed lock → Step n s (kern_wait_compare s i lock)
  go_back : (i : ℕ) → i < n → s.pc i ≡ notified → Step n s (write s i s.sync s.queue back)
  dec : (i : ℕ) → i < n → s.pc i ≡ back → Step n s (write s i (dec_waiting s.sync) s.queue trying)
  unlock :
      (i : ℕ)
      → i < n
      → s.pc i ≡ holding
      → Step n s (write s i (release s.sync).0 s.queue (release s.sync).1)
  look :
      (i : ℕ)
      → i < n
      → s.pc i ≡ released
      → Step n s (write s i s.sync s.queue (after_release s.sync))
  wake : (i : ℕ) → i < n → s.pc i ≡ waking → Step n s (kern_wake s i s.queue)

pub data Reach (n : ℕ) : System → Type 0 where
  start : Reach n (record { sync = sync_init; queue = []; pc = λ i. outside })
  later : {s t : System} → Reach n s → Step n s t → Reach n t
