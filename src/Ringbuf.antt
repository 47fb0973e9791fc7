-- ===== src/Ringbuf.antt =====
-- lib/ringbuf.c: a circular buffer shared by readers and writers that sleep, under a lock that is
-- given back while they do. The lock's owner runs alone, so a call is one function between two
-- sleeps. What happens during a sleep is not this code's doing: each sleep takes the next `Wakeup`
-- of a schedule, with what the other threads made of the buffer and what `kern_wait` returned.
-- When the schedule is at its end the caller is still asleep. The calls on a `uio` are not
-- modelled, nor the wake-ups that a call sends, which change nothing in the buffer.
pub mod Laws
pub mod Writes
mod Tests
use elos.Base.{ℕ, Bool, true, false, Option, none, some, List, [], ◌∷◌, if◌then◌else◌, min}
use elos.Base.Errno.{Errno, epipe, ewouldblock, Result, ok, err}
use elos.Cbuf.{Cbuf, cbuf_alloc, cbuf_is_full, cbuf_is_empty, cbuf_read, cbuf_write}

pub record Ringbuf : Type 0 where
  pub buf : Cbuf
  pub eof : Bool

pub record Wakeup : Type 0 where
  pub others : Ringbuf → Ringbuf
  pub status : Option Errno

-- How a call ends: it returns, it sleeps, it fails an assertion, or a copy loop does not end.
pub data Outcome (A : Type 0) : Type 0 where
  returned : A → Ringbuf → Outcome A
  asleep : Ringbuf → Outcome A
  panic : Outcome A
  endless : Outcome A

-- The kernel's `kmalloc` with VM_WAIT returns `storage`.
unfoldable pub ringbuf_alloc : List ℕ → Option Ringbuf
ringbuf_alloc storage = elim (cbuf_alloc (some storage)) [
  | none ↦ none
  | some c ↦ some (record { buf = c; eof = false })
]

unfoldable pub ringbuf_eof : Ringbuf → Ringbuf
ringbuf_eof rb = record rb { eof = true }

-- `ringbuf_rdwait`, with RB_NOBLOCK as a Boolean
unfoldable pub ringbuf_rdwait :
    List Wakeup → (noblock : Bool) → Ringbuf → Outcome (Result (Unit {0}))
ringbuf_rdwait [] noblock rb =
    if cbuf_is_empty rb.buf
    then (if rb.eof
        then returned (err epipe) rb
        else if noblock
        then returned (err ewouldblock) rb
        else asleep rb)
    else returned (ok tt) rb
ringbuf_rdwait (w ∷ ws) noblock rb =
    let rest = ringbuf_rdwait ws noblock (w.others rb) in
    let woken : Outcome (Result (Unit {0})) = elim w.status [
      | none ↦ rest
      | some e ↦ returned (err e) (w.others rb)
    ] in
    if cbuf_is_empty rb.buf
    then (if rb.eof
        then returned (err epipe) rb
        else if noblock
        then returned (err ewouldblock) rb
        else woken)
    else returned (ok tt) rb

-- the part of `ringbuf_read` after the wait
unfoldable pub read_ready : ℕ → Ringbuf → Outcome (Result (List ℕ))
read_ready size rb = elim (cbuf_read rb.buf size) [
  | none ↦ endless
  | some (bs, c) ↦ returned (ok bs) (record rb { buf = c })
]

-- what `ringbuf_read` makes of the end of its wait
unfoldable pub read_after : ℕ → Outcome (Result (Unit {0})) → Outcome (Result (List ℕ))
unfolding read_ready
read_after size (returned (ok _) rb) = read_ready size rb
read_after size (returned (err epipe) rb) = returned (ok []) rb
read_after size (returned (err e) rb) = returned (err e) rb
read_after size (asleep rb) = asleep rb
read_after size panic = panic
read_after size endless = endless

-- The bytes read stand for the count that the source returns beside the filled buffer.
unfoldable pub ringbuf_read :
    List Wakeup → (noblock : Bool) → ℕ → Ringbuf → Outcome (Result (List ℕ))
unfolding ringbuf_rdwait read_after
ringbuf_read ws noblock size rb = read_after size (ringbuf_rdwait ws noblock rb)

unfoldable pub write_ready : ℕ → List ℕ → Ringbuf → Outcome (Result ℕ)
write_ready size src rb = elim (cbuf_write rb.buf size src) [
  | none ↦ endless
  | some (n, c) ↦ returned (ok n) (record rb { buf = c })
]

-- the loop of `ringbuf_write` and what follows it
unfoldable pub write_wait :
    List Wakeup → (noblock : Bool) → ℕ → List ℕ → Ringbuf → Outcome (Result ℕ)
unfolding write_ready
write_wait [] noblock size src rb =
    if cbuf_is_full rb.buf
    then (if noblock then returned (ok 0) rb else asleep rb)
    else write_ready size src rb
write_wait (w ∷ ws) noblock size src rb =
    let rest = write_wait ws noblock size src (w.others rb) in
    let woken : Outcome (Result ℕ) = elim w.status [
      | none ↦ rest
      | some e ↦ returned (err e) (w.others rb)
    ] in
    if cbuf_is_full rb.buf
    then (if noblock then returned (ok 0) rb else woken)
    else write_ready size src rb

unfoldable pub ringbuf_write :
    List Wakeup → (noblock : Bool) → ℕ → List ℕ → Ringbuf → Outcome (Result ℕ)
unfolding write_wait
ringbuf_write ws noblock size src rb = if rb.eof then panic else write_wait ws noblock size src rb
