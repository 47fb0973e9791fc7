-- ===== src/Ringbuf/Tests.antt =====
-- lib/ringbuf.c on a buffer of four bytes.
use elos.Base.{true, false, some, none, [], ◌∷◌}
use elos.Base.Errno.{eintr}
use elos.Ringbuf.{Ringbuf, Wakeup}
use elos.Ringbuf.Writes.{Writes}

abbrev empty : Ringbuf
empty = record {
  buf = record { mem = 0 ∷ 0 ∷ 0 ∷ 0 ∷ []; rptr = 3; wptr = 3; level = 0 };
  eof = false;
}

-- another thread puts the end of file while the reader sleeps
abbrev closing : Wakeup
closing = record { others = λ rb. record rb { eof = true }; status = none }

-- a wait that a signal ends
abbrev interrupted : Wakeup
interrupted = record { others = λ rb. rb; status = some eintr }

abbrev full : Ringbuf
full = record {
  buf = record { mem = 8 ∷ 6 ∷ 5 ∷ 7 ∷ []; rptr = 3; wptr = 3; level = 4 };
  eof = false;
}
