-- ===== src/Ringbuf/Laws.antt =====
-- What a caller of lib/ringbuf.c sees: order of the bytes, end of file, and when it does not sleep.
use elos.Base.{ℕ, ◌≡◌, ◌≢◌, true, false, none, some, List, [], ◌∷◌, min, take, drop, ◌⊎◌, ◌<◌}
use elos.Base.Errno.{Errno, epipe, Result, ok, err}
use elos.Cbuf.{cbuf_is_empty}
use elos.Cbuf.Refine.{IsValid, contents}
use elos.Ringbuf.{Ringbuf, Wakeup, Outcome, returned, asleep, panic, endless}

-- The other threads keep the buffer valid, and `kern_wait` has no EPIPE of its own.
pub record IsFair (w : Wakeup) : Type 0 where
  pub valid : (rb : Ringbuf) → IsValid rb.buf → IsValid (w.others rb).buf
  pub status : w.status ≢ some epipe

abbrev pub AllFair : List Wakeup → Type 0
AllFair [] = Unit
AllFair (w ∷ ws) = IsFair w × AllFair ws

-- `rb'` is the buffer after some of the scheduled sleeps, each of which ended without an error.
pub data Woken : List Wakeup → Ringbuf → Ringbuf → Type 0 where
  here : {ws : List Wakeup} {rb : Ringbuf} → Woken ws rb rb
  later :
      {w : Wakeup} {ws : List Wakeup} {rb rb' : Ringbuf}
      → w.status ≡ none
      → Woken ws (w.others rb) rb'
      → Woken (w ∷ ws) rb rb'

-- How the wait of a reader ends, apart from an error of `kern_wait`.
abbrev Ended : List Wakeup → Ringbuf → Ringbuf → Result (Unit {0}) → Type 0
Ended ws rb rb' (ok _) = Woken ws rb rb' × IsValid rb'.buf × (cbuf_is_empty rb'.buf ≡ false)
Ended ws rb rb' (err epipe) =
    Woken ws rb rb' × IsValid rb'.buf × (cbuf_is_empty rb'.buf ≡ true) × (rb'.eof ≡ true)
Ended ws rb rb' (err _) = Unit

abbrev Ends : List Wakeup → Ringbuf → Outcome (Result (Unit {0})) → Type 0
Ends ws rb (returned r rb') = Ended ws rb rb' r
Ends ws rb (asleep _) = Unit
Ends ws rb panic = ⊥
Ends ws rb endless = ⊥

-- What a read that was called on `rb` did to the buffer `seen` that it found after its sleeps.
pub record Took (seen : Ringbuf) (size : ℕ) (bs : List ℕ) (rb' : Ringbuf) : Type 0 where
  pub bytes : bs ≡ take (min seen.buf.level size) (contents seen.buf)
  pub rest : contents rb'.buf ≡ drop (min seen.buf.level size) (contents seen.buf)
  pub valid : IsValid rb'.buf
  pub eof : rb'.eof ≡ seen.eof
  pub reason : (0 < seen.buf.level) ⊎ (seen.eof ≡ true)

abbrev pub Reads : List Wakeup → Ringbuf → ℕ → Outcome (Result (List ℕ)) → Type 0
Reads ws rb size (returned (ok bs) rb') =
    (seen : Ringbuf) × Woken ws rb seen × Took seen size bs rb'
Reads ws rb size (returned (err e) rb') = e ≢ epipe
Reads ws rb size (asleep rb') = Unit
Reads ws rb size panic = ⊥
Reads ws rb size endless = ⊥
