-- ===== src/Ringbuf/Writes.antt =====
-- What a writer of lib/ringbuf.c does, and the calls that do not sleep.
use elos.Base.{
  ℕ, ◌-◌, ◌<◌, ◌≡◌, ◌⊎◌, refl, Bool, true, false, none, some, List, [], ◌∷◌, ◌++◌, min, take, drop,
  arith, if◌then◌else◌, ◌==◌, Bool-cases, inl, inr, ap, sym,
}
use elos.Base.Errno.{Errno, epipe, ewouldblock, Result, ok, err}
use elos.Cbuf.{cbuf_size, cbuf_is_empty, cbuf_is_full}
use elos.Cbuf.Refine.{IsValid, contents, cbuf_read_lem}
use elos.Ringbuf.{
  Ringbuf, Wakeup, Outcome, returned, asleep, panic, endless, ringbuf_rdwait, read_ready,
  read_after, ringbuf_read,
}
use elos.Ringbuf.Laws.{Woken}

-- What a write that sleeps ends with: the first of the wake-ups `ws` with an error, `e`, and the buffer
-- that the threads until then left.
pub data Failed : List Wakeup → Ringbuf → Errno → Ringbuf → Type 0 where
  at_first :
      {w : Wakeup} {ws : List Wakeup} {rb : Ringbuf} {e : Errno}
      → w.status ≡ some e
      → Failed (w ∷ ws) rb e (w.others rb)
  at_later :
      {w : Wakeup} {ws : List Wakeup} {rb rb' : Ringbuf} {e : Errno}
      → w.status ≡ none
      → Failed ws (w.others rb) e rb'
      → Failed (w ∷ ws) rb e rb'

-- What a write did to the buffer `seen` that it found after its sleeps.
pub record Put (seen : Ringbuf) (size : ℕ) (src : List ℕ) (n : ℕ) (rb' : Ringbuf) : Type 0 where
  pub count : n ≡ min (cbuf_size seen.buf - seen.buf.level) size
  pub bytes : contents rb'.buf ≡ contents seen.buf ++ take n src
  pub valid : IsValid rb'.buf
  pub eof : rb'.eof ≡ seen.eof

abbrev pub Writes :
    List Wakeup → (noblock : Bool) → Ringbuf → ℕ → List ℕ → Outcome (Result ℕ) → Type 0
Writes ws noblock rb size src (returned (ok n) rb') =
    (seen : Ringbuf) × Woken ws rb seen
    × Put seen size src n rb'
    × ((noblock ≡ true) ⊎ (seen.buf.level < cbuf_size seen.buf))
Writes ws noblock rb size src (returned (err e) rb') = (noblock ≡ false) × Failed ws rb e rb'
Writes ws noblock rb size src (asleep rb') =
    (noblock ≡ false) × Woken ws rb rb' × (cbuf_is_full rb'.buf ≡ true)
Writes ws noblock rb size src panic = ⊥
Writes ws noblock rb size src endless = ⊥

rdwait-noblock :
    (ws : List Wakeup) (rb : Ringbuf)
    → ringbuf_rdwait ws true rb ≡ (
        if cbuf_is_empty rb.buf
        then (if rb.eof then returned (err epipe) rb else returned (err ewouldblock) rb)
        else returned (ok tt) rb)
unfolding ringbuf_rdwait
rdwait-noblock [] rb = refl
rdwait-noblock (w ∷ ws) rb = refl

-- With RB_NOBLOCK a read never sleeps: an empty buffer gives 0 bytes after an end of file and the
-- error EWOULDBLOCK before it, any other gives its oldest bytes, and nothing else changes.
pub ringbuf_read_noblock :
    (ws : List Wakeup) (size : ℕ) (rb : Ringbuf)
    → IsValid rb.buf
    → (rb' : Ringbuf) × (ringbuf_read ws true size rb
        ≡ returned
            (if rb.buf.level == 0
              then (if rb.eof then ok [] else err ewouldblock)
              else ok (take (min rb.buf.level size) (contents rb.buf)))
            rb')
      × (contents rb'.buf ≡ drop (min rb.buf.level size) (contents rb.buf))
      × (rb'.eof ≡ rb.eof)
unfolding ringbuf_read read_after cbuf_is_empty
ringbuf_read_noblock ws size rb v = elim (Bool-cases (rb.buf.level == 0)) [
  | inl e ↦
      let z : rb.buf.level ≡ 0 = ground arith in
      let n : min rb.buf.level size ≡ 0 = omega arith in
      let same : contents rb.buf ≡ drop (min rb.buf.level size) (contents rb.buf) =
        sym (ap (λ k. drop k (contents rb.buf)) n) in
      elim (Bool-cases rb.eof) [
        | inl g ↦ (rb, simp (rdwait-noblock, e, g), same, refl)
        | inr g ↦ (rb, simp (rdwait-noblock, e, g), same, refl)
      ]
  | inr e ↦
      let (c, run, _, rest, _) = cbuf_read_lem size v in
      (record rb { buf = c }, simp (rdwait-noblock, e) (rw (read_ready, run)), rest, refl)
]
