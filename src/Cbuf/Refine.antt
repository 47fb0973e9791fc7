-- ===== src/Cbuf/Refine.antt =====
-- `cbuf_read` and `cbuf_write` of lib/cbuf.c against a queue of at most `cbuf_size` bytes, and the
-- fuel of their loops.
use elos.Base.{
  ℕ, zero, suc, ◌+◌, ◌-◌, ◌≤◌, ◌<◌, min, ◌≡◌, refl, sym, ap, ◌∙◌, false, some, List, [], ◌++◌, ◌==◌,
  length, take, drop, arith, length-take, take-take-drop, length-drop, take-append_self,
  drop-append_self,
}
use elos.Cbuf.{Cbuf, cbuf_size, cbuf_read, cbuf_write, read_loop, write_loop, rewind}
use elos.Cbuf.Window.{
  pos, window, window_split, puts, length-window, length-puts, window-append, take-drop-window,
}
use elos.Cbuf.Writes.{window-puts, blit-puts, puts-append}

-- The state between two calls.
pub record IsValid (c : Cbuf) : Type 0 where
  pub start : c.rptr < cbuf_size c
  pub room : c.level ≤ cbuf_size c
  pub next : c.wptr ≡ pos (cbuf_size c) c.rptr c.level

-- the bytes in the buffer, oldest first
unfoldable pub contents : Cbuf → List ℕ
contents c = window (cbuf_size c) c.mem c.rptr c.level

module _ (mem : List ℕ) (r size : ℕ) (lt : r < length mem) (le : size ≤ length mem) where
  -- the bytes up to the end of the storage
  abbrev cur : ℕ
  cur = min (length mem - r) size

  abbrev after : ℕ
  after = rewind (length mem) (r + cur)

  after-lt : after < length mem
  after-lt = ground arith

  pos-after : pos (length mem) after (size - cur) ≡ pos (length mem) r size
  pos-after = ground arith

  window-cut :
      window (length mem) mem r size
      ≡ take cur (drop r mem) ++ window (length mem) mem after (size - cur)
  window-cut =
      let sum : size ≡ cur + (size - cur) = omega arith in
      ap (window (length mem) mem r) sum
      ∙ window-append (length mem) mem r cur (size - cur) lt (omega arith)
      ∙ ap (λ bs. bs ++ window (length mem) mem after (size - cur))
          (sym (take-drop-window mem r cur lt (omega arith)))

read_loop_lem :
    (mem : List ℕ) (fuel r size : ℕ)
    → r < length mem
    → size ≤ length mem
    → size < fuel
    → read_loop fuel mem r size ≡ some (window (length mem) mem r size, pos (length mem) r size)
unfolding read_loop
read_loop_lem mem zero r size lt le h = absurd (omega arith)
read_loop_lem mem (suc fuel) r zero lt le h =
    let none_left : window (length mem) mem r 0 ≡ [] = unfold window in refl in
    ground (arith, none_left)
read_loop_lem mem (suc fuel) r (suc size) lt le h = ground (
  arith,
  read_loop_lem mem fuel (after mem r (suc size) lt le) (suc size - cur mem r (suc size) lt le)
      (after-lt mem r (suc size) lt le) (omega arith) (ground arith),
  pos-after mem r (suc size) lt le,
  window-cut mem r (suc size) lt le,
)

-- Reading takes the oldest bytes, as many as there are, in order, and leaves the others.
pub cbuf_read_lem :
    {c : Cbuf} (size : ℕ)
    → IsValid c
    → let n = min c.level size in
      (c' : Cbuf) × (cbuf_read c size ≡ some (take n (contents c), c'))
      × IsValid c'
      × (contents c' ≡ drop n (contents c))
      × (cbuf_size c' ≡ cbuf_size c)
unfolding cbuf_read contents
cbuf_read_lem {c} size v =
    let n : ℕ = min c.level size in
    let front = window (cbuf_size c) c.mem c.rptr n in
    let back = window (cbuf_size c) c.mem (pos (cbuf_size c) c.rptr n) (c.level - n) in
    let cut : window (cbuf_size c) c.mem c.rptr c.level ≡ front ++ back =
      ap (window (cbuf_size c) c.mem c.rptr) (omega arith)
      ∙ window_split (cbuf_size c) c.mem c.rptr n (c.level - n) v.start (omega arith) in
    let len : n ≡ length front = sym (length-window (cbuf_size c) c.mem c.rptr n) in
    (
      record c { rptr = pos (cbuf_size c) c.rptr n; level = c.level - n },
      rw (
        read_loop_lem c.mem (n + 1) c.rptr n v.start (omega arith) (omega arith),
        cbuf_read,
        contents,
        cut,
        take-append_self n front back len,
      ),
      record { start = ground (arith, v); room = omega arith; next = ground (arith, v) },
      rw (contents, cut, drop-append_self n front back len),
      refl,
    )

write_loop_lem :
    (all fuel : ℕ) (mem : List ℕ) (w size : ℕ) (src : List ℕ)
    → all ≡ length mem
    → w < all
    → size ≤ all
    → size ≤ length src
    → size < fuel
    → write_loop fuel mem w size src ≡ some (puts all mem w (take size src), pos all w size)
unfolding write_loop
write_loop_lem all zero mem w size src c lt le len h = absurd (omega arith)
write_loop_lem all (suc fuel) mem w zero src c lt le len h =
    let nothing : puts all mem w [] ≡ mem = unfold puts in refl in ground (arith, nothing)
write_loop_lem all (suc fuel) mem w (suc size) src c lt le len h =
    let n : ℕ = min (all - w) (suc size) in
    let m : ℕ = suc size - n in
    let bs = take n src in
    let blen : length bs ≡ n = omega (arith, length-take n src) in
    let one = blit-puts all mem w bs (omega arith) in
    let mem' = puts all mem w bs in
    let clen = length-puts all mem w bs in
    let rest =
      write_loop_lem all fuel mem' (rewind all (w + n)) m (drop n src) (c ∙ sym clen) (ground arith)
        (omega arith) (omega (arith, length-drop n src)) (omega arith) in
    let split = take-take-drop n m src in
    let two = puts-append all mem w bs (take m (drop n src)) lt (omega arith) in
    let sum : suc size ≡ n + m = omega arith in
    let whole : take (suc size) src ≡ bs ++ take m (drop n src) =
      ap (λ k. take k src) sum ∙ split in
    let at : pos all w (length bs) ≡ rewind all (w + n) = ground arith in
    let end : pos all (rewind all (w + n)) m ≡ pos all w (suc size) = ground arith in
    let more : (suc size == 0) ≡ false = ground arith in
    rw (write_loop, more, ← c, one, rest, whole, two, at, end)

-- Writing appends the caller's bytes in order, as many as there is room for, and returns their
-- number.
pub cbuf_write_lem :
    {c : Cbuf} (size : ℕ) (src : List ℕ)
    → IsValid c
    → size ≤ length src
    → let n = min (cbuf_size c - c.level) size in
      (c' : Cbuf) × (cbuf_write c size src ≡ some (n, c'))
      × IsValid c'
      × (contents c' ≡ contents c ++ take n src)
      × (cbuf_size c' ≡ cbuf_size c)
unfolding cbuf_write contents
cbuf_write_lem {c} size src v len =
    let all : ℕ = cbuf_size c in
    let n : ℕ = min (all - c.level) size in
    let bs = take n src in
    let blen : length bs ≡ n = omega (arith, length-take n src) in
    let wlt : c.wptr < all = ground (arith, v) in
    let mem' = puts all c.mem c.wptr bs in
    let same : length mem' ≡ all = length-puts all c.mem c.wptr bs in
    (
      record c { mem = mem'; wptr = pos all c.wptr n; level = c.level + n },
      rw (
        write_loop_lem all (n + 1) c.mem c.wptr n src refl wlt (omega arith) (omega arith)
            (omega arith),
        cbuf_write,
      ),
      record { start = omega arith; room = omega arith; next = rw same (ground (arith, v)) },
      rw (contents, same)
          (rw blen at
            (window-puts all c.mem bs c.rptr c.level c.wptr refl v.start (omega arith) v.next)),
      same,
    )
