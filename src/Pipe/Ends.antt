-- ===== src/Pipe/Ends.antt =====
-- The two ends of a pipe of kern/pipe.c, and what giving up a reference to one of them does.
use elos.Base.{
  ℕ, suc, ◌<◌, ◌≡◌, ◌≢◌, refl, Bool, true, false, ◌||◌, not, none, some, ◌∷◌, if◌then◌else◌, ◌==◌,
  arith, Bool-cases, inl, inr, sym, ap, ◌∙◌,
}
use elos.Ringbuf.{ringbuf_eof}
use elos.Fd.{put, file_unref, fdfree, fd_invalid, fd_file, proc_files}
use elos.Pipe.{Pipe, Pipes, put_pipe, pipe_free, pipe_close, close_end, unref, close_fd, writeable}

-- `f` is the end of the pipe at `addr` that writes or not, with `n` references, and `g` the other one with
-- `m`; `cf` and `cg` tell which of them are closed.
pub record Held (k : Pipes) (addr f g : ℕ) (w : Bool) (n m : ℕ) (cf cg : Bool) : Type 0 where
  pub live : (addr == 0) ≡ false
  pub apart : (f == g) ≡ false
  pub ref_f : k.files.ref f ≡ n
  pub ref_g : k.files.ref g ≡ m
  pub priv_f : k.priv f ≡ addr
  pub priv_g : k.priv g ≡ addr
  pub end_f : writeable (k.files.flags f) ≡ w
  pub end_g : writeable (k.files.flags g) ≡ not w
  pub pipe : Pipe
  pub at : k.pipes addr ≡ some pipe
  pub closed_f : (if w then pipe.closed_write else pipe.closed_read) ≡ cf
  pub closed_g : (if w then pipe.closed_read else pipe.closed_write) ≡ cg

pub Held-swap :
    (k : Pipes) (addr f g : ℕ) (w : Bool) (n m : ℕ) (cf cg : Bool)
    → Held k addr f g w n m cf cg
    → Held k addr g f (not w) m n cg cf
Held-swap k addr f g true n m cf cg h = record {
  live = h.live;
  apart = let a = h.apart in ground arith;
  ref_f = h.ref_g;
  ref_g = h.ref_f;
  priv_f = h.priv_g;
  priv_g = h.priv_f;
  end_f = h.end_g;
  end_g = h.end_f;
  pipe = h.pipe;
  at = h.at;
  closed_f = h.closed_g;
  closed_g = h.closed_f;
}
Held-swap k addr f g false n m cf cg h = record {
  live = h.live;
  apart = let a = h.apart in ground arith;
  ref_f = h.ref_g;
  ref_g = h.ref_f;
  priv_f = h.priv_g;
  priv_g = h.priv_f;
  end_f = h.end_g;
  end_g = h.end_f;
  pipe = h.pipe;
  at = h.at;
  closed_f = h.closed_g;
  closed_g = h.closed_f;
}

-- an entry of the table is emptied
abbrev pub cleared : Pipes → ℕ → Pipes
cleared k fd = record k { files = put k.files fd 0 }

pub Held-cleared :
    (k : Pipes) (fd addr f g : ℕ) (w : Bool) (n m : ℕ) (cf cg : Bool)
    → Held k addr f g w n m cf cg
    → Held (cleared k fd) addr f g w n m cf cg
Held-cleared k fd addr f g w n m cf cg h = record {
  live = h.live;
  apart = h.apart;
  ref_f = h.ref_f;
  ref_g = h.ref_g;
  priv_f = h.priv_f;
  priv_g = h.priv_g;
  end_f = h.end_f;
  end_g = h.end_g;
  pipe = h.pipe;
  at = h.at;
  closed_f = h.closed_f;
  closed_g = h.closed_g;
}

-- `close_fd` of an entry with a file is `unref` of the file
pub close_fd-unref :
    (k : Pipes) (fd f : ℕ)
    → fd < proc_files
    → f ≢ 0
    → fd_file k.files.table fd ≡ f
    → close_fd fd k ≡ unref f (cleared k fd)
unfolding close_fd unref fdfree
close_fd-unref k fd f l ne e =
    let valid : fd_invalid fd ≡ false = ground arith in
    let there : (f == 0) ≡ false = ground arith in rw (e, valid, there) refl

module _ (k : Pipes) (addr f g : ℕ) (w : Bool) where
  -- one of several references
  pub unref-Held :
      (n m : ℕ) (cf cg : Bool)
      → Held k addr f g w (suc (suc n)) m cf cg
      → let k' : Pipes = record k { files = file_unref f k.files } in
        (unref f k ≡ some k') × Held k' addr f g w (suc n) m cf cg
  unfolding unref file_unref
  unref-Held n m cf cg h =
      let ref = h.ref_f in
      let many : (k.files.ref f == 1) ≡ false = ground arith in
      let self : (f == f) ≡ true = ground arith in
      (
        rw many refl,
        record {
          live = h.live;
          apart = h.apart;
          ref_f = ground arith;
          ref_g = let a = h.apart in rw a (h.ref_g);
          priv_f = h.priv_f;
          priv_g = h.priv_g;
          end_f = h.end_f;
          end_g = h.end_g;
          pipe = h.pipe;
          at = h.at;
          closed_f = h.closed_f;
          closed_g = h.closed_g;
        },
      )

  -- the last reference to the end that is closed first
  pub unref-closes :
      (m : ℕ)
      → Held k addr f g w 1 m false false
      → (k' : Pipes) × (unref f k ≡ some k')
        × Held k' addr f g w 0 m true false
        × (k'.files.table ≡ k.files.table)
        × (k'.freed ≡ k.freed)
  unfolding unref file_unref pipe_close close_end
  unref-closes m h =
      let last : (k.files.ref f == 1) ≡ true = let r = h.ref_f in ground arith in
      let closed : Pipe = record h.pipe {
        buf = ringbuf_eof h.pipe.buf;
        closed_read = h.pipe.closed_read || not w;
        closed_write = h.pipe.closed_write || w;
      } in
      let k' : Pipes = put_pipe (record k { files = file_unref f k.files }) addr (some closed) in
      let self : (addr == addr) ≡ true = ground arith in
      (
        k',
        rw (last, h.priv_f, h.live, h.at, h.end_f, h.closed_g) refl,
        record {
          live = h.live;
          apart = h.apart;
          ref_f = let r = h.ref_f in ground arith;
          ref_g = let a = h.apart in rw a (h.ref_g);
          priv_f = h.priv_f;
          priv_g = h.priv_g;
          end_f = h.end_f;
          end_g = h.end_g;
          pipe = closed;
          at = rw self refl;
          closed_f = ground arith;
          closed_g = let c = h.closed_g in ground arith;
        },
        refl,
        refl,
      )

  -- the last reference to the end that is closed last
  pub unref-frees :
      (m : ℕ) (cf : Bool)
      → Held k addr f g w 1 m cf true
      → (k' : Pipes) × (unref f k ≡ some k')
        × (k'.pipes addr ≡ none)
        × (k'.freed ≡ addr ∷ k.freed)
        × (k'.files.table ≡ k.files.table)
        × ((j : ℕ) → k'.files.ref j ≡ (if f == j then 0 else k.files.ref j))
  unfolding unref file_unref pipe_close close_end pipe_free
  unref-frees m cf h =
      let last : (k.files.ref f == 1) ≡ true = let r = h.ref_f in ground arith in
      let closed : Pipe = record h.pipe {
        buf = ringbuf_eof h.pipe.buf;
        closed_read = h.pipe.closed_read || not w;
        closed_write = h.pipe.closed_write || w;
      } in
      let k₁ : Pipes = put_pipe (record k { files = file_unref f k.files }) addr (some closed) in
      let k' : Pipes = record (put_pipe k₁ addr none) { freed = addr ∷ k.freed } in
      let self : (addr == addr) ≡ true = ground arith in
      (
        k',
        rw (last, h.priv_f, h.live, h.at, h.end_f, h.closed_g, self) refl,
        rw self refl,
        refl,
        refl,
        λ j.
            let r = h.ref_f in
            elim (Bool-cases (f == j)) [
              | inl e ↦
                  let same : f ≡ j = ground arith in
                  let rj : k.files.ref j ≡ 1 = ap k.files.ref (sym same) ∙ r in rw (e, rj) refl
              | inr e ↦ rw e refl
            ],
      )

-- a pipe that was freed cannot be freed again
pub pipe_free-none : (k : Pipes) (addr : ℕ) → k.pipes addr ≡ none → pipe_free addr k ≡ none
unfolding pipe_free
pipe_free-none k addr gone = elim (Bool-cases (addr == 0)) [
  | inl e ↦ rw e refl
  | inr e ↦ rw (e, gone) refl
]
