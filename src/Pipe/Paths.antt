-- ===== src/Pipe/Paths.antt =====
-- `sys_pipe2` of kern/pipe.c from its arguments to its result.
use elos.Base.{
  ℕ, ◌/◌, ◌%◌, ◌^◌, ◌<◌, ◌≡◌, ◌≢◌, ◌⊎◌, refl, true, false, Option, none, some, List, if◌then◌else◌,
  ◌==◌, arith, Bool-cases, inl, inr, ◌∙◌,
}
use elos.Base.Errno.{Errno, Result, ok, err}
use elos.Cbuf.{cbuf_alloc}
use elos.Ringbuf.{ringbuf_alloc}
use elos.Fd.{Files, fdalloc2, has_o_cloexec}
use elos.Fd.Alloc.{AllocatedBoth, fdalloc2-AllocatedBoth}
use elos.Fd.Both.{NoTwo, Shape, fdalloc2-Shape}
use elos.Pipe.{
  ◌>>=◌, Pipe, Pipes, put_pipe, pipe_alloc, pipe_close, unref, close_fd, file_alloc, file_set_priv,
  err_fd, pipe_copyout, pipe_ends, sys_pipe2,
}
use elos.Pipe.Ends.{Held}
use elos.Pipe.Calls.{err_fd-none, pipe_ends-Held}
use elos.Pipe.Open.{Held-Same, Held-placed, placed-Entries, close_fds-Held}

-- the flags of the files, and the pipe that is allocated
abbrev pub file_flags : ℕ → ℕ
file_flags flags = if flags / 2 ^ 11 % 2 == 1 then 2 ^ 11 else 0

abbrev pub new_pipe : List ℕ → Pipe
new_pipe storage = record {
  buf = record { buf = record { mem = storage; rptr = 0; wptr = 0; level = 0 }; eof = false };
  closed_read = false;
  closed_write = false;
}

pipe_alloc-eq :
    (addr : ℕ) (storage : List ℕ) (k : Pipes)
    → (addr == 0) ≡ false
    → pipe_alloc addr storage k ≡ some (addr, put_pipe k addr (some (new_pipe storage)))
unfolding pipe_alloc ringbuf_alloc cbuf_alloc
pipe_alloc-eq addr storage k live = rw live refl

-- What the caller gives: memory for the pipe and the first file, and two files apart from each other at even
-- addresses.
pub record Given (addr f0 f1 : ℕ) : Type 0 where
  pub live : addr ≢ 0
  pub live0 : f0 ≢ 0
  pub apart : f0 ≢ f1
  pub even0 : f0 % 2 ≡ 0
  pub even1 : f1 % 2 ≡ 0

module _ (storage : List ℕ) (addr f0 f1 flags : ℕ) (k : Pipes) (g : Given addr f0 f1) where
  abbrev pub k1 : Pipes
  k1 = put_pipe k addr (some (new_pipe storage))

  abbrev pub k2 : Pipes
  k2 = pipe_ends addr f0 f1 (file_flags flags) k1

  -- with both files there is only the table and `copyout` left
  pub to_copyout :
      (copied : Option Errno)
      → f1 ≢ 0
      → sys_pipe2 storage addr f0 f1 copied flags k
        ≡ pipe_copyout copied addr f0 f1 (fdalloc2 f0 f1 (has_o_cloexec flags) k2.files) k2
  unfolding sys_pipe2
  to_copyout copied live1 =
      let l : (addr == 0) ≡ false = let n = g.live in ground arith in
      let l0 : (f0 == 0) ≡ false = let n = g.live0 in ground arith in
      let l1 : (f1 == 0) ≡ false = ground arith in
      rw (pipe_alloc-eq addr storage k l, l, l0, l1) refl

  pub held : Held k2 addr f0 f1 false 1 1 false false
  held =
      let l : (addr == 0) ≡ false = let n = g.live in ground arith in
      let a : (f0 == f1) ≡ false = let n = g.apart in ground arith in
      let self : (addr == addr) ≡ true = ground arith in
      let fl : (file_flags flags ≡ 0) ⊎ (file_flags flags ≡ 2 ^ 11) =
        elim (Bool-cases (flags / 2 ^ 11 % 2 == 1)) [
          | inl e ↦ inr (rw e refl)
          | inr e ↦ inl (rw e refl)
        ] in
      pipe_ends-Held addr f0 f1 (file_flags flags) k1 (new_pipe storage) l a fl (rw self refl) refl
        refl

  -- without a second file the first one is closed before it knows its pipe
  no_second : (copied : Option Errno) → f1 ≡ 0 → sys_pipe2 storage addr f0 f1 copied flags k ≡ none
  unfolding sys_pipe2 unref pipe_close file_alloc
  no_second copied e =
      let l : (addr == 0) ≡ false = let n = g.live in ground arith in
      let l0 : (f0 == 0) ≡ false = let n = g.live0 in ground arith in
      let l1 : (f1 == 0) ≡ true = ground arith in
      let self : (f0 == f0) ≡ true = ground arith in
      rw (pipe_alloc-eq addr storage k l, l, l0, l1, self) refl

  copyout_fails :
      (copied : Option Errno) (r : Result (ℕ × ℕ)) (s : Files)
      → f1 ≢ 0
      → NoTwo k.files.table ⊎ ((e : Errno) × (copied ≡ some e))
      → AllocatedBoth k2.files r s
      → Shape f0 f1 (has_o_cloexec flags) k2.files r s
      → pipe_copyout copied addr f0 f1 (r, s) k2 ≡ none
  unfolding pipe_copyout pipe_ends file_set_priv file_alloc
  copyout_fails copied (err e) s live1 why same (flags_same, two) =
      err_fd-none e addr f0 f1 (record k2 { files = s })
        (Held-Same k2 addr f0 f1 s held same flags_same)
  copyout_fails copied (ok (a, b)) s live1 (inl full) (l, lb, ea, eb, bal) at =
      let same : a ≡ b = full a b (omega arith) lb ea eb in absurd (omega arith)
  copyout_fails none (ok (a, b)) s live1 (inr (e, no_error)) (l, lb, ea, eb, bal) at = cc
  copyout_fails (some e) (ok (a, b)) s live1 (inr why) (l, lb, ea, eb, bal) at =
      let n =
        placed-Entries f0 f1 (has_o_cloexec flags) k2.files s a b g.even0 g.even1 g.live0 live1 l lb
          at in
      let h = Held-placed k2 addr f0 f1 s (has_o_cloexec flags) a b held at in
      let (k₃, e₃, h₃) = close_fds-Held (record k2 { files = s }) addr f0 f1 a b h n in
      close_then e a b s k₃ e₃ (err_fd-none e addr f0 f1 k₃ h₃)
    where
      close_then :
          (e : Errno) (a b : ℕ) (s : Files) (k₃ : Pipes)
          → (close_fd a (record k2 { files = s }) >>= close_fd b) ≡ some k₃
          → err_fd e addr f0 f1 k₃ ≡ none
          → (close_fd a (record k2 { files = s }) >>= λ x. close_fd b x >>= err_fd e addr f0 f1)
            ≡ none
      close_then e a b s k₃ run fails =
          elim (close_fd a (record k2 { files = s }))
              as (λ o.
                (o >>= close_fd b) ≡ some k₃
                → (o >>= λ x. close_fd b x >>= err_fd e addr f0 f1) ≡ none) [
                  | none ↦ λ p. absurd (cc)
                  | some x ↦ λ p. rw p fails
                ]
            run

  split_f1 :
      (copied : Option Errno)
      → NoTwo k.files.table ⊎ ((e : Errno) × (copied ≡ some e))
      → f1 ≢ 0
      → sys_pipe2 storage addr f0 f1 copied flags k ≡ none
  unfolding pipe_ends file_set_priv file_alloc
  split_f1 copied why live1 =
      let cloexec = has_o_cloexec flags in
      let ref : 0 < k2.files.ref f0 = let h = held in let r = h.ref_f in omega arith in
      let both = fdalloc2-AllocatedBoth f0 f1 cloexec k2.files g.even0 g.even1 g.live0 ref in
      let shape = fdalloc2-Shape f0 f1 cloexec k2.files g.even0 g.even1 in
      let (r, s) = fdalloc2 f0 f1 cloexec k2.files in
      to_copyout copied live1 ∙ copyout_fails copied r s live1 why both shape

  -- With memory for the pipe and the first file, but none for the second, or without two empty entries, or if
  -- `copyout` fails, `sys_pipe2` does not return its error: it uses NULL or frees the pipe twice.
  pub sys_pipe2_fails :
      (copied : Option Errno)
      → (f1 ≡ 0) ⊎ (NoTwo k.files.table ⊎ ((e : Errno) × (copied ≡ some e)))
      → sys_pipe2 storage addr f0 f1 copied flags k ≡ none
  sys_pipe2_fails copied (inl none_left) = no_second copied none_left
  sys_pipe2_fails copied (inr why) = elim (Bool-cases (f1 == 0)) [
    | inl e ↦ no_second copied (ground arith)
    | inr e ↦ split_f1 copied why (ground arith)
  ]
