-- ===== src/Pipe/Calls.antt =====
-- `sys_pipe2` of kern/pipe.c: the pipe that it opens, what closing its ends does, and its error paths.
use elos.Base.{
  ℕ, ◌^◌, ◌<◌, ◌≡◌, ◌≢◌, ◌⊎◌, refl, Bool, true, false, not, none, some, ◌∷◌, ◌==◌, arith, inl, inr,
  sym, ap, ◌∙◌,
}
use elos.Base.Errno.{Errno}
use elos.Fd.{Table, fd_file, proc_files}
use elos.Pipe.{◌>>=◌, Pipe, Pipes, close_fd, file_alloc, file_set_priv, err_fd, pipe_ends}
use elos.Pipe.Ends.{
  Held, Held-swap, Held-cleared, cleared, close_fd-unref, unref-closes, unref-frees, pipe_free-none,
}

-- the pipe at `addr` was freed, once more than in `k`
pub record Freed (k : Pipes) (addr : ℕ) (k' : Pipes) : Type 0 where
  pub gone : k'.pipes addr ≡ none
  pub once : k'.freed ≡ addr ∷ k.freed

-- the label `err_fd` frees the pipe and then frees it again
pub err_fd-none :
    (e : Errno) (addr f0 f1 : ℕ) (k : Pipes)
    → Held k addr f0 f1 false 1 1 false false
    → err_fd e addr f0 f1 k ≡ none
err_fd-none e addr f0 f1 k h =
    let (k₁, e₁, h₁, t₁, same₁) =
      unref-closes k addr f1 f0 true 1 (Held-swap k addr f0 f1 false 1 1 false false h) in
    let (k₂, e₂, gone, freed, t₂, refs) =
      unref-frees k₁ addr f0 f1 false 0 false (Held-swap k₁ addr f1 f0 true 0 1 true false h₁) in
    rw (e₁, e₂, pipe_free-none k₂ addr gone) refl

-- A pipe whose ends stand in two descriptors and are held by these alone.
pub record Opened (k : Pipes) (addr f g : ℕ) (w : Bool) (a b : ℕ) : Type 0 where
  pub held : Held k addr f g w 1 1 false false
  pub there_a : a < proc_files
  pub there_b : b < proc_files
  pub apart : a ≢ b
  pub fd_a : fd_file k.files.table a ≡ f
  pub fd_b : fd_file k.files.table b ≡ g
  pub live_f : f ≢ 0
  pub live_g : g ≢ 0

-- `close` of the one and then the other
pub close_both :
    (k : Pipes) (addr f g : ℕ) (w : Bool) (a b : ℕ)
    → Opened k addr f g w a b
    → (k' : Pipes) × ((close_fd a k >>= close_fd b) ≡ some k') × Freed k addr k'
close_both k addr f g w a b o =
    let (k₁, e₁, h₁, t₁, same₁) =
      unref-closes (cleared k a) addr f g w 1
        (Held-cleared k a addr f g w 1 1 false false o.held) in
    let first = close_fd-unref k a f o.there_a o.live_f o.fd_a in
    let miss : (a == b) ≡ false = let ne = o.apart in ground arith in
    let kept : k₁.files.table b ≡ k.files.table b = ap (λ (t : Table). t b) t₁ ∙ rw miss refl in
    let fd_b : fd_file k₁.files.table b ≡ g = rw kept (o.fd_b) in
    let second = close_fd-unref k₁ b g o.there_b o.live_g fd_b in
    let h₂ =
      Held-cleared k₁ b addr g f (not w) 1 0 false true
        (Held-swap k₁ addr f g w 0 1 true false h₁) in
    let (k₂, e₂, gone, freed, t₂, refs) = unref-frees (cleared k₁ b) addr g f (not w) 0 false h₂ in
    let freed' : k₂.freed ≡ addr ∷ k.freed = freed ∙ ap (λ l. addr ∷ l) same₁ in
    (k₂, rw (first, e₁) (second ∙ e₂), record { gone = gone; once = freed' })

pub Opened-swap :
    (k : Pipes) (addr f g : ℕ) (w : Bool) (a b : ℕ)
    → Opened k addr f g w a b
    → Opened k addr g f (not w) b a
Opened-swap k addr f g w a b o = record {
  held = Held-swap k addr f g w 1 1 false false o.held;
  there_a = o.there_b;
  there_b = o.there_a;
  apart = λ e. o.apart (sym e);
  fd_a = o.fd_b;
  fd_b = o.fd_a;
  live_f = o.live_g;
  live_g = o.live_f;
}

-- the two new files
pub pipe_ends-Held :
    (addr f0 f1 flags : ℕ) (k : Pipes) (p : Pipe)
    → (addr == 0) ≡ false
    → (f0 == f1) ≡ false
    → (flags ≡ 0) ⊎ (flags ≡ 2 ^ 11)
    → k.pipes addr ≡ some p
    → p.closed_read ≡ false
    → p.closed_write ≡ false
    → Held (pipe_ends addr f0 f1 flags k) addr f0 f1 false 1 1 false false
unfolding pipe_ends file_set_priv file_alloc
pipe_ends-Held addr f0 f1 flags k p live apart fl at cr cw =
    let back : (f1 == f0) ≡ false = ground arith in
    let self0 : (f0 == f0) ≡ true = ground arith in
    let self1 : (f1 == f1) ≡ true = ground arith in
    record {
      live = live;
      apart = apart;
      ref_f = rw (back, self0) refl;
      ref_g = rw self1 refl;
      priv_f = rw (back, self0) refl;
      priv_g = rw self1 refl;
      end_f = rw (back, self0) (elim fl [ inl e ↦ rw e refl | inr e ↦ rw e refl ]);
      end_g = rw self1 (elim fl [ inl e ↦ rw e refl | inr e ↦ rw e refl ]);
      pipe = p;
      at = at;
      closed_f = cr;
      closed_g = cw;
    }
