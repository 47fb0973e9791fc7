-- ===== src/Pipe/Open.antt =====
-- `sys_pipe2` of kern/pipe.c on every path.
use elos.Base.{ℕ, ◌%◌, ◌<◌, ◌≡◌, ◌≢◌, refl, Bool, true, false, some, ◌==◌, arith, ap, ◌∙◌}
use elos.Fd.{Files, Table, file_ref, file_unref, fd_file, entry, proc_files}
use elos.Fd.Alloc.{Same, new_entry}
use elos.Fd.Both.{placed}
use elos.Pipe.{◌>>=◌, Pipes, unref, close_fd, writeable}
use elos.Pipe.Ends.{Held, Held-swap, Held-cleared, cleared, close_fd-unref, unref-Held}
use elos.Pipe.Calls.{Opened}

module _ (k : Pipes) (addr f0 f1 : ℕ) (s : Files) where
  -- `fdalloc2` has failed
  pub Held-Same :
      Held k addr f0 f1 false 1 1 false false
      → Same k.files s
      → s.flags ≡ k.files.flags
      → Held (record k { files = s }) addr f0 f1 false 1 1 false false
  Held-Same h same flags = record {
    live = h.live;
    apart = h.apart;
    ref_f = same.ref f0 ∙ h.ref_f;
    ref_g = same.ref f1 ∙ h.ref_g;
    priv_f = h.priv_f;
    priv_g = h.priv_g;
    end_f = ap (λ (fl : ℕ → ℕ). writeable (fl f0)) flags ∙ h.end_f;
    end_g = ap (λ (fl : ℕ → ℕ). writeable (fl f1)) flags ∙ h.end_g;
    pipe = h.pipe;
    at = h.at;
    closed_f = h.closed_f;
    closed_g = h.closed_g;
  }

  -- `fdalloc2` has put both files into the table
  pub Held-placed :
      (cloexec : Bool) (a b : ℕ)
      → Held k addr f0 f1 false 1 1 false false
      → s ≡ placed f0 f1 cloexec k.files a b
      → Held (record k { files = s }) addr f0 f1 false 2 2 false false
  unfolding file_ref
  Held-placed cloexec a b h at = rw at record {
    live = h.live;
    apart = h.apart;
    ref_f = let ne = h.apart in let r = h.ref_f in ground arith;
    ref_g = let ne = h.apart in let r = h.ref_g in ground arith;
    priv_f = h.priv_f;
    priv_g = h.priv_g;
    end_f = h.end_f;
    end_g = h.end_g;
    pipe = h.pipe;
    at = h.at;
    closed_f = h.closed_f;
    closed_g = h.closed_g;
  }

-- the entries of the two files
pub record Entries (t : Table) (f0 f1 a b : ℕ) : Type 0 where
  pub there_a : a < proc_files
  pub there_b : b < proc_files
  pub apart : a ≢ b
  pub fd_a : fd_file t a ≡ f0
  pub fd_b : fd_file t b ≡ f1
  pub live0 : f0 ≢ 0
  pub live1 : f1 ≢ 0

pub placed-Entries :
    (f0 f1 : ℕ) (cloexec : Bool) (s s' : Files) (a b : ℕ)
    → f0 % 2 ≡ 0
    → f1 % 2 ≡ 0
    → f0 ≢ 0
    → f1 ≢ 0
    → a < b
    → b < proc_files
    → s' ≡ placed f0 f1 cloexec s a b
    → Entries s'.table f0 f1 a b
unfolding file_ref
placed-Entries f0 f1 cloexec s s' a b even0 even1 ne0 ne1 l lb at =
    let miss : (b == a) ≡ false = ground arith in
    let self_a : (a == a) ≡ true = ground arith in
    let self_b : (b == b) ≡ true = ground arith in
    let at_a : s'.table a ≡ entry f0 cloexec =
      ap (λ (x : Files). x.table a) at ∙ rw (miss, self_a) refl in
    let at_b : s'.table b ≡ entry f1 cloexec = ap (λ (x : Files). x.table b) at ∙ rw self_b refl in
    record {
      there_a = omega arith;
      there_b = lb;
      apart = omega arith;
      fd_a = rw at_a (new_entry f0 cloexec even0);
      fd_b = rw at_b (new_entry f1 cloexec even1);
      live0 = ne0;
      live1 = ne1;
    }

-- both descriptors are given back while `sys_pipe2` holds the files
pub close_fds-Held :
    (k : Pipes) (addr f0 f1 a b : ℕ)
    → Held k addr f0 f1 false 2 2 false false
    → Entries k.files.table f0 f1 a b
    → (k' : Pipes) × ((close_fd a k >>= close_fd b) ≡ some k')
      × Held k' addr f0 f1 false 1 1 false false
unfolding file_unref
close_fds-Held k addr f0 f1 a b h n =
    let (e₁, h₁) =
      unref-Held (cleared k a) addr f0 f1 false 0 2 false false
        (Held-cleared k a addr f0 f1 false 2 2 false false h) in
    let k₁ : Pipes = record (cleared k a) { files = file_unref f0 (cleared k a).files } in
    let first = close_fd-unref k a f0 n.there_a n.live0 n.fd_a in
    let miss : (a == b) ≡ false = let ne = n.apart in ground arith in
    let fd_b : fd_file k₁.files.table b ≡ f1 = rw miss (n.fd_b) in
    let second = close_fd-unref k₁ b f1 n.there_b n.live1 fd_b in
    let h₂ =
      Held-cleared k₁ b addr f1 f0 true 2 1 false false
        (Held-swap k₁ addr f0 f1 false 1 2 false false h₁) in
    let (e₃, h₃) = unref-Held (cleared k₁ b) addr f1 f0 true 0 1 false false h₂ in
    (_, rw (first, e₁) (second ∙ e₃), Held-swap _ addr f1 f0 true 1 1 false false h₃)

-- `sys_pipe2` gives its own references up
pub unrefs-Opened :
    (k : Pipes) (addr f0 f1 a b : ℕ)
    → Held k addr f0 f1 false 2 2 false false
    → Entries k.files.table f0 f1 a b
    → (k' : Pipes) × ((unref f0 k >>= unref f1) ≡ some k')
      × Opened k' addr f0 f1 false a b
      × (k'.freed ≡ k.freed)
unfolding file_unref
unrefs-Opened k addr f0 f1 a b h n =
    let (e₁, h₁) = unref-Held k addr f0 f1 false 0 2 false false h in
    let k₁ : Pipes = record k { files = file_unref f0 k.files } in
    let (e₂, h₂) =
      unref-Held k₁ addr f1 f0 true 0 1 false false
        (Held-swap k₁ addr f0 f1 false 1 2 false false h₁) in
    (
      _,
      rw e₁ e₂,
      record {
        held = Held-swap _ addr f1 f0 true 1 1 false false h₂;
        there_a = n.there_a;
        there_b = n.there_b;
        apart = n.apart;
        fd_a = n.fd_a;
        fd_b = n.fd_b;
        live_f = n.live0;
        live_g = n.live1;
      },
      refl,
    )
