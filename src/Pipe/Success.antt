-- ===== src/Pipe/Success.antt =====
-- `sys_pipe2` of kern/pipe.c where all goes well, and closing what it opened.
use elos.Base.{ℕ, ◌<◌, ◌≡◌, ◌≢◌, true, false, none, some, List, arith, sym, subst}
use elos.Base.Errno.{Result, ok, err}
use elos.Fd.{Files, proc_files, fdalloc2, has_o_cloexec}
use elos.Fd.Alloc.{AllocatedBoth, fdalloc2-AllocatedBoth}
use elos.Fd.Both.{NoTwo, Shape, fdalloc2-Shape}
use elos.Pipe.{
  ◌>>=◌, Pipes, Piped, unref, close_fd, file_alloc, file_set_priv, pipe_copyout, pipe_ends,
  sys_pipe2,
}
use elos.Pipe.Calls.{Opened, Opened-swap, Freed, close_both}
use elos.Pipe.Open.{Held-placed, placed-Entries, unrefs-Opened}
use elos.Pipe.Paths.{Given, k2, to_copyout, held}

-- Closing the one descriptor and then the other frees the pipe, once.
abbrev pub Closes : Pipes → (addr a b : ℕ) → Type 0
Closes k addr a b = (k' : Pipes) × ((close_fd a k >>= close_fd b) ≡ some k') × Freed k addr k'

-- What `sys_pipe2` returns where all goes well.
abbrev pub Opens : (addr f0 f1 : ℕ) → Pipes → Piped → Type 0
Opens addr f0 f1 k none = ⊥
Opens addr f0 f1 k (some (err e, k')) = ⊥
Opens addr f0 f1 k (some (ok (a, b), k')) =
    (a < b)
    × (k.files.table a ≡ 0)
    × (k.files.table b ≡ 0)
    × Opened k' addr f0 f1 false a b
    × (k'.freed ≡ k.freed)
    × Closes k' addr a b
    × Closes k' addr b a

module _ (storage : List ℕ) (addr f0 f1 flags : ℕ) (k : Pipes) (g : Given addr f0 f1) where
  copyout_works :
      (r : Result (ℕ × ℕ)) (s : Files)
      → f1 ≢ 0
      → ¬ NoTwo k.files.table
      → AllocatedBoth (k2 storage addr f0 f1 flags k g).files r s
      → Shape f0 f1 (has_o_cloexec flags) (k2 storage addr f0 f1 flags k g).files r s
      → Opens addr f0 f1 k (pipe_copyout none addr f0 f1 (r, s) (k2 storage addr f0 f1 flags k g))
  unfolding pipe_copyout pipe_ends file_set_priv file_alloc
  copyout_works (err e) s live1 two same (flags_same, full) = absurd (two full)
  copyout_works (ok (a, b)) s live1 two (l, lb, ea, eb, bal) at =
      let k₂ = k2 storage addr f0 f1 flags k g in
      let n =
        placed-Entries f0 f1 (has_o_cloexec flags) k₂.files s a b g.even0 g.even1 g.live0 live1 l lb
          at in
      let h =
        Held-placed k₂ addr f0 f1 s (has_o_cloexec flags) a b (held storage addr f0 f1 flags k g)
          at in
      let (k', run, open_now, same) = unrefs-Opened (record k₂ { files = s }) addr f0 f1 a b h n in
      opens_then a b s k' run (
        l,
        ea,
        eb,
        open_now,
        same,
        close_both k' addr f0 f1 false a b open_now,
        close_both k' addr f1 f0 true b a (Opened-swap k' addr f0 f1 false a b open_now),
      )
    where
      opens_then :
          (a b : ℕ) (s : Files) (k' : Pipes)
          → (unref f0 (record (k2 storage addr f0 f1 flags k g) { files = s }) >>= unref f1)
            ≡ some k'
          → Opens addr f0 f1 k (some (ok (a, b), k'))
          → Opens addr f0 f1 k (
              unref f0 (record (k2 storage addr f0 f1 flags k g) { files = s }) >>= λ x.
              unref f1 x >>= λ y. some (ok (a, b), y))
      opens_then a b s k' run good =
          elim (unref f0 (record (k2 storage addr f0 f1 flags k g) { files = s }))
              as (λ o.
                (o >>= unref f1) ≡ some k'
                → Opens addr f0 f1 k (o >>= λ x. unref f1 x >>= λ y. some (ok (a, b), y))) [
                  | none ↦ λ p. absurd (cc)
                  | some x ↦ λ p. rw p good
                ]
            run

  -- With memory for the pipe and both files, two empty entries and a `copyout` that works, `sys_pipe2` returns
  -- two different descriptors that were empty, each the only holder of its end of an open pipe; and closing
  -- them in either order frees the pipe exactly once.
  pub sys_pipe2-Opens :
      (i j : ℕ)
      → f1 ≢ 0
      → i < proc_files
      → j < proc_files
      → i ≢ j
      → k.files.table i ≡ 0
      → k.files.table j ≡ 0
      → Opens addr f0 f1 k (sys_pipe2 storage addr f0 f1 none flags k)
  sys_pipe2-Opens i j live1 li lj apart ei ej =
      let two : ¬ NoTwo k.files.table = λ full. apart (full i j li lj ei ej) in
      let cloexec = has_o_cloexec flags in
      let k₂ = k2 storage addr f0 f1 flags k g in
      let ref : 0 < k₂.files.ref f0 =
        let h = held storage addr f0 f1 flags k g in let r = h.ref_f in omega arith in
      let both = fdalloc2-AllocatedBoth f0 f1 cloexec k₂.files g.even0 g.even1 g.live0 ref in
      let shape = fdalloc2-Shape f0 f1 cloexec k₂.files g.even0 g.even1 in
      let (r, s) = fdalloc2 f0 f1 cloexec k₂.files in
      subst (Opens addr f0 f1 k) (sym (to_copyout storage addr f0 f1 flags k g none live1))
        (copyout_works r s live1 two both shape)
