-- ===== src/Signal/Handle.antt =====
-- Handling a signal and returning from its handler keep what Signal/Inv says, and so do the system calls.
use elos.Base.{
  ℕ, suc, ◌+◌, ◌-◌, ◌/◌, ◌%◌, ◌^◌, ◌<◌, ◌≡◌, Bool, ◌&&◌, not, ◌==◌, arith, Bool-cases, inl, inr,
  subst, sym,
}
use elos.Sigset.{Sigset, sigcont, sigkill, sigsegv}
use elos.Signal.{
  Sigproc, Sigthr, Signals, put_thr, sigdefault, is_dfl, is_ign, SigAct, sigact_term, sigact_ign,
  sigact_stop, sigact_cont,
}
use elos.Signal.Intr.{
  signext, take_thr, run_handler, default_action, act_on, signal_intr, has_altstack, reset_handler,
  handler_mask, set_onstack, sync_acquire, sync_release,
}
use elos.Signal.Inv.{
  Counts, Nested, Kept, Inv, Counts-later, Counts-sigunblock, Counts-take_proc, Counts-take_thr,
  Inv-later, Kept-later, Nested-later, put_thr-Inv,
}
use elos.Signal.Next.{Next, signext-Next}

-- The lock does not matter.
release-Inv : (k : ℕ) (s : Signals) → Inv k s → Inv k (sync_release s)
release-Inv k s i = record { proc = i.proc; thr = i.thr }

module _ (k : ℕ) (few : suc k < 2 ^ 32) where
  -- another `proc` with the same pending set
  reset-Inv :
      (s : Signals) (sig : ℕ)
      → Inv (suc k) s
      → Inv (suc k) (sync_release (record s { proc = reset_handler s.proc sig }))
  reset-Inv s sig i = record { proc = ground (arith, i.proc); thr = i.thr }

  on_stack-Nested :
      (t : Sigthr) (m : Sigset)
      → Nested k t
      → Nested (suc k) record t {
        mask = m;
        nesting_lvl = (t.nesting_lvl + 1) % 2 ^ 32;
        stack_lvl = (t.nesting_lvl + 1) % 2 ^ 32;
        ss_flags = set_onstack t.ss_flags;
      }
  on_stack-Nested t m n =
      let bound = n.few in
      let up : (t.nesting_lvl + 1) % 2 ^ 32 ≡ t.nesting_lvl + 1 = omega arith in
      record {
        inner = omega arith;
        few = omega arith;
        off_stack = λ off.
            let odd : (t.ss_flags - t.ss_flags % 2 + 1) / 1 % 2 ≡ 1 = omega arith in
            absurd (ground arith);
      }

  masked-Nested :
      (t : Sigthr) (m : Sigset)
      → Nested k t
      → Nested (suc k) record t { mask = m; nesting_lvl = (t.nesting_lvl + 1) % 2 ^ 32 }
  masked-Nested t m n =
      let bound = n.few in
      let inner = n.inner in
      let up : (t.nesting_lvl + 1) % 2 ^ 32 ≡ t.nesting_lvl + 1 = omega arith in
      record { inner = omega arith; few = omega arith; off_stack = n.off_stack }

  run_handler-Inv :
      (t sig : ℕ) (failed : Bool) (s : Signals)
      → Nested k (s.thr t)
      → Inv (suc k) s
      → Inv (suc k) (run_handler t sig failed s).1
  unfolding run_handler
  run_handler-Inv t sig failed s n i =
      let reset = reset-Inv s sig i in
      let act = s.proc.sigacts sig in
      let m = handler_mask (s.thr t) act sig in
      let masked =
        put_thr-Inv (suc k) _ t _ reset
          record { counts = (i.thr t).counts; nested = masked-Nested (s.thr t) m n } in
      elim (Bool-cases (has_altstack act (s.thr t))) [
        | inl alt ↦ rw alt (
            put_thr-Inv (suc k) _ t _ reset
              record { counts = (i.thr t).counts; nested = on_stack-Nested (s.thr t) m n })
        | inr plain ↦ elim (Bool-cases (sig == sigsegv)) [
          | inl segv ↦ rw (plain, segv) masked
          | inr other ↦ rw (plain, other) masked
        ]
      ]

  default_action-Inv :
      (act : SigAct) (sig : ℕ) (s : Signals)
      → Inv (suc k) s
      → Inv (suc k) (default_action act sig s).1
  unfolding default_action
  default_action-Inv sigact_term sig s i = release-Inv (suc k) s i
  default_action-Inv sigact_stop sig s i = record {
    proc = Counts-sigunblock (suc k) s.proc.pending s.proc.npending sigcont (omega arith) i.proc;
    thr = i.thr;
  }
  default_action-Inv sigact_cont sig s i = release-Inv (suc k) s i
  default_action-Inv sigact_ign sig s i = i

  act_on-Inv :
      (t sig : ℕ) (failed : Bool) (s : Signals)
      → Nested k (s.thr t)
      → Inv (suc k) s
      → Inv (suc k) (act_on t sig failed s).1
  unfolding act_on
  act_on-Inv t sig failed s n i =
      let handler = (s.proc.sigacts sig).sa_handler in
      elim (Bool-cases (sig == sigkill)) [
        | inl kill ↦ rw kill (release-Inv (suc k) s i)
        | inr other ↦ elim (Bool-cases (is_ign handler && not (sig == sigsegv))) [
          | inl ign ↦ rw (other, ign) (release-Inv (suc k) s i)
          | inr take ↦ elim (Bool-cases (is_dfl handler)) [
            | inl dfl ↦ rw (other, take, dfl) (default_action-Inv (sigdefault sig) sig s i)
            | inr own ↦ rw (other, take, own) (run_handler-Inv t sig failed s n i)
          ]
        ]
      ]

  -- what `signext` leaves
  signext-Counts :
      (p : Sigproc) (t : Sigthr)
      → Counts k p.pending p.npending
      → Kept k t
      → Next p t (signext p t)
      → Counts (suc k) (signext p t).1.pending (signext p t).1.npending
        × Kept (suc k) (signext p t).2
        × Nested k (signext p t).2
  signext-Counts p t cp kt (inl (e, same_p, same_t, clear)) =
      rw (same_p, same_t) (Counts-later k _ _ cp, Kept-later k t kt, kt.nested)
  signext-Counts p t cp kt (inr (first, low, inl (at, in_p, same_t))) =
      rw (in_p, same_t)
        (
          Counts-later k _ _ (Counts-take_proc k p.pending p.npending _ few low at cp),
          Kept-later k t kt,
          kt.nested,
        )
  signext-Counts p t cp kt (inr (first, low, inr (out, same_p, in_t))) =
      let n : Nested k (take_thr t (signext p t).0) = record {
        inner = kt.nested.inner;
        few = kt.nested.few;
        off_stack = kt.nested.off_stack;
      } in
      rw (same_p, in_t)
        (
          Counts-later k _ _ cp,
          record {
            counts = Counts-take_thr k t.pending t.npending _ few low kt.counts;
            nested = Nested-later k _ n;
          },
          n,
        )

  pub signal_intr-Inv :
      (t : ℕ) (failed : Bool) (s : Signals) → Inv k s → Inv (suc k) (signal_intr t failed s).1
  unfolding signal_intr
  signal_intr-Inv t failed s i =
      let next = signext-Next k s.proc (s.thr t) i.proc (i.thr t).counts in
      let (cp, kt, n) = signext-Counts s.proc (s.thr t) i.proc (i.thr t) next in
      let (sig, p, th) = signext s.proc (s.thr t) in
      let s1 : Signals = record (sync_acquire s) { proc = p } in
      let i1 : Inv (suc k) s1 = record { proc = cp; thr = λ j. Kept-later k (s.thr j) (i.thr j) } in
      let at : (put_thr s1 t th).thr t ≡ th = ground arith in
      elim (Bool-cases (sig == 0)) [
        | inl idle ↦ rw idle (release-Inv (suc k) s (Inv-later k s i))
        | inr busy ↦ rw busy (
            act_on-Inv t sig failed (put_thr s1 t th) (subst (Nested k) (sym at) n)
              (put_thr-Inv (suc k) s1 t th i1 kt))
      ]
