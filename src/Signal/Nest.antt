-- ===== src/Signal/Nest.antt =====
-- kern/signal.c: the levels of nested handlers and the alternate stack, from the start of a handler to its
-- return.
use elos.Base.{
  ℕ, suc, ◌+◌, ◌-◌, ◌%◌, ◌^◌, ◌<◌, ◌≡◌, ◌≢◌, refl, Bool, true, false, ◌&&◌, Option, none, some, not,
  ◌==◌, arith, Bool-cases, inl, inr,
}
use elos.Base.Errno.{Errno, Result, ok, err}
use elos.Sigset.{sigsegv}
use elos.Signal.{Sigthr, Signals, flag}
use elos.Signal.Intr.{
  run_handler, signal_cleanup, has_altstack, handler_mask, set_onstack, clear_onstack,
}
use elos.Signal.Calls.{Stack, set_stack, sys_sigaltstack}
use elos.Signal.Inv.{Nested, Kept}

-- `signal_cleanup` keeps the levels in order and passes its assertion inside a handler.
pub signal_cleanup-Kept :
    (k : ℕ) (t : Sigthr)
    → Kept k t
    → t.nesting_lvl ≢ 0
    → (t' : Sigthr) × (signal_cleanup t ≡ some t') × Kept k t'
unfolding signal_cleanup
signal_cleanup-Kept k t h inside =
    let some_left : (t.nesting_lvl == 0) ≡ false = ground arith in
    let inner = h.nested.inner in
    let few = h.nested.few in
    elim (Bool-cases (t.stack_lvl == t.nesting_lvl)) [
      | inl last ↦
          let t' : Sigthr = record t {
            ss_flags = clear_onstack t.ss_flags;
            stack_lvl = 0;
            nesting_lvl = t.nesting_lvl - 1;
          } in
          (
            t',
            rw (some_left, last) refl,
            record {
              counts = h.counts;
              nested = record { inner = omega arith; few = omega arith; off_stack = λ off. refl };
            },
          )
      | inr below ↦
          let t' : Sigthr = record t { nesting_lvl = t.nesting_lvl - 1 } in
          (
            t',
            rw (some_left, below) refl,
            record {
              counts = h.counts;
              nested = record {
                inner = ground arith;
                few = omega arith;
                off_stack = h.nested.off_stack;
              };
            },
          )
    ]

-- a stack that is not in use has no level
set_stack-Kept :
    (k : ℕ) (uss : Option (Result Stack)) (t : Sigthr) → Kept k t → Kept k (set_stack uss t).1
unfolding set_stack
set_stack-Kept k none t h = h
set_stack-Kept k (some (err e)) t h = h
set_stack-Kept k (some (ok ss)) t h =
    elim (Bool-cases (not (ss.flags == 0) && not (ss.flags == 2))) [
      | inl bad ↦ rw bad h
      | inr good ↦ elim (Bool-cases (flag t.ss_flags 0)) [
        | inl used ↦ rw (good, used) h
        | inr free ↦
            rw (good, free)
              record {
                counts = h.counts;
                nested = record {
                  inner = h.nested.inner;
                  few = h.nested.few;
                  off_stack = λ off. h.nested.off_stack free;
                };
              }
      ]
    ]

pub sys_sigaltstack-Kept :
    (k : ℕ) (uss : Option (Result Stack)) (oss : Option (Option Errno)) (t : Sigthr)
    → Kept k t
    → Kept k (sys_sigaltstack uss oss t).1
unfolding sys_sigaltstack
sys_sigaltstack-Kept k uss none t h = set_stack-Kept k uss t h
sys_sigaltstack-Kept k uss (some none) t h = set_stack-Kept k uss t h
sys_sigaltstack-Kept k uss (some (some e)) t h = h

-- Two threads with the same levels and stack.
pub record SameStack (t u : Sigthr) : Type 0 where
  pub sp : t.ss_sp ≡ u.ss_sp
  pub flags : t.ss_flags ≡ u.ss_flags
  pub size : t.ss_size ≡ u.ss_size
  pub nesting : t.nesting_lvl ≡ u.nesting_lvl
  pub level : t.stack_lvl ≡ u.stack_lvl

-- In the states of Signal/Inv, `signal_cleanup` after the start of a handler passes its assertion and
-- brings back the levels and the stack of the thread as they were, on the alternate stack or not.
pub signal_cleanup-run_handler :
    (k t sig : ℕ) (failed : Bool) (s : Signals)
    → suc k < 2 ^ 32
    → Nested k (s.thr t)
    → (u : Sigthr) × (signal_cleanup ((run_handler t sig failed s).1.thr t) ≡ some u)
      × SameStack u (s.thr t)
unfolding run_handler signal_cleanup
signal_cleanup-run_handler k t sig failed s few n =
    let th = s.thr t in
    let act = s.proc.sigacts sig in
    let m = handler_mask th act sig in
    let bound = n.few in
    let inner = n.inner in
    let lvl = (th.nesting_lvl + 1) % 2 ^ 32 in
    let up : lvl ≡ th.nesting_lvl + 1 = omega arith in
    let self : (t == t) ≡ true = ground arith in
    let some_left : (lvl == 0) ≡ false = ground arith in
    let plain_case : (th.stack_lvl == lvl) ≡ false = ground arith in
    let down : lvl - 1 ≡ th.nesting_lvl = omega arith in
    let kept : Sigthr = record th { mask = m; nesting_lvl = lvl - 1 } in
    let kept_same : SameStack kept th = record {
      sp = refl;
      flags = refl;
      size = refl;
      nesting = down;
      level = refl;
    } in
    elim (Bool-cases (has_altstack act th)) [
      | inl alt ↦
          let off : flag th.ss_flags 0 ≡ false = ground arith in
          let none_before = n.off_stack off in
          let even : th.ss_flags % 2 ≡ 0 = ground arith in
          let back : clear_onstack (set_onstack th.ss_flags) ≡ th.ss_flags = omega arith in
          let same_lvl : (lvl == lvl) ≡ true = ground arith in
          let u : Sigthr = record th {
            mask = m;
            ss_flags = clear_onstack (set_onstack th.ss_flags);
            stack_lvl = 0;
            nesting_lvl = lvl - 1;
          } in
          (
            u,
            rw (alt, self, some_left, same_lvl) refl,
            record {
              sp = refl;
              flags = back;
              size = refl;
              nesting = down;
              level = omega (arith, none_before);
            },
          )
      | inr plain ↦ elim (Bool-cases (sig == sigsegv)) [
        | inl segv ↦ (kept, rw (plain, segv, self, some_left, plain_case) refl, kept_same)
        | inr other ↦ (kept, rw (plain, other, self, some_left, plain_case) refl, kept_same)
      ]
    ]
