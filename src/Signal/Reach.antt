-- ===== src/Signal/Reach.antt =====
-- kern/signal.c: signals in any order of sending, masking, handling and returning.
use elos.Base.{
  ℕ, suc, ◌^◌, ◌<◌, ◌≡◌, ◌≢◌, ◌↔◌, refl, Bool, true, false, Option, some, List, arith, Bool-cases,
  inl, inr, sym, subst,
}
use elos.Base.Errno.{Errno, Result}
use elos.Sigset.{Sigset, empty}
use elos.Signal.{
  Sigaction, Sigthr, Signals, Call, put_thr, Sender, kern_signal, kern_sigprocmask, signal_set_mask,
  any_sigpending,
}
use elos.Signal.Intr.{deliverable, signext, signal_intr, signal_cleanup}
use elos.Signal.Calls.{Stack, sigthr_init, sys_sigaltstack, put_act, sigproc_exec}
use elos.Signal.Inv.{Kept, Inv, Counts-empty, Counts-later, Inv-later, Kept-later, put_thr-Inv}
use elos.Signal.Steps.{SentKeeps, kern_signal-Inv, kern_sigprocmask-Inv, signal_set_mask-Inv}
use elos.Signal.Handle.{signal_intr-Inv}
use elos.Signal.Nest.{signal_cleanup-Kept, sys_sigaltstack-Kept}
use elos.Signal.Next.{Next, signext-Next, idle-deliverable, any_sigpending-deliverable}

-- A process that has just started or was forked, with any actions and masks.
abbrev pub started : (sigacts : ℕ → Sigaction) → (masks : ℕ → Sigset) → (threads : List ℕ) → Signals
started sigacts masks threads = record {
  proc = record { sigacts = sigacts; pending = empty; npending = 0 };
  thr = λ t. record sigthr_init { mask = masks t };
  threads = threads;
  exited = false;
  locked = false;
}

-- One operation. A thread returns from a handler only inside one.
pub data Step (s : Signals) : Signals → Type 0 where
  send :
      (c : Sender) (thread : Option ℕ) (sig : ℕ) (r : Result (List Call)) (after : Signals)
      → kern_signal c thread sig s ≡ some (r, after)
      → Step s after
  block : (t how : ℕ) (set : Option Sigset) → Step s (kern_sigprocmask t how set s).1
  replace : (t : ℕ) (set : Sigset) → Step s (signal_set_mask t set s).1
  handle : (t : ℕ) (failed : Bool) → Step s (signal_intr t failed s).1
  back :
      (t : ℕ) (u : Sigthr)
      → (s.thr t).nesting_lvl ≢ 0
      → signal_cleanup (s.thr t) ≡ some u
      → Step s (put_thr s t u)
  altstack :
      (t : ℕ) (uss : Option (Result Stack)) (oss : Option (Option Errno))
      → Step s (put_thr s t (sys_sigaltstack uss oss (s.thr t)).1)
  action : (sig : ℕ) (act : Sigaction) → Step s (put_act s sig act)
  exec : (t : ℕ) → Step s (sigproc_exec t s)
  exit : Step s (record s { exited = true })

-- the states after `k` operations
pub data Reach : ℕ → Signals → Type 0 where
  start :
      (sigacts : ℕ → Sigaction) (masks : ℕ → Sigset) (threads : List ℕ)
      → Reach 0 (started sigacts masks threads)
  later : {k : ℕ} {s u : Signals} → Reach k s → Step s u → Reach (suc k) u

some_inj : {A : Type 0} {a b : A} → ◌≡◌ {A = Option A} (some a) (some b) → a ≡ b
some_inj e = cc

sigproc_exec-Inv : (k t : ℕ) (s : Signals) → Inv k s → Inv k (sigproc_exec t s)
unfolding sigproc_exec
sigproc_exec-Inv k t s i =
    put_thr-Inv k _ t _ record { proc = Counts-empty k; thr = i.thr }
      record {
        counts = Counts-empty k;
        nested = record {
          inner = (i.thr t).nested.inner;
          few = (i.thr t).nested.few;
          off_stack = (i.thr t).nested.off_stack;
        };
      }

Step-Inv : (k : ℕ) (s u : Signals) → suc k < 2 ^ 32 → Inv k s → Step s u → Inv (suc k) u
Step-Inv k s u few i (send c thread sig r after e) =
    subst (SentKeeps k few) e (kern_signal-Inv k few c thread sig s i)
Step-Inv k s _ few i (block t how set) = kern_sigprocmask-Inv k few t how set s i
Step-Inv k s _ few i (replace t set) = signal_set_mask-Inv k few t set s i
Step-Inv k s _ few i (handle t failed) = signal_intr-Inv k few t failed s i
Step-Inv k s _ few i (back t u inside e) =
    let (v, run, h) = signal_cleanup-Kept k (s.thr t) (i.thr t) inside in
    let same : u ≡ v = some_inj (cc) in
    put_thr-Inv (suc k) s t u (Inv-later k s i) (subst (Kept (suc k)) (sym same) (Kept-later k v h))
Step-Inv k s _ few i (altstack t uss oss) =
    put_thr-Inv (suc k) s t _ (Inv-later k s i)
      (Kept-later k _ (sys_sigaltstack-Kept k uss oss (s.thr t) (i.thr t)))
Step-Inv k s _ few i (action sig act) = record {
  proc = Counts-later k _ _ i.proc;
  thr = λ t. Kept-later k (s.thr t) (i.thr t);
}
Step-Inv k s _ few i (exec t) = Inv-later k _ (sigproc_exec-Inv k t s i)
Step-Inv k s _ few i exit = record {
  proc = Counts-later k _ _ i.proc;
  thr = λ t. Kept-later k (s.thr t) (i.thr t);
}

pub Reach-Inv : (k : ℕ) (s : Signals) → k < 2 ^ 32 → Reach k s → Inv k s
Reach-Inv _ _ few (start sigacts masks threads) = record {
  proc = Counts-empty 0;
  thr = λ t. record {
    counts = Counts-empty 0;
    nested = record { inner = omega arith; few = omega arith; off_stack = λ off. refl };
  };
}
Reach-Inv _ u few (later {k} {s} r step) = Step-Inv k s u few (Reach-Inv k s (omega arith) r) step

-- After any fewer than 2^32 operations SIGPENDING of a thread is true exactly if some signal that the
-- thread does not block is pending for it or for the process.
pub any_sigpending_iff :
    (k : ℕ) (s : Signals) (t : ℕ)
    → k < 2 ^ 32
    → Reach k s
    → (any_sigpending s.proc (s.thr t) ≡ true)
      ↔ ((sig : ℕ) × (deliverable s.proc (s.thr t) sig ≡ true))
any_sigpending_iff k s t few r =
    let i = Reach-Inv k s few r in
    (
      λ on. let (sig, pos, at) = any_sigpending-deliverable s.proc (s.thr t) on in (sig, at),
      λ (sig, at). elim (Bool-cases (any_sigpending s.proc (s.thr t))) [
        | inl on ↦ on
        | inr off ↦
            let clear = idle-deliverable k s.proc (s.thr t) i.proc (i.thr t).counts off sig in
            absurd (cc)
      ],
    )

-- After any fewer than 2^32 operations `signext` takes the preferred one of these signals, from the set of
-- the process if it is there and else from that of the thread, and returns 0 only without one.
pub signext_lem :
    (k : ℕ) (s : Signals) (t : ℕ)
    → k < 2 ^ 32
    → Reach k s
    → Next s.proc (s.thr t) (signext s.proc (s.thr t))
signext_lem k s t few r =
    let i = Reach-Inv k s few r in signext-Next k s.proc (s.thr t) i.proc (i.thr t).counts
