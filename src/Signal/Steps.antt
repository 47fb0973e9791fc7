-- ===== src/Signal/Steps.antt =====
-- The operations of kern/signal.c keep what Signal/Inv says.
use elos.Base.{ℕ, suc, ◌^◌, ◌<◌, Option, none, some, List, ◌==◌, arith, Bool-cases, inl, inr}
use elos.Sigset.{Sigset, nsig, sigcont, sigunblock}
use elos.Signal.{
  Signals, Call, Sender, Sent, sig_choose_thr, queue_proc, queue_thr, sent_to, queue_signal,
  kern_signal, change_mask, kern_sigprocmask, signal_set_mask, with_mask,
}
use elos.Signal.Branches.{kern_signal-cases}
use elos.Signal.Inv.{
  Inv, Counts-later, Counts-sigblock, Counts-sigunblock, Inv-later, Kept-later, put_thr-Inv,
}

module _ (k : ℕ) (few : suc k < 2 ^ 32) where
  queue_proc-Inv :
      (s : Signals) (sig : ℕ) → 0 < sig → sig < nsig → Inv k s → Inv (suc k) (queue_proc s sig)
  queue_proc-Inv s sig pos l i = record {
    proc = Counts-sigblock k s.proc.pending s.proc.npending sig few pos l i.proc;
    thr = λ t. Kept-later k (s.thr t) (i.thr t);
  }

  queue_thr-Inv :
      (s : Signals) (t sig : ℕ) → 0 < sig → sig < nsig → Inv k s → Inv (suc k) (queue_thr s t sig)
  queue_thr-Inv s t sig pos l i = put_thr-Inv (suc k) s t _ (Inv-later k s i) record {
    counts = Counts-sigblock k (s.thr t).pending (s.thr t).npending sig few pos l (i.thr t).counts;
    nested = record {
      inner = (i.thr t).nested.inner;
      few = omega (arith, (i.thr t).nested.few);
      off_stack = (i.thr t).nested.off_stack;
    };
  }

  -- the state that `kern_signal` leaves
  abbrev pub SentKeeps : Sent → Type 0
  SentKeeps none = Unit
  SentKeeps (some (r, s)) = Inv (suc k) s

  sent_to-Inv :
      (sig : ℕ) (s : Signals) (calls : List Call → List Call) (t : Option ℕ)
      → 0 < sig
      → sig < nsig
      → Inv k s
      → SentKeeps (sent_to sig s calls t)
  sent_to-Inv sig s calls none pos l i = tt
  sent_to-Inv sig s calls (some t) pos l i = queue_proc-Inv s sig pos l i

  queue_signal-Inv :
      (c : Sender) (thread : Option ℕ) (sig : ℕ) (s : Signals) (calls : List Call → List Call)
      → 0 < sig
      → sig < nsig
      → Inv k s
      → SentKeeps (queue_signal c thread sig s calls)
  unfolding queue_signal
  queue_signal-Inv c none sig s calls pos l i =
      sent_to-Inv sig s calls (sig_choose_thr c s sig) pos l i
  queue_signal-Inv c (some t) sig s calls pos l i = elim (Bool-cases (sig == sigcont)) [
    | inl cont ↦ rw cont (sent_to-Inv sig s calls (sig_choose_thr c s sig) pos l i)
    | inr other ↦ rw other (queue_thr-Inv s t sig pos l i)
  ]

  unqueue-Inv :
      (s : Signals)
      → Inv k s
      → Inv
          (suc k)
          (record s { proc = record s.proc { pending = sigunblock s.proc.pending sigcont } })
  unqueue-Inv s i = record {
    proc =
        Counts-later k _ _
          (Counts-sigunblock k s.proc.pending s.proc.npending sigcont (omega arith) i.proc);
    thr = λ t. Kept-later k (s.thr t) (i.thr t);
  }

  pub kern_signal-Inv :
      (c : Sender) (thread : Option ℕ) (sig : ℕ) (s : Signals)
      → Inv k s
      → SentKeeps (kern_signal c thread sig s)
  kern_signal-Inv c thread sig s i =
      kern_signal-cases SentKeeps c thread sig s (λ r. Inv-later k s i) (λ r. unqueue-Inv s i)
        (λ calls pos l. queue_signal-Inv c thread sig s calls pos l i)

  with_mask-Inv : (s : Signals) (t : ℕ) (m : Sigset) → Inv k s → Inv k (with_mask s t m)
  with_mask-Inv s t m i = put_thr-Inv k s t _ i record {
    counts = (i.thr t).counts;
    nested = record {
      inner = (i.thr t).nested.inner;
      few = (i.thr t).nested.few;
      off_stack = (i.thr t).nested.off_stack;
    };
  }

  change_mask-Inv :
      (t how : ℕ) (set : Option Sigset) (s : Signals) → Inv k s → Inv k (change_mask t how set s).1
  unfolding change_mask
  change_mask-Inv t how none s i = i
  change_mask-Inv t how (some set) s i = elim (Bool-cases (how == 0)) [
    | inl e ↦ rw e (with_mask-Inv s t _ i)
    | inr e ↦ elim (Bool-cases (how == 2)) [
      | inl f ↦ rw (e, f) (with_mask-Inv s t _ i)
      | inr f ↦ elim (Bool-cases (how == 1)) [
        | inl g ↦ rw (e, f, g) (with_mask-Inv s t _ i)
        | inr g ↦ rw (e, f, g) i
      ]
    ]
  ]

  pub kern_sigprocmask-Inv :
      (t how : ℕ) (set : Option Sigset) (s : Signals)
      → Inv k s
      → Inv (suc k) (kern_sigprocmask t how set s).1
  unfolding kern_sigprocmask
  kern_sigprocmask-Inv t how set s i =
      Inv-later k _ (change_mask-Inv t how set _ (with_mask-Inv s t _ i))

  pub signal_set_mask-Inv :
      (t : ℕ) (set : Sigset) (s : Signals) → Inv k s → Inv (suc k) (signal_set_mask t set s).1
  unfolding signal_set_mask
  signal_set_mask-Inv t set s i = Inv-later k _ (with_mask-Inv s t _ i)
