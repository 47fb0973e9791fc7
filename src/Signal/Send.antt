-- ===== src/Signal/Send.antt =====
-- kern/signal.c: what becomes of a signal that is sent to a thread or to a process with a handler for it.
use elos.Base.{
  ℕ, suc, ◌^◌, ◌<◌, ◌≡◌, refl, true, false, Option, none, some, List, [], ◌∷◌, if◌then◌else◌, ◌==◌,
  leb, arith, Bool-cases, inl, inr, ap, sym, ◌∙◌,
}
use elos.Base.Errno.{ok}
use elos.Sigset.{nsig, sigcont, sigstop}
use elos.Sigset.Laws.{Preferred}
use elos.Signal.{
  user, Signals, Call, thread_signal, flag, Sender, sigperm, any_sigpending, sig_choose_thr,
  queue_proc, queue_thr, queue_signal, roused, kern_signal,
}
use elos.Signal.Intr.{deliverable, signext}
use elos.Signal.Next.{any_sigpending-deliverable, idle-deliverable}
use elos.Signal.Reach.{Reach, later, send, any_sigpending_iff, signext_lem, Reach-Inv}

-- A signal that is permitted, has an action and a handler of its own, and neither stops nor continues.
pub record Handled (c : Sender) (s : Signals) (sig : ℕ) : Type 0 where
  pub positive : 0 < sig
  pub small : sig < nsig
  pub not_cont : (sig == sigcont) ≡ false
  pub not_stop : (sig == sigstop) ≡ false
  pub permitted : sigperm c ≡ true
  pub running : s.exited ≡ false
  pub handler : ℕ
  pub own : (s.proc.sigacts sig).sa_handler ≡ user handler

-- such a signal is put into a pending set
kern_signal-Handled :
    (c : Sender) (thread : Option ℕ) (s : Signals) (sig : ℕ)
    → Handled c s sig
    → kern_signal c thread sig s ≡ queue_signal c thread sig s (λ rest. rest)
unfolding kern_signal
kern_signal-Handled c thread s sig h =
    let pos = h.positive in
    let small = h.small in
    let low : leb nsig sig ≡ false = ground arith in
    let not_zero : (sig == 0) ≡ false = ground arith in
    rw (h.own, low, h.permitted, not_zero, h.running, h.not_stop, h.not_cont) refl

pub kern_signal-signext :
    (k : ℕ) (c : Sender) (s : Signals) (t sig : ℕ)
    → suc k < 2 ^ 32
    → Reach k s
    → Handled c s sig
    → (s.thr t).mask sig ≡ false
    → let after = queue_thr s t sig in
      (kern_signal c (some t) sig s
        ≡ some (ok (thread_signal t (flag (s.proc.sigacts sig).sa_flags 28) ∷ []), after))
      × (deliverable after.proc (after.thr t) sig ≡ true)
      × Preferred (deliverable after.proc (after.thr t)) (signext after.proc (after.thr t)).0
unfolding queue_signal roused
kern_signal-signext k c s t sig few r h free =
    let after = queue_thr s t sig in
    let calls : List Call =
      if any_sigpending after.proc (after.thr t)
      then thread_signal t (flag (s.proc.sigacts sig).sa_flags 28) ∷ []
      else [] in
    let sent : kern_signal c (some t) sig s ≡ some (ok calls, after) =
      kern_signal-Handled c (some t) s sig h ∙ rw (h.not_cont) refl in
    let r' = later r (send c (some t) sig (ok calls) after sent) in
    let self : (t == t) ≡ true = ground arith in
    let here : (sig == sig) ≡ true = ground arith in
    let there : deliverable after.proc (after.thr t) sig ≡ true = rw (self, here, free) refl in
    let on = (any_sigpending_iff (suc k) after t few r').1 (sig, there) in
    (
      sent ∙ rw on refl,
      there,
      elim (signext_lem (suc k) after t few r') [
        | inl (e, same_p, same_t, clear) ↦ let off = clear sig in absurd (cc)
        | inr (first, low, rest) ↦ first
      ],
    )

-- A signal with a handler, other than SIGCONT and SIGSTOP, that a permitted sender from outside sends to a
-- running process goes to its first thread: if that blocks
-- the signal and has nothing else to take, no thread is interrupted, whatever the other threads block.
pub kern_signal_first_blocks :
    (k : ℕ) (c : Sender) (s : Signals) (t : ℕ) (others : List ℕ) (sig : ℕ)
    → suc k < 2 ^ 32
    → Reach k s
    → Handled c s sig
    → c.cur ≡ none
    → s.threads ≡ t ∷ others
    → (s.thr t).mask sig ≡ true
    → any_sigpending s.proc (s.thr t) ≡ false
    → kern_signal c none sig s ≡ some (ok [], queue_proc s sig)
unfolding queue_signal roused sig_choose_thr
kern_signal_first_blocks k c s t others sig few r h outside threads blocked idle =
    let after = queue_proc s sig in
    let calls : List Call =
      if any_sigpending after.proc (after.thr t)
      then thread_signal t (flag (s.proc.sigacts sig).sa_flags 28) ∷ []
      else [] in
    let sent : kern_signal c none sig s ≡ some (ok calls, after) =
      kern_signal-Handled c none s sig h ∙ rw (outside, threads, blocked) refl in
    let i = Reach-Inv k s (omega arith) r in
    elim (Bool-cases (any_sigpending after.proc (after.thr t))) [
      | inr off ↦ sent ∙ rw off refl
      | inl on ↦
          let (j, pos, at) = any_sigpending-deliverable after.proc (after.thr t) on in
          let before = idle-deliverable k s.proc (s.thr t) i.proc (i.thr t).counts idle j in
          elim (Bool-cases (sig == j)) [
            | inr other ↦ absurd (ground arith)
            | inl same ↦
                let e : sig ≡ j = ground arith in
                let masked : (s.thr t).mask j ≡ true = ap (s.thr t).mask (sym e) ∙ blocked in
                absurd (ground arith)
          ]
    ]
