-- ===== src/Signal/Branches.antt =====
-- The branches of `kern_signal`.
use elos.Base.{
  ℕ, ◌<◌, ◌&&◌, ◌||◌, not, Option, some, List, ◌==◌, leb, arith, Bool-cases, inl, inr, leb_false→lt,
}
use elos.Base.Errno.{Result}
use elos.Sigset.{nsig, sigcont, sigstop, sigunblock}
use elos.Signal.{
  Signals, Call, Sender, Sent, sigperm, sigdefault, is_dfl, is_ign, is_stop, is_term, sigmayign,
  queue_signal, kern_signal,
}

-- SIGCONT is taken out of the set of the process
abbrev pub unqueued : Signals → Signals
unqueued s = record s { proc = record s.proc { pending = sigunblock s.proc.pending sigcont } }

-- `kern_signal` leaves the state, takes SIGCONT out, or goes on to the choice of a thread.
pub kern_signal-cases :
    (P : Sent → Type 0) (c : Sender) (thread : Option ℕ) (sig : ℕ) (s : Signals)
    → ((r : Result (List Call)) → P (some (r, s)))
    → ((r : Result (List Call)) → P (some (r, unqueued s)))
    → ((calls : List Call → List Call)
        → 0 < sig
        → sig < nsig
        → P (queue_signal c thread sig s calls))
    → P (kern_signal c thread sig s)
unfolding kern_signal
kern_signal-cases P c thread sig s same out queue =
    let handler = (s.proc.sigacts sig).sa_handler in
    elim (Bool-cases (leb nsig sig)) [
      | inl big ↦ rw big (same _)
      | inr low ↦ elim (Bool-cases (sigperm c)) [
        | inr no_perm ↦ rw (low, no_perm) (same _)
        | inl perm ↦ elim (Bool-cases (sig == 0 || s.exited)) [
          | inl skip ↦ rw (low, perm, skip) (same _)
          | inr there ↦ elim (Bool-cases (is_ign handler && sigmayign sig)) [
            | inl ign ↦ rw (low, perm, there, ign) (same _)
            | inr take ↦
                elim (Bool-cases (sig == sigstop || (is_dfl handler && is_stop (sigdefault sig)))) [
                  | inl stop ↦ rw (low, perm, there, take, stop) (out _)
                  | inr go ↦ elim (Bool-cases (is_dfl handler && not (is_term (sigdefault sig)))) [
                    | inl dfl ↦ rw (low, perm, there, take, go, dfl) (same _)
                    | inr handled ↦
                        rw (low, perm, there, take, go, handled)
                          (queue _ (ground arith) (leb_false→lt _ _ low))
                  ]
                ]
          ]
        ]
      ]
    ]
