-- ===== src/Signal/Tests.antt =====
-- kern/signal.c with two threads, of which the first blocks SIGUSR1, and a handler for that signal.
use elos.Base.{ℕ, ◌≡◌, ◌≢◌, ◌↔◌, refl, true, false, none, some, [], ◌∷◌, ◌==◌, if◌then◌else◌, arith}
use elos.Base.Errno.{ok}
use elos.Sigset.{empty, sigblock, sigkill, sigpending, any_from, sigset_ffs, search_from}
use elos.Sigset.Laws.{Preferred}
use elos.Signal.{
  sig_dfl, user, Sigaction, Sigthr, Signals, thread_signal, Sender, sigperm, sigdefault, roused,
  queue_signal, kern_signal, kern_sigprocmask, queue_proc, queue_thr, any_sigpending,
}
use elos.Signal.Intr.{
  deliverable, signext, signal_intr, default_action, run_handler, signal_cleanup,
}
use elos.Signal.Next.{Next}
use elos.Signal.Reach.{Reach, started, start, later, send, any_sigpending_iff, signext_lem}
use elos.Signal.Send.{Handled, kern_signal-signext, kern_signal_first_blocks}
use elos.Signal.Faults.{kern_sigprocmask_blocks_kill, DefaultIgnored, signal_intr-locked}
use elos.Signal.Nest.{SameStack, signal_cleanup-run_handler}

abbrev acts : ℕ → Sigaction
acts i = record { sa_handler = if i == 10 then user 99 else sig_dfl; sa_flags = 0; sa_mask = empty }

abbrev fresh : Signals
fresh = started acts (λ t. if t == 7 then sigblock empty 10 else empty) (7 ∷ 8 ∷ [])

fresh-Reach : Reach 0 fresh
fresh-Reach = start acts (λ t. if t == 7 then sigblock empty 10 else empty) (7 ∷ 8 ∷ [])

abbrev kernel : Sender
kernel = record { kern = true; uid = 5; euid = 5; cur = none; proc_uid = 6; proc_suid = 6 }

usr1-Handled : Handled kernel fresh 10
unfolding sigperm
usr1-Handled = record {
  positive = omega arith;
  small = omega arith;
  not_cont = refl;
  not_stop = refl;
  permitted = refl;
  running = refl;
  handler = 99;
  own = refl;
}

abbrev one_sent : Signals
one_sent = queue_thr fresh 8 10

kern_signal-signext_example :
    (kern_signal kernel (some 8) 10 fresh ≡ some (ok (thread_signal 8 false ∷ []), one_sent))
    × (deliverable one_sent.proc (one_sent.thr 8) 10 ≡ true)
    × Preferred
        (deliverable one_sent.proc (one_sent.thr 8))
        (signext one_sent.proc (one_sent.thr 8)).0
kern_signal-signext_example =
    kern_signal-signext 0 kernel fresh 8 10 (omega arith) fresh-Reach usr1-Handled refl

kern_signal_first_blocks_example :
    kern_signal kernel none 10 fresh ≡ some (ok [], queue_proc fresh 10)
kern_signal_first_blocks_example =
    kern_signal_first_blocks 0 kernel fresh 7 (8 ∷ []) 10 (omega arith) fresh-Reach usr1-Handled
      refl refl refl refl

sent-Reach : Reach 1 one_sent
sent-Reach = later fresh-Reach (
    send kernel (some 8) 10 (ok (thread_signal 8 false ∷ [])) one_sent
      kern_signal-signext_example.0)

any_sigpending_iff_example :
    (any_sigpending one_sent.proc (one_sent.thr 8) ≡ true)
    ↔ ((sig : ℕ) × (deliverable one_sent.proc (one_sent.thr 8) sig ≡ true))
any_sigpending_iff_example = any_sigpending_iff 1 one_sent 8 (omega arith) sent-Reach

signext_lem_example : Next one_sent.proc (one_sent.thr 8) (signext one_sent.proc (one_sent.thr 8))
signext_lem_example = signext_lem 1 one_sent 8 (omega arith) sent-Reach

one_sent_next : (signext one_sent.proc (one_sent.thr 8)).0 ≡ 10
unfolding signext sigset_ffs search_from sigpending any_from
one_sent_next = refl

abbrev kill_masked : Signals
kill_masked = (kern_sigprocmask 8 0 (some (sigblock empty sigkill)) fresh).1

abbrev kill_sent : Signals
kill_sent = queue_thr kill_masked 8 sigkill

kill_sent_quietly : kern_signal kernel (some 8) sigkill kill_masked ≡ some (ok [], kill_sent)
unfolding kern_signal queue_signal roused kern_sigprocmask sigperm sigdefault sigpending any_from
kill_sent_quietly = refl

kern_sigprocmask_blocks_kill_example :
    ((kill_sent.thr 8).mask sigkill ≡ true)
    × ((signext kill_sent.proc (kill_sent.thr 8)).0 ≢ sigkill)
kern_sigprocmask_blocks_kill_example =
    kern_sigprocmask_blocks_kill 0 fresh 8 (sigblock empty sigkill) kernel (some 8) (ok [])
      kill_sent (omega arith) fresh-Reach refl kill_sent_quietly

-- a child has ended, and the handler for SIGCHLD was taken away before the thread looked
abbrev child_ended : Signals
child_ended = record fresh {
  proc = record fresh.proc { pending = sigblock empty 17; npending = 1 };
}

signal_intr-locked_example :
    ((signal_intr 8 false child_ended).1.locked ≡ true) ↔ DefaultIgnored child_ended 8
signal_intr-locked_example = signal_intr-locked 8 false child_ended

child_locked : (signal_intr 8 false child_ended).1.locked ≡ true
unfolding signal_intr default_action sigdefault signext sigset_ffs search_from sigpending any_from
child_locked = refl

signal_cleanup-run_handler_example :
    (u : Sigthr) × (signal_cleanup ((run_handler 8 10 false fresh).1.thr 8) ≡ some u)
    × SameStack u (fresh.thr 8)
signal_cleanup-run_handler_example =
    signal_cleanup-run_handler 0 8 10 false fresh (omega arith)
      record { inner = omega arith; few = omega arith; off_stack = λ off. refl }
