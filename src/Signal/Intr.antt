-- ===== src/Signal/Intr.antt =====
-- kern/signal.c: which signal a thread handles next, how it is handled on the way back to user mode, and
-- the return from a handler.
use elos.Base.{
  ℕ, ◌+◌, ◌-◌, ◌%◌, ◌^◌, Bool, true, false, ◌&&◌, not, Option, none, some, List, [], ◌∷◌,
  if◌then◌else◌, ◌==◌,
}
use elos.Sigset.{
  Sigset, sigkill, sigsegv, sigcont, sigill, sigtrap, sigblock, sigunblock, sigblocked, sigset_or,
  sigset_nand, sigset_ffs, sigmask_fix,
}
use elos.Signal.{
  sig_dfl, is_ign, is_dfl, Sigaction, flag, Sigproc, Sigthr, Signals, Call, proc_stop, proc_cont,
  exit_proc, sig_handle, SigAct, sigact_term, sigact_ign, sigact_stop, sigact_cont, sigdefault,
  any_sigpending, put_thr,
}

-- the signals that `signext` looks at
abbrev pub deliverable : Sigproc → Sigthr → Sigset
deliverable p t = sigset_nand (sigset_or t.pending p.pending) t.mask

abbrev pub take_proc : Sigproc → ℕ → Sigproc
take_proc p sig = record p {
  npending = (p.npending + 2 ^ 32 - 1) % 2 ^ 32;
  pending = sigunblock p.pending sig;
}

-- the code counts up here, too
abbrev pub take_thr : Sigthr → ℕ → Sigthr
take_thr t sig = record t {
  npending = (t.npending + 1) % 2 ^ 32;
  pending = sigunblock t.pending sig;
}

-- the signal, or 0; the action is that of the signal
unfoldable pub signext : Sigproc → Sigthr → ℕ × Sigproc × Sigthr
signext p t =
    let sig = sigset_ffs (deliverable p t) in
    if not (any_sigpending p t)
    then (0, p, t)
    else if sig == 0
    then (0, p, t)
    else if sigblocked p.pending sig
    then (sig, take_proc p sig, t)
    else (sig, p, take_thr t sig)

abbrev pub ss_onstack : ℕ
ss_onstack = 1

-- `ss_flags |= SS_ONSTACK` and `ss_flags &= ~SS_ONSTACK`
abbrev pub set_onstack : ℕ → ℕ
set_onstack w = w - w % 2 + ss_onstack

abbrev pub clear_onstack : ℕ → ℕ
clear_onstack w = w - w % 2

-- the stack is there and not in use
abbrev pub has_altstack : Sigaction → Sigthr → Bool
has_altstack act t = flag act.sa_flags 27 && not (flag t.ss_flags 1) && not (flag t.ss_flags 0)

abbrev pub reset_handler : Sigproc → ℕ → Sigproc
reset_handler p sig =
    let act = p.sigacts sig in
    let flags = if flag act.sa_flags 2 then act.sa_flags - 4 else act.sa_flags in
    let reset : Sigaction = record act { sa_handler = sig_dfl; sa_flags = flags } in
    if flag act.sa_flags 31 && not (sig == sigill) && not (sig == sigtrap)
    then record p { sigacts = λ i. if sig == i then reset else p.sigacts i }
    else p

abbrev pub handler_mask : Sigthr → Sigaction → ℕ → Sigset
handler_mask t act sig =
    let m = sigset_or t.mask act.sa_mask in
    sigmask_fix (if flag act.sa_flags 30 then m else sigblock m sig)

-- `sync_acquire` and `sync_release` of the lock of the process's signals. A caller that finds it held
-- waits for it, and then holds it.
abbrev pub sync_acquire : Signals → Signals
sync_acquire s = record s { locked = true }

abbrev pub sync_release : Signals → Signals
sync_release s = record s { locked = false }

-- Running a handler, with the lock held until the action is copied; `failed` is what `arch_sig_handle` returns.
unfoldable pub run_handler : (t sig : ℕ) → (failed : Bool) → Signals → List Call × Signals
run_handler t sig failed s =
    let act = s.proc.sigacts sig in
    let th = s.thr t in
    let lvl = (th.nesting_lvl + 1) % 2 ^ 32 in
    let masked = record th { mask = handler_mask th act sig; nesting_lvl = lvl } in
    let on_stack = record masked { stack_lvl = lvl; ss_flags = set_onstack th.ss_flags } in
    let s1 = sync_release (record s { proc = reset_handler s.proc sig }) in
    let ends = if failed then exit_proc sig ∷ [] else [] in
    if has_altstack act th
    then (sig_handle sig true act th.mask ∷ ends, put_thr s1 t on_stack)
    else if sig == sigsegv
    then (exit_proc sig ∷ [], put_thr s1 t masked)
    else (sig_handle sig false act th.mask ∷ ends, put_thr s1 t masked)

-- The default action. There is no branch for SIGACT_IGN in the source.
unfoldable pub default_action : SigAct → (sig : ℕ) → Signals → List Call × Signals
default_action sigact_term sig s = (exit_proc sig ∷ [], sync_release s)
default_action sigact_stop sig s = (
  proc_stop sig ∷ [],
  sync_release (record s { proc = record s.proc { pending = sigunblock s.proc.pending sigcont } }),
)
default_action sigact_cont sig s = (proc_cont ∷ [], sync_release s)
default_action sigact_ign sig s = ([], s)

-- `signal_intr` once the signal has been taken out
unfoldable pub act_on : (t sig : ℕ) → (failed : Bool) → Signals → List Call × Signals
unfolding run_handler default_action
act_on t sig failed s =
    let handler = (s.proc.sigacts sig).sa_handler in
    if sig == sigkill
    then (exit_proc sig ∷ [], sync_release s)
    else if is_ign handler && not (sig == sigsegv)
    then ([], sync_release s)
    else if is_dfl handler
    then default_action (sigdefault sig) sig s
    else run_handler t sig failed s

unfoldable pub signal_intr : (t : ℕ) → (failed : Bool) → Signals → List Call × Signals
unfolding signext act_on
signal_intr t failed s =
    let held = sync_acquire s in
    let (sig, p, th) = signext held.proc (held.thr t) in
    if sig == 0
    then ([], sync_release held)
    else act_on t sig failed (put_thr (record held { proc = p }) t th)

-- `signal_cleanup`; `none` is its failed assertion
unfoldable pub signal_cleanup : Sigthr → Option Sigthr
signal_cleanup t =
    let lvl = t.nesting_lvl - 1 in
    if t.nesting_lvl == 0
    then none
    else if t.stack_lvl == t.nesting_lvl
    then some record t { ss_flags = clear_onstack t.ss_flags; stack_lvl = 0; nesting_lvl = lvl }
    else some record t { nesting_lvl = lvl }
