-- ===== src/Signal/Calls.antt =====
-- kern/signal.c: the system calls for actions, threads and stacks, and what fork, exec and the start of a
-- process or thread do. What `copyin` and `copyout` return is an argument.
use elos.Base.{
  ℕ, ◌/◌, ◌%◌, ◌^◌, Bool, true, false, ◌&&◌, ◌||◌, not, Option, none, some, List, [], ◌∷◌,
  if◌then◌else◌, leb, ltb, ◌==◌,
}
use elos.Base.Errno.{Errno, Result, ok, err, einval, enosys, eperm, esrch}
use elos.Sigset.{Sigset, empty, nsig, sigkill, sigstop, sigchld}
use elos.Signal.{
  sig_dfl, is_ign, Sigaction, flag, Sigproc, Sigthr, Signals, Call, autoreap, put_thr, Sender, Sent,
  kern_signal, among,
}

-- `sizeof(sigset_t)`
abbrev pub sizeof_sigset : ℕ
sizeof_sigset = 8

-- `flags & ~(SA_NODEFER | SA_RESTART | SA_NOCLDWAIT | SA_SIGINFO | SA_ONSTACK | SA_RESETHAND |
-- SA_RESTORER)` for a word
abbrev pub other_flags : ℕ → Bool
other_flags w = flag w 0 || not (w / 8 % 2 ^ 23 == 0) || flag w 29

abbrev pub put_act : Signals → ℕ → Sigaction → Signals
put_act s sig act = record s {
  proc = record s.proc { sigacts = λ i. if sig == i then act else s.proc.sigacts i };
}

-- The end of `sys_rt_sigaction`: the old action goes to `oldact`, if it is not NULL, where `out` is what
-- `copyout` returns. `none` is an access behind the last action.
abbrev pub copied : (out : Option Errno) → Result ℕ
copied none = ok 0
copied (some e) = err e

unfoldable pub exchange :
    (sig : ℕ)
    → (act : Option Sigaction) → (oldact : Option (Option Errno)) → Signals
    → Option (Result ℕ × Signals)
exchange sig none none s = some (ok 0, s)
exchange sig none (some out) s = if ltb sig nsig then some (copied out, s) else none
exchange sig (some act) none s = if ltb sig nsig then some (ok 0, put_act s sig act) else none
exchange sig (some act) (some out) s =
    if ltb sig nsig then some (copied out, put_act s sig act) else none

-- `usract` is `none` for NULL and else what `copyin` gives
unfoldable pub sys_rt_sigaction :
    (signum : ℕ)
    → (usract : Option (Result Sigaction)) → (oldact : Option (Option Errno)) → (size : ℕ) → Signals
    → List Call × Option (Result ℕ × Signals)
unfolding exchange
sys_rt_sigaction signum none oldact size s =
    if not (size == sizeof_sigset)
    then ([], some (err enosys, s))
    else if signum == sigkill || signum == sigstop || leb (2 ^ 31) signum || ltb nsig signum
    then ([], some (err einval, s))
    else ([], exchange signum none oldact s)
sys_rt_sigaction signum (some (err e)) oldact size s =
    if not (size == sizeof_sigset)
    then ([], some (err enosys, s))
    else if signum == sigkill || signum == sigstop || leb (2 ^ 31) signum || ltb nsig signum
    then ([], some (err einval, s))
    else ([], some (err e, s))
sys_rt_sigaction signum (some (ok act)) oldact size s =
    if not (size == sizeof_sigset)
    then ([], some (err enosys, s))
    else if signum == sigkill || signum == sigstop || leb (2 ^ 31) signum || ltb nsig signum
    then ([], some (err einval, s))
    else if flag act.sa_flags 2
    then ([], some (err einval, s))
    else if other_flags act.sa_flags
    then ([], some (err einval, s))
    else (
      if signum == sigchld then autoreap (flag act.sa_flags 1) ∷ [] else [],
      exchange signum (some act) oldact s,
    )

-- `sys_tkill` of the current thread `cur`, whose user numbers are those of `c`
unfoldable pub sys_tkill : Sender → (cur tid sig : ℕ) → Signals → Sent
sys_tkill c cur tid sig s =
    if tid == 0 || leb (2 ^ 31) tid
    then some (err einval, s)
    else if cur == tid
    then kern_signal (record c { kern = true }) (some tid) sig s
    else if among tid s.threads
    then kern_signal (record c { kern = false }) (some tid) sig s
    else some (err esrch, s)

-- `stack_t`
pub record Stack : Type 0 where
  pub sp : ℕ
  pub flags : ℕ
  pub size : ℕ

-- from the copy of the new stack on
unfoldable pub set_stack : (uss : Option (Result Stack)) → (t : Sigthr) → Result ℕ × Sigthr
set_stack none t = (ok 0, t)
set_stack (some (err e)) t = (err e, t)
set_stack (some (ok ss)) t =
    if not (ss.flags == 0) && not (ss.flags == 2)
    then (err einval, t)
    else if flag t.ss_flags 0
    then (err eperm, t)
    else (ok 0, record t { ss_sp = ss.sp; ss_flags = ss.flags; ss_size = ss.size })

unfoldable pub sys_sigaltstack :
    (uss : Option (Result Stack)) → (oss : Option (Option Errno)) → (t : Sigthr) → Result ℕ × Sigthr
unfolding set_stack
sys_sigaltstack uss none t = set_stack uss t
sys_sigaltstack uss (some none) t = set_stack uss t
sys_sigaltstack uss (some (some e)) t = (err e, t)

-- `sigthr_init`, with SS_DISABLE
abbrev pub sigthr_init : Sigthr
sigthr_init = record {
  pending = empty;
  mask = empty;
  npending = 0;
  ss_sp = 0;
  ss_flags = 2;
  ss_size = 0;
  nesting_lvl = 0;
  stack_lvl = 0;
}

-- `sigproc_init` of a process that was not forked; the memory is zeroed
abbrev pub sigproc_init : (sigacts : ℕ → Sigaction) → Sigproc
sigproc_init sigacts = record {
  sigacts = λ i. record (sigacts i) { sa_handler = sig_dfl };
  pending = empty;
  npending = 0;
}

-- `sigproc_fork` into the new process, whose only thread is `t`, from the process `src` and the mask of
-- its current thread
unfoldable pub sigproc_fork : (t : ℕ) → (src : Sigproc) → (mask : Sigset) → Signals → Signals
sigproc_fork t src mask s =
    put_thr (record s { proc = record s.proc { sigacts = src.sigacts } }) t
      record (s.thr t) { mask = mask }

abbrev pub exec_act : Sigaction → Sigaction
exec_act act = record act {
  sa_handler = if not (is_ign act.sa_handler) then sig_dfl else act.sa_handler;
  sa_flags = 0;
}

-- `sigproc_exec` in the thread `t`
unfoldable pub sigproc_exec : (t : ℕ) → Signals → Signals
sigproc_exec t s =
    let proc : Sigproc = record {
      sigacts = λ i. if ltb i nsig then exec_act (s.proc.sigacts i) else s.proc.sigacts i;
      pending = empty;
      npending = 0;
    } in
    put_thr (record s { proc = proc }) t record (s.thr t) { pending = empty; npending = 0 }
