-- ===== src/Signal.antt =====
-- kern/signal.c: the signals of a process and its threads, and how one is sent. A call that the code
-- makes outside of this file is an entry of a list, in the order of the calls. What is read of the
-- processes' identities, and which thread runs, are arguments. The lock of the process's signals is
-- held by each operation from its first look at them to its last change, so that an operation is one
-- step; `locked` says whether it is held, for signal_intr, which does not always give it back.
pub mod Intr
pub mod Calls
pub mod Inv
pub mod Branches
pub mod Steps
pub mod Handle
pub mod Reach
pub mod Next
pub mod Send
pub mod Faults
pub mod Nest
mod Tests
use elos.Base.{
  ℕ, zero, suc, ◌+◌, ◌-◌, ◌/◌, ◌%◌, ◌^◌, Bool, true, false, ◌&&◌, ◌||◌, not, Option, none, some,
  List, [], ◌∷◌, if◌then◌else◌, leb, ◌==◌,
}
use elos.Base.Errno.{Result, ok, err, einval, eacces}
use elos.Sigset.{
  Sigset, empty, nsig, sigkill, sigsegv, sigcont, sigstop, sigblock, sigunblock, sigblocked,
  sigset_or, sigset_nand, sigpending, sigmask_fix,
}

-- `sa_handler`
pub data Handler : Type 0 where
  sig_dfl sig_ign : Handler
  user : ℕ → Handler

abbrev pub is_dfl : Handler → Bool
is_dfl sig_dfl = true
is_dfl _ = false

abbrev pub is_ign : Handler → Bool
is_ign sig_ign = true
is_ign _ = false

-- `sigaction_t`
pub record Sigaction : Type 0 where
  pub sa_handler : Handler
  pub sa_flags : ℕ
  pub sa_mask : Sigset

-- `w & (1 << n)`
abbrev pub flag : (w n : ℕ) → Bool
flag w n = w / 2 ^ n % 2 == 1

-- `sigproc_t`
pub record Sigproc : Type 0 where
  pub sigacts : ℕ → Sigaction
  pub pending : Sigset
  pub npending : ℕ

-- `sigthr_t`, with the fields of its `stack`
pub record Sigthr : Type 0 where
  pub pending : Sigset
  pub mask : Sigset
  pub npending : ℕ
  pub ss_sp : ℕ
  pub ss_flags : ℕ
  pub ss_size : ℕ
  pub nesting_lvl : ℕ
  pub stack_lvl : ℕ

-- a process: `exited` is PROC_EXIT, `threads` the numbers of its threads in order
pub record Signals : Type 0 where
  pub proc : Sigproc
  pub thr : ℕ → Sigthr
  pub threads : List ℕ
  pub exited : Bool
  pub locked : Bool

-- `proc_stop`, `proc_cont`, `thread_signal`, `kern_exitproc`, `arch_sig_handle` (with the stack, the
-- action and the mask to return to), `proc_autoreap_enable` and `proc_autoreap_disable`
pub data Call : Type 0 where
  proc_stop : ℕ → Call
  proc_cont : Call
  thread_signal : (thread : ℕ) → (restart : Bool) → Call
  exit_proc : ℕ → Call
  sig_handle : (sig : ℕ) → (altstack : Bool) → Sigaction → (old : Sigset) → Call
  autoreap : Bool → Call

-- `sig_act_t`
pub data SigAct : Type 0 where
  sigact_term sigact_ign sigact_stop sigact_cont : SigAct

abbrev pub is_stop : SigAct → Bool
is_stop sigact_stop = true
is_stop _ = false

abbrev pub is_cont : SigAct → Bool
is_cont sigact_cont = true
is_cont _ = false

abbrev pub is_term : SigAct → Bool
is_term sigact_term = true
is_term _ = false

abbrev pub among : ℕ → List ℕ → Bool
among sig [] = false
among sig (x ∷ xs) = let rest = among sig xs in sig == x || rest

unfoldable pub sigdefault : ℕ → SigAct
sigdefault sig =
    if among sig (1 ∷ 2 ∷ 9 ∷ 13 ∷ 14 ∷ 15 ∷ 10 ∷ 12 ∷ [])
    then sigact_term
    else if sig == 17
    then sigact_ign
    else if among sig (3 ∷ 4 ∷ 6 ∷ 8 ∷ 11 ∷ 7 ∷ 31 ∷ 24 ∷ 25 ∷ [])
    then sigact_term
    else if among sig (19 ∷ 20 ∷ 21 ∷ 22 ∷ [])
    then sigact_stop
    else if sig == 18
    then sigact_cont
    else sigact_ign

abbrev pub sigmayign : ℕ → Bool
sigmayign sig = not (sig == sigsegv) && not (sig == sigkill) && not (sig == sigstop)

-- `SIGPENDING`
abbrev pub any_sigpending : Sigproc → Sigthr → Bool
any_sigpending p t =
    (not (p.npending == 0) && sigpending p.pending t.mask)
    || (not (t.npending == 0) && sigpending t.pending t.mask)

-- The sender: SIG_KERN, the user numbers of the current process, and the current thread if it is one
-- of the process that the signal is for; and the user numbers of that process.
pub record Sender : Type 0 where
  pub kern : Bool
  pub uid : ℕ
  pub euid : ℕ
  pub cur : Option ℕ
  pub proc_uid : ℕ
  pub proc_suid : ℕ

unfoldable pub sigperm : Sender → Bool
sigperm c =
    if c.kern
    then true
    else if c.uid == 0 || c.euid == 0
    then true
    else c.proc_uid == c.uid || c.proc_suid == c.uid || c.proc_uid == c.euid || c.proc_suid == c.uid

abbrev pub is_none : Option ℕ → Bool
is_none none = true
is_none (some _) = false

-- the loop of `sig_choose_thr`
abbrev pub choose_loop : (thr : ℕ → Sigthr) → (sig : ℕ) → (thread : Option ℕ) → List ℕ → Option ℕ
choose_loop thr sig thread [] = thread
choose_loop thr sig thread (t ∷ ts) =
    let rest = choose_loop thr sig thread ts in
    if not (sigblocked (thr t).mask sig) || is_none thread then some t else rest

abbrev pub choose_cur : Signals → ℕ → Option ℕ → Option ℕ
choose_cur s sig none = choose_loop s.thr sig none s.threads
choose_cur s sig (some t) =
    let rest = choose_loop s.thr sig none s.threads in
    if not (sigblocked (s.thr t).mask sig) then some t else rest

-- `none` is the failed assertion that there is a thread
unfoldable pub sig_choose_thr : Sender → Signals → ℕ → Option ℕ
sig_choose_thr c s sig = choose_cur s sig c.cur

abbrev pub put_thr : Signals → ℕ → Sigthr → Signals
put_thr s t x = record s { thr = λ i. if t == i then x else s.thr i }

abbrev pub counted : (npending : ℕ) → (pending : Sigset) → ℕ → ℕ
counted npending pending sig =
    if not (sigblocked pending sig) then (npending + 1) % 2 ^ 32 else npending

-- The end of `kern_signal`, for the pending set of the process and for that of a thread: the state,
-- and whether the thread is interrupted.
abbrev pub queue_proc : Signals → (sig : ℕ) → Signals
queue_proc s sig = record s {
  proc = record s.proc {
    npending = counted s.proc.npending s.proc.pending sig;
    pending = sigblock s.proc.pending sig;
  };
}

abbrev pub queue_thr : Signals → (t sig : ℕ) → Signals
queue_thr s t sig = put_thr s t record (s.thr t) {
  npending = counted (s.thr t).npending (s.thr t).pending sig;
  pending = sigblock (s.thr t).pending sig;
}

-- `intr`, and the call of `thread_signal`
unfoldable pub roused : Signals → (t sig : ℕ) → List Call
roused s t sig =
    if any_sigpending s.proc (s.thr t)
    then thread_signal t (flag (s.proc.sigacts sig).sa_flags 28) ∷ []
    else []

abbrev pub Sent : Type 0
Sent = Option (Result (List Call) × Signals)

abbrev pub sent_to : (sig : ℕ) → Signals → (calls : List Call → List Call) → Option ℕ → Sent
sent_to sig s calls none = none
sent_to sig s calls (some t) =
    let after = queue_proc s sig in some (ok (calls (roused after t sig)), after)

-- from the choice of the thread on
unfoldable pub queue_signal :
    Sender → (thread : Option ℕ) → (sig : ℕ) → Signals → (calls : List Call → List Call) → Sent
unfolding roused sig_choose_thr
queue_signal c none sig s calls = sent_to sig s calls (sig_choose_thr c s sig)
queue_signal c (some t) sig s calls =
    if sig == sigcont
    then sent_to sig s calls (sig_choose_thr c s sig)
    else let after = queue_thr s t sig in some (ok (calls (roused after t sig)), after)

-- `thread` is `none` for NULL; a signal that is negative is a word from 2 ^ 31 on.
unfoldable pub kern_signal : Sender → (thread : Option ℕ) → (sig : ℕ) → Signals → Sent
kern_signal c thread sig s =
    let handler = (s.proc.sigacts sig).sa_handler in
    let dfl = is_dfl handler in
    let dfl_act = sigdefault sig in
    let cont = sig == sigcont || (dfl && is_cont dfl_act) in
    let calls : List Call → List Call = λ rest. if cont then proc_cont ∷ rest else rest in
    let unqueued = record s {
      proc = record s.proc { pending = sigunblock s.proc.pending sigcont };
    } in
    if leb nsig sig
    then some (err einval, s)
    else if not (sigperm c)
    then some (err eacces, s)
    else if sig == 0 || s.exited
    then some (ok [], s)
    else if is_ign handler && sigmayign sig
    then some (ok [], s)
    else if sig == sigstop || (dfl && is_stop dfl_act)
    then some (ok (proc_stop sig ∷ []), unqueued)
    else if dfl && not (is_term dfl_act)
    then some (ok (calls []), s)
    else queue_signal c thread sig s calls

-- `pending` of `kern_sigprocmask` and `intr` of `signal_set_mask`, with the call
unfoldable pub unmasked : Signals → (t : ℕ) → List Call
unmasked s t = if any_sigpending s.proc (s.thr t) then thread_signal t true ∷ [] else []

abbrev pub with_mask : Signals → (t : ℕ) → Sigset → Signals
with_mask s t m = put_thr s t record (s.thr t) { mask = m }

-- the switch of `kern_sigprocmask`, with SIG_BLOCK = 0, SIG_UNBLOCK = 1 and SIG_SETMASK = 2
unfoldable pub change_mask : (t how : ℕ) → Option Sigset → Signals → Result (List Call) × Signals
unfolding unmasked
change_mask t how none s = (ok [], s)
change_mask t how (some set) s =
    let m = (s.thr t).mask in
    let removed = with_mask s t (sigset_nand m set) in
    let replaced = with_mask s t set in
    if how == 0
    then (ok [], with_mask s t (sigset_or m set))
    else if how == 2
    then (ok (unmasked replaced t), replaced)
    else if how == 1
    then (ok (unmasked removed t), removed)
    else (err einval, s)

-- `kern_sigprocmask` of the current thread; the old set is the mask that `sigmask_fix` leaves
unfoldable pub kern_sigprocmask :
    (t how : ℕ) → Option Sigset → Signals → Result (List Call) × Signals
unfolding change_mask
kern_sigprocmask t how set s = change_mask t how set (with_mask s t (sigmask_fix (s.thr t).mask))

unfoldable pub signal_set_mask : (t : ℕ) → Sigset → Signals → List Call × Signals
unfolding unmasked
signal_set_mask t set s = let after = with_mask s t (sigmask_fix set) in (unmasked after t, after)
