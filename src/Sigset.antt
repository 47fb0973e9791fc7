-- ===== src/Sigset.antt =====
-- include/kern/signal.h and the set functions of kern/signal.c: sets of signals. A set is given by the
-- numbers of its signals; its words have room for those from 1 to 64.
pub mod Laws
pub mod Size
mod Tests
use elos.Base.{ℕ, zero, suc, Bool, true, false, ◌&&◌, ◌||◌, not, if◌then◌else◌, ◌==◌}

-- `sigset_t`
abbrev pub Sigset : Type 0
Sigset = ℕ → Bool

abbrev pub empty : Sigset
empty sig = false

-- `NSIG`, one more than the last signal with an action
abbrev pub nsig : ℕ
nsig = 32

-- `_NSIG`, the bits of a set
abbrev pub sigset_bits : ℕ
sigset_bits = 64

abbrev pub sigill : ℕ
sigill = 4

abbrev pub sigtrap : ℕ
sigtrap = 5

abbrev pub sigkill : ℕ
sigkill = 9

abbrev pub sigsegv : ℕ
sigsegv = 11

abbrev pub sigchld : ℕ
sigchld = 17

abbrev pub sigcont : ℕ
sigcont = 18

abbrev pub sigstop : ℕ
sigstop = 19

abbrev pub sigblocked : Sigset → ℕ → Bool
sigblocked set sig = set sig

abbrev pub sigblock : Sigset → ℕ → Sigset
sigblock set sig i = if sig == i then true else set i

abbrev pub sigunblock : Sigset → ℕ → Sigset
sigunblock set sig i = if sig == i then false else set i

abbrev pub sigset_or : Sigset → Sigset → Sigset
sigset_or set block i = set i || block i

abbrev pub sigset_nand : Sigset → Sigset → Sigset
sigset_nand set block i = set i && not (block i)

-- the bits of the `n` signals from `i` on, over the words of `sigpending`
unfoldable pub any_from : (n i : ℕ) → Sigset → Bool
any_from zero i set = false
any_from (suc n) i set = let rest = any_from n (suc i) set in set i || rest

unfoldable pub sigpending : (set mask : Sigset) → Bool
sigpending set mask = any_from sigset_bits 1 (sigset_nand set mask)

-- the loop of `sigset_ffs`
unfoldable pub search_from : (n i : ℕ) → Sigset → ℕ
search_from zero i set = 0
search_from (suc n) i set =
    let rest = search_from n (suc i) set in if set (suc i) then suc i else rest

unfoldable pub sigset_ffs : Sigset → ℕ
sigset_ffs set =
    if sigblocked set sigsegv
    then sigsegv
    else if sigblocked set sigkill
    then sigkill
    else search_from nsig 0 set

-- `sigmask_fix`
abbrev pub sigmask_fix : Sigset → Sigset
sigmask_fix set = sigunblock (sigunblock (sigunblock set sigkill) sigstop) sigsegv
