-- ===== src/Signal/Faults.antt =====
-- kern/signal.c: what `kern_sigprocmask` lets a thread block, and the lock that `signal_intr` keeps.
use elos.Base.{
  ℕ, suc, ◌^◌, ◌<◌, ◌≡◌, ◌≢◌, ◌↔◌, refl, Bool, true, false, Option, none, some, List, ◌==◌, arith,
  Bool-cases, inl, inr, ap, sym, ◌∙◌, subst,
}
use elos.Base.Errno.{Result}
use elos.Sigset.{Sigset, sigcont, sigkill, sigsegv}
use elos.Signal.{
  Handler, is_ign, is_dfl, Signals, Call, Sender, Sent, sigdefault, sig_choose_thr, sent_to,
  queue_signal, kern_signal, put_thr, kern_sigprocmask, SigAct, sigact_term, sigact_ign,
  sigact_stop, sigact_cont,
}
use elos.Signal.Intr.{
  sync_acquire, deliverable, signext, signal_intr, act_on, default_action, run_handler,
  has_altstack,
}
use elos.Signal.Branches.{kern_signal-cases}
use elos.Signal.Reach.{Reach, later, send, block, signext_lem}

-- `kern_signal` leaves the masks alone
abbrev Masks : Signals → Sent → Type 0
Masks s none = Unit
Masks s (some (r, after)) = (t : ℕ) → (after.thr t).mask ≡ (s.thr t).mask

sent_to-Masks :
    (sig : ℕ) (s : Signals) (calls : List Call → List Call) (t : Option ℕ)
    → Masks s (sent_to sig s calls t)
sent_to-Masks sig s calls none = tt
sent_to-Masks sig s calls (some t) = λ j. refl

queue_signal-Masks :
    (c : Sender) (thread : Option ℕ) (sig : ℕ) (s : Signals) (calls : List Call → List Call)
    → Masks s (queue_signal c thread sig s calls)
unfolding queue_signal
queue_signal-Masks c none sig s calls = sent_to-Masks sig s calls (sig_choose_thr c s sig)
queue_signal-Masks c (some t) sig s calls = elim (Bool-cases (sig == sigcont)) [
  | inl cont ↦ rw cont (sent_to-Masks sig s calls (sig_choose_thr c s sig))
  | inr other ↦ rw other (λ j. elim (Bool-cases (t == j)) [
    | inr e ↦ rw e refl
    | inl e ↦ let same : t ≡ j = ground arith in rw e (ap (λ x. (s.thr x).mask) same)
  ])
]

kern_signal-Masks :
    (c : Sender) (thread : Option ℕ) (sig : ℕ) (s : Signals) → Masks s (kern_signal c thread sig s)
kern_signal-Masks c thread sig s =
    kern_signal-cases (Masks s) c thread sig s (λ r j. refl) (λ r j. refl)
      (λ calls pos l. queue_signal-Masks c thread sig s calls)

-- a signal that is blocked is not taken
signext-blocked :
    (k : ℕ) (s : Signals) (t sig : ℕ)
    → k < 2 ^ 32
    → Reach k s
    → 0 < sig
    → (s.thr t).mask sig ≡ true
    → (signext s.proc (s.thr t)).0 ≢ sig
signext-blocked k s t sig few r pos blocked e = elim (signext_lem k s t few r) [
  | inl (none_found, same_p, same_t, clear) ↦ omega (arith, e)
  | inr (first, low, rest) ↦
      let at : deliverable s.proc (s.thr t) sig ≡ true =
        ap (deliverable s.proc (s.thr t)) (sym e) ∙ first.among in
      absurd (ground arith)
]

-- A thread that asks `kern_sigprocmask` to block a set with SIGKILL blocks it: sent by anybody to the thread
-- or to the process right after, SIGKILL is not what the thread takes.
pub kern_sigprocmask_blocks_kill :
    (k : ℕ) (s : Signals) (t : ℕ) (set : Sigset) (c : Sender) (thread : Option ℕ)
    (r : Result (List Call)) (after : Signals)
    → suc (suc k) < 2 ^ 32
    → Reach k s
    → set sigkill ≡ true
    → kern_signal c thread sigkill (kern_sigprocmask t 0 (some set) s).1 ≡ some (r, after)
    → ((after.thr t).mask sigkill ≡ true) × ((signext after.proc (after.thr t)).0 ≢ sigkill)
unfolding kern_sigprocmask
kern_sigprocmask_blocks_kill k s t set c thread r after few reached asks sent =
    let masked = (kern_sigprocmask t 0 (some set) s).1 in
    let reach₂ =
      later (later reached (block t 0 (some set))) (send c thread sigkill r after sent) in
    let same : (after.thr t).mask ≡ (masked.thr t).mask =
      subst (Masks masked) sent (kern_signal-Masks c thread sigkill masked) t in
    let self : (t == t) ≡ true = ground arith in
    let blocks : (masked.thr t).mask sigkill ≡ true = ground arith in
    let blocked : (after.thr t).mask sigkill ≡ true =
      ap (λ (m : Sigset). m sigkill) same ∙ blocks in
    (blocked, signext-blocked (suc (suc k)) after t sigkill few reach₂ (omega arith) blocked)

abbrev is_ignored : SigAct → Bool
is_ignored sigact_ign = true
is_ignored _ = false

-- The signal that is taken has the default action, which is to ignore it.
abbrev pub DefaultIgnored : Signals → ℕ → Type 0
DefaultIgnored s t =
    let sig = (signext s.proc (s.thr t)).0 in
    ((sig == 0) ≡ false)
    × ((sig == sigkill) ≡ false)
    × (is_dfl ((signext s.proc (s.thr t)).1.sigacts sig).sa_handler ≡ true)
    × (sigdefault sig ≡ sigact_ign)

default_action-locked :
    (act : SigAct) (sig : ℕ) (s : Signals)
    → s.locked ≡ true
    → (default_action act sig s).1.locked ≡ is_ignored act
unfolding default_action
default_action-locked sigact_term sig s e = refl
default_action-locked sigact_ign sig s e = e
default_action-locked sigact_stop sig s e = refl
default_action-locked sigact_cont sig s e = refl

run_handler-locked :
    (t sig : ℕ) (failed : Bool) (s : Signals) → (run_handler t sig failed s).1.locked ≡ false
unfolding run_handler
run_handler-locked t sig failed s =
    elim (Bool-cases (has_altstack (s.proc.sigacts sig) (s.thr t))) [
      | inl alt ↦ rw alt refl
      | inr plain ↦ elim (Bool-cases (sig == sigsegv)) [
        | inl e ↦ rw (plain, e) refl
        | inr e ↦ rw (plain, e) refl
      ]
    ]

is_ignored→eq : (act : SigAct) → is_ignored act ≡ true → act ≡ sigact_ign
is_ignored→eq sigact_ign e = refl
is_ignored→eq sigact_term e = cc
is_ignored→eq sigact_stop e = cc
is_ignored→eq sigact_cont e = cc

ign-not_dfl : (h : Handler) → is_ign h ≡ true → is_dfl h ≡ false
ign-not_dfl Handler.sig_ign e = refl
ign-not_dfl Handler.sig_dfl e = cc
ign-not_dfl (Handler.user f) e = refl

-- `signal_intr`, which acquires the lock at its start, ends with the lock held exactly if it takes a signal
-- other than SIGKILL with the default handler whose default action is to ignore it: on all its other
-- paths it releases the lock.
pub signal_intr-locked :
    (t : ℕ) (failed : Bool) (s : Signals)
    → ((signal_intr t failed s).1.locked ≡ true) ↔ DefaultIgnored s t
unfolding signal_intr act_on
signal_intr-locked t failed s =
    let (sig, p, th) = signext s.proc (s.thr t) in
    let handler = (p.sigacts sig).sa_handler in
    let s1 = put_thr (record (sync_acquire s) { proc = p }) t th in
    elim (Bool-cases (sig == 0)) [
      | inl idle ↦ rw idle (λ e. absurd (cc), λ (a, b, c, d). absurd (cc))
      | inr busy ↦ elim (Bool-cases (sig == sigkill)) [
        | inl kill ↦ rw (busy, kill) (λ e. absurd (cc), λ (a, b, c, d). absurd (cc))
        | inr other ↦ elim (Bool-cases (is_ign handler)) [
          | inl ign ↦
              let own = ign-not_dfl handler ign in
              elim (Bool-cases (sig == sigsegv)) [
                | inl segv ↦
                    rw (busy, other, ign, segv, own)
                      (
                        λ e. let h = run_handler-locked t sig failed s1 in absurd (cc),
                        λ (a, b, c, d). absurd (cc),
                      )
                | inr calm ↦
                    rw (busy, other, ign, calm, own) (λ e. absurd (cc), λ (a, b, c, d). absurd (cc))
              ]
          | inr take ↦ elim (Bool-cases (is_dfl handler)) [
            | inl dfl ↦
                let h = default_action-locked (sigdefault sig) sig s1 refl in
                rw (busy, other, take, dfl)
                  (
                    λ e. (refl, refl, refl, is_ignored→eq (sigdefault sig) (sym h ∙ e)),
                    λ (a, b, c, d). h ∙ ap is_ignored d,
                  )
            | inr own ↦
                rw (busy, other, take, own)
                  (
                    λ e. let h = run_handler-locked t sig failed s1 in absurd (cc),
                    λ (a, b, c, d). absurd (cc),
                  )
          ]
        ]
      ]
    ]
