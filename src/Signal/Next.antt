-- ===== src/Signal/Next.antt =====
-- kern/signal.c: the test SIGPENDING, and the signal that `signext` takes out.
use elos.Base.{
  ℕ, ◌<◌, ◌≡◌, ◌⊎◌, inl, inr, refl, true, false, ◌&&◌, not, ◌==◌, ltb, arith, Bool-cases, ltb→lt,
  ltb_false→le,
}
use elos.Sigset.{Sigset, nsig, sigpending, sigset_ffs}
use elos.Sigset.Laws.{IsSmall, Preferred, sigset_ffs-Preferred, sigpending-true, sigpending-false}
use elos.Sigset.Size.{bit, bit-le-size}
use elos.Signal.{Sigproc, Sigthr, any_sigpending}
use elos.Signal.Intr.{deliverable, take_proc, take_thr, signext}
use elos.Signal.Inv.{Counts}

-- a set with a signal is counted
counted_once :
    (k : ℕ) (set : Sigset) (n sig : ℕ) → Counts k set n → set sig ≡ true → (n == 0) ≡ false
counted_once k set n sig c at =
    let enough = c.enough in
    let one : bit set sig ≡ 1 = rw at refl in let more = bit-le-size set sig c.small in ground arith

one_set :
    (k : ℕ) (set mask : Sigset) (n sig : ℕ)
    → Counts k set n
    → (not (n == 0) && sigpending set mask) ≡ false
    → set sig ≡ true
    → mask sig ≡ true
one_set k set mask n sig c off at = elim (Bool-cases (sigpending set mask)) [
  | inl busy ↦ let some_left = counted_once k set n sig c at in absurd (ground arith)
  | inr idle ↦ sigpending-false set mask c.small idle sig at
]

pub idle-deliverable :
    (k : ℕ) (p : Sigproc) (t : Sigthr)
    → Counts k p.pending p.npending
    → Counts k t.pending t.npending
    → any_sigpending p t ≡ false
    → (sig : ℕ) → deliverable p t sig ≡ false
idle-deliverable k p t cp ct off sig = elim (Bool-cases (t.pending sig)) [
  | inl at ↦
      let masked = one_set k t.pending t.mask t.npending sig ct (ground arith) at in ground arith
  | inr out ↦ elim (Bool-cases (p.pending sig)) [
    | inl at ↦
        let masked = one_set k p.pending t.mask p.npending sig cp (ground arith) at in ground arith
    | inr gone ↦ ground arith
  ]
]

pub any_sigpending-deliverable :
    (p : Sigproc) (t : Sigthr)
    → any_sigpending p t ≡ true
    → (sig : ℕ) × (0 < sig) × (deliverable p t sig ≡ true)
any_sigpending-deliverable p t on = elim (Bool-cases (sigpending p.pending t.mask)) [
  | inl busy ↦
      let (sig, pos, at, free) = sigpending-true p.pending t.mask busy in (sig, pos, ground arith)
  | inr idle ↦
      let (sig, pos, at, free) = sigpending-true t.pending t.mask (ground arith) in
      (sig, pos, ground arith)
]

deliverable-IsSmall :
    (p : Sigproc) (t : Sigthr) → IsSmall p.pending → IsSmall t.pending → IsSmall (deliverable p t)
deliverable-IsSmall p t sp st = record {
  above = λ sig h. ground (arith, sp.above sig h, st.above sig h);
  not_zero = ground (arith, sp.not_zero, st.not_zero);
}

-- What `signext` takes out: nothing, or the preferred signal, from the set of the process if it is there.
abbrev pub Next : Sigproc → Sigthr → ℕ × Sigproc × Sigthr → Type 0
Next p t (sig, p', t') =
    ((sig ≡ 0) × (p' ≡ p) × (t' ≡ t) × ((j : ℕ) → deliverable p t j ≡ false))
    ⊎ (Preferred (deliverable p t) sig
        × (sig < nsig)
        × (((p.pending sig ≡ true) × (p' ≡ take_proc p sig) × (t' ≡ t))
            ⊎ ((p.pending sig ≡ false) × (p' ≡ p) × (t' ≡ take_thr t sig))))

small-lt : (set : Sigset) (sig : ℕ) → IsSmall set → set sig ≡ true → sig < nsig
small-lt set sig small at = elim (Bool-cases (ltb sig nsig)) [
  | inl l ↦ ltb→lt _ _ l
  | inr big ↦ let off = small.above sig (ltb_false→le _ _ big) in absurd (cc)
]

pub signext-Next :
    (k : ℕ) (p : Sigproc) (t : Sigthr)
    → Counts k p.pending p.npending
    → Counts k t.pending t.npending
    → Next p t (signext p t)
unfolding signext
signext-Next k p t cp ct =
    let small = deliverable-IsSmall p t cp.small ct.small in
    elim (Bool-cases (any_sigpending p t)) [
      | inr off ↦ rw off (inl (refl, refl, refl, idle-deliverable k p t cp ct off))
      | inl on ↦ elim (sigset_ffs-Preferred (deliverable p t) small) [
        | inl (none_found, clear) ↦
            let (sig, pos, at) = any_sigpending-deliverable p t on in
            let off = clear sig pos in absurd (cc)
        | inr first ↦
            let sig = sigset_ffs (deliverable p t) in
            let pos = first.positive in
            let some_found : (sig == 0) ≡ false = ground arith in
            let low = small-lt (deliverable p t) sig small first.among in
            elim (Bool-cases (p.pending sig)) [
              | inl at ↦ rw (on, some_found, at) (inr (first, low, inl (at, refl, refl)))
              | inr out ↦ rw (on, some_found, out) (inr (first, low, inr (out, refl, refl)))
            ]
      ]
    ]
