-- ===== src/Sigset/Laws.antt =====
-- The sets of include/kern/signal.h: which signal is found, and how many there are.
use elos.Base.{
  ℕ, zero, suc, ◌+◌, ◌≤◌, ◌<◌, ◌≡◌, ◌≢◌, ◌⊎◌, inl, inr, refl, true, false, arith, Bool-cases,
  dec_lt, dec_le, ap, sym, ◌∙◌,
}
use elos.Sigset.{
  Sigset, sigset_bits, nsig, sigsegv, sigkill, sigset_nand, any_from, sigpending, search_from,
  sigset_ffs,
}

-- all signals of the set have an action
pub record IsSmall (set : Sigset) : Type 0 where
  pub above : (sig : ℕ) → nsig ≤ sig → set sig ≡ false
  pub not_zero : set 0 ≡ false

pub any_from-false :
    (n i : ℕ) (set : Sigset)
    → any_from n i set ≡ false
    → (j : ℕ) → i ≤ j
    → j < i + n
    → set j ≡ false
unfolding any_from
any_from-false zero i set e j l h = absurd (omega arith)
any_from-false (suc n) i set e j l h = elim (dec_lt i j) [
  | yes later ↦ any_from-false n (suc i) set (ground arith) j (omega arith) (omega arith)
  | no here ↦ let same : j ≡ i = omega arith in ap set same ∙ ground arith
]

pub any_from-true :
    (n i : ℕ) (set : Sigset)
    → any_from n i set ≡ true
    → (j : ℕ) × (i ≤ j) × (j < i + n) × (set j ≡ true)
unfolding any_from
any_from-true zero i set e = cc
any_from-true (suc n) i set e = elim (Bool-cases (set i)) [
  | inl hit ↦ (i, omega arith, omega arith, hit)
  | inr miss ↦
      let (j, l, h, at) = any_from-true n (suc i) set (ground arith) in
      (j, omega arith, omega arith, at)
]

-- What the search from `i` on finds.
abbrev First : Sigset → (n i found : ℕ) → Type 0
First set n i found =
    ((found ≡ 0) × ((j : ℕ) → i < j → j ≤ i + n → set j ≡ false))
    ⊎ ((i < found)
        × (found ≤ i + n)
        × (set found ≡ true)
        × ((j : ℕ) → i < j → j < found → set j ≡ false))

search_from-First : (n i : ℕ) (set : Sigset) → First set n i (search_from n i set)
unfolding search_from
search_from-First zero i set = inl (refl, λ j l h. absurd (omega arith))
search_from-First (suc n) i set = elim (Bool-cases (set (suc i))) [
  | inl hit ↦ rw hit (inr (omega arith, omega arith, hit, λ j l h. absurd (omega arith)))
  | inr miss ↦
      let skip : (j : ℕ) → i < j → (suc i < j) ⊎ (j ≡ suc i) =
        λ j l. elim (dec_lt (suc i) j) [ yes p ↦ inl p | no p ↦ inr (omega arith) ] in
      rw miss (elim (search_from-First n (suc i) set) [
        | inl (none_found, clear) ↦ inl (
          none_found,
          λ j l h. elim (skip j l) [
            | inl p ↦ clear j p (omega arith)
            | inr same ↦ ap set same ∙ miss
          ],
        )
        | inr (l, h, at, clear) ↦ inr (
          omega arith,
          omega arith,
          at,
          λ j below above. elim (skip j below) [
            | inl p ↦ clear j p above
            | inr same ↦ ap set same ∙ miss
          ],
        )
      ])
]

-- The signal that is handled first of a set: SIGSEGV, then SIGKILL, then the lowest.
pub record Preferred (set : Sigset) (sig : ℕ) : Type 0 where
  pub among : set sig ≡ true
  pub positive : 0 < sig
  pub before :
      (j : ℕ)
      → set j ≡ true
      → 0 < j
      → (sig ≡ sigsegv) ⊎ ((sig ≡ sigkill) × (j ≢ sigsegv)) ⊎ (sig ≤ j)

pub sigset_ffs-Preferred :
    (set : Sigset)
    → IsSmall set
    → ((sigset_ffs set ≡ 0) × ((j : ℕ) → 0 < j → set j ≡ false)) ⊎ Preferred set (sigset_ffs set)
unfolding sigset_ffs
sigset_ffs-Preferred set small = elim (Bool-cases (set sigsegv)) [
  | inl segv ↦
      rw segv (inr record { among = segv; positive = omega arith; before = λ j at pos. inl refl })
  | inr quiet ↦ elim (Bool-cases (set sigkill)) [
    | inl kill ↦
        rw (quiet, kill)
          (inr record {
            among = kill;
            positive = omega arith;
            before = λ j at pos.
                inr (inl (refl, λ e. let here : set sigsegv ≡ true = ap set (sym e) ∙ at in cc));
          })
    | inr calm ↦
        rw (quiet, calm)
          (elim (search_from-First nsig 0 set) [
            | inl (e, clear) ↦ inl (
              e,
              λ j pos. elim (dec_le nsig j) [
                | yes big ↦ small.above j big
                | no low ↦ clear j pos (omega arith)
              ],
            )
            | inr (l, h, at, clear) ↦ inr record {
              among = at;
              positive = l;
              before = λ j here pos. elim (dec_le (search_from nsig 0 set) j) [
                | yes p ↦ inr (inr p)
                | no p ↦ let off : set j ≡ false = clear j pos (omega arith) in absurd (cc)
              ];
            }
          ])
  ]
]

-- what `sigpending` tells
pub sigpending-true :
    (set mask : Sigset)
    → sigpending set mask ≡ true
    → (sig : ℕ) × (0 < sig) × (set sig ≡ true) × (mask sig ≡ false)
unfolding sigpending
sigpending-true set mask e =
    let (sig, l, h, at) = any_from-true sigset_bits 1 (sigset_nand set mask) e in
    (sig, l, ground arith, ground arith)

pub sigpending-false :
    (set mask : Sigset)
    → IsSmall set
    → sigpending set mask ≡ false
    → (sig : ℕ) → set sig ≡ true
    → mask sig ≡ true
unfolding sigpending
sigpending-false set mask small e sig at = elim (dec_le nsig sig) [
  | yes big ↦ let off : set sig ≡ false = small.above sig big in absurd (cc)
  | no low ↦ elim (dec_lt 0 sig) [
    | yes pos ↦
        let off = any_from-false sigset_bits 1 (sigset_nand set mask) e sig pos (omega arith) in
        ground arith
    | no is_zero ↦
        let same : sig ≡ 0 = omega arith in
        let off : set sig ≡ false = ap set same ∙ small.not_zero in absurd (cc)
  ]
]
