-- ===== src/Sigset/Size.antt =====
-- The number of signals in a set.
use elos.Base.{
  ℕ, suc, ◌+◌, ◌≤◌, ◌<◌, ◌≡◌, refl, false, if◌then◌else◌, arith, Bool-cases, ltb, ltb_false→le, inl,
  inr,
}
use elos.Phys.Sum.{sum_to, sum_to_change, le-sum_to}
use elos.Sigset.{Sigset, empty, sigset_bits, nsig, sigblock, sigunblock}
use elos.Sigset.Laws.{IsSmall}

abbrev pub bit : Sigset → ℕ → ℕ
bit set i = if set i then 1 else 0

unfoldable pub size : Sigset → ℕ
size set = sum_to (suc sigset_bits) (bit set)

pub size-empty : size empty ≡ 0
unfolding size sum_to
size-empty = refl

pub size-sigblock :
    (set : Sigset) (sig : ℕ) → sig < nsig → size (sigblock set sig) + bit set sig ≡ size set + 1
unfolding size
size-sigblock set sig l =
    let h =
      sum_to_change (suc sigset_bits) sig (bit (sigblock set sig)) (bit set) (omega arith)
        (λ j ne. ground arith) in
    let at : bit (sigblock set sig) sig ≡ 1 = ground arith in omega (arith, h, at)

pub size-sigunblock :
    (set : Sigset) (sig : ℕ) → sig < nsig → size (sigunblock set sig) + bit set sig ≡ size set
unfolding size
size-sigunblock set sig l =
    let h =
      sum_to_change (suc sigset_bits) sig (bit (sigunblock set sig)) (bit set) (omega arith)
        (λ j ne. ground arith) in
    let at : bit (sigunblock set sig) sig ≡ 0 = ground arith in omega (arith, h, at)

-- a signal of the set is counted
pub bit-le-size : (set : Sigset) (sig : ℕ) → IsSmall set → bit set sig ≤ size set
unfolding size
bit-le-size set sig small = elim (Bool-cases (ltb sig nsig)) [
  | inl l ↦ le-sum_to (suc sigset_bits) sig (bit set) (ground arith)
  | inr big ↦
      let off : set sig ≡ false = small.above sig (ltb_false→le _ _ big) in rw off (omega arith)
]

pub sigblock-IsSmall :
    (set : Sigset) (sig : ℕ) → sig < nsig → 0 < sig → IsSmall set → IsSmall (sigblock set sig)
sigblock-IsSmall set sig l pos small = record {
  above = λ j h. ground (arith, small.above j h);
  not_zero = ground (arith, small.not_zero);
}

pub sigunblock-IsSmall : (set : Sigset) (sig : ℕ) → IsSmall set → IsSmall (sigunblock set sig)
sigunblock-IsSmall set sig small = record {
  above = λ j h. ground (arith, small.above j h);
  not_zero = ground (arith, small.not_zero);
}
