-- ===== src/Bset/Alloc.antt =====
-- lib/bitset.c: which bit `bset_alloc_bit` takes.
use elos.Base.{
  ℕ, zero, suc, ◌+◌, ◌*◌, ◌≤◌, ◌<◌, ◌≡◌, ◌⊎◌, inl, inr, refl, subst, Bool, true, false, none, some,
  leb, arith, Bool-cases, leb→le, leb_false→lt, dec_lt,
}
use elos.Base.Errno.{Result, ok, err, enospc}
use elos.Bset.{Bset, put_bit, lowest, bytes, alloc_loop, bset_alloc_bit}

-- the first `n` bits are set
abbrev pub AllSet : (ℕ → Bool) → ℕ → Type 0
AllSet bits zero = Unit
AllSet bits (suc n) = (bits n ≡ true) × AllSet bits n

AllSet-le : (bits : ℕ → Bool) (a b : ℕ) → a ≤ b → AllSet bits b → AllSet bits a
AllSet-le bits a zero l s = let e : 0 ≡ a = omega (arith, l) in subst (AllSet bits) e tt
AllSet-le bits a (suc b) l s = elim (dec_lt b a) [
  | yes last ↦ let e : suc b ≡ a = omega (arith, l, last) in subst (AllSet bits) e s
  | no below ↦ AllSet-le bits a b (omega (arith, below)) s.1
]

lowest-AllSet :
    (n : ℕ) (bits : ℕ → Bool) (i : ℕ)
    → AllSet bits i
    → ((lowest false n bits i ≡ none) × AllSet bits (i + n))
      ⊎ ((k : ℕ) × (lowest false n bits i ≡ some k) × (bits k ≡ false) × AllSet bits k)
unfolding lowest
lowest-AllSet zero bits i s = let e : i ≡ i + 0 = omega arith in inl (refl, subst (AllSet bits) e s)
lowest-AllSet (suc n) bits i s = elim (Bool-cases (bits i)) [
  | inr free ↦ inr (i, rw free refl, free, s)
  | inl used ↦ elim (lowest-AllSet n bits (suc i) (used, s)) [
    | inl (e, all) ↦
        let same : suc i + n ≡ i + suc n = omega arith in
        inl (rw used e, subst (AllSet bits) same all)
    | inr (k, e, free, below) ↦ inr (k, rw used e, free, below)
  ]
]

-- What `bset_alloc_bit` does to a set.
abbrev pub Took : Bset → Result (ℕ × Bset) → Type 0
Took s (err e) = (e ≡ enospc) × AllSet s.bits s.size
Took s (ok (bit, after)) =
    (bit < s.size)
    × (s.bits bit ≡ false)
    × AllSet s.bits bit
    × (after ≡ record s { bits = put_bit s.bits bit true })

alloc_loop-Took :
    (n : ℕ) (s : Bset) (i : ℕ) → AllSet s.bits i → s.size ≤ i + 8 * n → Took s (alloc_loop n s i)
unfolding alloc_loop
alloc_loop-Took zero s i all enough = (refl, AllSet-le s.bits s.size i (omega (arith, enough)) all)
alloc_loop-Took (suc n) s i all enough = elim (lowest-AllSet 8 s.bits i all) [
  | inl (e, more) ↦ rw e (alloc_loop-Took n s (i + 8) more (omega (arith, enough)))
  | inr (k, e, free, below) ↦ elim (Bool-cases (leb s.size k)) [
    | inl over ↦ rw (e, over) (refl, AllSet-le s.bits s.size k (leb→le _ _ over) below)
    | inr fits ↦ rw (e, fits) (leb_false→lt _ _ fits, free, below, refl)
  ]
]

-- `bset_alloc_bit` takes the lowest bit below the size that is clear, sets it and no other, and fails with
-- ENOSPC exactly if all bits below the size are set.
pub bset_alloc_bit-Took : (s : Bset) → Took s (bset_alloc_bit s)
unfolding bset_alloc_bit
bset_alloc_bit-Took s = alloc_loop-Took (bytes s.size) s 0 tt (omega arith)
