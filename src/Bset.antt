-- ===== src/Bset.antt =====
-- lib/bitset.c: a set of bits, which are given by their index; byte `i` holds the bits from 8 * i on. `none`
-- stands for the failed assertion that a bit is below the size.
pub mod Alloc
mod Tests
use elos.Base.{
  ℕ, zero, suc, ◌+◌, ◌/◌, ◌<◌, Bool, true, false, Option, none, some, if◌then◌else◌, ltb, leb, ◌==◌,
  not,
}
use elos.Base.Errno.{Errno, Result, ok, err, enospc, enomem}

-- `bset_t`
pub record Bset : Type 0 where
  pub bits : ℕ → Bool
  pub size : ℕ

abbrev pub put_bit : (ℕ → Bool) → ℕ → Bool → ℕ → Bool
put_bit bits i b j = if i == j then b else bits j

-- `bset_alloc`, with what `kmalloc` returned
unfoldable pub bset_alloc : (allocated : Bool) → (size : ℕ) → Result Bset
bset_alloc allocated size =
    if allocated then ok (record { bits = λ i. false; size = size }) else err enomem

unfoldable pub bset_set : Bset → ℕ → Option Bset
bset_set s bit = if ltb bit s.size then some (record s { bits = put_bit s.bits bit true }) else none

unfoldable pub bset_clr : Bset → ℕ → Option Bset
bset_clr s bit =
    if ltb bit s.size then some (record s { bits = put_bit s.bits bit false }) else none

unfoldable pub bset_test : Bset → ℕ → Bool
bset_test s bit = s.bits bit

-- `ffs` of the `n` bits from `i` on, of which `b` is looked for: the index of the first, `none` for 0
unfoldable pub lowest : (b : Bool) → (n : ℕ) → (ℕ → Bool) → (i : ℕ) → Option ℕ
lowest b zero bits i = none
lowest b (suc n) bits i =
    let rest = lowest b n bits (suc i) in
    let hit = if b then bits i else not (bits i) in if hit then some i else rest

-- the number of rounds of a loop over the bytes
abbrev pub bytes : ℕ → ℕ
bytes size = (size + 7) / 8

-- `bset_ffs`: one more than the index, or 0
unfoldable pub ffs_loop : (rounds : ℕ) → Bset → (i : ℕ) → Result ℕ
unfolding lowest
ffs_loop zero s i = ok 0
ffs_loop (suc rounds) s i =
    let rest = ffs_loop rounds s (i + 8) in
    elim (lowest true 8 s.bits i) [
      | none ↦ rest
      | some bit ↦ if ltb s.size (suc bit) then err enospc else ok (suc bit)
    ]

unfoldable pub bset_ffs : Bset → Result ℕ
unfolding ffs_loop
bset_ffs s = ffs_loop (bytes s.size) s 0

abbrev pub took : Bset → ℕ → Result (ℕ × Bset)
took s bit =
    if leb s.size bit then err enospc else ok (bit, record s { bits = put_bit s.bits bit true })

abbrev pub found_bit : Bset → Option ℕ → (rest : Result (ℕ × Bset)) → Result (ℕ × Bset)
found_bit s none rest = rest
found_bit s (some bit) rest = took s bit

unfoldable pub alloc_loop : (rounds : ℕ) → Bset → (i : ℕ) → Result (ℕ × Bset)
alloc_loop zero s i = err enospc
alloc_loop (suc rounds) s i =
    let rest = alloc_loop rounds s (i + 8) in found_bit s (lowest false 8 s.bits i) rest

unfoldable pub bset_alloc_bit : Bset → Result (ℕ × Bset)
bset_alloc_bit s = alloc_loop (bytes s.size) s 0

unfoldable pub bset_free_bit : Bset → ℕ → Option Bset
bset_free_bit s bit = bset_clr s bit
