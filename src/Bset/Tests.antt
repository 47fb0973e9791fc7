-- ===== src/Bset/Tests.antt =====
-- lib/bitset.c with ten bits, of which the first nine are set.
use elos.Base.{◌≡◌, refl, true, ltb}
use elos.Base.Errno.{ok, err, enospc}
use elos.Bset.{Bset, put_bit, lowest, alloc_loop, ffs_loop, bset_alloc_bit, bset_ffs}

abbrev nine : Bset
nine = record { bits = λ i. ltb i 9; size = 10 }

abbrev full : Bset
full = record { bits = λ i. ltb i 10; size = 10 }

nine_next : bset_alloc_bit nine ≡ ok (9, record nine { bits = put_bit nine.bits 9 true })
unfolding bset_alloc_bit alloc_loop lowest
nine_next = refl

full_next : bset_alloc_bit full ≡ err enospc
unfolding bset_alloc_bit alloc_loop lowest
full_next = refl

nine_ffs : bset_ffs nine ≡ ok 1
unfolding bset_ffs ffs_loop lowest
nine_ffs = refl
