-- ===== src/Resman/Tests.antt =====
-- lib/resman.c on a manager of the addresses from 100 on, with one child.
use elos.Base.{◌≡◌, refl, some, none, [], ◌∷◌, arith}
use elos.Resman.{
  Region, region, Resman, align_addr, resman_alloc, resman_shrink, shrunk, not_supported,
}
use elos.Resman.Alloc.{Fits, IsValid, Overlaps, resman_alloc-Fits, resman_alloc-none}

abbrev child : Region
child = region 108 8

abbrev manager : Resman
manager = record { range = region 100 100; children = child ∷ [] }

manager-IsValid : IsValid 4 manager
manager-IsValid = record { ordered = (omega arith, omega arith, omega arith); high = omega arith }

behind : resman_alloc manager 12 4 ≡ some (region 116 12, child ∷ region 116 12 ∷ [])
unfolding resman_alloc align_addr
behind = refl

too_large : resman_alloc manager 90 4 ≡ none
unfolding resman_alloc align_addr
too_large = refl

shrink_blocked : resman_shrink manager 10 ≡ not_supported
unfolding resman_shrink
shrink_blocked = refl

shrink_done : resman_shrink manager 50 ≡ shrunk (record manager { range = region 100 50 })
unfolding resman_shrink
shrink_done = refl

resman_alloc-Fits_example :
    Fits 100 200 12 4 (child ∷ []) (region 116 12) (child ∷ region 116 12 ∷ [])
resman_alloc-Fits_example =
    resman_alloc-Fits manager 12 2 (omega arith) manager-IsValid (refl, tt) (omega arith) behind

resman_alloc-none_example : Overlaps 100 90 (child ∷ [])
resman_alloc-none_example =
    resman_alloc-none manager 90 2 (omega arith) 100 manager-IsValid (refl, tt) (omega arith)
      too_large (omega arith) (omega arith) refl

-- A child that is not on a multiple of the alignment is skipped, and what is handed out overlaps it.
over_child :
    resman_alloc (record manager { children = region 101 10 ∷ [] }) 4 8
    ≡ some (region 104 4, region 101 10 ∷ region 104 4 ∷ [])
unfolding resman_alloc align_addr
over_child = refl
