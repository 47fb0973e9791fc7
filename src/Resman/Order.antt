-- ===== src/Resman/Order.antt =====
-- Children that are in order, apart from each other, and inside a range; and alignment.
use elos.Base.{ℕ, ◌+◌, ◌%◌, ◌≤◌, ◌<◌, ◌≡◌, List, [], ◌∷◌, arith, align_up}
use elos.Resman.{Region}

-- From `lo` on, in order of addresses, none empty, and all below `hi`.
abbrev pub Ordered : (lo hi : ℕ) → List Region → Type 0
Ordered lo hi [] = lo ≤ hi
Ordered lo hi (c ∷ cs) = (lo ≤ c.addr) × (0 < c.size) × Ordered (c.addr + c.size) hi cs

abbrev pub AllAligned : ℕ → List Region → Type 0
AllAligned align [] = Unit
AllAligned align (c ∷ cs) = (c.addr % align ≡ 0) × AllAligned align cs

-- `cs'` is `cs` with `r` put in somewhere.
pub data Inserted (r : Region) : List Region → List Region → Type 0 where
  here : {cs : List Region} → Inserted r cs (r ∷ cs)
  there : {c : Region} {cs cs' : List Region} → Inserted r cs cs' → Inserted r (c ∷ cs) (c ∷ cs')

pub Ordered-le : (cs : List Region) (lo hi : ℕ) → Ordered lo hi cs → lo ≤ hi
Ordered-le [] lo hi h = h
Ordered-le (c ∷ cs) lo hi h = omega (arith, Ordered-le cs (c.addr + c.size) hi h.2)

pub le-align_up : (x a : ℕ) → 0 < a → x ≤ align_up x a
unfolding align_up
le-align_up x a h = grind arith

pub align_up-lt : (x a : ℕ) → 0 < a → align_up x a < x + a
unfolding align_up
align_up-lt x a h = grind arith

pub align_up-mod : (x a : ℕ) → 0 < a → align_up x a % a ≡ 0
unfolding align_up
align_up-mod x a h = grind arith

pub align_up-le_of_mod : (x a y : ℕ) → 0 < a → x ≤ y → y % a ≡ 0 → align_up x a ≤ y
unfolding align_up
align_up-le_of_mod x a y h le m = grind arith
