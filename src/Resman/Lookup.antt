-- ===== src/Resman/Lookup.antt =====
-- `resman_lookup` and `resman_free` after an allocation.
use elos.Base.{
  Bool, ℕ, ◌+◌, ◌^◌, ◌≤◌, ◌<◌, ◌≡◌, ap, true, false, inl, inr, some, List, arith, Bool-cases, leb,
  ◌&&◌, if◌then◌else◌,
}
use elos.Resman.{Region, Resman, get_end, resman_alloc, resman_lookup, resman_free, remove_child}
use elos.Resman.Mask.{one_le-pow}
use elos.Resman.Order.{Ordered, AllAligned, Inserted, here, there, Ordered-le}
use elos.Resman.Alloc.{IsValid, resman_alloc-Fits}

-- whether an address lies in a region
abbrev pub contains : Region → ℕ → Bool
contains r a = leb r.addr a && leb a (get_end r)

new-le :
    (r : Region) (hi : ℕ) (cs cs' : List Region) (lo : ℕ)
    → Inserted r cs cs'
    → Ordered lo hi cs'
    → (lo ≤ r.addr) × (0 < r.size) × (r.addr + r.size ≤ hi)
new-le r hi cs cs' lo (here) o = (o.0, o.1, Ordered-le cs (r.addr + r.size) hi o.2)
new-le r hi cs cs' lo (there {c} {cs = ds} {cs' = ds'} i) o =
    omega (arith, new-le r hi ds ds' (c.addr + c.size) i o.2)

remove_new :
    (r : Region) (hi : ℕ) (cs cs' : List Region) (lo : ℕ)
    → Inserted r cs cs'
    → Ordered lo hi cs'
    → remove_child r.addr cs' ≡ cs
unfolding remove_child
remove_new r hi cs cs' lo here o = ground arith
remove_new r hi cs cs' lo (there {c} {cs = ds} {cs' = ds'} i) o = ground (
  arith,
  new-le r hi ds ds' (c.addr + c.size) i o.2,
  remove_new r hi ds ds' (c.addr + c.size) i o.2,
)

module _ (r : Region) (a hi : ℕ) (high : hi < 2 ^ 64) where
  -- no address of the new region lies in another child
  apart :
      (cs cs' : List Region) (lo : ℕ)
      → Inserted r cs cs'
      → Ordered lo hi cs'
      → contains r a ≡ true
      → resman_lookup cs' a ≡ some r
  unfolding resman_lookup get_end
  apart cs cs' lo here o h = ground arith
  apart cs cs' lo (there {c} {cs = ds} {cs' = ds'} i) o h =
      let le = new-le r hi ds ds' (c.addr + c.size) i o.2 in
      let miss : contains c a ≡ false = ground (arith, le) in
      simp miss (apart ds ds' (c.addr + c.size) i o.2 h)

  others :
      (cs cs' : List Region)
      → Inserted r cs cs'
      → contains r a ≡ false
      → resman_lookup cs' a ≡ resman_lookup cs a
  unfolding resman_lookup
  others cs cs' here h = simp h
  others cs cs' (there {c} {cs = ds} {cs' = ds'} i) h =
      ap (λ o. if contains c a then some c else o) (others ds ds' i h)

module _ (p : Resman) (size k : ℕ) (small : k < 64) {r : Region} {cs : List Region} where
  -- After an allocation an address of the new region is looked up to that region, and any other to
  -- what it was looked up to before.
  pub lookup-alloc :
      (a : ℕ)
      → IsValid (2 ^ k) p
      → AllAligned (2 ^ k) p.children
      → 0 < size
      → resman_alloc p size (2 ^ k) ≡ some (r, cs)
      → resman_lookup cs a ≡ (if contains r a then some r else resman_lookup p.children a)
  lookup-alloc a v aligned pos e =
      let hi : ℕ = p.range.addr + p.range.size in
      let fits = resman_alloc-Fits p size k small v aligned pos e in
      let high : hi < 2 ^ 64 = omega (arith, v.high, one_le-pow k) in
      elim (Bool-cases (contains r a)) [
        | inl hit ↦
            simp hit (apart r a hi high p.children cs p.range.addr fits.inserted fits.ordered hit)
        | inr miss ↦ simp miss (others r a hi high p.children cs fits.inserted miss)
      ]

  -- Freeing a region gives back the children that there were before its allocation.
  pub free-alloc :
      IsValid (2 ^ k) p
      → AllAligned (2 ^ k) p.children
      → 0 < size
      → resman_alloc p size (2 ^ k) ≡ some (r, cs)
      → resman_free (record p { children = cs }) r.addr ≡ p
  unfolding resman_free
  free-alloc v aligned pos e =
      let fits = resman_alloc-Fits p size k small v aligned pos e in
      ap (λ ds. record p { children = ds })
        (remove_new r (p.range.addr + p.range.size) p.children cs p.range.addr fits.inserted
          fits.ordered)
