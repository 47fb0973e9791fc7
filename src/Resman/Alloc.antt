-- ===== src/Resman/Alloc.antt =====
-- `resman_alloc` of lib/resman.c: the regions that it hands out, and its failure.
use elos.Base.{
  ℕ, ◌+◌, ◌-◌, ◌%◌, ◌^◌, ◌≤◌, ◌<◌, ◌≡◌, refl, false, inl, inr, ◌⊎◌, dec_lt, Option, some, none,
  List, [], ◌∷◌, arith, align_up, Bool-cases, ltb, leb, ◌&&◌, if◌then◌else◌, max, min, ◌||◌,
}
use elos.Resman.{Region, Resman, word, get_end, align_addr, cons_child, scan, resman_alloc}
use elos.Resman.Mask.{one_le-pow, align_addr-align_up}
use elos.Resman.Order.{
  Ordered, AllAligned, Inserted, here, there, Ordered-le, le-align_up, align_up-mod,
  align_up-le_of_mod,
}

-- What the scan returns, if anything.
pub record Fits (lo hi size align : ℕ) (cs : List Region) (r : Region) (cs' : List Region)
    : Type 0 where
  pub ordered : Ordered lo hi cs'
  pub aligned : r.addr % align ≡ 0
  pub exact : r.size ≡ size
  pub inserted : Inserted r cs cs'

abbrev pub Result : (lo hi size align : ℕ) → List Region → Option (Region × List Region) → Type 0
Result lo hi size align cs none = Unit
Result lo hi size align cs (some (r, cs')) = Fits lo hi size align cs r cs'

le→ltb_false : {a b : ℕ} → b ≤ a → ltb a b ≡ false
le→ltb_false h = ground arith

-- The `n` addresses from `a` on share one with some child.
abbrev pub Overlaps : (a n : ℕ) → List Region → Type 0
Overlaps a n [] = ⊥
Overlaps a n (c ∷ cs) = ((a < c.addr + c.size) × (c.addr < a + n)) ⊎ Overlaps a n cs

-- The law of `ALIGN` for an alignment.
record RoundsUp (align : ℕ) : Type 0 where
  mask : (x : ℕ) → x + align ≤ 2 ^ 64 → align_addr x align ≡ align_up x align

module _ (hi size align : ℕ) (pos : 0 < size) (al : 0 < align) (wrap : hi + align ≤ 2 ^ 64)
    (rounds : RoundsUp align) where
  cons-Result :
      (lo : ℕ) (c : Region) (cs : List Region) (o : Option (Region × List Region))
      → lo ≤ c.addr
      → 0 < c.size
      → Result (c.addr + c.size) hi size align cs o
      → Result lo hi size align (c ∷ cs) (cons_child c o)
  cons-Result lo c cs none a b h = tt
  cons-Result lo c cs (some (r, cs')) a b h = record {
    ordered = (a, b, h.ordered);
    aligned = h.aligned;
    exact = h.exact;
    inserted = there h.inserted;
  }

  next_addr :
      (c : Region)
      → 0 < c.size
      → c.addr + c.size ≤ hi
      → align_addr (word (get_end c + 1)) align ≡ align_up (c.addr + c.size) align
  unfolding get_end
  next_addr c p h =
      let last : word (word (c.addr + c.size + (2 ^ 64 - 1)) + 1) ≡ c.addr + c.size = omega arith in
      rw last (rounds.mask (c.addr + c.size) (omega arith))

  scan-Result :
      (cs : List Region) (lo : ℕ)
      → Ordered lo hi cs
      → AllAligned align cs
      → Result lo hi size align cs (scan hi size align cs (align_up lo align))
  unfolding scan
  scan-Result [] lo o a =
      elim (Bool-cases (ltb (align_up lo align) hi && leb size (hi - align_up lo align))) [
        | inr no_room ↦ simp no_room tt
        | inl room ↦
            let fits : align_up lo align + size ≤ hi = ground arith in
            simp room (record {
              ordered = (le-align_up lo align al, pos, fits);
              aligned = align_up-mod lo align al;
              exact = refl;
              inserted = here;
            })
      ]
  scan-Result (c ∷ cs) lo o a =
      let below : ltb c.addr (align_up lo align) ≡ false =
        le→ltb_false (align_up-le_of_mod lo align c.addr al o.0 a.0) in
      let next = next_addr c o.1 (Ordered-le cs (c.addr + c.size) hi o.2) in
      let rest = cons-Result lo c cs _ o.0 o.1 (scan-Result cs (c.addr + c.size) o.2 a.1) in
      elim (Bool-cases (leb hi (align_up lo align))) [
        | inl past ↦ simp past tt
        | inr before ↦ elim (Bool-cases (leb size (c.addr - align_up lo align))) [
          | inr small ↦ simp (before, below, small, next) rest
          | inl room ↦
              let fits : align_up lo align + size ≤ c.addr = ground arith in
              simp (before, below, room)
                (record {
                  ordered = (le-align_up lo align al, pos, (fits, o.1, o.2));
                  aligned = align_up-mod lo align al;
                  exact = refl;
                  inserted = here;
                })
        ]
      ]

  cons-none : (c : Region) (o : Option (Region × List Region)) → cons_child c o ≡ none → o ≡ none
  cons-none c none e = refl
  cons-none c (some x) e = cc

  scan-none :
      (cs : List Region) (lo a : ℕ)
      → Ordered lo hi cs
      → AllAligned align cs
      → scan hi size align cs (align_up lo align) ≡ none
      → lo ≤ a
      → a + size ≤ hi
      → a % align ≡ 0
      → Overlaps a size cs
  unfolding scan
  scan-none [] lo a o al' e low high m =
      let le = align_up-le_of_mod lo align a al low m in absurd (ground arith)
  scan-none (c ∷ cs) lo a o al' e low high m =
      let le = align_up-le_of_mod lo align a al low m in
      let below : ltb c.addr (align_up lo align) ≡ false =
        le→ltb_false (align_up-le_of_mod lo align c.addr al o.0 al'.0) in
      let next = next_addr c o.1 (Ordered-le cs (c.addr + c.size) hi o.2) in
      let before : leb hi (align_up lo align) ≡ false = ground arith in
      elim (Bool-cases (leb size (c.addr - align_up lo align))) [
        | inl room ↦ cc (simp (before, below, room) at e)
        | inr small ↦
            let e' : scan hi size align cs (align_up (c.addr + c.size) align) ≡ none =
              cons-none c _ (simp (before, below, small, next) at e) in
            elim (dec_lt a (c.addr + c.size)) [
              | yes inside ↦ inl (inside, ground arith)
              | no past ↦ inr (scan-none cs (c.addr + c.size) a o.2 al'.1 e' (omega arith) high m)
            ]
      ]

-- A manager whose children are in order, apart, not empty and inside its range, which ends so that
-- rounding up to a multiple of `align` does not wrap.
pub record IsValid (align : ℕ) (p : Resman) : Type 0 where
  pub ordered : Ordered p.range.addr (p.range.addr + p.range.size) p.children
  pub high : p.range.addr + p.range.size + align ≤ 2 ^ 64

module _ (p : Resman) (size k : ℕ) (small : k < 64) where
  abbrev high : ℕ
  high = p.range.addr + p.range.size

  alloc_scan :
      IsValid (2 ^ k) p
      → 0 < size
      → resman_alloc p size (2 ^ k) ≡ (
          if ltb p.range.size size
          then none
          else scan
              (p.range.addr + p.range.size)
              size
              (2 ^ k)
              p.children
              (align_up p.range.addr (2 ^ k)))
  unfolding resman_alloc get_end
  alloc_scan v pos =
      let low = p.range.addr in
      let one = one_le-pow k in
      let last : word (min (get_end p.range) (get_end p.range) + 1) ≡ high =
        omega (arith, v.high, one) in
      let first : max low low ≡ low = omega arith in
      let test : (leb high low || ltb (high - low) size) ≡ ltb p.range.size size = ground arith in
      let start = align_addr-align_up k low small (omega (arith, v.high)) in
      simp (last, first, test, start)

  -- What `resman_alloc` hands out of a valid manager whose children all start on multiples of the
  -- alignment asked for, a power of two, has the size asked for, starts on a multiple of the alignment,
  -- and is put among the children so that all of them are in order, apart and inside the manager.
  pub resman_alloc-Fits :
      {r : Region} {cs : List Region}
      → IsValid (2 ^ k) p
      → AllAligned (2 ^ k) p.children
      → 0 < size
      → resman_alloc p size (2 ^ k) ≡ some (r, cs)
      → Fits p.range.addr (p.range.addr + p.range.size) size (2 ^ k) p.children r cs
  resman_alloc-Fits {r} {cs} v aligned pos e = elim (Bool-cases (ltb p.range.size size)) [
    | inl less ↦ cc (simp (alloc_scan v pos, less) at e)
    | inr room ↦ rw (simp (alloc_scan v pos, room) at e) at (
        scan-Result high size (2 ^ k) pos (one_le-pow k) v.high
          (record { mask = λ x fits. align_addr-align_up k x small fits }) p.children p.range.addr
          v.ordered aligned)
  ]

  -- On such a manager `resman_alloc` fails only if every place of that size in the manager that starts
  -- on a multiple of the alignment meets a child.
  pub resman_alloc-none :
      (a : ℕ)
      → IsValid (2 ^ k) p
      → AllAligned (2 ^ k) p.children
      → 0 < size
      → resman_alloc p size (2 ^ k) ≡ none
      → p.range.addr ≤ a
      → a + size ≤ p.range.addr + p.range.size
      → a % 2 ^ k ≡ 0
      → Overlaps a size p.children
  resman_alloc-none a v aligned pos e low fits m = elim (Bool-cases (ltb p.range.size size)) [
    | inl less ↦ absurd (ground arith)
    | inr room ↦
        scan-none high size (2 ^ k) pos (one_le-pow k) v.high
          (record { mask = λ x fits. align_addr-align_up k x small fits }) p.children p.range.addr a
          v.ordered aligned (simp (alloc_scan v pos, room) at e) low fits m
  ]
