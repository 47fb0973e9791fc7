-- ===== src/Resman.antt =====
-- lib/resman.c: a manager of address ranges. A manager keeps its children, the ranges handed out
-- from it, in a list; the operations read nothing of a child but its range, so a child is its
-- `Region` here. Addresses are 64 bits wide and wrap.
pub mod Order
pub mod Mask
pub mod Alloc
pub mod Faults
pub mod Lookup
mod Tests
use elos.Base.{
  ℕ, zero, suc, ◌+◌, ◌-◌, ◌*◌, ◌/◌, ◌%◌, ◌^◌, min, max, Bool, ◌&&◌, ◌||◌, Option, none, some, List,
  [], ◌∷◌, if◌then◌else◌, ltb, leb, ◌==◌,
}

abbrev pub word : ℕ → ℕ
word n = n % 2 ^ 64

pub record Region : Type 0 where
  pub addr : ℕ
  pub size : ℕ

abbrev pub region : ℕ → ℕ → Region
region a n = record { addr = a; size = n }

pub record Resman : Type 0 where
  pub range : Region
  pub children : List Region

-- `resman_get_end`: the last address
unfoldable pub get_end : Region → ℕ
get_end r = word (r.addr + r.size + (2 ^ 64 - 1))

unfoldable pub resman_init_root : (addr end : ℕ) → Resman
resman_init_root addr end = record {
  range = region addr (word (end + (2 ^ 64 - addr) + 1));
  children = [];
}

-- `&` of the lowest `n` bits
unfoldable pub bit_and : (n : ℕ) → ℕ → ℕ → ℕ
bit_and zero x y = 0
bit_and (suc n) x y = let rest = bit_and n (x / 2) (y / 2) in min (x % 2) (y % 2) + 2 * rest

-- `ALIGN(x, align)` on addresses: `(x + mask) & ~mask` with `mask = align - 1`, whatever `align` is
unfoldable pub align_addr : ℕ → ℕ → ℕ
unfolding bit_and
align_addr x align =
    let mask = word (align + (2 ^ 64 - 1)) in bit_and 64 (word (x + mask)) (2 ^ 64 - 1 - mask)

abbrev pub cons_child : Region → Option (Region × List Region) → Option (Region × List Region)
cons_child c none = none
cons_child c (some (r, cs)) = some (r, c ∷ cs)

-- The loop of `resman_alloc_range` over the children, from the candidate address `prev_end`, and
-- what follows it: the new region and the list of children with it, or ENOSPC.
unfoldable pub scan : (end size align : ℕ) → List Region → ℕ → Option (Region × List Region)
unfolding get_end
scan end size align [] prev_end =
    if ltb prev_end end && leb size (end - prev_end)
    then some (region prev_end size, region prev_end size ∷ [])
    else none
scan end size align (cur ∷ cs) prev_end =
    let next =
      if ltb cur.addr prev_end then prev_end else align_addr (word (get_end cur + 1)) align in
    let rest = cons_child cur (scan end size align cs next) in
    if leb end prev_end
    then none
    else if ltb cur.addr prev_end
    then rest
    else if leb size (cur.addr - prev_end)
    then some (region prev_end size, region prev_end size ∷ cur ∷ cs)
    else rest

unfoldable pub resman_alloc_range :
    Resman → (start end size align : ℕ) → Option (Region × List Region)
unfolding scan
resman_alloc_range parent start end size align =
    let last = word (min (get_end parent.range) end + 1) in
    let first = max parent.range.addr start in
    if leb last first || ltb (last - first) size
    then none
    else scan last size align parent.children (align_addr first align)

unfoldable pub resman_alloc : Resman → (size align : ℕ) → Option (Region × List Region)
unfolding resman_alloc_range
resman_alloc parent size align =
    resman_alloc_range parent parent.range.addr (get_end parent.range) size align

unfoldable pub resman_reserve : Resman → (start end : ℕ) → Option (Region × List Region)
unfolding resman_alloc_range
resman_reserve parent start end =
    resman_alloc_range parent start end (word (end + (2 ^ 64 - start) + 1)) 1

unfoldable pub list_last : List Region → Option Region
list_last [] = none
list_last (c ∷ []) = some c
list_last (c ∷ d ∷ cs) = list_last (d ∷ cs)

-- How `resman_shrink` ends; a size above the present one panics.
pub data Shrink : Type 0 where
  shrunk : Resman → Shrink
  not_supported : Shrink
  panic : Shrink

unfoldable pub resman_shrink : Resman → ℕ → Shrink
unfolding get_end list_last
resman_shrink rm size =
    if ltb rm.range.size size
    then panic
    else if rm.range.size == size
    then shrunk rm
    else elim (list_last rm.children) [
      | none ↦ shrunk (record rm { range = region rm.range.addr size })
      | some c ↦
          if ltb (word (rm.range.addr + size + (2 ^ 64 - 1))) (get_end c)
          then not_supported
          else shrunk (record rm { range = region rm.range.addr size })
    ]

-- `resman_free`: the child is known by its address
unfoldable pub remove_child : ℕ → List Region → List Region
remove_child a [] = []
remove_child a (c ∷ cs) = if c.addr == a then cs else c ∷ remove_child a cs

unfoldable pub resman_free : Resman → ℕ → Resman
unfolding remove_child
resman_free rm a = record rm { children = remove_child a rm.children }

unfoldable pub resman_lookup : List Region → ℕ → Option Region
unfolding get_end
resman_lookup [] addr = none
resman_lookup (cur ∷ cs) addr =
    if leb cur.addr addr && leb addr (get_end cur) then some cur else resman_lookup cs addr
