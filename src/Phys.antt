-- ===== src/Phys.antt =====
-- vm/phys.c: the buddy allocator of physical memory, over vm/page.h and the counters of
-- vm/pressure.c. A `vm_page_t *` is the number of its segment and its index there, `pages` is what
-- the page structures hold and `freelist` the array of lists. `none` stands for a failed `kassert`.
-- The locks, and the wake-ups of vm/pressure.c, are not modelled: vm_phylock is held throughout.
pub mod Sum
pub mod Blocks
pub mod Alloc
pub mod Inv
pub mod Pairs
pub mod Merge
pub mod Split
mod Tests
use elos.Base.{
  ℕ, zero, suc, ◌+◌, ◌-◌, ◌*◌, ◌/◌, ◌%◌, ◌^◌, Bool, true, false, ◌&&◌, ◌||◌, Option, none, some,
  List, [], ◌∷◌, ◌++◌, not, if◌then◌else◌, ltb, leb, ◌==◌,
}

-- `vm_physeg_t`, in page frames
pub record Physeg : Type 0 where
  pub start : ℕ
  pub size : ℕ

pub record PagePtr : Type 0 where
  pub seg : ℕ
  pub idx : ℕ

abbrev pub same : PagePtr → PagePtr → Bool
same p q = (p.seg == q.seg) && (p.idx == q.idx)

-- `vm_page_t`: the state is the low four bits of the source's `flags`, `flags` the other bits.
pub record Page : Type 0 where
  pub order : ℕ
  pub state : ℕ
  pub flags : ℕ
  pub pincnt : ℕ

abbrev pub order_num : ℕ
order_num = 11

abbrev pub order_max : ℕ
order_max = 10

abbrev pub order_none : ℕ
order_none = 255

abbrev pub pg_free : ℕ
pg_free = 0

abbrev pub pg_normal : ℕ
pg_normal = 1

pub record Phys : Type 0 where
  pub pages : PagePtr → Page
  pub freelist : ℕ → List PagePtr
  pub mem_free : ℕ
  pub mem_total : ℕ
  pub threshold : ℕ

-- The page behind a pointer after an assignment to `*p`.
abbrev pub put_page : Phys → PagePtr → Page → Phys
put_page s p v = record s { pages = λ q. if same p q then v else s.pages q }

abbrev pub put_list : Phys → ℕ → List PagePtr → Phys
put_list s k ps = record s { freelist = λ j. if k == j then ps else s.freelist j }

abbrev pub set_order : Phys → PagePtr → ℕ → Phys
set_order s p k = put_page s p (record (s.pages p) { order = k })

-- `vm_page_set_state`
abbrev pub set_state : Phys → PagePtr → ℕ → Phys
set_state s p st = put_page s p (record (s.pages p) { state = st })

abbrev pub is_free : Phys → PagePtr → Bool
is_free s p = (s.pages p).state == pg_free

-- the number of page frames behind a page of this order
abbrev pub page_num : ℕ → ℕ
page_num order = 2 ^ order

unfoldable pub vm_page_size : Page → ℕ
vm_page_size page = 2 ^ (12 + page.order)

-- `page + n`
abbrev pub advance : PagePtr → ℕ → PagePtr
advance p n = record p { idx = p.idx + n }

unfoldable pub freelist_add : PagePtr → Phys → Option Phys
freelist_add p s =
    let k = (s.pages p).order in
    if ltb k order_num
    then some (set_state (put_list s k (s.freelist k ++ (p ∷ []))) p pg_free)
    else none

-- `list_remove`
unfoldable pub remove : PagePtr → List PagePtr → List PagePtr
remove p [] = []
remove p (q ∷ qs) = if same p q then qs else q ∷ remove p qs

unfoldable pub freelist_rem : PagePtr → Phys → Option Phys
unfolding remove
freelist_rem p s =
    let k = (s.pages p).order in
    if ltb k order_num
    then some (set_state (put_list s k (remove p (s.freelist k))) p pg_normal)
    else none

-- `vm_freelist_pop`; its caller never asks for an order out of range
unfoldable pub freelist_pop : ℕ → Phys → Option (PagePtr × Phys)
freelist_pop k s = elim (s.freelist k) [ [] ↦ none | p ∷ ps ↦ some (p, put_list s k ps) ]

-- The search of `vm_page_alloc_order` from list `i` on, over the `n` lists that are left.
pub data Found : Type 0 where
  found : PagePtr → Phys → Found
  not_found : Found
  bad_page : Found

unfoldable pub find_page : (n i : ℕ) → Phys → Found
unfolding freelist_pop
find_page zero i s = not_found
find_page (suc n) i s = elim (freelist_pop i s) [
  | none ↦ find_page n (suc i) s
  | some (p, s') ↦ if is_free s' p then found p (set_state s' p pg_normal) else bad_page
]

-- The loop that splits a page of order `k` down to `order`, and frees the upper halves.
unfoldable pub split_page : PagePtr → (order k : ℕ) → Phys → Option Phys
unfolding freelist_add
split_page p order zero s = some s
split_page p order (suc k) s =
    let halved = set_order s p k in
    let buddy = advance p (page_num k) in
    let rest : Option Phys = elim (freelist_add buddy (set_order halved buddy k)) [
      | none ↦ none
      | some s' ↦ split_page p order k s'
    ] in
    if ltb order (suc k) then (if is_free halved buddy then none else rest) else some s

-- How `vm_page_alloc_order` ends: with a page, with NULL for want of memory, or with a panic.
pub data AllocResult : Type 0 where
  page : PagePtr → Phys → AllocResult
  null : AllocResult
  panic : AllocResult

-- `vm_pressure_inc`
abbrev pub pressure_inc : ℕ → Phys → Phys
pressure_inc size s = record s { mem_free = s.mem_free - size }

unfoldable pub alloc_found : ℕ → Found → AllocResult
unfolding split_page
alloc_found order not_found = panic
alloc_found order bad_page = panic
alloc_found order (found p s) = elim (split_page p order (s.pages p).order s) [
  | none ↦ panic
  | some s' ↦ page p (pressure_inc (2 ^ (order + 12)) s')
]

unfoldable pub vm_page_alloc_order : ℕ → Phys → AllocResult
unfolding find_page alloc_found
vm_page_alloc_order order s =
    if ltb s.mem_free (2 ^ (order + 12) + s.threshold)
    then null
    else alloc_found order (find_page (order_num - order) order s)

-- `addr ^ size` where `size` is 1 << order: the bit `order` is flipped.
abbrev pub flip : (addr order : ℕ) → ℕ
flip addr order = if addr / 2 ^ order % 2 == 0 then addr + 2 ^ order else addr - 2 ^ order

module _ (segs : ℕ → Physeg) where
  -- `vm_page_addr`
  abbrev pub page_addr : PagePtr → ℕ
  page_addr p = (segs p.seg).start + p.idx

  -- The merge loop of `vm_page_free`, with `n` orders left up to VM_PHYS_ORDER_MAX: the page that
  -- is to be put on its list, and the memory.
  unfoldable pub merge : (n : ℕ) → PagePtr → Phys → Option (PagePtr × Phys)
  unfolding freelist_rem
  merge zero p s = some (p, s)
  merge (suc n) p s =
      let order = (s.pages p).order in
      let addr = flip (page_addr p) order in
      let buddy : PagePtr = record { seg = p.seg; idx = addr - (segs p.seg).start } in
      let first : PagePtr = record {
        seg = p.seg;
        idx = addr - addr % 2 ^ suc order - (segs p.seg).start;
      } in
      let rest : Option (PagePtr × Phys) = elim (freelist_rem buddy s) [
        | none ↦ none
        | some s' ↦
            merge n first
              (set_order (set_order (set_order s' buddy order_none) p order_none) first (order + 1))
      ] in
      if ltb addr (segs p.seg).start || leb ((segs p.seg).start + (segs p.seg).size) addr
      then some (p, s)
      else if not ((s.pages buddy).order == order) || not (is_free s buddy)
      then some (p, s)
      else rest

  unfoldable pub vm_page_free : PagePtr → Phys → Option Phys
  unfolding merge freelist_add vm_page_size
  vm_page_free p s =
      let v = s.pages p in
      let freed = record s { mem_free = s.mem_free + vm_page_size v } in
      if is_free s p || not (v.pincnt == 0) || not (v.flags == 0)
      then none
      else if ltb s.mem_total (s.mem_free + vm_page_size v)
      then none
      else elim (merge (order_max - v.order) p freed) [
        | none ↦ none
        | some (q, s') ↦ freelist_add q s'
      ]
