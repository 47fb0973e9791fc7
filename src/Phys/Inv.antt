-- ===== src/Phys/Inv.antt =====
-- The invariant of the allocator of vm/phys.c, and pages put on their lists and taken off.
use elos.Base.{
  ℕ, ◌+◌, ◌%◌, ◌^◌, ◌≤◌, ◌<◌, ◌≡◌, ap, ◌∙◌, true, false, inl, inr, [], ◌∷◌, ◌++◌, ◌&&◌, arith,
  Bool-cases, ltb, ◌==◌, if◌then◌else◌, some, lt→ltb,
}
use elos.Phys.{
  Physeg, PagePtr, same, Phys, order_num, pg_free, pg_normal, is_free, page_addr, remove, put_list,
  freelist_add, freelist_rem, set_state, set_order,
}
use elos.Phys.Blocks.{
  in_block, same_eq, same_refl, occurs, occurs-append, occurs-remove, cover, list_cover-append,
  list_cover-remove, cover_change,
}

-- A page stands on the list of its order, once, if it is free, and on no other.
abbrev pub Listed : Phys → Type 0
Listed s =
    (p : PagePtr) (k : ℕ)
    → occurs p (s.freelist k) ≡ (if is_free s p && ((s.pages p).order == k) then 1 else 0)

-- The block of order `k` at `p` is aligned and lies in its segment.
pub record Inside (segs : ℕ → Physeg) (p : PagePtr) (k : ℕ) : Type 0 where
  pub small : k < order_num
  pub aligned : page_addr segs p % 2 ^ k ≡ 0
  pub fits : p.idx + 2 ^ k ≤ (segs p.seg).size

abbrev pub AllInside : (ℕ → Physeg) → Phys → Type 0
AllInside segs s = (p : PagePtr) → is_free s p ≡ true → Inside segs p (s.pages p).order

-- the memory after `p`, of order `k`, was put on its list
abbrev pub added : Phys → PagePtr → ℕ → Phys
added s p k = set_state (put_list s k (s.freelist k ++ (p ∷ []))) p pg_free

abbrev pub removed : Phys → PagePtr → ℕ → Phys
removed s p k = set_state (put_list s k (remove p (s.freelist k))) p pg_normal

module _ (s : Phys) (p : PagePtr) (k : ℕ) (at : (s.pages p).order ≡ k) (small : k < order_num) where
  pub freelist_add-some : freelist_add p s ≡ some (added s p k)
  unfolding freelist_add
  freelist_add-some =
      let test : ltb (s.pages p).order order_num ≡ true = lt→ltb _ _ (rw at small) in
      let here : freelist_add p s ≡ some (added s p (s.pages p).order) = rw (freelist_add, test) in
      here ∙ ap (λ j. some (added s p j)) at

  pub freelist_rem-some : freelist_rem p s ≡ some (removed s p k)
  unfolding freelist_rem
  freelist_rem-some =
      let test : ltb (s.pages p).order order_num ≡ true = lt→ltb _ _ (rw at small) in
      let here : freelist_rem p s ≡ some (removed s p (s.pages p).order) =
        rw (freelist_rem, test) in
      here ∙ ap (λ j. some (removed s p j)) at

  pub added-Listed : Listed s → is_free s p ≡ false → Listed (added s p k)
  added-Listed listed used q j = elim (Bool-cases (same p q)) [
    | inl hit ↦
        let e = same_eq p q hit in
        rw (← e)
          (ground (arith, occurs-append p p (s.freelist k), listed p j, listed p k, same_refl p))
    | inr miss ↦ ground (arith, occurs-append q p (s.freelist k), listed q j, listed q k)
  ]

  pub removed-Listed : Listed s → is_free s p ≡ true → Listed (removed s p k)
  removed-Listed listed free q j = elim (Bool-cases (same p q)) [
    | inl hit ↦
        let e = same_eq p q hit in
        rw (← e)
          (ground (arith, occurs-remove p p (s.freelist k), listed p j, listed p k, same_refl p))
    | inr miss ↦
        ground (arith, occurs-remove q p (s.freelist k), listed p k, listed q j, listed q k)
  ]

  module _ (segs : ℕ → Physeg) (f : ℕ) where
    pub added-cover :
        cover segs f (added s p k).freelist
        ≡ cover segs f s.freelist + in_block f (page_addr segs p) k
    added-cover = omega (
      arith,
      cover_change segs f s.freelist k (s.freelist k ++ (p ∷ [])) small,
      list_cover-append segs f k (s.freelist k) p,
    )

    pub removed-cover :
        Listed s
        → is_free s p ≡ true
        → cover segs f (removed s p k).freelist + in_block f (page_addr segs p) k
          ≡ cover segs f s.freelist
    removed-cover listed free =
        let once : 0 < occurs p (s.freelist k) = ground (arith, listed p k) in
        omega (
          arith,
          cover_change segs f s.freelist k (remove p (s.freelist k)) small,
          list_cover-remove segs f k (s.freelist k) p once,
        )

-- The order field of a page that is on no list may change.
pub set_order-Listed :
    (s : Phys) (p : PagePtr) (k : ℕ) → Listed s → is_free s p ≡ false → Listed (set_order s p k)
set_order-Listed s p k listed used q j = elim (Bool-cases (same p q)) [
  | inl hit ↦ let e = same_eq p q hit in rw (← e) (ground (arith, listed p j, same_refl p))
  | inr miss ↦ ground (arith, listed q j)
]

pub set_order-AllInside :
    (segs : ℕ → Physeg) (s : Phys) (p : PagePtr) (k : ℕ)
    → AllInside segs s
    → is_free s p ≡ false
    → AllInside segs (set_order s p k)
set_order-AllInside segs s p k inside used q h = elim (Bool-cases (same p q)) [
  | inl hit ↦ absurd (ground arith)
  | inr miss ↦ simp miss (inside q (simp miss at h))
]

pub added-AllInside :
    (segs : ℕ → Physeg) (s : Phys) (p : PagePtr) (k : ℕ)
    → AllInside segs s
    → Inside segs p (s.pages p).order
    → AllInside segs (added s p k)
added-AllInside segs s p k inside here q h = elim (Bool-cases (same p q)) [
  | inl hit ↦ simp hit (rw (← same_eq p q hit) here)
  | inr miss ↦ simp miss (inside q (simp miss at h))
]

pub removed-AllInside :
    (segs : ℕ → Physeg) (s : Phys) (p : PagePtr) (k : ℕ)
    → AllInside segs s
    → AllInside segs (removed s p k)
removed-AllInside segs s p k inside q h = elim (Bool-cases (same p q)) [
  | inl hit ↦ absurd (ground arith)
  | inr miss ↦ simp miss (inside q (simp miss at h))
]
