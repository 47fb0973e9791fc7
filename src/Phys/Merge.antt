-- ===== src/Phys/Merge.antt =====
-- The merge loop of `vm_page_free`, and `vm_page_free` itself.
use elos.Base.{
  ℕ, zero, suc, ◌+◌, ◌-◌, ◌^◌, ◌≤◌, ◌<◌, ◌≡◌, refl, sym, subst, ap, ◌∙◌, Bool, true, false, inl,
  inr, ◌||◌, not, arith, Bool-cases, ltb, leb, ◌==◌, some,
}
use elos.Phys.{
  Physeg, PagePtr, same, Phys, order_num, order_max, pg_free, is_free, page_addr, set_order,
  order_none, flip, merge, vm_page_free, vm_page_size,
}
use elos.Phys.Blocks.{in_block, same_eq, same_refl, cover}
use elos.Phys.Inv.{
  Inside, added, removed, removed-Listed, removed-cover, removed-AllInside, freelist_add-some,
  freelist_rem-some, added-Listed, added-cover, added-AllInside, set_order-Listed,
  set_order-AllInside,
}
use elos.Phys.Split.{IsApart}
use elos.Phys.Alloc.{IsValid}
use elos.Phys.Pairs.{buddy_of, first_of, Pair, pair_lem}

set_order-used :
    (s : Phys) (p : PagePtr) (k : ℕ) (q : PagePtr)
    → is_free s q ≡ false
    → is_free (set_order s p k) q ≡ false
set_order-used s p k q used = elim (Bool-cases (same p q)) [
  | inl hit ↦ let e = same_eq p q hit in rw (← e) (ground (arith, used, same_refl p))
  | inr miss ↦ ground (arith, used)
]

in_range :
    (addr start size : ℕ) → (ltb addr start || leb (start + size) addr) ≡ false → start ≤ addr
in_range addr start size h = ground arith

equal_buddy :
    (order k state : ℕ)
    → (not (order == k) || not (state == pg_free)) ≡ false
    → (order ≡ k) × ((state == pg_free) ≡ true)
equal_buddy order k state h = (ground arith, ground arith)

module _ (segs : ℕ → Physeg) where
  -- What the loop makes of `p`: a page that is on no list, with the frames of `p` in its block.
  pub record Merged (s : Phys) (p : PagePtr) (k : ℕ) (q : PagePtr) (s' : Phys) : Type 0 where
    pub order : ℕ
    pub held : IsApart segs s' q order
    pub frames :
        (f : ℕ)
        → cover segs f s'.freelist + in_block f (page_addr segs q) order
          ≡ cover segs f s.freelist + in_block f (page_addr segs p) k
    pub mem_free : s'.mem_free ≡ s.mem_free

  -- An allocated block that may be freed: `vm_page_free` asserts this much of it.
  pub record Held (s : Phys) (p : PagePtr) (k : ℕ) : Type 0 where
    pub here : Inside segs p k
    pub order : (s.pages p).order ≡ k
    pub used : is_free s p ≡ false
    pub pincnt : (s.pages p).pincnt ≡ 0
    pub flags : (s.pages p).flags ≡ 0
    pub apart : (f : ℕ) → cover segs f s.freelist + in_block f (page_addr segs p) k ≤ 1
    pub room : ltb s.mem_total (s.mem_free + 2 ^ (12 + k)) ≡ false

  unmerged : (s : Phys) (p : PagePtr) (k : ℕ) → IsApart segs s p k → Merged s p k p s
  unmerged s p k a = record { order = k; held = a; frames = λ f. refl; mem_free = refl }

  module _ (s : Phys) (p : PagePtr) (k : ℕ) (small : suc k < order_num) (a : IsApart segs s p k)
      (low : (segs p.seg).start ≤ flip (page_addr segs p) k)
      (free : is_free s (buddy_of segs p k) ≡ true)
      (equal : (s.pages (buddy_of segs p k)).order ≡ k) where
    abbrev b : PagePtr
    b = buddy_of segs p k

    abbrev first : PagePtr
    first = first_of segs p k

    -- after `vm_freelist_rem` and the two assignments of VM_PHYS_ORDER_NONE
    abbrev taken : Phys
    taken = removed s b k

    abbrev cleared : Phys
    cleared = set_order (set_order taken b order_none) p order_none

    abbrev doubled : Phys
    doubled = set_order cleared first (suc k)

    pair : Pair segs p k
    pair = pair_lem segs p k small low a.here (rw equal at (a.all_inside b free))

    b_used : is_free taken b ≡ false
    b_used = ground (arith, same_refl b)

    p_used : is_free (set_order taken b order_none) p ≡ false
    p_used = ground (arith, a.used)

    first_used : is_free cleared first ≡ false
    first_used = elim pair.either [
      | inl e ↦ subst (λ q. is_free cleared q ≡ false) (sym e) (ground (arith, a.used))
      | inr e ↦ subst (λ q. is_free cleared q ≡ false) (sym e) (ground (arith, same_refl b))
    ]

    small_k : k < order_num
    small_k = omega arith

    doubled-cover :
        (f : ℕ)
        → cover segs f doubled.freelist + in_block f (page_addr segs first) (suc k)
          ≡ cover segs f s.freelist + in_block f (page_addr segs p) k
    doubled-cover f =
        omega (arith, removed-cover s b k equal small_k segs f a.listed free, pair.frames f)

    doubled-IsApart : IsApart segs doubled first (suc k)
    doubled-IsApart = record {
      listed =
          set_order-Listed cleared first (suc k)
            (set_order-Listed (set_order taken b order_none) p order_none
              (set_order-Listed taken b order_none
                (removed-Listed s b k equal small_k a.listed free) b_used)
              p_used)
            first_used;
      all_inside =
          set_order-AllInside segs cleared first (suc k)
            (set_order-AllInside segs (set_order taken b order_none) p order_none
              (set_order-AllInside segs taken b order_none
                (removed-AllInside segs s b k a.all_inside) b_used)
              p_used)
            first_used;
      here = pair.here;
      order = simp same_refl;
      used = set_order-used cleared first (suc k) first first_used;
      apart = λ f. omega (arith, doubled-cover f, a.apart f);
    }

  abbrev out_of_range : PagePtr → ℕ → Bool
  out_of_range p k =
      ltb (flip (page_addr segs p) k) (segs p.seg).start
      || leb ((segs p.seg).start + (segs p.seg).size) (flip (page_addr segs p) k)

  abbrev differs : Phys → PagePtr → ℕ → Bool
  differs s p k =
      not ((s.pages (buddy_of segs p k)).order == k) || not (is_free s (buddy_of segs p k))

  merge-stop_range :
      (n : ℕ) (p : PagePtr) (k : ℕ) (s : Phys)
      → (s.pages p).order ≡ k
      → out_of_range p k ≡ true
      → merge segs (suc n) p s ≡ some (p, s)
  unfolding merge
  merge-stop_range n p k s at out = rw (merge, at, out) refl

  merge-stop_buddy :
      (n : ℕ) (p : PagePtr) (k : ℕ) (s : Phys)
      → (s.pages p).order ≡ k
      → out_of_range p k ≡ false
      → differs s p k ≡ true
      → merge segs (suc n) p s ≡ some (p, s)
  unfolding merge
  merge-stop_buddy n p k s at out d = rw (merge, at, out, d) refl

  -- what the rest of the loop is given after one round
  abbrev next : PagePtr → ℕ → Phys → Phys
  next p k s =
      set_order
        (set_order (set_order (removed s (buddy_of segs p k) k) (buddy_of segs p k) order_none) p
          order_none)
        (first_of segs p k) (k + 1)

  abbrev Steps : (n : ℕ) → PagePtr → Phys → ℕ → Type 0
  Steps n p s k =
      suc k < order_num
      → (s.pages (buddy_of segs p k)).order ≡ k
      → out_of_range p k ≡ false
      → differs s p k ≡ false
      → merge segs (suc n) p s ≡ merge segs n (first_of segs p k) (next p k s)

  merge-step : (n : ℕ) (p : PagePtr) (k : ℕ) (s : Phys) → (s.pages p).order ≡ k → Steps n p s k
  unfolding merge
  merge-step n p k s at = subst (Steps n p s) at here
    where
      here : Steps n p s (s.pages p).order
      here small equal out d =
          let rem =
            freelist_rem-some s (buddy_of segs p (s.pages p).order) (s.pages p).order equal
              (omega arith) in
          simp (out, d, rem)

  merge-Merged :
      (n : ℕ) (p : PagePtr) (k : ℕ) (s : Phys)
      → n + k ≡ order_max
      → IsApart segs s p k
      → (q : PagePtr) × (s' : Phys) × (merge segs n p s ≡ some (q, s')) × Merged s p k q s'
  unfolding merge
  merge-Merged zero p k s e a = (p, s, refl, unmerged s p k a)
  merge-Merged (suc n) p k s e a = elim (Bool-cases (out_of_range p k)) [
    | inl out ↦ (p, s, merge-stop_range n p k s a.order out, unmerged s p k a)
    | inr inside ↦ elim (Bool-cases (differs s p k)) [
      | inl d ↦ (p, s, merge-stop_buddy n p k s a.order inside d, unmerged s p k a)
      | inr same_order ↦
          let small : suc k < order_num = omega arith in
          let sum : k + 1 ≡ suc k = omega arith in
          let low : (segs p.seg).start ≤ flip (page_addr segs p) k = in_range _ _ _ inside in
          let (equal, free) : ((s.pages (buddy_of segs p k)).order ≡ k)
              × (is_free s (buddy_of segs p k) ≡ true) =
            equal_buddy _ _ _ same_order in
          let (q, s', run, m) =
            merge-Merged n (first_of segs p k) (suc k) (doubled s p k small a low free equal)
              (omega arith) (doubled-IsApart s p k small a low free equal) in
          (
            q,
            s',
            merge-step n p k s a.order small equal inside same_order
                ∙ ap
                    (λ j.
                      merge segs n (first_of segs p k)
                        (set_order (cleared s p k small a low free equal) (first_of segs p k) j))
                    sum
                ∙ run,
            record {
              order = m.order;
              held = m.held;
              frames = λ f. m.frames f ∙ doubled-cover s p k small a low free equal f;
              mem_free = m.mem_free;
            },
          )
    ]
  ]

  -- `vm_page_free` of a block that is held at order `k`, and whose frames no free block covers,
  -- succeeds in valid memory: the memory stays valid, the frames that are free afterwards are those
  -- that were free and the frames of the block, however far it was merged, and the counter of free
  -- memory grows by the size of the block.
  pub vm_page_free-frames :
      (s : Phys) (p : PagePtr) (k : ℕ)
      → IsValid segs s
      → Held s p k
      → (s' : Phys) × (vm_page_free segs p s ≡ some s')
        × IsValid segs s'
        × ((f : ℕ)
            → cover segs f s'.freelist ≡ cover segs f s.freelist + in_block f (page_addr segs p) k)
        × (s'.mem_free ≡ s.mem_free + 2 ^ (12 + k))
  unfolding vm_page_free vm_page_size
  vm_page_free-frames s p k v h =
      let freed : Phys = record s { mem_free = s.mem_free + 2 ^ (12 + k) } in
      let a : IsApart segs freed p k = record {
        listed = v.listed;
        all_inside = v.all_inside;
        here = h.here;
        order = h.order;
        used = h.used;
        apart = h.apart;
      } in
      let (q, s1, run, m) =
        merge-Merged (order_max - k) p k freed (omega (arith, h.here.small)) a in
      let add = freelist_add-some s1 q m.order m.held.order m.held.here.small in
      let s' : Phys = added s1 q m.order in
      let frames : (f : ℕ)
          → cover segs f s'.freelist ≡ cover segs f s.freelist + in_block f (page_addr segs p) k =
        λ f. added-cover s1 q m.order m.held.order m.held.here.small segs f ∙ m.frames f in
      (
        s',
        rw (vm_page_free, h.used, h.pincnt, h.flags, h.order, h.room, run, add) refl,
        record {
          listed =
              added-Listed s1 q m.order m.held.order m.held.here.small m.held.listed m.held.used;
          all_inside =
              added-AllInside segs s1 q m.order m.held.all_inside (rw m.held.order m.held.here);
          apart = λ f. omega (arith, frames f, h.apart f);
        },
        frames,
        m.mem_free,
      )
