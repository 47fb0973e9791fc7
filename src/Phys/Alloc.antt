-- ===== src/Phys/Alloc.antt =====
-- `vm_page_alloc_order`: each of its outcomes, and the memory that it leaves.
use elos.Base.{
  ℕ, zero, suc, ◌+◌, ◌-◌, ◌^◌, ◌≤◌, ◌<◌, ◌≡◌, refl, sym, ap, ◌∙◌, true, false, List, [], ◌∷◌, arith,
  ltb, lt→ltb, dec_lt,
}
use elos.Phys.{
  Physeg, PagePtr, Phys, order_num, pg_normal, is_free, page_addr, remove, put_list, set_state,
  Found, found, not_found, bad_page, find_page, freelist_pop, AllocResult, page, null, panic,
  alloc_found, vm_page_alloc_order, pressure_inc,
}
use elos.Phys.Blocks.{in_block, same_refl, occurs, cover}
use elos.Phys.Inv.{
  Listed, AllInside, Inside, removed, removed-Listed, removed-cover, removed-AllInside,
}
use elos.Phys.Split.{IsApart, split_page-Split}

-- The invariant between two calls: free pages, and they alone, stand on the lists of their orders,
-- their blocks are aligned and inside their segments, and no frame lies in two of them.
pub record IsValid (segs : ℕ → Physeg) (s : Phys) : Type 0 where
  pub listed : Listed s
  pub all_inside : AllInside segs s
  pub apart : (f : ℕ) → cover segs f s.freelist ≤ 1

-- the `n` lists from `i` on are empty
abbrev pub AllEmpty : (n i : ℕ) → Phys → Type 0
AllEmpty zero i s = Unit
AllEmpty (suc n) i s = (s.freelist i ≡ []) × AllEmpty n (suc i) s

module _ (segs : ℕ → Physeg) where
  -- `p` was taken off the lists, and is held at order `k`.
  pub record Taken (s : Phys) (p : PagePtr) (k : ℕ) (s' : Phys) : Type 0 where
    pub held : IsApart segs s' p k
    pub frames :
        (f : ℕ)
        → cover segs f s'.freelist + in_block f (page_addr segs p) k ≡ cover segs f s.freelist
    pub mem_free : s'.mem_free ≡ s.mem_free

  removed-Taken :
      (s : Phys) (p : PagePtr) (k : ℕ)
      → IsValid segs s
      → is_free s p ≡ true
      → (s.pages p).order ≡ k
      → Taken s p k (removed s p k)
  removed-Taken s p k v free at =
      let here : Inside segs p k = rw at at (v.all_inside p free) in
      let frames = removed-cover s p k at here.small segs in
      record {
        held = record {
          listed = removed-Listed s p k at here.small v.listed free;
          all_inside = removed-AllInside segs s p k v.all_inside;
          here = here;
          order = ground (arith, same_refl p);
          used = ground (arith, same_refl p);
          apart = λ f. omega (arith, frames f v.listed free, v.apart f);
        };
        frames = λ f. frames f v.listed free;
        mem_free = refl;
      }

  abbrev Search : Phys → (n i : ℕ) → Found → Type 0
  Search s n i not_found = AllEmpty n i s
  Search s n i bad_page = ⊥
  Search s n i (found p s') = (k : ℕ) × (i ≤ k) × Taken s p k s'

  Search-later :
      (s : Phys) (n i : ℕ) (r : Found)
      → s.freelist i ≡ []
      → Search s n (suc i) r
      → Search s (suc n) i r
  Search-later s n i not_found e h = (e, h)
  Search-later s n i bad_page e h = h
  Search-later s n i (found p s') e (k, le, t) = (k, omega arith, t)

  head-free :
      (s : Phys) (p : PagePtr) (i : ℕ) (ps : List PagePtr)
      → Listed s
      → s.freelist i ≡ p ∷ ps
      → (is_free s p ≡ true) × ((s.pages p).order ≡ i)
  unfolding occurs
  head-free s p i ps listed e =
      let once : 0 < occurs p (s.freelist i) = rw e (ground (arith, same_refl p)) in
      ground (arith, listed p i)

  find_page-Search : (n i : ℕ) (s : Phys) → IsValid segs s → Search s n i (find_page n i s)
  unfolding find_page freelist_pop remove
  find_page-Search zero i s v = tt
  find_page-Search (suc n) i s v = go (s.freelist i) refl (find_page-Search n (suc i) s v)
    where
      go :
          (ps : List PagePtr)
          → s.freelist i ≡ ps
          → Search s n (suc i) (find_page n (suc i) s)
          → Search s (suc n) i (find_page (suc n) i s)
      go [] e h = rw (e, find_page) (Search-later s n i _ e h)
      go (p ∷ ps) e h =
          let (free, at) = head-free s p i ps v.listed e in
          let rest : remove p (s.freelist i) ≡ ps = rw e (simp same_refl) in
          let popped : find_page (suc n) i s ≡ found p (set_state (put_list s i ps) p pg_normal) =
            rw (find_page, freelist_pop, e, free) in
          let step : find_page (suc n) i s ≡ found p (removed s p i) =
            popped ∙ ap (λ qs. found p (set_state (put_list s i qs) p pg_normal)) (sym rest) in
          rw step (i, omega arith, removed-Taken s p i v free at)

  -- The three ways in which an allocation of this order can end.
  abbrev pub Allocates : Phys → ℕ → AllocResult → Type 0
  Allocates s order null = s.mem_free < 2 ^ (order + 12) + s.threshold
  Allocates s order panic = AllEmpty (order_num - order) order s
  Allocates s order (page p s') =
      (s'.mem_free + 2 ^ (order + 12) ≡ s.mem_free)
      × IsValid segs s'
      × IsApart segs s' p order
      × ((f : ℕ)
          → cover segs f s'.freelist + in_block f (page_addr segs p) order
            ≡ cover segs f s.freelist)

  alloc_found-Allocates :
      (s : Phys) (order : ℕ) (r : Found)
      → 2 ^ (order + 12) ≤ s.mem_free
      → Search s (order_num - order) order r
      → Allocates s order (alloc_found order r)
  unfolding alloc_found
  alloc_found-Allocates s order not_found le h = h
  alloc_found-Allocates s order bad_page le h = absurd h
  alloc_found-Allocates s order (found p s1) le (k, lek, t) =
      let (s', run, split) = split_page-Split segs p order k s1 lek t.held in
      let at : (s1.pages p).order ≡ k = t.held.order in
      let done : alloc_found order (found p s1) ≡ page p (pressure_inc (2 ^ (order + 12)) s') =
        rw (alloc_found, at, run) in
      rw done (
        omega (arith, split.mem_free, t.mem_free),
        record {
          listed = split.after.listed;
          all_inside = split.after.all_inside;
          apart = λ f. omega (arith, split.after.apart f);
        },
        record {
          listed = split.after.listed;
          all_inside = split.after.all_inside;
          here = split.after.here;
          order = split.after.order;
          used = split.after.used;
          apart = split.after.apart;
        },
        λ f. omega (arith, split.frames f, t.frames f),
      )

  -- From valid memory `vm_page_alloc_order` returns NULL if the counter of free memory is short,
  -- panics only if all lists from the order on are empty, and otherwise returns an aligned block of
  -- exactly that order: its frames are no longer free and no other frame changes, the counter falls
  -- by its size, and the memory stays valid.
  pub vm_page_alloc_order-Allocates :
      (s : Phys) (order : ℕ) → IsValid segs s → Allocates s order (vm_page_alloc_order order s)
  unfolding vm_page_alloc_order
  vm_page_alloc_order-Allocates s order v =
      elim (dec_lt s.mem_free (2 ^ (order + 12) + s.threshold)) [
        | yes short ↦
            let e : ltb s.mem_free (2 ^ (order + 12) + s.threshold) ≡ true = lt→ltb _ _ short in
            rw e short
        | no enough ↦
            let e : ltb s.mem_free (2 ^ (order + 12) + s.threshold) ≡ false = ground arith in
            simp e (
              alloc_found-Allocates s order (find_page (order_num - order) order s) (omega arith)
                (find_page-Search (order_num - order) order s v))
      ]
