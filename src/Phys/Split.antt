-- ===== src/Phys/Split.antt =====
-- The loop of `vm_page_alloc_order` that splits a page: what is free before and after it.
use elos.Base.{
  ℕ, zero, suc, ◌+◌, ◌*◌, ◌%◌, ◌^◌, ◌≤◌, ◌<◌, ◌≡◌, refl, sym, ap, ◌∙◌, true, false, inl, inr, arith,
  Bool-cases, ltb, some, dec_lt,
}
use native.Mathlib.Nat.{add_assoc, zero-mod, mod-mod_of_dvd, add-mod_right, dvd-mul_left}
use elos.Phys.{Physeg, PagePtr, Phys, order_num, is_free, page_addr, set_order, advance, split_page}
use elos.Phys.Sum.{le-sum_to}
use elos.Phys.Blocks.{
  in_block, in_block-suc, pow_pos, same_refl, occurs, list_cover, cover, list_cover-remove,
}
use elos.Phys.Inv.{
  Listed, AllInside, Inside, added, freelist_add-some, added-Listed, added-cover, added-AllInside,
  set_order-Listed, set_order-AllInside,
}

mod_half : (a n : ℕ) → a % (2 * n) ≡ 0 → a % n ≡ 0
mod_half a n h = sym (mod-mod_of_dvd n a (dvd-mul_left n 2)) ∙ ap (λ k. k % n) h ∙ zero-mod n

mod_shift : (a n : ℕ) → a % n ≡ 0 → (a + n) % n ≡ 0
mod_shift a n h = add-mod_right a n ∙ h

module _ (segs : ℕ → Physeg) where
  -- the first frame of a free page is covered
  pub free-cover :
      (s : Phys) (q : PagePtr)
      → Listed s
      → AllInside segs s
      → is_free s q ≡ true
      → 0 < cover segs (page_addr segs q) s.freelist
  unfolding cover
  free-cover s q listed inside free =
      let k = (s.pages q).order in
      let f = page_addr segs q in
      let once : 0 < occurs q (s.freelist k) = ground (arith, listed q k) in
      let here : 0 < in_block f f k = ground (arith, pow_pos k) in
      omega (
        arith,
        here,
        list_cover-remove segs f k (s.freelist k) q once,
        le-sum_to order_num k (λ j. list_cover segs f j (s.freelist j)) (inside q free).small,
      )

  -- What holds of a page of order `k` that is on no list: no listed block meets its own.
  pub record IsApart (s : Phys) (p : PagePtr) (k : ℕ) : Type 0 where
    pub listed : Listed s
    pub all_inside : AllInside segs s
    pub here : Inside segs p k
    pub order : (s.pages p).order ≡ k
    pub used : is_free s p ≡ false
    pub apart : (f : ℕ) → cover segs f s.freelist + in_block f (page_addr segs p) k ≤ 1

  -- The memory in which `p` was halved once.
  abbrev halved : Phys → PagePtr → ℕ → Phys
  halved s p j = added (set_order (set_order s p j) (advance p (2 ^ j)) j) (advance p (2 ^ j)) j

  buddy_used :
      (s : Phys) (p : PagePtr) (j : ℕ) → IsApart s p (suc j) → is_free s (advance p (2 ^ j)) ≡ false
  buddy_used s p j a = elim (Bool-cases (is_free s (advance p (2 ^ j)))) [
    | inr used ↦ used
    | inl free ↦
        let b : PagePtr = advance p (2 ^ j) in
        let twice : 2 ^ suc j ≡ 2 ^ j + 2 ^ j = omega arith in
        let meets : in_block (page_addr segs b) (page_addr segs p) (suc j) ≡ 1 =
          ground (arith, pow_pos j) in
        absurd (
          omega
            (arith, free-cover s b a.listed a.all_inside free, a.apart (page_addr segs b), meets))
  ]

  module _ (s : Phys) (p : PagePtr) (j : ℕ) (a : IsApart s p (suc j)) where
    abbrev buddy : PagePtr
    buddy = advance p (2 ^ j)

    -- both orders are set
    abbrev ready : Phys
    ready = set_order (set_order s p j) buddy j

    double : 2 ^ suc j ≡ 2 * 2 ^ j
    double = omega arith

    small : j < order_num
    small = omega (arith, a.here.small)

    Inside-lower : Inside segs p j
    Inside-lower = record {
      small = small;
      aligned = mod_half (page_addr segs p) (2 ^ j) (rw double at a.here.aligned);
      fits = omega (arith, a.here.fits);
    }

    Inside-upper : Inside segs buddy j
    Inside-upper = record {
      small = small;
      aligned = rw (← add_assoc) (mod_shift (page_addr segs p) (2 ^ j) Inside-lower.aligned);
      fits = omega (arith, a.here.fits);
    }

    used-ready : is_free ready buddy ≡ false
    used-ready = ground (arith, buddy_used s p j a)

    pub order-ready : (ready.pages buddy).order ≡ j
    order-ready = simp same_refl

    Listed-ready : Listed ready
    Listed-ready =
        set_order-Listed (set_order s p j) buddy j (set_order-Listed s p j a.listed a.used)
          (ground (arith, buddy_used s p j a))

    AllInside-ready : AllInside segs ready
    AllInside-ready =
        set_order-AllInside segs (set_order s p j) buddy j
          (set_order-AllInside segs s p j a.all_inside a.used) (ground (arith, buddy_used s p j a))

    halved-cover :
        (f : ℕ)
        → cover segs f (halved s p j).freelist + in_block f (page_addr segs p) j
          ≡ cover segs f s.freelist + in_block f (page_addr segs p) (suc j)
    halved-cover f = omega (
      arith,
      added-cover ready buddy j order-ready small segs f,
      in_block-suc f (page_addr segs p) j,
      ap (λ n. in_block f n j) (add_assoc (segs p.seg).start p.idx (2 ^ j)),
    )

    halved-IsApart : IsApart (halved s p j) p j
    halved-IsApart = record {
      listed = added-Listed ready buddy j order-ready small Listed-ready used-ready;
      all_inside = added-AllInside segs ready buddy j AllInside-ready (rw order-ready Inside-upper);
      here = Inside-lower;
      order = ground (arith, pow_pos j, same_refl p);
      used = ground (arith, pow_pos j, a.used);
      apart = λ f. omega (arith, halved-cover f, a.apart f);
    }

  pub record Split (s : Phys) (p : PagePtr) (order k : ℕ) (s' : Phys) : Type 0 where
    pub after : IsApart s' p order
    pub frames :
        (f : ℕ)
        → cover segs f s'.freelist + in_block f (page_addr segs p) order
          ≡ cover segs f s.freelist + in_block f (page_addr segs p) k
    pub mem_free : s'.mem_free ≡ s.mem_free

  pub split_page-Split :
      (p : PagePtr) (order k : ℕ) (s : Phys)
      → order ≤ k
      → IsApart s p k
      → (s' : Phys) × (split_page p order k s ≡ some s') × Split s p order k s'
  unfolding split_page
  split_page-Split p order zero s le a =
      let e : order ≡ 0 = omega arith in
      (s, refl, record { after = rw e a; frames = λ f. rw e; mem_free = refl })
  split_page-Split p order (suc j) s le a = elim (dec_lt order (suc j)) [
    | no done ↦
        let e : order ≡ suc j = omega arith in
        let stop : ltb order (suc j) ≡ false = ground arith in
        (s, simp stop, record { after = rw e a; frames = λ f. rw e; mem_free = refl })
    | yes more ↦
        let on : ltb order (suc j) ≡ true = ground arith in
        let (s', run, split) =
          split_page-Split p order j (halved s p j) (omega arith) (halved-IsApart s p j a) in
        let add =
          freelist_add-some (ready s p j a) (advance p (2 ^ j)) j (order-ready s p j a)
            (small s p j a) in
        let unused : is_free (set_order s p j) (advance p (2 ^ j)) ≡ false =
          ground (arith, buddy_used s p j a) in
        (
          s',
          simp (on, unused, add, run),
          record {
            after = split.after;
            frames = λ f. omega (arith, split.frames f, halved-cover s p j a f);
            mem_free = split.mem_free;
          },
        )
  ]
