-- ===== src/Phys/Blocks.antt =====
-- The page frames that the free lists of vm/phys.c cover.
use elos.Base.{
  ℕ, zero, suc, ◌+◌, ◌^◌, ◌<◌, ◌≡◌, ap, true, inl, inr, List, [], ◌∷◌, ◌++◌, ◌&&◌, arith,
  Bool-cases, ==_refl, ne→==_false, ltb, leb, ◌==◌, if◌then◌else◌,
}
use elos.Phys.{Physeg, PagePtr, same, order_num, page_addr, remove}
use elos.Phys.Sum.{sum_to, sum_to_change}

-- 1 if the frame `f` lies in the block of `2 ^ k` frames from `a` on
abbrev pub in_block : (f a k : ℕ) → ℕ
in_block f a k = if leb a f && ltb f (a + 2 ^ k) then 1 else 0

pub pow_pos : (k : ℕ) → 0 < 2 ^ k
pow_pos zero = omega arith
pow_pos (suc k) = omega (arith, pow_pos k)

pub in_block-suc : (f a k : ℕ) → in_block f a (suc k) ≡ in_block f a k + in_block f (a + 2 ^ k) k
in_block-suc f a k = let double : 2 ^ suc k ≡ 2 ^ k + 2 ^ k = omega arith in ground arith

pub same_eq : (p q : PagePtr) → same p q ≡ true → p ≡ q
same_eq p q h =
    let e : p.seg ≡ q.seg = ground arith in
    let e' : p.idx ≡ q.idx = ground arith in λ i. record { seg = e i; idx = e' i }

pub same_refl : (p : PagePtr) → same p p ≡ true
same_refl p = ground arith

-- how often a page stands in a list
unfoldable pub occurs : PagePtr → List PagePtr → ℕ
occurs p [] = 0
occurs p (q ∷ qs) = (if same p q then 1 else 0) + occurs p qs

pub occurs-append :
    (p q : PagePtr) (qs : List PagePtr)
    → occurs p (qs ++ (q ∷ [])) ≡ occurs p qs + (if same p q then 1 else 0)
unfolding occurs
occurs-append p q [] = omega arith
occurs-append p q (r ∷ qs) = omega (arith, occurs-append p q qs)

pub occurs-remove :
    (p q : PagePtr) (qs : List PagePtr)
    → 0 < occurs q qs
    → occurs p (remove q qs) + (if same p q then 1 else 0) ≡ occurs p qs
unfolding occurs remove
occurs-remove p q [] h = absurd (omega arith)
occurs-remove p q (r ∷ qs) h = elim (Bool-cases (same q r)) [
  | inl hit ↦ ground arith
  | inr miss ↦ ground (arith, occurs-remove p q qs)
]

module _ (segs : ℕ → Physeg) (f : ℕ) where
  unfoldable pub list_cover : ℕ → List PagePtr → ℕ
  list_cover k [] = 0
  list_cover k (p ∷ ps) = in_block f (page_addr segs p) k + list_cover k ps

  -- how many listed blocks hold the frame `f`
  unfoldable pub cover : (ℕ → List PagePtr) → ℕ
  cover lists = sum_to order_num (λ k. list_cover k (lists k))

  pub list_cover-append :
      (k : ℕ) (ps : List PagePtr) (p : PagePtr)
      → list_cover k (ps ++ (p ∷ [])) ≡ list_cover k ps + in_block f (page_addr segs p) k
  unfolding list_cover
  list_cover-append k [] p = ground arith
  list_cover-append k (q ∷ ps) p = ground (arith, list_cover-append k ps p)

  pub list_cover-remove :
      (k : ℕ) (ps : List PagePtr) (p : PagePtr)
      → 0 < occurs p ps
      → list_cover k (remove p ps) + in_block f (page_addr segs p) k ≡ list_cover k ps
  unfolding list_cover remove occurs
  list_cover-remove k [] p h = absurd (omega arith)
  list_cover-remove k (q ∷ ps) p h = elim (Bool-cases (same p q)) [
    | inl hit ↦
        let e : page_addr segs p ≡ page_addr segs q = ap (page_addr segs) (same_eq p q hit) in
        simp (hit, e) (omega arith)
    | inr miss ↦ ground (arith, list_cover-remove k ps p)
  ]

  -- one list changed
  pub cover_change :
      (lists : ℕ → List PagePtr) (k : ℕ) (ps : List PagePtr)
      → k < order_num
      → cover (λ j. if k == j then ps else lists j) + list_cover k (lists k)
        ≡ cover lists + list_cover k ps
  unfolding cover
  cover_change lists k ps l =
      let here : list_cover k (if k == k then ps else lists k) ≡ list_cover k ps =
        ap (λ b. list_cover k (if b then ps else lists k)) (==_refl k) in
      let h =
        sum_to_change order_num k (λ j. list_cover j (if k == j then ps else lists j))
          (λ j. list_cover j (lists j)) l (λ j ne. simp (ne→==_false k j ne)) in
      omega (arith, h, here)
