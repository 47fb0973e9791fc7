-- ===== src/Phys/Pairs.antt =====
-- The two blocks that the merge loop of `vm_page_free` puts together.
use elos.Base.{
  ℕ, suc, ◌+◌, ◌-◌, ◌*◌, ◌/◌, ◌%◌, ◌^◌, ◌≤◌, ◌<◌, ◌≡◌, ◌≢◌, sym, subst, ap, ◌∙◌, inl, inr, arith,
  ◌⊎◌, ℕ_discrete,
}
use native.Mathlib.Nat.{div-add-mod}
use elos.Phys.{Physeg, PagePtr, order_num, page_addr, flip}
use elos.Phys.Blocks.{in_block, in_block-suc, pow_pos}
use elos.Phys.Inv.{Inside}

mod_lem : (m n r : ℕ) → r < n → (m * n + r) % n ≡ r
mod_lem m n r h = grind arith

-- an aligned address in pairs of blocks of size `n`
pairs : (a n r : ℕ) → a % n ≡ 0 → a / n % 2 ≡ r → a ≡ a / n / 2 * (2 * n) + r * n
pairs a n r e b =
    let q : a / n ≡ 2 * (a / n / 2) + r = omega arith in
    let whole : n * (a / n) + a % n ≡ a = div-add-mod a n in
    omega (arith, whole, e, ap (λ t. n * t) q)

even_block :
    (a n : ℕ) → 0 < n → a % n ≡ 0 → a / n % 2 ≡ 0 → (a % (2 * n) ≡ 0) × ((a + n) % (2 * n) ≡ n)
even_block a n h e b =
    let m : ℕ = a / n / 2 in
    let p = pairs a n 0 e b in
    let p0 : a ≡ m * (2 * n) + 0 = omega (arith, p) in
    let p1 : a + n ≡ m * (2 * n) + n = omega (arith, p) in
    (
      ap (λ t. t % (2 * n)) p0 ∙ mod_lem m (2 * n) 0 (omega arith),
      ap (λ t. t % (2 * n)) p1 ∙ mod_lem m (2 * n) n (omega arith),
    )

odd_block : (a n : ℕ) → 0 < n → a % n ≡ 0 → a / n % 2 ≢ 0 → (n ≤ a) × ((a - n) % (2 * n) ≡ 0)
odd_block a n h e b =
    let m : ℕ = a / n / 2 in
    let p = pairs a n 1 e (omega arith) in
    let p1 : a - n ≡ m * (2 * n) + 0 = omega (arith, p) in
    (omega (arith, p), ap (λ t. t % (2 * n)) p1 ∙ mod_lem m (2 * n) 0 (omega arith))

module _ (segs : ℕ → Physeg) where
  -- the buddy of the block of order `k` at `p`, and the lower of the two
  abbrev pub buddy_of : PagePtr → ℕ → PagePtr
  buddy_of p k = record { seg = p.seg; idx = flip (page_addr segs p) k - (segs p.seg).start }

  abbrev pub first_of : PagePtr → ℕ → PagePtr
  first_of p k =
      let addr = flip (page_addr segs p) k in
      record { seg = p.seg; idx = addr - addr % 2 ^ suc k - (segs p.seg).start }

  -- What the two blocks make together.
  pub record Pair (p : PagePtr) (k : ℕ) : Type 0 where
    pub either : (first_of p k ≡ p) ⊎ (first_of p k ≡ buddy_of p k)
    pub here : Inside segs (first_of p k) (suc k)
    pub frames :
        (f : ℕ)
        → in_block f (page_addr segs (first_of p k)) (suc k)
          ≡ in_block f (page_addr segs p) k + in_block f (page_addr segs (buddy_of p k)) k

  pub pair_lem :
      (p : PagePtr) (k : ℕ)
      → suc k < order_num
      → (segs p.seg).start ≤ flip (page_addr segs p) k
      → Inside segs p k
      → Inside segs (buddy_of p k) k
      → Pair p k
  pair_lem p k small low ip ib = elim (ℕ_discrete (page_addr segs p / 2 ^ k % 2) 0) [
    | yes even ↦
        let (whole, upper) = even_block (page_addr segs p) (2 ^ k) (pow_pos k) ip.aligned even in
        let double : 2 ^ suc k ≡ 2 * 2 ^ k = omega arith in
        let at : flip (page_addr segs p) k ≡ page_addr segs p + 2 ^ k = ground arith in
        let idx : (first_of p k).idx ≡ p.idx = rw (at, double, upper) (omega arith) in
        let e : first_of p k ≡ p = λ i. record { seg = p.seg; idx = idx i } in
        let above : page_addr segs (buddy_of p k) ≡ page_addr segs p + 2 ^ k =
          omega (arith, at, low) in
        record {
          either = inl e;
          here =
              subst (λ q. Inside segs q (suc k)) (sym e)
                (record {
                  small = small;
                  aligned = rw double whole;
                  fits = omega (arith, at, ib.fits, double);
                });
          frames = λ f. omega (
            arith,
            ap (λ q. in_block f (page_addr segs q) (suc k)) e,
            in_block-suc f (page_addr segs p) k,
            ap (λ a. in_block f a k) above,
          );
        }
    | no odd ↦
        let (le, whole) = odd_block (page_addr segs p) (2 ^ k) (pow_pos k) ip.aligned odd in
        let double : 2 ^ suc k ≡ 2 * 2 ^ k = omega arith in
        let at : flip (page_addr segs p) k ≡ page_addr segs p - 2 ^ k = ground arith in
        let idx : (first_of p k).idx ≡ (buddy_of p k).idx = rw (at, double, whole) (omega arith) in
        let e : first_of p k ≡ buddy_of p k = λ i. record { seg = p.seg; idx = idx i } in
        let base : page_addr segs (buddy_of p k) ≡ page_addr segs p - 2 ^ k =
          omega (arith, at, low) in
        let below : page_addr segs (buddy_of p k) + 2 ^ k ≡ page_addr segs p =
          omega (arith, at, low) in
        record {
          either = inr e;
          here =
              subst (λ q. Inside segs q (suc k)) (sym e)
                (record {
                  small = small;
                  aligned =
                      ap (λ t. t % 2 ^ suc k) base
                      ∙ ap (λ n. (page_addr segs p - 2 ^ k) % n) double
                      ∙ whole;
                  fits = omega (arith, at, ip.fits, double, low);
                });
          frames = λ f. omega (
            arith,
            ap (λ q. in_block f (page_addr segs q) (suc k)) e,
            in_block-suc f (page_addr segs (buddy_of p k)) k,
            ap (λ a. in_block f a k) below,
          );
        }
  ]
