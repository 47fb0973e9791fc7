-- ===== src/Phys/Sum.antt =====
-- Sums over the free lists, and what changing one list does to them.
use elos.Base.{ℕ, zero, suc, ◌+◌, ◌≤◌, ◌<◌, ◌≡◌, ◌≢◌, refl, ap, ap₂, arith, dec_lt}

unfoldable pub sum_to : ℕ → (ℕ → ℕ) → ℕ
sum_to zero g = 0
sum_to (suc n) g = sum_to n g + g n

pub sum_to-eq : (n : ℕ) (g h : ℕ → ℕ) → ((j : ℕ) → j < n → g j ≡ h j) → sum_to n g ≡ sum_to n h
unfolding sum_to
sum_to-eq zero g h e = refl
sum_to-eq (suc n) g h e = ap₂ ◌+◌ (sum_to-eq n g h (λ j l. e j (omega arith))) (e n (omega arith))

-- Two families that differ at one index only.
pub sum_to_change :
    (n k : ℕ) (g h : ℕ → ℕ)
    → k < n
    → ((j : ℕ) → k ≢ j → g j ≡ h j)
    → sum_to n g + h k ≡ sum_to n h + g k
unfolding sum_to
sum_to_change zero k g h l e = absurd (omega arith)
sum_to_change (suc n) k g h l e = elim (dec_lt k n) [
  | yes below ↦ omega (arith, sum_to_change n k g h below e, e n (omega arith))
  | no last ↦
      let here : k ≡ n = omega arith in
      omega (arith, sum_to-eq n g h (λ j l'. e j (omega arith)), ap g here, ap h here)
]

pub le-sum_to : (n k : ℕ) (g : ℕ → ℕ) → k < n → g k ≤ sum_to n g
unfolding sum_to
le-sum_to zero k g l = absurd (omega arith)
le-sum_to (suc n) k g l = elim (dec_lt k n) [
  | yes below ↦ omega (arith, le-sum_to n k g below)
  | no last ↦ let here : k ≡ n = omega arith in omega (arith, ap g here)
]
