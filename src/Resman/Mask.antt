-- ===== src/Resman/Mask.antt =====
-- `ALIGN` of elos.h, which masks bits away, against rounding up to a multiple, for powers of two.
use elos.Base.{ℕ, zero, suc, ◌+◌, ◌-◌, ◌*◌, ◌/◌, ◌%◌, ◌^◌, ◌≤◌, ◌<◌, ◌≡◌, ◌∙◌, ap, arith, align_up}
use native.Mathlib.Nat.{pow-suc, pow-le-pow_right, div-div-eq-div-mul}
use elos.Resman.{word, bit_and, align_addr}

pub one_le-pow : (n : ℕ) → 1 ≤ 2 ^ n
one_le-pow n = pow-le-pow_right {n = 2} (omega arith) {i = 0} {j = n} (omega arith)

-- A mask of all bits from `k` on clears the others.
bit_and-mask : (n k y : ℕ) → y < 2 ^ n → k ≤ n → bit_and n y (2 ^ n - 2 ^ k) ≡ y / 2 ^ k * 2 ^ k
unfolding bit_and
bit_and-mask zero zero y l h = omega (arith, l)
bit_and-mask zero (suc k) y l h = absurd (omega arith)
bit_and-mask (suc n) zero y l h =
    let full = one_le-pow n in
    let twice = pow-suc 2 n in
    let odd : (2 ^ suc n - 1) % 2 ≡ 1 = omega (arith, full, twice) in
    let rest : (2 ^ suc n - 1) / 2 ≡ 2 ^ n - 2 ^ 0 = omega (arith, full, twice) in
    let low = bit_and-mask n zero (y / 2) (omega (arith, l, twice)) (omega arith) in
    rw (odd, rest, low) (omega arith)
bit_and-mask (suc n) (suc k) y l h =
    let twice = pow-suc 2 n in
    let twice_k = pow-suc 2 k in
    let even : (2 ^ suc n - 2 ^ suc k) % 2 ≡ 0 = omega (arith, twice, twice_k) in
    let rest : (2 ^ suc n - 2 ^ suc k) / 2 ≡ 2 ^ n - 2 ^ k = omega (arith, twice, twice_k) in
    let low = bit_and-mask n k (y / 2) (omega (arith, l, twice)) (omega (arith, h)) in
    let parts : y / 2 / 2 ^ k ≡ y / 2 ^ suc k =
      div-div-eq-div-mul y 2 (2 ^ k) ∙ ap (λ m. y / m) (omega (arith, twice_k)) in
    rw (even, rest, low, parts, twice_k) (grind arith)

-- Where nothing wraps, `ALIGN` rounds up to a multiple of a power of two.
pub align_addr-align_up :
    (k x : ℕ) → k < 64 → x + 2 ^ k ≤ 2 ^ 64 → align_addr x (2 ^ k) ≡ align_up x (2 ^ k)
unfolding align_addr align_up
align_addr-align_up k x small fits =
    let pos = one_le-pow k in
    let bits : word (2 ^ k + (2 ^ 64 - 1)) ≡ 2 ^ k - 1 = omega (arith, pos, fits) in
    let sum : word (x + (2 ^ k - 1)) ≡ x + 2 ^ k - 1 = omega (arith, pos, fits) in
    let mask : 2 ^ 64 - 1 - (2 ^ k - 1) ≡ 2 ^ 64 - 2 ^ k = omega (arith, pos, fits) in
    let masked =
      bit_and-mask 64 k (x + 2 ^ k - 1) (omega (arith, pos, fits)) (omega (arith, small)) in
    rw (bits, sum, mask) masked
