-- ===== src/Uio/Sizes.antt =====
-- vfs/uio.c: the sizes that `copyinuio` accepts.
use elos.Base.{
  ℕ, ◌+◌, ◌-◌, ◌≤◌, ◌≡◌, refl, ap, ◌∙◌, ◌||◌, inl, inr, List, [], ◌∷◌, if◌then◌else◌, ltb, leb,
  arith, Bool-cases, length, length-append, ltb_false→le, true, false,
}
use elos.Base.Errno.{ok, err, einval}
use elos.User.{Memory}
use elos.Uio.{Iovec, size_max, iov_max, add_sizes, sized, copyinuio}
use elos.Uio.Stream.{Stream}

-- the number of bytes of all buffers, without an overflow
abbrev pub total_len : List Iovec → ℕ
total_len [] = 0
total_len (v ∷ vs) = v.iov_len + total_len vs

add_sizes-total_len :
    (vs : List Iovec) (size : ℕ)
    → size ≤ size_max
    → add_sizes vs size
      ≡ (if ltb size_max (size + total_len vs) then err einval else ok (size + total_len vs))
unfolding add_sizes
add_sizes-total_len [] size l =
    let fits : ltb size_max (size + 0) ≡ false = ground arith in
    let same : size + 0 ≡ size = omega arith in rw (fits, same) refl
add_sizes-total_len (v ∷ vs) size l = elim (Bool-cases (ltb (size_max - size) v.iov_len)) [
  | inl over ↦
      let too_many : ltb size_max (size + (v.iov_len + total_len vs)) ≡ true =
        ground (arith, over) in
      rw (over, too_many) refl
  | inr fits ↦
      let few : size + v.iov_len ≤ size_max = omega (arith, ltb_false→le _ _ fits, l) in
      let same : size + v.iov_len + total_len vs ≡ size + (v.iov_len + total_len vs) =
        omega arith in
      rw fits (add_sizes-total_len vs (size + v.iov_len) few ∙ rw same refl)
]

-- With memory for the uio and vectors that could be read, `copyinuio` accepts exactly fewer than 1024 buffers whose sizes add up to at most SIZE_MAX, without an
-- overflow on the way; its uio starts at 0 with that sum as its size, and else it fails with EINVAL.
pub copyinuio-total_len :
    (iovc : ℕ) (vs : List Iovec)
    → copyinuio iovc true (ok vs) ≡ (
        if leb iov_max iovc || ltb size_max (total_len vs)
        then err einval
        else ok (record { iov = vs; off = 0; size = total_len vs }))
unfolding copyinuio
copyinuio-total_len iovc vs = elim (Bool-cases (leb iov_max iovc)) [
  | inl many ↦ rw many refl
  | inr few ↦
      let none_yet : 0 + total_len vs ≡ total_len vs = omega arith in
      let sum = add_sizes-total_len vs 0 (omega arith) in
      elim (Bool-cases (ltb size_max (total_len vs))) [
        | inl over ↦
            let failed : add_sizes vs 0 ≡ err einval = sum ∙ rw (none_yet, over) refl in
            rw (few, over) (ap (sized vs) failed)
        | inr fits ↦
            let passed : add_sizes vs 0 ≡ ok (total_len vs) = sum ∙ rw (none_yet, fits) refl in
            rw (few, fits) (ap (sized vs) passed)
      ]
]

-- The size of such a uio is the number of bytes in its buffers.
pub length-total_len :
    (m : Memory) (vs : List Iovec) (bs : List ℕ) → Stream m vs bs → total_len vs ≡ length bs
length-total_len m [] bs e = let none_left = ap length e in omega (arith, none_left)
length-total_len m (v ∷ vs) bs (own, others, split, len, stands, st) =
    omega (arith, length-total_len m vs others st, ap length split, length-append own others, len)
