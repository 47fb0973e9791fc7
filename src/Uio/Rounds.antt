-- ===== src/Uio/Rounds.antt =====
-- vfs/uio.c: the rounds of the loop of `uiomove` one by one.
use elos.Base.{
  ℕ, zero, suc, ◌+◌, ◌-◌, ◌≡◌, min, refl, sym, ap, subst, true, false, ◌||◌, some, List, [], ◌∷◌,
  ◌++◌, if◌then◌else◌, ◌==◌, arith, length, take, drop,
}
use elos.Base.Errno.{ok}
use elos.User.{Memory, copyin}
use elos.Uio.{Iovec, Uio, advance, prepend_bytes, move_loop}
use elos.Uio.Stream.{Stream}

-- how many rounds the buffers cost at most
abbrev pub rounds : List Iovec → ℕ
rounds [] = 0
rounds (v ∷ vs) = (if v.iov_len == 0 then 1 else 2) + rounds vs

-- What a move of `size` bytes leaves of a uio with the stream `bs`.
pub record Left (m : Memory) (size : ℕ) (u : Uio) (bs : List ℕ) (left : Uio) : Type 0 where
  pub stream : Stream m left.iov (drop size bs)
  pub sizes : left.size ≡ length (drop size bs)
  pub offs : left.off + left.size ≡ u.off + u.size

module _ {A : Type 0} where
  pub take-append_more : (a c : List A) (k : ℕ) → take (length a + k) (a ++ c) ≡ a ++ take k c
  take-append_more [] c k = let e : 0 + k ≡ k = omega arith in ap (λ n. take n c) e
  take-append_more (x ∷ a) c k =
      let e : suc (length a) + k ≡ suc (length a + k) = omega arith in
      rw e (ap (λ r. x ∷ r) (take-append_more a c k))

  pub drop-append_more : (a c : List A) (k : ℕ) → drop (length a + k) (a ++ c) ≡ drop k c
  drop-append_more [] c k = let e : 0 + k ≡ k = omega arith in ap (λ n. drop n c) e
  drop-append_more (x ∷ a) c k =
      let e : suc (length a) + k ≡ suc (length a + k) = omega arith in rw e (drop-append_more a c k)

  pub append_assoc : (a b c : List A) → (a ++ b) ++ c ≡ a ++ (b ++ c)
  append_assoc [] b c = refl
  append_assoc (x ∷ a) b c = ap (λ r. x ∷ r) (append_assoc a b c)

  nothing :
      (size : ℕ) (bs : List A)
      → ((size == 0) || (length bs == 0)) ≡ true
      → (take size bs ≡ []) × (drop size bs ≡ bs)
  nothing zero bs h = (refl, refl)
  nothing (suc n) [] h = (refl, refl)
  nothing (suc n) (x ∷ bs) h = absurd (ground arith)

-- The loop stops at once.
pub move_loop-stop :
    (n : ℕ) (m : Memory) (size : ℕ) (u : Uio)
    → ((size == 0) || (u.size == 0)) ≡ true
    → move_loop (suc n) m size u ≡ some (record { result = ok []; left = u })
unfolding move_loop
move_loop-stop n m size u h = rw h refl

-- An empty buffer is skipped.
pub move_loop-skip :
    (n : ℕ) (m : Memory) (size : ℕ) (u : Uio) (v : Iovec) (rest : List Iovec)
    → ((size == 0) || (u.size == 0)) ≡ false
    → u.iov ≡ v ∷ rest
    → (v.iov_len == 0) ≡ true
    → move_loop (suc n) m size u ≡ move_loop n m size (record u { iov = rest })
unfolding move_loop
move_loop-skip n m size u v rest h e z = rw (h, e, z) refl

-- Bytes of the first buffer are moved.
pub move_loop-move :
    (n : ℕ) (m : Memory) (size : ℕ) (u : Uio) (v : Iovec) (rest : List Iovec) (bs : List ℕ)
    → ((size == 0) || (u.size == 0)) ≡ false
    → u.iov ≡ v ∷ rest
    → (v.iov_len == 0) ≡ false
    → copyin m v.iov_base (min size v.iov_len) ≡ ok bs
    → move_loop (suc n) m size u
      ≡ prepend_bytes bs
          (move_loop n m (size - min size v.iov_len) (advance u v rest (min size v.iov_len)))
unfolding move_loop
move_loop-move n m size u v rest bs h e nz c = rw (h, e, nz, c) refl

pub stop-Left :
    (n : ℕ) (m : Memory) (size : ℕ) (u : Uio) (bs : List ℕ)
    → ((size == 0) || (u.size == 0)) ≡ true
    → Stream m u.iov bs
    → u.size ≡ length bs
    → (left : Uio) × (move_loop (suc n) m size u
        ≡ some (record { result = ok (take size bs); left = left }))
      × Left m size u bs left
stop-Left n m size u bs h st e =
    let (none_taken, all_left) =
      nothing size bs (subst (λ k. ((size == 0) || (k == 0)) ≡ true) e h) in
    (
      u,
      rw none_taken (move_loop-stop n m size u h),
      record {
        stream = subst (Stream m u.iov) (sym all_left) st;
        sizes = rw all_left e;
        offs = refl;
      },
    )
