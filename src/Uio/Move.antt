-- ===== src/Uio/Move.antt =====
-- vfs/uio.c: `uiomove` out of user memory as a read from the stream of the buffers.
use elos.Base.{
  ℕ, zero, suc, ◌+◌, ◌-◌, ◌*◌, ◌≤◌, ◌<◌, ◌≡◌, inl, inr, min, refl, sym, ◌∙◌, ap, subst, true, false,
  ◌||◌, some, List, [], ◌∷◌, ◌++◌, if◌then◌else◌, ◌==◌, arith, Bool-cases, length, take, drop,
  length-append, take-append-drop, length-take, length-drop, ==_iff,
}
use elos.Base.Errno.{ok}
use elos.User.{Memory, copyin}
use elos.Uio.{Iovec, Uio, advance, prepend_bytes, move_loop, uiomove}
use elos.Uio.Stream.{Stands, Stream, Stands-copyin, Stands-split}
use elos.Uio.Rounds.{
  rounds, Left, take-append_more, drop-append_more, append_assoc, move_loop-skip, move_loop-move,
  stop-Left,
}

abbrev need : ℕ → List Iovec → ℕ
need size vs = if size == 0 then 1 else suc (rounds vs)

-- What the move of `size` bytes from `u` ends with.
Ends : ℕ → Memory → ℕ → Uio → List ℕ → Type 0
Ends n m size u bs =
    (left : Uio) × (move_loop n m size u
      ≡ some (record { result = ok (take size bs); left = left }))
    × Left m size u bs left

-- the rest of the move after the bytes `a`
part-Ends :
    (n : ℕ) (m : Memory) (size num : ℕ) (u : Uio) (v : Iovec) (rest : List Iovec) (a c : List ℕ)
    → ((size == 0) || (u.size == 0)) ≡ false
    → u.iov ≡ v ∷ rest
    → (v.iov_len == 0) ≡ false
    → num ≡ min size v.iov_len
    → length a ≡ num
    → num ≤ u.size
    → copyin m v.iov_base num ≡ ok a
    → Ends n m (size - num) (advance u v rest num) c
    → Ends (suc n) m size u (a ++ c)
unfolding Ends advance
part-Ends n m size num u v rest a c busy e nz is_min la fits copied (left, run, l) =
    let whole : length a + (size - num) ≡ size = omega arith in
    let taken : take size (a ++ c) ≡ a ++ take (size - num) c =
      ap (λ k. take k (a ++ c)) (sym whole) ∙ take-append_more a c (size - num) in
    let dropped : drop size (a ++ c) ≡ drop (size - num) c =
      ap (λ k. drop k (a ++ c)) (sym whole) ∙ drop-append_more a c (size - num) in
    let copied₁ = subst (λ k. copyin m v.iov_base k ≡ ok a) is_min copied in
    let run₁ =
      subst
        (λ k.
          move_loop n m (size - k) (advance u v rest k)
          ≡ some (record { result = ok (take (size - num) c); left = left }))
        is_min run in
    (
      left,
      move_loop-move n m size u v rest a busy e nz copied₁
          ∙ ap (prepend_bytes a) run₁
          ∙ rw taken refl,
      record {
        stream = subst (Stream m left.iov) (sym dropped) l.stream;
        sizes = rw dropped l.sizes;
        offs = omega (arith, l.offs);
      },
    )

no_bytes : (xs : List ℕ) → length xs ≡ 0 → xs ≡ []
no_bytes [] e = refl
no_bytes (x ∷ xs) e = absurd (omega (arith, e))

-- What is known of moves with less fuel.
Known : ℕ → Memory → Type 0
Known n m =
    (size : ℕ) (u : Uio) (bs : List ℕ)
    → Stream m u.iov bs
    → u.size ≡ length bs
    → need size u.iov ≤ n
    → Ends n m size u bs

skip-Ends :
    (n : ℕ) (m : Memory) (size : ℕ) (u : Uio) (bs : List ℕ) (v : Iovec) (rest : List Iovec)
    → ((size == 0) || (u.size == 0)) ≡ false
    → u.iov ≡ v ∷ rest
    → (v.iov_len == 0) ≡ true
    → Ends n m size (record u { iov = rest }) bs
    → Ends (suc n) m size u bs
unfolding Ends
skip-Ends n m size u bs v rest busy e z (left, run, l) = (
  left,
  move_loop-skip n m size u v rest busy e z ∙ run,
  record { stream = l.stream; sizes = l.sizes; offs = l.offs },
)

busy-size : (size k : ℕ) → ((size == 0) || (k == 0)) ≡ false → (size == 0) ≡ false
busy-size size k busy = ground arith

need_after :
    (size len num r n : ℕ)
    → (size == 0) ≡ false
    → (len == 0) ≡ false
    → num ≡ min size len
    → suc ((if len == 0 then 1 else 2) + r) ≤ suc n
    → (if size - num == 0 then 1 else suc ((if len - num == 0 then 1 else 2) + r)) ≤ n
need_after size len num r n sz nz e enough = ground arith

need_skip :
    (size len r n : ℕ)
    → (size == 0) ≡ false
    → (len == 0) ≡ true
    → (if size == 0 then 1 else suc ((if len == 0 then 1 else 2) + r)) ≤ suc n
    → (if size == 0 then 1 else suc r) ≤ n
need_skip size len r n sz z enough = ground arith

module _ (n : ℕ) (m : Memory) (known : Known n m) where
  move-Ends :
      (size : ℕ) (u : Uio) (v : Iovec) (rest : List Iovec) (own others : List ℕ)
      → ((size == 0) || (u.size == 0)) ≡ false
      → u.iov ≡ v ∷ rest
      → (v.iov_len == 0) ≡ false
      → length own ≡ v.iov_len
      → Stands m v.iov_base own
      → Stream m rest others
      → u.size ≡ length (own ++ others)
      → need size (v ∷ rest) ≤ suc n
      → Ends (suc n) m size u (own ++ others)
  unfolding advance Known
  move-Ends size u v rest own others busy e nz len stands st total enough =
      let num = min size v.iov_len in
      let sz = busy-size size u.size busy in
      let sz_pos : 0 < size = ground arith in
      let nz_pos : 0 < v.iov_len = ground arith in
      let a = take num own in
      let b = drop num own in
      let whole : a ++ b ≡ own = take-append-drop num own in
      let la : length a ≡ num = omega (arith, length-take num own, len) in
      let lb = length-drop num own in
      let (sa, sb) =
        Stands-split m v.iov_base a b (subst (Stands m v.iov_base) (sym whole) stands) in
      let copied : copyin m v.iov_base num ≡ ok a =
        subst (λ k. copyin m v.iov_base k ≡ ok a) la
          (Stands-copyin m v.iov_base a (omega (arith, la, sz_pos, nz_pos)) sa) in
      let fits : num ≤ u.size = omega (arith, total, length-append own others, len) in
      let stream : Stream m (advance u v rest num).iov (b ++ others) = (
        b,
        others,
        refl,
        omega (arith, lb, len),
        subst (λ k. Stands m (v.iov_base + k) b) la sb,
        st,
      ) in
      let sizes : u.size - num ≡ length (b ++ others) =
        omega (arith, total, length-append own others, length-append b others, lb, len) in
      let need₁ = need_after size v.iov_len num (rounds rest) n sz nz refl (rw sz at enough) in
      let rest_moved = known (size - num) (advance u v rest num) (b ++ others) stream sizes need₁ in
      subst (λ xs. Ends (suc n) m size u xs)
        (sym (append_assoc a b others) ∙ ap (λ xs. xs ++ others) whole)
        (part-Ends n m size num u v rest a (b ++ others) busy e nz refl la fits copied rest_moved)

  chunk-Ends :
      (size : ℕ) (u : Uio) (bs : List ℕ) (vs : List Iovec)
      → u.iov ≡ vs
      → ((size == 0) || (u.size == 0)) ≡ false
      → Stream m vs bs
      → u.size ≡ length bs
      → need size vs ≤ suc n
      → Ends (suc n) m size u bs
  unfolding Known
  chunk-Ends size u bs [] e_iov busy done e enough =
      let none_left : u.size ≡ 0 = e ∙ ap length done in absurd (ground arith)
  chunk-Ends size u bs (v ∷ rest) e_iov busy (own, others, split, len, stands, st) e enough =
      elim (Bool-cases (v.iov_len == 0)) [
        | inl z ↦
            let empty = no_bytes own (len ∙ (==_iff v.iov_len 0).0 z) in
            let same : others ≡ bs = sym (split ∙ ap (λ xs. xs ++ others) empty) in
            skip-Ends n m size u bs v rest busy e_iov z (
              known size (record u { iov = rest }) bs (subst (Stream m rest) same st) e
                (need_skip size v.iov_len (rounds rest) n (busy-size size u.size busy) z enough))
        | inr nz ↦ subst (Ends (suc n) m size u) (sym split) (
            move-Ends size u v rest own others busy e_iov nz len stands st (e ∙ ap length split)
              enough)
      ]

move_loop-Ends : (n : ℕ) (m : Memory) → Known n m
unfolding Known Ends
move_loop-Ends zero m = λ size u bs st e enough. absurd (ground arith)
move_loop-Ends (suc n) m = λ size u bs st e enough.
    elim (Bool-cases ((size == 0) || (u.size == 0))) [
      | inl h ↦ stop-Left n m size u bs h st e
      | inr busy ↦ chunk-Ends n m (move_loop-Ends n m) size u bs u.iov refl busy st e enough
    ]

rounds_le : (vs : List Iovec) → rounds vs ≤ 2 * length vs
rounds_le [] = omega arith
rounds_le (v ∷ vs) = ground (arith, rounds_le vs)

-- From a uio whose buffers hold the bytes `bs` and whose size is their number, with fuel of one more than
-- twice the number of buffers, `uiomove` of `size` bytes ends without an error, returns the first
-- `size` bytes or all of them, and leaves a uio for the others, whose offset has gone on by as many
-- bytes as its size went down.
pub uiomove-Left :
    (m : Memory) (size : ℕ) (u : Uio) (bs : List ℕ)
    → Stream m u.iov bs
    → u.size ≡ length bs
    → (left : Uio) × (uiomove (suc (2 * length u.iov)) m size u
        ≡ some (record { result = ok (take size bs); left = left }))
      × Left m size u bs left
unfolding Ends Known uiomove
uiomove-Left m size u bs st e =
    move_loop-Ends (suc (2 * length u.iov)) m size u bs st e
      (let few = rounds_le u.iov in ground (arith, few))
