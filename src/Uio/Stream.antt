-- ===== src/Uio/Stream.antt =====
-- vfs/uio.c: a uio as the stream of the bytes of its buffers.
use elos.Base.{
  ℕ, suc, ◌+◌, ◌<◌, ◌≡◌, inl, inr, refl, subst, true, false, ◌||◌, none, some, List, [], ◌∷◌, ◌++◌,
  ◌==◌, arith, Option-cases, length, length-append,
}
use elos.Base.Errno.{ok}
use elos.User.{Memory, copyin, load, region_is_user}
use elos.User.Copy.{load-step, copyin-ok}
use elos.Uio.{Iovec}

-- the bytes stand in user memory
pub record Stands (m : Memory) (base : ℕ) (bs : List ℕ) : Type 0 where
  pub inside : ((length bs == 0) || region_is_user base (length bs)) ≡ true
  pub loaded : load m base (length bs) ≡ some bs

-- the bytes of all buffers in their order
abbrev pub Stream : Memory → List Iovec → List ℕ → Type 0
Stream m [] bs = bs ≡ []
Stream m (v ∷ vs) bs =
    (own : List ℕ) × (others : List ℕ) × (bs ≡ own ++ others)
    × (length own ≡ v.iov_len)
    × Stands m v.iov_base own
    × Stream m vs others

load_first :
    (m : Memory) (base b : ℕ) (bs : List ℕ)
    → load m base (suc (length bs)) ≡ some (b ∷ bs)
    → (m.read base ≡ some b) × (load m (suc base) (length bs) ≡ some bs)
unfolding load
load_first m base b bs e = elim (Option-cases (m.read base)) [
  | inl out ↦ let bad : none ≡ some (b ∷ bs) = rw (load, out) at e in absurd cc
  | inr (c, at) ↦ elim (Option-cases (load m (suc base) (length bs))) [
    | inl out ↦ let bad : none ≡ some (b ∷ bs) = rw (load, at, out) at e in absurd cc
    | inr (cs, more) ↦
        let same : some (c ∷ cs) ≡ some (b ∷ bs) = rw (load, at, more) at e in
        let first : c ≡ b = cc in let rest : cs ≡ bs = cc in (rw first at at, rw rest at more)
  ]
]

load-split :
    (m : Memory) (base : ℕ) (xs ys : List ℕ)
    → load m base (length (xs ++ ys)) ≡ some (xs ++ ys)
    → (load m base (length xs) ≡ some xs) × (load m (base + length xs) (length ys) ≡ some ys)
unfolding load
load-split m base [] ys e =
    let same : base ≡ base + 0 = omega arith in
    (refl, subst (λ a. load m a (length ys) ≡ some ys) same e)
load-split m base (x ∷ xs) ys e =
    let (first, more) = load_first m base x (xs ++ ys) e in
    let (left, right) = load-split m (suc base) xs ys more in
    let same : suc base + length xs ≡ base + suc (length xs) = omega arith in
    (
      load-step m base x (length xs) xs first left,
      subst (λ a. load m a (length ys) ≡ some ys) same right,
    )

-- parts of a region of user memory
inside_left :
    (base a b : ℕ)
    → ((a + b == 0) || region_is_user base (a + b)) ≡ true
    → ((a == 0) || region_is_user base a) ≡ true
unfolding region_is_user
inside_left base a b h = ground arith

inside_right :
    (base a b : ℕ)
    → ((a + b == 0) || region_is_user base (a + b)) ≡ true
    → ((b == 0) || region_is_user (base + a) b) ≡ true
unfolding region_is_user
inside_right base a b h = ground arith

pub Stands-copyin :
    (m : Memory) (base : ℕ) (xs : List ℕ)
    → 0 < length xs
    → Stands m base xs
    → copyin m base (length xs) ≡ ok xs
Stands-copyin m base xs some_bytes s =
    let nz : (length xs == 0) ≡ false = ground arith in
    let inside : region_is_user base (length xs) ≡ true = rw nz at s.inside in
    copyin-ok m base (length xs) xs inside s.loaded

pub Stands-split :
    (m : Memory) (base : ℕ) (xs ys : List ℕ)
    → Stands m base (xs ++ ys)
    → Stands m base xs × Stands m (base + length xs) ys
Stands-split m base xs ys s =
    let inside : ((length xs + length ys == 0) || region_is_user base (length xs + length ys))
        ≡ true =
      subst (λ n. ((n == 0) || region_is_user base n) ≡ true) (length-append xs ys) s.inside in
    let (left, right) = load-split m base xs ys s.loaded in
    (
      record { inside = inside_left base (length xs) (length ys) inside; loaded = left },
      record { inside = inside_right base (length xs) (length ys) inside; loaded = right },
    )
