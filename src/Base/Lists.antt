-- ===== src/Base/Lists.antt =====
-- C arrays and buffers as lists with native indices.
use Prim.Native.Nat.{ℕ, zero, suc, ◌+◌, ◌-◌, ◌≤◌, ◌<◌, min}
use mathlib.Core.Path.{◌≡◌, refl, sym, ◌∙◌, ap}
use mathlib.Core.Logic.{◌≢◌}
use mathlib.Core.List.{List, [], ◌∷◌, ◌++◌}
use mathlib.Core.Option.{Option, none, some}
use native.Mathlib.Omega.{arith}
use mathlib.Core.Bool.{true, false}
use mathlib.Core.Logic.{inl, inr}
use elos.Base.Tests.{if◌then◌else◌, ◌==◌, Bool-cases, ==_refl, ==_iff, ne→==_false, ==_false→ne}

module _ {ℓ} {A : Type ℓ} where
  abbrev pub length : List A → ℕ
  length [] = 0
  length (x ∷ xs) = suc (length xs)

  abbrev pub get_elem? : List A → ℕ → Option A
  get_elem? [] i = none
  get_elem? (x ∷ xs) zero = some x
  get_elem? (x ∷ xs) (suc i) = get_elem? xs i

  abbrev pub get_or : List A → ℕ → A → A
  get_or [] i d = d
  get_or (x ∷ xs) zero d = x
  get_or (x ∷ xs) (suc i) d = get_or xs i d

  -- A write out of bounds changes nothing.
  abbrev pub set : List A → ℕ → A → List A
  set [] i v = []
  set (x ∷ xs) zero v = v ∷ xs
  set (x ∷ xs) (suc i) v = x ∷ set xs i v

  abbrev pub take : ℕ → List A → List A
  take zero xs = []
  take (suc n) [] = []
  take (suc n) (x ∷ xs) = x ∷ take n xs

  abbrev pub drop : ℕ → List A → List A
  drop zero xs = xs
  drop (suc n) [] = []
  drop (suc n) (x ∷ xs) = drop n xs

  abbrev pub replicate : ℕ → A → List A
  replicate zero a = []
  replicate (suc n) a = a ∷ replicate n a

module _ {ℓ} {A : Type ℓ} where
  pub length-append : (xs ys : List A) → length (xs ++ ys) ≡ length xs + length ys
  length-append [] ys = omega arith
  length-append (x ∷ xs) ys = omega (arith, length-append xs ys)

  pub length-set : (xs : List A) (i : ℕ) (v : A) → length (set xs i v) ≡ length xs
  length-set [] i v = refl
  length-set (x ∷ xs) zero v = refl
  length-set (x ∷ xs) (suc i) v = ap suc (length-set xs i v)

  pub length-take : (n : ℕ) (xs : List A) → length (take n xs) ≡ min n (length xs)
  length-take zero xs = omega arith
  length-take (suc n) [] = omega arith
  length-take (suc n) (x ∷ xs) = omega (arith, length-take n xs)

  pub length-drop : (n : ℕ) (xs : List A) → length (drop n xs) ≡ length xs - n
  length-drop zero xs = omega arith
  length-drop (suc n) [] = omega arith
  length-drop (suc n) (x ∷ xs) = omega (arith, length-drop n xs)

  pub length-replicate : (n : ℕ) (a : A) → length (replicate n a) ≡ n
  length-replicate zero a = refl
  length-replicate (suc n) a = ap suc (length-replicate n a)

  pub get_or-set_self :
      (xs : List A) (i : ℕ) (v d : A) → i < length xs → get_or (set xs i v) i d ≡ v
  get_or-set_self [] i v d h = absurd (omega arith)
  get_or-set_self (x ∷ xs) zero v d h = refl
  get_or-set_self (x ∷ xs) (suc i) v d h = get_or-set_self xs i v d (omega arith)

  pub get_or-set_ne :
      (xs : List A) (i j : ℕ) (v d : A) → i ≢ j → get_or (set xs i v) j d ≡ get_or xs j d
  get_or-set_ne [] i j v d h = refl
  get_or-set_ne (x ∷ xs) zero zero v d h = absurd (h refl)
  get_or-set_ne (x ∷ xs) zero (suc j) v d h = refl
  get_or-set_ne (x ∷ xs) (suc i) zero v d h = refl
  get_or-set_ne (x ∷ xs) (suc i) (suc j) v d h = get_or-set_ne xs i j v d (λ e. h (ap suc e))

  pub take-append-drop : (n : ℕ) (xs : List A) → take n xs ++ drop n xs ≡ xs
  take-append-drop zero xs = refl
  take-append-drop (suc n) [] = refl
  take-append-drop (suc n) (x ∷ xs) = ap (λ r. x ∷ r) (take-append-drop n xs)

  pub take_all : (n : ℕ) (xs : List A) → length xs ≤ n → take n xs ≡ xs
  take_all zero [] h = refl
  take_all zero (x ∷ xs) h = absurd (omega arith)
  take_all (suc n) [] h = refl
  take_all (suc n) (x ∷ xs) h = ap (λ r. x ∷ r) (take_all n xs (omega arith))

  pub take-append_self : (n : ℕ) (xs ys : List A) → n ≡ length xs → take n (xs ++ ys) ≡ xs
  take-append_self zero [] ys h = refl
  take-append_self zero (x ∷ xs) ys h = absurd (omega arith)
  take-append_self (suc n) [] ys h = absurd (omega arith)
  take-append_self (suc n) (x ∷ xs) ys h = ap (λ r. x ∷ r) (take-append_self n xs ys (omega arith))

  pub drop-append_self : (n : ℕ) (xs ys : List A) → n ≡ length xs → drop n (xs ++ ys) ≡ ys
  drop-append_self zero [] ys h = refl
  drop-append_self zero (x ∷ xs) ys h = absurd (omega arith)
  drop-append_self (suc n) [] ys h = absurd (omega arith)
  drop-append_self (suc n) (x ∷ xs) ys h = drop-append_self n xs ys (omega arith)

  pub take-take-drop : (m n : ℕ) (xs : List A) → take (m + n) xs ≡ take m xs ++ take n (drop m xs)
  take-take-drop zero n xs = ap (λ k. take k xs) (omega arith)
  take-take-drop (suc m) n [] = take-nil (suc m + n) ∙ sym (take-nil n)
    where
      take-nil : (k : ℕ) → take {A = A} k [] ≡ []
      take-nil zero = refl
      take-nil (suc k) = refl
  take-take-drop (suc m) n (x ∷ xs) =
      let e : suc m + n ≡ suc (m + n) = omega arith in
      rw e (ap (λ r. x ∷ r) (take-take-drop m n xs))

-- Lists of numbers that name objects: how often one is in a list, and `list_remove`.
abbrev pub count : ℕ → List ℕ → ℕ
count t [] = 0
count t (x ∷ xs) = (if t == x then 1 else 0) + count t xs

abbrev pub remove : ℕ → List ℕ → List ℕ
remove t [] = []
remove t (x ∷ xs) = let rest = remove t xs in if t == x then xs else x ∷ rest

pub count_out : (t x : ℕ) (xs : List ℕ) → count t (x ∷ xs) ≡ 0 → (t ≢ x) × (count t xs ≡ 0)
count_out t x xs out = elim (Bool-cases (t == x)) [
  | inl hit ↦ let bad : 1 + count t xs ≡ 0 = rw hit at out in absurd (omega (arith, bad))
  | inr miss ↦
      (==_false→ne t x miss, let rest : 0 + count t xs ≡ 0 = rw miss at out in omega (arith, rest))
]

pub count_skip : (t x : ℕ) (xs : List ℕ) → (t == x) ≡ false → count t (x ∷ xs) ≡ count t xs
count_skip t x xs miss = rw miss (omega arith)

pub count-append_other : (x t : ℕ) (xs : List ℕ) → x ≢ t → count x (xs ++ (t ∷ [])) ≡ count x xs
count-append_other x t [] ne = let miss : (x == t) ≡ false = ne→==_false x t ne in rw miss refl
count-append_other x t (y ∷ ys) ne = rw (count-append_other x t ys ne) refl

pub count_le-remove : (t x : ℕ) (xs : List ℕ) → count x (remove t xs) ≤ count x xs
count_le-remove t x [] = omega arith
count_le-remove t x (y ∷ ys) = elim (Bool-cases (t == y)) [
  | inl hit ↦ rw hit (omega arith)
  | inr miss ↦ rw miss (omega (arith, count_le-remove t x ys))
]

pub count-append_self : (t : ℕ) (xs : List ℕ) → count t (xs ++ (t ∷ [])) ≡ suc (count t xs)
count-append_self t [] = let hit : (t == t) ≡ true = ==_refl t in rw hit (omega arith)
count-append_self t (y ∷ ys) = rw (count-append_self t ys) (omega arith)

pub count-remove_self : (t : ℕ) (xs : List ℕ) → count t (remove t xs) ≡ count t xs - 1
count-remove_self t [] = omega arith
count-remove_self t (y ∷ ys) = elim (Bool-cases (t == y)) [
  | inl hit ↦ rw hit (omega arith)
  | inr miss ↦
      let skip = count_skip t y (remove t ys) miss in
      rw miss (omega (arith, skip, count-remove_self t ys))
]

pub count-remove_other : (t x : ℕ) (xs : List ℕ) → t ≢ x → count x (remove t xs) ≡ count x xs
count-remove_other t x [] ne = refl
count-remove_other t x (y ∷ ys) ne = elim (Bool-cases (t == y)) [
  | inl hit ↦
      let at : t ≡ y = (==_iff t y).0 hit in
      let miss : (x == y) ≡ false = ne→==_false x y (λ e. ne (at ∙ sym e)) in
      rw (hit, miss) (omega arith)
  | inr miss ↦ rw (miss, count-remove_other t x ys ne) refl
]
