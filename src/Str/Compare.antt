-- ===== src/Str/Compare.antt =====
-- lib/strcmp.c on the strings that the buffers hold.
use elos.Base.{
  ℕ, ◌≡◌, inl, inr, refl, true, false, some, List, [], ◌∷◌, if◌then◌else◌, ltb, ◌==◌, arith,
  Bool-cases,
}
use elos.Str.{cstr, strcmp, Sign, below, same, above}
use elos.Str.Copy.{Begins, cstr-Begins, empty-cstr}

-- the order of a dictionary
abbrev pub dictionary : List ℕ → List ℕ → Sign
dictionary [] [] = same
dictionary [] (d ∷ t) = below
dictionary (c ∷ s) [] = above
dictionary (c ∷ s) (d ∷ t) =
    let rest = dictionary s t in if c == d then rest else if ltb c d then below else above

-- `strcmp` of buffers that hold strings compares the strings as a dictionary does.
pub strcmp-dictionary :
    (a b s t : List ℕ) → cstr a ≡ some s → cstr b ≡ some t → strcmp a b ≡ some (dictionary s t)
unfolding strcmp Begins
strcmp-dictionary [] b s t e f = absurd (empty-cstr s e)
strcmp-dictionary (c ∷ a) [] s t e f = absurd (empty-cstr t f)
strcmp-dictionary (c ∷ a) (d ∷ b) s t e f = elim (cstr-Begins c a s e) [
  | inl (c_zero, s_done) ↦ elim (cstr-Begins d b t f) [
    | inl (d_zero, t_done) ↦ rw (c_zero, d_zero, s_done, t_done) refl
    | inr (d_some, t', t_front, t_more) ↦
        let differ : (0 == d) ≡ false = ground (arith, d_some) in
        let less : ltb 0 d ≡ true = ground (arith, d_some) in
        rw (c_zero, s_done, t_front, differ, less) refl
  ]
  | inr (c_some, s', s_front, s_more) ↦ elim (cstr-Begins d b t f) [
    | inl (d_zero, t_done) ↦
        let less : ltb c 0 ≡ false = ground arith in rw (d_zero, t_done, s_front, c_some, less) refl
    | inr (d_some, t', t_front, t_more) ↦ elim (Bool-cases (c == d)) [
      | inl equal ↦ rw (s_front, t_front, equal, c_some) (strcmp-dictionary a b s' t' s_more t_more)
      | inr differ ↦ rw (s_front, t_front, differ) refl
    ]
  ]
]
