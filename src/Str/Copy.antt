-- ===== src/Str/Copy.antt =====
-- lib/strcpy.c and lib/strcat.c on the strings that the buffers hold.
use elos.Base.{
  ℕ, zero, suc, ◌+◌, ◌<◌, ◌≡◌, ◌⊎◌, inl, inr, refl, sym, ◌∙◌, ap, true, false, none, some, List, [],
  ◌∷◌, ◌++◌, ◌==◌, arith, Bool-cases, Option-cases, length, take, drop, ==_iff,
}
use elos.Str.{
  cstr, prepend, strlen, strcpy, strlcpy, strlcpy_loop, terminated, strcat, strncat, strncat_find,
  strncat_copy,
}

-- The first byte ends the string, or is its first one.
unfoldable pub Begins : (c : ℕ) → (s r : List ℕ) → Type 0
Begins c s r =
    ((c ≡ 0) × (r ≡ [])) ⊎ (((c == 0) ≡ false) × (r' : List ℕ) × (r ≡ c ∷ r') × (cstr s ≡ some r'))

some_inj : {A : Type 0} {a b : A} → some a ≡ some b → a ≡ b
some_inj e = cc

pub empty-cstr : (s : List ℕ) → cstr [] ≡ some s → ⊥
unfolding cstr
empty-cstr s e = no_string e
  where
    no_string : none ≡ some s → ⊥
    no_string e = cc

pub cstr-Begins : (c : ℕ) (s r : List ℕ) → cstr (c ∷ s) ≡ some r → Begins c s r
unfolding cstr Begins
cstr-Begins c s r e = elim (Bool-cases (c == 0)) [
  | inl hit ↦
      let end : some [] ≡ some r = rw hit at e in inl ((==_iff c 0).0 hit, sym (some_inj end))
  | inr miss ↦
      let more : prepend c (cstr s) ≡ some r = rw miss at e in
      elim (Option-cases (cstr s)) [
        | inl out ↦ let bad : none ≡ some r = rw out at more in absurd cc
        | inr (r', has) ↦
            let same : some (c ∷ r') ≡ some r = rw has at more in
            inr (miss, r', sym (some_inj same), has)
      ]
]

-- a string with one byte more
pub cstr_cons :
    (c : ℕ) (s r : List ℕ) → (c == 0) ≡ false → cstr s ≡ some r → cstr (c ∷ s) ≡ some (c ∷ r)
unfolding cstr
cstr_cons c s r miss e = rw (miss, e) refl

pub cstr_end : (s : List ℕ) → cstr (0 ∷ s) ≡ some []
unfolding cstr
cstr_end s = refl

pub strlen-cstr : (b s : List ℕ) → cstr b ≡ some s → strlen b ≡ some (length s)
unfolding strlen Begins
strlen-cstr [] s e = absurd (empty-cstr s e)
strlen-cstr (c ∷ b) s e = elim (cstr-Begins c b s e) [
  | inl (z, done) ↦ rw (z, done) refl
  | inr (miss, r, front, more) ↦ rw (miss, strlen-cstr b r more, front) refl
]

strcpy-cstr :
    (dst src t : List ℕ)
    → cstr src ≡ some t
    → length t < length dst
    → (r : List ℕ) × (strcpy dst src ≡ some r) × (cstr r ≡ some t)
unfolding strcpy Begins
strcpy-cstr [] src t e room = absurd (omega (arith, room))
strcpy-cstr (d ∷ dst) [] t e room = absurd (empty-cstr t e)
strcpy-cstr (d ∷ dst) (c ∷ src) t e room = elim (cstr-Begins c src t e) [
  | inl (z, done) ↦ (0 ∷ dst, rw z refl, cstr_end dst ∙ ap some (sym done))
  | inr (miss, t', front, more) ↦
      let (r, run, holds) = strcpy-cstr dst src t' more (omega (arith, room, ap length front)) in
      (c ∷ r, rw (miss, run) refl, cstr_cons c r t' miss holds ∙ ap some (sym front))
]

-- If the string in `dst` and the one in `src` fit into the buffer of `dst` together, `strcat` leaves the
-- one followed by the other there.
pub strcat-cstr :
    (dst src s t : List ℕ)
    → cstr dst ≡ some s
    → cstr src ≡ some t
    → length s + length t < length dst
    → (r : List ℕ) × (strcat dst src ≡ some r) × (cstr r ≡ some (s ++ t))
unfolding strcat Begins
strcat-cstr [] src s t e f room = absurd (omega (arith, room))
strcat-cstr (d ∷ dst) src s t e f room = elim (cstr-Begins d dst s e) [
  | inl (z, done) ↦
      let (r, run, holds) = strcpy-cstr (d ∷ dst) src t f (omega (arith, room, ap length done)) in
      let hit : (d == 0) ≡ true = (==_iff d 0).1 z in (r, rw hit run, holds ∙ rw done refl)
  | inr (miss, s', front, more) ↦
      let (r, run, holds) =
        strcat-cstr dst src s' t more f (omega (arith, room, ap length front)) in
      (d ∷ r, rw (miss, run) refl, cstr_cons d r (s' ++ t) miss holds ∙ rw front refl)
]

strncat_copy-some :
    (max : ℕ) (dst src t : List ℕ)
    → cstr src ≡ some t
    → length t < length dst
    → (r : List ℕ) × (strncat_copy max dst src ≡ some r)
unfolding strncat_copy Begins
strncat_copy-some max [] src t f room = absurd (omega (arith, room))
strncat_copy-some zero (d ∷ dst) src t f room = (0 ∷ dst, refl)
strncat_copy-some (suc max) (d ∷ dst) [] t f room = absurd (empty-cstr t f)
strncat_copy-some (suc max) (d ∷ dst) (c ∷ src) t f room = elim (cstr-Begins c src t f) [
  | inl (z, done) ↦ (0 ∷ dst, rw z refl)
  | inr (miss, t', front, more) ↦
      let (r, run) = strncat_copy-some max dst src t' more (omega (arith, room, ap length front)) in
      (c ∷ r, rw (miss, run) refl)
]

strncat_find-cstr :
    (max : ℕ) (dst src s t : List ℕ)
    → cstr dst ≡ some s
    → cstr src ≡ some t
    → suc (length s + length t) < length dst
    → (r : List ℕ) × (strncat_find max dst src ≡ some r) × (cstr r ≡ some s)
unfolding strncat_find Begins
strncat_find-cstr max [] src s t e f room = absurd (omega (arith, room))
strncat_find-cstr max (d ∷ dst) src s t e f room = elim (cstr-Begins d dst s e) [
  | inl (z, done) ↦
      let (r, run) = strncat_copy-some max dst src t f (omega (arith, room, ap length done)) in
      (0 ∷ r, rw (z, run) refl, cstr_end r ∙ ap some (sym done))
  | inr (miss, s', front, more) ↦
      let (r, run, holds) =
        strncat_find-cstr max dst src s' t more f (omega (arith, room, ap length front)) in
      (d ∷ r, rw (miss, run) refl, cstr_cons d r s' miss holds ∙ ap some (sym front))
]

-- With room for both strings and two bytes more, `strncat` of any size but 0 leaves the string in `dst`
-- as it was, whatever `src` holds.
pub strncat-cstr :
    (dst src s t : List ℕ) (max : ℕ)
    → cstr dst ≡ some s
    → cstr src ≡ some t
    → suc (length s + length t) < length dst
    → 0 < max
    → (r : List ℕ) × (strncat dst src max ≡ some r) × (cstr r ≡ some s)
unfolding strncat
strncat-cstr dst src s t zero e f room some_max = absurd (omega (arith, some_max))
strncat-cstr dst src s t (suc max) e f room some_max =
    strncat_find-cstr (suc max) dst src s t e f room

strlcpy_loop-cstr :
    (n : ℕ) (dst src t : List ℕ)
    → cstr src ≡ some t
    → n < length dst
    → (r : List ℕ) × (strlcpy_loop n dst src ≡ some (r, length t))
      × (cstr r ≡ some (take n t))
      × (drop (suc n) r ≡ drop (suc n) dst)
unfolding strlcpy_loop Begins
strlcpy_loop-cstr zero [] src t e room = absurd (omega (arith, room))
strlcpy_loop-cstr zero (d ∷ dst) src t e room =
    (0 ∷ dst, ap (terminated dst) (strlen-cstr src t e), cstr_end dst, refl)
strlcpy_loop-cstr (suc n) [] src t e room = absurd (omega (arith, room))
strlcpy_loop-cstr (suc n) (d ∷ dst) [] t e room = absurd (empty-cstr t e)
strlcpy_loop-cstr (suc n) (d ∷ dst) (c ∷ src) t e room = elim (cstr-Begins c src t e) [
  | inl (z, done) ↦ (0 ∷ dst, rw (z, done) refl, cstr_end dst ∙ rw done refl, refl)
  | inr (miss, t', front, more) ↦
      let (r, run, holds, kept) = strlcpy_loop-cstr n dst src t' more (omega (arith, room)) in
      (
        c ∷ r,
        rw (miss, run, front) refl,
        cstr_cons c r (take n t') miss holds ∙ rw front refl,
        kept,
      )
]

-- If the buffer of `dst` has at least `max` bytes and `max` is not 0, `strlcpy` leaves the first
-- `max - 1` bytes of the string of `src` there, or all of it, returns the length of the whole string,
-- and changes nothing from the byte `max` on.
pub strlcpy-cstr :
    (dst src t : List ℕ) (n : ℕ)
    → cstr src ≡ some t
    → n < length dst
    → (r : List ℕ) × (strlcpy dst src (suc n) ≡ some (r, length t))
      × (cstr r ≡ some (take n t))
      × (drop (suc n) r ≡ drop (suc n) dst)
unfolding strlcpy
strlcpy-cstr dst src t n e room = strlcpy_loop-cstr n dst src t e room
