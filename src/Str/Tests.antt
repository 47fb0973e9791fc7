-- ===== src/Str/Tests.antt =====
-- The string routines on short strings: "ab" is 97, 98, 0.
use elos.Base.{ℕ, ◌≡◌, refl, none, some, List, [], ◌∷◌, arith, drop}
use elos.Str.{
  cstr, strnlen, strcmp, memcmp, memchr, strchr, strlcpy, strncat, strncat_find, strncat_copy,
  below,
}
use elos.Str.Copy.{strlcpy-cstr}
use elos.Str.Compare.{strcmp-dictionary}

abbrev ab : List ℕ
ab = 97 ∷ 98 ∷ 0 ∷ 7 ∷ 7 ∷ 7 ∷ 7 ∷ []

abbrev c : List ℕ
c = 99 ∷ 0 ∷ []

test_strncat : strncat ab c 5 ≡ some (97 ∷ 98 ∷ 0 ∷ 99 ∷ 0 ∷ 7 ∷ 7 ∷ [])
unfolding strncat strncat_find strncat_copy
test_strncat = refl

test_strnlen : strnlen ab 1 ≡ some 1
unfolding strnlen
test_strnlen = refl

test_memcmp : memcmp ab c 1 ≡ some below
unfolding memcmp
test_memcmp = refl

test_memchr : memchr ab 354 3 ≡ some (some 1)
unfolding memchr
test_memchr = refl

test_strchr : strchr ab 7 ≡ some none
unfolding strchr
test_strchr = refl

strlcpy-cstr_example :
    (r : List ℕ) × (strlcpy ab (97 ∷ 98 ∷ 99 ∷ 0 ∷ []) 3 ≡ some (r, 3))
    × (cstr r ≡ some (97 ∷ 98 ∷ []))
    × (drop 3 r ≡ drop 3 ab)
unfolding cstr
strlcpy-cstr_example =
    strlcpy-cstr ab (97 ∷ 98 ∷ 99 ∷ 0 ∷ []) (97 ∷ 98 ∷ 99 ∷ []) 2 refl (omega arith)

strcmp-dictionary_example : strcmp ab c ≡ some below
unfolding cstr
strcmp-dictionary_example = strcmp-dictionary ab c (97 ∷ 98 ∷ []) (99 ∷ []) refl refl
