-- ===== src/Ext2/Bitmap.antt =====
-- The search of `ext2_bitmap_alloc` in a bitmap.
use elos.Base.{
  ℕ, zero, suc, ◌+◌, ◌*◌, ◌≤◌, ◌<◌, ◌≡◌, refl, Bool, true, false, inl, inr, ◌&&◌, not, arith,
  Bool-cases, ltb, leb, Option, some, none, ℕ_discrete,
}
use elos.Ext2.{ffs, candidate, scan_words}

abbrev Lowest : (ℕ → Bool) → (n b : ℕ) → Option ℕ → Type 0
Lowest p n b none = (i : ℕ) → (leb b i && ltb i (b + n) && p i) ≡ false
Lowest p n b (some k) =
    (b ≤ k) × (k < b + n) × (p k ≡ true) × ((i : ℕ) → (leb b i && ltb i k && p i) ≡ false)

Lowest-later :
    (p : ℕ → Bool) (n b : ℕ) (r : Option ℕ)
    → p b ≡ false
    → Lowest p n (suc b) r
    → Lowest p (suc n) b r
Lowest-later p n b none miss h = λ i. elim (ℕ_discrete b i) [
  | yes e ↦ let m : p i ≡ false = rw e at miss in ground (arith, m)
  | no ne ↦ ground (arith, h i)
]
Lowest-later p n b (some k) miss (l, u, hit, first) = (
  omega arith,
  omega arith,
  hit,
  λ i. elim (ℕ_discrete b i) [
    | yes e ↦ let m : p i ≡ false = rw e at miss in ground (arith, m)
    | no ne ↦ ground (arith, first i)
  ],
)

ffs-Lowest : (n b : ℕ) (p : ℕ → Bool) → Lowest p n b (ffs n b p)
unfolding ffs
ffs-Lowest zero b p = λ i. ground arith
ffs-Lowest (suc n) b p = elim (Bool-cases (p b)) [
  | inl hit ↦ simp hit (omega arith, omega arith, refl, λ i. ground arith)
  | inr miss ↦ simp miss (Lowest-later p n b (ffs n (suc b) p) miss (ffs-Lowest n (suc b) p))
]

not_and : (u r : Bool) → (not u && r) ≡ true → u ≡ false
not_and false r h = refl
not_and true r h = absurd (ground arith)

in_word :
    (i n limit bit : ℕ) → bit < 32 → (i + suc n) * 32 ≤ limit → ltb limit (bit + i * 32) ≡ false
in_word i n limit bit small le = let l : bit + i * 32 ≤ limit = omega arith in ground arith

-- a bit that the search may return
abbrev pub FreeBelow : (ℕ → Bool) → (limit : ℕ) → Option ℕ → Type 0
FreeBelow used limit none = Unit
FreeBelow used limit (some idx) = (used idx ≡ false) × (idx < limit)

pub scan_words-FreeBelow :
    (n i limit low : ℕ) (used : ℕ → Bool)
    → (i + n) * 32 ≤ limit
    → FreeBelow used limit (scan_words n i limit low used)
unfolding scan_words
scan_words-FreeBelow zero i limit low used le = tt
scan_words-FreeBelow (suc n) i limit low used le =
    go (ffs 32 0 (candidate used low i)) (ffs-Lowest 32 0 (candidate used low i)) refl
      (scan_words-FreeBelow n (suc i) limit low used (omega arith))
  where
    go :
        (r : Option ℕ)
        → Lowest (candidate used low i) 32 0 r
        → ffs 32 0 (candidate used low i) ≡ r
        → FreeBelow used limit (scan_words n (suc i) limit low used)
        → FreeBelow used limit (scan_words (suc n) i limit low used)
    go none h e later = rw (scan_words, e) later
    go (some bit) (l, u, hit, first) e later =
        let inside = in_word i n limit bit (omega arith) le in
        let free : used (bit + i * 32) ≡ false = not_and _ _ hit in
        rw (scan_words, e, inside) (free, omega arith)
