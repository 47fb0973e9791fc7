-- ===== src/Cbuf/Window.antt =====
-- The bytes that lie in a circle from an offset on, and what single writes do to them.
use elos.Base.{
  ℕ, zero, suc, ◌+◌, ◌-◌, ◌≤◌, ◌<◌, ◌≡◌, refl, ap, ◌∙◌, false, List, [], ◌∷◌, ◌++◌, ◌==◌, ltb,
  if◌then◌else◌, length, get_or, set, take, drop, arith, length-set, ne→==_false,
}
use elos.Cbuf.{rewind}

-- the offset `n` bytes after `h`, for `n` at most the capacity
abbrev pub pos : (cap h n : ℕ) → ℕ
pos cap h n = if ltb (h + n) cap then h + n else h + n - cap

module _ (cap : ℕ) where
  -- the `n` bytes from `h` on
  unfoldable pub window : List ℕ → (h n : ℕ) → List ℕ
  window mem h zero = []
  window mem h (suc n) = get_or mem h 0 ∷ window mem (rewind cap (suc h)) n

  pub length-window : (mem : List ℕ) (h n : ℕ) → length (window mem h n) ≡ n
  unfolding window
  length-window mem h zero = refl
  length-window mem h (suc n) = ap suc (length-window mem (rewind cap (suc h)) n)

  -- byte after byte, each at the next place of the circle
  unfoldable pub puts : List ℕ → ℕ → List ℕ → List ℕ
  puts mem w [] = mem
  puts mem w (b ∷ bs) = puts (set mem w b) (rewind cap (suc w)) bs

  pub length-puts : (mem : List ℕ) (w : ℕ) (bs : List ℕ) → length (puts mem w bs) ≡ length mem
  unfolding puts
  length-puts mem w [] = refl
  length-puts mem w (b ∷ bs) =
      length-puts (set mem w b) (rewind cap (suc w)) bs ∙ length-set mem w b

  -- A window that starts within the circle, cut in two.
  pub window-append :
      (mem : List ℕ) (h m n : ℕ)
      → h < cap
      → h + m ≤ cap
      → window mem h (m + n) ≡ window mem h m ++ window mem (rewind cap (h + m)) n
  unfolding window
  window-append mem h zero n lt le = ground arith
  window-append mem h (suc zero) n lt le = ground arith
  window-append mem h (suc (suc m)) n lt le =
      let ne : (suc h == cap) ≡ false = ne→==_false _ _ (omega arith) in
      let sum : suc (suc m) + n ≡ suc (suc m + n) = omega arith in
      let shift : h + suc (suc m) ≡ suc h + suc m = omega arith in
      rw (sum, shift, ne)
        (ap (λ r. get_or mem h 0 ∷ r)
          (window-append mem (suc h) (suc m) n (omega arith) (omega arith)))

  -- The same for a cut anywhere.
  pub window_split :
      (mem : List ℕ) (h m n : ℕ)
      → h < cap
      → m ≤ cap
      → window mem h (m + n) ≡ window mem h m ++ window mem (pos cap h m) n
  unfolding window
  window_split mem h zero n lt le =
      let e : pos cap h 0 ≡ h = ground arith in let sum : 0 + n ≡ n = omega arith in rw (e, sum)
  window_split mem h (suc m) n lt le =
      let e : pos cap (rewind cap (suc h)) m ≡ pos cap h (suc m) = ground arith in
      let sum : suc m + n ≡ suc (m + n) = omega arith in
      rw (sum, ← e)
        (ap (λ r. get_or mem h 0 ∷ r)
          (window_split mem (rewind cap (suc h)) m n (ground arith) (omega arith)))

drop_step :
    (mem : List ℕ) (h n : ℕ)
    → h < length mem
    → take (suc n) (drop h mem) ≡ get_or mem h 0 ∷ take n (drop (suc h) mem)
drop_step [] h n lt = absurd (omega arith)
drop_step (x ∷ xs) zero n lt = refl
drop_step (x ∷ xs) (suc h) n lt = drop_step xs h n (omega arith)

-- What one `memcpy` takes from the storage.
pub take-drop-window :
    (mem : List ℕ) (h n : ℕ)
    → h < length mem
    → h + n ≤ length mem
    → take n (drop h mem) ≡ window (length mem) mem h n
unfolding window
take-drop-window mem h zero lt le = refl
take-drop-window mem h (suc zero) lt le = drop_step mem h 0 lt
take-drop-window mem h (suc (suc n)) lt le =
    let ne : (suc h == length mem) ≡ false = ne→==_false _ _ (omega arith) in
    let ih = take-drop-window mem (suc h) (suc n) (omega arith) (omega arith) in
    drop_step mem h (suc n) lt ∙ ground (arith, ih, ne)
