-- ===== src/Cbuf/Writes.antt =====
-- Bytes written behind a window of the storage of lib/cbuf.c, at once and one at a time.
use elos.Base.{
  ℕ, zero, suc, ◌+◌, ◌≤◌, ◌<◌, ◌≡◌, refl, false, ap₂, sym, ◌∙◌, List, [], ◌∷◌, ◌++◌, ◌==◌, length,
  set, arith, get_or-set_self, get_or-set_ne, length-set, ne→==_false,
}
use native.Mathlib.Nat.{add-zero}
use mathlib.Core.List.{append-nil, append_assoc}
use elos.Cbuf.{rewind, blit}
use elos.Cbuf.Window.{pos, window, puts}

module _ (cap : ℕ) where
  window-set :
      (mem : List ℕ) (x n h i : ℕ)
      → cap ≡ length mem
      → h < cap
      → n < cap
      → i ≡ pos cap h n
      → window cap (set mem i x) h (suc n) ≡ window cap mem h n ++ (x ∷ [])
  unfolding window
  window-set mem x zero h i c hh hn e =
      let e' : i ≡ h = ground arith in ground (arith, get_or-set_self mem h x 0)
  window-set mem x (suc n) h i c hh hn e =
      ap₂ ◌∷◌ (get_or-set_ne mem i h x 0 (λ q. ground arith))
        (window-set mem x n (rewind cap (suc h)) i c (ground arith) (omega arith) (ground arith))

  pub window-puts :
      (mem : List ℕ) (bs : List ℕ) (h n w : ℕ)
      → cap ≡ length mem
      → h < cap
      → n + length bs ≤ cap
      → w ≡ pos cap h n
      → window cap (puts cap mem w bs) h (n + length bs) ≡ window cap mem h n ++ bs
  unfolding puts
  window-puts mem [] h n w c hh hn e = rw (append-nil, add-zero)
  window-puts mem (b ∷ bs) h n w c hh hn e =
      let shift : n + length (b ∷ bs) ≡ suc n + length bs = omega arith in
      let c' : cap ≡ length (set mem w b) = c ∙ sym (length-set mem w b) in
      let next : rewind cap (suc w) ≡ pos cap h (suc n) = ground arith in
      rw
        (
          shift,
          window-puts (set mem w b) bs h (suc n) (rewind cap (suc w)) c' hh (omega arith) next,
        )
        (rw (window-set mem b n h w c hh (omega arith) e)
          (append_assoc (window cap mem h n) (b ∷ []) bs))

  pub blit-puts :
      (mem : List ℕ) (w : ℕ) (bs : List ℕ) → w + length bs ≤ cap → blit mem w bs ≡ puts cap mem w bs
  unfolding blit puts
  blit-puts mem w [] h = refl
  blit-puts mem w (b ∷ []) h = refl
  blit-puts mem w (b ∷ c ∷ bs) h =
      let ne : (suc w == cap) ≡ false = ne→==_false _ _ (omega arith) in
      rw ne (blit-puts (set mem w b) (suc w) (c ∷ bs) (omega arith))

  pub puts-append :
      (mem : List ℕ) (w : ℕ) (xs ys : List ℕ)
      → w < cap
      → length xs ≤ cap
      → puts cap mem w (xs ++ ys) ≡ puts cap (puts cap mem w xs) (pos cap w (length xs)) ys
  unfolding puts
  puts-append mem w [] ys lt le = let e : pos cap w 0 ≡ w = ground arith in rw e
  puts-append mem w (x ∷ xs) ys lt le =
      let e : pos cap (rewind cap (suc w)) (length xs) ≡ pos cap w (length (x ∷ xs)) =
        ground arith in
      rw (← e) (puts-append (set mem w x) (rewind cap (suc w)) xs ys (ground arith) (omega arith))
