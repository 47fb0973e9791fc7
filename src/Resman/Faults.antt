-- ===== src/Resman/Faults.antt =====
-- Ranges at which `resman_alloc_range` of lib/resman.c and its header differ: the loop skips a child that
-- starts below the candidate address, and compares the size with the hole in front of the next one.
use elos.Base.{
  ℕ, ◌+◌, ◌-◌, ◌^◌, ◌≤◌, ◌<◌, ◌≡◌, ◌∙◌, true, false, inl, some, [], ◌∷◌, arith, min, max, ltb, leb,
  ◌||◌, ◌&&◌, align_up,
}
use elos.Resman.{
  Region, region, Resman, word, get_end, align_addr, resman_alloc_range, resman_reserve,
}
use elos.Resman.Mask.{one_le-pow, align_addr-align_up}
use elos.Resman.Order.{le-align_up, align_up-lt}
use elos.Resman.Alloc.{Overlaps}

module _ (lo n start end : ℕ) (c : Region) where
  abbrev parent : Resman
  parent = record { range = region lo n; children = c ∷ [] }

  -- If the range asked for starts inside the only child, behind the child's first address,
  -- `resman_reserve` still hands it out, and it overlaps the child.
  pub resman_reserve-Overlaps :
      lo ≤ c.addr
      → c.addr < start
      → start < c.addr + c.size
      → start ≤ end
      → end < lo + n
      → lo + n < 2 ^ 64
      → (resman_reserve parent start end
          ≡ some (region start (end + 1 - start), c ∷ region start (end + 1 - start) ∷ []))
        × Overlaps start (end + 1 - start) parent.children
  unfolding resman_reserve get_end
  resman_reserve-Overlaps a b d e f g =
      let last : word (min (word (lo + n + (2 ^ 64 - 1))) end + 1) ≡ end + 1 = omega arith in
      let first : max lo start ≡ start = omega arith in
      let at : align_addr start 1 ≡ start =
        align_addr-align_up 0 start (omega arith) (omega arith)
        ∙ omega (arith, align_up-lt start 1, le-align_up start 1) in
      let size : word (end + (2 ^ 64 - start) + 1) ≡ end + 1 - start = omega arith in
      let room : ltb (end + 1 - start) (end + 1 - start) ≡ false = ground arith in
      let before : leb (end + 1) start ≡ false = ground arith in
      let skip : ltb c.addr start ≡ true = ground arith in
      let tail : (ltb start (end + 1) && leb (end + 1 - start) (end + 1 - start)) ≡ true =
        ground arith in
      (simp (size, last, first, room, at, before, skip, tail), inl (omega arith))

  -- If the first multiple of `2 ^ k` in the range asked for leaves less than `size` up to its end,
  -- and the only child lies further up, the region handed out ends behind the end asked for.
  pub resman_alloc_range_past_end :
      (size k : ℕ)
      → k < 64
      → start + 2 ^ k ≤ 2 ^ 64
      → lo ≤ start
      → size ≤ end + 1 - start
      → align_up start (2 ^ k) ≤ end
      → end + 1 < align_up start (2 ^ k) + size
      → align_up start (2 ^ k) + size ≤ c.addr
      → c.addr < lo + n
      → lo + n < 2 ^ 64
      → (r : Region) × (resman_alloc_range parent start end size (2 ^ k) ≡ some (r, r ∷ c ∷ []))
        × (end + 1 < r.addr + r.size)
  unfolding resman_alloc_range get_end
  resman_alloc_range_past_end size k small wrap a b d e f g h =
      let at : align_addr start (2 ^ k) ≡ align_up start (2 ^ k) =
        align_addr-align_up k start small wrap in
      let al = one_le-pow k in
      let last : word (min (word (lo + n + (2 ^ 64 - 1))) end + 1) ≡ end + 1 =
        omega (arith, le-align_up start (2 ^ k) al) in
      let first : max lo start ≡ start = omega arith in
      let room : (leb (end + 1) start || ltb (end + 1 - start) size) ≡ false =
        ground (arith, le-align_up start (2 ^ k) al) in
      let before : leb (end + 1) (align_up start (2 ^ k)) ≡ false = ground arith in
      let keep : ltb c.addr (align_up start (2 ^ k)) ≡ false = ground arith in
      let hole : leb size (c.addr - align_up start (2 ^ k)) ≡ true = ground arith in
      (region (align_up start (2 ^ k)) size, simp (last, first, room, at, before, keep, hole), e)
