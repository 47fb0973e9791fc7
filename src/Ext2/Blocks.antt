-- ===== src/Ext2/Blocks.antt =====
-- `ext2_balloc` and `ext2_bfree`.
use elos.Base.{
  ℕ, zero, suc, ◌+◌, ◌-◌, ◌*◌, ◌/◌, ◌%◌, ◌^◌, ◌<◌, ◌≡◌, ◌≢◌, refl, sym, ap, ap₂, ◌∙◌, Bool, true,
  false, inl, inr, ◌&&◌, not, arith, Bool-cases, leb, ◌==◌, if◌then◌else◌, some, none, ==_refl,
  ne→==_false, ◌⊎◌,
}
use elos.Base.Errno.{Errno}
use elos.Ext2.{
  Geometry, Ext2, Io, Outcome, dec32, set_bit, set_at, ext2_bitmap_free, balloc_loop, ext2_balloc,
  ext2_bfree,
}

-- The bits are those of `fs` but for one, and the counter of the super block is `n`.
pub record Changed (fs fs' : Ext2) (bitmap idx : ℕ) (v : Bool) (n : ℕ) : Type 0 where
  pub before : fs.bits bitmap idx ≡ not v
  pub bits : (b i : ℕ) → fs'.bits b i ≡ (set_bit fs bitmap idx v).bits b i
  pub count : fs'.s_free_blocks ≡ n

-- the bits and the counter of the super block are those of `fs`
pub record Unchanged (fs fs' : Ext2) : Type 0 where
  pub bits : fs'.bits ≡ fs.bits
  pub count : fs'.s_free_blocks ≡ fs.s_free_blocks

div_lem : (b g n : ℕ) → b < n → (b + g * n) / n ≡ g
div_lem b g n h = grind arith

dec_inc : (c : ℕ) → 0 < c → c < 2 ^ 32 → (dec32 c + 1) % 2 ^ 32 ≡ c
dec_inc c pos small = omega arith

own_bit : (fs : Ext2) (bitmap idx : ℕ) (v : Bool) → (set_bit fs bitmap idx v).bits bitmap idx ≡ v
own_bit fs bitmap idx v = simp ==_refl

put_back :
    (fs fs' : Ext2) (bitmap idx b i : ℕ)
    → Changed fs fs' bitmap idx true (dec32 fs.s_free_blocks)
    → (set_bit fs' bitmap idx false).bits b i ≡ fs.bits b i
put_back fs fs' bitmap idx b i c = elim (Bool-cases ((b == bitmap) && (i == idx))) [
  | inl hit ↦
      let eb : b ≡ bitmap = ground arith in
      let ei : i ≡ idx = ground arith in
      rw hit (sym c.before ∙ ap₂ (λ x y. fs.bits x y) (sym eb) (sym ei))
  | inr miss ↦
      let kept : fs'.bits b i ≡ (if (b == bitmap) && (i == idx) then true else fs.bits b i) =
        c.bits b i in
      let kept' : fs'.bits b i ≡ fs.bits b i = rw miss at kept in rw miss kept'
]

module _ (io : Io) (geo : Geometry) where
  -- A block of group `bgd` was allocated.
  pub record Taken (fs : Ext2) (res : ℕ) (fs' : Ext2) : Type 0 where
    pub bgd : ℕ
    pub bit : ℕ
    pub below : bit < geo.blocks_per_group
    pub number : res ≡ bit + bgd * geo.blocks_per_group
    pub changed : Changed fs fs' (geo.block_bitmap bgd) bit true (dec32 fs.s_free_blocks)

  -- How `ext2_balloc` ends: with a block, without one, or with neither error nor block.
  abbrev pub Allocates : Ext2 → Outcome → Type 0
  Allocates fs out = elim (out.error) [
    | none ↦ Taken fs out.res out.fs ⊎ ((out.fs ≡ fs) × (out.res ≡ 0))
    | some e ↦ Unchanged fs out.fs
  ]

  abbrev After : (bitmap : ℕ) → Ext2 → Outcome → Type 0
  After bitmap fs out = elim (out.error) [
    | none ↦
        (out.res < geo.blocks_per_group)
        × (fs.bits bitmap out.res ≡ false)
        × (out.fs ≡ set_bit fs bitmap out.res true)
    | some e ↦ out.fs ≡ fs
  ]

  -- what holds before a round of the loop of `ext2_balloc`
  abbrev Before : Ext2 → Outcome → Type 0
  Before fs out = elim (out.error) [
    | none ↦ (out.fs ≡ fs) × (out.res ≡ 0)
    | some e ↦ Unchanged fs out.fs
  ]

  balloc_loop-skips :
      (n i start : ℕ) (out : Outcome)
      → ((g : ℕ) → out.fs.bg_free_inodes g ≡ 0)
      → balloc_loop io geo n i start out ≡ out
  unfolding balloc_loop
  balloc_loop-skips zero i start out h = refl
  balloc_loop-skips (suc n) i start out h =
      let bgd = if leb geo.nbgd (start + i) then start + i - geo.nbgd else start + i in
      let skip : (out.fs.bg_free_inodes bgd == 0) ≡ true = rw (h bgd) refl in
      rw (balloc_loop, skip) (balloc_loop-skips n (suc i) start out h)

  -- If no block group has a free inode, `ext2_balloc` reports success with block 0 and allocates
  -- nothing, however many blocks are free.
  pub ext2_balloc_no_inodes :
      (ino : ℕ) (fs : Ext2)
      → fs.s_free_blocks ≢ 0
      → ((g : ℕ) → fs.bg_free_inodes g ≡ 0)
      → ext2_balloc io geo ino fs ≡ record { error = none; res = 0; fs = fs }
  unfolding ext2_balloc
  ext2_balloc_no_inodes ino fs ne h =
      let test : (fs.s_free_blocks == 0) ≡ false = ne→==_false _ _ ne in
      simp test (
        balloc_loop-skips geo.nbgd 0 ((ino - 1) / geo.inodes_per_group)
          (record { error = none; res = 0; fs = fs }) h)

  bitmap_free-some :
      (bitmap idx : ℕ) (fs : Ext2)
      → ((b : ℕ) → io.read_err b ≡ none)
      → ((b i : ℕ) → io.write_err b i ≡ none)
      → fs.bits bitmap idx ≡ true
      → ext2_bitmap_free io geo bitmap idx fs
        ≡ some (record { error = none; res = 0; fs = set_bit fs bitmap idx false })
  unfolding ext2_bitmap_free
  bitmap_free-some bitmap idx fs rd wr set =
      rw (ext2_bitmap_free, rd bitmap, set, wr bitmap idx) refl

  -- `ext2_bfree` of a block that `ext2_balloc` took gives it back, if the device works: every bit and
  -- the count of the super block are what they were.
  pub bfree-balloc :
      (fs fs' : Ext2) (blk : ℕ)
      → Taken fs blk fs'
      → ((b : ℕ) → io.read_err b ≡ none)
      → ((b i : ℕ) → io.write_err b i ≡ none)
      → 0 < fs.s_free_blocks
      → fs.s_free_blocks < 2 ^ 32
      → (fs'' : Ext2) × (ext2_bfree io geo blk fs' ≡ some fs'')
        × ((b i : ℕ) → fs''.bits b i ≡ fs.bits b i)
        × (fs''.s_free_blocks ≡ fs.s_free_blocks)
  unfolding ext2_bfree
  bfree-balloc fs fs' blk t rd wr pos small =
      let bitmap = geo.block_bitmap t.bgd in
      let group : blk / geo.blocks_per_group ≡ t.bgd =
        ap (λ m. m / geo.blocks_per_group) t.number
        ∙ div_lem t.bit t.bgd geo.blocks_per_group t.below in
      let idx : blk - t.bgd * geo.blocks_per_group ≡ t.bit = omega (arith, t.number) in
      let set : fs'.bits bitmap t.bit ≡ true =
        t.changed.bits bitmap t.bit ∙ own_bit fs bitmap t.bit true in
      let g = blk / geo.blocks_per_group in
      let k = blk - g * geo.blocks_per_group in
      let at : k ≡ t.bit = ap (λ m. blk - m * geo.blocks_per_group) group ∙ idx in
      let set' : fs'.bits (geo.block_bitmap g) k ≡ true =
        ap₂ (λ x y. fs'.bits (geo.block_bitmap x) y) group at ∙ set in
      let freed = bitmap_free-some (geo.block_bitmap g) k fs' rd wr set' in
      let count : (fs'.s_free_blocks + 1) % 2 ^ 32 ≡ fs.s_free_blocks =
        ap (λ c. (c + 1) % 2 ^ 32) t.changed.count ∙ dec_inc fs.s_free_blocks pos small in
      (
        record fs' {
          bits = (set_bit fs' (geo.block_bitmap g) k false).bits;
          bg_free_blocks = set_at fs'.bg_free_blocks g ((fs'.bg_free_blocks g + 1) % 2 ^ 16);
          s_free_blocks = (fs'.s_free_blocks + 1) % 2 ^ 32;
        },
        rw (ext2_bfree, freed) refl,
        λ b i.
            ap₂ (λ x y. (set_bit fs' (geo.block_bitmap x) y false).bits b i) group at
            ∙ put_back fs fs' bitmap t.bit b i t.changed,
        count,
      )
