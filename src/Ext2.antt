-- ===== src/Ext2.antt =====
-- drivers/fs/ext2/alloc.c: the allocation of blocks and inodes. A bitmap block is the function of its
-- bits, and `bits` of all of them is what the device holds. Whether `bread` and `bwrite` fail is a
-- parameter: `read_err b` at bitmap block b, `write_err b i` at the word or byte with bit i. The
-- minimum of `ext2_bitmap_alloc` is below 32, so that its shift is defined.
pub mod Bitmap
pub mod Blocks
mod Tests
use elos.Base.{
  ℕ, zero, suc, ◌+◌, ◌-◌, ◌*◌, ◌/◌, ◌%◌, ◌^◌, Bool, true, false, ◌&&◌, ◌||◌, Option, none, some,
  not, if◌then◌else◌, ltb, leb, ◌==◌,
}
use elos.Base.Errno.{Errno, enospc, is_enospc}

-- the fields of the super block and of `ext2_fs_t` that allocation does not change
pub record Geometry : Type 0 where
  pub nbgd : ℕ
  pub blocks_per_group : ℕ
  pub inodes_per_group : ℕ
  pub rev_level : ℕ
  pub first_ino : ℕ
  pub block_bitmap : ℕ → ℕ
  pub inode_bitmap : ℕ → ℕ

pub record Ext2 : Type 0 where
  pub bits : (bitmap idx : ℕ) → Bool
  pub bg_free_blocks : ℕ → ℕ
  pub bg_free_inodes : ℕ → ℕ
  pub s_free_blocks : ℕ
  pub s_free_inodes : ℕ

pub record Io : Type 0 where
  pub read_err : ℕ → Option Errno
  pub write_err : (bitmap idx : ℕ) → Option Errno

-- An error, if there is one, and what the function stored through its pointer.
pub record Outcome : Type 0 where
  pub error : Option Errno
  pub res : ℕ
  pub fs : Ext2

abbrev pub dec16 : ℕ → ℕ
dec16 x = (x + 2 ^ 16 - 1) % 2 ^ 16

abbrev pub dec32 : ℕ → ℕ
dec32 x = (x + 2 ^ 32 - 1) % 2 ^ 32

abbrev pub set_bit : Ext2 → (bitmap idx : ℕ) → Bool → Ext2
set_bit fs bitmap idx v = record fs {
  bits = λ b i. if (b == bitmap) && (i == idx) then v else fs.bits b i;
}

abbrev pub set_at : (ℕ → ℕ) → ℕ → ℕ → ℕ → ℕ
set_at f i v j = if i == j then v else f j

-- `ffs` less one: the lowest bit of the word, from bit `b` on, that satisfies `p`
unfoldable pub ffs : (n b : ℕ) → (p : ℕ → Bool) → Option ℕ
ffs zero b p = none
ffs (suc n) b p = let rest = ffs n (suc b) p in if p b then some b else rest

-- the bits of `val` for word i
abbrev pub candidate : (ℕ → Bool) → (low i b : ℕ) → Bool
candidate used low i b =
    not (used (b + i * 32)) && (if (i == 0) && not (low == 0) then ltb b low else true)

-- The loop of `ext2_bitmap_alloc` over `n` words from word i on: the index of the bit.
unfoldable pub scan_words : (n i : ℕ) → (limit low : ℕ) → (used : ℕ → Bool) → Option ℕ
unfolding ffs
scan_words zero i limit low used = none
scan_words (suc n) i limit low used =
    let rest = scan_words n (suc i) limit low used in
    elim (ffs 32 0 (candidate used low i)) [
      | none ↦ rest
      | some bit ↦ if ltb limit (bit + i * 32) then none else some (bit + i * 32)
    ]

module _ (io : Io) (geo : Geometry) where
  unfoldable pub ext2_bitmap_alloc : (bitmap low res : ℕ) → Ext2 → Outcome
  unfolding scan_words
  ext2_bitmap_alloc bitmap low res fs =
      let limit = geo.blocks_per_group in
      elim (io.read_err bitmap) [
        | some e ↦ record { error = some e; res = res; fs = fs }
        | none ↦ elim (scan_words (limit / 32) 0 limit low (fs.bits bitmap)) [
          | none ↦ record { error = some enospc; res = res; fs = fs }
          | some idx ↦ elim (io.write_err bitmap idx) [
            | some e ↦ record { error = some e; res = idx; fs = fs }
            | none ↦ record { error = none; res = idx; fs = set_bit fs bitmap idx true }
          ]
        ]
      ]

  -- `ext2_bitmap_free`; freeing a bit that is clear is a failed assertion, `none`
  unfoldable pub ext2_bitmap_free : (bitmap idx : ℕ) → Ext2 → Option Outcome
  ext2_bitmap_free bitmap idx fs = elim (io.read_err bitmap) [
    | some e ↦ some (record { error = some e; res = 0; fs = fs })
    | none ↦ if not (fs.bits bitmap idx) then none else elim (io.write_err bitmap idx) [
      | some e ↦ some (record { error = some e; res = 0; fs = fs })
      | none ↦ some (record { error = none; res = 0; fs = set_bit fs bitmap idx false })
    ]
  ]

  -- What `ext2_balloc` does after `ext2_bitmap_alloc`, with `more` for the rest of its loop.
  unfoldable pub balloc_after : (bgd : ℕ) → Outcome → (more : Outcome → Outcome) → Outcome
  balloc_after bgd out more = elim (out.error) [
    | none ↦ record {
      error = none;
      res = out.res + bgd * geo.blocks_per_group;
      fs = record (out.fs) {
        bg_free_blocks = set_at out.fs.bg_free_blocks bgd (dec16 (out.fs.bg_free_blocks bgd));
        s_free_blocks = dec32 out.fs.s_free_blocks;
      };
    }
    | some e ↦
        if is_enospc e
        then more (record out {
          fs = record (out.fs) { bg_free_blocks = set_at out.fs.bg_free_blocks bgd 0 };
        })
        else out
  ]

  -- The loop of `ext2_balloc` from its round i on, `n` rounds; `out` holds `err` and `blk` so far.
  unfoldable pub balloc_loop : (n i start : ℕ) → Outcome → Outcome
  unfolding balloc_after ext2_bitmap_alloc
  balloc_loop zero i start out = out
  balloc_loop (suc n) i start out =
      let bgd = if leb geo.nbgd (start + i) then start + i - geo.nbgd else start + i in
      if out.fs.bg_free_inodes bgd == 0
      then balloc_loop n (suc i) start out
      else balloc_after bgd (ext2_bitmap_alloc (geo.block_bitmap bgd) 0 out.res out.fs)
          (balloc_loop n (suc i) start)

  -- `ext2_balloc`, for the inode `ino`
  unfoldable pub ext2_balloc : (ino : ℕ) → Ext2 → Outcome
  unfolding balloc_loop
  ext2_balloc ino fs =
      if fs.s_free_blocks == 0
      then record { error = some enospc; res = 0; fs = fs }
      else balloc_loop geo.nbgd 0 ((ino - 1) / geo.inodes_per_group)
          (record { error = none; res = 0; fs = fs })

  unfoldable pub ext2_bfree : (blk : ℕ) → Ext2 → Option Ext2
  ext2_bfree blk fs =
      let bgd = blk / geo.blocks_per_group in
      elim (ext2_bitmap_free (geo.block_bitmap bgd) (blk - bgd * geo.blocks_per_group) fs) [
        | none ↦ none
        | some out ↦ elim (out.error) [
          | some e ↦ some out.fs
          | none ↦ some (record (out.fs) {
            bg_free_blocks =
                set_at out.fs.bg_free_blocks bgd ((out.fs.bg_free_blocks bgd + 1) % 2 ^ 16);
            s_free_blocks = (out.fs.s_free_blocks + 1) % 2 ^ 32;
          })
        ]
      ]

  unfoldable pub ialloc_after : (bgd : ℕ) → Outcome → (more : Outcome → Outcome) → Outcome
  ialloc_after bgd out more = elim (out.error) [
    | none ↦ record {
      error = none;
      res = out.res + bgd * geo.inodes_per_group + 1;
      fs = record (out.fs) {
        bg_free_inodes = set_at out.fs.bg_free_inodes bgd (dec16 (out.fs.bg_free_inodes bgd));
        s_free_inodes = dec32 out.fs.s_free_inodes;
      };
    }
    | some e ↦
        if is_enospc e
        then more (record out {
          fs = record (out.fs) { bg_free_inodes = set_at out.fs.bg_free_inodes bgd 0 };
        })
        else out
  ]

  -- the minimum that `ext2_ialloc` gives; EXT2_GOOD_OLD_REV is 0
  abbrev pub ialloc_min : (bgd : ℕ) → ℕ
  ialloc_min bgd = if (bgd == 0) && ltb 0 geo.rev_level then geo.first_ino else 0

  unfoldable pub ialloc_loop : (n bgd : ℕ) → Outcome → Outcome
  unfolding ialloc_after ext2_bitmap_alloc
  ialloc_loop zero bgd out = out
  ialloc_loop (suc n) bgd out =
      if out.fs.bg_free_inodes bgd == 0
      then ialloc_loop n (suc bgd) out
      else ialloc_after bgd
          (ext2_bitmap_alloc (geo.inode_bitmap bgd) (ialloc_min bgd) out.res out.fs)
          (ialloc_loop n (suc bgd))

  unfoldable pub ext2_ialloc : Ext2 → Outcome
  unfolding ialloc_loop
  ext2_ialloc fs =
      if fs.s_free_inodes == 0
      then record { error = some enospc; res = 0; fs = fs }
      else ialloc_loop geo.nbgd 0 (record { error = none; res = 0; fs = fs })

  unfoldable pub ext2_ifree : (ino : ℕ) → Ext2 → Option Ext2
  ext2_ifree ino fs =
      let bgd = (ino - 1) / geo.inodes_per_group in
      elim (ext2_bitmap_free (geo.inode_bitmap bgd) (ino - 1 - bgd * geo.inodes_per_group) fs) [
        | none ↦ none
        | some out ↦ elim (out.error) [
          | some e ↦ some out.fs
          | none ↦ some (record (out.fs) {
            bg_free_inodes =
                set_at out.fs.bg_free_inodes bgd ((out.fs.bg_free_inodes bgd + 1) % 2 ^ 16);
            s_free_inodes = (out.fs.s_free_inodes + 1) % 2 ^ 32;
          })
        ]
      ]
