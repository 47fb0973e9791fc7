-- ===== src/Ext2/Tests.antt =====
-- drivers/fs/ext2/alloc.c on two groups of 64 blocks, of which the first two are taken.
use elos.Base.{ℕ, ◌+◌, ◌≡◌, refl, true, some, none, arith, ltb, ◌==◌, if◌then◌else◌, ◌&&◌}
use elos.Ext2.{Geometry, Ext2, Io, set_at, ext2_balloc, ext2_bfree, ext2_ialloc}
use elos.Ext2.Blocks.{Taken, bfree-balloc}

abbrev geometry : Geometry
geometry = record {
  nbgd = 2;
  blocks_per_group = 64;
  inodes_per_group = 32;
  rev_level = 1;
  first_ino = 11;
  block_bitmap = λ g. 3 + g;
  inode_bitmap = λ g. 5 + g;
}

abbrev reliable : Io
reliable = record { read_err = λ b. none; write_err = λ b i. none }

abbrev disk : Ext2
disk = record {
  bits = λ b i. ltb i 2;
  bg_free_blocks = λ g. 62;
  bg_free_inodes = λ g. 30;
  s_free_blocks = 124;
  s_free_inodes = 60;
}

abbrev one_taken : Ext2
one_taken = record disk {
  bits = λ b i. if (b == 3) && (i == 2) then true else ltb i 2;
  bg_free_blocks = set_at disk.bg_free_blocks 0 61;
  s_free_blocks = 123;
}

-- the reserved inodes below the minimum are the ones that the search considers
reserved_inode : (ext2_ialloc reliable geometry disk).res ≡ 3
unfolding ext2_ialloc
reserved_inode = refl

third_block : (ext2_balloc reliable geometry 1 disk).res ≡ 2
unfolding ext2_balloc
third_block = refl

one_taken-Taken : Taken reliable geometry disk 2 one_taken
one_taken-Taken = record {
  bgd = 0;
  bit = 2;
  below = omega arith;
  number = refl;
  changed = record { before = refl; bits = λ b i. refl; count = refl };
}

bfree-balloc_example :
    (fs'' : Ext2) × (ext2_bfree reliable geometry 2 one_taken ≡ some fs'')
    × ((b i : ℕ) → fs''.bits b i ≡ disk.bits b i)
    × (fs''.s_free_blocks ≡ 124)
bfree-balloc_example =
    bfree-balloc reliable geometry disk one_taken 2 one_taken-Taken (λ b. refl) (λ b i. refl)
      (omega arith) (omega arith)
