-- ===== src/Tests/Inodes.antt =====
-- Inodes at concrete values: their fields, places and blocks, and the theorems on them applied.
use kfs.Base.{
  u16_at, u32_at, take, drop, ℕ, ◌^◌, ◌<◌, ◌≡◌, refl, [], ◌∷◌, none, some, true, false, ok, arith,
  replicate, ◌>>=◌,
}
use kfs.Ext4.Super.{SuperBlock, block_size, bytes2blocks, n_block_groups, block_count}
use kfs.Ext4.Group.{GroupDesc}
use kfs.Disk.{Pread}
use kfs.Inode.{
  Inode, mode2type, ft_dir, ft_symlink, ft_reg_file, get_uid, get_gid, get_size, set_size, has,
  read, check_permission, class_allows, caller,
}
use kfs.Inode.Fields.{kind_of, mode2type-kinds}
use kfs.Inode.Access.{posix_allows}
use kfs.Inode.Pblocks.{get_data_pblock, get_all_pblocks}
use kfs.Inode.Digits.{tind, number, follow, get_data_pblock-follow}
use kfs.Inode.Create.{new_inode, init_pblock}
use kfs.Bitmap.{Bitmap}
use kfs.Bitmap.Blocks.{SetsRun}
use kfs.Tests.Bitmaps.{disk as small_disk, half_full, half_full-IsDataBitmap}
use kfs.Inode.Fresh.{first_blocks}
use kfs.Inode.Bytes.{InRange, bytes_of}

abbrev pub disk : SuperBlock
disk = record {
  s_inodes_count = 16;
  s_blocks_count_lo = 64;
  s_blocks_count_hi = 0;
  s_log_block_size = 0;
  s_blocks_per_group = 64;
  s_inodes_per_group = 16;
  s_mtime = 0;
  s_mnt_count = 0;
  s_magic = 0xEF53;
  s_inode_size = 256;
  s_desc_size = 64;
}

-- The inode table begins with block 5.
abbrev pub first_group : GroupDesc
first_group = record {
  bg_block_bitmap_lo = 3;
  bg_inode_bitmap_lo = 4;
  bg_inode_table_lo = 5;
  bg_free_blocks_count_lo = 0;
  bg_free_inodes_count_lo = 0;
  bg_used_dirs_count_lo = 0;
  bg_itable_unused_lo = 0;
  bg_block_bitmap_hi = 0;
  bg_inode_bitmap_hi = 0;
  bg_inode_table_hi = 0;
  bg_free_blocks_count_hi = 0;
  bg_free_inodes_count_hi = 0;
  bg_used_dirs_count_hi = 0;
  bg_itable_unused_hi = 0;
  dirty = 0;
}

-- A file of user 1000 and group 100 that only the owner cannot read.
abbrev pub sample_with : ℕ → Inode
sample_with links = record {
  i_mode = 0x8024;
  i_uid = 1000;
  i_size_lo = 300000;
  i_atime = 0;
  i_ctime = 0;
  i_mtime = 0;
  i_dtime = 0;
  i_gid = 100;
  i_links_count = links;
  i_blocks_lo = 0;
  i_flags = 0;
  l_i_version = 0;
  i_block = replicate 60 7;
  i_generation = 0;
  i_file_acl_lo = 0;
  i_size_high = 0;
  i_obso_faddr = 0;
  l_i_blocks_high = 0;
  l_i_file_acl_high = 0;
  l_i_uid_high = 0;
  l_i_gid_high = 0;
  l_i_checksum_lo = 0;
  l_i_reserved = 0;
  i_extra_isize = 0;
  i_checksum_hi = 0;
  i_ctime_extra = 0;
  i_mtime_extra = 0;
  i_atime_extra = 0;
  i_crtime = 0;
  i_crtime_extra = 0;
  i_version_hi = 0;
  i_projid = 0;
}

abbrev pub sample : Inode
sample = sample_with 1

pub sample_with-InRange : (links : ℕ) → links < 2 ^ 16 → InRange (sample_with links)
sample_with-InRange links h = record {
  i_mode_in = omega arith;
  i_uid_in = omega arith;
  i_size_lo_in = omega arith;
  i_atime_in = omega arith;
  i_ctime_in = omega arith;
  i_mtime_in = omega arith;
  i_dtime_in = omega arith;
  i_gid_in = omega arith;
  i_links_count_in = omega arith;
  i_blocks_lo_in = omega arith;
  i_flags_in = omega arith;
  l_i_version_in = omega arith;
  i_block_len = refl;
  i_block_in = omega arith;
  i_generation_in = omega arith;
  i_file_acl_lo_in = omega arith;
  i_size_high_in = omega arith;
  i_obso_faddr_in = omega arith;
  l_i_blocks_high_in = omega arith;
  l_i_file_acl_high_in = omega arith;
  l_i_uid_high_in = omega arith;
  l_i_gid_high_in = omega arith;
  l_i_checksum_lo_in = omega arith;
  l_i_reserved_in = omega arith;
  i_extra_isize_in = omega arith;
  i_checksum_hi_in = omega arith;
  i_ctime_extra_in = omega arith;
  i_mtime_extra_in = omega arith;
  i_atime_extra_in = omega arith;
  i_crtime_in = omega arith;
  i_crtime_extra_in = omega arith;
  i_version_hi_in = omega arith;
  i_projid_in = omega arith;
}

-- The owner, whose class may not read, reads as one of the others.
owner_reads :
    (check_permission sample (some (1000, 5)) read ≡ true)
    × (posix_allows sample 1000 5 read ≡ false)
unfolding check_permission get_uid get_gid class_allows has caller
owner_reads = (refl, refl)

-- Every table of this device says that block 9 comes next.
abbrev nines : Pread
nines where_ size = some (9 ∷ 0 ∷ 0 ∷ 0 ∷ [])

abbrev big_file : Inode
big_file = set_size sample (2 ^ 40)

get_data_pblock-follow_example :
    get_data_pblock disk nines 1 big_file (number 256 (tind 1 2 3))
    ≡ (do block ← follow disk nines big_file.i_block (tind 1 2 3); ok (block, none))
unfolding block_size has bytes2blocks get_size set_size
get_data_pblock-follow_example =
    get_data_pblock-follow disk nines 1 big_file (tind 1 2 3) (omega arith) refl
      (omega arith, omega arith, omega arith) (omega arith) (omega arith)

first_blocks_example :
    (inode : Inode) × (bm' : Bitmap) × ((do
      empty ← new_inode small_disk 0x81A4 7 none
      init_pblock small_disk half_full empty 12)
      ≡ ok (inode, bm'))
    × SetsRun small_disk half_full 12 true bm'
    × (get_data_pblock small_disk nines 1 inode 3 ≡ ok (15, some 4))
    × (get_all_pblocks inode ≡ ok (record { arr = record { pblock = 12; len = 4 } ∷ []; len = 1 }))
unfolding n_block_groups block_count
first_blocks_example =
    first_blocks small_disk 0x81A4 7 none 12 (omega arith) half_full nines 0 3
      half_full-IsDataBitmap (omega arith) (omega arith)

abbrev blank : ℕ → ℕ
blank x = 0

mode2type-kinds_example :
    (mode2type 0x41A4 ≡ kind_of 4)
    × (mode2type 0x81A4 ≡ kind_of 8)
    × (mode2type 0x11A4 ≡ kind_of 1)
    × (mode2type 0xA1A4 ≡ ft_reg_file)
    × (mode2type 0x21A4 ≡ ft_symlink)
    × (mode2type 0x61A4 ≡ ft_dir)
    × (mode2type 0xC1A4 ≡ ft_dir)
mode2type-kinds_example = mode2type-kinds 0x1A4 (omega arith)

-- Where the fields of `struct ext4_inode` lie.
layout_runs :
    (u16_at (bytes_of sample) 0 ≡ ok 0x8024)
    × (u16_at (bytes_of sample) 2 ≡ ok 1000)
    × (u32_at (bytes_of sample) 4 ≡ ok 300000)
    × (u16_at (bytes_of sample) 24 ≡ ok 100)
    × (u16_at (bytes_of sample) 26 ≡ ok 1)
    × (take 60 (drop 40 (bytes_of sample)) ≡ replicate 60 7)
unfolding bytes_of
layout_runs = (refl, refl, refl, refl, refl, refl)
