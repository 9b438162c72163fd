-- ===== src/Ext4/Group.antt =====
-- Block group descriptors: `struct ext4_group_desc` and its macros (src/ext4/ext4_super.h,
-- src/ext4/ext4.h).
use kfs.Base.{ℕ, bit_or, ◌<<<◌}

-- The fields that the program uses; `dirty` is `bg_reserved2[0]`.
pub record GroupDesc : Type 0 where
  pub bg_block_bitmap_lo : ℕ
  pub bg_inode_bitmap_lo : ℕ
  pub bg_inode_table_lo : ℕ
  pub bg_free_blocks_count_lo : ℕ
  pub bg_free_inodes_count_lo : ℕ
  pub bg_used_dirs_count_lo : ℕ
  pub bg_itable_unused_lo : ℕ
  pub bg_block_bitmap_hi : ℕ
  pub bg_inode_bitmap_hi : ℕ
  pub bg_inode_table_hi : ℕ
  pub bg_free_blocks_count_hi : ℕ
  pub bg_free_inodes_count_hi : ℕ
  pub bg_used_dirs_count_hi : ℕ
  pub bg_itable_unused_hi : ℕ
  pub dirty : ℕ

-- EXT4_DESC_INO_BITMAP, EXT4_DESC_BLOCK_BITMAP, EXT4_DESC_INODE_TABLE
unfoldable pub inode_bitmap : GroupDesc → ℕ
inode_bitmap g = bit_or (g.bg_inode_bitmap_hi <<< 32) g.bg_inode_bitmap_lo

unfoldable pub block_bitmap : GroupDesc → ℕ
block_bitmap g = bit_or (g.bg_block_bitmap_hi <<< 32) g.bg_block_bitmap_lo

unfoldable pub inode_table : GroupDesc → ℕ
inode_table g = bit_or (g.bg_inode_table_hi <<< 32) g.bg_inode_table_lo

-- EXT4_GDT_FREE_BLOCKS, EXT4_GDT_FREE_INODES, EXT4_GDT_USED_DIRS, EXT4_GDT_ITABLE_UNUSED.
-- The 16-bit high half is promoted to `int` before the shift; the results are read as `uint32_t`.
unfoldable pub gdt_free_blocks : GroupDesc → ℕ
gdt_free_blocks g = bit_or g.bg_free_blocks_count_lo (g.bg_free_blocks_count_hi <<< 16)

unfoldable pub gdt_free_inodes : GroupDesc → ℕ
gdt_free_inodes g = bit_or g.bg_free_inodes_count_lo (g.bg_free_inodes_count_hi <<< 16)

unfoldable pub gdt_used_dirs : GroupDesc → ℕ
gdt_used_dirs g = bit_or g.bg_used_dirs_count_lo (g.bg_used_dirs_count_hi <<< 16)

unfoldable pub gdt_itable_unused : GroupDesc → ℕ
gdt_itable_unused g = bit_or g.bg_itable_unused_lo (g.bg_itable_unused_hi <<< 16)
