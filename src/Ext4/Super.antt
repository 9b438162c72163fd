-- ===== src/Ext4/Super.antt =====
-- The super block (src/ext4/ext4_super.h) and the geometry macros of src/ext4/ext4.h.
use kfs.Base.{ℕ, ◌+◌, ◌-◌, ◌*◌, ◌/◌, ◌%◌, ◌^◌, ◌≤◌, ◌<◌, arith, bit_or, bit_or-shifted}
use kfs.Base.{u64, ◌<<<◌, ◌==◌, if◌then◌else◌}

-- The fields of `struct ext4_super_block` that the program reads or writes.
pub record SuperBlock : Type 0 where
  pub s_inodes_count : ℕ
  pub s_blocks_count_lo : ℕ
  pub s_blocks_count_hi : ℕ
  pub s_log_block_size : ℕ
  pub s_blocks_per_group : ℕ
  pub s_inodes_per_group : ℕ
  pub s_mtime : ℕ
  pub s_mnt_count : ℕ
  pub s_magic : ℕ
  pub s_inode_size : ℕ
  pub s_desc_size : ℕ

-- BLOCK_SIZE
unfoldable pub block_size : SuperBlock → ℕ
block_size sb = u64 (1 <<< (sb.s_log_block_size + 10))

-- BLOCKS2BYTES
unfoldable pub blocks2bytes : SuperBlock → ℕ → ℕ
blocks2bytes sb blks = u64 (u64 blks * block_size sb)

-- BYTES2BLOCKS
unfoldable pub bytes2blocks : SuperBlock → ℕ → ℕ
bytes2blocks sb bytes = u64 (bytes / block_size sb + (if bytes % block_size sb == 0 then 0 else 1))

-- EXT4_BLOCK_COUNT
unfoldable pub block_count : SuperBlock → ℕ
block_count sb = bit_or (sb.s_blocks_count_hi <<< 32) sb.s_blocks_count_lo

-- EXT4_N_BLOCK_GROUPS
unfoldable pub n_block_groups : SuperBlock → ℕ
n_block_groups sb =
    u64 (block_count sb + sb.s_blocks_per_group + 2 ^ 64 - 1) / sb.s_blocks_per_group

-- What the C types guarantee of the fields, and a group that is not empty.
pub record InRange (sb : SuperBlock) : Type 0 where
  pub lo_in : sb.s_blocks_count_lo < 2 ^ 32
  pub hi_in : sb.s_blocks_count_hi < 2 ^ 31
  pub per_group_in : sb.s_blocks_per_group < 2 ^ 32
  pub per_group_pos : 0 < sb.s_blocks_per_group

-- The groups cover all blocks, and no group is superfluous.
pub n_block_groups-cover :
    (sb : SuperBlock)
    → InRange sb
    → let count = sb.s_blocks_count_hi * 2 ^ 32 + sb.s_blocks_count_lo in
      (count ≤ n_block_groups sb * sb.s_blocks_per_group)
      × (n_block_groups sb * sb.s_blocks_per_group < count + sb.s_blocks_per_group)
unfolding n_block_groups block_count
n_block_groups-cover sb v =
    grind (arith, bit_or-shifted 32 sb.s_blocks_count_hi sb.s_blocks_count_lo v.lo_in)
