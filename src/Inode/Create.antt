-- ===== src/Inode/Create.antt =====
-- New inodes, and their first blocks (src/inode.c).
use kfs.Base.{
  ℕ, Option, true, Res, ok, ◌>>=◌, if◌then◌else◌, bit_or, bit_and, ◌>>>◌, mask_16, mask_32, u16,
  u32, put_u16, put_u32, replicate,
}
use kfs.Ext4.Super.{SuperBlock, block_size}
use kfs.Bitmap.{Bitmap, pblock_set, inode_pblock_num}
use kfs.Extents.{ext_magic, leaf_eh_max}
use kfs.Inode.{Inode, set_size, set_uid, set_gid, set_blocks, has, extents_fl, s_ifdir, caller}

-- The inode that `inode_create` builds in the cache entry, at time `now` for the user and group of
-- the FUSE context.
unfoldable pub new_inode : SuperBlock → ℕ → ℕ → Option (ℕ × ℕ) → Res Inode
new_inode sb mode now cntx = do
  let (uid, gid) = caller cntx
  let zeroed = replicate 60 0
  eh₁ ← put_u16 zeroed 0 ext_magic
  eh₂ ← put_u16 eh₁ 2 0
  eh₃ ← put_u16 eh₂ 4 leaf_eh_max
  eh₄ ← put_u16 eh₃ 6 0
  block ← put_u32 eh₄ 8 0
  let empty : Inode = record {
    i_mode = u16 mode;
    i_uid = 0;
    i_size_lo = 0;
    i_atime = u32 now;
    i_ctime = u32 now;
    i_mtime = u32 now;
    i_dtime = 0;
    i_gid = 0;
    i_links_count = if has mode s_ifdir then 2 else 1;
    i_blocks_lo = 0;
    i_flags = bit_or 0 extents_fl;
    l_i_version = 0;
    i_block = block;
    i_generation = 0;
    i_file_acl_lo = 0;
    i_size_high = 0;
    i_obso_faddr = 0;
    l_i_blocks_high = 0;
    l_i_file_acl_high = 0;
    l_i_uid_high = 0;
    l_i_gid_high = 0;
    l_i_checksum_lo = 0;
    l_i_reserved = 0;
    i_extra_isize = 0;
    i_checksum_hi = 0;
    i_ctime_extra = 0;
    i_mtime_extra = 0;
    i_atime_extra = 0;
    i_crtime = 0;
    i_crtime_extra = 0;
    i_version_hi = 0;
    i_projid = 0;
  }
  let owned = set_gid (set_uid empty uid) gid
  ok (set_size (set_blocks owned 0) (if has mode s_ifdir then block_size sb else 0))

-- What `inode_init_pblock` writes into the inode.
unfoldable pub with_pblock : Inode → ℕ → Res Inode
with_pblock inode pblock_idx = do
  eh ← put_u16 inode.i_block 2 1
  ee₁ ← put_u32 eh 12 0
  ee₂ ← put_u16 ee₁ 18 (bit_and (pblock_idx >>> 32) mask_16)
  ee₃ ← put_u32 ee₂ 20 (bit_and pblock_idx mask_32)
  block ← put_u16 ee₃ 16 inode_pblock_num
  ok (set_blocks (record inode { i_block = block }) inode_pblock_num)

-- `inode_init_pblock`
unfoldable pub init_pblock : SuperBlock → Bitmap → Inode → ℕ → Res (Inode × Bitmap)
init_pblock sb d_bitmap inode pblock_idx = do
  inode' ← with_pblock inode pblock_idx
  d_bitmap' ← pblock_set sb d_bitmap pblock_idx inode_pblock_num true
  ok (inode', d_bitmap')
