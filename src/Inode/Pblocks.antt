-- ===== src/Inode/Pblocks.antt =====
-- The blocks of a file (src/inode.c): by extents, or by direct, indirect, double indirect and triple
-- indirect blocks.
use kfs.Base.{
  ℕ, zero, suc, ◌+◌, ◌-◌, ◌*◌, ◌/◌, ◌%◌, List, [], ◌∷◌, Option, none, true, false, Res, ok, fault,
  assert, assert_failed, ◌>>=◌, ◌>>◌, ◌==◌, ltb, leb, if◌then◌else◌, u32, u64, u32_at,
}
use kfs.Ext4.Super.{SuperBlock, block_size, blocks2bytes, bytes2blocks}
use kfs.Disk.{Pread, disk_read_u32}
use kfs.Bitmap.{PblockRange, PblockArr}
use kfs.Extents.{Extent, header_of, extent_of, get_paddr, get_pblock, ext_magic}
use kfs.Inode.{Inode, get_size, has, extents_fl}

-- ADDRESSES_IN_IND_BLOCK, ADDRESSES_IN_DIND_BLOCK, ADDRESSES_IN_TIND_BLOCK, EXT4_NDIR_BLOCKS
unfoldable pub addresses_in_ind : SuperBlock → ℕ
addresses_in_ind sb = block_size sb / 4

unfoldable pub addresses_in_dind : SuperBlock → ℕ
addresses_in_dind sb = u64 (addresses_in_ind sb * addresses_in_ind sb)

unfoldable pub addresses_in_tind : SuperBlock → ℕ
addresses_in_tind sb = u64 (addresses_in_dind sb * addresses_in_ind sb)

abbrev pub ndir_blocks : ℕ
ndir_blocks = 12

module _ (sb : SuperBlock) (pread : Pread) where
  -- `__inode_get_data_pblock_ind`, `..._dind` and `..._tind`
  unfoldable pub pblock_ind : ℕ → ℕ → Res ℕ
  pblock_ind lblock index_block = do
    assert (ltb lblock (addresses_in_ind sb))
    disk_read_u32 pread (u64 (blocks2bytes sb index_block + lblock * 4))

  unfoldable pub pblock_dind : ℕ → ℕ → Res ℕ
  pblock_dind lblock dindex_block = do
    assert (ltb lblock (addresses_in_dind sb))
    let offset = u32 (lblock / addresses_in_ind sb * 4)
    index_block ← disk_read_u32 pread (u64 (blocks2bytes sb dindex_block + offset))
    pblock_ind (lblock % addresses_in_ind sb) index_block

  unfoldable pub pblock_tind : ℕ → ℕ → Res ℕ
  pblock_tind lblock tindex_block = do
    assert (ltb lblock (addresses_in_tind sb))
    let offset = u32 (lblock / addresses_in_dind sb * 4)
    dindex_block ← disk_read_u32 pread (u64 (blocks2bytes sb tindex_block + offset))
    pblock_dind (lblock % addresses_in_dind sb) dindex_block

  -- `inode_get_data_pblock` of a block number, which is a `uint32_t`: the block, and `*extent_len` where it is written. MAX_IND_BLOCK,
  -- MAX_DIND_BLOCK and MAX_TIND_BLOCK are where the ranges of the three indirections end.
  unfoldable pub get_data_pblock : ℕ → Inode → ℕ → Res (ℕ × Option ℕ)
  get_data_pblock fuel inode lblock =
      let max_ind = u64 (ndir_blocks + addresses_in_ind sb) in
      let max_dind = u64 (max_ind + addresses_in_dind sb) in
      let max_tind = u64 (max_dind + addresses_in_tind sb) in
      if has inode.i_flags extents_fl then get_pblock sb pread fuel inode.i_block lblock else (do
        assert (leb lblock (bytes2blocks sb (get_size inode)))
        block ←
            (if ltb lblock ndir_blocks
              then u32_at inode.i_block (4 * lblock)
              else (if ltb lblock max_ind
                  then (do b ← u32_at inode.i_block 48; pblock_ind (lblock - ndir_blocks) b)
                  else (if ltb lblock max_dind
                      then (do b ← u32_at inode.i_block 52; pblock_dind (lblock - max_ind) b)
                      else (if ltb lblock max_tind
                          then (do b ← u32_at inode.i_block 56; pblock_tind (lblock - max_dind) b)
                          else fault assert_failed))))
        ok (block, none))

-- The loop of `inode_get_all_pblocks`, from entry `i` on.
unfoldable pub ranges_of : (ℕ → Res Extent) → ℕ → ℕ → Res (List PblockRange)
ranges_of ee zero i = ok []
ranges_of ee (suc rounds) i = do
  e ← ee i
  rest ← ranges_of ee rounds (i + 1)
  ok (record { pblock = get_paddr e; len = e.ee_len } ∷ rest)

-- `inode_get_all_pblocks`
unfoldable pub get_all_pblocks : Inode → Res PblockArr
get_all_pblocks inode = do
  assert (has inode.i_flags extents_fl)
  eh ← header_of inode.i_block
  assert (eh.eh_depth == 0)
  elim (eh.eh_entries == 0) [
    | true ↦ ok (record { arr = []; len = 0 })
    | false ↦ (do
      assert (eh.eh_magic == ext_magic)
      ranges ← ranges_of (extent_of inode.i_block) eh.eh_entries 0
      ok (record { arr = ranges; len = eh.eh_entries }))
  ]
