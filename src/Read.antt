-- ===== src/Read.antt =====
-- Reads of a file's bytes (src/op_read.c), from the inode on: the bytes come in the order in which
-- the code stores them into the caller's buffer.
pub mod Runs
pub mod Content
use kfs.Base.{
  ℕ, zero, suc, ◌+◌, ◌-◌, ◌*◌, ◌/◌, ◌%◌, ◌^◌, List, [], ◌++◌, Option, none, some, Bool, true, false,
  Res, ok, fault, assert, out_of_fuel, or_out_of_range, ◌>>=◌, ◌>>◌, ◌==◌, ltb, leb, if◌then◌else◌,
  u32, u64, as_int,
}
use kfs.Ext4.Super.{SuperBlock, block_size, blocks2bytes}
use kfs.Disk.{Pread, disk_read}
use kfs.Inode.{Inode, get_size}
use kfs.Inode.Pblocks.{get_data_pblock}

-- `(size_t)-EINVAL`
abbrev pub minus_einval : ℕ
minus_einval = 2 ^ 64 - 22

-- `truncate_size`
unfoldable pub truncate_size : Inode → (size offset : ℕ) → ℕ
truncate_size inode size offset =
    let inode_size = get_size inode in
    if inode_size == 0
    then 0
    else (if leb inode_size offset
        then minus_einval
        else (if leb inode_size (u64 (offset + size)) then inode_size - offset else size))

-- ALIGN_TO_BLOCKSIZE
unfoldable pub align_to_block_size : SuperBlock → ℕ → ℕ
align_to_block_size sb n =
    if n % block_size sb == 0 then n else n / block_size sb * block_size sb + block_size sb

module _ (sb : SuperBlock) (pread : Pread) (depth : ℕ) where
  -- `first_read`: what it returns, and the bytes.
  unfoldable pub first_read : Inode → (size offset : ℕ) → Res (ℕ × List ℕ)
  first_read inode size offset = do
    let start_lblock = u32 (offset / block_size sb)
    let end_lblock = u32 (u64 (offset + u64 (size + 2 ^ 64 - 1)) / block_size sb)
    let start_block_off = u32 (offset % block_size sb)
    (start_pblock, _) ← get_data_pblock sb pread depth inode start_lblock
    let where_ = u64 (blocks2bytes sb start_pblock + start_block_off)
    elim (start_lblock == end_lblock) [
      | true ↦ (do bytes ← disk_read pread where_ size; ok (size, bytes))
      | false ↦ (do
        let size_to_block_end = align_to_block_size sb offset - offset
        assert ((offset + size_to_block_end) % block_size sb == 0)
        bytes ← disk_read pread where_ size_to_block_end
        ok (size_to_block_end, bytes))
    ]

  -- The loop of `op_read`. `extent_len` is `none` as long as nothing has been stored to the variable;
  -- to use it then is undefined. What `disk_read` returns is an `int`.
  unfoldable pub read_loop :
      ℕ → Inode → (size lblock : ℕ) → Option ℕ → ℕ → List ℕ → Res (ℕ × List ℕ)
  read_loop zero inode size lblock extent_len ret buf = fault out_of_fuel
  read_loop (suc fuel) inode size lblock extent_len ret buf = elim (ltb ret size) [
    | false ↦ ok (ret, buf)
    | true ↦ (do
      (pblock, stored) ← get_data_pblock sb pread depth inode lblock
      n ← or_out_of_range (elim stored [ some len ↦ some len | none ↦ extent_len ])
      let read_bytes = u64 (n * block_size sb)
      let read_bytes' = if leb (size - ret) read_bytes then size - ret else read_bytes
      bytes ← disk_read pread (blocks2bytes sb pblock) read_bytes'
      let ret' = u64 (ret + as_int read_bytes')
      read_loop fuel inode size (u32 (lblock + n)) (some n) ret' (buf ++ bytes))
  ]

  -- `op_read` behind the truncation. `size < 0`, its test of the truncated size, never holds of a
  -- `size_t`.
  unfoldable pub read_truncated : ℕ → Inode → (size offset : ℕ) → Res (ℕ × List ℕ)
  read_truncated fuel inode size offset = elim (size == 0) [
    | true ↦ ok (0, [])
    | false ↦ (do
      (ret, bytes) ← first_read inode size offset
      elim (ret == size) [
        | true ↦ ok (ret, bytes)
        | false ↦ (do
          let offset' = offset + ret
          assert (offset' % block_size sb == 0)
          (ret', buf) ← read_loop fuel inode size (u32 (offset' / block_size sb)) none ret bytes
          assert (size == ret')
          ok (ret', buf))
      ])
  ]

  -- `op_read`, once the inode is known: the `int` that it returns, and the bytes. `offset` is that of an
  -- `off_t`, which is negative from 2 ^ 63 on.
  unfoldable pub op_read : ℕ → Inode → (size offset : ℕ) → Res (ℕ × List ℕ)
  op_read fuel inode size offset = do
    assert (ltb offset (2 ^ 63))
    (ret, buf) ← read_truncated fuel inode (truncate_size inode size offset) offset
    ok (as_int ret, buf)
