-- ===== src/Link.antt =====
-- Symbolic links (src/op_symlink.c, src/op_readlink.c): how the target is stored, and how it is read,
-- once the inode is there. A C string is its bytes before the NUL.
pub mod Target
use kfs.Base.{
  ℕ, zero, suc, ◌+◌, ◌-◌, List, [], ◌∷◌, ◌++◌, Option, none, some, Bool, true, false, Res, ok,
  fault, out_of_range, ◌>>=◌, ◌==◌, ltb, leb, length, take, drop, replicate, store, bit_and,
}
use kfs.Ext4.Super.{SuperBlock, block_size, blocks2bytes}
use kfs.Disk.{Pread, Device, disk_read_block, disk_write}
use kfs.Bitmap.{Bitmap, pblock_find, inode_pblock_num}
use kfs.Inode.{Inode, get_size, set_size, s_iflnk}
use kfs.Inode.Pblocks.{get_data_pblock}
use kfs.Inode.Create.{init_pblock}
use kfs.Attr.{Errno, einval}

-- `memcpy` to the start of a buffer.
unfoldable pub memcpy : (dest src : List ℕ) → Res (List ℕ)
memcpy dest src = elim (leb (length src) (length dest)) [
  | true ↦ ok (src ++ drop (length src) dest)
  | false ↦ fault out_of_range
]

-- The `n` bytes that `strncpy` stores.
unfoldable pub strncpy : ℕ → List ℕ → Res (List ℕ)
strncpy zero src = ok []
strncpy (suc n) [] = fault out_of_range
strncpy (suc n) (zero ∷ src) = ok (replicate (suc n) 0)
strncpy (suc n) (suc c ∷ src) = do rest ← strncpy n src; ok (suc c ∷ rest)

-- `get_link_dest`: the buffer, and the length with the NUL.
unfoldable pub get_link_dest : SuperBlock → Pread → (depth : ℕ) → Inode → List ℕ → Res (List ℕ × ℕ)
get_link_dest sb pread depth inode buf = do
  let inode_size = get_size inode
  buf₁ ← elim (leb inode_size 60) [
    | true ↦ memcpy buf (take inode_size inode.i_block)
    | false ↦ (do
      (pblock, _) ← get_data_pblock sb pread depth inode 0
      block_data ← disk_read_block sb pread pblock
      bytes ← strncpy (length buf - 1) block_data
      memcpy buf bytes)
  ]
  buf₂ ← store buf₁ inode_size 0
  ok (buf₂, inode_size + 1)

-- `op_readlink`, once the inode is known.
unfoldable pub op_readlink :
    SuperBlock → Pread → (depth : ℕ) → Inode → List ℕ → Res (Option Errno × List ℕ)
op_readlink sb pread depth inode buf = elim (bit_and inode.i_mode 0xF000 == s_iflnk) [
  | false ↦ ok (some einval, buf)
  | true ↦ (do (buf', _) ← get_link_dest sb pread depth inode buf; ok (none, buf'))
]

-- `inode_symlink_create`: `none` is -EINVAL.
unfoldable pub symlink_create :
    SuperBlock
    → (dev : Device) → Bitmap
    → dev.Disk
    → Inode
    → (inode_idx : ℕ) → List ℕ
    → Res (Option (Inode × Bitmap × dev.Disk))
symlink_create sb dev d_bitmap disk inode inode_idx path =
    let link_len = length path in
    elim (leb link_len 60) [
      | true ↦ (do
        i_block ← memcpy inode.i_block path
        ok (some (set_size (record inode { i_block = i_block }) link_len, d_bitmap, disk)))
      | false ↦ elim (ltb (block_size sb) link_len) [
        | true ↦ ok none
        | false ↦ (do
          pblock ← pblock_find sb d_bitmap inode_idx inode_pblock_num
          (inode', d_bitmap') ← init_pblock sb d_bitmap inode pblock
          disk' ← disk_write dev disk (blocks2bytes sb pblock) path
          ok (some (set_size inode' link_len, d_bitmap', disk')))
      ]
    ]
