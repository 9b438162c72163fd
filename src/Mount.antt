-- ===== src/Mount.antt =====
-- The bitmaps between the disk and the memory: `bitmap_init` of src/bitmap.c, and the loop of
-- src/op_destory.c that writes them back.
pub mod Save
pub mod Reload
use kfs.Base.{
  ℕ, zero, suc, ◌+◌, ◌/◌, List, [], ◌∷◌, Bool, true, false, Res, ok, fault, out_of_range, load,
  ◌>>=◌, leb, length, take, u32,
}
use kfs.Ext4.Super.{SuperBlock, blocks2bytes, n_block_groups}
use kfs.Ext4.Group.{GroupDesc, inode_bitmap, block_bitmap}
use kfs.Disk.{Pread, Device, disk_read, disk_write}
use kfs.Bitmap.{Bitmap, BitmapGroup, Status, valid, dirty}

-- The bytes of a group's bitmap on the disk.
abbrev pub inode_bytes_of : SuperBlock → ℕ
inode_bytes_of sb = sb.s_inodes_per_group / 8

abbrev pub block_bytes_of : SuperBlock → ℕ
block_bytes_of sb = sb.s_blocks_per_group / 8

-- A round of the loop of `bitmap_init`, for one of the two bitmaps.
unfoldable pub read_group : Pread → (off size : ℕ) → Res BitmapGroup
read_group pread off size = do
  bytes ← disk_read pread off size
  ok (record { bitmap = bytes; off = off; status = valid })

-- The loop of `bitmap_init`, from group `i` on: the groups of both bitmaps.
unfoldable pub read_groups :
    SuperBlock → List GroupDesc → Pread → (rounds i : ℕ) → Res (List BitmapGroup × List BitmapGroup)
read_groups sb gdt pread zero i = ok ([], [])
read_groups sb gdt pread (suc rounds) i = do
  desc ← load gdt i
  g ← read_group pread (blocks2bytes sb (inode_bitmap desc)) (inode_bytes_of sb)
  h ← read_group pread (blocks2bytes sb (block_bitmap desc)) (block_bytes_of sb)
  (gs, hs) ← read_groups sb gdt pread rounds (i + 1)
  ok (g ∷ gs, h ∷ hs)

-- `bitmap_init`: the inode bitmap and the data bitmap.
unfoldable pub bitmap_init : SuperBlock → List GroupDesc → Pread → Res (Bitmap × Bitmap)
bitmap_init sb gdt pread = do
  let group_num = u32 (n_block_groups sb)
  (gs, hs) ← read_groups sb gdt pread group_num 0
  ok (record { group = gs; group_num = group_num }, record { group = hs; group_num = group_num })

module _ (dev : Device) where
  abbrev pub group_is_dirty : BitmapGroup → Bool
  group_is_dirty g = elim g.status [ valid ↦ false | dirty ↦ true ]

  -- A group of a bitmap is written where it is dirty.
  unfoldable pub save_group : (size : ℕ) → BitmapGroup → dev.Disk → Res dev.Disk
  save_group size g disk = elim (group_is_dirty g) [
    | true ↦ elim (leb size (length g.bitmap)) [
      | true ↦ disk_write dev disk g.off (take size g.bitmap)
      | false ↦ fault out_of_range
    ]
    | false ↦ ok disk
  ]

  -- The loop of `op_destory` over the bitmaps, from group `i` on.
  unfoldable pub save_bitmaps :
      SuperBlock → (i_bitmap d_bitmap : Bitmap) → (rounds i : ℕ) → dev.Disk → Res dev.Disk
  save_bitmaps sb i_bitmap d_bitmap zero i disk = ok disk
  save_bitmaps sb i_bitmap d_bitmap (suc rounds) i disk = do
    g ← load i_bitmap.group i
    disk₁ ← save_group (inode_bytes_of sb) g disk
    h ← load d_bitmap.group i
    disk₂ ← save_group (block_bytes_of sb) h disk₁
    save_bitmaps sb i_bitmap d_bitmap rounds (i + 1) disk₂
