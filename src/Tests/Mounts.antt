-- ===== src/Tests/Mounts.antt =====
-- A dirty inode bitmap and a clean data bitmap, written back to a device in memory.
use kfs.Base.{
  ℕ, zero, suc, some, get_elem?, ◌<◌, ◌≡◌, inl, inr, refl, [], ◌∷◌, Bool, true, false, ok, arith,
  if◌then◌else◌,
}
use kfs.Bitmap.{Bitmap, BitmapGroup, valid, dirty}
use kfs.Disk.Laws.{Apart}
use kfs.Mount.{save_bitmaps, bitmap_init, group_is_dirty}
use kfs.Disk.{disk_read}
use kfs.Ext4.Super.{SuperBlock, block_size, blocks2bytes, n_block_groups, block_count}
use kfs.Ext4.Group.{GroupDesc, inode_bitmap, block_bitmap}
use kfs.Tests.Inodes.{first_group}
use kfs.Mount.Save.{Fits, Layout}
use kfs.Mount.Reload.{Described, bitmap_init-save_bitmaps}
use kfs.Tests.Memory.{Mem, memory, memory-IsDevice}
use kfs.Tests.Bitmaps.{disk}
use kfs.Tests.Writes.{zeroes}

abbrev group : Bool → ℕ → BitmapGroup
group b k =
    if b
    then record { bitmap = 37 ∷ []; off = 4096; status = dirty }
    else record { bitmap = 0 ∷ []; off = 8192; status = valid }

abbrev map_of : Bool → Bitmap
map_of b = record { group = group b 0 ∷ []; group_num = 1 }

held : (b : Bool) (k : ℕ) → k < 1 → get_elem? (map_of b).group k ≡ some (group b k)
held b zero lt = refl
held b (suc k) lt = absurd (omega arith)

group-Fits :
    (b : Bool) (k : ℕ)
    → Fits (memory 65536) 65536 (memory-IsDevice 65536) (if b then 1 else 1) (group b k)
group-Fits true k = (refl, omega arith, (omega arith, tt))
group-Fits false k = (refl, omega arith, (omega arith, tt))

group-Apart :
    (b c : Bool) (k m : ℕ)
    → k < 1
    → m < 1
    → ((b ≡ c) → (k ≡ m) → ⊥)
    → Apart (group b k).off (if b then 1 else 1) (group c m).off (if c then 1 else 1)
group-Apart true true k m lt lt' ne = absurd (ne refl (omega arith))
group-Apart true false k m lt lt' ne = inl (omega arith)
group-Apart false true k m lt lt' ne = inr (omega arith)
group-Apart false false k m lt lt' ne = absurd (ne refl (omega arith))

-- One group, whose bitmaps are the blocks 1 and 2.
abbrev one_group : SuperBlock
one_group = record disk { s_blocks_count_lo = 8 }

abbrev desc : GroupDesc
desc = record first_group {
  bg_inode_bitmap_lo = 1;
  bg_inode_bitmap_hi = 0;
  bg_block_bitmap_lo = 2;
  bg_block_bitmap_hi = 0;
}

map-Layout :
    Layout
      (memory 65536)
      65536
      (memory-IsDevice 65536)
      one_group
      (map_of true)
      (map_of false)
      1
      group
map-Layout = record {
  inodes = held true;
  blocks = held false;
  fits = λ b k lt. group-Fits b k;
  apart = group-Apart;
}

desc_bitmaps :
    (blocks2bytes one_group (inode_bitmap desc) ≡ 4096)
    × (blocks2bytes one_group (block_bitmap desc) ≡ 8192)
unfolding blocks2bytes block_size inode_bitmap block_bitmap
desc_bitmaps = (refl, refl)

described : Described one_group (desc ∷ []) 1 group
described zero lt = (desc, refl, desc_bitmaps.0, desc_bitmaps.1)
described (suc k) lt = absurd (omega arith)

clean_on_disk :
    (b : Bool) (k : ℕ)
    → k < 1
    → group_is_dirty (memory 65536) (group b k) ≡ false
    → disk_read ((memory 65536).pread zeroes) (group b k).off (if b then 1 else 1)
      ≡ ok (group b k).bitmap
unfolding disk_read
clean_on_disk true k lt e = cc
clean_on_disk false k lt e = refl

bitmap_init-save_bitmaps_example :
    (d' : Mem) × (save_bitmaps (memory 65536) one_group (map_of true) (map_of false) 1 0 zeroes
      ≡ ok d')
    × (bitmap_init one_group (desc ∷ []) ((memory 65536).pread d')
        ≡ ok (
          record {
            group = record { bitmap = 37 ∷ []; off = 4096; status = valid } ∷ [];
            group_num = 1;
          },
          map_of false,
        ))
unfolding n_block_groups block_count
bitmap_init-save_bitmaps_example =
    bitmap_init-save_bitmaps one_group (desc ∷ []) 1 group (memory 65536) 65536
      (memory-IsDevice 65536) (map_of true) (map_of false) map-Layout zeroes refl described
      clean_on_disk
