-- ===== src/Tests/Bitmaps.antt =====
-- A disk of two groups of eight inodes and eight blocks: the first group full, the second with
-- bits 0 and 2 set.
use kfs.Base.{
  ℕ, ◌*◌, ◌^◌, ◌<◌, ◌≤◌, ◌-◌, ◌/◌, ◌%◌, ◌==◌, all_below, all_below_sound, bit_and, ◌≡◌, refl, [],
  ◌∷◌, some, true, false, not, ok, fault, out_of_range, ◌⊎◌, arith, get_elem?, All-get, length,
}
use kfs.Ext4.Super.{SuperBlock, block_count, n_block_groups}
use kfs.Ext4.Group.{GroupDesc}
use kfs.Search.{first_free, next_groups, find_in_groups}
use kfs.Bitmap.{
  Bitmap, BitmapGroup, PblockArr, valid, scan_inodes, scan_pblocks, bit1, bit4, inode_find,
  inode_set, pblock_find, pblock_set, inode_count,
}
use kfs.Bitmap.Bits.{AllBytes}
use kfs.Bitmap.WellFormed.{group_count, IsBitmap}
use kfs.Bitmap.Inodes.{
  InodeNumber, NoFreeInode, SetsInode, NoFreeInodeIn, inode_is_free, inode_find_lem,
  inode_find_last, inode_set_lem,
}
use kfs.Bitmap.Blocks.{
  IsDataBitmap, NoFreeRun, RunStart, SetsRun, run_is_free, pblock_find_lem, pblock_set_lem,
}
use kfs.Bitmap.Count.{clear_in_groups}
use kfs.Gdt.{gdt_update, gdt_update_last_inode}

abbrev pub disk : SuperBlock
disk = record {
  s_inodes_count = 16;
  s_blocks_count_lo = 16;
  s_blocks_count_hi = 0;
  s_log_block_size = 2;
  s_blocks_per_group = 8;
  s_inodes_per_group = 8;
  s_mtime = 0;
  s_mnt_count = 0;
  s_magic = 0xEF53;
  s_inode_size = 256;
  s_desc_size = 64;
}

disk_groups : n_block_groups disk ≡ 2
unfolding n_block_groups block_count
disk_groups = refl

abbrev group_of : ℕ → BitmapGroup
group_of byte = record { bitmap = byte ∷ []; off = 0; status = valid }

abbrev pub half_full : Bitmap
half_full = record { group = group_of 255 ∷ group_of 5 ∷ []; group_num = 2 }

abbrev full : Bitmap
full = record { group = group_of 255 ∷ group_of 255 ∷ []; group_num = 2 }

abbrev IsGroup : BitmapGroup → Type 0
IsGroup g = (8 ≤ length g.bitmap * 8) × AllBytes g.bitmap

byte-IsGroup : (b : ℕ) → b < 256 → IsGroup (group_of b)
byte-IsGroup b h = (omega arith, λ i c e. All-get (λ x. x < 256) (b ∷ []) i c (h, tt) e)

small_ok :
    (b c : ℕ)
    → b < 256
    → c < 256
    → IsBitmap 8 2 (record { group = group_of b ∷ group_of c ∷ []; group_num = 2 })
small_ok b c hb hc = record {
  per_pos = omega arith;
  fits = omega arith;
  held = refl;
  room = λ k g e. (groups_ok k g e).0;
  bytes = λ k g e. (groups_ok k g e).1;
}
  where
    groups_ok :
        (k : ℕ) (g : BitmapGroup) → get_elem? (group_of b ∷ group_of c ∷ []) k ≡ some g → IsGroup g
    groups_ok k g e =
        All-get IsGroup (group_of b ∷ group_of c ∷ []) k g
          (byte-IsGroup b hb, (byte-IsGroup c hc, tt)) e

pub half_full-IsBitmap : IsBitmap 8 (group_count disk) half_full
unfolding n_block_groups block_count
half_full-IsBitmap = small_ok 255 5 (omega arith) (omega arith)

full-IsBitmap : IsBitmap 8 (group_count disk) full
unfolding n_block_groups block_count
full-IsBitmap = small_ok 255 255 (omega arith) (omega arith)

pub half_full-IsDataBitmap : IsDataBitmap disk half_full
half_full-IsDataBitmap = record { shape = half_full-IsBitmap; whole = refl }

first_byte_AllBytes : AllBytes (5 ∷ [])
first_byte_AllBytes = (byte-IsGroup 5 (omega arith)).1

-- From group 0 the search goes on to bit 1 of group 1, which is inode 10.
inode_find_runs : inode_find disk half_full 2 ≡ ok 10
unfolding inode_find find_in_groups next_groups first_free bit1 n_block_groups block_count
    scan_inodes
inode_find_runs = refl

pblock_find_runs : pblock_find disk half_full 2 4 ≡ ok 12
unfolding pblock_find find_in_groups next_groups first_free bit4 n_block_groups block_count
    scan_pblocks
pblock_find_runs = refl

inode_find_lem_example :
    ((inode_find disk half_full 2 ≡ ok 0) × NoFreeInode disk half_full)
    ⊎ ((n : ℕ) × (inode_find disk half_full 2 ≡ ok n)
        × InodeNumber disk n
        × (inode_is_free disk half_full n ≡ ok true))
unfolding n_block_groups block_count
inode_find_lem_example = inode_find_lem disk half_full-IsBitmap 2 (omega arith)

full_byte : (i : ℕ) → i < 8 → bit1 (255 ∷ []) i ≡ ok false
unfolding bit1 all_below
full_byte i h =
    let first : i / 8 ≡ 0 = omega arith in
    let set : not (bit_and 255 (2 ^ (i % 8)) == 0) ≡ true =
      all_below_sound 8 (λ j. not (bit_and 255 (2 ^ j) == 0)) (i % 8) (omega arith) refl in
    rw first (ground (arith, set))

full_group : NoFreeInodeIn disk full 1
unfolding inode_is_free
full_group n pos e = rw e (full_byte ((n - 1) % 8) (omega arith))

inode_find_last_example : inode_find disk full 9 ≡ fault out_of_range
unfolding n_block_groups block_count
inode_find_last_example = inode_find_last disk full-IsBitmap 9 refl full_group

inode_set_lem_example :
    (bm' : Bitmap) × (inode_set disk half_full 10 true ≡ ok bm')
    × IsBitmap 8 (group_count disk) bm'
    × SetsInode disk half_full 10 true bm'
unfolding n_block_groups block_count
inode_set_lem_example = inode_set_lem disk half_full-IsBitmap 10 true (omega arith)

pblock_find_lem_example :
    ((pblock_find disk half_full 2 4 ≡ ok (2 ^ 64 - 1)) × NoFreeRun disk half_full)
    ⊎ ((b : ℕ) × (pblock_find disk half_full 2 4 ≡ ok b)
        × RunStart disk b
        × (run_is_free disk half_full b ≡ ok true))
unfolding n_block_groups block_count
pblock_find_lem_example = pblock_find_lem disk half_full-IsDataBitmap 2 4 (omega arith)

pblock_set_lem_example :
    (bm' : Bitmap) × (pblock_set disk half_full 12 4 true ≡ ok bm')
    × IsDataBitmap disk bm'
    × SetsRun disk half_full 12 true bm'
unfolding n_block_groups block_count
pblock_set_lem_example = pblock_set_lem disk half_full-IsDataBitmap 12 true (omega arith)

abbrev one_range : PblockArr
one_range = record { arr = record { pblock = 8; len = 4 } ∷ []; len = 1 }

-- Six inodes are free, and they are what `*used_inode_num` gets.
inode_count_runs : inode_count disk half_full ≡ ok (6, 10)
unfolding inode_count bit1 n_block_groups block_count
inode_count_runs = refl

abbrev half_clear : ℕ
half_clear = clear_in_groups 8 half_full.group (n_block_groups disk) 0

abbrev desc : ℕ → GroupDesc
desc n = record {
  bg_block_bitmap_lo = 2;
  bg_inode_bitmap_lo = 3;
  bg_inode_table_lo = 4;
  bg_free_blocks_count_lo = n;
  bg_free_inodes_count_lo = n;
  bg_used_dirs_count_lo = 0xffff;
  bg_itable_unused_lo = n;
  bg_block_bitmap_hi = 0;
  bg_inode_bitmap_hi = 0;
  bg_inode_table_hi = 0;
  bg_free_blocks_count_hi = 0;
  bg_free_inodes_count_hi = 0;
  bg_used_dirs_count_hi = 0xffff;
  bg_itable_unused_hi = 0;
  dirty = 0;
}

gdt_update_last_inode_example : gdt_update disk (desc 5 ∷ desc 6 ∷ []) 16 ≡ fault out_of_range
gdt_update_last_inode_example =
    gdt_update_last_inode disk (desc 5 ∷ desc 6 ∷ []) 1 (omega arith) refl
