-- ===== src/Bitmap.antt =====
-- The inode and data bitmaps (src/bitmap.c, src/bitmap.h, and the bit macros of src/ext4/ext4.h).
-- A function that updates a bitmap returns the new one.
pub mod Bits
pub mod Nibbles
pub mod WellFormed
pub mod Blocks
pub mod Inodes
pub mod Count
use kfs.Base.{
  ℕ, zero, suc, ◌+◌, ◌-◌, ◌*◌, ◌/◌, ◌%◌, ◌^◌, bit_and, bit_or, List, Option, none, some, Bool, true,
  false, not, Res, ok, fault, assert, assert_failed, load, store, ◌>>=◌, ◌>>◌, ◌==◌, ltb,
  if◌then◌else◌, u32, u64,
}
use kfs.Ext4.Super.{SuperBlock, n_block_groups}
use kfs.Search.{first_free, find_in_groups}

-- BITMAP_S_VALID and BITMAP_S_DIRTY
pub data Status : Type 0 where
  valid dirty : Status

pub record BitmapGroup : Type 0 where
  pub bitmap : List ℕ
  pub off : ℕ
  pub status : Status

pub record Bitmap : Type 0 where
  pub group : List BitmapGroup
  pub group_num : ℕ

pub record PblockRange : Type 0 where
  pub pblock : ℕ
  pub len : ℕ

pub record PblockArr : Type 0 where
  pub arr : List PblockRange
  pub len : ℕ

-- BIT1: is bit `n` clear?
unfoldable pub bit1 : List ℕ → ℕ → Res Bool
bit1 bitmap n = do byte ← load bitmap (n / 8); ok (bit_and byte (2 ^ (n % 8)) == 0)

-- BIT4: are the four bits of nibble `n` clear?
unfoldable pub bit4 : List ℕ → ℕ → Res Bool
bit4 bitmap n = do byte ← load bitmap (n / 2); ok (bit_and byte (15 * 2 ^ (n % 2 * 4)) == 0)

-- SET_BIT1. `~m` in a byte is `255 - m`.
unfoldable pub set_bit1 : List ℕ → ℕ → Bool → Res (List ℕ)
set_bit1 bitmap n v = do
  byte ← load bitmap (n / 8)
  let m = 2 ^ (n % 8)
  store bitmap (n / 8) (if v then bit_or byte m else bit_and byte (255 - m))

-- SET_BIT4
unfoldable pub set_bit4 : List ℕ → ℕ → Bool → Res (List ℕ)
set_bit4 bitmap n v = do
  byte ← load bitmap (n / 2)
  let m = 15 * 2 ^ (n % 2 * 4)
  store bitmap (n / 2) (if v then bit_or byte m else bit_and byte (255 - m))

-- The first clear bit of a group's inode bitmap.
unfoldable pub scan_inodes : SuperBlock → BitmapGroup → Res (Option ℕ)
scan_inodes sb g = first_free (bit1 g.bitmap) sb.s_inodes_per_group 0

-- `bitmap_inode_find`; 0 says that there is none.
unfoldable pub inode_find : SuperBlock → Bitmap → ℕ → Res ℕ
inode_find sb i_bitmap inode_idx = do
  let group_idx = inode_idx / sb.s_inodes_per_group
  let group_num = u32 (n_block_groups sb)
  r ← find_in_groups (scan_inodes sb) i_bitmap.group group_num group_idx
  ok (elim r [ none ↦ 0 | some (k, i) ↦ u32 (k * sb.s_inodes_per_group + i + 1) ])

-- The new bits of group `group_idx`, with BITMAP_S_DIRTY.
abbrev pub put_bits : Bitmap → ℕ → List ℕ → Res Bitmap
put_bits bm group_idx bits = do
  g ← load bm.group group_idx
  group ← store bm.group group_idx (record g { bitmap = bits; status = dirty })
  ok (record bm { group = group })

-- `bitmap_inode_set`
unfoldable pub inode_set : SuperBlock → Bitmap → ℕ → Bool → Res Bitmap
inode_set sb i_bitmap inode_idx is_used = do
  assert (not (inode_idx == 0))
  let idx = inode_idx - 1
  let group_idx = idx / sb.s_inodes_per_group
  let index = idx % sb.s_inodes_per_group
  assert (ltb group_idx (u32 (n_block_groups sb)))
  g ← load i_bitmap.group group_idx
  bits ← set_bit1 g.bitmap index is_used
  put_bits i_bitmap group_idx bits

-- EXT4_INODE_PBLOCK_NUM
abbrev pub inode_pblock_num : ℕ
inode_pblock_num = 4

-- The first nibble of a group's data bitmap that is clear.
unfoldable pub scan_pblocks : SuperBlock → BitmapGroup → Res (Option ℕ)
scan_pblocks sb g = first_free (bit4 g.bitmap) (sb.s_blocks_per_group / inode_pblock_num) 0

-- `bitmap_pblock_find`; UINT64_MAX says that there is none. The count `n` is not read. The block
-- number is computed in `uint32_t`.
unfoldable pub pblock_find : SuperBlock → Bitmap → ℕ → ℕ → Res ℕ
pblock_find sb d_bitmap inode_idx n = do
  let group_idx = inode_idx / sb.s_inodes_per_group
  let group_num = u32 (n_block_groups sb)
  r ← find_in_groups (scan_pblocks sb) d_bitmap.group group_num group_idx
  ok (elim r [
    | none ↦ 2 ^ 64 - 1
    | some (k, i) ↦ u32 (k * sb.s_blocks_per_group + i * inode_pblock_num)
  ])

-- `bitmap_pblock_set`
unfoldable pub pblock_set : SuperBlock → Bitmap → ℕ → ℕ → Bool → Res Bitmap
pblock_set sb d_bitmap block_idx len is_used = do
  let group_idx = u32 (block_idx / sb.s_blocks_per_group)
  let index = block_idx % sb.s_blocks_per_group
  assert (ltb group_idx (u32 (n_block_groups sb)))
  if len == inode_pblock_num
      then (do
        g ← load d_bitmap.group group_idx
        bits ← set_bit4 g.bitmap (index / inode_pblock_num) is_used
        put_bits d_bitmap group_idx bits)
      else fault assert_failed

-- The inner loop of `bitmap_pblock_free`, from `j` on.
unfoldable pub free_range : SuperBlock → PblockRange → ℕ → ℕ → Bitmap → Res Bitmap
free_range sb range zero j d_bitmap = ok d_bitmap
free_range sb range (suc rounds) j d_bitmap = do
  d_bitmap' ← pblock_set sb d_bitmap (u64 (range.pblock + j)) 1 false
  free_range sb range rounds (j + 1) d_bitmap'

-- `bitmap_pblock_free`, from range `i` on.
unfoldable pub free_ranges : SuperBlock → PblockArr → ℕ → ℕ → Bitmap → Res Bitmap
unfolding free_range
free_ranges sb p_arr zero i d_bitmap = ok d_bitmap
free_ranges sb p_arr (suc rounds) i d_bitmap = do
  range ← load p_arr.arr i
  d_bitmap' ← free_range sb range range.len 0 d_bitmap
  free_ranges sb p_arr rounds (i + 1) d_bitmap'

unfoldable pub pblock_free : SuperBlock → PblockArr → Bitmap → Res Bitmap
unfolding free_ranges
pblock_free sb p_arr d_bitmap = free_ranges sb p_arr p_arr.len 0 d_bitmap

-- The inner loop of the two counts: `used` and `free` from bit `j` on. A bit that BIT1 finds
-- clear goes to `used`, as in the source.
unfoldable pub count_bits : List ℕ → ℕ → ℕ → ℕ × ℕ → Res (ℕ × ℕ)
count_bits bitmap zero j acc = ok acc
count_bits bitmap (suc rounds) j (used, free) = do
  clear ← bit1 bitmap j
  count_bits bitmap rounds (j + 1)
      (if clear then (u64 (used + 1), free) else (used, u64 (free + 1)))

-- The outer loop, from group `i` on.
unfoldable pub count_groups : ℕ → List BitmapGroup → ℕ → ℕ → ℕ × ℕ → Res (ℕ × ℕ)
unfolding count_bits
count_groups per_group groups zero i acc = ok acc
count_groups per_group groups (suc rounds) i acc = do
  g ← load groups i
  acc' ← count_bits g.bitmap per_group 0 acc
  count_groups per_group groups rounds (i + 1) acc'

-- `bitmap_inode_count` and `bitmap_pblock_count`: `used` and `free`
unfoldable pub inode_count : SuperBlock → Bitmap → Res (ℕ × ℕ)
unfolding count_groups
inode_count sb i_bitmap =
    count_groups sb.s_inodes_per_group i_bitmap.group (n_block_groups sb) 0 (0, 0)

unfoldable pub pblock_count : SuperBlock → Bitmap → Res (ℕ × ℕ)
unfolding count_groups
pblock_count sb d_bitmap =
    count_groups sb.s_blocks_per_group d_bitmap.group (n_block_groups sb) 0 (0, 0)
