-- ===== src/Extents.antt =====
-- The extent tree of an inode (src/extents.c, src/ext4/ext4_extents.h). A node is the memory that
-- a `void *` points to: a header of 12 bytes and an array of entries of 12 bytes.
pub mod Leaf
use kfs.Base.{
  ℕ, zero, suc, ◌+◌, ◌-◌, ◌*◌, ◌/◌, ◌%◌, ◌^◌, List, ◌++◌, Option, none, some, Bool, true, false,
  not, Res, ok, fault, assert, assert_failed, out_of_fuel, ◌>>=◌, ◌>>◌, ◌==◌, ltb, leb,
  if◌then◌else◌, bit_or, bit_and, ◌<<<◌, ◌>>>◌, mask_16, mask_32, u32, u64, u16_at, u32_at,
}
use kfs.Ext4.Super.{SuperBlock, block_size, blocks2bytes}
use kfs.Disk.{Pread, disk_read}

pub record Extent : Type 0 where
  pub ee_block : ℕ
  pub ee_len : ℕ
  pub ee_start_hi : ℕ
  pub ee_start_lo : ℕ

pub record ExtentIdx : Type 0 where
  pub ei_block : ℕ
  pub ei_leaf_lo : ℕ
  pub ei_leaf_hi : ℕ

pub record ExtentHeader : Type 0 where
  pub eh_magic : ℕ
  pub eh_entries : ℕ
  pub eh_max : ℕ
  pub eh_depth : ℕ

-- EXT4_EXT_GET_PADDR, EXT4_EXT_SET_PADDR
unfoldable pub get_paddr : Extent → ℕ
get_paddr ext = bit_or (ext.ee_start_hi <<< 32) ext.ee_start_lo

unfoldable pub set_paddr : Extent → ℕ → Extent
set_paddr ext addr = record ext {
  ee_start_hi = bit_and (addr >>> 32) mask_16;
  ee_start_lo = bit_and addr mask_32;
}

-- EXT4_EXT_LEAF_ADDR
unfoldable pub leaf_addr : ExtentIdx → ℕ
leaf_addr idx = bit_or (idx.ei_leaf_hi <<< 32) idx.ei_leaf_lo

-- EXT4_EXT_MAGIC, EXT4_EXT_LEAF_EH_MAX, EXT4_EXT_EH_MAX
abbrev pub ext_magic : ℕ
ext_magic = 0xF30A

abbrev pub leaf_eh_max : ℕ
leaf_eh_max = 4

abbrev pub eh_max_of_block : SuperBlock → ℕ
eh_max_of_block sb = u64 (block_size sb + 2 ^ 64 - 12 - 4) / 12

-- The structs as they lie in memory: the header, and entry `i` of the array behind it.
unfoldable pub header_of : List ℕ → Res ExtentHeader
header_of node = do
  magic ← u16_at node 0
  entries ← u16_at node 2
  max ← u16_at node 4
  depth ← u16_at node 6
  ok (record { eh_magic = magic; eh_entries = entries; eh_max = max; eh_depth = depth })

unfoldable pub extent_of : List ℕ → ℕ → Res Extent
extent_of node i = do
  block ← u32_at node (12 + 12 * i)
  len ← u16_at node (12 + 12 * i + 4)
  hi ← u16_at node (12 + 12 * i + 6)
  lo ← u32_at node (12 + 12 * i + 8)
  ok (record { ee_block = block; ee_len = len; ee_start_hi = hi; ee_start_lo = lo })

unfoldable pub idx_of : List ℕ → ℕ → Res ExtentIdx
idx_of node i = do
  block ← u32_at node (12 + 12 * i)
  lo ← u32_at node (12 + 12 * i + 4)
  hi ← u16_at node (12 + 12 * i + 8)
  ok (record { ei_block = block; ei_leaf_lo = lo; ei_leaf_hi = hi })

-- The loop of `extent_get_block_from_ees`, from entry `i` on: the extent it stops at. It takes `ee_len`
-- as it stands, also above 32768, where ext4_extents.h has 32768 stand for an uninitialised extent.
unfoldable pub find_extent : (ℕ → Res Extent) → ℕ → ℕ → ℕ → Res (Option Extent)
find_extent ee lblock zero i = ok none
find_extent ee lblock (suc rounds) i = do
  e ← ee i
  elim (ltb lblock (u32 (e.ee_block + e.ee_len))) [
    | true ↦ ok (some e)
    | false ↦ find_extent ee lblock rounds (i + 1)
  ]

-- `extent_get_block_from_ees`: the block, and `*extent_len` where it is written.
unfoldable pub block_from_ees : (ℕ → Res Extent) → ℕ → ℕ → Res (ℕ × Option ℕ)
block_from_ees ee n_ee lblock = do
  found ← find_extent ee lblock n_ee 0
  ok (elim found [
    | none ↦ (0, none)
    | some e ↦ (u64 (get_paddr e + u32 (lblock + 2 ^ 32 - e.ee_block)), some e.ee_len)
  ])

-- The loop of `extent_get_pblock` over the index: the last entry that does not start behind
-- `lblock`, up to the first that does.
unfoldable pub pick_index :
    (ℕ → Res ExtentIdx) → ℕ → ℕ → ℕ → Option ExtentIdx → Res (Option ExtentIdx)
pick_index ei lblock zero i picked = ok picked
pick_index ei lblock (suc rounds) i picked = do
  e ← ei i
  elim (ltb lblock e.ei_block) [
    | true ↦ ok picked
    | false ↦ pick_index ei lblock rounds (i + 1) (some e)
  ]

module _ (sb : SuperBlock) (pread : Pread) where
  -- `extent_get_extents_in_block`. Its parameter is a `uint32_t`.
  unfoldable pub extents_in_block : ℕ → Res (List ℕ)
  extents_in_block pblock = do
    head ← disk_read pread (blocks2bytes sb pblock) 12
    eh ← header_of head
    assert (eh.eh_magic == ext_magic)
    assert (leb eh.eh_max (eh_max_of_block sb))
    rest ← disk_read pread (blocks2bytes sb pblock + 12) (eh.eh_entries * 12)
    ok (head ++ rest)

  -- `extent_get_pblock`, with the fuel that bounds its descent.
  unfoldable pub get_pblock : ℕ → List ℕ → ℕ → Res (ℕ × Option ℕ)
  get_pblock zero extents lblock = fault out_of_fuel
  get_pblock (suc fuel) extents lblock = do
    eh ← header_of extents
    assert (eh.eh_magic == ext_magic)
    assert (leb eh.eh_max leaf_eh_max)
    elim (eh.eh_depth == 0) [
      | true ↦ block_from_ees (extent_of extents) eh.eh_entries lblock
      | false ↦ (do
        picked ← pick_index (idx_of extents) lblock eh.eh_entries 0 none
        elim picked [
          | none ↦ fault assert_failed
          | some idx ↦ (do
            leaf ← extents_in_block (u32 (leaf_addr idx))
            get_pblock fuel leaf lblock)
        ])
    ]
