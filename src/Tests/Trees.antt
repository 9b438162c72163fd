-- ===== src/Tests/Trees.antt =====
-- Extent trees on concrete bytes, and the theorems on them applied.
use kfs.Base.{
  ℕ, zero, suc, ◌+◌, ◌-◌, ◌^◌, ◌≤◌, ◌<◌, ◌≡◌, refl, List, [], ◌∷◌, none, some, ok, arith, ◌⊎◌, take,
  drop, ◌==◌, if◌then◌else◌,
}
use kfs.Ext4.Super.{SuperBlock, block_size}
use kfs.Disk.{Pread, disk_read}
use kfs.Extents.{
  Extent, ExtentHeader, get_paddr, header_of, extent_of, idx_of, find_extent, block_from_ees,
  pick_index, extents_in_block, get_pblock, leaf_addr,
}
use kfs.Extents.Leaf.{IsArray, Sorted, Covers, start, Before, mapped_block}

abbrev bytes_of_header : ℕ → ℕ → ℕ → List ℕ → List ℕ
bytes_of_header entries max depth rest =
    0x0A ∷ 0xF3 ∷ entries ∷ 0 ∷ max ∷ 0 ∷ depth ∷ 0 ∷ 0 ∷ 0 ∷ 0 ∷ 0 ∷ rest

-- Blocks 0 to 3 at 100, blocks 8 and 9 at 2^32 + 5.
abbrev leaf_node : List ℕ
leaf_node = bytes_of_header 2 4 0 (
    0 ∷ 0 ∷ 0 ∷ 0 ∷ 4 ∷ 0 ∷ 0 ∷ 0 ∷ 100 ∷ 0 ∷ 0 ∷ 0 ∷ 8 ∷ 0 ∷ 0 ∷ 0 ∷ 2 ∷ 0 ∷ 1 ∷ 0 ∷ 5 ∷ 0 ∷ 0 ∷ 0
    ∷ [])

-- One index entry, for block 7.
abbrev index_node : List ℕ
index_node = bytes_of_header 1 4 1 (0 ∷ 0 ∷ 0 ∷ 0 ∷ 7 ∷ 0 ∷ 0 ∷ 0 ∷ 0 ∷ 0 ∷ 0 ∷ 0 ∷ [])

abbrev first : Extent
first = record { ee_block = 0; ee_len = 4; ee_start_hi = 0; ee_start_lo = 100 }

abbrev second : Extent
second = record { ee_block = 8; ee_len = 2; ee_start_hi = 1; ee_start_lo = 5 }

abbrev entries : ℕ → Extent
entries zero = first
entries (suc i) = second

entries_all : (P : Extent → Type 0) → P first → P second → (i : ℕ) → P (entries i)
entries_all P p q zero = p
entries_all P p q (suc i) = q

entries_held : (i : ℕ) → i < 2 → extent_of leaf_node i ≡ ok (entries i)
unfolding extent_of
entries_held zero h = refl
entries_held (suc zero) h = refl
entries_held (suc (suc i)) h = absurd (omega arith)

entries-IsArray : IsArray (extent_of leaf_node) 2 entries
entries-IsArray = record {
  held = entries_held;
  fits = λ i _.
      entries_all (λ (e : Extent). e.ee_block + e.ee_len < 2 ^ 32) (omega arith) (omega arith) i;
  hi_in = λ i _. entries_all (λ (e : Extent). e.ee_start_hi < 2 ^ 16) (omega arith) (omega arith) i;
  lo_in = λ i _. entries_all (λ (e : Extent). e.ee_start_lo < 2 ^ 32) (omega arith) (omega arith) i;
}

entries-Sorted : Sorted 2 entries
entries-Sorted zero zero h k = absurd (omega arith)
entries-Sorted zero (suc zero) h k = omega arith
entries-Sorted zero (suc (suc j)) h k = absurd (omega arith)
entries-Sorted (suc i) j h k = absurd (omega arith)

-- Block 9 is the second of the second extent.
mapped_block_example :
    block_from_ees (extent_of leaf_node) 2 9 ≡ ok (start second + (9 - second.ee_block), some 2)
mapped_block_example =
    mapped_block (extent_of leaf_node) entries 2 9 entries-IsArray entries-Sorted
      (λ i _. entries_all (λ (e : Extent). e.ee_len ≤ 32768) (omega arith) (omega arith) i) 1
      (omega arith) (omega arith, omega arith)

abbrev Answers : ℕ → Type 0
Answers lblock =
    ((k : ℕ) × (k < 2)
      × Covers (entries k) lblock
      × (block_from_ees (extent_of leaf_node) 2 lblock
          ≡ ok (start (entries k) + (lblock - (entries k).ee_block), some (entries k).ee_len)))
    ⊎ (((k : ℕ) × (k < 2)
          × (lblock < (entries k).ee_block)
          × (block_from_ees (extent_of leaf_node) 2 lblock
              ≡ ok (
                start (entries k) + (2 ^ 32 - ((entries k).ee_block - lblock)),
                some (entries k).ee_len,
              )))
        ⊎ (Before entries lblock 0 2
            × (block_from_ees (extent_of leaf_node) 2 lblock ≡ ok (0, none))))

-- Block 6 is in the hole between the two extents.
hole_runs : block_from_ees (extent_of leaf_node) 2 6 ≡ ok (2 ^ 32 + 5 + (2 ^ 32 - 2), some 2)
unfolding block_from_ees find_extent extent_of get_paddr
hole_runs = refl

abbrev disk : SuperBlock
disk = record {
  s_inodes_count = 16;
  s_blocks_count_lo = 64;
  s_blocks_count_hi = 0;
  s_log_block_size = 0;
  s_blocks_per_group = 64;
  s_inodes_per_group = 16;
  s_mtime = 0;
  s_mnt_count = 0;
  s_magic = 0xEF53;
  s_inode_size = 256;
  s_desc_size = 64;
}

-- A device of which every block begins with a leaf: its header, and the array behind it.
abbrev leaves : ℕ → Pread
leaves max where_ size =
    some (if size == 12 then take 12 (bytes_of_header 2 max 0 []) else drop 12 leaf_node)

abbrev big_leaf : List ℕ
big_leaf = bytes_of_header 2 84 0 (drop 12 leaf_node)

abbrev index_header : ExtentHeader
index_header = record { eh_magic = 0xF30A; eh_entries = 1; eh_max = 4; eh_depth = 1 }

descent_runs : get_pblock disk (leaves 4) 2 index_node 9 ≡ ok (2 ^ 32 + 6, some 2)
unfolding get_pblock header_of pick_index idx_of leaf_addr block_from_ees find_extent extent_of
    get_paddr extents_in_block disk_read block_size
descent_runs = refl
