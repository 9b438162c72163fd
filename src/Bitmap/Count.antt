-- ===== src/Bitmap/Count.antt =====
-- The two counts of src/bitmap.c.
use kfs.Base.{
  ℕ, zero, suc, ◌+◌, ◌-◌, ◌*◌, ◌^◌, ◌<◌, ◌≤◌, ◌≡◌, List, some, ok, get_elem?, get_elem?-some,
  length, arith, inl, inr, Bool-cases, Option-cases, if◌then◌else◌, u64,
}
use kfs.Ext4.Super.{SuperBlock, n_block_groups}
use kfs.Bitmap.{Bitmap, BitmapGroup, bit1, count_bits, count_groups, inode_count, pblock_count}
use kfs.Bitmap.WellFormed.{IsBitmap, bit1-defined}

-- How many of the `n` bits from `j` on are clear.
clear_bits : List ℕ → ℕ → ℕ → ℕ
clear_bits bitmap zero j = 0
clear_bits bitmap (suc n) j =
    elim (bit1 bitmap j) [ ok clear ↦ (if clear then 1 else 0) | _ ↦ 0 ]
    + clear_bits bitmap n (j + 1)

clear_bits-le : (bitmap : List ℕ) (n j : ℕ) → clear_bits bitmap n j ≤ n
unfolding clear_bits
clear_bits-le bitmap zero j = omega arith
clear_bits-le bitmap (suc n) j = ground (arith, clear_bits-le bitmap n (j + 1))

count_bits_lem :
    (bitmap : List ℕ) (n j used free : ℕ)
    → j + n ≤ length bitmap * 8
    → used + n < 2 ^ 64
    → free + n < 2 ^ 64
    → count_bits bitmap n j (used, free)
      ≡ ok (used + clear_bits bitmap n j, free + (n - clear_bits bitmap n j))
unfolding count_bits clear_bits
count_bits_lem bitmap zero j used free inside a b = ground arith
count_bits_lem bitmap (suc n) j used free inside a b =
    let (c, e) = bit1-defined bitmap j (omega arith) in
    elim (Bool-cases c) [
      | inl t ↦
          let word : u64 (used + 1) ≡ used + 1 = omega arith in
          rw
            (
              e,
              t,
              word,
              count_bits_lem bitmap n (j + 1) (used + 1) free (omega arith) (omega arith)
                  (omega arith),
            )
            (ground (arith, clear_bits-le bitmap n (j + 1)))
      | inr t ↦
          let word : u64 (free + 1) ≡ free + 1 = omega arith in
          rw
            (
              e,
              t,
              word,
              count_bits_lem bitmap n (j + 1) used (free + 1) (omega arith) (omega arith)
                  (omega arith),
            )
            (ground (arith, clear_bits-le bitmap n (j + 1)))
    ]

-- How many of the first `per` bits of each of the `n` groups from `i` on are clear.
unfoldable pub clear_in_groups : ℕ → List BitmapGroup → ℕ → ℕ → ℕ
unfolding clear_bits
clear_in_groups per groups zero i = 0
clear_in_groups per groups (suc n) i =
    elim (get_elem? groups i) [ some g ↦ clear_bits g.bitmap per 0 | _ ↦ 0 ]
    + clear_in_groups per groups n (i + 1)

module _ {per count : ℕ} {bm : Bitmap} (v : IsBitmap per count bm) where
  clear_in_groups-le : (n i : ℕ) → clear_in_groups per bm.group n i ≤ n * per
  unfolding clear_in_groups
  clear_in_groups-le zero i = omega arith
  clear_in_groups-le (suc n) i = elim (Option-cases (get_elem? bm.group i)) [
    | inl e ↦ rw e (omega (arith, clear_in_groups-le n (i + 1)))
    | inr (g, e) ↦ rw e (omega (arith, clear_in_groups-le n (i + 1), clear_bits-le g.bitmap per 0))
  ]

  count_groups_lem :
      (n i used free : ℕ)
      → i + n ≤ count
      → used + n * per < 2 ^ 64
      → free + n * per < 2 ^ 64
      → count_groups per bm.group n i (used, free)
        ≡ ok (
          used + clear_in_groups per bm.group n i,
          free + (n * per - clear_in_groups per bm.group n i),
        )
  unfolding count_groups clear_in_groups
  count_groups_lem zero i used free inside a b = ground arith
  count_groups_lem (suc n) i used free inside a b =
      let (g, e) = get_elem?-some bm.group i (omega (arith, v.held)) in
      let le = clear_bits-le g.bitmap per 0 in
      let le' = clear_in_groups-le n (i + 1) in
      rw
        (
          e,
          count_bits_lem g.bitmap per 0 used free (omega (arith, v.room i g e)) (omega arith)
              (omega arith),
          count_groups_lem n (i + 1) (used + clear_bits g.bitmap per 0)
              (free + (per - clear_bits g.bitmap per 0)) (omega arith) (omega arith) (omega arith),
        )
        (ground arith)

-- `bitmap_inode_count` counts every inode once, and puts the free ones, the clear bits, in
-- `*used_inode_num` and the others in `*free_inode_num`.
pub inode_count_lem :
    (sb : SuperBlock) {bm : Bitmap}
    → IsBitmap sb.s_inodes_per_group (n_block_groups sb) bm
    → let clear = clear_in_groups sb.s_inodes_per_group bm.group (n_block_groups sb) 0 in
      (inode_count sb bm ≡ ok (clear, n_block_groups sb * sb.s_inodes_per_group - clear))
      × (clear ≤ n_block_groups sb * sb.s_inodes_per_group)
unfolding inode_count
inode_count_lem sb v = (
  rw
      (count_groups_lem v (n_block_groups sb) 0 0 0 (omega arith) (omega (arith, v.fits))
        (omega (arith, v.fits)))
      (ground arith),
  clear_in_groups-le v (n_block_groups sb) 0,
)

-- `bitmap_pblock_count` likewise puts the free blocks in `*used_pblock_num`.
pub pblock_count_lem :
    (sb : SuperBlock) {bm : Bitmap}
    → IsBitmap sb.s_blocks_per_group (n_block_groups sb) bm
    → let clear = clear_in_groups sb.s_blocks_per_group bm.group (n_block_groups sb) 0 in
      (pblock_count sb bm ≡ ok (clear, n_block_groups sb * sb.s_blocks_per_group - clear))
      × (clear ≤ n_block_groups sb * sb.s_blocks_per_group)
unfolding pblock_count
pblock_count_lem sb v = (
  rw
      (count_groups_lem v (n_block_groups sb) 0 0 0 (omega arith) (omega (arith, v.fits))
        (omega (arith, v.fits)))
      (ground arith),
  clear_in_groups-le v (n_block_groups sb) 0,
)
