-- ===== src/Inode/Fresh.antt =====
-- A new inode and its first blocks, read back by the functions that read inodes (src/inode.c).
use mathlib.Core.Path.{subst}
use kfs.Base.{
  sym, true, ℕ, replicate, suc, ◌+◌, ◌/◌, ◌%◌, ◌^◌, ◌<◌, ◌≡◌, refl, List, [], ◌∷◌, Option, none,
  some, ok, arith, if◌then◌else◌, ltb, ◌>>=◌, bit_and-mask, bit_or-shifted, bit_and, mask_16,
  mask_32,
}
use kfs.Ext4.Super.{SuperBlock}
use kfs.Disk.{Pread}
use kfs.Extents.{Extent, header_of, extent_of, get_pblock, block_from_ees, find_extent, get_paddr}
use kfs.Inode.{Inode, set_size, set_uid, set_gid, set_blocks, has, extents_fl}
use kfs.Inode.Pblocks.{get_data_pblock, get_all_pblocks, ranges_of}
use kfs.Inode.Create.{new_inode, with_pblock, init_pblock}
use kfs.Bitmap.{Bitmap}
use kfs.Bitmap.Blocks.{IsDataBitmap, RunStart, SetsRun, pblock_set_lem}

-- `i_block` of a new inode: the header of a leaf with no entries.
abbrev blank : List ℕ
blank = 0x0A ∷ 0xF3 ∷ 0 ∷ 0 ∷ 4 ∷ 0 ∷ replicate 54 0

-- The same with one extent, of 4 blocks: its start is `hi`, `lo`.
abbrev one_extent : ℕ → ℕ → List ℕ
one_extent hi lo =
    0x0A
    ∷ 0xF3
    ∷ 1
    ∷ 0
    ∷ 4
    ∷ 0
    ∷ 0
    ∷ 0
    ∷ 0
    ∷ 0
    ∷ 0
    ∷ 0
    ∷ 0
    ∷ 0
    ∷ 0
    ∷ 0
    ∷ 4
    ∷ 0
    ∷ hi % 2 ^ 8
    ∷ hi / 2 ^ 8 % 2 ^ 8
    ∷ lo % 2 ^ 8
    ∷ lo / 2 ^ 8 % 2 ^ 8
    ∷ lo / 2 ^ 16 % 2 ^ 8
    ∷ lo / 2 ^ 16 / 2 ^ 8 % 2 ^ 8
    ∷ replicate 36 0

abbrev extent : ℕ → Extent
extent pblock = record {
  ee_block = 0;
  ee_len = 4;
  ee_start_hi = pblock / 2 ^ 32;
  ee_start_lo = pblock % 2 ^ 32;
}

module _ (pblock : ℕ) (in_range : pblock < 2 ^ 48) where
  abbrev node : List ℕ
  node = one_extent (bit_and (pblock / 2 ^ 32) mask_16) (bit_and pblock mask_32)

  first_entry : extent_of node 0 ≡ ok (extent pblock)
  unfolding extent_of
  first_entry =
      let hi : bit_and (pblock / 2 ^ 32) mask_16 ≡ pblock / 2 ^ 32 =
        omega (arith, bit_and-mask 16 (pblock / 2 ^ 32)) in
      rw (hi, bit_and-mask 32 pblock) (ground arith)

  extent_start : get_paddr (extent pblock) ≡ pblock
  unfolding get_paddr
  extent_start = omega (arith, bit_or-shifted 32 (pblock / 2 ^ 32) (pblock % 2 ^ 32))

  node_block :
      (lblock : ℕ)
      → lblock < 2 ^ 32
      → block_from_ees (extent_of node) 1 lblock
        ≡ ok (if ltb lblock 4 then (pblock + lblock, some 4) else (0, none))
  unfolding block_from_ees find_extent
  node_block lblock small = rw first_entry (ground (arith, extent_start))

  node_lookup :
      (sb : SuperBlock) (pread : Pread) (fuel lblock : ℕ)
      → lblock < 2 ^ 32
      → get_pblock sb pread (suc fuel) node lblock
        ≡ ok (if ltb lblock 4 then (pblock + lblock, some 4) else (0, none))
  unfolding get_pblock header_of
  node_lookup sb pread fuel lblock small = node_block lblock small

  all_pblocks :
      (inode : Inode)
      → inode.i_block ≡ node
      → inode.i_flags ≡ extents_fl
      → get_all_pblocks inode
        ≡ ok (record { arr = record { pblock = pblock; len = 4 } ∷ []; len = 1 })
  unfolding get_all_pblocks ranges_of header_of has
  all_pblocks inode block flags =
      subst
        (λ b.
          get_all_pblocks (record inode { i_block = b })
          ≡ ok (record { arr = record { pblock = pblock; len = 4 } ∷ []; len = 1 }))
        (sym block) (rw (flags, first_entry) (rw extent_start))

module _ (sb : SuperBlock) (mode now : ℕ) (cntx : Option (ℕ × ℕ)) (pblock : ℕ)
    (in_range : pblock < 2 ^ 48) where
  blank_inode :
      (empty : Inode) × (new_inode sb mode now cntx ≡ ok empty)
      × (empty.i_block ≡ blank)
      × (empty.i_flags ≡ extents_fl)
  unfolding new_inode set_size set_blocks set_gid set_uid
  blank_inode = (_, refl, refl, refl)

  filled :
      (empty : Inode)
      → empty.i_block ≡ blank
      → empty.i_flags ≡ extents_fl
      → (inode : Inode) × (with_pblock empty pblock ≡ ok inode)
        × (inode.i_block ≡ node pblock in_range)
        × (inode.i_flags ≡ extents_fl)
  unfolding with_pblock set_blocks
  filled empty e f =
      let full : Inode = set_blocks (record empty { i_block = node pblock in_range }) 4 in
      (
        full,
        subst (λ b. with_pblock (record empty { i_block = b }) pblock ≡ ok full) (sym e) refl,
        refl,
        f,
      )

  -- `inode_create`, then `inode_init_pblock` with an aligned block of at most 48 bits that the data
  -- bitmap has: both succeed, that block and the three behind it are marked used and no other block's
  -- mark changes, the first four logical blocks of the new inode are these four, any other is in no
  -- extent, and the list of all its blocks is that one range of four.
  pub first_blocks :
      (bm : Bitmap) (pread : Pread) (fuel lblock : ℕ)
      → IsDataBitmap sb bm
      → RunStart sb pblock
      → lblock < 2 ^ 32
      → (inode : Inode) × (bm' : Bitmap) × ((do
        empty ← new_inode sb mode now cntx
        init_pblock sb bm empty pblock)
          ≡ ok (inode, bm'))
        × SetsRun sb bm pblock true bm'
        × (get_data_pblock sb pread (suc fuel) inode lblock
            ≡ ok (if ltb lblock 4 then (pblock + lblock, some 4) else (0, none)))
        × (get_all_pblocks inode
            ≡ ok (record { arr = record { pblock = pblock; len = 4 } ∷ []; len = 1 }))
  unfolding get_data_pblock has init_pblock
  first_blocks bm pread fuel lblock v run small =
      let (bm', marked, _, sets) = pblock_set_lem sb v pblock true run in
      let (empty, made, blank_block, flags) = blank_inode in
      let (inode, done, block, flags') = filled empty blank_block flags in
      (
        inode,
        bm',
        rw (made, ◌>>=◌, init_pblock, done, ◌>>=◌, marked, ◌>>=◌) refl,
        sets,
        rw (flags', block) (node_lookup pblock in_range sb pread fuel lblock small),
        all_pblocks pblock in_range inode block flags',
      )
