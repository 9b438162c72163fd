-- ===== src/Bitmap/Blocks.antt =====
-- The data bitmap: what `pblock_find` returns, `pblock_set`, and `pblock_free` (src/bitmap.c).
use kfs.Base.{
  ℕ, suc, ◌+◌, ◌-◌, ◌*◌, ◌/◌, ◌%◌, ◌^◌, ◌<◌, ◌≡◌, ap, ◌∙◌, bit_and, some, Bool, true, false, not,
  Res, ok, fault, assert_failed, load, ◌>>=◌, get_elem?, get_elem?-some, arith, ◌⊎◌, inl, inr, ◌&&◌,
  ◌==◌, ltb, if◌then◌else◌, u32, div-slot, mod-slot, slot-lt, div-lt_rows,
}
use native.Mathlib.Nat.{mod-lt, div-div-eq-div-mul, div-add-mod', add_assoc}
use native.Mathlib.Decide.{ℕ_discrete}
use kfs.Ext4.Super.{SuperBlock}
use kfs.Search.Slots.{Readable, find_slot-Found}
use kfs.Bitmap.{
  Bitmap, BitmapGroup, PblockRange, PblockArr, bit1, bit4, scan_pblocks, pblock_find, pblock_set,
  pblock_free, free_ranges, free_range,
}
use kfs.Bitmap.Nibbles.{set_bit4-bit1, bit4-bit1}
use kfs.Bitmap.WellFormed.{
  group_count, IsBitmap, with_bits, with_bits-IsBitmap, group_at, group_elsewhere,
}

-- Is block `n` free?
unfoldable pub block_is_free : SuperBlock → Bitmap → ℕ → Res Bool
block_is_free sb bm n = do
  g ← load bm.group (n / sb.s_blocks_per_group)
  bit1 g.bitmap (n % sb.s_blocks_per_group)

-- Are the four blocks from `n` on free?
abbrev pub run_is_free : SuperBlock → Bitmap → ℕ → Res Bool
run_is_free sb bm n = do
  a ← block_is_free sb bm n
  b ← block_is_free sb bm (n + 1)
  c ← block_is_free sb bm (n + 2)
  d ← block_is_free sb bm (n + 3)
  ok (a && b && c && d)

-- The data bitmap is well formed, and a group is a whole number of nibbles.
pub record IsDataBitmap (sb : SuperBlock) (bm : Bitmap) : Type 0 where
  pub shape : IsBitmap sb.s_blocks_per_group (group_count sb) bm
  pub whole : sb.s_blocks_per_group % 4 ≡ 0

-- A block number in range that starts a run.
abbrev pub RunStart : SuperBlock → ℕ → Type 0
RunStart sb b = (b < group_count sb * sb.s_blocks_per_group) × (b % 4 ≡ 0)

-- No run is free.
abbrev pub NoFreeRun : SuperBlock → Bitmap → Type 0
NoFreeRun sb bm = (b : ℕ) → RunStart sb b → run_is_free sb bm b ≡ ok false

-- From `bm` to `bm'` the run from `b` on becomes used or free, and no other block changes.
abbrev pub SetsRun : SuperBlock → Bitmap → ℕ → Bool → Bitmap → Type 0
SetsRun sb bm b is_used bm' =
    (m : ℕ)
    → m < group_count sb * sb.s_blocks_per_group
    → block_is_free sb bm' m ≡ (if m / 4 == b / 4 then ok (not is_used) else block_is_free sb bm m)

module _ (sb : SuperBlock) {bm : Bitmap} (v : IsDataBitmap sb bm) where
  readable : Readable (λ g. bit4 g.bitmap) (sb.s_blocks_per_group / 4) bm.group
  unfolding bit4
  readable k g e j h =
      let (b, at) = get_elem?-some g.bitmap (j / 2) (omega (arith, v.shape.room k g e)) in
      (bit_and b (15 * 2 ^ (j % 2 * 4)) == 0, rw at)

  -- Block `j` of group `k`.
  block_at :
      (k j : ℕ) (g : BitmapGroup)
      → get_elem? bm.group k ≡ some g
      → j < sb.s_blocks_per_group
      → block_is_free sb bm (k * sb.s_blocks_per_group + j) ≡ bit1 g.bitmap j
  unfolding block_is_free
  block_at k j g e lt = rw (div-slot per k j lt, mod-slot per k j lt, e)
    where
      open sb use {s_blocks_per_group as per}

  -- Slot `i` of group `k` is the run from block `k * blocks_per_group + 4i` on.
  slot-run :
      (k i : ℕ) (g : BitmapGroup)
      → get_elem? bm.group k ≡ some g
      → i < sb.s_blocks_per_group / 4
      → run_is_free sb bm (k * sb.s_blocks_per_group + i * 4) ≡ bit4 g.bitmap i
  slot-run k i g e lt =
      let shift = λ (j : ℕ). add_assoc (k * per) (i * 4) j in
      rw (
        shift 1,
        shift 2,
        shift 3,
        block_at k (i * 4) g e (omega arith),
        block_at k (i * 4 + 1) g e (omega arith),
        block_at k (i * 4 + 2) g e (omega arith),
        block_at k (i * 4 + 3) g e (omega arith),
        bit4-bit1 g.bitmap i (v.shape.bytes k g e) (omega (arith, v.shape.room k g e)),
      )
    where
      open sb use {s_blocks_per_group as per}

  small : group_count sb < 2 ^ 32
  small = omega arith

  -- The run that starts at an aligned block number in range is a slot.
  run-slot :
      (n : ℕ)
      → n < group_count sb * sb.s_blocks_per_group
      → n % 4 ≡ 0
      → (n / sb.s_blocks_per_group < group_count sb)
        × (n % sb.s_blocks_per_group / 4 < sb.s_blocks_per_group / 4)
        × (n
            ≡ n / sb.s_blocks_per_group * sb.s_blocks_per_group + n % sb.s_blocks_per_group / 4 * 4)
  run-slot n lt aligned =
      let quarter : per ≡ per / 4 * 4 = omega (arith, v.whole) in
      let rows = div-lt_rows per (group_count sb) n v.shape.per_pos lt in
      let inside = mod-lt n v.shape.per_pos in
      let fours = ap (λ t. n / per * t) quarter in
      let split = div-add-mod' n per in
      (
        rows,
        omega (arith, inside, quarter, fours, split, aligned),
        omega (arith, fours, split, aligned),
      )
    where
      open sb use {s_blocks_per_group as per}

  aligned : (k i : ℕ) → (k * sb.s_blocks_per_group + i * 4) % 4 ≡ 0
  aligned k i =
      let quarter : per ≡ per / 4 * 4 = omega (arith, v.whole) in
      omega (arith, ap (λ t. k * t) quarter)
    where
      open sb use {s_blocks_per_group as per}

  -- From a group that is not the last, `bitmap_pblock_find` ends. It returns UINT64_MAX only if no
  -- aligned run of four blocks is free; any other result starts an aligned run of free blocks.
  pub pblock_find_lem :
      (inode_idx n : ℕ)
      → inode_idx / sb.s_inodes_per_group + 1 < group_count sb
      → ((pblock_find sb bm inode_idx n ≡ ok (2 ^ 64 - 1)) × NoFreeRun sb bm)
        ⊎ ((b : ℕ) × (pblock_find sb bm inode_idx n ≡ ok b)
            × RunStart sb b
            × (run_is_free sb bm b ≡ ok true))
  unfolding pblock_find scan_pblocks
  pblock_find_lem inode_idx n inner =
      elim (find_slot-Found (λ g. bit4 g.bitmap) (per / 4) bm.group readable (group_count sb)
        v.shape.held small (inode_idx / ipg) inner) [
          | inl (r, full) ↦ inl (
            rw r,
            λ b (lt, aligned).
                let (lt_k, lt_i, eq) = run-slot b lt aligned in
                let (g, e, t) = full (b / per) (b % per / 4) lt_k lt_i in
                rw eq (slot-run (b / per) (b % per / 4) g e lt_i ∙ t),
          )
          | inr (k, i, r, lt, lt_i, (g, e, t), before) ↦
              let bound = slot-lt per (group_count sb) k (i * 4 + 3) lt (omega arith) in
              let fits : u32 (k * per + i * 4) ≡ k * per + i * 4 = omega (arith, v.shape.fits) in
              inr (
                k * per + i * 4,
                rw (r, fits),
                (omega arith, aligned k i),
                slot-run k i g e lt_i ∙ t,
              )
        ]
    where
      open sb use {s_blocks_per_group as per, s_inodes_per_group as ipg}

  quarters :
      (n : ℕ)
      → n / 4
        ≡ n / sb.s_blocks_per_group * (sb.s_blocks_per_group / 4) + n % sb.s_blocks_per_group / 4
  quarters n =
      let quarter : per ≡ per / 4 * 4 = omega (arith, v.whole) in
      omega (arith, ap (λ t. n / per * t) quarter, div-add-mod' n per)
    where
      open sb use {s_blocks_per_group as per}

  group_of : (n : ℕ) → n / 4 / (sb.s_blocks_per_group / 4) ≡ n / sb.s_blocks_per_group
  group_of n =
      let quarter : 4 * (per / 4) ≡ per = omega (arith, v.whole) in
      div-div-eq-div-mul n 4 (per / 4) ∙ ap (λ t. n / t) quarter
    where
      open sb use {s_blocks_per_group as per}

  -- `bitmap_pblock_set` of four blocks from an aligned block on succeeds, keeps the bitmap well
  -- formed, marks those four blocks used or free, and leaves the others as they were.
  pub pblock_set_lem :
      (b : ℕ) (is_used : Bool)
      → RunStart sb b
      → (bm' : Bitmap) × (pblock_set sb bm b 4 is_used ≡ ok bm')
        × IsDataBitmap sb bm'
        × SetsRun sb bm b is_used bm'
  unfolding pblock_set block_is_free
  pblock_set_lem b is_used (lt, aligned_b) =
      let (lt_k, lt_i, eq) = run-slot b lt aligned_b in
      let (g, e) = get_elem?-some bm.group (b / per) (omega (arith, v.shape.held)) in
      let (bits, done, sets) =
        set_bit4-bit1 g.bitmap (b % per / 4) is_used (v.shape.bytes _ g e)
          (omega (arith, v.shape.room _ g e)) in
      let word : u32 (b / per) ≡ b / per = omega (arith, v.shape.fits) in
      let inside : ltb (b / per) (group_count sb) ≡ true = ground arith in
      (
        with_bits v.shape (b / per) g e bits,
        rw (word, inside, e, done),
        record {
          shape = with_bits-IsBitmap v.shape (b / per) g e bits sets.0 sets.1;
          whole = v.whole;
        },
        λ m lt_m. elim (ℕ_discrete (b / per) (m / per)) [
          | yes here ↦
              rw
                (
                  ← here,
                  group_at v.shape (b / per) g e bits,
                  e,
                  sets.2 (m % per) (omega (arith, v.shape.room _ g e, mod-lt m v.shape.per_pos)),
                )
                (ground (arith, quarters m, quarters b, ap (λ (t : ℕ). t * (per / 4)) here))
          | no other ↦
              let apart : (m / 4 == b / 4) ≡ false = ground (
                arith,
                group_of m,
                group_of b,
                ap (λ (t : ℕ). t / (per / 4)) {x = m / 4} {y = b / 4},
              ) in
              rw (group_elsewhere v.shape (b / per) g e bits _ other, apart)
        ],
      )
    where
      open sb use {s_blocks_per_group as per}

pblock_set_one :
    (sb : SuperBlock) (d_bitmap : Bitmap) (b : ℕ) (is_used : Bool)
    → pblock_set sb d_bitmap b 1 is_used ≡ fault assert_failed
unfolding pblock_set
pblock_set_one sb d_bitmap b is_used = ground arith

-- `bitmap_pblock_free` calls `bitmap_pblock_set` with the length 1, which that function refuses by
-- ASSERT(0): it aborts on every array whose first range is not empty.
pub pblock_free_aborts :
    (sb : SuperBlock) (d_bitmap : Bitmap) (p_arr : PblockArr) (range : PblockRange)
    → 0 < p_arr.len
    → get_elem? p_arr.arr 0 ≡ some range
    → 0 < range.len
    → pblock_free sb p_arr d_bitmap ≡ fault assert_failed
unfolding pblock_free free_ranges free_range
pblock_free_aborts sb d_bitmap p_arr range pos e some_blocks =
    let n : p_arr.len ≡ suc (p_arr.len - 1) = omega arith in
    let m : range.len ≡ suc (range.len - 1) = omega arith in rw (n, e, m, pblock_set_one)
