-- ===== src/Bitmap/Inodes.antt =====
-- The inode bitmap: what `inode_find` returns, and `inode_set` (`bitmap_inode_find` and
-- `bitmap_inode_set` of src/bitmap.c).
use kfs.Base.{
  ℕ, ◌+◌, ◌-◌, ◌*◌, ◌/◌, ◌%◌, ◌^◌, ◌<◌, ◌≤◌, ◌≡◌, some, Bool, true, false, not, Res, ok, fault, ap,
  eq_of_div_mod, ltb, div-slot, mod-slot, slot-lt, div-lt_rows, out_of_range, load, ◌>>=◌,
  get_elem?, get_elem?-some, arith, ◌⊎◌, inl, inr, ◌==◌, if◌then◌else◌, u32,
}
use native.Mathlib.Nat.{mod-lt}
use native.Mathlib.Decide.{ℕ_discrete}
use kfs.Ext4.Super.{SuperBlock}
use kfs.Search.Slots.{Readable, Slot, find_slot-Found, find-Slot_last}
use kfs.Bitmap.{Bitmap, BitmapGroup, bit1, scan_inodes, inode_find, inode_set}
use kfs.Bitmap.Bits.{set_bit1-bit1}
use kfs.Bitmap.WellFormed.{
  group_count, IsBitmap, bit1-defined, with_bits, with_bits-IsBitmap, group_at, group_elsewhere,
}

-- Is inode `n` free? Inode `n` is bit `n - 1`, counted through the groups.
unfoldable pub inode_is_free : SuperBlock → Bitmap → ℕ → Res Bool
inode_is_free sb bm n = do
  g ← load bm.group ((n - 1) / sb.s_inodes_per_group)
  bit1 g.bitmap ((n - 1) % sb.s_inodes_per_group)

abbrev pub InodeNumber : SuperBlock → ℕ → Type 0
InodeNumber sb n = (0 < n) × (n ≤ group_count sb * sb.s_inodes_per_group)

-- No inode is free.
abbrev pub NoFreeInode : SuperBlock → Bitmap → Type 0
NoFreeInode sb bm = (n : ℕ) → InodeNumber sb n → inode_is_free sb bm n ≡ ok false

-- No inode of group `k` is free.
abbrev pub NoFreeInodeIn : SuperBlock → Bitmap → ℕ → Type 0
NoFreeInodeIn sb bm k =
    (n : ℕ) → 0 < n → (n - 1) / sb.s_inodes_per_group ≡ k → inode_is_free sb bm n ≡ ok false

-- From `bm` to `bm'` inode `n` becomes used or free, and no other inode changes.
abbrev pub SetsInode : SuperBlock → Bitmap → ℕ → Bool → Bitmap → Type 0
SetsInode sb bm n is_used bm' =
    (m : ℕ)
    → InodeNumber sb m
    → inode_is_free sb bm' m ≡ (if m == n then ok (not is_used) else inode_is_free sb bm m)

module _ (sb : SuperBlock) {bm : Bitmap}
    (v : IsBitmap sb.s_inodes_per_group (group_count sb) bm) where
  readable : Readable (λ g. bit1 g.bitmap) sb.s_inodes_per_group bm.group
  readable k g e j h = bit1-defined g.bitmap j (omega (arith, v.room k g e))

  -- Slot `j` of group `k` is inode `k * inodes_per_group + j + 1`.
  Slot-inode :
      (k j : ℕ) (b : Bool)
      → j < sb.s_inodes_per_group
      → Slot (λ g. bit1 g.bitmap) sb.s_inodes_per_group bm.group k j b
      → inode_is_free sb bm (k * sb.s_inodes_per_group + j + 1) ≡ ok b
  unfolding inode_is_free
  Slot-inode k j b lt (g, e, t) =
      let at : k * sb.s_inodes_per_group + j + 1 - 1 ≡ k * sb.s_inodes_per_group + j =
        omega arith in
      rw (at, div-slot sb.s_inodes_per_group k j lt, mod-slot sb.s_inodes_per_group k j lt, e) t

  small : group_count sb < 2 ^ 32
  small = omega arith

  -- A number in range is slot `(n - 1) % per` of group `(n - 1) / per`, which is there.
  inode_group :
      (n : ℕ)
      → 0 < n
      → n ≤ group_count sb * sb.s_inodes_per_group
      → (g : BitmapGroup) × (get_elem? bm.group ((n - 1) / sb.s_inodes_per_group) ≡ some g)
        × ((n - 1) / sb.s_inodes_per_group < group_count sb)
        × ((n - 1) % sb.s_inodes_per_group < sb.s_inodes_per_group)
  inode_group n pos le =
      let lt = div-lt_rows sb.s_inodes_per_group (group_count sb) (n - 1) v.per_pos (omega arith) in
      let (g, e) =
        get_elem?-some bm.group ((n - 1) / sb.s_inodes_per_group) (omega (arith, v.held)) in
      (g, e, lt, mod-lt (n - 1) v.per_pos)

  inode-Slot :
      (n : ℕ) (b : Bool)
      → 0 < n
      → n ≤ group_count sb * sb.s_inodes_per_group
      → Slot
          (λ g. bit1 g.bitmap)
          sb.s_inodes_per_group
          bm.group
          ((n - 1) / sb.s_inodes_per_group)
          ((n - 1) % sb.s_inodes_per_group)
          b
      → inode_is_free sb bm n ≡ ok b
  unfolding inode_is_free
  inode-Slot n b pos le (g, e, t) = rw e t

  -- From a group that is not the last, `bitmap_inode_find` ends. It returns 0 only if no inode is
  -- free; any other result is the number of an inode that is free.
  pub inode_find_lem :
      (inode_idx : ℕ)
      → inode_idx / sb.s_inodes_per_group + 1 < group_count sb
      → ((inode_find sb bm inode_idx ≡ ok 0) × NoFreeInode sb bm)
        ⊎ ((n : ℕ) × (inode_find sb bm inode_idx ≡ ok n)
            × InodeNumber sb n
            × (inode_is_free sb bm n ≡ ok true))
  unfolding inode_find scan_inodes
  inode_find_lem inode_idx inner =
      elim (find_slot-Found (λ g. bit1 g.bitmap) per bm.group readable (group_count sb) v.held small
        (inode_idx / per) inner) [
          | inl (r, full) ↦ inl (
            rw r,
            λ n (pos, le).
                let (g, e, lt, ltj) = inode_group n pos le in
                inode-Slot n false pos le (full ((n - 1) / per) ((n - 1) % per) lt ltj),
          )
          | inr (k, j, r, lt, ltj, slot, before) ↦
              let bound = slot-lt per (group_count sb) k j lt ltj in
              let fits : u32 (k * per + j + 1) ≡ k * per + j + 1 = omega (arith, v.fits) in
              inr (
                k * per + j + 1,
                rw (r, fits),
                (omega arith, omega arith),
                Slot-inode k j true ltj slot,
              )
        ]
    where
      open sb use {s_inodes_per_group as per}

  -- From the last group, when no inode of that group is free, `bitmap_inode_find` reads past the
  -- end of the groups.
  pub inode_find_last :
      (inode_idx : ℕ)
      → inode_idx / sb.s_inodes_per_group + 1 ≡ group_count sb
      → NoFreeInodeIn sb bm (inode_idx / sb.s_inodes_per_group)
      → inode_find sb bm inode_idx ≡ fault out_of_range
  unfolding inode_find scan_inodes inode_is_free
  inode_find_last inode_idx last full = rw (
      find-Slot_last (λ g. bit1 g.bitmap) per bm.group readable (group_count sb) v.held small
        (inode_idx / per) last slot_full)
    where
      open sb use {s_inodes_per_group as per}

      slot_full :
          (j : ℕ) → j < per → Slot (λ g. bit1 g.bitmap) per bm.group (inode_idx / per) j false
      slot_full j lt =
          let (g, e) = get_elem?-some bm.group (inode_idx / per) (omega (arith, v.held)) in
          let at : inode_idx / per * per + j + 1 - 1 ≡ inode_idx / per * per + j = omega arith in
          (
            g,
            e,
            (rw (at, div-slot per (inode_idx / per) j lt, mod-slot per (inode_idx / per) j lt, e) at
                (full (inode_idx / per * per + j + 1) (omega arith)
                  (rw at (div-slot per (inode_idx / per) j lt)))),
          )

  -- `bitmap_inode_set` succeeds on every inode number; it keeps the bitmap well formed, marks that
  -- inode used or free, and leaves the others as they were.
  pub inode_set_lem :
      (n : ℕ) (is_used : Bool)
      → InodeNumber sb n
      → (bm' : Bitmap) × (inode_set sb bm n is_used ≡ ok bm')
        × IsBitmap sb.s_inodes_per_group (group_count sb) bm'
        × SetsInode sb bm n is_used bm'
  unfolding inode_set inode_is_free
  inode_set_lem n is_used (pos, le) =
      let (g, e, lt, ltj) = inode_group n pos le in
      let (bits, done, sets) =
        set_bit1-bit1 g.bitmap ((n - 1) % per) is_used (v.bytes _ g e)
          (omega (arith, v.room _ g e)) in
      let nonzero : (n == 0) ≡ false = ground arith in
      let inside : ltb ((n - 1) / per) (group_count sb) ≡ true = ground arith in
      (
        with_bits v ((n - 1) / per) g e bits,
        rw (nonzero, inside, e, done),
        with_bits-IsBitmap v ((n - 1) / per) g e bits sets.0 sets.1,
        λ m (pos_m, le_m). elim (ℕ_discrete ((n - 1) / per) ((m - 1) / per)) [
          | yes here ↦
              let remainder = mod-lt (m - 1) v.per_pos in
              rw
                (
                  ← here,
                  group_at v ((n - 1) / per) g e bits,
                  e,
                  sets.2 ((m - 1) % per) (omega (arith, v.room _ g e)),
                )
                (ground (
                  arith,
                  eq_of_div_mod per (m - 1) (n - 1),
                  ap (λ t. (t - 1) % per) {x = m} {y = n},
                ))
          | no other ↦
              let apart : (m == n) ≡ false =
                ground (arith, ap (λ t. (t - 1) / per) {x = m} {y = n}) in
              rw (group_elsewhere v ((n - 1) / per) g e bits _ other, apart)
        ],
      )
    where
      open sb use {s_inodes_per_group as per}
