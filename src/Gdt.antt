-- ===== src/Gdt.antt =====
-- The counters of the group descriptors: `gdt_update` of src/bitmap.c.
use kfs.Base.{
  ℕ, ◌+◌, ◌-◌, ◌*◌, ◌/◌, ◌^◌, ◌<◌, ◌≤◌, ◌≡◌, refl, bit_and, bit_or, List, some, Res, ok, fault,
  out_of_range, load, store, ◌>>=◌, get_elem?, get_elem?-none, get_elem?-set_ne, get_elem?-set_self,
  lt-length_of_some, div-slot, set, length, arith, ◌==◌, if◌then◌else◌, u32, ◌<<<◌, ◌>>>◌, mask_16,
  bit_and-mask, bit_or_split,
}
use Prim.Native.Nat.{min}
use native.Mathlib.Nat.{div-eq_of_eq-mul_left}
use kfs.Ext4.Super.{SuperBlock}
use kfs.Ext4.Group.{GroupDesc, gdt_free_blocks, gdt_free_inodes, gdt_used_dirs, gdt_itable_unused}

-- EXT4_GDT_MAX_USED_DIRS
abbrev pub gdt_max_used_dirs : ℕ
gdt_max_used_dirs = 0xffffffff

-- `x - 1` in `uint32_t`
abbrev pub dec32 : ℕ → ℕ
dec32 x = u32 (x + 2 ^ 32 - 1)

-- The new descriptor; `dirty` is EXT4_GDT_SET_DIRTY.
unfoldable pub updated : GroupDesc → GroupDesc
updated g =
    let free_blocks = dec32 (gdt_free_blocks g) in
    let free_inodes = dec32 (gdt_free_inodes g) in
    let used_dirs =
      (if gdt_used_dirs g == gdt_max_used_dirs then gdt_used_dirs g else gdt_used_dirs g + 1) in
    let unused_inodes = dec32 (gdt_itable_unused g) in
    record g {
      bg_free_blocks_count_lo = bit_and free_blocks mask_16;
      bg_free_blocks_count_hi = free_blocks >>> 16;
      bg_free_inodes_count_lo = bit_and free_inodes mask_16;
      bg_free_inodes_count_hi = free_inodes >>> 16;
      bg_used_dirs_count_lo = bit_and used_dirs mask_16;
      bg_used_dirs_count_hi = used_dirs >>> 16;
      bg_itable_unused_lo = bit_and unused_inodes mask_16;
      bg_itable_unused_hi = unused_inodes >>> 16;
      dirty = 1;
    }

-- `gdt_update`
unfoldable pub gdt_update : SuperBlock → List GroupDesc → ℕ → Res (List GroupDesc)
unfolding updated
gdt_update sb gdt inode_idx = do
  let group_idx = inode_idx / sb.s_inodes_per_group
  g ← load gdt group_idx
  store gdt group_idx (updated g)

halves : (x : ℕ) → bit_or (bit_and x mask_16) (x >>> 16 <<< 16) ≡ x
halves x = rw (bit_and-mask 16 x) (bit_or_split 16 x)

-- The four counters after an update: each pair of 16-bit halves holds the old count less one in
-- `uint32_t`, 0 wrapping round to 2^32 - 1; the count of directories grows by one up to its limit,
-- where it stays. The descriptor is marked dirty.
pub updated_counts :
    (g : GroupDesc)
    → gdt_used_dirs g ≤ gdt_max_used_dirs
    → (gdt_free_blocks (updated g) ≡ dec32 (gdt_free_blocks g))
      × (gdt_free_inodes (updated g) ≡ dec32 (gdt_free_inodes g))
      × (gdt_itable_unused (updated g) ≡ dec32 (gdt_itable_unused g))
      × (gdt_used_dirs (updated g) ≡ min (gdt_used_dirs g + 1) gdt_max_used_dirs)
      × ((updated g).dirty ≡ 1)
unfolding updated gdt_free_blocks gdt_free_inodes gdt_used_dirs gdt_itable_unused
updated_counts g h = (
  halves _,
  halves _,
  halves _,
  ground (arith, halves (gdt_used_dirs g), halves (gdt_used_dirs g + 1)),
  refl,
)

module _ (sb : SuperBlock) (gdt : List GroupDesc) (k : ℕ) (pos : 0 < sb.s_inodes_per_group) where
  next_group : (k + 1) * sb.s_inodes_per_group / sb.s_inodes_per_group ≡ k + 1
  next_group = div-eq_of_eq-mul_left pos refl

  -- `gdt_update` picks the descriptor by `inode_idx / inodes_per_group`, while inode `n` is bit
  -- `n - 1` of its bitmap: for the last inode of group `k`, where a group `k + 1` follows, it leaves
  -- the descriptor of group `k` as it was and updates that of group `k + 1`.
  pub gdt_update_last_of_group :
      (g : GroupDesc)
      → get_elem? gdt (k + 1) ≡ some g
      → (((k + 1) * sb.s_inodes_per_group - 1) / sb.s_inodes_per_group ≡ k)
        × (gdt' : List GroupDesc) × (gdt_update sb gdt ((k + 1) * sb.s_inodes_per_group) ≡ ok gdt')
        × (get_elem? gdt' k ≡ get_elem? gdt k)
        × (get_elem? gdt' (k + 1) ≡ some (updated g))
  unfolding gdt_update
  gdt_update_last_of_group g e =
      let last : (k + 1) * per - 1 ≡ k * per + (per - 1) = omega arith in
      (
        rw last (div-slot per k (per - 1) (omega arith)),
        set gdt (k + 1) (updated g),
        rw (next_group, e),
        get_elem?-set_ne gdt (k + 1) k (updated g) (omega arith),
        get_elem?-set_self gdt (k + 1) (updated g) (lt-length_of_some gdt (k + 1) e),
      )
    where
      open sb use {s_inodes_per_group as per}

  -- For the last inode of the last group, `k`, it writes outside the array of descriptors.
  pub gdt_update_last_inode :
      length gdt ≡ k + 1 → gdt_update sb gdt ((k + 1) * sb.s_inodes_per_group) ≡ fault out_of_range
  unfolding gdt_update
  gdt_update_last_inode len = rw (next_group, get_elem?-none gdt (k + 1) (omega arith))
