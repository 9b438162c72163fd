-- ===== src/Unlink.antt =====
-- The last use of an inode (src/op_unlink.c, src/op_rmdir.c), once the search for the path has brought
-- its cache entry.
pub mod Links
use kfs.Base.{
  ℕ, zero, ◌+◌, ◌-◌, ◌*◌, ◌%◌, ◌^◌, Bool, true, false, Res, ok, ◌>>=◌, ◌==◌, ◌&&◌, leb, u16, Option,
  none, some, bit_and, if◌then◌else◌,
}
use kfs.Ext4.Super.{SuperBlock}
use kfs.Bitmap.{Bitmap, inode_set, pblock_free}
use kfs.Inode.{Inode, get_size, has, s_iflnk, s_ifdir}
use kfs.Inode.Pblocks.{get_all_pblocks}
use kfs.Icache.{IcacheEntry, set_dirty, set_inval}

-- The cache entry and the two bitmaps.
pub record Unlinked : Type 0 where
  pub entry : IcacheEntry
  pub i_bitmap : Bitmap
  pub d_bitmap : Bitmap

-- `inode->i_links_count--`
unfoldable pub drop_link : IcacheEntry → IcacheEntry
drop_link e =
    let inode = e.inode in
    record e { inode = record inode { i_links_count = u16 (inode.i_links_count + 2 ^ 16 - 1) } }

-- `inode_get_all_pblocks` and `bitmap_pblock_free`
abbrev pub free_pblocks : SuperBlock → Inode → Bitmap → Res Bitmap
free_pblocks sb inode d_bitmap = do p_arr ← get_all_pblocks inode; pblock_free sb p_arr d_bitmap

-- The test for a symbolic link whose target is in the inode.
unfoldable pub target_in_inode : Inode → Bool
target_in_inode inode = has inode.i_mode s_iflnk && leb (get_size inode) 60

-- `unlink_inode`
unfoldable pub unlink_inode :
    SuperBlock → (i_bitmap d_bitmap : Bitmap) → IcacheEntry → ℕ → Res Unlinked
unlink_inode sb i_bitmap d_bitmap entry inode_idx =
    let e = drop_link entry in
    elim (e.inode.i_links_count == 0) [
      | true ↦ (do
        i_bitmap' ← inode_set sb i_bitmap inode_idx false
        d_bitmap' ← elim (target_in_inode e.inode) [
          | true ↦ ok d_bitmap
          | false ↦ free_pblocks sb e.inode d_bitmap
        ]
        ok (record { entry = set_inval e; i_bitmap = i_bitmap'; d_bitmap = d_bitmap' }))
      | false ↦ ok (record { entry = set_dirty e; i_bitmap = i_bitmap; d_bitmap = d_bitmap })
    ]

-- S_ISDIR, by the bits of S_IFMT
abbrev pub is_dir : ℕ → Bool
is_dir mode = bit_and mode 0xF000 == s_ifdir

-- `op_rmdir` from the inode on, up to the entry in the parent: `none` is -EISDIR.
unfoldable pub rmdir_inode :
    SuperBlock → (i_bitmap d_bitmap : Bitmap) → IcacheEntry → ℕ → Res (Option Unlinked)
rmdir_inode sb i_bitmap d_bitmap entry inode_idx = elim (is_dir entry.inode.i_mode) [
  | false ↦ ok none
  | true ↦
      (let e = drop_link entry in
        elim (e.inode.i_links_count == 0) [
          | true ↦ (do
            i_bitmap' ← inode_set sb i_bitmap inode_idx false
            d_bitmap' ← free_pblocks sb e.inode d_bitmap
            ok (some (record { entry = set_inval e; i_bitmap = i_bitmap'; d_bitmap = d_bitmap' })))
          | false ↦
              ok (some (record { entry = set_dirty e; i_bitmap = i_bitmap; d_bitmap = d_bitmap }))
        ])
]
