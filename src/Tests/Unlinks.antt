-- ===== src/Tests/Unlinks.antt =====
-- Links that are dropped, and the theorems on them applied.
use kfs.Base.{◌≡◌, refl, none, some, ok, fault, arith, false}
use kfs.Ext4.Super.{n_block_groups, block_count, block_size}
use kfs.Bitmap.{Bitmap, PblockRange, pblock_set, set_bit4}
use kfs.Bitmap.WellFormed.{IsBitmap, group_count}
use kfs.Bitmap.Inodes.{SetsInode}
use kfs.Inode.{Inode, get_size, has, set_size, set_blocks, set_gid, set_uid, caller}
use kfs.Inode.Create.{new_inode, init_pblock, with_pblock}
use kfs.Icache.{IcacheEntry, dirty, set_dirty, set_inval}
use kfs.Unlink.{unlink_inode, rmdir_inode}
use kfs.Unlink.Links.{with_links, unlink_inode-keeps_blocks, rmdir_inode-new_directory}
use kfs.Tests.Inodes.{sample}
use kfs.Tests.Reads.{text}
use kfs.Tests.Bitmaps.{disk, half_full, half_full-IsBitmap}

abbrev cached : Inode → IcacheEntry
cached inode = record {
  inode = inode;
  inode_idx = 5;
  lru_count = 1;
  status = dirty;
  last_de = none;
}

-- A regular file of ten bytes, with four blocks.
abbrev short : Inode
short = record text { i_size_lo = 10 }

unlink_inode-keeps_blocks_example :
    (bm' : Bitmap) × (unlink_inode disk half_full half_full (cached short) 5
      ≡ ok (record {
        entry = set_inval (with_links disk half_full half_full (cached short) 5 0);
        i_bitmap = bm';
        d_bitmap = half_full;
      }))
    × IsBitmap 8 (group_count disk) bm'
    × SetsInode disk half_full 5 false bm'
unfolding n_block_groups block_count get_size
unlink_inode-keeps_blocks_example =
    unlink_inode-keeps_blocks disk half_full half_full (cached short) 5 half_full-IsBitmap
      (omega arith) refl 0x24 (omega arith) refl (omega arith)

abbrev text_range : PblockRange
text_range = record { pblock = 20; len = 4 }

-- A directory as it is made, and as it gets its blocks from 12 on.
new_directory : Inode
unfolding new_inode set_size set_blocks set_gid set_uid caller has
new_directory = elim (new_inode disk 0x41ED 7 none) [ ok inode ↦ inode | fault e ↦ sample ]

new_directory_made : new_inode disk 0x41ED 7 none ≡ ok new_directory
unfolding new_directory new_inode set_size set_blocks set_gid set_uid caller has
new_directory_made = refl

filled : Inode × Bitmap
unfolding new_directory new_inode set_size set_blocks set_gid set_uid caller has init_pblock
    with_pblock pblock_set n_block_groups block_count block_size set_bit4
filled = elim (init_pblock disk half_full new_directory 12) [
  | ok made ↦ made
  | fault e ↦ (sample, half_full)
]

filled_made : init_pblock disk half_full new_directory 12 ≡ ok filled
unfolding filled new_directory new_inode set_size set_blocks set_gid set_uid caller has init_pblock
    with_pblock pblock_set n_block_groups block_count block_size set_bit4
filled_made = refl

rmdir_inode-new_directory_example :
    rmdir_inode disk half_full half_full (cached filled.0) 5
    ≡ ok (
        some (record {
          entry = set_dirty (with_links disk half_full half_full (cached filled.0) 5 1);
          i_bitmap = half_full;
          d_bitmap = half_full;
        }))
unfolding has
rmdir_inode-new_directory_example =
    rmdir_inode-new_directory disk half_full half_full (cached filled.0) 5 0x41ED 7 12 none
      new_directory half_full filled.1 new_directory_made filled_made refl refl
