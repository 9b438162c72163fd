-- ===== src/Inode.antt =====
-- The inode in memory (src/ext4/ext4_inode.h): its fields, its type by mode, who may use it and where
-- it lies on the disk (src/inode.c).
pub mod Fields
pub mod Pblocks
pub mod Create
pub mod Access
pub mod Bytes
pub mod Digits
pub mod Fresh
use kfs.Base.{
  ℕ, zero, suc, ◌+◌, ◌-◌, ◌*◌, ◌/◌, ◌%◌, ◌^◌, List, [], ◌∷◌, Option, none, some, Bool, true, false,
  not, ◌&&◌, ◌||◌, Res, ok, fault, assert, assert_failed, load, ◌>>=◌, ◌>>◌, ◌==◌, ltb, leb,
  if◌then◌else◌, bit_or, bit_and, ◌<<<◌, ◌>>>◌, mask_16, mask_32, u16, u32, u64, u32_at, put_u16,
  put_u32, replicate,
}
use kfs.Ext4.Super.{SuperBlock, block_size, blocks2bytes, bytes2blocks, n_block_groups}
use kfs.Ext4.Group.{GroupDesc, inode_table}
use kfs.Disk.{Pread, disk_read_u32}
use kfs.Bitmap.{Bitmap, PblockRange, PblockArr, pblock_set, inode_pblock_num}
use kfs.Extents.{
  Extent, ExtentHeader, header_of, extent_of, get_paddr, get_pblock, ext_magic, leaf_eh_max,
}

-- `struct ext4_inode`, with the Linux side of its unions; `i_block` is its 60 bytes.
pub record Inode : Type 0 where
  pub i_mode : ℕ
  pub i_uid : ℕ
  pub i_size_lo : ℕ
  pub i_atime : ℕ
  pub i_ctime : ℕ
  pub i_mtime : ℕ
  pub i_dtime : ℕ
  pub i_gid : ℕ
  pub i_links_count : ℕ
  pub i_blocks_lo : ℕ
  pub i_flags : ℕ
  pub l_i_version : ℕ
  pub i_block : List ℕ
  pub i_generation : ℕ
  pub i_file_acl_lo : ℕ
  pub i_size_high : ℕ
  pub i_obso_faddr : ℕ
  pub l_i_blocks_high : ℕ
  pub l_i_file_acl_high : ℕ
  pub l_i_uid_high : ℕ
  pub l_i_gid_high : ℕ
  pub l_i_checksum_lo : ℕ
  pub l_i_reserved : ℕ
  pub i_extra_isize : ℕ
  pub i_checksum_hi : ℕ
  pub i_ctime_extra : ℕ
  pub i_mtime_extra : ℕ
  pub i_atime_extra : ℕ
  pub i_crtime : ℕ
  pub i_crtime_extra : ℕ
  pub i_version_hi : ℕ
  pub i_projid : ℕ

-- EXT4_INODE_GET_UID, EXT4_INODE_SET_UID and their like; a store cuts to the width of the field.
unfoldable pub get_uid : Inode → ℕ
get_uid inode = bit_or inode.i_uid (inode.l_i_uid_high <<< 16)

unfoldable pub set_uid : Inode → ℕ → Inode
set_uid inode uid = record inode {
  i_uid = bit_and uid mask_16;
  l_i_uid_high = bit_and (uid >>> 16) mask_16;
}

unfoldable pub get_gid : Inode → ℕ
get_gid inode = bit_or inode.i_gid (inode.l_i_gid_high <<< 16)

unfoldable pub set_gid : Inode → ℕ → Inode
set_gid inode gid = record inode {
  i_gid = bit_and gid mask_16;
  l_i_gid_high = bit_and (gid >>> 16) mask_16;
}

unfoldable pub get_size : Inode → ℕ
get_size inode = bit_or (inode.i_size_high <<< 32) inode.i_size_lo

unfoldable pub set_size : Inode → ℕ → Inode
set_size inode size = record inode {
  i_size_lo = bit_and size mask_32;
  i_size_high = u32 (bit_and (u64 size >>> 32) mask_32);
}

unfoldable pub get_blocks : Inode → ℕ
get_blocks inode = bit_or (inode.l_i_blocks_high <<< 32) inode.i_blocks_lo

-- The high half is a field of 16 bits.
unfoldable pub set_blocks : Inode → ℕ → Inode
set_blocks inode blocks = record inode {
  i_blocks_lo = bit_and blocks mask_32;
  l_i_blocks_high = u16 (u32 (u64 blocks >>> 32));
}

-- EXT4_EXTENTS_FL
abbrev pub extents_fl : ℕ
extents_fl = 0x80000

-- The bits of a mode, as sys/stat.h of Linux has them.
abbrev pub s_ififo : ℕ
s_ififo = 0x1000

abbrev pub s_ifchr : ℕ
s_ifchr = 0x2000

abbrev pub s_ifdir : ℕ
s_ifdir = 0x4000

abbrev pub s_ifblk : ℕ
s_ifblk = 0x6000

abbrev pub s_ifreg : ℕ
s_ifreg = 0x8000

abbrev pub s_iflnk : ℕ
s_iflnk = 0xA000

abbrev pub s_ifsock : ℕ
s_ifsock = 0xC000

-- Is a bit of the mask set?
unfoldable pub has : ℕ → ℕ → Bool
has x mask = not (bit_and x mask == 0)

-- EXT4_FT_...
pub data FileType : Type 0 where
  ft_unknown ft_reg_file ft_dir ft_chrdev ft_blkdev ft_fifo ft_sock ft_symlink : FileType

-- `inode_mode2type`
unfoldable pub mode2type : ℕ → FileType
mode2type mode =
    if has mode s_ifdir
    then ft_dir
    else (if has mode s_ifreg
        then ft_reg_file
        else (if has mode s_iflnk
            then ft_symlink
            else (if has mode s_ifchr
                then ft_chrdev
                else (if has mode s_ifblk
                    then ft_blkdev
                    else (if has mode s_ififo
                        then ft_fifo
                        else (if has mode s_ifsock then ft_sock else ft_unknown))))))

pub data AccessMode : Type 0 where
  read write rdwr exec : AccessMode

-- The condition of one class of `inode_check_permission`, with the class's three bits.
unfoldable pub class_allows : (r w x : ℕ) → ℕ → AccessMode → Bool
class_allows r w x i_mode read = has i_mode r
class_allows r w x i_mode write = has i_mode w
class_allows r w x i_mode rdwr = has i_mode r && has i_mode w
class_allows r w x i_mode exec = has i_mode x

-- The user and group of the FUSE context, 0 and 0 where there is none.
unfoldable pub caller : Option (ℕ × ℕ) → ℕ × ℕ
caller none = (0, 0)
caller (some cntx) = cntx

-- `inode_check_permission`: true for 0, false for -EACCES.
unfoldable pub check_permission : Inode → Option (ℕ × ℕ) → AccessMode → Bool
check_permission inode cntx mode =
    let (uid, gid) = caller cntx in
    let m = inode.i_mode in
    if uid == 0
    then true
    else (if (get_uid inode == uid) && class_allows 0x100 0x80 0x40 m mode
        then true
        else (if get_gid inode == gid
            then class_allows 0x20 0x10 0x8 m mode
            else class_allows 0x4 0x2 0x1 m mode))

-- `inode_get_offset`
unfoldable pub get_offset : SuperBlock → List GroupDesc → ℕ → Res ℕ
get_offset sb gdt inode_idx = do
  assert (not (inode_idx == 0))
  let idx = inode_idx - 1
  let group_idx = idx / sb.s_inodes_per_group
  assert (ltb group_idx (n_block_groups sb))
  g ← load gdt group_idx
  ok (u64 (blocks2bytes sb (inode_table g) + u32 (idx % sb.s_inodes_per_group * sb.s_inode_size)))
