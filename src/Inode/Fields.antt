-- ===== src/Inode/Fields.antt =====
-- The fields of an inode that are split into two halves (src/ext4/ext4_inode.h), and the type of a
-- file by its mode (src/inode.c).
use kfs.Base.{
  ℕ, ◌+◌, ◌*◌, ◌/◌, ◌%◌, ◌^◌, ◌<◌, ◌≡◌, not, arith, bit_or, bit_and, bit_and-mask, bit_or-shifted,
  bit_or_split, ◌==◌, if◌then◌else◌, ◌<<<◌, ◌>>>◌, u16, u32, u64, mask_16, bit_and-shifted,
}
use kfs.Inode.{
  Inode, get_uid, set_uid, get_gid, set_gid, get_size, set_size, get_blocks, set_blocks, has,
  mode2type, FileType, ft_unknown, ft_reg_file, ft_dir, ft_fifo, ft_symlink, ft_sock, ft_chrdev,
  ft_blkdev, s_ifdir, s_ifreg, s_iflnk, s_ifchr, s_ifblk, s_ififo, s_ifsock,
}

-- Two halves of `k` bits, put together.
ids : (x : ℕ) → x < 2 ^ 32 → bit_or (bit_and x mask_16) (bit_and (x >>> 16) mask_16 <<< 16) ≡ x
ids x h =
    let low : bit_and x mask_16 ≡ x % 2 ^ 16 = bit_and-mask 16 x in
    let high : bit_and (x / 2 ^ 16) mask_16 ≡ x / 2 ^ 16 =
      omega (arith, bit_and-mask 16 (x / 2 ^ 16)) in
    rw (low, high) (bit_or_split 16 x)

-- A user or group number of 32 bits that is stored in an inode is read back, and neither store
-- touches the other number.
pub get_uid-set_uid :
    (inode : Inode) (uid gid : ℕ)
    → uid < 2 ^ 32
    → gid < 2 ^ 32
    → let inode' = set_gid (set_uid inode uid) gid in
      (get_uid inode' ≡ uid) × (get_gid inode' ≡ gid)
unfolding get_uid set_uid get_gid set_gid
get_uid-set_uid inode uid gid h k = (ids uid h, ids gid k)

joined : (hi lo : ℕ) → lo < 2 ^ 32 → bit_or (hi <<< 32) lo ≡ hi * 2 ^ 32 + lo
joined hi lo h = bit_or-shifted 32 hi lo h

-- A size of 64 bits and a count of blocks of 64 bits that are stored in an inode: the size is read
-- back whole, of the count the low 48 bits are, and neither store touches the other.
pub get_size-set_size :
    (inode : Inode) (size blocks : ℕ)
    → size < 2 ^ 64
    → blocks < 2 ^ 64
    → let inode' = set_blocks (set_size inode size) blocks in
      (get_size inode' ≡ size) × (get_blocks inode' ≡ blocks % 2 ^ 48)
unfolding get_size set_size get_blocks set_blocks
get_size-set_size inode size blocks h k =
    let m = bit_and-mask 32 size in
    let n = bit_and-mask 32 (u64 size / 2 ^ 32) in
    let b = bit_and-mask 32 blocks in
    (
      rw (m, n) (omega (arith, joined (u32 (u64 size / 2 ^ 32 % 2 ^ 32)) (size % 2 ^ 32))),
      rw b (omega (arith, joined (u16 (u32 (u64 blocks / 2 ^ 32))) (blocks % 2 ^ 32))),
    )

-- The type that a mode's S_IFMT bits, the upper four, name.
pub kind_of : ℕ → FileType
kind_of kind =
    if kind == 1
    then ft_fifo
    else (if kind == 2
        then ft_chrdev
        else (if kind == 4
            then ft_dir
            else (if kind == 6
                then ft_blkdev
                else (if kind == 8
                    then ft_reg_file
                    else (if kind == 10
                        then ft_symlink
                        else (if kind == 12 then ft_sock else ft_unknown))))))

pub has-kind :
    (kind perm m : ℕ)
    → perm < 2 ^ 12
    → has (kind * 2 ^ 12 + perm) (m * 2 ^ 12) ≡ not (bit_and kind m == 0)
unfolding has
has-kind kind perm m h =
    let quot : (kind * 2 ^ 12 + perm) / 2 ^ 12 ≡ kind = omega arith in
    rw (bit_and-shifted 12 (kind * 2 ^ 12 + perm) m, quot) (ground arith)

tests :
    (kind perm : ℕ)
    → perm < 2 ^ 12
    → mode2type (kind * 2 ^ 12 + perm) ≡ (
        if not (bit_and kind 4 == 0)
        then ft_dir
        else (if not (bit_and kind 8 == 0)
            then ft_reg_file
            else (if not (bit_and kind 10 == 0)
                then ft_symlink
                else (if not (bit_and kind 2 == 0)
                    then ft_chrdev
                    else (if not (bit_and kind 6 == 0)
                        then ft_blkdev
                        else (if not (bit_and kind 1 == 0)
                            then ft_fifo
                            else (if not (bit_and kind 12 == 0) then ft_sock else ft_unknown)))))))
unfolding mode2type
tests kind perm h = rw (
  has-kind kind perm 4 h,
  has-kind kind perm 8 h,
  has-kind kind perm 10 h,
  has-kind kind perm 2 h,
  has-kind kind perm 6 h,
  has-kind kind perm 1 h,
  has-kind kind perm 12 h,
)

-- `inode_mode2type` tests single bits of S_IFMT, which is a number and not a set of flags: with any
-- permission bits it gives a directory, a regular file and a FIFO their type, but a symbolic link
-- the type of a regular file, a character device that of a symbolic link, and a block device and
-- a socket that of a directory.
pub mode2type-kinds :
    (perm : ℕ)
    → perm < 2 ^ 12
    → (mode2type (s_ifdir + perm) ≡ kind_of 4)
      × (mode2type (s_ifreg + perm) ≡ kind_of 8)
      × (mode2type (s_ififo + perm) ≡ kind_of 1)
      × (mode2type (s_iflnk + perm) ≡ ft_reg_file)
      × (mode2type (s_ifchr + perm) ≡ ft_symlink)
      × (mode2type (s_ifblk + perm) ≡ ft_dir)
      × (mode2type (s_ifsock + perm) ≡ ft_dir)
unfolding kind_of
mode2type-kinds perm h = (
  tests 4 perm h,
  tests 8 perm h,
  tests 1 perm h,
  tests 10 perm h,
  tests 2 perm h,
  tests 6 perm h,
  tests 12 perm h,
)
