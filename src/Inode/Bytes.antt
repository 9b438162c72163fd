-- ===== src/Inode/Bytes.antt =====
-- An inode on the disk: the bytes of `struct ext4_inode`, as `icache_write_back` writes them and a
-- read into the cache takes them (src/ext4/ext4_inode.h, src/cache.c).
use kfs.Base.{
  All-append, length-append, ℕ, ◌^◌, ◌<◌, ◌≡◌, List, ◌++◌, Res, ok, arith, ◌>>=◌, length, le16,
  le32, next_u16, next_u32, next_bytes, next_u16-le16, next_u32-le32, next_bytes-append, All,
}
use kfs.Inode.{Inode}

-- sizeof(struct ext4_inode)
abbrev pub inode_bytes : ℕ
inode_bytes = 160

-- The fields before `i_block`, and those behind it.
abbrev front : Inode → List ℕ
front inode =
    le16 inode.i_mode
    ++ (le16 inode.i_uid
        ++ (le32 inode.i_size_lo
            ++ (le32 inode.i_atime
                ++ (le32 inode.i_ctime
                    ++ (le32 inode.i_mtime
                        ++ (le32 inode.i_dtime
                            ++ (le16 inode.i_gid
                                ++ (le16 inode.i_links_count
                                    ++ (le32 inode.i_blocks_lo
                                        ++ (le32 inode.i_flags ++ (le32 inode.l_i_version)))))))))))

abbrev back : Inode → List ℕ
back inode =
    le32 inode.i_generation
    ++ (le32 inode.i_file_acl_lo
        ++ (le32 inode.i_size_high
            ++ (le32 inode.i_obso_faddr
                ++ (le16 inode.l_i_blocks_high
                    ++ (le16 inode.l_i_file_acl_high
                        ++ (le16 inode.l_i_uid_high
                            ++ (le16 inode.l_i_gid_high
                                ++ (le16 inode.l_i_checksum_lo
                                    ++ (le16 inode.l_i_reserved
                                        ++ (le16 inode.i_extra_isize
                                            ++ (le16 inode.i_checksum_hi
                                                ++ (le32 inode.i_ctime_extra
                                                    ++ (le32 inode.i_mtime_extra
                                                        ++ (le32 inode.i_atime_extra
                                                            ++ (le32 inode.i_crtime
                                                            ++ (le32 inode.i_crtime_extra
                                                            ++ (le32 inode.i_version_hi
                                                            ++ (le32
                                                            inode.i_projid))))))))))))))))))

unfoldable pub bytes_of : Inode → List ℕ
bytes_of inode = front inode ++ (inode.i_block ++ back inode)

unfoldable pub inode_of : List ℕ → Res Inode
inode_of bytes = do
  (f_i_mode, r1) ← next_u16 bytes
  (f_i_uid, r2) ← next_u16 r1
  (f_i_size_lo, r3) ← next_u32 r2
  (f_i_atime, r4) ← next_u32 r3
  (f_i_ctime, r5) ← next_u32 r4
  (f_i_mtime, r6) ← next_u32 r5
  (f_i_dtime, r7) ← next_u32 r6
  (f_i_gid, r8) ← next_u16 r7
  (f_i_links_count, r9) ← next_u16 r8
  (f_i_blocks_lo, r10) ← next_u32 r9
  (f_i_flags, r11) ← next_u32 r10
  (f_l_i_version, r12) ← next_u32 r11
  (f_i_block, r13) ← next_bytes 60 r12
  (f_i_generation, r14) ← next_u32 r13
  (f_i_file_acl_lo, r15) ← next_u32 r14
  (f_i_size_high, r16) ← next_u32 r15
  (f_i_obso_faddr, r17) ← next_u32 r16
  (f_l_i_blocks_high, r18) ← next_u16 r17
  (f_l_i_file_acl_high, r19) ← next_u16 r18
  (f_l_i_uid_high, r20) ← next_u16 r19
  (f_l_i_gid_high, r21) ← next_u16 r20
  (f_l_i_checksum_lo, r22) ← next_u16 r21
  (f_l_i_reserved, r23) ← next_u16 r22
  (f_i_extra_isize, r24) ← next_u16 r23
  (f_i_checksum_hi, r25) ← next_u16 r24
  (f_i_ctime_extra, r26) ← next_u32 r25
  (f_i_mtime_extra, r27) ← next_u32 r26
  (f_i_atime_extra, r28) ← next_u32 r27
  (f_i_crtime, r29) ← next_u32 r28
  (f_i_crtime_extra, r30) ← next_u32 r29
  (f_i_version_hi, r31) ← next_u32 r30
  (f_i_projid, r32) ← next_u32 r31
  ok (record {
    i_mode = f_i_mode;
    i_uid = f_i_uid;
    i_size_lo = f_i_size_lo;
    i_atime = f_i_atime;
    i_ctime = f_i_ctime;
    i_mtime = f_i_mtime;
    i_dtime = f_i_dtime;
    i_gid = f_i_gid;
    i_links_count = f_i_links_count;
    i_blocks_lo = f_i_blocks_lo;
    i_flags = f_i_flags;
    l_i_version = f_l_i_version;
    i_block = f_i_block;
    i_generation = f_i_generation;
    i_file_acl_lo = f_i_file_acl_lo;
    i_size_high = f_i_size_high;
    i_obso_faddr = f_i_obso_faddr;
    l_i_blocks_high = f_l_i_blocks_high;
    l_i_file_acl_high = f_l_i_file_acl_high;
    l_i_uid_high = f_l_i_uid_high;
    l_i_gid_high = f_l_i_gid_high;
    l_i_checksum_lo = f_l_i_checksum_lo;
    l_i_reserved = f_l_i_reserved;
    i_extra_isize = f_i_extra_isize;
    i_checksum_hi = f_i_checksum_hi;
    i_ctime_extra = f_i_ctime_extra;
    i_mtime_extra = f_i_mtime_extra;
    i_atime_extra = f_i_atime_extra;
    i_crtime = f_i_crtime;
    i_crtime_extra = f_i_crtime_extra;
    i_version_hi = f_i_version_hi;
    i_projid = f_i_projid;
  })

-- The fields are in the range of their types.
pub record InRange (inode : Inode) : Type 0 where
  pub i_mode_in : inode.i_mode < 2 ^ 16
  pub i_uid_in : inode.i_uid < 2 ^ 16
  pub i_size_lo_in : inode.i_size_lo < 2 ^ 32
  pub i_atime_in : inode.i_atime < 2 ^ 32
  pub i_ctime_in : inode.i_ctime < 2 ^ 32
  pub i_mtime_in : inode.i_mtime < 2 ^ 32
  pub i_dtime_in : inode.i_dtime < 2 ^ 32
  pub i_gid_in : inode.i_gid < 2 ^ 16
  pub i_links_count_in : inode.i_links_count < 2 ^ 16
  pub i_blocks_lo_in : inode.i_blocks_lo < 2 ^ 32
  pub i_flags_in : inode.i_flags < 2 ^ 32
  pub l_i_version_in : inode.l_i_version < 2 ^ 32
  pub i_block_len : length inode.i_block ≡ 60
  pub i_block_in : All (λ b. b < 2 ^ 8) inode.i_block
  pub i_generation_in : inode.i_generation < 2 ^ 32
  pub i_file_acl_lo_in : inode.i_file_acl_lo < 2 ^ 32
  pub i_size_high_in : inode.i_size_high < 2 ^ 32
  pub i_obso_faddr_in : inode.i_obso_faddr < 2 ^ 32
  pub l_i_blocks_high_in : inode.l_i_blocks_high < 2 ^ 16
  pub l_i_file_acl_high_in : inode.l_i_file_acl_high < 2 ^ 16
  pub l_i_uid_high_in : inode.l_i_uid_high < 2 ^ 16
  pub l_i_gid_high_in : inode.l_i_gid_high < 2 ^ 16
  pub l_i_checksum_lo_in : inode.l_i_checksum_lo < 2 ^ 16
  pub l_i_reserved_in : inode.l_i_reserved < 2 ^ 16
  pub i_extra_isize_in : inode.i_extra_isize < 2 ^ 16
  pub i_checksum_hi_in : inode.i_checksum_hi < 2 ^ 16
  pub i_ctime_extra_in : inode.i_ctime_extra < 2 ^ 32
  pub i_mtime_extra_in : inode.i_mtime_extra < 2 ^ 32
  pub i_atime_extra_in : inode.i_atime_extra < 2 ^ 32
  pub i_crtime_in : inode.i_crtime < 2 ^ 32
  pub i_crtime_extra_in : inode.i_crtime_extra < 2 ^ 32
  pub i_version_hi_in : inode.i_version_hi < 2 ^ 32
  pub i_projid_in : inode.i_projid < 2 ^ 32

-- An inode whose fields are in range is read back from its bytes.
pub inode_of-bytes_of : (inode : Inode) → InRange inode → inode_of (bytes_of inode) ≡ ok inode
unfolding inode_of bytes_of
inode_of-bytes_of inode v = rw (
  next_u16-le16 inode.i_mode _ v.i_mode_in,
  next_u16-le16 inode.i_uid _ v.i_uid_in,
  next_u32-le32 inode.i_size_lo _ v.i_size_lo_in,
  next_u32-le32 inode.i_atime _ v.i_atime_in,
  next_u32-le32 inode.i_ctime _ v.i_ctime_in,
  next_u32-le32 inode.i_mtime _ v.i_mtime_in,
  next_u32-le32 inode.i_dtime _ v.i_dtime_in,
  next_u16-le16 inode.i_gid _ v.i_gid_in,
  next_u16-le16 inode.i_links_count _ v.i_links_count_in,
  next_u32-le32 inode.i_blocks_lo _ v.i_blocks_lo_in,
  next_u32-le32 inode.i_flags _ v.i_flags_in,
  next_u32-le32 inode.l_i_version _ v.l_i_version_in,
  next_bytes-append 60 inode.i_block _ v.i_block_len,
  next_u32-le32 inode.i_generation _ v.i_generation_in,
  next_u32-le32 inode.i_file_acl_lo _ v.i_file_acl_lo_in,
  next_u32-le32 inode.i_size_high _ v.i_size_high_in,
  next_u32-le32 inode.i_obso_faddr _ v.i_obso_faddr_in,
  next_u16-le16 inode.l_i_blocks_high _ v.l_i_blocks_high_in,
  next_u16-le16 inode.l_i_file_acl_high _ v.l_i_file_acl_high_in,
  next_u16-le16 inode.l_i_uid_high _ v.l_i_uid_high_in,
  next_u16-le16 inode.l_i_gid_high _ v.l_i_gid_high_in,
  next_u16-le16 inode.l_i_checksum_lo _ v.l_i_checksum_lo_in,
  next_u16-le16 inode.l_i_reserved _ v.l_i_reserved_in,
  next_u16-le16 inode.i_extra_isize _ v.i_extra_isize_in,
  next_u16-le16 inode.i_checksum_hi _ v.i_checksum_hi_in,
  next_u32-le32 inode.i_ctime_extra _ v.i_ctime_extra_in,
  next_u32-le32 inode.i_mtime_extra _ v.i_mtime_extra_in,
  next_u32-le32 inode.i_atime_extra _ v.i_atime_extra_in,
  next_u32-le32 inode.i_crtime _ v.i_crtime_in,
  next_u32-le32 inode.i_crtime_extra _ v.i_crtime_extra_in,
  next_u32-le32 inode.i_version_hi _ v.i_version_hi_in,
  next_u32-le32 inode.i_projid _ v.i_projid_in,
)

pub bytes_of-length : (inode : Inode) → InRange inode → length (bytes_of inode) ≡ inode_bytes
unfolding bytes_of
bytes_of-length inode v = omega (arith, length-append inode.i_block (back inode), v.i_block_len)

pub bytes_of-All : (inode : Inode) → InRange inode → All (λ b. b < 2 ^ 8) (bytes_of inode)
unfolding bytes_of
bytes_of-All inode v =
    let front_in : All (λ b. b < 2 ^ 8) (front inode) = omega arith in
    let back_in : All (λ b. b < 2 ^ 8) (back inode) = omega arith in
    All-append _ (front inode) _ front_in
      (All-append _ inode.i_block (back inode) v.i_block_in back_in)
