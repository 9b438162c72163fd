-- ===== src/Attr.antt =====
-- The operations on the attributes of one inode (src/op_chmod.c, src/op_chown.c, src/op_utimens.c,
-- src/op_access.c, src/op_open.c, src/op_getattr.c). `fh` is the number in the file handle, 0 where there is none;
-- `by_path` the number that the search for the path gives, 0 where it fails, and the cache is as that
-- search leaves it. For the control files that `ctl_check` knows, the path is that of `/.kfsctl`.
pub mod Edit
pub mod Checked
use kfs.Base.{
  ℕ, ◌+◌, ◌-◌, ◌*◌, bit_and, ◌%◌, ◌^◌, List, Option, none, some, Bool, true, false, not, Res, ok,
  load, ◌>>=◌, ◌==◌, ◌&&◌, leb, if◌then◌else◌, u16, u32,
}
use kfs.Ext4.Super.{SuperBlock, block_size}
use kfs.Ext4.Group.{GroupDesc}
use kfs.Disk.{Device}
use kfs.Inode.{
  Inode, get_size, get_uid, get_gid, AccessMode, read, write, rdwr, exec, check_permission, set_uid,
  set_gid, has,
}
use kfs.Icache.{Icache, IcacheEntry, get_by_number, change_entry, set_dirty, lru_inc}

-- -ENOENT, -EACCES, -EPERM, -EINVAL, -ENOSYS
pub data Errno : Type 0 where
  enoent eacces eperm einval enosys : Errno

-- A change of a cached inode, which is marked dirty.
abbrev pub edit : (Inode → Inode) → IcacheEntry → IcacheEntry
edit g e = set_dirty (record e { inode = g e.inode })

-- `fi && fi->fh ? fi->fh : inode_get_idx_by_path(path)`
abbrev pub number_of : (fh by_path : ℕ) → ℕ
number_of fh by_path = if fh == 0 then by_path else fh

-- The assignments of `op_chmod`, `op_chown` and `op_utimens`. A time of 0 stands for now.
unfoldable pub with_mode : ℕ → Inode → Inode
with_mode mode inode = record inode { i_mode = u16 mode }

unfoldable pub with_owner : (uid gid : ℕ) → Inode → Inode
with_owner uid gid inode = set_gid (set_uid inode uid) gid

unfoldable pub with_times : (now asec msec : ℕ) → Inode → Inode
with_times now asec msec inode = record inode {
  i_atime = u32 (if asec == 0 then now else asec);
  i_mtime = u32 (if msec == 0 then now else msec);
}

-- What an operation comes to: the error or 0, the cache and the disk.
abbrev pub Reply : Type 0 → Type 0
Reply Disk = Res (Option Errno × Icache × Disk)

-- The three tests of `op_access`, by the bits W_OK, R_OK and X_OK of `mask`.
unfoldable pub mask_allows : Inode → Option (ℕ × ℕ) → ℕ → Bool
mask_allows inode cntx mask =
    (if has mask 2 then check_permission inode cntx write else true)
    && ((if has mask 4 then check_permission inode cntx read else true)
        && (if has mask 1 then check_permission inode cntx exec else true))

-- `fi->flags & O_ACCMODE` as an `access_mode_t`
abbrev pub mode_of_flags : ℕ → AccessMode
mode_of_flags flags =
    if flags % 4 == 0
    then read
    else (if flags % 4 == 1 then write else (if flags % 4 == 2 then rdwr else exec))

-- The fields of `struct stat` that `op_getattr` sets.
pub record Stat : Type 0 where
  pub st_mode : ℕ
  pub st_nlink : ℕ
  pub st_size : ℕ
  pub st_ino : ℕ
  pub st_blocks : ℕ
  pub st_uid : ℕ
  pub st_gid : ℕ
  pub st_atime : ℕ
  pub st_mtime : ℕ
  pub st_ctime : ℕ
  pub st_blksize : ℕ

-- The assignments of `op_getattr`; the umask is 022 without a FUSE context.
unfoldable pub stat_of : SuperBlock → (huge : Bool) → (cntx_umask : Option ℕ) → ℕ → Inode → Stat
stat_of sb huge cntx_umask inode_idx inode = record {
  st_mode =
      bit_and inode.i_mode
        (2 ^ 32 - 1 - u32 (elim cntx_umask [ none ↦ 0x12 | some umask ↦ umask ]));
  st_nlink = inode.i_links_count;
  st_size = get_size inode;
  st_ino = inode_idx;
  st_blocks =
      if huge then inode.i_blocks_lo + inode.l_i_blocks_high * 2 ^ 32 else inode.i_blocks_lo;
  st_uid = get_uid inode;
  st_gid = get_gid inode;
  st_atime = inode.i_atime;
  st_mtime = inode.i_mtime;
  st_ctime = inode.i_ctime;
  st_blksize = block_size sb;
}

module _ (sb : SuperBlock) (gdt : List GroupDesc) (dev : Device) where
  -- `op_chmod`
  unfoldable pub op_chmod :
      Icache → dev.Disk → (cntx : Option (ℕ × ℕ)) → (fh by_path mode : ℕ) → Reply dev.Disk
  op_chmod icache disk cntx fh by_path mode = do
    found ← get_by_number sb gdt dev icache disk (number_of fh by_path)
    elim found as (λ _. Reply dev.Disk) [
      | none ↦ ok (some enoent, icache, disk)
      | some (ic, disk', i) ↦ (do
        e ← load ic.entries i
        elim (check_permission e.inode cntx rdwr) [
          | false ↦ ok (some eacces, ic, disk')
          | true ↦ (do
            ic' ← change_entry sb gdt dev ic i (edit (with_mode mode))
            ok (none, ic', disk'))
        ])
    ]

  -- `op_chown`; `killpriv` is FUSE_CAP_HANDLE_KILLPRIV of `fuse_capable`.
  unfoldable pub op_chown :
      Icache
      → dev.Disk
      → (cntx : Option (ℕ × ℕ)) → (killpriv : Bool) → (fh by_path uid gid : ℕ) → Reply dev.Disk
  op_chown icache disk cntx killpriv fh by_path uid gid = elim killpriv [
    | false ↦ ok (some enosys, icache, disk)
    | true ↦ elim (leb (2 ^ 31) gid) [
      | true ↦ ok (some eperm, icache, disk)
      | false ↦ elim (leb (2 ^ 31) uid) [
        | true ↦ ok (some einval, icache, disk)
        | false ↦ (do
          found ← get_by_number sb gdt dev icache disk (number_of fh by_path)
          elim found as (λ _. Reply dev.Disk) [
            | none ↦ ok (some enoent, icache, disk)
            | some (ic, disk', i) ↦ (do
              e ← load ic.entries i
              elim (check_permission e.inode cntx write) [
                | false ↦ ok (some eacces, ic, disk')
                | true ↦ elim (uid == e.inode.i_uid && gid == e.inode.i_gid) [
                  | true ↦ ok (none, ic, disk')
                  | false ↦ (do
                    ic' ← change_entry sb gdt dev ic i (edit (with_owner uid gid))
                    ok (none, ic', disk'))
                ]
              ])
          ])
      ]
    ]
  ]

  -- `op_utimens`
  unfoldable pub op_utimens :
      Icache → dev.Disk → (cntx : Option (ℕ × ℕ)) → (fh by_path now asec msec : ℕ) → Reply dev.Disk
  op_utimens icache disk cntx fh by_path now asec msec = do
    found ← get_by_number sb gdt dev icache disk (number_of fh by_path)
    elim found as (λ _. Reply dev.Disk) [
      | none ↦ ok (some enoent, icache, disk)
      | some (ic, disk', i) ↦ (do
        e ← load ic.entries i
        elim (check_permission e.inode cntx write) [
          | false ↦ ok (some eperm, ic, disk')
          | true ↦ (do
            ic' ← change_entry sb gdt dev ic i (edit (with_times now asec msec))
            ok (none, ic', disk'))
        ])
    ]

  -- `op_access`
  unfoldable pub op_access :
      Icache → dev.Disk → (cntx : Option (ℕ × ℕ)) → (by_path mask : ℕ) → Reply dev.Disk
  op_access icache disk cntx by_path mask = do
    found ← get_by_number sb gdt dev icache disk by_path
    elim found as (λ _. Reply dev.Disk) [
      | none ↦ ok (some enoent, icache, disk)
      | some (ic, disk', i) ↦ (do
        e ← load ic.entries i
        ok ((if mask_allows e.inode cntx mask then none else some eacces), ic, disk'))
    ]

  -- `op_open`: `fi->fh` is set where it succeeds.
  unfoldable pub op_open :
      Icache
      → dev.Disk
      → (cntx : Option (ℕ × ℕ)) → (by_path flags : ℕ) → Res (Option Errno × ℕ × Icache × dev.Disk)
  op_open icache disk cntx by_path flags = do
    found ← get_by_number sb gdt dev icache disk by_path
    elim found as (λ _. Res (Option Errno × ℕ × Icache × dev.Disk)) [
      | none ↦ ok (some enoent, 0, icache, disk)
      | some (ic, disk', i) ↦ (do
        e ← load ic.entries i
        elim (check_permission e.inode cntx (mode_of_flags flags)) [
          | false ↦ ok (some eacces, 0, ic, disk')
          | true ↦ ok (none, by_path, ic, disk')
        ])
    ]

  -- `op_getattr`: the attributes, and one more use of the inode. `huge` is the test of `sb.s_flags`.
  unfoldable pub op_getattr :
      Icache
      → dev.Disk
      → (cntx_umask : Option ℕ) → (huge : Bool) → (by_path : ℕ)
      → Res (Option Stat × Icache × dev.Disk)
  op_getattr icache disk cntx_umask huge by_path = do
    found ← get_by_number sb gdt dev icache disk by_path
    elim found as (λ _. Res (Option Stat × Icache × dev.Disk)) [
      | none ↦ ok (none, icache, disk)
      | some (ic, disk', i) ↦ (do
        e ← load ic.entries i
        ic' ← change_entry sb gdt dev ic i lru_inc
        ok (some (stat_of sb huge cntx_umask by_path e.inode), ic', disk'))
    ]
