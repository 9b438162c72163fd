-- ===== src/Tests/Attrs.antt =====
-- The operations on attributes on a cache of one dirty inode over a device in memory.
use kfs.Base.{◌/◌, ◌%◌, ◌^◌, ◌≡◌, refl, none, some, true, ok, arith, inl, inr, if◌then◌else◌}
use kfs.Inode.{rdwr, write, check_permission}
use kfs.Icache.{Icache}
use kfs.Icache.Refines.{Refines}
use kfs.Attr.{eacces, eperm, op_utimens, op_chmod, op_chown}
use kfs.Attr.Edit.{update}
use kfs.Attr.Checked.{op_chmod-checked, op_chown-checked, op_utimens-checked}
use kfs.Tests.Memory.{Mem}
use kfs.Tests.Inodes.{disk}
use kfs.Tests.Icaches.{dev, groups, Numbered, cache, mem, content, backing, cache-Refines}

op_chmod-checked_example :
    let allowed = check_permission (content 2) none rdwr in
    (ic' : Icache) × (mem' : Mem) × (op_chmod disk groups dev cache mem none 2 0 0x81A4
      ≡ ok ((if allowed then none else some eacces), ic', mem'))
    × Refines disk groups dev Numbered ic' mem' (
        if allowed
        then update content 2 (λ inode. record inode { i_mode = 0x81A4 % 2 ^ 16 })
        else content)
op_chmod-checked_example =
    op_chmod-checked disk groups dev Numbered backing content cache mem 2 cache-Refines
      (inl (omega arith)) (inr refl) (omega arith) none 2 0 refl 0x81A4

op_chown-checked_example :
    let allowed = check_permission (content 2) none write in
    (ic' : Icache) × (mem' : Mem) × (op_chown disk groups dev cache mem none true 2 0 1001 100
      ≡ ok ((if allowed then none else some eacces), ic', mem'))
    × Refines disk groups dev Numbered ic' mem' (
        if allowed
        then update content 2 (λ inode. record inode {
          i_uid = 1001 % 2 ^ 16;
          l_i_uid_high = 1001 / 2 ^ 16;
          i_gid = 100 % 2 ^ 16;
          l_i_gid_high = 100 / 2 ^ 16;
        })
        else content)
op_chown-checked_example =
    op_chown-checked disk groups dev Numbered backing content cache mem 2 cache-Refines
      (inl (omega arith)) (inr refl) (omega arith) none 2 0 refl 1001 100 (omega arith)
      (omega arith)

op_utimens-checked_example :
    let allowed = check_permission (content 2) none write in
    (ic' : Icache) × (mem' : Mem) × (op_utimens disk groups dev cache mem none 2 0 7 0 5
      ≡ ok ((if allowed then none else some eperm), ic', mem'))
    × Refines disk groups dev Numbered ic' mem' (
        if allowed
        then update content 2 (λ inode. record inode { i_atime = 7; i_mtime = 5 })
        else content)
op_utimens-checked_example =
    op_utimens-checked disk groups dev Numbered backing content cache mem 2 cache-Refines
      (inl (omega arith)) (inr refl) (omega arith) none 2 0 refl 7 0 5
