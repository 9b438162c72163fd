-- ===== src/Attr/Checked.antt =====
-- The operations on attributes against the inodes that cache and disk stand for: what is permitted
-- happens, and nothing else changes (src/op_chmod.c, src/op_chown.c, src/op_utimens.c,
-- src/op_access.c).
use kfs.Base.{
  ℕ, ◌^◌, ◌<◌, ◌≡◌, ◌≢◌, refl, ap, List, Option, none, some, Bool, true, false, ok, arith, inl, inr,
  ◌>>=◌, ◌==◌, ◌/◌, ◌%◌, bit_and, bit_and-mask, mask_16, ◌&&◌, leb, if◌then◌else◌, Bool-cases,
}
use mathlib.Core.Path.{fun_ext}
use kfs.Ext4.Super.{SuperBlock}
use kfs.Ext4.Group.{GroupDesc}
use kfs.Disk.{Device}
use kfs.Inode.{set_uid, set_gid, Inode, write, rdwr, check_permission}
use kfs.Icache.{Icache}
use kfs.Icache.Backing.{Backing}
use kfs.Icache.Insert.{Table, HasRoom}
use kfs.Icache.Get.{get_by_number-transparent}
use kfs.Attr.{
  eacces, eperm, number_of, with_mode, with_owner, with_times, op_chmod, op_chown, op_utimens,
  op_access, mask_allows,
}
use kfs.Attr.Edit.{update, edit_lem, with_mode-InRange, with_owner-InRange, with_times-InRange}

module _ (sb : SuperBlock) (gdt : List GroupDesc) (dev : Device) (Valid : ℕ → Type 0)
    (backing : Backing sb gdt dev Valid) (content : ℕ → Inode) (ic : Icache) (disk : dev.Disk)
    (n : ℕ) (v : Table sb gdt dev Valid backing content ic disk) (room : HasRoom ic)
    (valid_n : Valid n) (nonzero : n ≢ 0) (cntx : Option (ℕ × ℕ)) (fh by_path : ℕ)
    (number : number_of fh by_path ≡ n) where
  -- `op_chmod` of a valid inode: who may read and write it changes the mode in it, to the low 16 bits, and
  -- no other inode; anybody else gets -EACCES, and no inode changes.
  pub op_chmod-checked :
      (mode : ℕ)
      → let allowed = check_permission (content n) cntx rdwr in
        (ic' : Icache) × (disk' : dev.Disk) × (op_chmod sb gdt dev ic disk cntx fh by_path mode
          ≡ ok ((if allowed then none else some eacces), ic', disk'))
        × Table sb gdt dev Valid backing
            (if allowed
              then update content n (λ inode. record inode { i_mode = mode % 2 ^ 16 })
              else content)
            ic'
            disk'
  unfolding op_chmod with_mode
  op_chmod-checked mode =
      let (ic₁, disk₁, i, got, v₁, (e, held, current)) =
        get_by_number-transparent sb gdt dev Valid backing content ic disk n v room valid_n
          nonzero in
      let (ic₂, done, v₂) =
        edit_lem sb gdt dev Valid backing content ic₁ disk₁ i n e (with_mode mode) v₁ held
          (with_mode-InRange mode) in
      let same : check_permission e.inode cntx rdwr ≡ check_permission (content n) cntx rdwr =
        ap (λ t. check_permission t cntx rdwr) current in
      elim (Bool-cases (check_permission (content n) cntx rdwr)) [
        | inl y ↦
            (ic₂, disk₁, rw (number, got, ◌>>=◌, held.0.1, ◌>>=◌, same, y, done) refl, rw y v₂)
        | inr x ↦ (ic₁, disk₁, rw (number, got, ◌>>=◌, held.0.1, ◌>>=◌, same, x) refl, rw x v₁)
      ]

  -- `op_utimens` of a valid inode: who may write it sets its times of access and change, now where the
  -- given time is 0, and no other inode changes; anybody else gets -EPERM, and no inode changes.
  pub op_utimens-checked :
      (now asec msec : ℕ)
      → let allowed = check_permission (content n) cntx write in
        (ic' : Icache) × (disk' : dev.Disk) × (op_utimens sb gdt dev ic disk cntx fh by_path now
            asec msec
          ≡ ok ((if allowed then none else some eperm), ic', disk'))
        × Table sb gdt dev Valid backing
            (if allowed
              then update content n (λ inode. record inode {
                i_atime = (if asec == 0 then now else asec) % 2 ^ 32;
                i_mtime = (if msec == 0 then now else msec) % 2 ^ 32;
              })
              else content)
            ic'
            disk'
  unfolding op_utimens with_times
  op_utimens-checked now asec msec =
      let (ic₁, disk₁, i, got, v₁, (e, held, current)) =
        get_by_number-transparent sb gdt dev Valid backing content ic disk n v room valid_n
          nonzero in
      let (ic₂, done, v₂) =
        edit_lem sb gdt dev Valid backing content ic₁ disk₁ i n e (with_times now asec msec) v₁ held
          (with_times-InRange now asec msec) in
      let same : check_permission e.inode cntx write ≡ check_permission (content n) cntx write =
        ap (λ t. check_permission t cntx write) current in
      elim (Bool-cases (check_permission (content n) cntx write)) [
        | inl y ↦
            (ic₂, disk₁, rw (number, got, ◌>>=◌, held.0.1, ◌>>=◌, same, y, done) refl, rw y v₂)
        | inr x ↦ (ic₁, disk₁, rw (number, got, ◌>>=◌, held.0.1, ◌>>=◌, same, x) refl, rw x v₁)
      ]

  -- The numbers of the owner and of the group, each in two halves; the mode is kept.
  abbrev pub owned_by : (uid gid : ℕ) → Inode → Inode
  owned_by uid gid inode = record inode {
    i_uid = uid % 2 ^ 16;
    l_i_uid_high = uid / 2 ^ 16;
    i_gid = gid % 2 ^ 16;
    l_i_gid_high = gid / 2 ^ 16;
  }

  with_owner-owned_by :
      (uid gid : ℕ) → uid < 2 ^ 31 → gid < 2 ^ 31 → with_owner uid gid ≡ owned_by uid gid
  unfolding with_owner set_uid set_gid
  with_owner-owned_by uid gid h k =
      let high : (x : ℕ) → x < 2 ^ 31 → bit_and (x / 2 ^ 16) mask_16 ≡ x / 2 ^ 16 =
        λ x lt. omega (arith, bit_and-mask 16 (x / 2 ^ 16)) in
      fun_ext (λ inode. rw (bit_and-mask 16 uid, bit_and-mask 16 gid, high uid h, high gid k) refl)

  -- The owner that `op_chown` asks for is taken for the present one by the low halves of the numbers.
  abbrev pub looks_owned : (uid gid : ℕ) → Bool
  looks_owned uid gid = let inode = content n in uid == inode.i_uid && gid == inode.i_gid

  -- `op_chown`, where FUSE_CAP_HANDLE_KILLPRIV is there, of a valid inode to numbers below 2 ^ 31:
  -- who may not write it gets -EACCES, and no inode changes; for anybody else, root or not, it
  -- succeeds, and sets the numbers of the owner and the group and nothing else, so the setuid and setgid
  -- bits of the mode stay. Where the low halves of the present owner's numbers are already the numbers
  -- asked for, no inode changes, whatever the high halves are.
  pub op_chown-checked :
      (uid gid : ℕ)
      → uid < 2 ^ 31
      → gid < 2 ^ 31
      → let allowed = check_permission (content n) cntx write in
        (ic' : Icache) × (disk' : dev.Disk) × (op_chown sb gdt dev ic disk cntx true fh by_path uid
            gid
          ≡ ok ((if allowed then none else some eacces), ic', disk'))
        × Table sb gdt dev Valid backing
            (if allowed
              then (if looks_owned uid gid then content else update content n (owned_by uid gid))
              else content)
            ic'
            disk'
  unfolding op_chown
  op_chown-checked uid gid uid_small gid_small =
      let (ic₁, disk₁, i, got, v₁, (e, held, current)) =
        get_by_number-transparent sb gdt dev Valid backing content ic disk n v room valid_n
          nonzero in
      let (ic₂, done, v₂) =
        edit_lem sb gdt dev Valid backing content ic₁ disk₁ i n e (with_owner uid gid) v₁ held
          (with_owner-InRange uid gid) in
      let same : check_permission e.inode cntx write ≡ check_permission (content n) cntx write =
        ap (λ t. check_permission t cntx write) current in
      let owned : (uid == e.inode.i_uid && gid == e.inode.i_gid) ≡ looks_owned uid gid =
        ap (λ (t : Inode). uid == t.i_uid && gid == t.i_gid) current in
      let g : leb (2 ^ 31) gid ≡ false = ground arith in
      let u : leb (2 ^ 31) uid ≡ false = ground arith in
      elim (Bool-cases (check_permission (content n) cntx write)) [
        | inr x ↦ (
          ic₁,
          disk₁,
          rw (op_chown, g, u, number, got, ◌>>=◌, held.0.1, ◌>>=◌, same, x) refl,
          rw x v₁,
        )
        | inl y ↦ elim (Bool-cases (looks_owned uid gid)) [
          | inl o ↦ (
            ic₁,
            disk₁,
            rw (op_chown, g, u, number, got, ◌>>=◌, held.0.1, ◌>>=◌, same, y, owned, o) refl,
            rw (y, o) v₁,
          )
          | inr o ↦ (
            ic₂,
            disk₁,
            rw (op_chown, g, u, number, got, ◌>>=◌, held.0.1, ◌>>=◌, same, y, owned, o, done) refl,
            rw (y, o, ← with_owner-owned_by uid gid uid_small gid_small) v₂,
          )
        ]
      ]

  -- `op_access` of a valid inode answers by the permissions of its current content alone, -EACCES
  -- where one of the asked ones is missing, and no inode changes.
  pub op_access-checked :
      (mask : ℕ)
      → (ic' : Icache) × (disk' : dev.Disk) × (op_access sb gdt dev ic disk cntx n mask
          ≡ ok ((if mask_allows (content n) cntx mask then none else some eacces), ic', disk'))
        × Table sb gdt dev Valid backing content ic' disk'
  unfolding op_access
  op_access-checked mask =
      let (ic₁, disk₁, i, got, v₁, (e, held, current)) =
        get_by_number-transparent sb gdt dev Valid backing content ic disk n v room valid_n
          nonzero in
      (ic₁, disk₁, rw (got, ◌>>=◌, held.0.1, ◌>>=◌, current) refl, v₁)
