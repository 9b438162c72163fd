-- ===== src/Attr/Edit.antt =====
-- A change of a cached inode as the operations on attributes make it (src/op_chmod.c, src/op_chown.c,
-- src/op_utimens.c), and the fields' ranges.
use mathlib.Core.Path.{subst}
use kfs.Base.{
  ℕ, ◌≡◌, ◌≢◌, refl, sym, ap, ◌∙◌, List, ok, arith, inl, ◌>>=◌, set, ◌==◌, ==-true, ==-false,
  if◌then◌else◌, bit_and-mask, ◌>>>◌,
}
use kfs.Ext4.Super.{SuperBlock}
use kfs.Ext4.Group.{GroupDesc}
use kfs.Disk.{Device}
use kfs.Inode.{Inode, set_uid, set_gid}
use kfs.Inode.Bytes.{InRange}
use kfs.Icache.{Icache, IcacheEntry, change_entry}
use kfs.Icache.Backing.{Backing}
use kfs.Icache.Refines.{Holds}
use kfs.Icache.Insert.{Table}
use kfs.Icache.Change.{Changes, changed-Refines}
use kfs.Attr.{edit, with_mode, with_owner, with_times}

-- The inodes, with that of number `n` changed.
abbrev pub update : (ℕ → Inode) → ℕ → (Inode → Inode) → ℕ → Inode
update content n g m = if m == n then g (content m) else content m

pub update-here :
    (content : ℕ → Inode) (n : ℕ) (g : Inode → Inode) → update content n g n ≡ g (content n)
update-here content n g = rw (==-true n n refl) refl

pub update-elsewhere :
    (content : ℕ → Inode) (n m : ℕ) (g : Inode → Inode) → m ≢ n → update content n g m ≡ content m
update-elsewhere content n m g ne = rw (==-false m n ne) refl

-- An assignment that keeps the fields in their ranges.
abbrev pub Keeps : (Inode → Inode) → Type 0
Keeps g = (inode : Inode) → InRange inode → InRange (g inode)

pub with_mode-InRange : (mode : ℕ) → Keeps (with_mode mode)
unfolding with_mode
with_mode-InRange mode inode v = ground (arith, v)

pub with_times-InRange : (now asec msec : ℕ) → Keeps (with_times now asec msec)
unfolding with_times
with_times-InRange now asec msec inode v = ground (arith, v)

pub with_owner-InRange : (uid gid : ℕ) → Keeps (with_owner uid gid)
unfolding with_owner set_uid set_gid
with_owner-InRange uid gid inode v = ground (
  arith,
  v,
  bit_and-mask 16 uid,
  bit_and-mask 16 (uid >>> 16),
  bit_and-mask 16 gid,
  bit_and-mask 16 (gid >>> 16),
)

module _ (sb : SuperBlock) (gdt : List GroupDesc) (dev : Device) (Valid : ℕ → Type 0)
    (backing : Backing sb gdt dev Valid) (content : ℕ → Inode) where
  -- The change succeeds, and cache and disk stand for the changed inodes.
  pub edit_lem :
      (ic : Icache) (disk : dev.Disk) (i n : ℕ) (e : IcacheEntry) (g : Inode → Inode)
      → Table sb gdt dev Valid backing content ic disk
      → Holds ic i e n
      → Keeps g
      → (ic' : Icache) × (change_entry sb gdt dev ic i (edit g) ≡ ok ic')
        × Table sb gdt dev Valid backing (update content n g) ic' disk
  edit_lem ic disk i n e g v (at, used, same) keeps =
      let content' = update content n g in
      let here : content' e.inode_idx ≡ g (content e.inode_idx) =
        rw same (update-here content n g) in
      let current = v.current i e at used in
      let c : Changes e (edit g e) content content' = record {
        used = used;
        used' = λ z. cc;
        same_idx = refl;
        becomes = ap g current ∙ sym here;
        others = λ m ne. update-elsewhere content n m g (λ z. ne (z ∙ sym same));
        in_range =
            subst InRange (sym here)
              (keeps (content e.inode_idx) (v.in_range e.inode_idx (v.known i e at used)));
        marked = inl refl;
      } in
      (
        record ic { entries = set ic.entries i (edit g e) },
        rw (at.1, ◌>>=◌) refl,
        changed-Refines sb gdt dev Valid content content' ic disk i e (edit g e) v at c,
      )
