-- ===== src/Icache/Flush.antt =====
-- The dirty inodes are written back when the file system goes: the loop of `op_destory`
-- (src/op_destory.c) over `icache_write_back` (src/cache.c).
use native.Mathlib.Decide.{ℕ_discrete}
use mathlib.Core.Path.{subst}
use kfs.Base.{
  ℕ, zero, suc, ◌+◌, ◌≤◌, ◌≡◌, refl, sym, ap, ◌∙◌, List, true, false, ok, arith, ◌≢◌, inl, inr,
  ◌>>=◌, get_elem?-some, Bool-cases, if◌then◌else◌,
}
use kfs.Ext4.Super.{SuperBlock}
use kfs.Ext4.Group.{GroupDesc}
use kfs.Disk.{Device}
use kfs.Inode.{Inode}
use kfs.Inode.Bytes.{InRange}
use kfs.Icache.{
  Icache, IcacheEntry, inval, dirty, is_dirty, read_inode, icache_write_back, write_dirty,
}
use kfs.Icache.Backing.{Backing}
use kfs.Icache.Refines.{At, Refines, entry_unique}

flagged : (e : IcacheEntry) → is_dirty e ≡ true → e.status ≡ dirty
flagged e h = ground arith

unflagged : (e : IcacheEntry) → is_dirty e ≡ false → e.status ≢ dirty
unflagged e h = ground arith

module _ (sb : SuperBlock) (gdt : List GroupDesc) (dev : Device) (Valid : ℕ → Type 0)
    (backing : Backing sb gdt dev Valid) (content : ℕ → Inode) (ic : Icache) where
  -- The disk is current for every inode that no dirty entry from `i` on holds.
  abbrev CurrentFrom : ℕ → dev.Disk → Type 0
  CurrentFrom i disk =
      (m : ℕ)
      → Valid m
      → ((j : ℕ) (e : IcacheEntry) → At ic j e → i ≤ j → e.status ≡ dirty → e.inode_idx ≢ m)
      → read_inode sb gdt dev disk m ≡ ok (content m)

  module _ {disk₀ : dev.Disk} (v : Refines sb gdt dev Valid ic disk₀ content) where
    -- One round, on entry `i`.
    round :
        (i : ℕ) (e : IcacheEntry) (disk : dev.Disk)
        → At ic i e
        → CurrentFrom i disk
        → (disk' : dev.Disk) × ((if is_dirty e
              then icache_write_back sb gdt dev disk e
              else ok disk)
            ≡ ok disk')
          × CurrentFrom (i + 1) disk'
    round i e disk at current = elim (Bool-cases (is_dirty e)) [
      | inr clean ↦ (
        disk,
        rw clean,
        λ m valid_m none_after. current m valid_m (λ j f at_j le is_dirty_f. elim (ℕ_discrete j i) [
          | yes here ↦ absurd (
              unflagged e clean (
                ap (λ (t : IcacheEntry). t.status)
                  (sym (entry_unique ic.entries j i at_j.1 at.1 here))
                ∙ is_dirty_f))
          | no other ↦ none_after j f at_j (omega arith) is_dirty_f
        ]),
      )
      | inl is_set ↦
          let used : e.status ≢ inval = λ unused. cc (flagged e is_set) in
          let known = v.known i e at used in
          let (disk', done, back, rest) =
            backing.write_back disk e known
              (subst InRange (sym (v.current i e at used)) (v.in_range e.inode_idx known)) in
          (
            disk',
            rw is_set done,
            λ m valid_m none_after. elim (ℕ_discrete m e.inode_idx) [
              | yes same ↦ rw same (back ∙ ap ok (v.current i e at used))
              | no ne ↦
                  rest m valid_m ne
                  ∙ current m valid_m (λ j f at_j le is_dirty_f. elim (ℕ_discrete j i) [
                    | yes here ↦ λ same. ne (
                        sym same
                        ∙ ap (λ (t : IcacheEntry). t.inode_idx)
                            (entry_unique ic.entries j i at_j.1 at.1 here))
                    | no other ↦ none_after j f at_j (omega arith) is_dirty_f
                  ])
            ],
          )
    ]

    rounds_lem :
        (rounds i : ℕ) (disk : dev.Disk)
        → i + rounds ≡ ic.count
        → CurrentFrom i disk
        → (disk' : dev.Disk) × (write_dirty sb gdt dev ic rounds i disk ≡ ok disk')
          × CurrentFrom (i + rounds) disk'
    unfolding write_dirty
    rounds_lem zero i disk all current =
        (disk, refl, subst (λ t. CurrentFrom t disk) (omega arith) current)
    rounds_lem (suc rounds) i disk all current =
        let (e, at) = get_elem?-some ic.entries i (omega (arith, v.room, v.bound)) in
        let (disk₁, done, current₁) = round i e disk (omega arith, at) current in
        let (disk', run, current') = rounds_lem rounds (i + 1) disk₁ (omega arith) current₁ in
        (
          disk',
          rw (at, ◌>>=◌, done, ◌>>=◌) run,
          subst (λ t. CurrentFrom t disk') (omega arith) current',
        )

    -- Once the loop of `op_destory` has been over all entries, the disk alone stands for the inodes:
    -- it succeeds, and every valid inode is on the disk as it was in cache and disk together.
    pub write_dirty-flushes :
        (disk' : dev.Disk) × (write_dirty sb gdt dev ic ic.count 0 disk₀ ≡ ok disk')
        × ((m : ℕ) → Valid m → read_inode sb gdt dev disk' m ≡ ok (content m))
    write_dirty-flushes =
        let (disk', run, current) =
          rounds_lem ic.count 0 disk₀ (omega arith) (λ m valid_m none_dirty.
            v.on_disk m valid_m
              (λ j e at is_dirty_e. none_dirty j e at (omega arith) is_dirty_e)) in
        (
          disk',
          run,
          λ m valid_m. current m valid_m (λ j e at le is_dirty_e. absurd (omega (arith, at.0))),
        )
