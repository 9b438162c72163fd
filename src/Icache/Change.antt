-- ===== src/Icache/Change.antt =====
-- A cached inode changes through a pointer to its entry (the macros of src/cache.h, and every
-- assignment to a field of a cached inode).
use native.Mathlib.Decide.{ℕ_discrete}
use mathlib.Core.Path.{subst}
use kfs.Base.{
  ℕ, ◌≡◌, sym, ap, ◌∙◌, List, ok, arith, ◌≢◌, ◌⊎◌, inl, inr, length-set, get_elem?-set_self,
  get_elem?-set_ne, set,
}
use kfs.Ext4.Super.{SuperBlock}
use kfs.Ext4.Group.{GroupDesc}
use kfs.Disk.{Device}
use kfs.Inode.{Inode}
use kfs.Inode.Bytes.{InRange}
use kfs.Icache.{Icache, IcacheEntry, inval, dirty, read_inode}
use kfs.Icache.Refines.{At, Refines, At-set, entry_unique}

-- Entry `e` becomes `e'`, of the same inode: the inodes go from `content` to `content'`. Either the
-- entry is dirty then, or inode and status stay.
pub record Changes (e e' : IcacheEntry) (content content' : ℕ → Inode) : Type 0 where
  pub used : e.status ≢ inval
  pub used' : e'.status ≢ inval
  pub same_idx : e'.inode_idx ≡ e.inode_idx
  pub becomes : e'.inode ≡ content' e.inode_idx
  pub others : (m : ℕ) → m ≢ e.inode_idx → content' m ≡ content m
  pub in_range : InRange (content' e.inode_idx)
  pub marked :
      (e'.status ≡ dirty) ⊎ ((e'.status ≡ e.status) × (content' e.inode_idx ≡ content e.inode_idx))

module _ (sb : SuperBlock) (gdt : List GroupDesc) (dev : Device) (Valid : ℕ → Type 0)
    (content content' : ℕ → Inode) (ic : Icache) (disk : dev.Disk) (i : ℕ) (e e' : IcacheEntry)
    (v : Refines sb gdt dev Valid ic disk content) (at : At ic i e)
    (c : Changes e e' content content') where
  pub here_changed : At (record ic { entries = set ic.entries i e' }) i e'
  here_changed = (at.0, get_elem?-set_self ic.entries i e' (omega (arith, v.room, v.bound, at.0)))

  kept :
      (j : ℕ) (f : IcacheEntry)
      → j ≢ i
      → At ic j f
      → At (record ic { entries = set ic.entries i e' }) j f
  kept j f ne (below, found) =
      (below, get_elem?-set_ne ic.entries i j e' (λ same. ne (sym same)) ∙ found)

  split :
      (j : ℕ) (f : IcacheEntry)
      → At (record ic { entries = set ic.entries i e' }) j f
      → ((j ≡ i) × (f ≡ e')) ⊎ ((j ≢ i) × At ic j f)
  split = At-set ic i e' ic.count (omega (arith, v.room, v.bound, at.0)) (λ j h ne. h)

  -- Another entry in use is of another inode.
  elsewhere :
      (j : ℕ) (f : IcacheEntry) → j ≢ i → At ic j f → f.status ≢ inval → f.inode_idx ≢ e.inode_idx
  elsewhere j f ne at_j used same = ne (v.distinct j i f e at_j at used c.used same)

  current_after :
      (j : ℕ) (f : IcacheEntry)
      → At (record ic { entries = set ic.entries i e' }) j f
      → f.status ≢ inval
      → f.inode ≡ content' f.inode_idx
  current_after j f at_j used = elim (split j f at_j) [
    | inl (here, new) ↦
        subst (λ (t : IcacheEntry). t.inode ≡ content' t.inode_idx) (sym new)
          (c.becomes ∙ ap content' (sym c.same_idx))
    | inr (ne, before) ↦
        v.current j f before used ∙ sym (c.others f.inode_idx (elsewhere j f ne before used))
  ]

  distinct_after :
      (j k : ℕ) (f g : IcacheEntry)
      → At (record ic { entries = set ic.entries i e' }) j f
      → At (record ic { entries = set ic.entries i e' }) k g
      → f.status ≢ inval
      → g.status ≢ inval
      → f.inode_idx ≡ g.inode_idx
      → j ≡ k
  distinct_after j k f g at_j at_k used_f used_g same = elim (split j f at_j) [
    | inl (here, new) ↦ elim (split k g at_k) [
      | inl (here', new') ↦ here ∙ sym here'
      | inr (ne, before) ↦ absurd (
          elsewhere k g ne before used_g
            (sym same ∙ ap (λ (t : IcacheEntry). t.inode_idx) new ∙ c.same_idx))
    ]
    | inr (ne, before) ↦ elim (split k g at_k) [
      | inl (here', new') ↦ absurd (
          elsewhere j f ne before used_f
            (same ∙ ap (λ (t : IcacheEntry). t.inode_idx) new' ∙ c.same_idx))
      | inr (ne', before') ↦ v.distinct j k f g before before' used_f used_g same
    ]
  ]

  on_disk_after :
      (m : ℕ)
      → Valid m
      → ((j : ℕ) (f : IcacheEntry)
          → At (record ic { entries = set ic.entries i e' }) j f
          → f.status ≡ dirty
          → f.inode_idx ≢ m)
      → read_inode sb gdt dev disk m ≡ ok (content' m)
  on_disk_after m valid_m clean = elim (ℕ_discrete m e.inode_idx) [
    | no other ↦
        v.on_disk m valid_m (λ j f at_j is_dirty same. elim (ℕ_discrete j i) [
          | yes here ↦ other (
              sym same
              ∙ ap (λ (t : IcacheEntry). t.inode_idx)
                  (entry_unique ic.entries j i at_j.1 at.1 here))
          | no ne ↦ clean j f (kept j f ne at_j) is_dirty same
        ])
        ∙ ap ok (sym (c.others m other))
    | yes same ↦ elim c.marked [
      | inl is_dirty ↦ absurd (clean i e' here_changed is_dirty (c.same_idx ∙ sym same))
      | inr (status, stays) ↦
          v.on_disk m valid_m (λ j f at_j is_dirty same_f. elim (ℕ_discrete j i) [
            | yes here ↦
                clean i e' here_changed
                  (status
                    ∙ ap (λ (t : IcacheEntry). t.status)
                        (sym (entry_unique ic.entries j i at_j.1 at.1 here))
                    ∙ is_dirty)
                  (c.same_idx ∙ sym same)
            | no ne ↦ clean j f (kept j f ne at_j) is_dirty same_f
          ])
          ∙ ap ok (ap content same ∙ sym stays ∙ ap content' (sym same))
    ]
  ]

  pub changed-Refines :
      Refines sb gdt dev Valid (record ic { entries = set ic.entries i e' }) disk content'
  changed-Refines = record {
    room = length-set ic.entries i e' ∙ v.room;
    bound = v.bound;
    known = λ j f at_j used. elim (split j f at_j) [
      | inl (here, new) ↦
          subst (λ (t : IcacheEntry). Valid t.inode_idx) (sym new)
            (subst Valid (sym c.same_idx) (v.known i e at c.used))
      | inr (ne, before) ↦ v.known j f before used
    ];
    current = current_after;
    distinct = distinct_after;
    in_range = λ m valid_m. elim (ℕ_discrete m e.inode_idx) [
      | yes same ↦ rw same c.in_range
      | no other ↦ rw (c.others m other) (v.in_range m valid_m)
    ];
    on_disk = on_disk_after;
  }
