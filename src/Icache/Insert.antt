-- ===== src/Icache/Insert.antt =====
-- Another inode comes into the cache: `icache_insert` and `icache_lru_replace` of src/cache.c.
use native.Mathlib.Decide.{ℕ_discrete}
use mathlib.Core.Path.{subst}
use kfs.Base.{
  ℕ, ◌+◌, ◌<◌, ◌≡◌, sym, ap, ◌∙◌, List, none, some, true, false, Res, ok, arith, ◌≢◌, ◌⊎◌, inl, inr,
  ◌>>=◌, length, get_elem?, get_elem?-some, set, Bool-cases, ==-true, ==-false, ◌==◌, if◌then◌else◌,
}
use kfs.Ext4.Super.{SuperBlock}
use kfs.Ext4.Group.{GroupDesc}
use kfs.Disk.{Device}
use kfs.Inode.{Inode}
use kfs.Icache.{
  Icache, IcacheEntry, inval, valid, dirty, is_dirty, icache_max_count, int_max, read_inode, fill,
  icache_insert, icache_lru_replace, icache_write_back, invalid, lru, find_victim,
}
use kfs.Inode.Bytes.{InRange}
use kfs.Icache.Backing.{Backing}
use kfs.Icache.Refines.{
  At, Holds, Uncached, entry_unique, NoDirty, Refines, Vacant, fresh, placed, placed-Refines,
  placed-Holds,
}
use kfs.Icache.Replace.{find_victim-least, NoneBelow}

-- There is room for one more inode: a free place, an entry that is not in use, or one whose count
-- has not reached INT_MAX.
abbrev pub HasRoom : Icache → Type 0
HasRoom ic =
    (ic.count < icache_max_count)
    ⊎ ((j : ℕ) × (e : IcacheEntry) × At ic j e × ((e.status ≡ inval) ⊎ (e.lru_count < int_max)))

status_cases : (e : IcacheEntry) → e.status ≢ inval → (e.status ≡ valid) ⊎ (e.status ≡ dirty)
status_cases e used = ground arith

dirty_flag : (e : IcacheEntry) → e.status ≡ dirty → is_dirty e ≡ true
dirty_flag e h = ground arith

clean_flag : (e : IcacheEntry) → e.status ≡ valid → is_dirty e ≡ false
clean_flag e h = ground arith

module _ (sb : SuperBlock) (gdt : List GroupDesc) (dev : Device) (Valid : ℕ → Type 0)
    (backing : Backing sb gdt dev Valid) (content : ℕ → Inode) where
  abbrev pub Table : Icache → dev.Disk → Type 0
  Table ic disk = Refines sb gdt dev Valid ic disk content

  fill_lem :
      (entries : List IcacheEntry) (disk : dev.Disk) (i n : ℕ)
      → i < length entries
      → read_inode sb gdt dev disk n ≡ ok (content n)
      → fill sb gdt dev entries disk i n true ≡ ok (set entries i (fresh n (content n)))
  unfolding fill
  fill_lem entries disk i n lt read =
      let (e, at) = get_elem?-some entries i lt in rw (at, ◌>>=◌, read, ◌>>=◌)

  -- Inode `n` is brought into the cache: the result of a call of `icache_insert`.
  abbrev pub Brings : ℕ → Res (Icache × dev.Disk × ℕ) → Type 0
  Brings n r =
      (ic : Icache) × (disk : dev.Disk) × (i : ℕ) × (r ≡ ok (ic, disk, i))
      × Table ic disk
      × Holds ic i (fresh n (content n)) n

  module _ (ic : Icache) (disk : dev.Disk) (n : ℕ) (v : Table ic disk) (valid_n : Valid n)
      (uncached : Uncached ic n) where
    uncached_read : read_inode sb gdt dev disk n ≡ ok (content n)
    uncached_read =
        v.on_disk n valid_n (λ j e at is_dirty same. uncached j e (at, (λ unused. cc), same))

    -- A free place.
    append_lem : ic.count < icache_max_count → Brings n (icache_insert sb gdt dev ic disk n true)
    unfolding icache_insert
    append_lem free =
        let p : Vacant sb gdt dev Valid ic disk content ic.count n (ic.count + 1) = record {
          below = omega arith;
          within = omega arith;
          grows = omega arith;
          old = λ j h ne. omega arith;
          valid_n = valid_n;
          uncached = uncached;
          others = λ m valid_m clean.
              v.on_disk m valid_m (λ j e at is_dirty. clean j e at (omega (arith, at.0)) is_dirty);
        } in
        (
          placed ic ic.count n (content n) (ic.count + 1),
          disk,
          ic.count,
          rw (
            ==-false ic.count icache_max_count (omega arith),
            fill_lem ic.entries disk ic.count n (omega (arith, v.room)) uncached_read,
          ),
          placed-Refines sb gdt dev Valid ic content ic.count n (ic.count + 1) disk disk v p,
          placed-Holds sb gdt dev Valid ic content ic.count n (ic.count + 1) disk disk v p,
        )

    -- A full cache, in which entry `k` is given up: the disk is `disk'` by then.
    module _ (full : ic.count ≡ icache_max_count) (k : ℕ) (below : k < ic.count) (disk' : dev.Disk)
        (others : (m : ℕ)
          → Valid m
          → NoDirty sb gdt dev Valid ic k m
          → read_inode sb gdt dev disk' m ≡ ok (content m))
        (read : read_inode sb gdt dev disk' n ≡ ok (content n)) where
      in_place : Vacant sb gdt dev Valid ic disk' content k n ic.count
      in_place = record {
        below = below;
        within = v.bound;
        grows = omega arith;
        old = λ j h ne. h;
        valid_n = valid_n;
        uncached = uncached;
        others = others;
      }

      replaced :
          (fill sb gdt dev ic.entries disk' k n true ≡ ok (set ic.entries k (fresh n (content n))))
          × Table (placed ic k n (content n) ic.count) disk'
          × Holds (placed ic k n (content n) ic.count) k (fresh n (content n)) n
      replaced = (
        fill_lem ic.entries disk' k n (omega (arith, v.room)) read,
        placed-Refines sb gdt dev Valid ic content k n ic.count disk disk' v in_place,
        placed-Holds sb gdt dev Valid ic content k n ic.count disk disk' v in_place,
      )

    -- Giving up an entry that is not in use leaves the disk current.
    unused_clean :
        (k : ℕ) (e : IcacheEntry)
        → get_elem? ic.entries k ≡ some e
        → e.status ≢ dirty
        → (m : ℕ) → Valid m
        → NoDirty sb gdt dev Valid ic k m
        → read_inode sb gdt dev disk m ≡ ok (content m)
    unused_clean k e at_k not_dirty m valid_m clean = v.on_disk m valid_m (λ j f at is_dirty.
        elim (ℕ_discrete j k) [
          | yes here ↦ absurd (
              not_dirty (
                ap (λ (t : IcacheEntry). t.status)
                  (sym (entry_unique ic.entries j k at.1 at_k here))
                ∙ is_dirty))
          | no other ↦ clean j f at other is_dirty
        ])

    -- A dirty entry is written back first.
    written_clean :
        (k : ℕ) (e : IcacheEntry)
        → At ic k e
        → e.status ≡ dirty
        → (disk' : dev.Disk) → read_inode sb gdt dev disk' e.inode_idx ≡ ok e.inode
        → ((m : ℕ)
            → Valid m
            → m ≢ e.inode_idx
            → read_inode sb gdt dev disk' m ≡ read_inode sb gdt dev disk m)
        → (m : ℕ) → Valid m
        → NoDirty sb gdt dev Valid ic k m
        → read_inode sb gdt dev disk' m ≡ ok (content m)
    written_clean k e at_k is_dirty disk' back rest m valid_m clean =
        elim (ℕ_discrete m e.inode_idx) [
          | yes same ↦ rw same (back ∙ ap ok (v.current k e at_k (λ unused. cc)))
          | no other ↦
              rest m valid_m other
              ∙ v.on_disk m valid_m (λ j f at is_dirty_f. elim (ℕ_discrete j k) [
                | yes here ↦ λ same. other (
                    sym same
                    ∙ ap (λ (t : IcacheEntry). t.inode_idx)
                        (entry_unique ic.entries j k at.1 at_k.1 here))
                | no other_slot ↦ clean j f at other_slot is_dirty_f
              ])
        ]

    replace_run :
        (k : ℕ) (e : IcacheEntry) (disk' : dev.Disk) (entries : List IcacheEntry)
        → find_victim ic.entries ic.count 0 none int_max ≡ ok (lru (some k))
        → get_elem? ic.entries k ≡ some e
        → (if is_dirty e then icache_write_back sb gdt dev disk e else ok disk) ≡ ok disk'
        → fill sb gdt dev ic.entries disk' k n true ≡ ok entries
        → icache_lru_replace sb gdt dev ic disk n true
          ≡ ok (record ic { entries = entries }, disk', k)
    unfolding icache_lru_replace
    replace_run k e disk' entries run at first filled =
        rw (run, ◌>>=◌, at, ◌>>=◌, first, ◌>>=◌, filled)

    -- An entry that is in use, dirty or not.
    replace_used :
        ic.count ≡ icache_max_count
        → (k : ℕ) (e : IcacheEntry)
        → find_victim ic.entries ic.count 0 none int_max ≡ ok (lru (some k))
        → At ic k e
        → e.status ≢ inval
        → Brings n (icache_lru_replace sb gdt dev ic disk n true)
    replace_used full k e run at used = elim (status_cases e used) [
      | inl clean_entry ↦
          let (filled, table, held) =
            replaced full k at.0 disk (unused_clean k e at.1 (λ is_dirty. cc)) uncached_read in
          (
            placed ic k n (content n) ic.count,
            disk,
            k,
            replace_run k e disk _ run at.1 (rw (clean_flag e clean_entry)) filled,
            table,
            held,
          )
      | inr dirty_entry ↦
          let (disk', done, back, rest) = backing.write_back disk e (v.known k e at used) (
            subst InRange (sym (v.current k e at used))
              (v.in_range e.inode_idx (v.known k e at used))) in
          let clean = written_clean k e at dirty_entry disk' back rest in
          let apart = λ (same : n ≡ e.inode_idx). uncached k e (at, used, sym same) in
          let (filled, table, held) =
            replaced full k at.0 disk' clean (rest n valid_n apart ∙ uncached_read) in
          (
            placed ic k n (content n) ic.count,
            disk',
            k,
            replace_run k e disk' _ run at.1 (rw (dirty_flag e dirty_entry) done) filled,
            table,
            held,
          )
    ]

    replace_unused :
        ic.count ≡ icache_max_count
        → (k : ℕ) (e : IcacheEntry)
        → find_victim ic.entries ic.count 0 none int_max ≡ ok (invalid k)
        → At ic k e
        → e.status ≡ inval
        → Brings n (icache_lru_replace sb gdt dev ic disk n true)
    unfolding icache_lru_replace
    replace_unused full k e run at unused =
        let (filled, table, held) =
          replaced full k at.0 disk (unused_clean k e at.1 (λ is_dirty. cc)) uncached_read in
        (placed ic k n (content n) ic.count, disk, k, rw (run, ◌>>=◌, filled), table, held)

    full_insert :
        ic.count ≡ icache_max_count
        → icache_insert sb gdt dev ic disk n true ≡ icache_lru_replace sb gdt dev ic disk n true
    unfolding icache_insert
    full_insert full = rw (==-true ic.count icache_max_count full)

    no_room : ic.count ≡ icache_max_count → NoneBelow ic.entries ic.count int_max → HasRoom ic → ⊥
    no_room full high (inl free) = omega arith
    no_room full high (inr (j, e, at, inl unused)) = (high j e at.0 at.1).0 unused
    no_room full high (inr (j, e, at, inr low)) = omega (arith, (high j e at.0 at.1).1)

    -- With room for one more inode, `icache_insert` reads it into the cache, and the table stays.
    pub insert_lem : HasRoom ic → Brings n (icache_insert sb gdt dev ic disk n true)
    insert_lem has_room = elim (Bool-cases (ic.count == icache_max_count)) [
      | inr more ↦ append_lem (ground (arith, v.bound))
      | inl equal ↦
          let full : ic.count ≡ icache_max_count = ground arith in
          rw (full_insert full)
            (elim (find_victim-least ic.entries ic.count (omega (arith, v.room))) [
              | inl (k, e, run, below, at, unused) ↦ replace_unused full k e run (below, at) unused
              | inr (inl (k, e, run, below, at, least, _)) ↦
                  replace_used full k e run (below, at) (least k e below at).0
              | inr (inr (run, high)) ↦ absurd (no_room full high has_room)
            ])
    ]
