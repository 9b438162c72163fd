-- ===== src/Icache/Get.antt =====
-- `inode_get_by_number` (src/inode.c): the cache is transparent.
use kfs.Base.{ℕ, ◌≡◌, refl, ap, ◌∙◌, List, some, ok, arith, ◌≢◌, inl, inr, ◌>>=◌, set, ==-false}
use kfs.Ext4.Super.{SuperBlock}
use kfs.Ext4.Group.{GroupDesc}
use kfs.Disk.{Device}
use kfs.Inode.{Inode}
use kfs.Icache.{Icache, IcacheEntry, get_by_number, lru_inc, change_entry}
use kfs.Icache.Backing.{Backing}
use kfs.Icache.Refines.{Holds, fresh}
use kfs.Icache.Find.{icache_find_lem}
use kfs.Icache.Insert.{HasRoom, insert_lem, Table}
use kfs.Icache.Change.{Changes, changed-Refines, here_changed}

module _ (sb : SuperBlock) (gdt : List GroupDesc) (dev : Device) (Valid : ℕ → Type 0)
    (backing : Backing sb gdt dev Valid) (content : ℕ → Inode) where
  -- Entry `i` is in use for inode `n`, and has the current inode.
  abbrev pub Serves : Icache → ℕ → ℕ → Type 0
  Serves ic i n = (e : IcacheEntry) × Holds ic i e n × (e.inode ≡ content n)

  -- The count of a cached inode goes up, and nothing else of the table changes.
  touch :
      (ic : Icache) (disk : dev.Disk) (i n : ℕ) (e : IcacheEntry)
      → Table sb gdt dev Valid backing content ic disk
      → Holds ic i e n
      → (ic' : Icache) × (change_entry sb gdt dev ic i lru_inc ≡ ok ic')
        × Table sb gdt dev Valid backing content ic' disk
        × Serves ic' i n
  unfolding lru_inc
  touch ic disk i n e v (at, used, same) =
      let c : Changes e (lru_inc e) content content = record {
        used = used;
        used' = used;
        same_idx = refl;
        becomes = v.current i e at used;
        others = λ m ne. refl;
        in_range = v.in_range e.inode_idx (v.known i e at used);
        marked = inr (refl, refl);
      } in
      (
        record ic { entries = set ic.entries i (lru_inc e) },
        rw (at.1, ◌>>=◌),
        changed-Refines sb gdt dev Valid content content ic disk i e (lru_inc e) v at c,
        (
          lru_inc e,
          (
            here_changed sb gdt dev Valid content content ic disk i e (lru_inc e) v at c,
            used,
            same,
          ),
          v.current i e at used ∙ ap content same,
        ),
      )

  -- On a cache and a disk that stand for the inodes `content`, with room for one more inode:
  -- `inode_get_by_number` of a valid number succeeds with an entry that is in use for that inode and
  -- holds its current content, whether it was cached or not and whatever entry had to be given up;
  -- and cache and disk stand for the same inodes afterwards. Number 0 is -ENOENT.
  pub get_by_number-transparent :
      (ic : Icache) (disk : dev.Disk) (n : ℕ)
      → Table sb gdt dev Valid backing content ic disk
      → HasRoom ic
      → Valid n
      → n ≢ 0
      → (ic' : Icache) × (disk' : dev.Disk) × (i : ℕ) × (get_by_number sb gdt dev ic disk n
          ≡ ok (some (ic', disk', i)))
        × Table sb gdt dev Valid backing content ic' disk'
        × Serves ic' i n
  unfolding get_by_number
  get_by_number-transparent ic disk n v has_room valid_n nonzero =
      elim (icache_find_lem ic n (omega (arith, v.room, v.bound))) [
        | inr (i, e, found, held) ↦
            let (ic', done, v', serves) = touch ic disk i n e v held in
            (ic', disk, i, rw (==-false n 0 nonzero, found, ◌>>=◌, ◌>>=◌) (rw done), v', serves)
        | inl (found, uncached) ↦
            let (ic₁, disk₁, i, run, v₁, held) =
              insert_lem sb gdt dev Valid backing content ic disk n v valid_n uncached has_room in
            let (ic', done, v', serves) = touch ic₁ disk₁ i n (fresh n (content n)) v₁ held in
            (
              ic',
              disk₁,
              i,
              rw (==-false n 0 nonzero, found, ◌>>=◌, run, ◌>>=◌) (rw done),
              v',
              serves,
            )
      ]
