-- ===== src/Icache/Refines.antt =====
-- The inode cache and the disk together as one table of inodes (src/cache.c): what holds of them
-- between operations, and that it survives when an entry is given to another inode.
use native.Mathlib.Decide.{ℕ_discrete}
use mathlib.Core.Path.{subst}
use kfs.Base.{
  ℕ, ◌<◌, ◌≤◌, ◌≡◌, refl, sym, ap, ◌∙◌, List, none, some, ok, arith, ◌≢◌, ◌⊎◌, inl, inr, length,
  length-set, get_elem?, get_elem?-set_self, get_elem?-set_ne, set,
}
use kfs.Ext4.Super.{SuperBlock}
use kfs.Ext4.Group.{GroupDesc}
use kfs.Disk.{Device}
use kfs.Inode.{Inode}
use kfs.Inode.Bytes.{InRange}
use kfs.Icache.{Icache, IcacheEntry, inval, valid, dirty, icache_max_count, read_inode}

-- Entry `i` of the cache is `e`.
abbrev pub At : Icache → ℕ → IcacheEntry → Type 0
At ic i e = (i < ic.count) × (get_elem? ic.entries i ≡ some e)

-- Entry `i` is in use, for inode `n`.
abbrev pub Holds : Icache → ℕ → IcacheEntry → ℕ → Type 0
Holds ic i e n = At ic i e × (e.status ≢ inval) × (e.inode_idx ≡ n)

abbrev pub Uncached : Icache → ℕ → Type 0
Uncached ic n = (i : ℕ) (e : IcacheEntry) → Holds ic i e n → ⊥

-- An entry is one.
pub entry_unique :
    (entries : List IcacheEntry) (j k : ℕ) {e f : IcacheEntry}
    → get_elem? entries j ≡ some f
    → get_elem? entries k ≡ some e
    → j ≡ k
    → f ≡ e
entry_unique entries j k at_j at_k same = cc

-- The entry that `fill` writes, and the cache with it.
abbrev pub fresh : ℕ → Inode → IcacheEntry
fresh n inode = record {
  inode = inode;
  inode_idx = n;
  lru_count = 0;
  status = valid;
  last_de = none;
}

abbrev pub placed : Icache → ℕ → ℕ → Inode → ℕ → Icache
placed ic i n inode count = record { entries = set ic.entries i (fresh n inode); count = count }

-- An entry of a cache in which entry `i` was set is the new one or an old one.
pub At-set :
    (ic : Icache) (i : ℕ) (new : IcacheEntry) (count : ℕ)
    → i < length ic.entries
    → ((j : ℕ) → j < count → j ≢ i → j < ic.count)
    → (j : ℕ) (e : IcacheEntry) → At (record { entries = set ic.entries i new; count = count }) j e
    → ((j ≡ i) × (e ≡ new)) ⊎ ((j ≢ i) × At ic j e)
At-set ic i new count lt old j e (below, at) = elim (ℕ_discrete i j) [
  | yes here ↦ inl (sym here, cc (get_elem?-set_self ic.entries i new lt))
  | no other ↦
      let moved = λ (same : j ≡ i). other (sym same) in
      inr (moved, (old j below moved, sym (get_elem?-set_ne ic.entries i j new other) ∙ at))
]

module _ (sb : SuperBlock) (gdt : List GroupDesc) (dev : Device) (Valid : ℕ → Type 0) where
  -- Every dirty entry but entry `i` is of another inode than `m`.
  abbrev pub NoDirty : Icache → ℕ → ℕ → Type 0
  NoDirty ic i m =
      (j : ℕ) (e : IcacheEntry) → At ic j e → j ≢ i → e.status ≡ dirty → e.inode_idx ≢ m

  -- The cache and the disk stand for the inodes `content`: the entries in use hold the current
  -- inodes, no two of them the same one, and the disk is current for every inode but those of dirty
  -- entries.
  pub record Refines (ic : Icache) (disk : dev.Disk) (content : ℕ → Inode) : Type 0 where
    pub room : length ic.entries ≡ icache_max_count
    pub bound : ic.count ≤ icache_max_count
    pub known : (i : ℕ) (e : IcacheEntry) → At ic i e → e.status ≢ inval → Valid e.inode_idx
    pub current :
        (i : ℕ) (e : IcacheEntry) → At ic i e → e.status ≢ inval → e.inode ≡ content e.inode_idx
    pub distinct :
        (i j : ℕ) (e f : IcacheEntry)
        → At ic i e
        → At ic j f
        → e.status ≢ inval
        → f.status ≢ inval
        → e.inode_idx ≡ f.inode_idx
        → i ≡ j
    pub in_range : (n : ℕ) → Valid n → InRange (content n)
    pub on_disk :
        (m : ℕ)
        → Valid m
        → ((j : ℕ) (e : IcacheEntry) → At ic j e → e.status ≡ dirty → e.inode_idx ≢ m)
        → read_inode sb gdt dev disk m ≡ ok (content m)

  -- Entry `i` can be given to inode `n`: that inode is not cached, the cache has `count` entries
  -- then, and the disk is current for every inode that no other dirty entry holds.
  pub record Vacant (ic : Icache) (disk : dev.Disk) (content : ℕ → Inode) (i n count : ℕ)
      : Type 0 where
    pub below : i < count
    pub within : count ≤ icache_max_count
    pub grows : ic.count ≤ count
    pub old : (j : ℕ) → j < count → j ≢ i → j < ic.count
    pub valid_n : Valid n
    pub uncached : Uncached ic n
    pub others : (m : ℕ) → Valid m → NoDirty ic i m → read_inode sb gdt dev disk m ≡ ok (content m)

  module _ (ic : Icache) (content : ℕ → Inode) (i n count : ℕ) (disk disk' : dev.Disk)
      (v : Refines ic disk content) (p : Vacant ic disk' content i n count) where
    split :
        (j : ℕ) (e : IcacheEntry)
        → At (placed ic i n (content n) count) j e
        → ((j ≡ i) × (e ≡ fresh n (content n))) ⊎ ((j ≢ i) × At ic j e)
    split = At-set ic i (fresh n (content n)) count (omega (arith, v.room, p.below, p.within)) p.old

    distinct_after :
        (j k : ℕ) (e f : IcacheEntry)
        → At (placed ic i n (content n) count) j e
        → At (placed ic i n (content n) count) k f
        → e.status ≢ inval
        → f.status ≢ inval
        → e.inode_idx ≡ f.inode_idx
        → j ≡ k
    distinct_after j k e f at_j at_k used_j used_k same = elim (split j e at_j) [
      | inl (here, new) ↦ elim (split k f at_k) [
        | inl (here', new') ↦ here ∙ sym here'
        | inr (other, before) ↦
            absurd (
              p.uncached k f (before, used_k, sym same ∙ ap (λ (t : IcacheEntry). t.inode_idx) new))
      ]
      | inr (other, before) ↦ elim (split k f at_k) [
        | inl (here', new') ↦
            absurd
              (p.uncached j e (before, used_j, same ∙ ap (λ (t : IcacheEntry). t.inode_idx) new'))
        | inr (other', before') ↦ v.distinct j k e f before before' used_j used_k same
      ]
    ]

    -- The table of inodes stays what it was, and the inode is in the entry.
    pub placed-Refines : Refines (placed ic i n (content n) count) disk' content
    placed-Refines = record {
      room = length-set ic.entries i _ ∙ v.room;
      bound = p.within;
      known = λ j e at used. elim (split j e at) [
        | inl (here, new) ↦ subst (λ (t : IcacheEntry). Valid t.inode_idx) (sym new) p.valid_n
        | inr (other, before) ↦ v.known j e before used
      ];
      current = λ j e at used. elim (split j e at) [
        | inl (here, new) ↦
            subst (λ (t : IcacheEntry). t.inode ≡ content t.inode_idx) (sym new) refl
        | inr (other, before) ↦ v.current j e before used
      ];
      distinct = distinct_after;
      in_range = v.in_range;
      on_disk = λ m valid_m clean. p.others m valid_m (λ j e at other is_dirty.
          clean j e
            (
              omega (arith, at.0, p.grows),
              get_elem?-set_ne ic.entries i j (fresh n (content n)) (λ same. other (sym same))
                  ∙ at.1,
            )
            is_dirty);
    }

    pub placed-Holds : Holds (placed ic i n (content n) count) i (fresh n (content n)) n
    placed-Holds = (
      (
        p.below,
        get_elem?-set_self ic.entries i (fresh n (content n))
            (omega (arith, v.room, p.below, p.within)),
      ),
      (λ e. cc),
      refl,
    )
