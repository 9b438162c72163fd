-- ===== src/Icache.antt =====
-- The inode cache (src/cache.c, src/cache.h) and `inode_get_by_number` (src/inode.c). A pointer to
-- a cached inode is the number of its entry; the cache and the disk are passed on.
pub mod Backing
pub mod Refines
pub mod Find
pub mod Replace
pub mod Insert
pub mod Change
pub mod Get
pub mod Flush
use kfs.Base.{
  ℕ, zero, suc, ◌+◌, ◌-◌, ◌*◌, ◌^◌, List, Option, none, some, Bool, true, false, not, ◌&&◌, Res, ok,
  fault, out_of_range, load, store, ◌>>=◌, ◌==◌, ltb, if◌then◌else◌,
}
use kfs.Ext4.Super.{SuperBlock}
use kfs.Ext4.Group.{GroupDesc}
use kfs.Disk.{Device, disk_read, disk_write}
use kfs.Inode.{Inode, get_offset}
use kfs.Inode.Bytes.{inode_bytes, bytes_of, inode_of}
use kfs.Search.{first_free}

-- ICACHE_S_INVAL, ICACHE_S_VALID, ICACHE_S_DIRTY
pub data CacheStatus : Type 0 where
  inval valid dirty : CacheStatus

-- `last_de` is NULL or the place of the last entry of the directory.
pub record IcacheEntry : Type 0 where
  pub inode : Inode
  pub inode_idx : ℕ
  pub lru_count : ℕ
  pub status : CacheStatus
  pub last_de : Option ℕ

pub record Icache : Type 0 where
  pub entries : List IcacheEntry
  pub count : ℕ

-- ICACHE_MAX_COUNT, INT_MAX, UINT32_MAX
abbrev pub icache_max_count : ℕ
icache_max_count = 64

abbrev pub int_max : ℕ
int_max = 2 ^ 31 - 1

abbrev pub uint32_max : ℕ
uint32_max = 2 ^ 32 - 1

-- ICACHE_IS_VALID, ICACHE_IS_DIRTY
abbrev pub is_valid : IcacheEntry → Bool
is_valid e = elim e.status [ inval ↦ false | valid ↦ true | dirty ↦ true ]

abbrev pub is_dirty : IcacheEntry → Bool
is_dirty e = elim e.status [ inval ↦ false | valid ↦ false | dirty ↦ true ]

-- ICACHE_LRU_INC, ICACHE_SET_DIRTY, ICACHE_SET_INVAL, ICACHE_SET_LAST_DE
unfoldable pub lru_inc : IcacheEntry → IcacheEntry
lru_inc e = record e {
  lru_count = if ltb e.lru_count uint32_max then e.lru_count + 1 else e.lru_count;
}

abbrev pub set_dirty : IcacheEntry → IcacheEntry
set_dirty e = record e { status = dirty }

abbrev pub set_inval : IcacheEntry → IcacheEntry
set_inval e = record e { status = inval }

abbrev pub set_last_de : IcacheEntry → Option ℕ → IcacheEntry
set_last_de e de = record e { last_de = de }

-- `icache_find`
unfoldable pub icache_find : Icache → ℕ → Res (Option ℕ)
icache_find icache inode_idx =
    first_free (λ i. do e ← load icache.entries i; ok (is_valid e && e.inode_idx == inode_idx))
      icache.count 0

-- What the loop of `icache_lru_replace` ends with: the first invalid entry, or the entry whose
-- count is least and below INT_MAX; `none` is -1.
pub data Victim : Type 0 where
  invalid : ℕ → Victim
  lru : Option ℕ → Victim

-- The loop, from entry `i` on, with `lru_idx` and `lru_count`. The count is compared as `uint32_t`.
unfoldable pub find_victim : List IcacheEntry → ℕ → ℕ → Option ℕ → ℕ → Res Victim
find_victim entries zero i lru_idx lru_count = ok (lru lru_idx)
find_victim entries (suc rounds) i lru_idx lru_count = do
  e ← load entries i
  elim (is_valid e) [
    | false ↦ ok (invalid i)
    | true ↦
        let less = ltb e.lru_count lru_count in
        find_victim entries rounds (i + 1) (if less then some i else lru_idx)
          (if less then e.lru_count else lru_count)
  ]

module _ (sb : SuperBlock) (gdt : List GroupDesc) (dev : Device) where
  -- An inode as it is on the disk: a read at `inode_get_offset`.
  unfoldable pub read_inode : dev.Disk → ℕ → Res Inode
  read_inode disk inode_idx = do
    off ← get_offset sb gdt inode_idx
    bytes ← disk_read (dev.pread disk) off inode_bytes
    inode_of bytes

  -- `icache_write_back`
  unfoldable pub icache_write_back : dev.Disk → IcacheEntry → Res dev.Disk
  icache_write_back disk e = do
    off ← get_offset sb gdt e.inode_idx
    disk_write dev disk off (bytes_of e.inode)

  -- The lines that the three ways into the cache share: entry `i` is now that of `inode_idx`. An
  -- inode that is not read keeps what the entry held.
  unfoldable pub fill : List IcacheEntry → dev.Disk → ℕ → ℕ → Bool → Res (List IcacheEntry)
  fill entries disk i inode_idx read_from_disk = do
    e ← load entries i
    inode ← (if read_from_disk then read_inode disk inode_idx else ok e.inode)
    store entries i (record {
      inode = inode;
      inode_idx = inode_idx;
      lru_count = 0;
      status = valid;
      last_de = none;
    })

  -- `icache_lru_replace`
  unfoldable pub icache_lru_replace : Icache → dev.Disk → ℕ → Bool → Res (Icache × dev.Disk × ℕ)
  icache_lru_replace icache disk inode_idx read_from_disk = do
    victim ← find_victim icache.entries icache.count 0 none int_max
    elim victim [
      | invalid i ↦ (do
        entries ← fill icache.entries disk i inode_idx read_from_disk
        ok (record icache { entries = entries }, disk, i))
      | lru none ↦ fault out_of_range
      | lru (some i) ↦ (do
        e ← load icache.entries i
        disk' ← (if is_dirty e then icache_write_back disk e else ok disk)
        entries ← fill icache.entries disk' i inode_idx read_from_disk
        ok (record icache { entries = entries }, disk', i))
    ]

  -- `icache_insert`
  unfoldable pub icache_insert : Icache → dev.Disk → ℕ → Bool → Res (Icache × dev.Disk × ℕ)
  icache_insert icache disk inode_idx read_from_disk =
      if icache.count == icache_max_count
      then icache_lru_replace icache disk inode_idx read_from_disk
      else (do
        entries ← fill icache.entries disk icache.count inode_idx read_from_disk
        ok (record { entries = entries; count = icache.count + 1 }, disk, icache.count))

  -- A change of entry `i` through a pointer to it.
  abbrev pub change_entry : Icache → ℕ → (IcacheEntry → IcacheEntry) → Res Icache
  change_entry icache i f = do
    e ← load icache.entries i
    entries ← store icache.entries i (f e)
    ok (record icache { entries = entries })

  -- `inode_get_by_number`; `none` is -ENOENT.
  unfoldable pub get_by_number : Icache → dev.Disk → ℕ → Res (Option (Icache × dev.Disk × ℕ))
  get_by_number icache disk inode_idx = if inode_idx == 0 then ok none else (do
    found ← icache_find icache inode_idx
    (icache', disk', i) ← elim found as (λ _. Res (Icache × dev.Disk × ℕ)) [
      | some i ↦ ok (icache, disk, i)
      | none ↦ icache_insert icache disk inode_idx true
    ]
    icache'' ← change_entry icache' i lru_inc
    ok (some (icache'', disk', i)))

  -- The loop of `op_destory` that writes the dirty inodes back, from entry `i` on.
  unfoldable pub write_dirty : Icache → ℕ → ℕ → dev.Disk → Res dev.Disk
  write_dirty icache zero i disk = ok disk
  write_dirty icache (suc rounds) i disk = do
    e ← load icache.entries i
    disk' ← (if is_dirty e then icache_write_back disk e else ok disk)
    write_dirty icache rounds (i + 1) disk'
