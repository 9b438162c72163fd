-- ===== src/Tests/Icaches.antt =====
-- The inode cache over a device in memory, and the theorems on it applied.
use mathlib.Core.Path.{subst}
use mathlib.Core.Option.{some-injective}
use kfs.Base.{
  ◌>>=◌, ◌∙◌, ok_injective, ℕ, zero, suc, ◌+◌, ◌*◌, ◌<◌, ◌≡◌, refl, sym, List, [], ◌∷◌, none, some,
  ok, arith, ◌≢◌, ◌⊎◌, inl, inr, ◌==◌, if◌then◌else◌, replicate, get_elem?,
}
use kfs.Ext4.Super.{block_size, blocks2bytes, n_block_groups, block_count}
use kfs.Ext4.Group.{GroupDesc, inode_table}
use kfs.Disk.{Device, disk_read}
use kfs.Disk.Laws.{Apart}
use kfs.Inode.{Inode, get_offset}
use kfs.Inode.Bytes.{
  inode_bytes, bytes_of, InRange, bytes_of-length, bytes_of-All, inode_of-bytes_of,
}
use kfs.Icache.{
  Icache, IcacheEntry, CacheStatus, inval, valid, dirty, read_inode, get_by_number, find_victim,
  write_dirty, invalid, lru, int_max,
}
use kfs.Icache.Backing.{IsTable, Backing, table-Backing}
use kfs.Icache.Refines.{At, Refines}
use kfs.Icache.Replace.{NoneBelow, find_victim-least}
use kfs.Icache.Get.{Serves, get_by_number-transparent}
use kfs.Icache.Flush.{write_dirty-flushes}
use kfs.Tests.Memory.{Mem, memory, memory-IsDevice, scatter, gather, gather-scatter}
use kfs.Tests.Inodes.{disk, first_group, sample, sample_with, sample_with-InRange}

abbrev pub dev : Device
dev = memory 16384

abbrev pub groups : List GroupDesc
groups = first_group ∷ []

-- Two inodes, at 5120 and 5376.
abbrev pub Numbered : ℕ → Type 0
Numbered n = (n ≡ 1) ⊎ (n ≡ 2)

place : (n : ℕ) → Numbered n → get_offset disk groups n ≡ ok (4864 + n * 256)
unfolding get_offset n_block_groups block_count inode_table block_size blocks2bytes
place n (inl one) = rw one
place n (inr two) = rw two

places_differ :
    (m n a b : ℕ)
    → Numbered m
    → Numbered n
    → m ≢ n
    → 4864 + m * 256 ≡ a
    → 4864 + n * 256 ≡ b
    → Apart a inode_bytes b inode_bytes
places_differ m n a b (inl m1) (inl n1) ne p q = absurd (omega arith)
places_differ m n a b (inl m1) (inr n2) ne p q = inl (omega arith)
places_differ m n a b (inr m2) (inl n1) ne p q = inr (omega arith)
places_differ m n a b (inr m2) (inr n2) ne p q = absurd (omega arith)

table : IsTable disk groups 16384 Numbered
table = record {
  placed = λ n valid_n. (
    4864 + n * 256,
    place n valid_n,
    elim valid_n [ inl one ↦ omega arith | inr two ↦ omega arith ],
  );
  apart = λ m n a b valid_m valid_n ne at at'.
      places_differ m n a b valid_m valid_n ne (ok_injective (sym (place m valid_m) ∙ at))
        (ok_injective (sym (place n valid_n) ∙ at'));
}

pub backing : Backing disk groups dev Numbered
backing = table-Backing disk groups dev Numbered (memory-IsDevice 16384) table

-- Inode 1 has got a second link since it was read, inode 2 is not cached.
abbrev linked : Inode
linked = sample_with 2

abbrev pub content : ℕ → Inode
content m = if m == 1 then linked else sample

abbrev entry : Inode → ℕ → ℕ → CacheStatus → IcacheEntry
entry inode n count status = record {
  inode = inode;
  inode_idx = n;
  lru_count = count;
  status = status;
  last_de = none;
}

abbrev pub cache : Icache
cache = record {
  entries = entry linked 1 3 dirty ∷ replicate 63 (entry sample 0 0 inval);
  count = 1;
}

abbrev pub mem : Mem
mem = scatter (scatter (λ x. 0) 5120 (bytes_of sample)) 5376 (bytes_of sample)

small : InRange sample
small = sample_with-InRange 1 (omega arith)

second_bytes : gather mem 5376 160 ≡ bytes_of sample
second_bytes =
    subst (λ t. gather mem 5376 t ≡ bytes_of sample) (bytes_of-length sample small)
      (gather-scatter (scatter (λ x. 0) 5120 (bytes_of sample)) 5376 (bytes_of sample)
        (bytes_of-All sample small))

second_read : read_inode disk groups dev mem 2 ≡ ok sample
unfolding read_inode disk_read
second_read = rw (place 2 (inr refl), ◌>>=◌, second_bytes) (inode_of-bytes_of sample small)

only_first : (i : ℕ) (e : IcacheEntry) → At cache i e → (i ≡ 0) × (e ≡ entry linked 1 3 dirty)
only_first zero e (h, at) = (refl, sym (some-injective _ _ at))
only_first (suc i) e (h, at) = absurd (omega arith)

pub cache-Refines : Refines disk groups dev Numbered cache mem content
cache-Refines = record {
  room = refl;
  bound = omega arith;
  known = λ i e at used. rw (only_first i e at).1 (inl refl);
  current = λ i e at used. rw (only_first i e at).1;
  distinct =
      λ i j e f at_i at_j used_i used_j same. (only_first i e at_i).0 ∙ sym (only_first j f at_j).0;
  in_range = λ n valid_n. elim valid_n [
    | inl one ↦ rw one (sample_with-InRange 2 (omega arith))
    | inr two ↦ rw two (sample_with-InRange 1 (omega arith))
  ];
  on_disk = λ m valid_m clean. elim valid_m [
    | inl one ↦ absurd (clean 0 (entry linked 1 3 dirty) (omega arith, refl) refl (sym one))
    | inr two ↦ rw two second_read
  ];
}

get_by_number-transparent_example :
    (ic' : Icache) × (mem' : Mem) × (i : ℕ) × (get_by_number disk groups dev cache mem 2
      ≡ ok (some (ic', mem', i)))
    × Refines disk groups dev Numbered ic' mem' content
    × Serves disk groups dev Numbered backing content ic' i 2
get_by_number-transparent_example =
    get_by_number-transparent disk groups dev Numbered backing content cache mem 2 cache-Refines
      (inl (omega arith)) (inr refl) (omega arith)

write_dirty-flushes_example :
    (mem' : Mem) × (write_dirty disk groups dev cache 1 0 mem ≡ ok mem')
    × ((m : ℕ) → Numbered m → read_inode disk groups dev mem' m ≡ ok (content m))
write_dirty-flushes_example =
    write_dirty-flushes disk groups dev Numbered backing content cache cache-Refines

-- Of three entries in use the second has the least count.
abbrev three : List IcacheEntry
three = entry sample 5 9 valid ∷ entry sample 6 2 valid ∷ entry sample 7 4 dirty ∷ []

find_victim-least_example :
    ((j : ℕ) × (e : IcacheEntry) × (find_victim three 3 0 none int_max ≡ ok (invalid j))
      × (j < 3)
      × (get_elem? three j ≡ some e)
      × (e.status ≡ inval))
    ⊎ (((k : ℕ) × (e : IcacheEntry) × (find_victim three 3 0 none int_max ≡ ok (lru (some k)))
          × (k < 3)
          × (get_elem? three k ≡ some e)
          × NoneBelow three 3 e.lru_count
          × (e.lru_count < int_max))
        ⊎ ((find_victim three 3 0 none int_max ≡ ok (lru none)) × NoneBelow three 3 int_max))
find_victim-least_example = find_victim-least three 3 (omega arith)

victim_runs : find_victim three 3 0 none int_max ≡ ok (lru (some 1))
unfolding find_victim
victim_runs = refl
