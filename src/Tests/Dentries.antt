-- ===== src/Tests/Dentries.antt =====
-- A directory of one block with concrete entries, and the theorems on directory entries applied.
use kfs.Base.{
  ℕ, ◌+◌, ◌-◌, ◌≡◌, refl, List, [], ◌∷◌, ◌++◌, none, some, true, ok, arith, replicate, le32, length,
}
use kfs.Ext4.Super.{block_size}
use kfs.Disk.{Pread}
use kfs.Inode.{get_size}
use kfs.Icache.{valid, lru_inc}
use kfs.Dentry.{
  Dir, Dcache, dentry_find, dentry_create, dentry_delete, dentry_init, has_enough_space,
  de_calc_rec_len, de_real_rec_len, align_to_dentry,
}
use kfs.Dentry.Chain.{Entry, Fits, Chain, IsTail, tail_bytes, entry_bytes}
use kfs.Dentry.Find.{Block, dentry_find-position}
use kfs.Dentry.Create.{real_length, new_entry}
use kfs.Dentry.Delete.{Without, merged, dentry_delete-removes}
use kfs.Dentry.Init.{dot, dot_dot, dentry_init-Chain}
use kfs.Dentry.Added.{shrunk, dentry_create-found}
use kfs.Tests.Inodes.{disk, sample}

abbrev no_disk : Pread
no_disk offset n = none

abbrev parent : Entry
parent = record { inode_idx = 2; rec_len = 12; file_type = 2; name = b'.' ∷ (b'.' ∷ []) }

abbrev file : Entry
file = record { inode_idx = 11; rec_len = 24; file_type = 1; name = b'f' ∷ [] }

abbrev entries : List Entry
entries = dot 5 ∷ (parent ∷ (file ∷ []))

abbrev bytes : List ℕ
bytes =
    entry_bytes (dot 5)
    ++ (replicate 3 0
        ++ (entry_bytes parent
            ++ (replicate 2 0 ++ (entry_bytes file ++ (replicate 15 0 ++ (tail_bytes ++ le32 0))))))

abbrev folder : Dir
folder = record {
  entry = record { inode = sample; inode_idx = 5; lru_count = 0; status = valid; last_de = none };
  dcache = record { inode_idx = 5; lblock = 0; pblock = 9; buf = bytes };
}

dot-Fits : Fits (dot 5)
dot-Fits = record {
  inode_small = omega arith;
  rec_small = omega arith;
  name_small = omega arith;
  named = omega arith;
  room = omega arith;
  aligned = omega arith;
}

parent-Fits : Fits parent
parent-Fits = record {
  inode_small = omega arith;
  rec_small = omega arith;
  name_small = omega arith;
  named = omega arith;
  room = omega arith;
  aligned = omega arith;
}

file-Fits : Fits file
file-Fits = record {
  inode_small = omega arith;
  rec_small = omega arith;
  name_small = omega arith;
  named = omega arith;
  room = omega arith;
  aligned = omega arith;
}

folder-Chain : Chain bytes 0 entries 48
folder-Chain = (
  (dot-Fits, (refl, (refl, (refl, (refl, (refl, (refl, (refl, (refl, (refl, tt)))))))))),
  (
    (
      parent-Fits,
      (refl, (refl, (refl, (refl, (refl, (refl, (refl, (refl, (refl, (refl, tt)))))))))),
    ),
    ((file-Fits, (refl, (refl, (refl, (refl, (refl, (refl, (refl, (refl, (refl, tt)))))))))), refl),
  ),
)

folder-IsTail : IsTail bytes 48
folder-IsTail = (refl, (refl, (refl, (refl, (refl, (refl, (refl, (refl, tt))))))))

folder-Block : Block disk folder entries 48
unfolding get_size block_size
folder-Block = record {
  first_block = refl;
  chain = folder-Chain;
  tail = folder-IsTail;
  in_block = omega arith;
  in_size = omega arith;
  in_range = omega arith;
}

-- The file stands at 24, behind `..` at 12.
dentry_find-position_example :
    dentry_find disk no_disk 0 4 folder 5 (some (b'f' ∷ []))
    ≡ ok (record folder { entry = lru_inc folder.entry }, some (some 12, 24))
dentry_find-position_example =
    dentry_find-position disk no_disk 0 4 folder entries 48 5 (b'f' ∷ []) folder-Block refl
      (omega arith) (omega arith)

dentry_delete-removes_example :
    (dir' : Dir) × (dentry_delete disk no_disk 0 4 folder 5 (b'f' ∷ []) ≡ ok dir')
    × Block disk dir' (dot 5 ∷ (merged parent file ∷ [])) 48
    × (dir'.entry.last_de ≡ none)
    × (Without (b'f' ∷ []) []
        → (dir'' : Dir) × (dentry_find disk no_disk 0 4 dir' 5 (some (b'f' ∷ []))
            ≡ ok (dir'', none)))
dentry_delete-removes_example =
    dentry_delete-removes disk no_disk 0 4 folder (dot 5 ∷ []) parent file [] 48 5 (b'f' ∷ [])
      folder-Block refl (omega arith) (omega arith) (omega arith) (refl, tt) refl refl (omega arith)

room_for_g : has_enough_space bytes 24 1 ≡ ok true
unfolding has_enough_space de_calc_rec_len de_real_rec_len align_to_dentry
room_for_g = refl

dentry_create-found_example :
    (dir' : Dir) × (dentry_create bytes 24 (b'g' ∷ []) 12 1
      ≡ ok (dir'.dcache.buf, 24 + real_length file))
    × Block disk dir' (dot 5 ∷ (parent ∷ (shrunk file ∷ (new_entry file 12 1 (b'g' ∷ []) ∷ [])))) 48
    × (dentry_find disk no_disk 0 5 dir' 5 (some (b'g' ∷ []))
        ≡ ok (record dir' { entry = lru_inc dir'.entry }, some (some 24, 24 + real_length file)))
dentry_create-found_example =
    dentry_create-found disk no_disk 0 5 folder (dot 5 ∷ (parent ∷ [])) file 48 5 12 1 (b'g' ∷ [])
      folder-Block refl (omega arith) (omega arith) (omega arith) (omega arith) (omega arith)
      room_for_g (refl, (refl, tt)) refl (omega arith)

blank_bytes-length : length (replicate {A = ℕ} 1024 0) ≡ block_size disk
unfolding block_size
blank_bytes-length = refl

disk_blocks : block_size disk ≡ 1024
unfolding block_size
disk_blocks = refl

dentry_init-Chain_example :
    (dcache' : Dcache) × (dentry_init disk (record folder.dcache { buf = replicate 1024 0 }) 2 12
      ≡ ok dcache')
    × (dcache'.inode_idx ≡ 12)
    × (dcache'.lblock ≡ 0)
    × Chain dcache'.buf 0 (dot 12 ∷ (dot_dot (block_size disk) 2 ∷ [])) (block_size disk - 12)
    × IsTail dcache'.buf (block_size disk - 12)
    × (length dcache'.buf ≡ block_size disk)
dentry_init-Chain_example =
    dentry_init-Chain disk (record folder.dcache { buf = replicate 1024 0 }) 2 12
      (omega (arith, disk_blocks)) (omega (arith, disk_blocks)) (rw disk_blocks refl)
      blank_bytes-length (omega arith) (omega arith)
