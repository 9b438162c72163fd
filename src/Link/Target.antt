-- ===== src/Link/Target.antt =====
-- A target that is stored in the inode, read back (src/op_symlink.c, src/op_readlink.c).
use kfs.Base.{
  ℕ, zero, suc, ◌+◌, ◌-◌, ◌^◌, ◌<◌, ◌≤◌, ◌≡◌, refl, ap, List, [], ◌∷◌, ◌++◌, none, some, true, inl,
  inr, Bool-cases, ok, fault, out_of_range, ◌>>=◌, leb, leb-true, length, length-append, take, drop,
  set, get_elem?, get_elem?-none, arith, bit_and, ◌==◌,
}
use kfs.Ext4.Super.{SuperBlock}
use kfs.Disk.{Pread, Device}
use kfs.Bitmap.{Bitmap}
use kfs.Inode.{Inode, get_size, set_size, set_blocks, s_iflnk}
use kfs.Inode.Fields.{get_size-set_size}
use kfs.Link.{memcpy, get_link_dest, op_readlink, symlink_create}

length-drop : (n : ℕ) (xs : List ℕ) → length (drop n xs) ≡ length xs - n
length-drop zero xs = omega arith
length-drop (suc n) [] = omega arith
length-drop (suc n) (x ∷ xs) = omega (arith, length-drop n xs)

length-take : (n : ℕ) (xs : List ℕ) → n ≤ length xs → length (take n xs) ≡ n
length-take zero xs le = refl
length-take (suc n) [] le = absurd (omega arith)
length-take (suc n) (x ∷ xs) le = ap suc (length-take n xs (omega arith))

take-append : (xs ys : List ℕ) → take (length xs) (xs ++ ys) ≡ xs
take-append [] ys = refl
take-append (x ∷ xs) ys = ap (λ (t : List ℕ). x ∷ t) (take-append xs ys)

drop-next : (n : ℕ) (xs : List ℕ) → n < length xs → (x : ℕ) × (drop n xs ≡ x ∷ drop (suc n) xs)
drop-next n [] lt = absurd (omega arith)
drop-next zero (x ∷ xs) lt = (x, refl)
drop-next (suc n) (x ∷ xs) lt = drop-next n xs (omega arith)

-- A place behind a prefix.
get_elem?-append :
    (xs : List ℕ) (y : ℕ) (ys : List ℕ) → get_elem? (xs ++ (y ∷ ys)) (length xs) ≡ some y
get_elem?-append [] y ys = refl
get_elem?-append (x ∷ xs) y ys = get_elem?-append xs y ys

set-append :
    (xs : List ℕ) (y v : ℕ) (ys : List ℕ) → set (xs ++ (y ∷ ys)) (length xs) v ≡ xs ++ (v ∷ ys)
set-append [] y v ys = refl
set-append (x ∷ xs) y v ys = ap (λ (t : List ℕ). x ∷ t) (set-append xs y v ys)

memcpy_lem :
    (dest src : List ℕ)
    → length src ≤ length dest
    → memcpy dest src ≡ ok (src ++ drop (length src) dest)
unfolding memcpy
memcpy_lem dest src le = rw (memcpy, leb-true (length src) (length dest) le) refl

size_of : (inode : Inode) (size : ℕ) → size < 2 ^ 64 → get_size (set_size inode size) ≡ size
unfolding get_size set_blocks
size_of inode size lt = (get_size-set_size inode size 0 lt (omega arith)).0

block_of : (inode : Inode) (size : ℕ) → (set_size inode size).i_block ≡ inode.i_block
unfolding set_size
block_of inode size = refl

kind_of : (inode : Inode) (size : ℕ) → (set_size inode size).i_mode ≡ inode.i_mode
unfolding set_size
kind_of inode size = refl

-- What a target in the inode is read as.
get_link_dest_short :
    (sb : SuperBlock) (pread : Pread) (depth : ℕ) (inode : Inode) (path rest buf : List ℕ)
    → inode.i_block ≡ path ++ rest
    → get_size inode ≡ length path
    → length path ≤ 60
    → length path < length buf
    → get_link_dest sb pread depth inode buf
      ≡ ok (path ++ (0 ∷ drop (suc (length path)) buf), length path + 1)
unfolding get_link_dest
get_link_dest_short sb pread depth inode path rest buf block size short room =
    let (b, next) = drop-next (length path) buf room in
    rw
      (
        get_link_dest,
        size,
        leb-true (length path) 60 short,
        size,
        block,
        take-append path rest,
        memcpy_lem buf path (omega arith),
        ◌>>=◌,
        next,
        get_elem?-append path b (drop (suc (length path)) buf),
        ◌>>=◌,
        set-append path b 0 (drop (suc (length path)) buf),
      )
      refl

-- `inode_symlink_create` of a target of at most 60 bytes, then `op_readlink` with a buffer that has room
-- for it and a NUL: both succeed, and the buffer begins with the target and the NUL, and is as it was
-- behind them. Neither uses the disk or the data bitmap.
pub op_readlink-symlink_create :
    (sb : SuperBlock) (dev : Device) (d_bitmap : Bitmap) (disk : dev.Disk) (inode : Inode) (n : ℕ)
    (pread : Pread) (depth : ℕ) (path : List ℕ) (buf : List ℕ)
    → length inode.i_block ≡ 60
    → (bit_and inode.i_mode 0xF000 == s_iflnk) ≡ true
    → length path ≤ 60
    → length path < length buf
    → (inode' : Inode) × (symlink_create sb dev d_bitmap disk inode n path
        ≡ ok (some (inode', d_bitmap, disk)))
      × (op_readlink sb pread depth inode' buf
          ≡ ok (none, path ++ (0 ∷ drop (suc (length path)) buf)))
unfolding symlink_create op_readlink
op_readlink-symlink_create sb dev d_bitmap disk inode n pread depth path buf whole kind short room =
    let held : Inode = record inode { i_block = path ++ drop (length path) inode.i_block } in
    let inode' = set_size held (length path) in
    (
      inode',
      rw
          (
            symlink_create,
            leb-true (length path) 60 short,
            memcpy_lem inode.i_block path (omega arith),
          )
          refl,
      rw
          (
            op_readlink,
            kind_of held (length path),
            kind,
            get_link_dest_short sb pread depth inode' path (drop (length path) inode.i_block) buf
                (block_of held (length path)) (size_of held (length path) (omega arith)) short room,
          )
          refl,
    )

-- A target in the inode that leaves no room for the NUL is stored behind the end of the buffer, though
-- the comment on `op_readlink` says that it is truncated.
pub op_readlink-overruns :
    (sb : SuperBlock) (pread : Pread) (depth : ℕ) (inode : Inode) (buf : List ℕ)
    → length inode.i_block ≡ 60
    → (bit_and inode.i_mode 0xF000 == s_iflnk) ≡ true
    → get_size inode ≤ 60
    → length buf ≤ get_size inode
    → op_readlink sb pread depth inode buf ≡ fault out_of_range
unfolding op_readlink get_link_dest memcpy
op_readlink-overruns sb pread depth inode buf whole kind short full =
    let size = get_size inode in
    let bytes = take size inode.i_block in
    let len : length bytes ≡ size = length-take size inode.i_block (omega arith) in
    elim (Bool-cases (leb (length bytes) (length buf))) [
      | inr over ↦ rw (op_readlink, kind, leb-true size 60 short, memcpy, over) refl
      | inl fits ↦
          let le : length bytes ≤ length buf = ground arith in
          let whole_ : length (bytes ++ drop (length bytes) buf) ≡ length buf = omega (
            arith,
            length-append bytes (drop (length bytes) buf),
            length-drop (length bytes) buf,
          ) in
          let out = get_elem?-none (bytes ++ drop (length bytes) buf) size (omega arith) in
          rw (op_readlink, kind, leb-true size 60 short, memcpy, fits, ◌>>=◌, out) refl
    ]
