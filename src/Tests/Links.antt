-- ===== src/Tests/Links.antt =====
-- A symbolic link to "a/b", and the theorems on targets applied.
use kfs.Base.{ℕ, ◌≡◌, refl, List, [], ◌∷◌, none, some, ok, fault, out_of_range, arith, replicate}
use kfs.Inode.{Inode, get_size}
use kfs.Link.{symlink_create, op_readlink}
use kfs.Link.Target.{op_readlink-symlink_create, op_readlink-overruns}
use kfs.Tests.Inodes.{disk, sample}
use kfs.Tests.Writes.{dev, zeroes, d_bitmap}

abbrev link : Inode
link = record sample { i_mode = 0xA1FF; i_block = replicate 60 0 }

abbrev target : List ℕ
target = b'a' ∷ b'/' ∷ b'b' ∷ []

op_readlink-symlink_create_example :
    (inode' : Inode) × (symlink_create disk dev d_bitmap zeroes link 5 target
      ≡ ok (some (inode', d_bitmap, zeroes)))
    × (op_readlink disk (dev.pread zeroes) 1 inode' (replicate 6 9)
        ≡ ok (none, b'a' ∷ b'/' ∷ b'b' ∷ 0 ∷ 9 ∷ 9 ∷ []))
op_readlink-symlink_create_example =
    op_readlink-symlink_create disk dev d_bitmap zeroes link 5 (dev.pread zeroes) 1 target
      (replicate 6 9) refl refl (omega arith) (omega arith)

abbrev long_link : Inode
long_link = record link { i_size_lo = 6; i_size_high = 0 }

long_size : get_size long_link ≡ 6
unfolding get_size
long_size = refl

op_readlink-overruns_example :
    op_readlink disk (dev.pread zeroes) 1 long_link (replicate 6 9) ≡ fault out_of_range
op_readlink-overruns_example =
    op_readlink-overruns disk (dev.pread zeroes) 1 long_link (replicate 6 9) refl refl
      (omega (arith, long_size)) (omega (arith, long_size))
