-- ===== src/Tests/Reads.antt =====
-- A read of a file of one extent on a disk with known bytes.
use kfs.Base.{
  ℕ, zero, suc, ◌+◌, ◌%◌, ◌<◌, ◌≡◌, refl, ◌∷◌, ◌++◌, none, some, ok, arith, leb, leb-true,
  if◌then◌else◌, replicate,
}
use kfs.Ext4.Super.{block_size}
use kfs.Disk.{Pread}
use kfs.Extents.{header_of, extent_of, get_pblock, block_from_ees, find_extent, get_paddr}
use kfs.Inode.{Inode, get_size, has, extents_fl}
use kfs.Inode.Pblocks.{get_data_pblock}
use kfs.Read.{op_read}
use kfs.Read.Runs.{run}
use kfs.Read.Content.{IsImage, Mapped, op_read-content}
use kfs.Tests.Inodes.{disk, sample}

abbrev byte : ℕ → ℕ
byte i = i % 251

abbrev image : Pread
image offset n = if leb (offset + n) 65536 then some (run byte offset n) else none

image-IsImage : IsImage image byte 65536
image-IsImage = record { pread_in = λ a n le. rw (leb-true (a + n) 65536 le) refl }

-- 3000 bytes in the blocks 20 to 23.
abbrev pub text : Inode
text = record sample {
  i_flags = extents_fl;
  i_size_lo = 3000;
  i_block =
      0x0A
      ∷ (0xF3
          ∷ (1
              ∷ (0
                  ∷ (4
                      ∷ (0 ∷ (replicate 10 0 ++ (4 ∷ (0 ∷ (0 ∷ (0 ∷ (20 ∷ replicate 39 0)))))))))));
}

abbrev blocks_of_text : ℕ → ℕ
blocks_of_text l = 20 + l

looked_up : (l : ℕ) → l < 4 → get_data_pblock disk image 1 text l ≡ ok (20 + l, some 4)
unfolding get_data_pblock has get_pblock header_of extent_of block_from_ees find_extent get_paddr
looked_up zero lt = refl
looked_up (suc zero) lt = refl
looked_up (suc (suc zero)) lt = refl
looked_up (suc (suc (suc zero))) lt = refl
looked_up (suc (suc (suc (suc l)))) lt = absurd (omega arith)

text-Mapped : Mapped disk image 1 text blocks_of_text 4 65536
unfolding block_size
text-Mapped = record {
  lookup = λ l lt. (4, looked_up l lt, omega arith, omega arith, λ k le. omega arith);
  on_disk = λ l lt. omega arith;
}

-- Ten bytes that begin four bytes before the end of the first block.
op_read-content_example : op_read disk image 1 11 text 10 1020 ≡ ok (10, run byte 21500 10)
unfolding block_size get_size
op_read-content_example =
    op_read-content disk image 1 text blocks_of_text byte 4 65536 image-IsImage text-Mapped
      (omega arith) (omega arith) (omega arith) (omega arith) (omega arith) 10 10 1020 (omega arith)
      (omega arith) (omega arith) (omega arith) (omega arith) (omega arith)
