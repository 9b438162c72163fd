-- ===== src/Tests/Writes.antt =====
-- Writes to a file of four blocks on a device in memory, and the theorems on them applied.
use kfs.Base.{
  ℕ, zero, suc, ◌+◌, ◌%◌, ◌^◌, ◌<◌, ◌≡◌, ◌≢◌, refl, ap, ◌∙◌, [], none, some, ok, arith, ◌==◌,
  if◌then◌else◌, Bool-cases, inl, inr, leb-true, true, false, Bool,
}
use kfs.Ext4.Super.{block_size}
use kfs.Disk.{Device}
use kfs.Bitmap.{Bitmap}
use kfs.Extents.{Extent, header_of, extent_of}
use kfs.Inode.{Inode, get_blocks, set_size, has, extents_fl}
use kfs.Read.Runs.{run, length-run}
use kfs.Write.{write_data}
use kfs.Write.Bytes.{inside, IsBytes}
use kfs.Write.Hole.{IsRootLeaf, write_data-hole}
use kfs.Tests.Memory.{Mem, memory, gather, scatter, update}
use kfs.Tests.Inodes.{disk}
use kfs.Tests.Reads.{text}

gather-run : (mem : Mem) (a n : ℕ) → gather mem a n ≡ run (λ i. mem i % 2 ^ 8) a n
gather-run mem a zero = refl
gather-run mem a (suc n) = rw (gather-run mem (a + 1) n) refl

scatter-run :
    (mem : Mem) (src : ℕ → ℕ) (a n x : ℕ)
    → scatter mem a (run src a n) x ≡ (if inside a n x then src x else mem x)
scatter-run mem src a zero x = ground arith
scatter-run mem src a (suc n) x =
    let rest = scatter-run (update mem a (src a)) src (a + 1) n x in
    elim (Bool-cases (x == a)) [
      | inl y ↦ let e : x ≡ a = ground arith in rest ∙ rw y (ground (arith, ap src e))
      | inr z ↦ rest ∙ rw z (ground arith)
    ]

byte_of :
    (b : Bool) (x y : ℕ) → x < 2 ^ 8 → (if b then x else y) % 2 ^ 8 ≡ (if b then x else y % 2 ^ 8)
byte_of true x y lt = omega arith
byte_of false x y lt = refl

memory-IsBytes : IsBytes (memory 65536) 65536
memory-IsBytes = record {
  byte = λ mem i. mem i % 2 ^ 8;
  pread_in = λ mem a n le. rw (leb-true (a + n) 65536 le) (ap some (gather-run mem a n));
  pwrite_in = λ mem src a n le small. (
    scatter mem a (run src a n),
    rw (length-run src a n, leb-true (a + n) 65536 le) refl,
    λ x.
        ap (λ t. t % 2 ^ 8) (scatter-run mem src a n x)
        ∙ byte_of (inside a n x) (src x) (mem x) (small x),
  );
}

abbrev pub dev : Device
dev = memory 65536

-- The file of the reads, with its count of blocks.
abbrev note : Inode
note = record text { i_blocks_lo = 4 }

abbrev pub d_bitmap : Bitmap
d_bitmap = record { group = []; group_num = 0 }

abbrev pub zeroes : Mem
zeroes i = 0

abbrev src : ℕ → ℕ
src i = i % 251

note_extents : has note.i_flags extents_fl ≡ true
unfolding has
note_extents = refl

bs_pos : 0 < block_size disk
unfolding block_size
bs_pos = omega arith

bs_small : block_size disk < 2 ^ 31
unfolding block_size
bs_small = omega arith

some_blocks : get_blocks note ≢ 0
unfolding get_blocks
some_blocks e = absurd (omega arith)

src_small : (i : ℕ) → src i < 2 ^ 8
src_small i = omega arith

-- The one extent of the file ends before its block 5.
abbrev note_extent : ℕ → Extent
note_extent i = record { ee_block = 0; ee_len = 4; ee_start_hi = 0; ee_start_lo = 20 }

note_entry : (i : ℕ) → i < 1 → extent_of note.i_block i ≡ ok (note_extent i)
unfolding extent_of
note_entry zero lt = refl
note_entry (suc i) lt = absurd (omega arith)

note-IsRootLeaf : IsRootLeaf note.i_block 1 note_extent
unfolding header_of
note-IsRootLeaf = record {
  eh_max = 4;
  few = omega arith;
  header = refl;
  array = record {
    held = note_entry;
    fits = λ i lt. omega arith;
    hi_in = λ i lt. omega arith;
    lo_in = λ i lt. omega arith;
  };
}

write_data-hole_example :
    (d' : Mem) × (write_data disk dev 1 1 none note d_bitmap (run src 5122 10) 5122 zeroes
      ≡ ok (record { ret = 10; inode = set_size note 5132; d_bitmap = d_bitmap; disk = d' }))
    × ((j : ℕ) → j < 10 → memory-IsBytes.byte d' (2 + j) ≡ src (5122 + j))
unfolding block_size
write_data-hole_example =
    write_data-hole disk dev 0 note d_bitmap note_extents 65536 memory-IsBytes src zeroes 1 none
      5122 10 1 note_extent src_small bs_pos bs_small (omega arith) some_blocks (omega arith)
      (omega arith) (omega arith) note-IsRootLeaf (λ j a b. omega arith)
