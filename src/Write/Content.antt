-- ===== src/Write/Content.antt =====
-- What a write leaves of the file (src/op_write.c), and what a read of it gives then (src/op_read.c).
use kfs.Base.{
  Res, ℕ, ◌+◌, ◌-◌, ◌*◌, ◌/◌, ◌%◌, ◌^◌, ◌<◌, ◌≡◌, ◌≢◌, refl, sym, ◌∙◌, List, length, Option, some,
  true, ok, ◌>>=◌, ◌==◌, if◌then◌else◌, u32, u64, as_int, as_int-small, ==-true, ==-false,
}
use kfs.Ext4.Super.{SuperBlock, block_size, blocks2bytes}
use kfs.Disk.{Device}
use kfs.Bitmap.{Bitmap}
use kfs.Extents.{get_pblock}
use kfs.Inode.{Inode, get_blocks, set_size, has, extents_fl}
use kfs.Inode.Pblocks.{get_data_pblock}
use kfs.Read.Runs.{run}
use kfs.Read.Content.{Mapped}
use kfs.Write.{Written, write_from, place_block, write_data}
use kfs.Write.Bytes.{IsBytes}
use kfs.Write.Piece.{Placed, Stored}

module _ (sb : SuperBlock) (dev : Device) (depth : ℕ) (inode : Inode) (d_bitmap : Bitmap)
    (extents : has inode.i_flags extents_fl ≡ true) where
  lookup_of :
      (d : dev.Disk) (l : ℕ)
      → get_data_pblock sb (dev.pread d) depth inode l
        ≡ get_pblock sb (dev.pread d) depth inode.i_block l
  unfolding get_data_pblock
  lookup_of d l = rw extents refl

  pub within_run :
      (fuel : ℕ) (idx : Option ℕ) (buf : List ℕ) (offset p total last off : ℕ) (s : Option ℕ)
      (d d' : dev.Disk)
      → get_blocks inode ≢ 0
      → u64 (offset + length buf) ≡ total
      → length buf < 2 ^ 31
      → u64 (total + 2 ^ 64 - 1) ≡ last
      → offset / block_size sb ≡ last / block_size sb
      → get_data_pblock sb (dev.pread d) depth inode (u32 (offset / block_size sb)) ≡ ok (p, s)
      → u32 (offset % block_size sb) ≡ off
      → write_from sb dev depth buf (u64 (blocks2bytes sb p + off)) (length buf) d ≡ ok d'
      → write_data sb dev depth fuel idx inode d_bitmap buf offset d
        ≡ ok (record {
          ret = length buf;
          inode = set_size inode total;
          d_bitmap = d_bitmap;
          disk = d';
        })
  unfolding write_data place_block
  within_run fuel idx buf offset p total last off s d d' some_ t int_ e one found o wrote =
      rw
        (
          write_data,
          t,
          e,
          ==-true (offset / block_size sb) (last / block_size sb) one,
          ==-false (get_blocks inode) 0 some_,
          found,
          ◌>>=◌,
          o,
          wrote,
          ◌>>=◌,
          ==-true (as_int (length buf)) (length buf) (as_int-small (length buf) int_),
          t,
        )
        refl

  pub replied :
      (total a b : ℕ) (d' : dev.Disk)
      → a ≡ b
      → ◌≡◌ {A = Res (Written dev.Disk)}
          (ok (record { ret = a; inode = set_size inode total; d_bitmap = d_bitmap; disk = d' }))
          (ok (record { ret = b; inode = set_size inode total; d_bitmap = d_bitmap; disk = d' }))
  replied total a b d' e = rw e refl

  -- The whole file is in extents, each block at a place of its own.
  module _ (pblock : ℕ → ℕ) (blocks size : ℕ) (v : IsBytes dev size)
      (mapped : (d : dev.Disk) → Mapped sb (dev.pread d) depth inode pblock blocks size)
      (apart : (l m : ℕ) → l < blocks → m < blocks → pblock l ≡ pblock m → l ≡ m)
      (bs_pos : 0 < block_size sb) (bs_small : block_size sb < 2 ^ 31) (size_small : size < 2 ^ 64)
      (blocks_small : blocks < 2 ^ 32) (file_small : blocks * block_size sb < 2 ^ 64)
      (some_blocks : get_blocks inode ≢ 0) (disk : dev.Disk) (src : ℕ → ℕ)
      (small : (i : ℕ) → src i < 2 ^ 8) where
    abbrev bs : ℕ
    bs = block_size sb

    pub placed : Placed sb dev depth inode.i_block pblock blocks size
    placed = record {
      lookup = λ d l lt.
          let (n, e, _, _, _) = (mapped d).lookup l lt in (some n, sym (lookup_of d l) ∙ e);
      on_disk = λ l lt. (mapped disk).on_disk l lt;
      apart = apart;
    }

    -- The disk after the write: the file's bytes from `offset` on are those of the buffer, and no byte
    -- of the disk has changed besides.
    abbrev pub Stores : (offset n : ℕ) → dev.Disk → Type 0
    Stores offset n d' =
        Stored sb dev depth inode.i_block pblock blocks size v placed bs_pos bs_small size_small
          blocks_small file_small src offset n disk d'

    -- What `op_write` returns: the bytes of the last block that it wrote.
    abbrev pub returned : (offset n : ℕ) → ℕ
    returned offset n =
        let total = offset + n in
        if offset / bs == (total - 1) / bs then n else total - (total - 1) / bs * bs

    -- What a write comes to.
    abbrev pub Writes : (fuel : ℕ) (idx : Option ℕ) (offset n : ℕ) → Type 0
    Writes fuel idx offset n =
        (d' : dev.Disk) × (write_data sb dev depth fuel idx inode d_bitmap (run src offset n) offset
            disk
          ≡ ok (record {
            ret = returned offset n;
            inode = set_size inode (offset + n);
            d_bitmap = d_bitmap;
            disk = d';
          }))
        × Stores offset n d'
