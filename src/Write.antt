-- ===== src/Write.antt =====
-- Writes of a file's bytes (src/op_write.c). `buf` is the caller's buffer, which has `size` bytes. What
-- `disk_write` returns is an `int`, which is compared with a `size_t`.
pub mod Bytes
pub mod Piece
pub mod Loop
pub mod Content
pub mod Hole
use kfs.Base.{
  ℕ, zero, suc, ◌+◌, ◌-◌, ◌*◌, ◌/◌, ◌%◌, ◌^◌, List, [], ◌++◌, Option, none, some, Bool, true, false,
  not, Res, ok, fault, assert, out_of_fuel, out_of_range, or_out_of_range, load, length, take, drop,
  ◌>>=◌, ◌>>◌, ◌==◌, ltb, leb, if◌then◌else◌, u32, u64, as_int,
}
use kfs.Ext4.Super.{SuperBlock, block_size, blocks2bytes}
use kfs.Ext4.Group.{GroupDesc}
use kfs.Disk.{Device, disk_write}
use kfs.Bitmap.{Bitmap, pblock_find, inode_pblock_num}
use kfs.Extents.{get_pblock}
use kfs.Inode.{Inode, get_blocks, set_size, check_permission, write}
use kfs.Inode.Create.{init_pblock}
use kfs.Inode.Pblocks.{get_data_pblock}
use kfs.Icache.{Icache, get_by_number, change_entry}
use kfs.Attr.{Errno, enoent, eacces, edit, number_of}

-- `-EIO`, its sign extended to 64 bits
abbrev pub minus_eio : ℕ
minus_eio = 2 ^ 64 - 5

-- What `op_write` leaves: its return value, the inode, the data bitmap and the disk.
pub record Written (Disk : Type 0) : Type 0 where
  pub ret : ℕ
  pub inode : Inode
  pub d_bitmap : Bitmap
  pub disk : Disk

module _ (sb : SuperBlock) (dev : Device) (depth : ℕ) where
  -- `disk_write` of the first `size` bytes of a buffer.
  unfoldable pub write_from : List ℕ → (where_ size : ℕ) → dev.Disk → Res dev.Disk
  write_from buf where_ size disk = elim (leb size (length buf)) [
    | true ↦ disk_write dev disk where_ (take size buf)
    | false ↦ fault out_of_range
  ]

  -- The loop over the blocks: what the last write returned, what remains, and the disk. There is no
  -- remainder where the handler returned in the loop.
  unfoldable pub write_loop :
      ℕ
      → List ℕ
      → (total start_lblock end_lblock start_block_off : ℕ) → (lblock ret remain : ℕ) → List ℕ
      → dev.Disk
      → Res (ℕ × Option ℕ × dev.Disk)
  write_loop zero i_block total start_lblock end_lblock start_block_off lblock ret remain buf disk =
      fault out_of_fuel
  write_loop (suc fuel) i_block total start_lblock end_lblock start_block_off lblock ret remain buf
        disk =
      elim (leb lblock end_lblock) [
        | false ↦ ok (ret, some remain, disk)
        | true ↦ (do
          let block_off = if lblock == start_lblock then start_block_off else 0
          let size =
              if lblock == end_lblock
              then u64 (total + 2 ^ 64 - u64 (lblock * block_size sb))
              else block_size sb - block_off
          assert (leb size (block_size sb))
          (pblock, _) ← get_pblock sb (dev.pread disk) depth i_block (u32 lblock)
          disk' ← write_from buf (u64 (blocks2bytes sb pblock + block_off)) size disk
          elim (as_int size == size) [
            | false ↦ ok (minus_eio, none, disk')
            | true ↦
                write_loop fuel i_block total start_lblock end_lblock start_block_off
                  (u64 (lblock + 1)) size (u64 (remain + 2 ^ 64 - size)) (drop size buf) disk'
          ])
      ]

  -- The place of a write within one block. An inode without blocks gets its first ones; the variable
  -- with its number is not set where the inode came by its handle, and to use it then is undefined.
  unfoldable pub place_block : Option ℕ → Inode → Bitmap → ℕ → dev.Disk → Res (ℕ × Inode × Bitmap)
  place_block inode_idx inode d_bitmap lblock disk = elim (get_blocks inode == 0) [
    | true ↦ (do
      n ← or_out_of_range inode_idx
      pblock ← pblock_find sb d_bitmap n inode_pblock_num
      (inode', d_bitmap') ← init_pblock sb d_bitmap inode pblock
      ok (pblock, inode', d_bitmap'))
    | false ↦ (do
      (pblock, _) ← get_data_pblock sb (dev.pread disk) depth inode (u32 lblock)
      ok (pblock, inode, d_bitmap))
  ]

  -- `op_write` behind the check of permissions.
  unfoldable pub write_data :
      ℕ → Option ℕ → Inode → Bitmap → List ℕ → (offset : ℕ) → dev.Disk → Res (Written dev.Disk)
  write_data fuel inode_idx inode d_bitmap buf offset disk = do
    let size = length buf
    let total = u64 (offset + size)
    let start_lblock = offset / block_size sb
    let end_lblock = u64 (total + 2 ^ 64 - 1) / block_size sb
    let start_block_off = u32 (offset % block_size sb)
    elim (start_lblock == end_lblock) [
      | true ↦ (do
        (pblock, inode', d_bitmap') ← place_block inode_idx inode d_bitmap start_lblock disk
        disk' ← write_from buf (u64 (blocks2bytes sb pblock + start_block_off)) size disk
        elim (as_int size == size) as (λ _. Res (Written dev.Disk)) [
          | false ↦
              ok (record { ret = minus_eio; inode = inode'; d_bitmap = d_bitmap'; disk = disk' })
          | true ↦ ok (record {
            ret = size;
            inode = set_size inode' total;
            d_bitmap = d_bitmap';
            disk = disk';
          })
        ])
      | false ↦ (do
        (ret, remain, disk') ←
            write_loop fuel inode.i_block total start_lblock end_lblock start_block_off start_lblock
              0 size buf disk
        elim remain as (λ _. Res (Written dev.Disk)) [
          | none ↦ ok (record { ret = ret; inode = inode; d_bitmap = d_bitmap; disk = disk' })
          | some left ↦ (do
            assert (left == 0)
            ok (record {
              ret = ret;
              inode = set_size inode total;
              d_bitmap = d_bitmap;
              disk = disk';
            }))
        ])
    ]

  -- `op_write`: the error or the return value, and what there is then.
  unfoldable pub op_write :
      List GroupDesc
      → ℕ
      → Icache
      → Bitmap
      → dev.Disk
      → (cntx : Option (ℕ × ℕ)) → (fh by_path : ℕ) → List ℕ
      → (offset : ℕ) → Res ((Option Errno × ℕ) × Icache × Bitmap × dev.Disk)
  op_write gdt fuel icache d_bitmap disk cntx fh by_path buf offset = do
    found ← get_by_number sb gdt dev icache disk (number_of fh by_path)
    elim found as (λ _. Res ((Option Errno × ℕ) × Icache × Bitmap × dev.Disk)) [
      | none ↦ ok ((some enoent, 0), icache, d_bitmap, disk)
      | some (ic, disk₁, i) ↦ (do
        e ← load ic.entries i
        elim (check_permission e.inode cntx write)
            as (λ _. Res ((Option Errno × ℕ) × Icache × Bitmap × dev.Disk)) [
              | false ↦ ok ((some eacces, 0), ic, d_bitmap, disk₁)
              | true ↦ (do
                w ←
                    write_data fuel (if fh == 0 then some by_path else none) e.inode d_bitmap buf
                      offset disk₁
                ic' ← change_entry sb gdt dev ic i (edit (λ _. w.inode))
                ok ((none, w.ret), ic', w.d_bitmap, w.disk))
            ])
    ]
