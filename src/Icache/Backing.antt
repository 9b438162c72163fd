-- ===== src/Icache/Backing.antt =====
-- What the inode cache needs of the disk under it: a table of inodes that can be written one by
-- one (src/cache.c, `inode_get_offset` of src/inode.c).
use kfs.Base.{sym, ℕ, ◌+◌, ◌≤◌, ◌≡◌, List, ok, arith, ◌≢◌, ◌>>=◌}
use kfs.Ext4.Super.{SuperBlock}
use kfs.Ext4.Group.{GroupDesc}
use kfs.Disk.{Device}
use kfs.Disk.Laws.{IsDevice, Apart, disk_read-write}
use kfs.Inode.{get_offset}
use kfs.Inode.Bytes.{
  inode_bytes, bytes_of, InRange, inode_of-bytes_of, bytes_of-length, bytes_of-All,
}
use kfs.Icache.{read_inode, icache_write_back, IcacheEntry}

-- The numbers in `Valid` have their own places on a device of `size` bytes.
pub record IsTable (sb : SuperBlock) (gdt : List GroupDesc) (size : ℕ) (Valid : ℕ → Type 0)
    : Type 0 where
  pub placed :
      (n : ℕ) → Valid n → (off : ℕ) × (get_offset sb gdt n ≡ ok off) × (off + inode_bytes ≤ size)
  pub apart :
      (m n a b : ℕ)
      → Valid m
      → Valid n
      → m ≢ n
      → get_offset sb gdt m ≡ ok a
      → get_offset sb gdt n ≡ ok b
      → Apart a inode_bytes b inode_bytes

-- The interface between the cache and the disk: the inode of a valid number can be written, is then
-- read back, and the inodes of the other valid numbers read as before.
pub record Backing (sb : SuperBlock) (gdt : List GroupDesc) (dev : Device) (Valid : ℕ → Type 0)
    : Type 0 where
  pub write_back :
      (disk : dev.Disk) (e : IcacheEntry)
      → Valid e.inode_idx
      → InRange e.inode
      → (disk' : dev.Disk) × (icache_write_back sb gdt dev disk e ≡ ok disk')
        × (read_inode sb gdt dev disk' e.inode_idx ≡ ok e.inode)
        × ((m : ℕ)
            → Valid m
            → m ≢ e.inode_idx
            → read_inode sb gdt dev disk' m ≡ read_inode sb gdt dev disk m)

module _ (sb : SuperBlock) (gdt : List GroupDesc) (dev : Device) (Valid : ℕ → Type 0)
    {size : ℕ} where
  -- A device that behaves, and inodes that have their own places on it, are such a table: an inode
  -- whose fields are in the range of their types is read back as it was written by
  -- `icache_write_back`, and the other inodes are untouched.
  pub table-Backing : IsDevice dev size → IsTable sb gdt size Valid → Backing sb gdt dev Valid
  unfolding read_inode icache_write_back
  table-Backing honest table = record { write_back = written }
    where
      written :
          (disk : dev.Disk) (e : IcacheEntry)
          → Valid e.inode_idx
          → InRange e.inode
          → (disk' : dev.Disk) × (icache_write_back sb gdt dev disk e ≡ ok disk')
            × (read_inode sb gdt dev disk' e.inode_idx ≡ ok e.inode)
            × ((m : ℕ)
                → Valid m
                → m ≢ e.inode_idx
                → read_inode sb gdt dev disk' m ≡ read_inode sb gdt dev disk m)
      written disk e valid small =
          let (off, at, fits) = table.placed e.inode_idx valid in
          let len = bytes_of-length e.inode small in
          let (disk', done, back, others) =
            disk_read-write dev honest disk off (bytes_of e.inode) (omega arith)
              (bytes_of-All e.inode small) in
          (
            disk',
            rw (icache_write_back, at, ◌>>=◌) done,
            rw (read_inode, at, ◌>>=◌) (rw (rw len at back) (inode_of-bytes_of e.inode small)),
            λ m valid_m other.
                let (off_m, at_m, fits_m) = table.placed m valid_m in
                let apart =
                  table.apart e.inode_idx m off off_m valid valid_m (λ same. other (sym same)) at
                    at_m in
                rw (read_inode, at_m, ◌>>=◌) (rw (others off_m inode_bytes (rw len apart))),
          )
