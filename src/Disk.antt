-- ===== src/Disk.antt =====
-- Reads and writes of the device (src/disk.c, src/disk.h). `pread` and `pwrite` of the C library
-- are parameters. `pread` gives the bytes it got, fewer than asked for at the end of the device, or
-- none where it failed; `pwrite` the number of bytes it wrote and the device after it. A read leaves
-- the device as it is, so one `pread` stands for the device while nobody writes to it.
pub mod Laws
use kfs.Base.{
  ℕ, List, Option, none, some, Res, ok, fault, assert, assert_failed, ◌>>=◌, ◌>>◌, length, ◌==◌,
  take, not, leb, out_of_range, ltb, ◌+◌, ◌-◌, ◌*◌, if◌then◌else◌, u64, u32_at,
}
use kfs.Ext4.Super.{SuperBlock, block_size, blocks2bytes}

abbrev pub Pread : Type 0
Pread = ℕ → ℕ → Option (List ℕ)

-- `__disk_read`: ASSERT((size_t)pread_ret == size). The descriptor is open from `disk_open` on.
-- The result is the bytes; the `int` that the C function returns is in the callers that look at it.
unfoldable pub disk_read : Pread → ℕ → ℕ → Res (List ℕ)
disk_read pread where_ size = elim (pread where_ size) [
  | none ↦ fault assert_failed
  | some bytes ↦ (do assert (length bytes == size); ok bytes)
]

unfoldable pub disk_read_u32 : Pread → ℕ → Res ℕ
disk_read_u32 pread where_ = do bytes ← disk_read pread where_ 4; u32_at bytes 0

unfoldable pub disk_read_block : SuperBlock → Pread → ℕ → Res (List ℕ)
disk_read_block sb pread block = disk_read pread (blocks2bytes sb block) (block_size sb)

-- A device, in its states.
pub record Device : Type 1 where
  pub Disk : Type 0
  pub pread : Disk → Pread
  pub pwrite : Disk → ℕ → List ℕ → Option (ℕ × Disk)

-- `__disk_write`: ASSERT((size_t)pwrite_ret == size)
unfoldable pub disk_write : (dev : Device) → dev.Disk → ℕ → List ℕ → Res dev.Disk
disk_write dev disk where_ bytes = elim (dev.pwrite disk where_ bytes) [
  | none ↦ fault assert_failed
  | some (written, disk') ↦ (do assert (written == length bytes); ok disk')
]

-- `disk_write_block`, from a buffer that has to hold a block.
unfoldable pub disk_write_block : SuperBlock → (dev : Device) → dev.Disk → ℕ → List ℕ → Res dev.Disk
disk_write_block sb dev disk block buf =
    if leb (block_size sb) (length buf)
    then disk_write dev disk (blocks2bytes sb block) (take (block_size sb) buf)
    else fault out_of_range

-- `struct disk_ctx`: where to read on, and how much is left.
pub record DiskCtx : Type 0 where
  pub cur : ℕ
  pub size : ℕ

-- `disk_ctx_create`
unfoldable pub disk_ctx_create : ℕ → ℕ → ℕ → Res DiskCtx
disk_ctx_create where_ size len = do
  assert (not (size == 0))
  ok (record { cur = where_; size = u64 (size * len) })

-- `__disk_ctx_read`: the bytes, and the context moved on behind them.
unfoldable pub disk_ctx_read : Pread → DiskCtx → ℕ → Res (List ℕ × DiskCtx)
disk_ctx_read pread dctx size = do
  assert (not (dctx.size == 0))
  let n = if ltb dctx.size size then dctx.size else size
  bytes ← disk_read pread dctx.cur n
  ok (bytes, record { cur = dctx.cur + n; size = dctx.size - n })
