-- ===== src/Disk/Laws.antt =====
-- What the program relies on of the device under `pread` and `pwrite`, and what the reads and
-- writes of src/disk.c are then.
use Prim.Native.Nat.{min}
use kfs.Base.{
  ℕ, ◌+◌, ◌-◌, ◌^◌, ◌<◌, ◌≤◌, ◌≡◌, refl, List, some, ok, length, arith, ◌⊎◌, All, ==-true, ==-false,
  if◌then◌else◌, ltb,
}
use kfs.Disk.{Pread, Device, disk_read, disk_write, DiskCtx, disk_ctx_read}

-- Two ranges of the device that do not meet.
abbrev pub Apart : ℕ → ℕ → ℕ → ℕ → Type 0
Apart a n b m = (a + n ≤ b) ⊎ (b + m ≤ a)

-- The documented behaviour of `pread` and `pwrite` on a device of `size` bytes: within it they are
-- whole; what was written is read back, and a range that was not written to stays.
pub record IsDevice (dev : Device) (size : ℕ) : Type 0 where
  pub pread_in :
      (d : dev.Disk) (a n : ℕ)
      → a + n ≤ size
      → (bytes : List ℕ) × (dev.pread d a n ≡ some bytes)
        × (length bytes ≡ n)
        × All (λ b. b < 2 ^ 8) bytes
  pub pwrite_in :
      (d : dev.Disk) (a : ℕ) (bytes : List ℕ)
      → a + length bytes ≤ size
      → (d' : dev.Disk) × (dev.pwrite d a bytes ≡ some (length bytes, d'))
  pub read_back :
      (d d' : dev.Disk) (a : ℕ) (bytes : List ℕ)
      → All (λ b. b < 2 ^ 8) bytes
      → dev.pwrite d a bytes ≡ some (length bytes, d')
      → dev.pread d' a (length bytes) ≡ some bytes
  pub elsewhere :
      (d d' : dev.Disk) (a : ℕ) (bytes : List ℕ) (b m : ℕ)
      → dev.pwrite d a bytes ≡ some (length bytes, d')
      → Apart a (length bytes) b m
      → dev.pread d' b m ≡ dev.pread d b m

module _ (dev : Device) {size : ℕ} (v : IsDevice dev size) where
  pub disk_read-in :
      (d : dev.Disk) (a n : ℕ)
      → a + n ≤ size
      → (bytes : List ℕ) × (disk_read (dev.pread d) a n ≡ ok bytes)
        × (length bytes ≡ n)
        × All (λ b. b < 2 ^ 8) bytes
  unfolding disk_read
  disk_read-in d a n h =
      let (bytes, read, len, small) = v.pread_in d a n h in
      (bytes, rw (read, disk_read, ==-true (length bytes) n len), len, small)

  -- A write within the device succeeds; the bytes are read back, and any range that it does not
  -- meet reads as before.
  pub disk_read-write :
      (d : dev.Disk) (a : ℕ) (bytes : List ℕ)
      → a + length bytes ≤ size
      → All (λ b. b < 2 ^ 8) bytes
      → (d' : dev.Disk) × (disk_write dev d a bytes ≡ ok d')
        × (disk_read (dev.pread d') a (length bytes) ≡ ok bytes)
        × ((b m : ℕ)
            → Apart a (length bytes) b m
            → disk_read (dev.pread d') b m ≡ disk_read (dev.pread d) b m)
  unfolding disk_read disk_write
  disk_read-write d a bytes h small =
      let (d', done) = v.pwrite_in d a bytes h in
      (
        d',
        rw (done, disk_write, ==-true (length bytes) (length bytes) refl),
        rw (
          v.read_back d d' a bytes small done,
          disk_read,
          ==-true (length bytes) (length bytes) refl,
        ),
        λ b m apart. rw (v.elsewhere d d' a bytes b m done apart, disk_read),
      )

-- What a context has left is cut to what is asked for.
cut_lem : (size left : ℕ) → (if ltb left size then left else size) ≡ min size left
cut_lem size left = ground (arith)

-- A context with bytes left, on a device that answers: a read returns the next bytes from its
-- offset on, as many as asked for or all that are left, and the context then covers exactly the
-- bytes behind them.
pub disk_ctx_read-advances :
    (pread : Pread) (dctx : DiskCtx) (size : ℕ) (bytes : List ℕ)
    → 0 < dctx.size
    → pread dctx.cur (min size dctx.size) ≡ some bytes
    → length bytes ≡ min size dctx.size
    → (dctx' : DiskCtx) × (disk_ctx_read pread dctx size ≡ ok (bytes, dctx'))
      × (dctx'.cur ≡ dctx.cur + length bytes)
      × (dctx'.cur + dctx'.size ≡ dctx.cur + dctx.size)
unfolding disk_ctx_read disk_read
disk_ctx_read-advances pread dctx size bytes pos read len =
    let n = min size dctx.size in
    (
      record { cur = dctx.cur + n; size = dctx.size - n },
      rw (==-false dctx.size 0 (omega arith), cut_lem size dctx.size)
          (rw (read, disk_read, ==-true (length bytes) n len)),
      omega arith,
      omega arith,
    )
