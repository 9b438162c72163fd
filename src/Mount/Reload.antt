-- ===== src/Mount/Reload.antt =====
-- The bitmaps that `bitmap_init` reads (src/bitmap.c) once the loop of src/op_destory.c has written
-- them back.
use kfs.Base.{
  ℕ, zero, suc, ◌+◌, ◌<◌, ◌≤◌, ◌≡◌, refl, ◌∙◌, List, [], ◌∷◌, some, Bool, true, false, Bool-cases,
  inl, inr, ok, get_elem?, ◌>>=◌, arith, if◌then◌else◌, u32,
}
use kfs.Ext4.Super.{SuperBlock, blocks2bytes, n_block_groups}
use kfs.Ext4.Group.{GroupDesc, inode_bitmap, block_bitmap}
use kfs.Disk.{Device, Pread, disk_read}
use kfs.Disk.Laws.{IsDevice}
use kfs.Bitmap.{Bitmap, BitmapGroup, valid}
use kfs.Mount.{
  group_is_dirty, read_group, read_groups, bitmap_init, save_bitmaps, inode_bytes_of,
  block_bytes_of,
}
use kfs.Mount.Save.{Layout, save_bitmaps-saved}

module _ (sb : SuperBlock) (gdt : List GroupDesc) (num : ℕ) (reg : Bool → ℕ → BitmapGroup) where
  -- The descriptors say where the groups' bitmaps are.
  abbrev pub Described : Type 0
  Described =
      (k : ℕ)
      → k < num
      → (desc : GroupDesc) × (get_elem? gdt k ≡ some desc)
        × (blocks2bytes sb (inode_bitmap desc) ≡ (reg true k).off)
        × (blocks2bytes sb (block_bitmap desc) ≡ (reg false k).off)

  -- The groups from `i` on as they are after a start: clean, with the bytes that they had.
  abbrev pub clean : Bool → (rounds i : ℕ) → List BitmapGroup
  clean b zero i = []
  clean b (suc rounds) i =
      record { bitmap = (reg b i).bitmap; off = (reg b i).off; status = valid }
      ∷ clean b rounds (i + 1)

  read_groups_lem :
      (pread : Pread) (rounds i : ℕ)
      → i + rounds ≤ num
      → Described
      → ((b : Bool) (k : ℕ)
          → k < num
          → disk_read pread (reg b k).off (if b then inode_bytes_of sb else block_bytes_of sb)
            ≡ ok (reg b k).bitmap)
      → read_groups sb gdt pread rounds i ≡ ok (clean true rounds i, clean false rounds i)
  unfolding read_groups read_group
  read_groups_lem pread zero i le described holds = refl
  read_groups_lem pread (suc rounds) i le described holds =
      let (desc, at, e, f) = described i (omega arith) in
      let rest = read_groups_lem pread rounds (i + 1) (omega arith) described holds in
      rw
        (
          at,
          ◌>>=◌,
          read_group,
          e,
          holds true i (omega arith),
          ◌>>=◌,
          read_group,
          f,
          holds false i (omega arith),
          ◌>>=◌,
          rest,
        )
        refl

  init_lem :
      (pread : Pread) (gs hs : List BitmapGroup)
      → u32 (n_block_groups sb) ≡ num
      → read_groups sb gdt pread num 0 ≡ ok (gs, hs)
      → bitmap_init sb gdt pread
        ≡ ok (record { group = gs; group_num = num }, record { group = hs; group_num = num })
  unfolding bitmap_init
  init_lem pread gs hs groups got = rw (bitmap_init, groups, got) refl

  -- The bitmaps are written back, and a later start reads them: where no two groups overlap on the disk
  -- and the groups that are not dirty are on it, both bitmaps come back with the bytes that they had in
  -- memory, all groups clean.
  pub bitmap_init-save_bitmaps :
      (dev : Device) (size : ℕ) (v : IsDevice dev size) (i_bitmap d_bitmap : Bitmap)
      (layout : Layout dev size v sb i_bitmap d_bitmap num reg) (d : dev.Disk)
      → u32 (n_block_groups sb) ≡ num
      → Described
      → ((b : Bool) (k : ℕ)
          → k < num
          → group_is_dirty dev (reg b k) ≡ false
          → disk_read
              (dev.pread d)
              (reg b k).off
              (if b then inode_bytes_of sb else block_bytes_of sb)
            ≡ ok (reg b k).bitmap)
      → (d' : dev.Disk) × (save_bitmaps dev sb i_bitmap d_bitmap num 0 d ≡ ok d')
        × (bitmap_init sb gdt (dev.pread d')
            ≡ ok (
              record { group = clean true num 0; group_num = num },
              record { group = clean false num 0; group_num = num },
            ))
  bitmap_init-save_bitmaps dev size v i_bitmap d_bitmap layout d groups described coherent =
      let (d', run, (saved, _)) =
        save_bitmaps-saved dev size v sb i_bitmap d_bitmap num reg layout num 0 d (omega arith) in
      let holds : (b : Bool) (k : ℕ)
          → k < num
          → disk_read (dev.pread d') (reg b k).off
              (if b then inode_bytes_of sb else block_bytes_of sb)
            ≡ ok (reg b k).bitmap =
        λ b k lt. elim (Bool-cases (group_is_dirty dev (reg b k))) [
          | inl y ↦ saved b k (omega arith) (omega arith) ∙ rw y refl
          | inr x ↦ saved b k (omega arith) (omega arith) ∙ rw x (coherent b k lt x)
        ] in
      (
        d',
        run,
        init_lem (dev.pread d') (clean true num 0) (clean false num 0) groups
            (read_groups_lem (dev.pread d') num 0 (omega arith) described holds),
      )
