-- ===== src/Write/Hole.antt =====
-- A write to a place of a file that no extent covers (src/op_write.c): the lookup gives block 0.
use kfs.Base.{
  div-slot, ℕ, suc, ◌+◌, ◌-◌, ◌*◌, ◌/◌, ◌%◌, ◌^◌, ◌≤◌, ◌<◌, ◌≡◌, ◌≢◌, sym, ap, ◌∙◌, length, List,
  Option, none, true, inl, inr, leb-true, ◌>>=◌, ok, arith, if◌then◌else◌, u32, u64,
}
use native.Mathlib.Nat.{div-add-mod, mod-lt}
use kfs.Ext4.Super.{SuperBlock, block_size, blocks2bytes}
use kfs.Disk.{Device, Pread}
use kfs.Extents.{Extent, header_of, extent_of, block_from_ees, get_pblock, leaf_eh_max, ext_magic}
use kfs.Extents.Leaf.{IsArray, Before, block_from_ees_lem}
use kfs.Bitmap.{Bitmap}
use kfs.Inode.{Inode, get_blocks, set_size, has, extents_fl}
use kfs.Inode.Pblocks.{get_data_pblock}
use kfs.Read.Runs.{run, length-run, run-shift}
use kfs.Write.{write_from, write_data}
use kfs.Write.Bytes.{inside, IsBytes, take-run}
use kfs.Write.Piece.{write_run}
use kfs.Write.Content.{within_run, replied}

-- The extents of an inode are the `n` entries `es` of the leaf in `i_block`, as long as the tree has
-- one node.
pub record IsRootLeaf (i_block : List ℕ) (n : ℕ) (es : ℕ → Extent) : Type 0 where
  pub eh_max : ℕ
  pub few : eh_max ≤ leaf_eh_max
  pub header :
      header_of i_block
      ≡ ok (record { eh_magic = ext_magic; eh_entries = n; eh_max = eh_max; eh_depth = 0 })
  pub array : IsArray (extent_of i_block) n es

lookup_behind :
    (sb : SuperBlock) (pread : Pread) (depth : ℕ) (inode : Inode) (l n : ℕ) (es : ℕ → Extent)
    → has inode.i_flags extents_fl ≡ true
    → IsRootLeaf inode.i_block n es
    → l < 2 ^ 32
    → Before es l 0 n
    → get_data_pblock sb pread (suc depth) inode l ≡ ok (0, none)
unfolding get_data_pblock get_pblock
lookup_behind sb pread depth inode l n es extents leaf lt behind =
    let answer : block_from_ees (extent_of inode.i_block) n l ≡ ok (0, none) =
      elim (block_from_ees_lem (extent_of inode.i_block) es n l leaf.array lt) [
        | inl (k, kn, (_, hit), _) ↦ absurd (omega (arith, behind k (omega arith) kn))
        | inr (inl (k, kn, hole, _)) ↦ absurd (omega (arith, behind k (omega arith) kn))
        | inr (inr (_, e)) ↦ e
      ] in
    rw (extents, leaf.header, ◌>>=◌, leb-true leaf.eh_max leaf_eh_max leaf.few, ◌>>=◌) answer

-- A write within one block, where the inode has blocks, its extents are in a leaf in `i_block`, and each
-- of them ends at or before that block: the write succeeds, and its bytes are in block 0 of the disk, at
-- the offset that they would have in their own block.
pub write_data-hole :
    (sb : SuperBlock) (dev : Device) (depth : ℕ) (inode : Inode) (d_bitmap : Bitmap)
    (extents : has inode.i_flags extents_fl ≡ true) (size : ℕ) (v : IsBytes dev size) (src : ℕ → ℕ)
    (disk : dev.Disk) (fuel : ℕ) (idx : Option ℕ) (offset n entries : ℕ) (es : ℕ → Extent)
    → ((i : ℕ) → src i < 2 ^ 8)
    → 0 < block_size sb
    → block_size sb < 2 ^ 31
    → block_size sb ≤ size
    → get_blocks inode ≢ 0
    → offset + n < 2 ^ 64
    → 0 < n
    → offset % block_size sb + n ≤ block_size sb
    → IsRootLeaf inode.i_block entries es
    → Before es (u32 (offset / block_size sb)) 0 entries
    → (d' : dev.Disk) × (write_data sb dev
          (suc depth)
          fuel
          idx
          inode
          d_bitmap
          (run src offset n)
          offset
          disk
        ≡ ok (record {
          ret = n;
          inode = set_size inode (offset + n);
          d_bitmap = d_bitmap;
          disk = d';
        }))
      × ((j : ℕ) → j < n → v.byte d' (offset % block_size sb + j) ≡ src (offset + j))
unfolding blocks2bytes
write_data-hole sb dev depth inode d_bitmap extents size v src disk fuel idx offset n entries es
      small bs_pos bs_small on_disk some_blocks total_small pos fit leaf behind =
    let found =
      lookup_behind sb (dev.pread disk) depth inode (u32 (offset / block_size sb)) entries es
        extents leaf (omega arith) behind in
    let bs = block_size sb in
    let a = offset % bs in
    let col = mod-lt offset bs_pos in
    let len = length-run src offset n in
    let moved : ℕ → ℕ = λ x. src (offset + (x - a)) in
    let (d', wrote, bytes) =
      v.pwrite_in disk moved a n (omega arith) (λ x. small (offset + (x - a))) in
    let same : run src offset n ≡ run moved a n =
      run-shift src moved offset a n (λ j lt. ap src (omega arith)) in
    let where_ : u64 (blocks2bytes sb 0 + a) ≡ a = omega arith in
    let total : u64 (offset + length (run src offset n)) ≡ offset + n = rw len (omega arith) in
    let whole : bs * (offset / bs) + a ≡ offset = div-add-mod offset bs in
    let end_ : offset + n - 1 ≡ offset / bs * bs + (a + (n - 1)) = grind arith in
    let one : offset / bs ≡ (offset + n - 1) / bs =
      sym (ap (λ t. t / bs) end_ ∙ div-slot bs (offset / bs) (a + (n - 1)) (omega arith)) in
    let put : write_from sb dev (suc depth) (run src offset n) (u64 (blocks2bytes sb 0 + a))
          (length (run src offset n)) disk
        ≡ ok d' =
      ap (λ t. write_from sb dev (suc depth) (run src offset n) t (length (run src offset n)) disk)
        where_
      ∙ ap (λ t. write_from sb dev (suc depth) (run src offset n) a t disk) len
      ∙ write_run sb dev (suc depth) (run src offset n) (run moved a n) a n disk d' (omega arith)
          (take-run src offset n n (omega arith) ∙ same) (length-run moved a n) wrote in
    let chosen : (j : ℕ)
        → j < n
        → (if inside a n (a + j) then moved (a + j) else v.byte disk (a + j)) ≡ src (offset + j) =
      λ j lt. let y : inside a n (a + j) ≡ true = ground arith in rw y (ap src (omega arith)) in
    (
      d',
      within_run sb dev (suc depth) inode d_bitmap extents fuel idx (run src offset n) offset 0
            (offset + n) (offset + n - 1) a none disk d' some_blocks total (omega arith)
            (omega arith) one found (omega arith) put
          ∙ replied sb dev (suc depth) inode d_bitmap extents (offset + n)
              (length (run src offset n)) n d' len,
      λ j lt. bytes (a + j) ∙ chosen j lt,
    )
