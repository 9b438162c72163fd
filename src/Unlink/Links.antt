-- ===== src/Unlink/Links.antt =====
-- What becomes of an inode, of its number and of its blocks (src/op_unlink.c, src/op_rmdir.c).
use kfs.Base.{
  ok_injective, first_part, Res, List, put_u16, put_u32, bit_and, ◌>>>◌, mask_16, mask_32, leb-true,
  ◌≤◌, ℕ, ◌+◌, ◌-◌, ◌^◌, ◌<◌, ◌≡◌, refl, sym, ap, ◌∙◌, true, false, ok, ◌>>=◌, u16, Option, some,
  if◌then◌else◌, arith, ==-false,
}
use kfs.Ext4.Super.{SuperBlock}
use kfs.Bitmap.{Bitmap, pblock_set, inode_pblock_num}
use kfs.Bitmap.WellFormed.{IsBitmap, group_count}
use kfs.Bitmap.Inodes.{InodeNumber, SetsInode, inode_set_lem}
use kfs.Inode.{
  Inode, get_size, set_size, set_blocks, set_gid, set_uid, has, s_ifdir, s_ifreg, s_iflnk,
}
use kfs.Inode.Create.{new_inode, init_pblock, with_pblock}
use kfs.Inode.Fields.{has-kind}
use kfs.Icache.{IcacheEntry, set_dirty, set_inval}
use kfs.Unlink.{drop_link, target_in_inode, unlink_inode, is_dir, rmdir_inode}

module _ (sb : SuperBlock) (i_bitmap d_bitmap : Bitmap) (entry : IcacheEntry) (n : ℕ) where
  -- The entry with `k` links.
  abbrev pub with_links : ℕ → IcacheEntry
  with_links k = record entry { inode = record entry.inode { i_links_count = k } }

  dropped :
      (k : ℕ) → u16 (entry.inode.i_links_count + 2 ^ 16 - 1) ≡ k → drop_link entry ≡ with_links k
  unfolding drop_link
  dropped k e = ap with_links e

  -- `unlink_inode` of an inode with more links than one: it has one less, its entry is dirty, and
  -- neither bitmap changes.
  pub unlink_inode-shared :
      1 < entry.inode.i_links_count
      → entry.inode.i_links_count < 2 ^ 16
      → unlink_inode sb i_bitmap d_bitmap entry n
        ≡ ok (record {
          entry = set_dirty (with_links (entry.inode.i_links_count - 1));
          i_bitmap = i_bitmap;
          d_bitmap = d_bitmap;
        })
  unfolding unlink_inode
  unlink_inode-shared many small =
      let less = dropped (entry.inode.i_links_count - 1) (omega arith) in
      rw
        (
          unlink_inode,
          less,
          ==-false (entry.inode.i_links_count - 1) 0 (λ e. absurd (omega arith)),
          less,
        )
        refl

  module _ (v : IsBitmap sb.s_inodes_per_group (group_count sb) i_bitmap)
      (number : InodeNumber sb n) (last : entry.inode.i_links_count ≡ 1) where
    none_left : drop_link entry ≡ with_links 0
    none_left = dropped 0 (omega arith)

    same_test : target_in_inode (with_links 0).inode ≡ target_in_inode entry.inode
    unfolding target_in_inode get_size
    same_test = refl

    taken_for_link :
        (perm : ℕ)
        → perm < 2 ^ 12
        → entry.inode.i_mode ≡ s_ifreg + perm
        → get_size entry.inode ≤ 60
        → target_in_inode entry.inode ≡ true
    unfolding target_in_inode
    taken_for_link perm lt kind short =
        let link : has entry.inode.i_mode s_iflnk ≡ true = rw kind (has-kind 8 perm 10 lt) in
        rw (link, leb-true (get_size entry.inode) 60 short) refl

    -- `unlink_inode` of the last link of a regular file of at most 60 bytes, whatever its permission
    -- bits: its number is free, no other number changes, its entry is no longer valid, and the data
    -- bitmap is as it was, so the blocks that the file has stay used.
    pub unlink_inode-keeps_blocks :
        (perm : ℕ)
        → perm < 2 ^ 12
        → entry.inode.i_mode ≡ s_ifreg + perm
        → get_size entry.inode ≤ 60
        → (bm' : Bitmap) × (unlink_inode sb i_bitmap d_bitmap entry n
            ≡ ok (record { entry = set_inval (with_links 0); i_bitmap = bm'; d_bitmap = d_bitmap }))
          × IsBitmap sb.s_inodes_per_group (group_count sb) bm'
          × SetsInode sb i_bitmap n false bm'
    unfolding unlink_inode
    unlink_inode-keeps_blocks perm lt kind size =
        let short = taken_for_link perm lt kind size in
        let (bm', done, v', sets) = inode_set_lem sb v n false number in
        (bm', rw (unlink_inode, none_left, done, ◌>>=◌, none_left, same_test, short) refl, v', sets)

  new_links :
      (mode now : ℕ) (cntx : Option (ℕ × ℕ)) (inode : Inode)
      → new_inode sb mode now cntx ≡ ok inode
      → has mode s_ifdir ≡ true
      → (inode.i_links_count ≡ 2) × (inode.i_mode ≡ u16 mode)
  unfolding new_inode set_size set_blocks set_gid set_uid
  new_links mode now cntx inode made dir =
      let made' = ok_injective made in
      let links : (if has mode s_ifdir then 2 else 1) ≡ inode.i_links_count =
        ap (λ (t : Inode). t.i_links_count) made' in
      (sym links ∙ rw dir refl, sym (ap (λ (t : Inode). t.i_mode) made'))

  pblock_links :
      (fresh inode : Inode) (pblock : ℕ)
      → with_pblock fresh pblock ≡ ok inode
      → (inode.i_links_count ≡ fresh.i_links_count) × (inode.i_mode ≡ fresh.i_mode)
  unfolding with_pblock set_blocks
  pblock_links fresh inode pblock made =
      let f₅ : List ℕ → Res Inode =
        λ b. ok (set_blocks (record fresh { i_block = b }) inode_pblock_num) in
      let f₄ : List ℕ → Res Inode = λ b. put_u16 b 16 inode_pblock_num >>= f₅ in
      let f₃ : List ℕ → Res Inode = λ b. put_u32 b 20 (bit_and pblock mask_32) >>= f₄ in
      let f₂ : List ℕ → Res Inode = λ b. put_u16 b 18 (bit_and (pblock >>> 32) mask_16) >>= f₃ in
      let f₁ : List ℕ → Res Inode = λ b. put_u32 b 12 0 >>= f₂ in
      let (b₁, _, e₁) = first_part (put_u16 fresh.i_block 2 1) f₁ inode made in
      let (b₂, _, e₂) = first_part (put_u32 b₁ 12 0) f₂ inode e₁ in
      let (b₃, _, e₃) = first_part (put_u16 b₂ 18 (bit_and (pblock >>> 32) mask_16)) f₃ inode e₂ in
      let (b₄, _, e₄) = first_part (put_u32 b₃ 20 (bit_and pblock mask_32)) f₄ inode e₃ in
      let (b₅, _, e₅) = first_part (put_u16 b₄ 16 inode_pblock_num) f₅ inode e₄ in
      let done = sym (ok_injective e₅) in
      (ap (λ (t : Inode). t.i_links_count) done, ap (λ (t : Inode). t.i_mode) done)

  init_links :
      (bm bm' : Bitmap) (fresh inode : Inode) (pblock : ℕ)
      → init_pblock sb bm fresh pblock ≡ ok (inode, bm')
      → (inode.i_links_count ≡ fresh.i_links_count) × (inode.i_mode ≡ fresh.i_mode)
  unfolding init_pblock
  init_links bm bm' fresh inode pblock made =
      let f : Inode → Res (Inode × Bitmap) =
        λ t. pblock_set sb bm pblock inode_pblock_num true >>= λ b. ok (t, b) in
      let (inode', filled, e) = first_part (with_pblock fresh pblock) f (inode, bm') made in
      let (bm₂, _, e') =
        first_part (pblock_set sb bm pblock inode_pblock_num true) (λ b. ok (inode', b))
          (inode, bm') e in
      let same : inode' ≡ inode = ap (λ (t : Inode × Bitmap). t.0) (ok_injective e') in
      pblock_links fresh inode pblock (filled ∙ ap ok same)

  -- `op_rmdir`, up to its search for the parent, of a directory as `op_mkdir` leaves it, that is, after
  -- `inode_create` and `inode_init_pblock`: one of its two links is left, so neither its number nor its
  -- blocks become free, and its entry stays in the cache.
  pub rmdir_inode-new_directory :
      (mode now pblock : ℕ) (cntx : Option (ℕ × ℕ)) (fresh : Inode) (bm bm' : Bitmap)
      → new_inode sb mode now cntx ≡ ok fresh
      → init_pblock sb bm fresh pblock ≡ ok (entry.inode, bm')
      → has mode s_ifdir ≡ true
      → is_dir (u16 mode) ≡ true
      → rmdir_inode sb i_bitmap d_bitmap entry n
        ≡ ok (
            some (record {
              entry = set_dirty (with_links 1);
              i_bitmap = i_bitmap;
              d_bitmap = d_bitmap;
            }))
  unfolding rmdir_inode
  rmdir_inode-new_directory mode now pblock cntx fresh bm bm' made filled bit dir =
      let (two, kind) = new_links mode now cntx fresh made bit in
      let (links, kind') = init_links bm bm' fresh entry.inode pblock filled in
      let less = dropped 1 (omega arith) in
      let is : is_dir entry.inode.i_mode ≡ true = ap is_dir (kind' ∙ kind) ∙ dir in
      rw (rmdir_inode, is, less, less) refl
