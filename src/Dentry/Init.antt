-- ===== src/Dentry/Init.antt =====
-- The first block of a new directory (`dentry_init` of src/dentry.c).
use kfs.Base.{
  ℕ, ◌+◌, ◌-◌, ◌%◌, ◌≤◌, ◌<◌, ◌≡◌, ◌^◌, refl, ◌∙◌, List, [], ◌∷◌, ◌++◌, length, ok, arith, ◌>>=◌,
  inl, inr, le16, le32,
}
use kfs.Ext4.Super.{SuperBlock, block_size}
use kfs.Dentry.{Dcache, put_tail, dentry_init, ft_dir_code, ft_dir_csum, de_tail_size, de_dot_size}
use kfs.Dentry.Writes.{
  Writes, Holds-Frame, Holds-left, Wrote-after, store_lem, put_u16_lem, put_u32_lem,
}
use kfs.Dentry.Chain.{Entry, Fits, Chain, IsTail, tail_bytes, entry_bytes}
use kfs.Dentry.Create.{put_entry_lem}

put_tail_lem :
    (buf : List ℕ) (t : ℕ)
    → t + 12 ≤ length buf
    → Writes (put_tail buf t) t (tail_bytes ++ le32 0) buf
unfolding put_tail
put_tail_lem buf t le =
    let (buf₁, run₁, w₁) = put_u32_lem buf t 0 (omega arith) in
    let (buf₂, run₂, w₂) =
      put_u16_lem buf₁ (t + 4) de_tail_size (omega (arith, w₁.0.same_length)) in
    let (buf₃, run₃, w₃) =
      store_lem buf₂ (t + 6) 0 (omega (arith, w₁.0.same_length, w₂.0.same_length)) in
    let l₃ : length buf₃ ≡ length buf = w₃.0.same_length ∙ w₂.0.same_length ∙ w₁.0.same_length in
    let (buf₄, run₄, w₄) = store_lem buf₃ (t + 7) ft_dir_csum (omega arith) in
    let (buf₅, run₅, w₅) = put_u32_lem buf₄ (t + 8) 0 (omega (arith, w₄.0.same_length)) in
    let w₁₂ = Wrote-after t (le32 0) (le16 de_tail_size) w₁ w₂ in
    let w₁₃ = Wrote-after t (le32 0 ++ le16 de_tail_size) (0 ∷ []) w₁₂ w₃ in
    let w₁₄ = Wrote-after t (le32 0 ++ (le16 de_tail_size ++ (0 ∷ []))) (ft_dir_csum ∷ []) w₁₃ w₄ in
    (
      buf₅,
      rw (run₁, ◌>>=◌, run₂, ◌>>=◌, run₃, ◌>>=◌, run₄, ◌>>=◌) run₅,
      Wrote-after t tail_bytes (le32 0) w₁₄ w₅,
    )

abbrev pub dot : ℕ → Entry
dot inode_idx = record {
  inode_idx = inode_idx;
  rec_len = de_dot_size;
  file_type = ft_dir_code;
  name = b'.' ∷ [];
}

-- `..`; it takes what is left of the block.
abbrev pub dot_dot : ℕ → ℕ → Entry
dot_dot size parent_idx = record {
  inode_idx = parent_idx;
  rec_len = size - 24;
  file_type = ft_dir_code;
  name = b'.' ∷ (b'.' ∷ []);
}

-- `dentry_init` on a block of at least 48 bytes and at most 2 ^ 16, a multiple of 4: the buffer then
-- has the entries `.` and `..`, which fill the block up to the tail, and belongs to the first block of
-- the new directory.
pub dentry_init-Chain :
    (sb : SuperBlock) (dcache : Dcache) (parent_idx inode_idx : ℕ)
    → 48 ≤ block_size sb
    → block_size sb ≤ 2 ^ 16
    → block_size sb % 4 ≡ 0
    → length dcache.buf ≡ block_size sb
    → parent_idx < 2 ^ 32
    → inode_idx < 2 ^ 32
    → (dcache' : Dcache) × (dentry_init sb dcache parent_idx inode_idx ≡ ok dcache')
      × (dcache'.inode_idx ≡ inode_idx)
      × (dcache'.lblock ≡ 0)
      × Chain dcache'.buf 0
          (dot inode_idx ∷ (dot_dot (block_size sb) parent_idx ∷ []))
          (block_size sb - 12)
      × IsTail dcache'.buf (block_size sb - 12)
      × (length dcache'.buf ≡ block_size sb)
unfolding dentry_init
dentry_init-Chain sb dcache parent_idx inode_idx big small aligned full parent_small idx_small =
    let size = block_size sb in
    let t = size - de_tail_size in
    let d = dot inode_idx in
    let dd = dot_dot size parent_idx in
    let fits_d : Fits d = record {
      inode_small = idx_small;
      rec_small = omega arith;
      name_small = omega arith;
      named = omega arith;
      room = omega arith;
      aligned = omega arith;
    } in
    let fits_dd : Fits dd = record {
      inode_small = parent_small;
      rec_small = omega arith;
      name_small = omega arith;
      named = omega arith;
      room = omega arith;
      aligned = omega arith;
    } in
    let (buf₁, run₁, w₁) = put_tail_lem dcache.buf t (omega arith) in
    let (buf₂, run₂, w₂) =
      put_entry_lem buf₁ 0 de_dot_size d fits_d refl (omega (arith, w₁.0.same_length)) in
    let (buf₃, run₃, w₃) =
      put_entry_lem buf₂ de_dot_size (size - de_dot_size - de_tail_size) dd fits_dd (omega arith)
        (omega (arith, w₁.0.same_length, w₂.0.same_length)) in
    (
      record dcache { inode_idx = inode_idx; lblock = 0; buf = buf₃ },
      rw (run₁, ◌>>=◌, run₂, ◌>>=◌, run₃) refl,
      refl,
      refl,
      (
        (
          fits_d,
          Holds-Frame 12 11 0 (entry_bytes d) w₃.0 (inl (omega arith))
              (Holds-left buf₂ 0 (entry_bytes d) (0 ∷ []) w₂.1),
        ),
        ((fits_dd, Holds-left buf₃ 12 (entry_bytes dd) (0 ∷ []) w₃.1), omega arith),
      ),
      Holds-Frame 12 11 t tail_bytes w₃.0 (inr (omega arith)) (
          Holds-Frame 0 10 t tail_bytes w₂.0 (inr (omega arith))
            (Holds-left buf₁ t tail_bytes (le32 0) w₁.1)),
      w₃.0.same_length ∙ w₂.0.same_length ∙ w₁.0.same_length ∙ full,
    )
