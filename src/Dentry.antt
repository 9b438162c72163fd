-- ===== src/Dentry.antt =====
-- Directory entries (src/dentry.c, src/dentry.h, src/ext4/ext4_dentry.h) in the buffer of one block
-- (`struct dcache` of src/cache.h). A pointer to an entry is its place in that buffer. Names are C
-- strings without their final NUL.
pub mod Writes
pub mod Chain
pub mod Find
pub mod Create
pub mod Delete
pub mod Init
pub mod Added
use kfs.Base.{
  ℕ, take, zero, suc, ◌+◌, ◌-◌, ◌*◌, ◌/◌, ◌%◌, ◌^◌, List, [], ◌∷◌, Option, none, some, Bool, true,
  false, not, ◌&&◌, Res, ok, fault, assert, out_of_range, out_of_fuel, load, store, ◌>>=◌, ◌>>◌,
  ◌==◌, ltb, leb, if◌then◌else◌, length, u8, u16, u32, u64, u16_at, u32_at, put_u16, put_u32,
}
use kfs.Ext4.Super.{SuperBlock, block_size}
use kfs.Disk.{Pread, disk_read_block, Device, disk_write_block}
use kfs.Inode.{Inode, get_size, set_size, get_blocks}
use kfs.Inode.Pblocks.{get_data_pblock}
use kfs.Icache.{IcacheEntry, is_valid, lru_inc, set_last_de}

pub record Dcache : Type 0 where
  pub inode_idx : ℕ
  pub lblock : ℕ
  pub pblock : ℕ
  pub buf : List ℕ

-- The cached inode of a directory, and the buffer.
pub record Dir : Type 0 where
  pub entry : IcacheEntry
  pub dcache : Dcache

-- EXT4_DE_BASE_SIZE, EXT4_DE_TAIL_SIZE, EXT4_DE_DOT_SIZE, EXT4_FT_DIR_CSUM, EXT4_FT_DIR
abbrev pub de_base_size : ℕ
de_base_size = 8

abbrev pub de_tail_size : ℕ
de_tail_size = 12

abbrev pub de_dot_size : ℕ
de_dot_size = 12

abbrev pub ft_dir_csum : ℕ
ft_dir_csum = 0xDE

abbrev pub ft_dir_code : ℕ
ft_dir_code = 2

-- ALIGN_TO(n, 4)
unfoldable pub align_to_dentry : ℕ → ℕ
align_to_dentry n = if n % 4 == 0 then n else n / 4 * 4 + 4

-- DE_CALC_REC_LEN; DE_REAL_REC_LEN of an entry with a name of that length
unfoldable pub de_calc_rec_len : ℕ → ℕ
de_calc_rec_len size = align_to_dentry (de_base_size + size)

unfoldable pub de_real_rec_len : ℕ → ℕ
de_real_rec_len name_len = u16 (align_to_dentry (name_len + de_base_size))

-- strncmp of the bytes at `i` with a name, over the length of the name.
unfoldable pub name_at : List ℕ → ℕ → List ℕ → Res Bool
name_at buf i [] = ok true
name_at buf i (c ∷ name) = do
  b ← load buf i
  elim (b == c) [ true ↦ name_at buf (i + 1) name | false ↦ ok false ]

-- strncpy of a name to `i`.
unfoldable pub put_name : List ℕ → ℕ → List ℕ → Res (List ℕ)
put_name buf i [] = ok buf
put_name buf i (c ∷ name) = do buf' ← store buf i c; put_name buf' (i + 1) name

-- `dentry_has_enough_space`: true for 0, false for -ENOSPC.
unfoldable pub has_enough_space : List ℕ → ℕ → ℕ → Res Bool
has_enough_space buf de name_len = do
  de_rec_len ← u16_at buf (de + 4)
  de_name_len ← load buf (de + 6)
  let rec_len = u16 (de_calc_rec_len name_len)
  let left_space = u16 (de_rec_len + 2 ^ 16 - de_real_rec_len de_name_len)
  ok (not (ltb left_space rec_len))

-- The fields of an entry, and its name with a NUL.
unfoldable pub put_entry : List ℕ → ℕ → (inode_idx rec_len file_type : ℕ) → List ℕ → Res (List ℕ)
put_entry buf de inode_idx rec_len file_type name = do
  buf₁ ← put_u32 buf de inode_idx
  buf₂ ← store buf₁ (de + 6) (u8 (length name))
  buf₃ ← put_u16 buf₂ (de + 4) rec_len
  buf₄ ← store buf₃ (de + 7) file_type
  buf₅ ← put_name buf₄ (de + 8) (take (u8 (length name)) name)
  store buf₅ (de + 8 + u8 (length name)) 0

-- `dentry_create`: the new entry behind `de`, and the buffer.
unfoldable pub dentry_create : List ℕ → ℕ → List ℕ → (inode_idx file_type : ℕ) → Res (List ℕ × ℕ)
dentry_create buf de name inode_idx file_type = do
  left_space ← u16_at buf (de + 4)
  name_len ← load buf (de + 6)
  let rec_len = de_real_rec_len name_len
  buf₁ ← put_u16 buf (de + 4) rec_len
  buf₂ ← put_entry buf₁ (de + rec_len) inode_idx (left_space + 2 ^ 16 - rec_len) file_type name
  ok (buf₂, de + rec_len)

-- The tail that `dentry_init` writes at the end of the block.
unfoldable pub put_tail : List ℕ → ℕ → Res (List ℕ)
put_tail buf de_tail = do
  buf₁ ← put_u32 buf de_tail 0
  buf₂ ← put_u16 buf₁ (de_tail + 4) de_tail_size
  buf₃ ← store buf₂ (de_tail + 6) 0
  buf₄ ← store buf₃ (de_tail + 7) ft_dir_csum
  put_u32 buf₄ (de_tail + 8) 0

-- `dentry_init`
unfoldable pub dentry_init : SuperBlock → Dcache → (parent_idx inode_idx : ℕ) → Res Dcache
dentry_init sb dcache parent_idx inode_idx = do
  buf₁ ← put_tail dcache.buf (block_size sb - de_tail_size)
  buf₂ ← put_entry buf₁ 0 inode_idx de_dot_size ft_dir_code (b'.' ∷ [])
  buf₃ ←
      put_entry buf₂ de_dot_size parent_idx (block_size sb - de_dot_size - de_tail_size) ft_dir_code
        (b'.' ∷ b'.' ∷ [])
  ok (record dcache { inode_idx = inode_idx; lblock = 0; buf = buf₃ })

-- The entry of the sought name, and the one before it; `none` is NULL.
abbrev pub Found : Type 0
Found = Option (Option ℕ × ℕ)

-- ICACHE_GET_LAST_DE(inode) == de
abbrev pub is_at : Option ℕ → ℕ → Bool
is_at none de = false
is_at (some p) de = p == de

-- Is the name of the entry at `de` the sought one? NULL has the length 0.
unfoldable pub is_named : List ℕ → ℕ → ℕ → Option (List ℕ) → Res Bool
is_named buf de name_len none = ok (name_len == 0)
is_named buf de name_len (some name) =
    if length name == name_len then name_at buf (de + 8) name else ok false

module _ (sb : SuperBlock) (pread : Pread) (depth : ℕ) where
  -- `dcache_load_lblock`; `depth` is the fuel of the descent in the extent tree.
  unfoldable pub dcache_load_lblock : Dcache → Inode → ℕ → Res Dcache
  dcache_load_lblock dcache inode lblock = do
    (pblock, _) ← get_data_pblock sb pread depth inode (u32 lblock)
    buf ← disk_read_block sb pread pblock
    ok (record dcache { lblock = u32 lblock; pblock = u32 pblock; buf = buf })

  -- `dcache_init`
  unfoldable pub dcache_init : Dir → ℕ → Res Dir
  dcache_init dir inode_idx = do
    assert (not (inode_idx == 0))
    let entry = lru_inc dir.entry
    let dc = dir.dcache
    if dc.inode_idx == inode_idx && dc.lblock == 0 then ok (record dir { entry = entry }) else (do
      dc' ← dcache_load_lblock (record dc { inode_idx = inode_idx }) entry.inode 0
      ok (record { entry = entry; dcache = dc' }))

  -- `dentry_next`; a second round is enough where the block number fits `uint32_t`.
  unfoldable pub dentry_next : ℕ → Dir → ℕ → Res (Dir × Option ℕ)
  dentry_next zero dir offset = fault out_of_fuel
  dentry_next (suc rounds) dir offset = do
    let inode = dir.entry.inode
    let inode_size = get_size inode
    assert (leb offset inode_size)
    elim (inode_size == offset) [
      | true ↦
          (let inode' =
              (if ltb inode_size (u64 (get_blocks inode * block_size sb))
                then set_size inode (u64 (inode_size + block_size sb))
                else inode) in
            let entry : IcacheEntry = dir.entry in
            ok (record dir { entry = record entry { inode = inode' } }, none))
      | false ↦ elim (offset / block_size sb == dir.dcache.lblock) [
        | true ↦ ok (dir, some (offset % block_size sb))
        | false ↦ (do
          dc ← dcache_load_lblock dir.dcache inode (offset / block_size sb)
          dentry_next rounds (record dir { dcache = dc }) offset)
      ]
    ]

  -- The loop of `dentry_find` at `offset`; `de` is the entry passed last.
  unfoldable pub find_loop : ℕ → Option (List ℕ) → Dir → ℕ → Option ℕ → Res (Dir × Found)
  find_loop zero name dir offset de = fault out_of_fuel
  find_loop (suc fuel) name dir offset de = do
    (dir', next) ← dentry_next 2 dir offset
    elim next [
      | none ↦ ok (dir', none)
      | some de_next ↦ (do
        inode_idx ← u32_at dir'.dcache.buf de_next
        name_len ← load dir'.dcache.buf (de_next + 6)
        elim (inode_idx == 0 && name_len == 0) [
          | true ↦ (do
            file_type ← load dir'.dcache.buf (de_next + 7)
            assert (file_type == ft_dir_csum)
            elim name [
              | none ↦ ok (
                record dir' { entry = set_last_de dir'.entry de },
                elim de [ none ↦ none | some p ↦ some (none, p) ],
              )
              | some _ ↦ ok (dir', none)
            ])
          | false ↦ (do
            rec_len ← u16_at dir'.dcache.buf (de_next + 4)
            named ← is_named dir'.dcache.buf de_next name_len name
            elim named [
              | true ↦ ok (dir', some (de, de_next))
              | false ↦ find_loop fuel name dir' (u64 (offset + rec_len)) (some de_next)
            ])
        ])
    ]

  -- `dentry_find`
  unfoldable pub dentry_find : ℕ → Dir → ℕ → Option (List ℕ) → Res (Dir × Found)
  dentry_find fuel dir inode_idx name = do
    dir' ← dcache_init dir inode_idx
    find_loop fuel name dir' 0 none

  -- `dentry_last`
  unfoldable pub dentry_last : ℕ → Dir → ℕ → Res (Dir × Option ℕ)
  dentry_last fuel dir inode_idx = do
    dir' ← dcache_init dir inode_idx
    elim (if is_valid dir'.entry then dir'.entry.last_de else none) [
      | some de ↦ ok (dir', some de)
      | none ↦ (do
        (dir'', found) ← dentry_find fuel dir' inode_idx none
        ok (dir'', elim found [ none ↦ none | some (_, de) ↦ some de ]))
    ]

  -- `dentry_delete`
  unfoldable pub dentry_delete : ℕ → Dir → ℕ → List ℕ → Res Dir
  dentry_delete fuel dir inode_idx name = do
    dir' ← dcache_init dir inode_idx
    (dir'', found) ← dentry_find fuel dir' inode_idx (some name)
    elim found [
      | none ↦ assert false >> ok dir''
      | some (none, de) ↦ fault out_of_range
      | some (some de_before, de) ↦ (do
        rec_len_before ← u16_at dir''.dcache.buf (de_before + 4)
        rec_len ← u16_at dir''.dcache.buf (de + 4)
        buf ← put_u16 dir''.dcache.buf (de_before + 4) (rec_len_before + rec_len)
        let dc : Dcache = dir''.dcache
        let entry =
            (if is_at dir''.entry.last_de de
              then set_last_de dir''.entry (some de_before)
              else dir''.entry)
        ok (record { entry = entry; dcache = record dc { buf = buf } }))
    ]
