-- ===== src/Inode/Digits.antt =====
-- Where the number of a block of a file without extents leads: the direct blocks and the three
-- levels of indirection (`inode_get_data_pblock` and its helpers, src/inode.c).
use kfs.Base.{
  ℕ, ◌+◌, ◌-◌, ◌*◌, ◌/◌, ◌^◌, ◌<◌, ◌≤◌, ◌≡◌, none, false, Res, ok, arith, u32, u64, ltb-true,
  ltb-false, leb-true, ◌>>=◌, div-slot, mod-slot, slot-lt, u32_at, List,
}
use mathlib.Core.Path.{fun_ext}
use native.Mathlib.Nat.{mul-le-mul}
use kfs.Ext4.Super.{SuperBlock, block_size, blocks2bytes, bytes2blocks}
use kfs.Disk.{Pread, disk_read_u32}
use kfs.Inode.{Inode, get_size, has, extents_fl}
use kfs.Inode.Pblocks.{
  addresses_in_ind, addresses_in_dind, addresses_in_tind, ndir_blocks, pblock_ind, pblock_dind,
  pblock_tind, get_data_pblock,
}

-- The place of a block: a direct block, or the positions in the tables on the way to it.
pub data Place : Type 0 where
  direct : ℕ → Place
  ind : ℕ → Place
  dind : ℕ → ℕ → Place
  tind : ℕ → ℕ → ℕ → Place

-- Tables have `a` entries.
abbrev pub Fits : ℕ → Place → Type 0
Fits a (direct k) = k < ndir_blocks
Fits a (ind k) = k < a
Fits a (dind j k) = (j < a) × (k < a)
Fits a (tind i j k) = (i < a) × (j < a) × (k < a)

-- The number of the block at a place.
abbrev pub number : ℕ → Place → ℕ
number a (direct k) = k
number a (ind k) = ndir_blocks + k
number a (dind j k) = ndir_blocks + a + (j * a + k)
number a (tind i j k) = ndir_blocks + a + a * a + (i * (a * a) + (j * a + k))

module _ (sb : SuperBlock) (pread : Pread) where
  -- Entry `i` of the table in block `b`.
  abbrev pub entry : ℕ → ℕ → Res ℕ
  entry b i = disk_read_u32 pread (u64 (blocks2bytes sb b + i * 4))

  -- The block at a place: the word of `i_block` that the place begins with, and a table for each
  -- position after it.
  abbrev pub follow : List ℕ → Place → Res ℕ
  follow words (direct k) = u32_at words (4 * k)
  follow words (ind k) = do b ← u32_at words 48; entry b k
  follow words (dind j k) = do b ← u32_at words 52; c ← entry b j; entry c k
  follow words (tind i j k) = do b ← u32_at words 56; c ← entry b i; d ← entry c j; entry d k

square : (a : ℕ) → a ≤ 2 ^ 14 → a * a ≤ 2 ^ 28
square a h = mul-le-mul h h

cube : (a : ℕ) → a ≤ 2 ^ 14 → a * a * a ≤ 2 ^ 42
cube a h = mul-le-mul (square a h) h

-- What `then` does with a result is all that matters.
module _ (sb : SuperBlock) (pread : Pread) (small : addresses_in_ind sb ≤ 2 ^ 14) where
  a-square : addresses_in_dind sb ≡ addresses_in_ind sb * addresses_in_ind sb
  unfolding addresses_in_dind
  a-square = omega (arith, square (addresses_in_ind sb) small)

  a-cube : addresses_in_tind sb ≡ addresses_in_ind sb * addresses_in_ind sb * addresses_in_ind sb
  unfolding addresses_in_tind
  a-cube = rw a-square (omega (arith, cube (addresses_in_ind sb) small))

  ind_lem : (k b : ℕ) → k < addresses_in_ind sb → pblock_ind sb pread k b ≡ entry sb pread b k
  unfolding pblock_ind
  ind_lem k b h = rw (ltb-true _ _ h)

  dind_lem :
      (j k b : ℕ)
      → j < addresses_in_ind sb
      → k < addresses_in_ind sb
      → pblock_dind sb pread (j * addresses_in_ind sb + k) b
        ≡ (do c ← entry sb pread b j; entry sb pread c k)
  unfolding pblock_dind
  dind_lem j k b hj hk =
      let a = addresses_in_ind sb in
      let inside = slot-lt a a j k hj hk in
      let offset : u32 (j * 4) ≡ j * 4 = omega (arith, small) in
      rw (
        a-square,
        ltb-true _ _ inside,
        div-slot a j k hk,
        mod-slot a j k hk,
        offset,
        fun_ext (λ c. ind_lem k c hk),
      )

  tind_lem :
      (i j k b : ℕ)
      → i < addresses_in_ind sb
      → j < addresses_in_ind sb
      → k < addresses_in_ind sb
      → pblock_tind sb pread
          (i * (addresses_in_ind sb * addresses_in_ind sb) + (j * addresses_in_ind sb + k))
          b
        ≡ (do c ← entry sb pread b i; d ← entry sb pread c j; entry sb pread d k)
  unfolding pblock_tind
  tind_lem i j k b hi hj hk =
      let a = addresses_in_ind sb in
      let row = slot-lt a a j k hj hk in
      let inside = slot-lt (a * a) a i (j * a + k) hi row in
      let offset : u32 (i * 4) ≡ i * 4 = omega (arith, small) in
      rw (a-cube, a-square)
        (rw (
          ltb-true (i * (a * a) + (j * a + k)) (a * a * a) (omega (arith, inside)),
          div-slot (a * a) i (j * a + k) row,
          mod-slot (a * a) i (j * a + k) row,
          offset,
          fun_ext (λ c. dind_lem j k c hj hk),
        ))

  follow_lem :
      (fuel : ℕ) (inode : Inode) (place : Place)
      → has inode.i_flags extents_fl ≡ false
      → Fits (addresses_in_ind sb) place
      → number (addresses_in_ind sb) place ≤ bytes2blocks sb (get_size inode)
      → get_data_pblock sb pread fuel inode (number (addresses_in_ind sb) place)
        ≡ (do block ← follow sb pread inode.i_block place; ok (block, none))
  unfolding get_data_pblock
  follow_lem fuel inode (direct k) plain fits le = rw (plain, leb-true _ _ le, ltb-true _ _ fits)
  follow_lem fuel inode (ind k) plain fits le =
      let a = addresses_in_ind sb in
      let n = number a (ind k) in
      let end₁ : u64 (ndir_blocks + a) ≡ ndir_blocks + a = omega (arith, small) in
      let past : n - ndir_blocks ≡ k = omega arith in
      rw (
        plain,
        leb-true _ _ le,
        ltb-false n ndir_blocks (omega arith),
        end₁,
        ltb-true n (ndir_blocks + a) (omega arith),
        past,
        fun_ext (λ b. ind_lem k b fits),
      )
  follow_lem fuel inode (dind j k) plain (hj, hk) le =
      let a = addresses_in_ind sb in
      let n = number a (dind j k) in
      let row = slot-lt a a j k hj hk in
      let end₁ : u64 (ndir_blocks + a) ≡ ndir_blocks + a = omega (arith, small) in
      let end₂ : u64 (ndir_blocks + a + a * a) ≡ ndir_blocks + a + a * a =
        omega (arith, small, square a small) in
      let past : n - (ndir_blocks + a) ≡ j * a + k = omega arith in
      rw (
        plain,
        leb-true _ _ le,
        ltb-false n ndir_blocks (omega arith),
        end₁,
        ltb-false n (ndir_blocks + a) (omega arith),
        a-square,
        end₂,
        ltb-true n (ndir_blocks + a + a * a) (omega (arith, row)),
        past,
        fun_ext (λ b. dind_lem j k b hj hk),
      )
  follow_lem fuel inode (tind i j k) plain (hi, hj, hk) le =
      let a = addresses_in_ind sb in
      let n = number a (tind i j k) in
      let row = slot-lt a a j k hj hk in
      let plane = slot-lt (a * a) a i (j * a + k) hi row in
      let end₁ : u64 (ndir_blocks + a) ≡ ndir_blocks + a = omega (arith, small) in
      let end₂ : u64 (ndir_blocks + a + a * a) ≡ ndir_blocks + a + a * a =
        omega (arith, small, square a small) in
      let end₃ : u64 (ndir_blocks + a + a * a + a * a * a) ≡ ndir_blocks + a + a * a + a * a * a =
        omega (arith, small, square a small, cube a small) in
      let past : n - (ndir_blocks + a + a * a) ≡ i * (a * a) + (j * a + k) = omega arith in
      rw (
        plain,
        leb-true _ _ le,
        ltb-false n ndir_blocks (omega arith),
        end₁,
        ltb-false n (ndir_blocks + a) (omega arith),
        a-square,
        end₂,
        ltb-false n (ndir_blocks + a + a * a) (omega arith),
        a-cube,
        end₃,
        ltb-true n (ndir_blocks + a + a * a + a * a * a) (omega (arith, plane)),
        past,
        fun_ext (λ b. tind_lem i j k b hi hj hk),
      )

-- The block of an inode without extents, by its place: where a block has at most 64 KiB, so that a
-- table has a quarter as many entries as a block has bytes, and the number of the block is one of 32
-- bits and not behind the size of the file, `inode_get_data_pblock` follows the tables to that place.
pub get_data_pblock-follow :
    (sb : SuperBlock) (pread : Pread) (fuel : ℕ) (inode : Inode) (place : Place)
    → block_size sb ≤ 2 ^ 16
    → has inode.i_flags extents_fl ≡ false
    → Fits (block_size sb / 4) place
    → number (block_size sb / 4) place < 2 ^ 32
    → number (block_size sb / 4) place ≤ bytes2blocks sb (get_size inode)
    → get_data_pblock sb pread fuel inode (number (block_size sb / 4) place)
      ≡ (do block ← follow sb pread inode.i_block place; ok (block, none))
unfolding addresses_in_ind
get_data_pblock-follow sb pread fuel inode place small plain fits lt le =
    follow_lem sb pread (omega arith) fuel inode place plain fits le
