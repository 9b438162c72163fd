-- ===== src/Inode/Access.antt =====
-- Who may use an inode, and where it lies in the inode table (src/inode.c).
use kfs.Base.{ℕ, ◌+◌, ◌*◌, ◌/◌, ◌%◌, ◌^◌, ◌<◌, Bool, true, ◌&&◌, ◌==◌, if◌then◌else◌}
use kfs.Ext4.Super.{SuperBlock, block_size}
use kfs.Ext4.Group.{GroupDesc, inode_table}
use kfs.Inode.{Inode, AccessMode, read, write, rdwr, exec}

-- Bit `k` of a mode, and what three of its bits allow: from `k` on those for execution, writing and
-- reading.
abbrev pub bit_of : ℕ → ℕ → Bool
bit_of k mode = mode / 2 ^ k % 2 == 1

abbrev pub triple_allows : ℕ → ℕ → AccessMode → Bool
triple_allows k i_mode read = bit_of (k + 2) i_mode
triple_allows k i_mode write = bit_of (k + 1) i_mode
triple_allows k i_mode rdwr = bit_of (k + 2) i_mode && bit_of (k + 1) i_mode
triple_allows k i_mode exec = bit_of k i_mode

-- The numbers of the owner and of the group, of their halves.
abbrev pub owner : Inode → ℕ
owner inode = inode.i_uid + 2 ^ 16 * inode.l_i_uid_high

abbrev pub group : Inode → ℕ
group inode = inode.i_gid + 2 ^ 16 * inode.l_i_gid_high

-- The rule of POSIX: the owner has the owner's bits, else a member of the group the group's, else
-- everybody the bits of the others.
abbrev pub posix_allows : Inode → (uid gid : ℕ) → AccessMode → Bool
posix_allows inode uid gid mode =
    if uid == 0
    then true
    else (if owner inode == uid
        then triple_allows 6 inode.i_mode mode
        else (if group inode == gid
            then triple_allows 3 inode.i_mode mode
            else triple_allows 0 inode.i_mode mode))

-- The inode table of a group lies within the addresses of 64 bits, and the offsets in it within 32.
pub record TableFits (sb : SuperBlock) (g : GroupDesc) : Type 0 where
  pub per_pos : 0 < sb.s_inodes_per_group
  pub offsets : sb.s_inodes_per_group * sb.s_inode_size < 2 ^ 32
  pub block_in : inode_table g < 2 ^ 64
  pub table_in : inode_table g * block_size sb + sb.s_inodes_per_group * sb.s_inode_size < 2 ^ 64
