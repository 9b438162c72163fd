-- ===== src/Lib.antt =====
-- kfs: the daemon core of a user-space ext4 file system (src/*.c), modelled on the native numbers.
--
-- The daemon answers FUSE requests (src/op_*.c). A request names a file by its path or its handle; the
-- number of the inode leads to the inode cache (src/cache.c), which reads and writes the inode table
-- of the disk (src/disk.c) at a place that the group descriptors give (src/inode.c). The blocks of an
-- inode come from its extents or its indirect blocks (src/extents.c, src/inode.c), those of a
-- directory hold the entries (src/dentry.c), and new inodes and blocks come from the bitmaps
-- (src/bitmap.c), which keep the descriptors' counts.
--
-- Base: the shared tests, lists, results, words, bytes and little-endian integers. A failed ASSERT, an
--   access outside an array and a loop out of fuel are faults of a result type.
-- Ext4: the super block and the group descriptors (src/ext4/ext4.h, src/ext4/ext4_super.h), with the
--   fields that the models use.
-- Search: the loops that look for the first free thing from a place on, and then round.
-- Bitmap: the inode and data bitmaps, `bitmap_*` of src/bitmap.c. Bits and Nibbles are the macros on
--   single bits and groups of four, WellFormed the invariant, Inodes, Blocks and Count the operations.
-- Gdt: the counts of the group descriptors (`gdt_update` of src/bitmap.c).
-- Disk: the reads and writes of src/disk.c over a device; Disk.Laws is what is relied on of `pread` and
--   `pwrite`, which are parameters.
-- Extents: `extent_*` of src/extents.c; Leaf is the search of one node.
-- Inode: `struct ext4_inode` (src/ext4/ext4_inode.h) and src/inode.c. Fields, Bytes, Access, Pblocks,
--   Create, Fresh and Digits are the split fields, the layout on the disk, permissions and places,
--   block lookup, new inodes and their first blocks, and the indirect blocks as digits.
-- Icache: `icache_*` of src/cache.c, `inode_get_by_number` of src/inode.c, and the loop of
--   src/op_destory.c. Backing is the interface of the inode table under the cache, Refines the relation
--   of cache and disk to the inodes that they stand for; Find, Replace, Insert, Change, Get and Flush
--   are the operations against it.
-- Decache: the tree of cached names, `decache_*` of src/cache.c, over a store of entries with their
--   pointers. Forest is the tree that a list of children stands for, Cells the loads and stores;
--   Walk, Find, Free, Evict, Front, Insert, Delete, Only and Taken are the operations against it.
-- Dentry: src/dentry.c and `dcache_*` of src/cache.c, over the buffer of one block. Writes is what the
--   stores do to its bytes, Chain the entries that it holds; Find, Create, Delete, Init and Added
--   are the operations against the list of entries.
-- Attr: the handlers src/op_chmod.c, src/op_chown.c, src/op_utimens.c, src/op_access.c,
--   src/op_open.c and src/op_getattr.c, from the number of the inode on. Edit is the change of
--   a cached inode, Checked the handlers against the inodes that cache and disk stand for.
-- Read: src/op_read.c from the inode on; Content compares it with the bytes of the file. An `int`
--   that meets a `size_t` is as_int of Base/Word.
-- Write: src/op_write.c. Bytes is the device as bytes at addresses, Piece one write within a block, Loop
--   the blocks of a write, Content the whole of it against the file and against op_read, Hole a write
--   to a block behind all extents.
-- Unlink: the last use of an inode, `unlink_inode` of src/op_unlink.c and its like in src/op_rmdir.c;
--   Links is what becomes of the number and of the blocks.
-- Link: the targets of symbolic links, src/op_symlink.c and src/op_readlink.c; Target is those that
--   are stored in the inode.
-- Mount: the bitmaps between disk and memory, `bitmap_init` of src/bitmap.c and the loop of
--   src/op_destory.c that writes them back; Save is what that loop leaves, Reload a later start.
-- Tests: concrete data, and the theorems applied to them.
--
-- Fuel: the descent in the extent tree has its depth as fuel; the search
-- of a directory takes one round for each entry and one for the tail; `dentry_next` two, since after a
-- block is loaded its number is that of the offset; a read or write one round for each byte at most;
-- the cached names one round for each name of a path or child of an entry, and one level for each of
-- the tree. Each theorem says how much is given.
--
-- Not modelled: the search by path in directories (src/inode.c), the rest of the handlers that change
-- directories, mount and unmount but for the loops above, and the control files of src/ctl.c; nor
-- logging, locks around single reads, mkfs, the command-line tools, and the libraries under include/
-- that are copies of other projects.
pub mod Base
pub mod Ext4
pub mod Search
pub mod Bitmap
pub mod Gdt
pub mod Disk
pub mod Extents
pub mod Inode
pub mod Icache
pub mod Decache
pub mod Dentry
pub mod Attr
pub mod Read
pub mod Write
pub mod Unlink
pub mod Link
pub mod Mount
pub mod Tests
