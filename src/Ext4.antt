-- ===== src/Ext4.antt =====
-- The on-disk structures of src/ext4: super block, group descriptors, and their macros.
pub mod Super
pub mod Group
