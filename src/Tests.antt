-- ===== src/Tests.antt =====
-- The theorems at concrete inputs, and runs of the definitions.
mod Bitmaps
mod Trees
mod Memory
mod Inodes
mod Decaches
mod Icaches
mod Dentries
mod Reads
mod Writes
mod Unlinks
mod Links
mod Mounts
mod Attrs
