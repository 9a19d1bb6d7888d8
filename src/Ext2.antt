-- ===== src/Ext2.antt =====
-- The ext2 driver, src/drivers/fs/phys/ext2.
pub mod Allocator
pub mod Backups
pub mod Inode
pub mod InodeTable
pub mod ReadingLocation
pub mod Volume
