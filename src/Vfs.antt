-- ===== src/Vfs.antt =====
-- The virtual file system, src/drivers/vfs.rs.
pub mod Blocks
pub mod Error
pub mod Mounts
pub mod Path
