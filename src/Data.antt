-- ===== src/Data.antt =====
-- The plain data structures of the kernel, `src/data`.
pub mod Bitmap
