-- ===== src/Memory.antt =====
-- The physical memory of src/memory.
pub mod Buddy
