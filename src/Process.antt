-- ===== src/Process.antt =====
-- Processes: their tables of open files, and the layout of their address space, src/process.
pub mod AddressSpace
pub mod FileTable
pub mod Scheduler
pub mod Stack
