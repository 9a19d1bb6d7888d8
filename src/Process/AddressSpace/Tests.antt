-- ===== src/Process/AddressSpace/Tests.antt =====
-- An address in the middle of the heap of a process.
