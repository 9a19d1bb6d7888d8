-- ===== src/Process/Stack/Mapper.antt =====
-- The page table of src/paging.rs as the `PageMapper` of a process.
use campix.Paging.Tables.{PageAllocator, PageTable, Memory, map_4kb, unmap_4kb}
use campix.Process.Stack.{PageMapper}

-- What the calls return is not looked at.
abbrev pub table_mapper : PageAllocator → PageTable → PageMapper
table_mapper A table = record {
  State = Memory A;
  map_4kb = λ virt phys flags m. (map_4kb A table virt phys flags m).1;
  unmap_4kb = λ virt m. (unmap_4kb A table virt m).1;
}
