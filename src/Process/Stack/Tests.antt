-- ===== src/Process/Stack/Tests.antt =====
-- A page table that keeps the pairs of a virtual and a physical page, and a stack of three bytes;
-- and a stack in the tables of src/paging.rs.
use campix.Base.{ℕ, ◌*◌, ◌%◌, ◌^◌, ◌≡◌, refl, false, some, List, [], ◌∷◌, length, get_or, arith}
use campix.Paging.{page_size, split_virt_addr, align_down}
use campix.Paging.SimpleAllocator.{alloc_page, simple_allocator}
use campix.Paging.Tables.{PageTable, Memory, set_entry, clear_table, get_table, map_4kb, translate}
use campix.Process.Stack.{PageMapper, page_of_chunk, grow_using_existing_buffer, build_loop, build}
use campix.Process.Stack.Mapper.{table_mapper}
use campix.Process.Stack.Build.{byte_below_top, map_downwards, build-Holds}

abbrev mapper : PageMapper
mapper = record {
  State = List (ℕ × ℕ);
  map_4kb = λ virt phys flags pages. (virt, phys) ∷ pages;
  unmap_4kb = λ virt pages. pages;
}

abbrev three_bytes : List ℕ
three_bytes = 1 ∷ 2 ∷ 3 ∷ []

build-Holds_example :
    let (s, pages) = build mapper 0x200000000000 three_bytes 7 (0xFFFFA00000005000 ∷ []) [] in
    (s.stack_top ≡ 0x200000000000)
    × (s.stack_size ≡ page_size * length s.stack_buffers % 2 ^ 64)
    × ((j : ℕ) → byte_below_top s.stack_buffers j ≡ get_or three_bytes j 0)
    × (pages ≡ map_downwards mapper 0x200000000000 0 7 s.stack_buffers [])
build-Holds_example =
    build-Holds mapper 0x200000000000 7 three_bytes (0xFFFFA00000005000 ∷ []) [] (omega arith)

page_below_top :
    (build mapper 0x200000000000 three_bytes 7 (0xFFFFA00000005000 ∷ []) []).1
    ≡ (0x1FFFFFFFF000, 0x5000) ∷ []
unfolding build build_loop grow_using_existing_buffer page_of_chunk
page_below_top = refl

abbrev process_table : PageTable
process_table = record { pml4_phys = 0x1000; readonly = false }

-- Tables that are empty, with four pages for more of them.
abbrev empty_tables : Memory simple_allocator
empty_tables = record {
  tables = λ t i. 0;
  allocator = record {
    min_addr = 0xFFFFA00000000000;
    max_addr = 0xFFFFA00000010000;
    free_head = record { address = 0xFFFFA00000008000; this_size_in_pages = 4 } ∷ [];
  };
}

-- The last byte of a stack is the last one of its page.
last_byte :
    (translate simple_allocator process_table 0x1FFFFFFFFFFF
      (build
        (table_mapper simple_allocator process_table)
        0x200000000000
        (1 ∷ 2 ∷ [])
        7
        (0xFFFFA00000005000 ∷ [])
        empty_tables).1).0
    ≡ some 0x5FFF
unfolding build build_loop grow_using_existing_buffer page_of_chunk map_4kb get_table set_entry
    clear_table alloc_page split_virt_addr translate align_down
last_byte = refl
