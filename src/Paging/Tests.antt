-- ===== src/Paging/Tests.antt =====
-- Addresses and page tables, and the theorems at them.
use campix.Base.{◌%◌, ◌≡◌, refl, false, none, some, [], ◌==◌, ◌&&◌, if◌then◌else◌, arith, inr}
use campix.Paging.{split_virt_addr, join_parts, extend_sign, join_virt_addr}
use campix.Paging.Address.{join_virt_addr_iff}
use campix.Paging.SimpleAllocator.{alloc_page, free_page, simple_allocator}
use campix.Paging.Tables.{
  PageTable, Memory, get_table, set_entry, remove, empty, unmap_4kb, translate,
}
use campix.Paging.Unmap.{unmap_4kb-translate}

join_virt_addr_iff_example :
    (split_virt_addr 0xFFFFA00000201234 ≡ (320, 0, 1, 1)) × (0xFFFFA00000201234 % 4096 ≡ 0x234)
unfolding join_virt_addr join_parts extend_sign
join_virt_addr_iff_example =
    (join_virt_addr_iff 320 0 1 1 0x234 0xFFFFA00000201234 (omega arith) (omega arith) (omega arith)
        (omega arith) (omega arith) (inr (omega arith, omega arith))).0
      refl

abbrev a_table : PageTable
a_table = record { pml4_phys = 0x1000; readonly = false }

-- One page of 4 KiB at the physical address 0x7000, mapped at 0, and one of 2 MiB after it.
abbrev one_page : Memory simple_allocator
one_page = record {
  tables = λ t i.
      if (t == 0xFFFFA00000001000) && (i == 0)
      then 0x2003
      else if (t == 0xFFFFA00000002000) && (i == 0)
      then 0x3003
      else if (t == 0xFFFFA00000003000) && (i == 0)
      then 0x4003
      else if (t == 0xFFFFA00000003000) && (i == 1)
      then 0x200083
      else if (t == 0xFFFFA00000004000) && (i == 0)
      then 0x7003
      else 0;
  allocator = record { min_addr = 0; max_addr = 0xFFFFA00000010000; free_head = [] };
}

mapped : (translate simple_allocator a_table 0x123 one_page).0 ≡ some 0x7123
unfolding translate get_table split_virt_addr
mapped = refl

unmap_4kb-translate_example :
    (translate simple_allocator a_table 0x123
      (unmap_4kb simple_allocator a_table 0x123 one_page).1).0
    ≡ none
unfolding unmap_4kb get_table split_virt_addr set_entry remove empty free_page alloc_page
unmap_4kb-translate_example = unmap_4kb-translate simple_allocator a_table 0x123 one_page _ refl
