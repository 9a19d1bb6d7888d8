-- ===== src/Paging/SimpleAllocator.antt =====
-- `SimplePageAllocator` of src/paging.rs: runs of free pages, each run with its header in its first
-- page. The list that the headers make is a `List`; a header at address 0 ends it.
pub mod Runs
use campix.Base.{
  ℕ, ◌+◌, ◌-◌, ◌%◌, ◌^◌, bit_and, Option, none, some, List, [], ◌∷◌, ltb, ◌==◌, if◌then◌else◌,
}
use campix.Paging.Tables.{PageAllocator}

pub record FreePage : Type 0 where
  pub address : ℕ
  pub this_size_in_pages : ℕ

pub record SimplePageAllocator : Type 0 where
  pub min_addr : ℕ
  pub max_addr : ℕ
  pub free_head : List FreePage

abbrev pub link_page : FreePage → List FreePage → List FreePage
link_page p rest = if p.address == 0 then [] else (p ∷ rest)

-- The runs that are left when the first page of a run is taken.
abbrev pub rest_of_run : ℕ → FreePage → List FreePage → List FreePage
rest_of_run max_addr p rest =
    if p.this_size_in_pages == 1
    then rest
    else if ltb ((p.address + 4096) % 2 ^ 64) max_addr
    then link_page
        (record {
          address = (p.address + 4096) % 2 ^ 64;
          this_size_in_pages = (p.this_size_in_pages + 2 ^ 64 - 1) % 2 ^ 64;
        })
        rest
    else rest

abbrev pub take_page : List FreePage → SimplePageAllocator → Option ℕ × SimplePageAllocator
take_page [] s = (none, s)
take_page (p ∷ rest) s = (some p.address, record s { free_head = rest_of_run s.max_addr p rest })

unfoldable pub alloc_page : SimplePageAllocator → Option ℕ × SimplePageAllocator
alloc_page s = take_page s.free_head s

-- A page that is not aligned is only reported.
unfoldable pub free_page : ℕ → SimplePageAllocator → SimplePageAllocator
free_page page s =
    if bit_and page 0xFFF == 0
    then record s {
      free_head = link_page (record { address = page; this_size_in_pages = 1 }) s.free_head;
    }
    else s

abbrev pub simple_allocator : PageAllocator
simple_allocator = record {
  State = SimplePageAllocator;
  alloc_page = alloc_page;
  free_page = free_page;
}
