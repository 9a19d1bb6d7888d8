-- ===== src/Paging/Map/Tests.antt =====
-- A page mapped in tables that are empty at first, with the pages of two runs for new tables.
use campix.Base.{
  ℕ, ◌+◌, ◌*◌, ◌%◌, ◌^◌, some, [], ◌∷◌, ◌==◌, if◌then◌else◌, ◌≡◌, ◌≢◌, false, refl, inl, inr, arith,
  ne→==_false,
}
use mathlib.Core.Option.{none-ne-some}
use campix.Paging.{split_virt_addr}
use campix.Paging.SimpleAllocator.{SimplePageAllocator, alloc_page, simple_allocator}
use campix.Paging.SimpleAllocator.Runs.{IsListed, AreRuns, simple_allocator-IsAllocator}
use campix.Paging.Tables.{
  PageTable, Memory, pml4_of, set_entry, clear_table, get_table, map_4kb, translate,
}
use campix.Paging.Map.{IsLevelled}
use campix.Paging.Map.Translate.{map_4kb-translate}

abbrev page_at : ℕ → ℕ
page_at n = 0xFFFFA00000000000 + 2 ^ 12 * n

abbrev two_runs : SimplePageAllocator
two_runs = record {
  min_addr = page_at 0;
  max_addr = page_at 100;
  free_head =
      record { address = page_at 8; this_size_in_pages = 2 }
      ∷ record { address = page_at 2; this_size_in_pages = 3 }
      ∷ [];
}

two_runs-AreRuns : AreRuns two_runs.free_head
two_runs-AreRuns = (
  ((8, refl, omega arith), omega arith, omega arith),
  λ page (n, few, place) h. elim h [
    | inl (k, few', place') ↦ omega arith
    | inr none_left ↦ none_left
  ],
  (((2, refl, omega arith), omega arith, omega arith), λ page h none_left. none_left, tt),
)

abbrev empty_tables : Memory simple_allocator
empty_tables = record { tables = λ t i. 0; allocator = two_runs }

abbrev top_table : PageTable
top_table = record { pml4_phys = 0x1000; readonly = false }

abbrev top_level : ℕ → ℕ
top_level t = if t == page_at 1 then 4 else 0

listed_ne_top : (page : ℕ) → IsListed two_runs.free_head page → page ≢ page_at 1
listed_ne_top page (inl (n, few, place)) same = absurd (omega (arith, few, place, same))
listed_ne_top page (inr (inl (n, few, place))) same = absurd (omega (arith, few, place, same))
listed_ne_top page (inr (inr none_left)) same = none_left

empty_tables-IsLevelled :
    IsLevelled simple_allocator simple_allocator-IsAllocator top_level empty_tables
empty_tables-IsLevelled = record {
  down = λ t i k q l e. absurd (none-ne-some q e);
  unused = λ page h. rw (ne→==_false page (page_at 1) (listed_ne_top page h)) refl;
  allocator = two_runs-AreRuns;
}

map_4kb-translate_example :
    ((translate simple_allocator top_table 0x123
        (map_4kb simple_allocator top_table 0x123 0x7000 3 empty_tables).1).0
      ≡ some (0x7000 + 0x123 % 4096))
    × ((level' : ℕ → ℕ) × (level' (pml4_of top_table) ≡ 4)
        × IsLevelled simple_allocator simple_allocator-IsAllocator level'
            (map_4kb simple_allocator top_table 0x123 0x7000 3 empty_tables).1)
unfolding map_4kb get_table split_virt_addr set_entry clear_table alloc_page
map_4kb-translate_example =
    map_4kb-translate simple_allocator simple_allocator-IsAllocator top_table 0x123 0x7000 3
      top_level empty_tables _ refl empty_tables-IsLevelled refl (omega arith) (omega arith) refl
      refl
