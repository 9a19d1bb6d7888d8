-- ===== src/Process/Stack.antt =====
-- `ThreadStack` of src/process/memory.rs and `ProcessAllocatedCode` of src/process/proc.rs: the
-- memory of a process, page by page, and how it is mapped and unmapped. What `map_4kb` and
-- `unmap_4kb` return is not looked at. Buffers are pushed at the end.
pub mod Build
pub mod Mapper
mod Tests
use campix.Base.{
  ℕ, zero, suc, ◌+◌, ◌-◌, ◌*◌, ◌/◌, ◌%◌, ◌^◌, ◌==◌, Bool, true, false, List, [], ◌∷◌, ◌++◌, not,
  if◌then◌else◌, length, take, drop, overlay, replicate,
}
use campix.Paging.{page_size}
use campix.Process.AddressSpace.{direct_mapping_offset}

-- What `PageTable` of src/paging.rs offers here; `Mapper` is that table.
pub record PageMapper : Type 1 where
  pub State : Type 0
  pub map_4kb : (virt phys flags : ℕ) → State → State
  pub unmap_4kb : (virt : ℕ) → State → State

-- A boxed slice: where it is, and its bytes.
pub record Buffer : Type 0 where
  pub address : ℕ
  pub bytes : List ℕ

pub record ThreadStack : Type 0 where
  pub stack_top : ℕ
  pub stack_size : ℕ
  pub stack_buffers : List Buffer

-- The virtual address and the buffer of each allocation.
abbrev pub ProcessAllocatedCode : Type 0
ProcessAllocatedCode = List (ℕ × Buffer)

abbrev pub new : ℕ → ThreadStack
new top = record { stack_top = top; stack_size = 0; stack_buffers = [] }

abbrev pub get_bottom : ThreadStack → ℕ
get_bottom s = (s.stack_top + 2 ^ 64 - s.stack_size) % 2 ^ 64

-- `chunk.iter().rev()`, in a buffer of a page of zeros that it fills from the end.
abbrev pub reverse : List ℕ → List ℕ
reverse [] = []
reverse (x ∷ xs) = reverse xs ++ x ∷ []

unfoldable pub page_of_chunk : List ℕ → List ℕ
page_of_chunk chunk =
    if length (reverse chunk) == page_size
    then reverse chunk
    else overlay (page_size - length (reverse chunk)) (reverse chunk) (replicate page_size 0)

module _ (M : PageMapper) where
  unfoldable pub grow_using_existing_buffer :
      ℕ → Buffer → ThreadStack × M.State → Bool × ThreadStack × M.State
  grow_using_existing_buffer flags buffer (s, table) =
      let grown : ThreadStack = record s { stack_size = (s.stack_size + page_size) % 2 ^ 64 } in
      let phys = (buffer.address + 2 ^ 64 - direct_mapping_offset) % 2 ^ 64 in
      if not (length buffer.bytes == page_size) then (false, s, table) else (
        true,
        record grown { stack_buffers = s.stack_buffers ++ buffer ∷ [] },
        M.map_4kb (get_bottom grown) phys flags table,
      )

  -- A page of zeros that the allocator puts at `address`.
  unfoldable pub grow : ℕ → ℕ → ThreadStack × M.State → Bool × ThreadStack × M.State
  grow flags address s =
      grow_using_existing_buffer flags (record { address = address; bytes = replicate page_size 0 })
        s

  -- The loop of `new_with_pages`: the addresses that the allocator gives, one for each page.
  unfoldable pub grow_pages : ℕ → List ℕ → ThreadStack × M.State → ThreadStack × M.State
  grow_pages flags [] s = s
  grow_pages flags (address ∷ addresses) s =
      let grown = grow flags address s in grow_pages flags addresses (grown.1, grown.2)

  unfoldable pub new_with_pages : ℕ → List ℕ → ℕ → M.State → ThreadStack × M.State
  new_with_pages top addresses flags table = grow_pages flags addresses (new top, table)

  -- The loop of `build`, over the allocator's addresses for the chunks; with too few of them it
  -- stops early.
  unfoldable pub build_loop : ℕ → List ℕ → List ℕ → ThreadStack × M.State → ThreadStack × M.State
  build_loop flags [] data_ s = s
  build_loop flags (address ∷ addresses) data_ s =
      let grown =
        grow_using_existing_buffer flags
          (record { address = address; bytes = page_of_chunk (take page_size data_) }) s in
      let rest = build_loop flags addresses (drop page_size data_) (grown.1, grown.2) in
      if length data_ == 0 then s else rest

  unfoldable pub build : ℕ → List ℕ → ℕ → List ℕ → M.State → ThreadStack × M.State
  build top data_ flags addresses table = build_loop flags addresses data_ (new top, table)

  -- `for page in (bottom..stack_top).step_by(PAGE_SIZE)`
  unfoldable pub unmap_pages : ℕ → ℕ → M.State → M.State
  unmap_pages zero page table = table
  unmap_pages (suc count) page table = unmap_pages count (page + page_size) (M.unmap_4kb page table)

  unfoldable pub free_stack : ThreadStack × M.State → ThreadStack × M.State
  free_stack (s, table) = (
    record s { stack_size = 0; stack_buffers = [] },
    unmap_pages ((s.stack_top - get_bottom s + (page_size - 1)) / page_size) (get_bottom s) table,
  )

  -- `ProcessAllocatedCode::free`
  unfoldable pub free_code : ProcessAllocatedCode × M.State → ProcessAllocatedCode × M.State
  free_code ([], table) = ([], table)
  free_code ((virt, buffer) ∷ allocs, table) = free_code (allocs, M.unmap_4kb virt table)
