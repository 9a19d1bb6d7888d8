-- ===== src/Paging/Tables.antt =====
-- The page tables of src/paging.rs in memory, and what `PageTable` does to them. A table is named by
-- the address at which the direct mapping shows it; `tables t i` is entry `i` of table `t`. A step
-- may fail, as `?` does, and keeps what it changed before. The processor's own cache of translations
-- is not part of the model.
use campix.Base.{
  ℕ, zero, suc, ◌+◌, ◌-◌, ◌%◌, ◌^◌, bit_and, bit_or, Bool, true, false, ◌&&◌, not, Option, none,
  some, leb, ltb, ◌==◌, if◌then◌else◌,
}
use campix.Paging.{
  page_size, page_size_2mb, page_present, page_rw, page_user, page_accessed, page_huge,
  split_virt_addr, align_down,
}
use campix.Process.AddressSpace.{direct_mapping_offset}

-- The trait of the allocators that tables take their pages from.
pub record PageAllocator : Type 1 where
  pub State : Type 0
  pub alloc_page : State → Option ℕ × State
  pub free_page : ℕ → State → State

pub record PageTable : Type 0 where
  pub pml4_phys : ℕ
  pub readonly : Bool

-- The address at which the direct mapping shows a physical one.
abbrev pub physical_to_virtual : ℕ → ℕ
physical_to_virtual phys = (phys + direct_mapping_offset) % 2 ^ 64

abbrev pub pml4_of : PageTable → ℕ
pml4_of table = physical_to_virtual table.pml4_phys

-- The physical page that an entry names.
abbrev pub entry_page : ℕ → ℕ
entry_page value = bit_and value 0x000FFFFFFFFFF000

abbrev pub has_flag : ℕ → ℕ → Bool
has_flag value flag = not (bit_and value flag == 0)

abbrev pub table_flags : ℕ → ℕ
table_flags virt =
    if leb 0xFFFF800000000000 virt
    then bit_or (bit_or page_present page_rw) page_accessed
    else bit_or (bit_or (bit_or page_present page_rw) page_accessed) page_user

module _ (A : PageAllocator) where
  pub record Memory : Type 0 where
    pub tables : ℕ → ℕ → ℕ
    pub allocator : A.State

  abbrev pub Step : Type 0 → Type 0
  Step B = Memory → Option B × Memory

  abbrev pub continue : {B C : Type 0} → Option B × Memory → (B → Step C) → Option C × Memory
  continue (none, m) f = (none, m)
  continue (some b, m) f = f b m

  abbrev pub fail : {B : Type 0} → Step B
  fail m = (none, m)

  abbrev pub done : {B : Type 0} → B → Step B
  done b m = (some b, m)

  infixl 5 ◌>>=◌
  abbrev pub ◌>>=◌ : {B C : Type 0} → Step B → (B → Step C) → Step C
  s >>= f = λ m. continue (s m) f

  unfoldable pub set_entry : ℕ → ℕ → ℕ → Memory → Memory
  set_entry t i value m = record m {
    tables = λ t' i'. if (t' == t) && (i' == i) then value else m.tables t' i';
  }

  -- `write_bytes` of one table with zeros.
  unfoldable pub clear_table : ℕ → Memory → Memory
  clear_table t m = record m { tables = λ t' i. if t' == t then 0 else m.tables t' i }

  -- The table that an entry names, unless it has a disallowed flag.
  abbrev pub follow : ℕ → ℕ → ℕ → Step ℕ
  follow t i disallowed_flags m =
      if has_flag (m.tables t i) disallowed_flags
      then (none, m)
      else (some (physical_to_virtual (entry_page (m.tables t i))), m)

  -- A cleared page from the allocator, put in an entry.
  abbrev pub add_table : ℕ → ℕ → ℕ → ℕ → Option ℕ × A.State → Step ℕ
  add_table t i sub_flags disallowed_flags (none, s) m = (none, record m { allocator = s })
  add_table t i sub_flags disallowed_flags (some page, s) m = follow t i disallowed_flags (
      set_entry t i (bit_or ((page + 2 ^ 64 - direct_mapping_offset) % 2 ^ 64) sub_flags)
        (clear_table page (record m { allocator = s })))

  unfoldable pub get_table : (add_if_empty : Bool) → ℕ → ℕ → ℕ → ℕ → Step ℕ
  get_table add_if_empty t i sub_flags disallowed_flags m =
      if has_flag (m.tables t i) page_present
      then follow t i disallowed_flags m
      else if add_if_empty
      then add_table t i sub_flags disallowed_flags (A.alloc_page m.allocator) m
      else (none, m)

  unfoldable pub remove : ℕ → ℕ → Memory → Memory
  remove t i m = set_entry t i 0 (
      if has_flag (m.tables t i) page_present
      then record m {
        allocator = A.free_page (physical_to_virtual (entry_page (m.tables t i))) m.allocator;
      }
      else m)

  -- Whether the first entries of a table are all zero.
  abbrev pub zeros : ℕ → (ℕ → ℕ) → Bool
  zeros zero entries = true
  zeros (suc n) entries = zeros n entries && (entries n == 0)

  unfoldable pub empty : ℕ → Memory → Bool
  empty t m = zeros 512 (m.tables t)

  abbrev pub write_entry : ℕ → ℕ → ℕ → Step (Unit {0})
  write_entry t i value m = (some tt, set_entry t i value m)

  unfoldable pub map_4kb : PageTable → ℕ → ℕ → ℕ → Step (Unit {0})
  map_4kb table virt phys flags =
      let (pml4_idx, pdpt_idx, pd_idx, pt_idx) = split_virt_addr virt in
      if table.readonly then fail else (do
        pdpt ← get_table true (pml4_of table) pml4_idx (table_flags virt) 0
        pd ← get_table true pdpt pdpt_idx (table_flags virt) 0
        pt ← get_table true pd pd_idx (table_flags virt) page_huge
        write_entry pt pt_idx (bit_or (align_down phys page_size) flags))

  unfoldable pub map_2mb : PageTable → ℕ → ℕ → ℕ → Step (Unit {0})
  map_2mb table virt phys flags =
      let (pml4_idx, pdpt_idx, pd_idx, pt_idx) = split_virt_addr virt in
      if table.readonly then fail else (do
        pdpt ← get_table true (pml4_of table) pml4_idx (table_flags virt) 0
        pd ← get_table true pdpt pdpt_idx (table_flags virt) 0
        write_entry pd pd_idx (bit_or (bit_or (align_down phys page_size_2mb) page_huge) flags))

  -- The tables that are left empty, taken out of the tables above them.
  abbrev pub prune_pdpt : ℕ → ℕ → ℕ → Memory → Memory
  prune_pdpt pml4 pdpt pml4_idx m = if empty pdpt m then remove pml4 pml4_idx m else m

  abbrev pub prune_pd : ℕ → ℕ → ℕ → ℕ → ℕ → Memory → Memory
  prune_pd pml4 pdpt pd pml4_idx pdpt_idx m =
      if empty pd m then prune_pdpt pml4 pdpt pml4_idx (remove pdpt pdpt_idx m) else m

  abbrev pub prune_pt : ℕ → ℕ → ℕ → ℕ → ℕ → ℕ → ℕ → Memory → Memory
  prune_pt pml4 pdpt pd pt pml4_idx pdpt_idx pd_idx m =
      if empty pt m then prune_pd pml4 pdpt pd pml4_idx pdpt_idx (remove pd pd_idx m) else m

  abbrev pub change : (Memory → Memory) → Step (Unit {0})
  change f m = (some tt, f m)

  unfoldable pub unmap_4kb : PageTable → ℕ → Step (Unit {0})
  unmap_4kb table virt =
      let (pml4_idx, pdpt_idx, pd_idx, pt_idx) = split_virt_addr virt in
      if table.readonly then fail else (do
        pdpt ← get_table false (pml4_of table) pml4_idx 0 0
        pd ← get_table false pdpt pdpt_idx 0 0
        pt ← get_table false pd pd_idx 0 page_huge
        change (λ m.
            prune_pt (pml4_of table) pdpt pd pt pml4_idx pdpt_idx pd_idx (set_entry pt pt_idx 0 m)))

  unfoldable pub unmap_2mb : PageTable → ℕ → Step (Unit {0})
  unmap_2mb table virt =
      let (pml4_idx, pdpt_idx, pd_idx, pt_idx) = split_virt_addr virt in
      if table.readonly then fail else (do
        pdpt ← get_table false (pml4_of table) pml4_idx 0 0
        pd ← get_table false pdpt pdpt_idx 0 0
        change (λ m. prune_pd (pml4_of table) pdpt pd pml4_idx pdpt_idx (set_entry pd pd_idx 0 m)))

  abbrev pub page_of : ℕ → ℕ → Step ℕ
  page_of value offset m =
      if has_flag value page_present
      then (some ((entry_page value + offset) % 2 ^ 64), m)
      else (none, m)

  -- The walk from a page directory on: a page of 2 MiB, or a table of pages of 4 KiB.
  abbrev pub translate_pd : ℕ → ℕ → ℕ → ℕ → Step ℕ
  translate_pd virt pd pd_idx pt_idx m =
      if has_flag (m.tables pd pd_idx) page_present && has_flag (m.tables pd pd_idx) page_huge
      then (some ((entry_page (m.tables pd pd_idx) + virt % page_size_2mb) % 2 ^ 64), m)
      else continue (get_table false pd pd_idx 0 page_huge m)
          (λ pt m. page_of (m.tables pt pt_idx) (virt % page_size) m)

  unfoldable pub translate : PageTable → ℕ → Step ℕ
  translate table virt =
      let (pml4_idx, pdpt_idx, pd_idx, pt_idx) = split_virt_addr virt in
      (do
        pdpt ← get_table false (pml4_of table) pml4_idx 0 0
        pd ← get_table false pdpt pdpt_idx 0 0
        translate_pd virt pd pd_idx pt_idx)

  -- Entries `first` up to `last` of a table, each as `entry` has it.
  unfoldable pub fill : ℕ → ℕ → ℕ → (ℕ → ℕ) → Memory → Memory
  fill t first last entry m = record m {
    tables = λ t' i. if (t' == t) && (leb first i && ltb i last) then entry i else m.tables t' i;
  }

  abbrev pub no_entry : ℕ → ℕ
  no_entry i = 0

  -- `kernel` is the kernel's own page table.
  unfoldable pub map_global_higher_half : (kernel : PageTable) → PageTable → Memory → Memory
  map_global_higher_half kernel table m =
      let k_pml4 = m.tables (pml4_of kernel) in
      let pml4 = pml4_of table in
      if table.readonly
      then m
      else fill pml4 352 384 k_pml4
          (fill pml4 320 352 k_pml4 (fill pml4 288 320 k_pml4 (fill pml4 256 288 k_pml4 m)))

  unfoldable pub unmap_global_higher_half : PageTable → Memory → Memory
  unmap_global_higher_half table m =
      let pml4 = pml4_of table in
      if table.readonly
      then m
      else fill pml4 352 384 no_entry
          (fill pml4 320 352 no_entry (fill pml4 288 320 no_entry (fill pml4 256 288 no_entry m)))
