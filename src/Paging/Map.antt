-- ===== src/Paging/Map.antt =====
-- `PageTable::map_4kb`: what is mapped translates. Tables are told apart by their level: 4 for the
-- top, 1 for a table of pages, 0 for a page that is no table.
pub mod Entry
mod Tests
pub mod Translate
pub mod Walk
use campix.Base.{
  ℕ, zero, suc, ◌+◌, ◌-◌, ◌*◌, ◌%◌, ◌^◌, ◌<◌, Bool, true, false, ◌&&◌, Option, none, some, ◌==◌,
  ==_iff, ==_refl, if◌then◌else◌, ◌≡◌, ◌≢◌, refl, sym, ap, ◌∙◌, ◌⊎◌, inl, inr, Bool-cases, subst,
  bit_or, arith, ne→==_false,
}
use mathlib.Core.Option.{none-ne-some, some-injective}
use campix.Paging
use campix.Paging.{page_present, page_huge, page_size, split_virt_addr, align_down}
use campix.Process.AddressSpace.{direct_mapping_offset}
use campix.Paging.Tables.{
  PageAllocator, PageTable, physical_to_virtual, pml4_of, entry_page, has_flag, Memory, Step,
  continue, ◌>>=◌, fail, set_entry, clear_table, get_table, follow, add_table, write_entry,
  table_flags, map_4kb, page_of, translate_pd, translate,
}
use campix.Paging.Unmap.{next, get_table-next}
use campix.Paging.Map.Entry.{
  IsPage, IsTableFlags, disallowed_at, new_entry, Leads, new_entry-Leads, table_flags-IsTableFlags,
}

-- What an allocator of pages promises in a valid state, about the pages that it may still hand out:
-- that it hands out one of them, and never again, and that the state stays valid.
pub record IsAllocator (A : PageAllocator) : Type 1 where
  pub IsValid : A.State → Type 0
  pub IsFree : A.State → ℕ → Type 0
  pub alloc-IsFree :
      (s s' : A.State) (page : ℕ)
      → IsValid s
      → A.alloc_page s ≡ (some page, s')
      → IsFree s page
        × IsPage page
        × IsValid s'
        × ((other : ℕ) → IsFree s' other → IsFree s other × (other ≢ page))

module _ (A : PageAllocator) (is : IsAllocator A) where
  -- Every entry that leads to a table leads one level down, and no page that is free has a level.
  -- The allocator's state is valid.
  pub record IsLevelled (level : ℕ → ℕ) (m : Memory A) : Type 0 where
    pub down :
        (t i k q : ℕ)
        → level t ≡ suc (suc k)
        → next (m.tables t i) (disallowed_at k) ≡ some q
        → level q ≡ suc k
    pub unused : (page : ℕ) → is.IsFree m.allocator page → level page ≡ 0
    pub allocator : is.IsValid m.allocator

  -- What a step down from entry `i` of table `t` reaches, and what it keeps.
  pub record Descends (level : ℕ → ℕ) (t i k : ℕ) (m : Memory A) (q : ℕ) (m' : Memory A)
      : Type 0 where
    pub level' : ℕ → ℕ
    pub levelled : IsLevelled level' m'
    pub reached : level' q ≡ suc k
    pub leads : next (m'.tables t i) (disallowed_at k) ≡ some q
    pub kept : (x : ℕ) → level x ≢ 0 → level' x ≡ level x
    pub same : (x j : ℕ) → level x ≢ 0 → x ≢ t → m'.tables x j ≡ m.tables x j

  pub stays :
      (level : ℕ → ℕ) (t i k : ℕ) (m : Memory A) (q : ℕ)
      → level t ≡ suc (suc k)
      → IsLevelled level m
      → next (m.tables t i) (disallowed_at k) ≡ some q
      → Descends level t i k m q m
  stays level t i k m q l v e = record {
    level' = level;
    levelled = v;
    reached = v.down t i k q l e;
    leads = e;
    kept = λ x h. refl;
    same = λ x j h n. refl;
  }

  -- The memory once a new table stands in an entry.
  abbrev pub added : ℕ → ℕ → ℕ → ℕ → Memory A → A.State → Memory A
  added t i page flags m s =
      set_entry A t i (new_entry page flags) (clear_table A page (record m { allocator = s }))

  pub added_self :
      (t i page flags : ℕ) (m : Memory A) (s : A.State)
      → (added t i page flags m s).tables t i ≡ new_entry page flags
  unfolding set_entry
  added_self t i page flags m s = rw (==_refl t, ==_refl i) refl

  pub added-other :
      (t i page flags x j : ℕ) (m : Memory A) (s : A.State)
      → ((x == t) && (j == i)) ≡ false
      → x ≢ page
      → (added t i page flags m s).tables x j ≡ m.tables x j
  unfolding set_entry clear_table
  added-other t i page flags x j m s off n = rw (off, ne→==_false x page n) refl

  pub added-page :
      (t i page flags j : ℕ) (m : Memory A) (s : A.State)
      → page ≢ t
      → (added t i page flags m s).tables page j ≡ 0
  unfolding set_entry clear_table
  added-page t i page flags j m s n = rw (ne→==_false page t n, ==_refl page) refl

  pub Leads-next : (value d page : ℕ) → Leads value d page → next value d ≡ some page
  Leads-next value d page (p, r, e) = rw (p, r) (ap (λ q. some q) e)

  pub Leads-follow :
      (t i d page : ℕ) (m : Memory A)
      → Leads (m.tables t i) d page
      → follow A t i d m ≡ (some page, m)
  Leads-follow t i d page m (p, r, e) = rw r (ap (λ q. (some q, m)) e)
