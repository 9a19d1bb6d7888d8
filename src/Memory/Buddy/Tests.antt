-- ===== src/Memory/Buddy/Tests.antt =====
-- Buddy allocators over seven pages, and the theorems at them.
use campix.Base.{
  ℕ, zero, suc, ◌+◌, ◌-◌, ◌*◌, ◌%◌, ◌^◌, ◌≡◌, refl, sym, subst, Option, some, [], ◌∷◌, ok, arith,
  get_or, get_or-replicate, replicate, All, if◌then◌else◌,
}
use campix.Memory.Buddy.{page_size, BuddyPageAllocator, init, new, alloc, free, required_order}
use campix.Memory.Buddy.Cover.{cover, IsBlock, limit_of, IsValid}
use campix.Memory.Buddy.Order.{IsLeastOrder, required_order-IsLeastOrder}
use campix.Memory.Buddy.Alloc.{Allocates, alloc-Allocates}
use campix.Memory.Buddy.Free.{IsUsed, within, free-Frees}
use campix.Memory.Buddy.Init.{between, new-Covers}

-- All pages free: blocks of four, two and one.
abbrev seven_pages : BuddyPageAllocator
seven_pages = record {
  base_addr = 0x10000;
  page_count = 7;
  free_lists =
      (record { address = 0x16000; order = 0 } ∷ [])
      ∷ (record { address = 0x14000; order = 1 } ∷ [])
      ∷ (record { address = 0x10000; order = 2 } ∷ [])
      ∷ replicate 26 [];
  allocated_pages = 0;
}

seven_pages-new : new 0x10000 7 ≡ ok seven_pages
unfolding new init
seven_pages-new = refl

seven_pages-IsValid : IsValid seven_pages
seven_pages-IsValid = (omega arith, omega arith, (refl, blocks))
  where
    blocks :
        (o : ℕ)
        → All (IsBlock 0x10000 (limit_of seven_pages) o) (get_or seven_pages.free_lists o [])
    blocks zero = ((refl, (6, refl, omega arith)), tt)
    blocks (suc zero) = ((refl, (2, refl, omega arith)), tt)
    blocks (suc (suc zero)) = ((refl, (0, refl, omega arith)), tt)
    blocks (suc (suc (suc o))) = subst (All _) (sym (get_or-replicate 26 o [])) tt

-- The first page free, all others handed out.
abbrev first_page : BuddyPageAllocator
first_page = record {
  base_addr = 0x10000;
  page_count = 7;
  free_lists = (record { address = 0x10000; order = 0 } ∷ []) ∷ replicate 28 [];
  allocated_pages = 6;
}

first_page-IsValid : IsValid first_page
first_page-IsValid = (omega arith, omega arith, (refl, blocks))
  where
    blocks :
        (o : ℕ) → All (IsBlock 0x10000 (limit_of first_page) o) (get_or first_page.free_lists o [])
    blocks zero = ((refl, (0, refl, omega arith)), tt)
    blocks (suc o) = subst (All _) (sym (get_or-replicate 28 o [])) tt

new-Covers_example :
    (a : BuddyPageAllocator) × (new 0x10000 7 ≡ ok a)
    × IsValid a
    × (a.allocated_pages ≡ 0)
    × ((p : ℕ) → cover a p ≡ between 0x10000 (0x10000 + page_size * 7) p)
new-Covers_example =
    new-Covers 0x10000 7 (omega arith) refl (omega arith) (omega arith) (omega arith)

required_order-IsLeastOrder_example :
    (order : ℕ) × (required_order 5 ≡ some order) × IsLeastOrder 5 order
required_order-IsLeastOrder_example = required_order-IsLeastOrder 5 (omega arith)

alloc-Allocates_example :
    (order : ℕ) × IsLeastOrder 3 order
    × (r : Option (ℕ × ℕ) × BuddyPageAllocator) × (alloc 3 seven_pages ≡ some (ok r))
    × Allocates seven_pages order r
alloc-Allocates_example =
    alloc-Allocates seven_pages 3 seven_pages-IsValid (omega arith) (omega arith)

free-Frees_example :
    (a : BuddyPageAllocator) × (free 0x11000 0 first_page ≡ ok a)
    × IsValid a
    × ((p : ℕ) → cover a p ≡ (if within 0x11000 0 p then 1 else cover first_page p))
    × (a.allocated_pages ≡ (6 + 2 ^ 64 - 2 ^ 0) % 2 ^ 64)
free-Frees_example =
    free-Frees first_page 0x11000 0 first_page-IsValid (omega arith) refl (1, refl, omega arith)
      used
  where
    used : IsUsed first_page 0 0x11000
    used p h = ground arith
