-- ===== src/Memory/Buddy/Alloc.antt =====
-- `BuddyPageAllocator::alloc`: the search for a block, the splits, and what the result is.
use campix.Base.{
  ℕ, ◌+◌, ◌-◌, ◌%◌, ◌^◌, ◌≤◌, ◌<◌, ◌≡◌, refl, ap, ◌∙◌, false, Option, none, some, [], ltb, ◌==◌,
  Bool-cases, if◌then◌else◌, get_or, set, Run, ok, ◌>>=◌, inl, inr, arith, subst, ne→==_false,
  ltb→lt, ltb_false→le,
}
use campix.Memory.Buddy.{
  max_order, FreeBlock, BuddyPageAllocator, with_lists, consume, first_free, count_block,
  alloc_from, alloc_order, alloc,
}
use campix.Memory.Buddy.Order.{IsLeastOrder, required_order-IsLeastOrder}
use campix.Memory.Buddy.Cover.{
  inside, cover, Fits, AreLists, limit_of, IsValid, consume-eq, cover-pop,
}
use campix.Memory.Buddy.Split.{
  HasBlock, pop-AreLists, split_down-Rearranged, Searched, first_free-Searched,
}

-- What `alloc` does at `order`: nothing, where no list from there on holds a block; or it hands out
-- a block of that order, which the free lists cover no more, while they cover every other address
-- as often as before.
abbrev pub Allocates : BuddyPageAllocator → ℕ → Option (ℕ × ℕ) × BuddyPageAllocator → Type 0
Allocates a order (none, a') =
    (a' ≡ a) × ((o : ℕ) → order ≤ o → o < 29 → get_or a.free_lists o [] ≡ [])
Allocates a order (some (addr, o), a') =
    (o ≡ order)
    × IsValid a'
    × Fits a.base_addr (limit_of a) order addr
    × ((p : ℕ) → cover a' p + inside addr order p ≡ cover a p)
    × (a'.allocated_pages ≡ (a.allocated_pages + 2 ^ order) % 2 ^ 64)

module _ (a : BuddyPageAllocator) (base_pos : 0 < a.base_addr)
    (in_range : limit_of a < 2 ^ 64) where
  abbrev Completes : ℕ → Run (Option (ℕ × ℕ) × BuddyPageAllocator) → Type 0
  Completes order run =
      (r : Option (ℕ × ℕ) × BuddyPageAllocator) × (run ≡ ok r) × Allocates a order r

  alloc_from-Completes :
      (order : ℕ) (found : Option ℕ)
      → AreLists a.base_addr (limit_of a) a.free_lists
      → order ≤ 28
      → Searched a base_pos in_range a.free_lists (29 - order) order found
      → Completes order (alloc_from order found a)
  alloc_from-Completes order none v h s = ((none, a), refl, (refl, λ o k m. s o k (omega arith)))
  alloc_from-Completes order (some found) v h (least, most, has, before) =
      let split =
        split_down-Rearranged a base_pos in_range (found - order) order a.free_lists v (omega arith)
          (subst (HasBlock a.free_lists) (omega arith) has) in
      let b = split.4.0 in
      let popped =
        pop-AreLists a base_pos in_range split.0 order b split.4.1 split.2 (omega arith)
          split.4.2 in
      (
        count_block order (some b, with_lists a (set split.0 order split.4.1)),
        ap
              (λ (r : Run BuddyPageAllocator).
                r >>= (λ a'. consume order a' >>= (λ taken. ok (count_block order taken))))
              split.1
            ∙ ap
                (λ (r : Run (Option FreeBlock × BuddyPageAllocator)).
                  r >>= (λ taken. ok (count_block order taken)))
                (consume-eq a base_pos in_range split.0 order b split.4.1 split.2 (omega arith)
                  split.4.2),
        (
          refl,
          (base_pos, in_range, popped.1),
          popped.0.1,
          λ p. omega (
            arith,
            cover-pop a base_pos in_range split.0 order b split.4.1 p split.2.0 (omega arith)
                split.4.2,
            split.3 p,
            ap (λ (o : ℕ). inside b.address o p) popped.0.0,
          ),
          refl,
        ),
      )

  at_order :
      (order : ℕ)
      → AreLists a.base_addr (limit_of a) a.free_lists
      → Completes order (
          if ltb max_order order
          then ok (none, a)
          else alloc_from order (first_free (max_order + 1 - order) order a) a)
  at_order order v = elim (Bool-cases (ltb max_order order)) [
    | inl e ↦
        let large : 28 < order = ltb→lt 28 order e in
        rw e ((none, a), refl, (refl, λ o k m. absurd (omega arith)))
    | inr e ↦
        let small : order ≤ 28 = ltb_false→le 28 order e in
        rw e (
          alloc_from-Completes order _ v small (
            first_free-Searched a base_pos in_range (29 - order) order a.free_lists v.0
              (omega arith)))
  ]

-- On a valid allocator, a request for at least one page and at most 2 ^ 63 returns without a panic,
-- at the least order that holds the pages: with no block just when no list from that order on has
-- one, the allocator unchanged, or with a free block of that order, after which the free lists cover
-- its addresses once less and every other address as before, and the allocator is valid.
pub alloc-Allocates :
    (a : BuddyPageAllocator) (num_pages : ℕ)
    → IsValid a
    → 0 < num_pages
    → num_pages ≤ 2 ^ 63
    → (order : ℕ) × IsLeastOrder num_pages order
      × (r : Option (ℕ × ℕ) × BuddyPageAllocator) × (alloc num_pages a ≡ some (ok r))
      × Allocates a order r
unfolding alloc alloc_order
alloc-Allocates a n v pos h =
    let (order, e, is_least) = required_order-IsLeastOrder n h in
    let (r, run, allocates) = at_order a v.0 v.1 order v.2 in
    let nonzero : (n == 0) ≡ false = ne→==_false n 0 (λ z. omega (arith, z)) in
    (order, is_least, r, rw (nonzero, e) (ap (λ x. some x) run), allocates)
