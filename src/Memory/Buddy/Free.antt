-- ===== src/Memory/Buddy/Free.antt =====
-- `BuddyPageAllocator::free`: the buddy of a block, the removal of a free buddy, and the merges.
use campix.Base.{
  ℕ, zero, suc, ◌+◌, ◌-◌, ◌*◌, ◌%◌, ◌^◌, ◌≤◌, ◌<◌, ◌≡◌, refl, sym, ap, ◌∙◌, Bool, true, false, min,
  List, [], ◌∷◌, if◌then◌else◌, length, get_or, get_or-set_ne, get_elem?-eq-get_or, set, All, Run,
  ok, ◌>>=◌, inl, inr, arith, subst, bit_xor, ◌&&◌, leb, ltb,
}
use campix.Base.Bits.{two_pow_pos}
use campix.Memory.Buddy.{
  max_order, FreeBlock, BuddyPageAllocator, with_lists, add_free_block, remove_at,
  remove_free_block, buddy_of, merge, free,
}
use campix.Memory.Buddy.Cover.{
  span, inside, cover_list, cover_lists, cover_lists-set, cover, Fits, IsBlock, AreLists, limit_of,
  IsValid, set-AreLists, add_free_block-eq, cover-push, span_odd,
}
use campix.Memory.Buddy.Pairs.{
  Paired, paired, find_buddy-eq, Removes, remove_at-Removes, Merges, halves-Merge,
}

module _ (a : BuddyPageAllocator) (base_pos : 0 < a.base_addr)
    (in_range : limit_of a < 2 ^ 64) where
  buddy_of-eq :
      (lists : List (List FreeBlock)) (order addr q : ℕ)
      → addr ≡ a.base_addr + span order * q
      → addr + span order ≤ limit_of a
      → buddy_of addr order (with_lists a lists) ≡ a.base_addr + span order * bit_xor q 1
  unfolding buddy_of
  buddy_of-eq lists order addr q place fits =
      let offset : (addr + 2 ^ 64 - a.base_addr) % 2 ^ 64 ≡ span order * q =
        omega (arith, two_pow_pos order) in
      let paired_span : span order * bit_xor q 1 ≤ span order * q + span order = near (paired q) in
      rw (offset, find_buddy-eq order q) (omega arith)
    where
      near : Paired q → span order * bit_xor q 1 ≤ span order * q + span order
      near (h, inl (e, e')) = omega (
        arith,
        ap (λ (k : ℕ). span order * k) e,
        ap (λ (k : ℕ). span order * k) e',
        span_odd order h,
      )
      near (h, inr (e, e')) = omega (
        arith,
        ap (λ (k : ℕ). span order * k) e,
        ap (λ (k : ℕ). span order * k) e',
        span_odd order h,
      )

  buddy-Merges :
      (lists : List (List FreeBlock)) (order addr : ℕ)
      → Fits a.base_addr (limit_of a) order addr
      → Fits a.base_addr (limit_of a) order (buddy_of addr order (with_lists a lists))
      → Merges a.base_addr (limit_of a) order addr (buddy_of addr order (with_lists a lists))
  buddy-Merges lists order addr (q, place, fits) (q', place', fits') = go (paired q)
    where
      buddy : buddy_of addr order (with_lists a lists) ≡ a.base_addr + span order * bit_xor q 1
      buddy = buddy_of-eq lists order addr q place fits

      at : {j k : ℕ} → j ≡ k → a.base_addr + span order * j ≡ a.base_addr + span order * k
      at e = ap (λ (k : ℕ). a.base_addr + span order * k) e

      go :
          Paired q
          → Merges a.base_addr (limit_of a) order addr (buddy_of addr order (with_lists a lists))
      go (h, inl (e, e')) =
          (halves-Merge a.base_addr (limit_of a) order addr
            (buddy_of addr order (with_lists a lists)) h (place ∙ at e)
            (omega (arith, buddy ∙ at e', place ∙ at e, span_odd order h)) fits').0
      go (h, inr (e, e')) =
          (halves-Merge a.base_addr (limit_of a) order (buddy_of addr order (with_lists a lists))
            addr h (buddy ∙ at e') (omega (arith, buddy ∙ at e', place ∙ at e, span_odd order h))
            fits).1

  -- Well-formed lists that cover the block's addresses once more than `lists` do.
  abbrev Freed : List (List FreeBlock) → ℕ → ℕ → Run BuddyPageAllocator → Type 0
  Freed lists order addr run =
      (lists' : List (List FreeBlock)) × (run ≡ ok (with_lists a lists'))
      × AreLists a.base_addr (limit_of a) lists'
      × ((p : ℕ) → cover_lists lists' p ≡ cover_lists lists p + inside addr order p)

  added-Freed :
      (lists : List (List FreeBlock)) (order addr : ℕ)
      → AreLists a.base_addr (limit_of a) lists
      → order < 29
      → Fits a.base_addr (limit_of a) order addr
      → Freed lists order addr (add_free_block addr order (with_lists a lists))
  added-Freed lists order addr v h f = (
    set lists order (record { address = addr; order = order } ∷ get_or lists order []),
    add_free_block-eq a base_pos in_range lists order addr v h f,
    set-AreLists a.base_addr (limit_of a) lists order _ v h ((refl, f), v.1 order),
    λ p. cover-push a base_pos in_range lists order addr p v.0 h,
  )

  remove_free_block-eq :
      (lists : List (List FreeBlock)) (order addr : ℕ)
      → length lists ≡ 29
      → order < 29
      → remove_free_block addr order (with_lists a lists)
        ≡ ok (
          (remove_at addr (get_or lists order [])).0,
          with_lists a (set lists order (remove_at addr (get_or lists order [])).1),
        )
  unfolding remove_free_block
  remove_free_block-eq lists order addr l h =
      rw (get_elem?-eq-get_or lists order [] (omega arith)) refl

  -- Putting a list back where it was changes nothing that is covered.
  same-Freed :
      (lists : List (List FreeBlock)) (order addr : ℕ) (blocks : List FreeBlock)
      → AreLists a.base_addr (limit_of a) lists
      → order < 29
      → Fits a.base_addr (limit_of a) order addr
      → blocks ≡ get_or lists order []
      → Freed lists order addr (add_free_block addr order (with_lists a (set lists order blocks)))
  same-Freed lists order addr blocks v h f e =
      let all : All (IsBlock a.base_addr (limit_of a) order) blocks =
        subst (All (IsBlock a.base_addr (limit_of a) order)) (sym e) (v.1 order) in
      let (l, run, valid, covers) =
        added-Freed (set lists order blocks) order addr
          (set-AreLists a.base_addr (limit_of a) lists order blocks v h all) h f in
      (
        l,
        run,
        valid,
        λ p. omega (
          arith,
          covers p,
          cover_lists-set lists order blocks p (omega (arith, v.0)),
          ap (λ (bs : List FreeBlock). cover_list bs p) e,
        ),
      )

  -- One round: the buddy is on the list, and the merged block is freed one order up; or it is not.
  merged :
      (above : ℕ) (lists : List (List FreeBlock)) (order addr : ℕ)
      → AreLists a.base_addr (limit_of a) lists
      → order < 28
      → Fits a.base_addr (limit_of a) order addr
      → ((ls : List (List FreeBlock)) (m : ℕ)
          → AreLists a.base_addr (limit_of a) ls
          → get_or ls 28 [] ≡ get_or lists 28 []
          → Fits a.base_addr (limit_of a) (suc order) m
          → Freed ls (suc order) m (merge above m (suc order) (with_lists a ls)))
      → Freed lists order addr (merge (suc above) addr order (with_lists a lists))
  merged above lists order addr v h f next =
      subst (Freed lists order addr)
        (sym (
          ap
            (λ (r : Run (Bool × BuddyPageAllocator)). r >>= (λ removed.
              if removed.0
              then merge above (min addr buddy) (suc order) removed.1
              else add_free_block addr order removed.1))
            (remove_free_block-eq lists order buddy v.0 (omega arith))))
        (go (remove_at buddy (get_or lists order [])) (
          remove_at-Removes a.base_addr (limit_of a) order buddy (get_or lists order [])
            (v.1 order)))
    where
      buddy : ℕ
      buddy = buddy_of addr order (with_lists a lists)

      go :
          (r : Bool × List FreeBlock)
          → Removes a.base_addr
              (limit_of a)
              order
              (buddy_of addr order (with_lists a lists))
              (get_or lists order [])
              r
          → Freed lists order addr (
              if r.0
              then merge above
                  (min addr (buddy_of addr order (with_lists a lists)))
                  (suc order)
                  (with_lists a (set lists order r.1))
              else add_free_block addr order (with_lists a (set lists order r.1)))
      go (false, rest) e = same-Freed lists order addr rest v (omega arith) f e
      go (true, rest) (fits, all, covers) =
          let (fit, union) = buddy-Merges lists order addr f fits in
          let (l, run, valid, now) =
            next (set lists order rest) _
              (set-AreLists a.base_addr (limit_of a) lists order rest v (omega arith) all)
              (get_or-set_ne lists order 28 rest []
                (λ (e : order ≡ 28). absurd (omega (arith, h, e))))
              fit in
          (
            l,
            run,
            valid,
            λ p. omega (
              arith,
              now p,
              union p,
              covers p,
              cover_lists-set lists order rest p (omega (arith, v.0)),
            ),
          )

  last-Freed :
      (lists : List (List FreeBlock)) (order addr : ℕ)
      → AreLists a.base_addr (limit_of a) lists
      → order < 29
      → get_or lists order [] ≡ []
      → Fits a.base_addr (limit_of a) order addr
      → Freed lists order addr (merge zero addr order (with_lists a lists))
  last-Freed lists order addr v h e f =
      subst (Freed lists order addr)
        (sym (
          ap
            (λ (r : Run (Bool × BuddyPageAllocator)). r >>= (λ removed.
              if removed.0 then ok removed.1 else add_free_block addr order removed.1))
            (remove_free_block-eq lists order (buddy_of addr order (with_lists a lists)) v.0 h
              ∙ ap
                  (λ (bs : List FreeBlock). ok (
                    (remove_at (buddy_of addr order (with_lists a lists)) bs).0,
                    with_lists a (
                        set lists order
                          (remove_at (buddy_of addr order (with_lists a lists)) bs).1),
                  ))
                  e)))
        (same-Freed lists order addr [] v h f (sym e))

  merge-Freed :
      (above : ℕ) (lists : List (List FreeBlock)) (order addr : ℕ)
      → order + above ≡ 28
      → AreLists a.base_addr (limit_of a) lists
      → get_or lists 28 [] ≡ []
      → Fits a.base_addr (limit_of a) order addr
      → Freed lists order addr (merge above addr order (with_lists a lists))
  merge-Freed zero lists order addr e v top f =
      let top_order : order ≡ 28 = omega arith in
      last-Freed lists order addr v (omega arith)
        (ap (λ (o : ℕ). get_or lists o []) top_order ∙ top) f
  merge-Freed (suc above) lists order addr e v top f =
      merged above lists order addr v (omega arith) f (λ ls m valid same fit.
        merge-Freed above ls (suc order) m (omega arith) valid (same ∙ top) fit)

once : (b : Bool) (n : ℕ) → (b ≡ true → n ≡ 0) → n + (if b then 1 else 0) ≡ (if b then 1 else n)
once true n h = omega (arith, h refl)
once false n h = omega arith

abbrev pub within : ℕ → ℕ → ℕ → Bool
within addr order p = leb addr p && ltb p (addr + span order)

-- No address of the block is free. The source keeps the header of a free block in the block, so
-- that the lists are those of the model only as long as no block is put on them twice.
abbrev pub IsUsed : BuddyPageAllocator → ℕ → ℕ → Type 0
IsUsed a order addr = (p : ℕ) → within addr order p ≡ true → cover a p ≡ 0

-- Freeing a block that lies where a block of its order may lie and of which no address is free, on
-- a valid allocator none of whose free blocks has the largest order, does not panic: the free lists
-- then cover each of the block's addresses once and every other address as before, however many
-- merges it took, and the allocator is valid.
pub free-Frees :
    (a : BuddyPageAllocator) (addr order : ℕ)
    → IsValid a
    → order ≤ max_order
    → get_or a.free_lists max_order [] ≡ []
    → Fits a.base_addr (limit_of a) order addr
    → IsUsed a order addr
    → (a' : BuddyPageAllocator) × (free addr order a ≡ ok a')
      × IsValid a'
      × ((p : ℕ) → cover a' p ≡ (if within addr order p then 1 else cover a p))
      × (a'.allocated_pages ≡ (a.allocated_pages + 2 ^ 64 - 2 ^ order) % 2 ^ 64)
unfolding free
free-Frees a addr order v h top f used =
    let less : BuddyPageAllocator = record a {
      allocated_pages = (a.allocated_pages + 2 ^ 64 - 2 ^ order) % 2 ^ 64;
    } in
    let (l, run, valid, covers) =
      merge-Freed less v.0 v.1 (max_order - order) a.free_lists order addr (omega arith) v.2 top
        f in
    (
      with_lists less l,
      run,
      (v.0, v.1, valid),
      λ p. covers p ∙ once (within addr order p) (cover a p) (used p),
      refl,
    )
