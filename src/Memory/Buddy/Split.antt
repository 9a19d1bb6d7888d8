-- ===== src/Memory/Buddy/Split.antt =====
-- The search of `alloc` for a list that holds a block, and its splits of that block.
use campix.Base.{
  ℕ, zero, suc, ◌+◌, ◌*◌, ◌%◌, ◌^◌, ◌≤◌, ◌<◌, ◌≡◌, refl, sym, ap, ◌∙◌, Option, none, some, List, [],
  ◌∷◌, ◌==◌, ==_iff, Bool-cases, if◌then◌else◌, length, get_or, get_or-set_self,
  get_elem?-eq-get_or, set, All, Run, ok, ◌>>=◌, inl, inr, arith, subst,
}
use campix.Base.Bits.{two_pow_pos}
use campix.Memory.Buddy.{
  page_size, FreeBlock, BuddyPageAllocator, with_lists, split_block, split_down, no_blocks,
  first_free,
}
use campix.Memory.Buddy.Cover.{
  span, inside, cover_lists, Fits, IsBlock, AreLists, limit_of, set-AreLists, add_free_block-eq,
  consume-eq, cover-push, cover-pop, inside-halves, Fits-halves,
}

-- List `order` holds a block.
abbrev pub HasBlock : List (List FreeBlock) → ℕ → Type 0
HasBlock lists order =
    (b : FreeBlock) × (rest : List FreeBlock) × (get_or lists order [] ≡ b ∷ rest)

module _ (a : BuddyPageAllocator) (base_pos : 0 < a.base_addr)
    (in_range : limit_of a < 2 ^ 64) where
  -- Well-formed lists that cover what `lists` covers.
  abbrev pub Rearranged : List (List FreeBlock) → ℕ → Run BuddyPageAllocator → Type 0
  Rearranged lists order r =
      (lists' : List (List FreeBlock)) × (r ≡ ok (with_lists a lists'))
      × AreLists a.base_addr (limit_of a) lists'
      × ((p : ℕ) → cover_lists lists' p ≡ cover_lists lists p)
      × HasBlock lists' order

  pub pop-AreLists :
      (lists : List (List FreeBlock)) (order : ℕ) (b : FreeBlock) (rest : List FreeBlock)
      → AreLists a.base_addr (limit_of a) lists
      → order < 29
      → get_or lists order [] ≡ b ∷ rest
      → IsBlock a.base_addr (limit_of a) order b
        × AreLists a.base_addr (limit_of a) (set lists order rest)
  pop-AreLists lists order b rest v h e =
      let blocks : All (IsBlock a.base_addr (limit_of a) order) (b ∷ rest) =
        subst (All (IsBlock a.base_addr (limit_of a) order)) e (v.1 order) in
      (blocks.0, set-AreLists a.base_addr (limit_of a) lists order rest v h blocks.1)

  push-AreLists :
      (lists : List (List FreeBlock)) (order addr : ℕ)
      → AreLists a.base_addr (limit_of a) lists
      → order < 29
      → Fits a.base_addr (limit_of a) order addr
      → AreLists a.base_addr
          (limit_of a)
          (set lists order (record { address = addr; order = order } ∷ get_or lists order []))
  push-AreLists lists order addr v h f =
      set-AreLists a.base_addr (limit_of a) lists order _ v h ((refl, f), v.1 order)

  split_block-Rearranged :
      (order : ℕ) (lists : List (List FreeBlock))
      → AreLists a.base_addr (limit_of a) lists
      → suc order < 29
      → HasBlock lists (suc order)
      → Rearranged lists order (split_block order (with_lists a lists))
  split_block-Rearranged order lists v h (b, rest, e) = (
    l2,
    runs,
    push-AreLists l1 order b.address v1 (omega arith) halves.0,
    λ p. omega (
      arith,
      cover-pop a base_pos in_range lists (suc order) b rest p v.0 h e,
      cover-push a base_pos in_range l0 order (b.address + span order) p popped.1.0 (omega arith),
      cover-push a base_pos in_range l1 order b.address p v1.0 (omega arith),
      inside-halves b.address order p,
      ap (λ (o : ℕ). inside b.address o p) popped.0.0,
    ),
    (
      record { address = b.address; order = order },
      get_or l1 order [],
      get_or-set_self l1 order _ [] (omega (arith, v1.0)),
    ),
  )
    where
      popped :
          IsBlock a.base_addr (limit_of a) (suc order) b
          × AreLists a.base_addr (limit_of a) (set lists (suc order) rest)
      popped = pop-AreLists lists (suc order) b rest v h e

      halves :
          Fits a.base_addr (limit_of a) order b.address
          × Fits a.base_addr (limit_of a) order (b.address + span order)
      halves = Fits-halves a.base_addr (limit_of a) order b.address popped.0.1

      l0 : List (List FreeBlock)
      l0 = set lists (suc order) rest

      l1 : List (List FreeBlock)
      l1 =
          set l0 order
            (record { address = b.address + span order; order = order } ∷ get_or l0 order [])

      v1 : AreLists a.base_addr (limit_of a) l1
      v1 = push-AreLists l0 order (b.address + span order) popped.1 (omega arith) halves.1

      l2 : List (List FreeBlock)
      l2 = set l1 order (record { address = b.address; order = order } ∷ get_or l1 order [])

      small : (b.address + page_size * 2 ^ order) % 2 ^ 64 ≡ b.address + span order
      small = omega (arith, halves.1.2, two_pow_pos order)

      runs : split_block order (with_lists a lists) ≡ ok (with_lists a l2)
      runs =
          rw
            (
              consume-eq a base_pos in_range lists (suc order) b rest v h e,
              small,
              add_free_block-eq a base_pos in_range l0 order (b.address + span order) popped.1
                  (omega arith) halves.1,
              add_free_block-eq a base_pos in_range l1 order b.address v1 (omega arith) halves.0,
            )
            refl

  pub split_down-Rearranged :
      (d order : ℕ) (lists : List (List FreeBlock))
      → AreLists a.base_addr (limit_of a) lists
      → order + d < 29
      → HasBlock lists (order + d)
      → Rearranged lists order (split_down d order (with_lists a lists))
  split_down-Rearranged zero order lists v h (b, rest, e) =
      (lists, refl, v, λ p. refl, (b, rest, ap (λ (o : ℕ). get_or lists o []) (omega arith) ∙ e))
  split_down-Rearranged (suc d) order lists v h has =
      let once =
        split_block-Rearranged (order + d) lists v (omega arith)
          (subst (HasBlock lists) (omega arith) has) in
      let rest = split_down-Rearranged d order once.0 once.2 (omega arith) once.4 in
      (
        rest.0,
        ap (λ (r : Run BuddyPageAllocator). r >>= split_down d order) once.1 ∙ rest.1,
        rest.2,
        λ p. rest.3 p ∙ once.3 p,
        rest.4,
      )

  -- The least order from `order` on whose list holds a block, or that there is none.
  abbrev pub Searched : List (List FreeBlock) → ℕ → ℕ → Option ℕ → Type 0
  Searched lists left order none = (o : ℕ) → order ≤ o → o < order + left → get_or lists o [] ≡ []
  Searched lists left order (some found) =
      (order ≤ found)
      × (found < order + left)
      × HasBlock lists found
      × ((o : ℕ) → order ≤ o → o < found → get_or lists o [] ≡ [])

  found_later :
      (lists : List (List FreeBlock)) (left order : ℕ) (r : Option ℕ)
      → get_or lists order [] ≡ []
      → Searched lists left (order + 1) r
      → Searched lists (suc left) order r
  found_later lists left order none e s = λ o k m. elim (Bool-cases (order == o)) [
    | inl same ↦ ap (λ (i : ℕ). get_or lists i []) (sym ((==_iff order o).0 same)) ∙ e
    | inr differ ↦ s o (ground (arith, differ)) (omega arith)
  ]
  found_later lists left order (some found) e (least, most, has, before) = (
    omega arith,
    omega arith,
    has,
    λ o k m. elim (Bool-cases (order == o)) [
      | inl same ↦ ap (λ (i : ℕ). get_or lists i []) (sym ((==_iff order o).0 same)) ∙ e
      | inr differ ↦ before o (ground (arith, differ)) m
    ],
  )

  look :
      (lists : List (List FreeBlock)) (left order : ℕ) (r : Option ℕ) (blocks : List FreeBlock)
      → get_or lists order [] ≡ blocks
      → Searched lists left (order + 1) r
      → Searched lists (suc left) order (if no_blocks (some blocks) then r else some order)
  look lists left order r [] e s = found_later lists left order r e s
  look lists left order r (b ∷ rest) e s =
      (omega arith, omega arith, (b, rest, e), λ o k m. absurd (omega arith))

  pub first_free-Searched :
      (left order : ℕ) (lists : List (List FreeBlock))
      → length lists ≡ 29
      → order + left ≤ 29
      → Searched lists left order (first_free left order (with_lists a lists))
  first_free-Searched zero order lists l h = λ o k m. absurd (omega arith)
  first_free-Searched (suc left) order lists l h =
      let rest = first_free left (order + 1) (with_lists a lists) in
      subst
        (λ (o : Option (List FreeBlock)).
          Searched lists (suc left) order (if no_blocks o then rest else some order))
        (sym (get_elem?-eq-get_or lists order [] (omega arith)))
        (look lists left order rest (get_or lists order []) refl
          (first_free-Searched left (order + 1) lists l (omega arith)))
