-- ===== src/Memory/Buddy/Cover.antt =====
-- What the free lists cover: at each address the number of free blocks that hold it. The lists are
-- well formed when the blocks of a list have its order, lie at a multiple of their size from the
-- base, and end within the memory.
use campix.Base.{
  ℕ, zero, suc, ◌+◌, ◌-◌, ◌*◌, ◌%◌, ◌^◌, ◌≤◌, ◌<◌, ◌≡◌, refl, sym, ap, ◌∙◌, true, false, ◌&&◌, some,
  List, [], ◌∷◌, ltb, leb, ◌==◌, ==_iff, Bool-cases, if◌then◌else◌, length, get_or, get_or-set_self,
  get_or-set_ne, get_elem?-eq-get_or, length-set, set, All, ok, inl, inr, arith, subst, ne→==_false,
}
use native.Mathlib.Nat.{mul-mod_right}
use campix.Base.Bits.{two_pow_pos, two_pow_suc}
use campix.Memory.Buddy.{
  page_size, FreeBlock, BuddyPageAllocator, with_lists, add_free_block, consume,
}

-- The bytes of a block.
abbrev pub span : ℕ → ℕ
span order = page_size * 2 ^ order

-- 1 for the addresses of a block, 0 for any other.
abbrev pub inside : ℕ → ℕ → ℕ → ℕ
inside addr order p = if leb addr p && ltb p (addr + span order) then 1 else 0

abbrev pub cover_list : List FreeBlock → ℕ → ℕ
cover_list [] p = 0
cover_list (b ∷ rest) p = inside b.address b.order p + cover_list rest p

abbrev pub cover_lists : List (List FreeBlock) → ℕ → ℕ
cover_lists [] p = 0
cover_lists (blocks ∷ rest) p = cover_list blocks p + cover_lists rest p

abbrev pub cover : BuddyPageAllocator → ℕ → ℕ
cover a p = cover_lists a.free_lists p

-- A block's place: a multiple of its size from `base`, and within `limit`.
abbrev pub Fits : ℕ → ℕ → ℕ → ℕ → Type 0
Fits base limit order addr = (q : ℕ) × (addr ≡ base + span order * q) × (addr + span order ≤ limit)

abbrev pub IsBlock : ℕ → ℕ → ℕ → FreeBlock → Type 0
IsBlock base limit order b = (b.order ≡ order) × Fits base limit order b.address

abbrev pub AreLists : ℕ → ℕ → List (List FreeBlock) → Type 0
AreLists base limit lists =
    (length lists ≡ 29) × ((order : ℕ) → All (IsBlock base limit order) (get_or lists order []))

abbrev pub limit_of : BuddyPageAllocator → ℕ
limit_of a = a.base_addr + page_size * a.page_count

abbrev pub IsValid : BuddyPageAllocator → Type 0
IsValid a =
    (0 < a.base_addr) × (limit_of a < 2 ^ 64) × AreLists a.base_addr (limit_of a) a.free_lists

pub cover_lists-set :
    (lists : List (List FreeBlock)) (i : ℕ) (blocks : List FreeBlock) (p : ℕ)
    → i < length lists
    → cover_lists (set lists i blocks) p + cover_list (get_or lists i []) p
      ≡ cover_lists lists p + cover_list blocks p
cover_lists-set [] i blocks p h = absurd (omega arith)
cover_lists-set (l ∷ lists) zero blocks p h = omega arith
cover_lists-set (l ∷ lists) (suc i) blocks p h =
    omega (arith, cover_lists-set lists i blocks p (omega arith))

pub set-AreLists :
    (base limit : ℕ) (lists : List (List FreeBlock)) (i : ℕ) (blocks : List FreeBlock)
    → AreLists base limit lists
    → i < 29
    → All (IsBlock base limit i) blocks
    → AreLists base limit (set lists i blocks)
set-AreLists base limit lists i blocks v h all = (
  length-set lists i blocks ∙ v.0,
  λ order. elim (Bool-cases (i == order)) [
    | inl e ↦
        let same : i ≡ order = (==_iff i order).0 e in
        subst (λ o. All (IsBlock base limit o) (get_or (set lists i blocks) o [])) same
          (subst (All (IsBlock base limit i))
            (sym (get_or-set_self lists i blocks [] (omega (arith, v.0)))) all)
    | inr e ↦
        subst (All (IsBlock base limit order))
          (sym (get_or-set_ne lists i order blocks [] (λ s. ground (arith, e, s)))) (v.1 order)
  ],
)

module _ (a : BuddyPageAllocator) (base_pos : 0 < a.base_addr)
    (in_range : limit_of a < 2 ^ 64) where
  pub add_free_block-eq :
      (lists : List (List FreeBlock)) (order addr : ℕ)
      → AreLists a.base_addr (limit_of a) lists
      → order < 29
      → Fits a.base_addr (limit_of a) order addr
      → add_free_block addr order (with_lists a lists)
        ≡ ok (
            with_lists a
              (set lists order (record { address = addr; order = order } ∷ get_or lists order [])))
  unfolding add_free_block
  add_free_block-eq lists order addr v h (q, place, fits) =
      rw (offset, multiple, get_elem?-eq-get_or lists order [] (omega (arith, v.0)), nonzero) refl
    where
      offset : (addr + 2 ^ 64 - a.base_addr) % 2 ^ 64 ≡ span order * q
      offset = omega (arith, two_pow_pos order)

      multiple : span order * q % span order ≡ 0
      multiple = mul-mod_right (span order) q

      nonzero : (addr == 0) ≡ false
      nonzero = ne→==_false addr 0 (λ z. omega (arith, place, z))

  pub consume-eq :
      (lists : List (List FreeBlock)) (order : ℕ) (b : FreeBlock) (rest : List FreeBlock)
      → AreLists a.base_addr (limit_of a) lists
      → order < 29
      → get_or lists order [] ≡ b ∷ rest
      → consume order (with_lists a lists) ≡ ok (some b, with_lists a (set lists order rest))
  unfolding consume
  consume-eq lists order b rest v h e =
      let blocks : All (IsBlock a.base_addr (limit_of a) order) (b ∷ rest) =
        subst (All (IsBlock a.base_addr (limit_of a) order)) e (v.1 order) in
      let known : (order == b.order) ≡ true = (==_iff order b.order).1 (sym blocks.0.0) in
      rw (get_elem?-eq-get_or lists order [] (omega (arith, v.0)), e, known) refl

  -- Adding a block covers its addresses once more; taking one off a list covers them once less.
  pub cover-push :
      (lists : List (List FreeBlock)) (order addr p : ℕ)
      → length lists ≡ 29
      → order < 29
      → cover_lists
          (set lists order (record { address = addr; order = order } ∷ get_or lists order []))
          p
        ≡ cover_lists lists p + inside addr order p
  cover-push lists order addr p l h = omega (
    arith,
    cover_lists-set lists order (record { address = addr; order = order } ∷ get_or lists order []) p
        (omega arith),
  )

  pub cover-pop :
      (lists : List (List FreeBlock)) (order : ℕ) (b : FreeBlock) (rest : List FreeBlock) (p : ℕ)
      → length lists ≡ 29
      → order < 29
      → get_or lists order [] ≡ b ∷ rest
      → cover_lists (set lists order rest) p + inside b.address b.order p ≡ cover_lists lists p
  cover-pop lists order b rest p l h e =
      let now = cover_lists-set lists order rest p (omega arith) in
      let head : cover_list (get_or lists order []) p
          ≡ inside b.address b.order p + cover_list rest p =
        ap (λ (bs : List FreeBlock). cover_list bs p) e in
      omega (arith, now, head)

-- A block is its two halves.
pub inside-halves :
    (addr order p : ℕ)
    → inside addr (suc order) p ≡ inside addr order p + inside (addr + span order) order p
inside-halves addr order p = ground (arith, two_pow_suc order)

pub span_double : (order q : ℕ) → span (suc order) * q ≡ span order * (2 * q)
span_double order q = rw (two_pow_suc order) (grind arith)

pub span_odd : (order q : ℕ) → span order * (2 * q + 1) ≡ span order * (2 * q) + span order
span_odd order q = grind arith

pub Fits-halves :
    (base limit order addr : ℕ)
    → Fits base limit (suc order) addr
    → Fits base limit order addr × Fits base limit order (addr + span order)
Fits-halves base limit order addr (q, place, fits) = (
  (2 * q, place ∙ ap (λ (k : ℕ). base + k) (span_double order q), omega (arith, two_pow_suc order)),
  (
    2 * q + 1,
    omega (arith, place, span_double order q, span_odd order q),
    omega (arith, two_pow_suc order),
  ),
)

pub Fits-merged :
    (base limit order q : ℕ)
    → base + span order * (2 * q + 1) + span order ≤ limit
    → Fits base limit (suc order) (base + span order * (2 * q))
Fits-merged base limit order q h = (
  q,
  ap (λ (k : ℕ). base + k) (sym (span_double order q)),
  omega (arith, two_pow_suc order, span_odd order q),
)
