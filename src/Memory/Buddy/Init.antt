-- ===== src/Memory/Buddy/Init.antt =====
-- `BuddyPageAllocator::new` and `init`: the blocks that the pages are parted into.
use campix.Base.{
  ℕ, zero, suc, ◌+◌, ◌-◌, ◌*◌, ◌%◌, ◌^◌, ◌≤◌, ◌<◌, ◌≡◌, refl, sym, ap, ◌∙◌, false, ◌&&◌, List, [],
  ◌∷◌, ltb, leb, ◌==◌, ltb→lt, lt→ltb, ltb_false→le, ne→==_false, Bool-cases, if◌then◌else◌, get_or,
  get_or-set_ne, get_or-replicate, replicate, set, All, Run, ok, panic, bit_and, inl, inr, arith,
  subst,
}
use campix.Base.Bits.{two_pow_suc}
use campix.Base.Words.{bit_and-low_mask}
use campix.Memory.Buddy.{page_size, FreeBlock, BuddyPageAllocator, with_lists, init_from, init, new}
use campix.Memory.Buddy.Cover.{
  span, cover_list, cover_lists, cover_lists-set, cover, Fits, AreLists, limit_of, IsValid,
  set-AreLists,
}

-- 1 for the addresses from the first up to the second, 0 for any other.
abbrev pub between : ℕ → ℕ → ℕ → ℕ
between first last p = if leb first p && ltb p last then 1 else 0

half : (i q : ℕ) → 2 ^ suc i * q ≡ 2 ^ i * (2 * q)
half i q = rw (two_pow_suc i) (grind arith)

odd : (i q : ℕ) → 2 ^ i * (2 * q + 1) ≡ 2 ^ i * (2 * q) + 2 ^ i
odd i q = grind arith

scale : (s k : ℕ) → 4096 * s * k ≡ 4096 * (s * k)
scale s k = grind arith

between-split :
    (first mid last p : ℕ)
    → first ≤ mid
    → mid ≤ last
    → between first last p ≡ between first mid p + between mid last p
between-split first mid last p h k = ground arith

module _ (a : BuddyPageAllocator) (base_pos : 0 < a.base_addr)
    (in_range : limit_of a < 2 ^ 64) where
  abbrev Initialised : List (List FreeBlock) → ℕ → BuddyPageAllocator → Type 0
  Initialised lists curr_page r =
      (lists' : List (List FreeBlock)) × (r ≡ with_lists a lists')
      × AreLists a.base_addr (limit_of a) lists'
      × ((p : ℕ)
          → cover_lists lists' p
            ≡ cover_lists lists p + between (a.base_addr + curr_page * page_size) (limit_of a) p)

  init_from-Initialised :
      (i curr_page q : ℕ) (lists : List (List FreeBlock))
      → i ≤ 29
      → AreLists a.base_addr (limit_of a) lists
      → ((o : ℕ) → o < i → get_or lists o [] ≡ [])
      → curr_page ≡ 2 ^ i * q
      → curr_page ≤ a.page_count
      → a.page_count - curr_page < 2 ^ i
      → Initialised lists curr_page (init_from i curr_page (with_lists a lists))
  init_from-Initialised zero curr q lists h v e c l r = (lists, refl, v, λ p. ground arith)
  init_from-Initialised (suc i) curr q lists h v e c l r =
      elim (Bool-cases (ltb (a.page_count - curr) (2 ^ i))) [
        | inl t ↦ rw t (
            init_from-Initialised i curr (2 * q) lists (omega arith) v (λ o k. e o (omega arith))
              (c ∙ half i q) l (ltb→lt _ (2 ^ i) t))
        | inr t ↦ rw t (
            let enough : 2 ^ i ≤ a.page_count - curr = ltb_false→le _ (2 ^ i) t in
            rw (small, nonzero)
              (added enough (
                init_from-Initialised i (curr + 2 ^ i) (2 * q + 1) (with_block 0) (omega arith)
                  (set-AreLists a.base_addr (limit_of a) lists i _ v (omega arith)
                    ((refl, fits enough), tt))
                  (λ o k.
                    get_or-set_ne lists i o _ [] (λ (s : i ≡ o). absurd (omega (arith, s, k)))
                    ∙ e o (omega arith))
                  (omega (arith, c, half i q, odd i q)) (omega arith)
                  (omega (arith, two_pow_suc i)))))
      ]
    where
      small : (a.base_addr + curr * page_size) % 2 ^ 64 ≡ a.base_addr + curr * page_size
      small = omega arith

      nonzero : (a.base_addr + curr * page_size == 0) ≡ false
      nonzero = ne→==_false (a.base_addr + curr * page_size) 0 (λ z. omega (arith, z))

      with_block : ℕ → List (List FreeBlock)
      with_block z =
          set lists i (record { address = a.base_addr + curr * page_size; order = i } ∷ [])

      fits :
          2 ^ i ≤ a.page_count - curr
          → Fits a.base_addr (limit_of a) i (a.base_addr + curr * page_size)
      fits enough = (2 * q, omega (arith, c, half i q, scale (2 ^ i) (2 * q)), omega arith)

      next : ℕ → a.base_addr + (curr + 2 ^ i) * page_size ≡ a.base_addr + curr * page_size + span i
      next z = omega arith

      added :
          2 ^ i ≤ a.page_count - curr
          → {r : BuddyPageAllocator}
          → Initialised
              (set lists i (record { address = a.base_addr + curr * page_size; order = i } ∷ []))
              (curr + 2 ^ i)
              r
          → Initialised lists curr r
      added enough (l, run, valid, covers) = (
        l,
        run,
        valid,
        λ p. omega (
          arith,
          covers p,
          cover_lists-set lists i
              (record { address = a.base_addr + curr * page_size; order = i } ∷ []) p
              (omega (arith, v.0)),
          ap (λ (bs : List FreeBlock). cover_list bs p) (e i (omega arith)),
          ap (λ (k : ℕ). between k (limit_of a) p) (next 0),
          between-split (a.base_addr + curr * page_size) (a.base_addr + curr * page_size + span i)
              (limit_of a) p (omega arith) (omega arith),
        ),
      )

init-Initialised :
    (a : BuddyPageAllocator) (base_pos : 0 < a.base_addr) (in_range : limit_of a < 2 ^ 64)
    → AreLists a.base_addr (limit_of a) a.free_lists
    → ((o : ℕ) → o < 29 → get_or a.free_lists o [] ≡ [])
    → a.page_count < 2 ^ 29
    → Initialised a base_pos in_range a.free_lists 0 (init a)
unfolding init
init-Initialised a base_pos in_range v e few =
    init_from-Initialised a base_pos in_range 29 0 0 a.free_lists (omega arith) v e refl
      (omega arith) (omega arith)

checked :
    (m n : ℕ) (r : Run BuddyPageAllocator)
    → m ≡ 0
    → 0 < n
    → (if (m == 0) && ltb 0 n then r else panic) ≡ r
checked m n r e h = rw (e, lt→ltb 0 n h) refl

-- A new allocator over less than 2 ^ 29 pages from an aligned address is valid, has nothing
-- allocated, and its free lists cover every address of those pages once and no other.
pub new-Covers :
    (base_addr page_count : ℕ)
    → 0 < base_addr
    → base_addr % page_size ≡ 0
    → 0 < page_count
    → page_count < 2 ^ 29
    → base_addr + page_size * page_count < 2 ^ 64
    → (a : BuddyPageAllocator) × (new base_addr page_count ≡ ok a)
      × IsValid a
      × (a.allocated_pages ≡ 0)
      × ((p : ℕ) → cover a p ≡ between base_addr (base_addr + page_size * page_count) p)
unfolding new
new-Covers base_addr page_count pos aligned some_pages few in_range =
    let a0 : BuddyPageAllocator = record {
      base_addr = base_addr;
      page_count = page_count;
      free_lists = replicate 29 [];
      allocated_pages = 0;
    } in
    let (l, run, valid, covers) =
      init-Initialised a0 pos in_range
        (refl, λ o. subst (All _) (sym (get_or-replicate 29 o [])) tt)
        (λ o k. get_or-replicate 29 o []) few in
    let masked : bit_and base_addr (page_size - 1) ≡ 0 = bit_and-low_mask 12 base_addr ∙ aligned in
    (
      with_lists a0 l,
      checked _ page_count _ masked some_pages ∙ ap (λ r. ok r) run,
      (pos, in_range, valid),
      refl,
      λ p. omega (
        arith,
        covers p,
        ap (λ (k : ℕ). between k (base_addr + page_size * page_count) p) (start 0),
      ),
    )
  where
    start : ℕ → base_addr + 0 * page_size ≡ base_addr
    start z = omega arith
