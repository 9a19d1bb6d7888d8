-- ===== src/Paging/SimpleAllocator/Runs.antt =====
-- That `SimplePageAllocator` hands out aligned pages of its runs, and none of them twice.
use campix.Base.{
  ℕ, ◌+◌, ◌-◌, ◌*◌, ◌%◌, ◌^◌, ◌≤◌, ◌<◌, ◌≡◌, ◌≢◌, ◌⊎◌, inl, inr, sym, ap, subst, ◌∙◌, false, Option,
  some, List, [], ◌∷◌, ltb, ◌==◌, Bool-cases, arith, ne→==_false,
}
use mathlib.Core.Option.{none-ne-some, some-injective}
use campix.Paging.SimpleAllocator.{
  FreePage, SimplePageAllocator, link_page, rest_of_run, take_page, alloc_page, simple_allocator,
}
use campix.Paging.Map.{IsAllocator}
use campix.Paging.Map.Entry.{IsPage}

-- A page of a run.
abbrev pub IsIn : FreePage → ℕ → Type 0
IsIn p page = (n : ℕ) × (n < p.this_size_in_pages) × (page ≡ p.address + 2 ^ 12 * n)

-- A run that is not empty, starts at a page of the direct mapping and does not wrap.
abbrev pub IsRun : FreePage → Type 0
IsRun p =
    IsPage p.address
    × (0 < p.this_size_in_pages)
    × (p.address + 2 ^ 12 * p.this_size_in_pages ≤ 2 ^ 64)

abbrev pub IsListed : List FreePage → ℕ → Type 0
IsListed [] page = ⊥
IsListed (p ∷ rest) page = IsIn p page ⊎ IsListed rest page

-- Runs of which no two share a page.
abbrev pub AreRuns : List FreePage → Type 0
AreRuns [] = Unit
AreRuns (p ∷ rest) = IsRun p × ((page : ℕ) → IsIn p page → IsListed rest page → ⊥) × AreRuns rest

-- The runs `ps` have no page but those of `p` and `rest`, and not the first one.
abbrev Leaves : FreePage → List FreePage → List FreePage → Type 0
Leaves p rest ps =
    AreRuns ps × ((other : ℕ) → IsListed ps other → IsListed (p ∷ rest) other × (other ≢ p.address))

first_page : (p : FreePage) → IsRun p → IsIn p p.address
first_page p (page, some_pages, fits) = (0, some_pages, omega arith)

Leaves-rest : (p : FreePage) (rest : List FreePage) → AreRuns (p ∷ rest) → Leaves p rest rest
Leaves-rest p rest (run, apart, runs) = (
  runs,
  λ other h. (inr h, λ same. apart p.address (first_page p run) (subst (IsListed rest) same h)),
)

-- The run without its first page.
abbrev shorter : FreePage → FreePage
shorter p = record {
  address = (p.address + 4096) % 2 ^ 64;
  this_size_in_pages = (p.this_size_in_pages + 2 ^ 64 - 1) % 2 ^ 64;
}

module _ (p : FreePage) (run : IsRun p) (long : p.this_size_in_pages ≢ 1) where
  two_pages : 2 ≤ p.this_size_in_pages
  two_pages = ground (arith, long, run.1)

  address-shorter : (shorter p).address ≡ p.address + 2 ^ 12
  address-shorter = omega (arith, two_pages, run.2)

  size-shorter : (shorter p).this_size_in_pages + 1 ≡ p.this_size_in_pages
  size-shorter = omega (arith, two_pages, run.2)

  shorter-IsRun : IsRun (shorter p)
  shorter-IsRun =
      let ((n, place, small), some_pages, fits) = run in
      (
        (n + 1, omega (arith, address-shorter, place), omega arith),
        omega (arith, size-shorter, two_pages),
        omega (arith, address-shorter, size-shorter, fits),
      )

  IsIn-shorter : (page : ℕ) → IsIn (shorter p) page → IsIn p page × (page ≢ p.address)
  IsIn-shorter page (n, few, place) = (
    (n + 1, omega (arith, size-shorter, few), omega (arith, address-shorter, place)),
    λ same. absurd (omega (arith, address-shorter, place, same)),
  )

  Leaves-shorter :
      (rest : List FreePage) → AreRuns (p ∷ rest) → Leaves p rest (link_page (shorter p) rest)
  Leaves-shorter rest (r, apart, runs) =
      let nonzero : ((shorter p).address == 0) ≡ false =
        ne→==_false (shorter p).address 0 (λ z. absurd (omega (arith, address-shorter, z))) in
      rw nonzero (
        (shorter-IsRun, λ page h l. apart page (IsIn-shorter page h).0 l, runs),
        λ other h. elim h [
          | inl here ↦ let (old, ne) = IsIn-shorter other here in (inl old, ne)
          | inr there ↦ (Leaves-rest p rest (r, apart, runs)).1 other there
        ],
      )

rest_of_run-Leaves :
    (max_addr : ℕ) (p : FreePage) (rest : List FreePage)
    → AreRuns (p ∷ rest)
    → Leaves p rest (rest_of_run max_addr p rest)
rest_of_run-Leaves max_addr p rest h = elim (Bool-cases (p.this_size_in_pages == 1)) [
  | inl e ↦ rw e (Leaves-rest p rest h)
  | inr e ↦ elim (Bool-cases (ltb ((p.address + 4096) % 2 ^ 64) max_addr)) [
    | inl l ↦
        let long : p.this_size_in_pages ≢ 1 = λ same. ground (arith, e, same) in
        rw (e, l) (Leaves-shorter p h.0 long rest h)
    | inr l ↦ rw (e, l) (Leaves-rest p rest h)
  ]
]

take_page-Leaves :
    (runs : List FreePage) (s s' : SimplePageAllocator) (page : ℕ)
    → AreRuns runs
    → take_page runs s ≡ (some page, s')
    → IsListed runs page
      × IsPage page
      × AreRuns s'.free_head
      × ((other : ℕ) → IsListed s'.free_head other → IsListed runs other × (other ≢ page))
take_page-Leaves [] s s' page h e = absurd (none-ne-some page (ap (λ r. r.0) e))
take_page-Leaves (p ∷ rest) s s' page h e =
    let at : p.address ≡ page = some-injective p.address page (ap (λ r. r.0) e) in
    let left : rest_of_run s.max_addr p rest ≡ s'.free_head =
      ap (λ (r : Option ℕ × SimplePageAllocator). r.1.free_head) e in
    let (runs, others) = subst (Leaves p rest) left (rest_of_run-Leaves s.max_addr p rest h) in
    (
      inl (subst (IsIn p) at (first_page p h.0)),
      subst IsPage at h.0.0,
      runs,
      λ other l. let (old, ne) = others other l in (old, λ same. ne (same ∙ sym at)),
    )

pub alloc_page-Leaves :
    (s s' : SimplePageAllocator) (page : ℕ)
    → AreRuns s.free_head
    → alloc_page s ≡ (some page, s')
    → IsListed s.free_head page
      × IsPage page
      × AreRuns s'.free_head
      × ((other : ℕ) → IsListed s'.free_head other → IsListed s.free_head other × (other ≢ page))
unfolding alloc_page
alloc_page-Leaves s s' page h e = take_page-Leaves s.free_head s s' page h e

abbrev pub simple_allocator-IsAllocator : IsAllocator simple_allocator
simple_allocator-IsAllocator = record {
  IsValid = λ s. AreRuns s.free_head;
  IsFree = λ s page. IsListed s.free_head page;
  alloc-IsFree = alloc_page-Leaves;
}
