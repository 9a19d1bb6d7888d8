-- ===== src/Process/FileTable/Groups.antt =====
-- Descriptors that are given back, and the allocation of several at once, which is all or nothing.
use campix.Base.{
  ℕ, zero, suc, ◌+◌, ◌<◌, ◌≡◌, ◌≢◌, refl, sym, ◌∙◌, inl, inr, Bool, true, false, ◌&&◌, ◌||◌, not,
  Option, none, some, List, [], ◌∷◌, ◌++◌, arith, leb, ◌==◌, if◌then◌else◌, length, get_or, Run, ok,
  Bool-cases, subst, ==_refl, length-set, get_or-set_self, get_or-set_ne, length-append,
}
use campix.Process.FileTable.{FileTable, max_files, free_fd, free_all, alloc_loop, alloc_fds}
use campix.Process.FileTable.Laws.{
  has, Distinct, used, in_use, IsValid, exhausted, given, alloc_fd-Allocates,
}

used-cons :
    (n x : ℕ) (xs : List ℕ) (j : ℕ) → used n (x ∷ xs) j ≡ (if x == j then false else used n xs j)
used-cons n x xs j = ground arith

still_free :
    (n x : ℕ) (xs : List ℕ) (j : ℕ)
    → (x == j) ≡ false
    → used n (x ∷ xs) j ≡ false
    → used n xs j ≡ false
still_free n x xs j e h = ground arith

has-snoc : (x y : ℕ) (xs : List ℕ) → has x (xs ++ y ∷ []) ≡ (if y == x then true else has x xs)
has-snoc x y [] = ground arith
has-snoc x y (z ∷ xs) = rw (has-snoc x y xs) (ground arith)

Distinct-snoc : (xs : List ℕ) (y : ℕ) → Distinct xs → has y xs ≡ false → Distinct (xs ++ y ∷ [])
Distinct-snoc [] y d h = (refl, tt)
Distinct-snoc (x ∷ xs) y d h =
    (rw (has-snoc x y xs) (ground (arith, d.0)), Distinct-snoc xs y d.1 (ground arith))

was_other :
    (x j : ℕ) (xs : List ℕ) {a b : Bool}
    → has x xs ≡ false
    → has j xs ≡ true
    → a ≡ (if x == j then false else b)
    → b ≡ true
    → a ≡ true
was_other x j xs d m e h = elim (Bool-cases (x == j)) [
  | inl same ↦
      let c : x ≡ j = ground arith in let d' : has j xs ≡ false = rw (sym c) d in ground arith
  | inr other ↦ ground arith
]

has-cons-if :
    (x j : ℕ) (xs : List ℕ) (a b : Bool)
    → a ≡ (if x == j then false else b)
    → (a && not (has j xs)) ≡ (b && not (has j (x ∷ xs)))
has-cons-if x j xs a b e = ground arith

or_false_right : (a : Bool) {b : Bool} → (a || b) ≡ false → b ≡ false
or_false_right a {b} h = ground arith

rest_of : {a b c : Bool} → a ≡ (if c then true else b) → c ≡ false → a ≡ true → b ≡ true
rest_of {a} {b} {c} e f h = ground arith

module _ {Fd : Type 0} where
  -- The outcome of freeing a descriptor that is in use.
  pub record Frees (t : FileTable Fd) (fd : ℕ) (result : Option Fd × FileTable Fd) : Type 0 where
    pub taken : result.0 ≡ get_or t.files fd none
    pub valid : IsValid result.1
    pub released : (j : ℕ) → in_use result.1 j ≡ (if fd == j then false else in_use t j)
    pub cleared : get_or result.1.files fd none ≡ none
    pub kept : (j : ℕ) → j ≢ fd → get_or result.1.files j none ≡ get_or t.files j none

  -- Freeing a descriptor that is in use returns what its slot held, clears the slot and no other,
  -- makes that descriptor alone free, and keeps the table valid.
  pub free_fd-Frees :
      (t : FileTable Fd) → IsValid t → (fd : ℕ) → in_use t fd ≡ true → Frees t fd (free_fd fd t)
  unfolding free_fd
  free_fd-Frees t v fd h =
      let lt : fd < t.max_allocated_fd = ground arith in
      let fresh : has fd t.available_fds ≡ false = ground arith in
      let inside : fd < length t.files = rw (v.slots) (omega (arith, v.bounded)) in
      let some_slot : leb (length t.files) fd ≡ false = ground arith in
      rw (some_slot) (record {
        taken = refl;
        valid = record {
          slots = length-set t.files fd none ∙ v.slots;
          bounded = v.bounded;
          distinct = (fresh, v.distinct);
          below = (lt, v.below);
          clean = λ j free. elim (Bool-cases (fd == j)) [
            | inl e ↦
                let same : fd ≡ j = ground arith in
                rw (sym same) (get_or-set_self t.files fd none none inside)
            | inr e ↦
                get_or-set_ne t.files fd j none none (ground arith)
                ∙ v.clean j (still_free t.max_allocated_fd fd t.available_fds j e free)
          ];
        };
        released = used-cons t.max_allocated_fd fd t.available_fds;
        cleared = get_or-set_self t.files fd none none inside;
        kept = λ j ne. get_or-set_ne t.files fd j none none (λ e. ne (sym e));
      })

  free_all-IsValid :
      (fds : List ℕ) (t : FileTable Fd)
      → IsValid t
      → Distinct fds
      → ((j : ℕ) → has j fds ≡ true → in_use t j ≡ true)
      → IsValid (free_all fds t)
        × ((j : ℕ) → in_use (free_all fds t) j ≡ (in_use t j && not (has j fds)))
  unfolding free_all
  free_all-IsValid [] t v d h = (v, λ j. ground arith)
  free_all-IsValid (fd ∷ fds) t v d h =
      let f = free_fd-Frees t v fd (h fd (ground (arith, ==_refl fd))) in
      let rest =
        free_all-IsValid fds (free_fd fd t).1 f.valid d.1
          (λ j m. was_other fd j fds d.0 m (f.released j) (h j (ground arith))) in
      (rest.0, λ j. rest.1 j ∙ has-cons-if fd j fds _ _ (f.released j))

  -- The descriptors `fds` are in use in `t` and were not in `t₀`; else `t` uses what `t₀` does.
  pub record Grows (t₀ : FileTable Fd) (fds : List ℕ) (t : FileTable Fd) : Type 0 where
    pub valid : IsValid t
    pub distinct : Distinct fds
    pub fresh : (j : ℕ) → has j fds ≡ true → in_use t₀ j ≡ false
    pub now : (j : ℕ) → in_use t j ≡ (has j fds || in_use t₀ j)

  -- The outcome of allocating `count` descriptors at once.
  pub data AllocatesAll (t₀ : FileTable Fd) (count : ℕ)
      (result : Run (Option (List ℕ) × FileTable Fd)) : Type 0 where
    everything :
        (fds : List ℕ) (t : FileTable Fd)
        → result ≡ ok (some fds, t)
        → length fds ≡ count
        → Grows t₀ fds t
        → AllocatesAll t₀ count result
    nothing :
        (tried : List ℕ) (t : FileTable Fd)
        → result ≡ ok (none, t)
        → length tried < count
        → Distinct tried
        → ((j : ℕ) → j < max_files → (has j tried || in_use t₀ j) ≡ true)
        → IsValid t
        → ((j : ℕ) → in_use t j ≡ in_use t₀ j)
        → AllocatesAll t₀ count result

  undone :
      (t₀ t : FileTable Fd) (fds : List ℕ)
      → Grows t₀ fds t
      → (j : ℕ) → (in_use t j && not (has j fds)) ≡ in_use t₀ j
  undone t₀ t fds g j = elim (Bool-cases (has j fds)) [
    | inl m ↦ rw (m, g.fresh j m) (ground arith)
    | inr m ↦ rw (g.now j, m) (ground arith)
  ]

  Grows-snoc :
      (t₀ t t' : FileTable Fd) (fds : List ℕ) (fd : ℕ)
      → Grows t₀ fds t
      → IsValid t'
      → in_use t fd ≡ false
      → ((j : ℕ) → in_use t' j ≡ (if fd == j then true else in_use t j))
      → Grows t₀ (fds ++ fd ∷ []) t'
  Grows-snoc t₀ t t' fds fd g v free e =
      let new : (has fd fds || in_use t₀ fd) ≡ false = sym (g.now fd) ∙ free in
      record {
        valid = v;
        distinct = Distinct-snoc fds fd g.distinct (ground arith);
        fresh = λ j m. elim (Bool-cases (fd == j)) [
          | inl e ↦
              let same : fd ≡ j = ground arith in rw (sym same) (or_false_right (has fd fds) new)
          | inr e ↦ g.fresh j (rest_of (has-snoc j fd fds) e m)
        ];
        now = λ j. rw (e j, g.now j, has-snoc j fd fds) (ground arith);
      }

  alloc_loop-AllocatesAll :
      (t₀ : FileTable Fd) (count : ℕ) (fds : List ℕ) (t : FileTable Fd)
      → Grows t₀ fds t
      → AllocatesAll t₀ (length fds + count) (alloc_loop count fds t)
  unfolding alloc_loop
  alloc_loop-AllocatesAll t₀ zero fds t g = everything fds t refl (omega arith) g
  alloc_loop-AllocatesAll t₀ (suc count) fds t g = elim (alloc_fd-Allocates t g.valid) [
    | exhausted full e ↦
        let undo = free_all-IsValid fds t g.valid g.distinct (λ j m. g.now j ∙ rw (m) refl) in
        rw (e) (
          nothing fds (free_all fds t) refl (omega arith) g.distinct
            (λ j lt. sym (g.now j) ∙ full j lt) undo.0 (λ j. undo.1 j ∙ undone t₀ t fds g j))
    | given fd t' e v lt free now files ↦
        let g' = Grows-snoc t₀ t t' fds fd g v free now in
        let next = alloc_loop-AllocatesAll t₀ count (fds ++ fd ∷ []) t' g' in
        let n : length (fds ++ fd ∷ []) + count ≡ length fds + suc count =
          rw (length-append fds (fd ∷ [])) (omega arith) in
        rw (e) (subst (λ c. AllocatesAll t₀ c (alloc_loop count (fds ++ fd ∷ []) t')) n next)
  ]

  -- `alloc_fds(count)` on a valid table is all or nothing: it returns `count` distinct descriptors
  -- that were not in use, and makes those alone in use, or it returns `None`, having found fewer
  -- than `count` descriptors until all of `MAX_FILES` were in use, and the descriptors in use are
  -- those from before. It does not panic, and the table stays valid.
  pub alloc_fds-AllocatesAll :
      (t : FileTable Fd) → IsValid t → (count : ℕ) → AllocatesAll t count (alloc_fds count t)
  unfolding alloc_fds
  alloc_fds-AllocatesAll t v count =
      let zero_add : 0 + count ≡ count = omega arith in
      subst (λ c. AllocatesAll t c (alloc_loop count [] t)) zero_add
        (alloc_loop-AllocatesAll t count [] t (record {
          valid = v;
          distinct = tt;
          fresh = λ j m. absurd (ground arith);
          now = λ j. refl;
        }))
