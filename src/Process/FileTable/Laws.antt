-- ===== src/Process/FileTable/Laws.antt =====
-- Which descriptors are in use, and that no operation hands one out twice.
use campix.Base.{
  ℕ, ◌+◌, ◌≤◌, ◌<◌, ◌≡◌, refl, ◌∙◌, inl, inr, Bool, true, false, ◌&&◌, ◌||◌, not, Option, none,
  some, List, [], ◌∷◌, arith, ltb, ◌==◌, if◌then◌else◌, length, get_or, set, Run, ok, Bool-cases,
  lt→ltb, ltb→lt, subst, ==_refl, get_or-set_ne, get_or-replicate, replicate,
}
use campix.Process.FileTable.{FileTable, max_files, alloc_fd, new_with_stdio}

abbrev pub has : ℕ → List ℕ → Bool
has x [] = false
has x (y ∷ ys) = (y == x) || has x ys

abbrev pub Distinct : List ℕ → Type 0
Distinct [] = Unit {0}
Distinct (x ∷ xs) = (has x xs ≡ false) × Distinct xs

abbrev pub AllBelow : ℕ → List ℕ → Type 0
AllBelow n [] = Unit {0}
AllBelow n (x ∷ xs) = (x < n) × AllBelow n xs

has_below : (n x : ℕ) (xs : List ℕ) → AllBelow n xs → n ≤ x → has x xs ≡ false
has_below n x [] b h = refl
has_below n x (y ∷ ys) b h = ground (arith, has_below n x ys b.1)

AllBelow-suc : (n : ℕ) (xs : List ℕ) → AllBelow n xs → AllBelow (n + 1) xs
AllBelow-suc n [] b = tt
AllBelow-suc n (y ∷ ys) b = (omega arith, AllBelow-suc n ys b.1)

abbrev pub used : ℕ → List ℕ → ℕ → Bool
used n free fd = ltb fd n && not (has fd free)

used-head : (n x : ℕ) (xs : List ℕ) → used n (x ∷ xs) x ≡ false
used-head n x xs = ground (arith, ==_refl x)

used-suc :
    (n : ℕ) (xs : List ℕ)
    → AllBelow n xs
    → (j : ℕ) → used (n + 1) xs j ≡ (if n == j then true else used n xs j)
used-suc n xs b j = ground (arith, has_below n j xs b)

used-tail :
    (n x : ℕ) (xs : List ℕ)
    → has x xs ≡ false
    → x < n
    → (j : ℕ) → used n xs j ≡ (if x == j then true else used n (x ∷ xs) j)
used-tail n x xs h lt j = ground arith

was_free : {a b : Bool} (x j : ℕ) → a ≡ (if x == j then true else b) → a ≡ false → b ≡ false
was_free {a} {b} x j e h = ground arith

module _ {Fd : Type 0} where
  -- A descriptor is in use from when it is allocated until it is freed.
  abbrev pub in_use : FileTable Fd → ℕ → Bool
  in_use t fd = used t.max_allocated_fd t.available_fds fd

  -- The table has all its slots, and the free descriptors are distinct and were allocated once.
  pub record IsValid (t : FileTable Fd) : Type 0 where
    pub slots : length t.files ≡ max_files
    pub bounded : t.max_allocated_fd ≤ max_files
    pub distinct : Distinct t.available_fds
    pub below : AllBelow t.max_allocated_fd t.available_fds
    pub clean : (fd : ℕ) → in_use t fd ≡ false → get_or t.files fd none ≡ none

  -- The outcome of an allocation.
  pub data Allocates (t : FileTable Fd) (result : Run (Option ℕ × FileTable Fd)) : Type 0 where
    exhausted :
        ((fd : ℕ) → fd < max_files → in_use t fd ≡ true)
        → result ≡ ok (none, t)
        → Allocates t result
    given :
        (fd : ℕ) (t' : FileTable Fd)
        → result ≡ ok (some fd, t')
        → IsValid t'
        → fd < max_files
        → in_use t fd ≡ false
        → ((j : ℕ) → in_use t' j ≡ (if fd == j then true else in_use t j))
        → t'.files ≡ t.files
        → Allocates t result

  -- On a valid table `alloc_fd` returns a descriptor below `MAX_FILES` that was not in use, and
  -- makes that one alone in use; it returns `None`, unchanged, only when all `MAX_FILES` are in
  -- use. It does not panic, and keeps the table valid.
  pub alloc_fd-Allocates : (t : FileTable Fd) → IsValid t → Allocates t (alloc_fd t)
  unfolding alloc_fd
  alloc_fd-Allocates t v = go t.available_fds refl
    where
      go : (free : List ℕ) → t.available_fds ≡ free → Allocates t (alloc_fd t)
      go [] e = elim (Bool-cases (ltb t.max_allocated_fd max_files)) [
        | inl room ↦
            let h : t.max_allocated_fd < max_files = ltb→lt t.max_allocated_fd max_files room in
            let h' : ltb t.max_allocated_fd (length t.files) ≡ true = rw (v.slots) room in
            let grown = used-suc t.max_allocated_fd t.available_fds v.below in
            given t.max_allocated_fd (record t { max_allocated_fd = t.max_allocated_fd + 1 })
              (rw (e, room, h') refl)
              record {
                slots = v.slots;
                bounded = omega arith;
                distinct = v.distinct;
                below = AllBelow-suc t.max_allocated_fd t.available_fds v.below;
                clean = λ j free. v.clean j (was_free t.max_allocated_fd j (grown j) free);
              }
              h (ground (arith)) grown refl
        | inr full ↦ exhausted (λ fd lt. rw (e) (ground arith)) (rw (e, full) refl)
      ]
      go (fd ∷ rest) e =
          let d : Distinct (fd ∷ rest) = subst Distinct e v.distinct in
          let b : AllBelow t.max_allocated_fd (fd ∷ rest) =
            subst (AllBelow t.max_allocated_fd) e v.below in
          let h : ltb fd (length t.files) ≡ true =
            lt→ltb fd (length t.files) (rw (v.slots) (omega (arith, b.0, v.bounded))) in
          let taken : (j : ℕ)
              → used t.max_allocated_fd rest j ≡ (if fd == j then true else in_use t j) =
            λ j. rw (e) (used-tail t.max_allocated_fd fd rest d.0 b.0 j) in
          given fd (record t { available_fds = rest }) (rw (e, h) refl)
            record {
              slots = v.slots;
              bounded = v.bounded;
              distinct = d.1;
              below = b.1;
              clean = λ j free. v.clean j (was_free fd j (taken j) free);
            }
            (omega (arith, b.0, v.bounded)) (rw (e) (used-head t.max_allocated_fd fd rest)) taken
            refl

  -- The table of a new process, with its three standard streams, is valid: the descriptors 0, 1
  -- and 2 are the ones in use, and their slots hold the streams given for them.
  pub new_with_stdio-IsValid :
      (stdin stdout stderr : Fd)
      → IsValid (new_with_stdio stdin stdout stderr)
        × ((j : ℕ) → in_use (new_with_stdio stdin stdout stderr) j ≡ ltb j 3)
        × (get_or (new_with_stdio stdin stdout stderr).files 0 none ≡ some stdin)
        × (get_or (new_with_stdio stdin stdout stderr).files 1 none ≡ some stdout)
        × (get_or (new_with_stdio stdin stdout stderr).files 2 none ≡ some stderr)
  unfolding new_with_stdio
  new_with_stdio-IsValid stdin stdout stderr = (
    record {
      slots = refl;
      bounded = omega arith;
      distinct = tt;
      below = tt;
      clean = λ fd free.
          let past : 3 ≤ fd = ground arith in
          let all : List (Option Fd) = replicate max_files none in
          let one = set all 0 (some stdin) in
          let two = set one 1 (some stdout) in
          get_or-set_ne two 2 fd (some stderr) none (omega arith)
          ∙ get_or-set_ne one 1 fd (some stdout) none (omega arith)
          ∙ get_or-set_ne all 0 fd (some stdin) none (omega arith)
          ∙ get_or-replicate max_files fd none;
    },
    λ j. ground arith,
    refl,
    refl,
    refl,
  )
