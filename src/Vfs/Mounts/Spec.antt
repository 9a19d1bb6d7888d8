-- ===== src/Vfs/Mounts/Spec.antt =====
-- The mount tree as a function of the parts of a path: what the three operations do.
use campix.Base.{
  ℕ, zero, suc, ◌+◌, ◌≤◌, ◌<◌, ◌≡◌, refl, inl, inr, ◌||◌, not, Option, none, some, List, [], ◌∷◌,
  arith, if◌then◌else◌, is_some, length, Bool-cases, Option-cases, Run, ok,
}
use campix.Vfs.Error.{Result, done, fail, already_mounted, path_not_found}
use campix.Vfs.Path.{PathSplitter, is_slash, next_part}
use campix.Vfs.Path.Parts.{parts, push, split, non_empty, Walks, finished, part, new-Walks}
use campix.Vfs.Mounts.{
  MountNode, node, is_empty, get, insert, or_new, register_loop, register_fs, search_loop,
  search_fs, with_splitter, put_back, remove_fs_recursive, remove_fs,
}

length-push : (c : ℕ) (ws : List (List ℕ)) → length (push c ws) ≤ length ws + 1
length-push c [] = omega arith
length-push c (w ∷ ws) = omega arith

length-split : (cs : List ℕ) → length (split cs) ≤ length cs + 1
length-split [] = omega arith
length-split (c ∷ cs) = elim (Bool-cases (is_slash c)) [
  | inl e ↦ rw (e) (omega (arith, length-split cs))
  | inr e ↦ rw (e) (push_lem c (split cs) (length-split cs))
]
  where
    push_lem :
        (c : ℕ) (ws : List (List ℕ))
        → length ws ≤ length cs + 1
        → length (push c ws) ≤ suc (length cs) + 1
    push_lem c ws h = omega (arith, length-push c ws)

length-non_empty : (ws : List (List ℕ)) → length (non_empty ws) ≤ length ws
length-non_empty [] = omega arith
length-non_empty ([] ∷ ws) = omega (arith, length-non_empty ws)
length-non_empty ((c ∷ w) ∷ ws) = omega (arith, length-non_empty ws)

-- The fuel that the operations start with is enough for the parts.
enough : (path : List ℕ) → length (parts path) < length path + 2
enough path = omega (arith, length-non_empty (split path), length-split path)

module _ {Fs : Type 0} where
  abbrev pub register_at : List (List ℕ) → Fs → MountNode Fs → Result (Unit {0}) × MountNode Fs
  register_at [] fs (node ch c) =
      if not (is_empty ch) || is_some c
      then (fail already_mounted, node ch c)
      else (done tt, node ch (some fs))
  register_at (p ∷ ps) fs (node ch c) =
      let rest = register_at ps fs (or_new (get p ch)) in
      if is_some c then (fail already_mounted, node ch c) else (rest.0, node (insert p rest.1 ch) c)

  register_loop-eq :
      (fuel : ℕ) {s : PathSplitter} {ps : List (List ℕ)} (fs : Fs) (n : MountNode Fs)
      → Walks s ps
      → length ps < fuel
      → register_loop fuel s fs n ≡ ok (register_at ps fs n)
  unfolding register_loop
  register_loop-eq zero fs n w l = absurd (omega arith)
  register_loop-eq (suc fuel) fs (node ch c) (finished e) l =
      elim (Bool-cases (not (is_empty ch) || is_some c)) [
        | inl q ↦ rw (e, q) refl
        | inr q ↦ rw (e, q) refl
      ]
  register_loop-eq (suc fuel) fs (node ch c) (part e w) l = elim (Bool-cases (is_some c)) [
    | inl q ↦ rw (e, q) refl
    | inr q ↦ rw (e, q, register_loop-eq fuel fs _ w (omega arith)) refl
  ]

  -- `register_fs` terminates without a panic, and does to the tree what `register_at` does for the
  -- parts of the path.
  pub register_fs-eq :
      (name : List ℕ) (fs : Fs) (tree : MountNode Fs)
      → register_fs name fs tree ≡ ok (register_at (parts name) fs tree)
  unfolding register_fs
  register_fs-eq name fs tree = register_loop-eq _ fs tree (new-Walks name) (enough name)

  abbrev pub with_parts : Option Fs → List (List ℕ) → Option (Fs × List (List ℕ))
  with_parts none ps = none
  with_parts (some fs) ps = some (fs, ps)

  abbrev pub search_at : List (List ℕ) → MountNode Fs → Option (Fs × List (List ℕ))
  search_at [] (node ch c) = with_parts c []
  search_at (p ∷ ps) (node ch c) = elim (get p ch) [
    | some child ↦ search_at ps child
    | none ↦ with_parts c ps
  ]

  -- The same file system, with a splitter that gives the parts that are left.
  pub data Found : Option (Fs × PathSplitter) → Option (Fs × List (List ℕ)) → Type 0 where
    missing : Found none none
    found :
        {fs : Fs} {s : PathSplitter} {ps : List (List ℕ)}
        → Walks s ps
        → Found (some (fs, s)) (some (fs, ps))

  pub record Searches (result : Run (Option (Fs × PathSplitter)))
      (expected : Option (Fs × List (List ℕ))) : Type 0 where
    pub answer : Option (Fs × PathSplitter)
    pub returns : result ≡ ok answer
    pub agrees : Found answer expected

  answer_here :
      {s : PathSplitter} {ps : List (List ℕ)} (c : Option Fs)
      → Walks s ps
      → Found (with_splitter c s) (with_parts c ps)
  answer_here none w = missing
  answer_here (some fs) w = found w

  search_loop-Searches :
      (fuel : ℕ) {s : PathSplitter} {ps : List (List ℕ)} (n : MountNode Fs)
      → Walks s ps
      → length ps < fuel
      → Searches (search_loop fuel s n) (search_at ps n)
  unfolding search_loop
  search_loop-Searches zero n w l = absurd (omega arith)
  search_loop-Searches (suc fuel) (node ch c) (finished e) l = record {
    answer = _;
    returns = rw (e) refl;
    agrees = answer_here c (finished e);
  }
  search_loop-Searches (suc fuel) (node ch c) (part {s} {ps} e w) l =
      elim (Option-cases (get (next_part s).0 ch)) [
        | inl q ↦
            rw (e, q)
              (rw (q, search_at) (record { answer = _; returns = refl; agrees = answer_here c w }))
        | inr (child, q) ↦
            rw (e, q) (rw (q, search_at) (search_loop-Searches fuel child w (omega arith)))
      ]

  -- `search_fs` terminates without a panic; it answers as `search_at` does for the parts of the
  -- path, with a splitter that goes on behind the parts that were used up.
  pub search_fs-Searches :
      (name : List ℕ) (tree : MountNode Fs)
      → Searches (search_fs name tree) (search_at (parts name) tree)
  unfolding search_fs
  search_fs-Searches name tree = search_loop-Searches _ tree (new-Walks name) (enough name)

  abbrev pub remove_at : List (List ℕ) → MountNode Fs → Result Fs × MountNode Fs
  remove_at [] (node ch none) = (fail path_not_found, node ch none)
  remove_at [] (node ch (some fs)) = (done fs, node ch none)
  remove_at (p ∷ ps) (node ch c) = elim (get p ch) [
    | some child ↦ put_back p ch c (remove_at ps child)
    | none ↦ (fail path_not_found, node ch c)
  ]

  remove_fs_recursive-eq :
      (fuel : ℕ) {s : PathSplitter} {ps : List (List ℕ)} (n : MountNode Fs)
      → Walks s ps
      → length ps < fuel
      → remove_fs_recursive fuel s n ≡ ok (remove_at ps n)
  unfolding remove_fs_recursive
  remove_fs_recursive-eq zero n w l = absurd (omega arith)
  remove_fs_recursive-eq (suc fuel) (node ch none) (finished e) l = rw (e) refl
  remove_fs_recursive-eq (suc fuel) (node ch (some fs)) (finished e) l = rw (e) refl
  remove_fs_recursive-eq (suc fuel) (node ch c) (part {s} {ps} e w) l =
      elim (Option-cases (get (next_part s).0 ch)) [
        | inl q ↦ rw (e, q) (rw (q, remove_at) refl)
        | inr (child, q) ↦
            rw (e, q, remove_fs_recursive-eq fuel child w (omega arith)) (rw (q, remove_at) refl)
      ]

  -- `remove_fs` terminates without a panic, and does to the tree what `remove_at` does for the
  -- parts of the path.
  pub remove_fs-eq :
      (name : List ℕ) (tree : MountNode Fs) → remove_fs name tree ≡ ok (remove_at (parts name) tree)
  unfolding remove_fs
  remove_fs-eq name tree = remove_fs_recursive-eq _ tree (new-Walks name) (enough name)
