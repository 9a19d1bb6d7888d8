-- ===== src/Vfs/Mounts.antt =====
-- `MountNode` and `MountingPointsManager` of src/drivers/vfs.rs: the tree of mounted file systems.
-- `Fs` is a weak reference to a file system. The children of a node, a `BTreeMap`, are an
-- association list without an order that anything depends on.
pub mod Laws
pub mod Manager
pub mod Pruned
pub mod Spec
mod Tests
use campix.Base.{
  ℕ, zero, suc, ◌+◌, ◌-◌, Bool, true, false, ◌&&◌, ◌||◌, not, Option, none, some, List, [], ◌∷◌,
  ◌==◌, if◌then◌else◌, is_some, length, Run, ok, panic, ◌>>=◌,
}
use campix.Vfs.Error.{Result, done, fail, already_mounted, path_not_found}
use campix.Vfs.Path.{PathSplitter, is_done, next_part}
use campix.Vfs.Path

mutual
  pub data MountNode (Fs : Type 0) : Type 0 where
    node : Children Fs → Option Fs → MountNode Fs

  pub data Children (Fs : Type 0) : Type 0 where
    empty : Children Fs
    entry : List ℕ → MountNode Fs → Children Fs → Children Fs

-- `==` of two names
abbrev pub same_name : List ℕ → List ℕ → Bool
same_name [] [] = true
same_name [] (d ∷ ds) = false
same_name (c ∷ cs) [] = false
same_name (c ∷ cs) (d ∷ ds) = (c == d) && same_name cs ds

module _ {Fs : Type 0} where
  abbrev pub new_node : MountNode Fs
  new_node = node empty none

  abbrev pub children : MountNode Fs → Children Fs
  children (node ch c) = ch

  abbrev pub contents : MountNode Fs → Option Fs
  contents (node ch c) = c

  abbrev pub is_empty : Children Fs → Bool
  is_empty empty = true
  is_empty (entry p n ch) = false

  abbrev pub get : List ℕ → Children Fs → Option (MountNode Fs)
  get name empty = none
  get name (entry p n ch) = if same_name p name then some n else get name ch

  -- `entry(name)`, vacant or occupied, set to a node.
  abbrev pub insert : List ℕ → MountNode Fs → Children Fs → Children Fs
  insert name n empty = entry name n empty
  insert name n (entry p m ch) =
      let rest = insert name n ch in if same_name p name then entry p n ch else entry p m rest

  abbrev pub remove : List ℕ → Children Fs → Children Fs
  remove name empty = empty
  remove name (entry p n ch) =
      let rest = remove name ch in if same_name p name then ch else entry p n rest

  abbrev pub or_new : Option (MountNode Fs) → MountNode Fs
  or_new none = new_node
  or_new (some n) = n

  -- The loop of `register_fs` from a node on, and what follows it. The fuel is spent on the parts
  -- of the path; with too little the model panics.
  pub register_loop : ℕ → PathSplitter → Fs → MountNode Fs → Run (Result (Unit {0}) × MountNode Fs)
  register_loop zero s fs n = panic
  register_loop (suc fuel) s fs (node ch c) =
      if is_done s
      then (if not (is_empty ch) || is_some c
          then ok (fail already_mounted, node ch c)
          else ok (done tt, node ch (some fs)))
      else if is_some c
      then ok (fail already_mounted, node ch c)
      else (do
        (r, child) ← register_loop fuel (next_part s).1 fs (or_new (get (next_part s).0 ch))
        ok (r, node (insert (next_part s).0 child ch) c))

  pub register_fs : List ℕ → Fs → MountNode Fs → Run (Result (Unit {0}) × MountNode Fs)
  unfolding register_loop
  register_fs name fs tree = register_loop (length name + 2) (Path.new name) fs tree

  abbrev pub with_splitter : Option Fs → PathSplitter → Option (Fs × PathSplitter)
  with_splitter none s = none
  with_splitter (some fs) s = some (fs, s)

  pub search_loop : ℕ → PathSplitter → MountNode Fs → Run (Option (Fs × PathSplitter))
  search_loop zero s n = panic
  search_loop (suc fuel) s (node ch c) =
      if is_done s then ok (with_splitter c s) else elim (get (next_part s).0 ch) [
        | some child ↦ search_loop fuel (next_part s).1 child
        | none ↦ ok (with_splitter c (next_part s).1)
      ]

  pub search_fs : List ℕ → MountNode Fs → Run (Option (Fs × PathSplitter))
  unfolding search_loop
  search_fs name tree = search_loop (length name + 2) (Path.new name) tree

  -- The node with its child after a removal from the child.
  abbrev pub put_back :
      List ℕ → Children Fs → Option Fs → Result Fs × MountNode Fs → Result Fs × MountNode Fs
  put_back p ch c (fail e, child) = (fail e, node (insert p child ch) c)
  put_back p ch c (done fs, child) =
      if is_empty (children child) && not (is_some (contents child))
      then (done fs, node (remove p ch) c)
      else (done fs, node (insert p child ch) c)

  pub remove_fs_recursive : ℕ → PathSplitter → MountNode Fs → Run (Result Fs × MountNode Fs)
  remove_fs_recursive zero s n = panic
  remove_fs_recursive (suc fuel) s (node ch c) =
      if is_done s
      then elim c [
        | some fs ↦ ok (done fs, node ch none)
        | none ↦ ok (fail path_not_found, node ch none)
      ]
      else elim (get (next_part s).0 ch) [
        | some child ↦ (do
          r ← remove_fs_recursive fuel (next_part s).1 child
          ok (put_back (next_part s).0 ch c r))
        | none ↦ ok (fail path_not_found, node ch c)
      ]

  pub remove_fs : List ℕ → MountNode Fs → Run (Result Fs × MountNode Fs)
  unfolding remove_fs_recursive
  remove_fs name tree = remove_fs_recursive (length name + 2) (Path.new name) tree
