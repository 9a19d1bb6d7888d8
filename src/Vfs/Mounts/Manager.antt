-- ===== src/Vfs/Mounts/Manager.antt =====
-- The operations of `MountingPointsManager` on paths: what each means for the others.
use campix.Base.{ℕ, ◌≡◌, sym, ap, ◌∙◌, true, Option, some, List, [], Run, ok}
use campix.Vfs.Error.{VfsError, Result, done, fail}
use campix.Vfs.Path.{PathSplitter, is_done}
use campix.Vfs.Path.Parts.{parts, Walks, finished, part}
use campix.Vfs.Mounts.{MountNode, register_fs, search_fs, remove_fs}
use campix.Vfs.Mounts.Spec.{
  register_at, search_at, remove_at, Found, missing, found, register_fs-eq, search_fs-Searches,
  remove_fs-eq,
}
use campix.Vfs.Mounts.Laws.{register_at-refused, search_at-register_at}
use campix.Vfs.Mounts.Pruned.{
  IsPruned, remove_at-register_at, register_at-IsPruned, remove_at-refused, remove_at-IsPruned,
}

Run-injective {ℓ} : {A : Type ℓ} {x y : A} → ok x ≡ ok y → x ≡ y
Run-injective e = cc

Walks-done : {s : PathSplitter} {ps : List (List ℕ)} → Walks s ps → ps ≡ [] → is_done s ≡ true
Walks-done (finished e) h = e
Walks-done (part e w) h = cc

module _ {Fs : Type 0} where
  -- A search that finds a file system and leaves no part of the path.
  pub record FindsExactly (fs : Fs) (result : Run (Option (Fs × PathSplitter))) : Type 0 where
    pub splitter : PathSplitter
    pub returns : result ≡ ok (some (fs, splitter))
    pub at_end : is_done splitter ≡ true

  Found-exactly :
      {fs : Fs} {result : Run (Option (Fs × PathSplitter))} {answer : Option (Fs × PathSplitter)}
      {expected : Option (Fs × List (List ℕ))}
      → result ≡ ok answer
      → Found answer expected
      → expected ≡ some (fs, [])
      → FindsExactly fs result
  Found-exactly r missing e = cc
  Found-exactly {fs} r (found {fs = f} {s = s} {ps = ps} w) e =
      let pair : ◌≡◌ {A = Fs × List (List ℕ)} (f, ps) (fs, []) = cc in
      record {
        splitter = s;
        returns = r ∙ ap (λ (t : Fs). ok (some (t, s))) (ap (λ t. t.0) pair);
        at_end = Walks-done w (ap (λ t. t.1) pair);
      }

  -- After a mount that succeeded, `search_fs` for its path finds what was mounted, with a splitter
  -- that is done.
  pub search_fs-register_fs :
      (name : List ℕ) (fs : Fs) (tree : MountNode Fs) {tree' : MountNode Fs}
      → register_fs name fs tree ≡ ok (done tt, tree')
      → FindsExactly fs (search_fs name tree')
  search_fs-register_fs name fs tree {tree'} h =
      let e = Run-injective (sym (register_fs-eq name fs tree) ∙ h) in
      let there : search_at (parts name) tree' ≡ some (fs, []) =
        ap (λ t. search_at (parts name) t.1) (sym e)
        ∙ search_at-register_at (parts name) fs tree (ap (λ t. t.0) e) in
      let s = search_fs-Searches name tree' in Found-exactly s.returns s.agrees there

  -- On a tree without empty nodes, `remove_fs` undoes a `register_fs` that succeeded: it returns
  -- the file system that was mounted, and the tree is the one from before.
  pub remove_fs-register_fs :
      (name : List ℕ) (fs : Fs) (tree : MountNode Fs) {tree' : MountNode Fs}
      → IsPruned tree
      → register_fs name fs tree ≡ ok (done tt, tree')
      → remove_fs name tree' ≡ ok (done fs, tree)
  remove_fs-register_fs name fs tree {tree'} v h =
      let e = Run-injective (sym (register_fs-eq name fs tree) ∙ h) in
      remove_fs-eq name tree'
      ∙ ap ok (
          ap (λ t. remove_at (parts name) t.1) (sym e)
          ∙ remove_at-register_at (parts name) fs tree v (ap (λ t. t.0) e))

  -- An operation on the tree returns normally, keeps a tree without empty nodes such a tree, and
  -- changes nothing when it fails.
  pub record Keeps {A : Type 0} (tree : MountNode Fs) (result : Run (Result A × MountNode Fs))
      : Type 0 where
    pub outcome : Result A
    pub after : MountNode Fs
    pub returns : result ≡ ok (outcome, after)
    pub pruned : IsPruned after
    pub refused : (e : VfsError) → outcome ≡ fail e → after ≡ tree

  -- `register_fs` on a tree without empty nodes terminates without a panic, leaves no empty node
  -- behind, and changes nothing when it returns an error.
  pub register_fs-Keeps :
      (name : List ℕ) (fs : Fs) (tree : MountNode Fs)
      → IsPruned tree
      → Keeps tree (register_fs name fs tree)
  register_fs-Keeps name fs tree v = record {
    outcome = (register_at (parts name) fs tree).0;
    after = (register_at (parts name) fs tree).1;
    returns = register_fs-eq name fs tree;
    pruned = register_at-IsPruned (parts name) fs tree v;
    refused = λ e h. register_at-refused (parts name) fs tree h;
  }

  -- `remove_fs` on a tree without empty nodes terminates without a panic, leaves no empty node
  -- behind, and changes nothing when it returns an error.
  pub remove_fs-Keeps :
      (name : List ℕ) (tree : MountNode Fs) → IsPruned tree → Keeps tree (remove_fs name tree)
  remove_fs-Keeps name tree v = record {
    outcome = (remove_at (parts name) tree).0;
    after = (remove_at (parts name) tree).1;
    returns = remove_fs-eq name tree;
    pruned = remove_at-IsPruned (parts name) tree v;
    refused = λ e h. remove_at-refused (parts name) tree h;
  }
