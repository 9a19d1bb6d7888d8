-- ===== src/Vfs/Mounts/Pruned.antt =====
-- The tree has no empty node below its root, and an unmount takes a mount back exactly.
use campix.Base.{
  ℕ, ◌≡◌, refl, sym, ap, ◌∙◌, ◌⊎◌, inl, inr, Bool, true, false, ◌&&◌, not, Option, none, some, List,
  [], ◌∷◌, is_some, Bool-cases, Option-cases, subst,
}
use campix.Vfs.Error.{VfsError, Result, done, fail}
use campix.Vfs.Mounts.{
  MountNode, Children, node, empty, entry, same_name, new_node, children, contents, is_empty, get,
  insert, remove, or_new, put_back,
}
use campix.Vfs.Mounts.Spec.{register_at, remove_at}
use campix.Vfs.Mounts.Laws.{
  get-insert, insert-get, insert-insert, remove-insert, is_empty-insert, register_at-below,
  register_at-refused, refused_full, not_under_mount,
}

and_false : (b : Bool) → (b && false) ≡ false
and_false true = refl
and_false false = refl

Result-cases {ℓ} :
    {A : Type ℓ} (r : Result A) → ((a : A) × (r ≡ done a)) ⊎ ((e : VfsError) × (r ≡ fail e))
Result-cases (done a) = inl (a, refl)
Result-cases (fail e) = inr (e, refl)

module _ {Fs : Type 0} where
  -- Neither a file system nor a child.
  abbrev pub is_bare : MountNode Fs → Bool
  is_bare n = is_empty (children n) && not (is_some (contents n))

  abbrev mutual
    pub IsPruned : MountNode Fs → Type 0
    IsPruned (node ch c) = ArePruned ch

    pub ArePruned : Children Fs → Type 0
    ArePruned empty = Unit {0}
    ArePruned (entry p n ch) = (is_bare n ≡ false) × IsPruned n × ArePruned ch

  get-IsPruned :
      (p : List ℕ) (ch : Children Fs) {m : MountNode Fs}
      → ArePruned ch
      → get p ch ≡ some m
      → (is_bare m ≡ false) × IsPruned m
  get-IsPruned p empty h e = cc
  get-IsPruned p (entry q n ch) h e = elim (Bool-cases (same_name q p)) [
    | inl s ↦
        let e' : some n ≡ some _ = rw s at e in
        let n_eq : n ≡ _ = cc in subst (λ t. (is_bare t ≡ false) × IsPruned t) n_eq (h.0, h.1)
    | inr s ↦ let e' : get p ch ≡ some _ = rw s at e in get-IsPruned p ch h.2 e'
  ]

  remove_at-found :
      (p : List ℕ) (ps : List (List ℕ)) (ch : Children Fs) (c : Option Fs) {m : MountNode Fs}
      → get p ch ≡ some m
      → remove_at (p ∷ ps) (node ch c) ≡ put_back p ch c (remove_at ps m)
  remove_at-found p ps ch c e = rw (e, remove_at) refl

  put_back-kept :
      (p : List ℕ) (ch : Children Fs) (c : Option Fs) (fs : Fs) (child : MountNode Fs)
      → is_bare child ≡ false
      → put_back p ch c (done fs, child) ≡ (done fs, node (insert p child ch) c)
  put_back-kept p ch c fs child b = rw (b) refl

  -- On a tree without empty nodes, unmounting a path that was just mounted gives back the file
  -- system and the tree from before.
  pub remove_at-register_at :
      (ps : List (List ℕ)) (fs : Fs) (tree : MountNode Fs)
      → IsPruned tree
      → (register_at ps fs tree).0 ≡ done tt
      → remove_at ps (register_at ps fs tree).1 ≡ (done fs, tree)
  remove_at-register_at [] fs (node ch c) h e =
      let full = refused_full fs ch c e in
      ap (remove_at []) full.2 ∙ ap (λ (t : Option Fs). (done fs, node ch t)) (sym full.1)
  remove_at-register_at (p ∷ ps) fs (node ch c) h e =
      let free = not_under_mount p ps fs ch c e in
      elim (Option-cases (get p ch)) [
        | inl r ↦
            let below = register_at-below p ps fs ch {c = c} free (ap or_new r) in
            let child = (register_at ps fs new_node).1 in
            let undo = remove_at-register_at ps fs new_node tt (sym (ap (λ t. t.0) below) ∙ e) in
            ap (λ t. remove_at (p ∷ ps) t.1) below
            ∙ remove_at-found p ps _ c (get-insert p child ch)
            ∙ ap (put_back p (insert p child ch) c) undo
            ∙ ap (λ (t : Children Fs). (done fs, node t c)) (remove-insert p child ch r)
        | inr (old, r) ↦
            let below = register_at-below p ps fs ch {c = c} free (ap or_new r) in
            let child = (register_at ps fs old).1 in
            let pruned = get-IsPruned p ch h r in
            let undo = remove_at-register_at ps fs old pruned.1 (sym (ap (λ t. t.0) below) ∙ e) in
            ap (λ t. remove_at (p ∷ ps) t.1) below
            ∙ remove_at-found p ps _ c (get-insert p child ch)
            ∙ ap (put_back p (insert p child ch) c) undo
            ∙ put_back-kept p (insert p child ch) c fs old pruned.0
            ∙ ap (λ (t : Children Fs). (done fs, node t c))
                (insert-insert p old child ch ∙ insert-get p old ch r)
      ]

  insert-ArePruned :
      (p : List ℕ) (n : MountNode Fs) (ch : Children Fs)
      → ArePruned ch
      → is_bare n ≡ false
      → IsPruned n
      → ArePruned (insert p n ch)
  insert-ArePruned p n empty h b v = (b, v, tt)
  insert-ArePruned p n (entry q m ch) h b v = elim (Bool-cases (same_name q p)) [
    | inl e ↦ rw (e) (b, v, h.2)
    | inr e ↦ rw (e) (h.0, h.1, insert-ArePruned p n ch h.2 b v)
  ]

  remove-ArePruned : (p : List ℕ) (ch : Children Fs) → ArePruned ch → ArePruned (remove p ch)
  remove-ArePruned p empty h = tt
  remove-ArePruned p (entry q m ch) h = elim (Bool-cases (same_name q p)) [
    | inl e ↦ rw (e) h.2
    | inr e ↦ rw (e) (h.0, h.1, remove-ArePruned p ch h.2)
  ]

  mounted_bare :
      (ps : List (List ℕ)) (fs : Fs) (tree : MountNode Fs)
      → (register_at ps fs tree).0 ≡ done tt
      → is_bare (register_at ps fs tree).1 ≡ false
  mounted_bare [] fs (node ch c) e = ap is_bare (refused_full fs ch c e).2 ∙ and_false (is_empty ch)
  mounted_bare (p ∷ ps) fs (node ch c) e =
      let below = register_at-below p ps fs ch {c = c} (not_under_mount p ps fs ch c e) refl in
      ap (λ t. is_bare t.1) below ∙ rw (is_empty-insert) refl

  or_new-IsPruned : (p : List ℕ) (ch : Children Fs) → ArePruned ch → IsPruned (or_new (get p ch))
  or_new-IsPruned p ch h = elim (Option-cases (get p ch)) [
    | inl r ↦ rw (r) tt
    | inr (child, r) ↦ rw (r) (get-IsPruned p ch h r).1
  ]

  mounted-IsPruned :
      (ps : List (List ℕ)) (fs : Fs) (tree : MountNode Fs)
      → IsPruned tree
      → (register_at ps fs tree).0 ≡ done tt
      → IsPruned (register_at ps fs tree).1
  mounted-IsPruned [] fs (node ch c) h e = subst IsPruned (sym (refused_full fs ch c e).2) h
  mounted-IsPruned (p ∷ ps) fs (node ch c) h e =
      let m = or_new (get p ch) in
      let below = register_at-below p ps fs ch {c = c} (not_under_mount p ps fs ch c e) refl in
      let e' = sym (ap (λ t. t.0) below) ∙ e in
      subst IsPruned (sym (ap (λ t. t.1) below)) (
        insert-ArePruned p (register_at ps fs m).1 ch h (mounted_bare ps fs m e')
          (mounted-IsPruned ps fs m (or_new-IsPruned p ch h) e'))

  -- A mount leaves no empty node behind, whatever its outcome.
  pub register_at-IsPruned :
      (ps : List (List ℕ)) (fs : Fs) (tree : MountNode Fs)
      → IsPruned tree
      → IsPruned (register_at ps fs tree).1
  register_at-IsPruned ps fs tree h = elim (Result-cases (register_at ps fs tree).0) [
    | inl (tt, e) ↦ mounted-IsPruned ps fs tree h e
    | inr (x, e) ↦ subst IsPruned (sym (register_at-refused ps fs tree e)) h
  ]

  put_back-refused :
      (p : List ℕ) (ch : Children Fs) (c : Option Fs) {child : MountNode Fs} {e : VfsError}
      → (r : Result Fs × MountNode Fs) → get p ch ≡ some child
      → ((x : VfsError) → r.0 ≡ fail x → r.1 ≡ child)
      → (put_back p ch c r).0 ≡ fail e
      → (put_back p ch c r).1 ≡ node ch c
  put_back-refused p ch c {child} (fail x, n) g same h =
      ap (λ (t : MountNode Fs). node (insert p t ch) c) (same x refl)
      ∙ ap (λ (t : Children Fs). node t c) (insert-get p child ch g)
  put_back-refused p ch c (done fs, n) g same h = elim (Bool-cases (is_bare n)) [
    | inl b ↦ let h' : done fs ≡ fail _ = rw (b, put_back) at h in absurd cc
    | inr b ↦ let h' : done fs ≡ fail _ = rw (b, put_back) at h in absurd cc
  ]

  put_back-IsPruned :
      (p : List ℕ) (ch : Children Fs) (c : Option Fs) (r : Result Fs × MountNode Fs)
      → ArePruned ch
      → IsPruned r.1
      → ((x : VfsError) → r.0 ≡ fail x → is_bare r.1 ≡ false)
      → IsPruned (put_back p ch c r).1
  put_back-IsPruned p ch c (fail x, n) h v b = insert-ArePruned p n ch h (b x refl) v
  put_back-IsPruned p ch c (done fs, n) h v b = elim (Bool-cases (is_bare n)) [
    | inl q ↦ rw (q, put_back) (remove-ArePruned p ch h)
    | inr q ↦ rw (q, put_back) (insert-ArePruned p n ch h q v)
  ]

  -- A failed unmount leaves the tree as it is.
  pub remove_at-refused :
      (ps : List (List ℕ)) (tree : MountNode Fs) {e : VfsError}
      → (remove_at ps tree).0 ≡ fail e
      → (remove_at ps tree).1 ≡ tree
  remove_at-refused [] (node ch none) h = refl
  remove_at-refused [] (node ch (some fs)) h = cc
  remove_at-refused (p ∷ ps) (node ch c) h = elim (Option-cases (get p ch)) [
    | inl r ↦ rw (r, remove_at) refl
    | inr (child, r) ↦
        let down = remove_at-found p ps ch c r in
        ap (λ t. t.1) down
        ∙ put_back-refused p ch c (remove_at ps child) r (λ x. remove_at-refused ps child {e = x})
            (sym (ap (λ t. t.0) down) ∙ h)
  ]

  -- An unmount leaves no empty node behind, whatever its outcome.
  pub remove_at-IsPruned :
      (ps : List (List ℕ)) (tree : MountNode Fs) → IsPruned tree → IsPruned (remove_at ps tree).1
  remove_at-IsPruned [] (node ch none) h = h
  remove_at-IsPruned [] (node ch (some fs)) h = h
  remove_at-IsPruned (p ∷ ps) (node ch c) h = elim (Option-cases (get p ch)) [
    | inl r ↦ rw (r, remove_at) h
    | inr (child, r) ↦
        let old = get-IsPruned p ch h r in
        subst (λ t. IsPruned t.1) (sym (remove_at-found p ps ch c r))
          (put_back-IsPruned p ch c (remove_at ps child) h (remove_at-IsPruned ps child old.1)
            (λ x q. ap is_bare (remove_at-refused ps child q) ∙ old.0))
  ]
