-- ===== src/Vfs/Mounts/Laws.antt =====
-- What a mount, a search and an unmount mean for each other, on the parts of a path.
use campix.Base.{
  ℕ, ◌≡◌, refl, sym, ap, ◌∙◌, inl, inr, true, false, ◌||◌, not, Option, none, some, List, [], ◌∷◌,
  is_some, Bool-cases, Option-cases, ==_refl,
}
use campix.Vfs.Error.{VfsError, done, fail}
use campix.Vfs.Mounts.{
  MountNode, Children, node, empty, entry, same_name, new_node, is_empty, get, insert, remove,
  or_new,
}
use campix.Vfs.Mounts.Spec.{register_at, search_at}

same_name_refl : (p : List ℕ) → same_name p p ≡ true
same_name_refl [] = refl
same_name_refl (c ∷ cs) = rw (==_refl c) (same_name_refl cs)

module _ {Fs : Type 0} where
  pub get-insert :
      (p : List ℕ) (n : MountNode Fs) (ch : Children Fs) → get p (insert p n ch) ≡ some n
  get-insert p n empty = rw (same_name_refl p) refl
  get-insert p n (entry q m ch) = elim (Bool-cases (same_name q p)) [
    | inl e ↦ rw (e) (rw (e) refl)
    | inr e ↦ rw (e) (rw (e) (get-insert p n ch))
  ]

  pub insert-get :
      (p : List ℕ) (n : MountNode Fs) (ch : Children Fs) → get p ch ≡ some n → insert p n ch ≡ ch
  insert-get p n empty h = cc
  insert-get p n (entry q m ch) h = elim (Bool-cases (same_name q p)) [
    | inl e ↦
        let same : some m ≡ some n = rw e at h in
        let m_eq : n ≡ m = cc in rw (e) (ap (λ (t : MountNode Fs). entry q t ch) m_eq)
    | inr e ↦
        let h' : get p ch ≡ some n = rw e at h in rw (e) (ap (entry q m) (insert-get p n ch h'))
  ]

  pub insert-insert :
      (p : List ℕ) (n m : MountNode Fs) (ch : Children Fs)
      → insert p n (insert p m ch) ≡ insert p n ch
  insert-insert p n m empty = rw (same_name_refl p) refl
  insert-insert p n m (entry q k ch) = elim (Bool-cases (same_name q p)) [
    | inl e ↦ rw (e) (rw (e) refl)
    | inr e ↦ rw (e) (rw (e) (ap (entry q k) (insert-insert p n m ch)))
  ]

  pub remove-insert :
      (p : List ℕ) (n : MountNode Fs) (ch : Children Fs)
      → get p ch ≡ none
      → remove p (insert p n ch) ≡ ch
  remove-insert p n empty h = rw (same_name_refl p) refl
  remove-insert p n (entry q m ch) h = elim (Bool-cases (same_name q p)) [
    | inl e ↦ let c : some m ≡ none = rw e at h in absurd cc
    | inr e ↦
        let h' : get p ch ≡ none = rw e at h in
        rw (e) (rw (e) (ap (entry q m) (remove-insert p n ch h')))
  ]

  pub is_empty-insert :
      (p : List ℕ) (n : MountNode Fs) (ch : Children Fs) → is_empty (insert p n ch) ≡ false
  is_empty-insert p n empty = refl
  is_empty-insert p n (entry q m ch) = elim (Bool-cases (same_name q p)) [
    | inl e ↦ rw (e) refl
    | inr e ↦ rw (e) refl
  ]

  -- Nothing is in the way of a mount below a node that was just made.
  register_at-new : (ps : List (List ℕ)) (fs : Fs) → (register_at ps fs new_node).0 ≡ done tt
  register_at-new [] fs = refl
  register_at-new (p ∷ ps) fs = register_at-new ps fs

  pub register_at-below :
      (p : List ℕ) (ps : List (List ℕ)) (fs : Fs) (ch : Children Fs) {c : Option Fs}
      {m : MountNode Fs}
      → is_some c ≡ false
      → or_new (get p ch) ≡ m
      → register_at (p ∷ ps) fs (node ch c)
        ≡ ((register_at ps fs m).0, node (insert p (register_at ps fs m).1 ch) c)
  register_at-below p ps fs ch q r = rw (q, r) refl

  -- A mount that is refused leaves the tree as it is.
  pub register_at-refused :
      (ps : List (List ℕ)) (fs : Fs) (tree : MountNode Fs) {e : VfsError}
      → (register_at ps fs tree).0 ≡ fail e
      → (register_at ps fs tree).1 ≡ tree
  register_at-refused [] fs (node ch c) h = elim (Bool-cases (not (is_empty ch) || is_some c)) [
    | inl q ↦ rw (q, register_at) refl
    | inr q ↦ let h' : done tt ≡ fail _ = rw (q, register_at) at h in absurd cc
  ]
  register_at-refused (p ∷ ps) fs (node ch c) h = elim (Bool-cases (is_some c)) [
    | inl q ↦ rw (q, register_at) refl
    | inr q ↦ elim (Option-cases (get p ch)) [
      | inl r ↦
          let below = register_at-below p ps fs ch {c = c} q (ap or_new r) in
          absurd (cc (below, h, register_at-new ps fs))
      | inr (child, r) ↦
          let below = register_at-below p ps fs ch {c = c} q (ap or_new r) in
          let same = register_at-refused ps fs child (sym (ap (λ t. t.0) below) ∙ h) in
          ap (λ t. t.1) below
          ∙ ap (λ (t : MountNode Fs). node (insert p t ch) c) same
          ∙ ap (λ (t : Children Fs). node t c) (insert-get p child ch r)
    ]
  ]

  pub refused_full :
      (fs : Fs) (ch : Children Fs) (c : Option Fs)
      → (register_at [] fs (node ch c)).0 ≡ done tt
      → (is_empty ch ≡ true) × (c ≡ none) × ((register_at [] fs (node ch c)).1 ≡ node ch (some fs))
  refused_full fs empty none h = (refl, refl, refl)
  refused_full fs empty (some x) h = cc
  refused_full fs (entry p n ch) c h = cc

  pub not_under_mount :
      (p : List ℕ) (ps : List (List ℕ)) (fs : Fs) (ch : Children Fs) (c : Option Fs)
      → (register_at (p ∷ ps) fs (node ch c)).0 ≡ done tt
      → is_some c ≡ false
  not_under_mount p ps fs ch none h = refl
  not_under_mount p ps fs ch (some x) h = cc

  search_at-found :
      (p : List ℕ) (ps : List (List ℕ)) (ch : Children Fs) (c : Option Fs) {m : MountNode Fs}
      → get p ch ≡ some m
      → search_at (p ∷ ps) (node ch c) ≡ search_at ps m
  search_at-found p ps ch c e = rw (e, search_at) refl

  -- A search for the path of a mount finds what was mounted there, with no part left.
  pub search_at-register_at :
      (ps : List (List ℕ)) (fs : Fs) (tree : MountNode Fs)
      → (register_at ps fs tree).0 ≡ done tt
      → search_at ps (register_at ps fs tree).1 ≡ some (fs, [])
  search_at-register_at [] fs (node ch c) h = ap (search_at []) (refused_full fs ch c h).2
  search_at-register_at (p ∷ ps) fs (node ch c) h =
      let m = or_new (get p ch) in
      let below = register_at-below p ps fs ch {c = c} (not_under_mount p ps fs ch c h) refl in
      ap (λ t. search_at (p ∷ ps) t.1) below
      ∙ search_at-found p ps _ c (get-insert p (register_at ps fs m).1 ch)
      ∙ search_at-register_at ps fs m (sym (ap (λ t. t.0) below) ∙ h)
