-- ===== src/Ext2/Backups/Agreement.antt =====
-- That `get_backup_groups` lists the groups that `block_group_contains_metadata_backup` accepts, and
-- how far it goes.
use campix.Base.{
  ℕ, ◌+◌, ◌^◌, ◌≤◌, ◌<◌, ◌≡◌, inl, inr, refl, sym, ap, ap₂, subst, ◌∙◌, Bool, true, false, ◌&&◌,
  ◌||◌, List, [], ◌∷◌, ◌++◌, leb, le→leb, ◌==◌, Bool-cases, Run, ok, arith,
}
use native.Mathlib.Nat.{pow-zero}
use campix.Ext2.Backups.{
  Groups, or_else, block_group_contains_metadata_backup, push_powers, get_backup_groups,
}
use campix.Ext2.Backups.Powers.{among, IsPower, Decides, is_pow-Decides, Lists, push_powers-Lists}

among-append : (g : ℕ) (xs ys : List ℕ) → among g (xs ++ ys) ≡ (among g xs || among g ys)
among-append g [] ys = refl
among-append g (x ∷ xs) ys = rw (among-append g xs ys) (ground arith)

-- A list of the powers up to `count` has a number just when it is a power up to `count`.
among-Lists :
    (b count g : ℕ) (r : Run (List ℕ)) (p : Run Bool)
    → (l : Lists b 1 count r) → (d : Decides (IsPower b 1 g) p) → among g l.0 ≡ (leb g count && d.0)
among-Lists b count g r p (xs, e, members) (x, f, (there, back)) = elim (Bool-cases (among g xs)) [
  | inl c ↦ let (power, le) = (members g).0 c in rw (le→leb g count le, back power) c
  | inr c ↦ elim (Bool-cases x) [
    | inr d ↦ rw d (c ∙ ground arith)
    | inl d ↦ elim (Bool-cases (leb g count)) [
      | inr l ↦ rw l c
      | inl l ↦
          let le : g ≤ count = ground (arith, l) in
          let clash : true ≡ false = sym ((members g).1 (there d, le)) ∙ c in absurd (ground arith)
    ]
  ]
]

or_else_ok : (b c : Bool) → or_else (ok b) (ok c) ≡ ok (b || c)
or_else_ok true c = refl
or_else_ok false c = refl

or_assoc : (a b c : Bool) → ((a || b) || c) ≡ (a || (b || c))
or_assoc true b c = refl
or_assoc false b c = refl

first_groups :
    (g count : ℕ) (t f s : Bool)
    → 2 ≤ count
    → ((0 == g) || ((1 == g) || ((leb g count && t) || ((leb g count && f) || (leb g count && s)))))
      ≡ (leb g count && (leb g 1 || (t || (f || s))))
first_groups g count t f s h = elim (Bool-cases (leb g 1)) [
  | inl c ↦ let small : (leb g count) ≡ true = ground arith in rw (small, c) (ground arith)
  | inr c ↦
      let zero_not : (0 == g) ≡ false = ground arith in
      let one_not : (1 == g) ≡ false = ground arith in
      rw (c, zero_not, one_not) (go (leb g count) t f s)
]
  where
    go : (l t f s : Bool) → ((l && t) || ((l && f) || (l && s))) ≡ (l && (t || (f || s)))
    go true t f s = refl
    go false t f s = refl

among-groups :
    (g count : ℕ) (t f s : Bool) (ts fs ss : List ℕ)
    → 2 ≤ count
    → among g ts ≡ (leb g count && t)
    → among g fs ≡ (leb g count && f)
    → among g ss ≡ (leb g count && s)
    → among g (0 ∷ 1 ∷ (ts ++ fs ++ ss)) ≡ (leb g count && (leb g 1 || (t || (f || s))))
among-groups g count t f s ts fs ss h e1 e2 e3 =
    ap (λ (b : Bool). (0 == g) || ((1 == g) || b))
      (among-append g (ts ++ fs) ss
        ∙ ap₂ ◌||◌ (among-append g ts fs ∙ ap₂ ◌||◌ e1 e2) e3
        ∙ or_assoc (leb g count && t) (leb g count && f) (leb g count && s))
    ∙ first_groups g count t f s h

-- In a volume with `SparseDescriptorTables` and at least two groups, both functions return, and
-- `get_backup_groups` lists a number just when `block_group_contains_metadata_backup` accepts it and
-- it is at most the number of groups; so it lists one that is no group where the number of groups is
-- itself accepted.
pub get_backup_groups-lists :
    (s : Groups) (group : ℕ)
    → s.sparse_descriptor_tables ≡ true
    → 2 ≤ s.block_group_count
    → s.block_group_count < 2 ^ 32
    → group < 2 ^ 32
    → (groups : List ℕ) × (get_backup_groups s ≡ ok groups)
      × (b : Bool) × (block_group_contains_metadata_backup s group ≡ ok b)
      × (among group groups ≡ (leb group s.block_group_count && b))
unfolding get_backup_groups block_group_contains_metadata_backup
get_backup_groups-lists s group sparse some_groups small group_small =
    let n = s.block_group_count in
    let lists = λ (b : ℕ) (two : 2 ≤ b) (e : 2 ^ 32 ≤ b ^ (1 + 32)).
      subst (λ (v : ℕ). Lists b 1 n (push_powers 33 b v n)) (pow-zero b)
        (push_powers-Lists 32 0 b n two small e) in
    let threes = lists 3 (omega arith) (omega arith) in
    let fives = lists 5 (omega arith) (omega arith) in
    let sevens = lists 7 (omega arith) (omega arith) in
    let three = is_pow-Decides group 3 (omega arith) group_small (omega arith) in
    let five = is_pow-Decides group 5 (omega arith) group_small (omega arith) in
    let seven = is_pow-Decides group 7 (omega arith) group_small (omega arith) in
    let many : leb n 1 ≡ false = ground (arith, some_groups) in
    (
      0 ∷ 1 ∷ (threes.0 ++ fives.0 ++ sevens.0),
      rw (sparse, many, threes.1, fives.1, sevens.1) refl,
      leb group 1 || (three.0 || (five.0 || seven.0)),
      rw
          (
            sparse,
            three.1,
            five.1,
            seven.1,
            or_else_ok five.0 seven.0,
            or_else_ok three.0 (five.0 || seven.0),
          )
          (or_else_ok (leb group 1) (three.0 || (five.0 || seven.0))),
      among-groups group n three.0 five.0 seven.0 threes.0 fives.0 sevens.0 some_groups
          (among-Lists 3 n group _ _ threes three) (among-Lists 5 n group _ _ fives five)
          (among-Lists 7 n group _ _ sevens seven),
    )
