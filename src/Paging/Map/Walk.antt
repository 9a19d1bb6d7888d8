-- ===== src/Paging/Map/Walk.antt =====
-- `get_table` with leave to add a table, and the walk of `map_4kb`.
use campix.Base.{
  ℕ, suc, Bool, true, false, ◌&&◌, Option, none, some, ◌==◌, ==_iff, ==_refl, if◌then◌else◌, ◌≡◌,
  ◌≢◌, refl, sym, ap, ◌∙◌, inl, inr, Bool-cases, subst, arith, ne→==_false,
}
use mathlib.Core.Option.{none-ne-some, some-injective}
use campix.Paging.{page_present}
use campix.Paging.Tables.{
  PageAllocator, has_flag, Memory, set_entry, clear_table, get_table, follow, add_table,
}
use campix.Paging.Unmap.{next}
use campix.Paging.Map.{
  IsAllocator, IsLevelled, Descends, stays, added, added_self, added-other, added-page, Leads-next,
  Leads-follow,
}
use campix.Paging.Map.Entry.{IsPage, IsTableFlags, disallowed_at, Leads, new_entry-Leads}

both_true : (b c : Bool) → (b && c) ≡ true → (b ≡ true) × (c ≡ true)
both_true true c e = (refl, e)
both_true false c e = absurd (ground (arith, e))

module _ (A : PageAllocator) (is : IsAllocator A) where
  module _ (level : ℕ → ℕ) (t i k : ℕ) (m : Memory A) (flags : ℕ) (l : level t ≡ suc (suc k))
      (v : IsLevelled A is level m) (f : IsTableFlags flags) where
    module _ (page : ℕ) (s : A.State) (e : A.alloc_page m.allocator ≡ (some page, s)) where
      fresh :
          is.IsFree m.allocator page
          × IsPage page
          × is.IsValid s
          × ((other : ℕ) → is.IsFree s other → is.IsFree m.allocator other × (other ≢ page))
      fresh = is.alloc-IsFree m.allocator s page v.allocator e

      no_level : level page ≡ 0
      no_level = v.unused page fresh.0

      levelled_ne : (x n : ℕ) → level x ≡ suc n → x ≢ page
      levelled_ne x n h same = absurd (omega (arith, h, no_level, ap level same))

      new_level : ℕ → ℕ
      new_level x = if x == page then suc k else level x

      new_level-other : (x : ℕ) → x ≢ page → new_level x ≡ level x
      unfolding new_level
      new_level-other x n = rw (ne→==_false x page n) refl

      new_level-page : new_level page ≡ suc k
      unfolding new_level
      new_level-page = rw (==_refl page) refl

      abbrev m2 : Memory A
      m2 = added A is t i page flags m s

      leads : Leads (m2.tables t i) (disallowed_at k) page
      leads =
          subst (λ w. Leads w (disallowed_at k) page) (sym (added_self A is t i page flags m s))
            (new_entry-Leads k page flags fresh.1 f)

      down_other :
          (x j k' q : ℕ)
          → x ≢ page
          → level x ≡ suc (suc k')
          → next (m2.tables x j) (disallowed_at k') ≡ some q
          → new_level q ≡ suc k'
      down_other x j k' q n lx e = elim (Bool-cases ((x == t) && (j == i))) [
        | inl at ↦
            let (is_t, is_i) = both_true (x == t) (j == i) at in
            let xe : x ≡ t = (==_iff x t).0 is_t in
            let je : j ≡ i = (==_iff j i).0 is_i in
            let ke : k' ≡ k = omega (arith, lx, l, ap level xe) in
            let found : next (m2.tables x j) (disallowed_at k') ≡ some page =
              ap (λ (y : ℕ). next (m2.tables y j) (disallowed_at k')) xe
              ∙ ap (λ (y : ℕ). next (m2.tables t y) (disallowed_at k')) je
              ∙ ap (λ (y : ℕ). next (m2.tables t i) (disallowed_at y)) ke
              ∙ Leads-next A is (m2.tables t i) (disallowed_at k) page leads in
            ap new_level (sym (some-injective page q (sym found ∙ e)))
            ∙ new_level-page
            ∙ ap (λ (y : ℕ). suc y) (sym ke)
        | inr off ↦
            let old : next (m.tables x j) (disallowed_at k') ≡ some q =
              ap (λ (w : ℕ). next w (disallowed_at k'))
                (sym (added-other A is t i page flags x j m s off n))
              ∙ e in
            let lq : level q ≡ suc k' = v.down x j k' q lx old in
            new_level-other q (levelled_ne q k' lq) ∙ lq
      ]

      down_page : (j d q : ℕ) → next (m2.tables page j) d ≡ some q → ⊥
      down_page j d q e = none-ne-some q (
          ap (λ (w : ℕ). next w d)
            (sym
              (added-page A is t i page flags j m s (λ same. levelled_ne t (suc k) l (sym same))))
          ∙ e)

      grown : Descends A is level t i k m page m2
      unfolding set_entry clear_table
      grown = record {
        level' = new_level;
        levelled = record {
          down = λ x j k' q lx e. elim (Bool-cases (x == page)) [
            | inl at ↦ absurd (
                down_page j (disallowed_at k') q (
                  ap (λ (y : ℕ). next (m2.tables y j) (disallowed_at k'))
                    (sym ((==_iff x page).0 at))
                  ∙ e))
            | inr off ↦
                let n : x ≢ page = λ same. ground (arith, off, same) in
                down_other x j k' q n (sym (new_level-other x n) ∙ lx) e
          ];
          unused = λ p h. let (free, n) = fresh.3 p h in new_level-other p n ∙ v.unused p free;
          allocator = fresh.2;
        };
        reached = new_level-page;
        leads = Leads-next A is (m2.tables t i) (disallowed_at k) page leads;
        kept = λ x h. new_level-other x (λ same. h (ap level same ∙ no_level));
        same = λ x j h n.
            added-other A is t i page flags x j m s (rw (ne→==_false x t n) refl)
              (λ at. h (ap level at ∙ no_level));
      }

    followed :
        (c : Bool) (x q : ℕ) (m' : Memory A)
        → ◌≡◌ {A = Option ℕ × Memory A} (if c then (none, m) else (some x, m)) (some q, m')
        → ◌≡◌ {A = Option ℕ} (if c then none else some x) (some q) × (m ≡ m')
    followed true x q m' e = absurd (none-ne-some q (ap (λ r. r.0) e))
    followed false x q m' e = (ap (λ r. r.0) e, ap (λ r. r.1) e)

    found_table :
        (q : ℕ) (m' : Memory A)
        → has_flag (m.tables t i) page_present ≡ true
        → follow A t i (disallowed_at k) m ≡ (some q, m')
        → Descends A is level t i k m q m'
    found_table q m' p e =
        let (n, same) = followed (has_flag (m.tables t i) (disallowed_at k)) _ q m' e in
        subst (Descends A is level t i k m q) same (stays A is level t i k m q l v (rw p n))

    added_table :
        (r : Option ℕ × A.State) (q : ℕ) (m' : Memory A)
        → A.alloc_page m.allocator ≡ r
        → add_table A t i flags (disallowed_at k) r m ≡ (some q, m')
        → Descends A is level t i k m q m'
    added_table (none, s) q m' a e = absurd (none-ne-some q (ap (λ r. r.0) e))
    added_table (some page, s) q m' a e =
        let m3 = added A is t i page flags m s in
        let here : ◌≡◌ {A = Option ℕ × Memory A} (some page, m3) (some q, m') =
          sym (Leads-follow A is t i (disallowed_at k) page m3 (leads page s a)) ∙ e in
        subst (λ (x : ℕ). Descends A is level t i k m x m')
          (some-injective page q (ap (λ r. r.0) here))
          (subst (Descends A is level t i k m page) (ap (λ r. r.1) here) (grown page s a))

    by_presence :
        (b : Bool) (q : ℕ) (m' : Memory A)
        → has_flag (m.tables t i) page_present ≡ b
        → (if b
            then follow A t i (disallowed_at k) m
            else add_table A t i flags (disallowed_at k) (A.alloc_page m.allocator) m)
          ≡ (some q, m')
        → Descends A is level t i k m q m'
    by_presence true q m' p e = found_table q m' p e
    by_presence false q m' p e = added_table (A.alloc_page m.allocator) q m' refl e

    -- A step of the walk either finds a table or adds one.
    pub get_table-Descends :
        (q : ℕ) (m' : Memory A)
        → get_table A true t i flags (disallowed_at k) m ≡ (some q, m')
        → Descends A is level t i k m q m'
    unfolding get_table
    get_table-Descends q m' e = by_presence (has_flag (m.tables t i) page_present) q m' refl e
