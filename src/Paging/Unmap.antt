-- ===== src/Paging/Unmap.antt =====
-- `PageTable::unmap_4kb` and `unmap_2mb`: that no translation is left.
use campix.Base.{
  ℕ, ◌+◌, ◌%◌, ◌^◌, Bool, true, false, ◌&&◌, Option, none, some, ◌==◌, ==_refl, if◌then◌else◌, ◌≡◌,
  refl, sym, ap, ◌∙◌, ◌⊎◌, inl, inr, subst,
}
use mathlib.Core.Option.{none-ne-some}
use campix.Paging.{page_present, page_huge, page_size, page_size_2mb, split_virt_addr}
use campix.Paging.Tables.{
  PageAllocator, PageTable, physical_to_virtual, pml4_of, entry_page, has_flag, Memory, Step,
  continue, fail, set_entry, get_table, remove, empty, prune_pdpt, prune_pd, prune_pt, unmap_4kb,
  unmap_2mb, page_of, translate_pd, translate,
}

-- The table that an entry leads to.
abbrev pub next : ℕ → ℕ → Option ℕ
next value disallowed_flags =
    if has_flag value page_present
    then (if has_flag value disallowed_flags
        then none
        else some (physical_to_virtual (entry_page value)))
    else none

module _ (A : PageAllocator) where
  -- Without leave to add a table, `get_table` only looks.
  pub get_table-next :
      (t i sub_flags disallowed_flags : ℕ) (m : Memory A)
      → get_table A false t i sub_flags disallowed_flags m
        ≡ (next (m.tables t i) disallowed_flags, m)
  unfolding get_table
  get_table-next t i sub_flags disallowed m =
      go (has_flag (m.tables t i) page_present) (has_flag (m.tables t i) disallowed)
        (physical_to_virtual (entry_page (m.tables t i)))
    where
      go :
          (b c : Bool) (q : ℕ)
          → ◌≡◌ {A = Option ℕ × Memory A}
              (if b then (if c then (none, m) else (some q, m)) else (none, m))
              ((if b then (if c then none else some q) else none), m)
      go true true q = refl
      go true false q = refl
      go false c q = refl

  -- Entries that stay as they are or become zero.
  abbrev pub Lessens : Memory A → Memory A → Type 0
  Lessens m m' = (t i : ℕ) → (m'.tables t i ≡ m.tables t i) ⊎ (m'.tables t i ≡ 0)

  Lessens-trans : (m m' m'' : Memory A) → Lessens m m' → Lessens m' m'' → Lessens m m''
  Lessens-trans m m' m'' f g t i = elim (g t i) [
    | inl e ↦ elim (f t i) [ inl d ↦ inl (e ∙ d) | inr d ↦ inr (e ∙ d) ]
    | inr e ↦ inr e
  ]

  set_entry-Lessens : (t i : ℕ) (m : Memory A) → Lessens m (set_entry A t i 0 m)
  unfolding set_entry
  set_entry-Lessens t i m t' i' = go ((t' == t) && (i' == i))
    where
      go :
          (b : Bool)
          → ((if b then 0 else m.tables t' i') ≡ m.tables t' i')
            ⊎ ((if b then 0 else m.tables t' i') ≡ 0)
      go true = inr refl
      go false = inl refl

  remove-Lessens : (t i : ℕ) (m : Memory A) → Lessens m (remove A t i m)
  unfolding remove
  remove-Lessens t i m = go (has_flag (m.tables t i) page_present)
    where
      freed : Memory A
      freed = record m {
        allocator = A.free_page (physical_to_virtual (entry_page (m.tables t i))) m.allocator;
      }

      go :
          (b : Bool)
          → Lessens m (
              set_entry A t i 0 (
                if b
                then record m {
                  allocator =
                      A.free_page (physical_to_virtual (entry_page (m.tables t i))) m.allocator;
                }
                else m))
      go true = set_entry-Lessens t i freed
      go false = set_entry-Lessens t i m

  when-Lessens : (b : Bool) (m m' : Memory A) → Lessens m m' → Lessens m (if b then m' else m)
  when-Lessens true m m' h = h
  when-Lessens false m m' h = λ t i. inl refl

  prune_pd-Lessens :
      (pml4 pdpt pd pml4_idx pdpt_idx : ℕ) (m : Memory A)
      → Lessens m (prune_pd A pml4 pdpt pd pml4_idx pdpt_idx m)
  prune_pd-Lessens pml4 pdpt pd pml4_idx pdpt_idx m =
      let m1 = remove A pdpt pdpt_idx m in
      when-Lessens (empty A pd m) m (prune_pdpt A pml4 pdpt pml4_idx m1) (
        Lessens-trans m m1 (prune_pdpt A pml4 pdpt pml4_idx m1) (remove-Lessens pdpt pdpt_idx m) (
          when-Lessens (empty A pdpt m1) m1 (remove A pml4 pml4_idx m1)
            (remove-Lessens pml4 pml4_idx m1)))

  prune_pt-Lessens :
      (pml4 pdpt pd pt pml4_idx pdpt_idx pd_idx : ℕ) (m : Memory A)
      → Lessens m (prune_pt A pml4 pdpt pd pt pml4_idx pdpt_idx pd_idx m)
  prune_pt-Lessens pml4 pdpt pd pt pml4_idx pdpt_idx pd_idx m =
      let m1 = remove A pd pd_idx m in
      when-Lessens (empty A pt m) m (prune_pd A pml4 pdpt pd pml4_idx pdpt_idx m1) (
        Lessens-trans m m1 (prune_pd A pml4 pdpt pd pml4_idx pdpt_idx m1)
          (remove-Lessens pd pd_idx m) (prune_pd-Lessens pml4 pdpt pd pml4_idx pdpt_idx m1))

  -- A walk that goes on after one entry went on from the entry's table.
  went_on :
      {B : Type 0} (o : Option ℕ) (m m' : Memory A) (f : ℕ → Step A B) (b : B)
      → continue A (o, m) f ≡ (some b, m')
      → (q : ℕ) × (o ≡ some q) × (f q m ≡ (some b, m'))
  went_on none m m' f b e = absurd (none-ne-some b (ap (λ r. r.0) e))
  went_on (some q) m m' f b e = (q, refl, e)

  -- After entries were only zeroed, a walk through one leads where it led, or nowhere.
  nowhere :
      {B : Type 0} (value value' disallowed q : ℕ) (m : Memory A) (f : ℕ → Step A B)
      → (value' ≡ value) ⊎ (value' ≡ 0)
      → next value disallowed ≡ some q
      → (f q m).0 ≡ none
      → (continue A (next value' disallowed, m) f).0 ≡ none
  nowhere value value' disallowed q m f (inl e) n h =
      ap (λ (v : ℕ). (continue A (next v disallowed, m) f).0) e
      ∙ ap (λ (o : Option ℕ). (continue A (o, m) f).0) n
      ∙ h
  nowhere value value' disallowed q m f (inr e) n h =
      ap (λ (v : ℕ). (continue A (next v disallowed, m) f).0) e

  -- An entry that leads to a table of pages is no page of 2 MiB, and nor is a zeroed one.
  pub not_huge :
      (value value' pt : ℕ)
      → (value' ≡ value) ⊎ (value' ≡ 0)
      → next value page_huge ≡ some pt
      → (has_flag value' page_present && has_flag value' page_huge) ≡ false
  not_huge value value' pt (inr e) n =
      ap (λ (v : ℕ). has_flag v page_present && has_flag v page_huge) e
  not_huge value value' pt (inl e) n =
      ap (λ (v : ℕ). has_flag v page_present && has_flag v page_huge) e
      ∙ go (has_flag value page_present) (has_flag value page_huge) _ n
    where
      go :
          (b c : Bool) (q : ℕ)
          → ◌≡◌ {A = Option ℕ} (if b then (if c then none else some q) else none) (some pt)
          → (b && c) ≡ false
      go true true q n = absurd (none-ne-some pt n)
      go true false q n = refl
      go false c q n = refl

  set_entry_self : (t i : ℕ) (m : Memory A) → (set_entry A t i 0 m).tables t i ≡ 0
  unfolding set_entry
  set_entry_self t i m = rw (==_refl t, ==_refl i) refl

  still_zero : (t i : ℕ) (m m' : Memory A) → m.tables t i ≡ 0 → Lessens m m' → m'.tables t i ≡ 0
  still_zero t i m m' e h = elim (h t i) [ inl d ↦ d ∙ e | inr d ↦ d ]

  -- The walk's last two levels, where the last entry is zero.
  directory-none :
      (virt pd pd_idx pt pt_idx : ℕ) (m m' : Memory A)
      → Lessens m m'
      → next (m.tables pd pd_idx) page_huge ≡ some pt
      → m'.tables pt pt_idx ≡ 0
      → (translate_pd A virt pd pd_idx pt_idx m').0 ≡ none
  directory-none virt pd pd_idx pt pt_idx m m' h n z =
      rw
        (
          not_huge (m.tables pd pd_idx) (m'.tables pd pd_idx) pt (h pd pd_idx) n,
          get_table-next pd pd_idx 0 page_huge m',
        )
        (nowhere (m.tables pd pd_idx) (m'.tables pd pd_idx) page_huge pt m'
          (λ pt m. page_of A (m.tables pt pt_idx) (virt % page_size) m) (h pd pd_idx) n
          (ap (λ (v : ℕ). (page_of A v (virt % page_size) m').0) z))

  -- The walk down to a page directory, after and before entries were zeroed.
  walk-none :
      (p4 i4 i3 : ℕ) (pdpt pd : ℕ) (m m' : Memory A) (f : ℕ → Step A ℕ)
      → Lessens m m'
      → next (m.tables p4 i4) 0 ≡ some pdpt
      → next (m.tables pdpt i3) 0 ≡ some pd
      → (f pd m').0 ≡ none
      → (continue A
          (get_table A false p4 i4 0 0 m')
          (λ pdpt m. continue A (get_table A false pdpt i3 0 0 m) f)).0
        ≡ none
  walk-none p4 i4 i3 pdpt pd m m' f h n4 n3 z = rw (get_table-next p4 i4 0 0 m') (
      nowhere (m.tables p4 i4) (m'.tables p4 i4) 0 pdpt m'
        (λ pdpt m. continue A (get_table A false pdpt i3 0 0 m) f) (h p4 i4) n4
        (rw (get_table-next pdpt i3 0 0 m')
          (nowhere (m.tables pdpt i3) (m'.tables pdpt i3) 0 pd m' f (h pdpt i3) n3 z)))

  walked :
      {B : Type 0} (t i disallowed : ℕ) (m m' : Memory A) (f : ℕ → Step A B) (b : B)
      → continue A (get_table A false t i 0 disallowed m) f ≡ (some b, m')
      → (q : ℕ) × (next (m.tables t i) disallowed ≡ some q) × (f q m ≡ (some b, m'))
  walked {B} t i disallowed m m' f b e = went_on (next (m.tables t i) disallowed) m m' f b (
      ap (λ (r : Option ℕ × Memory A). continue A {C = B} r f)
        (sym (get_table-next t i 0 disallowed m))
      ∙ e)

  pub allowed :
      {B : Type 0} (readonly : Bool) (s : Step A B) (m m' : Memory A) (b : B)
      → (if readonly then fail A else s) m ≡ (some b, m')
      → s m ≡ (some b, m')
  allowed true s m m' b e = absurd (none-ne-some b (ap (λ r. r.0) e))
  allowed false s m m' b e = e

  zero_directory :
      (virt pd i2 i1 : ℕ) (m : Memory A)
      → m.tables pd i2 ≡ 0
      → (translate_pd A virt pd i2 i1 m).0 ≡ none
  zero_directory virt pd i2 i1 m z =
      rw (get_table-next pd i2 0 page_huge m) (ap (entry_walk pd i2 i1) z)
    where
      entry_walk : ℕ → ℕ → ℕ → ℕ → Option ℕ
      entry_walk pd i2 i1 v =
          (if has_flag v page_present && has_flag v page_huge
            then (some ((entry_page v + virt % page_size_2mb) % 2 ^ 64), m)
            else continue A (next v page_huge, m)
                (λ pt m. page_of A (m.tables pt i1) (virt % page_size) m)).0

  -- When `unmap_4kb` succeeds, the address translates to nothing afterwards.
  pub unmap_4kb-translate :
      (table : PageTable) (virt : ℕ) (m m' : Memory A)
      → unmap_4kb A table virt m ≡ (some tt, m')
      → (translate A table virt m').0 ≡ none
  unfolding unmap_4kb translate
  unmap_4kb-translate table virt m m' e =
      let (i4, i3, i2, i1) = split_virt_addr virt in
      let (pdpt, n4, e4) =
        walked (pml4_of table) i4 0 m m' _ tt (allowed table.readonly _ m m' tt e) in
      let (pd, n3, e3) = walked pdpt i3 0 m m' _ tt e4 in
      let (pt, n2, e2) = walked pd i2 page_huge m m' _ tt e3 in
      let m1 = set_entry A pt i1 0 m in
      let after : prune_pt A (pml4_of table) pdpt pd pt i4 i3 i2 m1 ≡ m' = ap (λ r. r.1) e2 in
      let pruned : Lessens m1 m' =
        subst (Lessens m1) after (prune_pt-Lessens (pml4_of table) pdpt pd pt i4 i3 i2 m1) in
      let lessened : Lessens m m' = Lessens-trans m m1 m' (set_entry-Lessens pt i1 m) pruned in
      walk-none (pml4_of table) i4 i3 pdpt pd m m' (λ pd. translate_pd A virt pd i2 i1) lessened n4
        n3
        (directory-none virt pd i2 pt i1 m m' lessened n2
          (still_zero pt i1 m1 m' (set_entry_self pt i1 m) pruned))

  -- When `unmap_2mb` succeeds, the address translates to nothing afterwards.
  pub unmap_2mb-translate :
      (table : PageTable) (virt : ℕ) (m m' : Memory A)
      → unmap_2mb A table virt m ≡ (some tt, m')
      → (translate A table virt m').0 ≡ none
  unfolding unmap_2mb translate
  unmap_2mb-translate table virt m m' e =
      let (i4, i3, i2, i1) = split_virt_addr virt in
      let (pdpt, n4, e4) =
        walked (pml4_of table) i4 0 m m' _ tt (allowed table.readonly _ m m' tt e) in
      let (pd, n3, e3) = walked pdpt i3 0 m m' _ tt e4 in
      let m1 = set_entry A pd i2 0 m in
      let after : prune_pd A (pml4_of table) pdpt pd i4 i3 m1 ≡ m' = ap (λ r. r.1) e3 in
      let pruned : Lessens m1 m' =
        subst (Lessens m1) after (prune_pd-Lessens (pml4_of table) pdpt pd i4 i3 m1) in
      let lessened : Lessens m m' = Lessens-trans m m1 m' (set_entry-Lessens pd i2 m) pruned in
      walk-none (pml4_of table) i4 i3 pdpt pd m m' (λ pd. translate_pd A virt pd i2 i1) lessened n4
        n3
        (zero_directory virt pd i2 i1 m' (still_zero pd i2 m1 m' (set_entry_self pd i2 m) pruned))
