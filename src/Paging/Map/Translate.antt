-- ===== src/Paging/Map/Translate.antt =====
-- That what `map_4kb` maps translates to the page it was given.
use campix.Base.{
  ℕ, suc, ◌+◌, ◌*◌, ◌/◌, ◌%◌, ◌^◌, ◌<◌, Option, none, some, ==_refl, ◌≡◌, ◌≢◌, refl, sym, ap, ◌∙◌,
  inl, subst, bit_or, arith, ne→==_false,
}
use mathlib.Core.Option.{none-ne-some}
use campix.Base.Words.{bit_or-append, bit_and-high_mask}
use campix.Paging.{page_huge, page_size, split_virt_addr, align_down}
use campix.Paging.Tables.{
  PageAllocator, PageTable, pml4_of, Memory, Step, continue, set_entry, table_flags, map_4kb,
  page_of, translate,
}
use campix.Paging.Unmap.{next, get_table-next, not_huge, allowed}
use campix.Paging.Map.{IsAllocator, IsLevelled, Descends}
use campix.Paging.Map.Walk.{get_table-Descends}
use campix.Paging.Map.Entry.{disallowed_at, entry_page-eq, has_present, table_flags-IsTableFlags}

-- An aligned page and its flags, side by side in an entry.
page_entry-eq :
    (phys flags : ℕ)
    → phys % 4096 ≡ 0
    → phys < 2 ^ 52
    → flags < 2 ^ 12
    → bit_or (align_down phys page_size) flags ≡ flags + 2 ^ 12 * (phys / 2 ^ 12)
unfolding align_down
page_entry-eq phys flags aligned h k =
    let down : align_down phys page_size ≡ 2 ^ 12 * (phys / 2 ^ 12) =
      bit_and-high_mask 64 12 phys (omega arith) (omega arith) ∙ omega arith in
    ap (λ (a : ℕ). bit_or a flags) down ∙ bit_or-append 12 flags (phys / 2 ^ 12) k

module _ (A : PageAllocator) (is : IsAllocator A) where
  went_down :
      {B : Type 0} (r : Option ℕ × Memory A) (m' : Memory A) (f : ℕ → Step A B) (b : B)
      → continue A r f ≡ (some b, m')
      → (q : ℕ) × (m1 : Memory A) × (r ≡ (some q, m1)) × (f q m1 ≡ (some b, m'))
  went_down (none, m1) m' f b e = absurd (none-ne-some b (ap (λ r. r.0) e))
  went_down (some q, m1) m' f b e = (q, m1, refl, e)

  ne_of_level : (level : ℕ → ℕ) (x y a b : ℕ) → level x ≡ a → level y ≡ b → a < b → y ≢ x
  ne_of_level level x y a b h k l same = absurd (omega (arith, h, k, l, ap level same))

  -- An entry of a table is kept when another table's entry is written.
  set_entry_ne :
      (t i value x j : ℕ) (m : Memory A)
      → x ≢ t
      → (set_entry A t i value m).tables x j ≡ m.tables x j
  unfolding set_entry
  set_entry_ne t i value x j m n = rw (ne→==_false x t n) refl

  set_entry_at : (t i value : ℕ) (m : Memory A) → (set_entry A t i value m).tables t i ≡ value
  unfolding set_entry
  set_entry_at t i value m = rw (==_refl t, ==_refl i) refl

  -- The walk of `translate` through entries that lead on.
  translates :
      (table : PageTable) (virt pdpt pd pt value : ℕ) (m : Memory A)
      → next (m.tables (pml4_of table) (split_virt_addr virt).0) 0 ≡ some pdpt
      → next (m.tables pdpt (split_virt_addr virt).1) 0 ≡ some pd
      → next (m.tables pd (split_virt_addr virt).2) page_huge ≡ some pt
      → m.tables pt (split_virt_addr virt).3 ≡ value
      → (translate A table virt m).0 ≡ (page_of A value (virt % page_size) m).0
  unfolding translate
  translates table virt pdpt pd pt value m n4 n3 n2 e =
      rw
        (
          get_table-next A (pml4_of table) (split_virt_addr virt).0 0 0 m,
          n4,
          get_table-next A pdpt (split_virt_addr virt).1 0 0 m,
          n3,
          not_huge A (m.tables pd (split_virt_addr virt).2) (m.tables pd (split_virt_addr virt).2)
              pt (inl refl) n2,
          get_table-next A pd (split_virt_addr virt).2 0 page_huge m,
          n2,
          e,
        )
        refl

  page_of-entry :
      (phys flags virt : ℕ) (m : Memory A)
      → phys % 4096 ≡ 0
      → phys < 2 ^ 52
      → flags < 2 ^ 12
      → flags % 2 ≡ 1
      → (page_of A (bit_or (align_down phys page_size) flags) (virt % page_size) m).0
        ≡ some (phys + virt % 4096)
  page_of-entry phys flags virt m aligned h k odd =
      ap (λ (v : ℕ). (page_of A v (virt % page_size) m).0) (page_entry-eq phys flags aligned h k)
      ∙ rw
          (
            has_present (phys / 2 ^ 12) flags odd,
            entry_page-eq (phys / 2 ^ 12) flags k (omega arith),
          )
          (ap (λ (n : ℕ). some n)
            (let e : (2 ^ 12 * (phys / 2 ^ 12) + virt % 4096) % 2 ^ 64 ≡ phys + virt % 4096 =
                omega arith in
              e))

  -- Three steps down from the top table, and an entry written in the table they end at.
  module _ (level : ℕ → ℕ) (p4 i4 i3 i2 i1 pdpt pd pt value : ℕ) (m m1 m2 m3 : Memory A)
      (top : level p4 ≡ 4) (d4 : Descends A is level p4 i4 2 m pdpt m1)
      (d3 : Descends A is d4.level' pdpt i3 1 m1 pd m2)
      (d2 : Descends A is d3.level' pd i2 0 m2 pt m3) where
    abbrev written : Memory A
    written = set_entry A pt i1 value m3

    keep : (l l' : ℕ → ℕ) (x n : ℕ) → ((y : ℕ) → l y ≢ 0 → l' y ≡ l y) → l x ≡ suc n → l' x ≡ suc n
    keep l l' x n kept e = kept x (λ z. absurd (omega (arith, e, z))) ∙ e

    nonzero : (l : ℕ → ℕ) (x n : ℕ) → l x ≡ suc n → l x ≢ 0
    nonzero l x n e z = absurd (omega (arith, e, z))

    top1 : d4.level' p4 ≡ 4
    top1 = keep level d4.level' p4 3 d4.kept top

    top2 : d3.level' p4 ≡ 4
    top2 = keep d4.level' d3.level' p4 3 d3.kept top1

    top3 : d2.level' p4 ≡ 4
    top3 = keep d3.level' d2.level' p4 3 d2.kept top2

    pdpt2 : d3.level' pdpt ≡ 3
    pdpt2 = keep d4.level' d3.level' pdpt 2 d3.kept d4.reached

    pdpt3 : d2.level' pdpt ≡ 3
    pdpt3 = keep d3.level' d2.level' pdpt 2 d2.kept pdpt2

    pd3 : d2.level' pd ≡ 2
    pd3 = keep d3.level' d2.level' pd 1 d2.kept d3.reached

    above : (x n : ℕ) → d2.level' x ≡ suc (suc n) → x ≢ pt
    above x n e same = absurd (omega (arith, e, d2.reached, ap d2.level' same))

    written-pml4 : next (written.tables p4 i4) 0 ≡ some pdpt
    written-pml4 =
        ap (λ (w : ℕ). next w 0)
          (set_entry_ne pt i1 value p4 i4 m3 (above p4 2 top3)
            ∙ d2.same p4 i4 (nonzero d3.level' p4 3 top2)
                (ne_of_level d3.level' pd p4 2 4 d3.reached top2 (omega arith))
            ∙ d3.same p4 i4 (nonzero d4.level' p4 3 top1)
                (ne_of_level d4.level' pdpt p4 3 4 d4.reached top1 (omega arith)))
        ∙ d4.leads

    written-pdpt : next (written.tables pdpt i3) 0 ≡ some pd
    written-pdpt =
        ap (λ (w : ℕ). next w 0)
          (set_entry_ne pt i1 value pdpt i3 m3 (above pdpt 1 pdpt3)
            ∙ d2.same pdpt i3 (nonzero d3.level' pdpt 2 pdpt2)
                (ne_of_level d3.level' pd pdpt 2 3 d3.reached pdpt2 (omega arith)))
        ∙ d3.leads

    written-pd : next (written.tables pd i2) page_huge ≡ some pt
    written-pd =
        ap (λ (w : ℕ). next w page_huge) (set_entry_ne pt i1 value pd i2 m3 (above pd 0 pd3))
        ∙ d2.leads

    written-IsLevelled : IsLevelled A is d2.level' written
    unfolding set_entry
    written-IsLevelled = record {
      down = λ t i k q l e. d2.levelled.down t i k q l (
          ap (λ (w : ℕ). next w (disallowed_at k))
            (sym (set_entry_ne pt i1 value t i m3 (above t k l)))
          ∙ e);
      unused = d2.levelled.unused;
      allocator = d2.levelled.allocator;
    }

  -- When `map_4kb` succeeds in tables whose entries each lead one level down, for an aligned page
  -- and flags of the lowest twelve bits that have the page present, then the address translates to
  -- the page's address with the offset of the address, and the tables still lead one level down,
  -- whatever tables were added on the way.
  pub map_4kb-translate :
      (table : PageTable) (virt phys flags : ℕ) (level : ℕ → ℕ) (m m' : Memory A)
      → level (pml4_of table) ≡ 4
      → IsLevelled A is level m
      → phys % 4096 ≡ 0
      → phys < 2 ^ 52
      → flags < 2 ^ 12
      → flags % 2 ≡ 1
      → map_4kb A table virt phys flags m ≡ (some tt, m')
      → ((translate A table virt m').0 ≡ some (phys + virt % 4096))
        × ((level' : ℕ → ℕ) × (level' (pml4_of table) ≡ 4) × IsLevelled A is level' m')
  unfolding map_4kb
  map_4kb-translate table virt phys flags level m m' top v aligned small k odd e =
      let (i4, i3, i2, i1) = split_virt_addr virt in
      let f = table_flags-IsTableFlags virt in
      let (pdpt, m1, r4, e4) = went_down _ m' _ tt (allowed A table.readonly _ m m' tt e) in
      let (pd, m2, r3, e3) = went_down _ m' _ tt e4 in
      let (pt, m3, r2, e2) = went_down _ m' _ tt e3 in
      let d4 =
        get_table-Descends A is level (pml4_of table) i4 2 m (table_flags virt) top v f pdpt m1
          r4 in
      let d3 =
        get_table-Descends A is d4.level' pdpt i3 1 m1 (table_flags virt) d4.reached d4.levelled f
          pd m2 r3 in
      let d2 =
        get_table-Descends A is d3.level' pd i2 0 m2 (table_flags virt) d3.reached d3.levelled f pt
          m3 r2 in
      let value = bit_or (align_down phys page_size) flags in
      let m4 = set_entry A pt i1 value m3 in
      subst
        (λ (w : Memory A).
          ((translate A table virt w).0 ≡ some (phys + virt % 4096))
          × ((level' : ℕ → ℕ) × (level' (pml4_of table) ≡ 4) × IsLevelled A is level' w))
        (ap (λ r. r.1) e2)
        (
          translates table virt pdpt pd pt value m4
                (written-pml4 level (pml4_of table) i4 i3 i2 i1 pdpt pd pt value m m1 m2 m3 top d4
                  d3 d2)
                (written-pdpt level (pml4_of table) i4 i3 i2 i1 pdpt pd pt value m m1 m2 m3 top d4
                  d3 d2)
                (written-pd level (pml4_of table) i4 i3 i2 i1 pdpt pd pt value m m1 m2 m3 top d4 d3
                  d2)
                (set_entry_at pt i1 value m3)
              ∙ page_of-entry phys flags virt m4 aligned small k odd,
          (
            d2.level',
            top3 level (pml4_of table) i4 i3 i2 i1 pdpt pd pt value m m1 m2 m3 top d4 d3 d2,
            written-IsLevelled level (pml4_of table) i4 i3 i2 i1 pdpt pd pt value m m1 m2 m3 top d4
                d3 d2,
          ),
        )
