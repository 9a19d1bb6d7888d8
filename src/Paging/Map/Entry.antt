-- ===== src/Paging/Map/Entry.antt =====
-- The entry that names a new table: its flags, and that it leads to the table.
use campix.Base.{
  ℕ, zero, suc, ◌+◌, ◌-◌, ◌*◌, ◌%◌, ◌^◌, ◌<◌, ◌≡◌, ◌⊎◌, inl, inr, refl, sym, ap, ◌∙◌, Bool, true,
  false, not, ◌==◌, leb, if◌then◌else◌, bit_and, bit_or, arith, subst,
}
use campix.Base.Bits.{bit, bit_and-two_pow}
use campix.Base.Words.{bit_or-append, bit_and-low_mask, bit_and-high_mask}
use campix.Paging.{page_present, page_huge}
use campix.Process.AddressSpace.{direct_mapping_offset}
use campix.Paging.Tables.{physical_to_virtual, entry_page, has_flag, table_flags}

-- The address of a page in the direct mapping.
abbrev pub IsPage : ℕ → Type 0
IsPage page = (n : ℕ) × (page ≡ direct_mapping_offset + 2 ^ 12 * n) × (page < 2 ^ 64)

abbrev pub IsTableFlags : ℕ → Type 0
IsTableFlags flags = (flags ≡ 35) ⊎ (flags ≡ 39)

-- The flags that a walk refuses in the entries of a table of level `k + 2`.
abbrev pub disallowed_at : ℕ → ℕ
disallowed_at zero = page_huge
disallowed_at (suc k) = 0

pub table_flags-IsTableFlags : (virt : ℕ) → IsTableFlags (table_flags virt)
table_flags-IsTableFlags virt = go (leb 0xFFFF800000000000 virt)
  where
    go : (b : Bool) → IsTableFlags (if b then 35 else 39)
    go true = inl refl
    go false = inr refl

abbrev pub new_entry : ℕ → ℕ → ℕ
new_entry page flags = bit_or ((page + 2 ^ 64 - direct_mapping_offset) % 2 ^ 64) flags

has_flag-bit : (value k : ℕ) → has_flag value (2 ^ k) ≡ bit value k
has_flag-bit value k = ap not (bit_and-two_pow value k) ∙ twice (bit value k)
  where
    twice : (b : Bool) → not (not b) ≡ b
    twice true = refl
    twice false = refl

pub has_flag-zero : (value : ℕ) → has_flag value 0 ≡ false
has_flag-zero value =
    let e : bit_and value 0 ≡ 0 = bit_and-low_mask 0 value ∙ omega arith in
    ap (λ (n : ℕ). not (n == 0)) e

-- An entry of a page number and flags below a page's size.
pub entry_page-eq :
    (n flags : ℕ)
    → flags < 2 ^ 12
    → 2 ^ 12 * n < 2 ^ 52
    → entry_page (flags + 2 ^ 12 * n) ≡ 2 ^ 12 * n
entry_page-eq n flags h k =
    bit_and-high_mask 52 12 (flags + 2 ^ 12 * n) (omega arith) (omega arith) ∙ omega arith

pub has_present : (n flags : ℕ) → flags % 2 ≡ 1 → has_flag (flags + 2 ^ 12 * n) page_present ≡ true
has_present n flags h = has_flag-bit (flags + 2 ^ 12 * n) 0 ∙ ground arith

no_huge : (n flags : ℕ) → IsTableFlags flags → has_flag (flags + 2 ^ 12 * n) page_huge ≡ false
no_huge n flags (inl e) = has_flag-bit (flags + 2 ^ 12 * n) 7 ∙ ground arith
no_huge n flags (inr e) = has_flag-bit (flags + 2 ^ 12 * n) 7 ∙ ground arith

allowed :
    (k n flags : ℕ) → IsTableFlags flags → has_flag (flags + 2 ^ 12 * n) (disallowed_at k) ≡ false
allowed zero n flags h = no_huge n flags h
allowed (suc k) n flags h = has_flag-zero (flags + 2 ^ 12 * n)

-- The new entry is present, is not refused, and names the page.
abbrev pub Leads : ℕ → ℕ → ℕ → Type 0
Leads value disallowed page =
    (has_flag value page_present ≡ true)
    × (has_flag value disallowed ≡ false)
    × (physical_to_virtual (entry_page value) ≡ page)

pub new_entry-Leads :
    (k page flags : ℕ)
    → IsPage page
    → IsTableFlags flags
    → Leads (new_entry page flags) (disallowed_at k) page
new_entry-Leads k page flags (n, place, h) f =
    subst (λ v. Leads v (disallowed_at k) page) (sym value)
      (
        has_present n flags odd,
        allowed k n flags f,
        ap physical_to_virtual (entry_page-eq n flags small (omega arith)) ∙ omega arith,
      )
  where
    bounds : IsTableFlags flags → (flags < 2 ^ 12) × (flags % 2 ≡ 1)
    bounds (inl e) = (omega arith, omega arith)
    bounds (inr e) = (omega arith, omega arith)

    small : flags < 2 ^ 12
    small = (bounds f).0

    odd : flags % 2 ≡ 1
    odd = (bounds f).1

    value : new_entry page flags ≡ flags + 2 ^ 12 * n
    value =
        ap (λ (a : ℕ). bit_or a flags)
          (let e : (page + 2 ^ 64 - direct_mapping_offset) % 2 ^ 64 ≡ 2 ^ 12 * n = omega arith in e)
        ∙ bit_or-append 12 flags n small
