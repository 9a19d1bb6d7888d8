-- ===== src/Paging/Address.antt =====
-- That an address and its parts determine each other.
use campix.Base.{
  ℕ, ◌+◌, ◌-◌, ◌*◌, ◌/◌, ◌%◌, ◌^◌, ◌≤◌, ◌<◌, ◌≡◌, ◌↔◌, ◌⊎◌, inl, inr, refl, sym, ap, ◌∙◌, Bool,
  true, false, ◌||◌, not, ◌==◌, if◌then◌else◌, bit_and, bit_or, arith, ltb, lt→ltb, le→ltb_false,
}
use campix.Base.Bits.{bit, bit-zero, bit-bit_or, bit_and-two_pow}
use campix.Base.Words.{bit_or-append, bit_and-low_mask, bit-split, eq_of_all_bits, or_false}
use campix.Paging.{split_virt_addr, join_parts, extend_sign, join_virt_addr}

bit_or-zero : (n : ℕ) → bit_or 0 n ≡ n
bit_or-zero n = eq_of_all_bits _ _ (λ i. bit-bit_or 0 n i ∙ rw (bit-zero i) refl)

or_comm : (a b : Bool) → (a || b) ≡ (b || a)
or_comm true true = refl
or_comm true false = refl
or_comm false b = sym (or_false b)

bit_or_comm : (m n : ℕ) → bit_or m n ≡ bit_or n m
bit_or_comm m n =
    eq_of_all_bits _ _
      (λ i. bit-bit_or m n i ∙ or_comm (bit m i) (bit n i) ∙ sym (bit-bit_or n m i))

-- The sum that the parts make up.
abbrev pub joined : ℕ → ℕ → ℕ → ℕ → ℕ → ℕ
joined pml4 pdpt pd pt offset =
    offset % 2 ^ 12 + 2 ^ 12 * (pt + 512 * (pd + 512 * (pdpt + 512 * pml4)))

-- A part below those that are joined already.
append :
    (k part acc : ℕ) → part < 2 ^ k → (n : ℕ) → n ≡ 2 ^ k * acc → bit_or n part ≡ part + 2 ^ k * acc
append k part acc h n e = ap (λ (m : ℕ). bit_or m part) e ∙ bit_or-append k part acc h

join_parts-eq :
    (pml4 pdpt pd pt offset : ℕ)
    → pml4 < 512
    → pdpt < 512
    → pd < 512
    → pt < 512
    → join_parts pml4 pdpt pd pt offset ≡ joined pml4 pdpt pd pt offset
unfolding join_parts
join_parts-eq pml4 pdpt pd pt offset h4 h3 h2 h1 =
    append 12 _ (pt + 512 * (pd + 512 * (pdpt + 512 * pml4))) (omega (arith, masked)) _ (
      append 21 _ (pd + 512 * (pdpt + 512 * pml4)) (omega arith) _ (
        append 30 _ (pdpt + 512 * pml4) (omega arith) _ (
          append 39 _ pml4 (omega arith) _ (bit_or-zero (pml4 * 2 ^ 39 % 2 ^ 64) ∙ omega arith)
          ∙ omega arith)
        ∙ omega arith)
      ∙ omega arith)
    ∙ omega (arith, masked)
  where
    masked : bit_and offset 0xFFF ≡ offset % 2 ^ 12
    masked = bit_and-low_mask 12 offset

extend_sign-eq :
    (n : ℕ) → n < 2 ^ 48 → extend_sign n ≡ (if ltb n (2 ^ 47) then n else n + 0xFFFF000000000000)
unfolding extend_sign
extend_sign-eq n h =
    ap (λ (b : Bool). if b then n else bit_or n 0xFFFF000000000000) test
    ∙ ap (λ (m : ℕ). if ltb n (2 ^ 47) then n else m) extended
  where
    digit : bit n 47 ≡ not (ltb n (2 ^ 47))
    digit = bit-split 47 n 47 ∙ ground arith

    twice : (b : Bool) → not (not b) ≡ b
    twice true = refl
    twice false = refl

    test : (bit_and n (2 ^ 47) == 0) ≡ ltb n (2 ^ 47)
    test = bit_and-two_pow n 47 ∙ ap not digit ∙ twice (ltb n (2 ^ 47))

    extended : bit_or n 0xFFFF000000000000 ≡ n + 0xFFFF000000000000
    extended = bit_or_comm n 0xFFFF000000000000 ∙ bit_or-append 48 n 65535 h

-- The two halves of the address space.
abbrev pub IsCanonical : ℕ → Type 0
IsCanonical virt = (virt < 2 ^ 47) ⊎ ((2 ^ 64 - 2 ^ 47 ≤ virt) × (virt < 2 ^ 64))

part-eq : (k virt : ℕ) → bit_and (virt / 2 ^ k) 0x1FF ≡ virt / 2 ^ k % 512
part-eq k virt = bit_and-low_mask 9 (virt / 2 ^ k)

split_virt_addr-eq :
    (virt : ℕ)
    → split_virt_addr virt
      ≡ (virt / 2 ^ 39 % 512, virt / 2 ^ 30 % 512, virt / 2 ^ 21 % 512, virt / 2 ^ 12 % 512)
unfolding split_virt_addr
split_virt_addr-eq virt =
    rw (part-eq 39 virt, part-eq 30 virt, part-eq 21 virt, part-eq 12 virt) refl

join_virt_addr-eq :
    (pml4 pdpt pd pt offset : ℕ)
    → pml4 < 512
    → pdpt < 512
    → pd < 512
    → pt < 512
    → join_virt_addr pml4 pdpt pd pt offset ≡ (
        if ltb (joined pml4 pdpt pd pt offset) (2 ^ 47)
        then joined pml4 pdpt pd pt offset
        else joined pml4 pdpt pd pt offset + 0xFFFF000000000000)
unfolding join_virt_addr
join_virt_addr-eq pml4 pdpt pd pt offset h4 h3 h2 h1 =
    ap extend_sign (join_parts-eq pml4 pdpt pd pt offset h4 h3 h2 h1)
    ∙ extend_sign-eq (joined pml4 pdpt pd pt offset) (omega arith)

pair4 :
    {a b c d a' b' c' d' : ℕ}
    → a ≡ a'
    → b ≡ b'
    → c ≡ c'
    → d ≡ d'
    → ◌≡◌ {A = ℕ × ℕ × ℕ × ℕ} (a, b, c, d) (a', b', c', d')
pair4 e f g h = λ i. (e i, f i, g i, h i)

module _ (pml4 pdpt pd pt offset virt : ℕ) (h4 : pml4 < 512) (h3 : pdpt < 512) (h2 : pd < 512)
    (h1 : pt < 512) (h : offset < 4096) where
  parts-joined :
      (top : ℕ)
      → virt ≡ joined pml4 pdpt pd pt offset + 2 ^ 48 * top
      → (split_virt_addr virt ≡ (pml4, pdpt, pd, pt)) × (virt % 4096 ≡ offset)
  parts-joined top e = (
    split_virt_addr-eq virt ∙ pair4 (omega arith) (omega arith) (omega arith) (omega arith),
    omega arith,
  )

  split-joined :
      (b : Bool)
      → (if b
          then joined pml4 pdpt pd pt offset
          else joined pml4 pdpt pd pt offset + 0xFFFF000000000000)
        ≡ virt
      → (split_virt_addr virt ≡ (pml4, pdpt, pd, pt)) × (virt % 4096 ≡ offset)
  split-joined true e = parts-joined 0 (omega (arith, e))
  split-joined false e = parts-joined 65535 (omega (arith, e))

  joined-split :
      split_virt_addr virt ≡ (pml4, pdpt, pd, pt)
      → virt % 4096 ≡ offset
      → joined pml4 pdpt pd pt offset ≡ virt % 2 ^ 48
  joined-split e o =
      let parts = sym (split_virt_addr-eq virt) ∙ e in
      omega (
        arith,
        o,
        ap (λ (t : ℕ × ℕ × ℕ × ℕ). t.0) parts,
        ap (λ (t : ℕ × ℕ × ℕ × ℕ). t.1) parts,
        ap (λ (t : ℕ × ℕ × ℕ × ℕ). t.2) parts,
        ap (λ (t : ℕ × ℕ × ℕ × ℕ). t.3) parts,
      )

extended :
    (virt : ℕ)
    → IsCanonical virt
    → (if ltb (virt % 2 ^ 48) (2 ^ 47) then virt % 2 ^ 48 else virt % 2 ^ 48 + 0xFFFF000000000000)
      ≡ virt
extended virt (inl h) =
    let low : virt % 2 ^ 48 ≡ virt = omega arith in rw (low, lt→ltb virt (2 ^ 47) h) refl
extended virt (inr (h, k)) =
    let high : 2 ^ 47 ≤ virt % 2 ^ 48 = omega arith in
    rw (le→ltb_false (virt % 2 ^ 48) (2 ^ 47) high) (omega arith)

-- Indices below 512 and an offset below 4096 join to a canonical address just when they are its
-- parts.
pub join_virt_addr_iff :
    (pml4 pdpt pd pt offset virt : ℕ)
    → pml4 < 512
    → pdpt < 512
    → pd < 512
    → pt < 512
    → offset < 4096
    → IsCanonical virt
    → (join_virt_addr pml4 pdpt pd pt offset ≡ virt)
      ↔ ((split_virt_addr virt ≡ (pml4, pdpt, pd, pt)) × (virt % 4096 ≡ offset))
join_virt_addr_iff pml4 pdpt pd pt offset virt h4 h3 h2 h1 h c = (
  λ e.
      split-joined pml4 pdpt pd pt offset virt h4 h3 h2 h1 h
        (ltb (joined pml4 pdpt pd pt offset) (2 ^ 47))
        (sym (join_virt_addr-eq pml4 pdpt pd pt offset h4 h3 h2 h1) ∙ e),
  λ (e, o).
      join_virt_addr-eq pml4 pdpt pd pt offset h4 h3 h2 h1
      ∙ ap (λ (n : ℕ). if ltb n (2 ^ 47) then n else n + 0xFFFF000000000000)
          (joined-split pml4 pdpt pd pt offset virt h4 h3 h2 h1 h e o)
      ∙ extended virt c,
)
