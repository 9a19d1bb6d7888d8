-- ===== src/Data/Bitmap/Bytes.antt =====
-- The changes that the bitmap makes to one byte.
use campix.Base.{
  ℕ, ◌^◌, ◌≤◌, ◌<◌, bit_and, bit_or, bit_xor, ◌≡◌, refl, ◌∙◌, inl, inr, Bool, true, false, ◌&&◌,
  ◌||◌, not, xor, arith, ltb, ◌==◌, if◌then◌else◌, Bool-cases,
}
use campix.Base.Bits.{
  bit, bit_not, bit-bit_and, bit-bit_or, bit-bit_xor, bit-bit_not, bit-two_pow, lt_of_bits,
  two_pow_lt, bit_above,
}

abbrev pub IsByte : ℕ → Type 0
IsByte n = n < 256

-- The three changes of a byte that the bitmap makes, digit by digit.
set_byte : (x k j : ℕ) → bit (bit_or x (2 ^ k)) j ≡ (if k == j then true else bit x j)
set_byte x k j = rw (bit-bit_or, bit-two_pow) (pick (bit x j) (k == j))
  where
    pick : (a b : Bool) → (a || b) ≡ (if b then true else a)
    pick true true = refl
    pick true false = refl
    pick false true = refl
    pick false false = refl

clear_byte :
    (x k j : ℕ)
    → k < 8
    → bit (bit_and x (bit_not 8 (2 ^ k))) j ≡ (if k == j then false else bit x j && ltb j 8)
clear_byte x k j h =
    rw (bit-bit_and, bit-bit_not 8 (2 ^ k) j (two_pow_lt k 8 h), bit-two_pow)
      (pick (bit x j) (ltb j 8) (k == j))
  where
    pick : (a l b : Bool) → (a && (l && not b)) ≡ (if b then false else a && l)
    pick true true true = refl
    pick true true false = refl
    pick true false true = refl
    pick true false false = refl
    pick false l true = refl
    pick false l false = refl

pub toggle_byte :
    (x k j : ℕ) → bit (bit_xor x (2 ^ k)) j ≡ (if k == j then not (bit x j) else bit x j)
unfolding xor
toggle_byte x k j = rw (bit-bit_xor, bit-two_pow) (pick (bit x j) (k == j))
  where
    pick : (a b : Bool) → xor a b ≡ (if b then not a else a)
    pick true true = refl
    pick true false = refl
    pick false true = refl
    pick false false = refl

IsByte-of_bits : (x : ℕ) → ((i : ℕ) → 8 ≤ i → bit x i ≡ false) → IsByte x
IsByte-of_bits x h = lt_of_bits 8 x h

-- A byte has no digit from the eighth on, nor has one changed at a lower digit.
above : (x i : ℕ) → IsByte x → 8 ≤ i → bit x i ≡ false
above x i h l = bit_above 8 x i h l

abbrev pub written : Bool → ℕ → ℕ → ℕ
written enabled byte mask = if enabled then bit_or byte mask else bit_and byte (bit_not 8 mask)

pub bit-written :
    (enabled : Bool) (x k j : ℕ)
    → IsByte x
    → k < 8
    → bit (written enabled x (2 ^ k)) j ≡ (if k == j then enabled else bit x j)
bit-written true x k j h g = set_byte x k j
bit-written false x k j h g = elim (Bool-cases (ltb j 8)) [
  | inl e ↦ clear_byte x k j g ∙ rw e (ground arith)
  | inr e ↦ clear_byte x k j g ∙ rw e (ground (arith, above x j h))
]

pub written-IsByte :
    (enabled : Bool) (x k : ℕ) → IsByte x → k < 8 → IsByte (written enabled x (2 ^ k))
written-IsByte enabled x k h g =
    IsByte-of_bits (written enabled x (2 ^ k))
      λ i l. ground (arith, bit-written enabled x k i h g, above x i h l)

pub toggled-IsByte : (x k : ℕ) → IsByte x → k < 8 → IsByte (bit_xor x (2 ^ k))
toggled-IsByte x k h g =
    IsByte-of_bits (bit_xor x (2 ^ k)) λ i l. ground (arith, toggle_byte x k i, above x i h l)
