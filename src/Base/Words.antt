-- ===== src/Base/Words.antt =====
-- The bitwise operations of machine words as arithmetic: a mask is a remainder, an alignment drops a
-- remainder, a disjunction of parts that share no digit is a sum.
use Prim.Native.Nat.{ℕ, ◌+◌, ◌-◌, ◌*◌, ◌/◌, ◌%◌, ◌^◌, ◌≤◌, ◌<◌, bit_and, bit_or}
use mathlib.Core.Path.{◌≡◌, refl, sym, ap, ◌∙◌}
use mathlib.Core.Logic.{◌⊎◌, inl, inr}
use mathlib.Core.Bool.{Bool, true, false, ◌&&◌, ◌||◌, not}
use native.Mathlib.Omega.{arith}
use native.Mathlib.Nat.{div-add-mod, mod-lt, pow-le-pow_right}
use campix.Base.Tests.{ltb, if◌then◌else◌, ltb_false→le, Bool-cases}
use campix.Base.Bits.{
  bit, bit_not, bit-zero, bit-bit_and, bit-bit_or, bit-bit_not, bit_above, bit-append, eq_of_bits,
  lt_two_pow, two_pow_pos,
}

pub and_true : (b : Bool) → (b && true) ≡ b
and_true true = refl
and_true false = refl

pub and_false : (b : Bool) → (b && false) ≡ false
and_false true = refl
and_false false = refl

pub or_false : (b : Bool) → (b || false) ≡ b
or_false true = refl
or_false false = refl

pub eq_of_all_bits : (a b : ℕ) → ((i : ℕ) → bit a i ≡ bit b i) → a ≡ b
eq_of_all_bits a b e =
    eq_of_bits (a + b) a b
      (omega (
        arith,
        lt_two_pow a,
        pow-le-pow_right {n = 2} (omega arith) {i = a} {j = a + b} (omega arith),
      ))
      (omega (
        arith,
        lt_two_pow b,
        pow-le-pow_right {n = 2} (omega arith) {i = b} {j = a + b} (omega arith),
      ))
      (λ i l. e i)

pub split_at : (k n : ℕ) → n ≡ n % 2 ^ k + 2 ^ k * (n / 2 ^ k)
split_at k n = omega (arith, div-add-mod n (2 ^ k))

pub mod-two_pow-lt : (k n : ℕ) → n % 2 ^ k < 2 ^ k
mod-two_pow-lt k n = mod-lt n (two_pow_pos k)

-- The digits of a remainder and of a quotient by a power of two.
pub bit-mod : (k n i : ℕ) → bit (n % 2 ^ k) i ≡ (ltb i k && bit n i)
bit-mod k n i = elim (Bool-cases (ltb i k)) [
  | inl e ↦ rw e (sym (digits ∙ rw e refl))
  | inr e ↦ rw e (bit_above k (n % 2 ^ k) i (mod-two_pow-lt k n) (ltb_false→le i k e))
]
  where
    digits : bit n i ≡ (if ltb i k then bit (n % 2 ^ k) i else bit (n / 2 ^ k) (i - k))
    digits =
        ap (λ (m : ℕ). bit m i) (split_at k n)
        ∙ bit-append k (n % 2 ^ k) (n / 2 ^ k) i (mod-two_pow-lt k n)

pub bit-split :
    (k n i : ℕ) → bit n i ≡ (if ltb i k then bit (n % 2 ^ k) i else bit (n / 2 ^ k) (i - k))
bit-split k n i =
    ap (λ (m : ℕ). bit m i) (split_at k n)
    ∙ bit-append k (n % 2 ^ k) (n / 2 ^ k) i (mod-two_pow-lt k n)

pub bit-low_mask : (k i : ℕ) → bit (2 ^ k - 1) i ≡ ltb i k
bit-low_mask k i =
    let e : 2 ^ k - 1 ≡ bit_not k 0 = omega arith in
    ap (λ (m : ℕ). bit m i) e
    ∙ bit-bit_not k 0 i (two_pow_pos k)
    ∙ ap (λ b. ltb i k && not b) (bit-zero i)
    ∙ and_true (ltb i k)

-- The digits of a number that ends in `k` zeros.
pub bit-shifted : (k q i : ℕ) → bit (2 ^ k * q) i ≡ (if ltb i k then false else bit q (i - k))
bit-shifted k q i =
    let e : 2 ^ k * q ≡ 0 + 2 ^ k * q = omega arith in
    ap (λ (m : ℕ). bit m i) e ∙ bit-append k 0 q i (two_pow_pos k) ∙ rw (bit-zero i) refl

and_comm : (a b : Bool) → (a && b) ≡ (b && a)
and_comm true b = sym (and_true b)
and_comm false b = sym (and_false b)

-- A mask of the lowest digits takes a remainder.
pub bit_and-low_mask : (k n : ℕ) → bit_and n (2 ^ k - 1) ≡ n % 2 ^ k
bit_and-low_mask k n = eq_of_all_bits _ _ (λ i.
    bit-bit_and n (2 ^ k - 1) i
    ∙ ap (λ b. bit n i && b) (bit-low_mask k i)
    ∙ and_comm (bit n i) (ltb i k)
    ∙ sym (bit-mod k n i))

-- The parts of a word share no digit: their disjunction is their sum.
pub bit_or-append : (k b q : ℕ) → b < 2 ^ k → bit_or (2 ^ k * q) b ≡ b + 2 ^ k * q
bit_or-append k b q h =
    eq_of_all_bits _ _ (λ i. bit-bit_or (2 ^ k * q) b i ∙ pick i (Bool-cases (ltb i k)))
  where
    pick :
        (i : ℕ)
        → (ltb i k ≡ true) ⊎ (ltb i k ≡ false)
        → (bit (2 ^ k * q) i || bit b i) ≡ bit (b + 2 ^ k * q) i
    pick i (inl e) = rw (bit-shifted k q i, bit-append k b q i h, e) refl
    pick i (inr e) =
        let above : bit b i ≡ false = bit_above k b i h (ltb_false→le i k e) in
        rw (bit-shifted k q i, bit-append k b q i h, above, e) (or_false (bit q (i - k)))

-- Clearing the lowest digits of a word takes the remainder off it.
pub bit_and-high_mask :
    (w k n : ℕ) → k ≤ w → n < 2 ^ w → bit_and n (bit_not w (2 ^ k - 1)) ≡ n - n % 2 ^ k
bit_and-high_mask w k n h l =
    eq_of_all_bits _ _
      (λ i. bit-bit_and n (bit_not w (2 ^ k - 1)) i ∙ pick i (Bool-cases (ltb i k)))
  where
    cut : n - n % 2 ^ k ≡ 2 ^ k * (n / 2 ^ k)
    cut = omega (arith, split_at k n)

    mask_lt : 2 ^ k - 1 < 2 ^ w
    mask_lt = omega (arith, two_pow_pos k, pow-le-pow_right {n = 2} (omega arith) {i = k} {j = w} h)

    rest : (i : ℕ) → bit (n - n % 2 ^ k) i ≡ (if ltb i k then false else bit (n / 2 ^ k) (i - k))
    rest i = ap (λ (m : ℕ). bit m i) cut ∙ bit-shifted k (n / 2 ^ k) i

    mask : (i : ℕ) → bit (bit_not w (2 ^ k - 1)) i ≡ (ltb i w && not (ltb i k))
    mask i = bit-bit_not w (2 ^ k - 1) i mask_lt ∙ ap (λ b. ltb i w && not b) (bit-low_mask k i)

    within : (i : ℕ) → (bit n i && (ltb i w && true)) ≡ bit n i
    within i = elim (Bool-cases (ltb i w)) [
      | inl e ↦ rw e (and_true (bit n i))
      | inr e ↦ rw (bit_above w n i l (ltb_false→le i w e)) refl
    ]

    pick :
        (i : ℕ)
        → (ltb i k ≡ true) ⊎ (ltb i k ≡ false)
        → (bit n i && bit (bit_not w (2 ^ k - 1)) i) ≡ bit (n - n % 2 ^ k) i
    pick i (inl e) =
        rw (rest i, mask i, e) (ap (λ b. bit n i && b) (and_false (ltb i w)) ∙ and_false (bit n i))
    pick i (inr e) = rw (rest i, mask i, e) (within i ∙ bit-split k n i ∙ rw e refl)
