-- ===== src/Base/Bits.antt =====
-- Binary digits of native numbers. `bit n i` is digit `i` of `n`; the bitwise operations act on
-- each digit alone, and two numbers with the same digits are one number.
use Prim.Native.Nat.{
  ℕ, zero, suc, ◌+◌, ◌-◌, ◌*◌, ◌/◌, ◌%◌, ◌^◌, ◌≤◌, ◌<◌, min, max, differ, digits, bitwise, bit_and,
  bit_or, bit_xor, bit_and-bitwise, bit_or-bitwise, bit_xor-bitwise,
}
use mathlib.Core.Path.{◌≡◌, refl, sym, ap, ◌∙◌}
use mathlib.Core.Logic.{inl, inr}
use mathlib.Core.Bool.{Bool, true, false, ◌&&◌, ◌||◌, not, xor}
use native.Mathlib.Omega.{arith}
use native.Mathlib.Nat.{pow-suc, one-le-pow, pow-le-pow_right}
use campix.Base.Tests.{◌==◌, ltb, if◌then◌else◌, ==_iff, ==_refl, ne→==_false, Bool-cases}

abbrev pub bit : ℕ → ℕ → Bool
bit n zero = n % 2 == 1
bit n (suc i) = bit (n / 2) i

-- More fuel than the number itself changes no digit.
module _ (z : ℕ → ℕ) (f : ℕ → ℕ → ℕ) where
  digits-fuel : (n k a b : ℕ) → a ≤ n → a ≤ k → digits z f n a b ≡ digits z f k a b
  digits-fuel zero zero zero b h g = refl
  digits-fuel zero (suc k) zero b h g = refl
  digits-fuel (suc n) zero zero b h g = refl
  digits-fuel (suc n) (suc k) zero b h g = refl
  digits-fuel zero k (suc a) b h g = absurd (omega arith)
  digits-fuel (suc n) zero (suc a) b h g = absurd (omega arith)
  digits-fuel (suc n) (suc k) (suc a) b h g =
      omega (arith, digits-fuel n k (suc a / 2) (b / 2) (omega arith) (omega arith))

  bitwise_step :
      (a b : ℕ)
      → (z b ≡ z (b / 2) * 2 + f 0 (b % 2))
      → bitwise z f a b ≡ bitwise z f (a / 2) (b / 2) * 2 + f (a % 2) (b % 2)
  bitwise_step zero b h = h
  bitwise_step (suc a) b h =
      omega (arith, digits-fuel a (suc a / 2) (suc a / 2) (b / 2) (omega arith) (omega arith))

pub bit_and_step : (a b : ℕ) → bit_and a b ≡ bit_and (a / 2) (b / 2) * 2 + min (a % 2) (b % 2)
bit_and_step a b = simp bit_and-bitwise (bitwise_step (λ y. 0) min a b (omega arith))

pub bit_or_step : (a b : ℕ) → bit_or a b ≡ bit_or (a / 2) (b / 2) * 2 + max (a % 2) (b % 2)
bit_or_step a b = simp bit_or-bitwise (bitwise_step (λ y. y) max a b (omega arith))

differ-lt : (x y : ℕ) → x < 2 → y < 2 → differ x y < 2
differ-lt zero y h k = k
differ-lt (suc zero) zero h k = h
differ-lt (suc zero) (suc zero) h k = omega arith
differ-lt (suc zero) (suc (suc y)) h k = absurd (omega arith)
differ-lt (suc (suc x)) y h k = absurd (omega arith)

pub bit_xor_step : (a b : ℕ) → bit_xor a b ≡ bit_xor (a / 2) (b / 2) * 2 + differ (a % 2) (b % 2)
bit_xor_step a b = simp bit_xor-bitwise (bitwise_step (λ y. y) differ a b (omega arith))

-- The digits of a sum of a digit and a double.
half_step : (q d : ℕ) → d < 2 → (q * 2 + d) / 2 ≡ q
half_step q d h = omega arith

min_digit : (x y : ℕ) → x < 2 → y < 2 → (min x y == 1) ≡ ((x == 1) && (y == 1))
min_digit x y h k = ground arith

max_digit : (x y : ℕ) → x < 2 → y < 2 → (max x y == 1) ≡ ((x == 1) || (y == 1))
max_digit x y h k = ground arith

differ_digit : (x y : ℕ) → x < 2 → y < 2 → (differ x y == 1) ≡ xor (x == 1) (y == 1)
unfolding xor
differ_digit zero zero h k = refl
differ_digit zero (suc zero) h k = refl
differ_digit zero (suc (suc y)) h k = absurd (omega arith)
differ_digit (suc zero) zero h k = refl
differ_digit (suc zero) (suc zero) h k = refl
differ_digit (suc zero) (suc (suc y)) h k = absurd (omega arith)
differ_digit (suc (suc x)) y h k = absurd (omega arith)

and_true : (b : Bool) → (b && true) ≡ b
and_true true = refl
and_true false = refl

and_false : (b : Bool) → (b && false) ≡ false
and_false true = refl
and_false false = refl

-- One rule for the three operations: digitwise at the lowest digit and on the halves, so at all.
module _ (op : ℕ → ℕ → ℕ) (f : ℕ → ℕ → ℕ) (g : Bool → Bool → Bool)
    (f_lt : (x y : ℕ) → x < 2 → y < 2 → f x y < 2)
    (f_digit : (x y : ℕ) → x < 2 → y < 2 → (f x y == 1) ≡ g (x == 1) (y == 1))
    (step : (a b : ℕ) → op a b ≡ op (a / 2) (b / 2) * 2 + f (a % 2) (b % 2)) where
  bit-op : (a b i : ℕ) → bit (op a b) i ≡ g (bit a i) (bit b i)
  bit-op a b zero =
      ap (λ (t : ℕ). t == 1) lowest ∙ f_digit (a % 2) (b % 2) (omega arith) (omega arith)
    where
      lowest : op a b % 2 ≡ f (a % 2) (b % 2)
      lowest = omega (arith, step a b, f_lt (a % 2) (b % 2) (omega arith) (omega arith))
  bit-op a b (suc i) = ap (λ (t : ℕ). bit t i) halved ∙ bit-op (a / 2) (b / 2) i
    where
      halved : op a b / 2 ≡ op (a / 2) (b / 2)
      halved = omega (arith, step a b, f_lt (a % 2) (b % 2) (omega arith) (omega arith))

pub bit-bit_and : (a b i : ℕ) → bit (bit_and a b) i ≡ (bit a i && bit b i)
bit-bit_and = bit-op bit_and min ◌&&◌ (λ x y h k. omega arith) min_digit bit_and_step

pub bit-bit_or : (a b i : ℕ) → bit (bit_or a b) i ≡ (bit a i || bit b i)
bit-bit_or = bit-op bit_or max ◌||◌ (λ x y h k. omega arith) max_digit bit_or_step

pub bit-bit_xor : (a b i : ℕ) → bit (bit_xor a b) i ≡ xor (bit a i) (bit b i)
bit-bit_xor = bit-op bit_xor differ xor differ-lt differ_digit bit_xor_step

pub bit-zero : (i : ℕ) → bit 0 i ≡ false
bit-zero zero = refl
bit-zero (suc i) = bit-zero i

pub two_pow_suc : (k : ℕ) → 2 ^ suc k ≡ 2 ^ k * 2
two_pow_suc k = pow-suc 2 k

pub two_pow_pos : (k : ℕ) → 1 ≤ 2 ^ k
two_pow_pos k = one-le-pow k 2 (omega arith)

-- A number below `2 ^ w` has no digit from `w` on.
pub bit_above : (w n i : ℕ) → n < 2 ^ w → w ≤ i → bit n i ≡ false
bit_above zero n i h k = let e : n ≡ 0 = omega arith in ap (λ (t : ℕ). bit t i) e ∙ bit-zero i
bit_above (suc w) n zero h k = absurd (omega arith)
bit_above (suc w) n (suc i) h k = bit_above w (n / 2) i (omega (arith, two_pow_suc w)) (omega arith)

-- The digits of a power of two.
pub bit-two_pow : (k i : ℕ) → bit (2 ^ k) i ≡ (k == i)
bit-two_pow zero zero = refl
bit-two_pow zero (suc i) = bit-zero i ∙ ground arith
bit-two_pow (suc k) zero = ground (arith, two_pow_suc k)
bit-two_pow (suc k) (suc i) =
    ap (λ (t : ℕ). bit t i) (omega (arith, two_pow_suc k)) ∙ bit-two_pow k i ∙ ground arith

-- Numbers below `2 ^ w` with the same `w` lowest digits are the same.
pub eq_of_bits : (w a b : ℕ) → a < 2 ^ w → b < 2 ^ w → ((i : ℕ) → i < w → bit a i ≡ bit b i) → a ≡ b
eq_of_bits zero a b h k e = omega arith
eq_of_bits (suc w) a b h k e = ground (
  arith,
  e 0 (omega arith),
  eq_of_bits w (a / 2) (b / 2) (omega (arith, two_pow_suc w)) (omega (arith, two_pow_suc w))
      (λ i l. e (suc i) (omega arith)),
)

-- The complement of a `w`-bit number, `!n`.
abbrev pub bit_not : ℕ → ℕ → ℕ
bit_not w n = 2 ^ w - 1 - n

pub bit-bit_not : (w n i : ℕ) → n < 2 ^ w → bit (bit_not w n) i ≡ (ltb i w && not (bit n i))
bit-bit_not zero n i h = ap (λ (t : ℕ). bit t i) (omega arith) ∙ bit-zero i ∙ ground arith
bit-bit_not (suc w) n zero h = ground (arith, two_pow_suc w, two_pow_pos w)
bit-bit_not (suc w) n (suc i) h =
    ap (λ (t : ℕ). bit t i) (omega (arith, two_pow_suc w))
    ∙ bit-bit_not w (n / 2) i (omega (arith, two_pow_suc w))
    ∙ ground arith

pub lt_two_pow : (n : ℕ) → n < 2 ^ n
lt_two_pow zero = omega arith
lt_two_pow (suc n) = omega (arith, lt_two_pow n, two_pow_suc n)

-- A number with no digit set is zero.
pub zero_of_bits : (n : ℕ) → ((i : ℕ) → bit n i ≡ false) → n ≡ 0
zero_of_bits n e = eq_of_bits n n 0 (lt_two_pow n) (two_pow_pos n) (λ i l. e i ∙ sym (bit-zero i))

-- The digits of `n & (1 << k)`: digit `k` of `n`, alone.
pub bit-and_two_pow : (n k i : ℕ) → bit (bit_and n (2 ^ k)) i ≡ ((k == i) && bit n k)
bit-and_two_pow n k i = elim (Bool-cases (k == i)) [
  | inl e ↦
      let e' : k ≡ i = (==_iff k i).0 e in
      bit-bit_and n (2 ^ k) i ∙ rw (bit-two_pow k i, e, e') (and_true (bit n i))
  | inr e ↦ bit-bit_and n (2 ^ k) i ∙ rw (bit-two_pow k i, e) (and_false (bit n i))
]

-- `n & (1 << k)` is zero exactly when digit `k` of `n` is not set.
pub bit_and-two_pow : (n k : ℕ) → (bit_and n (2 ^ k) == 0) ≡ not (bit n k)
bit_and-two_pow n k = elim (Bool-cases (bit n k)) [
  | inl e ↦ rw e (
      ne→==_false _ 0
        (λ z. cc (bit-and_two_pow n k k, ap (λ (t : ℕ). bit t k) z, bit-zero k, e, ==_refl k)))
  | inr e ↦
      rw (
        e,
        zero_of_bits (bit_and n (2 ^ k)) (λ i. bit-and_two_pow n k i ∙ rw e (and_false (k == i))),
      )
]

double : (k q : ℕ) → 2 ^ suc k * q ≡ 2 ^ k * q * 2
double k q = rw two_pow_suc (grind arith)

-- A number whose digits are `b` below place `k` and `q` from there on.
pub bit-append :
    (k b q i : ℕ) → b < 2 ^ k → bit (b + 2 ^ k * q) i ≡ (if ltb i k then bit b i else bit q (i - k))
bit-append zero b q i h =
    let e : b + 2 ^ 0 * q ≡ q = omega arith in ap (λ (t : ℕ). bit t i) e ∙ ground arith
bit-append (suc k) b q zero h = ground (arith, two_pow_suc k, double k q)
bit-append (suc k) b q (suc i) h =
    let e : (b + 2 ^ suc k * q) / 2 ≡ b / 2 + 2 ^ k * q =
      omega (arith, two_pow_suc k, double k q) in
    ap (λ (t : ℕ). bit t i) e
    ∙ bit-append k (b / 2) q i (omega (arith, two_pow_suc k))
    ∙ ground arith

pub lt_of_bits : (w n : ℕ) → ((i : ℕ) → w ≤ i → bit n i ≡ false) → n < 2 ^ w
lt_of_bits zero n h = let e : n ≡ 0 = zero_of_bits n (λ i. h i (omega arith)) in omega arith
lt_of_bits (suc w) n h =
    omega (arith, two_pow_suc w, lt_of_bits w (n / 2) (λ i l. h (suc i) (omega arith)))

pub two_pow_lt : (k w : ℕ) → k < w → 2 ^ k < 2 ^ w
two_pow_lt k w h = omega (
  arith,
  two_pow_suc k,
  two_pow_pos k,
  pow-le-pow_right {n = 2} (omega arith) {i = suc k} {j = w} h,
)
