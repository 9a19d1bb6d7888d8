-- ===== src/Memory/Buddy/Pairs.antt =====
-- The two halves of a block: the address of the other half, and the search for it on a list.
use campix.Base.{
  ℕ, zero, suc, ◌+◌, ◌-◌, ◌*◌, ◌/◌, ◌%◌, ◌^◌, ◌≤◌, ◌≡◌, refl, sym, ap, ◌∙◌, Bool, true, false, xor,
  min, List, [], ◌∷◌, ltb, ◌==◌, ==_iff, Bool-cases, if◌then◌else◌, All, inl, inr, arith, subst,
  ◌⊎◌, bit_xor,
}
use campix.Base.Bits.{bit, bit-bit_xor, bit-zero, bit_xor_step, two_pow_suc}
use campix.Base.Words.{bit-shifted, eq_of_all_bits}
use campix.Memory.Buddy.{FreeBlock, find_buddy, remove_at}
use campix.Memory.Buddy.Cover.{
  span, inside, cover_list, Fits, IsBlock, inside-halves, Fits-merged, span_odd,
}

xor-false : (b : Bool) → xor b false ≡ b
unfolding xor
xor-false true = refl
xor-false false = refl

bit_xor-zero : (n : ℕ) → bit_xor n 0 ≡ n
bit_xor-zero n = eq_of_all_bits _ _ (λ i. bit-bit_xor n 0 i ∙ rw (bit-zero i) (xor-false (bit n i)))

bit_xor-shifted : (k a b : ℕ) → bit_xor (2 ^ k * a) (2 ^ k * b) ≡ 2 ^ k * bit_xor a b
bit_xor-shifted k a b = eq_of_all_bits _ _ (λ i.
    bit-bit_xor (2 ^ k * a) (2 ^ k * b) i
    ∙ rw (bit-shifted k a i, bit-shifted k b i, bit-shifted k (bit_xor a b) i) (go i (ltb i k)))
  where
    go :
        (i : ℕ) (c : Bool)
        → xor (if c then false else bit a (i - k)) (if c then false else bit b (i - k))
          ≡ (if c then false else bit (bit_xor a b) (i - k))
    go i true = xor-false false
    go i false = sym (bit-bit_xor a b (i - k))

bit_xor-even : (h : ℕ) → bit_xor (2 * h) 1 ≡ 2 * h + 1
bit_xor-even h =
    let half : 2 * h / 2 ≡ h = omega arith in
    let digit : 2 * h % 2 ≡ 0 = omega arith in
    bit_xor_step (2 * h) 1
    ∙ rw (half, digit) (ap (λ (t : ℕ). t * 2 + 1) (bit_xor-zero h) ∙ omega arith)

bit_xor-odd : (h : ℕ) → bit_xor (2 * h + 1) 1 ≡ 2 * h
bit_xor-odd h =
    let half : (2 * h + 1) / 2 ≡ h = omega arith in
    let digit : (2 * h + 1) % 2 ≡ 1 = omega arith in
    bit_xor_step (2 * h + 1) 1
    ∙ rw (half, digit) (ap (λ (t : ℕ). t * 2 + 0) (bit_xor-zero h) ∙ omega arith)

-- A number and the number whose lowest digit is the other one.
abbrev pub Paired : ℕ → Type 0
Paired q =
    (h : ℕ) × (((q ≡ 2 * h) × (bit_xor q 1 ≡ 2 * h + 1))
      ⊎ ((q ≡ 2 * h + 1) × (bit_xor q 1 ≡ 2 * h)))

pub paired : (q : ℕ) → Paired q
paired q = elim (Bool-cases (q % 2 == 0)) [
  | inl e ↦
      let even : q ≡ 2 * (q / 2) = ground (arith, e) in
      (q / 2, inl (even, ap (λ (t : ℕ). bit_xor t 1) even ∙ bit_xor-even (q / 2)))
  | inr e ↦
      let odd : q ≡ 2 * (q / 2) + 1 = ground (arith, e) in
      (q / 2, inr (odd, ap (λ (t : ℕ). bit_xor t 1) odd ∙ bit_xor-odd (q / 2)))
]

span-two_pow : (order : ℕ) → span order ≡ 2 ^ (12 + order)
span-two_pow zero = refl
span-two_pow (suc order) =
    let next : 2 ^ (12 + suc order) ≡ 2 ^ suc (12 + order) = ap (λ (k : ℕ). 2 ^ k) (omega arith) in
    omega (arith, next, two_pow_suc order, two_pow_suc (12 + order), span-two_pow order)

pub find_buddy-eq : (order q : ℕ) → find_buddy (span order * q) order ≡ span order * bit_xor q 1
unfolding find_buddy
find_buddy-eq order q =
    ap (λ (s : ℕ). bit_xor (s * q) s) (span-two_pow order)
    ∙ ap (λ (s : ℕ). bit_xor (2 ^ (12 + order) * q) s) (omega arith)
    ∙ bit_xor-shifted (12 + order) q 1
    ∙ ap (λ (s : ℕ). s * bit_xor q 1) (sym (span-two_pow order))

abbrev pub Removes : ℕ → ℕ → ℕ → ℕ → List FreeBlock → Bool × List FreeBlock → Type 0
Removes base limit order addr blocks (true, rest) =
    Fits base limit order addr
    × All (IsBlock base limit order) rest
    × ((p : ℕ) → cover_list rest p + inside addr order p ≡ cover_list blocks p)
Removes base limit order addr blocks (false, rest) = rest ≡ blocks

kept_head :
    (base limit order addr : ℕ) (b : FreeBlock) (blocks : List FreeBlock)
    (r : Bool × List FreeBlock)
    → IsBlock base limit order b
    → Removes base limit order addr blocks r
    → Removes base limit order addr (b ∷ blocks) (r.0, b ∷ r.1)
kept_head base limit order addr b blocks (true, rest) v (f, all, covers) =
    (f, (v, all), λ p. omega (arith, covers p))
kept_head base limit order addr b blocks (false, rest) v e = ap (λ (bs : List FreeBlock). b ∷ bs) e

taken_head :
    (base limit order addr : ℕ) (b : FreeBlock) (rest : List FreeBlock) (c : Bool)
    → (r : Bool × List FreeBlock) → (b.address == addr) ≡ c
    → All (IsBlock base limit order) (b ∷ rest)
    → Removes base limit order addr rest r
    → Removes base limit order addr (b ∷ rest) (if c then (true, rest) else (r.0, b ∷ r.1))
taken_head base limit order addr b rest true r e v h =
    let at : b.address ≡ addr = (==_iff b.address addr).0 e in
    (
      subst (Fits base limit order) at v.0.1,
      v.1,
      λ p.
          omega
            (arith, ap (λ (k : ℕ). inside k b.order p) at, ap (λ (o : ℕ). inside addr o p) v.0.0),
    )
taken_head base limit order addr b rest false r e v h =
    kept_head base limit order addr b rest r v.0 h

pub remove_at-Removes :
    (base limit order addr : ℕ) (blocks : List FreeBlock)
    → All (IsBlock base limit order) blocks
    → Removes base limit order addr blocks (remove_at addr blocks)
remove_at-Removes base limit order addr [] v = refl
remove_at-Removes base limit order addr (b ∷ rest) v =
    taken_head base limit order addr b rest (b.address == addr) (remove_at addr rest) refl v
      (remove_at-Removes base limit order addr rest v.1)

-- A block and its buddy make up the block they merge to.
abbrev pub Merges : ℕ → ℕ → ℕ → ℕ → ℕ → Type 0
Merges base limit order addr buddy =
    Fits base limit (suc order) (min addr buddy)
    × ((p : ℕ) → inside (min addr buddy) (suc order) p ≡ inside addr order p + inside buddy order p)

-- The lower half comes first, or the upper half does.
pub halves-Merge :
    (base limit order low high h : ℕ)
    → low ≡ base + span order * (2 * h)
    → high ≡ low + span order
    → high + span order ≤ limit
    → Merges base limit order low high × Merges base limit order high low
halves-Merge base limit order low high h place next fits = (
  (
    subst (Fits base limit (suc order)) (sym first) whole,
    λ p. omega (
      arith,
      covers p,
      ap (λ (k : ℕ). inside k (suc order) p) first,
      ap (λ (k : ℕ). inside k order p) next,
    ),
  ),
  (
    subst (Fits base limit (suc order)) (sym second) whole,
    λ p. omega (
      arith,
      covers p,
      ap (λ (k : ℕ). inside k (suc order) p) second,
      ap (λ (k : ℕ). inside k order p) next,
    ),
  ),
)
  where
    first : min low high ≡ low
    first = omega (arith, next)

    second : min high low ≡ low
    second = omega (arith, next)

    whole : Fits base limit (suc order) low
    whole =
        subst (Fits base limit (suc order)) (sym place)
          (Fits-merged base limit order h (omega (arith, place, next, span_odd order h)))

    covers :
        (p : ℕ) → inside low (suc order) p ≡ inside low order p + inside (low + span order) order p
    covers p = inside-halves low order p
