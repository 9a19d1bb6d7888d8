-- ===== src/Ext2/Backups/Powers.antt =====
-- The loops on the powers of a number: that they end, and find just the powers.
use campix.Base.{
  ℕ, zero, suc, ◌+◌, ◌*◌, ◌^◌, ◌≤◌, ◌<◌, ◌≡◌, ◌↔◌, ◌⊎◌, inl, inr, refl, sym, ap, subst, ◌∙◌, Bool,
  true, false, ◌||◌, List, [], ◌∷◌, ltb, ltb→lt, ltb_false→le, le→ltb_false, ◌==◌, ==_iff,
  Bool-cases, Run, ok, ◌>>=◌, arith,
}
use native.Mathlib.Nat.{one-le-pow, pow-zero, pow-suc, pow-le-pow_right, mul-le-mul_left}
use campix.Ext2.Backups.{is_pow_loop, is_pow, push_powers}

-- Whether a number is in a list.
abbrev pub among : ℕ → List ℕ → Bool
among x [] = false
among x (y ∷ ys) = (y == x) || among x ys

-- A power of `b`, at least the one of `j`.
abbrev pub IsPower : (b j a : ℕ) → Type 0
IsPower b j a = (k : ℕ) × (j ≤ k) × (a ≡ b ^ k)

power_le : (b j k : ℕ) → 2 ≤ b → j ≤ k → b ^ j ≤ b ^ k
power_le b j k two h = let pos : 0 < b = omega (arith, two) in pow-le-pow_right pos h

-- Either the power of `j` itself, or one of the later ones.
IsPower-split : (b j a : ℕ) → 2 ≤ b → IsPower b j a ↔ ((a ≡ b ^ j) ⊎ IsPower b (suc j) a)
IsPower-split b j a two = (
  λ (k, h, e). elim (Bool-cases (j == k)) [
    | inl c ↦ inl (e ∙ ap (λ (i : ℕ). b ^ i) (sym ((==_iff j k).0 c)))
    | inr c ↦ inr (k, ground (arith, h, c), e)
  ],
  λ o. elim o [ inl e ↦ (j, omega arith, e) | inr (k, h, e) ↦ (k, omega (arith, h), e) ],
)

-- What is less than the power is no later one.
not_IsPower : (b j a : ℕ) → 2 ≤ b → a < b ^ j → ¬ IsPower b j a
not_IsPower b j a two less (k, h, e) =
    let le : b ^ j ≤ b ^ k = power_le b j k two h in omega (arith, le, less, e)

abbrev pub Decides : Type 0 → Run Bool → Type 0
Decides P r = (b : Bool) × (r ≡ ok b) × ((b ≡ true) ↔ P)

next_power : (b j : ℕ) → 2 ≤ b → b ^ j < b ^ suc j
next_power b j two =
    let pos : 1 ≤ b ^ j = one-le-pow j b (omega (arith, two)) in
    let step : b ^ suc j ≡ b ^ j * b = pow-suc b j in
    let twice : b ^ j * 2 ≤ b ^ j * b = mul-le-mul_left (b ^ j) two in
    omega (arith, pos, step, twice)

-- One of the later powers decides on all of them, for a number that is not this one.
Decides-later :
    (b j a : ℕ) (r : Run Bool)
    → 2 ≤ b
    → b ^ j < a
    → Decides (IsPower b (suc j) a) r
    → Decides (IsPower b j a) r
Decides-later b j a r two less (x, e, (there, back)) = (
  x,
  e,
  (
    λ t. (IsPower-split b j a two).1 (inr (there t)),
    λ p. elim ((IsPower-split b j a two).0 p) [
      | inl same ↦ absurd (omega (arith, same, less))
      | inr later ↦ back later
    ],
  ),
)

-- The loop stops at the first power that is not less than the number.
stop-Decides :
    (fuel j a b : ℕ)
    → 2 ≤ b
    → a ≤ b ^ j
    → Decides (IsPower b j a) (is_pow_loop (suc fuel) a (b ^ j) b)
stop-Decides fuel j a b two all =
    let more : a < b ^ suc j = omega (arith, all, next_power b j two) in
    rw (le→ltb_false (b ^ j) a all) (
      b ^ j == a,
      refl,
      (
        λ t. (j, omega arith, sym ((==_iff (b ^ j) a).0 t)),
        λ p. elim ((IsPower-split b j a two).0 p) [
          | inl same ↦ (==_iff (b ^ j) a).1 (sym same)
          | inr later ↦ absurd (not_IsPower b (suc j) a two more later)
        ],
      ),
    )

is_pow_loop-Decides :
    (fuel j a b : ℕ)
    → 2 ≤ b
    → a < 2 ^ 32
    → a ≤ b ^ (j + fuel)
    → Decides (IsPower b j a) (is_pow_loop (suc fuel) a (b ^ j) b)
is_pow_loop-Decides zero j a b two small enough =
    stop-Decides zero j a b two (subst (λ (i : ℕ). a ≤ b ^ i) (omega arith) enough)
is_pow_loop-Decides (suc fuel) j a b two small enough = elim (Bool-cases (ltb (b ^ j) a)) [
  | inl c ↦
      let less : b ^ j < a = ltb→lt (b ^ j) a c in
      elim (Bool-cases (ltb (b ^ j * b) (2 ^ 32))) [
        | inl d ↦
            let rest =
              is_pow_loop-Decides fuel (suc j) a b two small
                (subst (λ (i : ℕ). a ≤ b ^ i) (omega arith) enough) in
            Decides-later b j a _ two less (
              rw (c, d)
                (subst (λ (num : ℕ). Decides (IsPower b (suc j) a) (is_pow_loop (suc fuel) a num b))
                  (pow-suc b j) rest))
        | inr d ↦
            let more : a < b ^ suc j =
              omega (arith, small, ltb_false→le (b ^ j * b) (2 ^ 32) d, pow-suc b j) in
            Decides-later b j a _ two less (
              rw (c, d)
                (
                  false,
                  refl,
                  (λ t. absurd (ground arith), λ p. absurd (not_IsPower b (suc j) a two more p)),
                ))
      ]
  | inr c ↦ stop-Decides (suc fuel) j a b two (ltb_false→le (b ^ j) a c)
]

-- `is_pow` decides whether a number is a power of `b` other than the first.
pub is_pow-Decides :
    (a b : ℕ) → 2 ≤ b → a < 2 ^ 32 → 2 ^ 32 ≤ b ^ 33 → Decides (IsPower b 1 a) (is_pow a b)
unfolding is_pow
is_pow-Decides a b two small enough =
    subst (λ (num : ℕ). Decides (IsPower b 1 a) (is_pow_loop 33 a num b)) (pow_one b)
      (is_pow_loop-Decides 32 1 a b two small (omega (arith, small, enough)))
  where
    pow_one : (b : ℕ) → b ^ 1 ≡ b
    pow_one b = pow-suc b 0 ∙ ap (λ (z : ℕ). z * b) (pow-zero b) ∙ omega arith

-- A list of the numbers that are later powers and at most `count`.
abbrev pub Lists : (b j count : ℕ) → Run (List ℕ) → Type 0
Lists b j count r =
    (xs : List ℕ) × (r ≡ ok xs) × ((g : ℕ) → (among g xs ≡ true) ↔ (IsPower b j g × (g ≤ count)))

nothing-Lists : (b j count : ℕ) → 2 ≤ b → count < b ^ j → Lists b j count (ok [])
nothing-Lists b j count two h = (
  [],
  refl,
  λ g. (
    λ t. absurd (ground arith),
    λ (p, le). absurd (not_IsPower b j g two (omega (arith, le, h)) p),
  ),
)

-- A power, before the later ones.
first-Lists :
    (b j count : ℕ) (r : Run (List ℕ))
    → 2 ≤ b
    → b ^ j ≤ count
    → Lists b (suc j) count r
    → Lists b j count (r >>= λ xs. ok (b ^ j ∷ xs))
first-Lists b j count r two le (xs, e, members) = (
  b ^ j ∷ xs,
  rw e refl,
  λ g. elim (Bool-cases (b ^ j == g)) [
    | inl c ↦
        let same : b ^ j ≡ g = (==_iff (b ^ j) g).0 c in
        (λ t. ((j, omega arith, sym same), omega (arith, le, same)), λ p. rw c refl)
    | inr c ↦ (
      λ t. let (p, l) = (members g).0 (rw c at t) in ((IsPower-split b j g two).1 (inr p), l),
      λ (p, l). elim ((IsPower-split b j g two).0 p) [
        | inl same ↦ absurd (ground (arith, same, c))
        | inr later ↦ rw c ((members g).1 (later, l))
      ],
    )
  ],
)

pub push_powers-Lists :
    (fuel j b count : ℕ)
    → 2 ≤ b
    → count < 2 ^ 32
    → 2 ^ 32 ≤ b ^ (suc j + fuel)
    → Lists b (suc j) count (push_powers (suc fuel) b (b ^ j) count)
push_powers-Lists zero j b count two small enough =
    let end : 2 ^ 32 ≤ b ^ suc j = subst (λ (i : ℕ). 2 ^ 32 ≤ b ^ i) (omega arith) enough in
    rw (le→ltb_false (b ^ j * b) (2 ^ 32) (omega (arith, end, pow-suc b j)))
      (nothing-Lists b (suc j) count two (omega (arith, small, end)))
push_powers-Lists (suc fuel) j b count two small enough =
    elim (Bool-cases (ltb (b ^ j * b) (2 ^ 32))) [
      | inr c ↦ rw c (
          nothing-Lists b (suc j) count two
            (omega (arith, small, pow-suc b j, ltb_false→le (b ^ j * b) (2 ^ 32) c)))
      | inl c ↦ elim (Bool-cases (ltb count (b ^ j * b))) [
        | inl d ↦
            rw (c, d)
              (nothing-Lists b (suc j) count two
                (omega (arith, pow-suc b j, ltb→lt count (b ^ j * b) d)))
        | inr d ↦
            rw (c, d)
              (subst
                (λ (v : ℕ).
                  Lists b (suc j) count (push_powers (suc fuel) b v count >>= λ xs. ok (v ∷ xs)))
                (pow-suc b j)
                (first-Lists b (suc j) count (push_powers (suc fuel) b (b ^ suc j) count) two
                  (omega (arith, pow-suc b j, ltb_false→le count (b ^ j * b) d))
                  (push_powers-Lists fuel (suc j) b count two small
                    (subst (λ (i : ℕ). 2 ^ 32 ≤ b ^ i) (omega arith) enough))))
      ]
    ]
