-- ===== src/Keyboard/Held.antt =====
-- Lists of keys that are held down, and the modifiers they have between them.
use campix.Base.{
  ℕ, ◌^◌, ◌≡◌, ◌<◌, ◌≤◌, inl, inr, refl, sym, ap, ◌∙◌, Bool, true, false, ◌&&◌, ◌||◌, not, Option,
  none, some, List, [], ◌∷◌, ◌++◌, ◌==◌, ==_iff, Bool-cases, if◌then◌else◌, arith,
}
use campix.Base.Bits.{bit, bit-two_pow, bit-zero, bit_above}
use mathlib.Core.Option.{some-injective}
use campix.Keyboard.{
  Key, escape, left_control, left_shift, left_alt, right_shift, right_control, right_alt, same_key,
  Key-discrete, modifier_bit, modifiers, contains, remove_key,
}

-- The key whose modifier has this place.
abbrev owner : ℕ → Option Key
owner b =
    if b == 0
    then some left_shift
    else if b == 1
    then some left_control
    else if b == 2
    then some left_alt
    else if b == 7
    then some right_shift
    else if b == 8
    then some right_control
    else if b == 9
    then some right_alt
    else none

abbrev Owns : Key → Option ℕ → Type 0
Owns k none = Unit
Owns k (some b) = owner b ≡ some k

modifier_bit-Owns : (k : Key) → Owns k (modifier_bit k)
modifier_bit-Owns k = elim k as (λ k. Owns k (modifier_bit k)) [
  | left_control ↦ refl
  | left_shift ↦ refl
  | right_shift ↦ refl
  | left_alt ↦ refl
  | right_control ↦ refl
  | right_alt ↦ refl
  | _ ↦ tt
]

-- A modifier belongs to one key.
owner-modifiers : (k : Key) (i : ℕ) → bit (modifiers k) i ≡ true → owner i ≡ some k
owner-modifiers k i = by_bit (modifier_bit k) (modifier_bit-Owns k)
  where
    by_bit :
        (r : Option ℕ)
        → Owns k r
        → bit (elim r [ some b ↦ 2 ^ b | none ↦ 0 ]) i ≡ true
        → owner i ≡ some k
    by_bit none owns e = let clash : false ≡ true = sym (bit-zero i) ∙ e in absurd (ground arith)
    by_bit (some b) owns e =
        let same : b ≡ i = (==_iff b i).0 (sym (bit-two_pow b i) ∙ e) in ap owner (sym same) ∙ owns

one_owner : (k l : Key) (i : ℕ) → bit (modifiers k) i ≡ true → bit (modifiers l) i ≡ true → k ≡ l
one_owner k l i e f = some-injective k l (sym (owner-modifiers k i e) ∙ owner-modifiers l i f)

pub modifiers-lt : (k : Key) → modifiers k < 2 ^ 16
modifiers-lt k = elim k as (λ k. modifiers k < 2 ^ 16) [ escape ↦ omega arith | _ ↦ omega arith ]

pub same_key-eq : (k l : Key) → same_key k l ≡ true → k ≡ l
unfolding same_key
same_key-eq k l e = by_decision (Key-discrete k l) e
  where
    by_decision : (d : Dec (k ≡ l)) → (elim d [ yes _ ↦ true | no _ ↦ false ]) ≡ true → k ≡ l
    by_decision (yes p) e = p
    by_decision (no n) e = absurd (ground arith)

pub same_key_refl : (k : Key) → same_key k k ≡ true
unfolding same_key
same_key_refl k = by_decision (Key-discrete k k)
  where
    by_decision : (d : Dec (k ≡ k)) → (elim d [ yes _ ↦ true | no _ ↦ false ]) ≡ true
    by_decision (yes p) = refl
    by_decision (no n) = absurd (n refl)

same_key_comm : (k l : Key) → same_key k l ≡ same_key l k
same_key_comm k l = elim (Bool-cases (same_key k l)) [
  | inl c ↦
      let same = same_key-eq k l c in
      ap (λ (m : Key). same_key m l) same ∙ ap (same_key l) (sym same)
  | inr c ↦ elim (Bool-cases (same_key l k)) [
    | inl d ↦
        let same = same_key-eq l k d in
        ap (λ (m : Key). same_key k m) same ∙ ap (λ (m : Key). same_key m k) (sym same)
    | inr d ↦ c ∙ sym d
  ]
]

-- Whether one of the keys has the modifier of this place.
abbrev pub has : ℕ → List Key → Bool
has i [] = false
has i (k ∷ ks) = bit (modifiers k) i || has i ks

-- No key is there twice.
abbrev pub Distinct : List Key → Type 0
Distinct [] = Unit
Distinct (k ∷ ks) = (contains ks k ≡ false) × Distinct ks

pub has-append :
    (i : ℕ) (ks : List Key) (k : Key) → has i (ks ++ k ∷ []) ≡ (has i ks || bit (modifiers k) i)
has-append i [] k = ground arith
has-append i (l ∷ ks) k = rw (has-append i ks k) (ground arith)

pub has-contains :
    (i : ℕ) (ks : List Key) (k : Key)
    → contains ks k ≡ true
    → (has i ks || bit (modifiers k) i) ≡ has i ks
has-contains i [] k e = absurd (ground arith)
has-contains i (l ∷ ks) k e = elim (Bool-cases (same_key l k)) [
  | inl c ↦ rw (same_key-eq l k c) (ground arith)
  | inr c ↦ let rest = has-contains i ks k (rw c at e) in ground (arith, rest)
]

-- Another key does not have the modifier.
other_bit :
    (i : ℕ) (l k : Key)
    → same_key l k ≡ false
    → bit (modifiers k) i ≡ true
    → bit (modifiers l) i ≡ false
other_bit i l k e b = elim (Bool-cases (bit (modifiers l) i)) [
  | inl c ↦
      let same : true ≡ false = sym (same_key_refl l) ∙ ap (same_key l) (one_owner l k i c b) ∙ e in
      absurd (ground arith)
  | inr c ↦ c
]

has-none :
    (i : ℕ) (ks : List Key) (k : Key)
    → contains ks k ≡ false
    → bit (modifiers k) i ≡ true
    → has i ks ≡ false
has-none i [] k e b = refl
has-none i (l ∷ ks) k e b =
    let apart : same_key l k ≡ false = ground (arith, e) in
    let absent : contains ks k ≡ false = ground (arith, e) in
    rw (other_bit i l k apart b) (has-none i ks k absent b)

pub has-remove_key :
    (i : ℕ) (ks : List Key) (k : Key)
    → Distinct ks
    → has i (remove_key ks k) ≡ (has i ks && not (bit (modifiers k) i))
has-remove_key i [] k d = refl
has-remove_key i (l ∷ ks) k (absent, d) = elim (Bool-cases (same_key l k)) [
  | inl c ↦
      let same = same_key-eq l k c in
      let here : contains ks k ≡ false = ap (contains ks) (sym same) ∙ absent in
      rw (c, same)
        (elim (Bool-cases (bit (modifiers k) i)) [
          | inl b ↦ rw b (has-none i ks k here b)
          | inr b ↦ rw b (ground arith)
        ])
  | inr c ↦
      let rest = has-remove_key i ks k d in
      elim (Bool-cases (bit (modifiers k) i)) [
        | inl b ↦ let other = other_bit i l k c b in rw (c, other) rest
        | inr b ↦ rw c (ground (arith, rest, b))
      ]
]

pub has_above : (i : ℕ) (ks : List Key) → 16 ≤ i → has i ks ≡ false
has_above i [] h = refl
has_above i (k ∷ ks) h = rw (bit_above 16 (modifiers k) i (modifiers-lt k) h) (has_above i ks h)

pub contains-append :
    (ks : List Key) (k l : Key) → contains (ks ++ k ∷ []) l ≡ (contains ks l || same_key k l)
contains-append [] k l = ground arith
contains-append (m ∷ ks) k l = rw (contains-append ks k l) (ground arith)

-- Taking a key out leaves the others as they are.
pub contains-remove_key :
    (ks : List Key) (k l : Key)
    → same_key k l ≡ false
    → contains (remove_key ks k) l ≡ contains ks l
contains-remove_key [] k l e = refl
contains-remove_key (m ∷ ks) k l e = elim (Bool-cases (same_key m k)) [
  | inl c ↦
      let apart : same_key m l ≡ false = ap (λ (n : Key). same_key n l) (same_key-eq m k c) ∙ e in
      rw (c, apart) refl
  | inr c ↦ rw c (ap (λ (b : Bool). same_key m l || b) (contains-remove_key ks k l e))
]

pub contains-remove_key_self :
    (ks : List Key) (k : Key) → Distinct ks → contains (remove_key ks k) k ≡ false
contains-remove_key_self [] k d = refl
contains-remove_key_self (m ∷ ks) k (absent, d) = elim (Bool-cases (same_key m k)) [
  | inl c ↦ rw c (ap (contains ks) (sym (same_key-eq m k c)) ∙ absent)
  | inr c ↦ rw c (rw c (contains-remove_key_self ks k d))
]

pub Distinct-append :
    (ks : List Key) (k : Key) → Distinct ks → contains ks k ≡ false → Distinct (ks ++ k ∷ [])
Distinct-append [] k d e = (refl, tt)
Distinct-append (m ∷ ks) k (absent, d) e =
    let apart : same_key m k ≡ false = ground (arith, e) in
    let others : contains ks k ≡ false = ground (arith, e) in
    (contains-append ks k m ∙ rw absent (same_key_comm k m ∙ apart), Distinct-append ks k d others)

pub Distinct-remove_key : (ks : List Key) (k : Key) → Distinct ks → Distinct (remove_key ks k)
Distinct-remove_key [] k d = tt
Distinct-remove_key (m ∷ ks) k (absent, d) = elim (Bool-cases (same_key m k)) [
  | inl c ↦ rw c d
  | inr c ↦
      let apart : same_key k m ≡ false = same_key_comm k m ∙ c in
      rw c (contains-remove_key ks k m apart ∙ absent, Distinct-remove_key ks k d)
]
