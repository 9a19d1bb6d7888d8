-- ===== src/Memory/Buddy/Order.antt =====
-- `required_order`: its loop ends, at the least order whose block holds the pages asked for.
use campix.Base.{
  ℕ, zero, suc, ◌+◌, ◌*◌, ◌%◌, ◌^◌, ◌≤◌, ◌<◌, ◌≡◌, refl, Option, some, ltb, ltb→lt, ltb_false→le,
  ◌==◌, ==_iff, Bool-cases, inl, inr, arith, subst, sym, ap,
}
use campix.Base.Bits.{two_pow_suc, two_pow_lt}
use campix.Memory.Buddy.{doublings, required_order}

abbrev pub IsLeastOrder : ℕ → ℕ → Type 0
IsLeastOrder num_pages order = (num_pages ≤ 2 ^ order) × ((o : ℕ) → num_pages ≤ 2 ^ o → order ≤ o)

abbrev Found : ℕ → Option ℕ → Type 0
Found num_pages r = (order : ℕ) × (r ≡ some order) × IsLeastOrder num_pages order

least : (order o : ℕ) → ((j : ℕ) → j < order → 2 ^ j < 2 ^ o) → order ≤ o
least order o h = elim (Bool-cases (ltb o order)) [
  | inl e ↦ absurd (omega (arith, h o (ltb→lt o order e)))
  | inr e ↦ ltb_false→le o order e
]

below_63 : (order n : ℕ) → order ≤ 63 → n ≤ 2 ^ 63 → 2 ^ order < n → order < 63
below_63 order n k h l = elim (Bool-cases (ltb order 63)) [
  | inl e ↦ ltb→lt order 63 e
  | inr e ↦
      let top : order ≡ 63 = omega (arith, ltb_false→le order 63 e) in
      let full : 2 ^ order ≡ 2 ^ 63 = ap (λ (o : ℕ). 2 ^ o) top in absurd (omega (arith, full))
]

doubled : (order : ℕ) → order < 63 → 2 ^ (order + 1) ≡ 2 ^ order * 2 % 2 ^ 64
doubled order h =
    let next : 2 ^ (order + 1) ≡ 2 ^ suc order = ap (λ (o : ℕ). 2 ^ o) (omega arith) in
    omega (arith, next, two_pow_suc order, two_pow_lt (suc order) 64 (omega arith))

one_more :
    (order n : ℕ)
    → ((j : ℕ) → j < order → 2 ^ j < n)
    → 2 ^ order < n
    → (j : ℕ) → j < order + 1
    → 2 ^ j < n
one_more order n before h j l = elim (Bool-cases (j == order)) [
  | inl e ↦ subst (λ o. 2 ^ o < n) (sym ((==_iff j order).0 e)) h
  | inr e ↦ before j (ground (arith, e))
]

doublings-Found :
    (fuel num_pages order : ℕ)
    → num_pages ≤ 2 ^ 63
    → order ≤ 63
    → order + fuel ≡ 65
    → ((j : ℕ) → j < order → 2 ^ j < num_pages)
    → Found num_pages (doublings fuel num_pages order (2 ^ order))
doublings-Found zero n order h k f before = absurd (omega arith)
doublings-Found (suc fuel) n order h k f before = elim (Bool-cases (ltb (2 ^ order) n)) [
  | inl e ↦
      let more : 2 ^ order < n = ltb→lt (2 ^ order) n e in
      let small : order < 63 = below_63 order n k h more in
      rw e (
        subst (λ t. Found n (doublings fuel n (order + 1) t)) (doubled order small)
          (doublings-Found fuel n (order + 1) h (omega arith) (omega arith)
            (one_more order n before more)))
  | inr e ↦
      let enough = ltb_false→le (2 ^ order) n e in
      rw e (order, refl, (enough, λ o m. least order o (λ j l. omega (arith, before j l))))
]

-- Up to 2 ^ 63 pages, the loop of `required_order` ends within its 65 rounds of fuel, with an order
-- whose block holds the pages, and no lesser order has one.
pub required_order-IsLeastOrder :
    (num_pages : ℕ)
    → num_pages ≤ 2 ^ 63
    → (order : ℕ) × (required_order num_pages ≡ some order) × IsLeastOrder num_pages order
unfolding required_order
required_order-IsLeastOrder n h =
    doublings-Found 65 n 0 h (omega arith) (omega arith) (λ j l. absurd (omega arith))
