-- ===== src/Process/Scheduler/Keys.antt =====
-- The maps of src/process/scheduler.rs: how `insert`, `remove` and `get` act together, and how many
-- different keys a map can have.
use campix.Base.{
  ℕ, zero, suc, ◌≤◌, ◌<◌, ◌≡◌, ◌≢◌, inl, inr, refl, sym, ap, ◌∙◌, true, false, ◌||◌, Option, none,
  some, List, [], ◌∷◌, ◌==◌, ==_iff, ==_refl, ne→==_false, Bool-cases, if◌then◌else◌, length, arith,
}
use campix.Process.Scheduler.{get, remove, insert, contains_key}

module _ {A : Type 0} where
  length-remove : (k : ℕ) (m : List (ℕ × A)) → length (remove k m) ≤ length m
  length-remove k [] = omega arith
  length-remove k ((i, a) ∷ m) =
      let rest : length (remove k m) ≤ length m = length-remove k m in
      elim (Bool-cases (i == k)) [
        | inl e ↦ rw e (omega (arith, rest))
        | inr e ↦ rw e (omega (arith, rest))
      ]

  length-remove_used :
      (k : ℕ) (m : List (ℕ × A)) → contains_key k m ≡ true → suc (length (remove k m)) ≤ length m
  length-remove_used k [] h = absurd (ground arith)
  length-remove_used k ((i, a) ∷ m) h = elim (Bool-cases (i == k)) [
    | inl e ↦
        let rest : length (remove k m) ≤ length m = length-remove k m in rw e (omega (arith, rest))
    | inr e ↦
        let rest : suc (length (remove k m)) ≤ length m = length-remove_used k m (rw e at h) in
        rw e (omega (arith, rest))
  ]

  contains_key-remove_ne :
      (i k : ℕ) (m : List (ℕ × A)) → i ≢ k → contains_key i (remove k m) ≡ contains_key i m
  contains_key-remove_ne i k [] h = refl
  contains_key-remove_ne i k ((j, a) ∷ m) h = elim (Bool-cases (j == k)) [
    | inl e ↦
        rw (e, ne→==_false j i λ p. h (sym p ∙ (==_iff j k).0 e)) (contains_key-remove_ne i k m h)
    | inr e ↦ rw e (ap (λ b. (j == i) || b) (contains_key-remove_ne i k m h))
  ]

  -- As many different keys as `n` need a map of that size.
  pub different_keys :
      (n : ℕ) (f : ℕ → ℕ) (m : List (ℕ × A))
      → ((i j : ℕ) → i < j → j < n → f i ≢ f j)
      → ((j : ℕ) → j < n → contains_key (f j) m ≡ true)
      → n ≤ length m
  different_keys zero f m inj used = omega arith
  different_keys (suc n) f m inj used =
      let less = length-remove_used (f n) m (used n (omega arith)) in
      let rest =
        different_keys n f (remove (f n) m) (λ i j h k. inj i j h (omega arith))
          (λ j h.
            contains_key-remove_ne (f j) (f n) m (inj j n h (omega arith))
            ∙ used j (omega arith)) in
      omega (arith, less, rest)

  pub get-remove_self : (k : ℕ) (m : List (ℕ × A)) → get k (remove k m) ≡ none
  get-remove_self k [] = refl
  get-remove_self k ((i, a) ∷ m) = elim (Bool-cases (i == k)) [
    | inl e ↦ rw e (get-remove_self k m)
    | inr e ↦ rw e (rw e (get-remove_self k m))
  ]

  pub get-remove_ne : (i k : ℕ) (m : List (ℕ × A)) → i ≢ k → get i (remove k m) ≡ get i m
  get-remove_ne i k [] h = refl
  get-remove_ne i k ((j, a) ∷ m) h = elim (Bool-cases (j == k)) [
    | inl e ↦ rw (e, ne→==_false j i λ p. h (sym p ∙ (==_iff j k).0 e)) (get-remove_ne i k m h)
    | inr e ↦ rw e (ap (λ (r : Option A). if j == i then some a else r) (get-remove_ne i k m h))
  ]

  pub get-remove-some :
      (i k : ℕ) (m : List (ℕ × A)) (a : A)
      → get i (remove k m) ≡ some a
      → (i ≢ k) × (get i m ≡ some a)
  get-remove-some i k m a e =
      let apart : i ≢ k = λ p.
        let clash : none ≡ some a =
          sym (get-remove_self k m) ∙ ap (λ (j : ℕ). get j (remove k m)) (sym p) ∙ e in
        ground arith in
      (apart, sym (get-remove_ne i k m apart) ∙ e)

  pub get-insert_self : (k : ℕ) (a : A) (m : List (ℕ × A)) → get k (insert k a m) ≡ some a
  get-insert_self k a m = rw (==_refl k) refl

  pub get-insert_ne : (i k : ℕ) (a : A) (m : List (ℕ × A)) → i ≢ k → get i (insert k a m) ≡ get i m
  get-insert_ne i k a m h = rw (ne→==_false k i λ p. h (sym p)) (get-remove_ne i k m h)

  pub get-none_of_contains_key :
      (k : ℕ) (m : List (ℕ × A)) → contains_key k m ≡ false → get k m ≡ none
  get-none_of_contains_key k [] h = refl
  get-none_of_contains_key k ((i, a) ∷ m) h = elim (Bool-cases (i == k)) [
    | inl e ↦ absurd (ground (arith, rw e at h))
    | inr e ↦ rw e (get-none_of_contains_key k m (rw e at h))
  ]
