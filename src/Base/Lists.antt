-- ===== src/Base/Lists.antt =====
-- Lists measured and indexed by native numbers, under the library's names.
use Prim.Native.Nat.{ℕ, zero, suc, ◌+◌, ◌-◌, ◌≤◌, ◌<◌, min}
use mathlib.Core.Path.{◌≡◌, refl, ap, ap₂, ◌∙◌}
use mathlib.Core.Logic.{◌≢◌, ◌⊎◌}
use mathlib.Core.List.{List, [], ◌∷◌, ◌++◌}
use mathlib.Core.Option.{Option, none, some}
use native.Mathlib.Omega.{arith}

module _ {ℓ} {A : Type ℓ} where
  abbrev pub length : List A → ℕ
  length [] = 0
  length (x ∷ xs) = suc (length xs)

  abbrev pub get_elem? : List A → ℕ → Option A
  get_elem? [] i = none
  get_elem? (x ∷ xs) zero = some x
  get_elem? (x ∷ xs) (suc i) = get_elem? xs i

  abbrev pub get_or : List A → ℕ → A → A
  get_or [] i d = d
  get_or (x ∷ xs) zero d = x
  get_or (x ∷ xs) (suc i) d = get_or xs i d

  -- A write out of bounds changes nothing.
  abbrev pub set : List A → ℕ → A → List A
  set [] i v = []
  set (x ∷ xs) zero v = v ∷ xs
  set (x ∷ xs) (suc i) v = x ∷ set xs i v

  abbrev pub take : ℕ → List A → List A
  take zero xs = []
  take (suc n) [] = []
  take (suc n) (x ∷ xs) = x ∷ take n xs

  abbrev pub drop : ℕ → List A → List A
  drop zero xs = xs
  drop (suc n) [] = []
  drop (suc n) (x ∷ xs) = drop n xs

  abbrev pub replicate : ℕ → A → List A
  replicate zero a = []
  replicate (suc n) a = a ∷ replicate n a

  pub length-append : (xs ys : List A) → length (xs ++ ys) ≡ length xs + length ys
  length-append [] ys = omega arith
  length-append (x ∷ xs) ys = omega (arith, length-append xs ys)

  pub length-set : (xs : List A) (i : ℕ) (v : A) → length (set xs i v) ≡ length xs
  length-set [] i v = refl
  length-set (x ∷ xs) zero v = refl
  length-set (x ∷ xs) (suc i) v = ap suc (length-set xs i v)

  pub length-replicate : (n : ℕ) (a : A) → length (replicate n a) ≡ n
  length-replicate zero a = refl
  length-replicate (suc n) a = ap suc (length-replicate n a)

  pub length-take : (n : ℕ) (xs : List A) → length (take n xs) ≡ min n (length xs)
  length-take zero xs = omega arith
  length-take (suc n) [] = omega arith
  length-take (suc n) (x ∷ xs) = omega (arith, length-take n xs)

  pub length-drop : (n : ℕ) (xs : List A) → length (drop n xs) ≡ length xs - n
  length-drop zero xs = omega arith
  length-drop (suc n) [] = omega arith
  length-drop (suc n) (x ∷ xs) = omega (arith, length-drop n xs)

  pub take-append-drop : (n : ℕ) (xs : List A) → take n xs ++ drop n xs ≡ xs
  take-append-drop zero xs = refl
  take-append-drop (suc n) [] = refl
  take-append-drop (suc n) (x ∷ xs) = ap (◌∷◌ x) (take-append-drop n xs)

  pub get_elem?-set_self :
      (xs : List A) (i : ℕ) (v : A) → i < length xs → get_elem? (set xs i v) i ≡ some v
  get_elem?-set_self [] i v h = absurd (omega arith)
  get_elem?-set_self (x ∷ xs) zero v h = refl
  get_elem?-set_self (x ∷ xs) (suc i) v h = get_elem?-set_self xs i v (omega arith)

  pub get_elem?-set_ne :
      (xs : List A) (i j : ℕ) (v : A) → i ≢ j → get_elem? (set xs i v) j ≡ get_elem? xs j
  get_elem?-set_ne [] i j v h = refl
  get_elem?-set_ne (x ∷ xs) zero zero v h = absurd (h refl)
  get_elem?-set_ne (x ∷ xs) zero (suc j) v h = refl
  get_elem?-set_ne (x ∷ xs) (suc i) zero v h = refl
  get_elem?-set_ne (x ∷ xs) (suc i) (suc j) v h = get_elem?-set_ne xs i j v (λ e. h (ap suc e))

  pub get_or-set_self :
      (xs : List A) (i : ℕ) (v d : A) → i < length xs → get_or (set xs i v) i d ≡ v
  get_or-set_self [] i v d h = absurd (omega arith)
  get_or-set_self (x ∷ xs) zero v d h = refl
  get_or-set_self (x ∷ xs) (suc i) v d h = get_or-set_self xs i v d (omega arith)

  pub get_or-set_ne :
      (xs : List A) (i j : ℕ) (v d : A) → i ≢ j → get_or (set xs i v) j d ≡ get_or xs j d
  get_or-set_ne [] i j v d h = refl
  get_or-set_ne (x ∷ xs) zero zero v d h = absurd (h refl)
  get_or-set_ne (x ∷ xs) zero (suc j) v d h = refl
  get_or-set_ne (x ∷ xs) (suc i) zero v d h = refl
  get_or-set_ne (x ∷ xs) (suc i) (suc j) v d h = get_or-set_ne xs i j v d (λ e. h (ap suc e))

  pub get_elem?-eq-get_or :
      (xs : List A) (i : ℕ) (d : A) → i < length xs → get_elem? xs i ≡ some (get_or xs i d)
  get_elem?-eq-get_or [] i d h = absurd (omega arith)
  get_elem?-eq-get_or (x ∷ xs) zero d h = refl
  get_elem?-eq-get_or (x ∷ xs) (suc i) d h = get_elem?-eq-get_or xs i d (omega arith)

  pub get_elem?-eq-none : (xs : List A) (i : ℕ) → length xs ≤ i → get_elem? xs i ≡ none
  get_elem?-eq-none [] i h = refl
  get_elem?-eq-none (x ∷ xs) zero h = absurd (omega arith)
  get_elem?-eq-none (x ∷ xs) (suc i) h = get_elem?-eq-none xs i (omega arith)

  pub get_or-replicate : (n i : ℕ) (d : A) → get_or (replicate n d) i d ≡ d
  get_or-replicate zero i d = refl
  get_or-replicate (suc n) zero d = refl
  get_or-replicate (suc n) (suc i) d = get_or-replicate n i d

  pub get_or-take :
      (n : ℕ) (xs : List A) (i : ℕ) (d : A) → i < n → get_or (take n xs) i d ≡ get_or xs i d
  get_or-take zero xs i d h = absurd (omega arith)
  get_or-take (suc n) [] i d h = refl
  get_or-take (suc n) (x ∷ xs) zero d h = refl
  get_or-take (suc n) (x ∷ xs) (suc i) d h = get_or-take n xs i d (omega arith)

  pub get_or-drop :
      (n : ℕ) (xs : List A) (i : ℕ) (d : A) → get_or (drop n xs) i d ≡ get_or xs (n + i) d
  get_or-drop zero xs i d = let e : 0 + i ≡ i = omega arith in rw e
  get_or-drop (suc n) [] i d = refl
  get_or-drop (suc n) (x ∷ xs) i d =
      let e : suc n + i ≡ suc (n + i) = omega arith in get_or-drop n xs i d ∙ rw e

  -- Two lists of one length that agree on a range have the same range.
  pub range_ext :
      (d : A) (o n : ℕ) (xs ys : List A)
      → length xs ≡ length ys
      → ((j : ℕ) → o ≤ j → j < o + n → get_or xs j d ≡ get_or ys j d)
      → take n (drop o xs) ≡ take n (drop o ys)
  range_ext d o n [] [] e h = refl
  range_ext d o n [] (y ∷ ys) e h = absurd (omega arith)
  range_ext d o n (x ∷ xs) [] e h = absurd (omega arith)
  range_ext d zero zero (x ∷ xs) (y ∷ ys) e h = refl
  range_ext d zero (suc n) (x ∷ xs) (y ∷ ys) e h =
      ap₂ ◌∷◌ (h 0 (omega arith) (omega arith))
        (range_ext d zero n xs ys (omega arith) λ j l g. h (suc j) (omega arith) (omega arith))
  range_ext d (suc o) n (x ∷ xs) (y ∷ ys) e h =
      range_ext d o n xs ys (omega arith) λ j l g. h (suc j) (omega arith) (omega arith)

  -- Every element has the property.
  abbrev pub All {κ} : (A → Type κ) → List A → Type κ
  All P [] = Unit {κ}
  All P (x ∷ xs) = P x × All P xs

  pub All-set {κ} :
      (P : A → Type κ) (xs : List A) (i : ℕ) (v : A) → All P xs → P v → All P (set xs i v)
  All-set P [] i v a h = tt
  All-set P (x ∷ xs) zero v a h = (h, a.1)
  All-set P (x ∷ xs) (suc i) v a h = (a.0, All-set P xs i v a.1 h)

  pub All-get_or {κ} :
      (P : A → Type κ) (xs : List A) (i : ℕ) (d : A) → All P xs → P d → P (get_or xs i d)
  All-get_or P [] i d a h = h
  All-get_or P (x ∷ xs) zero d a h = a.0
  All-get_or P (x ∷ xs) (suc i) d a h = All-get_or P xs i d a.1 h

  pub All-replicate {κ} : (P : A → Type κ) (n : ℕ) (v : A) → P v → All P (replicate n v)
  All-replicate P zero v h = tt
  All-replicate P (suc n) v h = (h, All-replicate P n v h)

  pub All-take {κ} : (P : A → Type κ) (n : ℕ) (xs : List A) → All P xs → All P (take n xs)
  All-take P zero xs a = tt
  All-take P (suc n) [] a = tt
  All-take P (suc n) (x ∷ xs) a = (a.0, All-take P n xs a.1)

  pub All-imp {κ ι} :
      (P : A → Type κ) (Q : A → Type ι) (xs : List A) → ((x : A) → P x → Q x) → All P xs → All Q xs
  All-imp P Q [] h a = tt
  All-imp P Q (x ∷ xs) h a = (h x a.0, All-imp P Q xs h a.1)

  pub All-drop {κ} : (P : A → Type κ) (n : ℕ) (xs : List A) → All P xs → All P (drop n xs)
  All-drop P zero xs a = a
  All-drop P (suc n) [] a = tt
  All-drop P (suc n) (x ∷ xs) a = All-drop P n xs a.1

  -- The list of `f 0` to `f (n - 1)`.
  abbrev pub tabulate : ℕ → (ℕ → A) → List A
  tabulate zero f = []
  tabulate (suc n) f = f 0 ∷ tabulate n (λ j. f (suc j))

  pub length-tabulate : (n : ℕ) (f : ℕ → A) → length (tabulate n f) ≡ n
  length-tabulate zero f = refl
  length-tabulate (suc n) f = ap suc (length-tabulate n (λ j. f (suc j)))

  pub tabulate_ext :
      (n : ℕ) (f g : ℕ → A) → ((j : ℕ) → j < n → f j ≡ g j) → tabulate n f ≡ tabulate n g
  tabulate_ext zero f g h = refl
  tabulate_ext (suc n) f g h =
      ap₂ ◌∷◌ (h 0 (omega arith))
        (tabulate_ext n (λ j. f (suc j)) (λ j. g (suc j)) λ j l. h (suc j) (omega arith))

  pub tabulate-append :
      (n m k : ℕ) (f : ℕ → A)
      → n + m ≡ k
      → tabulate n f ++ tabulate m (λ j. f (n + j)) ≡ tabulate k f
  tabulate-append zero m k f e =
      let e' : m ≡ k = omega arith in rw e' (tabulate_ext k _ f λ j l. ap f (omega arith))
  tabulate-append (suc n) m zero f e = absurd (omega arith)
  tabulate-append (suc n) m (suc k) f e = ap (◌∷◌ (f 0)) (
      ap (◌++◌ (tabulate n (λ j. f (suc j))))
        (tabulate_ext m (λ j. f (suc n + j)) (λ j. f (suc (n + j))) λ j l. ap f (omega arith))
      ∙ tabulate-append n m k (λ j. f (suc j)) (omega arith))

  pub take-drop-tabulate :
      (o n : ℕ) (xs : List A) (d : A)
      → o + n ≤ length xs
      → take n (drop o xs) ≡ tabulate n (λ j. get_or xs (o + j) d)
  take-drop-tabulate zero zero xs d h = refl
  take-drop-tabulate zero (suc n) [] d h = absurd (omega arith)
  take-drop-tabulate zero (suc n) (x ∷ xs) d h = ap (◌∷◌ x) (
      take-drop-tabulate zero n xs d (omega arith)
      ∙ tabulate_ext n _ _ λ j l. let e : 0 + suc j ≡ suc (0 + j) = omega arith in rw e)
  take-drop-tabulate (suc o) n [] d h = absurd (omega arith)
  take-drop-tabulate (suc o) n (x ∷ xs) d h =
      take-drop-tabulate o n xs d (omega arith)
      ∙ tabulate_ext n _ _ λ j l. let e : suc o + j ≡ suc (o + j) = omega arith in rw e

  -- `xs` with `src` written over it from index `o` on.
  abbrev pub overlay : ℕ → List A → List A → List A
  overlay o src [] = []
  overlay zero [] (x ∷ xs) = x ∷ xs
  overlay zero (y ∷ src) (x ∷ xs) = y ∷ overlay zero src xs
  overlay (suc o) src (x ∷ xs) = x ∷ overlay o src xs

  pub length-overlay : (o : ℕ) (src xs : List A) → length (overlay o src xs) ≡ length xs
  length-overlay o src [] = refl
  length-overlay zero [] (x ∷ xs) = refl
  length-overlay zero (y ∷ src) (x ∷ xs) = ap suc (length-overlay zero src xs)
  length-overlay (suc o) src (x ∷ xs) = ap suc (length-overlay o src xs)

  pub get_or-overlay_inside :
      (o i : ℕ) (src xs : List A) (d : A)
      → o ≤ i
      → i < o + length src
      → i < length xs
      → get_or (overlay o src xs) i d ≡ get_or src (i - o) d
  get_or-overlay_inside o i src [] d h g k = absurd (omega arith)
  get_or-overlay_inside zero i [] (x ∷ xs) d h g k = absurd (omega arith)
  get_or-overlay_inside zero zero (y ∷ src) (x ∷ xs) d h g k = refl
  get_or-overlay_inside zero (suc i) (y ∷ src) (x ∷ xs) d h g k =
      get_or-overlay_inside zero i src xs d (omega arith) (omega arith) (omega arith)
      ∙ (let e : suc i - 0 ≡ suc (i - 0) = omega arith in rw e)
  get_or-overlay_inside (suc o) zero src (x ∷ xs) d h g k = absurd (omega arith)
  get_or-overlay_inside (suc o) (suc i) src (x ∷ xs) d h g k =
      get_or-overlay_inside o i src xs d (omega arith) (omega arith) (omega arith)
      ∙ (let e : suc i - suc o ≡ i - o = omega arith in rw e)

  pub get_or-overlay_outside :
      (o i : ℕ) (src xs : List A) (d : A)
      → (i < o) ⊎ (o + length src ≤ i)
      → get_or (overlay o src xs) i d ≡ get_or xs i d
  get_or-overlay_outside o i src [] d h = refl
  get_or-overlay_outside zero i [] (x ∷ xs) d h = refl
  get_or-overlay_outside zero zero (y ∷ src) (x ∷ xs) d h = absurd (omega arith)
  get_or-overlay_outside zero (suc i) (y ∷ src) (x ∷ xs) d h =
      get_or-overlay_outside zero i src xs d (omega arith)
  get_or-overlay_outside (suc o) zero src (x ∷ xs) d h = refl
  get_or-overlay_outside (suc o) (suc i) src (x ∷ xs) d h =
      get_or-overlay_outside o i src xs d (omega arith)

  pub take-tabulate : (n m : ℕ) (f : ℕ → A) → n ≤ m → take n (tabulate m f) ≡ tabulate n f
  take-tabulate zero m f h = refl
  take-tabulate (suc n) zero f h = absurd (omega arith)
  take-tabulate (suc n) (suc m) f h =
      ap (◌∷◌ (f 0)) (take-tabulate n m (λ j. f (suc j)) (omega arith))

  pub drop-tabulate :
      (n m k : ℕ) (f : ℕ → A) → n + k ≡ m → drop n (tabulate m f) ≡ tabulate k (λ j. f (n + j))
  drop-tabulate zero m k f e =
      let e' : m ≡ k = omega arith in rw e' (tabulate_ext k _ _ λ j l. ap f (omega arith))
  drop-tabulate (suc n) zero k f e = absurd (omega arith)
  drop-tabulate (suc n) (suc m) k f e =
      drop-tabulate n m k (λ j. f (suc j)) (omega arith)
      ∙ tabulate_ext k _ _ λ j l. ap f {x = suc (n + j)} {y = suc n + j} (omega arith)
