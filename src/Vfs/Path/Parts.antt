-- ===== src/Vfs/Path/Parts.antt =====
-- The parts of a path, and that the splitter walks through them in order.
use campix.Base.{
  ℕ, zero, suc, ◌+◌, ◌-◌, ◌≤◌, ◌≡◌, refl, sym, ap, ◌∙◌, inl, inr, Bool, true, false, List, [], ◌∷◌,
  arith, if◌then◌else◌, length, take, drop, Bool-cases, length-drop, le→leb, subst,
}
use campix.Vfs.Path.{PathSplitter, is_slash, in_part, skip, new, is_done, peek, apply, next_part}

abbrev pub take_while : (ℕ → Bool) → List ℕ → List ℕ
take_while test [] = []
take_while test (c ∷ cs) = let rest = take_while test cs in if test c then c ∷ rest else []

abbrev pub drop_while : (ℕ → Bool) → List ℕ → List ℕ
drop_while test [] = []
drop_while test (c ∷ cs) = let rest = drop_while test cs in if test c then rest else c ∷ cs

skip-le : (test : ℕ → Bool) (cs : List ℕ) (idx : ℕ) → idx ≤ skip test cs idx
unfolding skip
skip-le test [] idx = omega arith
skip-le test (c ∷ cs) idx = elim (Bool-cases (test c)) [
  | inl e ↦ rw (e) (omega (arith, skip-le test cs (idx + 1)))
  | inr e ↦ rw (e) (omega arith)
]

take_nil : (n : ℕ) → take {A = ℕ} n [] ≡ []
take_nil zero = refl
take_nil (suc n) = refl

drop_nil : (n : ℕ) → drop {A = ℕ} n [] ≡ []
drop_nil zero = refl
drop_nil (suc n) = refl

skip-take :
    (test : ℕ → Bool) (cs : List ℕ) (idx : ℕ)
    → take (skip test cs idx - idx) cs ≡ take_while test cs
unfolding skip
skip-take test [] idx = take_nil (idx - idx)
skip-take test (c ∷ cs) idx = elim (Bool-cases (test c)) [
  | inl e ↦
      let s : skip test cs (idx + 1) - idx ≡ suc (skip test cs (idx + 1) - (idx + 1)) =
        omega (arith, skip-le test cs (idx + 1)) in
      rw (e, s) (ap (λ (t : List ℕ). c ∷ t) (skip-take test cs (idx + 1)))
  | inr e ↦ let s : idx - idx ≡ 0 = omega arith in rw (e, s) refl
]

skip-drop :
    (test : ℕ → Bool) (cs : List ℕ) (idx : ℕ)
    → drop (skip test cs idx - idx) cs ≡ drop_while test cs
unfolding skip
skip-drop test [] idx = drop_nil (idx - idx)
skip-drop test (c ∷ cs) idx = elim (Bool-cases (test c)) [
  | inl e ↦
      let s : skip test cs (idx + 1) - idx ≡ suc (skip test cs (idx + 1) - (idx + 1)) =
        omega (arith, skip-le test cs (idx + 1)) in
      rw (e, s) (skip-drop test cs (idx + 1))
  | inr e ↦ let s : idx - idx ≡ 0 = omega arith in rw (e, s) refl
]

drop-drop : (a b : ℕ) (xs : List ℕ) → drop b (drop a xs) ≡ drop (a + b) xs
drop-drop zero b xs = ap (λ t. drop t xs) {x = b} {y = 0 + b} (omega arith)
drop-drop (suc a) b [] = drop_nil b ∙ sym (drop_nil (suc a + b))
drop-drop (suc a) b (x ∷ xs) =
    drop-drop a b xs ∙ ap (λ t. drop t (x ∷ xs)) {x = suc (a + b)} {y = suc a + b} (omega arith)

-- Where the index ends, the path goes on behind the characters that were skipped.
drop-skip :
    (test : ℕ → Bool) (path : List ℕ) (idx : ℕ)
    → drop (skip test (drop idx path) idx) path ≡ drop_while test (drop idx path)
drop-skip test path idx =
    let end = skip test (drop idx path) idx in
    let e : end ≡ idx + (end - idx) = omega (arith, skip-le test (drop idx path) idx) in
    ap (λ t. drop t path) e
    ∙ sym (drop-drop idx (end - idx) path)
    ∙ skip-drop test (drop idx path) idx

-- The path cut at every slash, and the parts that are not empty: the specification of the walk.
abbrev pub push : ℕ → List (List ℕ) → List (List ℕ)
push c [] = (c ∷ []) ∷ []
push c (w ∷ ws) = (c ∷ w) ∷ ws

abbrev pub split : List ℕ → List (List ℕ)
split [] = [] ∷ []
split (c ∷ cs) = let rest = split cs in if is_slash c then [] ∷ rest else push c rest

abbrev pub non_empty : List (List ℕ) → List (List ℕ)
non_empty [] = []
non_empty ([] ∷ ws) = non_empty ws
non_empty ((c ∷ w) ∷ ws) = (c ∷ w) ∷ non_empty ws

abbrev pub parts : List ℕ → List (List ℕ)
parts path = non_empty (split path)

-- From a state the splitter gives these parts, one by one, and is then done.
pub data Walks : PathSplitter → List (List ℕ) → Type 0 where
  finished : {s : PathSplitter} → is_done s ≡ true → Walks s []
  part :
      {s : PathSplitter} {ps : List (List ℕ)}
      → is_done s ≡ false
      → Walks (next_part s).1 ps
      → Walks s ((next_part s).0 ∷ ps)

-- What is left to split behind the first part.
abbrev behind : List ℕ → List (List ℕ)
behind [] = []
behind (c ∷ cs) = split cs

split-span : (xs : List ℕ) → split xs ≡ take_while in_part xs ∷ behind (drop_while in_part xs)
split-span [] = refl
split-span (c ∷ cs) = elim (Bool-cases (is_slash c)) [
  | inl e ↦ rw (e) refl
  | inr e ↦ rw (e, split-span cs) refl
]

parts-skip : (xs : List ℕ) → parts (drop_while is_slash xs) ≡ parts xs
parts-skip [] = refl
parts-skip (c ∷ cs) = elim (Bool-cases (is_slash c)) [
  | inl e ↦ rw (e) (parts-skip cs)
  | inr e ↦ rw (e) (rw (e) refl)
]

-- Behind a part comes a slash or the end.
parts-behind :
    (xs : List ℕ) → non_empty (behind (drop_while in_part xs)) ≡ parts (drop_while in_part xs)
parts-behind [] = refl
parts-behind (c ∷ cs) = elim (Bool-cases (is_slash c)) [
  | inl e ↦ rw (e) (rw (e) refl)
  | inr e ↦ rw (e) (parts-behind cs)
]

parts-cons :
    (c : ℕ) (cs : List ℕ)
    → is_slash c ≡ false
    → parts (c ∷ cs)
      ≡ take_while in_part (c ∷ cs) ∷ parts (drop_while is_slash (drop_while in_part (c ∷ cs)))
parts-cons c cs e = rw (split-span (c ∷ cs)) (
    rw (e) (
      ap (λ (t : List (List ℕ)). (c ∷ take_while in_part cs) ∷ t)
        (parts-behind cs ∙ sym (parts-skip (drop_while in_part cs)))))

-- The path from the index on does not begin with a slash.
abbrev StartsPart : List ℕ → Type 0
StartsPart [] = Unit {0}
StartsPart (c ∷ cs) = is_slash c ≡ false

StartsPart-drop_while : (xs : List ℕ) → StartsPart (drop_while is_slash xs)
StartsPart-drop_while [] = tt
StartsPart-drop_while (c ∷ cs) = elim (Bool-cases (is_slash c)) [
  | inl e ↦ rw (e) (StartsPart-drop_while cs)
  | inr e ↦ rw (e) e
]

length-drop_while : (test : ℕ → Bool) (xs : List ℕ) → length (drop_while test xs) ≤ length xs
length-drop_while test [] = omega arith
length-drop_while test (c ∷ cs) = elim (Bool-cases (test c)) [
  | inl e ↦ rw (e) (omega (arith, length-drop_while test cs))
  | inr e ↦ rw (e) (omega arith)
]

-- The step of the splitter, on the rest of the path.
next_part-step :
    (s : PathSplitter)
    → is_done s ≡ false
    → ((next_part s).0 ≡ take_while in_part (drop s.idx s.path))
      × (drop (next_part s).1.idx (next_part s).1.path
          ≡ drop_while is_slash (drop_while in_part (drop s.idx s.path)))
      × ((next_part s).1.path ≡ s.path)
unfolding next_part peek apply
next_part-step s e =
    let end = skip in_part (drop s.idx s.path) s.idx in
    let first = skip-take in_part (drop s.idx s.path) s.idx in
    let middle = drop-skip in_part s.path s.idx in
    let last = drop-skip is_slash s.path end in
    rw (e, next_part, peek) (first, last ∙ ap (drop_while is_slash) middle, refl)

rest-length :
    (s : PathSplitter) {rest : List ℕ}
    → drop s.idx s.path ≡ rest
    → length rest ≡ length s.path - s.idx
rest-length s e = ap length (sym e) ∙ length-drop s.idx s.path

Walks-rest :
    (n : ℕ) (s : PathSplitter) (rest : List ℕ)
    → drop s.idx s.path ≡ rest
    → StartsPart rest
    → length rest ≤ n
    → Walks s (parts rest)
unfolding is_done
Walks-rest n s [] e h l = finished (le→leb (length s.path) s.idx (omega (arith, rest-length s e)))
Walks-rest zero s (c ∷ cs) e h l = absurd (omega arith)
Walks-rest (suc n) s (c ∷ cs) e h l =
    let size = rest-length s e in
    let more : is_done s ≡ false = ground arith in
    let step = next_part-step s more in
    let rest' = drop_while is_slash (drop_while in_part (c ∷ cs)) in
    let one : length (drop_while in_part (c ∷ cs)) ≤ length cs =
      rw (h) (length-drop_while in_part cs) in
    let shorter : length rest' ≤ n =
      omega (arith, one, length-drop_while is_slash (drop_while in_part (c ∷ cs))) in
    let walk =
      Walks-rest n (next_part s).1 rest'
        (step.1 ∙ ap (λ (t : List ℕ). drop_while is_slash (drop_while in_part t)) e)
        (StartsPart-drop_while (drop_while in_part (c ∷ cs))) shorter in
    let first : (next_part s).0 ≡ take_while in_part (c ∷ cs) =
      step.0 ∙ ap (take_while in_part) e in
    subst (Walks s) (ap (λ (t : List ℕ). t ∷ parts rest') first ∙ sym (parts-cons c cs h))
      (part more walk)

-- The splitter of a path gives the parts that are between its slashes and not empty, in order,
-- and is done behind the last one.
pub new-Walks : (path : List ℕ) → Walks (new path) (parts path)
unfolding new
new-Walks path =
    let from : drop (skip is_slash path 0) path ≡ drop_while is_slash path =
      drop-skip is_slash path 0 in
    subst (Walks (new path)) (parts-skip path) (
      Walks-rest (length path) (new path) (drop_while is_slash path) from
        (StartsPart-drop_while path) (length-drop_while is_slash path))
