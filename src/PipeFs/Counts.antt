-- ===== src/PipeFs/Counts.antt =====
-- The reader and writer counts of every pipe are the numbers of open handles on it.
use campix.Base.{
  ℕ, ◌+◌, ◌-◌, ◌^◌, ◌≤◌, ◌<◌, ◌≡◌, refl, inl, inr, Bool, true, false, ◌&&◌, some, List, [], ◌∷◌,
  arith, ◌==◌, if◌then◌else◌, length, Bool-cases,
}
use campix.Pipe.{Pipe}
use campix.PipeFs.{
  PipeMode, read_mode, write_mode, PipeFsHandle, PipeFs, lists, get_handle_data,
  dealloc_file_handle, put, one_more, one_less,
}

abbrev pub same_mode : PipeMode → PipeMode → Bool
same_mode read_mode read_mode = true
same_mode write_mode write_mode = true
same_mode _ _ = false

abbrev pub is_on : PipeMode → ℕ → PipeFsHandle → Bool
is_on mode id h = same_mode h.mode mode && (h.pipe_id == id)

-- The open handles on one end of a pipe.
abbrev pub count : PipeMode → ℕ → List (ℕ × PipeFsHandle) → ℕ
count mode id [] = 0
count mode id ((a, h) ∷ hs) =
    let rest = count mode id hs in if is_on mode id h then rest + 1 else rest

abbrev pub users : PipeMode → Pipe → ℕ
users read_mode p = p.readers
users write_mode p = p.writers

-- The counts are right, and a pipe with an open handle is still listed.
pub record IsCounted (s : PipeFs) : Type 0 where
  pub counted : (mode : PipeMode) (id : ℕ) → users mode (s.store id) ≡ count mode id s.handles
  pub listed : (mode : PipeMode) (id : ℕ) → 0 < count mode id s.handles → lists s.pipes id ≡ true
  pub few : length s.handles < 2 ^ 64

pub count-le :
    (mode : PipeMode) (id : ℕ) (hs : List (ℕ × PipeFsHandle)) → count mode id hs ≤ length hs
count-le mode id [] = omega arith
count-le mode id ((a, h) ∷ hs) = elim (Bool-cases (is_on mode id h)) [
  | inl e ↦ rw (e) (omega (arith, count-le mode id hs))
  | inr e ↦ rw (e) (omega (arith, count-le mode id hs))
]

pub users-one_more :
    (mode other : PipeMode) (p : Pipe)
    → users mode p + 1 < 2 ^ 64
    → users other (one_more mode p)
      ≡ (if same_mode mode other then users other p + 1 else users other p)
users-one_more read_mode read_mode p h = omega arith
users-one_more read_mode write_mode p h = refl
users-one_more write_mode read_mode p h = refl
users-one_more write_mode write_mode p h = omega arith

pub users-one_less :
    (mode other : PipeMode) (p : Pipe)
    → 0 < users mode p
    → users mode p < 2 ^ 64
    → users other (one_less mode p)
      ≡ (if same_mode mode other then users other p - 1 else users other p)
users-one_less read_mode read_mode p h l = omega arith
users-one_less read_mode write_mode p h l = refl
users-one_less write_mode read_mode p h l = refl
users-one_less write_mode write_mode p h l = omega arith

both_ends :
    (x y : Bool) (a b : ℕ)
    → a ≡ (if y then b + 1 else b)
    → (if x then a + 1 else a)
      ≡ (if y then (if x then b + 1 else b) + 1 else (if x then b + 1 else b))
both_ends x y a b e = ground arith

-- Closing a handle takes one off the count of its end, and off no other.
pub count-dealloc :
    (mode : PipeMode) (id : ℕ) (hs : List (ℕ × PipeFsHandle)) (handle : ℕ) {h : PipeFsHandle}
    → get_handle_data hs handle ≡ some h
    → count mode id hs ≡ (
        if is_on mode id h
        then count mode id (dealloc_file_handle hs handle) + 1
        else count mode id (dealloc_file_handle hs handle))
count-dealloc mode id [] handle e = cc
count-dealloc mode id ((a, k) ∷ hs) handle {h} e = elim (Bool-cases (a == handle)) [
  | inl q ↦
      let same : some k ≡ some h = rw q at e in let k_eq : k ≡ h = cc in rw (q) (rw (k_eq) refl)
  | inr q ↦
      let e' : get_handle_data hs handle ≡ some h = rw q at e in
      let ih = count-dealloc mode id hs handle e' in
      rw (q) (both_ends (is_on mode id k) (is_on mode id h) _ _ ih)
]

pub and_true : (b c : Bool) → c ≡ true → (b && c) ≡ b
and_true true c e = e
and_true false c e = refl

pub and_false : (b c : Bool) → c ≡ false → (b && c) ≡ false
and_false true c e = e
and_false false c e = refl

-- What one pipe's change does to a count, seen from any pipe.
module _ (s : PipeFs) (id : ℕ) (mode other : PipeMode) (id' : ℕ) where
  pub put-here : (p : Pipe) → (id == id') ≡ true → put id p s.store id' ≡ p
  put-here p e = rw (e) refl

  pub put-there : (p : Pipe) → (id == id') ≡ false → put id p s.store id' ≡ s.store id'
  put-there p e = rw (e) refl
