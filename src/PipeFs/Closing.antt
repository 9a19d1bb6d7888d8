-- ===== src/PipeFs/Closing.antt =====
-- Closing a handle keeps the counts right.
use campix.Base.{
  ℕ, ◌+◌, ◌-◌, ◌^◌, ◌≤◌, ◌<◌, ◌≡◌, refl, ap, ◌∙◌, inl, inr, ◌⊎◌, Bool, true, false, ◌&&◌, ◌||◌,
  none, some, List, [], ◌∷◌, arith, ◌==◌, if◌then◌else◌, length, Bool-cases, Option-cases, ==_refl,
  ==_iff,
}
use campix.Pipe.{Pipe}
use campix.Vfs.Error.{Result, done, fail, bad_handle}
use campix.PipeFs.{
  PipeMode, read_mode, write_mode, PipeFsHandle, PipeFs, lists, unlist, get_handle_data,
  dealloc_file_handle, put, one_less, fclose,
}
use campix.PipeFs.Counts.{
  same_mode, is_on, count, users, IsCounted, count-le, users-one_less, count-dealloc, and_true,
  and_false, put-here, put-there,
}

lists-unlist :
    (ids : List ℕ) (id other : ℕ)
    → (id == other) ≡ false
    → lists (unlist ids id) other ≡ lists ids other
lists-unlist [] id other h = refl
lists-unlist (x ∷ xs) id other h = elim (Bool-cases (x == id)) [
  | inl e ↦
      let same : x ≡ id = (==_iff x id).0 e in
      rw (e) (lists-unlist xs id other h ∙ rw (same, h) refl)
  | inr e ↦ rw (e) (ap (λ b. (x == other) || b) (lists-unlist xs id other h))
]

length-dealloc :
    (hs : List (ℕ × PipeFsHandle)) (handle : ℕ) → length (dealloc_file_handle hs handle) ≤ length hs
length-dealloc [] handle = omega arith
length-dealloc ((a, h) ∷ hs) handle = elim (Bool-cases (a == handle)) [
  | inl e ↦ rw (e) (omega arith)
  | inr e ↦ rw (e) (omega (arith, length-dealloc hs handle))
]

-- The store, the list and the handles after a handle `h` is closed.
abbrev closed_end : ℕ → PipeFsHandle → PipeFs → PipeFs
closed_end handle h s =
    let p = one_less h.mode (s.store h.pipe_id) in
    record s {
      store = put h.pipe_id p s.store;
      pipes = if (p.readers == 0) && (p.writers == 0) then unlist s.pipes h.pipe_id else s.pipes;
      handles = dealloc_file_handle s.handles handle;
    }

same_mode_refl : (mode : PipeMode) → same_mode mode mode ≡ true
same_mode_refl read_mode = refl
same_mode_refl write_mode = refl

positive : (b : Bool) (n m : ℕ) → b ≡ true → n ≡ (if b then m + 1 else m) → 0 < n
positive b n m e h = ground arith

one_less_than :
    (b c : Bool) (u n m : ℕ)
    → b ≡ c
    → u ≡ n
    → n ≡ (if b then m + 1 else m)
    → (if c then u - 1 else u) ≡ m
one_less_than b c u n m e f h = ground arith

counted-dealloc :
    (handle : ℕ) (h : PipeFsHandle) (s : PipeFs) (other : PipeMode) (id : ℕ)
    → IsCounted s
    → get_handle_data s.handles handle ≡ some h
    → users other (put h.pipe_id (one_less h.mode (s.store h.pipe_id)) s.store id)
      ≡ count other id (dealloc_file_handle s.handles handle)
counted-dealloc handle h s other id v e = elim (Bool-cases (h.pipe_id == id)) [
  | inl q ↦
      let same : h.pipe_id ≡ id = (==_iff h.pipe_id id).0 q in
      let on : is_on other id h ≡ same_mode h.mode other = and_true _ _ q in
      let own : is_on h.mode h.pipe_id h ≡ true =
        and_true _ _ (==_refl h.pipe_id) ∙ same_mode_refl h.mode in
      let size = count-le h.mode h.pipe_id s.handles in
      let mine = v.counted h.mode h.pipe_id in
      let d = count-dealloc other id s.handles handle e in
      let d' = count-dealloc h.mode h.pipe_id s.handles handle e in
      let some_users : 0 < users h.mode (s.store h.pipe_id) =
        omega (arith, mine, positive _ _ _ own d') in
      let fit : users h.mode (s.store h.pipe_id) < 2 ^ 64 = omega (arith, mine, size, v.few) in
      ap (users other) (put-here s h.pipe_id h.mode other id _ q)
      ∙ users-one_less h.mode other (s.store h.pipe_id) some_users fit
      ∙ one_less_than (is_on other id h) (same_mode h.mode other) _ _ _ on
          (ap (λ t. users other (s.store t)) same ∙ v.counted other id) d
  | inr q ↦
      let off : is_on other id h ≡ false = and_false _ _ q in
      ap (users other) (put-there s h.pipe_id h.mode other id _ q)
      ∙ v.counted other id
      ∙ count-dealloc other id s.handles handle e
      ∙ rw (off) refl
]

count-dealloc-le :
    (mode : PipeMode) (id : ℕ) (hs : List (ℕ × PipeFsHandle)) (handle : ℕ) {h : PipeFsHandle}
    → get_handle_data hs handle ≡ some h
    → count mode id (dealloc_file_handle hs handle) ≤ count mode id hs
count-dealloc-le mode id hs handle {h} e =
    fewer (is_on mode id h) _ _ (count-dealloc mode id hs handle e)
  where
    fewer : (b : Bool) (n m : ℕ) → n ≡ (if b then m + 1 else m) → m ≤ n
    fewer b n m f = ground arith

users_zero :
    (mode : PipeMode) (p : Pipe) → ((p.readers == 0) && (p.writers == 0)) ≡ true → users mode p ≡ 0
users_zero read_mode p h = ground arith
users_zero write_mode p h = ground arith

still_listed :
    (c : Bool) (ids : List ℕ) (id other : ℕ)
    → (c ≡ true → (id == other) ≡ false)
    → lists ids other ≡ true
    → lists (if c then unlist ids id else ids) other ≡ true
still_listed true ids id other f h = lists-unlist ids id other (f refl) ∙ h
still_listed false ids id other f h = h

closed_end-IsCounted :
    (handle : ℕ) (h : PipeFsHandle) (s : PipeFs)
    → IsCounted s
    → get_handle_data s.handles handle ≡ some h
    → IsCounted (closed_end handle h s)
closed_end-IsCounted handle h s v e = record {
  counted = λ other id. counted-dealloc handle h s other id v e;
  listed = λ other id l.
      still_listed _ s.pipes h.pipe_id id
        (λ idle. elim (Bool-cases (h.pipe_id == id)) [
          | inr q ↦ q
          | inl q ↦ absurd (in_use other id l q idle)
        ])
        (v.listed other id (omega (arith, count-dealloc-le other id s.handles handle e)));
  few = omega (arith, length-dealloc s.handles handle, v.few);
}
  where
    p : Pipe
    p = one_less h.mode (s.store h.pipe_id)

    in_use :
        (other : PipeMode) (id : ℕ)
        → 0 < count other id (dealloc_file_handle s.handles handle)
        → (h.pipe_id == id) ≡ true
        → ((p.readers == 0) && (p.writers == 0)) ≡ true
        → ⊥
    in_use other id l q idle =
        let here = ap (users other) (put-here s h.pipe_id h.mode other id p q) in
        let left = counted-dealloc handle h s other id v e in
        absurd (omega (arith, users_zero other p idle, here, left))

-- Closing a handle that is open succeeds and takes it from the handles, and closing any other is
-- refused and changes nothing.
abbrev pub Closes : ℕ → PipeFs → Result (Unit {0}) × PipeFs → Type 0
Closes handle s (outcome, s') =
    ((h : PipeFsHandle) × (get_handle_data s.handles handle ≡ some h)
      × (outcome ≡ done tt)
      × (s'.handles ≡ dealloc_file_handle s.handles handle))
    ⊎ ((get_handle_data s.handles handle ≡ none) × (outcome ≡ fail bad_handle) × (s' ≡ s))

-- From counts that are right, closing a handle keeps them right. If it was open, `Ok` is returned
-- and it alone is taken from the handles; if it was not, the result is `BadHandle` and nothing has
-- changed.
pub fclose-IsCounted :
    (handle : ℕ) (s : PipeFs)
    → IsCounted s
    → IsCounted (fclose handle s).1 × Closes handle s (fclose handle s)
unfolding fclose
fclose-IsCounted handle s v = elim (Option-cases (get_handle_data s.handles handle)) [
  | inl e ↦ rw (e, fclose) (v, inr (refl, refl, refl))
  | inr (h, e) ↦ rw (e, fclose) (closed_end-IsCounted handle h s v e, inl (h, refl, refl, refl))
]
