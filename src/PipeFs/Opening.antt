-- ===== src/PipeFs/Opening.antt =====
-- Opening an end of a pipe keeps the counts right.
use campix.Base.{
  ℕ, ◌+◌, ◌^◌, ◌<◌, ◌≡◌, refl, ap, ◌∙◌, inl, inr, Bool, true, false, ◌&&◌, ◌||◌, not, ◌∷◌, arith,
  ◌==◌, if◌then◌else◌, length, Bool-cases, ==_iff, subst,
}
use campix.PipeFs.{
  PipeMode, read_mode, write_mode, SpecificFileData, pipefs_root, pipefs_dir, pipefs_read,
  pipefs_write, PipeFs, lists, put, one_more, has_flag, open_mode_read, open_mode_write,
  open_mode_append, open_mode_create, open_mode_fail_if_exists, open_end, fopen,
}
use campix.PipeFs.Counts.{
  same_mode, users, IsCounted, count-le, users-one_more, and_true, and_false, put-here, put-there,
}

-- Both branches of a test keep the counts right.
either_way {ℓ} :
    {A : Type ℓ} (c : Bool) (x y : A × PipeFs)
    → (c ≡ true → IsCounted x.1)
    → (c ≡ false → IsCounted y.1)
    → IsCounted (if c then x else y).1
either_way true x y f g = f refl
either_way false x y f g = g refl

abbrev opened : ℕ → PipeMode → ℕ → PipeFs → PipeFs
opened address mode id s = record s {
  store = put id (one_more mode (s.store id)) s.store;
  handles = (address, record { mode = mode; pipe_id = id }) ∷ s.handles;
}

opened-IsCounted :
    (address : ℕ) (mode : PipeMode) (id : ℕ) (s : PipeFs)
    → IsCounted s
    → length s.handles + 1 < 2 ^ 64
    → lists s.pipes id ≡ true
    → IsCounted (opened address mode id s)
opened-IsCounted address mode id s v room present = record {
  counted = λ other id'. elim (Bool-cases (id == id')) [
    | inl e ↦
        let same : id ≡ id' = (==_iff id id').0 e in
        let on : (same_mode mode other && (id == id')) ≡ same_mode mode other = and_true _ _ e in
        ap (users other) (put-here s id mode other id' (one_more mode (s.store id)) e)
        ∙ users-one_more mode other (s.store id)
            (omega (arith, v.counted mode id, count-le mode id s.handles))
        ∙ rw (on, v.counted other id, same) refl
    | inr e ↦
        let off : (same_mode mode other && (id == id')) ≡ false = and_false _ _ e in
        ap (users other) (put-there s id mode other id' (one_more mode (s.store id)) e)
        ∙ v.counted other id'
        ∙ rw (off) refl
  ];
  listed = λ other id' l. elim (Bool-cases (id == id')) [
    | inl e ↦
        let same : id ≡ id' = (==_iff id id').0 e in
        subst (λ t. lists s.pipes t ≡ true) same present
    | inr e ↦
        let off : (same_mode mode other && (id == id')) ≡ false = and_false _ _ e in
        v.listed other id' (rw (off) at l)
  ];
  few = omega arith;
}

open_end-IsCounted :
    (address : ℕ) (mode : PipeMode) (id : ℕ) (s : PipeFs)
    → IsCounted s
    → length s.handles + 1 < 2 ^ 64
    → IsCounted (open_end address mode id s).1
unfolding open_end
open_end-IsCounted address mode id s v room =
    either_way (not (lists s.pipes id)) _ _ (λ absent. v)
      λ present.
        either_way (s.store id).closed _ _ (λ shut. v)
          λ live. opened-IsCounted address mode id s v room (ground arith)

-- Opening an end of a pipe keeps the counts right, whatever its outcome, while there are fewer than
-- 2^64 - 1 handles.
pub fopen-IsCounted :
    (address file_fs : ℕ) (file : SpecificFileData) (mode : ℕ) (s : PipeFs)
    → IsCounted s
    → length s.handles + 1 < 2 ^ 64
    → IsCounted (fopen address file_fs file mode s).1
unfolding fopen
fopen-IsCounted address file_fs pipefs_root mode s v room =
    either_way (not (file_fs == s.os_id)) _ _ (λ _. v) (λ _. v)
fopen-IsCounted address file_fs (pipefs_dir id) mode s v room =
    either_way (not (file_fs == s.os_id)) _ _ (λ _. v) (λ _. v)
fopen-IsCounted address file_fs (pipefs_read id) mode s v room =
    either_way (not (file_fs == s.os_id)) _ _ (λ _. v)
      λ _.
        either_way
          (not (has_flag mode open_mode_read)
            || (has_flag mode open_mode_write
                || (has_flag mode open_mode_append || has_flag mode open_mode_create)))
          _ _ (λ _. v)
          λ _.
            either_way (has_flag mode open_mode_fail_if_exists) _ _ (λ _. v)
              λ _. open_end-IsCounted address read_mode id s v room
fopen-IsCounted address file_fs (pipefs_write id) mode s v room =
    either_way (not (file_fs == s.os_id)) _ _ (λ _. v)
      λ _.
        either_way
          (has_flag mode open_mode_read
            || (not (has_flag mode open_mode_write)
                || (has_flag mode open_mode_append || has_flag mode open_mode_create)))
          _ _ (λ _. v)
          λ _.
            either_way (has_flag mode open_mode_fail_if_exists) _ _ (λ _. v)
              λ _. open_end-IsCounted address write_mode id s v room
