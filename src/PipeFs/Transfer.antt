-- ===== src/PipeFs/Transfer.antt =====
-- Reading and writing through the handles of a pipe: every outcome, and that the counts stay right.
use campix.Base.{
  ℕ, ◌<◌, min, ◌-◌, ◌≡◌, ◌⊎◌, refl, ap, ◌∙◌, inl, inr, Bool, true, false, none, some, List, [],
  arith, ◌==◌, length, take, leb, Run, ok, Bool-cases, Option-cases, ==_iff,
}
use campix.Vfs.Error.{Result, done, fail, bad_handle, would_block, action_not_allowed, broken_pipe}
use campix.Pipe
use campix.Pipe.{Pipe, is_empty, is_full}
use campix.Pipe.Queue
use campix.Pipe.Queue.{Reads, read-Reads, contents}
use campix.Pipe.Queue.Write.{Writes, write-Writes}
use campix.PipeFs.{
  PipeMode, read_mode, write_mode, PipeFsHandle, PipeFs, get_handle_data, put, fread, fwrite,
}
use campix.PipeFs.Counts.{IsCounted, count, users}

-- The store with a pipe changed.
abbrev pub with_pipe : ℕ → Pipe → PipeFs → PipeFs
with_pipe id p s = record s { store = put id p s.store }

with_pipe-IsCounted :
    (id : ℕ) (p : Pipe) (s : PipeFs)
    → IsCounted s
    → p.readers ≡ (s.store id).readers
    → p.writers ≡ (s.store id).writers
    → IsCounted (with_pipe id p s)
with_pipe-IsCounted id p s v r w = record {
  counted = λ mode other. same mode other (id == other) refl ∙ v.counted mode other;
  listed = v.listed;
  few = v.few;
}
  where
    equal : (mode : PipeMode) → users mode p ≡ users mode (s.store id)
    equal read_mode = r
    equal write_mode = w

    same :
        (mode : PipeMode) (other : ℕ) (c : Bool)
        → (id == other) ≡ c
        → users mode (put id p s.store other) ≡ users mode (s.store other)
    same mode other true e =
        let q : id ≡ other = (==_iff id other).0 e in
        rw (e) (equal mode ∙ ap (λ t. users mode (s.store t)) q)
    same mode other false e = rw (e) refl

-- The outcome of a write through a handle.
pub data Fwrites (handle : ℕ) (buf : List ℕ) (s : PipeFs) (result : Run (Result ℕ × PipeFs))
    : Type 0 where
  no_handle :
      get_handle_data s.handles handle ≡ none
      → result ≡ ok (fail bad_handle, s)
      → Fwrites handle buf s result
  read_end :
      (h : PipeFsHandle)
      → get_handle_data s.handles handle ≡ some h
      → h.mode ≡ read_mode
      → result ≡ ok (fail action_not_allowed, s)
      → Fwrites handle buf s result
  no_reader :
      (h : PipeFsHandle)
      → get_handle_data s.handles handle ≡ some h
      → h.mode ≡ write_mode
      → count read_mode h.pipe_id s.handles ≡ 0
      → result ≡ ok (fail broken_pipe, s)
      → Fwrites handle buf s result
  full :
      (h : PipeFsHandle)
      → get_handle_data s.handles handle ≡ some h
      → h.mode ≡ write_mode
      → 0 < count read_mode h.pipe_id s.handles
      → (s.store h.pipe_id).data_len ≡ length (s.store h.pipe_id).bytes
      → result ≡ ok (fail would_block, s)
      → Fwrites handle buf s result
  written :
      (h : PipeFsHandle)
      → get_handle_data s.handles handle ≡ some h
      → h.mode ≡ write_mode
      → 0 < count read_mode h.pipe_id s.handles
      → (s.store h.pipe_id).data_len < length (s.store h.pipe_id).bytes
      → (n : ℕ)
      → n ≡ min (length (s.store h.pipe_id).bytes - (s.store h.pipe_id).data_len) (length buf)
      → (w : Writes buf (s.store h.pipe_id) (Pipe.write buf (s.store h.pipe_id)))
      → result ≡ ok (done n, with_pipe h.pipe_id w.after s)
      → IsCounted (with_pipe h.pipe_id w.after s)
      → Fwrites handle buf s result

mode_cases : (m : PipeMode) → (m ≡ read_mode) ⊎ (m ≡ write_mode)
mode_cases read_mode = inl refl
mode_cases write_mode = inr refl

-- `fwrite` on counted handles whose pipes are valid: a bad handle, the read end, a pipe that no
-- open handle reads and a full pipe are each refused with their error and without a change;
-- otherwise the bytes that fit go behind the queue of that pipe alone. The counts stay right, and
-- it does not panic.
pub fwrite-Fwrites :
    (handle : ℕ) (buf : List ℕ) (s : PipeFs)
    → IsCounted s
    → ((id : ℕ) → Queue.IsValid (s.store id))
    → Fwrites handle buf s (fwrite handle buf s)
unfolding fwrite is_full
fwrite-Fwrites handle buf s v valid = elim (Option-cases (get_handle_data s.handles handle)) [
  | inl e ↦ no_handle e (rw (e, fwrite) refl)
  | inr (h, e) ↦ elim (mode_cases h.mode) [
    | inl m ↦ read_end h e m (rw (e, fwrite, m) refl)
    | inr m ↦
        let p = s.store h.pipe_id in
        let readers = v.counted read_mode h.pipe_id in
        elim (Bool-cases (p.readers == 0)) [
          | inl none_left ↦
              no_reader h e m (ground (arith, readers)) (rw (e, fwrite, m, none_left) refl)
          | inr some_left ↦ elim (Bool-cases (leb (length p.bytes) p.data_len)) [
            | inl no_room ↦
                full h e m (ground (arith, readers)) (ground (arith, (valid h.pipe_id).within))
                  (rw (e, fwrite, m, some_left, no_room) refl)
            | inr room ↦
                let w = write-Writes buf p (valid h.pipe_id) in
                written h e m (ground (arith, readers)) (ground arith) _ refl w
                  (rw (e, fwrite, m, some_left, room, w.returns) refl)
                  (with_pipe-IsCounted h.pipe_id w.after s v w.same_readers w.same_writers)
          ]
        ]
  ]
]

-- The outcome of a read through a handle.
pub data Freads (handle room : ℕ) (s : PipeFs) (result : Run (Result (List ℕ) × PipeFs))
    : Type 0 where
  no_handle :
      get_handle_data s.handles handle ≡ none
      → result ≡ ok (fail bad_handle, s)
      → Freads handle room s result
  write_end :
      (h : PipeFsHandle)
      → get_handle_data s.handles handle ≡ some h
      → h.mode ≡ write_mode
      → result ≡ ok (fail action_not_allowed, s)
      → Freads handle room s result
  end_of_file :
      (h : PipeFsHandle)
      → get_handle_data s.handles handle ≡ some h
      → h.mode ≡ read_mode
      → contents (s.store h.pipe_id) ≡ []
      → (s.store h.pipe_id).closed ≡ true
      → result ≡ ok (done [], s)
      → Freads handle room s result
  nothing_yet :
      (h : PipeFsHandle)
      → get_handle_data s.handles handle ≡ some h
      → h.mode ≡ read_mode
      → contents (s.store h.pipe_id) ≡ []
      → (s.store h.pipe_id).closed ≡ false
      → result ≡ ok (fail would_block, s)
      → Freads handle room s result
  taken :
      (h : PipeFsHandle)
      → get_handle_data s.handles handle ≡ some h
      → h.mode ≡ read_mode
      → 0 < (s.store h.pipe_id).data_len
      → (bytes : List ℕ)
      → bytes ≡ take (min (s.store h.pipe_id).data_len room) (contents (s.store h.pipe_id))
      → (r : Reads room (s.store h.pipe_id) (Pipe.read room (s.store h.pipe_id)))
      → result ≡ ok (done bytes, with_pipe h.pipe_id r.after s)
      → IsCounted (with_pipe h.pipe_id r.after s)
      → Freads handle room s result

no_contents : (p : Pipe) → p.data_len ≡ 0 → contents p ≡ []
no_contents p e = rw (e) refl

-- `fread` on counted handles whose pipes are valid: a bad handle and the write end are refused with
-- their error, an empty pipe is at its end when it is closed and would block when it is not, all
-- without a change; otherwise the oldest bytes leave the queue of that pipe alone. The counts stay
-- right, and it does not panic.
pub fread-Freads :
    (handle room : ℕ) (s : PipeFs)
    → IsCounted s
    → ((id : ℕ) → Queue.IsValid (s.store id))
    → Freads handle room s (fread handle room s)
unfolding fread is_empty
fread-Freads handle room s v valid = elim (Option-cases (get_handle_data s.handles handle)) [
  | inl e ↦ no_handle e (rw (e, fread) refl)
  | inr (h, e) ↦ elim (mode_cases h.mode) [
    | inr m ↦ write_end h e m (rw (e, fread, m) refl)
    | inl m ↦
        let p = s.store h.pipe_id in
        elim (Bool-cases (p.data_len == 0)) [
          | inl empty ↦
              let nothing = no_contents p ((==_iff p.data_len 0).0 empty) in
              elim (Bool-cases p.closed) [
                | inl shut ↦ end_of_file h e m nothing shut (rw (e, fread, m, empty, shut) refl)
                | inr live ↦ nothing_yet h e m nothing live (rw (e, fread, m, empty, live) refl)
              ]
          | inr some_data ↦
              let r = read-Reads room p (valid h.pipe_id) in
              taken h e m (ground arith) _ refl r (rw (e, fread, m, some_data, r.returns) refl)
                (with_pipe-IsCounted h.pipe_id r.after s v r.same_readers r.same_writers)
        ]
  ]
]
