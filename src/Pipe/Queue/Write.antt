-- ===== src/Pipe/Queue/Write.antt =====
-- Writing to the ring buffer appends to the queue.
use campix.Base.{
  ℕ, ◌+◌, ◌-◌, ◌%◌, ◌≤◌, ◌<◌, min, ◌≡◌, ◌≢◌, refl, sym, ap, ap₂, ◌∙◌, inl, inr, List, arith, ltb,
  ◌==◌, length, get_or, take, drop, overlay, ◌++◌, Run, ok, Bool-cases, tabulate_ext,
  tabulate-append, take-drop-tabulate, le→leb, ne→==_false, ==_iff, ==_refl, length-overlay,
}
use native.Mathlib.Nat.{mod-lt}
use mathlib.Core.List.{append-nil}
use campix.Pipe.{Pipe, usize, usize_sub, writable_bytes, write}
use campix.Pipe.Queue.{
  IsValid, contents, wrap_below, wrap_above, usize_below, usize_sub_below, shifted,
}
use campix.Pipe.Queue.Ring.{ringed, length-ringed, piece_length, ringed_new, ringed_old}

abbrev after_write : ℕ → List ℕ → Pipe → Pipe
after_write n buf p = record p {
  bytes = ringed p.write_pos n buf p.bytes;
  write_pos = (p.write_pos + n) % length p.bytes;
  data_len = p.data_len + n;
}

free_room : (p : Pipe) → IsValid p → writable_bytes p ≡ length p.bytes - p.data_len
unfolding writable_bytes
free_room p v = usize_sub_below (length p.bytes) p.data_len v.within (omega (arith, v.fits_usize))

write_some :
    (buf : List ℕ) (p : Pipe) (n : ℕ)
    → IsValid p
    → n ≡ min (length p.bytes - p.data_len) (length buf)
    → 0 < n
    → write buf p ≡ ok (n, after_write n buf p)
unfolding write writable_bytes
write_some buf p n v n_eq pos =
    let len = length p.bytes in
    let inside : p.write_pos < len =
      rw (v.write_behind (omega arith)) (mod-lt (p.read_pos + p.data_len) (omega arith)) in
    let end_eq : usize_sub len p.write_pos ≡ len - p.write_pos =
      usize_sub_below len p.write_pos (omega arith) (omega (arith, v.fits_usize)) in
    let more_eq : usize (p.data_len + n) ≡ p.data_len + n =
      usize_below (p.data_len + n) (omega (arith, v.within, v.fits_usize)) in
    let to_eq : usize (p.write_pos + n) ≡ p.write_pos + n =
      usize_below (p.write_pos + n) (omega (arith, v.fits_usize)) in
    let free_eq : usize_sub len p.data_len ≡ len - p.data_len =
      usize_sub_below len p.data_len v.within (omega (arith, v.fits_usize)) in
    elim (Bool-cases (ltb (len - p.write_pos) n)) [
      | inl wraps ↦
          let room = len - p.write_pos in
          let whole : room - 0 ≡ room = omega arith in
          let head : n - room - 0 ≡ n - room = omega arith in
          rw
            (
              free_eq,
              ← n_eq,
              ne→==_false n 0 (omega arith),
              end_eq,
              more_eq,
              wraps,
              le→leb 0 room (omega arith),
              le→leb room (length buf) (ground arith),
              whole,
              le→leb p.write_pos len (omega arith),
              le→leb len len (omega arith),
              piece_length 0 room buf (ground arith),
              ==_refl room,
              le→leb room n (ground arith),
              le→leb n (length buf) (omega arith),
              le→leb 0 (n - room) (omega arith),
              length-overlay,
              le→leb (n - room) len (omega arith),
              piece_length room (n - room) buf (ground arith),
              head,
              ==_refl (n - room),
            )
            (ap
              (λ (pos : ℕ). ok (
                n,
                record p {
                  bytes =
                      overlay 0 (take (n - room) (drop room buf))
                        (overlay p.write_pos (take room (drop 0 buf)) p.bytes);
                  write_pos = pos;
                  data_len = p.data_len + n;
                },
              ))
              {x = n - room}
              (let past : p.write_pos + n - len ≡ n - room = ground arith in
                sym (wrap_above (p.write_pos + n) len (ground arith) (omega arith) ∙ past)))
      | inr fits ↦
          let count : p.write_pos + n - p.write_pos ≡ n = omega arith in
          let whole : n - 0 ≡ n = omega arith in
          rw
            (
              free_eq,
              ← n_eq,
              ne→==_false n 0 (omega arith),
              end_eq,
              more_eq,
              fits,
              to_eq,
              le→leb 0 n (omega arith),
              le→leb n (length buf) (omega arith),
              whole,
              le→leb p.write_pos (p.write_pos + n) (omega arith),
              le→leb (p.write_pos + n) len (ground arith),
              count,
              piece_length 0 n buf (omega arith),
              ==_refl n,
            )
            refl
    ]

write_none :
    (buf : List ℕ) (p : Pipe) → min (writable_bytes p) (length buf) ≡ 0 → write buf p ≡ ok (0, p)
unfolding write
write_none buf p e = rw e

-- What a write takes and leaves.
pub record Writes (buf : List ℕ) (p : Pipe) (result : Run (ℕ × Pipe)) : Type 0 where
  pub after : Pipe
  pub returns : result ≡ ok (min (length p.bytes - p.data_len) (length buf), after)
  pub valid : IsValid after
  pub queue :
      contents after ≡ contents p ++ take (min (length p.bytes - p.data_len) (length buf)) buf
  pub same_room : length after.bytes ≡ length p.bytes
  pub same_readers : after.readers ≡ p.readers
  pub same_writers : after.writers ≡ p.writers
  pub same_closed : after.closed ≡ p.closed

-- Two positions less than a turn apart are apart on the ring.
mod_apart : (x y n : ℕ) → x < y → y < x + n → y < n + n → x % n ≢ y % n
mod_apart x y n lo near hi e = elim (Bool-cases (ltb y n)) [
  | inl low ↦ absurd (ground (arith, wrap_below x n, wrap_below y n))
  | inr high ↦ elim (Bool-cases (ltb x n)) [
    | inl low ↦ absurd (ground (arith, wrap_below x n, wrap_above y n))
    | inr both ↦ absurd (ground (arith, wrap_above x n, wrap_above y n))
  ]
]

-- The queue behind a write.
queue_after :
    (buf : List ℕ) (p : Pipe) (n : ℕ)
    → IsValid p
    → p.data_len + n ≤ length p.bytes
    → n ≤ length buf
    → 0 < n
    → contents (after_write n buf p) ≡ contents p ++ take n buf
queue_after buf p n v room given pos =
    tabulate_ext (p.data_len + n) _ item
      (λ j l. ap (λ (t : ℕ). get_or after ((p.read_pos + j) % t) 0) same_len)
    ∙ sym (tabulate-append p.data_len n (p.data_len + n) item refl)
    ∙ ap₂ ◌++◌ (tabulate_ext p.data_len item _ old) (
        tabulate_ext n (λ j. item (p.data_len + j)) (λ j. get_or buf (0 + j) 0) new
        ∙ sym (take-drop-tabulate 0 n buf 0 (omega arith)))
  where
    after : List ℕ
    after = ringed p.write_pos n buf p.bytes

    item : ℕ → ℕ
    item j = get_or after ((p.read_pos + j) % length p.bytes) 0

    same_len : length after ≡ length p.bytes
    same_len = length-ringed p.write_pos n buf p.bytes

    behind :
        (k : ℕ)
        → (p.write_pos + k) % length p.bytes ≡ (p.read_pos + (p.data_len + k)) % length p.bytes
    behind k =
        ap (λ (t : ℕ). (t + k) % length p.bytes) (v.write_behind (omega arith))
        ∙ shifted p.read_pos p.data_len k (length p.bytes)

    inside : p.write_pos < length p.bytes
    inside = rw (v.write_behind (omega arith)) (mod-lt (p.read_pos + p.data_len) (omega arith))

    old : (j : ℕ) → j < p.data_len → item j ≡ get_or p.bytes ((p.read_pos + j) % length p.bytes) 0
    old j l =
        ringed_old p.write_pos n buf p.bytes inside (omega arith) given
          ((p.read_pos + j) % length p.bytes) (mod-lt (p.read_pos + j) (omega arith))
          λ k g e.
            mod_apart (p.read_pos + j) (p.read_pos + (p.data_len + k)) (length p.bytes)
              (omega arith) (omega arith) (omega (arith, v.read_inside (omega arith)))
              (e ∙ behind k)

    new : (j : ℕ) → j < n → item (p.data_len + j) ≡ get_or buf (0 + j) 0
    new j l =
        ap (λ (t : ℕ). get_or after t 0) (sym (behind j))
        ∙ ringed_new p.write_pos n buf p.bytes inside (omega arith) given j l
        ∙ ap (λ (t : ℕ). get_or buf t 0) {x = j} {y = 0 + j} (omega arith)

-- A write to a valid pipe appends the first `min(free, buf.len())` bytes of the buffer to the queue
-- and returns their number; the pipe stays valid, with its size, counts and flag. It does not
-- panic.
pub write-Writes : (buf : List ℕ) (p : Pipe) → IsValid p → Writes buf p (write buf p)
write-Writes buf p v = elim (Bool-cases (min (length p.bytes - p.data_len) (length buf) == 0)) [
  | inl nothing ↦
      let e : min (length p.bytes - p.data_len) (length buf) ≡ 0 = (==_iff _ 0).0 nothing in
      record {
        after = p;
        returns = rw e (write_none buf p (rw (free_room p v) e));
        valid = v;
        queue = rw e (sym (append-nil (contents p)));
        same_room = refl;
        same_readers = refl;
        same_writers = refl;
        same_closed = refl;
      }
  | inr something ↦
      let n = min (length p.bytes - p.data_len) (length buf) in
      let pos : 0 < n = ground arith in
      let len_eq = length-ringed p.write_pos n buf p.bytes in
      record {
        after = after_write n buf p;
        returns = write_some buf p n v refl pos;
        valid = record {
          within = rw len_eq (omega (arith, v.within));
          read_inside = λ h. rw len_eq (v.read_inside (rw len_eq at h));
          write_behind = λ h. rw len_eq (
              ap (λ (t : ℕ). (t + n) % length p.bytes) (v.write_behind (omega arith))
              ∙ shifted p.read_pos p.data_len n (length p.bytes));
          fits_usize = rw len_eq v.fits_usize;
        };
        queue = queue_after buf p n v (omega (arith, v.within)) (omega arith) pos;
        same_room = len_eq;
        same_readers = refl;
        same_writers = refl;
        same_closed = refl;
      }
]
