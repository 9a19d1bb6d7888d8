-- ===== src/Pipe/Queue.antt =====
-- The ring buffer of a pipe is a bounded queue of bytes.
pub mod Fifo
pub mod Ring
pub mod Write
use campix.Base.{
  ℕ, ◌+◌, ◌-◌, ◌*◌, ◌%◌, ◌^◌, ◌≤◌, ◌<◌, min, ◌≡◌, refl, sym, ap, ap₂, ◌∙◌, inl, inr, Bool, true,
  false, List, arith, ltb, leb, ◌==◌, ◌&&◌, if◌then◌else◌, length, get_or, take, drop, ◌++◌,
  tabulate, Run, ok, Bool-cases, tabulate_ext, tabulate-append, take-drop-tabulate, take-tabulate,
  drop-tabulate, le→leb, lt→ltb, le→ltb_false, ne→==_false, ==_iff, [],
}
use native.Mathlib.Nat.{mod-lt, mod-eq_of_lt, mod-add-mod}
use campix.Pipe.{Pipe, usize, usize_sub, range, readable_bytes, read}

-- The positions lie in the buffer, the write position behind the data.
pub record IsValid (p : Pipe) : Type 0 where
  pub within : p.data_len ≤ length p.bytes
  pub read_inside : 0 < length p.bytes → p.read_pos < length p.bytes
  pub write_behind : 0 < length p.bytes → p.write_pos ≡ (p.read_pos + p.data_len) % length p.bytes
  pub fits_usize : length p.bytes < 2 ^ 63

-- The bytes in the pipe, oldest first.
abbrev pub contents : Pipe → List ℕ
contents p = tabulate p.data_len (λ j. get_or p.bytes ((p.read_pos + j) % length p.bytes) 0)

pub wrap_below : (x n : ℕ) → x < n → x % n ≡ x
wrap_below x n h = mod-eq_of_lt h

pub wrap_above : (x n : ℕ) → n ≤ x → x < n + n → x % n ≡ x - n
wrap_above x n h g = grind arith

pub usize_below : (x : ℕ) → x < 2 ^ 64 → usize x ≡ x
usize_below x h = mod-eq_of_lt h

pub usize_sub_below : (a b : ℕ) → b ≤ a → a < 2 ^ 64 → usize_sub a b ≡ a - b
usize_sub_below a b h g = omega arith

-- The ring read from a position on, in one piece or in two.
module _ (xs : List ℕ) (r n : ℕ) (inside : r < length xs) where
  abbrev ring : ℕ → ℕ
  ring j = get_or xs ((r + j) % length xs) 0

  one_piece : r + n ≤ length xs → take n (drop r xs) ≡ tabulate n ring
  one_piece h =
      take-drop-tabulate r n xs 0 h
      ∙ tabulate_ext n _ _ λ j l. rw (wrap_below (r + j) (length xs) (omega arith))

  two_pieces :
      length xs ≤ r + n
      → n ≤ length xs
      → take (length xs - r) (drop r xs) ++ take (r + n - length xs) (drop 0 xs) ≡ tabulate n ring
  two_pieces h g =
      ap₂ ◌++◌
        (take-drop-tabulate r (length xs - r) xs 0 (omega arith)
          ∙ tabulate_ext (length xs - r) _ ring
              λ j l. rw (wrap_below (r + j) (length xs) (omega arith)))
        (take-drop-tabulate 0 (r + n - length xs) xs 0 (omega arith)
          ∙ tabulate_ext (r + n - length xs) _ (λ j. ring (length xs - r + j))
              λ j l.
                let e : r + (length xs - r + j) ≡ length xs + j = omega arith in
                let f : length xs + j - length xs ≡ 0 + j = omega arith in
                rw (e, wrap_above (length xs + j) (length xs) (omega arith) (omega arith), f))
      ∙ tabulate-append (length xs - r) (r + n - length xs) n ring (omega arith)

-- A read takes `min data_len room` bytes from the front.
abbrev after_read : ℕ → Pipe → Pipe
after_read n p = record p {
  read_pos = (p.read_pos + n) % length p.bytes;
  data_len = p.data_len - n;
}

read_some :
    (room : ℕ) (p : Pipe)
    → IsValid p
    → let n = min p.data_len room in
      0 < n
      → read room p
        ≡ ok
            (tabulate n (λ j. get_or p.bytes ((p.read_pos + j) % length p.bytes) 0), after_read n p)
unfolding read readable_bytes
read_some room p v pos =
    let n = min p.data_len room in
    let len = length p.bytes in
    let inside : p.read_pos < len = v.read_inside (omega (arith, v.within)) in
    let end_eq : usize_sub len p.read_pos ≡ len - p.read_pos =
      usize_sub_below len p.read_pos (omega arith) (omega (arith, v.fits_usize)) in
    let left_eq : usize_sub p.data_len n ≡ p.data_len - n =
      usize_sub_below p.data_len n (omega arith) (omega (arith, v.within, v.fits_usize)) in
    let to_eq : usize (p.read_pos + n) ≡ p.read_pos + n =
      usize_below (p.read_pos + n) (omega (arith, v.within, v.fits_usize)) in
    elim (Bool-cases (ltb (len - p.read_pos) n)) [
      | inl wraps ↦
          let back : n - (len - p.read_pos) ≡ p.read_pos + n - len = ground arith in
          let none_less : p.read_pos + n - len - 0 ≡ p.read_pos + n - len = omega arith in
          rw
            (
              ne→==_false n 0 (omega arith),
              end_eq,
              left_eq,
              wraps,
              le→leb p.read_pos len (omega arith),
              le→leb len len (omega arith),
              back,
              le→leb 0 (p.read_pos + n - len) (omega arith),
              le→leb (p.read_pos + n - len) len (omega (arith, v.within)),
              none_less,
            )
            (ap₂
              (λ (bs : List ℕ) (pos : ℕ).
                ok (bs, record p { read_pos = pos; data_len = p.data_len - n }))
              (two_pieces p.bytes p.read_pos n inside (ground arith) (omega (arith, v.within)))
              (sym (wrap_above (p.read_pos + n) len (ground arith) (omega (arith, v.within)))))
      | inr fits ↦
          let count : p.read_pos + n - p.read_pos ≡ n = omega arith in
          rw
            (
              ne→==_false n 0 (omega arith),
              end_eq,
              left_eq,
              fits,
              to_eq,
              le→leb p.read_pos (p.read_pos + n) (omega arith),
              le→leb (p.read_pos + n) len (ground arith),
              count,
            )
            (ap (λ (bs : List ℕ). ok (bs, after_read n p))
              (one_piece p.bytes p.read_pos n inside (ground arith)))
    ]

read_none : (room : ℕ) (p : Pipe) → (min p.data_len room == 0) ≡ true → read room p ≡ ok ([], p)
unfolding read readable_bytes
read_none room p e = rw e

-- What a read returns and leaves.
pub record Reads (room : ℕ) (p : Pipe) (result : Run (List ℕ × Pipe)) : Type 0 where
  pub after : Pipe
  pub returns : result ≡ ok (take (min p.data_len room) (contents p), after)
  pub valid : IsValid after
  pub rest : contents after ≡ drop (min p.data_len room) (contents p)
  pub same_bytes : after.bytes ≡ p.bytes
  pub same_readers : after.readers ≡ p.readers
  pub same_writers : after.writers ≡ p.writers
  pub same_closed : after.closed ≡ p.closed

pub shifted : (r n j len : ℕ) → ((r + n) % len + j) % len ≡ (r + (n + j)) % len
shifted r n j len = mod-add-mod (r + n) len j ∙ ap (λ (t : ℕ). t % len) (omega arith)

-- A read from a valid pipe returns its `min(data_len, buf.len())` oldest bytes and leaves the
-- others, in order, in a valid pipe whose counts and flag are unchanged. It does not panic.
pub read-Reads : (room : ℕ) (p : Pipe) → IsValid p → Reads room p (read room p)
read-Reads room p v = elim (Bool-cases (min p.data_len room == 0)) [
  | inl none_read ↦
      let e : min p.data_len room ≡ 0 = (==_iff _ 0).0 none_read in
      record {
        after = p;
        returns = rw (e, read_none room p none_read);
        valid = v;
        rest = rw e;
        same_bytes = refl;
        same_readers = refl;
        same_writers = refl;
        same_closed = refl;
      }
  | inr some_read ↦
      let n = min p.data_len room in
      let f : ℕ → ℕ = λ j. get_or p.bytes ((p.read_pos + j) % length p.bytes) 0 in
      let pos : 0 < n = ground arith in
      record {
        after = after_read n p;
        returns =
            read_some room p v pos
            ∙ ap (λ (bs : List ℕ). ok (bs, after_read n p))
                (sym (take-tabulate n p.data_len f (omega arith)));
        valid = record {
          within = omega (arith, v.within);
          read_inside = λ h. mod-lt (p.read_pos + n) h;
          write_behind = λ h.
              v.write_behind h
              ∙ sym (
                  shifted p.read_pos n (p.data_len - n) (length p.bytes)
                  ∙ ap (λ (t : ℕ). (p.read_pos + t) % length p.bytes) (omega arith));
          fits_usize = v.fits_usize;
        };
        rest =
            tabulate_ext (p.data_len - n) _ (λ j. f (n + j))
              (λ j l. rw (shifted p.read_pos n j (length p.bytes)))
            ∙ sym (drop-tabulate n p.data_len (p.data_len - n) f (omega arith));
        same_bytes = refl;
        same_readers = refl;
        same_writers = refl;
        same_closed = refl;
      }
]
