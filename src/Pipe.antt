-- ===== src/Pipe.antt =====
-- `Pipe` of src/drivers/fs/virt/pipefs.rs: a ring buffer with counts of its open ends.
-- Numbers are `usize`; where the source can overflow, the wrap of a release build is written out.
-- A slice out of range and a copy between lengths that differ panic.
pub mod Queue
mod Tests
use campix.Base.{
  ℕ, ◌+◌, ◌-◌, ◌%◌, ◌^◌, ◌≤◌, min, Bool, false, List, ltb, leb, ◌==◌, ◌&&◌, if◌then◌else◌, length,
  take, drop, replicate, overlay, ◌++◌, [], Run, ok, panic, ◌>>=◌,
}

pub record Pipe : Type 0 where
  pub bytes : List ℕ
  pub data_len : ℕ
  pub write_pos : ℕ
  pub read_pos : ℕ
  pub created_at : ℕ
  pub modified_at : ℕ
  pub readers : ℕ
  pub writers : ℕ
  pub closed : Bool

pub new_anonymous : ℕ → Pipe
new_anonymous buf_size = record {
  bytes = replicate buf_size 0;
  data_len = 0;
  write_pos = 0;
  read_pos = 0;
  created_at = 0;
  modified_at = 0;
  readers = 0;
  writers = 0;
  closed = false;
}

pub readable_bytes : Pipe → ℕ
readable_bytes p = p.data_len

abbrev pub usize : ℕ → ℕ
usize n = n % 2 ^ 64

abbrev pub usize_sub : ℕ → ℕ → ℕ
usize_sub a b = (a + 2 ^ 64 - b) % 2 ^ 64

pub writable_bytes : Pipe → ℕ
writable_bytes p = usize_sub (length p.bytes) p.data_len

unfoldable pub is_full : Pipe → Bool
is_full p = leb (length p.bytes) p.data_len

unfoldable pub is_empty : Pipe → Bool
is_empty p = p.data_len == 0

-- `&xs[from..to]`
abbrev pub range : ℕ → ℕ → List ℕ → Run (List ℕ)
range from to xs =
    if leb from to && leb to (length xs) then ok (take (to - from) (drop from xs)) else panic

-- `dst[from..to].copy_from_slice(src)`
abbrev pub copy : ℕ → ℕ → List ℕ → List ℕ → Run (List ℕ)
copy from to src dst =
    if leb from to && leb to (length dst) && (length src == to - from)
    then ok (overlay from src dst)
    else panic

-- The bytes read, in order, with the pipe that is left; `room` is the length of the buffer, whose
-- slices all lie within `to_read`.
pub read : ℕ → Pipe → Run (List ℕ × Pipe)
unfolding readable_bytes
read room p =
    let to_read = min (readable_bytes p) room in
    if to_read == 0
    then ok ([], p)
    else (let len = length p.bytes in
        let to_end = usize_sub len p.read_pos in
        let left = usize_sub p.data_len to_read in
        if ltb to_end to_read
        then (do
          front ← range p.read_pos len p.bytes
          back ← range 0 (to_read - to_end) p.bytes
          ok (front ++ back, record p { read_pos = to_read - to_end; data_len = left }))
        else (do
          front ← range p.read_pos (usize (p.read_pos + to_read)) p.bytes
          ok (front, record p { read_pos = usize (p.read_pos + to_read) % len; data_len = left })))

-- The number of bytes taken from the buffer, with the pipe that holds them.
pub write : List ℕ → Pipe → Run (ℕ × Pipe)
unfolding writable_bytes
write buf p =
    let to_write = min (writable_bytes p) (length buf) in
    if to_write == 0
    then ok (0, p)
    else (let len = length p.bytes in
        let to_end = usize_sub len p.write_pos in
        let more = usize (p.data_len + to_write) in
        if ltb to_end to_write
        then (do
          front ← range 0 to_end buf
          bytes ← copy p.write_pos len front p.bytes
          back ← range to_end to_write buf
          bytes' ← copy 0 (to_write - to_end) back bytes
          ok (
            to_write,
            record p { bytes = bytes'; write_pos = to_write - to_end; data_len = more },
          ))
        else (do
          front ← range 0 to_write buf
          bytes ← copy p.write_pos (usize (p.write_pos + to_write)) front p.bytes
          ok (
            to_write,
            record p {
              bytes = bytes;
              write_pos = usize (p.write_pos + to_write) % len;
              data_len = more;
            },
          )))
