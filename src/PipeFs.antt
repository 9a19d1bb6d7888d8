-- ===== src/PipeFs.antt =====
-- The handles of `PipeFs`, src/drivers/fs/virt/pipefs.rs: opening, closing, reading and writing the
-- two ends of a pipe. The pipes are shared by the file system and its handles, so they stand in a
-- store by pipe id; `pipes` has the ids that the file system still lists. A handle is an address
-- that the kernel's allocator returned.
pub mod Closing
pub mod Counts
pub mod Opening
pub mod Transfer
mod Tests
use campix.Base.{
  ℕ, ◌+◌, ◌^◌, ◌%◌, bit_and, Bool, true, false, ◌&&◌, ◌||◌, not, Option, none, some, List, [], ◌∷◌,
  ◌==◌, if◌then◌else◌, Run, ok, ◌>>=◌,
}
use campix.Vfs.Error.{
  Result, done, fail, file_system_mismatch, invalid_open_mode, file_already_exists, path_not_found,
  not_file, bad_handle, would_block, action_not_allowed, broken_pipe,
}
use campix.Pipe
use campix.Pipe.{Pipe, usize, usize_sub}

pub data PipeMode : Type 0 where
  read_mode : PipeMode
  write_mode : PipeMode

pub data SpecificFileData : Type 0 where
  pipefs_root : SpecificFileData
  pipefs_dir : ℕ → SpecificFileData
  pipefs_read : ℕ → SpecificFileData
  pipefs_write : ℕ → SpecificFileData

pub record PipeFsHandle : Type 0 where
  pub mode : PipeMode
  pub pipe_id : ℕ

pub record PipeFs : Type 0 where
  pub os_id : ℕ
  pub pipes : List ℕ
  pub store : ℕ → Pipe
  pub handles : List (ℕ × PipeFsHandle)

abbrev pub open_mode_read : ℕ
open_mode_read = 1

abbrev pub open_mode_write : ℕ
open_mode_write = 2

abbrev pub open_mode_append : ℕ
open_mode_append = 4

abbrev pub open_mode_create : ℕ
open_mode_create = 16

abbrev pub open_mode_fail_if_exists : ℕ
open_mode_fail_if_exists = 32

-- `mode & flag != 0`
abbrev pub has_flag : ℕ → ℕ → Bool
has_flag mode flag = not (bit_and mode flag == 0)

abbrev pub lists : List ℕ → ℕ → Bool
lists [] id = false
lists (x ∷ xs) id = (x == id) || lists xs id

abbrev pub unlist : List ℕ → ℕ → List ℕ
unlist [] id = []
unlist (x ∷ xs) id = let rest = unlist xs id in if x == id then rest else x ∷ rest

abbrev pub get_handle_data : List (ℕ × PipeFsHandle) → ℕ → Option PipeFsHandle
get_handle_data [] handle = none
get_handle_data ((a, h) ∷ hs) handle = if a == handle then some h else get_handle_data hs handle

abbrev pub dealloc_file_handle : List (ℕ × PipeFsHandle) → ℕ → List (ℕ × PipeFsHandle)
dealloc_file_handle [] handle = []
dealloc_file_handle ((a, h) ∷ hs) handle =
    let rest = dealloc_file_handle hs handle in if a == handle then hs else (a, h) ∷ rest

abbrev pub put : ℕ → Pipe → (ℕ → Pipe) → ℕ → Pipe
put id p store other = if id == other then p else store other

abbrev pub one_more : PipeMode → Pipe → Pipe
one_more read_mode p = record p { readers = usize (p.readers + 1) }
one_more write_mode p = record p { writers = usize (p.writers + 1) }

-- The end of a pipe is opened, with the handle at `address`.
open_end : (address : ℕ) → PipeMode → ℕ → PipeFs → Result ℕ × PipeFs
open_end address mode id s =
    if not (lists s.pipes id)
    then (fail path_not_found, s)
    else if (s.store id).closed
    then (fail path_not_found, s)
    else (
      done address,
      record s {
        store = put id (one_more mode (s.store id)) s.store;
        handles = (address, record { mode = mode; pipe_id = id }) ∷ s.handles;
      },
    )

pub fopen : (address : ℕ) → (file_fs : ℕ) → SpecificFileData → ℕ → PipeFs → Result ℕ × PipeFs
unfolding open_end
fopen address file_fs file mode s =
    if not (file_fs == s.os_id) then (fail file_system_mismatch, s) else elim file [
      | pipefs_read id ↦
          if not (has_flag mode open_mode_read)
            || (has_flag mode open_mode_write
                || (has_flag mode open_mode_append || has_flag mode open_mode_create))
          then (fail invalid_open_mode, s)
          else if has_flag mode open_mode_fail_if_exists
          then (fail file_already_exists, s)
          else open_end address read_mode id s
      | pipefs_write id ↦
          if has_flag mode open_mode_read
            || (not (has_flag mode open_mode_write)
                || (has_flag mode open_mode_append || has_flag mode open_mode_create))
          then (fail invalid_open_mode, s)
          else if has_flag mode open_mode_fail_if_exists
          then (fail file_already_exists, s)
          else open_end address write_mode id s
      | _ ↦ (fail not_file, s)
    ]

-- The pipe after one of its ends is closed.
abbrev pub one_less : PipeMode → Pipe → Pipe
one_less read_mode p =
    let left = usize_sub p.readers 1 in
    record p { readers = left; closed = if left == 0 then true else p.closed }
one_less write_mode p =
    let left = usize_sub p.writers 1 in
    record p { writers = left; closed = if left == 0 then true else p.closed }

pub fclose : (handle : ℕ) → PipeFs → Result (Unit {0}) × PipeFs
fclose handle s = elim (get_handle_data s.handles handle) [
  | none ↦ (fail bad_handle, s)
  | some h ↦
      let p = one_less h.mode (s.store h.pipe_id) in
      (
        done tt,
        record s {
          store = put h.pipe_id p s.store;
          pipes =
              if (p.readers == 0) && (p.writers == 0) then unlist s.pipes h.pipe_id else s.pipes;
          handles = dealloc_file_handle s.handles handle;
        },
      )
]

-- The bytes that `fread` puts into a buffer of length `room`.
pub fread : (handle room : ℕ) → PipeFs → Run (Result (List ℕ) × PipeFs)
fread handle room s = elim (get_handle_data s.handles handle) [
  | none ↦ ok (fail bad_handle, s)
  | some h ↦ elim h.mode [
    | write_mode ↦ ok (fail action_not_allowed, s)
    | read_mode ↦
        let p = s.store h.pipe_id in
        if Pipe.is_empty p
        then (if p.closed then ok (done [], s) else ok (fail would_block, s))
        else (do
          (bytes, p') ← Pipe.read room p
          ok (done bytes, record s { store = put h.pipe_id p' s.store }))
  ]
]

pub fwrite : (handle : ℕ) → List ℕ → PipeFs → Run (Result ℕ × PipeFs)
fwrite handle buf s = elim (get_handle_data s.handles handle) [
  | none ↦ ok (fail bad_handle, s)
  | some h ↦ elim h.mode [
    | read_mode ↦ ok (fail action_not_allowed, s)
    | write_mode ↦
        let p = s.store h.pipe_id in
        if p.readers == 0
        then ok (fail broken_pipe, s)
        else if Pipe.is_full p
        then ok (fail would_block, s)
        else (do
          (n, p') ← Pipe.write buf p
          ok (done n, record s { store = put h.pipe_id p' s.store }))
  ]
]
