-- ===== src/PipeFs/Tests.antt =====
-- A file system with one pipe, of number 5: the handle 4096 is its read end, 8192 its write end.
use campix.Base.{ℕ, ◌<◌, ◌≡◌, refl, true, false, [], ◌∷◌, arith, ◌==◌, if◌then◌else◌}
use campix.Pipe.{Pipe}
use campix.Pipe.Queue
use campix.PipeFs.{
  PipeMode, read_mode, write_mode, pipefs_write, PipeFs, open_mode_write, lists, fopen, fclose,
  fread, fwrite,
}
use campix.PipeFs.Counts.{IsCounted, count, users}
use campix.PipeFs.Opening.{fopen-IsCounted}
use campix.PipeFs.Closing.{Closes, fclose-IsCounted}
use campix.PipeFs.Transfer.{Freads, Fwrites, fread-Freads, fwrite-Fwrites}

-- Four bytes, of which one is used.
abbrev pipe : (ends : ℕ) → Pipe
pipe ends = record {
  bytes = 9 ∷ 0 ∷ 0 ∷ 0 ∷ [];
  data_len = 1;
  write_pos = 1;
  read_pos = 0;
  created_at = 0;
  modified_at = 0;
  readers = ends;
  writers = ends;
  closed = false;
}

pipe-IsValid : (ends : ℕ) → Queue.IsValid (pipe ends)
pipe-IsValid ends = record {
  within = omega arith;
  read_inside = λ h. omega arith;
  write_behind = λ h. refl;
  fits_usize = omega arith;
}

abbrev store : ℕ → Pipe
store id = pipe (if id == 5 then 1 else 0)

abbrev open_pipe : PipeFs
open_pipe = record {
  os_id = 3;
  pipes = 5 ∷ [];
  store = store;
  handles =
      (4096, record { mode = read_mode; pipe_id = 5 })
      ∷ (8192, record { mode = write_mode; pipe_id = 5 })
      ∷ [];
}

open_pipe-IsCounted : IsCounted open_pipe
open_pipe-IsCounted = record { counted = counted; listed = listed; few = omega arith }
  where
    counted : (mode : PipeMode) (id : ℕ) → users mode (store id) ≡ count mode id open_pipe.handles
    counted read_mode id = ground arith
    counted write_mode id = ground arith

    listed :
        (mode : PipeMode) (id : ℕ)
        → 0 < count mode id open_pipe.handles
        → lists open_pipe.pipes id ≡ true
    listed read_mode id h = ground arith
    listed write_mode id h = ground arith

fopen-IsCounted_example : IsCounted (fopen 12288 3 (pipefs_write 5) open_mode_write open_pipe).1
fopen-IsCounted_example =
    fopen-IsCounted 12288 3 (pipefs_write 5) open_mode_write open_pipe open_pipe-IsCounted
      (omega arith)

fclose-IsCounted_example :
    IsCounted (fclose 4096 open_pipe).1 × Closes 4096 open_pipe (fclose 4096 open_pipe)
fclose-IsCounted_example = fclose-IsCounted 4096 open_pipe open_pipe-IsCounted

fread-Freads_example : Freads 4096 2 open_pipe (fread 4096 2 open_pipe)
fread-Freads_example = fread-Freads 4096 2 open_pipe open_pipe-IsCounted (λ id. pipe-IsValid _)

fwrite-Fwrites_example : Fwrites 8192 (1 ∷ []) open_pipe (fwrite 8192 (1 ∷ []) open_pipe)
fwrite-Fwrites_example =
    fwrite-Fwrites 8192 (1 ∷ []) open_pipe open_pipe-IsCounted (λ id. pipe-IsValid _)
