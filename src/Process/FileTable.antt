-- ===== src/Process/FileTable.antt =====
-- `FileTable` of src/process/io/file_table.rs: the descriptors of a process. `Fd` is a file system
-- with a handle. The list `available_fds` has the end of the vector at its head.
pub mod Laws
pub mod Groups
mod Tests
use campix.Base.{
  ℕ, zero, suc, ◌+◌, ◌≤◌, Option, none, some, List, [], ◌∷◌, ◌++◌, ltb, leb, if◌then◌else◌, length,
  get_elem?, get_or, set, replicate, Run, ok, panic, ◌>>=◌,
}

abbrev pub max_files : ℕ
max_files = 4096

pub record FileTable (Fd : Type 0) : Type 0 where
  pub files : List (Option Fd)
  pub max_allocated_fd : ℕ
  pub available_fds : List ℕ

module _ {Fd : Type 0} where
  pub new : FileTable Fd
  new = record { files = replicate max_files none; max_allocated_fd = 0; available_fds = [] }

  pub alloc_fd : FileTable Fd → Run (Option ℕ × FileTable Fd)
  alloc_fd t = elim t.available_fds [
    | fd ∷ rest ↦
        if ltb fd (length t.files) then ok (some fd, record t { available_fds = rest }) else panic
    | [] ↦
        if ltb t.max_allocated_fd max_files
        then (if ltb t.max_allocated_fd (length t.files)
            then ok
                (some t.max_allocated_fd, record t { max_allocated_fd = t.max_allocated_fd + 1 })
            else panic)
        else ok (none, t)
  ]

  pub free_fd : ℕ → FileTable Fd → Option Fd × FileTable Fd
  free_fd idx t = if leb (length t.files) idx then (none, t) else (
    get_or t.files idx none,
    record t { available_fds = idx ∷ t.available_fds; files = set t.files idx none },
  )

  -- `for idx in fds { self.free_fd(idx); }`
  pub free_all : List ℕ → FileTable Fd → FileTable Fd
  unfolding free_fd
  free_all [] t = t
  free_all (idx ∷ fds) t = free_all fds (free_fd idx t).1

  -- The loop of `alloc_fds`, with the descriptors that it has so far.
  pub alloc_loop : ℕ → List ℕ → FileTable Fd → Run (Option (List ℕ) × FileTable Fd)
  unfolding alloc_fd free_all
  alloc_loop zero fds t = ok (some fds, t)
  alloc_loop (suc count) fds t = do
    (given, t') ← alloc_fd t
    elim given [
      | some fd ↦ alloc_loop count (fds ++ fd ∷ []) t'
      | none ↦ ok (none, free_all fds t')
    ]

  pub alloc_fds : ℕ → FileTable Fd → Run (Option (List ℕ) × FileTable Fd)
  unfolding alloc_loop
  alloc_fds count t = alloc_loop count [] t

  pub get_fd : ℕ → FileTable Fd → Option (Option Fd)
  get_fd idx t = get_elem? t.files idx

  -- `ProcessIOContext::new_with_stdio` of src/process/io/context.rs: the table of a new process.
  pub new_with_stdio : (stdin stdout stderr : Fd) → FileTable Fd
  unfolding new
  new_with_stdio stdin stdout stderr = record new {
    max_allocated_fd = 3;
    files =
        set (set (set (replicate max_files none) 0 (some stdin)) 1 (some stdout)) 2 (some stderr);
  }
