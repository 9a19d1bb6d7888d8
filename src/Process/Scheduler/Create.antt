-- ===== src/Process/Scheduler/Create.antt =====
-- `create_process` of src/process/scheduler.rs.
use campix.Base.{ℕ, ◌+◌, Option, none, some, [], ◌∷◌, ◌++◌, bit_or, Run, ok, panic}
use campix.Vfs.Error.{Result, done, fail}
use campix.Paging.{page_present, page_rw, page_accessed}
use campix.Process.AddressSpace.{proc_kernel_stack_top}
use campix.Process.Stack.{PageMapper, ThreadStack, ProcessAllocatedCode, new_with_pages}
use campix.Process.Scheduler.{
  insert, init, ProcThreadInfo, ThreadState, Scheduler, set_process, set_thread, get_next_pid,
}

-- `Pipe::create` of src/drivers/fs/virt/pipefs.rs: the reading and the writing end of a new pipe.
pub record PipeMaker : Type 1 where
  pub File : Type 0
  pub State : Type 0
  pub create : State → Result (File × File) × State

module _ (M : PageMapper) where
  pub record CreateProcessOptions : Type 0 where
    pub page_table : M.State
    pub main_thread_state : ThreadState
    pub allocated_code : ProcessAllocatedCode
    pub main_thread_stack : ThreadStack

  -- `create_process` after it has its number and its streams. The allocator puts the kernel stack's
  -- page at `address`.
  unfoldable pub add_process : CreateProcessOptions → ℕ → ℕ → Scheduler M → Scheduler M
  add_process options address pid s =
      let process = s.allocated in
      let thread = s.allocated + 1 in
      let proct : ProcThreadInfo = record { thread = thread; pid = pid; tid = pid } in
      let kernel_stack =
        new_with_pages M proc_kernel_stack_top (address ∷ [])
          (bit_or (bit_or page_present page_rw) page_accessed) options.page_table in
      let with_process =
        set_process M process
          (record {
            pid = pid;
            page_table = kernel_stack.1;
            allocated_code = options.allocated_code;
            threads = thread ∷ [];
            zombie_threads = [];
            state = init;
          })
          s in
      let with_thread =
        set_thread M thread
          (record {
            pid = pid;
            tid = pid;
            process = process;
            stack = options.main_thread_stack;
            kernel_stack = kernel_stack.0;
            state = options.main_thread_state;
            running_cpu = none;
            task_state = init;
          })
          with_process in
      record with_thread {
        processes = insert pid process s.processes;
        threads = insert pid proct s.threads;
        task_queue = s.task_queue ++ proct ∷ [];
        allocated = s.allocated + 2;
      }

  module _ (P : PipeMaker) where
    -- `None => Pipe::create()?` and `Some(pipe) => pipe`
    abbrev pub stream : Option (P.File × P.File) → P.State → Result (P.File × P.File) × P.State
    stream none p = P.create p
    stream (some pipe) p = (done pipe, p)

    abbrev pub with_stderr :
        CreateProcessOptions
        → ℕ
        → ℕ
        → P.File
        → Result (P.File × P.File) × P.State
        → Scheduler M
        → Run (Result (ℕ × P.File × P.File) × P.State × Scheduler M)
    with_stderr options address pid stdout (done err, p) s =
        ok (done (pid, stdout, err.0), p, add_process options address pid s)
    with_stderr options address pid stdout (fail e, p) s = ok (fail e, p, s)

    abbrev pub with_stdout :
        CreateProcessOptions
        → ℕ
        → ℕ
        → Option (P.File × P.File)
        → Result (P.File × P.File) × P.State
        → Scheduler M
        → Run (Result (ℕ × P.File × P.File) × P.State × Scheduler M)
    with_stdout options address pid stderr_override (done out, p) s =
        with_stderr options address pid out.0 (stream stderr_override p) s
    with_stdout options address pid stderr_override (fail e, p) s = ok (fail e, p, s)

    unfoldable pub create_process :
        CreateProcessOptions
        → ℕ
        → (stdout_override stderr_override : Option (P.File × P.File)) → P.State
        → Scheduler M
        → Run (Result (ℕ × P.File × P.File) × P.State × Scheduler M)
    create_process options address stdout_override stderr_override p s = elim (get_next_pid M s) [
      | ok (pid, s') ↦ with_stdout options address pid stderr_override (stream stdout_override p) s'
      | panic ↦ panic
    ]
