-- ===== src/Process/Scheduler/Exit.antt =====
-- How threads and processes end, in src/process/scheduler.rs.
use campix.Base.{ℕ, ◌+◌, not, some, none, List, [], ◌∷◌, ◌++◌, ◌==◌, if◌then◌else◌, length, map}
use campix.Process.Stack.{PageMapper, free_stack, free_code}
use campix.Process.Scheduler.{
  remove, TaskState, zombie, Thread, Scheduler, set_process, set_thread, get_process, get_thread,
}

abbrev pub sigkill : ℕ
sigkill = 9

-- `retain(|t| t.tid != tid)`
abbrev pub retain : (ℕ → Thread) → ℕ → List ℕ → List ℕ
retain thread_at tid [] = []
retain thread_at tid (t ∷ ts) =
    let rest = retain thread_at tid ts in if not ((thread_at t).tid == tid) then t ∷ rest else rest

module _ (M : PageMapper) where
  -- `handle_exit_internal` but for what follows the last thread of a process.
  unfoldable pub exit_thread : ℕ → ℕ → ℕ → Scheduler M → Scheduler M
  exit_thread tid exit_code t s =
      let thread = s.thread_at t in
      let process = s.process_at thread.process in
      let freed = free_stack M (thread.stack, process.page_table) in
      set_thread M t
        (record thread { stack = freed.0; running_cpu = none; task_state = zombie exit_code })
        (set_process M thread.process
          (record process {
            page_table = freed.1;
            threads = retain s.thread_at tid process.threads;
            zombie_threads = process.zombie_threads ++ t ∷ [];
          })
          s)

  -- `handle_exit_internal::<false>`
  unfoldable pub exit_only : ℕ → ℕ → Scheduler M → Scheduler M
  exit_only tid exit_code s = elim (get_thread M tid s) [
    | some info ↦ exit_thread tid exit_code info.thread s
    | none ↦ s
  ]

  -- `for t in proc_tids`
  unfoldable pub exit_all : List ℕ → ℕ → Scheduler M → Scheduler M
  exit_all [] exit_code s = s
  exit_all (tid ∷ tids) exit_code s = exit_all tids exit_code (exit_only tid exit_code s)

  abbrev pub set_state : ℕ → TaskState → Scheduler M → Scheduler M
  set_state p state s = set_process M p (record (s.process_at p) { state = state }) s

  unfoldable pub free_process : ℕ → Scheduler M → Scheduler M
  free_process p s =
      let process = s.process_at p in
      let freed = free_code M (process.allocated_code, process.page_table) in
      set_process M p (record process { allocated_code = freed.0; page_table = freed.1 }) s

  -- What `handle_process_exit` does to the process it has taken out of `processes`.
  unfoldable pub exit_process : ℕ → ℕ → Scheduler M → Scheduler M
  exit_process p exit_code s =
      let freed = free_process p s in
      set_state p (zombie exit_code)
        (exit_all (map (λ t. (freed.thread_at t).tid) (freed.process_at p).threads) exit_code freed)

  unfoldable pub handle_process_exit : ℕ → ℕ → Scheduler M → Scheduler M
  handle_process_exit pid exit_code s = elim (get_process M pid s) [
    | some p ↦ exit_process p exit_code (record s { processes = remove pid s.processes })
    | none ↦ s
  ]

  unfoldable pub handle_exit : ℕ → ℕ → Scheduler M → Scheduler M
  handle_exit tid exit_code s = elim (get_thread M tid s) [
    | some info ↦
        let s' = exit_thread tid exit_code info.thread s in
        let process = s'.process_at (s.thread_at info.thread).process in
        let ended = handle_process_exit process.pid exit_code s' in
        if length process.threads == 0 then ended else s'
    | none ↦ s
  ]

  unfoldable pub remove_zombie : ℕ → Scheduler M → Scheduler M
  remove_zombie tid s = record s { threads = remove tid s.threads }

  -- The only system call interface is the one of Linux.
  unfoldable pub kill_process : ℕ → Scheduler M → Scheduler M
  kill_process pid s = elim (get_process M pid s) [
    | some p ↦ handle_process_exit pid (128 + sigkill) s
    | none ↦ s
  ]
