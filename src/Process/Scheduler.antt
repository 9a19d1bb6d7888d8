-- ===== src/Process/Scheduler.antt =====
-- `Scheduler` of src/process/scheduler.rs over the processes and threads of src/process/proc.rs. The
-- objects that an `Arc` shares are named by a number in the order of their allocation: `process_at`
-- and `thread_at` are what the numbers below `allocated` name. Locks are left out, and so are the
-- fields that the scheduler only passes on: names, users, the working directory, the file table and
-- the windows. A `BTreeMap` is an association list without an order that anything depends on.
pub mod Create
pub mod Exit
pub mod Schedule
pub mod Keys
pub mod Pids
pub mod Created
pub mod Ending
pub mod Ends
pub mod Freed
pub mod Live
pub mod Admission
pub mod Kept
pub mod Traces
pub mod Quiet
pub mod Turns
mod Tests
use campix.Base.{
  ℕ, zero, suc, ◌+◌, ◌%◌, ◌^◌, Bool, true, false, ◌||◌, not, Option, none, some, List, [], ◌∷◌,
  ◌==◌, if◌then◌else◌, length, Run, ok, panic,
}
use campix.Process.Stack.{PageMapper, ThreadStack, ProcessAllocatedCode}

-- `BTreeMap<u32, _>`
module _ {A : Type 0} where
  abbrev pub get : ℕ → List (ℕ × A) → Option A
  get k [] = none
  get k ((i, a) ∷ m) = let rest = get k m in if i == k then some a else rest

  abbrev pub remove : ℕ → List (ℕ × A) → List (ℕ × A)
  remove k [] = []
  remove k ((i, a) ∷ m) = let rest = remove k m in if i == k then rest else (i, a) ∷ rest

  abbrev pub insert : ℕ → A → List (ℕ × A) → List (ℕ × A)
  insert k a m = (k, a) ∷ remove k m

abbrev pub contains_key : {A : Type 0} → ℕ → List (ℕ × A) → Bool
contains_key k [] = false
contains_key k ((i, a) ∷ m) = (i == k) || contains_key k m

pub data TaskState : Type 0 where
  init : TaskState
  running : TaskState
  paused : TaskState
  zombie : (exit_code : ℕ) → TaskState
  dead : TaskState

-- `matches!(_, TaskState::Zombie { .. })`
abbrev pub is_zombie : TaskState → Bool
is_zombie init = false
is_zombie running = false
is_zombie paused = false
is_zombie (zombie exit_code) = true
is_zombie dead = false

pub data InterruptSource : Type 0 where
  kernel : InterruptSource
  user : InterruptSource
  syscall : InterruptSource

-- `thread` names the shared object.
pub record ProcThreadInfo : Type 0 where
  pub thread : ℕ
  pub pid : ℕ
  pub tid : ℕ

-- `ThreadGPRegisters`
pub record GpRegisters : Type 0 where
  pub rax : ℕ
  pub rbx : ℕ
  pub rcx : ℕ
  pub rdx : ℕ
  pub rdi : ℕ
  pub rsi : ℕ
  pub r8 : ℕ
  pub r9 : ℕ
  pub r10 : ℕ
  pub r11 : ℕ
  pub r12 : ℕ
  pub r13 : ℕ
  pub r14 : ℕ
  pub r15 : ℕ

pub record ThreadState : Type 0 where
  pub gpregs : GpRegisters
  pub rip : ℕ
  pub rsp : ℕ
  pub rbp : ℕ
  pub rflags : ℕ
  pub fs_base : ℕ
  pub gs_base : ℕ

-- `SyscallData` of src/percpu.rs: the registers at a system call.
pub record SyscallData : Type 0 where
  pub registers : GpRegisters
  pub rsp : ℕ
  pub rbp : ℕ

pub record Thread : Type 0 where
  pub pid : ℕ
  pub tid : ℕ
  pub process : ℕ
  pub stack : ThreadStack
  pub kernel_stack : ThreadStack
  pub state : ThreadState
  pub running_cpu : Option ℕ
  pub task_state : TaskState

-- `PerCpu` of src/percpu.rs, with the last of its interrupt sources at the head.
pub record PerCpu : Type 0 where
  pub core_id : ℕ
  pub interrupt_sources : List InterruptSource
  pub running_thread : Option ProcThreadInfo
  pub syscall_data : SyscallData
  pub kernel_rsp : ℕ

module _ (M : PageMapper) where
  pub record Process : Type 0 where
    pub pid : ℕ
    pub page_table : M.State
    pub allocated_code : ProcessAllocatedCode
    pub threads : List ℕ
    pub zombie_threads : List ℕ
    pub state : TaskState

  pub record Scheduler : Type 0 where
    pub processes : List (ℕ × ℕ)
    pub threads : List (ℕ × ProcThreadInfo)
    pub next_pid : ℕ
    pub task_queue : List ProcThreadInfo
    pub allocated : ℕ
    pub process_at : ℕ → Process
    pub thread_at : ℕ → Thread

  abbrev pub new : (ℕ → Process) → (ℕ → Thread) → Scheduler
  new process_at thread_at = record {
    processes = [];
    threads = [];
    next_pid = 1;
    task_queue = [];
    allocated = 0;
    process_at = process_at;
    thread_at = thread_at;
  }

  abbrev pub set_process : ℕ → Process → Scheduler → Scheduler
  set_process p v s = record s { process_at = λ a. if a == p then v else s.process_at a }

  abbrev pub set_thread : ℕ → Thread → Scheduler → Scheduler
  set_thread t v s = record s { thread_at = λ a. if a == t then v else s.thread_at a }

  abbrev pub get_process : ℕ → Scheduler → Option ℕ
  get_process pid s = get pid s.processes

  abbrev pub get_thread : ℕ → Scheduler → Option ProcThreadInfo
  get_thread tid s = get tid s.threads

  -- The loop of `get_next_pid`, on fuel: the number, and the next one to try.
  abbrev pub pid_loop : ℕ → ℕ → List (ℕ × ProcThreadInfo) → Run (ℕ × ℕ)
  pid_loop zero pid threads = panic
  pid_loop (suc fuel) pid threads =
      let next = (pid + 1) % 2 ^ 32 in
      let rest = pid_loop fuel next threads in
      if not (contains_key pid threads) then ok (pid, next) else rest

  unfoldable pub get_next_pid : Scheduler → Run (ℕ × Scheduler)
  get_next_pid s = elim (pid_loop (suc (length s.threads)) s.next_pid s.threads) [
    | ok (pid, next) ↦ ok (pid, record s { next_pid = next })
    | panic ↦ panic
  ]
