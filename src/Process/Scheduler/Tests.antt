-- ===== src/Process/Scheduler/Tests.antt =====
-- A scheduler with two processes, on a page table that keeps a list of its pages.
use campix.Base.{
  ℕ, suc, ◌+◌, ◌≤◌, ◌<◌, ◌≡◌, refl, true, false, Option, none, some, List, [], ◌∷◌, ◌++◌, length,
  get_elem?, ok, arith,
}
use campix.Vfs.Error.{done}
use campix.Process.Stack.{PageMapper, new, unmap_pages, free_stack, free_code}
use campix.Process.Scheduler.{
  init, zombie, contains_key, user, get, ProcThreadInfo, GpRegisters, ThreadState, SyscallData,
  Thread, PerCpu, Process, Scheduler, get_process, get_next_pid,
}
use campix.Process.Scheduler
use campix.Process.Scheduler.Create.{PipeMaker, CreateProcessOptions, add_process}
use campix.Process.Scheduler.Exit.{
  exit_thread, exit_only, exit_all, free_process, exit_process, handle_process_exit, handle_exit,
  kill_process,
}
use campix.Process.Scheduler.Schedule.{
  requeue, save_registers, jmp_to_userland, mark_running, schedule,
}
use campix.Process.Scheduler.Pids.{nth_pid, get_next_pid-IsFirst}
use campix.Process.Scheduler.Ends.{Ends}
use campix.Process.Scheduler.Live.{IsValid, new-IsValid}
use campix.Process.Scheduler.Admission.{add_process-IsValid}
use campix.Process.Scheduler.Turns.{Turn, schedule-Turn}
use campix.Process.Scheduler.Traces.{
  turn, exited, Trace, start, then_, Follows, Trace-Follows, Trace-runs_in_turn,
}

abbrev mapper : PageMapper
mapper = record {
  State = List (ℕ × ℕ);
  map_4kb = λ virt phys flags pages. (virt, phys) ∷ pages;
  unmap_4kb = λ virt pages. pages;
}

abbrev pipes : PipeMaker
pipes = record { File = ℕ; State = ℕ; create = λ n. (done (n, n + 1), n + 2) }

abbrev registers : GpRegisters
registers = record {
  rax = 0;
  rbx = 0;
  rcx = 0;
  rdx = 0;
  rdi = 0;
  rsi = 0;
  r8 = 0;
  r9 = 0;
  r10 = 0;
  r11 = 0;
  r12 = 0;
  r13 = 0;
  r14 = 0;
  r15 = 0;
}

abbrev state : ThreadState
state = record {
  gpregs = registers;
  rip = 0x400000;
  rsp = 0;
  rbp = 0;
  rflags = 0x202;
  fs_base = 0;
  gs_base = 0;
}

abbrev blank_thread : Thread
blank_thread = record {
  pid = 0;
  tid = 0;
  process = 0;
  stack = new 0;
  kernel_stack = new 0;
  state = state;
  running_cpu = none;
  task_state = init;
}

abbrev blank_process : Process mapper
blank_process = record {
  pid = 0;
  page_table = [];
  allocated_code = [];
  threads = [];
  zombie_threads = [];
  state = init;
}

abbrev options : CreateProcessOptions mapper
options = record {
  page_table = [];
  main_thread_state = state;
  allocated_code = [];
  main_thread_stack = new 0;
}

abbrev nobody : Scheduler mapper
nobody = Scheduler.new mapper (λ p. blank_process) (λ t. blank_thread)

abbrev one : Scheduler mapper
one = add_process mapper options 0xFFFFA00000005000 1 nobody

abbrev two : Scheduler mapper
two = add_process mapper options 0xFFFFA00000006000 2 one

one-IsValid : IsValid mapper one
one-IsValid =
    add_process-IsValid mapper options 0xFFFFA00000005000 1 nobody refl
      (new-IsValid mapper (λ p. blank_process) (λ t. blank_thread))

two-IsValid : IsValid mapper two
unfolding add_process
two-IsValid = add_process-IsValid mapper options 0xFFFFA00000006000 2 one refl one-IsValid

abbrev cpu : PerCpu
cpu = record {
  core_id = 0;
  interrupt_sources = user ∷ [];
  running_thread = none;
  syscall_data = record { registers = registers; rsp = 0; rbp = 0 };
  kernel_rsp = 0;
}

get_next_pid-IsFirst_example :
    (k : ℕ) × (k ≤ length two.threads)
    × (get_next_pid mapper two
        ≡ ok (
          nth_pid two.threads two.next_pid k,
          record two { next_pid = nth_pid two.threads two.next_pid (suc k) },
        ))
    × (contains_key (nth_pid two.threads two.next_pid k) two.threads ≡ false)
    × ((j : ℕ) → j < k → contains_key (nth_pid two.threads two.next_pid j) two.threads ≡ true)
unfolding add_process
get_next_pid-IsFirst_example = get_next_pid-IsFirst mapper two (omega arith) (omega arith)

third_pid : (k : ℕ) × (get_next_pid mapper two ≡ ok (3, record two { next_pid = 4 }))
unfolding add_process get_next_pid
third_pid = (2, refl)

schedule-Turn_example : Turn mapper two (schedule mapper cpu two)
schedule-Turn_example = schedule-Turn mapper cpu two two-IsValid

-- The first process runs and exits, and the second one runs.
abbrev first : Turn mapper two (schedule mapper cpu two)
first = schedule-Turn mapper cpu two two-IsValid

abbrev left : Scheduler mapper
left = handle_exit mapper 1 0 first.next

abbrev until_exit : Trace mapper pipes two (([] ++ first.chosen ∷ []) ++ []) left
until_exit = then_ (then_ start (turn cpu first.cpu first.returns)) (exited 1 0)

left-IsValid : IsValid mapper left
left-IsValid =
    (Trace-Follows mapper pipes two left (([] ++ first.chosen ∷ []) ++ []) two-IsValid until_exit).0

abbrev second : Turn mapper left (schedule mapper cpu left)
second = schedule-Turn mapper cpu left left-IsValid

abbrev ran : List (Option ProcThreadInfo)
ran = (([] ++ first.chosen ∷ []) ++ []) ++ second.chosen ∷ []

abbrev until_second : Trace mapper pipes two ran second.next
until_second = then_ until_exit (turn cpu second.cpu second.returns)

Trace-Follows_example : Follows mapper pipes two ran second.next
Trace-Follows_example = Trace-Follows mapper pipes two second.next ran two-IsValid until_second

Trace-runs_in_turn_example : get_elem? ran 1 ≡ some (some (record { thread = 3; pid = 2; tid = 2 }))
unfolding add_process
Trace-runs_in_turn_example =
    Trace-runs_in_turn mapper pipes two second.next ran 1 (record { thread = 3; pid = 2; tid = 2 })
      two-IsValid until_second refl (omega arith)

-- A process that is killed while it waits in the queue is run all the same.
killed_process_runs :
    (cpu' : PerCpu) × (s' : Scheduler mapper) × (schedule mapper cpu (kill_process mapper 1 two)
      ≡ ok (some (record { thread = 1; pid = 1; tid = 1 }), cpu', s'))
    × (get_process mapper 1 s' ≡ none)
    × ((s'.process_at 0).state ≡ zombie 137)
unfolding add_process kill_process handle_process_exit exit_process free_process free_code exit_all
    exit_only exit_thread free_stack unmap_pages schedule requeue save_registers mark_running
    jmp_to_userland
killed_process_runs = (_, _, refl, refl, refl)
