-- ===== src/Process/Scheduler/Schedule.antt =====
-- `schedule` of src/process/scheduler.rs, and what `jmp_to_userland` of src/process/proc.rs does before
-- it leaves for the thread.
use campix.Base.{
  ℕ, zero, suc, Bool, true, false, ◌&&◌, not, Option, none, some, List, [], ◌∷◌, ◌++◌,
  if◌then◌else◌, length, Run, ok, panic,
}
use campix.Process.Stack.{PageMapper}
use campix.Process.Scheduler.{
  is_zombie, running, kernel, user, syscall, ProcThreadInfo, ThreadState, SyscallData, PerCpu,
  Scheduler, set_thread, get_process,
}
use campix.Process.Scheduler.Exit.{set_state}

-- The registers that `schedule` saves at a system call.
unfoldable pub saved : SyscallData → ThreadState → ThreadState
saved d state = record state {
  gpregs = record d.registers { rcx = state.gpregs.rcx; r11 = state.gpregs.r11 };
  rip = d.registers.rcx;
  rsp = d.rsp;
  rbp = d.rbp;
  rflags = d.registers.r11;
}

module _ (M : PageMapper) where
  abbrev pub from_userland : PerCpu → Bool
  from_userland cpu = elim cpu.interrupt_sources [
    | [] ↦ false
    | kernel ∷ _ ↦ false
    | user ∷ _ ↦ true
    | syscall ∷ _ ↦ true
  ]

  abbrev pub from_syscall : PerCpu → Bool
  from_syscall cpu = elim cpu.interrupt_sources [
    | [] ↦ false
    | kernel ∷ _ ↦ false
    | user ∷ _ ↦ false
    | syscall ∷ _ ↦ true
  ]

  abbrev pub goes_on : ProcThreadInfo → Scheduler M → Bool
  goes_on info s =
      not (is_zombie (s.thread_at info.thread).task_state)
      && not (is_zombie (s.process_at (s.thread_at info.thread).process).state)

  -- The interrupted thread goes to the back of the queue.
  unfoldable pub requeue : PerCpu → Scheduler M → Scheduler M
  requeue cpu s = elim cpu.running_thread [
    | some info ↦
        if from_userland cpu && goes_on info s
        then record s { task_queue = s.task_queue ++ info ∷ [] }
        else s
    | none ↦ s
  ]

  unfoldable pub save_registers : PerCpu → Scheduler M → Scheduler M
  save_registers cpu s = elim cpu.running_thread [
    | some info ↦
        let thread = s.thread_at info.thread in
        if from_syscall cpu
        then set_thread M info.thread
            (record thread { state = saved cpu.syscall_data thread.state }) s
        else s
    | none ↦ s
  ]

  unfoldable pub jmp_to_userland : ProcThreadInfo → PerCpu → Scheduler M → PerCpu
  jmp_to_userland info cpu s = record cpu {
    running_thread = some info;
    kernel_rsp = (s.thread_at info.thread).kernel_stack.stack_top;
    interrupt_sources = [];
  }

  -- The chosen thread is marked as running.
  unfoldable pub mark_running : ProcThreadInfo → PerCpu → Scheduler M → Scheduler M
  mark_running info cpu s =
      set_thread M info.thread
        (record (s.thread_at info.thread) { task_state = running; running_cpu = some cpu.core_id })
        s

  abbrev pub run_thread :
      ProcThreadInfo → PerCpu → Scheduler M → Run (Option ProcThreadInfo × PerCpu × Scheduler M)
  run_thread info cpu s =
      let started = mark_running info cpu s in
      ok (some info, jmp_to_userland info cpu started, started)

  -- What is done with the thread at the front of the queue; if its process is a zombie, the loop goes
  -- on.
  abbrev pub take_turn :
      Run (Option ProcThreadInfo × PerCpu × Scheduler M)
      → ProcThreadInfo
      → PerCpu
      → Scheduler M
      → Run (Option ProcThreadInfo × PerCpu × Scheduler M)
  take_turn again info cpu s = elim (get_process M info.pid s) [
    | some p ↦
        if is_zombie (s.process_at p).state
        then again
        else run_thread info cpu (set_state M p running s)
    | none ↦ run_thread info cpu s
  ]

  abbrev pub from_queue :
      (Scheduler M → Run (Option ProcThreadInfo × PerCpu × Scheduler M))
      → List ProcThreadInfo
      → PerCpu
      → Scheduler M
      → Run (Option ProcThreadInfo × PerCpu × Scheduler M)
  from_queue again [] cpu s = ok (none, cpu, save_registers cpu s)
  from_queue again (info ∷ rest) cpu s =
      let popped = save_registers cpu (record s { task_queue = rest }) in
      take_turn (again popped) info cpu popped

  -- The loop, on fuel: the thread that is run, or none when the processor sleeps.
  abbrev pub schedule_loop :
      ℕ → PerCpu → Scheduler M → Run (Option ProcThreadInfo × PerCpu × Scheduler M)
  schedule_loop zero cpu s = panic
  schedule_loop (suc fuel) cpu s =
      let queued = requeue cpu s in from_queue (schedule_loop fuel cpu) queued.task_queue cpu queued

  unfoldable pub schedule :
      PerCpu → Scheduler M → Run (Option ProcThreadInfo × PerCpu × Scheduler M)
  schedule cpu s = schedule_loop (suc (suc (length s.task_queue))) cpu s
