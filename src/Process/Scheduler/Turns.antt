-- ===== src/Process/Scheduler/Turns.antt =====
-- That `schedule` comes to an end in a valid state, and takes the thread at the front of the queue.
use campix.Base.{
  ℕ, suc, ◌≡◌, refl, sym, ap, ◌∙◌, true, false, Bool, Option, none, some, List, [], ◌∷◌, ◌++◌, ◌&&◌,
  if◌then◌else◌, length, Run, ok,
}
use mathlib.Core.List.{append-nil}
use campix.Process.Stack.{PageMapper}
use campix.Process.Scheduler.{running, ProcThreadInfo, PerCpu, Scheduler, get_process, set_thread}
use campix.Process.Scheduler.Exit.{set_state}
use campix.Process.Scheduler.Schedule.{
  requeue, save_registers, mark_running, jmp_to_userland, goes_on, from_userland, from_syscall,
  run_thread, take_turn, from_queue, schedule_loop, schedule, saved,
}
use campix.Process.Scheduler.Live.{IsValid, either_lem}
use campix.Process.Scheduler.Kept.{
  Kept, Kept-trans, Kept-queue, IsValid-Kept, requeue-Kept, save_registers-Kept, mark_running-Kept,
  set_running-Kept,
}

module _ (M : PageMapper) where
  -- With `extra` put behind the queue, the chosen thread is at the front of it; nothing is chosen from
  -- an empty queue.
  abbrev pub Takes : Option ProcThreadInfo → (queue extra queue' : List ProcThreadInfo) → Type 0
  Takes none queue extra queue' = (queue ++ extra ≡ []) × (queue' ≡ [])
  Takes (some info) queue extra queue' = queue ++ extra ≡ info ∷ queue'

  -- One turn: what is chosen, and what the scheduler and the processor become.
  pub record Turn (s : Scheduler M) (result : Run (Option ProcThreadInfo × PerCpu × Scheduler M))
      : Type 0 where
    pub chosen : Option ProcThreadInfo
    pub cpu : PerCpu
    pub next : Scheduler M
    pub returns : result ≡ ok (chosen, cpu, next)
    pub kept : Kept M s next
    pub extra : List ProcThreadInfo
    pub takes : Takes chosen s.task_queue extra next.task_queue

  -- The interrupted thread, if it goes on, is put behind the queue.
  requeue_lem :
      (cpu : PerCpu) (s : Scheduler M)
      → (extra : List ProcThreadInfo) × ((requeue M cpu s).task_queue ≡ s.task_queue ++ extra)
  unfolding requeue
  requeue_lem cpu s = by_thread cpu.running_thread
    where
      by_test :
          (b : Bool) (info : ProcThreadInfo)
          → (extra : List ProcThreadInfo) × ((if b
                then record s { task_queue = s.task_queue ++ info ∷ [] }
                else s).task_queue
              ≡ s.task_queue ++ extra)
      by_test true info = (info ∷ [], refl)
      by_test false info = ([], sym (append-nil s.task_queue))

      by_thread :
          (r : Option ProcThreadInfo)
          → (extra : List ProcThreadInfo) × ((elim r as (λ _. Scheduler M) [
            | some info ↦
                if from_userland M cpu && goes_on M info s
                then record s { task_queue = s.task_queue ++ info ∷ [] }
                else s
            | none ↦ s
          ]).task_queue
              ≡ s.task_queue ++ extra)
      by_thread none = ([], sym (append-nil s.task_queue))
      by_thread (some info) = by_test (from_userland M cpu && goes_on M info s) info

  save_registers-queue :
      (cpu : PerCpu) (s : Scheduler M) → (save_registers M cpu s).task_queue ≡ s.task_queue
  unfolding save_registers
  save_registers-queue cpu s = by_thread cpu.running_thread
    where
      by_thread :
          (r : Option ProcThreadInfo)
          → (elim r as (λ _. Scheduler M) [
            | some info ↦
                if from_syscall M cpu
                then set_thread M info.thread
                    (record (s.thread_at info.thread) {
                      state = saved cpu.syscall_data (s.thread_at info.thread).state;
                    })
                    s
                else s
            | none ↦ s
          ]).task_queue
            ≡ s.task_queue
      by_thread none = refl
      by_thread (some info) =
          either_lem (λ (s' : Scheduler M). s'.task_queue ≡ s.task_queue) (from_syscall M cpu) _ s
            refl refl

  run_thread-Turn :
      (info : ProcThreadInfo) (cpu : PerCpu) (s popped : Scheduler M) (extra : List ProcThreadInfo)
      → Kept M s popped
      → s.task_queue ++ extra ≡ info ∷ popped.task_queue
      → Turn s (run_thread M info cpu popped)
  unfolding mark_running
  run_thread-Turn info cpu s popped extra kept order = record {
    chosen = some info;
    cpu = jmp_to_userland M info cpu (mark_running M info cpu popped);
    next = mark_running M info cpu popped;
    returns = refl;
    kept =
        Kept-trans M s popped (mark_running M info cpu popped) kept
          (mark_running-Kept M info cpu popped);
    extra = extra;
    takes = order;
  }

  -- No registered process is a zombie, so the front of the queue is never skipped.
  take_turn-Turn :
      (again : Run (Option ProcThreadInfo × PerCpu × Scheduler M)) (info : ProcThreadInfo)
      (cpu : PerCpu) (s popped : Scheduler M) (extra : List ProcThreadInfo)
      → IsValid M popped
      → Kept M s popped
      → s.task_queue ++ extra ≡ info ∷ popped.task_queue
      → Turn s (take_turn M again info cpu popped)
  take_turn-Turn again info cpu s popped extra valid kept order =
      by_process (get_process M info.pid popped) refl
    where
      by_process :
          (r : Option ℕ)
          → get_process M info.pid popped ≡ r
          → Turn s (take_turn M again info cpu popped)
      by_process none e = rw (e, take_turn) (run_thread-Turn info cpu s popped extra kept order)
      by_process (some p) e =
          let set = set_state M p running popped in
          rw (e, take_turn, (valid.registered info.pid p e).live)
            (run_thread-Turn info cpu s set extra
              (Kept-trans M s popped set kept (set_running-Kept M p popped)) order)

  from_queue-Turn :
      (again : Scheduler M → Run (Option ProcThreadInfo × PerCpu × Scheduler M))
      (queue extra : List ProcThreadInfo) (cpu : PerCpu) (s queued : Scheduler M)
      → IsValid M queued
      → Kept M s queued
      → queued.task_queue ≡ queue
      → queued.task_queue ≡ s.task_queue ++ extra
      → Turn s (from_queue M again queue cpu queued)
  from_queue-Turn again [] extra cpu s queued valid kept e order = record {
    chosen = none;
    cpu = cpu;
    next = save_registers M cpu queued;
    returns = refl;
    kept = Kept-trans M s queued _ kept (save_registers-Kept M cpu queued);
    extra = extra;
    takes = (sym order ∙ e, save_registers-queue cpu queued ∙ e);
  }
  from_queue-Turn again (info ∷ rest) extra cpu s queued valid kept e order =
      let taken : Scheduler M = record queued { task_queue = rest } in
      let popped = save_registers M cpu taken in
      let step =
        Kept-trans M queued taken popped (Kept-queue M queued rest)
          (save_registers-Kept M cpu taken) in
      take_turn-Turn (again popped) info cpu s popped extra
        (IsValid-Kept M queued popped step valid) (Kept-trans M s queued popped kept step)
        (sym order ∙ e ∙ ap (◌∷◌ info) (sym (save_registers-queue cpu taken)))

  -- In a valid state `schedule` returns, in the first round of its loop. With the interrupted thread
  -- put behind the queue, if it goes on, it takes the front of the queue, or sleeps on an empty queue;
  -- no process or thread becomes a zombie, and what is registered stays so.
  pub schedule-Turn : (cpu : PerCpu) (s : Scheduler M) → IsValid M s → Turn s (schedule M cpu s)
  unfolding schedule
  schedule-Turn cpu s valid =
      let queued = requeue M cpu s in
      let kept = requeue-Kept M cpu s in
      let (extra, order) = requeue_lem cpu s in
      from_queue-Turn (schedule_loop M (suc (length s.task_queue)) cpu) queued.task_queue extra cpu
        s queued (IsValid-Kept M s queued kept valid) kept refl order
