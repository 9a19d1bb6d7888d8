-- ===== src/Process/Scheduler/Kept.antt =====
-- What a turn of `schedule` leaves as it was, with the scheduler's invariant.
use campix.Base.{
  ℕ, ◌<◌, ◌≡◌, inl, inr, refl, sym, ap, ap₂, subst, ◌∙◌, false, Option, none, some, List, [], ◌∷◌,
  ◌++◌, All, All-imp, ◌==◌, ==_iff, Bool-cases, if◌then◌else◌, ◌&&◌,
}
use campix.Process.Stack.{PageMapper}
use campix.Process.Scheduler.{
  get, is_zombie, running, ProcThreadInfo, Thread, PerCpu, Process, Scheduler, set_thread,
}
use campix.Process.Scheduler.Exit.{set_state}
use campix.Process.Scheduler.Schedule.{
  requeue, save_registers, mark_running, goes_on, from_userland, from_syscall, saved,
}
use campix.Process.Scheduler.Ending.{override-keeps}
use campix.Process.Scheduler.Live.{IsLive, IsValid, either_lem}

module _ (M : PageMapper) where
  -- The same processes and threads, and no new zombie.
  pub record Kept (s s' : Scheduler M) : Type 0 where
    pub processes : s'.processes ≡ s.processes
    pub threads : s'.threads ≡ s.threads
    pub allocated : s'.allocated ≡ s.allocated
    pub pid : (q : ℕ) → (s'.process_at q).pid ≡ (s.process_at q).pid
    pub process_threads : (q : ℕ) → (s'.process_at q).threads ≡ (s.process_at q).threads
    pub process_live :
        (q : ℕ)
        → is_zombie (s.process_at q).state ≡ false
        → is_zombie (s'.process_at q).state ≡ false
    pub tid : (t : ℕ) → (s'.thread_at t).tid ≡ (s.thread_at t).tid
    pub process : (t : ℕ) → (s'.thread_at t).process ≡ (s.thread_at t).process
    pub thread_live :
        (t : ℕ)
        → is_zombie (s.thread_at t).task_state ≡ false
        → is_zombie (s'.thread_at t).task_state ≡ false

  pub Kept-trans : (a b c : Scheduler M) → Kept a b → Kept b c → Kept a c
  Kept-trans a b c e f = record {
    processes = f.processes ∙ e.processes;
    threads = f.threads ∙ e.threads;
    allocated = f.allocated ∙ e.allocated;
    pid = λ q. f.pid q ∙ e.pid q;
    process_threads = λ q. f.process_threads q ∙ e.process_threads q;
    process_live = λ q h. f.process_live q (e.process_live q h);
    tid = λ t. f.tid t ∙ e.tid t;
    process = λ t. f.process t ∙ e.process t;
    thread_live = λ t h. f.thread_live t (e.thread_live t h);
  }

  -- A change to the queue and the next number alone.
  pub Kept-same :
      (s : Scheduler M) (queue : List ProcThreadInfo) (next : ℕ)
      → Kept s (record s { task_queue = queue; next_pid = next })
  Kept-same s queue next = record {
    processes = refl;
    threads = refl;
    allocated = refl;
    pid = λ q. refl;
    process_threads = λ q. refl;
    process_live = λ q h. h;
    tid = λ t. refl;
    process = λ t. refl;
    thread_live = λ t h. h;
  }

  pub Kept-queue :
      (s : Scheduler M) (queue : List ProcThreadInfo) → Kept s (record s { task_queue = queue })
  Kept-queue s queue = Kept-same s queue s.next_pid

  IsLive-Kept : (s s' : Scheduler M) (p t : ℕ) → Kept s s' → IsLive M s p t → IsLive M s' p t
  IsLive-Kept s s' p t k ((info, known, of_t, of_p), old, live) = (
    (
      info,
      ap₂ (λ (i : ℕ) (m : List (ℕ × ProcThreadInfo)). get i m) (k.tid t) k.threads ∙ known,
      of_t,
      k.process t ∙ of_p,
    ),
    subst (λ (n : ℕ). t < n) (sym k.allocated) old,
    k.thread_live t live,
  )

  pub IsValid-Kept : (s s' : Scheduler M) → Kept s s' → IsValid M s → IsValid M s'
  IsValid-Kept s s' k valid = record {
    registered = λ i q e.
        let old = valid.registered i q (ap (get i) (sym k.processes) ∙ e) in
        record {
          old = subst (λ (n : ℕ). q < n) (sym k.allocated) old.old;
          pid_same = k.pid q ∙ old.pid_same;
          live = k.process_live q old.live;
          threads =
              subst (All (IsLive M s' q)) (sym (k.process_threads q))
                (All-imp _ _ (s.process_at q).threads (λ u. IsLive-Kept s s' q u k) old.threads);
        };
    known = λ tid info e.
        let (old, same) = valid.known tid info (ap (get tid) (sym k.threads) ∙ e) in
        (subst (λ (n : ℕ). info.thread < n) (sym k.allocated) old, k.tid info.thread ∙ same);
  }

  pub requeue-Kept : (cpu : PerCpu) (s : Scheduler M) → Kept s (requeue M cpu s)
  unfolding requeue
  requeue-Kept cpu s = by_thread cpu.running_thread
    where
      by_thread :
          (r : Option ProcThreadInfo)
          → Kept s (elim r [
            | some info ↦
                if from_userland M cpu && goes_on M info s
                then record s { task_queue = s.task_queue ++ info ∷ [] }
                else s
            | none ↦ s
          ])
      by_thread none = Kept-queue s s.task_queue
      by_thread (some info) =
          either_lem (Kept s) (from_userland M cpu && goes_on M info s) _ _ (Kept-queue s _)
            (Kept-queue s s.task_queue)

  -- A thread that is replaced by one with the same number and process, which is no new zombie.
  pub set_thread-Kept :
      (t : ℕ) (v : Thread) (s : Scheduler M)
      → v.tid ≡ (s.thread_at t).tid
      → v.process ≡ (s.thread_at t).process
      → (is_zombie (s.thread_at t).task_state ≡ false → is_zombie v.task_state ≡ false)
      → Kept s (set_thread M t v s)
  set_thread-Kept t v s tid process live = record {
    processes = refl;
    threads = refl;
    allocated = refl;
    pid = λ q. refl;
    process_threads = λ q. refl;
    process_live = λ q h. h;
    tid = override-keeps (λ (th : Thread). th.tid) s.thread_at t v tid;
    process = override-keeps (λ (th : Thread). th.process) s.thread_at t v process;
    thread_live = λ u h. elim (Bool-cases (u == t)) [
      | inl c ↦
          rw c (
            live
              (ap (λ (a : ℕ). is_zombie (s.thread_at a).task_state) (sym ((==_iff u t).0 c)) ∙ h))
      | inr c ↦ rw c h
    ];
  }

  pub save_registers-Kept : (cpu : PerCpu) (s : Scheduler M) → Kept s (save_registers M cpu s)
  unfolding save_registers
  save_registers-Kept cpu s = by_thread cpu.running_thread
    where
      by_thread :
          (r : Option ProcThreadInfo)
          → Kept s (elim r [
            | some info ↦
                if from_syscall M cpu
                then set_thread M info.thread
                    (record (s.thread_at info.thread) {
                      state = saved cpu.syscall_data (s.thread_at info.thread).state;
                    })
                    s
                else s
            | none ↦ s
          ])
      by_thread none = Kept-queue s s.task_queue
      by_thread (some info) =
          either_lem (Kept s) (from_syscall M cpu) _ _
            (set_thread-Kept info.thread _ s refl refl (λ h. h)) (Kept-queue s s.task_queue)

  pub mark_running-Kept :
      (info : ProcThreadInfo) (cpu : PerCpu) (s : Scheduler M) → Kept s (mark_running M info cpu s)
  unfolding mark_running
  mark_running-Kept info cpu s = set_thread-Kept info.thread _ s refl refl (λ h. refl)

  pub set_running-Kept : (p : ℕ) (s : Scheduler M) → Kept s (set_state M p running s)
  set_running-Kept p s = record {
    processes = refl;
    threads = refl;
    allocated = refl;
    pid = override-keeps (λ (v : Process M). v.pid) s.process_at p _ refl;
    process_threads = override-keeps (λ (v : Process M). v.threads) s.process_at p _ refl;
    process_live = λ q h. elim (Bool-cases (q == p)) [ inl c ↦ rw c refl | inr c ↦ rw c h ];
    tid = λ t. refl;
    process = λ t. refl;
    thread_live = λ t h. h;
  }
