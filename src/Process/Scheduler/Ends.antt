-- ===== src/Process/Scheduler/Ends.antt =====
-- That `handle_process_exit` ends a process with all of its threads.
use campix.Base.{
  ℕ, ◌≡◌, ◌≢◌, inl, inr, refl, sym, ap, subst, ◌∙◌, Bool, true, false, ◌||◌, some, List, [], ◌∷◌,
  All, All-imp, map, ◌==◌, ==_refl, ne→==_false, Bool-cases, arith,
}
use mathlib.Core.Bool.{or-true}
use campix.Process.Stack.{PageMapper, ProcessAllocatedCode, free_stack, free_code}
use campix.Process.Scheduler.{
  get, remove, zombie, ProcThreadInfo, Thread, Process, Scheduler, get_process, get_thread,
}
use campix.Process.Scheduler.Exit.{
  retain, exit_thread, exit_only, exit_all, free_process, exit_process, handle_process_exit,
}
use campix.Process.Scheduler.Ending.{
  Ended, IsOf, IsOf-Ended, retain_all, exit_only-Ended, exit_all-Ended, override_self,
  override-keeps,
}

-- Whether a number is in a list.
abbrev among : ℕ → List ℕ → Bool
among x [] = false
among x (y ∷ ys) = (y == x) || among x ys

module _ (f : ℕ → Thread) where
  -- A thread whose number is among those that end is not among those that are left.
  retain-among :
      (tid : ℕ) (tids ts : List ℕ)
      → All (λ t. among (f t).tid (tid ∷ tids) ≡ true) ts
      → All (λ t. among (f t).tid tids ≡ true) (retain f tid ts)
  retain-among tid tids [] h = tt
  retain-among tid tids (t ∷ ts) (h, hs) = elim (Bool-cases ((f t).tid == tid)) [
    | inl e ↦ rw e (retain-among tid tids ts hs)
    | inr e ↦
        let apart : (tid == (f t).tid) ≡ false = ground arith in
        rw e (rw apart at h, retain-among tid tids ts hs)
  ]

  retain_all-none :
      (tids ts : List ℕ) → All (λ t. among (f t).tid tids ≡ true) ts → retain_all f tids ts ≡ []
  retain_all-none [] [] h = refl
  retain_all-none [] (t ∷ ts) (h, hs) = absurd (ground arith)
  retain_all-none (tid ∷ tids) ts h =
      retain_all-none tids (retain f tid ts) (retain-among tid tids ts h)

  among-cons : (x y : ℕ) (ys : List ℕ) → among x ys ≡ true → among x (y ∷ ys) ≡ true
  among-cons x y ys h = rw h (or-true (y == x))

  All-among : (ts : List ℕ) → All (λ t. among (f t).tid (map (λ t. (f t).tid) ts) ≡ true) ts
  All-among [] = tt
  All-among (t ∷ ts) = (
    rw (==_refl (f t).tid) refl,
    All-imp _ _ ts (λ u. among-cons (f u).tid (f t).tid (map (λ t. (f t).tid) ts)) (All-among ts),
  )

module _ (M : PageMapper) where
  abbrev pub HasEnded : ℕ → Thread → Type 0
  HasEnded exit_code thread = (thread.task_state ≡ zombie exit_code) × (thread.stack.stack_size ≡ 0)

  -- The thread that this number stands for has ended.
  abbrev Gone : ℕ → Scheduler M → ℕ → Type 0
  Gone exit_code s tid =
      (info : ProcThreadInfo)
      → get_thread M tid s ≡ some info
      → HasEnded exit_code (s.thread_at info.thread)

  HasEnded-Ended :
      (p exit_code t : ℕ) (s s' : Scheduler M)
      → Ended M p exit_code s s'
      → HasEnded exit_code (s.thread_at t)
      → HasEnded exit_code (s'.thread_at t)
  HasEnded-Ended p exit_code t s s' e h = elim (e.fate t) [
    | inl same ↦ subst (HasEnded exit_code) (sym same) h
    | inr ended ↦ ended
  ]

  exit_thread-HasEnded :
      (tid exit_code t : ℕ) (s : Scheduler M)
      → HasEnded exit_code ((exit_thread M tid exit_code t s).thread_at t)
  unfolding exit_thread free_stack
  exit_thread-HasEnded tid exit_code t s = (rw (==_refl t) refl, rw (==_refl t) refl)

  exit_only-Gone :
      (tid exit_code : ℕ) (s : Scheduler M) (info : ProcThreadInfo)
      → get_thread M tid s ≡ some info
      → HasEnded exit_code ((exit_only M tid exit_code s).thread_at info.thread)
  unfolding exit_only
  exit_only-Gone tid exit_code s info known =
      rw (known, exit_only) (exit_thread-HasEnded tid exit_code info.thread s)

  exit_all-Gone :
      (p exit_code : ℕ) (tids : List ℕ) (s : Scheduler M)
      → All (IsOf M p s) tids
      → All (Gone exit_code (exit_all M tids exit_code s)) tids
  unfolding exit_all
  exit_all-Gone p exit_code [] s h = tt
  exit_all-Gone p exit_code (tid ∷ tids) s (first, others) =
      let s1 = exit_only M tid exit_code s in
      let e = exit_only-Ended M p tid exit_code s first in
      let others1 = All-imp _ _ tids (λ u. IsOf-Ended M p exit_code u s s1 e) others in
      let (f, left) = exit_all-Ended M p exit_code tids s1 others1 in
      (
        λ info known. HasEnded-Ended p exit_code info.thread s1 (exit_all M tids exit_code s1) f (
            exit_only-Gone tid exit_code s info
              (sym (ap (get tid) (f.threads ∙ e.threads)) ∙ known)),
        exit_all-Gone p exit_code tids s1 others1,
      )

  -- A thread of the process `p` that is known by its number.
  abbrev pub IsLinked : Scheduler M → ℕ → ℕ → Type 0
  IsLinked s p t =
      (info : ProcThreadInfo) × (get_thread M (s.thread_at t).tid s ≡ some info)
      × (info.thread ≡ t)
      × ((s.thread_at t).process ≡ p)

  -- The process `p` has ended, and of the others nothing has changed. What becomes of its page table
  -- and of its list of zombies is not told.
  pub record Ends (pid p exit_code : ℕ) (s s' : Scheduler M) : Type 0 where
    pub unregistered : s'.processes ≡ remove pid s.processes
    pub state : (s'.process_at p).state ≡ zombie exit_code
    pub no_threads : (s'.process_at p).threads ≡ []
    pub no_code : (s'.process_at p).allocated_code ≡ []
    pub ended : All (λ t. HasEnded exit_code (s'.thread_at t)) (s.process_at p).threads
    pub known : s'.threads ≡ s.threads
    pub next_pid : s'.next_pid ≡ s.next_pid
    pub task_queue : s'.task_queue ≡ s.task_queue
    pub elsewhere : (q : ℕ) → q ≢ p → s'.process_at q ≡ s.process_at q
    pub others : (t : ℕ) → (s.thread_at t).process ≢ p → s'.thread_at t ≡ s.thread_at t
    pub allocated : s'.allocated ≡ s.allocated
    pub tid : (t : ℕ) → (s'.thread_at t).tid ≡ (s.thread_at t).tid
    pub process : (t : ℕ) → (s'.thread_at t).process ≡ (s.thread_at t).process

  free_code-empty :
      (code : ProcessAllocatedCode) (table : M.State) → (free_code M (code, table)).0 ≡ []
  unfolding free_code
  free_code-empty [] table = refl
  free_code-empty ((virt, buffer) ∷ code) table = free_code-empty code (M.unmap_4kb virt table)

  pub free_process-threads :
      (p q : ℕ) (s : Scheduler M)
      → ((free_process M p s).process_at q).threads ≡ (s.process_at q).threads
  unfolding free_process
  free_process-threads p q s = override-keeps (λ (v : Process M). v.threads) s.process_at p _ refl q

  pub IsOf-linked :
      (p : ℕ) (s : Scheduler M) (ts : List ℕ)
      → All (IsLinked s p) ts
      → All (IsOf M p s) (map (λ t. (s.thread_at t).tid) ts)
  IsOf-linked p s [] h = tt
  IsOf-linked p s (t ∷ ts) ((info, known, same, of_p), hs) =
      ((info, known, ap (λ (u : ℕ). (s.thread_at u).process) same ∙ of_p), IsOf-linked p s ts hs)

  HasEnded-Gone :
      (p exit_code : ℕ) (s s' : Scheduler M) (ts : List ℕ)
      → s'.threads ≡ s.threads
      → All (IsLinked s p) ts
      → All (Gone exit_code s') (map (λ t. (s.thread_at t).tid) ts)
      → All (λ t. HasEnded exit_code (s'.thread_at t)) ts
  HasEnded-Gone p exit_code s s' [] e h g = tt
  HasEnded-Gone p exit_code s s' (t ∷ ts) e ((info, known, same, of_p), hs) (g, gs) = (
    subst (λ (u : ℕ). HasEnded exit_code (s'.thread_at u)) same
        (g info (ap (get (s.thread_at t).tid) e ∙ known)),
    HasEnded-Gone p exit_code s s' ts e hs gs,
  )

  -- The threads of the process end before its state is set.
  exit_all-empties :
      (p exit_code : ℕ) (s : Scheduler M)
      → All (IsLinked s p) (s.process_at p).threads
      → let s' = exit_all M (map (λ t. (s.thread_at t).tid) (s.process_at p).threads) exit_code s in
        Ended M p exit_code s s'
        × ((s'.process_at p).threads ≡ [])
        × All (λ t. HasEnded exit_code (s'.thread_at t)) (s.process_at p).threads
  exit_all-empties p exit_code s linked =
      let ts = (s.process_at p).threads in
      let tids = map (λ t. (s.thread_at t).tid) ts in
      let known = IsOf-linked p s ts linked in
      let (e, left) = exit_all-Ended M p exit_code tids s known in
      (
        e,
        left ∙ retain_all-none s.thread_at tids ts (All-among s.thread_at ts),
        HasEnded-Gone p exit_code s (exit_all M tids exit_code s) ts e.threads linked
            (exit_all-Gone p exit_code tids s known),
      )

  exit_process-Ends :
      (pid p exit_code : ℕ) (s : Scheduler M)
      → All (IsLinked s p) (s.process_at p).threads
      → Ends pid p exit_code s
          (exit_process M p exit_code (record s { processes = remove pid s.processes }))
  unfolding exit_process free_process
  exit_process-Ends pid p exit_code s linked =
      let s0 : Scheduler M = record s { processes = remove pid s.processes } in
      let freed = free_process M p s0 in
      let same = free_process-threads p p s0 in
      let (e, none_left, ended) =
        exit_all-empties p exit_code freed (subst (All (IsLinked s p)) (sym same) linked) in
      record {
        unregistered = e.processes;
        state = rw (==_refl p) refl;
        no_threads = ap (λ (v : Process M). v.threads) (override_self p _ _) ∙ none_left;
        no_code =
            ap (λ (v : Process M). v.allocated_code) (override_self p _ _)
            ∙ e.code p
            ∙ ap (λ (v : Process M). v.allocated_code) (override_self p _ _)
            ∙ free_code-empty (s.process_at p).allocated_code (s.process_at p).page_table;
        ended = subst (All _) same ended;
        known = e.threads;
        next_pid = e.next_pid;
        task_queue = e.task_queue;
        elsewhere = λ q h. rw (ne→==_false q p h) (e.elsewhere q h ∙ rw (ne→==_false q p h) refl);
        others = e.others;
        allocated = e.allocated;
        tid = e.tid;
        process = e.process;
      }

  -- When a registered process's threads are all known by their numbers, `handle_process_exit` takes it
  -- out of `processes`, and leaves it as a zombie with this exit code, without threads and without
  -- code; each thread that it had is a zombie with this exit code, and has no stack. Every other
  -- process is as before, and so are the queue, the next number, and what is known of the threads.
  pub handle_process_exit-Ends :
      (pid p exit_code : ℕ) (s : Scheduler M)
      → get_process M pid s ≡ some p
      → All (IsLinked s p) (s.process_at p).threads
      → Ends pid p exit_code s (handle_process_exit M pid exit_code s)
  unfolding handle_process_exit
  handle_process_exit-Ends pid p exit_code s registered linked =
      rw (registered, handle_process_exit) (exit_process-Ends pid p exit_code s linked)
