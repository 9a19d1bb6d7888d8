-- ===== src/Process/Scheduler/Ending.antt =====
-- What `handle_exit` and `handle_process_exit` change: the threads that end, and the lists and the
-- memory of their processes.
use campix.Base.{
  ℕ, ◌≡◌, ◌≢◌, ◌⊎◌, inl, inr, refl, sym, ap, subst, ◌∙◌, some, List, [], ◌∷◌, All, All-imp, ◌==◌,
  ==_iff, ==_refl, ne→==_false, Bool-cases, if◌then◌else◌,
}
use campix.Process.Stack.{PageMapper, free_stack}
use campix.Process.Scheduler.{get, zombie, ProcThreadInfo, Thread, Process, Scheduler, get_thread}
use campix.Process.Scheduler.Exit.{retain, exit_thread, exit_only, exit_all}

pub override_self {ℓ} : {A : Type ℓ} (p : ℕ) (v o : A) → (if p == p then v else o) ≡ v
override_self p v o = rw (==_refl p) refl

-- A field that stays the same where one object is replaced stays the same everywhere.
pub override-keeps {ℓ} :
    {A B : Type ℓ} (field : A → B) (old : ℕ → A) (p : ℕ) (v : A)
    → field v ≡ field (old p)
    → (q : ℕ) → field (if q == p then v else old q) ≡ field (old q)
override-keeps field old p v e q = elim (Bool-cases (q == p)) [
  | inl c ↦ rw c (e ∙ ap (λ (a : ℕ). field (old a)) (sym ((==_iff q p).0 c)))
  | inr c ↦ rw c refl
]

retain_ext :
    (f g : ℕ → Thread) (tid : ℕ) (ts : List ℕ)
    → ((t : ℕ) → (f t).tid ≡ (g t).tid)
    → retain f tid ts ≡ retain g tid ts
retain_ext f g tid [] h = refl
retain_ext f g tid (t ∷ ts) h = rw (h t, retain_ext f g tid ts h) refl

-- `retain` for each of some numbers.
abbrev pub retain_all : (ℕ → Thread) → List ℕ → List ℕ → List ℕ
retain_all f [] ts = ts
retain_all f (tid ∷ tids) ts = retain_all f tids (retain f tid ts)

retain_all_ext :
    (f g : ℕ → Thread) (tids ts : List ℕ)
    → ((t : ℕ) → (f t).tid ≡ (g t).tid)
    → retain_all f tids ts ≡ retain_all g tids ts
retain_all_ext f g [] ts h = refl
retain_all_ext f g (tid ∷ tids) ts h =
    ap (retain_all f tids) (retain_ext f g tid ts h) ∙ retain_all_ext f g tids (retain g tid ts) h

module _ (M : PageMapper) where
  -- Some threads, all of the process `p`, have ended with this code.
  pub record Ended (p exit_code : ℕ) (s s' : Scheduler M) : Type 0 where
    pub processes : s'.processes ≡ s.processes
    pub threads : s'.threads ≡ s.threads
    pub next_pid : s'.next_pid ≡ s.next_pid
    pub task_queue : s'.task_queue ≡ s.task_queue
    pub allocated : s'.allocated ≡ s.allocated
    pub elsewhere : (q : ℕ) → q ≢ p → s'.process_at q ≡ s.process_at q
    pub pid : (q : ℕ) → (s'.process_at q).pid ≡ (s.process_at q).pid
    pub state : (q : ℕ) → (s'.process_at q).state ≡ (s.process_at q).state
    pub code : (q : ℕ) → (s'.process_at q).allocated_code ≡ (s.process_at q).allocated_code
    pub tid : (t : ℕ) → (s'.thread_at t).tid ≡ (s.thread_at t).tid
    pub process : (t : ℕ) → (s'.thread_at t).process ≡ (s.thread_at t).process
    pub others : (t : ℕ) → (s.thread_at t).process ≢ p → s'.thread_at t ≡ s.thread_at t
    pub fate :
        (t : ℕ)
        → (s'.thread_at t ≡ s.thread_at t)
          ⊎ (((s'.thread_at t).task_state ≡ zombie exit_code)
              × ((s'.thread_at t).stack.stack_size ≡ 0))

  pub Ended-refl : (p exit_code : ℕ) (s : Scheduler M) → Ended p exit_code s s
  Ended-refl p exit_code s = record {
    processes = refl;
    threads = refl;
    next_pid = refl;
    task_queue = refl;
    allocated = refl;
    elsewhere = λ q h. refl;
    pid = λ q. refl;
    state = λ q. refl;
    code = λ q. refl;
    tid = λ t. refl;
    process = λ t. refl;
    others = λ t h. refl;
    fate = λ t. inl refl;
  }

  pub Ended-trans :
      (p exit_code : ℕ) (a b c : Scheduler M)
      → Ended p exit_code a b
      → Ended p exit_code b c
      → Ended p exit_code a c
  Ended-trans p exit_code a b c e f = record {
    processes = f.processes ∙ e.processes;
    threads = f.threads ∙ e.threads;
    next_pid = f.next_pid ∙ e.next_pid;
    task_queue = f.task_queue ∙ e.task_queue;
    allocated = f.allocated ∙ e.allocated;
    elsewhere = λ q h. f.elsewhere q h ∙ e.elsewhere q h;
    pid = λ q. f.pid q ∙ e.pid q;
    state = λ q. f.state q ∙ e.state q;
    code = λ q. f.code q ∙ e.code q;
    tid = λ t. f.tid t ∙ e.tid t;
    process = λ t. f.process t ∙ e.process t;
    others = λ t h. f.others t (λ q. h (sym (e.process t) ∙ q)) ∙ e.others t h;
    fate = λ t. elim (f.fate t) [
      | inr ended ↦ inr ended
      | inl same ↦ elim (e.fate t) [
        | inl before ↦ inl (same ∙ before)
        | inr (state, size) ↦ inr (
          ap (λ (th : Thread). th.task_state) same ∙ state,
          ap (λ (th : Thread). th.stack.stack_size) same ∙ size,
        )
      ]
    ];
  }

  pub exit_thread-Ended :
      (tid exit_code t : ℕ) (s : Scheduler M)
      → Ended (s.thread_at t).process exit_code s (exit_thread M tid exit_code t s)
  unfolding exit_thread free_stack
  exit_thread-Ended tid exit_code t s = record {
    processes = refl;
    threads = refl;
    next_pid = refl;
    task_queue = refl;
    allocated = refl;
    elsewhere = λ q h. rw (ne→==_false q (s.thread_at t).process h) refl;
    pid = override-keeps (λ (v : Process M). v.pid) s.process_at (s.thread_at t).process _ refl;
    state = override-keeps (λ (v : Process M). v.state) s.process_at (s.thread_at t).process _ refl;
    code =
        override-keeps (λ (v : Process M). v.allocated_code) s.process_at (s.thread_at t).process _
          refl;
    tid = override-keeps (λ (v : Thread). v.tid) s.thread_at t _ refl;
    process = override-keeps (λ (v : Thread). v.process) s.thread_at t _ refl;
    others = λ u h. rw (ne→==_false u t λ q. h (ap (λ (a : ℕ). (s.thread_at a).process) q)) refl;
    fate = λ u. elim (Bool-cases (u == t)) [
      | inl e ↦ inr (rw e refl, rw e refl)
      | inr e ↦ inl (rw e refl)
    ];
  }

  -- A thread that `threads` knows is one of the process `p`.
  abbrev pub IsOf : ℕ → Scheduler M → ℕ → Type 0
  IsOf p s tid =
      (info : ProcThreadInfo) × (get_thread M tid s ≡ some info)
      × ((s.thread_at info.thread).process ≡ p)

  pub exit_only-Ended :
      (p tid exit_code : ℕ) (s : Scheduler M)
      → IsOf p s tid
      → Ended p exit_code s (exit_only M tid exit_code s)
  unfolding exit_only
  exit_only-Ended p tid exit_code s (info, known, same) =
      rw (known, exit_only)
        (subst (λ (q : ℕ). Ended q exit_code s (exit_thread M tid exit_code info.thread s)) same
          (exit_thread-Ended tid exit_code info.thread s))

  pub exit_thread-apart :
      (tid exit_code t u : ℕ) (s : Scheduler M)
      → u ≢ t
      → (exit_thread M tid exit_code t s).thread_at u ≡ s.thread_at u
  unfolding exit_thread
  exit_thread-apart tid exit_code t u s h = rw (ne→==_false u t h) refl

  pub exit_thread-threads :
      (tid exit_code t : ℕ) (s : Scheduler M)
      → ((exit_thread M tid exit_code t s).process_at (s.thread_at t).process).threads
        ≡ retain s.thread_at tid (s.process_at (s.thread_at t).process).threads
  unfolding exit_thread
  exit_thread-threads tid exit_code t s = rw (==_refl (s.thread_at t).process) refl

  -- What an exit leaves of the list of the process's threads.
  exit_only-threads :
      (p tid exit_code : ℕ) (s : Scheduler M)
      → IsOf p s tid
      → ((exit_only M tid exit_code s).process_at p).threads
        ≡ retain s.thread_at tid (s.process_at p).threads
  unfolding exit_only
  exit_only-threads p tid exit_code s (info, known, same) =
      rw (known, exit_only)
        (subst
          (λ (q : ℕ).
            ((exit_thread M tid exit_code info.thread s).process_at q).threads
            ≡ retain s.thread_at tid (s.process_at q).threads)
          same (exit_thread-threads tid exit_code info.thread s))

  pub IsOf-Ended :
      (p exit_code tid : ℕ) (s s' : Scheduler M)
      → Ended p exit_code s s'
      → IsOf p s tid
      → IsOf p s' tid
  IsOf-Ended p exit_code tid s s' e (info, known, same) =
      (info, ap (get tid) e.threads ∙ known, e.process info.thread ∙ same)

  pub exit_all-Ended :
      (p exit_code : ℕ) (tids : List ℕ) (s : Scheduler M)
      → All (IsOf p s) tids
      → Ended p exit_code s (exit_all M tids exit_code s)
        × (((exit_all M tids exit_code s).process_at p).threads
            ≡ retain_all s.thread_at tids (s.process_at p).threads)
  unfolding exit_all
  exit_all-Ended p exit_code [] s h = (Ended-refl p exit_code s, refl)
  exit_all-Ended p exit_code (tid ∷ tids) s (first, others) =
      let s1 = exit_only M tid exit_code s in
      let e = exit_only-Ended p tid exit_code s first in
      let (f, left) =
        exit_all-Ended p exit_code tids s1
          (All-imp _ _ tids (λ u. IsOf-Ended p exit_code u s s1 e) others) in
      (
        Ended-trans p exit_code s s1 (exit_all M tids exit_code s1) e f,
        left
            ∙ retain_all_ext s1.thread_at s.thread_at tids (s1.process_at p).threads e.tid
            ∙ ap (retain_all s.thread_at tids) (exit_only-threads p tid exit_code s first),
      )
