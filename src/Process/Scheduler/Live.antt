-- ===== src/Process/Scheduler/Live.antt =====
-- The invariant of the scheduler, and that ending threads and processes keeps it.
use campix.Base.{
  ℕ, ◌<◌, ◌≡◌, ◌≢◌, inl, inr, sym, ap, ap₂, subst, ◌∙◌, Bool, true, false, some, List, [], ◌∷◌, All,
  All-imp, ◌==◌, ==_iff, Bool-cases, if◌then◌else◌, arith,
}
use campix.Process.Stack.{PageMapper}
use campix.Process.Scheduler.{
  get, is_zombie, ProcThreadInfo, Thread, Process, Scheduler, new, get_process, get_thread,
}
use campix.Process.Scheduler.Exit.{retain, exit_thread}
use campix.Process.Scheduler.Ending.{exit_thread-Ended, exit_thread-threads, exit_thread-apart}
use campix.Process.Scheduler.Ends.{IsLinked}

-- What holds of both branches holds of the conditional.
pub either_lem {ℓ κ} :
    {A : Type ℓ} (P : A → Type κ) (b : Bool) (x y : A) → P x → P y → P (if b then x else y)
either_lem P true x y h k = h
either_lem P false x y h k = k

-- What holds of some threads holds of those that `retain` leaves, and none of them has the number.
retain-All {κ} :
    (P : ℕ → Type κ) (f : ℕ → Thread) (tid : ℕ) (ts : List ℕ)
    → All P ts
    → All (λ t. P t × ((f t).tid ≢ tid)) (retain f tid ts)
retain-All P f tid [] h = tt
retain-All P f tid (t ∷ ts) (h, hs) = elim (Bool-cases ((f t).tid == tid)) [
  | inl e ↦ rw e (retain-All P f tid ts hs)
  | inr e ↦
      let apart : (f t).tid ≢ tid = λ p. absurd (ground (arith, e, p)) in
      rw e ((h, apart), retain-All P f tid ts hs)
]

module _ (M : PageMapper) where
  -- A thread of the process `p` that is known by its number and has not ended.
  abbrev pub IsLive : Scheduler M → ℕ → ℕ → Type 0
  IsLive s p t =
      IsLinked M s p t × (t < s.allocated) × (is_zombie (s.thread_at t).task_state ≡ false)

  -- A registered process has this number, is not a zombie, and has only threads that are known and
  -- live.
  pub record IsRegistered (s : Scheduler M) (pid p : ℕ) : Type 0 where
    pub old : p < s.allocated
    pub pid_same : (s.process_at p).pid ≡ pid
    pub live : is_zombie (s.process_at p).state ≡ false
    pub threads : All (IsLive s p) (s.process_at p).threads

  pub record IsValid (s : Scheduler M) : Type 0 where
    pub registered : (pid p : ℕ) → get_process M pid s ≡ some p → IsRegistered s pid p
    pub known :
        (tid : ℕ) (info : ProcThreadInfo)
        → get_thread M tid s ≡ some info
        → (info.thread < s.allocated) × ((s.thread_at info.thread).tid ≡ tid)

  pub new-IsValid :
      (process_at : ℕ → Process M) (thread_at : ℕ → Thread) → IsValid (new M process_at thread_at)
  new-IsValid process_at thread_at = record {
    registered = λ pid p e. absurd (ground arith);
    known = λ tid info e. absurd (ground arith);
  }

  -- A thread that is as before in all that matters is still live.
  pub IsLive-kept :
      (s s' : Scheduler M) (p t : ℕ)
      → s'.threads ≡ s.threads
      → s'.allocated ≡ s.allocated
      → s'.thread_at t ≡ s.thread_at t
      → IsLive s p t
      → IsLive s' p t
  IsLive-kept s s' p t threads allocated same ((info, known, of_t, of_p), old, live) = (
    (
      info,
      ap₂ (λ (th : Thread) (m : List (ℕ × ProcThreadInfo)). get th.tid m) same threads ∙ known,
      of_t,
      ap (λ (th : Thread). th.process) same ∙ of_p,
    ),
    subst (λ (n : ℕ). t < n) (sym allocated) old,
    ap (λ (th : Thread). is_zombie th.task_state) same ∙ live,
  )

  -- The threads that a process still has are still live.
  still-IsLive :
      (tid exit_code t p : ℕ) (s : Scheduler M)
      → (s.thread_at t).tid ≡ tid
      → All (IsLive s p) (s.process_at p).threads
      → let s' = exit_thread M tid exit_code t s in All (IsLive s' p) (s'.process_at p).threads
  still-IsLive tid exit_code t p s named live =
      let q = (s.thread_at t).process in
      let s' = exit_thread M tid exit_code t s in
      let e = exit_thread-Ended M tid exit_code t s in
      let kept : (u : ℕ) → s'.thread_at u ≡ s.thread_at u → IsLive s p u → IsLive s' p u =
        λ u same. IsLive-kept s s' p u e.threads e.allocated same in
      elim (Bool-cases (p == q)) [
        | inl c ↦
            let of_t : q ≡ p = sym ((==_iff p q).0 c) in
            subst (λ (a : ℕ). All (IsLive s' p) (s'.process_at a).threads) of_t
              (subst (All (IsLive s' p)) (sym (exit_thread-threads M tid exit_code t s)) (
                All-imp _ _ (retain s.thread_at tid (s.process_at q).threads)
                  (λ u h.
                    kept u
                      (exit_thread-apart M tid exit_code t u s
                        λ a. h.1 (ap (λ (v : ℕ). (s.thread_at v).tid) a ∙ named))
                      h.0)
                  (retain-All (IsLive s p) s.thread_at tid (s.process_at q).threads (
                    subst (λ (a : ℕ). All (IsLive s p) (s.process_at a).threads) (sym of_t) live))))
        | inr c ↦
            let apart : p ≢ q = λ a. absurd (ground (arith, a, c)) in
            subst (λ (v : Process M). All (IsLive s' p) v.threads) (sym (e.elsewhere p apart))
              (All-imp _ _ (s.process_at p).threads
                (λ u h. kept u (e.others u λ a. apart (sym h.0.3 ∙ a)) h) live)
      ]

  pub exit_thread-IsValid :
      (tid exit_code : ℕ) (info : ProcThreadInfo) (s : Scheduler M)
      → IsValid s
      → get_thread M tid s ≡ some info
      → IsValid (exit_thread M tid exit_code info.thread s)
  exit_thread-IsValid tid exit_code info s valid found =
      let t = info.thread in
      let s' = exit_thread M tid exit_code t s in
      let e = exit_thread-Ended M tid exit_code t s in
      record {
        registered = λ pid p r.
            let old = valid.registered pid p (ap (get pid) (sym e.processes) ∙ r) in
            record {
              old = subst (λ (n : ℕ). p < n) (sym e.allocated) old.old;
              pid_same = e.pid p ∙ old.pid_same;
              live = ap is_zombie (e.state p) ∙ old.live;
              threads = still-IsLive tid exit_code t p s (valid.known tid info found).1 old.threads;
            };
        known = λ u i k.
            let (old, same) = valid.known u i (ap (get u) (sym e.threads) ∙ k) in
            (subst (λ (n : ℕ). i.thread < n) (sym e.allocated) old, e.tid i.thread ∙ same);
      }
