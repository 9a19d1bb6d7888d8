-- ===== src/Process/Scheduler/Quiet.antt =====
-- That the end of threads and processes keeps the scheduler's invariant, and leaves the queue as it
-- is.
use campix.Base.{
  ℕ, ◌+◌, ◌<◌, ◌≡◌, ◌≢◌, refl, sym, ap, subst, ◌∙◌, Option, none, some, All, All-imp, ◌==◌, length,
}
use campix.Process.Stack.{PageMapper}
use campix.Process.Scheduler.{
  get, is_zombie, ProcThreadInfo, Process, Scheduler, get_process, get_thread,
}
use campix.Process.Scheduler.Exit.{
  exit_thread, handle_process_exit, handle_exit, sigkill, kill_process,
}
use campix.Process.Scheduler.Keys.{get-remove-some}
use campix.Process.Scheduler.Ending.{exit_thread-Ended}
use campix.Process.Scheduler.Ends.{Ends, handle_process_exit-Ends}
use campix.Process.Scheduler.Live.{IsLive, IsValid, IsLive-kept, exit_thread-IsValid, either_lem}

module _ (M : PageMapper) where
  -- The process that is ended has one number only, so the others stay as they are.
  Ends-IsValid :
      (pid p exit_code : ℕ) (s s' : Scheduler M)
      → IsValid M s
      → get_process M pid s ≡ some p
      → Ends M pid p exit_code s s'
      → IsValid M s'
  Ends-IsValid pid p exit_code s s' valid found ends = record {
    registered = λ i q r.
        let (other, r0) =
          get-remove-some i pid s.processes q (ap (get i) (sym ends.unregistered) ∙ r) in
        let old = valid.registered i q r0 in
        let apart : q ≢ p = λ a. other (
          sym old.pid_same
          ∙ ap (λ (v : ℕ). (s.process_at v).pid) a
          ∙ (valid.registered pid p found).pid_same) in
        let same = ends.elsewhere q apart in
        record {
          old = subst (λ (n : ℕ). q < n) (sym ends.allocated) old.old;
          pid_same = ap (λ (v : Process M). v.pid) same ∙ old.pid_same;
          live = ap (λ (v : Process M). is_zombie v.state) same ∙ old.live;
          threads =
              subst (λ (v : Process M). All (IsLive M s' q) v.threads) (sym same)
                (All-imp _ _ (s.process_at q).threads
                  (λ u h.
                    IsLive-kept M s s' q u ends.known ends.allocated
                      (ends.others u λ a. apart (sym h.0.3 ∙ a)) h)
                  old.threads);
        };
    known = λ u i k.
        let (old, same) = valid.known u i (ap (get u) (sym ends.known) ∙ k) in
        (subst (λ (n : ℕ). i.thread < n) (sym ends.allocated) old, ends.tid i.thread ∙ same);
  }

  -- A valid state, with the same queue.
  abbrev pub IsQuiet : Scheduler M → Scheduler M → Type 0
  IsQuiet s s' = IsValid M s' × (s'.task_queue ≡ s.task_queue)

  pub handle_process_exit-IsQuiet :
      (pid exit_code : ℕ) (s : Scheduler M)
      → IsValid M s
      → IsQuiet s (handle_process_exit M pid exit_code s)
  unfolding handle_process_exit
  handle_process_exit-IsQuiet pid exit_code s valid = by_registration (get_process M pid s) refl
    where
      by_registration :
          (r : Option ℕ)
          → get_process M pid s ≡ r
          → IsQuiet s (handle_process_exit M pid exit_code s)
      by_registration none e = rw (e, handle_process_exit) (valid, refl)
      by_registration (some p) e =
          let ends = handle_process_exit-Ends M pid p exit_code s e (
            All-imp _ _ (s.process_at p).threads (λ u h. h.0) (valid.registered pid p e).threads) in
          (Ends-IsValid pid p exit_code s _ valid e ends, ends.task_queue)

  pub kill_process-IsQuiet :
      (pid : ℕ) (s : Scheduler M) → IsValid M s → IsQuiet s (kill_process M pid s)
  unfolding kill_process
  kill_process-IsQuiet pid s valid = by_registration (get_process M pid s)
    where
      killed : Scheduler M
      killed = handle_process_exit M pid (128 + sigkill) s

      by_registration : (r : Option ℕ) → IsQuiet s (elim r [ some p ↦ killed | none ↦ s ])
      by_registration none = (valid, refl)
      by_registration (some p) = handle_process_exit-IsQuiet pid (128 + sigkill) s valid

  pub handle_exit-IsQuiet :
      (tid exit_code : ℕ) (s : Scheduler M)
      → IsValid M s
      → IsQuiet s (handle_exit M tid exit_code s)
  unfolding handle_exit
  handle_exit-IsQuiet tid exit_code s valid = by_thread (get_thread M tid s) refl
    where
      by_thread :
          (r : Option ProcThreadInfo)
          → get_thread M tid s ≡ r
          → IsQuiet s (handle_exit M tid exit_code s)
      by_thread none e = rw (e, handle_exit) (valid, refl)
      by_thread (some info) e =
          let s' = exit_thread M tid exit_code info.thread s in
          let process = s'.process_at (s.thread_at info.thread).process in
          let valid' = exit_thread-IsValid M tid exit_code info s valid e in
          let queue = (exit_thread-Ended M tid exit_code info.thread s).task_queue in
          let (ended, queue') = handle_process_exit-IsQuiet process.pid exit_code s' valid' in
          rw (e, handle_exit)
            (either_lem (IsQuiet s) (length process.threads == 0)
              (handle_process_exit M process.pid exit_code s') s' (ended, queue' ∙ queue)
              (valid', queue))
