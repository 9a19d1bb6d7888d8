-- ===== src/Process/Scheduler/Created.antt =====
-- That `create_process` keeps the scheduler's invariant, whether it makes a process or fails.
use campix.Base.{
  ℕ, zero, suc, ◌+◌, ◌%◌, ◌^◌, ◌≡◌, refl, sym, ◌∙◌, false, Option, List, [], ◌∷◌, ◌++◌, length, Run,
  ok, panic, inl, inr, Bool-cases,
}
use mathlib.Core.List.{append-nil}
use campix.Vfs.Error.{Result, done, fail}
use campix.Process.Stack.{PageMapper}
use campix.Process.Scheduler.{contains_key, ProcThreadInfo, Scheduler, pid_loop, get_next_pid}
use campix.Process.Scheduler.Create.{
  PipeMaker, CreateProcessOptions, add_process, stream, with_stderr, with_stdout, create_process,
}
use campix.Process.Scheduler.Live.{IsValid}
use campix.Process.Scheduler.Quiet.{IsQuiet}
use campix.Process.Scheduler.Admission.{admitted, add_process-IsValid}
use campix.Process.Scheduler.Kept.{IsValid-Kept, Kept-same}

module _ (M : PageMapper) where
  -- A valid state, with nothing taken out of the queue.
  abbrev pub Grows : Scheduler M → Scheduler M → Type 0
  Grows s s' =
      IsValid M s' × ((extra : List ProcThreadInfo) × (s'.task_queue ≡ s.task_queue ++ extra))

  pub Grows-quiet : (s s' : Scheduler M) → IsQuiet M s s' → Grows s s'
  Grows-quiet s s' (valid, queue) = (valid, ([], queue ∙ sym (append-nil s.task_queue)))

  -- No thread has the number that the loop gives.
  abbrev IsFree : List (ℕ × ProcThreadInfo) → Run (ℕ × ℕ) → Type 0
  IsFree threads (ok (pid, next)) = contains_key pid threads ≡ false
  IsFree threads panic = Unit

  pid_loop-IsFree :
      (fuel pid : ℕ) (threads : List (ℕ × ProcThreadInfo))
      → IsFree threads (pid_loop M fuel pid threads)
  pid_loop-IsFree zero pid threads = tt
  pid_loop-IsFree (suc fuel) pid threads = elim (Bool-cases (contains_key pid threads)) [
    | inl used ↦ rw used (pid_loop-IsFree fuel ((pid + 1) % 2 ^ 32) threads)
    | inr free ↦ rw free free
  ]

module _ (M : PageMapper) (P : PipeMaker) where
  -- What `create_process` returns leaves a valid state.
  abbrev pub Admits :
      Scheduler M → Run (Result (ℕ × P.File × P.File) × P.State × Scheduler M) → Type 0
  Admits s (ok (r, p, s')) = Grows M s s'
  Admits s panic = Unit

  with_stderr-Admits :
      (options : CreateProcessOptions M) (address pid : ℕ) (stdout : P.File)
      (err : Result (P.File × P.File) × P.State) (s : Scheduler M)
      → IsValid M s
      → contains_key pid s.threads ≡ false
      → Admits s (with_stderr M P options address pid stdout err s)
  unfolding add_process
  with_stderr-Admits options address pid stdout (done err, p) s valid free = (
    add_process-IsValid M options address pid s free valid,
    (admitted M options address pid s ∷ [], refl),
  )
  with_stderr-Admits options address pid stdout (fail e, p) s valid free =
      Grows-quiet M s s (valid, refl)

  with_stdout-Admits :
      (options : CreateProcessOptions M) (address pid : ℕ) (err : Option (P.File × P.File))
      (out : Result (P.File × P.File) × P.State) (s : Scheduler M)
      → IsValid M s
      → contains_key pid s.threads ≡ false
      → Admits s (with_stdout M P options address pid err out s)
  with_stdout-Admits options address pid err (done out, p) s valid free =
      with_stderr-Admits options address pid out.0 (stream M P err p) s valid free
  with_stdout-Admits options address pid err (fail e, p) s valid free =
      Grows-quiet M s s (valid, refl)

  pub create_process-Admits :
      (options : CreateProcessOptions M) (address : ℕ) (out err : Option (P.File × P.File))
      (p : P.State) (s : Scheduler M)
      → IsValid M s
      → Admits s (create_process M P options address out err p s)
  unfolding create_process get_next_pid
  create_process-Admits options address out err p s valid =
      by_loop (pid_loop M (suc (length s.threads)) s.next_pid s.threads)
        (pid_loop-IsFree M (suc (length s.threads)) s.next_pid s.threads)
    where
      by_loop :
          (r : Run (ℕ × ℕ))
          → IsFree M s.threads r
          → Admits s
              (elim (elim r as (λ _. Run (ℕ × Scheduler M)) [
                | ok (pid, next) ↦ ok (pid, record s { next_pid = next })
                | panic ↦ panic
              ]) [
                | ok (pid, s') ↦ with_stdout M P options address pid err (stream M P out p) s'
                | panic ↦ panic
              ])
      by_loop panic free = tt
      by_loop (ok (pid, next)) free =
          with_stdout-Admits options address pid err (stream M P out p)
            (record s { next_pid = next })
            (IsValid-Kept M s _ (Kept-same M s s.task_queue next) valid) free
