-- ===== src/Process/Scheduler/Traces.antt =====
-- What the kernel does with the scheduler over time: processes are made and ended, threads exit, and
-- processors take turns. The calls are atomic, as their locks make them.
use campix.Base.{
  ℕ, zero, suc, ◌<◌, ◌≡◌, refl, sym, ap, subst, ◌∙◌, true, Option, none, some, List, [], ◌∷◌, ◌++◌,
  length, map, get_elem?, Run, ok, panic, arith,
}
use mathlib.Core.List.{append-nil, append_assoc, map-append}
use campix.Vfs.Error.{Result}
use campix.Process.Stack.{PageMapper}
use campix.Process.Scheduler.{is_zombie, ProcThreadInfo, PerCpu, Scheduler, get_thread}
use campix.Process.Scheduler.Create.{PipeMaker, CreateProcessOptions, create_process}
use campix.Process.Scheduler.Exit.{handle_exit, handle_process_exit, kill_process, remove_zombie}
use campix.Process.Scheduler.Schedule.{schedule}
use campix.Process.Scheduler.Live.{IsValid}
use campix.Process.Scheduler.Created.{Grows, Grows-quiet, Admits, create_process-Admits}
use campix.Process.Scheduler.Quiet.{
  handle_process_exit-IsQuiet, handle_exit-IsQuiet, kill_process-IsQuiet,
}
use campix.Process.Scheduler.Admission.{remove_zombie-IsValid}
use campix.Process.Scheduler.Kept.{IsValid-Kept}
use campix.Process.Scheduler.Turns.{Takes, schedule-Turn}

get_elem?-append_left :
    {A : Type 0} (xs ys : List A) (k : ℕ) → k < length xs → get_elem? (xs ++ ys) k ≡ get_elem? xs k
get_elem?-append_left [] ys k h = absurd (omega arith)
get_elem?-append_left (x ∷ xs) ys zero h = refl
get_elem?-append_left (x ∷ xs) ys (suc k) h = get_elem?-append_left xs ys k (omega arith)

get_elem?-waiting :
    {A : Type 0} (xs : List A) (ys : List (Option A)) (k : ℕ) (a : A)
    → get_elem? xs k ≡ some a
    → get_elem? (map some xs ++ ys) k ≡ some (some a)
get_elem?-waiting [] ys k a e = absurd (ground arith)
get_elem?-waiting (x ∷ xs) ys zero a e = ap some e
get_elem?-waiting (x ∷ xs) ys (suc k) a e = get_elem?-waiting xs ys k a e

append-nil_left : {A : Type 0} (xs ys : List A) → xs ++ ys ≡ [] → xs ≡ []
append-nil_left [] ys e = refl
append-nil_left (x ∷ xs) ys e = absurd (ground arith)

module _ (M : PageMapper) (P : PipeMaker) where
  -- One event, and what was chosen if it was a turn of a processor.
  pub data Event (s : Scheduler M) : List (Option ProcThreadInfo) → Scheduler M → Type 0 where
    created :
        {s' : Scheduler M} (p p' : P.State) (r : Result (ℕ × P.File × P.File))
        (options : CreateProcessOptions M) (address : ℕ) (stdout stderr : Option (P.File × P.File))
        → create_process M P options address stdout stderr p s ≡ ok (r, p', s')
        → Event s [] s'
    exited : (tid exit_code : ℕ) → Event s [] (handle_exit M tid exit_code s)
    process_exited : (pid exit_code : ℕ) → Event s [] (handle_process_exit M pid exit_code s)
    killed : (pid : ℕ) → Event s [] (kill_process M pid s)
    zombie_removed :
        (tid : ℕ)
        → ((info : ProcThreadInfo)
            → get_thread M tid s ≡ some info
            → is_zombie (s.thread_at info.thread).task_state ≡ true)
        → Event s [] (remove_zombie M tid s)
    turn :
        {chosen : Option ProcThreadInfo} {s' : Scheduler M} (cpu cpu' : PerCpu)
        → schedule M cpu s ≡ ok (chosen, cpu', s')
        → Event s (chosen ∷ []) s'

  -- Any number of events, with what the turns among them have chosen, the first turn first.
  pub data Trace (s : Scheduler M) : List (Option ProcThreadInfo) → Scheduler M → Type 0 where
    start : Trace s [] s
    then_ :
        {ran chosen : List (Option ProcThreadInfo)} {s' s'' : Scheduler M}
        → Trace s ran s'
        → Event s' chosen s''
        → Trace s (ran ++ chosen) s''

  -- A valid state follows, and the turn, if it is one, takes the front of the queue.
  abbrev pub Follows : Scheduler M → List (Option ProcThreadInfo) → Scheduler M → Type 0
  Follows s ran s' =
      IsValid M s'
      × ((extra : List (Option ProcThreadInfo)) × (map some s.task_queue ++ extra
            ≡ ran ++ map some s'.task_queue))

  Follows-Grows : (s s' : Scheduler M) → Grows M s s' → Follows s [] s'
  Follows-Grows s s' (valid, (extra, queue)) =
      (valid, (map some extra, sym (ap (map some) queue ∙ map-append some s.task_queue extra)))

  Follows-Turn :
      (chosen : Option ProcThreadInfo) (s s' : Scheduler M) (extra : List ProcThreadInfo)
      → IsValid M s'
      → Takes M chosen s.task_queue extra s'.task_queue
      → Follows s (chosen ∷ []) s'
  Follows-Turn (some info) s s' extra valid takes = (
    valid,
    (
      map some extra,
      sym (map-append some s.task_queue extra) ∙ ap (map (λ (i : ProcThreadInfo). some i)) takes,
    ),
  )
  Follows-Turn none s s' extra valid (nothing, left) = (
    valid,
    (
      none ∷ [],
      ap (λ (q : List ProcThreadInfo). map (λ (i : ProcThreadInfo). some i) q ++ none ∷ [])
            (append-nil_left s.task_queue extra nothing)
          ∙ sym (
              ap (λ (q : List ProcThreadInfo). none ∷ map (λ (i : ProcThreadInfo). some i) q) left),
    ),
  )

  Follows-trans :
      (a b c : Scheduler M) (ran chosen : List (Option ProcThreadInfo))
      → Follows a ran b
      → Follows b chosen c
      → Follows a (ran ++ chosen) c
  Follows-trans a b c ran chosen (v, (extra, e)) (w, (extra', f)) = (
    w,
    (
      extra ++ extra',
      sym (append_assoc (map some a.task_queue) extra extra')
          ∙ ap (λ (q : List (Option ProcThreadInfo)). q ++ extra') e
          ∙ append_assoc ran (map some b.task_queue) extra'
          ∙ ap (λ (q : List (Option ProcThreadInfo)). ran ++ q) f
          ∙ sym (append_assoc ran chosen (map some c.task_queue)),
    ),
  )

  abbrev FollowsTurn : Scheduler M → Run (Option ProcThreadInfo × PerCpu × Scheduler M) → Type 0
  FollowsTurn s (ok (chosen, cpu, s')) = Follows s (chosen ∷ []) s'
  FollowsTurn s panic = Unit

  Event-Follows :
      (s s' : Scheduler M) (chosen : List (Option ProcThreadInfo))
      → IsValid M s
      → Event s chosen s'
      → Follows s chosen s'
  unfolding remove_zombie
  Event-Follows s s' chosen valid (created p p' r options address stdout stderr e) =
      Follows-Grows s s'
        (subst (Admits M P s) e (create_process-Admits M P options address stdout stderr p s valid))
  Event-Follows s s' chosen valid (exited tid exit_code) =
      Follows-Grows s s' (Grows-quiet M s s' (handle_exit-IsQuiet M tid exit_code s valid))
  Event-Follows s s' chosen valid (process_exited pid exit_code) =
      Follows-Grows s s' (Grows-quiet M s s' (handle_process_exit-IsQuiet M pid exit_code s valid))
  Event-Follows s s' chosen valid (killed pid) =
      Follows-Grows s s' (Grows-quiet M s s' (kill_process-IsQuiet M pid s valid))
  Event-Follows s s' chosen valid (zombie_removed tid zombies) =
      Follows-Grows s s' (Grows-quiet M s s' (remove_zombie-IsValid M tid s zombies valid, refl))
  Event-Follows s s' chosen valid (turn cpu cpu' e) =
      let t = schedule-Turn M cpu s valid in
      subst (FollowsTurn s) (sym t.returns ∙ e)
        (Follows-Turn t.chosen s t.next t.extra (IsValid-Kept M s t.next t.kept valid) t.takes)

  -- From a valid state, every state that is reached is valid, and the turns have chosen the threads
  -- of the queue in its order, before any that was put behind it.
  pub Trace-Follows :
      (s s' : Scheduler M) (ran : List (Option ProcThreadInfo))
      → IsValid M s
      → Trace s ran s'
      → Follows s ran s'
  Trace-Follows s s' ran valid start = (valid, ([], append-nil (map some s.task_queue)))
  Trace-Follows s s' ran valid (then_ {ran = before} {chosen} {s' = mid} t e) =
      let so_far = Trace-Follows s mid before valid t in
      Follows-trans s mid s' before chosen so_far (Event-Follows mid s' chosen so_far.0 e)

  -- The thread at a place of the queue, in a valid state, is the one that the turn of that number
  -- runs, whatever else happens in between.
  pub Trace-runs_in_turn :
      (s s' : Scheduler M) (ran : List (Option ProcThreadInfo)) (k : ℕ) (info : ProcThreadInfo)
      → IsValid M s
      → Trace s ran s'
      → get_elem? s.task_queue k ≡ some info
      → k < length ran
      → get_elem? ran k ≡ some (some info)
  Trace-runs_in_turn s s' ran k info valid t waits turns =
      let (valid', (extra, order)) = Trace-Follows s s' ran valid t in
      sym (get_elem?-append_left ran (map some s'.task_queue) k turns)
      ∙ ap (λ (q : List (Option ProcThreadInfo)). get_elem? q k) (sym order)
      ∙ get_elem?-waiting s.task_queue extra k info waits
