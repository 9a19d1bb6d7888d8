-- ===== src/Process/Scheduler/Admission.antt =====
-- That a new process, and the removal of a zombie, keep the scheduler's invariant.
use campix.Base.{
  ℕ, ◌+◌, ◌<◌, ◌≡◌, ◌≢◌, inl, inr, refl, sym, true, ap, subst, ◌∙◌, false, none, some, All, All-imp,
  ◌==◌, ==_iff, ne→==_false, Bool-cases, arith,
}
use mathlib.Core.Option.{some-injective}
use campix.Process.Stack.{PageMapper}
use campix.Process.Scheduler.{
  get, insert, contains_key, is_zombie, ProcThreadInfo, Thread, Process, Scheduler, get_thread,
}
use campix.Process.Scheduler.Create.{CreateProcessOptions, add_process}
use campix.Process.Scheduler.Exit.{remove_zombie}
use campix.Process.Scheduler.Keys.{
  get-insert_self, get-insert_ne, get-none_of_contains_key, get-remove_ne, get-remove-some,
}
use campix.Process.Scheduler.Ending.{override_self}
use campix.Process.Scheduler.Live.{IsLive, IsRegistered, IsValid}

module _ (M : PageMapper) (options : CreateProcessOptions M) (address pid : ℕ)
    (s : Scheduler M) where
  abbrev after : Scheduler M
  after = add_process M options address pid s

  -- The new thread, as the scheduler knows it.
  abbrev pub admitted : ProcThreadInfo
  admitted = record { thread = s.allocated + 1; pid = pid; tid = pid }

  process_at-before : (q : ℕ) → q < s.allocated → after.process_at q ≡ s.process_at q
  unfolding add_process
  process_at-before q h = rw (ne→==_false q s.allocated λ e. omega (arith, h, e)) refl

  thread_at-before : (t : ℕ) → t < s.allocated → after.thread_at t ≡ s.thread_at t
  unfolding add_process
  thread_at-before t h = rw (ne→==_false t (s.allocated + 1) λ e. omega (arith, h, e)) refl

  module _ (free : contains_key pid s.threads ≡ false) where
    -- The threads that are known have other numbers.
    other_tid : (tid : ℕ) (info : ProcThreadInfo) → get_thread M tid s ≡ some info → tid ≢ pid
    other_tid tid info known same =
        let clash : none ≡ some info =
          sym (get-none_of_contains_key pid s.threads free)
          ∙ ap (λ (i : ℕ). get i s.threads) (sym same)
          ∙ known in
        ground arith

    known-before :
        (tid : ℕ) (info : ProcThreadInfo)
        → get_thread M tid s ≡ some info
        → get_thread M tid after ≡ some info
    unfolding add_process
    known-before tid info known =
        get-insert_ne tid pid admitted s.threads (other_tid tid info known) ∙ known

    IsLive-before : (p t : ℕ) → IsLive M s p t → IsLive M after p t
    unfolding add_process
    IsLive-before p t ((info, known, of_t, of_p), old, live) =
        let same = thread_at-before t old in
        (
          (
            info,
            ap (λ (th : Thread). get th.tid after.threads) same ∙ known-before _ info known,
            of_t,
            ap (λ (th : Thread). th.process) same ∙ of_p,
          ),
          omega (arith, old),
          ap (λ (th : Thread). is_zombie th.task_state) same ∙ live,
        )

    IsRegistered-before : (i q : ℕ) → IsRegistered M s i q → IsRegistered M after i q
    unfolding add_process
    IsRegistered-before i q r =
        let same = process_at-before q r.old in
        record {
          old = omega (arith, r.old);
          pid_same = ap (λ (v : Process M). v.pid) same ∙ r.pid_same;
          live = ap (λ (v : Process M). is_zombie v.state) same ∙ r.live;
          threads =
              subst (λ (v : Process M). All (IsLive M after q) v.threads) (sym same)
                (All-imp _ _ (s.process_at q).threads (IsLive-before q) r.threads);
        }

    IsLive-new : IsLive M after s.allocated (s.allocated + 1)
    unfolding add_process
    IsLive-new =
        let here =
          λ (th : Thread). override_self (s.allocated + 1) th (s.thread_at (s.allocated + 1)) in
        (
          (
            admitted,
            ap (λ (th : Thread). get th.tid after.threads) (here _)
                ∙ get-insert_self pid admitted s.threads,
            refl,
            ap (λ (th : Thread). th.process) (here _),
          ),
          omega arith,
          ap (λ (th : Thread). is_zombie th.task_state) (here _),
        )

    IsRegistered-new : IsRegistered M after pid s.allocated
    unfolding add_process
    IsRegistered-new =
        let here = λ (v : Process M). override_self s.allocated v (s.process_at s.allocated) in
        record {
          old = omega arith;
          pid_same = ap (λ (v : Process M). v.pid) (here _);
          live = ap (λ (v : Process M). is_zombie v.state) (here _);
          threads =
              subst (λ (v : Process M). All (IsLive M after s.allocated) v.threads) (sym (here _))
                (IsLive-new, tt);
        }

    pub add_process-IsValid : IsValid M s → IsValid M after
    unfolding add_process
    add_process-IsValid valid = record {
      registered = λ i q e. elim (Bool-cases (pid == i)) [
        | inl c ↦
            let same : pid ≡ i = (==_iff pid i).0 c in
            let new : some s.allocated ≡ some q =
              sym (get-insert_self pid s.allocated s.processes)
              ∙ ap (λ (j : ℕ). get j (insert pid s.allocated s.processes)) same
              ∙ e in
            subst (λ (j : ℕ). IsRegistered M after j q) same
              (subst (IsRegistered M after pid) (some-injective _ _ new) IsRegistered-new)
        | inr c ↦
            let apart : i ≢ pid = λ a. absurd (ground (arith, a, c)) in
            IsRegistered-before i q
              (valid.registered i q (sym (get-insert_ne i pid s.allocated s.processes apart) ∙ e))
      ];
      known = λ tid info e. elim (Bool-cases (pid == tid)) [
        | inl c ↦
            let same : pid ≡ tid = (==_iff pid tid).0 c in
            let new : some admitted ≡ some info =
              sym (get-insert_self pid admitted s.threads)
              ∙ ap (λ (j : ℕ). get j (insert pid admitted s.threads)) same
              ∙ e in
            let at : s.allocated + 1 ≡ info.thread =
              ap (λ (j : ProcThreadInfo). j.thread) (some-injective _ _ new) in
            (
              omega (arith, at),
              ap (λ (t : ℕ). (after.thread_at t).tid) (sym at)
                  ∙ ap (λ (th : Thread). th.tid) (override_self (s.allocated + 1) _ _)
                  ∙ same,
            )
        | inr c ↦
            let apart : tid ≢ pid = λ a. absurd (ground (arith, a, c)) in
            let (old, same) =
              valid.known tid info (sym (get-insert_ne tid pid admitted s.threads apart) ∙ e) in
            (
              omega (arith, old),
              ap (λ (th : Thread). th.tid) (thread_at-before info.thread old) ∙ same,
            )
      ];
    }

-- No live thread has the number of a zombie, so a zombie can be forgotten.
pub remove_zombie-IsValid :
    (M : PageMapper) (tid : ℕ) (s : Scheduler M)
    → ((info : ProcThreadInfo)
        → get_thread M tid s ≡ some info
        → is_zombie (s.thread_at info.thread).task_state ≡ true)
    → IsValid M s
    → IsValid M (remove_zombie M tid s)
unfolding remove_zombie
remove_zombie-IsValid M tid s zombies valid = record {
  registered = λ i q e.
      let old = valid.registered i q e in
      record {
        old = old.old;
        pid_same = old.pid_same;
        live = old.live;
        threads = All-imp _ _ (s.process_at q).threads (still-IsLive q) old.threads;
      };
  known = λ u info e. valid.known u info (get-remove-some u tid s.threads info e).1;
}
  where
    still-IsLive : (q t : ℕ) → IsLive M s q t → IsLive M (remove_zombie M tid s) q t
    still-IsLive q t ((info, known, of_t, of_q), old, live) =
        let apart : (s.thread_at t).tid ≢ tid = λ a.
          let clash : false ≡ true =
            sym live
            ∙ ap (λ (u : ℕ). is_zombie (s.thread_at u).task_state) (sym of_t)
            ∙ zombies info (ap (λ (i : ℕ). get i s.threads) (sym a) ∙ known) in
          ground arith in
        (
          (info, get-remove_ne (s.thread_at t).tid tid s.threads apart ∙ known, of_t, of_q),
          old,
          live,
        )
