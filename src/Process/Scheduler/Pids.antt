-- ===== src/Process/Scheduler/Pids.antt =====
-- That `get_next_pid` comes to an end, with the first number from `next_pid` on that no thread has.
use campix.Base.{
  ℕ, zero, suc, ◌+◌, ◌%◌, ◌^◌, ◌≤◌, ◌<◌, ◌≡◌, ◌⊎◌, inl, inr, refl, sym, ap, ap₂, ◌∙◌, true, false,
  List, Bool-cases, length, Run, ok, arith,
}
use campix.Process.Stack.{PageMapper}
use campix.Process.Scheduler.Keys.{different_keys}
use campix.Process.Scheduler.{contains_key, ProcThreadInfo, Scheduler, pid_loop, get_next_pid}

module _ (threads : List (ℕ × ProcThreadInfo)) where
  -- The number that is tried after `k` others.
  abbrev pub nth_pid : ℕ → ℕ → ℕ
  nth_pid pid k = (pid + k) % 2 ^ 32

  abbrev Used : ℕ → ℕ → Type 0
  Used pid n = (j : ℕ) → j < n → contains_key (nth_pid pid j) threads ≡ true

  abbrev Found : ℕ → ℕ → Run (ℕ × ℕ) → Type 0
  Found fuel pid r =
      (k : ℕ) × (k < fuel)
      × (r ≡ ok (nth_pid pid k, nth_pid pid (suc k)))
      × (contains_key (nth_pid pid k) threads ≡ false)
      × Used pid k

  shifted : (pid j : ℕ) → nth_pid ((pid + 1) % 2 ^ 32) j ≡ nth_pid pid (suc j)
  shifted pid j = omega arith

  Used-suc :
      (pid n : ℕ)
      → pid < 2 ^ 32
      → contains_key pid threads ≡ true
      → Used ((pid + 1) % 2 ^ 32) n
      → Used pid (suc n)
  Used-suc pid n h here later zero l = ap (λ (p : ℕ). contains_key p threads) (omega arith) ∙ here
  Used-suc pid n h here later (suc j) l =
      ap (λ (p : ℕ). contains_key p threads) (sym (shifted pid j)) ∙ later j (omega arith)

  -- The loop finds the first number that is not used, or runs out of fuel on used ones.
  pid_loop_lem :
      (M : PageMapper) (fuel pid : ℕ)
      → pid < 2 ^ 32
      → Found fuel pid (pid_loop M fuel pid threads) ⊎ Used pid fuel
  pid_loop_lem M zero pid h = inr (λ j l. absurd (omega arith))
  pid_loop_lem M (suc fuel) pid h = elim (Bool-cases (contains_key pid threads)) [
    | inr e ↦
        let same : pid ≡ nth_pid pid 0 = omega arith in
        inl (
          0,
          omega arith,
          rw e (ap (λ (p : ℕ). ok (p, (pid + 1) % 2 ^ 32)) same),
          ap (λ (p : ℕ). contains_key p threads) (sym same) ∙ e,
          λ j l. absurd (omega arith),
        )
    | inl e ↦ elim (pid_loop_lem M fuel ((pid + 1) % 2 ^ 32) (omega arith)) [
      | inl (k, l, run, free, used) ↦ inl (
        suc k,
        omega (arith, l),
        rw e (run ∙ ap₂ (λ (p q : ℕ). ok (p, q)) (shifted pid k) (shifted pid (suc k))),
        ap (λ (p : ℕ). contains_key p threads) (sym (shifted pid k)) ∙ free,
        Used-suc pid k h e used,
      )
      | inr used ↦ inr (Used-suc pid fuel h e used)
    ]
  ]

  -- There are more numbers than threads.
  not_all-Used : (pid : ℕ) → length threads < 2 ^ 32 → ¬ Used pid (suc (length threads))
  not_all-Used pid h used =
      let most =
        different_keys (suc (length threads)) (nth_pid pid) threads
          (λ i j l k e. omega (arith, l, k, h, e)) used in
      omega (arith, most)

module _ (M : PageMapper) where
  -- When fewer than 2 ^ 32 threads are known, `get_next_pid` returns. It gives the first number from
  -- `next_pid` on, modulo 2 ^ 32, that no known thread has, and the next call goes on behind it;
  -- nothing else changes. The loop is passed at most once more than there are threads.
  pub get_next_pid-IsFirst :
      (s : Scheduler M)
      → length s.threads < 2 ^ 32
      → s.next_pid < 2 ^ 32
      → (k : ℕ) × (k ≤ length s.threads)
        × (get_next_pid M s
            ≡ ok (
              nth_pid s.threads s.next_pid k,
              record s { next_pid = nth_pid s.threads s.next_pid (suc k) },
            ))
        × (contains_key (nth_pid s.threads s.next_pid k) s.threads ≡ false)
        × ((j : ℕ) → j < k → contains_key (nth_pid s.threads s.next_pid j) s.threads ≡ true)
  unfolding get_next_pid
  get_next_pid-IsFirst s h n =
      elim (pid_loop_lem s.threads M (suc (length s.threads)) s.next_pid n) [
        | inl (k, l, run, free, used) ↦
            (k, omega (arith, l), rw (run, get_next_pid) refl, free, used)
        | inr used ↦ absurd (not_all-Used s.threads s.next_pid h used)
      ]
