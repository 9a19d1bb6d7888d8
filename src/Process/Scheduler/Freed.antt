-- ===== src/Process/Scheduler/Freed.antt =====
-- What `handle_process_exit` takes out of the page table of a process: the pages of its code and of
-- the stacks of its threads.
use campix.Base.{ℕ, zero, suc, ◌+◌, ◌-◌, ◌/◌, ◌≡◌, ◌≢◌, some, List, [], ◌∷◌, ◌++◌, All, map}
use campix.Paging.{page_size}
use campix.Process.Stack.{PageMapper, ProcessAllocatedCode, ThreadStack, get_bottom}
use campix.Process.Scheduler.{ProcThreadInfo, Thread, Process, Scheduler, get_thread}
use campix.Process.Scheduler.Ends.{Ends}

-- No thread stands twice on the list.
abbrev pub Distinct : List ℕ → Type 0
Distinct [] = Unit
Distinct (t ∷ ts) = All (λ u. u ≢ t) ts × Distinct ts

abbrev pub pages_from : ℕ → ℕ → List ℕ
pages_from zero page = []
pages_from (suc count) page = page ∷ pages_from count (page + page_size)

-- The pages that begin at the bottom of a stack or above it, and below its top.
abbrev pub stack_pages : ThreadStack → List ℕ
stack_pages s =
    pages_from ((s.stack_top - get_bottom s + (page_size - 1)) / page_size) (get_bottom s)

abbrev pub threads_pages : (ℕ → Thread) → List ℕ → List ℕ
threads_pages thread_at [] = []
threads_pages thread_at (t ∷ ts) = stack_pages (thread_at t).stack ++ threads_pages thread_at ts

abbrev pub code_pages : ProcessAllocatedCode → List ℕ
code_pages code = map (λ alloc. alloc.0) code

module _ (M : PageMapper) where
  -- The table without the pages, which are taken out in this order.
  abbrev pub unmap_all : List ℕ → M.State → M.State
  unmap_all [] table = table
  unmap_all (page ∷ pages) table = unmap_all pages (M.unmap_4kb page table)

  -- The process `p` has lost these pages, and has these zombies more.
  abbrev Loses : ℕ → List ℕ → List ℕ → Scheduler M → Scheduler M → Type 0
  Loses p pages zombies s s' =
      ((s'.process_at p).page_table ≡ unmap_all pages (s.process_at p).page_table)
      × ((s'.process_at p).zombie_threads ≡ (s.process_at p).zombie_threads ++ zombies)

  -- The thread `t`, which is one of the process `p`, is known by this number.
  abbrev IsKnown : ℕ → Scheduler M → ℕ → ℕ → Type 0
  IsKnown p s tid t =
      (info : ProcThreadInfo) × (get_thread M tid s ≡ some info)
      × (info.thread ≡ t)
      × ((s.thread_at t).process ≡ p)

  -- The process's memory is given back: out of its page table are taken the pages of its code and
  -- those of its threads' stacks, and no other.
  pub record Frees (p : ℕ) (s s' : Scheduler M) : Type 0 where
    pub page_table :
        (s'.process_at p).page_table
        ≡ unmap_all
            (code_pages (s.process_at p).allocated_code
              ++ threads_pages s.thread_at (s.process_at p).threads)
            (s.process_at p).page_table
    pub zombie_threads :
        (s'.process_at p).zombie_threads
        ≡ (s.process_at p).zombie_threads ++ (s.process_at p).threads
    pub pid : (s'.process_at p).pid ≡ (s.process_at p).pid
