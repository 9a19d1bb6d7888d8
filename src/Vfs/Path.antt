-- ===== src/Vfs/Path.antt =====
-- `PathSplitter` of src/drivers/vfs.rs: the walk over the parts of a path, a list of characters.
-- A `PathSplitterPeek` is the slice and the index that it would move the splitter to.
pub mod Parts
use campix.Base.{
  ℕ, ◌+◌, ◌-◌, Bool, not, Option, none, some, List, [], ◌∷◌, leb, ◌==◌, if◌then◌else◌, length, take,
  drop,
}

pub record PathSplitter : Type 0 where
  pub path : List ℕ
  pub idx : ℕ
  pub last_part : Option (List ℕ)

-- `c == '/'`
abbrev pub is_slash : ℕ → Bool
is_slash c = c == 47

abbrev pub in_part : ℕ → Bool
in_part c = not (is_slash c)

-- `while idx < path.len() && test(path[idx]) { idx += 1 }`, on the path from `idx` on.
pub skip : (ℕ → Bool) → List ℕ → ℕ → ℕ
skip test [] idx = idx
skip test (c ∷ cs) idx = let rest = skip test cs (idx + 1) in if test c then rest else idx

pub new : List ℕ → PathSplitter
unfolding skip
new path = record { path = path; idx = skip is_slash path 0; last_part = none }

pub is_done : PathSplitter → Bool
is_done s = leb (length s.path) s.idx

pub peek : PathSplitter → Option (List ℕ × ℕ)
unfolding skip is_done
peek s =
    if is_done s
    then none
    else (let end = skip in_part (drop s.idx s.path) s.idx in
        some (take (end - s.idx) (drop s.idx s.path), skip is_slash (drop end s.path) end))

pub apply : List ℕ × ℕ → PathSplitter → PathSplitter
apply (slice, idx) s = record s { last_part = some slice; idx = idx }

pub next_part : PathSplitter → List ℕ × PathSplitter
unfolding peek apply
next_part s = elim (peek s) [
  | none ↦ (drop s.idx s.path, s)
  | some (slice, idx) ↦ (slice, apply (slice, idx) s)
]
