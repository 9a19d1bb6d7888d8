-- ===== src/Ext2/Backups.antt =====
-- The block groups of an ext2 volume that hold a backup of its superblock and its descriptors:
-- `block_group_contains_metadata_backup` and `get_backup_groups` of src/drivers/fs/phys/ext2/mod.rs.
pub mod Powers
pub mod Agreement
mod Tests
use campix.Base.{
  ℕ, zero, suc, ◌*◌, ◌^◌, Bool, true, false, ◌||◌, List, [], ◌∷◌, ◌++◌, ltb, leb, ◌==◌,
  if◌then◌else◌, tabulate, Run, ok, panic, ◌>>=◌,
}

-- What of `Ext2Volume` they look at: whether the superblock has `SparseDescriptorTables`, the number
-- of groups, and the length of the descriptor table.
pub record Groups : Type 0 where
  pub sparse_descriptor_tables : Bool
  pub block_group_count : ℕ
  pub descriptors : ℕ

-- The loop of `is_pow`, on fuel.
abbrev pub is_pow_loop : ℕ → (a num b : ℕ) → Run Bool
is_pow_loop zero a num b = panic
is_pow_loop (suc fuel) a num b =
    let rest = is_pow_loop fuel a (num * b) b in
    if ltb num a then (if ltb (num * b) (2 ^ 32) then rest else ok false) else ok (num == a)

unfoldable pub is_pow : ℕ → ℕ → Run Bool
is_pow a b = is_pow_loop 33 a b b

-- `||` looks at its right side only when the left one is false.
abbrev pub or_else : Run Bool → Run Bool → Run Bool
or_else x y = x >>= λ b. if b then ok true else y

unfoldable pub block_group_contains_metadata_backup : Groups → ℕ → Run Bool
block_group_contains_metadata_backup g group =
    if g.sparse_descriptor_tables
    then or_else (ok (leb group 1))
        (or_else (is_pow group 3) (or_else (is_pow group 5) (is_pow group 7)))
    else ok true

-- One of the three loops of `get_backup_groups`, on fuel.
abbrev pub push_powers : ℕ → (b pow count : ℕ) → Run (List ℕ)
push_powers zero b pow count = panic
push_powers (suc fuel) b pow count =
    let rest = push_powers fuel b (pow * b) count in
    if ltb (pow * b) (2 ^ 32)
    then (if ltb count (pow * b) then ok [] else (rest >>= λ powers. ok (pow * b ∷ powers)))
    else ok []

unfoldable pub get_backup_groups : Groups → Run (List ℕ)
get_backup_groups g =
    if g.sparse_descriptor_tables
    then (if leb g.block_group_count 1 then ok (tabulate g.block_group_count (λ i. i)) else (do
      threes ← push_powers 33 3 1 g.block_group_count
      fives ← push_powers 33 5 1 g.block_group_count
      sevens ← push_powers 33 7 1 g.block_group_count
      ok (0 ∷ 1 ∷ (threes ++ fives ++ sevens))))
    else ok (tabulate g.descriptors (λ i. i))
