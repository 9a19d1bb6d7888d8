-- ===== src/Ext2/ReadingLocation.antt =====
-- `InodeReadingLocation` of src/drivers/fs/phys/ext2/inode.rs: which entry of which block table
-- of an inode holds the address of a file block. Numbers are `u32`; where the source can
-- overflow, the wrap of a release build is written out.
pub mod Laws
mod Tests
use campix.Base.{ℕ, ◌+◌, ◌-◌, ◌*◌, ◌/◌, ◌%◌, ◌^◌, Bool, true, false, ◌&&◌, ltb, ◌==◌, if◌then◌else◌}

pub data Info : Type 0 where
  direct : ℕ → Info
  single : ℕ → Info
  double : ℕ → ℕ → Info
  triple : ℕ → ℕ → ℕ → Info

pub record ReadingLocation : Type 0 where
  pub location : Info
  pub table_size : ℕ

abbrev pub u32 : ℕ → ℕ
u32 n = n % 2 ^ 32

-- The table entry for the block `block_idx`, with `square` for `table_size2`.
locate : (table_size square block_idx : ℕ) → Info
locate t square block_idx =
    if ltb block_idx 12
    then direct block_idx
    else (let idx = block_idx - 12 in
        if ltb idx t
        then single idx
        else (let idx' = idx - t in
            if ltb idx' square
            then double (idx' / t) (idx' % t)
            else (let idx'' = idx' - square in
                triple (idx'' / square) (idx'' % square / t) (idx'' % t))))

pub new : (table_size block_idx : ℕ) → ReadingLocation
unfolding locate
new t block_idx = record { location = locate t (u32 (t * t)) block_idx; table_size = t }

index_of : Info → ℕ → ℕ
index_of (direct a) t = a
index_of (single a) t = u32 (12 + a)
index_of (double a b) t = u32 (12 + t + a * t + b)
index_of (triple a b c) t = u32 (12 + t + t * t + a * t * t + b * t + c)

pub current_block_idx : ReadingLocation → ℕ
unfolding index_of
current_block_idx r = index_of r.location r.table_size

-- The next location; `false` when there is none.
advance_info : Info → ℕ → Bool × Info
advance_info (direct a) t = if a == 11 then (true, single 0) else (true, direct (a + 1))
advance_info (single a) t = if a == t - 1 then (true, double 0 0) else (true, single (a + 1))
advance_info (double a b) t =
    if (a == t - 1) && (b == t - 1)
    then (true, triple 0 0 0)
    else if b == t - 1
    then (true, double (a + 1) 0)
    else (true, double a (b + 1))
advance_info (triple a b c) t =
    if (a == t - 1) && ((b == t - 1) && (c == t - 1))
    then (false, triple a b c)
    else if (b == t - 1) && (c == t - 1)
    then (true, triple (a + 1) 0 0)
    else if c == t - 1
    then (true, triple a (b + 1) 0)
    else (true, triple a b (c + 1))

pub advance : ReadingLocation → Bool × ReadingLocation
unfolding advance_info
advance r =
    let (more, next) = advance_info r.location r.table_size in (more, record r { location = next })
