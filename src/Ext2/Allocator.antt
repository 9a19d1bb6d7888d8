-- ===== src/Ext2/Allocator.antt =====
-- The block and inode allocators of an ext2 group, src/drivers/fs/phys/ext2/balloc.rs and
-- ialloc.rs. The two structs have the same fields and the same bodies, up to the names `block` and
-- `inode`; they differ in `new`. The volume that holds the bitmap's blocks is a parameter.
pub mod Fresh
pub mod Laws
pub mod Release
pub mod Sync
mod Tests
use campix.Base.{
  ℕ, zero, suc, ◌+◌, ◌-◌, ◌*◌, ◌/◌, ◌%◌, ◌^◌, ◌≤◌, Bool, true, false, ◌||◌, not, Option, none, some,
  List, ltb, leb, if◌then◌else◌, length, take, drop, Run, ok, panic, ◌>>=◌,
}
use campix.Base.Int.{ℤ, pos, inc, dec}
use campix.Data.Bitmap
use campix.Data.Bitmap.{Bitmap, div_ceil}
use campix.Data.Bitmap.Scan
use campix.Vfs.Error.{Result, done, fail, out_of_space, invalid_argument, driver_error}
use campix.Ext2.Volume.{Volume}

pub record Allocator : Type 0 where
  pub min_inclusive : ℕ
  pub max_exclusive : ℕ
  pub bitmap_begin_inclusive : ℕ
  pub bitmap_end_exclusive : ℕ
  pub bs : ℕ
  pub bitmap : Bitmap
  pub dirty_blocks_bitmap : Bitmap
  pub diff_usage : ℤ

-- `BlockAllocator::new`. `fresh n` is what a new allocation of `n` bytes holds.
pub new_block_allocator : (fresh : ℕ → List ℕ) → (min max begin end block_size : ℕ) → Allocator
new_block_allocator fresh min max begin end block_size = record {
  min_inclusive = min;
  max_exclusive = max;
  bitmap_begin_inclusive = begin;
  bitmap_end_exclusive = end;
  bs = block_size;
  bitmap = Bitmap.new fresh ((end - begin) * block_size * 8);
  dirty_blocks_bitmap = Bitmap.new fresh (end - begin);
  diff_usage = pos 0;
}

-- `InodeAllocator::new`.
pub new_inode_allocator : (fresh : ℕ → List ℕ) → (min max begin end block_size : ℕ) → Allocator
new_inode_allocator fresh min max begin end block_size = record {
  min_inclusive = min;
  max_exclusive = max;
  bitmap_begin_inclusive = begin;
  bitmap_end_exclusive = end;
  bs = block_size;
  bitmap = Bitmap.new_with_size_multiple fresh (max - min) block_size;
  dirty_blocks_bitmap = Bitmap.new fresh (div_ceil (max - min) (8 * block_size));
  diff_usage = pos 0;
}

pub mark_dirty : ℕ → Allocator → Run Allocator
mark_dirty bit_index a = do
  dirty ← Bitmap.set_bit a.dirty_blocks_bitmap (bit_index / (8 * a.bs)) true
  ok (record a { dirty_blocks_bitmap = dirty })

-- A bit is written, the use counted, and the block of the bit marked dirty.
pub write_bit : Bool → ℤ → ℕ → Allocator → Run Allocator
unfolding mark_dirty
write_bit enabled diff bit_index a = do
  bitmap ← Bitmap.set_bit a.bitmap bit_index enabled
  mark_dirty bit_index (record a { bitmap = bitmap; diff_usage = diff })

-- `alloc_block`, with the cut that the search makes of the slice.
pub alloc_block : (h w : ℕ) → Allocator → Run (Result ℕ × Allocator)
unfolding write_bit
alloc_block h w a = elim (Scan.find_first_unset h w a.bitmap) [
  | none ↦ ok (fail out_of_space, a)
  | some bit_index ↦ do
    a' ← write_bit true (inc a.diff_usage) bit_index a
    ok (done ((a.min_inclusive + bit_index % 2 ^ 32) % 2 ^ 32), a')
]

-- `unwrap_or(false)`
abbrev pub or_false : Option Bool → Bool
or_false none = false
or_false (some b) = b

pub dealloc_block : ℕ → Allocator → Run (Result (Unit {0}) × Allocator)
unfolding write_bit
dealloc_block block a =
    if ltb block a.min_inclusive || leb a.max_exclusive block
    then ok (fail invalid_argument, a)
    else (do
      used ← Bitmap.get_bit a.bitmap (block - a.min_inclusive)
      if not (or_false used) then ok (fail driver_error, a) else (do
        a' ← write_bit false (dec a.diff_usage) (block - a.min_inclusive) a
        ok (done tt, a')))

-- The methods of the inode allocator.
pub alloc_inode : (h w : ℕ) → Allocator → Run (Result ℕ × Allocator)
unfolding alloc_block
alloc_inode = alloc_block

pub dealloc_inode : ℕ → Allocator → Run (Result (Unit {0}) × Allocator)
unfolding dealloc_block
dealloc_inode = dealloc_block

-- `&slice[i * bs..(i + 1) * bs]`
abbrev pub slice : ℕ → ℕ → List ℕ → List ℕ
slice bs i bytes = take bs (drop (i * bs) bytes)

module _ (volume : Volume) where
  open volume use {State, write_block}

  -- What follows the write of block `i`. The number of bytes that were written is not looked at.
  unmark_written : ℕ → Allocator → Result ℕ × State → Run (Result (Unit {0}) × Allocator × State)
  unmark_written i a (fail e, s) = ok (fail e, a, s)
  unmark_written i a (done _, s) = do
    clean ← Bitmap.toggle_bit a.dirty_blocks_bitmap i
    ok (done tt, record a { dirty_blocks_bitmap = clean }, s)

  -- One round of the loop of `write_dirty`: the `i`-th block of the bitmap is written if it is
  -- marked dirty, and then its mark is flipped.
  flush_block : ℕ → Allocator → State → Run (Result (Unit {0}) × Allocator × State)
  flush_block i a s = do
    dirty ← Bitmap.get_bit a.dirty_blocks_bitmap i
    if not (or_false dirty)
        then ok (done tt, a, s)
        else (if leb ((i + 1) * a.bs) (length a.bitmap.bytes)
            then (do
              written ← write_block (a.bitmap_begin_inclusive + i) (slice a.bs i a.bitmap.bytes) s
              unmark_written i a written)
            else panic)

  -- The rounds from block `i` on, up to the first error.
  write_loop : ℕ → ℕ → Allocator → State → Run (Result (Unit {0}) × Allocator × State)
  write_loop zero i a s = ok (done tt, a, s)
  write_loop (suc left) i a s = do
    (written, a', s') ← flush_block i a s
    elim written [ fail e ↦ ok (fail e, a', s') | done _ ↦ write_loop left (i + 1) a' s' ]

  pub write_dirty : Allocator → State → Run (Result (Unit {0}) × Allocator × State)
  unfolding write_loop flush_block unmark_written
  write_dirty a s = write_loop (a.bitmap_end_exclusive - a.bitmap_begin_inclusive) 0 a s
