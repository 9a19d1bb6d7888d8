-- ===== src/Ext2/Allocator/Laws.antt =====
-- What the allocators give out and take back, and that the dirty marks cover every change.
use campix.Base.{
  ℕ, ◌+◌, ◌*◌, ◌/◌, ◌%◌, ◌^◌, ◌≤◌, ◌<◌, ◌≡◌, ◌≢◌, refl, sym, ◌∙◌, Bool, true, false, Option, none,
  some, arith, ◌==◌, if◌then◌else◌, length, Run, ok, range_ext, lt→ltb,
}
use native.Mathlib.Nat.{div-lt_iff_lt-mul, div-div-eq-div-mul, div-eq_of_lt-le}
use campix.Base.Int.{ℤ, inc}
use campix.Data.Bitmap.Laws
use campix.Data.Bitmap.Laws.{bit_at, Updates, set_bit-Updates, get_bit_lem}
use campix.Data.Bitmap.Scan
use campix.Data.Bitmap.Scan.Search.{IsFirst, find_first_unset-IsFirst}
use campix.Vfs.Error.{Result, done, fail, out_of_space}
use campix.Ext2.Allocator.{Allocator, write_bit, alloc_block, slice}

-- Both bitmaps are in order, there is a dirty mark for every block of bits, and every number that
-- a bit stands for has 32 bits.
pub record IsValid (a : Allocator) : Type 0 where
  pub bits : Laws.IsValid a.bitmap
  pub marks : Laws.IsValid a.dirty_blocks_bitmap
  pub some_bytes : 0 < a.bs
  pub marked : a.bitmap.size ≤ a.dirty_blocks_bitmap.size * (8 * a.bs)
  pub whole_blocks : a.dirty_blocks_bitmap.size * a.bs ≤ length a.bitmap.bytes
  pub no_wrap : a.min_inclusive + a.bitmap.size ≤ 2 ^ 32

-- The block of the bitmap that holds a bit.
abbrev pub block_of : Allocator → ℕ → ℕ
block_of a i = i / (8 * a.bs)

-- `result` is a normal return of `a` with bit `k` changed to `v`, its block marked dirty and the
-- rest of the state as given.
pub record Changes (a : Allocator) (k : ℕ) (v : Bool) (diff : ℤ) (result : Run Allocator)
    : Type 0 where
  pub after : Allocator
  pub returns : result ≡ ok after
  pub valid : IsValid after
  pub same_size : after.bitmap.size ≡ a.bitmap.size
  pub same_min : after.min_inclusive ≡ a.min_inclusive
  pub same_max : after.max_exclusive ≡ a.max_exclusive
  pub counted : after.diff_usage ≡ diff
  pub same_begin : after.bitmap_begin_inclusive ≡ a.bitmap_begin_inclusive
  pub same_end : after.bitmap_end_exclusive ≡ a.bitmap_end_exclusive
  pub same_bs : after.bs ≡ a.bs
  pub same_marks : after.dirty_blocks_bitmap.size ≡ a.dirty_blocks_bitmap.size
  pub bits : (j : ℕ) → bit_at after.bitmap j ≡ (if k == j then v else bit_at a.bitmap j)
  pub marks :
      (j : ℕ)
      → bit_at after.dirty_blocks_bitmap j
        ≡ (if block_of a k == j then true else bit_at a.dirty_blocks_bitmap j)
  pub slices :
      (j : ℕ) → j ≢ block_of a k → slice a.bs j after.bitmap.bytes ≡ slice a.bs j a.bitmap.bytes

block_lt :
    (i size marks block : ℕ) → 0 < block → i < size → size ≤ marks * block → i / block < marks
block_lt i size marks block p h g = (div-lt_iff_lt-mul {k = block} p).1 (omega arith)

outside_block : (bs i j k : ℕ) → j ≢ i / (8 * bs) → j * bs ≤ k → k < j * bs + bs → k ≢ i / 8
outside_block bs i j k ne lo hi e =
    ne (sym (div-eq_of_lt-le bs (omega arith) (omega arith)) ∙ div-div-eq-div-mul i 8 bs)

pub write_bit-Changes :
    {a : Allocator} (v : Bool) (diff : ℤ) (k : ℕ)
    → IsValid a
    → k < a.bitmap.size
    → Changes a k v diff (write_bit v diff k a)
unfolding write_bit
write_bit-Changes {a} v diff k w h =
    let set = set_bit-Updates {b = a.bitmap} k v w.bits in
    let mark = set_bit-Updates {b = a.dirty_blocks_bitmap} (block_of a k) true w.marks in
    let inside : block_of a k < a.dirty_blocks_bitmap.size =
      block_lt k a.bitmap.size _ (8 * a.bs) (omega (arith, w.some_bytes)) h w.marked in
    record {
      after = record a { bitmap = set.after; diff_usage = diff; dirty_blocks_bitmap = mark.after };
      returns = rw (set.returns, mark.returns);
      valid = record {
        bits = set.valid;
        marks = mark.valid;
        some_bytes = w.some_bytes;
        marked = rw (set.same_size, mark.same_size) w.marked;
        whole_blocks = rw (set.same_length, mark.same_size) w.whole_blocks;
        no_wrap = rw set.same_size w.no_wrap;
      };
      same_size = set.same_size;
      same_min = refl;
      same_max = refl;
      counted = refl;
      same_begin = refl;
      same_end = refl;
      same_bs = refl;
      same_marks = mark.same_size;
      bits = λ j. set.bits j ∙ rw (lt→ltb k a.bitmap.size h);
      marks = λ j. mark.bits j ∙ rw (lt→ltb _ a.dirty_blocks_bitmap.size inside);
      slices = λ j ne.
          range_ext 0 (j * a.bs) a.bs set.after.bytes a.bitmap.bytes set.same_length
            λ i lo hi. set.others i (outside_block a.bs k j i ne lo hi);
    }

-- The outcome of an allocation: the lowest free bit is given out as a number, set and counted; or
-- every bit is set, and nothing changes.
pub data Allocates (a : Allocator) (result : Run (Result ℕ × Allocator)) : Type 0 where
  full :
      ((i : ℕ) → i < a.bitmap.size → bit_at a.bitmap i ≡ true)
      → result ≡ ok (fail out_of_space, a)
      → Allocates a result
  given :
      (k : ℕ)
      → k < a.bitmap.size
      → bit_at a.bitmap k ≡ false
      → ((i : ℕ) → i < k → bit_at a.bitmap i ≡ true)
      → (c : Changes a k true (inc a.diff_usage) (write_bit true (inc a.diff_usage) k a))
      → result ≡ ok (done (a.min_inclusive + k), c.after)
      → Allocates a result

-- On a valid allocator, wherever the search cuts the slice, `alloc_block` gives out the lowest free
-- bit as `min + bit`, sets it, adds one to the usage and marks its block dirty, all else unchanged;
-- when no bit is free it returns `OutOfSpace` and changes nothing. It does not panic.
pub alloc_block-Allocates :
    {a : Allocator} (h w : ℕ)
    → IsValid a
    → h + 8 * w ≤ length a.bitmap.bytes
    → Allocates a (alloc_block h w a)
unfolding alloc_block
alloc_block-Allocates {a} h w v cut =
    go (Scan.find_first_unset h w a.bitmap) refl (find_first_unset-IsFirst h w v.bits cut)
  where
    number :
        (k : ℕ) → k < a.bitmap.size → (a.min_inclusive + k % 2 ^ 32) % 2 ^ 32 ≡ a.min_inclusive + k
    number k l = omega (arith, v.no_wrap)

    go :
        (r : Option ℕ)
        → Scan.find_first_unset h w a.bitmap ≡ r
        → IsFirst (bit_at a.bitmap) false a.bitmap.size r
        → Allocates a (alloc_block h w a)
    go none e f = full f (rw (e, alloc_block))
    go (some k) e f =
        let c = write_bit-Changes true (inc a.diff_usage) k v f.0 in
        given k f.0 f.1 f.2 c (rw (e, alloc_block) (rw (c.returns, number k f.0)))
