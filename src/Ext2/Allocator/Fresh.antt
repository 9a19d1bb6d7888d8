-- ===== src/Ext2/Allocator/Fresh.antt =====
-- The allocators that `new` makes.
use campix.Base.{ℕ, ◌+◌, ◌-◌, ◌*◌, ◌/◌, ◌^◌, ◌≤◌, ◌<◌, List, arith}
use native.Mathlib.Nat.{le-div_iff_mul-le, mul-le-mul_right, div-add-mod', mod-lt}
use campix.Data.Bitmap.{div_ceil, next_multiple_of}
use campix.Data.Bitmap.Laws
use campix.Data.Bitmap.Laws.{IsByte, Allocation}
use campix.Ext2.Allocator.{new_block_allocator, new_inode_allocator}
use campix.Ext2.Allocator.Laws.{IsValid}

-- With memory of the size asked for, a new block allocator is valid, if the block size is not 0 and the numbers of all the bits of
-- the bitmap's blocks are below 2^32.
pub new_block_allocator-IsValid :
    {fresh : ℕ → List ℕ} (min max begin end block_size : ℕ)
    → Allocation fresh
    → 0 < block_size
    → min + (end - begin) * block_size * 8 ≤ 2 ^ 32
    → IsValid (new_block_allocator fresh min max begin end block_size)
unfolding new_block_allocator
new_block_allocator-IsValid {fresh} min max begin end block_size f p h =
    let bits = Laws.new-IsValid f ((end - begin) * block_size * 8) in
    let marks = Laws.new-IsValid f (end - begin) in
    record {
      bits = bits.0;
      marks = marks.0;
      some_bytes = p;
      marked = rw (bits.1, marks.1) (omega arith);
      whole_blocks = rw (marks.1, Laws.length-new f) (omega arith);
      no_wrap = rw (bits.1) h;
    }

scaled : (q x b : ℕ) → 0 < b → q * b ≤ x → q * b ≤ x / b * b
scaled q x b h e = mul-le-mul_right b ((le-div_iff_mul-le {k = b} h).1 e)

ceil_ceil : (n b : ℕ) → 0 < b → div_ceil n (8 * b) * b ≤ next_multiple_of (div_ceil n 8) b
ceil_ceil n b h =
    let q = (n + 8 * b - 1) / (8 * b) in
    let below : q * (8 * b) ≤ n + 8 * b - 1 = omega (arith, div-add-mod' (n + 8 * b - 1) (8 * b)) in
    let fits : q * b ≤ (n + 8 - 1) / 8 + b - 1 = omega (arith, below) in
    scaled q ((n + 8 - 1) / 8 + b - 1) b h fits

ceil_above : (n m : ℕ) → 0 < m → n ≤ div_ceil n m * m
ceil_above n m h =
    let e = div-add-mod' (n + m - 1) m in omega (arith, e, mod-lt (n + m - 1) {m = m} h)

-- With memory of the size asked for, a new inode allocator is valid, if the block size is not 0 and the numbers of its inodes are
-- below 2^32.
pub new_inode_allocator-IsValid :
    {fresh : ℕ → List ℕ} (min max begin end block_size : ℕ)
    → Allocation fresh
    → 0 < block_size
    → min + (max - min) ≤ 2 ^ 32
    → IsValid (new_inode_allocator fresh min max begin end block_size)
unfolding new_inode_allocator
new_inode_allocator-IsValid {fresh} min max begin end block_size f p h =
    let bits = Laws.new_with_size_multiple-IsValid f (max - min) block_size p in
    let marks = Laws.new-IsValid f (div_ceil (max - min) (8 * block_size)) in
    record {
      bits = bits.0;
      marks = marks.0;
      some_bytes = p;
      marked = rw (bits.1, marks.1) (ceil_above (max - min) (8 * block_size) (omega arith));
      whole_blocks = rw (marks.1, bits.2) (ceil_ceil (max - min) block_size p);
      no_wrap = rw (bits.1) h;
    }
