-- ===== src/Ext2/Allocator/Release.antt =====
-- `dealloc_block` and `dealloc_inode`: what they take back, and the errors of a bad number and of
-- a double free.
use campix.Base.{
  ℕ, ◌+◌, ◌-◌, ◌≤◌, ◌<◌, ◌≡◌, ◌⊎◌, inl, inr, true, false, ◌||◌, arith, ltb, leb, Run, ok,
  Bool-cases,
}
use campix.Base.Int.{dec}
use campix.Data.Bitmap.Laws.{bit_at, get_bit_lem}
use campix.Vfs.Error.{Result, done, fail, invalid_argument, driver_error}
use campix.Ext2.Allocator.{Allocator, write_bit, dealloc_block}
use campix.Ext2.Allocator.Laws.{IsValid, Changes, write_bit-Changes}

-- The outcome of giving a number back.
pub data Releases (a : Allocator) (block : ℕ) (result : Run (Result (Unit {0}) × Allocator))
    : Type 0 where
  foreign :
      (block < a.min_inclusive) ⊎ (a.max_exclusive ≤ block)
      → result ≡ ok (fail invalid_argument, a)
      → Releases a block result
  already_free :
      a.min_inclusive ≤ block
      → block < a.max_exclusive
      → ((k : ℕ) → a.min_inclusive + k ≡ block → k < a.bitmap.size → bit_at a.bitmap k ≡ false)
      → result ≡ ok (fail driver_error, a)
      → Releases a block result
  taken_back :
      (k : ℕ)
      → a.min_inclusive + k ≡ block
      → block < a.max_exclusive
      → k < a.bitmap.size
      → bit_at a.bitmap k ≡ true
      → (c : Changes a k false (dec a.diff_usage) (write_bit false (dec a.diff_usage) k a))
      → result ≡ ok (done tt, c.after)
      → Releases a block result

-- On a valid allocator `dealloc_block` refuses a number outside `min..max` with
-- `InvalidArgument` and a free one with a driver error, both without a change; any other bit it
-- clears, takes one off the usage and marks its block dirty, all else unchanged. It never panics.
pub dealloc_block-Releases :
    {a : Allocator} (block : ℕ) → IsValid a → Releases a block (dealloc_block block a)
unfolding dealloc_block
dealloc_block-Releases {a} block v =
    elim (Bool-cases (ltb block a.min_inclusive || leb a.max_exclusive block)) [
      | inl e ↦ foreign (ground arith) (rw e)
      | inr e ↦ check (ground arith) (ground arith) e
    ]
  where
    bit : ℕ
    bit = block - a.min_inclusive

    check :
        a.min_inclusive ≤ block
        → block < a.max_exclusive
        → (ltb block a.min_inclusive || leb a.max_exclusive block) ≡ false
        → Releases a block (dealloc_block block a)
    check lo hi e = elim (Bool-cases (ltb bit a.bitmap.size)) [
      | inl in_size ↦ elim (Bool-cases (bit_at a.bitmap bit)) [
        | inl used ↦
            let c = write_bit-Changes {a = a} false (dec a.diff_usage) bit v (ground arith) in
            taken_back bit (omega arith) hi (ground arith) used c
              (rw (e, get_bit_lem {b = a.bitmap} bit v.bits, in_size, used, c.returns))
        | inr free ↦
            already_free lo hi (λ k s l. same k s free)
              (rw (e, get_bit_lem {b = a.bitmap} bit v.bits, in_size, free))
      ]
      | inr out ↦
          already_free lo hi (λ k s l. absurd (ground arith))
            (rw (e, get_bit_lem {b = a.bitmap} bit v.bits, out))
    ]
      where
        same :
            (k : ℕ)
            → a.min_inclusive + k ≡ block
            → bit_at a.bitmap bit ≡ false
            → bit_at a.bitmap k ≡ false
        same k s free = let q : k ≡ bit = omega arith in rw q free
