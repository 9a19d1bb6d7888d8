-- ===== src/Ext2/Allocator/Tests.antt =====
-- An allocator over one block of the volume, with a block size of 2 and numbers from 100 on.
use campix.Base.{
  ℕ, zero, suc, ◌≡◌, refl, none, List, [], ◌∷◌, arith, replicate, All-replicate, length-replicate,
  ok,
}
use campix.Base.Int.{pos}
use campix.Data.Bitmap.{get_bit, toggle_bit}
use campix.Data.Bitmap.Laws.{IsByte, Allocation}
use campix.Vfs.Error.{done}
use campix.Ext2.Volume.{Volume}
use campix.Ext2.Volume.Blocks.{write_block}
use campix.Ext2.Volume.Sample.{overwritten, sample, blank, blank-IsCoherent}
use campix.Ext2.Allocator.{Allocator, alloc_block, dealloc_block, slice, write_dirty}
use campix.Ext2.Allocator.Laws.{IsValid, Allocates, alloc_block-Allocates}
use campix.Ext2.Allocator.Release.{Releases, dealloc_block-Releases}
use campix.Ext2.Allocator.Sync.{Fits, InSync, write_dirty-block}

abbrev filled : ℕ → List ℕ
filled n = replicate n 170

filled-Allocation : Allocation filled
filled-Allocation = record {
  sized = λ n. length-replicate n 170;
  of_bytes = λ n. All-replicate IsByte n 170 (omega arith);
}

abbrev few : Allocator
few = record {
  min_inclusive = 100;
  max_exclusive = 116;
  bitmap_begin_inclusive = 7;
  bitmap_end_exclusive = 8;
  bs = 2;
  bitmap = record { bytes = 7 ∷ 0 ∷ []; size = 16 };
  dirty_blocks_bitmap = record { bytes = 1 ∷ []; size = 1 };
  diff_usage = pos 0;
}

few-IsValid : IsValid few
few-IsValid = record {
  bits = record { fits = omega arith; are_bytes = (omega arith, (omega arith, tt)) };
  marks = record { fits = omega arith; are_bytes = (omega arith, tt) };
  some_bytes = omega arith;
  marked = omega arith;
  whole_blocks = omega arith;
  no_wrap = omega arith;
}

abbrev volume : Volume
volume = sample 2

few-Fits : Fits volume few
few-Fits = record {
  valid = few-IsValid;
  marks = refl;
  sized = refl;
  begins = omega arith;
  ends = omega arith;
}

-- Its one block is marked, so that nothing has to be on the volume yet.
few-InSync : InSync volume few blank
few-InSync zero l clean = cc
few-InSync (suc j) l clean = absurd (omega arith)

alloc_block-Allocates_example : Allocates few (alloc_block 1 0 few)
alloc_block-Allocates_example = alloc_block-Allocates {a = few} 1 0 few-IsValid (omega arith)

dealloc_block-Releases_example : Releases few 101 (dealloc_block 101 few)
dealloc_block-Releases_example = dealloc_block-Releases {a = few} 101 few-IsValid

abbrev after : Allocator
after = record few { dirty_blocks_bitmap = record { bytes = 0 ∷ []; size = 1 } }

abbrev flushed : volume.State
flushed = (record { place = 16; content = overwritten (7 ∷ 0 ∷ []) 14 (λ pos. 0) }, λ key. none)

write_dirty_run : write_dirty volume few blank ≡ ok (done tt, after, flushed)
unfolding write_dirty get_bit toggle_bit write_block
write_dirty_run = refl

write_dirty-block_example : volume.block flushed 7 ≡ slice 2 0 (7 ∷ 0 ∷ [])
write_dirty-block_example =
    write_dirty-block volume {a = few} blank few-Fits (blank-IsCoherent 2) few-InSync
      write_dirty_run 0 (omega arith)
