-- ===== src/Ext2/Volume.antt =====
-- The volume as its allocators and inode tables use it, src/drivers/fs/phys/ext2/mod.rs: blocks that
-- are read into a buffer and written by number. `Blocks` is the code of `Ext2Volume`, and `Coherent`
-- shows that it keeps these laws over a device that transfers every block whole.
pub mod Blocks
pub mod Coherent
pub mod Sample
use campix.Base.{ℕ, ◌≡◌, ◌≢◌, ◌^◌, ◌<◌, List, length, Run, ok}
use campix.Vfs.Error.{Result, done}

pub record Volume : Type 1 where
  pub State : Type 0
  pub IsValid : State → Type 0
  pub block_size : ℕ
  -- The bytes of a block.
  pub block : State → ℕ → List ℕ
  -- The count and the buffer after the call.
  pub read_block : (lba : ℕ) (buf : List ℕ) → State → Run (Result ℕ × List ℕ × State)
  pub write_block : (lba : ℕ) (buf : List ℕ) → State → Run (Result ℕ × State)
  -- A read into a buffer of a block's size changes no block, and one that succeeds gives the block.
  pub reads :
      (lba : ℕ) (buf : List ℕ) (s : State)
      → IsValid s
      → length buf ≡ block_size
      → (outcome : Result ℕ) × (buf' : List ℕ) × (s' : State) × (read_block lba buf s
          ≡ ok (outcome, buf', s'))
        × IsValid s'
        × (length buf' ≡ block_size)
        × ((other : ℕ) → other < 2 ^ 32 → block s' other ≡ block s other)
        × ((n : ℕ) → outcome ≡ done n → buf' ≡ block s lba)
  -- A write of a block changes no other block, and one that succeeds stores the block.
  pub writes :
      (lba : ℕ) (buf : List ℕ) (s : State)
      → IsValid s
      → length buf ≡ block_size
      → lba < 2 ^ 32
      → (outcome : Result ℕ) × (s' : State) × (write_block lba buf s ≡ ok (outcome, s'))
        × ((other : ℕ) → other < 2 ^ 32 → other ≢ lba → block s' other ≡ block s other)
        × ((n : ℕ) → outcome ≡ done n → IsValid s' × (block s' lba ≡ buf))
