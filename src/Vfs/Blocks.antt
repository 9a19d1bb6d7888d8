-- ===== src/Vfs/Blocks.antt =====
-- `SubBlockDevice` and `BlockDeviceAsCharacterDevice` of src/drivers/vfs.rs: a range of a block
-- device's blocks, and a block device read and written byte by byte. A device's locks are left out.
pub mod Copy
pub mod Read
pub mod Stores
pub mod Write
mod Tests
use campix.Base.{
  ℕ, zero, suc, ◌+◌, ◌-◌, ◌*◌, ◌/◌, ◌%◌, ◌^◌, min, Bool, List, ltb, leb, ◌==◌, not, if◌then◌else◌,
  length, take, drop, overlay, replicate, Run, ok, panic,
}
use campix.Vfs.Error.{Result, done, fail, out_of_bounds, action_not_allowed}

-- The trait. A buffer that is passed to `read_block` comes back with the result.
pub record BlockDevice : Type 1 where
  pub State : Type 0
  pub get_generation : State → ℕ
  pub get_block_size : State → ℕ
  pub get_block_count : State → ℕ
  pub read_block : ℕ → List ℕ → State → Result ℕ × List ℕ
  pub write_block : ℕ → List ℕ → State → Result ℕ × State
  pub flush : State → Result (Unit {0}) × State

module _ (D : BlockDevice) where
  pub record SubBlockDevice : Type 0 where
    pub device : D.State
    pub generation : ℕ
    pub begin_block : ℕ
    pub end_block : ℕ

  unfoldable pub new_sub : D.State → ℕ → ℕ → SubBlockDevice
  new_sub device begin_block end_block = record {
    device = device;
    generation = D.get_generation device;
    begin_block = begin_block;
    end_block = end_block;
  }

  unfoldable pub sub_block_count : SubBlockDevice → ℕ
  sub_block_count s = (s.end_block + 2 ^ 64 - s.begin_block) % 2 ^ 64

  unfoldable pub sub_read_block : ℕ → List ℕ → SubBlockDevice → Result ℕ × List ℕ
  sub_read_block lba buf s =
      if leb (sub_block_count s) lba
      then (fail out_of_bounds, buf)
      else D.read_block lba buf s.device

  abbrev pub with_device :
      {B : Type 0} → SubBlockDevice → Result B × D.State → Result B × SubBlockDevice
  with_device s (r, device) = (r, record s { device = device })

  unfoldable pub sub_write_block : ℕ → List ℕ → SubBlockDevice → Result ℕ × SubBlockDevice
  sub_write_block lba buf s =
      if leb (sub_block_count s) lba
      then (fail out_of_bounds, s)
      else if not (D.get_generation s.device == s.generation)
      then (fail action_not_allowed, s)
      else with_device s (D.write_block lba buf s.device)

  -- `SubBlockDevice` as a block device.
  unfoldable pub sub_block_device : BlockDevice
  sub_block_device = record {
    State = SubBlockDevice;
    get_generation = λ s. s.generation;
    get_block_size = λ s. D.get_block_size s.device;
    get_block_count = sub_block_count;
    read_block = sub_read_block;
    write_block = sub_write_block;
    flush = λ s. with_device s (D.flush s.device);
  }

  unfoldable pub get_size : D.State → ℕ
  get_size d = D.get_block_count d * D.get_block_size d % 2 ^ 64

  -- What is left after a block is read into `block`: the bytes go to `buf`, or the error ends it.
  abbrev pub after_read :
      (pos n read : ℕ)
      → List ℕ
      → (List ℕ → List ℕ → Run (Result ℕ × List ℕ))
      → Result ℕ × List ℕ
      → Run (Result ℕ × List ℕ)
  after_read pos n read buf go_on (done _, block) =
      go_on (overlay read (take n (drop pos block)) buf) block
  after_read pos n read buf go_on (fail e, block) = ok (fail e, buf)

  -- The loop of `read_chars`, on fuel. A block size of 0 is a division by zero.
  abbrev pub read_loop :
      ℕ → (to_read read offset : ℕ) → List ℕ → List ℕ → D.State → Run (Result ℕ × List ℕ)
  read_loop zero to_read read offset block buf d = panic
  read_loop (suc fuel) to_read read offset block buf d =
      let size = D.get_block_size d in
      let pos = offset % size in
      let n = min (to_read - read) (size - pos) in
      let go_on = λ (buf' : List ℕ) (block' : List ℕ).
        read_loop fuel to_read (read + n) ((offset + n) % 2 ^ 64) block' buf' d in
      if not (ltb read to_read)
      then ok (done read, buf)
      else if size == 0
      then panic
      else after_read pos n read buf go_on (D.read_block (offset / size) block d)

  unfoldable pub read_chars : ℕ → List ℕ → D.State → Run (Result ℕ × List ℕ)
  read_chars offset buf d =
      let to_read = min (length buf) ((get_size d + 2 ^ 64 - offset) % 2 ^ 64) in
      read_loop (suc to_read) to_read 0 offset (replicate (D.get_block_size d) 0) buf d

  -- What is left after a block is written: the next one, or the error ends it.
  abbrev pub after_write :
      (D.State → Run (Result ℕ × D.State)) → Result ℕ × D.State → Run (Result ℕ × D.State)
  after_write go_on (done _, d) = go_on d
  after_write go_on (fail e, d) = ok (fail e, d)

  -- A part of a block is written by reading the block first.
  abbrev pub write_part :
      (lba pos : ℕ)
      → List ℕ
      → (List ℕ → D.State → Run (Result ℕ × D.State))
      → Result ℕ × List ℕ
      → D.State
      → Run (Result ℕ × D.State)
  write_part lba pos part go_on (done _, block) d =
      after_write (go_on (overlay pos part block)) (D.write_block lba (overlay pos part block) d)
  write_part lba pos part go_on (fail e, block) d = ok (fail e, d)

  abbrev pub write_loop :
      (block_size : ℕ)
      → ℕ
      → (to_write write offset : ℕ) → List ℕ
      → List ℕ
      → D.State
      → Run (Result ℕ × D.State)
  write_loop block_size zero to_write write offset block buf d = panic
  write_loop block_size (suc fuel) to_write write offset block buf d =
      let size = D.get_block_size d in
      let pos = offset % size in
      let lba = offset / size in
      let n = min (to_write - write) (block_size - pos) in
      let part = take n (drop write buf) in
      let go_on = λ (block' : List ℕ) (d' : D.State).
        write_loop block_size fuel to_write (write + n) ((offset + n) % 2 ^ 64) block' buf d' in
      if not (ltb write to_write)
      then ok (done write, d)
      else if size == 0
      then panic
      else if n == block_size
      then after_write (go_on block) (D.write_block lba part d)
      else write_part lba pos part go_on (D.read_block lba block d) d

  unfoldable pub write_chars : ℕ → List ℕ → D.State → Run (Result ℕ × D.State)
  write_chars offset buf d =
      let to_write = min (length buf) ((get_size d + 2 ^ 64 - offset) % 2 ^ 64) in
      write_loop (D.get_block_size d) (suc to_write) to_write 0 offset
        (replicate (D.get_block_size d) 0) buf d
