-- ===== src/Ext2/Volume/Blocks.antt =====
-- `read_block` and `write_block` of `Ext2Volume`, src/drivers/fs/phys/ext2/mod.rs. The file that the
-- volume lies in and the cache of the crate `lru` are parameters.
use campix.Base.{
  ℕ, ◌+◌, ◌*◌, ◌%◌, ◌^◌, ◌≤◌, ◌≡◌, ◌≢◌, ◌⊎◌, Bool, Option, none, some, List, ltb, leb, not, ◌==◌,
  if◌then◌else◌, length, take, overlay, Run, ok, panic,
}
use campix.Vfs.Error.{Result, done, fail, bad_buffer_size, out_of_bounds, action_not_allowed}

-- A `File` of src/drivers/vfs.rs that is open for reading and writing: `place` is where the next
-- transfer begins, and `bytes s pos n` are `n` bytes from `pos` on. A read gives the bytes that it
-- has read, a write their number. Of a short transfer, nothing is said.
pub record Device : Type 1 where
  pub State : Type 0
  pub place : State → ℕ
  pub bytes : State → (pos n : ℕ) → List ℕ
  pub seek : ℕ → State → Result ℕ × State
  pub read : ℕ → State → Result (List ℕ) × State
  pub write : List ℕ → State → Result ℕ × State
  pub length-bytes : (s : State) (pos n : ℕ) → length (bytes s pos n) ≡ n
  pub place-seek : (pos n : ℕ) (s : State) → (seek pos s).0 ≡ done n → place (seek pos s).1 ≡ pos
  pub bytes-seek : (to : ℕ) (s : State) (pos n : ℕ) → bytes (seek to s).1 pos n ≡ bytes s pos n
  pub bytes-read : (len : ℕ) (s : State) (pos n : ℕ) → bytes (read len s).1 pos n ≡ bytes s pos n
  pub read-bytes :
      (len : ℕ) (s : State) (got : List ℕ)
      → (read len s).0 ≡ done got
      → length got ≡ len
      → got ≡ bytes s (place s) len
  pub bytes-write_apart :
      (buf : List ℕ) (s : State) (pos n : ℕ)
      → (pos + n ≤ place s) ⊎ (place s + length buf ≤ pos)
      → bytes (write buf s).1 pos n ≡ bytes s pos n
  pub bytes-write :
      (buf : List ℕ) (s : State)
      → (write buf s).0 ≡ done (length buf)
      → bytes (write buf s).1 (place s) (length buf) ≡ buf

-- The device transfers all bytes or fails.
pub record IsWhole (D : Device) : Type 0 where
  pub whole_read :
      (len : ℕ) (s : D.State) (got : List ℕ) → (D.read len s).0 ≡ done got → length got ≡ len
  pub whole_write :
      (buf : List ℕ) (s : D.State) (n : ℕ) → (D.write buf s).0 ≡ done n → n ≡ length buf

-- `LruCache<u32, Box<[u8]>>`, as the crate `lru` documents it: `lookup` is what a key has, `touch`
-- and `set` are what `get` and a change through `get_mut` make of the cache, and `push` may drop
-- other keys.
pub record LruCache : Type 1 where
  pub State : Type 0
  pub lookup : ℕ → State → Option (List ℕ)
  pub touch : ℕ → State → State
  pub set : ℕ → List ℕ → State → State
  pub push : ℕ → List ℕ → State → State
  pub lookup-touch : (key other : ℕ) (c : State) → lookup other (touch key c) ≡ lookup other c
  pub lookup-set :
      (key : ℕ) (old value : List ℕ) (c : State)
      → lookup key c ≡ some old
      → lookup key (set key value c) ≡ some value
  pub lookup-set_ne :
      (key other : ℕ) (value : List ℕ) (c : State)
      → other ≢ key
      → lookup other (set key value c) ≡ lookup other c
  pub lookup-push :
      (key : ℕ) (value : List ℕ) (c : State) → lookup key (push key value c) ≡ some value
  pub lookup-push_ne :
      (key other : ℕ) (value : List ℕ) (c : State)
      → other ≢ key
      → (lookup other (push key value c) ≡ lookup other c)
        ⊎ (lookup other (push key value c) ≡ none)

-- The fields of `Ext2Volume` that its block transfers look at.
pub record Shape : Type 0 where
  pub block_size : ℕ
  pub block_count : ℕ
  pub read_only : Bool

-- `fresh n` is what a new allocation of `n` bytes holds.
module _ (D : Device) (C : LruCache) (fresh : ℕ → List ℕ) (v : Shape) where
  -- What follows the read from the device.
  abbrev pub keep_read :
      ℕ
      → List ℕ
      → C.State
      → Result (List ℕ) × D.State
      → Run (Result ℕ × List ℕ × (D.State × C.State))
  keep_read lba buf c (fail e, d) = ok (fail e, buf, (d, c))
  keep_read lba buf c (done got, d) =
      if ltb v.block_size (length got)
      then panic
      else ok (
        done (length got),
        overlay 0 got buf,
        (d, C.push (lba % 2 ^ 32) (overlay 0 got (fresh v.block_size)) c),
      )

  abbrev pub read_sought :
      ℕ → List ℕ → C.State → Result ℕ × D.State → Run (Result ℕ × List ℕ × (D.State × C.State))
  read_sought lba buf c (fail e, d) = ok (fail e, buf, (d, c))
  read_sought lba buf c (done at, d) = keep_read lba buf c (D.read v.block_size d)

  abbrev pub read_cached :
      Option (List ℕ)
      → ℕ
      → List ℕ
      → D.State
      → C.State
      → Run (Result ℕ × List ℕ × (D.State × C.State))
  read_cached (some cached) lba buf d c =
      if not (length buf == length cached)
      then panic
      else ok (done v.block_size, cached, (d, C.touch (lba % 2 ^ 32) c))
  read_cached none lba buf d c = read_sought lba buf c (D.seek (v.block_size * lba) d)

  unfoldable pub read_block :
      ℕ → List ℕ → D.State × C.State → Run (Result ℕ × List ℕ × (D.State × C.State))
  read_block lba buf (d, c) =
      if ltb (length buf) v.block_size
      then ok (fail bad_buffer_size, buf, (d, c))
      else if leb v.block_count lba
      then ok (fail out_of_bounds, buf, (d, c))
      else read_cached (C.lookup (lba % 2 ^ 32) c) lba buf d c

  -- What follows the write to the device, where `written` bytes of the buffer were stored.
  abbrev pub update_cached :
      Option (List ℕ) → ℕ → List ℕ → ℕ → D.State → C.State → Run (Result ℕ × (D.State × C.State))
  update_cached none lba buf written d c = ok (done written, (d, c))
  update_cached (some cached) lba buf written d c =
      if ltb (length buf) written
      then panic
      else if not (length cached == written)
      then panic
      else ok (done v.block_size, (d, C.set (lba % 2 ^ 32) (take written buf) c))

  abbrev pub keep_written :
      ℕ → List ℕ → C.State → Result ℕ × D.State → Run (Result ℕ × (D.State × C.State))
  keep_written lba buf c (fail e, d) = ok (fail e, (d, c))
  keep_written lba buf c (done written, d) =
      update_cached (C.lookup (lba % 2 ^ 32) c) lba buf written d c

  abbrev pub write_sought :
      ℕ → List ℕ → C.State → Result ℕ × D.State → Run (Result ℕ × (D.State × C.State))
  write_sought lba buf c (fail e, d) = ok (fail e, (d, c))
  write_sought lba buf c (done at, d) = keep_written lba buf c (D.write (take v.block_size buf) d)

  unfoldable pub write_block : ℕ → List ℕ → D.State × C.State → Run (Result ℕ × (D.State × C.State))
  write_block lba buf (d, c) =
      if ltb (length buf) v.block_size
      then ok (fail bad_buffer_size, (d, c))
      else if v.read_only
      then ok (fail action_not_allowed, (d, c))
      else write_sought lba buf c (D.seek (v.block_size * lba) d)
