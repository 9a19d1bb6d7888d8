-- ===== src/Ext2/InodeTable.antt =====
-- The inode tables of an ext2 volume: `get_inode`, `update_inode` and `update_inode_raw` of
-- src/drivers/fs/phys/ext2/mod.rs, with the group descriptors of blockgroup.rs. Blocks are read and
-- written through the volume. How 128 bytes are a `RawInode` is the layout that the compiler gives a
-- packed structure, and a parameter.
pub mod Update
mod Tests
use campix.Base.{
  ℕ, ◌+◌, ◌-◌, ◌*◌, ◌/◌, ◌%◌, ◌^◌, min, Bool, ◌||◌, Option, none, some, List, ltb, ◌==◌,
  if◌then◌else◌, length, get_elem?, take, drop, overlay, replicate, Run, ok, panic, ◌>>=◌, ◌≡◌,
}
use campix.Vfs.Error.{Result, done, fail, driver_error}
use campix.Ext2.Volume.{Volume}
use campix.Ext2.Inode.{RawInode, Inode, from_raw, get_raw}

pub record BlockGroupDescriptor : Type 0 where
  pub block_usage_bitmap : ℕ
  pub inode_usage_bitmap : ℕ
  pub inode_table_block : ℕ
  pub free_blocks_count : ℕ
  pub free_inodes_count : ℕ
  pub directory_count : ℕ

-- The fields of `Ext2Volume` and of its superblock that place an inode.
pub record Geometry : Type 0 where
  pub inodes_count : ℕ
  pub inodes_per_group : ℕ
  pub inode_size : ℕ
  pub inodes_per_block : ℕ
  pub block_group_descriptor_table : List BlockGroupDescriptor

-- The bytes of a raw inode. `IsRaw` are the raw inodes whose fields have their widths.
pub record Layout : Type 1 where
  pub IsRaw : RawInode → Type 0
  pub raw_size : ℕ
  pub to_bytes : RawInode → List ℕ
  pub of_bytes : List ℕ → RawInode
  pub length-to_bytes : (raw : RawInode) → IsRaw raw → length (to_bytes raw) ≡ raw_size
  pub of_bytes-to_bytes : (raw : RawInode) → IsRaw raw → of_bytes (to_bytes raw) ≡ raw

abbrev pub get_inode_group : Geometry → ℕ → ℕ
get_inode_group g inode = (inode + 2 ^ 32 - 1) % 2 ^ 32 / g.inodes_per_group

abbrev pub get_inode_index_in_group : Geometry → ℕ → ℕ
get_inode_index_in_group g inode = (inode + 2 ^ 32 - 1) % 2 ^ 32 % g.inodes_per_group

-- The first inode of a group and the one behind its last, as the source computes them.
unfoldable pub get_inode_range_for_group : Geometry → ℕ → ℕ × ℕ
get_inode_range_for_group g group = (
  (group * g.inodes_per_group % 2 ^ 32 + 1) % 2 ^ 32,
  min (((group + 1) % 2 ^ 32 * g.inodes_per_group % 2 ^ 32 + 1) % 2 ^ 32) g.inodes_count,
)

-- The block of an inode in the table at `table_block`, and its offset in that block, as `get_inode`
-- computes them.
abbrev pub inode_block : Geometry → ℕ → ℕ → ℕ
inode_block g table_block inode =
    (table_block + get_inode_index_in_group g inode / g.inodes_per_block) % 2 ^ 32

abbrev pub inode_offset : Geometry → ℕ → ℕ
inode_offset g inode = get_inode_index_in_group g inode % g.inodes_per_block * g.inode_size % 2 ^ 32

-- The same in `update_inode_raw`, which computes them by itself.
abbrev pub updated_block : Geometry → ℕ → ℕ → ℕ
updated_block g table_block inode_i =
    (table_block + get_inode_index_in_group g inode_i / g.inodes_per_block) % 2 ^ 32

abbrev pub updated_offset : Geometry → ℕ → ℕ
updated_offset g inode_i =
    get_inode_index_in_group g inode_i % g.inodes_per_block * g.inode_size % 2 ^ 32

-- What the number of bytes read or written is put in place of: it is not looked at.
abbrev pub ignore {ℓ} : {A : Type ℓ} → A → Result ℕ → Result A
ignore a (done n) = done a
ignore a (fail e) = fail e

module _ (V : Volume) (L : Layout) where
  -- What follows the read of the block.
  abbrev pub read_inode :
      Geometry → ℕ → Option ℕ → Result ℕ × List ℕ × V.State → Run (Result (Option Inode) × V.State)
  read_inode g inode parent (outcome, buffer, s) = ok (
    ignore
        (from_raw (L.of_bytes (take L.raw_size (drop (inode_offset g inode) buffer))) inode parent)
        outcome,
    s,
  )

  -- A division by zero panics.
  abbrev pub get_inode_in :
      Geometry
      → ℕ
      → Option ℕ
      → Option BlockGroupDescriptor
      → V.State
      → Run (Result (Option Inode) × V.State)
  get_inode_in g inode parent none s = ok (fail driver_error, s)
  get_inode_in g inode parent (some descriptor) s = if g.inodes_per_block == 0 then panic else (do
    got ←
        V.read_block (inode_block g descriptor.inode_table_block inode) (replicate V.block_size 0) s
    read_inode g inode parent got)

  -- No inode in the result where the type bits on the disk are no `InodeType`.
  unfoldable pub get_inode :
      Geometry → ℕ → Option ℕ → V.State → Run (Result (Option Inode) × V.State)
  get_inode g inode parent s =
      if (inode == 0) || ltb g.inodes_count inode
      then ok (fail driver_error, s)
      else if g.inodes_per_group == 0
      then panic
      else get_inode_in g inode parent
          (get_elem? g.block_group_descriptor_table (get_inode_group g inode)) s

  -- What follows the read of the block that the inode is stored in.
  abbrev pub write_inode :
      Geometry → ℕ → ℕ → RawInode → Result ℕ × List ℕ × V.State → Run (Result (Unit {0}) × V.State)
  write_inode g lba inode raw (fail e, buffer, s) = ok (fail e, s)
  write_inode g lba inode raw (done n, buffer, s) = do
    (written, s') ← V.write_block lba (overlay (updated_offset g inode) (L.to_bytes raw) buffer) s
    ok (ignore tt written, s')

  abbrev pub update_inode_in :
      Geometry
      → ℕ
      → RawInode
      → Option BlockGroupDescriptor
      → V.State
      → Run (Result (Unit {0}) × V.State)
  update_inode_in g inode raw none s = ok (fail driver_error, s)
  update_inode_in g inode raw (some descriptor) s =
      let lba = updated_block g descriptor.inode_table_block inode in
      if g.inodes_per_block == 0
      then panic
      else (do got ← V.read_block lba (replicate V.block_size 0) s; write_inode g lba inode raw got)

  unfoldable pub update_inode_raw :
      Geometry → ℕ → RawInode → V.State → Run (Result (Unit {0}) × V.State)
  update_inode_raw g inode raw s =
      if g.inodes_per_group == 0
      then panic
      else update_inode_in g inode raw
          (get_elem? g.block_group_descriptor_table (get_inode_group g inode)) s

  unfoldable pub update_inode : Geometry → Inode → V.State → Run (Result (Unit {0}) × V.State)
  update_inode g inode s =
      let raw = get_raw inode in
      update_inode_raw g inode.inode_i
        (record raw { generation_number = (raw.generation_number + 1) % 2 ^ 32 }) s
