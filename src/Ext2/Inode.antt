-- ===== src/Ext2/Inode.antt =====
-- The inodes of src/drivers/fs/phys/ext2/inode.rs: the 128 bytes the disk holds as `RawInode`, the
-- driver's `Inode`, and the size that two 32-bit fields share. Numbers of a field are below the
-- field's width.
pub mod Laws
mod Masks
mod Tests
use campix.Base.Options.{◌>>=◌}
use campix.Base.{
  ℕ, ◌+◌, ◌*◌, ◌/◌, ◌%◌, ◌^◌, Bool, true, false, ◌&&◌, Option, none, some, List, bit_and, bit_or,
  if◌then◌else◌, replicate, ◌==◌,
}

pub record RawInode : Type 0 where
  pub type_and_permissions : ℕ
  pub uid : ℕ
  pub size_lo : ℕ
  pub atime : ℕ
  pub ctime : ℕ
  pub mtime : ℕ
  pub dtime : ℕ
  pub gid : ℕ
  pub links_count : ℕ
  pub sectors_count : ℕ
  pub flags : ℕ
  pub ossv1 : ℕ
  pub direct_block_pointers : List ℕ
  pub single_indirect_block_pointer : ℕ
  pub double_indirect_block_pointer : ℕ
  pub triple_indirect_block_pointer : ℕ
  pub generation_number : ℕ
  pub extended_attribute_block : ℕ
  pub size_hi_or_dir_acl : ℕ
  pub fragment_block : ℕ
  pub ossv2 : List ℕ

unfoldable pub raw_empty : RawInode
raw_empty = record {
  type_and_permissions = 0;
  uid = 0;
  size_lo = 0;
  atime = 0;
  ctime = 0;
  mtime = 0;
  dtime = 0;
  gid = 0;
  links_count = 0;
  sectors_count = 0;
  flags = 0;
  ossv1 = 0;
  direct_block_pointers = replicate 12 0;
  single_indirect_block_pointer = 0;
  double_indirect_block_pointer = 0;
  triple_indirect_block_pointer = 0;
  generation_number = 0;
  extended_attribute_block = 0;
  size_hi_or_dir_acl = 0;
  fragment_block = 0;
  ossv2 = replicate 12 0;
}

pub data InodeType : Type 0 where
  fifo : InodeType
  character_device : InodeType
  directory : InodeType
  block_device : InodeType
  file : InodeType
  symlink : InodeType
  socket : InodeType

-- The discriminants of the enumeration.
abbrev pub type_bits : InodeType → ℕ
type_bits fifo = 0x1000
type_bits character_device = 0x2000
type_bits directory = 0x4000
type_bits block_device = 0x6000
type_bits file = 0x8000
type_bits symlink = 0xA000
type_bits socket = 0xC000

-- `transmute::<u16, InodeType>`: no other number is an `InodeType`.
abbrev pub type_of_bits : ℕ → Option InodeType
type_of_bits n =
    if n == 0x1000
    then some fifo
    else if n == 0x2000
    then some character_device
    else if n == 0x4000
    then some directory
    else if n == 0x6000
    then some block_device
    else if n == 0x8000
    then some file
    else if n == 0xA000
    then some symlink
    else if n == 0xC000
    then some socket
    else none

abbrev pub is_file : InodeType → Bool
is_file file = true
is_file t = false

pub record Inode : Type 0 where
  pub inode_type : InodeType
  pub permissions : ℕ
  pub uid : ℕ
  pub size_lo : ℕ
  pub atime : ℕ
  pub ctime : ℕ
  pub mtime : ℕ
  pub dtime : ℕ
  pub gid : ℕ
  pub links_count : ℕ
  pub sectors_count : ℕ
  pub flags : ℕ
  pub ossv1 : ℕ
  pub direct_block_pointers : List ℕ
  pub single_indirect_block_pointer : ℕ
  pub double_indirect_block_pointer : ℕ
  pub triple_indirect_block_pointer : ℕ
  pub generation_number : ℕ
  pub extended_attribute_block : ℕ
  pub size_hi_or_dir_acl : ℕ
  pub fragment_block : ℕ
  pub ossv2 : List ℕ
  pub inode_i : ℕ
  pub parent_inode : Option ℕ

-- The inode of a raw one whose type is already known.
unfoldable pub with_type : InodeType → RawInode → ℕ → Option ℕ → Inode
with_type t raw i parent = record {
  inode_type = t;
  permissions = bit_and raw.type_and_permissions 0x0FFF;
  uid = raw.uid;
  size_lo = raw.size_lo;
  atime = raw.atime;
  ctime = raw.ctime;
  mtime = raw.mtime;
  dtime = raw.dtime;
  gid = raw.gid;
  links_count = raw.links_count;
  sectors_count = raw.sectors_count;
  flags = raw.flags;
  ossv1 = raw.ossv1;
  direct_block_pointers = raw.direct_block_pointers;
  single_indirect_block_pointer = raw.single_indirect_block_pointer;
  double_indirect_block_pointer = raw.double_indirect_block_pointer;
  triple_indirect_block_pointer = raw.triple_indirect_block_pointer;
  generation_number = raw.generation_number;
  extended_attribute_block = raw.extended_attribute_block;
  size_hi_or_dir_acl = raw.size_hi_or_dir_acl;
  fragment_block = raw.fragment_block;
  ossv2 = raw.ossv2;
  inode_i = i;
  parent_inode = parent;
}

-- No value where the type bits are no `InodeType`: the program's behaviour is undefined there.
unfoldable pub from_raw : RawInode → ℕ → Option ℕ → Option Inode
unfolding with_type
from_raw raw i parent = do
  t ← type_of_bits (bit_and raw.type_and_permissions 0xF000)
  some (with_type t raw i parent)

unfoldable pub get_raw : Inode → RawInode
get_raw n = record {
  type_and_permissions = bit_or (type_bits n.inode_type) n.permissions;
  uid = n.uid;
  size_lo = n.size_lo;
  atime = n.atime;
  ctime = n.ctime;
  mtime = n.mtime;
  dtime = n.dtime;
  gid = n.gid;
  links_count = n.links_count;
  sectors_count = n.sectors_count;
  flags = n.flags;
  ossv1 = n.ossv1;
  direct_block_pointers = n.direct_block_pointers;
  single_indirect_block_pointer = n.single_indirect_block_pointer;
  double_indirect_block_pointer = n.double_indirect_block_pointer;
  triple_indirect_block_pointer = n.triple_indirect_block_pointer;
  generation_number = n.generation_number;
  extended_attribute_block = n.extended_attribute_block;
  size_hi_or_dir_acl = n.size_hi_or_dir_acl;
  fragment_block = n.fragment_block;
  ossv2 = n.ossv2;
}

-- `file_size_64` is whether the volume's superblock has `ROFeature::FileSize64`.
unfoldable pub get_size : (file_size_64 : Bool) → Inode → ℕ
get_size file_size_64 n =
    if is_file n.inode_type && file_size_64
    then bit_or (n.size_hi_or_dir_acl * 2 ^ 32 % 2 ^ 64) n.size_lo
    else n.size_lo

unfoldable pub set_size : (file_size_64 : Bool) → ℕ → Inode → Inode
set_size file_size_64 size n = record n {
  size_hi_or_dir_acl =
      if is_file n.inode_type && file_size_64 then size / 2 ^ 32 % 2 ^ 32 else n.size_hi_or_dir_acl;
  size_lo = size % 2 ^ 32;
}
