-- ===== src/Ext2/Inode/Tests.antt =====
-- Inodes of a regular file and of a directory, and the theorems at them.
use campix.Base.{◌≡◌, refl, some, arith}
use campix.Ext2.Inode.{RawInode, raw_empty, Inode, with_type, file, from_raw, get_raw}
use campix.Ext2.Inode.Laws.{from_raw_iff}

abbrev raw_file : RawInode
unfolding raw_empty
raw_file = record raw_empty { type_and_permissions = 0x81A4; size_lo = 5 }

abbrev a_file : Inode
unfolding with_type
a_file = with_type file raw_file 12 (some 2)

raw_directory_type : from_raw raw_file 12 (some 2) ≡ some a_file
unfolding from_raw raw_file a_file
raw_directory_type = refl

from_raw_iff_example : get_raw a_file ≡ raw_file
unfolding a_file raw_file with_type raw_empty
from_raw_iff_example =
    (from_raw_iff raw_file a_file (omega arith) (omega arith)).0 raw_directory_type
