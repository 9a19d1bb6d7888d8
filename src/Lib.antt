-- ===== src/Lib.antt =====
-- Campix: the verified core of the kernel.
--
-- The kernel keeps its files in an ext2 volume behind a virtual file system. A process reaches files
-- and pipes through the descriptors of its file table; the VFS finds the file system of a path in a
-- tree of mounts, walking the parts of the path; ext2 finds the blocks of a file through tables of
-- block numbers, keeps its inodes in tables, and gives blocks and inodes out with bitmaps that it
-- writes back to the volume. Below the file systems are block devices, parts of them, and devices read
-- byte by byte. Physical memory is parted by a buddy allocator, and page tables of four levels map it.
--
--   Base            shared names and lemmas: Boolean tests, lists, bits of numbers, a signed count,
--                   and `Run`, the result of code that can panic
--   Data/Bitmap     `Bitmap` of src/data/bitmap.rs; Scan has its two searches
--   Ext2/Inode      `RawInode` and `Inode` of src/drivers/fs/phys/ext2/inode.rs
--   Ext2/InodeTable `get_inode`, `update_inode` and `update_inode_raw` of
--                   src/drivers/fs/phys/ext2/mod.rs, over Ext2/Volume and Ext2/Inode
--   Ext2/ReadingLocation
--                   `InodeReadingLocation` of src/drivers/fs/phys/ext2/inode.rs
--   Ext2/Backups    the groups with backups, of src/drivers/fs/phys/ext2/mod.rs
--   Ext2/Volume     what allocators and inode tables ask of a volume; Blocks is `read_block` and
--                   `write_block` of `Ext2Volume` with its cache, src/drivers/fs/phys/ext2/mod.rs
--   Ext2/Allocator  `BlockAllocator` and `InodeAllocator` of src/drivers/fs/phys/ext2/balloc.rs and
--                   ialloc.rs, which use Data/Bitmap and Ext2/Volume
--   Keyboard        src/drivers/keyboard.rs and src/interrupts/handlers/irq/irq1_keyboard.rs
--   Memory/Buddy    `BuddyPageAllocator` of src/memory/buddy_alloc.rs
--   Paging          the addresses of src/paging.rs; Tables is `Table` and `PageTable` in memory,
--                   SimpleAllocator is `SimplePageAllocator`
--   Pipe            `Pipe` of src/drivers/fs/virt/pipefs.rs
--   PipeFs          the handles of `PipeFs` of the same file, with `FileHandleAllocator` of
--                   src/drivers/vfs.rs; it uses Pipe
--   Process/AddressSpace
--                   `get_address_space` of src/process/memory.rs
--   Process/FileTable
--                   `FileTable` of src/process/io/file_table.rs and `new_with_stdio` of context.rs
--   Process/Stack   `ThreadStack` of src/process/memory.rs, `ProcessAllocatedCode` of src/process/proc.rs
--   Process/Scheduler
--                   `Scheduler` of src/process/scheduler.rs over the processes and threads of proc.rs:
--                   Create, Exit and Schedule are its operations, Traces what the kernel does with them
--                   over time; it uses Process/Stack
--   Vfs/Blocks      `BlockDevice`, `SubBlockDevice` and `BlockDeviceAsCharacterDevice` of
--                   src/drivers/vfs.rs
--   Vfs/Error       `VfsError` of src/drivers/vfs.rs
--   Vfs/Path        `PathSplitter` of src/drivers/vfs.rs
--   Vfs/Mounts      `MountingPointsManager` of src/drivers/vfs.rs, which uses Vfs/Path
--
-- A struct is a record and a method a function that returns the changed record beside its result.
-- A slice is a list, a byte a number below 256, a character a number. `Run` tells a panic (an
-- index out of range, a copy between lengths that differ) from a normal return. Arithmetic of
-- `u32` and `usize` that can overflow has the wrap of a release build written out. What the
-- allocator of the kernel returns (`fresh`), where `align_to` cuts a slice (`h` and `w`), how the
-- compiler lays out a raw inode in bytes, the file below the ext2 volume and its LRU cache of the crate
-- `lru`, the device below a block device, the allocator of pages below the page tables and the references to
-- file systems are parameters; so are the address at which the kernel's allocator puts a
-- new handle or a page, the page table below a process (`PageMapper`, which Process/Stack/Mapper makes of the tables) and `Pipe::create`.
--
-- The loops of the mount tree run on fuel, the number of characters of the path and two more;
-- every round uses up a part of the path, which has a character, so the fuel does not run out.
-- `required_order` of the buddy allocator has 65 rounds of fuel, one for each bit of the total it
-- doubles; a theorem shows that they are enough for up to 2 ^ 63 pages. The loop of `get_next_pid` has
-- one round more than there are threads, and a theorem shows that it ends within them; that of
-- `schedule` has two more than the queue is long, and ends in its first in every state that is
-- reached. The loops of `is_pow` and `get_backup_groups` have 33 rounds, one more than a `u32` has
-- bits, and a theorem shows that they are enough. All other loops are by recursion on their data,
-- but for those that read and write a block device byte by byte: they run
-- on one more round than there are bytes, and each round takes at least one.
--
-- An ext2 volume keeps what is asked of it only over a device that transfers a block whole or fails:
-- `write_block` returns `Ok` for a part of a block too, and its callers do not look at the count. The
-- free lists of the buddy allocator are lists here; the source keeps their headers in the free blocks,
-- so that a block must not be freed while an address of it is free. The tables of `map_4kb` may come
-- from any allocator of pages that hands out no page twice, as `SimplePageAllocator` does over runs
-- that share no page; `KernelPageTablesAllocator`, which asks the kernel's heap, is not modelled.
--
-- Not modelled: the rest of the VFS and of ext2 (files, directories, handles, mounting a volume),
-- the directories of PipeFs, `map_memory`, `PageTableIter` and the start-up of paging, the cache of
-- translations in the processor, the task state segment, the system calls,
-- partitions, ELF files and the drivers. A pipe that several handles share stands in a store by its
-- id. The locks around shared objects are left out: every operation here runs under one. Objects that
-- an `Arc` shares are named by numbers, and a table says what they are.
pub mod Base
pub mod Data
pub mod Ext2
pub mod Keyboard
pub mod Memory
pub mod Paging
pub mod Pipe
pub mod PipeFs
pub mod Process
pub mod Vfs
