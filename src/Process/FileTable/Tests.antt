-- ===== src/Process/FileTable/Tests.antt =====
-- The table of a new process whose streams are the numbers 10, 11 and 12.
use campix.Base.{ℕ, ◌≡◌, refl, some}
use campix.Process.FileTable.{FileTable, alloc_fd, alloc_fds, get_fd, new_with_stdio}
use campix.Process.FileTable.Laws.{Allocates, alloc_fd-Allocates, new_with_stdio-IsValid}
use campix.Process.FileTable.Groups.{AllocatesAll, alloc_fds-AllocatesAll}

abbrev streams : FileTable ℕ
streams = new_with_stdio 10 11 12

alloc_fd-Allocates_example : Allocates streams (alloc_fd streams)
alloc_fd-Allocates_example = alloc_fd-Allocates streams (new_with_stdio-IsValid 10 11 12).0

alloc_fds-AllocatesAll_example : AllocatesAll streams 2 (alloc_fds 2 streams)
alloc_fds-AllocatesAll_example =
    alloc_fds-AllocatesAll streams (new_with_stdio-IsValid 10 11 12).0 2

get_fd_run : get_fd 1 streams ≡ some (some 11)
unfolding get_fd new_with_stdio
get_fd_run = refl
