-- ===== src/Ext2/ReadingLocation/Tests.antt =====
-- Locations in the tables of a file system with 1 KiB blocks, 256 entries to a table.
use campix.Base.{◌+◌, ◌≡◌, refl, true, false, arith, ltb, if◌then◌else◌}
use campix.Ext2.ReadingLocation.{double, triple, new, current_block_idx, advance}
use campix.Ext2.ReadingLocation.Laws.{capacity, FitsIn32, current_block_idx-new, advance-new}

kib_tables : FitsIn32 256
kib_tables = (omega arith, omega arith)

current_block_idx-new_example : current_block_idx (new 256 70000) ≡ 70000
current_block_idx-new_example = current_block_idx-new 256 70000 kib_tables (omega arith)

advance-new_example : advance (new 256 65803) ≡ (
    if ltb (65803 + 1) (capacity 256) then (true, new 256 (65803 + 1)) else (false, new 256 65803))
advance-new_example = advance-new 256 65803 kib_tables (omega arith)

new_run : new 256 65804 ≡ record { location = triple 0 0 0; table_size = 256 }
unfolding new
new_run = refl

advance_run :
    advance (record { location = double 255 255; table_size = 256 })
    ≡ (true, record { location = triple 0 0 0; table_size = 256 })
unfolding advance
advance_run = refl

current_block_idx_run :
    current_block_idx (record { location = triple 0 1 2; table_size = 256 }) ≡ 66062
unfolding current_block_idx
current_block_idx_run = refl
