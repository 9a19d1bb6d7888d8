-- ===== src/Ext2/Backups/Tests.antt =====
-- A volume of three groups, and one of ten.
use campix.Base.{ℕ, ◌≡◌, refl, Bool, true, ◌&&◌, leb, List, [], ◌∷◌, ok, arith}
use campix.Ext2.Backups.{Groups, is_pow, block_group_contains_metadata_backup, get_backup_groups}
use campix.Ext2.Backups.Powers.{among}
use campix.Ext2.Backups.Agreement.{get_backup_groups-lists}

abbrev three_groups : Groups
three_groups = record { sparse_descriptor_tables = true; block_group_count = 3; descriptors = 3 }

abbrev ten_groups : Groups
ten_groups = record { sparse_descriptor_tables = true; block_group_count = 10; descriptors = 10 }

-- There is no group 3 among three groups.
beyond_last_group : get_backup_groups three_groups ≡ ok (0 ∷ 1 ∷ 3 ∷ [])
unfolding get_backup_groups
beyond_last_group = refl

nine_has_backup : block_group_contains_metadata_backup ten_groups 9 ≡ ok true
unfolding block_group_contains_metadata_backup is_pow
nine_has_backup = refl

get_backup_groups-lists_example :
    (groups : List ℕ) × (get_backup_groups ten_groups ≡ ok groups)
    × (b : Bool) × (block_group_contains_metadata_backup ten_groups 9 ≡ ok b)
    × (among 9 groups ≡ (leb 9 10 && b))
get_backup_groups-lists_example =
    get_backup_groups-lists ten_groups 9 refl (omega arith) (omega arith) (omega arith)
