-- ===== src/Vfs/Mounts/Tests.antt =====
-- A tree with the file system 7 on `/a/b`, and the path `//a//c/`.
use campix.Base.{ℕ, ◌≡◌, refl, none, some, List, [], ◌∷◌, ok}
use campix.Vfs.Error.{done}
use campix.Vfs.Path.{PathSplitter, next_part, peek, skip, is_done, apply}
use campix.Vfs.Path
use campix.Vfs.Path.Parts.{Walks, new-Walks}
use campix.Vfs.Mounts.{MountNode, node, empty, entry, register_fs, search_fs, remove_fs}
use campix.Vfs.Mounts.Spec.{register_fs-eq}
use campix.Vfs.Mounts.Pruned.{IsPruned}
use campix.Vfs.Mounts.Manager.{
  FindsExactly, Keeps, search_fs-register_fs, remove_fs-register_fs, register_fs-Keeps,
  remove_fs-Keeps,
}

abbrev one_mount : MountNode ℕ
one_mount =
    node (entry (97 ∷ []) (node (entry (98 ∷ []) (node empty (some 7)) empty) none) empty) none

abbrev two_mounts : MountNode ℕ
two_mounts =
    node
      (entry (97 ∷ [])
        (node (entry (98 ∷ []) (node empty (some 7)) (entry (99 ∷ []) (node empty (some 8)) empty))
          none)
        empty)
      none

abbrev path : List ℕ
path = 47 ∷ 47 ∷ 97 ∷ 47 ∷ 47 ∷ 99 ∷ 47 ∷ []

one_mount-IsPruned : IsPruned one_mount
one_mount-IsPruned = ((refl, (refl, tt, tt), tt))

register_fs_run : register_fs path 8 one_mount ≡ ok (done tt, two_mounts)
register_fs_run = register_fs-eq path 8 one_mount

new-Walks_example : Walks (Path.new path) ((97 ∷ []) ∷ (99 ∷ []) ∷ [])
new-Walks_example = new-Walks path

search_fs-register_fs_example : FindsExactly 8 (search_fs path two_mounts)
search_fs-register_fs_example = search_fs-register_fs path 8 one_mount register_fs_run

remove_fs-register_fs_example : remove_fs path two_mounts ≡ ok (done 8, one_mount)
remove_fs-register_fs_example =
    remove_fs-register_fs path 8 one_mount one_mount-IsPruned register_fs_run

register_fs-Keeps_example : Keeps one_mount (register_fs (47 ∷ 97 ∷ []) 8 one_mount)
register_fs-Keeps_example = register_fs-Keeps (47 ∷ 97 ∷ []) 8 one_mount one_mount-IsPruned

remove_fs-Keeps_example : Keeps one_mount (remove_fs (47 ∷ 97 ∷ []) one_mount)
remove_fs-Keeps_example = remove_fs-Keeps (47 ∷ 97 ∷ []) one_mount one_mount-IsPruned
