-- ===== src/Ext2/InodeTable/Tests.antt =====
-- A volume with one table of two inodes, and the theorem on updates at it.
use campix.Base.{
  ℕ, ◌≡◌, refl, sym, ap, ◌∙◌, none, some, List, [], ◌∷◌, ◌++◌, length, length-append, get_or, take,
  drop, Run, ok, panic, arith,
}
use campix.Vfs.Error.{Result, done}
use campix.Ext2.Volume.Blocks.{read_block, write_block}
use campix.Ext2.Volume.Sample.{sample, blank, blank-IsCoherent}
use campix.Ext2.Inode.{RawInode, Inode, file, raw_empty, with_type, get_raw}
use campix.Ext2.InodeTable.{Geometry, Layout, get_inode, update_inode, update_inode_raw}
use campix.Ext2.InodeTable.Update.{stored, Stores, update_inode-get_inode}

-- One list entry for each number of a raw inode.
abbrev entries : RawInode → List ℕ
entries r =
    r.type_and_permissions
    ∷ r.uid
    ∷ r.size_lo
    ∷ r.atime
    ∷ r.ctime
    ∷ r.mtime
    ∷ r.dtime
    ∷ r.gid
    ∷ r.links_count
    ∷ r.sectors_count
    ∷ r.flags
    ∷ r.ossv1
    ∷ r.single_indirect_block_pointer
    ∷ r.double_indirect_block_pointer
    ∷ r.triple_indirect_block_pointer
    ∷ r.generation_number
    ∷ r.extended_attribute_block
    ∷ r.size_hi_or_dir_acl
    ∷ r.fragment_block
    ∷ (r.direct_block_pointers ++ r.ossv2)

abbrev of_entries : List ℕ → RawInode
of_entries es = record {
  type_and_permissions = get_or es 0 0;
  uid = get_or es 1 0;
  size_lo = get_or es 2 0;
  atime = get_or es 3 0;
  ctime = get_or es 4 0;
  mtime = get_or es 5 0;
  dtime = get_or es 6 0;
  gid = get_or es 7 0;
  links_count = get_or es 8 0;
  sectors_count = get_or es 9 0;
  flags = get_or es 10 0;
  ossv1 = get_or es 11 0;
  direct_block_pointers = take 12 (drop 19 es);
  single_indirect_block_pointer = get_or es 12 0;
  double_indirect_block_pointer = get_or es 13 0;
  triple_indirect_block_pointer = get_or es 14 0;
  generation_number = get_or es 15 0;
  extended_attribute_block = get_or es 16 0;
  size_hi_or_dir_acl = get_or es 17 0;
  fragment_block = get_or es 18 0;
  ossv2 = drop 12 (drop 19 es);
}

take-append : (xs ys : List ℕ) → take (length xs) (xs ++ ys) ≡ xs
take-append [] ys = refl
take-append (x ∷ xs) ys = ap (λ (l : List ℕ). x ∷ l) (take-append xs ys)

drop-append : (xs ys : List ℕ) → drop (length xs) (xs ++ ys) ≡ ys
drop-append [] ys = refl
drop-append (x ∷ xs) ys = drop-append xs ys

abbrev with_lists : RawInode → List ℕ → List ℕ → RawInode
with_lists r xs ys = record r { direct_block_pointers = xs; ossv2 = ys }

entries_back :
    (r : RawInode)
    → (length r.direct_block_pointers ≡ 12) × (length r.ossv2 ≡ 12)
    → of_entries (entries r) ≡ r
entries_back r (h, k) =
    ap
      (λ (n : ℕ).
        with_lists r (take n (r.direct_block_pointers ++ r.ossv2))
          (drop n (r.direct_block_pointers ++ r.ossv2)))
      (sym h)
    ∙ ap
        (λ (xs : List ℕ).
          with_lists r xs
            (drop (length r.direct_block_pointers) (r.direct_block_pointers ++ r.ossv2)))
        (take-append r.direct_block_pointers r.ossv2)
    ∙ ap (with_lists r r.direct_block_pointers) (drop-append r.direct_block_pointers r.ossv2)

abbrev entry_layout : Layout
entry_layout = record {
  IsRaw = λ r. (length r.direct_block_pointers ≡ 12) × (length r.ossv2 ≡ 12);
  raw_size = 43;
  to_bytes = entries;
  of_bytes = of_entries;
  length-to_bytes = λ r (h, k). omega (arith, length-append r.direct_block_pointers r.ossv2, h, k);
  of_bytes-to_bytes = entries_back;
}

abbrev one_group : Geometry
one_group = record {
  inodes_count = 2;
  inodes_per_group = 2;
  inode_size = 43;
  inodes_per_block = 2;
  block_group_descriptor_table =
      record {
        block_usage_bitmap = 3;
        inode_usage_bitmap = 4;
        inode_table_block = 5;
        free_blocks_count = 0;
        free_inodes_count = 1;
        directory_count = 0;
      }
      ∷ [];
}

abbrev second_inode : Inode
unfolding with_type raw_empty
second_inode = with_type file (record raw_empty { type_and_permissions = 0x81A4 }) 2 none

abbrev before : (sample 86).State
before = blank

abbrev after_update : Run (Result (Unit {0}) × (sample 86).State)
after_update = update_inode (sample 86) entry_layout one_group second_inode before

abbrev state_of : Run (Result (Unit {0}) × (sample 86).State) → (sample 86).State
state_of (ok (outcome, s)) = s
state_of panic = before

update_inode-get_inode_example :
    Stores
      (sample 86)
      entry_layout
      5
      43
      (get_raw (stored second_inode))
      before
      (state_of after_update)
    × (s2 : (sample 86).State) × (get_inode
          (sample 86)
          entry_layout
          one_group
          2
          none
          (state_of after_update)
        ≡ ok (done (some (stored second_inode)), s2))
unfolding with_type raw_empty get_raw update_inode update_inode_raw second_inode read_block
    write_block
update_inode-get_inode_example =
    update_inode-get_inode (sample 86) entry_layout one_group second_inode _ (omega arith)
      (omega arith) (omega arith) (omega arith) (omega arith) refl (omega arith) (omega arith)
      (omega arith) before (state_of after_update) (omega arith) (refl, refl) (blank-IsCoherent 86)
      refl (_, _, _, refl)
