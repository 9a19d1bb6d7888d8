-- ===== src/Ext2/InodeTable/Update.antt =====
-- That an inode that is updated is stored in its place, and nothing else, and that it is the inode
-- that is read.
use campix.Base.{
  ℕ, zero, suc, ◌+◌, ◌-◌, ◌*◌, ◌/◌, ◌%◌, ◌^◌, ◌≤◌, ◌<◌, ◌≡◌, ◌≢◌, refl, sym, ap, ap₂, subst, ◌∙◌,
  false, Option, some, List, [], ◌∷◌, ◌==◌, length, get_elem?, take, drop, overlay, length-overlay,
  replicate, length-replicate, Run, ok, ◌>>=◌, arith, ne→==_false, le→ltb_false,
}
use campix.Vfs.Error.{Result, done, fail}
use campix.Ext2.Volume.{Volume}
use campix.Ext2.Inode.{RawInode, Inode, from_raw, get_raw}
use campix.Ext2.Inode.Laws.{from_raw-get_raw}
use campix.Ext2.InodeTable.{
  BlockGroupDescriptor, Geometry, Layout, get_inode_group, inode_block, inode_offset, updated_block,
  updated_offset, ignore, read_inode, get_inode, write_inode, update_inode_raw, update_inode,
}

-- What is written over a list at a place is found there.
take-drop-overlay :
    (o : ℕ) (src xs : List ℕ)
    → o + length src ≤ length xs
    → take (length src) (drop o (overlay o src xs)) ≡ src
take-drop-overlay zero [] xs h = refl
take-drop-overlay zero (y ∷ src) [] h = absurd (omega arith)
take-drop-overlay zero (y ∷ src) (x ∷ xs) h =
    ap (λ (ys : List ℕ). y ∷ ys) (front src xs (omega arith))
  where
    front :
        (src xs : List ℕ) → length src ≤ length xs → take (length src) (overlay zero src xs) ≡ src
    front [] xs h = refl
    front (y ∷ src) [] h = absurd (omega arith)
    front (y ∷ src) (x ∷ xs) h = ap (λ (ys : List ℕ). y ∷ ys) (front src xs (omega arith))
take-drop-overlay (suc o) src [] h = absurd (omega arith)
take-drop-overlay (suc o) src (x ∷ xs) h = take-drop-overlay o src xs (omega arith)

-- The inode as `update_inode` stores it.
abbrev pub stored : Inode → Inode
stored n = record n { generation_number = (n.generation_number + 1) % 2 ^ 32 }

-- Where the inode of this number lies: its group, its block when the group's table begins at
-- `table_block`, and its first byte there.
abbrev pub group_of : Geometry → ℕ → ℕ
group_of g i = (i - 1) / g.inodes_per_group

abbrev pub block_of : Geometry → ℕ → ℕ → ℕ
block_of g table_block i = table_block + (i - 1) % g.inodes_per_group / g.inodes_per_block

abbrev pub start_of : Geometry → ℕ → ℕ
start_of g i = (i - 1) % g.inodes_per_group % g.inodes_per_block * g.inode_size

ok-injective {ℓ} : {A : Type ℓ} {x y : A} → ok x ≡ ok y → x ≡ y
ok-injective e = cc

ordinal : (i : ℕ) → 0 < i → i < 2 ^ 32 → (i + 2 ^ 32 - 1) % 2 ^ 32 ≡ i - 1
ordinal i h k = omega arith

module _ (V : Volume) (L : Layout) where
  -- A block that can be read.
  abbrev pub IsRead : ℕ → V.State → Type 0
  IsRead lba s =
      (n : ℕ) × (buf : List ℕ) × (s' : V.State) × (V.read_block lba (replicate V.block_size 0) s
        ≡ ok (done n, buf, s'))

  -- The bytes of the inode `raw` are put in block `lba` from `start` on, and nothing else changes.
  abbrev pub Stores : ℕ → ℕ → RawInode → V.State → V.State → Type 0
  Stores lba start raw s s' =
      V.IsValid s'
      × ((other : ℕ) → other < 2 ^ 32 → other ≢ lba → V.block s' other ≡ V.block s other)
      × (V.block s' lba ≡ overlay start (L.to_bytes raw) (V.block s lba))

  module _ (g : Geometry) (n : Inode) (descriptor : BlockGroupDescriptor) (first : 0 < n.inode_i)
      (last : n.inode_i ≤ g.inodes_count) (few : g.inodes_count < 2 ^ 32)
      (groups : 0 < g.inodes_per_group) (blocks : 0 < g.inodes_per_block)
      (has : get_elem? g.block_group_descriptor_table (group_of g n.inode_i) ≡ some descriptor)
      (low : block_of g descriptor.inode_table_block n.inode_i < 2 ^ 32)
      (inside : start_of g n.inode_i + L.raw_size ≤ V.block_size)
      (narrow : V.block_size < 2 ^ 32) where
    abbrev lba : ℕ
    lba = block_of g descriptor.inode_table_block n.inode_i

    abbrev start : ℕ
    start = start_of g n.inode_i

    index : (n.inode_i + 2 ^ 32 - 1) % 2 ^ 32 ≡ n.inode_i - 1
    index = ordinal n.inode_i first (omega (arith, last, few))

    start_small : start % 2 ^ 32 ≡ start
    start_small = omega (arith, inside, narrow)

    lba_small : lba % 2 ^ 32 ≡ lba
    lba_small = omega (arith, low)

    no_groups : (g.inodes_per_group == 0) ≡ false
    no_groups = ne→==_false g.inodes_per_group 0 (λ z. omega (arith, groups, z))

    no_blocks : (g.inodes_per_block == 0) ≡ false
    no_blocks = ne→==_false g.inodes_per_block 0 (λ z. omega (arith, blocks, z))

    group-eq : get_inode_group g n.inode_i ≡ group_of g n.inode_i
    group-eq = ap (λ (k : ℕ). k / g.inodes_per_group) index

    updated_block-eq : updated_block g descriptor.inode_table_block n.inode_i ≡ lba
    updated_block-eq =
        ap
          (λ (k : ℕ).
            (descriptor.inode_table_block + k % g.inodes_per_group / g.inodes_per_block) % 2 ^ 32)
          index
        ∙ lba_small

    inode_block-eq : inode_block g descriptor.inode_table_block n.inode_i ≡ lba
    inode_block-eq =
        ap
          (λ (k : ℕ).
            (descriptor.inode_table_block + k % g.inodes_per_group / g.inodes_per_block) % 2 ^ 32)
          index
        ∙ lba_small

    updated_offset-eq : updated_offset g n.inode_i ≡ start
    updated_offset-eq =
        ap (λ (k : ℕ). k % g.inodes_per_group % g.inodes_per_block * g.inode_size % 2 ^ 32) index
        ∙ start_small

    inode_offset-eq : inode_offset g n.inode_i ≡ start
    inode_offset-eq =
        ap (λ (k : ℕ). k % g.inodes_per_group % g.inodes_per_block * g.inode_size % 2 ^ 32) index
        ∙ start_small

    -- `update_inode` is a read and a write of this block.
    update_inode-eq :
        (s : V.State)
        → update_inode V L g n s ≡ (
            V.read_block lba (replicate V.block_size 0) s
            >>= (λ got. write_inode V L g lba n.inode_i (get_raw (stored n)) got))
    unfolding update_inode update_inode_raw get_raw
    update_inode-eq s =
        rw (no_groups, group-eq, has, no_blocks)
          (ap
            (λ (b : ℕ).
              V.read_block b (replicate V.block_size 0) s
              >>= (λ got. write_inode V L g b n.inode_i (get_raw (stored n)) got))
            updated_block-eq)

    get_inode-eq :
        (s : V.State)
        → get_inode V L g n.inode_i n.parent_inode s ≡ (
            V.read_block lba (replicate V.block_size 0) s
            >>= (λ got. read_inode V L g n.inode_i n.parent_inode got))
    unfolding get_inode
    get_inode-eq s =
        rw
          (
            ne→==_false n.inode_i 0 (λ z. omega (arith, first, z)),
            le→ltb_false g.inodes_count n.inode_i last,
            no_groups,
            group-eq,
            has,
            no_blocks,
          )
          (ap
            (λ (b : ℕ).
              V.read_block b (replicate V.block_size 0) s
              >>= (λ got. read_inode V L g n.inode_i n.parent_inode got))
            inode_block-eq)

    -- What a write of the block that returned this leaves.
    written-Stores :
        (s s' s1 s2 : V.State) (outcome : Result ℕ) (new : List ℕ)
        → new ≡ overlay start (L.to_bytes (get_raw (stored n))) (V.block s lba)
        → ((other : ℕ) → other < 2 ^ 32 → V.block s1 other ≡ V.block s other)
        → ((other : ℕ) → other < 2 ^ 32 → other ≢ lba → V.block s2 other ≡ V.block s1 other)
        → ((k : ℕ) → outcome ≡ done k → V.IsValid s2 × (V.block s2 lba ≡ new))
        → ◌≡◌ {A = Result (Unit {0}) × V.State} (ignore tt outcome, s2) (done tt, s')
        → Stores lba start (get_raw (stored n)) s s'
    written-Stores s s' s1 s2 (fail x) new is same others success e =
        absurd (not_done (ap (λ r. r.0) e))
      where
        not_done : ◌≡◌ {A = Result (Unit {0})} (fail x) (done tt) → ⊥
        not_done q = cc
    written-Stores s s' s1 s2 (done k) new is same others success e =
        subst (Stores lba start (get_raw (stored n)) s) (ap (λ r. r.1) e) (
          (success k refl).0,
          λ other l ne. others other l ne ∙ same other l,
          (success k refl).1 ∙ is,
        )

    wrote :
        (s s' s1 : V.State) (outcome : Result ℕ) (buf : List ℕ)
        → V.IsValid s1
        → ((other : ℕ) → other < 2 ^ 32 → V.block s1 other ≡ V.block s other)
        → ((k : ℕ) → outcome ≡ done k → buf ≡ V.block s lba)
        → length buf ≡ V.block_size
        → write_inode V L g lba n.inode_i (get_raw (stored n)) (outcome, buf, s1) ≡ ok (done tt, s')
        → Stores lba start (get_raw (stored n)) s s'
    wrote s s' s1 (fail x) buf valid same got size e = absurd (not_done e)
      where
        not_done :
            ◌≡◌ {A = Run (Result (Unit {0}) × V.State)} (ok (fail x, s1)) (ok (done tt, s')) → ⊥
        not_done q = cc
    wrote s s' s1 (done k) buf valid same got size e =
        let raw = L.to_bytes (get_raw (stored n)) in
        let new = overlay (updated_offset g n.inode_i) raw buf in
        let (outcome, s2, returns, others, success) =
          V.writes lba new s1 valid (length-overlay (updated_offset g n.inode_i) raw buf ∙ size)
            low in
        let both : ◌≡◌ {A = Result (Unit {0}) × V.State} (ignore tt outcome, s2) (done tt, s') =
          ok-injective (
            sym (
              ap
                (λ (r : Run (Result ℕ × V.State)).
                  r >>= (λ (w : Result ℕ × V.State). ok (ignore tt w.0, w.1)))
                returns)
            ∙ e) in
        written-Stores s s' s1 s2 outcome new
          (ap₂ (λ o b. overlay o raw b) updated_offset-eq (got k refl)) same others success both

    update_inode-Stores :
        (s s' : V.State)
        → V.IsValid s
        → update_inode V L g n s ≡ ok (done tt, s')
        → Stores lba start (get_raw (stored n)) s s'
    update_inode-Stores s s' valid e =
        let (outcome, buf, s1, returns, valid1, size, same, got) =
          V.reads lba (replicate V.block_size 0) s valid (length-replicate V.block_size 0) in
        wrote s s' s1 outcome buf valid1 same got size (
          sym (
            ap
              (λ (r : Run (Result ℕ × List ℕ × V.State)).
                r >>= (λ (got : Result ℕ × List ℕ × V.State).
                  write_inode V L g lba n.inode_i (get_raw (stored n)) got))
              returns)
          ∙ sym (update_inode-eq s)
          ∙ e)

    read_back :
        (s s' : V.State) (old : List ℕ)
        → n.permissions < 2 ^ 12
        → L.IsRaw (get_raw (stored n))
        → V.IsValid s'
        → IsRead lba s'
        → V.block s' lba ≡ overlay start (L.to_bytes (get_raw (stored n))) old
        → (s2 : V.State) × (get_inode V L g n.inode_i n.parent_inode s'
            ≡ ok (done (some (stored n)), s2))
    read_back s s' old small well valid (k, b, s3, read) is =
        let (outcome, buf, s2, returns, valid2, size, same, got) =
          V.reads lba (replicate V.block_size 0) s' valid (length-replicate V.block_size 0) in
        let both : ◌≡◌ {A = Result ℕ × List ℕ × V.State} (outcome, buf, s2) (done k, b, s3) =
          ok-injective (sym returns ∙ read) in
        let new : buf ≡ overlay start (L.to_bytes (get_raw (stored n))) old =
          got k (ap (λ r. r.0) both) ∙ is in
        let room : start + length (L.to_bytes (get_raw (stored n))) ≤ length old = omega (
          arith,
          inside,
          L.length-to_bytes (get_raw (stored n)) well,
          length-overlay start (L.to_bytes (get_raw (stored n))) old,
          ap (λ (xs : List ℕ). length xs) new,
          size,
        ) in
        let raw : L.of_bytes (take L.raw_size (drop (inode_offset g n.inode_i) buf))
            ≡ get_raw (stored n) =
          ap₂ (λ o (xs : List ℕ). L.of_bytes (take L.raw_size (drop o xs))) inode_offset-eq new
          ∙ ap
              (λ (k : ℕ).
                L.of_bytes
                  (take k (drop start (overlay start (L.to_bytes (get_raw (stored n))) old))))
              (sym (L.length-to_bytes (get_raw (stored n)) well))
          ∙ ap L.of_bytes (take-drop-overlay start (L.to_bytes (get_raw (stored n))) old room)
          ∙ L.of_bytes-to_bytes (get_raw (stored n)) well in
        let found : from_raw (L.of_bytes (take L.raw_size (drop (inode_offset g n.inode_i) buf)))
              n.inode_i n.parent_inode
            ≡ some (stored n) =
          ap (λ (w : RawInode). from_raw w n.inode_i n.parent_inode) raw
          ∙ from_raw-get_raw (stored n) small in
        (
          s2,
          get_inode-eq s'
              ∙ ap
                  (λ (r : Run (Result ℕ × List ℕ × V.State)).
                    r >>= (λ (got : Result ℕ × List ℕ × V.State).
                      read_inode V L g n.inode_i n.parent_inode got))
                  returns
              ∙ ap₂ (λ (o : Option Inode) (r : Result ℕ). ok (ignore o r, s2)) found
                  (ap (λ r. r.0) both),
        )

    -- When `update_inode` returns `Ok` on a valid volume, the volume is valid, the bytes of the inode,
    -- its generation number one up, stand at the inode's place in its block, and no other byte of the
    -- volume's blocks has changed; and where that block can be read, `get_inode` with the inode's
    -- number and parent gives the inode so. This is for a number in range, a group with a descriptor,
    -- permissions of twelve bits, fields of their widths, inodes per group and per block that are not
    -- zero, and a place that lies within a block whose number has 32 bits. A volume of this kind is
    -- `Ext2Volume` over a device without short transfers.
    pub update_inode-get_inode :
        (s s' : V.State)
        → n.permissions < 2 ^ 12
        → L.IsRaw (get_raw (stored n))
        → V.IsValid s
        → update_inode V L g n s ≡ ok (done tt, s')
        → IsRead lba s'
        → Stores lba start (get_raw (stored n)) s s'
          × (s2 : V.State) × (get_inode V L g n.inode_i n.parent_inode s'
              ≡ ok (done (some (stored n)), s2))
    update_inode-get_inode s s' small well valid e readable =
        let (valid', others, is) = update_inode-Stores s s' valid e in
        let (s2, back) = read_back s s' (V.block s lba) small well valid' readable is in
        ((valid', others, is), s2, back)
