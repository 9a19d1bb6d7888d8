-- ===== src/Ext2/Allocator/Sync.antt =====
-- The dirty marks and `write_dirty`: what is not marked is on the volume, and a flush that
-- succeeds puts the rest there.
use campix.Base.{
  List, ℕ, zero, suc, ◌+◌, ◌-◌, ◌*◌, ◌/◌, ◌≤◌, ◌<◌, ◌≡◌, refl, sym, ap, subst, ◌∙◌, inl, inr, Bool,
  true, false, not, arith, ◌==◌, if◌then◌else◌, length, length-take, length-drop, drop, Run, ok,
  ◌>>=◌, ◌^◌, ◌≢◌, Bool-cases, ==_iff, lt→ltb, le→leb, ==_refl,
}
use campix.Base.Int.{ℤ}
use campix.Data.Bitmap.Laws
use campix.Data.Bitmap.Laws.{bit_at, get_bit_lem, Updates, toggle_bit-Updates}
use campix.Vfs.Error.{Result, done, fail}
use campix.Ext2.Volume.{Volume}
use campix.Ext2.Allocator.{Allocator, slice, unmark_written, flush_block, write_loop, write_dirty}
use campix.Ext2.Allocator.Laws.{IsValid, Changes}

ok-injective {ℓ} : {A : Type ℓ} {x y : A} → ok x ≡ ok y → x ≡ y
ok-injective e = cc

module _ (volume : Volume) where
  open volume use {State, block, block_size, write_block, writes}

  -- Every block of the bitmap that is not marked dirty is on the volume as it is in memory.
  abbrev pub InSync : Allocator → State → Type 0
  InSync a s =
      (j : ℕ)
      → j < a.dirty_blocks_bitmap.size
      → bit_at a.dirty_blocks_bitmap j ≡ false
      → block s (a.bitmap_begin_inclusive + j) ≡ slice a.bs j a.bitmap.bytes

  -- A change of one bit, made as `write_bit` makes it, keeps an allocator that is in sync so.
  pub Changes-InSync :
      {a : Allocator} {k : ℕ} {v : Bool} {diff : ℤ} {r : Run Allocator} (s : State)
      → (c : Changes a k v diff r) → InSync a s
      → InSync c.after s
  Changes-InSync {a} {k} s c h j l clean = elim (Bool-cases (k / (8 * a.bs) == j)) [
    | inl e ↦ cc (c.marks j, e, clean)
    | inr e ↦
        let old : bit_at a.dirty_blocks_bitmap j ≡ false = sym (c.marks j ∙ rw e) ∙ clean in
        rw (c.same_begin, c.same_bs)
          (h j (rw c.same_marks at l) old ∙ sym (c.slices j (ground arith)))
  ]

  -- An allocator that can be flushed: its marks are in order, its bitmap has the bytes of a block of
  -- the volume for each of them, and the numbers of these blocks have 32 bits.
  pub record Ready (a : Allocator) : Type 0 where
    pub marks : Laws.IsValid a.dirty_blocks_bitmap
    pub whole : a.dirty_blocks_bitmap.size * a.bs ≤ length a.bitmap.bytes
    pub sized : a.bs ≡ block_size
    pub low : a.bitmap_begin_inclusive + a.dirty_blocks_bitmap.size ≤ 2 ^ 32

  -- Every write to the volume succeeds.
  abbrev pub NeverFails : Type 0
  NeverFails =
      (lba : ℕ) (bytes : List ℕ) (s : State)
      → (n : ℕ) × (s' : State) × (write_block lba bytes s ≡ ok (done n, s'))

  -- A flush of the blocks from `i` up to `end`.
  pub record Flushes (a : Allocator) (i end : ℕ)
      (result : Run (Result (Unit {0}) × Allocator × State)) : Type 0 where
    pub outcome : Result (Unit {0})
    pub after : Allocator
    pub state : State
    pub returns : result ≡ ok (outcome, after, state)
    pub in_sync : InSync after state
    pub valid : outcome ≡ done tt → volume.IsValid state
    pub same_bitmap : after.bitmap ≡ a.bitmap
    pub ready : Ready after
    pub same_begin : after.bitmap_begin_inclusive ≡ a.bitmap_begin_inclusive
    pub same_bs : after.bs ≡ a.bs
    pub same_marks : after.dirty_blocks_bitmap.size ≡ a.dirty_blocks_bitmap.size
    pub same_use : after.diff_usage ≡ a.diff_usage
    pub succeeds : NeverFails → outcome ≡ done tt
    pub no_new_marks :
        (j : ℕ)
        → bit_at a.dirty_blocks_bitmap j ≡ false
        → bit_at after.dirty_blocks_bitmap j ≡ false
    pub flushed :
        outcome ≡ done tt → (j : ℕ) → i ≤ j → j < end → bit_at after.dirty_blocks_bitmap j ≡ false

  block_fits : (i size bs len : ℕ) → i < size → size * bs ≤ len → (i + 1) * bs ≤ len
  block_fits i size bs len h g = grind arith

  unmoved :
      (a : Allocator) (s : State) (i end : ℕ) (r : Result (Unit {0}))
      → Ready a
      → InSync a s
      → (r ≡ done tt → volume.IsValid s)
      → ((j : ℕ) → r ≡ done tt → i ≤ j → j < end → bit_at a.dirty_blocks_bitmap j ≡ false)
      → (NeverFails → r ≡ done tt)
      → Flushes a i end (ok (r, a, s))
  unmoved a s i end r w h valid clean good = record {
    outcome = r;
    after = a;
    state = s;
    returns = refl;
    in_sync = h;
    valid = valid;
    same_bitmap = refl;
    ready = w;
    same_begin = refl;
    same_bs = refl;
    same_marks = refl;
    same_use = refl;
    succeeds = good;
    no_new_marks = λ j q. q;
    flushed = λ q j lo hi. clean j q lo hi;
  }

  -- What a write of the `i`-th block of the bitmap has done.
  record Wrote (a : Allocator) (i : ℕ) (s : State) (r : Result ℕ × State) : Type 0 where
    others :
        (other : ℕ)
        → other < 2 ^ 32
        → other ≢ a.bitmap_begin_inclusive + i
        → block r.1 other ≡ block s other
    stored :
        (n : ℕ)
        → r.0 ≡ done n
        → volume.IsValid r.1
          × (block r.1 (a.bitmap_begin_inclusive + i) ≡ slice a.bs i a.bitmap.bytes)
    good : NeverFails → (n : ℕ) × (r.0 ≡ done n)

  -- A block that is not marked is not the one that is being written.
  InSync-write :
      (a : Allocator) (s : State) (i : ℕ) (r : Result ℕ × State)
      → Wrote a i s r
      → Ready a
      → bit_at a.dirty_blocks_bitmap i ≡ true
      → InSync a s
      → InSync a r.1
  InSync-write a s i r wrote w dirty h j l clean =
      wrote.others (a.bitmap_begin_inclusive + j) (omega (arith, l, w.low))
        (λ e. cc (clean, dirty, ap (bit_at a.dirty_blocks_bitmap) {x = j} {y = i} (omega arith)))
      ∙ h j l clean

  unmark_written-Flushes :
      (i : ℕ) (a : Allocator) (s : State) (r : Result ℕ × State)
      → Wrote a i s r
      → i < a.dirty_blocks_bitmap.size
      → bit_at a.dirty_blocks_bitmap i ≡ true
      → Ready a
      → InSync a s
      → Flushes a i (i + 1) (unmark_written volume i a r)
  unfolding unmark_written
  unmark_written-Flushes i a s (fail e, s') q l dirty w h =
      unmoved a s' i (i + 1) (fail e) w (InSync-write a s i (fail e, s') q w dirty h) (λ f. cc)
        (λ j f lo hi. cc) (λ never. let (n, f) = q.good never in cc)
  unmark_written-Flushes i a s (done n, s') q l dirty w h =
      let mark = toggle_bit-Updates {b = a.dirty_blocks_bitmap} i w.marks in
      let flipped : (j : ℕ)
          → bit_at mark.after j ≡ (
              if i == j
              then not (bit_at a.dirty_blocks_bitmap j)
              else bit_at a.dirty_blocks_bitmap j) =
        λ j. mark.bits j ∙ rw (lt→ltb i _ l) in
      record {
        outcome = done tt;
        after = record a { dirty_blocks_bitmap = mark.after };
        state = s';
        returns = rw mark.returns;
        in_sync = λ j l' clean. elim (Bool-cases (i == j)) [
          | inl e ↦
              subst (λ t. block s' (a.bitmap_begin_inclusive + t) ≡ slice a.bs t a.bitmap.bytes)
                ((==_iff i j).0 e) (q.stored n refl).1
          | inr e ↦
              InSync-write a s i (done n, s') q w dirty h j (rw mark.same_size at l')
                (sym (flipped j ∙ rw e) ∙ clean)
        ];
        same_bitmap = refl;
        valid = λ f. (q.stored n refl).0;
        ready = record {
          marks = mark.valid;
          whole = rw mark.same_size w.whole;
          sized = w.sized;
          low = rw mark.same_size w.low;
        };
        same_begin = refl;
        same_bs = refl;
        same_marks = mark.same_size;
        same_use = refl;
        succeeds = λ never. refl;
        no_new_marks = λ j c. elim (Bool-cases (i == j)) [
          | inl e ↦ cc (c, dirty, ap (bit_at a.dirty_blocks_bitmap) ((==_iff i j).0 e))
          | inr e ↦ flipped j ∙ rw e c
        ];
        flushed =
            λ f j lo hi. let e : i ≡ j = omega arith in flipped j ∙ rw (← e, ==_refl i, dirty);
      }

  length-slice :
      (bs i : ℕ) (bytes : List ℕ) → (i + 1) * bs ≤ length bytes → length (slice bs i bytes) ≡ bs
  length-slice bs i bytes h =
      let room : i * bs + bs ≤ length bytes = grind (arith, h) in
      omega (arith, length-take bs (drop (i * bs) bytes), length-drop (i * bs) bytes, room)

  -- The block of a mark is written and then unmarked.
  write-Flushes :
      (i : ℕ) (a : Allocator) (s : State)
      → i < a.dirty_blocks_bitmap.size
      → bit_at a.dirty_blocks_bitmap i ≡ true
      → Ready a
      → volume.IsValid s
      → InSync a s
      → Flushes a i (i + 1) (
          write_block (a.bitmap_begin_inclusive + i) (slice a.bs i a.bitmap.bytes) s
          >>= (λ r. unmark_written volume i a r))
  write-Flushes i a s l dirty w valid h =
      let fits = block_fits i _ a.bs _ l w.whole in
      let (outcome, s', returns, others, stored) =
        writes (a.bitmap_begin_inclusive + i) (slice a.bs i a.bitmap.bytes) s valid
          (length-slice a.bs i a.bitmap.bytes fits ∙ w.sized) (omega (arith, l, w.low)) in
      rw returns (
        unmark_written-Flushes i a s (outcome, s')
          (record {
            others = others;
            stored = stored;
            good = λ never.
                let (n, s2, success) =
                  never (a.bitmap_begin_inclusive + i) (slice a.bs i a.bitmap.bytes) s in
                let same : (outcome, s') ≡ (done n, s2) = ok-injective (sym returns ∙ success) in
                (n, ap (λ r. r.0) same);
          })
          l dirty w h)

  flush_block-Flushes :
      (i : ℕ) (a : Allocator) (s : State)
      → i < a.dirty_blocks_bitmap.size
      → Ready a
      → volume.IsValid s
      → InSync a s
      → Flushes a i (i + 1) (flush_block volume i a s)
  unfolding flush_block
  flush_block-Flushes i a s l w valid h = elim (Bool-cases (bit_at a.dirty_blocks_bitmap i)) [
    | inr clean ↦
        rw (get_bit_lem {b = a.dirty_blocks_bitmap} i w.marks, lt→ltb i _ l, clean)
          (unmoved a s i (i + 1) (done tt) w h (λ q. valid)
            (λ j q lo hi. let e : j ≡ i = omega arith in rw e clean) (λ never. refl))
    | inl dirty ↦
        rw
          (
            get_bit_lem {b = a.dirty_blocks_bitmap} i w.marks,
            lt→ltb i _ l,
            dirty,
            le→leb _ _ (block_fits i _ a.bs _ l w.whole),
          )
          (write-Flushes i a s l dirty w valid h)
  ]

  and_rest :
      (left : ℕ) (a : Allocator) (i n : ℕ) {r : Run (Result (Unit {0}) × Allocator × State)}
      → (one : Flushes a i (i + 1) r)
      → (one.outcome ≡ done tt
          → Flushes one.after (i + 1) n (write_loop volume left (i + 1) one.after one.state))
      → (outcome : Result (Unit {0})) → one.outcome ≡ outcome
      → Flushes a i n (elim outcome [
        | fail e ↦ ok (fail e, one.after, one.state)
        | done _ ↦ write_loop volume left (i + 1) one.after one.state
      ])
  and_rest left a i n one later (fail x) e = record {
    outcome = fail x;
    after = one.after;
    state = one.state;
    returns = refl;
    in_sync = one.in_sync;
    valid = λ f. cc;
    same_bitmap = one.same_bitmap;
    ready = one.ready;
    same_begin = one.same_begin;
    same_bs = one.same_bs;
    same_marks = one.same_marks;
    same_use = one.same_use;
    succeeds = λ never. cc (one.succeeds never, e);
    no_new_marks = one.no_new_marks;
    flushed = λ f j lo hi. cc;
  }
  and_rest left a i n one later (done tt) e =
      let rest = later e in
      record {
        outcome = rest.outcome;
        after = rest.after;
        state = rest.state;
        returns = rest.returns;
        in_sync = rest.in_sync;
        valid = rest.valid;
        same_bitmap = rest.same_bitmap ∙ one.same_bitmap;
        ready = rest.ready;
        same_begin = rest.same_begin ∙ one.same_begin;
        same_bs = rest.same_bs ∙ one.same_bs;
        same_marks = rest.same_marks ∙ one.same_marks;
        same_use = rest.same_use ∙ one.same_use;
        succeeds = rest.succeeds;
        no_new_marks = λ j c. rest.no_new_marks j (one.no_new_marks j c);
        flushed = λ f j lo hi. elim (Bool-cases (i == j)) [
          | inl q ↦
              let q' : i ≡ j = (==_iff i j).0 q in
              rest.no_new_marks j (one.flushed e j lo (omega arith))
          | inr q ↦ rest.flushed f j (ground arith) hi
        ];
      }

  write_loop-Flushes :
      (left i n : ℕ) (a : Allocator) (s : State)
      → i + left ≡ n
      → a.dirty_blocks_bitmap.size ≡ n
      → Ready a
      → volume.IsValid s
      → InSync a s
      → Flushes a i n (write_loop volume left i a s)
  unfolding write_loop
  write_loop-Flushes zero i n a s e size w valid h =
      unmoved a s i n (done tt) w h (λ q. valid) (λ j q lo hi. absurd (omega arith)) (λ never. refl)
  write_loop-Flushes (suc left) i n a s e size w valid h =
      let one = flush_block-Flushes i a s (omega arith) w valid h in
      rw one.returns (
        and_rest left a i n one
          (λ success.
            write_loop-Flushes left (i + 1) n one.after one.state (omega arith)
              (one.same_marks ∙ size) one.ready (one.valid success) one.in_sync)
          one.outcome refl)

  -- An allocator and a volume that fit: the allocator is valid, with a mark for each block of its
  -- bitmap, which lie before block 2 ^ 32, and with the block size of the volume.
  pub record Fits (a : Allocator) : Type 0 where
    pub valid : IsValid a
    pub marks : a.dirty_blocks_bitmap.size ≡ a.bitmap_end_exclusive - a.bitmap_begin_inclusive
    pub sized : a.bs ≡ block_size
    pub begins : a.bitmap_begin_inclusive ≤ a.bitmap_end_exclusive
    pub ends : a.bitmap_end_exclusive ≤ 2 ^ 32

  pub write_dirty-Flushes :
      {a : Allocator} (s : State)
      → Fits a
      → volume.IsValid s
      → InSync a s
      → Flushes a 0 a.dirty_blocks_bitmap.size (write_dirty volume a s)
  unfolding write_dirty
  write_dirty-Flushes {a} s fit valid h = rw (← fit.marks) (
      write_loop-Flushes a.dirty_blocks_bitmap.size 0 a.dirty_blocks_bitmap.size a s (omega arith)
        refl
        (record {
          marks = fit.valid.marks;
          whole = fit.valid.whole_blocks;
          sized = fit.sized;
          low = omega (arith, fit.marks, fit.begins, fit.ends);
        })
        valid h)

  -- When `write_dirty` returns `Ok` on an allocator that fits the volume and is in sync with it, the
  -- volume's state being valid, every block of the bitmap on the volume is the one in memory. A
  -- volume of this kind is `Ext2Volume` over a device without short transfers.
  pub write_dirty-block :
      {a a' : Allocator} (s : State) {s' : State}
      → Fits a
      → volume.IsValid s
      → InSync a s
      → write_dirty volume a s ≡ ok (done tt, a', s')
      → (j : ℕ) → j < a.dirty_blocks_bitmap.size
      → block s' (a.bitmap_begin_inclusive + j) ≡ slice a.bs j a.bitmap.bytes
  write_dirty-block {a} {a'} s {s'} fit valid h e j l =
      let f = write_dirty-Flushes s fit valid h in
      let same : (f.outcome, f.after, f.state) ≡ (done tt, a', s') =
        ok-injective (sym f.returns ∙ e) in
      let success : f.outcome ≡ done tt = ap (λ r. r.0) same in
      let state : f.state ≡ s' = ap (λ r. r.2) same in
      let written = f.in_sync j (rw f.same_marks l) (f.flushed success j (omega arith) l) in
      rw (← state) (
        sym (ap (λ t. block f.state (t + j)) f.same_begin)
        ∙ written
        ∙ rw (f.same_bs, f.same_bitmap))
