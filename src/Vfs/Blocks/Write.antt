-- ===== src/Vfs/Blocks/Write.antt =====
-- That `write_chars` of a block device writes the bytes at an offset, through as many blocks as they
-- lie in, and no others.
use campix.Base.{
  ℕ, zero, suc, ◌+◌, ◌-◌, ◌*◌, ◌/◌, ◌%◌, ◌^◌, ◌≤◌, ◌<◌, ◌≡◌, inl, inr, refl, sym, ap, subst, ◌∙◌,
  min, List, false, ltb, lt→ltb, ltb→lt, ltb_false→le, ◌==◌, ==_iff, ne→==_false, Bool-cases,
  length, get_or, take, drop, overlay, replicate, length-replicate, length-take, length-drop,
  length-overlay, get_or-take, get_or-drop, get_or-overlay_inside, get_or-overlay_outside, ok,
  arith,
}
use native.Mathlib.Nat.{mod-lt, div-lt_iff_lt-mul}
use campix.Vfs.Error.{done}
use campix.Vfs.Blocks.{BlockDevice, after_write, write_loop, get_size, write_chars}
use campix.Vfs.Blocks.Stores.{IsStore, Stores, IsPatched, Stores-none, Stores-joined, block-Stores}

-- The bytes of the buffer that go into one block.
abbrev part_of : (n write : ℕ) → List ℕ → List ℕ
part_of n write buf = take n (drop write buf)

length-part_of :
    (n write : ℕ) (buf : List ℕ) → write + n ≤ length buf → length (part_of n write buf) ≡ n
length-part_of n write buf h =
    omega (arith, length-take n (drop write buf), length-drop write buf, h)

get_or-part_of :
    (n write : ℕ) (buf : List ℕ) (j : ℕ)
    → j < n
    → get_or (part_of n write buf) j 0 ≡ get_or buf (write + j) 0
get_or-part_of n write buf j h = get_or-take n (drop write buf) j 0 h ∙ get_or-drop write buf j 0

module _ (D : BlockDevice) (content : D.State → ℕ → List ℕ) (Valid : D.State → Type 0)
    (store : IsStore D content Valid) where
  whole-IsPatched :
      (width place write n : ℕ) (buf old : List ℕ)
      → place ≡ 0
      → n ≡ width
      → IsPatched D content width place write n buf old (part_of n write buf)
  whole-IsPatched width place write n buf old e f = (
    λ j h.
        ap (λ (x : ℕ). get_or (part_of n write buf) x 0) (omega (arith, e))
        ∙ get_or-part_of n write buf j h,
    λ j h o. elim o [
      | inl l ↦ absurd (omega (arith, l, e))
      | inr l ↦ absurd (omega (arith, l, h, e, f))
    ],
  )

  overlay-IsPatched :
      (width place write n : ℕ) (buf old : List ℕ)
      → place + n ≤ width
      → length old ≡ width
      → write + n ≤ length buf
      → IsPatched D content width place write n buf old (overlay place (part_of n write buf) old)
  overlay-IsPatched width place write n buf old fits whole room =
      let part = part_of n write buf in
      let size = length-part_of n write buf room in
      (
        λ j h.
            get_or-overlay_inside place (place + j) part old 0 (omega arith)
              (omega (arith, size, h)) (omega (arith, fits, whole, h))
            ∙ ap (λ (x : ℕ). get_or part x 0) (omega arith)
            ∙ get_or-part_of n write buf j h,
        λ j h o.
            get_or-overlay_outside place j part old 0
              (elim o [ inl l ↦ inl l | inr l ↦ inr (omega (arith, l, size)) ]),
      )

  abbrev Writes : (width fuel to_write write start : ℕ) → List ℕ → List ℕ → D.State → Type 0
  Writes width fuel to_write write start block buf s =
      (s' : D.State) × (write_loop D width fuel to_write write (start + write) block buf s
        ≡ ok (done to_write, s'))
      × Valid s'
      × Stores D content start write to_write buf s s'

  abbrev block_of : D.State → ℕ → ℕ
  block_of s offset = offset / D.get_block_size s

  abbrev place_of : D.State → ℕ → ℕ
  place_of s offset = offset % D.get_block_size s

  -- The rest of a round, once its block is written.
  after-Writes :
      (width fuel to_write write start n : ℕ) (block buf new : List ℕ) (s : D.State)
      → Valid s
      → 0 < D.get_block_size s
      → block_of s (start + write) < D.get_block_count s
      → place_of s (start + write) + n ≤ D.get_block_size s
      → write + n ≤ to_write
      → (start + write + n) % 2 ^ 64 ≡ start + (write + n)
      → length new ≡ D.get_block_size s
      → IsPatched D content
          (D.get_block_size s)
          (place_of s (start + write))
          write
          n
          buf
          (content s (block_of s (start + write)))
          new
      → ((s1 : D.State)
          → Valid s1
          → D.get_block_size s1 ≡ D.get_block_size s
          → D.get_block_count s1 ≡ D.get_block_count s
          → Writes width fuel to_write (write + n) start block buf s1)
      → (s' : D.State) × (after_write D
            (λ (d' : D.State).
              write_loop D width fuel to_write
                (write + n)
                ((start + write + n) % 2 ^ 64)
                block
                buf
                d')
            (D.write_block (block_of s (start + write)) new s)
          ≡ ok (done to_write, s'))
        × Valid s'
        × Stores D content start write to_write buf s s'
  after-Writes width fuel to_write write start n block buf new s valid pos inside fits most offset
        whole patched next =
      let (k, s1, wrote, valid1, here, others, size, count) =
        store.writes s (block_of s (start + write)) new valid inside whole in
      let (s', run, valid', stores) = next s1 valid1 size count in
      (
        s',
        rw (wrote, offset) run,
        valid',
        Stores-joined D content start write (write + n) to_write buf s s1 s' (omega arith) most
            (block-Stores D content start write n buf new s s1 pos fits patched here others size
              count)
            stores,
      )

  -- A round of the loop that writes, where the rest of the rounds does.
  round-Writes :
      (fuel to_write write start : ℕ) (block buf : List ℕ) (s : D.State)
      → Valid s
      → 0 < D.get_block_size s
      → D.get_block_count s * D.get_block_size s < 2 ^ 64
      → start + to_write ≤ D.get_block_count s * D.get_block_size s
      → to_write ≤ length buf
      → write < to_write
      → length block ≡ D.get_block_size s
      → ((write' : ℕ) (block' : List ℕ) (s1 : D.State)
          → write < write'
          → write' ≤ to_write
          → length block' ≡ D.get_block_size s
          → Valid s1
          → D.get_block_size s1 ≡ D.get_block_size s
          → D.get_block_count s1 ≡ D.get_block_count s
          → Writes (D.get_block_size s) fuel to_write write' start block' buf s1)
      → Writes (D.get_block_size s) (suc fuel) to_write write start block buf s
  round-Writes fuel to_write write start block buf s valid pos small inside room more whole next =
      elim (Bool-cases (n == D.get_block_size s)) [
        | inl c ↦
            let all : n ≡ D.get_block_size s = (==_iff n (D.get_block_size s)).0 c in
            let (s', run, valid', stores) =
              after-Writes (D.get_block_size s) fuel to_write write start n block buf
                (part_of n write buf) s valid pos lba_lt fits most offset
                (length-part_of n write buf (omega (arith, most, room)) ∙ all)
                (whole-IsPatched (D.get_block_size s) (place_of s (start + write)) write n buf
                  (content s (block_of s (start + write))) (omega (arith, fits, all)) all)
                (λ s1. next (write + n) block s1 (omega (arith, n_pos)) most whole) in
            (s', rw (lt→ltb write to_write more, not_empty, c) run, valid', stores)
        | inr c ↦
            let old = content s (block_of s (start + write)) in
            let new = overlay (place_of s (start + write)) (part_of n write buf) old in
            let size = store.block_length s (block_of s (start + write)) valid lba_lt in
            let new_size =
              length-overlay (place_of s (start + write)) (part_of n write buf) old ∙ size in
            let (k, read) = store.reads s (block_of s (start + write)) block valid lba_lt whole in
            let (s', run, valid', stores) =
              after-Writes (D.get_block_size s) fuel to_write write start n new buf new s valid pos
                lba_lt fits most offset new_size
                (overlay-IsPatched (D.get_block_size s) (place_of s (start + write)) write n buf old
                  fits size (omega (arith, most, room)))
                (λ s1. next (write + n) new s1 (omega (arith, n_pos)) most new_size) in
            (s', rw (lt→ltb write to_write more, not_empty, c, read) run, valid', stores)
      ]
    where
      place_lt : place_of s (start + write) < D.get_block_size s
      place_lt = mod-lt (start + write) pos

      n : ℕ
      n = min (to_write - write) (D.get_block_size s - place_of s (start + write))

      n_pos : 0 < n
      n_pos = omega (arith, place_lt, more)

      most : write + n ≤ to_write
      most = omega (arith, more)

      fits : place_of s (start + write) + n ≤ D.get_block_size s
      fits = omega (arith, place_lt)

      lba_lt : block_of s (start + write) < D.get_block_count s
      lba_lt = (div-lt_iff_lt-mul pos).1 (omega (arith, inside, more))

      offset : (start + write + n) % 2 ^ 64 ≡ start + (write + n)
      offset = omega (arith, inside, small, most)

      not_empty : (D.get_block_size s == 0) ≡ false
      not_empty = ne→==_false (D.get_block_size s) 0 λ z. omega (arith, pos, z)

  write_loop-Writes :
      (width count fuel to_write write start : ℕ) (block buf : List ℕ) (s : D.State)
      → Valid s
      → D.get_block_size s ≡ width
      → D.get_block_count s ≡ count
      → 0 < width
      → count * width < 2 ^ 64
      → start + to_write ≤ count * width
      → to_write ≤ length buf
      → write ≤ to_write
      → to_write - write < fuel
      → length block ≡ width
      → Writes width fuel to_write write start block buf s
  write_loop-Writes width count zero to_write write start block buf s valid size blocks pos small
        inside room w f whole =
      absurd (omega arith)
  write_loop-Writes width count (suc fuel) to_write write start block buf s valid size blocks pos
        small inside room w f whole =
      elim (Bool-cases (ltb write to_write)) [
        | inl e ↦
            let more : write < to_write = ltb→lt write to_write e in
            let own : (w : ℕ) → Type 0 =
              λ w. Writes w (suc fuel) to_write write start block buf s in
            subst own size (
              round-Writes fuel to_write write start block buf s valid
                (subst (λ w. 0 < w) (sym size) pos) (rw (size, blocks) small)
                (rw (size, blocks) inside) room more (whole ∙ sym size)
                (λ write' block' s1 h k l v size1 count1.
                  subst (λ w. Writes w fuel to_write write' start block' buf s1) (sym size)
                    (write_loop-Writes width count fuel to_write write' start block' buf s1 v
                      (size1 ∙ size) (count1 ∙ blocks) pos small inside room k
                      (omega (arith, h, k, f)) (l ∙ size))))
        | inr e ↦
            let all : write ≡ to_write = omega (arith, ltb_false→le write to_write e, w) in
            (
              s,
              rw e (ap (λ (n : ℕ). ok (done n, s)) all),
              valid,
              subst (λ (n : ℕ). Stores D content start write n buf s s) all
                  (Stores-none D content start write buf s),
            )
      ]

  -- On a device that keeps what is written to it, in a valid state, with blocks of at least one byte
  -- and a size below 2 ^ 64 bytes, a write at an offset within the device ends without a panic or an
  -- error. It writes as many bytes as the buffer and the device have: the device's bytes from the
  -- offset on are then those of the buffer, and all its other bytes and its size are as before.
  pub write_chars-Writes :
      (offset : ℕ) (buf : List ℕ) (s : D.State)
      → Valid s
      → 0 < D.get_block_size s
      → D.get_block_count s * D.get_block_size s < 2 ^ 64
      → offset ≤ D.get_block_count s * D.get_block_size s
      → (n : ℕ) × (n ≡ min (length buf) (D.get_block_count s * D.get_block_size s - offset))
        × (s' : D.State) × (write_chars D offset buf s ≡ ok (done n, s'))
        × Valid s'
        × Stores D content offset 0 n buf s s'
  unfolding write_chars get_size
  write_chars-Writes offset buf s valid pos small h =
      let total = D.get_block_count s * D.get_block_size s in
      let n = min (length buf) (total - offset) in
      let left : min (length buf) ((total % 2 ^ 64 + 2 ^ 64 - offset) % 2 ^ 64) ≡ n =
        omega (arith, small, h) in
      let block = replicate (D.get_block_size s) 0 in
      let (s', run, valid', stores) =
        write_loop-Writes (D.get_block_size s) (D.get_block_count s) (suc n) n 0 offset block buf s
          valid refl refl pos small (omega (arith, h)) (omega arith) (omega arith) (omega arith)
          (length-replicate (D.get_block_size s) 0) in
      (
        n,
        refl,
        s',
        ap (λ (k : ℕ). write_loop D (D.get_block_size s) (suc k) k 0 offset block buf s) left
            ∙ ap (λ (o : ℕ). write_loop D (D.get_block_size s) (suc n) n 0 o block buf s)
                (omega arith)
            ∙ run,
        valid',
        stores,
      )
