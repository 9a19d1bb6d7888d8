-- ===== src/Vfs/Blocks/Read.antt =====
-- That `read_chars` of a block device reads the bytes at an offset, through as many blocks as they
-- lie in.
use campix.Base.{
  ℕ, zero, suc, ◌+◌, ◌-◌, ◌*◌, ◌/◌, ◌%◌, ◌^◌, ◌≤◌, ◌<◌, ◌≡◌, inl, inr, refl, ap, ◌∙◌, min, List,
  ltb, lt→ltb, ltb→lt, ltb_false→le, ne→==_false, Bool-cases, length, take, drop, overlay,
  replicate, length-replicate, ok, arith,
}
use native.Mathlib.Nat.{mod-lt, div-lt_iff_lt-mul}
use campix.Vfs.Error.{done}
use campix.Vfs.Blocks.{BlockDevice, read_loop, get_size, read_chars}
use campix.Vfs.Blocks.Copy.{IsReadable, Holds, copied-Holds, Holds-joined}

module _ (D : BlockDevice) (d : D.State) (content : ℕ → List ℕ) where
  module _ (readable : IsReadable D d content) (pos : 0 < D.get_block_size d)
      (small : D.get_block_count d * D.get_block_size d < 2 ^ 64) where
    abbrev Loops : (fuel to_read read start : ℕ) → List ℕ → List ℕ → Type 0
    Loops fuel to_read read start block buf =
        (buf' : List ℕ) × (read_loop D fuel to_read read (start + read) block buf d
          ≡ ok (done to_read, buf'))
        × Holds D d content start read to_read buf buf'

    -- A round of the loop that reads, where the rest of the rounds does.
    round-Loops :
        (fuel to_read read start : ℕ) (block buf : List ℕ)
        → start + to_read ≤ D.get_block_count d * D.get_block_size d
        → to_read ≤ length buf
        → read < to_read
        → length block ≡ D.get_block_size d
        → ((read' : ℕ) (block' buf' : List ℕ)
            → read < read'
            → read' ≤ to_read
            → length block' ≡ D.get_block_size d
            → length buf' ≡ length buf
            → Loops fuel to_read read' start block' buf')
        → Loops (suc fuel) to_read read start block buf
    round-Loops fuel to_read read start block buf inside room more whole next = (
      rest.0,
      rw
          (
            lt→ltb read to_read more,
            ne→==_false (D.get_block_size d) 0 (λ z. omega (arith, pos, z)),
            reads.1.1,
          )
          (ap (λ (o : ℕ). read_loop D fuel to_read (read + n) o block1 buf1 d) offset ∙ rest.1),
      Holds-joined D d content start read (read + n) to_read buf buf1 rest.0 (omega arith)
          (omega (arith, n_most)) copied rest.2,
    )
      where
        size : ℕ
        size = D.get_block_size d

        place : ℕ
        place = (start + read) % D.get_block_size d

        place_lt : place < D.get_block_size d
        place_lt = mod-lt (start + read) pos

        n : ℕ
        n = min (to_read - read) (D.get_block_size d - place)

        n_pos : 0 < n
        n_pos = omega (arith, place_lt, more)

        n_most : read + n ≤ to_read
        n_most = omega (arith, more)

        lba : ℕ
        lba = (start + read) / D.get_block_size d

        lba_lt : lba < D.get_block_count d
        lba_lt = (div-lt_iff_lt-mul pos).1 (omega (arith, inside, more))

        reads :
            (length (content lba) ≡ D.get_block_size d)
            × ((k : ℕ) × (D.read_block lba block d ≡ (done k, content lba)))
        reads = readable lba block lba_lt whole

        block1 : List ℕ
        block1 = content lba

        buf1 : List ℕ
        buf1 = overlay read (take n (drop place (content lba))) buf

        copied : Holds D d content start read (read + n) buf buf1
        copied =
            copied-Holds D d content start read n buf pos reads.0 (omega (arith, place_lt))
              (omega (arith, n_most, room))

        offset : (start + read + n) % 2 ^ 64 ≡ start + (read + n)
        offset = omega (arith, inside, small, n_most)

        rest : Loops fuel to_read (read + n) start block1 buf1
        rest = next (read + n) block1 buf1 (omega (arith, n_pos)) n_most reads.0 copied.0

    read_loop-Loops :
        (fuel to_read read start : ℕ) (block buf : List ℕ)
        → start + to_read ≤ D.get_block_count d * D.get_block_size d
        → to_read ≤ length buf
        → read ≤ to_read
        → to_read - read < fuel
        → length block ≡ D.get_block_size d
        → Loops fuel to_read read start block buf
    read_loop-Loops zero to_read read start block buf inside room r f whole = absurd (omega arith)
    read_loop-Loops (suc fuel) to_read read start block buf inside room r f whole =
        elim (Bool-cases (ltb read to_read)) [
          | inl e ↦
              round-Loops fuel to_read read start block buf inside room (ltb→lt read to_read e)
                whole
                (λ read' block' buf' h k l m.
                  read_loop-Loops fuel to_read read' start block' buf' inside
                    (omega (arith, m, room)) k (omega (arith, h, k, f)) l)
          | inr e ↦
              let all : read ≡ to_read = omega (arith, ltb_false→le read to_read e, r) in
              (
                buf,
                rw e (ap (λ (n : ℕ). ok (done n, buf)) all),
                (refl, λ i h k. absurd (omega (arith, h, k, all)), λ i h. refl),
              )
        ]

    -- On a device whose blocks can all be read and whose size in bytes is below 2 ^ 64, a read from
    -- an offset within the device ends without a panic or an error. It reads as many bytes as the
    -- buffer and the device have; they are the device's bytes from the offset on, and the rest of
    -- the buffer is as before.
    pub read_chars-Reads :
        (offset : ℕ) (buf : List ℕ)
        → offset ≤ D.get_block_count d * D.get_block_size d
        → (n : ℕ) × (n ≡ min (length buf) (D.get_block_count d * D.get_block_size d - offset))
          × (buf' : List ℕ) × (read_chars D offset buf d ≡ ok (done n, buf'))
          × Holds D d content offset 0 n buf buf'
    unfolding read_chars get_size
    read_chars-Reads offset buf h =
        let total = D.get_block_count d * D.get_block_size d in
        let n = min (length buf) (total - offset) in
        let left : min (length buf) ((total % 2 ^ 64 + 2 ^ 64 - offset) % 2 ^ 64) ≡ n =
          omega (arith, small, h) in
        let (buf', run, holds) =
          read_loop-Loops (suc n) n 0 offset (replicate (D.get_block_size d) 0) buf
            (omega (arith, h)) (omega arith) (omega arith) (omega arith)
            (length-replicate (D.get_block_size d) 0) in
        (
          n,
          refl,
          buf',
          ap (λ (k : ℕ). read_loop D (suc k) k 0 offset (replicate (D.get_block_size d) 0) buf d)
                left
              ∙ ap (λ (o : ℕ). read_loop D (suc n) n 0 o (replicate (D.get_block_size d) 0) buf d)
                  (omega arith)
              ∙ run,
          holds,
        )
