-- ===== src/Vfs/Blocks/Copy.antt =====
-- What one round of `read_chars` copies, and that two parts of a read make one.
use campix.Base.{
  ℕ, ◌+◌, ◌-◌, ◌*◌, ◌/◌, ◌%◌, ◌≤◌, ◌<◌, ◌≡◌, ◌⊎◌, inl, inr, sym, ap, ◌∙◌, List, ltb, ltb→lt,
  ltb_false→le, Bool-cases, length, get_or, take, drop, overlay, length-take, length-drop,
  length-overlay, get_or-take, get_or-drop, get_or-overlay_inside, get_or-overlay_outside, arith,
}
use native.Mathlib.Nat.{
  div-add-mod, mod-eq_of_lt, div-eq_of_lt, add-mul-div_left, add-mul-mod_self_left,
}
use campix.Vfs.Error.{done}
use campix.Vfs.Blocks.{BlockDevice}

-- The block and the place in it of the byte that lies `j` behind an offset, within its block.
pub place-eq :
    (size offset j : ℕ)
    → 0 < size
    → offset % size + j < size
    → ((offset + j) / size ≡ offset / size) × ((offset + j) % size ≡ offset % size + j)
place-eq size offset j h k = (
  ap (λ (n : ℕ). n / size) split
      ∙ add-mul-div_left (offset % size + j) (offset / size) h
      ∙ ap (λ (n : ℕ). n + offset / size) (div-eq_of_lt k)
      ∙ omega arith,
  ap (λ (n : ℕ). n % size) split
      ∙ add-mul-mod_self_left (offset % size + j) size (offset / size)
      ∙ mod-eq_of_lt k,
)
  where
    split : offset + j ≡ offset % size + j + size * (offset / size)
    split = omega (arith, div-add-mod offset size)

module _ (D : BlockDevice) (d : D.State) (content : ℕ → List ℕ) where
  -- Each block of the device can be read, into a buffer of a block's length, and holds `content`.
  abbrev pub IsReadable : Type 0
  IsReadable =
      (lba : ℕ) (buf : List ℕ)
      → lba < D.get_block_count d
      → length buf ≡ D.get_block_size d
      → (length (content lba) ≡ D.get_block_size d)
        × ((n : ℕ) × (D.read_block lba buf d ≡ (done n, content lba)))

  -- The byte at an offset.
  abbrev pub byte_at : ℕ → ℕ
  byte_at offset = get_or (content (offset / D.get_block_size d)) (offset % D.get_block_size d) 0

  -- `buf'` is `buf` but for the places from `first` up to `last`, which hold the device's bytes from
  -- `start + first` on.
  abbrev pub Holds : (start first last : ℕ) → List ℕ → List ℕ → Type 0
  Holds start first last buf buf' =
      (length buf' ≡ length buf)
      × ((i : ℕ) → first ≤ i → i < last → get_or buf' i 0 ≡ byte_at (start + i))
      × ((i : ℕ) → (i < first) ⊎ (last ≤ i) → get_or buf' i 0 ≡ get_or buf i 0)

  -- One block's part of the read.
  pub copied-Holds :
      (start read n : ℕ) (buf : List ℕ)
      → 0 < D.get_block_size d
      → length (content ((start + read) / D.get_block_size d)) ≡ D.get_block_size d
      → (start + read) % D.get_block_size d + n ≤ D.get_block_size d
      → read + n ≤ length buf
      → Holds start read (read + n) buf (
          overlay read
            (take n (
              drop
                ((start + read) % D.get_block_size d)
                (content ((start + read) / D.get_block_size d))))
            buf)
  copied-Holds start read n buf pos whole fits room = (
    length-overlay read part buf,
    λ i h k.
        get_or-overlay_inside read i part buf 0 h (omega (arith, k, part-length))
          (omega (arith, k, room))
        ∙ get_or-take n (drop place block) (i - read) 0 (omega (arith, h, k))
        ∙ get_or-drop place block (i - read) 0
        ∙ byte i h k,
    λ i h. get_or-overlay_outside read i part buf 0 (outside i h),
  )
    where
      place : ℕ
      place = (start + read) % D.get_block_size d

      block : List ℕ
      block = content ((start + read) / D.get_block_size d)

      part : List ℕ
      part = take n (drop place block)

      part-length : length part ≡ n
      part-length =
          omega (arith, length-take n (drop place block), length-drop place block, whole, fits)

      outside : (i : ℕ) → (i < read) ⊎ (read + n ≤ i) → (i < read) ⊎ (read + length part ≤ i)
      outside i (inl h) = inl h
      outside i (inr h) = inr (omega (arith, h, part-length))

      byte :
          (i : ℕ)
          → read ≤ i
          → i < read + n
          → get_or block (place + (i - read)) 0 ≡ byte_at (start + i)
      byte i h k =
          let at : start + read + (i - read) ≡ start + i = omega (arith, h) in
          let (q, r) =
            place-eq (D.get_block_size d) (start + read) (i - read) pos
              (omega (arith, h, k, fits)) in
          ap (λ (x : ℕ). get_or (content x) (place + (i - read)) 0) (sym q)
          ∙ ap (λ (x : ℕ). get_or (content ((start + read + (i - read)) / D.get_block_size d)) x 0)
              (sym r)
          ∙ ap byte_at at

  pub Holds-joined :
      (start first mid last : ℕ) (b0 b1 b2 : List ℕ)
      → first ≤ mid
      → mid ≤ last
      → Holds start first mid b0 b1
      → Holds start mid last b1 b2
      → Holds start first last b0 b2
  Holds-joined start first mid last b0 b1 b2 h k (l1, in1, out1) (l2, in2, out2) = (
    l2 ∙ l1,
    λ i f l. elim (Bool-cases (ltb i mid)) [
      | inl e ↦ out2 i (inl (ltb→lt i mid e)) ∙ in1 i f (ltb→lt i mid e)
      | inr e ↦ in2 i (ltb_false→le i mid e) l
    ],
    λ i o. elim o [
      | inl f ↦ out2 i (inl (omega arith)) ∙ out1 i (inl f)
      | inr l ↦ out2 i (inr l) ∙ out1 i (inr (omega arith))
    ],
  )
