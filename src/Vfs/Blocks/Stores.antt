-- ===== src/Vfs/Blocks/Stores.antt =====
-- Block devices that keep what is written to them, and what the write of one block changes of their
-- bytes.
use campix.Base.{
  ℕ, ◌+◌, ◌-◌, ◌*◌, ◌/◌, ◌%◌, ◌≤◌, ◌<◌, ◌≡◌, ◌≢◌, ◌⊎◌, inl, inr, refl, sym, ap, ◌∙◌, List, ltb,
  ltb→lt, ltb_false→le, ◌==◌, ==_iff, Bool-cases, length, get_or, arith,
}
use native.Mathlib.Nat.{mod-lt, div-add-mod}
use campix.Vfs.Error.{done}
use campix.Vfs.Blocks.{BlockDevice}
use campix.Vfs.Blocks.Copy.{byte_at, place-eq}

-- A block device that keeps what is written to it: `content` is what each block holds in a state,
-- and `Valid` are the states that it can be in.
pub record IsStore (D : BlockDevice) (content : D.State → ℕ → List ℕ) (Valid : D.State → Type 0)
    : Type 0 where
  pub block_length :
      (s : D.State) (lba : ℕ)
      → Valid s
      → lba < D.get_block_count s
      → length (content s lba) ≡ D.get_block_size s
  pub reads :
      (s : D.State) (lba : ℕ) (buf : List ℕ)
      → Valid s
      → lba < D.get_block_count s
      → length buf ≡ D.get_block_size s
      → (n : ℕ) × (D.read_block lba buf s ≡ (done n, content s lba))
  pub writes :
      (s : D.State) (lba : ℕ) (buf : List ℕ)
      → Valid s
      → lba < D.get_block_count s
      → length buf ≡ D.get_block_size s
      → (n : ℕ) × (s' : D.State) × (D.write_block lba buf s ≡ (done n, s'))
        × Valid s'
        × (content s' lba ≡ buf)
        × ((other : ℕ) → other ≢ lba → content s' other ≡ content s other)
        × (D.get_block_size s' ≡ D.get_block_size s)
        × (D.get_block_count s' ≡ D.get_block_count s)

module _ (D : BlockDevice) (content : D.State → ℕ → List ℕ) where
  abbrev pub device_byte : D.State → ℕ → ℕ
  device_byte s = byte_at D s (content s)

  -- The device's bytes from `start + first` up to `start + last` are those of the buffer from `first`
  -- on; the others, and the device's size, are as before.
  pub record Stores (start first last : ℕ) (buf : List ℕ) (s s' : D.State) : Type 0 where
    pub size : D.get_block_size s' ≡ D.get_block_size s
    pub count : D.get_block_count s' ≡ D.get_block_count s
    pub inside : (i : ℕ) → first ≤ i → i < last → device_byte s' (start + i) ≡ get_or buf i 0
    pub outside :
        (i : ℕ) → (i < start + first) ⊎ (start + last ≤ i) → device_byte s' i ≡ device_byte s i

  pub Stores-none :
      (start first : ℕ) (buf : List ℕ) (s : D.State) → Stores start first first buf s s
  Stores-none start first buf s = record {
    size = refl;
    count = refl;
    inside = λ i h k. absurd (omega (arith, h, k));
    outside = λ i h. refl;
  }

  pub Stores-joined :
      (start first mid last : ℕ) (buf : List ℕ) (a b c : D.State)
      → first ≤ mid
      → mid ≤ last
      → Stores start first mid buf a b
      → Stores start mid last buf b c
      → Stores start first last buf a c
  Stores-joined start first mid last buf a b c h k e f = record {
    size = f.size ∙ e.size;
    count = f.count ∙ e.count;
    inside = λ i l m. elim (Bool-cases (ltb i mid)) [
      | inl x ↦
          f.outside (start + i) (inl (omega (arith, ltb→lt i mid x)))
          ∙ e.inside i l (ltb→lt i mid x)
      | inr x ↦ f.inside i (ltb_false→le i mid x) m
    ];
    outside = λ i o. elim o [
      | inl l ↦ f.outside i (inl (omega (arith, l, h))) ∙ e.outside i (inl l)
      | inr l ↦ f.outside i (inr l) ∙ e.outside i (inr (omega (arith, l, k)))
    ];
  }

  -- A block that holds `n` bytes of the buffer from `place` on, and else what it held before.
  abbrev pub IsPatched : (width place write n : ℕ) → List ℕ → List ℕ → List ℕ → Type 0
  IsPatched width place write n buf old new =
      ((j : ℕ) → j < n → get_or new (place + j) 0 ≡ get_or buf (write + j) 0)
      × ((j : ℕ) → j < width → (j < place) ⊎ (place + n ≤ j) → get_or new j 0 ≡ get_or old j 0)

  -- The write of a patched block.
  pub block-Stores :
      (start write n : ℕ) (buf new : List ℕ) (s s' : D.State)
      → 0 < D.get_block_size s
      → (start + write) % D.get_block_size s + n ≤ D.get_block_size s
      → IsPatched
          (D.get_block_size s)
          ((start + write) % D.get_block_size s)
          write
          n
          buf
          (content s ((start + write) / D.get_block_size s))
          new
      → content s' ((start + write) / D.get_block_size s) ≡ new
      → ((other : ℕ)
          → other ≢ (start + write) / D.get_block_size s
          → content s' other ≡ content s other)
      → D.get_block_size s' ≡ D.get_block_size s
      → D.get_block_count s' ≡ D.get_block_count s
      → Stores start write (write + n) buf s s'
  block-Stores start write n buf new s s' pos fits (inside, outside) here others size count =
      record { size = size; count = count; inside = inside'; outside = outside' }
    where
      width : ℕ
      width = D.get_block_size s

      place : ℕ
      place = (start + write) % D.get_block_size s

      lba : ℕ
      lba = (start + write) / D.get_block_size s

      inside' : (i : ℕ) → write ≤ i → i < write + n → device_byte s' (start + i) ≡ get_or buf i 0
      inside' i h k =
          let (q, r) = place-eq width (start + write) (i - write) pos (omega (arith, h, k, fits)) in
          ap (λ (w : ℕ). get_or (content s' ((start + i) / w)) ((start + i) % w) 0) size
          ∙ ap (λ (x : ℕ). get_or (content s' (x / width)) (x % width) 0)
              (let at : start + i ≡ start + write + (i - write) = omega (arith, h) in at)
          ∙ ap (λ (x : ℕ). get_or (content s' x) ((start + write + (i - write)) % width) 0) q
          ∙ ap (λ (x : ℕ). get_or (content s' lba) x 0) r
          ∙ ap (λ (b : List ℕ). get_or b (place + (i - write)) 0) here
          ∙ inside (i - write) (omega (arith, h, k))
          ∙ ap (λ (x : ℕ). get_or buf x 0) (omega (arith, h))

      in_block :
          (i : ℕ)
          → i / width ≡ lba
          → (i < start + write) ⊎ (start + (write + n) ≤ i)
          → (i % width < place) ⊎ (place + n ≤ i % width)
      in_block i e (inl l) = inl (
          omega (
            arith,
            l,
            ap (λ (x : ℕ). width * x) e,
            div-add-mod i width,
            div-add-mod (start + write) width,
          ))
      in_block i e (inr l) = inr (
          omega (
            arith,
            l,
            ap (λ (x : ℕ). width * x) e,
            div-add-mod i width,
            div-add-mod (start + write) width,
          ))

      outside' :
          (i : ℕ)
          → (i < start + write) ⊎ (start + (write + n) ≤ i)
          → device_byte s' i ≡ device_byte s i
      outside' i o =
          ap (λ (w : ℕ). get_or (content s' (i / w)) (i % w) 0) size
          ∙ elim (Bool-cases (i / width == lba)) [
            | inl c ↦
                let same : i / width ≡ lba = (==_iff (i / width) lba).0 c in
                ap (λ (x : ℕ). get_or (content s' x) (i % width) 0) same
                ∙ ap (λ (b : List ℕ). get_or b (i % width) 0) here
                ∙ outside (i % width) (mod-lt i pos) (in_block i same o)
                ∙ ap (λ (x : ℕ). get_or (content s x) (i % width) 0) (sym same)
            | inr c ↦
                ap (λ (b : List ℕ). get_or b (i % width) 0)
                  (others (i / width) λ e. absurd (ground (arith, c, e)))
          ]
