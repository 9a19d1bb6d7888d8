-- ===== src/Vfs/Blocks/Tests.antt =====
-- A device of three blocks of four bytes, and the theorem on reads at it.
use campix.Base.{
  ℕ, zero, suc, ◌-◌, ◌*◌, ◌<◌, ◌≡◌, refl, sym, ap, ◌∙◌, inl, inr, Bool-cases, ◌==◌, ==_iff, min,
  length-set, get_elem?-eq-get_or, get_or-set_self, get_or-set_ne, List, [], ◌∷◌, length, get_or,
  set, ok, replicate, arith,
}
use mathlib.Core.Option.{some-injective}
use campix.Vfs.Error.{done}
use campix.Vfs.Blocks.{BlockDevice, get_size, read_chars, write_chars}
use campix.Vfs.Blocks.Copy.{IsReadable, Holds}
use campix.Vfs.Blocks.Read.{read_chars-Reads}
use campix.Vfs.Blocks.Stores.{IsStore, Stores}
use campix.Vfs.Blocks.Write.{write_chars-Writes}

abbrev disk : BlockDevice
disk = record {
  State = List (List ℕ);
  get_generation = λ d. 0;
  get_block_size = λ d. 4;
  get_block_count = λ d. 3;
  read_block = λ lba buf d. (done 4, get_or d lba buf);
  write_block = λ lba buf d. (done 4, set d lba buf);
  flush = λ d. (done tt, d);
}

abbrev three_blocks : List (List ℕ)
three_blocks = (1 ∷ 2 ∷ 3 ∷ 4 ∷ []) ∷ (5 ∷ 6 ∷ 7 ∷ 8 ∷ []) ∷ (9 ∷ 10 ∷ 11 ∷ 12 ∷ []) ∷ []

abbrev block : ℕ → List ℕ
block lba = get_or three_blocks lba []

three_blocks-IsReadable : IsReadable disk three_blocks block
three_blocks-IsReadable zero buf h l = (refl, (4, refl))
three_blocks-IsReadable (suc zero) buf h l = (refl, (4, refl))
three_blocks-IsReadable (suc (suc zero)) buf h l = (refl, (4, refl))
three_blocks-IsReadable (suc (suc (suc lba))) buf h l = absurd (omega arith)

abbrev six_bytes : List ℕ
six_bytes = replicate 6 0

read_across : read_chars disk 3 six_bytes three_blocks ≡ ok (done 6, 4 ∷ 5 ∷ 6 ∷ 7 ∷ 8 ∷ 9 ∷ [])
unfolding read_chars get_size
read_across = refl

written_across :
    write_chars disk 3 (20 ∷ 21 ∷ 22 ∷ 23 ∷ 24 ∷ 25 ∷ []) three_blocks
    ≡ ok (done 6, (1 ∷ 2 ∷ 3 ∷ 20 ∷ []) ∷ (21 ∷ 22 ∷ 23 ∷ 24 ∷ []) ∷ (25 ∷ 10 ∷ 11 ∷ 12 ∷ []) ∷ [])
unfolding write_chars get_size
written_across = refl

read_chars-Reads_example :
    (n : ℕ) × (n ≡ min (length six_bytes) (3 * 4 - 3))
    × (buf' : List ℕ) × (read_chars disk 3 six_bytes three_blocks ≡ ok (done n, buf'))
    × Holds disk three_blocks block 3 0 n six_bytes buf'
read_chars-Reads_example =
    read_chars-Reads disk three_blocks block three_blocks-IsReadable (omega arith) (omega arith) 3
      six_bytes (omega arith)

abbrev Three : List (List ℕ) → Type 0
Three d = (length d ≡ 3) × ((lba : ℕ) → lba < 3 → length (get_or d lba []) ≡ 4)

three_blocks-Three : Three three_blocks
three_blocks-Three = (refl, four)
  where
    four : (lba : ℕ) → lba < 3 → length (block lba) ≡ 4
    four zero h = refl
    four (suc zero) h = refl
    four (suc (suc zero)) h = refl
    four (suc (suc (suc lba))) h = absurd (omega arith)

disk-IsStore : IsStore disk (λ d lba. get_or d lba []) Three
disk-IsStore = record {
  block_length = λ d lba v h. v.1 lba h;
  reads = λ d lba buf v h l.
      let room : lba < length d = omega (arith, h, v.0) in
      (
        4,
        ap (λ (b : List ℕ). (done 4, b))
            (some-injective _ _
              (sym (get_elem?-eq-get_or d lba buf room) ∙ get_elem?-eq-get_or d lba [] room)),
      );
  writes = λ d lba buf v h l. (
    4,
    set d lba buf,
    refl,
    (length-set d lba buf ∙ v.0, still d lba buf v l),
    get_or-set_self d lba buf [] (omega (arith, h, v.0)),
    λ other o. get_or-set_ne d lba other buf [] (λ e. o (sym e)),
    refl,
    refl,
  );
}
  where
    still :
        (d : List (List ℕ)) (lba : ℕ) (buf : List ℕ)
        → Three d
        → length buf ≡ 4
        → (i : ℕ) → i < 3
        → length (get_or (set d lba buf) i []) ≡ 4
    still d lba buf v l i h = elim (Bool-cases (lba == i)) [
      | inl c ↦
          let same : lba ≡ i = (==_iff lba i).0 c in
          ap (λ (j : ℕ). length (get_or (set d lba buf) j [])) (sym same)
          ∙ ap (λ (b : List ℕ). length b)
              (get_or-set_self d lba buf [] (omega (arith, h, v.0, same)))
          ∙ l
      | inr c ↦
          ap (λ (b : List ℕ). length b)
            (get_or-set_ne d lba i buf [] λ e. absurd (ground (arith, c, e)))
          ∙ v.1 i h
    ]

write_chars-Writes_example :
    (n : ℕ) × (n ≡ min (length six_bytes) (3 * 4 - 3))
    × (d : List (List ℕ)) × (write_chars disk 3 six_bytes three_blocks ≡ ok (done n, d))
    × Three d
    × Stores disk (λ d lba. get_or d lba []) 3 0 n six_bytes three_blocks d
write_chars-Writes_example =
    write_chars-Writes disk (λ d lba. get_or d lba []) Three disk-IsStore 3 six_bytes three_blocks
      three_blocks-Three (omega arith) (omega arith) (omega arith)
