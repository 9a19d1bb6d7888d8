-- ===== src/Ext2/Volume/Coherent.antt =====
-- That `Ext2Volume` is a `Volume` over a device that transfers every block whole: its cache holds
-- what the device holds.
use campix.Base.{
  ℕ, zero, suc, ◌+◌, ◌*◌, ◌%◌, ◌^◌, ◌≤◌, ◌<◌, ◌≡◌, ◌≢◌, ◌⊎◌, inl, inr, refl, sym, ap, ap₂, ◌∙◌,
  Bool, true, false, Option, none, some, List, [], ◌∷◌, ltb, leb, ◌==◌, ==_iff, if◌then◌else◌,
  ltb→lt, ltb_false→le, length, take, overlay, Run, ok, Bool-cases, Option-cases, arith,
}
use mathlib.Core.Option.{none-ne-some, some-injective}
use campix.Vfs.Error.{Result, done, fail, action_not_allowed}
use campix.Ext2.Volume.{Volume}
use campix.Ext2.Volume.Blocks.{
  Device, IsWhole, LruCache, Shape, keep_read, read_sought, read_cached, read_block, update_cached,
  keep_written, write_sought, write_block,
}

pub take-whole : (n : ℕ) (xs : List ℕ) → length xs ≡ n → take n xs ≡ xs
take-whole zero [] h = refl
take-whole zero (x ∷ xs) h = absurd (omega arith)
take-whole (suc n) [] h = refl
take-whole (suc n) (x ∷ xs) h = ap (λ (ys : List ℕ). x ∷ ys) (take-whole n xs (omega arith))

overlay-whole : (xs ys : List ℕ) → length xs ≡ length ys → overlay 0 xs ys ≡ xs
overlay-whole [] [] h = refl
overlay-whole [] (y ∷ ys) h = absurd (omega arith)
overlay-whole (x ∷ xs) [] h = absurd (omega arith)
overlay-whole (x ∷ xs) (y ∷ ys) h = ap (λ (zs : List ℕ). x ∷ zs) (overlay-whole xs ys (omega arith))

times_le : (bs a b : ℕ) → a < b → bs * a + bs ≤ bs * b
times_le bs a b h = grind arith

blocks_apart : (bs a b : ℕ) → a ≢ b → (bs * a + bs ≤ bs * b) ⊎ (bs * b + bs ≤ bs * a)
blocks_apart bs a b h = elim (Bool-cases (ltb a b)) [
  | inl l ↦ inl (times_le bs a b (ltb→lt a b l))
  | inr l ↦
      let le : b ≤ a = ltb_false→le a b l in
      let less : b < a = ground (arith, le, h) in inr (times_le bs b a less)
]

module _ (D : Device) (C : LruCache) (fresh : ℕ → List ℕ) (v : Shape) where
  abbrev pub cached_or : List ℕ → Option (List ℕ) → List ℕ
  cached_or bytes none = bytes
  cached_or bytes (some cached) = cached

  -- A block is what the cache has for it, or else what the device has.
  abbrev pub block : D.State × C.State → ℕ → List ℕ
  block (d, c) lba = cached_or (D.bytes d (v.block_size * lba) v.block_size) (C.lookup lba c)

  abbrev pub IsCoherent : D.State × C.State → Type 0
  IsCoherent (d, c) =
      (key : ℕ) (cached : List ℕ)
      → key < 2 ^ 32
      → C.lookup key c ≡ some cached
      → cached ≡ D.bytes d (v.block_size * key) v.block_size

  abbrev Reads : ℕ → D.State × C.State → Run (Result ℕ × List ℕ × (D.State × C.State)) → Type 0
  Reads lba s r =
      (outcome : Result ℕ) × (buf' : List ℕ) × (s' : D.State × C.State) × (r
        ≡ ok (outcome, buf', s'))
      × IsCoherent s'
      × (length buf' ≡ v.block_size)
      × ((other : ℕ) → other < 2 ^ 32 → block s' other ≡ block s other)
      × ((n : ℕ) → outcome ≡ done n → buf' ≡ block s lba)

  abbrev Writes : ℕ → List ℕ → D.State × C.State → Run (Result ℕ × (D.State × C.State)) → Type 0
  Writes lba buf s r =
      (outcome : Result ℕ) × (s' : D.State × C.State) × (r ≡ ok (outcome, s'))
      × ((other : ℕ) → other < 2 ^ 32 → other ≢ lba → block s' other ≡ block s other)
      × ((n : ℕ) → outcome ≡ done n → IsCoherent s' × (block s' lba ≡ buf))

  block-device :
      (d : D.State) (c : C.State) (lba : ℕ)
      → IsCoherent (d, c)
      → lba < 2 ^ 32
      → block (d, c) lba ≡ D.bytes d (v.block_size * lba) v.block_size
  block-device d c lba h l = elim (Option-cases (C.lookup lba c)) [
    | inl e ↦ rw e refl
    | inr (cached, e) ↦ rw e (h lba cached l e)
  ]

  -- Nothing on the device has changed.
  abbrev SameBytes : D.State → D.State → Type 0
  SameBytes d d' = (pos n : ℕ) → D.bytes d' pos n ≡ D.bytes d pos n

  block-same :
      (d d' : D.State) (c c' : C.State) (other : ℕ)
      → IsCoherent (d, c)
      → IsCoherent (d', c')
      → SameBytes d d'
      → other < 2 ^ 32
      → block (d', c') other ≡ block (d, c) other
  block-same d d' c c' other h h' same l =
      block-device d' c' other h' l ∙ same _ _ ∙ sym (block-device d c other h l)

  unread :
      (lba : ℕ) (buf buf' : List ℕ) (outcome : Result ℕ) (d d' : D.State) (c c' : C.State)
      → IsCoherent (d, c)
      → IsCoherent (d', c')
      → SameBytes d d'
      → length buf' ≡ v.block_size
      → ((n : ℕ) → outcome ≡ done n → buf' ≡ block (d, c) lba)
      → Reads lba (d, c) (ok (outcome, buf', (d', c')))
  unread lba buf buf' outcome d d' c c' h h' same size got = (
    outcome,
    buf',
    (d', c'),
    refl,
    h',
    size,
    λ other l. block-same d d' c c' other h h' same l,
    got,
  )

  module _ (fits : (n : ℕ) → length (fresh n) ≡ n) (whole : IsWhole D)
      (small : v.block_count ≤ 2 ^ 32) where
    module _ (lba : ℕ) (l : lba < 2 ^ 32) (d : D.State) (c : C.State) (h : IsCoherent (d, c)) where
      wrap : lba % 2 ^ 32 ≡ lba
      wrap = omega (arith, l)

      -- The cache once the block is pushed.
      push-IsCoherent :
          (d' : D.State)
          → SameBytes d d'
          → IsCoherent (d', C.push lba (D.bytes d (v.block_size * lba) v.block_size) c)
      push-IsCoherent d' same key cached k e = elim (Bool-cases (key == lba)) [
        | inl q ↦
            let at : key ≡ lba = (==_iff key lba).0 q in
            sym (
              some-injective _ cached (
                sym (C.lookup-push lba _ c)
                ∙ ap
                    (λ (i : ℕ).
                      C.lookup i (C.push lba (D.bytes d (v.block_size * lba) v.block_size) c))
                    (sym at)
                ∙ e))
            ∙ ap (λ (i : ℕ). D.bytes d (v.block_size * i) v.block_size) (sym at)
            ∙ sym (same _ _)
        | inr q ↦ elim (C.lookup-push_ne lba key _ c (λ at. ground (arith, q, at))) [
          | inl kept ↦ h key cached k (sym kept ∙ e) ∙ sym (same _ _)
          | inr gone ↦ absurd (none-ne-some cached (sym gone ∙ e))
        ]
      ]

      keep_read-Reads :
          (buf : List ℕ) (d0 : D.State) (r : Result (List ℕ) × D.State)
          → length buf ≡ v.block_size
          → SameBytes d d0
          → D.place d0 ≡ v.block_size * lba
          → D.read v.block_size d0 ≡ r
          → Reads lba (d, c) (keep_read D C fresh v lba buf c r)
      keep_read-Reads buf d0 (fail x, d') size same at e =
          let same' : SameBytes d d' = λ pos n.
            ap (λ r. D.bytes r.1 pos n) (sym e) ∙ D.bytes-read v.block_size d0 pos n ∙ same pos n in
          unread lba buf buf (fail x) d d' c c h
            (λ key cached k q. h key cached k q ∙ sym (same' _ _)) same' size (λ n q. cc)
      keep_read-Reads buf d0 (done got, d') size same at e =
          let same' : SameBytes d d' = λ pos n.
            ap (λ r. D.bytes r.1 pos n) (sym e) ∙ D.bytes-read v.block_size d0 pos n ∙ same pos n in
          let len : length got ≡ v.block_size =
            whole.whole_read v.block_size d0 got (ap (λ r. r.0) e) in
          let is : got ≡ D.bytes d (v.block_size * lba) v.block_size =
            D.read-bytes v.block_size d0 got (ap (λ r. r.0) e) len
            ∙ ap (λ (pos : ℕ). D.bytes d0 pos v.block_size) at
            ∙ same _ _ in
          let exact : ltb v.block_size (length got) ≡ false = ground (arith, len) in
          let filled : overlay 0 got buf ≡ D.bytes d (v.block_size * lba) v.block_size =
            overlay-whole got buf (len ∙ sym size) ∙ is in
          let pushed : overlay 0 got (fresh v.block_size)
              ≡ D.bytes d (v.block_size * lba) v.block_size =
            overlay-whole got (fresh v.block_size) (len ∙ sym (fits v.block_size)) ∙ is in
          rw (exact, wrap, filled, pushed)
            (unread lba buf (D.bytes d (v.block_size * lba) v.block_size) (done (length got)) d d' c
              (C.push lba (D.bytes d (v.block_size * lba) v.block_size) c) h
              (push-IsCoherent d' same') same' (D.length-bytes d _ v.block_size)
              (λ n q. sym (block-device d c lba h l)))

      read_sought-Reads :
          (buf : List ℕ) (r : Result ℕ × D.State)
          → length buf ≡ v.block_size
          → D.seek (v.block_size * lba) d ≡ r
          → Reads lba (d, c) (read_sought D C fresh v lba buf c r)
      read_sought-Reads buf (fail x, d') size e =
          let same : SameBytes d d' =
            λ pos n. ap (λ r. D.bytes r.1 pos n) (sym e) ∙ D.bytes-seek _ d pos n in
          unread lba buf buf (fail x) d d' c c h
            (λ key cached k q. h key cached k q ∙ sym (same _ _)) same size (λ n q. cc)
      read_sought-Reads buf (done n, d') size e =
          keep_read-Reads buf d' _ size
            (λ pos n. ap (λ r. D.bytes r.1 pos n) (sym e) ∙ D.bytes-seek _ d pos n)
            (ap (λ r. D.place r.1) (sym e) ∙ D.place-seek _ n d (ap (λ r. r.0) e)) refl

      cached-size : (cached : List ℕ) → C.lookup lba c ≡ some cached → length cached ≡ v.block_size
      cached-size cached e =
          ap (λ (xs : List ℕ). length xs) (h lba cached l e) ∙ D.length-bytes d _ v.block_size

      touch-IsCoherent : IsCoherent (d, C.touch lba c)
      touch-IsCoherent key cached k e = h key cached k (sym (C.lookup-touch lba key c) ∙ e)

      read_cached-Reads :
          (o : Option (List ℕ)) (buf : List ℕ)
          → C.lookup lba c ≡ o
          → length buf ≡ v.block_size
          → Reads lba (d, c) (read_cached D C fresh v o lba buf d c)
      read_cached-Reads none buf e size = read_sought-Reads buf _ size refl
      read_cached-Reads (some cached) buf e size =
          let same_size : (length buf == length cached) ≡ true =
            (==_iff (length buf) (length cached)).1 (size ∙ sym (cached-size cached e)) in
          rw (same_size, wrap)
            (unread lba buf cached (done v.block_size) d d c (C.touch lba c) h touch-IsCoherent
              (λ pos n. refl) (cached-size cached e) (λ n q. sym (ap (cached_or _) e)))

      -- A block other than the one that is written.
      apart :
          (buf : List ℕ) (d0 : D.State) (other : ℕ)
          → length buf ≡ v.block_size
          → SameBytes d d0
          → D.place d0 ≡ v.block_size * lba
          → other ≢ lba
          → D.bytes (D.write buf d0).1 (v.block_size * other) v.block_size
            ≡ D.bytes d (v.block_size * other) v.block_size
      apart buf d0 other size same at ne =
          D.bytes-write_apart buf d0 (v.block_size * other) v.block_size
            (elim (blocks_apart v.block_size other lba ne) [
              | inl below ↦ inl (omega (arith, below, at))
              | inr above ↦ inr (omega (arith, above, at, size))
            ])
          ∙ same _ _

      -- What is known of the device once a block is written without an error.
      abbrev IsStored : List ℕ → D.State → Type 0
      IsStored buf d' =
          (D.bytes d' (v.block_size * lba) v.block_size ≡ buf)
          × ((other : ℕ)
              → other ≢ lba
              → D.bytes d' (v.block_size * other) v.block_size
                ≡ D.bytes d (v.block_size * other) v.block_size)

      update_cached-Writes :
          (o : Option (List ℕ)) (buf : List ℕ) (d' : D.State)
          → C.lookup lba c ≡ o
          → length buf ≡ v.block_size
          → IsStored buf d'
          → Writes lba buf (d, c) (update_cached D C fresh v o lba buf v.block_size d' c)
      update_cached-Writes none buf d' e size (stored, others) = (
        done v.block_size,
        (d', c),
        refl,
        λ other k ne. ap (λ (bs : List ℕ). cached_or bs (C.lookup other c)) (others other ne),
        λ n q. (
          λ key cached k known.
              let ne : key ≢ lba =
                λ at. none-ne-some cached (sym e ∙ ap (λ (i : ℕ). C.lookup i c) (sym at) ∙ known) in
              h key cached k known ∙ sym (others key ne),
          ap (cached_or _) e ∙ stored,
        ),
      )
      update_cached-Writes (some cached) buf d' e size (stored, others) =
          let room : ltb (length buf) v.block_size ≡ false = ground (arith, size) in
          let exact : (length cached == v.block_size) ≡ true =
            (==_iff (length cached) v.block_size).1 (cached-size cached e) in
          let all : take v.block_size buf ≡ buf = take-whole v.block_size buf size in
          let set = C.lookup-set lba cached buf c e in
          rw (room, exact, wrap, all)
            (
              done v.block_size,
              (d', C.set lba buf c),
              refl,
              λ other k ne. ap₂ cached_or (others other ne) (C.lookup-set_ne lba other buf c ne),
              λ n q. (
                λ key old k known. elim (Bool-cases (key == lba)) [
                  | inl same ↦
                      let at : key ≡ lba = (==_iff key lba).0 same in
                      sym (
                        some-injective buf old
                          (sym set ∙ ap (λ (i : ℕ). C.lookup i (C.set lba buf c)) (sym at) ∙ known))
                      ∙ sym stored
                      ∙ ap (λ (i : ℕ). D.bytes d' (v.block_size * i) v.block_size) (sym at)
                  | inr apart ↦
                      let ne : key ≢ lba = λ at. ground (arith, apart, at) in
                      h key old k (sym (C.lookup-set_ne lba key buf c ne) ∙ known)
                      ∙ sym (others key ne)
                ],
                ap (cached_or _) set,
              ),
            )

      keep_written-Writes :
          (buf : List ℕ) (d0 : D.State) (r : Result ℕ × D.State)
          → length buf ≡ v.block_size
          → SameBytes d d0
          → D.place d0 ≡ v.block_size * lba
          → D.write buf d0 ≡ r
          → Writes lba buf (d, c) (keep_written D C fresh v lba buf c r)
      keep_written-Writes buf d0 (fail x, d') size same at e = (
        fail x,
        (d', c),
        refl,
        λ other k ne.
            ap (λ (bs : List ℕ). cached_or bs (C.lookup other c))
              (ap (λ r. D.bytes r.1 (v.block_size * other) v.block_size) (sym e)
                ∙ apart buf d0 other size same at ne),
        λ n q. cc,
      )
      keep_written-Writes buf d0 (done written, d') size same at e =
          let len : written ≡ length buf = whole.whole_write buf d0 written (ap (λ r. r.0) e) in
          let count : written ≡ v.block_size = len ∙ size in
          let stored : D.bytes d' (v.block_size * lba) v.block_size ≡ buf =
            ap₂ (D.bytes d') (sym at) (sym size)
            ∙ ap (λ r. D.bytes r.1 (D.place d0) (length buf)) (sym e)
            ∙ D.bytes-write buf d0 (ap (λ r. r.0) e ∙ ap (λ (n : ℕ). done n) len) in
          rw (count, wrap)
            (update_cached-Writes _ buf d' refl size (
              stored,
              λ other ne.
                  ap (λ r. D.bytes r.1 (v.block_size * other) v.block_size) (sym e)
                  ∙ apart buf d0 other size same at ne,
            ))

      write_sought-Writes :
          (buf : List ℕ) (r : Result ℕ × D.State)
          → length buf ≡ v.block_size
          → D.seek (v.block_size * lba) d ≡ r
          → Writes lba buf (d, c) (write_sought D C fresh v lba buf c r)
      write_sought-Writes buf (fail x, d') size e = (
        fail x,
        (d', c),
        refl,
        λ other k ne.
            ap (λ (bs : List ℕ). cached_or bs (C.lookup other c))
              (ap (λ r. D.bytes r.1 (v.block_size * other) v.block_size) (sym e)
                ∙ D.bytes-seek _ d _ _),
        λ n q. cc,
      )
      write_sought-Writes buf (done n, d') size e = rw (take-whole v.block_size buf size) (
          keep_written-Writes buf d' _ size
            (λ pos n. ap (λ r. D.bytes r.1 pos n) (sym e) ∙ D.bytes-seek _ d pos n)
            (ap (λ r. D.place r.1) (sym e) ∙ D.place-seek _ n d (ap (λ r. r.0) e)) refl)

    pub read_block-Reads :
        (lba : ℕ) (buf : List ℕ) (s : D.State × C.State)
        → IsCoherent s
        → length buf ≡ v.block_size
        → Reads lba s (read_block D C fresh v lba buf s)
    unfolding read_block
    read_block-Reads lba buf (d, c) h size =
        let room : ltb (length buf) v.block_size ≡ false = ground (arith, size) in
        elim (Bool-cases (leb v.block_count lba)) [
          | inl out ↦
              rw (room, out) (unread lba buf buf _ d d c c h h (λ pos n. refl) size (λ n q. cc))
          | inr inside ↦
              let l : lba < 2 ^ 32 = ground (arith, inside, small) in
              rw (room, inside, wrap lba l d c h) (read_cached-Reads lba l d c h _ buf refl size)
        ]

    pub write_block-Writes :
        (lba : ℕ) (buf : List ℕ) (s : D.State × C.State)
        → IsCoherent s
        → length buf ≡ v.block_size
        → lba < 2 ^ 32
        → Writes lba buf s (write_block D C fresh v lba buf s)
    unfolding write_block
    write_block-Writes lba buf (d, c) h size l =
        let room : ltb (length buf) v.block_size ≡ false = ground (arith, size) in
        rw room (by_mode v.read_only)
      where
        by_mode :
            (b : Bool)
            → Writes lba buf
                (d, c)
                (if b
                  then ok (fail action_not_allowed, (d, c))
                  else write_sought D C fresh v lba buf c (D.seek (v.block_size * lba) d))
        by_mode true = (fail action_not_allowed, (d, c), refl, λ other k ne. refl, λ n q. cc)
        by_mode false = write_sought-Writes lba l d c h buf _ size refl

    abbrev pub ext2_volume : Volume
    ext2_volume = record {
      State = D.State × C.State;
      IsValid = IsCoherent;
      block_size = v.block_size;
      block = block;
      read_block = read_block D C fresh v;
      write_block = write_block D C fresh v;
      reads = read_block-Reads;
      writes = write_block-Writes;
    }
