-- ===== src/Process/Stack/Build.antt =====
-- That `ThreadStack::build` puts the bytes of its data below the top of the stack, downwards, and
-- maps its pages there.
use campix.Base.{
  ℕ, zero, suc, ◌+◌, ◌-◌, ◌*◌, ◌%◌, ◌^◌, ◌≤◌, ◌<◌, ◌≡◌, refl, sym, ap, ◌∙◌, inl, inr, true, List,
  [], ◌∷◌, ◌++◌, ltb, ltb→lt, ltb_false→le, if◌then◌else◌, ◌==◌, ==_iff, Bool-cases, length, get_or,
  take, drop, overlay, replicate, length-append, length-take, length-drop, length-overlay,
  length-replicate, get_or-take, get_or-drop, get_or-replicate, get_or-overlay_inside,
  get_or-overlay_outside, arith,
}
use mathlib.Core.List.{append-nil, append_assoc}
use campix.Paging.{page_size}
use campix.Process.AddressSpace.{direct_mapping_offset}
use campix.Process.Stack.{
  PageMapper, Buffer, ThreadStack, new, get_bottom, reverse, page_of_chunk,
  grow_using_existing_buffer, build_loop, build,
}

length-reverse : (xs : List ℕ) → length (reverse xs) ≡ length xs
length-reverse [] = refl
length-reverse (x ∷ xs) = omega (arith, length-append (reverse xs) (x ∷ []), length-reverse xs)

get_or-append_left :
    (xs ys : List ℕ) (i : ℕ) → i < length xs → get_or (xs ++ ys) i 0 ≡ get_or xs i 0
get_or-append_left [] ys i h = absurd (omega arith)
get_or-append_left (x ∷ xs) ys zero h = refl
get_or-append_left (x ∷ xs) ys (suc i) h = get_or-append_left xs ys i (omega arith)

get_or-append_last : (xs : List ℕ) (x i : ℕ) → i ≡ length xs → get_or (xs ++ x ∷ []) i 0 ≡ x
get_or-append_last [] x zero h = refl
get_or-append_last [] x (suc i) h = absurd (omega arith)
get_or-append_last (y ∷ xs) x zero h = absurd (omega arith)
get_or-append_last (y ∷ xs) x (suc i) h = get_or-append_last xs x i (omega arith)

get_or-none : (xs : List ℕ) (i : ℕ) → length xs ≤ i → get_or xs i 0 ≡ 0
get_or-none [] i h = refl
get_or-none (x ∷ xs) zero h = absurd (omega arith)
get_or-none (x ∷ xs) (suc i) h = get_or-none xs i (omega arith)

get_or-reverse :
    (xs : List ℕ) (i j : ℕ) → suc (i + j) ≡ length xs → get_or (reverse xs) i 0 ≡ get_or xs j 0
get_or-reverse [] i j h = absurd (omega arith)
get_or-reverse (x ∷ xs) i zero h =
    get_or-append_last (reverse xs) x i (omega (arith, length-reverse xs, h))
get_or-reverse (x ∷ xs) i (suc j) h =
    get_or-append_left (reverse xs) (x ∷ []) i (omega (arith, length-reverse xs, h))
    ∙ get_or-reverse xs i j (omega (arith, h))

-- A buffer of `n` zeros that a reversed chunk fills from the end.
get_or-filled :
    (n : ℕ) (chunk : List ℕ) (i j : ℕ)
    → length chunk ≤ n
    → suc (i + j) ≡ n
    → get_or (overlay (n - length (reverse chunk)) (reverse chunk) (replicate n 0)) i 0
      ≡ get_or chunk j 0
get_or-filled n chunk i j h e =
    let l = length-reverse chunk in
    elim (Bool-cases (ltb j (length chunk))) [
      | inl c ↦
          let lt : j < length chunk = ltb→lt j (length chunk) c in
          get_or-overlay_inside (n - length (reverse chunk)) i (reverse chunk) (replicate n 0) 0
            (omega (arith, lt, e, l)) (omega (arith, lt, e, l, h))
            (omega (arith, e, length-replicate {A = ℕ} n 0))
          ∙ get_or-reverse chunk (i - (n - length (reverse chunk))) j (omega (arith, lt, e, l, h))
      | inr c ↦
          let le : length chunk ≤ j = ltb_false→le j (length chunk) c in
          get_or-overlay_outside (n - length (reverse chunk)) i (reverse chunk) (replicate n 0) 0
            (inl (omega (arith, le, e, l, h)))
          ∙ get_or-replicate n i 0
          ∙ sym (get_or-none chunk j le)
    ]

get_or-page_of_chunk :
    (chunk : List ℕ) (i j : ℕ)
    → length chunk ≤ page_size
    → suc (i + j) ≡ page_size
    → get_or (page_of_chunk chunk) i 0 ≡ get_or chunk j 0
unfolding page_of_chunk
get_or-page_of_chunk chunk i j h e = elim (Bool-cases (length (reverse chunk) == page_size)) [
  | inl c ↦
      let whole : length (reverse chunk) ≡ page_size =
        (==_iff (length (reverse chunk)) page_size).0 c in
      rw c (get_or-reverse chunk i j (omega (arith, whole, length-reverse chunk, e)))
  | inr c ↦ rw c (get_or-filled page_size chunk i j h e)
]

length-page_of_chunk : (chunk : List ℕ) → length (page_of_chunk chunk) ≡ page_size
unfolding page_of_chunk
length-page_of_chunk chunk = elim (Bool-cases (length (reverse chunk) == page_size)) [
  | inl c ↦ rw c ((==_iff (length (reverse chunk)) page_size).0 c)
  | inr c ↦ rw c (
      length-overlay (page_size - length (reverse chunk)) (reverse chunk) (replicate page_size 0)
      ∙ length-replicate {A = ℕ} page_size 0)
]

-- The byte that lies `suc j` below the top of a stack with these buffers, or 0 below the last one.
abbrev pub byte_below_top : List Buffer → ℕ → ℕ
byte_below_top [] j = 0
byte_below_top (b ∷ bs) j =
    let below = byte_below_top bs (j - page_size) in
    if ltb j page_size then get_or b.bytes (page_size - 1 - j) 0 else below

module _ (M : PageMapper) where
  -- The table when the buffers are mapped with these flags, each to the physical address that its
  -- place in the direct mapping stands for, in the pages that lie `below` bytes under `top` and on
  -- downwards.
  abbrev pub map_downwards : (top below flags : ℕ) → List Buffer → M.State → M.State
  map_downwards top below flags [] table = table
  map_downwards top below flags (b ∷ bs) table = map_downwards top (below + page_size) flags bs (
      M.map_4kb ((top + 2 ^ 64 - (below + page_size) % 2 ^ 64) % 2 ^ 64)
        ((b.address + 2 ^ 64 - direct_mapping_offset) % 2 ^ 64) flags table)

  -- The buffers that are added hold the data, downwards, are mapped there, and are counted in the
  -- stack's size.
  abbrev Adds : ℕ → ThreadStack × M.State → ThreadStack × M.State → List ℕ → Type 0
  Adds flags (s, table) (s', table') data_ =
      (added : List Buffer) × (s'.stack_buffers ≡ s.stack_buffers ++ added)
      × (s'.stack_top ≡ s.stack_top)
      × (s'.stack_size ≡ (s.stack_size + page_size * length added) % 2 ^ 64)
      × ((j : ℕ) → byte_below_top added j ≡ get_or data_ j 0)
      × ((below : ℕ)
          → below % 2 ^ 64 ≡ s.stack_size
          → table' ≡ map_downwards s.stack_top below flags added table)

  abbrev pushed : Buffer → ThreadStack → ThreadStack
  pushed buffer s = record s {
    stack_size = (s.stack_size + page_size) % 2 ^ 64;
    stack_buffers = s.stack_buffers ++ buffer ∷ [];
  }

  grow-pushed :
      (flags : ℕ) (buffer : Buffer) (s : ThreadStack) (table : M.State)
      → length buffer.bytes ≡ page_size
      → grow_using_existing_buffer M flags buffer (s, table) ≡ (
        true,
        pushed buffer s,
        M.map_4kb
            (get_bottom (pushed buffer s))
            ((buffer.address + 2 ^ 64 - direct_mapping_offset) % 2 ^ 64)
            flags
            table,
      )
  unfolding grow_using_existing_buffer
  grow-pushed flags buffer s table h = rw ((==_iff (length buffer.bytes) page_size).1 h) refl

  byte_below_top-page :
      (data_ : List ℕ) (address : ℕ) (added : List Buffer)
      → ((j : ℕ) → byte_below_top added j ≡ get_or (drop page_size data_) j 0)
      → (j : ℕ)
      → byte_below_top
          (record { address = address; bytes = page_of_chunk (take page_size data_) } ∷ added)
          j
        ≡ get_or data_ j 0
  byte_below_top-page data_ address added rest j = elim (Bool-cases (ltb j page_size)) [
    | inl c ↦
        let lt : j < page_size = ltb→lt j page_size c in
        rw c (
          get_or-page_of_chunk (take page_size data_) (page_size - 1 - j) j
            (omega (arith, length-take page_size data_)) (omega (arith, lt))
          ∙ get_or-take page_size data_ j 0 lt)
    | inr c ↦
        let le : page_size ≤ j = ltb_false→le j page_size c in
        rw c (
          rest (j - page_size)
          ∙ get_or-drop page_size data_ (j - page_size) 0
          ∙ ap (λ (i : ℕ). get_or data_ i 0) (omega (arith, le)))
  ]

  nothing-Adds :
      (flags : ℕ) (data_ : List ℕ) (s : ThreadStack) (table : M.State)
      → length data_ ≡ 0
      → s.stack_size < 2 ^ 64
      → Adds flags (s, table) (s, table) data_
  nothing-Adds flags data_ s table h k = (
    [],
    sym (append-nil s.stack_buffers),
    refl,
    omega arith,
    λ j. sym (get_or-none data_ j (omega (arith, h))),
    λ below e. refl,
  )

  build_loop-Adds :
      (flags : ℕ) (addresses data_ : List ℕ) (s : ThreadStack) (table : M.State)
      → length data_ ≤ page_size * length addresses
      → s.stack_size < 2 ^ 64
      → Adds flags (s, table) (build_loop M flags addresses data_ (s, table)) data_
  unfolding build_loop
  build_loop-Adds flags [] data_ s table h k = nothing-Adds flags data_ s table (omega (arith, h)) k
  build_loop-Adds flags (address ∷ addresses) data_ s table h k =
      elim (Bool-cases (length data_ == 0)) [
        | inl c ↦ rw c (nothing-Adds flags data_ s table ((==_iff (length data_) 0).0 c) k)
        | inr c ↦
            let buffer : Buffer = record {
              address = address;
              bytes = page_of_chunk (take page_size data_);
            } in
            let phys = (address + 2 ^ 64 - direct_mapping_offset) % 2 ^ 64 in
            let table1 = M.map_4kb (get_bottom (pushed buffer s)) phys flags table in
            let (added, buffers, top, size, bytes, pages) =
              build_loop-Adds flags addresses (drop page_size data_) (pushed buffer s) table1
                (omega (arith, length-drop page_size data_, h)) (omega arith) in
            rw (c, grow-pushed flags buffer s table (length-page_of_chunk (take page_size data_)))
              (
                buffer ∷ added,
                buffers ∙ append_assoc s.stack_buffers (buffer ∷ []) added,
                top,
                size ∙ omega arith,
                byte_below_top-page data_ address added bytes,
                λ below e.
                    let next : (below + page_size) % 2 ^ 64 ≡ (s.stack_size + page_size) % 2 ^ 64 =
                      omega (arith, e) in
                    pages (below + page_size) next
                    ∙ ap
                        (λ (n : ℕ).
                          map_downwards s.stack_top (below + page_size) flags added
                            (M.map_4kb ((s.stack_top + 2 ^ 64 - n) % 2 ^ 64) phys flags table))
                        (sym next),
              )
      ]

  -- With an address for each page of the data, `build` makes a stack under the given top whose bytes
  -- from the top downwards are the data, and zeros after them; its size is that of its buffers,
  -- modulo 2 ^ 64. In the page table, exactly its buffers are mapped, each once and with the given
  -- flags: page after page downwards from the top, to where the buffer is in the direct mapping.
  pub build-Holds :
      (top flags : ℕ) (data_ addresses : List ℕ) (table : M.State)
      → length data_ ≤ page_size * length addresses
      → let (s, table') = build M top data_ flags addresses table in
        (s.stack_top ≡ top)
        × (s.stack_size ≡ page_size * length s.stack_buffers % 2 ^ 64)
        × ((j : ℕ) → byte_below_top s.stack_buffers j ≡ get_or data_ j 0)
        × (table' ≡ map_downwards top 0 flags s.stack_buffers table)
  unfolding build
  build-Holds top flags data_ addresses table h =
      let (added, buffers, same, size, bytes, pages) =
        build_loop-Adds flags addresses data_ (new top) table h (omega arith) in
      rw buffers (same, size ∙ omega arith, bytes, pages 0 refl)
