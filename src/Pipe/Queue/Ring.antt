-- ===== src/Pipe/Queue/Ring.antt =====
-- A write of a block of bytes to a ring: which positions it changes.
use campix.Base.{
  ℕ, ◌+◌, ◌-◌, ◌%◌, ◌≤◌, ◌<◌, ◌≡◌, ◌≢◌, ◌⊎◌, sym, ◌∙◌, inl, inr, true, false, List, arith, ltb,
  if◌then◌else◌, length, get_or, take, drop, overlay, Bool-cases, length-overlay, length-take,
  length-drop, get_or-overlay_inside, get_or-overlay_outside, get_or-take, get_or-drop,
}
use campix.Pipe.Queue.{wrap_below, wrap_above}

-- The buffer after a write of the first `n` bytes of `buf` at `w`, in one piece or in two.
abbrev pub ringed : ℕ → ℕ → List ℕ → List ℕ → List ℕ
ringed w n buf xs =
    if ltb (length xs - w) n
    then overlay 0 (take (n - (length xs - w)) (drop (length xs - w) buf))
        (overlay w (take (length xs - w) (drop 0 buf)) xs)
    else overlay w (take n (drop 0 buf)) xs

pub length-ringed : (w n : ℕ) (buf xs : List ℕ) → length (ringed w n buf xs) ≡ length xs
length-ringed w n buf xs = elim (Bool-cases (ltb (length xs - w) n)) [
  | inl e ↦ rw (e, length-overlay, length-overlay)
  | inr e ↦ rw (e, length-overlay)
]

pub piece_length : (s k : ℕ) (buf : List ℕ) → s + k ≤ length buf → length (take k (drop s buf)) ≡ k
piece_length s k buf h = omega (arith, length-take k (drop s buf), length-drop s buf)

piece_inside :
    (o s k i : ℕ) (buf ys : List ℕ)
    → s + k ≤ length buf
    → o ≤ i
    → i < o + k
    → i < length ys
    → get_or (overlay o (take k (drop s buf)) ys) i 0 ≡ get_or buf (s + (i - o)) 0
piece_inside o s k i buf ys h lo hi l =
    get_or-overlay_inside o i (take k (drop s buf)) ys 0 lo (omega (arith, piece_length s k buf h))
      l
    ∙ get_or-take k (drop s buf) (i - o) 0 (omega arith)
    ∙ get_or-drop s buf (i - o) 0

piece_outside :
    (o s k i : ℕ) (buf ys : List ℕ)
    → s + k ≤ length buf
    → (i < o) ⊎ (o + k ≤ i)
    → get_or (overlay o (take k (drop s buf)) ys) i 0 ≡ get_or ys i 0
piece_outside o s k i buf ys h out =
    get_or-overlay_outside o i (take k (drop s buf)) ys 0 (omega (arith, piece_length s k buf h))

module _ (w n : ℕ) (buf xs : List ℕ) (inside : w < length xs) (fits : n ≤ length xs)
    (given : n ≤ length buf) where
  abbrev room : ℕ
  room = length xs - w

  -- The byte `j` of the write lies at `w + j`, modulo the length.
  pub ringed_new :
      (j : ℕ) → j < n → get_or (ringed w n buf xs) ((w + j) % length xs) 0 ≡ get_or buf j 0
  ringed_new j l = elim (Bool-cases (ltb room n)) [
    | inl wraps ↦ elim (Bool-cases (ltb j room)) [
      | inl front ↦
          let index : 0 + (w + j - w) ≡ j = omega arith in
          rw (wraps, wrap_below (w + j) (length xs) (ground arith))
            (piece_outside 0 room (n - room) (w + j) buf _ (ground arith) (inr (ground arith))
              ∙ piece_inside w 0 room (w + j) buf xs (ground arith) (omega arith) (ground arith)
                  (ground arith)
              ∙ rw index)
      | inr back ↦
          let index : room + (w + j - length xs - 0) ≡ j = ground arith in
          rw (wraps, wrap_above (w + j) (length xs) (ground arith) (omega arith))
            (piece_inside 0 room (n - room) (w + j - length xs) buf _ (ground arith) (omega arith)
                (ground arith) (rw length-overlay (omega arith))
              ∙ rw index)
    ]
    | inr straight ↦
        let index : 0 + (w + j - w) ≡ j = omega arith in
        rw (straight, wrap_below (w + j) (length xs) (ground arith))
          (piece_inside w 0 n (w + j) buf xs (omega arith) (omega arith) (omega arith)
              (ground arith)
            ∙ rw index)
  ]

  -- A position that the write does not reach keeps its byte.
  pub ringed_old :
      (i : ℕ)
      → i < length xs
      → ((j : ℕ) → j < n → i ≢ (w + j) % length xs)
      → get_or (ringed w n buf xs) i 0 ≡ get_or xs i 0
  ringed_old i l away = elim (Bool-cases (ltb room n)) [
    | inl wraps ↦ rw wraps (
        piece_outside 0 room (n - room) i buf _ (ground arith) (inr (low wraps))
        ∙ piece_outside w 0 room i buf xs (ground arith) (inl (high wraps)))
    | inr straight ↦ rw straight (piece_outside w 0 n i buf xs (omega arith) (between straight))
  ]
    where
      low : ltb room n ≡ true → 0 + (n - room) ≤ i
      low wraps = elim (Bool-cases (ltb i (n - room))) [
        | inl reached ↦
            let back : w + (room + i) ≡ i + length xs = omega arith in
            absurd (
              away (room + i) (ground arith) (
                sym (
                  rw back (
                    wrap_above (i + length xs) (length xs) (omega arith) (omega arith)
                    ∙ (omega arith)))))
        | inr beyond ↦ ground arith
      ]

      high : ltb room n ≡ true → i < w
      high wraps = elim (Bool-cases (ltb i w)) [
        | inl before ↦ ground arith
        | inr reached ↦
            let same : w + (i - w) ≡ i = ground arith in
            absurd (away (i - w) (ground arith) (sym (rw same (wrap_below i (length xs) l))))
      ]

      between : ltb room n ≡ false → (i < w) ⊎ (w + n ≤ i)
      between straight = elim (Bool-cases (ltb i w)) [
        | inl before ↦ inl (ground arith)
        | inr reached ↦ elim (Bool-cases (ltb i (w + n))) [
          | inl hit ↦
              let same : w + (i - w) ≡ i = ground arith in
              absurd (away (i - w) (ground arith) (sym (rw same (wrap_below i (length xs) l))))
          | inr beyond ↦ inr (ground arith)
        ]
      ]
