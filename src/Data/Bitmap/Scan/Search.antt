-- ===== src/Data/Bitmap/Scan/Search.antt =====
-- What the two searches of the bitmap find, wherever `align_to` cuts the slice.
use campix.Base.{
  ℕ, zero, suc, ◌+◌, ◌-◌, ◌*◌, ◌/◌, ◌%◌, ◌^◌, ◌≤◌, ◌<◌, bit_and, ◌≡◌, refl, sym, ap, ◌∙◌, inl, inr,
  Bool, true, false, not, Option, some, none, List, [], ◌∷◌, arith, ltb, leb, ◌==◌, if◌then◌else◌,
  length, take, drop, All, Bool-cases, ==_iff, get_or-drop, get_or-take, lt→ltb, All-take, All-drop,
  length-drop, length-take,
}
use campix.Base.Bits.{bit, bit-zero, bit-append, bit-bit_not, bit_and-two_pow}
use campix.Data.Bitmap.{Bitmap}
use campix.Data.Bitmap.Laws.{not-not, bits_of, bit_at, IsByte, IsValid}
use campix.Data.Bitmap.Scan.{
  Scan, return, go_on, and_then, result, word_of, words, scan_bits, scan_words, scan_parts,
  find_first_unset, find_first_set,
}

-- `r` is the first index below `size` at which the bits `s` read `want`, if there is one.
abbrev pub IsFirst : (s : ℕ → Bool) (want : Bool) (size : ℕ) → Option ℕ → Type 0
IsFirst s want size none = (i : ℕ) → i < size → s i ≡ not want
IsFirst s want size (some k) = (k < size) × (s k ≡ want) × ((i : ℕ) → i < k → s i ≡ not want)

-- Where a scan that began at a bit index and went through bits up to `end` has come to.
abbrev Scanned : (s : ℕ → Bool) (want : Bool) (size end : ℕ) → Scan → Type 0
Scanned s want size end (return r) = IsFirst s want size r
Scanned s want size end (go_on k) = (k ≡ end) × ((i : ℕ) → i < end → s i ≡ not want)

-- The words `ws` of `width` bits hold the bits `s` from `idx` on.
abbrev Holds : (s : ℕ → Bool) (width : ℕ) → List ℕ → ℕ → Type 0
Holds s width [] idx = Unit {0}
Holds s width (w ∷ ws) idx =
    ((i : ℕ) → i < width → bit w i ≡ s (idx + i)) × Holds s width ws (idx + width)

wanted : (want b : Bool) → (if want then b else not b) ≡ true → b ≡ want
wanted true true e = refl
wanted true false e = cc
wanted false true e = cc
wanted false false e = refl

unwanted : (want b : Bool) → (if want then b else not b) ≡ false → b ≡ not want
unwanted true true e = cc
unwanted true false e = refl
unwanted false true e = refl
unwanted false false e = cc

module _ (s : ℕ → Bool) (want : Bool) (size : ℕ) (hit : ℕ → Bool)
    (hit_bit : (w i : ℕ)
      → hit (bit_and w (2 ^ i)) ≡ (if want then bit w i else not (bit w i))) where
  extend :
      (idx : ℕ)
      → ((j : ℕ) → j < idx → s j ≡ not want)
      → s idx ≡ not want
      → (j : ℕ) → j < idx + 1
      → s j ≡ not want
  extend idx below here j l = elim (Bool-cases (j == idx)) [
    | inl e ↦ ap s ((==_iff j idx).0 e) ∙ here
    | inr e ↦ below j (ground arith)
  ]

  scan_bits-Scanned :
      (w left i idx end : ℕ)
      → idx + left ≡ end
      → ((a b : ℕ) → a + idx ≡ b + i → i ≤ a → a < i + left → bit w a ≡ s b)
      → ((j : ℕ) → j < idx → s j ≡ not want)
      → Scanned s want size end (scan_bits hit size w left i idx)
  unfolding scan_bits
  scan_bits-Scanned w zero i idx end e h below = (omega arith, λ j l. below j (omega arith))
  scan_bits-Scanned w (suc left) i idx end e h below = elim (Bool-cases (leb size idx)) [
    | inl past ↦ rw past (λ j l. below j (ground arith))
    | inr before ↦ elim (Bool-cases (hit (bit_and w (2 ^ i)))) [
      | inl yes_hit ↦
          rw (before, yes_hit)
            (
              ground arith,
              sym (h i idx (omega arith) (omega arith) (omega arith))
                  ∙ wanted want (bit w i) (sym (hit_bit w i) ∙ yes_hit),
              below,
            )
      | inr no_hit ↦
          rw (before, no_hit)
            (scan_bits-Scanned w left (i + 1) (idx + 1) end (omega arith)
              (λ a b e' l g. h a b (omega arith) (omega arith) (omega arith))
              (extend idx below (
                sym (h i idx (omega arith) (omega arith) (omega arith))
                ∙ unwanted want (bit w i) (sym (hit_bit w i) ∙ no_hit))))
    ]
  ]

  -- A scan of the words that hold the bits, if a word that is skipped has no hit in it.
  module _ (width skip : ℕ) (no_hit : (i : ℕ) → i < width → bit skip i ≡ not want) where
    one_word :
        (w idx : ℕ)
        → ((i : ℕ) → i < width → bit w i ≡ s (idx + i))
        → ((j : ℕ) → j < idx → s j ≡ not want)
        → Scanned s want size
            (idx + width)
            (if not (w == skip) then scan_bits hit size w width 0 idx else go_on (idx + width))
    one_word w idx h below = elim (Bool-cases (w == skip)) [
      | inl e ↦ rw e (
        refl,
        λ j l. elim (Bool-cases (ltb j idx)) [
          | inl low ↦ below j (ground arith)
          | inr high ↦
              let w_skip : w ≡ skip = (==_iff w skip).0 e in
              let back : idx + (j - idx) ≡ j = ground arith in
              let inside : j - idx < width = ground arith in
              ap s (sym back)
              ∙ sym (h (j - idx) inside)
              ∙ ap (λ (t : ℕ). bit t (j - idx)) w_skip
              ∙ no_hit (j - idx) inside
        ],
      )
      | inr e ↦ rw e (
          scan_bits-Scanned w width 0 idx (idx + width) refl
            (λ a b e' l g. h a (omega arith) ∙ ap s (omega arith)) below)
    ]

    scan_words-Scanned :
        (ws : List ℕ) (idx end : ℕ)
        → idx + width * length ws ≡ end
        → Holds s width ws idx
        → ((j : ℕ) → j < idx → s j ≡ not want)
        → Scanned s want size end (scan_words hit size width skip ws idx)
    unfolding scan_words
    scan_words-Scanned [] idx end e h below = (omega arith, λ j l. below j (omega arith))
    scan_words-Scanned (w ∷ ws) idx end e h below =
        continue _ (one_word w idx h.0 below)
          (λ below'. scan_words-Scanned ws (idx + width) end (grind arith) h.1 below')
      where
        continue :
            (r : Scan)
            → Scanned s want size (idx + width) r
            → (((j : ℕ) → j < idx + width → s j ≡ not want)
                → Scanned s want size end (scan_words hit size width skip ws (idx + width)))
            → Scanned s want size end (and_then r (scan_words hit size width skip ws))
        continue (return r) p next = p
        continue (go_on k) p next = rw p.0 (next p.1)

bits_of-cons :
    (x : ℕ) (xs : List ℕ) (i : ℕ)
    → bits_of (x ∷ xs) i ≡ (if ltb i 8 then bit x i else bits_of xs (i - 8))
bits_of-cons x xs i = elim (Bool-cases (ltb i 8)) [
  | inl e ↦ let q : i / 8 ≡ 0 = ground arith in let r : i % 8 ≡ i = ground arith in rw (e, q, r)
  | inr e ↦
      let q : i / 8 ≡ suc ((i - 8) / 8) = ground arith in
      let r : i % 8 ≡ (i - 8) % 8 = ground arith in rw (e, q, r)
]

bits_of-drop : (n : ℕ) (xs : List ℕ) (i : ℕ) → bits_of (drop n xs) i ≡ bits_of xs (8 * n + i)
bits_of-drop n xs i =
    let q : (8 * n + i) / 8 ≡ n + i / 8 = omega arith in
    let r : (8 * n + i) % 8 ≡ i % 8 = omega arith in rw (get_or-drop, q, r)

bits_of-take : (n : ℕ) (xs : List ℕ) (i : ℕ) → i < 8 * n → bits_of (take n xs) i ≡ bits_of xs i
bits_of-take n xs i h = rw (get_or-take n xs (i / 8) 0 (omega arith))

-- A little-endian word has the bits of its bytes.
word_of-bits : (xs : List ℕ) (i : ℕ) → All IsByte xs → bit (word_of xs) i ≡ bits_of xs i
unfolding word_of
word_of-bits [] i a = bit-zero i ∙ sym (bit-zero (i % 8))
word_of-bits (x ∷ xs) i a =
    bit-append 8 x (word_of xs) i a.0 ∙ rw (word_of-bits xs (i - 8) a.1) (sym (bits_of-cons x xs i))

Holds-bytes :
    (s : ℕ → Bool) (xs : List ℕ) (idx : ℕ)
    → ((i : ℕ) → i < 8 * length xs → bits_of xs i ≡ s (idx + i))
    → Holds s 8 xs idx
Holds-bytes s [] idx h = tt
Holds-bytes s (x ∷ xs) idx h = (
  λ i l. sym (bits_of-cons x xs i ∙ rw (lt→ltb i 8 l)) ∙ h i (omega arith),
  Holds-bytes s xs (idx + 8)
      λ i l. bits_of-drop 1 (x ∷ xs) i ∙ h (8 * 1 + i) (omega arith) ∙ ap s (omega arith),
)

Holds-words :
    (s : ℕ → Bool) (n : ℕ) (xs : List ℕ) (idx : ℕ)
    → All IsByte xs
    → ((i : ℕ) → i < 64 * n → bits_of xs i ≡ s (idx + i))
    → Holds s 64 (words n xs) idx
unfolding words
Holds-words s zero xs idx a h = tt
Holds-words s (suc n) xs idx a h = (
  λ i l.
      word_of-bits (take 8 xs) i (All-take IsByte 8 xs a)
      ∙ bits_of-take 8 xs i (omega arith)
      ∙ h i (omega arith),
  Holds-words s n (drop 8 xs) (idx + 64) (All-drop IsByte 8 xs a)
      λ i l. bits_of-drop 8 xs i ∙ h (8 * 8 + i) (omega arith) ∙ ap s (omega arith),
)

length-words : (n : ℕ) (xs : List ℕ) → length (words n xs) ≡ n
unfolding words
length-words zero xs = refl
length-words (suc n) xs = ap suc (length-words n (drop 8 xs))

module _ (want : Bool) (hit : ℕ → Bool) (skip8 skip64 : ℕ)
    (hit_bit : (w i : ℕ) → hit (bit_and w (2 ^ i)) ≡ (if want then bit w i else not (bit w i)))
    (no_hit8 : (i : ℕ) → i < 8 → bit skip8 i ≡ not want)
    (no_hit64 : (i : ℕ) → i < 64 → bit skip64 i ≡ not want) {b : Bitmap} (v : IsValid b) where
  after_scan :
      (ws : List ℕ) (width skip idx end : ℕ) (r : Scan)
      → ((i : ℕ) → i < width → bit skip i ≡ not want)
      → idx + width * length ws ≡ end
      → Holds (bit_at b) width ws idx
      → Scanned (bit_at b) want b.size idx r
      → Scanned (bit_at b) want b.size end (and_then r (scan_words hit b.size width skip ws))
  after_scan ws width skip idx end (return r) no_hit e h p = p
  after_scan ws width skip idx end (go_on k) no_hit e h p =
      rw p.0
        (scan_words-Scanned (bit_at b) want b.size hit hit_bit width skip no_hit ws idx end e h p.1)

  result-IsFirst :
      (r : Scan)
      → Scanned (bit_at b) want b.size (8 * length b.bytes) r
      → IsFirst (bit_at b) want b.size (result r)
  result-IsFirst (return r) p = p
  result-IsFirst (go_on k) p = λ i l. p.1 i (omega (arith, v.fits))

  scan_parts-IsFirst :
      (h w : ℕ)
      → h + 8 * w ≤ length b.bytes
      → IsFirst (bit_at b) want b.size (
          scan_parts hit b.size skip8 skip64
            (take h b.bytes)
            (words w (drop h b.bytes))
            (drop (h + 8 * w) b.bytes))
  unfolding scan_parts
  scan_parts-IsFirst h w fits = result-IsFirst _ (
      after_scan _ 8 skip8 (8 * (h + 8 * w)) _ _ no_hit8
        (omega (arith, length-drop (h + 8 * w) b.bytes))
        (Holds-bytes (bit_at b) (drop (h + 8 * w) b.bytes) _ (λ i l. bits_of-drop _ b.bytes i))
        (after_scan _ 64 skip64 (8 * h) _ _ no_hit64
          (omega (arith, length-words w (drop h b.bytes)))
          (Holds-words (bit_at b) w (drop h b.bytes) _ (All-drop IsByte h b.bytes v.are_bytes)
            (λ i l. bits_of-drop h b.bytes i))
          (scan_words-Scanned (bit_at b) want b.size hit hit_bit 8 skip8 no_hit8 (take h b.bytes) 0
            (8 * h) (omega (arith, length-take h b.bytes))
            (Holds-bytes (bit_at b) (take h b.bytes) 0 λ i l.
              bits_of-take h b.bytes i (omega (arith, length-take h b.bytes))
              ∙ ap (bits_of b.bytes) {x = i} {y = 0 + i} (omega arith))
            (λ j l. absurd (omega arith)))))

-- On a valid bitmap, wherever the slice is cut into bytes and words, `find_first_unset` returns
-- the lowest clear bit below the size, and `None` only when every bit below the size is set.
pub find_first_unset-IsFirst :
    {b : Bitmap} (h w : ℕ)
    → IsValid b
    → h + 8 * w ≤ length b.bytes
    → IsFirst (bit_at b) false b.size (find_first_unset h w b)
unfolding find_first_unset
find_first_unset-IsFirst h w v fits =
    scan_parts-IsFirst false (λ x. x == 0) (2 ^ 8 - 1) (2 ^ 64 - 1) (λ x i. bit_and-two_pow x i)
      (λ i l. bit-bit_not 8 0 i (omega arith) ∙ rw (lt→ltb i 8 l, bit-zero))
      (λ i l. bit-bit_not 64 0 i (omega arith) ∙ rw (lt→ltb i 64 l, bit-zero)) v h w fits

-- On a valid bitmap, wherever the slice is cut into bytes and words, `find_first_set` returns the
-- lowest set bit below the size, and `None` only when every bit below the size is clear.
pub find_first_set-IsFirst :
    {b : Bitmap} (h w : ℕ)
    → IsValid b
    → h + 8 * w ≤ length b.bytes
    → IsFirst (bit_at b) true b.size (find_first_set h w b)
unfolding find_first_set
find_first_set-IsFirst h w v fits =
    scan_parts-IsFirst true (λ x. not (x == 0)) 0 0
      (λ x i. ap not (bit_and-two_pow x i) ∙ not-not (bit x i)) (λ i l. bit-zero i)
      (λ i l. bit-zero i) v h w fits
