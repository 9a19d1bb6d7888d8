-- ===== src/Data/Bitmap/Scan.antt =====
-- `find_first_unset` and `find_first_set` of src/data/bitmap.rs: `align_to` cuts the slice into
-- bytes, 64-bit words and bytes, and three loops scan them, skipping a word that holds no hit.
pub mod Search
use campix.Base.{
  ℕ, zero, suc, ◌+◌, ◌-◌, ◌*◌, ◌^◌, ◌≤◌, bit_and, Bool, not, Option, none, some, List, [], ◌∷◌, ltb,
  leb, ◌==◌, if◌then◌else◌, length, take, drop,
}
use campix.Data.Bitmap.{Bitmap}

-- An early return from the loops, or the bit index at which they go on.
pub data Scan : Type 0 where
  return : Option ℕ → Scan
  go_on : ℕ → Scan

abbrev pub and_then : Scan → (ℕ → Scan) → Scan
and_then (return r) k = return r
and_then (go_on i) k = k i

abbrev pub result : Scan → Option ℕ
result (return r) = r
result (go_on i) = none

-- Eight bytes as a little-endian word, and the first `n` words of a slice.
pub word_of : List ℕ → ℕ
word_of [] = 0
word_of (b ∷ bs) = b + 2 ^ 8 * word_of bs

pub words : ℕ → List ℕ → List ℕ
unfolding word_of
words zero xs = []
words (suc n) xs = word_of (take 8 xs) ∷ words n (drop 8 xs)

-- `hit` is the test of the masked bit, `skip` the value of a word without a hit.
module _ (hit : ℕ → Bool) (size : ℕ) where
  -- The loop over the bits of a word, with `left` rounds to go, at bit `i`.
  pub scan_bits : ℕ → ℕ → ℕ → ℕ → Scan
  scan_bits word zero i bit_index = go_on bit_index
  scan_bits word (suc left) i bit_index =
      let rest = scan_bits word left (i + 1) (bit_index + 1) in
      if leb size bit_index
      then return none
      else if hit (bit_and word (2 ^ i))
      then return (some bit_index)
      else rest

  pub scan_words : (width skip : ℕ) → List ℕ → ℕ → Scan
  unfolding scan_bits
  scan_words width skip [] bit_index = go_on bit_index
  scan_words width skip (word ∷ ws) bit_index =
      and_then
        (if not (word == skip) then scan_bits word width 0 bit_index else go_on (bit_index + width))
        (scan_words width skip ws)

  pub scan_parts : (skip8 skip64 : ℕ) → (head body tail : List ℕ) → Option ℕ
  unfolding scan_words
  scan_parts skip8 skip64 head body tail = result (
      and_then (and_then (scan_words 8 skip8 head 0) (scan_words 64 skip64 body))
        (scan_words 8 skip8 tail))

-- The address of the slice decides the cut: `h` bytes, `w` words, and the bytes that are left.
pub find_first_unset : (h w : ℕ) → Bitmap → Option ℕ
unfolding scan_parts words
find_first_unset h w b =
    scan_parts (λ v. v == 0) b.size (2 ^ 8 - 1) (2 ^ 64 - 1) (take h b.bytes)
      (words w (drop h b.bytes)) (drop (h + 8 * w) b.bytes)

pub find_first_set : (h w : ℕ) → Bitmap → Option ℕ
unfolding scan_parts words
find_first_set h w b =
    scan_parts (λ v. not (v == 0)) b.size 0 0 (take h b.bytes) (words w (drop h b.bytes))
      (drop (h + 8 * w) b.bytes)
