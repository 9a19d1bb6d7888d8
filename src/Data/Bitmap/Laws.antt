-- ===== src/Data/Bitmap/Laws.antt =====
-- Single-bit operations of the bitmap: what they read and write, and that they never panic on a
-- bitmap whose slice is long enough.
use campix.Base.{
  ℕ, ◌+◌, ◌-◌, ◌*◌, ◌/◌, ◌%◌, ◌^◌, ◌≤◌, ◌<◌, bit_xor, ◌≡◌, refl, sym, ◌∙◌, ◌≢◌, inl, inr, Bool,
  true, false, ◌&&◌, not, some, none, List, arith, ltb, ◌==◌, if◌then◌else◌, length, get_or, set,
  All, Run, ok, Bool-cases, get_elem?-eq-get_or, ==_iff, length-set, get_or-set_self, get_or-set_ne,
  All-set, All-get_or, All-replicate, length-replicate, get_or-replicate,
}
use campix.Base.Bits.{bit, bit_and-two_pow, bit-zero}
use native.Mathlib.Nat.{div-add-mod', mod-lt}
use campix.Data.Bitmap.{
  Bitmap, div_ceil, next_multiple_of, new, new_with_size_multiple, get_bit, update, set_bit,
  toggle_bit,
}
pub use campix.Data.Bitmap.Bytes.{IsByte}
use campix.Data.Bitmap.Bytes.{written, bit-written, written-IsByte, toggled-IsByte, toggle_byte}

-- Bit `i` of a slice of bytes; beyond its end there are only zeros.
abbrev pub bits_of : List ℕ → ℕ → Bool
bits_of xs i = bit (get_or xs (i / 8) 0) (i % 8)

abbrev pub bit_at : Bitmap → ℕ → Bool
bit_at b i = bits_of b.bytes i

-- The slice holds bytes, and all `size` bits.
pub record IsValid (b : Bitmap) : Type 0 where
  pub fits : b.size ≤ 8 * length b.bytes
  pub are_bytes : All IsByte b.bytes

pub not-not : (b : Bool) → not (not b) ≡ b
not-not true = refl
not-not false = refl

-- On a valid bitmap `get_bit` returns the bit within the size and `None` beyond it, without a panic.
pub get_bit_lem :
    {b : Bitmap} (i : ℕ)
    → IsValid b
    → get_bit b i ≡ ok (if ltb i b.size then some (bit_at b i) else none)
unfolding get_bit
get_bit_lem {b} i v = elim (Bool-cases (ltb i b.size)) [
  | inl e ↦
      rw (
        e,
        get_elem?-eq-get_or b.bytes (i / 8) 0 (ground (arith, v.fits)),
        bit_and-two_pow,
        not-not,
      )
  | inr e ↦ rw e
]

-- `result` is a normal return that puts `v` applied to bit `i` in its place, and changes no other.
pub record Updates (b : Bitmap) (i : ℕ) (v : Bool → Bool) (result : Run Bitmap) : Type 0 where
  pub after : Bitmap
  pub returns : result ≡ ok after
  pub valid : IsValid after
  pub same_size : after.size ≡ b.size
  pub same_length : length after.bytes ≡ length b.bytes
  pub others : (j : ℕ) → j ≢ i / 8 → get_or after.bytes j 0 ≡ get_or b.bytes j 0
  pub bits :
      (j : ℕ) → bit_at after j ≡ (if ltb i b.size && (i == j) then v (bit_at b j) else bit_at b j)

same_place :
    (i j : ℕ) (x y : Bool)
    → i / 8 ≡ j / 8
    → (if i % 8 == j % 8 then x else y) ≡ (if i == j then x else y)
same_place i j x y e = ground arith

other_place : (i j : ℕ) (x y : Bool) → i / 8 ≢ j / 8 → y ≡ (if i == j then x else y)
other_place i j x y h = ground arith

module _ (f : ℕ → ℕ → ℕ) (v : Bool → Bool)
    (f_byte : (x k : ℕ) → IsByte x → k < 8 → IsByte (f x (2 ^ k)))
    (f_bit : (x k j : ℕ)
      → IsByte x
      → k < 8
      → j < 8
      → bit (f x (2 ^ k)) j ≡ (if k == j then v (bit x j) else bit x j)) where
  bits_of-set :
      (xs : List ℕ) (i j : ℕ)
      → i < 8 * length xs
      → All IsByte xs
      → bits_of (set xs (i / 8) (f (get_or xs (i / 8) 0) (2 ^ (i % 8)))) j
        ≡ (if i == j then v (bits_of xs j) else bits_of xs j)
  bits_of-set xs i j h a = elim (Bool-cases (i / 8 == j / 8)) [
    | inl e ↦
        let same : i / 8 ≡ j / 8 = (==_iff (i / 8) (j / 8)).0 e in
        let x = get_or xs (i / 8) 0 in
        rw
          (
            ← same,
            get_or-set_self xs (i / 8) (f x (2 ^ (i % 8))) 0 (omega arith),
            f_bit x (i % 8) (j % 8) (All-get_or IsByte xs (i / 8) 0 a (omega arith)) (omega arith)
                (omega arith),
          )
          (same_place i j (v (bit x (j % 8))) (bit x (j % 8)) same)
    | inr e ↦
        let apart : i / 8 ≢ j / 8 = ground arith in
        rw (get_or-set_ne xs (i / 8) (j / 8) (f (get_or xs (i / 8) 0) (2 ^ (i % 8))) 0 apart)
          (other_place i j (v (bits_of xs j)) (bits_of xs j) apart)
  ]

  update_lem : {b : Bitmap} (i : ℕ) → IsValid b → Updates b i v (update f b i)
  unfolding update
  update_lem {b} i w = elim (Bool-cases (ltb i b.size)) [
    | inl e ↦
        let inside : i / 8 < length b.bytes = ground (arith, w.fits) in
        record {
          after = record b {
            bytes = set b.bytes (i / 8) (f (get_or b.bytes (i / 8) 0) (2 ^ (i % 8)));
          };
          returns = rw (e, get_elem?-eq-get_or b.bytes (i / 8) 0 inside);
          valid = record {
            fits = rw length-set w.fits;
            are_bytes = All-set IsByte b.bytes (i / 8) _ w.are_bytes (
                f_byte _ (i % 8) (All-get_or IsByte b.bytes (i / 8) 0 w.are_bytes (omega arith))
                  (omega arith));
          };
          same_size = refl;
          same_length = length-set b.bytes (i / 8) _;
          others = λ j ne. get_or-set_ne b.bytes (i / 8) j _ 0 (λ q. ne (sym q));
          bits = λ j. rw e (bits_of-set b.bytes i j (ground (arith, w.fits)) w.are_bytes);
        }
    | inr e ↦ record {
      after = b;
      returns = rw e;
      valid = w;
      same_size = refl;
      same_length = refl;
      others = λ j ne. refl;
      bits = λ j. rw e;
    }
  ]

-- On a valid bitmap `set_bit` returns a valid bitmap of the same size in which the bit has the
-- value, if it is within the size, and every other bit is what it was.
pub set_bit-Updates :
    {b : Bitmap} (i : ℕ) (enabled : Bool)
    → IsValid b
    → Updates b i (λ _. enabled) (set_bit b i enabled)
unfolding set_bit
set_bit-Updates i enabled v =
    update_lem (written enabled) (λ _. enabled) (written-IsByte enabled)
      (λ x k j h g l. bit-written enabled x k j h g) i v

-- On a valid bitmap `toggle_bit` returns a valid bitmap of the same size in which the bit is
-- flipped, if it is within the size, and every other bit is what it was.
pub toggle_bit-Updates : {b : Bitmap} (i : ℕ) → IsValid b → Updates b i not (toggle_bit b i)
unfolding toggle_bit
toggle_bit-Updates i v =
    update_lem bit_xor not toggled-IsByte (λ x k j h g l. toggle_byte x k j) i v

-- What the global allocator promises: as many bytes as were asked for.
pub record Allocation (fresh : ℕ → List ℕ) : Type 0 where
  pub sized : (n : ℕ) → length (fresh n) ≡ n
  pub of_bytes : (n : ℕ) → All IsByte (fresh n)

module _ {fresh : ℕ → List ℕ} (f : Allocation fresh) where
  -- From an allocator that gives as many bytes as it is asked for, a new bitmap is valid, with the size that was asked for, and all its bits are clear.
  pub new-IsValid :
      (size : ℕ)
      → IsValid (new fresh size)
        × ((new fresh size).size ≡ size)
        × ((i : ℕ) → bit_at (new fresh size) i ≡ false)
  unfolding new
  new-IsValid size = (
    record {
      fits = rw (length-replicate, f.sized) (omega arith);
      are_bytes = All-replicate IsByte _ 0 (omega arith);
    },
    refl,
    λ i. rw get_or-replicate (bit-zero (i % 8)),
  )

  pub length-new : (size : ℕ) → length (new fresh size).bytes ≡ div_ceil size 8
  unfolding new
  length-new size = length-replicate _ 0 ∙ f.sized (div_ceil size 8)

  multiple_above : (n m : ℕ) → 0 < m → n ≤ next_multiple_of n m
  multiple_above n m h =
      let e = div-add-mod' (n + m - 1) m in omega (arith, e, mod-lt (n + m - 1) {m = m} h)

  -- A bitmap whose slice is padded to a multiple of bytes is valid.
  pub new_with_size_multiple-IsValid :
      (size multiple : ℕ)
      → 0 < multiple
      → IsValid (new_with_size_multiple fresh size multiple)
        × ((new_with_size_multiple fresh size multiple).size ≡ size)
        × (length (new_with_size_multiple fresh size multiple).bytes
            ≡ next_multiple_of (div_ceil size 8) multiple)
  unfolding new_with_size_multiple
  new_with_size_multiple-IsValid size multiple h = (
    record {
      fits = rw (f.sized) (omega (arith, multiple_above (div_ceil size 8) multiple h));
      are_bytes = f.of_bytes _;
    },
    refl,
    f.sized _,
  )
