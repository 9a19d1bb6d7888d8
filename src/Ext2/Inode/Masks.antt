-- ===== src/Ext2/Inode/Masks.antt =====
-- The two masks that part an inode's 16 bits into its type and its permissions.
use campix.Base.{
  ℕ, ◌+◌, ◌-◌, ◌*◌, ◌/◌, ◌^◌, ◌≤◌, ◌<◌, ◌≡◌, refl, sym, ap, ◌∙◌, Bool, true, false, not, ◌&&◌, ◌||◌,
  Option, none, some, bit_and, bit_or, ltb, ltb_false→le, le→ltb_false, if◌then◌else◌, ◌==◌, ==_iff,
  Bool-cases, arith, inl, inr,
}
use campix.Base.Words.{and_true, and_false, or_false}
use campix.Base.Bits.{
  bit, bit-bit_and, bit-bit_or, bit-bit_not, bit_above, bit-append, eq_of_bits, lt_of_bits,
  bit-zero,
}
use mathlib.Core.Option.{some-injective, none-ne-some}
use campix.Ext2.Inode.{
  InodeType, fifo, character_device, directory, block_device, file, symlink, socket, type_bits,
  type_of_bits,
}

-- The digits of the two masks are complements.
mask_digits : (i : ℕ) → i < 16 → bit 0xF000 i ≡ not (bit 0x0FFF i)
mask_digits i h = bit-bit_not 16 0x0FFF i (omega arith) ∙ ground arith

low_pick : (c a b : Bool) → (c ≡ false → a ≡ false) → ((if c then a else b) && c) ≡ a
low_pick true a b e = and_true a
low_pick false a b e = and_false b ∙ sym (e refl)

high_pick :
    (c a b : Bool)
    → ((if c then a else (if c then false else b)) && not c) ≡ (if c then false else b)
high_pick true a b = and_false a
high_pick false a b = and_true b

either_mask : (a b : Bool) → ((a && not b) || (a && b)) ≡ a
either_mask true true = refl
either_mask true false = refl
either_mask false b = refl

-- The two masked parts of a 16-bit number make it up.
pub bit_or-masks : (n : ℕ) → n < 2 ^ 16 → bit_or (bit_and n 0xF000) (bit_and n 0x0FFF) ≡ n
bit_or-masks n h = eq_of_bits 16 _ n (lt_of_bits 16 _ above) h below
  where
    digits :
        (i : ℕ)
        → bit (bit_or (bit_and n 0xF000) (bit_and n 0x0FFF)) i
          ≡ ((bit n i && bit 0xF000 i) || (bit n i && bit 0x0FFF i))
    digits i =
        rw
          (
            bit-bit_or (bit_and n 0xF000) (bit_and n 0x0FFF) i,
            bit-bit_and n 0xF000 i,
            bit-bit_and n 0x0FFF i,
          )
          refl

    above : (i : ℕ) → 16 ≤ i → bit (bit_or (bit_and n 0xF000) (bit_and n 0x0FFF)) i ≡ false
    above i l = digits i ∙ rw (bit_above 16 n i h l) refl

    below : (i : ℕ) → i < 16 → bit (bit_or (bit_and n 0xF000) (bit_and n 0x0FFF)) i ≡ bit n i
    below i l = digits i ∙ rw (mask_digits i l) (either_mask (bit n i) (bit 0x0FFF i))

-- The bits of a type are above the twelve of the permissions.
type_quotient : InodeType → ℕ
type_quotient t = type_bits t / 2 ^ 12

type_bits_split :
    (t : InodeType) → (type_bits t ≡ 0 + 2 ^ 12 * type_quotient t) × (type_quotient t < 16)
unfolding type_quotient
type_bits_split fifo = (refl, omega arith)
type_bits_split character_device = (refl, omega arith)
type_bits_split directory = (refl, omega arith)
type_bits_split block_device = (refl, omega arith)
type_bits_split file = (refl, omega arith)
type_bits_split symlink = (refl, omega arith)
type_bits_split socket = (refl, omega arith)

pub type_of_bits-type_bits : (t : InodeType) → type_of_bits (type_bits t) ≡ some t
type_of_bits-type_bits fifo = refl
type_of_bits-type_bits character_device = refl
type_of_bits-type_bits directory = refl
type_of_bits-type_bits block_device = refl
type_of_bits-type_bits file = refl
type_of_bits-type_bits symlink = refl
type_of_bits-type_bits socket = refl

-- One arm of the chain of tests.
arm :
    (c : Bool) (n : ℕ) (u t : InodeType) (rest : Option InodeType)
    → (c ≡ true → type_bits u ≡ n)
    → (rest ≡ some t → type_bits t ≡ n)
    → (if c then some u else rest) ≡ some t
    → type_bits t ≡ n
arm true n u t rest code otherwise e = ap type_bits (sym (some-injective u t e)) ∙ code refl
arm false n u t rest code otherwise e = otherwise e

pub type_bits-type_of_bits : (n : ℕ) (t : InodeType) → type_of_bits n ≡ some t → type_bits t ≡ n
type_bits-type_of_bits n t = tested 0x1000 fifo _ refl (
    tested 0x2000 character_device _ refl (
      tested 0x4000 directory _ refl (
        tested 0x6000 block_device _ refl (
          tested 0x8000 file _ refl (
            tested 0xA000 symlink _ refl
              (tested 0xC000 socket none refl (λ e. absurd (none-ne-some t e))))))))
  where
    tested :
        (k : ℕ) (u : InodeType) (rest : Option InodeType)
        → type_bits u ≡ k
        → (rest ≡ some t → type_bits t ≡ n)
        → (if n == k then some u else rest) ≡ some t
        → type_bits t ≡ n
    tested k u rest code = arm (n == k) n u t rest (λ e. code ∙ sym ((==_iff n k).0 e))

low_mask_digits : (i : ℕ) → bit 0x0FFF i ≡ ltb i 12
low_mask_digits i = bit-bit_not 12 0 i (omega arith) ∙ rw (bit-zero i) (and_true (ltb i 12))

-- The type bits and the permissions do not mix.
module _ (t : InodeType) (p : ℕ) (h : p < 2 ^ 12) where
  type_digits :
      (i : ℕ) → bit (type_bits t) i ≡ (if ltb i 12 then false else bit (type_quotient t) (i - 12))
  type_digits i =
      ap (λ (k : ℕ). bit k i) (type_bits_split t).0
      ∙ bit-append 12 0 (type_quotient t) i (omega arith)
      ∙ rw (bit-zero i) refl

  type_bits_lt : type_bits t < 2 ^ 16
  type_bits_lt = let s = type_bits_split t in omega arith

  whole_digits :
      (i : ℕ) → bit (bit_or (type_bits t) p) i ≡ (if ltb i 12 then bit p i else bit (type_bits t) i)
  whole_digits i = bit-bit_or (type_bits t) p i ∙ elim (Bool-cases (ltb i 12)) [
    | inl e ↦ rw (type_digits i, e) refl
    | inr e ↦
        let above : bit p i ≡ false = bit_above 12 p i h (ltb_false→le i 12 e) in
        rw (above, e) (or_false (bit (type_bits t) i))
  ]

  whole_lt : bit_or (type_bits t) p < 2 ^ 16
  whole_lt = lt_of_bits 16 _ (λ i l.
      whole_digits i
      ∙ rw (bit_above 16 (type_bits t) i type_bits_lt l, le→ltb_false i 12 (omega arith)) refl)

  masked_above : (m i : ℕ) → 16 ≤ i → bit (bit_and (bit_or (type_bits t) p) m) i ≡ false
  masked_above m i l =
      bit-bit_and (bit_or (type_bits t) p) m i ∙ rw (bit_above 16 _ i whole_lt l) refl

  pub permission_part : bit_and (bit_or (type_bits t) p) 0x0FFF ≡ p
  permission_part = eq_of_bits 16 _ p (lt_of_bits 16 _ (masked_above 0x0FFF)) (omega arith) (λ i l.
      bit-bit_and (bit_or (type_bits t) p) 0x0FFF i
      ∙ rw (whole_digits i, low_mask_digits i)
          (low_pick (ltb i 12) _ _ (λ e. bit_above 12 p i h (ltb_false→le i 12 e))))

  pub type_part : bit_and (bit_or (type_bits t) p) 0xF000 ≡ type_bits t
  type_part =
      eq_of_bits 16 _ (type_bits t) (lt_of_bits 16 _ (masked_above 0xF000)) type_bits_lt (λ i l.
        bit-bit_and (bit_or (type_bits t) p) 0xF000 i
        ∙ rw (whole_digits i, mask_digits i l, low_mask_digits i, type_digits i)
            (high_pick (ltb i 12) _ _))
