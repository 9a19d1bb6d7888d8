-- ===== src/Ext2/ReadingLocation/Laws.antt =====
-- Random access, the index of a location and the walk from block to block agree.
use campix.Base.{
  ℕ, ◌+◌, ◌-◌, ◌*◌, ◌/◌, ◌%◌, ◌^◌, ◌≤◌, ◌<◌, ◌≡◌, refl, ◌∙◌, Bool, true, false, ltb, arith,
  if◌then◌else◌, lt→ltb, le→ltb_false,
}
use native.Mathlib.Nat.{
  mod-eq_of_lt, mul-add-div_right, div-eq_of_lt, mod-eq-sub-div-mul, div-add-mod', mod-mod_of_dvd,
  dvd-mul_left, div-lt_iff_lt-mul, mod-lt,
}
use campix.Ext2.ReadingLocation.{
  ReadingLocation, Info, direct, single, double, triple, u32, locate, index_of, advance_info, new,
  current_block_idx, advance,
}

-- The number of blocks that the tables of an inode can name.
abbrev pub capacity : ℕ → ℕ
capacity t = 12 + t + t * t + t * t * t

-- Every index lies in its table.
abbrev pub IsInside : Info → ℕ → Type 0
IsInside (direct a) t = a < 12
IsInside (single a) t = a < t
IsInside (double a b) t = (a < t) × (b < t)
IsInside (triple a b c) t = (a < t) × (b < t) × (c < t)

-- The index of a location without the wrap.
abbrev plain : Info → ℕ → ℕ
plain (direct a) t = a
plain (single a) t = 12 + a
plain (double a b) t = 12 + t + a * t + b
plain (triple a b c) t = 12 + t + t * t + a * t * t + b * t + c

div_of_parts : (t a b : ℕ) → b < t → (a * t + b) / t ≡ a
div_of_parts t a b h =
    mul-add-div_right {m = t} (omega arith) a b ∙ rw (div-eq_of_lt {n = b} {m = t} h) (omega arith)

mod_of_parts : (t a b : ℕ) → b < t → (a * t + b) % t ≡ b
mod_of_parts t a b h = mod-eq-sub-div-mul (a * t + b) t ∙ rw (div_of_parts t a b h) (omega arith)

square_bound : (t a b : ℕ) → a < t → b < t → a * t + b < t * t
square_bound t a b h g = grind arith

-- A number below `t * t * t` is given by its three digits to the base `t`.
module _ (t : ℕ) (a b c : ℕ) (hb : b < t) (hc : c < t) where
  abbrev low : ℕ
  low = b * t + c

  regroup : a * t * t + b * t + c ≡ a * (t * t) + low
  regroup = omega arith

  first_digit : (a * t * t + b * t + c) / (t * t) ≡ a
  first_digit = rw regroup (div_of_parts (t * t) a low (square_bound t b c hb hc))

  rest_digits : (a * t * t + b * t + c) % (t * t) ≡ low
  rest_digits = rw regroup (mod_of_parts (t * t) a low (square_bound t b c hb hc))

  last_digit : (a * t * t + b * t + c) % t ≡ c
  last_digit =
      let e : a * t * t + b * t + c ≡ (a * t + b) * t + c = omega arith in
      rw e (mod_of_parts t (a * t + b) c hc)

-- Random access undoes the index.
locate-plain : (l : Info) (t : ℕ) → IsInside l t → locate t (t * t) (plain l t) ≡ l
unfolding locate
locate-plain (direct a) t h = rw (lt→ltb a 12 h)
locate-plain (single a) t h =
    let e : 12 + a - 12 ≡ a = omega arith in
    rw (le→ltb_false (12 + a) 12 (omega arith), e, lt→ltb a t h)
locate-plain (double a b) t h =
    let e : 12 + t + a * t + b - 12 - t ≡ a * t + b = omega arith in
    rw (
      le→ltb_false (12 + t + a * t + b) 12 (omega arith),
      le→ltb_false (12 + t + a * t + b - 12) t (omega arith),
      e,
      lt→ltb (a * t + b) (t * t) (square_bound t a b h.0 h.1),
      div_of_parts t a b h.1,
      mod_of_parts t a b h.1,
    )
locate-plain (triple a b c) t h =
    let n = 12 + t + t * t + a * t * t + b * t + c in
    let e : n - 12 - t - t * t ≡ a * t * t + b * t + c = omega arith in
    rw
      (
        le→ltb_false n 12 (omega arith),
        le→ltb_false (n - 12) t (omega arith),
        le→ltb_false (n - 12 - t) (t * t) (omega arith),
        e,
        first_digit t a b c h.1 h.2,
        rest_digits t a b c h.1 h.2,
        div_of_parts t b c h.2,
      )
      (rw (last_digit t a b c h.1 h.2))

-- The index undoes random access, also past the capacity.
parts : (x t : ℕ) → x / t * t + x % t ≡ x
parts x t = div-add-mod' x t

triple_parts : (x t : ℕ) → 0 < t → x / (t * t) * t * t + x % (t * t) / t * t + x % t ≡ x
triple_parts x t h =
    omega (arith, parts x (t * t), parts (x % (t * t)) t, mod-mod_of_dvd t x (dvd-mul_left t t))

plain-locate : (b t : ℕ) → 0 < t → plain (locate t (t * t) b) t ≡ b
unfolding locate
plain-locate b t h = ground (arith, parts (b - 12 - t) t, triple_parts (b - 12 - t - t * t) t h)

square_pos : (t : ℕ) → 0 < t → 0 < t * t
square_pos t h = grind arith

quotient-lt : (d q x : ℕ) → 0 < d → x < q * d → x / d < q
quotient-lt d q x h g = (div-lt_iff_lt-mul {k = d} h).1 g

-- Below the capacity random access stays inside the tables.
locate-IsInside : (b t : ℕ) → 0 < t → b < capacity t → IsInside (locate t (t * t) b) t
unfolding locate
locate-IsInside b t h g = ground (
  arith,
  quotient-lt t t (b - 12 - t),
  quotient-lt (t * t) t (b - 12 - t - t * t),
  quotient-lt t t ((b - 12 - t - t * t) % (t * t)),
  mod-lt (b - 12 - t) {m = t} h,
  mod-lt (b - 12 - t - t * t) {m = t} h,
  mod-lt (b - 12 - t - t * t) {m = t * t} (square_pos t h),
)

-- An index is the last of its table or has a successor in it; at the last one the sums carry.
last_of : (t a : ℕ) → a ≡ t - 1 → 0 < t → a + 1 ≡ t
last_of t a e h = omega arith

carry : (t a : ℕ) → (a + 1) * t ≡ a * t + t
carry t a = grind arith

carry2 : (t a : ℕ) → (a + 1) * t * t ≡ a * t * t + t * t
carry2 t a = omega arith

-- One step leads to the next index, and there is none only behind the last.
abbrev Follows : Info → ℕ → Bool × Info → Type 0
Follows l t (true, l') = IsInside l' t × (plain l' t ≡ plain l t + 1)
Follows l t (false, l') = (l' ≡ l) × (plain l t + 1 ≡ capacity t)

advance-Follows : (l : Info) (t : ℕ) → 0 < t → IsInside l t → Follows l t (advance_info l t)
unfolding advance_info
advance-Follows (direct a) t p h = ground arith
advance-Follows (single a) t p h = ground arith
advance-Follows (double a b) t p h = ground (arith, last_of t a, last_of t b, carry t a)
advance-Follows (triple a b c) t p h =
    ground (arith, last_of t a, last_of t b, last_of t c, carry t a, carry t b, carry2 t a)

step_mono : (a t s : ℕ) → a < t → (a + 1) * s ≤ t * s
step_mono a t s h = grind arith

cube_step : (t a : ℕ) → a < t → a * t * t + t * t ≤ t * t * t
cube_step t a h = omega (arith, step_mono a t (t * t) h)

plain-lt : (l : Info) (t : ℕ) → IsInside l t → plain l t < capacity t
plain-lt (direct a) t h = omega arith
plain-lt (single a) t h = omega arith
plain-lt (double a b) t h = omega (arith, square_bound t a b h.0 h.1)
plain-lt (triple a b c) t h = omega (arith, square_bound t b c h.1 h.2, cube_step t a h.0)

step-eq :
    (t b : ℕ) (l : Info) (r : Bool × Info)
    → IsInside l t
    → plain l t ≡ b
    → Follows l t r
    → r ≡ (if ltb (b + 1) (capacity t) then (true, locate t (t * t) (b + 1)) else (false, l))
step-eq t b l (true, l') i e f =
    let next : plain l' t ≡ b + 1 = omega arith in
    let inside : b + 1 < capacity t = omega (arith, plain-lt l' t f.0) in
    rw (lt→ltb _ _ inside, ← next, locate-plain l' t f.0)
step-eq t b l (false, l') i e f = rw (le→ltb_false (b + 1) (capacity t) (omega arith), f.0)

-- The wraps of the source change nothing while the tables are below 2^16 entries.
abbrev pub FitsIn32 : ℕ → Type 0
FitsIn32 t = (0 < t) × (t < 2 ^ 16)

mul-le-mul : (a b c : ℕ) → b < c → a * b ≤ a * c
mul-le-mul a b c h = grind arith

square-fits : (t : ℕ) → FitsIn32 t → u32 (t * t) ≡ t * t
square-fits t f = mod-eq_of_lt (omega (arith, mul-le-mul t t (2 ^ 16) f.1))

index_of-plain : (l : Info) (t : ℕ) → plain l t < 2 ^ 32 → index_of l t ≡ plain l t
unfolding index_of
index_of-plain (direct a) t h = refl
index_of-plain (single a) t h = mod-eq_of_lt h
index_of-plain (double a b) t h = mod-eq_of_lt h
index_of-plain (triple a b c) t h = mod-eq_of_lt h

attach :
    (t : ℕ) (c : Bool) (x y : Info)
    → let r : Bool × Info = if c then (true, x) else (false, y) in
      ◌≡◌ {A = Bool × ReadingLocation}
        (r.0, record { location = r.1; table_size = t })
        (if c
          then (true, record { location = x; table_size = t })
          else (false, record { location = y; table_size = t }))
attach t true x y = refl
attach t false x y = refl

-- For every block index of 32 bits, and tables of fewer than 2^16 entries, the location made for
-- the index has that index.
pub current_block_idx-new : (t b : ℕ) → FitsIn32 t → b < 2 ^ 32 → current_block_idx (new t b) ≡ b
unfolding new current_block_idx
current_block_idx-new t b f h =
    rw (square-fits t f, index_of-plain (locate t (t * t) b) t (rw (plain-locate b t f.0) h))
      (plain-locate b t f.0)

-- Advancing a location made for a block index gives the location made for the next one, as long
-- as the tables can name it; behind the last block `advance` returns `false` and stays.
pub advance-new :
    (t b : ℕ)
    → FitsIn32 t
    → b < capacity t
    → advance (new t b)
      ≡ (if ltb (b + 1) (capacity t) then (true, new t (b + 1)) else (false, new t b))
unfolding new advance
advance-new t b f h =
    rw (square-fits t f, stepped)
      (attach t (ltb (b + 1) (capacity t)) (locate t (t * t) (b + 1)) (locate t (t * t) b))
  where
    stepped : advance_info (locate t (t * t) b) t ≡ (
        if ltb (b + 1) (capacity t)
        then (true, locate t (t * t) (b + 1))
        else (false, locate t (t * t) b))
    stepped =
        step-eq t b (locate t (t * t) b) _ (locate-IsInside b t f.0 h) (plain-locate b t f.0)
          (advance-Follows _ t f.0 (locate-IsInside b t f.0 h))
