-- ===== src/Data/Bitmap/Tests.antt =====
-- A bitmap of twelve bits in two bytes: bit 9 is clear, and bits 12 to 15 are padding.
use campix.Base.{
  ℕ, ◌≡◌, refl, true, false, some, List, [], ◌∷◌, arith, replicate, All-replicate, length-replicate,
  ok,
}
use campix.Data.Bitmap.{Bitmap, new_with_data, get_bit, set_bit, toggle_bit, len, is_empty}
use campix.Data.Bitmap.Laws.{IsByte, IsValid, bit_at, Allocation}
use campix.Data.Bitmap.Scan.{find_first_unset}
use campix.Data.Bitmap.Scan.Search.{IsFirst, find_first_unset-IsFirst}

abbrev twelve : Bitmap
twelve = record { bytes = 255 ∷ 253 ∷ []; size = 12 }

twelve-IsValid : IsValid twelve
twelve-IsValid = record { fits = omega arith; are_bytes = (omega arith, (omega arith, tt)) }

-- An allocation that is filled with a byte.
abbrev filled : ℕ → List ℕ
filled n = replicate n 170

filled-Allocation : Allocation filled
filled-Allocation = record {
  sized = λ n. length-replicate n 170;
  of_bytes = λ n. All-replicate IsByte n 170 (omega arith);
}

find_first_unset-IsFirst_example : IsFirst (bit_at twelve) false 12 (find_first_unset 1 0 twelve)
find_first_unset-IsFirst_example =
    find_first_unset-IsFirst {b = twelve} 1 0 twelve-IsValid (omega arith)

get_bit_run : get_bit twelve 9 ≡ ok (some false)
unfolding get_bit
get_bit_run = refl

set_bit_run : set_bit twelve 9 true ≡ ok (record { bytes = 255 ∷ 255 ∷ []; size = 12 })
unfolding set_bit
set_bit_run = refl

toggle_bit_run : toggle_bit twelve 0 ≡ ok (record { bytes = 254 ∷ 253 ∷ []; size = 12 })
unfolding toggle_bit
toggle_bit_run = refl

new_with_data_run : len (new_with_data 12 (255 ∷ 253 ∷ [])) ≡ 12
unfolding len new_with_data
new_with_data_run = refl

is_empty_run : is_empty twelve ≡ false
unfolding is_empty
is_empty_run = refl
