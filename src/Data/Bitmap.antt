-- ===== src/Data/Bitmap.antt =====
-- `Bitmap` of src/data/bitmap.rs: a bit set over a boxed slice of bytes.
-- A byte is a number below 256. An index out of the slice panics.
pub mod Bytes
pub mod Laws
pub mod Scan
mod Tests
use campix.Base.{
  ℕ, ◌+◌, ◌-◌, ◌*◌, ◌/◌, ◌%◌, ◌^◌, bit_and, bit_or, bit_xor, Bool, not, Option, none, some, List,
  ltb, ◌==◌, if◌then◌else◌, length, get_elem?, set, replicate, Run, ok, ◌>>=◌, or_panic,
}
use campix.Base.Bits.{bit_not}

pub record Bitmap : Type 0 where
  pub bytes : List ℕ
  pub size : ℕ

abbrev pub div_ceil : ℕ → ℕ → ℕ
div_ceil a b = (a + b - 1) / b

abbrev pub next_multiple_of : ℕ → ℕ → ℕ
next_multiple_of a b = div_ceil a b * b

pub clear : Bitmap → Bitmap
clear b = record b { bytes = replicate (length b.bytes) 0 }

-- `fresh n` is what a new allocation of `n` bytes holds.
pub new : (fresh : ℕ → List ℕ) → ℕ → Bitmap
unfolding clear
new fresh size = clear (record { bytes = fresh (div_ceil size 8); size = size })

-- The bytes are left as the allocation gave them.
pub new_with_size_multiple : (fresh : ℕ → List ℕ) → ℕ → ℕ → Bitmap
new_with_size_multiple fresh size multiple = record {
  bytes = fresh (next_multiple_of (div_ceil size 8) multiple);
  size = size;
}

pub new_with_data : ℕ → List ℕ → Bitmap
new_with_data size bytes = record { bytes = bytes; size = size }

unfoldable pub get_bit : Bitmap → ℕ → Run (Option Bool)
get_bit b idx =
    if ltb idx b.size
    then (do
      byte ← or_panic (get_elem? b.bytes (idx / 8))
      ok (some (not (bit_and byte (2 ^ (idx % 8)) == 0))))
    else ok none

-- A read, a change and a write back of the byte that holds bit `idx`.
unfoldable pub update : (ℕ → ℕ → ℕ) → Bitmap → ℕ → Run Bitmap
update f b idx =
    if ltb idx b.size
    then (do
      byte ← or_panic (get_elem? b.bytes (idx / 8))
      ok (record b { bytes = set b.bytes (idx / 8) (f byte (2 ^ (idx % 8))) }))
    else ok b

pub set_bit : Bitmap → ℕ → Bool → Run Bitmap
unfolding update
set_bit b idx enabled =
    update (λ byte mask. if enabled then bit_or byte mask else bit_and byte (bit_not 8 mask)) b idx

unfoldable pub toggle_bit : Bitmap → ℕ → Run Bitmap
unfolding update
toggle_bit b idx = update bit_xor b idx

pub len : Bitmap → ℕ
len b = b.size

pub is_empty : Bitmap → Bool
is_empty b = b.size == 0
