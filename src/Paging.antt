-- ===== src/Paging.antt =====
-- The virtual addresses of src/paging.rs: their parts for tables of four levels, the parts joined to
-- the canonical address, and alignment.
pub mod Address
pub mod SimpleAllocator
pub mod Tables
pub mod Map
pub mod Unmap
mod Tests
use campix.Base.{ℕ, ◌+◌, ◌-◌, ◌*◌, ◌/◌, ◌%◌, ◌^◌, bit_and, bit_or, Bool, not, ◌==◌, if◌then◌else◌}
use campix.Base.Bits.{bit_not}

abbrev pub page_size : ℕ
page_size = 4096

abbrev pub page_size_2mb : ℕ
page_size_2mb = 2 * 1024 * 1024

abbrev pub page_present : ℕ
page_present = 1

abbrev pub page_rw : ℕ
page_rw = 2

abbrev pub page_user : ℕ
page_user = 4

abbrev pub page_accessed : ℕ
page_accessed = 32

abbrev pub page_huge : ℕ
page_huge = 128

unfoldable pub split_virt_addr : ℕ → ℕ × ℕ × ℕ × ℕ
split_virt_addr addr = (
  bit_and (addr / 2 ^ 39) 0x1FF,
  bit_and (addr / 2 ^ 30) 0x1FF,
  bit_and (addr / 2 ^ 21) 0x1FF,
  bit_and (addr / 2 ^ 12) 0x1FF,
)

-- The parts side by side, before the sign of bit 47 is extended.
unfoldable pub join_parts : ℕ → ℕ → ℕ → ℕ → ℕ → ℕ
join_parts pml4 pdpt pd pt offset =
    bit_or
      (bit_or
        (bit_or (bit_or (bit_or 0 (pml4 * 2 ^ 39 % 2 ^ 64)) (pdpt * 2 ^ 30 % 2 ^ 64))
          (pd * 2 ^ 21 % 2 ^ 64))
        (pt * 2 ^ 12 % 2 ^ 64))
      (bit_and offset 0xFFF)

unfoldable pub extend_sign : ℕ → ℕ
extend_sign addr = if bit_and addr (2 ^ 47) == 0 then addr else bit_or addr 0xFFFF000000000000

unfoldable pub join_virt_addr : ℕ → ℕ → ℕ → ℕ → ℕ → ℕ
unfolding join_parts extend_sign
join_virt_addr pml4 pdpt pd pt offset = extend_sign (join_parts pml4 pdpt pd pt offset)

-- `align` is at least 1.
unfoldable pub align_down : ℕ → ℕ → ℕ
align_down addr align = bit_and addr (bit_not 64 (align - 1))

unfoldable pub align_up : ℕ → ℕ → ℕ
align_up addr align = bit_and ((addr + align - 1) % 2 ^ 64) (bit_not 64 (align - 1))
