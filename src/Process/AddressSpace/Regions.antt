-- ===== src/Process/AddressSpace/Regions.antt =====
-- The regions of the address space as intervals, which neither overlap nor leave a gap.
use campix.Base.{ℕ, ◌*◌, ◌^◌, ◌≤◌, ◌<◌, ◌≡◌, ◌↔◌, ◌⊎◌, Option, none, some, arith}
use campix.Process.AddressSpace.{
  VirtualAddressSpace, HigherHalfAddressSpace, LowerHalfAddressSpace, higher_half, lower_half,
  global_kernel_mapped_code, global_kernel_stack, global_direct_memory_mapping,
  global_memory_mapped_io, process_kernel_stack, process_stack, process_code, process_heap,
  get_address_space,
}

-- In units of 2^44 bytes, of which an address of 64 bits has 2^20.
abbrev Within : ℕ → ℕ → ℕ → Type 0
Within lo hi addr = (lo * 2 ^ 44 ≤ addr) × (addr < hi * 2 ^ 44)

-- The addresses of a region; `none` stands for those that are not canonical.
abbrev pub IsIn : Option VirtualAddressSpace → ℕ → Type 0
IsIn none addr = Within 0x8 0xFFFF8 addr
IsIn (some (higher_half global_kernel_mapped_code)) addr = Within 0xFFFF8 0xFFFF9 addr
IsIn (some (higher_half global_kernel_stack)) addr = Within 0xFFFF9 0xFFFFA addr
IsIn (some (higher_half global_direct_memory_mapping)) addr = Within 0xFFFFA 0xFFFFB addr
IsIn (some (higher_half global_memory_mapped_io)) addr = Within 0xFFFFB 0xFFFFC addr
IsIn (some (higher_half process_kernel_stack)) addr = Within 0xFFFFC 0xFFFFD addr
IsIn (some (higher_half HigherHalfAddressSpace.unused)) addr = Within 0xFFFFD 0x100000 addr
IsIn (some (lower_half process_stack)) addr = Within 1 2 addr
IsIn (some (lower_half process_code)) addr = Within 2 3 addr
IsIn (some (lower_half process_heap)) addr = Within 3 4 addr
IsIn (some (lower_half LowerHalfAddressSpace.unused)) addr = Within 0 1 addr ⊎ Within 4 8 addr

-- An address of 64 bits lies in a region, an interval of addresses, just when `get_address_space`
-- returns that region; it returns `None` just for the addresses between the two halves.
pub get_address_space_iff :
    (addr : ℕ) (region : Option VirtualAddressSpace)
    → addr < 2 ^ 64
    → (get_address_space addr ≡ region) ↔ IsIn region addr
unfolding get_address_space
get_address_space_iff addr none h = ground arith
get_address_space_iff addr (some (higher_half global_kernel_mapped_code)) h = ground arith
get_address_space_iff addr (some (higher_half global_kernel_stack)) h = ground arith
get_address_space_iff addr (some (higher_half global_direct_memory_mapping)) h = ground arith
get_address_space_iff addr (some (higher_half global_memory_mapped_io)) h = ground arith
get_address_space_iff addr (some (higher_half process_kernel_stack)) h = ground arith
get_address_space_iff addr (some (higher_half HigherHalfAddressSpace.unused)) h = ground arith
get_address_space_iff addr (some (lower_half process_stack)) h = ground arith
get_address_space_iff addr (some (lower_half process_code)) h = ground arith
get_address_space_iff addr (some (lower_half process_heap)) h = ground arith
get_address_space_iff addr (some (lower_half LowerHalfAddressSpace.unused)) h = ground arith
