-- ===== src/Process/AddressSpace.antt =====
-- `get_address_space` of src/process/memory.rs: which part of the address space an address lies in.
pub mod Regions
mod Tests
use campix.Base.{ℕ, ◌+◌, Bool, not, Option, none, some, ltb, leb, if◌then◌else◌}

pub data HigherHalfAddressSpace : Type 0 where
  global_kernel_mapped_code : HigherHalfAddressSpace
  global_kernel_stack : HigherHalfAddressSpace
  global_direct_memory_mapping : HigherHalfAddressSpace
  global_memory_mapped_io : HigherHalfAddressSpace
  process_kernel_stack : HigherHalfAddressSpace
  unused : HigherHalfAddressSpace

pub data LowerHalfAddressSpace : Type 0 where
  process_stack : LowerHalfAddressSpace
  process_code : LowerHalfAddressSpace
  process_heap : LowerHalfAddressSpace
  unused : LowerHalfAddressSpace

pub data VirtualAddressSpace : Type 0 where
  higher_half : HigherHalfAddressSpace → VirtualAddressSpace
  lower_half : LowerHalfAddressSpace → VirtualAddressSpace

abbrev pub direct_mapping_offset : ℕ
direct_mapping_offset = 0xFFFF_A000_0000_0000

abbrev pub proc_kernel_stack_top : ℕ
proc_kernel_stack_top = 0xFFFF_D000_0000_0000

abbrev pub glob_kernel_mmio_top : ℕ
glob_kernel_mmio_top = 0xFFFF_C000_0000_0000

abbrev pub glob_kernel_direct_mapped_top : ℕ
glob_kernel_direct_mapped_top = direct_mapping_offset + 0x0000_1000_0000_0000

abbrev pub glob_kernel_stack_top : ℕ
glob_kernel_stack_top = 0xFFFF_A000_0000_0000

abbrev pub glob_kernel_code_top : ℕ
glob_kernel_code_top = 0xFFFF_9000_0000_0000

abbrev pub higher_half_begin : ℕ
higher_half_begin = 0xFFFF_8000_0000_0000

abbrev pub lower_half_end : ℕ
lower_half_end = 0x0000_8000_0000_0000

abbrev pub lower_half_safeguard_end : ℕ
lower_half_safeguard_end = 0x0000_1000_0000_0000

abbrev pub proc_user_stack_top : ℕ
proc_user_stack_top = 0x0000_2000_0000_0000

abbrev pub proc_mapped_code_top : ℕ
proc_mapped_code_top = 0x0000_3000_0000_0000

abbrev pub proc_heap_top : ℕ
proc_heap_top = 0x0000_4000_0000_0000

pub get_address_space : ℕ → Option VirtualAddressSpace
get_address_space addr =
    if leb higher_half_begin addr
    then (if ltb addr glob_kernel_code_top
        then some (higher_half global_kernel_mapped_code)
        else if ltb addr glob_kernel_stack_top
        then some (higher_half global_kernel_stack)
        else if ltb addr glob_kernel_direct_mapped_top
        then some (higher_half global_direct_memory_mapping)
        else if ltb addr glob_kernel_mmio_top
        then some (higher_half global_memory_mapped_io)
        else if ltb addr proc_kernel_stack_top
        then some (higher_half process_kernel_stack)
        else some (higher_half HigherHalfAddressSpace.unused))
    else if ltb addr lower_half_end
    then (if ltb addr lower_half_safeguard_end
        then some (lower_half LowerHalfAddressSpace.unused)
        else if ltb addr proc_user_stack_top
        then some (lower_half process_stack)
        else if ltb addr proc_mapped_code_top
        then some (lower_half process_code)
        else if ltb addr proc_heap_top
        then some (lower_half process_heap)
        else some (lower_half LowerHalfAddressSpace.unused))
    else none
