-- ===== src/Memory/Buddy.antt =====
-- `BuddyPageAllocator` of src/memory/buddy_alloc.rs: free blocks of `2 ^ order` pages, one free list
-- for each order up to `MAX_ORDER`. A list that the source threads through the free blocks is a
-- `List` of their headers; a header at address 0 ends a list, as `NonNull::new` has it.
pub mod Alloc
pub mod Cover
pub mod Free
pub mod Init
pub mod Order
mod Pairs
mod Split
mod Tests
use campix.Base.{
  ℕ, zero, suc, ◌+◌, ◌-◌, ◌*◌, ◌/◌, ◌%◌, ◌^◌, min, bit_and, bit_xor, Bool, true, false, ◌&&◌, ◌||◌,
  Option, none, some, List, [], ◌∷◌, ltb, leb, ◌==◌, if◌then◌else◌, get_elem?, set, replicate, Run,
  ok, panic, ◌>>=◌, or_panic,
}

abbrev pub page_size : ℕ
page_size = 4096

abbrev pub max_order : ℕ
max_order = 28

pub record FreeBlock : Type 0 where
  pub address : ℕ
  pub order : ℕ

pub record BuddyPageAllocator : Type 0 where
  pub base_addr : ℕ
  pub page_count : ℕ
  pub free_lists : List (List FreeBlock)
  pub allocated_pages : ℕ

-- The loop of `required_order`, on fuel: `total_size` wraps around at 64 bits.
abbrev pub doublings : ℕ → ℕ → ℕ → ℕ → Option ℕ
doublings zero num_pages order total_size = none
doublings (suc fuel) num_pages order total_size =
    let rest = doublings fuel num_pages (order + 1) (total_size * 2 % 2 ^ 64) in
    if ltb total_size num_pages then rest else some order

-- No order where the loop never ends.
unfoldable pub required_order : ℕ → Option ℕ
required_order num_pages = doublings 65 num_pages 0 1

unfoldable pub find_buddy : ℕ → ℕ → ℕ
find_buddy addr order = bit_xor addr (page_size * 2 ^ order)

-- The list whose head is the header written at its address.
abbrev pub link : FreeBlock → List FreeBlock → List FreeBlock
link b rest = if b.address == 0 then [] else (b ∷ rest)

abbrev pub with_lists : BuddyPageAllocator → List (List FreeBlock) → BuddyPageAllocator
with_lists a lists = record a { free_lists = lists }

abbrev pub set_list : ℕ → List FreeBlock → BuddyPageAllocator → BuddyPageAllocator
set_list order blocks a = with_lists a (set a.free_lists order blocks)

-- The loop of `init` from order `i - 1` down to 0.
abbrev pub init_from : ℕ → ℕ → BuddyPageAllocator → BuddyPageAllocator
init_from zero curr_page a = a
init_from (suc i) curr_page a =
    let skipped = init_from i curr_page a in
    let added = init_from i (curr_page + 2 ^ i) (
      set_list i
        (link (record { address = (a.base_addr + curr_page * page_size) % 2 ^ 64; order = i }) [])
        a) in
    if ltb (a.page_count - curr_page) (2 ^ i) then skipped else added

unfoldable pub init : BuddyPageAllocator → BuddyPageAllocator
init a = init_from (max_order + 1) 0 a

unfoldable pub new : ℕ → ℕ → Run BuddyPageAllocator
new base_addr page_count =
    if (bit_and base_addr (page_size - 1) == 0) && ltb 0 page_count
    then ok (
        init (record {
          base_addr = base_addr;
          page_count = page_count;
          free_lists = replicate (max_order + 1) [];
          allocated_pages = 0;
        }))
    else panic

unfoldable pub add_free_block : ℕ → ℕ → BuddyPageAllocator → Run BuddyPageAllocator
add_free_block addr order a =
    if (addr + 2 ^ 64 - a.base_addr) % 2 ^ 64 % (page_size * 2 ^ order) == 0
    then (do
      blocks ← or_panic (get_elem? a.free_lists order)
      ok (set_list order (link (record { address = addr; order = order }) blocks) a))
    else panic

-- The head of a list, whose header must hold the list's order.
abbrev pub take_head :
    ℕ → List FreeBlock → BuddyPageAllocator → Run (Option FreeBlock × BuddyPageAllocator)
take_head order [] a = ok (none, a)
take_head order (b ∷ rest) a =
    if order == b.order then ok (some b, set_list order rest a) else panic

unfoldable pub consume : ℕ → BuddyPageAllocator → Run (Option FreeBlock × BuddyPageAllocator)
consume order a = do blocks ← or_panic (get_elem? a.free_lists order); take_head order blocks a

abbrev pub no_blocks : Option (List FreeBlock) → Bool
no_blocks (some (b ∷ rest)) = false
no_blocks o = true

-- The first order of the `left` ones from `current_order` on whose list holds a block.
abbrev pub first_free : ℕ → ℕ → BuddyPageAllocator → Option ℕ
first_free zero current_order a = none
first_free (suc left) current_order a =
    let rest = first_free left (current_order + 1) a in
    if no_blocks (get_elem? a.free_lists current_order) then rest else some current_order

abbrev pub add_halves : ℕ → Option FreeBlock → BuddyPageAllocator → Run BuddyPageAllocator
add_halves order none a = ok a
add_halves order (some b) a = do
  a' ← add_free_block ((b.address + page_size * 2 ^ order) % 2 ^ 64) order a
  add_free_block b.address order a'

-- The head of list `order + 1`, split in two.
abbrev pub split_block : ℕ → BuddyPageAllocator → Run BuddyPageAllocator
split_block order a = do taken ← consume (suc order) a; add_halves order taken.0 taken.1

-- The splits from `order + d` down to `order`.
abbrev pub split_down : ℕ → ℕ → BuddyPageAllocator → Run BuddyPageAllocator
split_down zero order a = ok a
split_down (suc d) order a = do a' ← split_block (order + d) a; split_down d order a'

abbrev pub count_block :
    ℕ → Option FreeBlock × BuddyPageAllocator → Option (ℕ × ℕ) × BuddyPageAllocator
count_block order (none, a) = (none, a)
count_block order (some b, a) = (
  some (b.address, order),
  record a { allocated_pages = (a.allocated_pages + 2 ^ order) % 2 ^ 64 },
)

-- A block of `order`, from the least order that has one.
abbrev pub alloc_from :
    ℕ → Option ℕ → BuddyPageAllocator → Run (Option (ℕ × ℕ) × BuddyPageAllocator)
alloc_from order none a = ok (none, a)
alloc_from order (some current_order) a = do
  a' ← split_down (current_order - order) order a
  taken ← consume order a'
  ok (count_block order taken)

unfoldable pub alloc_order :
    Option ℕ → BuddyPageAllocator → Option (Run (Option (ℕ × ℕ) × BuddyPageAllocator))
alloc_order none a = none
alloc_order (some order) a = some (
    if ltb max_order order
    then ok (none, a)
    else alloc_from order (first_free (max_order + 1 - order) order a) a)

-- No result where `required_order` never ends.
unfoldable pub alloc : ℕ → BuddyPageAllocator → Option (Run (Option (ℕ × ℕ) × BuddyPageAllocator))
unfolding required_order
alloc num_pages a =
    if num_pages == 0 then some (ok (none, a)) else alloc_order (required_order num_pages) a

-- The list without its first block at an address, and whether there was one.
abbrev pub remove_at : ℕ → List FreeBlock → Bool × List FreeBlock
remove_at addr [] = (false, [])
remove_at addr (b ∷ rest) =
    let found = remove_at addr rest in
    if b.address == addr then (true, rest) else (found.0, b ∷ found.1)

unfoldable pub remove_free_block : ℕ → ℕ → BuddyPageAllocator → Run (Bool × BuddyPageAllocator)
remove_free_block addr order a = do
  blocks ← or_panic (get_elem? a.free_lists order)
  ok ((remove_at addr blocks).0, set_list order (remove_at addr blocks).1 a)

unfoldable pub buddy_of : ℕ → ℕ → BuddyPageAllocator → ℕ
buddy_of addr order a =
    (find_buddy ((addr + 2 ^ 64 - a.base_addr) % 2 ^ 64) order + a.base_addr) % 2 ^ 64

-- The loop of `free`, with `above` orders left over `order`; a block merged past them is dropped.
abbrev pub merge : ℕ → ℕ → ℕ → BuddyPageAllocator → Run BuddyPageAllocator
merge zero addr order a = do
  removed ← remove_free_block (buddy_of addr order a) order a
  if removed.0 then ok removed.1 else add_free_block addr order removed.1
merge (suc above) addr order a = do
  removed ← remove_free_block (buddy_of addr order a) order a
  let merged = merge above (min addr (buddy_of addr order a)) (suc order) removed.1 in
      if removed.0 then merged else add_free_block addr order removed.1

unfoldable pub free : ℕ → ℕ → BuddyPageAllocator → Run BuddyPageAllocator
free addr order a =
    merge (max_order - order) addr order
      (record a { allocated_pages = (a.allocated_pages + 2 ^ 64 - 2 ^ order) % 2 ^ 64 })

pub get_allocated_page_count : BuddyPageAllocator → ℕ
get_allocated_page_count a = a.allocated_pages

pub get_page_count : BuddyPageAllocator → ℕ
get_page_count a = a.page_count

pub get_free_page_count : BuddyPageAllocator → ℕ
get_free_page_count a = (a.page_count + 2 ^ 64 - a.allocated_pages) % 2 ^ 64

pub get_base_addr : BuddyPageAllocator → ℕ
get_base_addr a = a.base_addr
