-- ===== src/Pmm.antt =====
-- core/kernel/memory/pmm.c: the physical page allocator. A bump pointer hands out pages from one
-- region of the boot memory map, and freed pages go to a bounded stack that is served first.
-- `pmm_stats` and `free_stack` are the record `Pmm`; a function that changes them returns the new
-- record. Log calls are left out. Pages are 32-bit addresses, and 0 stands for the null pointer.
pub mod Stack
pub mod Invariant
pub mod Ownership
pub mod Available
pub mod Regions
pub mod Initialize
mod Tests
use liam_os.Base.{
  Bool, Option, add32, false, if◌then◌else◌, inc32, leb, ltb, none, not, page_align_down, page_size,
  some, suc, true, update, zero, ℕ, ◌%◌, ◌&&◌, ◌+◌, ◌-◌, ◌==◌, ◌^◌, ◌||◌,
}

-- The part of `boot_info_t` that the allocator reads.
pub record BootInfo : Type 0 where
  pub has_memory_map : Bool
  pub memory_map_address : ℕ
  pub memory_map_length : ℕ

-- `multiboot_memory_map_entry_t`
pub record MapEntry : Type 0 where
  pub size : ℕ
  pub base_addr : ℕ
  pub length : ℕ
  pub type : ℕ

-- `pmm_stats` and `free_stack`. The array is a function of its index; `capacity` bounds it.
pub record Pmm : Type 0 where
  pub total_regions : ℕ
  pub usable_regions : ℕ
  pub reserved_regions : ℕ
  pub usable_memory_bytes : ℕ
  pub allocation_start : ℕ
  pub allocation_end : ℕ
  pub next_free_page : ℕ
  pub allocated_pages : ℕ
  pub free_stack_count : ℕ
  pub free_stack : ℕ → ℕ

-- PMM_MAX_FREE_PAGES
abbrev pub capacity : ℕ
capacity = 1024

abbrev pub one_mib : ℕ
one_mib = 0x100000

-- `align_up(value, PMM_PAGE_SIZE)`
unfoldable pub align_up : ℕ → ℕ
align_up value = page_align_down (add32 value 4095)

-- `pmm_free_stack_contains`, its loop over `i` from `from` with `n` rounds left.
unfoldable pub contains_from : (ℕ → ℕ) → ℕ → ℕ → ℕ → Bool
contains_from stack from zero page = false
contains_from stack from (suc n) page =
    if stack from == page then true else contains_from stack (from + 1) n page

unfoldable pub free_stack_contains : Pmm → ℕ → Bool
free_stack_contains p page = contains_from p.free_stack 0 p.free_stack_count page

-- The reset at the head of `pmm_initialize`; the stack's cells keep what they hold.
unfoldable pub reset : Pmm → Pmm
reset p = record {
  total_regions = 0;
  usable_regions = 0;
  reserved_regions = 0;
  usable_memory_bytes = 0;
  allocation_start = 0;
  allocation_end = 0;
  next_free_page = 0;
  allocated_pages = 0;
  free_stack_count = 0;
  free_stack = p.free_stack;
}

-- The base of a usable region after the two clamps and the rounding.
unfoldable pub usable_base : ℕ → ℕ → ℕ → ℕ
unfolding align_up
usable_base kernel_end base region_end =
    let above_mib = if ltb base one_mib && ltb one_mib region_end then one_mib else base in
    let above_kernel =
      if ltb above_mib kernel_end && ltb kernel_end region_end then kernel_end else above_mib in
    align_up above_kernel

-- The body of the loop over the memory map.
unfoldable pub add_region : ℕ → MapEntry → Pmm → Pmm
unfolding usable_base
add_region kernel_end e p =
    let region_end = add32 (e.base_addr % 2 ^ 32) (e.length % 2 ^ 32) in
    let base = usable_base kernel_end (e.base_addr % 2 ^ 32) region_end in
    let fits = (p.allocation_start == 0) && (leb one_mib base && ltb base region_end) in
    if e.type == 1
    then record p {
      total_regions = inc32 p.total_regions;
      usable_regions = inc32 p.usable_regions;
      usable_memory_bytes = (p.usable_memory_bytes + e.length) % 2 ^ 64;
      allocation_start = if fits then base else p.allocation_start;
      allocation_end = if fits then region_end else p.allocation_end;
      next_free_page = if fits then base else p.next_free_page;
    }
    else record p {
      total_regions = inc32 p.total_regions;
      reserved_regions = inc32 p.reserved_regions;
    }

-- `while (current < end)`, on fuel. `none`: the fuel ran out.
unfoldable pub scan : ℕ → (ℕ → MapEntry) → ℕ → ℕ → ℕ → Pmm → Option Pmm
scan zero memory kernel_end current end p = none
scan (suc fuel) memory kernel_end current end p =
    let e = memory current in
    let rest =
      scan fuel memory kernel_end (add32 current (add32 e.size 4)) end
        (add_region kernel_end e p) in
    if ltb current end then rest else some p

-- `pmm_initialize`. The memory that holds the map, and `kernel_get_end_address()`, are arguments.
unfoldable pub initialize : ℕ → (ℕ → MapEntry) → ℕ → Option BootInfo → Pmm → Option Pmm
unfolding reset align_up
initialize fuel memory kernel_end_address none p = some (reset p)
initialize fuel memory kernel_end_address (some boot) p =
    if not boot.has_memory_map
    then some (reset p)
    else scan fuel memory (align_up kernel_end_address) boot.memory_map_address
        (add32 boot.memory_map_address boot.memory_map_length) (reset p)

-- `pmm_alloc_page`: the page (0 when there is none) and the new state.
unfoldable pub alloc_page : Pmm → ℕ × Pmm
alloc_page p =
    if ltb 0 p.free_stack_count
    then (
      p.free_stack (p.free_stack_count - 1),
      record p {
        free_stack_count = p.free_stack_count - 1;
        allocated_pages = inc32 p.allocated_pages;
      },
    )
    else if p.next_free_page == 0
    then (0, p)
    else if ltb p.allocation_end (add32 p.next_free_page page_size)
    then (0, p)
    else (
      p.next_free_page,
      record p {
        next_free_page = add32 p.next_free_page page_size;
        allocated_pages = inc32 p.allocated_pages;
      },
    )

-- The six early returns of `pmm_free_page`.
unfoldable pub rejects : Pmm → ℕ → Bool
unfolding free_stack_contains
rejects p page =
    (page == 0)
    || (not (page % page_size == 0)
        || ((ltb page p.allocation_start || leb p.allocation_end page)
            || (leb p.next_free_page page
                || (free_stack_contains p page || leb capacity p.free_stack_count))))

-- `pmm_free_page`
unfoldable pub free_page : Pmm → ℕ → Pmm
unfolding rejects
free_page p page = if rejects p page then p else record p {
  free_stack = update p.free_stack p.free_stack_count page;
  free_stack_count = p.free_stack_count + 1;
  allocated_pages = if ltb 0 p.allocated_pages then p.allocated_pages - 1 else p.allocated_pages;
}
