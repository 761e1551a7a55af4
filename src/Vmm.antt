-- ===== src/Vmm.antt =====
-- core/kernel/memory/vmm.c: the two-level i386 page tables.
-- The directory and the tables lie in physical memory, which the kernel reads at the same addresses
-- (the identity map); `memory` gives the 32-bit word at each address. `vmm_stats`, the memory, the
-- page allocator that the tables come from and the pages passed to `paging_invalidate_page` (newest
-- first) are the record `Vmm`. Flags are read and set as bits: bit 0 is VMM_PAGE_PRESENT, bit 1
-- VMM_PAGE_WRITABLE, bit 2 VMM_PAGE_USER; `a | b` of words with no bit in common is their sum.
pub mod Slots
pub mod Invariant
pub mod Tables
pub mod Mapping
pub mod Translation
pub mod Audit
pub mod Counts
mod Tests
use liam_os.Base.{
  Bool, List, Status, add32, corruption_detected, false, if◌then◌else◌, inc32, invalid_argument,
  ltb, not, not_found, not_initialized, ok, page_align_down, suc, true, update, zero, ℕ, ◌%◌, ◌&&◌,
  ◌*◌, ◌+◌, ◌-◌, ◌/◌, ◌==◌, ◌^◌, ◌||◌, ◌∷◌,
}
use liam_os.Pmm.{Pmm, alloc_page}

pub record Vmm : Type 0 where
  pub initialized : Bool
  pub mapped_pages : ℕ
  pub created_page_tables : ℕ
  pub last_mapped_virtual_address : ℕ
  pub last_mapped_physical_address : ℕ
  pub failed_map_count : ℕ
  pub failed_unmap_count : ℕ
  pub remap_count : ℕ
  pub invalid_map_count : ℕ
  pub missing_unmap_count : ℕ
  pub directory : ℕ
  pub memory : ℕ → ℕ
  pub pmm : Pmm
  pub invalidated : List ℕ

-- PAGE_DIRECTORY_INDEX, PAGE_TABLE_INDEX, PAGE_OFFSET
abbrev pub directory_index : ℕ → ℕ
directory_index address = (address / 2 ^ 22) % 1024

abbrev pub table_index : ℕ → ℕ
table_index address = (address / 4096) % 1024

abbrev pub page_offset : ℕ → ℕ
page_offset address = address % 4096

-- `(word & VMM_PAGE_PRESENT) != 0`, and so for the two flags.
abbrev pub is_present : ℕ → Bool
is_present word = word % 2 == 1

abbrev pub is_writable : ℕ → Bool
is_writable word = (word / 2) % 2 == 1

abbrev pub is_user : ℕ → Bool
is_user word = (word / 4) % 2 == 1

-- `(flags & ~VMM_ALLOWED_FLAGS) == 0`
abbrev pub flags_are_valid : ℕ → Bool
flags_are_valid flags = ltb flags 8 && (flags % 2 == 0)

-- `flags & VMM_PAGE_USER`
abbrev pub user_flag : ℕ → ℕ
user_flag flags = if is_user flags then 4 else 0

-- `word | VMM_PAGE_USER`
abbrev pub set_user : ℕ → ℕ
set_user word = if is_user word then word else word + 4

-- The address of a directory entry and of a table entry.
abbrev pub directory_slot : Vmm → ℕ → ℕ
directory_slot v address = v.directory + 4 * directory_index address

abbrev pub table_slot : ℕ → ℕ → ℕ
table_slot table address = table + 4 * table_index address

-- `vmm_clear_page_table`, its loop from entry `i` with `n` rounds left.
unfoldable pub clear_from : ℕ → ℕ → ℕ → (ℕ → ℕ) → ℕ → ℕ
clear_from table i zero memory = memory
clear_from table i (suc n) memory = clear_from table (i + 1) n (update memory (table + 4 * i) 0)

abbrev pub table_entries : ℕ
table_entries = 1024

-- The branch of `vmm_get_or_create_page_table` for a table that is there.
unfoldable pub reuse_page_table : Vmm → ℕ → ℕ → ℕ × Vmm
reuse_page_table v slot entry =
    (page_align_down entry, record v { memory = update v.memory slot entry })

-- What its other branch does with the page that it got: clear it, and enter it in the directory.
unfoldable pub adopt_page : Vmm → ℕ → ℕ → ℕ → Pmm → Vmm
adopt_page v slot flags page pmm' = record v {
  pmm = pmm';
  memory =
      update (clear_from page 0 table_entries v.memory) slot
        (page_align_down page + 1 + 2 + user_flag flags);
  created_page_tables = inc32 v.created_page_tables;
}

-- The branch for a table that is not there, given what `pmm_alloc_page` returned.
unfoldable pub create_page_table : Vmm → ℕ → ℕ → ℕ × Pmm → ℕ × Vmm
unfolding adopt_page
create_page_table v slot flags (page, pmm') =
    if page == 0 then (0, record v { pmm = pmm' }) else (page, adopt_page v slot flags page pmm')

-- `vmm_get_or_create_page_table`: the table (0 when no page is left) and the new state.
unfoldable pub get_or_create_page_table : Vmm → ℕ → ℕ → ℕ × Vmm
unfolding reuse_page_table create_page_table
get_or_create_page_table v address flags =
    let slot = directory_slot v address in
    let entry = v.memory slot in
    if is_present entry
    then reuse_page_table v slot (if is_user flags then set_user entry else entry)
    else create_page_table v slot flags (alloc_page v.pmm)

-- `vmm_initialize`
unfoldable pub initialize : Vmm → Vmm
initialize v = record {
  initialized = true;
  mapped_pages = 0;
  created_page_tables = 0;
  last_mapped_virtual_address = 0;
  last_mapped_physical_address = 0;
  failed_map_count = 0;
  failed_unmap_count = 0;
  remap_count = 0;
  invalid_map_count = 0;
  missing_unmap_count = 0;
  directory = v.directory;
  memory = v.memory;
  pmm = v.pmm;
  invalidated = v.invalidated;
}

-- The part of `vmm_map_page` after a table has been found.
unfoldable pub install : Vmm → ℕ → ℕ → ℕ → ℕ → Vmm
install v table virtual physical flags =
    let slot = table_slot table virtual in
    let was_mapped = is_present (v.memory slot) in
    record v {
      memory = update v.memory slot (physical + 1 + flags);
      invalidated = virtual ∷ v.invalidated;
      mapped_pages = if was_mapped then v.mapped_pages else inc32 v.mapped_pages;
      remap_count = if was_mapped then inc32 v.remap_count else v.remap_count;
      last_mapped_virtual_address = virtual;
      last_mapped_physical_address = physical;
    }

-- The note that `vmm_map_page` makes of an unaligned address.
unfoldable pub note_alignment : Vmm → ℕ → ℕ → Vmm
note_alignment v virtual physical =
    if not (page_offset virtual == 0) || not (page_offset physical == 0)
    then record v { invalid_map_count = inc32 v.invalid_map_count }
    else v

-- `vmm_map_page`: whether it succeeded, and the new state.
unfoldable pub map_page : Vmm → ℕ → ℕ → ℕ → Bool × Vmm
map_page v virtual physical flags =
    if not v.initialized
    then (false, record v { failed_map_count = inc32 v.failed_map_count })
    else if not (flags_are_valid flags)
    then (
      false,
      record v {
        invalid_map_count = inc32 v.invalid_map_count;
        failed_map_count = inc32 v.failed_map_count;
      },
    )
    else let (table, w) =
        get_or_create_page_table (note_alignment v virtual physical) (page_align_down virtual)
          flags in
      if table == 0
      then (false, record w { failed_map_count = inc32 w.failed_map_count })
      else (true, install w table (page_align_down virtual) (page_align_down physical) flags)

abbrev missing : Vmm → Vmm
missing v = record v {
  failed_unmap_count = inc32 v.failed_unmap_count;
  missing_unmap_count = inc32 v.missing_unmap_count;
}

-- `vmm_unmap_page`
unfoldable pub unmap_page : Vmm → ℕ → Bool × Vmm
unmap_page v virtual =
    let aligned = page_align_down virtual in
    let entry = v.memory (directory_slot v aligned) in
    let slot = table_slot (page_align_down entry) aligned in
    if not v.initialized
    then (false, record v { failed_unmap_count = inc32 v.failed_unmap_count })
    else if not (is_present entry)
    then (false, missing v)
    else if not (is_present (v.memory slot))
    then (false, missing v)
    else (
      true,
      record v {
        memory = update v.memory slot 0;
        invalidated = aligned ∷ v.invalidated;
        mapped_pages = if ltb 0 v.mapped_pages then v.mapped_pages - 1 else v.mapped_pages;
      },
    )

-- `vmm_is_mapped`
unfoldable pub is_mapped : Vmm → ℕ → Bool
is_mapped v virtual =
    let aligned = page_align_down virtual in
    let entry = v.memory (directory_slot v aligned) in
    if not v.initialized
    then false
    else if not (is_present entry)
    then false
    else is_present (v.memory (table_slot (page_align_down entry) aligned))

-- `vmm_get_physical_address` (0 when the page is not mapped)
unfoldable pub get_physical_address : Vmm → ℕ → ℕ
get_physical_address v virtual =
    let aligned = page_align_down virtual in
    let entry = v.memory (directory_slot v aligned) in
    let page_entry = v.memory (table_slot (page_align_down entry) aligned) in
    if not v.initialized
    then 0
    else if not (is_present entry)
    then 0
    else if not (is_present page_entry)
    then 0
    else add32 (page_align_down page_entry) (page_offset virtual)

-- `(entry & expected) == expected`, for flags that are valid
abbrev pub has_flags : ℕ → ℕ → Bool
has_flags entry expected =
    (not (is_writable expected) || is_writable entry) && (not (is_user expected) || is_user entry)

-- `vmm_validate_mapping`
unfoldable pub validate_mapping : Vmm → ℕ → ℕ → Bool
validate_mapping v virtual expected =
    let aligned = page_align_down virtual in
    let entry = v.memory (directory_slot v aligned) in
    let page_entry = v.memory (table_slot (page_align_down entry) aligned) in
    if not v.initialized
    then false
    else if not (flags_are_valid expected)
    then false
    else if not (is_present entry)
    then false
    else if not (is_present page_entry)
    then false
    else has_flags page_entry expected

-- `vmm_validate_mapping_status`
unfoldable pub validate_mapping_status : Vmm → ℕ → Status
unfolding is_mapped validate_mapping
validate_mapping_status v virtual =
    if not v.initialized
    then not_initialized
    else if not (page_offset virtual == 0)
    then invalid_argument
    else if not (is_mapped v virtual)
    then not_found
    else if not (validate_mapping v virtual 0)
    then corruption_detected
    else ok
