-- ===== src/Vmm/Tests.antt =====
-- Runs of vmm.c's functions, and its theorems at concrete inputs.
use liam_os.Base.{[], arith, if◌then◌else◌, refl, true, ◌&&◌, ◌==◌, ◌≡◌}
use liam_os.Pmm.{Pmm}
use liam_os.Pmm.Invariant.{IsValid as IsPmmValid}
use liam_os.Vmm.Invariant.{IsValid}
use liam_os.Vmm.Translation.{get_physical_address-map_page, get_physical_address-unmap_page}
use liam_os.Vmm.Audit.{AuditInfo, audit_table}
use liam_os.Vmm.{Vmm, get_physical_address, is_mapped, map_page, unmap_page}

abbrev pages : Pmm
pages = record {
  total_regions = 1;
  usable_regions = 1;
  reserved_regions = 0;
  usable_memory_bytes = 0x4000;
  allocation_start = 0x100000;
  allocation_end = 0x104000;
  next_free_page = 0x100000;
  allocated_pages = 0;
  free_stack_count = 0;
  free_stack = λ _. 0;
}

pages-IsValid : IsPmmValid pages
pages-IsValid = record {
  start_aligned = refl;
  next_aligned = refl;
  start_le_next = omega arith;
  next_le_end = omega arith;
  end_small = omega arith;
  started = λ e. omega arith;
  count_le = omega arith;
  counts = refl;
  in_range = λ i h. absurd (omega arith);
  distinct = λ i j h k e. absurd (omega arith);
}

-- An empty directory at 0x1000.
abbrev empty : Vmm
empty = record {
  initialized = true;
  mapped_pages = 0;
  created_page_tables = 0;
  last_mapped_virtual_address = 0;
  last_mapped_physical_address = 0;
  failed_map_count = 0;
  failed_unmap_count = 0;
  remap_count = 0;
  invalid_map_count = 0;
  missing_unmap_count = 0;
  directory = 0x1000;
  memory = λ _. 0;
  pmm = pages;
  invalidated = [];
}

empty-IsValid : IsValid empty
empty-IsValid = record {
  directory_aligned = refl;
  pmm_valid = pages-IsValid;
  directory_kept = refl;
  tables_kept = λ i h p. cc;
  tables_apart = λ i j h k p q e. cc;
  tables_not_directory = λ i h p. cc;
}

get_physical_address-map_page_example :
    get_physical_address (map_page empty 0xC1000000 0x300000 2).1 0xC1000123 ≡ (
      if (map_page empty 0xC1000000 0x300000 2).0 && true
      then 0x300123
      else get_physical_address empty 0xC1000123)
get_physical_address-map_page_example =
    (get_physical_address-map_page empty 0xC1000000 0x300000 2 0xC1000123 empty-IsValid
      (omega arith) (omega arith)).1

get_physical_address-unmap_page_example :
    (unmap_page empty 0xC1000000).0 ≡ is_mapped empty 0xC1000000
get_physical_address-unmap_page_example =
    (get_physical_address-unmap_page empty 0xC1000000 0xC1000123 empty-IsValid (omega arith)
      (omega arith)).1

-- One page table, with one page in it.
abbrev one_page : Vmm
one_page = record empty {
  mapped_pages = 1;
  memory = λ a. if a == 0x1000 then 0x2003 else if a == 0x2000 then 0x300003 else 0;
}

abbrev no_audit : AuditInfo
no_audit = record {
  audits_run = 0;
  issues_found = 0;
  present_directory_entries = 0;
  present_page_entries = 0;
  writable_page_entries = 0;
  user_page_entries = 0;
  invalid_directory_entries = 0;
  invalid_page_table_addresses = 0;
  last_mapping_missing = 0;
}

finds_page : (audit_table 4 one_page.memory 0x2000 0 no_audit).present_page_entries ≡ 1
unfolding audit_table
finds_page = refl
