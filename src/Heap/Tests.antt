-- ===== src/Heap/Tests.antt =====
-- Runs of heap.c's functions, and its theorems at concrete inputs.
use liam_os.Base.{[], arith, inl, inr, none, refl, some, true, ◌∷◌, ◌≡◌}
use liam_os.Heap.{
  Heap, HeapStats, block_header_is_sane, initialize_block, merge_free_blocks, merge_from,
  recalculate_stats, split_block, total,
}
use liam_os.Heap.Tiles.{live}
use liam_os.Heap.Validity.{IsValid}
use liam_os.Heap.Counted.{IsCounted}
use liam_os.Heap.Counting.{kfree-IsCounted}
use liam_os.Heap.Freeing.{kfree_lem}
use liam_os.Heap.Coalescing.{Apart, kfree-Apart}
use liam_os.Heap.Grants.{Allocates, kmalloc_lem}
use liam_os.Heap.Available.{Gives, kmalloc-Gives}
use liam_os.Heap.Requests.{AreDisjoint, allocate, release, serve_all, serve_all-AreDisjoint}
use liam_os.Heap.Wrapping.{pointer_of}
use liam_os.Heap.Audit.{HeapAudit, audit}
use liam_os.Heap.Audited.{audit_lem, heap_pages, unmapped_pages}
use liam_os.Heap.Operations.{after_walk, empty_stats, find_fit, initialize, kfree, kmalloc}
use liam_os.Vmm.{Vmm, get_or_create_page_table, map_page, note_alignment}
use liam_os.Pmm.{Pmm, alloc_page}

abbrev pages : Pmm
pages = record {
  total_regions = 1;
  usable_regions = 1;
  reserved_regions = 0;
  usable_memory_bytes = 0x4000;
  allocation_start = 0x100000;
  allocation_end = 0x104000;
  next_free_page = 0x100000;
  allocated_pages = 0;
  free_stack_count = 0;
  free_stack = λ _. 0;
}

abbrev unmapped : Vmm
unmapped = record {
  initialized = true;
  mapped_pages = 0;
  created_page_tables = 0;
  last_mapped_virtual_address = 0;
  last_mapped_physical_address = 0;
  failed_map_count = 0;
  failed_unmap_count = 0;
  remap_count = 0;
  invalid_map_count = 0;
  missing_unmap_count = 0;
  directory = 0x1000;
  memory = λ _. 0;
  pmm = pages;
  invalidated = [];
}

abbrev one_page : HeapStats
one_page = record empty_stats {
  initialized = true;
  next_virtual_page = 0xC1001000;
  total_pages = 1;
  total_bytes = 4096;
  used_bytes = 24;
  free_bytes = 4040;
  allocation_count = 1;
  free_block_count = 1;
}

-- A page with a used block of 24 bytes and a free block behind it.
abbrev small_heap : Heap
small_heap = record {
  blocks =
      record (initialize_block 0xC1000000 24) { used = true }
      ∷ initialize_block 0xC1000028 4040
      ∷ [];
  stats = one_page;
  vmm = unmapped;
}

-- A page that is one free block.
abbrev free_heap : Heap
free_heap = record {
  blocks = initialize_block 0xC1000000 4080 ∷ [];
  stats = one_page;
  vmm = unmapped;
}

small_heap-IsValid : IsValid small_heap
small_heap-IsValid = record {
  range = record { start_range = refl; end_range = refl };
  low = omega arith;
  high = omega arith;
  page = refl;
  total = refl;
  tiles = (refl, refl, omega arith, refl, (refl, refl, omega arith, refl, refl));
}

small_heap-IsCounted : IsCounted small_heap
small_heap-IsCounted = record {
  used_counted = refl;
  free_counted = refl;
  allocations_counted = refl;
  free_blocks_counted = refl;
  all_counted = refl;
}

-- `kmalloc(10)` behind the used block, and `kfree` of it.
kmalloc_ten : pointer_of (kmalloc 1 small_heap 10) ≡ some 0xC1000038
unfolding kmalloc after_walk find_fit split_block block_header_is_sane recalculate_stats total
kmalloc_ten = refl

initialize_one : (initialize free_heap).blocks ≡ initialize_block 0xC1000000 4080 ∷ []
unfolding initialize liam_os.Heap.Growth.grow liam_os.Heap.Growth.grow_pages
    liam_os.Heap.Growth.link_growth merge_free_blocks merge_from recalculate_stats
    liam_os.Pmm.alloc_page liam_os.Vmm.map_page liam_os.Vmm.get_or_create_page_table
    liam_os.Vmm.note_alignment
initialize_one = refl

kmalloc_lem_example : Allocates small_heap 16 (kmalloc 4096 small_heap 10)
kmalloc_lem_example = kmalloc_lem 4096 small_heap 10 small_heap-IsValid (omega arith) (omega arith)

kmalloc-Gives_example : Gives (kmalloc 1 small_heap 10)
kmalloc-Gives_example =
    kmalloc-Gives 0 small_heap 10 small_heap-IsValid refl (omega arith) (λ e. omega (arith, e))
      (inr (inl (refl, omega arith)))

kfree_lem_example : live (kfree small_heap 0xC1000010).blocks 0xC1000010 ≡ none
kfree_lem_example = kfree_lem small_heap 0xC1000010 0xC1000010 small_heap-IsValid refl (omega arith)

kfree-Apart_example : Apart (kfree small_heap 0xC1000010).blocks
kfree-Apart_example =
    kfree-Apart small_heap 0xC1000010 small_heap-IsValid refl (omega arith) (λ e. cc)

kfree-IsCounted_example : IsCounted (kfree small_heap 0xC1000010)
kfree-IsCounted_example =
    kfree-IsCounted small_heap 0xC1000010 small_heap-IsValid (omega arith) small_heap-IsCounted

serve_all-AreDisjoint_example : AreDisjoint (
    serve_all
      (initialize free_heap)
      (allocate 10 ∷ allocate 5000 ∷ release 0xC1000010 ∷ release 7 ∷ []))
serve_all-AreDisjoint_example =
    serve_all-AreDisjoint free_heap
      (allocate 10 ∷ allocate 5000 ∷ release 0xC1000010 ∷ release 7 ∷ [])
      (omega arith, (omega arith, tt))

abbrev no_audit : HeapAudit
no_audit = record {
  audits_run = 0;
  issues_found = 0;
  blocks_seen = 0;
  used_blocks = 0;
  free_blocks = 0;
  invalid_magic_blocks = 0;
  out_of_range_blocks = 0;
  misaligned_blocks = 0;
  invalid_size_blocks = 0;
  invalid_next_links = 0;
  unmapped_heap_pages = 0;
  calculated_used_bytes = 0;
  calculated_free_bytes = 0;
  calculated_total_payload_bytes = 0;
}

audit_lem_example :
    (audit small_heap no_audit).issues_found
    ≡ unmapped_pages (heap_pages small_heap) unmapped 0xC1000000
audit_lem_example =
    audit_lem small_heap no_audit small_heap-IsValid refl (omega arith) small_heap-IsCounted
