-- ===== src/Heap/Audit.antt =====
-- `heap_audit` of core/kernel/memory/heap.c and its snapshot, `heap_audit_info`.
use liam_os.Base.{
  List, [], add32, if◌then◌else◌, inc32, leb, ltb, not, page_size, suc, zero, ℕ, ◌&&◌, ◌==◌, ◌||◌,
  ◌∷◌,
}
use liam_os.Vmm.{is_mapped}
use liam_os.Heap.{
  Block, Heap, HeapStats, address_in_range, address_is_aligned, block_magic, last_byte,
  max_audit_blocks,
}

-- `heap_audit_info_t`
pub record HeapAudit : Type 0 where
  pub audits_run : ℕ
  pub issues_found : ℕ
  pub blocks_seen : ℕ
  pub used_blocks : ℕ
  pub free_blocks : ℕ
  pub invalid_magic_blocks : ℕ
  pub out_of_range_blocks : ℕ
  pub misaligned_blocks : ℕ
  pub invalid_size_blocks : ℕ
  pub invalid_next_links : ℕ
  pub unmapped_heap_pages : ℕ
  pub calculated_used_bytes : ℕ
  pub calculated_free_bytes : ℕ
  pub calculated_total_payload_bytes : ℕ

-- `heap_clear_audit_snapshot`
abbrev pub clear_audit_snapshot : HeapAudit → HeapAudit
clear_audit_snapshot i = record {
  audits_run = i.audits_run;
  issues_found = 0;
  blocks_seen = 0;
  used_blocks = 0;
  free_blocks = 0;
  invalid_magic_blocks = 0;
  out_of_range_blocks = 0;
  misaligned_blocks = 0;
  invalid_size_blocks = 0;
  invalid_next_links = 0;
  unmapped_heap_pages = 0;
  calculated_used_bytes = 0;
  calculated_free_bytes = 0;
  calculated_total_payload_bytes = 0;
}

-- `heap_audit_record_issue`; its counter is set where it is called.
abbrev pub record_issue : HeapAudit → HeapAudit
record_issue i = record i { issues_found = inc32 i.issues_found }

abbrev pub record_invalid_next : HeapAudit → HeapAudit
record_invalid_next i = record (record_issue i) { invalid_next_links = inc32 i.invalid_next_links }

abbrev pub record_out_of_range : HeapAudit → HeapAudit
record_out_of_range i = record (record_issue i) {
  out_of_range_blocks = inc32 i.out_of_range_blocks;
}

abbrev pub record_misaligned : HeapAudit → HeapAudit
record_misaligned i = record (record_issue i) { misaligned_blocks = inc32 i.misaligned_blocks }

abbrev pub record_invalid_magic : HeapAudit → HeapAudit
record_invalid_magic i = record (record_issue i) {
  invalid_magic_blocks = inc32 i.invalid_magic_blocks;
}

abbrev pub record_invalid_size : HeapAudit → HeapAudit
record_invalid_size i = record (record_issue i) {
  invalid_size_blocks = inc32 i.invalid_size_blocks;
}

abbrev pub record_unmapped : HeapAudit → HeapAudit
record_unmapped i = record (record_issue i) { unmapped_heap_pages = inc32 i.unmapped_heap_pages }

-- The end of a round of the loop over the blocks.
abbrev pub audit_block : Block → HeapAudit → HeapAudit
audit_block b i =
    if b.used
    then record i {
      used_blocks = inc32 i.used_blocks;
      calculated_used_bytes = add32 i.calculated_used_bytes b.size;
      calculated_total_payload_bytes = add32 i.calculated_total_payload_bytes b.size;
    }
    else record i {
      free_blocks = inc32 i.free_blocks;
      calculated_free_bytes = add32 i.calculated_free_bytes b.size;
      calculated_total_payload_bytes = add32 i.calculated_total_payload_bytes b.size;
    }

abbrev pub see_block : HeapAudit → HeapAudit
see_block i = record i { blocks_seen = inc32 i.blocks_seen }

abbrev pub check_alignment : Block → HeapAudit → HeapAudit
check_alignment b i = if not (address_is_aligned b.address) then record_misaligned i else i

-- The loop over the blocks, with `n` visits left. `previous`: the address of the block before, or 0.
unfoldable pub audit_blocks : ℕ → HeapStats → List Block → ℕ → HeapAudit → HeapAudit
audit_blocks n s [] previous i = i
audit_blocks zero s (b ∷ bs) previous i = record_invalid_next i
audit_blocks (suc n) s (b ∷ bs) previous i =
    let seen = see_block i in
    let j = check_alignment b seen in
    let later = audit_blocks n s bs b.address (audit_block b j) in
    if not (address_in_range s b.address)
    then record_out_of_range seen
    else if not (b.magic == block_magic)
    then record_invalid_magic j
    else if (b.size == 0) || ltb s.virtual_end (last_byte b)
    then record_invalid_size j
    else if not (previous == 0) && leb b.address previous
    then record_invalid_next j
    else later

-- The loop over the pages from `address` on, on fuel.
unfoldable pub audit_pages : ℕ → Heap → ℕ → HeapAudit → HeapAudit
audit_pages zero h address i = i
audit_pages (suc fuel) h address i =
    let later =
      audit_pages fuel h (add32 address page_size)
        (if not (is_mapped h.vmm address) then record_unmapped i else i) in
    if not (ltb address h.stats.next_virtual_page) then i else later

-- The comparison of the sums with the statistics.
abbrev pub compare_totals : HeapStats → HeapAudit → HeapAudit
compare_totals s i =
    let j = if not (i.calculated_used_bytes == s.used_bytes) then record_issue i else i in
    if not (i.calculated_free_bytes == s.free_bytes) then record_issue j else j

-- The rounds of the loop over the pages: the heap's range has 4096 pages.
abbrev pub page_rounds : ℕ
page_rounds = 4096

-- `heap_audit`: the snapshot. It returns its `issues_found`.
unfoldable pub audit : Heap → HeapAudit → HeapAudit
unfolding audit_blocks audit_pages
audit h old =
    let i = clear_audit_snapshot (record old { audits_run = inc32 old.audits_run }) in
    let j = audit_blocks max_audit_blocks h.stats h.blocks 0 i in
    let k = audit_pages page_rounds h h.stats.virtual_start j in
    if not h.stats.initialized then record_out_of_range i else compare_totals h.stats k
