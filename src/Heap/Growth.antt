-- ===== src/Heap/Growth.antt =====
-- How the heap of core/kernel/memory/heap.c grows by pages.
use liam_os.Base.{
  Bool, List, [], add32, false, if◌then◌else◌, inc32, ltb, not, page_align_down, page_size, sub32,
  suc, true, u32_mod, zero, ℕ, ◌%◌, ◌*◌, ◌++◌, ◌-◌, ◌/◌, ◌==◌, ◌∷◌,
}
use liam_os.Pmm.{alloc_page, free_page}
use liam_os.Vmm.{Vmm, map_page, unmap_page}
use liam_os.Heap.{
  Block, Heap, HeapStats, header_size, initialize_block, merge_free_blocks, recalculate_stats,
}

abbrev pub max_grow_pages : ℕ
max_grow_pages = 16

-- `heap_virtual_range_has_space`
abbrev pub virtual_range_has_space : HeapStats → ℕ → Bool
virtual_range_has_space s pages =
    if ltb s.next_virtual_page s.virtual_start
    then false
    else not (ltb s.virtual_end (sub32 (add32 s.next_virtual_page (pages * page_size % u32_mod)) 1))

-- What the loop of `heap_grow` keeps: the pages that it has mapped, newest first, with their frames,
-- and the new blocks in order.
pub record Growth : Type 0 where
  pub stats : HeapStats
  pub vmm : Vmm
  pub mapped : List (ℕ × ℕ)
  pub fresh : List Block

-- The loop of `heap_rollback_growth`
unfoldable pub unmap_pages : List (ℕ × ℕ) → Vmm → Vmm
unmap_pages [] v = v
unmap_pages ((virtual, physical) ∷ pages) v =
    let w = (unmap_page v virtual).1 in
    unmap_pages pages (record w { pmm = free_page w.pmm physical })

-- The pages in the order in which they were mapped.
unfoldable pub oldest_first : List (ℕ × ℕ) → List (ℕ × ℕ) → List (ℕ × ℕ)
oldest_first [] acc = acc
oldest_first (p ∷ ps) acc = oldest_first ps (p ∷ acc)

-- `heap_rollback_growth`, and the count of the failure: the heap as it was, but for the memory
-- manager.
unfoldable pub rollback_growth : Heap → Growth → Heap
unfolding unmap_pages oldest_first
rollback_growth h g = record h {
  vmm = unmap_pages (oldest_first g.mapped []) g.vmm;
  stats = record (g.stats) {
    next_virtual_page = h.stats.next_virtual_page;
    total_pages = h.stats.total_pages;
    total_bytes = h.stats.total_bytes;
    failed_grow_count = inc32 g.stats.failed_grow_count;
  };
}

-- The end of a round, for the page that was mapped.
abbrev pub add_page : Growth → Vmm → ℕ → Growth
add_page g v physical =
    let s = g.stats in
    record {
      stats = record s {
        next_virtual_page = add32 s.next_virtual_page page_size;
        total_pages = inc32 s.total_pages;
        total_bytes = add32 s.total_bytes page_size;
      };
      vmm = v;
      mapped = (s.next_virtual_page, physical) ∷ g.mapped;
      fresh = g.fresh ++ (initialize_block s.next_virtual_page (page_size - header_size) ∷ []);
    }

-- The loop of `heap_grow` with `n` pages left: whether all were mapped.
unfoldable pub grow_pages : ℕ → Growth → Bool × Growth
grow_pages zero g = (true, g)
grow_pages (suc n) g =
    let (physical, pmm') = alloc_page g.vmm.pmm in
    let v = record (g.vmm) { pmm = pmm' } in
    let (done, w) = map_page v g.stats.next_virtual_page physical 2 in
    let later = grow_pages n (add_page g w physical) in
    if physical == 0
    then (false, record g { vmm = v })
    else if not done
    then (false, record g { vmm = record w { pmm = free_page w.pmm physical } })
    else later

-- The end of `heap_grow`, with the new blocks linked behind the last one.
unfoldable pub link_growth : Heap → Growth → Heap
link_growth h g =
    let s = record (g.stats) { grow_count = inc32 g.stats.grow_count } in
    let blocks' = merge_free_blocks s (h.blocks ++ g.fresh) in
    record { blocks = blocks'; stats = recalculate_stats s blocks'; vmm = g.vmm }

abbrev pub fail_grow : Heap → Bool × Heap
fail_grow h = (
  false,
  record h { stats = record (h.stats) { failed_grow_count = inc32 h.stats.failed_grow_count } },
)

abbrev pub end_growth : Heap → Bool × Growth → Bool × Heap
end_growth h (done, g) = if done then (true, link_growth h g) else (false, rollback_growth h g)

abbrev pub start_growth : Heap → Growth
start_growth h = record { stats = h.stats; vmm = h.vmm; mapped = []; fresh = [] }

-- How many pages `heap_grow` asks for.
abbrev pub required_pages : ℕ → ℕ
required_pages minimum =
    let bytes = add32 minimum header_size in
    let pages = page_align_down (add32 bytes 4095) / page_size in if pages == 0 then 1 else pages

-- `heap_grow`: whether the heap has grown, and the new heap.
unfoldable pub grow : Heap → ℕ → Bool × Heap
grow h minimum =
    let pages = required_pages minimum in
    if ltb max_grow_pages pages
    then fail_grow h
    else if not (virtual_range_has_space h.stats pages)
    then fail_grow h
    else end_growth h (grow_pages pages (start_growth h))
