-- ===== src/Heap/Validity.antt =====
-- The invariant of the heap of core/kernel/memory/heap.c.
use liam_os.Base.{List, arith, refl, subst, sym, ◌%◌, ◌+◌, ◌∙◌, ◌≡◌, ◌≤◌}
use liam_os.Heap.{Block, Heap, HeapStats, recalculate_stats}
use liam_os.Heap.Tiles.{HasRange, Tiles}

-- The blocks tile the pages that the heap has mapped, all of them inside its range.
pub record IsValid (h : Heap) : Type 0 where
  pub range : HasRange h.stats
  pub low : 0xC1000000 ≤ h.stats.next_virtual_page
  pub high : h.stats.next_virtual_page ≤ 0xC2000000
  pub page : h.stats.next_virtual_page % 4096 ≡ 0
  pub total : h.stats.total_bytes + 0xC1000000 ≡ h.stats.next_virtual_page
  pub tiles : Tiles 0xC1000000 h.blocks h.stats.next_virtual_page

-- The fields that the invariant reads.
pub record HasSameRange (s t : HeapStats) : Type 0 where
  pub same_start : s.virtual_start ≡ t.virtual_start
  pub same_end : s.virtual_end ≡ t.virtual_end
  pub same_next : s.next_virtual_page ≡ t.next_virtual_page
  pub same_total : s.total_bytes ≡ t.total_bytes

pub recalculate_stats-HasSameRange :
    (s : HeapStats) (bs : List Block) → HasSameRange (recalculate_stats s bs) s
unfolding recalculate_stats
recalculate_stats-HasSameRange s bs = record {
  same_start = refl;
  same_end = refl;
  same_next = refl;
  same_total = refl;
}

-- A heap with other blocks that tile the same pages.
pub retiled :
    (h : Heap) (g : Heap)
    → IsValid h
    → HasSameRange g.stats h.stats
    → Tiles 0xC1000000 g.blocks h.stats.next_virtual_page
    → IsValid g
retiled h g i r t = record {
  range = record {
    start_range = r.same_start ∙ i.range.start_range;
    end_range = r.same_end ∙ i.range.end_range;
  };
  low = omega (arith, i.low, r.same_next);
  high = omega (arith, i.high, r.same_next);
  page = omega (arith, i.page, r.same_next);
  total = omega (arith, i.total, r.same_next, r.same_total);
  tiles = subst (Tiles 0xC1000000 g.blocks) (sym r.same_next) t;
}
