-- ===== src/Heap/Growing.antt =====
-- `heap_grow` of core/kernel/memory/heap.c on a valid heap.
use liam_os.Base.{
  Bool, [], add32, arith, false, if_cases, inc32, ltb, none, not, refl, suc, true, zero, ℕ, ◌%◌,
  ◌*◌, ◌++◌, ◌+◌, ◌<◌, ◌==◌, ◌∙◌, ◌∷◌, ◌≡◌, ◌≤◌,
}
use liam_os.Pmm.{alloc_page}
use liam_os.Vmm.{Vmm, map_page}
use liam_os.Heap.{Heap, HeapStats, initialize_block, merge_free_blocks, recalculate_stats}
use liam_os.Heap.Growth.{
  Growth, add_page, end_growth, fail_grow, grow, grow_pages, link_growth, required_pages,
  rollback_growth, start_growth, virtual_range_has_space,
}
use liam_os.Heap.Tiles.{HasRange, Tiles, live, live_append, merge-Tiles, merge-live, Tiles-append}
use liam_os.Heap.Validity.{IsValid, recalculate_stats-HasSameRange, retiled}

-- The loop, with `left` pages to come, when it began at the address `n`.
record IsGrowing (n left : ℕ) (g : Growth) : Type 0 where
  range : HasRange g.stats
  start : n ≤ g.stats.next_virtual_page
  room : g.stats.next_virtual_page + left * 4096 ≤ 0xC2000000
  page : g.stats.next_virtual_page % 4096 ≡ 0
  total : g.stats.total_bytes + 0xC1000000 ≡ g.stats.next_virtual_page
  tiles : Tiles n g.fresh g.stats.next_virtual_page
  unused : (q : ℕ) → live g.fresh q ≡ none

add_page-IsGrowing :
    (n left : ℕ) (g : Growth) (v : Vmm) (physical : ℕ)
    → IsGrowing n (suc left) g
    → IsGrowing n left (add_page g v physical)
add_page-IsGrowing n left g v physical i =
    let next : add32 g.stats.next_virtual_page 4096 ≡ g.stats.next_virtual_page + 4096 =
      omega (arith, i.room) in
    record {
      range = record { start_range = i.range.start_range; end_range = i.range.end_range };
      start = omega (arith, i.start, next);
      room = omega (arith, i.room, next);
      page = omega (arith, i.page, next);
      total = omega (arith, i.total, i.room, next);
      tiles =
          Tiles-append n g.fresh (initialize_block g.stats.next_virtual_page 4080 ∷ [])
            g.stats.next_virtual_page (add32 g.stats.next_virtual_page 4096) i.tiles
            (refl, refl, omega arith, refl, omega (arith, next));
      unused = λ q.
          live_append g.fresh (initialize_block g.stats.next_virtual_page 4080 ∷ []) q refl
          ∙ i.unused q;
    }

-- What the loop owes: its own start is kept, whatever the page allocator and the memory manager did.
abbrev Grows : ℕ → ℕ → Growth → Bool × Growth → Type 0
Grows n left g (done, w) =
    HasRange w.stats
    × (done ≡ true
        → IsGrowing n 0 w × (g.stats.next_virtual_page + left * 4096 ≤ w.stats.next_virtual_page))

grow_pages-Grows :
    (left n : ℕ) (g : Growth) → IsGrowing n left g → Grows n left g (grow_pages left g)
unfolding grow_pages
grow_pages-Grows zero n g i = (i.range, λ _. (i, omega arith))
grow_pages-Grows (suc left) n g i =
    let (physical, pmm') = alloc_page g.vmm.pmm in
    let v : Vmm = record (g.vmm) { pmm = pmm' } in
    let (done, w) = map_page v g.stats.next_virtual_page physical 2 in
    let j = add_page-IsGrowing n left g w physical i in
    let (r, later) = grow_pages-Grows left n (add_page g w physical) j in
    if_cases (λ (x : Bool × Growth). Grows n (suc left) g x) (physical == 0)
      (λ _. (i.range, λ e. cc))
      (λ _.
        if_cases (λ (x : Bool × Growth). Grows n (suc left) g x) (not done)
          (λ _. (i.range, λ e. cc))
          (λ _. (r, λ e. let (k, more) = later e in (k, omega (arith, more, i.room)))))

-- What `heap_grow` owes: a valid heap with the same live payloads, and more pages if it has grown.
abbrev pub GrowsFrom : Heap → Bool × Heap → Type 0
GrowsFrom h (done, g) =
    IsValid g
    × ((q : ℕ) → live g.blocks q ≡ live h.blocks q)
    × (done ≡ true → h.stats.next_virtual_page + 4096 ≤ g.stats.next_virtual_page)

fail_grow_lem : (h : Heap) → IsValid h → GrowsFrom h (fail_grow h)
fail_grow_lem h i = (
  retiled h ((fail_grow h).1) i
      (record { same_start = refl; same_end = refl; same_next = refl; same_total = refl }) i.tiles,
  λ q. refl,
  λ e. cc,
)

link_growth_lem :
    (h : Heap) (g : Growth)
    → IsValid h
    → IsGrowing h.stats.next_virtual_page 0 g
    → IsValid (link_growth h g)
      × ((q : ℕ) → live (link_growth h g).blocks q ≡ live h.blocks q)
      × ((link_growth h g).stats.next_virtual_page ≡ g.stats.next_virtual_page)
unfolding link_growth
link_growth_lem h g i j =
    let s : HeapStats = record (g.stats) { grow_count = inc32 g.stats.grow_count } in
    let bs = merge_free_blocks s (h.blocks ++ g.fresh) in
    let same = recalculate_stats-HasSameRange s bs in
    let k : IsValid (record { blocks = h.blocks ++ g.fresh; stats = s; vmm = g.vmm }) = record {
      range = record { start_range = j.range.start_range; end_range = j.range.end_range };
      low = omega (arith, i.low, j.start);
      high = omega (arith, j.room);
      page = j.page;
      total = j.total;
      tiles =
          Tiles-append 0xC1000000 h.blocks g.fresh h.stats.next_virtual_page
            g.stats.next_virtual_page i.tiles j.tiles;
    } in
    (
      retiled (record { blocks = h.blocks ++ g.fresh; stats = s; vmm = g.vmm })
          (record { blocks = bs; stats = recalculate_stats s bs; vmm = g.vmm }) k same
          (merge-Tiles s 0xC1000000 (h.blocks ++ g.fresh) g.stats.next_virtual_page k.high k.tiles),
      λ q. merge-live s (h.blocks ++ g.fresh) q ∙ live_append h.blocks g.fresh q (j.unused q),
      same.same_next,
    )

rollback_growth_lem :
    (h : Heap) (g : Growth) → IsValid h → HasRange g.stats → IsValid (rollback_growth h g)
unfolding rollback_growth
rollback_growth_lem h g i r = record {
  range = record { start_range = r.start_range; end_range = r.end_range };
  low = i.low;
  high = i.high;
  page = i.page;
  total = i.total;
  tiles = i.tiles;
}

rollback_growth-blocks : (h : Heap) (g : Growth) → (rollback_growth h g).blocks ≡ h.blocks
unfolding rollback_growth
rollback_growth-blocks h g = refl

end_growth_lem :
    (h : Heap) (left : ℕ) (r : Bool × Growth)
    → IsValid h
    → 0 < left
    → Grows h.stats.next_virtual_page left (start_growth h) r
    → GrowsFrom h (end_growth h r)
end_growth_lem h left (true, g) i pos (range, grown) =
    let (j, more) = grown refl in
    let (v, l, next) = link_growth_lem h g i j in (v, l, λ e. omega (arith, more, next, pos))
end_growth_lem h left (false, g) i pos (range, grown) =
    (rollback_growth_lem h g i range, λ q. rw (rollback_growth-blocks h g) (refl), λ e. cc)

has_space-room :
    (s : HeapStats) (pages : ℕ)
    → HasRange s
    → 0xC1000000 ≤ s.next_virtual_page
    → s.next_virtual_page ≤ 0xC2000000
    → pages ≤ 16
    → 0 < pages
    → virtual_range_has_space s pages ≡ true
    → s.next_virtual_page + pages * 4096 ≤ 0xC2000000
has_space-room s pages r low high few pos e =
    ground (arith, r.start_range, r.end_range, e, low, high, few, pos)

required_pages-pos : (minimum : ℕ) → 0 < required_pages minimum
required_pages-pos minimum = ground arith

pub grow_lem : (h : Heap) (minimum : ℕ) → IsValid h → GrowsFrom h (grow h minimum)
unfolding grow
grow_lem h minimum i =
    let pages = required_pages minimum in
    let pos = required_pages-pos minimum in
    if_cases (GrowsFrom h) (ltb 16 pages) (λ _. fail_grow_lem h i)
      (λ few.
        if_cases (GrowsFrom h) (not (virtual_range_has_space h.stats pages))
          (λ _. fail_grow_lem h i)
          (λ space. end_growth_lem h pages (grow_pages pages (start_growth h)) i pos (
            grow_pages-Grows pages h.stats.next_virtual_page (start_growth h) (record {
              range = i.range;
              start = omega arith;
              room =
                  has_space-room h.stats pages i.range i.low i.high (ground (arith, few)) pos
                    (ground (arith, space));
              page = i.page;
              total = i.total;
              tiles = refl;
              unused = λ q. refl;
            }))))
