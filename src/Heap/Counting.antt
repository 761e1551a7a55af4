-- ===== src/Heap/Counting.antt =====
-- `kfree` of core/kernel/memory/heap.c keeps the statistics right.
use liam_os.Base.{
  List, Option, [], arith, false, if_cases, inc32, length, length-set, none, not, refl, some, suc,
  zero, ℕ, ◌==◌, ◌||◌, ◌∷◌, ◌≡◌, ◌≤◌,
}
use liam_os.Heap.{
  Block, Heap, HeapStats, are_mergeable, block_header_is_sane, find_block_for_pointer,
  merge_free_blocks, merge_from, merge_pair,
}
use liam_os.Heap.Operations.{block_at, free_block, free_found, kfree}
use liam_os.Heap.Tiles.{merge-Tiles}
use liam_os.Heap.Validity.{IsValid, retiled}
use liam_os.Heap.Freeing.{free_at, free_at-Tiles}
use liam_os.Heap.Counted.{IsCounted, recalculate_stats-IsCounted}

merge_from-length :
    (n : ℕ) (s : HeapStats) (b : Block) (bs : List Block)
    → length (merge_from n s b bs) ≤ suc (length bs)
unfolding merge_from
merge_from-length n s b [] = omega arith
merge_from-length zero s b (c ∷ bs) = omega arith
merge_from-length (suc n) s b (c ∷ bs) =
    if_cases (λ (x : List Block). length x ≤ suc (suc (length bs)))
      (not (block_header_is_sane s b) || not (block_header_is_sane s c)) (λ _. omega arith)
      (λ _.
        if_cases (λ (x : List Block). length x ≤ suc (suc (length bs))) (are_mergeable b c)
          (λ _. omega (arith, merge_from-length (suc n) s (merge_pair b c) bs))
          (λ _. omega (arith, merge_from-length n s c bs)))

merge-length : (s : HeapStats) (bs : List Block) → length (merge_free_blocks s bs) ≤ length bs
unfolding merge_free_blocks
merge-length s [] = omega arith
merge-length s (b ∷ bs) = merge_from-length 4096 s b bs

-- The counts do not read the other fields.
same_counts :
    (h : Heap) (s : HeapStats)
    → s.used_bytes ≡ h.stats.used_bytes
    → s.free_bytes ≡ h.stats.free_bytes
    → s.allocation_count ≡ h.stats.allocation_count
    → s.free_block_count ≡ h.stats.free_block_count
    → s.total_bytes ≡ h.stats.total_bytes
    → IsCounted h
    → IsCounted (record h { stats = s })
same_counts h s e1 e2 e3 e4 e5 c = record {
  used_counted = omega (arith, e1, c.used_counted);
  free_counted = omega (arith, e2, c.free_counted);
  allocations_counted = omega (arith, e3, c.allocations_counted);
  free_blocks_counted = omega (arith, e4, c.free_blocks_counted);
  all_counted = omega (arith, e1, e2, e3, e4, e5, c.all_counted);
}

free_block-IsCounted :
    (h : Heap) (k : ℕ)
    → IsValid h
    → length h.blocks ≤ 4096
    → IsCounted h
    → IsCounted (free_block h k)
unfolding free_block
free_block-IsCounted h k i few c =
    let s : HeapStats = record (h.stats) {
      successful_free_count = inc32 h.stats.successful_free_count;
    } in
    let merged = merge_free_blocks s (free_at h.blocks k) in
    let n = h.stats.next_virtual_page in
    if_cases IsCounted (not (block_at h.blocks k).used)
      (λ _.
        same_counts h (record (h.stats) { double_free_count = inc32 h.stats.double_free_count })
          refl refl refl refl refl c)
      (λ _.
        recalculate_stats-IsCounted (record h { blocks = merged; stats = s })
          (retiled h (record h { blocks = merged; stats = s }) i
            (record { same_start = refl; same_end = refl; same_next = refl; same_total = refl })
            (merge-Tiles s 0xC1000000 (free_at h.blocks k) n i.high
              (free_at-Tiles 0xC1000000 h.blocks n k i.tiles)))
          (omega (
            arith,
            few,
            merge-length s (free_at h.blocks k),
            length-set {0} h.blocks k (record (block_at h.blocks k) { used = false }),
          )))

free_found-IsCounted :
    (h : Heap) (r : Option ℕ)
    → IsValid h
    → length h.blocks ≤ 4096
    → IsCounted h
    → IsCounted (free_found h r)
unfolding free_found
free_found-IsCounted h none i few c =
    same_counts h (record (h.stats) { invalid_free_count = inc32 h.stats.invalid_free_count }) refl
      refl refl refl refl c
free_found-IsCounted h (some k) i few c = free_block-IsCounted h k i few c

-- `kfree` of any pointer keeps the statistics of a valid heap of at most 4096 blocks right: the used
-- and free bytes and the numbers of used and free blocks are those of the chain, and together with a
-- header for each block they make up the bytes of all pages of the heap.
pub kfree-IsCounted :
    (h : Heap) (p : ℕ) → IsValid h → length h.blocks ≤ 4096 → IsCounted h → IsCounted (kfree h p)
unfolding kfree
kfree-IsCounted h p i few c =
    if_cases IsCounted (p == 0) (λ _. c)
      (λ _. free_found-IsCounted h (find_block_for_pointer h.stats h.blocks p) i few c)
