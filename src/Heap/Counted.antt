-- ===== src/Heap/Counted.antt =====
-- The statistics of core/kernel/memory/heap.c count the blocks.
use liam_os.Base.{
  Bool, Bool-cases, List, [], arith, false, if◌then◌else◌, inl, inr, length, refl, suc, true, zero,
  ℕ, ◌%◌, ◌*◌, ◌+◌, ◌-◌, ◌<◌, ◌^◌, ◌∷◌, ◌≡◌, ◌≤◌,
}
use liam_os.Heap.{Block, Heap, HeapStats, Totals, count_block, no_totals, recalculate_stats, total}
use liam_os.Heap.Tiles.{HasRange, Tiles, Tiles-sane, Tiles-le}
use liam_os.Heap.Validity.{IsValid}

-- The payload bytes, and the number, of the blocks that are used, or of those that are free.
abbrev pub bytes_where : Bool → List Block → ℕ
bytes_where u [] = 0
bytes_where true (b ∷ bs) = (if b.used then b.size else 0) + bytes_where true bs
bytes_where false (b ∷ bs) = (if b.used then 0 else b.size) + bytes_where false bs

abbrev pub count_where : Bool → List Block → ℕ
count_where u [] = 0
count_where true (b ∷ bs) = (if b.used then 1 else 0) + count_where true bs
count_where false (b ∷ bs) = (if b.used then 0 else 1) + count_where false bs

-- What is tiled is headers and payloads.
pub Tiles-bytes :
    (a : ℕ) (bs : List Block) (e : ℕ)
    → Tiles a bs e
    → e
      ≡ a
        + bytes_where true bs
        + bytes_where false bs
        + 16 * (count_where true bs + count_where false bs)
Tiles-bytes a [] e t = omega (arith, t)
Tiles-bytes a (b ∷ bs) e (h1, h2, h3, h4, t) = ground (arith, Tiles-bytes (a + 16 + b.size) bs e t)

record IsSum (bs : List Block) (t u : Totals) : Type 0 where
  used_sum : u.used_bytes ≡ t.used_bytes + bytes_where true bs
  free_sum : u.free_bytes ≡ t.free_bytes + bytes_where false bs
  used_count : u.allocation_count ≡ t.allocation_count + count_where true bs
  free_count : u.free_block_count ≡ t.free_block_count + count_where false bs

-- The counts are small enough for what is left to be counted.
record IsSmall (bytes : ℕ) (t : Totals) : Type 0 where
  used_small : t.used_bytes + bytes < 2 ^ 32
  free_small : t.free_bytes + bytes < 2 ^ 32
  used_few : t.allocation_count + bytes < 2 ^ 32
  free_few : t.free_block_count + bytes < 2 ^ 32

count_block-IsSmall :
    (b : Block) (t : Totals) (a e : ℕ)
    → a + 16 + b.size ≤ e
    → IsSmall (e - a) t
    → IsSmall (e - (a + 16 + b.size)) (count_block b t)
count_block-IsSmall b t a e le i = elim (Bool-cases b.used) [
  | inl u ↦ rw u (record {
    used_small = omega (arith, le, i.used_small);
    free_small = omega (arith, le, i.free_small);
    used_few = omega (arith, le, i.used_few);
    free_few = omega (arith, le, i.free_few);
  })
  | inr u ↦ rw u (record {
    used_small = omega (arith, le, i.used_small);
    free_small = omega (arith, le, i.free_small);
    used_few = omega (arith, le, i.used_few);
    free_few = omega (arith, le, i.free_few);
  })
]

count_block-IsSum :
    (b : Block) (bs : List Block) (t u : Totals) (a e : ℕ)
    → a + 16 + b.size ≤ e
    → IsSmall (e - a) t
    → IsSum bs (count_block b t) u
    → IsSum (b ∷ bs) t u
count_block-IsSum b bs t u a e le i s = record {
  used_sum = ground (arith, s.used_sum, i.used_small, le);
  free_sum = ground (arith, s.free_sum, i.free_small, le);
  used_count = ground (arith, s.used_count, i.used_few, le);
  free_count = ground (arith, s.free_count, i.free_few, le);
}

none-IsSum : (t : Totals) → IsSum [] t t
none-IsSum t = record {
  used_sum = omega arith;
  free_sum = omega arith;
  used_count = omega arith;
  free_count = omega arith;
}

total-IsSum :
    (n : ℕ) (s : HeapStats) (a : ℕ) (bs : List Block) (e : ℕ) (t : Totals)
    → HasRange s
    → 0xC1000000 ≤ a
    → a % 8 ≡ 0
    → e ≤ 0xC2000000
    → length bs ≤ n
    → Tiles a bs e
    → IsSmall (e - a) t
    → IsSum bs t (total n s bs t)
unfolding total
total-IsSum zero s a [] e t r low al high few u i = none-IsSum t
total-IsSum zero s a (b ∷ bs) e t r low al high few u i = absurd (omega (arith, few))
total-IsSum (suc n) s a [] e t r low al high few u i = none-IsSum t
total-IsSum (suc n) s a (b ∷ bs) e t r low al high few u i =
    let (h1, h2, h3, h4, v) = u in
    let le = Tiles-le (a + 16 + b.size) bs e v in
    rw (Tiles-sane s a b bs e r low al high u) (
      count_block-IsSum b bs t (total n s bs (count_block b t)) a e le i (
        total-IsSum n s (a + 16 + b.size) bs e (count_block b t) r (omega (arith, low))
          (omega (arith, al, h4)) high (omega (arith, few)) v (count_block-IsSmall b t a e le i)))

-- The statistics are the sums over the blocks, and the bytes of all pages are the payloads and a
-- header of 16 bytes for each block.
pub record IsCounted (h : Heap) : Type 0 where
  pub used_counted : h.stats.used_bytes ≡ bytes_where true h.blocks
  pub free_counted : h.stats.free_bytes ≡ bytes_where false h.blocks
  pub allocations_counted : h.stats.allocation_count ≡ count_where true h.blocks
  pub free_blocks_counted : h.stats.free_block_count ≡ count_where false h.blocks
  pub all_counted :
      h.stats.used_bytes
        + h.stats.free_bytes
        + 16 * (h.stats.allocation_count + h.stats.free_block_count)
      ≡ h.stats.total_bytes

pub recalculate_stats-IsCounted :
    (h : Heap)
    → IsValid h
    → length h.blocks ≤ 4096
    → IsCounted (record h { stats = recalculate_stats h.stats h.blocks })
unfolding recalculate_stats
recalculate_stats-IsCounted h i few =
    let e = h.stats.next_virtual_page in
    let sum =
      total-IsSum 4096 h.stats 0xC1000000 h.blocks e no_totals i.range (omega arith) refl i.high few
        i.tiles
        (record {
          used_small = omega (arith, i.high);
          free_small = omega (arith, i.high);
          used_few = omega (arith, i.high);
          free_few = omega (arith, i.high);
        }) in
    record {
      used_counted = omega (arith, sum.used_sum);
      free_counted = omega (arith, sum.free_sum);
      allocations_counted = omega (arith, sum.used_count);
      free_blocks_counted = omega (arith, sum.free_count);
      all_counted = omega (
        arith,
        sum.used_sum,
        sum.free_sum,
        sum.used_count,
        sum.free_count,
        Tiles-bytes 0xC1000000 h.blocks e i.tiles,
        i.total,
      );
    }
