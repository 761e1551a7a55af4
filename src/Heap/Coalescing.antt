-- ===== src/Heap/Coalescing.antt =====
-- After `kfree` in core/kernel/memory/heap.c no two free blocks are neighbours.
use liam_os.Base.{
  Bool-cases, List, Option, [], arith, false, if_cases, if◌then◌else◌, inc32, inl, inr, length,
  length-set, none, refl, some, suc, true, zero, ℕ, ◌%◌, ◌+◌, ◌==◌, ◌∷◌, ◌≡◌, ◌≢◌, ◌≤◌, ◌⊎◌,
}
use liam_os.Heap.{
  Block, Heap, HeapStats, are_mergeable, find_block_for_pointer, merge_free_blocks, merge_from,
  merge_pair,
}
use liam_os.Heap.Operations.{block_at, free_block, free_found, kfree}
use liam_os.Heap.Tiles.{HasRange, Tiles, live, live-below, merge_pair-Tiles, Tiles-sane, Tiles-le}
use liam_os.Heap.Validity.{IsValid}
use liam_os.Heap.Freeing.{FindsFrom, find-FindsFrom, free_at, free_at-Tiles, live-place}

-- Of the block `b` and the blocks behind it, no two neighbours are both free.
abbrev ApartFrom : Block → List Block → Type 0
ApartFrom b [] = Unit {0}
ApartFrom b (c ∷ bs) = ((b.used ≡ true) ⊎ (c.used ≡ true)) × ApartFrom c bs

abbrev pub Apart : List Block → Type 0
Apart [] = Unit {0}
Apart (b ∷ bs) = ApartFrom b bs

-- A chain that stays apart behind any block that may stand in front of `b`.
abbrev IsSpread : Block → List Block → Type 0
IsSpread b bs = Apart bs × ((d : Block) → (d.used ≡ true) ⊎ (b.used ≡ true) → ApartFrom d bs)

one_used :
    (a : ℕ) (b c : Block) (bs : List Block) (e : ℕ)
    → e ≤ 0xC2000000
    → Tiles a (b ∷ c ∷ bs) e
    → are_mergeable b c ≡ false
    → (b.used ≡ true) ⊎ (c.used ≡ true)
one_used a b c bs e high (h1, h2, h3, h4, (k1, k2, k3, k4, t)) m =
    let le = Tiles-le (a + 16 + b.size + 16 + c.size) bs e t in
    elim (Bool-cases b.used) [
      | inl u ↦ inl u
      | inr u ↦ inr (ground (arith, m, u, h1, k1, le, high))
    ]

used-live :
    (bs : List Block) (k p : ℕ)
    → live bs p ≢ none
    → live bs p ≡ (if (block_at bs k).used then some ((block_at bs k).size) else none)
    → (block_at bs k).used ≡ true
used-live bs k p l e = ground (arith, l, e)

merge_from-IsSpread :
    (n : ℕ) (s : HeapStats) (a : ℕ) (b : Block) (bs : List Block) (e : ℕ)
    → HasRange s
    → 0xC1000000 ≤ a
    → a % 8 ≡ 0
    → e ≤ 0xC2000000
    → length bs ≤ n
    → Tiles a (b ∷ bs) e
    → IsSpread b (merge_from n s b bs)
unfolding merge_from
merge_from-IsSpread n s a b [] e r low al high few t = (tt, λ d u. (u, tt))
merge_from-IsSpread zero s a b (c ∷ bs) e r low al high few t = absurd (omega (arith, few))
merge_from-IsSpread (suc n) s a b (c ∷ bs) e r low al high few t =
    let (h1, h2, h3, h4, u) = t in
    let low' : 0xC1000000 ≤ a + 16 + b.size = omega (arith, low) in
    let al' : (a + 16 + b.size) % 8 ≡ 0 = omega (arith, al, h4) in
    let next =
      merge_from-IsSpread n s (a + 16 + b.size) c bs e r low' al' high (omega (arith, few)) u in
    rw (Tiles-sane s a b (c ∷ bs) e r low al high t) (
      rw (Tiles-sane s (a + 16 + b.size) c bs e r low' al' high u) (
        if_cases (IsSpread b) (are_mergeable b c)
          (λ _.
            merge_from-IsSpread (suc n) s a (merge_pair b c) bs e r low al high (omega (arith, few))
              (merge_pair-Tiles a b c bs e high t))
          (λ m.
            let one = one_used a b c bs e high t m in (next.1 b one, λ d f. (f, next.1 b one)))))

merge-Apart :
    (s : HeapStats) (bs : List Block) (e : ℕ)
    → HasRange s
    → e ≤ 0xC2000000
    → length bs ≤ 4096
    → Tiles 0xC1000000 bs e
    → Apart (merge_free_blocks s bs)
unfolding merge_free_blocks
merge-Apart s [] e r high few t = tt
merge-Apart s (b ∷ bs) e r high few t =
    let (spread, _) =
      merge_from-IsSpread 4096 s 0xC1000000 b bs e r (omega arith) refl high (omega (arith, few))
        t in
    spread

free_block-Apart :
    (h : Heap) (k : ℕ)
    → IsValid h
    → length h.blocks ≤ 4096
    → (block_at h.blocks k).used ≡ true
    → Apart (free_block h k).blocks
unfolding free_block
free_block-Apart h k i few used =
    let s : HeapStats = record (h.stats) {
      successful_free_count = inc32 h.stats.successful_free_count;
    } in
    rw used (
      merge-Apart s (free_at h.blocks k) h.stats.next_virtual_page
        (record { start_range = i.range.start_range; end_range = i.range.end_range }) i.high
        (omega
          (arith, few, length-set {0} h.blocks k (record (block_at h.blocks k) { used = false })))
        (free_at-Tiles 0xC1000000 h.blocks h.stats.next_virtual_page k i.tiles))

free_found-Apart :
    (h : Heap) (p : ℕ) (r : Option ℕ)
    → IsValid h
    → length h.blocks ≤ 4096
    → FindsFrom 0 h.blocks p r
    → live h.blocks p ≢ none
    → Apart (free_found h r).blocks
unfolding free_found
free_found-Apart h p none i few f l = absurd (l f)
free_found-Apart h p (some j) i few (k, e, lt, at) l =
    let same : j ≡ k = omega (arith, e) in
    rw same (
      free_block-Apart h k i few (
        used-live h.blocks k p l
          (live-place 0xC1000000 h.blocks h.stats.next_virtual_page k p i.tiles lt at)))

-- On a valid initialized heap of at most 4096 blocks, after `kfree` of a live payload no two
-- neighbouring blocks are both free.
pub kfree-Apart :
    (h : Heap) (p : ℕ)
    → IsValid h
    → h.stats.initialized ≡ true
    → length h.blocks ≤ 4096
    → live h.blocks p ≢ none
    → Apart (kfree h p).blocks
unfolding kfree
kfree-Apart h p i init few l =
    if_cases (λ (g : Heap). Apart g.blocks) (p == 0)
      (λ e. absurd (
        l (live-below 0xC1000000 h.blocks h.stats.next_virtual_page p i.tiles (ground (arith, e)))))
      (λ _.
        free_found-Apart h p (find_block_for_pointer h.stats h.blocks p) i few
          (find-FindsFrom h p i init few) l)
