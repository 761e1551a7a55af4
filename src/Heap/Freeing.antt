-- ===== src/Heap/Freeing.antt =====
-- `kfree` and the pointer tests of core/kernel/memory/heap.c on a valid heap.
use liam_os.Base.{
  ==→≡, Bool-cases, List, Option, Option-cases, [], add32, arith, false, if_cases, if◌then◌else◌,
  inc32, inl, inr, length, none, not, refl, set, some, suc, true, zero, ℕ, ◌%◌, ◌+◌, ◌<◌, ◌==◌,
  ◌||◌, ◌↔◌, ◌∙◌, ◌∷◌, ◌≡◌, ◌≢◌, ◌≤◌,
}
use liam_os.Heap.{
  Block, Heap, HeapStats, find_block_for_pointer, find_from, merge_free_blocks,
  payload_address_in_range, recalculate_stats,
}
use liam_os.Heap.Operations.{block_at, free_block, free_found, is_used, kfree, validate_pointer}
use liam_os.Heap.Tiles.{
  HasRange, Tiles, live, live-below, merge-Tiles, merge-live, Tiles-sane, Tiles-le,
}
use liam_os.Heap.Validity.{IsValid, recalculate_stats-HasSameRange, retiled}

-- What the search owes, from place `i` on: a block whose payload is the pointer, or no live one.
abbrev pub FindsFrom : ℕ → List Block → ℕ → Option ℕ → Type 0
FindsFrom i bs p none = live bs p ≡ none
FindsFrom i bs p (some j) =
    (k : ℕ) × (j ≡ i + k) × (k < length bs) × ((block_at bs k).address + 16 ≡ p)

found_here :
    (i a : ℕ) (b : Block) (bs : List Block) (e p : ℕ)
    → e ≤ 0xC2000000
    → Tiles a (b ∷ bs) e
    → (add32 b.address 16 == p) ≡ true
    → FindsFrom i (b ∷ bs) p (some i)
found_here i a b bs e p high (h1, h2, h3, h4, t) h =
    (0, omega arith, omega arith, ground (arith, h, h1, Tiles-le (a + 16 + b.size) bs e t, high))

found_later :
    (i a : ℕ) (b : Block) (bs : List Block) (e p : ℕ) (r : Option ℕ)
    → e ≤ 0xC2000000
    → Tiles a (b ∷ bs) e
    → (add32 b.address 16 == p) ≡ false
    → FindsFrom (i + 1) bs p r
    → FindsFrom i (b ∷ bs) p r
found_later i a b bs e p none high (h1, h2, h3, h4, t) h f =
    ground (arith, h, h1, Tiles-le (a + 16 + b.size) bs e t, high, f)
found_later i a b bs e p (some j) high t h (k, at, lt, is) =
    (suc k, omega (arith, at), omega (arith, lt), is)

find_from-FindsFrom :
    (n : ℕ) (s : HeapStats) (a : ℕ) (bs : List Block) (e i p : ℕ)
    → HasRange s
    → 0xC1000000 ≤ a
    → a % 8 ≡ 0
    → e ≤ 0xC2000000
    → length bs ≤ n
    → Tiles a bs e
    → FindsFrom i bs p (find_from n s bs i p)
unfolding find_from
find_from-FindsFrom zero s a [] e i p r low al high few t = refl
find_from-FindsFrom zero s a (b ∷ bs) e i p r low al high few t = absurd (omega (arith, few))
find_from-FindsFrom (suc n) s a [] e i p r low al high few t = refl
find_from-FindsFrom (suc n) s a (b ∷ bs) e i p r low al high few t =
    let (h1, h2, h3, h4, u) = t in
    rw (Tiles-sane s a b bs e r low al high t) (
      if_cases (λ (x : Option ℕ). FindsFrom i (b ∷ bs) p x) (add32 b.address 16 == p)
        (λ h. found_here i a b bs e p high t h)
        (λ h. found_later i a b bs e p (find_from n s bs (i + 1) p) high t h (
          find_from-FindsFrom n s (a + 16 + b.size) bs e (i + 1) p r (omega (arith, low))
            (omega (arith, al, h4)) high (omega (arith, few)) u)))

-- The pointer of a live payload passes the tests in front of the search.
live-in_range :
    (a : ℕ) (bs : List Block) (e p : ℕ) → Tiles a bs e → live bs p ≢ none → (a + 16 ≤ p) × (p < e)
live-in_range a [] e p t l = absurd (l refl)
live-in_range a (b ∷ bs) e p (h1, h2, h3, h4, t) l =
    let le = Tiles-le (a + 16 + b.size) bs e t in
    elim (Bool-cases (b.address + 16 == p)) [
      | inl h ↦ ground (arith, h, h1, h3, le)
      | inr h ↦
          let (above, below) =
            live-in_range (a + 16 + b.size) bs e p t (λ e. l (ground (arith, h, e))) in
          (omega (arith, above), below)
    ]

not_live :
    (h : Heap) (p : ℕ)
    → IsValid h
    → payload_address_in_range h.stats p ≡ false
    → live h.blocks p ≡ none
not_live h p i out = elim (Option-cases (live h.blocks p)) [
  | inl e ↦ e
  | inr (n, e) ↦
      let (above, below) =
        live-in_range 0xC1000000 h.blocks h.stats.next_virtual_page p i.tiles (λ z. cc) in
      absurd (ground (arith, out, i.range.start_range, i.range.end_range, above, below, i.high))
]

pub find-FindsFrom :
    (h : Heap) (p : ℕ)
    → IsValid h
    → h.stats.initialized ≡ true
    → length h.blocks ≤ 4096
    → FindsFrom 0 h.blocks p (find_block_for_pointer h.stats h.blocks p)
unfolding find_block_for_pointer
find-FindsFrom h p i init few =
    if_cases (FindsFrom 0 h.blocks p) ((p == 0) || not h.stats.initialized)
      (λ e.
        live-below 0xC1000000 h.blocks h.stats.next_virtual_page p i.tiles
          (ground (arith, e, init)))
      (λ _.
        if_cases (FindsFrom 0 h.blocks p) (not (payload_address_in_range h.stats p))
          (λ e. not_live h p i (ground (arith, e)))
          (λ _.
            find_from-FindsFrom 4096 h.stats 0xC1000000 h.blocks h.stats.next_virtual_page 0 p
              i.range (omega arith) refl i.high few i.tiles))

-- The chain with the block in place `k` free.
abbrev pub free_at : List Block → ℕ → List Block
free_at bs k = set bs k (record (block_at bs k) { used = false })

pub free_at-Tiles : (a : ℕ) (bs : List Block) (e k : ℕ) → Tiles a bs e → Tiles a (free_at bs k) e
free_at-Tiles a [] e k t = t
free_at-Tiles a (b ∷ bs) e zero t = t
free_at-Tiles a (b ∷ bs) e (suc k) (h1, h2, h3, h4, t) =
    (h1, h2, h3, h4, free_at-Tiles (a + 16 + b.size) bs e k t)

-- A place is that of one payload.
place_above :
    (a : ℕ) (bs : List Block) (e k : ℕ) → Tiles a bs e → k < length bs → a ≤ (block_at bs k).address
place_above a [] e k t lt = absurd (omega (arith, lt))
place_above a (b ∷ bs) e zero (h1, h2, h3, h4, t) lt = omega (arith, h1)
place_above a (b ∷ bs) e (suc k) (h1, h2, h3, h4, t) lt =
    omega (arith, place_above (a + 16 + b.size) bs e k t (omega (arith, lt)))

pub live-place :
    (a : ℕ) (bs : List Block) (e k p : ℕ)
    → Tiles a bs e
    → k < length bs
    → (block_at bs k).address + 16 ≡ p
    → live bs p ≡ (if (block_at bs k).used then some ((block_at bs k).size) else none)
live-place a [] e k p t lt at = absurd (omega (arith, lt))
live-place a (b ∷ bs) e zero p (h1, h2, h3, h4, t) lt at =
    ground (arith, at, h1, h3, live-below (a + 16 + b.size) bs e p t (omega (arith, at, h1, h3)))
live-place a (b ∷ bs) e (suc k) p (h1, h2, h3, h4, t) lt at =
    let above = place_above (a + 16 + b.size) bs e k t (omega (arith, lt)) in
    ground (arith, at, h1, above, live-place (a + 16 + b.size) bs e k p t (omega (arith, lt)) at)

live-free_at :
    (a : ℕ) (bs : List Block) (e k p q : ℕ)
    → Tiles a bs e
    → k < length bs
    → (block_at bs k).address + 16 ≡ p
    → live (free_at bs k) q ≡ (if q == p then none else live bs q)
live-free_at a [] e k p q t lt at = absurd (omega (arith, lt))
live-free_at a (b ∷ bs) e zero p q (h1, h2, h3, h4, t) lt at =
    ground (arith, at, h1, h3, live-below (a + 16 + b.size) bs e p t (omega (arith, at, h1, h3)))
live-free_at a (b ∷ bs) e (suc k) p q (h1, h2, h3, h4, t) lt at =
    let above = place_above (a + 16 + b.size) bs e k t (omega (arith, lt)) in
    ground
      (arith, at, h1, above, live-free_at (a + 16 + b.size) bs e k p q t (omega (arith, lt)) at)

free_block-IsValid : (h : Heap) (k : ℕ) → IsValid h → IsValid (free_block h k)
unfolding free_block
free_block-IsValid h k i =
    let s : HeapStats = record (h.stats) {
      successful_free_count = inc32 h.stats.successful_free_count;
    } in
    let merged = merge_free_blocks s (free_at h.blocks k) in
    let same = recalculate_stats-HasSameRange s merged in
    if_cases IsValid (not (block_at h.blocks k).used)
      (λ _.
        retiled h
          (record h {
            stats = record (h.stats) { double_free_count = inc32 h.stats.double_free_count };
          })
          i (record { same_start = refl; same_end = refl; same_next = refl; same_total = refl })
          i.tiles)
      (λ _.
        retiled h (record h { blocks = merged; stats = recalculate_stats s merged }) i
          (record {
            same_start = same.same_start;
            same_end = same.same_end;
            same_next = same.same_next;
            same_total = same.same_total;
          })
          (merge-Tiles s 0xC1000000 (free_at h.blocks k) h.stats.next_virtual_page i.high
            (free_at-Tiles 0xC1000000 h.blocks h.stats.next_virtual_page k i.tiles)))

free_found-IsValid : (h : Heap) (r : Option ℕ) → IsValid h → IsValid (free_found h r)
unfolding free_found
free_found-IsValid h none i =
    retiled h (free_found h none) i
      (record { same_start = refl; same_end = refl; same_next = refl; same_total = refl }) i.tiles
free_found-IsValid h (some k) i = free_block-IsValid h k i

-- `kfree` of any pointer leaves a valid heap valid.
pub kfree-IsValid : (h : Heap) (p : ℕ) → IsValid h → IsValid (kfree h p)
unfolding kfree
kfree-IsValid h p i =
    if_cases IsValid (p == 0) (λ _. i)
      (λ _. free_found-IsValid h (find_block_for_pointer h.stats h.blocks p) i)

-- A pointer that is not live is not among the live ones.
not_among :
    (bs : List Block) (p q : ℕ)
    → live bs p ≡ none
    → live bs q ≡ (if q == p then none else live bs q)
not_among bs p q n = elim (Bool-cases (q == p)) [
  | inl e ↦ rw e (rw (==→≡ q p e) n)
  | inr e ↦ rw e (refl)
]

free_block-live :
    (h : Heap) (k p q : ℕ)
    → IsValid h
    → k < length h.blocks
    → (block_at h.blocks k).address + 16 ≡ p
    → live (free_block h k).blocks q ≡ (if q == p then none else live h.blocks q)
unfolding free_block
free_block-live h k p q i lt at =
    let s : HeapStats = record (h.stats) {
      successful_free_count = inc32 h.stats.successful_free_count;
    } in
    let n = h.stats.next_virtual_page in
    if_cases (λ (g : Heap). live g.blocks q ≡ (if q == p then none else live h.blocks q))
      (not (block_at h.blocks k).used)
      (λ free.
        not_among h.blocks p q
          (live-place 0xC1000000 h.blocks n k p i.tiles lt at ∙ ground (arith, free)))
      (λ _.
        merge-live s (free_at h.blocks k) q
        ∙ live-free_at 0xC1000000 h.blocks n k p q i.tiles lt at)

free_found-live :
    (h : Heap) (p q : ℕ) (r : Option ℕ)
    → IsValid h
    → FindsFrom 0 h.blocks p r
    → live (free_found h r).blocks q ≡ (if q == p then none else live h.blocks q)
unfolding free_found
free_found-live h p q none i f = not_among h.blocks p q f
free_found-live h p q (some j) i (k, e, lt, at) =
    let same : j ≡ k = omega (arith, e) in rw same (free_block-live h k p q i lt at)

-- On a valid initialized heap of at most 4096 blocks, `kfree` makes exactly the payload at the
-- pointer no longer live: the other live payloads stay so, with their sizes. So a null, foreign or
-- repeated pointer frees nothing.
pub kfree_lem :
    (h : Heap) (p q : ℕ)
    → IsValid h
    → h.stats.initialized ≡ true
    → length h.blocks ≤ 4096
    → live (kfree h p).blocks q ≡ (if q == p then none else live h.blocks q)
unfolding kfree
kfree_lem h p q i init few =
    if_cases (λ (g : Heap). live g.blocks q ≡ (if q == p then none else live h.blocks q)) (p == 0)
      (λ e.
        not_among h.blocks p q
          (live-below 0xC1000000 h.blocks h.stats.next_virtual_page p i.tiles (ground (arith, e))))
      (λ _.
        free_found-live h p q (find_block_for_pointer h.stats h.blocks p) i
          (find-FindsFrom h p i init few))

is_used_lem :
    (h : Heap) (p : ℕ) (r : Option ℕ)
    → IsValid h
    → FindsFrom 0 h.blocks p r
    → (is_used h.blocks r ≡ true) ↔ (live h.blocks p ≢ none)
is_used_lem h p none i f = (λ e. cc, λ n. absurd (n f))
is_used_lem h p (some j) i (k, e, lt, at) =
    let l = live-place 0xC1000000 h.blocks h.stats.next_virtual_page k p i.tiles lt at in
    rw e (λ u. λ z. ground (arith, l, u, z), λ n. ground (arith, l, n))

-- On a valid initialized heap of at most 4096 blocks, `heap_validate_pointer` holds exactly of the
-- pointers to live payloads.
pub validate_pointer_lem :
    (h : Heap) (p : ℕ)
    → IsValid h
    → h.stats.initialized ≡ true
    → length h.blocks ≤ 4096
    → (validate_pointer h p ≡ true) ↔ (live h.blocks p ≢ none)
unfolding validate_pointer
validate_pointer_lem h p i init few =
    is_used_lem h p (find_block_for_pointer h.stats h.blocks p) i (find-FindsFrom h p i init few)
