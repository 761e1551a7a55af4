-- ===== src/Heap/Operations.antt =====
-- The interface of core/kernel/memory/heap.c: initialization, kmalloc, kfree and the pointer tests.
use liam_os.Base.{
  Bool, List, Option, Status, [], add32, corruption_detected, false, get_or, if◌then◌else◌, inc32,
  invalid_argument, invalid_state, leb, ltb, none, not, not_initialized, ok, page_size, set, some,
  suc, true, zero, ℕ, ◌&&◌, ◌++◌, ◌-◌, ◌==◌, ◌||◌, ◌∷◌,
}
use liam_os.Heap.{
  Block, Heap, HeapStats, align_up8, block_header_is_sane, find_block_for_pointer, header_size,
  initialize_block, max_audit_blocks, merge_free_blocks, recalculate_stats, split_block,
}
use liam_os.Heap.Growth.{grow}
use liam_os.Vmm.{Vmm}

-- The statistics that `heap_initialize` starts from.
abbrev pub empty_stats : HeapStats
empty_stats = record {
  initialized = false;
  virtual_start = 0xC1000000;
  virtual_end = 0xC1FFFFFF;
  next_virtual_page = 0xC1000000;
  total_pages = 0;
  total_bytes = 0;
  used_bytes = 0;
  free_bytes = 0;
  allocation_count = 0;
  free_block_count = 0;
  grow_count = 0;
  failed_grow_count = 0;
  failed_allocation_count = 0;
  successful_free_count = 0;
  invalid_free_count = 0;
  double_free_count = 0;
}

abbrev pub empty_heap : Vmm → Heap
empty_heap v = record { blocks = []; stats = empty_stats; vmm = v }

-- `heap_initialize`
unfoldable pub initialize : Heap → Heap
initialize h =
    let (done, g) = grow (empty_heap h.vmm) (page_size - header_size) in
    if not done
    then g
    else record g { stats = recalculate_stats (record (g.stats) { initialized = true }) g.blocks }

-- How the loop of `kmalloc` ends: at a block that is not sane, at the end of the chain (or of the
-- visits), or with a block: its payload, and the chain with the block taken.
pub data Walk : Type 0 where
  insane missed : Walk
  taken : ℕ → List Block → Walk

-- The chain in front of the block stays.
abbrev pub behind : Block → Walk → Walk
behind b insane = insane
behind b missed = missed
behind b (taken p bs) = taken p (b ∷ bs)

-- `heap_split_block` and `block->used = 1`
abbrev pub take_block : HeapStats → Block → ℕ → List Block → List Block
take_block s b requested bs =
    let (c, rest) = split_block s b requested in record c { used = true } ∷ (rest ++ bs)

-- The loop of `kmalloc`, with `n` visits left.
unfoldable pub find_fit : ℕ → HeapStats → List Block → ℕ → Walk
find_fit zero s bs requested = missed
find_fit (suc n) s [] requested = missed
find_fit (suc n) s (b ∷ bs) requested =
    let later = find_fit n s bs requested in
    if not (block_header_is_sane s b)
    then insane
    else if not b.used && leb requested b.size
    then taken (add32 b.address header_size) (take_block s b requested bs)
    else behind b later

abbrev pub fail_allocation : Heap → ℕ × Heap
fail_allocation h = (
  0,
  record h {
    stats = record (h.stats) { failed_allocation_count = inc32 h.stats.failed_allocation_count };
  },
)

abbrev pub finish_allocation : Heap → ℕ → List Block → ℕ × Heap
finish_allocation h p bs = (p, record h { blocks = bs; stats = recalculate_stats h.stats bs })

-- `kmalloc` after its loop. `again` is its call of itself.
unfoldable pub after_walk : Heap → ℕ → (Heap → Option (ℕ × Heap)) → Walk → Option (ℕ × Heap)
after_walk h requested again insane = some (fail_allocation h)
after_walk h requested again (taken p bs) = some (finish_allocation h p bs)
after_walk h requested again missed =
    let (done, g) = grow h requested in
    let allocated = again g in if not done then some (fail_allocation g) else allocated

-- `kmalloc`: the pointer (0 for null) and the new heap. It calls itself after the heap has grown, on
-- fuel; `none`: the fuel ran out.
unfoldable pub kmalloc : ℕ → Heap → ℕ → Option (ℕ × Heap)
unfolding after_walk
kmalloc zero h size = none
kmalloc (suc fuel) h size =
    let requested = align_up8 size in
    let rest =
      after_walk h requested (λ g. kmalloc fuel g requested)
        (find_fit max_audit_blocks h.stats h.blocks requested) in
    if not h.stats.initialized || (size == 0) then some (fail_allocation h) else rest

abbrev pub block_at : List Block → ℕ → Block
block_at bs i = get_or bs i (initialize_block 0 0)

-- `kfree` for the block in place `i`
unfoldable pub free_block : Heap → ℕ → Heap
free_block h i =
    let b = block_at h.blocks i in
    let s = record (h.stats) { successful_free_count = inc32 h.stats.successful_free_count } in
    let merged = merge_free_blocks s (set h.blocks i (record b { used = false })) in
    if not b.used
    then record h {
      stats = record (h.stats) { double_free_count = inc32 h.stats.double_free_count };
    }
    else record h { blocks = merged; stats = recalculate_stats s merged }

-- `kfree` with what the search has found.
unfoldable pub free_found : Heap → Option ℕ → Heap
unfolding free_block
free_found h none = record h {
  stats = record (h.stats) { invalid_free_count = inc32 h.stats.invalid_free_count };
}
free_found h (some i) = free_block h i

-- `kfree`
unfoldable pub kfree : Heap → ℕ → Heap
unfolding free_found
kfree h pointer =
    if pointer == 0 then h else free_found h (find_block_for_pointer h.stats h.blocks pointer)

-- `heap_validate_pointer` with what the search has found.
abbrev pub is_used : List Block → Option ℕ → Bool
is_used bs none = false
is_used bs (some i) = (block_at bs i).used

-- `heap_validate_pointer`, and `heap_is_pointer_allocated`, which calls it.
unfoldable pub validate_pointer : Heap → ℕ → Bool
validate_pointer h pointer = is_used h.blocks (find_block_for_pointer h.stats h.blocks pointer)

-- `heap_validate_pointer_status`; its last test repeats the one before it.
unfoldable pub validate_pointer_status : Heap → ℕ → Status
validate_pointer_status h pointer =
    if pointer == 0
    then invalid_argument
    else if not h.stats.initialized
    then not_initialized
    else if ltb pointer h.stats.virtual_start || leb h.stats.virtual_end pointer
    then invalid_argument
    else if not (validate_pointer h pointer)
    then corruption_detected
    else if not (validate_pointer h pointer)
    then invalid_state
    else ok
