-- ===== src/Heap.antt =====
-- core/kernel/memory/heap.c: the kernel heap, a chain of blocks that each begin with a header.
-- The chain from `heap_head` is the list of its blocks, in the order of their `next` pointers: the
-- pointer to a block is its `address`, `next` is the following block, and a null head is the empty
-- list. Clients write only behind the headers. A pointer to a block that is changed is its place in
-- the list.
pub mod Growth
pub mod Operations
pub mod Tiles
pub mod Growing
pub mod Validity
pub mod Grants
pub mod Freeing
pub mod Coalescing
pub mod Counted
pub mod Counting
pub mod Available
pub mod Requests
pub mod Wrapping
pub mod Audit
pub mod Audited
pub mod Allocation
mod Tests
use liam_os.Base.{
  Bool, List, Option, [], add32, false, if◌then◌else◌, inc32, leb, ltb, none, not, some, sub32, suc,
  zero, ℕ, ◌%◌, ◌&&◌, ◌+◌, ◌-◌, ◌==◌, ◌||◌, ◌∷◌,
}
use liam_os.Vmm.{Vmm}

-- `heap_block_t`
pub record Block : Type 0 where
  pub address : ℕ
  pub magic : ℕ
  pub size : ℕ
  pub used : Bool

-- `heap_stats_t`
pub record HeapStats : Type 0 where
  pub initialized : Bool
  pub virtual_start : ℕ
  pub virtual_end : ℕ
  pub next_virtual_page : ℕ
  pub total_pages : ℕ
  pub total_bytes : ℕ
  pub used_bytes : ℕ
  pub free_bytes : ℕ
  pub allocation_count : ℕ
  pub free_block_count : ℕ
  pub grow_count : ℕ
  pub failed_grow_count : ℕ
  pub failed_allocation_count : ℕ
  pub successful_free_count : ℕ
  pub invalid_free_count : ℕ
  pub double_free_count : ℕ

-- `heap_head`, `heap_stats`, and the virtual memory manager with its page allocator.
pub record Heap : Type 0 where
  pub blocks : List Block
  pub stats : HeapStats
  pub vmm : Vmm

abbrev pub block_magic : ℕ
block_magic = 0x48454150

abbrev pub max_audit_blocks : ℕ
max_audit_blocks = 4096

abbrev pub min_split_size : ℕ
min_split_size = 16

-- `align_up(value, HEAP_ALIGNMENT)`
abbrev pub align_up8 : ℕ → ℕ
align_up8 value = add32 value 7 - add32 value 7 % 8

-- `heap_header_size()`: the 16 bytes of a header, which are a multiple of 8.
abbrev pub header_size : ℕ
header_size = 16

-- `heap_address_in_range`, `heap_payload_address_in_range`, `heap_address_is_aligned`
abbrev pub address_in_range : HeapStats → ℕ → Bool
address_in_range s a = leb s.virtual_start a && leb a s.virtual_end

abbrev pub payload_address_in_range : HeapStats → ℕ → Bool
payload_address_in_range s a = leb (add32 s.virtual_start header_size) a && leb a s.virtual_end

abbrev pub address_is_aligned : ℕ → Bool
address_is_aligned a = a % 8 == 0

-- `heap_initialize_block`
abbrev pub initialize_block : ℕ → ℕ → Block
initialize_block address size = record {
  address = address;
  magic = block_magic;
  size = size;
  used = false;
}

-- `block_address + header_size + block->size - 1`
abbrev pub last_byte : Block → ℕ
last_byte b = sub32 (add32 (add32 b.address header_size) b.size) 1

-- `heap_block_header_is_sane`
unfoldable pub block_header_is_sane : HeapStats → Block → Bool
block_header_is_sane s b =
    address_in_range s b.address
    && (address_is_aligned b.address
        && ((b.magic == block_magic)
            && (not (b.size == 0) && not (ltb s.virtual_end (last_byte b)))))

-- What the loop of `heap_recalculate_stats` adds up.
pub record Totals : Type 0 where
  pub used_bytes : ℕ
  pub free_bytes : ℕ
  pub allocation_count : ℕ
  pub free_block_count : ℕ

abbrev pub count_block : Block → Totals → Totals
count_block b t =
    if b.used
    then record t {
      used_bytes = add32 t.used_bytes b.size;
      allocation_count = inc32 t.allocation_count;
    }
    else record t {
      free_bytes = add32 t.free_bytes b.size;
      free_block_count = inc32 t.free_block_count;
    }

-- Its loop, with `n` visits left.
unfoldable pub total : ℕ → HeapStats → List Block → Totals → Totals
unfolding block_header_is_sane
total zero s bs t = t
total (suc n) s [] t = t
total (suc n) s (b ∷ bs) t =
    let later = total n s bs (count_block b t) in
    if not (block_header_is_sane s b) then t else later

abbrev pub no_totals : Totals
no_totals = record { used_bytes = 0; free_bytes = 0; allocation_count = 0; free_block_count = 0 }

-- `heap_recalculate_stats`
unfoldable pub recalculate_stats : HeapStats → List Block → HeapStats
recalculate_stats s bs =
    let t = total max_audit_blocks s bs no_totals in
    record s {
      used_bytes = t.used_bytes;
      free_bytes = t.free_bytes;
      allocation_count = t.allocation_count;
      free_block_count = t.free_block_count;
    }

-- The loop of `heap_find_block_for_pointer`: the place of the block, from place `i` on.
unfoldable pub find_from : ℕ → HeapStats → List Block → ℕ → ℕ → Option ℕ
find_from zero s bs i pointer = none
find_from (suc n) s [] i pointer = none
find_from (suc n) s (b ∷ bs) i pointer =
    let later = find_from n s bs (i + 1) pointer in
    if not (block_header_is_sane s b)
    then none
    else if add32 b.address header_size == pointer
    then some i
    else later

-- `heap_find_block_for_pointer`
unfoldable pub find_block_for_pointer : HeapStats → List Block → ℕ → Option ℕ
unfolding find_from
find_block_for_pointer s bs pointer =
    if (pointer == 0) || not s.initialized
    then none
    else if not (payload_address_in_range s pointer)
    then none
    else find_from max_audit_blocks s bs 0 pointer

-- `heap_split_block`: the block, and the new block behind it if it was split.
unfoldable pub split_block : HeapStats → Block → ℕ → Block × List Block
split_block s b requested =
    if not (block_header_is_sane s b)
    then (b, [])
    else if leb b.size (add32 (add32 requested header_size) min_split_size)
    then (b, [])
    else (
      record b { size = requested },
      initialize_block (add32 (add32 b.address header_size) requested)
            (sub32 (sub32 b.size requested) header_size)
          ∷ [],
    )

-- Whether `heap_merge_free_blocks` joins two neighbours.
abbrev pub are_mergeable : Block → Block → Bool
are_mergeable b c =
    (not b.used && not c.used) && (add32 (add32 b.address header_size) b.size == c.address)

abbrev pub merge_pair : Block → Block → Block
merge_pair b c = record b { size = add32 b.size (add32 header_size c.size) }

-- The loop of `heap_merge_free_blocks` at block `b`, with `n` visits left; a merge is no visit.
unfoldable pub merge_from : ℕ → HeapStats → Block → List Block → List Block
merge_from n s b [] = b ∷ []
merge_from zero s b (c ∷ bs) = b ∷ c ∷ bs
merge_from (suc n) s b (c ∷ bs) =
    let merged = merge_from (suc n) s (merge_pair b c) bs in
    let later = merge_from n s c bs in
    if not (block_header_is_sane s b) || not (block_header_is_sane s c)
    then b ∷ c ∷ bs
    else if are_mergeable b c
    then merged
    else b ∷ later

-- `heap_merge_free_blocks`
unfoldable pub merge_free_blocks : HeapStats → List Block → List Block
unfolding merge_from
merge_free_blocks s [] = []
merge_free_blocks s (b ∷ bs) = merge_from max_audit_blocks s b bs
