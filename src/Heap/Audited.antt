-- ===== src/Heap/Audited.antt =====
-- What `heap_audit` of core/kernel/memory/heap.c finds on a valid heap.
use liam_os.Base.{
  Bool, Bool-cases, List, [], add32, ap, arith, false, if_false, if◌then◌else◌, inc32, inl, inr,
  leb, length, ltb, not, refl, subst, suc, sym, true, zero, ℕ, ≡→==, ◌%◌, ◌&&◌, ◌*◌, ◌+◌, ◌-◌, ◌/◌,
  ◌<◌, ◌==◌, ◌^◌, ◌||◌, ◌∙◌, ◌∷◌, ◌≡◌, ◌≤◌,
}
use liam_os.Vmm.{Vmm, is_mapped}
use liam_os.Heap.{
  Block, Heap, HeapStats, address_in_range, address_is_aligned, block_magic, last_byte,
}
use liam_os.Heap.Tiles.{HasRange, Tiles, Tiles-le}
use liam_os.Heap.Validity.{IsValid}
use liam_os.Heap.Counted.{IsCounted, bytes_where}
use liam_os.Heap.Audit.{
  HeapAudit, audit, audit_block, audit_blocks, audit_pages, check_alignment, clear_audit_snapshot,
  compare_totals, record_invalid_magic, record_invalid_next, record_invalid_size, record_misaligned,
  record_out_of_range, record_unmapped, see_block,
}

-- What the loop over the blocks of a valid heap adds to the snapshot.
record AuditsBlocks (bs : List Block) (i j : HeapAudit) : Type 0 where
  same_issues : j.issues_found ≡ i.issues_found
  used_added : j.calculated_used_bytes ≡ i.calculated_used_bytes + bytes_where true bs
  free_added : j.calculated_free_bytes ≡ i.calculated_free_bytes + bytes_where false bs

record HasRoom (bytes : ℕ) (i : HeapAudit) : Type 0 where
  used_room : i.calculated_used_bytes + bytes < 2 ^ 32
  free_room : i.calculated_free_bytes + bytes < 2 ^ 32

audit_block-HasRoom :
    (b : Block) (i : HeapAudit) (a e : ℕ)
    → a + 16 + b.size ≤ e
    → HasRoom (e - a) i
    → HasRoom (e - (a + 16 + b.size)) (audit_block b i)
audit_block-HasRoom b i a e le r = record {
  used_room = ground (arith, le, r.used_room);
  free_room = ground (arith, le, r.free_room);
}

audit_block-AuditsBlocks :
    (b : Block) (bs : List Block) (i j : HeapAudit) (a e : ℕ)
    → a + 16 + b.size ≤ e
    → HasRoom (e - a) i
    → AuditsBlocks bs (audit_block b i) j
    → AuditsBlocks (b ∷ bs) i j
audit_block-AuditsBlocks b bs i j a e le r k = record {
  same_issues = ground (arith, k.same_issues);
  used_added = ground (arith, k.used_added, r.used_room, le);
  free_added = ground (arith, k.free_added, r.free_room, le);
}

see_block-AuditsBlocks :
    (bs : List Block) (i j : HeapAudit) → AuditsBlocks bs (see_block i) j → AuditsBlocks bs i j
see_block-AuditsBlocks bs i j k = record {
  same_issues = k.same_issues;
  used_added = k.used_added;
  free_added = k.free_added;
}

passes :
    (t1 t2 t3 t4 : Bool) (x1 x2 x3 x4 x y : HeapAudit)
    → t1 ≡ false
    → t2 ≡ false
    → t3 ≡ false
    → t4 ≡ false
    → x ≡ y
    → (if t1 then x1 else if t2 then x2 else if t3 then x3 else if t4 then x4 else x) ≡ y
passes t1 t2 t3 t4 x1 x2 x3 x4 x y h1 h2 h3 h4 e = rw h1 (rw h2 (rw h3 (rw h4 e)))

-- A block of a valid heap passes every test.
audit_step :
    (n : ℕ) (s : HeapStats) (a : ℕ) (b : Block) (bs : List Block) (e previous : ℕ) (i : HeapAudit)
    → HasRange s
    → 0xC1000000 ≤ a
    → a % 8 ≡ 0
    → e ≤ 0xC2000000
    → previous < a
    → Tiles a (b ∷ bs) e
    → audit_blocks (suc n) s (b ∷ bs) previous i
      ≡ audit_blocks n s bs b.address (audit_block b (see_block i))
unfolding audit_blocks
audit_step n s a b bs e previous i r low al high lt (h1, h2, h3, h4, u) =
    let le = Tiles-le (a + 16 + b.size) bs e u in
    let in_range : address_in_range s b.address ≡ true =
      ground (arith, r.start_range, r.end_range, h1, h3, low, le, high) in
    let aligned : address_is_aligned b.address ≡ true = ground (arith, h1, al) in
    let magic : (b.magic == block_magic) ≡ true = ≡→== b.magic block_magic h2 in
    let size : ((b.size == 0) || ltb s.virtual_end (last_byte b)) ≡ false =
      ground (arith, r.end_range, h1, h3, low, le, high) in
    let order : (not (previous == 0) && leb b.address previous) ≡ false = ground (arith, h1, lt) in
    let j = check_alignment b (see_block i) in
    passes (not (address_in_range s b.address)) (not (b.magic == block_magic))
      ((b.size == 0) || ltb s.virtual_end (last_byte b))
      (not (previous == 0) && leb b.address previous) (record_out_of_range (see_block i))
      (record_invalid_magic j) (record_invalid_size j) (record_invalid_next j)
      (audit_blocks n s bs b.address (audit_block b j))
      (audit_blocks n s bs b.address (audit_block b (see_block i))) (ap not in_range) (ap not magic)
      size order
      (ap (λ (x : HeapAudit). audit_blocks n s bs b.address (audit_block b x))
        (if_false (not (address_is_aligned b.address)) (record_misaligned (see_block i))
          (see_block i) (ap not aligned)))

audit_blocks-AuditsBlocks :
    (n : ℕ) (s : HeapStats) (a : ℕ) (bs : List Block) (e previous : ℕ) (i : HeapAudit)
    → HasRange s
    → 0xC1000000 ≤ a
    → a % 8 ≡ 0
    → e ≤ 0xC2000000
    → length bs ≤ n
    → previous < a
    → Tiles a bs e
    → HasRoom (e - a) i
    → AuditsBlocks bs i (audit_blocks n s bs previous i)
unfolding audit_blocks
audit_blocks-AuditsBlocks n s a [] e previous i r low al high few lt t room = record {
  same_issues = refl;
  used_added = omega arith;
  free_added = omega arith;
}
audit_blocks-AuditsBlocks zero s a (b ∷ bs) e previous i r low al high few lt t room =
    absurd (omega (arith, few))
audit_blocks-AuditsBlocks (suc n) s a (b ∷ bs) e previous i r low al high few lt t room =
    let (h1, h2, h3, h4, u) = t in
    let le = Tiles-le (a + 16 + b.size) bs e u in
    let seen = see_block i in
    let later =
      audit_block-AuditsBlocks b bs seen (audit_blocks n s bs b.address (audit_block b seen)) a e le
        (record { used_room = room.used_room; free_room = room.free_room })
        (audit_blocks-AuditsBlocks n s (a + 16 + b.size) bs e b.address (audit_block b seen) r
          (omega (arith, low)) (omega (arith, al, h4)) high (omega (arith, few))
          (omega (arith, h1, h3)) u
          (audit_block-HasRoom b seen a e le
            (record { used_room = room.used_room; free_room = room.free_room }))) in
    subst (AuditsBlocks (b ∷ bs) i) (sym (audit_step n s a b bs e previous i r low al high lt t))
      (see_block-AuditsBlocks (b ∷ bs) i (audit_blocks n s bs b.address (audit_block b seen)) later)

-- How many of the `k` pages from `address` on are not mapped.
abbrev pub unmapped_pages : ℕ → Vmm → ℕ → ℕ
unmapped_pages zero v address = 0
unmapped_pages (suc k) v address =
    (if is_mapped v address then 0 else 1) + unmapped_pages k v (address + 4096)

-- What the loop over the pages adds to the snapshot.
record AuditsPages (n : ℕ) (i j : HeapAudit) : Type 0 where
  issues_added : j.issues_found ≡ i.issues_found + n
  same_used : j.calculated_used_bytes ≡ i.calculated_used_bytes
  same_free : j.calculated_free_bytes ≡ i.calculated_free_bytes

abbrev audit_page : Vmm → ℕ → HeapAudit → HeapAudit
audit_page v address i = if not (is_mapped v address) then record_unmapped i else i

audit_page-AuditsPages :
    (v : Vmm) (address n : ℕ) (i j : HeapAudit)
    → i.issues_found + 1 < 2 ^ 32
    → AuditsPages n (audit_page v address i) j
    → AuditsPages ((if is_mapped v address then 0 else 1) + n) i j
audit_page-AuditsPages v address n i j room a = elim (Bool-cases (is_mapped v address)) [
  | inl m ↦ record {
    issues_added = ground (arith, m, a.issues_added);
    same_used = ground (arith, m, a.same_used);
    same_free = ground (arith, m, a.same_free);
  }
  | inr m ↦ record {
    issues_added = ground (arith, m, a.issues_added, room);
    same_used = ground (arith, m, a.same_used);
    same_free = ground (arith, m, a.same_free);
  }
]

audit_page-issues :
    (v : Vmm) (address k : ℕ) (i : HeapAudit)
    → i.issues_found + suc k < 2 ^ 32
    → (audit_page v address i).issues_found + k < 2 ^ 32
audit_page-issues v address k i room = ground (arith, room)

audit_pages-AuditsPages :
    (fuel k : ℕ) (h : Heap) (address : ℕ) (i : HeapAudit)
    → k ≤ fuel
    → h.stats.next_virtual_page ≡ address + 4096 * k
    → h.stats.next_virtual_page ≤ 0xC2000000
    → i.issues_found + k < 2 ^ 32
    → AuditsPages (unmapped_pages k h.vmm address) i (audit_pages fuel h address i)
unfolding audit_pages
audit_pages-AuditsPages zero zero h address i le e high room = record {
  issues_added = omega arith;
  same_used = refl;
  same_free = refl;
}
audit_pages-AuditsPages zero (suc k) h address i le e high room = absurd (omega (arith, le))
audit_pages-AuditsPages (suc fuel) zero h address i le e high room =
    let last : not (ltb address h.stats.next_virtual_page) ≡ true = ground (arith, e) in
    rw last (record { issues_added = omega arith; same_used = refl; same_free = refl })
audit_pages-AuditsPages (suc fuel) (suc k) h address i le e high room =
    let more : not (ltb address h.stats.next_virtual_page) ≡ false = ground (arith, e) in
    let next : add32 address 4096 ≡ address + 4096 = omega (arith, e, high) in
    rw more (
      rw next (
        audit_page-AuditsPages h.vmm address (unmapped_pages k h.vmm (address + 4096)) i
          (audit_pages fuel h (address + 4096) (audit_page h.vmm address i)) (omega (arith, room))
          (audit_pages-AuditsPages fuel k h (address + 4096) (audit_page h.vmm address i)
            (omega (arith, le)) (omega (arith, e)) high
            (audit_page-issues h.vmm address k i room))))

compare_totals-issues :
    (s : HeapStats) (i : HeapAudit)
    → i.calculated_used_bytes ≡ s.used_bytes
    → i.calculated_free_bytes ≡ s.free_bytes
    → (compare_totals s i).issues_found ≡ i.issues_found
compare_totals-issues s i u f = ground (arith, u, f)

-- The number of pages that the heap has mapped.
abbrev pub heap_pages : Heap → ℕ
heap_pages h = (h.stats.next_virtual_page - h.stats.virtual_start) / 4096

-- On a valid initialized heap of at most 4096 blocks, of which the statistics are right, `heap_audit`
-- finds one issue for each page of the heap that is not mapped, and no other.
pub audit_lem :
    (h : Heap) (old : HeapAudit)
    → IsValid h
    → h.stats.initialized ≡ true
    → length h.blocks ≤ 4096
    → IsCounted h
    → (audit h old).issues_found ≡ unmapped_pages (heap_pages h) h.vmm h.stats.virtual_start
unfolding audit
audit_lem h old v init few c =
    let i = clear_audit_snapshot (record old { audits_run = inc32 old.audits_run }) in
    let j = audit_blocks 4096 h.stats h.blocks 0 i in
    let start = h.stats.virtual_start in
    let k = audit_pages 4096 h start j in
    let bs =
      audit_blocks-AuditsBlocks 4096 h.stats 0xC1000000 h.blocks h.stats.next_virtual_page 0 i
        v.range (omega arith) refl v.high few (omega arith) v.tiles
        (record { used_room = omega (arith, v.high); free_room = omega (arith, v.high) }) in
    let ps =
      audit_pages-AuditsPages 4096 (heap_pages h) h start j
        (omega (arith, v.high, v.range.start_range))
        (omega (arith, v.low, v.page, v.range.start_range)) v.high
        (omega (arith, bs.same_issues, v.high, v.range.start_range)) in
    ap (λ (x : HeapAudit). x.issues_found)
      (if_false (not h.stats.initialized) (record_out_of_range i) (compare_totals h.stats k)
        (ap not init))
    ∙ (compare_totals-issues h.stats k (omega (arith, ps.same_used, bs.used_added, c.used_counted))
          (omega (arith, ps.same_free, bs.free_added, c.free_counted))
        ∙ omega (arith, ps.issues_added, bs.same_issues))
