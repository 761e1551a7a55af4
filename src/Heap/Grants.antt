-- ===== src/Heap/Grants.antt =====
-- `kmalloc` of core/kernel/memory/heap.c on a valid heap.
use liam_os.Base.{
  List, Option, arith, if_cases, inl, inr, length, none, not, refl, some, subst, suc, sym, zero, ℕ,
  ◌%◌, ◌*◌, ◌+◌, ◌-◌, ◌<◌, ◌==◌, ◌^◌, ◌||◌, ◌∙◌, ◌≡◌, ◌≤◌, ◌⊎◌,
}
use liam_os.Heap.{Block, Heap, align_up8, max_audit_blocks, recalculate_stats}
use liam_os.Heap.Growth.{grow}
use liam_os.Heap.Operations.{
  Walk, after_walk, fail_allocation, find_fit, finish_allocation, insane, kmalloc, missed, taken,
}
use liam_os.Heap.Tiles.{live}
use liam_os.Heap.Validity.{IsValid, recalculate_stats-HasSameRange, retiled}
use liam_os.Heap.Growing.{grow_lem}
use liam_os.Heap.Counted.{IsCounted, recalculate_stats-IsCounted}
use liam_os.Heap.Allocation.{Fits, Granted, find_fit-Fits}

-- What an allocation owes: a null pointer and the same live payloads, or a new live payload. A
-- `kmalloc` that does not return owes what cannot be.
abbrev pub Allocates : Heap → ℕ → Option (ℕ × Heap) → Type 0
Allocates h size none = ⊥
Allocates h size (some (p, g)) =
    IsValid g
    × (((p ≡ 0) × ((q : ℕ) → live g.blocks q ≡ live h.blocks q))
        ⊎ ((n : ℕ) × Granted h.blocks size 0xC1000000 g.stats.next_virtual_page p n g.blocks
            × (length g.blocks ≤ 4096 → IsCounted g)))

fail_allocation-Allocates :
    (h : Heap) (size : ℕ) → IsValid h → Allocates h size (some (fail_allocation h))
fail_allocation-Allocates h size i = (
  retiled h ((fail_allocation h).1) i
      (record { same_start = refl; same_end = refl; same_next = refl; same_total = refl }) i.tiles,
  inl (refl, λ q. refl),
)

finish_allocation-Allocates :
    (h : Heap) (size p : ℕ) (bs : List Block)
    → IsValid h
    → Fits h.blocks size 0xC1000000 h.stats.next_virtual_page (taken p bs)
    → Allocates h size (some (finish_allocation h p bs))
finish_allocation-Allocates h size p bs i (t, n, g) =
    let same = recalculate_stats-HasSameRange h.stats bs in
    let j : IsValid (record h { blocks = bs }) =
      retiled h (record h { blocks = bs }) i
        (record { same_start = refl; same_end = refl; same_next = refl; same_total = refl }) t in
    (
      retiled h (record h { blocks = bs; stats = recalculate_stats h.stats bs }) i same t,
      inr (
        n,
        subst (λ x. Granted h.blocks size 0xC1000000 x p n bs) (sym same.same_next) g,
        λ few. recalculate_stats-IsCounted (record h { blocks = bs }) j few,
      ),
    )

-- What was live before the heap grew is what was live before the call.
after_growth :
    (h g : Heap) (size : ℕ) (r : Option (ℕ × Heap))
    → ((q : ℕ) → live g.blocks q ≡ live h.blocks q)
    → Allocates g size r
    → Allocates h size r
after_growth h g size none l a = a
after_growth h g size (some (p, k)) l (i, inl (e, same)) = (i, inl (e, λ q. same q ∙ l q))
after_growth h g size (some (p, k)) l (i, inr (n, m, counted)) = (
  i,
  inr (
    n,
    record {
      enough = m.enough;
      above = m.above;
      below = m.below;
      aligned = m.aligned;
      fresh = sym (l p) ∙ m.fresh;
      granted = λ q. rw (sym (l q)) (m.granted q);
    },
    counted,
  ),
)

after_walk-Allocates :
    (h : Heap) (size : ℕ) (again : Heap → Option (ℕ × Heap)) (w : Walk)
    → IsValid h
    → ((g : Heap)
        → IsValid g
        → h.stats.next_virtual_page + 4096 ≤ g.stats.next_virtual_page
        → Allocates g size (again g))
    → Fits h.blocks size 0xC1000000 h.stats.next_virtual_page w
    → Allocates h size (after_walk h size again w)
unfolding after_walk
after_walk-Allocates h size again insane i more f = absurd f
after_walk-Allocates h size again (taken p bs) i more f =
    finish_allocation-Allocates h size p bs i f
after_walk-Allocates h size again missed i more f =
    let (done, g) = grow h size in
    let (j, l, grown) = grow_lem h size i in
    if_cases (Allocates h size) (not done)
      (λ _. after_growth h g size (some (fail_allocation g)) l (fail_allocation-Allocates g size j))
      (λ d. after_growth h g size (again g) l (more g j (grown (ground (arith, d)))))

-- A size that is a multiple of 8 already.
kmalloc_aligned :
    (fuel : ℕ) (h : Heap) (size : ℕ)
    → IsValid h
    → size % 8 ≡ 0
    → size < 2 ^ 32
    → 0xC2000000 < h.stats.next_virtual_page + fuel * 4096
    → Allocates h size (kmalloc fuel h size)
unfolding kmalloc
kmalloc_aligned zero h size i al small f = absurd (omega (arith, f, i.high))
kmalloc_aligned (suc fuel) h size i al small f =
    let same : align_up8 size ≡ size = omega (arith, al, small) in
    if_cases (Allocates h size) (not h.stats.initialized || (size == 0))
      (λ _. fail_allocation-Allocates h size i)
      (λ e. rw same (
        after_walk-Allocates h size (λ g. kmalloc fuel g size)
          (find_fit max_audit_blocks h.stats h.blocks size) i
          (λ g j more. kmalloc_aligned fuel g size j al small (omega (arith, f, more)))
          (find_fit-Fits max_audit_blocks h.stats 0xC1000000 h.blocks h.stats.next_virtual_page size
            i.range (omega arith) refl i.high al (ground (arith, e)) i.tiles)))

-- On a valid heap, `kmalloc` of fewer than 2 ^ 32 - 7 bytes returns, with more fuel than the heap has
-- pages left. It leaves a valid heap. Either it returns null and the live payloads are the same, or it
-- returns a pointer to a payload that is as large as the size rounded up to a multiple of 8, is
-- aligned to 8, lies inside the heap's pages and was not live; then this payload is live, and all
-- others are live, with their sizes, as before; and if the chain has at most 4096 blocks, then the
-- statistics count them.
pub kmalloc_lem :
    (fuel : ℕ) (h : Heap) (size : ℕ)
    → IsValid h
    → size < 2 ^ 32 - 7
    → 0xC2000000 < h.stats.next_virtual_page + fuel * 4096
    → Allocates h (align_up8 size) (kmalloc fuel h size)
unfolding kmalloc
kmalloc_lem zero h size i small f = absurd (omega (arith, f, i.high))
kmalloc_lem (suc fuel) h size i small f =
    let up = align_up8 size in
    let al : up % 8 ≡ 0 = omega (arith, small) in
    if_cases (Allocates h up) (not h.stats.initialized || (size == 0))
      (λ _. fail_allocation-Allocates h up i)
      (λ e.
        after_walk-Allocates h up (λ g. kmalloc fuel g up)
          (find_fit max_audit_blocks h.stats h.blocks up) i
          (λ g j more.
            kmalloc_aligned fuel g up j al (omega (arith, small)) (omega (arith, f, more)))
          (find_fit-Fits max_audit_blocks h.stats 0xC1000000 h.blocks h.stats.next_virtual_page up
            i.range (omega arith) refl i.high al (ground (arith, e, small)) i.tiles))
