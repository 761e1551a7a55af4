-- ===== src/Pmm/Initialize.antt =====
-- What `pmm_initialize` sets up from the boot memory map, and that its loop ends.
use liam_os.Base.{
  Bool-cases, Option, add32, arith, inl, inr, ltb, none, page_size, refl, some, subst, suc, tests,
  true, zero, ℕ, ◌%◌, ◌+◌, ◌-◌, ◌<◌, ◌^◌, ◌≡◌, ◌≢◌, ◌≤◌, ◌⊎◌,
}
use liam_os.Pmm.Invariant.{IsValid}
use liam_os.Pmm.Regions.{
  EndsLow, HasRoom, LiesIn, Reaches, entry_at, region_end, scan-LiesIn, scan-finds,
}
use liam_os.Pmm.{
  BootInfo, MapEntry, Pmm, add_region, align_up, initialize, one_mib, reset, scan, usable_base,
}

-- An untouched region: nothing handed out, page-aligned, and clear of the kernel's image unless the
-- whole region lies below the image's end.
pub record IsFresh (kernel_end : ℕ) (p : Pmm) : Type 0 where
  pub start_aligned : p.allocation_start % page_size ≡ 0
  pub next_eq : p.next_free_page ≡ p.allocation_start
  pub unallocated : p.allocated_pages ≡ 0
  pub empty : p.free_stack_count ≡ 0
  pub chosen :
      (p.allocation_start ≡ 0)
      ⊎ ((one_mib ≤ p.allocation_start) × (p.allocation_start < p.allocation_end))
  pub above_kernel :
      p.allocation_start ≢ 0 → kernel_end < p.allocation_end → kernel_end ≤ p.allocation_start
  pub end_small : p.allocation_end < 2 ^ 32 - page_size

reset-IsFresh : (kernel_end : ℕ) (p : Pmm) → IsFresh kernel_end (reset p)
unfolding reset
reset-IsFresh kernel_end p = ground arith

usable_base_lem :
    (kernel_end base region_end : ℕ)
    → kernel_end % page_size ≡ 0
    → base < 2 ^ 32
    → region_end < 2 ^ 32
    → one_mib ≤ usable_base kernel_end base region_end
    → (usable_base kernel_end base region_end % page_size ≡ 0)
      × (kernel_end < region_end → kernel_end ≤ usable_base kernel_end base region_end)
unfolding usable_base
usable_base_lem kernel_end base region_end k b r h = ground arith

add_region-IsFresh :
    (kernel_end : ℕ) (e : MapEntry) (p : Pmm)
    → kernel_end % page_size ≡ 0
    → EndsLow e
    → IsFresh kernel_end p
    → IsFresh kernel_end (add_region kernel_end e p)
unfolding add_region
add_region-IsFresh kernel_end e p k low f = ground (
  arith,
  f.above_kernel,
  usable_base_lem kernel_end (e.base_addr % 2 ^ 32)
      (add32 (e.base_addr % 2 ^ 32) (e.length % 2 ^ 32)) k,
)

-- Every entry that the loop reads ends low.
scan-IsFresh :
    (fuel : ℕ) (memory : ℕ → MapEntry) (kernel_end current end : ℕ) (p : Pmm) {q : Pmm}
    → kernel_end % page_size ≡ 0
    → ((a : ℕ) → EndsLow (memory a))
    → IsFresh kernel_end p
    → scan fuel memory kernel_end current end p ≡ some q
    → IsFresh kernel_end q
unfolding scan
scan-IsFresh zero memory kernel_end current end p k low f h = cc
scan-IsFresh (suc fuel) memory kernel_end current end p {q} k low f h =
    elim (Bool-cases (ltb current end)) [
      | inl more ↦
          scan-IsFresh fuel memory kernel_end _ end _ k low
            (add_region-IsFresh kernel_end (memory current) p k (low current) f) (rw more at h)
      | inr done ↦ let e : p ≡ q = ground arith in subst (IsFresh kernel_end) e f
    ]

-- The loop ends when no entry of the map makes `current` wrap round.
scan_total :
    (fuel : ℕ) (memory : ℕ → MapEntry) (kernel_end current end : ℕ) (p : Pmm)
    → ((a : ℕ) → a < end → a + (memory a).size + 4 < 2 ^ 32)
    → end - current < fuel
    → (q : Pmm) × (scan fuel memory kernel_end current end p ≡ some q)
unfolding scan
scan_total zero memory kernel_end current end p fits enough = absurd (omega arith)
scan_total (suc fuel) memory kernel_end current end p fits enough =
    elim (Bool-cases (ltb current end)) [
      | inl more ↦
          rw more
            (scan_total fuel memory kernel_end _ end _ fits (omega (tests, more, fits current)))
      | inr done ↦ (p, rw done)
    ]

pub IsFresh-IsValid : {kernel_end : ℕ} {p : Pmm} → IsFresh kernel_end p → IsValid p
IsFresh-IsValid {p = p} f = record {
  start_aligned = f.start_aligned;
  next_aligned = omega arith;
  start_le_next = omega arith;
  next_le_end = omega arith;
  end_small = omega arith;
  started = λ e. omega arith;
  count_le = omega arith;
  counts = omega arith;
  in_range = λ i h. absurd (omega arith);
  distinct = λ i j h k e. absurd (omega arith);
}

align_up-aligned : (a : ℕ) → align_up a % page_size ≡ 0
unfolding align_up
align_up-aligned a = omega arith

-- What `pmm_initialize` makes of the map of the boot information `b`.
abbrev pub FromMap : (ℕ → MapEntry) → ℕ → BootInfo → Pmm → Type 0
FromMap memory kernel_end b q =
    let start = b.memory_map_address in
    let end = add32 b.memory_map_address b.memory_map_length in
    (q.allocation_start ≢ 0
      → (k : ℕ) × Reaches memory start end k × LiesIn q (memory (entry_at memory start k)))
    × ((k page : ℕ)
        → Reaches memory start end k
        → HasRoom kernel_end (memory (entry_at memory start k)) page
        → q.allocation_start ≢ 0)

-- If every region of the map ends at least a page below 4 GiB and `pmm_initialize` returns, then the
-- allocator starts valid and untouched: with no region (a start of 0), or with one that starts on a
-- page boundary at 1 MiB or above, clear of the kernel's image unless it ends below that. A region
-- lies in an entry of the map that is usable memory and ends with it; and there is one if some usable
-- entry of the map holds a page boundary at 1 MiB or above and behind the kernel's image.
pub initialize-IsFresh :
    (fuel : ℕ) (memory : ℕ → MapEntry) (kernel_end_address : ℕ) (boot : Option BootInfo) (p : Pmm)
    {q : Pmm}
    → ((a : ℕ) → EndsLow (memory a))
    → initialize fuel memory kernel_end_address boot p ≡ some q
    → IsFresh (align_up kernel_end_address) q
      × IsValid q
      × ((b : BootInfo)
          → boot ≡ some b
          → b.has_memory_map ≡ true
          → FromMap memory (align_up kernel_end_address) b q)
unfolding initialize
initialize-IsFresh fuel memory kernel_end_address boot p {q} low h =
    let f = fresh boot h in (f, IsFresh-IsValid f, from_map)
  where
    fresh :
        (b : Option BootInfo)
        → initialize fuel memory kernel_end_address b p ≡ some q
        → IsFresh (align_up kernel_end_address) q
    fresh none h =
        let e : reset p ≡ q = ground arith in
        subst (IsFresh (align_up kernel_end_address)) e (reset-IsFresh _ p)
    fresh (some b) h = elim (Bool-cases b.has_memory_map) [
      | inl has ↦
          scan-IsFresh fuel memory _ _ _ _ (align_up-aligned kernel_end_address) low
            (reset-IsFresh _ p) (rw has at h)
      | inr without ↦
          let e : reset p ≡ q = ground arith in
          subst (IsFresh (align_up kernel_end_address)) e (reset-IsFresh _ p)
    ]

    from_map :
        (b : BootInfo)
        → boot ≡ some b
        → b.has_memory_map ≡ true
        → FromMap memory (align_up kernel_end_address) b q
    from_map b e has =
        let h' : initialize fuel memory kernel_end_address (some b) p ≡ some q =
          subst (λ o. initialize fuel memory kernel_end_address o p ≡ some q) e h in
        let run = rw has at h' in
        (
          scan-LiesIn fuel memory _ _ _ (reset p) low (unfold reset in refl) run,
          scan-finds fuel memory _ _ _ (reset p) (align_up-aligned kernel_end_address) low run,
        )

-- `pmm_initialize` returns: its loop over the map takes at most `memory_map_length` rounds, if
-- stepping over an entry never wraps round the address space.
pub initialize_total :
    (fuel : ℕ) (memory : ℕ → MapEntry) (kernel_end_address : ℕ) (boot : BootInfo) (p : Pmm)
    → ((a : ℕ)
        → a < add32 boot.memory_map_address boot.memory_map_length
        → a + (memory a).size + 4 < 2 ^ 32)
    → boot.memory_map_length < fuel
    → (q : Pmm) × (initialize fuel memory kernel_end_address (some boot) p ≡ some q)
unfolding initialize
initialize_total fuel memory kernel_end_address boot p fits enough =
    elim (Bool-cases boot.has_memory_map) [
      | inl has ↦ rw has (scan_total fuel memory _ _ _ _ fits (omega arith))
      | inr without ↦ (reset p, rw without)
    ]
