-- ===== src/Pmm/Tests.antt =====
-- Runs of pmm.c's functions, and its theorems at concrete inputs.
use liam_os.Base.{[], arith, false, refl, some, true, ℕ, ◌∷◌, ◌≡◌}
use liam_os.Pmm.Invariant.{IsValid, free_page-IsValid, is_out}
use liam_os.Pmm.Ownership.{
  Disjoint, Frees, alloc, free, free_page-Frees, is_out-alloc_page, run, run-Disjoint,
}
use liam_os.Pmm.Initialize.{FromMap, initialize-IsFresh, initialize_total}
use liam_os.Pmm.{
  BootInfo, MapEntry, Pmm, add_region, align_up, alloc_page, free_page, initialize, scan,
}

-- Two pages of four handed out; the second came back.
abbrev used : Pmm
used = record {
  total_regions = 1;
  usable_regions = 1;
  reserved_regions = 0;
  usable_memory_bytes = 0x4000;
  allocation_start = 0x100000;
  allocation_end = 0x104000;
  next_free_page = 0x102000;
  allocated_pages = 1;
  free_stack_count = 1;
  free_stack = λ _. 0x101000;
}

used-IsValid : IsValid used
used-IsValid = record {
  start_aligned = refl;
  next_aligned = refl;
  start_le_next = omega arith;
  next_le_end = omega arith;
  end_small = omega arith;
  started = λ e. omega arith;
  count_le = omega arith;
  counts = refl;
  in_range = λ i h. (omega arith, omega arith, refl);
  distinct = λ i j h k e. omega arith;
}

-- A map with one usable region of 4 MiB at 0, at address 0x9000.
abbrev boot : BootInfo
boot = record { has_memory_map = true; memory_map_address = 0x9000; memory_map_length = 24 }

abbrev memory : ℕ → MapEntry
memory a = record { size = 20; base_addr = 0; length = 0x400000; type = 1 }

abbrev booted : Pmm
booted = record used {
  usable_memory_bytes = 0x400000;
  allocation_start = 0x201000;
  allocation_end = 0x400000;
  next_free_page = 0x201000;
  allocated_pages = 0;
  free_stack_count = 0;
}

alloc_order :
    ((alloc_page used).0 ≡ 0x101000)
    × ((alloc_page (alloc_page used).1).0 ≡ 0x102000)
    × ((alloc_page (alloc_page (alloc_page (alloc_page used).1).1).1).0 ≡ 0)
unfolding alloc_page
alloc_order = (refl, refl, refl)

boots : initialize 30 memory 0x200001 (some boot) used ≡ some booted
unfolding initialize scan add_region
boots = refl

is_out-alloc_page_example :
    (is_out used (alloc_page used).0 ≡ false) × (is_out (alloc_page used).1 0x101000 ≡ true)
unfolding alloc_page
is_out-alloc_page_example = is_out-alloc_page used 0x101000 used-IsValid (λ e. omega (arith, e))

free_page-Frees_example : Frees used 0x100000 (free_page used 0x100000)
free_page-Frees_example = free_page-Frees used 0x100000 used-IsValid

free_page-IsValid_example : IsValid (free_page used 0x100000)
free_page-IsValid_example = free_page-IsValid used-IsValid 0x100000

run-Disjoint_example : Disjoint (run (alloc ∷ free 0x101000 ∷ alloc ∷ alloc ∷ []) (used, []))
run-Disjoint_example =
    run-Disjoint (alloc ∷ free 0x101000 ∷ alloc ∷ alloc ∷ []) (used, [])
      (record { valid = used-IsValid; distinct = tt; out = λ page h. cc })

initialize-IsFresh_example : FromMap memory (align_up 0x200001) boot booted
unfolding initialize scan add_region
initialize-IsFresh_example =
    (initialize-IsFresh 30 memory 0x200001 (some boot) used (λ a. omega arith) refl).2 boot refl
      refl

initialize_total_example : (q : Pmm) × (initialize 30 memory 0x200001 (some boot) used ≡ some q)
initialize_total_example =
    initialize_total 30 memory 0x200001 boot used (λ a h. omega arith) (omega arith)
