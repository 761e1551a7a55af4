-- ===== src/Pmm/Available.antt =====
-- The pages that the allocator may still hand out, for the clients that must keep theirs apart.
use liam_os.Base.{
  Bool, arith, false, if◌then◌else◌, leb, ltb, not, page_size, refl, true, ℕ, ◌%◌, ◌&&◌, ◌-◌, ◌<◌,
  ◌==◌, ◌≡◌, ◌≢◌, ◌≤◌,
}
use liam_os.Pmm.{Pmm, alloc_page}
use liam_os.Pmm.Invariant.{IsValid, alloc_page_cases, is_out}
use liam_os.Pmm.Ownership.{is_out-alloc_page}

abbrev pub is_available : Pmm → ℕ → Bool
is_available p page =
    (leb p.allocation_start page && ltb page p.allocation_end) && not (is_out p page)

alloc_page_bounds :
    (p : Pmm)
    → IsValid p
    → (alloc_page p).0 ≢ 0
    → (p.allocation_start ≤ (alloc_page p).0)
      × ((alloc_page p).0 < p.allocation_end)
      × ((alloc_page p).0 % page_size ≡ 0)
      × ((alloc_page p).1.allocation_start ≡ p.allocation_start)
      × ((alloc_page p).1.allocation_end ≡ p.allocation_end)
alloc_page_bounds p v =
    alloc_page_cases
      (λ r.
        r.0 ≢ 0
        → (p.allocation_start ≤ r.0)
          × (r.0 < p.allocation_end)
          × (r.0 % page_size ≡ 0)
          × (r.1.allocation_start ≡ p.allocation_start)
          × (r.1.allocation_end ≡ p.allocation_end))
      p (λ more _. omega (arith, v.in_range (p.free_stack_count - 1))) (λ _ _ h. absurd (h refl))
      (λ empty usable room _. omega arith)

-- What is handed out was available, on a page boundary; no other page becomes available.
pub is_available-alloc_page :
    (p : Pmm) (page : ℕ)
    → IsValid p
    → (alloc_page p).0 ≢ 0
    → (is_available p (alloc_page p).0 ≡ true)
      × ((alloc_page p).0 % page_size ≡ 0)
      × (is_available (alloc_page p).1 page
          ≡ (if page == (alloc_page p).0 then false else is_available p page))
is_available-alloc_page p page v h =
    let b = alloc_page_bounds p v h in
    let o = is_out-alloc_page p page v h in
    (ground (arith, b, o.0), b.2, ground (arith, b.3, b.4, o.1, b.0, b.1))
