-- ===== src/Pmm/Invariant.antt =====
-- The allocator's invariant, kept by `pmm_alloc_page` and `pmm_free_page`.
use liam_os.Base.{
  ==→≢, Bool, Bool-cases, add32, arith, false, if◌then◌else◌, inc32, inl, inr, leb, ltb, not,
  page_size, pigeonhole, tests, update, ℕ, ◌%◌, ◌&&◌, ◌*◌, ◌+◌, ◌-◌, ◌/◌, ◌<◌, ◌==◌, ◌^◌, ◌≡◌, ◌≢◌,
  ◌≤◌, ◌⊎◌,
}
use liam_os.Pmm.{Pmm, alloc_page, capacity, free_page, free_stack_contains, rejects}
use liam_os.Pmm.Stack.{contains_from_complete}

pub record IsValid (p : Pmm) : Type 0 where
  pub start_aligned : p.allocation_start % page_size ≡ 0
  pub next_aligned : p.next_free_page % page_size ≡ 0
  pub start_le_next : p.allocation_start ≤ p.next_free_page
  pub next_le_end : p.next_free_page ≤ p.allocation_end
  pub end_small : p.allocation_end + page_size < 2 ^ 32
  pub started : p.allocation_start ≡ 0 → p.next_free_page ≡ 0
  pub count_le : p.free_stack_count ≤ capacity
  pub counts :
      p.next_free_page ≡ p.allocation_start + page_size * (p.allocated_pages + p.free_stack_count)
  pub in_range :
      (i : ℕ)
      → i < p.free_stack_count
      → (p.allocation_start ≤ p.free_stack i)
        × (p.free_stack i < p.next_free_page)
        × (p.free_stack i % page_size ≡ 0)
  pub distinct :
      (i j : ℕ)
      → i < p.free_stack_count
      → j < p.free_stack_count
      → p.free_stack i ≡ p.free_stack j
      → i ≡ j

-- A page that a client holds: cut from the region and not in the free stack.
abbrev pub is_out : Pmm → ℕ → Bool
is_out p page =
    (leb p.allocation_start page && ltb page p.next_free_page)
    && ((page % page_size == 0) && not (free_stack_contains p page))

abbrev pub popped : Pmm → Pmm
popped p = record p {
  free_stack_count = p.free_stack_count - 1;
  allocated_pages = inc32 p.allocated_pages;
}

abbrev pub bumped : Pmm → Pmm
bumped p = record p {
  next_free_page = add32 p.next_free_page page_size;
  allocated_pages = inc32 p.allocated_pages;
}

-- The cases of `pmm_alloc_page`: from the stack, out of memory, from the region.
pub alloc_page_cases {ℓ} :
    (P : ℕ × Pmm → Type ℓ) (p : Pmm)
    → (0 < p.free_stack_count → P (p.free_stack (p.free_stack_count - 1), popped p))
    → (p.free_stack_count ≡ 0
        → (p.next_free_page ≡ 0) ⊎ (p.allocation_end < add32 p.next_free_page page_size)
        → P (0, p))
    → (p.free_stack_count ≡ 0
        → p.next_free_page ≢ 0
        → add32 p.next_free_page page_size ≤ p.allocation_end
        → P (p.next_free_page, bumped p))
    → P (alloc_page p)
unfolding alloc_page
alloc_page_cases P p pop fail bump = elim (Bool-cases (ltb 0 p.free_stack_count)) [
  | inl more ↦ rw more (pop (omega (tests, more)))
  | inr empty ↦ rw empty (elim (Bool-cases (p.next_free_page == 0)) [
    | inl unset ↦ rw unset (fail (omega (tests, empty)) (inl (omega (tests, unset))))
    | inr usable ↦
        rw usable (elim (Bool-cases (ltb p.allocation_end (add32 p.next_free_page page_size))) [
          | inl used_up ↦ rw used_up (fail (omega (tests, empty)) (inr (omega (tests, used_up))))
          | inr room ↦ rw room (bump (omega (tests, empty)) (==→≢ _ _ usable) (omega (tests, room)))
        ])
  ])
]

module _ {p : Pmm} (v : IsValid p) where
  -- The page on top of the free stack is one that no client holds.
  pub top_not_out :
      0 < p.free_stack_count → is_out p (p.free_stack (p.free_stack_count - 1)) ≡ false
  unfolding free_stack_contains
  top_not_out h = ground (
    arith,
    contains_from_complete p.free_stack 0 p.free_stack_count (p.free_stack_count - 1) (omega arith)
        (omega arith),
  )

  -- The seven refusals of `pmm_free_page` come to this: the page is not out, or the stack is full.
  pub rejects_lem :
      (page : ℕ) → rejects p page ≡ not (is_out p page && ltb p.free_stack_count capacity)
  unfolding rejects
  rejects_lem page = ground (arith, v.started)

  -- `pmm_alloc_page` keeps the invariant.
  pub alloc_page-IsValid : IsValid (alloc_page p).1
  alloc_page-IsValid =
      alloc_page_cases (λ r. IsValid r.1) p
        (λ more. record {
          start_aligned = v.start_aligned;
          next_aligned = v.next_aligned;
          start_le_next = v.start_le_next;
          next_le_end = v.next_le_end;
          end_small = v.end_small;
          started = v.started;
          count_le = omega arith;
          counts = omega arith;
          in_range = λ i h. v.in_range i (omega arith);
          distinct = λ i j h k e. v.distinct i j (omega arith) (omega arith) e;
        })
        (λ empty full. v)
        (λ empty usable room. record {
          start_aligned = v.start_aligned;
          next_aligned = omega arith;
          start_le_next = omega arith;
          next_le_end = room;
          end_small = v.end_small;
          started = λ e. absurd (usable (v.started e));
          count_le = v.count_le;
          counts = omega arith;
          in_range = λ i h. absurd (omega arith);
          distinct = λ i j h k e. absurd (omega arith);
        })

  pushed_in_range :
      (page i : ℕ)
      → rejects p page ≡ false
      → i < p.free_stack_count + 1
      → let stack = update p.free_stack p.free_stack_count page in
        (p.allocation_start ≤ stack i) × (stack i < p.next_free_page) × (stack i % page_size ≡ 0)
  unfolding rejects
  pushed_in_range page i taken h = ground (arith, v.in_range i)

  pushed_distinct :
      (page i j : ℕ)
      → rejects p page ≡ false
      → i < p.free_stack_count + 1
      → j < p.free_stack_count + 1
      → let stack = update p.free_stack p.free_stack_count page in stack i ≡ stack j → i ≡ j
  unfolding rejects free_stack_contains
  pushed_distinct page i j taken h k e = ground (
    arith,
    v.distinct i j,
    contains_from_complete p.free_stack 0 p.free_stack_count i,
    contains_from_complete p.free_stack 0 p.free_stack_count j,
  )

  -- While a page is out, the allocator counts at least one page as allocated.
  pub allocated_pos : (page : ℕ) → rejects p page ≡ false → 0 < p.allocated_pages
  allocated_pos page taken = elim (Bool-cases (ltb 0 p.allocated_pages)) [
    | inl pos ↦ omega (tests, pos)
    | inr none_left ↦ absurd (
        pigeonhole p.free_stack_count
          (λ i. (update p.free_stack p.free_stack_count page i - p.allocation_start) / page_size)
          (λ i j h k e. pushed_distinct page i j taken (omega arith) (omega arith) (
            omega (
              arith,
              v.start_aligned,
              pushed_in_range page i taken (omega arith),
              pushed_in_range page j taken (omega arith),
              e,
            )))
          (λ i h. omega (tests, v.counts, none_left, pushed_in_range page i taken (omega arith))))
  ]

  count_pushed : (page : ℕ) → rejects p page ≡ false → p.free_stack_count + 1 ≤ capacity
  unfolding rejects
  count_pushed page taken = ground arith

  counts_pushed :
      (page : ℕ)
      → rejects p page ≡ false
      → p.next_free_page
        ≡ p.allocation_start
          + page_size
            * ((if ltb 0 p.allocated_pages then p.allocated_pages - 1 else p.allocated_pages)
                + (p.free_stack_count + 1))
  counts_pushed page taken = ground (arith, allocated_pos page taken, v.counts)

  -- `pmm_free_page` keeps a valid allocator valid, whatever address it is given.
  pub free_page-IsValid : (page : ℕ) → IsValid (free_page p page)
  unfolding free_page
  free_page-IsValid page = elim (Bool-cases (rejects p page)) [
    | inl refused ↦ rw refused v
    | inr taken ↦ rw taken (record {
      start_aligned = v.start_aligned;
      next_aligned = v.next_aligned;
      start_le_next = v.start_le_next;
      next_le_end = v.next_le_end;
      end_small = v.end_small;
      started = v.started;
      count_le = count_pushed page taken;
      counts = counts_pushed page taken;
      in_range = λ i h. pushed_in_range page i taken h;
      distinct = λ i j h k e. pushed_distinct page i j taken h k e;
    })
  ]
