-- ===== src/Pmm/Ownership.antt =====
-- Who holds a page: `pmm_alloc_page` and `pmm_free_page` against the set of the pages that are out,
-- and a client that frees only what it holds.
use liam_os.Base.{
  ==→≡, ==→≢, Bool, Bool-cases, List, [], arith, false, if◌then◌else◌, inl, inr, ltb, page_size,
  refl, true, ℕ, ◌&&◌, ◌+◌, ◌-◌, ◌<◌, ◌==◌, ◌↔◌, ◌∷◌, ◌≡◌, ◌≢◌, ◌≤◌, ◌⊎◌,
}
use liam_os.Pmm.{Pmm, alloc_page, capacity, contains_from, free_page, free_stack_contains, rejects}
use liam_os.Pmm.Stack.{contains_from-pred, contains_from-push, contains_from_sound}
use liam_os.Pmm.Invariant.{
  IsValid, alloc_page-IsValid, alloc_page_cases, allocated_pos, bumped, free_page-IsValid, is_out,
  popped, rejects_lem, top_not_out,
}

module _ {p : Pmm} (v : IsValid p) where
  -- What the stack holds lies in the part of the region that was handed out before.
  contains_bounds :
      (page : ℕ)
      → contains_from p.free_stack 0 p.free_stack_count page ≡ true
      → (p.allocation_start ≤ page) × (page < p.next_free_page)
  contains_bounds page h =
      let r = contains_from_sound p.free_stack 0 p.free_stack_count page h in
      rw (← r.3) (omega (arith, v.in_range r.0, r.2))

  -- The top page does not occur again below.
  top_once :
      0 < p.free_stack_count
      → contains_from p.free_stack 0
          (p.free_stack_count - 1)
          (p.free_stack (p.free_stack_count - 1))
        ≡ false
  top_once h = elim (Bool-cases again) [
    | inl e ↦
        let r = contains_from_sound p.free_stack 0 (p.free_stack_count - 1) _ e in
        absurd (
          omega (
            arith,
            r.2,
            v.distinct r.0 (p.free_stack_count - 1) (omega (arith, r.2)) (omega arith) r.3,
          ))
    | inr e ↦ e
  ]
    where
      again : Bool
      again =
          contains_from p.free_stack 0 (p.free_stack_count - 1)
            (p.free_stack (p.free_stack_count - 1))

  is_out-popped :
      (page : ℕ)
      → 0 < p.free_stack_count
      → is_out (popped p) page
        ≡ (if page == p.free_stack (p.free_stack_count - 1) then true else is_out p page)
  unfolding free_stack_contains
  is_out-popped page h = ground (
    arith,
    contains_from-pred p.free_stack p.free_stack_count page h,
    top_once h,
    v.in_range (p.free_stack_count - 1),
  )

  is_out-bumped :
      (page : ℕ)
      → p.next_free_page ≢ 0
      → is_out (bumped p) page ≡ (if page == p.next_free_page then true else is_out p page)
  unfolding free_stack_contains
  is_out-bumped page n = ground (arith, contains_bounds page)

-- In a valid state, a page that is handed out (no null) was not out before; it is now, and no other page changes hands.
pub is_out-alloc_page :
    (p : Pmm) (page : ℕ)
    → IsValid p
    → (alloc_page p).0 ≢ 0
    → (is_out p (alloc_page p).0 ≡ false)
      × (is_out (alloc_page p).1 page ≡ (if page == (alloc_page p).0 then true else is_out p page))
is_out-alloc_page p page v =
    alloc_page_cases
      (λ r.
        r.0 ≢ 0
        → (is_out p r.0 ≡ false)
          × (is_out r.1 page ≡ (if page == r.0 then true else is_out p page)))
      p (λ more _. (top_not_out v more, is_out-popped v page more)) (λ _ _ h. absurd (h refl))
      (λ empty usable room _. (ground arith, is_out-bumped v page usable))

-- In a valid state `pmm_alloc_page` fails exactly when the stack is empty and the region is used up, and then
-- changes nothing.
pub alloc_page-fails :
    (p : Pmm)
    → IsValid p
    → (((alloc_page p).0 ≡ 0) ↔ (
        (p.free_stack_count ≡ 0)
        × ((p.next_free_page ≡ 0) ⊎ (p.allocation_end < p.next_free_page + page_size))))
      × ((alloc_page p).0 ≡ 0 → (alloc_page p).1 ≡ p)
alloc_page-fails p v =
    alloc_page_cases
      (λ r.
        ((r.0 ≡ 0) ↔ (
          (p.free_stack_count ≡ 0)
          × ((p.next_free_page ≡ 0) ⊎ (p.allocation_end < p.next_free_page + page_size))))
        × (r.0 ≡ 0 → r.1 ≡ p))
      p
      (λ more.
        let pos : p.free_stack (p.free_stack_count - 1) ≢ 0 =
          λ e. omega (arith, v.in_range (p.free_stack_count - 1), v.started) in
        ((λ e. absurd (pos e), λ h. absurd (omega arith)), λ e. absurd (pos e)))
      (λ empty full. ((λ _. (empty, ground (arith, full)), λ _. refl), λ _. refl))
      (λ empty usable room. (
        (λ e. absurd (usable e), λ h. absurd (omega (arith, usable, room))),
        λ e. absurd (usable e),
      ))

-- What freeing a page does to the set of the pages that are out, and to the counts.
pub record Frees (p : Pmm) (freed : ℕ) (q : Pmm) : Type 0 where
  pub out :
      (page : ℕ)
      → is_out q page
        ≡ (if (page == freed) && ltb p.free_stack_count capacity then false else is_out p page)
  pub refused : is_out p freed && ltb p.free_stack_count capacity ≡ false → q ≡ p
  pub taken :
      is_out p freed && ltb p.free_stack_count capacity ≡ true
      → (q.allocated_pages + 1 ≡ p.allocated_pages)
        × (q.free_stack_count ≡ p.free_stack_count + 1)
        × (q.next_free_page ≡ p.next_free_page)

-- In a valid state a page that is out and finds room on the stack is taken back: it is not out any
-- more, every other page is as before, and one page less counts as allocated. Any other argument
-- changes nothing at all.
pub free_page-Frees : (p : Pmm) (freed : ℕ) → IsValid p → Frees p freed (free_page p freed)
unfolding free_page free_stack_contains
free_page-Frees p freed v = elim (Bool-cases (rejects p freed)) [
  | inl kept ↦ rw kept (record {
    out = λ page. ground (arith, rejects_lem v freed);
    refused = λ _. refl;
    taken = λ h. absurd (ground (arith, h, kept, rejects_lem v freed));
  })
  | inr back ↦ rw back (record {
    out = λ page.
        ground (
          arith,
          rejects_lem v freed,
          contains_from-push p.free_stack p.free_stack_count freed page,
        );
    refused = λ h. absurd (ground (arith, h, back, rejects_lem v freed));
    taken = λ h. (ground (arith, allocated_pos v freed back), refl, refl);
  })
]

is_out-free_page :
    (p : Pmm) (freed page : ℕ)
    → IsValid p
    → is_out (free_page p freed) page
      ≡ (if (page == freed) && ltb p.free_stack_count capacity then false else is_out p page)
is_out-free_page p freed page v = (free_page-Frees p freed v).out page

-- A client of the allocator: the state, and the pages that it holds, newest first.
pub data Op : Type 0 where
  alloc : Op
  free : ℕ → Op

abbrev pub holds : List ℕ → ℕ → Bool
holds [] page = false
holds (x ∷ xs) page = if x == page then true else holds xs page

abbrev pub give_up : List ℕ → ℕ → List ℕ
give_up [] page = []
give_up (x ∷ xs) page = if x == page then xs else x ∷ give_up xs page

-- A null pointer is not kept, and only pages that are held are freed.
unfoldable pub step : Op → Pmm × List ℕ → Pmm × List ℕ
step alloc (p, held) = let (page, q) = alloc_page p in (q, if page == 0 then held else page ∷ held)
step (free page) (p, held) =
    if holds held page then (free_page p page, give_up held page) else (p, held)

unfoldable pub run : List Op → Pmm × List ℕ → Pmm × List ℕ
run [] s = s
run (o ∷ os) s = run os (step o s)

-- No page twice.
abbrev pub AllDistinct : List ℕ → Type 0
AllDistinct [] = Unit {0}
AllDistinct (x ∷ xs) = (holds xs x ≡ false) × AllDistinct xs

pub record Disjoint (s : Pmm × List ℕ) : Type 0 where
  pub valid : IsValid s.0
  pub distinct : AllDistinct s.1
  pub out : (page : ℕ) → holds s.1 page ≡ true → is_out s.0 page ≡ true

holds-give_up :
    (held : List ℕ) (page other : ℕ)
    → AllDistinct held
    → holds (give_up held page) other ≡ (if page == other then false else holds held other)
holds-give_up [] page other d = ground arith
holds-give_up (x ∷ xs) page other d = ground (arith, holds-give_up xs page other d.1, d.0)

give_up-AllDistinct :
    (held : List ℕ) (page : ℕ) → AllDistinct held → AllDistinct (give_up held page)
give_up-AllDistinct [] page d = tt
give_up-AllDistinct (x ∷ xs) page d =
    ground (arith, holds-give_up xs page x d.1, give_up-AllDistinct xs page d.1)

step-Disjoint : (o : Op) (s : Pmm × List ℕ) → Disjoint s → Disjoint (step o s)
unfolding step
step-Disjoint alloc (p, held) d = elim (Bool-cases ((alloc_page p).0 == 0)) [
  | inl null ↦ rw null (record {
    valid = alloc_page-IsValid d.valid;
    distinct = d.distinct;
    out = λ q h. rw ((alloc_page-fails p d.valid).1 (==→≡ _ _ null)) (d.out q h);
  })
  | inr page ↦
      let real : (alloc_page p).0 ≢ 0 = ==→≢ _ _ page in
      let new : holds held (alloc_page p).0 ≡ false =
        ground (arith, (is_out-alloc_page p 0 d.valid real).0, d.out (alloc_page p).0) in
      rw page (record {
        valid = alloc_page-IsValid d.valid;
        distinct = (new, d.distinct);
        out = λ q h. ground (arith, (is_out-alloc_page p q d.valid real).1, d.out q);
      })
]
step-Disjoint (free page) (p, held) d = elim (Bool-cases (holds held page)) [
  | inl mine ↦ rw mine (record {
    valid = free_page-IsValid d.valid page;
    distinct = give_up-AllDistinct held page d.distinct;
    out = λ q h.
        ground
          (arith, d.out q, is_out-free_page p page q d.valid, holds-give_up held page q d.distinct);
  })
  | inr other ↦ rw other d
]

-- A client frees only pages that it holds. If it starts in a valid state with distinct pages that
-- are out, then after any history its pages are pairwise distinct, each is out, and the allocator is
-- valid.
pub run-Disjoint : (os : List Op) (s : Pmm × List ℕ) → Disjoint s → Disjoint (run os s)
unfolding run
run-Disjoint [] s d = d
run-Disjoint (o ∷ os) s d = run-Disjoint os (step o s) (step-Disjoint o s d)
