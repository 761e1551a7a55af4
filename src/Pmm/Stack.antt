-- ===== src/Pmm/Stack.antt =====
-- The free stack as a set: what `pmm_free_stack_contains` answers, before and after a push or a pop.
use liam_os.Base.{
  Bool-cases, arith, if◌then◌else◌, inl, inr, refl, suc, tests, true, update, zero, ℕ, ◌+◌, ◌-◌,
  ◌<◌, ◌==◌, ◌≡◌, ◌≤◌,
}
use liam_os.Pmm.{contains_from}

-- A hit is a cell of the range that holds the page.
pub contains_from_sound :
    (stack : ℕ → ℕ) (from n page : ℕ)
    → contains_from stack from n page ≡ true
    → (i : ℕ) × (from ≤ i) × (i < from + n) × (stack i ≡ page)
unfolding contains_from
contains_from_sound stack from zero page h = absurd (ground arith)
contains_from_sound stack from (suc n) page h = elim (Bool-cases (stack from == page)) [
  | inl hit ↦ (from, omega arith, omega arith, omega (tests, hit))
  | inr miss ↦
      let r = contains_from_sound stack (from + 1) n page (ground arith) in
      (r.0, omega (arith, r.1), omega (arith, r.2), r.3)
]

-- Every cell of the range is a hit.
pub contains_from_complete :
    (stack : ℕ → ℕ) (from n i : ℕ)
    → from ≤ i
    → i < from + n
    → contains_from stack from n (stack i) ≡ true
unfolding contains_from
contains_from_complete stack from zero i lo hi = absurd (omega arith)
contains_from_complete stack from (suc n) i lo hi = elim (Bool-cases (from == i)) [
  | inl here ↦ let e : from ≡ i = omega (tests, here) in rw e (ground arith)
  | inr later ↦
      ground
        (arith, contains_from_complete stack (from + 1) n i (omega (tests, later)) (omega arith))
]

-- One more cell at the upper end.
pub contains_from-suc :
    (stack : ℕ → ℕ) (from n page : ℕ)
    → contains_from stack from (suc n) page
      ≡ (if stack (from + n) == page then true else contains_from stack from n page)
unfolding contains_from
contains_from-suc stack from zero page = let e : from + 0 ≡ from = omega arith in rw e refl
contains_from-suc stack from (suc n) page =
    let e : from + suc n ≡ from + 1 + n = omega arith in
    rw e (ground (arith, contains_from-suc stack (from + 1) n page))

-- A write above the range does not show in it.
pub contains_from-update :
    (stack : ℕ → ℕ) (from n top v page : ℕ)
    → from + n ≤ top
    → contains_from (update stack top v) from n page ≡ contains_from stack from n page
unfolding contains_from
contains_from-update stack from zero top v page h = refl
contains_from-update stack from (suc n) top v page h =
    ground (arith, contains_from-update stack (from + 1) n top v page)

-- The range without its last cell.
pub contains_from-pred :
    (stack : ℕ → ℕ) (n page : ℕ)
    → 0 < n
    → contains_from stack 0 n page
      ≡ (if stack (n - 1) == page then true else contains_from stack 0 (n - 1) page)
contains_from-pred stack zero page h = absurd (omega arith)
contains_from-pred stack (suc n) page h =
    let e : suc n - 1 ≡ n = omega arith in
    let z : 0 + n ≡ n = omega arith in rw e (rw z at (contains_from-suc stack 0 n page))

-- A page pushed on a stack of `n` pages.
pub contains_from-push :
    (stack : ℕ → ℕ) (n v page : ℕ)
    → contains_from (update stack n v) 0 (n + 1) page
      ≡ (if v == page then true else contains_from stack 0 n page)
contains_from-push stack n v page =
    let e : n + 1 ≡ suc n = omega arith in
    let z : 0 + n ≡ n = omega arith in
    rw e (
      ground (
        arith,
        z,
        contains_from-suc (update stack n v) 0 n page,
        contains_from-update stack 0 n n v page (omega arith),
      ))
