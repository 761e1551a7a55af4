-- ===== src/Scheduler/Fairness.antt =====
-- No ready task waits for ever in core/kernel/core/scheduler.c.
use liam_os.Base.{
  ==→≡, ==→≢, Bool-cases, List, Option, ap, arith, false, inl, inr, none, refl, some, suc, true,
  zero, ℕ, ◌%◌, ◌+◌, ◌-◌, ◌<◌, ◌==◌, ◌∙◌, ◌≡◌, ◌≢◌, ◌≤◌, ◌⊎◌,
}
use liam_os.Scheduler.{Scheduler, Task, task_at}
use liam_os.Scheduler.Queue.{is_ready, select_next_ready_task}
use liam_os.Scheduler.Selection.{first_ready, next_index, select-Selects}

-- How far the slot `j` is ahead of the start of the search.
abbrev distance : ℕ → ℕ → ℕ
distance start j = (j + 16 - start) % 16

not_here :
    (ts : List Task) (now start attempts j : ℕ)
    → start < 16
    → j < 16
    → is_ready (task_at ts j) now ≡ true
    → is_ready (task_at ts ((start + attempts) % 16)) now ≡ false
    → attempts ≢ distance start j
not_here ts now start attempts j hs hj ready e at =
    let here : (start + attempts) % 16 ≡ j = omega (arith, at, hs, hj) in
    let ready' : is_ready (task_at ts ((start + attempts) % 16)) now ≡ true = rw here ready in cc

-- The slot that is found is not behind a slot that is ready.
first_ready-near :
    (n : ℕ) (ts : List Task) (now start attempts j : ℕ)
    → start < 16
    → j < 16
    → attempts ≤ distance start j
    → distance start j < attempts + n
    → is_ready (task_at ts j) now ≡ true
    → (i : ℕ) × (first_ready n ts now start attempts ≡ some i)
      × (i < 16)
      × (distance start i ≤ distance start j)
first_ready-near zero ts now start attempts j hs hj above below ready =
    absurd (omega (arith, above, below))
first_ready-near (suc n) ts now start attempts j hs hj above below ready =
    let index = (start + attempts) % 16 in
    elim (Bool-cases (is_ready (task_at ts index) now)) [
      | inl h ↦ rw h (index, refl, omega (arith), omega (arith, above, hs, hj))
      | inr h ↦
          let other = not_here ts now start attempts j hs hj ready h in
          rw h (
            first_ready-near n ts now start (attempts + 1) j hs hj (omega (arith, above, other))
              (omega (arith, below)) ready)
    ]

-- One selection at which slot `j` is ready: it is selected, or the next search starts nearer to it.
abbrev Nearer : ℕ → ℕ → Option ℕ → Type 0
Nearer start j none = ⊥
Nearer start j (some i) = (i ≡ j) ⊎ (distance ((i + 1) % 16) j < distance start j)

nearer :
    (start i j : ℕ)
    → start < 16
    → i < 16
    → j < 16
    → distance start i ≤ distance start j
    → (i ≡ j) ⊎ (distance ((i + 1) % 16) j < distance start j)
nearer start i j hs hi hj le = elim (Bool-cases (i == j)) [
  | inl e ↦ inl (==→≡ i j e)
  | inr e ↦ inr (omega (arith, ==→≢ i j e, hs, hi, hj, le))
]

-- A sequence of selections, with whatever happens to the tasks between them.
module _ (s : ℕ → Scheduler) (now : ℕ → ℕ) (j : ℕ) where
  -- Nothing but the selections moves `current_task_index`.
  abbrev pub Follows : Type 0
  Follows =
      (k : ℕ)
      → (s (suc k)).stats.current_task_index
        ≡ (select_next_ready_task (s k) (now k)).1.stats.current_task_index

  -- The task in slot `j` is ready at each of the first 16 selections.
  abbrev pub StaysReady : Type 0
  StaysReady = (k : ℕ) → k < 16 → is_ready (task_at (s k).tasks j) (now k) ≡ true

  -- Slot `j` is selected by one of them.
  abbrev pub IsSelected : Type 0
  IsSelected = (k : ℕ) × (k < 16) × ((select_next_ready_task (s k) (now k)).0 ≡ some j)

  selected_from :
      (d k start : ℕ)
      → Follows
      → StaysReady
      → j < 16
      → (s k).stats.current_task_index ≡ start
      → start < 16
      → k + d ≤ 16
      → distance start j < d
      → IsSelected
  selected_from zero k start f r hj e hs le near = absurd (omega (arith, near))
  selected_from (suc d) k start f r hj e hs le near =
      let (i, found_at, hi, close) =
        first_ready-near 16 (s k).tasks (now k) start 0 j hs hj (omega arith)
          (omega (arith, near, le)) (r k (omega (arith, le))) in
      let c = select-Selects (s k) (now k) in
      let same : (s k).stats.current_task_index % 16 ≡ start = omega (arith, e, hs) in
      let result : (select_next_ready_task (s k) (now k)).0 ≡ some i =
        c.selected ∙ (ap (λ (x : ℕ). first_ready 16 (s k).tasks (now k) x 0) same ∙ found_at) in
      elim (nearer start i j hs hi hj close) [
        | inl at ↦ (k, omega (arith, le), result ∙ ap some at)
        | inr less ↦
            selected_from d (suc k) ((i + 1) % 16) f r hj
              (f k
                ∙ (c.next_start
                    ∙ ap (λ (x : Option ℕ). next_index x (s k).stats.current_task_index) result))
              (omega arith) (omega (arith, le)) (omega (arith, less, near))
      ]

  -- If nothing but `scheduler_select_next_ready_task` moves `current_task_index`, then a task that
  -- is ready at each of 16 selections in a row is selected by one of them, whatever else happens to
  -- the tasks between them.
  pub select-fair : Follows → StaysReady → j < 16 → (s 0).stats.current_task_index < 16 → IsSelected
  select-fair f r hj hs =
      selected_from 16 0 (s 0).stats.current_task_index f r hj refl hs (omega arith) (omega arith)
