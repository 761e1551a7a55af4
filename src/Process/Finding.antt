-- ===== src/Process/Finding.antt =====
-- What `process_find_by_pid` finds, before and after a process is created or cleared away.
use liam_os.Base.{
  ==→≡, ==→≢, Bool-cases, List, Option, Option-cases, Status, ap, arith, false, if_cases,
  if◌then◌else◌, inc32, inl, inr, is_success, none, refl, some, sym, tests, true, ℕ, ≢→==, ◌&&◌,
  ◌+◌, ◌<◌, ◌==◌, ◌^◌, ◌||◌, ◌∙◌, ◌≡◌, ◌≢◌, ◌⊎◌,
}
use liam_os.Process.Lifecycle.{create, create_in, create_named, filled}
use liam_os.Process.{
  Table, find_by_pid, find_free_slot, find_from, has_pid, is_unused, max_processes, slot_at,
}
use liam_os.Process.Slots.{find_from-none, find_from_sound, nth-set}
use liam_os.Process.Invariant.{IsValid, create_in-IsValid, filled_lem, info-IsValid, used_in_table}

-- The slot with the pid is found, since absent other has it.
pub find_by_pid-some :
    {t : Table} (v : IsValid t) (pid i : ℕ)
    → pid ≢ 0
    → is_unused (slot_at t i).state ≡ false
    → (slot_at t i).pid ≡ pid
    → find_by_pid t pid ≡ some i
unfolding find_by_pid
find_by_pid-some {t} v pid i pos u e =
    rw (≢→== _ _ pos) (elim (Option-cases (find_from (has_pid pid) 0 t.slots)) [
      | inl missed ↦ absurd (
          ground (
            arith,
            u,
            e,
            find_from-none (has_pid pid) 0 t.slots missed i
                (omega (arith, used_in_table v i u, v.capacity)),
          ))
      | inr (k, hit) ↦
          let r = find_from_sound (has_pid pid) 0 k t.slots hit in
          let same : r.0 ≡ i = v.distinct r.0 i (ground (arith, r.3)) u (ground (arith, r.3, e)) in
          hit ∙ ap some (omega (arith, r.1, same))
    ])

-- Without such a slot nothing is found.
pub find_by_pid-none :
    (t : Table) (pid : ℕ)
    → ((i : ℕ) → is_unused (slot_at t i).state ≡ false → (slot_at t i).pid ≢ pid)
    → find_by_pid t pid ≡ none
unfolding find_by_pid
find_by_pid-none t pid absent =
    if_cases (λ o. o ≡ none) (pid == 0) (λ _. refl)
      (λ _. elim (Option-cases (find_from (has_pid pid) 0 t.slots)) [
        | inl missed ↦ missed
        | inr (k, hit) ↦
            let r = find_from_sound (has_pid pid) 0 k t.slots hit in
            absurd (absent r.0 (ground (arith, r.3)) (ground (arith, r.3)))
      ])

-- What is found has the pid, and if nothing is found no slot has it.
pub find_by_pid_cases :
    {t : Table} (v : IsValid t) (pid : ℕ)
    → (find_by_pid t pid ≡ none)
        × ((i : ℕ) → is_unused (slot_at t i).state ≡ false → (slot_at t i).pid ≢ pid)
      ⊎ ((i : ℕ) × (find_by_pid t pid ≡ some i)
          × (is_unused (slot_at t i).state ≡ false)
          × ((slot_at t i).pid ≡ pid)
          × (pid ≢ 0))
unfolding find_by_pid
find_by_pid_cases {t} v pid = elim (Bool-cases (pid == 0)) [
  | inl zero_pid ↦ rw zero_pid (inl (refl, λ i u e. omega (tests, zero_pid, e, v.pid_bounds i u)))
  | inr pos ↦ rw pos (elim (Option-cases (find_from (has_pid pid) 0 t.slots)) [
    | inl missed ↦ inl (
      missed,
      λ i u e. absurd (
          ground (
            arith,
            u,
            e,
            find_from-none (has_pid pid) 0 t.slots missed i
                (omega (arith, used_in_table v i u, v.capacity)),
          )),
    )
    | inr (k, hit) ↦
        let r = find_from_sound (has_pid pid) 0 k t.slots hit in
        let same : k ≡ r.0 = omega (arith, r.1) in
        inr (r.0, hit ∙ ap some same, ground (arith, r.3), ground (arith, r.3), ==→≢ _ _ pos)
  ])
]

create_in-find :
    {t : Table} (v : IsValid t) (i pid : ℕ) (name : List ℕ) (entry user_stack : ℕ)
    → i < max_processes
    → is_unused (slot_at t i).state ≡ true
    → t.next_pid + 1 < 2 ^ 32
    → find_by_pid (create_in t i name entry user_stack).2 pid
      ≡ (if pid == t.next_pid then some i else find_by_pid t pid)
unfolding create_in
create_in-find {t} v i pid name entry user_stack lt free small =
    let q = filled (slot_at t i) t.next_pid name entry user_stack in
    let f = filled_lem (slot_at t i) t.next_pid name entry user_stack in
    let at = λ (j : ℕ). nth-set t.slots i j q (omega (arith, v.capacity)) in
    let w = create_in-IsValid v i name entry user_stack lt free small in
    elim (Bool-cases (pid == t.next_pid)) [
      | inl new ↦
          let e : pid ≡ t.next_pid = ==→≡ _ _ new in
          rw new (
            find_by_pid-some w pid i (omega (arith, e, v.next_pos)) (ground (arith, at i, f.1))
              (ground (arith, at i, f.0, e)))
      | inr old ↦ rw old (elim (find_by_pid_cases v pid) [
        | inl (missed, absent) ↦
            find_by_pid-none _ pid
              (λ j u e. ground (arith, at j, f.0, absent j, ==→≢ _ _ old, u, e))
            ∙ sym missed
        | inr (k, hit, u, e, pos) ↦
            find_by_pid-some w pid k pos (ground (arith, at k, free, u))
              (ground (arith, at k, free, u, e))
            ∙ sym hit
      ])
    ]

-- The search of `process_create` gives a free slot of the table.
pub free_slot :
    {t : Table} (v : IsValid t) (i : ℕ)
    → find_free_slot t ≡ some i
    → (i < max_processes) × (is_unused (slot_at t i).state ≡ true)
unfolding find_free_slot
free_slot {t} v i h =
    let r = find_from_sound (λ p. is_unused p.state) 0 i t.slots h in
    let same : i ≡ r.0 = omega (arith, r.1) in (omega (arith, same, r.2, v.capacity), rw same r.3)

-- In a valid table that has pids left, `process_create` keeps it valid. A process that it creates is
-- found under the fresh pid that it was given; all other pids lead where they led before, and all
-- pids do if it fails.
pub create-find :
    (t : Table) (name : Option (List ℕ)) (entry user_stack pid : ℕ)
    → IsValid t
    → t.next_pid + 1 < 2 ^ 32
    → let r = create t name entry user_stack in
      IsValid r.2
      × (find_by_pid r.2 pid
          ≡ (if is_success r.0 && (pid == t.next_pid) then r.1 else find_by_pid t pid))
unfolding create create_named find_by_pid
create-find t none entry user_stack pid v small = (info-IsValid v _, refl)
create-find t (some name) entry user_stack pid v small =
    let n = record (t.info) { create_attempts = inc32 t.info.create_attempts } in
    if_cases
      (λ (r : Status × Option ℕ × Table).
        IsValid r.2
        × (find_by_pid r.2 pid
            ≡ (if is_success r.0 && (pid == t.next_pid) then r.1 else find_by_pid t pid)))
      ((entry == 0) || (user_stack == 0)) (λ _. (info-IsValid v _, refl))
      (λ _. elim (Option-cases (find_free_slot t)) [
        | inl full ↦ rw full (info-IsValid v _, refl)
        | inr (k, hit) ↦
            let f = free_slot v k hit in
            rw hit (
              create_in-IsValid (info-IsValid v n) k name entry user_stack f.0 f.1 small,
              create_in-find (info-IsValid v n) k pid name entry user_stack f.0 f.1 small,
            )
      ])
