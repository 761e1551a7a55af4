-- ===== src/Process/Slots.antt =====
-- The searches of the process table, and a write to one slot.
use liam_os.Base.{
  ==→≡, ==→≢, Bool, Bool-cases, List, [], ap, arith, false, get_or, get_or-set_ne, get_or-set_self,
  if_cases, if◌then◌else◌, inl, inr, length, none, refl, set, some, suc, sym, true, zero, ℕ, ◌+◌,
  ◌<◌, ◌==◌, ◌∙◌, ◌∷◌, ◌≡◌, ◌≤◌,
}
use liam_os.Process.Lifecycle.{clear_done}
use liam_os.Process.{
  Process, ProcessState, clear_arguments, crashed, exited, find_from, is_done, is_unused,
  no_process, ready, reset_slot, running, unused,
}

abbrev pub nth : List Process → ℕ → Process
nth ps j = get_or ps j no_process

-- The search stops at the first slot that passes.
pub find_from_sound :
    (passes : Process → Bool) (i k : ℕ) (ps : List Process)
    → find_from passes i ps ≡ some k
    → (j : ℕ) × (k ≡ i + j)
      × (j < length ps)
      × (passes (nth ps j) ≡ true)
      × ((m : ℕ) → m < j → passes (nth ps m) ≡ false)
unfolding find_from
find_from_sound passes i k [] h = cc
find_from_sound passes i k (p ∷ ps) h = elim (Bool-cases (passes p)) [
  | inl here ↦ (0, ground (arith, h, here), omega arith, here, λ m l. absurd (omega arith))
  | inr later ↦
      let r = find_from_sound passes (i + 1) k ps (ground (arith, h, later)) in
      (
        suc r.0,
        omega (arith, r.1),
        omega (arith, r.2),
        r.3,
        elim [ zero ↦ λ _. later | suc m ↦ λ l. r.4 m (omega arith) ],
      )
]

-- It gives none only if no slot passes.
pub find_from-none :
    (passes : Process → Bool) (i : ℕ) (ps : List Process)
    → find_from passes i ps ≡ none
    → (j : ℕ) → j < length ps
    → passes (nth ps j) ≡ false
unfolding find_from
find_from-none passes i [] h j l = absurd (omega arith)
find_from-none passes i (p ∷ ps) h zero l = ground arith
find_from-none passes i (p ∷ ps) h (suc j) l =
    find_from-none passes (i + 1) ps (ground arith) j (omega arith)

-- What lies beyond the table is unused.
pub nth-beyond : (ps : List Process) (j : ℕ) → length ps ≤ j → nth ps j ≡ no_process
nth-beyond [] j h = refl
nth-beyond (p ∷ ps) zero h = absurd (omega arith)
nth-beyond (p ∷ ps) (suc j) h = nth-beyond ps j (omega arith)

pub nth-set :
    (ps : List Process) (i j : ℕ) (p : Process)
    → i < length ps
    → nth (set ps i p) j ≡ (if j == i then p else nth ps j)
nth-set ps i j p h = elim (Bool-cases (j == i)) [
  | inl here ↦
      let e : j ≡ i = ==→≡ _ _ here in
      rw here (ap (nth (set ps i p)) e ∙ get_or-set_self ps i p no_process h)
  | inr away ↦ rw away (get_or-set_ne ps i j p no_process (λ e. ==→≢ _ _ away (sym e)))
]

-- How many slots are in use.
unfoldable pub used_slots : List Process → ℕ
used_slots [] = 0
used_slots (p ∷ ps) = if is_unused p.state then used_slots ps else suc (used_slots ps)

pub used_slots-fill :
    (ps : List Process) (i : ℕ) (p : Process)
    → i < length ps
    → is_unused (nth ps i).state ≡ true
    → is_unused p.state ≡ false
    → used_slots (set ps i p) ≡ suc (used_slots ps)
unfolding used_slots
used_slots-fill [] i p h u v = absurd (omega arith)
used_slots-fill (q ∷ ps) zero p h u v = rw (u, v) refl
used_slots-fill (q ∷ ps) (suc i) p h u v = ground (arith, used_slots-fill ps i p (omega arith) u v)

-- A write that keeps whether the slot is in use.
pub used_slots-keep :
    (ps : List Process) (i : ℕ) (p : Process)
    → is_unused p.state ≡ is_unused (nth ps i).state
    → used_slots (set ps i p) ≡ used_slots ps
unfolding used_slots
used_slots-keep [] i p u = refl
used_slots-keep (q ∷ ps) zero p u = rw u refl
used_slots-keep (q ∷ ps) (suc i) p u = ground (arith, used_slots-keep ps i p u)

pub used_slots_le : (ps : List Process) → used_slots ps ≤ length ps
unfolding used_slots
used_slots_le [] = omega arith
used_slots_le (p ∷ ps) = ground (arith, used_slots_le ps)

-- Clearing: each slot that is done is reset, and no other changes.
pub nth-clear_done :
    (ps : List Process) (i : ℕ)
    → nth (clear_done ps).0 i
      ≡ (if is_done (nth ps i).state then reset_slot (nth ps i) else nth ps i)
unfolding clear_done
nth-clear_done [] i = refl
nth-clear_done (p ∷ ps) zero =
    if_cases
      (λ (r : List Process × ℕ). nth r.0 zero ≡ (if is_done p.state then reset_slot p else p))
      (is_done p.state) (λ d. rw d refl) (λ d. rw d refl)
nth-clear_done (p ∷ ps) (suc i) =
    if_cases
      (λ (r : List Process × ℕ).
        nth r.0 (suc i) ≡ (if is_done (nth ps i).state then reset_slot (nth ps i) else nth ps i))
      (is_done p.state) (λ d. nth-clear_done ps i) (λ d. nth-clear_done ps i)

pub reset_slot-unused : (p : Process) → is_unused (reset_slot p).state ≡ true
unfolding reset_slot clear_arguments
reset_slot-unused p = refl

pub done_used : (s : ProcessState) → is_done s ≡ true → is_unused s ≡ false
done_used unused h = cc
done_used ready h = refl
done_used running h = refl
done_used exited h = refl
done_used crashed h = refl

-- The slots in use are those that were cleared and those that still are.
pub used_slots-clear_done :
    (ps : List Process)
    → (used_slots (clear_done ps).0 + (clear_done ps).1 ≡ used_slots ps)
      × (length (clear_done ps).0 ≡ length ps)
unfolding clear_done used_slots
used_slots-clear_done [] = (refl, refl)
used_slots-clear_done (p ∷ ps) =
    let ih = used_slots-clear_done ps in
    if_cases
      (λ (r : List Process × ℕ).
        (used_slots r.0 + r.1 ≡ used_slots (p ∷ ps)) × (length r.0 ≡ suc (length ps)))
      (is_done p.state)
      (λ d.
        rw (reset_slot-unused p, done_used p.state d) (omega (arith, ih.0), omega (arith, ih.1)))
      (λ d. (ground (arith, ih.0), omega (arith, ih.1)))
