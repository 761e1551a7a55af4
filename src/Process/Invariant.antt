-- ===== src/Process/Invariant.antt =====
-- The invariant of the process table, and that the operations on it keep it.
use liam_os.Base.{
  Bool-cases, List, [], ap, arith, false, inl, inr, length, length-set, ltb, ltb→le, ltb→lt, refl,
  set, suc, sym, tests, true, zero, ℕ, ◌+◌, ◌<◌, ◌^◌, ◌∙◌, ◌∷◌, ◌≡◌,
}
use liam_os.Process.Lifecycle.{create_in, filled}
use liam_os.Process.{
  Process, ProcessInfo, Table, clear_arguments, initialize, is_unused, max_processes, ready,
  reset_all, slot_at,
}
use liam_os.Process.Slots.{
  nth, nth-beyond, nth-set, reset_slot-unused, used_slots, used_slots-fill, used_slots-keep,
  used_slots_le,
}

-- The count is right, and a slot in use has a pid of its own that was given out before.
pub record IsValid (t : Table) : Type 0 where
  pub capacity : length t.slots ≡ max_processes
  pub counted : t.count ≡ used_slots t.slots
  pub next_pos : 0 < t.next_pid
  pub next_small : t.next_pid < 2 ^ 32
  pub pid_bounds :
      (i : ℕ)
      → is_unused (slot_at t i).state ≡ false
      → (0 < (slot_at t i).pid) × ((slot_at t i).pid < t.next_pid)
  pub distinct :
      (i j : ℕ)
      → is_unused (slot_at t i).state ≡ false
      → is_unused (slot_at t j).state ≡ false
      → (slot_at t i).pid ≡ (slot_at t j).pid
      → i ≡ j

-- A slot in use lies in the table.
pub used_in_table :
    {t : Table} (v : IsValid t) (i : ℕ) → is_unused (slot_at t i).state ≡ false → i < max_processes
used_in_table {t} v i u = elim (Bool-cases (ltb i max_processes)) [
  | inl inside ↦ ltb→lt _ _ inside
  | inr beyond ↦ absurd (
      ground (
        arith,
        u,
        ap (λ p. p.state) (nth-beyond t.slots i (omega (tests, v.capacity, ltb→le _ _ beyond))),
      ))
]

-- The pid of the slot and whether it is in use stay, at every index.
abbrev pub Alike : List Process → List Process → Type 0
Alike ps qs =
    (j : ℕ)
    → ((nth qs j).pid ≡ (nth ps j).pid) × (is_unused (nth qs j).state ≡ is_unused (nth ps j).state)

pub set-Alike :
    (ps : List Process) (i : ℕ) (p : Process)
    → p.pid ≡ (nth ps i).pid
    → is_unused p.state ≡ is_unused (nth ps i).state
    → Alike ps (set ps i p)
set-Alike [] i p h u j = (refl, refl)
set-Alike (q ∷ ps) zero p h u zero = (h, u)
set-Alike (q ∷ ps) zero p h u (suc j) = (refl, refl)
set-Alike (q ∷ ps) (suc i) p h u zero = (refl, refl)
set-Alike (q ∷ ps) (suc i) p h u (suc j) = set-Alike ps i p h u j

-- A write to one slot that keeps its pid and whether it is in use.
pub keep-IsValid :
    {t : Table} (v : IsValid t) (u : Table) (i : ℕ) (p : Process)
    → u.slots ≡ set t.slots i p
    → u.next_pid ≡ t.next_pid
    → u.count ≡ t.count
    → p.pid ≡ (slot_at t i).pid
    → is_unused p.state ≡ is_unused (slot_at t i).state
    → IsValid u
keep-IsValid {t} v u i p slots_eq next_eq count_eq same_pid same_use =
    let a : Alike t.slots u.slots = rw slots_eq (set-Alike t.slots i p same_pid same_use) in
    record {
      capacity = ap length slots_eq ∙ length-set t.slots i p ∙ v.capacity;
      counted =
          count_eq
          ∙ v.counted
          ∙ sym (ap used_slots slots_eq ∙ used_slots-keep t.slots i p same_use);
      next_pos = rw next_eq v.next_pos;
      next_small = rw next_eq v.next_small;
      pid_bounds = λ j h. let b = v.pid_bounds j (sym (a j).1 ∙ h) in rw (next_eq, (a j).0) b;
      distinct = λ j k h l e.
          v.distinct j k (sym (a j).1 ∙ h) (sym (a k).1 ∙ l) (sym (a j).0 ∙ e ∙ (a k).0);
    }

-- The counters do not matter.
pub info-IsValid : {t : Table} → IsValid t → (n : ProcessInfo) → IsValid (record t { info = n })
info-IsValid v n = record {
  capacity = v.capacity;
  counted = v.counted;
  next_pos = v.next_pos;
  next_small = v.next_small;
  pid_bounds = v.pid_bounds;
  distinct = v.distinct;
}

length-reset_all : (ps : List Process) → length (reset_all ps) ≡ length ps
unfolding reset_all
length-reset_all [] = refl
length-reset_all (p ∷ ps) = ap suc (length-reset_all ps)

used_slots-reset_all : (ps : List Process) → used_slots (reset_all ps) ≡ 0
unfolding reset_all used_slots
used_slots-reset_all [] = refl
used_slots-reset_all (p ∷ ps) = rw (reset_slot-unused p) (used_slots-reset_all ps)

reset_all-unused : (ps : List Process) (i : ℕ) → is_unused (nth (reset_all ps) i).state ≡ true
unfolding reset_all
reset_all-unused [] i = refl
reset_all-unused (p ∷ ps) zero = reset_slot-unused p
reset_all-unused (p ∷ ps) (suc i) = reset_all-unused ps i

-- `process_initialize` of a table of 16 slots makes it valid: no slot is in use, and the count is 0.
pub initialize-IsValid : (t : Table) → length t.slots ≡ max_processes → IsValid (initialize t)
unfolding initialize
initialize-IsValid t len =
    let a = reset_all-unused t.slots in
    record {
      capacity = length-reset_all t.slots ∙ len;
      counted = sym (used_slots-reset_all t.slots);
      next_pos = omega arith;
      next_small = omega arith;
      pid_bounds = λ i h. absurd (ground (arith, h, a i));
      distinct = λ i j h k e. absurd (ground (arith, h, a i));
    }

pub filled_lem :
    (p : Process) (pid : ℕ) (name : List ℕ) (entry user_stack : ℕ)
    → ((filled p pid name entry user_stack).pid ≡ pid)
      × ((filled p pid name entry user_stack).state ≡ ready)
unfolding filled clear_arguments
filled_lem p pid name entry user_stack = (refl, refl)

-- The new process in a slot that was not in use.
pub create_in-IsValid :
    {t : Table} (v : IsValid t) (i : ℕ) (name : List ℕ) (entry user_stack : ℕ)
    → i < max_processes
    → is_unused (slot_at t i).state ≡ true
    → t.next_pid + 1 < 2 ^ 32
    → IsValid (create_in t i name entry user_stack).2
unfolding create_in
create_in-IsValid {t} v i name entry user_stack lt free small =
    let q = filled (slot_at t i) t.next_pid name entry user_stack in
    let f = filled_lem (slot_at t i) t.next_pid name entry user_stack in
    let at = λ (j : ℕ). nth-set t.slots i j q (omega (arith, v.capacity)) in
    let used = used_slots-fill t.slots i q (omega (arith, v.capacity)) free (ap is_unused f.1) in
    record {
      capacity = length-set t.slots i q ∙ v.capacity;
      counted = omega (
        arith,
        v.counted,
        used,
        used_slots_le (set t.slots i q),
        length-set t.slots i q,
        v.capacity,
      );
      next_pos = omega (arith, v.next_pos);
      next_small = omega arith;
      pid_bounds = λ j h. ground (arith, at j, f.0, h, v.pid_bounds j, v.next_pos);
      distinct = λ j k h l e.
          ground
            (arith, at j, at k, f.0, f.1, h, l, e, v.pid_bounds j, v.pid_bounds k, v.distinct j k);
    }
