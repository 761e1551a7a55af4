-- ===== src/Process/Clearing.antt =====
-- `process_clear_exited`: which processes it takes away, and that the count stays right.
use liam_os.Base.{
  Bool-cases, Option, ap, arith, false, if◌then◌else◌, inl, inr, none, refl, some, sym, true, ℕ,
  ◌+◌, ◌∙◌, ◌≡◌,
}
use liam_os.Process.Lifecycle.{clear_exited}
use liam_os.Process.{Table, find_by_pid, is_done, is_unused, reset_slot, slot_at}
use liam_os.Process.Slots.{nth-clear_done, reset_slot-unused, used_slots-clear_done}
use liam_os.Process.Invariant.{IsValid}
use liam_os.Process.Finding.{find_by_pid-none, find_by_pid-some, find_by_pid_cases}

cleared_slot :
    (t : Table) (i : ℕ)
    → is_done (slot_at t i).state ≡ false
    → slot_at (clear_exited t).1 i ≡ slot_at t i
unfolding clear_exited
cleared_slot t i here = nth-clear_done t.slots i ∙ rw here refl

gone_slot :
    (t : Table) (i : ℕ)
    → is_done (slot_at t i).state ≡ true
    → slot_at (clear_exited t).1 i ≡ reset_slot (slot_at t i)
unfolding clear_exited
gone_slot t i gone = nth-clear_done t.slots i ∙ rw gone refl

-- A slot in use after the clearing is the one before it, and was not done.
kept_slot :
    (t : Table) (i : ℕ)
    → is_unused (slot_at (clear_exited t).1 i).state ≡ false
    → (is_done (slot_at t i).state ≡ false) × (slot_at (clear_exited t).1 i ≡ slot_at t i)
kept_slot t i u = elim (Bool-cases (is_done (slot_at t i).state)) [
  | inl gone ↦ absurd (
      ground (
        arith,
        u,
        ap (λ p. is_unused p.state) (gone_slot t i gone),
        reset_slot-unused (slot_at t i),
      ))
  | inr here ↦ (here, cleared_slot t i here)
]

pub clear_exited-IsValid : (t : Table) → IsValid t → IsValid (clear_exited t).1
unfolding clear_exited
clear_exited-IsValid t v =
    let c = used_slots-clear_done t.slots in
    record {
      capacity = c.1 ∙ v.capacity;
      counted = ground (arith, c.0, v.counted);
      next_pos = v.next_pos;
      next_small = v.next_small;
      pid_bounds = λ i u.
          let k = kept_slot t i u in
          let b = v.pid_bounds i (sym (ap (λ p. is_unused p.state) k.1) ∙ u) in
          rw (ap (λ p. p.pid) k.1) b;
      distinct = λ i j u w e.
          let k = kept_slot t i u in
          let l = kept_slot t j w in
          v.distinct i j (sym (ap (λ p. is_unused p.state) k.1) ∙ u)
            (sym (ap (λ p. is_unused p.state) l.1) ∙ w)
            (sym (ap (λ p. p.pid) k.1) ∙ e ∙ ap (λ p. p.pid) l.1);
    }

counted_off : (t : Table) → IsValid t → (clear_exited t).1.count + (clear_exited t).0 ≡ t.count
unfolding clear_exited
counted_off t v = ground (arith, (used_slots-clear_done t.slots).0, v.counted)

-- The slot that a pid leads to, if its process is not done.
abbrev pub live : Table → Option ℕ → Option ℕ
live t none = none
live t (some i) = if is_done (slot_at t i).state then none else some i

-- In a valid table `process_clear_exited` keeps it valid, and returns by how much the number of
-- slots in use fell. Afterwards a pid leads to no process if it led to one that has exited or failed,
-- and all other pids lead where they led before.
pub clear_exited-find :
    (t : Table) (pid : ℕ)
    → IsValid t
    → let r = clear_exited t in
      IsValid r.1 × (r.1.count + r.0 ≡ t.count) × (find_by_pid r.1 pid ≡ live t (find_by_pid t pid))
clear_exited-find t pid v =
    let w = clear_exited-IsValid t v in
    (
      w,
      counted_off t v,
      elim (find_by_pid_cases v pid) [
        | inl (missed, absent) ↦
            find_by_pid-none (clear_exited t).1 pid (λ j u e.
              let k = kept_slot t j u in
              absent j (sym (ap (λ p. is_unused p.state) k.1) ∙ u) (sym (ap (λ p. p.pid) k.1) ∙ e))
            ∙ sym (ap (live t) missed)
        | inr (i, hit, u, e, pos) ↦ elim (Bool-cases (is_done (slot_at t i).state)) [
          | inl gone ↦
              find_by_pid-none (clear_exited t).1 pid (λ j x y.
                let k = kept_slot t j x in
                let here : j ≡ i =
                  v.distinct j i (sym (ap (λ p. is_unused p.state) k.1) ∙ x) u
                    (sym (ap (λ p. p.pid) k.1) ∙ y ∙ sym e) in
                ground (arith, k.0, gone, ap (λ n. is_done (slot_at t n).state) here))
              ∙ sym (ap (live t) hit ∙ rw gone refl)
          | inr here ↦
              let same = cleared_slot t i here in
              find_by_pid-some w pid i pos (ap (λ p. is_unused p.state) same ∙ u)
                (ap (λ p. p.pid) same ∙ e)
              ∙ sym (ap (live t) hit ∙ rw here refl)
        ]
      ],
    )
