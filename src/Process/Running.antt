-- ===== src/Process/Running.antt =====
-- `process_run` and `process_run_all_ready`, for a program that acts on the table by system calls.
use liam_os.Base.{
  Bool-cases, List, Option-cases, Status, ap, arith, false, get_or-set_self, if_cases, inc32, inl,
  inr, is_success, none, not, ok, refl, set, some, suc, sym, true, zero, ℕ, ◌&&◌, ◌<◌, ◌==◌, ◌||◌,
  ◌∙◌, ◌≡◌, ◌≢◌,
}
use liam_os.Process.{
  Process, ProcessInfo, ProcessState, Table, crashed, exited, find_next_ready, is_done, is_exited,
  is_ready, is_running, is_unused, max_processes, no_process, ready, running, slot_at, unused,
}
use liam_os.Process.Slots.{done_used, find_from-none, find_from_sound, nth}
use liam_os.Process.Invariant.{IsValid, info-IsValid, keep-IsValid, used_in_table}
use liam_os.Process.Calls.{Calls, Calls-Hosts, Hosts, active_used}
use liam_os.Process.Run.{
  all_run, came_back, fail_load, finish_run, run, run_all_ready, run_rounds, run_slot, settle,
  start, start_loaded, started,
}
use liam_os.Str.{first}

-- What a run owes: the process in slot `i` is over, with the status that is returned, under the same
-- pid, and no process is current.
pub record Settles (i pid : ℕ) (r : Status × Table) : Type 0 where
  pub valid : IsValid r.1
  pub over : is_done (slot_at r.1 i).state ≡ true
  pub status_kept : (slot_at r.1 i).last_status ≡ r.0
  pub pid_kept : (slot_at r.1 i).pid ≡ pid
  pub nobody : r.1.current ≡ none

-- The last lines of `process_run` on a process that is over.
finish_run-Settles :
    {i pid : ℕ} {t : Table} (s : Status)
    → IsValid t
    → i < max_processes
    → is_done (slot_at t i).state ≡ true
    → (slot_at t i).pid ≡ pid
    → Settles i pid (s, finish_run t i s)
unfolding finish_run
finish_run-Settles {i} {pid} {t} s v lt over same =
    let q = record (slot_at t i) { last_status = s } in
    let it : nth (set t.slots i q) i ≡ q =
      get_or-set_self t.slots i q no_process (omega (arith, lt, v.capacity)) in
    record {
      valid = keep-IsValid v _ i q refl refl refl refl refl;
      over = ap (λ p. is_done p.state) it ∙ over;
      status_kept = ap (λ p. p.last_status) it;
      pid_kept = ap (λ p. p.pid) it ∙ same;
      nobody = refl;
    }

-- A process that is over in its slot.
ended :
    {i pid : ℕ} {t : Table} (o : Hosts i pid t) (q : Process) (n : ProcessInfo)
    → q.pid ≡ (slot_at t i).pid
    → is_done q.state ≡ true
    → let u = record t { slots = set t.slots i q; info = n } in
      IsValid u × (is_done (slot_at u i).state ≡ true) × ((slot_at u i).pid ≡ pid)
ended {i} {pid} {t} o q n same over =
    let it : nth (set t.slots i q) i ≡ q =
      get_or-set_self t.slots i q no_process (omega (arith, o.in_table, o.valid.capacity)) in
    let used = active_used (slot_at t i).state o.active in
    (
      keep-IsValid o.valid _ i q refl refl refl same (done_used q.state over ∙ sym used),
      ap (λ p. is_done p.state) it ∙ over,
      ap (λ p. p.pid) it ∙ same ∙ o.pid_eq,
    )

-- A process that came back still running is ended.
settle_lem :
    {i pid : ℕ} {t : Table} (o : Hosts i pid t) (s : Status)
    → IsValid (settle t i s)
      × (is_done (slot_at (settle t i s) i).state ≡ true)
      × ((slot_at (settle t i s) i).pid ≡ pid)
unfolding settle
settle_lem {i} {pid} {t} o s =
    if_cases
      (λ (u : Table). IsValid u × (is_done (slot_at u i).state ≡ true) × ((slot_at u i).pid ≡ pid))
      (is_success s) (λ _. ended o _ _ refl refl) (λ _. ended o _ _ refl refl)

over_of :
    (s : ProcessState)
    → is_running s || is_exited s ≡ true
    → is_running s ≡ false
    → is_done s ≡ true
over_of unused h k = cc
over_of ready h k = cc
over_of running h k = cc
over_of exited h k = refl
over_of crashed h k = refl

came_back-Settles :
    {i pid : ℕ} {t : Table} (o : Hosts i pid t) (s : Status) → Settles i pid (came_back i (s, t))
unfolding came_back
came_back-Settles {i} {pid} {t} o s = elim (Bool-cases (is_running (slot_at t i).state)) [
  | inl on ↦ let e = settle_lem o s in rw on (finish_run-Settles s e.0 o.in_table e.1 e.2)
  | inr off ↦
      rw off (
        finish_run-Settles s o.valid o.in_table (over_of (slot_at t i).state o.active off) o.pid_eq)
]

startable_used : (s : ProcessState) → is_ready s || is_exited s ≡ true → is_unused s ≡ false
startable_used unused h = cc
startable_used ready h = refl
startable_used running h = refl
startable_used exited h = refl
startable_used crashed h = refl

not_refused :
    (s : ProcessState)
    → is_ready s || is_exited s ≡ true
    → not (is_ready s) && not (is_exited s) ≡ false
not_refused s h = ground (arith, h)

-- The state that the program starts in.
started-Hosts :
    {t : Table} (v : IsValid t) (i entry user_stack : ℕ) (n : ProcessInfo)
    → is_ready (slot_at t i).state || is_exited (slot_at t i).state ≡ true
    → Hosts i (slot_at t i).pid (record t {
      slots = set t.slots i (started (slot_at t i) entry user_stack);
      current = some i;
      info = n;
    })
started-Hosts {t} v i entry user_stack n startable =
    let used = startable_used (slot_at t i).state startable in
    let lt = used_in_table v i used in
    let q = started (slot_at t i) entry user_stack in
    let it : nth (set t.slots i q) i ≡ q =
      get_or-set_self t.slots i q no_process (omega (arith, lt, v.capacity)) in
    record {
      valid = keep-IsValid v _ i q refl refl refl refl (sym used);
      in_table = lt;
      is_current = refl;
      active = ap (λ p. is_running p.state || is_exited p.state) it;
      pid_eq = ap (λ p. p.pid) it;
    }

-- A process whose image cannot be loaded has failed.
fail_load-Settles :
    {t : Table} (v : IsValid t) (i : ℕ) (s : Status)
    → is_ready (slot_at t i).state || is_exited (slot_at t i).state ≡ true
    → t.current ≡ none
    → Settles i (slot_at t i).pid (fail_load t i s)
unfolding fail_load
fail_load-Settles {t} v i s startable idle =
    let used = startable_used (slot_at t i).state startable in
    let q = record (slot_at t i) { last_status = s; state = crashed } in
    let it : nth (set t.slots i q) i ≡ q =
      get_or-set_self t.slots i q no_process (omega (arith, used_in_table v i used, v.capacity)) in
    record {
      valid = keep-IsValid v _ i q refl refl refl refl (sym used);
      over = ap (λ p. is_done p.state) it;
      status_kept = ap (λ p. p.last_status) it;
      pid_kept = ap (λ p. p.pid) it;
      nobody = idle;
    }

-- No slot of the table has a process that is ready.
abbrev pub NoneReady : Table → Type 0
NoneReady t = (j : ℕ) → j < max_processes → (slot_at t j).state ≢ ready

no_ready : {t : Table} → IsValid t → find_next_ready t ≡ none → NoneReady t
unfolding find_next_ready
no_ready {t} v h j lt e =
    let off =
      find_from-none (λ p. is_ready p.state) 0 t.slots h j (omega (arith, lt, v.capacity)) in
    ground (arith, off, ap is_ready e)

module _ (resolve : List ℕ → Status × (ℕ × ℕ)) (ring3_run : ℕ → ℕ → Table → Status × Table)
    (by_calls : (entry user_stack : ℕ) (t : Table) → Calls t (ring3_run entry user_stack t).1) where
  start-Settles :
      {t : Table} (v : IsValid t) (i entry user_stack : ℕ)
      → is_ready (slot_at t i).state || is_exited (slot_at t i).state ≡ true
      → Settles i (slot_at t i).pid (start resolve ring3_run t i entry user_stack)
  unfolding start
  start-Settles {t} v i entry user_stack startable =
      came_back-Settles
        (Calls-Hosts (by_calls entry user_stack _) (started-Hosts v i entry user_stack _ startable))
        _

  start_loaded-Settles :
      {t : Table} (v : IsValid t) (i : ℕ) (r : Status × (ℕ × ℕ))
      → is_ready (slot_at t i).state || is_exited (slot_at t i).state ≡ true
      → t.current ≡ none
      → Settles i (slot_at t i).pid (start_loaded resolve ring3_run t i r)
  unfolding start_loaded
  start_loaded-Settles {t} v i (s, (entry, user_stack)) startable idle =
      if_cases (Settles i (slot_at t i).pid) (is_success s)
        (λ _. start-Settles v i entry user_stack startable)
        (λ _. fail_load-Settles v i s startable idle)

  -- In a valid table with no current process, `process_run` of a ready or exited process, whose
  -- program acts on the table only by system calls, keeps the table valid. Afterwards the process has
  -- exited or failed and keeps its pid and the status that was returned, and no process is current:
  -- also if the image cannot be loaded, and if the program came back without an exit.
  pub run-Settles :
      (t : Table) (i : ℕ)
      → IsValid t
      → t.current ≡ none
      → is_ready (slot_at t i).state || is_exited (slot_at t i).state ≡ true
      → Settles i (slot_at t i).pid (run resolve ring3_run t (some i))
  unfolding run run_slot
  run-Settles t i v idle startable =
      let n = record (t.info) { run_attempts = inc32 t.info.run_attempts } in
      if_cases (Settles i (slot_at t i).pid)
        (not (is_ready (slot_at t i).state) && not (is_exited (slot_at t i).state))
        (λ h. absurd (ground (arith, h, startable)))
        (λ _.
          if_cases (Settles i (slot_at t i).pid) (first (slot_at t i).image_path == 0)
            (λ _. start-Settles (info-IsValid v n) i _ _ startable)
            (λ _.
              start_loaded-Settles (info-IsValid v n) i (resolve (slot_at t i).image_path) startable
                idle))

  -- The first ready slot.
  ready_slot :
      (t : Table) (i : ℕ)
      → find_next_ready t ≡ some i
      → is_ready (slot_at t i).state || is_exited (slot_at t i).state ≡ true
  unfolding find_next_ready
  ready_slot t i h =
      let r = find_from_sound (λ p. is_ready p.state) 0 i t.slots h in
      let same : i ≡ r.0 = omega (arith, r.1) in rw same (ground (arith, r.3))

  run_rounds-drained :
      (n : ℕ) (t : Table) (done : ℕ)
      → IsValid t
      → t.current ≡ none
      → let r = run_rounds resolve ring3_run n t done in
        IsValid r.2 × (r.2.current ≡ none) × (r.0 ≡ ok → NoneReady r.2)
  unfolding run_rounds
  run_rounds-drained zero t done v idle = elim (Option-cases (find_next_ready t)) [
    | inl empty ↦ rw (empty, all_run) (v, idle, λ _. no_ready v empty)
    | inr (i, some_ready) ↦ rw (some_ready, all_run) (v, idle, λ h. cc)
  ]
  run_rounds-drained (suc n) t done v idle = elim (Option-cases (find_next_ready t)) [
    | inl empty ↦ rw (empty, run_rounds) (v, idle, λ _. no_ready v empty)
    | inr (i, hit) ↦
        let s = run-Settles t i v idle (ready_slot t i hit) in
        rw (hit, run_rounds)
          (if_cases
            (λ (r : Status × ℕ × Table).
              IsValid r.2 × (r.2.current ≡ none) × (r.0 ≡ ok → NoneReady r.2))
            (is_success (run resolve ring3_run t (some i)).0)
            (λ _. run_rounds-drained n _ (inc32 done) s.valid s.nobody)
            (λ failure.
              (s.valid, s.nobody, λ h. absurd (ground (arith, failure, ap is_success h)))))
  ]

  -- In a valid table with no current process, `process_run_all_ready` keeps the table valid, whatever
  -- programs do by system calls and whatever status it returns, and leaves no process current. If it
  -- returns KERNEL_OK then no slot of the table has a ready process any more, those that the programs
  -- created included.
  pub run_all_ready-drained :
      (t : Table) (max_runs : ℕ)
      → IsValid t
      → t.current ≡ none
      → let r = run_all_ready resolve ring3_run t max_runs in
        IsValid r.2 × (r.2.current ≡ none) × (r.0 ≡ ok → NoneReady r.2)
  unfolding run_all_ready
  run_all_ready-drained t max_runs v idle = run_rounds-drained _ t 0 v idle
