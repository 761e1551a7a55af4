-- ===== src/Scheduler/Selection.antt =====
-- Which task `scheduler_select_next_ready_task` of core/kernel/core/scheduler.c selects.
use liam_os.Base.{
  ==→≡, ==→≢, Bool-cases, List, Option, arith, false, get_or, get_or-set_ne, get_or-set_self,
  if_cases, if_false, if◌then◌else◌, inc32, inl, inr, leb, length, length-set, none, refl, some,
  suc, sym, true, zero, ℕ, ◌%◌, ◌+◌, ◌<◌, ◌==◌, ◌∙◌, ◌≡◌, ◌≤◌,
}
use liam_os.Scheduler.{ReadyQueue, Scheduler, Task, no_task, task_at}
use liam_os.Scheduler.Queue.{
  Rebuild, consider, enqueue, is_ready, rebuild_ready_queue, rebuild_rounds, reset_queue,
  select_next_ready_task, select_none, select_slot,
}

-- The first of `n` slots from `start + attempts` on, round the table, whose task is ready.
abbrev pub first_ready : ℕ → List Task → ℕ → ℕ → ℕ → Option ℕ
first_ready zero ts now start attempts = none
first_ready (suc n) ts now start attempts =
    let later = first_ready n ts now start (attempts + 1) in
    if is_ready (task_at ts ((start + attempts) % 16)) now
    then some ((start + attempts) % 16)
    else later

-- The slot at the front of a queue.
abbrev front : ReadyQueue → Option ℕ
front q = if q.count == 0 then none else some (get_or q.slots 0 no_task)

-- The queue after `attempts` rounds has room for one more.
record HasRoom (attempts : ℕ) (q : ReadyQueue) : Type 0 where
  slots_length : length q.slots ≡ 16
  few : q.count ≤ attempts

enqueue-HasRoom :
    (q : ReadyQueue) (attempts index id : ℕ)
    → attempts < 16
    → HasRoom attempts q
    → HasRoom (attempts + 1) (enqueue q index id)
enqueue-HasRoom q attempts index id lt r = record {
  slots_length = ground (arith, r.slots_length, length-set {0} q.slots q.count index);
  few = ground (arith, r.few, lt);
}

enqueue-count :
    (q : ReadyQueue) (attempts index id : ℕ)
    → attempts < 16
    → HasRoom attempts q
    → ((enqueue q index id).count == 0) ≡ false
enqueue-count q attempts index id lt r = ground (arith, r.few, lt)

front-enqueue :
    (q : ReadyQueue) (attempts index id : ℕ)
    → attempts < 16
    → HasRoom attempts q
    → front (enqueue q index id) ≡ (if q.count == 0 then some index else front q)
front-enqueue q attempts index id lt r =
    let room : leb 16 q.count ≡ false = ground (arith, r.few, lt) in
    elim (Bool-cases (q.count == 0)) [
      | inl e ↦
          let at : q.count ≡ 0 = ==→≡ q.count 0 e in
          ground (
            arith,
            room,
            e,
            at,
            get_or-set_self {0} q.slots 0 index no_task (omega (arith, r.slots_length)),
          )
      | inr e ↦ ground (
        arith,
        room,
        e,
        r.few,
        lt,
        get_or-set_ne {0} q.slots q.count 0 index no_task (==→≢ q.count 0 e),
      )
    ]

consider-HasRoom :
    (ts : List Task) (now attempts index : ℕ) (r : Rebuild)
    → attempts < 16
    → HasRoom attempts r.queue
    → HasRoom (attempts + 1) (consider ts now attempts index r).queue
consider-HasRoom ts now attempts index r lt room =
    if_cases (HasRoom (attempts + 1)) (is_ready (task_at ts index) now)
      (λ _. enqueue-HasRoom r.queue attempts index (task_at ts index).id lt room)
      (λ _. record { slots_length = room.slots_length; few = omega (arith, room.few) })

-- A round and the rounds behind it.
front-consider :
    (ts : List Task) (now attempts index : ℕ) (r : Rebuild) (later : Option ℕ)
    → attempts < 16
    → HasRoom attempts r.queue
    → (if (consider ts now attempts index r).queue.count == 0
        then later
        else front (consider ts now attempts index r).queue)
      ≡ (if r.queue.count == 0
          then (if is_ready (task_at ts index) now then some index else later)
          else front r.queue)
front-consider ts now attempts index r later lt room =
    elim (Bool-cases (is_ready (task_at ts index) now)) [
      | inl e ↦ rw e (
          if_false ((enqueue r.queue index (task_at ts index).id).count == 0) later
            (front (enqueue r.queue index (task_at ts index).id))
            (enqueue-count r.queue attempts index (task_at ts index).id lt room)
          ∙ front-enqueue r.queue attempts index (task_at ts index).id lt room)
      | inr e ↦ rw e (refl)
    ]

rebuild_rounds-front :
    (n : ℕ) (ts : List Task) (now start attempts : ℕ) (r : Rebuild)
    → attempts + n ≡ 16
    → HasRoom attempts r.queue
    → front (rebuild_rounds n ts now start attempts r).queue
      ≡ (if r.queue.count == 0 then first_ready n ts now start attempts else front r.queue)
unfolding rebuild_rounds
rebuild_rounds-front zero ts now start attempts r e room = elim (Bool-cases (r.queue.count == 0)) [
  | inl z ↦ rw z (refl)
  | inr z ↦ rw z (refl)
]
rebuild_rounds-front (suc n) ts now start attempts r e room =
    let index = (start + attempts) % 16 in
    rebuild_rounds-front n ts now start (attempts + 1) (consider ts now attempts index r)
      (omega (arith, e)) (consider-HasRoom ts now attempts index r (omega (arith, e)) room)
    ∙ front-consider ts now attempts index r (first_ready n ts now start (attempts + 1))
        (omega (arith, e)) room

front-rebuild :
    (s : Scheduler) (now : ℕ)
    → front (rebuild_ready_queue s now).queue
      ≡ first_ready 16 s.tasks now (s.stats.current_task_index % 16) 0
unfolding rebuild_ready_queue
front-rebuild s now =
    rebuild_rounds-front 16 s.tasks now (s.stats.current_task_index % 16) 0
      (record {
        queue = reset_queue (record (s.queue) { rebuilds = inc32 s.queue.rebuilds });
        considered = s.stats.tasks_considered;
        passes = s.stats.round_robin_passes;
      })
      refl (record { slots_length = refl; few = omega arith })

rebuild-index :
    (s : Scheduler) (now : ℕ)
    → (rebuild_ready_queue s now).stats.current_task_index ≡ s.stats.current_task_index
unfolding rebuild_ready_queue
rebuild-index s now = refl

some_inj : (m n : ℕ) → some m ≡ some n → m ≡ n
some_inj m n e = cc

-- A slot that is found lies in the table.
pub first_ready-small :
    (n : ℕ) (ts : List Task) (now start attempts i : ℕ)
    → first_ready n ts now start attempts ≡ some i
    → i < 16
first_ready-small zero ts now start attempts i e = absurd (cc)
first_ready-small (suc n) ts now start attempts i e =
    elim (Bool-cases (is_ready (task_at ts ((start + attempts) % 16)) now)) [
      | inl h ↦
          let at : (start + attempts) % 16 ≡ i =
            some_inj ((start + attempts) % 16) i (ground (arith, h, e)) in
          omega (arith, at)
      | inr h ↦ first_ready-small n ts now start (attempts + 1) i (ground (arith, h, e))
    ]

-- Where the next search starts.
abbrev pub next_index : Option ℕ → ℕ → ℕ
next_index none index = index
next_index (some i) index = (i + 1) % 16

-- What a selection owes.
pub record Selects (s : Scheduler) (now : ℕ) (r : Option ℕ × Scheduler) : Type 0 where
  pub selected : r.0 ≡ first_ready 16 s.tasks now (s.stats.current_task_index % 16) 0
  pub next_start : r.1.stats.current_task_index ≡ next_index r.0 s.stats.current_task_index
  pub same_tasks : r.1.tasks ≡ s.tasks

select_none-Selects :
    (s r : Scheduler) (now : ℕ)
    → front r.queue ≡ first_ready 16 s.tasks now (s.stats.current_task_index % 16) 0
    → r.stats.current_task_index ≡ s.stats.current_task_index
    → r.tasks ≡ s.tasks
    → (r.queue.count == 0) ≡ true
    → Selects s now (select_none r)
select_none-Selects s r now f i t e = record {
  selected = ground (arith, f, e);
  next_start = i;
  same_tasks = t;
}

select_slot-Selects :
    (s r : Scheduler) (now : ℕ)
    → front r.queue ≡ first_ready 16 s.tasks now (s.stats.current_task_index % 16) 0
    → r.tasks ≡ s.tasks
    → (r.queue.count == 0) ≡ false
    → Selects s now (select_slot r (get_or r.queue.slots 0 no_task))
select_slot-Selects s r now f t e = record {
  selected = ground (arith, f, e);
  next_start = refl;
  same_tasks = t;
}

rebuild-tasks : (s : Scheduler) (now : ℕ) → (rebuild_ready_queue s now).tasks ≡ s.tasks
unfolding rebuild_ready_queue
rebuild-tasks s now = refl

not_big : (slot : ℕ) → leb 16 slot ≡ true → slot < 16 → ⊥
not_big slot e lt = ground (arith, e, lt)

-- `scheduler_select_next_ready_task` selects the first slot with a ready task, from
-- `current_task_index` on and round the table, and no slot if no task is ready. The next selection
-- then starts behind the slot, or where this one did; the tasks stay as they are.
pub select-Selects : (s : Scheduler) (now : ℕ) → Selects s now (select_next_ready_task s now)
unfolding select_next_ready_task
select-Selects s now =
    let r = rebuild_ready_queue s now in
    let slot = get_or r.queue.slots 0 no_task in
    let f = front-rebuild s now in
    let start = s.stats.current_task_index % 16 in
    if_cases (Selects s now) (r.queue.count == 0)
      (λ e. select_none-Selects s r now f (rebuild-index s now) (rebuild-tasks s now) e)
      (λ e.
        if_cases (Selects s now) (leb 16 slot)
          (λ big. absurd (
            not_big slot big (
              first_ready-small 16 s.tasks now start 0 slot
                (sym f ∙ if_false (r.queue.count == 0) none (some slot) e))))
          (λ _. select_slot-Selects s r now f (rebuild-tasks s now) e))
