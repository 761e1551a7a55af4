-- ===== src/Scheduler/Queue.antt =====
-- How core/kernel/core/scheduler.c wakes sleeping tasks, rebuilds the ready queue and selects a task.
use liam_os.Base.{
  Bool, List, Option, [], false, get_or, if◌then◌else◌, inc32, leb, ltb, none, not, replicate, set,
  some, sub32, suc, true, zero, ℕ, ◌%◌, ◌&&◌, ◌+◌, ◌==◌, ◌||◌, ◌∷◌,
}
use liam_os.Scheduler.{
  ReadyQueue, Scheduler, Task, active, is_active, is_oneshot, is_sleeping, max_tasks, no_task,
  recalculate_task_counts, task_at,
}

-- The tests of `scheduler_wake_sleeping_tasks`; the difference of the ticks wraps.
abbrev pub is_due : ℕ → Task → Bool
is_due now t = (t.used && is_sleeping t.state) && ltb (sub32 now t.wake_tick) 0x80000000

abbrev pub wake_due : ℕ → Task → Task
wake_due now t = if is_due now t then record t { state = active; wake_tick = 0 } else t

-- The loop of `scheduler_wake_sleeping_tasks`: the tasks, `task_wakes`, and `changed`.
unfoldable pub wake_each : ℕ → List Task → List Task
wake_each now [] = []
wake_each now (t ∷ ts) = wake_due now t ∷ wake_each now ts

unfoldable pub count_wakes : ℕ → List Task → ℕ → ℕ
count_wakes now [] wakes = wakes
count_wakes now (t ∷ ts) wakes = count_wakes now ts (if is_due now t then inc32 wakes else wakes)

unfoldable pub any_due : ℕ → List Task → Bool
any_due now [] = false
any_due now (t ∷ ts) = let later = any_due now ts in is_due now t || later

-- `scheduler_wake_sleeping_tasks`
unfoldable pub wake_sleeping_tasks : Scheduler → ℕ → Scheduler
unfolding wake_each count_wakes any_due
wake_sleeping_tasks s now =
    let woken : Scheduler = record s {
      tasks = wake_each now s.tasks;
      stats = record (s.stats) { task_wakes = count_wakes now s.tasks s.stats.task_wakes };
    } in
    if any_due now s.tasks then recalculate_task_counts woken else woken

-- `scheduler_task_is_ready_to_run`
unfoldable pub is_ready : Task → ℕ → Bool
is_ready t now =
    if not t.used || not (is_active t.state)
    then false
    else if is_oneshot t.mode
    then true
    else not (ltb (sub32 now t.last_run_tick) t.interval_ticks)

-- `scheduler_reset_ready_queue_snapshot`
abbrev pub reset_queue : ReadyQueue → ReadyQueue
reset_queue q = record q {
  count = 0;
  head = 0;
  tail = 0;
  selected_slot = no_task;
  task_ids = replicate max_tasks 0;
  slots = replicate max_tasks no_task;
}

-- What the loop of `scheduler_rebuild_ready_queue` changes.
pub record Rebuild : Type 0 where
  pub queue : ReadyQueue
  pub considered : ℕ
  pub passes : ℕ

-- The end of a round, for the task that is ready.
abbrev pub enqueue : ReadyQueue → ℕ → ℕ → ReadyQueue
enqueue q index id =
    if leb max_tasks q.count then record q { overflows = inc32 q.overflows } else record q {
      slots = set q.slots q.count index;
      task_ids = set q.task_ids q.count id;
      count = inc32 q.count;
    }

-- A round of the loop.
abbrev pub consider : List Task → ℕ → ℕ → ℕ → Rebuild → Rebuild
consider ts now attempts index r = record {
  queue =
      if is_ready (task_at ts index) now
      then enqueue r.queue index (task_at ts index).id
      else r.queue;
  considered = inc32 r.considered;
  passes = if ltb 0 attempts && (index == 0) then inc32 r.passes else r.passes;
}

-- The loop, with `n` rounds left.
unfoldable pub rebuild_rounds : ℕ → List Task → ℕ → ℕ → ℕ → Rebuild → Rebuild
unfolding is_ready
rebuild_rounds zero ts now start attempts r = r
rebuild_rounds (suc n) ts now start attempts r =
    rebuild_rounds n ts now start (attempts + 1)
      (consider ts now attempts ((start + attempts) % max_tasks) r)

-- `scheduler_rebuild_ready_queue`
unfoldable pub rebuild_ready_queue : Scheduler → ℕ → Scheduler
unfolding rebuild_rounds
rebuild_ready_queue s now =
    let q = reset_queue (record (s.queue) { rebuilds = inc32 s.queue.rebuilds }) in
    let r =
      rebuild_rounds max_tasks s.tasks now (s.stats.current_task_index % max_tasks) 0 (record {
        queue = q;
        considered = s.stats.tasks_considered;
        passes = s.stats.round_robin_passes;
      }) in
    let q' = r.queue in
    record s {
      queue = record q' { tail = q'.count };
      stats = record (s.stats) { tasks_considered = r.considered; round_robin_passes = r.passes };
    }

abbrev pub select_none : Scheduler → Option ℕ × Scheduler
select_none s = (
  none,
  record s {
    stats = record (s.stats) {
      last_selected_task_id = no_task;
      no_task_selected = inc32 s.stats.no_task_selected;
    };
  },
)

abbrev pub select_slot : Scheduler → ℕ → Option ℕ × Scheduler
select_slot s slot = (
  some slot,
  record s {
    queue = record (s.queue) { selected_slot = slot; head = 1 };
    stats = record (s.stats) {
      current_task_index = (slot + 1) % max_tasks;
      last_selected_task_id = (task_at s.tasks slot).id;
      tasks_selected = inc32 s.stats.tasks_selected;
    };
  },
)

-- `scheduler_select_next_ready_task`. Its assertions repeat tests made before: the slot is in the
-- table, and a task in the queue was found used.
unfoldable pub select_next_ready_task : Scheduler → ℕ → Option ℕ × Scheduler
unfolding rebuild_ready_queue
select_next_ready_task s now =
    let r = rebuild_ready_queue s now in
    let slot = get_or r.queue.slots 0 no_task in
    if r.queue.count == 0
    then select_none r
    else if leb max_tasks slot
    then select_none r
    else select_slot r slot
