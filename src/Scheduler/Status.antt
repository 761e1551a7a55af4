-- ===== src/Scheduler/Status.antt =====
-- The interface of core/kernel/core/scheduler.c with status codes, and its initialization.
use liam_os.Base.{
  Bool, List, Option, Status, false, if◌then◌else◌, invalid_argument, invalid_state, leb, none, not,
  not_found, not_initialized, ok, out_of_memory, replicate, some, true, unknown, ℕ, ◌&&◌, ◌==◌,
  ◌||◌,
}
use liam_os.Heap.{Heap}
use liam_os.Scheduler.{
  ReadyQueue, Scheduler, SchedulerStats, clear_task, is_active, is_running, is_sleeping, max_tasks,
  no_task, oneshot, recurring, task_at,
}
use liam_os.Scheduler.Tasks.{
  create_task, disable_task, find_task, sleep_task, wake_task, yield_task,
}

-- `scheduler_clear_ready_queue_info`
abbrev pub clear_queue : ReadyQueue
clear_queue = record {
  rebuilds = 0;
  count = 0;
  head = 0;
  tail = 0;
  overflows = 0;
  selected_slot = no_task;
  task_ids = replicate max_tasks 0;
  slots = replicate max_tasks no_task;
}

-- The statistics that `scheduler_initialize` sets.
abbrev pub first_stats : SchedulerStats
first_stats = record {
  initialized = true;
  next_task_id = 1;
  active_tasks = 0;
  running_tasks = 0;
  completed_tasks = 0;
  disabled_tasks = 0;
  sleeping_tasks = 0;
  total_created_tasks = 0;
  scheduler_runs = 0;
  task_dispatches = 0;
  manual_dispatches = 0;
  switched_dispatches = 0;
  switched_returns = 0;
  current_task_index = 0;
  last_selected_task_id = 0;
  round_robin_passes = 0;
  tasks_considered = 0;
  tasks_selected = 0;
  no_task_selected = 0;
  allocated_kernel_stacks = 0;
  freed_kernel_stacks = 0;
  failed_stack_allocations = 0;
  trampoline_entries = 0;
  task_completions = 0;
  task_sleeps = 0;
  task_wakes = 0;
  task_yields = 0;
  failed_task_yields = 0;
  last_yielded_task_id = 0;
  context_self_tests = 0;
  switch_tests = 0;
  switch_test_failures = 0;
}

-- `scheduler_initialize`; the tests' own variables, the lock and the audit are apart.
unfoldable pub initialize : Heap → ℕ → Scheduler
initialize heap ticks = record {
  tasks = replicate max_tasks clear_task;
  stats = first_stats;
  queue = clear_queue;
  running_task = none;
  switched_task = none;
  on_task_stack = false;
  heap = heap;
  ticks = ticks;
}

-- The last line of a status function.
abbrev pub status_of : Bool × Scheduler → Status × Scheduler
status_of (done, s) = (if done then ok else unknown, s)

abbrev pub option_status : Option (Bool × Scheduler) → Option (Status × Scheduler)
option_status none = none
option_status (some r) = some (status_of r)

-- The middle of `scheduler_disable_task_status`, with what the search has found.
unfoldable pub disable_found : Scheduler → ℕ → Option ℕ → Option (Status × Scheduler)
unfolding disable_task
disable_found s id none = some (not_found, s)
disable_found s id (some i) =
    let state = (task_at s.tasks i).state in
    if not (is_active state) && not (is_running state)
    then some (invalid_state, s)
    else option_status (disable_task s id)

-- `scheduler_disable_task_status`
unfoldable pub disable_task_status : Scheduler → ℕ → Option (Status × Scheduler)
unfolding disable_found
disable_task_status s id =
    if id == 0
    then some (invalid_argument, s)
    else if not s.stats.initialized
    then some (not_initialized, s)
    else disable_found s id (find_task s.tasks 0 id)

-- The middle of `scheduler_sleep_task_status`
unfoldable pub sleep_found : Scheduler → ℕ → ℕ → Option ℕ → Status × Scheduler
unfolding sleep_task
sleep_found s id sleep_ticks none = (not_found, s)
sleep_found s id sleep_ticks (some i) =
    if not (is_active (task_at s.tasks i).state)
    then (invalid_state, s)
    else status_of (sleep_task s id sleep_ticks)

-- `scheduler_sleep_task_status`
unfoldable pub sleep_task_status : Scheduler → ℕ → ℕ → Status × Scheduler
unfolding sleep_found
sleep_task_status s id sleep_ticks =
    if (id == 0) || (sleep_ticks == 0)
    then (invalid_argument, s)
    else if not s.stats.initialized
    then (not_initialized, s)
    else sleep_found s id sleep_ticks (find_task s.tasks 0 id)

-- The middle of `scheduler_wake_task_status`
unfoldable pub wake_found : Scheduler → ℕ → Option ℕ → Status × Scheduler
unfolding wake_task
wake_found s id none = (not_found, s)
wake_found s id (some i) =
    if not (is_sleeping (task_at s.tasks i).state)
    then (invalid_state, s)
    else status_of (wake_task s id)

-- `scheduler_wake_task_status`
unfoldable pub wake_task_status : Scheduler → ℕ → Status × Scheduler
unfolding wake_found
wake_task_status s id =
    if id == 0
    then (invalid_argument, s)
    else if not s.stats.initialized
    then (not_initialized, s)
    else wake_found s id (find_task s.tasks 0 id)

-- The middle of `scheduler_yield_task_status`
unfoldable pub yield_found : Scheduler → ℕ → Option ℕ → Status × Scheduler
unfolding yield_task
yield_found s id none = (not_found, s)
yield_found s id (some i) =
    let state = (task_at s.tasks i).state in
    if not (is_active state) && not (is_running state)
    then (invalid_state, s)
    else status_of (yield_task s id)

-- `scheduler_yield_task_status`
unfoldable pub yield_task_status : Scheduler → ℕ → Status × Scheduler
unfolding yield_found
yield_task_status s id =
    if id == 0
    then (invalid_argument, s)
    else if not s.stats.initialized
    then (not_initialized, s)
    else yield_found s id (find_task s.tasks 0 id)

-- The end of a creation: a result that is negative as an `int` is an error.
abbrev pub create_status : ℕ × Scheduler → Status × ℕ × Scheduler
create_status (result, s) = if leb 0x80000000 result then (out_of_memory, 0, s) else (ok, result, s)

abbrev pub created : Option (ℕ × Scheduler) → Option (Status × ℕ × Scheduler)
created none = none
created (some r) = some (create_status r)

-- `scheduler_create_kernel_task_status`, for a `task_id` that is not null: the status, the id and the
-- scheduler. `name` is an option: null or a text.
unfoldable pub create_kernel_task_status :
    Scheduler → Option (List ℕ) → ℕ → ℕ → Option (Status × ℕ × Scheduler)
unfolding create_task
create_kernel_task_status s none interval entry =
    if not s.stats.initialized then some (not_initialized, 0, s) else some (invalid_argument, 0, s)
create_kernel_task_status s (some name) interval entry =
    if not s.stats.initialized
    then some (not_initialized, 0, s)
    else if (entry == 0) || (interval == 0)
    then some (invalid_argument, 0, s)
    else created (create_task s name interval entry recurring)

-- `scheduler_create_oneshot_kernel_task_status`
unfoldable pub create_oneshot_task_status :
    Scheduler → Option (List ℕ) → ℕ → Option (Status × ℕ × Scheduler)
unfolding create_task
create_oneshot_task_status s none entry =
    if not s.stats.initialized then some (not_initialized, 0, s) else some (invalid_argument, 0, s)
create_oneshot_task_status s (some name) entry =
    if not s.stats.initialized
    then some (not_initialized, 0, s)
    else if entry == 0
    then some (invalid_argument, 0, s)
    else created (create_task s name 0 entry oneshot)
