-- ===== src/Scheduler.antt =====
-- core/kernel/core/scheduler.c: the scheduler of kernel tasks.
-- The table is the list of its 16 tasks, and a `scheduler_task_t*` is a place in it (a pointer that
-- leaves the table: a place behind its end). A task's entry is the address of its function, 0 for
-- null. `ticks` is what `timer_get_ticks` returns.
pub mod Queue
pub mod Selection
pub mod Fairness
pub mod Tasks
pub mod Dispatch
pub mod Lock
pub mod Audit
pub mod Sleeping
pub mod Repairing
pub mod Repaired
pub mod Status
pub mod Counted
pub mod Steps
pub mod Numbers
pub mod Revived
mod Tests
use liam_os.Base.{
  Bool, List, Option, [], false, get_or, if◌then◌else◌, inc32, replicate, true, ℕ, ◌&&◌, ◌||◌, ◌∷◌,
}
use liam_os.Heap.{Heap}

-- `scheduler_task_state_t`; `stray`: a value that names no state.
pub data TaskState : Type 0 where
  unused active running disabled completed sleeping stray : TaskState

-- `scheduler_task_mode_t`
pub data TaskMode : Type 0 where
  recurring oneshot : TaskMode

-- `scheduler_context_t`
pub record Context : Type 0 where
  pub eip : ℕ
  pub esp : ℕ
  pub ebp : ℕ
  pub eflags : ℕ
  pub eax : ℕ
  pub ebx : ℕ
  pub ecx : ℕ
  pub edx : ℕ
  pub esi : ℕ
  pub edi : ℕ

-- `scheduler_task_t`
pub record Task : Type 0 where
  pub used : Bool
  pub id : ℕ
  pub name : List ℕ
  pub state : TaskState
  pub mode : TaskMode
  pub interval_ticks : ℕ
  pub last_run_tick : ℕ
  pub run_count : ℕ
  pub wake_tick : ℕ
  pub sleep_count : ℕ
  pub kernel_stack_base : ℕ
  pub kernel_stack_size : ℕ
  pub kernel_stack_top : ℕ
  pub context : Context
  pub entry : ℕ

-- `scheduler_ready_queue_info_t`, with `scheduler_ready_queue_slots` beside `task_ids`.
pub record ReadyQueue : Type 0 where
  pub rebuilds : ℕ
  pub count : ℕ
  pub head : ℕ
  pub tail : ℕ
  pub overflows : ℕ
  pub selected_slot : ℕ
  pub task_ids : List ℕ
  pub slots : List ℕ

-- `scheduler_stats_t`
pub record SchedulerStats : Type 0 where
  pub initialized : Bool
  pub next_task_id : ℕ
  pub active_tasks : ℕ
  pub running_tasks : ℕ
  pub completed_tasks : ℕ
  pub disabled_tasks : ℕ
  pub sleeping_tasks : ℕ
  pub total_created_tasks : ℕ
  pub scheduler_runs : ℕ
  pub task_dispatches : ℕ
  pub manual_dispatches : ℕ
  pub switched_dispatches : ℕ
  pub switched_returns : ℕ
  pub current_task_index : ℕ
  pub last_selected_task_id : ℕ
  pub round_robin_passes : ℕ
  pub tasks_considered : ℕ
  pub tasks_selected : ℕ
  pub no_task_selected : ℕ
  pub allocated_kernel_stacks : ℕ
  pub freed_kernel_stacks : ℕ
  pub failed_stack_allocations : ℕ
  pub trampoline_entries : ℕ
  pub task_completions : ℕ
  pub task_sleeps : ℕ
  pub task_wakes : ℕ
  pub task_yields : ℕ
  pub failed_task_yields : ℕ
  pub last_yielded_task_id : ℕ
  pub context_self_tests : ℕ
  pub switch_tests : ℕ
  pub switch_test_failures : ℕ

-- The static variables of scheduler.c that its operations share, the heap, and the timer's count.
pub record Scheduler : Type 0 where
  pub tasks : List Task
  pub stats : SchedulerStats
  pub queue : ReadyQueue
  pub running_task : Option ℕ
  pub switched_task : Option ℕ
  pub on_task_stack : Bool
  pub heap : Heap
  pub ticks : ℕ

abbrev pub max_tasks : ℕ
max_tasks = 16

abbrev pub no_task : ℕ
no_task = 0xFFFFFFFF

-- `scheduler_clear_context`
abbrev pub clear_context : Context
clear_context = record {
  eip = 0;
  esp = 0;
  ebp = 0;
  eflags = 0x202;
  eax = 0;
  ebx = 0;
  ecx = 0;
  edx = 0;
  esi = 0;
  edi = 0;
}

-- `scheduler_clear_task`. The name's bytes are cleared.
abbrev pub clear_task : Task
clear_task = record {
  used = false;
  id = 0;
  name = replicate 32 0;
  state = unused;
  mode = recurring;
  interval_ticks = 0;
  last_run_tick = 0;
  run_count = 0;
  wake_tick = 0;
  sleep_count = 0;
  kernel_stack_base = 0;
  kernel_stack_size = 0;
  kernel_stack_top = 0;
  context = clear_context;
  entry = 0;
}

abbrev pub is_active : TaskState → Bool
is_active active = true
is_active s = false

abbrev pub is_running : TaskState → Bool
is_running running = true
is_running s = false

abbrev pub is_sleeping : TaskState → Bool
is_sleeping sleeping = true
is_sleeping s = false

-- The tests for SCHEDULER_TASK_DISABLED or SCHEDULER_TASK_COMPLETED
abbrev pub is_inactive : TaskState → Bool
is_inactive disabled = true
is_inactive completed = true
is_inactive s = false

-- The tests for SCHEDULER_TASK_ACTIVE, RUNNING or SLEEPING
abbrev pub is_alive : TaskState → Bool
is_alive s = is_active s || (is_running s || is_sleeping s)

-- `scheduler_task_state_is_valid`
abbrev pub state_is_valid : TaskState → Bool
state_is_valid stray = false
state_is_valid s = true

abbrev pub is_oneshot : TaskMode → Bool
is_oneshot oneshot = true
is_oneshot recurring = false

abbrev pub task_at : List Task → ℕ → Task
task_at ts i = get_or ts i clear_task

-- What `scheduler_recalculate_task_counts` counts.
unfoldable pub count_state : (TaskState → Bool) → List Task → ℕ
count_state test [] = 0
count_state test (t ∷ ts) =
    let rest = count_state test ts in if t.used && test t.state then inc32 rest else rest

abbrev pub is_completed : TaskState → Bool
is_completed completed = true
is_completed s = false

abbrev pub is_disabled : TaskState → Bool
is_disabled disabled = true
is_disabled s = false

-- `scheduler_recalculate_task_counts`
unfoldable pub recalculate_task_counts : Scheduler → Scheduler
unfolding count_state
recalculate_task_counts s = record s {
  stats = record (s.stats) {
    active_tasks = count_state is_active s.tasks;
    running_tasks = count_state is_running s.tasks;
    completed_tasks = count_state is_completed s.tasks;
    disabled_tasks = count_state is_disabled s.tasks;
    sleeping_tasks = count_state is_sleeping s.tasks;
  };
}
