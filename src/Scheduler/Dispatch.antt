-- ===== src/Scheduler/Dispatch.antt =====
-- How core/kernel/core/scheduler.c runs tasks.
use liam_os.Base.{
  Bool, Option, false, if◌then◌else◌, inc32, ltb, none, not, set, some, sub32, true, ℕ, ◌==◌, ◌>>=◌,
  ◌||◌,
}
use liam_os.Scheduler.{
  Scheduler, active, completed, is_active, is_oneshot, recalculate_task_counts, running, task_at,
}
use liam_os.Scheduler.Queue.{select_next_ready_task, wake_sleeping_tasks}
use liam_os.Scheduler.Tasks.{find_task, for_found, free_kernel_stack, set_task}

-- `scheduler_preempt_test_info_t`
pub record PreemptTest : Type 0 where
  pub enabled : Bool
  pub in_timer_dispatch : Bool
  pub tick_interval : ℕ
  pub last_dispatch_tick : ℕ
  pub timer_ticks_seen : ℕ
  pub timer_dispatches : ℕ
  pub skipped_reentrant_dispatches : ℕ

-- `scheduler_clear_preempt_test_info`
abbrev pub clear_preempt_test : PreemptTest
clear_preempt_test = record {
  enabled = false;
  in_timer_dispatch = false;
  tick_interval = 0;
  last_dispatch_tick = 0;
  timer_ticks_seen = 0;
  timer_dispatches = 0;
  skipped_reentrant_dispatches = 0;
}

-- `scheduler_task_trampoline` up to the call of the task's entry.
abbrev pub enter_task : Scheduler → ℕ → Scheduler
enter_task s i = recalculate_task_counts (record s {
  tasks = set s.tasks i (record (task_at s.tasks i) { state = running });
  running_task = some i;
  stats = record (s.stats) { trampoline_entries = inc32 s.stats.trampoline_entries };
})

abbrev pub count_completion : Scheduler → Scheduler
count_completion s =
    recalculate_task_counts
      (record s { stats = record (s.stats) { task_completions = inc32 s.stats.task_completions } })

-- `scheduler_task_trampoline` after the call. `none`: the assertion on the stack failed.
unfoldable pub leave_task : Scheduler → ℕ → Option Scheduler
unfolding free_kernel_stack
leave_task s i =
    let t = task_at s.tasks i in
    let ran = record t { run_count = inc32 t.run_count } in
    let r : Scheduler = record s { running_task = none } in
    let done = set_task r i (record ran { state = completed }) in
    if not (is_oneshot t.mode)
    then some (recalculate_task_counts (set_task r i (record ran { state = active })))
    else if r.on_task_stack
    then some (count_completion done)
    else do f ← free_kernel_stack done i; some (count_completion f)

-- The stack of a task that has completed on it.
unfoldable pub free_completed : ℕ → Scheduler → Option Scheduler
unfolding free_kernel_stack
free_completed i s = elim (task_at s.tasks i).state [
  | completed ↦ free_kernel_stack s i
  | other ↦ some s
]

-- What a task's function, given by its address, does to the scheduler is a parameter.
module _ (run_entry : ℕ → Scheduler → Scheduler) where
  -- `scheduler_task_trampoline` of the task in slot `i`
  unfoldable pub trampoline : Scheduler → ℕ → Option Scheduler
  unfolding leave_task
  trampoline s i =
      let entry = (task_at s.tasks i).entry in
      if entry == 0 then some s else leave_task (run_entry entry (enter_task s i)) i

  -- `scheduler_run_task_now_unlocked` for the task in slot `i`
  unfoldable pub run_now_at : Scheduler → ℕ → Option (Bool × Scheduler)
  unfolding trampoline
  run_now_at s i =
      let t = task_at s.tasks i in
      let ready : Scheduler = record s {
        tasks = set s.tasks i (record t { last_run_tick = s.ticks });
        stats = record (s.stats) {
          manual_dispatches = inc32 s.stats.manual_dispatches;
          task_dispatches = inc32 s.stats.task_dispatches;
        };
      } in
      if not (is_active t.state) then some (false, s) else do r ← trampoline ready i; some (true, r)

  -- `scheduler_run_task_now_unlocked`
  unfoldable pub run_task_now : Scheduler → ℕ → Option (Bool × Scheduler)
  unfolding find_task run_now_at
  run_task_now s id = for_found (find_task s.tasks 0 id) (some (false, s)) (λ i. run_now_at s i)

  -- The task that `scheduler_run_pending_unlocked` has selected.
  unfoldable pub run_selected : ℕ → Option ℕ × Scheduler → Option Scheduler
  unfolding trampoline
  run_selected now (none, s) = some s
  run_selected now (some i, s) =
      trampoline
        (record s {
          tasks = set s.tasks i (record (task_at s.tasks i) { last_run_tick = now });
          stats = record (s.stats) { task_dispatches = inc32 s.stats.task_dispatches };
        })
        i

  -- `scheduler_run_pending_unlocked`
  unfoldable pub run_pending : Scheduler → Option Scheduler
  unfolding wake_sleeping_tasks select_next_ready_task run_selected
  run_pending s =
      let w = wake_sleeping_tasks s s.ticks in
      let counted : Scheduler = record w {
        stats = record (w.stats) { scheduler_runs = inc32 w.stats.scheduler_runs };
      } in
      if not s.stats.initialized
      then some s
      else run_selected s.ticks (select_next_ready_task counted s.ticks)

  -- `scheduler_run_task_with_context_switch_unlocked` for the task in slot `i`. The switch of
  -- contexts runs `scheduler_switched_task_entry` on the task's stack, which runs the trampoline and
  -- switches back. The contexts that the switch saves and `scheduler_prepare_switched_context` are
  -- left out.
  unfoldable pub run_switched_at : Scheduler → ℕ → Option (Bool × Scheduler)
  unfolding trampoline free_completed
  run_switched_at s i =
      let t = task_at s.tasks i in
      let entered : Scheduler = record s {
        switched_task = some i;
        on_task_stack = true;
        tasks = set s.tasks i (record t { last_run_tick = s.ticks });
        stats = record (s.stats) {
          switched_dispatches = inc32 s.stats.switched_dispatches;
          task_dispatches = inc32 s.stats.task_dispatches;
        };
      } in
      if not (is_active t.state)
      then some (false, s)
      else if (t.kernel_stack_base == 0) || (t.kernel_stack_top == 0)
      then some (false, s)
      else do
        r ← trampoline entered i
        f ← free_completed i (record r {
          on_task_stack = false;
          switched_task = none;
          stats = record (r.stats) { switched_returns = inc32 r.stats.switched_returns };
        })
        some (true, recalculate_task_counts f)

  -- `scheduler_on_timer_tick`
  unfoldable pub on_timer_tick : Scheduler → PreemptTest → ℕ → Option (Scheduler × PreemptTest)
  unfolding wake_sleeping_tasks run_pending
  on_timer_tick s p tick =
      let seen : PreemptTest = record p { timer_ticks_seen = inc32 p.timer_ticks_seen } in
      let w = wake_sleeping_tasks s tick in
      if not s.stats.initialized
      then some (s, p)
      else if not p.enabled
      then some (w, seen)
      else if p.in_timer_dispatch
      then some
          (w, record seen { skipped_reentrant_dispatches = inc32 p.skipped_reentrant_dispatches })
      else if ltb (sub32 tick p.last_dispatch_tick) p.tick_interval
      then some (w, seen)
      else do
        r ← run_pending w
        some (
          r,
          record seen {
            in_timer_dispatch = false;
            last_dispatch_tick = tick;
            timer_dispatches = inc32 p.timer_dispatches;
          },
        )

-- `scheduler_enable_preempt_test`
abbrev pub enable_preempt_test : PreemptTest → ℕ → ℕ → PreemptTest
enable_preempt_test p ticks tick_interval = record p {
  enabled = true;
  tick_interval = if tick_interval == 0 then 10 else tick_interval;
  last_dispatch_tick = ticks;
}

-- `scheduler_disable_preempt_test`
abbrev pub disable_preempt_test : PreemptTest → PreemptTest
disable_preempt_test p = record p { enabled = false; in_timer_dispatch = false }

-- `scheduler_reset_preempt_test`
abbrev pub reset_preempt_test : PreemptTest → ℕ → PreemptTest
reset_preempt_test p ticks =
    if p.enabled
    then record clear_preempt_test {
      enabled = true;
      tick_interval = if p.tick_interval == 0 then 10 else p.tick_interval;
      last_dispatch_tick = ticks;
    }
    else clear_preempt_test
