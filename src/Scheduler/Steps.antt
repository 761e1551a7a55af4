-- ===== src/Scheduler/Steps.antt =====
-- Any sequence of operations of core/kernel/core/scheduler.c keeps the counts of tasks right.
use liam_os.Base.{
  Bool, List, Option, [], false, get_or, if_cases, inc32, leb, none, not, refl, set, some, true, ℕ,
  ◌&&◌, ◌==◌, ◌>>=◌, ◌||◌, ◌∷◌,
}
use liam_os.Heap.{Heap}
use liam_os.Scheduler.{
  Scheduler, Task, TaskMode, completed, count_state, is_oneshot, max_tasks, no_task, task_at,
}
use liam_os.Scheduler.Queue.{
  rebuild_ready_queue, select_next_ready_task, select_none, select_slot, wake_sleeping_tasks,
}
use liam_os.Scheduler.Tasks.{
  allocate_kernel_stack, clear_inactive_tasks, clear_rounds, create_at, create_task, disable_task,
  find_available, finish_clear, finish_create, free_kernel_stack, minus_one, new_task, set_task,
  sleep_task, wake_task, yield_task,
}
use liam_os.Scheduler.Dispatch.{
  count_completion, enter_task, leave_task, run_pending, run_selected, trampoline,
}
use liam_os.Scheduler.Status.{initialize}
use liam_os.Scheduler.Counted.{
  Counts, IsCounted, after, count_state-set, disable_task-Counts, found_cases, recalculated,
  sleep_task-IsCounted, unchanged, wake_sleeping_tasks-IsCounted, wake_task-IsCounted,
  yield_task-IsCounted,
}

-- An operation of the scheduler.
pub data Operation : Type 0 where
  create : List ℕ → ℕ → ℕ → TaskMode → Operation
  disable sleep_done : ℕ → Operation
  sleep : ℕ → ℕ → Operation
  yield : ℕ → Operation
  clear : Operation
  tick : ℕ → Operation
  run_one : Operation

-- The operation, for what a task's function does; `none`: an assertion has stopped the kernel.
unfoldable pub perform : (ℕ → Scheduler → Scheduler) → Scheduler → Operation → Option Scheduler
unfolding create_task disable_task sleep_task wake_task yield_task clear_inactive_tasks run_pending
perform run s (create name interval entry mode) = after (create_task s name interval entry mode)
perform run s (disable id) = after (disable_task s id)
perform run s (sleep_done id) = some (wake_task s id).1
perform run s (sleep id d) = some (sleep_task s id d).1
perform run s (yield id) = some (yield_task s id).1
perform run s clear = after (clear_inactive_tasks s)
perform run s (tick now) = some (wake_sleeping_tasks s now)
perform run s run_one = run_pending run s

-- Operations in a row.
unfoldable pub perform_all :
    (ℕ → Scheduler → Scheduler) → Scheduler → List Operation → Option Scheduler
unfolding perform
perform_all run s [] = some s
perform_all run s (o ∷ os) = perform run s o >>= (λ r. perform_all run r os)

finish_create-IsCounted : (i id : ℕ) (r : Bool × Scheduler) → IsCounted (finish_create i id r).1
unfolding finish_create
finish_create-IsCounted i id (true, s) = recalculated _
finish_create-IsCounted i id (false, s) = recalculated _

created-Counts :
    (i id : ℕ) (o : Option (Bool × Scheduler))
    → Counts (after (o >>= (λ r. some (finish_create i id r))))
created-Counts i id none = tt
created-Counts i id (some r) = finish_create-IsCounted i id r

allocated-Counts :
    (i : ℕ) (o : Option Scheduler) (g : Scheduler → Scheduler)
    → Counts (
        after (
          o >>= (λ f.
            allocate_kernel_stack (g f) i
            >>= (λ r. some (finish_create i f.stats.next_task_id r)))))
allocated-Counts i none g = tt
allocated-Counts i (some f) g =
    created-Counts i f.stats.next_task_id (allocate_kernel_stack (g f) i)

create_at-Counts :
    (s : Scheduler) (name : List ℕ) (interval entry : ℕ) (mode : TaskMode) (i : ℕ)
    → Counts (after (create_at s name interval entry mode i))
unfolding create_at
create_at-Counts s name interval entry mode i =
    allocated-Counts i (free_kernel_stack s i)
      (λ f. set_task f i (new_task f name interval entry mode))

create_task-Counts :
    (s : Scheduler) (name : List ℕ) (interval entry : ℕ) (mode : TaskMode)
    → IsCounted s
    → Counts (after (create_task s name interval entry mode))
unfolding create_task
create_task-Counts s name interval entry mode c =
    let P : Option (ℕ × Scheduler) → Type 0 = λ r. Counts (after r) in
    if_cases P (not s.stats.initialized || (entry == 0)) (λ _. c)
      (λ _.
        if_cases P (not (is_oneshot mode) && (interval == 0)) (λ _. c)
          (λ _.
            found_cases P (find_available s.tasks 0) (some (minus_one, s))
              (create_at s name interval entry mode) c
              (λ i. create_at-Counts s name interval entry mode i)))

cleared-Counts : (o : Option (ℕ × Scheduler)) → Counts (after (o >>= (λ r. some (finish_clear r))))
cleared-Counts none = tt
cleared-Counts (some (n, s)) = recalculated _

clear_inactive_tasks-Counts : (s : Scheduler) → Counts (after (clear_inactive_tasks s))
unfolding clear_inactive_tasks
clear_inactive_tasks-Counts s = cleared-Counts (clear_rounds max_tasks s 0 0)

completed-Counts : (o : Option Scheduler) → Counts (o >>= (λ f. some (count_completion f)))
completed-Counts none = tt
completed-Counts (some f) = recalculated _

leave_task-Counts : (s : Scheduler) (i : ℕ) → Counts (leave_task s i)
unfolding leave_task
leave_task-Counts s i =
    let t = task_at s.tasks i in
    let r : Scheduler = record s { running_task = none } in
    let done = set_task r i (record t { run_count = inc32 t.run_count; state = completed }) in
    if_cases Counts (not (is_oneshot t.mode)) (λ _. recalculated _)
      (λ _.
        if_cases Counts r.on_task_stack (λ _. recalculated _)
          (λ _. completed-Counts (free_kernel_stack done i)))

trampoline-Counts :
    (run : ℕ → Scheduler → Scheduler) (s : Scheduler) (i : ℕ)
    → IsCounted s
    → Counts (trampoline run s i)
unfolding trampoline
trampoline-Counts run s i c =
    if_cases Counts ((task_at s.tasks i).entry == 0) (λ _. c)
      (λ _. leave_task-Counts (run (task_at s.tasks i).entry (enter_task s i)) i)

-- A selection changes no count and no task.
select_none-IsCounted : (s : Scheduler) → IsCounted s → IsCounted (select_none s).1
select_none-IsCounted s c =
    unchanged s (select_none s).1
      (record {
        same_active = refl;
        same_running = refl;
        same_completed = refl;
        same_disabled = refl;
        same_sleeping = refl;
        same_states = λ test. refl;
      })
      c

select_slot-IsCounted : (s : Scheduler) (slot : ℕ) → IsCounted s → IsCounted (select_slot s slot).1
select_slot-IsCounted s slot c =
    unchanged s (select_slot s slot).1
      (record {
        same_active = refl;
        same_running = refl;
        same_completed = refl;
        same_disabled = refl;
        same_sleeping = refl;
        same_states = λ test. refl;
      })
      c

rebuild-IsCounted : (s : Scheduler) (now : ℕ) → IsCounted s → IsCounted (rebuild_ready_queue s now)
unfolding rebuild_ready_queue
rebuild-IsCounted s now c =
    unchanged s (rebuild_ready_queue s now)
      (record {
        same_active = refl;
        same_running = refl;
        same_completed = refl;
        same_disabled = refl;
        same_sleeping = refl;
        same_states = λ test. refl;
      })
      c

select-IsCounted :
    (s : Scheduler) (now : ℕ) → IsCounted s → IsCounted (select_next_ready_task s now).1
unfolding select_next_ready_task
select-IsCounted s now c =
    let r = rebuild_ready_queue s now in
    let slot = get_or r.queue.slots 0 no_task in
    let k = rebuild-IsCounted s now c in
    if_cases (λ (x : Option ℕ × Scheduler). IsCounted x.1) (r.queue.count == 0)
      (λ _. select_none-IsCounted r k)
      (λ _.
        if_cases (λ (x : Option ℕ × Scheduler). IsCounted x.1) (leb max_tasks slot)
          (λ _. select_none-IsCounted r k) (λ _. select_slot-IsCounted r slot k))

run_selected-Counts :
    (run : ℕ → Scheduler → Scheduler) (now : ℕ) (r : Option ℕ × Scheduler)
    → IsCounted r.1
    → Counts (run_selected run now r)
unfolding run_selected
run_selected-Counts run now (none, s) c = c
run_selected-Counts run now (some i, s) c =
    let t : Task = record (task_at s.tasks i) { last_run_tick = now } in
    let d : Scheduler = record s {
      tasks = set s.tasks i t;
      stats = record (s.stats) { task_dispatches = inc32 s.stats.task_dispatches };
    } in
    trampoline-Counts run d i (
      unchanged s d
        (record {
          same_active = refl;
          same_running = refl;
          same_completed = refl;
          same_disabled = refl;
          same_sleeping = refl;
          same_states = λ test. count_state-set test s.tasks i t refl refl;
        })
        c)

run_pending-Counts :
    (run : ℕ → Scheduler → Scheduler) (s : Scheduler) → IsCounted s → Counts (run_pending run s)
unfolding run_pending
run_pending-Counts run s c =
    let w = wake_sleeping_tasks s s.ticks in
    let counted : Scheduler = record w {
      stats = record (w.stats) { scheduler_runs = inc32 w.stats.scheduler_runs };
    } in
    let k =
      unchanged w counted
        (record {
          same_active = refl;
          same_running = refl;
          same_completed = refl;
          same_disabled = refl;
          same_sleeping = refl;
          same_states = λ test. refl;
        })
        (wake_sleeping_tasks-IsCounted s s.ticks c) in
    if_cases Counts (not s.stats.initialized) (λ _. c)
      (λ _.
        run_selected-Counts run s.ticks (select_next_ready_task counted s.ticks)
          (select-IsCounted counted s.ticks k))

perform-Counts :
    (run : ℕ → Scheduler → Scheduler) (s : Scheduler) (o : Operation)
    → IsCounted s
    → Counts (perform run s o)
unfolding perform
perform-Counts run s (create name interval entry mode) c =
    create_task-Counts s name interval entry mode c
perform-Counts run s (disable id) c = disable_task-Counts s id c
perform-Counts run s (sleep_done id) c = wake_task-IsCounted s id c
perform-Counts run s (sleep id d) c = sleep_task-IsCounted s id d c
perform-Counts run s (yield id) c = yield_task-IsCounted s id c
perform-Counts run s clear c = clear_inactive_tasks-Counts s
perform-Counts run s (tick now) c = wake_sleeping_tasks-IsCounted s now c
perform-Counts run s run_one c = run_pending-Counts run s c

then_all :
    (run : ℕ → Scheduler → Scheduler) (o : Option Scheduler) (os : List Operation)
    → Counts o
    → ((r : Scheduler) → IsCounted r → Counts (perform_all run r os))
    → Counts (o >>= (λ r. perform_all run r os))
then_all run none os c f = tt
then_all run (some r) os c f = f r c

pub all-Counts :
    (run : ℕ → Scheduler → Scheduler) (s : Scheduler) (os : List Operation)
    → IsCounted s
    → Counts (perform_all run s os)
unfolding perform_all
all-Counts run s [] c = c
all-Counts run s (o ∷ os) c =
    then_all run (perform run s o) os (perform-Counts run s o c) (λ r k. all-Counts run r os k)

pub initialize-IsCounted : (heap : Heap) (ticks : ℕ) → IsCounted (initialize heap ticks)
unfolding initialize count_state
initialize-IsCounted heap ticks = record {
  active_counted = refl;
  running_counted = refl;
  completed_counted = refl;
  disabled_counted = refl;
  sleeping_counted = refl;
}
