-- ===== src/Scheduler/Tasks.antt =====
-- The operations of core/kernel/core/scheduler.c on single tasks: create, disable, sleep, wake and
-- yield. The functions that only take the lock around one of these are the operation itself.
use liam_os.Base.{
  Bool, List, Option, [], add32, false, if◌then◌else◌, inc32, leb, none, not, replicate, set, some,
  suc, true, zero, ℕ, ◌&&◌, ◌+◌, ◌==◌, ◌>>=◌, ◌||◌, ◌∷◌,
}
use liam_os.Heap.Requests.{kmalloc_fuel}
use liam_os.Heap.{Heap}
use liam_os.Heap.Operations.{kfree, kmalloc, validate_pointer}
use liam_os.Str.{string_copy}
use liam_os.Scheduler.{
  Scheduler, Task, TaskMode, TaskState, active, clear_context, clear_task, disabled, is_active,
  is_inactive, is_oneshot, is_running, is_sleeping, max_tasks, recalculate_task_counts, sleeping,
  task_at, unused,
}
use liam_os.Scheduler.Queue.{reset_queue}

abbrev is_unused : TaskState → Bool
is_unused unused = true
is_unused s = false

-- The loop of `scheduler_find_available_slot` from slot `i` on.
unfoldable pub find_available : List Task → ℕ → Option ℕ
find_available [] i = none
find_available (t ∷ ts) i =
    let later = find_available ts (i + 1) in
    if not t.used || (is_unused t.state || is_inactive t.state) then some i else later

-- `scheduler_find_task_by_id_mutable`, from slot `i` on.
unfoldable pub find_task : List Task → ℕ → ℕ → Option ℕ
find_task [] i id = none
find_task (t ∷ ts) i id =
    let later = find_task ts (i + 1) id in if t.used && (t.id == id) then some i else later

-- What follows a search: a default, or a step on the slot that was found.
abbrev pub for_found : {A : Type 0} → Option ℕ → A → (ℕ → A) → A
for_found none d f = d
for_found (some i) d f = f i

abbrev pub set_task : Scheduler → ℕ → Task → Scheduler
set_task s i t = record s { tasks = set s.tasks i t }

-- `scheduler_assign_task_state`
abbrev pub assign_state : Scheduler → ℕ → TaskState → Scheduler
assign_state s i state = set_task s i (record (task_at s.tasks i) { state = state })

-- The task after its stack was freed.
abbrev pub without_stack : Task → Task
without_stack t = record t {
  kernel_stack_base = 0;
  kernel_stack_size = 0;
  kernel_stack_top = 0;
  context = record (t.context) { esp = 0; ebp = 0 };
}

-- `scheduler_free_kernel_stack`; `none`: its assertion failed, and the kernel has stopped.
unfoldable pub free_kernel_stack : Scheduler → ℕ → Option Scheduler
free_kernel_stack s i =
    let t = task_at s.tasks i in
    if t.kernel_stack_base == 0
    then some s
    else if not (validate_pointer s.heap t.kernel_stack_base)
    then none
    else some (record s {
      heap = kfree s.heap t.kernel_stack_base;
      tasks = set s.tasks i (without_stack t);
      stats = record (s.stats) { freed_kernel_stacks = inc32 s.stats.freed_kernel_stacks };
    })

abbrev pub stack_size : ℕ
stack_size = 4096

-- The task with the stack that `kmalloc` gave.
abbrev pub with_stack : Task → ℕ → Task
with_stack t stack = record t {
  kernel_stack_base = stack;
  kernel_stack_size = stack_size;
  kernel_stack_top = add32 stack stack_size;
  context = record {
    eip = t.context.eip;
    esp = add32 stack stack_size;
    ebp = add32 stack stack_size;
    eflags = 0x202;
    eax = 0;
    ebx = 0;
    ecx = 0;
    edx = 0;
    esi = 0;
    edi = 0;
  };
}

-- `scheduler_allocate_kernel_stack` with what `kmalloc` answers.
unfoldable pub take_stack : Scheduler → ℕ → Option (ℕ × Heap) → Option (Bool × Scheduler)
take_stack s i none = none
take_stack s i (some (stack, heap)) =
    if stack == 0
    then some (
      false,
      record s {
        heap = heap;
        stats = record (s.stats) {
          failed_stack_allocations = inc32 s.stats.failed_stack_allocations;
        };
      },
    )
    else if not (validate_pointer heap stack)
    then none
    else some (
      true,
      record s {
        heap = heap;
        tasks = set s.tasks i (with_stack (task_at s.tasks i) stack);
        stats = record (s.stats) {
          allocated_kernel_stacks = inc32 s.stats.allocated_kernel_stacks;
        };
      },
    )

-- `scheduler_allocate_kernel_stack`: whether there is a stack; `none`: the assertion failed.
unfoldable pub allocate_kernel_stack : Scheduler → ℕ → Option (Bool × Scheduler)
unfolding take_stack
allocate_kernel_stack s i = take_stack s i (kmalloc kmalloc_fuel s.heap stack_size)

-- The result -1
abbrev pub minus_one : ℕ
minus_one = 0xFFFFFFFF

-- The task that `scheduler_create_task_internal_unlocked` fills.
abbrev pub new_task : Scheduler → List ℕ → ℕ → ℕ → TaskMode → Task
new_task s name interval entry mode = record clear_task {
  used = true;
  id = s.stats.next_task_id;
  name = string_copy (replicate 32 0) name 32;
  state = active;
  mode = mode;
  interval_ticks = interval;
  last_run_tick = s.ticks;
  context = record clear_context { eip = entry };
  entry = entry;
}

-- Its end, for slot `i`.
unfoldable pub finish_create : ℕ → ℕ → Bool × Scheduler → ℕ × Scheduler
finish_create i id (false, s) = (minus_one, recalculate_task_counts (set_task s i clear_task))
finish_create i id (true, s) = (
  id,
  recalculate_task_counts (record s {
    stats = record (s.stats) {
      next_task_id = inc32 s.stats.next_task_id;
      total_created_tasks = inc32 s.stats.total_created_tasks;
    };
  }),
)

-- Its part behind the choice of the slot.
unfoldable pub create_at : Scheduler → List ℕ → ℕ → ℕ → TaskMode → ℕ → Option (ℕ × Scheduler)
unfolding free_kernel_stack allocate_kernel_stack finish_create
create_at s name interval entry mode i = do
  f ← free_kernel_stack s i
  r ← allocate_kernel_stack (set_task f i (new_task f name interval entry mode)) i
  some (finish_create i f.stats.next_task_id r)

-- `scheduler_create_task_internal_unlocked`: the id, or -1, and the new state. `none`: an assertion
-- failed, and the kernel has stopped.
unfoldable pub create_task : Scheduler → List ℕ → ℕ → ℕ → TaskMode → Option (ℕ × Scheduler)
unfolding find_available create_at
create_task s name interval entry mode =
    if not s.stats.initialized || (entry == 0)
    then some (minus_one, s)
    else if not (is_oneshot mode) && (interval == 0)
    then some (minus_one, s)
    else for_found (find_available s.tasks 0) (some (minus_one, s))
        (λ i. create_at s name interval entry mode i)

-- `scheduler_disable_task_unlocked` for the task in slot `i`
unfoldable pub disable_at : Scheduler → ℕ → Option (Bool × Scheduler)
unfolding free_kernel_stack
disable_at s i =
    let state = (task_at s.tasks i).state in
    if not (is_active state) && not (is_running state) then some (false, s) else do
      f ← free_kernel_stack (assign_state s i disabled) i
      some (true, recalculate_task_counts f)

-- `scheduler_disable_task_unlocked`
unfoldable pub disable_task : Scheduler → ℕ → Option (Bool × Scheduler)
unfolding find_task disable_at
disable_task s id = for_found (find_task s.tasks 0 id) (some (false, s)) (λ i. disable_at s i)

-- `scheduler_sleep_task_unlocked` for the task in slot `i`
unfoldable pub sleep_at : Scheduler → ℕ → ℕ → Bool × Scheduler
sleep_at s i sleep_ticks =
    let t = task_at s.tasks i in
    let slept = record t {
      state = sleeping;
      wake_tick = add32 s.ticks sleep_ticks;
      sleep_count = inc32 t.sleep_count;
    } in
    if sleep_ticks == 0 then (false, s) else if not (is_active t.state) then (false, s) else (
      true,
      recalculate_task_counts (record s {
        tasks = set s.tasks i slept;
        stats = record (s.stats) { task_sleeps = inc32 s.stats.task_sleeps };
      }),
    )

-- `scheduler_sleep_task_unlocked`
unfoldable pub sleep_task : Scheduler → ℕ → ℕ → Bool × Scheduler
unfolding find_task sleep_at
sleep_task s id sleep_ticks =
    for_found (find_task s.tasks 0 id) (false, s) (λ i. sleep_at s i sleep_ticks)

-- `scheduler_wake_task_unlocked` for the task in slot `i`
unfoldable pub wake_at : Scheduler → ℕ → Bool × Scheduler
wake_at s i =
    let t = task_at s.tasks i in
    if not (is_sleeping t.state) then (false, s) else (
      true,
      recalculate_task_counts (record s {
        tasks = set s.tasks i (record t { state = active; wake_tick = 0 });
        stats = record (s.stats) { task_wakes = inc32 s.stats.task_wakes };
      }),
    )

-- `scheduler_wake_task_unlocked`
unfoldable pub wake_task : Scheduler → ℕ → Bool × Scheduler
unfolding find_task wake_at
wake_task s id = for_found (find_task s.tasks 0 id) (false, s) (λ i. wake_at s i)

abbrev pub fail_yield : Scheduler → Bool × Scheduler
fail_yield s = (
  false,
  record s { stats = record (s.stats) { failed_task_yields = inc32 s.stats.failed_task_yields } },
)

-- `scheduler_yield_task_unlocked` for the task in slot `i`
unfoldable pub yield_at : Scheduler → ℕ → Bool × Scheduler
yield_at s i =
    let t = task_at s.tasks i in
    if not (is_active t.state) && not (is_running t.state) then fail_yield s else (
      true,
      record s {
        tasks = set s.tasks i (record t { last_run_tick = s.ticks });
        stats = record (s.stats) {
          task_yields = inc32 s.stats.task_yields;
          last_yielded_task_id = t.id;
        };
      },
    )

-- `scheduler_yield_task_unlocked`
unfoldable pub yield_task : Scheduler → ℕ → Bool × Scheduler
unfolding find_task yield_at
yield_task s id = for_found (find_task s.tasks 0 id) (fail_yield s) (λ i. yield_at s i)

-- `scheduler_yield_current_task`
unfoldable pub yield_current_task : Scheduler → Bool × Scheduler
unfolding yield_task
yield_current_task s =
    for_found s.running_task (fail_yield s) (λ i. yield_task s (task_at s.tasks i).id)

-- The loop of `scheduler_clear_inactive_tasks_unlocked` from slot `i` on, with `n` slots left.
unfoldable pub clear_rounds : ℕ → Scheduler → ℕ → ℕ → Option (ℕ × Scheduler)
unfolding free_kernel_stack
clear_rounds zero s i cleared = some (cleared, s)
clear_rounds (suc n) s i cleared =
    let t = task_at s.tasks i in
    let freed : Option (ℕ × Scheduler) = (do
      f ← free_kernel_stack s i
      clear_rounds n (set_task f i clear_task) (i + 1) (inc32 cleared)) in
    let kept = clear_rounds n s (i + 1) cleared in
    if t.used && is_inactive t.state then freed else kept

abbrev pub finish_clear : ℕ × Scheduler → ℕ × Scheduler
finish_clear (cleared, s) = (
  cleared,
  recalculate_task_counts (record s {
    queue = reset_queue s.queue;
    stats = record (s.stats) {
      current_task_index =
          if leb max_tasks s.stats.current_task_index then 0 else s.stats.current_task_index;
    };
  }),
)

-- `scheduler_clear_inactive_tasks_unlocked`
unfoldable pub clear_inactive_tasks : Scheduler → Option (ℕ × Scheduler)
unfolding clear_rounds
clear_inactive_tasks s = do r ← clear_rounds max_tasks s 0 0; some (finish_clear r)
