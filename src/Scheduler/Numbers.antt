-- ===== src/Scheduler/Numbers.antt =====
-- The counts of core/kernel/core/scheduler.c against the numbers of tasks.
use liam_os.Base.{
  Bool, List, Option, [], arith, if◌then◌else◌, length, none, refl, some, ℕ, ◌%◌, ◌&&◌, ◌==◌, ◌^◌,
  ◌∙◌, ◌∷◌, ◌≡◌,
}
use liam_os.Heap.{Heap}
use liam_os.Scheduler.{
  Scheduler, Task, TaskState, active, completed, count_state, disabled, is_active, is_completed,
  is_disabled, is_running, is_sleeping, running, sleeping, stray, unused,
}
use liam_os.Scheduler.Counted.{Counts, IsCounted}
use liam_os.Scheduler.Status.{initialize}
use liam_os.Scheduler.Steps.{Operation, all-Counts, initialize-IsCounted, perform_all}

abbrev state_code : TaskState → ℕ
state_code unused = 0
state_code active = 1
state_code running = 2
state_code disabled = 3
state_code completed = 4
state_code sleeping = 5
state_code stray = 6

-- The tasks in slots in use whose state is `state`.
unfoldable pub tasks_in : TaskState → List Task → List Task
tasks_in state [] = []
tasks_in state (t ∷ ts) =
    let later = tasks_in state ts in
    if t.used && (state_code t.state == state_code state) then t ∷ later else later

-- The five counts of the statistics are the numbers of the tasks in use that are in the state; a count
-- is a uint32_t.
pub record HasCounts (s : Scheduler) : Type 0 where
  pub active_eq : s.stats.active_tasks ≡ length (tasks_in active s.tasks) % 2 ^ 32
  pub running_eq : s.stats.running_tasks ≡ length (tasks_in running s.tasks) % 2 ^ 32
  pub completed_eq : s.stats.completed_tasks ≡ length (tasks_in completed s.tasks) % 2 ^ 32
  pub disabled_eq : s.stats.disabled_tasks ≡ length (tasks_in disabled s.tasks) % 2 ^ 32
  pub sleeping_eq : s.stats.sleeping_tasks ≡ length (tasks_in sleeping s.tasks) % 2 ^ 32

-- A test of the code that is the test for the state counts the tasks in it.
count_state-tasks_in :
    (test : TaskState → Bool) (state : TaskState)
    → ((s : TaskState) → test s ≡ (state_code s == state_code state))
    → (ts : List Task) → count_state test ts ≡ length (tasks_in state ts) % 2 ^ 32
unfolding count_state tasks_in
count_state-tasks_in test state same [] = refl
count_state-tasks_in test state same (t ∷ ts) =
    ground (arith, same t.state, count_state-tasks_in test state same ts)

active_lem : (s : TaskState) → is_active s ≡ (state_code s == state_code active)
active_lem s = ground arith

running_lem : (s : TaskState) → is_running s ≡ (state_code s == state_code running)
running_lem s = ground arith

completed_lem : (s : TaskState) → is_completed s ≡ (state_code s == state_code completed)
completed_lem s = ground arith

disabled_lem : (s : TaskState) → is_disabled s ≡ (state_code s == state_code disabled)
disabled_lem s = ground arith

sleeping_lem : (s : TaskState) → is_sleeping s ≡ (state_code s == state_code sleeping)
sleeping_lem s = ground arith

IsCounted-HasCounts : (s : Scheduler) → IsCounted s → HasCounts s
IsCounted-HasCounts s c = record {
  active_eq = c.active_counted ∙ count_state-tasks_in is_active active active_lem s.tasks;
  running_eq = c.running_counted ∙ count_state-tasks_in is_running running running_lem s.tasks;
  completed_eq =
      c.completed_counted ∙ count_state-tasks_in is_completed completed completed_lem s.tasks;
  disabled_eq = c.disabled_counted ∙ count_state-tasks_in is_disabled disabled disabled_lem s.tasks;
  sleeping_eq = c.sleeping_counted ∙ count_state-tasks_in is_sleeping sleeping sleeping_lem s.tasks;
}

-- What holds of the result, unless an assertion has stopped the kernel.
abbrev pub Returns : (Scheduler → Type 0) → Option Scheduler → Type 0
Returns P none = Unit {0}
Returns P (some s) = P s

Counts-HasCounts : (o : Option Scheduler) → Counts o → Returns HasCounts o
Counts-HasCounts none c = tt
Counts-HasCounts (some s) c = IsCounted-HasCounts s c

-- After `scheduler_initialize` and any sequence of creating, disabling, putting to sleep, waking,
-- yielding and clearing tasks, of waking the tasks that are due at some tick, and of runs of the next
-- ready task, the five counts of the statistics are the numbers of the tasks in slots in use that are
-- active, running, completed, disabled and asleep, whatever the tasks' functions do, and unless an
-- assertion stops the kernel.
pub perform_all-HasCounts :
    (run : ℕ → Scheduler → Scheduler) (heap : Heap) (ticks : ℕ) (os : List Operation)
    → Returns HasCounts (perform_all run (initialize heap ticks) os)
perform_all-HasCounts run heap ticks os =
    Counts-HasCounts (perform_all run (initialize heap ticks) os)
      (all-Counts run (initialize heap ticks) os (initialize-IsCounted heap ticks))
