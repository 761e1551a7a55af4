-- ===== src/Scheduler/Tests.antt =====
-- Runs of scheduler.c's functions, and its theorems at concrete inputs.
use liam_os.Base.{
  Bool, List, Option, [], ap, arith, false, none, refl, set, some, suc, true, zero, ℕ, ◌∙◌, ◌∷◌,
  ◌≡◌,
}
use liam_os.Heap.{Heap}
use liam_os.Scheduler.{
  Scheduler, Task, active, clear_task, oneshot, recalculate_task_counts, recurring, task_at,
}
use liam_os.Scheduler.Queue.{
  is_ready, rebuild_ready_queue, rebuild_rounds, select_next_ready_task, wake_sleeping_tasks,
}
use liam_os.Scheduler.Selection.{Selects, select-Selects}
use liam_os.Scheduler.Fairness.{IsSelected, StaysReady, select-fair}
use liam_os.Scheduler.Tasks.{disable_at, disable_task, find_task, sleep_task}
use liam_os.Scheduler.Dispatch.{enter_task, trampoline}
use liam_os.Scheduler.Sleeping.{sleep_task-wakes}
use liam_os.Scheduler.Audit.{
  audit, audit_entry, audit_inactive, audit_queue, audit_queue_from, audit_running, audit_stack,
  audit_switched, audit_task, audit_tasks, audit_unused, audit_wake, repair,
}
use liam_os.Scheduler.Repairing.{HasBases}
use liam_os.Scheduler.Repaired.{IsRepaired, repair-IsRepaired}
use liam_os.Scheduler.Status.{initialize}
use liam_os.Scheduler.Numbers.{HasCounts, Returns, perform_all-HasCounts}
use liam_os.Scheduler.Steps.{clear, create, perform_all, run_one, sleep, tick}
use liam_os.Scheduler.Revived.{Revives, disables, trampoline-Revives}
use liam_os.Scheduler.Lock.{
  Leaves, Lock, lock, locks, run_lock_test, unlock, unlocks, unlocks-locks,
}
use liam_os.Pmm.{Pmm}
use liam_os.Heap.Operations.{empty_heap}

abbrev pages : Pmm
pages = record {
  total_regions = 1;
  usable_regions = 1;
  reserved_regions = 0;
  usable_memory_bytes = 0x4000;
  allocation_start = 0x100000;
  allocation_end = 0x104000;
  next_free_page = 0x100000;
  allocated_pages = 0;
  free_stack_count = 0;
  free_stack = λ _. 0;
}

abbrev heap : Heap
heap = empty_heap (record {
  initialized = true;
  mapped_pages = 0;
  created_page_tables = 0;
  last_mapped_virtual_address = 0;
  last_mapped_physical_address = 0;
  failed_map_count = 0;
  failed_unmap_count = 0;
  remap_count = 0;
  invalid_map_count = 0;
  missing_unmap_count = 0;
  directory = 0x1000;
  memory = λ _. 0;
  pmm = pages;
  invalidated = [];
})

-- A task that is due every 10 ticks.
abbrev job : Task
job = record clear_task { used = true; id = 5; state = active; interval_ticks = 10; entry = 0x2000 }

abbrev start : Scheduler
start = initialize heap 0xFFFFFFF0

-- Slots 2 and 7 have tasks.
abbrev two_jobs : Scheduler
two_jobs = record start {
  tasks = set (set start.tasks 2 job) 7 (record job { id = 6; mode = oneshot });
}

select_second : (select_next_ready_task two_jobs 9).0 ≡ some 7
unfolding select_next_ready_task rebuild_ready_queue rebuild_rounds is_ready initialize
select_second = refl

select_none_left : (select_next_ready_task start 9).0 ≡ none
unfolding select_next_ready_task rebuild_ready_queue rebuild_rounds is_ready initialize
select_none_left = refl

audit_found : (audit two_jobs).issues_found ≡ 2
unfolding audit audit_tasks audit_task audit_stack audit_entry audit_wake audit_inactive
    audit_unused audit_queue audit_queue_from audit_running audit_switched initialize
audit_found = refl

select-Selects_example : Selects two_jobs 9 (select_next_ready_task two_jobs 9)
select-Selects_example = select-Selects two_jobs 9

-- Always the same table, from the slot behind the last one selected.
abbrev ever : ℕ → Scheduler
ever zero = two_jobs
ever (suc k) = (select_next_ready_task (ever k) 9).1

ever-tasks : (k : ℕ) → (ever k).tasks ≡ two_jobs.tasks
ever-tasks zero = refl
ever-tasks (suc k) = (select-Selects (ever k) 9).same_tasks ∙ ever-tasks k

ever-StaysReady : StaysReady ever (λ _. 9) 7
unfolding is_ready initialize
ever-StaysReady k lt = ap (λ (ts : List Task). is_ready (task_at ts 7) 9) (ever-tasks k)

select-fair_example : IsSelected ever (λ _. 9) 7
select-fair_example =
    select-fair ever (λ _. 9) 7 (λ k. refl) ever-StaysReady (omega arith)
      (unfold initialize in omega arith)

sleep_task-wakes_example :
    (task_at (wake_sleeping_tasks (sleep_task two_jobs 5 20).1 4).tasks 2).state ≡ active
unfolding initialize find_task
sleep_task-wakes_example =
    sleep_task-wakes two_jobs 5 2 20 20 refl (omega arith) refl refl (omega arith)
      (λ e. omega (arith, e)) (omega arith) (omega arith)

abbrev LackTops : List Task → Type 0
LackTops [] = Unit {0}
LackTops (t ∷ ts) = (t.kernel_stack_top ≡ 0) × LackTops ts

LackTops-HasBases : (ts : List Task) → LackTops ts → HasBases ts
LackTops-HasBases [] l i b = refl
LackTops-HasBases (t ∷ ts) (e, l) zero b = e
LackTops-HasBases (t ∷ ts) (e, l) (suc i) b = LackTops-HasBases ts l i b

two_jobs-LackTops : LackTops two_jobs.tasks
unfolding initialize
two_jobs-LackTops = omega arith

repair-IsRepaired_example : IsRepaired (repair two_jobs)
unfolding initialize
repair-IsRepaired_example =
    repair-IsRepaired two_jobs refl (LackTops-HasBases two_jobs.tasks two_jobs-LackTops)

perform_all-HasCounts_example : Returns HasCounts (
    perform_all
      (λ entry s. s)
      (initialize heap 0)
      (create [] 10 0x2000 recurring ∷ sleep 1 5 ∷ tick 7 ∷ run_one ∷ clear ∷ []))
perform_all-HasCounts_example =
    perform_all-HasCounts (λ entry s. s) heap 0
      (create [] 10 0x2000 recurring ∷ sleep 1 5 ∷ tick 7 ∷ run_one ∷ clear ∷ [])

trampoline-Revives_example :
    Revives 2 (disable_task (enter_task two_jobs 2) 5) (trampoline (disables 5) two_jobs 2)
unfolding initialize find_task disable_task disable_at recalculate_task_counts
trampoline-Revives_example =
    trampoline-Revives two_jobs 2 5 (omega arith) refl refl (λ e. omega (arith, e)) (λ e. cc)

abbrev free_lock : Lock
free_lock = record {
  locked = false;
  enabled_now = true;
  depth = 0;
  saved_flags = false;
  lock_count = 0;
  unlock_count = 0;
  max_depth = 0;
  failed_unlocks = 0;
  test_runs = 0;
  interrupts = true;
}

abbrev is_passed : Option (Bool × Lock) → Bool
is_passed none = false
is_passed (some (done, l)) = done

lock_test_passes : is_passed (run_lock_test free_lock) ≡ true
unfolding run_lock_test lock unlock
lock_test_passes = refl

unlocks-locks_example : Leaves 0 free_lock (unlocks 2 (locks 2 free_lock))
unlocks-locks_example = unlocks-locks 2 0 free_lock refl (omega arith)
