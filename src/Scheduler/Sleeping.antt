-- ===== src/Scheduler/Sleeping.antt =====
-- When a task that sleeps in core/kernel/core/scheduler.c wakes.
use liam_os.Base.{
  Bool, Bool-cases, List, [], add32, ap, arith, get_or-set_self, if_cases, if◌then◌else◌, inc32,
  inl, inr, leb, length, ltb, refl, some, sub32, suc, true, zero, ℕ, ≢→==, ◌+◌, ◌<◌, ◌^◌, ◌∙◌, ◌∷◌,
  ◌≡◌, ◌≢◌, ◌≤◌,
}
use liam_os.Scheduler.{
  Scheduler, Task, active, clear_task, is_active, recalculate_task_counts, sleeping, task_at,
}
use liam_os.Scheduler.Queue.{any_due, is_due, wake_due, wake_each, wake_sleeping_tasks}
use liam_os.Scheduler.Tasks.{find_task, sleep_at, sleep_task}

task_at-wake_each :
    (now : ℕ) (ts : List Task) (i : ℕ) → task_at (wake_each now ts) i ≡ wake_due now (task_at ts i)
unfolding wake_each
task_at-wake_each now [] i = refl
task_at-wake_each now (t ∷ ts) zero = refl
task_at-wake_each now (t ∷ ts) (suc i) = task_at-wake_each now ts i

recalculate-tasks : (s : Scheduler) → (recalculate_task_counts s).tasks ≡ s.tasks
unfolding recalculate_task_counts
recalculate-tasks s = refl

pub wake_sleeping_tasks-tasks :
    (s : Scheduler) (now : ℕ) → (wake_sleeping_tasks s now).tasks ≡ wake_each now s.tasks
unfolding wake_sleeping_tasks recalculate_task_counts
wake_sleeping_tasks-tasks s now =
    if_cases (λ (r : Scheduler). r.tasks ≡ wake_each now s.tasks) (any_due now s.tasks) (λ _. refl)
      (λ _. refl)

-- The task that `sleep_at` leaves.
sleep_at-task :
    (s : Scheduler) (i d : ℕ)
    → i < length s.tasks
    → d ≢ 0
    → is_active (task_at s.tasks i).state ≡ true
    → task_at (sleep_at s i d).1.tasks i ≡ record (task_at s.tasks i) {
      state = sleeping;
      wake_tick = add32 s.ticks d;
      sleep_count = inc32 (task_at s.tasks i).sleep_count;
    }
unfolding sleep_at recalculate_task_counts
sleep_at-task s i d lt pos act = rw act (
    rw (≢→== d 0 pos) (
      get_or-set_self {0} s.tasks i
        (record (task_at s.tasks i) {
          state = sleeping;
          wake_tick = add32 s.ticks d;
          sleep_count = inc32 (task_at s.tasks i).sleep_count;
        })
        clear_task lt))

is_due-after :
    (ticks d e : ℕ)
    → ticks < 2 ^ 32
    → d ≤ 2 ^ 31
    → e < d + 2 ^ 31
    → ltb (sub32 (add32 ticks e) (add32 ticks d)) 0x80000000 ≡ leb d e
is_due-after ticks d e small most late = ground (arith, small, most, late)

wake_due-state :
    (t : Task) (ticks d e : ℕ)
    → t.used ≡ true
    → t.state ≡ sleeping
    → t.wake_tick ≡ add32 ticks d
    → ticks < 2 ^ 32
    → d ≤ 2 ^ 31
    → e < d + 2 ^ 31
    → (wake_due (add32 ticks e) t).state ≡ (if leb d e then active else sleeping)
wake_due-state t ticks d e used asleep at small most late =
    let due : is_due (add32 ticks e) t ≡ leb d e =
      rw used (rw asleep (rw at (is_due-after ticks d e small most late))) in
    elim (Bool-cases (leb d e)) [
      | inl h ↦ rw h (ground (arith, due, h))
      | inr h ↦ rw h (ground (arith, due, h, asleep))
    ]

sleep_task-found :
    (s : Scheduler) (id i d : ℕ)
    → find_task s.tasks 0 id ≡ some i
    → sleep_task s id d ≡ sleep_at s i d
unfolding sleep_task
sleep_task-found s id i d at = rw at refl

-- A used active task that is put to sleep for `d` ticks, at least 1 and at most 2 ^ 31, is found
-- sleeping by `scheduler_wake_sleeping_tasks` at every tick before the `d`-th, and is active after
-- its call at any tick from the `d`-th on, for the next 2 ^ 31 ticks, also when the timer's count
-- wraps round.
pub sleep_task-wakes :
    (s : Scheduler) (id i d e : ℕ)
    → find_task s.tasks 0 id ≡ some i
    → i < length s.tasks
    → (task_at s.tasks i).used ≡ true
    → is_active (task_at s.tasks i).state ≡ true
    → s.ticks < 2 ^ 32
    → d ≢ 0
    → d ≤ 2 ^ 31
    → e < d + 2 ^ 31
    → (task_at (wake_sleeping_tasks (sleep_task s id d).1 (add32 s.ticks e)).tasks i).state
      ≡ (if leb d e then active else sleeping)
sleep_task-wakes s id i d e at lt used act small pos most late =
    let now = add32 s.ticks e in
    let r = (sleep_at s i d).1 in
    ap (λ (x : Bool × Scheduler). (task_at (wake_sleeping_tasks x.1 now).tasks i).state)
      (sleep_task-found s id i d at)
    ∙ (ap (λ (ts : List Task). (task_at ts i).state) (wake_sleeping_tasks-tasks r now)
        ∙ (ap (λ (t : Task). t.state) (task_at-wake_each now r.tasks i)
            ∙ (ap (λ (t : Task). (wake_due now t).state) (sleep_at-task s i d lt pos act)
                ∙ wake_due-state
                    (record (task_at s.tasks i) {
                      state = sleeping;
                      wake_tick = add32 s.ticks d;
                      sleep_count = inc32 (task_at s.tasks i).sleep_count;
                    })
                    s.ticks d e used refl refl small most late)))
