-- ===== src/Scheduler/Counted.antt =====
-- The counts of tasks in core/kernel/core/scheduler.c stay those of the table.
use liam_os.Base.{
  Bool, List, Option, [], ap, false, if_cases, if_false, none, not, refl, set, some, suc, sym, true,
  zero, ℕ, ◌&&◌, ◌==◌, ◌>>=◌, ◌||◌, ◌∙◌, ◌∷◌, ◌≡◌,
}
use liam_os.Scheduler.{
  Scheduler, Task, TaskState, active, count_state, disabled, is_active, is_completed, is_disabled,
  is_running, is_sleeping, recalculate_task_counts, task_at,
}
use liam_os.Scheduler.Queue.{any_due, count_wakes, is_due, wake_due, wake_each, wake_sleeping_tasks}
use liam_os.Scheduler.Tasks.{
  assign_state, disable_at, disable_task, fail_yield, find_task, for_found, free_kernel_stack,
  sleep_at, sleep_task, wake_at, wake_task, yield_at, yield_task,
}

-- The counts that the statistics hold are those of the tasks.
pub record IsCounted (s : Scheduler) : Type 0 where
  pub active_counted : s.stats.active_tasks ≡ count_state is_active s.tasks
  pub running_counted : s.stats.running_tasks ≡ count_state is_running s.tasks
  pub completed_counted : s.stats.completed_tasks ≡ count_state is_completed s.tasks
  pub disabled_counted : s.stats.disabled_tasks ≡ count_state is_disabled s.tasks
  pub sleeping_counted : s.stats.sleeping_tasks ≡ count_state is_sleeping s.tasks

pub recalculated : (s : Scheduler) → IsCounted (recalculate_task_counts s)
unfolding recalculate_task_counts
recalculated s = record {
  active_counted = refl;
  running_counted = refl;
  completed_counted = refl;
  disabled_counted = refl;
  sleeping_counted = refl;
}

-- The counts do not change where no task's `used` and state do.
pub record HasSameCounts (s r : Scheduler) : Type 0 where
  pub same_active : r.stats.active_tasks ≡ s.stats.active_tasks
  pub same_running : r.stats.running_tasks ≡ s.stats.running_tasks
  pub same_completed : r.stats.completed_tasks ≡ s.stats.completed_tasks
  pub same_disabled : r.stats.disabled_tasks ≡ s.stats.disabled_tasks
  pub same_sleeping : r.stats.sleeping_tasks ≡ s.stats.sleeping_tasks
  pub same_states : (test : TaskState → Bool) → count_state test r.tasks ≡ count_state test s.tasks

pub unchanged : (s r : Scheduler) → HasSameCounts s r → IsCounted s → IsCounted r
unchanged s r h c = record {
  active_counted = h.same_active ∙ (c.active_counted ∙ sym (h.same_states is_active));
  running_counted = h.same_running ∙ (c.running_counted ∙ sym (h.same_states is_running));
  completed_counted = h.same_completed ∙ (c.completed_counted ∙ sym (h.same_states is_completed));
  disabled_counted = h.same_disabled ∙ (c.disabled_counted ∙ sym (h.same_states is_disabled));
  sleeping_counted = h.same_sleeping ∙ (c.sleeping_counted ∙ sym (h.same_states is_sleeping));
}

-- A write that keeps a task's `used` and state.
pub count_state-set :
    (test : TaskState → Bool) (ts : List Task) (i : ℕ) (t : Task)
    → t.used ≡ (task_at ts i).used
    → t.state ≡ (task_at ts i).state
    → count_state test (set ts i t) ≡ count_state test ts
unfolding count_state
count_state-set test [] i t u e = refl
count_state-set test (x ∷ ts) zero t u e = rw u (rw e (refl))
count_state-set test (x ∷ ts) (suc i) t u e = rw (count_state-set test ts i t u e) (refl)

or_left : (b c : Bool) → (b || c) ≡ false → b ≡ false
or_left true c e = cc
or_left false c e = refl

or_right : (b c : Bool) → (b || c) ≡ false → c ≡ false
or_right true c e = cc
or_right false c e = e

wake_each-none : (now : ℕ) (ts : List Task) → any_due now ts ≡ false → wake_each now ts ≡ ts
unfolding any_due wake_each
wake_each-none now [] e = refl
wake_each-none now (t ∷ ts) e =
    let first_off = or_left (is_due now t) (any_due now ts) e in
    let rest_off = or_right (is_due now t) (any_due now ts) e in
    let same : wake_due now t ≡ t =
      if_false (is_due now t) (record t { state = active; wake_tick = 0 }) t first_off in
    ap (λ (x : Task). x ∷ wake_each now ts) same
    ∙ ap (λ (xs : List Task). t ∷ xs) (wake_each-none now ts rest_off)

abbrev pub after {ℓ} : {A : Type ℓ} → Option (A × Scheduler) → Option Scheduler
after none = none
after (some (a, s)) = some s

-- An operation's result counts its tasks, where no assertion stops the kernel.
abbrev pub Counts : Option Scheduler → Type 0
Counts none = Unit {0}
Counts (some s) = IsCounted s

pub found_cases :
    {A : Type 0} (P : A → Type 0) (o : Option ℕ) (d : A) (f : ℕ → A)
    → P d
    → ((i : ℕ) → P (f i))
    → P (for_found o d f)
found_cases P none d f p q = p
found_cases P (some i) d f p q = q i

yielded :
    (test : TaskState → Bool) (s : Scheduler) (i : ℕ)
    → count_state test (set s.tasks i (record (task_at s.tasks i) { last_run_tick = s.ticks }))
      ≡ count_state test s.tasks
yielded test s i =
    count_state-set test s.tasks i (record (task_at s.tasks i) { last_run_tick = s.ticks }) refl
      refl

disabled_Counts :
    (o : Option Scheduler) → Counts (after (o >>= (λ f. some (true, recalculate_task_counts f))))
disabled_Counts none = tt
disabled_Counts (some f) = recalculated f

sleep_at-IsCounted : (s : Scheduler) (i d : ℕ) → IsCounted s → IsCounted (sleep_at s i d).1
unfolding sleep_at
sleep_at-IsCounted s i d c =
    if_cases (λ (r : Bool × Scheduler). IsCounted r.1) (d == 0) (λ _. c)
      (λ _.
        if_cases (λ (r : Bool × Scheduler). IsCounted r.1)
          (not (is_active (task_at s.tasks i).state)) (λ _. c) (λ _. recalculated _))

pub sleep_task-IsCounted :
    (s : Scheduler) (id d : ℕ) → IsCounted s → IsCounted (sleep_task s id d).1
unfolding sleep_task
sleep_task-IsCounted s id d c =
    found_cases (λ (r : Bool × Scheduler). IsCounted r.1) (find_task s.tasks 0 id) (false, s)
      (λ i. sleep_at s i d) c (λ i. sleep_at-IsCounted s i d c)

wake_at-IsCounted : (s : Scheduler) (i : ℕ) → IsCounted s → IsCounted (wake_at s i).1
unfolding wake_at
wake_at-IsCounted s i c =
    if_cases (λ (r : Bool × Scheduler). IsCounted r.1) (not (is_sleeping (task_at s.tasks i).state))
      (λ _. c) (λ _. recalculated _)

pub wake_task-IsCounted : (s : Scheduler) (id : ℕ) → IsCounted s → IsCounted (wake_task s id).1
unfolding wake_task
wake_task-IsCounted s id c =
    found_cases (λ (r : Bool × Scheduler). IsCounted r.1) (find_task s.tasks 0 id) (false, s)
      (wake_at s) c (λ i. wake_at-IsCounted s i c)

fail_yield-IsCounted : (s : Scheduler) → IsCounted s → IsCounted (fail_yield s).1
fail_yield-IsCounted s c =
    unchanged s (fail_yield s).1
      (record {
        same_active = refl;
        same_running = refl;
        same_completed = refl;
        same_disabled = refl;
        same_sleeping = refl;
        same_states = λ test. refl;
      })
      c

yield_at-IsCounted : (s : Scheduler) (i : ℕ) → IsCounted s → IsCounted (yield_at s i).1
unfolding yield_at
yield_at-IsCounted s i c =
    let t = task_at s.tasks i in
    if_cases (λ (r : Bool × Scheduler). IsCounted r.1)
      (not (is_active t.state) && not (is_running t.state)) (λ _. fail_yield-IsCounted s c)
      (λ _. record {
        active_counted = c.active_counted ∙ sym (yielded is_active s i);
        running_counted = c.running_counted ∙ sym (yielded is_running s i);
        completed_counted = c.completed_counted ∙ sym (yielded is_completed s i);
        disabled_counted = c.disabled_counted ∙ sym (yielded is_disabled s i);
        sleeping_counted = c.sleeping_counted ∙ sym (yielded is_sleeping s i);
      })

pub yield_task-IsCounted : (s : Scheduler) (id : ℕ) → IsCounted s → IsCounted (yield_task s id).1
unfolding yield_task
yield_task-IsCounted s id c =
    found_cases (λ (r : Bool × Scheduler). IsCounted r.1) (find_task s.tasks 0 id) (fail_yield s)
      (yield_at s) (fail_yield-IsCounted s c) (λ i. yield_at-IsCounted s i c)

pub wake_sleeping_tasks-IsCounted :
    (s : Scheduler) (now : ℕ) → IsCounted s → IsCounted (wake_sleeping_tasks s now)
unfolding wake_sleeping_tasks
wake_sleeping_tasks-IsCounted s now c =
    let woken : Scheduler = record s {
      tasks = wake_each now s.tasks;
      stats = record (s.stats) { task_wakes = count_wakes now s.tasks s.stats.task_wakes };
    } in
    if_cases IsCounted (any_due now s.tasks) (λ _. recalculated woken)
      (λ e.
        unchanged s woken
          (record {
            same_active = refl;
            same_running = refl;
            same_completed = refl;
            same_disabled = refl;
            same_sleeping = refl;
            same_states = λ test. ap (count_state test) (wake_each-none now s.tasks e);
          })
          c)

disable_at-Counts : (s : Scheduler) (i : ℕ) → IsCounted s → Counts (after (disable_at s i))
unfolding disable_at
disable_at-Counts s i c =
    let t = task_at s.tasks i in
    if_cases (λ (r : Option (Bool × Scheduler)). Counts (after r))
      (not (is_active t.state) && not (is_running t.state)) (λ _. c)
      (λ _. disabled_Counts (free_kernel_stack (assign_state s i disabled) i))

pub disable_task-Counts :
    (s : Scheduler) (id : ℕ) → IsCounted s → Counts (after (disable_task s id))
unfolding disable_task
disable_task-Counts s id c =
    found_cases (λ (r : Option (Bool × Scheduler)). Counts (after r)) (find_task s.tasks 0 id)
      (some (false, s)) (disable_at s) c (λ i. disable_at-Counts s i c)
