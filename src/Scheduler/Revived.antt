-- ===== src/Scheduler/Revived.antt =====
-- A task of core/kernel/core/scheduler.c that disables itself.
use liam_os.Base.{
  ==→≡, Bool, List, Option, [], ap, arith, false, get_or-set_self, if_cases, inc32, length,
  length-set, none, not, refl, set, some, subst, suc, sym, true, zero, ℕ, ◌&&◌, ◌+◌, ◌<◌, ◌==◌,
  ◌>>=◌, ◌∙◌, ◌∷◌, ◌≡◌, ◌≢◌,
}
use liam_os.Heap.Operations.{validate_pointer}
use liam_os.Scheduler.{
  Scheduler, Task, active, clear_task, disabled, is_active, is_oneshot, is_running,
  recalculate_task_counts, running, task_at,
}
use liam_os.Scheduler.Tasks.{
  assign_state, disable_at, disable_task, find_task, for_found, free_kernel_stack, without_stack,
}
use liam_os.Scheduler.Dispatch.{enter_task, leave_task, trampoline}

-- The task in slot `i` is active, without a stack.
abbrev pub IsRevived : ℕ → Option Scheduler → Type 0
IsRevived i none = ⊥
IsRevived i (some r) =
    ((task_at r.tasks i).state ≡ active) × ((task_at r.tasks i).kernel_stack_base ≡ 0)

leave_task-IsRevived :
    (s : Scheduler) (i : ℕ)
    → i < length s.tasks
    → is_oneshot (task_at s.tasks i).mode ≡ false
    → (task_at s.tasks i).kernel_stack_base ≡ 0
    → IsRevived i (leave_task s i)
unfolding leave_task recalculate_task_counts
leave_task-IsRevived s i lt mode base =
    let t = task_at s.tasks i in
    let ran : Task = record t { run_count = inc32 t.run_count; state = active } in
    let at : task_at (set s.tasks i ran) i ≡ ran =
      get_or-set_self {0} s.tasks i ran clear_task lt in
    rw mode (ap (λ (x : Task). x.state) at, ap (λ (x : Task). x.kernel_stack_base) at ∙ base)

-- The task in slot `i` has no stack, and its state and mode are those of `t`.
record IsFreed (i : ℕ) (t : Task) (s : Scheduler) : Type 0 where
  in_table : i < length s.tasks
  no_stack : (task_at s.tasks i).kernel_stack_base ≡ 0
  same_state : (task_at s.tasks i).state ≡ t.state
  same_mode : (task_at s.tasks i).mode ≡ t.mode

abbrev WhenFreed : ℕ → Task → Option Scheduler → Type 0
WhenFreed i t none = Unit {0}
WhenFreed i t (some f) = IsFreed i t f

task_at-set : (ts : List Task) (i : ℕ) (t : Task) → i < length ts → task_at (set ts i t) i ≡ t
task_at-set ts i t lt = get_or-set_self {0} ts i t clear_task lt

free_kernel_stack-IsFreed :
    (s : Scheduler) (i : ℕ)
    → i < length s.tasks
    → WhenFreed i (task_at s.tasks i) (free_kernel_stack s i)
unfolding free_kernel_stack
free_kernel_stack-IsFreed s i lt =
    let t = task_at s.tasks i in
    let P = WhenFreed i t in
    let at = task_at-set s.tasks i (without_stack t) lt in
    if_cases P (t.kernel_stack_base == 0)
      (λ e. record { in_table = lt; no_stack = ==→≡ _ _ e; same_state = refl; same_mode = refl })
      (λ _.
        if_cases P (not (validate_pointer s.heap t.kernel_stack_base)) (λ _. tt)
          (λ _. record {
            in_table = omega (arith, lt, length-set s.tasks i (without_stack t));
            no_stack = ap (λ (x : Task). x.kernel_stack_base) at;
            same_state = ap (λ (x : Task). x.state) at;
            same_mode = ap (λ (x : Task). x.mode) at;
          }))

-- A disabling that has succeeded.
abbrev WhenDisabled : ℕ → Task → Option (Bool × Scheduler) → Type 0
WhenDisabled i t none = Unit {0}
WhenDisabled i t (some (done, r)) = (done ≡ true) × IsFreed i (record t { state = disabled }) r

counted :
    (i : ℕ) (t u : Task) (o : Option Scheduler)
    → u.state ≡ disabled
    → u.mode ≡ t.mode
    → WhenFreed i u o
    → WhenDisabled i t (o >>= (λ f. some (true, recalculate_task_counts f)))
unfolding recalculate_task_counts
counted i t u none off mode f = tt
counted i t u (some r) off mode f = (
  refl,
  record {
    in_table = f.in_table;
    no_stack = f.no_stack;
    same_state = f.same_state ∙ off;
    same_mode = f.same_mode ∙ mode;
  },
)

disable_at-disables :
    (s : Scheduler) (i : ℕ)
    → i < length s.tasks
    → is_running (task_at s.tasks i).state ≡ true
    → WhenDisabled i (task_at s.tasks i) (disable_at s i)
unfolding disable_at
disable_at-disables s i lt running_now =
    let t = task_at s.tasks i in
    let off : Task = record t { state = disabled } in
    let at = task_at-set s.tasks i off lt in
    let room : i < length (set s.tasks i off) = omega (arith, lt, length-set s.tasks i off) in
    if_cases (WhenDisabled i t) (not (is_active t.state) && not (is_running t.state))
      (λ e. absurd (ground (arith, e, running_now)))
      (λ _.
        counted i t (task_at (set s.tasks i off) i)
          (free_kernel_stack (assign_state s i disabled) i) (ap (λ (x : Task). x.state) at)
          (ap (λ (x : Task). x.mode) at)
          (free_kernel_stack-IsFreed (assign_state s i disabled) i room))

-- A write that keeps a task's id does not move it.
find_task-set :
    (ts : List Task) (i k id : ℕ) (t : Task)
    → t.used ≡ (task_at ts i).used
    → t.id ≡ (task_at ts i).id
    → find_task (set ts i t) k id ≡ find_task ts k id
unfolding find_task
find_task-set [] i k id t u e = refl
find_task-set (x ∷ ts) zero k id t u e = rw (u, e) refl
find_task-set (x ∷ ts) (suc i) k id t u e = rw (find_task-set ts i (k + 1) id t u e) refl

-- A function that calls `scheduler_disable_task` for the task `id`.
abbrev pub disables : ℕ → ℕ → Scheduler → Scheduler
disables id entry s = elim (disable_task s id) [ none ↦ s | some r ↦ r.1 ]

-- The function has disabled the task in slot `i`, and it is active again after it.
abbrev pub Revives : ℕ → Option (Bool × Scheduler) → Option Scheduler → Type 0
Revives i none after = ⊥
Revives i (some (done, r)) after =
    (done ≡ true) × ((task_at r.tasks i).state ≡ disabled) × IsRevived i after

left-Revives :
    (s : Scheduler) (i : ℕ) (t : Task) (o : Option (Bool × Scheduler))
    → o ≢ none
    → is_oneshot t.mode ≡ false
    → WhenDisabled i t o
    → Revives i o (leave_task (elim o [ none ↦ s | some r ↦ r.1 ]) i)
left-Revives s i t none there mode d = absurd (there refl)
left-Revives s i t (some (done, r)) there mode (yes_done, f) = (
  yes_done,
  f.same_state,
  leave_task-IsRevived r i f.in_table (ap is_oneshot f.same_mode ∙ mode) f.no_stack,
)

-- A recurring task, the one with its id, whose function calls `scheduler_disable_task` for that id:
-- unless the assertion on the stack stops the kernel, the call succeeds and leaves the task disabled;
-- but once the function has returned, the task is active again, without a stack.
pub trampoline-Revives :
    (s : Scheduler) (i id : ℕ)
    → i < length s.tasks
    → find_task s.tasks 0 id ≡ some i
    → is_oneshot (task_at s.tasks i).mode ≡ false
    → (task_at s.tasks i).entry ≢ 0
    → disable_task (enter_task s i) id ≢ none
    → Revives i (disable_task (enter_task s i) id) (trampoline (disables id) s i)
unfolding trampoline disable_task recalculate_task_counts
trampoline-Revives s i id lt hit mode here stands =
    let e : Scheduler = enter_task s i in
    let ran : Task = record (task_at s.tasks i) { state = running } in
    let at = task_at-set s.tasks i ran lt in
    let room : i < length (set s.tasks i ran) = omega (arith, lt, length-set s.tasks i ran) in
    let found : find_task e.tasks 0 id ≡ some i =
      find_task-set s.tasks i 0 id ran refl refl ∙ hit in
    let run : disable_task e id ≡ disable_at e i =
      ap (λ o. for_found o (some (false, e)) (λ j. disable_at e j)) found in
    let d = disable_at-disables e i room (ap (λ (x : Task). is_running x.state) at) in
    if_cases (Revives i (disable_task e id)) ((task_at s.tasks i).entry == 0)
      (λ null. absurd (here (==→≡ (task_at s.tasks i).entry 0 null)))
      (λ _.
        left-Revives e i (task_at e.tasks i) (disable_task e id) stands
          (ap (λ (x : Task). is_oneshot x.mode) at ∙ mode)
          (subst (WhenDisabled i (task_at e.tasks i)) (sym run) d))
