-- ===== src/Scheduler/Audit.antt =====
-- `scheduler_audit` and `scheduler_repair` of core/kernel/core/scheduler.c.
use liam_os.Base.{
  Bool, List, Option, [], get_or, if◌then◌else◌, inc32, leb, ltb, none, not, some, suc, true, zero,
  ℕ, ◌&&◌, ◌+◌, ◌==◌, ◌>>=◌, ◌||◌, ◌∷◌,
}
use liam_os.Scheduler.{
  Scheduler, Task, active, disabled, is_alive, is_inactive, is_sleeping, max_tasks, no_task,
  recalculate_task_counts, state_is_valid, task_at,
}
use liam_os.Scheduler.Queue.{reset_queue}
use liam_os.Scheduler.Tasks.{assign_state, free_kernel_stack, set_task}

-- `scheduler_audit_info_t`
pub record SchedulerAudit : Type 0 where
  pub audits_run : ℕ
  pub repairs_run : ℕ
  pub issues_found : ℕ
  pub issues_repaired : ℕ
  pub invalid_used_state : ℕ
  pub unused_task_with_stack : ℕ
  pub active_task_without_stack : ℕ
  pub active_task_without_entry : ℕ
  pub sleeping_task_without_wake_tick : ℕ
  pub inactive_task_with_stack : ℕ
  pub ready_queue_invalid_slot : ℕ
  pub ready_queue_task_id_mismatch : ℕ
  pub ready_queue_over_capacity : ℕ
  pub current_task_invalid : ℕ
  pub switched_task_invalid : ℕ

-- `scheduler_clear_audit_info`
abbrev pub clear_audit : SchedulerAudit
clear_audit = record {
  audits_run = 0;
  repairs_run = 0;
  issues_found = 0;
  issues_repaired = 0;
  invalid_used_state = 0;
  unused_task_with_stack = 0;
  active_task_without_stack = 0;
  active_task_without_entry = 0;
  sleeping_task_without_wake_tick = 0;
  inactive_task_with_stack = 0;
  ready_queue_invalid_slot = 0;
  ready_queue_task_id_mismatch = 0;
  ready_queue_over_capacity = 0;
  current_task_invalid = 0;
  switched_task_invalid = 0;
}

-- `scheduler_audit_record_issue`; its counter is set where it is called.
abbrev pub note_issue : SchedulerAudit → SchedulerAudit
note_issue a = record a { issues_found = inc32 a.issues_found }

abbrev pub has_stack : Task → Bool
has_stack t = not (t.kernel_stack_base == 0) || not (t.kernel_stack_top == 0)

abbrev pub lacks_stack : Task → Bool
lacks_stack t = (t.kernel_stack_base == 0) || (t.kernel_stack_top == 0)

-- The tests that end a task's round: of an unused task, and of a state that is none.
unfoldable pub audit_unused : Task → SchedulerAudit → SchedulerAudit
audit_unused t a =
    if has_stack t
    then record (note_issue a) { unused_task_with_stack = inc32 a.unused_task_with_stack }
    else a

abbrev pub audit_stray : SchedulerAudit → SchedulerAudit
audit_stray a = record (note_issue a) { invalid_used_state = inc32 a.invalid_used_state }

-- The tests of a task that is used and has a state, in order.
unfoldable pub audit_stack : Task → SchedulerAudit → SchedulerAudit
audit_stack t a =
    if is_alive t.state && lacks_stack t
    then record (note_issue a) { active_task_without_stack = inc32 a.active_task_without_stack }
    else a

unfoldable pub audit_entry : Task → SchedulerAudit → SchedulerAudit
audit_entry t a =
    if is_alive t.state && (t.entry == 0)
    then record (note_issue a) { active_task_without_entry = inc32 a.active_task_without_entry }
    else a

unfoldable pub audit_wake : Task → SchedulerAudit → SchedulerAudit
audit_wake t a =
    if is_sleeping t.state && (t.wake_tick == 0)
    then record (note_issue a) {
      sleeping_task_without_wake_tick = inc32 a.sleeping_task_without_wake_tick;
    }
    else a

unfoldable pub audit_inactive : Task → SchedulerAudit → SchedulerAudit
audit_inactive t a =
    if is_inactive t.state && has_stack t
    then record (note_issue a) { inactive_task_with_stack = inc32 a.inactive_task_with_stack }
    else a

-- A round of the loop over the tasks.
unfoldable pub audit_task : Task → SchedulerAudit → SchedulerAudit
audit_task t a =
    if not t.used
    then audit_unused t a
    else if not (state_is_valid t.state)
    then audit_stray a
    else audit_inactive t (audit_wake t (audit_entry t (audit_stack t a)))

unfoldable pub audit_tasks : List Task → SchedulerAudit → SchedulerAudit
unfolding audit_task
audit_tasks [] a = a
audit_tasks (t ∷ ts) a = audit_tasks ts (audit_task t a)

-- A round of the loop of `scheduler_audit_ready_queue`.
unfoldable pub audit_queue_slot : Scheduler → ℕ → SchedulerAudit → SchedulerAudit
audit_queue_slot s i a =
    let slot = get_or s.queue.slots i no_task in
    let t = task_at s.tasks slot in
    if leb max_tasks slot
    then record (note_issue a) { ready_queue_invalid_slot = inc32 a.ready_queue_invalid_slot }
    else if not t.used || not (get_or s.queue.task_ids i 0 == t.id)
    then record (note_issue a) {
      ready_queue_task_id_mismatch = inc32 a.ready_queue_task_id_mismatch;
    }
    else a

-- The loop from place `i` on, with `n` places left.
unfoldable pub audit_queue_from : ℕ → Scheduler → ℕ → SchedulerAudit → SchedulerAudit
audit_queue_from zero s i a = a
audit_queue_from (suc n) s i a = audit_queue_from n s (i + 1) (audit_queue_slot s i a)

-- `scheduler_audit_ready_queue`
unfoldable pub audit_queue : Scheduler → SchedulerAudit → SchedulerAudit
unfolding audit_queue_from
audit_queue s a =
    let checked =
      if ltb max_tasks s.queue.count
      then record (note_issue a) { ready_queue_over_capacity = inc32 a.ready_queue_over_capacity }
      else a in
    audit_queue_from s.queue.count s 0 checked

-- `scheduler_pointer_points_to_task_table`
abbrev pub in_table : Option ℕ → Bool
in_table none = true
in_table (some i) = ltb i max_tasks

unfoldable pub audit_running : Scheduler → SchedulerAudit → SchedulerAudit
audit_running s a =
    if not (in_table s.running_task)
    then record (note_issue a) { current_task_invalid = inc32 a.current_task_invalid }
    else a

unfoldable pub audit_switched : Scheduler → SchedulerAudit → SchedulerAudit
audit_switched s a =
    if not (in_table s.switched_task)
    then record (note_issue a) { switched_task_invalid = inc32 a.switched_task_invalid }
    else a

-- `scheduler_audit_unlocked`; it returns the `issues_found` of this record.
unfoldable pub audit : Scheduler → SchedulerAudit
unfolding audit_tasks audit_queue
audit s =
    audit_switched s (
      audit_running s (audit_queue s (audit_tasks s.tasks (record clear_audit { audits_run = 1 }))))

-- What the loop of `scheduler_repair_unlocked` carries: the scheduler and `repaired`.
abbrev pub free_and_count : Scheduler → ℕ → ℕ → Option (Scheduler × ℕ)
free_and_count s i repaired = do f ← free_kernel_stack s i; some (f, inc32 repaired)

-- The end of the round of an unused task: its stack's top and size are cleared.
abbrev pub clear_stack_fields : ℕ → Scheduler × ℕ → Option (Scheduler × ℕ)
clear_stack_fields i (s, repaired) = some (
  set_task s i (record (task_at s.tasks i) { kernel_stack_top = 0; kernel_stack_size = 0 }),
  repaired,
)

abbrev pub disable_and_free : Scheduler → ℕ → ℕ → Option (Scheduler × ℕ)
disable_and_free s i repaired = free_and_count (assign_state s i disabled) i repaired

-- The last two tests of a round.
abbrev pub repair_rest : Scheduler → ℕ → ℕ → Option (Scheduler × ℕ)
repair_rest s i repaired =
    let t = task_at s.tasks i in
    if is_sleeping t.state && (t.wake_tick == 0)
    then some (assign_state s i active, inc32 repaired)
    else if is_inactive t.state && not (t.kernel_stack_base == 0)
    then free_and_count s i repaired
    else some (s, repaired)

-- A round of the loop.
unfoldable pub repair_task : Scheduler → ℕ → ℕ → Option (Scheduler × ℕ)
unfolding free_kernel_stack
repair_task s i repaired =
    let t = task_at s.tasks i in
    let freed = free_and_count s i repaired in
    if not t.used
    then ((if not (t.kernel_stack_base == 0) then freed else some (s, repaired))
        >>= clear_stack_fields i)
    else if not (state_is_valid t.state)
    then disable_and_free s i repaired
    else if is_alive t.state && ((t.entry == 0) || lacks_stack t)
    then disable_and_free s i repaired
    else repair_rest s i repaired

-- The loop from slot `i` on, with `n` slots left.
unfoldable pub repair_rounds : ℕ → Scheduler → ℕ → ℕ → Option (Scheduler × ℕ)
unfolding repair_task
repair_rounds zero s i repaired = some (s, repaired)
repair_rounds (suc n) s i repaired = do
  (r, count) ← repair_task s i repaired
  repair_rounds n r (i + 1) count

-- The end of `scheduler_repair_unlocked`: the scheduler and `repaired`.
abbrev pub finish_repair : Scheduler × ℕ → Scheduler × ℕ
finish_repair (s, repaired) =
    let bad_running = not (in_table s.running_task) in
    let bad_switched = not (in_table s.switched_task) in
    let once = if bad_running then inc32 repaired else repaired in
    (
      recalculate_task_counts (record s {
        running_task = if bad_running then none else s.running_task;
        switched_task = if bad_switched then none else s.switched_task;
        queue = reset_queue s.queue;
      }),
      if bad_switched then inc32 once else once,
    )

-- `scheduler_repair_unlocked`. It ends with an audit.
unfoldable pub repair : Scheduler → Option (Scheduler × ℕ)
unfolding repair_rounds
repair s = do r ← repair_rounds max_tasks s 0 0; some (finish_repair r)
