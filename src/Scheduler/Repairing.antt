-- ===== src/Scheduler/Repairing.antt =====
-- After `scheduler_repair` of core/kernel/core/scheduler.c the audit finds nothing.
use liam_os.Base.{
  ==→≡, Bool, List, Option, ap, arith, false, get_or-set_ne, get_or-set_self, if_cases, if_false,
  if◌then◌else◌, inc32, length, length-set, none, not, refl, some, sym, true, ℕ, ◌&&◌, ◌<◌, ◌==◌,
  ◌>>=◌, ◌∙◌, ◌≡◌, ◌≢◌,
}
use liam_os.Heap.Operations.{validate_pointer}
use liam_os.Scheduler.{
  Scheduler, Task, TaskState, active, clear_task, completed, disabled, is_alive, is_inactive,
  is_sleeping, running, sleeping, state_is_valid, stray, task_at, unused,
}
use liam_os.Scheduler.Tasks.{free_kernel_stack, set_task, without_stack}
use liam_os.Scheduler.Audit.{
  SchedulerAudit, audit_entry, audit_inactive, audit_stack, audit_task, audit_unused, audit_wake,
  clear_stack_fields, free_and_count, has_stack, lacks_stack,
}

-- None of the audit's tests of a task finds an issue.
abbrev pub is_clean : Task → Bool
is_clean t =
    if not t.used
    then not (has_stack t)
    else state_is_valid t.state
      && (not (is_alive t.state && lacks_stack t)
          && (not (is_alive t.state && (t.entry == 0))
              && (not (is_sleeping t.state && (t.wake_tick == 0))
                  && not (is_inactive t.state && has_stack t))))

pub and_left : (b c : Bool) → (b && c) ≡ true → b ≡ true
and_left true c e = refl
and_left false c e = cc

and_right : (b c : Bool) → (b && c) ≡ true → c ≡ true
and_right true c e = e
and_right false c e = cc

pub is_off : (b : Bool) → not b ≡ true → b ≡ false
is_off true e = cc
is_off false e = refl

pub on_off_absurd : (b : Bool) → b ≡ true → b ≡ false → ⊥
on_off_absurd true e f = cc
on_off_absurd false e f = cc

-- The two cases of `is_clean`.
unused_clean : (u h x : Bool) → (if not u then not h else x) ≡ true → not u ≡ true → h ≡ false
unused_clean false h x e n = is_off h e
unused_clean true h x e n = cc

used_clean : (u h x : Bool) → (if not u then not h else x) ≡ true → not u ≡ false → x ≡ true
used_clean true h x e n = e
used_clean false h x e n = cc

-- Each test that fails leaves the snapshot as it is.
module _ (t : Task) (a : SchedulerAudit) where
  audit_stack-none : (is_alive t.state && lacks_stack t) ≡ false → audit_stack t a ≡ a
  unfolding audit_stack
  audit_stack-none e =
      if_cases (λ (r : SchedulerAudit). r ≡ a) (is_alive t.state && lacks_stack t)
        (λ h. absurd (on_off_absurd (is_alive t.state && lacks_stack t) h e)) (λ _. refl)

  audit_entry-none : (is_alive t.state && (t.entry == 0)) ≡ false → audit_entry t a ≡ a
  unfolding audit_entry
  audit_entry-none e =
      if_cases (λ (r : SchedulerAudit). r ≡ a) (is_alive t.state && (t.entry == 0))
        (λ h. absurd (on_off_absurd (is_alive t.state && (t.entry == 0)) h e)) (λ _. refl)

  audit_wake-none : (is_sleeping t.state && (t.wake_tick == 0)) ≡ false → audit_wake t a ≡ a
  unfolding audit_wake
  audit_wake-none e =
      if_cases (λ (r : SchedulerAudit). r ≡ a) (is_sleeping t.state && (t.wake_tick == 0))
        (λ h. absurd (on_off_absurd (is_sleeping t.state && (t.wake_tick == 0)) h e)) (λ _. refl)

  audit_inactive-none : (is_inactive t.state && has_stack t) ≡ false → audit_inactive t a ≡ a
  unfolding audit_inactive
  audit_inactive-none e =
      if_cases (λ (r : SchedulerAudit). r ≡ a) (is_inactive t.state && has_stack t)
        (λ h. absurd (on_off_absurd (is_inactive t.state && has_stack t) h e)) (λ _. refl)

  audit_unused-none : has_stack t ≡ false → audit_unused t a ≡ a
  unfolding audit_unused
  audit_unused-none e =
      if_cases (λ (r : SchedulerAudit). r ≡ a) (has_stack t)
        (λ h. absurd (on_off_absurd (has_stack t) h e)) (λ _. refl)

-- The tests of a used task in order.
audit_used-clean :
    (t : Task) (a : SchedulerAudit) (c1 c2 c3 c4 : Bool)
    → (is_alive t.state && lacks_stack t) ≡ c1
    → (is_alive t.state && (t.entry == 0)) ≡ c2
    → (is_sleeping t.state && (t.wake_tick == 0)) ≡ c3
    → (is_inactive t.state && has_stack t) ≡ c4
    → (not c1 && (not c2 && (not c3 && not c4))) ≡ true
    → audit_inactive t (audit_wake t (audit_entry t (audit_stack t a))) ≡ a
audit_used-clean t a c1 c2 c3 c4 e1 e2 e3 e4 e =
    let r1 = and_right (not c1) (not c2 && (not c3 && not c4)) e in
    let r2 = and_right (not c2) (not c3 && not c4) r1 in
    let n1 = is_off c1 (and_left (not c1) (not c2 && (not c3 && not c4)) e) in
    let n2 = is_off c2 (and_left (not c2) (not c3 && not c4) r1) in
    let n3 = is_off c3 (and_left (not c3) (not c4) r2) in
    let n4 = is_off c4 (and_right (not c3) (not c4) r2) in
    ap (λ (x : SchedulerAudit). audit_inactive t (audit_wake t (audit_entry t x)))
      (audit_stack-none t a (e1 ∙ n1))
    ∙ (ap (λ (x : SchedulerAudit). audit_inactive t (audit_wake t x))
          (audit_entry-none t a (e2 ∙ n2))
        ∙ (ap (audit_inactive t) (audit_wake-none t a (e3 ∙ n3))
            ∙ audit_inactive-none t a (e4 ∙ n4)))

pub audit_task-clean : (t : Task) (a : SchedulerAudit) → is_clean t ≡ true → audit_task t a ≡ a
unfolding audit_task
audit_task-clean t a e =
    let c1 = is_alive t.state && lacks_stack t in
    let c2 = is_alive t.state && (t.entry == 0) in
    let c3 = is_sleeping t.state && (t.wake_tick == 0) in
    let c4 = is_inactive t.state && has_stack t in
    let rest = not c1 && (not c2 && (not c3 && not c4)) in
    let valid = state_is_valid t.state in
    if_cases (λ (r : SchedulerAudit). r ≡ a) (not t.used)
      (λ u. audit_unused-none t a (unused_clean t.used (has_stack t) (valid && rest) e u))
      (λ u.
        let v = used_clean t.used (has_stack t) (valid && rest) e u in
        if_cases (λ (r : SchedulerAudit). r ≡ a) (not valid)
          (λ h. absurd (on_off_absurd valid (and_left valid rest v) (is_off valid h)))
          (λ _. audit_used-clean t a c1 c2 c3 c4 refl refl refl refl (and_right valid rest v)))

-- What `scheduler_free_kernel_stack` leaves, unless its assertion fails.
pub record FreesAt (s : Scheduler) (i : ℕ) (f : Scheduler) : Type 0 where
  pub freed_task : task_at f.tasks i ≡ (
      if (task_at s.tasks i).kernel_stack_base == 0
      then task_at s.tasks i
      else without_stack (task_at s.tasks i))
  pub other_tasks : (j : ℕ) → i ≢ j → task_at f.tasks j ≡ task_at s.tasks j
  pub same_length : length f.tasks ≡ length s.tasks

abbrev pub Frees : Scheduler → ℕ → Option Scheduler → Type 0
Frees s i none = Unit {0}
Frees s i (some f) = FreesAt s i f

pub free_kernel_stack-Frees :
    (s : Scheduler) (i : ℕ) → i < length s.tasks → Frees s i (free_kernel_stack s i)
unfolding free_kernel_stack
free_kernel_stack-Frees s i lt =
    let t = task_at s.tasks i in
    if_cases (Frees s i) (t.kernel_stack_base == 0)
      (λ e. record { freed_task = rw e (refl); other_tasks = λ j n. refl; same_length = refl })
      (λ e.
        if_cases (Frees s i) (not (validate_pointer s.heap t.kernel_stack_base)) (λ _. tt)
          (λ _. record {
            freed_task =
                get_or-set_self {0} s.tasks i (without_stack t) clear_task lt
                ∙ sym (if_false (t.kernel_stack_base == 0) t (without_stack t) e);
            other_tasks = λ j n. get_or-set_ne {0} s.tasks i j (without_stack t) clear_task n;
            same_length = length-set {0} s.tasks i (without_stack t);
          }))

-- Every task without a stack's base has no stack's top.
abbrev pub HasBases : List Task → Type 0
HasBases ts = (i : ℕ) → (task_at ts i).kernel_stack_base ≡ 0 → (task_at ts i).kernel_stack_top ≡ 0

-- What a round of the repair of slot `i` leaves, unless an assertion fails.
pub record RepairsAt (s : Scheduler) (i : ℕ) (r : Scheduler) : Type 0 where
  pub clean_task : is_clean (task_at r.tasks i) ≡ true
  pub kept_tasks : (j : ℕ) → i ≢ j → task_at r.tasks j ≡ task_at s.tasks j
  pub kept_length : length r.tasks ≡ length s.tasks

abbrev pub Repairs : Scheduler → ℕ → Option (Scheduler × ℕ) → Type 0
Repairs s i none = Unit {0}
Repairs s i (some (r, n)) = RepairsAt s i r

bare_clean :
    (u h l n w : Bool) (st : TaskState)
    → is_inactive st ≡ true
    → h ≡ false
    → (if not u
        then not h
        else state_is_valid st
          && (not (is_alive st && l)
              && (not (is_alive st && n)
                  && (not (is_sleeping st && w) && not (is_inactive st && h)))))
      ≡ true
bare_clean true h l n w unused i e = cc
bare_clean true h l n w active i e = cc
bare_clean true h l n w running i e = cc
bare_clean true h l n w sleeping i e = cc
bare_clean true h l n w stray i e = cc
bare_clean true h l n w disabled i e = rw e (refl)
bare_clean true h l n w completed i e = rw e (refl)
bare_clean false h l n w st i e = rw e (refl)

inactive_clean : (t : Task) → is_inactive t.state ≡ true → has_stack t ≡ false → is_clean t ≡ true
inactive_clean t i e =
    bare_clean t.used (has_stack t) (lacks_stack t) (t.entry == 0) (t.wake_tick == 0) t.state i e

pub no_stack : (t : Task) → t.kernel_stack_base ≡ 0 → t.kernel_stack_top ≡ 0 → has_stack t ≡ false
no_stack t b e = rw b (rw e refl)

pub unused_task_clean : (t : Task) → t.used ≡ false → has_stack t ≡ false → is_clean t ≡ true
unused_task_clean t u e = rw u (rw e (refl))

-- A stack that was freed, or was not there.
abbrev freed : Task → Task
freed t = if t.kernel_stack_base == 0 then t else without_stack t

freed-clean :
    (t : Task)
    → is_inactive t.state ≡ true
    → (t.kernel_stack_base ≡ 0 → t.kernel_stack_top ≡ 0)
    → is_clean (freed t) ≡ true
freed-clean t i sound =
    if_cases (λ (x : Task). is_clean x ≡ true) (t.kernel_stack_base == 0)
      (λ h. let z = ==→≡ t.kernel_stack_base 0 h in inactive_clean t i (no_stack t z (sound z)))
      (λ _. inactive_clean (without_stack t) i refl)

count_freed :
    (s s' : Scheduler) (i n : ℕ) (o : Option Scheduler)
    → Frees s' i o
    → ((f : Scheduler) → FreesAt s' i f → RepairsAt s i f)
    → Repairs s i (o >>= (λ f. some (f, n)))
count_freed s s' i n none f g = tt
count_freed s s' i n (some r) f g = g r f

-- A round that disables the task, and one that only frees its stack.
pub freed_as :
    (s : Scheduler) (i n : ℕ) (t : Task)
    → i < length s.tasks
    → is_inactive t.state ≡ true
    → (t.kernel_stack_base ≡ 0 → t.kernel_stack_top ≡ 0)
    → Repairs s i (free_and_count (set_task s i t) i n)
freed_as s i n t lt inactive sound =
    let s' : Scheduler = set_task s i t in
    let at : task_at s'.tasks i ≡ t = get_or-set_self {0} s.tasks i t clear_task lt in
    count_freed s s' i (inc32 n) (free_kernel_stack s' i)
      (free_kernel_stack-Frees s' i (omega (arith, lt, length-set {0} s.tasks i t)))
      (λ f k. record {
        clean_task = ap is_clean (k.freed_task ∙ ap freed at) ∙ freed-clean t inactive sound;
        kept_tasks = λ j ne. k.other_tasks j ne ∙ get_or-set_ne {0} s.tasks i j t clear_task ne;
        kept_length = k.same_length ∙ length-set {0} s.tasks i t;
      })

pub free_only :
    (s : Scheduler) (i n : ℕ)
    → i < length s.tasks
    → is_inactive (task_at s.tasks i).state ≡ true
    → ((task_at s.tasks i).kernel_stack_base ≡ 0 → (task_at s.tasks i).kernel_stack_top ≡ 0)
    → Repairs s i (free_and_count s i n)
free_only s i n lt inactive sound =
    count_freed s s i (inc32 n) (free_kernel_stack s i) (free_kernel_stack-Frees s i lt) (λ f k.
      record {
        clean_task = ap is_clean k.freed_task ∙ freed-clean (task_at s.tasks i) inactive sound;
        kept_tasks = k.other_tasks;
        kept_length = k.same_length;
      })

-- A round that changes the task alone.
pub set_only :
    (s : Scheduler) (i n : ℕ) (t : Task)
    → i < length s.tasks
    → is_clean t ≡ true
    → Repairs s i (some (set_task s i t, n))
set_only s i n t lt c = record {
  clean_task = ap is_clean (get_or-set_self {0} s.tasks i t clear_task lt) ∙ c;
  kept_tasks = λ j ne. get_or-set_ne {0} s.tasks i j t clear_task ne;
  kept_length = length-set {0} s.tasks i t;
}

pub keep_only :
    (s : Scheduler) (i n : ℕ) → is_clean (task_at s.tasks i) ≡ true → Repairs s i (some (s, n))
keep_only s i n c = record { clean_task = c; kept_tasks = λ j ne. refl; kept_length = refl }

-- The round of an unused task.
pub clear_unused :
    (s s' : Scheduler) (i n : ℕ)
    → i < length s.tasks
    → (task_at s'.tasks i).used ≡ false
    → (task_at s'.tasks i).kernel_stack_base ≡ 0
    → ((j : ℕ) → i ≢ j → task_at s'.tasks j ≡ task_at s.tasks j)
    → length s'.tasks ≡ length s.tasks
    → Repairs s i (clear_stack_fields i (s', n))
clear_unused s s' i n lt u b others same =
    let t : Task = record (task_at s'.tasks i) { kernel_stack_top = 0; kernel_stack_size = 0 } in
    record {
      clean_task =
          ap is_clean (get_or-set_self {0} s'.tasks i t clear_task (omega (arith, lt, same)))
          ∙ unused_task_clean t u (no_stack t b refl);
      kept_tasks = λ j ne. get_or-set_ne {0} s'.tasks i j t clear_task ne ∙ others j ne;
      kept_length = length-set {0} s'.tasks i t ∙ same;
    }
