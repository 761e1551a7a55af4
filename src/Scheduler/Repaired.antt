-- ===== src/Scheduler/Repaired.antt =====
-- A round of `scheduler_repair` of core/kernel/core/scheduler.c, and the whole.
use liam_os.Base.{
  ==→≡, ==→≢, Bool, Bool-cases, List, Option, [], ap, arith, false, if_cases, if_false,
  if◌then◌else◌, inc32, inl, inr, length, none, not, refl, some, subst, suc, sym, true, zero, ℕ,
  ◌&&◌, ◌+◌, ◌<◌, ◌==◌, ◌>>=◌, ◌||◌, ◌∙◌, ◌∷◌, ◌≡◌, ◌≤◌,
}
use liam_os.Scheduler.{
  Scheduler, Task, TaskState, active, completed, disabled, is_alive, is_inactive, is_sleeping,
  recalculate_task_counts, running, sleeping, state_is_valid, stray, task_at, unused,
}
use liam_os.Scheduler.Tasks.{free_kernel_stack, without_stack}
use liam_os.Scheduler.Audit.{
  SchedulerAudit, audit, audit_queue, audit_queue_from, audit_running, audit_switched, audit_tasks,
  clear_audit, clear_stack_fields, finish_repair, has_stack, in_table, lacks_stack, repair,
  repair_rest, repair_rounds, repair_task,
}
use liam_os.Scheduler.Repairing.{
  Frees, HasBases, Repairs, RepairsAt, and_left, audit_task-clean, clear_unused,
  free_kernel_stack-Frees, free_only, freed_as, is_clean, keep_only, no_stack, is_off, set_only,
  on_off_absurd,
}

-- The round of an unused task whose stack was freed.
unused_freed :
    (s : Scheduler) (i n : ℕ) (o : Option Scheduler)
    → i < length s.tasks
    → (task_at s.tasks i).used ≡ false
    → ((task_at s.tasks i).kernel_stack_base == 0) ≡ false
    → Frees s i o
    → Repairs s i ((o >>= (λ f. some (f, n))) >>= clear_stack_fields i)
unused_freed s i n none lt u b f = tt
unused_freed s i n (some r) lt u b f =
    let at : task_at r.tasks i ≡ without_stack (task_at s.tasks i) =
      f.freed_task
      ∙ if_false ((task_at s.tasks i).kernel_stack_base == 0) (task_at s.tasks i)
          (without_stack (task_at s.tasks i)) b in
    clear_unused s r i n lt (ap (λ (t : Task). t.used) at ∙ u)
      (ap (λ (t : Task). t.kernel_stack_base) at) f.other_tasks f.same_length

-- Facts about the tests of a round.
is_on : (b : Bool) → not b ≡ false → b ≡ true
is_on true e = refl
is_on false e = cc

used_means : (u h x : Bool) → u ≡ true → x ≡ true → (if not u then not h else x) ≡ true
used_means u h x e f = rw e f

no_stack_needed : (c b h : Bool) → (c && not b) ≡ false → (b ≡ true → h ≡ false) → (c && h) ≡ false
no_stack_needed false b h e f = refl
no_stack_needed true true h e f = f refl
no_stack_needed true false h e f = cc

kept_clean :
    (valid alive asleep inactive n l w h : Bool)
    → valid ≡ true
    → (alive && (n || l)) ≡ false
    → (asleep && w) ≡ false
    → (inactive && h) ≡ false
    → (valid
        && (not (alive && l) && (not (alive && n) && (not (asleep && w) && not (inactive && h)))))
      ≡ true
kept_clean true true asleep inactive true l w h v a z i = cc
kept_clean true true asleep inactive false true w h v a z i = cc
kept_clean true true asleep inactive false false w h v a z i = rw z (rw i refl)
kept_clean true false asleep inactive n l w h v a z i = rw z (rw i refl)
kept_clean false alive asleep inactive n l w h v a z i = cc

woken :
    (n l : Bool) (st : TaskState)
    → is_sleeping st ≡ true
    → (is_alive st && (n || l)) ≡ false
    → (not l && (not n && true)) ≡ true
woken true l sleeping s a = cc
woken false true sleeping s a = cc
woken false false sleeping s a = refl
woken n l unused s a = cc
woken n l active s a = cc
woken n l running s a = cc
woken n l disabled s a = cc
woken n l completed s a = cc
woken n l stray s a = cc

-- A sleeping task that is set active.
woken_clean :
    (t : Task)
    → t.used ≡ true
    → is_sleeping t.state ≡ true
    → (is_alive t.state && ((t.entry == 0) || lacks_stack t)) ≡ false
    → is_clean (record t { state = active }) ≡ true
woken_clean t u s a =
    used_means t.used (has_stack t) (not (lacks_stack t) && (not (t.entry == 0) && true)) u
      (woken (t.entry == 0) (lacks_stack t) t.state s a)

-- The last two tests of a round.
repair_rest-Repairs :
    (s : Scheduler) (i n : ℕ)
    → i < length s.tasks
    → ((task_at s.tasks i).kernel_stack_base ≡ 0 → (task_at s.tasks i).kernel_stack_top ≡ 0)
    → (task_at s.tasks i).used ≡ true
    → state_is_valid (task_at s.tasks i).state ≡ true
    → (is_alive (task_at s.tasks i).state
        && (((task_at s.tasks i).entry == 0) || lacks_stack (task_at s.tasks i)))
      ≡ false
    → Repairs s i (repair_rest s i n)
repair_rest-Repairs s i n lt sound u v a =
    let t = task_at s.tasks i in
    let asleep = is_sleeping t.state && (t.wake_tick == 0) in
    let idle = is_inactive t.state && not (t.kernel_stack_base == 0) in
    if_cases (Repairs s i) asleep
      (λ h.
        set_only s i (inc32 n) (record t { state = active }) lt
          (woken_clean t u (and_left (is_sleeping t.state) (t.wake_tick == 0) h) a))
      (λ z.
        if_cases (Repairs s i) idle
          (λ h.
            free_only s i n lt (and_left (is_inactive t.state) (not (t.kernel_stack_base == 0)) h)
              sound)
          (λ h. keep_only s i n (
            used_means t.used (has_stack t)
              (state_is_valid t.state
                && (not (is_alive t.state && lacks_stack t)
                    && (not (is_alive t.state && (t.entry == 0))
                        && (not (is_sleeping t.state && (t.wake_tick == 0))
                            && not (is_inactive t.state && has_stack t)))))
              u
              (kept_clean (state_is_valid t.state) (is_alive t.state) (is_sleeping t.state)
                (is_inactive t.state) (t.entry == 0) (lacks_stack t) (t.wake_tick == 0)
                (has_stack t) v a z
                (no_stack_needed (is_inactive t.state) (t.kernel_stack_base == 0) (has_stack t) h
                  (λ e. let b = ==→≡ t.kernel_stack_base 0 e in no_stack t b (sound b)))))))

repair_task-Repairs :
    (s : Scheduler) (i n : ℕ)
    → i < length s.tasks
    → ((task_at s.tasks i).kernel_stack_base ≡ 0 → (task_at s.tasks i).kernel_stack_top ≡ 0)
    → Repairs s i (repair_task s i n)
unfolding repair_task
repair_task-Repairs s i n lt sound =
    let t = task_at s.tasks i in
    if_cases (Repairs s i) (not t.used)
      (λ u.
        let u' = is_off t.used u in
        if_cases (λ (o : Option (Scheduler × ℕ)). Repairs s i (o >>= clear_stack_fields i))
          (not (t.kernel_stack_base == 0))
          (λ b.
            unused_freed s i (inc32 n) (free_kernel_stack s i) lt u'
              (is_off (t.kernel_stack_base == 0) b) (free_kernel_stack-Frees s i lt))
          (λ b.
            clear_unused s s i n lt u'
              (==→≡ t.kernel_stack_base 0 (is_on (t.kernel_stack_base == 0) b)) (λ j ne. refl)
              refl))
      (λ u.
        if_cases (Repairs s i) (not (state_is_valid t.state))
          (λ _. freed_as s i n (record t { state = disabled }) lt refl sound)
          (λ v.
            if_cases (Repairs s i) (is_alive t.state && ((t.entry == 0) || lacks_stack t))
              (λ _. freed_as s i n (record t { state = disabled }) lt refl sound)
              (λ a.
                repair_rest-Repairs s i n lt sound (is_on t.used u)
                  (is_on (state_is_valid t.state) v) a)))

-- What the loop leaves, unless an assertion fails.
abbrev CleansAll : Option (Scheduler × ℕ) → Type 0
CleansAll none = Unit {0}
CleansAll (some (r, n)) =
    (length r.tasks ≡ 16) × ((j : ℕ) → j < 16 → is_clean (task_at r.tasks j) ≡ true)

next_round :
    (s : Scheduler) (i n : ℕ) (o : Option (Scheduler × ℕ))
    → Repairs s i o
    → ((r : Scheduler) (c : ℕ) → RepairsAt s i r → CleansAll (repair_rounds n r (i + 1) c))
    → CleansAll (o >>= (λ (r, c). repair_rounds n r (i + 1) c))
next_round s i n none f g = tt
next_round s i n (some (r, c)) f g = g r c f

clean_below :
    (s r : Scheduler) (i : ℕ)
    → RepairsAt s i r
    → ((j : ℕ) → j < i → is_clean (task_at s.tasks j) ≡ true)
    → (j : ℕ) → j < i + 1
    → is_clean (task_at r.tasks j) ≡ true
clean_below s r i k below j lt = elim (Bool-cases (i == j)) [
  | inl e ↦ subst (λ x. is_clean (task_at r.tasks x) ≡ true) (==→≡ i j e) k.clean_task
  | inr e ↦ ap is_clean (k.kept_tasks j (==→≢ i j e)) ∙ below j (omega (arith, lt, ==→≢ i j e))
]

repair_rounds-CleansAll :
    (n : ℕ) (s : Scheduler) (i c : ℕ)
    → length s.tasks ≡ 16
    → i + n ≡ 16
    → ((j : ℕ) → j < i → is_clean (task_at s.tasks j) ≡ true)
    → ((j : ℕ)
        → i ≤ j
        → (task_at s.tasks j).kernel_stack_base ≡ 0
        → (task_at s.tasks j).kernel_stack_top ≡ 0)
    → CleansAll (repair_rounds n s i c)
unfolding repair_rounds
repair_rounds-CleansAll zero s i c len e below above = (len, λ j lt. below j (omega (arith, e, lt)))
repair_rounds-CleansAll (suc n) s i c len e below above =
    next_round s i n (repair_task s i c)
      (repair_task-Repairs s i c (omega (arith, len, e)) (above i (omega arith)))
      (λ r count k.
        repair_rounds-CleansAll n r (i + 1) count (k.kept_length ∙ len) (omega (arith, e))
          (clean_below s r i k below)
          (λ j le b.
            let same = k.kept_tasks j (λ z. omega (arith, le, z)) in
            ap (λ (t : Task). t.kernel_stack_top) same
            ∙ above j (omega (arith, le)) (sym (ap (λ (t : Task). t.kernel_stack_base) same) ∙ b)))

audit_tasks-clean :
    (ts : List Task) (a : SchedulerAudit)
    → ((j : ℕ) → j < length ts → is_clean (task_at ts j) ≡ true)
    → audit_tasks ts a ≡ a
unfolding audit_tasks
audit_tasks-clean [] a c = refl
audit_tasks-clean (t ∷ ts) a c =
    ap (audit_tasks ts) (audit_task-clean t a (c 0 (omega arith)))
    ∙ audit_tasks-clean ts a (λ j lt. c (suc j) (omega (arith, lt)))

audit_queue-empty : (s : Scheduler) (a : SchedulerAudit) → s.queue.count ≡ 0 → audit_queue s a ≡ a
unfolding audit_queue audit_queue_from
audit_queue-empty s a e = rw e (refl)

in_table-checked : (o : Option ℕ) → in_table (if not (in_table o) then none else o) ≡ true
in_table-checked o =
    if_cases (λ (x : Option ℕ). in_table x ≡ true) (not (in_table o)) (λ _. refl)
      (λ h. is_on (in_table o) h)

audit_running-none :
    (s : Scheduler) (a : SchedulerAudit) → in_table s.running_task ≡ true → audit_running s a ≡ a
unfolding audit_running
audit_running-none s a e =
    if_cases (λ (r : SchedulerAudit). r ≡ a) (not (in_table s.running_task))
      (λ h. absurd (on_off_absurd (in_table s.running_task) e (is_off (in_table s.running_task) h)))
      (λ _. refl)

audit_switched-none :
    (s : Scheduler) (a : SchedulerAudit) → in_table s.switched_task ≡ true → audit_switched s a ≡ a
unfolding audit_switched
audit_switched-none s a e =
    if_cases (λ (r : SchedulerAudit). r ≡ a) (not (in_table s.switched_task))
      (λ h.
        absurd (on_off_absurd (in_table s.switched_task) e (is_off (in_table s.switched_task) h)))
      (λ _. refl)

-- A state in which the audit finds nothing.
audit-clean :
    (s : Scheduler)
    → ((j : ℕ) → j < length s.tasks → is_clean (task_at s.tasks j) ≡ true)
    → s.queue.count ≡ 0
    → in_table s.running_task ≡ true
    → in_table s.switched_task ≡ true
    → (audit s).issues_found ≡ 0
unfolding audit
audit-clean s c q r w =
    let a : SchedulerAudit = record clear_audit { audits_run = 1 } in
    ap (λ (x : SchedulerAudit). x.issues_found)
      (audit_switched-none s (audit_running s (audit_queue s (audit_tasks s.tasks a))) w
        ∙ (audit_running-none s (audit_queue s (audit_tasks s.tasks a)) r
            ∙ (audit_queue-empty s (audit_tasks s.tasks a) q ∙ audit_tasks-clean s.tasks a c)))

-- A repair after which the audit finds nothing. `none`: an assertion of the heap stopped the kernel.
abbrev pub IsRepaired : Option (Scheduler × ℕ) → Type 0
IsRepaired none = Unit {0}
IsRepaired (some (r, n)) = (audit r).issues_found ≡ 0

finish_repair-IsRepaired :
    (o : Option (Scheduler × ℕ)) → CleansAll o → IsRepaired (o >>= (λ r. some (finish_repair r)))
unfolding recalculate_task_counts
finish_repair-IsRepaired none c = tt
finish_repair-IsRepaired (some (r, n)) (len, c) =
    audit-clean (finish_repair (r, n)).0 (λ j lt. c j (omega (arith, lt, len))) refl
      (in_table-checked r.running_task) (in_table-checked r.switched_task)

-- Whatever the 16 tasks, the queue and the two pointers hold, after `scheduler_repair`
-- `scheduler_audit` finds no issue, if every task without a stack's base has no stack's top, unless
-- the heap refuses a stack that is freed and the assertion on it stops the kernel.
pub repair-IsRepaired :
    (s : Scheduler) → length s.tasks ≡ 16 → HasBases s.tasks → IsRepaired (repair s)
unfolding repair
repair-IsRepaired s len sound = finish_repair-IsRepaired (repair_rounds 16 s 0 0) (
    repair_rounds-CleansAll 16 s 0 0 len refl (λ j lt. absurd (omega (arith, lt)))
      (λ j le. sound j))
