-- ===== src/Process/Calls.antt =====
-- What a program may do to the process table before it comes back: the system calls of
-- core/kernel/core/syscall.c that reach process.c and fd_table.c, in any order.
use liam_os.Base.{
  List, Option, Option-cases, Status, [], ap, arith, false, get_or-set_ne, if_cases, inc32, inl,
  inr, none, refl, set, some, subst, suc, sym, true, zero, ℕ, ≡→==, ◌+◌, ◌<◌, ◌==◌, ◌^◌, ◌||◌, ◌∙◌,
  ◌∷◌, ◌≡◌, ◌≢◌,
}
use liam_os.Process.Lifecycle.{create, create_in, create_named, mark_exit}
use liam_os.Process.{
  Process, ProcessInfo, ProcessState, Table, clear_arguments, crashed, exited, find_free_slot,
  is_exited, is_running, is_unused, max_processes, no_process, ready, running, slot_at, unused,
}
use liam_os.Process.Arguments.{configure_arguments, configure_image_path, configured, set_arguments}
use liam_os.Process.Slots.{nth, nth-set}
use liam_os.Process.Invariant.{IsValid, create_in-IsValid, info-IsValid, keep-IsValid}
use liam_os.Process.Finding.{free_slot}
use liam_os.Str.{first, string_trim_left}
use liam_os.Fd.{FileSlot}

-- The table after open, read or close changed the files of the current process.
abbrev set_files_of : Table → Option ℕ → List FileSlot → Table
set_files_of t none files = t
set_files_of t (some i) files = record t {
  slots = set t.slots i (record (slot_at t i) { files = files });
}

abbrev pub set_files : Table → List FileSlot → Table
set_files t files = set_files_of t t.current files

-- Exit, exec (a new process, its image and its arguments), and the calls on files. Pids do not run
-- out.
pub data Calls (t : Table) : Table → Type 0 where
  enters : Calls t t
  exits : {u : Table} (code : ℕ) → Calls t u → Calls t (mark_exit u code)
  creates :
      {u : Table} (name : Option (List ℕ)) (entry user_stack : ℕ)
      → u.next_pid + 1 < 2 ^ 32
      → Calls t u
      → Calls t (create u name entry user_stack).2
  loads :
      {u : Table} (i : Option ℕ) (path : Option (List ℕ))
      → Calls t u
      → Calls t (configure_image_path u i path).1
  passes :
      {u : Table} (i : Option ℕ) (arguments : Option (List ℕ))
      → Calls t u
      → Calls t (configure_arguments u i arguments).1
  uses_files : {u : Table} (files : List FileSlot) → Calls t u → Calls t (set_files u files)

-- The current process is the one in slot `i`, with pid `pid`, and it has not got past its exit.
pub record Hosts (i pid : ℕ) (t : Table) : Type 0 where
  pub valid : IsValid t
  pub in_table : i < max_processes
  pub is_current : t.current ≡ some i
  pub active : is_running (slot_at t i).state || is_exited (slot_at t i).state ≡ true
  pub pid_eq : (slot_at t i).pid ≡ pid

pub active_used : (s : ProcessState) → is_running s || is_exited s ≡ true → is_unused s ≡ false
active_used unused h = cc
active_used ready h = refl
active_used running h = refl
active_used exited h = refl
active_used crashed h = refl

-- A write of a slot that keeps what is asked of it keeps that of every slot.
set-same {ℓ} :
    {A : Type ℓ} (f : Process → A) (ps : List Process) (i : ℕ) (p : Process)
    → f p ≡ f (nth ps i)
    → (j : ℕ) → f (nth (set ps i p) j) ≡ f (nth ps j)
set-same f [] i p h j = refl
set-same f (q ∷ ps) zero p h zero = h
set-same f (q ∷ ps) zero p h (suc j) = refl
set-same f (q ∷ ps) (suc i) p h zero = refl
set-same f (q ∷ ps) (suc i) p h (suc j) = set-same f ps i p h j

-- A write that keeps pid and state.
rewritten-Hosts :
    {i pid : ℕ} {t : Table} (o : Hosts i pid t) (j : ℕ) (p : Process)
    → p.pid ≡ (slot_at t j).pid
    → p.state ≡ (slot_at t j).state
    → Hosts i pid (record t { slots = set t.slots j p })
rewritten-Hosts {i} {pid} {t} o j p same_pid same_state = record {
  valid = keep-IsValid o.valid _ j p refl refl refl same_pid (ap is_unused same_state);
  in_table = o.in_table;
  is_current = o.is_current;
  active =
      ap (λ s. is_running s || is_exited s) (set-same (λ q. q.state) t.slots j p same_state i)
      ∙ o.active;
  pid_eq = set-same (λ q. q.pid) t.slots j p same_pid i ∙ o.pid_eq;
}

slot_at-create_in :
    (t : Table) (k i : ℕ) (name : List ℕ) (entry user_stack : ℕ)
    → i ≢ k
    → slot_at (create_in t k name entry user_stack).2 i ≡ slot_at t i
unfolding create_in
slot_at-create_in t k i name entry user_stack away =
    get_or-set_ne t.slots k i _ no_process (λ e. away (sym e))

create_in-Hosts :
    {i pid : ℕ} {t : Table} (o : Hosts i pid t) (k : ℕ) (name : List ℕ) (entry user_stack : ℕ)
    → k < max_processes
    → is_unused (slot_at t k).state ≡ true
    → t.next_pid + 1 < 2 ^ 32
    → Hosts i pid (create_in t k name entry user_stack).2
unfolding create_in
create_in-Hosts {i} {pid} {t} o k name entry user_stack lt free small =
    let w = create_in-IsValid o.valid k name entry user_stack lt free small in
    let away : i ≢ k = λ e. ground (
      arith,
      free,
      active_used (slot_at t i).state o.active,
      ap (λ n. is_unused (slot_at t n).state) e,
    ) in
    let same = slot_at-create_in t k i name entry user_stack away in
    record {
      valid = w;
      in_table = o.in_table;
      is_current = o.is_current;
      active = ap (λ p. is_running p.state || is_exited p.state) same ∙ o.active;
      pid_eq = ap (λ p. p.pid) same ∙ o.pid_eq;
    }

info-Hosts :
    {i pid : ℕ} {t : Table} (o : Hosts i pid t) (n : ProcessInfo)
    → Hosts i pid (record t { info = n })
info-Hosts o n = record {
  valid = info-IsValid o.valid n;
  in_table = o.in_table;
  is_current = o.is_current;
  active = o.active;
  pid_eq = o.pid_eq;
}

create-Hosts :
    {i pid : ℕ} {t : Table} (o : Hosts i pid t) (name : Option (List ℕ)) (entry user_stack : ℕ)
    → t.next_pid + 1 < 2 ^ 32
    → Hosts i pid (create t name entry user_stack).2
unfolding create create_named
create-Hosts o none entry user_stack small = info-Hosts o _
create-Hosts {i} {pid} {t} o (some name) entry user_stack small =
    let n = record (t.info) { create_attempts = inc32 t.info.create_attempts } in
    if_cases (λ (r : Status × Option ℕ × Table). Hosts i pid r.2)
      ((entry == 0) || (user_stack == 0)) (λ _. info-Hosts o _)
      (λ _. elim (Option-cases (find_free_slot t)) [
        | inl full ↦ rw full (info-Hosts o _)
        | inr (k, hit) ↦
            let f = free_slot o.valid k hit in
            rw hit (create_in-Hosts (info-Hosts o n) k name entry user_stack f.0 f.1 small)
      ])

mark_exit-Hosts :
    {i pid : ℕ} {t : Table} (o : Hosts i pid t) (code : ℕ) → Hosts i pid (mark_exit t code)
unfolding mark_exit
mark_exit-Hosts {i} {pid} {t} o code =
    let q = record (slot_at t i) { exit_code = code; state = exited } in
    let used = active_used (slot_at t i).state o.active in
    let here = nth-set t.slots i i q (omega (arith, o.in_table, o.valid.capacity)) in
    let it : nth (set t.slots i q) i ≡ q = here ∙ rw (≡→== i i refl) refl in
    rw o.is_current (record {
      valid = keep-IsValid o.valid _ i q refl refl refl refl (sym used);
      in_table = o.in_table;
      is_current = refl;
      active = ap (λ p. is_running p.state || is_exited p.state) it;
      pid_eq = ap (λ p. p.pid) it ∙ o.pid_eq;
    })

configured_lem :
    (p : Process) (arguments : Option (List ℕ))
    → ((configured p arguments).pid ≡ p.pid) × ((configured p arguments).state ≡ p.state)
unfolding configured clear_arguments set_arguments
configured_lem p none = (refl, refl)
configured_lem p (some arguments) =
    if_cases (λ (q : Process). (q.pid ≡ p.pid) × (q.state ≡ p.state))
      (first (string_trim_left arguments) == 0) (λ _. (refl, refl)) (λ _. (refl, refl))

-- Whatever calls a program makes, it stays the current process, in its slot and with its pid, and
-- the table stays valid.
pub Calls-Hosts : {i pid : ℕ} {t u : Table} → Calls t u → Hosts i pid t → Hosts i pid u
unfolding configure_image_path configure_arguments
Calls-Hosts enters o = o
Calls-Hosts (exits code c) o = mark_exit-Hosts (Calls-Hosts c o) code
Calls-Hosts (creates name entry user_stack small c) o =
    create-Hosts (Calls-Hosts c o) name entry user_stack small
Calls-Hosts (loads none path c) o = Calls-Hosts c o
Calls-Hosts (loads (some j) none c) o = Calls-Hosts c o
Calls-Hosts (loads (some j) (some path) c) o = rewritten-Hosts (Calls-Hosts c o) j _ refl refl
Calls-Hosts (passes none arguments c) o = Calls-Hosts c o
Calls-Hosts (passes {u} (some j) arguments c) o =
    let l = configured_lem (slot_at u j) arguments in rewritten-Hosts (Calls-Hosts c o) j _ l.0 l.1
Calls-Hosts {i} {pid} (uses_files {u} files c) o =
    let ih = Calls-Hosts c o in
    subst (λ k. Hosts i pid (set_files_of u k files)) (sym ih.is_current)
      (rewritten-Hosts ih i _ refl refl)
