-- ===== src/Process/Lifecycle.antt =====
-- How processes come and go in core/kernel/core/process.c: create, exit, and clearing of the slots.
use liam_os.Base.{
  List, Option, Status, [], get_or, if◌then◌else◌, inc32, invalid_argument, ltb, none, ok,
  out_of_memory, set, some, suc, true, ℕ, ◌-◌, ◌==◌, ◌||◌, ◌∷◌,
}
use liam_os.Str.{string_clear, string_copy}
use liam_os.Process.{
  Process, ProcessInfo, Table, argument_max, clear_arguments, exited, find_free_slot,
  image_path_max, is_done, name_max, ready, reset_slot, slot_at,
}
use liam_os.Fd.{initialize_process}

-- `process->argc = 1` and the copy of the name into `argv[0]`, after the arguments were cleared.
abbrev pub name_argument : Process → Process
name_argument p = record p {
  argc = 1;
  argv = set p.argv 0 (string_copy (get_or p.argv 0 []) p.name argument_max);
}

-- What `process_create` writes into the slot.
unfoldable pub filled : Process → ℕ → List ℕ → ℕ → ℕ → Process
unfolding clear_arguments
filled p pid name entry user_stack =
    let q = name_argument (
      clear_arguments (record p {
        pid = pid;
        name = string_copy p.name name name_max;
        state = ready;
        entry = entry;
        user_stack = user_stack;
        image_path = string_clear p.image_path image_path_max;
        exit_code = 0;
        last_status = ok;
        runs = 0;
      })) in
    record q { files = initialize_process q.files }

abbrev pub fail_create : Table → Status → Status × Option ℕ × Table
fail_create t s = (
  s,
  none,
  record t {
    info = record (t.info) { failed_creates = inc32 t.info.failed_creates; last_status = s };
  },
)

-- `process_create` with a free slot
unfoldable pub create_in : Table → ℕ → List ℕ → ℕ → ℕ → Status × Option ℕ × Table
unfolding filled
create_in t i name entry user_stack =
    let next = inc32 t.next_pid in
    let count = inc32 t.count in
    (
      ok,
      some i,
      record t {
        slots = set t.slots i (filled (slot_at t i) t.next_pid name entry user_stack);
        next_pid = next;
        count = count;
        info = record (t.info) {
          used_slots = count;
          next_pid = next;
          successful_creates = inc32 t.info.successful_creates;
          last_created_pid = t.next_pid;
          last_status = ok;
        };
      },
    )

-- Its search for the slot
unfoldable pub create_named : Table → List ℕ → ℕ → ℕ → Status × Option ℕ × Table
unfolding create_in find_free_slot
create_named t name entry user_stack =
    if (entry == 0) || (user_stack == 0)
    then fail_create t invalid_argument
    else elim (find_free_slot t) [
      | none ↦ fail_create t out_of_memory
      | some i ↦ create_in t i name entry user_stack
    ]

-- `process_create`: the status, the slot of the new process and the new state.
unfoldable pub create : Table → Option (List ℕ) → ℕ → ℕ → Status × Option ℕ × Table
unfolding create_named
create t name entry user_stack =
    let noted = record t {
      info = record (t.info) { create_attempts = inc32 t.info.create_attempts };
    } in
    elim name [
      | none ↦ fail_create noted invalid_argument
      | some n ↦ create_named noted n entry user_stack
    ]

-- `process_get_current_pid`
abbrev pub current_pid : Table → ℕ
current_pid t = elim t.current [ none ↦ 0 | some i ↦ (slot_at t i).pid ]

-- What is noted of a process that ends.
abbrev pub note_exit : ProcessInfo → Process → ℕ → Status → ProcessInfo
note_exit n p code s = record n {
  last_exit_pid = p.pid;
  last_exit_code = code;
  last_exit_status = s;
  last_exit_name = string_copy n.last_exit_name p.name name_max;
  has_last_exit = true;
}

-- `process_mark_exit`
unfoldable pub mark_exit : Table → ℕ → Table
mark_exit t code = elim t.current [
  | none ↦ t
  | some i ↦
      let p = slot_at t i in
      record t {
        slots = set t.slots i (record p { exit_code = code; state = exited });
        info = note_exit (record (t.info) { exit_count = inc32 t.info.exit_count }) p code ok;
      }
]

-- The loop of `process_clear_exited`: the slots, and how many were cleared.
unfoldable pub clear_done : List Process → List Process × ℕ
clear_done [] = ([], 0)
clear_done (p ∷ ps) =
    let (later, cleared) = clear_done ps in
    if is_done p.state then (reset_slot p ∷ later, suc cleared) else (p ∷ later, cleared)

-- `process_clear_exited`
unfoldable pub clear_exited : Table → ℕ × Table
unfolding clear_done
clear_exited t =
    let (slots', cleared) = clear_done t.slots in
    let count' = if ltb t.count cleared then 0 else t.count - cleared in
    (
      cleared,
      record t {
        slots = slots';
        count = count';
        info = record (t.info) { used_slots = count'; last_status = ok };
      },
    )

-- `process_get_info`
abbrev pub get_info : Table → Table
get_info t = record t {
  info = record (t.info) {
    used_slots = t.count;
    current_pid = current_pid t;
    next_pid = t.next_pid;
  };
}
