-- ===== src/Process/Run.antt =====
-- Running processes in core/kernel/core/process.c.
-- `user_image_resolve` and `ring3_run_user_image` are parameters. The second may do to the table what
-- the program does by its system calls before it comes back.
use liam_os.Base.{
  List, Option, Status, busy, if◌then◌else◌, inc32, invalid_argument, invalid_state, is_success,
  none, not, not_found, ok, set, some, suc, zero, ℕ, ◌&&◌, ◌==◌,
}
use liam_os.Str.{first}
use liam_os.Process.Lifecycle.{note_exit}
use liam_os.Process.{
  Process, Table, crashed, exited, find_by_pid, find_next_ready, is_exited, is_ready, is_running,
  max_processes, running, slot_at,
}

abbrev pub fail_run : Table → Process → Status → Status × Table
fail_run t p s = (
  s,
  record t {
    info = record (t.info) {
      failed_runs = inc32 t.info.failed_runs;
      last_run_pid = p.pid;
      last_status = s;
    };
  },
)

-- `process_run` when the image cannot be loaded
unfoldable pub fail_load : Table → ℕ → Status → Status × Table
fail_load t i s =
    let p = slot_at t i in
    let (s', u) = fail_run t p s in
    (
      s',
      record u {
        slots = set t.slots i (record p { last_status = s; state = crashed });
        info = record (u.info) { failed_processes = inc32 u.info.failed_processes };
      },
    )

-- The process as it starts.
abbrev pub started : Process → ℕ → ℕ → Process
started p entry user_stack = record p {
  entry = entry;
  user_stack = user_stack;
  state = running;
  runs = inc32 p.runs;
  exit_code = 0;
  last_status = ok;
}

-- What `process_run` does to a process that is still running when its program has come back.
unfoldable pub settle : Table → ℕ → Status → Table
settle t i s =
    let p = slot_at t i in
    if is_success s
    then record t {
      slots = set t.slots i (record p { state = exited; exit_code = 0 });
      info = note_exit (record (t.info) { exit_count = inc32 t.info.exit_count }) p 0 ok;
    }
    else record t {
      slots = set t.slots i (record p { state = crashed; exit_code = 0xFFFFFFFF });
      info =
          note_exit (record (t.info) { failed_processes = inc32 t.info.failed_processes }) p
            0xFFFFFFFF s;
    }

-- The last lines of `process_run`
unfoldable pub finish_run : Table → ℕ → Status → Table
finish_run t i s =
    let p = slot_at t i in
    record t {
      slots = set t.slots i (record p { last_status = s });
      current = none;
      info = record (t.info) {
        current_pid = 0;
        last_status = s;
        successful_runs =
            if is_success s then inc32 t.info.successful_runs else t.info.successful_runs;
        failed_runs = if is_success s then t.info.failed_runs else inc32 t.info.failed_runs;
      };
    }

-- `process_run` once the program has come back
unfoldable pub came_back : ℕ → Status × Table → Status × Table
unfolding settle finish_run
came_back i (s, t) =
    let settled = if is_running (slot_at t i).state then settle t i s else t in
    (s, finish_run settled i s)

-- After the loop of `process_run_all_ready`
abbrev pub all_run : Table → ℕ → Status × ℕ × Table
all_run t done = elim (find_next_ready t) [ none ↦ (ok, done, t) | some i ↦ (busy, done, t) ]

module _ (resolve : List ℕ → Status × (ℕ × ℕ)) (ring3_run : ℕ → ℕ → Table → Status × Table) where
  -- `process_run` once the entry point is known
  unfoldable pub start : Table → ℕ → ℕ → ℕ → Status × Table
  unfolding came_back
  start t i entry user_stack =
      let p = slot_at t i in
      came_back i (
        ring3_run entry user_stack (record t {
          slots = set t.slots i (started p entry user_stack);
          current = some i;
          info = record (t.info) { current_pid = p.pid; last_run_pid = p.pid };
        }))

  -- What `process_run` makes of `user_image_resolve`
  unfoldable pub start_loaded : Table → ℕ → Status × (ℕ × ℕ) → Status × Table
  unfolding start fail_load
  start_loaded t i (s, (entry, user_stack)) =
      if is_success s then start t i entry user_stack else fail_load t i s

  -- `process_run` of the process in slot `i`
  unfoldable pub run_slot : Table → ℕ → Status × Table
  unfolding start_loaded
  run_slot t i =
      let p = slot_at t i in
      if not (is_ready p.state) && not (is_exited p.state)
      then fail_run t p invalid_state
      else if first p.image_path == 0
      then start t i p.entry p.user_stack
      else start_loaded t i (resolve p.image_path)

  -- `process_run`; a null pointer is `none`.
  unfoldable pub run : Table → Option ℕ → Status × Table
  unfolding run_slot
  run t process =
      let noted = record t {
        info = record (t.info) { run_attempts = inc32 t.info.run_attempts };
      } in
      elim process [
        | none ↦ (
          invalid_argument,
          record noted {
            info = record (noted.info) {
              failed_runs = inc32 noted.info.failed_runs;
              last_status = invalid_argument;
            };
          },
        )
        | some i ↦ run_slot noted i
      ]

  -- `process_run_next_ready`: also the process that was run.
  unfoldable pub run_next_ready : Table → Status × Option ℕ × Table
  unfolding run
  run_next_ready t = elim (find_next_ready t) [
    | none ↦ (not_found, none, t)
    | some i ↦ let (s, u) = run t (some i) in (s, some i, u)
  ]

  -- `process_run_by_pid`
  unfoldable pub run_by_pid : Table → ℕ → Status × Option ℕ × Table
  unfolding run
  run_by_pid t pid = elim (find_by_pid t pid) [
    | none ↦ (not_found, none, t)
    | some i ↦
        if not (is_ready (slot_at t i).state)
        then (invalid_state, some i, t)
        else let (s, u) = run t (some i) in (s, some i, u)
  ]

  -- The loop of `process_run_all_ready`, with `n` rounds left and `done` runs done.
  unfoldable pub run_rounds : ℕ → Table → ℕ → Status × ℕ × Table
  unfolding run
  run_rounds zero t done = all_run t done
  run_rounds (suc n) t done = elim (find_next_ready t) [
    | none ↦ (if done == 0 then not_found else ok, done, t)
    | some i ↦
        let (s, u) = run t (some i) in
        let later = run_rounds n u (inc32 done) in if is_success s then later else (s, done, u)
  ]

  -- `process_run_all_ready`: also the number of runs.
  unfoldable pub run_all_ready : Table → ℕ → Status × ℕ × Table
  unfolding run_rounds
  run_all_ready t max_runs = run_rounds (if max_runs == 0 then max_processes else max_runs) t 0
