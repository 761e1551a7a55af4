-- ===== src/Process.antt =====
-- core/kernel/core/process.c: the table of processes.
-- The record `Table` holds `process_table`, `next_pid`, `current_process`, `process_count` and
-- `process_info`. A `process_t*` is the index of the slot that it points to. The out parameters are
-- results, so their null tests are left out; an `int32_t` exit code is its 32-bit pattern.
pub mod Lifecycle
pub mod Arguments
pub mod Run
pub mod Slots
pub mod Invariant
pub mod Finding
pub mod Clearing
pub mod Calls
pub mod Running
pub mod Splitting
pub mod Passing
mod Tests
use liam_os.Base.{
  Bool, List, Option, Status, [], false, get_or, if◌then◌else◌, none, not, ok, set, some, true, ℕ,
  ◌&&◌, ◌+◌, ◌==◌, ◌∷◌,
}
use liam_os.Str.{string_clear}
use liam_os.Fd.{FileSlot, initialize_process}

-- `process_state_t`
pub data ProcessState : Type 0 where
  unused ready running exited crashed : ProcessState

-- `process_t`
pub record Process : Type 0 where
  pub pid : ℕ
  pub name : List ℕ
  pub state : ProcessState
  pub entry : ℕ
  pub user_stack : ℕ
  pub image_path : List ℕ
  pub exit_code : ℕ
  pub last_status : Status
  pub runs : ℕ
  pub argc : ℕ
  pub arguments : List ℕ
  pub argv : List (List ℕ)
  pub files : List FileSlot

-- `process_info_t`; the fields `used_slots`, `current_pid` and `next_pid` are copies that
-- `process_get_info` refreshes.
pub record ProcessInfo : Type 0 where
  pub initialized : Bool
  pub table_capacity : ℕ
  pub used_slots : ℕ
  pub current_pid : ℕ
  pub next_pid : ℕ
  pub create_attempts : ℕ
  pub successful_creates : ℕ
  pub failed_creates : ℕ
  pub run_attempts : ℕ
  pub successful_runs : ℕ
  pub failed_runs : ℕ
  pub exit_count : ℕ
  pub failed_processes : ℕ
  pub last_created_pid : ℕ
  pub last_run_pid : ℕ
  pub last_exit_pid : ℕ
  pub last_exit_code : ℕ
  pub last_exit_status : Status
  pub last_exit_name : List ℕ
  pub has_last_exit : Bool
  pub last_status : Status

pub record Table : Type 0 where
  pub slots : List Process
  pub next_pid : ℕ
  pub current : Option ℕ
  pub count : ℕ
  pub info : ProcessInfo

abbrev pub max_processes : ℕ
max_processes = 16

abbrev pub name_max : ℕ
name_max = 32

abbrev pub argument_max : ℕ
argument_max = 64

abbrev pub argument_line_max : ℕ
argument_line_max = 128

abbrev pub image_path_max : ℕ
image_path_max = 64

abbrev pub is_unused : ProcessState → Bool
is_unused unused = true
is_unused _ = false

abbrev pub is_ready : ProcessState → Bool
is_ready ready = true
is_ready _ = false

abbrev pub is_running : ProcessState → Bool
is_running running = true
is_running _ = false

abbrev pub is_exited : ProcessState → Bool
is_exited exited = true
is_exited _ = false

-- PROCESS_EXITED or PROCESS_FAILED
abbrev pub is_done : ProcessState → Bool
is_done exited = true
is_done crashed = true
is_done _ = false

-- The loop of `process_clear_arguments`
unfoldable pub clear_argv : List (List ℕ) → List (List ℕ)
clear_argv [] = []
clear_argv (a ∷ argv) = string_clear a argument_max ∷ clear_argv argv

-- `process_clear_arguments`
unfoldable pub clear_arguments : Process → Process
unfolding clear_argv
clear_arguments p = record p {
  argc = 0;
  arguments = string_clear p.arguments argument_line_max;
  argv = clear_argv p.argv;
}

-- `process_reset_slot`
unfoldable pub reset_slot : Process → Process
unfolding clear_arguments
reset_slot p =
    let q = clear_arguments (record p {
      pid = 0;
      name = set p.name 0 0;
      state = unused;
      entry = 0;
      user_stack = 0;
      image_path = string_clear p.image_path image_path_max;
      exit_code = 0;
      last_status = ok;
      runs = 0;
    }) in
    record q { files = initialize_process q.files }

-- The loop of `process_initialize`
unfoldable pub reset_all : List Process → List Process
reset_all [] = []
reset_all (p ∷ ps) = reset_slot p ∷ reset_all ps

-- `process_initialize`
unfoldable pub initialize : Table → Table
unfolding reset_all
initialize t = record {
  slots = reset_all t.slots;
  next_pid = 1;
  current = none;
  count = 0;
  info = record {
    initialized = true;
    table_capacity = max_processes;
    used_slots = 0;
    current_pid = 0;
    next_pid = 1;
    create_attempts = 0;
    successful_creates = 0;
    failed_creates = 0;
    run_attempts = 0;
    successful_runs = 0;
    failed_runs = 0;
    exit_count = 0;
    failed_processes = 0;
    last_created_pid = 0;
    last_run_pid = 0;
    last_exit_pid = 0;
    last_exit_code = 0;
    last_exit_status = ok;
    last_exit_name = set t.info.last_exit_name 0 0;
    has_last_exit = false;
    last_status = ok;
  };
}

-- The loop over the table that all searches share: the first slot, from index `i` on, that passes.
unfoldable pub find_from : (Process → Bool) → ℕ → List Process → Option ℕ
find_from passes i [] = none
find_from passes i (p ∷ ps) =
    let later = find_from passes (i + 1) ps in if passes p then some i else later

-- `process_find_free_slot`
unfoldable pub find_free_slot : Table → Option ℕ
unfolding find_from
find_free_slot t = find_from (λ p. is_unused p.state) 0 t.slots

-- `process_find_next_ready`
unfoldable pub find_next_ready : Table → Option ℕ
unfolding find_from
find_next_ready t = find_from (λ p. is_ready p.state) 0 t.slots

-- The test of `process_find_by_pid_mutable`
abbrev pub has_pid : ℕ → Process → Bool
has_pid pid p = not (is_unused p.state) && (p.pid == pid)

-- `process_find_by_pid_mutable`
unfoldable pub find_by_pid : Table → ℕ → Option ℕ
unfolding find_from
find_by_pid t pid = if pid == 0 then none else find_from (has_pid pid) 0 t.slots

-- What stands for a slot beyond the table.
abbrev pub no_process : Process
no_process = record {
  pid = 0;
  name = [];
  state = unused;
  entry = 0;
  user_stack = 0;
  image_path = [];
  exit_code = 0;
  last_status = ok;
  runs = 0;
  argc = 0;
  arguments = [];
  argv = [];
  files = [];
}

abbrev pub slot_at : Table → ℕ → Process
slot_at t i = get_or t.slots i no_process
