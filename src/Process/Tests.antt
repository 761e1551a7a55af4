-- ===== src/Process/Tests.antt =====
-- Runs of process.c's functions, and its theorems at concrete inputs.
use liam_os.Base.{
  List, Status, [], ap, arith, false, get_or, if◌then◌else◌, is_success, length, length-replicate,
  none, not_found, ok, refl, replicate, some, suc, true, zero, ℕ, ◌&&◌, ◌+◌, ◌<◌, ◌∷◌, ◌≡◌,
}
use liam_os.Process.Lifecycle.{clear_exited, create, create_in, create_named, mark_exit}
use liam_os.Process.{
  Process, Table, clear_arguments, find_by_pid, find_free_slot, initialize, no_process, reset_slot,
  slot_at,
}
use liam_os.Process.Arguments.{
  configure_arguments, configured, get_current_argc, get_current_argument, set_arguments,
  split_arguments,
}
use liam_os.Process.Invariant.{IsValid, initialize-IsValid}
use liam_os.Process.Finding.{create-find}
use liam_os.Process.Clearing.{clear_exited-find, live}
use liam_os.Process.Calls.{enters, exits}
use liam_os.Process.Run.{run, run_all_ready, run_slot, start}
use liam_os.Process.Running.{NoneReady, Settles, run-Settles, run_all_ready-drained}
use liam_os.Str.{string_clear, string_copy, string_copy_until_space, string_trim_left}
use liam_os.Process.Splitting.{gather, words}
use liam_os.Process.Passing.{Fits, IsSized, configure_arguments-get}
use liam_os.Str.Text.{text}
use liam_os.Fd.{closed}

abbrev blank_process : Process
blank_process = record no_process {
  name = replicate 32 0;
  image_path = replicate 64 0;
  arguments = replicate 128 0;
  argv = replicate 8 (replicate 64 0);
  files = replicate 16 closed;
}

abbrev cold : Table
cold = record {
  slots = replicate 16 blank_process;
  next_pid = 9;
  current = none;
  count = 5;
  info = record {
    initialized = false;
    table_capacity = 0;
    used_slots = 0;
    current_pid = 0;
    next_pid = 0;
    create_attempts = 0;
    successful_creates = 0;
    failed_creates = 0;
    run_attempts = 0;
    successful_runs = 0;
    failed_runs = 0;
    exit_count = 0;
    failed_processes = 0;
    last_created_pid = 0;
    last_run_pid = 0;
    last_exit_pid = 0;
    last_exit_code = 0;
    last_exit_status = ok;
    last_exit_name = replicate 32 0;
    has_last_exit = false;
    last_status = ok;
  };
}

abbrev hello : List ℕ
hello = b'h' ∷ b'i' ∷ []

-- One process, with pid 1, in slot 0.
abbrev one : Table
one = (create (initialize cold) (some hello) 0x10000000 0x10002000).2

one-IsValid : IsValid one
unfolding initialize
one-IsValid =
    (create-find (initialize cold) (some hello) 0x10000000 0x10002000 1
      (initialize-IsValid cold refl) (omega arith)).0

-- A program that exits with code 7.
abbrev exit_seven : ℕ → ℕ → Table → Status × Table
exit_seven entry user_stack t = (ok, mark_exit t 7)

abbrev no_image : List ℕ → Status × (ℕ × ℕ)
no_image path = (not_found, (0, 0))

finds_one : find_by_pid one 1 ≡ some 0
unfolding create create_named create_in find_by_pid find_free_slot initialize reset_slot
finds_one = refl

exit_code_seven : (slot_at (run no_image exit_seven one (some 0)).1 0).exit_code ≡ 7
unfolding create create_named create_in find_free_slot initialize run run_slot start mark_exit
    reset_slot string_clear
exit_code_seven = refl

splits : (configured blank_process (some (b' ' ∷ b'a' ∷ b'b' ∷ b' ' ∷ b'c' ∷ []))).argc ≡ 3
unfolding configured set_arguments split_arguments string_trim_left string_copy clear_arguments
    string_clear string_copy_until_space
splits = refl

create-find_example :
    let r = create (initialize cold) (some hello) 0x10000000 0x10002000 in
    IsValid r.2
    × (find_by_pid r.2 1
        ≡ (if is_success r.0 && true then r.1 else find_by_pid (initialize cold) 1))
unfolding initialize
create-find_example =
    create-find (initialize cold) (some hello) 0x10000000 0x10002000 1
      (initialize-IsValid cold refl) (omega arith)

clear_exited-find_example :
    let r = clear_exited one in
    IsValid r.1 × (r.1.count + r.0 ≡ one.count) × (find_by_pid r.1 1 ≡ live one (find_by_pid one 1))
clear_exited-find_example = clear_exited-find one 1 one-IsValid

run-Settles_example : Settles 0 1 (run no_image exit_seven one (some 0))
unfolding create create_named create_in find_free_slot initialize reset_slot
run-Settles_example =
    run-Settles no_image exit_seven (λ entry user_stack t. exits 7 enters) one 0 one-IsValid refl
      refl

run_all_ready-drained_example :
    let r = run_all_ready no_image exit_seven one 0 in
    IsValid r.2 × (r.2.current ≡ none) × (r.0 ≡ ok → NoneReady r.2)
unfolding create create_named create_in find_free_slot initialize reset_slot
run_all_ready-drained_example =
    run_all_ready-drained no_image exit_seven (λ entry user_stack t. exits 7 enters) one 0
      one-IsValid refl

-- A process in slot 0 that is the current one.
abbrev hosted : Table
hosted = record cold { current = some 0 }

get_or-replicate :
    (n i : ℕ) (b : List ℕ) → i < length (replicate n b) → get_or (replicate n b) i [] ≡ b
get_or-replicate zero i b h = absurd (omega arith)
get_or-replicate (suc n) zero b h = refl
get_or-replicate (suc n) (suc i) b h = get_or-replicate n i b (omega arith)

blank-IsSized : IsSized blank_process
blank-IsSized = record {
  argument_buffers = refl;
  argument_room = λ i l.
      omega
        (arith, ap length (get_or-replicate 8 i (replicate 64 0) l), length-replicate {A = ℕ} 64 0);
  line_room = omega arith;
}

-- " ab c"
abbrev line : List ℕ
line = b' ' ∷ b'a' ∷ b'b' ∷ b' ' ∷ b'c' ∷ []

line-Fits : Fits line
unfolding words gather string_trim_left
line-Fits = record {
  line_fits = omega arith;
  words_fit = (omega arith, (omega arith, tt));
  few = omega arith;
}

configure_arguments-get_example :
    let u = (configure_arguments hosted (some 0) (some line)).1 in
    let r = get_current_argument u 2 (some (replicate 10 7)) 10 in
    (get_current_argc u ≡ 3) × (r.0 ≡ ok) × (text r.1 ≡ b'c' ∷ []) × (r.2 ≡ 1)
unfolding words gather
configure_arguments-get_example =
    configure_arguments-get hosted 0 1 10 line (replicate 10 7) refl (omega arith) blank-IsSized
      line-Fits (omega arith) (omega arith) (omega arith)
