-- ===== src/Syscall/Tests.antt =====
-- System calls of a small kernel: one program runs, and the file /bin/sh is open as its file 3.
use liam_os.Base.{
  List, [], arith, false, get_or, if◌then◌else◌, inl, leb, none, ok, refl, replicate, some, true, ℕ,
  ◌-◌, ◌∷◌, ◌≡◌,
}
use liam_os.Process.{Process, Table, no_process, ready, running, slot_at}
use liam_os.Vfs.{Node, NodeInfo, Vfs, child, directory, file, find_child, lookup, nil, node, walk}
use liam_os.Exec.{registered_images}
use liam_os.Str.{string_copy, string_equals, string_length}
use liam_os.Vfs.Files.{read_node}
use liam_os.Fd.{closed}
use liam_os.Syscall.{Kernel, user_buffer_is_valid}
use liam_os.Syscall.Dispatch.{clear_info, dispatch}
use liam_os.Syscall.Confined.{dispatch-confined}

abbrev directory_info : List ℕ → NodeInfo
directory_info name = record {
  name = some name;
  path = [];
  type = directory;
  contents = none;
  size = 0;
  mode = 0;
  flags = 0;
}

abbrev shell_node : Node
shell_node =
    node
      (record (directory_info (b's' ∷ b'h' ∷ [])) {
        type = file;
        contents = some (65 ∷ 66 ∷ 67 ∷ []);
        size = 3;
      })
      nil

abbrev shell_vfs : Vfs
shell_vfs = record {
  root = some (
      node (directory_info [])
        (child (node (directory_info (b'b' ∷ b'i' ∷ b'n' ∷ [])) (child shell_node nil)) nil));
  initialized = true;
  mounted_nodes = 3;
  lookup_attempts = 0;
  lookup_failures = 0;
  read_attempts = 0;
  read_failures = 0;
  last_status = ok;
  last_path = replicate 128 0;
}

abbrev blank_process : Process
blank_process = record no_process {
  name = replicate 32 0;
  image_path = replicate 64 0;
  arguments = replicate 128 0;
  argv = replicate 8 (replicate 64 0);
  files = replicate 16 closed;
}

abbrev caller : Process
caller = record blank_process {
  pid = 1;
  state = running;
  files =
      closed
      ∷ closed
      ∷ closed
      ∷ record { used = true; node = some shell_node; offset = 0; flags = 0 }
      ∷ replicate 12 closed;
}

abbrev caller_table : Table
caller_table = record {
  slots = caller ∷ replicate 15 blank_process;
  next_pid = 2;
  current = some 0;
  count = 1;
  info = record {
    initialized = true;
    table_capacity = 16;
    used_slots = 1;
    current_pid = 1;
    next_pid = 2;
    create_attempts = 1;
    successful_creates = 1;
    failed_creates = 0;
    run_attempts = 1;
    successful_runs = 0;
    failed_runs = 0;
    exit_count = 0;
    failed_processes = 0;
    last_created_pid = 1;
    last_run_pid = 1;
    last_exit_pid = 0;
    last_exit_code = 0;
    last_exit_status = ok;
    last_exit_name = replicate 32 0;
    has_last_exit = false;
    last_status = ok;
  };
}

-- The code page starts with the text /bin/sh.
abbrev shell_path : List ℕ
shell_path = b'/' ∷ b'b' ∷ b'i' ∷ b'n' ∷ b'/' ∷ b's' ∷ b'h' ∷ 0 ∷ []

abbrev kernel : Kernel
kernel = record {
  info = clear_info;
  table = caller_table;
  fds = record {
    initialized = true;
    open_attempts = 1;
    successful_opens = 1;
    failed_opens = 0;
    read_attempts = 0;
    successful_reads = 0;
    failed_reads = 0;
    close_attempts = 0;
    successful_closes = 0;
    failed_closes = 0;
    last_status = ok;
    last_fd = 3;
    last_path = replicate 128 0;
  };
  vfs = shell_vfs;
  images = record {
    resolve_attempts = 0;
    resolve_failures = 0;
    last_status = ok;
    last_path = replicate 64 0;
  };
  execs = record {
    spawn_attempts = 0;
    successful_spawns = 0;
    failed_spawns = 0;
    last_status = ok;
    last_pid = 0;
    last_path = replicate 64 0;
  };
  memory = λ x. if leb 0x10000000 x then get_or shell_path (x - 0x10000000) 0 else 7;
  copy_buffer = replicate 512 0;
  screen = [];
  ticks = 40;
}

read_three : let r = dispatch kernel 7 3 0x10001000 9 in (r.0 ≡ 3) × (r.1.memory 0x10001002 ≡ 67)
unfolding dispatch user_buffer_is_valid read_node
read_three = (refl, refl)

read_refused : (dispatch kernel 7 3 0x10001FF8 9).0 ≡ 0xFFFFFFF8
unfolding dispatch user_buffer_is_valid
read_refused = refl

exec_shell :
    let r = dispatch kernel 12 0x10000000 0 0 in
    (r.0 ≡ 2) × ((slot_at r.1.table 1).name ≡ b's' ∷ b'h' ∷ replicate 30 0)
unfolding dispatch user_buffer_is_valid registered_images string_equals lookup walk find_child
    string_length string_copy
exec_shell = (refl, refl)

dispatch-confined_example :
    (dispatch kernel 7 3 0x10001000 9).1.memory 0xB8000 ≡ kernel.memory 0xB8000
dispatch-confined_example =
    dispatch-confined kernel 7 3 0x10001000 9 0xB8000 (omega arith) (inl (omega arith))

-- The kernel with a second process, which is ready.
abbrev two_processes : Kernel
two_processes = record kernel {
  table = record caller_table {
    slots = caller ∷ record blank_process { pid = 9; state = ready } ∷ replicate 14 blank_process;
  };
}
