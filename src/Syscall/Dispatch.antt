-- ===== src/Syscall/Dispatch.antt =====
-- The single calls of core/kernel/core/syscall.c, and their dispatch.
use liam_os.Base.{
  List, Option, Status, [], add32, drop, if◌then◌else◌, inc32, invalid_argument, invalid_state,
  is_success, length, ltb, min, none, not, permission_denied, replicate, some, suc, unsupported,
  zero, ℕ, ◌%◌, ◌++◌, ◌+◌, ◌-◌, ◌/◌, ◌==◌, ◌||◌, ◌∷◌,
}
use liam_os.Vfs.{NodeType, Vfs, device, directory, file, path_max}
use liam_os.Vfs.Files.{Stat, stat_path}
use liam_os.Process.{Table, argument_line_max, argument_max, slot_at}
use liam_os.Process.Calls.{set_files}
use liam_os.Process.Lifecycle.{current_pid, mark_exit}
use liam_os.Process.Arguments.{get_current_argc, get_current_argument}
use liam_os.Fd.{FileSlot, World, close_current, open_current, read_current}
use liam_os.Exec.{ExecState, exec_create}
use liam_os.Syscall.{
  Kernel, SyscallInfo, copy_chunk_max, copy_from_user, copy_to_user, copy_user_string, exec_state,
  status_code, user_buffer_is_valid, world_of, write_max_bytes,
}

abbrev pub files_back : Table → Option (List FileSlot) → Table
files_back t none = t
files_back t (some files) = set_files t files

-- The state after a call of fd_table.c.
abbrev pub with_world : Kernel → World → Kernel
with_world k w = record k { fds = w.fds; vfs = w.vfs; table = files_back k.table w.files }

-- `syscall_initialize`
abbrev pub clear_info : SyscallInfo
clear_info = record {
  total_calls = 0;
  last_number = 0;
  last_arg1 = 0;
  last_arg2 = 0;
  last_arg3 = 0;
  unsupported_calls = 0;
}

-- A round of `syscall_write`, with what the copy gave.
abbrev pub print_chunk : Kernel → List ℕ → Kernel
print_chunk k bytes = record k {
  copy_buffer = bytes ++ drop (length bytes) k.copy_buffer;
  screen = k.screen ++ bytes;
}

-- The loop of `syscall_write` when `total` bytes are written, on fuel.
unfoldable pub write_chunks : ℕ → Kernel → ℕ → ℕ → ℕ → ℕ × Kernel
unfolding copy_from_user
write_chunks zero k buffer length total = (total, k)
write_chunks (suc fuel) k buffer length total =
    let chunk = min (length - total) copy_chunk_max in
    let (status, bytes) = copy_from_user k.memory (add32 buffer total) chunk in
    let later = write_chunks fuel (print_chunk k bytes) buffer length (total + chunk) in
    if not (ltb total length)
    then (total, k)
    else if not (is_success status)
    then (status_code status, k)
    else later

-- The rounds of the loop: 8 chunks of 512 bytes and the end.
abbrev pub write_rounds : ℕ
write_rounds = 9

-- `syscall_write`
unfoldable pub write : Kernel → ℕ → ℕ → ℕ × Kernel
unfolding write_chunks
write k buffer length =
    if (buffer == 0) || (length == 0)
    then (0, k)
    else write_chunks write_rounds k buffer (min length write_max_bytes) 0

abbrev pub descriptor_opened : Kernel → Status × Option ℕ × World → ℕ × Kernel
descriptor_opened k (s, none, w) = (status_code s, with_world k w)
descriptor_opened k (s, some fd, w) = (if is_success s then fd else status_code s, with_world k w)

-- `syscall_open`
unfoldable pub open_path : Kernel → ℕ → ℕ → ℕ × Kernel
unfolding copy_user_string open_current
open_path k path flags =
    let (status, text) = copy_user_string k.memory path path_max in
    if not (is_success status)
    then (status_code status, k)
    else descriptor_opened k (open_current (world_of k) (some text) flags)

-- `syscall_read` behind the read of the file.
abbrev pub result_copied : Kernel → ℕ → Status × (ℕ → ℕ) → ℕ × Kernel
result_copied k result (s, memory) =
    if is_success s then (result, record k { memory = memory }) else (status_code s, k)

abbrev pub read_copied : Kernel → ℕ → Status × (ℕ × List ℕ) × World → ℕ × Kernel
read_copied k buffer (s, (count, bytes), w) =
    let r : Kernel = record (with_world k w) { copy_buffer = bytes } in
    if not (is_success s)
    then (status_code s, r)
    else result_copied r count (copy_to_user r.memory buffer bytes count)

-- `syscall_read`
unfoldable pub read_descriptor : Kernel → ℕ → ℕ → ℕ → ℕ × Kernel
unfolding copy_to_user read_current
read_descriptor k fd buffer length =
    let n = min length copy_chunk_max in
    if length == 0
    then (0, k)
    else if not (user_buffer_is_valid buffer n)
    then (status_code permission_denied, k)
    else read_copied k buffer (read_current (world_of k) fd (some k.copy_buffer) n)

abbrev pub closed_as : Kernel → Status × World → ℕ × Kernel
closed_as k (s, w) = (status_code s, with_world k w)

-- `syscall_close`
unfoldable pub close_file : Kernel → ℕ → ℕ × Kernel
unfolding close_current
close_file k fd = closed_as k (close_current (world_of k) fd)

-- The bytes of a `vfs_stat_t`, five words of 4 bytes.
abbrev pub word_bytes : ℕ → List ℕ
word_bytes w = w % 256 ∷ w / 256 % 256 ∷ w / 65536 % 256 ∷ w / 16777216 % 256 ∷ []

abbrev pub type_code : NodeType → ℕ
type_code directory = 1
type_code file = 2
type_code device = 3

abbrev pub stat_bytes : Stat → List ℕ
stat_bytes s =
    word_bytes (type_code s.type)
    ++ (word_bytes s.size
        ++ (word_bytes s.mode ++ (word_bytes s.flags ++ word_bytes s.child_count)))

abbrev pub copied_status : Kernel → Status × (ℕ → ℕ) → ℕ × Kernel
copied_status k (s, memory) = (status_code s, record k { memory = memory })

abbrev pub stat_done : Kernel → ℕ → Status × Option Stat × Vfs → ℕ × Kernel
stat_done k out (s, none, v) = (status_code s, record k { vfs = v })
stat_done k out (s, some r, v) =
    if not (is_success s)
    then (status_code s, record k { vfs = v })
    else copied_status (record k { vfs = v }) (copy_to_user k.memory out (stat_bytes r) 20)

-- `syscall_stat`
unfoldable pub stat_file : Kernel → ℕ → ℕ → ℕ × Kernel
unfolding copy_user_string copy_to_user stat_path
stat_file k path out =
    let (status, text) = copy_user_string k.memory path path_max in
    if not (is_success status)
    then (status_code status, k)
    else stat_done k out (stat_path k.vfs (some text))

abbrev pub argument_done : Kernel → ℕ → ℕ → Status × List ℕ × ℕ → ℕ × Kernel
argument_done k buffer length (s, bytes, count) =
    if not (is_success s)
    then (status_code s, k)
    else if ltb length (add32 count 1)
    then (status_code unsupported, k)
    else result_copied k count (copy_to_user k.memory buffer bytes (add32 count 1))

-- `syscall_get_arg`
unfoldable pub get_arg : Kernel → ℕ → ℕ → ℕ → ℕ × Kernel
unfolding copy_to_user get_current_argument
get_arg k index buffer length =
    if length == 0
    then (status_code invalid_argument, k)
    else argument_done k buffer length
        (get_current_argument k.table index (some (replicate argument_max 0)) argument_max)

-- The state after `exec_create_with_args`.
abbrev pub with_exec : Kernel → ExecState → Kernel
with_exec k w = record k { table = w.table; vfs = w.vfs; images = w.images; execs = w.execs }

abbrev pub exec_done : Kernel → Status × Option ℕ × ExecState → ℕ × Kernel
exec_done k (s, none, w) =
    (if is_success s then status_code invalid_state else status_code s, with_exec k w)
exec_done k (s, some i, w) =
    (if is_success s then (slot_at w.table i).pid else status_code s, with_exec k w)

-- `syscall_exec`
unfoldable pub exec : Kernel → ℕ → ℕ → ℕ × Kernel
unfolding copy_user_string exec_create
exec k path arguments =
    let (status, text) = copy_user_string k.memory path path_max in
    let (status', line) = copy_user_string k.memory arguments argument_line_max in
    if not (is_success status)
    then (status_code status, k)
    else if arguments == 0
    then exec_done k (exec_create (exec_state k) text none)
    else if not (is_success status')
    then (status_code status', k)
    else exec_done k (exec_create (exec_state k) text (some line))

-- The `default` of the `switch`
abbrev pub unserved : Kernel → ℕ × Kernel
unserved k = (
  status_code unsupported,
  record k { info = record (k.info) { unsupported_calls = inc32 k.info.unsupported_calls } },
)

-- The `switch` of `syscall_dispatch`
unfoldable pub serve_call : Kernel → ℕ → ℕ → ℕ → ℕ → ℕ × Kernel
unfolding write open_path read_descriptor close_file stat_file get_arg exec mark_exit
    get_current_argc
serve_call k number arg1 arg2 arg3 =
    if number == 1
    then (0, record k { table = mark_exit k.table arg1 })
    else if number == 2
    then write k arg1 arg2
    else if number == 3
    then (k.ticks, k)
    else if number == 4
    then (0, k)
    else if number == 5
    then (current_pid k.table, k)
    else if number == 6
    then open_path k arg1 arg2
    else if number == 7
    then read_descriptor k arg1 arg2 arg3
    else if number == 8
    then close_file k arg1
    else if number == 9
    then stat_file k arg1 arg2
    else if number == 10
    then (get_current_argc k.table, k)
    else if number == 11
    then get_arg k arg1 arg2 arg3
    else if number == 12
    then exec k arg1 arg2
    else unserved k

-- What `syscall_dispatch` notes first.
abbrev pub entered : Kernel → ℕ → ℕ → ℕ → ℕ → Kernel
entered k number arg1 arg2 arg3 = record k {
  info = record (k.info) {
    total_calls = inc32 k.info.total_calls;
    last_number = number;
    last_arg1 = arg1;
    last_arg2 = arg2;
    last_arg3 = arg3;
  };
}

-- `syscall_dispatch`: the value returned and the state.
unfoldable pub dispatch : Kernel → ℕ → ℕ → ℕ → ℕ → ℕ × Kernel
unfolding serve_call
dispatch k number arg1 arg2 arg3 =
    serve_call (entered k number arg1 arg2 arg3) number arg1 arg2 arg3
