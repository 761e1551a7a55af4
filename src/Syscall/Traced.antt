-- ===== src/Syscall/Traced.antt =====
-- core/kernel/core/syscall.c against the relation `Calls` of Process/Calls.antt: what a system call
-- does to the process table is what that relation allows.
use liam_os.Base.{
  List, Option, Status, add32, if_cases, is_success, ltb, min, none, not, replicate, some, suc,
  zero, ℕ, ◌+◌, ◌-◌, ◌<◌, ◌==◌, ◌^◌, ◌||◌,
}
use liam_os.Process.{Table, argument_line_max, argument_max}
use liam_os.Vfs.{Vfs, path_max}
use liam_os.Vfs.Files.{Stat, stat_path}
use liam_os.Process.Calls.{Calls, exits, set_files, uses_files}
use liam_os.Process.Lifecycle.{mark_exit}
use liam_os.Process.Arguments.{get_current_argument}
use liam_os.Fd.{FileSlot, World, close_current, open_current, read_current}
use liam_os.Exec.{ExecState, exec_create}
use liam_os.Syscall.{
  Kernel, copy_chunk_max, copy_from_user, copy_to_user, copy_user_string, exec_state,
  user_buffer_is_valid, world_of, write_max_bytes,
}
use liam_os.Exec.Traced.{exec_create-Calls}
use liam_os.Syscall.Cases.{serve_call-cases}
use liam_os.Syscall.Dispatch.{
  argument_done, close_file, closed_as, copied_status, descriptor_opened, dispatch, entered, exec,
  exec_done, files_back, get_arg, open_path, print_chunk, read_copied, read_descriptor,
  result_copied, stat_bytes, stat_done, stat_file, with_world, write, write_chunks, write_rounds,
}

-- A property of the process table that a change of the current process's files keeps.
module _ (P : Table → Type 0)
    (on_files : (u : Table) (files : List FileSlot) → P u → P (set_files u files)) where
  -- The files of the current process, as a call of fd_table.c left them.
  files_back-Holds : {u : Table} (files : Option (List FileSlot)) → P u → P (files_back u files)
  files_back-Holds none c = c
  files_back-Holds {u} (some files) c = on_files u files c

  abbrev Leaves : ℕ × Kernel → Type 0
  Leaves r = P r.1.table

  write_chunks-Holds :
      (fuel : ℕ) (k : Kernel) (buffer len total : ℕ)
      → P k.table
      → Leaves (write_chunks fuel k buffer len total)
  unfolding write_chunks
  write_chunks-Holds zero k buffer len total c = c
  write_chunks-Holds (suc fuel) k buffer len total c =
      let chunk = min (len - total) copy_chunk_max in
      let (status, bytes) = copy_from_user k.memory (add32 buffer total) chunk in
      if_cases Leaves (not (ltb total len)) (λ _. c)
        (λ _.
          if_cases Leaves (not (is_success status)) (λ _. c)
            (λ _. write_chunks-Holds fuel (print_chunk k bytes) buffer len (total + chunk) c))

  write-Holds : (k : Kernel) (buffer len : ℕ) → P k.table → Leaves (write k buffer len)
  unfolding write
  write-Holds k buffer len c =
      if_cases Leaves ((buffer == 0) || (len == 0)) (λ _. c)
        (λ _. write_chunks-Holds write_rounds k buffer (min len write_max_bytes) 0 c)

  descriptor_opened-Holds :
      (k : Kernel) (r : Status × Option ℕ × World) → P k.table → Leaves (descriptor_opened k r)
  descriptor_opened-Holds k (s, none, w) c = files_back-Holds w.files c
  descriptor_opened-Holds k (s, some fd, w) c = files_back-Holds w.files c

  open_path-Holds : (k : Kernel) (path flags : ℕ) → P k.table → Leaves (open_path k path flags)
  unfolding open_path
  open_path-Holds k path flags c =
      let (status, text) = copy_user_string k.memory path path_max in
      if_cases Leaves (not (is_success status)) (λ _. c)
        (λ _. descriptor_opened-Holds k (open_current (world_of k) (some text) flags) c)

  result_copied-Holds :
      (k : Kernel) (n : ℕ) (r : Status × (ℕ → ℕ)) → P k.table → Leaves (result_copied k n r)
  result_copied-Holds k n (s, memory) c = if_cases Leaves (is_success s) (λ _. c) (λ _. c)

  read_copied-Holds :
      (k : Kernel) (buffer : ℕ) (r : Status × (ℕ × List ℕ) × World)
      → P k.table
      → Leaves (read_copied k buffer r)
  read_copied-Holds k buffer (s, (n, bytes), w) c =
      let k' : Kernel = record (with_world k w) { copy_buffer = bytes } in
      let c' = files_back-Holds w.files c in
      if_cases Leaves (not (is_success s)) (λ _. c')
        (λ _. result_copied-Holds k' n (copy_to_user k'.memory buffer bytes n) c')

  read_descriptor-Holds :
      (k : Kernel) (fd buffer len : ℕ) → P k.table → Leaves (read_descriptor k fd buffer len)
  unfolding read_descriptor
  read_descriptor-Holds k fd buffer len c =
      let n = min len copy_chunk_max in
      if_cases Leaves (len == 0) (λ _. c)
        (λ _.
          if_cases Leaves (not (user_buffer_is_valid buffer n)) (λ _. c)
            (λ _.
              read_copied-Holds k buffer (read_current (world_of k) fd (some k.copy_buffer) n) c))

  closed_as-Holds : (k : Kernel) (r : Status × World) → P k.table → Leaves (closed_as k r)
  closed_as-Holds k (s, w) c = files_back-Holds w.files c

  close_file-Holds : (k : Kernel) (fd : ℕ) → P k.table → Leaves (close_file k fd)
  unfolding close_file
  close_file-Holds k fd c = closed_as-Holds k (close_current (world_of k) fd) c

  copied_status-Holds : (k : Kernel) (r : Status × (ℕ → ℕ)) → P k.table → Leaves (copied_status k r)
  copied_status-Holds k (s, memory) c = c

  stat_done-Holds :
      (k : Kernel) (out : ℕ) (r : Status × Option Stat × Vfs)
      → P k.table
      → Leaves (stat_done k out r)
  stat_done-Holds k out (s, none, v) c = c
  stat_done-Holds k out (s, some r, v) c =
      if_cases Leaves (not (is_success s)) (λ _. c)
        (λ _.
          copied_status-Holds (record k { vfs = v }) (copy_to_user k.memory out (stat_bytes r) 20)
            c)

  stat_file-Holds : (k : Kernel) (path out : ℕ) → P k.table → Leaves (stat_file k path out)
  unfolding stat_file
  stat_file-Holds k path out c =
      let (status, text) = copy_user_string k.memory path path_max in
      if_cases Leaves (not (is_success status)) (λ _. c)
        (λ _. stat_done-Holds k out (stat_path k.vfs (some text)) c)

  argument_done-Holds :
      (k : Kernel) (buffer len : ℕ) (r : Status × List ℕ × ℕ)
      → P k.table
      → Leaves (argument_done k buffer len r)
  argument_done-Holds k buffer len (s, bytes, n) c =
      if_cases Leaves (not (is_success s)) (λ _. c)
        (λ _.
          if_cases Leaves (ltb len (add32 n 1)) (λ _. c)
            (λ _. result_copied-Holds k n (copy_to_user k.memory buffer bytes (add32 n 1)) c))

  get_arg-Holds :
      (k : Kernel) (index buffer len : ℕ) → P k.table → Leaves (get_arg k index buffer len)
  unfolding get_arg
  get_arg-Holds k index buffer len c =
      if_cases Leaves (len == 0) (λ _. c)
        (λ _.
          argument_done-Holds k buffer len
            (get_current_argument k.table index (some (replicate argument_max 0)) argument_max) c)

  exec_done-Holds :
      (k : Kernel) (r : Status × Option ℕ × ExecState) → P r.2.table → Leaves (exec_done k r)
  exec_done-Holds k (s, none, w) c = c
  exec_done-Holds k (s, some i, w) c = c

  exec-Holds :
      (k : Kernel) (path arguments : ℕ)
      → P k.table
      → ((text : List ℕ) (line : Option (List ℕ))
          → P (exec_create (exec_state k) text line).2.table)
      → Leaves (exec k path arguments)
  unfolding exec
  exec-Holds k path arguments c makes =
      let (status, text) = copy_user_string k.memory path path_max in
      let (status', line) = copy_user_string k.memory arguments argument_line_max in
      if_cases Leaves (not (is_success status)) (λ _. c)
        (λ _.
          if_cases Leaves (arguments == 0)
            (λ _. exec_done-Holds k (exec_create (exec_state k) text none) (makes text none))
            (λ _.
              if_cases Leaves (not (is_success status')) (λ _. c)
                (λ _.
                  exec_done-Holds k (exec_create (exec_state k) text (some line))
                    (makes text (some line)))))

  -- What an exit, the calls on files and the making of a process keep of the table, every system call
  -- keeps.
  pub dispatch-Holds :
      (k : Kernel) (number arg1 arg2 arg3 : ℕ)
      → P k.table
      → P (mark_exit k.table arg1)
      → ((text : List ℕ) (line : Option (List ℕ))
          → P (exec_create (exec_state k) text line).2.table)
      → P (dispatch k number arg1 arg2 arg3).1.table
  unfolding dispatch
  dispatch-Holds k number arg1 arg2 arg3 c leaves makes =
      let e : Kernel = entered k number arg1 arg2 arg3 in
      serve_call-cases Leaves e number arg1 arg2 arg3 leaves (write-Holds e arg1 arg2 c) c c c
        (open_path-Holds e arg1 arg2 c) (read_descriptor-Holds e arg1 arg2 arg3 c)
        (close_file-Holds e arg1 c) (stat_file-Holds e arg1 arg2 c) c
        (get_arg-Holds e arg1 arg2 arg3 c) (exec-Holds e arg1 arg2 c makes) c

-- Whatever its number and its arguments, a system call does to the process table what `Calls`
-- allows: after calls, it is calls again. Pids do not run out.
pub dispatch-Calls :
    {t : Table} (k : Kernel) (number arg1 arg2 arg3 : ℕ)
    → Calls t k.table
    → k.table.next_pid + 1 < 2 ^ 32
    → Calls t (dispatch k number arg1 arg2 arg3).1.table
dispatch-Calls {t} k number arg1 arg2 arg3 c small =
    dispatch-Holds (Calls t) (λ u files c. uses_files files c) k number arg1 arg2 arg3 c
      (exits arg1 c) (λ text line. exec_create-Calls (exec_state k) text line c small)
