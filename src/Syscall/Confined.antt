-- ===== src/Syscall/Confined.antt =====
-- What the system calls of core/kernel/core/syscall.c may write: the two pages of the program.
use liam_os.Base.{
  List, Option, Status, add32, ap, if_cases, is_success, ltb, min, none, not, refl, replicate, some,
  suc, zero, ℕ, ◌+◌, ◌-◌, ◌<◌, ◌==◌, ◌^◌, ◌||◌, ◌≡◌,
}
use liam_os.Vfs.{Vfs, path_max}
use liam_os.Vfs.Files.{Stat, stat_path}
use liam_os.Process.{argument_line_max, argument_max}
use liam_os.Process.Arguments.{get_current_argument}
use liam_os.Fd.{World, close_current, open_current, read_current}
use liam_os.Exec.{ExecState, exec_create}
use liam_os.Syscall.{
  Kernel, copy_chunk_max, copy_from_user, copy_to_user, copy_user_string, exec_state,
  user_buffer_is_valid, world_of, write_max_bytes,
}
use liam_os.Syscall.Copying.{IsForeign, copy_to_user-foreign}
use liam_os.Syscall.Cases.{serve_call-cases}
use liam_os.Syscall.Dispatch.{
  argument_done, close_file, closed_as, copied_status, descriptor_opened, dispatch, entered, exec,
  exec_done, get_arg, open_path, print_chunk, read_copied, read_descriptor, result_copied,
  stat_bytes, stat_done, stat_file, with_world, write, write_chunks, write_rounds,
}

-- The call kept the byte at `x`.
abbrev Keeps : Kernel → ℕ → ℕ × Kernel → Type 0
Keeps k x r = r.1.memory x ≡ k.memory x

write_chunks-memory :
    (fuel : ℕ) (k : Kernel) (buffer len total x : ℕ)
    → Keeps k x (write_chunks fuel k buffer len total)
unfolding write_chunks
write_chunks-memory zero k buffer len total x = refl
write_chunks-memory (suc fuel) k buffer len total x =
    let chunk = min (len - total) copy_chunk_max in
    let (status, bytes) = copy_from_user k.memory (add32 buffer total) chunk in
    if_cases (Keeps k x) (not (ltb total len)) (λ _. refl)
      (λ _.
        if_cases (Keeps k x) (not (is_success status)) (λ _. refl)
          (λ _. write_chunks-memory fuel (print_chunk k bytes) buffer len (total + chunk) x))

write-memory : (k : Kernel) (buffer len x : ℕ) → Keeps k x (write k buffer len)
unfolding write
write-memory k buffer len x =
    if_cases (Keeps k x) ((buffer == 0) || (len == 0)) (λ _. refl)
      (λ _. write_chunks-memory write_rounds k buffer (min len write_max_bytes) 0 x)

descriptor_opened-memory :
    (k : Kernel) (r : Status × Option ℕ × World) (x : ℕ) → Keeps k x (descriptor_opened k r)
descriptor_opened-memory k (s, none, w) x = refl
descriptor_opened-memory k (s, some fd, w) x = refl

open_path-memory : (k : Kernel) (path flags x : ℕ) → Keeps k x (open_path k path flags)
unfolding open_path
open_path-memory k path flags x =
    let (status, text) = copy_user_string k.memory path path_max in
    if_cases (Keeps k x) (not (is_success status)) (λ _. refl)
      (λ _. descriptor_opened-memory k (open_current (world_of k) (some text) flags) x)

closed_as-memory : (k : Kernel) (r : Status × World) (x : ℕ) → Keeps k x (closed_as k r)
closed_as-memory k (s, w) x = refl

close_file-memory : (k : Kernel) (fd x : ℕ) → Keeps k x (close_file k fd)
unfolding close_file
close_file-memory k fd x = closed_as-memory k (close_current (world_of k) fd) x

exec_done-memory :
    (k : Kernel) (r : Status × Option ℕ × ExecState) (x : ℕ) → Keeps k x (exec_done k r)
exec_done-memory k (s, none, w) x = refl
exec_done-memory k (s, some i, w) x = refl

exec-memory : (k : Kernel) (path arguments x : ℕ) → Keeps k x (exec k path arguments)
unfolding exec
exec-memory k path arguments x =
    let (status, text) = copy_user_string k.memory path path_max in
    let (status', line) = copy_user_string k.memory arguments argument_line_max in
    if_cases (Keeps k x) (not (is_success status)) (λ _. refl)
      (λ _.
        if_cases (Keeps k x) (arguments == 0)
          (λ _. exec_done-memory k (exec_create (exec_state k) text none) x)
          (λ _.
            if_cases (Keeps k x) (not (is_success status')) (λ _. refl)
              (λ _. exec_done-memory k (exec_create (exec_state k) text (some line)) x)))

result_copied-Keeps :
    (k k' : Kernel) (n x : ℕ) (r : Status × (ℕ → ℕ))
    → k'.memory ≡ k.memory
    → r.1 x ≡ k.memory x
    → Keeps k x (result_copied k' n r)
result_copied-Keeps k k' n x (s, memory) same h =
    if_cases (Keeps k x) (is_success s) (λ _. h) (λ _. ap (λ m. m x) same)

read_copied-foreign :
    (k : Kernel) (buffer x : ℕ) (r : Status × (ℕ × List ℕ) × World)
    → buffer < 2 ^ 32
    → IsForeign x
    → Keeps k x (read_copied k buffer r)
read_copied-foreign k buffer x (s, (n, bytes), w) small out =
    if_cases (Keeps k x) (not (is_success s)) (λ _. refl)
      (λ _.
        result_copied-Keeps k (record (with_world k w) { copy_buffer = bytes }) n x
          (copy_to_user k.memory buffer bytes n) refl
          (copy_to_user-foreign k.memory buffer bytes n x small out))

read_descriptor-foreign :
    (k : Kernel) (fd buffer len x : ℕ)
    → buffer < 2 ^ 32
    → IsForeign x
    → Keeps k x (read_descriptor k fd buffer len)
unfolding read_descriptor
read_descriptor-foreign k fd buffer len x small out =
    let n = min len copy_chunk_max in
    if_cases (Keeps k x) (len == 0) (λ _. refl)
      (λ _.
        if_cases (Keeps k x) (not (user_buffer_is_valid buffer n)) (λ _. refl)
          (λ _.
            read_copied-foreign k buffer x (read_current (world_of k) fd (some k.copy_buffer) n)
              small out))

copied_status-Keeps :
    (k k' : Kernel) (x : ℕ) (r : Status × (ℕ → ℕ))
    → r.1 x ≡ k.memory x
    → Keeps k x (copied_status k' r)
copied_status-Keeps k k' x (s, memory) h = h

stat_done-foreign :
    (k : Kernel) (out_stat x : ℕ) (r : Status × Option Stat × Vfs)
    → out_stat < 2 ^ 32
    → IsForeign x
    → Keeps k x (stat_done k out_stat r)
stat_done-foreign k out_stat x (s, none, v) small out = refl
stat_done-foreign k out_stat x (s, some r, v) small out =
    if_cases (Keeps k x) (not (is_success s)) (λ _. refl)
      (λ _.
        copied_status-Keeps k (record k { vfs = v }) x
          (copy_to_user k.memory out_stat (stat_bytes r) 20)
          (copy_to_user-foreign k.memory out_stat (stat_bytes r) 20 x small out))

stat_file-foreign :
    (k : Kernel) (path out_stat x : ℕ)
    → out_stat < 2 ^ 32
    → IsForeign x
    → Keeps k x (stat_file k path out_stat)
unfolding stat_file
stat_file-foreign k path out_stat x small out =
    let (status, text) = copy_user_string k.memory path path_max in
    if_cases (Keeps k x) (not (is_success status)) (λ _. refl)
      (λ _. stat_done-foreign k out_stat x (stat_path k.vfs (some text)) small out)

argument_done-foreign :
    (k : Kernel) (buffer len x : ℕ) (r : Status × List ℕ × ℕ)
    → buffer < 2 ^ 32
    → IsForeign x
    → Keeps k x (argument_done k buffer len r)
argument_done-foreign k buffer len x (s, bytes, n) small out =
    if_cases (Keeps k x) (not (is_success s)) (λ _. refl)
      (λ _.
        if_cases (Keeps k x) (ltb len (add32 n 1)) (λ _. refl)
          (λ _.
            result_copied-Keeps k k n x (copy_to_user k.memory buffer bytes (add32 n 1)) refl
              (copy_to_user-foreign k.memory buffer bytes (add32 n 1) x small out)))

get_arg-foreign :
    (k : Kernel) (index buffer len x : ℕ)
    → buffer < 2 ^ 32
    → IsForeign x
    → Keeps k x (get_arg k index buffer len)
unfolding get_arg
get_arg-foreign k index buffer len x small out =
    if_cases (Keeps k x) (len == 0) (λ _. refl)
      (λ _.
        argument_done-foreign k buffer len x
          (get_current_argument k.table index (some (replicate argument_max 0)) argument_max) small
          out)

-- Whatever its number and its arguments, a system call keeps every byte outside the code page and
-- the stack page of the program (0x10000000 to 0x10001FFF), where the call's second argument is a
-- uint32_t.
pub dispatch-confined :
    (k : Kernel) (number arg1 arg2 arg3 x : ℕ)
    → arg2 < 2 ^ 32
    → IsForeign x
    → (dispatch k number arg1 arg2 arg3).1.memory x ≡ k.memory x
unfolding dispatch
dispatch-confined k number arg1 arg2 arg3 x small out =
    let e : Kernel = entered k number arg1 arg2 arg3 in
    serve_call-cases (Keeps k x) e number arg1 arg2 arg3 refl (write-memory e arg1 arg2 x) refl refl
      refl (open_path-memory e arg1 arg2 x) (read_descriptor-foreign e arg1 arg2 arg3 x small out)
      (close_file-memory e arg1 x) (stat_file-foreign e arg1 arg2 x small out) refl
      (get_arg-foreign e arg1 arg2 arg3 x small out) (exec-memory e arg1 arg2 x) refl
