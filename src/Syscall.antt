-- ===== src/Syscall.antt =====
-- core/kernel/core/syscall.c: the system calls and their checks of user pointers.
-- Memory is a function of the address. `timer_get_ticks` reads a field, and `vga_write_char` appends
-- to the screen's text.
pub mod Dispatch
pub mod Cases
pub mod Copying
pub mod Writing
pub mod Confined
pub mod Traced
pub mod Isolated
mod Tests
use liam_os.Base.{
  Bool, List, Option, Status, [], add32, already_exists, busy, corruption_detected, false,
  if◌then◌else◌, invalid_argument, invalid_state, leb, length, ltb, none, not, not_found,
  not_initialized, ok, out_of_memory, page_size, permission_denied, some, sub32, suc, timeout, true,
  u32_mod, unknown, unsupported, update, zero, ℕ, ◌%◌, ◌&&◌, ◌==◌, ◌||◌, ◌∷◌,
}
use liam_os.Process.{Table, slot_at}
use liam_os.Fd.{FdInfo, FileSlot, World}
use liam_os.Vfs.{Vfs, info}
use liam_os.Exec.{ExecInfo, ExecState, ImageInfo}

-- `syscall_info_t`
pub record SyscallInfo : Type 0 where
  pub total_calls : ℕ
  pub last_number : ℕ
  pub last_arg1 : ℕ
  pub last_arg2 : ℕ
  pub last_arg3 : ℕ
  pub unsupported_calls : ℕ

-- The state that a system call reaches; `copy_buffer` is `syscall_copy_buffer`.
pub record Kernel : Type 0 where
  pub info : SyscallInfo
  pub table : Table
  pub fds : FdInfo
  pub vfs : Vfs
  pub images : ImageInfo
  pub execs : ExecInfo
  pub memory : ℕ → ℕ
  pub copy_buffer : List ℕ
  pub screen : List ℕ
  pub ticks : ℕ

abbrev pub write_max_bytes : ℕ
write_max_bytes = 4096

abbrev pub copy_chunk_max : ℕ
copy_chunk_max = 512

abbrev pub user_code_page : ℕ
user_code_page = 0x10000000

abbrev pub user_stack_page : ℕ
user_stack_page = 0x10001000

-- A status as the uint32_t that a system call returns.
abbrev pub status_code : Status → ℕ
status_code ok = 0
status_code unknown = 0xFFFFFFFF
status_code invalid_argument = 0xFFFFFFFE
status_code not_found = 0xFFFFFFFD
status_code out_of_memory = 0xFFFFFFFC
status_code already_exists = 0xFFFFFFFB
status_code not_initialized = 0xFFFFFFFA
status_code busy = 0xFFFFFFF9
status_code permission_denied = 0xFFFFFFF8
status_code unsupported = 0xFFFFFFF7
status_code invalid_state = 0xFFFFFFF6
status_code corruption_detected = 0xFFFFFFF5
status_code timeout = 0xFFFFFFF4

-- `syscall_user_range_contains`
unfoldable pub user_range_contains : ℕ → ℕ → ℕ → ℕ → Bool
user_range_contains address length range_start range_length =
    let range_end = sub32 (add32 range_start range_length) 1 in
    let end = sub32 (add32 address length) 1 in
    if length == 0
    then true
    else if ltb end address
    then false
    else leb range_start address && leb end range_end

-- `syscall_user_buffer_is_valid`
unfoldable pub user_buffer_is_valid : ℕ → ℕ → Bool
unfolding user_range_contains
user_buffer_is_valid address length =
    if (address == 0) || (length == 0)
    then false
    else if user_range_contains address length user_code_page page_size
    then true
    else user_range_contains address length user_stack_page page_size

-- The bytes of memory from an address on; a pointer wraps.
abbrev pub bytes_from : ℕ → (ℕ → ℕ) → ℕ → List ℕ
bytes_from zero memory at = []
bytes_from (suc n) memory at = memory at ∷ bytes_from n memory (add32 at 1)

-- `syscall_copy_from_user`: the status and the bytes.
unfoldable pub copy_from_user : (ℕ → ℕ) → ℕ → ℕ → Status × List ℕ
copy_from_user memory source length =
    if length == 0
    then (ok, [])
    else if not (user_buffer_is_valid source length)
    then (permission_denied, [])
    else (ok, bytes_from length memory source)

-- The loop of `syscall_copy_to_user`
unfoldable pub write_bytes : ℕ → (ℕ → ℕ) → ℕ → List ℕ → ℕ → ℕ
write_bytes zero memory at bytes = memory
write_bytes (suc n) memory at [] = memory
write_bytes (suc n) memory at (b ∷ bytes) = write_bytes n (update memory at b) (add32 at 1) bytes

-- `syscall_copy_to_user` of the kernel's bytes; `length` is a uint32_t.
unfoldable pub copy_to_user : (ℕ → ℕ) → ℕ → List ℕ → ℕ → Status × (ℕ → ℕ)
unfolding write_bytes
copy_to_user memory destination bytes length =
    let n = length % u32_mod in
    if n == 0
    then (ok, memory)
    else if not (user_buffer_is_valid destination n)
    then (permission_denied, memory)
    else (ok, write_bytes n memory destination bytes)

-- The loop of `syscall_copy_user_string`, with `n` bytes of room left: the status and the text.
unfoldable pub copy_string_from : ℕ → (ℕ → ℕ) → ℕ → Status × List ℕ
copy_string_from zero memory at = (invalid_argument, [])
copy_string_from (suc n) memory at =
    let (status, text) = copy_string_from n memory (add32 at 1) in
    if not (user_buffer_is_valid at 1)
    then (permission_denied, [])
    else if memory at == 0
    then (ok, 0 ∷ [])
    else (status, memory at ∷ text)

-- `syscall_copy_user_string` into a buffer that is not null
unfoldable pub copy_user_string : (ℕ → ℕ) → ℕ → ℕ → Status × List ℕ
unfolding copy_string_from
copy_user_string memory source max_length =
    if (source == 0) || (max_length == 0)
    then (invalid_argument, [])
    else copy_string_from max_length memory source

-- The files of the current process, for fd_table.c, and back.
abbrev pub files_of : Table → Option ℕ → Option (List FileSlot)
files_of t none = none
files_of t (some i) = some (slot_at t i).files

abbrev pub world_of : Kernel → World
world_of k = record { fds = k.fds; vfs = k.vfs; files = files_of k.table k.table.current }

-- The part of the state that core/kernel/core/exec.c reaches.
abbrev pub exec_state : Kernel → ExecState
exec_state k = record { table = k.table; vfs = k.vfs; images = k.images; execs = k.execs }
