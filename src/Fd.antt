-- ===== src/Fd.antt =====
-- core/kernel/core/fd_table.c: the open files of the current process.
-- The record `World` holds `fd_table_info`, the file system, and the file table of the current
-- process (`none` when `process_get_current_mutable()` returns null). `process->files` has 16 slots;
-- slots 0 to 2 are reserved.
pub mod Slots
pub mod Operations
pub mod Reading
pub mod Cat
pub mod Closing
mod Tests
use liam_os.Base.{
  Bool, List, Option, Status, [], add32, drop, false, get_or, if◌then◌else◌, inc32,
  invalid_argument, invalid_state, leb, ltb, none, not, not_initialized, ok, out_of_memory, set,
  some, true, ℕ, ◌+◌, ◌||◌, ◌∷◌,
}
use liam_os.Str.{string_copy}
use liam_os.Vfs.Files.{read_node}
use liam_os.Vfs.{Node, Vfs, info, is_file, lookup, node}

-- `process_file_t`
pub record FileSlot : Type 0 where
  pub used : Bool
  pub node : Option Node
  pub offset : ℕ
  pub flags : ℕ

-- `fd_table_info_t`; `last_fd` is FD_INVALID (2 ^ 32 - 1) for none.
pub record FdInfo : Type 0 where
  pub initialized : Bool
  pub open_attempts : ℕ
  pub successful_opens : ℕ
  pub failed_opens : ℕ
  pub read_attempts : ℕ
  pub successful_reads : ℕ
  pub failed_reads : ℕ
  pub close_attempts : ℕ
  pub successful_closes : ℕ
  pub failed_closes : ℕ
  pub last_status : Status
  pub last_fd : ℕ
  pub last_path : List ℕ

pub record World : Type 0 where
  pub fds : FdInfo
  pub vfs : Vfs
  pub files : Option (List FileSlot)

abbrev pub max_open_files : ℕ
max_open_files = 16

abbrev pub first_process_file : ℕ
first_process_file = 3

abbrev pub fd_invalid : ℕ
fd_invalid = 0xFFFFFFFF

abbrev pub closed : FileSlot
closed = record { used = false; node = none; offset = 0; flags = 0 }

-- `fd_table_initialize_process`: every slot of the table is closed.
unfoldable pub initialize_process : List FileSlot → List FileSlot
initialize_process [] = []
initialize_process (s ∷ slots) = closed ∷ initialize_process slots

-- `fd_table_initialize`
unfoldable pub initialize : FdInfo → FdInfo
initialize i = record {
  initialized = true;
  open_attempts = 0;
  successful_opens = 0;
  failed_opens = 0;
  read_attempts = 0;
  successful_reads = 0;
  failed_reads = 0;
  close_attempts = 0;
  successful_closes = 0;
  failed_closes = 0;
  last_status = ok;
  last_fd = fd_invalid;
  last_path = set i.last_path 0 0;
}

-- The loop of `fd_table_allocate_slot` over the slots from `i` on.
unfoldable pub find_slot : ℕ → List FileSlot → Option ℕ
find_slot i [] = none
find_slot i (s ∷ slots) = let later = find_slot (i + 1) slots in if s.used then later else some i

-- `fd_table_allocate_slot`
unfoldable pub allocate_slot : List FileSlot → Option ℕ
unfolding find_slot
allocate_slot files = find_slot first_process_file (drop first_process_file files)

abbrev pub slot_at : List FileSlot → ℕ → FileSlot
slot_at files fd = get_or files fd closed

-- `fd >= PROCESS_MAX_OPEN_FILES || fd < FD_FIRST_PROCESS_FILE || !process->files[fd].used`
unfoldable pub is_bad_fd : List FileSlot → ℕ → Bool
is_bad_fd files fd =
    leb max_open_files fd || (ltb fd first_process_file || not (slot_at files fd).used)

abbrev pub fail_open : World → Status → Status × Option ℕ × World
fail_open w s = (
  s,
  none,
  record w { fds = record (w.fds) { failed_opens = inc32 w.fds.failed_opens; last_status = s } },
)

-- `fd_table_open_current` once there is a process and the lookup has found a node.
unfoldable pub open_node : World → List FileSlot → Node → ℕ → Status × Option ℕ × World
unfolding allocate_slot
open_node w files n flags =
    if not (is_file (info n).type) then fail_open w invalid_state else elim (allocate_slot files) [
      | none ↦ fail_open w out_of_memory
      | some fd ↦ (
        ok,
        some fd,
        record w {
          files =
              some
                (set files fd (record { used = true; node = some n; offset = 0; flags = flags }));
          fds = record (w.fds) {
            successful_opens = inc32 w.fds.successful_opens;
            last_fd = fd;
            last_status = ok;
          };
        },
      )
    ]

-- Its lookup.
unfoldable pub open_found :
    World → List FileSlot → ℕ → Status × Option Node × Vfs → Status × Option ℕ × World
unfolding open_node
open_found w files flags (s, none, vfs') = fail_open (record w { vfs = vfs' }) s
open_found w files flags (s, some n, vfs') = open_node (record w { vfs = vfs' }) files n flags

-- What `fd_table_open_current` notes before any test.
abbrev pub note_open : FdInfo → Option (List ℕ) → FdInfo
note_open i none = record i {
  open_attempts = inc32 i.open_attempts;
  last_fd = fd_invalid;
  last_path = set i.last_path 0 0;
}
note_open i (some path) = record i {
  open_attempts = inc32 i.open_attempts;
  last_fd = fd_invalid;
  last_path = string_copy i.last_path path 128;
}

-- Its tests for a process and a path.
unfoldable pub open_with :
    World → Option (List FileSlot) → Option (List ℕ) → ℕ → Status × Option ℕ × World
unfolding open_found
open_with w none path flags = fail_open w invalid_argument
open_with w (some files) none flags = fail_open w invalid_argument
open_with w (some files) (some path) flags = open_found w files flags (lookup w.vfs (some path))

-- `fd_table_open_current`: the status, the descriptor and the new state.
unfoldable pub open_current : World → Option (List ℕ) → ℕ → Status × Option ℕ × World
unfolding open_with
open_current w path flags =
    let noted = record w { fds = note_open w.fds path } in
    if not w.fds.initialized
    then fail_open noted not_initialized
    else open_with noted w.files path flags

-- `fd_table_read_current` returns how many bytes it read, and the buffer.
abbrev pub fail_fd_read : World → Status → List ℕ → Status × (ℕ × List ℕ) × World
fail_fd_read w s buffer = (
  s,
  (0, buffer),
  record w { fds = record (w.fds) { failed_reads = inc32 w.fds.failed_reads; last_status = s } },
)

-- Its end: a status other than KERNEL_OK is passed on, and otherwise the offset moves.
unfoldable pub read_done :
    World → List FileSlot → ℕ → Status × (ℕ × List ℕ) × Vfs → Status × (ℕ × List ℕ) × World
read_done w files fd (ok, (count, buffer), vfs') =
    let slot = slot_at files fd in
    (
      ok,
      (count, buffer),
      record w {
        vfs = vfs';
        files = some (set files fd (record slot { offset = add32 slot.offset count }));
        fds = record (w.fds) { successful_reads = inc32 w.fds.successful_reads; last_status = ok };
      },
    )
read_done w files fd (s, (count, buffer), vfs') = (
  s,
  (count, buffer),
  record w {
    vfs = vfs';
    fds = record (w.fds) { failed_reads = inc32 w.fds.failed_reads; last_status = s };
  },
)

-- Its test of the node in the slot.
unfoldable pub read_slot :
    World → List FileSlot → ℕ → Option Node → List ℕ → ℕ → Status × (ℕ × List ℕ) × World
unfolding read_done
read_slot w files fd none buffer len = fail_fd_read w invalid_state buffer
read_slot w files fd (some n) buffer len =
    if not (is_file (info n).type)
    then fail_fd_read w invalid_state buffer
    else read_done w files fd (read_node w.vfs (some n) (slot_at files fd).offset (some buffer) len)

-- Its tests of the process, the buffer and the descriptor.
unfoldable pub read_with :
    World → Option (List FileSlot) → ℕ → Option (List ℕ) → ℕ → Status × (ℕ × List ℕ) × World
unfolding read_slot is_bad_fd
read_with w none fd none len = fail_fd_read w invalid_argument []
read_with w none fd (some buffer) len = fail_fd_read w invalid_argument buffer
read_with w (some files) fd none len = fail_fd_read w invalid_argument []
read_with w (some files) fd (some buffer) len =
    if is_bad_fd files fd
    then fail_fd_read w invalid_argument buffer
    else read_slot w files fd (slot_at files fd).node buffer len

abbrev or_empty : Option (List ℕ) → List ℕ
or_empty none = []
or_empty (some b) = b

-- `fd_table_read_current`
unfoldable pub read_current : World → ℕ → Option (List ℕ) → ℕ → Status × (ℕ × List ℕ) × World
unfolding read_with
read_current w fd buffer len =
    let noted = record w {
      fds = record (w.fds) { read_attempts = inc32 w.fds.read_attempts; last_fd = fd };
    } in
    if not w.fds.initialized
    then fail_fd_read noted not_initialized (or_empty buffer)
    else read_with noted w.files fd buffer len

abbrev pub fail_close : World → Status → Status × World
fail_close w s = (
  s,
  record w { fds = record (w.fds) { failed_closes = inc32 w.fds.failed_closes; last_status = s } },
)

-- `fd_table_close_current`, its test of the process and the descriptor.
unfoldable pub close_with : World → Option (List FileSlot) → ℕ → Status × World
unfolding is_bad_fd
close_with w none fd = fail_close w invalid_argument
close_with w (some files) fd = if is_bad_fd files fd then fail_close w invalid_argument else (
  ok,
  record w {
    files = some (set files fd closed);
    fds = record (w.fds) { successful_closes = inc32 w.fds.successful_closes; last_status = ok };
  },
)

-- `fd_table_close_current`
unfoldable pub close_current : World → ℕ → Status × World
unfolding close_with
close_current w fd =
    let noted = record w {
      fds = record (w.fds) { close_attempts = inc32 w.fds.close_attempts; last_fd = fd };
    } in
    if not w.fds.initialized then fail_close noted not_initialized else close_with noted w.files fd
