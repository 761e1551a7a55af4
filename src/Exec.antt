-- ===== src/Exec.antt =====
-- core/kernel/core/exec.c and core/kernel/core/user_image.c: the registered programs, and making a
-- process of one. `ExecState` holds what these functions reach: the process table, the file system, and
-- the two records of counters.
pub mod Traced
pub mod Resolve
use liam_os.Base.{
  List, Option, Status, [], if◌then◌else◌, inc32, invalid_state, is_success, none, not, not_found,
  ok, some, ℕ, ◌∷◌,
}
use liam_os.Str.{string_copy, string_equals}
use liam_os.Vfs.{Node, Vfs, info, is_file, lookup}
use liam_os.Process.{Table, slot_at}
use liam_os.Process.Lifecycle.{create}
use liam_os.Process.Arguments.{configure_arguments, configure_image_path}

-- `user_image_kind_t`
pub data ImageKind : Type 0 where
  embedded flat_binary elf : ImageKind

-- `registered_user_image_t`
pub record Registered : Type 0 where
  pub path : List ℕ
  pub name : List ℕ
  pub kind : ImageKind

abbrev in_bin : List ℕ → ImageKind → Registered
in_bin name kind = record {
  path = b'/' ∷ b'b' ∷ b'i' ∷ b'n' ∷ b'/' ∷ name;
  name = name;
  kind = kind;
}

abbrev in_sbin : List ℕ → ImageKind → Registered
in_sbin name kind = record {
  path = b'/' ∷ b's' ∷ b'b' ∷ b'i' ∷ b'n' ∷ b'/' ∷ name;
  name = name;
  kind = kind;
}

-- `registered_images`
unfoldable pub registered_images : List Registered
registered_images =
    in_sbin (b'i' ∷ b'n' ∷ b'i' ∷ b't' ∷ []) flat_binary
    ∷ in_bin (b'h' ∷ b'e' ∷ b'l' ∷ b'l' ∷ b'o' ∷ []) flat_binary
    ∷ in_bin (b'h' ∷ b'e' ∷ b'l' ∷ b'l' ∷ b'o' ∷ b'-' ∷ b'e' ∷ b'l' ∷ b'f' ∷ []) elf
    ∷ in_bin (b's' ∷ b'y' ∷ b's' ∷ b'c' ∷ b'h' ∷ b'e' ∷ b'c' ∷ b'k' ∷ []) flat_binary
    ∷ in_bin (b's' ∷ b'y' ∷ b's' ∷ b'b' ∷ b'a' ∷ b'd' ∷ b'p' ∷ b't' ∷ b'r' ∷ []) flat_binary
    ∷ in_bin (b'p' ∷ b'i' ∷ b'd' ∷ []) flat_binary
    ∷ in_bin (b't' ∷ b'i' ∷ b'c' ∷ b'k' ∷ b's' ∷ []) flat_binary
    ∷ in_bin (b'a' ∷ b'b' ∷ b'o' ∷ b'u' ∷ b't' ∷ []) flat_binary
    ∷ in_bin (b'o' ∷ b's' ∷ b'-' ∷ b'r' ∷ b'e' ∷ b'l' ∷ b'e' ∷ b'a' ∷ b's' ∷ b'e' ∷ []) flat_binary
    ∷ in_bin (b'c' ∷ b'a' ∷ b't' ∷ []) flat_binary
    ∷ in_bin (b'c' ∷ b'l' ∷ b'e' ∷ b'a' ∷ b'r' ∷ []) flat_binary
    ∷ in_bin (b'h' ∷ b'e' ∷ b'l' ∷ b'p' ∷ []) flat_binary
    ∷ in_bin (b'u' ∷ b'p' ∷ b't' ∷ b'i' ∷ b'm' ∷ b'e' ∷ []) flat_binary
    ∷ in_bin (b'a' ∷ b'r' ∷ b'g' ∷ b's' ∷ []) flat_binary
    ∷ in_bin (b'e' ∷ b'c' ∷ b'h' ∷ b'o' ∷ []) flat_binary
    ∷ in_bin (b's' ∷ b'h' ∷ []) flat_binary
    ∷ []

-- `user_image_info_t`, without the two fields that only initialization sets
pub record ImageInfo : Type 0 where
  pub resolve_attempts : ℕ
  pub resolve_failures : ℕ
  pub last_status : Status
  pub last_path : List ℕ

-- `exec_info_t`, without `initialized`, which only initialization sets; `last_pid` is 0 for none.
pub record ExecInfo : Type 0 where
  pub spawn_attempts : ℕ
  pub successful_spawns : ℕ
  pub failed_spawns : ℕ
  pub last_status : Status
  pub last_pid : ℕ
  pub last_path : List ℕ

pub record ExecState : Type 0 where
  pub table : Table
  pub vfs : Vfs
  pub images : ImageInfo
  pub execs : ExecInfo

-- `user_image_t`
pub record UserImage : Type 0 where
  pub path : List ℕ
  pub name : List ℕ
  pub kind : ImageKind
  pub entry : ℕ
  pub user_stack_top : ℕ
  pub image_size : ℕ
  pub flags : ℕ

-- `user_image_resolve_registered_node` behind the lookup
abbrev pub node_found : Status × Option Node × Vfs → Status × Option Node × Vfs
node_found (s, none, v) = (if is_success s then invalid_state else s, none, v)
node_found (s, some n, v) =
    if not (is_success s)
    then (s, none, v)
    else if not (is_file (info n).type)
    then (invalid_state, none, v)
    else (ok, some n, v)

-- `user_image_resolve_registered_node`
unfoldable pub resolve_registered_node : Vfs → Registered → Status × Option Node × Vfs
resolve_registered_node v r = node_found (lookup v (some r.path))

-- The end of `user_image_lookup` with a failure.
abbrev fail_lookup : ExecState → Status → Status × Option UserImage × ExecState
fail_lookup w s = (
  s,
  none,
  record w {
    images = record (w.images) {
      resolve_failures = inc32 w.images.resolve_failures;
      last_status = s;
    };
  },
)

-- `user_image_lookup` at a registration that has the path.
abbrev pub image_found :
    ExecState → Registered → Status × Option Node × Vfs → Status × Option UserImage × ExecState
image_found w r (s, none, v) = fail_lookup (record w { vfs = v }) s
image_found w r (s, some n, v) = (
  ok,
  some (record {
    path = r.path;
    name = r.name;
    kind = r.kind;
    entry = 0x10000000;
    user_stack_top = 0x10001000;
    image_size = (info n).size;
    flags = 0;
  }),
  record w { vfs = v; images = record (w.images) { last_status = ok } },
)

-- The loop of `user_image_lookup`
unfoldable pub lookup_among :
    List Registered → ExecState → List ℕ → Status × Option UserImage × ExecState
unfolding resolve_registered_node
lookup_among [] w path = fail_lookup w not_found
lookup_among (r ∷ rs) w path =
    let later = lookup_among rs w path in
    if not (string_equals path r.path)
    then later
    else image_found w r (resolve_registered_node w.vfs r)

abbrev pub last_path_max : ℕ
last_path_max = 64

-- What `user_image_lookup` notes first.
abbrev pub noted_lookup : ExecState → List ℕ → ExecState
noted_lookup w path = record w {
  images = record (w.images) {
    resolve_attempts = inc32 w.images.resolve_attempts;
    last_path = string_copy w.images.last_path path last_path_max;
  };
}

-- `user_image_lookup` of a path that is not null
unfoldable pub lookup_image : ExecState → List ℕ → Status × Option UserImage × ExecState
unfolding lookup_among
lookup_image w path = lookup_among registered_images (noted_lookup w path) path

-- The end of `exec_create_with_args` with a failure.
abbrev fail_exec : ExecState → Status → ℕ → ExecState
fail_exec w s pid = record w {
  execs = record (w.execs) {
    failed_spawns = inc32 w.execs.failed_spawns;
    last_status = s;
    last_pid = pid;
  };
}

-- `exec_create_with_args` behind `process_configure_arguments`, for the process in slot `i`
abbrev pub arguments_done : ExecState → ℕ → Status × Table → Status × Option ℕ × ExecState
arguments_done w i (s, t) =
    let u : ExecState = record w { table = t } in
    if not (is_success s) then (s, some i, fail_exec u s (slot_at t i).pid) else (
      ok,
      some i,
      record u {
        execs = record (w.execs) {
          successful_spawns = inc32 w.execs.successful_spawns;
          last_status = ok;
          last_pid = (slot_at t i).pid;
        };
      },
    )

-- `exec_create_with_args` behind `process_configure_image_path`
abbrev pub path_done :
    ExecState → ℕ → Option (List ℕ) → Status × Table → Status × Option ℕ × ExecState
path_done w i arguments (s, t) =
    if not (is_success s)
    then (s, some i, fail_exec (record w { table = t }) s (slot_at t i).pid)
    else arguments_done w i (configure_arguments t (some i) arguments)

-- `exec_create_with_args` behind `process_create`, which gives a process exactly when it succeeds
abbrev pub process_created :
    ExecState → List ℕ → Option (List ℕ) → Status × Option ℕ × Table → Status × Option ℕ × ExecState
process_created w path arguments (s, none, t) = (s, none, fail_exec (record w { table = t }) s 0)
process_created w path arguments (s, some i, t) =
    if not (is_success s)
    then (s, none, fail_exec (record w { table = t }) s 0)
    else path_done w i arguments (configure_image_path t (some i) (some path))

-- `exec_create_with_args` behind `user_image_lookup`
abbrev pub image_done :
    List ℕ → Option (List ℕ) → Status × Option UserImage × ExecState → Status × Option ℕ × ExecState
image_done path arguments (s, none, w) = (s, none, fail_exec w s 0)
image_done path arguments (s, some m, w) =
    process_created w path arguments (create w.table (some m.name) m.entry m.user_stack_top)

-- What `exec_create_with_args` notes first.
abbrev pub noted_exec : ExecState → List ℕ → ExecState
noted_exec w path = record w {
  execs = record (w.execs) {
    spawn_attempts = inc32 w.execs.spawn_attempts;
    last_path = string_copy w.execs.last_path path last_path_max;
  };
}

-- `exec_create_with_args` with a path and a place for the result: the status, the slot of the new
-- process and the state.
unfoldable pub exec_create : ExecState → List ℕ → Option (List ℕ) → Status × Option ℕ × ExecState
unfolding lookup_image create configure_image_path configure_arguments
exec_create w path arguments = image_done path arguments (lookup_image (noted_exec w path) path)
