-- ===== src/Process/Arguments.antt =====
-- The arguments of a process in core/kernel/core/process.c.
use liam_os.Base.{
  List, Option, Status, [], add32, drop, get_or, if◌then◌else◌, invalid_argument, leb, ltb, none,
  not_found, ok, set, some, suc, unsupported, zero, ℕ, ◌==◌,
}
use liam_os.Str.{first, string_copy, string_copy_until_space, string_length, string_trim_left}
use liam_os.Process.Lifecycle.{name_argument}
use liam_os.Process.{
  Process, Table, argument_line_max, argument_max, clear_arguments, image_path_max, slot_at,
}

abbrev pub max_arguments : ℕ
max_arguments = 8

-- `process_configure_image_path`; a null pointer is `none`.
unfoldable pub configure_image_path : Table → Option ℕ → Option (List ℕ) → Status × Table
configure_image_path t none path = (invalid_argument, t)
configure_image_path t (some i) none = (invalid_argument, t)
configure_image_path t (some i) (some path) =
    let p = slot_at t i in
    let q = record p { image_path = string_copy p.image_path path image_path_max } in
    (ok, record t { slots = set t.slots i q })

-- The loop of `process_configure_arguments`, with room for `n` more arguments.
unfoldable pub split_arguments : ℕ → List ℕ → ℕ → List (List ℕ) → ℕ × List (List ℕ)
split_arguments zero cursor argc argv = (argc, argv)
split_arguments (suc n) cursor argc argv =
    let (argument, copied) = string_copy_until_space (get_or argv argc []) cursor argument_max in
    let argv' = set argv argc argument in
    let later = split_arguments n (string_trim_left (drop copied cursor)) (suc argc) argv' in
    if first cursor == 0 then (argc, argv) else if copied == 0 then (argc, argv') else later

-- `process_configure_arguments` for arguments that are not blank
unfoldable pub set_arguments : Process → List ℕ → Process
unfolding split_arguments
set_arguments p cursor =
    let line = string_copy p.arguments cursor argument_line_max in
    let (argc', argv') = split_arguments 7 (string_trim_left line) 1 p.argv in
    record p { arguments = line; argc = argc'; argv = argv' }

-- `process_configure_arguments` for a process that is not null
unfoldable pub configured : Process → Option (List ℕ) → Process
unfolding set_arguments
configured p none = name_argument (clear_arguments p)
configured p (some arguments) =
    let cursor = string_trim_left arguments in
    let q = name_argument (clear_arguments p) in
    if first cursor == 0 then q else set_arguments q cursor

-- `process_configure_arguments`
unfoldable pub configure_arguments : Table → Option ℕ → Option (List ℕ) → Status × Table
unfolding configured
configure_arguments t none arguments = (invalid_argument, t)
configure_arguments t (some i) arguments =
    (ok, record t { slots = set t.slots i (configured (slot_at t i) arguments) })

-- `process_get_current_argc`
unfoldable pub get_current_argc : Table → ℕ
get_current_argc t = elim t.current [ none ↦ 0 | some i ↦ (slot_at t i).argc ]

-- `process_get_current_argument` for the current process and a buffer
unfoldable pub argument_of : Process → ℕ → List ℕ → ℕ → Status × List ℕ × ℕ
argument_of p index buffer len =
    let argument = get_or p.argv index [] in
    if leb p.argc index
    then (not_found, buffer, 0)
    else if ltb len (add32 (string_length argument) 1)
    then (unsupported, buffer, 0)
    else (ok, string_copy buffer argument len, string_length argument)

-- `process_get_current_argument`: the status, the buffer and, on success, the argument's length.
unfoldable pub get_current_argument : Table → ℕ → Option (List ℕ) → ℕ → Status × List ℕ × ℕ
unfolding argument_of
get_current_argument t index none len = (invalid_argument, [], 0)
get_current_argument t index (some buffer) len = elim t.current [
  | none ↦ (invalid_argument, buffer, 0)
  | some i ↦
      if len == 0 then (invalid_argument, buffer, 0) else argument_of (slot_at t i) index buffer len
]
