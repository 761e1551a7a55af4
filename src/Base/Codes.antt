-- ===== src/Base/Codes.antt =====
-- core/kernel/core/status.h and status.c: the kernel's status codes.
use mathlib.Core.Bool.{Bool, true, false}

pub data Status : Type 0 where
  ok unknown invalid_argument not_found out_of_memory already_exists not_initialized : Status
  busy permission_denied unsupported invalid_state corruption_detected timeout : Status

abbrev pub is_success : Status → Bool
is_success ok = true
is_success _ = false
