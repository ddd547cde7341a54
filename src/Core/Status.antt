-- ===== src/Core/Status.antt =====
-- include/forgerelay/fr_error.h and src/core_c/fr_error.c: the stable status codes.
use forgerelay.Prelude.{String, ℕ}
pub mod Laws

-- `fr_status`, with `ok` for FR_OK and e_* for FR_E_*.
pub data Status : Type 0 where
  fr_ok : Status
  e_arg e_range e_overflow e_nomem e_io e_eof e_protocol e_truncated e_state : Status
  e_notfound e_exists e_limit e_busy e_internal e_conflict e_expired : Status
  e_unauthenticated e_forbidden : Status

-- `fr_category`.
pub data Category : Type 0 where
  cat_ok cat_argument cat_range cat_resource cat_io cat_protocol cat_state cat_internal : Category

-- The absolute value of the code: FR_OK is 0 and FR_E_ARG is -1.
unfoldable pub code_magnitude : Status → ℕ
code_magnitude fr_ok = 0
code_magnitude e_arg = 1
code_magnitude e_range = 2
code_magnitude e_overflow = 3
code_magnitude e_nomem = 4
code_magnitude e_io = 5
code_magnitude e_eof = 6
code_magnitude e_protocol = 7
code_magnitude e_truncated = 8
code_magnitude e_state = 9
code_magnitude e_notfound = 10
code_magnitude e_exists = 11
code_magnitude e_limit = 12
code_magnitude e_busy = 13
code_magnitude e_internal = 14
code_magnitude e_conflict = 15
code_magnitude e_expired = 16
code_magnitude e_unauthenticated = 17
code_magnitude e_forbidden = 18

-- `fr_status_name`.
pub status_name : Status → String
status_name fr_ok = "FR_OK"
status_name e_arg = "FR_E_ARG"
status_name e_range = "FR_E_RANGE"
status_name e_overflow = "FR_E_OVERFLOW"
status_name e_nomem = "FR_E_NOMEM"
status_name e_io = "FR_E_IO"
status_name e_eof = "FR_E_EOF"
status_name e_protocol = "FR_E_PROTOCOL"
status_name e_truncated = "FR_E_TRUNCATED"
status_name e_state = "FR_E_STATE"
status_name e_notfound = "FR_E_NOTFOUND"
status_name e_exists = "FR_E_EXISTS"
status_name e_limit = "FR_E_LIMIT"
status_name e_busy = "FR_E_BUSY"
status_name e_internal = "FR_E_INTERNAL"
status_name e_conflict = "FR_E_CONFLICT"
status_name e_expired = "FR_E_EXPIRED"
status_name e_unauthenticated = "FR_E_UNAUTHENTICATED"
status_name e_forbidden = "FR_E_FORBIDDEN"

-- `fr_status_message`.
pub status_message : Status → String
status_message fr_ok = "success"
status_message e_arg = "invalid argument"
status_message e_range = "value out of range"
status_message e_overflow = "arithmetic or capacity overflow"
status_message e_nomem = "out of memory"
status_message e_io = "I/O error"
status_message e_eof = "unexpected end of input"
status_message e_protocol = "protocol violation"
status_message e_truncated = "input truncated"
status_message e_state = "invalid state"
status_message e_notfound = "not found"
status_message e_exists = "already exists"
status_message e_limit = "limit exceeded"
status_message e_busy = "busy"
status_message e_conflict = "content conflict"
status_message e_expired = "object expired"
status_message e_unauthenticated = "authentication required"
status_message e_forbidden = "permission denied"
status_message e_internal = "internal error"

-- `fr_status_category`.
pub status_category : Status → Category
status_category fr_ok = cat_ok
status_category e_arg = cat_argument
status_category e_range = cat_range
status_category e_nomem = cat_resource
status_category e_limit = cat_resource
status_category e_io = cat_io
status_category e_protocol = cat_protocol
status_category e_truncated = cat_protocol
status_category e_overflow = cat_internal
status_category e_internal = cat_internal
status_category e_eof = cat_state
status_category e_state = cat_state
status_category e_notfound = cat_state
status_category e_exists = cat_state
status_category e_conflict = cat_state
status_category e_expired = cat_state
status_category e_busy = cat_state
status_category e_unauthenticated = cat_state
status_category e_forbidden = cat_state
