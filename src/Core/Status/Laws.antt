-- ===== src/Core/Status/Laws.antt =====
-- The status codes: each text and each number stands for one status.
use forgerelay.Prelude.{Option, if◌then◌else◌, none, refl, some, ℕ, ◌==◌, ◌≡◌}
use forgerelay.Core.Status.{
  Status, cat_ok, code_magnitude, e_arg, e_busy, e_conflict, e_eof, e_exists, e_expired,
  e_forbidden, e_internal, e_io, e_limit, e_nomem, e_notfound, e_overflow, e_protocol, e_range,
  e_state, e_truncated, e_unauthenticated, fr_ok, status_category,
}

-- The inverse of `code_magnitude`, written from the table of docs/PROTOCOL.md, section 4.1.
status_of_magnitude : ℕ → Option Status
status_of_magnitude n =
    if n == 0
    then some fr_ok
    else if n == 1
    then some e_arg
    else if n == 2
    then some e_range
    else if n == 3
    then some e_overflow
    else if n == 4
    then some e_nomem
    else if n == 5
    then some e_io
    else if n == 6
    then some e_eof
    else if n == 7
    then some e_protocol
    else if n == 8
    then some e_truncated
    else if n == 9
    then some e_state
    else if n == 10
    then some e_notfound
    else if n == 11
    then some e_exists
    else if n == 12
    then some e_limit
    else if n == 13
    then some e_busy
    else if n == 14
    then some e_internal
    else if n == 15
    then some e_conflict
    else if n == 16
    then some e_expired
    else if n == 17
    then some e_unauthenticated
    else if n == 18
    then some e_forbidden
    else none

status_of_magnitude-code_magnitude : (s : Status) → status_of_magnitude (code_magnitude s) ≡ some s
unfolding status_of_magnitude code_magnitude
status_of_magnitude-code_magnitude fr_ok = refl
status_of_magnitude-code_magnitude _ = refl

-- No two statuses share their number, as the C enum promises.
pub code_magnitude-injective : (s t : Status) → code_magnitude s ≡ code_magnitude t → s ≡ t
code_magnitude-injective s t p =
    cc (status_of_magnitude-code_magnitude s, status_of_magnitude-code_magnitude t)

-- Category `cat_ok` is for success alone.
pub status_category-ok : (s : Status) → status_category s ≡ cat_ok → s ≡ fr_ok
unfolding status_category
status_category-ok fr_ok p = refl
status_category-ok _ p = cc
