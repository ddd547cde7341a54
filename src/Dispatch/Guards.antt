-- ===== src/Dispatch/Guards.antt =====
-- src/service/fr_dispatch.cpp: the checks of the role, of the owner and of the peer's address.
use forgerelay.Prelude.{
  Bool, List, false, if◌then◌else◌, leb, ltb, not, same_text, true, ℕ, ◌+◌, ◌==◌, ◌||◌,
}
use forgerelay.Auth.{Role, admin, publisher, reader}
use forgerelay.Core.Status.{e_forbidden, e_unauthenticated}
use forgerelay.Messages.Fields.{Outcome, done, then_do, thrown}
use forgerelay.Messages.Listing.{ArtifactInfo}
use forgerelay.Storage.{Db, SessionInfo}
use forgerelay.Storage.Reads.{show_artifact}
pub mod Matrix
pub mod Blocking

-- `ClientSession`, but for what no check here reads.
pub record ClientSession : Type 0 where
  pub authenticated : Bool
  pub username : List ℕ
  pub role : Role

abbrev pub is_admin : Role → Bool
is_admin r = elim r [ admin ↦ true | _ ↦ false ]

-- `Impl::require_role`.
unfoldable pub require_role : ClientSession → Role → Outcome (Unit {0})
require_role s required = if not s.authenticated then thrown e_unauthenticated else elim s.role [
  | admin ↦ done tt
  | publisher ↦ elim required [ admin ↦ thrown e_forbidden | _ ↦ done tt ]
  | reader ↦ elim required [ reader ↦ done tt | _ ↦ thrown e_forbidden ]
]

abbrev creator_allowed : List ℕ → Outcome ArtifactInfo → Outcome (Unit {0})
creator_allowed username (thrown st) = thrown st
creator_allowed username (done a) =
    if same_text a.creator username then done tt else thrown e_forbidden

-- `Impl::require_delete_allowed`.
unfoldable pub require_delete_allowed :
    Db → ClientSession → (ns name version : List ℕ) → Outcome (Unit {0})
require_delete_allowed db s ns name version = then_do (require_role s reader) (λ ok. elim s.role [
  | admin ↦ done tt
  | publisher ↦ creator_allowed s.username (show_artifact ns name version db)
  | reader ↦ thrown e_forbidden
])

-- `Impl::require_session_allowed`.
unfoldable pub require_session_allowed : ClientSession → SessionInfo → Outcome (Unit {0})
require_session_allowed s info = then_do (require_role s publisher) (λ ok.
    if is_admin s.role || same_text info.owner s.username then done tt else thrown e_forbidden)

-- `Impl::IpStat`. The clock is the monotonic one.
pub record IpStat : Type 0 where
  pub failures : ℕ
  pub window_start : ℕ
  pub blocked_until : ℕ

abbrev pub new_stat : IpStat
new_stat = record { failures = 0; window_start = 0; blocked_until = 0 }

abbrev pub ip_failure_window_seconds : ℕ
ip_failure_window_seconds = 60

abbrev pub ip_failure_threshold : ℕ
ip_failure_threshold = 20

abbrev pub ip_block_seconds : ℕ
ip_block_seconds = 60

abbrev pub open_window : (now : ℕ) → IpStat → IpStat
open_window now st =
    if st.window_start == 0 || ltb (st.window_start + ip_failure_window_seconds) now
    then record st { window_start = now; failures = 0 }
    else st

abbrev pub count_failure : (now : ℕ) → IpStat → IpStat
count_failure now st =
    if leb ip_failure_threshold (st.failures + 1)
    then record st { blocked_until = now + ip_block_seconds; failures = 0 }
    else record st { failures = st.failures + 1 }

-- `Impl::note_auth_failure`, on the entry of the peer's address; one that is missing is new.
unfoldable pub note_auth_failure : (now : ℕ) → IpStat → IpStat
note_auth_failure now st = count_failure now (open_window now st)

-- `Impl::check_peer_not_blocked`, on that entry.
unfoldable pub check_peer_not_blocked : (now : ℕ) → IpStat → Outcome (Unit {0})
check_peer_not_blocked now st =
    if ltb now st.blocked_until then thrown e_unauthenticated else done tt

-- `Dispatcher::allow_peer`, on that entry; its time is `now_seconds`, the system's clock.
unfoldable pub allow_peer : (system_now : ℕ) → IpStat → Bool
allow_peer system_now st = leb st.blocked_until system_now
