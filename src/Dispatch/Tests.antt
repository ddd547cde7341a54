-- ===== src/Dispatch/Tests.antt =====
-- src/service/fr_dispatch.cpp: runs on one artifact, and on clients of each role.
use forgerelay.Prelude.{
  All, Bool, List, [], arith, c_str, find, leb, pos, refl, same_text, some, suc, true, zero, ℕ,
  ◌&&◌, ◌||◌, ◌∷◌, ◌≡◌,
}
use forgerelay.Auth.{empty_registry, publisher, reader}
use forgerelay.Core.Hex.{all_chars, digest_hex_valid, is_lower_hex}
use forgerelay.Core.Status.{e_forbidden, e_unauthenticated}
use forgerelay.Dispatch.Commands.{
  Command, Service, Surroundings, cmd_create_upload, cmd_delete_artifact, dispatch,
}
use forgerelay.Dispatch.Commands.Rights.{dispatch-Safe, dispatch-accounts, dispatch-reader}
use forgerelay.Dispatch.Get.{receive_all, start_get}
use forgerelay.Dispatch.Get.Range.{start_get-range}
use forgerelay.Dispatch.Guards.{
  ClientSession, check_peer_not_blocked, is_admin, new_stat, note_auth_failure,
  require_delete_allowed, require_role,
}
use forgerelay.Dispatch.Guards.Blocking.{InWindow, note_failures, note_failures-blocked}
use forgerelay.Dispatch.Guards.Matrix.{
  answer_of, permits, require_delete_allowed-creator, require_role-permits,
}
use forgerelay.Messages.Fields.{thrown}
use forgerelay.Messages.Listing.{ArtifactInfo}
use forgerelay.Storage.{Db, StorageConfig, empty_db}
use forgerelay.Storage.Histories.Integrity.{empty_db-Safe}
use forgerelay.Storage.Reads.Slices.{Laid, laid_chunk, laid_end}
use forgerelay.Storage.Safety.{Safe}
use forgerelay.Storage.Sessions.Commit.{is_named}

abbrev fixed_hash : List ℕ → List ℕ
fixed_hash l = l

abbrev fixed_room : ℕ → Bool
fixed_room n = leb n 1000

abbrev reader_client : ClientSession
reader_client = record { authenticated = true; username = 98 ∷ []; role = reader }

abbrev publisher_client : ClientSession
publisher_client = record { authenticated = true; username = 97 ∷ []; role = publisher }

abbrev small_cfg : StorageConfig
small_cfg = record {
  chunk_size = 2;
  capacity_bytes = 1000;
  high_watermark_percent = 90;
  session_hours = 1;
  gc_grace_seconds = 10;
  max_sessions_per_owner = 4;
}

abbrev some_time : Surroundings
some_time = record { now = 9; new_id = 115 ∷ []; new_token = 116 ∷ [] }

abbrev zeros_text : ℕ → List ℕ
zeros_text zero = []
zeros_text (suc n) = 48 ∷ zeros_text n

abbrev one_artifact : ArtifactInfo
one_artifact = record {
  ns = 110 ∷ [];
  name = 97 ∷ [];
  version = 49 ∷ [];
  size = 3;
  digest = zeros_text 64;
  chunk_size = 4;
  creator = 97 ∷ [];
  created_at = pos 7;
  note = [];
  chunks = record { ordinal = pos 0; offset = 0; extent = 3; digest = zeros_text 64 } ∷ [];
}

abbrev one_db : Db
one_db = record empty_db {
  artifacts = one_artifact ∷ [];
  files = record { digest = zeros_text 64; content = 7 ∷ 8 ∷ 9 ∷ [] } ∷ [];
}

abbrev one_service : Service
one_service = record { db = one_db; accounts = empty_registry }

artifact_there : find (is_named (110 ∷ []) (97 ∷ []) (49 ∷ [])) one_db.artifacts ≡ some one_artifact
unfolding same_text
artifact_there = refl

artifact-Laid : Laid one_db.files 0 one_artifact.chunks (7 ∷ 8 ∷ 9 ∷ [])
unfolding c_str digest_hex_valid all_chars is_lower_hex same_text
artifact-Laid =
    laid_chunk (record { digest = zeros_text 64; content = 7 ∷ 8 ∷ 9 ∷ [] }) refl refl refl refl
      laid_end

start_get-range_example :
    receive_all 6 one_db (start_get one_db (110 ∷ []) (97 ∷ []) (49 ∷ []) 1 4)
    ≡ some (record { received_bytes = 8 ∷ 9 ∷ []; announced = 2 })
start_get-range_example =
    start_get-range one_db one_artifact (7 ∷ 8 ∷ 9 ∷ []) 5 (110 ∷ []) (97 ∷ []) (49 ∷ []) 1 4
      artifact_there artifact-Laid refl (omega arith) (omega arith) (omega arith)

-- A publisher asks for the deletion of what it has created.
abbrev delete_one : Command
delete_one = cmd_delete_artifact (110 ∷ []) (97 ∷ []) (49 ∷ [])

dispatch-reader_example :
    (dispatch fixed_hash fixed_room small_cfg some_time reader_client one_service delete_one).1
    ≡ one_service
dispatch-reader_example =
    dispatch-reader fixed_hash fixed_room small_cfg some_time reader_client one_service delete_one
      refl

dispatch-accounts_example :
    (dispatch fixed_hash fixed_room small_cfg some_time publisher_client one_service
      delete_one).1.accounts
    ≡ one_service.accounts
dispatch-accounts_example =
    dispatch-accounts fixed_hash fixed_room small_cfg some_time publisher_client one_service
      delete_one refl

-- The tables before the first request.
abbrev first_service : Service
first_service = record { db = empty_db; accounts = empty_registry }

abbrev create_one : Command
create_one = cmd_create_upload (110 ∷ []) (97 ∷ []) (49 ∷ []) 3 (zeros_text 64)

first_Safe : Safe fixed_hash first_service.db
first_Safe = empty_db-Safe fixed_hash fixed_room small_cfg

dispatch-Safe_example :
    Safe fixed_hash
      (dispatch fixed_hash fixed_room small_cfg some_time publisher_client first_service
        create_one).1.db
dispatch-Safe_example =
    dispatch-Safe fixed_hash fixed_room small_cfg some_time publisher_client first_service
      create_one first_Safe

require_role-permits_example : require_role reader_client publisher ≡ thrown e_forbidden
require_role-permits_example = require_role-permits reader_client publisher

require_delete_allowed-creator_example :
    require_delete_allowed one_db publisher_client (110 ∷ []) (97 ∷ []) (49 ∷ [])
    ≡ answer_of publisher_client (
        is_admin publisher
        || permits publisher_client publisher
          && same_text one_artifact.creator publisher_client.username)
require_delete_allowed-creator_example =
    require_delete_allowed-creator one_db publisher_client (110 ∷ []) (97 ∷ []) (49 ∷ [])
      one_artifact artifact_there

-- Eighteen failures in one second, after a first one and before a last one.
abbrev repeated : ℕ → ℕ → List ℕ
repeated zero t = []
repeated (suc n) t = t ∷ repeated n t

repeated_inside : (n : ℕ) → All (InWindow 100) (repeated n 130)
repeated_inside zero = tt
repeated_inside (suc n) = ((omega arith, omega arith), repeated_inside n)

note_failures-blocked_example :
    check_peer_not_blocked 180
      (note_auth_failure 150 (note_failures (100 ∷ repeated 18 130) new_stat))
    ≡ thrown e_unauthenticated
note_failures-blocked_example =
    note_failures-blocked 100 150 180 (repeated 18 130) (omega arith) (repeated_inside 18)
      (omega arith, omega arith) refl
