-- ===== src/Storage/Tests.antt =====
-- src/storage/: runs on small tables.
use forgerelay.Prelude.{
  All, Bool, List, [], any, arith, c_str, drop, false, find, leb, length, pos, refl, same_text,
  some, suc, take, true, zero, ℕ, ◌%◌, ◌&&◌, ◌++◌, ◌+◌, ◌∷◌, ◌≡◌,
}
use forgerelay.Core.Hex.{all_chars, digest_hex_valid, is_lower_hex}
use forgerelay.Core.Path.{
  ident_valid_component, ident_valid_version, is_dots, is_ident_component_char,
  is_version_extra_char,
}
use forgerelay.Messages.Fields.{done}
use forgerelay.Messages.Listing.{ArtifactInfo}
use forgerelay.Storage.{
  Db, SessionInfo, StorageConfig, aborted, empty_db, opened, row_active, row_pending,
}
use forgerelay.Storage.ChunkFormat.{parse_header, store_header}
use forgerelay.Storage.ChunkFormat.RoundTrip.{parse_header-store_header}
use forgerelay.Storage.Histories.{
  Request, asked_collect, asked_commit, asked_create, asked_put, serve_all,
}
use forgerelay.Storage.Histories.Integrity.{serve_all-IsIntact, serve_all-Kept}
use forgerelay.Storage.Histories.Lifecycle.{SessionSteps}
use forgerelay.Storage.Histories.Lifecycle.Committing.{lingers, serve_all-committing}
use forgerelay.Storage.Histories.Lifecycle.Ended.{serve_all-ended}
use forgerelay.Storage.Histories.Lifecycle.Served.{serve_all-SessionSteps}
use forgerelay.Storage.Reads.{read_artifact_slice}
use forgerelay.Storage.Reads.Artifact.{read_artifact_slice-Laid}
use forgerelay.Storage.Reads.Slices.{Laid, SendsRange, laid_chunk, laid_end}
use forgerelay.Storage.Safety.{IsIntact, Kept}
use forgerelay.Storage.Sessions.{
  chunk_count, create_session, put_chunk, put_chunk_into, put_file, put_row, register_part,
  reload_and_put, used_bytes, valid_request, watermark,
}
use forgerelay.Storage.Sessions.Commit.{is_named}
use forgerelay.Storage.Tables.{
  chunk_referenced, expire_session_if_due, has_id, is_live, load_session,
}
use forgerelay.Storage.Upkeep.{collect_garbage}
use forgerelay.Storage.Upkeep.Collection.{collect_garbage-overdue, is_overdue}
mod Commits

abbrev zeros : ℕ → List ℕ
zeros zero = []
zeros (suc n) = 48 ∷ zeros n

-- A text of 64 digits that begins with the length of the bytes.
abbrev pub test_hash : List ℕ → List ℕ
test_hash l = (48 + length l % 10) ∷ zeros 63

abbrev pub test_room : ℕ → Bool
test_room n = leb n 1000

abbrev test_cfg : StorageConfig
test_cfg = record {
  chunk_size = 2;
  capacity_bytes = 1000;
  high_watermark_percent = 90;
  session_hours = 1;
  gc_grace_seconds = 10;
  max_sessions_per_owner = 4;
}

-- "s", "n", "a", "1" and "u".
abbrev upload : List Request
upload =
    asked_create 5 (115 ∷ []) (110 ∷ []) (97 ∷ []) (49 ∷ []) 3 (test_hash (7 ∷ 8 ∷ 9 ∷ []))
      (117 ∷ [])
    ∷ asked_put 6 (115 ∷ []) 1 (9 ∷ [])
    ∷ asked_put 6 (115 ∷ []) 0 (7 ∷ 8 ∷ [])
    ∷ []

abbrev uploaded : Db
uploaded = serve_all test_hash test_room test_cfg empty_db upload

abbrev published : List Request
published = upload ++ asked_commit 7 (115 ∷ []) ∷ asked_collect 8 false ∷ []

abbrev published_db : Db
published_db = serve_all test_hash test_room test_cfg empty_db published

serve_all-IsIntact_example : All (IsIntact test_hash published_db.files) published_db.artifacts
serve_all-IsIntact_example = serve_all-IsIntact test_hash test_room test_cfg published

uploaded_refers : chunk_referenced uploaded (test_hash (9 ∷ [])) ≡ true
unfolding c_str create_session valid_request put_chunk reload_and_put put_chunk_into put_file
    put_row register_part load_session expire_session_if_due chunk_count used_bytes watermark
    same_text digest_hex_valid all_chars is_lower_hex ident_valid_component ident_valid_version
    is_ident_component_char is_dots is_version_extra_char
uploaded_refers = refl

serve_all-Kept_example : Kept uploaded (test_hash (9 ∷ []))
serve_all-Kept_example =
    serve_all-Kept test_hash test_room test_cfg upload (test_hash (9 ∷ [])) uploaded_refers

serve_all-SessionSteps_example :
    SessionSteps test_room uploaded.sessions
      (serve_all test_hash test_room test_cfg uploaded published).sessions
serve_all-SessionSteps_example =
    serve_all-SessionSteps test_hash test_room test_cfg published uploaded

serve_all-committing_example :
    any (lingers test_room) (serve_all test_hash test_room test_cfg empty_db published).sessions
    ≡ false
serve_all-committing_example = serve_all-committing test_hash test_room test_cfg published

-- A session with two chunks, after its parts were put.
abbrev pub test_session : SessionInfo
test_session = record {
  id = 115 ∷ [];
  owner = 117 ∷ [];
  state = opened;
  ns = 110 ∷ [];
  name = 97 ∷ [];
  version = 49 ∷ [];
  expected_size = 3;
  expected_digest = test_hash (7 ∷ 8 ∷ 9 ∷ []);
  chunk_size = 2;
  created_at = 5;
  expires_at = 3605;
}

abbrev pub test_db : Db
test_db = record {
  sessions = test_session ∷ [];
  parts =
      record { session_id = 115 ∷ []; ordinal = 1; digest = test_hash (9 ∷ []); extent = 1 }
      ∷ record { session_id = 115 ∷ []; ordinal = 0; digest = test_hash (7 ∷ 8 ∷ []); extent = 2 }
      ∷ [];
  chunks =
      record { digest = test_hash (9 ∷ []); raw_size = 1; state = row_active }
      ∷ record { digest = test_hash (7 ∷ 8 ∷ []); raw_size = 2; state = row_pending 3 }
      ∷ record { digest = test_hash []; raw_size = 2; state = row_pending 1 }
      ∷ [];
  artifacts = [];
  files =
      record { digest = test_hash (9 ∷ []); content = 9 ∷ [] }
      ∷ record { digest = test_hash (7 ∷ 8 ∷ []); content = 7 ∷ 8 ∷ [] }
      ∷ [];
}

abbrev pub test_artifact : ArtifactInfo
test_artifact = record {
  ns = 110 ∷ [];
  name = 97 ∷ [];
  version = 49 ∷ [];
  size = 3;
  digest = test_hash (7 ∷ 8 ∷ 9 ∷ []);
  chunk_size = 2;
  creator = 117 ∷ [];
  created_at = pos 7;
  note = [];
  chunks =
      record { ordinal = pos 0; offset = 0; extent = 2; digest = test_hash (7 ∷ 8 ∷ []) }
      ∷ record { ordinal = pos 1; offset = 2; extent = 1; digest = test_hash (9 ∷ []) }
      ∷ [];
}

collect_garbage-overdue_example :
    any (is_overdue 10 20) (collect_garbage 10 20 false test_db).1.chunks ≡ false
collect_garbage-overdue_example = collect_garbage-overdue 10 20 test_db

abbrev ended_session : SessionInfo
ended_session = record test_session { state = aborted }

abbrev ended_db : Db
ended_db = record test_db { sessions = ended_session ∷ [] }

ended_loaded : load_session (115 ∷ []) ended_db ≡ some ended_session
unfolding load_session same_text
ended_loaded = refl

ended_dead : any (λ s. has_id (115 ∷ []) s && is_live s) ended_db.sessions ≡ false
unfolding same_text
ended_dead = refl

serve_all-ended_example :
    load_session (115 ∷ []) (serve_all test_hash test_room test_cfg ended_db published)
    ≡ some ended_session
serve_all-ended_example =
    serve_all-ended test_hash test_room test_cfg published ended_db (115 ∷ []) ended_session
      ended_loaded ended_dead

abbrev stored_db : Db
stored_db = record test_db { artifacts = test_artifact ∷ [] }

stored_there :
    find (is_named (110 ∷ []) (97 ∷ []) (49 ∷ [])) stored_db.artifacts ≡ some test_artifact
unfolding same_text
stored_there = refl

stored-Laid : Laid stored_db.files 0 test_artifact.chunks (7 ∷ 8 ∷ 9 ∷ [])
unfolding c_str digest_hex_valid all_chars is_lower_hex same_text
stored-Laid =
    laid_chunk (record { digest = test_hash (7 ∷ 8 ∷ []); content = 7 ∷ 8 ∷ [] }) refl refl refl
      refl
      (laid_chunk (record { digest = test_hash (9 ∷ []); content = 9 ∷ [] }) refl refl refl refl
        laid_end)

read_artifact_slice-Laid_example :
    SendsRange
      (read_artifact_slice (110 ∷ []) (97 ∷ []) (49 ∷ []) 1 5 stored_db)
      (take 5 (drop 1 (7 ∷ 8 ∷ 9 ∷ [])))
read_artifact_slice-Laid_example =
    read_artifact_slice-Laid stored_db (110 ∷ []) (97 ∷ []) (49 ∷ []) test_artifact (7 ∷ 8 ∷ 9 ∷ [])
      1 5 stored_there stored-Laid refl (omega arith) (omega arith)

parse_header-store_header_example :
    parse_header (store_header 70000 12)
    ≡ done (record { raw_len = 70000; stored_len = 70000; crc = 12 })
parse_header-store_header_example = parse_header-store_header 70000 12 (omega arith) (omega arith)
