-- ===== src/Storage/Tests/Commits.antt =====
-- The theorems on `Storage::commit_session` at concrete inputs.
use forgerelay.Prelude.{[], ap, false, refl, same_text, some, ◌^◌, ◌∷◌, ◌≡◌}
use forgerelay.Core.Status.{e_internal, e_state}
use forgerelay.Messages.Fields.{done, thrown}
use forgerelay.Storage.{Db, SessionInfo, committing}
use forgerelay.Storage.Safety.Publication.{Published, commit_session-done}
use forgerelay.Storage.Safety.Stuck.{commit_session-stuck}
use forgerelay.Storage.Sessions.{chunk_count, put_chunk}
use forgerelay.Storage.Sessions.Commit.{
  add_entry, artifact_of, build_manifest, check_content, check_manifest, commit_expired,
  commit_loaded, commit_session, publish, roll_back,
}
use forgerelay.Storage.Tables.{expire_session_if_due, load_session, transition, transits}
use forgerelay.Storage.Tests.{test_artifact, test_db, test_hash, test_room, test_session}

committed : (commit_session test_hash test_room 7 (115 ∷ []) test_db).0 ≡ done test_artifact
unfolding commit_session commit_expired commit_loaded check_manifest check_content publish
    artifact_of load_session expire_session_if_due transition transits build_manifest add_entry
    chunk_count roll_back same_text
committed = refl

committed_pair :
    commit_session test_hash test_room 7 (115 ∷ []) test_db
    ≡ (done test_artifact, (commit_session test_hash test_room 7 (115 ∷ []) test_db).1)
committed_pair =
    ap (λ o. (o, (commit_session test_hash test_room 7 (115 ∷ []) test_db).1)) committed

commit_session-done_example :
    (i : SessionInfo) × (load_session (115 ∷ []) test_db ≡ some i)
    × Published test_hash 7 i test_artifact test_db
        (commit_session test_hash test_room 7 (115 ∷ []) test_db).1
commit_session-done_example =
    commit_session-done test_hash test_room 7 (115 ∷ []) test_db test_artifact
      (commit_session test_hash test_room 7 (115 ∷ []) test_db).1 committed_pair

-- A session that expects more chunks than memory has room for.
abbrev vast_session : SessionInfo
vast_session = record test_session { expected_size = 2 ^ 40 }

abbrev vast_db : Db
vast_db = record test_db { sessions = vast_session ∷ [] }

vast_loaded : load_session (115 ∷ []) vast_db ≡ some vast_session
unfolding load_session same_text
vast_loaded = refl

vast_count : test_room (chunk_count vast_session) ≡ false
unfolding chunk_count
vast_count = refl

commit_session-stuck_example :
    let (result, db') = commit_session test_hash test_room 7 (115 ∷ []) vast_db in
    (result ≡ thrown e_internal)
    × (load_session (115 ∷ []) db' ≡ some (record vast_session { state = committing }))
    × (put_chunk test_hash 8 (115 ∷ []) 0 (7 ∷ []) db' ≡ (thrown e_state, db'))
    × (commit_session test_hash test_room 8 (115 ∷ []) db' ≡ (thrown e_state, db'))
commit_session-stuck_example =
    commit_session-stuck test_hash test_room 7 8 (115 ∷ []) 0 (7 ∷ []) vast_db vast_session
      vast_loaded refl refl vast_count
