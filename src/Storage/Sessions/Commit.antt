-- ===== src/Storage/Sessions/Commit.antt =====
-- src/storage/fr_storage.cpp: `Storage::commit_session`.
use forgerelay.Prelude.{
  Bool, List, Option, [], any, find, if◌then◌else◌, keep, length, ltb, none, not, pos, same_text,
  some, suc, ℕ, ◌%◌, ◌&&◌, ◌++◌, ◌+◌, ◌==◌, ◌^◌, ◌∷◌,
}
use forgerelay.Core.Status.{
  Status, e_conflict, e_exists, e_expired, e_internal, e_notfound, e_state,
}
use forgerelay.Messages.Fields.{done, thrown}
use forgerelay.Messages.Listing.{ArtifactInfo, ManifestEntry}
use forgerelay.Storage.{
  Call, ChunkFile, ChunkRow, Db, SessionInfo, UploadPart, committing, completed, expired, opened,
}
use forgerelay.Storage.Sessions.{chunk_count}
use forgerelay.Storage.Tables.{
  activate_row, expire_session_if_due, file_has, has_id, load_session, of_session, same_state,
  transition, transits, update_rows,
}

-- ORDER BY ordinal.
abbrev pub insert_part : UploadPart → List UploadPart → List UploadPart
insert_part p [] = p ∷ []
insert_part p (q ∷ ps) =
    let rest = insert_part p ps in if ltb q.ordinal p.ordinal then q ∷ rest else p ∷ q ∷ ps

abbrev pub by_ordinal : List UploadPart → List UploadPart
by_ordinal [] = []
by_ordinal (p ∷ ps) = insert_part p (by_ordinal ps)

-- A manifest under construction, with the sum of the lengths.
pub record Built : Type 0 where
  pub manifest : List ManifestEntry
  pub total : ℕ

unfoldable pub add_entry : ManifestEntry → Option Built → Option Built
add_entry e none = none
add_entry e (some b) = some (record b { manifest = e ∷ b.manifest })

-- The loop over the parts: the ordinals count up from 0, and no part is longer than a chunk.
unfoldable pub build_manifest :
    (chunk_size expected_ordinal total : ℕ) → List UploadPart → Option Built
unfolding add_entry
build_manifest chunk_size expected_ordinal total [] = some (record { manifest = []; total = total })
build_manifest chunk_size expected_ordinal total (p ∷ ps) =
    let rest = build_manifest chunk_size (suc expected_ordinal) ((total + p.extent) % 2 ^ 64) ps in
    let entry : ManifestEntry = record {
      ordinal = pos p.ordinal;
      offset = total;
      extent = p.extent;
      digest = p.digest;
    } in
    if not (p.ordinal == expected_ordinal)
    then none
    else if ltb chunk_size p.extent
    then none
    else add_entry entry rest

abbrev join_content : List ℕ → Option (List ℕ) → Option (List ℕ)
join_content l none = none
join_content l (some rest) = some (l ++ rest)

abbrev content_then : Option ChunkFile → Option (List ℕ) → Option (List ℕ)
content_then none rest = none
content_then (some f) rest = join_content f.content rest

-- The content of the chunks one after another, `none` where a file is missing.
abbrev pub contents_of : List ChunkFile → List ManifestEntry → Option (List ℕ)
contents_of files [] = some []
contents_of files (e ∷ es) = content_then (find (file_has e.digest) files) (contents_of files es)

abbrev pub is_named : List ℕ → List ℕ → List ℕ → ArtifactInfo → Bool
is_named ns name version a =
    same_text a.ns ns && same_text a.name name && same_text a.version version

-- The artifact of a session, as `commit_session` inserts it; a note that is NULL reads as "".
unfoldable pub artifact_of : (now : ℕ) → SessionInfo → List ManifestEntry → ArtifactInfo
artifact_of now s manifest = record {
  ns = s.ns;
  name = s.name;
  version = s.version;
  size = s.expected_size;
  digest = s.expected_digest;
  chunk_size = s.chunk_size;
  creator = s.owner;
  created_at = pos now;
  note = [];
  chunks = manifest;
}

abbrev pub activate_entries : List ManifestEntry → List ChunkRow → List ChunkRow
activate_entries [] rows = rows
activate_entries (e ∷ es) rows = activate_entries es (update_rows (activate_row e.digest) rows)

-- `UPDATE upload_session SET state='COMPLETED' WHERE id=?`
abbrev pub complete : List ℕ → SessionInfo → SessionInfo
complete id s = if has_id id s then record s { state = completed } else s

-- `rollback_to_open`, and the throw.
unfoldable pub roll_back : List ℕ → Status → Db → Call ArtifactInfo
roll_back id st db = (thrown st, transition id committing opened db)

-- The publication, one transaction.
unfoldable pub publish : (now : ℕ) → SessionInfo → List ManifestEntry → Db → Call ArtifactInfo
unfolding roll_back
publish now s manifest db =
    if any (is_named s.ns s.name s.version) db.artifacts then roll_back s.id e_exists db else (
      done (artifact_of now s manifest),
      record db {
        artifacts = db.artifacts ++ artifact_of now s manifest ∷ [];
        chunks = activate_entries manifest db.chunks;
        sessions = update_rows (complete s.id) db.sessions;
      },
    )

module _ (hash : List ℕ → List ℕ) where
  -- The check of the whole content.
  unfoldable pub check_content :
      (now : ℕ) → SessionInfo → List ManifestEntry → Db → Option (List ℕ) → Call ArtifactInfo
  unfolding roll_back
  check_content now s manifest db none = roll_back s.id e_notfound db
  check_content now s manifest db (some content) =
      if not (same_text (hash content) s.expected_digest)
      then roll_back s.id e_conflict db
      else publish now s manifest db

  -- The checks of the number of chunks and of their lengths.
  unfoldable pub check_manifest : (now : ℕ) → SessionInfo → Db → Option Built → Call ArtifactInfo
  unfolding roll_back
  check_manifest now s db none = roll_back s.id e_state db
  check_manifest now s db (some b) =
      if not (length b.manifest == chunk_count s)
      then roll_back s.id e_state db
      else if not (b.total == s.expected_size)
      then roll_back s.id e_state db
      else check_content now s b.manifest db (contents_of db.files b.manifest)

-- The branch in which the session is not OPEN.
unfoldable pub commit_refused : List ℕ → Db → Call ArtifactInfo
commit_refused id db = elim (load_session id db) [
  | none ↦ (thrown e_notfound, db)
  | some s ↦ if same_state s.state expired then (thrown e_expired, db) else (thrown e_state, db)
]

-- `room n` says whether memory has room for a manifest of `n` entries.
module _ (hash : List ℕ → List ℕ) (room : ℕ → Bool) where
  -- The session is COMMITTING, and `s` is the session as it was loaded. Where `manifest.reserve`
  -- fails, its exception leaves the call without a roll back, and the worker answers FR_E_INTERNAL.
  unfoldable pub commit_loaded : (now : ℕ) → SessionInfo → Db → Call ArtifactInfo
  commit_loaded now s db =
      if not (room (chunk_count s))
      then (thrown e_internal, db)
      else check_manifest hash now s db
          (build_manifest s.chunk_size 0 0 (by_ordinal (keep (of_session s.id) db.parts)))

  unfoldable pub commit_expired : (now : ℕ) → SessionInfo → Db → Call ArtifactInfo
  commit_expired now s db =
      if not (transits s.id opened db)
      then commit_refused s.id db
      else commit_loaded now s (transition s.id opened committing db)

  -- `Storage::commit_session`.
  unfoldable pub commit_session : (now : ℕ) (id : List ℕ) → Db → Call ArtifactInfo
  unfolding commit_expired
  commit_session now id db = elim (load_session id db) [
    | none ↦ (thrown e_notfound, db)
    | some s ↦ commit_expired now s (expire_session_if_due s now db)
  ]
