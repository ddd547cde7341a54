-- ===== src/Storage/Sessions.antt =====
-- src/storage/fr_storage.cpp: the methods of `Storage` on upload sessions. SHA-256 is OpenSSL's or the
-- system's: `hash` gives the digest of some bytes as text. The statements and the files do not fail by
-- themselves; a session id that is taken already breaks the primary key.
use forgerelay.Prelude.{
  Bool, List, Option, [], any, c_str, false, find, if◌then◌else◌, leb, length, ltb, none, not,
  same_text, some, true, ℕ, ◌%◌, ◌&&◌, ◌*◌, ◌++◌, ◌+◌, ◌-◌, ◌/◌, ◌==◌, ◌^◌, ◌||◌, ◌∷◌,
}
use forgerelay.Core.Hex.{digest_hex_valid}
use forgerelay.Core.Path.{ident_valid_component, ident_valid_version}
use forgerelay.Core.Status.{
  e_arg, e_conflict, e_expired, e_io, e_limit, e_notfound, e_range, e_state,
}
use forgerelay.Messages.Fields.{done, thrown}
use forgerelay.Storage.{
  Call, ChunkFile, ChunkRow, Db, SessionInfo, StorageConfig, UploadPart, aborted, expired, opened,
  row_active,
}
use forgerelay.Storage.Tables.{
  activate_row, count_rows, expire_session_if_due, file_has, has_id, is_active, is_live,
  load_session, mark_unreferenced_parts, of_session, row_has, same_state, transition, update_rows,
}
pub mod Commit

pub record ChunkAccept : Type 0 where
  pub digest : List ℕ
  pub reused : Bool

-- The sum of raw_size WHERE state='ACTIVE': `Storage::used_bytes`.
unfoldable pub used_bytes : List ChunkRow → ℕ
used_bytes [] = 0
used_bytes (r ∷ rs) = let rest = used_bytes rs in if is_active r then r.raw_size + rest else rest

-- capacity_bytes * high_watermark_percent / 100, on 64 bits.
unfoldable pub watermark : StorageConfig → ℕ
watermark cfg = cfg.capacity_bytes * cfg.high_watermark_percent % 2 ^ 64 / 100

abbrev pub open_of : List ℕ → SessionInfo → Bool
open_of owner s = same_text s.owner owner && same_state s.state opened

-- What `create_session` requires of its arguments.
unfoldable pub valid_request : List ℕ → List ℕ → List ℕ → List ℕ → List ℕ → Bool
valid_request ns name version digest owner =
    ident_valid_component (c_str ns)
    && ident_valid_component (c_str name)
    && ident_valid_version (c_str version)
    && not (same_text owner [])
    && digest_hex_valid (c_str digest)

-- `Storage::create_session`; the id is `new_session_id`'s, and no part of the model.
unfoldable pub create_session :
    StorageConfig
    → (now : ℕ) (id ns name version : List ℕ) (expected_size : ℕ) (expected_digest owner : List ℕ)
    → Db
    → Call SessionInfo
create_session cfg now id ns name version expected_size expected_digest owner db =
    let info : SessionInfo = record {
      id = id;
      owner = owner;
      state = opened;
      ns = ns;
      name = name;
      version = version;
      expected_size = expected_size;
      expected_digest = expected_digest;
      chunk_size = cfg.chunk_size;
      created_at = now;
      expires_at = now + cfg.session_hours * 3600;
    } in
    if not (valid_request ns name version expected_digest owner)
    then (thrown e_arg, db)
    else if leb cfg.max_sessions_per_owner (count_rows (open_of owner) db.sessions)
    then (thrown e_limit, db)
    else if leb (watermark cfg) (used_bytes db.chunks)
    then (thrown e_limit, db)
    else if any (has_id id) db.sessions
    then (thrown e_io, db)
    else (done info, record db { sessions = db.sessions ++ info ∷ [] })

-- The number of chunks that a session expects, on 64 bits.
unfoldable pub chunk_count : SessionInfo → ℕ
chunk_count s =
    if s.expected_size == 0
    then 0
    else (s.expected_size + s.chunk_size + (2 ^ 64 - 1)) % 2 ^ 64 / s.chunk_size

abbrev pub at_ordinal : List ℕ → ℕ → UploadPart → Bool
at_ordinal id ordinal p = of_session id p && p.ordinal == ordinal

-- `ChunkStore::put` on a digest that `hash` gave, so that its checks pass: the file of a digest is
-- written once.
unfoldable pub put_file : List ℕ → List ℕ → List ChunkFile → List ChunkFile
put_file digest content files =
    if any (file_has digest) files
    then files
    else files ++ record { digest = digest; content = content } ∷ []

-- INSERT OR IGNORE INTO chunk, and the reactivation of the row.
unfoldable pub put_row : List ℕ → ℕ → List ChunkRow → List ChunkRow
put_row digest size rows =
    if any (row_has digest) rows
    then update_rows (activate_row digest) rows
    else rows ++ record { digest = digest; raw_size = size; state = row_active } ∷ []

-- `put_chunk` once the file is in its place: the part of that ordinal, if there is one, decides.
unfoldable pub register_part :
    (id : List ℕ) (ordinal size : ℕ) (digest : List ℕ) → Db → Option UploadPart → Call ChunkAccept
register_part id ordinal size digest db (some p) =
    if same_text p.digest digest
    then (done (record { digest = digest; reused = true }), db)
    else (thrown e_conflict, db)
register_part id ordinal size digest db none = (
  done (record { digest = digest; reused = false }),
  record db {
    chunks = put_row digest size db.chunks;
    parts =
        db.parts
        ++ record { session_id = id; ordinal = ordinal; digest = digest; extent = size } ∷ [];
  },
)

module _ (hash : List ℕ → List ℕ) where
  -- `put_chunk` on the session as it is after the expiry.
  unfoldable pub put_chunk_into :
      (ordinal : ℕ) (content : List ℕ) → Db → SessionInfo → Call ChunkAccept
  put_chunk_into ordinal content db s =
      if same_state s.state expired
      then (thrown e_expired, db)
      else if not (same_state s.state opened)
      then (thrown e_state, db)
      else if leb (chunk_count s) ordinal
      then (thrown e_range, db)
      else if length content == 0 || ltb s.chunk_size (length content)
      then (thrown e_range, db)
      else let digest = hash content in
        register_part s.id ordinal (length content) digest
          (record db { files = put_file digest content db.files })
          (find (at_ordinal s.id ordinal) db.parts)

  unfoldable pub reload_and_put : List ℕ → (ordinal : ℕ) (content : List ℕ) → Db → Call ChunkAccept
  reload_and_put id ordinal content db = elim (load_session id db) [
    | none ↦ (thrown e_notfound, db)
    | some s ↦ put_chunk_into ordinal content db s
  ]

  -- `Storage::put_chunk`.
  unfoldable pub put_chunk :
      (now : ℕ) (id : List ℕ) (ordinal : ℕ) (content : List ℕ) → Db → Call ChunkAccept
  unfolding reload_and_put
  put_chunk now id ordinal content db = elim (load_session id db) [
    | none ↦ (thrown e_notfound, db)
    | some s ↦ reload_and_put id ordinal content (expire_session_if_due s now db)
  ]

-- `Storage::abort_session`.
unfoldable pub abort_session : (now : ℕ) (id : List ℕ) → Db → Call (Unit {0})
abort_session now id db = elim (load_session id db) [
  | none ↦ (thrown e_notfound, db)
  | some s ↦
      if is_live s
      then (done tt, mark_unreferenced_parts id now (transition id s.state aborted db))
      else (done tt, db)
]
