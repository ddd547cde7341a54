-- ===== src/Storage/Upkeep.antt =====
-- src/storage/fr_storage.cpp: deletion, garbage collection and maintenance. The temporary files that
-- maintenance removes are not part of the state.
use forgerelay.Prelude.{
  Bool, List, [], false, find, if◌then◌else◌, keep, leb, length, ltb, none, not, some, true, ℕ,
  ◌&&◌, ◌+◌, ◌∷◌,
}
use forgerelay.Core.Status.{e_notfound}
use forgerelay.Messages.Fields.{done, thrown}
use forgerelay.Messages.Listing.{ManifestEntry}
use forgerelay.Storage.{
  Call, ChunkRow, Db, SessionInfo, aborted, committing, expired, opened, row_active, row_pending,
}
use forgerelay.Storage.Sessions.Commit.{is_named}
use forgerelay.Storage.Tables.{
  activate_row, chunk_referenced, count_rows, file_has, mark_digests, mark_unreferenced_parts,
  row_has, same_state, update_rows,
}
pub mod Collection

-- `Storage::delete_artifact`: the number of the rows that were marked.
unfoldable pub delete_artifact : (now : ℕ) (ns name version : List ℕ) → Db → Call ℕ
delete_artifact now ns name version db = elim (find (is_named ns name version) db.artifacts) [
  | none ↦ (thrown e_notfound, db)
  | some a ↦
      let gone : Db = record db {
        artifacts = keep (λ x. not (is_named ns name version x)) db.artifacts;
      } in
      let (db', marked) = mark_digests now (entry_digests a.chunks) gone in (done marked, db')
]
  where
    entry_digests : List ManifestEntry → List (List ℕ)
    entry_digests [] = []
    entry_digests (e ∷ es) = e.digest ∷ entry_digests es

pub record GcReport : Type 0 where
  pub scanned : ℕ
  pub deleted_count : ℕ
  pub deleted_bytes : ℕ

-- The rows that were marked, with the time of the mark.
abbrev pub candidates : List ChunkRow → List (ChunkRow × ℕ)
candidates [] = []
candidates (r ∷ rs) =
    let rest = candidates rs in elim r.state [ row_active ↦ rest | row_pending at ↦ (r, at) ∷ rest ]

abbrev with_deleted : ChunkRow → GcReport → GcReport
with_deleted r report = record report {
  deleted_count = report.deleted_count + 1;
  deleted_bytes = report.deleted_bytes + r.raw_size;
}

-- The row and the file of a digest are gone.
abbrev pub remove_chunk : List ℕ → Db → Db
remove_chunk digest db = record db {
  files = keep (λ f. not (file_has digest f)) db.files;
  chunks = keep (λ r. not (row_has digest r)) db.chunks;
}

-- One round of the loop.
unfoldable pub collect_one :
    (grace now : ℕ) (dry_run : Bool) → ChunkRow × ℕ → GcReport × Db → GcReport × Db
collect_one grace now dry_run (r, at) (report, db) =
    if ltb now (at + grace)
    then (report, db)
    else if chunk_referenced db r.digest
    then (report, record db { chunks = update_rows (activate_row r.digest) db.chunks })
    else (with_deleted r report, if dry_run then db else remove_chunk r.digest db)

unfoldable pub collect_loop :
    (grace now : ℕ) (dry_run : Bool) → List (ChunkRow × ℕ) → GcReport × Db → GcReport × Db
collect_loop grace now dry_run [] s = s
collect_loop grace now dry_run (c ∷ cs) s =
    collect_loop grace now dry_run cs (collect_one grace now dry_run c s)

-- `Storage::collect_garbage`.
unfoldable pub collect_garbage : (grace now : ℕ) (dry_run : Bool) → Db → GcReport × Db
collect_garbage grace now dry_run db =
    let cs = candidates db.chunks in
    collect_loop grace now dry_run cs
      (record { scanned = length cs; deleted_count = 0; deleted_bytes = 0 }, db)

-- `RecoveryReport`, but for the temporary files.
pub record RecoveryReport : Type 0 where
  pub sessions_expired : ℕ
  pub sessions_rolled_back : ℕ

abbrev pub is_due : ℕ → SessionInfo → Bool
is_due now s = same_state s.state opened && leb s.expires_at now

abbrev pub expire_row : ℕ → SessionInfo → SessionInfo
expire_row now s = if is_due now s then record s { state = expired } else s

abbrev pub roll_back_row : SessionInfo → SessionInfo
roll_back_row s = if same_state s.state committing then record s { state = opened } else s

-- state IN ('EXPIRED','ABORTED')
abbrev pub is_stopped : SessionInfo → Bool
is_stopped s = elim s.state [ expired ↦ true | aborted ↦ true | _ ↦ false ]

abbrev pub mark_sessions : ℕ → List SessionInfo → Db → Db
mark_sessions now [] db = db
mark_sessions now (s ∷ ss) db = mark_sessions now ss (mark_unreferenced_parts s.id now db)

-- `Storage::run_maintenance`.
unfoldable pub run_maintenance : (now : ℕ) → Db → RecoveryReport × Db
run_maintenance now db =
    let swept = update_rows (expire_row now) db.sessions in
    let sessions = update_rows roll_back_row swept in
    (
      record {
        sessions_expired = count_rows (is_due now) db.sessions;
        sessions_rolled_back = count_rows (λ s. same_state s.state committing) swept;
      },
      mark_sessions now (keep is_stopped sessions) (record db { sessions = sessions }),
    )
