-- ===== src/Storage/Histories/Integrity.antt =====
-- src/storage/fr_storage.cpp: whatever is called, and in whatever order, the published artifacts stay
-- whole.
use forgerelay.Prelude.{All, Bool, List, [], arith, true, ℕ, ◌∷◌, ◌≡◌}
use forgerelay.Storage.{Db, StorageConfig, empty_db}
use forgerelay.Storage.Histories.{
  Request, asked_abort, asked_collect, asked_commit, asked_create, asked_delete, asked_maintain,
  asked_put, serve, serve_all,
}
use forgerelay.Storage.Safety.{IsIntact, Kept, Safe}
use forgerelay.Storage.Safety.Commit.{Safe-commit_session}
use forgerelay.Storage.Safety.Sessions.{Safe-abort_session, Safe-create_session, Safe-put_chunk}
use forgerelay.Storage.Safety.Upkeep.{
  Safe-collect_garbage, Safe-delete_artifact, Safe-run_maintenance,
}
use forgerelay.Storage.Tables.{chunk_referenced}

module _ (hash : List ℕ → List ℕ) (room : ℕ → Bool) (cfg : StorageConfig) where
  serve-Safe : (db : Db) (r : Request) → Safe hash db → Safe hash (serve hash room cfg db r)
  serve-Safe db (asked_create now id ns name version size digest owner) s =
      Safe-create_session cfg now id ns name version size digest owner db s
  serve-Safe db (asked_put now id ordinal content) s = Safe-put_chunk now id ordinal content db s
  serve-Safe db (asked_commit now id) s = Safe-commit_session room now id db s
  serve-Safe db (asked_abort now id) s = Safe-abort_session now id db s
  serve-Safe db (asked_delete now ns name version) s = Safe-delete_artifact now ns name version db s
  serve-Safe db (asked_collect now dry_run) s =
      Safe-collect_garbage cfg.gc_grace_seconds now dry_run db s
  serve-Safe db (asked_maintain now) s = Safe-run_maintenance now db s

  serve_all-Safe :
      (db : Db) (rs : List Request) → Safe hash db → Safe hash (serve_all hash room cfg db rs)
  serve_all-Safe db [] s = s
  serve_all-Safe db (r ∷ rs) s = serve_all-Safe (serve hash room cfg db r) rs (serve-Safe db r s)

  pub empty_db-Safe : Safe hash empty_db
  empty_db-Safe = record {
    kept = λ d r. absurd (ground (arith, r));
    sound = tt;
    intact = tt;
    owned = tt;
  }

  -- After any sequence of calls that create, fill, commit and abort upload sessions, delete
  -- artifacts, collect garbage and run maintenance, with any arguments and at any times, on
  -- tables that were empty, every artifact that is published has all its chunks in the store, and
  -- they make up a content of the artifact's digest.
  pub serve_all-IsIntact :
      (rs : List Request)
      → let db = serve_all hash room cfg empty_db rs in All (IsIntact hash db.files) db.artifacts
  serve_all-IsIntact rs = (serve_all-Safe empty_db rs empty_db-Safe).intact

  -- After any sequence of such calls on tables that were empty, a chunk that an artifact or a
  -- part of a live session refers to has an active row and its file.
  pub serve_all-Kept :
      (rs : List Request) (digest : List ℕ)
      → chunk_referenced (serve_all hash room cfg empty_db rs) digest ≡ true
      → Kept (serve_all hash room cfg empty_db rs) digest
  serve_all-Kept rs digest = (serve_all-Safe empty_db rs empty_db-Safe).kept digest
