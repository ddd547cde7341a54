-- ===== src/Storage/Histories.antt =====
-- src/storage/fr_storage.cpp: the calls of `Storage` that change its state, in any order and with any
-- arguments.
use forgerelay.Prelude.{Bool, List, [], ℕ, ◌∷◌}
use forgerelay.Storage.{Db, StorageConfig}
use forgerelay.Storage.Sessions.{abort_session, create_session, put_chunk}
use forgerelay.Storage.Sessions.Commit.{commit_session}
use forgerelay.Storage.Upkeep.{collect_garbage, delete_artifact, run_maintenance}
pub mod Integrity
pub mod Lifecycle

pub data Request : Type 0 where
  asked_create :
      (now : ℕ) (id ns name version : List ℕ) (size : ℕ) (digest owner : List ℕ) → Request
  asked_put : (now : ℕ) (id : List ℕ) (ordinal : ℕ) (content : List ℕ) → Request
  asked_commit : (now : ℕ) (id : List ℕ) → Request
  asked_abort : (now : ℕ) (id : List ℕ) → Request
  asked_delete : (now : ℕ) (ns name version : List ℕ) → Request
  asked_collect : (now : ℕ) (dry_run : Bool) → Request
  asked_maintain : (now : ℕ) → Request

module _ (hash : List ℕ → List ℕ) (room : ℕ → Bool) (cfg : StorageConfig) where
  -- The state after one call, whatever its result.
  abbrev pub serve : Db → Request → Db
  serve db (asked_create now id ns name version size digest owner) =
      (create_session cfg now id ns name version size digest owner db).1
  serve db (asked_put now id ordinal content) = (put_chunk hash now id ordinal content db).1
  serve db (asked_commit now id) = (commit_session hash room now id db).1
  serve db (asked_abort now id) = (abort_session now id db).1
  serve db (asked_delete now ns name version) = (delete_artifact now ns name version db).1
  serve db (asked_collect now dry_run) = (collect_garbage cfg.gc_grace_seconds now dry_run db).1
  serve db (asked_maintain now) = (run_maintenance now db).1

  -- The state after a sequence of calls.
  abbrev pub serve_all : Db → List Request → Db
  serve_all db [] = db
  serve_all db (r ∷ rs) = serve_all (serve db r) rs
