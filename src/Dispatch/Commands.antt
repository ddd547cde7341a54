-- ===== src/Dispatch/Commands.antt =====
-- src/service/fr_dispatch.cpp: the requests of `dispatch_business` that may change the tables, after their
-- payload is decoded. What the answer carries is left out, and so is the audit.
use forgerelay.Prelude.{Bool, List, Option, if◌then◌else◌, none, not, some, ℕ}
use forgerelay.Auth.{Accounts, Role, admin, publisher}
use forgerelay.Auth.Registry.{token_create, token_revoke, user_add, user_disable}
use forgerelay.Core.Status.{e_notfound, e_unauthenticated}
use forgerelay.Dispatch.Guards.{
  ClientSession, require_delete_allowed, require_role, require_session_allowed,
}
use forgerelay.Messages.Fields.{Outcome, done, thrown}
use forgerelay.Storage.{Db, SessionInfo, StorageConfig}
use forgerelay.Storage.Sessions.{abort_session, create_session, put_chunk}
use forgerelay.Storage.Sessions.Commit.{commit_session}
use forgerelay.Storage.Tables.{load_session}
use forgerelay.Storage.Upkeep.{collect_garbage, delete_artifact}
pub mod Rights

-- What the requests share: the storage and the registry.
pub record Service : Type 0 where
  pub db : Db
  pub accounts : Accounts

pub data Command : Type 0 where
  cmd_create_upload :
      (ns name version : List ℕ) (expected_size : ℕ) (expected_digest : List ℕ) → Command
  cmd_put_chunk : (id : List ℕ) (ordinal : ℕ) (content : List ℕ) → Command
  cmd_commit_upload : (id : List ℕ) → Command
  cmd_abort_upload : (id : List ℕ) → Command
  cmd_delete_artifact : (ns name version : List ℕ) → Command
  cmd_run_gc : (dry_run : Bool) → Command
  cmd_user_add : (username : List ℕ) (role : Role) → Command
  cmd_user_disable : (username : List ℕ) → Command
  cmd_token_create : (username : List ℕ) (ttl_hours : ℕ) → Command
  cmd_token_revoke : (id : ℕ) → Command
  cmd_session_abort : (id : List ℕ) → Command

abbrev pub Reply : Type 0
Reply = Outcome (Unit {0}) × Service

abbrev pub forget {ℓ} : {A : Type ℓ} → Outcome A → Outcome (Unit {0})
forget (done a) = done tt
forget (thrown st) = thrown st

-- A call of `Storage`, and one of `AuthRegistry`.
abbrev pub on_storage {ℓ} : {A : Type ℓ} → Service → Outcome A × Db → Reply
on_storage sv (result, db) = (forget result, record sv { db = db })

abbrev pub on_accounts {ℓ} : {A : Type ℓ} → Service → Outcome A × Accounts → Reply
on_accounts sv (result, accounts) = (forget result, record sv { accounts = accounts })

-- A check before the calls.
abbrev pub guarded : Service → Outcome (Unit {0}) → Reply → Reply
guarded sv (thrown st) reply = (thrown st, sv)
guarded sv (done ok) reply = reply

-- `get_session`, and the check of its owner.
abbrev session_of : ClientSession → Option SessionInfo → Outcome (Unit {0})
session_of s none = thrown e_notfound
session_of s (some info) = require_session_allowed s info

unfoldable pub owner_guard : ClientSession → (id : List ℕ) → Db → Outcome (Unit {0})
owner_guard s id db = session_of s (load_session id db)

-- What a request may see of its surroundings: the time, a new session id and a new token.
pub record Surroundings : Type 0 where
  pub now : ℕ
  pub new_id : List ℕ
  pub new_token : List ℕ

module _ (hash : List ℕ → List ℕ) (room : ℕ → Bool) (cfg : StorageConfig) where
  unfoldable pub business : Surroundings → ClientSession → Service → Command → Reply
  business at s sv (cmd_create_upload ns name version size digest) =
      guarded sv (require_role s publisher) (
        on_storage sv
          (create_session cfg at.now at.new_id ns name version size digest s.username sv.db))
  business at s sv (cmd_put_chunk id ordinal content) =
      guarded sv (owner_guard s id sv.db)
        (on_storage sv (put_chunk hash at.now id ordinal content sv.db))
  business at s sv (cmd_commit_upload id) =
      guarded sv (owner_guard s id sv.db) (on_storage sv (commit_session hash room at.now id sv.db))
  business at s sv (cmd_abort_upload id) =
      guarded sv (owner_guard s id sv.db) (on_storage sv (abort_session at.now id sv.db))
  business at s sv (cmd_delete_artifact ns name version) =
      guarded sv (require_delete_allowed sv.db s ns name version)
        (on_storage sv (delete_artifact at.now ns name version sv.db))
  business at s sv (cmd_run_gc dry_run) =
      guarded sv (require_role s admin)
        (done tt, record sv { db = (collect_garbage cfg.gc_grace_seconds at.now dry_run sv.db).1 })
  business at s sv (cmd_user_add username role) =
      guarded sv (require_role s admin) (on_accounts sv (user_add at.now username role sv.accounts))
  business at s sv (cmd_user_disable username) =
      guarded sv (require_role s admin) (on_accounts sv (user_disable username sv.accounts))
  business at s sv (cmd_token_create username ttl_hours) =
      guarded sv (require_role s admin)
        (on_accounts sv (token_create hash at.now at.new_token username ttl_hours sv.accounts))
  business at s sv (cmd_token_revoke id) =
      guarded sv (require_role s admin) (on_accounts sv (token_revoke at.now id sv.accounts))
  business at s sv (cmd_session_abort id) =
      guarded sv (require_role s admin) (on_storage sv (abort_session at.now id sv.db))

  -- The default branch of `handle`: nothing is done for a client that is not authenticated.
  unfoldable pub dispatch : Surroundings → ClientSession → Service → Command → Reply
  dispatch at s sv c =
      if not s.authenticated then (thrown e_unauthenticated, sv) else business at s sv c
