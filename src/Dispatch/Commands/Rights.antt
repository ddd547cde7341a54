-- ===== src/Dispatch/Commands/Rights.antt =====
-- src/service/fr_dispatch.cpp: what a client can bring about, by its role.
use forgerelay.Prelude.{Bool, Bool-cases, List, ap, arith, false, inl, inr, refl, ℕ, ◌≡◌, ◌≢◌}
use forgerelay.Auth.{Role, admin, publisher, reader}
use forgerelay.Dispatch.Commands.{
  Command, Reply, Service, Surroundings, business, cmd_abort_upload, cmd_commit_upload,
  cmd_create_upload, cmd_delete_artifact, cmd_put_chunk, cmd_run_gc, cmd_session_abort,
  cmd_token_create, cmd_token_revoke, cmd_user_add, cmd_user_disable, dispatch, guarded,
  owner_guard,
}
use forgerelay.Dispatch.Guards.{
  ClientSession, require_delete_allowed, require_role, require_session_allowed,
}
use forgerelay.Dispatch.Guards.Matrix.{permits}
use forgerelay.Messages.Fields.{Outcome, done, thrown}
use forgerelay.Storage.{Db, StorageConfig}
use forgerelay.Storage.Safety.{Safe}
use forgerelay.Storage.Safety.Commit.{Safe-commit_session}
use forgerelay.Storage.Safety.Sessions.{Safe-abort_session, Safe-create_session, Safe-put_chunk}
use forgerelay.Storage.Safety.Upkeep.{Safe-collect_garbage, Safe-delete_artifact}

guarded-thrown :
    (sv : Service) (o : Outcome (Unit {0})) (reply : Reply)
    → o ≢ done tt
    → (guarded sv o reply).1 ≡ sv
guarded-thrown sv (thrown st) reply h = refl
guarded-thrown sv (done ok) reply h = absurd (h refl)

guarded-accounts :
    (sv : Service) (o : Outcome (Unit {0})) (reply : Reply)
    → reply.1.accounts ≡ sv.accounts
    → (guarded sv o reply).1.accounts ≡ sv.accounts
guarded-accounts sv (thrown st) reply h = refl
guarded-accounts sv (done ok) reply h = h

guarded-Safe :
    {hash : List ℕ → List ℕ}
    → (sv : Service) (o : Outcome (Unit {0})) (reply : Reply) → Safe hash sv.db
    → Safe hash reply.1.db
    → Safe hash (guarded sv o reply).1.db
guarded-Safe sv (thrown st) reply s h = s
guarded-Safe sv (done ok) reply s h = h

low_role :
    (s : ClientSession) (required : Role)
    → permits s required ≡ false
    → require_role s required ≢ done tt
unfolding require_role
low_role s required low e = grind (arith, low, e)

reader_session :
    (s : ClientSession) (id : List ℕ) (db : Db) → s.role ≡ reader → owner_guard s id db ≢ done tt
unfolding owner_guard require_session_allowed require_role
reader_session s id db low e = grind (arith, low, e)

reader_delete :
    (db : Db) (s : ClientSession) (ns name version : List ℕ)
    → s.role ≡ reader
    → require_delete_allowed db s ns name version ≢ done tt
unfolding require_delete_allowed require_role
reader_delete db s ns name version low e = grind (arith, low, e)

module _ (hash : List ℕ → List ℕ) (room : ℕ → Bool) (cfg : StorageConfig) where
  business-reader :
      (at : Surroundings) (s : ClientSession) (sv : Service) (c : Command)
      → s.role ≡ reader
      → (business hash room cfg at s sv c).1 ≡ sv
  unfolding business
  business-reader at s sv c low = reader_case c
    where
      not_publisher : permits s publisher ≡ false
      not_publisher = grind (arith, low)

      not_admin : permits s admin ≡ false
      not_admin = grind (arith, low)

      reader_case : (c : Command) → (business hash room cfg at s sv c).1 ≡ sv
      reader_case (cmd_create_upload ns name version size digest) =
          guarded-thrown sv _ _ (low_role s publisher not_publisher)
      reader_case (cmd_put_chunk id ordinal content) =
          guarded-thrown sv _ _ (reader_session s id sv.db low)
      reader_case (cmd_commit_upload id) = guarded-thrown sv _ _ (reader_session s id sv.db low)
      reader_case (cmd_abort_upload id) = guarded-thrown sv _ _ (reader_session s id sv.db low)
      reader_case (cmd_delete_artifact ns name version) =
          guarded-thrown sv _ _ (reader_delete sv.db s ns name version low)
      reader_case (cmd_run_gc dry_run) = guarded-thrown sv _ _ (low_role s admin not_admin)
      reader_case (cmd_user_add username role) = guarded-thrown sv _ _ (low_role s admin not_admin)
      reader_case (cmd_user_disable username) = guarded-thrown sv _ _ (low_role s admin not_admin)
      reader_case (cmd_token_create username ttl_hours) =
          guarded-thrown sv _ _ (low_role s admin not_admin)
      reader_case (cmd_token_revoke id) = guarded-thrown sv _ _ (low_role s admin not_admin)
      reader_case (cmd_session_abort id) = guarded-thrown sv _ _ (low_role s admin not_admin)

  -- None of the modelled requests of a client with the role Reader changes the storage or the
  -- registry.
  pub dispatch-reader :
      (at : Surroundings) (s : ClientSession) (sv : Service) (c : Command)
      → s.role ≡ reader
      → (dispatch hash room cfg at s sv c).1 ≡ sv
  unfolding dispatch
  dispatch-reader at s sv c low = elim (Bool-cases s.authenticated) [
    | inr unknown ↦ rw unknown refl
    | inl known ↦ simp known (business-reader at s sv c low)
  ]

  business-accounts :
      (at : Surroundings) (s : ClientSession) (sv : Service) (c : Command)
      → permits s admin ≡ false
      → (business hash room cfg at s sv c).1.accounts ≡ sv.accounts
  unfolding business
  business-accounts at s sv (cmd_create_upload ns name version size digest) low =
      guarded-accounts sv (require_role s publisher) _ refl
  business-accounts at s sv (cmd_put_chunk id ordinal content) low =
      guarded-accounts sv (owner_guard s id sv.db) _ refl
  business-accounts at s sv (cmd_commit_upload id) low =
      guarded-accounts sv (owner_guard s id sv.db) _ refl
  business-accounts at s sv (cmd_abort_upload id) low =
      guarded-accounts sv (owner_guard s id sv.db) _ refl
  business-accounts at s sv (cmd_delete_artifact ns name version) low =
      guarded-accounts sv (require_delete_allowed sv.db s ns name version) _ refl
  business-accounts at s sv (cmd_run_gc dry_run) low =
      guarded-accounts sv (require_role s admin) _ refl
  business-accounts at s sv (cmd_user_add username role) low =
      ap (λ v. v.accounts) (guarded-thrown sv _ _ (low_role s admin low))
  business-accounts at s sv (cmd_user_disable username) low =
      ap (λ v. v.accounts) (guarded-thrown sv _ _ (low_role s admin low))
  business-accounts at s sv (cmd_token_create username ttl_hours) low =
      ap (λ v. v.accounts) (guarded-thrown sv _ _ (low_role s admin low))
  business-accounts at s sv (cmd_token_revoke id) low =
      ap (λ v. v.accounts) (guarded-thrown sv _ _ (low_role s admin low))
  business-accounts at s sv (cmd_session_abort id) low =
      guarded-accounts sv (require_role s admin) _ refl

  -- None of the modelled requests of a client that is not authenticated or not an Admin changes
  -- the users or the tokens.
  pub dispatch-accounts :
      (at : Surroundings) (s : ClientSession) (sv : Service) (c : Command)
      → permits s admin ≡ false
      → (dispatch hash room cfg at s sv c).1.accounts ≡ sv.accounts
  unfolding dispatch
  dispatch-accounts at s sv c low = elim (Bool-cases s.authenticated) [
    | inr unknown ↦ rw unknown refl
    | inl known ↦ simp known (business-accounts at s sv c low)
  ]

  business-Safe :
      (at : Surroundings) (s : ClientSession) (sv : Service) (c : Command)
      → Safe hash sv.db
      → Safe hash (business hash room cfg at s sv c).1.db
  unfolding business
  business-Safe at s sv (cmd_create_upload ns name version size digest) h =
      guarded-Safe sv (require_role s publisher) _ h
        (Safe-create_session cfg at.now at.new_id ns name version size digest s.username sv.db h)
  business-Safe at s sv (cmd_put_chunk id ordinal content) h =
      guarded-Safe sv (owner_guard s id sv.db) _ h
        (Safe-put_chunk at.now id ordinal content sv.db h)
  business-Safe at s sv (cmd_commit_upload id) h =
      guarded-Safe sv (owner_guard s id sv.db) _ h (Safe-commit_session room at.now id sv.db h)
  business-Safe at s sv (cmd_abort_upload id) h =
      guarded-Safe sv (owner_guard s id sv.db) _ h (Safe-abort_session at.now id sv.db h)
  business-Safe at s sv (cmd_delete_artifact ns name version) h =
      guarded-Safe sv (require_delete_allowed sv.db s ns name version) _ h
        (Safe-delete_artifact at.now ns name version sv.db h)
  business-Safe at s sv (cmd_run_gc dry_run) h =
      guarded-Safe sv (require_role s admin) _ h
        (Safe-collect_garbage cfg.gc_grace_seconds at.now dry_run sv.db h)
  business-Safe at s sv (cmd_user_add username role) h =
      guarded-Safe sv (require_role s admin) _ h h
  business-Safe at s sv (cmd_user_disable username) h = guarded-Safe sv (require_role s admin) _ h h
  business-Safe at s sv (cmd_token_create username ttl_hours) h =
      guarded-Safe sv (require_role s admin) _ h h
  business-Safe at s sv (cmd_token_revoke id) h = guarded-Safe sv (require_role s admin) _ h h
  business-Safe at s sv (cmd_session_abort id) h =
      guarded-Safe sv (require_role s admin) _ h (Safe-abort_session at.now id sv.db h)

  -- Where, before any of the modelled requests, of any client, the chunks that are referred to
  -- are kept, every file holds what its digest says, every artifact is whole and every part has
  -- its session, so it is after the request.
  pub dispatch-Safe :
      (at : Surroundings) (s : ClientSession) (sv : Service) (c : Command)
      → Safe hash sv.db
      → Safe hash (dispatch hash room cfg at s sv c).1.db
  unfolding dispatch
  dispatch-Safe at s sv c h = elim (Bool-cases s.authenticated) [
    | inr unknown ↦ rw unknown h
    | inl known ↦ simp known (business-Safe at s sv c h)
  ]
