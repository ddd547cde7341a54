-- ===== src/Storage/Histories/Lifecycle/Served.antt =====
-- src/storage/fr_storage.cpp: every sequence of calls moves the sessions by steps of the state machine.
use forgerelay.Prelude.{
  Bool, List, Option-cases, [], arith, find, inl, inr, keep, refl, subst, sym, ℕ, ◌∙◌, ◌∷◌, ◌≡◌,
}
use forgerelay.Storage.{ChunkRow, Db, SessionInfo, StorageConfig}
use forgerelay.Storage.Histories.{
  Request, asked_abort, asked_collect, asked_commit, asked_create, asked_delete, asked_maintain,
  asked_put, serve, serve_all,
}
use forgerelay.Storage.Histories.Lifecycle.{
  SessionSteps, SessionSteps-append, no_step, one_step, step_and, step_recovered, step_swept,
}
use forgerelay.Storage.Histories.Lifecycle.Calls.{abort-steps, create-steps, put-steps}
use forgerelay.Storage.Histories.Lifecycle.Commits.{commit-steps}
use forgerelay.Storage.Sessions.Commit.{is_named}
use forgerelay.Storage.Tables.{update_rows}
use forgerelay.Storage.Tables.References.{mark_digests-same, mark_unreferenced_parts-same}
use forgerelay.Storage.Upkeep.{
  GcReport, collect_garbage, collect_loop, collect_one, delete_artifact, expire_row, is_stopped,
  mark_sessions, roll_back_row, run_maintenance,
}

delete-sessions :
    (now : ℕ) (ns name version : List ℕ) (db : Db)
    → (delete_artifact now ns name version db).1.sessions ≡ db.sessions
unfolding delete_artifact
delete-sessions now ns name version db =
    elim (Option-cases (find (is_named ns name version) db.artifacts)) [
      | inl gone ↦ rw (delete_artifact, gone) refl
      | inr (a, found) ↦ rw (delete_artifact, found) (mark_digests-same now _ _).0
    ]

collect_one-sessions :
    (grace now : ℕ) (dry_run : Bool) (r : ChunkRow) (at : ℕ) (report : GcReport) (db : Db)
    → (collect_one grace now dry_run (r, at) (report, db)).1.sessions ≡ db.sessions
unfolding collect_one
collect_one-sessions grace now dry_run r at report db = ground arith

collect_loop-sessions :
    (grace now : ℕ) (dry_run : Bool) (cs : List (ChunkRow × ℕ)) (report : GcReport) (db : Db)
    → (collect_loop grace now dry_run cs (report, db)).1.sessions ≡ db.sessions
unfolding collect_loop
collect_loop-sessions grace now dry_run [] report db = refl
collect_loop-sessions grace now dry_run ((r, at) ∷ cs) report db =
    let (report', db') = collect_one grace now dry_run (r, at) (report, db) in
    collect_loop-sessions grace now dry_run cs report' db'
    ∙ collect_one-sessions grace now dry_run r at report db

mark_sessions-sessions :
    (now : ℕ) (ss : List SessionInfo) (db : Db) → (mark_sessions now ss db).sessions ≡ db.sessions
mark_sessions-sessions now [] db = refl
mark_sessions-sessions now (i ∷ ss) db =
    mark_sessions-sessions now ss _ ∙ (mark_unreferenced_parts-same i.id now db).0

maintain-steps :
    {room : ℕ → Bool}
    → (now : ℕ) (db : Db) → SessionSteps room db.sessions (run_maintenance now db).1.sessions
unfolding run_maintenance
maintain-steps {room} now db =
    let sessions = update_rows roll_back_row (update_rows (expire_row now) db.sessions) in
    subst (SessionSteps room db.sessions)
      (sym
        (mark_sessions-sessions now (keep is_stopped sessions) (record db { sessions = sessions })))
      (step_and (step_swept now) (one_step step_recovered))

module _ (hash : List ℕ → List ℕ) (room : ℕ → Bool) (cfg : StorageConfig) where
  pub serve-SessionSteps :
      (r : Request) (db : Db) → SessionSteps room db.sessions (serve hash room cfg db r).sessions
  unfolding collect_garbage
  serve-SessionSteps (asked_create now id ns name version size digest owner) db =
      create-steps cfg now id ns name version size digest owner db
  serve-SessionSteps (asked_put now id ordinal content) db =
      put-steps hash now id ordinal content db
  serve-SessionSteps (asked_commit now id) db = commit-steps hash room now id db
  serve-SessionSteps (asked_abort now id) db = abort-steps now id db
  serve-SessionSteps (asked_delete now ns name version) db =
      rw (delete-sessions now ns name version db) no_step
  serve-SessionSteps (asked_collect now dry_run) db =
      rw (collect_loop-sessions cfg.gc_grace_seconds now dry_run _ _ db) no_step
  serve-SessionSteps (asked_maintain now) db = maintain-steps now db

  -- Every sequence of calls changes the sessions by steps of the session state machine alone: a
  -- new open session with an id that is not taken, an expiry, an abort of a live session, a
  -- commit of an open one, a commit that is rolled back, a commit that ends in COMMITTING, of a
  -- session that has an open row and a manifest that memory has no room for, and the sweep and
  -- the recovery of maintenance.
  pub serve_all-SessionSteps :
      (rs : List Request) (db : Db)
      → SessionSteps room db.sessions (serve_all hash room cfg db rs).sessions
  serve_all-SessionSteps [] db = no_step
  serve_all-SessionSteps (r ∷ rs) db =
      SessionSteps-append _ _ _ (serve-SessionSteps r db)
        (serve_all-SessionSteps rs (serve hash room cfg db r))
