-- ===== src/Storage/Histories/Lifecycle/Commits.antt =====
-- src/storage/fr_storage.cpp: a commit moves the sessions by steps of the state machine.
-- A commit that has begun completes the session or moves it back.
use forgerelay.Prelude.{
  Bool, Bool-cases, List, Option, Option-cases, any, ap, arith, find, find-any, inl, inr, leb,
  length, none, refl, same_text, same_text→≡, some, subst, sym, true, ℕ, ◌&&◌, ◌==◌, ◌∙◌, ◌≡◌,
}
use forgerelay.Messages.Listing.{ManifestEntry}
use forgerelay.Storage.{Db, SessionInfo, committing, expired, opened}
use forgerelay.Storage.Histories.Lifecycle.{
  SessionSteps, SessionSteps-append, no_step, one_step, step_committed, step_rolled_back,
  step_stuck,
}
use forgerelay.Storage.Histories.Lifecycle.Calls.{expire-steps}
use forgerelay.Storage.Sessions.{chunk_count}
use forgerelay.Storage.Sessions.Commit.{
  Built, check_content, check_manifest, commit_expired, commit_loaded, commit_refused,
  commit_session, complete, contents_of, is_named, publish, roll_back,
}
use forgerelay.Storage.Tables.{
  expire_session_if_due, has_id, load_session, move_state, same_state, transition, transits,
  update_rows,
}
use forgerelay.Storage.Tables.References.{find-moved, mark_unreferenced_parts-same}

data Settled (id : List ℕ) (db : Db) : List SessionInfo → Type 0 where
  settled_completed : Settled id db (update_rows (complete id) db.sessions)
  settled_back : Settled id db (update_rows (move_state id committing opened) db.sessions)

module _ (hash : List ℕ → List ℕ) where
  check_content-Settled :
      (now : ℕ) (i : SessionInfo) (m : List ManifestEntry) (db : Db) (o : Option (List ℕ))
      → Settled i.id db (check_content hash now i m db o).1.sessions
  unfolding check_content publish roll_back transition
  check_content-Settled now i m db none = settled_back
  check_content-Settled now i m db (some content) =
      elim (Bool-cases (same_text (hash content) i.expected_digest)) [
        | inr other ↦ rw other settled_back
        | inl same ↦ elim (Bool-cases (any (is_named i.ns i.name i.version) db.artifacts)) [
          | inl taken ↦ rw (same, taken) settled_back
          | inr free ↦ rw (same, free) settled_completed
        ]
      ]

  check_manifest-Settled :
      (now : ℕ) (i : SessionInfo) (db : Db) (o : Option Built)
      → Settled i.id db (check_manifest hash now i db o).1.sessions
  unfolding check_manifest roll_back transition
  check_manifest-Settled now i db none = settled_back
  check_manifest-Settled now i db (some b) =
      elim (Bool-cases (length b.manifest == chunk_count i)) [
        | inr few ↦ rw few settled_back
        | inl all_there ↦ elim (Bool-cases (b.total == i.expected_size)) [
          | inr other ↦ rw (all_there, other) settled_back
          | inl same ↦
              rw (all_there, same)
                (check_content-Settled now i b.manifest db (contents_of db.files b.manifest))
        ]
      ]

commit_refused-sessions : (id : List ℕ) (db : Db) → (commit_refused id db).1 ≡ db
unfolding commit_refused
commit_refused-sessions id db = elim (Option-cases (load_session id db)) [
  | inl gone ↦ rw (commit_refused, gone) refl
  | inr (i, found) ↦ elim (Bool-cases (same_state i.state expired)) [
    | inl late ↦ rw (commit_refused, found, late) refl
    | inr other ↦ rw (commit_refused, found, other) refl
  ]
]

Settled-steps :
    {room : ℕ → Bool}
    → (id : List ℕ) (db : Db) (ss : List SessionInfo) → transits id opened db ≡ true
    → Settled id (transition id opened committing db) ss
    → SessionSteps room db.sessions ss
unfolding transits transition
Settled-steps id db ss moves settled_completed = one_step (step_committed id moves)
Settled-steps id db ss moves settled_back = one_step (step_rolled_back id)

-- The session of the id has the number of chunks that it was loaded with.
abbrev Counts : SessionInfo → Db → Type 0
Counts i db =
    (j : SessionInfo) × (find (has_id i.id) db.sessions ≡ some j) × (chunk_count j ≡ chunk_count i)

Counts-expire :
    (i : SessionInfo) (now : ℕ) (db : Db)
    → find (has_id i.id) db.sessions ≡ some i
    → Counts i (expire_session_if_due i now db)
unfolding expire_session_if_due transition chunk_count
Counts-expire i now db found =
    elim (Bool-cases (same_state i.state opened && leb i.expires_at now)) [
      | inr early ↦ rw early (i, found, refl)
      | inl due ↦
          rw (due, (mark_unreferenced_parts-same i.id now (transition i.id opened expired db)).0)
            (
              move_state i.id opened expired i,
              find-moved i.id opened expired db.sessions i found,
              ground arith,
            )
    ]

module _ (hash : List ℕ → List ℕ) (room : ℕ → Bool) where
  commit_expired-steps :
      (now : ℕ) (i : SessionInfo) (db : Db)
      → Counts i db
      → SessionSteps room db.sessions (commit_expired hash room now i db).1.sessions
  unfolding commit_expired commit_loaded transits transition
  commit_expired-steps now i db (j, found, counted) = elim (Bool-cases (transits i.id opened db)) [
    | inr stays ↦ rw (commit_expired, stays, commit_refused-sessions i.id db) no_step
    | inl moves ↦ elim (Bool-cases (room (chunk_count i))) [
      | inr full ↦
          rw (commit_expired, moves, commit_loaded, full)
            (one_step (step_stuck i.id j found moves (ap room counted ∙ full)))
      | inl fits ↦
          rw (commit_expired, moves, commit_loaded, fits)
            (Settled-steps i.id db _ moves
              (check_manifest-Settled hash now i (transition i.id opened committing db) _))
    ]
  ]

  pub commit-steps :
      (now : ℕ) (id : List ℕ) (db : Db)
      → SessionSteps room db.sessions (commit_session hash room now id db).1.sessions
  unfolding commit_session load_session
  commit-steps now id db = elim (Option-cases (load_session id db)) [
    | inl gone ↦ rw (commit_session, gone) no_step
    | inr (i, found) ↦
        let same : i.id ≡ id = same_text→≡ i.id id (find-any (has_id id) db.sessions i found).0 in
        rw (commit_session, found)
          (SessionSteps-append _ _ _ (expire-steps i now db) (
            commit_expired-steps now i (expire_session_if_due i now db) (
              Counts-expire i now db
                (subst (λ t. find (has_id t) db.sessions ≡ some i) (sym same) found))))
  ]
