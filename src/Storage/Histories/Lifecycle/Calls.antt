-- ===== src/Storage/Histories/Lifecycle/Calls.antt =====
-- src/storage/fr_storage.cpp: every call moves the sessions by steps of the state machine.
use forgerelay.Prelude.{
  Bool, Bool-cases, List, Option, Option-cases, any, find, inl, inr, leb, length, ltb, none, refl,
  same_text, some, ℕ, ◌&&◌, ◌==◌, ◌||◌, ◌≡◌,
}
use forgerelay.Storage.{Db, SessionInfo, StorageConfig, UploadPart, aborted, expired, opened}
use forgerelay.Storage.Histories.Lifecycle.{
  SessionSteps, no_step, one_step, step_aborted, step_created, step_expired,
}
use forgerelay.Storage.Sessions.{
  abort_session, at_ordinal, chunk_count, create_session, open_of, put_chunk, put_chunk_into,
  register_part, reload_and_put, used_bytes, valid_request, watermark,
}
use forgerelay.Storage.Tables.{
  count_rows, expire_session_if_due, has_id, is_live, load_session, same_state, transition,
}
use forgerelay.Storage.Tables.References.{mark_unreferenced_parts-same}

pub expire-steps :
    {room : ℕ → Bool}
    → (i : SessionInfo) (now : ℕ) (db : Db)
    → SessionSteps room db.sessions (expire_session_if_due i now db).sessions
unfolding expire_session_if_due transition
expire-steps i now db = elim (Bool-cases (same_state i.state opened && leb i.expires_at now)) [
  | inr early ↦ rw early no_step
  | inl due ↦
      rw (due, (mark_unreferenced_parts-same i.id now (transition i.id opened expired db)).0)
        (one_step (step_expired i.id))
]

pub create-steps :
    {room : ℕ → Bool}
    → (cfg : StorageConfig) (now : ℕ) (id ns name version : List ℕ) (size : ℕ)
      (digest owner : List ℕ) (db : Db)
    → SessionSteps room db.sessions
        (create_session cfg now id ns name version size digest owner db).1.sessions
unfolding create_session
create-steps cfg now id ns name version size digest owner db =
    elim (Bool-cases (valid_request ns name version digest owner)) [
      | inr bad ↦ rw bad no_step
      | inl good ↦
          elim (Bool-cases
            (leb cfg.max_sessions_per_owner (count_rows (open_of owner) db.sessions))) [
              | inl many ↦ rw (good, many) no_step
              | inr few ↦ elim (Bool-cases (leb (watermark cfg) (used_bytes db.chunks))) [
                | inl full ↦ rw (good, few, full) no_step
                | inr room ↦ elim (Bool-cases (any (has_id id) db.sessions)) [
                  | inl taken ↦ rw (good, few, room, taken) no_step
                  | inr free ↦ rw (good, few, room, free) (one_step (step_created _ refl free))
                ]
              ]
            ]
    ]

register_part-sessions :
    (id : List ℕ) (ordinal size : ℕ) (digest : List ℕ) (db : Db) (o : Option UploadPart)
    → (register_part id ordinal size digest db o).1.sessions ≡ db.sessions
unfolding register_part
register_part-sessions id ordinal size digest db none = refl
register_part-sessions id ordinal size digest db (some p) =
    elim (Bool-cases (same_text p.digest digest)) [
      | inl same ↦ rw same refl
      | inr other ↦ rw other refl
    ]

pub abort-steps :
    {room : ℕ → Bool}
    → (now : ℕ) (id : List ℕ) (db : Db)
    → SessionSteps room db.sessions (abort_session now id db).1.sessions
unfolding abort_session transition
abort-steps now id db = elim (Option-cases (load_session id db)) [
  | inl gone ↦ rw (abort_session, gone) no_step
  | inr (i, found) ↦ elim (Bool-cases (is_live i)) [
    | inr dead ↦ rw (abort_session, found, dead) no_step
    | inl alive ↦
        rw
          (
            abort_session,
            found,
            alive,
            (mark_unreferenced_parts-same id now (transition id i.state aborted db)).0,
          )
          (one_step (step_aborted id i.state alive))
  ]
]

module _ (hash : List ℕ → List ℕ) where
  put_into-sessions :
      (ordinal : ℕ) (content : List ℕ) (db : Db) (i : SessionInfo)
      → (put_chunk_into hash ordinal content db i).1.sessions ≡ db.sessions
  unfolding put_chunk_into
  put_into-sessions ordinal content db i = elim (Bool-cases (same_state i.state expired)) [
    | inl late ↦ rw late refl
    | inr on_time ↦ elim (Bool-cases (same_state i.state opened)) [
      | inr shut ↦ rw (on_time, shut) refl
      | inl is_open ↦ elim (Bool-cases (leb (chunk_count i) ordinal)) [
        | inl beyond ↦ rw (on_time, is_open, beyond) refl
        | inr within ↦
            elim (Bool-cases (length content == 0 || ltb i.chunk_size (length content))) [
              | inl bad ↦ rw (on_time, is_open, within, bad) refl
              | inr good ↦
                  rw (on_time, is_open, within, good)
                    (register_part-sessions i.id ordinal (length content) (hash content) _
                      (find (at_ordinal i.id ordinal) db.parts))
            ]
      ]
    ]
  ]

  pub put-steps :
      {room : ℕ → Bool}
      → (now : ℕ) (id : List ℕ) (ordinal : ℕ) (content : List ℕ) (db : Db)
      → SessionSteps room db.sessions (put_chunk hash now id ordinal content db).1.sessions
  unfolding put_chunk reload_and_put
  put-steps now id ordinal content db = elim (Option-cases (load_session id db)) [
    | inl gone ↦ rw (put_chunk, gone) no_step
    | inr (i, found) ↦
        let late = expire_session_if_due i now db in
        elim (Option-cases (load_session id late)) [
          | inl gone ↦ rw (put_chunk, found, reload_and_put, gone) (expire-steps i now db)
          | inr (j, reloaded) ↦
              rw
                (
                  put_chunk,
                  found,
                  reload_and_put,
                  reloaded,
                  put_into-sessions ordinal content late j,
                )
                (expire-steps i now db)
        ]
  ]
