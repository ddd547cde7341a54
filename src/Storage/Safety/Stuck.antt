-- ===== src/Storage/Safety/Stuck.antt =====
-- src/storage/fr_storage.cpp: `Storage::commit_session` where memory has no room for the manifest.
use forgerelay.Prelude.{
  Bool, List, [], any, ap, arith, false, find, find-any, leb, refl, same_text→≡, some, subst, sym,
  true, ℕ, ◌&&◌, ◌∙◌, ◌∷◌, ◌≡◌,
}
use forgerelay.Core.Status.{e_internal, e_state}
use forgerelay.Messages.Fields.{thrown}
use forgerelay.Storage.{Db, SessionInfo, committing, expired, opened}
use forgerelay.Storage.Sessions.{chunk_count, put_chunk, put_chunk_into, reload_and_put}
use forgerelay.Storage.Sessions.Commit.{
  commit_expired, commit_loaded, commit_refused, commit_session,
}
use forgerelay.Storage.Tables.{
  expire_session_if_due, has_id, load_session, move_state, same_state, transition, transits,
  update_rows,
}
use forgerelay.Storage.Tables.References.{find-moved}

none_opened :
    (id : List ℕ) (ss : List SessionInfo)
    → any
        (λ s. has_id id s && same_state s.state opened)
        (update_rows (move_state id opened committing) ss)
      ≡ false
none_opened id [] = refl
none_opened id (s ∷ ss) = ground (arith, none_opened id ss)

expire-committing :
    (j : SessionInfo) (now : ℕ) (db : Db)
    → same_state j.state opened ≡ false
    → expire_session_if_due j now db ≡ db
unfolding expire_session_if_due
expire-committing j now db h = rw h refl

module _ (hash : List ℕ → List ℕ) (room : ℕ → Bool) where
  put_chunk-committing :
      (now : ℕ) (id : List ℕ) (ordinal : ℕ) (content : List ℕ) (db : Db) (j : SessionInfo)
      → load_session id db ≡ some j
      → j.state ≡ committing
      → put_chunk hash now id ordinal content db ≡ (thrown e_state, db)
  unfolding put_chunk reload_and_put put_chunk_into expire_session_if_due
  put_chunk-committing now id ordinal content db j found moving =
      let opened_no : same_state j.state opened ≡ false = ap (λ t. same_state t opened) moving in
      let expired_no : same_state j.state expired ≡ false = ap (λ t. same_state t expired) moving in
      rw (put_chunk, found, opened_no, reload_and_put, found, expired_no, opened_no) refl

  commit-committing :
      (now : ℕ) (id : List ℕ) (db : Db) (j : SessionInfo)
      → load_session id db ≡ some j
      → j.state ≡ committing
      → transits id opened db ≡ false
      → commit_session hash room now id db ≡ (thrown e_state, db)
  unfolding commit_session commit_expired commit_refused load_session transits
  commit-committing now id db j found moving none_open =
      let opened_no : same_state j.state opened ≡ false = ap (λ t. same_state t opened) moving in
      let expired_no : same_state j.state expired ≡ false = ap (λ t. same_state t expired) moving in
      let same : j.id ≡ id = same_text→≡ j.id id (find-any (has_id id) db.sessions j found).0 in
      let none_open' : transits j.id opened db ≡ false =
        subst (λ t. transits t opened db ≡ false) (sym same) none_open in
      let found' : load_session j.id db ≡ some j =
        subst (λ t. load_session t db ≡ some j) (sym same) found in
      rw (commit_session, found)
        (subst (λ d. commit_expired hash room now j d ≡ (thrown e_state, db))
          (sym (expire-committing j now db opened_no))
          (rw (commit_expired, none_open', commit_refused, found', expired_no) refl))

  commit-moved :
      (now : ℕ) (id : List ℕ) (db : Db) (i : SessionInfo)
      → load_session id db ≡ some i
      → i.state ≡ opened
      → leb i.expires_at now ≡ false
      → room (chunk_count i) ≡ false
      → commit_session hash room now id db ≡ (thrown e_internal, transition id opened committing db)
  unfolding commit_session commit_expired commit_loaded expire_session_if_due load_session transits
  commit-moved now id db i found is_open early full =
      let opened_yes : same_state i.state opened ≡ true = ap (λ t. same_state t opened) is_open in
      let same : i.id ≡ id = same_text→≡ i.id id (find-any (has_id id) db.sessions i found).0 in
      let moves : transits i.id opened db ≡ true =
        subst (λ t. transits t opened db ≡ true) (sym same)
          (any_found id i db.sessions found opened_yes) in
      subst
        (λ t.
          commit_session hash room now id db
          ≡ (thrown e_internal, transition t opened committing db))
        same
        (rw (commit_session, found, early, opened_yes, commit_expired, moves, commit_loaded, full)
          refl)
    where
      any_found :
          (id : List ℕ) (i : SessionInfo) (ss : List SessionInfo)
          → find (has_id id) ss ≡ some i
          → same_state i.state opened ≡ true
          → any (λ s. has_id id s && same_state s.state opened) ss ≡ true
      any_found id i [] found h = cc found
      any_found id i (s ∷ ss) found h = grind (arith, found, h, any_found id i ss)

  -- Where a session is OPEN and not due and memory has no room for a manifest of its number of
  -- chunks, a commit of it answers FR_E_INTERNAL and leaves it COMMITTING, with the rest of it as
  -- it was; a chunk that is put next, at any time, and a commit that is tried next, answer
  -- FR_E_STATE and change nothing.
  pub commit_session-stuck :
      (now later : ℕ) (id : List ℕ) (ordinal : ℕ) (content : List ℕ) (db : Db) (i : SessionInfo)
      → load_session id db ≡ some i
      → i.state ≡ opened
      → leb i.expires_at now ≡ false
      → room (chunk_count i) ≡ false
      → let (result, db') = commit_session hash room now id db in
        (result ≡ thrown e_internal)
        × (load_session id db' ≡ some (record i { state = committing }))
        × (put_chunk hash later id ordinal content db' ≡ (thrown e_state, db'))
        × (commit_session hash room later id db' ≡ (thrown e_state, db'))
  unfolding load_session transition transits
  commit_session-stuck now later id ordinal content db i found is_open early full =
      let opened_yes : same_state i.state opened ≡ true = ap (λ t. same_state t opened) is_open in
      let j : SessionInfo = record i { state = committing } in
      let stays_there = commit-moved now id db i found is_open early full in
      let there : load_session id (transition id opened committing db) ≡ some j =
        find-moved id opened committing db.sessions i found
        ∙ ap some (rw ((find-any (has_id id) db.sessions i found).0, opened_yes) refl) in
      let closed = none_opened id db.sessions in
      rw stays_there (
        refl,
        there,
        put_chunk-committing later id ordinal content (transition id opened committing db) j there
            refl,
        commit-committing later id (transition id opened committing db) j there refl closed,
      )
