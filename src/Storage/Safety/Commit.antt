-- ===== src/Storage/Safety/Commit.antt =====
-- src/storage/fr_storage.cpp: a commit keeps the tables and the files safe, whatever its result.
use forgerelay.Prelude.{
  All-append, Bool, Bool-cases, List, Option, Option-cases, [], any, any-append, arith, inl, inr,
  length, none, refl, same_text, same_text→≡, some, true, ℕ, ◌++◌, ◌==◌, ◌∷◌, ◌≡◌,
}
use forgerelay.Core.Status.{Status, e_conflict, e_exists, e_notfound, e_state}
use forgerelay.Messages.Listing.{ManifestEntry}
use forgerelay.Storage.{ChunkRow, Db, SessionInfo, committing, expired, opened}
use forgerelay.Storage.Safety.{Owned-update, Safe, Safe-expire_session_if_due, Safe-transition}
use forgerelay.Storage.Safety.Manifest.{manifest_referenced}
use forgerelay.Storage.Sessions.{chunk_count}
use forgerelay.Storage.Sessions.Commit.{
  Built, activate_entries, artifact_of, check_content, check_manifest, commit_expired,
  commit_loaded, commit_refused, commit_session, complete, contents_of, is_named, publish,
  roll_back,
}
use forgerelay.Storage.Tables.{
  artifact_has, chunk_referenced, entry_has, expire_session_if_due, load_session, same_state,
  transition, transits, update_rows,
}
use forgerelay.Storage.Tables.References.{Tames, has_active, has_active-activate, parts_live-update}

has_active-activate_entries :
    (e : List ℕ) (es : List ManifestEntry) (rows : List ChunkRow)
    → has_active e rows ≡ true
    → has_active e (activate_entries es rows) ≡ true
has_active-activate_entries e [] rows h = h
has_active-activate_entries e (m ∷ es) rows h =
    has_active-activate_entries e es _ (has_active-activate m.digest e rows h)

complete-Tames : (id : List ℕ) → Tames (complete id)
complete-Tames id = record { same_id = λ s. ground arith; not_revived = λ s k. ground (arith, k) }

module _ {hash : List ℕ → List ℕ} where
  Safe-roll_back :
      (id : List ℕ) (st : Status) (db : Db) → Safe hash db → Safe hash (roll_back id st db).1
  unfolding roll_back
  Safe-roll_back id st db s = Safe-transition id committing opened db (λ h. refl) s

  -- A published artifact whose chunks are referred to and whose content has its digest.
  Safe-published :
      (now : ℕ) (i : SessionInfo) (manifest : List ManifestEntry) (content : List ℕ) (db : Db)
      → ((d : List ℕ) → any (entry_has d) manifest ≡ true → chunk_referenced db d ≡ true)
      → contents_of db.files manifest ≡ some content
      → hash content ≡ i.expected_digest
      → Safe hash db
      → Safe hash (record db {
        artifacts = db.artifacts ++ artifact_of now i manifest ∷ [];
        chunks = activate_entries manifest db.chunks;
        sessions = update_rows (complete i.id) db.sessions;
      })
  unfolding artifact_of
  Safe-published now i manifest content db refers there eq s = record {
    kept = λ d r.
        let old : chunk_referenced db d ≡ true = ground (
          arith,
          r,
          refers d,
          any-append (artifact_has d) db.artifacts (artifact_of now i manifest ∷ []),
          parts_live-update (complete i.id) (complete-Tames i.id) db.sessions d db.parts,
        ) in
        let (row, file) = s.kept d old in
        (has_active-activate_entries d manifest db.chunks row, file);
    sound = s.sound;
    intact = All-append _ db.artifacts _ s.intact ((content, there, eq), tt);
    owned = Owned-update (complete i.id) (complete-Tames i.id) db.sessions db.parts s.owned;
  }

  Safe-check_content :
      (now : ℕ) (i : SessionInfo) (manifest : List ManifestEntry) (db : Db)
      → ((d : List ℕ) → any (entry_has d) manifest ≡ true → chunk_referenced db d ≡ true)
      → Safe hash db
      → Safe hash (check_content hash now i manifest db (contents_of db.files manifest)).1
  unfolding check_content publish
  Safe-check_content now i manifest db refers s =
      elim (Option-cases (contents_of db.files manifest)) [
        | inl lost ↦ rw lost (Safe-roll_back i.id e_notfound db s)
        | inr (content, there) ↦ elim (Bool-cases (same_text (hash content) i.expected_digest)) [
          | inr other ↦ rw (there, other) (Safe-roll_back i.id e_conflict db s)
          | inl same ↦ elim (Bool-cases (any (is_named i.ns i.name i.version) db.artifacts)) [
            | inl taken ↦ rw (there, same, taken) (Safe-roll_back i.id e_exists db s)
            | inr free ↦
                rw (there, same, free)
                  (Safe-published now i manifest content db refers there
                    (same_text→≡ (hash content) i.expected_digest same) s)
          ]
        ]
      ]

  Safe-check_manifest :
      (now : ℕ) (i : SessionInfo) (db : Db) (o : Option Built)
      → ((b : Built)
          → o ≡ some b
          → (d : List ℕ) → any (entry_has d) b.manifest ≡ true
          → chunk_referenced db d ≡ true)
      → Safe hash db
      → Safe hash (check_manifest hash now i db o).1
  unfolding check_manifest
  Safe-check_manifest now i db none refers s = Safe-roll_back i.id e_state db s
  Safe-check_manifest now i db (some b) refers s =
      elim (Bool-cases (length b.manifest == chunk_count i)) [
        | inr few ↦ rw few (Safe-roll_back i.id e_state db s)
        | inl all_there ↦ elim (Bool-cases (b.total == i.expected_size)) [
          | inr other ↦ rw (all_there, other) (Safe-roll_back i.id e_state db s)
          | inl same ↦
              rw (all_there, same) (Safe-check_content now i b.manifest db (refers b refl) s)
        ]
      ]

  Safe-commit_refused : (id : List ℕ) (db : Db) → Safe hash db → Safe hash (commit_refused id db).1
  unfolding commit_refused
  Safe-commit_refused id db s = elim (Option-cases (load_session id db)) [
    | inl gone ↦ rw (commit_refused, gone) s
    | inr (i, found) ↦ elim (Bool-cases (same_state i.state expired)) [
      | inl late ↦ rw (commit_refused, found, late) s
      | inr other ↦ rw (commit_refused, found, other) s
    ]
  ]

  Safe-commit_loaded :
      (room : ℕ → Bool) (now : ℕ) (i : SessionInfo) (late : Db)
      → transits i.id opened late ≡ true
      → Safe hash late
      → Safe hash (commit_loaded hash room now i (transition i.id opened committing late)).1
  unfolding commit_loaded transition
  Safe-commit_loaded room now i late moves s =
      let s' = Safe-transition i.id opened committing late (λ h. refl) s in
      elim (Bool-cases (room (chunk_count i))) [
        | inr full ↦ rw full s'
        | inl fits ↦ rw fits (
            Safe-check_manifest now i (transition i.id opened committing late) _
              (λ b built d. manifest_referenced d i.id i.chunk_size late b moves built) s')
      ]

  pub Safe-commit_session :
      (room : ℕ → Bool) (now : ℕ) (id : List ℕ) (db : Db)
      → Safe hash db
      → Safe hash (commit_session hash room now id db).1
  unfolding commit_session commit_expired
  Safe-commit_session room now id db s = elim (Option-cases (load_session id db)) [
    | inl gone ↦ rw (commit_session, gone) s
    | inr (i, found) ↦
        let late = expire_session_if_due i now db in
        let s' : Safe hash late = Safe-expire_session_if_due i now db s in
        elim (Bool-cases (transits i.id opened late)) [
          | inr stays ↦
              rw (commit_session, found, commit_expired, stays) (Safe-commit_refused i.id late s')
          | inl moves ↦
              rw (commit_session, found, commit_expired, moves)
                (Safe-commit_loaded room now i late moves s')
        ]
  ]
