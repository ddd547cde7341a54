-- ===== src/Storage/Safety/Sessions.antt =====
-- src/storage/fr_storage.cpp: a session that is created, filled with a chunk or aborted keeps the
-- tables and the files safe.
use forgerelay.Prelude.{
  All-append, All-map, All-of, Bool-cases, List, Option, Option-cases, [], any, any-All, any-append,
  arith, false, find, find-any, inl, inr, leb, length, ltb, none, refl, same_text, same_text→≡,
  some, subst, sym, true, ℕ, ◌&&◌, ◌++◌, ◌==◌, ◌||◌, ◌∙◌, ◌∷◌, ◌≡◌,
}
use forgerelay.Storage.{Db, SessionInfo, StorageConfig, UploadPart, aborted, expired, opened}
use forgerelay.Storage.Safety.{
  IsIntact, Kept, Safe, Safe-expire_session_if_due, Safe-fewer, Safe-mark_unreferenced_parts,
  Safe-transition,
}
use forgerelay.Storage.Safety.Files.{
  contents_of_mono, find-put_file, has_active-put, has_active-put_row, has_file-put,
  has_file-put_file,
}
use forgerelay.Storage.Sessions.{
  abort_session, at_ordinal, chunk_count, create_session, open_of, put_chunk, put_chunk_into,
  put_file, put_row, register_part, reload_and_put, used_bytes, valid_request, watermark,
}
use forgerelay.Storage.Tables.{
  chunk_referenced, count_rows, expire_session_if_due, file_has, has_id, is_live, load_session,
  part_live, same_state,
}
use forgerelay.Storage.Tables.References.{has_file}

pub loaded_id :
    (id : List ℕ) (db : Db) (i : SessionInfo)
    → load_session id db ≡ some i
    → any (has_id i.id) db.sessions ≡ true
unfolding load_session
loaded_id id db i h =
    let (same, there) = find-any (has_id id) db.sessions i h in
    subst (λ t. any (has_id t) db.sessions ≡ true) (sym (same_text→≡ i.id id same)) there

module _ {hash : List ℕ → List ℕ} where
  -- A file under the digest of its content.
  Safe-file :
      (content : List ℕ) (db : Db)
      → Safe hash db
      → Safe hash (record db { files = put_file (hash content) content db.files })
  unfolding put_file
  Safe-file content db s = record {
    kept = λ d r.
        let (row, file) = s.kept d r in
        (row, has_file-put_file (hash content) d content db.files file);
    sound = elim (Bool-cases (any (file_has (hash content)) db.files)) [
      | inl old ↦ rw old s.sound
      | inr new ↦ rw new (All-append (λ f. hash f.content ≡ f.digest) db.files _ s.sound (refl, tt))
    ];
    intact =
        All-map (IsIntact hash db.files) _ db.artifacts
          (λ a (c, there, eq). (
            c,
            contents_of_mono db.files _ a.chunks c
                (All-of (λ e f. find-put_file (hash content) e.digest content db.files f) a.chunks)
                there,
            eq,
          ))
          s.intact;
    owned = s.owned;
  }

  -- A part of a digest that has its file.
  Safe-part :
      (p : UploadPart) (size : ℕ) (db : Db)
      → has_file p.digest db.files ≡ true
      → any (has_id p.session_id) db.sessions ≡ true
      → Safe hash db
      → Safe hash
          (record db { chunks = put_row p.digest size db.chunks; parts = db.parts ++ p ∷ [] })
  Safe-part p size db file session s = record {
    kept = λ d r. elim (Bool-cases (same_text p.digest d)) [
      | inl same ↦
          subst (λ t. Kept (record db { chunks = put_row p.digest size db.chunks }) t)
            (same_text→≡ p.digest d same) (has_active-put p.digest size db.chunks, file)
      | inr other ↦
          let old : chunk_referenced db d ≡ true =
            ground (arith, r, other, any-append (part_live db.sessions d) db.parts (p ∷ [])) in
          let (row, there) = s.kept d old in
          (has_active-put_row p.digest d size db.chunks row, there)
    ];
    sound = s.sound;
    intact = s.intact;
    owned = All-append _ db.parts (p ∷ []) s.owned (session, tt);
  }

  -- A new session has no part yet.
  Safe-session :
      (i : SessionInfo) (db : Db)
      → any (has_id i.id) db.sessions ≡ false
      → Safe hash db
      → Safe hash (record db { sessions = db.sessions ++ i ∷ [] })
  Safe-session i db free s =
      Safe-fewer db (db.sessions ++ i ∷ []) db.parts db.chunks
        (λ d.
          any-All _ (part_live db.sessions d) db.parts
            (All-map _ _ db.parts (λ p. still_live p d) s.owned))
        (λ d h. h)
        (All-map _ _ db.parts
          (λ p h. any-append (has_id p.session_id) db.sessions (i ∷ []) ∙ ground (arith, h))
          s.owned)
        s
    where
      differ :
          (p : UploadPart)
          → any (has_id p.session_id) db.sessions ≡ true
          → same_text i.id p.session_id ≡ true
          → true ≡ false
      differ p session same =
          subst (λ t. true ≡ any (has_id t) db.sessions) (sym (same_text→≡ i.id p.session_id same))
            (sym session)
          ∙ free

      still_live :
          (p : UploadPart) (d : List ℕ)
          → any (has_id p.session_id) db.sessions ≡ true
          → part_live (db.sessions ++ i ∷ []) d p ≡ true
          → part_live db.sessions d p ≡ true
      still_live p d session h = ground (
        arith,
        h,
        differ p session,
        any-append (λ s. has_id p.session_id s && is_live s) db.sessions (i ∷ []),
      )

  pub Safe-create_session :
      (cfg : StorageConfig) (now : ℕ) (id ns name version : List ℕ) (size : ℕ)
      (digest owner : List ℕ) (db : Db)
      → Safe hash db
      → Safe hash (create_session cfg now id ns name version size digest owner db).1
  unfolding create_session
  Safe-create_session cfg now id ns name version size digest owner db s =
      elim (Bool-cases (valid_request ns name version digest owner)) [
        | inr bad ↦ rw bad s
        | inl good ↦
            elim (Bool-cases
              (leb cfg.max_sessions_per_owner (count_rows (open_of owner) db.sessions))) [
                | inl many ↦ rw (good, many) s
                | inr few ↦ elim (Bool-cases (leb (watermark cfg) (used_bytes db.chunks))) [
                  | inl full ↦ rw (good, few, full) s
                  | inr room ↦ elim (Bool-cases (any (has_id id) db.sessions)) [
                    | inl taken ↦ rw (good, few, room, taken) s
                    | inr free ↦ rw (good, few, room, free) (Safe-session _ db free s)
                  ]
                ]
              ]
      ]

  Safe-register_part :
      (id : List ℕ) (ordinal size : ℕ) (digest : List ℕ) (db : Db) (o : Option UploadPart)
      → has_file digest db.files ≡ true
      → any (has_id id) db.sessions ≡ true
      → Safe hash db
      → Safe hash (register_part id ordinal size digest db o).1
  unfolding register_part
  Safe-register_part id ordinal size digest db (some p) file session s =
      elim (Bool-cases (same_text p.digest digest)) [
        | inl same ↦ rw same s
        | inr other ↦ rw other s
      ]
  Safe-register_part id ordinal size digest db none file session s =
      Safe-part _ size db file session s

  Safe-put_chunk_into :
      (ordinal : ℕ) (content : List ℕ) (db : Db) (i : SessionInfo)
      → any (has_id i.id) db.sessions ≡ true
      → Safe hash db
      → Safe hash (put_chunk_into hash ordinal content db i).1
  unfolding put_chunk_into
  Safe-put_chunk_into ordinal content db i session s =
      elim (Bool-cases (same_state i.state expired)) [
        | inl late ↦ rw late s
        | inr on_time ↦ elim (Bool-cases (same_state i.state opened)) [
          | inr shut ↦ rw (on_time, shut) s
          | inl is_open ↦ elim (Bool-cases (leb (chunk_count i) ordinal)) [
            | inl beyond ↦ rw (on_time, is_open, beyond) s
            | inr within ↦
                elim (Bool-cases (length content == 0 || ltb i.chunk_size (length content))) [
                  | inl bad ↦ rw (on_time, is_open, within, bad) s
                  | inr good ↦
                      rw (on_time, is_open, within, good)
                        (Safe-register_part i.id ordinal (length content) (hash content) _
                          (find (at_ordinal i.id ordinal) db.parts)
                          (has_file-put (hash content) content db.files) session
                          (Safe-file content db s))
                ]
          ]
        ]
      ]

  pub Safe-put_chunk :
      (now : ℕ) (id : List ℕ) (ordinal : ℕ) (content : List ℕ) (db : Db)
      → Safe hash db
      → Safe hash (put_chunk hash now id ordinal content db).1
  unfolding put_chunk reload_and_put
  Safe-put_chunk now id ordinal content db s = elim (Option-cases (load_session id db)) [
    | inl gone ↦ rw (put_chunk, gone) s
    | inr (i, found) ↦
        let late = expire_session_if_due i now db in
        let s' : Safe hash late = Safe-expire_session_if_due i now db s in
        elim (Option-cases (load_session id late)) [
          | inl gone ↦ rw (put_chunk, found, reload_and_put, gone) s'
          | inr (j, reloaded) ↦
              rw (put_chunk, found, reload_and_put, reloaded)
                (Safe-put_chunk_into ordinal content late j (loaded_id id late j reloaded) s')
        ]
  ]

  pub Safe-abort_session :
      (now : ℕ) (id : List ℕ) (db : Db) → Safe hash db → Safe hash (abort_session now id db).1
  unfolding abort_session
  Safe-abort_session now id db s = elim (Option-cases (load_session id db)) [
    | inl gone ↦ rw (abort_session, gone) s
    | inr (i, found) ↦ elim (Bool-cases (is_live i)) [
      | inr dead ↦ rw (abort_session, found, dead) s
      | inl alive ↦
          rw (abort_session, found, alive)
            (Safe-mark_unreferenced_parts id now _
              (Safe-transition id i.state aborted db (λ h. alive) s))
    ]
  ]
