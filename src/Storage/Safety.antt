-- ===== src/Storage/Safety.antt =====
-- src/storage/fr_storage.cpp: what holds of the tables and the files between two calls, and the
-- statements that keep it so. The calls are below this file.
use forgerelay.Prelude.{
  All, All-keep, All-map, Bool-cases, List, [], any, arith, false, inl, inr, keep, leb, not, refl,
  same_text, same_text→≡, some, subst, sym, true, ℕ, ◌&&◌, ◌∙◌, ◌∷◌, ◌≡◌,
}
use forgerelay.Messages.Listing.{ArtifactInfo}
use forgerelay.Storage.{
  ChunkFile, ChunkRow, Db, SessionInfo, SessionState, UploadPart, expired, opened,
}
use forgerelay.Storage.Sessions.Commit.{contents_of}
use forgerelay.Storage.Tables.{
  chunk_referenced, delete_parts, expire_session_if_due, has_id, live, mark_digests, mark_row,
  mark_unreferenced_parts, move_state, of_session, part_live, same_state, transition, update_rows,
}
use forgerelay.Storage.Tables.References.{
  Tames, any-keep, any_id-update, has_active, has_active-mark, has_file, move_state-Tames,
  parts_live-update,
}
pub mod Files
pub mod Sessions
pub mod Manifest
pub mod Commit
pub mod Publication
pub mod Stuck
pub mod Upkeep

-- The chunks of an artifact are all there, and together have the artifact's digest.
abbrev pub IsIntact : (List ℕ → List ℕ) → List ChunkFile → ArtifactInfo → Type 0
IsIntact hash files a =
    (content : List ℕ) × (contents_of files a.chunks ≡ some content) × (hash content ≡ a.digest)

-- A chunk with its row active and its file.
abbrev pub Kept : Db → List ℕ → Type 0
Kept db d = (has_active d db.chunks ≡ true) × (has_file d db.files ≡ true)

-- Every part belongs to a session.
abbrev pub Owned : List SessionInfo → List UploadPart → Type 0
Owned sessions parts = All (λ p. any (has_id p.session_id) sessions ≡ true) parts

-- Every chunk that an artifact or a live session refers to is kept, a file holds what its digest says,
-- every artifact is intact, and every part has its session.
pub record Safe (hash : List ℕ → List ℕ) (db : Db) : Type 0 where
  pub kept : (d : List ℕ) → chunk_referenced db d ≡ true → Kept db d
  pub sound : All (λ f. hash f.content ≡ f.digest) db.files
  pub intact : All (IsIntact hash db.files) db.artifacts
  pub owned : Owned db.sessions db.parts

Owned-update :
    (f : SessionInfo → SessionInfo)
    → Tames f
    → (sessions : List SessionInfo) (parts : List UploadPart) → Owned sessions parts
    → Owned (update_rows f sessions) parts
Owned-update f t sessions parts =
    All-map _ _ parts (λ p h. any_id-update f t p.session_id sessions ∙ h)

-- A digest that something refers to is not one that nothing refers to.
pub referenced_differ :
    (d e : List ℕ) (db : Db)
    → chunk_referenced db d ≡ false
    → chunk_referenced db e ≡ true
    → same_text e d ≡ false
referenced_differ d e db free r = elim (Bool-cases (same_text e d)) [
  | inr differs ↦ differs
  | inl same ↦
      let both : true ≡ false =
        sym (subst (λ t. chunk_referenced db t ≡ true) (same_text→≡ e d same) r) ∙ free in
      absurd (ground (arith, both))
]

module _ {hash : List ℕ → List ℕ} where
  -- Fewer references, and rows that stay active.
  pub Safe-fewer :
      (db : Db) (sessions : List SessionInfo) (parts : List UploadPart) (chunks : List ChunkRow)
      → ((d : List ℕ)
          → any (part_live sessions d) parts ≡ true
          → any (part_live db.sessions d) db.parts ≡ true)
      → ((d : List ℕ) → has_active d db.chunks ≡ true → has_active d chunks ≡ true)
      → Owned sessions parts
      → Safe hash db
      → Safe hash (record db { sessions = sessions; parts = parts; chunks = chunks })
  Safe-fewer db sessions parts chunks fewer stay owned s = record {
    kept = λ d r.
        let old : chunk_referenced db d ≡ true = ground (arith, r, fewer d) in
        let (row, file) = s.kept d old in (stay d row, file);
    sound = s.sound;
    intact = s.intact;
    owned = owned;
  }

  -- An update of the sessions that makes none live.
  pub Safe-update :
      (f : SessionInfo → SessionInfo)
      → Tames f
      → (db : Db) → Safe hash db
      → Safe hash (record db { sessions = update_rows f db.sessions })
  Safe-update f t db s =
      Safe-fewer db (update_rows f db.sessions) db.parts db.chunks
        (λ d. parts_live-update f t db.sessions d db.parts) (λ d h. h)
        (Owned-update f t db.sessions db.parts s.owned) s

  pub Safe-transition :
      (id : List ℕ) (from to : SessionState) (db : Db)
      → (live to ≡ true → live from ≡ true)
      → Safe hash db
      → Safe hash (transition id from to db)
  unfolding transition
  Safe-transition id from to db h s =
      Safe-update (move_state id from to) (move_state-Tames id from to h) db s

  Safe-delete_parts : (id : List ℕ) (db : Db) → Safe hash db → Safe hash (delete_parts id db)
  Safe-delete_parts id db s =
      Safe-fewer db db.sessions (keep (λ p. not (of_session id p)) db.parts) db.chunks
        (λ d. any-keep (part_live db.sessions d) (λ p. not (of_session id p)) db.parts) (λ d h. h)
        (All-keep _ (λ p. not (of_session id p)) db.parts s.owned) s

  -- A mark on a chunk that nothing refers to.
  Safe-mark :
      (now : ℕ) (d : List ℕ) (db : Db)
      → chunk_referenced db d ≡ false
      → Safe hash db
      → Safe hash (record db { chunks = update_rows (mark_row now d) db.chunks })
  Safe-mark now d db free s = record {
    kept = λ e r.
        let (row, file) = s.kept e r in
        (has_active-mark now d e db.chunks (referenced_differ d e db free r) row, file);
    sound = s.sound;
    intact = s.intact;
    owned = s.owned;
  }

  pub Safe-mark_digests :
      (now : ℕ) (ds : List (List ℕ)) (db : Db) → Safe hash db → Safe hash (mark_digests now ds db).0
  unfolding mark_digests
  Safe-mark_digests now [] db s = s
  Safe-mark_digests now (d ∷ ds) db s = elim (Bool-cases (chunk_referenced db d)) [
    | inl used ↦ rw used (Safe-mark_digests now ds db s)
    | inr free ↦ rw free (Safe-mark_digests now ds _ (Safe-mark now d db free s))
  ]

  pub Safe-mark_unreferenced_parts :
      (id : List ℕ) (now : ℕ) (db : Db)
      → Safe hash db
      → Safe hash (mark_unreferenced_parts id now db)
  unfolding mark_unreferenced_parts
  Safe-mark_unreferenced_parts id now db s =
      Safe-mark_digests now _ (delete_parts id db) (Safe-delete_parts id db s)

  pub Safe-expire_session_if_due :
      (r : SessionInfo) (now : ℕ) (db : Db)
      → Safe hash db
      → Safe hash (expire_session_if_due r now db)
  unfolding expire_session_if_due
  Safe-expire_session_if_due r now db s =
      elim (Bool-cases (same_state r.state opened && leb r.expires_at now)) [
        | inr early ↦ rw early s
        | inl due ↦ rw due (
            Safe-mark_unreferenced_parts r.id now _
              (Safe-transition r.id opened expired db (λ h. refl) s))
      ]
