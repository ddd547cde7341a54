-- ===== src/Storage/Tables.antt =====
-- src/storage/fr_storage.cpp: the statements on the tables that the methods share.
use forgerelay.Prelude.{
  Bool, List, Option, [], any, false, find, if◌then◌else◌, keep, leb, not, same_text, suc, true, ℕ,
  ◌&&◌, ◌+◌, ◌==◌, ◌||◌, ◌∷◌,
}
use forgerelay.Messages.Listing.{ArtifactInfo, ManifestEntry}
use forgerelay.Storage.{
  ChunkFile, ChunkRow, Db, SessionInfo, SessionState, UploadPart, aborted, committing, completed,
  expired, opened, row_active, row_pending,
}
pub mod References

abbrev pub state_number : SessionState → ℕ
state_number opened = 0
state_number committing = 1
state_number completed = 2
state_number aborted = 3
state_number expired = 4

abbrev pub same_state : SessionState → SessionState → Bool
same_state s t = state_number s == state_number t

-- state IN ('OPEN','COMMITTING')
abbrev pub live : SessionState → Bool
live opened = true
live committing = true
live _ = false

abbrev pub is_live : SessionInfo → Bool
is_live s = live s.state

abbrev pub has_id : List ℕ → SessionInfo → Bool
has_id id s = same_text s.id id

abbrev pub of_session : List ℕ → UploadPart → Bool
of_session id p = same_text p.session_id id

-- `Impl::load_session`, but for its error.
unfoldable pub load_session : List ℕ → Db → Option SessionInfo
load_session id db = find (has_id id) db.sessions

abbrev pub entry_has : List ℕ → ManifestEntry → Bool
entry_has digest e = same_text e.digest digest

abbrev pub row_has : List ℕ → ChunkRow → Bool
row_has digest r = same_text r.digest digest

abbrev pub file_has : List ℕ → ChunkFile → Bool
file_has digest f = same_text f.digest digest

-- The first SELECT of `Impl::chunk_referenced`.
abbrev pub artifact_has : List ℕ → ArtifactInfo → Bool
artifact_has digest a = any (entry_has digest) a.chunks

-- The second one, the join with the sessions.
abbrev pub part_live : List SessionInfo → List ℕ → UploadPart → Bool
part_live sessions digest p =
    same_text p.digest digest && any (λ s. has_id p.session_id s && is_live s) sessions

-- `Impl::chunk_referenced`.
abbrev pub chunk_referenced : Db → List ℕ → Bool
chunk_referenced db digest =
    any (artifact_has digest) db.artifacts || any (part_live db.sessions digest) db.parts

abbrev pub is_active : ChunkRow → Bool
is_active r = elim r.state [ row_active ↦ true | row_pending at ↦ false ]

-- UPDATE chunk SET state='PENDING_DELETE', pending_at=now WHERE digest=? AND state='ACTIVE'
abbrev pub mark_row : ℕ → List ℕ → ChunkRow → ChunkRow
mark_row now digest r =
    if row_has digest r && is_active r then record r { state = row_pending now } else r

-- UPDATE chunk SET state='ACTIVE', pending_at=NULL WHERE digest=?
abbrev pub activate_row : List ℕ → ChunkRow → ChunkRow
activate_row digest r = if row_has digest r then record r { state = row_active } else r

abbrev pub update_rows {ℓ} : {A : Type ℓ} → (A → A) → List A → List A
update_rows f [] = []
update_rows f (x ∷ xs) = f x ∷ update_rows f xs

-- How many rows pass the test: `sqlite3_changes` after an update of those.
abbrev pub count_rows {ℓ} : {A : Type ℓ} → (A → Bool) → List A → ℕ
count_rows f [] = 0
count_rows f (x ∷ xs) = let rest = count_rows f xs in if f x then suc rest else rest

-- The digests of which no reference is left are marked, with the number of rows marked.
unfoldable pub mark_digests : ℕ → List (List ℕ) → Db → Db × ℕ
mark_digests now [] db = (db, 0)
mark_digests now (d ∷ ds) db =
    if chunk_referenced db d
    then mark_digests now ds db
    else let (db', n) =
        mark_digests now ds (record db { chunks = update_rows (mark_row now d) db.chunks }) in
      (db', count_rows (λ r. row_has d r && is_active r) db.chunks + n)

abbrev pub digests_of : List UploadPart → List (List ℕ)
digests_of [] = []
digests_of (p ∷ ps) = p.digest ∷ digests_of ps

-- `Impl::delete_parts`.
abbrev pub delete_parts : List ℕ → Db → Db
delete_parts id db = record db { parts = keep (λ p. not (of_session id p)) db.parts }

-- `Impl::mark_unreferenced_parts`.
unfoldable pub mark_unreferenced_parts : List ℕ → ℕ → Db → Db
mark_unreferenced_parts id now db =
    (mark_digests now (digests_of (keep (of_session id) db.parts)) (delete_parts id db)).0

abbrev pub move_state : List ℕ → SessionState → SessionState → SessionInfo → SessionInfo
move_state id from to s =
    if has_id id s && same_state s.state from then record s { state = to } else s

-- `Impl::transition`: the update, and whether a row changed.
unfoldable pub transition : List ℕ → SessionState → SessionState → Db → Db
transition id from to db = record db { sessions = update_rows (move_state id from to) db.sessions }

unfoldable pub transits : List ℕ → SessionState → Db → Bool
transits id from db = any (λ s. has_id id s && same_state s.state from) db.sessions

-- `Impl::expire_session_if_due`.
unfoldable pub expire_session_if_due : SessionInfo → ℕ → Db → Db
expire_session_if_due s now db =
    if same_state s.state opened && leb s.expires_at now
    then mark_unreferenced_parts s.id now (transition s.id opened expired db)
    else db
