-- ===== src/Storage/Tables/References.antt =====
-- src/storage/fr_storage.cpp: what the statements do to the references and to the rows that are active.
use forgerelay.Prelude.{
  ==_iff, Bool, Bool-cases, List, [], any, any_mono, ap, arith, false, find, if◌then◌else◌, inl,
  inr, keep, refl, same_text, same_text→≡, some, subst, sym, true, ℕ, ◌&&◌, ◌==◌, ◌∙◌, ◌∷◌, ◌≡◌,
}
use forgerelay.Storage.{
  ChunkFile, ChunkRow, Db, SessionInfo, SessionState, UploadPart, aborted, committing, completed,
  expired, opened,
}
use forgerelay.Storage.Tables.{
  activate_row, chunk_referenced, delete_parts, file_has, has_id, is_active, is_live, live,
  mark_digests, mark_row, mark_unreferenced_parts, move_state, part_live, row_has, same_state,
  state_number, update_rows,
}

abbrev pub has_active : List ℕ → List ChunkRow → Bool
has_active digest rows = any (λ r. row_has digest r && is_active r) rows

abbrev pub has_file : List ℕ → List ChunkFile → Bool
has_file digest files = any (file_has digest) files

same_text_trans :
    (a b c : List ℕ) → same_text a b ≡ true → same_text a c ≡ true → same_text b c ≡ true
same_text_trans a b c h k = subst (λ t. same_text t c ≡ true) (same_text→≡ a b h) k

-- A mark leaves the rows of every other digest.
pub has_active-mark :
    (now : ℕ) (d e : List ℕ) (rows : List ChunkRow)
    → same_text e d ≡ false
    → has_active e rows ≡ true
    → has_active e (update_rows (mark_row now d) rows) ≡ true
has_active-mark now d e [] other h = h
has_active-mark now d e (r ∷ rows) other h =
    ground (arith, h, other, same_text_trans r.digest e d, has_active-mark now d e rows other)

-- No row that is active ceases to be so.
pub has_active-activate :
    (d e : List ℕ) (rows : List ChunkRow)
    → has_active e rows ≡ true
    → has_active e (update_rows (activate_row d) rows) ≡ true
has_active-activate d e [] h = h
has_active-activate d e (r ∷ rows) h = ground (arith, h, has_active-activate d e rows)

-- A digest with a row has an active one once it is activated.
pub has_active-activated :
    (d : List ℕ) (rows : List ChunkRow)
    → any (row_has d) rows ≡ true
    → has_active d (update_rows (activate_row d) rows) ≡ true
has_active-activated d [] h = h
has_active-activated d (r ∷ rows) h = ground (arith, h, has_active-activated d rows)

-- What is kept by a test is found by a test that implies less.
pub any-keep :
    {A : Type 0} (f g : A → Bool) (xs : List A) → any f (keep g xs) ≡ true → any f xs ≡ true
any-keep f g [] h = h
any-keep f g (x ∷ xs) h = ground (arith, h, any-keep f g xs)

-- What the test keeps is still there.
pub any-kept :
    {A : Type 0} (f g : A → Bool) (xs : List A)
    → ((x : A) → f x ≡ true → g x ≡ true)
    → any f xs ≡ true
    → any f (keep g xs) ≡ true
any-kept f g [] imp h = h
any-kept f g (x ∷ xs) imp h = ground (arith, h, imp x, any-kept f g xs imp)

-- An update that keeps the id of a session and makes none live.
pub record Tames (f : SessionInfo → SessionInfo) : Type 0 where
  pub same_id : (s : SessionInfo) → (f s).id ≡ s.id
  pub not_revived : (s : SessionInfo) → is_live (f s) ≡ true → is_live s ≡ true

live_sessions-update :
    (f : SessionInfo → SessionInfo)
    → Tames f
    → (id : List ℕ) (ss : List SessionInfo)
    → any (λ s. has_id id s && is_live s) (update_rows f ss) ≡ true
    → any (λ s. has_id id s && is_live s) ss ≡ true
live_sessions-update f t id [] h = h
live_sessions-update f t id (s ∷ ss) h = ground (
  arith,
  h,
  ap (λ i. same_text i id) (t.same_id s),
  t.not_revived s,
  live_sessions-update f t id ss,
)

pub any_id-update :
    (f : SessionInfo → SessionInfo)
    → Tames f
    → (id : List ℕ) (ss : List SessionInfo)
    → any (has_id id) (update_rows f ss) ≡ any (has_id id) ss
any_id-update f t id [] = refl
any_id-update f t id (s ∷ ss) =
    ground (arith, ap (λ i. same_text i id) (t.same_id s), any_id-update f t id ss)

-- Such an update adds no reference.
pub parts_live-update :
    (f : SessionInfo → SessionInfo)
    → Tames f
    → (ss : List SessionInfo) (d : List ℕ) → (ps : List UploadPart)
    → any (part_live (update_rows f ss) d) ps ≡ true
    → any (part_live ss d) ps ≡ true
parts_live-update f t ss d ps h =
    any_mono (part_live (update_rows f ss) d) (part_live ss d) ps
      (λ p k. ground (arith, k, live_sessions-update f t p.session_id ss)) h

state_of : ℕ → SessionState
state_of n =
    if n == 0
    then opened
    else if n == 1
    then committing
    else if n == 2
    then completed
    else if n == 3
    then aborted
    else expired

state_of-state_number : (s : SessionState) → state_of (state_number s) ≡ s
unfolding state_of
state_of-state_number opened = refl
state_of-state_number committing = refl
state_of-state_number completed = refl
state_of-state_number aborted = refl
state_of-state_number expired = refl

pub same_state→≡ : (s t : SessionState) → same_state s t ≡ true → s ≡ t
same_state→≡ s t h =
    let numbers : state_number s ≡ state_number t = (==_iff _ _).0 h in
    sym (state_of-state_number s) ∙ ap state_of numbers ∙ state_of-state_number t

-- A move to a state that is live only if the old one was.
pub move_state-Tames :
    (id : List ℕ) (from to : SessionState)
    → (live to ≡ true → live from ≡ true)
    → Tames (move_state id from to)
move_state-Tames id from to h = record {
  same_id = λ s. ground arith;
  not_revived = λ s k. ground (arith, k, h, ap live, same_state→≡ s.state from);
}

-- Marks change the rows of the chunks only.
pub mark_digests-same :
    (now : ℕ) (ds : List (List ℕ)) (db : Db)
    → ((mark_digests now ds db).0.sessions ≡ db.sessions)
      × ((mark_digests now ds db).0.artifacts ≡ db.artifacts)
      × ((mark_digests now ds db).0.files ≡ db.files)
unfolding mark_digests
mark_digests-same now [] db = (refl, refl, refl)
mark_digests-same now (d ∷ ds) db = elim (Bool-cases (chunk_referenced db d)) [
  | inl used ↦ rw used (mark_digests-same now ds db)
  | inr free ↦ rw free (mark_digests-same now ds _)
]

pub mark_unreferenced_parts-same :
    (id : List ℕ) (now : ℕ) (db : Db)
    → ((mark_unreferenced_parts id now db).sessions ≡ db.sessions)
      × ((mark_unreferenced_parts id now db).artifacts ≡ db.artifacts)
      × ((mark_unreferenced_parts id now db).files ≡ db.files)
unfolding mark_unreferenced_parts
mark_unreferenced_parts-same id now db = mark_digests-same now _ (delete_parts id db)

-- An update row by row that makes no row pass the test.
pub any-update :
    {A : Type 0} (f : A → A) (t : A → Bool) (ss : List A)
    → ((s : A) → t s ≡ false → t (f s) ≡ false)
    → any t ss ≡ false
    → any t (update_rows f ss) ≡ false
any-update f t [] keeps h = h
any-update f t (s ∷ ss) keeps h = ground (arith, h, keeps s, any-update f t ss keeps)

-- A change of the rows that keeps what is looked for.
pub any-kept_rows :
    {A : Type 0} (f : A → A) (t : A → Bool) (xs : List A)
    → ((x : A) → t (f x) ≡ t x)
    → any t (update_rows f xs) ≡ any t xs
any-kept_rows f t [] same = refl
any-kept_rows f t (x ∷ xs) same = ground (arith, same x, any-kept_rows f t xs same)

-- The session of an id after a move of its rows.
pub find-moved :
    (id : List ℕ) (from to : SessionState) (ss : List SessionInfo) (i : SessionInfo)
    → find (has_id id) ss ≡ some i
    → find (has_id id) (update_rows (move_state id from to) ss) ≡ some (move_state id from to i)
find-moved id from to [] i found = cc found
find-moved id from to (s ∷ ss) i found = elim (Bool-cases (has_id id s)) [
  | inl same ↦
      let first_one : s ≡ i = grind (arith, found, same) in
      let kept : has_id id (move_state id from to s) ≡ true = ground (arith, same) in
      rw kept (ap (λ x. some (move_state id from to x)) first_one)
  | inr other ↦
      let kept : has_id id (move_state id from to s) ≡ false = ground (arith, other) in
      rw kept (find-moved id from to ss i (grind (arith, found, other)))
]
