-- ===== src/Storage/Histories/Lifecycle.antt =====
-- src/storage/fr_storage.cpp: the session state machine, on the rows of all sessions.
use forgerelay.Prelude.{Bool, List, [], any, false, find, some, true, ℕ, ◌&&◌, ◌++◌, ◌∷◌, ◌≡◌}
use forgerelay.Storage.{SessionInfo, SessionState, aborted, committing, expired, opened}
use forgerelay.Storage.Sessions.{chunk_count}
use forgerelay.Storage.Sessions.Commit.{complete}
use forgerelay.Storage.Tables.{has_id, live, move_state, same_state, update_rows}
use forgerelay.Storage.Upkeep.{expire_row, roll_back_row}
pub mod Calls
pub mod Commits
pub mod Served
pub mod Committing
pub mod Ended

abbrev pub has_opened : List ℕ → SessionInfo → Bool
has_opened id s = has_id id s && same_state s.state opened

-- One step: a row is added, or rows change their state.
pub data SessionStep (room : ℕ → Bool) : List SessionInfo → List SessionInfo → Type 0 where
  step_created :
      {ss : List SessionInfo}
      → (i : SessionInfo) → (i.state ≡ opened)
      → (any (has_id i.id) ss ≡ false)
      → SessionStep room ss (ss ++ i ∷ [])
  step_expired :
      {ss : List SessionInfo}
      → (id : List ℕ) → SessionStep room ss (update_rows (move_state id opened expired) ss)
  step_aborted :
      {ss : List SessionInfo}
      → (id : List ℕ) (from : SessionState) → (live from ≡ true)
      → SessionStep room ss (update_rows (move_state id from aborted) ss)
  -- A commit, OPEN to COMMITTING to COMPLETED in one call, and one that is rolled back.
  step_committed :
      {ss : List SessionInfo}
      → (id : List ℕ) → (any (has_opened id) ss ≡ true)
      → SessionStep room ss
          (update_rows (complete id) (update_rows (move_state id opened committing) ss))
  step_rolled_back :
      {ss : List SessionInfo}
      → (id : List ℕ)
      → SessionStep room ss (
          update_rows
            (move_state id committing opened)
            (update_rows (move_state id opened committing) ss))
  -- A commit of a session whose manifest memory has no room for stays COMMITTING.
  step_stuck :
      {ss : List SessionInfo}
      → (id : List ℕ) (i : SessionInfo) → (find (has_id id) ss ≡ some i)
      → (any (has_opened id) ss ≡ true)
      → (room (chunk_count i) ≡ false)
      → SessionStep room ss (update_rows (move_state id opened committing) ss)
  step_swept :
      {ss : List SessionInfo} → (now : ℕ) → SessionStep room ss (update_rows (expire_row now) ss)
  step_recovered : {ss : List SessionInfo} → SessionStep room ss (update_rows roll_back_row ss)

pub data SessionSteps (room : ℕ → Bool) : List SessionInfo → List SessionInfo → Type 0 where
  no_step : {ss : List SessionInfo} → SessionSteps room ss ss
  step_and :
      {ss ts us : List SessionInfo}
      → SessionStep room ss ts
      → SessionSteps room ts us
      → SessionSteps room ss us

pub SessionSteps-append :
    {room : ℕ → Bool}
    → (ss ts us : List SessionInfo) → SessionSteps room ss ts
    → SessionSteps room ts us
    → SessionSteps room ss us
SessionSteps-append ss ts us no_step q = q
SessionSteps-append ss ts us (step_and s p) q = step_and s (SessionSteps-append _ ts us p q)

pub one_step :
    {room : ℕ → Bool}
    → {ss ts : List SessionInfo} → SessionStep room ss ts
    → SessionSteps room ss ts
one_step s = step_and s no_step
