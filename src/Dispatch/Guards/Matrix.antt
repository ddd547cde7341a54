-- ===== src/Dispatch/Guards/Matrix.antt =====
-- src/service/fr_dispatch.cpp: the role matrix, as an order of the roles.
use forgerelay.Prelude.{
  Bool, List, arith, find, if◌then◌else◌, leb, not, same_text, some, ℕ, ◌&&◌, ◌||◌, ◌≡◌,
}
use forgerelay.Auth.{Role, admin, publisher, reader}
use forgerelay.Core.Status.{e_forbidden, e_unauthenticated}
use forgerelay.Dispatch.Guards.{
  ClientSession, is_admin, require_delete_allowed, require_role, require_session_allowed,
}
use forgerelay.Messages.Fields.{Outcome, done, thrown}
use forgerelay.Messages.Listing.{ArtifactInfo}
use forgerelay.Storage.{Db, SessionInfo}
use forgerelay.Storage.Reads.{show_artifact}
use forgerelay.Storage.Sessions.Commit.{is_named}

-- A role includes those below it.
abbrev pub rank : Role → ℕ
rank reader = 0
rank publisher = 1
rank admin = 2

abbrev pub permits : ClientSession → Role → Bool
permits s required = s.authenticated && leb (rank required) (rank s.role)

-- What a check answers: let through, not known, or not allowed.
abbrev pub answer_of : ClientSession → (allowed : Bool) → Outcome (Unit {0})
answer_of s allowed =
    if not s.authenticated
    then thrown e_unauthenticated
    else if allowed
    then done tt
    else thrown e_forbidden

-- The check of a role answers by the order Reader, Publisher, Admin: a client that is not
-- authenticated is unknown, and another is let through when its role is the required one or above
-- it.
pub require_role-permits :
    (s : ClientSession) (required : Role)
    → require_role s required ≡ answer_of s (permits s required)
unfolding require_role
require_role-permits s required = ground arith

pub require_session_allowed-owner :
    (s : ClientSession) (info : SessionInfo)
    → require_session_allowed s info
      ≡ answer_of s (permits s publisher && (is_admin s.role || same_text info.owner s.username))
unfolding require_session_allowed require_role
require_session_allowed-owner s info = ground arith

-- The deletion of an artifact that is there is allowed to an Admin, and to a Publisher who
-- created it, and to no one else.
pub require_delete_allowed-creator :
    (db : Db) (s : ClientSession) (ns name version : List ℕ) (a : ArtifactInfo)
    → find (is_named ns name version) db.artifacts ≡ some a
    → require_delete_allowed db s ns name version
      ≡ answer_of s (is_admin s.role || permits s publisher && same_text a.creator s.username)
unfolding require_delete_allowed require_role show_artifact
require_delete_allowed-creator db s ns name version a there = grind (arith, there)
