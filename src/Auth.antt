-- ===== src/Auth.antt =====
-- src/service/fr_auth.cpp: the users and the tokens of `AuthRegistry`. A table is the list of its rows;
-- nothing is ever deleted, so that the id of a new row is one more than the number of the rows. `hash`
-- gives the digest of some bytes as text; a new token is drawn at random, and given to the model. A role
-- is one of the three: a byte beyond them, which `user_add` stores as Reader, is out of the model.
use forgerelay.Prelude.{Bool, List, Option, [], ℕ}
pub mod Registry
mod Tests

pub data Role : Type 0 where
  reader publisher admin : Role

-- A row of `user`.
pub record UserRow : Type 0 where
  pub user_id : ℕ
  pub username : List ℕ
  pub role : Role
  pub enabled : Bool
  pub created_at : ℕ

-- A row of `token`; `expires_at` is 0 for a token that does not expire, and `revoked_at` is NULL or a
-- time, which is never 0.
pub record TokenRow : Type 0 where
  pub token_id : ℕ
  pub user_id : ℕ
  pub token_hash : List ℕ
  pub expires_at : ℕ
  pub revoked_at : Option ℕ
  pub created_at : ℕ

pub record Accounts : Type 0 where
  pub users : List UserRow
  pub tokens : List TokenRow

-- What `verify` tells of a token that is accepted.
pub record Identity : Type 0 where
  pub username : List ℕ
  pub role : Role

abbrev pub empty_registry : Accounts
empty_registry = record { users = []; tokens = [] }
