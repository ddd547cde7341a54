-- ===== src/Auth/Registry.antt =====
-- src/service/fr_auth.cpp: the methods of `AuthRegistry`.
use forgerelay.Prelude.{
  Bool, List, Option, [], any, c_str, false, find, if◌then◌else◌, leb, length, none, not, same_text,
  some, true, ℕ, ◌&&◌, ◌*◌, ◌++◌, ◌+◌, ◌==◌, ◌||◌, ◌∷◌,
}
use forgerelay.Auth.{Accounts, Identity, Role, TokenRow, UserRow}
use forgerelay.Core.Path.{ident_valid_component}
use forgerelay.Core.Status.{e_arg, e_io, e_notfound, e_unauthenticated}
use forgerelay.Messages.Fields.{Outcome, done, thrown}
use forgerelay.Storage.Tables.{update_rows}
pub mod Lasting
pub mod Withdrawn
pub mod Fresh

abbrev pub named : List ℕ → UserRow → Bool
named username u = same_text u.username username

-- `AuthRegistry::user_add`; a name that is taken breaks UNIQUE.
unfoldable pub user_add :
    (now : ℕ) (username : List ℕ) → Role → Accounts → Outcome (Unit {0}) × Accounts
user_add now username role reg =
    if same_text username [] || not (ident_valid_component (c_str username))
    then (thrown e_arg, reg)
    else if any (named username) reg.users
    then (thrown e_io, reg)
    else (
      done tt,
      record reg {
        users =
            reg.users
            ++ record {
              user_id = length reg.users + 1;
              username = username;
              role = role;
              enabled = true;
              created_at = now;
            }
              ∷ [];
      },
    )

abbrev pub disable_row : List ℕ → UserRow → UserRow
disable_row username u = if named username u then record u { enabled = false } else u

-- `AuthRegistry::user_disable`.
unfoldable pub user_disable : (username : List ℕ) → Accounts → Outcome (Unit {0}) × Accounts
user_disable username reg =
    if any (named username) reg.users
    then (done tt, record reg { users = update_rows (disable_row username) reg.users })
    else (thrown e_notfound, reg)

abbrev pub is_revoked : TokenRow → Bool
is_revoked t = elim t.revoked_at [ none ↦ false | some at ↦ true ]

abbrev pub has_token_id : ℕ → TokenRow → Bool
has_token_id id t = t.token_id == id

abbrev pub revoke_row : (now id : ℕ) → TokenRow → TokenRow
revoke_row now id t =
    if has_token_id id t && not (is_revoked t) then record t { revoked_at = some now } else t

-- `AuthRegistry::token_revoke`.
unfoldable pub token_revoke : (now id : ℕ) → Accounts → Outcome (Unit {0}) × Accounts
token_revoke now id reg =
    if any (λ t. has_token_id id t && not (is_revoked t)) reg.tokens
    then (done tt, record reg { tokens = update_rows (revoke_row now id) reg.tokens })
    else (thrown e_notfound, reg)

abbrev pub has_hash : List ℕ → TokenRow → Bool
has_hash h t = same_text t.token_hash h

abbrev pub has_user_id : ℕ → UserRow → Bool
has_user_id id u = u.user_id == id

-- now + ttl_hours * 3600, or 0.
abbrev pub expiry_of : (now ttl_hours : ℕ) → ℕ
expiry_of now ttl_hours = if ttl_hours == 0 then 0 else now + ttl_hours * 3600

-- The checks of `verify` on the row of its SELECT.
unfoldable pub verify_user : (now : ℕ) → TokenRow → Option UserRow → Outcome Identity
verify_user now t none = thrown e_unauthenticated
verify_user now t (some u) =
    if is_revoked t
    then thrown e_unauthenticated
    else if not (t.expires_at == 0) && leb t.expires_at now
    then thrown e_unauthenticated
    else if not u.enabled
    then thrown e_unauthenticated
    else done (record { username = u.username; role = u.role })

unfoldable pub verify_row : (now : ℕ) → Accounts → Option TokenRow → Outcome Identity
verify_row now reg none = thrown e_unauthenticated
verify_row now reg (some t) = verify_user now t (find (has_user_id t.user_id) reg.users)

module _ (hash : List ℕ → List ℕ) where
  abbrev pub token_row : (now : ℕ) (token : List ℕ) (ttl_hours : ℕ) → Accounts → UserRow → TokenRow
  token_row now token ttl_hours reg u = record {
    token_id = length reg.tokens + 1;
    user_id = u.user_id;
    token_hash = hash token;
    expires_at = expiry_of now ttl_hours;
    revoked_at = none;
    created_at = now;
  }

  -- The INSERT of `token_create`; a hash that is taken breaks UNIQUE.
  unfoldable pub insert_token :
      (now : ℕ) (token : List ℕ) (ttl_hours : ℕ)
      → Accounts
      → Option UserRow
      → Outcome (List ℕ) × Accounts
  insert_token now token ttl_hours reg none = (thrown e_notfound, reg)
  insert_token now token ttl_hours reg (some u) =
      if not u.enabled
      then (thrown e_arg, reg)
      else if any (has_hash (hash token)) reg.tokens
      then (thrown e_io, reg)
      else (
        done token,
        record reg { tokens = reg.tokens ++ token_row now token ttl_hours reg u ∷ [] },
      )

  -- `AuthRegistry::token_create`.
  unfoldable pub token_create :
      (now : ℕ) (token username : List ℕ) (ttl_hours : ℕ) → Accounts → Outcome (List ℕ) × Accounts
  unfolding insert_token
  token_create now token username ttl_hours reg =
      insert_token now token ttl_hours reg (find (named username) reg.users)

  -- `AuthRegistry::verify`.
  unfoldable pub verify : (now : ℕ) (token : List ℕ) → Accounts → Outcome Identity
  verify now token reg =
      if same_text token []
      then thrown e_unauthenticated
      else verify_row now reg (find (has_hash (hash token)) reg.tokens)
