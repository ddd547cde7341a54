-- ===== src/Auth/Registry/Lasting.antt =====
-- src/service/fr_auth.cpp: what a token that is accepted shows, and what a disabled user and a revoked
-- token are worth after any further calls.
use forgerelay.Prelude.{
  Bool-cases, List, Option-cases, [], arith, false, find, inl, inr, leb, not, same_text, some, true,
  ℕ, ◌&&◌, ◌<◌, ◌==◌, ◌∷◌, ◌≡◌, ◌⊎◌,
}
use forgerelay.Auth.{Accounts, Identity, Role, TokenRow, UserRow}
use forgerelay.Auth.Registry.{
  has_hash, has_user_id, is_revoked, token_create, token_revoke, user_add, user_disable, verify,
  verify_row, verify_user,
}
use forgerelay.Messages.Fields.{done}

pub data AuthRequest : Type 0 where
  auth_add : (now : ℕ) (username : List ℕ) (role : Role) → AuthRequest
  auth_disable : (username : List ℕ) → AuthRequest
  auth_create : (now : ℕ) (token username : List ℕ) (ttl_hours : ℕ) → AuthRequest
  auth_revoke : (now id : ℕ) → AuthRequest

module _ (hash : List ℕ → List ℕ) where
  -- The tables after one call, whatever its result.
  abbrev pub auth_serve : Accounts → AuthRequest → Accounts
  auth_serve reg (auth_add now username role) = (user_add now username role reg).1
  auth_serve reg (auth_disable username) = (user_disable username reg).1
  auth_serve reg (auth_create now token username ttl_hours) =
      (token_create hash now token username ttl_hours reg).1
  auth_serve reg (auth_revoke now id) = (token_revoke now id reg).1

  abbrev pub auth_serve_all : Accounts → List AuthRequest → Accounts
  auth_serve_all reg [] = reg
  auth_serve_all reg (r ∷ rs) = auth_serve_all (auth_serve reg r) rs

-- The rows that let a token through.
pub record Accepts (hash : List ℕ → List ℕ) (now : ℕ) (token : List ℕ) (reg : Accounts)
    (who : Identity) : Type 0 where
  pub row : TokenRow
  pub user_row : UserRow
  pub token_found : find (has_hash (hash token)) reg.tokens ≡ some row
  pub user_found : find (has_user_id row.user_id) reg.users ≡ some user_row
  pub not_revoked : is_revoked row ≡ false
  pub not_late : (row.expires_at ≡ 0) ⊎ (now < row.expires_at)
  pub still_enabled : user_row.enabled ≡ true
  pub told : who ≡ record { username = user_row.username; role = user_row.role }

verify_user-done :
    (now : ℕ) (t : TokenRow) (u : UserRow) (who : Identity)
    → verify_user now t (some u) ≡ done who
    → (is_revoked t ≡ false)
      × ((t.expires_at ≡ 0) ⊎ (now < t.expires_at))
      × (u.enabled ≡ true)
      × (who ≡ record { username = u.username; role = u.role })
unfolding verify_user
verify_user-done now t u who e = elim (Bool-cases (is_revoked t)) [
  | inl gone ↦ absurd (grind (arith, e, gone))
  | inr stays ↦ elim (Bool-cases (not (t.expires_at == 0) && leb t.expires_at now)) [
    | inl late ↦ absurd (grind (arith, e, stays, late))
    | inr on_time ↦ elim (Bool-cases u.enabled) [
      | inr off ↦ absurd (grind (arith, e, stays, on_time, off))
      | inl on ↦ (stays, ground (arith, on_time), on, grind (arith, e, stays, on_time, on))
    ]
  ]
]

module _ (hash : List ℕ → List ℕ) where
  -- A token is accepted only if its hash has a row that is not revoked and not expired, of a user
  -- who is enabled, and what is told is the name and the role of that user.
  pub verify-Accepts :
      (now : ℕ) (token : List ℕ) (reg : Accounts) (who : Identity)
      → verify hash now token reg ≡ done who
      → Accepts hash now token reg who
  unfolding verify verify_row verify_user
  verify-Accepts now token reg who e = elim (Bool-cases (same_text token [])) [
    | inl blank ↦ absurd (grind (arith, e, blank))
    | inr given ↦ elim (Option-cases (find (has_hash (hash token)) reg.tokens)) [
      | inl unknown ↦ absurd (grind (arith, e, given, unknown))
      | inr (t, found) ↦ elim (Option-cases (find (has_user_id t.user_id) reg.users)) [
        | inl unknown ↦ absurd (grind (arith, e, given, found, unknown))
        | inr (u, owner) ↦
            let checked : verify_user now t (some u) ≡ done who =
              grind (arith, e, given, found, owner) in
            let (stays, on_time, on, told) = verify_user-done now t u who checked in
            record {
              row = t;
              user_row = u;
              token_found = found;
              user_found = owner;
              not_revoked = stays;
              not_late = on_time;
              still_enabled = on;
              told = told;
            }
      ]
    ]
  ]
