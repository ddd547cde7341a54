-- ===== src/Auth/Tests.antt =====
-- src/service/fr_auth.cpp: runs on two users.
use forgerelay.Prelude.{
  List, [], any, arith, false, find, inr, none, not, refl, same_text, some, true, ℕ, ◌&&◌, ◌∷◌, ◌≡◌,
  ◌≢◌,
}
use forgerelay.Auth.{Accounts, TokenRow, UserRow, admin, publisher, reader}
use forgerelay.Auth.Registry.{
  has_hash, has_token_id, insert_token, named, token_create, token_revoke, user_disable, verify,
  verify_row, verify_user,
}
use forgerelay.Auth.Registry.Fresh.{revoked_stays, token_create-verify}
use forgerelay.Auth.Registry.Lasting.{
  Accepts, AuthRequest, auth_add, auth_create, auth_serve_all, verify-Accepts,
}
use forgerelay.Auth.Registry.Withdrawn.{disabled_stays}
use forgerelay.Messages.Fields.{done}

-- A digest that begins with the bytes themselves.
abbrev auth_hash : List ℕ → List ℕ
auth_hash l = 104 ∷ l

abbrev ann_row : UserRow
ann_row = record {
  user_id = 1;
  username = 97 ∷ [];
  role = publisher;
  enabled = true;
  created_at = 1;
}

abbrev bob_row : UserRow
bob_row = record { user_id = 2; username = 98 ∷ []; role = reader; enabled = true; created_at = 2 }

abbrev bob_token : TokenRow
bob_token = record {
  token_id = 1;
  user_id = 2;
  token_hash = auth_hash (7 ∷ []);
  expires_at = 0;
  revoked_at = none;
  created_at = 3;
}

abbrev two_users : Accounts
two_users = record { users = ann_row ∷ bob_row ∷ []; tokens = bob_token ∷ [] }

abbrev later_calls : List AuthRequest
later_calls = auth_create 9 (8 ∷ []) (98 ∷ []) 1 ∷ auth_add 9 (99 ∷ []) admin ∷ []

bob_verified :
    verify auth_hash 5 (7 ∷ []) two_users ≡ done (record { username = 98 ∷ []; role = reader })
unfolding verify verify_row verify_user same_text
bob_verified = refl

verify-Accepts_example :
    Accepts auth_hash 5 (7 ∷ []) two_users (record { username = 98 ∷ []; role = reader })
verify-Accepts_example =
    verify-Accepts auth_hash 5 (7 ∷ []) two_users (record { username = 98 ∷ []; role = reader })
      bob_verified

-- Ann is disabled, and Bob's token goes on.
ann_disabled : (user_disable (97 ∷ []) two_users).0 ≡ done tt
unfolding user_disable same_text
ann_disabled = refl

bob_still_verified :
    verify auth_hash 9 (7 ∷ []) (auth_serve_all auth_hash (user_disable (97 ∷ []) two_users).1 [])
    ≡ done (record { username = 98 ∷ []; role = reader })
unfolding user_disable verify verify_row verify_user same_text
bob_still_verified = refl

disabled_stays_example : same_text (98 ∷ []) (97 ∷ []) ≡ false
disabled_stays_example =
    disabled_stays auth_hash (97 ∷ []) two_users [] 9 (7 ∷ [])
      (record { username = 98 ∷ []; role = reader }) ann_disabled bob_still_verified

bob_token_there : any (has_hash (auth_hash (7 ∷ []))) two_users.tokens ≡ true
unfolding same_text
bob_token_there = refl

bob_token_only :
    any (λ t. has_hash (auth_hash (7 ∷ [])) t && not (has_token_id 1 t)) two_users.tokens ≡ false
unfolding same_text
bob_token_only = refl

revoked_stays_example :
    verify auth_hash 9
      (7 ∷ [])
      (auth_serve_all auth_hash (token_revoke 4 1 two_users).1 later_calls)
    ≢ done (record { username = 98 ∷ []; role = reader })
revoked_stays_example =
    revoked_stays auth_hash 4 1 (7 ∷ []) two_users later_calls 9
      (record { username = 98 ∷ []; role = reader }) bob_token_there bob_token_only

bob_token_made : (token_create auth_hash 9 (8 ∷ []) (98 ∷ []) 1 two_users).0 ≡ done (8 ∷ [])
unfolding token_create insert_token same_text
bob_token_made = refl

bob_found : find (named (98 ∷ [])) two_users.users ≡ some bob_row
unfolding same_text
bob_found = refl

token_given : same_text (8 ∷ []) [] ≡ false
unfolding same_text
token_given = refl

token_create-verify_example :
    verify auth_hash 3608 (8 ∷ []) (token_create auth_hash 9 (8 ∷ []) (98 ∷ []) 1 two_users).1
    ≡ done (record { username = 98 ∷ []; role = reader })
token_create-verify_example =
    token_create-verify auth_hash 9 3608 (8 ∷ []) (98 ∷ []) 1 two_users bob_row bob_token_made
      bob_found refl token_given (inr (omega arith))
