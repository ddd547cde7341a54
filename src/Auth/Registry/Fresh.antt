-- ===== src/Auth/Registry/Fresh.antt =====
-- src/service/fr_auth.cpp: a new token is accepted until it expires, and never once it is revoked.
use forgerelay.Prelude.{
  Bool, Bool-cases, List, Option-cases, [], any, any-append, ap, arith, false, find, find-any, inl,
  inr, leb, not, refl, same_text, same_text_refl, same_text→≡, some, subst, sym, true, ℕ, ◌&&◌, ◌*◌,
  ◌++◌, ◌+◌, ◌<◌, ◌==◌, ◌∙◌, ◌∷◌, ◌≡◌, ◌≢◌, ◌⊎◌,
}
use forgerelay.Auth.{Accounts, Identity, Role, TokenRow, UserRow}
use forgerelay.Auth.Registry.{
  expiry_of, has_hash, has_token_id, has_user_id, insert_token, is_revoked, named, revoke_row,
  token_create, token_revoke, token_row, user_add, user_disable, verify, verify_row, verify_user,
}
use forgerelay.Auth.Registry.Lasting.{
  AuthRequest, auth_add, auth_create, auth_disable, auth_revoke, auth_serve, auth_serve_all,
  verify-Accepts,
}
use forgerelay.Auth.Registry.Withdrawn.{find_on}
use forgerelay.Messages.Fields.{done}
use forgerelay.Storage.Tables.{update_rows}
use forgerelay.Storage.Tables.References.{any-kept_rows, any-update}

find-last :
    {A : Type 0} (f : A → Bool) (xs : List A) (x : A)
    → any f xs ≡ false
    → f x ≡ true
    → find f (xs ++ x ∷ []) ≡ some x
find-last f [] x none_yet h = rw h refl
find-last f (y ∷ xs) x none_yet h =
    let here : f y ≡ false = ground (arith, none_yet) in
    rw here (find-last f xs x (ground (arith, none_yet)) h)

abbrev valid_row : List ℕ → TokenRow → Bool
valid_row h t = has_hash h t && not (is_revoked t)

-- The hash is there, and every row of it is revoked.
record Spent (h : List ℕ) (reg : Accounts) : Type 0 where
  kept_row : any (has_hash h) reg.tokens ≡ true
  none_valid : any (valid_row h) reg.tokens ≡ false

Spent-revoke :
    (now id : ℕ) (h : List ℕ) (reg : Accounts) → Spent h reg → Spent h (token_revoke now id reg).1
unfolding token_revoke
Spent-revoke now id h reg s =
    elim (Bool-cases (any (λ t. has_token_id id t && not (is_revoked t)) reg.tokens)) [
      | inr spent ↦ rw spent s
      | inl there ↦ rw there record {
        kept_row =
            any-kept_rows (revoke_row now id) (has_hash h) reg.tokens (λ t. ground arith)
            ∙ s.kept_row;
        none_valid =
            any-update (revoke_row now id) (valid_row h) reg.tokens (λ t k. ground (arith, k))
              s.none_valid;
      }
    ]

revoke_rows-valid :
    (now id : ℕ) (h : List ℕ) (ts : List TokenRow)
    → any (λ t. has_hash h t && not (has_token_id id t)) ts ≡ false
    → any (valid_row h) (update_rows (revoke_row now id) ts) ≡ false
revoke_rows-valid now id h [] only = refl
revoke_rows-valid now id h (t ∷ ts) only = ground (arith, only, revoke_rows-valid now id h ts)

-- The revocation of the only id that a hash has.
revoke-Spent :
    (now id : ℕ) (h : List ℕ) (reg : Accounts)
    → any (has_hash h) reg.tokens ≡ true
    → any (λ t. has_hash h t && not (has_token_id id t)) reg.tokens ≡ false
    → Spent h (token_revoke now id reg).1
unfolding token_revoke
revoke-Spent now id h reg there only =
    elim (Bool-cases (any (λ t. has_token_id id t && not (is_revoked t)) reg.tokens)) [
      | inr spent ↦ rw spent record { kept_row = there; none_valid = already reg.tokens only spent }
      | inl found ↦ rw found record {
        kept_row =
            any-kept_rows (revoke_row now id) (has_hash h) reg.tokens (λ t. ground arith) ∙ there;
        none_valid = revoke_rows-valid now id h reg.tokens only;
      }
    ]
  where
    already :
        (ts : List TokenRow)
        → any (λ t. has_hash h t && not (has_token_id id t)) ts ≡ false
        → any (λ t. has_token_id id t && not (is_revoked t)) ts ≡ false
        → any (valid_row h) ts ≡ false
    already [] p q = refl
    already (t ∷ ts) p q = ground (arith, p, q, already ts)

add-tokens :
    (now : ℕ) (username : List ℕ) (role : Role) (reg : Accounts)
    → (user_add now username role reg).1.tokens ≡ reg.tokens
unfolding user_add
add-tokens now username role reg = ground arith

disable-tokens :
    (username : List ℕ) (reg : Accounts) → (user_disable username reg).1.tokens ≡ reg.tokens
unfolding user_disable
disable-tokens username reg = ground arith

Spent-tokens :
    (h : List ℕ) (reg reg' : Accounts) → reg'.tokens ≡ reg.tokens → Spent h reg → Spent h reg'
Spent-tokens h reg reg' same s = record {
  kept_row = ap (any (has_hash h)) same ∙ s.kept_row;
  none_valid = ap (any (valid_row h)) same ∙ s.none_valid;
}

module _ (hash : List ℕ → List ℕ) where
  -- A token that is not empty and was created for a user, the only one of its id, is accepted,
  -- with the user's name and role, until it expires, or for ever with no hours to live.
  pub token_create-verify :
      (now later : ℕ) (token username : List ℕ) (ttl_hours : ℕ) (reg : Accounts) (u : UserRow)
      → (token_create hash now token username ttl_hours reg).0 ≡ done token
      → find (named username) reg.users ≡ some u
      → find (has_user_id u.user_id) reg.users ≡ some u
      → same_text token [] ≡ false
      → (ttl_hours ≡ 0) ⊎ (later < now + ttl_hours * 3600)
      → verify hash later token (token_create hash now token username ttl_hours reg).1
        ≡ done (record { username = u.username; role = u.role })
  unfolding token_create insert_token verify verify_row verify_user
  token_create-verify now later token username ttl_hours reg u ok found owner given on_time =
      elim (Bool-cases u.enabled) [
        | inr off ↦ absurd (grind (arith, ok, found, off))
        | inl on ↦ elim (Bool-cases (any (has_hash (hash token)) reg.tokens)) [
          | inl taken ↦ absurd (grind (arith, ok, found, on, taken))
          | inr free ↦
              let late : not (expiry_of now ttl_hours == 0) && leb (expiry_of now ttl_hours) later
                  ≡ false =
                ground (arith, on_time) in
              rw
                (
                  found,
                  on,
                  free,
                  given,
                  find-last (has_hash (hash token)) reg.tokens
                      (token_row hash now token ttl_hours reg u) free (same_text_refl (hash token)),
                  owner,
                  late,
                  on,
                )
                refl
        ]
      ]

  Spent-create :
      (now : ℕ) (token username : List ℕ) (ttl_hours : ℕ) (h : List ℕ) (reg : Accounts)
      → Spent h reg
      → Spent h (token_create hash now token username ttl_hours reg).1
  unfolding token_create insert_token
  Spent-create now token username ttl_hours h reg s =
      elim (Option-cases (find (named username) reg.users)) [
        | inl unknown ↦ rw unknown s
        | inr (u, found) ↦ elim (Bool-cases u.enabled) [
          | inr off ↦ rw (found, off) s
          | inl on ↦ elim (Bool-cases (any (has_hash (hash token)) reg.tokens)) [
            | inl taken ↦ rw (found, on, taken) s
            | inr free ↦
                let fresh_row = token_row hash now token ttl_hours reg u in
                rw (found, on, free)
                  record {
                    kept_row =
                        any-append (has_hash h) reg.tokens (fresh_row ∷ [])
                        ∙ ground (arith, s.kept_row);
                    none_valid =
                        any-append (valid_row h) reg.tokens (fresh_row ∷ [])
                        ∙ ground (arith, s.none_valid, another free);
                  }
          ]
        ]
      ]
    where
      another : any (has_hash (hash token)) reg.tokens ≡ false → same_text (hash token) h ≡ false
      another free = elim (Bool-cases (same_text (hash token) h)) [
        | inr other ↦ other
        | inl same ↦
            let there : any (has_hash (hash token)) reg.tokens ≡ true =
              subst (λ t. any (has_hash t) reg.tokens ≡ true)
                (sym (same_text→≡ (hash token) h same)) s.kept_row in
            absurd (ground (arith, there, free))
      ]

  Spent-serve :
      (h : List ℕ) (r : AuthRequest) (reg : Accounts)
      → Spent h reg
      → Spent h (auth_serve hash reg r)
  Spent-serve h (auth_add now username role) reg s =
      Spent-tokens h reg _ (add-tokens now username role reg) s
  Spent-serve h (auth_disable username) reg s = Spent-tokens h reg _ (disable-tokens username reg) s
  Spent-serve h (auth_create now token username ttl_hours) reg s =
      Spent-create now token username ttl_hours h reg s
  Spent-serve h (auth_revoke now id) reg s = Spent-revoke now id h reg s

  Spent-serve_all :
      (h : List ℕ) (rs : List AuthRequest) (reg : Accounts)
      → Spent h reg
      → Spent h (auth_serve_all hash reg rs)
  Spent-serve_all h [] reg s = s
  Spent-serve_all h (r ∷ rs) reg s =
      Spent-serve_all h rs (auth_serve hash reg r) (Spent-serve h r reg s)

  -- Once the only token id that a hash has is revoked, the token is not accepted any more, at any
  -- time and after any further calls of the registry.
  pub revoked_stays :
      (at id : ℕ) (token : List ℕ) (reg : Accounts) (rs : List AuthRequest) (now : ℕ)
      (who : Identity)
      → any (has_hash (hash token)) reg.tokens ≡ true
      → any (λ t. has_hash (hash token) t && not (has_token_id id t)) reg.tokens ≡ false
      → verify hash now token (auth_serve_all hash (token_revoke at id reg).1 rs) ≢ done who
  revoked_stays at id token reg rs now who there only e =
      let s = Spent-serve_all (hash token) rs _ (revoke-Spent at id (hash token) reg there only) in
      let a = verify-Accepts hash now token _ who e in
      let valid : any (valid_row (hash token)) _ ≡ true =
        find_on (has_hash (hash token)) (valid_row (hash token)) _ a.row a.token_found (
          ground
            (arith, a.not_revoked, (find-any (has_hash (hash token)) _ a.row a.token_found).0)) in
      ground (arith, valid, s.none_valid)
