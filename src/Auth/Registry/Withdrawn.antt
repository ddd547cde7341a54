-- ===== src/Auth/Registry/Withdrawn.antt =====
-- src/service/fr_auth.cpp: a disabled user and a revoked token stay so.
use forgerelay.Prelude.{
  Bool, Bool-cases, List, Option-cases, [], any, any-append, ap, arith, c_str, false, find, inl,
  inr, not, refl, same_text, same_text→≡, some, subst, sym, true, ℕ, ◌&&◌, ◌||◌, ◌∙◌, ◌∷◌, ◌≡◌,
}
use forgerelay.Auth.{Accounts, Identity, Role, UserRow}
use forgerelay.Auth.Registry.{
  disable_row, has_hash, has_user_id, insert_token, named, token_create, token_revoke, user_add,
  user_disable, verify,
}
use forgerelay.Auth.Registry.Lasting.{
  AuthRequest, auth_add, auth_create, auth_disable, auth_revoke, auth_serve, auth_serve_all,
  verify-Accepts,
}
use forgerelay.Core.Path.{ident_valid_component}
use forgerelay.Messages.Fields.{done}
use forgerelay.Storage.Tables.{update_rows}
use forgerelay.Storage.Tables.References.{any-kept_rows, any-update}

abbrev on_row : List ℕ → UserRow → Bool
on_row username u = named username u && u.enabled

-- The user is there, and no row of the name is enabled.
record Off (username : List ℕ) (reg : Accounts) : Type 0 where
  known : any (named username) reg.users ≡ true
  none_on : any (on_row username) reg.users ≡ false

disable-Off :
    (username : List ℕ) (reg : Accounts)
    → (user_disable username reg).0 ≡ done tt
    → Off username (user_disable username reg).1
unfolding user_disable
disable-Off username reg ok = elim (Bool-cases (any (named username) reg.users)) [
  | inr unknown ↦ absurd (grind (arith, ok, unknown))
  | inl there ↦ rw there record {
    known =
        any-kept_rows (disable_row username) (named username) reg.users (λ u. ground arith) ∙ there;
    none_on = all_off username reg.users;
  }
]
  where
    all_off :
        (username : List ℕ) (us : List UserRow)
        → any (on_row username) (update_rows (disable_row username) us) ≡ false
    all_off username [] = refl
    all_off username (u ∷ us) = ground (arith, all_off username us)

add-Off :
    (now : ℕ) (username newcomer : List ℕ) (role : Role) (reg : Accounts)
    → Off username reg
    → Off username (user_add now newcomer role reg).1
unfolding user_add
add-Off now username newcomer role reg o =
    elim (Bool-cases (same_text newcomer [] || not (ident_valid_component (c_str newcomer)))) [
      | inl bad ↦ rw bad o
      | inr good ↦ elim (Bool-cases (any (named newcomer) reg.users)) [
        | inl taken ↦ rw (good, taken) o
        | inr free ↦
            rw (good, free)
              record {
                known = any-append (named username) reg.users (_ ∷ []) ∙ ground (arith, o.known);
                none_on =
                    any-append (on_row username) reg.users (_ ∷ [])
                    ∙ ground (arith, o.none_on, differs free);
              }
      ]
    ]
  where
    differs : any (named newcomer) reg.users ≡ false → same_text newcomer username ≡ false
    differs free = elim (Bool-cases (same_text newcomer username)) [
      | inr other ↦ other
      | inl same ↦
          let there : any (named newcomer) reg.users ≡ true =
            subst (λ t. any (named t) reg.users ≡ true) (sym (same_text→≡ newcomer username same))
              o.known in
          absurd (ground (arith, there, free))
    ]

disabled-Off :
    (username other : List ℕ) (reg : Accounts)
    → Off username reg
    → Off username (user_disable other reg).1
unfolding user_disable
disabled-Off username other reg o = elim (Bool-cases (any (named other) reg.users)) [
  | inr unknown ↦ rw unknown o
  | inl there ↦ rw there record {
    known =
        any-kept_rows (disable_row other) (named username) reg.users (λ u. ground arith) ∙ o.known;
    none_on =
        any-update (disable_row other) (on_row username) reg.users (λ u k. ground (arith, k))
          o.none_on;
  }
]

pub find_on :
    {A : Type 0} (f g : A → Bool) (us : List A) (u : A)
    → find f us ≡ some u
    → g u ≡ true
    → any g us ≡ true
find_on f g [] u e h = cc e
find_on f g (x ∷ us) u e h = elim (Bool-cases (f x)) [
  | inl here ↦
      let same : x ≡ u = grind (arith, e, here) in
      let passes : g x ≡ true = ap g same ∙ h in ground (arith, passes)
  | inr later ↦
      let passes : any g us ≡ true = find_on f g us u (grind (arith, e, later)) h in
      ground (arith, passes)
]

module _ (hash : List ℕ → List ℕ) where
  create-users :
      (now : ℕ) (token username : List ℕ) (ttl_hours : ℕ) (reg : Accounts)
      → (token_create hash now token username ttl_hours reg).1.users ≡ reg.users
  unfolding token_create insert_token
  create-users now token username ttl_hours reg =
      elim (Option-cases (find (named username) reg.users)) [
        | inl unknown ↦ rw unknown refl
        | inr (u, found) ↦ elim (Bool-cases u.enabled) [
          | inr off ↦ rw (found, off) refl
          | inl on ↦ elim (Bool-cases (any (has_hash (hash token)) reg.tokens)) [
            | inl taken ↦ rw (found, on, taken) refl
            | inr free ↦ rw (found, on, free) refl
          ]
        ]
      ]

  revoke-users : (now id : ℕ) (reg : Accounts) → (token_revoke now id reg).1.users ≡ reg.users
  unfolding token_revoke
  revoke-users now id reg = ground arith

  serve-Off :
      (username : List ℕ) (r : AuthRequest) (reg : Accounts)
      → Off username reg
      → Off username (auth_serve hash reg r)
  serve-Off username (auth_add now newcomer role) reg o = add-Off now username newcomer role reg o
  serve-Off username (auth_disable other) reg o = disabled-Off username other reg o
  serve-Off username (auth_create now token other ttl_hours) reg o = record {
    known = ap (any (named username)) (create-users now token other ttl_hours reg) ∙ o.known;
    none_on = ap (any (on_row username)) (create-users now token other ttl_hours reg) ∙ o.none_on;
  }
  serve-Off username (auth_revoke now id) reg o = record {
    known = ap (any (named username)) (revoke-users now id reg) ∙ o.known;
    none_on = ap (any (on_row username)) (revoke-users now id reg) ∙ o.none_on;
  }

  serve_all-Off :
      (username : List ℕ) (rs : List AuthRequest) (reg : Accounts)
      → Off username reg
      → Off username (auth_serve_all hash reg rs)
  serve_all-Off username [] reg o = o
  serve_all-Off username (r ∷ rs) reg o =
      serve_all-Off username rs (auth_serve hash reg r) (serve-Off username r reg o)

  -- Once a user is disabled, no token is accepted for that name any more, at any time and after
  -- any further calls of the registry.
  pub disabled_stays :
      (username : List ℕ) (reg : Accounts) (rs : List AuthRequest) (now : ℕ) (token : List ℕ)
      (who : Identity)
      → (user_disable username reg).0 ≡ done tt
      → verify hash now token (auth_serve_all hash (user_disable username reg).1 rs) ≡ done who
      → same_text who.username username ≡ false
  disabled_stays username reg rs now token who ok e =
      let o = serve_all-Off username rs _ (disable-Off username reg ok) in
      let a = verify-Accepts hash now token _ who e in
      elim (Bool-cases (same_text who.username username)) [
        | inr other ↦ other
        | inl same ↦
            let name : same_text a.user_row.username username ≡ true =
              subst (λ w. same_text w.username username ≡ true) a.told same in
            let there : any (on_row username) _ ≡ true =
              find_on (has_user_id a.row.user_id) (on_row username) _ a.user_row a.user_found
                (ground (arith, name, a.still_enabled)) in
            absurd (ground (arith, there, o.none_on))
      ]
