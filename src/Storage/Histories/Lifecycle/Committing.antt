-- ===== src/Storage/Histories/Lifecycle/Committing.antt =====
-- src/storage/fr_storage.cpp: which sessions a call leaves COMMITTING.
use forgerelay.Prelude.{
  Bool, Bool-cases, List, [], any, any-append, ap, arith, false, find, inl, inr, refl, same_text,
  same_text_refl, same_text→≡, some, subst, true, ℕ, ◌&&◌, ◌++◌, ◌∙◌, ◌∷◌, ◌≡◌,
}
use forgerelay.Storage.{
  SessionInfo, SessionState, StorageConfig, aborted, committing, empty_db, expired, opened,
}
use forgerelay.Storage.Histories.{Request, serve_all}
use forgerelay.Storage.Histories.Lifecycle.{
  SessionStep, SessionSteps, no_step, step_aborted, step_and, step_committed, step_created,
  step_expired, step_recovered, step_rolled_back, step_stuck, step_swept,
}
use forgerelay.Storage.Histories.Lifecycle.Served.{serve_all-SessionSteps}
use forgerelay.Storage.Sessions.{chunk_count}
use forgerelay.Storage.Sessions.Commit.{complete}
use forgerelay.Storage.Tables.{has_id, move_state, same_state, update_rows}
use forgerelay.Storage.Tables.References.{any-kept_rows, any-update}
use forgerelay.Storage.Upkeep.{expire_row, roll_back_row}

abbrev pub is_committing : SessionInfo → Bool
is_committing s = same_state s.state committing

update_rows-update_rows :
    (f g : SessionInfo → SessionInfo) (ss : List SessionInfo)
    → update_rows f (update_rows g ss) ≡ update_rows (λ s. f (g s)) ss
update_rows-update_rows f g [] = refl
update_rows-update_rows f g (s ∷ ss) = ap (λ t. f (g s) ∷ t) (update_rows-update_rows f g ss)

-- The session is COMMITTING although memory has room for its manifest.
abbrev pub lingers : (ℕ → Bool) → SessionInfo → Bool
lingers room s = is_committing s && room (chunk_count s)

-- No two rows have the same id.
abbrev Unique : List SessionInfo → Type 0
Unique [] = Unit {0}
Unique (s ∷ ss) = (any (has_id s.id) ss ≡ false) × Unique ss

Unique-update :
    (f : SessionInfo → SessionInfo) (ss : List SessionInfo)
    → ((s : SessionInfo) → (f s).id ≡ s.id)
    → Unique ss
    → Unique (update_rows f ss)
Unique-update f [] same u = tt
Unique-update f (s ∷ ss) same (new, u) = (
  ap (λ t. any (has_id t) (update_rows f ss)) (same s)
      ∙ any-kept_rows f (has_id s.id) ss (λ x. ap (λ t. same_text t s.id) (same x))
      ∙ new,
  Unique-update f ss same u,
)

Unique-created :
    (i : SessionInfo) (ss : List SessionInfo)
    → any (has_id i.id) ss ≡ false
    → Unique ss
    → Unique (ss ++ i ∷ [])
Unique-created i [] new u = (refl, tt)
Unique-created i (s ∷ ss) new (apart, u) = (
  any-append (has_id s.id) ss (i ∷ []) ∙ ground (arith, apart, differs),
  Unique-created i ss (ground (arith, new)) u,
)
  where
    differs : same_text i.id s.id ≡ false
    differs = elim (Bool-cases (same_text i.id s.id)) [
      | inr other ↦ other
      | inl same ↦
          let back : same_text s.id i.id ≡ true =
            subst (λ t. same_text t i.id ≡ true) (same_text→≡ i.id s.id same)
              (same_text_refl i.id) in
          absurd (ground (arith, back, new))
    ]

-- Where the one row of the id has no room, no row of the id has.
no_room :
    (room : ℕ → Bool) (id : List ℕ) (i : SessionInfo) (ss : List SessionInfo)
    → Unique ss
    → find (has_id id) ss ≡ some i
    → room (chunk_count i) ≡ false
    → any (λ s. has_id id s && room (chunk_count s)) ss ≡ false
no_room room id i [] u found full = refl
no_room room id i (s ∷ ss) (apart, u) found full = elim (Bool-cases (has_id id s)) [
  | inr other ↦ rw other (no_room room id i ss u (grind (arith, found, other)) full)
  | inl same ↦
      let first_one : s ≡ i = grind (arith, found, same) in
      let closed : room (chunk_count s) ≡ false = ap (λ x. room (chunk_count x)) first_one ∙ full in
      let apart' : any (has_id id) ss ≡ false =
        subst (λ t. any (has_id t) ss ≡ false) (same_text→≡ s.id id same) apart in
      rw (same, closed) (any_none ss apart')
]
  where
    any_none :
        (ss : List SessionInfo)
        → any (has_id id) ss ≡ false
        → any (λ s. has_id id s && room (chunk_count s)) ss ≡ false
    any_none [] h = refl
    any_none (s ∷ ss) h = ground (arith, h, any_none ss)

chunk_count-move :
    (id : List ℕ) (from to : SessionState) (s : SessionInfo)
    → chunk_count (move_state id from to s) ≡ chunk_count s
unfolding chunk_count
chunk_count-move id from to s = ground arith

stuck-lingers :
    (room : ℕ → Bool) (id : List ℕ) (ss : List SessionInfo)
    → any (λ s. has_id id s && room (chunk_count s)) ss ≡ false
    → any (lingers room) ss ≡ false
    → any (lingers room) (update_rows (move_state id opened committing) ss) ≡ false
stuck-lingers room id [] full h = refl
stuck-lingers room id (s ∷ ss) full h =
    ground
      (arith, full, h, ap room (chunk_count-move id opened committing s), stuck-lingers room id ss)

step-Unique :
    {room : ℕ → Bool} → {ss ts : List SessionInfo} → SessionStep room ss ts → Unique ss → Unique ts
step-Unique {ss = ss} (step_created i is_open new) u = Unique-created i ss new u
step-Unique {ss = ss} (step_expired id) u = Unique-update _ ss (λ s. ground arith) u
step-Unique {ss = ss} (step_aborted id from alive) u = Unique-update _ ss (λ s. ground arith) u
step-Unique {ss = ss} (step_committed id moves) u =
    Unique-update _ _ (λ s. ground arith) (Unique-update _ ss (λ s. ground arith) u)
step-Unique {ss = ss} (step_rolled_back id) u =
    Unique-update _ _ (λ s. ground arith) (Unique-update _ ss (λ s. ground arith) u)
step-Unique {ss = ss} (step_stuck id i found moves full) u =
    Unique-update _ ss (λ s. ground arith) u
step-Unique {ss = ss} (step_swept now) u = Unique-update _ ss (λ s. ground arith) u
step-Unique {ss = ss} step_recovered u = Unique-update _ ss (λ s. ground arith) u

step-lingers :
    {room : ℕ → Bool}
    → {ss ts : List SessionInfo} → SessionStep room ss ts
    → Unique ss
    → any (lingers room) ss ≡ false
    → any (lingers room) ts ≡ false
step-lingers {room} {ss} (step_created i is_open new) u h =
    ground
      (arith, h, any-append (lingers room) ss (i ∷ []), ap (λ x. same_state x committing) is_open)
step-lingers {room} {ss} (step_expired id) u h =
    any-update (move_state id opened expired) (lingers room) ss (λ s k. ground (arith, k)) h
step-lingers {room} {ss} (step_aborted id from alive) u h =
    any-update (move_state id from aborted) (lingers room) ss (λ s k. ground (arith, k)) h
step-lingers {room} {ss} (step_committed id moves) u h =
    rw (update_rows-update_rows (complete id) (move_state id opened committing) ss) (
      any-update (λ s. complete id (move_state id opened committing s)) (lingers room) ss
        (λ s k. ground (arith, k)) h)
step-lingers {room} {ss} (step_rolled_back id) u h =
    rw
      (update_rows-update_rows (move_state id committing opened) (move_state id opened committing)
        ss)
      (any-update (λ s. move_state id committing opened (move_state id opened committing s))
        (lingers room) ss (λ s k. ground (arith, k)) h)
step-lingers {room} {ss} (step_stuck id i found moves full) u h =
    stuck-lingers room id ss (no_room room id i ss u found full) h
step-lingers {room} {ss} (step_swept now) u h =
    any-update (expire_row now) (lingers room) ss (λ s k. ground (arith, k)) h
step-lingers {room} {ss} (step_recovered) u h =
    any-update roll_back_row (lingers room) ss (λ s k. ground (arith, k)) h

steps-lingers :
    {room : ℕ → Bool}
    → {ss ts : List SessionInfo} → SessionSteps room ss ts
    → Unique ss
    → any (lingers room) ss ≡ false
    → any (lingers room) ts ≡ false
steps-lingers no_step u h = h
steps-lingers (step_and s p) u h = steps-lingers p (step-Unique s u) (step-lingers s u h)

module _ (hash : List ℕ → List ℕ) (room : ℕ → Bool) (cfg : StorageConfig) where
  -- After any sequence of calls on tables that were empty, every session that is COMMITTING is
  -- one whose manifest memory has no room for, where memory has room for the same numbers of
  -- chunks at every call.
  pub serve_all-committing :
      (rs : List Request)
      → any (lingers room) (serve_all hash room cfg empty_db rs).sessions ≡ false
  serve_all-committing rs = steps-lingers (serve_all-SessionSteps hash room cfg rs empty_db) tt refl
