-- ===== src/Storage/Histories/Lifecycle/Ended.antt =====
-- src/storage/fr_storage.cpp: what every sequence of steps of the session state machine keeps.
use forgerelay.Prelude.{
  Bool, Bool-cases, List, [], any, any-append, any_mono, ap, arith, false, find, find-any,
  find-append, inl, inr, refl, same_text, same_text→≡, some, subst, sym, true, ℕ, ◌&&◌, ◌++◌, ◌∙◌,
  ◌∷◌, ◌≡◌,
}
use forgerelay.Storage.{
  Db, SessionInfo, SessionState, StorageConfig, aborted, committing, expired, opened,
}
use forgerelay.Storage.Histories.{Request, serve_all}
use forgerelay.Storage.Histories.Lifecycle.{
  SessionStep, SessionSteps, has_opened, no_step, step_aborted, step_and, step_committed,
  step_created, step_expired, step_recovered, step_rolled_back, step_stuck, step_swept,
}
use forgerelay.Storage.Histories.Lifecycle.Served.{serve_all-SessionSteps}
use forgerelay.Storage.Sessions.Commit.{complete}
use forgerelay.Storage.Tables.{
  has_id, is_live, live, load_session, move_state, same_state, update_rows,
}
use forgerelay.Storage.Tables.References.{any-update, same_state→≡}
use forgerelay.Storage.Upkeep.{expire_row, roll_back_row}

abbrev live_row : List ℕ → SessionInfo → Bool
live_row id s = has_id id s && is_live s

-- The first row of the id, and no row of the id is live.
record Ends (id : List ℕ) (i : SessionInfo) (ss : List SessionInfo) : Type 0 where
  first_row : find (has_id id) ss ≡ some i
  none_live : any (live_row id) ss ≡ false

-- An update that leaves the rows of the id that are not live.
record Leaves (id : List ℕ) (f : SessionInfo → SessionInfo) : Type 0 where
  keeps_id : (s : SessionInfo) → (f s).id ≡ s.id
  keeps_row : (s : SessionInfo) → has_id id s ≡ true → is_live s ≡ false → f s ≡ s

found-update :
    (f : SessionInfo → SessionInfo) (id : List ℕ) (i : SessionInfo) (ss : List SessionInfo)
    → Leaves id f
    → any (live_row id) ss ≡ false
    → find (has_id id) ss ≡ some i
    → find (has_id id) (update_rows f ss) ≡ some i
found-update f id i [] l dead found = found
found-update f id i (s ∷ ss) l dead found = elim (Bool-cases (has_id id s)) [
  | inl same ↦
      let row : f s ≡ s = l.keeps_row s same (ground (arith, same, dead)) in
      rw (row, same) (grind (arith, found, same))
  | inr other ↦
      rw (l.keeps_id s, other)
        (found-update f id i ss l (ground (arith, dead)) (grind (arith, found, other)))
]

live_row-update :
    (f : SessionInfo → SessionInfo) (id : List ℕ) (s : SessionInfo)
    → Leaves id f
    → live_row id s ≡ false
    → live_row id (f s) ≡ false
live_row-update f id s l dead = elim (Bool-cases (has_id id s)) [
  | inl same ↦ rw (l.keeps_row s same (ground (arith, same, dead))) dead
  | inr other ↦ rw (l.keeps_id s, other) refl
]

Ends-update :
    (f : SessionInfo → SessionInfo) (id : List ℕ) (i : SessionInfo) (ss : List SessionInfo)
    → Leaves id f
    → Ends id i ss
    → Ends id i (update_rows f ss)
Ends-update f id i ss l e = record {
  first_row = found-update f id i ss l e.none_live e.first_row;
  none_live = any-update f (live_row id) ss (λ s. live_row-update f id s l) e.none_live;
}

-- An update under a test that no dead row passes.
dead_row :
    (from : SessionState) (s : SessionInfo)
    → live from ≡ true
    → is_live s ≡ false
    → same_state s.state from ≡ false
dead_row from s alive dead = elim (Bool-cases (same_state s.state from)) [
  | inr differs ↦ differs
  | inl same ↦
      let both : live s.state ≡ true = ap live (same_state→≡ s.state from same) ∙ alive in
      absurd (ground (arith, both, dead))
]

move-Leaves :
    (id other : List ℕ) (from to : SessionState)
    → live from ≡ true
    → Leaves id (move_state other from to)
move-Leaves id other from to alive = record {
  keeps_id = λ s. ground arith;
  keeps_row = λ s same dead. grind (arith, dead_row from s alive dead);
}

expire_row-Leaves : (id : List ℕ) (now : ℕ) → Leaves id (expire_row now)
expire_row-Leaves id now = record {
  keeps_id = λ s. ground arith;
  keeps_row = λ s same dead. grind (arith, dead_row opened s refl dead);
}

roll_back_row-Leaves : (id : List ℕ) → Leaves id roll_back_row
roll_back_row-Leaves id = record {
  keeps_id = λ s. ground arith;
  keeps_row = λ s same dead. grind (arith, dead_row committing s refl dead);
}

-- A row of another id.
other_row :
    (id other : List ℕ) (s : SessionInfo)
    → same_text other id ≡ false
    → has_id id s ≡ true
    → has_id other s ≡ false
other_row id other s differs same = elim (Bool-cases (has_id other s)) [
  | inr apart ↦ apart
  | inl both ↦
      let united : same_text other id ≡ true =
        subst (λ t. same_text t id ≡ true) (same_text→≡ s.id other both) same in
      absurd (ground (arith, united, differs))
]

complete-Leaves : (id other : List ℕ) → same_text other id ≡ false → Leaves id (complete other)
complete-Leaves id other differs = record {
  keeps_id = λ s. ground arith;
  keeps_row = λ s same dead. rw (other_row id other s differs same) refl;
}

committed-Ends :
    (id other : List ℕ) (i : SessionInfo) (ss : List SessionInfo)
    → any (has_opened other) ss ≡ true
    → Ends id i ss
    → Ends id i (update_rows (complete other) (update_rows (move_state other opened committing) ss))
committed-Ends id other i ss moves e = elim (Bool-cases (same_text other id)) [
  | inr differs ↦
      Ends-update (complete other) id i _ (complete-Leaves id other differs)
        (Ends-update _ id i ss (move-Leaves id other opened committing refl) e)
  | inl same ↦
      let there : any (has_opened id) ss ≡ true =
        subst (λ t. any (has_opened t) ss ≡ true) (same_text→≡ other id same) moves in
      let alive : any (live_row id) ss ≡ true =
        any_mono (has_opened id) (live_row id) ss
          (λ s k. ground (arith, k, ap live, same_state→≡ s.state opened)) there in
      absurd (ground (arith, alive, e.none_live))
]

created-Ends :
    (id : List ℕ) (i j : SessionInfo) (ss : List SessionInfo)
    → any (has_id j.id) ss ≡ false
    → Ends id i ss
    → Ends id i (ss ++ j ∷ [])
created-Ends id i j ss new e = record {
  first_row = find-append (has_id id) ss (j ∷ []) i e.first_row;
  none_live = any-append (live_row id) ss (j ∷ []) ∙ ground (arith, e.none_live, differs);
}
  where
    differs : same_text j.id id ≡ false
    differs = elim (Bool-cases (same_text j.id id)) [
      | inr apart ↦ apart
      | inl same ↦
          let there : any (has_id j.id) ss ≡ true =
            subst (λ t. any (has_id t) ss ≡ true) (sym (same_text→≡ j.id id same))
              (find-any (has_id id) ss i e.first_row).1 in
          absurd (ground (arith, there, new))
    ]

step-Ends :
    {room : ℕ → Bool}
    → {ss ts : List SessionInfo} → (id : List ℕ) (i : SessionInfo) → SessionStep room ss ts
    → Ends id i ss
    → Ends id i ts
step-Ends {ss} id i (step_created j is_open new) e = created-Ends id i j ss new e
step-Ends {ss} id i (step_expired other) e =
    Ends-update _ id i ss (move-Leaves id other opened expired refl) e
step-Ends {ss} id i (step_aborted other from alive) e =
    Ends-update _ id i ss (move-Leaves id other from aborted alive) e
step-Ends {ss} id i (step_committed other moves) e = committed-Ends id other i ss moves e
step-Ends {ss} id i (step_rolled_back other) e =
    Ends-update _ id i _ (move-Leaves id other committing opened refl)
      (Ends-update _ id i ss (move-Leaves id other opened committing refl) e)
step-Ends {ss} id i (step_stuck other j found moves full) e =
    Ends-update _ id i ss (move-Leaves id other opened committing refl) e
step-Ends {ss} id i (step_swept now) e =
    Ends-update (expire_row now) id i ss (expire_row-Leaves id now) e
step-Ends {ss} id i step_recovered e = Ends-update roll_back_row id i ss (roll_back_row-Leaves id) e

steps-Ends :
    {room : ℕ → Bool}
    → {ss ts : List SessionInfo} → (id : List ℕ) (i : SessionInfo) → SessionSteps room ss ts
    → Ends id i ss
    → Ends id i ts
steps-Ends id i no_step e = e
steps-Ends id i (step_and s p) e = steps-Ends id i p (step-Ends id i s e)

module _ (hash : List ℕ → List ℕ) (room : ℕ → Bool) (cfg : StorageConfig) where
  -- A session with an id of which no row is live is loaded after any further calls as it was
  -- before them.
  pub serve_all-ended :
      (rs : List Request) (db : Db) (id : List ℕ) (i : SessionInfo)
      → load_session id db ≡ some i
      → any (λ s. has_id id s && is_live s) db.sessions ≡ false
      → load_session id (serve_all hash room cfg db rs) ≡ some i
  unfolding load_session
  serve_all-ended rs db id i found dead =
      (steps-Ends id i (serve_all-SessionSteps hash room cfg rs db)
        (record { first_row = found; none_live = dead })).first_row
