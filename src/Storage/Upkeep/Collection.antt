-- ===== src/Storage/Upkeep/Collection.antt =====
-- src/storage/fr_storage.cpp: what a garbage collection leaves.
use forgerelay.Prelude.{
  Bool, Bool-cases, List, [], any, arith, false, inl, inr, keep, leb, ltb, not, refl,
  same_text_refl, true, ℕ, ◌&&◌, ◌+◌, ◌∷◌, ◌≡◌, ◌⊎◌,
}
use forgerelay.Storage.{ChunkRow, Db, row_active, row_pending}
use forgerelay.Storage.Tables.{activate_row, chunk_referenced, row_has, update_rows}
use forgerelay.Storage.Upkeep.{GcReport, candidates, collect_garbage, collect_loop, collect_one}

-- The row was marked a grace period ago, or earlier.
abbrev pub is_overdue : (grace now : ℕ) → ChunkRow → Bool
is_overdue grace now r = elim r.state [ row_active ↦ false | row_pending at ↦ leb (at + grace) now ]

-- A candidate of the row's chunk whose turn has come.
abbrev takes : (grace now : ℕ) → ChunkRow → ChunkRow × ℕ → Bool
takes grace now r (c, at) = row_has c.digest r && leb (at + grace) now

-- An overdue row that no candidate will take.
abbrev left_over : (grace now : ℕ) → List (ChunkRow × ℕ) → ChunkRow → Bool
left_over grace now cs r = is_overdue grace now r && not (any (takes grace now r) cs)

any-none :
    {A : Type 0} (f g : A → Bool) (xs : List A)
    → ((x : A) → f x ≡ true → g x ≡ true)
    → any g xs ≡ false
    → any f xs ≡ false
any-none f g [] imp h = h
any-none f g (x ∷ xs) imp h = ground (arith, h, imp x, any-none f g xs imp)

state_cases : (r : ChunkRow) → (r.state ≡ row_active) ⊎ (at : ℕ) × (r.state ≡ row_pending at)
state_cases r = elim r.state as (λ s. (s ≡ row_active) ⊎ (at : ℕ) × (s ≡ row_pending at)) [
  | row_active ↦ inl refl
  | row_pending at ↦ inr (at, refl)
]

candidates-none :
    (grace now : ℕ) (rows : List ChunkRow)
    → any (left_over grace now (candidates rows)) rows ≡ false
candidates-none grace now [] = refl
candidates-none grace now (r ∷ rows) = elim (state_cases r) [
  | inl live_now ↦ grind (arith, live_now, candidates-none grace now rows)
  | inr (at, marked) ↦
      let later : any (left_over grace now ((r, at) ∷ candidates rows)) rows ≡ false =
        any-none _ (left_over grace now (candidates rows)) rows (λ x k. ground (arith, k))
          (candidates-none grace now rows) in
      grind (arith, marked, later, same_text_refl r.digest)
]

-- A round changes no row but those of its chunk, and leaves none of those overdue.
keep-left_over :
    (grace now at : ℕ) (c : ChunkRow) (cs : List (ChunkRow × ℕ)) (rows : List ChunkRow)
    → leb (at + grace) now ≡ true
    → any (left_over grace now ((c, at) ∷ cs)) rows ≡ false
    → any (left_over grace now cs) (keep (λ r. not (row_has c.digest r)) rows) ≡ false
keep-left_over grace now at c cs [] due h = h
keep-left_over grace now at c cs (r ∷ rows) due h = elim (Bool-cases (row_has c.digest r)) [
  | inl same ↦ rw same (keep-left_over grace now at c cs rows due (ground (arith, h)))
  | inr other ↦ rw other (ground (arith, h, other, due, keep-left_over grace now at c cs rows due))
]

activate-left_over :
    (grace now at : ℕ) (c : ChunkRow) (cs : List (ChunkRow × ℕ)) (rows : List ChunkRow)
    → leb (at + grace) now ≡ true
    → any (left_over grace now ((c, at) ∷ cs)) rows ≡ false
    → any (left_over grace now cs) (update_rows (activate_row c.digest) rows) ≡ false
activate-left_over grace now at c cs [] due h = h
activate-left_over grace now at c cs (r ∷ rows) due h = elim (Bool-cases (row_has c.digest r)) [
  | inl same ↦ rw same (activate-left_over grace now at c cs rows due (ground (arith, h)))
  | inr other ↦
      rw other (ground (arith, h, other, due, activate-left_over grace now at c cs rows due))
]

collect_one-left_over :
    (grace now at : ℕ) (c : ChunkRow) (cs : List (ChunkRow × ℕ)) (report : GcReport) (db : Db)
    → any (left_over grace now ((c, at) ∷ cs)) db.chunks ≡ false
    → any (left_over grace now cs) (collect_one grace now false (c, at) (report, db)).1.chunks
      ≡ false
unfolding collect_one
collect_one-left_over grace now at c cs report db h = elim (Bool-cases (ltb now (at + grace))) [
  | inl young ↦ rw young (
      any-none (left_over grace now cs) (left_over grace now ((c, at) ∷ cs)) db.chunks
        (λ r k. ground (arith, k, young)) h)
  | inr old ↦
      let due : leb (at + grace) now ≡ true = ground (arith, old) in
      elim (Bool-cases (chunk_referenced db c.digest)) [
        | inl used ↦ rw (old, used) (activate-left_over grace now at c cs db.chunks due h)
        | inr free ↦ rw (old, free) (keep-left_over grace now at c cs db.chunks due h)
      ]
]

collect_loop-left_over :
    (grace now : ℕ) (cs : List (ChunkRow × ℕ)) (report : GcReport) (db : Db)
    → any (left_over grace now cs) db.chunks ≡ false
    → any (is_overdue grace now) (collect_loop grace now false cs (report, db)).1.chunks ≡ false
unfolding collect_loop
collect_loop-left_over grace now [] report db h =
    any-none (is_overdue grace now) (left_over grace now []) db.chunks (λ r k. ground (arith, k)) h
collect_loop-left_over grace now ((c, at) ∷ cs) report db h =
    let (report', db') = collect_one grace now false (c, at) (report, db) in
    collect_loop-left_over grace now cs report' db'
      (collect_one-left_over grace now at c cs report db h)

-- After a garbage collection that is not a dry run, no row is left that was marked a grace period
-- ago or earlier.
pub collect_garbage-overdue :
    (grace now : ℕ) (db : Db)
    → any (is_overdue grace now) (collect_garbage grace now false db).1.chunks ≡ false
unfolding collect_garbage
collect_garbage-overdue grace now db =
    collect_loop-left_over grace now (candidates db.chunks) _ db
      (candidates-none grace now db.chunks)
