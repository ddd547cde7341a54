-- ===== src/Storage/Safety/Upkeep.antt =====
-- src/storage/fr_storage.cpp: deletion, garbage collection and maintenance keep the tables and the files
-- safe.
use forgerelay.Prelude.{
  All-both, All-keep, All-map, All-self, Bool, Bool-cases, List, Option-cases, [], any, ap, arith,
  false, find, inl, inr, keep, ltb, not, same_text, same_text_refl, same_text→≡, some, subst, sym,
  true, ℕ, ◌&&◌, ◌+◌, ◌∷◌, ◌≡◌,
}
use forgerelay.Messages.Listing.{ArtifactInfo}
use forgerelay.Storage.{ChunkRow, Db, SessionInfo, committing}
use forgerelay.Storage.Safety.{
  Safe, Safe-fewer, Safe-mark_digests, Safe-mark_unreferenced_parts, Safe-update, referenced_differ,
}
use forgerelay.Storage.Safety.Files.{contents_of_mono}
use forgerelay.Storage.Sessions.Commit.{is_named}
use forgerelay.Storage.Tables.{
  activate_row, artifact_has, chunk_referenced, entry_has, file_has, is_active, live, row_has,
  update_rows,
}
use forgerelay.Storage.Tables.References.{
  Tames, any-keep, any-kept, has_active-activate, same_state→≡,
}
use forgerelay.Storage.Upkeep.{
  GcReport, collect_garbage, collect_loop, collect_one, delete_artifact, expire_row, is_stopped,
  mark_sessions, remove_chunk, roll_back_row, run_maintenance,
}

any-keep-not :
    {A : Type 0} (f g : A → Bool) (xs : List A)
    → ((x : A) → f x ≡ true → g x ≡ false)
    → any f xs ≡ true
    → any f (keep (λ x. not (g x)) xs) ≡ true
any-keep-not f g xs apart h = any-kept f (λ x. not (g x)) xs (λ x k. ground (arith, apart x k)) h

find-keep-not :
    {A : Type 0} (f g : A → Bool) (xs : List A) (x : A)
    → ((y : A) → f y ≡ true → g y ≡ false)
    → find f xs ≡ some x
    → find f (keep (λ y. not (g y)) xs) ≡ some x
find-keep-not f g [] x apart h = h
find-keep-not f g (y ∷ xs) x apart h = grind (arith, h, apart y, find-keep-not f g xs x apart)

-- A text is not both of two texts that differ.
apart_of : (a d e : List ℕ) → same_text d e ≡ false → same_text a d ≡ true → same_text a e ≡ false
apart_of a d e other h = subst (λ t. same_text t e ≡ false) (sym (same_text→≡ a d h)) other

artifact_referenced :
    (d : List ℕ) (a : ArtifactInfo) (db : Db)
    → ((f : ArtifactInfo → Bool) → f a ≡ true → any f db.artifacts ≡ true)
    → artifact_has d a ≡ true
    → chunk_referenced db d ≡ true
artifact_referenced d a db inside h = let there = inside (artifact_has d) h in ground (arith, there)

expire_row-Tames : (now : ℕ) → Tames (expire_row now)
expire_row-Tames now = record {
  same_id = λ s. ground arith;
  not_revived = λ s k. ground (arith, k);
}

roll_back_row-Tames : Tames roll_back_row
roll_back_row-Tames = record {
  same_id = λ s. ground arith;
  not_revived = λ s k. ground (arith, k, ap live, same_state→≡ s.state committing);
}

module _ {hash : List ℕ → List ℕ} where
  Safe-gone :
      (f : ArtifactInfo → Bool) (db : Db)
      → Safe hash db
      → Safe hash (record db { artifacts = keep f db.artifacts })
  Safe-gone f db s = record {
    kept = λ d r.
        let old : chunk_referenced db d ≡ true =
          ground (arith, r, any-keep (artifact_has d) f db.artifacts) in
        s.kept d old;
    sound = s.sound;
    intact = All-keep _ f db.artifacts s.intact;
    owned = s.owned;
  }

  pub Safe-delete_artifact :
      (now : ℕ) (ns name version : List ℕ) (db : Db)
      → Safe hash db
      → Safe hash (delete_artifact now ns name version db).1
  unfolding delete_artifact
  Safe-delete_artifact now ns name version db s =
      elim (Option-cases (find (is_named ns name version) db.artifacts)) [
        | inl gone ↦ rw (delete_artifact, gone) s
        | inr (a, found) ↦
            rw (delete_artifact, found)
              (Safe-mark_digests now _ _ (Safe-gone (λ x. not (is_named ns name version x)) db s))
      ]

  -- What nothing refers to may go.
  Safe-remove_chunk :
      (d : List ℕ) (db : Db)
      → chunk_referenced db d ≡ false
      → Safe hash db
      → Safe hash (remove_chunk d db)
  Safe-remove_chunk d db free s = record {
    kept = λ e r.
        let (row, file) = s.kept e r in
        let other = referenced_differ d e db free r in
        (
          any-keep-not (λ x. row_has e x && is_active x) (row_has d) db.chunks
              (λ x k. apart_of x.digest e d other (ground (arith, k))) row,
          any-keep-not (file_has e) (file_has d) db.files (λ x k. apart_of x.digest e d other k)
              file,
        );
    sound = All-keep _ (λ f. not (file_has d f)) db.files s.sound;
    intact =
        All-map _ _ db.artifacts
          (λ a (inside, (c, there, eq)). (
            c,
            contents_of_mono db.files _ a.chunks c
                (All-map _ _ a.chunks
                  (λ x listed f. find-keep-not (file_has x.digest) (file_has d) db.files f (λ y k.
                    apart_of y.digest x.digest d
                      (referenced_differ d x.digest db free (
                        artifact_referenced x.digest a db inside
                          (listed (entry_has x.digest) (same_text_refl x.digest))))
                      k))
                  (All-self a.chunks))
                there,
            eq,
          ))
          (All-both _ _ db.artifacts (All-self db.artifacts) s.intact);
    owned = s.owned;
  }

  Safe-activate :
      (d : List ℕ) (db : Db)
      → Safe hash db
      → Safe hash (record db { chunks = update_rows (activate_row d) db.chunks })
  Safe-activate d db s =
      Safe-fewer db db.sessions db.parts _ (λ e h. h) (λ e. has_active-activate d e db.chunks)
        s.owned s

  Safe-collect_one :
      (grace now : ℕ) (dry_run : Bool) (r : ChunkRow) (at : ℕ) (report : GcReport) (db : Db)
      → Safe hash db
      → Safe hash (collect_one grace now dry_run (r, at) (report, db)).1
  unfolding collect_one
  Safe-collect_one grace now dry_run r at report db s = elim (Bool-cases (ltb now (at + grace))) [
    | inl young ↦ rw young s
    | inr due ↦ elim (Bool-cases (chunk_referenced db r.digest)) [
      | inl used ↦ rw (due, used) (Safe-activate r.digest db s)
      | inr free ↦ elim (Bool-cases dry_run) [
        | inl dry ↦ rw (due, free, dry) s
        | inr wet ↦ rw (due, free, wet) (Safe-remove_chunk r.digest db free s)
      ]
    ]
  ]

  Safe-collect_loop :
      (grace now : ℕ) (dry_run : Bool) (cs : List (ChunkRow × ℕ)) (report : GcReport) (db : Db)
      → Safe hash db
      → Safe hash (collect_loop grace now dry_run cs (report, db)).1
  unfolding collect_loop
  Safe-collect_loop grace now dry_run [] report db s = s
  Safe-collect_loop grace now dry_run ((r, at) ∷ cs) report db s =
      let (report', db') = collect_one grace now dry_run (r, at) (report, db) in
      Safe-collect_loop grace now dry_run cs report' db'
        (Safe-collect_one grace now dry_run r at report db s)

  pub Safe-collect_garbage :
      (grace now : ℕ) (dry_run : Bool) (db : Db)
      → Safe hash db
      → Safe hash (collect_garbage grace now dry_run db).1
  unfolding collect_garbage
  Safe-collect_garbage grace now dry_run db s = Safe-collect_loop grace now dry_run _ _ db s

  Safe-mark_sessions :
      (now : ℕ) (ss : List SessionInfo) (db : Db)
      → Safe hash db
      → Safe hash (mark_sessions now ss db)
  Safe-mark_sessions now [] db s = s
  Safe-mark_sessions now (i ∷ ss) db s =
      Safe-mark_sessions now ss _ (Safe-mark_unreferenced_parts i.id now db s)

  pub Safe-run_maintenance :
      (now : ℕ) (db : Db) → Safe hash db → Safe hash (run_maintenance now db).1
  unfolding run_maintenance
  Safe-run_maintenance now db s =
      let sessions = update_rows roll_back_row (update_rows (expire_row now) db.sessions) in
      Safe-mark_sessions now (keep is_stopped sessions) _ (
        Safe-update roll_back_row roll_back_row-Tames _
          (Safe-update (expire_row now) (expire_row-Tames now) db s))
