-- ===== src/Storage/Safety/Manifest.antt =====
-- src/storage/fr_storage.cpp: the manifest that a commit builds refers to parts of its live session only.
use forgerelay.Prelude.{
  Bool, List, Option-cases, [], any, any_mono, ap, arith, inl, inr, keep, pos, refl, same_text,
  same_text→≡, some, subst, suc, sym, true, ℕ, ◌%◌, ◌&&◌, ◌+◌, ◌^◌, ◌||◌, ◌∙◌, ◌∷◌, ◌≡◌, ◌≤◌,
}
use forgerelay.Messages.Listing.{ManifestEntry}
use forgerelay.Storage.{Db, SessionInfo, UploadPart, committing, opened}
use forgerelay.Storage.Sessions.Commit.{Built, add_entry, build_manifest, by_ordinal, insert_part}
use forgerelay.Storage.Tables.{
  chunk_referenced, entry_has, has_id, is_live, move_state, of_session, part_live, same_state,
  transition, transits, update_rows,
}

any-insert_part :
    (f : UploadPart → Bool) (p : UploadPart) (ps : List UploadPart)
    → any f (insert_part p ps) ≡ f p || any f ps
any-insert_part f p [] = refl
any-insert_part f p (q ∷ ps) = ground (arith, any-insert_part f p ps)

any-by_ordinal : (f : UploadPart → Bool) (ps : List UploadPart) → any f (by_ordinal ps) ≡ any f ps
any-by_ordinal f [] = refl
any-by_ordinal f (p ∷ ps) =
    any-insert_part f p (by_ordinal ps) ∙ ap (λ b. f p || b) (any-by_ordinal f ps)

any-keep_and :
    (f g : UploadPart → Bool) (ps : List UploadPart) → any f (keep g ps) ≡ any (λ p. f p && g p) ps
any-keep_and f g [] = refl
any-keep_and f g (p ∷ ps) = ground (arith, any-keep_and f g ps)

abbrev pub entry_at : ℕ → UploadPart → ManifestEntry
entry_at total p = record {
  ordinal = pos p.ordinal;
  offset = total;
  extent = p.extent;
  digest = p.digest;
}

pub build_manifest-cons :
    (size ordinal total : ℕ) (p : UploadPart) (ps : List UploadPart) (b : Built)
    → build_manifest size ordinal total (p ∷ ps) ≡ some b
    → (rest : Built) × (build_manifest size (suc ordinal) ((total + p.extent) % 2 ^ 64) ps
        ≡ some rest)
      × (b ≡ record { manifest = entry_at total p ∷ rest.manifest; total = rest.total })
      × (p.ordinal ≡ ordinal)
      × (p.extent ≤ size)
unfolding build_manifest add_entry
build_manifest-cons size ordinal total p ps b e =
    elim (Option-cases (build_manifest size (suc ordinal) ((total + p.extent) % 2 ^ 64) ps)) [
      | inl stopped ↦ grind (arith, e, stopped)
      | inr (rest, built) ↦
          (rest, built, grind (arith, e, built), grind (arith, e, built), grind (arith, e, built))
    ]

build_manifest-any :
    (d : List ℕ) (size ordinal total : ℕ) (ps : List UploadPart) (b : Built)
    → build_manifest size ordinal total ps ≡ some b
    → any (entry_has d) b.manifest ≡ true
    → any (λ p. same_text p.digest d) ps ≡ true
unfolding build_manifest add_entry
build_manifest-any d size ordinal total [] b e h = grind (arith, e, h)
build_manifest-any d size ordinal total (p ∷ ps) b e h =
    let (rest, built, eq, _, _) = build_manifest-cons size ordinal total p ps b e in
    let there : any (entry_has d) (entry_at total p ∷ rest.manifest) ≡ true =
      subst (λ x. any (entry_has d) x.manifest ≡ true) eq h in
    ground (arith, there, build_manifest-any d size (suc ordinal) _ ps rest built)

-- A session that moves to COMMITTING is live.
transits-live :
    (id : List ℕ) (ss : List SessionInfo)
    → any (λ s. has_id id s && same_state s.state opened) ss ≡ true
    → any (λ s. has_id id s && is_live s) (update_rows (move_state id opened committing) ss) ≡ true
transits-live id [] h = h
transits-live id (s ∷ ss) h = ground (arith, h, transits-live id ss)

-- What the manifest refers to is referred to by the session's parts already.
pub manifest_referenced :
    (d id : List ℕ) (size : ℕ) (db : Db) (b : Built)
    → transits id opened db ≡ true
    → build_manifest size 0 0 (by_ordinal (keep (of_session id) db.parts)) ≡ some b
    → any (entry_has d) b.manifest ≡ true
    → chunk_referenced (transition id opened committing db) d ≡ true
unfolding transits transition
manifest_referenced d id size db b moves built h =
    let found : any (λ p. same_text p.digest d && of_session id p) db.parts ≡ true =
      sym (any-keep_and _ (of_session id) db.parts)
      ∙ sym (any-by_ordinal _ (keep (of_session id) db.parts))
      ∙ build_manifest-any d size 0 0 _ b built h in
    let parts : any (part_live (update_rows (move_state id opened committing) db.sessions) d)
          db.parts
        ≡ true =
      any_mono _ _ db.parts (λ p k. ground (arith, k, at_session p)) found in
    ground (arith, parts)
  where
    at_session :
        (p : UploadPart)
        → of_session id p ≡ true
        → any
            (λ s. has_id p.session_id s && is_live s)
            (update_rows (move_state id opened committing) db.sessions)
          ≡ true
    at_session p h =
        subst
          (λ t.
            any (λ s. has_id t s && is_live s)
              (update_rows (move_state id opened committing) db.sessions)
            ≡ true)
          (sym (same_text→≡ p.session_id id h)) (transits-live id db.sessions moves)
