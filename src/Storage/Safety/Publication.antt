-- ===== src/Storage/Safety/Publication.antt =====
-- src/storage/fr_storage.cpp: what a commit that succeeds has found and written.
use forgerelay.Prelude.{
  ==_iff, Bool, Bool-cases, List, Option, Option-cases, [], any, ap, arith, false, inl, inr, keep,
  leb, length, none, pos, refl, same_text, same_text→≡, some, subst, suc, sym, ℕ, ◌%◌, ◌&&◌, ◌++◌,
  ◌+◌, ◌==◌, ◌^◌, ◌∙◌, ◌∷◌, ◌≡◌, ◌≤◌,
}
use forgerelay.Messages.Fields.{done}
use forgerelay.Messages.Listing.{ArtifactInfo, ManifestEntry}
use forgerelay.Storage.{Db, SessionInfo, UploadPart, committing, expired, opened}
use forgerelay.Storage.Safety.{IsIntact}
use forgerelay.Storage.Safety.Manifest.{build_manifest-cons}
use forgerelay.Storage.Sessions.{chunk_count}
use forgerelay.Storage.Sessions.Commit.{
  Built, artifact_of, build_manifest, by_ordinal, check_content, check_manifest, commit_expired,
  commit_loaded, commit_refused, commit_session, contents_of, is_named, publish, roll_back,
}
use forgerelay.Storage.Tables.{
  expire_session_if_due, load_session, of_session, same_state, transition, transits,
}
use forgerelay.Storage.Tables.References.{mark_unreferenced_parts-same}

-- The chunks are numbered from the first number on without a gap, each begins where the one before it
-- ends, on 64 bits, and none is longer than the size of a chunk.
pub data Contiguous (size : ℕ) : ℕ → ℕ → List ManifestEntry → Type 0 where
  at_end : {number offset : ℕ} → Contiguous size number offset []
  next_chunk :
      {number offset : ℕ}
      → {e : ManifestEntry} → {es : List ManifestEntry} → (e.ordinal ≡ pos number)
      → (e.offset ≡ offset)
      → (e.extent ≤ size)
      → Contiguous size (suc number) ((offset + e.extent) % 2 ^ 64) es
      → Contiguous size number offset (e ∷ es)

-- The sum of the lengths, on 64 bits.
abbrev pub extents_from : ℕ → List ManifestEntry → ℕ
extents_from total [] = total
extents_from total (e ∷ es) = extents_from ((total + e.extent) % 2 ^ 64) es

build_manifest-total :
    (size number total : ℕ) (ps : List UploadPart) (b : Built)
    → build_manifest size number total ps ≡ some b
    → extents_from total b.manifest ≡ b.total
unfolding build_manifest
build_manifest-total size number total [] b e = grind (arith, e)
build_manifest-total size number total (p ∷ ps) b e =
    let (rest, built, eq, ordinal, short) = build_manifest-cons size number total p ps b e in
    subst (λ x. extents_from total x.manifest ≡ x.total) (sym eq)
      (build_manifest-total size (suc number) _ ps rest built)

build_manifest-Contiguous :
    (size number total : ℕ) (ps : List UploadPart) (b : Built)
    → build_manifest size number total ps ≡ some b
    → Contiguous size number total b.manifest
unfolding build_manifest
build_manifest-Contiguous size number total [] b e =
    let blank : [] ≡ b.manifest = grind (arith, e) in
    subst (λ x. Contiguous size number total x) blank at_end
build_manifest-Contiguous size number total (p ∷ ps) b e =
    let (rest, built, eq, ordinal, short) = build_manifest-cons size number total p ps b e in
    subst (λ x. Contiguous size number total x.manifest) (sym eq)
      (next_chunk (ap pos ordinal) refl short
        (build_manifest-Contiguous size (suc number) _ ps rest built))

-- What the result says of the session and of the state before and after.
pub record Published (hash : List ℕ → List ℕ) (now : ℕ) (i : SessionInfo) (a : ArtifactInfo)
    (db db' : Db) : Type 0 where
  pub described : a ≡ artifact_of now i a.chunks
  pub numbered : Contiguous i.chunk_size 0 0 a.chunks
  pub counted : length a.chunks ≡ chunk_count i
  pub summed : extents_from 0 a.chunks ≡ i.expected_size
  pub whole : IsIntact hash db.files a
  pub unnamed : any (is_named i.ns i.name i.version) db.artifacts ≡ false
  pub added : db'.artifacts ≡ db.artifacts ++ a ∷ []

expire-artifacts :
    (i : SessionInfo) (now : ℕ) (db : Db)
    → ((expire_session_if_due i now db).artifacts ≡ db.artifacts)
      × ((expire_session_if_due i now db).files ≡ db.files)
unfolding expire_session_if_due transition
expire-artifacts i now db = elim (Bool-cases (same_state i.state opened && leb i.expires_at now)) [
  | inr early ↦ rw early (refl, refl)
  | inl due ↦ rw due (
      let same = mark_unreferenced_parts-same i.id now (transition i.id opened expired db) in
      (same.1, same.2))
]

publish-done :
    (now : ℕ) (i : SessionInfo) (m : List ManifestEntry) (db : Db) (a : ArtifactInfo) (db' : Db)
    → publish now i m db ≡ (done a, db')
    → (any (is_named i.ns i.name i.version) db.artifacts ≡ false)
      × (artifact_of now i m ≡ a)
      × (db.artifacts ++ artifact_of now i m ∷ [] ≡ db'.artifacts)
unfolding publish roll_back
publish-done now i m db a db' e =
    elim (Bool-cases (any (is_named i.ns i.name i.version) db.artifacts)) [
      | inl taken ↦ absurd (grind (arith, e, taken))
      | inr free ↦ (free, grind (arith, e, free), grind (arith, e, free))
    ]

Published-same :
    {hash : List ℕ → List ℕ}
    → (now : ℕ) (i : SessionInfo) (a : ArtifactInfo) (db1 db2 db' : Db)
    → db1.artifacts ≡ db2.artifacts
    → db1.files ≡ db2.files
    → Published hash now i a db1 db'
    → Published hash now i a db2 db'
Published-same {hash} now i a db1 db2 db' artifacts files p = record {
  described = p.described;
  numbered = p.numbered;
  counted = p.counted;
  summed = p.summed;
  whole = subst (λ fs. IsIntact hash fs a) files p.whole;
  unnamed = subst (λ l. any (is_named i.ns i.name i.version) l ≡ false) artifacts p.unnamed;
  added = subst (λ l. db'.artifacts ≡ l ++ a ∷ []) artifacts p.added;
}

module _ (hash : List ℕ → List ℕ) where
  check_content-done :
      (now : ℕ) (i : SessionInfo) (m : List ManifestEntry) (db : Db) (o : Option (List ℕ))
      (a : ArtifactInfo) (db' : Db)
      → check_content hash now i m db o ≡ (done a, db')
      → (content : List ℕ) × (o ≡ some content)
        × (hash content ≡ i.expected_digest)
        × (publish now i m db ≡ (done a, db'))
  unfolding check_content roll_back
  check_content-done now i m db none a db' e = absurd (grind (arith, e))
  check_content-done now i m db (some content) a db' e =
      elim (Bool-cases (same_text (hash content) i.expected_digest)) [
        | inr other ↦ absurd (grind (arith, e, other))
        | inl same ↦ (
          content,
          refl,
          same_text→≡ (hash content) i.expected_digest same,
          grind (arith, e, same),
        )
      ]

  check_manifest-done :
      (now : ℕ) (i : SessionInfo) (db : Db) (o : Option Built) (a : ArtifactInfo) (db' : Db)
      → check_manifest hash now i db o ≡ (done a, db')
      → (b : Built) × (o ≡ some b)
        × (length b.manifest ≡ chunk_count i)
        × (b.total ≡ i.expected_size)
        × (check_content hash now i b.manifest db (contents_of db.files b.manifest) ≡ (done a, db'))
  unfolding check_manifest roll_back
  check_manifest-done now i db none a db' e = absurd (grind (arith, e))
  check_manifest-done now i db (some b) a db' e =
      elim (Bool-cases (length b.manifest == chunk_count i)) [
        | inr few ↦ absurd (grind (arith, e, few))
        | inl all_there ↦ elim (Bool-cases (b.total == i.expected_size)) [
          | inr other ↦ absurd (grind (arith, e, all_there, other))
          | inl same ↦ (
            b,
            refl,
            (==_iff _ _).0 all_there,
            (==_iff _ _).0 same,
            grind (arith, e, all_there, same),
          )
        ]
      ]

module _ (hash : List ℕ → List ℕ) (room : ℕ → Bool) where
  commit_loaded-done :
      (now : ℕ) (i : SessionInfo) (db : Db) (a : ArtifactInfo) (db' : Db)
      → commit_loaded hash room now i db ≡ (done a, db')
      → Published hash now i a db db'
  unfolding commit_loaded artifact_of
  commit_loaded-done now i db a db' e = elim (Bool-cases (room (chunk_count i))) [
    | inr full ↦ absurd (grind (arith, e, full))
    | inl fits ↦
        let o = build_manifest i.chunk_size 0 0 (by_ordinal (keep (of_session i.id) db.parts)) in
        let e0 : check_manifest hash now i db o ≡ (done a, db') = grind (arith, e, fits) in
        let (b, built, counted, total, e1) = check_manifest-done hash now i db o a db' e0 in
        let (content, there, same, e2) = check_content-done hash now i b.manifest db _ a db' e1 in
        let (unnamed, made, added) = publish-done now i b.manifest db a db' e2 in
        subst (λ x. Published hash now i x db db') made
          (record {
            described = refl;
            numbered = build_manifest-Contiguous i.chunk_size 0 0 _ b built;
            counted = counted;
            summed = build_manifest-total i.chunk_size 0 0 _ b built ∙ total;
            whole = (content, there, same);
            unnamed = unnamed;
            added = sym added;
          })
  ]

  commit_expired-done :
      (now : ℕ) (i : SessionInfo) (db : Db) (a : ArtifactInfo) (db' : Db)
      → commit_expired hash room now i db ≡ (done a, db')
      → Published hash now i a db db'
  unfolding commit_expired commit_refused transition
  commit_expired-done now i db a db' e = elim (Bool-cases (transits i.id opened db)) [
    | inl moves ↦ Published-same now i a (transition i.id opened committing db) db db' refl refl (
        commit_loaded-done now i (transition i.id opened committing db) a db'
          (grind (arith, e, moves)))
    | inr stays ↦ elim (Option-cases (load_session i.id db)) [
      | inl gone ↦ absurd (grind (arith, e, stays, gone))
      | inr (j, found) ↦ elim (Bool-cases (same_state j.state expired)) [
        | inl late ↦ absurd (grind (arith, e, stays, found, late))
        | inr other ↦ absurd (grind (arith, e, stays, found, other))
      ]
    ]
  ]

  -- A commit that succeeds has found the session; its artifact has the session's names, size,
  -- digest and owner, chunks that are numbered from 0 and lie one behind the other, as many as
  -- the session expects, with lengths that add up to the expected size on 64 bits and with a
  -- content of the expected digest; no artifact had the name before, and the artifact is added
  -- behind the others.
  pub commit_session-done :
      (now : ℕ) (id : List ℕ) (db : Db) (a : ArtifactInfo) (db' : Db)
      → commit_session hash room now id db ≡ (done a, db')
      → (i : SessionInfo) × (load_session id db ≡ some i) × Published hash now i a db db'
  unfolding commit_session
  commit_session-done now id db a db' e = elim (Option-cases (load_session id db)) [
    | inl gone ↦ absurd (grind (arith, e, gone))
    | inr (i, found) ↦
        let (artifacts, files) = expire-artifacts i now db in
        (
          i,
          found,
          Published-same now i a (expire_session_if_due i now db) db db' artifacts files
              (commit_expired-done now i _ a db' (grind (arith, e, found))),
        )
  ]
