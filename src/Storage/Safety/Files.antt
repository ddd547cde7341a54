-- ===== src/Storage/Safety/Files.antt =====
-- src/storage/fr_storage.cpp: what a new chunk does to the rows and to the files.
use forgerelay.Prelude.{
  All, Bool-cases, List, Option-cases, [], any, any-append, arith, find, find-append, inl, inr,
  same_text, same_text_refl, same_text→≡, some, subst, true, ℕ, ◌&&◌, ◌++◌, ◌∷◌, ◌≡◌,
}
use forgerelay.Messages.Listing.{ManifestEntry}
use forgerelay.Storage.{ChunkFile, ChunkRow}
use forgerelay.Storage.Sessions.{put_file, put_row}
use forgerelay.Storage.Sessions.Commit.{contents_of}
use forgerelay.Storage.Tables.{file_has, is_active, row_has}
use forgerelay.Storage.Tables.References.{
  has_active, has_active-activate, has_active-activated, has_file,
}

same_text-sym : (s t : List ℕ) → same_text s t ≡ true → same_text t s ≡ true
same_text-sym s t h = subst (λ u. same_text u s ≡ true) (same_text→≡ s t h) (same_text_refl s)

-- The head's file, and the content of the rest.
pub contents_of-cons :
    (files : List ChunkFile) (e : ManifestEntry) (es : List ManifestEntry) (content : List ℕ)
    → contents_of files (e ∷ es) ≡ some content
    → (f : ChunkFile) × (rest : List ℕ) × (find (file_has e.digest) files ≡ some f)
      × (contents_of files es ≡ some rest)
      × (content ≡ f.content ++ rest)
contents_of-cons files e es content h = elim (Option-cases (find (file_has e.digest) files)) [
  | inl none_here ↦ grind (arith, h, none_here)
  | inr (f, found) ↦ elim (Option-cases (contents_of files es)) [
    | inl none_here ↦ grind (arith, h, none_here, found)
    | inr (rest, others) ↦ (f, rest, found, others, grind (arith, h, found, others))
  ]
]

-- Files that still give every chunk of a list give the same content.
pub contents_of_mono :
    (files files' : List ChunkFile) (es : List ManifestEntry) (content : List ℕ)
    → All
        (λ e.
          (f : ChunkFile)
          → find (file_has e.digest) files ≡ some f
          → find (file_has e.digest) files' ≡ some f)
        es
    → contents_of files es ≡ some content
    → contents_of files' es ≡ some content
contents_of_mono files files' [] content same h = h
contents_of_mono files files' (e ∷ es) content same h =
    let (f, rest, found, others, eq) = contents_of-cons files e es content h in
    grind (arith, same.0 f found, contents_of_mono files files' es rest same.1 others, eq)

pub has_file-put_file :
    (d e content : List ℕ) (files : List ChunkFile)
    → has_file e files ≡ true
    → has_file e (put_file d content files) ≡ true
unfolding put_file
has_file-put_file d e content files h = elim (Bool-cases (any (file_has d) files)) [
  | inl old ↦ rw old h
  | inr new ↦ rw (new, any-append (file_has e) files) ground (arith, h)
]

pub has_file-put :
    (d content : List ℕ) (files : List ChunkFile) → has_file d (put_file d content files) ≡ true
unfolding put_file
has_file-put d content files = elim (Bool-cases (any (file_has d) files)) [
  | inl old ↦ rw old old
  | inr new ↦ rw (new, any-append (file_has d) files, same_text_refl d) ground arith
]

pub find-put_file :
    (d e content : List ℕ) (files : List ChunkFile) (f : ChunkFile)
    → find (file_has e) files ≡ some f
    → find (file_has e) (put_file d content files) ≡ some f
unfolding put_file
find-put_file d e content files f h = elim (Bool-cases (any (file_has d) files)) [
  | inl old ↦ rw old h
  | inr new ↦ rw new (find-append (file_has e) files _ f h)
]

pub has_active-put_row :
    (d e : List ℕ) (n : ℕ) (rows : List ChunkRow)
    → has_active e rows ≡ true
    → has_active e (put_row d n rows) ≡ true
unfolding put_row
has_active-put_row d e n rows h = elim (Bool-cases (any (row_has d) rows)) [
  | inl old ↦ rw old (has_active-activate d e rows h)
  | inr new ↦ rw (new, any-append (λ r. row_has e r && is_active r) rows) ground (arith, h)
]

pub has_active-put :
    (d : List ℕ) (n : ℕ) (rows : List ChunkRow) → has_active d (put_row d n rows) ≡ true
unfolding put_row
has_active-put d n rows = elim (Bool-cases (any (row_has d) rows)) [
  | inl old ↦ rw old (has_active-activated d rows old)
  | inr new ↦
      rw (new, any-append (λ r. row_has d r && is_active r) rows, same_text_refl d) ground arith
]
