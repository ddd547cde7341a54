-- ===== src/Storage/Reads.antt =====
-- src/storage/fr_storage.cpp and fr_chunk_store.cpp: reading back what was published. A chunk file is its
-- content: its header is in ChunkFormat, and the CRC of the content is not checked here.
use forgerelay.Prelude.{
  List, Option, [], c_str, drop, find, if◌then◌else◌, leb, length, ltb, min, none, not, some, take,
  ℕ, ◌%◌, ◌+◌, ◌-◌, ◌==◌, ◌^◌, ◌∷◌,
}
use forgerelay.Core.Buffer.Reader.{remaining}
use forgerelay.Core.Hex.{digest_hex_valid}
use forgerelay.Core.Status.{e_arg, e_notfound, e_range}
use forgerelay.Messages.Fields.{Outcome, done, thrown}
use forgerelay.Messages.Listing.{ArtifactInfo, ManifestEntry}
use forgerelay.Storage.{ChunkFile, Db}
use forgerelay.Storage.Sessions.Commit.{is_named}
use forgerelay.Storage.Tables.{file_has}
pub mod Slices
pub mod Artifact

-- `Storage::show_artifact`.
unfoldable pub show_artifact : (ns name version : List ℕ) → Db → Outcome ArtifactInfo
show_artifact ns name version db = elim (find (is_named ns name version) db.artifacts) [
  | none ↦ thrown e_notfound
  | some a ↦ done a
]

-- `ChunkStore::get_range` on an empty buffer, once the file is looked up.
unfoldable pub range_of : (offset size : ℕ) → Option ChunkFile → Outcome (List ℕ)
range_of offset size none = thrown e_notfound
range_of offset size (some f) =
    if ltb (length f.content) offset
    then thrown e_range
    else done (take (min size (length f.content - offset)) (drop offset f.content))

unfoldable pub get_range : List ChunkFile → (digest : List ℕ) (offset size : ℕ) → Outcome (List ℕ)
get_range files digest offset size =
    if not (digest_hex_valid (c_str digest))
    then thrown e_arg
    else range_of offset size (find (file_has digest) files)

-- The pieces that the sink was given, and the number of bytes or the error that ended the loop.
abbrev pub Sent : Type 0
Sent = List (List ℕ) × Outcome ℕ

abbrev sent_more : (n : ℕ) → Outcome ℕ → Outcome ℕ
sent_more n (done m) = done (n + m)
sent_more n (thrown st) = thrown st

abbrev pub piece_then : (n : ℕ) → Outcome (List ℕ) → Sent → Sent
piece_then n (done piece) (pieces, result) = (piece ∷ pieces, sent_more n result)
piece_then n (thrown st) rest = ([], thrown st)

-- The loop of `read_artifact_slice`, which is that of `read_artifact` too; the sums and differences are
-- on 64 bits.
unfoldable pub read_chunks : List ChunkFile → List ManifestEntry → (offset remaining : ℕ) → Sent
read_chunks files [] offset remaining = ([], done 0)
read_chunks files (e ∷ es) offset remaining =
    let chunk_end = (e.offset + e.extent) % 2 ^ 64 in
    let first = if ltb e.offset offset then offset else e.offset in
    let local_offset = if ltb e.offset offset then offset - e.offset else 0 in
    let to_end = (chunk_end + 2 ^ 64 - first) % 2 ^ 64 in
    let size = if ltb remaining to_end then remaining else to_end in
    let skipped = read_chunks files es offset remaining in
    let rest = read_chunks files es ((offset + size) % 2 ^ 64) (remaining - size) in
    if remaining == 0
    then ([], done 0)
    else if leb chunk_end offset
    then skipped
    else if leb ((offset + remaining) % 2 ^ 64) e.offset
    then ([], done 0)
    else piece_then size (get_range files e.digest local_offset size) rest

unfoldable pub read_shown : List ChunkFile → (offset max_len : ℕ) → Outcome ArtifactInfo → Sent
read_shown files offset max_len (thrown st) = ([], thrown st)
read_shown files offset max_len (done a) =
    if ltb a.size offset
    then ([], thrown e_range)
    else read_chunks files a.chunks offset (min (a.size - offset) max_len)

-- `Storage::read_artifact_slice`, and `Storage::read_artifact`, which has no result but its sink's.
unfoldable pub read_artifact_slice : (ns name version : List ℕ) (offset max_len : ℕ) → Db → Sent
read_artifact_slice ns name version offset max_len db =
    read_shown db.files offset max_len (show_artifact ns name version db)
