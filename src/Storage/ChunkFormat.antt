-- ===== src/Storage/ChunkFormat.antt =====
-- src/storage/fr_chunk_store.cpp: the header of a chunk file.
use forgerelay.Prelude.{List, [], drop, if◌then◌else◌, not, same_text, take, ℕ, ◌++◌, ◌==◌, ◌∷◌}
use forgerelay.Core.Byteorder.{load_be32, load_be64, store_be32, store_be64}
use forgerelay.Core.Status.{e_io}
use forgerelay.Messages.Fields.{Outcome, done, thrown}
pub mod RoundTrip

abbrev pub chunk_format_version : ℕ
chunk_format_version = 1

abbrev pub chunk_header_size : ℕ
chunk_header_size = 32

pub record ChunkMeta : Type 0 where
  pub raw_len : ℕ
  pub stored_len : ℕ
  pub crc : ℕ

-- "FRCH", the version and a reserved byte.
abbrev pub chunk_magic : List ℕ
chunk_magic = 70 ∷ 82 ∷ 67 ∷ 72 ∷ []

-- `store_header`; the last two bytes keep the 0 of the `memset`.
unfoldable pub store_header : (raw_len crc : ℕ) → List ℕ
store_header raw_len crc =
    chunk_magic
    ++ chunk_format_version ∷ 0 ∷ []
    ++ store_be64 raw_len
    ++ store_be64 raw_len
    ++ store_be32 crc
    ++ store_be32 0
    ++ 0 ∷ 0 ∷ []

-- `parse_header`, on the 32 bytes that were read.
unfoldable pub parse_header : List ℕ → Outcome ChunkMeta
parse_header header =
    let meta : ChunkMeta = record {
      raw_len = load_be64 (drop 6 header);
      stored_len = load_be64 (drop 14 header);
      crc = load_be32 (drop 22 header);
    } in
    if not (same_text (take 4 header) chunk_magic)
    then thrown e_io
    else if not (same_text (take 1 (drop 4 header)) (chunk_format_version ∷ []))
    then thrown e_io
    else if not (same_text (take 1 (drop 5 header)) (0 ∷ []))
    then thrown e_io
    else if not (load_be32 (drop 26 header) == 0)
    then thrown e_io
    else if not (meta.raw_len == meta.stored_len)
    then thrown e_io
    else done meta
