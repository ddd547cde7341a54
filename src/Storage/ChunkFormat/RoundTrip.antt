-- ===== src/Storage/ChunkFormat/RoundTrip.antt =====
-- src/storage/fr_chunk_store.cpp: a header that is written is read back.
use forgerelay.Prelude.{[], arith, refl, same_text, true, ℕ, ◌++◌, ◌<◌, ◌==◌, ◌^◌, ◌∷◌, ◌≡◌}
use forgerelay.Core.Byteorder.{load_be32, load_be64, store_be32, store_be64}
use forgerelay.Core.Byteorder.Endian.{load-store_be32, load-store_be64}
use forgerelay.Messages.Fields.{done}
use forgerelay.Storage.ChunkFormat.{parse_header, store_header}

-- The header of a chunk file that is written for a 64-bit length and a 32-bit sum passes every
-- check of the parser, which reads both back.
pub parse_header-store_header :
    (raw_len crc : ℕ)
    → raw_len < 2 ^ 64
    → crc < 2 ^ 32
    → parse_header (store_header raw_len crc)
      ≡ done (record { raw_len = raw_len; stored_len = raw_len; crc = crc })
unfolding parse_header store_header same_text store_be64 store_be32
parse_header-store_header raw_len crc h k =
    let after = store_be32 0 ++ 0 ∷ 0 ∷ [] in
    let reserved : load_be32 after ≡ 0 = load-store_be32 0 (0 ∷ 0 ∷ []) (omega arith) in
    let sum : load_be32 (store_be32 crc ++ after) ≡ crc = load-store_be32 crc after k in
    let stored : load_be64 (store_be64 raw_len ++ store_be32 crc ++ after) ≡ raw_len =
      load-store_be64 raw_len (store_be32 crc ++ after) h in
    let raw : load_be64 (store_be64 raw_len ++ store_be64 raw_len ++ store_be32 crc ++ after)
        ≡ raw_len =
      load-store_be64 raw_len (store_be64 raw_len ++ store_be32 crc ++ after) h in
    let same : raw_len == raw_len ≡ true = ground arith in
    rw (reserved, sum, raw, stored, same) refl
