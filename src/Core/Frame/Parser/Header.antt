-- ===== src/Core/Frame/Parser/Header.antt =====
-- src/core_c/fr_frame.c: `frame_validate_header` accepts what `fr_frame_encode` writes.
use forgerelay.Prelude.{
  IsU32, [], arith, drop, get_or, length, refl, take, true, ◌%◌, ◌==◌, ◌^◌, ◌∙◌, ◌≡◌,
}
use forgerelay.Core.Byteorder.{load_be16, load_be32, store_be16, store_be32}
use forgerelay.Core.Byteorder.Endian.{load-store_be16, load-store_be32}
use forgerelay.Core.Crc32.{crc32}
use forgerelay.Core.Crc32.Detect.{crc32-IsU32}
use forgerelay.Core.Frame.{Frame, frame_magic, frame_version, header_bytes, header_fields}
use forgerelay.Core.Frame.Encoding.{IsSendable, header_for}
use forgerelay.Core.Frame.Parser.{Parser, check_fields, read_fields, same_bytes, validate_header}
use forgerelay.Core.Status.{fr_ok}
use native.Mathlib.Nat.{mod-eq_of_lt}

-- A frame that the encoder sends, with a request id of 32 bits.
abbrev pub IsValid : Frame → Type 0
IsValid f = IsSendable f × IsU32 f.req_id

-- The parser once the header of f has been accepted.
abbrev pub holds_fields : Parser → Frame → Parser
holds_fields p f = record p {
  header = header_for f;
  type = f.type;
  flags = f.flags;
  req_id = f.req_id;
  payload_need = length f.payload;
}

module _ (f : Frame) (v : IsValid f) where
  loaded_flags : load_be16 (drop 6 (header_for f)) ≡ f.flags
  unfolding header_bytes header_fields store_be16 store_be32
  loaded_flags = load-store_be16 f.flags _ (omega arith)

  loaded_req_id : load_be32 (drop 8 (header_for f)) ≡ f.req_id
  unfolding header_bytes header_fields store_be16 store_be32
  loaded_req_id = load-store_be32 f.req_id _ v.1

  loaded_length : load_be32 (drop 12 (header_for f)) ≡ length f.payload
  unfolding header_bytes header_fields store_be16 store_be32
  loaded_length =
      load-store_be32 (length f.payload % 2 ^ 32) _ (omega arith) ∙ mod-eq_of_lt (omega arith)

  fields_part : take 16 (header_for f) ≡ header_fields f.type f.flags f.req_id (length f.payload)
  unfolding header_bytes header_fields store_be16 store_be32
  fields_part = refl

  loaded_crc :
      load_be32 (drop 16 (header_for f))
      ≡ crc32 (header_fields f.type f.flags f.req_id (length f.payload))
  unfolding header_bytes header_fields store_be16 store_be32
  loaded_crc =
      load-store_be32 (crc32 (header_fields f.type f.flags f.req_id (length f.payload))) []
        (crc32-IsU32 (header_fields f.type f.flags f.req_id (length f.payload)))

  magic_part : same_bytes (take 4 (header_for f)) frame_magic ≡ true
  unfolding header_bytes header_fields
  magic_part = refl

  version_part : (get_or (header_for f) 4 0 == frame_version) ≡ true
  unfolding header_bytes header_fields
  version_part = refl

  type_part : get_or (header_for f) 5 0 ≡ f.type
  unfolding header_bytes header_fields
  type_part = refl

  read_fields-header_for :
      (p : Parser) → read_fields (record p { header = header_for f }) ≡ holds_fields p f
  unfolding read_fields
  read_fields-header_for p = rw (loaded_flags, loaded_req_id, loaded_length, type_part)

  check_fields-holds_fields : (p : Parser) → check_fields (holds_fields p f) ≡ fr_ok
  unfolding check_fields
  check_fields-holds_fields p = ground (arith, loaded_crc, fields_part)

  -- The header that fr_frame_encode writes for a valid frame passes every check of
  -- frame_validate_header, the CRC included, and its fields are read back.
  pub validate_header-header_for :
      (p : Parser)
      → validate_header (record p { header = header_for f }) ≡ (fr_ok, holds_fields p f)
  unfolding validate_header
  validate_header-header_for p =
      rw (magic_part, version_part, read_fields-header_for p, check_fields-holds_fields p)
