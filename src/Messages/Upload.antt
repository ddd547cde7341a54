-- ===== src/Messages/Upload.antt =====
-- src/service/fr_messages.cpp: the payloads of the connection, upload and download messages. A decoder
-- here is given the reader that `reader_of` makes of the frame's payload.
use forgerelay.Prelude.{Bool, List, if◌then◌else◌, length, ltb, not, ℕ, ℤ, ◌%◌, ◌*◌, ◌==◌, ◌^◌}
use forgerelay.Core.Buffer.{Allocator}
use forgerelay.Core.Status.{e_protocol, e_range}
use forgerelay.Messages.Fields.{
  Get, Put, get_bytes, get_digest, get_i64, get_rest, get_str, get_u32, get_u64, get_u8, pure,
  put_digest, put_i64, put_raw, put_str, put_u32, put_u64, put_u8, thrown, ◌>>=◌, ◌>>◌,
}
pub mod RoundTrip

abbrev pub protocol_version : ℕ
protocol_version = 1

pub record ArtifactRef : Type 0 where
  pub ns : List ℕ
  pub name : List ℕ
  pub version : List ℕ

pub record HelloReq : Type 0 where
  pub protocol : ℕ
  pub client : List ℕ

pub record AuthReq : Type 0 where
  pub token : List ℕ

pub record AuthOk : Type 0 where
  pub username : List ℕ
  pub role : ℕ

pub record CreateUploadReq : Type 0 where
  pub ref : ArtifactRef
  pub expected_size : ℕ
  pub expected_digest : List ℕ

pub record CreateUploadOk : Type 0 where
  pub session_id : List ℕ
  pub chunk_size : ℕ
  pub expires_at : ℤ

pub record PutChunkReq : Type 0 where
  pub session_id : List ℕ
  pub ordinal : ℕ
  pub payload : List ℕ

pub record PutChunkOk : Type 0 where
  pub digest : List ℕ
  pub reused : Bool

-- `state` is the number of a `SessionState`; any byte may come over the wire.
pub record QueryUploadOk : Type 0 where
  pub state : ℕ
  pub chunk_count : ℕ
  pub present_bitmap : List ℕ

pub record CommitUploadOk : Type 0 where
  pub ref : ArtifactRef
  pub size : ℕ
  pub digest : List ℕ

pub record GetArtifactReq : Type 0 where
  pub ref : ArtifactRef
  pub offset : ℕ
  pub amount : ℕ

pub record DataPayload : Type 0 where
  pub payload : List ℕ

pub record GetArtifactOk : Type 0 where
  pub bytes_sent : ℕ

abbrev pub max_bitmap : ℕ
max_bitmap = 1024 * 1024

-- A `bool` as it is put and got.
abbrev pub flag : Bool → ℕ
flag b = if b then 1 else 0

pub get_flag : Get Bool
get_flag = do v ← get_u8; pure (not (v == 0))

module _ (alloc : Allocator) where
  pub put_ref : ArtifactRef → Put
  put_ref ref = put_str alloc ref.ns >> (put_str alloc ref.name >> put_str alloc ref.version)

  pub encode_hello_req : HelloReq → Put
  encode_hello_req req = put_u8 alloc req.protocol >> put_str alloc req.client

  pub encode_auth_req : AuthReq → Put
  encode_auth_req req = put_str alloc req.token

  pub encode_auth_ok : AuthOk → Put
  encode_auth_ok ok = put_str alloc ok.username >> put_u8 alloc ok.role

  pub encode_create_upload_req : CreateUploadReq → Put
  encode_create_upload_req req =
      put_ref req.ref >> (put_u64 alloc req.expected_size >> put_digest alloc req.expected_digest)

  pub encode_create_upload_ok : CreateUploadOk → Put
  encode_create_upload_ok ok =
      put_str alloc ok.session_id >> (put_u64 alloc ok.chunk_size >> put_i64 alloc ok.expires_at)

  pub encode_put_chunk_req : PutChunkReq → Put
  encode_put_chunk_req req =
      put_str alloc req.session_id >> (put_u64 alloc req.ordinal >> put_raw alloc req.payload)

  pub encode_put_chunk_ok : PutChunkOk → Put
  encode_put_chunk_ok ok = put_digest alloc ok.digest >> put_u8 alloc (flag ok.reused)

  pub put_bitmap : List ℕ → Put
  put_bitmap bitmap =
      if ltb max_bitmap (length bitmap)
      then (λ out. thrown e_range)
      else put_u32 alloc (length bitmap % 2 ^ 32) >> put_raw alloc bitmap

  pub encode_query_upload_ok : QueryUploadOk → Put
  encode_query_upload_ok ok =
      put_u8 alloc (ok.state % 256)
      >> (put_u64 alloc ok.chunk_count >> put_bitmap ok.present_bitmap)

  pub encode_commit_upload_ok : CommitUploadOk → Put
  encode_commit_upload_ok ok =
      put_ref ok.ref >> (put_u64 alloc ok.size >> put_digest alloc ok.digest)

  pub encode_get_artifact_req : GetArtifactReq → Put
  encode_get_artifact_req req =
      put_ref req.ref >> (put_u64 alloc req.offset >> put_u64 alloc req.amount)

  pub encode_data : DataPayload → Put
  encode_data d = put_raw alloc d.payload

  pub encode_get_artifact_ok : GetArtifactOk → Put
  encode_get_artifact_ok ok = put_u64 alloc ok.bytes_sent

pub get_ref : Get ArtifactRef
get_ref = do
  ns ← get_str
  name ← get_str
  version ← get_str
  pure (record { ns = ns; name = name; version = version })

-- The version is checked before the client's name is read.
pub hello_body : ℕ → Get HelloReq
hello_body v =
    if not (v == protocol_version)
    then (λ r. thrown e_protocol)
    else get_str >>= λ client. pure (record { protocol = v; client = client })

pub decode_hello_req : Get HelloReq
decode_hello_req = get_u8 >>= hello_body

pub decode_auth_req : Get AuthReq
decode_auth_req = do token ← get_str; pure (record { token = token })

pub decode_auth_ok : Get AuthOk
decode_auth_ok = do
  username ← get_str
  role ← get_u8
  pure (record { username = username; role = role })

pub decode_create_upload_req : Get CreateUploadReq
decode_create_upload_req = do
  ref ← get_ref
  size ← get_u64
  digest ← get_digest
  pure (record { ref = ref; expected_size = size; expected_digest = digest })

pub decode_create_upload_ok : Get CreateUploadOk
decode_create_upload_ok = do
  session_id ← get_str
  chunk_size ← get_u64
  expires_at ← get_i64
  pure (record { session_id = session_id; chunk_size = chunk_size; expires_at = expires_at })

pub decode_put_chunk_req : Get PutChunkReq
decode_put_chunk_req = do
  session_id ← get_str
  ordinal ← get_u64
  rest ← get_rest
  pure (record { session_id = session_id; ordinal = ordinal; payload = rest })

pub decode_put_chunk_ok : Get PutChunkOk
decode_put_chunk_ok = do
  digest ← get_digest
  reused ← get_flag
  pure (record { digest = digest; reused = reused })

pub bitmap_body : ℕ → Get (List ℕ)
bitmap_body len = if ltb max_bitmap len then (λ r. thrown e_protocol) else get_bytes len

pub decode_query_upload_ok : Get QueryUploadOk
decode_query_upload_ok = do
  state ← get_u8
  chunk_count ← get_u64
  bitmap ← get_u32 >>= bitmap_body
  pure (record { state = state; chunk_count = chunk_count; present_bitmap = bitmap })

pub decode_commit_upload_ok : Get CommitUploadOk
decode_commit_upload_ok = do
  ref ← get_ref
  size ← get_u64
  digest ← get_digest
  pure (record { ref = ref; size = size; digest = digest })

pub decode_get_artifact_req : Get GetArtifactReq
decode_get_artifact_req = do
  ref ← get_ref
  offset ← get_u64
  amount ← get_u64
  pure (record { ref = ref; offset = offset; amount = amount })

pub decode_data : Get DataPayload
decode_data = do rest ← get_rest; pure (record { payload = rest })

pub decode_get_artifact_ok : Get GetArtifactOk
decode_get_artifact_ok = do n ← get_u64; pure (record { bytes_sent = n })
