-- ===== src/Messages/Admin.antt =====
-- src/service/fr_messages.cpp: the payloads of the administration's requests, and of the general
-- responses.
use forgerelay.Prelude.{
  Bool, List, Option, Source, [], bytes, if◌then◌else◌, none, not, null, pos, some, ℕ, ℤ, ◌==◌, ◌∷◌,
}
use forgerelay.Core.Buffer.{Allocator}
use forgerelay.Messages.Fields.{
  Get, Put, done, get_i32, get_i64, get_str, get_u32, get_u64, get_u8, pure, put_i32, put_i64,
  put_raw, put_str, put_u32, put_u64, put_u8, ◌>>=◌, ◌>>◌,
}
use forgerelay.Messages.Upload.{ArtifactRef, flag, get_flag, get_ref}
pub mod RoundTrip

pub record ListArtifactsReq : Type 0 where
  pub ns : Option (List ℕ)
  pub name : Option (List ℕ)
  pub limit : ℕ
  pub offset : ℕ

pub record StatusOk : Type 0 where
  pub version : List ℕ
  pub uptime_seconds : ℕ
  pub connections : ℕ
  pub active_sessions : ℕ
  pub artifacts : ℕ
  pub used_bytes : ℕ
  pub capacity_bytes : ℕ
  pub high_watermark_percent : ℕ

pub record DeleteArtifactOk : Type 0 where
  pub marked_chunks : ℤ

pub record RunGcReq : Type 0 where
  pub dry_run : Bool

pub record RunGcOk : Type 0 where
  pub scanned : ℤ
  pub deleted_count : ℤ
  pub deleted_bytes : ℤ

pub record UserAddReq : Type 0 where
  pub username : List ℕ
  pub role : ℕ

pub record TokenCreateReq : Type 0 where
  pub username : List ℕ
  pub ttl_hours : ℕ

pub record TokenCreateOk : Type 0 where
  pub token : List ℕ

-- `code` is the number of a status; any 32-bit number may come over the wire.
pub record ErrorPayload : Type 0 where
  pub code : ℤ
  pub message : List ℕ

module _ (alloc : Allocator) where
  pub put_optional : Option (List ℕ) → Put
  put_optional none = put_u8 alloc 0
  put_optional (some value) = put_u8 alloc 1 >> put_str alloc value

  pub encode_list_artifacts_req : ListArtifactsReq → Put
  encode_list_artifacts_req req =
      put_optional req.ns
      >> (put_optional req.name >> (put_u32 alloc req.limit >> put_u32 alloc req.offset))

  pub encode_status_ok : StatusOk → Put
  encode_status_ok ok =
      put_str alloc ok.version
      >> (put_u64 alloc ok.uptime_seconds
          >> (put_u32 alloc ok.connections
              >> (put_u32 alloc ok.active_sessions
                  >> (put_u64 alloc ok.artifacts
                      >> (put_u64 alloc ok.used_bytes
                          >> (put_u64 alloc ok.capacity_bytes
                              >> put_u8 alloc ok.high_watermark_percent))))))

  pub encode_delete_artifact_ok : DeleteArtifactOk → Put
  encode_delete_artifact_ok ok = put_i64 alloc ok.marked_chunks

  pub encode_run_gc_req : RunGcReq → Put
  encode_run_gc_req req = put_u8 alloc (flag req.dry_run)

  pub encode_run_gc_ok : RunGcOk → Put
  encode_run_gc_ok ok =
      put_i64 alloc ok.scanned >> (put_i64 alloc ok.deleted_count >> put_i64 alloc ok.deleted_bytes)

  pub encode_user_add_req : UserAddReq → Put
  encode_user_add_req req = put_str alloc req.username >> put_u8 alloc req.role

  pub encode_token_create_req : TokenCreateReq → Put
  encode_token_create_req req = put_str alloc req.username >> put_u32 alloc req.ttl_hours

  pub encode_token_create_ok : TokenCreateOk → Put
  encode_token_create_ok ok = put_str alloc ok.token

  pub encode_error_payload : ErrorPayload → Put
  encode_error_payload e = put_i32 alloc e.code >> put_str alloc e.message

  put_payload : Source → Put
  put_payload (null n) out = done out
  put_payload (bytes []) out = done out
  put_payload (bytes (x ∷ l)) out = put_raw alloc (x ∷ l) out

  -- The number of FR_OK, and the bytes of the response.
  pub encode_ok : Source → Put
  unfolding put_payload
  encode_ok payload = put_i32 alloc (pos 0) >> put_payload payload

optional_body : ℕ → Get (Option (List ℕ))
optional_body present =
    if not (present == 0) then get_str >>= (λ value. pure (some value)) else pure none

pub get_optional : Get (Option (List ℕ))
unfolding optional_body
get_optional = get_u8 >>= optional_body

pub decode_list_artifacts_req : Get ListArtifactsReq
decode_list_artifacts_req = do
  ns ← get_optional
  name ← get_optional
  limit ← get_u32
  offset ← get_u32
  pure (record { ns = ns; name = name; limit = limit; offset = offset })

pub decode_status_ok : Get StatusOk
decode_status_ok = do
  version ← get_str
  uptime ← get_u64
  connections ← get_u32
  sessions ← get_u32
  artifacts ← get_u64
  used ← get_u64
  capacity ← get_u64
  percent ← get_u8
  pure (record {
    version = version;
    uptime_seconds = uptime;
    connections = connections;
    active_sessions = sessions;
    artifacts = artifacts;
    used_bytes = used;
    capacity_bytes = capacity;
    high_watermark_percent = percent;
  })

pub decode_delete_artifact_ok : Get DeleteArtifactOk
decode_delete_artifact_ok = do n ← get_i64; pure (record { marked_chunks = n })

pub decode_run_gc_req : Get RunGcReq
decode_run_gc_req = do b ← get_flag; pure (record { dry_run = b })

pub decode_run_gc_ok : Get RunGcOk
decode_run_gc_ok = do
  scanned ← get_i64
  count ← get_i64
  size ← get_i64
  pure (record { scanned = scanned; deleted_count = count; deleted_bytes = size })

pub decode_user_add_req : Get UserAddReq
decode_user_add_req = do
  username ← get_str
  role ← get_u8
  pure (record { username = username; role = role })

pub decode_token_create_req : Get TokenCreateReq
decode_token_create_req = do
  username ← get_str
  ttl ← get_u32
  pure (record { username = username; ttl_hours = ttl })

pub decode_token_create_ok : Get TokenCreateOk
decode_token_create_ok = do token ← get_str; pure (record { token = token })

pub decode_error_payload : Get ErrorPayload
decode_error_payload = do
  code ← get_i32
  message ← get_str
  pure (record { code = code; message = message })

pub decode_ref : Get ArtifactRef
decode_ref = get_ref
