-- ===== src/Messages/Upload/RoundTrip.antt =====
-- src/service/fr_messages.cpp: what is encoded is decoded to the same message, and a payload that
-- stops short is refused.
use forgerelay.Prelude.{
  Bool, IsByte, IsI64, IsU64, List, arith, false, length, le→ltb, true, ℕ, ◌+◌, ◌^◌, ◌≡◌, ◌≤◌,
}
use forgerelay.Core.Buffer.{Allocator}
use forgerelay.Core.Buffer.Invariant.{Total}
use forgerelay.Messages.Fields.{
  digest_hex_len, get_digest, get_str, get_u32, get_u64, get_u8, max_string, put_digest, put_str,
  put_u64, put_u8, ◌>>=◌,
}
use forgerelay.Messages.Fields.Carried.{
  get_bytes-Carries, get_rest-CarriesAll, put_digest-Carries, put_i64-Carries, put_str-Carries,
  put_u32-Carries, put_u64-Carries, put_u8-Carries,
}
use forgerelay.Messages.Upload.{
  ArtifactRef, AuthOk, AuthReq, CommitUploadOk, CreateUploadOk, CreateUploadReq, DataPayload,
  GetArtifactOk, GetArtifactReq, HelloReq, PutChunkOk, PutChunkReq, QueryUploadOk, bitmap_body,
  decode_auth_ok, decode_auth_req, decode_commit_upload_ok, decode_create_upload_ok,
  decode_create_upload_req, decode_data, decode_get_artifact_ok, decode_get_artifact_req,
  decode_hello_req, decode_put_chunk_ok, decode_put_chunk_req, decode_query_upload_ok,
  encode_auth_ok, encode_auth_req, encode_commit_upload_ok, encode_create_upload_ok,
  encode_create_upload_req, encode_data, encode_get_artifact_ok, encode_get_artifact_req,
  encode_hello_req, encode_put_chunk_ok, encode_put_chunk_req, encode_query_upload_ok, flag,
  get_flag, get_ref, hello_body, max_bitmap, protocol_version, put_bitmap, put_ref,
}
use forgerelay.Messages.Wire.{
  Carries, Carries-fits, Carries-last, Carries-last_all, Carries-then, Carries-then_all, CarriesAll,
  CarriesAll-fits, Silent-pure, str_size,
}
use native.Mathlib.Nat.{mod-eq_of_lt}

abbrev pub IsStr : List ℕ → Type 0
IsStr value = length value ≤ max_string

abbrev pub IsDigest : List ℕ → Type 0
IsDigest hex = length hex ≡ digest_hex_len

-- The fields that the encoders accept.
abbrev pub IsRef : ArtifactRef → Type 0
IsRef ref = IsStr ref.ns × IsStr ref.name × IsStr ref.version

module _ (alloc : Allocator) (total : Total alloc) where
  str : (value : List ℕ) → IsStr value → Carries str_size (put_str alloc value) get_str value
  str = put_str-Carries alloc total

  digest : (hex : List ℕ) → IsDigest hex → Carries 64 (put_digest alloc hex) get_digest hex
  digest = put_digest-Carries alloc total

  u64 : (v : ℕ) → IsU64 v → Carries 8 (put_u64 alloc v) get_u64 v
  u64 = put_u64-Carries alloc total

  u8 : (v : ℕ) → Carries 1 (put_u8 alloc v) get_u8 v
  u8 = put_u8-Carries alloc total

  pub put_flag-Carries : (b : Bool) → Carries 1 (put_u8 alloc (flag b)) get_flag b
  unfolding get_flag
  put_flag-Carries true = Carries-last _ (u8 1) (Silent-pure true)
  put_flag-Carries false = Carries-last _ (u8 0) (Silent-pure false)

  pub put_ref-Carries :
      (ref : ArtifactRef) → IsRef ref → Carries 1542 (put_ref alloc ref) get_ref ref
  unfolding put_ref get_ref
  put_ref-Carries ref (ns, name, version) =
      Carries-fits
        (Carries-then _ (str ref.ns ns) (
          Carries-then _ (str ref.name name)
            (Carries-last _ (str ref.version version) (Silent-pure ref))))
        (omega arith)

  pub hello_req-Carries :
      (req : HelloReq)
      → req.protocol ≡ protocol_version
      → IsStr req.client
      → Carries 515 (encode_hello_req alloc req) decode_hello_req req
  unfolding encode_hello_req decode_hello_req hello_body
  hello_req-Carries req e h =
      Carries-fits
        (Carries-then {n = 514} hello_body (u8 req.protocol)
          (rw e (Carries-last _ (str req.client h) (Silent-pure _))))
        (omega arith)

  pub auth_req-Carries :
      (req : AuthReq)
      → IsStr req.token
      → Carries 514 (encode_auth_req alloc req) decode_auth_req req
  unfolding encode_auth_req decode_auth_req
  auth_req-Carries req h =
      Carries-fits (Carries-last _ (str req.token h) (Silent-pure req)) (omega arith)

  pub auth_ok-Carries :
      (ok : AuthOk) → IsStr ok.username → Carries 515 (encode_auth_ok alloc ok) decode_auth_ok ok
  unfolding encode_auth_ok decode_auth_ok
  auth_ok-Carries ok h =
      Carries-fits
        (Carries-then _ (str ok.username h) (Carries-last _ (u8 ok.role) (Silent-pure ok)))
        (omega arith)

  pub create_upload_req-Carries :
      (req : CreateUploadReq)
      → IsRef req.ref
      → IsU64 req.expected_size
      → IsDigest req.expected_digest
      → Carries 1614 (encode_create_upload_req alloc req) decode_create_upload_req req
  unfolding encode_create_upload_req decode_create_upload_req
  create_upload_req-Carries req ref size dig =
      Carries-fits
        (Carries-then _ (put_ref-Carries req.ref ref) (
          Carries-then _ (u64 req.expected_size size)
            (Carries-last _ (digest req.expected_digest dig) (Silent-pure req))))
        (omega arith)

  pub create_upload_ok-Carries :
      (ok : CreateUploadOk)
      → IsStr ok.session_id
      → IsU64 ok.chunk_size
      → IsI64 ok.expires_at
      → Carries 530 (encode_create_upload_ok alloc ok) decode_create_upload_ok ok
  unfolding encode_create_upload_ok decode_create_upload_ok
  create_upload_ok-Carries ok id size time =
      Carries-fits
        (Carries-then _ (str ok.session_id id) (
          Carries-then _ (u64 ok.chunk_size size)
            (Carries-last _ (put_i64-Carries alloc total ok.expires_at time) (Silent-pure ok))))
        (omega arith)

  pub put_chunk_req-CarriesAll :
      (req : PutChunkReq)
      → IsStr req.session_id
      → IsU64 req.ordinal
      → CarriesAll
          (522 + length req.payload)
          (encode_put_chunk_req alloc req)
          decode_put_chunk_req
          req
  unfolding encode_put_chunk_req decode_put_chunk_req
  put_chunk_req-CarriesAll req id n =
      CarriesAll-fits
        (Carries-then_all _ (str req.session_id id) (
          Carries-then_all _ (u64 req.ordinal n)
            (Carries-last_all _ (get_rest-CarriesAll alloc total req.payload) (Silent-pure req))))
        (omega arith)

  pub put_chunk_ok-Carries :
      (ok : PutChunkOk)
      → IsDigest ok.digest
      → Carries 65 (encode_put_chunk_ok alloc ok) decode_put_chunk_ok ok
  unfolding encode_put_chunk_ok decode_put_chunk_ok
  put_chunk_ok-Carries ok h =
      Carries-fits
        (Carries-then _ (digest ok.digest h)
          (Carries-last _ (put_flag-Carries ok.reused) (Silent-pure ok)))
        (omega arith)

  put_bitmap-Carries :
      (l : List ℕ)
      → length l ≤ max_bitmap
      → Carries (4 + length l) (put_bitmap alloc l) (get_u32 >>= bitmap_body) l
  unfolding put_bitmap bitmap_body
  put_bitmap-Carries l h =
      rw (le→ltb max_bitmap (length l) h, mod-eq_of_lt {n = length l} {m = 2 ^ 32} (omega arith))
        (Carries-then bitmap_body (put_u32-Carries alloc total (length l) (omega arith))
          (rw (le→ltb max_bitmap (length l) h) (get_bytes-Carries alloc total l)))

  pub query_upload_ok-Carries :
      (ok : QueryUploadOk)
      → IsByte ok.state
      → IsU64 ok.chunk_count
      → length ok.present_bitmap ≤ max_bitmap
      → Carries (13 + max_bitmap) (encode_query_upload_ok alloc ok) decode_query_upload_ok ok
  unfolding encode_query_upload_ok decode_query_upload_ok
  query_upload_ok-Carries ok st count h =
      Carries-fits {m = 1 + (8 + (4 + length ok.present_bitmap))}
        (rw (mod-eq_of_lt {m = 256} st) (
          Carries-then _ (u8 ok.state) (
            Carries-then _ (u64 ok.chunk_count count)
              (Carries-last _ (put_bitmap-Carries ok.present_bitmap h) (Silent-pure ok)))))
        (omega arith)

  pub commit_upload_ok-Carries :
      (ok : CommitUploadOk)
      → IsRef ok.ref
      → IsU64 ok.size
      → IsDigest ok.digest
      → Carries 1614 (encode_commit_upload_ok alloc ok) decode_commit_upload_ok ok
  unfolding encode_commit_upload_ok decode_commit_upload_ok
  commit_upload_ok-Carries ok ref size dig =
      Carries-fits
        (Carries-then _ (put_ref-Carries ok.ref ref) (
          Carries-then _ (u64 ok.size size)
            (Carries-last _ (digest ok.digest dig) (Silent-pure ok))))
        (omega arith)

  pub get_artifact_req-Carries :
      (req : GetArtifactReq)
      → IsRef req.ref
      → IsU64 req.offset
      → IsU64 req.amount
      → Carries 1558 (encode_get_artifact_req alloc req) decode_get_artifact_req req
  unfolding encode_get_artifact_req decode_get_artifact_req
  get_artifact_req-Carries req ref off n =
      Carries-fits
        (Carries-then _ (put_ref-Carries req.ref ref) (
          Carries-then _ (u64 req.offset off)
            (Carries-last _ (u64 req.amount n) (Silent-pure req))))
        (omega arith)

  pub data-CarriesAll :
      (d : DataPayload) → CarriesAll (length d.payload) (encode_data alloc d) decode_data d
  unfolding encode_data decode_data
  data-CarriesAll d =
      CarriesAll-fits
        (Carries-last_all _ (get_rest-CarriesAll alloc total d.payload) (Silent-pure d))
        (omega arith)

  pub get_artifact_ok-Carries :
      (ok : GetArtifactOk)
      → IsU64 ok.bytes_sent
      → Carries 8 (encode_get_artifact_ok alloc ok) decode_get_artifact_ok ok
  unfolding encode_get_artifact_ok decode_get_artifact_ok
  get_artifact_ok-Carries ok h =
      Carries-fits (Carries-last _ (u64 ok.bytes_sent h) (Silent-pure ok)) (omega arith)
