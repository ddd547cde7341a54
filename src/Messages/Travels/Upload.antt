-- ===== src/Messages/Travels/Upload.antt =====
-- src/service/fr_messages.cpp: the connection, upload and download messages, from end to end.
use forgerelay.Prelude.{IsByte, IsI64, IsU64, length, ℕ, ◌+◌, ◌≡◌, ◌≤◌}
use forgerelay.Core.Buffer.{Allocator, Buf}
use forgerelay.Core.Buffer.Invariant.{HasRoom, Total}
use forgerelay.Messages.Travels.{Carries-Travels, CarriesAll-TravelsWhole, Travels, TravelsWhole}
use forgerelay.Messages.Upload.{
  CommitUploadOk, CreateUploadOk, CreateUploadReq, DataPayload, GetArtifactReq, HelloReq,
  PutChunkOk, PutChunkReq, QueryUploadOk, decode_commit_upload_ok, decode_create_upload_ok,
  decode_create_upload_req, decode_data, decode_get_artifact_req, decode_hello_req,
  decode_put_chunk_ok, decode_put_chunk_req, decode_query_upload_ok, encode_commit_upload_ok,
  encode_create_upload_ok, encode_create_upload_req, encode_data, encode_get_artifact_req,
  encode_hello_req, encode_put_chunk_ok, encode_put_chunk_req, encode_query_upload_ok, max_bitmap,
  protocol_version,
}
use forgerelay.Messages.Upload.RoundTrip.{
  IsDigest, IsRef, IsStr, commit_upload_ok-Carries, create_upload_ok-Carries,
  create_upload_req-Carries, data-CarriesAll, get_artifact_req-Carries, hello_req-Carries,
  put_chunk_ok-Carries, put_chunk_req-CarriesAll, query_upload_ok-Carries,
}

module _ (alloc : Allocator) (total : Total alloc) where
  -- Where memory does not run out, the buffer has room, and the fields have their sizes (strings
  -- of at most 512 bytes, digests of 64 characters, numbers of their width): a HELLO of this
  -- protocol version with a client name of at most 512 bytes is decoded to what was encoded, and
  -- refused when its end is cut off.
  pub hello_req-Travels :
      (req : HelloReq) (out : Buf) (cut : ℕ)
      → req.protocol ≡ protocol_version
      → IsStr req.client
      → HasRoom out 515
      → Travels (encode_hello_req alloc req) decode_hello_req req out cut
  hello_req-Travels req out cut h0 h1 room =
      Carries-Travels (hello_req-Carries alloc total req h0 h1) out cut room

  -- Where memory does not run out, the buffer has room, and the fields have their sizes (strings
  -- of at most 512 bytes, digests of 64 characters, numbers of their width): a CREATE_UPLOAD
  -- request with strings of at most 512 bytes, a 64-bit size and a digest of 64 characters is
  -- decoded to what was encoded, and refused when its end is cut off.
  pub create_upload_req-Travels :
      (req : CreateUploadReq) (out : Buf) (cut : ℕ)
      → IsRef req.ref
      → IsU64 req.expected_size
      → IsDigest req.expected_digest
      → HasRoom out 1614
      → Travels (encode_create_upload_req alloc req) decode_create_upload_req req out cut
  create_upload_req-Travels req out cut h0 h1 h2 room =
      Carries-Travels (create_upload_req-Carries alloc total req h0 h1 h2) out cut room

  -- Where memory does not run out, the buffer has room, and the fields have their sizes (strings
  -- of at most 512 bytes, digests of 64 characters, numbers of their width): the response to
  -- CREATE_UPLOAD, with a session name of at most 512 bytes, a 64-bit chunk size and a signed
  -- 64-bit time, is decoded to what was encoded, and refused when its end is cut off.
  pub create_upload_ok-Travels :
      (ok : CreateUploadOk) (out : Buf) (cut : ℕ)
      → IsStr ok.session_id
      → IsU64 ok.chunk_size
      → IsI64 ok.expires_at
      → HasRoom out 530
      → Travels (encode_create_upload_ok alloc ok) decode_create_upload_ok ok out cut
  create_upload_ok-Travels ok out cut h0 h1 h2 room =
      Carries-Travels (create_upload_ok-Carries alloc total ok h0 h1 h2) out cut room

  -- Where memory does not run out, the buffer has room, and the fields have their sizes (strings
  -- of at most 512 bytes, digests of 64 characters, numbers of their width): a PUT_CHUNK request,
  -- whatever the bytes of the chunk are, is decoded to what was encoded.
  pub put_chunk_req-TravelsWhole :
      (req : PutChunkReq) (out : Buf)
      → IsStr req.session_id
      → IsU64 req.ordinal
      → HasRoom out (522 + length req.payload)
      → TravelsWhole (encode_put_chunk_req alloc req) decode_put_chunk_req req out
  put_chunk_req-TravelsWhole req out h0 h1 room =
      CarriesAll-TravelsWhole (put_chunk_req-CarriesAll alloc total req h0 h1) out room

  -- Where memory does not run out, the buffer has room, and the fields have their sizes (strings
  -- of at most 512 bytes, digests of 64 characters, numbers of their width): the response to
  -- PUT_CHUNK is decoded to what was encoded, and refused when its end is cut off.
  pub put_chunk_ok-Travels :
      (ok : PutChunkOk) (out : Buf) (cut : ℕ)
      → IsDigest ok.digest
      → HasRoom out 65
      → Travels (encode_put_chunk_ok alloc ok) decode_put_chunk_ok ok out cut
  put_chunk_ok-Travels ok out cut h0 room =
      Carries-Travels (put_chunk_ok-Carries alloc total ok h0) out cut room

  -- Where memory does not run out, the buffer has room, and the fields have their sizes (strings
  -- of at most 512 bytes, digests of 64 characters, numbers of their width): the response to
  -- QUERY_UPLOAD, with a state of one byte and a bitmap of at most 1 MiB, is decoded to what was
  -- encoded, and refused when its end is cut off.
  pub query_upload_ok-Travels :
      (ok : QueryUploadOk) (out : Buf) (cut : ℕ)
      → IsByte ok.state
      → IsU64 ok.chunk_count
      → length ok.present_bitmap ≤ max_bitmap
      → HasRoom out (13 + max_bitmap)
      → Travels (encode_query_upload_ok alloc ok) decode_query_upload_ok ok out cut
  query_upload_ok-Travels ok out cut h0 h1 h2 room =
      Carries-Travels (query_upload_ok-Carries alloc total ok h0 h1 h2) out cut room

  -- Where memory does not run out, the buffer has room, and the fields have their sizes (strings
  -- of at most 512 bytes, digests of 64 characters, numbers of their width): the response to
  -- COMMIT_UPLOAD is decoded to what was encoded, and refused when its end is cut off.
  pub commit_upload_ok-Travels :
      (ok : CommitUploadOk) (out : Buf) (cut : ℕ)
      → IsRef ok.ref
      → IsU64 ok.size
      → IsDigest ok.digest
      → HasRoom out 1614
      → Travels (encode_commit_upload_ok alloc ok) decode_commit_upload_ok ok out cut
  commit_upload_ok-Travels ok out cut h0 h1 h2 room =
      Carries-Travels (commit_upload_ok-Carries alloc total ok h0 h1 h2) out cut room

  -- Where memory does not run out, the buffer has room, and the fields have their sizes (strings
  -- of at most 512 bytes, digests of 64 characters, numbers of their width): a GET_ARTIFACT
  -- request is decoded to what was encoded, and refused when its end is cut off.
  pub get_artifact_req-Travels :
      (req : GetArtifactReq) (out : Buf) (cut : ℕ)
      → IsRef req.ref
      → IsU64 req.offset
      → IsU64 req.amount
      → HasRoom out 1558
      → Travels (encode_get_artifact_req alloc req) decode_get_artifact_req req out cut
  get_artifact_req-Travels req out cut h0 h1 h2 room =
      Carries-Travels (get_artifact_req-Carries alloc total req h0 h1 h2) out cut room

  -- Where memory does not run out, the buffer has room, and the fields have their sizes (strings
  -- of at most 512 bytes, digests of 64 characters, numbers of their width): a DATA payload is
  -- decoded to what was encoded.
  pub data-TravelsWhole :
      (d : DataPayload) (out : Buf)
      → HasRoom out (length d.payload)
      → TravelsWhole (encode_data alloc d) decode_data d out
  data-TravelsWhole d out room = CarriesAll-TravelsWhole (data-CarriesAll alloc total d) out room
