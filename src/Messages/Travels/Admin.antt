-- ===== src/Messages/Travels/Admin.antt =====
-- src/service/fr_messages.cpp: the administration's requests and the general responses, from end to end.
use forgerelay.Prelude.{IsI32, IsU32, ℕ}
use forgerelay.Core.Buffer.{Allocator, Buf}
use forgerelay.Core.Buffer.Invariant.{HasRoom, Total}
use forgerelay.Messages.Admin.{
  ErrorPayload, ListArtifactsReq, StatusOk, decode_error_payload, decode_list_artifacts_req,
  decode_status_ok, encode_error_payload, encode_list_artifacts_req, encode_status_ok,
}
use forgerelay.Messages.Admin.RoundTrip.{
  IsOptional, IsStatusOk, error_payload-Carries, list_artifacts_req-Carries, status_ok-Carries,
}
use forgerelay.Messages.Travels.{Carries-Travels, Travels}
use forgerelay.Messages.Upload.RoundTrip.{IsStr}

module _ (alloc : Allocator) (total : Total alloc) where
  -- Where memory does not run out, the buffer has room, and the fields have their sizes (strings
  -- of at most 512 bytes, digests of 64 characters, numbers of their width): a LIST_ARTIFACTS
  -- request, with or without a namespace and a name to filter by, is decoded to what was encoded,
  -- and refused when its end is cut off.
  pub list_artifacts_req-Travels :
      (req : ListArtifactsReq) (out : Buf) (cut : ℕ)
      → IsOptional req.ns
      → IsOptional req.name
      → IsU32 req.limit
      → IsU32 req.offset
      → HasRoom out 1038
      → Travels (encode_list_artifacts_req alloc req) decode_list_artifacts_req req out cut
  list_artifacts_req-Travels req out cut h0 h1 h2 h3 room =
      Carries-Travels (list_artifacts_req-Carries alloc total req h0 h1 h2 h3) out cut room

  -- Where memory does not run out, the buffer has room, and the fields have their sizes (strings
  -- of at most 512 bytes, digests of 64 characters, numbers of their width): the response to
  -- STATUS is decoded to what was encoded, and refused when its end is cut off.
  pub status_ok-Travels :
      (ok : StatusOk) (out : Buf) (cut : ℕ)
      → IsStatusOk ok
      → HasRoom out 555
      → Travels (encode_status_ok alloc ok) decode_status_ok ok out cut
  status_ok-Travels ok out cut h0 room =
      Carries-Travels (status_ok-Carries alloc total ok h0) out cut room

  -- Where memory does not run out, the buffer has room, and the fields have their sizes (strings
  -- of at most 512 bytes, digests of 64 characters, numbers of their width): an error response,
  -- with any 32-bit code and a message of at most 512 bytes, is decoded to what was encoded, and
  -- refused when its end is cut off.
  pub error_payload-Travels :
      (e : ErrorPayload) (out : Buf) (cut : ℕ)
      → IsI32 e.code
      → IsStr e.message
      → HasRoom out 518
      → Travels (encode_error_payload alloc e) decode_error_payload e out cut
  error_payload-Travels e out cut h0 h1 room =
      Carries-Travels (error_payload-Carries alloc total e h0 h1) out cut room
