-- ===== src/Messages/Admin/RoundTrip.antt =====
-- src/service/fr_messages.cpp: the administration's requests and the general responses travel.
use forgerelay.Prelude.{IsI32, IsI64, IsU32, IsU64, List, Option, arith, none, some, ℕ}
use forgerelay.Core.Buffer.{Allocator}
use forgerelay.Core.Buffer.Invariant.{Total}
use forgerelay.Messages.Admin.{
  DeleteArtifactOk, ErrorPayload, ListArtifactsReq, RunGcOk, RunGcReq, StatusOk, TokenCreateOk,
  TokenCreateReq, UserAddReq, decode_delete_artifact_ok, decode_error_payload,
  decode_list_artifacts_req, decode_run_gc_ok, decode_run_gc_req, decode_status_ok,
  decode_token_create_ok, decode_token_create_req, decode_user_add_req, encode_delete_artifact_ok,
  encode_error_payload, encode_list_artifacts_req, encode_run_gc_ok, encode_run_gc_req,
  encode_status_ok, encode_token_create_ok, encode_token_create_req, encode_user_add_req,
  get_optional, optional_body, put_optional,
}
use forgerelay.Messages.Fields.Carried.{
  put_i32-Carries, put_i64-Carries, put_str-Carries, put_u32-Carries, put_u64-Carries,
  put_u8-Carries,
}
use forgerelay.Messages.Upload.RoundTrip.{IsStr, put_flag-Carries}
use forgerelay.Messages.Wire.{Carries, Carries-fits, Carries-last, Carries-then, Silent-pure}

abbrev pub IsStatusOk : StatusOk → Type 0
IsStatusOk ok =
    IsStr ok.version
    × IsU64 ok.uptime_seconds
    × IsU32 ok.connections
    × IsU32 ok.active_sessions
    × IsU64 ok.artifacts
    × IsU64 ok.used_bytes
    × IsU64 ok.capacity_bytes

abbrev pub IsOptional : Option (List ℕ) → Type 0
IsOptional none = Unit
IsOptional (some value) = IsStr value

module _ (alloc : Allocator) (total : Total alloc) where
  optional-Carries :
      (o : Option (List ℕ)) → IsOptional o → Carries 515 (put_optional alloc o) get_optional o
  unfolding put_optional get_optional optional_body
  optional-Carries none h =
      Carries-fits (Carries-last optional_body (put_u8-Carries alloc total 0) (Silent-pure none))
        (omega arith)
  optional-Carries (some value) h =
      Carries-fits
        (Carries-then optional_body (put_u8-Carries alloc total 1)
          (Carries-last _ (put_str-Carries alloc total value h) (Silent-pure (some value))))
        (omega arith)

  pub list_artifacts_req-Carries :
      (req : ListArtifactsReq)
      → IsOptional req.ns
      → IsOptional req.name
      → IsU32 req.limit
      → IsU32 req.offset
      → Carries 1038 (encode_list_artifacts_req alloc req) decode_list_artifacts_req req
  unfolding encode_list_artifacts_req decode_list_artifacts_req
  list_artifacts_req-Carries req ns name limit off =
      Carries-fits
        (Carries-then _ (optional-Carries req.ns ns) (
          Carries-then _ (optional-Carries req.name name) (
            Carries-then _ (put_u32-Carries alloc total req.limit limit)
              (Carries-last _ (put_u32-Carries alloc total req.offset off) (Silent-pure req)))))
        (omega arith)

  pub status_ok-Carries :
      (ok : StatusOk) → IsStatusOk ok → Carries 555 (encode_status_ok alloc ok) decode_status_ok ok
  unfolding encode_status_ok decode_status_ok
  status_ok-Carries ok (version, uptime, conns, sessions, artifacts, used, capacity) =
      Carries-fits
        (Carries-then _ (put_str-Carries alloc total ok.version version) (
          Carries-then _ (put_u64-Carries alloc total ok.uptime_seconds uptime) (
            Carries-then _ (put_u32-Carries alloc total ok.connections conns) (
              Carries-then _ (put_u32-Carries alloc total ok.active_sessions sessions) (
                Carries-then _ (put_u64-Carries alloc total ok.artifacts artifacts) (
                  Carries-then _ (put_u64-Carries alloc total ok.used_bytes used) (
                    Carries-then _ (put_u64-Carries alloc total ok.capacity_bytes capacity) (
                      Carries-last _ (put_u8-Carries alloc total ok.high_watermark_percent)
                        (Silent-pure ok)))))))))
        (omega arith)

  pub delete_artifact_ok-Carries :
      (ok : DeleteArtifactOk)
      → IsI64 ok.marked_chunks
      → Carries 8 (encode_delete_artifact_ok alloc ok) decode_delete_artifact_ok ok
  unfolding encode_delete_artifact_ok decode_delete_artifact_ok
  delete_artifact_ok-Carries ok h =
      Carries-fits
        (Carries-last _ (put_i64-Carries alloc total ok.marked_chunks h) (Silent-pure ok))
        (omega arith)

  pub run_gc_req-Carries :
      (req : RunGcReq) → Carries 1 (encode_run_gc_req alloc req) decode_run_gc_req req
  unfolding encode_run_gc_req decode_run_gc_req
  run_gc_req-Carries req =
      Carries-fits (Carries-last _ (put_flag-Carries alloc total req.dry_run) (Silent-pure req))
        (omega arith)

  pub run_gc_ok-Carries :
      (ok : RunGcOk)
      → IsI64 ok.scanned
      → IsI64 ok.deleted_count
      → IsI64 ok.deleted_bytes
      → Carries 24 (encode_run_gc_ok alloc ok) decode_run_gc_ok ok
  unfolding encode_run_gc_ok decode_run_gc_ok
  run_gc_ok-Carries ok scanned count size =
      Carries-fits
        (Carries-then _ (put_i64-Carries alloc total ok.scanned scanned) (
          Carries-then _ (put_i64-Carries alloc total ok.deleted_count count)
            (Carries-last _ (put_i64-Carries alloc total ok.deleted_bytes size) (Silent-pure ok))))
        (omega arith)

  pub user_add_req-Carries :
      (req : UserAddReq)
      → IsStr req.username
      → Carries 515 (encode_user_add_req alloc req) decode_user_add_req req
  unfolding encode_user_add_req decode_user_add_req
  user_add_req-Carries req name =
      Carries-fits
        (Carries-then _ (put_str-Carries alloc total req.username name)
          (Carries-last _ (put_u8-Carries alloc total req.role) (Silent-pure req)))
        (omega arith)

  pub token_create_req-Carries :
      (req : TokenCreateReq)
      → IsStr req.username
      → IsU32 req.ttl_hours
      → Carries 518 (encode_token_create_req alloc req) decode_token_create_req req
  unfolding encode_token_create_req decode_token_create_req
  token_create_req-Carries req name ttl =
      Carries-fits
        (Carries-then _ (put_str-Carries alloc total req.username name)
          (Carries-last _ (put_u32-Carries alloc total req.ttl_hours ttl) (Silent-pure req)))
        (omega arith)

  pub token_create_ok-Carries :
      (ok : TokenCreateOk)
      → IsStr ok.token
      → Carries 514 (encode_token_create_ok alloc ok) decode_token_create_ok ok
  unfolding encode_token_create_ok decode_token_create_ok
  token_create_ok-Carries ok h =
      Carries-fits (Carries-last _ (put_str-Carries alloc total ok.token h) (Silent-pure ok))
        (omega arith)

  pub error_payload-Carries :
      (e : ErrorPayload)
      → IsI32 e.code
      → IsStr e.message
      → Carries 518 (encode_error_payload alloc e) decode_error_payload e
  unfolding encode_error_payload decode_error_payload
  error_payload-Carries e code text =
      Carries-fits
        (Carries-then _ (put_i32-Carries alloc total e.code code)
          (Carries-last _ (put_str-Carries alloc total e.message text) (Silent-pure e)))
        (omega arith)
