-- ===== src/Messages/Tests.antt =====
-- The theorems on src/service/fr_messages.cpp at concrete inputs: the upload and
-- download messages.
use forgerelay.Prelude.{List, [], arith, negsuc, refl, suc, true, zero, ℕ, ◌+◌, ◌^◌, ◌∷◌, ◌≤◌}
use forgerelay.Core.Buffer.{Allocator, empty}
use forgerelay.Core.Buffer.Invariant.{HasRoom, Total}
use forgerelay.Messages.Travels.{Travels}
use forgerelay.Messages.Travels.Upload.{create_upload_req-Travels, query_upload_ok-Travels}
use forgerelay.Messages.Upload.{
  ArtifactRef, CommitUploadOk, CreateUploadOk, CreateUploadReq, DataPayload, GetArtifactReq,
  HelloReq, PutChunkOk, PutChunkReq, QueryUploadOk, decode_create_upload_req,
  decode_query_upload_ok, encode_create_upload_req, encode_query_upload_ok, max_bitmap,
}
use forgerelay.Messages.Upload.RoundTrip.{IsRef}
mod Listing

abbrev always : Allocator
always n = true

always-Total : Total always
always-Total n = refl

empty-HasRoom : (n : ℕ) → n ≤ 2 ^ 63 → HasRoom empty n
empty-HasRoom n h = (record { within = omega arith; bounded = omega arith }, omega (arith, h))

abbrev repeat : ℕ → ℕ → List ℕ
repeat zero c = []
repeat (suc n) c = c ∷ repeat n c

abbrev digest : List ℕ
digest = repeat 64 97

abbrev word : List ℕ
word = b'a' ∷ b'b' ∷ []

abbrev ref : ArtifactRef
ref = record { ns = word; name = word; version = word }

ref-IsRef : IsRef ref
ref-IsRef = (omega arith, omega arith, omega arith)

abbrev hello_req : HelloReq
hello_req = record { protocol = 1; client = word }

abbrev create_upload_req : CreateUploadReq
create_upload_req = record { ref = ref; expected_size = 300; expected_digest = digest }

create_upload_req-Travels_example :
    Travels
      (encode_create_upload_req always create_upload_req)
      decode_create_upload_req
      create_upload_req
      empty
      5
create_upload_req-Travels_example =
    create_upload_req-Travels always always-Total create_upload_req empty 5 ref-IsRef (omega arith)
      refl (empty-HasRoom 1614 (omega arith))

abbrev create_upload_ok : CreateUploadOk
create_upload_ok = record { session_id = word; chunk_size = 4096; expires_at = negsuc 4 }

abbrev put_chunk_req : PutChunkReq
put_chunk_req = record { session_id = word; ordinal = 3; payload = word }

abbrev put_chunk_ok : PutChunkOk
put_chunk_ok = record { digest = digest; reused = true }

abbrev query_upload_ok : QueryUploadOk
query_upload_ok = record { state = 2; chunk_count = 9; present_bitmap = 255 ∷ 1 ∷ [] }

query_upload_ok-Travels_example :
    Travels
      (encode_query_upload_ok always query_upload_ok)
      decode_query_upload_ok
      query_upload_ok
      empty
      5
query_upload_ok-Travels_example =
    query_upload_ok-Travels always always-Total query_upload_ok empty 5 (omega arith) (omega arith)
      (omega arith) (empty-HasRoom (13 + max_bitmap) (omega arith))

abbrev commit_upload_ok : CommitUploadOk
commit_upload_ok = record { ref = ref; size = 300; digest = digest }

abbrev get_artifact_req : GetArtifactReq
get_artifact_req = record { ref = ref; offset = 4; amount = 10 }

abbrev data_payload : DataPayload
data_payload = record { payload = word }
