-- ===== src/Messages/Tests/Listing.antt =====
-- The theorems on src/service/fr_messages.cpp at concrete inputs: the lists, the administration's
-- requests and the general responses.
use forgerelay.Prelude.{
  All, List, [], arith, false, length, negsuc, none, pos, refl, some, suc, true, zero, ℕ, ◌*◌, ◌+◌,
  ◌∷◌, ◌≡◌,
}
use forgerelay.Core.Buffer.{empty}
use forgerelay.Messages.Admin.{ErrorPayload, ListArtifactsReq, StatusOk}
use forgerelay.Messages.Listing.{
  ArtifactInfo, ArtifactSummary, ManifestEntry, SessionItem, TokenItem, UserItem,
  decode_show_artifact_ok, decode_user_list_ok, encode_show_artifact_ok, encode_user_list_ok,
  max_manifest,
}
use forgerelay.Messages.Listing.RoundTrip.{IsUser}
use forgerelay.Messages.Tests.{always, always-Total, digest, empty-HasRoom, word}
use forgerelay.Messages.Travels.{IsLost, Travels}
use forgerelay.Messages.Travels.Listing.{show_artifact_ok-Travels, user_list_ok-IsLost}

abbrev summary : ArtifactSummary
summary = record {
  ns = word;
  name = word;
  version = word;
  size = 300;
  digest = digest;
  creator = word;
  created_at = pos 17;
}

abbrev entry : ManifestEntry
entry = record { ordinal = pos 0; offset = 0; extent = 300; digest = digest }

abbrev info : ArtifactInfo
info = record {
  ns = word;
  name = word;
  version = word;
  size = 300;
  digest = digest;
  chunk_size = 4096;
  creator = word;
  created_at = pos 17;
  note = [];
  chunks = entry ∷ [];
}

show_artifact_ok-Travels_example :
    Travels (encode_show_artifact_ok always info) decode_show_artifact_ok info empty 5
show_artifact_ok-Travels_example =
    show_artifact_ok-Travels always always-Total info empty 5
      (
        omega arith,
        omega arith,
        omega arith,
        omega arith,
        refl,
        omega arith,
        omega arith,
        omega arith,
        omega arith,
        omega arith,
        (((0, refl, omega arith), omega arith, omega arith, refl), tt),
      )
      (empty-HasRoom (2662 + max_manifest * 84) (omega arith))

abbrev user : UserItem
user = record { username = []; role = 1; enabled = true; created_at = pos 17 }

users : ℕ → List UserItem
users zero = []
users (suc n) = user ∷ users n

length-users : (n : ℕ) → length (users n) ≡ n
unfolding users
length-users zero = refl
length-users (suc n) = omega (arith, length-users n)

users-IsUser : (n : ℕ) → All IsUser (users n)
unfolding users
users-IsUser zero = tt
users-IsUser (suc n) = ((omega arith, omega arith), users-IsUser n)

user_list_ok-IsLost_example :
    IsLost (encode_user_list_ok always (users 4097)) decode_user_list_ok empty
user_list_ok-IsLost_example =
    user_list_ok-IsLost always always-Total (users 4097) empty (omega (arith, length-users 4097))
      (omega (arith, length-users 4097)) (users-IsUser 4097)
      (empty-HasRoom (4 + length (users 4097) * 524) (omega (arith, length-users 4097)))

abbrev token : TokenItem
token = record {
  id = 5;
  username = word;
  created_at = pos 17;
  expires_at = pos 90;
  revoked = false;
}

abbrev session : SessionItem
session = record {
  session_id = word;
  owner = word;
  state = 1;
  ns = word;
  name = word;
  version = word;
  expected_size = 300;
  created_at = pos 17;
}

abbrev list_artifacts_req : ListArtifactsReq
list_artifacts_req = record { ns = some word; name = none; limit = 50; offset = 0 }

abbrev status : StatusOk
status = record {
  version = word;
  uptime_seconds = 60;
  connections = 2;
  active_sessions = 1;
  artifacts = 7;
  used_bytes = 4096;
  capacity_bytes = 8192;
  high_watermark_percent = 90;
}

abbrev error : ErrorPayload
error = record { code = negsuc 6; message = word }
