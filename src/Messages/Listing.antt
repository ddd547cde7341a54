-- ===== src/Messages/Listing.antt =====
-- src/service/fr_messages.cpp: the payloads that describe artifacts, users, tokens and sessions, many of
-- them lists, and those of the administration's requests and of the general responses.
use forgerelay.Prelude.{
  Bool, List, [], if◌then◌else◌, length, ltb, pos, suc, u64_of_i64, zero, ℕ, ℤ, ◌%◌, ◌*◌, ◌^◌, ◌∷◌,
}
use forgerelay.Core.Buffer.{Allocator}
use forgerelay.Core.Status.{e_protocol}
use forgerelay.Messages.Fields.{
  Get, Put, done, get_digest, get_i64, get_str, get_u32, get_u64, get_u8, pure, put_digest, put_i64,
  put_str, put_u32, put_u64, put_u8, then_do, thrown, ◌>>=◌, ◌>>◌,
}
use forgerelay.Messages.Upload.{flag, get_flag}
pub mod RoundTrip
pub mod Items
pub mod Lists

-- A counted list: the number of items as a `uint32_t`, then the items. The decoder refuses a count
-- above its limit before it reads an item.
pub put_items : {A : Type 0} → (A → Put) → List A → Put
put_items put [] out = done out
put_items put (x ∷ xs) out = then_do (put x out) (put_items put xs)

pub get_items : {A : Type 0} → ℕ → Get A → Get (List A)
get_items zero get = pure []
get_items (suc n) get = do x ← get; xs ← get_items n get; pure (x ∷ xs)

pub put_list : {A : Type 0} → Allocator → (A → Put) → List A → Put
put_list alloc put xs = put_u32 alloc (length xs % 2 ^ 32) >> put_items put xs

counted : {A : Type 0} → ℕ → Get A → ℕ → Get (List A)
counted limit get count = if ltb limit count then (λ r. thrown e_protocol) else get_items count get

pub get_list : {A : Type 0} → ℕ → Get A → Get (List A)
get_list limit get = get_u32 >>= counted limit get

abbrev pub max_list : ℕ
max_list = 4096

abbrev pub max_manifest : ℕ
max_manifest = 1024 * 1024

pub record ArtifactSummary : Type 0 where
  pub ns : List ℕ
  pub name : List ℕ
  pub version : List ℕ
  pub size : ℕ
  pub digest : List ℕ
  pub creator : List ℕ
  pub created_at : ℤ

-- `ordinal` is an `int64_t` of which 32 bits travel.
pub record ManifestEntry : Type 0 where
  pub ordinal : ℤ
  pub offset : ℕ
  pub extent : ℕ
  pub digest : List ℕ

pub record ArtifactInfo : Type 0 where
  pub ns : List ℕ
  pub name : List ℕ
  pub version : List ℕ
  pub size : ℕ
  pub digest : List ℕ
  pub chunk_size : ℕ
  pub creator : List ℕ
  pub created_at : ℤ
  pub note : List ℕ
  pub chunks : List ManifestEntry

pub record UserItem : Type 0 where
  pub username : List ℕ
  pub role : ℕ
  pub enabled : Bool
  pub created_at : ℤ

pub record TokenItem : Type 0 where
  pub id : ℕ
  pub username : List ℕ
  pub created_at : ℤ
  pub expires_at : ℤ
  pub revoked : Bool

pub record SessionItem : Type 0 where
  pub session_id : List ℕ
  pub owner : List ℕ
  pub state : ℕ
  pub ns : List ℕ
  pub name : List ℕ
  pub version : List ℕ
  pub expected_size : ℕ
  pub created_at : ℤ

module _ (alloc : Allocator) where
  pub encode_artifact_summary : ArtifactSummary → Put
  encode_artifact_summary item =
      put_str alloc item.ns
      >> (put_str alloc item.name
          >> (put_str alloc item.version
              >> (put_u64 alloc item.size
                  >> (put_digest alloc item.digest
                      >> (put_str alloc item.creator >> put_i64 alloc item.created_at)))))

  pub encode_list_artifacts_ok : List ArtifactSummary → Put
  encode_list_artifacts_ok items = put_list alloc encode_artifact_summary items

  pub encode_manifest_entry : ManifestEntry → Put
  encode_manifest_entry e =
      put_u32 alloc (u64_of_i64 e.ordinal % 2 ^ 32)
      >> (put_u64 alloc e.offset >> (put_u64 alloc e.extent >> put_digest alloc e.digest))

  pub encode_show_artifact_ok : ArtifactInfo → Put
  encode_show_artifact_ok info =
      put_str alloc info.ns
      >> (put_str alloc info.name
          >> (put_str alloc info.version
              >> (put_u64 alloc info.size
                  >> (put_digest alloc info.digest
                      >> (put_u64 alloc info.chunk_size
                          >> (put_str alloc info.creator
                              >> (put_i64 alloc info.created_at
                                  >> (put_str alloc info.note
                                      >> put_list alloc encode_manifest_entry info.chunks))))))))

  pub encode_user_item : UserItem → Put
  encode_user_item item =
      put_str alloc item.username
      >> (put_u8 alloc item.role
          >> (put_u8 alloc (flag item.enabled) >> put_i64 alloc item.created_at))

  pub encode_user_list_ok : List UserItem → Put
  encode_user_list_ok items = put_list alloc encode_user_item items

  pub encode_token_item : TokenItem → Put
  encode_token_item item =
      put_u64 alloc item.id
      >> (put_str alloc item.username
          >> (put_i64 alloc item.created_at
              >> (put_i64 alloc item.expires_at >> put_u8 alloc (flag item.revoked))))

  pub encode_token_list_ok : List TokenItem → Put
  encode_token_list_ok items = put_list alloc encode_token_item items

  pub encode_session_item : SessionItem → Put
  encode_session_item item =
      put_str alloc item.session_id
      >> (put_str alloc item.owner
          >> (put_u8 alloc (item.state % 256)
              >> (put_str alloc item.ns
                  >> (put_str alloc item.name
                      >> (put_str alloc item.version
                          >> (put_u64 alloc item.expected_size
                              >> put_i64 alloc item.created_at))))))

  pub encode_session_list_ok : List SessionItem → Put
  encode_session_list_ok items = put_list alloc encode_session_item items

pub decode_artifact_summary : Get ArtifactSummary
decode_artifact_summary = do
  ns ← get_str
  name ← get_str
  version ← get_str
  size ← get_u64
  digest ← get_digest
  creator ← get_str
  created_at ← get_i64
  pure (record {
    ns = ns;
    name = name;
    version = version;
    size = size;
    digest = digest;
    creator = creator;
    created_at = created_at;
  })

pub decode_list_artifacts_ok : Get (List ArtifactSummary)
decode_list_artifacts_ok = get_list max_list decode_artifact_summary

pub decode_manifest_entry : Get ManifestEntry
decode_manifest_entry = do
  ordinal ← get_u32
  offset ← get_u64
  extent ← get_u64
  digest ← get_digest
  pure (record { ordinal = pos ordinal; offset = offset; extent = extent; digest = digest })

pub decode_show_artifact_ok : Get ArtifactInfo
decode_show_artifact_ok = do
  ns ← get_str
  name ← get_str
  version ← get_str
  size ← get_u64
  digest ← get_digest
  chunk_size ← get_u64
  creator ← get_str
  created_at ← get_i64
  note ← get_str
  chunks ← get_list max_manifest decode_manifest_entry
  pure (record {
    ns = ns;
    name = name;
    version = version;
    size = size;
    digest = digest;
    chunk_size = chunk_size;
    creator = creator;
    created_at = created_at;
    note = note;
    chunks = chunks;
  })

pub decode_user_item : Get UserItem
decode_user_item = do
  username ← get_str
  role ← get_u8
  enabled ← get_flag
  created_at ← get_i64
  pure (record { username = username; role = role; enabled = enabled; created_at = created_at })

pub decode_user_list_ok : Get (List UserItem)
decode_user_list_ok = get_list max_list decode_user_item

pub decode_token_item : Get TokenItem
decode_token_item = do
  id ← get_u64
  username ← get_str
  created_at ← get_i64
  expires_at ← get_i64
  revoked ← get_flag
  pure (record {
    id = id;
    username = username;
    created_at = created_at;
    expires_at = expires_at;
    revoked = revoked;
  })

pub decode_token_list_ok : Get (List TokenItem)
decode_token_list_ok = get_list max_list decode_token_item

pub decode_session_item : Get SessionItem
decode_session_item = do
  session_id ← get_str
  owner ← get_str
  state ← get_u8
  ns ← get_str
  name ← get_str
  version ← get_str
  expected_size ← get_u64
  created_at ← get_i64
  pure (record {
    session_id = session_id;
    owner = owner;
    state = state;
    ns = ns;
    name = name;
    version = version;
    expected_size = expected_size;
    created_at = created_at;
  })

pub decode_session_list_ok : Get (List SessionItem)
decode_session_list_ok = get_list max_list decode_session_item
