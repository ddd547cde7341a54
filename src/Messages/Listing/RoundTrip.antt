-- ===== src/Messages/Listing/RoundTrip.antt =====
-- src/service/fr_messages.cpp: each kind of listed item travels, and reads back as it was.
use forgerelay.Prelude.{
  IsByte, IsI64, IsU32, IsU64, List, arith, pos, u64_of_i64, ℕ, ℤ, ◌%◌, ◌^◌, ◌≡◌,
}
use forgerelay.Core.Buffer.{Allocator}
use forgerelay.Core.Buffer.Invariant.{Total}
use forgerelay.Messages.Fields.{get_i64, get_str, get_u64, put_i64, put_str, put_u64}
use forgerelay.Messages.Fields.Carried.{
  put_digest-Carries, put_i64-Carries, put_str-Carries, put_u32-Carries, put_u64-Carries,
  put_u8-Carries,
}
use forgerelay.Messages.Listing.{
  ArtifactSummary, ManifestEntry, SessionItem, TokenItem, UserItem, decode_artifact_summary,
  decode_manifest_entry, decode_session_item, decode_token_item, decode_user_item,
  encode_artifact_summary, encode_manifest_entry, encode_session_item, encode_token_item,
  encode_user_item,
}
use forgerelay.Messages.Upload.RoundTrip.{IsDigest, IsStr, put_flag-Carries}
use forgerelay.Messages.Wire.{
  Carries, Carries-fits, Carries-last, Carries-then, Silent-pure, str_size,
}
use native.Mathlib.Nat.{mod-eq_of_lt}

-- The items whose fields the encoders accept.
abbrev pub IsSummary : ArtifactSummary → Type 0
IsSummary item =
    IsStr item.ns
    × IsStr item.name
    × IsStr item.version
    × IsU64 item.size
    × IsDigest item.digest
    × IsStr item.creator
    × IsI64 item.created_at

abbrev pub IsUser : UserItem → Type 0
IsUser item = IsStr item.username × IsI64 item.created_at

abbrev pub IsToken : TokenItem → Type 0
IsToken item = IsU64 item.id × IsStr item.username × IsI64 item.created_at × IsI64 item.expires_at

abbrev pub IsSession : SessionItem → Type 0
IsSession item =
    IsStr item.session_id
    × IsStr item.owner
    × IsByte item.state
    × IsStr item.ns
    × IsStr item.name
    × IsStr item.version
    × IsU64 item.expected_size
    × IsI64 item.created_at

-- The ordinal of an entry is not negative, and fits the 32 bits that travel.
abbrev pub IsEntry : ManifestEntry → Type 0
IsEntry e =
    ((n : ℕ) × (e.ordinal ≡ pos n) × IsU32 n) × IsU64 e.offset × IsU64 e.extent × IsDigest e.digest

module _ (alloc : Allocator) (total : Total alloc) where
  str : (value : List ℕ) → IsStr value → Carries str_size (put_str alloc value) get_str value
  str = put_str-Carries alloc total

  u64 : (v : ℕ) → IsU64 v → Carries 8 (put_u64 alloc v) get_u64 v
  u64 = put_u64-Carries alloc total

  i64 : (z : ℤ) → IsI64 z → Carries 8 (put_i64 alloc z) get_i64 z
  i64 = put_i64-Carries alloc total

  pub artifact_summary-Carries :
      (item : ArtifactSummary)
      → IsSummary item
      → Carries 2136 (encode_artifact_summary alloc item) decode_artifact_summary item
  unfolding encode_artifact_summary decode_artifact_summary
  artifact_summary-Carries item (ns, name, version, size, digest, creator, time) =
      Carries-fits
        (Carries-then _ (str item.ns ns) (
          Carries-then _ (str item.name name) (
            Carries-then _ (str item.version version) (
              Carries-then _ (u64 item.size size) (
                Carries-then _ (put_digest-Carries alloc total item.digest digest) (
                  Carries-then _ (str item.creator creator)
                    (Carries-last _ (i64 item.created_at time) (Silent-pure item))))))))
        (omega arith)

  pub user_item-Carries :
      (item : UserItem)
      → IsUser item
      → Carries 524 (encode_user_item alloc item) decode_user_item item
  unfolding encode_user_item decode_user_item
  user_item-Carries item (name, time) =
      Carries-fits
        (Carries-then _ (str item.username name) (
          Carries-then _ (put_u8-Carries alloc total item.role) (
            Carries-then _ (put_flag-Carries alloc total item.enabled)
              (Carries-last _ (i64 item.created_at time) (Silent-pure item)))))
        (omega arith)

  pub token_item-Carries :
      (item : TokenItem)
      → IsToken item
      → Carries 539 (encode_token_item alloc item) decode_token_item item
  unfolding encode_token_item decode_token_item
  token_item-Carries item (id, name, time, end) =
      Carries-fits
        (Carries-then _ (u64 item.id id) (
          Carries-then _ (str item.username name) (
            Carries-then _ (i64 item.created_at time) (
              Carries-then _ (i64 item.expires_at end)
                (Carries-last _ (put_flag-Carries alloc total item.revoked) (Silent-pure item))))))
        (omega arith)

  pub session_item-Carries :
      (item : SessionItem)
      → IsSession item
      → Carries 2587 (encode_session_item alloc item) decode_session_item item
  unfolding encode_session_item decode_session_item
  session_item-Carries item (id, owner, st, ns, name, version, size, time) =
      Carries-fits {m = 2587}
        (rw (mod-eq_of_lt {m = 256} st) (
          Carries-then _ (str item.session_id id) (
            Carries-then _ (str item.owner owner) (
              Carries-then _ (put_u8-Carries alloc total item.state) (
                Carries-then _ (str item.ns ns) (
                  Carries-then _ (str item.name name) (
                    Carries-then _ (str item.version version) (
                      Carries-then _ (u64 item.expected_size size)
                        (Carries-last _ (i64 item.created_at time) (Silent-pure item))))))))))
        (omega arith)

  pub manifest_entry-Carries :
      (e : ManifestEntry)
      → IsEntry e
      → Carries 84 (encode_manifest_entry alloc e) decode_manifest_entry e
  unfolding encode_manifest_entry decode_manifest_entry u64_of_i64
  manifest_entry-Carries e ((n, same, fits), offset, extent, digest) =
      Carries-fits {m = 84}
        (let small : n % 2 ^ 64 % 2 ^ 32 ≡ n = omega arith in
          rw (same, small)
            (Carries-then _ (put_u32-Carries alloc total n fits) (
              Carries-then _ (u64 e.offset offset) (
                Carries-then _ (u64 e.extent extent) (
                  Carries-last _ (put_digest-Carries alloc total e.digest digest)
                    (Silent-pure _))))))
        (omega arith)
