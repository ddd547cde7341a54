-- ===== src/Messages/Listing/Lists.antt =====
-- src/service/fr_messages.cpp: the list responses and the description of an artifact.
use forgerelay.Prelude.{All, All-map, IsI64, IsU32, IsU64, List, arith, length, ◌*◌, ◌+◌, ◌<◌, ◌≤◌}
use forgerelay.Core.Buffer.{Allocator}
use forgerelay.Core.Buffer.Invariant.{Total}
use forgerelay.Messages.Fields.Carried.{
  put_digest-Carries, put_i64-Carries, put_str-Carries, put_u64-Carries,
}
use forgerelay.Messages.Listing.{
  ArtifactInfo, ArtifactSummary, ManifestEntry, SessionItem, TokenItem, UserItem,
  decode_artifact_summary, decode_list_artifacts_ok, decode_manifest_entry, decode_session_item,
  decode_session_list_ok, decode_show_artifact_ok, decode_token_item, decode_token_list_ok,
  decode_user_item, decode_user_list_ok, encode_artifact_summary, encode_list_artifacts_ok,
  encode_manifest_entry, encode_session_item, encode_session_list_ok, encode_show_artifact_ok,
  encode_token_item, encode_token_list_ok, encode_user_item, encode_user_list_ok, get_list,
  max_list, max_manifest, put_list,
}
use forgerelay.Messages.Listing.Items.{IsRefused, put_list-Carries, put_list-IsRefused}
use forgerelay.Messages.Listing.RoundTrip.{
  IsEntry, IsSession, IsSummary, IsToken, IsUser, artifact_summary-Carries, manifest_entry-Carries,
  session_item-Carries, token_item-Carries, user_item-Carries,
}
use forgerelay.Messages.Upload.RoundTrip.{IsDigest, IsStr}
use forgerelay.Messages.Wire.{Carries, Carries-fits, Carries-last, Carries-then, Silent-pure}

-- A description whose fields the encoder accepts.
abbrev pub IsInfo : ArtifactInfo → Type 0
IsInfo info =
    IsStr info.ns
    × IsStr info.name
    × IsStr info.version
    × IsU64 info.size
    × IsDigest info.digest
    × IsU64 info.chunk_size
    × IsStr info.creator
    × IsI64 info.created_at
    × IsStr info.note
    × (length info.chunks ≤ max_manifest)
    × All IsEntry info.chunks

module _ (alloc : Allocator) (total : Total alloc) where
  pub list_artifacts_ok-Carries :
      (items : List ArtifactSummary)
      → length items ≤ max_list
      → All IsSummary items
      → Carries
          (4 + max_list * 2136)
          (encode_list_artifacts_ok alloc items)
          decode_list_artifacts_ok
          items
  unfolding encode_list_artifacts_ok decode_list_artifacts_ok
  list_artifacts_ok-Carries items short h =
      put_list-Carries alloc total 2136 max_list (encode_artifact_summary alloc)
        decode_artifact_summary items short (omega arith)
        (All-map _ _ items (artifact_summary-Carries alloc total) h)

  pub user_list_ok-Carries :
      (items : List UserItem)
      → length items ≤ max_list
      → All IsUser items
      → Carries (4 + max_list * 524) (encode_user_list_ok alloc items) decode_user_list_ok items
  unfolding encode_user_list_ok decode_user_list_ok
  user_list_ok-Carries items short h =
      put_list-Carries alloc total 524 max_list (encode_user_item alloc) decode_user_item items
        short (omega arith) (All-map _ _ items (user_item-Carries alloc total) h)

  -- The server writes a list of more users than a client takes.
  pub user_list_ok-IsRefused :
      (items : List UserItem)
      → max_list < length items
      → IsU32 (length items)
      → All IsUser items
      → IsRefused (4 + length items * 524) (encode_user_list_ok alloc items) decode_user_list_ok
  unfolding encode_user_list_ok decode_user_list_ok
  user_list_ok-IsRefused items long small h =
      put_list-IsRefused alloc total 524 max_list (encode_user_item alloc) decode_user_item items
        long small (All-map _ _ items (user_item-Carries alloc total) h)

  pub token_list_ok-Carries :
      (items : List TokenItem)
      → length items ≤ max_list
      → All IsToken items
      → Carries (4 + max_list * 539) (encode_token_list_ok alloc items) decode_token_list_ok items
  unfolding encode_token_list_ok decode_token_list_ok
  token_list_ok-Carries items short h =
      put_list-Carries alloc total 539 max_list (encode_token_item alloc) decode_token_item items
        short (omega arith) (All-map _ _ items (token_item-Carries alloc total) h)

  pub session_list_ok-Carries :
      (items : List SessionItem)
      → length items ≤ max_list
      → All IsSession items
      → Carries
          (4 + max_list * 2587)
          (encode_session_list_ok alloc items)
          decode_session_list_ok
          items
  unfolding encode_session_list_ok decode_session_list_ok
  session_list_ok-Carries items short h =
      put_list-Carries alloc total 2587 max_list (encode_session_item alloc) decode_session_item
        items short (omega arith) (All-map _ _ items (session_item-Carries alloc total) h)

  manifest-Carries :
      (entries : List ManifestEntry)
      → length entries ≤ max_manifest
      → All IsEntry entries
      → Carries
          (4 + max_manifest * 84)
          (put_list alloc (encode_manifest_entry alloc) entries)
          (get_list max_manifest decode_manifest_entry)
          entries
  manifest-Carries entries short h =
      put_list-Carries alloc total 84 max_manifest (encode_manifest_entry alloc)
        decode_manifest_entry entries short (omega arith)
        (All-map _ _ entries (manifest_entry-Carries alloc total) h)

  pub show_artifact_ok-Carries :
      (info : ArtifactInfo)
      → IsInfo info
      → Carries
          (2662 + max_manifest * 84)
          (encode_show_artifact_ok alloc info)
          decode_show_artifact_ok
          info
  unfolding encode_show_artifact_ok decode_show_artifact_ok
  show_artifact_ok-Carries info
        (ns, name, version, size, digest, chunk, creator, time, note, short, entries) =
      Carries-fits
        (Carries-then _ (put_str-Carries alloc total info.ns ns) (
          Carries-then _ (put_str-Carries alloc total info.name name) (
            Carries-then _ (put_str-Carries alloc total info.version version) (
              Carries-then _ (put_u64-Carries alloc total info.size size) (
                Carries-then _ (put_digest-Carries alloc total info.digest digest) (
                  Carries-then _ (put_u64-Carries alloc total info.chunk_size chunk) (
                    Carries-then _ (put_str-Carries alloc total info.creator creator) (
                      Carries-then _ (put_i64-Carries alloc total info.created_at time) (
                        Carries-then _ (put_str-Carries alloc total info.note note) (
                          Carries-last _ (manifest-Carries info.chunks short entries)
                            (Silent-pure info)))))))))))
        (omega arith)
