-- ===== src/Messages/Travels/Listing.antt =====
-- src/service/fr_messages.cpp: the list responses and the description of an artifact, from end to end.
use forgerelay.Prelude.{
  All, IsU32, List, [], append-nil, arith, length, sym, ℕ, ◌*◌, ◌+◌, ◌<◌, ◌∙◌, ◌≤◌,
}
use forgerelay.Core.Buffer.{Allocator, Buf}
use forgerelay.Core.Buffer.Invariant.{HasRoom, Total}
use forgerelay.Core.Buffer.Reader.{init}
use forgerelay.Core.Buffer.Reader.Unread.{unread-init}
use forgerelay.Messages.Listing.{
  ArtifactInfo, ArtifactSummary, SessionItem, TokenItem, UserItem, decode_list_artifacts_ok,
  decode_session_list_ok, decode_show_artifact_ok, decode_token_list_ok, decode_user_list_ok,
  encode_list_artifacts_ok, encode_session_list_ok, encode_show_artifact_ok, encode_token_list_ok,
  encode_user_list_ok, max_list, max_manifest,
}
use forgerelay.Messages.Listing.Lists.{
  IsInfo, list_artifacts_ok-Carries, session_list_ok-Carries, show_artifact_ok-Carries,
  token_list_ok-Carries, user_list_ok-Carries, user_list_ok-IsRefused,
}
use forgerelay.Messages.Listing.RoundTrip.{IsSession, IsSummary, IsToken, IsUser}
use forgerelay.Messages.Travels.{Carries-Travels, IsLost, Travels}

module _ (alloc : Allocator) (total : Total alloc) where
  -- Where memory does not run out, the buffer has room, and the fields have their sizes (strings
  -- of at most 512 bytes, digests of 64 characters, numbers of their width): a list of at most
  -- 4096 artifacts is decoded to what was encoded, in its order, and refused when its end is cut
  -- off.
  pub list_artifacts_ok-Travels :
      (items : List ArtifactSummary) (out : Buf) (cut : ℕ)
      → length items ≤ max_list
      → All IsSummary items
      → HasRoom out (4 + max_list * 2136)
      → Travels (encode_list_artifacts_ok alloc items) decode_list_artifacts_ok items out cut
  list_artifacts_ok-Travels items out cut h0 h1 room =
      Carries-Travels (list_artifacts_ok-Carries alloc total items h0 h1) out cut room

  -- Where memory does not run out, the buffer has room, and the fields have their sizes (strings
  -- of at most 512 bytes, digests of 64 characters, numbers of their width): the description of
  -- an artifact with at most 2 ^ 20 chunks, whose ordinals are not negative and fit 32 bits, is
  -- decoded to what was encoded, and refused when its end is cut off.
  pub show_artifact_ok-Travels :
      (info : ArtifactInfo) (out : Buf) (cut : ℕ)
      → IsInfo info
      → HasRoom out (2662 + max_manifest * 84)
      → Travels (encode_show_artifact_ok alloc info) decode_show_artifact_ok info out cut
  show_artifact_ok-Travels info out cut h0 room =
      Carries-Travels (show_artifact_ok-Carries alloc total info h0) out cut room

  -- Where memory does not run out, the buffer has room, and the fields have their sizes (strings
  -- of at most 512 bytes, digests of 64 characters, numbers of their width): a list of at most
  -- 4096 users is decoded to what was encoded, in its order, and refused when its end is cut off.
  pub user_list_ok-Travels :
      (items : List UserItem) (out : Buf) (cut : ℕ)
      → length items ≤ max_list
      → All IsUser items
      → HasRoom out (4 + max_list * 524)
      → Travels (encode_user_list_ok alloc items) decode_user_list_ok items out cut
  user_list_ok-Travels items out cut h0 h1 room =
      Carries-Travels (user_list_ok-Carries alloc total items h0 h1) out cut room

  -- Where memory does not run out, the buffer has room, and the fields have their sizes (strings
  -- of at most 512 bytes, digests of 64 characters, numbers of their width): a list of at most
  -- 4096 tokens is decoded to what was encoded, in its order, and refused when its end is cut
  -- off.
  pub token_list_ok-Travels :
      (items : List TokenItem) (out : Buf) (cut : ℕ)
      → length items ≤ max_list
      → All IsToken items
      → HasRoom out (4 + max_list * 539)
      → Travels (encode_token_list_ok alloc items) decode_token_list_ok items out cut
  token_list_ok-Travels items out cut h0 h1 room =
      Carries-Travels (token_list_ok-Carries alloc total items h0 h1) out cut room

  -- Where memory does not run out, the buffer has room, and the fields have their sizes (strings
  -- of at most 512 bytes, digests of 64 characters, numbers of their width): a list of at most
  -- 4096 sessions, with states of one byte, is decoded to what was encoded, in its order, and
  -- refused when its end is cut off.
  pub session_list_ok-Travels :
      (items : List SessionItem) (out : Buf) (cut : ℕ)
      → length items ≤ max_list
      → All IsSession items
      → HasRoom out (4 + max_list * 2587)
      → Travels (encode_session_list_ok alloc items) decode_session_list_ok items out cut
  session_list_ok-Travels items out cut h0 h1 room =
      Carries-Travels (session_list_ok-Carries alloc total items h0 h1) out cut room

  -- Where memory does not run out, and the buffer has room, a list of more than 4096 users with
  -- fields of their sizes, of a length that 32 bits hold, is encoded all the same, to bytes that
  -- the decoder refuses.
  pub user_list_ok-IsLost :
      (items : List UserItem) (out : Buf)
      → max_list < length items
      → IsU32 (length items)
      → All IsUser items
      → HasRoom out (4 + length items * 524)
      → IsLost (encode_user_list_ok alloc items) decode_user_list_ok out
  user_list_ok-IsLost items out long small h (w, room) =
      let (wire, size, writes, refuses) = user_list_ok-IsRefused alloc total items long small h in
      let (after, ran, added, w') = writes out (w, omega (arith, room, size)) in
      record {
        wire = wire;
        after = after;
        is_written = ran;
        is_added = added;
        is_refused = refuses (init wire) [] (unread-init wire ∙ sym (append-nil wire));
      }
