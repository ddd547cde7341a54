-- ===== src/Dispatch/Get/Range.antt =====
-- src/service/fr_dispatch.cpp: the whole transfer, from FR_MSG_GET_ARTIFACT to the final OK.
use forgerelay.Prelude.{
  Bool-cases, List, ap, arith, drop, find, if◌then◌else◌, inl, inr, length, length-drop,
  length-take, min, refl, some, suc, sym, take, ℕ, ◌%◌, ◌+◌, ◌-◌, ◌<◌, ◌==◌, ◌^◌, ◌∙◌, ◌≡◌, ◌≤◌,
}
use forgerelay.Core.Frame.Parser.Stream.{joined}
use forgerelay.Dispatch.Get.{
  GetState, answer_first, continue_get, get_final, get_more, move_on, read_next, receive_all,
  received_after, slice_of, start_get,
}
use forgerelay.Dispatch.Get.Transfer.{
  Stored, read_next-SendsRange, receive_all-range, slice_le, wanted, wanted-last, wanted-step,
}
use forgerelay.Messages.Fields.{done}
use forgerelay.Messages.Listing.{ArtifactInfo}
use forgerelay.Storage.{Db}
use forgerelay.Storage.Reads.{Sent}
use forgerelay.Storage.Reads.Slices.{Laid, take-min}
use forgerelay.Storage.Sessions.Commit.{is_named}

answer_first-done :
    (st : GetState) (sent : Sent) (n : ℕ)
    → sent.1 ≡ done n
    → answer_first st sent ≡ (
        if st.remaining - n == 0
        then get_final sent.0 (move_on n st).sent
        else get_more sent.0 (move_on n st))
unfolding answer_first
answer_first-done st (pieces, result) n e = rw e refl

module _ (db : Db) (a : ArtifactInfo) (content : List ℕ) where
  answer_first-range :
      (rounds : ℕ) (st : GetState)
      → Stored db a content st.ns st.name st.version
      → st.offset ≤ a.size
      → st.sent + (a.size - st.offset) < 2 ^ 64
      → st.remaining < rounds
      → receive_all (suc rounds) db (answer_first st (read_next db st))
        ≡ some (wanted db a content st)
  unfolding receive_all wanted received_after
  answer_first-range rounds st s within small enough =
      let r = read_next-SendsRange db a content st s within in
      let rest_of = drop st.offset content in
      let n = length (take (slice_of st) rest_of) in
      let n_min : n ≡ min (slice_of st) (length rest_of) = length-take (slice_of st) rest_of in
      let size : length rest_of ≡ a.size - st.offset =
        omega (arith, length-drop st.offset content, s.sized) in
      elim (Bool-cases (st.remaining - n == 0)) [
        | inl last ↦
            let brought = wanted-last db a content st n refl (ground (arith, last)) in
            let count : (st.sent + length (take st.remaining rest_of)) % 2 ^ 64
                ≡ st.sent + length (take st.remaining rest_of) =
              omega (arith, small, size, length-take st.remaining rest_of) in
            rw
              (
                answer_first-done st (read_next db st) n r.sent_count,
                last,
                r.sent_bytes,
                brought,
                count,
              )
              refl
        | inr more ↦
            let few : n ≤ st.remaining = omega (arith, n_min, slice_le st) in
            let there : n ≤ a.size - st.offset = omega (arith, n_min, size) in
            let at : (st.offset + n) % 2 ^ 64 ≡ st.offset + n =
              omega (arith, within, there, s.bounded) in
            let count : (st.sent + n) % 2 ^ 64 ≡ st.sent + n = omega (arith, there, small) in
            let (pieces, sizes) =
              wanted-step db a content st n few within there s.sized s.bounded small in
            let same : joined (read_next db st).0 ≡ take n rest_of =
              r.sent_bytes
              ∙ sym (take-min (slice_of st) rest_of)
              ∙ ap (λ k. take k rest_of) (sym n_min) in
            let ih : receive_all rounds db (continue_get db (move_on n st))
                ≡ some (wanted db a content (move_on n st)) =
              receive_all-range db a content rounds (move_on n st)
                (record { there = s.there; laid = s.laid; sized = s.sized; bounded = s.bounded })
                (omega (arith, at, within, there)) (omega (arith, at, count, small, there, within))
                (omega (arith, enough, few)) in
            rw
              (answer_first-done st (read_next db st) n r.sent_count, more, ih, same, pieces, sizes)
              refl
      ]

  -- Where the chunks of a stored artifact lie where its entries say, with digests that are valid
  -- as C strings and files of their lengths, and make up a content of its size, below 2 ^ 64, the
  -- answers to a request for a range that begins within the artifact come to an end, in no more
  -- continuations than the bytes asked for and two; the bytes received are the range, cut at the
  -- end of the artifact, and the final answer counts them.
  pub start_get-range :
      (rounds : ℕ) (ns name version : List ℕ) (offset size : ℕ)
      → find (is_named ns name version) db.artifacts ≡ some a
      → Laid db.files 0 a.chunks content
      → length content ≡ a.size
      → a.size < 2 ^ 64
      → offset ≤ a.size
      → size < rounds
      → receive_all (suc rounds) db (start_get db ns name version offset size)
        ≡ some (record {
          received_bytes = take size (drop offset content);
          announced = length (take size (drop offset content));
        })
  unfolding start_get wanted
  start_get-range rounds ns name version offset size there laid sized bounded within enough =
      let st : GetState = record {
        ns = ns;
        name = name;
        version = version;
        offset = offset;
        remaining = size;
        sent = 0;
      } in
      let none_sent : 0 + length (take size (drop offset content))
          ≡ length (take size (drop offset content)) =
        omega arith in
      answer_first-range rounds st
        (record { there = there; laid = laid; sized = sized; bounded = bounded }) within
        (omega (arith, bounded)) enough
      ∙ ap (λ k. some (record { received_bytes = take size (drop offset content); announced = k }))
          none_sent
