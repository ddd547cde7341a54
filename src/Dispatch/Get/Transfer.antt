-- ===== src/Dispatch/Get/Transfer.antt =====
-- src/service/fr_dispatch.cpp: the answers to FR_MSG_GET_ARTIFACT come to an end, and bring the range.
use forgerelay.Prelude.{
  ==_iff, Bool-cases, List, [], ap, arith, dec_le, drop, drop-add, find, if◌then◌else◌, inl, inr,
  length, length-append, length-drop, length-take, min, refl, some, suc, sym, take, take_all, true,
  zero, ℕ, ◌%◌, ◌++◌, ◌+◌, ◌-◌, ◌<◌, ◌==◌, ◌^◌, ◌||◌, ◌∙◌, ◌∷◌, ◌≡◌, ◌≤◌,
}
use forgerelay.Core.Frame.Parser.Stream.{joined}
use forgerelay.Dispatch.Get.{
  GetState, Received, answer_next, continue_get, get_final, get_more, move_on, read_next,
  receive_all, received_after, slice_of,
}
use forgerelay.Messages.Fields.{done}
use forgerelay.Messages.Listing.{ArtifactInfo}
use forgerelay.Storage.{Db}
use forgerelay.Storage.Reads.{Sent}
use forgerelay.Storage.Reads.Artifact.{read_artifact_slice-Laid}
use forgerelay.Storage.Reads.Slices.{Laid, SendsRange, take-min}
use forgerelay.Storage.Sessions.Commit.{is_named}

take_add : (m n : ℕ) (l : List ℕ) → m ≤ n → take n l ≡ take m l ++ take (n - m) (drop m l)
take_add zero n l h = let all_left : n ≡ n - 0 = omega arith in ap (λ k. take k l) all_left
take_add (suc m) zero l h = absurd (omega arith)
take_add (suc m) (suc n) [] h = sym (take_all (suc n - suc m) [] (omega arith))
take_add (suc m) (suc n) (x ∷ l) h =
    let same : n - m ≡ suc n - suc m = omega arith in
    ap (λ t. x ∷ t) (take_add m n l (omega arith) ∙ ap (λ k. take m l ++ take k (drop m l)) same)

pub slice_le : (st : GetState) → slice_of st ≤ st.remaining
slice_le st = ground arith

answer_next-done :
    (st : GetState) (sent : Sent) (n : ℕ)
    → sent.1 ≡ done n
    → answer_next st sent ≡ (
        if st.remaining - n == 0 || n == 0
        then get_final sent.0 (move_on n st).sent
        else get_more sent.0 (move_on n st))
unfolding answer_next
answer_next-done st (pieces, result) n e = rw e refl

module _ (db : Db) (a : ArtifactInfo) (content : List ℕ) where
  -- The artifact, with its chunks in their places.
  pub record Stored (ns name version : List ℕ) : Type 0 where
    pub there : find (is_named ns name version) db.artifacts ≡ some a
    pub laid : Laid db.files 0 a.chunks content
    pub sized : length content ≡ a.size
    pub bounded : a.size < 2 ^ 64

  pub read_next-SendsRange :
      (st : GetState)
      → Stored st.ns st.name st.version
      → st.offset ≤ a.size
      → SendsRange (read_next db st) (take (slice_of st) (drop st.offset content))
  unfolding joined
  read_next-SendsRange st s within = elim (Bool-cases (slice_of st == 0)) [
    | inl blank ↦
        let none_left : slice_of st ≡ 0 = (==_iff _ _).0 blank in
        rw (blank, none_left) record { sent_bytes = refl; sent_count = refl }
    | inr some_left ↦ rw some_left (
        read_artifact_slice-Laid db st.ns st.name st.version a content st.offset (slice_of st)
          s.there s.laid s.sized s.bounded within)
  ]

  -- What is left of the range, after the bytes that were sent.
  unfoldable pub wanted : GetState → Received
  wanted st = record {
    received_bytes = take st.remaining (drop st.offset content);
    announced = st.sent + length (take st.remaining (drop st.offset content));
  }

  pub wanted-step :
      (st : GetState) (n : ℕ)
      → n ≤ st.remaining
      → st.offset ≤ a.size
      → n ≤ a.size - st.offset
      → length content ≡ a.size
      → a.size < 2 ^ 64
      → st.sent + (a.size - st.offset) < 2 ^ 64
      → (take n (drop st.offset content) ++ (wanted (move_on n st)).received_bytes
          ≡ (wanted st).received_bytes)
        × ((wanted (move_on n st)).announced ≡ (wanted st).announced)
  unfolding wanted
  wanted-step st n few within there sized bounded small =
      let rest_of = drop st.offset content in
      let at : (st.offset + n) % 2 ^ 64 ≡ st.offset + n = omega (arith, within, there, bounded) in
      let count : (st.sent + n) % 2 ^ 64 ≡ st.sent + n = omega (arith, there, small) in
      let pieces : take n rest_of ++ take (st.remaining - n) (drop (st.offset + n) content)
          ≡ take st.remaining rest_of =
        ap (λ l. take n rest_of ++ take (st.remaining - n) l) (drop-add st.offset n content)
        ∙ sym (take_add n st.remaining rest_of few) in
      let sizes : st.sent + n + length (take (st.remaining - n) (drop (st.offset + n) content))
          ≡ st.sent + length (take st.remaining rest_of) =
        omega (
          arith,
          ap length pieces,
          length-append (take n rest_of) (take (st.remaining - n) (drop (st.offset + n) content)),
          length-take n rest_of,
          length-drop st.offset content,
          there,
          sized,
        ) in
      rw (at, count) (pieces, sizes)

  -- The last answer brings all that is left.
  pub wanted-last :
      (st : GetState) (n : ℕ)
      → n ≡ length (take (slice_of st) (drop st.offset content))
      → st.remaining - n == 0 || n == 0 ≡ true
      → (take (slice_of st) (drop st.offset content) ≡ take st.remaining (drop st.offset content))
  wanted-last st n size last = elim (dec_le st.remaining n) [
    | yes full ↦
        ap (λ k. take k (drop st.offset content))
          (omega
            (arith, full, size, length-take (slice_of st) (drop st.offset content), slice_le st))
    | no some_left ↦
        let blank : length (drop st.offset content) ≤ 0 =
          ground
            (arith, size, last, some_left, length-take (slice_of st) (drop st.offset content)) in
        take_all (slice_of st) (drop st.offset content) (omega (arith, blank))
        ∙ sym (take_all st.remaining (drop st.offset content) (omega (arith, blank)))
  ]

  pub receive_all-range :
      (rounds : ℕ) (st : GetState)
      → Stored st.ns st.name st.version
      → st.offset ≤ a.size
      → st.sent + (a.size - st.offset) < 2 ^ 64
      → st.remaining < rounds
      → receive_all rounds db (continue_get db st) ≡ some (wanted st)
  unfolding receive_all continue_get wanted received_after
  receive_all-range zero st s within small enough = absurd (omega arith)
  receive_all-range (suc rounds) st s within small enough =
      let r = read_next-SendsRange st s within in
      let rest_of = drop st.offset content in
      let n = length (take (slice_of st) rest_of) in
      let n_min : n ≡ min (slice_of st) (length rest_of) = length-take (slice_of st) rest_of in
      let rest_of_size : length rest_of ≡ a.size - st.offset =
        omega (arith, length-drop st.offset content, s.sized) in
      elim (Bool-cases (st.remaining - n == 0 || n == 0)) [
        | inl last ↦
            let brought = wanted-last st n refl last in
            let count : (st.sent + length (take st.remaining rest_of)) % 2 ^ 64
                ≡ st.sent + length (take st.remaining rest_of) =
              omega (arith, small, rest_of_size, length-take st.remaining rest_of) in
            rw
              (
                answer_next-done st (read_next db st) n r.sent_count,
                last,
                r.sent_bytes,
                brought,
                count,
              )
              refl
        | inr more ↦
            let few : n ≤ st.remaining = omega (arith, n_min, slice_le st) in
            let there : n ≤ a.size - st.offset = omega (arith, n_min, rest_of_size) in
            let some_sent : 0 < n = ground (arith, more) in
            let at : (st.offset + n) % 2 ^ 64 ≡ st.offset + n =
              omega (arith, within, there, s.bounded) in
            let count : (st.sent + n) % 2 ^ 64 ≡ st.sent + n = omega (arith, there, small) in
            let (pieces, sizes) = wanted-step st n few within there s.sized s.bounded small in
            let same : joined (read_next db st).0 ≡ take n rest_of =
              r.sent_bytes
              ∙ sym (take-min (slice_of st) rest_of)
              ∙ ap (λ k. take k rest_of) (sym n_min) in
            let ih : receive_all rounds db (continue_get db (move_on n st))
                ≡ some (wanted (move_on n st)) =
              receive_all-range rounds (move_on n st)
                (record { there = s.there; laid = s.laid; sized = s.sized; bounded = s.bounded })
                (omega (arith, at, within, there)) (omega (arith, at, count, small, there, within))
                (omega (arith, enough, some_sent, few)) in
            rw (answer_next-done st (read_next db st) n r.sent_count, more, ih, same, pieces, sizes)
              refl
      ]
