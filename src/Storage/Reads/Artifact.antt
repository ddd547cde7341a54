-- ===== src/Storage/Reads/Artifact.antt =====
-- src/storage/fr_storage.cpp: a slice of an artifact.
use forgerelay.Prelude.{
  List, ap, arith, drop, false, find, length, length-drop, ltb, min, some, take, ℕ, ◌-◌, ◌<◌, ◌^◌,
  ◌∙◌, ◌≡◌, ◌≤◌,
}
use forgerelay.Messages.Fields.{done}
use forgerelay.Messages.Listing.{ArtifactInfo}
use forgerelay.Storage.{Db}
use forgerelay.Storage.Reads.{read_artifact_slice, read_shown, show_artifact}
use forgerelay.Storage.Reads.Slices.{Laid, SendsRange, read_chunks-Laid, take-min}
use forgerelay.Storage.Sessions.Commit.{is_named}

module _ (db : Db) (ns name version : List ℕ) (a : ArtifactInfo) (content : List ℕ) where
  -- Where the chunks of a stored artifact lie where its entries say, with digests that are valid
  -- as C strings and files of their lengths, and make up a content of its size, below 2 ^ 64, a
  -- slice that begins within the artifact is that part of its content, cut at the end, and its
  -- bytes are counted.
  pub read_artifact_slice-Laid :
      (offset max_len : ℕ)
      → find (is_named ns name version) db.artifacts ≡ some a
      → Laid db.files 0 a.chunks content
      → length content ≡ a.size
      → a.size < 2 ^ 64
      → offset ≤ a.size
      → SendsRange
          (read_artifact_slice ns name version offset max_len db)
          (take max_len (drop offset content))
  unfolding read_artifact_slice read_shown show_artifact
  read_artifact_slice-Laid offset max_len there l size fits within =
      let covered : ltb a.size offset ≡ false = ground (arith, within) in
      let s =
        read_chunks-Laid db.files 0 a.chunks content offset (min (a.size - offset) max_len) l
          (omega arith) (omega (arith, size, fits)) (omega (arith, within, fits)) in
      let whole_offset : offset - 0 ≡ offset = omega arith in
      let clipped : min (a.size - offset) max_len ≡ min max_len (length (drop offset content)) =
        omega (arith, size, length-drop offset content) in
      let same : take (min (a.size - offset) max_len) (drop (offset - 0) content)
          ≡ take max_len (drop offset content) =
        ap (λ k. take (min (a.size - offset) max_len) (drop k content)) whole_offset
        ∙ ap (λ n. take n (drop offset content)) clipped
        ∙ take-min max_len (drop offset content) in
      rw (read_artifact_slice, show_artifact, there, covered)
        record {
          sent_bytes = s.sent_bytes ∙ same;
          sent_count = s.sent_count ∙ ap (λ l. done (length l)) same;
        }
