-- ===== src/Storage/Reads/Slices.antt =====
-- src/storage/fr_storage.cpp: a read gives the bytes of the range.
use forgerelay.Prelude.{
  List, [], ap, arith, c_str, dec_le, drop, drop-append, drop_all, false, find, if◌then◌else◌, leb,
  length, length-append, length-drop, length-take, ltb, min, refl, some, suc, sym, take,
  take-append, take_all, true, zero, ℕ, ◌%◌, ◌++◌, ◌+◌, ◌-◌, ◌<◌, ◌==◌, ◌^◌, ◌∙◌, ◌∷◌, ◌≡◌, ◌≤◌,
}
use forgerelay.Core.Buffer.Reader.{remaining}
use forgerelay.Core.Frame.Parser.Stream.{joined}
use forgerelay.Core.Hex.{digest_hex_valid}
use forgerelay.Messages.Fields.{done}
use forgerelay.Messages.Listing.{ManifestEntry}
use forgerelay.Storage.{ChunkFile}
use forgerelay.Storage.Reads.{Sent, get_range, piece_then, range_of, read_chunks, sent_more}
use forgerelay.Storage.Tables.{file_has}

-- The chunks of a list lie one after another, each with the file that its entry describes.
pub data Laid (files : List ChunkFile) : ℕ → List ManifestEntry → List ℕ → Type 0 where
  laid_end : {start : ℕ} → Laid files start [] []
  laid_chunk :
      {start : ℕ}
      → {e : ManifestEntry} → {es : List ManifestEntry} → {content : List ℕ} → (f : ChunkFile)
      → (e.offset ≡ start)
      → (find (file_has e.digest) files ≡ some f)
      → (length f.content ≡ e.extent)
      → (digest_hex_valid (c_str e.digest) ≡ true)
      → Laid files (start + e.extent) es content
      → Laid files start (e ∷ es) (f.content ++ content)

take-drop-append :
    (r k : ℕ) (xs ys : List ℕ)
    → take r (drop k (xs ++ ys))
      ≡ take r (drop k xs) ++ take (r - (length xs - k)) (drop (k - length xs) ys)
take-drop-append r k xs ys =
    ap (take r) (drop-append k xs ys)
    ∙ take-append r (drop k xs) (drop (k - length xs) ys)
    ∙ ap (λ n. take r (drop k xs) ++ take (r - n) (drop (k - length xs) ys)) (length-drop k xs)

pub take-min : (r : ℕ) (xs : List ℕ) → take (min r (length xs)) xs ≡ take r xs
take-min r xs = elim (dec_le r (length xs)) [
  | yes short ↦ ap (λ n. take n xs) (omega arith)
  | no long ↦
      ap (λ n. take n xs) (omega arith)
      ∙ take_all (length xs) xs (omega arith)
      ∙ sym (take_all r xs (omega arith))
]

read_chunks-zero :
    (files : List ChunkFile) (es : List ManifestEntry) (offset : ℕ)
    → read_chunks files es offset 0 ≡ ([], done 0)
unfolding read_chunks
read_chunks-zero files [] offset = refl
read_chunks-zero files (e ∷ es) offset = refl

-- What the loop has sent is the range that it was asked for, and it says how long that is.
pub record SendsRange (sent : Sent) (bytes_read : List ℕ) : Type 0 where
  pub sent_bytes : joined sent.0 ≡ bytes_read
  pub sent_count : sent.1 ≡ done (length bytes_read)

-- A chunk that ends before the offset.
read_chunks-skip :
    (files : List ChunkFile) (e : ManifestEntry) (es : List ManifestEntry)
    (start offset remaining : ℕ)
    → e.offset ≡ start
    → start + e.extent ≤ offset
    → start + e.extent < 2 ^ 64
    → 0 < remaining
    → read_chunks files (e ∷ es) offset remaining ≡ read_chunks files es offset remaining
unfolding read_chunks
read_chunks-skip files e es start offset remaining at before fits more =
    let chunk_end : (e.offset + e.extent) % 2 ^ 64 ≡ start + e.extent = omega (arith, at, fits) in
    let some_left : remaining == 0 ≡ false = ground (arith, more) in
    let passed : leb (start + e.extent) offset ≡ true = ground (arith, before) in
    rw (some_left, chunk_end, passed) refl

-- A chunk that the offset lies in.
read_chunks-step :
    (files : List ChunkFile) (e : ManifestEntry) (es : List ManifestEntry)
    (start offset remaining n : ℕ)
    → e.offset ≡ start
    → start ≤ offset
    → offset < start + e.extent
    → start + e.extent < 2 ^ 64
    → offset + remaining < 2 ^ 64
    → 0 < remaining
    → n ≡ min remaining (start + e.extent - offset)
    → read_chunks files (e ∷ es) offset remaining
      ≡ piece_then n
          (get_range files e.digest (offset - start) n)
          (read_chunks files es (offset + n) (remaining - n))
unfolding read_chunks
read_chunks-step files e es start offset remaining n at late within fits ends more amount =
    let chunk_end : (e.offset + e.extent) % 2 ^ 64 ≡ start + e.extent = omega (arith, at, fits) in
    let first : (if ltb e.offset offset then offset else e.offset) ≡ offset =
      ground (arith, at, late) in
    let local_offset : (if ltb e.offset offset then offset - e.offset else 0) ≡ offset - start =
      ground (arith, at, late) in
    let to_end : (start + e.extent + 2 ^ 64 - offset) % 2 ^ 64 ≡ start + e.extent - offset =
      omega (arith, late, within, fits) in
    let size : (if ltb remaining (start + e.extent - offset)
          then remaining
          else start + e.extent - offset)
        ≡ n =
      ground (arith, amount) in
    let some_left : remaining == 0 ≡ false = ground (arith, more) in
    let inside : leb (start + e.extent) offset ≡ false = ground (arith, within) in
    let begun : leb ((offset + remaining) % 2 ^ 64) e.offset ≡ false =
      ground (arith, at, late, ends, more) in
    let next : (offset + n) % 2 ^ 64 ≡ offset + n = omega (arith, ends, amount) in
    rw (some_left, begun, chunk_end, inside, first, local_offset, to_end, size, next) refl

get_range-found :
    (files : List ChunkFile) (digest : List ℕ) (offset n : ℕ) (f : ChunkFile)
    → digest_hex_valid (c_str digest) ≡ true
    → find (file_has digest) files ≡ some f
    → offset ≤ length f.content
    → get_range files digest offset n
      ≡ done (take (min n (length f.content - offset)) (drop offset f.content))
unfolding get_range range_of
get_range-found files digest offset n f valid found within =
    let covered : ltb (length f.content) offset ≡ false = ground (arith, within) in
    rw (valid, found, covered) refl

SendsRange-none :
    (files : List ChunkFile) (es : List ManifestEntry) (offset : ℕ) (l : List ℕ)
    → SendsRange (read_chunks files es offset 0) (take 0 l)
unfolding joined
SendsRange-none files es offset l =
    rw (read_chunks-zero files es offset) record { sent_bytes = refl; sent_count = refl }

-- A piece before what the rest of the loop sends.
SendsRange-piece :
    (r n : ℕ) (bytes_here later : List ℕ) (rest : Sent)
    → n ≡ min r (length bytes_here)
    → SendsRange rest later
    → SendsRange (piece_then n (done (take n bytes_here)) rest) (take r bytes_here ++ later)
unfolding joined
SendsRange-piece r n bytes_here later (pieces, result) amount s =
    let same : take n bytes_here ≡ take r bytes_here =
      ap (λ k. take k bytes_here) amount ∙ take-min r bytes_here in
    let size : n + length later ≡ length (take r bytes_here ++ later) =
      omega (arith, amount, length-append (take r bytes_here) later, length-take r bytes_here) in
    record {
      sent_bytes = ap (λ l. take n bytes_here ++ l) s.sent_bytes ∙ ap (λ l. l ++ later) same;
      sent_count = ap (sent_more n) s.sent_count ∙ ap done size;
    }

pub read_chunks-Laid :
    (files : List ChunkFile) (start : ℕ) (es : List ManifestEntry) (content : List ℕ)
    (offset remaining : ℕ)
    → Laid files start es content
    → start ≤ offset
    → start + length content < 2 ^ 64
    → offset + remaining < 2 ^ 64
    → SendsRange
        (read_chunks files es offset remaining)
        (take remaining (drop (offset - start) content))
unfolding read_chunks joined
read_chunks-Laid files start es content offset zero l late fits ends =
    SendsRange-none files es offset (drop (offset - start) content)
read_chunks-Laid files start [] content offset (suc m) laid_end late fits ends =
    let blank : drop {A = ℕ} (offset - start) [] ≡ [] =
      drop_all (offset - start) [] (omega arith) in
    rw blank record { sent_bytes = refl; sent_count = refl }
read_chunks-Laid files start (e ∷ es) content offset (suc m)
      (laid_chunk {content = rest} f at found size valid l) late fits ends =
    let k = offset - start in
    let total = length-append f.content rest in
    let parts = take-drop-append (suc m) k f.content rest in
    elim (dec_le (start + e.extent) offset) [
      | yes before ↦
          let r_same : suc m - (length f.content - k) ≡ suc m = omega (arith, before, size) in
          let k_same : k - length f.content ≡ offset - (start + e.extent) =
            omega (arith, before, size) in
          rw
            (
              read_chunks-skip files e es start offset (suc m) at before
                  (omega (arith, total, size, fits)) (omega arith),
              parts,
              drop_all k f.content (omega (arith, before, size)),
              r_same,
              k_same,
            )
            (read_chunks-Laid files (start + e.extent) es rest offset (suc m) l before
              (omega (arith, total, size, fits)) ends)
      | no within ↦
          let n = min (suc m) (start + e.extent - offset) in
          let cut : min n (length f.content - k) ≡ n = omega (arith, size, late) in
          let here : n ≡ min (suc m) (length (drop k f.content)) =
            omega (arith, size, late, length-drop k f.content) in
          rw
            (
              read_chunks-step files e es start offset (suc m) n at late (omega (arith, within))
                  (omega (arith, total, size, fits)) ends (omega arith) refl,
              get_range-found files e.digest k n f valid found (omega (arith, within, size, late)),
              cut,
              parts,
            )
            (SendsRange-piece (suc m) n (drop k f.content) _ _ here
              (elim (dec_le (suc m) (start + e.extent - offset)) [
                | yes last ↦
                    let none_left : suc m - n ≡ 0 = omega (arith, last) in
                    let none_wanted : suc m - (length f.content - k) ≡ 0 =
                      omega (arith, last, size, late) in
                    rw (none_left, none_wanted)
                      (SendsRange-none files es (offset + n) (drop (k - length f.content) rest))
                | no more ↦
                    let next : offset + n ≡ start + e.extent = omega (arith, more, within) in
                    let left : suc m - (length f.content - k) ≡ suc m - n =
                      omega (arith, more, size, late) in
                    let from : k - length f.content ≡ start + e.extent - (start + e.extent) =
                      omega (arith, size, within, late) in
                    rw (left, from, next)
                      (read_chunks-Laid files (start + e.extent) es rest (start + e.extent)
                        (suc m - n) l (omega arith) (omega (arith, total, size, fits))
                        (omega (arith, ends, more, within)))
              ]))
    ]
