-- ===== src/Core/Path/Tests.antt =====
-- The theorems on src/core_c/fr_hex.c and src/core_c/fr_path.c at concrete inputs.
use forgerelay.Prelude.{
  List, [], arith, bytes, drop, length, refl, suc, take, true, zero, ℕ, ◌++◌, ◌∷◌, ◌≡◌,
}
use forgerelay.Core.Checked.{add_size}
use forgerelay.Core.Hex.{all_chars, digest_hex_valid, hex_decode, hex_encode, is_lower_hex, wrote}
use forgerelay.Core.Hex.RoundTrip.{hex_decode-hex_encode, hex_encode-hex_decode}
use forgerelay.Core.Path.{
  and_then, at_boundary, chunk_rel_path, is_dots, is_ident_component_char, is_rel_char, join_fill,
  join_trimmed, joined_size, path_join, path_validate_rel, scan_chars, scan_segments,
  starts_at_root, trim_root,
}
use forgerelay.Core.Path.Chunks.{chunk_rel_path-valid}
use forgerelay.Core.Path.Join.{IsInside, path_join-IsInside}
use forgerelay.Core.Path.Segments.{
  IsSafe, IsSegment, join_segments, path_validate_rel-IsSafe, path_validate_rel-join_segments,
}
use forgerelay.Core.Status.{code_magnitude, fr_ok}

hex_decode-hex_encode_example :
    (hex : List ℕ) × (hex_encode (bytes (0 ∷ 171 ∷ [])) 5 ≡ wrote (hex ++ 0 ∷ []))
    × (hex_decode hex 2 ≡ wrote (0 ∷ 171 ∷ []))
hex_decode-hex_encode_example =
    hex_decode-hex_encode (0 ∷ 171 ∷ []) 5 2 (omega arith, (omega arith, tt)) (omega arith)
      (omega arith) (omega arith)

abbrev repeat : ℕ → ℕ → List ℕ
repeat zero c = []
repeat (suc n) c = c ∷ repeat n c

-- 64 times 'a'.
abbrev digest : List ℕ
digest = repeat 64 97

digest-valid : digest_hex_valid digest ≡ true
unfolding digest_hex_valid all_chars is_lower_hex
digest-valid = refl

hex_encode-hex_decode_example :
    (raw : List ℕ) × (length raw ≡ 32)
    × (hex_decode digest 32 ≡ wrote raw)
    × (hex_encode (bytes raw) 65 ≡ wrote (digest ++ 0 ∷ []))
hex_encode-hex_decode_example = hex_encode-hex_decode digest digest-valid

chunk_rel_path-valid_example :
    (rel : List ℕ) × (chunk_rel_path digest 66 ≡ wrote (rel ++ 0 ∷ []))
    × (length rel ≡ 65)
    × (path_validate_rel rel ≡ fr_ok)
    × (take 2 rel ++ drop 3 rel ≡ digest)
chunk_rel_path-valid_example = chunk_rel_path-valid digest 66 digest-valid (omega arith)

-- "a/b.c"
abbrev rel_path : List ℕ
rel_path = b'a' ∷ b'/' ∷ b'b' ∷ b'.' ∷ b'c' ∷ []

rel_path-accepted : path_validate_rel rel_path ≡ fr_ok
unfolding path_validate_rel starts_at_root scan_chars scan_segments at_boundary is_rel_char is_dots
    is_ident_component_char
rel_path-accepted = refl

path_validate_rel-IsSafe_example : IsSafe rel_path
path_validate_rel-IsSafe_example = path_validate_rel-IsSafe rel_path rel_path-accepted

abbrev segment : List ℕ
segment = b'a' ∷ []

segment-IsSegment : IsSegment segment
unfolding is_ident_component_char is_dots
segment-IsSegment = (omega arith, (refl, tt), λ e. cc e, λ e. cc e)

path_validate_rel-join_segments_example :
    path_validate_rel (join_segments segment (segment ∷ [])) ≡ fr_ok
path_validate_rel-join_segments_example =
    path_validate_rel-join_segments segment (segment ∷ []) segment-IsSegment (segment-IsSegment, tt)

-- "/r/"
abbrev root : List ℕ
root = b'/' ∷ b'r' ∷ b'/' ∷ []

abbrev joined_path : List ℕ
joined_path = b'/' ∷ b'r' ∷ b'/' ∷ b'a' ∷ b'/' ∷ b'b' ∷ b'.' ∷ b'c' ∷ 0 ∷ []

joined_path-made : path_join root rel_path 16 ≡ wrote joined_path
unfolding path_join join_trimmed join_fill trim_root joined_size and_then add_size path_validate_rel
    starts_at_root scan_chars scan_segments at_boundary is_rel_char is_dots is_ident_component_char
    code_magnitude
joined_path-made = refl

path_join-IsInside_example : IsInside root rel_path 16 joined_path
path_join-IsInside_example = path_join-IsInside root rel_path 16 joined_path joined_path-made
