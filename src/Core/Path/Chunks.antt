-- ===== src/Core/Path/Chunks.antt =====
-- src/core_c/fr_path.c: where a chunk lies, by its digest.
use forgerelay.Prelude.{
  All, List, [], ap, arith, drop, get_or, length, le→ltb, refl, take, take_all, true, ℕ, ◌++◌, ◌∙◌,
  ◌∷◌, ◌≡◌, ◌≢◌, ◌≤◌,
}
use forgerelay.Core.Hex.{all_chars, digest_hex_valid, is_lower_hex, wrote}
use forgerelay.Core.Path.{
  chunk_rel_path, chunk_rel_path_len, dot, is_ident_component_char, path_validate_rel, slash,
}
use forgerelay.Core.Path.Segments.{join_segments, path_validate_rel-join_segments}
use forgerelay.Core.Status.{fr_ok}

lower_inside : (c : ℕ) → is_lower_hex c ≡ true → is_ident_component_char c ≡ true
unfolding is_lower_hex is_ident_component_char
lower_inside c h = ground (arith, h)

chars_inside :
    (s : List ℕ) → all_chars is_lower_hex s ≡ true → All (λ c. is_ident_component_char c ≡ true) s
unfolding all_chars
chars_inside [] h = tt
chars_inside (c ∷ s) h = (lower_inside c (ground (arith, h)), chars_inside s (ground (arith, h)))

lower_not_dot : (c : ℕ) → is_lower_hex c ≡ true → c ≢ dot
unfolding is_lower_hex
lower_not_dot c h e = absurd (ground (arith, h, e))

accepted :
    (digest : List ℕ) (out_cap : ℕ)
    → digest_hex_valid digest ≡ true
    → chunk_rel_path_len ≤ out_cap
    → chunk_rel_path digest out_cap
      ≡ wrote (get_or digest 0 0 ∷ get_or digest 1 0 ∷ slash ∷ take 62 (drop 2 digest) ++ 0 ∷ [])
unfolding chunk_rel_path
accepted digest out_cap h room = rw (h, le→ltb out_cap chunk_rel_path_len room) refl

-- With room for 66 bytes, a valid digest has a relative path of 65 characters, which
-- fr_path_validate_rel accepts and from which the digest can be read off.
pub chunk_rel_path-valid :
    (digest : List ℕ) (out_cap : ℕ)
    → digest_hex_valid digest ≡ true
    → chunk_rel_path_len ≤ out_cap
    → (rel : List ℕ) × (chunk_rel_path digest out_cap ≡ wrote (rel ++ 0 ∷ []))
      × (length rel ≡ 65)
      × (path_validate_rel rel ≡ fr_ok)
      × (take 2 rel ++ drop 3 rel ≡ digest)
unfolding digest_hex_valid join_segments all_chars
chunk_rel_path-valid [] out_cap h room = absurd (ground (arith, h))
chunk_rel_path-valid (a ∷ []) out_cap h room = absurd (ground (arith, h))
chunk_rel_path-valid (a ∷ b ∷ []) out_cap h room = absurd (ground (arith, h))
chunk_rel_path-valid (a ∷ b ∷ c ∷ []) out_cap h room = absurd (ground (arith, h))
chunk_rel_path-valid (a ∷ b ∷ c ∷ d ∷ []) out_cap h room = absurd (ground (arith, h))
chunk_rel_path-valid (a ∷ b ∷ c ∷ d ∷ e ∷ s) out_cap h room =
    let size : length s ≡ 59 = ground (arith, h) in
    let lower : all_chars is_lower_hex (a ∷ b ∷ c ∷ d ∷ e ∷ s) ≡ true = ground (arith, h) in
    let inside = chars_inside (a ∷ b ∷ c ∷ d ∷ e ∷ s) lower in
    let no_dot : a ≢ dot = lower_not_dot a (ground (arith, lower)) in
    let tail : List ℕ = c ∷ d ∷ e ∷ s in
    (
      a ∷ b ∷ slash ∷ tail,
      accepted (a ∷ b ∷ tail) out_cap h room
          ∙ ap (λ (l : List ℕ). wrote (a ∷ b ∷ slash ∷ l ++ 0 ∷ []))
              (take_all 62 tail (omega (arith, size))),
      omega (arith, size),
      path_validate_rel-join_segments (a ∷ b ∷ []) (tail ∷ [])
          (omega arith, (inside.0, (inside.1.0, tt)), λ e. cc e, λ e. no_dot (cc e))
          ((omega arith, inside.1.1, λ e. cc e, λ e. cc e), tt),
      refl,
    )
