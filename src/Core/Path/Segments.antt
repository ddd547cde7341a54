-- ===== src/Core/Path/Segments.antt =====
-- src/core_c/fr_path.c: the paths that `fr_path_validate_rel` accepts are those made of safe segments.
use forgerelay.Prelude.{
  ==_iff, All, All-append, Bool-cases, List, [], ap, append-nil, append_assoc, arith, false, inl,
  inr, length, length-append, refl, sym, true, ℕ, ◌&&◌, ◌++◌, ◌<◌, ◌==◌, ◌∙◌, ◌∷◌, ◌≡◌, ◌≢◌,
}
use forgerelay.Core.Path.{
  at_boundary, dot, is_dots, is_ident_component_char, is_rel_char, path_validate_rel, scan_chars,
  scan_segments, slash, starts_at_root,
}
use forgerelay.Core.Status.{fr_ok}

-- A segment: a character at least, none of them a slash or outside the set of identifiers, and not
-- "." or "..".
abbrev pub IsSegment : List ℕ → Type 0
IsSegment s =
    (0 < length s)
    × All (λ c. is_ident_component_char c ≡ true) s
    × (s ≢ dot ∷ [])
    × (s ≢ dot ∷ dot ∷ [])

-- The segments with a slash between any two.
unfoldable pub join_segments : List ℕ → List (List ℕ) → List ℕ
join_segments first [] = first
join_segments first (next ∷ more) = first ++ slash ∷ join_segments next more

-- A path made of safe segments.
abbrev pub IsSafe : List ℕ → Type 0
IsSafe rel =
    (first : List ℕ) × (more : List (List ℕ)) × IsSegment first
    × All IsSegment more
    × (rel ≡ join_segments first more)

not_dots : (s : List ℕ) → is_dots s ≡ false → (s ≢ dot ∷ []) × (s ≢ dot ∷ dot ∷ [])
unfolding is_dots
not_dots s h = (λ e. cc (h, ap is_dots e), λ e. cc (h, ap is_dots e))

is_dots_lem : (s : List ℕ) → s ≢ dot ∷ [] → s ≢ dot ∷ dot ∷ [] → is_dots s ≡ false
unfolding is_dots
is_dots_lem [] one two = refl
is_dots_lem (a ∷ []) one two = elim (Bool-cases (a == dot)) [
  | inl e ↦ absurd (one (ap (λ (x : ℕ). x ∷ []) ((==_iff a dot).0 e)))
  | inr e ↦ e
]
is_dots_lem (a ∷ b ∷ []) one two = elim (Bool-cases (a == dot && b == dot)) [
  | inl e ↦
      let first : a ≡ dot = (==_iff a dot).0 (ground (arith, e)) in
      let second : b ≡ dot = (==_iff b dot).0 (ground (arith, e)) in
      absurd (two (cc (first, second)))
  | inr e ↦ e
]
is_dots_lem (a ∷ b ∷ c ∷ s) one two = refl

split_segments :
    (comp l : List ℕ)
    → All (λ c. is_ident_component_char c ≡ true) comp
    → (length comp == 0 && at_boundary l) ≡ false
    → scan_chars l ≡ true
    → scan_segments comp l ≡ true
    → IsSafe (comp ++ l)
unfolding scan_chars scan_segments at_boundary join_segments is_rel_char
split_segments comp [] chars begun h g =
    let (one, two) = not_dots comp (ground (arith, g)) in
    (comp, [], (ground (arith, begun), chars, one, two), tt, append-nil comp)
split_segments comp (c ∷ rest) chars begun h g = elim (Bool-cases (c == slash)) [
  | inl e ↦
      let (one, two) = not_dots comp (ground (arith, g, e)) in
      let (first, more, safe, all_safe, same) =
        split_segments [] rest tt (ground (arith, h, e)) (ground (arith, h))
          (ground (arith, g, e)) in
      (
        comp,
        first ∷ more,
        (ground (arith, begun, e), chars, one, two),
        (safe, all_safe),
        ap (λ (l : List ℕ). comp ++ l) (cc (same, (==_iff c slash).0 e)),
      )
  | inr e ↦
      let longer : All (λ c. is_ident_component_char c ≡ true) (comp ++ c ∷ []) =
        All-append _ comp (c ∷ []) chars (ground (arith, h, e), tt) in
      let (first, more, safe, all_safe, same) =
        split_segments (comp ++ c ∷ []) rest longer (ground (arith, length-append comp (c ∷ [])))
          (ground (arith, h)) (ground (arith, g, e)) in
      (first, more, safe, all_safe, sym (append_assoc comp (c ∷ []) rest) ∙ same)
]

-- Every path that fr_path_validate_rel accepts is made of segments with single slashes between
-- them: it has no empty segment, no "." or "..", no character outside the set, and no slash in
-- front or at the end.
pub path_validate_rel-IsSafe : (rel : List ℕ) → path_validate_rel rel ≡ fr_ok → IsSafe rel
unfolding path_validate_rel starts_at_root at_boundary
path_validate_rel-IsSafe [] h = absurd (ground (arith, h))
path_validate_rel-IsSafe (c ∷ rest) h =
    split_segments [] (c ∷ rest) tt (ground (arith, h)) (ground (arith, h)) (ground (arith, h))

scan_chars-append :
    (s t : List ℕ)
    → All (λ c. is_ident_component_char c ≡ true) s
    → scan_chars (s ++ t) ≡ scan_chars t
unfolding scan_chars is_rel_char is_ident_component_char
scan_chars-append [] t h = refl
scan_chars-append (c ∷ s) t h = ground (arith, h.0, scan_chars-append s t h.1)

scan_segments-append :
    (comp s t : List ℕ)
    → All (λ c. is_ident_component_char c ≡ true) s
    → scan_segments comp (s ++ t) ≡ scan_segments (comp ++ s) t
unfolding scan_segments is_ident_component_char
scan_segments-append comp [] t h = ap (λ l. scan_segments l t) (sym (append-nil comp))
scan_segments-append comp (c ∷ s) t h =
    let no_slash : (c == slash) ≡ false = ground (arith, h.0) in
    rw no_slash (
      scan_segments-append (comp ++ c ∷ []) s t h.1
      ∙ ap (λ l. scan_segments l t) (append_assoc comp (c ∷ []) s))

-- A path of segments does not start with a slash or a backslash, and is not empty.
begins_inside :
    (first : List ℕ) (more : List (List ℕ))
    → IsSegment first
    → (c : ℕ) × (rest : List ℕ) × (join_segments first more ≡ c ∷ rest)
      × (is_ident_component_char c ≡ true)
unfolding join_segments
begins_inside [] more h = absurd (omega (arith, h.0))
begins_inside (c ∷ s) [] h = (c, s, refl, h.1.0)
begins_inside (c ∷ s) (next ∷ more) h = (c, s ++ slash ∷ join_segments next more, refl, h.1.0)

slash_between :
    (l : List ℕ) (c : ℕ) (rest : List ℕ)
    → l ≡ c ∷ rest
    → is_ident_component_char c ≡ true
    → scan_chars l ≡ true
    → scan_chars (slash ∷ l) ≡ true
unfolding scan_chars at_boundary is_rel_char is_ident_component_char
slash_between l c rest same inside h = ground (arith, same, inside, h)

scan_chars-join_segments :
    (first : List ℕ) (more : List (List ℕ))
    → IsSegment first
    → All IsSegment more
    → scan_chars (join_segments first more) ≡ true
unfolding join_segments scan_chars at_boundary is_rel_char is_ident_component_char
scan_chars-join_segments first [] h hs =
    ap scan_chars (sym (append-nil first)) ∙ scan_chars-append first [] h.1
scan_chars-join_segments first (next ∷ more) h hs =
    let (c, rest, same, inside) = begins_inside next more hs.0 in
    scan_chars-append first (slash ∷ join_segments next more) h.1
    ∙ slash_between (join_segments next more) c rest same inside
        (scan_chars-join_segments next more hs.0 hs.1)

scan_segments-join_segments :
    (first : List ℕ) (more : List (List ℕ))
    → IsSegment first
    → All IsSegment more
    → scan_segments [] (join_segments first more) ≡ true
unfolding join_segments scan_segments
scan_segments-join_segments first [] h hs =
    ap (scan_segments []) (sym (append-nil first))
    ∙ scan_segments-append [] first [] h.1
    ∙ ground (arith, is_dots_lem first h.2 h.3)
scan_segments-join_segments first (next ∷ more) h hs =
    scan_segments-append [] first (slash ∷ join_segments next more) h.1
    ∙ ground (arith, is_dots_lem first h.2 h.3, scan_segments-join_segments next more hs.0 hs.1)

-- Every path made of safe segments with single slashes between them is accepted by
-- fr_path_validate_rel.
pub path_validate_rel-join_segments :
    (first : List ℕ) (more : List (List ℕ))
    → IsSegment first
    → All IsSegment more
    → path_validate_rel (join_segments first more) ≡ fr_ok
unfolding path_validate_rel starts_at_root is_ident_component_char
path_validate_rel-join_segments first more h hs =
    let (c, rest, same, inside) = begins_inside first more h in
    ground (
      arith,
      same,
      inside,
      scan_chars-join_segments first more h hs,
      scan_segments-join_segments first more h hs,
    )
