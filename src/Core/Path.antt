-- ===== src/Core/Path.antt =====
-- src/core_c/fr_path.c: identifiers and relative paths. A C string is the list of its characters before
-- the NUL, and no pointer is NULL here. A path that is stored has its NUL.
use forgerelay.Prelude.{
  Bool, List, Option, [], drop, false, get_or, if◌then◌else◌, length, ltb, none, not, some, take,
  true, ℕ, ◌&&◌, ◌++◌, ◌+◌, ◌-◌, ◌==◌, ◌||◌, ◌∷◌,
}
use forgerelay.Core.Checked.{add_size}
use forgerelay.Core.Hex.{Fill, all_chars, declined, digest_hex_valid, in_range, wrote}
use forgerelay.Core.Status.{Status, code_magnitude, e_arg, e_overflow, e_range, fr_ok}
pub mod Segments
pub mod Chunks
pub mod Join
mod Tests

abbrev pub ident_component_max : ℕ
ident_component_max = 64

abbrev pub ident_version_max : ℕ
ident_version_max = 96

abbrev pub chunk_rel_path_len : ℕ
chunk_rel_path_len = 2 + 1 + 62 + 1

abbrev pub slash : ℕ
slash = 47

abbrev backslash : ℕ
backslash = 92

abbrev dot : ℕ
dot = 46

unfoldable pub is_ident_component_char : ℕ → Bool
is_ident_component_char c =
    in_range 97 122 c || in_range 65 90 c || in_range 48 57 c || c == dot || c == 95 || c == 45

unfoldable pub is_version_extra_char : ℕ → Bool
is_version_extra_char c = c == 43 || c == 95

-- "." or ".."
unfoldable pub is_dots : List ℕ → Bool
is_dots [] = false
is_dots (a ∷ []) = a == dot
is_dots (a ∷ b ∷ []) = a == dot && b == dot
is_dots (a ∷ b ∷ c ∷ s) = false

unfoldable pub ident_valid_component : List ℕ → Bool
ident_valid_component s =
    if ltb (length s) 1 || ltb ident_component_max (length s)
    then false
    else all_chars is_ident_component_char s && not (is_dots s)

unfoldable pub ident_valid_version : List ℕ → Bool
unfolding is_version_extra_char
ident_valid_version s =
    if ltb (length s) 1 || ltb ident_version_max (length s)
    then false
    else all_chars (λ c. is_ident_component_char c || is_version_extra_char c) s && not (is_dots s)

pub chunk_rel_path : List ℕ → ℕ → Fill
chunk_rel_path hex_digest out_cap =
    if not (digest_hex_valid hex_digest)
    then declined e_arg
    else if ltb out_cap chunk_rel_path_len
    then declined e_range
    else wrote (
        get_or hex_digest 0 0 ∷ get_or hex_digest 1 0 ∷ slash ∷ take 62 (drop 2 hex_digest)
        ++ 0 ∷ [])

pub is_rel_char : ℕ → Bool
is_rel_char c = is_ident_component_char c || c == slash

-- At the end of the path, or before a slash.
pub at_boundary : List ℕ → Bool
at_boundary [] = true
at_boundary (c ∷ rest) = c == slash

-- The first loop of `fr_path_validate_rel`, from a character on.
pub scan_chars : List ℕ → Bool
scan_chars [] = true
scan_chars (c ∷ rest) = is_rel_char c && (not (c == slash && at_boundary rest) && scan_chars rest)

-- The second loop, with the characters from `start` up to the loop's position.
pub scan_segments : List ℕ → List ℕ → Bool
scan_segments comp [] = not (is_dots comp)
scan_segments comp (c ∷ rest) =
    let later = scan_segments (if c == slash then [] else comp ++ c ∷ []) rest in
    if c == slash then not (is_dots comp) && later else later

starts_at_root : List ℕ → Bool
starts_at_root [] = false
starts_at_root (c ∷ rest) = c == slash || c == backslash

pub path_validate_rel : List ℕ → Status
unfolding starts_at_root
path_validate_rel rel =
    if length rel == 0
    then e_range
    else if starts_at_root rel
    then e_range
    else if not (scan_chars rel)
    then e_range
    else if not (scan_segments [] rel)
    then e_range
    else fr_ok

-- The root without a slash at its end, and whether it is "/".
pub trim_root : List ℕ → List ℕ × Bool
trim_root root =
    if get_or root (length root - 1) 0 == slash
    then (if length root - 1 == 0
        then (take 1 root, true)
        else (take (length root - 1) root, false))
    else (root, false)

and_then : Option ℕ → (ℕ → Option ℕ) → Option ℕ
and_then none f = none
and_then (some n) f = f n

-- The room that the joined path takes, `none` where it overflows a `size_t`.
pub joined_size : ℕ → ℕ → Bool → Option ℕ
unfolding and_then
joined_size root_len rel_len is_root =
    and_then (add_size root_len rel_len) (λ total.
      and_then (add_size total 1) (λ more. if is_root then some more else add_size more 1))

join_fill : List ℕ → Bool → List ℕ → ℕ → Option ℕ → Fill
join_fill base is_root rel out_cap none = declined e_overflow
join_fill base is_root rel out_cap (some total) =
    if ltb out_cap total
    then declined e_range
    else wrote (base ++ ((if is_root then [] else slash ∷ []) ++ (rel ++ 0 ∷ [])))

join_trimmed : List ℕ × Bool → List ℕ → ℕ → Fill
unfolding join_fill
join_trimmed (base, is_root) rel out_cap =
    join_fill base is_root rel out_cap (joined_size (length base) (length rel) is_root)

pub path_join : List ℕ → List ℕ → ℕ → Fill
unfolding trim_root join_trimmed
path_join root rel out_cap =
    if not (code_magnitude (path_validate_rel rel) == 0)
    then declined e_range
    else if length root == 0
    then declined e_range
    else join_trimmed (trim_root root) rel out_cap
