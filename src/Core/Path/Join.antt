-- ===== src/Core/Path/Join.antt =====
-- src/core_c/fr_path.c: a joined path stays under its root.
use forgerelay.Prelude.{
  ==_iff, Bool, Bool-cases, List, Option, [], ap, arith, dec_le, false, get_or, if◌then◌else◌, inl,
  inr, length, length-append, ltb, none, refl, some, subst, suc, sym, take, true, zero, ℕ, ◌++◌,
  ◌+◌, ◌-◌, ◌==◌, ◌∙◌, ◌∷◌, ◌≡◌, ◌≢◌, ◌≤◌, ◌⊎◌,
}
use forgerelay.Core.Checked.{size_max}
use forgerelay.Core.Checked.Exact.{add_size_lem}
use forgerelay.Core.Hex.{wrote}
use forgerelay.Core.Path.{
  and_then, join_fill, join_trimmed, joined_size, path_join, path_validate_rel, slash, trim_root,
}
use forgerelay.Core.Path.Segments.{IsSafe, path_validate_rel-IsSafe}
use forgerelay.Core.Status.{code_magnitude, fr_ok}
use forgerelay.Core.Status.Laws.{code_magnitude-injective}

joined_size_lem :
    (m n t : ℕ) (is_root : Bool)
    → joined_size m n is_root ≡ some t
    → t ≡ m + n + (if is_root then 1 else 2)
unfolding joined_size and_then
joined_size_lem m n t is_root h = elim (dec_le (m + n + 2) size_max) [
  | yes room ↦
      ground (arith, h, add_size_lem m n, add_size_lem (m + n) 1, add_size_lem (m + n + 1) 1)
  | no full ↦
      ground (arith, h, add_size_lem m n, add_size_lem (m + n) 1, add_size_lem (m + n + 1) 1)
]

-- What the root becomes: "/" itself, the root without the slash at its end, or the root.
data IsTrim (root : List ℕ) : List ℕ × Bool → Type 0 where
  fs_root : root ≡ slash ∷ [] → IsTrim root (slash ∷ [], true)
  trimmed : (base : List ℕ) → base ++ slash ∷ [] ≡ root → IsTrim root (base, false)
  whole : ((base : List ℕ) → base ++ slash ∷ [] ≢ root) → IsTrim root (root, false)

last_part :
    (n x : ℕ) (xs : List ℕ) → length xs ≡ n → take n (x ∷ xs) ++ get_or (x ∷ xs) n 0 ∷ [] ≡ x ∷ xs
last_part zero x [] e = refl
last_part zero x (y ∷ ys) e = absurd (omega (arith, e))
last_part (suc n) x [] e = absurd (omega (arith, e))
last_part (suc n) x (y ∷ ys) e = ap (λ (l : List ℕ). x ∷ l) (last_part n y ys (omega (arith, e)))

get_or-last : (l : List ℕ) (c : ℕ) → get_or (l ++ c ∷ []) (length l) 0 ≡ c
get_or-last [] c = refl
get_or-last (x ∷ l) c = get_or-last l c

-- A text whose last character is no slash does not end in one.
no_slash :
    (x : ℕ) (xs : List ℕ)
    → (get_or (x ∷ xs) (length xs) 0 == slash) ≡ false
    → (l : List ℕ) → l ++ slash ∷ [] ≢ x ∷ xs
no_slash x xs last l e =
    let size : length l ≡ length xs = omega (arith, ap length e, length-append l (slash ∷ [])) in
    let ends : get_or (x ∷ xs) (length xs) 0 ≡ slash =
      subst (λ n. get_or (x ∷ xs) n 0 ≡ slash) size
        (subst (λ t. get_or t (length l) 0 ≡ slash) e (get_or-last l slash)) in
    absurd (ground (arith, last, ends))

trim_root-IsTrim : (x : ℕ) (xs : List ℕ) → IsTrim (x ∷ xs) (trim_root (x ∷ xs))
unfolding trim_root
trim_root-IsTrim x xs =
    let size : length (x ∷ xs) - 1 ≡ length xs = omega arith in
    rw size (elim (Bool-cases (get_or (x ∷ xs) (length xs) 0 == slash)) [
      | inr e ↦ rw e (whole (no_slash x xs e))
      | inl e ↦ rw e (trim_slash x xs ((==_iff _ _).0 e))
    ])
  where
    trim_slash :
        (x : ℕ) (xs : List ℕ)
        → get_or (x ∷ xs) (length xs) 0 ≡ slash
        → IsTrim
            (x ∷ xs)
            (if length xs == 0 then (take 1 (x ∷ xs), true) else (take (length xs) (x ∷ xs), false))
    trim_slash x [] e = rw e (fs_root refl)
    trim_slash x (y ∷ ys) e =
        let more : (length (y ∷ ys) == 0) ≡ false = ground arith in
        rw more (
          trimmed _ (
            ap (λ c. take (length (y ∷ ys)) (x ∷ y ∷ ys) ++ c ∷ []) (sym e)
            ∙ last_part (length (y ∷ ys)) x (y ∷ ys) refl))

-- A joined path: it fits the buffer, and is the root, without its slash if it ends in one, a slash and a
-- safe path.
abbrev pub IsInside : List ℕ → List ℕ → ℕ → List ℕ → Type 0
IsInside root rel out_cap out =
    IsSafe rel
    × (length out ≤ out_cap)
    × ((base : List ℕ) × (out ≡ base ++ slash ∷ (rel ++ 0 ∷ []))
        × (((base ≡ root) × ((l : List ℕ) → l ++ slash ∷ [] ≢ root)) ⊎ (base ++ slash ∷ [] ≡ root)))

abbrev separator : Bool → List ℕ
separator is_root = if is_root then [] else slash ∷ []

length-joined :
    (base rel : List ℕ) (is_root : Bool)
    → length (base ++ (separator is_root ++ (rel ++ 0 ∷ [])))
      ≡ length base + length rel + (if is_root then 1 else 2)
length-joined base rel true =
    omega (arith, length-append base (rel ++ 0 ∷ []), length-append rel (0 ∷ []))
length-joined base rel false =
    omega (arith, length-append base (slash ∷ (rel ++ 0 ∷ [])), length-append rel (0 ∷ []))

le_of_ltb : (m n : ℕ) → ltb m n ≡ false → n ≤ m
le_of_ltb m n h = ground arith

join_fill_lem :
    (base rel : List ℕ) (is_root : Bool) (out_cap : ℕ) (size : Option ℕ) (out : List ℕ)
    → ((t : ℕ) → size ≡ some t → t ≡ length base + length rel + (if is_root then 1 else 2))
    → join_fill base is_root rel out_cap size ≡ wrote out
    → (out ≡ base ++ (separator is_root ++ (rel ++ 0 ∷ []))) × (length out ≤ out_cap)
unfolding join_fill
join_fill_lem base rel is_root out_cap none out sized h = absurd (cc h)
join_fill_lem base rel is_root out_cap (some t) out sized h = elim (Bool-cases (ltb out_cap t)) [
  | inl big ↦ absurd (cc (rw big at h))
  | inr fits ↦
      let same : base ++ (separator is_root ++ (rel ++ 0 ∷ [])) ≡ out = cc (rw fits at h) in
      (
        sym same,
        omega (
          arith,
          ap length same,
          length-joined base rel is_root,
          sized t refl,
          le_of_ltb out_cap t fits,
        ),
      )
]

join_trimmed-IsInside :
    (root rel : List ℕ) (t : List ℕ × Bool) (out_cap : ℕ) (out : List ℕ)
    → IsTrim root t
    → IsSafe rel
    → join_trimmed t rel out_cap ≡ wrote out
    → IsInside root rel out_cap out
unfolding join_trimmed
join_trimmed-IsInside root rel t out_cap out (fs_root e) safe h =
    let (same, fits) =
      join_fill_lem (slash ∷ []) rel true out_cap _ out (λ t. joined_size_lem 1 (length rel) t true)
        h in
    (safe, fits, ([], same, inr (sym e)))
join_trimmed-IsInside root rel t out_cap out (trimmed base e) safe h =
    let (same, fits) =
      join_fill_lem base rel false out_cap _ out
        (λ t. joined_size_lem (length base) (length rel) t false) h in
    (safe, fits, (base, same, inr e))
join_trimmed-IsInside root rel t out_cap out (whole no_slash) safe h =
    let (same, fits) =
      join_fill_lem root rel false out_cap _ out
        (λ t. joined_size_lem (length root) (length rel) t false) h in
    (safe, fits, (root, same, inl (refl, no_slash)))

-- What fr_path_join writes fits the buffer, and is the root, less its last slash if it ends in
-- one, a slash, and a path made of safe segments, which is the relative path, with a NUL behind
-- it.
pub path_join-IsInside :
    (root rel : List ℕ) (out_cap : ℕ) (out : List ℕ)
    → path_join root rel out_cap ≡ wrote out
    → IsInside root rel out_cap out
unfolding path_join code_magnitude
path_join-IsInside [] rel out_cap out h = absurd (ground (arith, h))
path_join-IsInside (x ∷ xs) rel out_cap out h =
    elim (Bool-cases (code_magnitude (path_validate_rel rel) == 0)) [
      | inr bad ↦ absurd (cc (rw bad at h))
      | inl good ↦
          let nonempty : (length (x ∷ xs) == 0) ≡ false = ground arith in
          let valid : path_validate_rel rel ≡ fr_ok =
            code_magnitude-injective (path_validate_rel rel) fr_ok ((==_iff _ _).0 good) in
          join_trimmed-IsInside (x ∷ xs) rel (trim_root (x ∷ xs)) out_cap out
            (trim_root-IsTrim x xs) (path_validate_rel-IsSafe rel valid) (rw (good, nonempty) at h)
    ]
