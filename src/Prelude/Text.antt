-- ===== src/Prelude/Text.antt =====
-- Texts compared, and the elements of a list tested, found and kept by a Boolean test.
use Prim.Native.Nat.{ℕ}
use mathlib.Core.Path.{◌≡◌, refl}
use mathlib.Core.Logic.{◌⊎◌, inl, inr}
use mathlib.Core.Bool.{Bool, true, false, ◌&&◌, ◌||◌}
use mathlib.Core.Option.{Option, none, some}
use mathlib.Core.List.{List, [], ◌∷◌, ◌++◌}
use native.Mathlib.Omega.{arith}
use forgerelay.Prelude.Tests.{◌==◌, ==_iff, if◌then◌else◌, Bool-cases}
use forgerelay.Prelude.Lists.{All, All-map}

unfoldable pub same_text : List ℕ → List ℕ → Bool
same_text [] [] = true
same_text [] (y ∷ ys) = false
same_text (x ∷ xs) [] = false
same_text (x ∷ xs) (y ∷ ys) = x == y && same_text xs ys

-- The C string of a text, `std::string::c_str`: it ends before the first NUL.
unfoldable pub c_str : List ℕ → List ℕ
c_str [] = []
c_str (x ∷ s) = let rest = c_str s in if x == 0 then [] else x ∷ rest

pub same_text_refl : (s : List ℕ) → same_text s s ≡ true
unfolding same_text
same_text_refl [] = refl
same_text_refl (x ∷ s) = ground (arith, same_text_refl s)

pub same_text→≡ : (s t : List ℕ) → same_text s t ≡ true → s ≡ t
unfolding same_text
same_text→≡ [] [] h = refl
same_text→≡ [] (y ∷ t) h = cc h
same_text→≡ (x ∷ s) [] h = cc h
same_text→≡ (x ∷ s) (y ∷ t) h =
    let first : x ≡ y = (==_iff x y).0 (ground (arith, h)) in
    let rest : s ≡ t = same_text→≡ s t (ground (arith, h)) in cc (first, rest)

module _ {ℓ} {A : Type ℓ} where
  pub Option-cases : (o : Option A) → (o ≡ none) ⊎ (x : A) × (o ≡ some x)
  Option-cases none = inl refl
  Option-cases (some x) = inr (x, refl)

  abbrev pub any : (A → Bool) → List A → Bool
  any f [] = false
  any f (x ∷ xs) = f x || any f xs

  -- The elements that pass the test, in their order.
  abbrev pub keep : (A → Bool) → List A → List A
  keep f [] = []
  keep f (x ∷ xs) = let rest = keep f xs in if f x then x ∷ rest else rest

  -- The first element that passes the test.
  abbrev pub find : (A → Bool) → List A → Option A
  find f [] = none
  find f (x ∷ xs) = if f x then some x else find f xs

  pub any-append : (f : A → Bool) (xs ys : List A) → any f (xs ++ ys) ≡ any f xs || any f ys
  any-append f [] ys = refl
  any-append f (x ∷ xs) ys = ground (arith, any-append f xs ys)

  -- What implies a test goes from one list to the other.
  pub any_mono :
      (f g : A → Bool) (xs : List A)
      → ((x : A) → f x ≡ true → g x ≡ true)
      → any f xs ≡ true
      → any g xs ≡ true
  any_mono f g [] imp h = h
  any_mono f g (x ∷ xs) imp h = ground (arith, h, imp x, any_mono f g xs imp)

  pub All-of {κ} : {P : A → Type κ} → ((x : A) → P x) → (xs : List A) → All P xs
  All-of h [] = tt
  All-of h (x ∷ xs) = (h x, All-of h xs)

  pub All-keep {κ} : (P : A → Type κ) (f : A → Bool) (xs : List A) → All P xs → All P (keep f xs)
  All-keep P f [] h = tt
  All-keep P f (x ∷ xs) h = elim (Bool-cases (f x)) [
    | inl kept ↦ rw kept (h.0, All-keep P f xs h.1)
    | inr gone ↦ rw gone (All-keep P f xs h.1)
  ]

  pub All-both {κ μ} :
      (P : A → Type κ) (Q : A → Type μ) (xs : List A)
      → All P xs
      → All Q xs
      → All (λ x. P x × Q x) xs
  All-both P Q [] p q = tt
  All-both P Q (x ∷ xs) p q = ((p.0, q.0), All-both P Q xs p.1 q.1)

  -- Each element of a list is found in it.
  pub All-self : (xs : List A) → All (λ x. (f : A → Bool) → f x ≡ true → any f xs ≡ true) xs
  All-self [] = tt
  All-self (x ∷ xs) = (
    λ f h. ground (arith, h),
    All-map _ _ xs (λ y later f h. let there = later f h in ground (arith, there)) (All-self xs),
  )

  -- An implication that needs hold only of the elements of the list.
  pub any-All :
      (f g : A → Bool) (xs : List A)
      → All (λ x. f x ≡ true → g x ≡ true) xs
      → any f xs ≡ true
      → any g xs ≡ true
  any-All f g [] imp h = h
  any-All f g (x ∷ xs) imp h = ground (arith, h, imp.0, any-All f g xs imp.1)

  pub find-any :
      (f : A → Bool) (xs : List A) (x : A) → find f xs ≡ some x → (f x ≡ true) × (any f xs ≡ true)
  find-any f [] x h = cc h
  find-any f (y ∷ xs) x h = grind (arith, h, find-any f xs x)

  pub find-append :
      (f : A → Bool) (xs ys : List A) (x : A) → find f xs ≡ some x → find f (xs ++ ys) ≡ some x
  find-append f [] ys x h = cc h
  find-append f (z ∷ xs) ys x h = grind (arith, h, find-append f xs ys x)
