-- ===== src/Base/Membership.antt =====
-- Membership in a list, up to equality.
use mathlib.Core.Path.{◌≡◌}
use mathlib.Core.Logic.{◌⊎◌, inl, inr}
use mathlib.Core.List.{List, [], ◌∷◌, ◌++◌}

abbrev pub Has : {A : Type 0} → A → List A → Type 0
Has t [] = ⊥
Has t (x ∷ xs) = (x ≡ t) ⊎ Has t xs

module _ {A : Type 0} (t : A) where
  pub Has-append_left : (xs ys : List A) → Has t xs → Has t (xs ++ ys)
  Has-append_left [] ys h = absurd h
  Has-append_left (x ∷ xs) ys (inl e) = inl e
  Has-append_left (x ∷ xs) ys (inr h) = inr (Has-append_left xs ys h)

  pub Has-append_right : (xs ys : List A) → Has t ys → Has t (xs ++ ys)
  Has-append_right [] ys h = h
  Has-append_right (x ∷ xs) ys h = inr (Has-append_right xs ys h)

  pub Has-append_cases : (xs ys : List A) → Has t (xs ++ ys) → Has t xs ⊎ Has t ys
  Has-append_cases [] ys h = inr h
  Has-append_cases (x ∷ xs) ys (inl e) = inl (inl e)
  Has-append_cases (x ∷ xs) ys (inr h) = elim (Has-append_cases xs ys h) [
    | inl left ↦ inl (inr left)
    | inr right ↦ inr right
  ]
