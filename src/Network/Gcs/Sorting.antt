-- ===== src/Network/Gcs/Sorting.antt =====
-- What sorting keeps, and the order it makes.
use go_bitcoin.Base.{ℕ, suc, ◌≤◌, ◌<◌, List, [], ◌∷◌, leb, length, All, Bool-cases, ◌⊎◌, inl, inr}
use go_bitcoin.Base.{◌≡◌, refl, ap, ◌∙◌, arith}
use go_bitcoin.Base.Membership.{Has}
use go_bitcoin.Network.Gcs.{insert, sort}

-- Every number is at least the one before it, the first one at least the number given.
abbrev pub IsAscending : ℕ → List ℕ → Type 0
IsAscending last [] = Unit
IsAscending last (x ∷ xs) = (last ≤ x) × IsAscending x xs

pub Has-IsAscending : (last t : ℕ) (xs : List ℕ) → IsAscending last xs → Has t xs → last ≤ t
Has-IsAscending last t [] a h = absurd h
Has-IsAscending last t (x ∷ xs) (le, a) (inl e) = omega arith
Has-IsAscending last t (x ∷ xs) (le, a) (inr h) = omega (arith, Has-IsAscending x t xs a h)

insert-IsAscending :
    (last x : ℕ) (ys : List ℕ) → last ≤ x → IsAscending last ys → IsAscending last (insert x ys)
unfolding insert
insert-IsAscending last x [] le a = (le, tt)
insert-IsAscending last x (y ∷ ys) le (le', a) = elim (Bool-cases (leb x y)) [
  | inl e ↦ rw e (le, (ground arith, a))
  | inr e ↦ rw e (le', insert-IsAscending y x ys (ground arith) a)
]

insert-Has : (t x : ℕ) (ys : List ℕ) → (x ≡ t) ⊎ Has t ys → Has t (insert x ys)
unfolding insert
insert-Has t x [] h = h
insert-Has t x (y ∷ ys) (inl e) = elim (Bool-cases (leb x y)) [
  | inl b ↦ rw b (inl e)
  | inr b ↦ rw b (inr (insert-Has t x ys (inl e)))
]
insert-Has t x (y ∷ ys) (inr (inl e)) = elim (Bool-cases (leb x y)) [
  | inl b ↦ rw b (inr (inl e))
  | inr b ↦ rw b (inl e)
]
insert-Has t x (y ∷ ys) (inr (inr h)) = elim (Bool-cases (leb x y)) [
  | inl b ↦ rw b (inr (inr h))
  | inr b ↦ rw b (inr (insert-Has t x ys (inr h)))
]

insert-All : (m x : ℕ) (ys : List ℕ) → x < m → All (λ y. y < m) ys → All (λ y. y < m) (insert x ys)
unfolding insert
insert-All m x [] h hs = (h, tt)
insert-All m x (y ∷ ys) h (hy, hs) = elim (Bool-cases (leb x y)) [
  | inl e ↦ rw e (h, (hy, hs))
  | inr e ↦ rw e (hy, insert-All m x ys h hs)
]

length-insert : (x : ℕ) (ys : List ℕ) → length (insert x ys) ≡ suc (length ys)
unfolding insert
length-insert x [] = refl
length-insert x (y ∷ ys) = elim (Bool-cases (leb x y)) [
  | inl e ↦ rw e refl
  | inr e ↦ rw e (ap suc (length-insert x ys))
]

pub sort-IsAscending : (xs : List ℕ) → IsAscending 0 (sort xs)
unfolding sort
sort-IsAscending [] = tt
sort-IsAscending (x ∷ xs) = insert-IsAscending 0 x (sort xs) (omega arith) (sort-IsAscending xs)

pub sort-Has : (t : ℕ) (xs : List ℕ) → Has t xs → Has t (sort xs)
unfolding sort
sort-Has t [] h = h
sort-Has t (x ∷ xs) (inl e) = insert-Has t x (sort xs) (inl e)
sort-Has t (x ∷ xs) (inr h) = insert-Has t x (sort xs) (inr (sort-Has t xs h))

pub sort-All : (m : ℕ) (xs : List ℕ) → All (λ y. y < m) xs → All (λ y. y < m) (sort xs)
unfolding sort
sort-All m [] h = tt
sort-All m (x ∷ xs) (h, hs) = insert-All m x (sort xs) h (sort-All m xs hs)

pub length-sort : (xs : List ℕ) → length (sort xs) ≡ length xs
unfolding sort
length-sort [] = refl
length-sort (x ∷ xs) = length-insert x (sort xs) ∙ ap suc (length-sort xs)
