-- ===== src/Block/FullBlock/Sorting.antt =====
-- The order of the filter items, and what sorting and the removal of duplicates keep.
use go_bitcoin.Base.{
  ℕ, true, false, ◌==◌, List, [], ◌∷◌, bytes_equal, bytes_equal_self, bytes_equal→eq,
}
use go_bitcoin.Base.{Bool-cases, ◌⊎◌, inl, inr, ◌≡◌, refl, sym, ap, ap₂, subst, ◌∙◌, arith}
use go_bitcoin.Base.Membership.{Has}
use go_bitcoin.Block.FullBlock.{is_seen, unique, less, insert_item, sort_items}

-- Each item is less than the next one.
abbrev pub After : List ℕ → List (List ℕ) → Type 0
After x [] = Unit
After x (y ∷ ys) = (less x y ≡ true) × After y ys

abbrev pub IsAscending : List (List ℕ) → Type 0
IsAscending [] = Unit
IsAscending (x ∷ xs) = After x xs

abbrev pub Distinct : List (List ℕ) → Type 0
Distinct [] = Unit
Distinct (x ∷ xs) = ¬ (Has x xs) × Distinct xs

less_total : (x y : List ℕ) → less y x ≡ false → (x ≡ y) ⊎ (less x y ≡ true)
unfolding less
less_total [] [] h = inl refl
less_total [] (c ∷ cs) h = inr refl
less_total (b ∷ bs) [] h = absurd (ground arith)
less_total (b ∷ bs) (c ∷ cs) h = elim (Bool-cases (b == c)) [
  | inl same ↦
      let e : b ≡ c = ground arith in
      elim (less_total bs cs (ground arith)) [
        | inl rest ↦ inl (ap₂ (λ x xs. x ∷ xs) e rest)
        | inr lower ↦ inr (ground arith)
      ]
  | inr other ↦ inr (ground arith)
]

insert_item-After :
    (z x : List ℕ) (ys : List (List ℕ))
    → less z x ≡ true
    → After z ys
    → ¬ (Has x ys)
    → After z (insert_item x ys)
unfolding insert_item
insert_item-After z x [] h a new = (h, tt)
insert_item-After z x (y ∷ ys) h (zy, a) new = elim (Bool-cases (less y x)) [
  | inl below ↦ rw below (zy, insert_item-After y x ys below a (λ k. new (inr k)))
  | inr above ↦ rw above (elim (less_total x y above) [
    | inl same ↦ absurd (new (inl (sym same)))
    | inr xy ↦ (h, (xy, a))
  ])
]

insert_item-IsAscending :
    (x : List ℕ) (ys : List (List ℕ))
    → IsAscending ys
    → ¬ (Has x ys)
    → IsAscending (insert_item x ys)
unfolding insert_item
insert_item-IsAscending x [] a new = tt
insert_item-IsAscending x (y ∷ ys) a new = elim (Bool-cases (less y x)) [
  | inl below ↦ rw below (insert_item-After y x ys below a (λ k. new (inr k)))
  | inr above ↦
      rw above (elim (less_total x y above) [
        | inl same ↦ absurd (new (inl (sym same)))
        | inr xy ↦ (xy, a)
      ])
]

Has-insert_item :
    (t x : List ℕ) (ys : List (List ℕ)) → (x ≡ t) ⊎ Has t ys → Has t (insert_item x ys)
unfolding insert_item
Has-insert_item t x [] h = h
Has-insert_item t x (y ∷ ys) h = elim (Bool-cases (less y x)) [
  | inl below ↦ rw below (elim h [
    | inl e ↦ inr (Has-insert_item t x ys (inl e))
    | inr k ↦ elim k [ inl e ↦ inl e | inr m ↦ inr (Has-insert_item t x ys (inr m)) ]
  ])
  | inr above ↦ rw above h
]

insert_item_cases :
    (t x : List ℕ) (ys : List (List ℕ)) → Has t (insert_item x ys) → (x ≡ t) ⊎ Has t ys
unfolding insert_item
insert_item_cases t x [] = λ h. h
insert_item_cases t x (y ∷ ys) = elim (Bool-cases (less y x)) [
  | inl below ↦ rw below (λ h. elim h [
    | inl e ↦ inr (inl e)
    | inr k ↦ elim (insert_item_cases t x ys k) [ inl e ↦ inl e | inr m ↦ inr (inr m) ]
  ])
  | inr above ↦ rw above (λ h. h)
]

pub Has-sort_items : (t : List ℕ) (xs : List (List ℕ)) → Has t xs → Has t (sort_items xs)
unfolding sort_items
Has-sort_items t [] h = h
Has-sort_items t (x ∷ xs) (inl e) = Has-insert_item t x (sort_items xs) (inl e)
Has-sort_items t (x ∷ xs) (inr h) =
    Has-insert_item t x (sort_items xs) (inr (Has-sort_items t xs h))

pub sort_items_keeps : (t : List ℕ) (xs : List (List ℕ)) → Has t (sort_items xs) → Has t xs
unfolding sort_items
sort_items_keeps t [] h = h
sort_items_keeps t (x ∷ xs) h = elim (insert_item_cases t x (sort_items xs) h) [
  | inl e ↦ inl e
  | inr k ↦ inr (sort_items_keeps t xs k)
]

pub sort_items-IsAscending : (xs : List (List ℕ)) → Distinct xs → IsAscending (sort_items xs)
unfolding sort_items
sort_items-IsAscending [] d = tt
sort_items-IsAscending (x ∷ xs) (new, d) =
    insert_item-IsAscending x (sort_items xs) (sort_items-IsAscending xs d)
      (λ h. new (sort_items_keeps x xs h))

is_seen-Has : (t : List ℕ) (xs : List (List ℕ)) → is_seen t xs ≡ true → Has t xs
unfolding is_seen
is_seen-Has t [] h = absurd (ground arith)
is_seen-Has t (x ∷ xs) h = elim (Bool-cases (bytes_equal t x)) [
  | inl same ↦ inl (sym (bytes_equal→eq t x same))
  | inr other ↦ inr (is_seen-Has t xs (ground arith))
]

not_seen : (t : List ℕ) (xs : List (List ℕ)) → is_seen t xs ≡ false → ¬ (Has t xs)
unfolding is_seen
not_seen t [] h k = k
not_seen t (x ∷ xs) h (inl e) =
    let same : bytes_equal t x ≡ true = ap (λ y. bytes_equal t y) e ∙ bytes_equal_self t in
    absurd (ground arith)
not_seen t (x ∷ xs) h (inr k) = not_seen t xs (ground arith) k

-- What `unique` keeps was there and was not seen.
unique_sound :
    (t : List ℕ) (xs seen : List (List ℕ)) → Has t (unique seen xs) → ¬ (Has t seen) × Has t xs
unfolding unique
unique_sound t [] seen = λ h. absurd h
unique_sound t (x ∷ xs) seen = elim (Bool-cases (is_seen x seen)) [
  | inl old ↦ rw old (λ h. let (new, k) = unique_sound t xs seen h in (new, inr k))
  | inr fresh ↦ rw fresh (λ h. elim h [
    | inl e ↦ (subst (λ y. ¬ (Has y seen)) e (not_seen x seen fresh), inl e)
    | inr k ↦ let (new, m) = unique_sound t xs (x ∷ seen) k in ((λ s. new (inr s)), inr m)
  ])
]

pub unique_keeps : (t : List ℕ) (xs : List (List ℕ)) → Has t (unique [] xs) → Has t xs
unique_keeps t xs h = (unique_sound t xs [] h).1

pub unique-Distinct : (xs seen : List (List ℕ)) → Distinct (unique seen xs)
unfolding unique
unique-Distinct [] seen = tt
unique-Distinct (x ∷ xs) seen = elim (Bool-cases (is_seen x seen)) [
  | inl old ↦ rw old (unique-Distinct xs seen)
  | inr fresh ↦
      rw fresh ((λ h. (unique_sound x xs (x ∷ seen) h).0 (inl refl)), unique-Distinct xs (x ∷ seen))
]

pub unique_complete :
    (t : List ℕ) (xs seen : List (List ℕ)) → Has t xs → Has t seen ⊎ Has t (unique seen xs)
unfolding unique
unique_complete t [] seen h = absurd h
unique_complete t (x ∷ xs) seen h = elim (Bool-cases (is_seen x seen)) [
  | inl old ↦ rw old (elim h [
    | inl e ↦ inl (subst (λ y. Has y seen) e (is_seen-Has x seen old))
    | inr k ↦ unique_complete t xs seen k
  ])
  | inr fresh ↦ rw fresh (elim h [
    | inl e ↦ inr (inl e)
    | inr k ↦ elim (unique_complete t xs (x ∷ seen) k) [
      | inl s ↦ elim s [ inl e ↦ inr (inl e) | inr m ↦ inl m ]
      | inr m ↦ inr (inr m)
    ]
  ])
]
