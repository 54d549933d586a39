-- ===== src/Base/Slices.antt =====
-- Reads and writes of a slice by index: outside of it a Go program panics.
use Prim.Native.Nat.{ℕ, zero, suc, ◌<◌}
use mathlib.Core.Path.{◌≡◌, refl, ap}
use mathlib.Core.Option.{some}
use mathlib.Core.List.{List, [], ◌∷◌}
use native.Mathlib.Omega.{arith}
use go_bitcoin.Base.Lists.{length, get_elem?}
use go_bitcoin.Base.Results.{Result, ok, panic, ◌>>=◌}

module _ {ℓ} {A : Type ℓ} where
  unfoldable pub read_index : List A → ℕ → Result A
  read_index [] i = panic
  read_index (x ∷ xs) zero = ok x
  read_index (x ∷ xs) (suc i) = read_index xs i

  unfoldable pub write_index : List A → ℕ → A → Result (List A)
  write_index [] i v = panic
  write_index (x ∷ xs) zero v = ok (v ∷ xs)
  write_index (x ∷ xs) (suc i) v = do xs' ← write_index xs i v; ok (x ∷ xs')

  -- A write out of bounds changes nothing.
  abbrev pub set : List A → ℕ → A → List A
  set [] i v = []
  set (x ∷ xs) zero v = v ∷ xs
  set (x ∷ xs) (suc i) v = x ∷ set xs i v

  pub read_index-ok :
      (xs : List A) (i : ℕ) {x : A} → get_elem? xs i ≡ some x → read_index xs i ≡ ok x
  unfolding read_index
  read_index-ok [] i e = cc
  read_index-ok (x ∷ xs) zero e = cc
  read_index-ok (x ∷ xs) (suc i) e = read_index-ok xs i e

  pub write_index-ok :
      (xs : List A) (i : ℕ) (v : A) → i < length xs → write_index xs i v ≡ ok (set xs i v)
  unfolding write_index
  write_index-ok [] i v h = absurd (omega arith)
  write_index-ok (x ∷ xs) zero v h = refl
  write_index-ok (x ∷ xs) (suc i) v h = rw (write_index-ok xs i v (omega arith)) refl

  pub length-set : (xs : List A) (i : ℕ) (v : A) → length (set xs i v) ≡ length xs
  length-set [] i v = refl
  length-set (x ∷ xs) zero v = refl
  length-set (x ∷ xs) (suc i) v = omega (arith, length-set xs i v)

  pub get_elem?-set_self :
      (xs : List A) (i : ℕ) (v : A) → i < length xs → get_elem? (set xs i v) i ≡ some v
  get_elem?-set_self [] i v h = absurd (omega arith)
  get_elem?-set_self (x ∷ xs) zero v h = refl
  get_elem?-set_self (x ∷ xs) (suc i) v h = get_elem?-set_self xs i v (omega arith)

  pub get_elem?-set_other :
      (xs : List A) (i j : ℕ) (v : A) → (i ≡ j → ⊥) → get_elem? (set xs i v) j ≡ get_elem? xs j
  get_elem?-set_other [] i j v h = refl
  get_elem?-set_other (x ∷ xs) zero zero v h = absurd (h refl)
  get_elem?-set_other (x ∷ xs) zero (suc j) v h = refl
  get_elem?-set_other (x ∷ xs) (suc i) zero v h = refl
  get_elem?-set_other (x ∷ xs) (suc i) (suc j) v h =
      get_elem?-set_other xs i j v (λ e. h (ap suc e))

  pub get_elem?-lt : (xs : List A) (i : ℕ) → i < length xs → (x : A) × (get_elem? xs i ≡ some x)
  get_elem?-lt [] i h = absurd (omega arith)
  get_elem?-lt (x ∷ xs) zero h = (x, refl)
  get_elem?-lt (x ∷ xs) (suc i) h = get_elem?-lt xs i (omega arith)
