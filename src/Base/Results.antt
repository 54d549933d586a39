-- ===== src/Base/Results.antt =====
-- What a Go function with an `error` result may do. `panic` is a run-time panic, and
-- `out_of_fuel` is no Go outcome: a loop that is modelled on fuel used it up.
use mathlib.Core.Path.{◌≡◌, refl}

pub data Error : Type 0 where
  eof unexpected_eof short_read bad_length bad_marker invalid_input : Error
  script_failed : Error

pub data Result {ℓ} (A : Type ℓ) : Type ℓ where
  ok : A → Result A
  err : Error → Result A
  panic : Result A
  out_of_fuel : Result A

infixl 5 ◌>>=◌
abbrev pub ◌>>=◌ {ℓ κ} : {A : Type ℓ} {B : Type κ} → Result A → (A → Result B) → Result B
ok a >>= f = f a
err e >>= f = err e
panic >>= f = panic
out_of_fuel >>= f = out_of_fuel

-- A chain that ends in a value had a value at its first step.
module _ {ℓ κ} {A : Type ℓ} {B : Type κ} where
  pub bind_ok_inversion :
      (first : Result A) (next : A → Result B) {final : B}
      → (first >>= next) ≡ ok final
      → (a : A) × (first ≡ ok a) × (next a ≡ ok final)
  bind_ok_inversion panic next e = cc
  bind_ok_inversion out_of_fuel next e = cc
  bind_ok_inversion (err reason) next e = cc
  bind_ok_inversion (ok a) next e = (a, refl, e)

-- A chain whose second step is itself a chain.
pub bind_in_steps {ℓ κ μ} :
    {A : Type ℓ} {B : Type κ} {C : Type μ} (m : Result A) (f : A → Result C) (g : A → Result B)
    (k : B → Result C)
    → ((a : A) → f a ≡ (g a >>= k))
    → (m >>= f) ≡ (m >>= g >>= k)
bind_in_steps (ok a) f g k h = h a
bind_in_steps (err e) f g k h = refl
bind_in_steps panic f g k h = refl
bind_in_steps out_of_fuel f g k h = refl

-- Two chains with the same first step.
pub bind_agree {ℓ κ ν μ} :
    {A : Type ℓ} {B : Type κ} {D : Type ν} {C : Type μ} (m : Result A) (f : A → Result B)
    (k : B → Result C) (g : A → Result D) (l : D → Result C)
    → ((a : A) → (f a >>= k) ≡ (g a >>= l))
    → (m >>= f >>= k) ≡ (m >>= g >>= l)
bind_agree (ok a) f k g l h = h a
bind_agree (err e) f k g l h = refl
bind_agree panic f k g l h = refl
bind_agree out_of_fuel f k g l h = refl

-- A normal return, with a value or with an error: no panic, and the fuel was enough.
abbrev pub Returns {ℓ} : {A : Type ℓ} → Result A → Type 0
Returns (ok a) = Unit
Returns (err e) = Unit
Returns panic = ⊥
Returns out_of_fuel = ⊥

pub Returns-bind {ℓ κ} :
    {A : Type ℓ} {B : Type κ} (m : Result A) (f : A → Result B)
    → Returns m
    → ((a : A) → m ≡ ok a → Returns (f a))
    → Returns (m >>= f)
Returns-bind (ok a) f h k = k a refl
Returns-bind (err e) f h k = tt
Returns-bind panic f h k = absurd h
Returns-bind out_of_fuel f h k = absurd h

-- Partial correctness: a value that is returned has the property.
abbrev pub Ensures {ℓ κ} : {A : Type ℓ} → (A → Type κ) → Result A → Type κ
Ensures P (ok a) = P a
Ensures P (err e) = Unit
Ensures P panic = Unit
Ensures P out_of_fuel = Unit

pub Ensures-bind {ℓ κ μ ν} :
    {A : Type ℓ} {B : Type κ} (P : A → Type μ) (Q : B → Type ν) (m : Result A) (f : A → Result B)
    → Ensures P m
    → ((a : A) → P a → Ensures Q (f a))
    → Ensures Q (m >>= f)
Ensures-bind P Q (ok a) f h k = k a h
Ensures-bind P Q (err e) f h k = tt
Ensures-bind P Q panic f h k = tt
Ensures-bind P Q out_of_fuel f h k = tt

-- The property holds whatever the first step returns.
pub Ensures-later {ℓ κ ν} :
    {A : Type ℓ} {B : Type κ} (Q : B → Type ν) (m : Result A) (f : A → Result B)
    → ((a : A) → Ensures Q (f a))
    → Ensures Q (m >>= f)
Ensures-later Q (ok a) f k = k a
Ensures-later Q (err e) f k = tt
Ensures-later Q panic f k = tt
Ensures-later Q out_of_fuel f k = tt
