-- ===== src/Transactions/Run.antt =====
-- Methods with a pointer receiver of internal/transactions/transaction.go that fill the caches of their
-- transaction: each gives its result, an error included, and the transaction it leaves.
use go_bitcoin.Base.{Result, ok, err, panic, out_of_fuel}
use go_bitcoin.Transactions.Transaction.{Transaction}

abbrev pub Run {ℓ} : Type ℓ → Type ℓ
Run A = Transaction → Result A × Transaction

abbrev pub after {ℓ κ} :
    {A : Type ℓ} {B : Type κ} → (A → Run B) → Result A × Transaction → Result B × Transaction
after k (ok a, t) = k a t
after k (err e, t) = (err e, t)
after k (panic, t) = (panic, t)
after k (out_of_fuel, t) = (out_of_fuel, t)

infixl 5 ◌>>=◌
abbrev pub ◌>>=◌ {ℓ κ} : {A : Type ℓ} {B : Type κ} → Run A → (A → Run B) → Run B
(m >>= k) t = after k (m t)

abbrev pub pure {ℓ} : {A : Type ℓ} → A → Run A
pure a t = (ok a, t)

-- A step that reads the transaction and leaves it as it is
abbrev pub ask {ℓ} : {A : Type ℓ} → (Transaction → Result A) → Run A
ask f t = (f t, t)
