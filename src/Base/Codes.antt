-- ===== src/Base/Codes.antt =====
-- Loops that read and write a counted sequence, and what a reader and a writer owe each other.
use Prim.Native.Nat.{ℕ, zero, suc, ◌*◌, ◌^◌, ◌≤◌}
use mathlib.Core.Path.{◌≡◌, refl}
use mathlib.Core.List.{List, [], ◌∷◌, ◌++◌, append_assoc}
use native.Mathlib.Omega.{arith}
use go_bitcoin.Base.Tests.{ltb, if◌then◌else◌}
use go_bitcoin.Base.Lists.{length, length-append, All}
use go_bitcoin.Base.Results.{Result, ok, panic, ◌>>=◌}

-- `make` with room for `n` items of `size` bytes: the 64-bit run time panics above 2^48 bytes.
unfoldable pub make : ℕ → ℕ → Result (Unit {0})
make size n = if ltb (2 ^ 48) (size * n) then panic else ok tt

pub make-ok : (size n : ℕ) → size * n ≤ 2 ^ 48 → make size n ≡ ok tt
unfolding make
make-ok size n h = ground arith

infixl 5 ◌>>◌
abbrev pub ◌>>◌ {ℓ} : {B : Type ℓ} → Result (Unit {0}) → Result B → Result B
m >> k = m >>= λ _. k

module _ {ℓ} {A : Type ℓ} where
  -- `for i := 0; i < n; i++` over a reader
  unfoldable pub parse_many : (List ℕ → Result (A × List ℕ)) → ℕ → List ℕ → Result (List A × List ℕ)
  parse_many parse zero bs = ok ([], bs)
  parse_many parse (suc n) bs = do
    (x, rest) ← parse bs
    (xs, rest') ← parse_many parse n rest
    ok (x ∷ xs, rest')

  -- Items written one behind the other
  unfoldable pub write_many : (A → Result (List ℕ)) → List A → Result (List ℕ)
  write_many write [] = ok []
  write_many write (x ∷ xs) = do bs ← write x; more ← write_many write xs; ok (bs ++ more)

  -- The item is written, and read back in front of anything that has `least` bytes.
  abbrev pub CodesBefore : ℕ → (List ℕ → Result (A × List ℕ)) → Result (List ℕ) → A → Type ℓ
  CodesBefore least parse written x =
      (bs : List ℕ) × (written ≡ ok bs)
      × ((rest : List ℕ) → least ≤ length rest → parse (bs ++ rest) ≡ ok (x, rest))

  -- The item is written, and read back in front of anything.
  abbrev pub Codes : (List ℕ → Result (A × List ℕ)) → Result (List ℕ) → A → Type ℓ
  Codes parse written x =
      (bs : List ℕ) × (written ≡ ok bs) × ((rest : List ℕ) → parse (bs ++ rest) ≡ ok (x, rest))

module _ {ℓ} {A : Type ℓ} where
  pub Codes-many :
      (least : ℕ) (parse : List ℕ → Result (A × List ℕ)) (write : A → Result (List ℕ)) (xs : List A)
      → All (λ x. CodesBefore least parse (write x) x) xs
      → CodesBefore least (parse_many parse (length xs)) (write_many write xs) xs
  unfolding parse_many write_many
  Codes-many least parse write [] h = ([], refl, λ rest k. refl)
  Codes-many least parse write (x ∷ xs) ((bs, written, read), hs) =
      let (more, written', read') = Codes-many least parse write xs hs in
      (
        bs ++ more,
        rw (written, written') refl,
        (λ rest k.
            let enough : least ≤ length (more ++ rest) = omega (arith, length-append more rest) in
            rw (append_assoc, read (more ++ rest) enough, read' rest k) refl),
      )
