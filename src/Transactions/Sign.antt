-- ===== src/Transactions/Sign.antt =====
-- SignInput and SignInputs of internal/transactions/transaction.go.
pub mod Verified
pub mod Valid
use go_bitcoin.Base.{ℕ, zero, suc, Bool, List, [], ◌∷◌, ◌++◌, Result, ok, panic}
use go_bitcoin.Base.Bytes.{le_encode}
use go_bitcoin.Encoding.Hash.{Hashes}
use go_bitcoin.Eccmath.Signature.{Signature}
use go_bitcoin.Eccmath.Signature
use go_bitcoin.Script.Command.{Script, data_command}
use go_bitcoin.Transactions.TxIn.{TxIn}
use go_bitcoin.Transactions.Transaction.{Transaction}
use go_bitcoin.Transactions.Fetch.{Explorer}
use go_bitcoin.Transactions.SigHash.{sig_hash, sighash_all}
use go_bitcoin.Transactions.Run.{Run, pure, ask, ◌>>=◌}

-- What signing takes of internal/keys: SignHash, and the public key in the compressed or the other form.
pub record PrivateKey : Type 0 where
  pub sign_hash : List ℕ → Result Signature
  pub public_key : Bool → List ℕ

unfoldable pub set_script_sig : ℕ → Script → List TxIn → List TxIn
set_script_sig i s [] = []
set_script_sig zero s (t ∷ ts) = record t { script_sig = s } ∷ ts
set_script_sig (suc i) s (t ∷ ts) = t ∷ set_script_sig i s ts

-- The whole four bytes of the hash type go behind the signature.
unfoldable pub key_script_sig : Signature → List ℕ → Script
key_script_sig sig sec_pub_key =
    data_command (Signature.serialize sig ++ le_encode 4 sighash_all)
    ∷ data_command sec_pub_key
    ∷ []

module _ (h : Hashes) (explorer : Explorer) (key : PrivateKey) (compressed : Bool) where
  unfoldable pub sign_input : ℕ → Run (Unit {0})
  unfolding set_script_sig key_script_sig
  sign_input i = do
    z ← ask λ t. sig_hash h explorer t i
    sig ← ask λ t. key.sign_hash z
    λ t. (
      ok tt,
      record t {
        inputs = set_script_sig i (key_script_sig sig (key.public_key compressed)) t.inputs;
      },
    )

  unfoldable pub sign_from : ℕ → List TxIn → Run (Unit {0})
  unfolding sign_input
  sign_from i [] = pure tt
  sign_from i (t ∷ ts) = do signed ← sign_input i; sign_from (suc i) ts

  -- The range is over the inputs as they are at its start.
  unfoldable pub sign_inputs : Run (Unit {0})
  unfolding sign_from
  sign_inputs = do inputs ← ask λ t. ok t.inputs; sign_from 0 inputs
