-- ===== src/Script/Engine/Arithmetic.antt =====
-- OP_ADD, OP_SUB and OP_MUL as int64 arithmetic on the numbers the two top items stand for.
use go_bitcoin.Base.{ℕ, ◌+◌, ◌-◌, ◌%◌, ◌^◌, ◌<◌, List, ◌∷◌}
use go_bitcoin.Base.{Result, ok, err, panic, out_of_fuel, ◌>>=◌, ◌≡◌, ◌≢◌, ◌↔◌, refl, arith}
use go_bitcoin.Script.Command.{ScriptCommand}
use go_bitcoin.Script.Num.{encode_num, decode_num}
use go_bitcoin.Script.Num.RoundTrip.{decode_num-encode_num, encode_num_panics_iff}
use go_bitcoin.Script.Engine.{ScriptEngine, pop, push_data}
use go_bitcoin.Script.Engine.Opcode.{arithmetic, op_add, op_sub}

module _ (se : ScriptEngine) (top second : ScriptCommand) (below : List ScriptCommand) where
  arithmetic_lem :
      (f : ℕ → ℕ → ℕ)
      → f (decode_num top.bytes) (decode_num second.bytes) < 2 ^ 64
      → f (decode_num top.bytes) (decode_num second.bytes) ≢ 2 ^ 63
      → (d : List ℕ) × (arithmetic f (record se { stack = top ∷ second ∷ below })
          ≡ ok (push_data d (record se { stack = below })))
        × (decode_num d ≡ f (decode_num top.bytes) (decode_num second.bytes))
  unfolding arithmetic pop
  arithmetic_lem f fits ne =
      let w = f (decode_num top.bytes) (decode_num second.bytes) in
      let (d, encoded, decoded) = decode_num-encode_num w fits ne in (d, rw (encoded) refl, decoded)

  arithmetic_panics :
      (f : ℕ → ℕ → ℕ)
      → f (decode_num top.bytes) (decode_num second.bytes) < 2 ^ 64
      → (arithmetic f (record se { stack = top ∷ second ∷ below }) ≡ panic)
        ↔ (f (decode_num top.bytes) (decode_num second.bytes) ≡ 2 ^ 63)
  unfolding arithmetic pop
  arithmetic_panics f fits =
      let w = f (decode_num top.bytes) (decode_num second.bytes) in
      let (to, from) = encode_num_panics_iff w fits in
      ((λ e. to (panic_below (encode_num w) _ e)), (λ e. rw (from e) refl))
    where
      panic_below :
          (r : Result (List ℕ)) (k : List ℕ → ScriptEngine)
          → (r >>= λ d. ok (k d)) ≡ panic
          → r ≡ panic
      panic_below (ok d) k e = cc
      panic_below (err x) k e = cc
      panic_below panic k e = refl
      panic_below out_of_fuel k e = cc

  -- OP_SUB replaces the two top items by an item that stands for the number of the top one less the
  -- number of the one below it, modulo 2^64, unless that difference is -2^63.
  pub op_sub-eq :
      (decode_num top.bytes + 2 ^ 64 - decode_num second.bytes) % 2 ^ 64 ≢ 2 ^ 63
      → (d : List ℕ) × (op_sub (record se { stack = top ∷ second ∷ below })
          ≡ ok (push_data d (record se { stack = below })))
        × (decode_num d ≡ (decode_num top.bytes + 2 ^ 64 - decode_num second.bytes) % 2 ^ 64)
  unfolding op_sub
  op_sub-eq = arithmetic_lem (λ a b. (a + 2 ^ 64 - b) % 2 ^ 64) (ground arith)

  -- OP_ADD on two items panics exactly when the sum of their numbers, modulo 2^64, is -2^63.
  pub op_add_panics_iff :
      (op_add (record se { stack = top ∷ second ∷ below }) ≡ panic)
      ↔ ((decode_num top.bytes + decode_num second.bytes) % 2 ^ 64 ≡ 2 ^ 63)
  unfolding op_add
  op_add_panics_iff = arithmetic_panics (λ a b. (a + b) % 2 ^ 64) (ground arith)
