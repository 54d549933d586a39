-- ===== src/Script/Engine/Fuel.antt =====
-- More fuel does not change an answer of the engine.
use go_bitcoin.Base.{ℕ, zero, suc, ◌≤◌, Bool, List, ltb, length, drop}
use go_bitcoin.Base.{Result, ok, err, panic, out_of_fuel, ◌>>=◌, ◌≡◌, ◌≢◌, refl, arith}
use go_bitcoin.Base.{Bool-cases, inl, inr}
use go_bitcoin.Script.Command.{Script}
use go_bitcoin.Script.Engine.{ScriptEngine, new_script_engine}
use go_bitcoin.Script.Engine.CheckSig.{Crypto}
use go_bitcoin.Script.Engine.Execute.{step_from, execute_loop, evaluate, as_bool}
use go_bitcoin.Script.Engine.Execute.{verify_final_stack, execute}

-- Two continuations that agree wherever the first does not run out of fuel.
bind-agree :
    (r : Result ScriptEngine) (k l : ScriptEngine → Result ScriptEngine)
    → ((se : ScriptEngine) → k se ≢ out_of_fuel → l se ≡ k se)
    → (r >>= k) ≢ out_of_fuel
    → (r >>= l) ≡ (r >>= k)
bind-agree (ok se) k l agree ne = agree se ne
bind-agree (err e) k l agree ne = refl
bind-agree panic k l agree ne = refl
bind-agree out_of_fuel k l agree ne = refl

answered :
    (r : Result ScriptEngine) {b : Bool}
    → as_bool (r >>= λ se. ok (verify_final_stack se)) ≡ ok b
    → r ≢ out_of_fuel
answered r e out = cc (e, out)

module _ (c : Crypto) where
  execute_loop-more_fuel :
      (f g : ℕ) (se : ScriptEngine)
      → f ≤ g
      → execute_loop c f se ≢ out_of_fuel
      → execute_loop c g se ≡ execute_loop c f se
  unfolding execute_loop
  execute_loop-more_fuel zero g se h ne = absurd (ne refl)
  execute_loop-more_fuel (suc f) zero se h ne = absurd (omega arith)
  execute_loop-more_fuel (suc f) (suc g) se h ne =
      elim (Bool-cases (ltb se.pc (length se.commands))) [
        | inr done ↦ rw done
        | inl more ↦ rw more (
            bind-agree (step_from c (drop se.pc se.commands) se) (execute_loop c f)
              (execute_loop c g) (λ t. execute_loop-more_fuel f g t (omega arith)) (rw more at ne))
      ]

  pub execute-more_fuel :
      (f g : ℕ) (z : List ℕ) (se : ScriptEngine) {b : Bool}
      → f ≤ g
      → execute c f z se ≡ ok b
      → execute c g z se ≡ ok b
  unfolding execute
  execute-more_fuel f g z se h e =
      let start = record se { z = z } in
      rw (execute_loop-more_fuel f g start h (answered (execute_loop c f start) e)) e

  -- Once the engine has answered, it gives the same answer on any greater fuel.
  pub evaluate-more_fuel :
      (f g : ℕ) (s : Script) (z : List ℕ) {b : Bool}
      → f ≤ g
      → evaluate c f s z ≡ ok b
      → evaluate c g s z ≡ ok b
  unfolding evaluate
  evaluate-more_fuel f g s z h e = execute-more_fuel f g z (new_script_engine s) h e
