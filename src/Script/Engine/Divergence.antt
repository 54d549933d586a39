-- ===== src/Script/Engine/Divergence.antt =====
-- A witness script on which the loop of Execute goes on for ever.
use go_bitcoin.Base.{ℕ, zero, suc, ◌+◌, true, List, [], ◌∷◌, ◌++◌}
use go_bitcoin.Base.{ltb, length, drop, bytes_equal_self}
use go_bitcoin.Base.{drop-append, length-drop, lt→ltb}
use go_bitcoin.Base.{ok, out_of_fuel, ◌≡◌, refl, ap, arith}
use go_bitcoin.Base.Bytes.{bytes_reader, read_exactly, read_full, le_decode}
use go_bitcoin.Encoding.VarInt.{encode_var_int, read_var_int}
use go_bitcoin.Script.Opcodes
use go_bitcoin.Script.Command.{ScriptCommand, Script, data_command, op_command, p2wsh_script}
use go_bitcoin.Script.Codec.{parse_script, parse_loop, parse_command}
use go_bitcoin.Script.Engine.{ScriptEngine}
use go_bitcoin.Script.Engine.Opcode.{op_dup, op_drop}
use go_bitcoin.Script.Engine.CheckSig.{Crypto}
use go_bitcoin.Script.Engine.Witness.{is_p2sh, inject, p2wsh}
use go_bitcoin.Script.Engine.Execute.{step_from, execute_command, execute_loop}
use go_bitcoin.Script.Engine.Execute.{evaluate_with_context}

pub drop-next {ℓ} :
    {A : Type ℓ} (n : ℕ) (xs : List A) {x : A} {rest : List A}
    → drop n xs ≡ x ∷ rest
    → drop (n + 1) xs ≡ rest
drop-next zero [] e = cc
drop-next zero (x ∷ xs) e = ground arith
drop-next (suc n) [] e = cc
drop-next (suc n) (x ∷ xs) e =
    let step : suc n + 1 ≡ suc (n + 1) = omega arith in rw step (drop-next n xs e)

drop-end {ℓ} : {A : Type ℓ} (n : ℕ) (xs ys : List A) → n ≡ length xs → drop n (xs ++ ys) ≡ ys
drop-end n xs ys e = rw e (drop-append xs ys)

module _ {ℓ} {A : Type ℓ} (n : ℕ) (xs : List A) {x : A} {rest : List A}
    (e : drop n xs ≡ x ∷ rest) where
  pub in_range : ltb n (length xs) ≡ true
  in_range = lt→ltb n (length xs) (omega (arith, length-drop n xs, ap length e))

  length-eq : n + 1 + length rest ≡ length xs
  length-eq = omega (arith, length-drop n xs, ap length e)

-- `OP_DUP OP_DROP`, as bytes and as commands.
abbrev dup_drop : List ℕ
dup_drop = 0x76 ∷ 0x75 ∷ []

abbrev dup_drop_commands : Script
dup_drop_commands = op_command Opcodes.op_dup ∷ op_command Opcodes.op_drop ∷ []

parse-dup_drop : parse_script bytes_reader (0x02 ∷ dup_drop) ≡ ok (dup_drop_commands, [])
unfolding parse_script parse_loop parse_command read_var_int read_full read_exactly le_decode
parse-dup_drop = refl

module _ (c : Crypto) (z : List ℕ) (locktime sequence : ℕ) where
  -- The program that the output commits to.
  abbrev program : List ℕ
  program = c.hashes.sha256 dup_drop

  abbrev items : List (List ℕ)
  items = [] ∷ program ∷ dup_drop ∷ []

  abbrev state : ℕ → Script → List ScriptCommand → ScriptEngine
  state pc cmds stack = record {
    stack = stack;
    altstack = [];
    commands = cmds;
    pc = pc;
    z = z;
    witness = items;
    locktime = locktime;
    sequence = sequence;
  }

  abbrev pair : List ScriptCommand
  pair = data_command program ∷ data_command [] ∷ []

  -- The program is taken for a witness program again: its items and its commands come back.
  again :
      (pc : ℕ) (cmds : Script)
      → p2wsh c.hashes (data_command program) (state pc cmds [])
        ≡ ok (state pc (cmds ++ dup_drop_commands) pair)
  unfolding p2wsh inject encode_var_int
  again pc cmds = rw (bytes_equal_self program, parse-dup_drop)

  step-dup :
      (pc : ℕ) (cmds : Script)
      → step_from c dup_drop_commands (state pc cmds pair)
        ≡ ok (state (pc + 1) cmds (data_command program ∷ pair))
  unfolding step_from is_p2sh execute_command op_dup
  step-dup pc cmds = refl

  step-drop :
      (pc : ℕ) (cmds : Script)
      → step_from c (op_command Opcodes.op_drop ∷ []) (state pc cmds (data_command program ∷ pair))
        ≡ ok (state (pc + 1) (cmds ++ dup_drop_commands) pair)
  unfolding step_from is_p2sh execute_command op_drop
  step-drop pc cmds = ground (arith, again (pc + 1) cmds, c.hashes.length-sha256 dup_drop)

  -- Two rounds from here on the engine is back in such a state, with two commands more.
  spin :
      (fuel pc : ℕ) (cmds : Script)
      → drop pc cmds ≡ dup_drop_commands
      → execute_loop c fuel (state pc cmds pair) ≡ out_of_fuel
  unfolding execute_loop
  spin zero pc cmds e = refl
  spin (suc zero) pc cmds e = rw (in_range pc cmds e, e, step-dup pc cmds)
  spin (suc (suc fuel)) pc cmds e =
      let e' = drop-next pc cmds e in
      rw
        (
          in_range pc cmds e,
          e,
          step-dup pc cmds,
          in_range (pc + 1) cmds e',
          e',
          step-drop (pc + 1) cmds,
        )
        (spin fuel (pc + 1 + 1) (cmds ++ dup_drop_commands)
          (drop-end (pc + 1 + 1) cmds dup_drop_commands (length-eq pc cmds e)))

  abbrev output : Script
  output = op_command Opcodes.op_0 ∷ data_command program ∷ []

  step-empty : step_from c output (state 0 output []) ≡ ok (state 1 output (data_command [] ∷ []))
  unfolding step_from is_p2sh execute_command
  step-empty = refl

  step-program :
      step_from c (data_command program ∷ []) (state 1 output (data_command [] ∷ []))
      ≡ ok (state 2 (output ++ dup_drop_commands) pair)
  unfolding step_from is_p2sh
  step-program = ground (arith, again 2 output, c.hashes.length-sha256 dup_drop)

  -- For every hash function: the P2WSH output that commits to the script OP_DUP OP_DROP, spent with
  -- the witness that holds an empty item, the script's hash and the script, has no answer on any
  -- amount of fuel, with an empty ScriptSig in front of it and any locktime and sequence.
  pub evaluate-diverges :
      (fuel : ℕ)
      → evaluate_with_context c fuel (p2wsh_script program) z items locktime sequence ≡ out_of_fuel
  unfolding evaluate_with_context p2wsh_script execute_loop
  evaluate-diverges zero = refl
  evaluate-diverges (suc zero) = rw step-empty
  evaluate-diverges (suc (suc fuel)) =
      rw (step-empty, step-program, spin fuel 2 (output ++ dup_drop_commands) refl)
