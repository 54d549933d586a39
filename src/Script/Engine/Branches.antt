-- ===== src/Script/Engine/Branches.antt =====
-- A conditional without OP_ELSE: the engine skips it, or runs it and has no operation for the OP_ENDIF at its end.
use go_bitcoin.Base.{
  ℕ, zero, suc, ◌+◌, ◌≤◌, false, not, List, [], ◌∷◌, ◌++◌, map, length, length-append, drop, ltb,
  ◌==◌, if◌then◌else◌,
}
use go_bitcoin.Base.{Bool-cases, inl, inr, ok, ◌>>=◌, ◌≡◌, refl, ap, ◌∙◌, arith}
use go_bitcoin.Script.Opcodes
use go_bitcoin.Script.Command.{ScriptCommand, Script, data_command, op_command}
use go_bitcoin.Script.Num.{encode_num, magnitude_bytes, with_sign}
use go_bitcoin.Script.Engine.{ScriptEngine, failed, is_all_zeros, new_script_engine}
use go_bitcoin.Script.Engine.Opcode.{op_if, skip_from}
use go_bitcoin.Script.Engine.CheckSig.{Crypto}
use go_bitcoin.Script.Engine.Witness.{is_p2sh}
use go_bitcoin.Script.Engine.Divergence.{drop-next, in_range}
use go_bitcoin.Script.Engine.Execute.{
  step_from, execute_command, push_small, witness_program, execute_loop, execute, evaluate,
  verify_final_stack, as_bool,
}

-- Pushes of the data, and the OP_ENDIF behind them
abbrev pub branch : List (List ℕ) → Script
branch ds = map data_command ds ++ (op_command Opcodes.op_endif ∷ [])

-- OP_1 <condition> OP_IF <data> .. OP_ENDIF
abbrev pub conditional : List ℕ → List (List ℕ) → Script
conditional condition ds =
    op_command Opcodes.op_1 ∷ data_command condition ∷ op_command Opcodes.op_if ∷ branch ds

-- A branch of pushes is skipped as a whole.
skip_from-branch : (ds : List (List ℕ)) (pc : ℕ) → skip_from 1 (branch ds) pc ≡ pc + length ds + 1
unfolding skip_from
skip_from-branch [] pc = omega arith
skip_from-branch (d ∷ ds) pc = omega (arith, skip_from-branch ds (pc + 1))

-- Only OP_HASH160 opens the commands of a script hash.
is_p2sh_other :
    (a : ScriptCommand) (rest : Script)
    → (a.opcode == Opcodes.op_hash160) ≡ false
    → is_p2sh (a ∷ rest) ≡ false
unfolding is_p2sh
is_p2sh_other a [] h = refl
is_p2sh_other a (b ∷ []) h = refl
is_p2sh_other a (b ∷ d ∷ more) h = rw h refl

-- At the bottom of the stack there is something.
abbrev IsGrounded : List ScriptCommand → Type 0
IsGrounded [] = ⊥
IsGrounded (x ∷ []) = (length x.bytes == 0) ≡ false
IsGrounded (x ∷ y ∷ ys) = IsGrounded (y ∷ ys)

IsGrounded-cons : (x : ScriptCommand) (s : List ScriptCommand) → IsGrounded s → IsGrounded (x ∷ s)
IsGrounded-cons x [] h = absurd h
IsGrounded-cons x (y ∷ ys) h = h

module _ (c : Crypto) (z : List ℕ) (cmds : Script) where
  abbrev state : ℕ → List ScriptCommand → ScriptEngine
  state pc stack = record {
    stack = stack;
    altstack = [];
    commands = cmds;
    pc = pc;
    z = z;
    witness = [];
    locktime = 0;
    sequence = 0;
  }

  no_program :
      (x : ScriptCommand) (s : List ScriptCommand) (se : ScriptEngine)
      → IsGrounded s
      → witness_program c (x ∷ s) se ≡ ok se
  unfolding witness_program
  no_program x [] se h = absurd h
  no_program x (y ∷ []) se h = rw h refl
  no_program x (y ∷ w ∷ ys) se h = refl

  one_round :
      (fuel pc : ℕ) (stack : List ScriptCommand) (next : ScriptEngine) {x : ScriptCommand}
      {rest : Script}
      → drop pc cmds ≡ x ∷ rest
      → step_from c (x ∷ rest) (state pc stack) ≡ ok next
      → execute_loop c (suc fuel) (state pc stack) ≡ execute_loop c fuel next
  unfolding execute_loop
  one_round fuel pc stack next e made = rw (in_range pc cmds e, e, made) refl

  -- A branch that is run ends at its OP_ENDIF.
  branch_fails :
      (ds : List (List ℕ)) (fuel pc : ℕ) (stack : List ScriptCommand)
      → IsGrounded stack
      → drop pc cmds ≡ branch ds
      → length ds + 1 ≤ fuel
      → execute_loop c fuel (state pc stack) ≡ failed
  unfolding execute_loop step_from
  branch_fails ds zero pc stack h e enough = absurd (omega arith)
  branch_fails [] (suc fuel) pc stack h e enough =
      rw (in_range pc cmds e, e) (unfold is_p2sh execute_command in refl)
  branch_fails (d ∷ ds) (suc fuel) pc stack h e enough =
      rw
        (
          in_range pc cmds e,
          e,
          is_p2sh_other (data_command d) (branch ds) refl,
          no_program (data_command d) stack (state (pc + 1) (data_command d ∷ stack)) h,
        )
        (branch_fails ds fuel (pc + 1) (data_command d ∷ stack)
          (IsGrounded-cons (data_command d) stack h) (drop-next pc cmds e) (omega arith))

-- What follows OP_IF, with the condition popped
abbrev one : ScriptCommand
one = data_command (1 ∷ [])

length-map : (ds : List (List ℕ)) → length (map data_command ds) ≡ length ds
length-map [] = refl
length-map (d ∷ ds) = ap suc (length-map ds)

module _ (c : Crypto) (z condition : List ℕ) (ds : List (List ℕ)) where
  abbrev cmds : Script
  cmds = conditional condition ds

  abbrev after_if : ScriptEngine
  after_if =
      if not (is_all_zeros condition)
      then state c z cmds 3 (one ∷ [])
      else state c z cmds (3 + length ds + 1) (one ∷ [])

  first_step : step_from c cmds (state c z cmds 0 []) ≡ ok (state c z cmds 1 (one ∷ []))
  unfolding step_from is_p2sh execute_command push_small witness_program encode_num magnitude_bytes
      with_sign
  first_step = refl

  second_step :
      step_from c
        (data_command condition ∷ op_command Opcodes.op_if ∷ branch ds)
        (state c z cmds 1 (one ∷ []))
      ≡ ok (state c z cmds 2 (data_command condition ∷ one ∷ []))
  unfolding step_from
  second_step =
      rw
        (
          is_p2sh_other (data_command condition) (op_command Opcodes.op_if ∷ branch ds) refl,
          no_program c z cmds (data_command condition) (one ∷ [])
              (state c z cmds 2 (data_command condition ∷ one ∷ [])) refl,
        )
        refl

  third_step :
      step_from c
        (op_command Opcodes.op_if ∷ branch ds)
        (state c z cmds 2 (data_command condition ∷ one ∷ []))
      ≡ ok after_if
  unfolding step_from
  third_step = elim (Bool-cases (is_all_zeros condition)) [
    | inl zeros ↦
        rw (is_p2sh_other (op_command Opcodes.op_if) (branch ds) refl)
          (unfold execute_command op_if witness_program in rw (zeros, skip_from-branch ds 3) refl)
    | inr other ↦
        rw (is_p2sh_other (op_command Opcodes.op_if) (branch ds) refl)
          (unfold execute_command op_if witness_program in rw other refl)
  ]

  -- The first three rounds
  opened :
      (fuel : ℕ)
      → execute_loop c (suc (suc (suc fuel))) (state c z cmds 0 []) ≡ execute_loop c fuel after_if
  opened fuel =
      one_round c z cmds (suc (suc fuel)) 0 [] (state c z cmds 1 (one ∷ [])) refl first_step
      ∙ one_round c z cmds (suc fuel) 1 (one ∷ [])
          (state c z cmds 2 (data_command condition ∷ one ∷ [])) refl second_step
      ∙ one_round c z cmds fuel 2 (data_command condition ∷ one ∷ []) after_if refl third_step

  -- The loop is left behind the OP_ENDIF of a branch that was skipped.
  skipped :
      (fuel : ℕ)
      → execute_loop c (suc fuel) (state c z cmds (3 + length ds + 1) (one ∷ []))
        ≡ ok (state c z cmds (3 + length ds + 1) (one ∷ []))
  unfolding execute_loop
  skipped fuel =
      let count : length cmds ≡ 3 + length ds + 1 = omega (
        arith,
        length-append (map data_command ds) (op_command Opcodes.op_endif ∷ []),
        length-map ds,
      ) in
      let done : ltb (3 + length ds + 1) (length cmds) ≡ false = ground arith in rw done refl

  loop_result :
      (fuel : ℕ)
      → length ds + 1 ≤ fuel
      → as_bool (execute_loop c fuel after_if >>= λ se. ok (verify_final_stack se))
        ≡ ok (is_all_zeros condition)
  loop_result zero enough = absurd (omega arith)
  loop_result (suc fuel) enough = elim (Bool-cases (is_all_zeros condition)) [
    | inl zeros ↦ rw (zeros, skipped fuel) (unfold verify_final_stack is_all_zeros in refl)
    | inr other ↦ rw (other, branch_fails c z cmds ds (suc fuel) 3 (one ∷ []) refl refl enough) refl
  ]

  -- The script OP_1 <condition> OP_IF <data> .. OP_ENDIF is answered, by as many rounds as it has commands, with true
  -- where the condition is zero, so that the branch is skipped, and with false where it is not: there is no operation
  -- for the OP_ENDIF of a branch that was run.
  pub evaluate-conditional :
      (fuel : ℕ)
      → length ds + 4 ≤ fuel
      → evaluate c fuel (conditional condition ds) z ≡ ok (is_all_zeros condition)
  unfolding evaluate execute new_script_engine
  evaluate-conditional zero enough = absurd (omega arith)
  evaluate-conditional (suc zero) enough = absurd (omega arith)
  evaluate-conditional (suc (suc zero)) enough = absurd (omega arith)
  evaluate-conditional (suc (suc (suc fuel))) enough =
      ap (λ r. as_bool (r >>= λ se. ok (verify_final_stack se))) (opened fuel)
      ∙ loop_result fuel (omega arith)
