-- ===== src/Script/Codec/Consumption.antt =====
-- What ParseScript takes from its reader, on any input.
use go_bitcoin.Base.{ℕ, zero, suc, ◌+◌}
use go_bitcoin.Base.{List, []}
use go_bitcoin.Base.{◌≡◌, inl, inr, arith}
use go_bitcoin.Base.{ltb, length, Bool-cases}
use go_bitcoin.Base.{ok, bind_ok_inversion}
use go_bitcoin.Base.Bytes.{Reader, le_decode, read_exactly}
use go_bitcoin.Base.Bytes.Reading.{read_exactly_shrinks}
use go_bitcoin.Encoding.VarInt.{read_var_int}
use go_bitcoin.Script.Command.{ScriptCommand, Script}
use go_bitcoin.Script.Codec.{push_bytes, push_sized, parse_command, parse_loop, parse_script}

module _ (r : Reader) where
  push_bytes_takes :
      (prefix n : ℕ) (bs : List ℕ) (c : ScriptCommand) (k : ℕ) (rest : List ℕ)
      → push_bytes r prefix n bs ≡ ok (c, k, rest)
      → k + length rest ≡ prefix + length bs
  unfolding push_bytes
  push_bytes_takes prefix n bs c k rest e =
      let ((buf, rest'), e1, e2) = bind_ok_inversion (read_exactly r n bs) _ e in
      ground (arith, read_exactly_shrinks r n bs buf rest' e1)

  push_sized_takes :
      (m : ℕ) (bs : List ℕ) (c : ScriptCommand) (k : ℕ) (rest : List ℕ)
      → push_sized r m bs ≡ ok (c, k, rest)
      → k + length rest ≡ length bs
  unfolding push_sized
  push_sized_takes m bs c k rest e =
      let ((buf, rest'), e1, e2) = bind_ok_inversion (read_exactly r m bs) _ e in
      omega (
        arith,
        read_exactly_shrinks r m bs buf rest' e1,
        push_bytes_takes m (le_decode buf) rest' c k rest e2,
      )

  pub parse_command_takes :
      (b : ℕ) (bs : List ℕ) (c : ScriptCommand) (k : ℕ) (rest : List ℕ)
      → parse_command r b bs ≡ ok (c, k, rest)
      → k + length rest ≡ length bs
  unfolding parse_command
  parse_command_takes b bs c k rest e = ground (
    arith,
    push_bytes_takes 0 b bs c k rest,
    push_sized_takes 1 bs c k rest,
    push_sized_takes 2 bs c k rest,
    push_sized_takes 4 bs c k rest,
  )

  parse_loop_takes :
      (fuel len count : ℕ) (cmds : Script) (bs : List ℕ) (s : Script) (n : ℕ) (rest : List ℕ)
      → parse_loop r fuel len count cmds bs ≡ ok (s, n, rest)
      → n + length rest ≡ count + length bs
  unfolding parse_loop
  parse_loop_takes zero len count cmds bs s n rest e = cc
  parse_loop_takes (suc fuel) len count cmds bs s n rest e = elim (Bool-cases (ltb count len)) [
    | inr done ↦ ground arith
    | inl more ↦
        let ((buf, bs'), e1, e2) = bind_ok_inversion (read_exactly r 1 bs) _ (rw more at e) in
        let ((c, k, bs''), e3, e4) = bind_ok_inversion (parse_command r (le_decode buf) bs') _ e2 in
        omega (
          arith,
          read_exactly_shrinks r 1 bs buf bs' e1,
          parse_command_takes (le_decode buf) bs' c k bs'' e3,
          parse_loop_takes fuel len (count + 1 + k) _ bs'' s n rest e4,
        )
  ]

  -- When ParseScript succeeds, it has read the length prefix and exactly the number of bytes that
  -- the prefix announced.
  pub parse_script_takes :
      (bs : List ℕ) (s : Script) (rest : List ℕ)
      → parse_script r bs ≡ ok (s, rest)
      → (len : ℕ) × (body : List ℕ) × (read_var_int bs ≡ ok (len, body))
        × (length body ≡ len + length rest)
  unfolding parse_script
  parse_script_takes bs s rest e =
      let ((len, body), e1, e2) = bind_ok_inversion (read_var_int bs) _ e in
      let ((cmds, n, rest'), e3, e4) =
        bind_ok_inversion (parse_loop r (suc (length body)) len 0 [] body) _ e2 in
      (
        len,
        body,
        e1,
        ground (arith, parse_loop_takes (suc (length body)) len 0 [] body cmds n rest' e3),
      )
