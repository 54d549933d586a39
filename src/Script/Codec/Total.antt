-- ===== src/Script/Codec/Total.antt =====
-- The parsers return on every input, with a value or an error.
use go_bitcoin.Base.{ℕ, zero, suc, ◌+◌, ◌<◌}
use go_bitcoin.Base.{List, [], ◌∷◌}
use go_bitcoin.Base.{inl, inr, arith}
use go_bitcoin.Base.{ltb, length, Bool-cases}
use go_bitcoin.Base.{Returns, Returns-bind}
use go_bitcoin.Base.Bytes.{Reader, bytes_reader, bytes_buffer, le_decode, read_full, read_exactly}
use go_bitcoin.Base.Bytes.Reading.{read_exactly_shrinks}
use go_bitcoin.Encoding.VarInt.{read_var_int, read_wide}
use go_bitcoin.Encoding.VarInt.RoundTrip.{read_var_int-wide}
use go_bitcoin.Script.Command.{Script}
use go_bitcoin.Script.Codec.{push_bytes, push_sized, parse_command, parse_loop, parse_script}
use go_bitcoin.Script.Codec.Consumption.{parse_command_takes}

read_wide-Returns : (k : ℕ) (bs : List ℕ) → Returns (read_wide k bs)
unfolding read_wide read_full
read_wide-Returns k bs = ground arith

pub read_var_int-Returns : (bs : List ℕ) → Returns (read_var_int bs)
read_var_int-Returns [] = unfold read_var_int read_full in tt
read_var_int-Returns (b ∷ bs) =
    rw (read_var_int-wide b bs)
      (ground (arith, read_wide-Returns 2 bs, read_wide-Returns 4 bs, read_wide-Returns 8 bs))

read_exactly-Returns : (r : Reader) (n : ℕ) (bs : List ℕ) → Returns (read_exactly r n bs)
unfolding read_exactly
read_exactly-Returns bytes_reader n [] = tt
read_exactly-Returns bytes_buffer n [] = ground arith
read_exactly-Returns bytes_reader n (b ∷ bs) = ground arith
read_exactly-Returns bytes_buffer n (b ∷ bs) = ground arith

module _ (r : Reader) where
  push_bytes-Returns : (prefix n : ℕ) (bs : List ℕ) → Returns (push_bytes r prefix n bs)
  unfolding push_bytes
  push_bytes-Returns prefix n bs =
      Returns-bind (read_exactly r n bs) _ (read_exactly-Returns r n bs) (λ a e. tt)

  push_sized-Returns : (k : ℕ) (bs : List ℕ) → Returns (push_sized r k bs)
  unfolding push_sized
  push_sized-Returns k bs =
      Returns-bind (read_exactly r k bs) _ (read_exactly-Returns r k bs)
        (λ a e. push_bytes-Returns k (le_decode a.0) a.1)

  parse_command-Returns : (b : ℕ) (bs : List ℕ) → Returns (parse_command r b bs)
  unfolding parse_command
  parse_command-Returns b bs = ground (
    arith,
    push_bytes-Returns 0 b bs,
    push_sized-Returns 1 bs,
    push_sized-Returns 2 bs,
    push_sized-Returns 4 bs,
  )

  parse_loop-Returns :
      (fuel len count : ℕ) (cmds : Script) (bs : List ℕ)
      → length bs < fuel
      → Returns (parse_loop r fuel len count cmds bs)
  unfolding parse_loop
  parse_loop-Returns zero len count cmds bs h = absurd (omega arith)
  parse_loop-Returns (suc fuel) len count cmds bs h = elim (Bool-cases (ltb count len)) [
    | inr done ↦ rw done tt
    | inl more ↦ rw more (
        Returns-bind (read_exactly r 1 bs) _ (read_exactly-Returns r 1 bs) λ (buf, bs') e.
          Returns-bind (parse_command r (le_decode buf) bs') _
            (parse_command-Returns (le_decode buf) bs')
            λ (c, k, bs'') e'. parse_loop-Returns fuel len (count + 1 + k) _ bs'' (
              omega (
                arith,
                read_exactly_shrinks r 1 bs buf bs' e,
                parse_command_takes r (le_decode buf) bs' c k bs'' e',
              )))
  ]

  -- On every input ParseScript returns a script or an error: it does not panic, and its loop ends.
  pub parse_script-Returns : (bs : List ℕ) → Returns (parse_script r bs)
  unfolding parse_script
  parse_script-Returns bs =
      Returns-bind (read_var_int bs) _ (read_var_int-Returns bs) λ (len, body) e.
        Returns-bind (parse_loop r (suc (length body)) len 0 [] body) _
          (parse_loop-Returns (suc (length body)) len 0 [] body (omega arith))
          λ (cmds, n, rest) e'. ground arith
