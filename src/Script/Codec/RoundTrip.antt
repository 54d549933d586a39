-- ===== src/Script/Codec/RoundTrip.antt =====
-- Parsing back what Serialize wrote.
use go_bitcoin.Base.{ℕ, zero, suc, ◌+◌, ◌-◌, ◌^◌, ◌≤◌, ◌<◌}
use go_bitcoin.Base.{List, [], ◌∷◌, ◌++◌, append_assoc, append-nil}
use go_bitcoin.Base.{◌≡◌, ◌⊎◌, refl, ap, ◌∙◌, arith}
use go_bitcoin.Base.{leb, if◌then◌else◌, length, All, length-append, lt→ltb, ==_refl}
use go_bitcoin.Base.{ok, ◌>>=◌}
use go_bitcoin.Base.Bytes.{Reader, le_encode, le_decode-le_encode, length-le_encode}
use go_bitcoin.Base.Bytes.{le_decode-one}
use go_bitcoin.Base.Bytes.Reading.{read_exactly-append}
use go_bitcoin.Encoding.VarInt.Shape.{encode_var_int-eq-var_int, read_var_int-var_int}
use go_bitcoin.Script.Opcodes.{op_pushdata1, op_pushdata2, op_pushdata4}
use go_bitcoin.Script.Command.{ScriptCommand, Script, data_command, op_command}
use go_bitcoin.Script.Codec.{
  push_bytes, push_sized, parse_command, parse_loop, parse_script, push_prefix, command_bytes,
  raw_bytes, serialize,
}

-- Commands that the byte form tells apart: data of 1 to 2^32 - 1 bytes, and an opcode that no push
-- begins with.
pub data IsCanonical : ScriptCommand → Type 0 where
  of_data : (d : List ℕ) → 1 ≤ length d → length d < 2 ^ 32 → IsCanonical (data_command d)
  of_op : (o : ℕ) → (o ≡ 0) ⊎ (79 ≤ o) → IsCanonical (op_command o)

-- What the data of a push of `n` bytes stands behind, and the byte and the rest of it.
push_first : ℕ → ℕ
push_first n =
    if leb n 75
    then n
    else if leb n 0xff
    then op_pushdata1
    else if leb n 0xffff
    then op_pushdata2
    else op_pushdata4

push_size : ℕ → ℕ
push_size n = if leb n 75 then 0 else if leb n 0xff then 1 else if leb n 0xffff then 2 else 4

push_prefix-parts : (n : ℕ) → n < 2 ^ 32 → push_prefix n ≡ push_first n ∷ le_encode (push_size n) n
unfolding push_prefix push_first push_size le_encode
push_prefix-parts n h = ground arith

push_prefix_pos : (n : ℕ) → 1 ≤ length (push_prefix n)
unfolding push_prefix
push_prefix_pos n = ground arith

le_encode_none : (n : ℕ) → le_encode 0 n ≡ []
unfolding le_encode
le_encode_none n = refl

count_one : (n : ℕ) → n + 1 + 0 ≡ n + 1
count_one n = omega arith

pub command_bytes_pos : (c : ScriptCommand) → 1 ≤ length (command_bytes c)
unfolding command_bytes
command_bytes_pos c =
    ground (
      arith,
      length-append (push_prefix (length c.bytes)) c.bytes,
      push_prefix_pos (length c.bytes),
    )

module _ (r : Reader) where
  push_bytes-append :
      (prefix n : ℕ) (d rest : List ℕ)
      → 1 ≤ length d
      → length d ≡ n
      → push_bytes r prefix n (d ++ rest) ≡ ok (data_command d, n + prefix, rest)
  unfolding push_bytes
  push_bytes-append prefix n d rest h e = rw (read_exactly-append r n d rest (omega arith) e)

  push_sized-append :
      (k : ℕ) (d rest : List ℕ)
      → 1 ≤ k
      → 1 ≤ length d
      → length d < 256 ^ k
      → push_sized r k (le_encode k (length d) ++ (d ++ rest))
        ≡ ok (data_command d, length d + k, rest)
  unfolding push_sized
  push_sized-append k d rest hk h fits =
      rw
        (
          read_exactly-append r k (le_encode k (length d)) (d ++ rest) hk
              (length-le_encode k (length d)),
          le_decode-le_encode k (length d) fits,
        )
        (push_bytes-append k (length d) d rest h refl)

  -- One round of the loop: a byte, then what it stands for.
  parse_loop-suc :
      (fuel len count b : ℕ) (cmds : Script) (bs : List ℕ)
      → count < len
      → parse_loop r (suc fuel) len count cmds (b ∷ bs) ≡ (
          parse_command r b bs >>= λ (cmd, n, rest').
          parse_loop r fuel len (count + 1 + n) (cmds ++ (cmd ∷ [])) rest')
  unfolding parse_loop
  parse_loop-suc fuel len count b cmds bs h =
      rw (
        lt→ltb count len h,
        read_exactly-append r 1 (b ∷ []) bs (omega arith) refl,
        le_decode-one b,
      )

  parse_command-push :
      (d rest : List ℕ)
      → 1 ≤ length d
      → length d < 2 ^ 32
      → parse_command r
          (push_first (length d))
          (le_encode (push_size (length d)) (length d) ++ (d ++ rest))
        ≡ ok (data_command d, length d + push_size (length d), rest)
  unfolding parse_command push_first push_size
  parse_command-push d rest h fits = ground (
    arith,
    le_encode_none (length d),
    push_bytes-append 0 (length d) d rest h refl,
    push_sized-append 1 d rest (omega arith) h,
    push_sized-append 2 d rest (omega arith) h,
    push_sized-append 4 d rest (omega arith) h,
  )

  parse_command-op :
      (o : ℕ) (rest : List ℕ)
      → (o ≡ 0) ⊎ (79 ≤ o)
      → parse_command r o rest ≡ ok (op_command o, 0, rest)
  unfolding parse_command
  parse_command-op o rest h = ground arith

  -- The loop reads back the bytes of one canonical command in one round.
  parse_loop-command :
      (fuel len count : ℕ) (cmds : Script) (c : ScriptCommand) (rest : List ℕ)
      → IsCanonical c
      → count < len
      → parse_loop r (suc fuel) len count cmds (command_bytes c ++ rest)
        ≡ parse_loop r fuel len (count + length (command_bytes c)) (cmds ++ (c ∷ [])) rest
  unfolding command_bytes
  parse_loop-command fuel len count cmds c rest (of_data d h fits) below =
      let n = length d in
      let tail = le_encode (push_size n) n in
      rw (push_prefix-parts n fits, append_assoc)
        (parse_loop-suc fuel len count (push_first n) cmds (tail ++ (d ++ rest)) below
          ∙ rw (parse_command-push d rest h fits) (
              ap (λ t. parse_loop r fuel len t (cmds ++ (data_command d ∷ [])) rest)
                (omega (arith, length-append tail d, length-le_encode (push_size n) n))))
  parse_loop-command fuel len count cmds c rest (of_op o h) below =
      parse_loop-suc fuel len count o cmds rest below
      ∙ rw (parse_command-op o rest h) (rw (count_one count))

  parse_loop-raw_bytes :
      (s : Script) (fuel len count : ℕ) (cmds : Script) (rest : List ℕ)
      → All IsCanonical s
      → length (raw_bytes s) < fuel
      → count + length (raw_bytes s) ≡ len
      → parse_loop r fuel len count cmds (raw_bytes s ++ rest) ≡ ok (cmds ++ s, len, rest)
  unfolding raw_bytes
  parse_loop-raw_bytes s zero len count cmds rest hs enough e = absurd (omega arith)
  parse_loop-raw_bytes [] (suc fuel) len count cmds rest hs enough e =
      unfold parse_loop in rw append-nil (ground arith)
  parse_loop-raw_bytes (c ∷ s) (suc fuel) len count cmds rest (h, hs) enough e =
      let bytes = length-append (command_bytes c) (raw_bytes s) in
      let pos = command_bytes_pos c in
      rw append_assoc (
        parse_loop-command fuel len count cmds c (raw_bytes s ++ rest) h (omega arith)
        ∙ parse_loop-raw_bytes s fuel len (count + length (command_bytes c)) (cmds ++ (c ∷ [])) rest
            hs (omega arith) (omega arith)
        ∙ ap (λ t. ok (t, len, rest)) (append_assoc cmds (c ∷ []) s))

  -- For a script of canonical commands whose bytes number less than 2^64 - 1, ParseScript reads
  -- back what Serialize wrote, from either kind of reader, and leaves the bytes that follow.
  pub parse_script-serialize :
      (s : Script) (rest : List ℕ)
      → All IsCanonical s
      → length (raw_bytes s) < 2 ^ 64 - 1
      → (serialize s >>= λ bs. parse_script r (bs ++ rest)) ≡ ok (s, rest)
  unfolding serialize parse_script
  parse_script-serialize s rest h fits =
      let raw = raw_bytes s in
      let n = length raw in
      rw (
        encode_var_int-eq-var_int n fits,
        append_assoc,
        read_var_int-var_int n (raw ++ rest) fits,
        parse_loop-raw_bytes s (suc (length (raw ++ rest))) n 0 [] rest h
            (omega (arith, length-append raw rest)) (omega arith),
        ==_refl,
      )
