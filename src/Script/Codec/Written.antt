-- ===== src/Script/Codec/Written.antt =====
-- The bytes of a script, for the codecs that a script is a part of.
use go_bitcoin.Base.{◌-◌, ◌^◌, ◌<◌, ◌++◌, length, All, ok, ◌≡◌, refl}
use go_bitcoin.Base.Bytes.{Reader}
use go_bitcoin.Base.Codes.{Codes}
use go_bitcoin.Encoding.VarInt.Shape.{var_int, encode_var_int-eq-var_int}
use go_bitcoin.Script.Command.{Script}
use go_bitcoin.Script.Codec.{parse_script, raw_bytes, serialize}
use go_bitcoin.Script.Codec.RoundTrip.{IsCanonical, parse_script-serialize}

-- A script that Serialize and ParseScript agree on.
pub record IsWritable (s : Script) : Type 0 where
  pub canonical : All IsCanonical s
  pub fits : length (raw_bytes s) < 2 ^ 64 - 1

pub serialize-eq :
    (s : Script)
    → length (raw_bytes s) < 2 ^ 64 - 1
    → serialize s ≡ ok (var_int (length (raw_bytes s)) ++ raw_bytes s)
unfolding serialize
serialize-eq s fits = rw (encode_var_int-eq-var_int (length (raw_bytes s)) fits) refl

pub parse_script-Codes :
    (r : Reader) (s : Script) → IsWritable s → Codes (parse_script r) (serialize s) s
parse_script-Codes r s w =
    let e = serialize-eq s w.fits in
    (
      var_int (length (raw_bytes s)) ++ raw_bytes s,
      e,
      (λ rest. rw e at (parse_script-serialize r s rest w.canonical w.fits)),
    )
