-- ===== src/Eccmath/Tests.antt =====
-- A run of the DER codec at a concrete signature.
use go_bitcoin.Base.{[], ◌∷◌, ◌++◌, ok, ◌≡◌, arith}
use go_bitcoin.Base.Bytes.{bytes_reader}
use go_bitcoin.Eccmath.Signature.{Signature, parse_signature, serialize}
use go_bitcoin.Eccmath.Signature.RoundTrip.{parse_signature-serialize}

abbrev signature : Signature
signature = record { r = 0x80ff; s = 5 }

parse_signature-serialize_example :
    parse_signature bytes_reader (serialize signature ++ (1 ∷ [])) ≡ ok signature
parse_signature-serialize_example =
    parse_signature-serialize bytes_reader signature (1 ∷ []) (omega arith) (omega arith)
