-- ===== src/Transactions/Transaction/RoundTrip.antt =====
-- Transactions, written and read back.
use go_bitcoin.Base.{
  ℕ, ◌^◌, ◌≤◌, ◌<◌, Bool, true, false, none, List, [], ◌∷◌, ◌++◌, append_assoc, map,
}
use go_bitcoin.Base.{
  ◌⊎◌, length, length-append, take, drop, All, ◌==◌, ltb, if◌then◌else◌, Bool-cases, inl, inr,
}
use go_bitcoin.Base.{ok, ◌≡◌, refl, sym, ap, subst, ◌∙◌, arith}
use go_bitcoin.Base.Bytes.{
  Reader, le_encode, read, read_exactly, length-le_encode, le_decode-le_encode, le_decode-one,
}
use go_bitcoin.Base.Bytes.Reading.{read_exactly-append, read-append}
use go_bitcoin.Base.Codes.{Codes}
use go_bitcoin.Encoding.VarInt.Shape.{var_int}
use go_bitcoin.Transactions.TxIn.{TxIn}
use go_bitcoin.Transactions.TxOut.RoundTrip.{with_raw}
use go_bitcoin.Transactions.Transaction.Body.{IsBody, body_read}
use go_bitcoin.Transactions.Transaction.Witness.{IsWitness, bare, parse_witnesses-written}
use go_bitcoin.Transactions.Transaction.{
  Transaction, segwit_marker, segwit_flag, new_transaction, serialize_legacy, serialize_segwit,
  serialize, parse_legacy_transaction, parse_segwit_transaction, parse_transaction,
}

-- A transaction whose version and locktime are below 2^32, with inputs and outputs that are read back.
pub record IsCodable (t : Transaction) : Type 0 where
  pub version_fits : t.version < 2 ^ 32
  pub locktime_fits : t.locktime < 2 ^ 32
  pub body : IsBody t

-- The transaction as it is read: its outputs have the bytes of their scripts as raw bytes, it is none of the test
-- network, and no digest is cached.
abbrev pub as_read : Transaction → Transaction
as_read t = record t {
  outputs = map with_raw t.outputs;
  is_testnet = false;
  cached_hash_prev_outs = none;
  cached_hash_sequence = none;
  cached_hash_outputs = none;
}

-- One that is read as it is
pub record IsFresh (t : Transaction) : Type 0 where
  pub codable : IsCodable t
  pub raw_kept : map with_raw t.outputs ≡ t.outputs
  pub no_testnet : t.is_testnet ≡ false
  pub no_prev_outs : t.cached_hash_prev_outs ≡ none
  pub no_sequence : t.cached_hash_sequence ≡ none
  pub no_outputs : t.cached_hash_outputs ≡ none

-- The first byte of a count that is not 0 is not 0.
var_int_head : (n : ℕ) → 1 ≤ n → (b : ℕ) × (bs : List ℕ) × (var_int n ≡ b ∷ bs) × ((b == 0) ≡ false)
unfolding var_int
var_int_head n h = elim (Bool-cases (ltb n 0xfd)) [
  | inl e ↦ (n, [], rw e refl, ground arith)
  | inr e ↦ elim (Bool-cases (ltb n 0x10000)) [
    | inl e' ↦ (0xfd, le_encode 2 n, rw (e, e') refl, refl)
    | inr e' ↦ elim (Bool-cases (ltb n 0x100000000)) [
      | inl e'' ↦ (0xfe, le_encode 4 n, rw (e, e', e'') refl, refl)
      | inr e'' ↦ (0xff, le_encode 8 n, rw (e, e', e'') refl, refl)
    ]
  ]
]

head_le_encode : (v b : ℕ) → take 4 (le_encode 4 v ++ (b ∷ [])) ≡ le_encode 4 v
unfolding le_encode
head_le_encode v b = refl

tail_le_encode : (v b : ℕ) → drop 4 (le_encode 4 v ++ (b ∷ [])) ≡ b ∷ []
unfolding le_encode
tail_le_encode v b = refl

-- The version and the byte behind it
opening :
    (r : Reader) (v b : ℕ) (rest : List ℕ)
    → read_exactly r 5 (le_encode 4 v ++ (b ∷ rest)) ≡ ok (le_encode 4 v ++ (b ∷ []), rest)
opening r v b rest =
    let len : length (le_encode 4 v ++ (b ∷ [])) ≡ 5 =
      omega (arith, length-append (le_encode 4 v) (b ∷ []), length-le_encode 4 v) in
    ap (read_exactly r 5) (sym (append_assoc (le_encode 4 v) (b ∷ []) rest))
    ∙ read_exactly-append r 5 (le_encode 4 v ++ (b ∷ [])) rest (omega arith) len

map-bare_eq : (ts : List TxIn) → All (λ t. t.witness ≡ []) ts → map bare ts ≡ ts
map-bare_eq [] h = refl
map-bare_eq (t ∷ ts) (h, hs) =
    let same : bare t ≡ t = ap (λ (w : List (List ℕ)). record t { witness = w }) (sym h) in
    rw (same, map-bare_eq ts hs) refl

as_read_fresh : (t : Transaction) → IsFresh t → as_read t ≡ t
as_read_fresh t h =
    rw (← h.no_testnet, h.raw_kept) (rw (h.no_prev_outs, h.no_sequence, h.no_outputs) refl)

-- What a transaction keeps of its witnesses: all of them in the segwit form; none in the other one,
-- which has an input, since no input would read as the marker.
abbrev pub IsFormed : Transaction → Type 0
IsFormed t =
    ((t.is_segwit ≡ true) × All (λ (i : TxIn). IsWitness i.witness) t.inputs)
    ⊎ ((t.is_segwit ≡ false) × All (λ (i : TxIn). i.witness ≡ []) t.inputs × (1 ≤ length t.inputs))

legacy-Codes :
    (r : Reader) (t : Transaction)
    → IsCodable t
    → t.is_segwit ≡ false
    → All (λ i. i.witness ≡ []) t.inputs
    → 1 ≤ length t.inputs
    → Codes (parse_transaction r) (serialize_legacy t) (as_read t)
unfolding parse_transaction serialize_legacy parse_legacy_transaction new_transaction
legacy-Codes r t h legacy no_witness one =
    let (more, written, taken) = body_read r t h.body in
    let (b, bs, head, b_pos) = var_int_head (length t.inputs) one in
    let locktime = le_encode 4 t.locktime in
    (
      le_encode 4 t.version ++ ((var_int (length t.inputs) ++ more) ++ locktime),
      rw written refl,
      (λ rest.
          rw
            (
              append_assoc,
              append_assoc,
              append_assoc,
              head,
              opening r t.version b (bs ++ (more ++ (locktime ++ rest))),
              head_le_encode,
              tail_le_encode,
              le_decode-one,
              b_pos,
              ap (λ (l : List ℕ). l ++ (more ++ (locktime ++ rest))) (sym head),
              taken (locktime ++ rest),
              read_exactly-append r 4 locktime rest (omega arith) (length-le_encode 4 t.locktime),
              le_decode-le_encode 4 t.version h.version_fits,
              le_decode-le_encode 4 t.locktime h.locktime_fits,
              map-bare_eq t.inputs no_witness,
            )
            (ap (λ (s : Bool). ok (record (as_read t) { is_segwit = s }, rest)) (sym legacy))),
    )

segwit-Codes :
    (r : Reader) (t : Transaction)
    → IsCodable t
    → t.is_segwit ≡ true
    → All (λ i. IsWitness i.witness) t.inputs
    → Codes (parse_transaction r) (serialize_segwit t) (as_read t)
unfolding parse_transaction serialize_segwit parse_segwit_transaction new_transaction
segwit-Codes r t h segwit witnesses =
    let (more, written, taken) = body_read r t h.body in
    let (items, items_written, items_read) = parse_witnesses-written r t.inputs witnesses in
    let count = var_int (length t.inputs) in
    let locktime = le_encode 4 t.locktime in
    (
      le_encode 4 t.version
          ++ (segwit_marker ∷ segwit_flag ∷ ((count ++ more) ++ (items ++ locktime))),
      rw (written, items_written) refl,
      (λ rest.
          let enough : 1 ≤ length (locktime ++ rest) =
            omega (arith, length-append locktime rest, length-le_encode 4 t.locktime) in
          let some_left : 1 ≤ length (count ++ (more ++ (items ++ (locktime ++ rest)))) = omega (
            arith,
            length-append count (more ++ (items ++ (locktime ++ rest))),
            length-append more (items ++ (locktime ++ rest)),
            length-append items (locktime ++ rest),
          ) in
          rw
            (
              append_assoc,
              append_assoc,
              append_assoc,
              append_assoc,
              opening r t.version segwit_marker
                  (segwit_flag ∷ (count ++ (more ++ (items ++ (locktime ++ rest))))),
              head_le_encode,
              tail_le_encode,
              le_decode-one,
              read-append r (segwit_flag ∷ []) (count ++ (more ++ (items ++ (locktime ++ rest))))
                  some_left,
              taken (items ++ (locktime ++ rest)),
              items_read (locktime ++ rest) enough,
              read_exactly-append r 4 locktime rest (omega arith) (length-le_encode 4 t.locktime),
              le_decode-le_encode 4 t.version h.version_fits,
              le_decode-le_encode 4 t.locktime h.locktime_fits,
            )
            (ap (λ (s : Bool). ok (record (as_read t) { is_segwit = s }, rest)) (sym segwit))),
    )

serialize_segwit_eq : (t : Transaction) → t.is_segwit ≡ true → serialize t ≡ serialize_segwit t
unfolding serialize
serialize_segwit_eq t e = ap (λ (b : Bool). if b then serialize_segwit t else serialize_legacy t) e

serialize_legacy_eq : (t : Transaction) → t.is_segwit ≡ false → serialize t ≡ serialize_legacy t
unfolding serialize
serialize_legacy_eq t e = ap (λ (b : Bool). if b then serialize_segwit t else serialize_legacy t) e

-- A transaction with fields in the ranges of their types, without a coinbase input, whose scripts are canonical (of opcodes that are no pushes and data of 1 to 2^32 - 1 bytes) and
-- whose counts and scripts can be allocated, is serialized, in the segwit form with its witnesses, which can be
-- allocated, and in the other form with one input at least and no witness. Parsed back from its bytes in front of any
-- others, it is the same but for what its bytes do not tell: the raw bytes of the outputs are those of their scripts,
-- it is none of the test network, and no digest is cached.
pub parse_transaction-serialize :
    (r : Reader) (t : Transaction)
    → IsCodable t
    → IsFormed t
    → Codes (parse_transaction r) (serialize t) (as_read t)
parse_transaction-serialize r t h (inl (segwit, witnesses)) =
    let (bs, written, read) = segwit-Codes r t h segwit witnesses in
    (bs, serialize_segwit_eq t segwit ∙ written, read)
parse_transaction-serialize r t h (inr (legacy, bare_inputs, one)) =
    let (bs, written, read) = legacy-Codes r t h legacy bare_inputs one in
    (bs, serialize_legacy_eq t legacy ∙ written, read)

-- One as a parser leaves it is read as it is.
pub parse_transaction-Codes :
    (r : Reader) (t : Transaction)
    → IsFresh t
    → IsFormed t
    → Codes (parse_transaction r) (serialize t) t
parse_transaction-Codes r t h formed =
    subst (Codes (parse_transaction r) (serialize t)) (as_read_fresh t h)
      (parse_transaction-serialize r t h.codable formed)
