-- ===== src/Transactions/Transaction/Witness.antt =====
-- Witnesses, written and read back in front of at least one byte, such as those of the locktime.
use go_bitcoin.Base.{
  ℕ, ◌*◌, ◌^◌, ◌≤◌, List, [], ◌∷◌, ◌++◌, append_assoc, map, length, length-append, All,
}
use go_bitcoin.Base.{ok, ◌≡◌, refl, arith}
use go_bitcoin.Base.Bytes.{Reader, read}
use go_bitcoin.Base.Bytes.Reading.{read-append, copy_into_whole}
use go_bitcoin.Base.Codes.{make-ok, write_many, CodesBefore, Codes-many}
use go_bitcoin.Encoding.VarInt.Shape.{var_int, encode_var_int-eq-var_int, read_var_int-var_int}
use go_bitcoin.Transactions.TxIn.{TxIn}
use go_bitcoin.Transactions.Transaction.{
  witness_item_bytes, witness_bytes, parse_witness_item, parse_witness, parse_witnesses,
}

-- A witness that can be allocated when it is read.
pub record IsWitness (items : List (List ℕ)) : Type 0 where
  pub item_fits : All (λ item. length item ≤ 2 ^ 48) items
  pub count_fits : 24 * length items ≤ 2 ^ 48

-- An input as it is read before its witness.
abbrev pub bare : TxIn → TxIn
bare t = record t { witness = [] }

module _ (r : Reader) where
  parse_witness_item-Codes :
      (item : List ℕ)
      → length item ≤ 2 ^ 48
      → CodesBefore 1 (parse_witness_item r) (witness_item_bytes item) item
  unfolding parse_witness_item witness_item_bytes
  parse_witness_item-Codes item h =
      let n = length item in
      (
        var_int n ++ item,
        rw (encode_var_int-eq-var_int n (omega arith)) refl,
        (λ rest k.
            rw
              (
                append_assoc,
                read_var_int-var_int n (item ++ rest) (omega arith),
                make-ok 1 n (omega arith),
                read-append r item rest k,
                copy_into_whole item,
              )
              refl),
      )

  All-items :
      (items : List (List ℕ))
      → All (λ item. length item ≤ 2 ^ 48) items
      → All (λ item. CodesBefore 1 (parse_witness_item r) (witness_item_bytes item) item) items
  All-items [] h = tt
  All-items (item ∷ items) (h, hs) = (parse_witness_item-Codes item h, All-items items hs)

  parse_witness-Codes :
      (t : TxIn) → IsWitness t.witness → CodesBefore 1 (parse_witness r) (witness_bytes t) t.witness
  unfolding parse_witness witness_bytes
  parse_witness-Codes t h =
      let n = length t.witness in
      let (bs, written, read) =
        Codes-many 1 (parse_witness_item r) witness_item_bytes t.witness
          (All-items t.witness h.item_fits) in
      (
        var_int n ++ bs,
        rw (encode_var_int-eq-var_int n (omega (arith, h.count_fits)), written) refl,
        (λ rest k.
            rw
              (
                append_assoc,
                read_var_int-var_int n (bs ++ rest) (omega (arith, h.count_fits)),
                make-ok 24 n h.count_fits,
                read rest k,
              )
              refl),
      )

  -- The witnesses go to the inputs in their order.
  pub parse_witnesses-written :
      (ts : List TxIn)
      → All (λ t. IsWitness t.witness) ts
      → (bs : List ℕ) × (write_many witness_bytes ts ≡ ok bs)
        × ((rest : List ℕ)
            → 1 ≤ length rest
            → parse_witnesses r (map bare ts) (bs ++ rest) ≡ ok (ts, rest))
  unfolding parse_witnesses write_many
  parse_witnesses-written [] h = ([], refl, λ rest k. refl)
  parse_witnesses-written (t ∷ ts) (h, hs) =
      let (bs, written, read) = parse_witness-Codes t h in
      let (more, written', read') = parse_witnesses-written ts hs in
      (
        bs ++ more,
        rw (written, written') refl,
        (λ rest k.
            let enough : 1 ≤ length (more ++ rest) = omega (arith, length-append more rest) in
            rw (append_assoc, read (more ++ rest) enough, read' rest k) refl),
      )
