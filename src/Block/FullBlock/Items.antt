-- ===== src/Block/FullBlock/Items.antt =====
-- What ExtractBasicFilterItems extracts.
use go_bitcoin.Base.{ℕ, ◌<◌, Bool-cases, ◌==◌, List, [], ◌∷◌, ◌++◌, map, length}
use go_bitcoin.Base.{◌⊎◌, inl, inr, ◌↔◌, ◌≡◌, sym, subst, arith}
use go_bitcoin.Base.Membership.{Has, Has-append_left, Has-append_right, Has-append_cases}
use go_bitcoin.Transactions.TxOut.{TxOut, raw_script_bytes}
use go_bitcoin.Transactions.Transaction.{Transaction}
use go_bitcoin.Block.FullBlock.{
  FullBlock, op_return, non_empty, add_script, output_items, tx_items, unique,
}
use go_bitcoin.Block.FullBlock.{extract_basic_filter_items}
use go_bitcoin.Block.FullBlock.Sorting.{
  IsAscending, sort_items-IsAscending, unique-Distinct, Has-sort_items, sort_items_keeps,
  unique_keeps, unique_complete,
}

-- A script that pays: it is not empty and does not start with OP_RETURN.
abbrev pub IsPaying : List ℕ → Type 0
IsPaying [] = ⊥
IsPaying (b ∷ bs) = ¬ (b ≡ op_return)

-- The scripts of all outputs of the transactions
abbrev pub output_scripts : List Transaction → List (List ℕ)
output_scripts [] = []
output_scripts (tx ∷ txs) = map raw_script_bytes tx.outputs ++ output_scripts txs

module _ (t : List ℕ) where
  non_empty_keeps : (xs : List (List ℕ)) → Has t (non_empty xs) → (0 < length t) × Has t xs
  unfolding non_empty
  non_empty_keeps [] h = absurd h
  non_empty_keeps ([] ∷ xs) h = let (long, k) = non_empty_keeps xs h in (long, inr k)
  non_empty_keeps ((b ∷ bs) ∷ xs) (inl e) = (subst (λ y. 0 < length y) e (omega arith), inl e)
  non_empty_keeps ((b ∷ bs) ∷ xs) (inr h) = let (long, k) = non_empty_keeps xs h in (long, inr k)

  Has-non_empty : (xs : List (List ℕ)) → 0 < length t → Has t xs → Has t (non_empty xs)
  unfolding non_empty
  Has-non_empty [] long h = h
  Has-non_empty ([] ∷ xs) long (inl e) =
      let none : 0 < length {A = ℕ} [] = subst (λ y. 0 < length y) (sym e) long in
      absurd (omega arith)
  Has-non_empty ([] ∷ xs) long (inr h) = Has-non_empty xs long h
  Has-non_empty ((b ∷ bs) ∷ xs) long (inl e) = inl e
  Has-non_empty ((b ∷ bs) ∷ xs) long (inr h) = inr (Has-non_empty xs long h)

  add_script_cases :
      (s : List ℕ) (xs : List (List ℕ))
      → Has t (add_script s xs)
      → ((s ≡ t) × IsPaying t) ⊎ Has t xs
  unfolding add_script
  add_script_cases [] xs = λ h. inr h
  add_script_cases (b ∷ bs) xs = elim (Bool-cases (b == op_return)) [
    | inl data_only ↦ rw data_only (λ h. inr h)
    | inr pays ↦ rw pays (λ h. elim h [
      | inl e ↦ inl (e, subst (λ y. IsPaying y) e (λ k. ground arith))
      | inr k ↦ inr k
    ])
  ]

  Has-add_script :
      (s : List ℕ) (xs : List (List ℕ)) → IsPaying t → (s ≡ t) ⊎ Has t xs → Has t (add_script s xs)
  unfolding add_script
  Has-add_script [] xs pays (inl e) = absurd (subst (λ y. IsPaying y) (sym e) pays)
  Has-add_script [] xs pays (inr h) = h
  Has-add_script (b ∷ bs) xs pays h = elim (Bool-cases (b == op_return)) [
    | inl data_only ↦ rw data_only (elim h [
      | inl e ↦ absurd (subst (λ y. IsPaying y) (sym e) pays (ground arith))
      | inr k ↦ k
    ])
    | inr other ↦ rw other h
  ]

  output_items_keep :
      (os : List TxOut) → Has t (output_items os) → IsPaying t × Has t (map raw_script_bytes os)
  unfolding output_items
  output_items_keep [] h = absurd h
  output_items_keep (o ∷ os) h = elim (add_script_cases (raw_script_bytes o) (output_items os) h) [
    | inl (e, pays) ↦ (pays, inl e)
    | inr k ↦ let (pays, m) = output_items_keep os k in (pays, inr m)
  ]

  Has-output_items :
      (os : List TxOut) → IsPaying t → Has t (map raw_script_bytes os) → Has t (output_items os)
  unfolding output_items
  Has-output_items [] pays h = h
  Has-output_items (o ∷ os) pays (inl e) =
      Has-add_script (raw_script_bytes o) (output_items os) pays (inl e)
  Has-output_items (o ∷ os) pays (inr h) =
      Has-add_script (raw_script_bytes o) (output_items os) pays (inr (Has-output_items os pays h))

  tx_items_keep :
      (txs : List Transaction) → Has t (tx_items txs) → IsPaying t × Has t (output_scripts txs)
  unfolding tx_items
  tx_items_keep [] h = absurd h
  tx_items_keep (tx ∷ txs) h =
      let scripts = map raw_script_bytes tx.outputs in
      elim (Has-append_cases t (output_items tx.outputs) (tx_items txs) h) [
        | inl k ↦
            let (pays, m) = output_items_keep tx.outputs k in
            (pays, Has-append_left t scripts (output_scripts txs) m)
        | inr k ↦
            let (pays, m) = tx_items_keep txs k in
            (pays, Has-append_right t scripts (output_scripts txs) m)
      ]

  Has-tx_items :
      (txs : List Transaction) → IsPaying t → Has t (output_scripts txs) → Has t (tx_items txs)
  unfolding tx_items
  Has-tx_items [] pays h = h
  Has-tx_items (tx ∷ txs) pays h =
      elim (Has-append_cases t (map raw_script_bytes tx.outputs) (output_scripts txs) h) [
        | inl k ↦
            Has-append_left t (output_items tx.outputs) (tx_items txs)
              (Has-output_items tx.outputs pays k)
        | inr k ↦
            Has-append_right t (output_items tx.outputs) (tx_items txs) (Has-tx_items txs pays k)
      ]

IsPaying-long : (t : List ℕ) → IsPaying t → 0 < length t
IsPaying-long [] h = absurd h
IsPaying-long (b ∷ bs) h = omega arith

-- The items of a filter are in strictly ascending order, so that none stands there twice. They are the scripts
-- spent that are not empty, and the output scripts that are not empty and do not start with OP_RETURN.
pub extract_basic_filter_items_exact :
    (prevs : List (List ℕ)) (fb : FullBlock)
    → IsAscending (extract_basic_filter_items prevs fb)
      × ((t : List ℕ)
          → Has t (extract_basic_filter_items prevs fb)
            ↔ (((0 < length t) × Has t prevs) ⊎ (IsPaying t × Has t (output_scripts fb.txs))))
unfolding extract_basic_filter_items
extract_basic_filter_items_exact prevs fb =
    let all : List (List ℕ) = non_empty prevs ++ tx_items fb.txs in
    let kept : List (List ℕ) = non_empty all in
    let member : (t : List ℕ)
        → ((0 < length t) × Has t prevs) ⊎ (IsPaying t × Has t (output_scripts fb.txs))
        → Has t kept =
      λ t h. elim h [
        | inl (long, m) ↦
            Has-non_empty t all long
              (Has-append_left t (non_empty prevs) (tx_items fb.txs) (Has-non_empty t prevs long m))
        | inr (pays, m) ↦
            Has-non_empty t all (IsPaying-long t pays) (
              Has-append_right t (non_empty prevs) (tx_items fb.txs) (Has-tx_items t fb.txs pays m))
      ] in
    (
      sort_items-IsAscending (unique [] kept) (unique-Distinct kept []),
      λ t. (
        (λ h.
            let (long, k) =
              non_empty_keeps t all (unique_keeps t kept (sort_items_keeps t (unique [] kept) h)) in
            elim (Has-append_cases t (non_empty prevs) (tx_items fb.txs) k) [
              | inl m ↦ inl (non_empty_keeps t prevs m)
              | inr m ↦ inr (tx_items_keep t fb.txs m)
            ]),
        (λ h.
            Has-sort_items t (unique [] kept) (elim (unique_complete t kept [] (member t h)) [
              | inl none ↦ absurd none
              | inr m ↦ m
            ])),
      ),
    )
