-- ===== src/Network/Reconstruction/Filled.antt =====
-- The compact block of a block, as internal/network/compact.go reads it, and the transactions that come out.
use go_bitcoin.Base.{ℕ, suc, ◌+◌, List, [], ◌∷◌, Option, none, some, length, ◌≡◌, refl}
use go_bitcoin.Base.{All, map, arith, Result, ok, err, panic, out_of_fuel, ◌>>=◌}
use go_bitcoin.Transactions.Transaction.{Transaction}
use go_bitcoin.Network.Mempool.{Mempool, get}
use go_bitcoin.Network.Reconstruction.{
  PrefilledTransaction, CompactBlockMessage, Slots, no_slots, set_slot,
}
use go_bitcoin.Network.Reconstruction.{place_prefilled, fill_matches, fill_missing, fill_block}

-- The way in which a transaction of the block reaches the node: in the message, from the mempool, or on request
pub data Sent : Type 0 where
  in_message : Transaction → Sent
  in_pool : Transaction → Sent
  on_request : Transaction → Sent

unfoldable pub sent_tx : Sent → Transaction
sent_tx (in_message tx) = tx
sent_tx (in_pool tx) = tx
sent_tx (on_request tx) = tx

unfoldable pub prefilled_from : ℕ → List Sent → List PrefilledTransaction
prefilled_from i [] = []
prefilled_from i (in_message tx ∷ sents) =
    record { index = i; tx = tx } ∷ prefilled_from (suc i) sents
prefilled_from i (in_pool tx ∷ sents) = prefilled_from (suc i) sents
prefilled_from i (on_request tx ∷ sents) = prefilled_from (suc i) sents

unfoldable pub short_ids_of : (Transaction → List ℕ) → List Sent → List (List ℕ)
short_ids_of short [] = []
short_ids_of short (in_message tx ∷ sents) = short_ids_of short sents
short_ids_of short (in_pool tx ∷ sents) = short tx ∷ short_ids_of short sents
short_ids_of short (on_request tx ∷ sents) = short tx ∷ short_ids_of short sents

unfoldable pub requested : List Sent → List Transaction
requested [] = []
requested (in_message tx ∷ sents) = requested sents
requested (in_pool tx ∷ sents) = requested sents
requested (on_request tx ∷ sents) = tx ∷ requested sents

-- The matches hold the transaction itself, or nothing, under its short id.
unfoldable pub IsMatched : (Transaction → List ℕ) → Mempool → Sent → Type 0
IsMatched short matches (in_message tx) = Unit
IsMatched short matches (in_pool tx) = get (short tx) matches ≡ some tx
IsMatched short matches (on_request tx) = get (short tx) matches ≡ none

abbrev placed_of : List Sent → Slots
placed_of [] = []
placed_of (in_message tx ∷ sents) = some tx ∷ placed_of sents
placed_of (in_pool tx ∷ sents) = none ∷ placed_of sents
placed_of (on_request tx ∷ sents) = none ∷ placed_of sents

abbrev filled_of : List Sent → Slots
filled_of [] = []
filled_of (in_message tx ∷ sents) = some tx ∷ filled_of sents
filled_of (in_pool tx ∷ sents) = some tx ∷ filled_of sents
filled_of (on_request tx ∷ sents) = none ∷ filled_of sents

abbrev missing_from : ℕ → List Sent → List ℕ
missing_from i [] = []
missing_from i (in_message tx ∷ sents) = missing_from (suc i) sents
missing_from i (in_pool tx ∷ sents) = missing_from (suc i) sents
missing_from i (on_request tx ∷ sents) = i ∷ missing_from (suc i) sents

-- A slot in front of what the loop sees stays in front of what it makes.
bind-front :
    {B : Type 0} (s : Option Transaction) (g : B → B) (k k' : Slots → Result B)
    → ((y : Slots) → k (s ∷ y) ≡ (do b ← k' y; ok (g b)))
    → (r : Result Slots)
    → (do y ← (do y ← r; ok (s ∷ y)); k y) ≡ (do b ← (do y ← r; k' y); ok (g b))
bind-front s g k k' h (ok y) = h y
bind-front s g k k' h (err e) = refl
bind-front s g k k' h panic = refl
bind-front s g k k' h out_of_fuel = refl

place_prefilled-suc :
    (sents : List Sent) (i : ℕ) (s : Option Transaction) (slots : Slots)
    → place_prefilled (prefilled_from (suc i) sents) (s ∷ slots)
      ≡ (do placed ← place_prefilled (prefilled_from i sents) slots; ok (s ∷ placed))
unfolding place_prefilled prefilled_from set_slot
place_prefilled-suc [] i s slots = refl
place_prefilled-suc (in_message tx ∷ sents) i s slots =
    bind-front s (◌∷◌ s) (place_prefilled (prefilled_from (suc (suc i)) sents))
      (place_prefilled (prefilled_from (suc i) sents)) (place_prefilled-suc sents (suc i) s)
      (set_slot i tx slots)
place_prefilled-suc (in_pool tx ∷ sents) i s slots = place_prefilled-suc sents (suc i) s slots
place_prefilled-suc (on_request tx ∷ sents) i s slots = place_prefilled-suc sents (suc i) s slots

place_prefilled_eq :
    (sents : List Sent)
    → place_prefilled (prefilled_from 0 sents) (no_slots (length sents)) ≡ ok (placed_of sents)
unfolding place_prefilled prefilled_from set_slot no_slots
place_prefilled_eq [] = refl
place_prefilled_eq (in_message tx ∷ sents) =
    rw (place_prefilled-suc sents 0 (some tx) (no_slots (length sents)), place_prefilled_eq sents)
      refl
place_prefilled_eq (in_pool tx ∷ sents) =
    rw (place_prefilled-suc sents 0 none (no_slots (length sents)), place_prefilled_eq sents) refl
place_prefilled_eq (on_request tx ∷ sents) =
    rw (place_prefilled-suc sents 0 none (no_slots (length sents)), place_prefilled_eq sents) refl

fill_matches_eq :
    (short : Transaction → List ℕ) (matches : Mempool) (sents : List Sent) (i : ℕ)
    → All (IsMatched short matches) sents
    → fill_matches matches i (placed_of sents) (short_ids_of short sents)
      ≡ ok (filled_of sents, missing_from i sents)
unfolding fill_matches short_ids_of IsMatched
fill_matches_eq short matches [] i all = refl
fill_matches_eq short matches (in_message tx ∷ sents) i (h, hs) =
    rw (fill_matches_eq short matches sents (suc i) hs) refl
fill_matches_eq short matches (in_pool tx ∷ sents) i (h, hs) =
    rw (fill_matches_eq short matches sents (suc i) hs, h) refl
fill_matches_eq short matches (on_request tx ∷ sents) i (h, hs) =
    rw (fill_matches_eq short matches sents (suc i) hs, h) refl

abbrev put_front : Option Transaction → Slots × List ℕ → Slots × List ℕ
put_front s (slots, missing) = (s ∷ slots, missing)

fill_missing-suc :
    (sents : List Sent) (i : ℕ) (s : Option Transaction) (slots : Slots)
    → fill_missing (missing_from (suc i) sents) (requested sents) (s ∷ slots) ≡ (do
      filled ← fill_missing (missing_from i sents) (requested sents) slots
      ok (put_front s filled))
unfolding fill_missing requested set_slot
fill_missing-suc [] i s slots = refl
fill_missing-suc (in_message tx ∷ sents) i s slots = fill_missing-suc sents (suc i) s slots
fill_missing-suc (in_pool tx ∷ sents) i s slots = fill_missing-suc sents (suc i) s slots
fill_missing-suc (on_request tx ∷ sents) i s slots =
    bind-front s (put_front s) (fill_missing (missing_from (suc (suc i)) sents) (requested sents))
      (fill_missing (missing_from (suc i) sents) (requested sents))
      (fill_missing-suc sents (suc i) s) (set_slot i tx slots)

fill_missing_eq :
    (sents : List Sent)
    → fill_missing (missing_from 0 sents) (requested sents) (filled_of sents)
      ≡ ok (map (λ sent. some (sent_tx sent)) sents, [])
unfolding fill_missing requested set_slot sent_tx
fill_missing_eq [] = refl
fill_missing_eq (in_message tx ∷ sents) =
    rw (fill_missing-suc sents 0 (some tx) (filled_of sents), fill_missing_eq sents) refl
fill_missing_eq (in_pool tx ∷ sents) =
    rw (fill_missing-suc sents 0 (some tx) (filled_of sents), fill_missing_eq sents) refl
fill_missing_eq (on_request tx ∷ sents) =
    rw (fill_missing-suc sents 0 (some tx) (filled_of sents), fill_missing_eq sents) refl

count_eq :
    (short : Transaction → List ℕ) (sents : List Sent) (i : ℕ)
    → length (short_ids_of short sents) + length (prefilled_from i sents) ≡ length sents
unfolding short_ids_of prefilled_from
count_eq short [] i = refl
count_eq short (in_message tx ∷ sents) i = let ih = count_eq short sents (suc i) in omega arith
count_eq short (in_pool tx ∷ sents) i = let ih = count_eq short sents (suc i) in omega arith
count_eq short (on_request tx ∷ sents) i = let ih = count_eq short sents (suc i) in omega arith

-- A compact block that sends some transactions of a block by index and the others by short id, where the mempool's
-- matches hold, under the short id of each of the others, that transaction or nothing: with the transactions that
-- were not matched as the missing ones, in their order, every slot gets the block's transaction at its place, and
-- nothing is missing.
pub fill_block_complete :
    (short : Transaction → List ℕ) (matches : Mempool) (msg : CompactBlockMessage)
    (sents : List Sent)
    → msg.short_ids ≡ short_ids_of short sents
    → msg.prefilled_txns ≡ prefilled_from 0 sents
    → All (IsMatched short matches) sents
    → fill_block matches msg (requested sents) ≡ ok (map (λ sent. some (sent_tx sent)) sents, [])
unfolding fill_block
fill_block_complete short matches msg sents ids prefilled all =
    rw
      (
        ids,
        prefilled,
        count_eq short sents 0,
        place_prefilled_eq sents,
        fill_matches_eq short matches sents 0 all,
        fill_missing_eq sents,
      )
      refl
