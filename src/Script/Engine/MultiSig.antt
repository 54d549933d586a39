-- ===== src/Script/Engine/MultiSig.antt =====
-- OP_CHECKMULTISIG against the rule that the signatures are by some of the keys, in their order.
use go_bitcoin.Base.{ℕ, ◌-◌, ◌^◌, ◌<◌, Bool, true, false, List, [], ◌∷◌, ◌++◌}
use go_bitcoin.Base.{All, if◌then◌else◌, length, length-append, Bool-cases, inl, inr}
use go_bitcoin.Base.{Result, ok, ◌≡◌, ◌↔◌, refl, ap, ◌∙◌, arith}
use go_bitcoin.Base.BigInt.{set_bytes}
use go_bitcoin.Script.Command.{ScriptCommand}
use go_bitcoin.Script.Num.{decode_num}
use go_bitcoin.Script.Engine.{ScriptEngine, pop, push_data}
use go_bitcoin.Script.Engine.CheckSig.{Crypto, check_sig_helper, checked_count, pop_many, match_all}
use go_bitcoin.Script.Engine.CheckSig.{op_check_multi_sig}

-- Each signature is by a key of its own, and they stand in the order of their keys.
pub data IsSignedBy (valid : ScriptCommand → ScriptCommand → Bool)
    : List ScriptCommand → List ScriptCommand → Type 0 where
  all_found : {keys : List ScriptCommand} → IsSignedBy valid keys []
  by_key :
      {key sig : ScriptCommand} {keys sigs : List ScriptCommand}
      → valid key sig ≡ true
      → IsSignedBy valid keys sigs
      → IsSignedBy valid (key ∷ keys) (sig ∷ sigs)
  not_by :
      {key : ScriptCommand} {keys sigs : List ScriptCommand}
      → IsSignedBy valid keys sigs
      → IsSignedBy valid (key ∷ keys) sigs

module _ (valid : ScriptCommand → ScriptCommand → Bool) where
  without_first :
      {keys : List ScriptCommand} {sig : ScriptCommand} {sigs : List ScriptCommand}
      → IsSignedBy valid keys (sig ∷ sigs)
      → IsSignedBy valid keys sigs
  without_first (by_key v d) = not_by d
  without_first (not_by d) = not_by (without_first d)

  both_tails :
      {key sig : ScriptCommand} {keys sigs : List ScriptCommand}
      → IsSignedBy valid (key ∷ keys) (sig ∷ sigs)
      → IsSignedBy valid keys sigs
  both_tails (by_key v d) = d
  both_tails (not_by d) = without_first d

  later_key :
      {key sig : ScriptCommand} {keys sigs : List ScriptCommand}
      → valid key sig ≡ false
      → IsSignedBy valid (key ∷ keys) (sig ∷ sigs)
      → IsSignedBy valid keys (sig ∷ sigs)
  later_key no_match (by_key v d) = cc
  later_key no_match (not_by d) = d

-- Each signature's check against each key returns, with the verdict that `valid` names.
abbrev pub IsChecked :
    (ScriptCommand → ScriptCommand → Result Bool)
    → (ScriptCommand → ScriptCommand → Bool)
    → List ScriptCommand
    → List ScriptCommand
    → Type 0
IsChecked check valid keys sigs =
    All (λ key. All (λ sig. check key sig ≡ ok (valid key sig)) sigs) keys

module _ (check : ScriptCommand → ScriptCommand → Result Bool)
    (valid : ScriptCommand → ScriptCommand → Bool) where
  fewer_sigs :
      (keys : List ScriptCommand) (sig : ScriptCommand) (sigs : List ScriptCommand)
      → IsChecked check valid keys (sig ∷ sigs)
      → IsChecked check valid keys sigs
  fewer_sigs [] sig sigs h = tt
  fewer_sigs (key ∷ keys) sig sigs ((h, hs), more) = (hs, fewer_sigs keys sig sigs more)

  match_all_complete :
      (keys sigs : List ScriptCommand)
      → IsChecked check valid keys sigs
      → IsSignedBy valid keys sigs
      → match_all check keys sigs ≡ ok true
  unfolding match_all
  match_all_complete [] [] h d = refl
  match_all_complete (key ∷ keys) [] h d = refl
  match_all_complete [] (sig ∷ sigs) h d = elim d [ ]
  match_all_complete (key ∷ keys) (sig ∷ sigs) ((e, _), h) d = elim (Bool-cases (valid key sig)) [
    | inl v ↦
        rw (e, v) (match_all_complete keys sigs (fewer_sigs keys sig sigs h) (both_tails valid d))
    | inr v ↦ rw (e, v) (match_all_complete keys (sig ∷ sigs) h (later_key valid v d))
  ]

  match_all_sound :
      (keys sigs : List ScriptCommand)
      → IsChecked check valid keys sigs
      → match_all check keys sigs ≡ ok true
      → IsSignedBy valid keys sigs
  unfolding match_all
  match_all_sound keys [] h r = all_found
  match_all_sound [] (sig ∷ sigs) h r = cc
  match_all_sound (key ∷ keys) (sig ∷ sigs) ((e, _), h) r = elim (Bool-cases (valid key sig)) [
    | inl v ↦ by_key v (match_all_sound keys sigs (fewer_sigs keys sig sigs h) (rw (e, v) at r))
    | inr v ↦ not_by (match_all_sound keys (sig ∷ sigs) h (rw (e, v) at r))
  ]

  match_all-total :
      (keys sigs : List ScriptCommand)
      → IsChecked check valid keys sigs
      → (b : Bool) × (match_all check keys sigs ≡ ok b)
  unfolding match_all
  match_all-total [] [] h = (true, refl)
  match_all-total (key ∷ keys) [] h = (true, refl)
  match_all-total [] (sig ∷ sigs) h = (false, refl)
  match_all-total (key ∷ keys) (sig ∷ sigs) ((e, _), h) = elim (Bool-cases (valid key sig)) [
    | inl v ↦ rw (e, v) (match_all-total keys sigs (fewer_sigs keys sig sigs h))
    | inr v ↦ rw (e, v) (match_all-total keys (sig ∷ sigs) h)
  ]

pop_many-append :
    (keys rest : List ScriptCommand) (se : ScriptEngine)
    → pop_many (length keys) (record se { stack = keys ++ rest })
      ≡ ok (keys, record se { stack = rest })
unfolding pop_many
pop_many-append [] rest se = refl
pop_many-append (key ∷ keys) rest se = rw (pop_many-append keys rest se)

checked_count-enough :
    (n : ℕ) (se : ScriptEngine) → n < 2 ^ 63 - 1 → n < length se.stack → checked_count n se ≡ ok n
unfolding checked_count
checked_count-enough n se h k = ground arith

long_enough :
    (items : List ScriptCommand) (last : ScriptCommand) (below : List ScriptCommand)
    → length items < length (items ++ (last ∷ below))
long_enough items last below = rw (length-append items (last ∷ below)) (omega arith)

-- With m signatures over n keys on the stack OP_CHECKMULTISIG replaces them by one item, 1 when the
-- signatures are by some of the keys in the order of the keys and 0 otherwise, for counts below 2^63 - 1
-- and keys and signatures whose checks return, by the verdicts of these checks.
pub op_check_multi_sig-eq :
    (c : Crypto) (se : ScriptEngine) (valid : ScriptCommand → ScriptCommand → Bool)
    (num_n num_m filler : ScriptCommand) (keys sigs below : List ScriptCommand)
    → IsChecked (λ key sig. check_sig_helper c key sig (set_bytes se.z)) valid keys sigs
    → decode_num num_n.bytes ≡ length keys
    → decode_num num_m.bytes ≡ length sigs
    → length keys < 2 ^ 63 - 1
    → length sigs < 2 ^ 63 - 1
    → (b : Bool) × (op_check_multi_sig c
          (record se { stack = num_n ∷ keys ++ (num_m ∷ sigs ++ (filler ∷ below)) })
        ≡ ok (push_data (if b then 0x01 ∷ [] else 0x00 ∷ []) (record se { stack = below })))
      × ((b ≡ true) ↔ IsSignedBy valid keys sigs)
unfolding op_check_multi_sig pop
op_check_multi_sig-eq c se valid num_n num_m filler keys sigs below checked en em kn km =
    let check : ScriptCommand → ScriptCommand → Result Bool =
      λ key sig. check_sig_helper c key sig (set_bytes se.z) in
    let (b, matched) = match_all-total check valid keys sigs checked in
    let after_sigs = record se { stack = sigs ++ (filler ∷ below) } in
    let after_keys = record se { stack = keys ++ (num_m ∷ sigs ++ (filler ∷ below)) } in
    let counted_m =
      checked_count-enough (length sigs) after_sigs km (long_enough sigs filler below) in
    let counted_n =
      checked_count-enough (length keys) after_keys kn
        (long_enough keys num_m (sigs ++ (filler ∷ below))) in
    (
      b,
      rw (en, counted_n, pop_many-append keys, em, counted_m, pop_many-append sigs, matched) refl,
      (
        (λ e. match_all_sound check valid keys sigs checked (matched ∙ ap ok e)),
        (λ d. let all = match_all_complete check valid keys sigs checked d in cc),
      ),
    )
