-- ===== src/Network/Gcs/Members.antt =====
-- What a filter answers on the items that it was made from.
use go_bitcoin.Base.{
  ℕ, suc, ◌+◌, ◌-◌, ◌*◌, ◌%◌, ◌^◌, ◌≤◌, ◌<◌, Bool, true, false, List, [], ◌∷◌, map, All, inl, inr,
}
use go_bitcoin.Base.{◌==◌, ltb, if◌then◌else◌, length, ok, ◌≡◌, refl, ap, subst, ◌∙◌, arith}
use go_bitcoin.Encoding.BitStream.{BitStream, new_bit_stream, new_bit_stream_from_slice, bytes}
use go_bitcoin.Encoding.BitStream.Reading.{Shows}
use go_bitcoin.Encoding.BitStream.Writing.{new_bit_stream-Written}
use go_bitcoin.Encoding.BitStream.Finished.{Shows-bytes}
use go_bitcoin.Network.Reduction.{fast_reduction, hash_to_range, hash_to_range_lt}
use go_bitcoin.Network.Gcs.{
  GolombCodedSet, basic_m, basic_p, sort, hash_all, hashed_set_construct, new_gcs, match_from,
  match,
}
use go_bitcoin.Base.Membership.{Has}
use go_bitcoin.Network.Gcs.Sorting.{
  IsAscending, Has-IsAscending, sort-IsAscending, sort-Has, sort-All, length-sort,
}
use go_bitcoin.Network.Gcs.Coding.{codes, golomb_decode-Shows, encode_deltas-Written}

-- The loop over the codes of ascending numbers finds each of them.
match_from-Has :
    (xs : List ℕ) (p target last : ℕ) (s : BitStream)
    → 2 ^ p ≤ 2 ^ 63
    → IsAscending last xs
    → All (λ x. x < 2 ^ 63) xs
    → Has target xs
    → Shows (codes p last xs) s
    → match_from (length xs) p target last s ≡ ok true
unfolding match_from
match_from-Has [] p target last s small a h has shown = absurd has
match_from-Has (x ∷ xs) p target last s small (le, a) (hx, hs) (inl e) shown =
    let (s', decoded, more) =
      golomb_decode-Shows p (x - last) (codes p x xs) s small (omega arith) shown in
    let current : (last + (x - last)) % 2 ^ 64 ≡ x = omega arith in
    let found : (x == target) ≡ true = ground arith in rw (decoded, current, found) refl
match_from-Has (x ∷ xs) p target last s small (le, a) (hx, hs) (inr has) shown =
    let (s', decoded, more) =
      golomb_decode-Shows p (x - last) (codes p x xs) s small (omega arith) shown in
    let current : (last + (x - last)) % 2 ^ 64 ≡ x = omega arith in
    let not_passed : ltb target x ≡ false = ground (arith, Has-IsAscending x target xs a has) in
    rw (decoded, current, not_passed, match_from-Has xs p target x s' small a hs has more)
      (either (x == target))
  where
    either : (b : Bool) → (if b then ok true else ok true) ≡ ok true
    either true = refl
    either false = refl

module _ (sip_hash : List ℕ → ℕ) where
  -- The value that an item is filtered by
  abbrev value : ℕ → List ℕ → ℕ
  value n item = fast_reduction (sip_hash item) (n * basic_m % 2 ^ 64)

  hash_to_range_eq :
      (n : ℕ) (item : List ℕ)
      → 0 < n
      → n < 2 ^ 32
      → hash_to_range sip_hash item n basic_m ≡ ok (value n item)
  unfolding hash_to_range
  hash_to_range_eq n item p h = ground arith

  hash_all_eq :
      (n : ℕ) (items : List (List ℕ))
      → 0 < n
      → n < 2 ^ 32
      → hash_all sip_hash items n basic_m ≡ ok (map (value n) items)
  unfolding hash_all
  hash_all_eq n [] p h = refl
  hash_all_eq n (item ∷ items) p h = rw (hash_to_range_eq n item p h, hash_all_eq n items p h) refl

  map-Has :
      (n : ℕ) (item : List ℕ) (items : List (List ℕ))
      → Has item items
      → Has (value n item) (map (value n) items)
  map-Has n item [] h = absurd h
  map-Has n item (x ∷ items) (inl e) = inl (ap (value n) e)
  map-Has n item (x ∷ items) (inr h) = inr (map-Has n item items h)

  length-map : (n : ℕ) (items : List (List ℕ)) → length (map (value n) items) ≡ length items
  length-map n [] = refl
  length-map n (x ∷ items) = ap suc (length-map n items)

  value-lt :
      (n : ℕ) (item : List ℕ) → 0 < n → n < 2 ^ 32 → sip_hash item < 2 ^ 64 → value n item < 2 ^ 63
  value-lt n item p h k =
      let bound : value n item < n * basic_m =
        hash_to_range_lt sip_hash item n basic_m (value n item) k p (omega arith)
          (hash_to_range_eq n item p h) in
      omega arith

  map-All :
      (n : ℕ) (items : List (List ℕ))
      → 0 < n
      → n < 2 ^ 32
      → ((item : List ℕ) → sip_hash item < 2 ^ 64)
      → All (λ x. x < 2 ^ 63) (map (value n) items)
  map-All n [] p h k = tt
  map-All n (item ∷ items) p h k = (value-lt n item p h (k item), map-All n items p h k)

  -- From fewer than 2^32 items, one at least, NewGCS makes a filter, and Match answers true on each of
  -- the items: there are no false negatives. SipHash is any function to 64-bit numbers.
  pub new_gcs-match :
      (items : List (List ℕ))
      → 0 < length items
      → length items < 2 ^ 32
      → ((item : List ℕ) → sip_hash item < 2 ^ 64)
      → (g : GolombCodedSet) × (new_gcs sip_hash items ≡ ok g)
        × ((item : List ℕ) → Has item items → match sip_hash g item ≡ ok true)
  unfolding new_gcs hashed_set_construct match
  new_gcs-match items some few hashes =
      let n = length items in
      let values = map (value n) items in
      let sorted = sort values in
      let small = sort-All (2 ^ 63) values (map-All n items some few hashes) in
      let ascending = sort-IsAscending values in
      let (out, encoded, written) =
        encode_deltas-Written basic_p 0 sorted [] new_bit_stream ascending small
          new_bit_stream-Written in
      let shown = Shows-bytes (codes basic_p 0 sorted) out written in
      let count : length sorted ≡ n = length-sort values ∙ length-map n items in
      (
        record { num_items = n; p = basic_p; m = basic_m; filter = bytes out },
        rw (hash_all_eq n items some few, encoded) refl,
        (λ item has.
            let there = sort-Has (value n item) values (map-Has n item items has) in
            let found =
              match_from-Has sorted basic_p (value n item) 0 (new_bit_stream_from_slice (bytes out))
                (omega arith) ascending small there shown in
            let found' : match_from n basic_p (value n item) 0
                  (new_bit_stream_from_slice (bytes out))
                ≡ ok true =
              subst
                (λ k.
                  match_from k basic_p (value n item) 0 (new_bit_stream_from_slice (bytes out))
                  ≡ ok true)
                count found in
            rw (hash_to_range_eq n item some few) found'),
      )
