-- ===== src/Prices.antt =====
-- internal/indexer/prices.go: the cache of token prices, and the conversion of a token's price.
-- The lock of `PriceMap` makes each operation one step. A slice that a map holds is written in
-- place; the map's entry then is the written slice.
pub mod Search
pub mod Bisect
pub mod Storing
pub mod Nearby
pub mod Interpolating
pub mod Sorting
pub mod Stored
use osmosis_publisher.Prelude.{
  ℕ, suc, ◌+◌, ◌-◌, ◌*◌, Bool, true, false, ◌||◌, List, [], ◌∷◌, ◌++◌, map, Option, none, some, ltb,
  leb, length, get_elem?, option_list, option_or, set, take, drop, ℤ, pos, negsuc, ◌-ℤ◌, saturate64,
  ◌==◌, nat_eq, int_eq, text_eq, if◌then◌else◌, Map, lookup, insert, Text, codes, to_lower, ltb_ℤ,
  sort_by, is_empty,
}
use osmosis_publisher.Types.{TokenPrice, Time, Duration, hour, nanos_per_hour, Float64}
use Search.{binary_search, compare_function}

-- The prices by token name.
abbrev pub PriceMap : Type 0 → Type 0
PriceMap F = Map Text (List (TokenPrice F))

module _ {F : Type 0} where
  -- The array after a price was stored at the place that the search found: a write over the
  -- price of that time, an append, or slices.Insert.
  unfoldable pub store_at : List (TokenPrice F) → TokenPrice F → ℕ × Bool → List (TokenPrice F)
  store_at arr price (index, found) =
      if found
      then set arr index price
      else if index == length arr
      then arr ++ price ∷ []
      else take index arr ++ price ∷ drop index arr

  unfoldable pub store : List (TokenPrice F) → TokenPrice F → List (TokenPrice F)
  unfolding store_at
  store arr price = store_at arr price (binary_search arr price.last_updated)

  -- PriceMap.Set, with its answer whether the array now needs to be sorted.
  unfoldable pub set_price : PriceMap F → TokenPrice F → PriceMap F × Bool
  unfolding store
  set_price prices price =
      (insert price.name (store (option_or (lookup price.name prices) []) price) prices, false)

  -- The prices that PriceMap.Nearest returns for the place that the search found.
  unfoldable pub nearest_at : List (TokenPrice F) → ℕ × Bool → List (TokenPrice F)
  nearest_at arr (index, found) =
      if index == 0 || found
      then option_list (get_elem? arr index)
      else if leb (length arr) index
      then option_list (get_elem? arr (length arr - 1))
      else option_list (get_elem? arr (index - 1)) ++ option_list (get_elem? arr index)

  unfoldable pub nearest_in : List (TokenPrice F) → Time → List (TokenPrice F)
  unfolding nearest_at
  nearest_in arr t = if is_empty arr then [] else nearest_at arr (binary_search arr t)

  -- PriceMap.Nearest
  unfoldable pub nearest : PriceMap F → Time → Text → List (TokenPrice F)
  unfolding nearest_in
  nearest prices t name = elim (lookup name prices) [ none ↦ [] | some arr ↦ nearest_in arr t ]

  -- PriceMap.Prune drops nothing.
  unfoldable pub prune : PriceMap F → Time → PriceMap F × ℕ
  prune prices min_last_updated = (prices, 0)

  abbrev pub is_before : TokenPrice F → TokenPrice F → Bool
  unfolding compare_function
  is_before a b = ltb_ℤ (compare_function a b.last_updated) (pos 0)

  -- PriceMap.SortToken: slices.SortFunc orders the array by time.
  unfoldable pub sort_token : PriceMap F → Text → PriceMap F
  sort_token prices denom = elim (lookup denom prices) [
    | none ↦ prices
    | some arr ↦ insert denom (sort_by is_before arr) prices
  ]

  sort_names : List (Text × List (TokenPrice F)) → PriceMap F → PriceMap F
  unfolding sort_token
  sort_names [] prices = prices
  sort_names ((name, arr) ∷ rest) prices = sort_names rest (sort_token prices name)

  -- PriceMap.Sort
  unfoldable pub sort : PriceMap F → PriceMap F
  unfolding sort_names
  sort prices = sort_names prices prices

module _ {F : Type 0} ⦃float : Float64 F⦄ where
  -- What PriceMap.Estimate makes of the nearest prices: an estimate and its error in time.
  unfoldable pub estimate_from : List (TokenPrice F) → Time → F × Duration
  estimate_from [] t = (float.nought, pos (48 * nanos_per_hour))
  estimate_from (p ∷ []) t = (p.value, saturate64 (t -ℤ p.last_updated))
  estimate_from (p ∷ q ∷ _) t =
      let d = saturate64 (t -ℤ p.last_updated) in
      let delta_t = saturate64 (q.last_updated -ℤ p.last_updated) in
      let delta_p = float.sub q.value p.value in
      if delta_t == pos 0 then (p.value, delta_t) else (
        float.add p.value (float.div (float.mul (float.seconds d) delta_p) (float.seconds delta_t)),
        delta_t,
      )

  unfoldable pub estimate : PriceMap F → Time → Text → F × Duration
  unfolding estimate_from
  estimate prices t denom = estimate_from (nearest prices t denom) t

  unfoldable token_mapping : Map Text F
  token_mapping = (codes "OSMO", float.micro) ∷ (codes "ATOM", float.micro) ∷ []

  -- convertToMicroToken: the name, the value, and whether it was converted.
  unfoldable pub convert_to_micro_token : Text → F → Text × F × Bool
  unfolding token_mapping
  convert_to_micro_token token value = elim (lookup token token_mapping) [
    | some factor ↦ (codes "u" ++ to_lower token, float.mul value factor, true)
    | none ↦ (token, value, false)
  ]
