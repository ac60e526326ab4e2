-- ===== src/Prices/Search.antt =====
-- slices.BinarySearchFunc, as internal/indexer/prices.go calls it: the comparison of two prices
-- reads their times only, so the target is a time. A read outside the array, a panic in Go, is no
-- hit and is not below; the search makes none.
use osmosis_publisher.Prelude.{
  ℕ, zero, suc, ◌+◌, ◌/◌, Bool, false, List, [], ◌∷◌, none, some, ltb, length, get_elem?, ltb_ℤ,
  ◌<ℤ◌, All, ℤ, pos, negsuc, int_beq, if◌then◌else◌,
}
use osmosis_publisher.Types.{TokenPrice, Time}

-- The loop of the search: `below h` is `cmp(x[h], target) < 0`.
unfoldable pub search_loop : (ℕ → Bool) → ℕ → ℕ → ℕ → ℕ
search_loop below zero i j = i
search_loop below (suc fuel) i j =
    let h = (i + j) / 2 in
    let upper = search_loop below fuel (h + 1) j in
    let lower = search_loop below fuel i h in
    if ltb i j then (if below h then upper else lower) else i

module _ {F : Type 0} where
  -- a.LastUpdated.Compare(t)
  unfoldable pub compare_function : TokenPrice F → Time → ℤ
  compare_function a t =
      if ltb_ℤ a.last_updated t then negsuc 0 else if int_beq a.last_updated t then pos 0 else pos 1

  unfoldable pub is_below : List (TokenPrice F) → Time → ℕ → Bool
  unfolding compare_function
  is_below arr t h = elim (get_elem? arr h) [
    | none ↦ false
    | some p ↦ ltb_ℤ (compare_function p t) (pos 0)
  ]

  unfoldable pub is_hit : List (TokenPrice F) → Time → ℕ → Bool
  unfolding compare_function
  is_hit arr t h = elim (get_elem? arr h) [
    | none ↦ false
    | some p ↦ int_beq (compare_function p t) (pos 0)
  ]

  -- Each round halves the range, so a round more than its width is fuel enough.
  unfoldable pub binary_search : List (TokenPrice F) → Time → ℕ × Bool
  unfolding search_loop is_below is_hit
  binary_search arr t =
      let i = search_loop (is_below arr t) (suc (length arr)) 0 (length arr) in (i, is_hit arr t i)

  -- Each array holds a token's prices, the oldest first, no two of one time.
  abbrev pub IsSorted : List (TokenPrice F) → Type 0
  IsSorted [] = Unit
  IsSorted (p ∷ ps) = All (λ q. p.last_updated <ℤ q.last_updated) ps × IsSorted ps

  -- How many prices at the front are older than `t`.
  unfoldable pub rank : Time → List (TokenPrice F) → ℕ
  rank t [] = 0
  rank t (p ∷ ps) = if ltb_ℤ p.last_updated t then suc (rank t ps) else 0
