-- ===== src/Prices/Sorting.antt =====
-- PriceMap.SortToken and Sort have nothing to do: PriceMap.Set leaves each array sorted, which is
-- why its answer that no sort is needed is right.
use osmosis_publisher.Prelude.{
  ◌≡◌, refl, List, [], ◌∷◌, arith, ◌<ℤ◌, All, Text, lookup, lookup-insert, sort_by, insert_by,
  ==_cases, inl, inr, Option-cases, text_eq, ◌∙◌, sym,
}
use osmosis_publisher.Types.{TokenPrice}
use osmosis_publisher.Prices.{PriceMap, is_before, sort_token, sort_names, sort}
use osmosis_publisher.Prices.Search.{IsSorted}
use osmosis_publisher.Prices.Storing.{IsValid}

module _ {F : Type 0} where
  first_stays :
      (p : TokenPrice F) (ps : List (TokenPrice F))
      → All (λ q. p.last_updated <ℤ q.last_updated) ps
      → insert_by is_before p ps ≡ p ∷ ps
  unfolding insert_by is_before
  first_stays p [] h = refl
  first_stays p (q ∷ qs) h = ground arith

  -- Sorting a sorted array changes nothing.
  sort_by_sorted : (arr : List (TokenPrice F)) → IsSorted arr → sort_by is_before arr ≡ arr
  unfolding sort_by
  sort_by_sorted [] s = refl
  sort_by_sorted (p ∷ ps) s = rw (sort_by_sorted ps s.1) (first_stays p ps s.0)

  lookup-sort_token :
      (prices : PriceMap F) (denom name : Text)
      → IsValid prices
      → lookup name (sort_token prices denom) ≡ lookup name prices
  unfolding sort_token
  lookup-sort_token prices denom name v = elim (Option-cases (lookup denom prices)) [
    | inl e ↦ rw (e, sort_token)
    | inr (arr, e) ↦
        rw (e, sort_token, lookup-insert, sort_by_sorted arr (v denom arr e).sorted)
          (elim (==_cases denom name) [
            | inl (t, same) ↦ rw t (sym e ∙ rw same)
            | inr (f, _) ↦ rw f
          ])
  ]

  sort_token-IsValid :
      (prices : PriceMap F) (denom : Text) → IsValid prices → IsValid (sort_token prices denom)
  sort_token-IsValid prices denom v name arr h =
      v name arr (sym (lookup-sort_token prices denom name v) ∙ h)

  lookup-sort_names :
      (names : PriceMap F) (prices : PriceMap F) (name : Text)
      → IsValid prices
      → lookup name (sort_names names prices) ≡ lookup name prices
  unfolding sort_names
  lookup-sort_names [] prices name v = refl
  lookup-sort_names ((n, _) ∷ names) prices name v =
      lookup-sort_names names (sort_token prices n) name (sort_token-IsValid prices n v)
      ∙ lookup-sort_token prices n name v

  -- A sort of all arrays of a valid map changes no array.
  lookup-sort :
      (prices : PriceMap F) (name : Text)
      → IsValid prices
      → lookup name (sort prices) ≡ lookup name prices
  unfolding sort
  lookup-sort prices name v = lookup-sort_names prices prices name v
