-- ===== src/Volume/Ageing.antt =====
-- How old a price may be: calculateVolumeValueAt and fetchVolumeValuesPerBlockRange differ.
use osmosis_publisher.Prelude.{
  ℕ, ◌≤◌, ltb, Option-cases, inl, inr, refl, ℤ, pos, ◌-ℤ◌, ◌+ℤ◌, ◌≤ℤ◌, ◌<ℤ◌, neg, ◌≡◌, arith, List,
  [], ◌∷◌, ◌++◌, some, true, false, ltb_ℤ, Text, text_eq, Map, lookup, insert, option_or,
  saturate64_exact, wrap64_exact, ◌∙◌, int_laws, max_int64, IsInt64,
}
use osmosis_publisher.Types.{TokenPrice, Time, Coin, Float64, ok}
use osmosis_publisher.Prices.{estimate}
use osmosis_publisher.Prices.Storing.{IsValid}
use osmosis_publisher.Prices.Interpolating.{estimate_before}
use osmosis_publisher.Indexer.{Indexer}
use osmosis_publisher.Volume.{PriceAt, day, abs, coin_value, add_coin, add_price, max_slice}

abs-neg : (e : ℤ) → IsInt64 e → IsInt64 (neg e) → e <ℤ pos 0 → abs e ≡ neg e
unfolding abs
abs-neg e h k n = ground (arith, wrap64_exact (neg e) k)

ltb_ℤ_lt : (a b : ℤ) → a <ℤ b → ltb_ℤ a b ≡ true
ltb_ℤ_lt a b h = ground arith

ltb_ℤ_ge : (a b : ℤ) → b ≤ℤ a → ltb_ℤ a b ≡ false
ltb_ℤ_ge a b h = ground arith

module _ {F : Type 0} ⦃float : Float64 F⦄ where
  add_coin_narrow :
      (d : Indexer F) (width height : ℕ) (t : Time) (vm : Map Text (List (PriceAt F))) (coin : Coin)
      → width ≤ max_slice
      → add_coin d width height t vm coin
        ≡ ok (add_price d height t vm coin (option_or (lookup coin.denom vm) []))
  unfolding add_coin
  add_coin_narrow d width height t vm coin narrow = elim (Option-cases (lookup coin.denom vm)) [
    | inr (vml, e) ↦ rw (add_coin, e) refl
    | inl e ↦
        let f : ltb max_slice width ≡ false = ground (arith, narrow) in rw (add_coin, e, f) refl
  ]

  -- On a valid map, where the first price of a coin's token is more than a day newer than the
  -- time, but by no more than an int64 of nanoseconds, the coin's value at that time is 0, but
  -- the fetch for the relative values takes the coin, at that price, over a range no wider than a
  -- slice may be made.
  pub newer_price_mismatch :
      (d : Indexer F) (width height : ℕ) (t : Time) (vm : Map Text (List (PriceAt F))) (coin : Coin)
      (p : TokenPrice F) (ps : List (TokenPrice F))
      → IsValid d.prices
      → lookup coin.denom d.prices ≡ some (p ∷ ps)
      → t +ℤ day <ℤ p.last_updated
      → p.last_updated -ℤ t ≤ℤ max_int64
      → width ≤ max_slice
      → (coin_value d t coin ≡ float.nought)
        × (add_coin d width height t vm coin
            ≡ ok (
                insert coin.denom
                  (option_or (lookup coin.denom vm) []
                    ++ record { height = height; volume = coin.amount; price = p.value } ∷ [])
                  vm))
  unfolding coin_value add_price
  newer_price_mismatch d width height t vm coin p ps v h early near narrow =
      let e = t -ℤ p.last_updated in
      let small : IsInt64 e = omega int_laws in
      let est : estimate d.prices t coin.denom ≡ (p.value, e) =
        estimate_before d.prices coin.denom t p ps v h (omega int_laws)
        ∙ (rw (saturate64_exact e small)) in
      let size : abs e ≡ neg e = abs-neg e small (omega int_laws) (omega int_laws) in
      (
        rw (est, size, ltb_ℤ_lt day (neg e) (omega int_laws)),
        add_coin_narrow d width height t vm coin narrow
            ∙ rw (add_price, est, ltb_ℤ_ge day e (omega int_laws)) refl,
      )
