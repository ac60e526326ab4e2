-- ===== src/Tests/Pricing.antt =====
-- Tests and witnesses of the price cache.
use osmosis_publisher.Prelude.{
  ℕ, pos, text_eq, int_eq, ◌==◌, ◌&&◌, ◌≡◌, refl, List, [], ◌∷◌, some, lookup, insert, text_beq,
  if◌then◌else◌,
}
use osmosis_publisher.Types.{TokenPrice}
use osmosis_publisher.Prices.{set_price, store, store_at, nearest, estimate}
use osmosis_publisher.Prices.Search.{is_hit, binary_search, search_loop, is_below, compare_function}
use osmosis_publisher.Prices.Storing.{IsValid, set_price-IsValid, price_at, price_at-set_price}
use osmosis_publisher.Prices.Nearby.{IsNearest, nearest-IsNearest}
use osmosis_publisher.Prices.Interpolating.{IsEstimate, estimate-IsEstimate}
use osmosis_publisher.Prices.Stored.{estimate-set_price}
use osmosis_publisher.Tests.{whole, uosmo, early, late, price_of, one_price, two_prices}

none-IsValid : IsValid {F = ℕ} []
unfolding lookup
none-IsValid name arr h = cc

one-IsValid : IsValid one_price
unfolding one_price
one-IsValid = set_price-IsValid [] early none-IsValid

two-IsValid : IsValid two_prices
unfolding two_prices
two-IsValid = set_price-IsValid one_price late one-IsValid

abbrev arr : List (TokenPrice ℕ)
arr = early ∷ late ∷ []

two_found : lookup uosmo two_prices ≡ some arr
unfolding two_prices one_price set_price store store_at lookup insert binary_search search_loop
    is_below is_hit compare_function text_beq
two_found = refl

set_price-IsValid_example : IsValid (set_price two_prices (price_of 20 4)).0
set_price-IsValid_example = set_price-IsValid two_prices (price_of 20 4) two-IsValid

price_at-set_price_example : price_at (set_price two_prices (price_of 20 4)).0 uosmo (pos 20) ≡ (
    if uosmo == uosmo && pos 20 == pos 20
    then some (price_of 20 4)
    else price_at two_prices uosmo (pos 20))
price_at-set_price_example =
    price_at-set_price two_prices (price_of 20 4) uosmo (pos 20) two-IsValid

nearest-IsNearest_example : IsNearest (pos 20) arr (nearest two_prices (pos 20) uosmo)
nearest-IsNearest_example = nearest-IsNearest two_prices uosmo (pos 20) arr two-IsValid two_found

estimate-IsEstimate_example : IsEstimate (pos 20) arr (estimate two_prices (pos 20) uosmo)
estimate-IsEstimate_example =
    estimate-IsEstimate two_prices uosmo (pos 20) arr two-IsValid two_found

estimate-set_price_example :
    estimate (set_price two_prices (price_of 20 4)).0 (pos 20) uosmo ≡ (4, pos 0)
estimate-set_price_example = estimate-set_price two_prices (price_of 20 4) two-IsValid
