-- ===== src/Tests/Volumes.antt =====
-- Tests and witnesses of the volumes.
use osmosis_publisher.Prelude.{
  ℕ, ◌+◌, pos, neg, ◌-ℤ◌, ◌+ℤ◌, ◌≡◌, refl, [], ◌∷◌, ◌++◌, map, some, option_or, Member, inl, inr,
  arith, int_laws, lookup, insert, false, ltb_ℤ, to_uint64, to_int64, wrap64, saturate64, quot,
  ◌*ℤ◌, ◌*◌, All, text_eq, text_beq, nat_eq, Map, ◌⊎◌, List, Text, word, ◌≤◌, ◌<◌, sub64,
}
use osmosis_publisher.Types.{ok, panic, TokenPrice, Coin, PoolStatusVolumeAt, nanos_per_hour}
use osmosis_publisher.Pools
use osmosis_publisher.Prices.{
  estimate, estimate_from, nearest, nearest_in, nearest_at, set_price, store, store_at,
}
use osmosis_publisher.Prices.Search.{binary_search, search_loop, is_below, is_hit, compare_function}
use osmosis_publisher.Prices.Storing.{IsValid, set_price-IsValid}
use osmosis_publisher.Indexer.{Indexer}
use osmosis_publisher.Indexer.BlockClock.{block_to_timestamp, quot64, rate_or_default}
use osmosis_publisher.Volume.{
  PriceAt, day, max_slice, coin_value, add_coin, fetch_volume_values_per_block_range,
  calculate_relative_volume_value_cumulatively,
}
use osmosis_publisher.Volume.Fetching.{IsFetched, entries, entry, fetch_sound}
use osmosis_publisher.Volume.Listing.{fetch_complete}
use osmosis_publisher.Volume.Cumulating.{with_traded, cumulatively-traded}
use osmosis_publisher.Volume.Ageing.{newer_price_mismatch}
use osmosis_publisher.Tests.{whole, indexer, uosmo, pool_at, coins, price_of}

abbrev coin : Coin
coin = record { denom = uosmo; amount = pos 7 }

abbrev now_price : TokenPrice ℕ
now_price = price_of 0 3

abbrev priced : Indexer ℕ
priced = record indexer { prices = (uosmo, now_price ∷ []) ∷ [] }

fetch_sound_example :
    ((vm : Map Text (List (PriceAt ℕ))) × (fetch_volume_values_per_block_range priced 8 10 1
        ≡ ok vm)
      × All (IsFetched priced 1 8 (10 + 1) uosmo) (entries priced 1 uosmo vm))
    ⊎ ((fetch_volume_values_per_block_range priced 8 10 1 ≡ panic)
        × ((word ≤ 10 + 1) ⊎ (max_slice < sub64 10 8)))
fetch_sound_example = fetch_sound priced 1 8 10 uosmo (omega arith)

abbrev at_10 : PriceAt ℕ
at_10 = record { height = 10; volume = pos 9; price = 3 }

abbrev at_9 : PriceAt ℕ
at_9 = record { height = 9; volume = pos 7; price = 5 }

abbrev snapshot : PoolStatusVolumeAt ℕ
snapshot = record {
  block_height = pos 9;
  volume = coins;
  volume_usd = [];
  relative_volume_usd = [];
}

cumulatively-traded_example :
    calculate_relative_volume_value_cumulatively (at_10 ∷ at_9 ∷ []) (snapshot ∷ [])
    ≡ map (with_traded 3 0 (pos 9) (at_10 ∷ at_9 ∷ [])) (snapshot ∷ [])
unfolding to_uint64
cumulatively-traded_example =
    cumulatively-traded at_10 (at_9 ∷ []) (snapshot ∷ []) ((omega arith, tt), (tt, tt)) (tt, tt)
      (inr (inl refl), tt)

cached_9 : Pools.get_pool priced.pools 9 1 ≡ some (pool_at 9 1)
unfolding Pools.get_pool lookup
cached_9 = refl

recent_9 : ltb_ℤ day (estimate priced.prices (block_to_timestamp priced 9) uosmo).1 ≡ false
unfolding estimate estimate_from nearest nearest_in nearest_at binary_search search_loop is_below
    is_hit compare_function lookup text_beq block_to_timestamp quot64 rate_or_default wrap64
    to_int64 to_uint64 saturate64 neg quot ◌*ℤ◌ ◌-ℤ◌ ◌+ℤ◌
recent_9 = refl

fetch_complete_example :
    (vm : Map Text (List (PriceAt ℕ))) × (fetch_volume_values_per_block_range priced 8 10 1 ≡ ok vm)
    × Member (entry priced 1 9 coin) (entries priced 1 uosmo vm)
fetch_complete_example =
    fetch_complete priced 1 8 10 9 (pool_at 9 1) coin (omega arith) (omega arith) (omega arith)
      (omega arith) cached_9 (inl refl) recent_9

abbrev future : TokenPrice ℕ
future = price_of (25 * nanos_per_hour) 3

abbrev ahead : Indexer ℕ
ahead = record indexer { prices = (set_price [] future).0 }

ahead-IsValid : IsValid ahead.prices
unfolding lookup
ahead-IsValid = set_price-IsValid [] future (λ name arr h. cc)

ahead_found : lookup uosmo ahead.prices ≡ some (future ∷ [])
unfolding set_price store store_at binary_search search_loop is_below is_hit compare_function lookup
    insert text_beq
ahead_found = refl

newer_price_mismatch_example :
    (coin_value ahead (pos 0) coin ≡ 0)
    × (add_coin ahead 2 9 (pos 0) [] coin
        ≡ ok (
            insert uosmo
              (option_or (lookup uosmo []) []
                ++ record { height = 9; volume = pos 7; price = 3 } ∷ [])
              []))
newer_price_mismatch_example =
    newer_price_mismatch ahead 2 9 (pos 0) [] coin future [] ahead-IsValid ahead_found
      (omega int_laws) (omega int_laws) (omega arith)
