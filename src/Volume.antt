-- ===== src/Volume.antt =====
-- internal/indexer/volume.go: the value of pool volumes, at a price of the time of their block, and
-- relative to the newest block.
pub mod Making
pub mod Fetching
pub mod Listing
pub mod Cumulating
pub mod Growing
pub mod Ageing
use osmosis_publisher.Prelude.{
  ℕ, zero, suc, ℤ, pos, ◌-ℤ◌, neg, ◌+◌, ◌-◌, ◌*◌, List, [], ◌∷◌, ◌++◌, map, Option, none, some,
  Bool, if◌then◌else◌, ltb, leb, ltb_ℤ, Text, text_eq, codes, Map, lookup, insert, option_or,
  to_int64, to_uint64, wrap64, sub64, add64, sort_by, is_empty, word, ◌^◌, ◌/◌,
}
use osmosis_publisher.Types.{
  Time, Duration, Coin, Coins, Pool, PoolStatus, PoolStatusVolumeAt, Float64, nanos_per_hour,
  Result, ok, err, panic,
}
use osmosis_publisher.Pools
use osmosis_publisher.Prices.{estimate}
use osmosis_publisher.Indexer.{Indexer}
use osmosis_publisher.Indexer.BlockClock.{block_to_timestamp}

abbrev base_volume_denom : Text
base_volume_denom = codes "uosmo"

abbrev pub day : Duration
day = pos (24 * nanos_per_hour)

-- The closure `abs` of calculateVolumeValueAt: the least int64 is its own negation.
unfoldable pub abs : Duration → Duration
abs d = if ltb_ℤ d (pos 0) then wrap64 (neg d) else d

pub record PriceAt (F : Type 0) : Type 0 where
  pub height : ℕ
  pub volume : ℤ
  pub price : F

-- The most that a slice of priceAt is made for on a 64-bit machine: a priceAt has 48 bytes, and what
-- needs more than 2 ^ 48 bytes panics. That less may not be there is not modelled.
abbrev pub max_slice : ℕ
max_slice = 2 ^ 48 / 48

module _ {F : Type 0} ⦃float : Float64 F⦄ where
  abbrev pub calculate_price : ℤ → F → F
  calculate_price volume price = float.scale volume price

  abbrev calculate_coin_price : Coin → F → F
  calculate_coin_price coin price = calculate_price coin.amount price

  -- The value of a coin at a time: 0 if no price is less than a day away.
  unfoldable pub coin_value : Indexer F → Time → Coin → F
  coin_value d timestamp coin =
      let (value, duration_error) = estimate d.prices timestamp coin.denom in
      if ltb_ℤ day (abs duration_error) then float.nought else calculate_coin_price coin value

  unfoldable calculate_volume_value_at : Indexer F → ℤ → Coins → List F
  unfolding coin_value
  calculate_volume_value_at d height coins =
      let timestamp = block_to_timestamp d (to_uint64 height) in map (coin_value d timestamp) coins

  -- What is left of a round of the inner loop of fetchVolumeValuesPerBlockRange, with the entries of
  -- the coin's denomination.
  unfoldable pub add_price :
      Indexer F
      → ℕ
      → Time
      → Map Text (List (PriceAt F))
      → Coin
      → List (PriceAt F)
      → Map Text (List (PriceAt F))
  add_price d height block_time vm coin vml =
      let (price, duration_error) = estimate d.prices block_time coin.denom in
      if ltb_ℤ day duration_error
      then vm
      else insert coin.denom
          (vml ++ record { height = height; volume = coin.amount; price = price } ∷ []) vm

  -- A round of the inner loop, for a range of `width` heights more than one: the first entries of a
  -- denomination are made with room for as many, and that panics where they are too many.
  unfoldable pub add_coin :
      Indexer F
      → ℕ
      → ℕ
      → Time
      → Map Text (List (PriceAt F))
      → Coin
      → Result (Map Text (List (PriceAt F)))
  unfolding add_price
  add_coin d width height block_time vm coin = elim (lookup coin.denom vm) [
    | some vml ↦ ok (add_price d height block_time vm coin vml)
    | none ↦ if ltb max_slice width then panic else ok (add_price d height block_time vm coin [])
  ]

  unfoldable pub add_coins :
      Indexer F
      → ℕ
      → ℕ
      → Time
      → Coins
      → Map Text (List (PriceAt F))
      → Result (Map Text (List (PriceAt F)))
  unfolding add_coin
  add_coins d width height block_time [] vm = ok vm
  add_coins d width height block_time (coin ∷ coins) vm =
      elim (add_coin d width height block_time vm coin) [
        | ok vm' ↦ add_coins d width height block_time coins vm'
        | err e ↦ err e
        | panic ↦ panic
      ]

  -- A round of its outer loop.
  unfoldable pub add_height :
      Indexer F → ℕ → ℕ → ℕ → Map Text (List (PriceAt F)) → Result (Map Text (List (PriceAt F)))
  unfolding add_coins
  add_height d pool_id width height vm = elim (Pools.get_pool d.pools height pool_id) [
    | none ↦ ok vm
    | some pool ↦ add_coins d width height (block_to_timestamp d height) pool.volume vm
  ]

  -- The outer loop, by the rounds that are left.
  unfoldable pub fetch_rounds :
      Indexer F → ℕ → ℕ → ℕ → ℕ → Map Text (List (PriceAt F)) → Result (Map Text (List (PriceAt F)))
  unfolding add_height
  fetch_rounds d pool_id width zero height vm = ok vm
  fetch_rounds d pool_id width (suc n) height vm = elim (add_height d pool_id width height vm) [
    | ok vm' ↦ fetch_rounds d pool_id width n (height + 1) vm'
    | err e ↦ err e
    | panic ↦ panic
  ]

  -- fetchVolumeValuesPerBlockRange. A panic stands also for the loop that does not end, where the
  -- range goes up to the greatest uint64 and the height counts on from 0.
  unfoldable pub fetch_volume_values_per_block_range :
      Indexer F → ℕ → ℕ → ℕ → Result (Map Text (List (PriceAt F)))
  unfolding fetch_rounds
  fetch_volume_values_per_block_range d lo hi pool_id =
      if leb (word - 1) hi then panic else fetch_rounds d pool_id (sub64 hi lo) (hi + 1 - lo) lo []

  -- The loop of calculateRelativeVolumeValueCumulatively over the prices and the volumes that are
  -- left, with the price and the volume of the round before and the sum so far. The source also
  -- adds the volumes up, and uses that sum for nothing.
  unfoldable pub cumulate :
      F → F → ℤ → List (PriceAt F) → List (PoolStatusVolumeAt F) → List (PoolStatusVolumeAt F)
  cumulate prev_price price_sum prev_volume prices [] = []
  cumulate prev_price price_sum prev_volume [] (v ∷ vs) =
      record v { relative_volume_usd = price_sum ∷ [] } ∷ vs
  cumulate prev_price price_sum prev_volume (p ∷ ps) (v ∷ vs) =
      let delta_volume = prev_volume -ℤ p.volume in
      let avg_price = float.div (float.add prev_price p.price) float.two in
      let total = float.add price_sum (calculate_price delta_volume avg_price) in
      let next = cumulate p.price total p.volume ps vs in
      let same = cumulate p.price total p.volume ps (v ∷ vs) in
      if leb p.height (to_uint64 v.block_height)
      then record v { relative_volume_usd = total ∷ [] } ∷ next
      else same

  -- calculateRelativeVolumeValueCumulatively, which is called with a price at least.
  unfoldable pub calculate_relative_volume_value_cumulatively :
      List (PriceAt F) → List (PoolStatusVolumeAt F) → List (PoolStatusVolumeAt F)
  unfolding cumulate
  calculate_relative_volume_value_cumulatively [] volumes = volumes
  calculate_relative_volume_value_cumulatively (p ∷ ps) volumes =
      cumulate p.price float.nought p.volume (p ∷ ps) volumes

  unfoldable lowest : ℕ → List (PoolStatusVolumeAt F) → ℕ
  lowest lo [] = lo
  lowest lo (v ∷ vs) =
      lowest (if ltb (to_uint64 v.block_height) lo then to_uint64 v.block_height else lo) vs

  unfoldable highest : ℕ → List (PoolStatusVolumeAt F) → ℕ
  highest hi [] = hi
  highest hi (v ∷ vs) =
      highest (if ltb hi (to_uint64 v.block_height) then to_uint64 v.block_height else hi) vs

  -- Both slices are sorted by height, the newest first, by the sign of an int64 difference.
  unfoldable pub price_newer : PriceAt F → PriceAt F → Bool
  price_newer a b = ltb_ℤ (to_int64 (sub64 b.height a.height)) (pos 0)

  unfoldable pub volume_newer : PoolStatusVolumeAt F → PoolStatusVolumeAt F → Bool
  volume_newer a b = ltb_ℤ (wrap64 (b.block_height -ℤ a.block_height)) (pos 0)

  -- What is done with the prices of the volume's denomination.
  unfoldable relative_to :
      Option (List (PriceAt F)) → List (PoolStatusVolumeAt F) → List (PoolStatusVolumeAt F)
  unfolding calculate_relative_volume_value_cumulatively
  relative_to none volumes = volumes
  relative_to (some prices) volumes =
      if is_empty prices
      then volumes
      else calculate_relative_volume_value_cumulatively (sort_by price_newer prices)
          (sort_by volume_newer volumes)

  -- calculateRelativeVolumeValue, the slice of volumes written in place.
  unfoldable calculate_relative_volume_value :
      Indexer F → ℕ → List (PoolStatusVolumeAt F) → Result (List (PoolStatusVolumeAt F))
  unfolding relative_to lowest highest fetch_volume_values_per_block_range
  calculate_relative_volume_value d pool_id volumes =
      let lo = lowest (add64 d.current_block_height 10) volumes in
      let hi = highest 0 volumes in
      if ltb hi lo then ok volumes else elim (fetch_volume_values_per_block_range d lo hi pool_id) [
        | ok vpm ↦ ok (relative_to (lookup base_volume_denom vpm) volumes)
        | err e ↦ err e
        | panic ↦ panic
      ]

  -- A round of the loop of calculatePoolVolumes.
  unfoldable valued : Indexer F → PoolStatusVolumeAt F → PoolStatusVolumeAt F
  unfolding calculate_volume_value_at
  valued d v = record v { volume_usd = calculate_volume_value_at d v.block_height v.volume }

  -- calculatePoolVolumes
  unfoldable calculate_pool_volumes : Indexer F → PoolStatus F → Result (PoolStatus F)
  unfolding valued calculate_relative_volume_value
  calculate_pool_volumes d pool =
      if is_empty pool.volumes
      then ok pool
      else elim (calculate_relative_volume_value d pool.pool_id (map (valued d) pool.volumes)) [
        | ok volumes ↦ ok (record pool { volumes = volumes })
        | err e ↦ err e
        | panic ↦ panic
      ]

  -- CalculateVolumes: its parts return no error.
  unfoldable pub calculate_volumes : Indexer F → List (PoolStatus F) → Result (List (PoolStatus F))
  unfolding calculate_pool_volumes
  calculate_volumes d [] = ok []
  calculate_volumes d (pool ∷ pools) =
      let rest = calculate_volumes d pools in
      elim (calculate_pool_volumes d pool) [
        | ok pool' ↦ elim rest [ ok done ↦ ok (pool' ∷ done) | err e ↦ err e | panic ↦ panic ]
        | err e ↦ err e
        | panic ↦ panic
      ]
