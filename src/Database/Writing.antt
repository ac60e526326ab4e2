-- ===== src/Database/Writing.antt =====
-- The writes of internal/repository/mutation.go, and the repository that they and the reads make.
use osmosis_publisher.Prelude.{ℕ, ltb, ltb_ℤ, Text, Option, none, some}
use osmosis_publisher.Types.{Time, TokenPrice, Pool, DenomTrace, Error, Result, ok, err, zero_time}
use osmosis_publisher.Interfaces.{Repository}
use osmosis_publisher.Database.{IbcDenomRow, TokenPriceRow, PoolRow, Tables}
use osmosis_publisher.Database.Reading.{
  CoinsText, unix_nano, ibc_denom, ibc_denom_all, token_price, nearest_token_price,
  latest_token_price, latest_pool, pools_range, token_prices_range,
}

-- ON CONFLICT DO NOTHING
abbrev pub keep_old : {R : Type 0} → R → R → R
keep_old old new = old

-- ON CONFLICT DO UPDATE of the columns value and last_updated.
abbrev pub with_new_price : {F : Type 0} → TokenPriceRow F → TokenPriceRow F → TokenPriceRow F
with_new_price old new = record old { value = new.value; last_updated = new.last_updated }

-- ON CONFLICT DO UPDATE of the columns liquidity, volume and timestamp.
abbrev pub with_new_pool : PoolRow → PoolRow → PoolRow
with_new_pool old new = record old {
  liquidity = new.liquidity;
  volume = new.volume;
  timestamp = new.timestamp;
}

-- The number and the error of a deletion.
abbrev pub removed : {D : Type 0} → (ℕ × Option Error) × D → Result ℕ × D
removed ((n, none), d) = (ok n, d)
removed ((n, some e), d) = (err e, d)

unfoldable pub ibc_denom_row : (DenomTrace → Text) → DenomTrace → IbcDenomRow
ibc_denom_row ibc_of t = record {
  created_at = zero_time;
  updated_at = zero_time;
  ibc = ibc_of t;
  path = t.path;
  base_denom = t.base_denom;
}

unfoldable pub token_price_row : {F : Type 0} → TokenPrice F → TokenPriceRow F
token_price_row price = record {
  created_at = zero_time;
  updated_at = zero_time;
  last_updated = unix_nano price.last_updated;
  value = price.value;
  name = price.name;
  base = price.base;
}

unfoldable pub pool_row : CoinsText → Pool → PoolRow
pool_row coins pool = record {
  created_at = zero_time;
  updated_at = zero_time;
  timestamp = pool.timestamp;
  height = pool.height;
  pool_id = pool.pool_id;
  liquidity = coins.print pool.liquidity;
  volume = coins.print pool.volume;
}

module _ {F D : Type 0} (tables : Tables F D) where
  -- The name of a trace is ibc-go's `IBCDenom`.
  unfoldable pub save_ibc_denom : (DenomTrace → Text) → D → DenomTrace → Option Error × D
  unfolding ibc_denom_row
  save_ibc_denom ibc_of d t = tables.ibc_denoms.create d keep_old (ibc_denom_row ibc_of t)

  unfoldable pub save_token_price : D → TokenPrice F → Option Error × D
  unfolding token_price_row
  save_token_price d price = tables.token_prices.create d with_new_price (token_price_row price)

  unfoldable pub prune_token_prices : D → Time → Result ℕ × D
  prune_token_prices d t =
      removed (tables.token_prices.delete d (λ row. ltb_ℤ row.last_updated (unix_nano t)))

  unfoldable pub prune_pools : D → ℕ → Result ℕ × D
  prune_pools d height = removed (tables.pools.delete d (λ row. ltb row.height height))

  module _ (coins : CoinsText) where
    unfoldable pub save_pool : D → Pool → Option Error × D
    unfolding pool_row
    save_pool d pool = tables.pools.create d with_new_pool (pool_row coins pool)

    -- What the indexer is given.
    abbrev pub repository : (DenomTrace → Text) → Repository F D
    repository ibc_of = record {
      ibc_denom = ibc_denom tables;
      ibc_denom_all = ibc_denom_all tables;
      token_price = token_price tables;
      nearest_token_price = nearest_token_price tables;
      latest_token_price = latest_token_price tables;
      latest_pool = latest_pool coins tables;
      pools_range = pools_range coins tables;
      token_prices_range = token_prices_range tables;
      save_ibc_denom = save_ibc_denom ibc_of;
      save_token_price = save_token_price;
      save_pool = save_pool;
      prune_token_prices = prune_token_prices;
      prune_pools = prune_pools;
    }
