-- ===== src/Tests.antt =====
-- Concrete data for the tests: float64 as whole numbers, prices, pools, a node that answers, and
-- repositories that save or fail.
pub mod Pricing
pub mod Caching
pub mod Syncing
pub mod Volumes
pub mod Publishing
pub mod Interest
pub mod Memory
pub mod Saving
pub mod Serving
pub mod Starting
pub mod Running
use osmosis_publisher.Prelude.{
  ℕ, ◌+◌, ◌-◌, ◌*◌, ◌/◌, ℤ, pos, pos_part, Text, codes, List, [], ◌∷◌, Option, none, some, ◌⊎◌, inl,
  inr,
}
use osmosis_publisher.Types.{
  Float64, TokenPrice, Pool, PoolLiquidity, PoolVolume, Coin, Coins, DenomTrace, Error, Result, ok,
  err, panic, zero_time, nanos_per_hour,
}
use osmosis_publisher.Interfaces.{Repository, ExpectedRpc, Block}
use osmosis_publisher.Prices.{PriceMap, set_price}
use osmosis_publisher.Pools.{PoolMap, set_pool}
use osmosis_publisher.Indexer.{Indexer, World}
use osmosis_publisher.Osmosis.Queries.{Node, Client, client}

instance abbrev pub whole : Float64 ℕ
whole = record {
  nought = 0;
  two = 2;
  micro = 1;
  add = λ x y. x + y;
  sub = λ x y. x - y;
  mul = λ x y. x * y;
  div = λ x y. x / y;
  seconds = λ d. pos_part d / 1_000_000_000;
  hours = λ d. pos_part d / nanos_per_hour;
  of_uint64 = λ n. n;
  to_int64 = pos;
  scale = λ n x. pos_part n * x;
}

abbrev pub uosmo : Text
uosmo = codes "uosmo"

abbrev pub usd : Text
usd = codes "USD"

abbrev pub price_of : ℕ → ℕ → TokenPrice ℕ
price_of t v = record { last_updated = pos t; value = v; name = uosmo; base = usd }

abbrev pub early : TokenPrice ℕ
early = price_of 10 3

abbrev pub late : TokenPrice ℕ
late = price_of 30 5

abbrev pub one_price : PriceMap ℕ
unfolding set_price
one_price = (set_price [] early).0

abbrev pub two_prices : PriceMap ℕ
unfolding one_price set_price
two_prices = (set_price one_price late).0

abbrev pub coins : Coins
coins = record { denom = uosmo; amount = pos 7 } ∷ []

abbrev pub pool_at : ℕ → ℕ → Pool
pool_at height id = record {
  timestamp = zero_time;
  height = height;
  pool_id = id;
  liquidity = coins;
  volume = coins;
}

abbrev pub one_pool : PoolMap
one_pool = (9, (1, pool_at 9 1) ∷ []) ∷ []

-- The node has the same coins for every pool, and a page of one trace.
abbrev pub trace : DenomTrace
trace = record { path = codes "transfer"; base_denom = codes "uatom" }

abbrev pub service : Node (Unit {0})
service = record {
  total_pool_liquidity = λ n h id. (inl coins, n);
  total_volume_for_pool = λ n h id. (inl coins, n);
  denom_trace = λ n ibc. (inl trace, n);
  denom_traces = λ n key. (inl (trace ∷ [], none), n);
  block = λ n h. (inr [], n);
}

abbrev pub Outside : Type 0
Outside = Client (Unit {0})

abbrev pub outside : Outside
outside = record { err_counter = 0; node = tt }

abbrev pub node : ExpectedRpc Outside
node = client service 3

abbrev pub saving : Option Error → Repository ℕ Outside
saving failure = record {
  ibc_denom = λ s ibc. none;
  ibc_denom_all = λ s. [];
  token_price = λ s t name. none;
  nearest_token_price = λ s t name. none;
  latest_token_price = λ s name. none;
  latest_pool = λ s id. none;
  pools_range = λ s lo hi id. ok [];
  token_prices_range = λ s from to name. ok [];
  save_ibc_denom = λ s t. (failure, s);
  save_token_price = λ s p. (failure, s);
  save_pool = λ s p. (failure, s);
  prune_token_prices = λ s t. (ok 0, s);
  prune_pools = λ s h. (ok 0, s);
}

abbrev pub repo : Repository ℕ Outside
repo = saving none

-- At height 10, with pool 1 cached at 9 and one price, and a rate of 2 blocks an hour.
abbrev pub indexer : Indexer ℕ
indexer = record {
  ibc_trace_cache = [];
  ibc_misses = 0;
  err_counter = 0;
  sync_heights = [];
  pool_ids_to_monitor = 1 ∷ [];
  pools = one_pool;
  prices = [];
  current_block_height = 10;
  current_block_time = pos 0;
  blocks_per_hour = pos 2;
  last_block_height = 8;
  last_block_timestamp = pos 0;
}

abbrev pub world : World ℕ Outside
world = record { indexer = indexer; outside = outside }
