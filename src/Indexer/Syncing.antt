-- ===== src/Indexer/Syncing.antt =====
-- internal/indexer/syncing.go, and what it calls of pool.go and prices.go: the queue of heights
-- that lack pools, the pruning, and the loading at the start. A run of `queueMissingHeights` is
-- one step, in which the channel takes what is sent, and Channel has it in turns with the receiver;
-- the times of now are arguments.
pub mod Queueing
pub mod Pruning
pub mod Synced
pub mod Draining
pub mod Restarting
pub mod Channel
pub mod Sending
pub mod Waiting
use osmosis_publisher.Prelude.{
  ℕ, zero, suc, ◌-◌, ◌/◌, ℤ, pos, ◌-ℤ◌, ◌+ℤ◌, ◌*ℤ◌, neg, Bool, not, any, List, [], ◌∷◌, Option,
  none, some, is_empty, ◌==◌, nat_eq, int_eq, if◌then◌else◌, sub64, mul64, to_int64, to_uint64,
  wrap64, Text, codes, length,
}
use osmosis_publisher.Types.{Time, Pool, TokenPrice, Float64, hour, Result, ok, err, panic}
use osmosis_publisher.Interfaces.{Repository, ExpectedRpc}
use osmosis_publisher.Pools.{PoolMap, set_pool, has_pool, prune_pools, set_max_value}
use osmosis_publisher.Prices.{PriceMap, set_price, prune, sort, sort_token, convert_to_micro_token}
use osmosis_publisher.Indexer.{Indexer, World, Exec, continue, default_blocks_per_hour}
use osmosis_publisher.Indexer.BlockClock.{quot64}
use osmosis_publisher.Indexer.PoolStatus.{pool_statuses_at}
use osmosis_publisher.Indexer.DenomTraces.{pre_heat_denom_trace_cache}
use osmosis_publisher.Types.{DenomTrace}

-- Whether a pool of the ids is missing at the height.
unfoldable pub is_missing : PoolMap → List ℕ → ℕ → Bool
is_missing pools ids height = any (λ id. not (has_pool pools height id)) ids

-- The loop of queueMissingHeights over the heights from `start`, as many as there are.
unfoldable pub missing_from : PoolMap → List ℕ → ℕ → ℕ → List ℕ
unfolding is_missing
missing_from pools ids start zero = []
missing_from pools ids start (suc n) =
    let rest = missing_from pools ids (suc start) n in
    if is_missing pools ids start then start ∷ rest else rest

-- `t.Add(-(time.Hour*time.Duration(blocks))/time.Duration(perHour))`, for a rate that is not 0.
unfoldable blocks_ago : Time → ℤ → ℤ → Time
unfolding quot64
blocks_ago t blocks per_hour = t +ℤ quot64 (wrap64 (neg (wrap64 (hour *ℤ blocks)))) per_hour

-- The heights of the pools that are loaded raise the current one.
unfoldable pub load_pools : {F : Type 0} → List Pool → Indexer F → Indexer F
load_pools [] d = d
load_pools (p ∷ ps) d = load_pools ps (record d {
  pools = set_pool d.pools p;
  current_block_height = (set_max_value d.current_block_height p.height).0;
})

unfoldable load_prices : {F : Type 0} → List (TokenPrice F) → PriceMap F → PriceMap F
load_prices [] prices = prices
load_prices (p ∷ ps) prices = load_prices ps (set_price prices p).0

module _ {F : Type 0} where
  -- queueMissingHeights
  unfoldable pub queue_missing_heights : Indexer F → ℕ → Indexer F
  unfolding missing_from
  queue_missing_heights d blocks =
      let height_end = d.current_block_height in
      let height_start = sub64 height_end blocks in
      if is_empty d.sync_heights
      then record d {
        sync_heights =
            missing_from d.pools d.pool_ids_to_monitor height_start (height_end - height_start);
      }
      else d

  -- What monitorHeights prunes below: `current - (blocks*3)/2`.
  unfoldable pub prune_height : Indexer F → ℕ → ℕ
  prune_height d blocks = sub64 d.current_block_height (mul64 blocks 3 / 2)

  -- The time below which pricesPrune prunes.
  unfoldable pub prune_time : Indexer F → ℕ → Time
  unfolding quot64
  prune_time d min_height =
      let delta = to_int64 (sub64 d.current_block_height min_height) in
      wrap64 (d.last_block_timestamp -ℤ quot64 (wrap64 (hour *ℤ delta)) d.blocks_per_hour)

module _ {F S : Type 0} (repo : Repository F S) where
  -- poolsPrune
  unfoldable pub pools_prune : ℕ → World F S → World F S
  pools_prune min_height w = record w {
    indexer = record w.indexer { pools = (prune_pools w.indexer.pools min_height).0 };
    outside = (repo.prune_pools w.outside min_height).1;
  }

  -- pricesPrune: the division panics at a rate of 0.
  unfoldable pub prices_prune : ℕ → Exec F S (Unit {0})
  unfolding prune_time
  prices_prune min_height w =
      let min_last_updated = prune_time w.indexer min_height in
      if w.indexer.blocks_per_hour == pos 0 then (panic, w) else (
        ok tt,
        record w {
          indexer = record w.indexer { prices = (prune w.indexer.prices min_last_updated).0 };
          outside = (repo.prune_token_prices w.outside min_last_updated).1;
        },
      )

  -- One round of monitorHeights.
  unfoldable pub monitor_round : ℕ → Exec F S (Unit {0})
  unfolding queue_missing_heights pools_prune prices_prune prune_height
  monitor_round blocks w =
      let queued = record w { indexer = queue_missing_heights w.indexer blocks } in
      let min_height = prune_height queued.indexer blocks in
      prices_prune min_height (pools_prune min_height queued)

  -- preHeatPools: an error of the repository leaves the cache as it is. A panic there would end
  -- the process, and is not followed further, here and in the rest of New.
  unfoldable pub pre_heat_pools : ℕ → World F S → World F S
  unfolding load_pools
  pre_heat_pools blocks w =
      let height = w.indexer.current_block_height in
      elim (repo.pools_range w.outside (sub64 height blocks) height 0) [
        | ok pools ↦ record w { indexer = load_pools pools w.indexer }
        | err _ ↦ w
        | panic ↦ w
      ]

  -- preHeatPrices
  unfoldable pre_heat_prices : Time → ℕ → World F S → World F S
  unfolding load_prices blocks_ago
  pre_heat_prices now blocks w =
      let from = blocks_ago now (to_int64 blocks) w.indexer.blocks_per_hour in
      elim (repo.token_prices_range w.outside from now []) [
        | ok prices ↦ record w {
          indexer = record w.indexer { prices = sort (load_prices prices w.indexer.prices) };
        }
        | err _ ↦ w
        | panic ↦ w
      ]

  -- SetLatestPrice: an error of saving the price is logged.
  unfoldable pub set_latest_price :
      ⦃float : Float64 F⦄ → Text → Text → F → Time → World F S → World F S
  set_latest_price token base value last_updated w =
      let (name, v, _) = convert_to_micro_token token value in
      let price : TokenPrice F = record {
        last_updated = last_updated;
        value = v;
        name = name;
        base = base;
      } in
      let (prices, need_sort) = set_price w.indexer.prices price in
      record w {
        indexer = record w.indexer {
          prices = if need_sort then sort_token prices name else prices;
        };
        outside = (repo.save_token_price w.outside price).1;
      }

  module _ (rpc : ExpectedRpc S) where
    -- syncHeight
    unfoldable pub sync_height : ℕ → Exec F S (Unit {0})
    sync_height height w =
        continue (pool_statuses_at repo rpc height w.indexer.pool_ids_to_monitor w)
          λ (_, _, failure) w'. elim failure [ none ↦ (ok tt, w') | some e ↦ (err e, w') ]

    -- One round of handleSyncing: a height is taken from the queue and synced, and an error logged.
    unfoldable pub handle_one : World F S → World F S
    unfolding sync_height
    handle_one w = elim (w.indexer.sync_heights) [
      | [] ↦ w
      | height ∷ rest ↦
          (sync_height height (record w { indexer = record w.indexer { sync_heights = rest } })).1
    ]

    -- The indexer that New starts from.
    abbrev pub started : List ℕ → ℤ → Time → Indexer F
    started pool_ids height time = record {
      ibc_trace_cache = [];
      ibc_misses = 0;
      err_counter = 0;
      sync_heights = [];
      pool_ids_to_monitor = pool_ids;
      pools = [];
      prices = [];
      current_block_height = to_uint64 height;
      current_block_time = wrap64 time;
      blocks_per_hour = pos default_blocks_per_hour;
      last_block_height = 0;
      last_block_timestamp = pos 0;
    }

    -- New: the block that the node has now, then what the repository has.
    unfoldable new_indexer : (DenomTrace → Text) → List ℕ → ℕ → Time → S → Result (World F S)
    unfolding pre_heat_pools pre_heat_prices
    new_indexer ibc_denom pool_ids blocks now s =
        let asked = rpc.block_at s (pos 0) in
        elim asked.0 [
          | ok b ↦
              let w : World F S = record {
                indexer = started pool_ids b.height b.time;
                outside = asked.1;
              } in
              ok (
                pre_heat_prices now blocks
                  (pre_heat_pools blocks (pre_heat_denom_trace_cache ibc_denom repo rpc w)))
          | err e ↦ err e
          | panic ↦ panic
        ]
