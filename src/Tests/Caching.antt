-- ===== src/Tests/Caching.antt =====
-- Tests and witnesses of the pool cache, and of what is looked up in it.
use osmosis_publisher.Prelude.{
  ℕ, nat_eq, ◌≡◌, refl, List, [], ◌∷◌, none, lookup, insert, arith, codes, to_int64, Text, text_eq,
}
use osmosis_publisher.Types.{Error, PoolStatus, join_errors, ok}
use osmosis_publisher.Pools
use osmosis_publisher.Pools.{PoolMap, set_pool, prune_pools}
use osmosis_publisher.Pools.Caching.{IsKeyed, set_pool-IsKeyed}
use osmosis_publisher.Indexer.{World}
use osmosis_publisher.Indexer.PoolStatus.{
  or_current, get_pool, fetch_pool, pool_statuses_at, pool_status_at, status_loop, status_of,
}
use osmosis_publisher.Indexer.PoolStatus.Fetching.{get_pool_again, cached}
use osmosis_publisher.Indexer.PoolStatus.Statuses.{Answers, pool_statuses_at_total}
use osmosis_publisher.Indexer.DenomTraces.{denom_trace, query_denom_trace}
use osmosis_publisher.Osmosis.Queries.{pools_total_liquidity_at, pools_volume_at, ask_denom_trace}
use osmosis_publisher.Osmosis.Queries.Answered.{client-AnswersAll}
use osmosis_publisher.Tests.{
  one_pool, pool_at, world, indexer, outside, Outside, node, repo, service, coins, trace, whole,
}

empty-IsKeyed : IsKeyed []
unfolding Pools.get_pool lookup
empty-IsKeyed height id p h = cc

one-IsKeyed : IsKeyed one_pool
unfolding set_pool insert lookup
one-IsKeyed = set_pool-IsKeyed [] (pool_at 9 1) empty-IsKeyed

-- The answer to a miss at the current height, and the state after it.
fetched_now :
    get_pool repo node 0 1 world ≡ (ok (pool_at 10 1), cached world (pool_at 10 1) outside)
unfolding get_pool fetch_pool Pools.get_pool lookup pools_total_liquidity_at pools_volume_at
fetched_now = refl

get_pool_again_example :
    get_pool repo node 0 1 (cached world (pool_at 10 1) outside)
    ≡ (ok (pool_at 10 1), cached world (pool_at 10 1) outside)
get_pool_again_example =
    get_pool_again repo node 0 1 world (cached world (pool_at 10 1) outside) (pool_at 10 1)
      fetched_now

missing : Pools.get_pool world.indexer.pools 10 1 ≡ none
unfolding Pools.get_pool lookup
missing = refl

asked_liquidity :
    node.pools_total_liquidity_at outside (to_int64 10) (1 ∷ [])
    ≡ (ok (record { pool_id = 1; liquidity = coins } ∷ []), outside)
unfolding pools_total_liquidity_at
asked_liquidity = refl

asked_volume :
    node.pools_volume_at outside (to_int64 10) (1 ∷ [])
    ≡ (ok (record { pool_id = 1; volume = coins } ∷ []), outside)
unfolding pools_volume_at
asked_volume = refl

pool_statuses_at_total_example :
    (sts : List (PoolStatus ℕ)) × (errs : List Error) × ((pool_statuses_at repo node 0
        (1 ∷ [])
        world).0
      ≡ ok (sts, or_current world 0, join_errors errs))
    × Answers repo node world.indexer.pools (or_current world 0) (1 ∷ []) sts errs
pool_statuses_at_total_example =
    pool_statuses_at_total repo node 0 (1 ∷ []) world (client-AnswersAll service 3)
      (λ e. omega arith)

statuses :
    (pool_statuses_at repo node 0 (1 ∷ []) world).0
    ≡ ok (status_of 10 1 (pool_at 10 1) ∷ [], 10, none)
unfolding pool_statuses_at pool_status_at status_loop get_pool fetch_pool Pools.get_pool set_pool
    insert lookup pools_total_liquidity_at pools_volume_at
statuses = refl

abbrev ibc : Text
ibc = codes "ibc/27"

abbrev traced : World ℕ Outside
traced = record world {
  indexer = record indexer { ibc_trace_cache = (ibc, trace) ∷ []; ibc_misses = 1 };
}

traced_now : denom_trace repo node ibc world ≡ (ok trace, traced)
unfolding denom_trace query_denom_trace ask_denom_trace lookup insert
traced_now = refl
