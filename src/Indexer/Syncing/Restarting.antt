-- ===== src/Indexer/Syncing/Restarting.antt =====
-- preHeatPools (internal/indexer/pool.go) with the database of internal/repository.
use osmosis_publisher.Prelude.{
  ℕ, sub64, ◌≤◌, nat_eq, pair_keys, Text, List, [], ◌∷◌, Member, none, inl, inr, ◌⊎◌, some, ◌&&◌,
  ◌==◌, ◌≢◌, sym, ap, false, ==_cases, Distinct, map, ◌≡◌, refl,
}
use osmosis_publisher.Types.{Pool, DenomTrace, ok, zero_time}
use osmosis_publisher.Database.{Tables, IsTable, pool_schema}
use osmosis_publisher.Database.Reading.{CoinsText, pools_range}
use osmosis_publisher.Database.Writing.{save_pool, repository}
use osmosis_publisher.Database.Ranges.{pools_range-save_pool, pools_range_unique}
use osmosis_publisher.Pools.{PoolMap, get_pool, set_pool, set_max_value}
use osmosis_publisher.Pools.Caching.{get_pool-set_pool}
use osmosis_publisher.Indexer.{Indexer, World}
use osmosis_publisher.Indexer.Syncing.{load_pools, pre_heat_pools}

load_other :
    (p q : Pool) (ps : List Pool) (pools : PoolMap)
    → (p.height == q.height && p.pool_id == q.pool_id) ≡ false
    → p ≢ q
    → Member q (p ∷ ps) ⊎ (get_pool pools q.height q.pool_id ≡ some q)
    → Member q ps ⊎ (get_pool (set_pool pools p) q.height q.pool_id ≡ some q)
load_other p q ps pools f n (inl (inl e)) = absurd (n (sym e))
load_other p q ps pools f n (inl (inr m)) = inl m
load_other p q ps pools f n (inr h) = inr (rw (get_pool-set_pool pools p q.height q.pool_id, f) h)

load_one :
    (p : Pool) (ps : List Pool) (pools : PoolMap) (q : Pool)
    → (p.height ≡ q.height → p.pool_id ≡ q.pool_id → p ≡ q)
    → Member q (p ∷ ps) ⊎ (get_pool pools q.height q.pool_id ≡ some q)
    → Member q ps ⊎ (get_pool (set_pool pools p) q.height q.pool_id ≡ some q)
load_one p ps pools q only had = elim (==_cases p.height q.height) [
  | inr (f, n) ↦ load_other p q ps pools (rw f refl) (λ e. n (ap (λ x. x.height) e)) had
  | inl (t, a) ↦ elim (==_cases p.pool_id q.pool_id) [
    | inr (f, n) ↦ load_other p q ps pools (rw (t, f) refl) (λ e. n (ap (λ x. x.pool_id) e)) had
    | inl (t', b) ↦
        inr (rw (get_pool-set_pool pools p q.height q.pool_id, t, t') (ap some (only a b)))
  ]
]

-- The cache has a pool that is loaded, if each that is loaded for its height and id is it.
load_pools-get_pool :
    {F : Type 0} (ps : List Pool) (d : Indexer F) (q : Pool)
    → ((p : Pool) → Member p ps → p.height ≡ q.height → p.pool_id ≡ q.pool_id → p ≡ q)
    → Member q ps ⊎ (get_pool d.pools q.height q.pool_id ≡ some q)
    → get_pool (load_pools ps d).pools q.height q.pool_id ≡ some q
unfolding load_pools
load_pools-get_pool [] d q only (inl m) = absurd m
load_pools-get_pool [] d q only (inr h) = h
load_pools-get_pool {F} (p ∷ ps) d q only had =
    let set : Indexer F = record d {
      pools = set_pool d.pools p;
      current_block_height = (set_max_value d.current_block_height p.height).0;
    } in
    load_pools-get_pool ps set q (λ r m. only r (inr m))
      (load_one p ps d.pools q (only p (inl refl)) had)

-- If the pools of the database are unique by height and id, as its index makes them, sdk reads
-- back the coins that it printed, and a save of a pool reports no error, then a start of the
-- indexer whose PoolsRange answers, for a height of the pool in the window that it loads, has the
-- pool cached with its liquidity and its volume, but at the zero time.
pub pre_heat_pools-save_pool :
    {F D : Type 0} (coins : CoinsText) (tables : Tables F D) (ibc_of : DenomTrace → Text)
    (keeps : IsTable pool_schema tables.pools) (d : D) (pool : Pool) (blocks : ℕ)
    (indexer : Indexer F) (ps : List Pool)
    → Distinct (map pool_schema.key (keeps.rows d))
    → coins.parse (coins.print pool.liquidity) ≡ inl pool.liquidity
    → coins.parse (coins.print pool.volume) ≡ inl pool.volume
    → (save_pool tables coins d pool).0 ≡ none
    → sub64 indexer.current_block_height blocks ≤ pool.height
    → pool.height ≤ indexer.current_block_height
    → let d' = (save_pool tables coins d pool).1 in
      let from = sub64 indexer.current_block_height blocks in
      let w : World F D = record { indexer = indexer; outside = d' } in
      pools_range coins tables d' from indexer.current_block_height 0 ≡ ok ps
      → get_pool
          (pre_heat_pools (repository tables coins ibc_of) blocks w).indexer.pools
          pool.height
          pool.pool_id
        ≡ some (record pool { timestamp = zero_time })
unfolding pre_heat_pools
pre_heat_pools-save_pool coins tables ibc_of keeps d pool blocks indexer ps unique l v saved from to
      h =
    let low = sub64 indexer.current_block_height blocks in
    let high = indexer.current_block_height in
    let m =
      pools_range-save_pool coins tables keeps d pool low high 0 ps l v saved from to (inl refl)
        h in
    rw (pre_heat_pools, h)
      (load_pools-get_pool ps indexer (record pool { timestamp = zero_time })
        (λ p m' a b.
          pools_range_unique coins tables keeps d pool low high 0 ps p unique l v saved h m' a b)
        (inl m))
