-- ===== src/Indexer/PoolStatus.antt =====
-- internal/indexer/pool.go, lines 121-192: the pools that are looked up in the cache and, where it
-- lacks them, asked for, cached and saved.
pub mod Asking
pub mod Fetching
pub mod Origin
pub mod Statuses
use osmosis_publisher.Prelude.{
  ℕ, ℤ, List, [], ◌∷◌, Option, none, some, Bool, true, false, ◌==◌, nat_eq, if◌then◌else◌, to_int64,
  ◌⊎◌, inl, inr,
}
use osmosis_publisher.Types.{
  Pool, PoolStatus, PoolStatusVolumeAt, PoolLiquidity, PoolVolume, Error, join_errors, zero_time,
  Result, ok, err,
}
use osmosis_publisher.Interfaces.{Repository, ExpectedRpc}
use osmosis_publisher.Pools
use osmosis_publisher.Pools.{set_pool}
use osmosis_publisher.Indexer.{
  Indexer, World, Exec, ◌>>=◌, ◌>>◌, pure, call, run, modify, first, caught, continue,
}

module _ {F S : Type 0} where
  -- A height of 0 stands for the current one.
  abbrev pub or_current : World F S → ℕ → ℕ
  or_current w height = if height == 0 then w.indexer.current_block_height else height

abbrev pub fetched : ℕ → ℕ → PoolLiquidity → PoolVolume → Pool
fetched height pool_id l v = record {
  timestamp = zero_time;
  height = height;
  pool_id = pool_id;
  liquidity = l.liquidity;
  volume = v.volume;
}

module _ {F : Type 0} where
  abbrev pub status_of : ℕ → ℕ → Pool → PoolStatus F
  status_of height pool_id pool = record {
    pool_id = pool_id;
    total_liquidity = pool.liquidity;
    volumes =
        record {
          block_height = to_int64 height;
          volume = pool.volume;
          volume_usd = [];
          relative_volume_usd = [];
        }
        ∷ [];
  }

  -- What a slice of statuses is made of before it is filled.
  abbrev pub zero_status : PoolStatus F
  zero_status = record { pool_id = 0; total_liquidity = []; volumes = [] }

  -- One round of the loop of PoolStatusesAt: the status or the error is kept.
  abbrev pub collect :
      PoolStatus F × ℕ ⊎ Error → List (PoolStatus F) × List Error → List (PoolStatus F) × List Error
  collect (inl (ps, _)) (statuses, errs) = (ps ∷ statuses, errs)
  collect (inr e) (statuses, errs) = (zero_status ∷ statuses, e ∷ errs)

module _ {F S : Type 0} (repo : Repository F S) (rpc : ExpectedRpc S) where
  -- getPool behind a miss of the cache.
  unfoldable pub fetch_pool : ℕ → ℕ → Exec F S Pool
  fetch_pool height pool_id = do
    liquidity ← call (λ s. rpc.pools_total_liquidity_at s (to_int64 height) (pool_id ∷ []))
    volume ← call (λ s. rpc.pools_volume_at s (to_int64 height) (pool_id ∷ []))
    l ← (λ w. (first liquidity, w))
    v ← (λ w. (first volume, w))
    let pool = fetched height pool_id l v
    modify (λ d. record d { pools = set_pool d.pools pool })
    run (λ s. repo.save_pool s pool)
    pure pool

  unfoldable pub get_pool : ℕ → ℕ → Exec F S Pool
  unfolding fetch_pool
  get_pool height pool_id w =
      let h = or_current w height in
      elim (Pools.get_pool w.indexer.pools h pool_id) [
        | some pool ↦ (ok pool, w)
        | none ↦ fetch_pool h pool_id w
      ]

  unfoldable pub pool_status_at : ℕ → ℕ → Exec F S (PoolStatus F × ℕ)
  unfolding get_pool
  pool_status_at height pool_id w =
      let h = or_current w height in
      continue (get_pool h pool_id w) λ pool. pure (status_of h pool_id pool, h)

  -- The loop of PoolStatusesAt over the ids.
  unfoldable pub status_loop : ℕ → List ℕ → Exec F S (List (PoolStatus F) × List Error)
  unfolding pool_status_at
  status_loop height [] = pure ([], [])
  status_loop height (id ∷ ids) = do
    status ← (λ w. caught (pool_status_at height id w))
    rest ← status_loop height ids
    pure (collect status rest)

  -- PoolStatusesAt: the statuses, the height, and the errors joined.
  unfoldable pub pool_statuses_at : ℕ → List ℕ → Exec F S (List (PoolStatus F) × ℕ × Option Error)
  unfolding status_loop
  pool_statuses_at height ids w =
      let h = or_current w height in
      continue (status_loop h ids w) λ r. pure (r.0, h, join_errors r.1)
